-- ===== src/Expansion/Schedule/Count.antt =====
-- How many items are neither completed nor recovered, what a recovery leaves of the scheduler, and
-- the dependents of an item.
use elamite.Base.{
  ℕ, zero, suc, ◌+◌, ◌<◌, ◌≤◌, ◌≡◌, refl, ap, ◌∙◌, Bool, true, false, ◌||◌, inl, inr, List, [], ◌∷◌,
  ◌++◌, some, arith, get_elem?, get_elem?-some, length, map, contains, if◌then◌else◌, ◌==◌,
  Bool-cases, subst,
}
use elamite.Expansion.Chain.{ExpansionWorkState, ScheduledExpansion}
use elamite.Expansion.Ready.{LocationOrder, ReadyKey, sort_keys, dedup}
use elamite.Expansion.Defs.{
  ExpansionDependency, ExpansionScheduler, is_completed, is_recovered, update_at, add_key,
  dependent_keys,
}
use elamite.Expansion.Schedule.Work.{ids_cases, get_elem?-update_at_other}
use elamite.Expansion.Schedule.Keys.{ids, sort_keys-contains, dedup-contains}
use elamite.Expansion.Schedule.Sound.{Sound, has_edge, edges_ascend}

abbrev pub is_closed : ExpansionWorkState → Bool
is_closed st = is_completed st || is_recovered st

module _ {Kind : Type 0} where
  abbrev pub open_count : List (ScheduledExpansion Kind) → ℕ
  open_count [] = 0
  open_count (r ∷ rs) = if is_closed r.state then open_count rs else suc (open_count rs)

  module _ (f : ScheduledExpansion Kind → ScheduledExpansion Kind) where
    pub open_count-closes :
        (i : ℕ) (work : List (ScheduledExpansion Kind)) (r : ScheduledExpansion Kind)
        → get_elem? work i ≡ some r
        → is_closed r.state ≡ false
        → is_closed (f r).state ≡ true
        → open_count (update_at i f work) < open_count work
    unfolding update_at
    open_count-closes i [] r e old new = cc
    open_count-closes zero (x ∷ work) r e old new =
        let same : r ≡ x = cc in
        let before : is_closed x.state ≡ false = subst (λ z. is_closed z.state ≡ false) same old in
        let after : is_closed (f x).state ≡ true =
          subst (λ z. is_closed (f z).state ≡ true) same new in
        rw (before, after) (omega arith)
    open_count-closes (suc i) (x ∷ work) r e old new =
        let less = open_count-closes i work r e old new in ground arith

    pub open_count-same :
        (i : ℕ) (work : List (ScheduledExpansion Kind)) (r : ScheduledExpansion Kind)
        → get_elem? work i ≡ some r
        → is_closed (f r).state ≡ is_closed r.state
        → open_count (update_at i f work) ≡ open_count work
    unfolding update_at
    open_count-same i [] r e same = refl
    open_count-same zero (x ∷ work) r e same =
        let is : r ≡ x = cc in
        let alike : is_closed (f x).state ≡ is_closed x.state =
          subst (λ z. is_closed (f z).state ≡ is_closed z.state) is same in
        rw alike refl
    open_count-same (suc i) (x ∷ work) r e same =
        ap (λ n. if is_closed x.state then n else suc n) (open_count-same i work r e same)

  pub open_count-le : (work : List (ScheduledExpansion Kind)) → open_count work ≤ length work
  open_count-le [] = omega arith
  open_count-le (x ∷ work) = let less = open_count-le work in ground arith

  pub open_count-push :
      (work : List (ScheduledExpansion Kind)) (new : ScheduledExpansion Kind)
      → is_closed new.state ≡ false
      → open_count (work ++ new ∷ []) ≡ suc (open_count work)
  open_count-push [] new h = rw h refl
  open_count-push (x ∷ work) new h = let rest = open_count-push work new h in ground arith

  pub open_count-zero :
      (work : List (ScheduledExpansion Kind))
      → ((j : ℕ) (r : ScheduledExpansion Kind)
          → get_elem? work j ≡ some r
          → is_closed r.state ≡ true)
      → open_count work ≡ 0
  open_count-zero [] h = refl
  open_count-zero (x ∷ work) h = rw (h 0 x refl) (open_count-zero work (λ j r e. h (suc j) r e))

  pub zero-open_count :
      (work : List (ScheduledExpansion Kind)) (j : ℕ) (r : ScheduledExpansion Kind)
      → open_count work ≡ 0
      → get_elem? work j ≡ some r
      → is_closed r.state ≡ true
  zero-open_count [] j r h e = cc
  zero-open_count (x ∷ work) zero r h e =
      let same : x ≡ r = cc in subst (λ z. is_closed z.state ≡ true) same (ground arith)
  zero-open_count (x ∷ work) (suc j) r h e = zero-open_count work j r (ground arith) e

  -- What is completed or recovered stays as it is.
  abbrev pub Fixed : List (ScheduledExpansion Kind) → List (ScheduledExpansion Kind) → Type 0
  Fixed work after =
      (j : ℕ) (r : ScheduledExpansion Kind)
      → get_elem? work j ≡ some r
      → is_closed r.state ≡ true
      → get_elem? after j ≡ some r

  pub Fixed-trans : (a b c : List (ScheduledExpansion Kind)) → Fixed a b → Fixed b c → Fixed a c
  Fixed-trans a b c f g j r e closed = g j r (f j r e closed) closed

  -- A change of another item leaves it.
  pub Fixed-update_at :
      (f : ScheduledExpansion Kind → ScheduledExpansion Kind) (i : ℕ)
      (work : List (ScheduledExpansion Kind)) (r : ScheduledExpansion Kind)
      → get_elem? work i ≡ some r
      → is_closed r.state ≡ false
      → Fixed work (update_at i f work)
  Fixed-update_at f i work r e unfinished j x at closed = elim (ids_cases i j) [
    | inl same ↦
        let here : get_elem? work i ≡ some x = subst (λ z. get_elem? work z ≡ some x) same at in
        let alike : x ≡ r = cc in
        let done : is_closed r.state ≡ true = subst (λ z. is_closed z.state ≡ true) alike closed in
        cc
    | inr apart ↦ get_elem?-update_at_other f i j work apart ∙ at
  ]

  -- What refreshes and recoveries leave.
  pub record Kept (s t : ExpansionScheduler Kind) : Type 0 where
    pub limits : t.limits ≡ s.limits
    pub usage : t.usage ≡ s.usage
    pub edges : t.edges ≡ s.edges
    pub fixed : Fixed s.work t.work
    pub count : length t.work ≡ length s.work
    pub open_items : open_count t.work ≤ open_count s.work
    pub tally : length t.recoveries + open_count t.work ≤ length s.recoveries + open_count s.work

  -- A recovery leaves the scheduler sound, with fewer items that are neither completed nor recovered.
  abbrev pub Recovered :
      (A U : ℕ → Bool) → ExpansionScheduler Kind → ExpansionScheduler Kind → Type 0
  Recovered A U s t = Sound A U t × Kept s t × (open_count t.work < open_count s.work)

  pub Kept-refl : (s : ExpansionScheduler Kind) → Kept s s
  Kept-refl s = record {
    limits = refl;
    usage = refl;
    edges = refl;
    fixed = λ j r e c. e;
    count = refl;
    open_items = omega arith;
    tally = omega arith;
  }

  pub Kept-trans : (s t u : ExpansionScheduler Kind) → Kept s t → Kept t u → Kept s u
  Kept-trans s t u a b = record {
    limits = b.limits ∙ a.limits;
    usage = b.usage ∙ a.usage;
    edges = b.edges ∙ a.edges;
    fixed = Fixed-trans s.work t.work u.work a.fixed b.fixed;
    count = b.count ∙ a.count;
    open_items = omega (arith, a.open_items, b.open_items);
    tally = omega (arith, a.tally, b.tally);
  }

  -- The dependents are there, and they are those of the edges.
  abbrev DependentsOf : List (ScheduledExpansion Kind) → ℕ → List ExpansionDependency → Type 0
  DependentsOf work p edges =
      (keys : List ReadyKey) × (dependent_keys work p edges ≡ some keys)
      × ((j : ℕ) → contains j (ids keys) ≡ has_edge p edges j)

  dependent_keys-some :
      (work : List (ScheduledExpansion Kind)) (p : ℕ) (edges : List ExpansionDependency)
      → edges_ascend (length work) edges ≡ true
      → DependentsOf work p edges
  unfolding dependent_keys add_key has_edge edges_ascend contains
  dependent_keys-some work p [] h = ([], refl, λ j. refl)
  dependent_keys-some work p (e ∷ edges) h =
      let (keys, made, is) = dependent_keys-some work p edges (ground arith) in
      elim (Bool-cases (e.prerequisite == p)) [
        | inl same ↦
            let (r, at) = get_elem?-some work e.dependent (ground arith) in
            (
              record { location = r.request.location; work = e.dependent } ∷ keys,
              rw (same, at, made) refl,
              λ j. rw (same, is j) refl,
            )
        | inr apart ↦ (keys, rw apart made, λ j. rw apart (is j))
      ]

  pub dependents :
      (order : LocationOrder) (work : List (ScheduledExpansion Kind)) (p : ℕ)
      (edges : List ExpansionDependency)
      → edges_ascend (length work) edges ≡ true
      → (keys : List ReadyKey) × (dependent_keys work p edges ≡ some keys)
        × ((j : ℕ)
            → contains j (dedup (map (λ k. k.work) (sort_keys order keys))) ≡ has_edge p edges j)
  dependents order work p edges h =
      let (keys, made, is) = dependent_keys-some work p edges h in
      (
        keys,
        made,
        λ j.
            dedup-contains (ids (sort_keys order keys)) j
            ∙ (sort_keys-contains order keys j ∙ is j),
      )
