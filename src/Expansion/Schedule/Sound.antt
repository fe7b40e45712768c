-- ===== src/Expansion/Schedule/Sound.antt =====
-- What the scheduler keeps, with the items that its caller has in hand, and what a change of one item
-- needs to keep it.
use elamite.Base.{
  ℕ, suc, ◌<◌, ◌≤◌, ◌≡◌, refl, sym, ◌∙◌, Bool, true, false, ◌&&◌, ◌⊎◌, inl, inr, List, [], ◌∷◌,
  some, arith, get_elem?, length, contains, if◌then◌else◌, ltb, ◌==◌, ==→eq, Bool-cases, subst,
}
use elamite.Expansion.Chain.{
  ExpansionWorkState, pending, ready, active, completed, recovered, ScheduledExpansion,
}
use elamite.Expansion.Ready.{ReadyKey}
use elamite.Expansion.Defs.{
  Ended, returned, overflow, violated, out_of_fuel, and_then, ExpansionDependency,
  ExpansionScheduler, is_completed, update_at,
}
use elamite.Expansion.Schedule.Work.{
  get_elem?-update_at, get_elem?-update_at_other, ids_cases, CompletedAt, Waits, SameFlags, AlikeAt,
  Waits-alike,
}
use elamite.Expansion.Schedule.Keys.{ids}
use elamite.Expansion.Schedule.Keyed.{Keyed}

-- The call returns, and what it returns has the property.
abbrev pub Ensures : {A : Type 0} → (A → Type 0) → Ended A → Type 0
Ensures P (returned a) = P a
Ensures P overflow = ⊥
Ensures P violated = ⊥
Ensures P out_of_fuel = ⊥

pub and_then-Ensures :
    {A B : Type 0} (P : A → Type 0) (Q : B → Type 0) (m : Ended A) (f : A → Ended B)
    → Ensures P m
    → ((a : A) → P a → Ensures Q (f a))
    → Ensures Q (and_then m f)
unfolding and_then
and_then-Ensures P Q (returned a) f h k = k a h
and_then-Ensures P Q overflow f h k = absurd h
and_then-Ensures P Q violated f h k = absurd h
and_then-Ensures P Q out_of_fuel f h k = absurd h

pub Ensures-map :
    {A : Type 0} (P Q : A → Type 0) (m : Ended A)
    → Ensures P m
    → ((a : A) → P a → Q a)
    → Ensures Q m
Ensures-map P Q (returned a) h k = k a h
Ensures-map P Q overflow h k = absurd h
Ensures-map P Q violated h k = absurd h
Ensures-map P Q out_of_fuel h k = absurd h

-- Sets of ids.
abbrev pub nobody : ℕ → Bool
nobody j = false

abbrev pub also : ℕ → (ℕ → Bool) → ℕ → Bool
also i A j = if j == i then true else A j

pub also_self : (i : ℕ) (A : ℕ → Bool) → also i A i ≡ true
also_self i A = ground arith

pub also_other : (i : ℕ) (A : ℕ → Bool) (j : ℕ) → A j ≡ true → also i A j ≡ true
also_other i A j h = ground arith

pub also_cases : (i : ℕ) (A : ℕ → Bool) (j : ℕ) → also i A j ≡ true → (j ≡ i → ⊥) → A j ≡ true
also_cases i A j h apart = elim (Bool-cases (j == i)) [
  | inl e ↦ absurd (apart (==→eq j i e))
  | inr e ↦ rw e at h
]

-- There is an edge from the prerequisite to the dependent.
unfoldable pub has_edge : ℕ → List ExpansionDependency → ℕ → Bool
has_edge p [] d = false
has_edge p (e ∷ edges) d =
    if e.prerequisite == p
    then (if e.dependent == d then true else has_edge p edges d)
    else has_edge p edges d

-- Each edge goes from an id to a later one, and both are there.
unfoldable pub edges_ascend : ℕ → List ExpansionDependency → Bool
edges_ascend n [] = true
edges_ascend n (e ∷ edges) =
    ltb e.prerequisite e.dependent && (ltb e.dependent n && edges_ascend n edges)

pub has_edge-ascends :
    (n p d : ℕ) (edges : List ExpansionDependency)
    → edges_ascend n edges ≡ true
    → has_edge p edges d ≡ true
    → (p < d) × (d < n)
unfolding has_edge edges_ascend
has_edge-ascends n p d [] h m = cc
has_edge-ascends n p d (e ∷ edges) h m = elim (Bool-cases (has_edge p edges d)) [
  | inl more ↦ has_edge-ascends n p d edges (ground arith) more
  | inr none_left ↦ (ground arith, ground arith)
]

module _ {Kind : Type 0} where
  abbrev pub AllCompleted : List (ScheduledExpansion Kind) → List ℕ → Type 0
  AllCompleted work ds = (d : ℕ) → contains d ds ≡ true → CompletedAt work d

  -- A pending item waits, or its refresh is to come; a ready one has a key, or it is in hand; an
  -- active one is in hand; and the dependencies of what was started are completed.
  abbrev pub StateSound :
      (A U : ℕ → Bool)
      → List (ScheduledExpansion Kind)
      → List ReadyKey
      → ℕ
      → List ℕ
      → ExpansionWorkState
      → Type 0
  StateSound A U work keys j ds pending = Waits work ds ⊎ (U j ≡ true)
  StateSound A U work keys j ds ready =
      AllCompleted work ds × ((contains j (ids keys) ≡ true) ⊎ (A j ≡ true))
  StateSound A U work keys j ds active = AllCompleted work ds × (A j ≡ true)
  StateSound A U work keys j ds completed = AllCompleted work ds
  StateSound A U work keys j ds (recovered _) = Unit

  abbrev pub ItemSound :
      (A U : ℕ → Bool)
      → List (ScheduledExpansion Kind)
      → List ExpansionDependency
      → List ReadyKey
      → ℕ
      → ScheduledExpansion Kind
      → Type 0
  ItemSound A U work edges keys j r =
      (((p : ℕ) → r.parent ≡ some p → p < j) × (r.depth ≤ suc j) × (r.id ≡ j))
      × ((d : ℕ) → contains d r.dependencies ≡ true → (d < j) × (has_edge d edges j ≡ true))
      × StateSound A U work keys j r.dependencies r.state

  pub record SoundParts (A U : ℕ → Bool) (work : List (ScheduledExpansion Kind))
      (edges : List ExpansionDependency) (keys : List ReadyKey) : Type 0 where
    pub items :
        (j : ℕ) (r : ScheduledExpansion Kind)
        → get_elem? work j ≡ some r
        → ItemSound A U work edges keys j r
    pub ascend : edges_ascend (length work) edges ≡ true
    pub keyed : Keyed work keys

  abbrev pub Sound : (A U : ℕ → Bool) → ExpansionScheduler Kind → Type 0
  Sound A U s = SoundParts A U s.work s.edges s.ready

  pub StateSound-map :
      (A U A' U' : ℕ → Bool) (work work' : List (ScheduledExpansion Kind))
      (keys keys' : List ReadyKey) (j : ℕ) (ds : List ℕ) (st : ExpansionWorkState)
      → ((d : ℕ) → contains d ds ≡ true → CompletedAt work d → CompletedAt work' d)
      → (Waits work ds → Waits work' ds ⊎ (U' j ≡ true))
      → (U j ≡ true → U' j ≡ true)
      → (A j ≡ true → A' j ≡ true)
      → (contains j (ids keys) ≡ true → contains j (ids keys') ≡ true)
      → StateSound A U work keys j ds st
      → StateSound A' U' work' keys' j ds st
  StateSound-map A U A' U' work work' keys keys' j ds pending c w u a k (inl h) = w h
  StateSound-map A U A' U' work work' keys keys' j ds pending c w u a k (inr h) = inr (u h)
  StateSound-map A U A' U' work work' keys keys' j ds ready c w u a k (h, inl m) =
      ((λ d m. c d m (h d m)), inl (k m))
  StateSound-map A U A' U' work work' keys keys' j ds ready c w u a k (h, inr m) =
      ((λ d m. c d m (h d m)), inr (a m))
  StateSound-map A U A' U' work work' keys keys' j ds active c w u a k (h, m) =
      ((λ d m. c d m (h d m)), a m)
  StateSound-map A U A' U' work work' keys keys' j ds completed c w u a k h = λ d m. c d m (h d m)
  StateSound-map A U A' U' work work' keys keys' j ds (recovered _) c w u a k h = tt

  -- Only the sets and the keys change, outside of one item.
  pub Sound-settle :
      (A U A' U' : ℕ → Bool) (s : ExpansionScheduler Kind) (keys : List ReadyKey) (i : ℕ)
      → Sound A U s
      → Keyed s.work keys
      → ((j : ℕ)
          → (j ≡ i → ⊥)
          → (A j ≡ true → A' j ≡ true)
            × (U j ≡ true → U' j ≡ true)
            × (contains j (ids s.ready) ≡ true → contains j (ids keys) ≡ true))
      → ((r : ScheduledExpansion Kind)
          → get_elem? s.work i ≡ some r
          → StateSound A' U' s.work keys i r.dependencies r.state)
      → Sound A' U' (record s { ready = keys })
  Sound-settle A U A' U' s keys i h keyed others own = record {
    items = λ j r e.
        let (before, deps, st) = h.items j r e in
        (
          before,
          deps,
          elim (ids_cases i j) [
            | inl same ↦
                subst (λ z. StateSound A' U' s.work keys z r.dependencies r.state) (sym same)
                  (own r (subst (λ z. get_elem? s.work z ≡ some r) same e))
            | inr apart ↦
                let (a, u, k) = others j apart in
                StateSound-map A U A' U' s.work s.work s.ready keys j r.dependencies r.state
                  (λ d m c. c) inl u a k st
          ],
        );
    ascend = h.ascend;
    keyed = keyed;
  }

  pub Sound-mono :
      (A U A' U' : ℕ → Bool) (s : ExpansionScheduler Kind)
      → Sound A U s
      → ((j : ℕ) → A j ≡ true → A' j ≡ true)
      → ((j : ℕ) → U j ≡ true → U' j ≡ true)
      → Sound A' U' s
  Sound-mono A U A' U' s h a u = record {
    items = λ j r e.
        let (before, deps, st) = h.items j r e in
        (
          before,
          deps,
          StateSound-map A U A' U' s.work s.work s.ready s.ready j r.dependencies r.state
              (λ d m c. c) inl (u j) (a j) (λ m. m) st,
        );
    ascend = h.ascend;
    keyed = h.keyed;
  }

  module _ (f : ScheduledExpansion Kind → ScheduledExpansion Kind) (i : ℕ)
      (work : List (ScheduledExpansion Kind)) (r : ScheduledExpansion Kind)
      (e : get_elem? work i ≡ some r) where
    -- What is completed stays so, as no completed item changes.
    pub CompletedAt-kept :
        is_completed r.state ≡ false
        → (d : ℕ) → CompletedAt work d
        → CompletedAt (update_at i f work) d
    unfolding is_completed
    CompletedAt-kept unfinished d (x, at, done) = elim (ids_cases i d) [
      | inl same ↦
          let here : get_elem? work i ≡ some x = subst (λ z. get_elem? work z ≡ some x) same at in
          let alike : x ≡ r = cc in
          let closed : is_completed r.state ≡ true = rw (← alike, done) refl in cc
      | inr apart ↦ (x, get_elem?-update_at_other f i d work apart ∙ at, done)
    ]

    AlikeAt-changed : SameFlags r.state (f r).state → (d : ℕ) → AlikeAt work (update_at i f work) d
    AlikeAt-changed same_flags d x at = elim (ids_cases i d) [
      | inl same ↦
          let here : get_elem? work i ≡ some x = subst (λ z. get_elem? work z ≡ some x) same at in
          let alike : r ≡ x = cc in
          (
            f r,
            subst (λ z. get_elem? (update_at i f work) z ≡ some (f r)) (sym same)
                (get_elem?-update_at f i work r e),
            subst (λ z. SameFlags z.state (f r).state) alike same_flags,
          )
      | inr apart ↦ (x, get_elem?-update_at_other f i d work apart ∙ at, (refl, refl))
    ]

    -- A pending item goes on waiting unless it depends on the changed one, or if the change is none
    -- for it.
    pub Waits-changed :
        (ds : List ℕ)
        → (contains i ds ≡ false) ⊎ SameFlags r.state (f r).state
        → Waits work ds
        → Waits (update_at i f work) ds
    Waits-changed ds (inr same) w =
        Waits-alike work (update_at i f work) ds (λ d m. AlikeAt-changed same d) w
    Waits-changed ds (inl absent) w =
        Waits-alike work (update_at i f work) ds
          (λ d m x at.
            let apart : d ≡ i → ⊥ = λ same.
              let there : contains i ds ≡ true = subst (λ z. contains z ds ≡ true) same m in cc in
            (x, get_elem?-update_at_other f i d work apart ∙ at, (refl, refl)))
          w
