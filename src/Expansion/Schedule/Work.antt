-- ===== src/Expansion/Schedule/Work.antt =====
-- Updates of one item, and the states of dependencies.
use elamite.Base.{
  ℕ, zero, suc, ◌<◌, ◌≡◌, refl, sym, ap, ◌∙◌, true, false, ◌&&◌, ◌⊎◌, inl, inr, List, [], ◌∷◌,
  Option, none, some, arith, get_elem?, get_elem?-some, length, any, all, contains, ◌==◌, ==_refl,
  ==→eq, Bool-cases, subst,
}
use elamite.Expansion.Chain.{ExpansionWorkState, completed, ScheduledExpansion}
use elamite.Expansion.Defs.{is_completed, is_recovered, update_at, add_state, states_of}

module _ {ℓ} {A : Type ℓ} (f : A → A) where
  pub length-update_at : (i : ℕ) (xs : List A) → length (update_at i f xs) ≡ length xs
  unfolding update_at
  length-update_at i [] = refl
  length-update_at zero (x ∷ xs) = refl
  length-update_at (suc i) (x ∷ xs) = ap suc (length-update_at i xs)

  pub get_elem?-update_at :
      (i : ℕ) (xs : List A) (x : A)
      → get_elem? xs i ≡ some x
      → get_elem? (update_at i f xs) i ≡ some (f x)
  unfolding update_at
  get_elem?-update_at i [] x h = cc
  get_elem?-update_at zero (y ∷ xs) x h = cc
  get_elem?-update_at (suc i) (y ∷ xs) x h = get_elem?-update_at i xs x h

  pub get_elem?-update_at_other :
      (i j : ℕ) (xs : List A) → (j ≡ i → ⊥) → get_elem? (update_at i f xs) j ≡ get_elem? xs j
  unfolding update_at
  get_elem?-update_at_other i j [] h = refl
  get_elem?-update_at_other zero zero (y ∷ xs) h = absurd (h refl)
  get_elem?-update_at_other zero (suc j) (y ∷ xs) h = refl
  get_elem?-update_at_other (suc i) zero (y ∷ xs) h = refl
  get_elem?-update_at_other (suc i) (suc j) (y ∷ xs) h =
      get_elem?-update_at_other i j xs (λ e. h (ap suc e))

pub ids_cases : (i j : ℕ) → (j ≡ i) ⊎ (j ≡ i → ⊥)
ids_cases i j = elim (Bool-cases (j == i)) [
  | inl e ↦ inl (==→eq j i e)
  | inr e ↦ inr (λ same. let yes_same : j == i ≡ true = rw same (==_refl i) in cc)
]

-- The states are alike for the items that depend on them.
abbrev pub SameFlags : ExpansionWorkState → ExpansionWorkState → Type 0
SameFlags a b = (is_recovered b ≡ is_recovered a) × (is_completed b ≡ is_completed a)

is_completed-eq : (st : ExpansionWorkState) → is_completed st ≡ true → st ≡ completed
unfolding is_completed
is_completed-eq completed h = refl
is_completed-eq _ h = cc

module _ {Kind : Type 0} where
  -- An entry after an update is the updated one, or an entry of before.
  pub update_at_cases :
      (f : ScheduledExpansion Kind → ScheduledExpansion Kind) (i j : ℕ)
      (work : List (ScheduledExpansion Kind)) (r x : ScheduledExpansion Kind)
      → get_elem? work i ≡ some r
      → get_elem? (update_at i f work) j ≡ some x
      → ((j ≡ i) × (x ≡ f r)) ⊎ ((j ≡ i → ⊥) × (get_elem? work j ≡ some x))
  update_at_cases f i j work r x e h = elim (ids_cases i j) [
    | inl same ↦
        let there : get_elem? (update_at i f work) i ≡ some x =
          subst (λ z. get_elem? (update_at i f work) z ≡ some x) same h in
        let made = get_elem?-update_at f i work r e in inl (same, cc)
    | inr apart ↦ inr (apart, sym (get_elem?-update_at_other f i j work apart) ∙ h)
  ]

  -- An item that is completed.
  abbrev pub CompletedAt : List (ScheduledExpansion Kind) → ℕ → Type 0
  CompletedAt work d =
      (r : ScheduledExpansion Kind) × (get_elem? work d ≡ some r) × (r.state ≡ completed)

  -- A pending item waits: none of its dependencies is recovered, and not all are completed.
  abbrev pub Waits : List (ScheduledExpansion Kind) → List ℕ → Type 0
  Waits work ds =
      (states : List ExpansionWorkState) × (states_of work ds ≡ some states)
      × (any is_recovered states ≡ false)
      × (all is_completed states ≡ false)

  abbrev pub AlikeAt : List (ScheduledExpansion Kind) → List (ScheduledExpansion Kind) → ℕ → Type 0
  AlikeAt work after d =
      (x : ScheduledExpansion Kind)
      → get_elem? work d ≡ some x
      → (y : ScheduledExpansion Kind) × (get_elem? after d ≡ some y) × SameFlags x.state y.state

  pub states_of-some :
      (work : List (ScheduledExpansion Kind)) (ds : List ℕ)
      → ((d : ℕ) → contains d ds ≡ true → d < length work)
      → (states : List ExpansionWorkState) × (states_of work ds ≡ some states)
  unfolding states_of add_state contains
  states_of-some work [] h = ([], refl)
  states_of-some work (d ∷ ds) h =
      let (r, e) = get_elem?-some work d (h d (rw (==_refl d) refl)) in
      let (states, e') = states_of-some work ds (λ x m. h x (ground arith)) in
      (r.state ∷ states, rw (e, e') refl)

  -- What a list of states says of the items, and the other way.
  abbrev Flags : List (ScheduledExpansion Kind) → List (ScheduledExpansion Kind) → List ℕ → Type 0
  Flags work after ds =
      (states : List ExpansionWorkState)
      → states_of work ds ≡ some states
      → (new : List ExpansionWorkState) × (states_of after ds ≡ some new)
        × (any is_recovered new ≡ any is_recovered states)
        × (all is_completed new ≡ all is_completed states)

  pub add_state-inv :
      (o : Option (ScheduledExpansion Kind)) (more : Option (List ExpansionWorkState))
      (states : List ExpansionWorkState)
      → add_state o more ≡ some states
      → (r : ScheduledExpansion Kind) × (rest : List ExpansionWorkState) × (o ≡ some r)
        × (more ≡ some rest)
        × (states ≡ r.state ∷ rest)
  unfolding add_state
  add_state-inv (some r) (some rest) states h = (r, rest, refl, refl, cc)
  add_state-inv none more states h = cc
  add_state-inv (some r) none states h = cc

  states_of-Flags :
      (work after : List (ScheduledExpansion Kind)) (ds : List ℕ)
      → ((d : ℕ) → contains d ds ≡ true → AlikeAt work after d)
      → Flags work after ds
  unfolding states_of add_state contains
  states_of-Flags work after [] h states e =
      let same : [] ≡ states = cc in
      ([], refl, ap (any is_recovered) same, ap (all is_completed) same)
  states_of-Flags work after (d ∷ ds) h states e =
      let (r, rest, at, more, is) = add_state-inv (get_elem? work d) (states_of work ds) states e in
      let (y, there, same) = h d (rw (==_refl d) refl) r at in
      let (new, later, any_same, all_same) =
        states_of-Flags work after ds (λ x m. h x (ground arith)) rest more in
      (
        y.state ∷ new,
        rw (there, later) refl,
        rw (is, same.0, any_same) refl,
        rw (is, same.1, all_same) refl,
      )

  pub Waits-alike :
      (work after : List (ScheduledExpansion Kind)) (ds : List ℕ)
      → ((d : ℕ) → contains d ds ≡ true → AlikeAt work after d)
      → Waits work ds
      → Waits after ds
  Waits-alike work after ds h (states, e, a, b) =
      let (new, e', a', b') = states_of-Flags work after ds h states e in (new, e', a' ∙ a, b' ∙ b)

  -- If all states are completed, so is every dependency.
  pub states_of-CompletedAt :
      (work : List (ScheduledExpansion Kind)) (ds : List ℕ) (states : List ExpansionWorkState)
      → states_of work ds ≡ some states
      → all is_completed states ≡ true
      → (d : ℕ) → contains d ds ≡ true
      → CompletedAt work d
  unfolding states_of contains
  states_of-CompletedAt work [] states e h d m = cc
  states_of-CompletedAt work (x ∷ ds) states e h d m =
      let (r, rest, at, more, is) = add_state-inv (get_elem? work x) (states_of work ds) states e in
      let both : is_completed r.state && all is_completed rest ≡ true =
        subst (λ z. all is_completed z ≡ true) is h in
      elim (Bool-cases (x == d)) [
        | inl same ↦ (r, rw (← ==→eq x d same) at, is_completed-eq r.state (ground arith))
        | inr apart ↦ states_of-CompletedAt work ds rest more (ground arith) d (rw apart at m)
      ]
