-- ===== src/Types/Reach.antt =====
-- The searches answer whether a type that is reached is a hit.
use elamite.Base.{
  ℕ, zero, suc, ◌+◌, ◌≤◌, ◌<◌, ◌≡◌, ◌↔◌, refl, Bool, true, false, ◌⊎◌, inl, inr, List, [], ◌∷◌,
  none, some, arith, length, contains, All, All-mono, All-contains, Distinct, length-le_of_Distinct,
  Bool-cases, ==→eq, ==_refl, subst, ◌==◌,
}
use elamite.Types.Defs.{TypeContext, TypeKind, TypeId, kind, type_children, resolve_inference}
use elamite.Types.Search.{Found, any_child, search_kind, search_type, search, search_all}
use elamite.Types.Resolve.{IsWellFormed, kind-some, resolve_inference_total}

not_in_empty : (x : ℕ) → contains x [] ≡ true → ⊥
unfolding contains
not_in_empty x h = cc

-- A type reaches what it resolves to, and what the children of that reach.
pub data Reaches (c : TypeContext) : TypeId → TypeId → Type 0 where
  here : {ty r : TypeId} → resolve_inference c ty ≡ some r → Reaches c ty r
  below :
      {ty r child goal : TypeId} {k : TypeKind}
      → resolve_inference c ty ≡ some r
      → kind c r ≡ some k
      → contains child (type_children k) ≡ true
      → Reaches c child goal
      → Reaches c ty goal

module _ (c : TypeContext) (w : IsWellFormed c) (early : TypeId → Bool)
    (predicate : TypeKind → Bool) where
  abbrev pub Hit : TypeId → Type 0
  Hit ty = (early ty ≡ true) ⊎ ((k : TypeKind) × (kind c ty ≡ some k) × (predicate k ≡ true))

  -- The type resolves into the set.
  abbrev Within : List TypeId → TypeId → Type 0
  Within after ty = (r : TypeId) × (resolve_inference c ty ≡ some r) × (contains r after ≡ true)

  -- A type that is no hit, and whose children are in the set.
  abbrev Fine : List TypeId → TypeId → Type 0
  Fine after ty =
      (early ty ≡ false)
      × (k : TypeKind) × (kind c ty ≡ some k)
      × (predicate k ≡ false)
      × All (Within after) (type_children k)

  -- A set of types of the arena, with no type twice.
  abbrev IsSeen : List TypeId → Type 0
  IsSeen seen = Distinct seen × All (λ ty. ty < length c.kinds) seen

  -- What was seen stays so, and what was added is fine.
  abbrev Extends : List TypeId → List TypeId → Type 0
  Extends seen after =
      IsSeen after
      × (length seen ≤ length after)
      × ((x : TypeId) → contains x seen ≡ true → contains x after ≡ true)
      × ((x : TypeId) → contains x after ≡ true → (contains x seen ≡ true) ⊎ Fine after x)

  abbrev Answers : List TypeId → TypeId → Found → Type 0
  Answers seen ty none = ⊥
  Answers seen ty (some (true, after)) = (goal : TypeId) × Reaches c ty goal × Hit goal
  Answers seen ty (some (false, after)) = Extends seen after × Within after ty

  abbrev AnswersAll : List TypeId → List TypeId → Found → Type 0
  AnswersAll seen children none = ⊥
  AnswersAll seen children (some (true, after)) =
      (child goal : TypeId) × (contains child children ≡ true) × Reaches c child goal × Hit goal
  AnswersAll seen children (some (false, after)) = Extends seen after × All (Within after) children

  Within-mono :
      (seen after : List TypeId)
      → ((x : TypeId) → contains x seen ≡ true → contains x after ≡ true)
      → (ty : TypeId) → Within seen ty
      → Within after ty
  Within-mono seen after s ty (r, e, h) = (r, e, s r h)

  Extends-refl : (seen : List TypeId) → IsSeen seen → Extends seen seen
  Extends-refl seen s = (s, omega arith, (λ x h. h), λ x h. inl h)

  Extends-trans : (a b d : List TypeId) → Extends a b → Extends b d → Extends a d
  Extends-trans a b d (_, l, s, f) (i, l', s', f') = (
    i,
    omega arith,
    (λ x h. s' x (s x h)),
    λ x h. elim (f' x h) [
      | inl old ↦ elim (f x old) [
        | inl older ↦ inl older
        | inr (e, k, at, p, all) ↦
            inr (e, k, at, p, All-mono _ _ (Within-mono b d s') (type_children k) all)
      ]
      | inr fine ↦ inr fine
    ],
  )

  -- A recursive call that answers, at types of the arena, while `fuel` is left.
  abbrev Calls : ℕ → (TypeId → List TypeId → Found) → Type 0
  Calls fuel rec =
      (ty : TypeId) (seen : List TypeId)
      → ty < length c.kinds
      → IsSeen seen
      → length c.kinds < fuel + length seen
      → Answers seen ty (rec ty seen)

  any_child-Answers :
      (fuel : ℕ) (rec : TypeId → List TypeId → Found)
      → Calls fuel rec
      → (children seen : List TypeId) → All (λ child. child < length c.kinds) children
      → IsSeen seen
      → length c.kinds < fuel + length seen
      → AnswersAll seen children (any_child rec children seen)
  unfolding any_child contains
  any_child-Answers fuel rec call [] seen a i h = (Extends-refl seen i, tt)
  any_child-Answers fuel rec call (child ∷ rest) seen a i h =
      after_child
        (λ after e. any_child-Answers fuel rec call rest after a.1 e.0 (omega (arith, e.1)))
        (rec child seen) (call child seen a.0 i h)
    where
      after_rest :
          (after : List TypeId)
          → Extends seen after
          → Within after child
          → (found : Found) → AnswersAll after rest found
          → AnswersAll seen (child ∷ rest) found
      after_rest after e t none r = r
      after_rest after e t (some (true, s)) (x, goal, m, reaches, hit) =
          (x, goal, ground arith, reaches, hit)
      after_rest after e t (some (false, s)) (e', all) =
          (Extends-trans seen after s e e', (Within-mono after s (e'.2) child t, all))

      after_child :
          ((after : List TypeId)
            → Extends seen after
            → AnswersAll after rest (any_child rec rest after))
          → (found : Found) → Answers seen child found
          → AnswersAll seen (child ∷ rest) (elim found [
            | none ↦ none
            | some (found, after) ↦ elim found [
              | true ↦ some (true, after)
              | false ↦ any_child rec rest after
            ]
          ])
      after_child again none r = r
      after_child again (some (true, s)) (goal, reaches, hit) =
          (child, goal, ground arith, reaches, hit)
      after_child again (some (false, after)) (e, t) =
          after_rest after e t (any_child rec rest after) (again after e)

  search_kind-Answers :
      (fuel : ℕ) (rec : TypeId → List TypeId → Found)
      → Calls fuel rec
      → (ty r : TypeId) (seen : List TypeId) → resolve_inference c ty ≡ some r
      → r < length c.kinds
      → early r ≡ false
      → contains r seen ≡ false
      → IsSeen seen
      → length c.kinds < suc fuel + length seen
      → Answers seen ty (search_kind c predicate rec r seen)
  unfolding search_kind contains
  search_kind-Answers fuel rec call ty r seen e lt not_early new i h =
      let (k, at) = kind-some c w r lt in
      rw (at, search_kind)
        (elim (Bool-cases (predicate k)) [
          | inl hit ↦ rw hit (r, here e, inr (k, at, hit))
          | inr miss ↦ rw miss (
              marked k at miss (any_child rec (type_children k) (r ∷ seen)) (
                any_child-Answers fuel rec call (type_children k) (r ∷ seen) (w.children r k at)
                  ((new, i.0), (lt, i.1)) (omega arith)))
        ])
    where
      marked :
          (k : TypeKind)
          → kind c r ≡ some k
          → predicate k ≡ false
          → (found : Found) → AnswersAll (r ∷ seen) (type_children k) found
          → Answers seen ty found
      marked k at miss none a = a
      marked k at miss (some (true, s)) (child, goal, m, reaches, hit) =
          (goal, below e at m reaches, hit)
      marked k at miss (some (false, after)) ((i', l, s, f), all) = (
        (
          i',
          omega arith,
          (λ x hx. s x (ground arith)),
          λ x hx. elim (f x hx) [
            | inl old ↦ elim (Bool-cases (r == x)) [
              | inl same ↦ inr (subst (Fine after) (==→eq r x same) (not_early, k, at, miss, all))
              | inr apart ↦ inl (rw apart at old)
            ]
            | inr fine ↦ inr fine
          ],
        ),
        (r, e, s r (rw (==_refl r))),
      )

  search-Answers : (fuel : ℕ) → Calls fuel (search c early predicate fuel)
  unfolding search search_type
  search-Answers zero ty seen lt i h =
      absurd (omega (arith, length-le_of_Distinct (length c.kinds) seen i.0 i.1))
  search-Answers (suc fuel) ty seen lt i h =
      let (r, e, lt') = resolve_inference_total c w ty lt in
      rw (e, search)
        (elim (Bool-cases (early r)) [
          | inl hit ↦ rw hit (r, here e, inl hit)
          | inr miss ↦ elim (Bool-cases (contains r seen)) [
            | inl old ↦ rw (miss, old) (Extends-refl seen i, (r, e, old))
            | inr new ↦
                rw (miss, new)
                  (search_kind-Answers fuel (search c early predicate fuel) (search-Answers fuel) ty
                    r seen e lt' miss new i h)
          ]
        ])

  -- No hit is reached from a type that lies in a closed set without hits.
  Fine-Reaches :
      (after : List TypeId)
      → ((x : TypeId) → contains x after ≡ true → Fine after x)
      → {ty goal : TypeId} → Reaches c ty goal
      → Within after ty
      → Fine after goal
  Fine-Reaches after f (here e) (r, e', h) = f _ (subst (λ z. contains z after ≡ true) (cc) h)
  Fine-Reaches after f (below {r = r'} {child = child} {k = k} e at m reaches) (r, e', h) =
      let same : r ≡ r' = cc in
      let (_, k', at', _, all) = f r' (subst (λ z. contains z after ≡ true) same h) in
      let kinds : k' ≡ k = cc in
      Fine-Reaches after f reaches (
        All-contains (Within after) (type_children k) child
          (subst (λ z. All (Within after) (type_children z)) kinds all) m)

  -- A search of a well-formed arena answers, and answers true exactly where the type reaches a hit.
  pub search_all_lem :
      (ty : TypeId)
      → ty < length c.kinds
      → (found : Bool) × (seen : List TypeId) × (search_all c early predicate ty
          ≡ some (found, seen))
        × (found ≡ true ↔ ((goal : TypeId) × Reaches c ty goal × Hit goal))
  unfolding search_all
  search_all_lem ty lt =
      verdict (search c early predicate (suc (length c.kinds)) ty [])
        (search-Answers _ ty [] lt (tt, tt) (omega arith))
    where
      not_hit : (after : List TypeId) (x : TypeId) → Fine after x → Hit x → ⊥
      not_hit after x (e, _, _, _, _) (inl h) = cc
      not_hit after x (_, k, at, miss, _) (inr (k', at', h)) = let same : k ≡ k' = cc in cc

      all_fine :
          (after : List TypeId)
          → Extends [] after
          → (x : TypeId) → contains x after ≡ true
          → Fine after x
      all_fine after (_, _, _, f) x h = elim (f x h) [
        | inl old ↦ absurd (not_in_empty x old)
        | inr fine ↦ fine
      ]

      verdict :
          (found : Found)
          → Answers [] ty found
          → (b : Bool) × (seen : List TypeId) × (found ≡ some (b, seen))
            × (b ≡ true ↔ ((goal : TypeId) × Reaches c ty goal × Hit goal))
      verdict none a = absurd a
      verdict (some (true, after)) a = (true, after, refl, ((λ _. a), λ _. refl))
      verdict (some (false, after)) (e, t) = (
        false,
        after,
        refl,
        (
          (λ h. cc),
          λ (goal, reaches, hit).
              absurd (not_hit after goal (Fine-Reaches after (all_fine after e) reaches t) hit),
        ),
      )
