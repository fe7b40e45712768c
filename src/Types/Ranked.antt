-- ===== src/Types/Ranked.antt =====
-- Arenas without a cycle through children and bindings, where resolving follows bindings to their end.
use elamite.Base.{
  ℕ, zero, suc, ◌<◌, ◌≤◌, ◌≡◌, refl, sym, true, inl, inr, List, [], ◌∷◌, Option, none, some, arith,
  get_elem?, length, contains, get_elem?-some, All, All-contains, All-mono, Bool-cases,
  Option-cases, subst,
}
use elamite.Types.Defs.{
  TypeContext, TypeKind, TypeId, kind, type_children, inference_variable, resolve_step,
  resolve_from, resolve_inference,
}
use elamite.Types.Resolve.{IsWellFormed, resolve_inference_total}

-- `y` is a child of `x`, or what the variable `x` is bound to.
pub data Below (c : TypeContext) : TypeId → TypeId → Type 0 where
  child :
      {x y : TypeId} {k : TypeKind}
      → kind c x ≡ some k
      → contains y (type_children k) ≡ true
      → Below c x y
  bound :
      {x y v : TypeId}
      → kind c x ≡ some (inference_variable v)
      → get_elem? c.inference_bindings v ≡ some (some y)
      → Below c x y

-- A measure that every such step lowers.
pub record IsRanked (c : TypeContext) : Type 0 where
  pub rank : TypeId → ℕ
  pub lower : {x y : TypeId} → Below c x y → rank y < rank x

-- `y` is met on the way from `x` along the bindings.
pub data Leads (c : TypeContext) : TypeId → TypeId → Type 0 where
  stay : {x : TypeId} → Leads c x x
  follow :
      {x y z v : TypeId}
      → kind c x ≡ some (inference_variable v)
      → get_elem? c.inference_bindings v ≡ some (some y)
      → Leads c y z
      → Leads c x z

-- A type that no binding replaces.
abbrev pub IsEnd : TypeContext → TypeId → Type 0
IsEnd c x =
    (v : ℕ) → kind c x ≡ some (inference_variable v) → get_elem? c.inference_bindings v ≡ some none

pub Leads-trans : (c : TypeContext) {x y z : TypeId} → Leads c x y → Leads c y z → Leads c x z
Leads-trans c stay m = m
Leads-trans c (follow e b l) m = follow e b (Leads-trans c l m)

-- Only one end lies ahead.
pub Leads-unique :
    (c : TypeContext) {x y z : TypeId} → Leads c x y → IsEnd c y → Leads c x z → IsEnd c z → y ≡ z
Leads-unique c stay h stay h' = refl
Leads-unique c stay h (follow {v = v} e b l) h' = let f = h v e in cc
Leads-unique c (follow {v = v} e b l) h stay h' = let f = h' v e in cc
Leads-unique c {z = z} (follow {y = y} e b l) h (follow {y = y'} e' b' l') h' =
    let same : y ≡ y' = cc in Leads-unique c l h (subst (λ w. Leads c w z) (sym same) l') h'

module _ (c : TypeContext) (r : IsRanked c) (w : IsWellFormed c) where
  pub rank-Leads : {x y : TypeId} → Leads c x y → r.rank y ≤ r.rank x
  rank-Leads stay = omega arith
  rank-Leads (follow e b l) = omega (arith, r.lower (bound e b), rank-Leads l)

  -- What the variables seen are bound to ranks at or above the type at hand.
  abbrev Above : TypeId → List ℕ → Type 0
  Above x seen =
      All
        (λ v.
          (b : TypeId) × (get_elem? c.inference_bindings v ≡ some (some b)) × (r.rank x ≤ r.rank b))
        seen

  unseen :
      (x v : ℕ) (seen : List ℕ)
      → kind c x ≡ some (inference_variable v)
      → Above x seen
      → contains v seen ≡ true
      → ⊥
  unseen x v seen e a h =
      let (b, at, le) =
        All-contains
          (λ v.
            (b : TypeId) × (get_elem? c.inference_bindings v ≡ some (some b))
            × (r.rank x ≤ r.rank b))
          seen v a h in
      omega (arith, le, r.lower (bound e at))

  abbrev Arrives : TypeId → Option TypeId → Type 0
  Arrives x o = (y : TypeId) → o ≡ some y → Leads c x y × IsEnd c y

  ended :
      (x : TypeId) (k : TypeKind)
      → kind c x ≡ some k
      → ((v : ℕ) → k ≡ inference_variable v → ⊥)
      → Arrives x (some x)
  ended x k e n y h =
      let same : x ≡ y = cc in
      subst (λ z. Leads c x z × IsEnd c z) same (stay, λ v at. absurd (n v cc))

  resolve_step-Arrives :
      (again : List ℕ → TypeId → Option TypeId) (seen : List ℕ) (x : TypeId) (k : TypeKind)
      → ((v b : ℕ)
          → kind c x ≡ some (inference_variable v)
          → get_elem? c.inference_bindings v ≡ some (some b)
          → Arrives b (again (v ∷ seen) b))
      → Above x seen
      → kind c x ≡ some k
      → Arrives x (resolve_step c again seen x k)
  unfolding resolve_step
  resolve_step-Arrives again seen x (inference_variable v) rec a e =
      elim (Bool-cases (contains v seen)) [
        | inl met ↦ absurd (unseen x v seen e a met)
        | inr new ↦
            let (o, slot) = get_elem?-some c.inference_bindings v (w.variables x v e) in
            rw (new, slot) (at_slot o slot)
      ]
    where
      same_slot :
          (o : Option TypeId)
          → get_elem? c.inference_bindings v ≡ some o
          → (u : ℕ) → kind c x ≡ some (inference_variable u)
          → get_elem? c.inference_bindings u ≡ some o
      same_slot o slot u h = let same : v ≡ u = cc in rw (← same) slot

      at_slot :
          (o : Option TypeId)
          → get_elem? c.inference_bindings v ≡ some o
          → Arrives x (elim o [ none ↦ some x | some target ↦ again (v ∷ seen) target ])
      at_slot none slot y h =
          let same : x ≡ y = cc in
          subst (λ z. Leads c x z × IsEnd c z) same (stay, same_slot none slot)
      at_slot (some b) slot y h = let (l, z) = rec v b e slot y h in (follow e slot l, z)
  resolve_step-Arrives again seen x _ rec a e = ended x _ e (λ v same. cc)

  resolve_from-Arrives :
      (fuel : ℕ) (seen : List ℕ) (x : TypeId)
      → Above x seen
      → Arrives x (resolve_from c fuel seen x)
  unfolding resolve_from
  resolve_from-Arrives zero seen x a = λ y h. cc
  resolve_from-Arrives (suc fuel) seen x a = elim (Option-cases (kind c x)) [
    | inl missing ↦ rw (missing, resolve_from) (λ y h. cc)
    | inr (k, e) ↦
        rw (e, resolve_from)
          (resolve_step-Arrives (resolve_from c fuel) seen x k
            (λ v b at slot. resolve_from-Arrives fuel (v ∷ seen) b (
              (b, slot, omega arith),
              All-mono _ _
                  (λ u (b', slot', le). (b', slot', omega (arith, r.lower (bound at slot)))) seen a,
            ))
            a e)
  ]

  -- In a well-formed arena without a cycle, resolving a type answers with the end of the chain of
  -- bindings that starts at it.
  pub resolve_inference_lem :
      (x : TypeId)
      → x < length c.kinds
      → (y : TypeId) × (resolve_inference c x ≡ some y)
        × (y < length c.kinds)
        × Leads c x y
        × IsEnd c y
  unfolding resolve_inference
  resolve_inference_lem x lt =
      let (y, e, lt') = resolve_inference_total c w x lt in
      let (l, z) = resolve_from-Arrives (suc (length c.inference_bindings)) [] x tt y e in
      (y, e, lt', l, z)

  -- Resolving a type, and resolving a type ahead of it, answer the same.
  pub resolve_inference-Leads :
      (x y z : TypeId)
      → x < length c.kinds
      → z < length c.kinds
      → Leads c x z
      → resolve_inference c x ≡ some y
      → resolve_inference c z ≡ some y
  resolve_inference-Leads x y z lt lt' m e =
      let (y', e', _, l, d) = resolve_inference_lem x lt in
      let (y'', e'', _, l', d') = resolve_inference_lem z lt' in
      let same : y' ≡ y'' = Leads-unique c l d (Leads-trans c m l') d' in
      let mine : y ≡ y' = cc in rw (e'', mine, same) refl
