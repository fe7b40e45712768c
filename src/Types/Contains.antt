-- ===== src/Types/Contains.antt =====
-- The occurs check and `contains_type`, as searches for a type that is reached.
use elamite.Base.{
  ℕ, ◌<◌, ◌≡◌, ◌↔◌, sym, ap, ◌∙◌, Bool, true, false, inl, inr, List, some, length, ==→eq, ==_refl,
  subst, ◌==◌,
}
use elamite.Types.Defs.{TypeContext, TypeKind, TypeId, kind, resolve_inference, inference_variable}
use elamite.Types.Search.{is_variable, contains_inference, contains_type}
use elamite.Types.Resolve.{IsWellFormed, resolve_inference_total}
use elamite.Types.Reach.{Reaches, Hit, search_all_lem}

is_variable-eq : (v : ℕ) (k : TypeKind) → is_variable v k ≡ true → k ≡ inference_variable v
unfolding is_variable
is_variable-eq v (inference_variable u) h = ap inference_variable (==→eq u v h)
is_variable-eq v _ h = cc

is_variable_self : (v : ℕ) → is_variable v (inference_variable v) ≡ true
unfolding is_variable
is_variable_self v = ==_refl v

-- In a well-formed arena the occurs check of a type answers, and answers true exactly where the type
-- reaches the inference variable.
pub contains_inference_lem :
    (c : TypeContext)
    → IsWellFormed c
    → (ty v : ℕ) → ty < length c.kinds
    → (found : Bool) × (seen : List TypeId) × (contains_inference c ty v ≡ some (found, seen))
      × (found ≡ true
          ↔ ((goal : TypeId) × Reaches c ty goal × (kind c goal ≡ some (inference_variable v))))
unfolding contains_inference
contains_inference_lem c w ty v lt =
    let (found, seen, e, (to, from)) = search_all_lem c w (λ _. false) (is_variable v) ty lt in
    (
      found,
      seen,
      e,
      (
        (λ h. let (goal, reaches, hit) = to h in (goal, reaches, is_it goal hit)),
        λ (goal, reaches, at).
            from (goal, reaches, inr (inference_variable v, at, is_variable_self v)),
      ),
    )
  where
    is_it :
        (goal : TypeId)
        → Hit c w (λ _. false) (is_variable v) goal
        → kind c goal ≡ some (inference_variable v)
    is_it goal (inl h) = cc
    is_it goal (inr (k, at, h)) = at ∙ ap some (is_variable-eq v k h)

-- In a well-formed arena `contains_type` answers, and answers true exactly where the outer type
-- reaches what the needle resolves to.
pub contains_type_lem :
    (c : TypeContext)
    → IsWellFormed c
    → (outer needle : ℕ) → outer < length c.kinds
    → needle < length c.kinds
    → (found : Bool) × (seen : List TypeId) × (contains_type c outer needle ≡ some (found, seen))
      × (found ≡ true ↔ ((r : TypeId) × (resolve_inference c needle ≡ some r) × Reaches c outer r))
unfolding contains_type
contains_type_lem c w outer needle lt lt' =
    let (r, e, _) = resolve_inference_total c w needle lt' in
    let (found, seen, e', (to, from)) = search_all_lem c w (λ ty. ty == r) (λ _. false) outer lt in
    (
      found,
      seen,
      rw (e, contains_type) e',
      (
        (λ h.
            let (goal, reaches, hit) = to h in
            (r, e, subst (Reaches c outer) (is_it r goal hit) reaches)),
        λ (r', also, reaches). from (r', reaches, inl (same r r' (sym e ∙ also))),
      ),
    )
  where
    is_it : (r goal : TypeId) → Hit c w (λ ty. ty == r) (λ _. false) goal → goal ≡ r
    is_it r goal (inl h) = ==→eq goal r h
    is_it r goal (inr (k, at, h)) = cc

    same : (r r' : TypeId) → some r ≡ some r' → r' == r ≡ true
    same r r' h = let e : r ≡ r' = cc in rw (← e) (==_refl r)
