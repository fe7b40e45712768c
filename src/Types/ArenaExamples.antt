-- ===== src/Types/ArenaExamples.antt =====
-- An arena of the error type alone, what is interned into it, and a chain of two bindings.
use elamite.Base.{
  ℕ, zero, suc, ◌<◌, ◌≡◌, refl, ap, sym, true, false, inl, inr, get_elem?, some, none, arith, [],
  ◌∷◌, contains, subst, Bool-cases, All, All-get_elem?,
}
use elamite.Types.{
  TypeContext, TypeId, TypeKind, error_type, tuple, inference_variable, kind, type_children,
  id_for_kind, kind_id, intern, fresh_inference_variable, resolve_inference, resolve_from,
  resolve_step, same_kind, same_kind→eq, same_kind_refl,
}
use elamite.Types.Resolve.{IsWellFormed}
use elamite.Types.Ranked.{IsRanked, Below, child, bound, Leads, IsEnd, resolve_inference_lem}
use elamite.Types.Canonical.{IsCanonical, Interns, intern-Interns}
use elamite.Types.Fresh.{fresh_inference_variable_lem}

abbrev one_kind : TypeContext
one_kind = record {
  kinds = error_type ∷ [];
  interned = (error_type, 0) ∷ [];
  inference_bindings = [];
}

one_kind-IsCanonical : IsCanonical one_kind
unfolding kind id_for_kind kind_id
one_kind-IsCanonical = record { complete = complete_at; sound = sound_at }
  where
    complete_at :
        (i : ℕ) (k : TypeKind)
        → get_elem? (error_type ∷ []) i ≡ some k
        → kind_id k ((error_type, 0) ∷ []) ≡ some i
    complete_at zero k h =
        let same : error_type ≡ k = cc in rw (← same, same_kind_refl error_type) refl
    complete_at (suc i) k h = cc

    sound_at :
        (k : TypeKind) (i : ℕ)
        → kind_id k ((error_type, 0) ∷ []) ≡ some i
        → get_elem? (error_type ∷ []) i ≡ some k
    sound_at k i h = elim (Bool-cases (same_kind error_type k)) [
      | inl e ↦ let at : 0 ≡ i = ground arith in rw (← at) (ap some (same_kind→eq error_type k e))
      | inr e ↦ let none_there : none ≡ some i = ground arith in cc
    ]

error_only : (i : ℕ) (k : TypeKind) → kind one_kind i ≡ some k → k ≡ error_type
unfolding kind
error_only zero k h = cc
error_only (suc i) k h = cc

one_kind-IsWellFormed : IsWellFormed one_kind
unfolding type_children
one_kind-IsWellFormed = record {
  nonempty = omega arith;
  children = λ i k h. rw (error_only i k h) tt;
  variables = λ i v h. let e = error_only i (inference_variable v) h in cc;
  bound = λ v b h. cc;
}

one_kind-IsRanked : IsRanked one_kind
unfolding type_children contains
one_kind-IsRanked = record { rank = λ x. x; lower = none_below }
  where
    none_below : {x y : TypeId} → Below one_kind x y → y < x
    none_below (child {x = x} {y = y} {k = k} e m) =
        let h : contains y (type_children error_type) ≡ true =
          subst (λ z. contains y (type_children z) ≡ true) (error_only x k e) m in
        cc
    none_below (bound {x = x} {v = v} e b) = let h = error_only x (inference_variable v) e in cc

intern-Interns_example :
    (id : TypeId) × (after : TypeContext) × (intern (tuple (0 ∷ [])) one_kind ≡ some (id, after))
    × Interns one_kind (tuple (0 ∷ [])) id after
intern-Interns_example = intern-Interns (tuple (0 ∷ [])) one_kind one_kind-IsCanonical (omega arith)

fresh_inference_variable_lem_example :
    (after : TypeContext) × (fresh_inference_variable one_kind ≡ some (1, after))
    × (kind after 1 ≡ some (inference_variable 0))
    × (resolve_inference after 1 ≡ some 1)
    × IsCanonical after
    × IsWellFormed after
    × IsRanked after
    × ((i : ℕ) (x : TypeKind) → kind one_kind i ≡ some x → kind after i ≡ some x)
fresh_inference_variable_lem_example =
    fresh_inference_variable_lem one_kind one_kind-IsCanonical one_kind-IsWellFormed
      one_kind-IsRanked (omega arith) (omega arith)

-- Type 1 is bound to type 2, and type 2 to the error type.
abbrev chain : TypeContext
chain = record {
  kinds = error_type ∷ inference_variable 0 ∷ inference_variable 1 ∷ [];
  interned = [];
  inference_bindings = some 2 ∷ some 0 ∷ [];
}

-- Neither a type with children, nor a variable without a slot.
abbrev IsChained : TypeKind → Type 0
IsChained k = (type_children k ≡ []) × ((v : ℕ) → k ≡ inference_variable v → v < 2)

IsChained-kinds : All IsChained chain.kinds
unfolding type_children
IsChained-kinds = (
  (refl, λ v e. cc),
  ((refl, λ v e. below 0 v (omega arith) e), ((refl, λ v e. below 1 v (omega arith) e), tt)),
)
  where
    below : (n v : ℕ) → n < 2 → inference_variable n ≡ inference_variable v → v < 2
    below n v h e = let same : n ≡ v = cc in omega arith

chained : (x : ℕ) (k : TypeKind) → kind chain x ≡ some k → IsChained k
unfolding kind
chained x k e = All-get_elem? IsChained chain.kinds x k IsChained-kinds e

chain-IsWellFormed : IsWellFormed chain
chain-IsWellFormed = record {
  nonempty = omega arith;
  children = λ i k h. rw ((chained i k h).0) tt;
  variables = λ i v h. (chained i (inference_variable v) h).1 v refl;
  bound = slots;
}
  where
    slots : (v b : ℕ) → get_elem? chain.inference_bindings v ≡ some (some b) → b < 3
    slots zero b h = let same : 2 ≡ b = cc in omega arith
    slots (suc zero) b h = let same : 0 ≡ b = cc in omega arith
    slots (suc (suc v)) b h = cc

chain_rank : TypeId → ℕ
chain_rank (suc zero) = 2
chain_rank (suc (suc zero)) = 1
chain_rank _ = 0

chain_lower : {x y : TypeId} → Below chain x y → chain_rank y < chain_rank x
unfolding kind contains chain_rank
chain_lower (child {x = x} {y = y} {k = k} e m) =
    let none_there : false ≡ true = rw ((chained x k e).0) at m in cc
chain_lower (bound {x = x} {y = y} {v = v} e b) = bound_lower x v y e b
  where
    bound_lower :
        (x v y : ℕ)
        → kind chain x ≡ some (inference_variable v)
        → get_elem? chain.inference_bindings v ≡ some (some y)
        → chain_rank y < chain_rank x
    bound_lower zero v y e b = cc
    bound_lower (suc zero) v y e b =
        let slot : 0 ≡ v = cc in
        let at = subst (λ w. get_elem? chain.inference_bindings w ≡ some (some y)) (sym slot) b in
        let same : 2 ≡ y = cc in rw (← same) (omega arith)
    bound_lower (suc (suc zero)) v y e b =
        let slot : 1 ≡ v = cc in
        let at = subst (λ w. get_elem? chain.inference_bindings w ≡ some (some y)) (sym slot) b in
        let same : 0 ≡ y = cc in rw (← same) (omega arith)
    bound_lower (suc (suc (suc x))) v y e b = cc

chain-IsRanked : IsRanked chain
chain-IsRanked = record { rank = chain_rank; lower = chain_lower }

resolve_inference_lem_example :
    (y : TypeId) × (resolve_inference chain 1 ≡ some y) × (y < 3) × Leads chain 1 y × IsEnd chain y
resolve_inference_lem_example =
    resolve_inference_lem chain chain-IsRanked chain-IsWellFormed 1 (omega arith)

two_steps : resolve_inference chain 1 ≡ some 0
unfolding resolve_inference resolve_from resolve_step kind contains
two_steps = refl
