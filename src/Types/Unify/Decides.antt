-- ===== src/Types/Unify/Decides.antt =====
-- What the comparison of two types tells, and kinds of one shape.
use elamite.Base.{
  ℕ, ◌≡◌, sym, ap, ◌∙◌, true, false, ◌⊎◌, inl, inr, none, some, subst, Option-cases, ==→eq,
}
use elamite.Types.Defs.{TypeContext, TypeKind, TypeId, inference_variable}
use elamite.Types.Compare.{same_outer_shape, variable_of}
use elamite.Types.Equal.{Pairs, Equal, contains_pair}
use elamite.Types.Unify.Same.{Same}
use elamite.Types.Unify.Step.{variable_kind}

-- What was seen is a pair that is the same, or was seen before.
abbrev pub Adds : TypeContext → Pairs → Pairs → Type 0
Adds c seen after =
    (l r : TypeId)
    → contains_pair l r after ≡ true
    → (contains_pair l r seen ≡ true) ⊎ Same false c l r

-- The answer tells whether `P` holds, and where it does, only pairs that are the same were added.
abbrev pub Decides : TypeContext → Pairs → Type 0 → Equal → Type 0
Decides c seen P none = ⊥
Decides c seen P (some (true, after)) = P × Adds c seen after
Decides c seen P (some (false, after)) = P → ⊥

pub Decides-map :
    (c : TypeContext) (seen : Pairs) (P Q : Type 0)
    → (P → Q)
    → (Q → P)
    → (o : Equal) → Decides c seen P o
    → Decides c seen Q o
Decides-map c seen P Q f g none d = d
Decides-map c seen P Q f g (some (true, after)) (p, a) = (f p, a)
Decides-map c seen P Q f g (some (false, after)) n = λ q. n (g q)

variable_shape_right :
    (k : TypeKind) (v : ℕ)
    → same_outer_shape k (inference_variable v) ≡ true
    → k ≡ inference_variable v
unfolding same_outer_shape
variable_shape_right (inference_variable u) v h = ap inference_variable (==→eq u v h)
variable_shape_right _ v h = cc

variable_shape_left :
    (k : TypeKind) (v : ℕ)
    → same_outer_shape (inference_variable v) k ≡ true
    → k ≡ inference_variable v
unfolding same_outer_shape
variable_shape_left (inference_variable u) v h = ap inference_variable (sym (==→eq v u h))
variable_shape_left _ v h = cc

-- Kinds of one shape are the same variable, or none of them is a variable.
pub variable_shape :
    (k k' : TypeKind)
    → same_outer_shape k k' ≡ true
    → (k ≡ k') ⊎ ((variable_of k ≡ none) × (variable_of k' ≡ none))
variable_shape k k' h = elim (Option-cases (variable_of k)) [
  | inr (v, e) ↦
      let is : k ≡ inference_variable v = variable_kind k v e in
      inl (is ∙ sym (variable_shape_left k' v (subst (λ z. same_outer_shape z k' ≡ true) is h)))
  | inl n ↦ elim (Option-cases (variable_of k')) [
    | inr (v, e) ↦
        let is : k' ≡ inference_variable v = variable_kind k' v e in
        inl (variable_shape_right k v (subst (λ z. same_outer_shape k z ≡ true) is h) ∙ sym is)
    | inl n' ↦ inr (n, n')
  ]
]
