-- ===== src/Types/Unify/Inverse.antt =====
-- What two types that are the same have in common, from the kinds of the ends they resolve to.
use elamite.Base.{Bool, true, ℕ, ◌≡◌, refl, sym, ap, ◌∙◌, true, List, none, some, get_elem?, subst}
use elamite.Types.Defs.{TypeContext, TypeKind, TypeId, kind, error_type, error_id, alias}
use elamite.Types.Compare.{same_outer_shape, paired_children, alias_target, variable_of}
use elamite.Types.Ranked.{Leads, stay, follow, IsEnd}
use elamite.Types.Unify.Same.{
  Same, met, error_left, error_right, alias_left, alias_right, alike, no_step, alias_is_no_variable,
}

alias_shape_left :
    (k k' : TypeKind) (target : TypeId)
    → alias_target k ≡ some target
    → same_outer_shape k k' ≡ true
    → ⊥
unfolding same_outer_shape
alias_shape_left (alias _ _ _) k' target h s = cc
alias_shape_left _ k' target h s = cc

no_alias_shape :
    (k : TypeKind) (a : ℕ) (arguments : List TypeId) (t : TypeId)
    → same_outer_shape k (alias a arguments t) ≡ true
    → ⊥
unfolding same_outer_shape
no_alias_shape error_type a arguments t s = cc
no_alias_shape _ a arguments t s = cc

alias_shape_right :
    (k k' : TypeKind) (target : TypeId)
    → alias_target k' ≡ some target
    → same_outer_shape k k' ≡ true
    → ⊥
alias_shape_right k (alias a arguments t) target h s = no_alias_shape k a arguments t s
alias_shape_right k _ target h s = cc

some-inj : {a b : TypeId} → some a ≡ some b → a ≡ b
some-inj e = cc

pub end_step : (c : TypeContext) {x z : TypeId} → IsEnd c x → Leads c x z → x ≡ z
end_step c d stay = refl
end_step c d (follow {v = v} e b l) = let free = d v e in cc

module _ (lenient : Bool) (c : TypeContext) (error : kind c error_id ≡ some error_type) where
  not_error :
      {x target : TypeId} (k : TypeKind)
      → kind c x ≡ some k
      → alias_target k ≡ some target
      → x ≡ error_id
      → ⊥
  not_error {x} k at t e =
      let k_is : kind c x ≡ some error_type = rw e error in let same : k ≡ error_type = cc in cc

  pub target-left :
      {x r target : TypeId} (k : TypeKind)
      → kind c x ≡ some k
      → alias_target k ≡ some target
      → Same lenient c x r
      → Same lenient c target r
  target-left {x} k at t (met a b) =
      let here = no_step c k at (alias_is_no_variable k _ t) a in
      alias_right (subst (Leads c _) (sym here) b) at t (met stay stay)
  target-left k at t (error_left o a) =
      absurd (not_error k at t (no_step c k at (alias_is_no_variable k _ t) a))
  target-left k at t (error_right o a) = error_right o a
  target-left {x} {r} k at t (alias_left {target = other} {k = k'} a at' t' s) =
      let here = no_step c k at (alias_is_no_variable k _ t) a in
      let kinds : kind c x ≡ some k' = rw here at' in
      let same_k : k ≡ k' = cc in
      let same_t = some-inj (sym t ∙ ap alias_target same_k ∙ t') in
      subst (λ z. Same lenient c z r) (sym same_t) s
  target-left k at t (alias_right a at' t' s) = alias_right a at' t' (target-left k at t s)
  target-left {x} {target = target} k at t (alike {k = k1} {k' = k2} a at' b bt v v' shape all) =
      let here = no_step c k at (alias_is_no_variable k _ t) a in
      let kinds : kind c x ≡ some k1 = rw here at' in
      let same_k : k ≡ k1 = cc in
      absurd
        (alias_shape_left k1 k2 target (subst (λ z. alias_target z ≡ some target) same_k t) shape)

  pub target-right :
      {l y target : TypeId} (k : TypeKind)
      → kind c y ≡ some k
      → alias_target k ≡ some target
      → Same lenient c l y
      → Same lenient c l target
  target-right k at t (met a b) =
      let here = no_step c k at (alias_is_no_variable k _ t) b in
      alias_left (subst (Leads c _) (sym here) a) at t (met stay stay)
  target-right k at t (error_left o a) = error_left o a
  target-right k at t (error_right o a) =
      absurd (not_error k at t (no_step c k at (alias_is_no_variable k _ t) a))
  target-right k at t (alias_left a at' t' s) = alias_left a at' t' (target-right k at t s)
  target-right {l} {y} k at t (alias_right {target = other} {k = k'} a at' t' s) =
      let here = no_step c k at (alias_is_no_variable k _ t) a in
      let kinds : kind c y ≡ some k' = rw here at' in
      let same_k : k ≡ k' = cc in
      let same_t = some-inj (sym t ∙ ap alias_target same_k ∙ t') in
      subst (λ z. Same lenient c l z) (sym same_t) s
  target-right {y = y} {target = target} k at t
        (alike {k = k1} {k' = k2} a at' b bt v v' shape all) =
      let here = no_step c k at (alias_is_no_variable k _ t) b in
      let kinds : kind c y ≡ some k2 = rw here bt in
      let same_k : k ≡ k2 = cc in
      absurd
        (alias_shape_right k1 k2 target (subst (λ z. alias_target z ≡ some target) same_k t) shape)

  -- Two ends that are apart, and neither of them an alias nor the error type where that matches, are the same only as
  -- types of one shape.
  pub Same-alike :
      {x y : TypeId} (k k' : TypeKind)
      → IsEnd c x
      → kind c x ≡ some k
      → alias_target k ≡ none
      → IsEnd c y
      → kind c y ≡ some k'
      → alias_target k' ≡ none
      → (x ≡ y → ⊥)
      → (lenient ≡ true → x ≡ error_id → ⊥)
      → (lenient ≡ true → y ≡ error_id → ⊥)
      → Same lenient c x y
      → (variable_of k ≡ none)
        × (variable_of k' ≡ none)
        × (same_outer_shape k k' ≡ true)
        × ((i l r : ℕ) → get_elem? (paired_children k k') i ≡ some (l, r) → Same lenient c l r)
  Same-alike k k' dx at n dy bt n' apart nx ny (met a b) =
      absurd (apart (end_step c dx a ∙ sym (end_step c dy b)))
  Same-alike k k' dx at n dy bt n' apart nx ny (error_left o a) = absurd (nx o (end_step c dx a))
  Same-alike k k' dx at n dy bt n' apart nx ny (error_right o a) = absurd (ny o (end_step c dy a))
  Same-alike {x} k k' dx at n dy bt n' apart nx ny (alias_left {k = k1} a at' t s) =
      let kinds : kind c x ≡ some k1 = rw (end_step c dx a) at' in let same_k : k ≡ k1 = cc in cc
  Same-alike {y = y} k k' dx at n dy bt n' apart nx ny (alias_right {k = k1} a at' t s) =
      let kinds : kind c y ≡ some k1 = rw (end_step c dy a) at' in let same_k : k' ≡ k1 = cc in cc
  Same-alike {x} {y} k k' dx at n dy bt n' apart nx ny
        (alike {k = k1} {k' = k2} a at' b bt' v v' shape all) =
      let e : k1 ≡ k = kinds_are x k k1 at (rw (end_step c dx a) at') in
      let e' : k2 ≡ k' = kinds_are y k' k2 bt (rw (end_step c dy b) bt') in
      (rw (← e) v, rw (← e') v', rw (← e, ← e') shape, λ i l r h. all i l r (rw (e, e') h))
    where
      kinds_are : (z : TypeId) (k k1 : TypeKind) → kind c z ≡ some k → kind c z ≡ some k1 → k1 ≡ k
      kinds_are z k k1 h h' = cc
