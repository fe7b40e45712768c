-- ===== src/Moves/Lookup.antt =====
-- Writing to a place, seen through what the analysis holds of every place.
use elamite.Base.{
  ◌≡◌, refl, sym, ap, ◌∙◌, Bool, true, false, List, [], ◌∷◌, some, if◌then◌else◌, Bool-cases, inl,
  inr, subst,
}
use elamite.Place.{Projection, projection_eq}
use elamite.Place.Overlap.{projection_eq→eq}
use elamite.Moves.{
  Transition, StateNode, Children, leaf, child, transition, children, new_node, find, insert, entry,
  set_node, effective,
}

unfoldable pub is_prefix : List Projection → List Projection → Bool
is_prefix [] ys = true
is_prefix (x ∷ xs) [] = false
is_prefix (x ∷ xs) (y ∷ ys) = if projection_eq x y then is_prefix xs ys else false

find-insert :
    (x y : Projection) (n : StateNode) (cs : Children)
    → find y (insert x n cs) ≡ (if projection_eq x y then some n else find y cs)
unfolding find insert
find-insert x y n leaf = refl
find-insert x y n (child z m cs) = elim (Bool-cases (projection_eq z x)) [
  | inl same ↦
      let e : z ≡ x = projection_eq→eq z x same in
      elim (Bool-cases (projection_eq x y)) [
        | inl h ↦
            let g : projection_eq z y ≡ true = subst (λ w. projection_eq w y ≡ true) (sym e) h in
            rw (same, h, find, g)
        | inr h ↦
            let g : projection_eq z y ≡ false = subst (λ w. projection_eq w y ≡ false) (sym e) h in
            rw (same, h, find, g)
      ]
  | inr apart ↦ elim (Bool-cases (projection_eq x y)) [
    | inl h ↦
        let g : projection_eq z y ≡ false =
          subst (λ w. projection_eq z w ≡ false) (projection_eq→eq x y h) apart in
        rw (apart, find, g, find-insert x y n cs, h)
    | inr h ↦ rw (apart, h, find, find-insert x y n cs, h)
  ]
]

pub effective-new : (t : Transition) (xs : List Projection) → effective (new_node t) xs ≡ t
unfolding effective find entry
effective-new t [] = refl
effective-new t (x ∷ xs) = effective-new t xs

-- A write to a place changes what is held of that place and of every place below it, and of no other.
pub effective-set_node :
    (ps : List Projection) (t : Transition) (n : StateNode) (qs : List Projection)
    → effective (set_node ps t n) qs ≡ (if is_prefix ps qs then t else effective n qs)
unfolding effective set_node is_prefix entry
effective-set_node [] t n qs = effective-new t qs
effective-set_node (p ∷ ps) t n [] = refl
effective-set_node (p ∷ ps) t n (q ∷ qs) =
    let below = set_node ps t (entry (transition n) (find p (children n))) in
    elim (Bool-cases (projection_eq p q)) [
      | inl h ↦
          rw (find-insert p q below (children n), h, entry)
            (effective-set_node ps t (entry (transition n) (find p (children n))) qs
              ∙ ap
                  (λ r.
                    if is_prefix ps qs
                    then t
                    else effective (entry (transition n) (find r (children n))) qs)
                  (projection_eq→eq p q h))
      | inr h ↦ rw (find-insert p q below (children n), h)
    ]
