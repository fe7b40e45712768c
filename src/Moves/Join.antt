-- ===== src/Moves/Join.antt =====
-- Joins of trees, seen through what they hold of every place.
use Prim.Native.Nat.{max}
use elamite.Base.{
  ℕ, zero, suc, ◌≤◌, ◌≡◌, refl, sym, ap, ap₂, ◌∙◌, Bool, true, false, ◌&&◌, ◌||◌, not, List, [],
  ◌∷◌, none, some, arith, if◌then◌else◌, Bool-cases, Option-cases, inl, inr, subst,
}
use elamite.Place.{Projection, projection_eq, span_eq}
use elamite.Place.Overlap.{projection_eq→eq}
use elamite.Moves.{
  Transition, kind_eq, bool_eq, transition_eq, StateNode, Children, node, leaf, child, transition,
  children, find, entry, join_transition, keys, member, union_keys, is_leaf, keep_child,
  join_children, join_nodes, effective,
}
use elamite.Moves.Lookup.{effective-new}

transition_eq→eq : (a b : Transition) → transition_eq a b ≡ true → a ≡ b
unfolding transition_eq bool_eq kind_eq span_eq
transition_eq→eq a b h = ground arith

-- The levels of a tree below its root.
unfoldable mutual
  pub depth : StateNode → ℕ
  depth (node t cs) = depth_children cs

  pub depth_children : Children → ℕ
  depth_children leaf = 0
  depth_children (child x n cs) = max (suc (depth n)) (depth_children cs)

depth-find :
    (x : Projection) (cs : Children) (n : StateNode)
    → find x cs ≡ some n
    → suc (depth n) ≤ depth_children cs
unfolding find depth
depth-find x leaf n h = cc
depth-find x (child y m cs) n h = ground (arith, depth-find x cs n)

depth-entry :
    (f : ℕ) (x : Projection) (n : StateNode)
    → depth n ≤ suc f
    → depth (entry (transition n) (find x (children n))) ≤ f
unfolding entry depth
depth-entry f x (node t cs) h = elim (Option-cases (find x cs)) [
  | inl e ↦ rw e (omega arith)
  | inr (m, e) ↦ rw e (omega (arith, depth-find x cs m e))
]

pub or_true : (a : Bool) → a || true ≡ true
or_true a = ground arith

member-union_keys :
    (x : Projection) (xs ys : List Projection)
    → member x (union_keys xs ys) ≡ member x xs || member x ys
unfolding member union_keys
member-union_keys x [] ys = refl
member-union_keys x (k ∷ xs) ys = elim (Bool-cases (member k ys)) [
  | inl h ↦ elim (Bool-cases (projection_eq k x)) [
    | inl e ↦
        let m : member x ys ≡ true = subst (λ z. member z ys ≡ true) (projection_eq→eq k x e) h in
        rw (h, e, member-union_keys x xs ys, m) (or_true (member x xs))
    | inr e ↦ rw (h, e) (member-union_keys x xs ys)
  ]
  | inr h ↦ elim (Bool-cases (projection_eq k x)) [
    | inl e ↦ rw (h, member, e)
    | inr e ↦ rw (h, member, e) (member-union_keys x xs ys)
  ]
]

find-none : (x : Projection) (cs : Children) → member x (keys cs) ≡ false → find x cs ≡ none
unfolding member keys find
find-none x leaf h = refl
find-none x (child y n cs) h = ground (arith, find-none x cs)

abbrev below : StateNode → Projection → StateNode
below n x = entry (transition n) (find x (children n))

abbrev adds : Transition → StateNode → Bool
adds t n = not (transition_eq (transition n) t) || not (is_leaf (children n))

-- A child that is left out holds the transition of its parent everywhere.
dropped-effective :
    (t : Transition) (n : StateNode) (qs : List Projection) → adds t n ≡ false → effective n qs ≡ t
unfolding is_leaf
dropped-effective t (node u leaf) qs h = effective-new u qs ∙ transition_eq→eq u t (ground arith)
dropped-effective t (node u (child x n cs)) qs h = cc (or_true (not (transition_eq u t)))

keep_child-find :
    (t : Transition) (x : Projection) (n : StateNode) (cs : Children) (y : Projection)
    → find y (keep_child t x n cs)
      ≡ (if adds t n then if projection_eq x y then some n else find y cs else find y cs)
unfolding keep_child find
keep_child-find t x n cs y = elim (Bool-cases (adds t n)) [ inl h ↦ rw (h, find) | inr h ↦ rw h ]

module _ (rec : StateNode → StateNode → StateNode) (l r : StateNode) (t : Transition) where
  absent-join_children :
      (ks : List Projection) (x : Projection)
      → member x ks ≡ false
      → find x (join_children rec l r t ks) ≡ none
  unfolding join_children member find
  absent-join_children [] x h = refl
  absent-join_children (k ∷ ks) x h =
      let m = rec (below l k) (below r k) in
      let rest = absent-join_children ks x (ground arith) in
      let differ : projection_eq k x ≡ false = ground arith in
      keep_child-find t k m (join_children rec l r t ks) x
      ∙ elim (Bool-cases (adds t m)) [ inl h ↦ rw (h, differ) rest | inr h ↦ rw h rest ]

  join_children-effective :
      (ks : List Projection) (x : Projection) (qs : List Projection)
      → member x ks ≡ true
      → effective (entry t (find x (join_children rec l r t ks))) qs
        ≡ effective (rec (below l x) (below r x)) qs
  unfolding join_children member entry
  join_children-effective [] x qs h = cc
  join_children-effective (k ∷ ks) x qs h =
      let m = rec (below l k) (below r k) in
      ap (λ o. effective (entry t o) qs) (keep_child-find t k m (join_children rec l r t ks) x)
      ∙ elim (Bool-cases (projection_eq k x)) [
        | inl e ↦
            let same : m ≡ rec (below l x) (below r x) =
              ap (λ z. rec (below l z) (below r z)) (projection_eq→eq k x e) in
            elim (Bool-cases (adds t m)) [
              | inl a ↦ rw (a, e, entry) (ap (λ z. effective z qs) same)
              | inr a ↦ elim (Bool-cases (member x ks)) [
                | inl there ↦ rw a (join_children-effective ks x qs there)
                | inr absent ↦
                    rw (a, absent-join_children ks x absent, entry)
                      (effective-new t qs
                        ∙ sym (dropped-effective t m qs a)
                        ∙ ap (λ z. effective z qs) same)
              ]
            ]
        | inr e ↦
            let there : member x ks ≡ true = ground arith in
            elim (Bool-cases (adds t m)) [
              | inl a ↦ rw (a, e) (join_children-effective ks x qs there)
              | inr a ↦ rw a (join_children-effective ks x qs there)
            ]
      ]

flat-effective :
    (n : StateNode) (qs : List Projection) → depth n ≤ 0 → effective n qs ≡ transition n
unfolding depth
flat-effective (node t leaf) qs h = effective-new t qs
flat-effective (node t (child x n cs)) qs h = absurd (ground arith)

outside :
    (n : StateNode) (x : Projection) (xs : List Projection)
    → member x (keys (children n)) ≡ false
    → effective (below n x) xs ≡ transition n
unfolding entry
outside n x xs h = rw (find-none x (children n) h, entry) (effective-new (transition n) xs)

join_available : (a b : Transition) → (join_transition a b).available ≡ a.available && b.available
unfolding join_transition
join_available a b = ground arith

-- Fuel for every level of the two trees gives a tree that holds of every place the join of what the
-- two trees hold of it: no child that the join leaves out is missed.
pub effective-join_nodes :
    (fuel : ℕ) (l r : StateNode) (qs : List Projection)
    → depth l ≤ fuel
    → depth r ≤ fuel
    → effective (join_nodes fuel l r) qs ≡ join_transition (effective l qs) (effective r qs)
unfolding join_nodes effective entry
effective-join_nodes zero l r [] hl hr = refl
effective-join_nodes (suc f) l r [] hl hr = refl
effective-join_nodes zero l r (x ∷ xs) hl hr =
    effective-new (join_transition (transition l) (transition r)) (x ∷ xs)
    ∙ sym (ap₂ join_transition (flat-effective l (x ∷ xs) hl) (flat-effective r (x ∷ xs) hr))
effective-join_nodes (suc f) l r (x ∷ xs) hl hr =
    let t = join_transition (transition l) (transition r) in
    let ks = union_keys (keys (children l)) (keys (children r)) in
    elim (Bool-cases (member x ks)) [
      | inl there ↦
          join_children-effective (join_nodes f) l r t ks x xs there
          ∙ effective-join_nodes f (below l x) (below r x) xs (depth-entry f x l hl)
              (depth-entry f x r hr)
      | inr absent ↦
          let both = sym (member-union_keys x (keys (children l)) (keys (children r))) ∙ absent in
          ap (λ o. effective (entry t o) xs) (absent-join_children (join_nodes f) l r t ks x absent)
          ∙ effective-new t xs
          ∙ sym (
              ap₂ join_transition (outside l x xs (ground (arith, both)))
                (outside r x xs (ground (arith, both))))
    ]

-- With fuel for every level of the two trees, a place is available after a join exactly where both
-- states hold it to be available.
pub effective-join_nodes-available :
    (fuel : ℕ) (l r : StateNode) (qs : List Projection)
    → depth l ≤ fuel
    → depth r ≤ fuel
    → (effective (join_nodes fuel l r) qs).available
      ≡ (effective l qs).available && (effective r qs).available
effective-join_nodes-available fuel l r qs hl hr =
    ap (λ t. t.available) (effective-join_nodes fuel l r qs hl hr)
    ∙ join_available (effective l qs) (effective r qs)
