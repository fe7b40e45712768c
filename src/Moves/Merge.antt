-- ===== src/Moves/Merge.antt =====
-- Writes to a state and joins of states, seen through what a state holds of every place.
use elamite.Base.{
  ℕ, ◌≤◌, ◌≡◌, refl, sym, ap, ◌∙◌, Bool, true, false, ◌&&◌, ◌||◌, List, [], ◌∷◌, Option, none, some,
  arith, if◌then◌else◌, Bool-cases, Option-cases, inl, inr, All, subst,
}
use elamite.Place.{PlaceRoot, Place, root_eq, span_eq}
use elamite.Moves.{
  Transition, StateNode, MoveState, root_node, set_place, join_entry, root_keys, member_root,
  union_roots, join_roots, put_entry, join_two, join_transition, effective,
}
use elamite.Moves.Lookup.{is_prefix, effective-set_node}
use elamite.Moves.Join.{depth, effective-join_nodes, or_true}

unfoldable pub held_of : Option StateNode → Place → Option Transition
held_of none q = none
held_of (some n) q = some (effective n q.projections)

-- What a state holds of a place, if it holds the place's root.
unfoldable pub held : MoveState → Place → Option Transition
held s q = held_of (root_node q.root s) q

unfoldable pub overwritten : Bool → Transition → Option Transition → Option Transition
overwritten written t none = none
overwritten written t (some u) = some (if written then t else u)

unfoldable pub merged : Option Transition → Option Transition → Option Transition
merged (some a) (some b) = some (join_transition a b)
merged (some a) none = some a
merged none b = b

root_eq→eq : (a b : PlaceRoot) → root_eq a b ≡ true → a ≡ b
unfolding root_eq span_eq
root_eq→eq a b h = ground arith

overwritten-false : (t : Transition) (o : Option Transition) → overwritten false t o ≡ o
unfolding overwritten
overwritten-false t none = refl
overwritten-false t (some u) = refl

other_root : (y x z : PlaceRoot) → root_eq y x ≡ false → root_eq y z ≡ true → root_eq x z ≡ false
unfolding root_eq span_eq
other_root y x z h e = ground arith

-- A write to a place changes what the state holds of that place and of the places below it, where
-- the state holds their root, and changes what it holds of no other place.
pub held-set_place :
    (p : Place) (t : Transition) (s : MoveState) (q : Place)
    → held (set_place p t s) q
      ≡ overwritten (root_eq p.root q.root && is_prefix p.projections q.projections) t (held s q)
unfolding held set_place overwritten root_node held_of
held-set_place p t [] q = refl
held-set_place p t ((y, n) ∷ s) q = elim (Bool-cases (root_eq y p.root)) [
  | inl here ↦
      let e : y ≡ p.root = root_eq→eq y p.root here in
      elim (Bool-cases (root_eq y q.root)) [
        | inl h ↦
            let g : root_eq p.root q.root ≡ true = subst (λ z. root_eq z q.root ≡ true) e h in
            rw (here, g, h) (ap some (effective-set_node p.projections t n q.projections))
        | inr h ↦
            let g : root_eq p.root q.root ≡ false = subst (λ z. root_eq z q.root ≡ false) e h in
            rw (here, g, h) (sym (overwritten-false t (held_of (root_node q.root s) q)))
      ]
  | inr apart ↦ elim (Bool-cases (root_eq y q.root)) [
    | inl h ↦
        let g : root_eq p.root q.root ≡ false = other_root y p.root q.root apart h in
        rw (apart, g, h)
    | inr h ↦ rw (apart, h) (held-set_place p t s q)
  ]
]

-- The depth of every tree of a state is at most the fuel.
unfoldable pub Bounded : ℕ → MoveState → Type 0
Bounded fuel s = All (λ e. depth e.1 ≤ fuel) s

unfoldable pub BoundedNode : ℕ → Option StateNode → Type 0
BoundedNode fuel none = Unit
BoundedNode fuel (some n) = depth n ≤ fuel

pub root_node-Bounded :
    (fuel : ℕ) (x : PlaceRoot) (s : MoveState) → Bounded fuel s → BoundedNode fuel (root_node x s)
unfolding Bounded BoundedNode root_node
root_node-Bounded fuel x [] b = tt
root_node-Bounded fuel x ((y, n) ∷ s) b = elim (Bool-cases (root_eq y x)) [
  | inl h ↦ rw h b.0
  | inr h ↦ rw h (root_node-Bounded fuel x s b.1)
]

join_entry-held :
    (fuel : ℕ) (l r : Option StateNode) (q : Place)
    → BoundedNode fuel l
    → BoundedNode fuel r
    → held_of (join_entry fuel l r) q ≡ merged (held_of l q) (held_of r q)
unfolding held_of join_entry merged BoundedNode
join_entry-held fuel (some l) (some r) q hl hr =
    ap some (effective-join_nodes fuel l r q.projections hl hr)
join_entry-held fuel (some l) none q hl hr = refl
join_entry-held fuel none (some r) q hl hr = refl
join_entry-held fuel none none q hl hr = refl

root_node-absent :
    (x : PlaceRoot) (s : MoveState) → member_root x (root_keys s) ≡ false → root_node x s ≡ none
unfolding root_node member_root root_keys
root_node-absent x [] h = refl
root_node-absent x ((y, n) ∷ s) h = ground (arith, root_node-absent x s)

either_none : (b : Bool) (o : Option StateNode) → o ≡ none → (if b then o else none) ≡ o
either_none true o h = refl
either_none false o h = sym h

root_node-join_roots :
    (fuel : ℕ) (a b : MoveState) (ks : List PlaceRoot) (x : PlaceRoot)
    → root_node x (join_roots fuel a b ks)
      ≡ (if member_root x ks then join_entry fuel (root_node x a) (root_node x b) else none)
unfolding join_roots member_root put_entry root_node
root_node-join_roots fuel a b [] x = refl
root_node-join_roots fuel a b (k ∷ ks) x =
    elim (Option-cases (join_entry fuel (root_node k a) (root_node k b))) [
      | inl e ↦ elim (Bool-cases (root_eq k x)) [
        | inl h ↦
            let here : join_entry fuel (root_node x a) (root_node x b) ≡ none =
              subst (λ z. join_entry fuel (root_node z a) (root_node z b) ≡ none) (root_eq→eq k x h)
                e in
            rw (e, h) (root_node-join_roots fuel a b ks x ∙ either_none (member_root x ks) _ here)
        | inr h ↦ rw (e, h) (root_node-join_roots fuel a b ks x)
      ]
      | inr (n, e) ↦ elim (Bool-cases (root_eq k x)) [
        | inl h ↦
            let here : join_entry fuel (root_node x a) (root_node x b) ≡ some n =
              subst (λ z. join_entry fuel (root_node z a) (root_node z b) ≡ some n)
                (root_eq→eq k x h) e in
            rw (e, h) (sym here)
        | inr h ↦ rw (e, h) (root_node-join_roots fuel a b ks x)
      ]
    ]

member_root-union :
    (x : PlaceRoot) (xs ys : List PlaceRoot)
    → member_root x (union_roots xs ys) ≡ member_root x xs || member_root x ys
unfolding member_root union_roots
member_root-union x [] ys = refl
member_root-union x (k ∷ xs) ys = elim (Bool-cases (member_root k ys)) [
  | inl h ↦ elim (Bool-cases (root_eq k x)) [
    | inl e ↦
        let m : member_root x ys ≡ true =
          subst (λ z. member_root z ys ≡ true) (root_eq→eq k x e) h in
        rw (h, e, member_root-union x xs ys, m) (or_true (member_root x xs))
    | inr e ↦ rw (h, e) (member_root-union x xs ys)
  ]
  | inr h ↦ elim (Bool-cases (root_eq k x)) [
    | inl e ↦ rw (h, member_root, e)
    | inr e ↦ rw (h, member_root, e) (member_root-union x xs ys)
  ]
]

-- With fuel for every tree of the two states, their join holds of every place the join of what the
-- two hold of it, or what one holds of it where the other does not hold its root.
pub held-join_two :
    (fuel : ℕ) (a b : MoveState) (q : Place)
    → Bounded fuel a
    → Bounded fuel b
    → held (join_two fuel a b) q ≡ merged (held a q) (held b q)
unfolding held join_two held_of merged
held-join_two fuel a b q ha hb =
    ap (λ o. held_of o q)
      (root_node-join_roots fuel a b (union_roots (root_keys a) (root_keys b)) q.root)
    ∙ elim (Bool-cases (member_root q.root (union_roots (root_keys a) (root_keys b)))) [
      | inl there ↦ rw there (
          join_entry-held fuel (root_node q.root a) (root_node q.root b) q
            (root_node-Bounded fuel q.root a ha) (root_node-Bounded fuel q.root b hb))
      | inr absent ↦
          let both = sym (member_root-union q.root (root_keys a) (root_keys b)) ∙ absent in
          rw
            (
              absent,
              root_node-absent q.root a (ground (arith, both)),
              root_node-absent q.root b (ground (arith, both)),
            )
            refl
    ]
