-- ===== src/Moves/Sequence.antt =====
-- The join of a list of states, one after the other.
use elamite.Base.{
  ℕ, zero, suc, ◌≤◌, ◌≡◌, refl, ap, ◌∙◌, List, [], ◌∷◌, Option, none, some, arith, All,
}
use elamite.Place.{Projection, PlaceRoot, Place}
use elamite.Moves.{
  Transition, StateNode, Children, MoveState, keep_child, join_children, join_nodes, join_entry,
  put_entry, join_roots, join_two, join_rest, join_states,
}
use elamite.Moves.Join.{depth, depth_children}
use elamite.Moves.Merge.{held, merged, Bounded, BoundedNode, root_node-Bounded, held-join_two}

depth-keep_child :
    (fuel : ℕ) (t : Transition) (x : Projection) (n : StateNode) (cs : Children)
    → depth n ≤ fuel
    → depth_children cs ≤ suc fuel
    → depth_children (keep_child t x n cs) ≤ suc fuel
unfolding keep_child depth
depth-keep_child fuel t x n cs hn hc = ground (arith, hn, hc)

depth-join_children :
    (fuel : ℕ) (l r : StateNode) (t : Transition) (ks : List Projection)
    → ((a b : StateNode) → depth (join_nodes fuel a b) ≤ fuel)
    → depth_children (join_children (join_nodes fuel) l r t ks) ≤ suc fuel
unfolding join_children depth
depth-join_children fuel l r t [] rec = omega arith
depth-join_children fuel l r t (k ∷ ks) rec =
    depth-keep_child fuel t k _ _ (rec _ _) (depth-join_children fuel l r t ks rec)

depth-join_nodes : (fuel : ℕ) (l r : StateNode) → depth (join_nodes fuel l r) ≤ fuel
unfolding join_nodes depth
depth-join_nodes zero l r = omega arith
depth-join_nodes (suc fuel) l r = depth-join_children fuel l r _ _ (depth-join_nodes fuel)

join_entry-Bounded :
    (fuel : ℕ) (l r : Option StateNode)
    → BoundedNode fuel l
    → BoundedNode fuel r
    → BoundedNode fuel (join_entry fuel l r)
unfolding join_entry BoundedNode
join_entry-Bounded fuel (some l) (some r) hl hr = depth-join_nodes fuel l r
join_entry-Bounded fuel (some l) none hl hr = hl
join_entry-Bounded fuel none r hl hr = hr

put_entry-Bounded :
    (fuel : ℕ) (x : PlaceRoot) (o : Option StateNode) (s : MoveState)
    → BoundedNode fuel o
    → Bounded fuel s
    → Bounded fuel (put_entry x o s)
unfolding put_entry Bounded BoundedNode
put_entry-Bounded fuel x none s ho hs = hs
put_entry-Bounded fuel x (some n) s ho hs = (ho, hs)

join_roots-Bounded :
    (fuel : ℕ) (a b : MoveState) (ks : List PlaceRoot)
    → Bounded fuel a
    → Bounded fuel b
    → Bounded fuel (join_roots fuel a b ks)
unfolding join_roots
join_roots-Bounded fuel a b [] ha hb = unfold Bounded in tt
join_roots-Bounded fuel a b (k ∷ ks) ha hb =
    put_entry-Bounded fuel k _ _
      (join_entry-Bounded fuel _ _ (root_node-Bounded fuel k a ha) (root_node-Bounded fuel k b hb))
      (join_roots-Bounded fuel a b ks ha hb)

join_two-Bounded :
    (fuel : ℕ) (a b : MoveState)
    → Bounded fuel a
    → Bounded fuel b
    → Bounded fuel (join_two fuel a b)
unfolding join_two
join_two-Bounded fuel a b ha hb = join_roots-Bounded fuel a b _ ha hb

-- What a place is held to be after the states of a list are merged one by one into the first.
unfoldable pub merged_all : Option Transition → List MoveState → Place → Option Transition
merged_all o [] q = o
merged_all o (s ∷ states) q = merged_all (merged o (held s q)) states q

held-join_rest :
    (fuel : ℕ) (s : MoveState) (states : List MoveState) (q : Place)
    → Bounded fuel s
    → All (Bounded fuel) states
    → held (join_rest fuel s states) q ≡ merged_all (held s q) states q
unfolding join_rest merged_all
held-join_rest fuel s [] q hs hr = refl
held-join_rest fuel s (t ∷ states) q hs hr =
    held-join_rest fuel (join_two fuel s t) states q (join_two-Bounded fuel s t hs hr.0) hr.1
    ∙ ap (λ o. merged_all o states q) (held-join_two fuel s t q hs hr.0)

-- With fuel for every tree of the states, the join of a list of states that is not empty exists
-- and holds of every place the merge, in order, of what the states hold of it.
pub held-join_states :
    (fuel : ℕ) (s : MoveState) (states : List MoveState) (q : Place)
    → Bounded fuel s
    → All (Bounded fuel) states
    → (joined : MoveState) × (join_states fuel (s ∷ states) ≡ some joined)
      × (held joined q ≡ merged_all (held s q) states q)
unfolding join_states
held-join_states fuel s states q hs hr =
    (join_rest fuel s states, refl, held-join_rest fuel s states q hs hr)
