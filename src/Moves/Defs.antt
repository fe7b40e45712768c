-- ===== src/Moves/Defs.antt =====
-- src/check/moves.rs:46-203: transitions, the tree of projections below a place root, writes to a
-- place, and joins. The children of a node are an association list with one entry for a key.
use elamite.Base.{
  ℕ, zero, suc, Bool, true, false, ◌&&◌, ◌||◌, not, List, [], ◌∷◌, Option, none, some,
  if◌then◌else◌,
}
use elamite.Place.{Span, span_eq, span_le, Projection, projection_eq}

pub data UnavailableKind : Type 0 where
  uninitialized moved : UnavailableKind

unfoldable pub kind_eq : UnavailableKind → UnavailableKind → Bool
kind_eq uninitialized uninitialized = true
kind_eq moved moved = true
kind_eq _ _ = false

unfoldable pub kind_le : UnavailableKind → UnavailableKind → Bool
kind_le moved uninitialized = false
kind_le _ _ = true

pub record Transition : Type 0 where
  pub available : Bool
  pub span : Span
  pub unavailable_kind : UnavailableKind

unfoldable pub initialized_at : Span → Transition
initialized_at span = record { available = true; span = span; unavailable_kind = uninitialized }

unfoldable pub uninitialized_at : Span → Transition
uninitialized_at span = record { available = false; span = span; unavailable_kind = uninitialized }

unfoldable pub moved_at : Span → Transition
moved_at span = record { available = false; span = span; unavailable_kind = moved }

unfoldable pub bool_eq : Bool → Bool → Bool
bool_eq true b = b
bool_eq false b = not b

unfoldable pub transition_eq : Transition → Transition → Bool
transition_eq a b =
    bool_eq a.available b.available
    && (span_eq a.span b.span && kind_eq a.unavailable_kind b.unavailable_kind)

mutual
  pub data StateNode : Type 0 where
    node : Transition → Children → StateNode

  pub data Children : Type 0 where
    leaf : Children
    child : Projection → StateNode → Children → Children

abbrev pub transition : StateNode → Transition
transition (node t _) = t

abbrev pub children : StateNode → Children
children (node _ cs) = cs

-- `StateNode::new`
abbrev pub new_node : Transition → StateNode
new_node t = node t leaf

unfoldable pub find : Projection → Children → Option StateNode
find x leaf = none
find x (child y n cs) = if projection_eq y x then some n else find x cs

unfoldable pub insert : Projection → StateNode → Children → Children
insert x n leaf = child x n leaf
insert x n (child y m cs) = if projection_eq y x then child y n cs else child y m (insert x n cs)

-- `entry(..).or_insert_with(|| new(inherited))`
unfoldable pub entry : Transition → Option StateNode → StateNode
entry inherited none = new_node inherited
entry inherited (some n) = n

-- `StateNode::set`
unfoldable pub set_node : List Projection → Transition → StateNode → StateNode
set_node [] t n = node t leaf
set_node (x ∷ xs) t n =
    node (transition n)
      (insert x (set_node xs t (entry (transition n) (find x (children n)))) (children n))

unfoldable pub join_transition : Transition → Transition → Transition
join_transition left right =
    if left.available
    then if right.available then (if span_le left.span right.span then left else right) else right
    else if right.available
    then left
    else if span_eq left.span right.span
    then (if kind_le left.unavailable_kind right.unavailable_kind then left else right)
    else if span_le left.span right.span
    then left
    else right

-- The keys of two maps: those of the first, then those that only the second has.
unfoldable pub keys : Children → List Projection
keys leaf = []
keys (child x _ cs) = x ∷ keys cs

unfoldable pub member : Projection → List Projection → Bool
member x [] = false
member x (y ∷ ys) = if projection_eq y x then true else member x ys

unfoldable pub union_keys : List Projection → List Projection → List Projection
union_keys [] ys = ys
union_keys (x ∷ xs) ys = if member x ys then union_keys xs ys else x ∷ union_keys xs ys

unfoldable pub is_leaf : Children → Bool
is_leaf leaf = true
is_leaf (child _ _ _) = false

-- A child that adds nothing to the transition of its parent is left out.
unfoldable pub keep_child : Transition → Projection → StateNode → Children → Children
keep_child t x n cs =
    if not (transition_eq (transition n) t) || not (is_leaf (children n)) then child x n cs else cs

-- The loop over the keys, for a join `rec` of the children.
unfoldable pub join_children :
    (StateNode → StateNode → StateNode)
    → StateNode
    → StateNode
    → Transition
    → List Projection
    → Children
join_children rec left right t [] = leaf
join_children rec left right t (x ∷ xs) =
    keep_child t x
      (rec (entry (transition left) (find x (children left)))
        (entry (transition right) (find x (children right))))
      (join_children rec left right t xs)

-- `join_nodes`, on fuel: a unit for each level of the deeper tree is enough (`Join`).
unfoldable pub join_nodes : ℕ → StateNode → StateNode → StateNode
join_nodes zero left right = new_node (join_transition (transition left) (transition right))
join_nodes (suc fuel) left right =
    let t = join_transition (transition left) (transition right) in
    node t (
      join_children (join_nodes fuel) left right t
        (union_keys (keys (children left)) (keys (children right))))

-- What the analysis holds of a projected place: the transition of the deepest marked prefix.
unfoldable pub effective : StateNode → List Projection → Transition
effective n [] = transition n
effective n (x ∷ xs) = effective (entry (transition n) (find x (children n))) xs
