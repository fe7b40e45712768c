-- ===== src/Moves/States.antt =====
-- src/check/moves.rs:114-152: the state of the analysis, a map from place roots to trees. It is an
-- association list with one entry for a root.
use elamite.Base.{ℕ, Bool, true, false, List, [], ◌∷◌, Option, none, some, if◌then◌else◌}
use elamite.Place.{PlaceRoot, Place, root_eq}
use elamite.Moves.Defs.{Transition, StateNode, set_node, join_nodes}

abbrev pub MoveState : Type 0
MoveState = List (PlaceRoot × StateNode)

unfoldable pub root_node : PlaceRoot → MoveState → Option StateNode
root_node x [] = none
root_node x ((y, n) ∷ roots) = if root_eq y x then some n else root_node x roots

-- `MoveState::set`: a place whose root the state does not hold is left alone.
unfoldable pub set_place : Place → Transition → MoveState → MoveState
set_place place t [] = []
set_place place t ((y, n) ∷ roots) =
    if root_eq y place.root
    then (y, set_node place.projections t n) ∷ roots
    else (y, n) ∷ set_place place t roots

-- The entry of a root that one state or both hold.
unfoldable pub join_entry : ℕ → Option StateNode → Option StateNode → Option StateNode
join_entry fuel (some left) (some right) = some (join_nodes fuel left right)
join_entry fuel (some left) none = some left
join_entry fuel none right = right

unfoldable pub root_keys : MoveState → List PlaceRoot
root_keys [] = []
root_keys ((x, _) ∷ roots) = x ∷ root_keys roots

unfoldable pub member_root : PlaceRoot → List PlaceRoot → Bool
member_root x [] = false
member_root x (y ∷ ys) = if root_eq y x then true else member_root x ys

unfoldable pub union_roots : List PlaceRoot → List PlaceRoot → List PlaceRoot
union_roots [] ys = ys
union_roots (x ∷ xs) ys = if member_root x ys then union_roots xs ys else x ∷ union_roots xs ys

unfoldable pub put_entry : PlaceRoot → Option StateNode → MoveState → MoveState
put_entry x none roots = roots
put_entry x (some n) roots = (x, n) ∷ roots

-- The loop over the roots of two states.
unfoldable pub join_roots : ℕ → MoveState → MoveState → List PlaceRoot → MoveState
join_roots fuel joined state [] = []
join_roots fuel joined state (x ∷ xs) =
    put_entry x (join_entry fuel (root_node x joined) (root_node x state))
      (join_roots fuel joined state xs)

unfoldable pub join_two : ℕ → MoveState → MoveState → MoveState
join_two fuel joined state =
    join_roots fuel joined state (union_roots (root_keys joined) (root_keys state))

unfoldable pub join_rest : ℕ → MoveState → List MoveState → MoveState
join_rest fuel joined [] = joined
join_rest fuel joined (state ∷ states) = join_rest fuel (join_two fuel joined state) states

-- `MoveState::join`, with the fuel of `join_nodes`.
unfoldable pub join_states : ℕ → List MoveState → Option MoveState
join_states fuel [] = none
join_states fuel (state ∷ states) = some (join_rest fuel state states)
