-- ===== src/Moves/Examples.antt =====
-- Moves of a field, and a join after a branch that moves it.
use elamite.Base.{some, ◌≡◌, refl, [], ◌∷◌, if◌then◌else◌, ◌&&◌, arith}
use elamite.Place.{Span, Place, local, root_eq, span_eq, span_le, field, projection_eq}
use elamite.Moves.{
  StateNode, initialized_at, moved_at, new_node, set_node, find, insert, entry, effective,
  join_nodes, join_transition, join_children, keep_child, keys, member, union_keys, is_leaf,
  transition_eq, bool_eq, kind_eq,
}
use elamite.Moves.{MoveState, set_place, join_two, join_states}
use elamite.Moves.Merge.{held, overwritten, merged, Bounded, held-set_place, held-join_two}
use elamite.Moves.Sequence.{merged_all, held-join_states}
use elamite.Moves.Lookup.{is_prefix, effective-set_node}
use elamite.Moves.Join.{depth, effective-join_nodes, effective-join_nodes-available}

abbrev at : Span
at = record { file = 0; start = 1; stop = 2 }

abbrev later : Span
later = record { file = 0; start = 5; stop = 6 }

abbrev fresh : StateNode
fresh = new_node (initialized_at at)

abbrev first_moved : StateNode
first_moved = set_node (field 0 ∷ []) (moved_at later) fresh

effective-set_node_example :
    effective (set_node (field 0 ∷ []) (moved_at later) fresh) (field 0 ∷ field 3 ∷ []) ≡ (
      if is_prefix (field 0 ∷ []) (field 0 ∷ field 3 ∷ [])
      then moved_at later
      else effective fresh (field 0 ∷ field 3 ∷ []))
effective-set_node_example =
    effective-set_node (field 0 ∷ []) (moved_at later) fresh (field 0 ∷ field 3 ∷ [])

other_field : effective first_moved (field 1 ∷ []) ≡ initialized_at at
unfolding effective set_node insert find entry projection_eq
other_field = refl

effective-join_nodes_example :
    effective (join_nodes 1 first_moved fresh) (field 0 ∷ [])
    ≡ join_transition (effective first_moved (field 0 ∷ [])) (effective fresh (field 0 ∷ []))
unfolding depth set_node insert find entry
effective-join_nodes_example =
    effective-join_nodes 1 first_moved fresh (field 0 ∷ []) (omega arith) (omega arith)

effective-join_nodes-available_example :
    (effective (join_nodes 1 first_moved fresh) (field 0 ∷ [])).available
    ≡ (effective first_moved (field 0 ∷ [])).available && (effective fresh (field 0 ∷ [])).available
unfolding depth set_node insert find entry
effective-join_nodes-available_example =
    effective-join_nodes-available 1 first_moved fresh (field 0 ∷ []) (omega arith) (omega arith)

join_keeps_move : effective (join_nodes 1 first_moved fresh) (field 0 ∷ []) ≡ moved_at later
unfolding effective join_nodes set_node insert find entry projection_eq join_transition
    join_children keep_child keys member union_keys is_leaf transition_eq bool_eq kind_eq span_eq
    moved_at initialized_at span_le
join_keeps_move = refl

abbrev first_local : Place
first_local = record { root = local 0; projections = field 0 ∷ [] }

abbrev whole_local : Place
whole_local = record { root = local 0; projections = [] }

abbrev two_locals : MoveState
two_locals = (local 0, fresh) ∷ (local 1, fresh) ∷ []

abbrev after_move : MoveState
after_move = (local 0, first_moved) ∷ []

held-set_place_example :
    held (set_place whole_local (moved_at later) two_locals) first_local
    ≡ overwritten
        (root_eq (local 0) (local 0) && is_prefix [] (field 0 ∷ []))
        (moved_at later)
        (held two_locals first_local)
held-set_place_example = held-set_place whole_local (moved_at later) two_locals first_local

held-join_two_example :
    held (join_two 1 two_locals after_move) first_local
    ≡ merged (held two_locals first_local) (held after_move first_local)
unfolding depth set_node insert find entry Bounded
held-join_two_example =
    held-join_two 1 two_locals after_move first_local (omega arith, (omega arith, tt))
      (omega arith, tt)

held-join_states_example :
    (joined : MoveState) × (join_states 1 (two_locals ∷ after_move ∷ []) ≡ some joined)
    × (held joined first_local
        ≡ merged_all (held two_locals first_local) (after_move ∷ []) first_local)
unfolding depth set_node insert find entry Bounded
held-join_states_example =
    held-join_states 1 two_locals (after_move ∷ []) first_local (omega arith, (omega arith, tt))
      ((omega arith, tt), tt)
