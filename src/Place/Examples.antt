-- ===== src/Place/Examples.antt =====
-- Two fields of what one local points to, one of them behind a dynamic index.
use elamite.Base.{ℕ, ◌+◌, ◌≡◌, refl, [], ◌∷◌, arith}
use elamite.Place.{
  Place, PlaceRoot, local, closure_capture, expression, field, dynamic_index, constant_index,
  dereference, root_eq, is_expression, projection_eq, projections_eq, has_dereference, overlap,
  overlap_projections, differing, disjoint,
}
use elamite.Place.Storage.{
  Location, is_part, Denotes, here, part, index, follow, Apart, IsComparable, fork, shared,
  IsSeparate, start,
}
use elamite.Place.Overlap.{overlap-disjoint, overlap_comm}

abbrev left_items : Place
left_items = record { root = local 0; projections = dereference ∷ field 1 ∷ dynamic_index ∷ [] }

abbrev right_part : Place
right_part = record { root = local 0; projections = dereference ∷ field 2 ∷ [] }

-- Every pointer leads to the object 9: all pointers alias.
abbrev target : Location → Location
target _ = record { object = 9; path = [] }

unfoldable object_of : PlaceRoot → ℕ
object_of (local n) = n + n
object_of (closure_capture n) = n + n + 1
object_of (expression _) = 0

object_of-IsSeparate : IsSeparate object_of
unfolding object_of root_eq is_expression
object_of-IsSeparate p q np nq differ = ground arith

are_disjoint : overlap left_items right_part ≡ disjoint
unfolding overlap root_eq projections_eq overlap_projections projection_eq differing
are_disjoint = refl

both-IsComparable : IsComparable left_items.projections right_part.projections
unfolding has_dereference projection_eq
both-IsComparable = shared (λ e. cc) (fork refl refl)

left_items-Denotes :
    Denotes target
      (start object_of left_items)
      left_items.projections
      (record { object = 9; path = field 1 ∷ constant_index 7 ∷ [] })
unfolding is_part
left_items-Denotes = follow (part refl (index 7 here))

right_part-Denotes :
    Denotes target
      (start object_of right_part)
      right_part.projections
      (record { object = 9; path = field 2 ∷ [] })
unfolding is_part
right_part-Denotes = follow (part refl here)

overlap-disjoint_example :
    Apart
      (record { object = 9; path = field 1 ∷ constant_index 7 ∷ [] })
      (record { object = 9; path = field 2 ∷ [] })
overlap-disjoint_example =
    overlap-disjoint target object_of object_of-IsSeparate left_items right_part
      (record { object = 9; path = field 1 ∷ constant_index 7 ∷ [] })
      (record { object = 9; path = field 2 ∷ [] }) are_disjoint both-IsComparable left_items-Denotes
      right_part-Denotes

-- Pointers in two fields of one local: the test answers that what they lead to is disjoint.
behind_two_fields :
    overlap
      (record { root = local 0; projections = field 1 ∷ dereference ∷ [] })
      (record { root = local 0; projections = field 2 ∷ dereference ∷ [] })
    ≡ disjoint
unfolding overlap root_eq projections_eq overlap_projections projection_eq differing
behind_two_fields = refl

overlap_comm_example : overlap left_items right_part ≡ overlap right_part left_items
overlap_comm_example = overlap_comm left_items right_part
