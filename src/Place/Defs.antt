-- ===== src/Place/Defs.antt =====
-- src/source.rs:24-38 and src/operations.rs:54-132.
use elamite.Base.{
  ℕ, Bool, true, false, ◌&&◌, ◌||◌, List, [], ◌∷◌, if◌then◌else◌, ◌==◌, ltb, leb, any,
}

pub record Span : Type 0 where
  pub file : ℕ
  pub start : ℕ
  pub stop : ℕ

unfoldable pub span_eq : Span → Span → Bool
span_eq a b = a.file == b.file && (a.start == b.start && a.stop == b.stop)

-- The derived order: by file, then start, then end.
unfoldable pub span_le : Span → Span → Bool
span_le a b =
    if ltb a.file b.file
    then true
    else if ltb b.file a.file
    then false
    else if ltb a.start b.start
    then true
    else if ltb b.start a.start
    then false
    else leb a.stop b.stop

pub data PlaceRoot : Type 0 where
  local closure_capture : ℕ → PlaceRoot
  expression : Span → PlaceRoot

pub data Projection : Type 0 where
  field tuple_field constant_index : ℕ → Projection
  dynamic_index dereference receiver_adaptation : Projection

pub record Place : Type 0 where
  pub root : PlaceRoot
  pub projections : List Projection

pub data PlaceOverlap : Type 0 where
  equal disjoint may_overlap : PlaceOverlap

unfoldable pub root_eq : PlaceRoot → PlaceRoot → Bool
root_eq (local a) (local b) = a == b
root_eq (closure_capture a) (closure_capture b) = a == b
root_eq (expression a) (expression b) = span_eq a b
root_eq _ _ = false

unfoldable pub projection_eq : Projection → Projection → Bool
projection_eq (field a) (field b) = a == b
projection_eq (tuple_field a) (tuple_field b) = a == b
projection_eq (constant_index a) (constant_index b) = a == b
projection_eq dynamic_index dynamic_index = true
projection_eq dereference dereference = true
projection_eq receiver_adaptation receiver_adaptation = true
projection_eq _ _ = false

unfoldable pub projections_eq : List Projection → List Projection → Bool
projections_eq [] [] = true
projections_eq (a ∷ as') (b ∷ bs) = projection_eq a b && projections_eq as' bs
projections_eq _ _ = false

unfoldable pub is_expression : PlaceRoot → Bool
is_expression (expression _) = true
is_expression _ = false

unfoldable pub has_dereference : List Projection → Bool
has_dereference = any (projection_eq dereference)

-- The answer at the first two projections that differ.
unfoldable pub differing : Projection → Projection → PlaceOverlap
differing (field _) (field _) = disjoint
differing (tuple_field _) (tuple_field _) = disjoint
differing (constant_index _) (constant_index _) = disjoint
differing _ _ = may_overlap

-- The loop over the pairs of projections; if it ends, one path extends the other.
unfoldable pub overlap_projections : List Projection → List Projection → PlaceOverlap
overlap_projections (left ∷ lefts) (right ∷ rights) =
    if projection_eq left right then overlap_projections lefts rights else differing left right
overlap_projections _ _ = may_overlap

unfoldable pub overlap : Place → Place → PlaceOverlap
overlap a b =
    if root_eq a.root b.root
    then if projections_eq a.projections b.projections
      then equal
      else overlap_projections a.projections b.projections
    else if (is_expression a.root || is_expression b.root)
        || (has_dereference a.projections || has_dereference b.projections)
    then may_overlap
    else disjoint
