-- ===== src/Place/Overlap.antt =====
-- What the overlap test promises about the storage that two places denote.
use elamite.Base.{
  ◌==◌, ==→eq, ==_refl, ◌∙◌, ap, ℕ, ◌≡◌, refl, ◌≢◌, sym, subst, inl, inr, Bool, true, false, ◌||◌,
  List, [], ◌∷◌, arith, Bool-cases,
}
use elamite.Place.Storage.{
  Location, is_part, part_at, Denotes, Apart, IsComparable, direct, fork, shared, IsSeparate, start,
  append_assoc, diverge, no_dereference_tail, part-next, index-next, next, Denotes-next,
  Denotes-direct,
}
use elamite.Place.{
  field, tuple_field, span_eq, PlaceRoot, Projection, constant_index, dynamic_index, Place,
  disjoint, root_eq, projection_eq, projections_eq, is_expression, has_dereference, differing,
  overlap_projections, overlap,
}

pub projection_eq_comm : (a b : Projection) → projection_eq a b ≡ projection_eq b a
unfolding projection_eq
projection_eq_comm a b = ground arith

pub projection_eq→eq : (a b : Projection) → projection_eq a b ≡ true → a ≡ b
unfolding projection_eq
projection_eq→eq a b h = ground arith

pub projection_eq_refl : (a : Projection) → projection_eq a a ≡ true
unfolding projection_eq
projection_eq_refl a = ground arith

differing_comm : (a b : Projection) → differing a b ≡ differing b a
unfolding differing
differing_comm a b = ground arith

overlap_projections_comm :
    (xs ys : List Projection) → overlap_projections xs ys ≡ overlap_projections ys xs
unfolding overlap_projections
overlap_projections_comm [] [] = refl
overlap_projections_comm [] (y ∷ ys) = refl
overlap_projections_comm (x ∷ xs) [] = refl
overlap_projections_comm (x ∷ xs) (y ∷ ys) =
    rw (projection_eq_comm x y, differing_comm x y, overlap_projections_comm xs ys)

projections_eq_comm : (xs ys : List Projection) → projections_eq xs ys ≡ projections_eq ys xs
unfolding projections_eq
projections_eq_comm [] [] = refl
projections_eq_comm [] (y ∷ ys) = refl
projections_eq_comm (x ∷ xs) [] = refl
projections_eq_comm (x ∷ xs) (y ∷ ys) = rw (projection_eq_comm x y, projections_eq_comm xs ys)

root_eq_comm : (a b : PlaceRoot) → root_eq a b ≡ root_eq b a
unfolding root_eq span_eq
root_eq_comm a b = ground arith

or_comm : (a b : Bool) → a || b ≡ b || a
or_comm a b = ground arith

-- The test does not depend on the order of the two places.
pub overlap_comm : (a b : Place) → overlap a b ≡ overlap b a
unfolding overlap
overlap_comm a b = rw (
  root_eq_comm a.root b.root,
  projections_eq_comm a.projections b.projections,
  overlap_projections_comm a.projections b.projections,
  or_comm (is_expression a.root) (is_expression b.root),
  or_comm (has_dereference a.projections) (has_dereference b.projections),
)

root_eq→eq : (p q : PlaceRoot) → root_eq p q ≡ true → p ≡ q
unfolding root_eq span_eq
root_eq→eq p q h = ground arith

projection_eq-ne : (x y : Projection) → projection_eq x y ≡ false → x ≢ y
projection_eq-ne x y e same =
    let t : projection_eq x y ≡ true =
      subst (λ z. projection_eq x z ≡ true) same (projection_eq_refl x) in
    cc

-- Two projections that differ, with the answer that they are disjoint, are parts.
differing-parts :
    (x y : Projection) → differing x y ≡ disjoint → (is_part x ≡ true) × (is_part y ≡ true)
unfolding differing is_part
differing-parts (field a) (field b) h = (refl, refl)
differing-parts (tuple_field a) (tuple_field b) h = (refl, refl)
differing-parts (constant_index a) (constant_index b) h = (refl, refl)
differing-parts x y h = cc

module _ (target : Location → Location) where
  -- The paths, from one location on, denote parts that are apart.
  abbrev KeepApart : List Projection → List Projection → Type 0
  KeepApart xs ys =
      overlap_projections xs ys ≡ disjoint
      → (l a b : Location) → Denotes target l xs a
      → Denotes target l ys b
      → Apart a b

  parts-Apart :
      (l a b : Location) (x y : Projection) (xs ys : List Projection)
      → x ≢ y
      → has_dereference xs ≡ false
      → has_dereference ys ≡ false
      → Denotes target (part_at l (x ∷ [])) xs a
      → Denotes target (part_at l (y ∷ [])) ys b
      → Apart a b
  parts-Apart l a b x y xs ys differ p q d e =
      let (us, is) = Denotes-direct target p d in
      let (vs, js) = Denotes-direct target q e in
      let left : a ≡ part_at l (x ∷ us) =
        is ∙ ap (λ path. record l { path = path }) (append_assoc l.path (x ∷ []) us) in
      let right : b ≡ part_at l (y ∷ vs) =
        js ∙ ap (λ path. record l { path = path }) (append_assoc l.path (y ∷ []) vs) in
      rw (left, right) (diverge l x y us vs differ)

  -- Two indices that turn out differently lead to different elements.
  indices-KeepApart :
      (xs ys : List Projection)
      → has_dereference xs ≡ false
      → has_dereference ys ≡ false
      → KeepApart xs ys
      → KeepApart (dynamic_index ∷ xs) (dynamic_index ∷ ys)
  unfolding overlap_projections projection_eq
  indices-KeepApart xs ys p q rest h l a b d e =
      let (k, d') = index-next target l a xs d in
      let (j, e') = index-next target l b ys e in
      elim (Bool-cases (k == j)) [
        | inl same ↦ rest h (part_at l (constant_index k ∷ [])) a b d' (
            subst (λ z. Denotes target (part_at l (constant_index z ∷ [])) ys b)
              (sym (==→eq k j same)) e')
        | inr differ ↦
            parts-Apart l a b (constant_index k) (constant_index j) xs ys
              (λ same.
                let one : k ≡ j = cc in let yes_same : k == j ≡ true = rw one (==_refl j) in cc)
              p q d' e'
      ]

  -- After one projection that is the same, which is no dynamic index.
  shared-KeepApart :
      (x : Projection) (xs ys : List Projection)
      → x ≢ dynamic_index
      → KeepApart xs ys
      → KeepApart (x ∷ xs) (x ∷ ys)
  unfolding overlap_projections
  shared-KeepApart x xs ys n rest h l a b d e =
      let same = projection_eq_refl x in
      rest (rw same at h) (next target l x) a b (Denotes-next target l a x xs n d)
        (Denotes-next target l b x ys n e)

  fork-KeepApart :
      (x y : Projection) (xs ys : List Projection)
      → has_dereference xs ≡ false
      → has_dereference ys ≡ false
      → KeepApart xs ys
      → KeepApart (x ∷ xs) (y ∷ ys)
  unfolding overlap_projections
  fork-KeepApart x y xs ys p q rest h l a b d e = elim (Bool-cases (projection_eq x y)) [
    | inl same ↦
        let one = projection_eq→eq x y same in
        let h' : overlap_projections (x ∷ xs) (x ∷ ys) ≡ disjoint =
          subst (λ z. overlap_projections (x ∷ xs) (z ∷ ys) ≡ disjoint) (sym one) h in
        let e' = subst (λ z. Denotes target l (z ∷ ys) b) (sym one) e in
        elim (Bool-cases (projection_eq x dynamic_index)) [
          | inl dynamic ↦
              let is = projection_eq→eq x dynamic_index dynamic in
              indices-KeepApart xs ys p q rest
                (subst (λ z. overlap_projections (z ∷ xs) (z ∷ ys) ≡ disjoint) is h') l a b
                (subst (λ z. Denotes target l (z ∷ xs) a) is d)
                (subst (λ z. Denotes target l (z ∷ ys) b) is e')
          | inr constant ↦
              shared-KeepApart x xs ys (projection_eq-ne x dynamic_index constant) rest h' l a b d
                e'
        ]
    | inr differ ↦
        let (left, right) = differing-parts x y (rw differ at h) in
        parts-Apart l a b x y xs ys (projection_eq-ne x y differ) p q
          (part-next target l a x xs left d) (part-next target l b y ys right e)
  ]

  direct-KeepApart :
      (xs ys : List Projection)
      → has_dereference xs ≡ false
      → has_dereference ys ≡ false
      → KeepApart xs ys
  unfolding overlap_projections
  direct-KeepApart [] ys p q h l a b d e = cc
  direct-KeepApart (x ∷ xs) [] p q h l a b d e = cc
  direct-KeepApart (x ∷ xs) (y ∷ ys) p q h l a b d e =
      let p' = no_dereference_tail x xs p in
      let q' = no_dereference_tail y ys q in
      fork-KeepApart x y xs ys p' q' (direct-KeepApart xs ys p' q') h l a b d e

  IsComparable-KeepApart : {xs ys : List Projection} → IsComparable xs ys → KeepApart xs ys
  IsComparable-KeepApart (direct {xs} {ys} p q) = direct-KeepApart xs ys p q
  IsComparable-KeepApart (fork {x} {y} {xs} {ys} p q) =
      fork-KeepApart x y xs ys p q (direct-KeepApart xs ys p q)
  IsComparable-KeepApart (shared {x} {xs} {ys} n c) =
      shared-KeepApart x xs ys n (IsComparable-KeepApart c)

  -- Locations of distinct objects.
  objects-Apart :
      (object_of : PlaceRoot → ℕ) (a b : Place) (l m : Location)
      → object_of a.root ≢ object_of b.root
      → has_dereference a.projections ≡ false
      → has_dereference b.projections ≡ false
      → Denotes target (start object_of a) a.projections l
      → Denotes target (start object_of b) b.projections m
      → Apart l m
  objects-Apart object_of a b l m differ p q d e =
      let (us, is) = Denotes-direct target p d in
      let (vs, js) = Denotes-direct target q e in
      rw (is, js) ((λ w. differ w.0), (λ w. differ (sym w.0)))

  -- Where distinct bindings and captures are distinct objects and the test answers that two places are
  -- disjoint, no storage that the one denotes lies within storage that the other denotes, however
  -- dynamic indices turn out and wherever pointers lead, pointers that alias included. It is asked that
  -- no dereference comes after the first dynamic index, or after the projection at which the paths of
  -- the places first differ.
  pub overlap-disjoint :
      (object_of : PlaceRoot → ℕ)
      → IsSeparate object_of
      → (a b : Place) (l m : Location) → overlap a b ≡ disjoint
      → IsComparable a.projections b.projections
      → Denotes target (start object_of a) a.projections l
      → Denotes target (start object_of b) b.projections m
      → Apart l m
  unfolding overlap
  overlap-disjoint object_of separate a b l m h c d e = elim (Bool-cases (root_eq a.root b.root)) [
    | inl same ↦
        let one = root_eq→eq a.root b.root same in
        IsComparable-KeepApart c (ground arith) (start object_of a) l m d (
          subst (λ r. Denotes target (record { object = object_of r; path = [] }) b.projections m)
            (sym one) e)
    | inr differ ↦
        objects-Apart object_of a b l m
          (separate a.root b.root (ground arith) (ground arith) differ) (ground arith)
          (ground arith) d e
  ]
