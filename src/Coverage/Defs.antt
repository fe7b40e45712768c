-- ===== src/Coverage/Defs.antt =====
-- src/check/coverage.rs:7-76 and `coverage_is_exhaustive`, `describe_missing_coverage` of
-- src/check/patterns.rs:92-185. A set of variants is a list without repetition, a set of
-- Booleans a pair of flags.
use elamite.Base.{
  ℕ, zero, suc, Bool, true, false, not, ◌&&◌, ◌||◌, List, [], ◌∷◌, Option, none, some, all,
  contains, length, if◌then◌else◌, ◌==◌, leb, ◌+◌,
}
use elamite.Types.{
  TypeContext, TypeKind, TypeId, kind, resolve_inference, alias, reference, nominal, primitive,
  bool, error_type,
}

pub record BoolSet : Type 0 where
  pub has_true : Bool
  pub has_false : Bool

unfoldable pub count : BoolSet → ℕ
count s = (if s.has_true then 1 else 0) + (if s.has_false then 1 else 0)

unfoldable pub union_bools : BoolSet → BoolSet → BoolSet
union_bools a b = record {
  has_true = a.has_true || b.has_true;
  has_false = a.has_false || b.has_false;
}

unfoldable pub is_subset_bools : BoolSet → BoolSet → Bool
is_subset_bools a b = (not a.has_true || b.has_true) && (not a.has_false || b.has_false)

unfoldable pub insert : ℕ → List ℕ → List ℕ
insert a xs = if contains a xs then xs else a ∷ xs

-- `a.extend(b)`
unfoldable pub extend : List ℕ → List ℕ → List ℕ
extend a [] = a
extend a (x ∷ xs) = extend (insert x a) xs

unfoldable pub is_subset : List ℕ → List ℕ → Bool
is_subset xs ys = all (λ x. contains x ys) xs

unfoldable pub is_empty : List ℕ → Bool
is_empty [] = true
is_empty (_ ∷ _) = false

pub data Coverage : Type 0 where
  nothing catchall : Coverage
  variants : List ℕ → Coverage
  bools : BoolSet → Coverage
  dereferenced : Coverage → Coverage
  unknown : Coverage

unfoldable pub union : Coverage → Coverage → Coverage
union nothing other = other
union this nothing = this
union catchall _ = catchall
union _ catchall = catchall
union (variants a) (variants b) = variants (extend a b)
union (bools a) (bools b) = bools (union_bools a b)
union (dereferenced a) (dereferenced b) = dereferenced (union a b)
union _ _ = unknown

unfoldable pub is_catchall : Coverage → Bool
is_catchall catchall = true
is_catchall (dereferenced inner) = is_catchall inner
is_catchall _ = false

unfoldable pub covers_variants : Coverage → List ℕ → Bool
covers_variants (variants covered) vs = is_subset vs covered
covers_variants (dereferenced inner) vs = covers_variants inner vs
covers_variants _ vs = false

unfoldable pub covers_bools : Coverage → BoolSet → Bool
covers_bools (bools covered) values = is_subset_bools values covered
covers_bools (dereferenced inner) values = covers_bools inner values
covers_bools _ values = false

unfoldable pub is_covered_by : Coverage → Coverage → Bool
is_covered_by (variants vs) previous = not (is_empty vs) && covers_variants previous vs
is_covered_by (bools values) previous = not (count values == 0) && covers_bools previous values
is_covered_by (dereferenced inner) (dereferenced previous) = is_covered_by inner previous
is_covered_by (dereferenced inner) _ = false
is_covered_by catchall previous = is_catchall previous
is_covered_by nothing previous = false
is_covered_by unknown previous = false

-- The enum variants of the resolved program, by id, with their parent declarations.
pub record Variant : Type 0 where
  pub id : ℕ
  pub parent : ℕ

pub record Tables : Type 0 where
  pub types : TypeContext
  pub variants_table : List Variant
  pub is_enum : ℕ → Bool

-- `kind(resolve_inference(ty))`
unfoldable pub resolved_kind : TypeContext → TypeId → Option TypeKind
resolved_kind c ty = elim (resolve_inference c ty) [ none ↦ none | some r ↦ kind c r ]

-- The loop that follows aliases to a reference; `fuel` bounds the chain.
unfoldable pub alias_to_reference : TypeContext → ℕ → TypeId → Option TypeId
alias_to_reference c zero ty = none
alias_to_reference c (suc fuel) ty = elim (kind c ty) [
  | none ↦ none
  | some k ↦ elim k [
    | alias _ _ target ↦ alias_to_reference c fuel target
    | reference _ target ↦ some target
    | _ ↦ none
  ]
]

-- A chain of aliases longer than the arena is a cycle, on which the source would not return.
unfoldable pub reference_target : TypeContext → TypeId → Option TypeId
reference_target c ty = elim (resolve_inference c ty) [
  | none ↦ none
  | some r ↦ alias_to_reference c (suc (length c.kinds)) r
]

-- Whether a set holds every variant of a declaration.
unfoldable pub holds_all_variants : List Variant → ℕ → List ℕ → Bool
holds_all_variants [] declaration vs = true
holds_all_variants (v ∷ rest) declaration vs =
    (not (v.parent == declaration) || contains v.id vs) && holds_all_variants rest declaration vs

unfoldable pub coverage_is_exhaustive : Tables → TypeId → Coverage → Bool
coverage_is_exhaustive t ty catchall = true
coverage_is_exhaustive t ty (dereferenced inner) = elim (reference_target t.types ty) [
  | none ↦ false
  | some target ↦ coverage_is_exhaustive t target inner
]
coverage_is_exhaustive t ty (bools values) = leb 2 (count values)
coverage_is_exhaustive t ty (variants vs) = elim (resolved_kind t.types ty) [
  | none ↦ false
  | some k ↦ elim k [
    | nominal identity _ ↦ holds_all_variants t.variants_table identity.declaration vs
    | _ ↦ false
  ]
]
coverage_is_exhaustive t ty nothing = false
coverage_is_exhaustive t ty unknown = false

pub data Missing : Type 0 where
  cover_both_booleans add_catchall : Missing
  unmatched_variants : List ℕ → Missing

unfoldable pub missing_variants : List Variant → ℕ → List ℕ → List ℕ
missing_variants [] declaration covered = []
missing_variants (v ∷ rest) declaration covered =
    let others = missing_variants rest declaration covered in
    if v.parent == declaration && not (contains v.id covered) then v.id ∷ others else others

unfoldable pub covered_variants : Coverage → List ℕ
covered_variants (variants vs) = vs
covered_variants _ = []

report_variants : List ℕ → Option Missing
report_variants [] = none
report_variants (v ∷ vs) = some (unmatched_variants (v ∷ vs))

-- The answer where the coverage is not that of a dereference pattern.
unfoldable pub describe_plain : Tables → TypeId → Coverage → Option Missing
unfolding report_variants
describe_plain t ty c = elim (resolved_kind t.types ty) [
  | none ↦ none
  | some k ↦ elim k [
    | primitive x ↦ elim x [ bool ↦ some cover_both_booleans | _ ↦ some add_catchall ]
    | nominal identity _ ↦
        if t.is_enum identity.declaration
        then report_variants
            (missing_variants t.variants_table identity.declaration (covered_variants c))
        else some add_catchall
    | error_type ↦ none
    | _ ↦ some add_catchall
  ]
]

unfoldable pub describe_missing_coverage : Tables → TypeId → Coverage → Option Missing
unfolding describe_plain
describe_missing_coverage t ty (dereferenced inner) = elim (resolved_kind t.types ty) [
  | none ↦ none
  | some k ↦ elim k [ reference _ target ↦ describe_missing_coverage t target inner | _ ↦ none ]
]
describe_missing_coverage t ty nothing = describe_plain t ty nothing
describe_missing_coverage t ty c = describe_plain t ty c
