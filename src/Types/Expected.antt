-- ===== src/Types/Expected.antt =====
-- src/types/context.rs:204-209, :592-609, :635-711 and :1003-1020: the type that a literal is expected
-- to have. `none` is a read out of range or no fuel left.
use Prim.Native.String.{String}
use elamite.Base.{ℕ, zero, suc, Bool, ◌&&◌, ◌||◌, Option, none, some, if◌then◌else◌}
use elamite.Types.Defs.{
  PrimitiveType, i8, i16, i32, i64, i128, isize, u8, u16, u32, u64, u128, usize, f32, f64, str,
  string, TypeId, TypeKind, TypeContext, alias, primitive, kind, resolve_inference,
}
use elamite.Types.Arena.{intern_primitive}
use elamite.Types.Literals.{is_integer, is_float}

pub data ExpectedType : Type 0 where
  anything : ExpectedType
  exact : TypeId → ExpectedType

pub data NumericSuffix : Type 0 where
  suffix_i8 suffix_i16 suffix_i32 suffix_i64 suffix_i128 suffix_isize suffix_u8 suffix_u16
        suffix_u32 suffix_u64 suffix_u128 suffix_usize suffix_f32 suffix_f64 :
      NumericSuffix

unfoldable pub primitive_for_suffix : NumericSuffix → PrimitiveType
primitive_for_suffix suffix_i8 = i8
primitive_for_suffix suffix_i16 = i16
primitive_for_suffix suffix_i32 = i32
primitive_for_suffix suffix_i64 = i64
primitive_for_suffix suffix_i128 = i128
primitive_for_suffix suffix_isize = isize
primitive_for_suffix suffix_u8 = u8
primitive_for_suffix suffix_u16 = u16
primitive_for_suffix suffix_u32 = u32
primitive_for_suffix suffix_u64 = u64
primitive_for_suffix suffix_u128 = u128
primitive_for_suffix suffix_usize = usize
primitive_for_suffix suffix_f32 = f32
primitive_for_suffix suffix_f64 = f64

-- One turn of the loop of `expanded_primitive`, at a resolved type.
unfoldable pub expand_kind :
    (TypeId → Option (Option PrimitiveType)) → Option TypeKind → Option (Option PrimitiveType)
expand_kind again none = none
expand_kind again (some (alias _ _ target)) = again target
expand_kind again (some (primitive p)) = some (some p)
expand_kind again (some _) = some none

unfoldable pub expand_resolved :
    TypeContext
    → (TypeId → Option (Option PrimitiveType))
    → Option TypeId
    → Option (Option PrimitiveType)
expand_resolved c again none = none
expand_resolved c again (some ty) = expand_kind again (kind c ty)

unfoldable pub expanded_primitive : TypeContext → ℕ → TypeId → Option (Option PrimitiveType)
expanded_primitive c zero ty = none
expanded_primitive c (suc fuel) ty =
    expand_resolved c (expanded_primitive c fuel) (resolve_inference c ty)

unfoldable pub fits_literal : Bool → Option PrimitiveType → Option PrimitiveType
fits_literal integer_literal none = none
fits_literal integer_literal (some p) =
    if is_float p || (integer_literal && is_integer p) then some p else none

unfoldable pub expected_numeric :
    TypeContext → ℕ → ExpectedType → Bool → Option (Option PrimitiveType)
expected_numeric c fuel anything integer_literal = some none
expected_numeric c fuel (exact ty) integer_literal = elim (expanded_primitive c fuel ty) [
  | none ↦ none
  | some found ↦ some (fits_literal integer_literal found)
]

unfoldable pub or_default : PrimitiveType → Option PrimitiveType → PrimitiveType
or_default default none = default
or_default default (some p) = p

-- The first lines of `materialize_integer` and `materialize_float`: the suffix, the expected type, or
-- the default, in that order.
unfoldable pub literal_primitive :
    TypeContext
    → ℕ
    → Option NumericSuffix
    → ExpectedType
    → Bool
    → PrimitiveType
    → Option PrimitiveType
literal_primitive c fuel (some suffix) expected integer_literal default =
    some (primitive_for_suffix suffix)
literal_primitive c fuel none expected integer_literal default =
    elim (expected_numeric c fuel expected integer_literal) [
      | none ↦ none
      | some found ↦ some (or_default default found)
    ]

pub data LiteralResult : Type 0 where
  materialized : TypeId → LiteralResult
  literal_error : String → LiteralResult

-- The answer, and the arena after it.
abbrev pub Materialized : Type 0
Materialized = Option (LiteralResult × TypeContext)

unfoldable pub materialize_primitive : TypeContext → PrimitiveType → Materialized
materialize_primitive c p = elim (intern_primitive p c) [
  | none ↦ none
  | some (ty, after) ↦ some (materialized ty, after)
]

unfoldable pub string_primitive : TypeContext → Option PrimitiveType → Materialized
string_primitive c (some str) = materialize_primitive c str
string_primitive c (some string) = materialize_primitive c string
string_primitive c _ =
    some (literal_error "string literal requires a `str` or `String` expected type", c)

unfoldable pub materialize_string : TypeContext → ℕ → ExpectedType → Materialized
materialize_string c fuel anything = materialize_primitive c str
materialize_string c fuel (exact ty) = elim (expanded_primitive c fuel ty) [
  | none ↦ none
  | some found ↦ string_primitive c found
]
