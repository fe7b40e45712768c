-- ===== src/Types/Unify/Numbers.antt =====
-- The type that an integer literal gets is numeric.
use elamite.Base.{
  ℕ, ◌<◌, ◌≡◌, refl, Bool, true, false, ◌&&◌, ◌||◌, inl, inr, Option, none, some, length,
  Bool-cases,
}
use elamite.Types.Defs.{PrimitiveType, i32, TypeContext}
use elamite.Types.Literals.{is_integer, is_float}
use elamite.Types.Expected.{
  ExpectedType, anything, exact, NumericSuffix, suffix_i8, primitive_for_suffix, fits_literal,
  expanded_primitive, expected_numeric, or_default, literal_primitive,
}
use elamite.Types.Resolve.{IsWellFormed}
use elamite.Types.Ranked.{IsRanked}
use elamite.Types.Unify.Expanded.{expanded_primitive_lem}

abbrev IsNumeric : PrimitiveType → Type 0
IsNumeric p = is_integer p || is_float p ≡ true

suffix-IsNumeric : (suffix : NumericSuffix) → IsNumeric (primitive_for_suffix suffix)
unfolding primitive_for_suffix is_integer is_float
suffix-IsNumeric suffix_i8 = refl
suffix-IsNumeric _ = refl

swapped : (a b : Bool) → a || (true && b) ≡ true → b || a ≡ true
swapped true true h = refl
swapped true false h = refl
swapped false true h = refl
swapped false false h = h

default-IsNumeric : IsNumeric (or_default i32 none)
unfolding or_default is_integer
default-IsNumeric = refl

fits-IsNumeric :
    (found : Option PrimitiveType) → IsNumeric (or_default i32 (fits_literal true found))
unfolding fits_literal or_default
fits-IsNumeric none = default-IsNumeric
fits-IsNumeric (some p) = elim (Bool-cases (is_float p || (true && is_integer p))) [
  | inl h ↦ rw h (swapped (is_float p) (is_integer p) h)
  | inr h ↦ rw h default-IsNumeric
]

expected_at :
    (c : TypeContext) (fuel ty : ℕ) (found : Option PrimitiveType)
    → expanded_primitive c fuel ty ≡ some found
    → expected_numeric c fuel (exact ty) true ≡ some (fits_literal true found)
unfolding expected_numeric
expected_at c fuel ty found e = rw (e, expected_numeric) refl

-- The expected type is one of the arena, of a rank below the fuel.
abbrev pub IsExpected : (c : TypeContext) → IsRanked c → ℕ → ExpectedType → Type 0
IsExpected c r fuel anything = Unit
IsExpected c r fuel (exact ty) = (ty < length c.kinds) × (r.rank ty < fuel)

-- In a well-formed arena without a cycle, the choice of a type for an integer literal (its suffix, else
-- its expected type where that is numeric, else `i32`) answers with an integer or floating type, so the
-- error for a type that is not numeric is never reached.
pub literal_primitive_lem :
    (c : TypeContext)
    → IsWellFormed c
    → (r : IsRanked c) (fuel : ℕ) (suffix : Option NumericSuffix) (expected : ExpectedType)
    → IsExpected c r fuel expected
    → (p : PrimitiveType) × (literal_primitive c fuel suffix expected true i32 ≡ some p)
      × (is_integer p || is_float p ≡ true)
unfolding literal_primitive expected_numeric
literal_primitive_lem c w r fuel (some suffix) expected h =
    (primitive_for_suffix suffix, refl, suffix-IsNumeric suffix)
literal_primitive_lem c w r fuel none anything h = (or_default i32 none, refl, default-IsNumeric)
literal_primitive_lem c w r fuel none (exact ty) (lt, less) =
    let (found, e, _) = expanded_primitive_lem c w r fuel ty lt less in
    (
      or_default i32 (fits_literal true found),
      rw (expected_at c fuel ty found e, literal_primitive) refl,
      fits-IsNumeric found,
    )
