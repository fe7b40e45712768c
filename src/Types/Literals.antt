-- ===== src/Types/Literals.antt =====
-- src/types/context.rs:46-78, :979-1001, :1080-1156: the names of the primitive types, and the range
-- check of an integer literal.
use Prim.Native.String.{String}
use text.Mathlib.Text.{◌==◌ as str_eq}
use elamite.Base.{
  ℕ, ◌-◌, ◌^◌, Bool, true, false, ◌&&◌, ◌||◌, not, Option, none, some, if◌then◌else◌, ltb, leb,
  ◌==◌,
}
use elamite.Types.Defs.{
  PrimitiveType, unit, bool, char, i8, i16, i32, i64, i128, isize, u8, u16, u32, u64, u128, usize,
  f32, f64, str, string,
}

unfoldable pub is_integer : PrimitiveType → Bool
is_integer i8 = true
is_integer i16 = true
is_integer i32 = true
is_integer i64 = true
is_integer i128 = true
is_integer isize = true
is_integer u8 = true
is_integer u16 = true
is_integer u32 = true
is_integer u64 = true
is_integer u128 = true
is_integer usize = true
is_integer _ = false

unfoldable pub is_unsigned_integer : PrimitiveType → Bool
is_unsigned_integer u8 = true
is_unsigned_integer u16 = true
is_unsigned_integer u32 = true
is_unsigned_integer u64 = true
is_unsigned_integer u128 = true
is_unsigned_integer usize = true
is_unsigned_integer _ = false

unfoldable pub is_float : PrimitiveType → Bool
is_float f32 = true
is_float f64 = true
is_float _ = false

unfoldable pub primitive_name : PrimitiveType → String
primitive_name unit = "()"
primitive_name bool = "bool"
primitive_name char = "char"
primitive_name i8 = "i8"
primitive_name i16 = "i16"
primitive_name i32 = "i32"
primitive_name i64 = "i64"
primitive_name i128 = "i128"
primitive_name isize = "isize"
primitive_name u8 = "u8"
primitive_name u16 = "u16"
primitive_name u32 = "u32"
primitive_name u64 = "u64"
primitive_name u128 = "u128"
primitive_name usize = "usize"
primitive_name f32 = "f32"
primitive_name f64 = "f64"
primitive_name str = "str"
primitive_name string = "String"

unfoldable pub primitive_from_name : String → Option PrimitiveType
primitive_from_name name =
    if str_eq name "bool"
    then some bool
    else if str_eq name "char"
    then some char
    else if str_eq name "i8"
    then some i8
    else if str_eq name "i16"
    then some i16
    else if str_eq name "i32"
    then some i32
    else if str_eq name "i64"
    then some i64
    else if str_eq name "i128"
    then some i128
    else if str_eq name "isize"
    then some isize
    else if str_eq name "u8"
    then some u8
    else if str_eq name "u16"
    then some u16
    else if str_eq name "u32"
    then some u32
    else if str_eq name "u64"
    then some u64
    else if str_eq name "u128"
    then some u128
    else if str_eq name "usize"
    then some usize
    else if str_eq name "f32"
    then some f32
    else if str_eq name "f64"
    then some f64
    else if str_eq name "str"
    then some str
    else if str_eq name "String"
    then some string
    else none

-- The first `match` of `integer_fits`: whether the type is signed, and its bits.
unfoldable pub layout : PrimitiveType → ℕ → Option (Bool × ℕ)
layout i8 pointer_bits = some (true, 8)
layout i16 pointer_bits = some (true, 16)
layout i32 pointer_bits = some (true, 32)
layout i64 pointer_bits = some (true, 64)
layout i128 pointer_bits = some (true, 128)
layout isize pointer_bits = some (true, pointer_bits)
layout u8 pointer_bits = some (false, 8)
layout u16 pointer_bits = some (false, 16)
layout u32 pointer_bits = some (false, 32)
layout u64 pointer_bits = some (false, 64)
layout u128 pointer_bits = some (false, 128)
layout usize pointer_bits = some (false, pointer_bits)
layout _ pointer_bits = none

unfoldable pub is_width : ℕ → Bool
is_width bits = bits == 8 || (bits == 16 || (bits == 32 || (bits == 64 || bits == 128)))

unfoldable pub fits_layout : Option (Bool × ℕ) → ℕ → Bool → Bool
fits_layout none magnitude negative = false
fits_layout (some (signed, bits)) magnitude negative =
    if not (is_width bits) || (not signed && negative)
    then false
    else if signed
    then (if negative then leb magnitude (2 ^ (bits - 1)) else ltb magnitude (2 ^ (bits - 1)))
    else if bits == 128
    then true
    else ltb magnitude (2 ^ bits)

unfoldable pub integer_fits : PrimitiveType → ℕ → Bool → ℕ → Bool
integer_fits primitive magnitude negative pointer_bits =
    fits_layout (layout primitive pointer_bits) magnitude negative
