-- ===== src/Types/Examples.antt =====
-- Literals at the ends of the range of `i8`, names, and a chain of inference bindings.
use elamite.Base.{
  ◌≡◌, ◌↔◌, refl, true, false, ◌^◌, ◌-◌, ◌<◌, All, All-get_elem?, get_elem?, length, some, none,
  arith, if◌then◌else◌, ◌⊎◌, not, ℕ, [], ◌∷◌,
}
use elamite.Types.{
  i8, u8, i32, TypeContext, TypeId, error_type, primitive, inference_variable, kind, type_children,
  resolve_inference, integer_fits, layout, is_width, fits_layout, usize, primitive_name,
  primitive_from_name, is_integer, is_unsigned_integer,
}
use elamite.Types.Resolve.{IsWellFormed, resolve_inference_total}
use elamite.Types.Ranges.{
  read, store, literal_value, integer_fits_iff, primitive_from_name-name, layout-is_integer,
  has_name,
}

integer_fits_iff_example :
    integer_fits i8 128 true 64 ≡ true
    ↔ ((true ≡ true) ⊎ (true ≡ false))
      × (read true (2 ^ (8 - 1)) (store (2 ^ 8) true 128) ≡ literal_value true 128)
unfolding layout is_width
integer_fits_iff_example = integer_fits_iff i8 128 true 64 true 8 refl refl (omega arith)

-- The range check refuses minus zero for an unsigned type.
minus_zero_unsigned : integer_fits u8 0 true 64 ≡ false
unfolding integer_fits fits_layout layout is_width
minus_zero_unsigned = refl

minus_zero_signed : integer_fits i8 0 true 64 ≡ true
unfolding integer_fits fits_layout layout is_width
minus_zero_signed = refl

too_large : integer_fits i8 128 false 64 ≡ false
unfolding integer_fits fits_layout layout is_width
too_large = refl

primitive_from_name-name_example :
    primitive_from_name (primitive_name usize) ≡ (if has_name usize then some usize else none)
primitive_from_name-name_example = primitive_from_name-name usize

layout-is_integer_example :
    (is_integer usize ≡ false) × (layout usize 64 ≡ none)
    ⊎ (bits : ℕ) × (is_integer usize ≡ true)
      × (layout usize 64 ≡ some (not (is_unsigned_integer usize), bits))
layout-is_integer_example = layout-is_integer usize 64

-- One inference variable, type 2, bound to `i32`.
abbrev arena : TypeContext
arena = record {
  kinds = error_type ∷ primitive i32 ∷ inference_variable 0 ∷ [];
  interned = [];
  inference_bindings = some 1 ∷ [];
}

variables_of : (i v : ℕ) → get_elem? arena.kinds i ≡ some (inference_variable v) → v < 1
variables_of i v h =
    All-get_elem? (λ k. (v : ℕ) → k ≡ inference_variable v → v < 1) arena.kinds i
      (inference_variable v) ((λ v e. cc), ((λ v e. cc), (only_zero, tt))) h v refl
  where
    only_zero : (v : ℕ) → inference_variable 0 ≡ inference_variable v → v < 1
    only_zero v e = ground arith

bound_of : (v b : ℕ) → get_elem? arena.inference_bindings v ≡ some (some b) → b < 3
bound_of v b h =
    All-get_elem? (λ o. (b : ℕ) → o ≡ some b → b < 3) arena.inference_bindings v (some b)
      (only_one, tt) h b refl
  where
    only_one : (b : ℕ) → some 1 ≡ some b → b < 3
    only_one b e = ground arith

arena-IsWellFormed : IsWellFormed arena
unfolding kind type_children
arena-IsWellFormed = record {
  nonempty = omega arith;
  children = λ i k.
      All-get_elem? (λ k. All (λ c. c < 3) (type_children k)) arena.kinds i k (tt, (tt, (tt, tt)));
  variables = variables_of;
  bound = bound_of;
}

resolve_inference_total_example :
    (r : TypeId) × (resolve_inference arena 2 ≡ some r) × (r < length arena.kinds)
resolve_inference_total_example = resolve_inference_total arena arena-IsWellFormed 2 (omega arith)
