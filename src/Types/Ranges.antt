-- ===== src/Types/Ranges.antt =====
-- The range check of an integer literal against two's complement, and the names of the primitives.
use native.Mathlib.Nat.{mod-eq_of_lt, mod-lt, two-pow-succ, one-le-pow, zero-mod, mod_self}
use elamite.Base.{
  ℕ, zero, suc, ◌+◌, ◌-◌, ◌%◌, ◌^◌, ◌<◌, ◌≡◌, ◌⊎◌, not, ◌↔◌, refl, sym, ap, ◌∙◌, Bool, true, false,
  none, some, arith, if◌then◌else◌, ltb, leb, ltb→lt, Bool-cases, inl, inr, ◌==◌, ==→eq, lt→ltb,
  subst,
}
use elamite.Types.{
  PrimitiveType, unit, bool, char, i8, i16, i32, i64, i128, isize, u8, u16, u32, u64, u128, usize,
  f32, f64, str, string, primitive_name, primitive_from_name, layout, is_width, fits_layout,
  integer_fits, is_integer, is_unsigned_integer,
}

-- The bits that a value is stored as, in an arithmetic modulo `range`.
unfoldable pub store : ℕ → Bool → ℕ → ℕ
store range negative magnitude =
    if negative then (range - magnitude % range) % range else magnitude % range

-- The value that bits mean, as a sign and a magnitude.
unfoldable pub read : Bool → ℕ → ℕ → Bool × ℕ
read signed half bits =
    if signed
    then (if ltb bits half then (false, bits) else (true, half + half - bits))
    else (false, bits)

store-lt : (range m : ℕ) (negative : Bool) → 0 < range → store range negative m < range
unfolding store
store-lt range m true h = mod-lt (range - m % range) h
store-lt range m false h = mod-lt m h

store_positive : (range m : ℕ) → m < range → store range false m ≡ m
unfolding store
store_positive range m h = mod-eq_of_lt h

store_negative : (range m : ℕ) → 0 < m → m < range → store range true m ≡ range - m
unfolding store
store_negative range m p h = rw (mod-eq_of_lt h) (mod-eq_of_lt (omega arith))

signed_positive :
    (half m : ℕ) → ltb m half ≡ true ↔ read true half (store (half + half) false m) ≡ (false, m)
unfolding read
signed_positive half m = (λ h. ground (arith, store_positive (half + half) m), λ h. ground arith)

signed_negative :
    (half m : ℕ)
    → 0 < half
    → 0 < m
    → leb m half ≡ true ↔ read true half (store (half + half) true m) ≡ (true, m)
unfolding read
signed_negative half m hh hm = (
  λ h. ground (arith, store_negative (half + half) m),
  λ h. ground (arith, store-lt (half + half) m true),
)

unsigned_negative : (half u m : ℕ) → read false half u ≡ (true, m) → false ≡ true
unfolding read
unsigned_negative half u m h = ap (λ r. r.0) h

unsigned_positive :
    (half range m : ℕ)
    → 0 < range
    → ltb m range ≡ true ↔ read false half (store range false m) ≡ (false, m)
unfolding read
unsigned_positive half range m pos = (
  λ h. ap (λ u. (false, u)) (store_positive range m (ltb→lt m range h)),
  λ h. ground (arith, store-lt range m false pos),
)

pred_suc : (k : ℕ) → suc k - 1 ≡ k
pred_suc k = omega arith

doubles : (bits : ℕ) → is_width bits ≡ true → 2 ^ bits ≡ 2 ^ (bits - 1) + 2 ^ (bits - 1)
unfolding is_width
doubles zero h = ground arith
doubles (suc k) h = two-pow-succ k ∙ sym (ap (λ j. 2 ^ j + 2 ^ j) (pred_suc k))

fits_layout_iff :
    (signed : Bool) (bits m : ℕ) (negative : Bool)
    → is_width bits ≡ true
    → m < 2 ^ 128
    → (negative ≡ true → 0 < m)
    → fits_layout (some (signed, bits)) m negative ≡ true
      ↔ read signed (2 ^ (bits - 1)) (store (2 ^ bits) negative m) ≡ (negative, m)
unfolding fits_layout
fits_layout_iff true bits m true w b nz =
    rw (w, doubles bits w)
      (signed_negative (2 ^ (bits - 1)) m (one-le-pow (bits - 1) 2 (omega arith)) (nz refl))
fits_layout_iff true bits m false w b nz =
    rw (w, doubles bits w) (signed_positive (2 ^ (bits - 1)) m)
fits_layout_iff false bits m true w b nz =
    rw w (λ h. cc, λ h. unsigned_negative (2 ^ (bits - 1)) (store (2 ^ bits) true m) m h)
fits_layout_iff false bits m false w b nz = elim (Bool-cases (bits == 128)) [
  | inl full ↦
      let fits : m < 2 ^ bits = subst (λ k. m < 2 ^ k) (sym (==→eq bits 128 full)) b in
      let holds =
        (unsigned_positive (2 ^ (bits - 1)) (2 ^ bits) m (one-le-pow bits 2 (omega arith))).0
          (lt→ltb m (2 ^ bits) fits) in
      rw (w, full) (λ _. holds, λ _. refl)
  | inr other ↦
      rw (w, other)
        (unsigned_positive (2 ^ (bits - 1)) (2 ^ bits) m (one-le-pow bits 2 (omega arith)))
]

-- The value of a literal, as a sign and a magnitude: there is one zero.
unfoldable pub literal_value : Bool → ℕ → Bool × ℕ
literal_value negative m = if m == 0 then (false, 0) else (negative, m)

-- Only a signed layout has room for a sign.
sign_fits :
    (signed : Bool) (bits m : ℕ) (negative : Bool)
    → fits_layout (some (signed, bits)) m negative ≡ true
    → (signed ≡ true) ⊎ (negative ≡ false)
unfolding fits_layout
sign_fits true bits m negative h = inl refl
sign_fits false bits m negative h = inr (ground arith)

value_zero : (negative : Bool) → literal_value negative 0 ≡ (false, 0)
unfolding literal_value
value_zero negative = refl

value_positive : (negative : Bool) (m : ℕ) → literal_value negative (suc m) ≡ (negative, suc m)
unfolding literal_value
value_positive negative m = ground arith

minus_zero : (n : ℕ) → n - 0 ≡ n
minus_zero n = omega arith

-- Minus zero is stored as zero.
store_zero : (range : ℕ) → store range true 0 ≡ 0
unfolding store
store_zero range =
    ap (λ z. (range - z) % range) (zero-mod range)
    ∙ ap (λ z. z % range) (minus_zero range)
    ∙ mod_self range

read_zero : (signed : Bool) (half : ℕ) → 0 < half → read signed half 0 ≡ (false, 0)
unfolding read
read_zero true half h = rw (lt→ltb 0 half h) refl
read_zero false half h = refl

zero_leb : (k : ℕ) → leb 0 k ≡ true
zero_leb k = ground arith

zero_fits : (bits : ℕ) → is_width bits ≡ true → fits_layout (some (true, bits)) 0 true ≡ true
unfolding fits_layout
zero_fits bits w = rw w (zero_leb (2 ^ (bits - 1)))

negative_zero_iff :
    (signed : Bool) (bits : ℕ)
    → is_width bits ≡ true
    → fits_layout (some (signed, bits)) 0 true ≡ true
      ↔ ((signed ≡ true) ⊎ (true ≡ false))
        × (read signed (2 ^ (bits - 1)) (store (2 ^ bits) true 0) ≡ literal_value true 0)
negative_zero_iff signed bits w =
    let reads =
      ap (read signed (2 ^ (bits - 1))) (store_zero (2 ^ bits))
      ∙ read_zero signed (2 ^ (bits - 1)) (one-le-pow (bits - 1) 2 (omega arith))
      ∙ sym (value_zero true) in
    (λ h. (sign_fits signed bits 0 true h, reads), λ h. back h.0)
  where
    back : (signed ≡ true) ⊎ (true ≡ false) → fits_layout (some (signed, bits)) 0 true ≡ true
    back (inl is) = rw is (zero_fits bits w)
    back (inr e) = cc

value_iff :
    (signed : Bool) (bits m : ℕ) (negative : Bool)
    → is_width bits ≡ true
    → m < 2 ^ 128
    → (negative ≡ true → 0 < m)
    → literal_value negative m ≡ (negative, m)
    → fits_layout (some (signed, bits)) m negative ≡ true
      ↔ ((signed ≡ true) ⊎ (negative ≡ false))
        × (read signed (2 ^ (bits - 1)) (store (2 ^ bits) negative m) ≡ literal_value negative m)
value_iff signed bits m negative w b nz is =
    let iff = fits_layout_iff signed bits m negative w b nz in
    (λ h. (sign_fits signed bits m negative h, iff.0 h ∙ sym is), λ h. iff.1 (h.1 ∙ is))

layout_value_iff :
    (signed : Bool) (bits m : ℕ) (negative : Bool)
    → is_width bits ≡ true
    → m < 2 ^ 128
    → fits_layout (some (signed, bits)) m negative ≡ true
      ↔ ((signed ≡ true) ⊎ (negative ≡ false))
        × (read signed (2 ^ (bits - 1)) (store (2 ^ bits) negative m) ≡ literal_value negative m)
layout_value_iff signed bits zero true w b = negative_zero_iff signed bits w
layout_value_iff signed bits zero false w b =
    value_iff signed bits 0 false w b (λ h. cc) (value_zero false)
layout_value_iff signed bits (suc m) negative w b =
    value_iff signed bits (suc m) negative w b (λ h. omega arith) (value_positive negative m)

-- For every integer type of a supported width and every literal, minus zero included, the literal
-- fits exactly where the type is signed or the literal has no minus sign, and the type's bits, stored
-- modulo the range and read back in two's complement, mean the literal's value. The magnitude is a
-- `u128`.
pub integer_fits_iff :
    (p : PrimitiveType) (m : ℕ) (negative : Bool) (pointer_bits : ℕ) (signed : Bool) (bits : ℕ)
    → layout p pointer_bits ≡ some (signed, bits)
    → is_width bits ≡ true
    → m < 2 ^ 128
    → integer_fits p m negative pointer_bits ≡ true
      ↔ ((signed ≡ true) ⊎ (negative ≡ false))
        × (read signed (2 ^ (bits - 1)) (store (2 ^ bits) negative m) ≡ literal_value negative m)
unfolding integer_fits
integer_fits_iff p m negative pointer_bits signed bits l w b =
    rw l (layout_value_iff signed bits m negative w b)

-- A type has a literal layout exactly where `is_integer` holds of it, and the layout is signed
-- exactly where `is_unsigned_integer` does not hold.
pub layout-is_integer :
    (p : PrimitiveType) (pointer_bits : ℕ)
    → (is_integer p ≡ false) × (layout p pointer_bits ≡ none)
      ⊎ (bits : ℕ) × (is_integer p ≡ true)
        × (layout p pointer_bits ≡ some (not (is_unsigned_integer p), bits))
unfolding layout is_integer is_unsigned_integer
layout-is_integer unit n = inl (refl, refl)
layout-is_integer bool n = inl (refl, refl)
layout-is_integer char n = inl (refl, refl)
layout-is_integer i8 n = inr (8, refl, refl)
layout-is_integer i16 n = inr (16, refl, refl)
layout-is_integer i32 n = inr (32, refl, refl)
layout-is_integer i64 n = inr (64, refl, refl)
layout-is_integer i128 n = inr (128, refl, refl)
layout-is_integer isize n = inr (n, refl, refl)
layout-is_integer u8 n = inr (8, refl, refl)
layout-is_integer u16 n = inr (16, refl, refl)
layout-is_integer u32 n = inr (32, refl, refl)
layout-is_integer u64 n = inr (64, refl, refl)
layout-is_integer u128 n = inr (128, refl, refl)
layout-is_integer usize n = inr (n, refl, refl)
layout-is_integer f32 n = inl (refl, refl)
layout-is_integer f64 n = inl (refl, refl)
layout-is_integer str n = inl (refl, refl)
layout-is_integer string n = inl (refl, refl)

unfoldable pub has_name : PrimitiveType → Bool
has_name unit = false
has_name _ = true

-- The name of every primitive but the unit is found again; the unit's `()` is no name.
pub primitive_from_name-name :
    (p : PrimitiveType)
    → primitive_from_name (primitive_name p) ≡ (if has_name p then some p else none)
unfolding primitive_name primitive_from_name has_name
primitive_from_name-name unit = refl
primitive_from_name-name bool = refl
primitive_from_name-name char = refl
primitive_from_name-name i8 = refl
primitive_from_name-name i16 = refl
primitive_from_name-name i32 = refl
primitive_from_name-name i64 = refl
primitive_from_name-name i128 = refl
primitive_from_name-name isize = refl
primitive_from_name-name u8 = refl
primitive_from_name-name u16 = refl
primitive_from_name-name u32 = refl
primitive_from_name-name u64 = refl
primitive_from_name-name u128 = refl
primitive_from_name-name usize = refl
primitive_from_name-name f32 = refl
primitive_from_name-name f64 = refl
primitive_from_name-name str = refl
primitive_from_name-name string = refl
