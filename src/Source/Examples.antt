-- ===== src/Source/Examples.antt =====
-- A text of two lines, and a linear search with the contract of a binary search.
use elamite.Base.{
  ℕ, zero, suc, ◌<◌, ◌≤◌, ◌≡◌, refl, ap, List, [], ◌∷◌, none, some, ◌^◌, ◌-◌, arith, get_elem?,
  if◌then◌else◌, ltb, ltb→lt, ◌==◌, ==→eq, false, Bool-cases, inl, inr,
}
use elamite.Source.{
  LineCol, Searched, found, insert_at, line_starts, line_col, position, position_at, line_index,
}
use elamite.Source.Positions.{Finds, IsBinarySearch, IsPosition, line_col_lem}

abbrev shift : Searched → Searched
shift (found i) = found (suc i)
shift (insert_at i) = insert_at (suc i)

unfoldable linear_search : List ℕ → ℕ → Searched
linear_search [] x = insert_at 0
linear_search (y ∷ ys) x =
    if y == x then found 0 else if ltb x y then insert_at 0 else shift (linear_search ys x)

shifted :
    (y x : ℕ) (ys : List ℕ) → y < x → (s : Searched) → Finds ys x s → Finds (y ∷ ys) x (shift s)
shifted y x ys less (found i) h = h
shifted y x ys less (insert_at i) (le, law) = (omega arith, at)
  where
    at : (j z : ℕ) → get_elem? (y ∷ ys) j ≡ some z → (j < suc i → z < x) × (suc i ≤ j → x < z)
    at zero z h = let e : y ≡ z = cc in ((λ _. omega arith), λ g. absurd (omega arith))
    at (suc j) z h = ((λ g. (law j z h).0 (omega arith)), λ g. (law j z h).1 (omega arith))

linear_search-IsBinarySearch : IsBinarySearch linear_search
unfolding linear_search
linear_search-IsBinarySearch [] x a = (omega arith, λ j y h. cc)
linear_search-IsBinarySearch (y ∷ ys) x a = elim (Bool-cases (y == x)) [
  | inl e ↦ rw e (ap some (==→eq y x e))
  | inr apart ↦ elim (Bool-cases (ltb x y)) [
    | inl below ↦
        rw (apart, below)
          (omega arith, λ j z h. ((λ g. absurd (omega arith)), λ g. first j z h (ltb→lt x y below)))
    | inr above ↦
        rw (apart, above)
          (shifted y x ys (not_equal apart above) (linear_search ys x) (
            linear_search-IsBinarySearch ys x
              (λ i j u v h g less. a (suc i) (suc j) u v h g (omega arith))))
  ]
]
  where
    first : (j z : ℕ) → get_elem? (y ∷ ys) j ≡ some z → x < y → x < z
    first zero z h less = let e : y ≡ z = cc in omega arith
    first (suc j) z h less = omega (arith, a 0 (suc j) y z refl h (omega arith))

    not_equal : y == x ≡ false → ltb x y ≡ false → y < x
    not_equal e g = ground arith

-- "a", a newline and "b".
abbrev two_lines : List ℕ
two_lines = 97 ∷ 10 ∷ 98 ∷ []

line_col_lem_example :
    (lines : List ℕ) × (line_starts two_lines ≡ some lines)
    × (p : LineCol) × (line_col linear_search lines 2 ≡ some p)
    × IsPosition two_lines 2 p
line_col_lem_example =
    line_col_lem two_lines linear_search linear_search-IsBinarySearch (omega arith) 2 (omega arith)

second_line : line_col linear_search (0 ∷ 2 ∷ []) 2 ≡ some (record { line = 2; column = 1 })
unfolding line_col linear_search position position_at line_index
second_line = refl

-- The column after the last offset of 32 bits is too large.
column_overflows : line_col linear_search (0 ∷ []) (2 ^ 32 - 1) ≡ none
unfolding line_col linear_search position position_at line_index
column_overflows = refl
