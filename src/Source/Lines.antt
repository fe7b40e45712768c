-- ===== src/Source/Lines.antt =====
-- src/source.rs:40-67 and :136-150: line starts, and the position of an offset. The text is its bytes;
-- the binary search of the standard library is a parameter.
use elamite.Base.{
  zero, suc, ℕ, suc, ◌+◌, ◌-◌, ◌^◌, List, [], ◌∷◌, Option, none, some, get_elem?, if◌then◌else◌,
  ltb, ◌==◌, ◌&&◌,
}

pub record LineCol : Type 0 where
  pub line : ℕ
  pub column : ℕ

-- `b'\n'`
abbrev pub newline : ℕ
newline = 10

unfoldable pub push_start : ℕ → Option (List ℕ) → Option (List ℕ)
push_start start none = none
push_start start (some starts) = if ltb start (2 ^ 32) then some (start ∷ starts) else none

-- The loop from the byte at `offset`. Where the source panics, `none`.
unfoldable pub starts_from : ℕ → List ℕ → Option (List ℕ)
starts_from offset [] = some []
starts_from offset (byte ∷ rest) =
    let later = starts_from (suc offset) rest in
    if byte == newline then push_start (suc offset) later else later

unfoldable pub line_starts : List ℕ → Option (List ℕ)
line_starts bytes = push_start 0 (starts_from 0 bytes)

-- `Result<usize, usize>`
pub data Searched : Type 0 where
  found : ℕ → Searched
  insert_at : ℕ → Searched

-- An insertion point of 0 has no index before it: the source panics.
unfoldable pub line_index : Searched → Option ℕ
line_index (found exactly) = some exactly
line_index (insert_at zero) = none
line_index (insert_at (suc i)) = some i

-- The line and the column are `u32`: where one is too large, `none`, as where the source panics with
-- overflow checks on.
unfoldable pub position : ℕ → ℕ → Option ℕ → Option LineCol
position index offset none = none
position index offset (some start) =
    if ltb offset start
    then none
    else if ltb (index + 1) (2 ^ 32) && ltb (offset - start + 1) (2 ^ 32)
    then some (record { line = index + 1; column = offset - start + 1 })
    else none

unfoldable pub position_at : List ℕ → ℕ → Option ℕ → Option LineCol
position_at starts offset none = none
position_at starts offset (some index) = position index offset (get_elem? starts index)

-- `line_col` on the line starts of the file.
unfoldable pub line_col : (List ℕ → ℕ → Searched) → List ℕ → ℕ → Option LineCol
line_col binary_search starts offset =
    position_at starts offset (line_index (binary_search starts offset))
