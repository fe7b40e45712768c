-- ===== src/Source/Positions.antt =====
-- The position of an offset.
use elamite.Base.{
  ℕ, zero, suc, ◌+◌, ◌-◌, ◌^◌, ◌<◌, ◌≤◌, ◌≡◌, refl, sym, ◌⊎◌, inl, inr, List, ◌∷◌, some, arith,
  get_elem?, get_elem?-some, length, ltb, ltb→lt, lt→ltb, true, false, Bool-cases,
}
use elamite.Source.Lines.{
  LineCol, newline, push_start, line_starts, Searched, found, insert_at, line_index, position,
  position_at, line_col,
}
use elamite.Source.Columns.{
  newlines_before, newlines_mono, newlines-le, newlines_step, newlines_none, starts,
  starts_from-some, IsStart, starts_sound, starts_complete,
}

abbrev pub IsAscending : List ℕ → Type 0
IsAscending xs = (i j x y : ℕ) → get_elem? xs i ≡ some x → get_elem? xs j ≡ some y → i < j → x < y

-- The documented answer of a binary search: the index of the value, or where it could be inserted.
abbrev pub Finds : List ℕ → ℕ → Searched → Type 0
Finds xs x (found i) = get_elem? xs i ≡ some x
Finds xs x (insert_at i) =
    (i ≤ length xs) × ((j y : ℕ) → get_elem? xs j ≡ some y → (j < i → y < x) × (i ≤ j → x < y))

abbrev pub IsBinarySearch : (List ℕ → ℕ → Searched) → Type 0
IsBinarySearch search = (xs : List ℕ) (x : ℕ) → IsAscending xs → Finds xs x (search xs x)

-- The byte before is a newline, or there is none.
abbrev pub IsLineStart : List ℕ → ℕ → Type 0
IsLineStart bytes s = (s ≡ 0) ⊎ ((j : ℕ) × (s ≡ suc j) × (get_elem? bytes j ≡ some newline))

not_before : (a b : ℕ) → b ≤ a → ltb a b ≡ false
not_before a b h = ground arith

module _ (bytes : List ℕ) where
  abbrev all_starts : List ℕ
  all_starts = 0 ∷ starts 0 bytes

  start_at :
      (i s : ℕ)
      → get_elem? all_starts i ≡ some s
      → (newlines_before bytes s ≡ i) × IsLineStart bytes s
  unfolding IsStart
  start_at zero s h = let e : 0 ≡ s = cc in (rw (← e) (newlines_none bytes), inl (sym e))
  start_at (suc i) s h =
      let (j, at, is, n) = starts_sound 0 bytes i s h in
      let e : s ≡ suc j = omega (arith, at) in (rw e n, inr (j, e, is))

  all_starts-IsAscending : IsAscending all_starts
  all_starts-IsAscending i j x y h g less = elim (Bool-cases (ltb x y)) [
    | inl lt ↦ ltb→lt x y lt
    | inr ge ↦
        let back = newlines_mono bytes y x (ground arith) in
        absurd (omega (arith, (start_at i x h).0, (start_at j y g).0, back))
  ]

  -- The position of the offset, by the start of its line.
  pub record IsPosition (offset : ℕ) (p : LineCol) : Type 0 where
    pub start : ℕ
    pub column : start + p.column ≡ suc offset
    pub before : start ≤ offset
    pub begins : IsLineStart bytes start
    pub line : p.line ≡ suc (newlines_before bytes start)
    pub same_line : (j : ℕ) → start ≤ j → j < offset → get_elem? bytes j ≡ some newline → ⊥

  at_start :
      (offset index start : ℕ)
      → suc (length bytes) < 2 ^ 32
      → suc offset < 2 ^ 32
      → get_elem? all_starts index ≡ some start
      → start ≤ offset
      → ((j : ℕ) → start ≤ j → j < offset → get_elem? bytes j ≡ some newline → ⊥)
      → (p : LineCol) × (position_at all_starts offset (some index) ≡ some p) × IsPosition offset p
  unfolding position position_at
  at_start offset index start small bounded h le same =
      let counted : newlines_before bytes start ≡ index = (start_at index start h).0 in
      let room : ltb (index + 1) (2 ^ 32) ≡ true =
        lt→ltb (index + 1) (2 ^ 32) (omega (arith, newlines-le bytes start)) in
      let fits : ltb (offset - start + 1) (2 ^ 32) ≡ true =
        lt→ltb (offset - start + 1) (2 ^ 32) (omega arith) in
      (
        record { line = index + 1; column = offset - start + 1 },
        rw (h, position, not_before offset start le, room, fits) refl,
        record {
          start = start;
          column = omega arith;
          before = le;
          begins = (start_at index start h).1;
          line = omega arith;
          same_line = same;
        },
      )

  -- A newline between the start before the insertion point and the offset has a start after it.
  no_newline :
      (offset index start : ℕ)
      → get_elem? all_starts index ≡ some start
      → ((j y : ℕ)
          → get_elem? all_starts j ≡ some y
          → (j < suc index → y < offset) × (suc index ≤ j → offset < y))
      → (j : ℕ) → start ≤ j
      → j < offset
      → get_elem? bytes j ≡ some newline
      → ⊥
  no_newline offset index start h law j le lt is =
      let (i, at, n) = starts_complete 0 bytes j is in
      let more = newlines_mono bytes start j le in
      let step = newlines_step bytes j is in
      let (_, above) = law (suc i) (0 + suc j) at in
      omega (arith, above (omega (arith, (start_at index start h).0)))

  searched :
      (offset : ℕ) (s : Searched)
      → suc (length bytes) < 2 ^ 32
      → suc offset < 2 ^ 32
      → Finds all_starts offset s
      → (p : LineCol) × (position_at all_starts offset (line_index s) ≡ some p)
        × IsPosition offset p
  unfolding line_index
  searched offset (found i) small bounded h =
      at_start offset i offset small bounded h (omega arith) (λ j le lt is. omega arith)
  searched offset (insert_at zero) small bounded (le, law) =
      absurd (omega (arith, (law 0 0 refl).1 (omega arith)))
  searched offset (insert_at (suc i)) small bounded (le, law) =
      let (start, h) = get_elem?-some all_starts i (omega arith) in
      at_start offset i start small bounded h (omega (arith, (law i start h).0 (omega arith)))
        (no_newline offset i start h law)

  -- For a text of less than 2^32 - 1 bytes and a binary search that keeps its contract, the line starts
  -- exist, and the position of every offset below 2^32 - 1 is the column after the start of its line, no newline in
  -- between, and the line counted by the newlines before that start.
  pub line_col_lem :
      (search : List ℕ → ℕ → Searched)
      → IsBinarySearch search
      → suc (length bytes) < 2 ^ 32
      → (offset : ℕ) → suc offset < 2 ^ 32
      → (lines : List ℕ) × (line_starts bytes ≡ some lines)
        × (p : LineCol) × (line_col search lines offset ≡ some p)
        × IsPosition offset p
  unfolding line_starts line_col push_start
  line_col_lem search law small offset bounded =
      let h = starts_from-some 0 bytes (omega arith) in
      let (p, e, is) =
        searched offset (search all_starts offset) small bounded
          (law all_starts offset all_starts-IsAscending) in
      (all_starts, rw (h) refl, p, e, is)
