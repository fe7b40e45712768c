-- ===== src/Source/Columns.antt =====
-- Positions are lines counted by newlines, and columns from the last one.
use elamite.Base.{
  ℕ, zero, suc, ◌+◌, ◌^◌, ◌<◌, ◌≤◌, ◌≡◌, refl, sym, ap, ◌∙◌, true, false, inl, inr, List, [], ◌∷◌,
  some, arith, get_elem?, length, if◌then◌else◌, lt→ltb, ◌==◌, ==→eq, Bool-cases, subst,
}
use elamite.Source.Lines.{newline, push_start, starts_from}

-- The newlines among the first `n` bytes.
unfoldable pub newlines_before : List ℕ → ℕ → ℕ
newlines_before [] n = 0
newlines_before (byte ∷ rest) zero = 0
newlines_before (byte ∷ rest) (suc n) = (if byte == newline then 1 else 0) + newlines_before rest n

pub newlines_mono :
    (bytes : List ℕ) (m n : ℕ) → m ≤ n → newlines_before bytes m ≤ newlines_before bytes n
unfolding newlines_before
newlines_mono [] m n h = omega arith
newlines_mono (b ∷ rest) zero n h = omega arith
newlines_mono (b ∷ rest) (suc m) zero h = absurd (omega arith)
newlines_mono (b ∷ rest) (suc m) (suc n) h = omega (arith, newlines_mono rest m n (omega arith))

pub newlines-le : (bytes : List ℕ) (n : ℕ) → newlines_before bytes n ≤ length bytes
unfolding newlines_before
newlines-le [] n = omega arith
newlines-le (b ∷ rest) zero = omega arith
newlines-le (b ∷ rest) (suc n) = let rest_le = newlines-le rest n in ground arith

pub newlines_none : (bytes : List ℕ) → newlines_before bytes 0 ≡ 0
unfolding newlines_before
newlines_none [] = refl
newlines_none (b ∷ rest) = refl

newlines_at :
    (b : ℕ) (rest : List ℕ) (n : ℕ)
    → b == newline ≡ true
    → newlines_before (b ∷ rest) (suc n) ≡ suc (newlines_before rest n)
unfolding newlines_before
newlines_at b rest n e = rw e (omega arith)

newlines_past :
    (b : ℕ) (rest : List ℕ) (n : ℕ)
    → b == newline ≡ false
    → newlines_before (b ∷ rest) (suc n) ≡ newlines_before rest n
unfolding newlines_before
newlines_past b rest n e = rw e (omega arith)

pub newlines_step :
    (bytes : List ℕ) (j : ℕ)
    → get_elem? bytes j ≡ some newline
    → newlines_before bytes (suc j) ≡ suc (newlines_before bytes j)
unfolding newlines_before
newlines_step [] j h = cc
newlines_step (b ∷ rest) zero h =
    let e : b ≡ newline = cc in rw e (omega (arith, newlines_none rest))
newlines_step (b ∷ rest) (suc j) h = omega (arith, newlines_step rest j h)

-- The starts after the first, without the bound.
unfoldable pub starts : ℕ → List ℕ → List ℕ
starts offset [] = []
starts offset (byte ∷ rest) =
    if byte == newline then suc offset ∷ starts (suc offset) rest else starts (suc offset) rest

pub starts_from-some :
    (offset : ℕ) (bytes : List ℕ)
    → offset + length bytes < 2 ^ 32
    → starts_from offset bytes ≡ some (starts offset bytes)
unfolding starts_from starts push_start
starts_from-some offset [] h = refl
starts_from-some offset (b ∷ rest) h =
    let later = starts_from-some (suc offset) rest (omega arith) in
    let room = lt→ltb (suc offset) (2 ^ 32) (omega arith) in
    elim (Bool-cases (b == newline)) [ inl e ↦ rw (e, later, room) refl | inr e ↦ rw e later ]

-- An entry of the starts stands after a newline, and its index counts the newlines.
unfoldable pub IsStart : ℕ → List ℕ → ℕ → ℕ → Type 0
IsStart offset bytes i s =
    (j : ℕ) × (s ≡ offset + suc j)
    × (get_elem? bytes j ≡ some newline)
    × (newlines_before bytes (suc j) ≡ suc i)

starts_at :
    (offset b : ℕ) (rest : List ℕ)
    → b == newline ≡ true
    → starts offset (b ∷ rest) ≡ suc offset ∷ starts (suc offset) rest
unfolding starts
starts_at offset b rest e = rw e refl

starts_past :
    (offset b : ℕ) (rest : List ℕ)
    → b == newline ≡ false
    → starts offset (b ∷ rest) ≡ starts (suc offset) rest
unfolding starts
starts_past offset b rest e = rw e refl

IsStart-first :
    (offset b : ℕ) (rest : List ℕ) (s : ℕ)
    → b == newline ≡ true
    → suc offset ≡ s
    → IsStart offset (b ∷ rest) 0 s
unfolding IsStart
IsStart-first offset b rest s e h = (
  0,
  omega arith,
  ap some (==→eq b newline e),
  omega (arith, newlines_at b rest 0 e, newlines_none rest),
)

IsStart-next :
    (offset b : ℕ) (rest : List ℕ) (i s : ℕ)
    → b == newline ≡ true
    → IsStart (suc offset) rest i s
    → IsStart offset (b ∷ rest) (suc i) s
unfolding IsStart
IsStart-next offset b rest i s e (j, at, is, n) =
    (suc j, omega arith, is, omega (arith, newlines_at b rest (suc j) e))

IsStart-past :
    (offset b : ℕ) (rest : List ℕ) (i s : ℕ)
    → b == newline ≡ false
    → IsStart (suc offset) rest i s
    → IsStart offset (b ∷ rest) i s
unfolding IsStart
IsStart-past offset b rest i s e (j, at, is, n) =
    (suc j, omega arith, is, omega (arith, newlines_past b rest (suc j) e))

pub starts_sound :
    (offset : ℕ) (bytes : List ℕ) (i s : ℕ)
    → get_elem? (starts offset bytes) i ≡ some s
    → IsStart offset bytes i s
unfolding starts
starts_sound offset [] i s h = cc
starts_sound offset (b ∷ rest) i s h = elim (Bool-cases (b == newline)) [
  | inl e ↦
      at_index e i (subst (λ z. get_elem? z i ≡ some s) (starts_at offset b rest e) h)
        (λ k. starts_sound (suc offset) rest k s)
  | inr e ↦ IsStart-past offset b rest i s e (
      starts_sound (suc offset) rest i s
        (subst (λ z. get_elem? z i ≡ some s) (starts_past offset b rest e) h))
]
  where
    at_index :
        b == newline ≡ true
        → (i : ℕ) → get_elem? (suc offset ∷ starts (suc offset) rest) i ≡ some s
        → ((k : ℕ)
            → get_elem? (starts (suc offset) rest) k ≡ some s
            → IsStart (suc offset) rest k s)
        → IsStart offset (b ∷ rest) i s
    at_index e zero h rec = IsStart-first offset b rest s e cc
    at_index e (suc i) h rec = IsStart-next offset b rest i s e (rec i h)

-- Every newline has a start after it.
abbrev HasStart : ℕ → List ℕ → ℕ → Type 0
HasStart offset bytes j =
    (i : ℕ) × (get_elem? (starts offset bytes) i ≡ some (offset + suc j))
    × (suc i ≡ newlines_before bytes (suc j))

pub starts_complete :
    (offset : ℕ) (bytes : List ℕ) (j : ℕ)
    → get_elem? bytes j ≡ some newline
    → HasStart offset bytes j
starts_complete offset [] j h = cc
starts_complete offset (b ∷ rest) zero h =
    let is : b ≡ newline = cc in
    let e : b == newline ≡ true = rw is refl in
    (
      0,
      subst (λ z. get_elem? z 0 ≡ some (offset + 1)) (sym (starts_at offset b rest e))
          (ap some (omega arith)),
      omega (arith, newlines_at b rest 0 e, newlines_none rest),
    )
starts_complete offset (b ∷ rest) (suc j) h =
    let (i, at, n) = starts_complete (suc offset) rest j h in
    let there : get_elem? (starts (suc offset) rest) i ≡ some (offset + suc (suc j)) =
      at ∙ ap some (omega arith) in
    elim (Bool-cases (b == newline)) [
      | inl e ↦ (
        suc i,
        subst (λ z. get_elem? z (suc i) ≡ some (offset + suc (suc j)))
            (sym (starts_at offset b rest e)) there,
        omega (arith, newlines_at b rest (suc j) e),
      )
      | inr e ↦ (
        i,
        subst (λ z. get_elem? z i ≡ some (offset + suc (suc j))) (sym (starts_past offset b rest e))
            there,
        omega (arith, newlines_past b rest (suc j) e),
      )
    ]
