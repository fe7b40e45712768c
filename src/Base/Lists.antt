-- ===== src/Base/Lists.antt =====
-- Lists measured and searched by native numbers, predicates on all entries, association lists
-- keyed by numbers, and the pigeonhole bound on lists of distinct numbers.
use Prim.Native.Nat.{ℕ, zero, suc, ◌+◌, ◌≤◌, ◌<◌}
use mathlib.Core.Path.{◌≡◌, refl, subst}
use mathlib.Core.Logic.{inl, inr}
use mathlib.Core.Bool.{Bool, true, false, ◌||◌, ◌&&◌}
use mathlib.Core.List.{List, [], ◌∷◌, ◌++◌}
use mathlib.Core.Option.{Option, none, some}
use native.Mathlib.Omega.{arith}
use elamite.Base.Tests.{◌==◌, if◌then◌else◌, Bool-cases, ==→eq}

module _ {ℓ} {A : Type ℓ} where
  abbrev pub length : List A → ℕ
  length [] = 0
  length (x ∷ xs) = suc (length xs)

  abbrev pub get_elem? : List A → ℕ → Option A
  get_elem? [] i = none
  get_elem? (x ∷ xs) zero = some x
  get_elem? (x ∷ xs) (suc i) = get_elem? xs i

  abbrev pub any : (A → Bool) → List A → Bool
  any p [] = false
  any p (x ∷ xs) = p x || any p xs

  abbrev pub all : (A → Bool) → List A → Bool
  all p [] = true
  all p (x ∷ xs) = p x && all p xs

  -- A predicate that holds of every entry, as a nested pair.
  abbrev pub All {κ} : (A → Type κ) → List A → Type κ
  All P [] = Unit
  All P (x ∷ xs) = P x × All P xs

  pub length-append : (xs ys : List A) → length (xs ++ ys) ≡ length xs + length ys
  length-append [] ys = omega arith
  length-append (x ∷ xs) ys = omega (arith, length-append xs ys)

-- Membership of a number in a list of numbers.
unfoldable pub contains : ℕ → List ℕ → Bool
contains a [] = false
contains a (x ∷ xs) = if x == a then true else contains a xs

-- The first entry with the key.
unfoldable pub lookup {ℓ} : {V : Type ℓ} → ℕ → List (ℕ × V) → Option V
lookup k [] = none
lookup k ((j, v) ∷ m) = if j == k then some v else lookup k m

-- The list without the first entry that equals the number.
unfoldable pub remove_one : ℕ → List ℕ → List ℕ
remove_one a [] = []
remove_one a (x ∷ xs) = if x == a then xs else x ∷ remove_one a xs

-- No number occurs twice.
abbrev pub Distinct : List ℕ → Type 0
Distinct [] = Unit
Distinct (x ∷ xs) = (contains x xs ≡ false) × Distinct xs

-- An index below the length reads an entry.
pub get_elem?-some {ℓ} :
    {A : Type ℓ} (xs : List A) (i : ℕ) → i < length xs → (a : A) × (get_elem? xs i ≡ some a)
get_elem?-some [] i h = absurd (omega arith)
get_elem?-some (x ∷ xs) zero h = (x, refl)
get_elem?-some (x ∷ xs) (suc i) h = get_elem?-some xs i (omega arith)

contains-remove_one :
    (a b : ℕ) (xs : List ℕ) → contains b xs ≡ false → contains b (remove_one a xs) ≡ false
unfolding contains remove_one
contains-remove_one a b [] h = refl
contains-remove_one a b (x ∷ xs) h = ground (arith, contains-remove_one a b xs)

remove_one-Distinct : (a : ℕ) (xs : List ℕ) → Distinct xs → Distinct (remove_one a xs)
unfolding remove_one
remove_one-Distinct a [] h = tt
remove_one-Distinct a (x ∷ xs) h = elim (Bool-cases (x == a)) [
  | inl e ↦ rw e h.1
  | inr e ↦ rw e (contains-remove_one a x xs h.0, remove_one-Distinct a xs h.1)
]

length-remove_one-le : (a : ℕ) (xs : List ℕ) → length xs ≤ length (remove_one a xs) + 1
unfolding remove_one
length-remove_one-le a [] = omega arith
length-remove_one-le a (x ∷ xs) = ground (arith, length-remove_one-le a xs)

below_of_absent :
    (n : ℕ) (xs : List ℕ) → contains n xs ≡ false → All (λ x. x < suc n) xs → All (λ x. x < n) xs
unfolding contains
below_of_absent n [] c h = tt
below_of_absent n (x ∷ xs) c h = (ground (arith, h.0), below_of_absent n xs (ground arith) h.1)

-- Without its largest value, a list of distinct numbers up to it has a smaller bound.
remove_one-below :
    (n : ℕ) (xs : List ℕ)
    → Distinct xs
    → All (λ x. x < suc n) xs
    → All (λ x. x < n) (remove_one n xs)
unfolding remove_one contains
remove_one-below n [] d h = tt
remove_one-below n (x ∷ xs) d h = elim (Bool-cases (x == n)) [
  | inl e ↦ rw e (below_of_absent n xs (rw (==→eq x n e) at d.0) h.1)
  | inr e ↦ rw e (ground (arith, h.0), remove_one-below n xs d.1 h.1)
]

-- Pigeonhole: distinct numbers below n are at most n.
pub length-le_of_Distinct :
    (n : ℕ) (xs : List ℕ) → Distinct xs → All (λ x. x < n) xs → length xs ≤ n
length-le_of_Distinct n [] d h = omega arith
length-le_of_Distinct zero (x ∷ xs) d h = absurd (omega (arith, h.0))
length-le_of_Distinct (suc n) xs d h = omega (
  arith,
  length-remove_one-le n xs,
  length-le_of_Distinct n (remove_one n xs) (remove_one-Distinct n xs d)
      (remove_one-below n xs d h),
)

pub All-left {ℓ κ} : {A : Type ℓ} (P : A → Type κ) (xs ys : List A) → All P (xs ++ ys) → All P xs
All-left P [] ys h = tt
All-left P (x ∷ xs) ys h = (h.0, All-left P xs ys h.1)

pub All-last {ℓ κ} :
    {A : Type ℓ} (P : A → Type κ) (xs : List A) (y : A) → All P (xs ++ y ∷ []) → P y
All-last P [] y h = h.0
All-last P (x ∷ xs) y h = All-last P xs y h.1

pub All-get_elem? {ℓ κ} :
    {A : Type ℓ} (P : A → Type κ) (xs : List A) (i : ℕ) (a : A)
    → All P xs
    → get_elem? xs i ≡ some a
    → P a
All-get_elem? P [] i a h e = cc
All-get_elem? P (x ∷ xs) zero a h e = let same : x ≡ a = cc in subst P same h.0
All-get_elem? P (x ∷ xs) (suc i) a h e = All-get_elem? P xs i a h.1 e

pub All-mono {ℓ κ μ} :
    {A : Type ℓ} (P : A → Type κ) (Q : A → Type μ)
    → ((a : A) → P a → Q a)
    → (xs : List A) → All P xs
    → All Q xs
All-mono P Q f [] h = tt
All-mono P Q f (x ∷ xs) h = (f x h.0, All-mono P Q f xs h.1)

pub All-contains {κ} :
    (P : ℕ → Type κ) (xs : List ℕ) (a : ℕ) → All P xs → contains a xs ≡ true → P a
unfolding contains
All-contains P [] a h e = cc
All-contains P (x ∷ xs) a h e = elim (Bool-cases (x == a)) [
  | inl same ↦ subst P (==→eq x a same) h.0
  | inr apart ↦ All-contains P xs a h.1 (rw apart at e)
]
