-- ===== src/Coverage/Report.antt =====
-- What the check of a match reports as missing.
use elamite.Base.{
  ℕ, ◌≡◌, refl, inl, inr, Bool, true, false, not, ◌&&◌, List, [], ◌∷◌, some, arith, All, All-mono,
  contains, Bool-cases, ==→eq, ◌==◌, subst,
}
use elamite.Types.{TypeId, NominalIdentity, nominal}
use elamite.Coverage.{
  variants, Variant, Tables, resolved_kind, holds_all_variants, coverage_is_exhaustive,
  unmatched_variants, missing_variants, describe_missing_coverage, describe_plain, covered_variants,
  DeclaredIn, here, there,
}
use elamite.Coverage.Sound.{and_right}

abbrev Absent : ℕ → List Variant → List ℕ → ℕ → Type 0
Absent d table vs y = DeclaredIn d y table × (contains y vs ≡ false)

and_left : (a b : Bool) → a && b ≡ true → a ≡ true
and_left a b h = ground arith

not-true : (a : Bool) → not a ≡ true → a ≡ false
not-true a h = ground arith

missing_variants-All :
    (d : ℕ) (table : List Variant) (vs : List ℕ)
    → All (Absent d table vs) (missing_variants table d vs)
unfolding missing_variants
missing_variants-All d [] vs = tt
missing_variants-All d (v ∷ table) vs =
    let rest : All (Absent d (v ∷ table) vs) (missing_variants table d vs) =
      All-mono (Absent d table vs) (Absent d (v ∷ table) vs) (λ y (m, c). (there m, c)) _
        (missing_variants-All d table vs) in
    elim (Bool-cases (v.parent == d && not (contains v.id vs))) [
      | inl h ↦ rw h ((here refl (==→eq _ _ (and_left _ _ h)), not-true _ (and_right _ _ h)), rest)
      | inr h ↦ rw h rest
    ]

missing_variants-cons :
    (d : ℕ) (table : List Variant) (vs : List ℕ)
    → holds_all_variants table d vs ≡ false
    → (x : ℕ) × (xs : List ℕ) × (missing_variants table d vs ≡ x ∷ xs)
unfolding holds_all_variants missing_variants
missing_variants-cons d [] vs h = cc
missing_variants-cons d (v ∷ table) vs h =
    elim (Bool-cases (v.parent == d && not (contains v.id vs))) [
      | inl m ↦ rw m (v.id, missing_variants table d vs, refl)
      | inr m ↦ rw m (missing_variants-cons d table vs (ground arith))
    ]

describe-eq :
    (t : Tables) (ty : TypeId) (identity : NominalIdentity) (arguments : List TypeId) (vs : List ℕ)
    (x : ℕ) (xs : List ℕ)
    → resolved_kind t.types ty ≡ some (nominal identity arguments)
    → t.is_enum identity.declaration ≡ true
    → missing_variants t.variants_table identity.declaration vs ≡ x ∷ xs
    → describe_missing_coverage t ty (variants vs) ≡ some (unmatched_variants (x ∷ xs))
unfolding describe_missing_coverage covered_variants
describe-eq t ty identity arguments vs x xs k e q =
    rw (k, describe_plain, e, describe_plain, q, describe_plain)

-- For an enum scrutinee, whenever the check finds a set of variants not to be exhaustive it
-- reports variants, each of them declared by the enum and missing from the set.
pub missing_variants-reported :
    (t : Tables) (ty : TypeId) (identity : NominalIdentity) (arguments : List TypeId) (vs : List ℕ)
    → resolved_kind t.types ty ≡ some (nominal identity arguments)
    → t.is_enum identity.declaration ≡ true
    → coverage_is_exhaustive t ty (variants vs) ≡ false
    → (x : ℕ) × (xs : List ℕ) × (describe_missing_coverage t ty (variants vs)
        ≡ some (unmatched_variants (x ∷ xs)))
      × All
          (λ y. DeclaredIn identity.declaration y t.variants_table × (contains y vs ≡ false))
          (x ∷ xs)
unfolding coverage_is_exhaustive describe_missing_coverage
missing_variants-reported t ty identity arguments vs k e n =
    let (x, xs, q) =
      missing_variants-cons identity.declaration t.variants_table vs
        (rw (k, coverage_is_exhaustive) at n) in
    (
      x,
      xs,
      describe-eq t ty identity arguments vs x xs k e q,
      subst
          (All (λ y. DeclaredIn identity.declaration y t.variants_table × (contains y vs ≡ false)))
          q (missing_variants-All identity.declaration t.variants_table vs),
    )
