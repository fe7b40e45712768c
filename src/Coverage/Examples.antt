-- ===== src/Coverage/Examples.antt =====
-- Matches on a two-variant enum, directly and behind a reference.
use elamite.Base.{
  ℕ, ◌≡◌, refl, true, false, List, [], ◌∷◌, ◌++◌, none, some, All, get_elem?, contains, length,
}
use elamite.Types.{
  NominalIdentity, error_type, nominal, reference, alias, shared, kind, resolve_inference,
  resolve_from, resolve_step,
}
use elamite.Coverage.{
  variants, dereferenced, Tables, resolved_kind, reference_target, alias_to_reference,
  coverage_is_exhaustive, unmatched_variants, describe_missing_coverage, holds_all_variants, union,
  extend, insert, is_catchall, is_covered_by, covers_variants, is_subset, is_empty, Arm, redundant,
  verdict, add_arm, check_arms, all_arms_return, any_arm, check_match_statement, variant_view,
  reference_view, enum_form, reference_form, DeclaredIn, here, there,
}
use elamite.Coverage.Exhaustive.{Caught, returns-Caught, reported-Caught}
use elamite.Coverage.Report.{missing_variants-reported}

abbrev shape : NominalIdentity
shape = record { package_id = none; declaration = 0 }

-- Type 1 is the enum, type 2 a reference to it, type 3 an alias of the reference.
abbrev shapes : Tables
shapes = record {
  types = record {
    kinds = error_type ∷ nominal shape [] ∷ reference shared 1 ∷ alias 1 [] 2 ∷ [];
    interned = [];
    inference_bindings = [];
  };
  variants_table = record { id = 0; parent = 0 } ∷ record { id = 1; parent = 0 } ∷ [];
  is_enum = λ d. true;
}

abbrev arm_of : ℕ → Arm
arm_of x = record { coverage = dereferenced (variants (x ∷ [])); guarded = false; returns = true }

abbrev both_arms : List Arm
both_arms = arm_of 0 ∷ arm_of 1 ∷ []

resolved_enum : resolved_kind shapes.types 1 ≡ some (nominal shape [])
unfolding resolved_kind resolve_inference resolve_from resolve_step kind
resolved_enum = refl

target_of_reference : reference_target shapes.types 2 ≡ some 1
unfolding reference_target alias_to_reference resolve_inference resolve_from resolve_step kind
target_of_reference = refl

both_arms_return : (check_match_statement shapes 2 both_arms).returns ≡ true
unfolding check_match_statement check_arms add_arm union extend insert contains
    coverage_is_exhaustive holds_all_variants reference_target alias_to_reference resolved_kind
    resolve_inference resolve_from resolve_step kind all_arms_return any_arm
both_arms_return = refl

returns-Caught_example : Caught (reference_view (variant_view 1)) both_arms
returns-Caught_example =
    returns-Caught shapes 2 (reference_form (enum_form 0)) both_arms
      (reference_view (variant_view 1)) (1, target_of_reference, (shape, [], resolved_enum, refl))
      (tt, (tt, tt)) (there (here refl refl)) both_arms_return

second_is_redundant :
    get_elem?
      (check_match_statement shapes 2 ((arm_of 0 ∷ []) ++ arm_of 0 ∷ [])).verdicts
      (length (arm_of 0 ∷ []))
    ≡ some redundant
unfolding check_match_statement check_arms verdict add_arm union extend insert contains is_catchall
    is_covered_by covers_variants is_subset is_empty
second_is_redundant = refl

reported-Caught_example : Caught (reference_view (variant_view 0)) (arm_of 0 ∷ [])
unfolding contains
reported-Caught_example =
    reported-Caught shapes 2 (reference_form (enum_form 0)) (arm_of 0 ∷ []) (arm_of 0) [] redundant
      (reference_view (variant_view 0)) (tt, tt) tt (here refl refl) second_is_redundant (λ e. cc)
      refl

zero_is_not_all : coverage_is_exhaustive shapes 1 (variants (0 ∷ [])) ≡ false
unfolding coverage_is_exhaustive holds_all_variants resolved_kind resolve_inference resolve_from
    resolve_step kind contains
zero_is_not_all = refl

missing_variants-reported_example :
    (x : ℕ) × (xs : List ℕ) × (describe_missing_coverage shapes 1 (variants (0 ∷ []))
      ≡ some (unmatched_variants (x ∷ xs)))
    × All (λ y. DeclaredIn 0 y shapes.variants_table × (contains y (0 ∷ []) ≡ false)) (x ∷ xs)
missing_variants-reported_example =
    missing_variants-reported shapes 1 shape [] (0 ∷ []) resolved_enum refl zero_is_not_all

-- Behind an alias of the reference type the same incomplete match is not reported at all.
alias_is_silent :
    (coverage_is_exhaustive shapes 3 (dereferenced (variants (0 ∷ []))) ≡ false)
    × (describe_missing_coverage shapes 3 (dereferenced (variants (0 ∷ []))) ≡ none)
unfolding coverage_is_exhaustive describe_missing_coverage holds_all_variants reference_target
    alias_to_reference resolved_kind resolve_inference resolve_from resolve_step kind contains
alias_is_silent = (refl, refl)
