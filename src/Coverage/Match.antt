-- ===== src/Coverage/Match.antt =====
-- `check_match_statement` of src/check/patterns.rs:6-89, over arms whose patterns, guards and
-- bodies are checked: an arm shows the coverage of its pattern, whether it has a guard and
-- whether its body returns on every path.
use elamite.Base.{Bool, true, false, not, ◌&&◌, List, [], ◌∷◌, Option, none, if◌then◌else◌}
use elamite.Types.{TypeId}
use elamite.Coverage.Defs.{
  Coverage, nothing, union, is_catchall, is_covered_by, Tables, coverage_is_exhaustive, Missing,
  describe_missing_coverage,
}

pub record Arm : Type 0 where
  pub coverage : Coverage
  pub guarded : Bool
  pub returns : Bool

-- What is reported at an arm: nothing, that an earlier arm matches every value, or that its
-- pattern is already covered.
pub data Verdict : Type 0 where
  fine unreachable redundant : Verdict

unfoldable pub verdict : Coverage → Arm → Verdict
verdict covered arm =
    if is_catchall covered
    then unreachable
    else if is_covered_by arm.coverage covered
    then redundant
    else fine

-- A guarded arm adds nothing.
unfoldable pub add_arm : Coverage → Arm → Coverage
add_arm covered arm = if arm.guarded then covered else union covered arm.coverage

-- The loop over the arms: their verdicts in order, and the final coverage.
unfoldable pub check_arms : Coverage → List Arm → List Verdict × Coverage
check_arms covered [] = ([], covered)
check_arms covered (arm ∷ arms) =
    let (verdicts, final) = check_arms (add_arm covered arm) arms in
    (verdict covered arm ∷ verdicts, final)

unfoldable pub all_arms_return : List Arm → Bool
all_arms_return [] = true
all_arms_return (arm ∷ arms) = arm.returns && all_arms_return arms

unfoldable pub any_arm : List Arm → Bool
any_arm [] = false
any_arm (_ ∷ _) = true

pub record MatchResult : Type 0 where
  pub verdicts : List Verdict
  pub missing : Option Missing
  pub returns : Bool

unfoldable pub check_match_statement : Tables → TypeId → List Arm → MatchResult
check_match_statement t ty arms =
    let (verdicts, covered) = check_arms nothing arms in
    let exhaustive = coverage_is_exhaustive t ty covered in
    record {
      verdicts = verdicts;
      missing =
          if any_arm arms && not exhaustive then describe_missing_coverage t ty covered else none;
      returns = any_arm arms && exhaustive && all_arms_return arms;
    }
