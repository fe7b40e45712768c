-- ===== src/Expansion/Examples.antt =====
-- A meter that refuses a charge, and three nested requests of which the last repeats the first.
use elamite.Base.{
  ℕ, zero, suc, ◌≡◌, refl, ap, ◌∙◌, List, [], ◌∷◌, Option, none, some, arith, get_elem?, ◌==◌,
}
use elamite.Expansion.{
  default_limits, new_resources, ScheduledExpansion, ExpansionRequest, expression, completed,
  cycle_chain, chain_of, chain_from, chain_at, repeats, role_eq, same_input, charged, refused,
  ChargeResult, ExecutionResources, charge_steps, charge_total, checked_add, checked_sub, exhaust,
  allocate_total, allocate_live_value_bytes, release_total, release_live_value_bytes,
  interpreter_steps_limit,
}
use elamite.Expansion.Limits.{
  charge, allocate, release, MeterEvent, run_events, event_step, cons_result,
}
use elamite.Expansion.Traces.{Traces, run_events_lem}
use elamite.Expansion.Cycles.{IsOrdered, Says, cycle_chain_lem}

abbrev few_events : List MeterEvent
few_events = charge 1048576 ∷ allocate 12 ∷ charge 1 ∷ release 12 ∷ []

run_events_lem_example :
    Traces (new_resources default_limits) (new_resources default_limits) few_events
run_events_lem_example = run_events_lem default_limits (omega arith) (omega arith) few_events

abbrev request_of : ℕ → ExpansionRequest ℕ
request_of declaration = record {
  declaration = declaration;
  role = expression;
  input = record { kind = 4; source = "x" } ∷ [];
  location = record { package_id = "root"; module_path = "main" ∷ []; provenance_order = 7 ∷ [] };
  invocation = 0;
  definition = 0;
}

abbrev scheduled : ℕ → ℕ → Option ℕ → ScheduledExpansion ℕ
scheduled id declaration parent = record {
  id = id;
  request = request_of declaration;
  parent = parent;
  dependencies = [];
  depth = suc id;
  resources = none;
  state = completed;
}

some-inj : (x y : ScheduledExpansion ℕ) → some x ≡ some y → x ≡ y
some-inj x y e = cc

abbrev nested : List (ScheduledExpansion ℕ)
nested = scheduled 0 5 none ∷ scheduled 1 6 (some 0) ∷ scheduled 2 5 (some 1) ∷ []

nested-IsOrdered : IsOrdered (◌==◌) nested
nested-IsOrdered zero p x e h =
    let is : none ≡ some p = ap (λ y. y.parent) (some-inj (scheduled 0 5 none) x e) ∙ h in cc
nested-IsOrdered (suc zero) p x e h =
    let is : some 0 ≡ some p = ap (λ y. y.parent) (some-inj (scheduled 1 6 (some 0)) x e) ∙ h in
    let same : 0 ≡ p = cc in omega arith
nested-IsOrdered (suc (suc zero)) p x e h =
    let is : some 1 ≡ some p = ap (λ y. y.parent) (some-inj (scheduled 2 5 (some 1)) x e) ∙ h in
    let same : 1 ≡ p = cc in omega arith
nested-IsOrdered (suc (suc (suc i))) p x e h = cc

cycle_chain_lem_example :
    (x : ScheduledExpansion ℕ) × (get_elem? nested 2 ≡ some x)
    × (answer : Option (List ℕ)) × (cycle_chain (◌==◌) nested 2 ≡ some answer)
    × Says (◌==◌) nested x.request 2 answer
cycle_chain_lem_example = cycle_chain_lem (◌==◌) nested nested-IsOrdered 2 (omega arith)

the_chain : cycle_chain (◌==◌) nested 2 ≡ some (some (0 ∷ 1 ∷ 2 ∷ []))
unfolding cycle_chain chain_of chain_from chain_at repeats role_eq same_input
the_chain = refl

-- The steps are spent by then, and the charge of one more is refused.
results_of : Option (List ChargeResult × ExecutionResources) → List ChargeResult
results_of none = []
results_of (some (results, _)) = results

the_results :
    results_of (run_events few_events (new_resources default_limits))
    ≡ charged ∷ charged ∷ refused interpreter_steps_limit ∷ charged ∷ []
unfolding results_of run_events event_step cons_result release_live_value_bytes release_total
    checked_sub charge_steps charge_total checked_add allocate_live_value_bytes allocate_total
    new_resources exhaust
the_results = refl
