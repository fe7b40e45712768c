-- ===== src/Expansion/Schedule/Examples.antt =====
-- A definition with an attribute and an invocation that generates another one, which fails.
use Prim.Native.Nat.{eq}
use elamite.Base.{
  Option, List, [], ◌∷◌, ℕ, suc, ◌≡◌, refl, [], ◌∷◌, none, some, arith, length, map, ◌==◌,
  if◌then◌else◌,
}
use elamite.Base.{true, false, ◌⊎◌, inl, inr, Bool-cases}
use elamite.Expansion.{
  ExpansionWorkState, enqueue, Interpreted, valued, Invocation, evaluate, execute_work,
  take_arguments, answer, invoked_with, invocation_value, value_unless, RecoveryReason,
  resource_limit, generated_nodes_limit, ExecutionResources, next_ready_all, next_ready, pop_key,
  start_item, run_next, execute_item, finish, finish_result, complete, fail, if_active,
  charge_nodes, checked_add, admit_output, enqueue_generated, enqueue_definitions,
  refresh_dependents_all, refresh_dependents, refresh_sorted, refresh_each, dependent_keys, add_key,
  sort_keys, insert_sorted, dedup, recover_item, mark_recovered, remove_key, key_order, then_with,
  new_resources, completed, recovered, max, pending, ready, is_internal, enqueue_definition_after,
  all_of_role, role_eq, enqueue_chain, enqueue_internal, id_list, depth_of, depth_below, push_item,
  admit, admit_chain, recover_all, refresh_all, cycle_chain, chain_of, chain_from, chain_at,
  repeats, same_input, refresh, refresh_item, refresh_pending, make_ready, insert_key, recover,
  same_id, is_some_id, ExpansionLimits, default_limits, ExpansionRole, attribute, expression,
  ExpansionRequest, LocationOrder, Ended, returned, ExpansionScheduler, DefinitionExpansions,
  execution_failure, produced, failed, ExecutionResult, Executor, with_limits, enqueue_definition,
  run, update_at, is_completed, is_recovered, is_pending, is_ready, is_active, is_dependency,
  and_then, states_of, add_state,
}
use elamite.Expansion.Schedule.Runs.{
  IsReached, new, Returns-at, IsReached-IsUsable, finish-IsSound, with_limits-IsSound,
  enqueue_definition-IsSound, next_ready-Selected, definition_more, run-AtFixpoint, AtFixpoint,
  Returns,
}
use elamite.Expansion.Schedule.Keys.{IsReflexive}
use elamite.Expansion.Schedule.Grown.{IsSound, HasRoles, AllEnqueued}
use elamite.Expansion.Schedule.Invocations.{Evaluated, evaluate-Evaluated}
use elamite.Expansion.Schedule.Invocations.{IsIdle}
use elamite.Expansion.Schedule.Finish.{IsProper, Finished}
use elamite.Expansion.Schedule.Select.{IsActive, Selected}
use elamite.Expansion.Schedule.Fixpoint.{IsProperExecutor}

abbrev any_order : LocationOrder
any_order a b = eq

abbrev request_of : ℕ → ExpansionRole → ExpansionRequest ℕ
request_of declaration role = record {
  declaration = declaration;
  role = role;
  input = [];
  location = record {
    package_id = "root";
    module_path = "main" ∷ [];
    provenance_order = declaration ∷ [];
  };
  invocation = 0;
  definition = 0;
}

abbrev one_definition : DefinitionExpansions ℕ
one_definition = record {
  attributes = request_of 1 attribute ∷ [];
  derives = [];
  invocations = request_of 2 expression ∷ [];
}

-- The second declaration generates a request of the third, which fails.
abbrev result_of : ℕ → ExecutionResult ℕ
result_of declaration =
    if declaration == 2
    then produced (record {
      generated_nodes = 5;
      invocations = request_of 3 expression ∷ [];
      definitions = [];
    })
    else if declaration == 3
    then failed execution_failure
    else produced (record { generated_nodes = 1; invocations = []; definitions = [] })

abbrev executor : Executor ℕ ℕ
executor count r resources = (result_of r.request.declaration, resources, suc count)

executor-IsProperExecutor : IsProperExecutor 1 executor
unfolding is_internal
executor-IsProperExecutor count r resources =
    by_tests (Bool-cases (r.request.declaration == 2)) (Bool-cases (r.request.declaration == 3))
  where
    by_tests :
        (r.request.declaration == 2 ≡ true) ⊎ (r.request.declaration == 2 ≡ false)
        → (r.request.declaration == 3 ≡ true) ⊎ (r.request.declaration == 3 ≡ false)
        → IsProper 1 (result_of r.request.declaration)
    by_tests (inl a) b = rw a (tt, omega arith)
    by_tests (inr a) (inl b) = rw (a, b) refl
    by_tests (inr a) (inr b) = rw (a, b) (tt, omega arith)

abbrev few : ExpansionLimits
few = record default_limits { executions = 3 }

-- The scheduler of a call that returned.
state_of : {A : Type 0} → Ended (A × ExpansionScheduler ℕ) → ExpansionScheduler ℕ
state_of (returned (_, s)) = s
state_of _ = with_limits few

abbrev empty : ExpansionScheduler ℕ
empty = with_limits few

abbrev prepared : ExpansionScheduler ℕ
prepared = state_of (enqueue_definition (◌==◌) any_order one_definition empty)

any_order_law : IsReflexive any_order
any_order_law l = refl

-- The attribute is ready, and the invocation waits for it.
prepared_facts :
    (enqueue_definition (◌==◌) any_order one_definition empty ≡ returned (0 ∷ 1 ∷ [], prepared))
    × (length prepared.work ≡ 2)
    × (prepared.usage.executions ≡ 0)
    × (map (λ r. r.state) prepared.work ≡ ready ∷ pending ∷ [])
unfolding state_of with_limits enqueue_definition enqueue_definition_after all_of_role role_eq
    enqueue_chain enqueue_internal and_then id_list depth_of depth_below push_item admit admit_chain
    recover_all refresh_all cycle_chain chain_of chain_from chain_at repeats same_input refresh
    refresh_item is_pending states_of add_state refresh_pending is_recovered is_completed make_ready
    insert_key update_at recover same_id is_some_id max
prepared_facts = (refl, refl, refl, refl)

one_definition-HasRoles : HasRoles one_definition
unfolding all_of_role role_eq
one_definition-HasRoles = (refl, refl)

prepared-IsReached : IsReached (◌==◌) any_order 1 executor few prepared
unfolding with_limits
prepared-IsReached =
    definition_more empty one_definition (0 ∷ 1 ∷ []) new one_definition-HasRoles (omega arith)
      prepared_facts.0

run-AtFixpoint_example : Returns (run (◌==◌) any_order executor 4 0 prepared) (AtFixpoint few)
run-AtFixpoint_example =
    run-AtFixpoint (◌==◌) any_order any_order_law 1 executor executor-IsProperExecutor few prepared
      3 0 prepared-IsReached (omega (arith, prepared_facts.2)) (omega (arith, prepared_facts.1))

enqueue_definition-IsSound_example :
    Returns (enqueue_definition (◌==◌) any_order one_definition empty) (AllEnqueued 2 empty)
unfolding with_limits
enqueue_definition-IsSound_example =
    enqueue_definition-IsSound (◌==◌) any_order any_order_law one_definition empty
      one_definition-HasRoles (with_limits-IsSound few) (omega arith)

prepared-IsSound : IsSound prepared
prepared-IsSound =
    (IsReached-IsUsable (◌==◌) any_order any_order_law 1 executor executor-IsProperExecutor few
      prepared prepared-IsReached).sound

next_ready-Selected_example : Returns (next_ready_all any_order prepared) (Selected prepared)
next_ready-Selected_example =
    next_ready-Selected any_order any_order_law prepared prepared-IsSound
      (omega (arith, prepared_facts.1))

abbrev started : ExpansionScheduler ℕ
started = state_of (next_ready_all any_order prepared)

-- The attribute is taken.
started_facts :
    (next_ready_all any_order prepared ≡ returned (some 0, started))
    × (length started.work ≡ 2)
    × (started.usage.generated_nodes ≡ 0)
unfolding state_of with_limits enqueue_definition enqueue_definition_after all_of_role role_eq
    enqueue_chain enqueue_internal and_then id_list depth_of depth_below push_item admit admit_chain
    recover_all refresh_all cycle_chain chain_of chain_from chain_at repeats same_input refresh
    refresh_item is_pending states_of add_state refresh_pending is_recovered is_completed make_ready
    insert_key update_at recover same_id is_some_id max next_ready_all next_ready pop_key start_item
    is_ready
started_facts = (refl, refl, refl)

started-IsActive : IsActive 0 started
started-IsActive =
    (Returns-at (Selected prepared) (next_ready_all any_order prepared) (some 0, started)
      started_facts.0 next_ready-Selected_example).0

finish-IsSound_example :
    Returns (finish (◌==◌) any_order 0 none (result_of 1) started) (Finished 1 started)
finish-IsSound_example =
    finish-IsSound (◌==◌) any_order any_order_law 1 0 started none (result_of 1) started-IsActive
      (omega (arith, started_facts.2)) (tt, omega arith) (omega (arith, started_facts.1))

-- A run takes the three executions: the third fails.
the_run :
    map (λ r. r.state) (state_of (run (◌==◌) any_order executor 4 0 prepared)).work
    ≡ completed ∷ completed ∷ recovered 0 ∷ []
unfolding state_of with_limits enqueue_definition enqueue_definition_after all_of_role role_eq
    enqueue_chain enqueue_internal and_then id_list depth_of depth_below push_item admit admit_chain
    recover_all refresh_all cycle_chain chain_of chain_from chain_at repeats same_input refresh
    refresh_item is_pending states_of add_state refresh_pending is_recovered is_completed make_ready
    insert_key update_at recover same_id is_some_id max next_ready_all next_ready pop_key start_item
    is_ready run run_next execute_item finish finish_result complete fail if_active is_active
    charge_nodes checked_add admit_output enqueue_generated enqueue_definitions
    refresh_dependents_all refresh_dependents refresh_sorted refresh_each dependent_keys add_key
    sort_keys insert_sorted dedup recover_item mark_recovered remove_key key_order then_with
    is_dependency is_internal new_resources
the_run = refl

-- An interpreter that answers 7, which counts as 7 nodes, where 3 are allowed.
abbrev narrow : ExpansionLimits
narrow = record default_limits { generated_nodes = 3; executions = 2 }

abbrev seven : ℕ → ExecutionResources → Interpreted ℕ ℕ × ExecutionResources
seven arguments resources = (valued 7, resources)

abbrev self : ℕ → ℕ
self n = n

unused_scheduler-IsIdle : IsIdle {Kind = ℕ} (with_limits narrow)
unfolding with_limits
unused_scheduler-IsIdle = (with_limits-IsSound narrow, refl, omega arith)

evaluate-Evaluated_example :
    Returns
      (evaluate (◌==◌) any_order self seven (request_of 1 expression) 4 (with_limits narrow))
      (Evaluated (◌==◌) any_order any_order_law self seven 4 (with_limits narrow))
unfolding with_limits
evaluate-Evaluated_example =
    evaluate-Evaluated (◌==◌) any_order any_order_law self seven (request_of 1 expression) 4
      (with_limits narrow) unused_scheduler-IsIdle (omega arith)

-- What an invocation leaves: the value, and the states and problems of the scheduler.
left_by :
    Ended (ℕ × Invocation ℕ ℕ ℕ × ExpansionScheduler ℕ)
    → Option ℕ × List ExpansionWorkState × List RecoveryReason
left_by (returned (work, state, u)) =
    (invocation_value state, map (λ r. r.state) u.work, map (λ p. p.reason) u.problems)
left_by _ = (none, [], [])

-- The work is recovered by the limit of generated nodes, and the value is used all the same.
refused_is_used :
    left_by (evaluate (◌==◌) any_order self seven (request_of 1 expression) 4 (with_limits narrow))
    ≡ (some 7, recovered 0 ∷ [], resource_limit generated_nodes_limit ∷ [])
unfolding state_of with_limits enqueue_definition enqueue_definition_after all_of_role role_eq
    enqueue_chain enqueue_internal and_then id_list depth_of depth_below push_item admit admit_chain
    recover_all refresh_all cycle_chain chain_of chain_from chain_at repeats same_input refresh
    refresh_item is_pending states_of add_state refresh_pending is_recovered is_completed make_ready
    insert_key update_at recover same_id is_some_id max next_ready_all next_ready pop_key start_item
    is_ready run run_next execute_item finish finish_result complete fail if_active is_active
    charge_nodes checked_add admit_output enqueue_generated enqueue_definitions
    refresh_dependents_all refresh_dependents refresh_sorted refresh_each dependent_keys add_key
    sort_keys insert_sorted dedup recover_item mark_recovered remove_key key_order then_with
    is_dependency is_internal new_resources left_by evaluate enqueue execute_work take_arguments
    answer invoked_with invocation_value value_unless
refused_is_used = refl
