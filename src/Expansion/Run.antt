-- ===== src/Expansion/Run.antt =====
-- src/expansion/scheduler.rs:244-254, :409-511 and :701-707: selecting, completing and failing work,
-- and the run. The executor is a function with a state of its own.
use elamite.Base.{
  ℕ, zero, suc, ◌+◌, Bool, true, false, List, [], ◌∷◌, Option, none, some, get_elem?, length,
  if◌then◌else◌, ltb,
}
use elamite.Expansion.Meter.{
  ResourceLimitKind, executions_limit, generated_nodes_limit, ExecutionResources,
  ExecutionResourceUsage, new_resources, checked_add,
}
use elamite.Expansion.Chain.{ExpansionRequest, active, completed, ScheduledExpansion}
use elamite.Expansion.Ready.{LocationOrder, ReadyKey}
use elamite.Expansion.Defs.{
  Ended, returned, violated, out_of_fuel, and_then, RecoveryReason, cycle, dependency,
  resource_limit, generated, ExpansionScheduler, is_ready, is_active, update_at, set_state, Changes,
}
use elamite.Expansion.Queue.{
  DefinitionExpansions, recover_all, refresh_dependents_all, enqueue_internal,
  enqueue_definition_after,
}

pub record ScheduledOutput (Kind : Type 0) : Type 0 where
  pub generated_nodes : ℕ
  pub invocations : List (ExpansionRequest Kind)
  pub definitions : List (DefinitionExpansions Kind)

-- `Result<ScheduledOutput, RecoveryReason>`
pub data ExecutionResult (Kind : Type 0) : Type 0 where
  produced : ScheduledOutput Kind → ExecutionResult Kind
  failed : RecoveryReason → ExecutionResult Kind

abbrev pub Executor : Type 0 → Type 0 → Type 0
Executor Kind W =
    W → ScheduledExpansion Kind → ExecutionResources → ExecutionResult Kind × ExecutionResources × W

unfoldable pub is_internal : RecoveryReason → Bool
is_internal cycle = true
is_internal dependency = true
is_internal _ = false

module _ {Kind : Type 0} where
  -- `assert_active`
  unfoldable pub if_active :
      Option (ScheduledExpansion Kind)
      → Ended (ExpansionScheduler Kind)
      → Ended (ExpansionScheduler Kind)
  if_active none after = violated
  if_active (some r) after = if is_active r.state then after else violated

  abbrev pub with_resources :
      ExecutionResourceUsage → ScheduledExpansion Kind → ScheduledExpansion Kind
  with_resources usage r = record r { resources = some usage }

  module _ (order : LocationOrder) where
    -- A key that was popped, at its item.
    unfoldable pub start_item :
        (ExpansionScheduler Kind → Ended (Option ℕ × ExpansionScheduler Kind))
        → ℕ
        → Option (ScheduledExpansion Kind)
        → ExpansionScheduler Kind
        → Ended (Option ℕ × ExpansionScheduler Kind)
    start_item again i none s = violated
    start_item again i (some r) s =
        if is_ready r.state
        then if ltb s.usage.executions s.limits.executions
          then returned (
            some i,
            record (set_state i active s) {
              usage = record s.usage { executions = s.usage.executions + 1 };
            },
          )
          else and_then (recover_all order i (resource_limit executions_limit) [] s) again
        else violated

    unfoldable pub pop_key :
        (ExpansionScheduler Kind → Ended (Option ℕ × ExpansionScheduler Kind))
        → List ReadyKey
        → ExpansionScheduler Kind
        → Ended (Option ℕ × ExpansionScheduler Kind)
    pop_key again [] s = returned (none, s)
    pop_key again (key ∷ keys) s =
        start_item again key.work (get_elem? s.work key.work) (record s { ready = keys })

    unfoldable pub next_ready :
        ℕ → ExpansionScheduler Kind → Ended (Option ℕ × ExpansionScheduler Kind)
    next_ready zero s = out_of_fuel
    next_ready (suc fuel) s = pop_key (next_ready fuel) s.ready s

    -- Every turn of `next_ready` but the last recovers an item.
    unfoldable pub next_ready_all :
        ExpansionScheduler Kind → Ended (Option ℕ × ExpansionScheduler Kind)
    next_ready_all s = next_ready (suc (length s.work)) s

    unfoldable pub fail : ℕ → RecoveryReason → Changes Kind
    fail id reason s =
        if is_internal reason
        then violated
        else if_active (get_elem? s.work id) (recover_all order id reason [] s)

module _ {Kind : Type 0} (same_kind : Kind → Kind → Bool) (order : LocationOrder) where
  unfoldable pub enqueue_generated :
      ℕ → List (ExpansionRequest Kind) → ExpansionScheduler Kind → Ended (ExpansionScheduler Kind)
  enqueue_generated id [] s = returned s
  enqueue_generated id (request ∷ requests) s =
      and_then (enqueue_internal same_kind order request (some id) (id ∷ []) generated s)
        (λ (_, after). enqueue_generated id requests after)

  unfoldable pub enqueue_definitions :
      ℕ
      → List (DefinitionExpansions Kind)
      → ExpansionScheduler Kind
      → Ended (ExpansionScheduler Kind)
  enqueue_definitions id [] s = returned s
  enqueue_definitions id (d ∷ ds) s =
      and_then (enqueue_definition_after same_kind order (some id) d s)
        (λ (_, after). enqueue_definitions id ds after)

  unfoldable pub admit_output : ℕ → ScheduledOutput Kind → ℕ → Changes Kind
  admit_output id output total s =
      and_then
        (refresh_dependents_all order id (record (set_state id completed s) {
          usage = record s.usage { generated_nodes = total };
        }))
        (λ after.
          and_then (enqueue_generated id output.invocations after)
            (enqueue_definitions id output.definitions))

  unfoldable pub charge_nodes : ℕ → ScheduledOutput Kind → Option ℕ → Changes Kind
  charge_nodes id output none s = recover_all order id (resource_limit generated_nodes_limit) [] s
  charge_nodes id output (some total) s =
      if ltb s.limits.generated_nodes total
      then recover_all order id (resource_limit generated_nodes_limit) [] s
      else admit_output id output total s

  -- The ids of the new items, which `run` drops, are left out.
  unfoldable pub complete : ℕ → ScheduledOutput Kind → Changes Kind
  complete id output s =
      if_active (get_elem? s.work id)
        (charge_nodes id output (checked_add s.usage.generated_nodes output.generated_nodes) s)

  unfoldable pub finish_result : ℕ → ExecutionResult Kind → Changes Kind
  finish_result id (produced output) s = complete id output s
  finish_result id (failed reason) s = fail order id reason s

  unfoldable pub finish : ℕ → Option ResourceLimitKind → ExecutionResult Kind → Changes Kind
  finish id (some limit) result s = fail order id (resource_limit limit) s
  finish id none result s = finish_result id result s

  module _ {W : Type 0} (execute : Executor Kind W) where
    unfoldable pub execute_item :
        W
        → ℕ
        → Option (ScheduledExpansion Kind)
        → ExpansionScheduler Kind
        → Ended (W × ExpansionScheduler Kind)
    execute_item world id none s = violated
    execute_item world id (some r) s =
        let (result, resources, world') = execute world r (new_resources s.limits) in
        and_then
          (finish id resources.exhausted result
            (record s { work = update_at id (with_resources resources.usage) s.work }))
          (λ after. returned (world', after))

    unfoldable pub run_next :
        (W → ExpansionScheduler Kind → Ended (W × ExpansionScheduler Kind))
        → W
        → Option ℕ × ExpansionScheduler Kind
        → Ended (W × ExpansionScheduler Kind)
    run_next again world (none, s) = returned (world, s)
    run_next again world (some id, s) =
        and_then (execute_item world id (get_elem? s.work id) s)
          (λ (world', after). again world' after)

    unfoldable pub run : ℕ → W → ExpansionScheduler Kind → Ended (W × ExpansionScheduler Kind)
    run zero world s = out_of_fuel
    run (suc fuel) world s = and_then (next_ready_all order s) (run_next (run fuel) world)
