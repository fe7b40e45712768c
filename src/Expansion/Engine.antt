-- ===== src/Expansion/Engine.antt =====
-- src/expansion/engine.rs:570-631: one invocation through the scheduler. The values of the
-- interpreter, its run and the count of nodes are parameters; a second `take` of the arguments, which
-- would fail its `expect`, sets `taken_twice`.
use elamite.Base.{ℕ, suc, Bool, true, false, [], Option, none, some, if◌then◌else◌, ◌==◌}
use elamite.Expansion.Meter.{ExecutionResources}
use elamite.Expansion.Chain.{ExpansionRequest}
use elamite.Expansion.Ready.{LocationOrder}
use elamite.Expansion.Defs.{
  Ended, returned, and_then, dependency, execution_failure, ExpansionScheduler,
}
use elamite.Expansion.Queue.{enqueue}
use elamite.Expansion.Run.{ExecutionResult, produced, failed, Executor, run}

pub data Interpreted (V E : Type 0) : Type 0 where
  valued : V → Interpreted V E
  erred : E → Interpreted V E

pub record Invocation (A V E : Type 0) : Type 0 where
  pub arguments : Option A
  pub result : Option V
  pub failure : Option E
  pub taken_twice : Bool

unfoldable pub value_unless : {V E : Type 0} → Option E → Option V → Option V
value_unless (some _) result = none
value_unless none result = result

module _ {A V E : Type 0} where
  unfoldable pub invoked_with : A → Invocation A V E
  invoked_with arguments = record {
    arguments = some arguments;
    result = none;
    failure = none;
    taken_twice = false;
  }

  -- The value with which the expansion goes on, if it does.
  unfoldable pub invocation_value : Invocation A V E → Option V
  invocation_value state = value_unless state.failure state.result

  module _ {Kind : Type 0} (same_kind : Kind → Kind → Bool) (order : LocationOrder)
      (nodes_of : V → ℕ)
      (interpret : A → ExecutionResources → Interpreted V E × ExecutionResources) where
    unfoldable pub answer :
        Interpreted V E → Invocation A V E → ExecutionResult Kind × Invocation A V E
    answer (valued v) state = (
      produced (record { generated_nodes = nodes_of v; invocations = []; definitions = [] }),
      record state { result = some v },
    )
    answer (erred e) state = (failed execution_failure, record state { failure = some e })

    unfoldable pub take_arguments :
        Option A
        → Invocation A V E
        → ExecutionResources
        → ExecutionResult Kind × ExecutionResources × Invocation A V E
    take_arguments none state resources =
        (failed execution_failure, resources, record state { taken_twice = true })
    take_arguments (some arguments) state resources =
        let (outcome, spent) = interpret arguments resources in
        let (result, after) = answer outcome (record state { arguments = none }) in
        (result, spent, after)

    unfoldable pub execute_work : ℕ → Executor Kind (Invocation A V E)
    execute_work work state scheduled resources =
        if scheduled.id == work
        then take_arguments state.arguments state resources
        else (failed dependency, resources, state)

    -- A unit of fuel for each execution of the limits and one more.
    unfoldable pub evaluate :
        ExpansionRequest Kind
        → A
        → ExpansionScheduler Kind
        → Ended (ℕ × Invocation A V E × ExpansionScheduler Kind)
    evaluate request arguments s = and_then (enqueue same_kind order request s) (λ (work, t).
        and_then
          (run same_kind order (execute_work work) (suc t.limits.executions)
            (invoked_with arguments) t)
          (λ (state, u). returned (work, state, u)))
