-- ===== src/Expansion/Schedule/Runs.antt =====
-- The scheduler from its creation to the end of a run.
use elamite.Base.{
  ℕ, suc, ◌+◌, ◌*◌, ◌<◌, ◌≤◌, ◌≡◌, refl, sym, ap, ◌∙◌, Bool, List, [], Option, none, arith, length,
  ◌^◌, subst,
}
use elamite.Expansion.Meter.{ExpansionLimits, ResourceLimitKind}
use elamite.Expansion.Chain.{ExpansionRequest}
use elamite.Expansion.Ready.{LocationOrder}
use elamite.Expansion.Defs.{
  Ended, returned, overflow, violated, out_of_fuel, stage, ExpansionScheduler,
}
use elamite.Expansion.Queue.{DefinitionExpansions, with_limits, enqueue, enqueue_definition}
use elamite.Expansion.Run.{Executor, ExecutionResult, next_ready_all, finish, run}
use elamite.Expansion.Schedule.Keys.{IsReflexive}
use elamite.Expansion.Schedule.Sound.{Ensures, edges_ascend}
use elamite.Expansion.Schedule.Enqueue.{enqueue_internal-Ensures, enqueue_definition_after-Ensures}
use elamite.Expansion.Schedule.Grown.{
  Grown, IsSound, HasRoles, request_count, Enqueued, AllEnqueued,
}
use elamite.Expansion.Schedule.Select.{IsActive, Selected, next_ready_all-Ensures}
use elamite.Expansion.Schedule.Finish.{IsProper, Finished, finish-Ensures}
use elamite.Expansion.Schedule.Fixpoint.{Ran, IsProperExecutor, run-Ensures}
use elamite.Expansion.Schedule.Settled.{IsSettled, Sound-IsSettled}

-- The call returns a value with the property.
abbrev pub Returns : {A : Type 0} → Ended A → (A → Type 0) → Type 0
Returns {A = A} m P = (a : A) × (m ≡ returned a) × P a

pub Ensures-Returns : {A : Type 0} (P : A → Type 0) (m : Ended A) → Ensures P m → Returns m P
Ensures-Returns P (returned a) h = (a, refl, h)
Ensures-Returns P overflow h = absurd h
Ensures-Returns P violated h = absurd h
Ensures-Returns P out_of_fuel h = absurd h

returned-inv : {A : Type 0} (a b : A) → returned a ≡ returned b → a ≡ b
returned-inv a b h = cc

-- What is known of the value.
pub Returns-at :
    {A : Type 0} (P : A → Type 0) (m : Ended A) (a : A) → m ≡ returned a → Returns m P → P a
Returns-at P m a is (b, made, h) = subst P (returned-inv b a (sym made ∙ is)) h

module _ {Kind W : Type 0} where
  -- The scheduler at its fixed point, within its limits.
  abbrev pub AtFixpoint : ExpansionLimits → W × ExpansionScheduler Kind → Type 0
  AtFixpoint limits (_, t) =
      IsSettled t
      × (t.ready ≡ [])
      × (t.usage.executions ≤ limits.executions)
      × (t.usage.generated_nodes ≤ limits.generated_nodes)

  -- The schedulers that are reached from a new one by enqueueing and running.
  module _ (same_kind : Kind → Kind → Bool) (order : LocationOrder) (k : ℕ)
      (execute : Executor Kind W) where
    pub data IsReached (limits : ExpansionLimits) : ExpansionScheduler Kind → Type 0 where
      new : IsReached limits (with_limits limits)
      one_more :
          {t : ExpansionScheduler Kind} (s : ExpansionScheduler Kind)
          (request : ExpansionRequest Kind) (id : ℕ)
          → IsReached limits s
          → suc (length s.work) < 2 ^ 32
          → enqueue same_kind order request s ≡ returned (id, t)
          → IsReached limits t
      definition_more :
          {t : ExpansionScheduler Kind} (s : ExpansionScheduler Kind)
          (d : DefinitionExpansions Kind) (ids : List ℕ)
          → IsReached limits s
          → HasRoles d
          → request_count d + length s.work < 2 ^ 32
          → enqueue_definition same_kind order d s ≡ returned (ids, t)
          → IsReached limits t
      ran :
          {t : ExpansionScheduler Kind} (s : ExpansionScheduler Kind) (left : ℕ) (world world' : W)
          → IsReached limits s
          → left + s.usage.executions ≡ limits.executions
          → left * k + length s.work < 2 ^ 32
          → run same_kind order execute (suc left) world s ≡ returned (world', t)
          → IsReached limits t

-- A new scheduler is sound.
pub with_limits-IsSound :
    {Kind : Type 0} (limits : ExpansionLimits) → IsSound {Kind = Kind} (with_limits limits)
unfolding with_limits edges_ascend
with_limits-IsSound limits =
    (record { items = λ j r e. cc; ascend = refl; keyed = tt }, omega arith)

module _ {Kind : Type 0} (order : LocationOrder) (law : IsReflexive order) where
  -- If the order of locations is reflexive, `next_ready` on a sound scheduler of at most 2^32 items
  -- returns. With no id, the ready set is empty, the scheduler is sound, and its usage is unchanged.
  -- With an id, that item is active, its dependencies are completed, and the scheduler is sound but
  -- for it; an execution is counted, and there was one left. The limits and the count of items
  -- stay, as does every item that is completed or recovered, and no more items are neither.
  pub next_ready-Selected :
      (s : ExpansionScheduler Kind)
      → IsSound s
      → length s.work ≤ 2 ^ 32
      → Returns (next_ready_all order s) (Selected s)
  next_ready-Selected s sound room =
      Ensures-Returns (Selected s) (next_ready_all order s)
        (next_ready_all-Ensures order law s sound room)

module _ {Kind : Type 0} (same_kind : Kind → Kind → Bool) (order : LocationOrder)
    (law : IsReflexive order) where
  pub enqueue-Ensures :
      (request : ExpansionRequest Kind) (s : ExpansionScheduler Kind)
      → IsSound s
      → suc (length s.work) < 2 ^ 32
      → Ensures (Enqueued s) (enqueue same_kind order request s)
  unfolding enqueue
  enqueue-Ensures request s sound room =
      enqueue_internal-Ensures same_kind order law request none [] stage s sound room (λ p is. cc)
        refl

  -- If the order of locations is reflexive, `enqueue` on a sound scheduler with fewer than 2^32 - 1
  -- items returns the next id, and the scheduler after it is sound, with one item more and the same
  -- limits, executions and generated nodes; every item that was completed or recovered stays.
  pub enqueue-IsSound :
      (request : ExpansionRequest Kind) (s : ExpansionScheduler Kind)
      → IsSound s
      → suc (length s.work) < 2 ^ 32
      → Returns (enqueue same_kind order request s) (Enqueued s)
  enqueue-IsSound request s sound room =
      Ensures-Returns (Enqueued s) (enqueue same_kind order request s)
        (enqueue-Ensures request s sound room)

  -- If the order of locations is reflexive, and the attributes and derives of a definition have their
  -- roles, `enqueue_definition` on a sound scheduler returns, where fewer than 2^32 items come of it,
  -- one id for each request, and the scheduler after it is sound, with so many items more and the same
  -- limits, executions and generated nodes; every item that was completed or recovered stays. In a
  -- sound scheduler the parents and dependencies of an item come before it and have an edge to it; a
  -- pending item has no recovered dependency, and one that is not completed; a ready one is in the
  -- ready set, which holds no other item and none twice, and its dependencies are completed, as are
  -- those of a completed one; none is active; and there are no more recoveries than items that are
  -- completed or recovered.
  pub enqueue_definition-IsSound :
      (d : DefinitionExpansions Kind) (s : ExpansionScheduler Kind)
      → HasRoles d
      → IsSound s
      → request_count d + length s.work < 2 ^ 32
      → Returns (enqueue_definition same_kind order d s) (AllEnqueued (request_count d) s)
  unfolding enqueue_definition
  enqueue_definition-IsSound d s roles sound room =
      Ensures-Returns (AllEnqueued (request_count d) s) (enqueue_definition same_kind order d s) (
        enqueue_definition_after-Ensures same_kind order law none d s sound room (λ p is. cc) roles)

  -- If the order of locations is reflexive, the end of a turn of `run` (the failure by a spent
  -- resource, `complete` or `fail`) returns on a scheduler that is sound but for an active item, where
  -- the result has the roles that are asserted, no internal reason and at most k requests, fewer than
  -- 2^32 items come of it, and the generated nodes are within their limit. The scheduler after it is
  -- sound, with the same limits and executions, at most k items more, and no more generated nodes than
  -- the limit; every item that was completed or recovered stays, and but for k new ones there are
  -- fewer that are neither.
  pub finish-IsSound :
      (k id : ℕ) (s : ExpansionScheduler Kind) (limit : Option ResourceLimitKind)
      (result : ExecutionResult Kind)
      → IsActive id s
      → s.usage.generated_nodes ≤ s.limits.generated_nodes
      → IsProper k result
      → k + length s.work < 2 ^ 32
      → Returns (finish same_kind order id limit result s) (Finished k s)
  finish-IsSound k id s limit result (h, tally, (r, e, st)) nodes proper room =
      Ensures-Returns (Finished k s) (finish same_kind order id limit result s)
        (finish-Ensures same_kind order law id s r h tally e st nodes k limit result proper room)

  -- Between two calls: sound, and within its limits.
  pub record IsUsable (limits : ExpansionLimits) (s : ExpansionScheduler Kind) : Type 0 where
    pub sound : IsSound s
    same_limits : s.limits ≡ limits
    executions : s.usage.executions ≤ limits.executions
    generated_nodes : s.usage.generated_nodes ≤ limits.generated_nodes

  Grown-IsUsable :
      (limits : ExpansionLimits) (n : ℕ) (s t : ExpansionScheduler Kind)
      → IsUsable limits s
      → IsSound t
      → Grown n s t
      → IsUsable limits t
  Grown-IsUsable limits n s t h sound grown = record {
    sound = sound;
    same_limits = grown.limits ∙ h.same_limits;
    executions = subst (λ z. z ≤ limits.executions) (sym grown.executions) h.executions;
    generated_nodes =
        subst (λ z. z ≤ limits.generated_nodes) (sym grown.generated_nodes) h.generated_nodes;
  }

  with_limits-IsUsable : (limits : ExpansionLimits) → IsUsable limits (with_limits limits)
  unfolding with_limits
  with_limits-IsUsable limits = record {
    sound = with_limits-IsSound limits;
    same_limits = refl;
    executions = omega arith;
    generated_nodes = omega arith;
  }

  module _ {W : Type 0} (k : ℕ) (execute : Executor Kind W) where
    run-Ran :
        (limits : ExpansionLimits) (s : ExpansionScheduler Kind) (left : ℕ) (world : W)
        → IsUsable limits s
        → IsProperExecutor k execute
        → left + s.usage.executions ≡ limits.executions
        → left * k + length s.work < 2 ^ 32
        → Returns (run same_kind order execute (suc left) world s) (Ran limits)
    run-Ran limits s left world h proper is room =
        let total = ap (λ l. l.executions) h.same_limits in
        let total_nodes = ap (λ l. l.generated_nodes) h.same_limits in
        let nodes = h.generated_nodes in
        Ensures-Returns (Ran limits) (run same_kind order execute (suc left) world s) (
          subst (λ l. Ensures (Ran l) (run same_kind order execute (suc left) world s))
            h.same_limits
            (run-Ensures same_kind order law k execute proper (suc left) left world s (omega arith)
              (omega (arith, total, is)) h.sound (omega (arith, nodes, total_nodes)) room))

    module _ (proper : IsProperExecutor k execute) where
      pub IsReached-IsUsable :
          (limits : ExpansionLimits) (s : ExpansionScheduler Kind)
          → IsReached same_kind order k execute limits s
          → IsUsable limits s
      IsReached-IsUsable limits _ new = with_limits-IsUsable limits
      IsReached-IsUsable limits _ (one_more {t = t} s request id h room is) =
          let before = IsReached-IsUsable limits s h in
          let ((i, u), made, (_, sound, grown)) = enqueue-IsSound request s before.sound room in
          let same : u ≡ t = ap (λ p. p.1) (returned-inv (i, u) (id, t) (sym made ∙ is)) in
          subst (IsUsable limits) same (Grown-IsUsable limits 1 s u before sound grown)
      IsReached-IsUsable limits _ (definition_more {t = t} s d ids h roles room is) =
          let before = IsReached-IsUsable limits s h in
          let ((others, u), made, (_, sound, grown)) =
            enqueue_definition-IsSound d s roles before.sound room in
          let same : u ≡ t = ap (λ p. p.1) (returned-inv (others, u) (ids, t) (sym made ∙ is)) in
          subst (IsUsable limits) same
            (Grown-IsUsable limits (request_count d) s u before sound grown)
      IsReached-IsUsable limits _ (ran {t = t} s left world world' h spent room is) =
          let ((w, u), made, (sound, empty, limits_same, executions, nodes)) =
            run-Ran limits s left world (IsReached-IsUsable limits s h) proper spent room in
          let same : u ≡ t = ap (λ p. p.1) (returned-inv (w, u) (world', t) (sym made ∙ is)) in
          subst (IsUsable limits) same (record {
            sound = sound;
            same_limits = limits_same;
            executions = executions;
            generated_nodes = nodes;
          })

      -- If the order of locations is reflexive, and each result of the executor has the roles that are
      -- asserted, no internal reason and at most k requests, then from a scheduler that is reached by
      -- enqueueing and running, a run returns, with the fuel of the executions left and one more, where
      -- fewer than 2^32 items come of it. After it nothing is ready, each item is completed or
      -- recovered, the dependencies of a completed one are completed, and the executions and the
      -- generated nodes are within their limits.
      pub run-AtFixpoint :
          (limits : ExpansionLimits) (s : ExpansionScheduler Kind) (left : ℕ) (world : W)
          → IsReached same_kind order k execute limits s
          → left + s.usage.executions ≡ limits.executions
          → left * k + length s.work < 2 ^ 32
          → Returns (run same_kind order execute (suc left) world s) (AtFixpoint limits)
      run-AtFixpoint limits s left world reached is room =
          let ((world', t), made, (sound, empty, same, executions, nodes)) =
            run-Ran limits s left world (IsReached-IsUsable limits s reached) proper is room in
          ((world', t), made, (Sound-IsSettled t (sound.0) empty, empty, executions, nodes))
