-- ===== src/Expansion/Schedule/Invocations.antt =====
-- src/expansion/engine.rs:570-601: an invocation on an idle scheduler.
use elamite.Base.{
  dec_lt, ℕ, zero, suc, ◌<◌, ◌≤◌, ◌≡◌, refl, sym, ap, ◌∙◌, Bool, true, false, ◌⊎◌, inl, inr, List,
  Option, none, some, arith, get_elem?, get_elem?-some, get_elem?-lt, length, ◌==◌, ==_refl, ◌^◌,
  subst,
}
use elamite.Expansion.Meter.{ExecutionResources, new_resources}
use elamite.Expansion.Chain.{active, ExpansionRequest, ScheduledExpansion}
use elamite.Expansion.Ready.{LocationOrder}
use elamite.Expansion.Defs.{returned, and_then, ExpansionScheduler, is_completed, is_recovered}
use elamite.Expansion.Queue.{enqueue}
use elamite.Expansion.Run.{Executor, is_internal, next_ready_all, execute_item, run_next, run}
use elamite.Expansion.Engine.{
  Interpreted, valued, erred, Invocation, invoked_with, answer, take_arguments, execute_work,
  evaluate,
}
use elamite.Expansion.Schedule.Keys.{IsReflexive}
use elamite.Expansion.Schedule.Sound.{Ensures, and_then-Ensures, Ensures-map}
use elamite.Expansion.Schedule.Count.{
  is_closed, open_count, zero-open_count, open_count-zero, Fixed, Fixed-trans,
}
use elamite.Expansion.Schedule.Grown.{IsSound, Enqueued, Grown}
use elamite.Expansion.Schedule.Select.{Selected, next_ready_all-Ensures}
use elamite.Expansion.Schedule.Finish.{Finished, IsProper}
use elamite.Expansion.Schedule.Settled.{Sound-IsSettled}
use elamite.Expansion.Schedule.Runs.{Returns, Ensures-Returns, enqueue-Ensures}
use elamite.Expansion.Schedule.Fixpoint.{Executed, execute_item-Ensures}

module _ {Kind : Type 0} where
  -- A sound scheduler that has nothing left to do, within its limit of nodes.
  abbrev pub IsIdle : ExpansionScheduler Kind → Type 0
  IsIdle s =
      IsSound s × (open_count s.work ≡ 0) × (s.usage.generated_nodes ≤ s.limits.generated_nodes)

  -- The scheduler became idle again; what was completed or recovered is unchanged.
  abbrev pub IdleAfter : ExpansionScheduler Kind → ExpansionScheduler Kind → Type 0
  IdleAfter s t =
      IsIdle t × Fixed s.work t.work × (length t.work ≡ length s.work) × (t.limits ≡ s.limits)

  active_open :
      (work : List (ScheduledExpansion Kind)) (j : ℕ) (r : ScheduledExpansion Kind)
      → get_elem? work j ≡ some r
      → r.state ≡ active
      → open_count work ≡ 0
      → ⊥
  unfolding is_completed is_recovered
  active_open work j r e st none_left =
      let closed = zero-open_count work j r none_left e in
      let closed_active : is_closed active ≡ true = subst (λ z. is_closed z ≡ true) st closed in cc

module _ {A V E Kind : Type 0} (same_kind : Kind → Kind → Bool) (order : LocationOrder)
    (law : IsReflexive order) (nodes_of : V → ℕ)
    (interpret : A → ExecutionResources → Interpreted V E × ExecutionResources) where
  abbrev executor : ℕ → Executor Kind (Invocation A V E)
  executor work =
      execute_work {A = A} {V = V} {E = E} {Kind = Kind} same_kind order nodes_of interpret work

  -- The state after the one execution.
  abbrev pub once : A → ExecutionResources → Invocation A V E
  once arguments resources =
      (take_arguments same_kind order nodes_of interpret (some arguments) (invoked_with arguments)
        resources).2

  answer-IsProper :
      (o : Interpreted V E) (state : Invocation A V E)
      → IsProper 0 (answer {Kind = Kind} same_kind order nodes_of interpret o state).0
  unfolding answer is_internal
  answer-IsProper (valued v) state = (tt, omega arith)
  answer-IsProper (erred e) state = refl

  execute_work-own :
      (work : ℕ) (arguments : A) (r : ScheduledExpansion Kind) (resources : ExecutionResources)
      → r.id ≡ work
      → IsProper 0 (executor work (invoked_with arguments) r resources).0
        × ((executor work (invoked_with arguments) r resources).2 ≡ once arguments resources)
  unfolding execute_work take_arguments invoked_with
  execute_work-own work arguments r resources is =
      let test : r.id == work ≡ true = rw is (==_refl work) in
      rw test (answer-IsProper (interpret arguments resources).0 _, refl)

  -- A run of an idle scheduler does nothing.
  abbrev Rested :
      Invocation A V E
      → ExpansionScheduler Kind
      → Invocation A V E × ExpansionScheduler Kind
      → Type 0
  Rested state s (after, t) = (after ≡ state) × IdleAfter s t

  run-idle :
      (work fuel : ℕ) (state : Invocation A V E) (s : ExpansionScheduler Kind)
      → IsIdle s
      → length s.work ≤ 2 ^ 32
      → Ensures (Rested state s) (run same_kind order (executor work) (suc fuel) state s)
  unfolding run run_next
  run-idle work fuel state s (sound, none_left, nodes) room =
      and_then-Ensures (Selected s) (Rested state s) (next_ready_all order s) _
        (next_ready_all-Ensures order law s sound room) (λ a h. rested a h)
    where
      rested :
          (a : Option ℕ × ExpansionScheduler Kind)
          → Selected s a
          → Ensures (Rested state s) (
              run_next same_kind order
                (executor work)
                (run same_kind order (executor work) fuel)
                state
                a)
      rested (none, t) (still, empty, limits, usage, count, fixed, opened) =
          let most = ap (λ l. l.generated_nodes) limits in
          let used = ap (λ u. u.generated_nodes) usage in
          (
            refl,
            (
              (still, omega (arith, opened, none_left), omega (arith, most, used, nodes)),
              fixed,
              count,
              limits,
            ),
          )
      rested (some j, t)
            ((h, tally, (r, e, st)), limits, executions, left, same, count, fixed, opened) =
          absurd (active_open t.work j r e st (omega (arith, opened, none_left)))

  run-idle-positive :
      (work fuel : ℕ) (state : Invocation A V E) (s : ExpansionScheduler Kind)
      → 0 < fuel
      → IsIdle s
      → length s.work ≤ 2 ^ 32
      → Ensures (Rested state s) (run same_kind order (executor work) fuel state s)
  run-idle-positive work zero state s some_left idle room = absurd (omega (arith, some_left))
  run-idle-positive work (suc fuel) state s some_left idle room =
      run-idle work fuel state s idle room

  answer-taken :
      (o : Interpreted V E) (state : Invocation A V E)
      → (answer {Kind = Kind} same_kind order nodes_of interpret o state).1.taken_twice
        ≡ state.taken_twice
  unfolding answer
  answer-taken (valued v) state = refl
  answer-taken (erred e) state = refl

  once-taken :
      (arguments : A) (resources : ExecutionResources)
      → (once arguments resources).taken_twice ≡ false
  unfolding take_arguments invoked_with
  once-taken arguments resources = answer-taken (interpret arguments resources).0 _

  -- The work is new, the scheduler is idle again, what was completed or recovered is unchanged, and
  -- the interpreter was run once on the arguments, or not at all.
  abbrev pub Evaluated :
      A → ExpansionScheduler Kind → ℕ × Invocation A V E × ExpansionScheduler Kind → Type 0
  Evaluated arguments s (work, state, u) =
      (work ≡ length s.work)
      × IsIdle u
      × Fixed s.work u.work
      × (length u.work ≤ suc (length s.work))
      × (u.limits ≡ s.limits)
      × (state.taken_twice ≡ false)
      × ((state ≡ invoked_with arguments) ⊎ (state ≡ once arguments (new_resources s.limits)))

  abbrev After : A → ExpansionScheduler Kind → Invocation A V E × ExpansionScheduler Kind → Type 0
  After arguments s (state, u) = Evaluated arguments s (length s.work, state, u)

  module _ (arguments : A) (s : ExpansionScheduler Kind) (idle : IsIdle s)
      (room : suc (length s.work) < 2 ^ 32) (t : ExpansionScheduler Kind) (sound : IsSound t)
      (grown : Grown 1 s t) where
    -- Only the new item can be active.
    selected_new :
        (i : ℕ) (u : ExpansionScheduler Kind) (r : ScheduledExpansion Kind)
        → get_elem? u.work i ≡ some r
        → r.state ≡ active
        → Fixed t.work u.work
        → length u.work ≡ length t.work
        → i ≡ length s.work
    unfolding is_completed is_recovered
    selected_new i u r e st fixed count = elim (dec_lt i (length s.work)) [
      | yes old ↦
          let (x, at) = get_elem?-some s.work i old in
          let closed = zero-open_count s.work i x idle.1 at in
          let same : x ≡ r = let kept = fixed i x (grown.fixed i x at closed) closed in cc in
          let done : is_closed active ≡ true =
            subst (λ z. is_closed z ≡ true) (ap (λ z. z.state) same ∙ st) closed in
          cc
      | no new ↦
          let inside = get_elem?-lt u.work i r e in omega (arith, inside, count, grown.count, new)
    ]

    -- After the one execution the scheduler is idle, and stays so.
    rest_of_run :
        (fuel : ℕ) (u v : ExpansionScheduler Kind) (state : Invocation A V E)
        → 0 < fuel
        → state ≡ once arguments (new_resources s.limits)
        → Finished 0 u v
        → Fixed s.work u.work
        → length u.work ≤ suc (length s.work)
        → u.limits ≡ s.limits
        → open_count u.work ≤ 1
        → Ensures (After arguments s) (run same_kind order (executor (length s.work)) fuel state v)
    rest_of_run fuel u v state left is_state
          (sound_v, limits_v, executions_v, nodes_v, count_v, fixed_v, opened_v) fixed count limits
          opened =
        Ensures-map (Rested state v) (After arguments s)
          (run same_kind order (executor (length s.work)) fuel state v)
          (run-idle-positive (length s.work) fuel state v left
            (
              sound_v,
              omega (arith, opened_v, opened),
              subst (λ l. v.usage.generated_nodes ≤ l.generated_nodes) (sym limits_v) nodes_v,
            )
            (omega (arith, count_v, count, room)))
          (λ (last, w) (same_state, (idle_w, fixed_w, count_w, limits_w)). (
            refl,
            idle_w,
            Fixed-trans s.work v.work w.work (Fixed-trans s.work u.work v.work fixed fixed_v)
                fixed_w,
            omega (arith, count_w, count_v, count),
            limits_w ∙ (limits_v ∙ limits),
            subst (λ z. z.taken_twice ≡ false) (sym (same_state ∙ is_state))
                (once-taken arguments (new_resources s.limits)),
            inr (same_state ∙ is_state),
          ))

    first_turn :
        (a : Option ℕ × ExpansionScheduler Kind)
        → Selected t a
        → Ensures (After arguments s) (
            run_next same_kind order
              (executor (length s.work))
              (run same_kind order (executor (length s.work)) t.limits.executions)
              (invoked_with arguments)
              a)
    unfolding run_next invoked_with
    first_turn (none, u) (still, empty, limits, usage, count, fixed, opened) =
        let settled = Sound-IsSettled u (still.0) empty in
        let most = ap (λ l. l.generated_nodes) (limits ∙ grown.limits) in
        let used = ap (λ z. z.generated_nodes) usage ∙ grown.generated_nodes in
        let nodes = idle.2 in
        (
          refl,
          (
            still,
            open_count-zero u.work (λ j r e. (settled j r e).0),
            omega (arith, most, used, nodes),
          ),
          Fixed-trans s.work t.work u.work grown.fixed fixed,
          omega (arith, count, grown.count),
          limits ∙ grown.limits,
          refl,
          inl refl,
        )
    first_turn (some i, u)
          ((h, tally, (r, e, st)), limits, executions, left, same, count, fixed, opened) =
        let (proper, made) =
          execute_work-own (length s.work) arguments r (new_resources u.limits)
            ((h.items i r e).0.2 ∙ selected_new i u r e st fixed count) in
        let all_limits = limits ∙ grown.limits in
        let most = ap (λ l. l.generated_nodes) all_limits in
        let nodes = idle.2 in
        let none_left = idle.1 in
        let spent = grown.generated_nodes in
        let more = grown.open_items in
        let longer = grown.count in
        let After_one =
          Executed 0
            (executor (length s.work) (invoked_with arguments) r (new_resources u.limits)).2 u in
        and_then-Ensures After_one (After arguments s)
          (execute_item same_kind order (executor (length s.work)) (invoked_with arguments) i
            (get_elem? u.work i) u)
          _
          (subst
            (λ o. Ensures After_one (
              execute_item same_kind order (executor (length s.work)) (invoked_with arguments) i o
                u))
            (sym e)
            (execute_item-Ensures same_kind order law 0 (executor (length s.work))
              (invoked_with arguments) i u r h tally e st (omega (arith, most, nodes, same, spent))
              proper (omega (arith, room, count, longer))))
          (λ (state, v) (is_state, finished).
            rest_of_run t.limits.executions u v state (omega (arith, left))
              (is_state ∙ (made ∙ ap (λ l. once arguments (new_resources l)) all_limits)) finished
              (Fixed-trans s.work t.work u.work grown.fixed fixed) (omega (arith, count, longer))
              all_limits (omega (arith, opened, more, none_left)))

  run-After :
      (arguments : A) (s : ExpansionScheduler Kind)
      → IsIdle s
      → suc (length s.work) < 2 ^ 32
      → (t : ExpansionScheduler Kind) → IsSound t
      → Grown 1 s t
      → Ensures (After arguments s) (
          run same_kind order
            (executor (length s.work))
            (suc t.limits.executions)
            (invoked_with arguments)
            t)
  unfolding run
  run-After arguments s idle room t sound grown =
      and_then-Ensures (Selected t) (After arguments s) (next_ready_all order t) _
        (next_ready_all-Ensures order law t sound
          (let longer = grown.count in omega (arith, longer, room)))
        (first_turn arguments s idle room t sound grown)

  -- If the order of locations is reflexive, an invocation of an idle scheduler (a sound one within its
  -- limit of generated nodes, whose items are all completed or recovered) with fewer than 2^32 - 1
  -- items returns. The work that it enqueues is new, and no other work is executed, so that the answer
  -- for other work, which `fail` would refuse, is never given: the interpreter is run on the arguments
  -- at most once, with new resources of the limits, and the arguments are not taken twice. The
  -- scheduler is idle again, with the same limits and at most one item more, and what was completed or
  -- recovered is unchanged.
  pub evaluate-Evaluated :
      (request : ExpansionRequest Kind) (arguments : A) (s : ExpansionScheduler Kind)
      → IsIdle s
      → suc (length s.work) < 2 ^ 32
      → Returns
          (evaluate same_kind order nodes_of interpret request arguments s)
          (Evaluated arguments s)
  unfolding evaluate
  evaluate-Evaluated request arguments s idle room =
      Ensures-Returns (Evaluated arguments s)
        (evaluate same_kind order nodes_of interpret request arguments s)
        (and_then-Ensures (Enqueued s) (Evaluated arguments s) (enqueue same_kind order request s) _
          (enqueue-Ensures same_kind order law request s (idle.0) room)
          (λ (work, t) (is, sound, grown).
            subst
              (λ w. Ensures (Evaluated arguments s) (
                and_then
                  (run same_kind order (executor w) (suc t.limits.executions)
                    (invoked_with arguments) t)
                  (λ (state, u). returned (w, state, u))))
              (sym is)
              (and_then-Ensures (After arguments s) (Evaluated arguments s)
                (run same_kind order (executor (length s.work)) (suc t.limits.executions)
                  (invoked_with arguments) t)
                _ (run-After arguments s idle room t sound grown) (λ (state, u) after. after))))
