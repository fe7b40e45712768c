-- ===== src/Expansion/Schedule/Fixpoint.antt =====
-- src/expansion/scheduler.rs:488-511: the run.
use native.Mathlib.Nat.{suc-mul}
use elamite.Base.{
  ℕ, zero, suc, ◌+◌, ◌*◌, ◌<◌, ◌≤◌, ◌≡◌, refl, sym, ap, ◌∙◌, Bool, false, inr, [], Option, none,
  some, arith, get_elem?, length, ◌^◌, subst,
}
use elamite.Expansion.Meter.{
  ExpansionLimits, ExecutionResources, ExecutionResourceUsage, new_resources,
}
use elamite.Expansion.Chain.{active, ScheduledExpansion}
use elamite.Expansion.Ready.{LocationOrder}
use elamite.Expansion.Defs.{Ended, ExpansionScheduler, is_completed, is_recovered, update_at}
use elamite.Expansion.Run.{
  Executor, with_resources, next_ready_all, finish, execute_item, run_next, run,
}
use elamite.Expansion.Schedule.Work.{get_elem?-update_at, length-update_at}
use elamite.Expansion.Schedule.Keys.{IsReflexive}
use elamite.Expansion.Schedule.Keyed.{Keyed-update_at}
use elamite.Expansion.Schedule.Sound.{
  Sound, Ensures, and_then-Ensures, nobody, also, StateSound, CompletedAt-kept,
}
use elamite.Expansion.Schedule.Change.{Sound-change}
use elamite.Expansion.Schedule.Count.{Fixed-trans, Fixed-update_at, open_count-same}
use elamite.Expansion.Schedule.Mark.{is_keyless}
use elamite.Expansion.Schedule.Grown.{IsSound, Tallied}
use elamite.Expansion.Schedule.Select.{IsActive, Selected, next_ready_all-Ensures}
use elamite.Expansion.Schedule.Finish.{IsProper, Finished, finish-Ensures}

module _ {Kind : Type 0} (order : LocationOrder) (law : IsReflexive order) where
  -- The resources of an active item are no part of what is kept.
  with_resources-IsActive :
      (id : ℕ) (usage : ExecutionResourceUsage) (s : ExpansionScheduler Kind)
      → IsActive id s
      → IsActive id (record s { work = update_at id (with_resources usage) s.work })
  unfolding is_completed is_recovered
  with_resources-IsActive id usage s (h, tally, (r, e, st)) =
      let unfinished : is_completed r.state ≡ false = rw st refl in
      let (done, held) =
        subst (StateSound (also id nobody) nobody s.work s.ready id r.dependencies) st
          (h.items id r e).2 in
      (
        Sound-change (also id nobody) nobody (also id nobody) nobody s id r (with_resources usage)
            s.ready h e (refl, refl, refl, refl) unfinished
            (Keyed-update_at s.work s.ready id (with_resources usage)
              (is_keyless order law s id r h.keyed e (λ is. cc)) h.keyed)
            (λ j apart a. a) (λ j apart u. u) (λ j apart m. m) (inr (refl, refl))
            (subst
              (StateSound (also id nobody) nobody (update_at id (with_resources usage) s.work)
                s.ready id r.dependencies)
              (sym st)
              (
                (λ d m.
                    CompletedAt-kept (with_resources usage) id s.work r e unfinished d (done d m)),
                held,
              )),
        omega (
          arith,
          tally,
          open_count-same (with_resources usage) id s.work r e refl,
          length-update_at (with_resources usage) id s.work,
        ),
        (with_resources usage r, get_elem?-update_at (with_resources usage) id s.work r e, st),
      )

module _ {Kind W : Type 0} where
  -- The scheduler after a run: sound, with no ready item, within its limits.
  abbrev pub Ran : ExpansionLimits → W × ExpansionScheduler Kind → Type 0
  Ran limits (_, t) =
      IsSound t
      × (t.ready ≡ [])
      × (t.limits ≡ limits)
      × (t.usage.executions ≤ limits.executions)
      × (t.usage.generated_nodes ≤ limits.generated_nodes)

  -- The executor has proper results, with at most so many requests each.
  abbrev pub IsProperExecutor : ℕ → Executor Kind W → Type 0
  IsProperExecutor k execute =
      (world : W) (r : ScheduledExpansion Kind) (resources : ExecutionResources)
      → IsProper k (execute world r resources).0

  -- The state of the executor after an item, and the scheduler.
  abbrev pub Executed : ℕ → W → ExpansionScheduler Kind → W × ExpansionScheduler Kind → Type 0
  Executed k after s (world, t) = (world ≡ after) × Finished k s t

  pub execute_item-Ensures :
      (same_kind : Kind → Kind → Bool) (order : LocationOrder) (law : IsReflexive order) (k : ℕ)
      (execute : Executor Kind W) (world : W) (id : ℕ) (s : ExpansionScheduler Kind)
      (r : ScheduledExpansion Kind)
      → Sound (also id nobody) nobody s
      → Tallied s
      → get_elem? s.work id ≡ some r
      → r.state ≡ active
      → s.usage.generated_nodes ≤ s.limits.generated_nodes
      → IsProper k (execute world r (new_resources s.limits)).0
      → k + length s.work < 2 ^ 32
      → Ensures
          (Executed k (execute world r (new_resources s.limits)).2 s)
          (execute_item same_kind order execute world id (some r) s)
  unfolding execute_item is_completed is_recovered
  execute_item-Ensures same_kind order law k execute world id s r h tally e st nodes proper room =
      let resources = (execute world r (new_resources s.limits)).1 in
      let result = (execute world r (new_resources s.limits)).0 in
      let (h', tally', (r', e', st')) =
        with_resources-IsActive order law id resources.usage s (h, tally, (r, e, st)) in
      let count = length-update_at (with_resources resources.usage) id s.work in
      let alike = open_count-same (with_resources resources.usage) id s.work r e refl in
      let first = Fixed-update_at (with_resources resources.usage) id s.work r e (rw st refl) in
      let s' : ExpansionScheduler Kind = record s {
        work = update_at id (with_resources resources.usage) s.work;
      } in
      and_then-Ensures (Finished k s') (Executed k (execute world r (new_resources s.limits)).2 s)
        (finish same_kind order id resources.exhausted result s') _
        (finish-Ensures same_kind order law id s' r' h' tally' e' st' nodes k resources.exhausted
          result proper (omega (arith, room, count)))
        (λ t (sound, limits, executions, small, more, fixed, opened). (
          refl,
          (
            sound,
            limits,
            executions,
            small,
            omega (arith, more, count),
            Fixed-trans s.work s'.work t.work first fixed,
            omega (arith, opened, alike),
          ),
        ))

  module _ (same_kind : Kind → Kind → Bool) (order : LocationOrder) (law : IsReflexive order)
      (k : ℕ) (execute : Executor Kind W) (proper : IsProperExecutor k execute) where
    -- A turn, with the rest of the run.
    run_next-Ensures :
        (fuel left : ℕ) (world : W) (s : ExpansionScheduler Kind)
        (again : W → ExpansionScheduler Kind → Ended (W × ExpansionScheduler Kind))
        → ((rest : ℕ) (world' : W) (t : ExpansionScheduler Kind)
            → rest < fuel
            → rest + t.usage.executions ≡ t.limits.executions
            → IsSound t
            → t.usage.generated_nodes ≤ t.limits.generated_nodes
            → rest * k + length t.work < 2 ^ 32
            → Ensures (Ran t.limits) (again world' t))
        → left < suc fuel
        → left + s.usage.executions ≡ s.limits.executions
        → s.usage.generated_nodes ≤ s.limits.generated_nodes
        → left * k + length s.work < 2 ^ 32
        → (a : Option ℕ × ExpansionScheduler Kind) → Selected s a
        → Ensures (Ran s.limits) (run_next same_kind order execute again world a)
    unfolding run_next
    run_next-Ensures fuel left world s again more enough is nodes room (none, t)
          (sound, empty, limits, usage, count, _, _) =
        (
          sound,
          empty,
          limits,
          subst (λ u. u.executions ≤ s.limits.executions) (sym usage) (omega (arith, is)),
          subst (λ u. u.generated_nodes ≤ s.limits.generated_nodes) (sym usage) nodes,
        )
    run_next-Ensures fuel zero world s again more enough is nodes room (some id, t)
          (on, limits, executions, counted, same, count, _, _) =
        absurd (omega (arith, is, counted))
    run_next-Ensures fuel (suc left) world s again more enough is nodes room (some id, t)
          (on, limits, executions, counted, same, count, _, _) =
        let product = suc-mul left k in
        let small : t.usage.generated_nodes ≤ t.limits.generated_nodes =
          subst (λ l. t.usage.generated_nodes ≤ l.generated_nodes) (sym limits)
            (omega (arith, same, nodes)) in
        let total = ap (λ l. l.executions) limits in
        let (h, tally, (r, e, st)) = on in
        and_then-Ensures (Executed k (execute world r (new_resources t.limits)).2 t) (Ran s.limits)
          (execute_item same_kind order execute world id (get_elem? t.work id) t) _
          (subst
            (λ o.
              Ensures (Executed k (execute world r (new_resources t.limits)).2 t)
                (execute_item same_kind order execute world id o t))
            (sym e)
            (execute_item-Ensures same_kind order law k execute world id t r h tally e st small
              (proper world r (new_resources t.limits)) (omega (arith, room, count, product))))
          (λ (world', u) (_, (sound, limits', executions', nodes', count', _, _)).
            subst (λ l. Ensures (Ran l) (again world' u)) (limits' ∙ limits)
              (more left world' u (omega (arith, enough))
                (let total' = ap (λ l. l.executions) limits' in
                  omega (arith, is, executions, executions', total, total'))
                sound
                (subst (λ l. u.usage.generated_nodes ≤ l.generated_nodes) (sym limits') nodes')
                (omega (arith, room, count, count', product))))

    pub run-Ensures :
        (fuel left : ℕ) (world : W) (s : ExpansionScheduler Kind)
        → left < fuel
        → left + s.usage.executions ≡ s.limits.executions
        → IsSound s
        → s.usage.generated_nodes ≤ s.limits.generated_nodes
        → left * k + length s.work < 2 ^ 32
        → Ensures (Ran s.limits) (run same_kind order execute fuel world s)
    unfolding run
    run-Ensures zero left world s enough is sound nodes room = absurd (omega (arith, enough))
    run-Ensures (suc fuel) left world s enough is sound nodes room =
        and_then-Ensures (Selected s) (Ran s.limits) (next_ready_all order s)
          (run_next same_kind order execute (run same_kind order execute fuel) world)
          (next_ready_all-Ensures order law s sound (omega (arith, room)))
          (run_next-Ensures fuel left world s (run same_kind order execute fuel)
            (λ rest world' t few is' sound' nodes' room'.
              run-Ensures fuel rest world' t few is' sound' nodes' room')
            enough is nodes room)
