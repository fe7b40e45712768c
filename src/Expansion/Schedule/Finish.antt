-- ===== src/Expansion/Schedule/Finish.antt =====
-- src/expansion/scheduler.rs:435-484: completing and failing an active item.
use elamite.Base.{
  ℕ, suc, ◌+◌, ◌<◌, ◌≤◌, ◌≡◌, refl, sym, ap, ◌∙◌, Bool, false, inl, inr, List, [], ◌∷◌, Option,
  none, some, arith, All, get_elem?, get_elem?-lt, length, contains, ltb, ◌^◌, Bool-cases, subst,
}
use elamite.Expansion.Meter.{ResourceLimitKind, generated_nodes_limit, checked_add}
use elamite.Expansion.Chain.{ExpansionRequest, active, completed, ScheduledExpansion}
use elamite.Expansion.Ready.{LocationOrder}
use elamite.Expansion.Defs.{
  RecoveryReason, resource_limit, ExpansionScheduler, is_active, is_completed, is_recovered,
  with_state, set_state,
}
use elamite.Expansion.Queue.{DefinitionExpansions, recover_all, refresh_dependents_all}
use elamite.Expansion.Run.{
  ScheduledOutput, ExecutionResult, produced, failed, is_internal, if_active, enqueue_generated,
  enqueue_definitions, admit_output, charge_nodes, complete, fail, finish_result, finish,
}
use elamite.Expansion.Schedule.Work.{length-update_at}
use elamite.Expansion.Schedule.Keys.{ids, IsReflexive}
use elamite.Expansion.Schedule.Keyed.{Keyed-update_at}
use elamite.Expansion.Schedule.Sound.{
  Ensures, and_then-Ensures, Ensures-map, nobody, also, also_cases, has_edge, StateSound, Sound,
  Sound-mono, CompletedAt-kept,
}
use elamite.Expansion.Schedule.Change.{Sound-change}
use elamite.Expansion.Schedule.Count.{
  Recovered, Fixed, Fixed-trans, Fixed-update_at, open_count, open_count-closes, Kept,
}
use elamite.Expansion.Schedule.Mark.{either, is_keyless}
use elamite.Expansion.Schedule.Enqueue.{
  recover_all-Ensures, refresh_dependents_all-Ensures, enqueue_internal-Ensures,
  enqueue_definition_after-Ensures,
}
use elamite.Expansion.Schedule.Grown.{
  Tallied, Tallied-Kept, Grown, Grown-refl, Grown-trans, IsSound, HasRoles, request_count, Enqueued,
  AllEnqueued,
}

module _ {Kind : Type 0} where
  -- The requests of an output.
  abbrev pub definitions_count : List (DefinitionExpansions Kind) → ℕ
  definitions_count [] = 0
  definitions_count (d ∷ ds) = request_count d + definitions_count ds

  abbrev pub output_count : ScheduledOutput Kind → ℕ
  output_count output = length output.invocations + definitions_count output.definitions

  -- What the assertions ask of a result, and a bound on what it generates.
  abbrev pub IsProper : ℕ → ExecutionResult Kind → Type 0
  IsProper k (produced output) = All HasRoles output.definitions × (output_count output ≤ k)
  IsProper k (failed reason) = is_internal reason ≡ false

  -- The scheduler after the item, with at most so many new items.
  abbrev pub Finished : ℕ → ExpansionScheduler Kind → ExpansionScheduler Kind → Type 0
  Finished k s t =
      IsSound t
      × (t.limits ≡ s.limits)
      × (t.usage.executions ≡ s.usage.executions)
      × (t.usage.generated_nodes ≤ s.limits.generated_nodes)
      × (length t.work ≤ k + length s.work)
      × Fixed s.work t.work
      × (open_count t.work < k + open_count s.work)

  abbrev Added : ℕ → ExpansionScheduler Kind → ExpansionScheduler Kind → Type 0
  Added n s t = IsSound t × Grown n s t

  module _ (same_kind : Kind → Kind → Bool) (order : LocationOrder) (law : IsReflexive order) where
    enqueue_generated-Ensures :
        (id : ℕ) (requests : List (ExpansionRequest Kind)) (s : ExpansionScheduler Kind)
        → IsSound s
        → id < length s.work
        → length requests + length s.work < 2 ^ 32
        → Ensures (Added (length requests) s) (enqueue_generated same_kind order id requests s)
    unfolding enqueue_generated
    enqueue_generated-Ensures id [] s h there room = (h, Grown-refl s)
    enqueue_generated-Ensures id (request ∷ requests) s h there room =
        and_then-Ensures (Enqueued s) (Added (suc (length requests)) s) _ _
          (enqueue_internal-Ensures same_kind order law request (some id) (id ∷ []) _ s h
            (omega (arith, room)) (λ p is. let same : id ≡ p = cc in omega (arith, same, there))
            (ground arith))
          (λ (i, t) (is, sound, grown).
            Ensures-map (Added (length requests) t) (Added (suc (length requests)) s)
              (enqueue_generated same_kind order id requests t)
              (enqueue_generated-Ensures id requests t sound (omega (arith, there, grown.count))
                (omega (arith, room, grown.count)))
              (λ u (done, more). (
                done,
                subst (λ n. Grown n s u) (omega arith)
                    (Grown-trans 1 (length requests) s t u grown more),
              )))

    enqueue_definitions-Ensures :
        (id : ℕ) (ds : List (DefinitionExpansions Kind)) (s : ExpansionScheduler Kind)
        → IsSound s
        → id < length s.work
        → All HasRoles ds
        → definitions_count ds + length s.work < 2 ^ 32
        → Ensures (Added (definitions_count ds) s) (enqueue_definitions same_kind order id ds s)
    unfolding enqueue_definitions
    enqueue_definitions-Ensures id [] s h there roles room = (h, Grown-refl s)
    enqueue_definitions-Ensures id (d ∷ ds) s h there roles room =
        and_then-Ensures (AllEnqueued (request_count d) s)
          (Added (request_count d + definitions_count ds) s) _ _
          (enqueue_definition_after-Ensures same_kind order law (some id) d s h
            (omega (arith, room)) (λ p is. let same : id ≡ p = cc in omega (arith, same, there))
            roles.0)
          (λ (i, t) (is, sound, grown).
            Ensures-map (Added (definitions_count ds) t)
              (Added (request_count d + definitions_count ds) s)
              (enqueue_definitions same_kind order id ds t)
              (enqueue_definitions-Ensures id ds t sound (omega (arith, there, grown.count)) roles.1
                (omega (arith, room, grown.count)))
              (λ u (done, more).
                (done, Grown-trans (request_count d) (definitions_count ds) s t u grown more)))

    module _ (id : ℕ) (s : ExpansionScheduler Kind) (r : ScheduledExpansion Kind)
        (h : Sound (also id nobody) nobody s) (tally : Tallied s) (e : get_elem? s.work id ≡ some r)
        (st : r.state ≡ active) (nodes : s.usage.generated_nodes ≤ s.limits.generated_nodes) where
      -- It has no key, since it is not ready.
      keyless : contains id (ids s.ready) ≡ false
      keyless = is_keyless order law s id r h.keyed e (λ is. cc)

      -- The item is completed; its dependents are to be refreshed.
      completed-Sound :
          Sound nobody (either (has_edge id s.edges) nobody) (set_state id completed s)
          × (open_count (set_state id completed s).work < open_count s.work)
      unfolding is_completed is_recovered
      completed-Sound =
          let unfinished : is_completed r.state ≡ false = rw st refl in
          let (done, _) =
            subst (StateSound (also id nobody) nobody s.work s.ready id r.dependencies) st
              (h.items id r e).2 in
          (
            Sound-change (also id nobody) nobody nobody (either (has_edge id s.edges) nobody) s id r
                (with_state completed) s.ready h e (refl, refl, refl, refl) unfinished
                (Keyed-update_at s.work s.ready id (with_state completed) keyless h.keyed)
                (λ j apart a. also_cases id nobody j a apart) (λ j apart u. cc) (λ j apart m. m)
                (inl (λ j m. rw m refl))
                (λ d m.
                  CompletedAt-kept (with_state completed) id s.work r e unfinished d (done d m)),
            open_count-closes (with_state completed) id s.work r e (rw st refl) refl,
          )

      recovered-Finished :
          (k : ℕ) (reason : RecoveryReason)
          → length s.work ≤ 2 ^ 32
          → Ensures (Finished k s) (recover_all order id reason [] s)
      unfolding is_completed is_recovered
      recovered-Finished k reason room =
          Ensures-map (Recovered nobody nobody s) (Finished k s) (recover_all order id reason [] s)
            (recover_all-Ensures order law nobody nobody id r reason [] s
              (omega (arith, tally, room))
              (Sound-mono (also id nobody) nobody (also id nobody) (also id nobody) s h (λ j a. a)
                (λ j u. cc))
              e (rw st refl))
            (λ t (sound, kept, less). (
              (sound, Tallied-Kept s t kept tally),
              kept.limits,
              ap (λ u. u.executions) kept.usage,
              subst (λ u. u.generated_nodes ≤ s.limits.generated_nodes) (sym kept.usage) nodes,
              omega (arith, kept.count),
              kept.fixed,
              omega (arith, less),
            ))

      admit_output-Ensures :
          (output : ScheduledOutput Kind) (total : ℕ)
          → total ≤ s.limits.generated_nodes
          → All HasRoles output.definitions
          → output_count output + length s.work < 2 ^ 32
          → Ensures
              (Finished (output_count output) s)
              (admit_output same_kind order id output total s)
      unfolding admit_output is_completed is_recovered
      admit_output-Ensures output total small roles room =
          let (sound, less) = completed-Sound in
          let there = get_elem?-lt s.work id r e in
          let count = length-update_at (with_state completed) id s.work in
          let first = Fixed-update_at (with_state completed) id s.work r e (rw st refl) in
          and_then-Ensures (λ t. Sound nobody nobody t × Kept done t)
            (Finished (output_count output) s) (refresh_dependents_all order id done) _
            (refresh_dependents_all-Ensures order law nobody nobody id done
              (omega (arith, tally, less, room)) sound)
            (λ t (refreshed, kept).
              let tallied : Tallied t = omega (arith, kept.tally, kept.count, count, tally, less) in
              and_then-Ensures (Added (length output.invocations) t)
                (Finished (output_count output) s)
                (enqueue_generated same_kind order id output.invocations t)
                (enqueue_definitions same_kind order id output.definitions)
                (enqueue_generated-Ensures id output.invocations t (refreshed, tallied)
                  (omega (arith, there, kept.count, count))
                  (omega (arith, room, kept.count, count)))
                (λ u (added, grown).
                  Ensures-map (Added (definitions_count output.definitions) u)
                    (Finished (output_count output) s)
                    (enqueue_definitions same_kind order id output.definitions u)
                    (enqueue_definitions-Ensures id output.definitions u added
                      (omega (arith, there, kept.count, count, grown.count)) roles
                      (omega (arith, room, kept.count, count, grown.count)))
                    (λ v (last, more). (
                      last,
                      more.limits ∙ (grown.limits ∙ kept.limits),
                      more.executions ∙ (grown.executions ∙ ap (λ z. z.executions) kept.usage),
                      (let nodes_same =
                            more.generated_nodes
                            ∙ (grown.generated_nodes ∙ ap (λ z. z.generated_nodes) kept.usage) in
                          subst (λ z. z ≤ s.limits.generated_nodes) (sym nodes_same) small),
                      omega (arith, more.count, grown.count, kept.count, count),
                      Fixed-trans s.work u.work v.work
                          (Fixed-trans s.work t.work u.work
                            (Fixed-trans s.work done.work t.work first kept.fixed) grown.fixed)
                          more.fixed,
                      omega (arith, less, kept.open_items, grown.open_items, more.open_items),
                    ))))
        where
          done : ExpansionScheduler Kind
          done = record (set_state id completed s) {
            usage = record s.usage { generated_nodes = total };
          }

      complete-Ensures :
          (output : ScheduledOutput Kind)
          → All HasRoles output.definitions
          → output_count output + length s.work < 2 ^ 32
          → Ensures (Finished (output_count output) s) (complete same_kind order id output s)
      unfolding complete if_active is_active charge_nodes
      complete-Ensures output roles room =
          rw (e, st) (charged (checked_add s.usage.generated_nodes output.generated_nodes))
        where
          charged :
              (o : Option ℕ)
              → Ensures
                  (Finished (output_count output) s)
                  (charge_nodes same_kind order id output o s)
          charged none =
              recovered-Finished (output_count output) (resource_limit generated_nodes_limit)
                (omega (arith, room))
          charged (some total) = elim (Bool-cases (ltb s.limits.generated_nodes total)) [
            | inl large ↦ rw large (
                recovered-Finished (output_count output) (resource_limit generated_nodes_limit)
                  (omega (arith, room)))
            | inr small ↦ rw small (admit_output-Ensures output total (ground arith) roles room)
          ]

      fail-Ensures :
          (k : ℕ) (reason : RecoveryReason)
          → is_internal reason ≡ false
          → length s.work ≤ 2 ^ 32
          → Ensures (Finished k s) (fail order id reason s)
      unfolding fail if_active is_active
      fail-Ensures k reason outside room = rw (outside, e, st) (recovered-Finished k reason room)

      -- The end of a turn of the run.
      pub finish-Ensures :
          (k : ℕ) (limit : Option ResourceLimitKind) (result : ExecutionResult Kind)
          → IsProper k result
          → k + length s.work < 2 ^ 32
          → Ensures (Finished k s) (finish same_kind order id limit result s)
      unfolding finish finish_result is_internal
      finish-Ensures k (some limit) result proper room =
          fail-Ensures k (resource_limit limit) refl (omega (arith, room))
      finish-Ensures k none (failed reason) proper room =
          fail-Ensures k reason proper (omega (arith, room))
      finish-Ensures k none (produced output) (roles, few) room =
          Ensures-map (Finished (output_count output) s) (Finished k s)
            (complete same_kind order id output s)
            (complete-Ensures output roles (omega (arith, few, room)))
            (λ t (sound, limits, executions, small, count, fixed, opened). (
              sound,
              limits,
              executions,
              small,
              omega (arith, few, count),
              fixed,
              omega (arith, few, opened),
            ))
