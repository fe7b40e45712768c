-- ===== src/Expansion/Schedule/Enqueue.antt =====
-- src/expansion/scheduler.rs:398-407 and :513-598: enqueueing on a sound scheduler.
use elamite.Base.{
  ℕ, suc, ◌+◌, ◌<◌, ◌≤◌, ◌≡◌, refl, ap, Bool, true, false, ◌&&◌, inl, inr, List, [], ◌∷◌, ◌++◌,
  Option, none, some, arith, get_elem?, get_elem?-append, get_elem?-some, length, all,
  if◌then◌else◌, ltb, lt→ltb, ◌^◌, Bool-cases, subst,
}
use elamite.Expansion.Meter.{active_depth_limit}
use elamite.Expansion.Chain.{ExpansionRequest, pending, ScheduledExpansion}
use elamite.Expansion.Ready.{LocationOrder}
use elamite.Expansion.Defs.{
  and_then, RecoveryReason, cycle, resource_limit, DependencyKind, stage, generated,
  ExpansionScheduler, is_completed, is_recovered, recover,
}
use elamite.Expansion.Queue.{
  DefinitionExpansions, recover_all, refresh_all, refresh_dependents_all, admit_chain, admit,
  push_item, depth_below, depth_of, enqueue_internal, same_id, is_some_id, id_list, enqueue_chain,
  enqueue_definition_after,
}
use elamite.Expansion.Cycles.{cycle_chain_lem}
use elamite.Expansion.Schedule.Keys.{IsReflexive}
use elamite.Expansion.Schedule.Sound.{
  Ensures, and_then-Ensures, Ensures-map, nobody, also, also_other, has_edge, Sound, Sound-mono,
}
use elamite.Expansion.Schedule.Count.{Recovered, is_closed, open_count, open_count-push, Kept}
use elamite.Expansion.Schedule.Refresh.{
  refresh-Ensures, refresh_dependents-Ensures, recover-Ensures,
}
use elamite.Expansion.Schedule.Mark.{either}
use elamite.Expansion.Schedule.Push.{push_item-Sound}
use elamite.Expansion.Schedule.Grown.{
  Grown, Grown-refl, Grown-trans, IsSound, Admitted, IsThere, Enqueued, AllEnqueued, HasRoles,
  request_count,
}

module _ {Kind : Type 0} where
  module _ (order : LocationOrder) (law : IsReflexive order) where
    pub recover_all-Ensures :
        (A U : ℕ → Bool) (i : ℕ) (r : ScheduledExpansion Kind) (reason : RecoveryReason)
        (chain : List ℕ) (s : ExpansionScheduler Kind)
        → length s.recoveries + open_count s.work ≤ 2 ^ 32
        → Sound (also i A) (also i U) s
        → get_elem? s.work i ≡ some r
        → is_closed r.state ≡ false
        → Ensures (Recovered A U s) (recover_all order i reason chain s)
    unfolding recover_all
    recover_all-Ensures A U i r reason chain s fits h e unfinished =
        recover-Ensures order law (suc (length s.work)) A U i r reason chain s (omega arith) fits h
          e unfinished

    pub refresh_dependents_all-Ensures :
        (A U : ℕ → Bool) (i : ℕ) (s : ExpansionScheduler Kind)
        → length s.recoveries + open_count s.work ≤ 2 ^ 32
        → Sound A (either (has_edge i s.edges) U) s
        → Ensures (λ t. Sound A U t × Kept s t) (refresh_dependents_all order i s)
    unfolding refresh_dependents_all
    refresh_dependents_all-Ensures A U i s fits h =
        refresh_dependents-Ensures order law (suc (length s.work))
          (recover order (suc (length s.work))) (recover-Ensures order law (suc (length s.work))) A
          U i s (omega arith) fits h

    refresh_all-Ensures :
        (A U : ℕ → Bool) (i : ℕ) (s : ExpansionScheduler Kind)
        → i < length s.work
        → length s.recoveries + open_count s.work ≤ 2 ^ 32
        → Sound A (also i U) s
        → Ensures (λ t. Sound A U t × Kept s t) (refresh_all order i s)
    unfolding refresh_all
    refresh_all-Ensures A U i s there fits h =
        refresh-Ensures order law (suc (length s.work)) (recover order (suc (length s.work)))
          (recover-Ensures order law (suc (length s.work))) A U i s there (omega arith) fits h

  module _ (same_kind : Kind → Kind → Bool) (order : LocationOrder) (law : IsReflexive order) where
    recovered_new :
        (i : ℕ) (r : ScheduledExpansion Kind) (reason : RecoveryReason) (chain : List ℕ)
        (s : ExpansionScheduler Kind)
        → length s.recoveries + open_count s.work ≤ 2 ^ 32
        → Sound nobody (also i nobody) s
        → get_elem? s.work i ≡ some r
        → r.state ≡ pending
        → Ensures (Admitted s) (recover_all order i reason chain s)
    unfolding is_completed is_recovered
    recovered_new i r reason chain s fits h e st =
        Ensures-map (Recovered nobody nobody s) (Admitted s) (recover_all order i reason chain s)
          (recover_all-Ensures order law nobody nobody i r reason chain s fits
            (Sound-mono nobody (also i nobody) (also i nobody) (also i nobody) s h
              (also_other i nobody) (λ k u. u))
            e (rw st refl))
          (λ t (sound, kept, less). (sound, kept))

    admit-Ensures :
        (i depth : ℕ) (r : ScheduledExpansion Kind) (s : ExpansionScheduler Kind)
        → i < length s.work
        → length s.recoveries + open_count s.work ≤ 2 ^ 32
        → Sound nobody (also i nobody) s
        → get_elem? s.work i ≡ some r
        → r.state ≡ pending
        → Ensures (Admitted s) (admit same_kind order i depth s)
    unfolding admit admit_chain
    admit-Ensures i depth r s there fits h e st =
        elim (Bool-cases (ltb s.limits.active_depth depth)) [
          | inl deep ↦
              rw deep (recovered_new i r (resource_limit active_depth_limit) [] s fits h e st)
          | inr shallow ↦
              let (_, _, answer, known, _) =
                cycle_chain_lem same_kind s.work (λ j p x at is. (h.items j x at).0.0 p is) i
                  there in
              rw (shallow, known) (chained answer)
        ]
      where
        chained :
            (answer : Option (List ℕ))
            → Ensures (Admitted s) (admit_chain same_kind order i (some answer) s)
        chained none = refresh_all-Ensures order law nobody nobody i s there fits h
        chained (some chain) = recovered_new i r cycle chain s fits h e st

    -- The depth of a parent that is there is at most the count of items, so that the next depth fits.
    depth_of-Ensures :
        (parent : Option ℕ) (s : ExpansionScheduler Kind)
        → Sound nobody nobody s
        → suc (length s.work) < 2 ^ 32
        → IsThere parent s
        → Ensures (λ depth. depth ≤ suc (length s.work)) (depth_of s.work parent)
    unfolding depth_of depth_below
    depth_of-Ensures none s h room there = omega arith
    depth_of-Ensures (some p) s h room there =
        let less = there p refl in
        let (r, e) = get_elem?-some s.work p less in
        let deep = (h.items p r e).0.1 in
        let fits : ltb (suc r.depth) (2 ^ 32) ≡ true =
          lt→ltb (suc r.depth) (2 ^ 32) (omega (arith, deep, less, room)) in
        rw (e, fits) (omega (arith, deep, less))

    module _ (request : ExpansionRequest Kind) (parent : Option ℕ) (ds : List ℕ)
        (kind : DependencyKind) (s : ExpansionScheduler Kind) (sound : IsSound s)
        (room : suc (length s.work) < 2 ^ 32) (there : IsThere parent s)
        (below : all (λ d. ltb d (length s.work)) ds ≡ true) where
      abbrev pushed : ℕ → ExpansionScheduler Kind
      pushed depth = push_item request parent ds kind depth s

      -- The counts after the pushes.
      pushed-counts :
          (depth : ℕ)
          → (length (pushed depth).recoveries ≡ length s.recoveries)
            × (open_count (pushed depth).work ≡ suc (open_count s.work))
      unfolding push_item is_completed is_recovered
      pushed-counts depth = (refl, open_count-push s.work _ refl)

      pushed-Grown :
          (depth : ℕ) (t : ExpansionScheduler Kind)
          → length (pushed depth).work ≡ suc (length s.work)
          → Kept (pushed depth) t
          → Grown 1 s t
      unfolding push_item
      pushed-Grown depth t count kept = record {
        limits = kept.limits;
        executions = ap (λ u. u.executions) kept.usage;
        generated_nodes = ap (λ u. u.generated_nodes) kept.usage;
        count = omega (arith, kept.count, count);
        open_items = omega (arith, kept.open_items, (pushed-counts depth).1);
        fixed = λ j x at c. kept.fixed j x (get_elem?-append s.work _ j x at) c;
      }

      admitted :
          (depth : ℕ)
          → depth ≤ suc (length s.work)
          → Ensures
              (λ t. IsSound t × Grown 1 s t)
              (admit same_kind order (length s.work) depth (pushed depth))
      admitted depth deep =
          let (after, (r, e, st), count) =
            push_item-Sound nobody s request parent ds kind depth (sound.0) below there deep in
          let (recoveries, opened) = pushed-counts depth in
          let tally = sound.1 in
          Ensures-map (Admitted (pushed depth)) (λ t. IsSound t × Grown 1 s t)
            (admit same_kind order (length s.work) depth (pushed depth))
            (admit-Ensures (length s.work) depth r (pushed depth) (omega (arith, count))
              (omega (arith, recoveries, opened, tally, room)) after e st)
            (λ t (done, kept). (
              (done, omega (arith, kept.tally, kept.count, recoveries, opened, tally, count)),
              pushed-Grown depth t count kept,
            ))

      pub enqueue_internal-Ensures :
          Ensures (Enqueued s) (enqueue_internal same_kind order request parent ds kind s)
      unfolding enqueue_internal and_then
      enqueue_internal-Ensures =
          let fits : ltb (length s.work) (2 ^ 32) ≡ true =
            lt→ltb (length s.work) (2 ^ 32) (omega (arith, room)) in
          rw (below, fits)
            (and_then-Ensures (λ depth. depth ≤ suc (length s.work)) (Enqueued s)
              (depth_of s.work parent) _ (depth_of-Ensures parent s (sound.0) room there)
              (λ depth deep.
                and_then-Ensures (λ t. IsSound t × Grown 1 s t) (Enqueued s)
                  (admit same_kind order (length s.work) depth (pushed depth)) _
                  (admitted depth deep) (λ t (done, grown). (refl, done, grown))))

    id_list-below :
        (previous : Option ℕ) (s : ExpansionScheduler Kind)
        → IsThere previous s
        → all (λ d. ltb d (length s.work)) (id_list previous) ≡ true
    unfolding id_list
    id_list-below none s h = refl
    id_list-below (some p) s h = rw (lt→ltb p (length s.work) (h p refl)) refl

    enqueue_chain-Ensures :
        (generated_by previous : Option ℕ) (requests : List (ExpansionRequest Kind))
        (s : ExpansionScheduler Kind)
        → IsSound s
        → length requests + length s.work < 2 ^ 32
        → IsThere previous s
        → Ensures
            (AllEnqueued (length requests) s)
            (enqueue_chain same_kind order generated_by previous requests s)
    unfolding enqueue_chain
    enqueue_chain-Ensures generated_by previous [] s h room there = (refl, h, Grown-refl s)
    enqueue_chain-Ensures generated_by previous (request ∷ requests) s h room there =
        and_then-Ensures (Enqueued s) (AllEnqueued (suc (length requests)) s)
          (enqueue_internal same_kind order request previous (id_list previous) kind s) _
          (enqueue_internal-Ensures request previous (id_list previous) kind s h
            (omega (arith, room)) there (id_list-below previous s there))
          (λ (id, t) (is, sound, grown).
            and_then-Ensures (AllEnqueued (length requests) t)
              (AllEnqueued (suc (length requests)) s)
              (enqueue_chain same_kind order generated_by (some id) requests t) _
              (enqueue_chain-Ensures generated_by (some id) requests t sound
                (omega (arith, room, grown.count))
                (λ p same. let one : id ≡ p = cc in omega (arith, one, is, grown.count)))
              (λ (ids, u) (count, done, more). (
                ap suc count,
                done,
                subst (λ n. Grown n s u) (omega arith)
                    (Grown-trans 1 (length requests) s t u grown more),
              )))
      where
        kind : DependencyKind
        kind = if same_id previous generated_by && is_some_id generated_by then generated else stage

    pub enqueue_definition_after-Ensures :
        (generated_by : Option ℕ) (d : DefinitionExpansions Kind) (s : ExpansionScheduler Kind)
        → IsSound s
        → request_count d + length s.work < 2 ^ 32
        → IsThere generated_by s
        → HasRoles d
        → Ensures
            (AllEnqueued (request_count d) s)
            (enqueue_definition_after same_kind order generated_by d s)
    unfolding enqueue_definition_after
    enqueue_definition_after-Ensures generated_by d s h room there (attributes, derives) =
        rw (attributes, derives)
          (enqueue_chain-Ensures generated_by generated_by
            (d.attributes ++ (d.derives ++ d.invocations)) s h room there)
