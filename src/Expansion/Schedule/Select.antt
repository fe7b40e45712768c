-- ===== src/Expansion/Schedule/Select.antt =====
-- src/expansion/scheduler.rs:411-432: the next item to run.
use elamite.Base.{
  ℕ, zero, suc, ◌<◌, ◌≤◌, ◌≡◌, refl, sym, ap, ◌∙◌, true, false, inl, inr, List, [], ◌∷◌, Option,
  none, some, arith, get_elem?, length, contains, ltb, ltb→lt, ◌^◌, Bool-cases, subst,
}
use elamite.Expansion.Meter.{executions_limit}
use elamite.Expansion.Chain.{ready, active, ScheduledExpansion}
use elamite.Expansion.Ready.{LocationOrder, ReadyKey}
use elamite.Expansion.Defs.{
  Ended, resource_limit, ExpansionScheduler, is_ready, is_completed, is_recovered, with_state,
  set_state,
}
use elamite.Expansion.Queue.{recover_all}
use elamite.Expansion.Run.{start_item, pop_key, next_ready, next_ready_all}
use elamite.Expansion.Schedule.Work.{get_elem?-update_at, length-update_at, SameFlags}
use elamite.Expansion.Schedule.Keys.{ids, contains_cases, IsReflexive}
use elamite.Expansion.Schedule.Keyed.{Keyed, Keyed-update_at}
use elamite.Expansion.Schedule.Sound.{
  Ensures, and_then-Ensures, Ensures-map, nobody, also, also_self, StateSound, AllCompleted, Sound,
  Sound-settle, Sound-mono, CompletedAt-kept,
}
use elamite.Expansion.Schedule.Change.{Sound-change}
use elamite.Expansion.Schedule.Count.{
  Recovered, Fixed, Fixed-trans, Fixed-update_at, open_count, open_count-same, open_count-le, Kept,
}
use elamite.Expansion.Schedule.Enqueue.{recover_all-Ensures}
use elamite.Expansion.Schedule.Grown.{Tallied, IsSound}

module _ {Kind : Type 0} where
  -- The item is active, and it alone is in hand.
  abbrev pub IsActive : ℕ → ExpansionScheduler Kind → Type 0
  IsActive i s =
      Sound (also i nobody) nobody s
      × Tallied s
      × ((r : ScheduledExpansion Kind) × (get_elem? s.work i ≡ some r) × (r.state ≡ active))

  -- No item is left, or one is active, and counted.
  abbrev pub Selected : ExpansionScheduler Kind → Option ℕ × ExpansionScheduler Kind → Type 0
  Selected s (none, t) =
      IsSound t
      × (t.ready ≡ [])
      × (t.limits ≡ s.limits)
      × (t.usage ≡ s.usage)
      × (length t.work ≡ length s.work)
      × Fixed s.work t.work
      × (open_count t.work ≤ open_count s.work)
  Selected s (some i, t) =
      IsActive i t
      × (t.limits ≡ s.limits)
      × (t.usage.executions ≡ suc s.usage.executions)
      × (s.usage.executions < s.limits.executions)
      × (t.usage.generated_nodes ≡ s.usage.generated_nodes)
      × (length t.work ≡ length s.work)
      × Fixed s.work t.work
      × (open_count t.work ≤ open_count s.work)

  module _ (order : LocationOrder) (law : IsReflexive order) where
    -- The item of a popped key is in hand.
    popped :
        (s : ExpansionScheduler Kind) (key : ReadyKey) (keys : List ReadyKey)
        → Sound nobody nobody s
        → s.ready ≡ key ∷ keys
        → (r : ScheduledExpansion Kind) × (get_elem? s.work key.work ≡ some r)
          × (r.state ≡ ready)
          × (contains key.work (ids keys) ≡ false)
          × Sound (also key.work nobody) nobody (record s { ready = keys })
    popped s key keys h is =
        let all_keyed : Keyed s.work (key ∷ keys) = subst (Keyed s.work) is h.keyed in
        let ((r, e, st, place), absent, keyed) = all_keyed in
        let dependencies_done : AllCompleted s.work r.dependencies =
          (subst (StateSound nobody nobody s.work s.ready key.work r.dependencies) st
            (h.items key.work r e).2).0 in
        (
          r,
          e,
          st,
          absent,
          Sound-settle nobody nobody (also key.work nobody) nobody s keys key.work h keyed
              (λ j apart. (
                (λ a. cc),
                (λ u. u),
                (λ m.
                    elim (contains_cases j key.work (ids keys)
                      (subst (λ ks. contains j (ids ks) ≡ true) is m)) [
                        | inl same ↦ absurd (apart (sym same))
                        | inr more ↦ more
                      ]),
              ))
              (λ x at.
                let same : r ≡ x = cc in
                subst
                  (λ z.
                    StateSound (also key.work nobody) nobody s.work keys key.work z.dependencies
                      z.state)
                  same
                  (subst
                    (StateSound (also key.work nobody) nobody s.work keys key.work r.dependencies)
                    (sym st) (dependencies_done, inr (also_self key.work nobody)))),
        )

    started-Sound :
        (s : ExpansionScheduler Kind) (i : ℕ) (r : ScheduledExpansion Kind)
        → Sound (also i nobody) nobody s
        → get_elem? s.work i ≡ some r
        → r.state ≡ ready
        → contains i (ids s.ready) ≡ false
        → Sound (also i nobody) nobody (set_state i active s)
    unfolding is_completed is_recovered
    started-Sound s i r h e st keyless =
        let unfinished : is_completed r.state ≡ false = rw st refl in
        let (done, _) =
          subst (StateSound (also i nobody) nobody s.work s.ready i r.dependencies) st
            (h.items i r e).2 in
        Sound-change (also i nobody) nobody (also i nobody) nobody s i r (with_state active) s.ready
          h e (refl, refl, refl, refl) unfinished
          (Keyed-update_at s.work s.ready i (with_state active) keyless h.keyed) (λ j apart a. a)
          (λ j apart u. u) (λ j apart m. m)
          (inr (subst (λ z. SameFlags z active) (sym st) (refl, refl)))
          (
            (λ d m. CompletedAt-kept (with_state active) i s.work r e unfinished d (done d m)),
            also_self i nobody,
          )

    -- The turn at the item of a popped key.
    start_item-Ensures :
        (again : ExpansionScheduler Kind → Ended (Option ℕ × ExpansionScheduler Kind))
        (s : ExpansionScheduler Kind) (i : ℕ) (r : ScheduledExpansion Kind)
        → ((t : ExpansionScheduler Kind)
            → IsSound t
            → open_count t.work < open_count s.work
            → length t.work ≤ 2 ^ 32
            → Ensures (Selected t) (again t))
        → length s.work ≤ 2 ^ 32
        → Tallied s
        → get_elem? s.work i ≡ some r
        → r.state ≡ ready
        → contains i (ids s.ready) ≡ false
        → Sound (also i nobody) nobody s
        → Ensures (Selected s) (start_item order again i (some r) s)
    unfolding start_item is_ready is_completed is_recovered
    start_item-Ensures again s i r more room tally e st keyless h =
        rw st (elim (Bool-cases (ltb s.usage.executions s.limits.executions)) [
          | inl left ↦ rw left (
            (
              started-Sound s i r h e st keyless,
              omega (
                arith,
                tally,
                open_count-same (with_state active) i s.work r e (rw st refl),
                length-update_at (with_state active) i s.work,
              ),
              (with_state active r, get_elem?-update_at (with_state active) i s.work r e, refl),
            ),
            refl,
            omega arith,
            ltb→lt s.usage.executions s.limits.executions left,
            refl,
            length-update_at (with_state active) i s.work,
            Fixed-update_at (with_state active) i s.work r e (rw st refl),
            (let same = open_count-same (with_state active) i s.work r e (rw st refl) in
                omega (arith, same)),
          )
          | inr spent ↦ rw spent (
              and_then-Ensures (Recovered nobody nobody s) (Selected s)
                (recover_all order i (resource_limit executions_limit) [] s) again
                (recover_all-Ensures order law nobody nobody i r (resource_limit executions_limit)
                  [] s (omega (arith, room, tally))
                  (Sound-mono (also i nobody) nobody (also i nobody) (also i nobody) s h (λ j a. a)
                    (λ j u. cc))
                  e (rw st refl))
                (λ t (sound, kept, less).
                  Ensures-map (Selected t) (Selected s) (again t)
                    (more t (sound, omega (arith, kept.tally, kept.count, tally)) less
                      (omega (arith, room, kept.count)))
                    (after t kept)))
        ])
      where
        after :
            (t : ExpansionScheduler Kind)
            → Kept s t
            → (a : Option ℕ × ExpansionScheduler Kind) → Selected t a
            → Selected s a
        after t kept (none, u) (sound, empty, limits, usage, count, fixed, opened) = (
          sound,
          empty,
          limits ∙ kept.limits,
          usage ∙ kept.usage,
          count ∙ kept.count,
          Fixed-trans s.work t.work u.work kept.fixed fixed,
          omega (arith, opened, kept.open_items),
        )
        after t kept (some j, u) (is, limits, executions, left, nodes, count, fixed, opened) = (
          is,
          limits ∙ kept.limits,
          executions ∙ ap (λ z. suc z.executions) kept.usage,
          subst (λ l. s.usage.executions < l.executions) kept.limits
              (subst (λ z. z.executions < t.limits.executions) kept.usage left),
          nodes ∙ ap (λ z. z.generated_nodes) kept.usage,
          count ∙ kept.count,
          Fixed-trans s.work t.work u.work kept.fixed fixed,
          omega (arith, opened, kept.open_items),
        )

    -- The ready set is no part of what was selected.
    same_start :
        (s : ExpansionScheduler Kind) (keys : List ReadyKey)
        (a : Option ℕ × ExpansionScheduler Kind)
        → Selected (record s { ready = keys }) a
        → Selected s a
    same_start s keys (none, t) h = h
    same_start s keys (some i, t) h = h

    pop_key-Ensures :
        (again : ExpansionScheduler Kind → Ended (Option ℕ × ExpansionScheduler Kind))
        (s : ExpansionScheduler Kind) (keys : List ReadyKey)
        → ((t : ExpansionScheduler Kind)
            → IsSound t
            → open_count t.work < open_count s.work
            → length t.work ≤ 2 ^ 32
            → Ensures (Selected t) (again t))
        → IsSound s
        → length s.work ≤ 2 ^ 32
        → s.ready ≡ keys
        → Ensures (Selected s) (pop_key order again keys s)
    unfolding pop_key
    pop_key-Ensures again s [] more h room is =
        (h, is, refl, refl, refl, (λ j r e c. e), omega arith)
    pop_key-Ensures again s (key ∷ keys) more (sound, tally) room is =
        let (r, e, st, absent, held) = popped s key keys sound is in
        subst
          (λ o.
            Ensures (Selected s) (start_item order again key.work o (record s { ready = keys })))
          (sym e)
          (Ensures-map (Selected (record s { ready = keys })) (Selected s)
            (start_item order again key.work (some r) (record s { ready = keys }))
            (start_item-Ensures again (record s { ready = keys }) key.work r more room tally e st
              absent held)
            (same_start s keys))

    next_ready-Ensures :
        (fuel : ℕ) (s : ExpansionScheduler Kind)
        → IsSound s
        → open_count s.work < fuel
        → length s.work ≤ 2 ^ 32
        → Ensures (Selected s) (next_ready order fuel s)
    unfolding next_ready
    next_ready-Ensures zero s h enough room = absurd (omega (arith, enough))
    next_ready-Ensures (suc fuel) s h enough room =
        pop_key-Ensures (next_ready order fuel) s s.ready
          (λ t sound less fits. next_ready-Ensures fuel t sound (omega (arith, enough, less)) fits)
          h room refl

    -- The count of items is enough fuel.
    pub next_ready_all-Ensures :
        (s : ExpansionScheduler Kind)
        → IsSound s
        → length s.work ≤ 2 ^ 32
        → Ensures (Selected s) (next_ready_all order s)
    unfolding next_ready_all
    next_ready_all-Ensures s h room =
        next_ready-Ensures (suc (length s.work)) s h (omega (arith, open_count-le s.work)) room
