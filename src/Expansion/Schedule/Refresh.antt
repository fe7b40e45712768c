-- ===== src/Expansion/Schedule/Refresh.antt =====
-- src/expansion/scheduler.rs:615-699: refreshes and recoveries of a sound scheduler.
use elamite.Base.{
  ℕ, zero, suc, ◌+◌, ◌<◌, ◌≤◌, ◌≡◌, refl, sym, ◌∙◌, Bool, true, false, inl, inr, List, [], ◌∷◌,
  some, arith, get_elem?, get_elem?-some, get_elem?-lt, length, map, any, all, contains, ltb,
  lt→ltb, ◌^◌, Bool-cases, subst,
}
use elamite.Expansion.Chain.{ExpansionWorkState, pending, ScheduledExpansion}
use elamite.Expansion.Ready.{LocationOrder, sort_keys, dedup}
use elamite.Expansion.Defs.{
  RecoveryReason, dependency, ExpansionScheduler, is_pending, is_completed, is_recovered, states_of,
  Recovers, mark_recovered, refresh_pending, refresh_item, refresh, refresh_each, refresh_sorted,
  refresh_dependents, recover_item, recover,
}
use elamite.Expansion.Schedule.Work.{states_of-some, states_of-CompletedAt}
use elamite.Expansion.Schedule.Keys.{contains_more, IsReflexive}
use elamite.Expansion.Schedule.Sound.{
  Ensures, and_then-Ensures, Ensures-map, also, also_other, has_edge, has_edge-ascends, StateSound,
  Sound, Sound-mono,
}
use elamite.Expansion.Schedule.Count.{
  Recovered, is_closed, open_count, Kept, Kept-refl, Kept-trans, dependents,
}
use elamite.Expansion.Schedule.Mark.{
  is_pending-eq, either, not_pending-StateSound, refreshed, make_ready-Sound, mark_recovered-Sound,
}

module _ {Kind : Type 0} (order : LocationOrder) (law : IsReflexive order) where
  -- A recovery that has the fuel for all items after one.
  abbrev pub IsRecovery : ℕ → Recovers Kind → Type 0
  IsRecovery fuel rec =
      (A U : ℕ → Bool) (i : ℕ) (r : ScheduledExpansion Kind) (reason : RecoveryReason)
      (chain : List ℕ) (s : ExpansionScheduler Kind)
      → length s.work ≤ fuel + i
      → length s.recoveries + open_count s.work ≤ 2 ^ 32
      → Sound (also i A) (also i U) s
      → get_elem? s.work i ≡ some r
      → is_closed r.state ≡ false
      → Ensures (Recovered A U s) (rec i reason chain s)

  module _ (fuel : ℕ) (rec : Recovers Kind) (recovers : IsRecovery fuel rec) where
    abbrev pub Refreshed :
        (A U : ℕ → Bool) → ExpansionScheduler Kind → ExpansionScheduler Kind → Type 0
    Refreshed A U s t = Sound A U t × Kept s t

    refresh_pending-Ensures :
        (A U : ℕ → Bool) (j : ℕ) (s : ExpansionScheduler Kind) (r : ScheduledExpansion Kind)
        (states : List ExpansionWorkState)
        → length s.work ≤ fuel + j
        → length s.recoveries + open_count s.work ≤ 2 ^ 32
        → Sound A (also j U) s
        → get_elem? s.work j ≡ some r
        → r.state ≡ pending
        → states_of s.work r.dependencies ≡ some states
        → Ensures (Refreshed A U s) (refresh_pending order rec j r (some states) s)
    unfolding refresh_pending is_completed is_recovered
    refresh_pending-Ensures A U j s r states enough fits h e st known =
        elim (Bool-cases (any is_recovered states)) [
          | inl lost ↦ rw lost (
              Ensures-map (Recovered A U s) (Refreshed A U s) (rec j dependency [] s)
                (recovers A U j r dependency [] s enough fits
                  (Sound-mono A (also j U) (also j A) (also j U) s h (also_other j A) (λ k u. u)) e
                  (rw st refl))
                (λ t (sound, kept, less). (sound, kept)))
          | inr here ↦ rw here (elim (Bool-cases (all is_completed states)) [
            | inl done ↦ rw done (
                make_ready-Sound order law A U s j r h e st
                  (states_of-CompletedAt s.work r.dependencies states known done))
            | inr waits ↦ rw waits (
              refreshed order law A U s j r h e (
                  subst (StateSound A U s.work s.ready j r.dependencies) (sym st)
                    (inl (states, known, here, waits))),
              Kept-refl s,
            )
          ])
        ]

    refresh_item-Ensures :
        (A U : ℕ → Bool) (j : ℕ) (s : ExpansionScheduler Kind) (r : ScheduledExpansion Kind)
        → length s.work ≤ fuel + j
        → length s.recoveries + open_count s.work ≤ 2 ^ 32
        → Sound A (also j U) s
        → get_elem? s.work j ≡ some r
        → Ensures (Refreshed A U s) (refresh_item order rec j (some r) s)
    unfolding refresh_item
    refresh_item-Ensures A U j s r enough fits h e = elim (Bool-cases (is_pending r.state)) [
      | inl waiting ↦
          let (before, deps, st) = h.items j r e in
          let (states, known) =
            states_of-some s.work r.dependencies
              (λ d m. let less = (deps d m).0 in omega (arith, less, get_elem?-lt s.work j r e)) in
          rw (waiting, known)
            (refresh_pending-Ensures A U j s r states enough fits h e
              (is_pending-eq r.state waiting) known)
      | inr other ↦
          let (before, deps, st) = h.items j r e in
          rw other (
            refreshed order law A U s j r h e (
                not_pending-StateSound order law A U s.work s.ready j r.dependencies r.state other
                  st),
            Kept-refl s,
          )
    ]

    pub refresh-Ensures :
        (A U : ℕ → Bool) (j : ℕ) (s : ExpansionScheduler Kind)
        → j < length s.work
        → length s.work ≤ fuel + j
        → length s.recoveries + open_count s.work ≤ 2 ^ 32
        → Sound A (also j U) s
        → Ensures (Refreshed A U s) (refresh order rec j s)
    unfolding refresh
    refresh-Ensures A U j s there enough fits h =
        let (r, e) = get_elem?-some s.work j there in
        subst (λ o. Ensures (Refreshed A U s) (refresh_item order rec j o s)) (sym e)
          (refresh_item-Ensures A U j s r enough fits h e)

    refresh_each-Ensures :
        (A U : ℕ → Bool) (js : List ℕ) (s : ExpansionScheduler Kind)
        → ((j : ℕ) → contains j js ≡ true → (j < length s.work) × (length s.work ≤ fuel + j))
        → length s.recoveries + open_count s.work ≤ 2 ^ 32
        → Sound A (either (λ j. contains j js) U) s
        → Ensures (Refreshed A U s) (refresh_each order rec js s)
    unfolding refresh_each contains
    refresh_each-Ensures A U [] s there fits h = (h, Kept-refl s)
    refresh_each-Ensures A U (j ∷ js) s there fits h =
        let (inside, enough) = there j (ground arith) in
        and_then-Ensures (Refreshed A (either (λ k. contains k js) U) s) (Refreshed A U s)
          (refresh order rec j s) (refresh_each order rec js)
          (refresh-Ensures A (either (λ k. contains k js) U) j s inside enough fits (
            Sound-mono A (either (λ k. contains k (j ∷ js)) U) A
              (also j (either (λ k. contains k js) U)) s h (λ k a. a) (λ k u. ground arith)))
          (λ t (sound, kept).
            Ensures-map (Refreshed A U t) (Refreshed A U s) (refresh_each order rec js t)
              (refresh_each-Ensures A U js t
                (λ k m.
                  let (a, b) = there k (contains_more k j js m) in
                  (omega (arith, a, kept.count), omega (arith, b, kept.count)))
                (omega (arith, fits, kept.tally)) sound)
              (λ u (done, more). (done, Kept-trans s t u kept more)))

    pub refresh_dependents-Ensures :
        (A U : ℕ → Bool) (i : ℕ) (s : ExpansionScheduler Kind)
        → length s.work ≤ suc (fuel + i)
        → length s.recoveries + open_count s.work ≤ 2 ^ 32
        → Sound A (either (has_edge i s.edges) U) s
        → Ensures (Refreshed A U s) (refresh_dependents order rec i s)
    unfolding refresh_dependents refresh_sorted
    refresh_dependents-Ensures A U i s enough fits h =
        let (keys, made, same) = dependents order s.work i s.edges h.ascend in
        subst (λ o. Ensures (Refreshed A U s) (refresh_sorted order rec o s)) (sym made)
          (refresh_each-Ensures A U (dedup (map (λ k. k.work) (sort_keys order keys))) s
            (λ j m.
              let (later, inside) =
                has_edge-ascends (length s.work) i j s.edges h.ascend (sym (same j) ∙ m) in
              (inside, omega (arith, later, enough)))
            fits
            (Sound-mono A (either (has_edge i s.edges) U) A
              (either (λ j. contains j (dedup (map (λ k. k.work) (sort_keys order keys)))) U) s h
              (λ j a. a) (λ j u. let is = same j in rw is u)))

    recover_item-Ensures :
        (A U : ℕ → Bool) (i : ℕ) (r : ScheduledExpansion Kind) (reason : RecoveryReason)
        (chain : List ℕ) (s : ExpansionScheduler Kind)
        → length s.work ≤ suc (fuel + i)
        → length s.recoveries + open_count s.work ≤ 2 ^ 32
        → Sound (also i A) (also i U) s
        → get_elem? s.work i ≡ some r
        → is_closed r.state ≡ false
        → Ensures (Recovered A U s) (recover_item order rec i reason chain (some r) s)
    unfolding recover_item
    recover_item-Ensures A U i r reason chain s enough fits h e unfinished =
        let (sound, kept, less) =
          mark_recovered-Sound order law A U s i r reason chain h e unfinished in
        let few : ltb (length s.recoveries) (2 ^ 32) ≡ true =
          lt→ltb (length s.recoveries) (2 ^ 32) (omega (arith, fits, less)) in
        rw (unfinished, few)
          (Ensures-map (Refreshed A U (mark_recovered order i r reason chain s)) (Recovered A U s)
            (refresh_dependents order rec i (mark_recovered order i r reason chain s))
            (refresh_dependents-Ensures A U i (mark_recovered order i r reason chain s)
              (omega (arith, enough, kept.count)) (omega (arith, fits, kept.tally))
              (subst
                (λ es. Sound A (either (has_edge i es) U) (mark_recovered order i r reason chain s))
                (sym kept.edges) sound))
            (λ t (done, more). (
              done,
              Kept-trans s (mark_recovered order i r reason chain s) t kept more,
              omega (arith, less, more.open_items),
            )))

  -- A unit of fuel for each item from the recovered one on is enough.
  pub recover-Ensures : (fuel : ℕ) → IsRecovery fuel (recover order fuel)
  unfolding recover
  recover-Ensures zero A U i r reason chain s enough fits h e unfinished =
      absurd (omega (arith, enough, get_elem?-lt s.work i r e))
  recover-Ensures (suc fuel) A U i r reason chain s enough fits h e unfinished =
      subst
        (λ o.
          Ensures (Recovered A U s) (recover_item order (recover order fuel) i reason chain o s))
        (sym e)
        (recover_item-Ensures fuel (recover order fuel) (recover-Ensures fuel) A U i r reason chain
          s (omega (arith, enough)) fits h e unfinished)
