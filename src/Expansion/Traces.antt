-- ===== src/Expansion/Traces.antt =====
-- A whole trace of the meter.
use elamite.Base.{
  ℕ, ◌+◌, ◌^◌, ◌<◌, ◌≡◌, refl, ap, ◌∙◌, ◌⊎◌, inl, inr, List, [], ◌∷◌, ◌++◌, Option, none, some,
  arith, subst,
}
use elamite.Expansion.Meter.{
  ExpansionLimits, ResourceLimitKind, ExecutionResources, ChargeResult, charged, refused,
  new_resources,
}
use elamite.Expansion.Limits.{
  MeterEvent, charge, allocate, release, event_step, run_events, cons_result, granted_steps,
  granted_bytes, released_bytes, first_refusal, IsWithin, AreJust, Metered, event_step-Answers,
}

-- A release of more bytes than are held after the events before it.
abbrev pub Overdraws : ExecutionResources → List MeterEvent → Type 0
Overdraws m events =
    (before rest : List MeterEvent) × (n : ℕ) × (results : List ChargeResult)
    × (held : ExecutionResources) × (events ≡ before ++ release n ∷ rest)
    × (run_events before m ≡ some (results, held))
    × (held.usage.live_value_bytes < n)

-- The trace is answered, or it overdraws and panics.
abbrev pub Traces : ExecutionResources → ExecutionResources → List MeterEvent → Type 0
Traces start m events =
    ((results : List ChargeResult) × (after : ExecutionResources) × (run_events events m
        ≡ some (results, after))
      × Metered start m events results after)
    ⊎ (run_events events m ≡ none) × Overdraws m events

more_refusals :
    (r : ChargeResult) (results : List ChargeResult) (o : Option ResourceLimitKind)
    → first_refusal (first_refusal o (r ∷ [])) results ≡ first_refusal o (r ∷ results)
unfolding first_refusal
more_refusals charged results o = refl
more_refusals (refused limit) results o = refl

module _ (start m mid after : ExecutionResources) where
  abbrev Totals : MeterEvent → ChargeResult → List MeterEvent → List ChargeResult → Type 0
  Totals e r events results =
      (granted_steps (e ∷ events) (r ∷ results)
        ≡ granted_steps (e ∷ []) (r ∷ []) + granted_steps events results)
      × (granted_bytes (e ∷ events) (r ∷ results)
          ≡ granted_bytes (e ∷ []) (r ∷ []) + granted_bytes events results)
      × (released_bytes (e ∷ events) ≡ released_bytes (e ∷ []) + released_bytes events)

  totals :
      (e : MeterEvent) (r : ChargeResult) (events : List MeterEvent) (results : List ChargeResult)
      → Totals e r events results
  unfolding granted_steps granted_bytes released_bytes
  totals (charge n) charged events results = (omega arith, omega arith, omega arith)
  totals (charge n) (refused l) events results = (omega arith, omega arith, omega arith)
  totals (allocate n) charged events results = (omega arith, omega arith, omega arith)
  totals (allocate n) (refused l) events results = (omega arith, omega arith, omega arith)
  totals (release n) charged events results = (omega arith, omega arith, omega arith)
  totals (release n) (refused l) events results = (omega arith, omega arith, omega arith)

  same_totals :
      (s s' l l' : ℕ) (events : List MeterEvent) (results : List ChargeResult)
      → s ≡ s'
      → l ≡ l'
      → AreJust start s l events results
      → AreJust start s' l' events results
  same_totals s s' l l' events results e f j =
      subst (λ z. AreJust start z l' events results) e
        (subst (λ z. AreJust start s z events results) f j)

  more_just :
      (e : MeterEvent) (r : ChargeResult) (events : List MeterEvent) (results : List ChargeResult)
      → Metered start m (e ∷ []) (r ∷ []) mid
      → AreJust start mid.usage.interpreter_steps mid.usage.live_value_bytes events results
      → AreJust start m.usage.interpreter_steps m.usage.live_value_bytes (e ∷ events) (r ∷ results)
  unfolding granted_steps granted_bytes released_bytes
  more_just (charge n) charged events results one j =
      same_totals _ _ _ _ events results (omega (arith, one.steps_are)) (omega (arith, one.live_is))
        j
  more_just (charge n) (refused l) events results one j = (
    one.just.0,
    same_totals _ _ _ _ events results (omega (arith, one.steps_are)) (omega (arith, one.live_is))
        j,
  )
  more_just (allocate n) charged events results one j =
      same_totals _ _ _ _ events results (omega (arith, one.steps_are)) (omega (arith, one.live_is))
        j
  more_just (allocate n) (refused l) events results one j = (
    one.just.0,
    same_totals _ _ _ _ events results (omega (arith, one.steps_are)) (omega (arith, one.live_is))
        j,
  )
  more_just (release n) charged events results one j =
      same_totals _ _ _ _ events results (omega (arith, one.steps_are)) (omega (arith, one.live_is))
        j
  more_just (release n) (refused x) events results one j =
      same_totals _ _ _ _ events results (omega (arith, one.steps_are)) (omega (arith, one.live_is))
        j

  combine :
      (e : MeterEvent) (r : ChargeResult) (events : List MeterEvent) (results : List ChargeResult)
      → Metered start m (e ∷ []) (r ∷ []) mid
      → Metered start mid events results after
      → Metered start m (e ∷ events) (r ∷ results) after
  combine e r events results one rest =
      let (steps, bytes, back) = totals e r events results in
      record {
        within = rest.within;
        steps_are = omega (arith, steps, one.steps_are, rest.steps_are);
        live_is = omega (arith, bytes, back, one.live_is, rest.live_is);
        refusal_is =
            rest.refusal_is
            ∙ (ap (λ o. first_refusal o results) one.refusal_is
                ∙ more_refusals r results m.exhausted);
        just = more_just e r events results one rest.just;
      }

held-Metered : (start m : ExecutionResources) → IsWithin start m → Metered start m [] [] m
unfolding granted_steps granted_bytes released_bytes first_refusal
held-Metered start m w = record {
  within = w;
  steps_are = omega arith;
  live_is = omega arith;
  refusal_is = refl;
  just = tt;
}

module _ (start : ExecutionResources)
    (u64 : (start.step_limit < 2 ^ 64) × (start.live_value_limit < 2 ^ 64)) where
  later :
      (m mid : ExecutionResources) (e : MeterEvent) (r : ChargeResult) (events : List MeterEvent)
      → event_step e m ≡ some (r, mid)
      → Metered start m (e ∷ []) (r ∷ []) mid
      → Traces start mid events
      → Traces start m (e ∷ events)
  unfolding run_events cons_result
  later m mid e r events h one (inl (results, after, h', rest)) = inl (
    r ∷ results,
    after,
    rw (h, h', run_events) refl,
    combine start m mid after e r events results one rest,
  )
  later m mid e r events h one (inr (h', (before, rest, n, results, held, split, run, less))) =
      inr (
        rw (h, h', run_events) refl,
        (
          e ∷ before,
          rest,
          n,
          r ∷ results,
          held,
          ap (λ z. e ∷ z) split,
          rw (h, run, run_events) refl,
          less,
        ),
      )

  trace-Traces :
      (events : List MeterEvent) (m : ExecutionResources) → IsWithin start m → Traces start m events
  unfolding run_events
  trace-Traces [] m w = inl ([], m, refl, held-Metered start m w)
  trace-Traces (e ∷ events) m w = elim (event_step-Answers start m w u64 e) [
    | inl (r, mid, h, one) ↦ later m mid e r events h one (trace-Traces events mid one.within)
    | inr (n, is, h, less) ↦
        inr (rw (h, run_events) refl, ([], events, n, [], m, ap (λ z. z ∷ events) is, refl, less))
  ]

fresh-IsWithin : (limits : ExpansionLimits) → IsWithin (new_resources limits) (new_resources limits)
unfolding new_resources
fresh-IsWithin limits = record {
  step_limit = refl;
  live_limit = refl;
  steps = omega arith;
  live = omega arith;
  peak = omega arith;
}

-- With 64-bit limits, a new meter answers every sequence of charges, allocations and releases in
-- which no release exceeds what is held, and panics on the others. Its steps are those it granted, its
-- live bytes those granted and not released, both and the peak within the limits; it refuses only what
-- exceeds a limit; and its exhaustion is the first refusal.
pub run_events_lem :
    (limits : ExpansionLimits)
    → limits.interpreter_steps < 2 ^ 64
    → limits.live_value_bytes < 2 ^ 64
    → (events : List MeterEvent) → Traces (new_resources limits) (new_resources limits) events
unfolding new_resources
run_events_lem limits a b events =
    trace-Traces (new_resources limits) (a, b) events (new_resources limits) (fresh-IsWithin limits)
