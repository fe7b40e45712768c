-- ===== src/Expansion/Limits.antt =====
-- The meter over every sequence of charges, allocations and releases.
use elamite.Base.{
  ℕ, ◌+◌, ◌-◌, ◌^◌, ◌<◌, ◌≤◌, ◌≡◌, refl, false, ◌⊎◌, inl, inr, List, [], ◌∷◌, Option, none, some,
  arith, ltb, ltb→lt, Bool-cases,
}
use elamite.Expansion.Meter.{
  ResourceLimitKind, interpreter_steps_limit, live_value_bytes_limit, ExecutionResources,
  checked_add, checked_sub, get_or_insert, ChargeResult, charged, refused, exhaust, charge_total,
  charge_steps, max, allocate_total, allocate_live_value_bytes, release_total,
  release_live_value_bytes,
}

-- What the interpreter asks of the meter.
pub data MeterEvent : Type 0 where
  charge : ℕ → MeterEvent
  allocate : ℕ → MeterEvent
  release : ℕ → MeterEvent

abbrev Answer : Type 0
Answer = Option (ChargeResult × ExecutionResources)

released : Option ExecutionResources → Answer
released none = none
released (some m) = some (charged, m)

unfoldable pub event_step : MeterEvent → ExecutionResources → Answer
unfolding released
event_step (charge n) m = some (charge_steps n m)
event_step (allocate n) m = some (allocate_live_value_bytes n m)
event_step (release n) m = released (release_live_value_bytes n m)

abbrev pub Trace : Type 0
Trace = Option (List ChargeResult × ExecutionResources)

unfoldable pub cons_result : ChargeResult → Trace → Trace
cons_result r none = none
cons_result r (some (results, m)) = some (r ∷ results, m)

-- The answers to the events in order, and the meter after them.
unfoldable pub run_events : List MeterEvent → ExecutionResources → Trace
unfolding cons_result
run_events [] m = some ([], m)
run_events (e ∷ events) m = elim (event_step e m) [
  | none ↦ none
  | some (r, after) ↦ cons_result r (run_events events after)
]

-- The steps and the bytes of the events that were granted, and the bytes released.
unfoldable pub granted_steps : List MeterEvent → List ChargeResult → ℕ
granted_steps (charge n ∷ events) (charged ∷ results) = n + granted_steps events results
granted_steps (_ ∷ events) (_ ∷ results) = granted_steps events results
granted_steps _ _ = 0

unfoldable pub granted_bytes : List MeterEvent → List ChargeResult → ℕ
granted_bytes (allocate n ∷ events) (charged ∷ results) = n + granted_bytes events results
granted_bytes (_ ∷ events) (_ ∷ results) = granted_bytes events results
granted_bytes _ _ = 0

unfoldable pub released_bytes : List MeterEvent → ℕ
released_bytes [] = 0
released_bytes (release n ∷ events) = n + released_bytes events
released_bytes (_ ∷ events) = released_bytes events

-- The first refusal, after one that may have been met before.
unfoldable pub first_refusal :
    Option ResourceLimitKind → List ChargeResult → Option ResourceLimitKind
first_refusal o [] = o
first_refusal o (charged ∷ results) = first_refusal o results
first_refusal o (refused limit ∷ results) = first_refusal (some (get_or_insert o limit)) results

-- The meter is within its limits, which are those of `start`.
pub record IsWithin (start : ExecutionResources) (m : ExecutionResources) : Type 0 where
  pub step_limit : m.step_limit ≡ start.step_limit
  pub live_limit : m.live_value_limit ≡ start.live_value_limit
  pub steps : m.usage.interpreter_steps ≤ start.step_limit
  pub live : m.usage.live_value_bytes ≤ m.usage.peak_live_value_bytes
  pub peak : m.usage.peak_live_value_bytes ≤ start.live_value_limit

-- Every refusal is of more than the limit leaves, when so many steps and bytes are in use.
abbrev pub AreJust : ExecutionResources → ℕ → ℕ → List MeterEvent → List ChargeResult → Type 0
AreJust start steps live (charge n ∷ events) (charged ∷ results) =
    AreJust start (steps + n) live events results
AreJust start steps live (charge n ∷ events) (refused _ ∷ results) =
    (start.step_limit < steps + n) × AreJust start steps live events results
AreJust start steps live (allocate n ∷ events) (charged ∷ results) =
    AreJust start steps (live + n) events results
AreJust start steps live (allocate n ∷ events) (refused _ ∷ results) =
    (start.live_value_limit < live + n) × AreJust start steps live events results
AreJust start steps live (release n ∷ events) (_ ∷ results) =
    AreJust start steps (live - n) events results
AreJust start steps live _ _ = Unit

not_ltb : (a b : ℕ) → ltb a b ≡ false → b ≤ a
not_ltb a b h = ground arith

max-bounds : (a b limit : ℕ) → a ≤ limit → b ≤ limit → (b ≤ max a b) × (max a b ≤ limit)
unfolding max
max-bounds a b limit h g = (ground arith, ground arith)

-- What a trace promises of the meter after it and of the answers.
pub record Metered (start m : ExecutionResources) (events : List MeterEvent)
    (results : List ChargeResult) (after : ExecutionResources) : Type 0 where
  pub within : IsWithin start after
  pub steps_are :
      after.usage.interpreter_steps ≡ m.usage.interpreter_steps + granted_steps events results
  pub live_is :
      after.usage.live_value_bytes + released_bytes events
      ≡ m.usage.live_value_bytes + granted_bytes events results
  pub refusal_is : after.exhausted ≡ first_refusal m.exhausted results
  pub just : AreJust start m.usage.interpreter_steps m.usage.live_value_bytes events results

module _ (start m : ExecutionResources) (w : IsWithin start m)
    (u64 : (start.step_limit < 2 ^ 64) × (start.live_value_limit < 2 ^ 64)) where
  -- What one event promises.
  abbrev Step : MeterEvent → ChargeResult → ExecutionResources → Type 0
  Step e r after = Metered start m (e ∷ []) (r ∷ []) after

  refused_steps :
      (n : ℕ)
      → start.step_limit < m.usage.interpreter_steps + n
      → Step (charge n) (refused interpreter_steps_limit) (exhaust interpreter_steps_limit m).1
  unfolding exhaust granted_steps granted_bytes released_bytes first_refusal
  refused_steps n over = record {
    within = record {
      step_limit = w.step_limit;
      live_limit = w.live_limit;
      steps = w.steps;
      live = w.live;
      peak = w.peak;
    };
    steps_are = omega arith;
    live_is = omega arith;
    refusal_is = refl;
    just = (over, tt);
  }

  charge-Step : (n : ℕ) → Step (charge n) (charge_steps n m).0 (charge_steps n m).1
  unfolding charge_steps charge_total checked_add exhaust granted_steps granted_bytes released_bytes
      first_refusal
  charge-Step n = elim (Bool-cases (ltb (m.usage.interpreter_steps + n) (2 ^ 64))) [
    | inl fits ↦ elim (Bool-cases (ltb m.step_limit (m.usage.interpreter_steps + n))) [
      | inl over ↦ rw (fits, over) (refused_steps n (omega (arith, w.step_limit, ltb→lt _ _ over)))
      | inr under ↦
          rw (fits, under)
            (record {
              within = record {
                step_limit = w.step_limit;
                live_limit = w.live_limit;
                steps = omega (arith, w.step_limit, not_ltb _ _ under);
                live = w.live;
                peak = w.peak;
              };
              steps_are = omega arith;
              live_is = omega arith;
              refusal_is = refl;
              just = tt;
            })
    ]
    | inr wraps ↦ rw wraps (refused_steps n (omega (arith, u64, not_ltb _ _ wraps)))
  ]

  refused_bytes :
      (n : ℕ)
      → start.live_value_limit < m.usage.live_value_bytes + n
      → Step (allocate n) (refused live_value_bytes_limit) (exhaust live_value_bytes_limit m).1
  unfolding exhaust granted_steps granted_bytes released_bytes first_refusal
  refused_bytes n over = record {
    within = record {
      step_limit = w.step_limit;
      live_limit = w.live_limit;
      steps = w.steps;
      live = w.live;
      peak = w.peak;
    };
    steps_are = omega arith;
    live_is = omega arith;
    refusal_is = refl;
    just = (over, tt);
  }

  allocate-Step :
      (n : ℕ)
      → Step (allocate n) (allocate_live_value_bytes n m).0 (allocate_live_value_bytes n m).1
  unfolding allocate_live_value_bytes allocate_total checked_add exhaust granted_steps granted_bytes
      released_bytes first_refusal
  allocate-Step n = elim (Bool-cases (ltb (m.usage.live_value_bytes + n) (2 ^ 64))) [
    | inl fits ↦ elim (Bool-cases (ltb m.live_value_limit (m.usage.live_value_bytes + n))) [
      | inl over ↦ rw (fits, over) (refused_bytes n (omega (arith, w.live_limit, ltb→lt _ _ over)))
      | inr under ↦
          let room : m.usage.live_value_bytes + n ≤ start.live_value_limit =
            omega (arith, w.live_limit, not_ltb _ _ under) in
          let (above, below) =
            max-bounds m.usage.peak_live_value_bytes (m.usage.live_value_bytes + n)
              start.live_value_limit w.peak room in
          rw (fits, under)
            (record {
              within = record {
                step_limit = w.step_limit;
                live_limit = w.live_limit;
                steps = w.steps;
                live = above;
                peak = below;
              };
              steps_are = omega arith;
              live_is = omega arith;
              refusal_is = refl;
              just = tt;
            })
    ]
    | inr wraps ↦ rw wraps (refused_bytes n (omega (arith, u64, not_ltb _ _ wraps)))
  ]

  release-Step :
      (n : ℕ)
      → ((after : ExecutionResources) × (release_live_value_bytes n m ≡ some after)
          × Step (release n) charged after)
        ⊎ (release_live_value_bytes n m ≡ none) × (m.usage.live_value_bytes < n)
  unfolding release_live_value_bytes release_total checked_sub granted_steps granted_bytes
      released_bytes first_refusal
  release-Step n = elim (Bool-cases (ltb m.usage.live_value_bytes n)) [
    | inl over ↦ inr (rw over refl, ltb→lt _ _ over)
    | inr under ↦
        let held : n ≤ m.usage.live_value_bytes = not_ltb _ _ under in
        inl (
          record m { usage = record m.usage { live_value_bytes = m.usage.live_value_bytes - n } },
          rw under refl,
          record {
            within = record {
              step_limit = w.step_limit;
              live_limit = w.live_limit;
              steps = w.steps;
              live = omega (arith, w.live);
              peak = w.peak;
            };
            steps_are = omega arith;
            live_is = omega arith;
            refusal_is = refl;
            just = tt;
          },
        )
  ]

  -- An event is answered, or it releases more than is held.
  abbrev Answers : MeterEvent → Type 0
  Answers e =
      ((r : ChargeResult) × (after : ExecutionResources) × (event_step e m ≡ some (r, after))
        × Step e r after)
      ⊎ (n : ℕ) × (e ≡ release n) × (event_step e m ≡ none) × (m.usage.live_value_bytes < n)

  pub event_step-Answers : (e : MeterEvent) → Answers e
  unfolding event_step released
  event_step-Answers (charge n) = inl (_, _, refl, charge-Step n)
  event_step-Answers (allocate n) = inl (_, _, refl, allocate-Step n)
  event_step-Answers (release n) = elim (release-Step n) [
    | inl (after, e, step) ↦ inl (charged, after, rw (e) refl, step)
    | inr (e, less) ↦ inr (n, refl, rw (e) refl, less)
  ]
