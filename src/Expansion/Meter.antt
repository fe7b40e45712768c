-- ===== src/Expansion/Meter.antt =====
-- src/expansion/scheduler.rs:35-140: the limits, and the meter of one execution.
use elamite.Base.{ℕ, ◌+◌, ◌-◌, ◌^◌, ◌*◌, Option, none, some, if◌then◌else◌, ltb}

pub record ExpansionLimits : Type 0 where
  pub active_depth : ℕ
  pub executions : ℕ
  pub generated_nodes : ℕ
  pub interpreter_steps : ℕ
  pub live_value_bytes : ℕ

abbrev pub default_limits : ExpansionLimits
default_limits = record {
  active_depth = 128;
  executions = 65536;
  generated_nodes = 1048576;
  interpreter_steps = 1048576;
  live_value_bytes = 64 * 1024 * 1024;
}

pub data ResourceLimitKind : Type 0 where
  active_depth_limit executions_limit generated_nodes_limit interpreter_steps_limit
        live_value_bytes_limit :
      ResourceLimitKind

pub record ExecutionResourceUsage : Type 0 where
  pub interpreter_steps : ℕ
  pub live_value_bytes : ℕ
  pub peak_live_value_bytes : ℕ

pub record ExecutionResources : Type 0 where
  pub step_limit : ℕ
  pub live_value_limit : ℕ
  pub usage : ExecutionResourceUsage
  pub exhausted : Option ResourceLimitKind

unfoldable pub new_resources : ExpansionLimits → ExecutionResources
new_resources limits = record {
  step_limit = limits.interpreter_steps;
  live_value_limit = limits.live_value_bytes;
  usage = record { interpreter_steps = 0; live_value_bytes = 0; peak_live_value_bytes = 0 };
  exhausted = none;
}

-- `u64::checked_add` and `u64::checked_sub`
unfoldable pub checked_add : ℕ → ℕ → Option ℕ
checked_add a b = if ltb (a + b) (2 ^ 64) then some (a + b) else none

unfoldable pub checked_sub : ℕ → ℕ → Option ℕ
checked_sub a b = if ltb a b then none else some (a - b)

-- `Option::get_or_insert`
unfoldable pub get_or_insert : Option ResourceLimitKind → ResourceLimitKind → ResourceLimitKind
get_or_insert none limit = limit
get_or_insert (some first) limit = first

-- `Result<(), ResourceLimitKind>`
pub data ChargeResult : Type 0 where
  charged : ChargeResult
  refused : ResourceLimitKind → ChargeResult

unfoldable pub exhaust : ResourceLimitKind → ExecutionResources → ChargeResult × ExecutionResources
exhaust limit m = (refused limit, record m { exhausted = some (get_or_insert m.exhausted limit) })

unfoldable pub charge_total : Option ℕ → ExecutionResources → ChargeResult × ExecutionResources
charge_total none m = exhaust interpreter_steps_limit m
charge_total (some total) m =
    if ltb m.step_limit total
    then exhaust interpreter_steps_limit m
    else (charged, record m { usage = record m.usage { interpreter_steps = total } })

unfoldable pub charge_steps : ℕ → ExecutionResources → ChargeResult × ExecutionResources
charge_steps steps m = charge_total (checked_add m.usage.interpreter_steps steps) m

unfoldable pub max : ℕ → ℕ → ℕ
max a b = if ltb a b then b else a

unfoldable pub allocate_total : Option ℕ → ExecutionResources → ChargeResult × ExecutionResources
allocate_total none m = exhaust live_value_bytes_limit m
allocate_total (some total) m =
    if ltb m.live_value_limit total then exhaust live_value_bytes_limit m else (
      charged,
      record m {
        usage = record m.usage {
          live_value_bytes = total;
          peak_live_value_bytes = max m.usage.peak_live_value_bytes total;
        };
      },
    )

unfoldable pub allocate_live_value_bytes :
    ℕ → ExecutionResources → ChargeResult × ExecutionResources
allocate_live_value_bytes bytes m = allocate_total (checked_add m.usage.live_value_bytes bytes) m

unfoldable pub release_total : Option ℕ → ExecutionResources → Option ExecutionResources
release_total none m = none
release_total (some total) m =
    some (record m { usage = record m.usage { live_value_bytes = total } })

-- Where the source panics, `none`.
unfoldable pub release_live_value_bytes : ℕ → ExecutionResources → Option ExecutionResources
release_live_value_bytes bytes m = release_total (checked_sub m.usage.live_value_bytes bytes) m
