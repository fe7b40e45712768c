-- ===== src/Expansion/Defs.antt =====
-- src/expansion/scheduler.rs:62-68, :236-258, :262-283, :311-350 and :615-706: the state of the
-- scheduler, and the refreshes and recoveries that one change of a state causes.
use elamite.Base.{
  ℕ, zero, suc, ◌^◌, Bool, true, false, ◌||◌, List, [], ◌∷◌, ◌++◌, Option, none, some, get_elem?,
  length, map, any, all, if◌then◌else◌, ltb, ◌==◌,
}
use elamite.Expansion.Meter.{ExpansionLimits, ResourceLimitKind}
use elamite.Expansion.Chain.{
  ExpansionRole, ExpansionWorkState, pending, ready, active, completed, recovered,
  ScheduledExpansion,
}
use elamite.Expansion.Ready.{LocationOrder, ReadyKey, insert_key, remove_key, sort_keys, dedup}

-- How a call ends: it returns, an `expect` on a 32-bit counter fails, an assertion or a read out of
-- range fails, or no fuel is left.
pub data Ended (A : Type 0) : Type 0 where
  returned : A → Ended A
  overflow violated out_of_fuel : Ended A

unfoldable pub and_then : {A B : Type 0} → Ended A → (A → Ended B) → Ended B
and_then (returned a) f = f a
and_then overflow f = overflow
and_then violated f = violated
and_then out_of_fuel f = out_of_fuel

pub record ExpansionResourceUsage : Type 0 where
  pub executions : ℕ
  pub generated_nodes : ℕ
  pub maximum_depth : ℕ

pub data RecoveryReason : Type 0 where
  cycle dependency invalid_output execution_failure : RecoveryReason
  resource_limit : ResourceLimitKind → RecoveryReason

pub record RecoveryNode : Type 0 where
  pub id : ℕ
  pub work : ℕ
  pub role : ExpansionRole
  pub reason : RecoveryReason
  pub active_chain : List ℕ

pub record ScheduleProblem : Type 0 where
  pub work : ℕ
  pub invocation : ℕ
  pub definition : ℕ
  pub reason : RecoveryReason
  pub active_chain : List ℕ

pub data DependencyKind : Type 0 where
  stage generated : DependencyKind

pub record ExpansionDependency : Type 0 where
  pub prerequisite : ℕ
  pub dependent : ℕ
  pub kind : DependencyKind

pub record ExpansionScheduler (Kind : Type 0) : Type 0 where
  pub work : List (ScheduledExpansion Kind)
  pub edges : List ExpansionDependency
  pub recoveries : List RecoveryNode
  pub problems : List ScheduleProblem
  pub ready : List ReadyKey
  pub limits : ExpansionLimits
  pub usage : ExpansionResourceUsage

unfoldable pub is_pending : ExpansionWorkState → Bool
is_pending pending = true
is_pending _ = false

unfoldable pub is_ready : ExpansionWorkState → Bool
is_ready ready = true
is_ready _ = false

unfoldable pub is_active : ExpansionWorkState → Bool
is_active active = true
is_active _ = false

unfoldable pub is_completed : ExpansionWorkState → Bool
is_completed completed = true
is_completed _ = false

unfoldable pub is_recovered : ExpansionWorkState → Bool
is_recovered (recovered _) = true
is_recovered _ = false

unfoldable pub is_dependency : RecoveryReason → Bool
is_dependency dependency = true
is_dependency _ = false

unfoldable pub update_at {ℓ} : {A : Type ℓ} → ℕ → (A → A) → List A → List A
update_at i f [] = []
update_at zero f (x ∷ xs) = f x ∷ xs
update_at (suc i) f (x ∷ xs) = x ∷ update_at i f xs

abbrev pub Changes : Type 0 → Type 0
Changes Kind = ExpansionScheduler Kind → Ended (ExpansionScheduler Kind)

abbrev pub Recovers : Type 0 → Type 0
Recovers Kind = ℕ → RecoveryReason → List ℕ → Changes Kind

module _ {Kind : Type 0} where
  abbrev pub with_state : ExpansionWorkState → ScheduledExpansion Kind → ScheduledExpansion Kind
  with_state state r = record r { state = state }

  -- `self.work[i].state = state`, on a work item that is there
  abbrev pub set_state : ℕ → ExpansionWorkState → ExpansionScheduler Kind → ExpansionScheduler Kind
  set_state i state s = record s { work = update_at i (with_state state) s.work }

  -- The states of the dependencies, or `none` where one is out of range.
  unfoldable pub add_state :
      Option (ScheduledExpansion Kind)
      → Option (List ExpansionWorkState)
      → Option (List ExpansionWorkState)
  add_state (some r) (some states) = some (r.state ∷ states)
  add_state none states = none
  add_state (some r) none = none

  unfoldable pub states_of :
      List (ScheduledExpansion Kind) → List ℕ → Option (List ExpansionWorkState)
  states_of work [] = some []
  states_of work (d ∷ ds) = add_state (get_elem? work d) (states_of work ds)

  -- The dependents of a prerequisite with the locations of their requests.
  unfoldable pub add_key :
      ℕ → Option (ScheduledExpansion Kind) → Option (List ReadyKey) → Option (List ReadyKey)
  add_key dependent (some r) (some keys) =
      some (record { location = r.request.location; work = dependent } ∷ keys)
  add_key dependent none keys = none
  add_key dependent (some r) none = none

  unfoldable pub dependent_keys :
      List (ScheduledExpansion Kind) → ℕ → List ExpansionDependency → Option (List ReadyKey)
  dependent_keys work prerequisite [] = some []
  dependent_keys work prerequisite (e ∷ edges) =
      let later = dependent_keys work prerequisite edges in
      if e.prerequisite == prerequisite
      then add_key e.dependent (get_elem? work e.dependent) later
      else later

  -- The changes of `recover` before it refreshes the dependents.
  unfoldable pub mark_recovered :
      LocationOrder
      → ℕ
      → ScheduledExpansion Kind
      → RecoveryReason
      → List ℕ
      → ExpansionScheduler Kind
      → ExpansionScheduler Kind
  mark_recovered order i r reason chain s = record s {
    work = update_at i (with_state (recovered (length s.recoveries))) s.work;
    ready = remove_key order (record { location = r.request.location; work = i }) s.ready;
    recoveries =
        s.recoveries
        ++ record {
          id = length s.recoveries;
          work = i;
          role = r.request.role;
          reason = reason;
          active_chain = chain;
        }
          ∷ [];
    problems =
        if is_dependency reason
        then s.problems
        else s.problems
          ++ record {
            work = i;
            invocation = r.request.invocation;
            definition = r.request.definition;
            reason = reason;
            active_chain = chain;
          }
            ∷ [];
  }

  unfoldable pub make_ready :
      LocationOrder
      → ℕ
      → ScheduledExpansion Kind
      → ExpansionScheduler Kind
      → ExpansionScheduler Kind
  make_ready order i r s = record s {
    work = update_at i (with_state ready) s.work;
    ready = insert_key order (record { location = r.request.location; work = i }) s.ready;
  }

  -- `refresh` at a pending item, by the states of its dependencies.
  unfoldable pub refresh_pending :
      LocationOrder
      → Recovers Kind
      → ℕ
      → ScheduledExpansion Kind
      → Option (List ExpansionWorkState)
      → Changes Kind
  refresh_pending order recover i r none s = violated
  refresh_pending order recover i r (some states) s =
      if any is_recovered states
      then recover i dependency [] s
      else if all is_completed states
      then returned (make_ready order i r s)
      else returned s

  unfoldable pub refresh_item :
      LocationOrder → Recovers Kind → ℕ → Option (ScheduledExpansion Kind) → Changes Kind
  refresh_item order recover i none s = violated
  refresh_item order recover i (some r) s =
      if is_pending r.state
      then refresh_pending order recover i r (states_of s.work r.dependencies) s
      else returned s

  unfoldable pub refresh : LocationOrder → Recovers Kind → ℕ → Changes Kind
  refresh order recover i s = refresh_item order recover i (get_elem? s.work i) s

  unfoldable pub refresh_each : LocationOrder → Recovers Kind → List ℕ → Changes Kind
  refresh_each order recover [] s = returned s
  refresh_each order recover (i ∷ is) s =
      and_then (refresh order recover i s) (refresh_each order recover is)

  unfoldable pub refresh_sorted :
      LocationOrder → Recovers Kind → Option (List ReadyKey) → Changes Kind
  refresh_sorted order recover none s = violated
  refresh_sorted order recover (some keys) s =
      refresh_each order recover (dedup (map (λ k. k.work) (sort_keys order keys))) s

  unfoldable pub refresh_dependents : LocationOrder → Recovers Kind → ℕ → Changes Kind
  refresh_dependents order recover prerequisite s =
      refresh_sorted order recover (dependent_keys s.work prerequisite s.edges) s

  unfoldable pub recover_item :
      LocationOrder
      → Recovers Kind
      → ℕ
      → RecoveryReason
      → List ℕ
      → Option (ScheduledExpansion Kind)
      → Changes Kind
  recover_item order recover i reason chain none s = violated
  recover_item order recover i reason chain (some r) s =
      if is_completed r.state || is_recovered r.state
      then violated
      else if ltb (length s.recoveries) (2 ^ 32)
      then refresh_dependents order recover i (mark_recovered order i r reason chain s)
      else overflow

  -- A dependent comes after its prerequisite, so that a unit of fuel for each item is enough.
  unfoldable pub recover : LocationOrder → ℕ → Recovers Kind
  recover order zero i reason chain s = out_of_fuel
  recover order (suc fuel) i reason chain s =
      recover_item order (recover order fuel) i reason chain (get_elem? s.work i) s
