-- ===== src/Expansion/Queue.antt =====
-- src/expansion/scheduler.rs:234-243, :352-407 and :513-598: enqueueing. The result of a call is with
-- the scheduler after it.
use elamite.Base.{
  ℕ, suc, ◌^◌, Bool, true, false, ◌&&◌, List, [], ◌∷◌, ◌++◌, Option, none, some, get_elem?, length,
  map, all, if◌then◌else◌, ltb, ◌==◌,
}
use elamite.Expansion.Meter.{ExpansionLimits, active_depth_limit, max}
use elamite.Expansion.Chain.{
  ExpansionRole, attribute, derive, role_eq, ExpansionRequest, pending, ScheduledExpansion,
  cycle_chain,
}
use elamite.Expansion.Ready.{LocationOrder}
use elamite.Expansion.Defs.{
  Ended, returned, overflow, violated, and_then, RecoveryReason, cycle, resource_limit,
  DependencyKind, stage, generated, ExpansionScheduler, Changes, refresh, refresh_dependents,
  recover,
}

pub record DefinitionExpansions (Kind : Type 0) : Type 0 where
  pub attributes : List (ExpansionRequest Kind)
  pub derives : List (ExpansionRequest Kind)
  pub invocations : List (ExpansionRequest Kind)

unfoldable pub with_limits : {Kind : Type 0} → ExpansionLimits → ExpansionScheduler Kind
with_limits limits = record {
  work = [];
  edges = [];
  recoveries = [];
  problems = [];
  ready = [];
  limits = limits;
  usage = record { executions = 0; generated_nodes = 0; maximum_depth = 0 };
}

unfoldable pub same_id : Option ℕ → Option ℕ → Bool
same_id none none = true
same_id (some a) (some b) = a == b
same_id _ _ = false

unfoldable pub is_some_id : Option ℕ → Bool
is_some_id none = false
is_some_id (some _) = true

unfoldable pub id_list : Option ℕ → List ℕ
id_list none = []
id_list (some i) = i ∷ []

module _ {Kind : Type 0} where
  -- The pushes of `enqueue_internal`.
  unfoldable pub push_item :
      ExpansionRequest Kind
      → Option ℕ
      → List ℕ
      → DependencyKind
      → ℕ
      → ExpansionScheduler Kind
      → ExpansionScheduler Kind
  push_item request parent dependencies kind depth s = record s {
    work =
        s.work
        ++ record {
          id = length s.work;
          request = request;
          parent = parent;
          dependencies = dependencies;
          depth = depth;
          resources = none;
          state = pending;
        }
          ∷ [];
    edges =
        s.edges
        ++ map (λ p. record { prerequisite = p; dependent = length s.work; kind = kind })
            dependencies;
    usage = record s.usage { maximum_depth = max s.usage.maximum_depth depth };
  }

  unfoldable pub depth_below : Option (ScheduledExpansion Kind) → Ended ℕ
  depth_below none = violated
  depth_below (some r) = if ltb (suc r.depth) (2 ^ 32) then returned (suc r.depth) else overflow

  unfoldable pub depth_of : List (ScheduledExpansion Kind) → Option ℕ → Ended ℕ
  depth_of work none = returned 1
  depth_of work (some parent) = depth_below (get_elem? work parent)

  unfoldable pub all_of_role : ExpansionRole → List (ExpansionRequest Kind) → Bool
  all_of_role role requests = all (λ r. role_eq r.role role) requests

  module _ (order : LocationOrder) where
    -- The fuel of a recovery: a unit for each item and one more.
    unfoldable pub recover_all : ℕ → RecoveryReason → List ℕ → Changes Kind
    recover_all i reason chain s = recover order (suc (length s.work)) i reason chain s

    unfoldable pub refresh_all : ℕ → Changes Kind
    refresh_all i s = refresh order (recover order (suc (length s.work))) i s

    unfoldable pub refresh_dependents_all : ℕ → Changes Kind
    refresh_dependents_all i s = refresh_dependents order (recover order (suc (length s.work))) i s

module _ {Kind : Type 0} (same_kind : Kind → Kind → Bool) (order : LocationOrder) where
  -- What becomes of a new item.
  unfoldable pub admit_chain : ℕ → Option (Option (List ℕ)) → Changes Kind
  admit_chain id none s = violated
  admit_chain id (some (some chain)) s = recover_all order id cycle chain s
  admit_chain id (some none) s = refresh_all order id s

  unfoldable pub admit : ℕ → ℕ → Changes Kind
  admit id depth s =
      if ltb s.limits.active_depth depth
      then recover_all order id (resource_limit active_depth_limit) [] s
      else admit_chain id (cycle_chain same_kind s.work id) s

  unfoldable pub enqueue_internal :
      ExpansionRequest Kind
      → Option ℕ
      → List ℕ
      → DependencyKind
      → ExpansionScheduler Kind
      → Ended (ℕ × ExpansionScheduler Kind)
  enqueue_internal request parent dependencies kind s =
      if all (λ d. ltb d (length s.work)) dependencies
      then if ltb (length s.work) (2 ^ 32)
        then and_then (depth_of s.work parent) (λ depth.
          and_then
            (admit (length s.work) depth (push_item request parent dependencies kind depth s))
            (λ after. returned (length s.work, after)))
        else overflow
      else violated

  unfoldable pub enqueue :
      ExpansionRequest Kind → ExpansionScheduler Kind → Ended (ℕ × ExpansionScheduler Kind)
  enqueue request s = enqueue_internal request none [] stage s

  -- The loop of `enqueue_definition_after`.
  unfoldable pub enqueue_chain :
      Option ℕ
      → Option ℕ
      → List (ExpansionRequest Kind)
      → ExpansionScheduler Kind
      → Ended (List ℕ × ExpansionScheduler Kind)
  enqueue_chain generated_by previous [] s = returned ([], s)
  enqueue_chain generated_by previous (request ∷ requests) s =
      and_then
        (enqueue_internal request previous (id_list previous)
          (if same_id previous generated_by && is_some_id generated_by then generated else stage) s)
        (λ (id, after).
          and_then (enqueue_chain generated_by (some id) requests after)
            (λ (ids, last). returned (id ∷ ids, last)))

  unfoldable pub enqueue_definition_after :
      Option ℕ
      → DefinitionExpansions Kind
      → ExpansionScheduler Kind
      → Ended (List ℕ × ExpansionScheduler Kind)
  enqueue_definition_after generated_by d s =
      if all_of_role attribute d.attributes && all_of_role derive d.derives
      then enqueue_chain generated_by generated_by (d.attributes ++ (d.derives ++ d.invocations)) s
      else violated

  unfoldable pub enqueue_definition :
      DefinitionExpansions Kind → ExpansionScheduler Kind → Ended (List ℕ × ExpansionScheduler Kind)
  enqueue_definition d s = enqueue_definition_after none d s
