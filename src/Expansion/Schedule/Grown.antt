-- ===== src/Expansion/Schedule/Grown.antt =====
-- What enqueueing leaves of the scheduler.
use elamite.Base.{ℕ, ◌+◌, ◌<◌, ◌≤◌, ◌≡◌, refl, ◌∙◌, true, List, ◌++◌, Option, some, arith, length}
use elamite.Expansion.Chain.{attribute, derive}
use elamite.Expansion.Defs.{ExpansionScheduler}
use elamite.Expansion.Queue.{DefinitionExpansions, all_of_role}
use elamite.Expansion.Schedule.Sound.{nobody, Sound}
use elamite.Expansion.Schedule.Count.{Fixed, Fixed-trans, open_count, Kept}

module _ {Kind : Type 0} where
  -- No more recoveries than items that are done.
  abbrev pub Tallied : ExpansionScheduler Kind → Type 0
  Tallied s = length s.recoveries + open_count s.work ≤ length s.work

  pub Tallied-Kept : (s t : ExpansionScheduler Kind) → Kept s t → Tallied s → Tallied t
  Tallied-Kept s t kept h = omega (arith, kept.tally, kept.count, h)

  -- What enqueueing a number of items leaves.
  pub record Grown (n : ℕ) (s t : ExpansionScheduler Kind) : Type 0 where
    pub limits : t.limits ≡ s.limits
    pub executions : t.usage.executions ≡ s.usage.executions
    pub generated_nodes : t.usage.generated_nodes ≡ s.usage.generated_nodes
    pub count : length t.work ≡ n + length s.work
    pub fixed : Fixed s.work t.work
    pub open_items : open_count t.work ≤ n + open_count s.work

  pub Grown-refl : (s : ExpansionScheduler Kind) → Grown 0 s s
  Grown-refl s = record {
    limits = refl;
    executions = refl;
    generated_nodes = refl;
    count = omega arith;
    fixed = λ j r e c. e;
    open_items = omega arith;
  }

  pub Grown-trans :
      (n m : ℕ) (s t u : ExpansionScheduler Kind) → Grown n s t → Grown m t u → Grown (n + m) s u
  Grown-trans n m s t u a b = record {
    limits = b.limits ∙ a.limits;
    executions = b.executions ∙ a.executions;
    generated_nodes = b.generated_nodes ∙ a.generated_nodes;
    count = omega (arith, a.count, b.count);
    fixed = Fixed-trans s.work t.work u.work a.fixed b.fixed;
    open_items = omega (arith, a.open_items, b.open_items);
  }

  -- The scheduler between two calls: sound, with nothing in hand.
  abbrev pub IsSound : ExpansionScheduler Kind → Type 0
  IsSound s = Sound nobody nobody s × Tallied s

  abbrev pub Admitted : ExpansionScheduler Kind → ExpansionScheduler Kind → Type 0
  Admitted s t = Sound nobody nobody t × Kept s t

  abbrev pub IsThere : Option ℕ → ExpansionScheduler Kind → Type 0
  IsThere parent s = (p : ℕ) → parent ≡ some p → p < length s.work

  abbrev pub Enqueued : ExpansionScheduler Kind → ℕ × ExpansionScheduler Kind → Type 0
  Enqueued s (id, t) = (id ≡ length s.work) × IsSound t × Grown 1 s t

  abbrev pub AllEnqueued : ℕ → ExpansionScheduler Kind → List ℕ × ExpansionScheduler Kind → Type 0
  AllEnqueued n s (ids, t) = (length ids ≡ n) × IsSound t × Grown n s t

  -- The roles that the assertions ask for.
  abbrev pub HasRoles : DefinitionExpansions Kind → Type 0
  HasRoles d = (all_of_role attribute d.attributes ≡ true) × (all_of_role derive d.derives ≡ true)

  abbrev pub request_count : DefinitionExpansions Kind → ℕ
  request_count d = length (d.attributes ++ (d.derives ++ d.invocations))
