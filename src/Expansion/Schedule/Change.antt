-- ===== src/Expansion/Schedule/Change.antt =====
-- One item of the scheduler changes, with the ready set.
use elamite.Base.{
  ℕ, ◌<◌, ◌≡◌, sym, ◌∙◌, Bool, true, false, ◌⊎◌, inl, inr, List, some, arith, get_elem?, contains,
  Bool-cases, subst,
}
use elamite.Expansion.Chain.{ScheduledExpansion}
use elamite.Expansion.Ready.{ReadyKey}
use elamite.Expansion.Defs.{ExpansionScheduler, is_completed, update_at}
use elamite.Expansion.Schedule.Work.{length-update_at, update_at_cases, SameFlags}
use elamite.Expansion.Schedule.Keys.{ids}
use elamite.Expansion.Schedule.Keyed.{Keyed}
use elamite.Expansion.Schedule.Sound.{
  has_edge, edges_ascend, StateSound, StateSound-map, ItemSound, Sound, CompletedAt-kept,
  Waits-changed,
}

module _ {Kind : Type 0} where
  -- The parts of an item that a change leaves.
  abbrev pub SameItem : ScheduledExpansion Kind → ScheduledExpansion Kind → Type 0
  SameItem r x =
      (x.parent ≡ r.parent)
      × (x.dependencies ≡ r.dependencies)
      × (x.depth ≡ r.depth)
      × (x.id ≡ r.id)

  -- The dependents of the item are to be refreshed, if the change is one for them.
  pub Sound-change :
      (A U A' U' : ℕ → Bool) (s : ExpansionScheduler Kind) (i : ℕ) (r : ScheduledExpansion Kind)
      (f : ScheduledExpansion Kind → ScheduledExpansion Kind) (keys : List ReadyKey)
      → Sound A U s
      → get_elem? s.work i ≡ some r
      → SameItem r (f r)
      → is_completed r.state ≡ false
      → Keyed (update_at i f s.work) keys
      → ((j : ℕ) → (j ≡ i → ⊥) → A j ≡ true → A' j ≡ true)
      → ((j : ℕ) → (j ≡ i → ⊥) → U j ≡ true → U' j ≡ true)
      → ((j : ℕ) → (j ≡ i → ⊥) → contains j (ids s.ready) ≡ true → contains j (ids keys) ≡ true)
      → ((j : ℕ) → has_edge i s.edges j ≡ true → U' j ≡ true) ⊎ SameFlags r.state (f r).state
      → StateSound A' U' (update_at i f s.work) keys i r.dependencies (f r).state
      → Sound A' U' (record s { work = update_at i f s.work; ready = keys })
  Sound-change A U A' U' s i r f keys h e same unfinished keyed a u k told own = record {
    items = λ j x at. elim (update_at_cases f i j s.work r x e at) [
      | inl (is, new) ↦
          subst (λ z. ItemSound A' U' work' s.edges keys j z) (sym new)
            (subst (λ z. ItemSound A' U' work' s.edges keys z (f r)) (sym is) changed)
      | inr (apart, old) ↦ other j x apart old
    ];
    ascend =
        subst (λ n. edges_ascend n s.edges ≡ true) (sym (length-update_at f i s.work)) h.ascend;
    keyed = keyed;
  }
    where
      work' : List (ScheduledExpansion Kind)
      work' = update_at i f s.work

      changed : ItemSound A' U' work' s.edges keys i (f r)
      changed =
          let ((before, deep, named), deps, st) = h.items i r e in
          (
            ((λ p is. before p (sym (same.0) ∙ is)), omega (arith, deep, same.2), same.3 ∙ named),
            subst (λ ds. (d : ℕ) → contains d ds ≡ true → (d < i) × (has_edge d s.edges i ≡ true))
                (sym (same.1)) deps,
            subst (λ ds. StateSound A' U' work' keys i ds (f r).state) (sym (same.1)) own,
          )

      other :
          (j : ℕ) (x : ScheduledExpansion Kind)
          → (j ≡ i → ⊥)
          → get_elem? s.work j ≡ some x
          → ItemSound A' U' work' s.edges keys j x
      other j x apart at =
          let (before, deps, st) = h.items j x at in
          (
            before,
            deps,
            StateSound-map A U A' U' s.work work' s.ready keys j x.dependencies x.state
                (λ d m c. CompletedAt-kept f i s.work r e unfinished d c)
                (λ w. elim (Bool-cases (contains i x.dependencies)) [
                  | inl on ↦ elim told [
                    | inl later ↦ inr (later j (deps i on).1)
                    | inr alike ↦ inl (Waits-changed f i s.work r e x.dependencies (inr alike) w)
                  ]
                  | inr off ↦ inl (Waits-changed f i s.work r e x.dependencies (inl off) w)
                ])
                (u j apart) (a j apart) (k j apart) st,
          )
