-- ===== src/Expansion/Schedule/Mark.antt =====
-- src/expansion/scheduler.rs:633-637 and :673-697: an item becomes ready, or is recovered.
use elamite.Base.{
  ℕ, ◌<◌, ◌≡◌, refl, sym, Bool, true, false, inl, inr, List, [], ◌∷◌, some, arith, get_elem?,
  length, length-append, contains, if◌then◌else◌, subst,
}
use elamite.Expansion.Chain.{
  ExpansionWorkState, pending, ready, active, completed, recovered, ScheduledExpansion,
}
use elamite.Expansion.Ready.{LocationOrder, ReadyKey, insert_key, remove_key}
use elamite.Expansion.Defs.{
  RecoveryReason, RecoveryNode, ExpansionScheduler, is_pending, is_completed, is_recovered,
  update_at, with_state, mark_recovered, make_ready,
}
use elamite.Expansion.Schedule.Work.{get_elem?-update_at, length-update_at, SameFlags}
use elamite.Expansion.Schedule.Keys.{
  ids, not_contained, IsReflexive, remove_key-keeps, insert_key-new, insert_key-keeps,
}
use elamite.Expansion.Schedule.Keyed.{
  Keyed, Keyed-ready, Keyed-update_at, Keyed-remove_key, remove_key-gone, Keyed-insert_key,
}
use elamite.Expansion.Schedule.Sound.{
  also, also_cases, has_edge, AllCompleted, StateSound, Sound, Sound-settle, CompletedAt-kept,
}
use elamite.Expansion.Schedule.Change.{Sound-change}
use elamite.Expansion.Schedule.Count.{
  Fixed-update_at, is_closed, open_count, open_count-closes, open_count-same, Kept,
}

pub is_pending-eq : (st : ExpansionWorkState) → is_pending st ≡ true → st ≡ pending
unfolding is_pending
is_pending-eq pending h = refl
is_pending-eq _ h = cc

abbrev pub either : (ℕ → Bool) → (ℕ → Bool) → ℕ → Bool
either E U j = if E j then true else U j

module _ {Kind : Type 0} (order : LocationOrder) (law : IsReflexive order) where
  -- The refresh of an item that is not pending has nothing to do.
  pub not_pending-StateSound :
      (A U : ℕ → Bool) (work : List (ScheduledExpansion Kind)) (keys : List ReadyKey) (j : ℕ)
      (ds : List ℕ) (st : ExpansionWorkState)
      → is_pending st ≡ false
      → StateSound A (also j U) work keys j ds st
      → StateSound A U work keys j ds st
  unfolding is_pending
  not_pending-StateSound A U work keys j ds pending h st = cc
  not_pending-StateSound A U work keys j ds ready h st = st
  not_pending-StateSound A U work keys j ds active h st = st
  not_pending-StateSound A U work keys j ds completed h st = st
  not_pending-StateSound A U work keys j ds (recovered _) h st = st

  pub refreshed :
      (A U : ℕ → Bool) (s : ExpansionScheduler Kind) (j : ℕ) (r : ScheduledExpansion Kind)
      → Sound A (also j U) s
      → get_elem? s.work j ≡ some r
      → StateSound A U s.work s.ready j r.dependencies r.state
      → Sound A U s
  refreshed A U s j r h e own =
      Sound-settle A (also j U) A U s s.ready j h h.keyed
        (λ k apart. ((λ a. a), (λ u. also_cases j U k u apart), (λ m. m)))
        (λ x at.
          let same : r ≡ x = cc in
          subst (λ z. StateSound A U s.work s.ready j z.dependencies z.state) same own)

  pub is_keyless :
      (s : ExpansionScheduler Kind) (j : ℕ) (r : ScheduledExpansion Kind)
      → Keyed s.work s.ready
      → get_elem? s.work j ≡ some r
      → (r.state ≡ ready → ⊥)
      → contains j (ids s.ready) ≡ false
  is_keyless s j r keyed e apart = not_contained j (ids s.ready) (λ there.
      let (x, at, st) = Keyed-ready s.work s.ready j keyed there in
      let same : x ≡ r = cc in apart (subst (λ z. z.state ≡ ready) same st))

  pub make_ready-Sound :
      (A U : ℕ → Bool) (s : ExpansionScheduler Kind) (j : ℕ) (r : ScheduledExpansion Kind)
      → Sound A (also j U) s
      → get_elem? s.work j ≡ some r
      → r.state ≡ pending
      → AllCompleted s.work r.dependencies
      → Sound A U (make_ready order j r s) × Kept s (make_ready order j r s)
  unfolding make_ready is_completed is_recovered
  make_ready-Sound A U s j r h e st done =
      let keyless = is_keyless s j r h.keyed e (λ is. cc) in
      let unfinished : is_completed r.state ≡ false = rw st refl in
      (
        Sound-change A (also j U) A U s j r (with_state ready) (insert_key order key s.ready) h e
            (refl, refl, refl, refl) unfinished
            (Keyed-insert_key order (update_at j (with_state ready) s.work) key s.ready
              (with_state ready r, get_elem?-update_at (with_state ready) j s.work r e, refl, refl)
              keyless (Keyed-update_at s.work s.ready j (with_state ready) keyless h.keyed))
            (λ k apart a. a) (λ k apart u. also_cases j U k u apart)
            (λ k apart m. insert_key-keeps order key s.ready k m)
            (inr (subst (λ z. SameFlags z ready) (sym st) (refl, refl)))
            (
              (λ d m. CompletedAt-kept (with_state ready) j s.work r e unfinished d (done d m)),
              inl (insert_key-new order key s.ready),
            ),
        record {
          limits = refl;
          usage = refl;
          edges = refl;
          fixed = Fixed-update_at (with_state ready) j s.work r e (rw st refl);
          count = length-update_at (with_state ready) j s.work;
          open_items =
              let same = open_count-same (with_state ready) j s.work r e (rw st refl) in
              omega (arith, same);
          tally =
              let same = open_count-same (with_state ready) j s.work r e (rw st refl) in
              omega (arith, same);
        },
      )
    where
      key : ReadyKey
      key = record { location = r.request.location; work = j }

  pub mark_recovered-Sound :
      (A U : ℕ → Bool) (s : ExpansionScheduler Kind) (i : ℕ) (r : ScheduledExpansion Kind)
      (reason : RecoveryReason) (chain : List ℕ)
      → Sound (also i A) (also i U) s
      → get_elem? s.work i ≡ some r
      → is_closed r.state ≡ false
      → Sound A (either (has_edge i s.edges) U) (mark_recovered order i r reason chain s)
        × Kept s (mark_recovered order i r reason chain s)
        × (open_count (mark_recovered order i r reason chain s).work < open_count s.work)
  unfolding mark_recovered is_completed is_recovered
  mark_recovered-Sound A U s i r reason chain h e unfinished =
      let less = open_count-closes mark i s.work r e unfinished refl in
      (
        Sound-change (also i A) (also i U) A (either (has_edge i s.edges) U) s i r mark
            (remove_key order key s.ready) h e (refl, refl, refl, refl) (ground arith)
            (Keyed-update_at s.work (remove_key order key s.ready) i mark
              (remove_key-gone order law s.work key s.ready r h.keyed e refl)
              (Keyed-remove_key order s.work key s.ready h.keyed))
            (λ k apart a. also_cases i A k a apart)
            (λ k apart u. let old = also_cases i U k u apart in ground arith)
            (λ k apart m. remove_key-keeps order key s.ready k apart m) (inl (λ k m. ground arith))
            tt,
        record {
          limits = refl;
          usage = refl;
          edges = refl;
          fixed = Fixed-update_at mark i s.work r e unfinished;
          count = length-update_at mark i s.work;
          open_items = omega (arith, less);
          tally = omega (arith, less, length-append s.recoveries (new ∷ []));
        },
        less,
      )
    where
      mark : ScheduledExpansion Kind → ScheduledExpansion Kind
      mark = with_state (recovered (length s.recoveries))

      new : RecoveryNode
      new = record {
        id = length s.recoveries;
        work = i;
        role = r.request.role;
        reason = reason;
        active_chain = chain;
      }

      key : ReadyKey
      key = record { location = r.request.location; work = i }
