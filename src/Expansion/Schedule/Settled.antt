-- ===== src/Expansion/Schedule/Settled.antt =====
-- Sound schedulers without ready items.
use elamite.Base.{
  ℕ, zero, suc, ◌<◌, ◌≡◌, refl, sym, ap, true, false, ◌||◌, inl, inr, List, [], ◌∷◌, some, arith,
  get_elem?, any, all, contains, ==_refl, subst,
}
use elamite.Expansion.Chain.{
  ExpansionWorkState, pending, ready, active, completed, recovered, ScheduledExpansion,
}
use elamite.Expansion.Defs.{ExpansionScheduler, is_completed, is_recovered, states_of}
use elamite.Expansion.Schedule.Work.{add_state-inv}
use elamite.Expansion.Schedule.Keys.{ids}
use elamite.Expansion.Schedule.Sound.{nobody, AllCompleted, StateSound, Sound}
use elamite.Expansion.Schedule.Count.{is_closed}

module _ {Kind : Type 0} where
  abbrev ClosedAt : List (ScheduledExpansion Kind) → ℕ → Type 0
  ClosedAt work d =
      (r : ScheduledExpansion Kind) → get_elem? work d ≡ some r → is_closed r.state ≡ true

  -- If all dependencies are closed and none is recovered, all are completed.
  all_closed :
      (work : List (ScheduledExpansion Kind)) (ds : List ℕ) (states : List ExpansionWorkState)
      → ((d : ℕ) → contains d ds ≡ true → ClosedAt work d)
      → states_of work ds ≡ some states
      → any is_recovered states ≡ false
      → all is_completed states ≡ true
  unfolding states_of contains
  all_closed work [] states h e none_lost =
      let same : [] ≡ states = cc in ap (all is_completed) (sym same)
  all_closed work (d ∷ ds) states h e none_lost =
      let (r, rest, at, more, is) = add_state-inv (get_elem? work d) (states_of work ds) states e in
      let closed = h d (rw (==_refl d) refl) r at in
      let kept : is_recovered r.state || any is_recovered rest ≡ false =
        subst (λ z. any is_recovered z ≡ false) is none_lost in
      let tail = all_closed work ds rest (λ x m. h x (ground arith)) more (ground arith) in
      rw is (ground arith)

  -- Each item is completed or recovered, and a completed one has its dependencies completed.
  abbrev pub IsSettled : ExpansionScheduler Kind → Type 0
  IsSettled s =
      (j : ℕ) (r : ScheduledExpansion Kind)
      → get_elem? s.work j ≡ some r
      → (is_closed r.state ≡ true) × (r.state ≡ completed → AllCompleted s.work r.dependencies)

  settled_state :
      (s : ExpansionScheduler Kind) (j : ℕ) (ds : List ℕ) (st : ExpansionWorkState)
      → ((d : ℕ) → contains d ds ≡ true → ClosedAt s.work d)
      → s.ready ≡ []
      → StateSound nobody nobody s.work s.ready j ds st
      → is_closed st ≡ true
  unfolding is_completed is_recovered contains
  settled_state s j ds pending below empty (inl (states, known, here, waits)) =
      let done = all_closed s.work ds states below known here in cc
  settled_state s j ds pending below empty (inr u) = cc
  settled_state s j ds ready below empty (done, inl key) =
      let gone = subst (λ ks. contains j (ids ks) ≡ true) empty key in cc
  settled_state s j ds ready below empty (done, inr a) = cc
  settled_state s j ds active below empty (done, a) = cc
  settled_state s j ds completed below empty h = refl
  settled_state s j ds (recovered _) below empty h = refl

  closed_below :
      (n : ℕ) (s : ExpansionScheduler Kind)
      → Sound nobody nobody s
      → s.ready ≡ []
      → (j : ℕ) → j < n
      → ClosedAt s.work j
  closed_below zero s h empty j less r e = absurd (omega (arith, less))
  closed_below (suc n) s h empty j less r e =
      let (before, deps, st) = h.items j r e in
      settled_state s j r.dependencies r.state
        (λ d m.
          closed_below n s h empty d (let earlier = (deps d m).0 in omega (arith, earlier, less)))
        empty st

  pub Sound-IsSettled :
      (s : ExpansionScheduler Kind) → Sound nobody nobody s → s.ready ≡ [] → IsSettled s
  Sound-IsSettled s h empty j r e =
      let (before, deps, st) = h.items j r e in
      (
        closed_below (suc j) s h empty j (omega arith) r e,
        (λ done. subst (StateSound nobody nobody s.work s.ready j r.dependencies) done st),
      )
