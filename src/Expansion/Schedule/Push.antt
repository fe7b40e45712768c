-- ===== src/Expansion/Schedule/Push.antt =====
-- A new item with its edges, before it is admitted.
use elamite.Base.{
  ℕ, suc, ◌<◌, ◌≤◌, ◌≡◌, refl, sym, Bool, true, inl, inr, List, [], ◌∷◌, ◌++◌, Option, none, some,
  arith, get_elem?, get_elem?-append, get_elem?-push, get_elem?-push_cases, length, length-append,
  map, all, contains, ltb, Bool-cases, subst,
}
use elamite.Expansion.Chain.{ExpansionRequest, pending, ScheduledExpansion}
use elamite.Expansion.Ready.{ReadyKey}
use elamite.Expansion.Defs.{DependencyKind, ExpansionDependency, ExpansionScheduler}
use elamite.Expansion.Queue.{push_item}
use elamite.Expansion.Schedule.Work.{Waits-alike}
use elamite.Expansion.Schedule.Keyed.{Keyed}
use elamite.Expansion.Schedule.Sound.{
  nobody, also, also_self, has_edge, edges_ascend, StateSound-map, ItemSound, Sound,
}

has_edge-left :
    (p d : ℕ) (edges more : List ExpansionDependency)
    → has_edge p edges d ≡ true
    → has_edge p (edges ++ more) d ≡ true
unfolding has_edge
has_edge-left p d [] more h = cc
has_edge-left p d (e ∷ edges) more h = let rest = has_edge-left p d edges more in ground arith

has_edge-right :
    (p d : ℕ) (edges more : List ExpansionDependency)
    → has_edge p more d ≡ true
    → has_edge p (edges ++ more) d ≡ true
unfolding has_edge
has_edge-right p d [] more h = h
has_edge-right p d (e ∷ edges) more h = let rest = has_edge-right p d edges more h in ground arith

edges_ascend-append :
    (n : ℕ) (edges more : List ExpansionDependency)
    → edges_ascend n edges ≡ true
    → edges_ascend (suc n) more ≡ true
    → edges_ascend (suc n) (edges ++ more) ≡ true
unfolding edges_ascend
edges_ascend-append n [] more h k = k
edges_ascend-append n (e ∷ edges) more h k =
    let rest = edges_ascend-append n edges more (ground arith) k in ground arith

all_below-contains :
    (n : ℕ) (ds : List ℕ) → all (λ d. ltb d n) ds ≡ true → (d : ℕ) → contains d ds ≡ true → d < n
unfolding contains
all_below-contains n [] h d m = cc
all_below-contains n (x ∷ ds) h d m = elim (Bool-cases (contains d ds)) [
  | inl more ↦ all_below-contains n ds (ground arith) d more
  | inr last ↦ ground arith
]

module _ (kind : DependencyKind) (n : ℕ) where
  abbrev new_edges : List ℕ → List ExpansionDependency
  new_edges ds = map (λ p. record { prerequisite = p; dependent = n; kind = kind }) ds

  has_edge-new : (d : ℕ) (ds : List ℕ) → contains d ds ≡ true → has_edge d (new_edges ds) n ≡ true
  unfolding has_edge contains
  has_edge-new d [] h = cc
  has_edge-new d (x ∷ ds) h = let rest = has_edge-new d ds in ground arith

  edges_ascend-new :
      (ds : List ℕ) → all (λ d. ltb d n) ds ≡ true → edges_ascend (suc n) (new_edges ds) ≡ true
  unfolding edges_ascend
  edges_ascend-new [] h = refl
  edges_ascend-new (x ∷ ds) h = let rest = edges_ascend-new ds (ground arith) in ground arith

module _ {Kind : Type 0} where
  Keyed-append :
      (work : List (ScheduledExpansion Kind)) (new : ScheduledExpansion Kind) (keys : List ReadyKey)
      → Keyed work keys
      → Keyed (work ++ new ∷ []) keys
  Keyed-append work new [] h = tt
  Keyed-append work new (k ∷ keys) ((r, e, st, l), absent, h) = (
    (r, get_elem?-append work (new ∷ []) k.work r e, st, l),
    absent,
    Keyed-append work new keys h,
  )

  -- The scheduler is sound but for the new item, which is to be admitted.
  pub push_item-Sound :
      (A : ℕ → Bool) (s : ExpansionScheduler Kind) (request : ExpansionRequest Kind)
      (parent : Option ℕ) (ds : List ℕ) (kind : DependencyKind) (depth : ℕ)
      → Sound A nobody s
      → all (λ d. ltb d (length s.work)) ds ≡ true
      → ((p : ℕ) → parent ≡ some p → p < length s.work)
      → depth ≤ suc (length s.work)
      → Sound A (also (length s.work) nobody) (push_item request parent ds kind depth s)
        × ((r : ScheduledExpansion Kind) × (get_elem?
                (push_item request parent ds kind depth s).work
                (length s.work)
              ≡ some r)
            × (r.state ≡ pending))
        × (length (push_item request parent ds kind depth s).work ≡ suc (length s.work))
  unfolding push_item
  push_item-Sound A s request parent ds kind depth h below before deep = (
    record {
      items = λ j x at. elim (get_elem?-push_cases s.work new j x at) [
        | inl old ↦ kept j x old
        | inr (is, made) ↦
            subst (λ z. ItemSound A U' work' edges' s.ready j z) (sym made)
              (subst (λ z. ItemSound A U' work' edges' s.ready z new) (sym is) added)
      ];
      ascend =
          subst (λ z. edges_ascend z edges' ≡ true) (sym count)
            (edges_ascend-append n s.edges (new_edges kind n ds) h.ascend
              (edges_ascend-new kind n ds below));
      keyed = Keyed-append s.work new s.ready h.keyed;
    },
    (new, get_elem?-push s.work new, refl),
    count,
  )
    where
      n : ℕ
      n = length s.work

      new : ScheduledExpansion Kind
      new = record {
        id = n;
        request = request;
        parent = parent;
        dependencies = ds;
        depth = depth;
        resources = none;
        state = pending;
      }

      work' : List (ScheduledExpansion Kind)
      work' = s.work ++ new ∷ []

      edges' : List ExpansionDependency
      edges' = s.edges ++ new_edges kind n ds

      U' : ℕ → Bool
      U' = also n nobody

      count : length work' ≡ suc n
      count = let sum = length-append s.work (new ∷ []) in omega (arith, sum)

      added : ItemSound A U' work' edges' s.ready n new
      added = (
        (before, deep, refl),
        (λ d m. (
          all_below-contains n ds below d m,
          has_edge-right d n s.edges (new_edges kind n ds) (has_edge-new kind n d ds m),
        )),
        inr (also_self n nobody),
      )

      kept :
          (j : ℕ) (x : ScheduledExpansion Kind)
          → get_elem? s.work j ≡ some x
          → ItemSound A U' work' edges' s.ready j x
      kept j x old =
          let (parents, deps, st) = h.items j x old in
          (
            parents,
            (λ d m.
                let (less, linked) = deps d m in
                (less, has_edge-left d j s.edges (new_edges kind n ds) linked)),
            StateSound-map A nobody A U' s.work work' s.ready s.ready j x.dependencies x.state
                (λ d m (r, at, done). (r, get_elem?-append s.work (new ∷ []) d r at, done))
                (λ w. inl (
                  Waits-alike s.work work' x.dependencies
                    (λ d m r at. (r, get_elem?-append s.work (new ∷ []) d r at, (refl, refl))) w))
                (λ u. cc) (λ a. a) (λ m. m) st,
          )
