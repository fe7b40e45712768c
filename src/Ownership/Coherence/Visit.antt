-- ===== src/Ownership/Coherence/Visit.antt =====
-- A visit of one type: the visit set, the cache and the stability of the answer.
use elamite.Base.{
  ℕ, ◌<◌, ◌≡◌, sym, subst, true, false, List, [], ◌∷◌, none, some, All, length, contains, lookup,
  remove_one, Bool-cases, Option-cases, inl, inr, ==_refl, ==→eq, ◌==◌,
}
use elamite.Types.{TypeKind, TypeId, kind}
use elamite.Types.Resolve.{kind-some}
use elamite.Capability.{OwnershipFacts}
use elamite.Ownership.{
  Program, QueryState, M, ◌>>=◌, Recursive, kind_facts, leave, with_overrides, cached_or_visit,
  seed,
}
use elamite.Ownership.Coherence.Combine.{Coherent, seed-Coherent, with_overrides-Coherent}
use elamite.Ownership.Coherence.Step.{Returns, Returns-bind, IsGood, Extends, Post, Stable, Meets}
use elamite.Ownership.Coherence.Kinds.{IsClosed, kind_facts-Post}

module _ (p : Program) (closed : IsClosed p) where
  abbrev size : ℕ
  size = length p.types.kinds

  -- Entering a type that is not under visit.
  enter-IsGood :
      (V : List TypeId) (ty : TypeId) (s : QueryState)
      → IsGood V s
      → lookup ty s.cache ≡ none
      → IsGood (ty ∷ V) (record s { visiting = ty ∷ s.visiting })
  unfolding contains
  enter-IsGood V ty s g missing = record {
    visits = rw g.visits;
    coherent = g.coherent;
    fresh = λ t h. elim (Bool-cases (ty == t)) [
      | inl e ↦ subst (λ k. lookup k s.cache ≡ none) (==→eq ty t e) missing
      | inr e ↦ g.fresh t (rw (e, contains) at h)
    ];
  }

  leave-Post :
      (V : List TypeId) (ty : TypeId) (s s₁ : QueryState) (f : OwnershipFacts)
      → contains ty V ≡ false
      → lookup ty s.cache ≡ none
      → Post (ty ∷ V) (record s { visiting = ty ∷ s.visiting }) f s₁
      → Returns (Post V s) (leave ty (with_overrides p ty f) s₁)
  unfolding leave remove_one contains lookup
  leave-Post V ty s s₁ f new missing (c, g, e) = (
    with_overrides-Coherent p ty f c,
    record {
      visits = rw g.visits (rw (==_refl ty));
      coherent = (with_overrides-Coherent p ty f c, g.coherent);
      fresh = λ t h. elim (Bool-cases (ty == t)) [
        | inl same ↦
            let n : contains t V ≡ false =
              subst (λ k. contains k V ≡ false) (==→eq ty t same) new in
            cc
        | inr apart ↦ rw apart (g.fresh t (rw apart h))
      ];
    },
    λ t x q. elim (Bool-cases (ty == t)) [
      | inl same ↦
          let m : lookup t s.cache ≡ none =
            subst (λ k. lookup k s.cache ≡ none) (==→eq ty t same) missing in
          cc
      | inr apart ↦ rw apart (e t x q)
    ],
  )

  -- What one call establishes, its stability included.
  abbrev pub Answers : List TypeId → M OwnershipFacts → QueryState → Type 0
  Answers V m s = Returns (λ f s'. Coherent f × IsGood V s' × Extends s s' × Stable V m f s') (m s)

  lookup-Coherent :
      (t : TypeId) (f : OwnershipFacts) (cache : List (TypeId × OwnershipFacts))
      → All (λ e. Coherent e.1) cache
      → lookup t cache ≡ some f
      → Coherent f
  unfolding lookup
  lookup-Coherent t f [] h q = cc
  lookup-Coherent t f ((k, g) ∷ cache) h q = elim (Bool-cases (k == t)) [
    | inl e ↦
        let found : some g ≡ some f = rw e at q in let same : g ≡ f = cc in subst Coherent same h.0
    | inr e ↦ lookup-Coherent t f cache h.1 (rw e at q)
  ]

  Answers-of :
      (V : List TypeId) (m : M OwnershipFacts) (s : QueryState) (f : OwnershipFacts)
      (s' : QueryState)
      → m s ≡ some (f, s')
      → Coherent f × IsGood V s' × Extends s s' × Stable V m f s'
      → Answers V m s
  Answers-of V m s f s' e h =
      subst (Returns (λ f s'. Coherent f × IsGood V s' × Extends s s' × Stable V m f s')) (sym e) h

  module _ (rec : Recursive) (ty : TypeId) (s : QueryState) where
    cached_or_visit-hit :
        (f : OwnershipFacts) → lookup ty s.cache ≡ some f → cached_or_visit p rec ty s ≡ some (f, s)
    unfolding cached_or_visit
    cached_or_visit-hit f hit = rw (hit, cached_or_visit)

    module _ (k : TypeKind) (e : kind p.types ty ≡ some k)
        (missing : lookup ty s.cache ≡ none) where
      cached_or_visit-seed :
          contains ty s.visiting ≡ true → cached_or_visit p rec ty s ≡ some (seed k, s)
      unfolding cached_or_visit
      cached_or_visit-seed met =
          rw (missing, cached_or_visit, e, cached_or_visit, met, cached_or_visit)

      cached_or_visit-visit :
          contains ty s.visiting ≡ false
          → cached_or_visit p rec ty s
            ≡ (kind_facts p rec ty k >>= λ f. leave ty (with_overrides p ty f))
                (record s { visiting = ty ∷ s.visiting })
      unfolding cached_or_visit
      cached_or_visit-visit new =
          rw (missing, cached_or_visit, e, cached_or_visit, new, cached_or_visit)

  -- Leaving a type caches its answer, so that it is stable.
  leave-Answers :
      (V : List TypeId) (rec : Recursive) (ty : TypeId) (s s₁ : QueryState) (f : OwnershipFacts)
      → contains ty V ≡ false
      → lookup ty s.cache ≡ none
      → Post (ty ∷ V) (record s { visiting = ty ∷ s.visiting }) f s₁
      → Returns
          (λ f s'.
            Coherent f × IsGood V s' × Extends s s' × Stable V (cached_or_visit p rec ty) f s')
          (leave ty (with_overrides p ty f) s₁)
  unfolding leave lookup
  leave-Answers V rec ty s s₁ f new missing post =
      let (c, g, e) = leave-Post V ty s s₁ f new missing post in
      (
        c,
        g,
        e,
        λ s' g' x. cached_or_visit-hit rec ty s' _ (x ty (with_overrides p ty f) (rw (==_refl ty))),
      )

  module _ (V : List TypeId) (rec : Recursive) (ty : TypeId) (s : QueryState) (g : IsGood V s) where
    cached-Answers :
        (f : OwnershipFacts) → lookup ty s.cache ≡ some f → Answers V (cached_or_visit p rec ty) s
    cached-Answers f hit = Answers-of V _ s f s (cached_or_visit-hit rec ty s f hit) (
      lookup-Coherent ty f s.cache g.coherent hit,
      g,
      (λ t x q. q),
      (λ s' g' x. cached_or_visit-hit rec ty s' f (x ty f hit)),
    )

    module _ (k : TypeKind) (e : kind p.types ty ≡ some k) where
      -- A type under visit answers with its seed, now and later.
      visiting-Answers : contains ty V ≡ true → Answers V (cached_or_visit p rec ty) s
      visiting-Answers met =
          Answers-of V _ s (seed k) s (again s g)
            (seed-Coherent k, g, (λ t x q. q), (λ s' g' x. again s' g'))
        where
          again : (s' : QueryState) → IsGood V s' → cached_or_visit p rec ty s' ≡ some (seed k, s')
          again s' g' = cached_or_visit-seed rec ty s' k e (g'.fresh ty met) (rw g'.visits met)

      visit-Answers :
          Meets size (ty ∷ V) rec
          → contains ty V ≡ false
          → lookup ty s.cache ≡ none
          → Answers V (cached_or_visit p rec ty) s
      visit-Answers meets new missing =
          subst
            (Returns (λ f s'.
              Coherent f × IsGood V s' × Extends s s' × Stable V (cached_or_visit p rec ty) f s'))
            (sym (cached_or_visit-visit rec ty s k e missing (rw g.visits new)))
            (Returns-bind (Post (ty ∷ V) entered) _ (kind_facts p rec ty k entered)
              (λ f. leave ty (with_overrides p ty f))
              (kind_facts-Post p closed (ty ∷ V) rec meets ty k entered
                (closed.well_formed.children ty k e) (enter-IsGood V ty s g missing))
              (λ f s₁ post. leave-Answers V rec ty s s₁ f new missing post))
        where
          entered : QueryState
          entered = record s { visiting = ty ∷ s.visiting }

    pub cached_or_visit-Answers :
        ty < size
        → (contains ty V ≡ false → Meets size (ty ∷ V) rec)
        → Answers V (cached_or_visit p rec ty) s
    cached_or_visit-Answers h meets =
        let (k, e) = kind-some p.types closed.well_formed ty h in
        elim (Option-cases (lookup ty s.cache)) [
          | inr (f, hit) ↦ cached-Answers f hit
          | inl missing ↦ elim (Bool-cases (contains ty V)) [
            | inl met ↦ visiting-Answers k e met
            | inr new ↦ visit-Answers k e (meets new) new missing
          ]
        ]
