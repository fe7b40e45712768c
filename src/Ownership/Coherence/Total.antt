-- ===== src/Ownership/Coherence/Total.antt =====
-- The whole query: its end, and the coherence and stability of its answers.
use mathlib.Core.Path.{fun_ext}
use elamite.Base.{
  ℕ, zero, suc, ◌+◌, ◌<◌, ◌≡◌, refl, sym, ap, subst, List, [], ◌∷◌, Option, none, some, arith, All,
  length, contains, lookup, Distinct, length-le_of_Distinct,
}
use elamite.Types.{TypeId, resolve_inference}
use elamite.Types.Resolve.{resolve_inference_total}
use elamite.Capability.{OwnershipFacts}
use elamite.Ownership.{Program, QueryState, cached_or_visit, facts, ownership_facts}
use elamite.Ownership.Coherence.Combine.{Coherent}
use elamite.Ownership.Coherence.Step.{Returns, IsGood, Extends, Stable, Meets}
use elamite.Ownership.Coherence.Kinds.{IsClosed}
use elamite.Ownership.Coherence.Visit.{Answers, cached_or_visit-Answers}

module _ (p : Program) (closed : IsClosed p) where
  abbrev size : ℕ
  size = length p.types.kinds

  facts-suc :
      (fuel : ℕ) (ty r : TypeId)
      → resolve_inference p.types ty ≡ some r
      → facts p (suc fuel) ty ≡ cached_or_visit p (facts p fuel) r
  unfolding facts
  facts-suc fuel ty r e = fun_ext (λ s. rw (e, facts))

  -- With a unit of fuel for each type that is not under visit and one more, the query answers.
  facts-Meets :
      (fuel : ℕ) (V : List TypeId)
      → Distinct V
      → All (λ t. t < size) V
      → size < fuel + length V
      → Meets size V (facts p fuel)
  facts-Meets zero V d a f = absurd (omega (arith, length-le_of_Distinct size V d a))
  facts-Meets (suc fuel) V d a f = λ ty s h g.
      let (r, e, hr) = resolve_inference_total p.types closed.well_formed ty h in
      subst (λ m. Answers p closed V m s) (sym (facts-suc fuel ty r e))
        (cached_or_visit-Answers p closed V (facts p fuel) r s g hr
          (λ new. facts-Meets fuel (r ∷ V) (new, d) (hr, a) (omega arith)))

  start : List (TypeId × OwnershipFacts) → QueryState
  start cache = record { cache = cache; visiting = [] }

  start-Answers :
      (cache : List (TypeId × OwnershipFacts)) (ty : TypeId)
      → ty < size
      → All (λ e. Coherent e.1) cache
      → Answers p closed [] (facts p (suc size) ty) (start cache)
  unfolding start
  start-Answers cache ty h c =
      facts-Meets (suc size) [] tt tt (omega arith) ty (start cache) h
        (record { visits = refl; coherent = c; fresh = λ t h. unfold contains in cc })

  -- In a closed program, from a cache of coherent facts and for every type of the arena, the
  -- query answers within its fuel. The answer and every cache entry are coherent: where the state of
  -- `Copy` is Present, that of `Clone` is Present, and that of needing a drop is not Present (it may be
  -- Conditional, as for a type parameter with a `Copy` bound). No type is left under visit, no cached answer is lost or
  -- changed, and asking again from the new cache gives the same answer and changes nothing.
  pub ownership_facts-Coherent :
      (cache : List (TypeId × OwnershipFacts)) (ty : TypeId)
      → ty < length p.types.kinds
      → All (λ e. Coherent e.1) cache
      → (f : OwnershipFacts) × (after : List (TypeId × OwnershipFacts)) × (ownership_facts p cache
            ty
          ≡ some (f, record { cache = after; visiting = [] }))
        × Coherent f
        × All (λ e. Coherent e.1) after
        × ((t : TypeId) (x : OwnershipFacts) → lookup t cache ≡ some x → lookup t after ≡ some x)
        × (ownership_facts p after ty ≡ some (f, record { cache = after; visiting = [] }))
  unfolding ownership_facts start
  ownership_facts-Coherent cache ty h c =
      from_Answers (facts p (suc size) ty (start cache)) refl (start-Answers cache ty h c)
    where
      from_Answers :
          (r : Option (OwnershipFacts × QueryState))
          → facts p (suc size) ty (start cache) ≡ r
          → Returns
              (λ f s'.
                Coherent f
                × IsGood [] s'
                × Extends (start cache) s'
                × Stable [] (facts p (suc size) ty) f s')
              r
          → (f : OwnershipFacts) × (after : List (TypeId × OwnershipFacts)) × (ownership_facts p
                cache ty
              ≡ some (f, record { cache = after; visiting = [] }))
            × Coherent f
            × All (λ e. Coherent e.1) after
            × ((t : TypeId) (x : OwnershipFacts)
                → lookup t cache ≡ some x
                → lookup t after ≡ some x)
            × (ownership_facts p after ty ≡ some (f, record { cache = after; visiting = [] }))
      from_Answers none e a = absurd a
      from_Answers (some (f, s)) e (c, g, x, again) =
          let same : s ≡ start s.cache =
            ap (λ v. record { cache = s.cache; visiting = v }) g.visits in
          (
            f,
            s.cache,
            rw same at e,
            c,
            g.coherent,
            x,
            again (start s.cache)
                (record {
                  visits = refl;
                  coherent = g.coherent;
                  fresh = λ t h. unfold contains in cc;
                })
                (λ t y q. q),
          )
