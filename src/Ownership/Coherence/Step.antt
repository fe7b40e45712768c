-- ===== src/Ownership/Coherence/Step.antt =====
-- One type's step of the query, for any recursive call that meets its specification `Meets`.
use elamite.Base.{
  ℕ, ◌<◌, ◌≡◌, refl, sym, ap, subst, ◌∙◌, Bool, true, false, List, [], ◌∷◌, Option, none, some, All,
  contains, lookup,
}
use elamite.Types.{TypeId}
use elamite.Capability.{OwnershipFacts, conditional_facts}
use elamite.Ownership.{
  QueryState, M, ◌>>=◌, pure, Recursive, facts_all, aggregate, builtin_facts, BuiltinClass,
  trait_like, owned_collection, shared_pointer, store, handle, maybe_uninit, foreign_root, scope,
  channel_end, mutex, mutex_guard, atomic, other,
}
use elamite.Ownership.Coherence.Combine.{Coherent, aggregate_of-Coherent, plain-Coherent}

-- Total correctness: the call answers, and its answer and final state satisfy the predicate.
abbrev pub Returns : {A : Type 0} → (A → QueryState → Type 0) → Option (A × QueryState) → Type 0
Returns P none = ⊥
Returns P (some (a, s)) = P a s

pub Returns-bind :
    {A B : Type 0} (P : A → QueryState → Type 0) (Q : B → QueryState → Type 0)
    (r : Option (A × QueryState)) (f : A → M B)
    → Returns P r
    → ((a : A) (s : QueryState) → P a s → Returns Q (f a s))
    → Returns Q (elim r [ none ↦ none | some (a, s') ↦ f a s' ])
Returns-bind P Q none f h k = absurd h
Returns-bind P Q (some (a, s)) f h k = k a s h

pub bind_some :
    {A B : Type 0} {a : A} {s' : QueryState} (m : M A) (f : A → M B) (s : QueryState)
    → m s ≡ some (a, s')
    → (m >>= f) s ≡ f a s'
bind_some {A} {B} m f s h =
    ap
      (λ (r : Option (A × QueryState)).
        let x : Option (B × QueryState) = elim r [ none ↦ none | some (a, s') ↦ f a s' ] in x)
      h

pub Returns-map :
    {A : Type 0} (P Q : A → QueryState → Type 0) (r : Option (A × QueryState))
    → Returns P r
    → ((a : A) (s : QueryState) → P a s → Q a s)
    → Returns Q r
Returns-map P Q none h k = h
Returns-map P Q (some (a, s)) h k = k a s h

-- A call whose answer is known.
pub Returns-known :
    {A B : Type 0} (Q : B → QueryState → Type 0) (m : M A) (f : A → M B) (s : QueryState) (a : A)
    (s' : QueryState)
    → m s ≡ some (a, s')
    → Returns Q (f a s')
    → Returns Q ((m >>= f) s)
Returns-known Q m f s a s' e h = subst (Returns Q) (sym (bind_some m f s e)) h

-- The states in which the types under visit are those of V.
pub record IsGood (V : List TypeId) (s : QueryState) : Type 0 where
  pub visits : s.visiting ≡ V
  pub coherent : All (λ e. Coherent e.1) s.cache
  pub fresh : (t : TypeId) → contains t V ≡ true → lookup t s.cache ≡ none

-- No cached answer is lost or changed.
abbrev pub Extends : QueryState → QueryState → Type 0
Extends s s' =
    (t : TypeId) (f : OwnershipFacts) → lookup t s.cache ≡ some f → lookup t s'.cache ≡ some f

-- What a step from `s` establishes.
abbrev pub Post : List TypeId → QueryState → OwnershipFacts → QueryState → Type 0
Post V s f s' = Coherent f × IsGood V s' × Extends s s'

-- From every later state the same call has the same answer and changes nothing.
abbrev pub Stable : {A : Type 0} → List TypeId → M A → A → QueryState → Type 0
Stable V m a s = (s' : QueryState) → IsGood V s' → Extends s s' → m s' ≡ some (a, s')

module _ (n : ℕ) (V : List TypeId) (rec : Recursive) where
  -- The specification of the recursive call.
  abbrev pub Meets : Type 0
  Meets =
      (ty : TypeId) (s : QueryState)
      → ty < n
      → IsGood V s
      → Returns (λ f s'. Coherent f × IsGood V s' × Extends s s' × Stable V (rec ty) f s')
          (rec ty s)

  module _ (meets : Meets) where
    abbrev pub AllPost : List TypeId → QueryState → List OwnershipFacts → QueryState → Type 0
    AllPost tys s fs s' =
        All Coherent fs × IsGood V s' × Extends s s' × Stable V (facts_all rec tys) fs s'

    facts_all-Stable :
        (ty : TypeId) (tys : List TypeId) (f : OwnershipFacts) (fs : List OwnershipFacts)
        (s s' : QueryState)
        → Stable V (rec ty) f s
        → Extends s s'
        → Stable V (facts_all rec tys) fs s'
        → Stable V (facts_all rec (ty ∷ tys)) (f ∷ fs) s'
    unfolding facts_all
    facts_all-Stable ty tys f fs s s' a e b = λ t g x.
        bind_some (rec ty) (λ f₁. facts_all rec tys >>= λ fs₁. pure (f₁ ∷ fs₁)) t
          (a t g (λ k h q. x k h (e k h q)))
        ∙ bind_some (facts_all rec tys) (λ fs₁. pure (f ∷ fs₁)) t (b t g x)

    pub facts_all-AllPost :
        (tys : List TypeId) (s : QueryState)
        → All (λ t. t < n) tys
        → IsGood V s
        → Returns (AllPost tys s) (facts_all rec tys s)
    unfolding facts_all
    facts_all-AllPost [] s h g = (tt, g, (λ t f e. e), (λ s' _ _. refl))
    facts_all-AllPost (ty ∷ tys) s h g =
        Returns-bind _ (AllPost (ty ∷ tys) s) (rec ty s) _ (meets ty s h.0 g)
          λ f s₁ (c, g₁, e₁, t₁).
            Returns-bind _ (AllPost (ty ∷ tys) s) (facts_all rec tys s₁) _
              (facts_all-AllPost tys s₁ h.1 g₁)
              λ fs s₂ (cs, g₂, e₂, t₂). (
                (c, cs),
                g₂,
                (λ t x q. e₂ t x (e₁ t x q)),
                facts_all-Stable ty tys f fs s₁ s₂ t₁ e₂ t₂,
              )

    -- A fold over the parts of a type: what follows may rely on their coherence.
    bind_all :
        {B : Type 0} (Q : B → QueryState → Type 0) (tys : List TypeId)
        (f : List OwnershipFacts → M B) (s : QueryState)
        → All (λ t. t < n) tys
        → IsGood V s
        → ((fs : List OwnershipFacts) (s' : QueryState) → AllPost tys s fs s' → Returns Q (f fs s'))
        → Returns Q ((facts_all rec tys >>= f) s)
    bind_all Q tys f s h g k =
        Returns-bind (AllPost tys s) Q (facts_all rec tys s) f (facts_all-AllPost tys s h g) k

    pub aggregate-Post :
        (tys : List TypeId) (d c : Bool) (s : QueryState)
        → All (λ t. t < n) tys
        → IsGood V s
        → Returns (Post V s) (aggregate rec tys d c s)
    unfolding aggregate
    aggregate-Post tys d c s h g =
        bind_all (Post V s) tys _ s h g
          λ fs s' (cs, g', e, _). (aggregate_of-Coherent fs d c cs, g', e)

    -- The arms of `builtin` that ask for the arguments' facts once, twice or three times, and
    -- answer with a type that is not `Copy`.
    abbrev Folded : List TypeId → M OwnershipFacts → Type 0
    Folded tys m = (s : QueryState) → All (λ t. t < n) tys → IsGood V s → Returns (Post V s) (m s)

    once :
        (tys : List TypeId) (r : List OwnershipFacts → OwnershipFacts)
        → ((b : List OwnershipFacts) → Coherent (r b))
        → Folded tys (facts_all rec tys >>= λ b. pure (r b))
    once tys r co s h g = bind_all (Post V s) tys _ s h g λ b s' (_, g', e, _). (co b, g', e)

    twice :
        (tys : List TypeId) (r : List OwnershipFacts → List OwnershipFacts → OwnershipFacts)
        → ((b c : List OwnershipFacts) → Coherent (r b c))
        → Folded tys (facts_all rec tys >>= λ b. facts_all rec tys >>= λ c. pure (r b c))
    twice tys r co s h g = bind_all (Post V s) tys _ s h g λ b s₁ (_, g₁, e₁, _).
        bind_all (Post V s) tys _ s₁ h g₁
          λ c s₂ (_, g₂, e₂, _). (co b c, g₂, λ t f q. e₂ t f (e₁ t f q))

    thrice :
        (tys : List TypeId)
        (r : List OwnershipFacts → List OwnershipFacts → List OwnershipFacts → OwnershipFacts)
        → ((b c d : List OwnershipFacts) → Coherent (r b c d))
        → Folded tys (
            facts_all rec tys >>= λ b.
            facts_all rec tys >>= λ c. facts_all rec tys >>= λ d. pure (r b c d))
    thrice tys r co s h g = bind_all (Post V s) tys _ s h g λ b s₁ (_, g₁, e₁, _).
        bind_all (Post V s) tys _ s₁ h g₁ λ c s₂ (_, g₂, e₂, _).
          bind_all (Post V s) tys _ s₂ h g₂
            λ d s₃ (_, g₃, e₃, _). (co b c d, g₃, λ t f q. e₃ t f (e₂ t f (e₁ t f q)))

    pub builtin_facts-Post :
        (class : BuiltinClass) (tys : List TypeId) → Folded tys (builtin_facts rec class tys)
    unfolding builtin_facts conditional_facts
    builtin_facts-Post trait_like tys s h g = ((λ e. cc), g, (λ t f q. q))
    builtin_facts-Post owned_collection tys s h g =
        Returns-bind (Post V s) (Post V s) (aggregate rec tys true false s) _
          (aggregate-Post tys true false s h g)
          λ f s₁ (_, g₁, e₁).
            bind_all (Post V s) tys _ s₁ h g₁
              λ c s₂ (_, g₂, e₂, _). ((λ e. cc), g₂, (λ t x q. e₂ t x (e₁ t x q)))
    builtin_facts-Post shared_pointer tys s h g = thrice tys _ (λ b c d e. cc) s h g
    builtin_facts-Post store tys s h g = twice tys _ (λ b c e. cc) s h g
    builtin_facts-Post handle tys s h g = (plain-Coherent, g, (λ t f q. q))
    builtin_facts-Post maybe_uninit tys s h g = twice tys _ (λ b c e. cc) s h g
    builtin_facts-Post foreign_root tys s h g = thrice tys _ (λ b c d e. cc) s h g
    builtin_facts-Post scope tys s h g = ((λ e. cc), g, (λ t f q. q))
    builtin_facts-Post channel_end tys s h g = thrice tys _ (λ b c d e. cc) s h g
    builtin_facts-Post mutex tys s h g = thrice tys _ (λ b c d e. cc) s h g
    builtin_facts-Post mutex_guard tys s h g = once tys _ (λ b e. cc) s h g
    builtin_facts-Post atomic tys s h g = ((λ e. cc), g, (λ t f q. q))
    builtin_facts-Post other tys s h g = once tys _ (λ b e. cc) s h g
