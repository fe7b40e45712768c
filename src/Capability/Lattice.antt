-- ===== src/Capability/Lattice.antt =====
-- The folds over capability states as the meet and the join of two orders, and their readings.
use mathlib.Core.List.{Permᴰ, Perm}
use mathlib.Core.Logic.{∥∥₁_elim}
use mathlib.Core.HLevel.{hedberg}
use elamite.Base.{
  ◌≡◌, refl, sym, ◌∙◌, Bool, true, false, List, [], ◌∷◌, arith, any, All, ◌≢◌, if◌then◌else◌,
}
use elamite.Capability.Defs.{
  CapabilityState, absent, present, conditional, error, conjoin, disjoin, conjunction, disjunction,
  conjunction_from, disjunction_from,
}

conjoin_comm : (a b : CapabilityState) → conjoin a b ≡ conjoin b a
unfolding conjoin
conjoin_comm a b = ground arith

pub conjoin_assoc : (a b c : CapabilityState) → conjoin (conjoin a b) c ≡ conjoin a (conjoin b c)
unfolding conjoin
conjoin_assoc a b c = ground arith

disjoin_comm : (a b : CapabilityState) → disjoin a b ≡ disjoin b a
unfolding disjoin
disjoin_comm a b = ground arith

disjoin_assoc : (a b c : CapabilityState) → disjoin (disjoin a b) c ≡ disjoin a (disjoin b c)
unfolding disjoin
disjoin_assoc a b c = ground arith

present-conjoin : (a : CapabilityState) → conjoin present a ≡ a
unfolding conjoin
present-conjoin a = ground arith

absent-disjoin : (a : CapabilityState) → disjoin absent a ≡ a
unfolding disjoin
absent-disjoin a = ground arith

-- The loop from any accumulator is one step with the fold of the rest.
conjunction_from-eq :
    (a : CapabilityState) (xs : List CapabilityState)
    → conjunction_from a xs ≡ conjoin a (conjunction xs)
unfolding conjunction
conjunction_from-eq a [] = sym (conjoin_comm a present ∙ present-conjoin a)
conjunction_from-eq a (x ∷ xs) =
    simp (
      conjunction_from-eq (conjoin a x) xs,
      conjunction_from-eq x xs,
      present-conjoin,
      conjoin_assoc,
    )

disjunction_from-eq :
    (a : CapabilityState) (xs : List CapabilityState)
    → disjunction_from a xs ≡ disjoin a (disjunction xs)
unfolding disjunction
disjunction_from-eq a [] = sym (disjoin_comm a absent ∙ absent-disjoin a)
disjunction_from-eq a (x ∷ xs) =
    simp (
      disjunction_from-eq (disjoin a x) xs,
      disjunction_from-eq x xs,
      absent-disjoin,
      disjoin_assoc,
    )

pub conjunction-cons :
    (x : CapabilityState) (xs : List CapabilityState)
    → conjunction (x ∷ xs) ≡ conjoin x (conjunction xs)
unfolding conjunction
conjunction-cons x xs = rw (present-conjoin x) (conjunction_from-eq x xs)

pub disjunction-cons :
    (x : CapabilityState) (xs : List CapabilityState)
    → disjunction (x ∷ xs) ≡ disjoin x (disjunction xs)
unfolding disjunction
disjunction-cons x xs = rw (absent-disjoin x) (disjunction_from-eq x xs)

is_error : CapabilityState → Bool
is_error error = true
is_error _ = false

is_absent : CapabilityState → Bool
is_absent absent = true
is_absent _ = false

is_conditional : CapabilityState → Bool
is_conditional conditional = true
is_conditional _ = false

is_granted : CapabilityState → Bool
is_granted present = true
is_granted _ = false

-- What a conjunction means: an error anywhere, else an absence anywhere, else a condition
-- anywhere, else the capability.
abbrev pub conjunction_reading : List CapabilityState → CapabilityState
unfolding is_error is_absent is_conditional
conjunction_reading xs =
    if any is_error xs
    then error
    else if any is_absent xs
    then absent
    else if any is_conditional xs
    then conditional
    else present

-- What a disjunction means: the same with presence in the place of absence.
abbrev pub disjunction_reading : List CapabilityState → CapabilityState
unfolding is_error is_granted is_conditional
disjunction_reading xs =
    if any is_error xs
    then error
    else if any is_granted xs
    then present
    else if any is_conditional xs
    then conditional
    else absent

conjunction-reading : (xs : List CapabilityState) → conjunction xs ≡ conjunction_reading xs
unfolding conjoin conjunction_reading
conjunction-reading [] = unfold conjunction in refl
conjunction-reading (x ∷ xs) = ground (arith, conjunction-cons x xs, conjunction-reading xs)

disjunction-reading : (xs : List CapabilityState) → disjunction xs ≡ disjunction_reading xs
unfolding disjoin disjunction_reading
disjunction-reading [] = unfold disjunction in refl
disjunction-reading (x ∷ xs) = ground (arith, disjunction-cons x xs, disjunction-reading xs)

-- For every list of states, the loops of `conjunction` and `disjunction` compute their readings:
-- which states occur decides the answer, by the priority error, then absent (for the
-- disjunction: present), then conditional.
pub folds-readings :
    (xs : List CapabilityState)
    → (conjunction xs ≡ conjunction_reading xs) × (disjunction xs ≡ disjunction_reading xs)
folds-readings xs = (conjunction-reading xs, disjunction-reading xs)

-- A conjunction grants a capability exactly to a list whose every state grants it.
pub conjunction-eq-present :
    (xs : List CapabilityState) → conjunction xs ≡ present → All (λ s. s ≡ present) xs
unfolding conjoin
conjunction-eq-present [] h = tt
conjunction-eq-present (x ∷ xs) h = (
  ground (arith, conjunction-cons x xs),
  conjunction-eq-present xs (ground (arith, conjunction-cons x xs)),
)

-- A list in which no state is a presence has no presence for its disjunction.
pub disjunction-ne-present :
    (xs : List CapabilityState) → All (λ s. s ≢ present) xs → disjunction xs ≢ present
unfolding disjoin
disjunction-ne-present [] h = unfold disjunction in (cc)
disjunction-ne-present (x ∷ xs) h =
    ground (arith, disjunction-cons x xs, disjunction-ne-present xs h.1)

left_comm : (a b c : CapabilityState) → conjoin a (conjoin b c) ≡ conjoin b (conjoin a c)
unfolding conjoin
left_comm a b c = ground arith

disjoin-left_comm : (a b c : CapabilityState) → disjoin a (disjoin b c) ≡ disjoin b (disjoin a c)
unfolding disjoin
disjoin-left_comm a b c = ground arith

folds_permᴰ :
    {xs ys : List CapabilityState}
    → Permᴰ xs ys
    → (conjunction xs ≡ conjunction ys) × (disjunction xs ≡ disjunction ys)
folds_permᴰ Permᴰ.nil = (refl, refl)
folds_permᴰ (Permᴰ.cons {a} {b} {l₁} {l₂} e p) =
    let (c, d) = folds_permᴰ p in
    (
      cc (conjunction-cons a l₁, conjunction-cons b l₂, c, e),
      cc (disjunction-cons a l₁, disjunction-cons b l₂, d, e),
    )
folds_permᴰ (Permᴰ.swap {a} {b} {a'} {b'} {l} e f) = (
  rw (← e, ← f) (simp conjunction-cons (left_comm a b (conjunction l))),
  rw (← e, ← f) (simp disjunction-cons (disjoin-left_comm a b (disjunction l))),
)
folds_permᴰ (Permᴰ.trans p q) =
    let (a, b) = folds_permᴰ p in let (c, d) = folds_permᴰ q in (a ∙ c, b ∙ d)

CapabilityState-discrete : Discrete CapabilityState
CapabilityState-discrete = hlevel

-- The order of a type's parts does not matter to either fold.
pub folds-perm :
    (xs ys : List CapabilityState)
    → Perm xs ys
    → (conjunction xs ≡ conjunction ys) × (disjunction xs ≡ disjunction ys)
folds-perm xs ys p = ∥∥₁_elim p (hlevel (hedberg CapabilityState-discrete)) folds_permᴰ
