-- ===== src/Ownership/Coherence/Combine.antt =====
-- Coherence of facts: a type that is known to be copied bitwise is known to be cloned, and is not
-- known to need a drop.
use elamite.Base.{ℕ, ◌≡◌, refl, ◌≢◌, Bool, true, false, List, [], ◌∷◌, map, arith, All}
use elamite.Types.{TypeKind, TypeId, PrimitiveType, Mutability}
use elamite.Capability.{
  OwnershipFacts, present, conjunction, plain, conditional_facts, state_if_bound, conjoin,
}
use elamite.Capability.Lattice.{conjunction-cons, conjunction-eq-present, disjunction-ne-present}
use elamite.Ownership.{
  Program, generic, primitive_facts, raw_pointer_facts, trait_object_facts, seed, aggregate_of,
  reference_of, with_overrides,
}

abbrev pub Coherent : OwnershipFacts → Type 0
Coherent f = f.copy ≡ present → (f.clone ≡ present) × (f.needs_drop ≢ present)

-- If all the parts may be copied, no part is known to need a drop.
drops_of_copies :
    (fs : List OwnershipFacts)
    → All Coherent fs
    → All (λ s. s ≡ present) (map (λ f. f.copy) fs)
    → All (λ s. s ≢ present) (map (λ f. f.needs_drop) fs)
drops_of_copies [] c h = tt
drops_of_copies (f ∷ fs) c h = ((c.0 h.0).1, drops_of_copies fs c.1 h.1)

clones_of_copies :
    (fs : List OwnershipFacts)
    → All Coherent fs
    → All (λ s. s ≡ present) (map (λ f. f.copy) fs)
    → conjunction (map (λ f. f.clone) fs) ≡ present
clones_of_copies [] c h = unfold conjunction in refl
clones_of_copies (f ∷ fs) c h =
    rw (conjunction-cons f.clone (map (λ g. g.clone) fs), (c.0 h.0).0, clones_of_copies fs c.1 h.1)
      (unfold conjoin in refl)

pub aggregate_of-Coherent :
    (fs : List OwnershipFacts) (d c : Bool) → All Coherent fs → Coherent (aggregate_of fs d c)
unfolding aggregate_of
aggregate_of-Coherent fs true c h = λ e. cc
aggregate_of-Coherent fs false true h =
    λ e. (refl, disjunction-ne-present _ (drops_of_copies fs h (conjunction-eq-present _ e)))
aggregate_of-Coherent fs false false h =
    λ e. (rw e, disjunction-ne-present _ (drops_of_copies fs h (conjunction-eq-present _ e)))

-- A closure over captures: its clone state is the fold of the captures'.
pub closure-Coherent :
    (fs gs : List OwnershipFacts)
    → All Coherent fs
    → All Coherent gs
    → fs ≡ gs
    → Coherent
        (record (aggregate_of fs false false) { clone = conjunction (map (λ f. f.clone) gs) })
unfolding aggregate_of
closure-Coherent fs gs h k same = λ e. (
  rw (← same) (clones_of_copies fs h (conjunction-eq-present _ e)),
  disjunction-ne-present _ (drops_of_copies fs h (conjunction-eq-present _ e)),
)

pub plain-Coherent : Coherent (plain present)
unfolding plain
plain-Coherent = ground arith

pub conditional_facts-Coherent : Coherent conditional_facts
unfolding conditional_facts
conditional_facts-Coherent = ground arith

pub raw_pointer_facts-Coherent : Coherent raw_pointer_facts
unfolding raw_pointer_facts
raw_pointer_facts-Coherent = ground arith

pub trait_object_facts-Coherent : (p : Program) (ty : TypeId) → Coherent (trait_object_facts p ty)
unfolding trait_object_facts
trait_object_facts-Coherent p ty = λ e. cc

pub reference_of-Coherent : (m : Mutability) (f : OwnershipFacts) → Coherent (reference_of m f)
unfolding reference_of
reference_of-Coherent m f = ground arith

pub seed-Coherent : (k : TypeKind) → Coherent (seed k)
unfolding seed
seed-Coherent k = ground arith

pub primitive_facts-Coherent : (x : PrimitiveType) → Coherent (primitive_facts x)
unfolding primitive_facts plain
primitive_facts-Coherent x = ground arith

pub generic-Coherent : (p : Program) (parameter : ℕ) → Coherent (generic p parameter)
unfolding generic state_if_bound
generic-Coherent p parameter = ground arith

pub with_overrides-Coherent :
    (p : Program) (ty : TypeId) (f : OwnershipFacts) → Coherent f → Coherent (with_overrides p ty f)
unfolding with_overrides
with_overrides-Coherent p ty f h = h
