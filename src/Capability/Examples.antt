-- ===== src/Capability/Examples.antt =====
-- The folds of the capability states at concrete inputs.
use mathlib.Core.List.Perm
use elamite.Base.{◌≡◌, refl, List, [], ◌∷◌}
use elamite.Capability.Defs.{
  CapabilityState, absent, present, conditional, conjunction, disjunction, conjoin, disjoin,
}
use elamite.Capability.Lattice.{
  folds-readings, folds-perm, conjunction_reading, disjunction_reading,
}

abbrev mixed : List CapabilityState
mixed = present ∷ conditional ∷ absent ∷ []

conjunction-mixed : conjunction mixed ≡ absent
unfolding conjunction conjoin
conjunction-mixed = refl

disjunction-mixed : disjunction mixed ≡ present
unfolding disjunction disjoin
disjunction-mixed = refl

folds-readings_example :
    (conjunction mixed ≡ conjunction_reading mixed)
    × (disjunction mixed ≡ disjunction_reading mixed)
folds-readings_example = folds-readings mixed

folds-perm_example :
    (conjunction (present ∷ absent ∷ []) ≡ conjunction (absent ∷ present ∷ []))
    × (disjunction (present ∷ absent ∷ []) ≡ disjunction (absent ∷ present ∷ []))
folds-perm_example = folds-perm (present ∷ absent ∷ []) (absent ∷ present ∷ []) (Perm.swap _ _ _)
