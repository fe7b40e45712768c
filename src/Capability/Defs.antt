-- ===== src/Capability/Defs.antt =====
-- The states and their folds, as src/operations.rs:15-50 and src/types/ownership.rs:446-506
-- declare them.
use elamite.Base.{Bool, true, false, List, [], ◌∷◌, if◌then◌else◌}

pub data CapabilityState : Type 0 where
  absent present conditional error : CapabilityState

unfoldable pub is_present : CapabilityState → Bool
is_present present = true
is_present _ = false

pub record OwnershipFacts : Type 0 where
  pub copy : CapabilityState
  pub clone : CapabilityState
  pub needs_drop : CapabilityState
  pub contains_borrow : CapabilityState
  pub send : CapabilityState
  pub sync : CapabilityState

-- `OwnershipFacts::ERROR`
abbrev pub error_facts : OwnershipFacts
error_facts = record {
  copy = error;
  clone = error;
  needs_drop = error;
  contains_borrow = error;
  send = error;
  sync = error;
}

unfoldable pub state_if_bound : Bool → CapabilityState
state_if_bound bound = if bound then present else conditional

unfoldable pub plain : CapabilityState → OwnershipFacts
plain capability = record {
  copy = capability;
  clone = capability;
  needs_drop = absent;
  contains_borrow = absent;
  send = capability;
  sync = capability;
}

unfoldable pub conditional_facts : OwnershipFacts
conditional_facts = record {
  copy = conditional;
  clone = conditional;
  needs_drop = conditional;
  contains_borrow = conditional;
  send = conditional;
  sync = conditional;
}

-- The body of the loop in `conjunction`: an error wins, then an absence, then a condition.
unfoldable pub conjoin : CapabilityState → CapabilityState → CapabilityState
conjoin error _ = error
conjoin _ error = error
conjoin absent _ = absent
conjoin _ absent = absent
conjoin conditional _ = conditional
conjoin _ conditional = conditional
conjoin present present = present

-- The body of the loop in `disjunction`: an error wins, then a presence, then a condition.
unfoldable pub disjoin : CapabilityState → CapabilityState → CapabilityState
disjoin error _ = error
disjoin _ error = error
disjoin present _ = present
disjoin _ present = present
disjoin conditional _ = conditional
disjoin _ conditional = conditional
disjoin absent absent = absent

-- The loop, from the accumulator `result`.
unfoldable pub conjunction_from : CapabilityState → List CapabilityState → CapabilityState
conjunction_from result [] = result
conjunction_from result (value ∷ values) = conjunction_from (conjoin result value) values

unfoldable pub disjunction_from : CapabilityState → List CapabilityState → CapabilityState
disjunction_from result [] = result
disjunction_from result (value ∷ values) = disjunction_from (disjoin result value) values

unfoldable pub conjunction : List CapabilityState → CapabilityState
unfolding conjunction_from
conjunction values = conjunction_from present values

unfoldable pub disjunction : List CapabilityState → CapabilityState
unfolding disjunction_from
disjunction values = disjunction_from absent values
