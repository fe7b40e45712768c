-- ===== src/Expansion/Chain.antt =====
-- src/expansion/scheduler.rs:142-233 and :309-341, :600-613: requests, the scheduled work, and the
-- walk along the parents of a request. The kinds of tokens are those of src/syntax.rs, of which
-- only the derived equality is used: a parameter.
use Prim.Native.String.{String}
use text.Mathlib.Text.{◌==◌ as str_eq}
use elamite.Base.{
  ℕ, zero, suc, Bool, true, false, ◌&&◌, List, [], ◌∷◌, Option, none, some, get_elem?,
  if◌then◌else◌, ◌==◌,
}
use elamite.Expansion.Meter.{ExecutionResourceUsage}

pub data ExpansionRole : Type 0 where
  attribute derive expression pattern_role type_role statements items : ExpansionRole

unfoldable pub role_eq : ExpansionRole → ExpansionRole → Bool
role_eq attribute attribute = true
role_eq derive derive = true
role_eq expression expression = true
role_eq pattern_role pattern_role = true
role_eq type_role type_role = true
role_eq statements statements = true
role_eq items items = true
role_eq _ _ = false

pub record StructuralToken (Kind : Type 0) : Type 0 where
  pub kind : Kind
  pub source : String

-- A package id is a path.
pub record ExpansionLocation : Type 0 where
  pub package_id : String
  pub module_path : List String
  pub provenance_order : List ℕ

pub record ExpansionRequest (Kind : Type 0) : Type 0 where
  pub declaration : ℕ
  pub role : ExpansionRole
  pub input : List (StructuralToken Kind)
  pub location : ExpansionLocation
  pub invocation : ℕ
  pub definition : ℕ

pub data ExpansionWorkState : Type 0 where
  pending ready active completed : ExpansionWorkState
  recovered : ℕ → ExpansionWorkState

pub record ScheduledExpansion (Kind : Type 0) : Type 0 where
  pub id : ℕ
  pub request : ExpansionRequest Kind
  pub parent : Option ℕ
  pub dependencies : List ℕ
  pub depth : ℕ
  pub resources : Option ExecutionResourceUsage
  pub state : ExpansionWorkState

module _ {Kind : Type 0} (same_kind : Kind → Kind → Bool) where
  unfoldable pub same_input : List (StructuralToken Kind) → List (StructuralToken Kind) → Bool
  same_input [] [] = true
  same_input (a ∷ left) (b ∷ right) =
      same_kind a.kind b.kind && (str_eq a.source b.source && same_input left right)
  same_input _ _ = false

  unfoldable pub repeats : ExpansionRequest Kind → ExpansionRequest Kind → Bool
  repeats a b =
      a.declaration == b.declaration && (role_eq a.role b.role && same_input a.input b.input)

  -- The loop at an ancestor: `chain` is the chain below it, in the order of the answer. The outer
  -- `none` is a read out of range or no fuel left.
  unfoldable pub chain_at :
      ExpansionRequest Kind
      → (Option ℕ → List ℕ → Option (Option (List ℕ)))
      → ℕ
      → List ℕ
      → Option (ScheduledExpansion Kind)
      → Option (Option (List ℕ))
  chain_at request rec ancestor chain none = none
  chain_at request rec ancestor chain (some record_at) =
      if repeats request record_at.request
      then some (some (ancestor ∷ chain))
      else rec record_at.parent (ancestor ∷ chain)

  unfoldable pub chain_from :
      List (ScheduledExpansion Kind)
      → ExpansionRequest Kind
      → ℕ
      → Option ℕ
      → List ℕ
      → Option (Option (List ℕ))
  chain_from work request fuel none chain = some none
  chain_from work request zero (some ancestor) chain = none
  chain_from work request (suc fuel) (some ancestor) chain =
      chain_at request (chain_from work request fuel) ancestor chain (get_elem? work ancestor)

  -- The parents of a request come before it, so that its id is enough fuel (`Cycles`).
  unfoldable pub chain_of :
      List (ScheduledExpansion Kind)
      → ℕ
      → Option (ScheduledExpansion Kind)
      → Option (Option (List ℕ))
  chain_of work candidate none = none
  chain_of work candidate (some record_at) =
      chain_from work record_at.request candidate record_at.parent (candidate ∷ [])

  unfoldable pub cycle_chain : List (ScheduledExpansion Kind) → ℕ → Option (Option (List ℕ))
  cycle_chain work candidate = chain_of work candidate (get_elem? work candidate)
