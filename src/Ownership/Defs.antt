-- ===== src/Ownership/Defs.antt =====
-- The parts of the query of src/types/ownership.rs that look at one type only. The tables of the
-- resolved and the typed program that the query reads are the record `Program`.
use Prim.Native.String.{String}
use text.Mathlib.Text.{◌==◌ as str_eq}
use elamite.Base.{
  ℕ, zero, suc, Bool, false, ◌&&◌, ◌||◌, List, [], ◌∷◌, Option, none, some, any, ◌==◌,
  if◌then◌else◌, length,
}
use elamite.Types.{PrimitiveType, TypeId, TypeContext, kind, str, string, nominal, builtin, alias}
use elamite.Capability.{OwnershipFacts, absent, present, conditional, plain, state_if_bound}

-- A row of `resolved.impls` with the types that `typed` records for it.
pub record Impl : Type 0 where
  pub trait_type : Option TypeId
  pub target : Option TypeId
  pub marked_unsafe : Bool

pub record Obligation : Type 0 where
  pub parameter : ℕ
  pub trait_type : TypeId

-- What the query reads. `nominal_fields` is the table of field templates with the substitution
-- of a nominal type's arguments applied, `foreign_fields` is empty for a missing key.
pub record Program : Type 0 where
  pub types : TypeContext
  pub builtin_name : ℕ → String
  pub declaration_name : ℕ → String
  pub is_trait_declaration : ℕ → Bool
  pub nominal_fields : ℕ → List TypeId → List TypeId
  pub foreign_fields : ℕ → List TypeId
  pub obligations : List Obligation
  pub impls : List Impl
  pub exactly_equal : TypeId → TypeId → Bool
  pub supports_owned_surface : Bool

-- `type_name` follows aliases; `fuel` bounds a chain of them.
type_name_from : Program → ℕ → TypeId → Option String
type_name_from p zero ty = none
type_name_from p (suc fuel) ty = elim (kind p.types ty) [
  | none ↦ none
  | some k ↦ elim k [
    | nominal identity _ ↦ some (p.declaration_name identity.declaration)
    | builtin b _ ↦ some (p.builtin_name b)
    | alias _ _ target ↦ type_name_from p fuel target
    | _ ↦ none
  ]
]

-- A chain of aliases longer than the arena is a cycle, on which the source would not return.
unfoldable pub type_name : Program → TypeId → Option String
unfolding type_name_from
type_name p ty = type_name_from p (suc (length p.types.kinds)) ty

unfoldable pub is_named : Option String → String → Bool
is_named none name = false
is_named (some found) name = str_eq found name

impl_matches : Program → TypeId → String → Impl → Bool
impl_matches p ty name i = elim i.trait_type [
  | none ↦ false
  | some trait_type ↦ elim i.target [
    | none ↦ false
    | some target ↦ is_named (type_name p trait_type) name && p.exactly_equal target ty
  ]
]

unfoldable pub has_trait_impl : Program → TypeId → String → Bool
unfolding impl_matches
has_trait_impl p ty name = any (impl_matches p ty name) p.impls

unfoldable pub has_unsafe_capability_impl : Program → TypeId → String → Bool
unfolding impl_matches
has_unsafe_capability_impl p ty name =
    p.supports_owned_surface && any (λ i. i.marked_unsafe && impl_matches p ty name i) p.impls

-- `bound` of `generic`: an obligation of the parameter names the capability.
unfoldable pub bound : Program → ℕ → String → Bool
bound p parameter name =
    any (λ o. o.parameter == parameter && is_named (type_name p o.trait_type) name) p.obligations

unfoldable pub generic : Program → ℕ → OwnershipFacts
unfolding bound
generic p parameter = record {
  copy = state_if_bound (bound p parameter "Copy");
  clone = state_if_bound (bound p parameter "Clone" || bound p parameter "Copy");
  needs_drop = conditional;
  contains_borrow = conditional;
  send = state_if_bound (bound p parameter "Send");
  sync = state_if_bound (bound p parameter "Sync");
}

unfoldable pub primitive_facts : PrimitiveType → OwnershipFacts
primitive_facts string = record {
  copy = absent;
  clone = present;
  needs_drop = present;
  contains_borrow = absent;
  send = present;
  sync = present;
}
primitive_facts str = record {
  copy = present;
  clone = present;
  needs_drop = absent;
  contains_borrow = present;
  send = present;
  sync = present;
}
primitive_facts _ = plain present

unfoldable pub raw_pointer_facts : OwnershipFacts
raw_pointer_facts = record {
  copy = present;
  clone = present;
  needs_drop = absent;
  contains_borrow = absent;
  send = absent;
  sync = absent;
}

unfoldable pub trait_object_facts : Program → TypeId → OwnershipFacts
trait_object_facts p trait_type =
    let capability = type_name p trait_type in
    record {
      copy = absent;
      clone = absent;
      needs_drop = absent;
      contains_borrow = present;
      send = state_if_bound (is_named capability "Send" || is_named capability "Sync");
      sync = state_if_bound (is_named capability "Sync");
    }

-- The arms of `builtin`, by the name that selects them; `other` is the last arm.
pub data BuiltinClass : Type 0 where
  trait_like owned_collection shared_pointer store handle maybe_uninit : BuiltinClass
  foreign_root scope channel_end mutex mutex_guard atomic other : BuiltinClass

module _ (name : String) where
  one_of : List String → Bool
  one_of names = any (str_eq name) names

  unfoldable pub builtin_class : BuiltinClass
  unfolding one_of
  builtin_class =
      if one_of (
        "Copy" ∷ "Send" ∷ "Sync" ∷ "Default" ∷ "PartialEq" ∷ "Eq" ∷ "PartialOrd" ∷ "Ord" ∷ "Hash"
        ∷ "StableHash" ∷ "Display" ∷ "Formatter" ∷ [])
      then trait_like
      else if one_of ("Vec" ∷ "Map" ∷ "Set" ∷ "Box" ∷ [])
      then owned_collection
      else if one_of ("Shared" ∷ "Weak" ∷ [])
      then shared_pointer
      else if one_of ("Store" ∷ [])
      then store
      else if one_of ("Handle" ∷ [])
      then handle
      else if one_of ("MaybeUninit" ∷ [])
      then maybe_uninit
      else if one_of ("ForeignRoot" ∷ "ForeignRootMut" ∷ "File" ∷ "Directory" ∷ "Thread" ∷ [])
      then foreign_root
      else if one_of ("Scope" ∷ "ScopedThread" ∷ [])
      then scope
      else if one_of ("Sender" ∷ "Receiver" ∷ [])
      then channel_end
      else if one_of ("Mutex" ∷ [])
      then mutex
      else if one_of ("MutexGuard" ∷ [])
      then mutex_guard
      else if one_of ("AtomicBool" ∷ "AtomicI32" ∷ "AtomicUsize" ∷ [])
      then atomic
      else other
