-- ===== src/Types/Defs.antt =====
-- The data of src/types/context.rs:22-228, and the children of a type (:836-884). A type id is
-- an index into the arena; a read past its end, where the source panics, is `none`.
use Prim.Native.String.{String}
use elamite.Base.{
  ℕ, zero, suc, Bool, List, [], ◌∷◌, ◌++◌, map, Option, none, some, get_elem?, length,
  if◌then◌else◌, contains,
}

pub data PrimitiveType : Type 0 where
  unit bool char i8 i16 i32 i64 i128 isize u8 u16 u32 u64 u128 usize f32 f64 str string :
      PrimitiveType

pub data Mutability : Type 0 where
  shared mutable : Mutability

pub data Safety : Type 0 where
  safe unsafe : Safety

pub data Abi : Type 0 where
  elamite_abi c_abi : Abi
  unsupported : String → Abi

abbrev pub TypeId : Type 0
TypeId = ℕ

pub record FunctionParameter : Type 0 where
  pub ty : TypeId
  pub variadic : Bool

pub record NominalIdentity : Type 0 where
  pub package_id : Option ℕ
  pub declaration : ℕ

pub data TypeKind : Type 0 where
  error_type never : TypeKind
  primitive : PrimitiveType → TypeKind
  nominal : NominalIdentity → List TypeId → TypeKind
  builtin : ℕ → List TypeId → TypeKind
  tuple : List TypeId → TypeKind
  array : TypeId → ℕ → TypeKind
  slice : Mutability → TypeId → TypeKind
  reference : Mutability → TypeId → TypeKind
  raw_pointer : Mutability → TypeId → TypeKind
  function : Safety → Abi → Option TypeId → List FunctionParameter → TypeId → TypeKind
  trait_object : TypeId → TypeKind
  closure : ℕ → List TypeId → List TypeId → TypeId → TypeKind
  foreign : NominalIdentity → Bool → TypeKind
  alias : ℕ → List TypeId → TypeId → TypeKind
  generic_parameter : ℕ → TypeKind
  self_type : ℕ → TypeKind
  inference_variable : ℕ → TypeKind

pub record TypeContext : Type 0 where
  pub kinds : List TypeKind
  pub interned : List (TypeKind × TypeId)
  pub inference_bindings : List (Option TypeId)

unfoldable pub kind : TypeContext → TypeId → Option TypeKind
kind c ty = get_elem? c.kinds ty

-- `TypeContext::error`
abbrev pub error_id : TypeId
error_id = 0

option_list : Option TypeId → List TypeId
option_list none = []
option_list (some ty) = ty ∷ []

unfoldable pub type_children : TypeKind → List TypeId
unfolding option_list
type_children (nominal _ arguments) = arguments
type_children (builtin _ arguments) = arguments
type_children (tuple elements) = elements
type_children (alias _ arguments target) = arguments ++ target ∷ []
type_children (array element _) = element ∷ []
type_children (slice _ element) = element ∷ []
type_children (trait_object trait_type) = trait_type ∷ []
type_children (reference _ target) = target ∷ []
type_children (raw_pointer _ target) = target ∷ []
type_children (function _ _ receiver parameters return_type) =
    option_list receiver ++ (map (λ p. p.ty) parameters ++ return_type ∷ [])
type_children (closure _ captures parameters return_type) =
    captures ++ (parameters ++ return_type ∷ [])
type_children _ = []

-- One turn of the loop of `resolve_inference`, at a type of the given kind.
unfoldable pub resolve_step :
    TypeContext → (List ℕ → TypeId → Option TypeId) → List ℕ → TypeId → TypeKind → Option TypeId
resolve_step c again seen ty (inference_variable v) =
    if contains v seen then some error_id else elim (get_elem? c.inference_bindings v) [
      | none ↦ none
      | some bound ↦ elim bound [ none ↦ some ty | some target ↦ again (v ∷ seen) target ]
    ]
resolve_step c again seen ty _ = some ty

-- The loop on fuel: `none` is a read out of range, or no fuel left.
unfoldable pub resolve_from : TypeContext → ℕ → List ℕ → TypeId → Option TypeId
resolve_from c zero seen ty = none
resolve_from c (suc fuel) seen ty = elim (kind c ty) [
  | none ↦ none
  | some k ↦ resolve_step c (resolve_from c fuel) seen ty k
]

-- A turn for each inference variable and one more are enough (`Resolve`).
unfoldable pub resolve_inference : TypeContext → TypeId → Option TypeId
resolve_inference c ty = resolve_from c (suc (length c.inference_bindings)) [] ty
