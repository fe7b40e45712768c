-- ===== src/Types/Arena.antt =====
-- src/types/context.rs:231-345: the arena that interns kinds. A push past 2^32
-- entries, where the source panics, is `none`.
use elamite.Base.{ℕ, ◌^◌, List, [], ◌∷◌, ◌++◌, map, Option, none, some, length, if◌then◌else◌, ltb}
use elamite.Types.Defs.{
  PrimitiveType, unit, bool, char, i8, i16, i32, i64, i128, isize, u8, u16, u32, u64, u128, usize,
  f32, f64, str, string, TypeId, TypeKind, TypeContext, error_type, never, primitive,
  inference_variable,
}
use elamite.Types.Equality.{same_kind}

-- The ids of the arena are 32-bit.
abbrev pub id_limit : ℕ
id_limit = 2 ^ 32

-- An entry of the map from kinds to ids.
unfoldable pub kind_id : TypeKind → List (TypeKind × TypeId) → Option TypeId
kind_id k [] = none
kind_id k ((other, id) ∷ entries) = if same_kind other k then some id else kind_id k entries

unfoldable pub id_for_kind : TypeContext → TypeKind → Option TypeId
id_for_kind c k = kind_id k c.interned

-- `TypeContext::id_at`
unfoldable pub id_at : TypeContext → ℕ → Option TypeId
id_at c index = if ltb index (length c.kinds) then some index else none

unfoldable pub push_kind : TypeKind → TypeContext → Option (TypeId × TypeContext)
push_kind k c =
    if ltb (length c.kinds) id_limit
    then some (
      length c.kinds,
      record c { kinds = c.kinds ++ k ∷ []; interned = (k, length c.kinds) ∷ c.interned },
    )
    else none

unfoldable pub intern_found : TypeKind → TypeContext → Option TypeId → Option (TypeId × TypeContext)
intern_found k c (some existing) = some (existing, c)
intern_found k c none = push_kind k c

unfoldable pub intern : TypeKind → TypeContext → Option (TypeId × TypeContext)
intern k c = intern_found k c (id_for_kind c k)

unfoldable pub fresh_inference_variable : TypeContext → Option (TypeId × TypeContext)
fresh_inference_variable c =
    if ltb (length c.inference_bindings) id_limit
    then intern (inference_variable (length c.inference_bindings))
        (record c { inference_bindings = c.inference_bindings ++ none ∷ [] })
    else none

unfoldable pub intern_next : List TypeKind → Option (TypeId × TypeContext) → Option TypeContext
intern_next [] none = none
intern_next [] (some (_, c)) = some c
intern_next (k ∷ ks) none = none
intern_next (k ∷ ks) (some (_, c)) = intern_next ks (intern k c)

abbrev pub empty_context : TypeContext
empty_context = record { kinds = []; interned = []; inference_bindings = [] }

abbrev pub initial_kinds : List TypeKind
initial_kinds =
    never
    ∷ map primitive (
        unit ∷ bool ∷ char ∷ i8 ∷ i16 ∷ i32 ∷ i64 ∷ i128 ∷ isize ∷ u8 ∷ u16 ∷ u32 ∷ u64 ∷ u128
        ∷ usize ∷ f32 ∷ f64 ∷ str ∷ string ∷ [])

-- `TypeContext::default`
unfoldable pub new_context : Option TypeContext
new_context = intern_next initial_kinds (intern error_type empty_context)

-- `TypeContext::primitive`
unfoldable pub intern_primitive : PrimitiveType → TypeContext → Option (TypeId × TypeContext)
intern_primitive p c = intern (primitive p) c

-- `TypeContext::never` and `primitive_id`; where the source panics, `none`.
unfoldable pub never_id : TypeContext → Option TypeId
never_id c = id_for_kind c never

unfoldable pub primitive_id : TypeContext → PrimitiveType → Option TypeId
primitive_id c p = id_for_kind c (primitive p)
