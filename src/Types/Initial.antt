-- ===== src/Types/Initial.antt =====
-- The arena that a new context starts with.
use elamite.Base.{
  ℕ, ◌+◌, ◌≤◌, ◌<◌, ◌≡◌, refl, Bool, true, false, inl, inr, List, [], ◌∷◌, some, arith, get_elem?,
  length, All, all, All-get_elem?, ◌&&◌, contains, subst, get_elem?-lt,
}
use elamite.Types.Defs.{
  TypeContext, TypeKind, TypeId, kind, type_children, inference_variable, PrimitiveType, primitive,
  unit, bool, char, i8, i16, i32, i64, i128, isize, u8, u16, u32, u64, u128, usize, f32, f64, str,
  string, never, error_type,
}
use elamite.Types.Arena.{
  id_limit, id_for_kind, intern_next, initial_kinds, empty_context, new_context, never_id,
  primitive_id, kind_id,
}
use elamite.Types.Resolve.{IsWellFormed}
use elamite.Types.Ranked.{Below, child, bound, IsRanked}
use elamite.Types.Acyclic.{IsFree, Interns-IsRanked}
use elamite.Types.Canonical.{
  IsCanonical, Interns, IsClosedKind, intern-Interns, intern_new, Interns-IsWellFormed,
}

-- A kind that any arena may intern: it has no children and is no inference variable.
is_plain : TypeKind → Bool
is_plain error_type = true
is_plain never = true
is_plain (primitive _) = true
is_plain _ = false

plain-IsClosedKind : (c : TypeContext) (k : TypeKind) → is_plain k ≡ true → IsClosedKind c k
unfolding is_plain type_children
plain-IsClosedKind c error_type p = record { children = tt; slot = λ v h. cc }
plain-IsClosedKind c never p = record { children = tt; slot = λ v h. cc }
plain-IsClosedKind c (primitive x) p = record { children = tt; slot = λ v h. cc }
plain-IsClosedKind c _ p = cc

plain-IsFree : (c : TypeContext) (k : TypeKind) → is_plain k ≡ true → IsFree c k
unfolding is_plain
plain-IsFree c k p v b e h = let no_plain : false ≡ true = subst (λ z. is_plain z ≡ true) e p in cc

and_parts : (a b : Bool) → a && b ≡ true → (a ≡ true) × (b ≡ true)
and_parts a b h = (ground arith, ground arith)

-- What the rest of the interned kinds does to an arena: `ks` are in it, and nothing is lost.
record Filled (ks : List TypeKind) (c : TypeContext) (after : TypeContext) : Type 0 where
  canonical : IsCanonical after
  well_formed : IsWellFormed after
  ranked : IsRanked after
  kept : (i : ℕ) (x : TypeKind) → kind c i ≡ some x → kind after i ≡ some x
  present : All (λ k. (i : TypeId) × (kind after i ≡ some k)) ks

intern_next-Filled :
    (ks : List TypeKind) (id : TypeId) (c : TypeContext)
    → all is_plain ks ≡ true
    → IsCanonical c
    → IsWellFormed c
    → IsRanked c
    → length c.kinds + length ks ≤ id_limit
    → (after : TypeContext) × (intern_next ks (some (id, c)) ≡ some after) × Filled ks c after
unfolding intern_next
intern_next-Filled [] id c p w f g room = (
  c,
  refl,
  record { canonical = w; well_formed = f; ranked = g; kept = λ i x h. h; present = tt },
)
intern_next-Filled (k ∷ ks) id c p w f g room =
    let (here, more) = and_parts (is_plain k) (all is_plain ks) p in
    let (next, c', e, r) = intern-Interns k c w (omega arith) in
    let f' = Interns-IsWellFormed c k next c' f (plain-IsClosedKind c k here) r in
    let g' =
      Interns-IsRanked c k next c' f g (plain-IsClosedKind c k here) (plain-IsFree c k here) r in
    let (after, e', rest) =
      intern_next-Filled ks next c' more r.canonical f' g' (omega (arith, r.at_most_one)) in
    (
      after,
      rw e e',
      record {
        canonical = rest.canonical;
        well_formed = rest.well_formed;
        ranked = rest.ranked;
        kept = λ i x h. rest.kept i x (r.kept i x h);
        present = ((next, rest.kept next k r.kind_at), rest.present);
      },
    )

empty-IsCanonical : IsCanonical empty_context
unfolding kind id_for_kind kind_id
empty-IsCanonical = record { complete = λ i k h. cc; sound = λ k i h. cc }

nothing_in_empty : (i : ℕ) (x : TypeKind) → kind empty_context i ≡ some x → ⊥
unfolding kind
nothing_in_empty i x h = cc

no_slots : (v b : ℕ) → get_elem? empty_context.inference_bindings v ≡ some (some b) → ⊥
no_slots v b h = cc

first-IsWellFormed :
    (after : TypeContext) → Interns empty_context error_type 0 after → IsWellFormed after
unfolding type_children kind
first-IsWellFormed after r = record {
  nonempty = get_elem?-lt after.kinds 0 error_type r.kind_at;
  children = λ i k h. elim (r.only i k h) [
    | inl old ↦ absurd (nothing_in_empty i k old)
    | inr (_, e) ↦ rw e tt
  ];
  variables = λ i v h. elim (r.only i (inference_variable v) h) [
    | inl old ↦ absurd (nothing_in_empty i (inference_variable v) old)
    | inr (_, e) ↦ cc
  ];
  bound =
      λ v b h. absurd (no_slots v b (subst (λ bs. get_elem? bs v ≡ some (some b)) r.bindings h));
}

first-IsRanked : (after : TypeContext) → Interns empty_context error_type 0 after → IsRanked after
unfolding kind type_children contains
first-IsRanked after r = record { rank = λ _. 0; lower = none_below }
  where
    none_below : {x y : TypeId} → Below after x y → 0 < 0
    none_below (child {x = x} {y = y} {k = k} e m) = elim (r.only x k e) [
      | inl old ↦ absurd (nothing_in_empty x k old)
      | inr (_, is) ↦
          let empty : contains y (type_children error_type) ≡ true =
            subst (λ z. contains y (type_children z) ≡ true) is m in
          cc
    ]
    none_below (bound {y = y} {v = v} e b) =
        absurd (no_slots v y (subst (λ bs. get_elem? bs v ≡ some (some y)) r.bindings b))

primitive_place : (p : PrimitiveType) → (i : ℕ) × (get_elem? initial_kinds i ≡ some (primitive p))
primitive_place unit = (1, refl)
primitive_place bool = (2, refl)
primitive_place char = (3, refl)
primitive_place i8 = (4, refl)
primitive_place i16 = (5, refl)
primitive_place i32 = (6, refl)
primitive_place i64 = (7, refl)
primitive_place i128 = (8, refl)
primitive_place isize = (9, refl)
primitive_place u8 = (10, refl)
primitive_place u16 = (11, refl)
primitive_place u32 = (12, refl)
primitive_place u64 = (13, refl)
primitive_place u128 = (14, refl)
primitive_place usize = (15, refl)
primitive_place f32 = (16, refl)
primitive_place f64 = (17, refl)
primitive_place str = (18, refl)
primitive_place string = (19, refl)

-- A new context is canonical, well-formed and without a cycle, `error` is the error type, and `never` and every
-- primitive type are interned.
pub new_context_lem :
    (c : TypeContext) × (new_context ≡ some c)
    × IsCanonical c
    × IsWellFormed c
    × IsRanked c
    × (kind c 0 ≡ some error_type)
    × ((i : TypeId) × (never_id c ≡ some i) × (kind c i ≡ some never))
    × ((p : PrimitiveType)
        → (i : TypeId) × (primitive_id c p ≡ some i) × (kind c i ≡ some (primitive p)))
unfolding new_context id_for_kind kind_id never_id primitive_id is_plain
new_context_lem =
    let (one, e, r) = intern_new error_type empty_context empty-IsCanonical (omega arith) refl in
    let (after, e', rest) =
      intern_next-Filled initial_kinds 0 one refl r.canonical (first-IsWellFormed one r)
        (first-IsRanked one r) (omega (arith, r.at_most_one)) in
    (
      after,
      rw e e',
      rest.canonical,
      rest.well_formed,
      rest.ranked,
      rest.kept 0 error_type r.kind_at,
      interned_at after rest.canonical never rest.present.0,
      λ p.
          let (i, at) = primitive_place p in
          interned_at after rest.canonical (primitive p) (
            All-get_elem? (λ k. (j : TypeId) × (kind after j ≡ some k)) initial_kinds i
              (primitive p) rest.present at),
    )
  where
    interned_at :
        (after : TypeContext)
        → IsCanonical after
        → (k : TypeKind) → (i : TypeId) × (kind after i ≡ some k)
        → (i : TypeId) × (id_for_kind after k ≡ some i) × (kind after i ≡ some k)
    interned_at after w k (i, at) = (i, w.complete i k at, at)
