-- ===== src/Types/Unify/Strings.antt =====
-- The type that a string literal gets.
use Prim.Native.String.{String}
use elamite.Base.{
  ℕ, ◌<◌, ◌≡◌, ◌↔◌, ◌⊎◌, inl, inr, refl, sym, ap, ◌∙◌, Option, none, some, length, subst,
}
use elamite.Types.Defs.{PrimitiveType, str, string, TypeId, TypeContext, primitive, kind}
use elamite.Types.Arena.{primitive_id, intern_primitive, intern, intern_found}
use elamite.Types.Expected.{
  exact, LiteralResult, Materialized, materialized, literal_error, materialize_primitive,
  string_primitive, materialize_string,
}
use elamite.Types.Resolve.{IsWellFormed}
use elamite.Types.Ranked.{IsRanked}
use elamite.Types.Canonical.{IsCanonical}
use elamite.Types.Unify.Expanded.{Expands, expanded_primitive_lem}

abbrev pub IsText : PrimitiveType → Type 0
IsText p = (p ≡ str) ⊎ (p ≡ string)

-- Interning a primitive type that the arena has changes nothing.
interned_at :
    (c : TypeContext) (p : PrimitiveType) (i : TypeId)
    → primitive_id c p ≡ some i
    → intern_primitive p c ≡ some (i, c)
unfolding intern_primitive intern intern_found primitive_id
interned_at c p i h = rw (h, intern) refl

materialized_at :
    (c : TypeContext) (p : PrimitiveType) (i : TypeId)
    → primitive_id c p ≡ some i
    → materialize_primitive c p ≡ some (materialized i, c)
unfolding materialize_primitive
materialized_at c p i h = rw (interned_at c p i h, materialize_primitive) refl

module _ (c : TypeContext) (str_id string_id : TypeId) (has_str : primitive_id c str ≡ some str_id)
    (has_string : primitive_id c string ≡ some string_id) where
  -- A text type is materialized as its own id, and all else is an error.
  abbrev Chooses : Option PrimitiveType → Materialized → Type 0
  Chooses found o =
      ((p : PrimitiveType) × (id : TypeId) × IsText p
        × (found ≡ some p)
        × (primitive_id c p ≡ some id)
        × (o ≡ some (materialized id, c)))
      ⊎ ((message : String) × (o ≡ some (literal_error message, c))
          × ((p : PrimitiveType) → IsText p → found ≡ some p → ⊥))

  no_text :
      (found : Option PrimitiveType)
      → (found ≡ some str → ⊥)
      → (found ≡ some string → ⊥)
      → (p : PrimitiveType) → IsText p
      → found ≡ some p
      → ⊥
  no_text found a b p (inl e) h = a (h ∙ ap some e)
  no_text found a b p (inr e) h = b (h ∙ ap some e)

  string_primitive-Chooses :
      (found : Option PrimitiveType) → Chooses found (string_primitive c found)
  unfolding string_primitive
  string_primitive-Chooses none = inr (_, refl, no_text none (λ e. cc) (λ e. cc))
  string_primitive-Chooses (some str) =
      inl (str, str_id, inl refl, refl, has_str, materialized_at c str str_id has_str)
  string_primitive-Chooses (some string) =
      inl (
        string,
        string_id,
        inr refl,
        refl,
        has_string,
        materialized_at c string string_id has_string,
      )
  string_primitive-Chooses (some _) = inr (_, refl, no_text (some _) (λ e. cc) (λ e. cc))

  by_id :
      IsCanonical c
      → (p : PrimitiveType) (i : TypeId) → primitive_id c p ≡ some i
      → kind c i ≡ some (primitive p)
  unfolding primitive_id
  by_id canonical p i h = canonical.sound (primitive p) i h

  by_kind :
      IsCanonical c
      → (p : PrimitiveType) (i : TypeId) → kind c i ≡ some (primitive p)
      → primitive_id c p ≡ some i
  unfolding primitive_id
  by_kind canonical p i h = canonical.complete i (primitive p) h

  same_id :
      (p q : PrimitiveType) (i j : TypeId)
      → p ≡ q
      → primitive_id c p ≡ some i
      → primitive_id c q ≡ some j
      → i ≡ j
  same_id p q i j e h g = cc

  -- In a canonical and well-formed arena without a cycle that has the two text types, a string literal
  -- of an expected type is answered once the fuel exceeds the rank of the type, and is materialized as
  -- a type exactly if the expected type expands to `str` or `String` and the answer is that primitive.
  -- The arena stays as it is.
  pub materialize_string_lem :
      IsCanonical c
      → IsWellFormed c
      → (r : IsRanked c) (fuel : ℕ) (ty : TypeId) → ty < length c.kinds
      → r.rank ty < fuel
      → (result : LiteralResult) × (materialize_string c fuel (exact ty) ≡ some (result, c))
        × ((id : TypeId)
            → result ≡ materialized id ↔ (
                (p : PrimitiveType) × IsText p × Expands c ty p × (kind c id ≡ some (primitive p))))
  unfolding materialize_string
  materialize_string_lem canonical w r fuel ty lt less =
      let (found, e, iff) = expanded_primitive_lem c w r fuel ty lt less in
      rw (e, materialize_string)
        (elim (string_primitive-Chooses found) [
          | inl (p, i, text, at, has, h) ↦ (
            materialized i,
            h,
            λ id. (
              (λ is.
                  let same : i ≡ id = cc in
                  (
                    p,
                    text,
                    (iff p).0 at,
                    subst (λ z. kind c z ≡ some (primitive p)) same (by_id canonical p i has),
                  )),
              λ (q, text', expands, there).
                  let same : some p ≡ some q = sym at ∙ (iff q).1 expands in
                  let same_p : p ≡ q = cc in
                  let other = by_kind canonical q id there in
                  ap materialized (same_id p q i id same_p has other),
            ),
          )
          | inr (message, h, n) ↦ (
            literal_error message,
            h,
            λ id.
                ((λ is. cc), λ (q, text', expands, there). absurd (n q text' ((iff q).1 expands))),
          )
        ])
