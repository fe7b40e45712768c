-- ===== src/Types/Unify/Expanded.antt =====
-- The primitive type that aliases and bindings expand to.
use elamite.Base.{
  ℕ, zero, suc, ◌<◌, ◌≡◌, ◌↔◌, ◌⊎◌, inl, inr, refl, sym, ap, Option, none, some, arith, length,
  subst, All-contains,
}
use elamite.Types.Defs.{
  PrimitiveType, TypeId, TypeKind, TypeContext, alias, primitive, kind, type_children,
}
use elamite.Types.Compare.{alias_target}
use elamite.Types.Expected.{expand_kind, expand_resolved, expanded_primitive}
use elamite.Types.Resolve.{IsWellFormed, kind-some}
use elamite.Types.Ranked.{
  IsRanked, Leads, IsEnd, Leads-unique, rank-Leads, resolve_inference_lem, child,
}
use elamite.Types.Unify.Step.{target-contains}

-- Bindings lead to the primitive type, or to an alias whose target expands to it.
pub data Expands (c : TypeContext) : TypeId → PrimitiveType → Type 0 where
  is_primitive :
      {ty x : TypeId} {p : PrimitiveType}
      → Leads c ty x
      → IsEnd c x
      → kind c x ≡ some (primitive p)
      → Expands c ty p
  through :
      {ty x target : TypeId} {k : TypeKind} {p : PrimitiveType}
      → Leads c ty x
      → IsEnd c x
      → kind c x ≡ some k
      → alias_target k ≡ some target
      → Expands c target p
      → Expands c ty p

-- What expands at an end of this kind.
end-Expands :
    (c : TypeContext) {ty x : TypeId} {p : PrimitiveType} (k : TypeKind)
    → Leads c ty x
    → IsEnd c x
    → kind c x ≡ some k
    → Expands c ty p
    → (k ≡ primitive p) ⊎ ((target : TypeId) × (alias_target k ≡ some target) × Expands c target p)
end-Expands c {x = x} {p = p} k m d e (is_primitive {x = x'} m' d' e') =
    let same : x ≡ x' = Leads-unique c m d m' d' in
    let there : kind c x ≡ some (primitive p) = rw same e' in inl cc
end-Expands c {x = x} {p = p} k m d e
      (through {x = x'} {target = target} {k = k'} m' d' e' t more) =
    let same : x ≡ x' = Leads-unique c m d m' d' in
    let there : kind c x ≡ some k' = rw same e' in
    let kinds : k' ≡ k = cc in inr (target, subst (λ z. alias_target z ≡ some target) kinds t, more)

abbrev Answers : TypeContext → TypeId → Option (Option PrimitiveType) → Type 0
Answers c ty o =
    (found : Option PrimitiveType) × (o ≡ some found)
    × ((p : PrimitiveType) → found ≡ some p ↔ Expands c ty p)

module _ (c : TypeContext) {ty x : TypeId} (m : Leads c ty x) (d : IsEnd c x)
    (again : TypeId → Option (Option PrimitiveType)) where
  neither :
      (k : TypeKind)
      → kind c x ≡ some k
      → alias_target k ≡ none
      → ((p : PrimitiveType) → k ≡ primitive p → ⊥)
      → Answers c ty (some none)
  neither k e n not_primitive = (
    none,
    refl,
    λ p. (
      (λ h. cc),
      λ expands. elim (end-Expands c k m d e expands) [
        | inl is ↦ absurd (not_primitive p is)
        | inr (target, t, more) ↦ cc
      ],
    ),
  )

  -- What a type expands to, by the kind of the end it leads to.
  at_kind :
      (k : TypeKind)
      → kind c x ≡ some k
      → ((target : TypeId) → alias_target k ≡ some target → Answers c target (again target))
      → Answers c ty (expand_kind again (some k))
  unfolding expand_kind
  at_kind (alias a arguments target) e rec =
      let (found, h, iff) = rec target refl in
      (
        found,
        h,
        λ p. (
          (λ is. through m d e refl ((iff p).0 is)),
          λ expands. elim (end-Expands c (alias a arguments target) m d e expands) [
            | inl is ↦ cc
            | inr (target', t, more) ↦
                let same : target ≡ target' = cc in
                (iff p).1 (subst (λ z. Expands c z p) (sym same) more)
          ],
        ),
      )
  at_kind (primitive q) e rec = (
    some q,
    refl,
    λ p. (
      (λ is.
          let same : q ≡ p = cc in
          is_primitive m d (subst (λ z. kind c x ≡ some (primitive z)) same e)),
      λ expands. elim (end-Expands c (primitive q) m d e expands) [
        | inl is ↦ let same : q ≡ p = cc in ap some same
        | inr (target, t, more) ↦ cc
      ],
    ),
  )
  at_kind _ e rec = neither _ e refl (λ p is. cc)

-- In a well-formed arena without a cycle, the expansion of a type answers once its fuel exceeds the
-- rank of the type, and answers a primitive type exactly if bindings and aliases lead to it.
pub expanded_primitive_lem :
    (c : TypeContext) (w : IsWellFormed c) (r : IsRanked c) (fuel : ℕ) (ty : TypeId)
    → ty < length c.kinds
    → r.rank ty < fuel
    → (found : Option PrimitiveType) × (expanded_primitive c fuel ty ≡ some found)
      × ((p : PrimitiveType) → found ≡ some p ↔ Expands c ty p)
unfolding expanded_primitive expand_resolved
expanded_primitive_lem c w r zero ty lt less = absurd (omega arith)
expanded_primitive_lem c w r (suc fuel) ty lt less =
    let (x, e, lx, m, d) = resolve_inference_lem c r w ty lt in
    let (k, at) = kind-some c w x lx in
    let le = rank-Leads c r w m in
    rw (e, at, expanded_primitive)
      (at_kind c m d (expanded_primitive c fuel) k at (λ target t.
        let below = target-contains k target t in
        expanded_primitive_lem c w r fuel target
          (All-contains (λ z. z < length c.kinds) (type_children k) target (w.children x k at)
            below)
          (omega (arith, r.lower (child at below)))))
