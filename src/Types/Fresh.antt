-- ===== src/Types/Fresh.antt =====
-- Fresh inference variables.
use elamite.Base.{
  ℕ, ◌<◌, ◌≡◌, refl, sym, inl, inr, [], ◌∷◌, ◌++◌, Option, none, some, arith, get_elem?, length,
  contains, lt→ltb, subst, get_elem?-push, get_elem?-push_cases, length-append,
}
use elamite.Types.Defs.{
  TypeContext, TypeKind, TypeId, kind, type_children, inference_variable, resolve_inference,
  resolve_from, resolve_step,
}
use elamite.Types.Arena.{id_limit, id_for_kind, fresh_inference_variable}
use elamite.Types.Resolve.{IsWellFormed}
use elamite.Types.Ranked.{Below, child, bound, IsRanked}
use elamite.Types.Acyclic.{IsFree, Interns-IsRanked}
use elamite.Types.Canonical.{IsCanonical, IsClosedKind, intern_new, Interns-IsWellFormed}

-- The arena with one more slot for a binding.
abbrev slotted : TypeContext → TypeContext
slotted c = record c { inference_bindings = c.inference_bindings ++ none ∷ [] }

slotted-IsCanonical : (c : TypeContext) → IsCanonical c → IsCanonical (slotted c)
unfolding kind id_for_kind
slotted-IsCanonical c w = record {
  complete = λ i k h. w.complete i k h;
  sound = λ k i h. w.sound k i h;
}

slotted-IsWellFormed : (c : TypeContext) → IsWellFormed c → IsWellFormed (slotted c)
unfolding kind
slotted-IsWellFormed c w = record {
  nonempty = w.nonempty;
  children = λ i k h. w.children i k h;
  variables =
      λ i v h. omega (arith, w.variables i v h, length-append {0} c.inference_bindings (none ∷ []));
  bound = λ v b h. elim (get_elem?-push_cases c.inference_bindings none v (some b) h) [
    | inl old ↦ w.bound v b old
    | inr (_, e) ↦ cc
  ];
}

slotted-IsRanked : (c : TypeContext) → IsRanked c → IsRanked (slotted c)
unfolding kind
slotted-IsRanked c r = record { rank = r.rank; lower = lower }
  where
    lower : {x y : TypeId} → Below (slotted c) x y → r.rank y < r.rank x
    lower (child e m) = r.lower (child e m)
    lower (bound {y = y} {v = v} e b) =
        elim (get_elem?-push_cases c.inference_bindings none v (some y) b) [
          | inl old ↦ r.lower (bound e old)
          | inr (_, e) ↦ cc
        ]

no_slot_yet :
    (c : TypeContext)
    → IsCanonical c
    → IsWellFormed c
    → (o : Option TypeId) → id_for_kind c (inference_variable (length c.inference_bindings)) ≡ o
    → o ≡ none
no_slot_yet c w f none h = refl
no_slot_yet c w f (some i) h =
    absurd (omega (arith, f.variables i (length c.inference_bindings) (w.sound _ i h)))

unbound :
    (c : TypeContext) (id v : ℕ)
    → kind c id ≡ some (inference_variable v)
    → get_elem? c.inference_bindings v ≡ some none
    → resolve_inference c id ≡ some id
unfolding resolve_inference resolve_from resolve_step contains
unbound c id v k b = rw (k, resolve_from, resolve_step, b)

same_variable : (v u : ℕ) → inference_variable v ≡ inference_variable u → v ≡ u
same_variable v u h = cc

-- In a canonical and well-formed arena with room for a push, a fresh inference variable is a type
-- that the arena did not have, unbound; the arena stays canonical, well-formed and without a cycle,
-- and keeps its kinds.
pub fresh_inference_variable_lem :
    (c : TypeContext)
    → IsCanonical c
    → IsWellFormed c
    → IsRanked c
    → length c.kinds < id_limit
    → length c.inference_bindings < id_limit
    → (after : TypeContext) × (fresh_inference_variable c ≡ some (length c.kinds, after))
      × (kind after (length c.kinds) ≡ some (inference_variable (length c.inference_bindings)))
      × (resolve_inference after (length c.kinds) ≡ some (length c.kinds))
      × IsCanonical after
      × IsWellFormed after
      × IsRanked after
      × ((i : ℕ) (x : TypeKind) → kind c i ≡ some x → kind after i ≡ some x)
unfolding fresh_inference_variable id_for_kind type_children kind
fresh_inference_variable_lem c w f ranked room slots =
    let v = length c.inference_bindings in
    let new = no_slot_yet c w f _ refl in
    let (after, e, r) =
      intern_new (inference_variable v) (slotted c) (slotted-IsCanonical c w) room new in
    let free : get_elem? after.inference_bindings v ≡ some none =
      subst (λ bs. get_elem? bs v ≡ some none) (sym r.bindings)
        (get_elem?-push c.inference_bindings none) in
    let unbound_yet : IsFree (slotted c) (inference_variable v) = λ u b same h.
      let at : v ≡ u = same_variable v u same in
      let slot = get_elem?-push c.inference_bindings none in
      let taken : get_elem? (slotted c).inference_bindings v ≡ some (some b) = rw at h in cc in
    let closed : IsClosedKind (slotted c) (inference_variable v) = record {
      children = tt;
      slot = λ u h.
          omega (arith, same_variable v u h, length-append {0} c.inference_bindings (none ∷ []));
    } in
    (
      after,
      rw (lt→ltb v id_limit slots) e,
      r.kind_at,
      unbound after (length c.kinds) v r.kind_at free,
      r.canonical,
      Interns-IsWellFormed (slotted c) (inference_variable v) (length c.kinds) after
          (slotted-IsWellFormed c f) closed r,
      Interns-IsRanked (slotted c) (inference_variable v) (length c.kinds) after
          (slotted-IsWellFormed c f) (slotted-IsRanked c ranked) closed unbound_yet r,
      r.kept,
    )
