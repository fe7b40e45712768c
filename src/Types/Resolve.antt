-- ===== src/Types/Resolve.antt =====
-- Resolving inference bindings in a well-formed arena.
use elamite.Base.{
  ℕ, zero, suc, ◌+◌, ◌<◌, ◌≡◌, refl, false, inl, inr, List, [], ◌∷◌, Option, none, some, arith,
  get_elem?, length, contains, get_elem?-some, length-le_of_Distinct, All, Distinct, Bool-cases,
}
use elamite.Types.Defs.{
  TypeContext, TypeKind, TypeId, kind, type_children, inference_variable, resolve_step,
  resolve_from, resolve_inference,
}

-- Every id that the arena or a binding holds is an index of the arena, and every inference
-- variable has a binding slot. Ids come from `intern` and `fresh_inference_variable` alone.
pub record IsWellFormed (c : TypeContext) : Type 0 where
  pub nonempty : 0 < length c.kinds
  pub children :
      (i : ℕ) (k : TypeKind)
      → kind c i ≡ some k
      → All (λ child. child < length c.kinds) (type_children k)
  pub variables :
      (i v : ℕ) → kind c i ≡ some (inference_variable v) → v < length c.inference_bindings
  pub bound : (v b : ℕ) → get_elem? c.inference_bindings v ≡ some (some b) → b < length c.kinds

module _ (c : TypeContext) (w : IsWellFormed c) where
  -- The answer of a step or of the loop is a type of the arena.
  abbrev InArena : Option TypeId → Type 0
  InArena none = ⊥
  InArena (some ty) = ty < length c.kinds

  pub kind-some : (ty : TypeId) → ty < length c.kinds → (k : TypeKind) × (kind c ty ≡ some k)
  unfolding kind
  kind-some ty h = get_elem?-some c.kinds ty h

  bound-InArena :
      (again : List ℕ → TypeId → Option TypeId) (seen : List ℕ) (ty : TypeId) (v : ℕ)
      → ((b : ℕ) → b < length c.kinds → InArena (again (v ∷ seen) b))
      → ty < length c.kinds
      → (o : Option TypeId) → get_elem? c.inference_bindings v ≡ some o
      → InArena (elim o [ none ↦ some ty | some target ↦ again (v ∷ seen) target ])
  bound-InArena again seen ty v rec h none e = h
  bound-InArena again seen ty v rec h (some b) e = rec b (w.bound v b e)

  resolve_step-InArena :
      (again : List ℕ → TypeId → Option TypeId) (seen : List ℕ) (ty : TypeId) (k : TypeKind)
      → ((v b : ℕ)
          → contains v seen ≡ false
          → v < length c.inference_bindings
          → b < length c.kinds
          → InArena (again (v ∷ seen) b))
      → ty < length c.kinds
      → kind c ty ≡ some k
      → InArena (resolve_step c again seen ty k)
  unfolding resolve_step
  resolve_step-InArena again seen ty (inference_variable v) rec h e =
      elim (Bool-cases (contains v seen)) [
        | inl met ↦ rw met w.nonempty
        | inr new ↦
            let (o, slot) = get_elem?-some c.inference_bindings v (w.variables ty v e) in
            rw (new, slot)
              (bound-InArena again seen ty v (λ b hb. rec v b new (w.variables ty v e) hb) h o slot)
      ]
  resolve_step-InArena again seen ty _ rec h e = h

  -- With a unit of fuel for each unseen variable and one more, the loop answers.
  resolve_from-InArena :
      (fuel : ℕ) (seen : List ℕ) (ty : TypeId)
      → Distinct seen
      → All (λ v. v < length c.inference_bindings) seen
      → length c.inference_bindings < fuel + length seen
      → ty < length c.kinds
      → InArena (resolve_from c fuel seen ty)
  unfolding resolve_from
  resolve_from-InArena zero seen ty d a f h =
      absurd (omega (arith, length-le_of_Distinct (length c.inference_bindings) seen d a))
  resolve_from-InArena (suc fuel) seen ty d a f h =
      let (k, e) = kind-some ty h in
      rw (e, resolve_from)
        (resolve_step-InArena (resolve_from c fuel) seen ty k
          (λ v b new hv hb.
            resolve_from-InArena fuel (v ∷ seen) b (new, d) (hv, a) (omega arith) hb)
          h e)

  -- Resolving a type of a well-formed arena ends within its fuel, and at a type of the arena.
  pub resolve_inference_total :
      (ty : TypeId)
      → ty < length c.kinds
      → (r : TypeId) × (resolve_inference c ty ≡ some r) × (r < length c.kinds)
  unfolding resolve_inference
  resolve_inference_total ty h =
      let a : InArena (resolve_from c (suc (length c.inference_bindings)) [] ty) =
        resolve_from-InArena _ [] ty tt tt (omega arith) h in
      from_InArena _ a
    where
      from_InArena :
          (o : Option TypeId) → InArena o → (r : TypeId) × (o ≡ some r) × (r < length c.kinds)
      from_InArena none a = absurd a
      from_InArena (some r) a = (r, refl, a)
