-- ===== src/Types/Acyclic.antt =====
-- Interning a closed kind makes no cycle.
use elamite.Base.{
  ℕ, suc, ◌+◌, ◌<◌, ◌≡◌, refl, sym, true, inl, inr, List, [], ◌∷◌, some, arith, get_elem?, length,
  contains, Bool-cases, if◌then◌else◌, ltb, lt→ltb, ltb→lt, subst, get_elem?-lt, All-contains, ◌==◌,
  ==→eq,
}
use elamite.Types.Defs.{TypeContext, TypeKind, TypeId, kind, type_children, inference_variable}
use elamite.Types.Resolve.{IsWellFormed, kind-some}
use elamite.Types.Canonical.{Interns, IsClosedKind}
use elamite.Types.Ranked.{Below, child, bound, IsRanked}

-- A kind that is no variable with a binding.
abbrev pub IsFree : TypeContext → TypeKind → Type 0
IsFree c k =
    (v b : ℕ) → k ≡ inference_variable v → get_elem? c.inference_bindings v ≡ some (some b) → ⊥

module _ (rank : TypeId → ℕ) where
  above_all : List TypeId → ℕ
  above_all [] = 0
  above_all (x ∷ xs) = suc (rank x + above_all xs)

  contains-above : (xs : List TypeId) (x : TypeId) → contains x xs ≡ true → rank x < above_all xs
  unfolding contains above_all
  contains-above [] x h = cc
  contains-above (y ∷ xs) x h = elim (Bool-cases (y == x)) [
    | inl e ↦ rw (← ==→eq y x e) (omega arith)
    | inr e ↦ omega (arith, contains-above xs x (ground arith))
  ]

module _ (c : TypeContext) (k : TypeKind) (id : TypeId) (after : TypeContext) (w : IsWellFormed c)
    (r : IsRanked c) (closed : IsClosedKind c k) (free : IsFree c k)
    (n : Interns c k id after) where
  new_rank : TypeId → ℕ
  new_rank x = if ltb x (length c.kinds) then r.rank x else above_all r.rank (type_children k)

  old_rank : (x : TypeId) → x < length c.kinds → new_rank x ≡ r.rank x
  unfolding new_rank
  old_rank x h = rw (lt→ltb x (length c.kinds) h) refl

  in_arena : (x : TypeId) (kx : TypeKind) → kind c x ≡ some kx → x < length c.kinds
  unfolding kind
  in_arena x kx h = get_elem?-lt c.kinds x kx h

  old-lower :
      {x y : TypeId}
      → Below c x y
      → x < length c.kinds
      → y < length c.kinds
      → new_rank y < new_rank x
  old-lower {x} {y} step lx ly = rw (old_rank x lx, old_rank y ly) (r.lower step)

  old_child :
      (x y : TypeId) (kx : TypeKind)
      → kind c x ≡ some kx
      → contains y (type_children kx) ≡ true
      → new_rank y < new_rank x
  old_child x y kx e m =
      old-lower (child e m) (in_arena x kx e)
        (All-contains (λ z. z < length c.kinds) (type_children kx) y (w.children x kx e) m)

  -- A child of the kind that was interned.
  new_child : (y : TypeId) → contains y (type_children k) ≡ true → new_rank y < new_rank id
  unfolding new_rank
  new_child y m = elim (Bool-cases (ltb id (length c.kinds))) [
    | inl h ↦
        let (k', e) = kind-some c w id (ltb→lt id (length c.kinds) h) in
        let kept = n.kept id k' e in
        let kept_is : kind after id ≡ some k = n.kind_at in
        let same : k' ≡ k = cc in old_child id y k (subst (λ z. kind c id ≡ some z) same e) m
    | inr h ↦
        let ly = All-contains (λ z. z < length c.kinds) (type_children k) y closed.children m in
        rw (h, lt→ltb y (length c.kinds) ly) (contains-above r.rank (type_children k) y m)
  ]

  after-lower : {x y : TypeId} → Below after x y → new_rank y < new_rank x
  after-lower (child {x = x} {y = y} {k = kx} e m) = elim (n.only x kx e) [
    | inl old ↦ old_child x y kx old m
    | inr (at_id, is_k) ↦
        rw at_id (new_child y (subst (λ z. contains y (type_children z) ≡ true) is_k m))
  ]
  after-lower (bound {x = x} {y = y} {v = v} e b) =
      let slot = subst (λ bs. get_elem? bs v ≡ some (some y)) n.bindings b in
      elim (n.only x (inference_variable v) e) [
        | inl old ↦
            old-lower (bound old slot) (in_arena x (inference_variable v) old) (w.bound v y slot)
        | inr (at_id, is_k) ↦ absurd (free v y (sym is_k) slot)
      ]

  -- The arena after a call that interns a closed kind has no cycle if the arena before it had none.
  pub Interns-IsRanked : IsRanked after
  Interns-IsRanked = record { rank = new_rank; lower = after-lower }
