-- ===== src/Types/Unify/Bound.antt =====
-- Binding a variable that the other side does not reach.
use elamite.Base.{
  ℕ, zero, suc, ◌+◌, ◌<◌, ◌≡◌, ◌↔◌, refl, ap, Bool, true, false, ◌⊎◌, inl, inr, List, [], ◌∷◌,
  Option, none, some, arith, get_elem?, length, contains, All-contains, Bool-cases, if◌then◌else◌,
  subst, get_elem?-lt,
}
use elamite.Types.Defs.{
  TypeContext, TypeId, kind, type_children, inference_variable, resolve_inference,
}
use elamite.Types.Search.{contains_inference}
use elamite.Types.Compare.{set_binding, bound_to}
use elamite.Types.Resolve.{IsWellFormed}
use elamite.Types.Reach.{Reaches, here, below}
use elamite.Types.Contains.{contains_inference_lem}
use elamite.Types.Ranked.{
  Below, child, bound, IsRanked, Leads, stay, follow, IsEnd, Leads-unique, resolve_inference_lem,
  resolve_inference-Leads,
}

-- The number of slots that nothing is bound to.
unfoldable pub unbound : List (Option TypeId) → ℕ
unbound [] = 0
unbound (none ∷ rest) = suc (unbound rest)
unbound (some _ ∷ rest) = unbound rest

module _ (t : TypeId) where
  pub length-set_binding :
      (v : ℕ) (bs : List (Option TypeId)) → length (set_binding v t bs) ≡ length bs
  unfolding set_binding
  length-set_binding v [] = refl
  length-set_binding zero (b ∷ bs) = refl
  length-set_binding (suc v) (b ∷ bs) = ap suc (length-set_binding v bs)

  pub get_elem?-set_binding :
      (v : ℕ) (bs : List (Option TypeId)) (old : Option TypeId)
      → get_elem? bs v ≡ some old
      → get_elem? (set_binding v t bs) v ≡ some (some t)
  unfolding set_binding
  get_elem?-set_binding v [] old h = cc
  get_elem?-set_binding zero (b ∷ bs) old h = refl
  get_elem?-set_binding (suc v) (b ∷ bs) old h = get_elem?-set_binding v bs old h

  pub set_binding_cases :
      (v u : ℕ) (bs : List (Option TypeId)) (o : Option TypeId)
      → get_elem? (set_binding v t bs) u ≡ some o
      → ((u ≡ v) × (o ≡ some t)) ⊎ (get_elem? bs u ≡ some o)
  unfolding set_binding
  set_binding_cases v u [] o h = cc
  set_binding_cases zero zero (b ∷ bs) o h = inl (refl, cc)
  set_binding_cases zero (suc u) (b ∷ bs) o h = inr h
  set_binding_cases (suc v) zero (b ∷ bs) o h = inr h
  set_binding_cases (suc v) (suc u) (b ∷ bs) o h = elim (set_binding_cases v u bs o h) [
    | inl (e, f) ↦ inl (ap suc e, f)
    | inr e ↦ inr e
  ]

  pub set_binding_kept :
      (v u : ℕ) (bs : List (Option TypeId)) (b : TypeId)
      → get_elem? bs v ≡ some none
      → get_elem? bs u ≡ some (some b)
      → get_elem? (set_binding v t bs) u ≡ some (some b)
  unfolding set_binding
  set_binding_kept v u [] b f h = cc
  set_binding_kept zero zero (x ∷ bs) b f h = cc
  set_binding_kept zero (suc u) (x ∷ bs) b f h = h
  set_binding_kept (suc v) zero (x ∷ bs) b f h = h
  set_binding_kept (suc v) (suc u) (x ∷ bs) b f h = set_binding_kept v u bs b f h

  pub unbound-set_binding :
      (v : ℕ) (bs : List (Option TypeId))
      → get_elem? bs v ≡ some none
      → unbound (set_binding v t bs) < unbound bs
  unfolding set_binding unbound
  unbound-set_binding v [] f = cc
  unbound-set_binding zero (none ∷ bs) f = omega arith
  unbound-set_binding zero (some b ∷ bs) f = cc
  unbound-set_binding (suc v) (none ∷ bs) f = omega (arith, unbound-set_binding v bs f)
  unbound-set_binding (suc v) (some b ∷ bs) f = unbound-set_binding v bs f

pub bound_to-IsWellFormed :
    (c : TypeContext) (v : ℕ) (t : TypeId)
    → IsWellFormed c
    → t < length c.kinds
    → IsWellFormed (bound_to v t c)
unfolding kind
bound_to-IsWellFormed c v t w lt = record {
  nonempty = w.nonempty;
  children = λ i k h. w.children i k h;
  variables =
      λ i u h. omega (arith, w.variables i u h, length-set_binding t v c.inference_bindings);
  bound = λ u b h. elim (set_binding_cases t v u c.inference_bindings (some b) h) [
    | inl (_, e) ↦ let same : b ≡ t = cc in rw same lt
    | inr old ↦ w.bound u b old
  ];
}

Below-lt :
    (c : TypeContext) (w : IsWellFormed c) {x y : TypeId}
    → Below c x y
    → (x < length c.kinds) × (y < length c.kinds)
unfolding kind
Below-lt c w (child {x = x} {y = y} {k = k} e m) = (
  get_elem?-lt c.kinds x k e,
  All-contains (λ i. i < length c.kinds) (type_children k) y (w.children x k e) m,
)
Below-lt c w (bound {x = x} {y = y} {v = v} e b) =
    (get_elem?-lt c.kinds x (inference_variable v) e, w.bound v y b)

childless : (v y : ℕ) → contains y (type_children (inference_variable v)) ≡ true → ⊥
unfolding type_children contains
childless v y h = cc

module _ (c : TypeContext) (r : IsRanked c) (w : IsWellFormed c) where
  resolve_at_end : (x : TypeId) → x < length c.kinds → IsEnd c x → resolve_inference c x ≡ some x
  resolve_at_end x lt d =
      let (y, e, _, l, d') = resolve_inference_lem c r w x lt in
      rw (e, Leads-unique c l d' stay d) refl

  resolves_as :
      {x y goal : TypeId}
      → ((z : TypeId) → resolve_inference c y ≡ some z → resolve_inference c x ≡ some z)
      → Reaches c y goal
      → Reaches c x goal
  resolves_as f (here e) = here (f _ e)
  resolves_as f (below e at m rest) = below (f _ e) at m rest

  back :
      (x y z : TypeId)
      → Below c x y
      → Leads c x y
      → resolve_inference c y ≡ some z
      → resolve_inference c x ≡ some z
  back x y z step l e =
      let (lx, ly) = Below-lt c w step in
      let (z', e', _, _, _) = resolve_inference_lem c r w x lx in
      let ahead = resolve_inference-Leads c r w x z' y lx ly l e' in cc

  Reaches-Below : {x y goal : TypeId} → Below c x y → Reaches c y goal → Reaches c x goal
  Reaches-Below (child {x = x} {y = y} {k = k} e m) reaches =
      below
        (resolve_at_end x (Below-lt c w (child e m)).0 (λ v h.
          let same : k ≡ inference_variable v = cc in
          absurd (childless v y (subst (λ z. contains y (type_children z) ≡ true) same m))))
        e m reaches
  Reaches-Below (bound {x = x} {y = y} e b) reaches =
      resolves_as (λ z. back x y z (bound e b) (follow e b stay)) reaches

  module _ (v : ℕ) (t : TypeId) (lt : t < length c.kinds)
      (free : get_elem? c.inference_bindings v ≡ some none)
      (occurs : (goal : TypeId)
        → Reaches c t goal
        → kind c goal ≡ some (inference_variable v)
        → ⊥) where
    -- Whether a type reaches the variable.
    abbrev Touches : TypeId → Type 0
    Touches x = (goal : TypeId) × Reaches c x goal × (kind c goal ≡ some (inference_variable v))

    touches : TypeId → Bool
    touches x = elim (contains_inference c x v) [ none ↦ false | some (found, _) ↦ found ]

    touches-Touches : (x : TypeId) → x < length c.kinds → touches x ≡ true ↔ Touches x
    unfolding touches
    touches-Touches x h =
        let (found, seen, e, iff) = contains_inference_lem c w x v h in rw (e, touches) iff

    touches-Below : {x y : TypeId} → Below c x y → touches y ≡ true → touches x ≡ true
    touches-Below {x} {y} step h =
        let (lx, ly) = Below-lt c w step in
        let (goal, reaches, at) = (touches-Touches y ly).0 h in
        (touches-Touches x lx).1 (goal, Reaches-Below step reaches, at)

    variable-touches : (x : TypeId) → kind c x ≡ some (inference_variable v) → touches x ≡ true
    unfolding kind
    variable-touches x e =
        let lx = get_elem?-lt c.kinds x (inference_variable v) e in
        let d : IsEnd c x = λ u h. let same : v ≡ u = cc in rw (← same) free in
        (touches-Touches x lx).1 (x, here (resolve_at_end x lx d), e)

    target-touches : touches t ≡ false
    target-touches = elim (Bool-cases (touches t)) [
      | inl h ↦
          let (goal, reaches, at) = (touches-Touches t lt).0 h in absurd (occurs goal reaches at)
      | inr h ↦ h
    ]

    new_rank : TypeId → ℕ
    new_rank x = if touches x then suc (r.rank x + r.rank t) else r.rank x

    lower-old : {x y : TypeId} → Below c x y → new_rank y < new_rank x
    unfolding new_rank
    lower-old {x} {y} step = let less = r.lower step in let up = touches-Below step in ground arith

    lower-new : (x : TypeId) → kind c x ≡ some (inference_variable v) → new_rank t < new_rank x
    unfolding new_rank
    lower-new x e = rw (target-touches, variable-touches x e) (omega arith)

    new-lower : {x y : TypeId} → Below (bound_to v t c) x y → new_rank y < new_rank x
    unfolding kind
    new-lower (child e m) = lower-old (child e m)
    new-lower (bound {x = x} {y = y} {v = u} e b) =
        elim (set_binding_cases t v u c.inference_bindings (some y) b) [
          | inl (same, target) ↦
              let is : t ≡ y = cc in
              subst (λ z. new_rank z < new_rank x) is (lower-new x (rw (← same) e))
          | inr old ↦ lower-old (bound e old)
        ]

    pub bound_to-IsRanked : IsRanked (bound_to v t c)
    bound_to-IsRanked = record { rank = new_rank; lower = new-lower }
