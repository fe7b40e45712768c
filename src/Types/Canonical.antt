-- ===== src/Types/Canonical.antt =====
-- Interning keeps the arena canonical: kinds and ids determine one another.
use elamite.Base.{
  ℕ, suc, ◌≤◌, ◌<◌, ◌≡◌, refl, sym, ◌⊎◌, inl, inr, [], ◌∷◌, ◌++◌, none, some, arith, get_elem?,
  length, All, All-mono, Bool-cases, Option-cases, lt→ltb, subst, get_elem?-lt, get_elem?-append,
  get_elem?-push, get_elem?-push_cases, length-append,
}
use elamite.Types.Defs.{TypeContext, TypeKind, TypeId, kind, type_children, inference_variable}
use elamite.Types.Equality.{same_kind, same_kind→eq, same_kind_refl}
use elamite.Types.Arena.{id_limit, kind_id, id_for_kind, push_kind, intern_found, intern}
use elamite.Types.Resolve.{IsWellFormed}

-- The map of interned kinds is the inverse of the arena.
pub record IsCanonical (c : TypeContext) : Type 0 where
  pub complete : (i : ℕ) (k : TypeKind) → kind c i ≡ some k → id_for_kind c k ≡ some i
  pub sound : (k : TypeKind) (i : ℕ) → id_for_kind c k ≡ some i → kind c i ≡ some k

-- What a call that interns a kind promises of its answer and of the arena after it.
pub record Interns (c : TypeContext) (k : TypeKind) (id : TypeId) (after : TypeContext)
    : Type 0 where
  pub kind_at : kind after id ≡ some k
  pub canonical : IsCanonical after
  pub kept : (i : ℕ) (x : TypeKind) → kind c i ≡ some x → kind after i ≡ some x
  pub only :
      (i : ℕ) (x : TypeKind) → kind after i ≡ some x → (kind c i ≡ some x) ⊎ ((i ≡ id) × (x ≡ k))
  pub grows : length c.kinds ≤ length after.kinds
  pub at_most_one : length after.kinds ≤ suc (length c.kinds)
  pub bindings : after.inference_bindings ≡ c.inference_bindings

kind-lt : (c : TypeContext) (i : ℕ) (k : TypeKind) → kind c i ≡ some k → i < length c.kinds
unfolding kind
kind-lt c i k h = get_elem?-lt c.kinds i k h

module _ (k : TypeKind) (c : TypeContext) (w : IsCanonical c) (new : id_for_kind c k ≡ none) where
  abbrev pushed : TypeContext
  pushed = record c { kinds = c.kinds ++ k ∷ []; interned = (k, length c.kinds) ∷ c.interned }

  not_there : (i : ℕ) → kind c i ≡ some k → ⊥
  not_there i h = cc (w.complete i k h)

  pushed_complete : (i : ℕ) (x : TypeKind) → kind pushed i ≡ some x → id_for_kind pushed x ≡ some i
  unfolding kind id_for_kind kind_id
  pushed_complete i x h = elim (get_elem?-push_cases c.kinds k i x h) [
    | inl old ↦ elim (Bool-cases (same_kind k x)) [
      | inl e ↦ absurd (not_there i (rw (same_kind→eq k x e) old))
      | inr e ↦ rw e (w.complete i x old)
    ]
    | inr (at_end, e) ↦ rw (e, same_kind_refl k, at_end)
  ]

  pushed_sound : (x : TypeKind) (i : ℕ) → id_for_kind pushed x ≡ some i → kind pushed i ≡ some x
  unfolding kind id_for_kind kind_id
  pushed_sound x i h = elim (Bool-cases (same_kind k x)) [
    | inl e ↦
        let at : length c.kinds ≡ i = ground arith in
        rw (← at, ← same_kind→eq k x e) (get_elem?-push c.kinds k)
    | inr e ↦ get_elem?-append c.kinds (k ∷ []) i x (w.sound x i (ground arith))
  ]

  push-Interns : Interns c k (length c.kinds) pushed
  unfolding kind
  push-Interns = record {
    kind_at = get_elem?-push c.kinds k;
    canonical = record { complete = pushed_complete; sound = pushed_sound };
    kept = λ i x h. get_elem?-append c.kinds (k ∷ []) i x h;
    only = λ i x h. get_elem?-push_cases c.kinds k i x h;
    grows = omega (arith, length-append {0} c.kinds (k ∷ []));
    at_most_one = omega (arith, length-append {0} c.kinds (k ∷ []));
    bindings = refl;
  }

same-Interns :
    (k : TypeKind) (c : TypeContext) (id : TypeId)
    → IsCanonical c
    → id_for_kind c k ≡ some id
    → Interns c k id c
same-Interns k c id w h = record {
  kind_at = w.sound k id h;
  canonical = w;
  kept = λ i x e. e;
  only = λ i x e. inl e;
  grows = omega arith;
  at_most_one = omega arith;
  bindings = refl;
}

pub intern_new :
    (k : TypeKind) (c : TypeContext)
    → IsCanonical c
    → length c.kinds < id_limit
    → id_for_kind c k ≡ none
    → (after : TypeContext) × (intern k c ≡ some (length c.kinds, after))
      × Interns c k (length c.kinds) after
unfolding intern intern_found push_kind
intern_new k c w room new =
    (pushed k c w new, rw (new, lt→ltb (length c.kinds) id_limit room), push-Interns k c w new)

-- In a canonical arena with room for a push, interning a kind answers with an id of that kind,
-- keeps every kind at its id, keeps the arena canonical, and adds no other kind.
pub intern-Interns :
    (k : TypeKind) (c : TypeContext)
    → IsCanonical c
    → length c.kinds < id_limit
    → (id : TypeId) × (after : TypeContext) × (intern k c ≡ some (id, after)) × Interns c k id after
unfolding intern intern_found
intern-Interns k c w room = elim (Option-cases (id_for_kind c k)) [
  | inl new ↦ let (after, e, r) = intern_new k c w room new in (length c.kinds, after, e, r)
  | inr (id, found) ↦ (id, c, rw (found), same-Interns k c id w found)
]

-- Interning the same kind again answers with the same id and changes nothing.
pub intern_again :
    (k : TypeKind) (c : TypeContext) (id : TypeId) (after : TypeContext)
    → Interns c k id after
    → intern k after ≡ some (id, after)
unfolding intern intern_found
intern_again k c id after r = rw (r.canonical.complete id k r.kind_at)

-- The kind that is interned is closed: its children are types of the arena, and if it is an
-- inference variable the arena has a slot for it.
pub record IsClosedKind (c : TypeContext) (k : TypeKind) : Type 0 where
  pub children : All (λ child. child < length c.kinds) (type_children k)
  pub slot : (v : ℕ) → k ≡ inference_variable v → v < length c.inference_bindings

pub Interns-IsWellFormed :
    (c : TypeContext) (k : TypeKind) (id : TypeId) (after : TypeContext)
    → IsWellFormed c
    → IsClosedKind c k
    → Interns c k id after
    → IsWellFormed after
Interns-IsWellFormed c k id after w closed r = record {
  nonempty = omega (arith, w.nonempty, r.grows);
  children = λ i x h.
      All-mono (λ j. j < length c.kinds) (λ j. j < length after.kinds)
        (λ j lt. omega (arith, r.grows)) (type_children x)
        (elim (r.only i x h) [ inl old ↦ w.children i x old | inr (_, e) ↦ rw e closed.children ]);
  variables = λ i v h. rw r.bindings (elim (r.only i (inference_variable v) h) [
    | inl old ↦ w.variables i v old
    | inr (_, e) ↦ closed.slot v (sym e)
  ]);
  bound = λ v b h.
      omega
        (arith, r.grows, w.bound v b (subst (λ bs. get_elem? bs v ≡ some (some b)) r.bindings h));
}
