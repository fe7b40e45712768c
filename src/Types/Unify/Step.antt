-- ===== src/Types/Unify/Step.antt =====
-- One call of `unify` on two resolved types, from what its own calls promise.
use elamite.Base.{
  ℕ, zero, suc, ◌+◌, ◌<◌, ◌≡◌, refl, ap, ◌∙◌, true, inl, inr, List, [], ◌∷◌, ◌++◌, Option, none,
  some, arith, get_elem?, length, contains, Bool-cases, ==_refl, All-contains,
}
use elamite.Types.Defs.{
  TypeContext, TypeKind, TypeId, kind, type_children, error_id, inference_variable, alias,
}
use elamite.Types.Compare.{
  unified, mismatch, unify_pairs, unify, zip, paired_children, alias_target, variable_of,
  same_outer_shape, bind_variable, bound_to, unify_shapes, unify_variables, unify_kinds,
  set_binding,
}
use elamite.Types.Reach.{Reaches}
use elamite.Types.Contains.{contains_inference_lem}
use elamite.Types.Ranked.{child, stay, follow, IsEnd}
use elamite.Types.Unify.Bound.{
  get_elem?-set_binding, set_binding_kept, unbound-set_binding, bound_to-IsWellFormed,
  bound_to-IsRanked,
}
use elamite.Types.Unify.Same.{
  Same, met, alias_left, alias_right, alike, Extends, Extends-refl, Extends-kind,
}
use elamite.Types.Unify.Inverse.{target-left, target-right, Same-alike}
use elamite.Types.Unify.Outcome.{
  IsReady, Progress, Outcome, Outcome-map, Solves, at_once, AllSame, loop,
}

pub zip-contains :
    (xs ys : List TypeId) (i l r : ℕ)
    → get_elem? (zip xs ys) i ≡ some (l, r)
    → (contains l xs ≡ true) × (contains r ys ≡ true)
unfolding zip contains
zip-contains [] ys i l r h = cc
zip-contains (x ∷ xs) [] i l r h = cc
zip-contains (x ∷ xs) (y ∷ ys) zero l r h =
    let e : x ≡ l = cc in let e' : y ≡ r = cc in (rw (e, ==_refl l) refl, rw (e', ==_refl r) refl)
zip-contains (x ∷ xs) (y ∷ ys) (suc i) l r h =
    let (a, b) = zip-contains xs ys i l r h in (ground arith, ground arith)

contains-last : (x : ℕ) (xs : List ℕ) → contains x (xs ++ x ∷ []) ≡ true
unfolding contains
contains-last x [] = rw (==_refl x) refl
contains-last x (y ∷ xs) = let rest = contains-last x xs in ground arith

pub target-contains :
    (k : TypeKind) (target : TypeId)
    → alias_target k ≡ some target
    → contains target (type_children k) ≡ true
unfolding type_children
target-contains (alias a arguments t) target h =
    let e : t ≡ target = cc in rw e (contains-last target arguments)
target-contains _ target h = cc

pub variable_kind : (k : TypeKind) (v : ℕ) → variable_of k ≡ some v → k ≡ inference_variable v
variable_kind (inference_variable u) v h = let e : u ≡ v = cc in ap inference_variable e
variable_kind _ v h = cc

module _ (c : TypeContext) (w : IsReady c) where
  -- Binding a free variable that the other side does not reach.
  bound-IsReady :
      (v other : TypeId)
      → other < length c.kinds
      → get_elem? c.inference_bindings v ≡ some none
      → ((goal : TypeId) → Reaches c other goal → kind c goal ≡ some (inference_variable v) → ⊥)
      → IsReady (bound_to v other c)
  unfolding kind
  bound-IsReady v other lt free occurs = record {
    well_formed = bound_to-IsWellFormed c v other w.well_formed lt;
    ranked = bound_to-IsRanked c w.ranked w.well_formed v other lt free occurs;
    error = w.error;
  }

  bound-Extends :
      (v other : TypeId)
      → get_elem? c.inference_bindings v ≡ some none
      → Extends c (bound_to v other c)
  bound-Extends v other free = record {
    kinds = refl;
    interned = refl;
    kept = λ u b h. set_binding_kept other v u c.inference_bindings b free h;
  }

  variable-Outcome :
      (v other left right : TypeId) (P : TypeContext → Type 0)
      → other < length c.kinds
      → get_elem? c.inference_bindings v ≡ some none
      → (P c → ⊥)
      → (get_elem? (set_binding v other c.inference_bindings) v ≡ some (some other)
          → P (bound_to v other c))
      → Outcome c (λ m. bind_variable v other left right c) P
  unfolding bind_variable
  variable-Outcome v other left right P lt free not_same done =
      let (found, seen, e, (to, from)) = contains_inference_lem c w.well_formed other v lt in
      elim (Bool-cases found) [
        | inl h ↦
            at_once c _ P (mismatch left right) w (λ m. rw (e, h, bind_variable) refl) not_same
        | inr h ↦ record {
          result = unified other;
          after = bound_to v other c;
          enough = 0;
          answers = λ m _. rw (e, h, bind_variable) refl;
          ready =
              bound-IsReady v other lt free
                (λ goal reaches at. let met_it = from (goal, reaches, at) in cc);
          extends = bound-Extends v other free;
          progress = inr (unbound-set_binding other v c.inference_bindings free);
          tells = done (get_elem?-set_binding other v c.inference_bindings none free);
        }
      ]

-- A type of a kind that is no variable is an end in every arena.
plain-IsEnd :
    (c : TypeContext) (x : TypeId) (k : TypeKind)
    → kind c x ≡ some k
    → variable_of k ≡ none
    → IsEnd c x
plain-IsEnd c x k e n v h = let same : k ≡ inference_variable v = cc in cc

-- The calls that a call at two types makes are solved: at types of the arena, of a lower rank, in
-- every arena that the call comes to.
abbrev pub Calls : (c : TypeContext) → IsReady c → TypeId → TypeId → Type 0
Calls c w x y =
    (now : TypeContext)
    → IsReady now
    → Extends c now
    → Progress c now
    → (l r : TypeId) → l < length c.kinds
    → r < length c.kinds
    → w.ranked.rank l + w.ranked.rank r < w.ranked.rank x + w.ranked.rank y
    → Solves now l r

-- Two different ends of the arena, neither of them the error type.
pub record IsApart (c : TypeContext) (x y : TypeId) : Type 0 where
  pub left_end : IsEnd c x
  pub right_end : IsEnd c y
  pub left_in : x < length c.kinds
  pub right_in : y < length c.kinds
  pub apart : x ≡ y → ⊥
  pub left_no_error : x ≡ error_id → ⊥
  pub right_no_error : y ≡ error_id → ⊥

module _ (c : TypeContext) (w : IsReady c) (x y : TypeId) (p : IsApart c x y)
    (calls : Calls c w x y) (k k' : TypeKind) (at : kind c x ≡ some k)
    (bt : kind c y ≡ some k') where
  abbrev Alike : TypeContext → Type 0
  Alike after =
      (variable_of k ≡ none)
      × (variable_of k' ≡ none)
      × (same_outer_shape k k' ≡ true)
      × AllSame (paired_children k k') after

  -- What two ends that are the same have in common, in every arena to come.
  inverse :
      alias_target k ≡ none
      → alias_target k' ≡ none
      → (after : TypeContext) → IsReady after
      → Extends c after
      → IsEnd after x
      → IsEnd after y
      → Same true after x y
      → Alike after
  inverse n n' after ready e dx dy s =
      Same-alike true after ready.error k k' dx (Extends-kind c after e x ∙ at) n dy
        (Extends-kind c after e y ∙ bt) n' p.apart (λ _. p.left_no_error) (λ _. p.right_no_error) s

  pairs-lower :
      (i l r : ℕ)
      → get_elem? (paired_children k k') i ≡ some (l, r)
      → (l < length c.kinds)
        × (r < length c.kinds)
        × (w.ranked.rank l + w.ranked.rank r < w.ranked.rank x + w.ranked.rank y)
  unfolding paired_children
  pairs-lower i l r h =
      let (a, b) = zip-contains (type_children k) (type_children k') i l r h in
      (
        All-contains (λ z. z < length c.kinds) (type_children k) l (w.well_formed.children x k at)
            a,
        All-contains (λ z. z < length c.kinds) (type_children k') r (w.well_formed.children y k' bt)
            b,
        omega (arith, w.ranked.lower (child at a), w.ranked.lower (child bt b)),
      )

  shapes-Outcome :
      variable_of k ≡ none
      → variable_of k' ≡ none
      → alias_target k ≡ none
      → alias_target k' ≡ none
      → Outcome c (λ m. unify_shapes (unify m) x y k k' c) (λ after. Same true after x y)
  unfolding unify_shapes
  shapes-Outcome v v' n n' = elim (Bool-cases (same_outer_shape k k')) [
    | inl shape ↦ rw shape (
        Outcome-map c (λ m. unify_pairs (unify m) (paired_children k k') x c)
          (AllSame (paired_children k k')) _
          (λ after e ready all.
            alike stay (Extends-kind c after e x ∙ at) stay (Extends-kind c after e y ∙ bt) v v'
              shape all)
          (λ after e ready s.
            let (_, _, _, all) =
              inverse n n' after ready e (plain-IsEnd after x k (Extends-kind c after e x ∙ at) v)
                (plain-IsEnd after y k' (Extends-kind c after e y ∙ bt) v') s in
            all)
          (loop c x (paired_children k k') c w (Extends-refl c) (inl refl) (λ i l r h now ready e q.
            let (ll, lr, less) = pairs-lower i l r h in calls now ready e q l r ll lr less)))
    | inr shape ↦ rw shape (
        at_once c _ _ (mismatch x y) w (λ m. refl)
          (λ s.
            let (_, _, other, _) = inverse n n' c w (Extends-refl c) p.left_end p.right_end s in
            cc))
  ]

  variables-Outcome :
      (o o' : Option ℕ)
      → variable_of k ≡ o
      → variable_of k' ≡ o'
      → alias_target k ≡ none
      → alias_target k' ≡ none
      → Outcome c (λ m. unify_variables (unify m) x y k k' o o' c) (λ after. Same true after x y)
  unfolding unify_variables kind
  variables-Outcome (some v) o' h h' n n' =
      let at_v : kind c x ≡ some (inference_variable v) = at ∙ ap some (variable_kind k v h) in
      variable-Outcome c w v y x y (λ after. Same true after x y) p.right_in (p.left_end v at_v)
        (λ s.
          let (none_here, _, _, _) = inverse n n' c w (Extends-refl c) p.left_end p.right_end s in
          cc)
        (λ b. met (follow at_v b stay) stay)
  variables-Outcome none (some v) h h' n n' =
      let bt_v : kind c y ≡ some (inference_variable v) = bt ∙ ap some (variable_kind k' v h') in
      variable-Outcome c w v x x y (λ after. Same true after x y) p.left_in (p.right_end v bt_v)
        (λ s.
          let (_, none_here, _, _) = inverse n n' c w (Extends-refl c) p.left_end p.right_end s in
          cc)
        (λ b. met stay (follow bt_v b stay))
  variables-Outcome none none h h' n n' = shapes-Outcome h h' n n'

  pub kinds-Outcome :
      (o o' : Option TypeId)
      → alias_target k ≡ o
      → alias_target k' ≡ o'
      → Outcome c (λ m. unify_kinds (unify m) x y k k' o o' c) (λ after. Same true after x y)
  unfolding unify_kinds
  kinds-Outcome (some target) o' h h' =
      let below = target-contains k target h in
      Outcome-map c (λ m. unify m target y c) (λ after. Same true after target y) _
        (λ after e ready s. alias_left stay (Extends-kind c after e x ∙ at) h s)
        (λ after e ready s.
          target-left true after ready.error k (Extends-kind c after e x ∙ at) h s)
        (calls c w (Extends-refl c) (inl refl) target y
          (All-contains (λ z. z < length c.kinds) (type_children k) target
            (w.well_formed.children x k at) below)
          p.right_in (omega (arith, w.ranked.lower (child at below))))
  kinds-Outcome none (some target) h h' =
      let below = target-contains k' target h' in
      Outcome-map c (λ m. unify m x target c) (λ after. Same true after x target) _
        (λ after e ready s. alias_right stay (Extends-kind c after e y ∙ bt) h' s)
        (λ after e ready s.
          target-right true after ready.error k' (Extends-kind c after e y ∙ bt) h' s)
        (calls c w (Extends-refl c) (inl refl) x target p.left_in
          (All-contains (λ z. z < length c.kinds) (type_children k') target
            (w.well_formed.children y k' bt) below)
          (omega (arith, w.ranked.lower (child bt below))))
  kinds-Outcome none none h h' = variables-Outcome (variable_of k) (variable_of k') refl refl h h'
