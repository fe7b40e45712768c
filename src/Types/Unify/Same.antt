-- ===== src/Types/Unify/Same.antt =====
-- Types that are the same up to bindings, aliases and the error type.
use elamite.Base.{
  Bool, true, ℕ, ◌≡◌, refl, sym, ap, ◌∙◌, true, ◌⊎◌, inl, inr, none, some, get_elem?, subst,
}
use elamite.Types.Defs.{
  TypeContext, TypeKind, TypeId, kind, error_type, error_id, inference_variable, alias,
}
use elamite.Types.Compare.{same_outer_shape, paired_children, alias_target, variable_of}
use elamite.Types.Ranked.{Leads, stay, follow, Leads-trans}

-- Two types are the same when bindings lead them to one type or (where that is taken for a match) one of them to the error
-- type, when
-- the target of an alias is the same as the other side, or when their kinds have one shape and their
-- children are the same in pairs.
pub data Same (lenient : Bool) (c : TypeContext) : TypeId → TypeId → Type 0 where
  met : {l r x : TypeId} → Leads c l x → Leads c r x → Same lenient c l r
  error_left : {l r : TypeId} → lenient ≡ true → Leads c l error_id → Same lenient c l r
  error_right : {l r : TypeId} → lenient ≡ true → Leads c r error_id → Same lenient c l r
  alias_left :
      {l r x target : TypeId} {k : TypeKind}
      → Leads c l x
      → kind c x ≡ some k
      → alias_target k ≡ some target
      → Same lenient c target r
      → Same lenient c l r
  alias_right :
      {l r y target : TypeId} {k : TypeKind}
      → Leads c r y
      → kind c y ≡ some k
      → alias_target k ≡ some target
      → Same lenient c l target
      → Same lenient c l r
  alike :
      {l r x y : TypeId} {k k' : TypeKind}
      → Leads c l x
      → kind c x ≡ some k
      → Leads c r y
      → kind c y ≡ some k'
      → variable_of k ≡ none
      → variable_of k' ≡ none
      → same_outer_shape k k' ≡ true
      → ((i l' r' : ℕ) → get_elem? (paired_children k k') i ≡ some (l', r') → Same lenient c l' r')
      → Same lenient c l r

-- An arena that has the kinds and the bindings of another one, and perhaps more bindings.
pub record Extends (c : TypeContext) (after : TypeContext) : Type 0 where
  pub kinds : after.kinds ≡ c.kinds
  pub interned : after.interned ≡ c.interned
  pub kept :
      (v b : ℕ)
      → get_elem? c.inference_bindings v ≡ some (some b)
      → get_elem? after.inference_bindings v ≡ some (some b)

pub Extends-refl : (c : TypeContext) → Extends c c
Extends-refl c = record { kinds = refl; interned = refl; kept = λ v b h. h }

pub Extends-trans : (a b c : TypeContext) → Extends a b → Extends b c → Extends a c
Extends-trans a b c e f = record {
  kinds = f.kinds ∙ e.kinds;
  interned = f.interned ∙ e.interned;
  kept = λ v x h. f.kept v x (e.kept v x h);
}

pub Extends-kind :
    (c after : TypeContext) → Extends c after → (x : TypeId) → kind after x ≡ kind c x
unfolding kind
Extends-kind c after e x = ap (λ ks. get_elem? ks x) e.kinds

module _ (lenient : Bool) (c after : TypeContext) (e : Extends c after) where
  pub Extends-Leads : {x y : TypeId} → Leads c x y → Leads after x y
  Extends-Leads stay = stay
  Extends-Leads (follow {x = x} at b l) =
      follow (Extends-kind c after e x ∙ at) (e.kept _ _ b) (Extends-Leads l)

  -- Types that are the same stay so when bindings are added.
  pub Extends-Same : {l r : TypeId} → Same lenient c l r → Same lenient after l r
  Extends-Same (met a b) = met (Extends-Leads a) (Extends-Leads b)
  Extends-Same (error_left o a) = error_left o (Extends-Leads a)
  Extends-Same (error_right o a) = error_right o (Extends-Leads a)
  Extends-Same (alias_left {x = x} a at t s) =
      alias_left (Extends-Leads a) (Extends-kind c after e x ∙ at) t (Extends-Same s)
  Extends-Same (alias_right {y = y} a at t s) =
      alias_right (Extends-Leads a) (Extends-kind c after e y ∙ at) t (Extends-Same s)
  Extends-Same (alike {x = x} {y = y} a at b bt v v' shape all) =
      alike (Extends-Leads a) (Extends-kind c after e x ∙ at) (Extends-Leads b)
        (Extends-kind c after e y ∙ bt) v v' shape (λ i l' r' h. Extends-Same (all i l' r' h))

-- The types on one way are in a line.
Leads-in_line :
    (c : TypeContext) {x y z : TypeId} → Leads c x y → Leads c x z → Leads c y z ⊎ Leads c z y
Leads-in_line c stay m = inl m
Leads-in_line c (follow e b l) stay = inr (follow e b l)
Leads-in_line c {z = z} (follow {y = y} e b l) (follow {y = y'} e' b' l') =
    let same : y ≡ y' = cc in Leads-in_line c l (subst (λ w. Leads c w z) (sym same) l')

-- A type of a kind that is no variable is an end.
pub no_step :
    (c : TypeContext) {x y : TypeId} (k : TypeKind)
    → kind c x ≡ some k
    → variable_of k ≡ none
    → Leads c x y
    → x ≡ y
no_step c k e n stay = refl
no_step c k e n (follow {v = v} e' b l) = let same : k ≡ inference_variable v = cc in cc

pub alias_is_no_variable :
    (k : TypeKind) (target : TypeId) → alias_target k ≡ some target → variable_of k ≡ none
alias_is_no_variable (alias _ _ _) target h = refl
alias_is_no_variable _ target h = cc

module _ (lenient : Bool) (c : TypeContext) where
  -- What lies ahead on the way to a type that is no variable leads to it too.
  ahead :
      {l x z : TypeId} (k : TypeKind)
      → Leads c l x
      → Leads c l z
      → kind c z ≡ some k
      → variable_of k ≡ none
      → Leads c x z
  ahead {z = z} k m n e v = elim (Leads-in_line c m n) [
    | inl f ↦ f
    | inr f ↦ subst (λ w. Leads c w z) (no_step c k e v f) stay
  ]

  pub lengthen_left : {l x r : TypeId} → Leads c l x → Same lenient c x r → Same lenient c l r
  lengthen_left m (met a b) = met (Leads-trans c m a) b
  lengthen_left m (error_left o a) = error_left o (Leads-trans c m a)
  lengthen_left m (error_right o a) = error_right o a
  lengthen_left m (alias_left a at t s) = alias_left (Leads-trans c m a) at t s
  lengthen_left m (alias_right a at t s) = alias_right a at t (lengthen_left m s)
  lengthen_left m (alike a at b bt v v' shape all) =
      alike (Leads-trans c m a) at b bt v v' shape all

  pub lengthen_right : {l y r : TypeId} → Leads c r y → Same lenient c l y → Same lenient c l r
  lengthen_right m (met a b) = met a (Leads-trans c m b)
  lengthen_right m (error_left o a) = error_left o a
  lengthen_right m (error_right o a) = error_right o (Leads-trans c m a)
  lengthen_right m (alias_left a at t s) = alias_left a at t (lengthen_right m s)
  lengthen_right m (alias_right a at t s) = alias_right (Leads-trans c m a) at t s
  lengthen_right m (alike a at b bt v v' shape all) =
      alike a at (Leads-trans c m b) bt v v' shape all

module _ (lenient : Bool) (c : TypeContext) (error : kind c error_id ≡ some error_type) where
  pub shorten_left : {l x r : TypeId} → Leads c l x → Same lenient c l r → Same lenient c x r
  shorten_left m (met a b) = elim (Leads-in_line c m a) [
    | inl f ↦ met f b
    | inr f ↦ met stay (Leads-trans c b f)
  ]
  shorten_left m (error_left o a) = error_left o (ahead lenient c error_type m a error refl)
  shorten_left m (error_right o a) = error_right o a
  shorten_left m (alias_left {target = target} {k = k} a at t s) =
      alias_left (ahead lenient c k m a at (alias_is_no_variable k target t)) at t s
  shorten_left m (alias_right a at t s) = alias_right a at t (shorten_left m s)
  shorten_left m (alike {k = k} a at b bt v v' shape all) =
      alike (ahead lenient c k m a at v) at b bt v v' shape all

  pub shorten_right : {l y r : TypeId} → Leads c r y → Same lenient c l r → Same lenient c l y
  shorten_right m (met a b) = elim (Leads-in_line c m b) [
    | inl f ↦ met a f
    | inr f ↦ met (Leads-trans c a f) stay
  ]
  shorten_right m (error_left o a) = error_left o a
  shorten_right m (error_right o a) = error_right o (ahead lenient c error_type m a error refl)
  shorten_right m (alias_left a at t s) = alias_left a at t (shorten_right m s)
  shorten_right m (alias_right {target = target} {k = k} a at t s) =
      alias_right (ahead lenient c k m a at (alias_is_no_variable k target t)) at t s
  shorten_right m (alike {k' = k'} a at b bt v v' shape all) =
      alike a at (ahead lenient c k' m b bt v') bt v v' shape all
