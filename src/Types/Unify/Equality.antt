-- ===== src/Types/Unify/Equality.antt =====
-- Structural equality decides sameness without the error type.
use elamite.Base.{
  ℕ, zero, suc, ◌+◌, ◌<◌, ◌≤◌, ◌≡◌, ◌↔◌, refl, Bool, true, false, ◌⊎◌, inl, inr, [], ◌∷◌, Option,
  none, some, arith, get_elem?, length, subst, Bool-cases, ==_refl, ==→eq, ◌==◌, ◌&&◌,
  if◌then◌else◌, All-contains,
}
use elamite.Types.Defs.{TypeContext, TypeKind, TypeId, kind, type_children}
use elamite.Types.Compare.{alias_target, paired_children, same_outer_shape}
use elamite.Types.Equal.{
  Pairs, Equal, contains_pair, equal_pairs, equal_aliases, equal_kinds, equal_resolved, equal_inner,
  exactly_equal,
}
use elamite.Types.Resolve.{kind-some}
use elamite.Types.Canonical.{IsCanonical}
use elamite.Types.Ranked.{Leads, stay, IsEnd, rank-Leads, resolve_inference_lem, child}
use elamite.Types.Unify.Same.{
  Same, met, alias_left, alias_right, alike, lengthen_left, lengthen_right, shorten_left,
  shorten_right,
}
use elamite.Types.Unify.Inverse.{target-left, target-right, Same-alike}
use elamite.Types.Unify.Outcome.{IsReady}
use elamite.Types.Unify.Step.{target-contains, zip-contains}
use elamite.Types.Unify.Decides.{Adds, Decides, Decides-map, variable_shape}

module _ (c : TypeContext) (w : IsReady c) where
  abbrev weight : TypeId → TypeId → ℕ
  weight l r = w.ranked.rank l + w.ranked.rank r

  -- A pair that was seen is the same, or its comparison is not done.
  abbrev Fair : ℕ → Pairs → Type 0
  Fair s seen = (l r : TypeId) → contains_pair l r seen ≡ true → Same false c l r ⊎ (s ≤ weight l r)

  abbrev Calls : ℕ → (TypeId → TypeId → Pairs → Equal) → Type 0
  Calls s rec =
      (l r : TypeId) (seen : Pairs)
      → l < length c.kinds
      → r < length c.kinds
      → weight l r < s
      → Fair s seen
      → Decides c seen (Same false c l r) (rec l r seen)

  abbrev AllEqual : Pairs → Type 0
  AllEqual ps = (i l r : ℕ) → get_elem? ps i ≡ some (l, r) → Same false c l r

  AllEqual-cons :
      (l r : TypeId) (rest : Pairs) → Same false c l r → AllEqual rest → AllEqual ((l, r) ∷ rest)
  AllEqual-cons l r rest s all zero l' r' h =
      let e : l ≡ l' = cc in let e' : r ≡ r' = cc in rw (← e, ← e') s
  AllEqual-cons l r rest s all (suc i) l' r' h = all i l' r' h

  Fair-Adds : (s : ℕ) (seen after : Pairs) → Fair s seen → Adds c seen after → Fair s after
  Fair-Adds s seen after f a l r h = elim (a l r h) [ inl old ↦ f l r old | inr same ↦ inl same ]

  Adds-trans : (a b d : Pairs) → Adds c a b → Adds c b d → Adds c a d
  Adds-trans a b d f g l r h = elim (g l r h) [ inl old ↦ f l r old | inr same ↦ inr same ]

  equal_pairs-Decides :
      (s : ℕ) (rec : TypeId → TypeId → Pairs → Equal)
      → Calls s rec
      → (ps seen : Pairs)
      → ((i l r : ℕ)
          → get_elem? ps i ≡ some (l, r)
          → (l < length c.kinds) × (r < length c.kinds) × (weight l r < s))
      → Fair s seen
      → Decides c seen (AllEqual ps) (equal_pairs rec ps seen)
  unfolding equal_pairs
  equal_pairs-Decides s rec call [] seen low f = ((λ i l r h. cc), λ l r h. inl h)
  equal_pairs-Decides s rec call ((l, r) ∷ rest) seen low f =
      let (ll, lr, less) = low 0 l r refl in
      after_pair (λ after g. equal_pairs-Decides s rec call rest after (λ i. low (suc i)) g)
        (rec l r seen) (call l r seen ll lr less f)
    where
      after_rest :
          (after : Pairs)
          → Same false c l r
          → Adds c seen after
          → (o : Equal) → Decides c after (AllEqual rest) o
          → Decides c seen (AllEqual ((l, r) ∷ rest)) o
      after_rest after same a none d = d
      after_rest after same a (some (true, last)) (all, b) =
          (AllEqual-cons l r rest same all, Adds-trans seen after last a b)
      after_rest after same a (some (false, last)) n = λ all. n (λ i. all (suc i))

      after_pair :
          ((after : Pairs)
            → Fair s after
            → Decides c after (AllEqual rest) (equal_pairs rec rest after))
          → (o : Equal) → Decides c seen (Same false c l r) o
          → Decides c seen (AllEqual ((l, r) ∷ rest)) (elim o [
            | none ↦ none
            | some (answer, after) ↦ elim answer [
              | true ↦ equal_pairs rec rest after
              | false ↦ some (false, after)
            ]
          ])
      after_pair again none d = d
      after_pair again (some (true, after)) (same, a) =
          after_rest after same a (equal_pairs rec rest after)
            (again after (Fair-Adds s seen after f a))
      after_pair again (some (false, after)) n = λ all. n (all 0 l r refl)

  Fair-cons :
      (s : ℕ) (x y : TypeId) (seen : Pairs)
      → weight x y < s
      → Fair s seen
      → Fair (weight x y) ((x, y) ∷ seen)
  unfolding contains_pair
  Fair-cons s x y seen less f l r h = elim (Bool-cases (x == l && y == r)) [
    | inl e ↦
        let here : x ≡ l = ==→eq x l (ground arith) in
        let there : y ≡ r = ==→eq y r (ground arith) in inr (rw (here, there) (omega arith))
    | inr e ↦ elim (f l r (ground arith)) [ inl same ↦ inl same | inr le ↦ inr (omega arith) ]
  ]

  Adds-cons :
      (x y : TypeId) (seen after : Pairs)
      → Same false c x y
      → Adds c ((x, y) ∷ seen) after
      → Adds c seen after
  unfolding contains_pair
  Adds-cons x y seen after same a l r h = elim (a l r h) [
    | inr s ↦ inr s
    | inl old ↦ elim (Bool-cases (x == l && y == r)) [
      | inl e ↦
          let here : x ≡ l = ==→eq x l (ground arith) in
          let there : y ≡ r = ==→eq y r (ground arith) in inr (rw (← here, ← there) same)
      | inr e ↦ inl (ground arith)
    ]
  ]

  settle :
      (x y : TypeId) (seen : Pairs) (Q : Type 0)
      → (Q → Same false c x y)
      → (Same false c x y → Q)
      → (o : Equal) → Decides c ((x, y) ∷ seen) Q o
      → Decides c seen (Same false c x y) o
  settle x y seen Q f g none d = d
  settle x y seen Q f g (some (true, after)) (q, a) = (f q, Adds-cons x y seen after (f q) a)
  settle x y seen Q f g (some (false, after)) n = λ s. n (g s)

  module _ (canonical : IsCanonical c) (rec : TypeId → TypeId → Pairs → Equal) (x y : TypeId)
      (seen : Pairs) (calls : Calls (weight x y) rec) (f : Fair (weight x y) ((x, y) ∷ seen))
      (lx : x < length c.kinds) (ly : y < length c.kinds) (dx : IsEnd c x) (dy : IsEnd c y)
      (apart : x ≡ y → ⊥) (k k' : TypeKind) (at : kind c x ≡ some k) (bt : kind c y ≡ some k') where
    same_kind-apart : k ≡ k' → ⊥
    same_kind-apart e =
        let here = canonical.complete x k at in let there = canonical.complete y k' bt in apart cc

    pairs-lower :
        (i l r : ℕ)
        → get_elem? (paired_children k k') i ≡ some (l, r)
        → (l < length c.kinds) × (r < length c.kinds) × (weight l r < weight x y)
    unfolding paired_children
    pairs-lower i l r h =
        let (a, b) = zip-contains (type_children k) (type_children k') i l r h in
        (
          All-contains (λ z. z < length c.kinds) (type_children k) l (w.well_formed.children x k at)
              a,
          All-contains (λ z. z < length c.kinds) (type_children k') r
              (w.well_formed.children y k' bt) b,
          omega (arith, w.ranked.lower (child at a), w.ranked.lower (child bt b)),
        )

    shapes-Decides :
        alias_target k ≡ none
        → alias_target k' ≡ none
        → Decides c seen (Same false c x y) (
            if same_outer_shape k k'
            then equal_pairs rec (paired_children k k') ((x, y) ∷ seen)
            else some (false, (x, y) ∷ seen))
    shapes-Decides n n' =
        let inverse = Same-alike false c w.error k k' dx at n dy bt n' apart (λ o. cc) (λ o. cc) in
        elim (Bool-cases (same_outer_shape k k')) [
          | inl shape ↦ elim (variable_shape k k' shape) [
            | inl e ↦ absurd (same_kind-apart e)
            | inr (v, v') ↦ rw shape (
                settle x y seen (AllEqual (paired_children k k')) (alike stay at stay bt v v' shape)
                  (λ s. (inverse s).3) _
                  (equal_pairs-Decides (weight x y) rec calls (paired_children k k') ((x, y) ∷ seen)
                    pairs-lower f))
          ]
          | inr shape ↦ rw shape (λ s. let other = (inverse s).2 in cc)
        ]

    aliases-Decides :
        (o o' : Option TypeId)
        → alias_target k ≡ o
        → alias_target k' ≡ o'
        → Decides c seen (Same false c x y) (equal_aliases rec x y k k' o o' ((x, y) ∷ seen))
    unfolding equal_aliases
    aliases-Decides (some target) o' h h' =
        let below = target-contains k target h in
        settle x y seen (Same false c target y) (alias_left stay at h)
          (target-left false c w.error k at h) _
          (calls target y ((x, y) ∷ seen)
            (All-contains (λ z. z < length c.kinds) (type_children k) target
              (w.well_formed.children x k at) below)
            ly (omega (arith, w.ranked.lower (child at below))) f)
    aliases-Decides none (some target) h h' =
        let below = target-contains k' target h' in
        settle x y seen (Same false c x target) (alias_right stay bt h')
          (target-right false c w.error k' bt h') _
          (calls x target ((x, y) ∷ seen) lx
            (All-contains (λ z. z < length c.kinds) (type_children k') target
              (w.well_formed.children y k' bt) below)
            (omega (arith, w.ranked.lower (child bt below))) f)
    aliases-Decides none none h h' = shapes-Decides h h'

  Fair-mono : (s s' : ℕ) (seen : Pairs) → s' ≤ s → Fair s seen → Fair s' seen
  Fair-mono s s' seen le f l r h = elim (f l r h) [
    | inl same ↦ inl same
    | inr above ↦ inr (omega arith)
  ]

  -- A call that answers at types whose weight is below its fuel.
  abbrev Answers : ℕ → (TypeId → TypeId → Pairs → Equal) → Type 0
  Answers n rec =
      (l r : TypeId) (seen : Pairs)
      → l < length c.kinds
      → r < length c.kinds
      → weight l r < n
      → Fair (suc (weight l r)) seen
      → Decides c seen (Same false c l r) (rec l r seen)

  -- One call at two ends.
  ends-Decides :
      (canonical : IsCanonical c) (n : ℕ) (rec : TypeId → TypeId → Pairs → Equal)
      → Answers n rec
      → (x y : TypeId) (seen : Pairs) → x < length c.kinds
      → y < length c.kinds
      → IsEnd c x
      → IsEnd c y
      → weight x y ≤ n
      → Fair (suc (weight x y)) seen
      → Decides c seen (Same false c x y) (equal_resolved c rec (some x) (some y) seen)
  unfolding equal_resolved equal_kinds
  ends-Decides canonical n rec answers x y seen lx ly dx dy le f = elim (Bool-cases (x == y)) [
    | inl e ↦ rw e (met (subst (Leads c x) (==→eq x y e) stay) stay, λ l r h. inl h)
    | inr e ↦ elim (Bool-cases (contains_pair x y seen)) [
      | inl old ↦
          rw (e, old)
            (elim (f x y old) [
              | inl same ↦ (same, λ l r h. inl h)
              | inr above ↦ absurd (omega arith)
            ])
      | inr new ↦
          let (k, at) = kind-some c w.well_formed x lx in
          let (k', bt) = kind-some c w.well_formed y ly in
          rw (e, new, at, bt)
            (aliases-Decides canonical rec x y seen
              (λ l r seen' ll lr less g.
                answers l r seen' ll lr (omega arith)
                  (Fair-mono (weight x y) (suc (weight l r)) seen' less g))
              (Fair-cons (suc (weight x y)) x y seen (omega arith) f) lx ly dx dy
              (λ same. let yes_same : x == y ≡ true = rw same (==_refl y) in cc) k k' at bt
              (alias_target k) (alias_target k') refl refl)
    ]
  ]

  resolved-Decides :
      (seen : Pairs) (l r x y : TypeId)
      → Leads c l x
      → Leads c r y
      → (o : Equal) → Decides c seen (Same false c x y) o
      → Decides c seen (Same false c l r) o
  resolved-Decides seen l r x y m m' =
      Decides-map c seen (Same false c x y) (Same false c l r)
        (λ s. lengthen_left false c m (lengthen_right false c m' s))
        (λ s. shorten_left false c w.error m (shorten_right false c w.error m' s))

  equal_inner-Answers : IsCanonical c → (n : ℕ) → Answers n (equal_inner c n)
  unfolding equal_inner
  equal_inner-Answers canonical zero l r seen ll lr less f = absurd (omega arith)
  equal_inner-Answers canonical (suc n) l r seen ll lr less f =
      let (x, e, lx, m, dx) = resolve_inference_lem c w.ranked w.well_formed l ll in
      let (y, e', ly, m', dy) = resolve_inference_lem c w.ranked w.well_formed r lr in
      let rl = rank-Leads c w.ranked w.well_formed m in
      let rr = rank-Leads c w.ranked w.well_formed m' in
      rw (e, e', equal_inner)
        (resolved-Decides seen l r x y m m' _ (
          ends-Decides canonical n (equal_inner c n) (equal_inner-Answers canonical n) x y seen lx
            ly dx dy (omega arith)
            (Fair-mono (suc (weight l r)) (suc (weight x y)) seen (omega arith) f)))

  -- In a canonical and well-formed arena without a cycle, structural equality of two of its types
  -- answers once its fuel exceeds the sum of their ranks, and answers true exactly if the two types
  -- are the same up to bindings and aliases.
  pub exactly_equal_lem :
      IsCanonical c
      → (left right : TypeId) → left < length c.kinds
      → right < length c.kinds
      → (fuel : ℕ) → w.ranked.rank left + w.ranked.rank right < fuel
      → (answer : Bool) × (exactly_equal c fuel left right ≡ some answer)
        × (answer ≡ true ↔ Same false c left right)
  unfolding exactly_equal contains_pair
  exactly_equal_lem canonical left right ll lr fuel less =
      verdict (equal_inner c fuel left right []) (
        equal_inner-Answers canonical fuel left right [] ll lr less
          (λ l r h. absurd (not_there l r h)))
    where
      not_there : (l r : TypeId) → contains_pair l r [] ≡ true → ⊥
      not_there l r h = cc

      verdict :
          (o : Equal)
          → Decides c [] (Same false c left right) o
          → (answer : Bool) × (elim o [ none ↦ none | some (answer, _) ↦ some answer ]
              ≡ some answer)
            × (answer ≡ true ↔ Same false c left right)
      verdict none d = absurd d
      verdict (some (true, seen)) (s, _) = (true, refl, ((λ _. s), λ _. refl))
      verdict (some (false, seen)) n = (false, refl, ((λ h. cc), λ s. absurd (n s)))
