-- ===== src/Types/Unify/Total.antt =====
-- Unification answers, and tells whether the two types are the same afterwards.
use elamite.Base.{
  ℕ, zero, suc, ◌+◌, ◌<◌, ◌≤◌, ◌≡◌, refl, sym, Bool, true, false, ◌||◌, ◌⊎◌, inl, inr, some, arith,
  length, subst, Bool-cases, ==_refl, ==→eq, ◌==◌, if◌then◌else◌,
}
use elamite.Types.Defs.{TypeContext, TypeId, error_id, resolve_inference}
use elamite.Types.Compare.{unified, unify, alias_target, unify_different, unify_resolved}
use elamite.Types.Resolve.{kind-some}
use elamite.Types.Ranked.{Leads, stay, IsEnd, rank-Leads, resolve_inference_lem}
use elamite.Types.Unify.Bound.{unbound}
use elamite.Types.Unify.Same.{
  Same, met, error_left, error_right, Extends, Extends-Leads, lengthen_left, lengthen_right,
  shorten_left, shorten_right,
}
use elamite.Types.Unify.Outcome.{IsReady, Progress, Outcome, Outcome-map, Solves, at_once, one_more}
use elamite.Types.Unify.Step.{Calls, kinds-Outcome}

-- The test for types that need no comparison.
abbrev trivial : TypeId → TypeId → Bool
trivial x y = x == y || (x == error_id || y == error_id)

or_true : (a b c : Bool) → a || (b || c) ≡ true → (a ≡ true) ⊎ ((b ≡ true) ⊎ (c ≡ true))
or_true true b c h = inl refl
or_true false true c h = inr (inl refl)
or_true false false c h = inr (inr h)

or_false : (a b c : Bool) → a || (b || c) ≡ false → (a ≡ false) × (b ≡ false) × (c ≡ false)
or_false a b c h = (ground arith, ground arith, ground arith)

trivial-Same : (c : TypeContext) (x y : TypeId) → trivial x y ≡ true → Same true c x y
trivial-Same c x y h = elim (or_true (x == y) (x == error_id) (y == error_id) h) [
  | inl e ↦ met stay (subst (Leads c y) (sym (==→eq x y e)) stay)
  | inr (inl e) ↦ error_left refl (subst (Leads c x) (==→eq x error_id e) stay)
  | inr (inr e) ↦ error_right refl (subst (Leads c y) (==→eq y error_id e) stay)
]

differs : (x y : TypeId) → x == y ≡ false → x ≡ y → ⊥
differs x y h e = let same : x == y ≡ true = rw e (==_refl y) in cc

trivial-apart :
    (x y : TypeId) → trivial x y ≡ false → (x ≡ y → ⊥) × (x ≡ error_id → ⊥) × (y ≡ error_id → ⊥)
trivial-apart x y h =
    let (a, b, d) = or_false (x == y) (x == error_id) (y == error_id) h in
    (differs x y a, differs x error_id b, differs y error_id d)

module _ (c : TypeContext) (w : IsReady c) (x y : TypeId) (calls : Calls c w x y) (dx : IsEnd c x)
    (dy : IsEnd c y) (lx : x < length c.kinds) (ly : y < length c.kinds) where
  ends-Outcome :
      Outcome c (λ m. unify_resolved (unify m) (some x) (some y) c) (λ after. Same true after x y)
  unfolding unify_resolved unify_different
  ends-Outcome = elim (Bool-cases (trivial x y)) [
    | inl h ↦ rw h (
        at_once c _ _ (unified (if x == error_id then y else x)) w (λ m. refl)
          (trivial-Same c x y h))
    | inr h ↦
        let (apart, nx, ny) = trivial-apart x y h in
        let (k, at) = kind-some c w.well_formed x lx in
        let (k', bt) = kind-some c w.well_formed y ly in
        rw (h, at, bt)
          (kinds-Outcome c w x y
            (record {
              left_end = dx;
              right_end = dy;
              left_in = lx;
              right_in = ly;
              apart = apart;
              left_no_error = nx;
              right_no_error = ny;
            })
            calls k k' at bt (alias_target k) (alias_target k') refl refl)
  ]

-- What is solved while at most `n` variables are free and the ranks of the two types are below `s`.
abbrev Solved : ℕ → ℕ → Type 0
Solved n s =
    (c : TypeContext) (w : IsReady c) (l r : TypeId)
    → l < length c.kinds
    → r < length c.kinds
    → unbound c.inference_bindings ≤ n
    → w.ranked.rank l + w.ranked.rank r < s
    → Solves c l r

-- One call more, at types that resolve to `x` and `y`.
call-Solves :
    (c : TypeContext) (w : IsReady c) (l r x y : TypeId)
    → resolve_inference c l ≡ some x
    → resolve_inference c r ≡ some y
    → Leads c l x
    → Leads c r y
    → Outcome c (λ m. unify_resolved (unify m) (some x) (some y) c) (λ after. Same true after x y)
    → Solves c l r
unfolding unify
call-Solves c w l r x y e e' m m' o =
    one_more c (λ m. unify_resolved (unify m) (some x) (some y) c) _ (λ m. rw (e, e', unify) refl)
      (Outcome-map c _ (λ after. Same true after x y) (λ after. Same true after l r)
        (λ after ext ready s.
          lengthen_left true after (Extends-Leads true c after ext m)
            (lengthen_right true after (Extends-Leads true c after ext m') s))
        (λ after ext ready s.
          shorten_left true after ready.error (Extends-Leads true c after ext m)
            (shorten_right true after ready.error (Extends-Leads true c after ext m') s))
        o)

-- Solving with fewer free variables.
abbrev SolvedBelow : ℕ → Type 0
SolvedBelow n = (m : ℕ) → m < n → (s : ℕ) → Solved m s

calls-Solves :
    (n s : ℕ)
    → Solved n s
    → SolvedBelow n
    → (c : TypeContext) (w : IsReady c) (l r : TypeId) (now : TypeContext) → IsReady now
    → Extends c now
    → Progress c now
    → l < length c.kinds
    → r < length c.kinds
    → unbound c.inference_bindings ≤ n
    → w.ranked.rank l + w.ranked.rank r < s
    → Solves now l r
calls-Solves n s inner outer c w l r now ready e (inl same) ll lr free less =
    subst (λ z. Solves z l r) (sym same) (inner c w l r ll lr free less)
calls-Solves n s inner outer c w l r now ready e (inr fewer) ll lr free less =
    outer (unbound now.inference_bindings) (omega arith)
      (suc (ready.ranked.rank l + ready.ranked.rank r)) now ready l r (rw e.kinds ll)
      (rw e.kinds lr) (omega arith) (omega arith)

next-Solved : (n s : ℕ) → Solved n s → SolvedBelow n → Solved n (suc s)
next-Solved n s inner outer c w l r ll lr free less =
    let (x, e, lx, m, dx) = resolve_inference_lem c w.ranked w.well_formed l ll in
    let (y, e', ly, m', dy) = resolve_inference_lem c w.ranked w.well_formed r lr in
    let rl = rank-Leads c w.ranked w.well_formed m in
    let rr = rank-Leads c w.ranked w.well_formed m' in
    call-Solves c w l r x y e e' m m' (
      ends-Outcome c w x y
        (λ now ready ext p l' r' ll' lr' lower.
          calls-Solves n s inner outer c w l' r' now ready ext p ll' lr' free (omega arith))
        dx dy lx ly)

by_rank : (n : ℕ) → SolvedBelow n → (s : ℕ) → Solved n s
by_rank n outer zero = λ c w l r ll lr free less. absurd (omega arith)
by_rank n outer (suc s) = next-Solved n s (by_rank n outer s) outer

by_free : (n : ℕ) → SolvedBelow n
by_free zero m lt s = absurd (omega arith)
by_free (suc n) m lt s = by_rank m (λ j less. by_free n j (omega arith)) s

-- In a well-formed arena without a cycle, where type 0 is the error type, unifying two of its types
-- answers when it has enough fuel. It only adds bindings, which leave the arena well-formed and
-- without a cycle, and it succeeds exactly if the two types are then the same up to bindings,
-- aliases and the error type.
pub unify_lem :
    (c : TypeContext)
    → IsReady c
    → (left right : TypeId) → left < length c.kinds
    → right < length c.kinds
    → Solves c left right
unify_lem c w left right ll lr =
    by_free (suc (unbound c.inference_bindings)) (unbound c.inference_bindings) (omega arith)
      (suc (w.ranked.rank left + w.ranked.rank right)) c w left right ll lr (omega arith)
      (omega arith)
