-- ===== src/Coverage/Exhaustive.antt =====
-- Exhaustive coverages, and the conclusions of the statement check.
use elamite.Base.{
  ℕ, ◌≡◌, refl, ◌≢◌, ◌⊎◌, inl, inr, true, false, not, ◌||◌, List, [], ◌∷◌, ◌++◌, some, arith, All,
  get_elem?, length, contains, Bool-cases, ==_refl, ◌==◌, subst,
}
use elamite.Types.{TypeId}
use elamite.Coverage.{
  Coverage, nothing, catchall, variants, bools, dereferenced, unknown, count, is_catchall,
  is_covered_by, Variant, Tables, holds_all_variants, coverage_is_exhaustive, Arm, Verdict, fine,
  verdict, add_arm, check_arms, check_match_statement, View, bool_view, variant_view,
  reference_view, Claims, Form, bool_form, enum_form, reference_form, DeclaredIn, here, there,
  HasForm, Fits, TypeForm,
}
use elamite.Coverage.Sound.{
  union-Claims, union-Fits, is_covered_by-Claims, is_catchall-Claims, and_right,
}

holds_all_variants-DeclaredIn :
    (d x : ℕ) (table : List Variant) (vs : List ℕ)
    → holds_all_variants table d vs ≡ true
    → DeclaredIn d x table
    → contains x vs ≡ true
unfolding holds_all_variants
holds_all_variants-DeclaredIn d x [] vs h m = elim m [ ]
holds_all_variants-DeclaredIn d x (v ∷ table) vs h (here e p) =
    let same : v.parent == d ≡ true = subst (λ k. v.parent == k ≡ true) p (==_refl v.parent) in
    subst (λ k. contains k vs ≡ true) e (ground arith)
holds_all_variants-DeclaredIn d x (v ∷ table) vs h (there m) =
    holds_all_variants-DeclaredIn d x table vs
      (and_right (not (v.parent == d) || contains v.id vs) _ h) m

-- For a type of the form that the coverage fits, an exhaustive coverage claims every value.
pub coverage_is_exhaustive-Claims :
    (t : Tables) (ty : TypeId) (form : Form) (c : Coverage) (v : View)
    → TypeForm t ty form
    → Fits form c
    → HasForm t form v
    → coverage_is_exhaustive t ty c ≡ true
    → Claims c v
unfolding coverage_is_exhaustive
coverage_is_exhaustive-Claims t ty form catchall v w f h e = tt
coverage_is_exhaustive-Claims t ty (enum_form d) (variants vs) (variant_view x) (i, args, k, p) f h
      e =
    holds_all_variants-DeclaredIn d x t.variants_table vs
      (subst (λ d. holds_all_variants t.variants_table d vs ≡ true) p
        (rw (k, coverage_is_exhaustive) at e))
      h
coverage_is_exhaustive-Claims t ty bool_form (bools s) (bool_view true) w f h e =
    unfold count in (ground arith)
coverage_is_exhaustive-Claims t ty bool_form (bools s) (bool_view false) w f h e =
    unfold count in (ground arith)
coverage_is_exhaustive-Claims t ty (reference_form form) (dereferenced c) (reference_view v)
      (target, r, w) f h e =
    coverage_is_exhaustive-Claims t target form c v w f h (rw (r, coverage_is_exhaustive) at e)
coverage_is_exhaustive-Claims t ty form nothing v w f h e = cc
coverage_is_exhaustive-Claims t ty form unknown v w f h e = cc
coverage_is_exhaustive-Claims t ty (enum_form d) (variants vs) _ w f h e = absurd h
coverage_is_exhaustive-Claims t ty bool_form (bools s) _ w f h e = absurd h
coverage_is_exhaustive-Claims t ty (reference_form form) (dereferenced c) _ w f h e = absurd h
coverage_is_exhaustive-Claims t ty form c v w f h e = absurd f

-- An arm without a guard whose pattern claims the value, and whose body returns if the flag says so.
pub data Caught (v : View) : List Arm → Type 0 where
  by_arm :
      {arm : Arm} {arms : List Arm}
      → arm.guarded ≡ false
      → Claims arm.coverage v
      → Caught v (arm ∷ arms)
  later : {arm : Arm} {arms : List Arm} → Caught v arms → Caught v (arm ∷ arms)

abbrev pub FitsAll : Form → List Arm → Type 0
FitsAll form = All (λ arm. Fits form arm.coverage)

add_arm-Claims :
    (c : Coverage) (arm : Arm) (v : View)
    → Claims (add_arm c arm) v
    → Claims c v ⊎ ((arm.guarded ≡ false) × Claims arm.coverage v)
unfolding add_arm
add_arm-Claims c arm v h = elim (Bool-cases arm.guarded) [
  | inl e ↦ inl (rw e at h)
  | inr e ↦ elim (union-Claims c arm.coverage v (rw e at h)) [
    | inl old ↦ inl old
    | inr new ↦ inr (e, new)
  ]
]

-- What the loop's final coverage claims, the start or an unguarded arm claims.
check_arms-Claims :
    (c : Coverage) (arms : List Arm) (v : View)
    → Claims (check_arms c arms).1 v
    → Claims c v ⊎ Caught v arms
unfolding check_arms
check_arms-Claims c [] v h = inl h
check_arms-Claims c (arm ∷ arms) v h = elim (check_arms-Claims (add_arm c arm) arms v h) [
  | inr m ↦ inr (later m)
  | inl m ↦ elim (add_arm-Claims c arm v m) [ inl old ↦ inl old | inr (g, k) ↦ inr (by_arm g k) ]
]

add_arm-Fits :
    (form : Form) (c : Coverage) (arm : Arm)
    → Fits form c
    → Fits form arm.coverage
    → Fits form (add_arm c arm)
unfolding add_arm
add_arm-Fits form c arm f g = elim (Bool-cases arm.guarded) [
  | inl e ↦ rw e f
  | inr e ↦ rw e (union-Fits form c arm.coverage f g)
]

check_arms-Fits :
    (form : Form) (c : Coverage) (arms : List Arm)
    → Fits form c
    → FitsAll form arms
    → Fits form (check_arms c arms).1
unfolding check_arms
check_arms-Fits form c [] f fs = f
check_arms-Fits form c (arm ∷ arms) f fs =
    check_arms-Fits form (add_arm c arm) arms (add_arm-Fits form c arm f fs.0) fs.1

-- If a match is taken to return on every path, its arms fitting the form of the scrutinee's
-- type, then every value of that form is claimed by the pattern of an arm without a guard.
pub returns-Caught :
    (t : Tables) (ty : TypeId) (form : Form) (arms : List Arm) (v : View)
    → TypeForm t ty form
    → FitsAll form arms
    → HasForm t form v
    → (check_match_statement t ty arms).returns ≡ true
    → Caught v arms
unfolding check_match_statement
returns-Caught t ty form arms v w fs h e =
    elim (check_arms-Claims nothing arms v (
      coverage_is_exhaustive-Claims t ty form (check_arms nothing arms).1 v w
        (check_arms-Fits form nothing arms tt fs) h (ground arith))) [
          | inl m ↦ absurd m
          | inr m ↦ m
        ]

-- The verdict on an arm is taken against the coverage of the arms before it.
verdict_at :
    (c : Coverage) (before : List Arm) (arm : Arm) (after : List Arm)
    → get_elem? (check_arms c (before ++ arm ∷ after)).0 (length before)
      ≡ some (verdict (check_arms c before).1 arm)
unfolding check_arms
verdict_at c [] arm after = refl
verdict_at c (b ∷ before) arm after = verdict_at (add_arm c b) before arm after

not_fine-Claims :
    (t : Tables) (form : Form) (c : Coverage) (arm : Arm) (v : View)
    → Fits form c
    → Fits form arm.coverage
    → HasForm t form v
    → verdict c arm ≢ fine
    → Claims arm.coverage v
    → Claims c v
unfolding verdict
not_fine-Claims t form c arm v f g h r k = elim (Bool-cases (is_catchall c)) [
  | inl e ↦ is_catchall-Claims t form c v f h e
  | inr e ↦ elim (Bool-cases (is_covered_by arm.coverage c)) [
    | inl d ↦ is_covered_by-Claims t form arm.coverage c v g f h d k
    | inr d ↦ absurd (r (rw (e, d)))
  ]
]

-- If the check of a match reports the arm after `before`, as unreachable or as redundant, then
-- every value of the scrutinee's form that the arm's pattern claims is claimed by an unguarded
-- arm of `before`.
pub reported-Caught :
    (t : Tables) (ty : TypeId) (form : Form) (before : List Arm) (arm : Arm) (after : List Arm)
    (report : Verdict) (v : View)
    → FitsAll form before
    → Fits form arm.coverage
    → HasForm t form v
    → get_elem? (check_match_statement t ty (before ++ arm ∷ after)).verdicts (length before)
      ≡ some report
    → report ≢ fine
    → Claims arm.coverage v
    → Caught v before
unfolding check_match_statement
reported-Caught t ty form before arm after report v fs f h at r c =
    elim (check_arms-Claims nothing before v (
      not_fine-Claims t form _ arm v (check_arms-Fits form nothing before tt fs) f h
        (λ e. r (same e)) c)) [ inl m ↦ absurd m | inr m ↦ m ]
  where
    same : verdict (check_arms nothing before).1 arm ≡ fine → report ≡ fine
    same e = cc (verdict_at nothing before arm after)
