-- ===== src/Types/Unify/Outcome.antt =====
-- What a call of `unify` promises, and the loop over the children of two types.
use elamite.Base.{
  true, ℕ, zero, suc, ◌+◌, ◌<◌, ◌≤◌, ◌≡◌, refl, sym, ◌∙◌, ◌⊎◌, inl, inr, List, [], ◌∷◌, Option,
  some, arith, get_elem?, subst,
}
use elamite.Types.Defs.{TypeContext, TypeId, kind, error_type, error_id}
use elamite.Types.Compare.{UnifyResult, unified, mismatch, unify_pairs, unify}
use elamite.Types.Resolve.{IsWellFormed}
use elamite.Types.Ranked.{IsRanked}
use elamite.Types.Unify.Bound.{unbound}
use elamite.Types.Unify.Same.{Same, Extends, Extends-refl, Extends-trans, Extends-Same}

-- An arena in which `unify` works: well-formed, without a cycle, and with the error type first.
pub record IsReady (c : TypeContext) : Type 0 where
  pub well_formed : IsWellFormed c
  pub ranked : IsRanked c
  pub error : kind c error_id ≡ some error_type

-- Nothing changed, or fewer variables are free.
abbrev pub Progress : TypeContext → TypeContext → Type 0
Progress c after = (after ≡ c) ⊎ (unbound after.inference_bindings < unbound c.inference_bindings)

pub Progress-trans : (a b c : TypeContext) → Progress a b → Progress b c → Progress a c
Progress-trans a b c (inl e) (inl f) = inl (f ∙ e)
Progress-trans a b c (inl e) (inr f) =
    inr (subst (λ z. unbound c.inference_bindings < unbound z.inference_bindings) e f)
Progress-trans a b c (inr e) (inl f) =
    inr (subst (λ z. unbound z.inference_bindings < unbound a.inference_bindings) (sym f) e)
Progress-trans a b c (inr e) (inr f) = inr (omega arith)

-- The answer tells whether `P` holds.
abbrev pub Tells : Type 0 → UnifyResult → Type 0
Tells P (unified _) = P
Tells P (mismatch _ _) = P → ⊥

pub Tells-map :
    {P Q : Type 0} → (P → Q) → (Q → P) → (result : UnifyResult) → Tells P result → Tells Q result
Tells-map f g (unified t) p = f p
Tells-map f g (mismatch a b) n = λ q. n (g q)

-- With enough fuel the run answers; it only adds bindings, the arena stays ready, and the answer
-- tells whether `P` holds of the arena after it.
pub record Outcome (c : TypeContext) (run : ℕ → Option (UnifyResult × TypeContext))
    (P : TypeContext → Type 0) : Type 0 where
  pub result : UnifyResult
  pub after : TypeContext
  pub enough : ℕ
  pub answers : (fuel : ℕ) → enough ≤ fuel → run fuel ≡ some (result, after)
  pub ready : IsReady after
  pub extends : Extends c after
  pub progress : Progress c after
  pub tells : Tells (P after) result

abbrev pub Solves : TypeContext → TypeId → TypeId → Type 0
Solves c l r = Outcome c (λ fuel. unify fuel l r c) (λ after. Same true after l r)

module _ (c : TypeContext) (run run' : ℕ → Option (UnifyResult × TypeContext)) where
  -- A run of one unit more.
  pub one_more :
      {P : TypeContext → Type 0}
      → ((m : ℕ) → run' (suc m) ≡ run m)
      → Outcome c run P
      → Outcome c run' P
  one_more e o = record {
    result = o.result;
    after = o.after;
    enough = suc o.enough;
    answers = later;
    ready = o.ready;
    extends = o.extends;
    progress = o.progress;
    tells = o.tells;
  }
    where
      later : (fuel : ℕ) → suc o.enough ≤ fuel → run' fuel ≡ some (o.result, o.after)
      later zero h = absurd (omega arith)
      later (suc fuel) h = e fuel ∙ o.answers fuel (omega arith)

-- What an arena that extends the first one tells of `P`, it tells of `Q`.
pub Outcome-map :
    (c : TypeContext) (run : ℕ → Option (UnifyResult × TypeContext)) (P Q : TypeContext → Type 0)
    → ((after : TypeContext) → Extends c after → IsReady after → P after → Q after)
    → ((after : TypeContext) → Extends c after → IsReady after → Q after → P after)
    → Outcome c run P
    → Outcome c run Q
Outcome-map c run P Q f g o = record {
  result = o.result;
  after = o.after;
  enough = o.enough;
  answers = o.answers;
  ready = o.ready;
  extends = o.extends;
  progress = o.progress;
  tells = Tells-map (f o.after o.extends o.ready) (g o.after o.extends o.ready) o.result o.tells;
}

-- A run that answers at once and leaves the arena.
pub at_once :
    (c : TypeContext) (run : ℕ → Option (UnifyResult × TypeContext)) (P : TypeContext → Type 0)
    (result : UnifyResult)
    → IsReady c
    → ((m : ℕ) → run m ≡ some (result, c))
    → Tells (P c) result
    → Outcome c run P
at_once c run P result w e t = record {
  result = result;
  after = c;
  enough = 0;
  answers = λ m _. e m;
  ready = w;
  extends = Extends-refl c;
  progress = inl refl;
  tells = t;
}

abbrev pub AllSame : List (TypeId × TypeId) → TypeContext → Type 0
AllSame ps after = (i l r : ℕ) → get_elem? ps i ≡ some (l, r) → Same true after l r

module _ (c : TypeContext) (left : TypeId) where
  -- A pair of children is solved in every arena that the loop comes to.
  abbrev pub SolvesAll : List (TypeId × TypeId) → Type 0
  SolvesAll ps =
      (i l r : ℕ)
      → get_elem? ps i ≡ some (l, r)
      → (now : TypeContext) → IsReady now
      → Extends c now
      → Progress c now
      → Solves now l r

  AllSame-cons :
      (l r : TypeId) (rest : List (TypeId × TypeId)) (after : TypeContext)
      → Same true after l r
      → AllSame rest after
      → AllSame ((l, r) ∷ rest) after
  AllSame-cons l r rest after s all zero l' r' h =
      let e : l ≡ l' = cc in let e' : r ≡ r' = cc in rw (← e, ← e') s
  AllSame-cons l r rest after s all (suc i) l' r' h = all i l' r' h

  -- The turn of the loop at a pair whose call has this result.
  turn :
      (l r : TypeId) (rest : List (TypeId × TypeId)) (now : TypeContext) (o : Solves now l r)
      → Outcome o.after (λ fuel. unify_pairs (unify fuel) rest left o.after) (AllSame rest)
      → (result : UnifyResult) → o.result ≡ result
      → Outcome now
          (λ fuel. unify_pairs (unify fuel) ((l, r) ∷ rest) left now)
          (AllSame ((l, r) ∷ rest))
  unfolding unify_pairs
  turn l r rest now o p (mismatch a b) h = record {
    result = mismatch a b;
    after = o.after;
    enough = o.enough;
    answers = λ m le. rw (o.answers m le, h, unify_pairs) refl;
    ready = o.ready;
    extends = o.extends;
    progress = o.progress;
    tells = λ all. subst (Tells (Same true o.after l r)) h o.tells (all 0 l r refl);
  }
  turn l r rest now o p (unified t) h =
      let here : Same true o.after l r = subst (Tells (Same true o.after l r)) h o.tells in
      record {
        result = p.result;
        after = p.after;
        enough = o.enough + p.enough;
        answers =
            λ m le. rw (o.answers m (omega arith), h, unify_pairs) (p.answers m (omega arith));
        ready = p.ready;
        extends = Extends-trans now o.after p.after o.extends p.extends;
        progress = Progress-trans now o.after p.after o.progress p.progress;
        tells =
            Tells-map
              (AllSame-cons l r rest p.after (Extends-Same true o.after p.after p.extends here))
              (λ all i. all (suc i)) p.result p.tells;
      }

  pub loop :
      (ps : List (TypeId × TypeId)) (now : TypeContext)
      → IsReady now
      → Extends c now
      → Progress c now
      → SolvesAll ps
      → Outcome now (λ fuel. unify_pairs (unify fuel) ps left now) (AllSame ps)
  unfolding unify_pairs
  loop [] now w e p calls = at_once now _ _ (unified left) w (λ m. refl) (λ i l r h. cc)
  loop ((l, r) ∷ rest) now w e p calls =
      let o : Solves now l r = calls 0 l r refl now w e p in
      turn l r rest now o
        (loop rest o.after o.ready (Extends-trans c now o.after e o.extends)
          (Progress-trans c now o.after p o.progress) (λ i. calls (suc i)))
        o.result refl
