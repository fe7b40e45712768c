-- ===== src/Expansion/Cycles.antt =====
-- The cycle test walks the parents of a request to the nearest one that it repeats.
use elamite.Base.{
  ℕ, zero, suc, ◌<◌, ◌≤◌, ◌≡◌, refl, Bool, true, false, ◌⊎◌, inl, inr, List, [], ◌∷◌, Option, none,
  some, arith, get_elem?, get_elem?-some, length, All, Bool-cases, subst,
}
use elamite.Expansion.Chain.{
  ScheduledExpansion, ExpansionRequest, repeats, chain_at, chain_from, chain_of, cycle_chain,
}

module _ {Kind : Type 0} (same_kind : Kind → Kind → Bool)
    (work : List (ScheduledExpansion Kind)) where
  -- A request is scheduled after its parent.
  abbrev pub IsOrdered : Type 0
  IsOrdered =
      (i p : ℕ) (x : ScheduledExpansion Kind)
      → get_elem? work i ≡ some x
      → x.parent ≡ some p
      → p < i

  abbrev pub HasParent : ℕ → ℕ → Type 0
  HasParent i p = (x : ScheduledExpansion Kind) × (get_elem? work i ≡ some x) × (x.parent ≡ some p)

  pub data IsAncestor : ℕ → ℕ → Type 0 where
    near : {i p : ℕ} → HasParent i p → IsAncestor i p
    far : {i p a : ℕ} → HasParent i p → IsAncestor p a → IsAncestor i a

  -- Each entry is the parent of the next one.
  abbrev pub IsParentPath : List ℕ → Type 0
  IsParentPath (a ∷ b ∷ rest) = HasParent b a × IsParentPath (b ∷ rest)
  IsParentPath _ = Unit

  abbrev pub IsLast : ℕ → List ℕ → Type 0
  IsLast i [] = ⊥
  IsLast i (a ∷ []) = a ≡ i
  IsLast i (a ∷ b ∷ rest) = IsLast i (b ∷ rest)

  module _ (request : ExpansionRequest Kind) where
    abbrev pub Repeats : ℕ → Type 0
    Repeats i =
        (x : ScheduledExpansion Kind) × (get_elem? work i ≡ some x)
        × (repeats same_kind request x.request ≡ true)

    abbrev pub Differs : ℕ → Type 0
    Differs i =
        (x : ScheduledExpansion Kind)
        → get_elem? work i ≡ some x
        → repeats same_kind request x.request ≡ false

    -- What the answer for a request says: no ancestor repeats it, or the chain goes from an ancestor
    -- that it repeats down to it, and no ancestor between them does.
    abbrev pub Says : ℕ → Option (List ℕ) → Type 0
    Says candidate none = (a : ℕ) → IsAncestor candidate a → Differs a
    Says candidate (some []) = ⊥
    Says candidate (some (top ∷ rest)) =
        Repeats top
        × IsParentPath (top ∷ rest)
        × IsLast candidate rest
        × All (λ i. (i ≡ candidate) ⊎ Differs i) rest

    abbrev Answered : ℕ → Option (Option (List ℕ)) → Type 0
    Answered candidate none = ⊥
    Answered candidate (some answer) = Says candidate answer

    module _ (ordered : IsOrdered) (candidate : ℕ) where
      -- The walk has come to `below`, and went through the entries after it.
      record IsWalk (below : ℕ) (rest : List ℕ) (cursor : Option ℕ) : Type 0 where
        at : ScheduledExpansion Kind
        read : get_elem? work below ≡ some at
        next : at.parent ≡ cursor
        path : IsParentPath (below ∷ rest)
        last : IsLast candidate (below ∷ rest)
        apart : All (λ i. (i ≡ candidate) ⊎ Differs i) (below ∷ rest)
        ancestors : (a : ℕ) → IsAncestor candidate a → Differs a ⊎ IsAncestor below a

      walked :
          (below a p : ℕ) (rest : List ℕ)
          → IsWalk below rest (some p)
          → IsAncestor below a
          → (p ≡ a) ⊎ IsAncestor p a
      walked below a p rest w (near {p = p'} (x, e, h)) = inl cc
      walked below a p rest w (far {p = p'} (x, e, h) more) =
          let same : p' ≡ p = cc in inr (subst (λ z. IsAncestor z a) same more)

      no_parent : (below a : ℕ) (rest : List ℕ) → IsWalk below rest none → IsAncestor below a → ⊥
      no_parent below a rest w (near (x, e, h)) = cc
      no_parent below a rest w (far (x, e, h) more) = cc

      up :
          (below p : ℕ) (rest : List ℕ) (x : ScheduledExpansion Kind)
          → IsWalk below rest (some p)
          → get_elem? work p ≡ some x
          → repeats same_kind request x.request ≡ false
          → IsWalk p (below ∷ rest) x.parent
      up below p rest x w e h =
          let differs : Differs p = λ y e'. let same : x ≡ y = cc in rw (← same) h in
          record {
            at = x;
            read = e;
            next = refl;
            path = ((w.at, w.read, w.next), w.path);
            last = w.last;
            apart = (inr differs, w.apart);
            ancestors = λ a anc. elim (w.ancestors a anc) [
              | inl d ↦ inl d
              | inr more ↦ elim (walked below a p rest w more) [
                | inl same ↦ inl (subst Differs same differs)
                | inr further ↦ inr further
              ]
            ];
          }

      found :
          (below p : ℕ) (rest : List ℕ) (x : ScheduledExpansion Kind)
          → IsWalk below rest (some p)
          → get_elem? work p ≡ some x
          → repeats same_kind request x.request ≡ true
          → Says candidate (some (p ∷ below ∷ rest))
      found below p rest x w e h = ((x, e, h), ((w.at, w.read, w.next), w.path), w.last, w.apart)

      chain_from-Answered :
          (fuel below : ℕ) (rest : List ℕ) (cursor : Option ℕ)
          → IsWalk below rest cursor
          → below ≤ fuel
          → below < length work
          → Answered candidate (chain_from same_kind work request fuel cursor (below ∷ rest))
      unfolding chain_from chain_at
      chain_from-Answered fuel below rest none w h lt = λ a anc. elim (w.ancestors a anc) [
        | inl d ↦ d
        | inr more ↦ absurd (no_parent below a rest w more)
      ]
      chain_from-Answered zero below rest (some p) w h lt =
          absurd (omega (arith, ordered below p w.at w.read w.next))
      chain_from-Answered (suc fuel) below rest (some p) w h lt =
          let less = ordered below p w.at w.read w.next in
          let (x, e) = get_elem?-some work p (omega arith) in
          rw (e, chain_from)
            (elim (Bool-cases (repeats same_kind request x.request)) [
              | inl again ↦ rw again (found below p rest x w e again)
              | inr apart ↦ rw apart (
                  chain_from-Answered fuel p (below ∷ rest) x.parent (up below p rest x w e apart)
                    (omega arith) (omega arith))
            ])

      start-IsWalk :
          (x : ScheduledExpansion Kind)
          → get_elem? work candidate ≡ some x
          → IsWalk candidate [] x.parent
      start-IsWalk x e = record {
        at = x;
        read = e;
        next = refl;
        path = tt;
        last = refl;
        apart = (inl refl, tt);
        ancestors = λ a anc. inr anc;
      }

  -- Where every request is scheduled after its parent, the cycle test of a scheduled request answers:
  -- with no chain exactly if it repeats no ancestor, and else with the chain of parents from the
  -- nearest ancestor that it repeats down to it.
  pub cycle_chain_lem :
      IsOrdered
      → (candidate : ℕ) → candidate < length work
      → (x : ScheduledExpansion Kind) × (get_elem? work candidate ≡ some x)
        × (answer : Option (List ℕ)) × (cycle_chain same_kind work candidate ≡ some answer)
        × Says x.request candidate answer
  unfolding cycle_chain chain_of
  cycle_chain_lem ordered candidate lt =
      let (x, e) = get_elem?-some work candidate lt in
      let (answer, h, says) =
        answered x (chain_from same_kind work x.request candidate x.parent (candidate ∷ [])) (
          chain_from-Answered x.request ordered candidate candidate candidate [] x.parent
            (start-IsWalk x.request ordered candidate x e) (omega arith) lt) in
      (x, e, answer, rw (e, cycle_chain) h, says)
    where
      answered :
          (x : ScheduledExpansion Kind) (o : Option (Option (List ℕ)))
          → Answered x.request candidate o
          → (answer : Option (List ℕ)) × (o ≡ some answer) × Says x.request candidate answer
      answered x none a = absurd a
      answered x (some answer) a = (answer, refl, a)
