-- ===== src/Expansion/Schedule/Keyed.antt =====
-- The ready set and the states of its items.
use elamite.Base.{
  ℕ, ◌≡◌, refl, sym, ◌∙◌, true, false, inl, inr, List, [], ◌∷◌, some, get_elem?, contains,
  Bool-cases, subst,
}
use elamite.Expansion.Chain.{ready, ScheduledExpansion}
use elamite.Expansion.Ready.{LocationOrder, ReadyKey, insert_key, remove_key}
use elamite.Expansion.Defs.{update_at}
use elamite.Expansion.Schedule.Work.{get_elem?-update_at_other}
use elamite.Expansion.Schedule.Keys.{
  ids, contains_more, contains_here, contains_cases, not_contained, IsReflexive, key_order_refl,
  remove_key-cases, insert_key-cases, remove_key-old, insert_key-old,
}

module _ {Kind : Type 0} where
  -- A key stands for a ready item at its location.
  abbrev pub KeyAt : List (ScheduledExpansion Kind) → ReadyKey → Type 0
  KeyAt work k =
      (r : ScheduledExpansion Kind) × (get_elem? work k.work ≡ some r)
      × (r.state ≡ ready)
      × (r.request.location ≡ k.location)

  -- Each key does, and no id occurs twice.
  abbrev pub Keyed : List (ScheduledExpansion Kind) → List ReadyKey → Type 0
  Keyed work [] = Unit
  Keyed work (k ∷ keys) = KeyAt work k × (contains k.work (ids keys) ≡ false) × Keyed work keys

  pub Keyed-ready :
      (work : List (ScheduledExpansion Kind)) (keys : List ReadyKey) (j : ℕ)
      → Keyed work keys
      → contains j (ids keys) ≡ true
      → (r : ScheduledExpansion Kind) × (get_elem? work j ≡ some r) × (r.state ≡ ready)
  unfolding contains
  Keyed-ready work [] j h m = cc
  Keyed-ready work (k ∷ keys) j ((r, e, st, l), absent, h) m =
      elim (contains_cases j k.work (ids keys) m) [
        | inl same ↦ (r, rw (← same) e, st)
        | inr more ↦ Keyed-ready work keys j h more
      ]

  -- A change of an item that has no key.
  pub Keyed-update_at :
      (work : List (ScheduledExpansion Kind)) (keys : List ReadyKey) (i : ℕ)
      (f : ScheduledExpansion Kind → ScheduledExpansion Kind)
      → contains i (ids keys) ≡ false
      → Keyed work keys
      → Keyed (update_at i f work) keys
  Keyed-update_at work [] i f no_key h = tt
  Keyed-update_at work (k ∷ keys) i f no_key ((r, e, st, l), absent, h) =
      let apart : k.work ≡ i → ⊥ = λ same. let here = contains_here i (ids keys) in cc in
      let rest : contains i (ids keys) ≡ false = elim (Bool-cases (contains i (ids keys))) [
        | inl there ↦ let more = contains_more i k.work (ids keys) there in cc
        | inr e ↦ e
      ] in
      (
        (r, get_elem?-update_at_other f i k.work work apart ∙ e, st, l),
        absent,
        Keyed-update_at work keys i f rest h,
      )

  module _ (order : LocationOrder) where
    -- A removal leaves a ready set.
    pub Keyed-remove_key :
        (work : List (ScheduledExpansion Kind)) (key : ReadyKey) (keys : List ReadyKey)
        → Keyed work keys
        → Keyed work (remove_key order key keys)
    unfolding remove_key
    Keyed-remove_key work key [] h = tt
    Keyed-remove_key work key (k ∷ keys) (at, absent, h) =
        elim (remove_key-cases order key k keys) [
          | inl (_, e) ↦ subst (Keyed work) (sym e) (
            at,
            not_contained k.work (ids (remove_key order key keys))
                (λ there. let old = remove_key-old order key keys k.work there in cc),
            Keyed-remove_key work key keys h,
          )
          | inr (_, e) ↦ subst (Keyed work) (sym e) h
        ]

    -- The removed id is out of it, if the key has the location of the item.
    pub remove_key-gone :
        IsReflexive order
        → (work : List (ScheduledExpansion Kind)) (key : ReadyKey) (keys : List ReadyKey)
          (r : ScheduledExpansion Kind)
        → Keyed work keys
        → get_elem? work key.work ≡ some r
        → r.request.location ≡ key.location
        → contains key.work (ids (remove_key order key keys)) ≡ false
    unfolding remove_key contains
    remove_key-gone law work key [] r h e l = refl
    remove_key-gone law work key (k ∷ keys) r ((x, at, st, lx), absent, h) e l =
        elim (remove_key-cases order key k keys) [
          | inl (differs, eq_rest) ↦
              subst (λ z. contains key.work (ids z) ≡ false) (sym eq_rest)
                (not_contained key.work (k.work ∷ ids (remove_key order key keys)) (λ there.
                  elim (contains_cases key.work k.work (ids (remove_key order key keys)) there) [
                    | inl one ↦
                        let found : get_elem? work key.work ≡ some x =
                          subst (λ z. get_elem? work z ≡ some x) one at in
                        let alike : x ≡ r = cc in
                        let place : x.request.location ≡ key.location = rw alike l in
                        differs (key_order_refl order law key k (sym place ∙ lx) (sym one))
                    | inr more ↦ let gone = remove_key-gone law work key keys r h e l in cc
                  ]))
          | inr (one, eq_rest) ↦
              subst (λ z. contains key.work (ids z) ≡ false) (sym eq_rest)
                (subst (λ w. contains w (ids keys) ≡ false) (sym one) absent)
        ]

    pub Keyed-insert_key :
        (work : List (ScheduledExpansion Kind)) (key : ReadyKey) (keys : List ReadyKey)
        → KeyAt work key
        → contains key.work (ids keys) ≡ false
        → Keyed work keys
        → Keyed work (insert_key order key keys)
    unfolding insert_key
    Keyed-insert_key work key [] at new h = (at, new, tt)
    Keyed-insert_key work key (k ∷ keys) at new (old, absent, h) =
        elim (insert_key-cases order key k keys) [
          | inl e ↦ subst (Keyed work) (sym e) (at, new, (old, absent, h))
          | inr (inl (_, e)) ↦ subst (Keyed work) (sym e) (old, absent, h)
          | inr (inr e) ↦ subst (Keyed work) (sym e) (
            old,
            not_contained k.work (ids (insert_key order key keys)) (λ there.
                elim (insert_key-old order key keys k.work there) [
                  | inl same ↦
                      let here = contains_here key.work (ids keys) in
                      let found : contains key.work (k.work ∷ ids keys) ≡ true =
                        subst (λ w. contains key.work (w ∷ ids keys) ≡ true) same here in
                      cc
                  | inr more ↦ cc
                ]),
            Keyed-insert_key work key keys at
                (not_contained key.work (ids keys)
                  (λ there. let more = contains_more key.work k.work (ids keys) there in cc))
                h,
          )
        ]
