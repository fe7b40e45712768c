-- ===== src/Expansion/Schedule/Keys.antt =====
-- The ready set: what a removal, an insertion and a sorting do to the ids in it.
use Prim.Native.Nat.{Ordering, lt, eq, gt, compare}
use elamite.Base.{
  ℕ, ◌≡◌, refl, sym, ap, ◌∙◌, true, false, ◌⊎◌, inl, inr, List, [], ◌∷◌, arith, map, contains,
  if◌then◌else◌, ◌==◌, ==→eq, Bool-cases, subst,
}
use elamite.Expansion.Ready.{
  LocationOrder, ReadyKey, then_with, key_order, insert_key, remove_key, insert_sorted, sort_keys,
  dedup,
}

abbrev pub ids : List ReadyKey → List ℕ
ids keys = map (λ k. k.work) keys

Ordering-cases : (o : Ordering) → (o ≡ lt) ⊎ (o ≡ eq) ⊎ (o ≡ gt)
Ordering-cases lt = inl refl
Ordering-cases eq = inr (inl refl)
Ordering-cases gt = inr (inr refl)

pub contains_more : (j x : ℕ) (xs : List ℕ) → contains j xs ≡ true → contains j (x ∷ xs) ≡ true
unfolding contains
contains_more j x xs h = ground arith

pub contains_here : (j : ℕ) (xs : List ℕ) → contains j (j ∷ xs) ≡ true
unfolding contains
contains_here j xs = ground arith

pub contains_cases :
    (j x : ℕ) (xs : List ℕ) → contains j (x ∷ xs) ≡ true → (x ≡ j) ⊎ (contains j xs ≡ true)
unfolding contains
contains_cases j x xs h = elim (Bool-cases (x == j)) [
  | inl e ↦ inl (==→eq x j e)
  | inr e ↦ inr (rw e at h)
]

swap_two :
    (j a b : ℕ) (xs ys : List ℕ)
    → contains j xs ≡ contains j (b ∷ ys)
    → contains j (a ∷ xs) ≡ contains j (b ∷ a ∷ ys)
unfolding contains
swap_two j a b xs ys h = ground arith

same_more :
    (j a : ℕ) (xs ys : List ℕ)
    → contains j xs ≡ contains j ys
    → contains j (a ∷ xs) ≡ contains j (a ∷ ys)
unfolding contains
same_more j a xs ys h = rw h refl

pub not_contained : (j : ℕ) (xs : List ℕ) → (contains j xs ≡ true → ⊥) → contains j xs ≡ false
not_contained j xs h = elim (Bool-cases (contains j xs)) [
  | inl there ↦ absurd (h there)
  | inr e ↦ e
]

-- The order of locations is reflexive.
abbrev pub IsReflexive : LocationOrder → Type 0
IsReflexive order = (l : _) → order l l ≡ eq

module _ (order : LocationOrder) where
  key_order-eq : (a b : ReadyKey) → key_order order a b ≡ eq → a.work ≡ b.work
  unfolding key_order then_with
  key_order-eq a b h = by_order (order a.location b.location) h
    where
      by_order : (o : Ordering) → then_with o (compare a.work b.work) ≡ eq → a.work ≡ b.work
      by_order lt h = cc
      by_order eq h = ground arith
      by_order gt h = cc

  pub key_order_refl :
      IsReflexive order
      → (a b : ReadyKey) → a.location ≡ b.location
      → a.work ≡ b.work
      → key_order order a b ≡ eq
  unfolding key_order then_with
  key_order_refl law a b l w = rw (l, w, law b.location) (ground arith)

  -- What the set becomes at its first key.
  pub remove_key-cases :
      (key k : ReadyKey) (keys : List ReadyKey)
      → ((key_order order key k ≡ eq → ⊥)
          × (remove_key order key (k ∷ keys) ≡ k ∷ remove_key order key keys))
        ⊎ ((key.work ≡ k.work) × (remove_key order key (k ∷ keys) ≡ keys))
  unfolding remove_key
  remove_key-cases key k keys = elim (Ordering-cases (key_order order key k)) [
    | inl e ↦ inl ((λ h. cc), rw (e, remove_key) refl)
    | inr (inl e) ↦ inr (key_order-eq key k e, rw (e, remove_key) refl)
    | inr (inr e) ↦ inl ((λ h. cc), rw (e, remove_key) refl)
  ]

  pub insert_key-cases :
      (key k : ReadyKey) (keys : List ReadyKey)
      → (insert_key order key (k ∷ keys) ≡ key ∷ k ∷ keys)
        ⊎ ((key.work ≡ k.work) × (insert_key order key (k ∷ keys) ≡ k ∷ keys))
        ⊎ (insert_key order key (k ∷ keys) ≡ k ∷ insert_key order key keys)
  unfolding insert_key
  insert_key-cases key k keys = elim (Ordering-cases (key_order order key k)) [
    | inl e ↦ inl (rw (e, insert_key) refl)
    | inr (inl e) ↦ inr (inl (key_order-eq key k e, rw (e, insert_key) refl))
    | inr (inr e) ↦ inr (inr (rw (e, insert_key) refl))
  ]

  insert_sorted-cases :
      (key k : ReadyKey) (keys : List ReadyKey)
      → (insert_sorted order key (k ∷ keys) ≡ key ∷ k ∷ keys)
        ⊎ (insert_sorted order key (k ∷ keys) ≡ k ∷ insert_sorted order key keys)
  unfolding insert_sorted
  insert_sorted-cases key k keys = elim (Ordering-cases (key_order order key k)) [
    | inl e ↦ inl (rw (e, insert_sorted) refl)
    | inr (inl e) ↦ inl (rw (e, insert_sorted) refl)
    | inr (inr e) ↦ inr (rw (e, insert_sorted) refl)
  ]

  -- A removal drops no id but its own, and adds none.
  pub remove_key-old :
      (key : ReadyKey) (keys : List ReadyKey) (j : ℕ)
      → contains j (ids (remove_key order key keys)) ≡ true
      → contains j (ids keys) ≡ true
  unfolding remove_key
  remove_key-old key [] j h = h
  remove_key-old key (k ∷ keys) j h = elim (remove_key-cases key k keys) [
    | inl (_, e) ↦
        elim (contains_cases j k.work (ids (remove_key order key keys))
          (subst (λ z. contains j (ids z) ≡ true) e h)) [
            | inl same ↦ rw same (contains_here j (ids keys))
            | inr more ↦ contains_more j k.work (ids keys) (remove_key-old key keys j more)
          ]
    | inr (_, e) ↦ contains_more j k.work (ids keys) (subst (λ z. contains j (ids z) ≡ true) e h)
  ]

  pub remove_key-keeps :
      (key : ReadyKey) (keys : List ReadyKey) (j : ℕ)
      → (j ≡ key.work → ⊥)
      → contains j (ids keys) ≡ true
      → contains j (ids (remove_key order key keys)) ≡ true
  unfolding remove_key
  remove_key-keeps key [] j apart h = h
  remove_key-keeps key (k ∷ keys) j apart h = elim (remove_key-cases key k keys) [
    | inl (_, e) ↦
        subst (λ z. contains j (ids z) ≡ true) (sym e)
          (elim (contains_cases j k.work (ids keys) h) [
            | inl same ↦ rw same (contains_here j (ids (remove_key order key keys)))
            | inr more ↦
                contains_more j k.work (ids (remove_key order key keys))
                  (remove_key-keeps key keys j apart more)
          ])
    | inr (one, e) ↦
        subst (λ z. contains j (ids z) ≡ true) (sym e)
          (elim (contains_cases j k.work (ids keys) h) [
            | inl same ↦ absurd (apart (sym same ∙ sym one))
            | inr more ↦ more
          ])
  ]

  -- An insertion adds its id, and no other.
  pub insert_key-new :
      (key : ReadyKey) (keys : List ReadyKey)
      → contains key.work (ids (insert_key order key keys)) ≡ true
  unfolding insert_key
  insert_key-new key [] = contains_here key.work []
  insert_key-new key (k ∷ keys) = elim (insert_key-cases key k keys) [
    | inl e ↦
        subst (λ z. contains key.work (ids z) ≡ true) (sym e)
          (contains_here key.work (ids (k ∷ keys)))
    | inr (inl (one, e)) ↦
        subst (λ z. contains key.work (ids z) ≡ true) (sym e)
          (subst (λ w. contains w (ids (k ∷ keys)) ≡ true) (sym one)
            (contains_here k.work (ids keys)))
    | inr (inr e) ↦
        subst (λ z. contains key.work (ids z) ≡ true) (sym e)
          (contains_more key.work k.work (ids (insert_key order key keys))
            (insert_key-new key keys))
  ]

  pub insert_key-keeps :
      (key : ReadyKey) (keys : List ReadyKey) (j : ℕ)
      → contains j (ids keys) ≡ true
      → contains j (ids (insert_key order key keys)) ≡ true
  unfolding insert_key
  insert_key-keeps key [] j h = contains_more j key.work [] h
  insert_key-keeps key (k ∷ keys) j h = elim (insert_key-cases key k keys) [
    | inl e ↦
        subst (λ z. contains j (ids z) ≡ true) (sym e) (contains_more j key.work (ids (k ∷ keys)) h)
    | inr (inl (_, e)) ↦ subst (λ z. contains j (ids z) ≡ true) (sym e) h
    | inr (inr e) ↦
        subst (λ z. contains j (ids z) ≡ true) (sym e)
          (elim (contains_cases j k.work (ids keys) h) [
            | inl same ↦ rw same (contains_here j (ids (insert_key order key keys)))
            | inr more ↦
                contains_more j k.work (ids (insert_key order key keys))
                  (insert_key-keeps key keys j more)
          ])
  ]

  pub insert_key-old :
      (key : ReadyKey) (keys : List ReadyKey) (j : ℕ)
      → contains j (ids (insert_key order key keys)) ≡ true
      → (key.work ≡ j) ⊎ (contains j (ids keys) ≡ true)
  unfolding insert_key
  insert_key-old key [] j h = contains_cases j key.work [] h
  insert_key-old key (k ∷ keys) j h = elim (insert_key-cases key k keys) [
    | inl e ↦
        contains_cases j key.work (ids (k ∷ keys)) (subst (λ z. contains j (ids z) ≡ true) e h)
    | inr (inl (_, e)) ↦ inr (subst (λ z. contains j (ids z) ≡ true) e h)
    | inr (inr e) ↦
        elim (contains_cases j k.work (ids (insert_key order key keys))
          (subst (λ z. contains j (ids z) ≡ true) e h)) [
            | inl same ↦ inr (rw same (contains_here j (ids keys)))
            | inr more ↦ elim (insert_key-old key keys j more) [
              | inl same ↦ inl same
              | inr old ↦ inr (contains_more j k.work (ids keys) old)
            ]
          ]
  ]

  -- Sorting keeps the ids.
  insert_sorted-contains :
      (key : ReadyKey) (keys : List ReadyKey) (j : ℕ)
      → contains j (ids (insert_sorted order key keys)) ≡ contains j (key.work ∷ ids keys)
  unfolding insert_sorted
  insert_sorted-contains key [] j = refl
  insert_sorted-contains key (k ∷ keys) j = elim (insert_sorted-cases key k keys) [
    | inl e ↦ ap (λ z. contains j (ids z)) e
    | inr e ↦
        ap (λ z. contains j (ids z)) e
        ∙ swap_two j k.work key.work _ _ (insert_sorted-contains key keys j)
  ]

  pub sort_keys-contains :
      (keys : List ReadyKey) (j : ℕ)
      → contains j (ids (sort_keys order keys)) ≡ contains j (ids keys)
  unfolding sort_keys
  sort_keys-contains [] j = refl
  sort_keys-contains (k ∷ keys) j =
      insert_sorted-contains k (sort_keys order keys) j
      ∙ same_more j k.work _ _ (sort_keys-contains keys j)

pub dedup-contains : (xs : List ℕ) (j : ℕ) → contains j (dedup xs) ≡ contains j xs
unfolding dedup contains
dedup-contains [] j = refl
dedup-contains (x ∷ []) j = refl
dedup-contains (x ∷ y ∷ rest) j =
    let later = dedup-contains (y ∷ rest) j in
    elim (Bool-cases (x == y)) [
      | inl same ↦ rw same (later ∙ ground (arith, ==→eq x y same))
      | inr apart ↦ rw apart (ap (λ b. if x == j then true else b) later)
    ]
