-- ===== src/Place/Storage.antt =====
-- The storage that a place denotes: parts of objects, reached through pointers that may alias.
use elamite.Base.{
  ◌∙◌, ap, ◌++◌, ℕ, ◌≡◌, refl, ◌≢◌, sym, subst, Bool, true, false, List, [], ◌∷◌, arith,
}
use elamite.Place.{
  field, tuple_field, dereference, receiver_adaptation, PlaceRoot, Projection, constant_index,
  dynamic_index, Place, root_eq, projection_eq, is_expression, has_dereference,
}

-- A part of an object: the fields and the constant indices that lead to it.
pub record Location : Type 0 where
  pub object : ℕ
  pub path : List Projection

unfoldable pub is_part : Projection → Bool
is_part (field _) = true
is_part (tuple_field _) = true
is_part (constant_index _) = true
is_part _ = false

abbrev pub part_at : Location → List Projection → Location
part_at l steps = record l { path = l.path ++ steps }

-- The storage that a path denotes from a location on. A dynamic index is some constant index, an
-- adaptation of a receiver stays in place, and a dereference goes wherever the pointer that is stored
-- there leads: `target` may let any two pointers alias.
pub data Denotes (target : Location → Location)
    : Location → List Projection → Location → Type 0 where
  here : {l : Location} → Denotes target l [] l
  part :
      {l t : Location} {x : Projection} {ps : List Projection}
      → is_part x ≡ true
      → Denotes target (part_at l (x ∷ [])) ps t
      → Denotes target l (x ∷ ps) t
  index :
      {l t : Location} {ps : List Projection} (k : ℕ)
      → Denotes target (part_at l (constant_index k ∷ [])) ps t
      → Denotes target l (dynamic_index ∷ ps) t
  follow :
      {l t : Location} {ps : List Projection}
      → Denotes target (target l) ps t
      → Denotes target l (dereference ∷ ps) t
  adapt :
      {l t : Location} {ps : List Projection}
      → Denotes target l ps t
      → Denotes target l (receiver_adaptation ∷ ps) t

-- The storage of the second location lies within that of the first.
abbrev pub Within : Location → Location → Type 0
Within l m = (l.object ≡ m.object) × ((more : List Projection) × (m.path ≡ l.path ++ more))

-- Neither lies within the other.
abbrev pub Apart : Location → Location → Type 0
Apart l m = (¬ Within l m) × (¬ Within m l)

-- The paths agree, without a dynamic index, up to a point, at which they may differ; and no
-- dereference comes after it.
pub data IsComparable : List Projection → List Projection → Type 0 where
  direct :
      {xs ys : List Projection}
      → has_dereference xs ≡ false
      → has_dereference ys ≡ false
      → IsComparable xs ys
  fork :
      {x y : Projection} {xs ys : List Projection}
      → has_dereference xs ≡ false
      → has_dereference ys ≡ false
      → IsComparable (x ∷ xs) (y ∷ ys)
  shared :
      {x : Projection} {xs ys : List Projection}
      → x ≢ dynamic_index
      → IsComparable xs ys
      → IsComparable (x ∷ xs) (x ∷ ys)

-- Distinct bindings and captures are distinct objects.
abbrev pub IsSeparate : (PlaceRoot → ℕ) → Type 0
IsSeparate object_of =
    (p q : PlaceRoot)
    → is_expression p ≡ false
    → is_expression q ≡ false
    → root_eq p q ≡ false
    → object_of p ≢ object_of q

abbrev pub start : (PlaceRoot → ℕ) → Place → Location
start object_of p = record { object = object_of p.root; path = [] }

pub append_assoc : (xs ys zs : List Projection) → (xs ++ ys) ++ zs ≡ xs ++ (ys ++ zs)
append_assoc [] ys zs = refl
append_assoc (x ∷ xs) ys zs = ap (λ l. x ∷ l) (append_assoc xs ys zs)

append_cancel : (xs ys zs : List Projection) → xs ++ ys ≡ xs ++ zs → ys ≡ zs
append_cancel [] ys zs h = h
append_cancel (x ∷ xs) ys zs h = append_cancel xs ys zs cc

not-Within :
    (l : Location) (x y : Projection) (us vs : List Projection)
    → x ≢ y
    → ¬ Within (part_at l (x ∷ us)) (part_at l (y ∷ vs))
not-Within l x y us vs differ (_, (more, h)) =
    let same =
      append_cancel l.path (y ∷ vs) ((x ∷ us) ++ more) (h ∙ append_assoc l.path (x ∷ us) more) in
    differ cc

pub diverge :
    (l : Location) (x y : Projection) (us vs : List Projection)
    → x ≢ y
    → Apart (part_at l (x ∷ us)) (part_at l (y ∷ vs))
diverge l x y us vs differ =
    (not-Within l x y us vs differ, not-Within l y x vs us (λ e. differ (sym e)))

append_nil : (xs : List Projection) → xs ++ [] ≡ xs
append_nil [] = refl
append_nil (x ∷ xs) = ap (λ l. x ∷ l) (append_nil xs)

pub no_dereference_tail :
    (x : Projection) (xs : List Projection)
    → has_dereference (x ∷ xs) ≡ false
    → has_dereference xs ≡ false
unfolding has_dereference
no_dereference_tail x xs h = ground arith

module _ (target : Location → Location) where
  pub part-next :
      (l t : Location) (x : Projection) (ps : List Projection)
      → is_part x ≡ true
      → Denotes target l (x ∷ ps) t
      → Denotes target (part_at l (x ∷ [])) ps t
  unfolding is_part
  part-next l t x ps h (part _ d) = d
  part-next l t _ ps h (index k d) = cc
  part-next l t _ ps h (follow d) = cc
  part-next l t _ ps h (adapt d) = cc

  pub index-next :
      (l t : Location) (ps : List Projection)
      → Denotes target l (dynamic_index ∷ ps) t
      → (k : ℕ) × Denotes target (part_at l (constant_index k ∷ [])) ps t
  unfolding is_part
  index-next l t ps (part h d) = cc
  index-next l t ps (index k d) = (k, d)

  -- Where a projection that is no dynamic index goes.
  unfoldable pub next : Location → Projection → Location
  next l dereference = target l
  next l receiver_adaptation = l
  next l x = part_at l (x ∷ [])

  next-part : (l : Location) (x : Projection) → is_part x ≡ true → next l x ≡ part_at l (x ∷ [])
  unfolding is_part next
  next-part l (field a) h = refl
  next-part l (tuple_field a) h = refl
  next-part l (constant_index a) h = refl
  next-part l x h = cc

  pub Denotes-next :
      (l t : Location) (x : Projection) (ps : List Projection)
      → x ≢ dynamic_index
      → Denotes target l (x ∷ ps) t
      → Denotes target (next l x) ps t
  unfolding next
  Denotes-next l t x ps n (part h d) = subst (λ z. Denotes target z ps t) (sym (next-part l x h)) d
  Denotes-next l t _ ps n (index k d) = absurd (n refl)
  Denotes-next l t _ ps n (follow d) = d
  Denotes-next l t _ ps n (adapt d) = d

  -- Without a dereference, what is denoted is a part of where the path starts.
  pub Denotes-direct :
      {l t : Location} {ps : List Projection}
      → has_dereference ps ≡ false
      → Denotes target l ps t
      → (us : List Projection) × (t ≡ part_at l us)
  unfolding has_dereference projection_eq
  Denotes-direct {l} n here = ([], ap (λ path. record l { path = path }) (sym (append_nil l.path)))
  Denotes-direct {l} n (part {x = x} {ps = ps} h d) =
      let (us, e) = Denotes-direct (no_dereference_tail x ps n) d in
      (x ∷ us, e ∙ ap (λ path. record l { path = path }) (append_assoc l.path (x ∷ []) us))
  Denotes-direct {l} n (index {ps = ps} k d) =
      let (us, e) = Denotes-direct (no_dereference_tail dynamic_index ps n) d in
      (
        constant_index k ∷ us,
        e ∙ ap (λ path. record l { path = path }) (append_assoc l.path (constant_index k ∷ []) us),
      )
  Denotes-direct n (follow d) = cc
  Denotes-direct n (adapt {ps = ps} d) =
      Denotes-direct (no_dereference_tail receiver_adaptation ps n) d
