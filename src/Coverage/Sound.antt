-- ===== src/Coverage/Sound.antt =====
-- What the coverage of a match says about the values that its arms catch.
use elamite.Base.{
  ℕ, ◌≡◌, ◌⊎◌, inl, inr, Bool, true, false, not, ◌&&◌, List, [], ◌∷◌, arith, contains,
  if◌then◌else◌, ◌==◌,
}
use elamite.Coverage.{
  Coverage, nothing, catchall, variants, bools, dereferenced, BoolSet, count, union_bools,
  is_subset_bools, insert, extend, is_subset, is_empty, union, is_catchall, covers_variants,
  covers_bools, is_covered_by, Tables, View, bool_view, variant_view, reference_view, Claims, Form,
  bool_form, other_form, enum_form, reference_form, HasForm, Fits,
}

pub and_right : (a b : Bool) → a && b ≡ true → b ≡ true
and_right a b h = ground arith

contains-insert :
    (x a : ℕ) (xs : List ℕ) → contains x (insert a xs) ≡ (if a == x then true else contains x xs)
unfolding insert contains
contains-insert x a xs = ground arith

contains-extend :
    (x : ℕ) (a b : List ℕ)
    → contains x (extend a b) ≡ true
    → (contains x a ≡ true) ⊎ (contains x b ≡ true)
unfolding extend contains
contains-extend x a [] h = inl h
contains-extend x a (y ∷ ys) h =
    ground (arith, contains-extend x (insert y a) ys h, contains-insert x y a)

union_bools-Claims :
    (a b : BoolSet) (v : View)
    → Claims (bools (union_bools a b)) v
    → Claims (bools a) v ⊎ Claims (bools b) v
unfolding union_bools
union_bools-Claims a b (bool_view true) h = ground arith
union_bools-Claims a b (bool_view false) h = ground arith
union_bools-Claims a b _ h = absurd h

extend-Claims :
    (a b : List ℕ) (v : View)
    → Claims (variants (extend a b)) v
    → Claims (variants a) v ⊎ Claims (variants b) v
extend-Claims a b (variant_view x) h = contains-extend x a b h
extend-Claims a b (bool_view true) h = absurd h
extend-Claims a b _ h = absurd h

-- A union claims nothing that neither part claims.
pub union-Claims : (a b : Coverage) (v : View) → Claims (union a b) v → Claims a v ⊎ Claims b v
unfolding union
union-Claims nothing b v h = inr h
union-Claims catchall b v h = inl tt
union-Claims (variants vs) (variants ws) v h = extend-Claims vs ws v h
union-Claims (bools s) (bools u) v h = union_bools-Claims s u v h
union-Claims (dereferenced a) (dereferenced b) (reference_view v) h = union-Claims a b v h
union-Claims a nothing v h = inl h
union-Claims a catchall v h = inr tt
union-Claims a b v h = absurd h

pub union-Fits : (form : Form) (a b : Coverage) → Fits form a → Fits form b → Fits form (union a b)
unfolding union
union-Fits form nothing b f g = g
union-Fits form catchall nothing f g = tt
union-Fits form catchall b f g = tt
union-Fits (enum_form d) (variants vs) (variants ws) f g = tt
union-Fits bool_form (bools s) (bools u) f g = tt
union-Fits (reference_form form) (dereferenced a) (dereferenced b) f g = union-Fits form a b f g
union-Fits form a nothing f g = f
union-Fits form a catchall f g = tt
union-Fits form a b f g = search (tt, f, g)

-- `is_subset` read at one member.
contains_of_subset :
    (x : ℕ) (vs ws : List ℕ) → is_subset vs ws ≡ true → contains x vs ≡ true → contains x ws ≡ true
unfolding is_subset contains
contains_of_subset x [] ws s h = cc
contains_of_subset x (y ∷ vs) ws s h = ground (arith, contains_of_subset x vs ws)

pub is_catchall-Claims :
    (t : Tables) (form : Form) (c : Coverage) (v : View)
    → Fits form c
    → HasForm t form v
    → is_catchall c ≡ true
    → Claims c v
unfolding is_catchall
is_catchall-Claims t form catchall v f h e = tt
is_catchall-Claims t (reference_form form) (dereferenced c) (reference_view v) f h e =
    is_catchall-Claims t form c v f h e
is_catchall-Claims t (reference_form form) (dereferenced c) _ f h e = absurd h
is_catchall-Claims t bool_form (dereferenced c) v f h e = absurd f
is_catchall-Claims t other_form (dereferenced c) v f h e = absurd f
is_catchall-Claims t (enum_form d) (dereferenced c) v f h e = absurd f
is_catchall-Claims t form c v f h e = cc

covers_variants-Claims :
    (form : Form) (vs : List ℕ) (b : Coverage) (v : View)
    → Fits form (variants vs)
    → Fits form b
    → covers_variants b vs ≡ true
    → Claims (variants vs) v
    → Claims b v
unfolding covers_variants
covers_variants-Claims (enum_form d) vs (variants ws) (variant_view x) f g e h =
    contains_of_subset x vs ws e h
covers_variants-Claims (enum_form d) vs (variants ws) _ f g e h = absurd h
covers_variants-Claims (enum_form d) vs (dereferenced b) v f g e h = absurd g
covers_variants-Claims (enum_form d) vs b v f g e h = cc
covers_variants-Claims form vs b v f g e h = absurd f

covers_bools-Claims :
    (form : Form) (s : BoolSet) (b : Coverage) (v : View)
    → Fits form (bools s)
    → Fits form b
    → covers_bools b s ≡ true
    → Claims (bools s) v
    → Claims b v
unfolding covers_bools is_subset_bools
covers_bools-Claims bool_form s (bools u) (bool_view true) f g e h = ground arith
covers_bools-Claims bool_form s (bools u) (bool_view false) f g e h = ground arith
covers_bools-Claims bool_form s (bools u) _ f g e h = absurd h
covers_bools-Claims bool_form s (dereferenced b) v f g e h = absurd g
covers_bools-Claims bool_form s b v f g e h = cc
covers_bools-Claims form s b v f g e h = absurd f

-- For coverages of one form: what `is_covered_by` accepts claims no value that the previous
-- coverage does not claim.
pub is_covered_by-Claims :
    (t : Tables) (form : Form) (a b : Coverage) (v : View)
    → Fits form a
    → Fits form b
    → HasForm t form v
    → is_covered_by a b ≡ true
    → Claims a v
    → Claims b v
unfolding is_covered_by
is_covered_by-Claims t form (variants vs) b v f g h e c =
    covers_variants-Claims form vs b v f g (and_right (not (is_empty vs)) _ e) c
is_covered_by-Claims t form (bools s) b v f g h e c =
    covers_bools-Claims form s b v f g (and_right (not (count s == 0)) _ e) c
is_covered_by-Claims t (reference_form form) (dereferenced a) (dereferenced b) (reference_view v) f
      g h e c =
    is_covered_by-Claims t form a b v f g h e c
is_covered_by-Claims t (reference_form form) (dereferenced a) (dereferenced b) _ f g h e c =
    absurd c
is_covered_by-Claims t form (dereferenced a) (dereferenced b) v f g h e c = absurd f
is_covered_by-Claims t form catchall b v f g h e c = is_catchall-Claims t form b v g h e
is_covered_by-Claims t form a b v f g h e c = cc
