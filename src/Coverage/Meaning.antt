-- ===== src/Coverage/Meaning.antt =====
-- What a coverage claims: the values that match it, seen as far as a coverage looks.
use elamite.Base.{ℕ, ◌≡◌, Bool, true, false, List, ◌∷◌, some, contains}
use elamite.Types.{TypeId, NominalIdentity, nominal, primitive, bool}
use elamite.Coverage.Defs.{
  Coverage, nothing, catchall, variants, bools, dereferenced, unknown, Tables, Variant,
  reference_target, resolved_kind,
}

-- A value as a match on it can see it.
pub data View : Type 0 where
  bool_view : Bool → View
  variant_view : ℕ → View
  reference_view : View → View
  opaque_view : View

abbrev pub Claims : Coverage → View → Type 0
Claims catchall v = Unit
Claims (variants vs) (variant_view x) = contains x vs ≡ true
Claims (bools s) (bool_view true) = s.has_true ≡ true
Claims (bools s) (bool_view false) = s.has_false ≡ true
Claims (dereferenced c) (reference_view v) = Claims c v
Claims _ _ = ⊥

-- The form of a scrutinee type that a coverage depends on.
pub data Form : Type 0 where
  bool_form other_form : Form
  enum_form : ℕ → Form
  reference_form : Form → Form

-- A variant is declared by an enum.
pub data DeclaredIn (d x : ℕ) : List Variant → Type 0 where
  here : {v : Variant} {rest : List Variant} → v.id ≡ x → v.parent ≡ d → DeclaredIn d x (v ∷ rest)
  there : {v : Variant} {rest : List Variant} → DeclaredIn d x rest → DeclaredIn d x (v ∷ rest)

-- The values of a form.
abbrev pub HasForm : Tables → Form → View → Type 0
HasForm t bool_form (bool_view b) = Unit
HasForm t (enum_form d) (variant_view x) = DeclaredIn d x t.variants_table
HasForm t (reference_form form) (reference_view v) = HasForm t form v
HasForm t other_form opaque_view = Unit
HasForm _ _ _ = ⊥

-- The coverages that patterns checked against a type of the form can have.
abbrev pub Fits : Form → Coverage → Type 0
Fits form nothing = Unit
Fits form catchall = Unit
Fits form unknown = Unit
Fits (enum_form d) (variants vs) = Unit
Fits bool_form (bools s) = Unit
Fits (reference_form form) (dereferenced c) = Fits form c
Fits _ _ = ⊥

-- The form of a type of the arena.
abbrev pub TypeForm : Tables → TypeId → Form → Type 0
TypeForm t ty bool_form = resolved_kind t.types ty ≡ some (primitive bool)
TypeForm t ty other_form = Unit
TypeForm t ty (enum_form d) =
    (identity : NominalIdentity) × (arguments : List TypeId) × (resolved_kind t.types ty
      ≡ some (nominal identity arguments))
    × (identity.declaration ≡ d)
TypeForm t ty (reference_form form) =
    (target : TypeId) × (reference_target t.types ty ≡ some target) × TypeForm t target form
