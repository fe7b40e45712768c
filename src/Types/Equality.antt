-- ===== src/Types/Equality.antt =====
-- Decidable equality of the kinds of types, by which the map of interned kinds finds them.
use Prim.Native.String.{String}
use text.Mathlib.Text.{◌==◌ as str_eq}
use text.Mathlib.TextEquality.{eq_iff}
use elamite.Base.{ℕ_discrete, ◌≡◌, refl, Bool, true, false, ◌⊎◌, inl, inr}
use elamite.Types.Defs.{TypeKind}

test_cases : (b : Bool) → (b ≡ true) ⊎ (b ≡ false)
test_cases true = inl refl
test_cases false = inr refl

unfoldable pub String-discrete : Discrete String
unfolding test_cases
String-discrete s t = elim (test_cases (str_eq s t)) [
  | inl e ↦ yes ((eq_iff s t).0 e)
  | inr e ↦ no (λ p. cc ((eq_iff s t).1 p))
]

unfoldable pub TypeKind-discrete : Discrete TypeKind
unfolding String-discrete ℕ_discrete
TypeKind-discrete = hlevel (ℕ_discrete, String-discrete)

-- The derived equality of `TypeKind`.
unfoldable pub same_kind : TypeKind → TypeKind → Bool
unfolding TypeKind-discrete
same_kind a b = elim (TypeKind-discrete a b) [ yes _ ↦ true | no _ ↦ false ]

decided : {a b : TypeKind} (d : Dec (a ≡ b)) → elim d [ yes _ ↦ true | no _ ↦ false ] ≡ true → a ≡ b
decided (yes e) h = e
decided (no n) h = cc

holds : {a b : TypeKind} (d : Dec (a ≡ b)) → a ≡ b → elim d [ yes _ ↦ true | no _ ↦ false ] ≡ true
holds (yes e) h = refl
holds (no n) h = absurd (n h)

pub same_kind→eq : (a b : TypeKind) → same_kind a b ≡ true → a ≡ b
unfolding same_kind
same_kind→eq a b h = decided (TypeKind-discrete a b) h

pub same_kind_refl : (a : TypeKind) → same_kind a a ≡ true
unfolding same_kind
same_kind_refl a = holds (TypeKind-discrete a a) refl
