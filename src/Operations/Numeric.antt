-- ===== src/Operations/Numeric.antt =====
-- src/operations.rs:866-961: the numeric alternatives and their names.
use text.Mathlib.Text.{◌==◌ as str_eq}
use text.Mathlib.TextEquality.{eq_iff}
use Prim.Native.String.{String}
use elamite.Base.{
  ◌≡◌, refl, sym, ◌∙◌, Bool, true, false, Option, none, some, if◌then◌else◌, Bool-cases, inl, inr,
}

pub data NumericOutcome : Type 0 where
  checked wrapping saturating : NumericOutcome

pub data NumericOperator : Type 0 where
  add subtract multiply divide remainder negate shift_left shift_right : NumericOperator

pub record NumericAlternative : Type 0 where
  pub name : String
  pub outcome : NumericOutcome
  pub operator : NumericOperator

unfoldable pub is_shift : NumericOperator → Bool
is_shift shift_left = true
is_shift shift_right = true
is_shift _ = false

-- The first `match` of `from_name`.
unfoldable pub parts : String → Option (NumericOutcome × NumericOperator)
parts name =
    if str_eq name "checked_add"
    then some (checked, add)
    else if str_eq name "checked_sub"
    then some (checked, subtract)
    else if str_eq name "checked_mul"
    then some (checked, multiply)
    else if str_eq name "checked_div"
    then some (checked, divide)
    else if str_eq name "checked_rem"
    then some (checked, remainder)
    else if str_eq name "checked_neg"
    then some (checked, negate)
    else if str_eq name "checked_shl"
    then some (checked, shift_left)
    else if str_eq name "checked_shr"
    then some (checked, shift_right)
    else if str_eq name "wrapping_add"
    then some (wrapping, add)
    else if str_eq name "wrapping_sub"
    then some (wrapping, subtract)
    else if str_eq name "wrapping_mul"
    then some (wrapping, multiply)
    else if str_eq name "wrapping_div"
    then some (wrapping, divide)
    else if str_eq name "wrapping_rem"
    then some (wrapping, remainder)
    else if str_eq name "wrapping_neg"
    then some (wrapping, negate)
    else if str_eq name "wrapping_shl"
    then some (wrapping, shift_left)
    else if str_eq name "wrapping_shr"
    then some (wrapping, shift_right)
    else if str_eq name "saturating_add"
    then some (saturating, add)
    else if str_eq name "saturating_sub"
    then some (saturating, subtract)
    else if str_eq name "saturating_mul"
    then some (saturating, multiply)
    else none

-- The second `match` of `from_name`.
unfoldable pub spelling : NumericOutcome → NumericOperator → String
spelling checked add = "checked_add"
spelling checked subtract = "checked_sub"
spelling checked multiply = "checked_mul"
spelling checked divide = "checked_div"
spelling checked remainder = "checked_rem"
spelling checked negate = "checked_neg"
spelling checked shift_left = "checked_shl"
spelling checked shift_right = "checked_shr"
spelling wrapping add = "wrapping_add"
spelling wrapping subtract = "wrapping_sub"
spelling wrapping multiply = "wrapping_mul"
spelling wrapping divide = "wrapping_div"
spelling wrapping remainder = "wrapping_rem"
spelling wrapping negate = "wrapping_neg"
spelling wrapping shift_left = "wrapping_shl"
spelling wrapping shift_right = "wrapping_shr"
spelling saturating add = "saturating_add"
spelling saturating subtract = "saturating_sub"
spelling saturating _ = "saturating_mul"

unfoldable pub named : Option (NumericOutcome × NumericOperator) → Option NumericAlternative
named none = none
named (some (outcome, operator)) =
    some record { name = spelling outcome operator; outcome = outcome; operator = operator }

unfoldable pub from_name : String → Option NumericAlternative
from_name name = named (parts name)

-- What is found for a text spells that text.
abbrev Spells : String → Option (NumericOutcome × NumericOperator) → Type 0
Spells text none = Unit
Spells text (some (outcome, operator)) = spelling outcome operator ≡ text

next :
    (text literal : String) (o : NumericOutcome) (p : NumericOperator)
    (rest : Option (NumericOutcome × NumericOperator))
    → spelling o p ≡ literal
    → Spells text rest
    → Spells text (if str_eq text literal then some (o, p) else rest)
next text literal o p rest e h = elim (Bool-cases (str_eq text literal)) [
  | inl same ↦ rw same (e ∙ sym ((eq_iff text literal).0 same))
  | inr other ↦ rw other h
]

parts-Spells : (text : String) → Spells text (parts text)
unfolding parts spelling
parts-Spells text =
    (next text "checked_add" checked add _ refl (
      next text "checked_sub" checked subtract _ refl (
        next text "checked_mul" checked multiply _ refl (
          next text "checked_div" checked divide _ refl (
            next text "checked_rem" checked remainder _ refl (
              next text "checked_neg" checked negate _ refl (
                next text "checked_shl" checked shift_left _ refl (
                  next text "checked_shr" checked shift_right _ refl (
                    next text "wrapping_add" wrapping add _ refl (
                      next text "wrapping_sub" wrapping subtract _ refl (
                        next text "wrapping_mul" wrapping multiply _ refl (
                          next text "wrapping_div" wrapping divide _ refl (
                            next text "wrapping_rem" wrapping remainder _ refl (
                              next text "wrapping_neg" wrapping negate _ refl (
                                next text "wrapping_shl" wrapping shift_left _ refl (
                                  next text "wrapping_shr" wrapping shift_right _ refl (
                                    next text "saturating_add" saturating add _ refl (
                                      next text "saturating_sub" saturating subtract _ refl (
                                        next text "saturating_mul" saturating multiply _ refl
                                          tt)))))))))))))))))))

named-name :
    (text : String) (o : Option (NumericOutcome × NumericOperator)) (a : NumericAlternative)
    → Spells text o
    → named o ≡ some a
    → a.name ≡ text
unfolding named
named-name text none a s h = cc
named-name text (some (o, p)) a s h = cc

-- An alternative that is found for a name has that very name.
pub from_name-name :
    (text : String) (a : NumericAlternative) → from_name text ≡ some a → a.name ≡ text
unfolding from_name
from_name-name text a h = named-name text (parts text) a (parts-Spells text) h

unfoldable pub supported : NumericOutcome → NumericOperator → Bool
supported saturating add = true
supported saturating subtract = true
supported saturating multiply = true
supported saturating _ = false
supported _ _ = true

-- Every supported pair of an outcome and an operator is found by its name: all of the checked and
-- the wrapping ones, and saturating addition, subtraction and multiplication.
pub from_name-spelling :
    (o : NumericOutcome) (p : NumericOperator)
    → supported o p ≡ true
    → from_name (spelling o p) ≡ some record { name = spelling o p; outcome = o; operator = p }
unfolding from_name named parts spelling supported
from_name-spelling checked add h = refl
from_name-spelling checked subtract h = refl
from_name-spelling checked multiply h = refl
from_name-spelling checked divide h = refl
from_name-spelling checked remainder h = refl
from_name-spelling checked negate h = refl
from_name-spelling checked shift_left h = refl
from_name-spelling checked shift_right h = refl
from_name-spelling wrapping add h = refl
from_name-spelling wrapping subtract h = refl
from_name-spelling wrapping multiply h = refl
from_name-spelling wrapping divide h = refl
from_name-spelling wrapping remainder h = refl
from_name-spelling wrapping negate h = refl
from_name-spelling wrapping shift_left h = refl
from_name-spelling wrapping shift_right h = refl
from_name-spelling saturating add h = refl
from_name-spelling saturating subtract h = refl
from_name-spelling saturating multiply h = refl
from_name-spelling saturating divide h = cc
from_name-spelling saturating remainder h = cc
from_name-spelling saturating negate h = cc
from_name-spelling saturating shift_left h = cc
from_name-spelling saturating shift_right h = cc
