-- ===== src/Operations/Examples.antt =====
-- A rewrite that counts the types it visits, and the name of a numeric alternative.
use elamite.Base.{ℕ, suc, ◌+◌, ◌≡◌, refl, true, some}
use elamite.Types.{TypeId}
use elamite.Operations.{StandardCall, mutex_update, map_types, map_1, map_2, map_3}
use elamite.Operations.Carried.{types, visit, types-map_types}
use elamite.Operations.Numeric.{
  NumericAlternative, from_name, parts, named, spelling, supported, wrapping, shift_left,
  from_name-name, from_name-spelling,
}

-- Answers 10 times the type and counts.
abbrev counting : TypeId → ℕ → TypeId × ℕ
counting t n = (t + 10, suc n)

abbrev update : StandardCall
update = mutex_update 1 2 3 40 true

types-map_types_example :
    (types ((map_types counting update 0).0), (map_types counting update 0).1)
    ≡ visit counting (types update) 0
types-map_types_example = types-map_types counting update 0

rewritten : map_types counting update 0 ≡ (mutex_update 11 12 13 40 true, 3)
unfolding map_types map_1 map_2 map_3
rewritten = refl

abbrev shl : NumericAlternative
shl = record { name = "wrapping_shl"; outcome = wrapping; operator = shift_left }

from_name-name_example : shl.name ≡ "wrapping_shl"
unfolding from_name parts named spelling
from_name-name_example = from_name-name "wrapping_shl" shl refl

from_name-spelling_example :
    from_name (spelling wrapping shift_left)
    ≡ some record { name = spelling wrapping shift_left; outcome = wrapping; operator = shift_left }
unfolding supported
from_name-spelling_example = from_name-spelling wrapping shift_left refl
