-- ===== src/Expansion/Ready.antt =====
-- src/expansion/scheduler.rs:336-340: the keys of the ready set. The derived order of locations, over
-- the orders of paths and strings, is a parameter. The ordered set is a sorted list.
use Prim.Native.Nat.{Ordering, lt, eq, gt, compare}
use elamite.Base.{ℕ, List, [], ◌∷◌, if◌then◌else◌, ◌==◌}
use elamite.Expansion.Chain.{ExpansionLocation}

abbrev pub LocationOrder : Type 0
LocationOrder = ExpansionLocation → ExpansionLocation → Ordering

pub record ReadyKey : Type 0 where
  pub location : ExpansionLocation
  pub work : ℕ

-- `Ordering::then_with`
unfoldable pub then_with : Ordering → Ordering → Ordering
then_with lt later = lt
then_with eq later = later
then_with gt later = gt

module _ (order : LocationOrder) where
  unfoldable pub key_order : ReadyKey → ReadyKey → Ordering
  key_order a b = then_with (order a.location b.location) (compare a.work b.work)

  -- `BTreeSet::insert`
  unfoldable pub insert_key : ReadyKey → List ReadyKey → List ReadyKey
  insert_key key [] = key ∷ []
  insert_key key (k ∷ keys) = elim (key_order key k) [
    | lt ↦ key ∷ k ∷ keys
    | eq ↦ k ∷ keys
    | gt ↦ k ∷ insert_key key keys
  ]

  -- `BTreeSet::remove`
  unfoldable pub remove_key : ReadyKey → List ReadyKey → List ReadyKey
  remove_key key [] = []
  remove_key key (k ∷ keys) = elim (key_order key k) [
    | lt ↦ k ∷ remove_key key keys
    | eq ↦ keys
    | gt ↦ k ∷ remove_key key keys
  ]

  -- `sort_by`, of ids with the locations of their requests
  unfoldable pub insert_sorted : ReadyKey → List ReadyKey → List ReadyKey
  insert_sorted key [] = key ∷ []
  insert_sorted key (k ∷ keys) = elim (key_order key k) [
    | lt ↦ key ∷ k ∷ keys
    | eq ↦ key ∷ k ∷ keys
    | gt ↦ k ∷ insert_sorted key keys
  ]

  unfoldable pub sort_keys : List ReadyKey → List ReadyKey
  sort_keys [] = []
  sort_keys (key ∷ keys) = insert_sorted key (sort_keys keys)

-- `dedup`
unfoldable pub dedup : List ℕ → List ℕ
dedup [] = []
dedup (x ∷ []) = x ∷ []
dedup (x ∷ y ∷ rest) = let later = dedup (y ∷ rest) in if x == y then later else x ∷ later
