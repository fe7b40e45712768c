-- ===== src/Operations/Carried.antt =====
-- The types that a standard call carries, and what a rewrite does to them.
use elamite.Base.{List, [], ◌∷◌, ◌≡◌, arith}
use elamite.Types.{TypeId}
use elamite.Operations.{
  StandardCall, map_types, map_1, map_2, map_3, map_4, panic, assert, fail, trap, clock_now,
  string_from, clone, box_new, box_pointer, box_from_raw, maybe_uninit_new, maybe_uninit_pointer,
  maybe_uninit_assume_init, integer_max, shared_new, shared_get, shared_downgrade, weak_upgrade,
  store_new, store_len, store_is_empty, store_insert, store_get, store_remove, store_compact,
  store_clear, text, system, identity_from, foreign_root_retain, foreign_root_pointer,
  foreign_root_close, thread_spawn, thread_join, thread_is_finished, thread_scope,
  scoped_thread_spawn, scoped_thread_join, channel_create, channel_send, channel_receive,
  channel_close, mutex_new, mutex_lock, mutex_guard_get, mutex_read, mutex_replace, mutex_update,
  atomic_new, atomic_load, atomic_store, atomic_exchange, atomic_compare_exchange, atomic_fetch_add,
  formatter_write, array_len, array_get, slice_len, vec_new, vec_len, vec_is_empty, vec_get,
  vec_get_var, vec_append, vec_insert, vec_remove, vec_pop, vec_clear, map_new, map_len,
  map_is_empty, map_contains_key, map_get, map_get_var, map_insert, map_remove, map_clear, set_new,
  set_len, set_is_empty, set_contains, set_insert, set_remove, set_clear,
}

unfoldable pub types : StandardCall → List TypeId
types panic = []
types assert = []
types (fail value_type) = value_type ∷ []
types (trap reason_type trait_declaration) = reason_type ∷ []
types (clock_now clock_type monotonic) = clock_type ∷ []
types string_from = []
types (clone value) = value ∷ []
types (box_new boxed value) = boxed ∷ value ∷ []
types (box_pointer boxed value mutable consuming) = boxed ∷ value ∷ []
types (box_from_raw boxed value) = boxed ∷ value ∷ []
types (maybe_uninit_new storage value) = storage ∷ value ∷ []
types (maybe_uninit_pointer storage value) = storage ∷ value ∷ []
types (maybe_uninit_assume_init storage value) = storage ∷ value ∷ []
types (integer_max value) = value ∷ []
types (shared_new shared value) = shared ∷ value ∷ []
types (shared_get shared value) = shared ∷ value ∷ []
types (shared_downgrade shared weak value) = shared ∷ weak ∷ value ∷ []
types (weak_upgrade weak shared value result) = weak ∷ shared ∷ value ∷ result ∷ []
types (store_new store value) = store ∷ value ∷ []
types (store_len store) = store ∷ []
types (store_is_empty store) = store ∷ []
types (store_insert store handle value) = store ∷ handle ∷ value ∷ []
types (store_get store handle value mutable) = store ∷ handle ∷ value ∷ []
types (store_remove store handle value) = store ∷ handle ∷ value ∷ []
types (store_compact store) = store ∷ []
types (store_clear store value) = store ∷ value ∷ []
types (text operation result_type input_type) = result_type ∷ input_type ∷ []
types (system operation result_type) = result_type ∷ []
types (identity_from wrapper) = wrapper ∷ []
types (foreign_root_retain handle mutable) = handle ∷ []
types (foreign_root_pointer handle mutable) = handle ∷ []
types (foreign_root_close handle) = handle ∷ []
types (thread_spawn thread callable entry closure_entry return_type) =
    thread ∷ callable ∷ return_type ∷ []
types (thread_join thread return_type) = thread ∷ return_type ∷ []
types (thread_is_finished thread) = thread ∷ []
types (thread_scope scope callable entry closure_entry return_type) =
    scope ∷ callable ∷ return_type ∷ []
types (scoped_thread_spawn scope thread callable entry closure_entry return_type) =
    scope ∷ thread ∷ callable ∷ return_type ∷ []
types (scoped_thread_join thread return_type) = thread ∷ return_type ∷ []
types (channel_create sender receiver element bounded) = sender ∷ receiver ∷ element ∷ []
types (channel_send sender element nonblocking) = sender ∷ element ∷ []
types (channel_receive receiver element nonblocking) = receiver ∷ element ∷ []
types (channel_close handle sender) = handle ∷ []
types (mutex_new mutex value_type) = mutex ∷ value_type ∷ []
types (mutex_lock mutex guard value_type) = mutex ∷ guard ∷ value_type ∷ []
types (mutex_guard_get guard value_type mutable) = guard ∷ value_type ∷ []
types (mutex_read mutex value_type) = mutex ∷ value_type ∷ []
types (mutex_replace mutex value_type) = mutex ∷ value_type ∷ []
types (mutex_update mutex value_type callable entry closure_entry) =
    mutex ∷ value_type ∷ callable ∷ []
types (atomic_new atomic value_type) = atomic ∷ value_type ∷ []
types (atomic_load atomic value_type) = atomic ∷ value_type ∷ []
types (atomic_store atomic value_type) = atomic ∷ value_type ∷ []
types (atomic_exchange atomic value_type) = atomic ∷ value_type ∷ []
types (atomic_compare_exchange atomic value_type) = atomic ∷ value_type ∷ []
types (atomic_fetch_add atomic value_type subtract) = atomic ∷ value_type ∷ []
types (formatter_write formatter) = formatter ∷ []
types (array_len collection) = collection ∷ []
types (array_get collection) = collection ∷ []
types (slice_len collection) = collection ∷ []
types (vec_new collection) = collection ∷ []
types (vec_len collection) = collection ∷ []
types (vec_is_empty collection) = collection ∷ []
types (vec_get collection) = collection ∷ []
types (vec_get_var collection) = collection ∷ []
types (vec_append collection) = collection ∷ []
types (vec_insert collection) = collection ∷ []
types (vec_remove collection) = collection ∷ []
types (vec_pop collection) = collection ∷ []
types (vec_clear collection) = collection ∷ []
types (map_new collection) = collection ∷ []
types (map_len collection) = collection ∷ []
types (map_is_empty collection) = collection ∷ []
types (map_contains_key collection) = collection ∷ []
types (map_get collection) = collection ∷ []
types (map_get_var collection) = collection ∷ []
types (map_insert collection) = collection ∷ []
types (map_remove collection) = collection ∷ []
types (map_clear collection) = collection ∷ []
types (set_new collection) = collection ∷ []
types (set_len collection) = collection ∷ []
types (set_is_empty collection) = collection ∷ []
types (set_contains collection) = collection ∷ []
types (set_insert collection) = collection ∷ []
types (set_remove collection) = collection ∷ []
types (set_clear collection) = collection ∷ []

unfoldable pub visit : {S : Type 0} → (TypeId → S → TypeId × S) → List TypeId → S → List TypeId × S
visit map [] s = ([], s)
visit map (x ∷ xs) s = let r = map x s in let rest = visit map xs (r.1) in (r.0 ∷ rest.0, rest.1)

-- A rewrite gives the map each type that a call carries, once and in the order of its fields, and
-- puts the answers at the same places.
pub types-map_types :
    {S : Type 0} (map : TypeId → S → TypeId × S) (c : StandardCall) (s : S)
    → (types ((map_types map c s).0), (map_types map c s).1) ≡ visit map (types c) s
unfolding types visit map_types map_1 map_2 map_3 map_4
types-map_types map c s = ground arith

-- A rewrite by a map that changes neither types nor its state leaves the call as it is, the fields
-- that are no types included.
map_types-same : {S : Type 0} (c : StandardCall) (s : S) → map_types (λ t r. (t, r)) c s ≡ (c, s)
unfolding map_types map_1 map_2 map_3 map_4
map_types-same c s = ground arith
