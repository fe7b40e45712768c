-- ===== src/Operations/Rewrite.antt =====
-- src/operations.rs:630-864: `StandardCall::map_types`. The Rust closure may keep a state, so it is a
-- function that takes the state and returns the next one.
use elamite.Types.{TypeId}
use elamite.Operations.Defs.{
  StandardCall, panic, assert, fail, trap, clock_now, string_from, clone, box_new, box_pointer,
  box_from_raw, maybe_uninit_new, maybe_uninit_pointer, maybe_uninit_assume_init, integer_max,
  shared_new, shared_get, shared_downgrade, weak_upgrade, store_new, store_len, store_is_empty,
  store_insert, store_get, store_remove, store_compact, store_clear, text, system, identity_from,
  foreign_root_retain, foreign_root_pointer, foreign_root_close, thread_spawn, thread_join,
  thread_is_finished, thread_scope, scoped_thread_spawn, scoped_thread_join, channel_create,
  channel_send, channel_receive, channel_close, mutex_new, mutex_lock, mutex_guard_get, mutex_read,
  mutex_replace, mutex_update, atomic_new, atomic_load, atomic_store, atomic_exchange,
  atomic_compare_exchange, atomic_fetch_add, formatter_write, array_len, array_get, slice_len,
  vec_new, vec_len, vec_is_empty, vec_get, vec_get_var, vec_append, vec_insert, vec_remove, vec_pop,
  vec_clear, map_new, map_len, map_is_empty, map_contains_key, map_get, map_get_var, map_insert,
  map_remove, map_clear, set_new, set_len, set_is_empty, set_contains, set_insert, set_remove,
  set_clear,
}

-- Assign the mapped values of the fields, in this order.
unfoldable pub map_1 :
    {S : Type 0}
    → (TypeId → S → TypeId × S)
    → (TypeId → StandardCall)
    → TypeId
    → S
    → StandardCall × S
map_1 map build a s = let r = map a s in (build (r.0), r.1)

unfoldable pub map_2 :
    {S : Type 0}
    → (TypeId → S → TypeId × S)
    → (TypeId → TypeId → StandardCall)
    → TypeId
    → TypeId
    → S
    → StandardCall × S
map_2 map build a b s = let r = map a s in map_1 map (build (r.0)) b (r.1)

unfoldable pub map_3 :
    {S : Type 0}
    → (TypeId → S → TypeId × S)
    → (TypeId → TypeId → TypeId → StandardCall)
    → TypeId
    → TypeId
    → TypeId
    → S
    → StandardCall × S
map_3 map build a b c s = let r = map a s in map_2 map (build (r.0)) b c (r.1)

unfoldable pub map_4 :
    {S : Type 0}
    → (TypeId → S → TypeId × S)
    → (TypeId → TypeId → TypeId → TypeId → StandardCall)
    → TypeId
    → TypeId
    → TypeId
    → TypeId
    → S
    → StandardCall × S
map_4 map build a b c d s = let r = map a s in map_3 map (build (r.0)) b c d (r.1)

unfoldable pub map_types :
    {S : Type 0} → (TypeId → S → TypeId × S) → StandardCall → S → StandardCall × S
map_types map panic s = (panic, s)
map_types map assert s = (assert, s)
map_types map (fail value_type) s = map_1 map fail value_type s
map_types map (trap reason_type trait_declaration) s =
    map_1 map (λ new_reason_type. trap new_reason_type trait_declaration) reason_type s
map_types map (clock_now clock_type monotonic) s =
    map_1 map (λ new_clock_type. clock_now new_clock_type monotonic) clock_type s
map_types map string_from s = (string_from, s)
map_types map (clone value) s = map_1 map clone value s
map_types map (box_new boxed value) s = map_2 map box_new boxed value s
map_types map (box_pointer boxed value mutable consuming) s =
    map_2 map (λ new_boxed new_value. box_pointer new_boxed new_value mutable consuming) boxed value
      s
map_types map (box_from_raw boxed value) s = map_2 map box_from_raw boxed value s
map_types map (maybe_uninit_new storage value) s = map_2 map maybe_uninit_new storage value s
map_types map (maybe_uninit_pointer storage value) s =
    map_2 map maybe_uninit_pointer storage value s
map_types map (maybe_uninit_assume_init storage value) s =
    map_2 map maybe_uninit_assume_init storage value s
map_types map (integer_max value) s = map_1 map integer_max value s
map_types map (shared_new shared value) s = map_2 map shared_new shared value s
map_types map (shared_get shared value) s = map_2 map shared_get shared value s
map_types map (shared_downgrade shared weak value) s =
    map_3 map shared_downgrade shared weak value s
map_types map (weak_upgrade weak shared value result) s =
    map_4 map weak_upgrade weak shared value result s
map_types map (store_new store value) s = map_2 map store_new store value s
map_types map (store_len store) s = map_1 map store_len store s
map_types map (store_is_empty store) s = map_1 map store_is_empty store s
map_types map (store_insert store handle value) s = map_3 map store_insert store handle value s
map_types map (store_get store handle value mutable) s =
    map_3 map (λ new_store new_handle new_value. store_get new_store new_handle new_value mutable)
      store handle value s
map_types map (store_remove store handle value) s = map_3 map store_remove store handle value s
map_types map (store_compact store) s = map_1 map store_compact store s
map_types map (store_clear store value) s = map_2 map store_clear store value s
map_types map (text operation result_type input_type) s =
    map_2 map (λ new_result_type new_input_type. text operation new_result_type new_input_type)
      result_type input_type s
map_types map (system operation result_type) s =
    map_1 map (λ new_result_type. system operation new_result_type) result_type s
map_types map (identity_from wrapper) s = map_1 map identity_from wrapper s
map_types map (foreign_root_retain handle mutable) s =
    map_1 map (λ new_handle. foreign_root_retain new_handle mutable) handle s
map_types map (foreign_root_pointer handle mutable) s =
    map_1 map (λ new_handle. foreign_root_pointer new_handle mutable) handle s
map_types map (foreign_root_close handle) s = map_1 map foreign_root_close handle s
map_types map (thread_spawn thread callable entry closure_entry return_type) s =
    map_3 map
      (λ new_thread new_callable new_return_type.
        thread_spawn new_thread new_callable entry closure_entry new_return_type)
      thread callable return_type s
map_types map (thread_join thread return_type) s = map_2 map thread_join thread return_type s
map_types map (thread_is_finished thread) s = map_1 map thread_is_finished thread s
map_types map (thread_scope scope callable entry closure_entry return_type) s =
    map_3 map
      (λ new_scope new_callable new_return_type.
        thread_scope new_scope new_callable entry closure_entry new_return_type)
      scope callable return_type s
map_types map (scoped_thread_spawn scope thread callable entry closure_entry return_type) s =
    map_4 map
      (λ new_scope new_thread new_callable new_return_type.
        scoped_thread_spawn new_scope new_thread new_callable entry closure_entry new_return_type)
      scope thread callable return_type s
map_types map (scoped_thread_join thread return_type) s =
    map_2 map scoped_thread_join thread return_type s
map_types map (channel_create sender receiver element bounded) s =
    map_3 map
      (λ new_sender new_receiver new_element.
        channel_create new_sender new_receiver new_element bounded)
      sender receiver element s
map_types map (channel_send sender element nonblocking) s =
    map_2 map (λ new_sender new_element. channel_send new_sender new_element nonblocking) sender
      element s
map_types map (channel_receive receiver element nonblocking) s =
    map_2 map (λ new_receiver new_element. channel_receive new_receiver new_element nonblocking)
      receiver element s
map_types map (channel_close handle sender) s =
    map_1 map (λ new_handle. channel_close new_handle sender) handle s
map_types map (mutex_new mutex value_type) s = map_2 map mutex_new mutex value_type s
map_types map (mutex_lock mutex guard value_type) s = map_3 map mutex_lock mutex guard value_type s
map_types map (mutex_guard_get guard value_type mutable) s =
    map_2 map (λ new_guard new_value_type. mutex_guard_get new_guard new_value_type mutable) guard
      value_type s
map_types map (mutex_read mutex value_type) s = map_2 map mutex_read mutex value_type s
map_types map (mutex_replace mutex value_type) s = map_2 map mutex_replace mutex value_type s
map_types map (mutex_update mutex value_type callable entry closure_entry) s =
    map_3 map
      (λ new_mutex new_value_type new_callable.
        mutex_update new_mutex new_value_type new_callable entry closure_entry)
      mutex value_type callable s
map_types map (atomic_new atomic value_type) s = map_2 map atomic_new atomic value_type s
map_types map (atomic_load atomic value_type) s = map_2 map atomic_load atomic value_type s
map_types map (atomic_store atomic value_type) s = map_2 map atomic_store atomic value_type s
map_types map (atomic_exchange atomic value_type) s = map_2 map atomic_exchange atomic value_type s
map_types map (atomic_compare_exchange atomic value_type) s =
    map_2 map atomic_compare_exchange atomic value_type s
map_types map (atomic_fetch_add atomic value_type subtract) s =
    map_2 map (λ new_atomic new_value_type. atomic_fetch_add new_atomic new_value_type subtract)
      atomic value_type s
map_types map (formatter_write formatter) s = map_1 map formatter_write formatter s
map_types map (array_len collection) s = map_1 map array_len collection s
map_types map (array_get collection) s = map_1 map array_get collection s
map_types map (slice_len collection) s = map_1 map slice_len collection s
map_types map (vec_new collection) s = map_1 map vec_new collection s
map_types map (vec_len collection) s = map_1 map vec_len collection s
map_types map (vec_is_empty collection) s = map_1 map vec_is_empty collection s
map_types map (vec_get collection) s = map_1 map vec_get collection s
map_types map (vec_get_var collection) s = map_1 map vec_get_var collection s
map_types map (vec_append collection) s = map_1 map vec_append collection s
map_types map (vec_insert collection) s = map_1 map vec_insert collection s
map_types map (vec_remove collection) s = map_1 map vec_remove collection s
map_types map (vec_pop collection) s = map_1 map vec_pop collection s
map_types map (vec_clear collection) s = map_1 map vec_clear collection s
map_types map (map_new collection) s = map_1 map map_new collection s
map_types map (map_len collection) s = map_1 map map_len collection s
map_types map (map_is_empty collection) s = map_1 map map_is_empty collection s
map_types map (map_contains_key collection) s = map_1 map map_contains_key collection s
map_types map (map_get collection) s = map_1 map map_get collection s
map_types map (map_get_var collection) s = map_1 map map_get_var collection s
map_types map (map_insert collection) s = map_1 map map_insert collection s
map_types map (map_remove collection) s = map_1 map map_remove collection s
map_types map (map_clear collection) s = map_1 map map_clear collection s
map_types map (set_new collection) s = map_1 map set_new collection s
map_types map (set_len collection) s = map_1 map set_len collection s
map_types map (set_is_empty collection) s = map_1 map set_is_empty collection s
map_types map (set_contains collection) s = map_1 map set_contains collection s
map_types map (set_insert collection) s = map_1 map set_insert collection s
map_types map (set_remove collection) s = map_1 map set_remove collection s
map_types map (set_clear collection) s = map_1 map set_clear collection s
