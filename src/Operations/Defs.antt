-- ===== src/Operations/Defs.antt =====
-- src/operations.rs:276-628: the calls into the standard library and the types they carry.
use elamite.Base.{ℕ, Bool}
use elamite.Types.{TypeId}

abbrev pub DeclarationId : Type 0
DeclarationId = ℕ

pub data TextOperation : Type 0 where
  byte_len next_scalar slice_bytes string_view from_chars : TextOperation

pub data SystemOperation : Type 0 where
  path_view open_file read_dir metadata create_dir remove_dir remove_file rename file_read_to_end
        file_write_all file_metadata file_close directory_next directory_close args env_get
        current_dir process_run process_exit :
      SystemOperation

pub data StandardCall : Type 0 where
  panic : StandardCall
  assert : StandardCall
  fail : (value_type : TypeId) → StandardCall
  trap : (reason_type : TypeId) → (trait_declaration : DeclarationId) → StandardCall
  clock_now : (clock_type : TypeId) → (monotonic : Bool) → StandardCall
  string_from : StandardCall
  clone : (value : TypeId) → StandardCall
  box_new : (boxed value : TypeId) → StandardCall
  box_pointer : (boxed value : TypeId) → (mutable consuming : Bool) → StandardCall
  box_from_raw : (boxed value : TypeId) → StandardCall
  maybe_uninit_new : (storage value : TypeId) → StandardCall
  maybe_uninit_pointer : (storage value : TypeId) → StandardCall
  maybe_uninit_assume_init : (storage value : TypeId) → StandardCall
  integer_max : (value : TypeId) → StandardCall
  shared_new : (shared value : TypeId) → StandardCall
  shared_get : (shared value : TypeId) → StandardCall
  shared_downgrade : (shared weak value : TypeId) → StandardCall
  weak_upgrade : (weak shared value result : TypeId) → StandardCall
  store_new : (store value : TypeId) → StandardCall
  store_len : (store : TypeId) → StandardCall
  store_is_empty : (store : TypeId) → StandardCall
  store_insert : (store handle value : TypeId) → StandardCall
  store_get : (store handle value : TypeId) → (mutable : Bool) → StandardCall
  store_remove : (store handle value : TypeId) → StandardCall
  store_compact : (store : TypeId) → StandardCall
  store_clear : (store value : TypeId) → StandardCall
  text : (operation : TextOperation) → (result_type input_type : TypeId) → StandardCall
  system : (operation : SystemOperation) → (result_type : TypeId) → StandardCall
  identity_from : (wrapper : TypeId) → StandardCall
  foreign_root_retain : (handle : TypeId) → (mutable : Bool) → StandardCall
  foreign_root_pointer : (handle : TypeId) → (mutable : Bool) → StandardCall
  foreign_root_close : (handle : TypeId) → StandardCall
  thread_spawn :
      (thread callable : TypeId)
      → (entry : DeclarationId) → (closure_entry : Bool) → (return_type : TypeId) → StandardCall
  thread_join : (thread return_type : TypeId) → StandardCall
  thread_is_finished : (thread : TypeId) → StandardCall
  thread_scope :
      (scope callable : TypeId)
      → (entry : DeclarationId) → (closure_entry : Bool) → (return_type : TypeId) → StandardCall
  scoped_thread_spawn :
      (scope thread callable : TypeId)
      → (entry : DeclarationId) → (closure_entry : Bool) → (return_type : TypeId) → StandardCall
  scoped_thread_join : (thread return_type : TypeId) → StandardCall
  channel_create : (sender receiver element : TypeId) → (bounded : Bool) → StandardCall
  channel_send : (sender element : TypeId) → (nonblocking : Bool) → StandardCall
  channel_receive : (receiver element : TypeId) → (nonblocking : Bool) → StandardCall
  channel_close : (handle : TypeId) → (sender : Bool) → StandardCall
  mutex_new : (mutex value_type : TypeId) → StandardCall
  mutex_lock : (mutex guard value_type : TypeId) → StandardCall
  mutex_guard_get : (guard value_type : TypeId) → (mutable : Bool) → StandardCall
  mutex_read : (mutex value_type : TypeId) → StandardCall
  mutex_replace : (mutex value_type : TypeId) → StandardCall
  mutex_update :
      (mutex value_type callable : TypeId)
      → (entry : DeclarationId) → (closure_entry : Bool) → StandardCall
  atomic_new : (atomic value_type : TypeId) → StandardCall
  atomic_load : (atomic value_type : TypeId) → StandardCall
  atomic_store : (atomic value_type : TypeId) → StandardCall
  atomic_exchange : (atomic value_type : TypeId) → StandardCall
  atomic_compare_exchange : (atomic value_type : TypeId) → StandardCall
  atomic_fetch_add : (atomic value_type : TypeId) → (subtract : Bool) → StandardCall
  formatter_write : (formatter : TypeId) → StandardCall
  array_len : (collection : TypeId) → StandardCall
  array_get : (collection : TypeId) → StandardCall
  slice_len : (collection : TypeId) → StandardCall
  vec_new : (collection : TypeId) → StandardCall
  vec_len : (collection : TypeId) → StandardCall
  vec_is_empty : (collection : TypeId) → StandardCall
  vec_get : (collection : TypeId) → StandardCall
  vec_get_var : (collection : TypeId) → StandardCall
  vec_append : (collection : TypeId) → StandardCall
  vec_insert : (collection : TypeId) → StandardCall
  vec_remove : (collection : TypeId) → StandardCall
  vec_pop : (collection : TypeId) → StandardCall
  vec_clear : (collection : TypeId) → StandardCall
  map_new : (collection : TypeId) → StandardCall
  map_len : (collection : TypeId) → StandardCall
  map_is_empty : (collection : TypeId) → StandardCall
  map_contains_key : (collection : TypeId) → StandardCall
  map_get : (collection : TypeId) → StandardCall
  map_get_var : (collection : TypeId) → StandardCall
  map_insert : (collection : TypeId) → StandardCall
  map_remove : (collection : TypeId) → StandardCall
  map_clear : (collection : TypeId) → StandardCall
  set_new : (collection : TypeId) → StandardCall
  set_len : (collection : TypeId) → StandardCall
  set_is_empty : (collection : TypeId) → StandardCall
  set_contains : (collection : TypeId) → StandardCall
  set_insert : (collection : TypeId) → StandardCall
  set_remove : (collection : TypeId) → StandardCall
  set_clear : (collection : TypeId) → StandardCall
