-- ===== src/Error/Display.antt =====
-- src/error.rs, `#[error("…")]`: how the errors are displayed.
use eafcc_core.Prelude.{◌++◌}
use eafcc_core.Text.{Text, text}
use eafcc_core.Error.{
  DataLoaderError, ListDirError, StorageBackendError, WalkDirError, MemoryIndexError, QueryError,
  DifferError, FfiError, CcLibError, spec_parse_error, unmarshal_error, path_prefix_handling_error,
  update_watching_error, io_error, git2_error, walk_dir_error, list_dir_error, utf8_error,
  strip_prefix_error, lock_posioned_error, namespace_not_absolute_path, get_lock_error, query_error,
  string_convert_nul_error, string_convert_utf8_error, create_backend_error, namespace_error,
  ffi_error, memory_index_error,
}

unfoldable pub display_data_loader_error : DataLoaderError → Text
display_data_loader_error (spec_parse_error t) = text "error parse `spec` part in config: " ++ t
display_data_loader_error (unmarshal_error e) = text "error parse json in config: " ++ e.message

unfoldable pub display_list_dir_error : ListDirError → Text
display_list_dir_error path_prefix_handling_error =
    text "prefix not match, some link in filesystem backend maybe wrong"

unfoldable mutual
  pub display_storage_backend_error : StorageBackendError → Text
  display_storage_backend_error (update_watching_error t) =
      text "error while trying to watch config change: " ++ t
  display_storage_backend_error (io_error e) = text "error while doing IO: " ++ e.message
  display_storage_backend_error (git2_error e) =
      text "error while operating on git backend: " ++ e.message
  display_storage_backend_error (walk_dir_error e) =
      text "error while operating on git backend: " ++ display_walk_dir_error e
  display_storage_backend_error (list_dir_error e) =
      text "error while operating on git backend: " ++ display_list_dir_error e
  display_storage_backend_error (utf8_error e) = text "error while converting string: " ++ e.message
  display_storage_backend_error (strip_prefix_error e) =
      text "error while internally converting path: " ++ e.message
  display_storage_backend_error lock_posioned_error = text "error while internally getting lock"

  pub display_walk_dir_error : WalkDirError → Text
  display_walk_dir_error (WalkDirError.storage_backend_error e) =
      text "error while operating on git backend: " ++ display_storage_backend_error e
  display_walk_dir_error (WalkDirError.data_loader_error e) =
      text "error while operating on git backend: " ++ display_data_loader_error e

unfoldable pub display_memory_index_error : MemoryIndexError → Text
unfolding display_storage_backend_error display_data_loader_error
display_memory_index_error (MemoryIndexError.data_loader_error e) =
    text "error while building index: " ++ display_data_loader_error e
display_memory_index_error (MemoryIndexError.storage_backend_error e) =
    text "error while building index: " ++ display_storage_backend_error e
display_memory_index_error namespace_not_absolute_path =
    text "error, namespace must in absolute form, i.e., start with `/`"

unfoldable pub display_query_error : QueryError → Text
display_query_error get_lock_error = text "error when locking internal state"

unfoldable pub display_differ_error : DifferError → Text
unfolding display_query_error
display_differ_error (query_error e) = text "error when querying: " ++ display_query_error e

unfoldable pub display_ffi_error : FfiError → Text
unfolding display_storage_backend_error
display_ffi_error (string_convert_nul_error e) =
    text "error convert string between cffi: " ++ e.message
display_ffi_error (string_convert_utf8_error e) =
    text "error convert string between cffi: " ++ e.message
display_ffi_error (create_backend_error t) = text "error building backend from config: " ++ t
display_ffi_error (FfiError.storage_backend_error e) =
    text "error building backend from config: " ++ display_storage_backend_error e

unfoldable pub display_cc_lib_error : CcLibError → Text
unfolding display_ffi_error display_memory_index_error
display_cc_lib_error (namespace_error t) = t
display_cc_lib_error (ffi_error e) = text "error when calling cffi: " ++ display_ffi_error e
display_cc_lib_error (CcLibError.storage_backend_error e) =
    text "error with storage backend: " ++ display_storage_backend_error e
display_cc_lib_error (memory_index_error e) =
    text "error with inmemory index: " ++ display_memory_index_error e
