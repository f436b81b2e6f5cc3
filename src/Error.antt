-- ===== src/Error.antt =====
-- src/error.rs: the errors as values. What other libraries report (serde_json, git2, the io and
-- utf8 errors of std) is only displayed, so it is the message.
pub mod Display
use eafcc_core.Text.{Text}

pub record ForeignError : Type 0 where
  pub message : Text

pub data DataLoaderError : Type 0 where
  spec_parse_error : Text → DataLoaderError
  unmarshal_error : ForeignError → DataLoaderError

pub data ListDirError : Type 0 where
  path_prefix_handling_error : ListDirError

mutual
  pub data StorageBackendError : Type 0 where
    update_watching_error : Text → StorageBackendError
    io_error : ForeignError → StorageBackendError
    git2_error : ForeignError → StorageBackendError
    walk_dir_error : WalkDirError → StorageBackendError
    list_dir_error : ListDirError → StorageBackendError
    utf8_error : ForeignError → StorageBackendError
    strip_prefix_error : ForeignError → StorageBackendError
    lock_posioned_error : StorageBackendError

  pub data WalkDirError : Type 0 where
    storage_backend_error : StorageBackendError → WalkDirError
    data_loader_error : DataLoaderError → WalkDirError

pub data MemoryIndexError : Type 0 where
  data_loader_error : DataLoaderError → MemoryIndexError
  storage_backend_error : StorageBackendError → MemoryIndexError
  namespace_not_absolute_path : MemoryIndexError

pub data QueryError : Type 0 where
  get_lock_error : QueryError

pub data DifferError : Type 0 where
  query_error : QueryError → DifferError

pub data FfiError : Type 0 where
  string_convert_nul_error : ForeignError → FfiError
  string_convert_utf8_error : ForeignError → FfiError
  create_backend_error : Text → FfiError
  storage_backend_error : StorageBackendError → FfiError

pub data CcLibError : Type 0 where
  namespace_error : Text → CcLibError
  ffi_error : FfiError → CcLibError
  storage_backend_error : StorageBackendError → CcLibError
  memory_index_error : MemoryIndexError → CcLibError
