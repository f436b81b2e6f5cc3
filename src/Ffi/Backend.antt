-- ===== src/Ffi/Backend.antt =====
-- src/ffi.rs, `build_storage_backend_from_cfg`: the backend that a configuration asks for.
use eafcc_core.Prelude.{Option, none, some, if◌then◌else◌}
use eafcc_core.Text.{Text, text, text_eq}
use eafcc_core.Text.Utf8.{Utf8}
use eafcc_core.Error.{FfiError, ForeignError, create_backend_error, storage_backend_error}
use eafcc_core.Run.{Run, ok, err, map_err, ◌>>=◌}
use eafcc_core.Model.{Bytes}
use eafcc_core.Storage.{StorageBackend}
use eafcc_core.Storage.Filesystem
use eafcc_core.Storage.Filesystem.{Fs, FilesystemBackend, FiniteTrees}
use eafcc_core.Storage.Git
use eafcc_core.Storage.Git.Interface.{Git2, Network}

-- What the function uses of `serde_json::Value`.
pub record JsonConfig : Type 1 where
  pub Value : Type 0
  pub from_slice : Bytes → Run ForeignError Value
  -- `Value::get` by a text: the member of an object of that name
  pub get : Value → Text → Option Value
  pub as_object : Value → Option Value
  pub as_str : Value → Option Text

-- `o.ok_or(FFIError::CreateBackendError(…))`.
abbrev pub ok_or : {A : Type 0} → Option A → Text → Run FfiError A
ok_or none msg = err (create_backend_error msg)
ok_or (some a) msg = ok a

module _ (json : JsonConfig) where
  -- A member that must be there and be a text.
  unfoldable pub text_member : json.Value → Text → Text → Text → Run FfiError Text
  text_member cfg name missing not_text =
      ok_or (json.get cfg name) missing >>= λ v. ok_or (json.as_str v) not_text

  -- The directories of a filesystem backend are finite trees.
  module _ (utf8 : Utf8) (fs : Fs)
      (trees : (backend : FilesystemBackend) → FiniteTrees utf8 fs backend) (git : Git2)
      (net : Network git) where
    unfoldable pub filesystem_from_cfg : json.Value → Run FfiError StorageBackend
    unfolding text_member
    filesystem_from_cfg cfg = do
      path ←
          text_member cfg (text "path") (text "filesystem backend must have a `path` filed")
            (text "`path` must be string")
      ok (Filesystem.as_storage_backend utf8 fs (Filesystem.new path) (trees (Filesystem.new path)))

    unfoldable git_from_cfg : json.Value → Run FfiError StorageBackend
    unfolding text_member
    git_from_cfg cfg = do
      local_repo_path ←
          text_member cfg (text "local_repo_path")
            (text "git-normal backend must have a `local_repo_path` filed")
            (text "`local_repo_path` must be string")
      remote_repo_url ←
          text_member cfg (text "remote_repo_url")
            (text "git-normal backend must have a `remote_repo_url` filed")
            (text "`remote_repo_url` must be string")
      target_branch_name ←
          text_member cfg (text "target_branch_name")
            (text "git-normal backend must have a `target_branch_name` filed")
            (text "`target_branch_name` must be string")
      inner ←
          map_err storage_backend_error
            (Git.new git net utf8 local_repo_path remote_repo_url target_branch_name)
      ok (Git.as_storage_backend git utf8 inner)

    unfoldable pub backend_of_type : Text → json.Value → Run FfiError StorageBackend
    unfolding filesystem_from_cfg git_from_cfg
    backend_of_type ty cfg =
        if text_eq ty (text "filesystem")
        then filesystem_from_cfg cfg
        else if text_eq ty (text "git-normal")
        then git_from_cfg cfg
        else err (create_backend_error (text "not supported backend type"))

    unfoldable pub build_storage_backend_from_cfg : json.Value → Run FfiError StorageBackend
    unfolding text_member backend_of_type
    build_storage_backend_from_cfg value = do
      cfg ← ok_or (json.as_object value) (text "cfg format error")
      ty ←
          text_member cfg (text "type") (text "must have a `type` filed for storage_backend")
            (text "`storage_backend` must be string")
      backend_of_type ty cfg
