-- ===== src/Storage.antt =====
-- src/storage_backends/mod.rs: the trait of the storage backends, and paths as std treats them.
pub mod Paths
pub mod Walk
pub mod Filesystem
pub mod Git
use eafcc_core.Prelude.{◌≡◌, Bool, List}
use eafcc_core.Text.{Text}
use eafcc_core.Error.{StorageBackendError, WalkDirError}
use eafcc_core.Run.{Run, ok}
use eafcc_core.Model.{Bytes, ObjectId}

pub record VersionItem : Type 0 where
  pub name : Text
  pub id : ObjectId

pub record StorageChangeEvent : Type 0 where
  pub new_version : VersionItem

pub record DirItem : Type 0 where
  pub abs_path : Text
  pub is_dir : Bool
  pub hash : ObjectId

pub data WalkRetCtl : Type 0 where
  next skip_current_node stop_walking : WalkRetCtl

-- What the callback of a walk does: it leaves its captured state `S` changed and returns, with a
-- direction or an error, or it panics.
pub data Called (S : Type 0) : Type 0 where
  returned : S → WalkRetCtl → Called S
  failed : S → WalkDirError → Called S
  panicked : Called S

-- The methods of the trait that the rest of the code calls. `walk_dir` gives the callback's final
-- state; with an error that state is dropped, as every caller drops it.
pub record StorageBackend : Type 1 where
  pub get_obj_by_hash : ObjectId → Run StorageBackendError Bytes
  pub walk_dir :
      {S : Type 0} → VersionItem → Text → (DirItem → S → Called S) → S → Run StorageBackendError S
  pub get_diff_list : VersionItem → VersionItem → Text → Run StorageBackendError (List Text)
  pub get_current_version : Run StorageBackendError VersionItem
  -- whether the watcher of `set_update_cb` could be set up
  pub set_update_cb : Run StorageBackendError (Unit {0})

-- A walk changes the state of its callback by calls of the callback alone: what all calls keep,
-- the walk keeps.
pub record CallsOnly (backend : StorageBackend) : Type 1 where
  pub keeps :
      {S : Type 0} (P : S → Type 0) (version : VersionItem) (path : Text)
      (cb : DirItem → S → Called S) (s s' : S)
      → ((item : DirItem) (t t' : S) (ctl : WalkRetCtl) → P t → cb item t ≡ returned t' ctl → P t')
      → ((item : DirItem) (t t' : S) (e : WalkDirError) → P t → cb item t ≡ failed t' e → P t')
      → P s
      → backend.walk_dir version path cb s ≡ ok s'
      → P s'
