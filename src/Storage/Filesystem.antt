-- ===== src/Storage/Filesystem.antt =====
-- src/storage_backends/filesystem/mod.rs: the backend that keeps each version in a directory of its
-- own, and the version that counts in the file `head`. The file system is a parameter (`Fs`), as it
-- stands at the time of a call. A path is a text; of what a directory holds, which need not be
-- UTF-8, the model has what the code asks of it (`FsEntry`).
pub mod Reads
pub mod Isolation
pub mod Places
pub mod Watched
pub mod Tests
use eafcc_core.Prelude.{ℕ, Bool, true, false, Option, none, some, List, [], ◌∷◌, if◌then◌else◌, not}
use eafcc_core.Text.{Text, text}
use eafcc_core.Text.Utf8.{Utf8}
use eafcc_core.Text.Trim.{trim}
use eafcc_core.Error.{
  ForeignError, StorageBackendError, io_error, utf8_error, update_watching_error,
}
use eafcc_core.Run
use eafcc_core.Run.{Run, ok, err, map_err, ◌>>=◌}
use eafcc_core.Model.{Bytes, ObjectId}
use eafcc_core.Storage.{VersionItem, StorageChangeEvent, DirItem, StorageBackend}
use eafcc_core.Storage.Paths.{join, starts_with_slash, trim_left, trim_right}
use eafcc_core.Storage.Walk.Ends.{HasSize}
use eafcc_core.Storage.Walk.Default.{default_walk_dir}

-- A path that `fs::read_dir` found: its last component, whether it is a directory, and the whole of
-- it as a text, where it is UTF-8.
pub record FsEntry : Type 0 where
  pub file_name : Option Text
  pub is_dir : Bool
  pub to_str : Option Text

pub record Fs : Type 0 where
  pub read : Text → Run ForeignError Bytes
  pub read_dir : Text → Run ForeignError (List (Run ForeignError FsEntry))
  -- whether the path is a file, from its metadata
  pub is_file : Text → Run ForeignError Bool
  pub new_poll_watcher : Run ForeignError (Unit {0})
  pub watch : Text → Run ForeignError (Unit {0})

pub record FilesystemBackend : Type 0 where
  pub base_path : Text
  -- the field `watcher`: whether one is there, and whether its lock is poisoned
  pub has_watcher : Bool
  pub watcher_poisoned : Bool

-- `FilesystemBackend::new`.
unfoldable pub new : Text → FilesystemBackend
new base_path = record { base_path = base_path; has_watcher = false; watcher_poisoned = false }

-- An `io::Error` of the code's own.
abbrev pub invalid_path : StorageBackendError
invalid_path = io_error (record { message = text "invalid path" })

abbrev pub watching_error : StorageBackendError
watching_error = update_watching_error (text "error while setting up update watcher")

-- `path.strip_prefix("/")` of a path that begins with the root.
unfoldable pub strip_root : Text → Text
unfolding trim_left trim_right
strip_root path = trim_right (trim_left path)

module _ (utf8 : Utf8) where
  -- `get_versioned_path`.
  unfoldable pub get_versioned_path :
      FilesystemBackend → VersionItem → Text → Run StorageBackendError Text
  get_versioned_path backend version path = do
    id ← map_err utf8_error (utf8.from_utf8 version.id)
    let t = join backend.base_path id
    ok (if starts_with_slash path then join t (strip_root path) else join t path)

  -- `read_version_from_fs`.
  unfoldable pub read_version_from_fs : Fs → Text → Run StorageBackendError VersionItem
  unfolding trim
  read_version_from_fs fs path = do
    t ← map_err io_error (fs.read path)
    content ← map_err utf8_error (utf8.from_utf8 t)
    ok (record { name = trim content; id = utf8.as_bytes (trim content) })

  -- The item of a path that has a last component: its hash is the whole path.
  unfoldable pub item_of : Text → Text → FsEntry → Run StorageBackendError DirItem
  item_of path filename entry = elim entry.to_str [
    | none ↦ err invalid_path
    | some str ↦
        ok (record {
          abs_path = join path filename;
          is_dir = entry.is_dir;
          hash = utf8.as_bytes str;
        })
  ]

  -- The loop of `list_dir`: a path with no last component is passed over.
  unfoldable pub items_of :
      Text → List (Run ForeignError FsEntry) → Run StorageBackendError (List DirItem)
  items_of path [] = ok []
  items_of path (found ∷ others) = do
    entry ← map_err io_error found
    let rest = items_of path others
    elim entry.file_name [
      | none ↦ rest
      | some filename ↦ item_of path filename entry >>= λ item. rest >>= λ items. ok (item ∷ items)
    ]

  module _ (fs : Fs) (backend : FilesystemBackend) where
    unfoldable pub get_obj_by_hash : ObjectId → Run StorageBackendError Bytes
    get_obj_by_hash hash = do
      path ← map_err (λ _. invalid_path) (utf8.from_utf8 hash)
      map_err io_error (fs.read path)

    unfoldable pub list_dir : VersionItem → Text → Run StorageBackendError (List DirItem)
    unfolding get_versioned_path items_of
    list_dir version path = do
      real_fs_abs_path ← get_versioned_path backend version path
      entries ← map_err io_error (fs.read_dir real_fs_abs_path)
      items_of path entries

    -- Metadata that cannot be read count as no file.
    unfoldable pub get_hash_by_path : VersionItem → Text → Run StorageBackendError ObjectId
    unfolding get_versioned_path
    get_hash_by_path version path = do
      real ← get_versioned_path backend version path
      elim (fs.is_file real) [
        | Run.panicked ↦ Run.panicked
        | err e ↦ err (io_error (record { message = text "not exist or not a file" }))
        | ok file ↦
            if file
            then ok (utf8.as_bytes real)
            else err (io_error (record { message = text "not exist or not a file" }))
      ]

    -- `set_update_cb`, as far as the start of the thread that runs `eafcc_watcher`.
    unfoldable pub set_update_cb : FilesystemBackend × Run StorageBackendError (Unit {0})
    set_update_cb =
        elim (map_err (λ _. watching_error) fs.new_poll_watcher >>= λ _.
        map_err (λ _. watching_error) (fs.watch (join backend.base_path (text "head")))) [
          | Run.panicked ↦ (backend, Run.panicked)
          | err e ↦ (backend, err e)
          | ok _ ↦
              if backend.watcher_poisoned
              then (backend, err watching_error)
              else (record backend { has_watcher = true }, ok tt)
        ]

    unfoldable pub get_diff_list :
        VersionItem → VersionItem → Text → Run StorageBackendError (List Text)
    get_diff_list old_version new_version namespace = ok []

    unfoldable pub get_current_version : Run StorageBackendError VersionItem
    unfolding read_version_from_fs
    get_current_version = read_version_from_fs fs (join backend.base_path (text "head"))

    -- The trees of directories that `list_dir` lists are finite: how many directories are below a path.
    pub record FiniteTrees : Type 0 where
      pub size : VersionItem → Text → ℕ
      pub finite :
          (version : VersionItem) (path : Text)
          → HasSize (list_dir version) path (size version path)

    -- The backend as the rest of the code has it: it walks by the default `walk_dir`.
    unfoldable pub as_storage_backend : FiniteTrees → StorageBackend
    unfolding default_walk_dir
    as_storage_backend trees = record {
      get_obj_by_hash = get_obj_by_hash;
      walk_dir = λ version path cb s.
          default_walk_dir
            (record { list_dir = list_dir; size = trees.size; finite = trees.finite }) version path
            cb s;
      get_diff_list = get_diff_list;
      get_current_version = get_current_version;
      set_update_cb = set_update_cb.1;
    }

-- `notify::DebouncedEvent`.
pub data DebouncedEvent : Type 0 where
  notice_write notice_remove create write chmod remove rename rescan error : DebouncedEvent

-- The events that `eafcc_watcher` does not pass over.
abbrev pub is_handled : DebouncedEvent → Bool
is_handled notice_write = false
is_handled notice_remove = false
is_handled create = true
is_handled write = true
is_handled chmod = true
is_handled remove = true
is_handled rename = true
is_handled rescan = true
is_handled error = false

-- One round of the loop of `eafcc_watcher`: what `rx.recv()` gives (`none`: an error, which is only
-- printed), and the file system after it.
pub record Tick : Type 0 where
  pub received : Option DebouncedEvent
  pub fs : Fs

module _ (utf8 : Utf8) (path : Text) where
  -- The call of the callback after a read of the version; a panic ends the thread.
  unfoldable pub called_with :
      Run StorageBackendError VersionItem → List StorageChangeEvent → List StorageChangeEvent
  called_with Run.panicked rest = []
  called_with (err e) rest = rest
  called_with (ok new_version) rest = record { new_version = new_version } ∷ rest

  -- The calls of `cb` that `eafcc_watcher` makes in these rounds.
  unfoldable pub eafcc_watcher : List Tick → List StorageChangeEvent
  unfolding called_with
  eafcc_watcher [] = []
  eafcc_watcher (tick ∷ ticks) =
      let rest = eafcc_watcher ticks in
      elim tick.received [
        | none ↦ rest
        | some event ↦
            if is_handled event
            then called_with (read_version_from_fs utf8 tick.fs path) rest
            else rest
      ]
