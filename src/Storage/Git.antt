-- ===== src/Storage/Git.antt =====
-- src/storage_backends/git/mod.rs: the backend that follows a branch of a remote repository. The
-- locks of parking_lot are never poisoned, so they leave no trace in the state.
pub mod Interface
pub mod Errors
pub mod Sync
pub mod Watcher
pub mod Tests
use eafcc_core.Prelude.{
  Bool, true, false, ◌&&◌, Option, none, some, List, [], ◌∷◌, ◌++◌, if◌then◌else◌, not,
}
use eafcc_core.Text.{Text, text, text_eq}
use eafcc_core.Text.Utf8.{Utf8}
use eafcc_core.Error.{
  ForeignError, StorageBackendError, WalkDirError, git2_error, utf8_error, io_error,
}
use eafcc_core.Run
use eafcc_core.Run.{Run, ok, err, map_err, ◌>>=◌}
use eafcc_core.Model.{Bytes, ObjectId}
use eafcc_core.Storage
use eafcc_core.Storage.{
  VersionItem, StorageChangeEvent, DirItem, StorageBackend, Called, returned, failed, next,
  skip_current_node, stop_walking,
}
use eafcc_core.Storage.Paths.{join, starts_with_slash, trim_left}
use eafcc_core.Storage.Filesystem.{strip_root}
use Interface.{Git2, Network, Answer, go_on, skip, stop, broke}

module _ (git : Git2) where
  open git use {Repo, Oid, Commit, Tree, Entry}

  pub record GitBackendInner : Type 0 where
    pub local_repo_path : Text
    pub remote_repo_url : Text
    pub git_repo : Repo
    pub target_branch_name : Text
    pub cur_version : VersionItem

  -- What the closure of `walk_dir` makes of its callback's answer: an error goes on.
  abbrev pub answer : {S : Type 0} → Called S → Answer S
  answer (returned s next) = go_on s
  answer (returned s skip_current_node) = skip s
  answer (returned s stop_walking) = stop s
  answer (failed s e) = go_on s
  answer Storage.panicked = broke

  unfoldable pub on_entry :
      {S : Type 0} → Text → (DirItem → S → Called S) → Text → Entry → S → Answer S
  on_entry path cb root_rel_path entry s = elim (git.entry_name entry) [
    | none ↦ go_on s
    | some filename ↦ answer (
        cb
          (record {
            abs_path = join (join path root_rel_path) filename;
            is_dir = git.entry_is_tree entry;
            hash = git.oid_as_bytes (git.entry_id entry);
          })
          s)
  ]

  -- `path == Path::new("/")`.
  abbrev pub is_root : Text → Bool
  is_root path = starts_with_slash path && text_eq (trim_left path) []

  -- Where the walk starts, if it is a directory.
  unfoldable pub walk_start_point : Repo → Tree → Text → Run ForeignError (Option Tree)
  walk_start_point repo root_tree path =
      if is_root path
      then ok (some root_tree)
      else git.get_path root_tree (if starts_with_slash path then strip_root path else path)
        >>= λ entry. git.object_as_tree repo entry

  unfoldable pub walk_from :
      {S : Type 0} → Repo → Text → (DirItem → S → Called S) → S → Option Tree → Run ForeignError S
  unfolding on_entry
  walk_from repo path cb s none = ok s
  walk_from repo path cb s (some t) = git.walk repo t (on_entry path cb) s

  unfoldable pub walk_dir :
      {S : Type 0}
      → GitBackendInner
      → VersionItem
      → Text
      → (DirItem → S → Called S)
      → S
      → Run StorageBackendError S
  walk_dir inner version path cb s = map_err git2_error (
      git.oid_from_bytes version.id >>= λ oid. git.find_commit inner.git_repo oid >>= λ commit.
      git.tree inner.git_repo commit >>= λ root_tree.
      walk_start_point inner.git_repo root_tree path >>= λ start.
      walk_from inner.git_repo path cb s start)

  unfoldable pub get_obj_by_hash : GitBackendInner → ObjectId → Run StorageBackendError Bytes
  get_obj_by_hash inner hash =
      map_err git2_error (git.oid_from_bytes hash >>= λ oid. git.find_blob inner.git_repo oid)

  unfoldable pub list_dir :
      GitBackendInner → VersionItem → Text → Run StorageBackendError (List DirItem)
  list_dir inner version path = ok []

  unfoldable pub get_hash_by_path :
      GitBackendInner → VersionItem → Text → Run StorageBackendError ObjectId
  get_hash_by_path inner version path =
      err (io_error (record { message = text "not exist or not a file" }))

  unfoldable pub get_diff_list :
      GitBackendInner → VersionItem → VersionItem → Text → Run StorageBackendError (List Text)
  get_diff_list inner old_version new_version namespace = ok []

  unfoldable pub get_current_version : Utf8 → GitBackendInner → Run StorageBackendError VersionItem
  get_current_version utf8 inner = do
    commit ← map_err git2_error (git.find_branch inner.git_repo inner.target_branch_name)
    name ← map_err utf8_error (utf8.from_utf8 (git.message_bytes commit))
    ok (record { name = name; id = git.oid_as_bytes (git.commit_id commit) })

  -- The backend as the rest of the code has it; the thread of `set_update_cb` is `git_watcher`.
  unfoldable pub as_storage_backend : Utf8 → GitBackendInner → StorageBackend
  as_storage_backend utf8 inner = record {
    get_obj_by_hash = get_obj_by_hash inner;
    walk_dir = λ version path cb s. walk_dir inner version path cb s;
    get_diff_list = get_diff_list inner;
    get_current_version = get_current_version utf8 inner;
    set_update_cb = ok tt;
  }

  -- What the loop over the heads of the remote finds.
  pub data Newest : Type 0 where
    up_to_date : Newest
    newest : Oid → Newest
    absent : Newest

  unfoldable pub newest_of : Text → ObjectId → List (Text × Oid) → Newest
  newest_of name cur_id [] = absent
  newest_of name cur_id ((head_name, oid) ∷ heads) =
      let rest = newest_of name cur_id heads in
      if text_eq head_name name
      then (if text_eq (git.oid_as_bytes oid) cur_id then up_to_date else newest oid)
      else rest

  abbrev pub refspec : Text → Text
  refspec branch_name = text "refs/heads/" ++ branch_name

  -- The version of a commit.
  abbrev pub version_of : Commit → VersionItem
  version_of commit = record {
    name = elim (git.message commit) [ none ↦ [] | some m ↦ m ];
    id = git.oid_as_bytes (git.commit_id commit);
  }

  -- The branch is set to the commit.
  unfoldable pub move_branch :
      GitBackendInner → Commit → GitBackendInner × Run StorageBackendError (Option VersionItem)
  move_branch inner commit =
      let (repo, set) = git.branch inner.git_repo inner.target_branch_name commit in
      (
        record inner { git_repo = repo },
        map_err git2_error set >>= λ _. ok (some (version_of commit)),
      )

  -- The newest commit, once it is fetched: `unwrap` panics where the remote has no such branch.
  unfoldable pub found_commit : GitBackendInner → Newest → Run ForeignError Commit
  found_commit inner up_to_date = Run.panicked
  found_commit inner absent = Run.panicked
  found_commit inner (newest oid) = git.find_commit inner.git_repo oid

  unfoldable pub after_commit :
      GitBackendInner
      → Run ForeignError Commit
      → GitBackendInner × Run StorageBackendError (Option VersionItem)
  unfolding move_branch
  after_commit inner Run.panicked = (inner, Run.panicked)
  after_commit inner (err e) = (inner, err (git2_error e))
  after_commit inner (ok commit) = move_branch inner commit

  unfoldable pub after_fetch :
      GitBackendInner
      → Newest
      → Run ForeignError (Unit {0})
      → GitBackendInner × Run StorageBackendError (Option VersionItem)
  unfolding after_commit found_commit
  after_fetch inner n Run.panicked = (inner, Run.panicked)
  after_fetch inner n (err e) = (inner, err (git2_error e))
  after_fetch inner n (ok _) = after_commit inner (found_commit inner n)

  module _ (net : Network git) where
    -- From the remote `origin` on.
    unfoldable pub fetch_newest :
        GitBackendInner
        → Text
        → Newest
        → Run ForeignError (Unit {0})
        → GitBackendInner × Run StorageBackendError (Option VersionItem)
    unfolding after_fetch
    fetch_newest inner name n Run.panicked = (inner, Run.panicked)
    fetch_newest inner name n (err e) = (inner, err (git2_error e))
    fetch_newest inner name n (ok _) =
        let (repo, fetched) = net.fetch inner.git_repo (text "origin") name in
        after_fetch (record inner { git_repo = repo }) n fetched

    -- What follows from the heads of the remote.
    unfoldable pub sync_newest :
        GitBackendInner
        → Text
        → Newest
        → GitBackendInner × Run StorageBackendError (Option VersionItem)
    unfolding fetch_newest
    sync_newest inner name up_to_date = (inner, ok none)
    sync_newest inner name (newest oid) =
        fetch_newest inner name (newest oid) (git.find_remote inner.git_repo (text "origin"))
    sync_newest inner name absent =
        fetch_newest inner name absent (git.find_remote inner.git_repo (text "origin"))

    -- The heads of the remote, by a client of its own.
    unfoldable pub probe : Text → Run ForeignError (List (Text × Oid))
    probe remote_repo_url = net.create_detached remote_repo_url >>= λ _.
        net.connect_auth remote_repo_url >>= λ _. net.list_heads remote_repo_url

    -- `git_sync_local_branch`.
    unfoldable pub git_sync_local_branch :
        Text
        → GitBackendInner
        → Text
        → GitBackendInner × Run StorageBackendError (Option VersionItem)
    git_sync_local_branch remote_repo_url inner branch_name = elim (probe remote_repo_url) [
      | Run.panicked ↦ (inner, Run.panicked)
      | err e ↦ (inner, err (git2_error e))
      | ok remote_heads ↦
          sync_newest inner (refspec branch_name)
            (newest_of (refspec branch_name) inner.cur_version.id remote_heads)
    ]

    -- `GitBackend::new`, once there is a repository.
    unfoldable pub started :
        Utf8
        → GitBackendInner × Run StorageBackendError (Option VersionItem)
        → Run StorageBackendError GitBackendInner
    started utf8 (inner, synced) = synced >>= λ _. get_current_version utf8 inner >>= λ cur_version.
        ok (record inner { cur_version = cur_version })

    -- `GitBackend::new`: a repository that cannot be opened is cloned.
    unfoldable pub new : Utf8 → Text → Text → Text → Run StorageBackendError GitBackendInner
    unfolding started
    new utf8 local_repo_path remote_repo_url target_branch_name = do
      git_repo ← elim (git.open_bare local_repo_path) [
        | Run.panicked ↦ Run.panicked
        | err e ↦ map_err git2_error (net.clone_bare remote_repo_url local_repo_path)
        | ok t ↦ ok t
      ]
      started utf8 (
          git_sync_local_branch remote_repo_url
            (record {
              local_repo_path = local_repo_path;
              remote_repo_url = remote_repo_url;
              git_repo = git_repo;
              target_branch_name = target_branch_name;
              cur_version = record { name = []; id = [] };
            })
            target_branch_name)

  -- A round of the loop of `git_watcher`, after `git_sync_local_branch`. The callback comes before
  -- the version is written. A panic ends the thread.
  unfoldable pub after_sync :
      (GitBackendInner → GitBackendInner × List StorageChangeEvent)
      → GitBackendInner × Run StorageBackendError (Option VersionItem)
      → GitBackendInner × List StorageChangeEvent
  after_sync go (inner, Run.panicked) = (inner, [])
  after_sync go (inner, err e) = go inner
  after_sync go (inner, ok none) = go inner
  after_sync go (inner, ok (some new_version)) =
      let (inner', calls) = go (record inner { cur_version = new_version }) in
      (inner', record { new_version = new_version } ∷ calls)

  -- `git_watcher` over the rounds in which the remote answers so, with the calls of `cb`.
  unfoldable pub git_watcher :
      Text → Text → List (Network git) → GitBackendInner → GitBackendInner × List StorageChangeEvent
  unfolding after_sync
  git_watcher remote_repo_url branch_name [] inner = (inner, [])
  git_watcher remote_repo_url branch_name (net ∷ nets) inner =
      after_sync (git_watcher remote_repo_url branch_name nets)
        (git_sync_local_branch net remote_repo_url inner branch_name)
