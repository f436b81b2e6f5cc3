-- ===== src/Storage/Git/Tests.antt =====
-- Runs of the git backend (storage_backends/git/mod.rs), and witnesses.
use eafcc_core.Prelude.{◌≡◌, ◌≢◌, refl, sym, Bool, true, false, none, some, List, [], ◌∷◌}
use eafcc_core.Text.{Text, text, text_eq}
use eafcc_core.Text.Sample.{sample_utf8}
use eafcc_core.Error.{ForeignError, WalkDirError, git2_error, walk_dir_error}
use eafcc_core.Run.{Run, ok, err, ok-injective}
use eafcc_core.Model.{Bytes}
use eafcc_core.Storage.{VersionItem, DirItem, Called, failed}
use eafcc_core.Storage.Paths.{join, starts_with_slash, ends_with_slash}
use eafcc_core.Storage.Filesystem.{strip_root}
use eafcc_core.Storage.Git.Interface.{Git2, Network, Answer, go_on, skip, stop, broke}
use eafcc_core.Storage.Git.{
  GitBackendInner, on_entry, walk_start_point, walk_from, walk_dir, newest_of, move_branch,
  found_commit, after_commit, after_fetch, fetch_newest, sync_newest, probe, git_sync_local_branch,
  new, started, get_current_version, git_watcher, after_sync,
}
use eafcc_core.Storage.Git.Errors.{forgive, walk_dir-forgive}
use eafcc_core.Storage.Git.Sync.{git_sync_local_branch_idem}
use eafcc_core.Storage.Git.Watcher.{Changes, git_watcher-Changes, git_watcher-absent_ends}
use eafcc_core.Center.Events.{last_version}

abbrev Entry : Type 0
Entry = Text × Bool × Bytes

abbrev entries : List Entry
entries = (text "r", false, 1 ∷ []) ∷ (text "d", true, 2 ∷ []) ∷ (text "s", false, 3 ∷ []) ∷ []

module _ {S : Type 0} where
  abbrev after_entry : Answer S → (S → Run ForeignError S) → Run ForeignError S
  after_entry (go_on s) more = more s
  after_entry (skip s) more = more s
  after_entry (stop s) more = ok s
  after_entry broke more = Run.panicked

  abbrev walk_entries : List Entry → (Text → Entry → S → Answer S) → S → Run ForeignError S
  walk_entries [] cb s = ok s
  walk_entries (entry ∷ more) cb s = after_entry (cb [] entry s) (walk_entries more cb)

  module _ (P : S → Type 0) (cb : Text → Entry → S → Answer S)
      (goes : (path : Text) (entry : Entry) (a b : S) → P a → cb path entry a ≡ go_on b → P b)
      (skips : (path : Text) (entry : Entry) (a b : S) → P a → cb path entry a ≡ skip b → P b)
      (stops : (path : Text) (entry : Entry) (a b : S) → P a → cb path entry a ≡ stop b → P b) where
    pub walk_entries-keeps : (t : List Entry) (s s' : S) → P s → walk_entries t cb s ≡ ok s' → P s'
    walk_entries-keeps [] s s' p e = rw (← ok-injective e) p
    walk_entries-keeps (entry ∷ more) s s' p e =
        at (λ t. walk_entries-keeps more t s') (cb [] entry s) refl e
      where
        at :
            ((t : S) → P t → walk_entries more cb t ≡ ok s' → P s')
            → (a : Answer S) → cb [] entry s ≡ a
            → after_entry a (walk_entries more cb) ≡ ok s'
            → P s'
        at ih (go_on t) same e' = ih t (goes [] entry s t p same) e'
        at ih (skip t) same e' = ih t (skips [] entry s t p same) e'
        at ih (stop t) same e' = rw (← ok-injective e') (stops [] entry s t p same)
        at ih broke same e' = cc

abbrev no_id : ForeignError
no_id = record { message = text "an identifier is not empty" }

abbrev oid_of : Bytes → Run ForeignError Bytes
oid_of [] = err no_id
oid_of (b ∷ bs) = ok (b ∷ bs)

-- A repository is the commit of its branch; a commit is its identifier, and all have one tree.
abbrev pub git : Git2
git = record {
  Repo = Bytes;
  Oid = Bytes;
  Commit = Bytes;
  Tree = List Entry;
  Entry = Entry;
  oid_from_bytes = oid_of;
  oid_as_bytes = λ oid. oid;
  open_bare = λ path. ok (7 ∷ []);
  find_blob = λ repo oid. ok oid;
  find_commit = λ repo oid. ok oid;
  commit_id = λ commit. commit;
  message_bytes = λ commit. text "m";
  message = λ commit. some (text "m");
  tree = λ repo commit. ok entries;
  get_path = λ t path. ok (text "d", true, 2 ∷ []);
  object_as_tree = λ repo entry. ok (some entries);
  entry_name = λ entry. some entry.0;
  entry_id = λ entry. entry.2;
  entry_is_tree = λ entry. entry.1;
  walk = λ repo t cb s. walk_entries t cb s;
  find_branch = λ repo name. ok repo;
  find_remote = λ repo name. ok tt;
  branch = λ repo name commit. (commit, ok tt);
  find_commit-commit_id = λ repo oid commit e. sym (ok-injective e);
  walk-keeps =
      λ P repo t cb s s' goes skips stops p e. walk_entries-keeps P cb goes skips stops t s s' p e;
}

-- A remote whose branch `main` is at the commit.
abbrev pub remote_at : Bytes → Network git
remote_at oid = record {
  create_detached = λ url. ok tt;
  connect_auth = λ url. ok tt;
  list_heads = λ url. ok ((text "refs/heads/main", oid) ∷ []);
  clone_bare = λ url path. ok (7 ∷ []);
  fetch = λ repo name ref. (repo, ok tt);
}

abbrev pub inner : GitBackendInner git
inner = record {
  local_repo_path = text "/l";
  remote_repo_url = text "u";
  git_repo = 7 ∷ [];
  target_branch_name = text "main";
  cur_version = record { name = text "m"; id = 7 ∷ [] };
}

abbrev at_8 : VersionItem
at_8 = record { name = text "m"; id = 8 ∷ [] }

-- A callback that fails on every entry after it has noted its name.
abbrev noting : DirItem → List Text → Called (List Text)
noting item names =
    failed (item.abs_path ∷ names) (WalkDirError.storage_backend_error (git2_error no_id))

walk_test :
    walk_dir git inner at_8 (text "/rules") noting []
    ≡ ok (text "/rules/s" ∷ text "/rules/d" ∷ text "/rules/r" ∷ [])
unfolding walk_dir walk_start_point walk_from on_entry join starts_with_slash ends_with_slash
    strip_root text_eq
walk_test = refl

walk_dir-forgive_example :
    (walk_dir git inner at_8 (text "/rules") noting []
      ≡ walk_dir git inner at_8 (text "/rules") (λ item t. forgive (noting item t)) [])
    × ((e : WalkDirError)
        → walk_dir git inner at_8 (text "/rules") noting [] ≢ err (walk_dir_error e))
walk_dir-forgive_example = walk_dir-forgive git inner at_8 (text "/rules") noting []

sync_test :
    git_sync_local_branch git (remote_at (8 ∷ [])) (text "u") inner (text "main")
    ≡ (record inner { git_repo = 8 ∷ [] }, ok (some at_8))
unfolding git_sync_local_branch probe newest_of sync_newest fetch_newest after_fetch found_commit
    after_commit move_branch text_eq
sync_test = refl

new_test :
    new git (remote_at (8 ∷ [])) sample_utf8 (text "/l") (text "u") (text "main")
    ≡ ok (record inner { git_repo = 8 ∷ []; cur_version = at_8 })
unfolding new started get_current_version git_sync_local_branch probe newest_of sync_newest
    fetch_newest after_fetch found_commit after_commit move_branch text_eq
new_test = refl

git_sync_local_branch_idem_example :
    git_sync_local_branch git
      (remote_at (8 ∷ []))
      (text "u")
      (record inner { git_repo = 8 ∷ []; cur_version = at_8 })
      (text "main")
    ≡ (record inner { git_repo = 8 ∷ []; cur_version = at_8 }, ok none)
git_sync_local_branch_idem_example =
    git_sync_local_branch_idem git (remote_at (8 ∷ [])) (remote_at (8 ∷ [])) (text "u")
      (text "main") inner (record inner { git_repo = 8 ∷ [] }) at_8 sync_test refl

abbrev nets : List (Network git)
nets = remote_at (7 ∷ []) ∷ remote_at (8 ∷ []) ∷ remote_at (8 ∷ []) ∷ remote_at (9 ∷ []) ∷ []

watcher_test :
    (git_watcher git (text "u") (text "main") nets inner).1
    ≡ record { new_version = at_8 }
      ∷ record { new_version = record { name = text "m"; id = 9 ∷ [] } }
      ∷ []
unfolding git_watcher after_sync git_sync_local_branch probe newest_of sync_newest fetch_newest
    after_fetch found_commit after_commit move_branch text_eq
watcher_test = refl

git_watcher-Changes_example :
    Changes inner.cur_version (git_watcher git (text "u") (text "main") nets inner).1
    × ((git_watcher git (text "u") (text "main") nets inner).0.cur_version
        ≡ last_version inner.cur_version (git_watcher git (text "u") (text "main") nets inner).1)
git_watcher-Changes_example = git_watcher-Changes git (text "u") (text "main") nets inner

git_watcher-absent_ends_example :
    (git_watcher git (text "u") (text "other") (remote_at (8 ∷ []) ∷ nets) inner).1 ≡ []
unfolding probe
git_watcher-absent_ends_example =
    git_watcher-absent_ends git (remote_at (8 ∷ [])) nets (text "u") (text "other") inner
      ((text "refs/heads/main", 8 ∷ []) ∷ []) refl ((λ e. cc), tt) refl refl
