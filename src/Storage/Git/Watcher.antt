-- ===== src/Storage/Git/Watcher.antt =====
-- What the watcher of the git backend tells (storage_backends/git/mod.rs, `git_watcher`).
use eafcc_core.Prelude.{◌≡◌, ◌≢◌, refl, ap, sym, ◌∙◌, false, none, some, List, [], ◌∷◌, All, arith}
use eafcc_core.Text.{Text, text, text_eq, text_eq_iff}
use eafcc_core.Run.{Run, ok, err}
use eafcc_core.Model.{ObjectId}
use eafcc_core.Storage.{VersionItem, StorageChangeEvent}
use eafcc_core.Center.Events.{last_version}
use eafcc_core.Storage.Git.Interface.{Git2, Network}
use eafcc_core.Storage.Git.{
  GitBackendInner, absent, newest_of, refspec, found_commit, after_commit, after_fetch,
  fetch_newest, sync_newest, probe, git_sync_local_branch, after_sync, git_watcher,
}
use eafcc_core.Storage.Git.Sync.{
  Synced, Brings, newest_of-newest, sync-ok, sync-heads, sync-cur_version,
}

-- Each version differs from the one before it.
abbrev pub Changes : VersionItem → List StorageChangeEvent → Type 0
Changes version [] = Unit
Changes version (e ∷ events) = (e.new_version.id ≢ version.id) × Changes e.new_version events

module _ (git : Git2) where
  open git use {Oid}

  after_sync-Changes :
      (go : GitBackendInner git → GitBackendInner git × List StorageChangeEvent) (cur : VersionItem)
      (s : Synced git)
      → s.0.cur_version ≡ cur
      → Brings git s (λ v. v.id ≢ cur.id)
      → ((inner : GitBackendInner git)
          → Changes inner.cur_version (go inner).1
            × ((go inner).0.cur_version ≡ last_version inner.cur_version (go inner).1))
      → Changes cur (after_sync git go s).1
        × ((after_sync git go s).0.cur_version ≡ last_version cur (after_sync git go s).1)
  unfolding after_sync
  after_sync-Changes go cur (inner, Run.panicked) same new ih = (tt, same)
  after_sync-Changes go cur (inner, err e) same new ih = rw (← same) (ih inner)
  after_sync-Changes go cur (inner, ok none) same new ih = rw (← same) (ih inner)
  after_sync-Changes go cur (inner, ok (some v)) same new ih =
      let (later, last) = ih (record inner { cur_version = v }) in ((new v refl, later), last)

  -- Whatever the remote answers over time, every version that the watcher tells differs in its
  -- commit from the one before it, and the version that the backend notes is the last one told.
  pub git_watcher-Changes :
      (url branch : Text) (nets : List (Network git)) (inner : GitBackendInner git)
      → Changes inner.cur_version (git_watcher git url branch nets inner).1
        × ((git_watcher git url branch nets inner).0.cur_version
            ≡ last_version inner.cur_version (git_watcher git url branch nets inner).1)
  unfolding git_watcher
  git_watcher-Changes url branch [] inner = (tt, refl)
  git_watcher-Changes url branch (net ∷ nets) inner =
      after_sync-Changes (git_watcher git url branch nets) inner.cur_version
        (git_sync_local_branch git net url inner branch) (sync-cur_version git net url branch inner)
        (λ v h.
          let (heads, oid, seen, n, id) = sync-heads git net url branch inner v h in
          λ k.
            (newest_of-newest git (refspec git branch) inner.cur_version.id heads oid n).1
              (sym id ∙ k))
        (git_watcher-Changes url branch nets)

  newest_of-absent :
      (name : Text) (cur_id : ObjectId) (heads : List (Text × Oid))
      → All (λ (head : Text × Oid). head.0 ≢ name) heads
      → newest_of git name cur_id heads ≡ absent
  unfolding newest_of
  newest_of-absent name cur_id [] h = refl
  newest_of-absent name cur_id ((head_name, oid) ∷ heads) h =
      let other : text_eq head_name name ≡ false =
        ground (arith, text_eq_iff head_name name, h.0) in
      rw other (newest_of-absent name cur_id heads h.1)

  sync_newest-absent :
      (net : Network git) (inner : GitBackendInner git) (name : Text)
      → git.find_remote inner.git_repo (text "origin") ≡ ok tt
      → (net.fetch inner.git_repo (text "origin") name).1 ≡ ok tt
      → (sync_newest git net inner name absent).1 ≡ Run.panicked
  unfolding sync_newest fetch_newest after_fetch found_commit after_commit
  sync_newest-absent net inner name remote fetched = rw (remote, fetched)

  after_sync-panicked :
      (go : GitBackendInner git → GitBackendInner git × List StorageChangeEvent) (s : Synced git)
      → s.1 ≡ Run.panicked
      → (after_sync git go s).1 ≡ []
  unfolding after_sync
  after_sync-panicked go (inner, Run.panicked) e = refl
  after_sync-panicked go (inner, err x) e = cc
  after_sync-panicked go (inner, ok x) e = cc

  -- If the remote answers and has no head of the branch, and the fetch from `origin` succeeds
  -- nevertheless, the `unwrap` of the newest commit panics: the watcher ends there, and no later
  -- version is told, whatever the remote answers afterwards.
  pub git_watcher-absent_ends :
      (net : Network git) (nets : List (Network git)) (url branch : Text)
      (inner : GitBackendInner git) (heads : List (Text × Oid))
      → probe git net url ≡ ok heads
      → All (λ (head : Text × Oid). head.0 ≢ refspec git branch) heads
      → git.find_remote inner.git_repo (text "origin") ≡ ok tt
      → (net.fetch inner.git_repo (text "origin") (refspec git branch)).1 ≡ ok tt
      → (git_watcher git url branch (net ∷ nets) inner).1 ≡ []
  unfolding git_watcher after_sync
  git_watcher-absent_ends net nets url branch inner heads seen missing remote fetched =
      ap (λ s. (after_sync git (git_watcher git url branch nets) s).1)
        (sync-ok git net url branch inner heads seen
          ∙ ap (sync_newest git net inner (refspec git branch))
              (newest_of-absent (refspec git branch) inner.cur_version.id heads missing))
      ∙ after_sync-panicked (git_watcher git url branch nets) _
          (sync_newest-absent net inner (refspec git branch) remote fetched)
