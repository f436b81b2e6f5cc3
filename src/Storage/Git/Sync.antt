-- ===== src/Storage/Git/Sync.antt =====
-- How the git backend follows its branch (storage_backends/git/mod.rs, `git_sync_local_branch` and
-- `git_watcher`).
use eafcc_core.Prelude.{
  ◌≡◌, ◌≢◌, refl, ap, ◌∙◌, Option, none, some, List, [], ◌∷◌, Bool-cases, inl, inr,
}
use eafcc_core.Text.{Text, text_eq, text_eq_refl}
use eafcc_core.Error.{ForeignError, StorageBackendError, git2_error}
use eafcc_core.Run.{Run, ok, err, map_err, ◌>>=◌}
use eafcc_core.Model.{ObjectId}
use eafcc_core.Storage.{VersionItem}
use eafcc_core.Storage.Git.Interface.{Git2, Network}
use eafcc_core.Storage.Git.{
  GitBackendInner, Newest, up_to_date, newest, absent, newest_of, refspec, version_of, move_branch,
  found_commit, after_commit, after_fetch, fetch_newest, sync_newest, probe, git_sync_local_branch,
}

module _ (git : Git2) where
  open git use {Repo, Oid, Commit}

  abbrev pub Synced : Type 0
  Synced = GitBackendInner git × Run StorageBackendError (Option VersionItem)

  newest_is : {o oid : Oid} → ◌≡◌ {A = Newest git} (newest o) (newest oid) → o ≡ oid
  newest_is e = cc

  -- What the newest commit says when it is known already.
  pub newest_of-newest :
      (name : Text) (cur_id : ObjectId) (heads : List (Text × Oid)) (oid : Oid)
      → newest_of git name cur_id heads ≡ newest oid
      → (newest_of git name (git.oid_as_bytes oid) heads ≡ up_to_date)
        × (git.oid_as_bytes oid ≢ cur_id)
  unfolding newest_of
  newest_of-newest name cur_id [] oid h = cc
  newest_of-newest name cur_id ((head_name, o) ∷ heads) oid h =
      elim (Bool-cases (text_eq head_name name)) [
        | inr other ↦ rw other (newest_of-newest name cur_id heads oid (rw other at h))
        | inl same ↦ elim (Bool-cases (text_eq (git.oid_as_bytes o) cur_id)) [
          | inl known ↦ cc (rw (same, known) at h)
          | inr fresh ↦
              let e : newest o ≡ newest oid = rw (same, fresh) at h in
              (
                rw (same, newest_is e, text_eq_refl (git.oid_as_bytes oid)),
                λ k. cc (fresh, newest_is e, text_eq_refl cur_id, k),
              )
        ]
      ]

  -- The outcome of a synchronisation that brings a version: `Q` holds of it.
  abbrev pub Brings : Synced → (VersionItem → Type 0) → Type 0
  Brings (inner, r) Q = (v : VersionItem) → r ≡ ok (some v) → Q v

  move_branch-version :
      (inner : GitBackendInner git) (commit : Commit) (v : VersionItem)
      → (move_branch git inner commit).1 ≡ ok (some v)
      → v ≡ version_of git commit
  unfolding move_branch
  move_branch-version inner commit v h =
      at (git.branch inner.git_repo inner.target_branch_name commit).1 h
    where
      at :
          (r : Run ForeignError (Unit {0}))
          → (map_err git2_error r >>= λ _. ok (some (version_of git commit))) ≡ ok (some v)
          → v ≡ version_of git commit
      at Run.panicked h' = cc
      at (err e) h' = cc
      at (ok x) h' = cc

  after_commit-id :
      (inner : GitBackendInner git) (r : Run ForeignError Commit) (v : VersionItem)
      → (after_commit git inner r).1 ≡ ok (some v)
      → (commit : Commit) × (r ≡ ok commit) × (v.id ≡ git.oid_as_bytes (git.commit_id commit))
  unfolding after_commit
  after_commit-id inner Run.panicked v h = cc
  after_commit-id inner (err e) v h = cc
  after_commit-id inner (ok commit) v h =
      (commit, refl, ap (λ (w : VersionItem). w.id) (move_branch-version inner commit v h))

  after_fetch-id :
      (inner : GitBackendInner git) (n : Newest git) (r : Run ForeignError (Unit {0}))
      (v : VersionItem)
      → (after_fetch git inner n r).1 ≡ ok (some v)
      → (oid : Oid) × (n ≡ newest oid) × (v.id ≡ git.oid_as_bytes oid)
  unfolding after_fetch found_commit
  after_fetch-id inner n Run.panicked v h = cc
  after_fetch-id inner n (err e) v h = cc
  after_fetch-id inner up_to_date (ok x) v h = cc
  after_fetch-id inner absent (ok x) v h = cc
  after_fetch-id inner (newest oid) (ok x) v h =
      let (commit, found, id) = after_commit-id inner (git.find_commit inner.git_repo oid) v h in
      (
        oid,
        refl,
        id ∙ ap git.oid_as_bytes (git.find_commit-commit_id inner.git_repo oid commit found),
      )

  module _ (net : Network git) where
    fetch_newest-id :
        (inner : GitBackendInner git) (name : Text) (n : Newest git)
        (r : Run ForeignError (Unit {0})) (v : VersionItem)
        → (fetch_newest git net inner name n r).1 ≡ ok (some v)
        → (oid : Oid) × (n ≡ newest oid) × (v.id ≡ git.oid_as_bytes oid)
    unfolding fetch_newest
    fetch_newest-id inner name n Run.panicked v h = cc
    fetch_newest-id inner name n (err e) v h = cc
    fetch_newest-id inner name n (ok x) v h = after_fetch-id _ n _ v h

    sync_newest-id :
        (inner : GitBackendInner git) (name : Text) (n : Newest git) (v : VersionItem)
        → (sync_newest git net inner name n).1 ≡ ok (some v)
        → (oid : Oid) × (n ≡ newest oid) × (v.id ≡ git.oid_as_bytes oid)
    unfolding sync_newest
    sync_newest-id inner name up_to_date v h = cc
    sync_newest-id inner name (newest oid) v h = fetch_newest-id inner name (newest oid) _ v h
    sync_newest-id inner name absent v h = fetch_newest-id inner name absent _ v h

    pub sync-ok :
        (url branch : Text) (inner : GitBackendInner git) (heads : List (Text × Oid))
        → probe git net url ≡ ok heads
        → git_sync_local_branch git net url inner branch
          ≡ sync_newest git net inner
              (refspec git branch)
              (newest_of git (refspec git branch) inner.cur_version.id heads)
    unfolding git_sync_local_branch
    sync-ok url branch inner heads e = rw (e, git_sync_local_branch)

    -- The heads that a synchronisation with a version has seen.
    pub sync-heads :
        (url branch : Text) (inner : GitBackendInner git) (v : VersionItem)
        → (git_sync_local_branch git net url inner branch).1 ≡ ok (some v)
        → (heads : List (Text × Oid)) × (oid : Oid) × (probe git net url ≡ ok heads)
          × (newest_of git (refspec git branch) inner.cur_version.id heads ≡ newest oid)
          × (v.id ≡ git.oid_as_bytes oid)
    unfolding git_sync_local_branch
    sync-heads url branch inner v h = at (probe git net url) refl h
      where
        at :
            (r : Run ForeignError (List (Text × Oid)))
            → probe git net url ≡ r
            → (let s : Synced = elim r [
              | Run.panicked ↦ (inner, Run.panicked)
              | err e ↦ (inner, err (git2_error e))
              | ok remote_heads ↦
                  sync_newest git net inner
                    (refspec git branch)
                    (newest_of git (refspec git branch) inner.cur_version.id remote_heads)
            ] in
                s.1)
              ≡ ok (some v)
            → (heads : List (Text × Oid)) × (oid : Oid) × (probe git net url ≡ ok heads)
              × (newest_of git (refspec git branch) inner.cur_version.id heads ≡ newest oid)
              × (v.id ≡ git.oid_as_bytes oid)
        at Run.panicked e h' = cc
        at (err x) e h' = cc
        at (ok heads) e h' =
            let (oid, n, id) = sync_newest-id inner (refspec git branch) _ v h' in
            (heads, oid, e, n, id)

  -- Once a synchronisation has brought a version and that version is noted, another one does nothing
  -- for as long as the remote answers the same: no fetch, no version, and the state is as it was.
  pub git_sync_local_branch_idem :
      (net net' : Network git) (url branch : Text) (inner after : GitBackendInner git)
      (v : VersionItem)
      → git_sync_local_branch git net url inner branch ≡ (after, ok (some v))
      → probe git net' url ≡ probe git net url
      → git_sync_local_branch git net' url (record after { cur_version = v }) branch
        ≡ (record after { cur_version = v }, ok none)
  unfolding sync_newest
  git_sync_local_branch_idem net net' url branch inner after v h same =
      let noted : GitBackendInner git = record after { cur_version = v } in
      let (heads, oid, seen, n, id) =
        sync-heads net url branch inner v (ap (λ (s : Synced). s.1) h) in
      let known = (newest_of-newest (refspec git branch) inner.cur_version.id heads oid n).0 in
      sync-ok net' url branch noted heads (same ∙ seen)
      ∙ ap (sync_newest git net' noted (refspec git branch))
          (ap (λ k. newest_of git (refspec git branch) k heads) id ∙ known)

  move_branch-cur_version :
      (inner : GitBackendInner git) (commit : Commit)
      → (move_branch git inner commit).0.cur_version ≡ inner.cur_version
  unfolding move_branch
  move_branch-cur_version inner commit = refl

  after_commit-cur_version :
      (inner : GitBackendInner git) (r : Run ForeignError Commit)
      → (after_commit git inner r).0.cur_version ≡ inner.cur_version
  unfolding after_commit
  after_commit-cur_version inner Run.panicked = refl
  after_commit-cur_version inner (err e) = refl
  after_commit-cur_version inner (ok commit) = move_branch-cur_version inner commit

  after_fetch-cur_version :
      (inner : GitBackendInner git) (n : Newest git) (r : Run ForeignError (Unit {0}))
      → (after_fetch git inner n r).0.cur_version ≡ inner.cur_version
  unfolding after_fetch
  after_fetch-cur_version inner n Run.panicked = refl
  after_fetch-cur_version inner n (err e) = refl
  after_fetch-cur_version inner n (ok x) = after_commit-cur_version inner (found_commit git inner n)

  fetch_newest-cur_version :
      (net : Network git) (inner : GitBackendInner git) (name : Text) (n : Newest git)
      (r : Run ForeignError (Unit {0}))
      → (fetch_newest git net inner name n r).0.cur_version ≡ inner.cur_version
  unfolding fetch_newest
  fetch_newest-cur_version net inner name n Run.panicked = refl
  fetch_newest-cur_version net inner name n (err e) = refl
  fetch_newest-cur_version net inner name n (ok x) = after_fetch-cur_version _ n _

  sync_newest-cur_version :
      (net : Network git) (inner : GitBackendInner git) (name : Text) (n : Newest git)
      → (sync_newest git net inner name n).0.cur_version ≡ inner.cur_version
  unfolding sync_newest
  sync_newest-cur_version net inner name up_to_date = refl
  sync_newest-cur_version net inner name (newest oid) =
      fetch_newest-cur_version net inner name (newest oid) _
  sync_newest-cur_version net inner name absent = fetch_newest-cur_version net inner name absent _

  -- Neither the fetch nor the branch changes the noted version.
  pub sync-cur_version :
      (net : Network git) (url branch : Text) (inner : GitBackendInner git)
      → (git_sync_local_branch git net url inner branch).0.cur_version ≡ inner.cur_version
  unfolding git_sync_local_branch
  sync-cur_version net url branch inner =
      elim (probe git net url)
        as (λ r.
          let s : Synced = elim r [
            | Run.panicked ↦ (inner, Run.panicked)
            | err e ↦ (inner, err (git2_error e))
            | ok heads ↦
                sync_newest git net inner (refspec git branch)
                  (newest_of git (refspec git branch) inner.cur_version.id heads)
          ] in
          s.0.cur_version ≡ inner.cur_version) [
            | Run.panicked ↦ refl
            | err e ↦ refl
            | ok heads ↦ sync_newest-cur_version net inner (refspec git branch) _
          ]
