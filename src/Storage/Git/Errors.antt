-- ===== src/Storage/Git/Errors.antt =====
-- What the walk of the git backend (storage_backends/git/mod.rs) makes of its callback.
use mathlib.Core.Path.{subst, fun_ext}
use eafcc_core.Prelude.{◌≡◌, ◌≢◌, refl, ap, Option, none, some}
use eafcc_core.Text.{Text}
use eafcc_core.Text.Utf8.{Utf8}
use eafcc_core.Error.{ForeignError, WalkDirError, git2_error, walk_dir_error}
use eafcc_core.Run.{Run, ok, err, map_err, ◌>>=◌, >>=-eq-ok, ok-injective}
use eafcc_core.Storage
use eafcc_core.Storage.{
  VersionItem, DirItem, StorageBackend, CallsOnly, Called, WalkRetCtl, returned, failed, next,
  skip_current_node, stop_walking,
}
use eafcc_core.Storage.Paths.{join}
use eafcc_core.Storage.Git.Interface.{Git2, Answer, go_on, skip, stop, broke}
use eafcc_core.Storage.Git.{
  GitBackendInner, answer, on_entry, walk_start_point, walk_from, walk_dir, as_storage_backend,
}

-- The callback with every error turned into the direction to go on.
abbrev pub forgive : {S : Type 0} → Called S → Called S
forgive (returned s ctl) = returned s ctl
forgive (failed s e) = returned s next
forgive Storage.panicked = Storage.panicked

module _ (git : Git2) where
  answer-forgive : {S : Type 0} (c : Called S) → answer git c ≡ answer git (forgive c)
  answer-forgive (returned s next) = refl
  answer-forgive (returned s skip_current_node) = refl
  answer-forgive (returned s stop_walking) = refl
  answer-forgive (failed s e) = refl
  answer-forgive Storage.panicked = refl

  module _ {S : Type 0} (path : Text) (cb : DirItem → S → Called S) where
    abbrev forgiving : DirItem → S → Called S
    forgiving item s = forgive (cb item s)

    on_entry-forgive_at :
        (root : Text) (entry : git.Entry) (s : S)
        → on_entry git path cb root entry s ≡ on_entry git path forgiving root entry s
    unfolding on_entry
    on_entry-forgive_at root entry s = at (git.entry_name entry)
      where
        at :
            (o : Option Text)
            → (elim o [
              | none ↦ go_on s
              | some filename ↦ answer git (
                  cb
                    (record {
                      abs_path = join (join path root) filename;
                      is_dir = git.entry_is_tree entry;
                      hash = git.oid_as_bytes (git.entry_id entry);
                    })
                    s)
            ])
              ≡ (elim o [
                | none ↦ go_on s
                | some filename ↦ answer git (
                    forgive (
                      cb
                        (record {
                          abs_path = join (join path root) filename;
                          is_dir = git.entry_is_tree entry;
                          hash = git.oid_as_bytes (git.entry_id entry);
                        })
                        s))
              ])
        at none = refl
        at (some filename) = answer-forgive (cb _ s)

    on_entry-forgive : on_entry git path cb ≡ on_entry git path forgiving
    on_entry-forgive =
        fun_ext λ root. fun_ext λ entry. fun_ext λ s. on_entry-forgive_at root entry s

    walk_from-forgive :
        (repo : git.Repo) (s : S) (start : Option git.Tree)
        → walk_from git repo path cb s start ≡ walk_from git repo path forgiving s start
    unfolding walk_from
    walk_from-forgive repo s none = refl
    walk_from-forgive repo s (some t) = ap (λ f. git.walk repo t f s) on_entry-forgive

  map_err-ne :
      {A : Type 0} (r : Run ForeignError A) (e : WalkDirError)
      → map_err git2_error r ≢ err (walk_dir_error e)
  map_err-ne (ok a) e h = cc
  map_err-ne (err x) e h = cc
  map_err-ne Run.panicked e h = cc

  -- The errors of the callback are lost: the walk does what it does with a callback that goes on
  -- instead, and no error of a callback comes out of it.
  pub walk_dir-forgive :
      {S : Type 0} (inner : GitBackendInner git) (version : VersionItem) (path : Text)
      (cb : DirItem → S → Called S) (s : S)
      → (walk_dir git inner version path cb s
          ≡ walk_dir git inner version path (λ item t. forgive (cb item t)) s)
        × ((e : WalkDirError) → walk_dir git inner version path cb s ≢ err (walk_dir_error e))
  unfolding walk_dir
  walk_dir-forgive inner version path cb s = (
    ap
        (λ f. map_err git2_error (
          git.oid_from_bytes version.id >>= λ oid. git.find_commit inner.git_repo oid >>= λ commit.
          git.tree inner.git_repo commit >>= λ root_tree.
          walk_start_point git inner.git_repo root_tree path >>= λ start. f start))
        (fun_ext λ start. walk_from-forgive path cb inner.git_repo s start),
    λ e. map_err-ne _ e,
  )

  module _ {S : Type 0} (P : S → Type 0) (path : Text) (cb : DirItem → S → Called S)
      (kept : (item : DirItem) (t t' : S) (ctl : WalkRetCtl)
        → P t
        → cb item t ≡ returned t' ctl
        → P t')
      (lost : (item : DirItem) (t t' : S) (e : WalkDirError)
        → P t
        → cb item t ≡ failed t' e
        → P t') where
    -- The state that an answer leaves.
    abbrev Left : Answer S → S → Type 0
    Left (go_on s) b = s ≡ b
    Left (skip s) b = s ≡ b
    Left (stop s) b = s ≡ b
    Left broke b = ⊥

    answer-keeps :
        (item : DirItem) (a b : S) (c : Called S)
        → cb item a ≡ c
        → P a
        → Left (answer git c) b
        → P b
    answer-keeps item a b (returned s next) e p h = subst P h (kept item a s next p e)
    answer-keeps item a b (returned s skip_current_node) e p h =
        subst P h (kept item a s skip_current_node p e)
    answer-keeps item a b (returned s stop_walking) e p h =
        subst P h (kept item a s stop_walking p e)
    answer-keeps item a b (failed s x) e p h = subst P h (lost item a s x p e)
    answer-keeps item a b Storage.panicked e p h = absurd h

    on_entry-keeps :
        (root : Text) (entry : git.Entry) (a b : S)
        → P a
        → Left (on_entry git path cb root entry a) b
        → P b
    unfolding on_entry
    on_entry-keeps root entry a b p h = at (git.entry_name entry) h
      where
        at :
            (o : Option Text)
            → Left
                (elim o [
                  | none ↦ go_on a
                  | some filename ↦ answer git (
                      cb
                        (record {
                          abs_path = join (join path root) filename;
                          is_dir = git.entry_is_tree entry;
                          hash = git.oid_as_bytes (git.entry_id entry);
                        })
                        a)
                ])
                b
            → P b
        at none h' = subst P h' p
        at (some filename) h' = answer-keeps _ a b _ refl p h'

    Left-go_on : (r : Answer S) (b : S) → r ≡ go_on b → Left r b
    Left-go_on r b e = rw e refl

    Left-skip : (r : Answer S) (b : S) → r ≡ skip b → Left r b
    Left-skip r b e = rw e refl

    Left-stop : (r : Answer S) (b : S) → r ≡ stop b → Left r b
    Left-stop r b e = rw e refl

    walk_from-keeps :
        (repo : git.Repo) (s s' : S) (start : Option git.Tree)
        → P s
        → walk_from git repo path cb s start ≡ ok s'
        → P s'
    unfolding walk_from
    walk_from-keeps repo s s' none p e = subst P (ok-injective e) p
    walk_from-keeps repo s s' (some t) p e =
        git.walk-keeps P repo t (on_entry git path cb) s s'
          (λ root entry a b q h. on_entry-keeps root entry a b q (Left-go_on _ b h))
          (λ root entry a b q h. on_entry-keeps root entry a b q (Left-skip _ b h))
          (λ root entry a b q h. on_entry-keeps root entry a b q (Left-stop _ b h)) p e

  map_err-ok :
      {A : Type 0} (r : Run ForeignError A) (a : A) → map_err git2_error r ≡ ok a → r ≡ ok a
  map_err-ok (ok b) a h = cc
  map_err-ok (err e) a h = cc
  map_err-ok Run.panicked a h = cc

  -- The git backend changes the state of a walk by calls of the callback alone.
  pub git_backend-CallsOnly :
      (utf8 : Utf8) (inner : GitBackendInner git) → CallsOnly (as_storage_backend git utf8 inner)
  unfolding as_storage_backend walk_dir
  git_backend-CallsOnly utf8 inner = record {
    keeps = λ P version path cb s s' kept lost p e.
        let repo = inner.git_repo in
        let (oid, e1, h1) = >>=-eq-ok (git.oid_from_bytes version.id) _ (map_err-ok _ s' e) in
        let (commit, e2, h2) = >>=-eq-ok (git.find_commit repo oid) _ h1 in
        let (root_tree, e3, h3) = >>=-eq-ok (git.tree repo commit) _ h2 in
        let (start, e4, h4) = >>=-eq-ok (walk_start_point git repo root_tree path) _ h3 in
        walk_from-keeps P path cb kept lost repo s s' start p h4;
  }
