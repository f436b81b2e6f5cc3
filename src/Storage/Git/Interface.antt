-- ===== src/Storage/Git/Interface.antt =====
-- What src/storage_backends/git/mod.rs uses of the crate git2, as an interface. A panic of a closure
-- that libgit2 calls (the credentials unwrap the user name of the URL and the home directory) goes
-- through the call.
use eafcc_core.Prelude.{◌≡◌, Bool, Option, List}
use eafcc_core.Text.{Text}
use eafcc_core.Model.{Bytes}
use eafcc_core.Error.{ForeignError}
use eafcc_core.Run.{Run, ok}

-- What the closure of `Tree::walk` returns: 0, a positive number to pass over the entry's own
-- entries, or a negative one to stop. It leaves its captured state changed, or it panics.
pub data Answer (S : Type 0) : Type 0 where
  go_on : S → Answer S
  skip : S → Answer S
  stop : S → Answer S
  broke : Answer S

pub record Git2 : Type 1 where
  pub Repo : Type 0
  pub Oid : Type 0
  pub Commit : Type 0
  pub Tree : Type 0
  pub Entry : Type 0
  pub oid_from_bytes : Bytes → Run ForeignError Oid
  pub oid_as_bytes : Oid → Bytes
  pub open_bare : Text → Run ForeignError Repo
  pub find_blob : Repo → Oid → Run ForeignError Bytes
  pub find_commit : Repo → Oid → Run ForeignError Commit
  pub commit_id : Commit → Oid
  pub message_bytes : Commit → Bytes
  -- the message, where it is UTF-8
  pub message : Commit → Option Text
  pub tree : Repo → Commit → Run ForeignError Tree
  -- `Tree::get_path`, and `to_object` with `as_tree` of what it gives
  pub get_path : Tree → Text → Run ForeignError Entry
  pub object_as_tree : Repo → Entry → Run ForeignError (Option Tree)
  -- the name of an entry, where it is UTF-8
  pub entry_name : Entry → Option Text
  pub entry_id : Entry → Oid
  -- whether the kind of an entry is a tree
  pub entry_is_tree : Entry → Bool
  -- `Tree::walk` in preorder: the closure has the path of the directory and the entry in it
  pub walk : {S : Type 0} → Repo → Tree → (Text → Entry → S → Answer S) → S → Run ForeignError S
  -- the commit that a local branch points to: `find_branch` and `peel_to_commit`
  pub find_branch : Repo → Text → Run ForeignError Commit
  -- whether a remote of that name is configured
  pub find_remote : Repo → Text → Run ForeignError (Unit {0})
  -- `Repository::branch` with `force`: the repository after it
  pub branch : Repo → Text → Commit → Repo × Run ForeignError (Unit {0})
  -- a commit is found under its own name
  pub find_commit-commit_id :
      (repo : Repo) (oid : Oid) (commit : Commit)
      → find_commit repo oid ≡ ok commit
      → commit_id commit ≡ oid
  -- a walk changes the state of its closure by calls of the closure alone
  pub walk-keeps :
      {S : Type 0} (P : S → Type 0) (repo : Repo) (t : Tree) (cb : Text → Entry → S → Answer S)
      (s s' : S)
      → ((path : Text) (entry : Entry) (a b : S) → P a → cb path entry a ≡ go_on b → P b)
      → ((path : Text) (entry : Entry) (a b : S) → P a → cb path entry a ≡ skip b → P b)
      → ((path : Text) (entry : Entry) (a b : S) → P a → cb path entry a ≡ stop b → P b)
      → P s
      → walk repo t cb s ≡ ok s'
      → P s'

-- What the remote repository answers at some time.
pub record Network (git : Git2) : Type 0 where
  pub create_detached : Text → Run ForeignError (Unit {0})
  pub connect_auth : Text → Run ForeignError (Unit {0})
  -- the heads of the remote: the names of its references, and what they point to
  pub list_heads : Text → Run ForeignError (List (Text × git.Oid))
  -- `RepoBuilder::clone`, from the URL to the local path
  pub clone_bare : Text → Text → Run ForeignError git.Repo
  -- `Remote::fetch` of a reference from the remote of that name: the repository after it
  pub fetch : git.Repo → Text → Text → git.Repo × Run ForeignError (Unit {0})
