-- ===== src/Storage/Walk.antt =====
-- storage_backends/mod.rs: the default `walk_dir` of the trait, over the backend's `list_dir`.
pub mod Ends
pub mod Calls
pub mod Default
pub mod Noted
pub mod Visits
pub mod Tests
use eafcc_core.Prelude.{ℕ, zero, suc, ◌+◌, Bool, Option, none, some, List, [], ◌∷◌, if◌then◌else◌}
use eafcc_core.Text.{Text}
use eafcc_core.Error.{StorageBackendError, walk_dir_error}
use eafcc_core.Run
use eafcc_core.Run.{Run, ok, err}
use eafcc_core.Storage
use eafcc_core.Storage.{
  VersionItem, DirItem, next, skip_current_node, stop_walking, Called, returned, failed,
}

-- What the inner loop leaves: the state and the stack, an early return, an error, or a panic.
pub data Visited (S : Type 0) : Type 0 where
  visited : S → List Text → Visited S
  stopped : S → Visited S
  refused : StorageBackendError → Visited S
  unwound : Visited S

module _ {S : Type 0} where
  -- The match on what the callback returned for one item: `go_on` is the rest of the loop.
  unfoldable pub after_call :
      DirItem → List Text → (S → List Text → Visited S) → Called S → Visited S
  after_call cur_node nodes_to_visit go_on (returned s next) =
      go_on s (if cur_node.is_dir then cur_node.abs_path ∷ nodes_to_visit else nodes_to_visit)
  after_call cur_node nodes_to_visit go_on (returned s skip_current_node) = go_on s nodes_to_visit
  after_call cur_node nodes_to_visit go_on (returned s stop_walking) = stopped s
  after_call cur_node nodes_to_visit go_on (failed s e) = refused (walk_dir_error e)
  after_call cur_node nodes_to_visit go_on Storage.panicked = unwound

  -- The loop over the items of one directory. The head of the stack is its top.
  unfoldable pub visit : (DirItem → S → Called S) → List DirItem → S → List Text → Visited S
  unfolding after_call
  visit cb [] s nodes_to_visit = visited s nodes_to_visit
  visit cb (cur_node ∷ items) s nodes_to_visit =
      after_call cur_node nodes_to_visit (visit cb items) (cb cur_node s)

  -- After the items of one directory.
  unfoldable pub after_dir :
      (List Text → S → Option (Run StorageBackendError S))
      → Visited S
      → Option (Run StorageBackendError S)
  after_dir go_on (visited s nodes_to_visit) = go_on nodes_to_visit s
  after_dir go_on (stopped s) = some (ok s)
  after_dir go_on (refused e) = some (err e)
  after_dir go_on unwound = some Run.panicked

  -- The items of the directory on top of the stack, or the error of the listing.
  unfoldable pub enter :
      (DirItem → S → Called S)
      → (List Text → S → Option (Run StorageBackendError S))
      → List Text
      → S
      → Run StorageBackendError (List DirItem)
      → Option (Run StorageBackendError S)
  unfolding after_dir visit
  enter cb go_on nodes_to_visit s (ok items) = after_dir go_on (visit cb items s nodes_to_visit)
  enter cb go_on nodes_to_visit s (err e) = some (err e)
  enter cb go_on nodes_to_visit s Run.panicked = some Run.panicked

-- `list_dir` at one version.
abbrev pub Listing : Type 0
Listing = Text → Run StorageBackendError (List DirItem)

-- The outer loop of `walk_dir`, `none` where the fuel runs out.
unfoldable pub walk :
    {S : Type 0}
    → Listing
    → (DirItem → S → Called S)
    → ℕ
    → List Text
    → S
    → Option (Run StorageBackendError S)
unfolding enter
walk list_dir cb zero nodes_to_visit s = none
walk list_dir cb (suc fuel) [] s = some (ok s)
walk list_dir cb (suc fuel) (parent_node ∷ nodes_to_visit) s =
    enter cb (walk list_dir cb fuel) nodes_to_visit s (list_dir parent_node)
