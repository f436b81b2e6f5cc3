-- ===== src/Storage/Walk/Default.antt =====
-- A backend that walks by the default `walk_dir` (storage_backends/mod.rs), over listings of finite
-- trees.
use eafcc_core.Prelude.{ℕ, ◌+◌, ◌≡◌, ap, Option, none, some, [], ◌∷◌}
use eafcc_core.Text.{Text}
use eafcc_core.Error.{StorageBackendError}
use eafcc_core.Run.{Run, ok}
use eafcc_core.Storage.{VersionItem, DirItem, Called, StorageBackend, CallsOnly}
use eafcc_core.Storage.Walk.{Listing, walk}
use eafcc_core.Storage.Walk.Ends.{HasSize, Ends, walk-Ends}
use eafcc_core.Storage.Walk.Calls.{walk_keeps}

-- `list_dir` at every version, and how many directories are below a path.
pub record FiniteListing : Type 0 where
  pub list_dir : VersionItem → Listing
  pub size : VersionItem → Text → ℕ
  pub finite :
      (version : VersionItem) (path : Text) → HasSize (list_dir version) path (size version path)

abbrev pub completed : {S : Type 0} → Option (Run StorageBackendError S) → Run StorageBackendError S
completed none = Run.panicked
completed (some r) = r

-- `walk_dir` with one unit of fuel more than the directories below the path.
unfoldable pub default_walk_dir :
    FiniteListing
    → {S : Type 0} → VersionItem
    → Text
    → (DirItem → S → Called S)
    → S
    → Run StorageBackendError S
default_walk_dir listing version path cb s =
    completed (walk (listing.list_dir version) cb (listing.size version path + 1) (path ∷ []) s)

abbrev pub with_default_walk : FiniteListing → StorageBackend → StorageBackend
with_default_walk listing backend = record backend {
  walk_dir = λ version path cb s. default_walk_dir listing version path cb s;
}

completed_ok :
    {S : Type 0} (o : Option (Run StorageBackendError S)) (s' : S)
    → Ends o
    → completed o ≡ ok s'
    → o ≡ some (ok s')
completed_ok none s' (r, ends) e = cc
completed_ok (some r) s' ends e = ap (λ x. some x) e

-- A backend that walks by the default `walk_dir` over listings of finite trees changes the state
-- of a walk by calls of the callback alone: what all calls keep, the walk keeps.
pub default_walk-CallsOnly :
    (listing : FiniteListing) (backend : StorageBackend)
    → CallsOnly (with_default_walk listing backend)
unfolding default_walk_dir
default_walk-CallsOnly listing backend = record {
  keeps = λ P version path cb s s' kept failed_ p e.
      walk_keeps P (listing.list_dir version) cb kept (listing.size version path + 1) (path ∷ []) s
        s' p
        (completed_ok
          (walk (listing.list_dir version) cb (listing.size version path + 1) (path ∷ []) s) s'
          (walk-Ends (listing.list_dir version) cb path s (listing.size version path)
            (listing.finite version path))
          e);
}
