-- ===== src/Storage/Walk/Tests.antt =====
-- Runs of the default `walk_dir` (storage_backends/mod.rs), and witnesses.
use eafcc_core.Prelude.{◌≡◌, refl, Bool, true, false, some, List, [], ◌∷◌, if◌then◌else◌}
use eafcc_core.Text.{Text, text, text_eq}
use eafcc_core.Error.{lock_posioned_error}
use eafcc_core.Run.{ok, err}
use eafcc_core.Storage.{DirItem, next, Called, returned}
use eafcc_core.Storage.Walk.{Listing, walk, visit, after_call, after_dir, enter}
use eafcc_core.Storage.Walk.Ends.{
  HasSize, listed, unlisted, no_items, a_file, a_dir, Ends, walk-Ends,
}
use eafcc_core.Storage.Walk.Default.{FiniteListing, default_walk_dir}
use eafcc_core.Storage.Walk.Noted.{note}
use eafcc_core.Storage.Walk.Visits.{Visits, default_walk_dir-Visits}
use eafcc_core.Index.Sample.{first_version}

abbrev file : DirItem
file = record { abs_path = text "/a/f"; is_dir = false; hash = [] }

abbrev dir : DirItem
dir = record { abs_path = text "/a"; is_dir = true; hash = [] }

-- `/` holds the directory `/a`, which holds the file `/a/f`; nothing else can be listed.
abbrev tree : Listing
tree path =
    if text_eq path (text "/")
    then ok (dir ∷ [])
    else if text_eq path (text "/a")
    then ok (file ∷ [])
    else err lock_posioned_error

-- The paths that were met, the last one first.
abbrev collect : DirItem → List Text → Called (List Text)
collect item seen = returned (item.abs_path ∷ seen) next

walk_test : walk tree collect 3 (text "/" ∷ []) [] ≡ some (ok (text "/a/f" ∷ text "/a" ∷ []))
unfolding walk enter after_dir visit after_call text_eq
walk_test = refl

a-HasSize : HasSize tree (text "/a") 1
unfolding text_eq
a-HasSize = listed (file ∷ []) refl (a_file refl no_items)

tree-HasSize : HasSize tree (text "/") 2
unfolding text_eq
tree-HasSize = listed (dir ∷ []) refl (a_dir {m = 1} {n = 0} a-HasSize no_items)

walk-Ends_example : Ends (walk tree collect 3 (text "/" ∷ []) [])
walk-Ends_example = walk-Ends tree collect (text "/") [] 2 tree-HasSize

tree-finite : (path : Text) → HasSize tree path (if text_eq path (text "/") then 2 else 1)
tree-finite path = at (text_eq path (text "/")) (text_eq path (text "/a")) refl refl
  where
    at :
        (b c : Bool)
        → text_eq path (text "/") ≡ b
        → text_eq path (text "/a") ≡ c
        → HasSize tree path (if b then 2 else 1)
    at true c e e' = listed (dir ∷ []) (rw e) (a_dir {m = 1} {n = 0} a-HasSize no_items)
    at false true e e' = listed (file ∷ []) (rw (e, e')) (a_file refl no_items)
    at false false e e' = unlisted lock_posioned_error (rw (e, e'))

abbrev sample_listing : FiniteListing
sample_listing = record {
  list_dir = λ version. tree;
  size = λ version path. if text_eq path (text "/") then 2 else 1;
  finite = λ version. tree-finite;
}

default_walk_dir-Visits_example :
    Visits tree (text "/") (default_walk_dir sample_listing first_version (text "/") note [])
default_walk_dir-Visits_example = default_walk_dir-Visits sample_listing first_version (text "/")

visits_test :
    default_walk_dir sample_listing first_version (text "/") note [] ≡ ok (file ∷ dir ∷ [])
unfolding default_walk_dir walk enter after_dir visit after_call text_eq
visits_test = refl
