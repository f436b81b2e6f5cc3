-- ===== src/Storage/Filesystem/Tests.antt =====
-- Runs of the filesystem backend (storage_backends/filesystem/mod.rs), and witnesses.
use eafcc_core.Prelude.{◌≡◌, ◌≢◌, refl, true, false, none, some, List, [], ◌∷◌, ◌++◌, In, arith}
use eafcc_core.Text.{Text, text, text_eq, text_eq_iff}
use eafcc_core.Text.Sample.{sample_utf8}
use eafcc_core.Text.Trim.{trim, trim_start, is_whitespace}
use eafcc_core.Error.{ForeignError}
use eafcc_core.Run.{Run, ok}
use eafcc_core.Parser.Nom.Sample.{sample_nom}
use eafcc_core.Storage.{VersionItem, DirItem, StorageBackend}
use eafcc_core.Storage.Paths.{join, starts_with_slash, ends_with_slash}
use eafcc_core.Storage.Filesystem.{
  FsEntry, Fs, FilesystemBackend, strip_root, get_versioned_path, read_version_from_fs, item_of,
  items_of, list_dir, write, notice_write, Tick, eafcc_watcher,
}
use eafcc_core.Storage.Walk.Ends.{listed, a_file, no_items}
use eafcc_core.Storage.Filesystem.{FiniteTrees}
use eafcc_core.Storage.Filesystem.Reads.{ReadsBack, list_dir-ReadsBack}
use eafcc_core.Storage.Filesystem.Places.{IsName, StaysBelow, place, get_versioned_path-isolates}
use eafcc_core.Storage.Filesystem.Watched.{eafcc_watcher-current_version}
use eafcc_core.Index.Sample.{sample_serde, sample_backend, first_version}
use eafcc_core.Index.Builder.{load, load_rule, load_link, load_res, load_dir}
use eafcc_core.MemStore.{new_mem_storage}
use eafcc_core.Center.{CfgCenter}
use eafcc_core.Center.Events.{NeverPanics, updates}

abbrev entry : FsEntry
entry = record {
  file_name = some (text "r");
  is_dir = false;
  to_str = some (text "/base/v1/rules/r");
}

-- Every directory holds one file, and `head` names the version `v1`.
abbrev pub fs : Fs
fs = record {
  read = λ path. ok (text " v1\n");
  read_dir = λ path. ok (ok entry ∷ []);
  is_file = λ path. ok true;
  new_poll_watcher = ok tt;
  watch = λ path. ok tt;
}

abbrev version : Text → VersionItem
version name = record { name = name; id = name }

abbrev backend : FilesystemBackend
backend = record { base_path = text "/base"; has_watcher = false; watcher_poisoned = false }

abbrev item : DirItem
item = record { abs_path = text "/rules/r"; is_dir = false; hash = text "/base/v1/rules/r" }

list_dir_test :
    list_dir sample_utf8 fs backend (version (text "v1")) (text "/rules") ≡ ok (item ∷ [])
unfolding list_dir get_versioned_path items_of item_of join starts_with_slash ends_with_slash
    strip_root
list_dir_test = refl

list_dir-ReadsBack_example :
    (real : Text) × (entries : List (Run ForeignError FsEntry)) × (get_versioned_path sample_utf8
        backend
        (version (text "v1"))
        (text "/rules")
      ≡ ok real)
    × (fs.read_dir real ≡ ok entries)
    × ((i : DirItem)
        → In i (item ∷ [])
        → ReadsBack sample_utf8 fs backend (text "/rules") entries i)
list_dir-ReadsBack_example =
    list_dir-ReadsBack sample_utf8 fs backend (text "/rules") (version (text "v1")) (item ∷ [])
      list_dir_test

v1_test :
    get_versioned_path sample_utf8 backend (version (text "v1")) (text "/rules/n/")
    ≡ ok (text "/base/v1/rules/n")
unfolding get_versioned_path join starts_with_slash ends_with_slash strip_root
v1_test = refl

v2_test :
    get_versioned_path sample_utf8 backend (version (text "v2")) (text "/rules/n/")
    ≡ ok (text "/base/v2/rules/n")
unfolding get_versioned_path join starts_with_slash ends_with_slash strip_root
v2_test = refl

-- A path that goes up leads from one version into another.
up_test :
    get_versioned_path sample_utf8 backend (version (text "v1")) (text "/../v2/rules/n")
    ≡ ok (text "/base/v1/../v2/rules/n")
unfolding get_versioned_path join starts_with_slash ends_with_slash strip_root
up_test = refl

up_place_test : place (text "/base/v1/../v2/rules/n") ≡ place (text "/base/v2/rules/n")
unfolding text_eq
up_place_test = refl

based : backend.base_path ≢ []
based e = cc

v1-IsName : IsName (text "v1")
v1-IsName = (
  (λ e. cc, (λ e. absurd (omega (arith, e)), (λ e. absurd (omega (arith, e)), tt))),
  λ e. cc,
  λ e. cc,
)

v2-IsName : IsName (text "v2")
v2-IsName = (
  (λ e. cc, (λ e. absurd (omega (arith, e)), (λ e. absurd (omega (arith, e)), tt))),
  λ e. cc,
  λ e. cc,
)

rooted : starts_with_slash (text "/rules/n/") ≡ true
unfolding starts_with_slash
rooted = refl

below : StaysBelow (strip_root (text "/rules/n/"))
unfolding strip_root
below = (λ e. cc, (λ e. cc, tt))

other_name : text "v1" ≢ text "v2"
unfolding text_eq
other_name e =
    let same : text_eq (text "v1") (text "v2") ≡ true = (text_eq_iff (text "v1") (text "v2")).1 e in
    absurd (cc (same))

get_versioned_path-isolates_example :
    place (text "/base/v1/rules/n") ≢ place (text "/base/v2/rules/n")
get_versioned_path-isolates_example =
    get_versioned_path-isolates sample_utf8 backend based (version (text "v1"))
      (version (text "v2")) (text "v1") (text "v2") (text "/rules/n/") (text "/rules/n/")
      (text "/base/v1/rules/n") (text "/base/v2/rules/n") refl refl other_name v1-IsName v2-IsName
      rooted rooted below below v1_test v2_test

-- A storage with nothing in it.
abbrev empty_backend : StorageBackend
empty_backend = record sample_backend { walk_dir = λ v path cb s. ok s }

empty_load :
    (ns : Text) (v : VersionItem)
    → new_mem_storage sample_nom sample_serde empty_backend ns v ≢ Run.panicked
unfolding new_mem_storage load load_rule load_link load_res load_dir
empty_load ns v = ground arith

empty_backend-NeverPanics : NeverPanics sample_nom sample_serde empty_backend
empty_backend-NeverPanics = record { loads = empty_load; lists = λ old new ns e. cc }

abbrev center : CfgCenter
center = record {
  centers = [];
  namespaces = [];
  namespaces_poisoned = false;
  current_version = first_version;
  version_poisoned = false;
}

abbrev ticks : List Tick
ticks = record { received = none; fs = fs } ∷ record { received = some notice_write; fs = fs } ∷ []

abbrev last_tick : Tick
last_tick = record { received = some write; fs = fs }

head_test : read_version_from_fs sample_utf8 fs (text "/base/head") ≡ ok (version (text "v1"))
unfolding read_version_from_fs trim trim_start is_whitespace
head_test = refl

head_calm : read_version_from_fs sample_utf8 fs (text "/base/head") ≢ Run.panicked
head_calm e = cc (head_test)

eafcc_watcher-current_version_example :
    (updates sample_nom sample_serde
      (λ k. empty_backend)
      0
      center
      (eafcc_watcher sample_utf8 (text "/base/head") (ticks ++ last_tick ∷ []))).current_version
    ≡ version (text "v1")
eafcc_watcher-current_version_example =
    eafcc_watcher-current_version sample_utf8 (text "/base/head") sample_nom sample_serde
      (λ k. empty_backend) center ticks last_tick write (version (text "v1"))
      (λ k. empty_backend-NeverPanics) (refl, refl) (head_calm, (head_calm, tt)) refl refl head_test

abbrev pub item_in : Text → DirItem
item_in path = record {
  abs_path = join path (text "r");
  is_dir = false;
  hash = text "/base/v1/rules/r";
}

pub listed_test :
    (b : FilesystemBackend) (v : VersionItem) (path : Text)
    → list_dir sample_utf8 fs b v path ≡ ok (item_in path ∷ [])
unfolding list_dir get_versioned_path items_of item_of
listed_test b v path = ground arith

-- Every directory holds one file and no directory.
abbrev pub sample_trees : (b : FilesystemBackend) → FiniteTrees sample_utf8 fs b
sample_trees b = record {
  size = λ v path. 1;
  finite = λ v path. listed (item_in path ∷ []) (listed_test b v path) (a_file refl no_items);
}
