-- ===== src/Storage/Filesystem/Reads.antt =====
-- What the hashes of a listing read (storage_backends/filesystem/mod.rs).
use mathlib.Core.Path.{subst}
use eafcc_core.Prelude.{◌≡◌, refl, sym, Option, none, some, List, [], ◌∷◌, In, here, there}
use eafcc_core.Text.{Text}
use eafcc_core.Text.Utf8.{Utf8}
use eafcc_core.Error.{ForeignError, io_error}
use eafcc_core.Run.{Run, ok, err, map_err, >>=-eq-ok, ok-injective}
use eafcc_core.Storage.{VersionItem, DirItem}
use eafcc_core.Storage.Paths.{join}
use eafcc_core.Storage.Filesystem.{
  FsEntry, Fs, FilesystemBackend, get_versioned_path, item_of, items_of, get_obj_by_hash, list_dir,
}

-- The item stands for an entry of the directory, by its name below `path`, and the object of its
-- hash is what the file system reads at the path of that entry.
pub record ReadsBack (utf8 : Utf8) (fs : Fs) (backend : FilesystemBackend) (path : Text)
    (entries : List (Run ForeignError FsEntry)) (item : DirItem) : Type 0 where
  pub entry : FsEntry
  pub filename : Text
  pub str : Text
  pub found : In (ok entry) entries
  pub named : entry.file_name ≡ some filename
  pub placed : item.abs_path ≡ join path filename
  pub same_kind : item.is_dir ≡ entry.is_dir
  pub whole : entry.to_str ≡ some str
  pub reads : get_obj_by_hash utf8 fs backend item.hash ≡ map_err io_error (fs.read str)

map_err-eq-ok : {E F A : Type 0} (f : E → F) (r : Run E A) (a : A) → map_err f r ≡ ok a → r ≡ ok a
map_err-eq-ok f (ok b) a h = cc
map_err-eq-ok f (err e) a h = cc
map_err-eq-ok f Run.panicked a h = cc

module _ (utf8 : Utf8) (fs : Fs) (backend : FilesystemBackend) (path : Text) where
  later :
      {found : Run ForeignError FsEntry} {entries : List (Run ForeignError FsEntry)}
      {item : DirItem}
      → ReadsBack utf8 fs backend path entries item
      → ReadsBack utf8 fs backend path (found ∷ entries) item
  later b = record {
    entry = b.entry;
    filename = b.filename;
    str = b.str;
    found = there b.found;
    named = b.named;
    placed = b.placed;
    same_kind = b.same_kind;
    whole = b.whole;
    reads = b.reads;
  }

  item_of-ReadsBack :
      (entry : FsEntry) (entries : List (Run ForeignError FsEntry)) (filename : Text)
      (item : DirItem)
      → entry.file_name ≡ some filename
      → item_of utf8 path filename entry ≡ ok item
      → ReadsBack utf8 fs backend path (ok entry ∷ entries) item
  unfolding item_of get_obj_by_hash
  item_of-ReadsBack entry entries filename item named h = at entry.to_str refl h
    where
      at :
          (o : Option Text)
          → entry.to_str ≡ o
          → item_of utf8 path filename (record entry { to_str = o }) ≡ ok item
          → ReadsBack utf8 fs backend path (ok entry ∷ entries) item
      at none e h' = cc
      at (some str) e h' =
          subst (ReadsBack utf8 fs backend path (ok entry ∷ entries)) (ok-injective h') (record {
            entry = entry;
            filename = filename;
            str = str;
            found = here refl;
            named = named;
            placed = refl;
            same_kind = refl;
            whole = e;
            reads = rw (utf8.from_utf8-as_bytes str);
          })

  items_of-ReadsBack :
      (entries : List (Run ForeignError FsEntry)) (items : List DirItem) (item : DirItem)
      → items_of utf8 path entries ≡ ok items
      → In item items
      → ReadsBack utf8 fs backend path entries item
  unfolding items_of item_of
  items_of-ReadsBack [] items item h i = elim (subst (In item) (sym (ok-injective h)) i) [ ]
  items_of-ReadsBack (Run.panicked ∷ others) items item h i = cc
  items_of-ReadsBack (err e ∷ others) items item h i = cc
  items_of-ReadsBack (ok entry ∷ others) items item h i =
      at entry.file_name refl (λ rest e j. items_of-ReadsBack others rest item e j) h
    where
      at :
          (o : Option Text)
          → entry.file_name ≡ o
          → ((rest : List DirItem)
              → items_of utf8 path others ≡ ok rest
              → In item rest
              → ReadsBack utf8 fs backend path others item)
          → items_of utf8 path (ok (record entry { file_name = o }) ∷ others) ≡ ok items
          → ReadsBack utf8 fs backend path (ok entry ∷ others) item
      at none e ih h' = later (ih items h' i)
      at (some filename) e ih h' =
          let (first, e1, h1) = >>=-eq-ok (item_of utf8 path filename entry) _ h' in
          let (rest, e2, h2) = >>=-eq-ok (items_of utf8 path others) _ h1 in
          elim (subst (In item) (sym (ok-injective h2)) i) [
            | here s ↦
                subst (ReadsBack utf8 fs backend path (ok entry ∷ others)) (sym s)
                  (item_of-ReadsBack entry others filename first e e1)
            | there j ↦ later (ih rest e2 j)
          ]

  -- Every item of a listing that succeeds stands for an entry of the directory of its version, under
  -- the name that it has there, and its hash reads the file of that entry.
  pub list_dir-ReadsBack :
      (version : VersionItem) (items : List DirItem)
      → list_dir utf8 fs backend version path ≡ ok items
      → (real : Text) × (entries : List (Run ForeignError FsEntry)) × (get_versioned_path utf8
            backend version path
          ≡ ok real)
        × (fs.read_dir real ≡ ok entries)
        × ((item : DirItem) → In item items → ReadsBack utf8 fs backend path entries item)
  unfolding list_dir
  list_dir-ReadsBack version items h =
      let (real, e1, h1) = >>=-eq-ok (get_versioned_path utf8 backend version path) _ h in
      let (entries, e2, h2) = >>=-eq-ok (map_err io_error (fs.read_dir real)) _ h1 in
      (
        real,
        entries,
        e1,
        map_err-eq-ok io_error (fs.read_dir real) entries e2,
        λ item i. items_of-ReadsBack entries items item h2 i,
      )
