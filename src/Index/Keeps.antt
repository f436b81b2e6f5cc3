-- ===== src/Index/Keeps.antt =====
-- The callbacks of the loaders and their walks (cfg_center/cfgindex.rs).
use mathlib.Core.Path.{subst}
use eafcc_core.Prelude.{◌≡◌, refl, inl, inr, Option, none, some, ◌++◌, Bool-cases}
use eafcc_core.Text.{Text, text, strip_prefix}
use eafcc_core.Outcome.{Outcome}
use eafcc_core.Error.{DataLoaderError, MemoryIndexError, WalkDirError, StorageBackendError}
use eafcc_core.Run.{Run, ok, err, map_err}
use eafcc_core.Model.{Bytes}
use eafcc_core.Storage.{
  VersionItem, DirItem, StorageBackend, CallsOnly, Called, returned, failed, next,
}
use eafcc_core.Storage.Paths.{join, strip_dir}
use eafcc_core.Index.{CfgIndex}
use eafcc_core.Index.Builder.{on_file, on_node, load_dir}

module _ {A : Type 0} (backend : StorageBackend) (load_ : Bytes → Run DataLoaderError A)
    (dir : Text) (add : CfgIndex → Text → A → Outcome CfgIndex) (P : CfgIndex → Type 0)
    (adds : (index index' : CfgIndex) (path : Text) (raw : Bytes) (obj : A)
      → load_ raw ≡ ok obj
      → P index
      → add index path obj ≡ Outcome.done index'
      → P index') where
  -- What the additions keep, a call of the closure keeps, whether it returns or gives an error.
  abbrev Kept : Called CfgIndex → Type 0
  Kept (returned index ctl) = P index
  Kept (failed index e) = P index
  Kept Called.panicked = Unit

  on_file-Kept :
      (item : DirItem) (index : CfgIndex)
      → P index
      → Kept (on_file backend load_ dir add item index)
  unfolding on_file
  on_file-Kept item index p = at (backend.get_obj_by_hash item.hash)
    where
      added :
          (raw : Bytes) (obj : A) (path : Text)
          → load_ raw ≡ ok obj
          → (o : Outcome CfgIndex) → add index path obj ≡ o
          → Kept (elim o [
            | Outcome.panic ↦ Called.panicked
            | Outcome.done index' ↦ returned index' next
          ])
      added raw obj path l Outcome.panic e = tt
      added raw obj path l (Outcome.done index') e = adds index index' path raw obj l p e

      named :
          (raw : Bytes) (obj : A)
          → load_ raw ≡ ok obj
          → (o : Option Text)
          → Kept (elim o [
            | none ↦ Called.panicked
            | some path ↦ elim (add index path obj) [
              | Outcome.panic ↦ Called.panicked
              | Outcome.done index' ↦ returned index' next
            ]
          ])
      named raw obj l none = tt
      named raw obj l (some path) = added raw obj path l (add index path obj) refl

      loaded :
          (raw : Bytes)
          → (o : Run DataLoaderError A) → load_ raw ≡ o
          → Kept (elim o [
            | Run.panicked ↦ Called.panicked
            | err e ↦ failed index (WalkDirError.data_loader_error e)
            | ok obj ↦ elim (strip_dir dir item.abs_path) [
              | none ↦ Called.panicked
              | some path ↦ elim (add index path obj) [
                | Outcome.panic ↦ Called.panicked
                | Outcome.done index' ↦ returned index' next
              ]
            ]
          ])
      loaded raw Run.panicked e = tt
      loaded raw (err x) e = p
      loaded raw (ok obj) e = named raw obj e (strip_dir dir item.abs_path)

      at :
          (o : Run StorageBackendError Bytes)
          → Kept (elim o [
            | Run.panicked ↦ Called.panicked
            | err e ↦ failed index (WalkDirError.storage_backend_error e)
            | ok raw_data ↦ elim (load_ raw_data) [
              | Run.panicked ↦ Called.panicked
              | err e ↦ failed index (WalkDirError.data_loader_error e)
              | ok obj ↦ elim (strip_dir dir item.abs_path) [
                | none ↦ Called.panicked
                | some path ↦ elim (add index path obj) [
                  | Outcome.panic ↦ Called.panicked
                  | Outcome.done index' ↦ returned index' next
                ]
              ]
            ]
          ])
      at Run.panicked = tt
      at (err e) = p
      at (ok raw) = loaded raw (load_ raw) refl

  on_node-Kept :
      (item : DirItem) (index : CfgIndex)
      → P index
      → Kept (on_node backend load_ dir add item index)
  unfolding on_node
  on_node-Kept item index p = elim (Bool-cases item.is_dir) [
    | inl d ↦ simp d p
    | inr f ↦ simp f (on_file-Kept item index p)
  ]

  pub load_dir-keeps :
      CallsOnly backend
      → (namespace : Text) (index index' : CfgIndex) (version : VersionItem) → P index
      → load_dir backend load_ dir add namespace index version ≡ ok index'
      → P index'
  unfolding load_dir
  load_dir-keeps calls namespace index index' version p h = at (strip_prefix (text "/") namespace) h
    where
      walked :
          (r : Run StorageBackendError CfgIndex)
          → map_err MemoryIndexError.storage_backend_error r ≡ ok index'
          → r ≡ ok index'
      walked (ok i) e = cc
      walked (err x) e = cc
      walked Run.panicked e = cc

      at :
          (o : Option Text)
          → (elim o [
            | none ↦ err MemoryIndexError.namespace_not_absolute_path
            | some relative ↦ map_err MemoryIndexError.storage_backend_error (
                backend.walk_dir version
                  (join (text "/" ++ dir) relative)
                  (on_node backend load_ dir add)
                  index)
          ])
            ≡ ok index'
          → P index'
      at none e = cc
      at (some relative) e =
          calls.keeps P version _ (on_node backend load_ dir add) index index'
            (λ item t t' ctl q r. subst Kept r (on_node-Kept item t q))
            (λ item t t' x q r. subst Kept r (on_node-Kept item t q)) p (walked _ e)
