-- ===== src/Index/Builder.antt =====
-- src/cfg_center/cfgindex.rs, `IndexBuilder`, and mem_store.rs: a version of a namespace is read
-- from the storage into the indices.
use eafcc_core.Prelude.{none, some, ◌++◌, if◌then◌else◌}
use eafcc_core.Text.{Text, text, strip_prefix}
use eafcc_core.Outcome
use eafcc_core.Outcome.{Outcome}
use eafcc_core.Error.{DataLoaderError, MemoryIndexError, WalkDirError, namespace_not_absolute_path}
use eafcc_core.Run.{Run, ok, err, map_err, ◌>>=◌}
use eafcc_core.Parser.Nom.{Nom}
use eafcc_core.Model.{Bytes, Rule, Link, Res}
use eafcc_core.Model.Loader.{
  SerdeJson, load_rule_from_slice, load_link_from_slice, load_res_from_slice,
}
use eafcc_core.Storage.{VersionItem, DirItem, StorageBackend, Called, returned, failed, next}
use eafcc_core.Storage.Paths.{join, strip_dir}
use eafcc_core.Index.{CfgIndex, empty_index, add_rule, add_link, add_res}

-- The object of a file is fetched, parsed and added under its path below the directory. A path
-- without the directory, and an addition that panics, panic.
unfoldable pub on_file :
    {A : Type 0}
    → StorageBackend
    → (Bytes → Run DataLoaderError A)
    → Text
    → (CfgIndex → Text → A → Outcome CfgIndex)
    → DirItem
    → CfgIndex
    → Called CfgIndex
on_file backend load_from_slice dir add cur_node index =
    elim (backend.get_obj_by_hash cur_node.hash) [
      | Run.panicked ↦ Called.panicked
      | err e ↦ failed index (WalkDirError.storage_backend_error e)
      | ok raw_data ↦ elim (load_from_slice raw_data) [
        | Run.panicked ↦ Called.panicked
        | err e ↦ failed index (WalkDirError.data_loader_error e)
        | ok obj ↦ elim (strip_dir dir cur_node.abs_path) [
          | none ↦ Called.panicked
          | some path ↦ elim (add index path obj) [
            | Outcome.panic ↦ Called.panicked
            | Outcome.done index' ↦ returned index' next
          ]
        ]
      ]
    ]

-- The closure of the three loaders: a directory is passed over.
unfoldable pub on_node :
    {A : Type 0}
    → StorageBackend
    → (Bytes → Run DataLoaderError A)
    → Text
    → (CfgIndex → Text → A → Outcome CfgIndex)
    → DirItem
    → CfgIndex
    → Called CfgIndex
on_node backend load_from_slice dir add cur_node index =
    if cur_node.is_dir
    then returned index next
    else on_file backend load_from_slice dir add cur_node index

-- What the three loaders share: the walk over the namespace below the directory.
unfoldable pub load_dir :
    {A : Type 0}
    → StorageBackend
    → (Bytes → Run DataLoaderError A)
    → Text
    → (CfgIndex → Text → A → Outcome CfgIndex)
    → Text
    → CfgIndex
    → VersionItem
    → Run MemoryIndexError CfgIndex
load_dir backend load_from_slice dir add namespace index version =
    elim (strip_prefix (text "/") namespace) [
      | none ↦ err namespace_not_absolute_path
      | some relative ↦ map_err MemoryIndexError.storage_backend_error (
          backend.walk_dir version (join (text "/" ++ dir) relative)
            (on_node backend load_from_slice dir add) index)
    ]

abbrev pub index_rule : CfgIndex → Text → Rule → Outcome CfgIndex
index_rule index path rule =
    Outcome.done (record index { rule_stor = add_rule index.rule_stor path rule })

abbrev pub index_link : CfgIndex → Text → Link → Outcome CfgIndex
index_link index path link =
    Outcome.◌>>=◌ (add_link index.link_stor path link)
      λ stor. Outcome.done (record index { link_stor = stor })

abbrev pub index_res : {J : Type 0} → CfgIndex → Text → Res J → Outcome CfgIndex
index_res index path res =
    Outcome.done (record index { res_stor = add_res index.res_stor path res })

module _ (nom : Nom) (serde : SerdeJson) (backend : StorageBackend) where
  -- `IndexBuilder::load_rule`, `load_link` and `load_res`.
  unfoldable pub load_rule : Text → CfgIndex → VersionItem → Run MemoryIndexError CfgIndex
  unfolding load_dir
  load_rule = load_dir backend (load_rule_from_slice nom serde) (text "rules") index_rule

  unfoldable pub load_link : Text → CfgIndex → VersionItem → Run MemoryIndexError CfgIndex
  unfolding load_dir
  load_link = load_dir backend (load_link_from_slice nom serde) (text "links") index_link

  unfoldable pub load_res : Text → CfgIndex → VersionItem → Run MemoryIndexError CfgIndex
  unfolding load_dir
  load_res = load_dir backend (load_res_from_slice nom serde) (text "reses") index_res

  -- `IndexBuilder::load`.
  unfoldable pub load : Text → VersionItem → Run MemoryIndexError CfgIndex
  load namespace version = do
    with_rules ← load_rule namespace empty_index version
    with_links ← load_link namespace with_rules version
    load_res namespace with_links version
