-- ===== src/Center.antt =====
-- src/cfg_center/: the config center, its namespaces and the reaction to a new version.
-- The handles that the library gives out (`Arc<NamespaceScopedCFGCenter>`) are places in the list
-- `centers`, which stands for the heap: the map `namespaces` and the clients share them.
mod Namespace
pub mod Rounds
pub mod Update
pub mod Expected
pub mod Observe
pub mod Calls
pub mod Events
pub mod Quiet
pub mod Create
pub mod Tests
pub use Namespace.{
  UpdateNotifyLevel, no_notify, notify_without_changed_keys_by_global,
  notify_without_changed_keys_in_namespace, notify_with_maybe_changed_keys,
  NamespaceScopedCfgCenter, Differ, Call,
}
unfoldable pub use Namespace.{
  get_cfg, get_from_old, get_from_new, calls_of, replace_store, update_at, update_namespace,
}
use eafcc_core.Prelude.{
  ℕ, zero, suc, Bool, true, false, not, ◌||◌, Option, none, some, List, [], ◌∷◌, ◌++◌, length,
  if◌then◌else◌,
}
use eafcc_core.Text.{Text, text}
use eafcc_core.HashMap
use eafcc_core.HashMap.{HashMap}
use eafcc_core.Error.{
  CcLibError, QueryError, DifferError, MemoryIndexError, namespace_error, memory_index_error,
  query_error, get_lock_error,
}
use eafcc_core.Run.{Run, ok, err, panicked, map_err}
use eafcc_core.RuleEngine.{MatchContext}
use eafcc_core.Parser.Nom.{Nom}
use eafcc_core.Model.Loader.{SerdeJson}
use eafcc_core.Storage.{VersionItem, StorageChangeEvent, StorageBackend}
use eafcc_core.Storage.Paths.{starts_with_slash, ends_with_slash}
use eafcc_core.MemStore.{MemStorage, new_mem_storage}
use eafcc_core.Querier
use eafcc_core.Querier.{ViewMode, CfgResult}
use eafcc_core.Querier.Sort.{Sorter}

-- `CFGCenterInner`, with the heap of the namespaces and the states of its two locks.
pub record CfgCenter : Type 0 where
  pub centers : List NamespaceScopedCfgCenter
  pub namespaces : HashMap ℕ
  pub namespaces_poisoned : Bool
  pub current_version : VersionItem
  pub version_poisoned : Bool

abbrev pub at_handle : List NamespaceScopedCfgCenter → ℕ → Option NamespaceScopedCfgCenter
at_handle [] h = none
at_handle (c ∷ cs) zero = some c
at_handle (c ∷ cs) (suc h) = at_handle cs h

abbrev pub set_handle :
    List NamespaceScopedCfgCenter → ℕ → NamespaceScopedCfgCenter → List NamespaceScopedCfgCenter
set_handle [] h c' = []
set_handle (c ∷ cs) zero c' = c' ∷ cs
set_handle (c ∷ cs) (suc h) c' = c ∷ set_handle cs h c'

-- `get_namespace_scoped_cfg_center`.
unfoldable pub get_namespace : CfgCenter → Text → Run CcLibError ℕ
get_namespace cc namespace =
    if cc.namespaces_poisoned
    then err (namespace_error (text "get lock error"))
    else elim (HashMap.get cc.namespaces namespace) [
      | some t ↦ ok t
      | none ↦ err (namespace_error (text "no namespace found"))
    ]

-- The end of `create_namespace_scoped_cfg_center`: the new namespace enters the heap and the map.
unfoldable pub insert_namespace :
    CfgCenter → Text → UpdateNotifyLevel → Bool → MemStorage → CfgCenter × Run CcLibError ℕ
insert_namespace cc namespace notify_level has_callback mem_store =
    if cc.namespaces_poisoned then (cc, err (namespace_error (text "get lock error"))) else (
      record cc {
        centers =
            cc.centers
            ++ record {
              namespace = namespace;
              current_memstore = mem_store;
              store_poisoned = false;
              notify_level = notify_level;
              has_callback = has_callback;
            }
              ∷ [];
        namespaces = HashMap.insert cc.namespaces namespace (length cc.centers);
      },
      ok (length cc.centers),
    )

-- What `create_namespace_scoped_cfg_center` makes of the loaded store. The lock of the version is
-- held while the store is loaded, so a panic there poisons it.
unfoldable pub created :
    CfgCenter
    → Text
    → UpdateNotifyLevel
    → Bool
    → Run MemoryIndexError MemStorage
    → CfgCenter × Run CcLibError ℕ
unfolding insert_namespace
created cc namespace notify_level has_callback panicked =
    (record cc { version_poisoned = true }, panicked)
created cc namespace notify_level has_callback (err e) = (cc, err (memory_index_error e))
created cc namespace notify_level has_callback (ok mem_store) =
    insert_namespace cc namespace notify_level has_callback mem_store

-- What the loop of `update_callback` does for one namespace: `continue`, or replace the store, or
-- panic while it holds the locks.
pub data Reaction : Type 0 where
  keep : Reaction
  replace : MemStorage → List Text → Reaction
  unwind : Reaction

-- What the loop leaves: the heap, the callbacks made, and whether it panicked.
abbrev pub Looped : Type 0
Looped = List NamespaceScopedCfgCenter × List Call × Bool

unfoldable pub apply_reaction :
    List NamespaceScopedCfgCenter
    → ℕ
    → NamespaceScopedCfgCenter
    → Reaction
    → (List NamespaceScopedCfgCenter → Looped)
    → Looped
apply_reaction centers handle c keep rest = rest centers
apply_reaction centers handle c unwind rest = (centers, [], true)
apply_reaction centers handle c (replace new_mem_store changes) rest =
    let (c', calls) = update_namespace c new_mem_store changes in
    let (centers', more, broke) = rest (set_handle centers handle c') in
    (centers', calls ++ more, broke)

-- The end of `update_callback`: a panic in the loop poisons both locks and leaves the version.
unfoldable pub finish_update : CfgCenter → StorageChangeEvent → Looped → CfgCenter × List Call
finish_update cc e (centers', calls, broke) =
    if broke
    then (
      record cc { centers = centers'; namespaces_poisoned = true; version_poisoned = true },
      calls,
    )
    else (record cc { centers = centers'; current_version = e.new_version }, calls)

module _ (nom : Nom) (serde : SerdeJson) (backend : StorageBackend) where
  -- `create_namespace_scoped_cfg_center`.
  unfoldable pub create_namespace :
      CfgCenter → Text → UpdateNotifyLevel → Bool → CfgCenter × Run CcLibError ℕ
  unfolding created
  create_namespace cc namespace notify_level has_callback =
      if not (starts_with_slash namespace) || not (ends_with_slash namespace)
      then (cc, err (namespace_error (text "namespace must starts and end with `/`")))
      else if cc.version_poisoned
      then (cc, err (namespace_error (text "get internal lock error")))
      else created cc namespace notify_level has_callback
          (new_mem_storage nom serde backend namespace cc.current_version)

  -- The new store of a namespace, an error being printed and passed over.
  unfoldable pub reload : (MemStorage → Reaction) → Text → VersionItem → Reaction
  reload done_ ns new_version = elim (new_mem_storage nom serde backend ns new_version) [
    | panicked ↦ unwind
    | err e ↦ keep
    | ok new_mem_store ↦ done_ new_mem_store
  ]

  -- The two levels that ask the backend for the changed files first.
  unfoldable pub if_changed :
      (List Text → MemStorage → Reaction) → VersionItem → VersionItem → Text → Reaction
  unfolding reload
  if_changed done_ old_version new_version ns =
      elim (backend.get_diff_list old_version new_version ns) [
        | panicked ↦ unwind
        | err e ↦ keep
        | ok changed_files ↦ elim changed_files [
          | [] ↦ keep
          | file ∷ files ↦ reload (done_ (file ∷ files)) ns new_version
        ]
      ]

  -- One round of the loop. On the level of the changed keys the store is loaded and dropped.
  unfoldable pub react : VersionItem → VersionItem → Text → UpdateNotifyLevel → Reaction
  unfolding reload if_changed
  react old_version new_version ns notify_without_changed_keys_by_global =
      reload (λ new_mem_store. replace new_mem_store []) ns new_version
  react old_version new_version ns notify_without_changed_keys_in_namespace =
      if_changed (λ files new_mem_store. replace new_mem_store files) old_version new_version ns
  react old_version new_version ns notify_with_maybe_changed_keys =
      if_changed (λ files new_mem_store. keep) old_version new_version ns
  react old_version new_version ns no_notify = keep

  -- One round for the entry of the map: `rest` is what follows it in the loop.
  unfoldable pub round :
      VersionItem
      → VersionItem
      → Text × ℕ
      → List NamespaceScopedCfgCenter
      → (List NamespaceScopedCfgCenter → Looped)
      → Looped
  unfolding apply_reaction
  round old_version new_version (ns, handle) centers rest = elim (at_handle centers handle) [
    | none ↦ rest centers
    | some c ↦
        apply_reaction centers handle c (react old_version new_version ns c.notify_level) rest
  ]

  -- The loop over the namespaces.
  unfoldable pub update_all :
      VersionItem → VersionItem → HashMap ℕ → List NamespaceScopedCfgCenter → Looped
  unfolding round
  update_all old_version new_version [] centers = (centers, [], false)
  update_all old_version new_version (entry ∷ namespaces) centers =
      round old_version new_version entry centers (update_all old_version new_version namespaces)

  -- `CFGCenterInner::update_callback`, with the callbacks that it made.
  unfoldable pub update_callback : CfgCenter → StorageChangeEvent → CfgCenter × List Call
  unfolding finish_update
  update_callback cc e =
      if cc.namespaces_poisoned || cc.version_poisoned
      then (cc, [])
      else finish_update cc e (update_all cc.current_version e.new_version cc.namespaces cc.centers)

  -- `CFGCenter::new`: the version is read, then the watcher is set up.
  unfoldable pub new_center : Run CcLibError CfgCenter
  new_center = elim backend.get_current_version [
    | panicked ↦ panicked
    | err e ↦ err (namespace_error (text "can not get newest config version"))
    | ok version ↦ elim backend.set_update_cb [
      | panicked ↦ panicked
      | err e ↦ err (CcLibError.storage_backend_error e)
      | ok _ ↦ ok (record {
        centers = [];
        namespaces = [];
        namespaces_poisoned = false;
        current_version = version;
        version_poisoned = false;
      })
    ]
  ]
