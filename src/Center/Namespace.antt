-- ===== src/Center/Namespace.antt =====
-- src/cfg_center/namespace.rs and differ.rs: one namespace with its store, and what its callback sees.
use eafcc_core.Prelude.{Bool, List, [], ◌∷◌, if◌then◌else◌}
use eafcc_core.Text.{Text}
use eafcc_core.Error.{QueryError, DifferError, query_error, get_lock_error}
use eafcc_core.Run.{Run, err, map_err}
use eafcc_core.RuleEngine.{MatchContext}
use eafcc_core.MemStore.{MemStorage}
use eafcc_core.Querier
use eafcc_core.Querier.{ViewMode, CfgResult}
use eafcc_core.Querier.Sort.{Sorter}

pub data UpdateNotifyLevel : Type 0 where
  no_notify : UpdateNotifyLevel
  notify_without_changed_keys_by_global : UpdateNotifyLevel
  notify_without_changed_keys_in_namespace : UpdateNotifyLevel
  notify_with_maybe_changed_keys : UpdateNotifyLevel

-- `has_callback`: whether a callback was given. What a callback does is outside the program; the
-- model records the calls. `store_poisoned` is the state of the lock of `current_memstore`.
pub record NamespaceScopedCfgCenter : Type 0 where
  pub namespace : Text
  pub current_memstore : MemStorage
  pub store_poisoned : Bool
  pub notify_level : UpdateNotifyLevel
  pub has_callback : Bool

-- differ.rs. The backend of a differ is never read.
pub record Differ : Type 0 where
  pub notify_level : UpdateNotifyLevel
  pub old_mem_store : MemStorage
  pub new_mem_store : MemStorage
  pub changed_files : List Text

-- A callback that was made: by which namespace, and with what.
abbrev pub Call : Type 0
Call = Text × Differ

module _ (sorter : Sorter) where
  -- `NamespaceScopedCFGCenter::get_cfg`.
  unfoldable pub get_cfg :
      NamespaceScopedCfgCenter
      → MatchContext
      → List Text
      → ViewMode
      → Bool
      → Run QueryError (List CfgResult)
  get_cfg ns whoami keys view_mode need_explain =
      if ns.store_poisoned
      then err get_lock_error
      else Querier.get sorter ns.current_memstore whoami keys view_mode need_explain

  -- `Differ::get_from_old` and `get_from_new`.
  unfoldable pub get_from_old :
      Differ → MatchContext → List Text → ViewMode → Bool → Run DifferError (List CfgResult)
  get_from_old differ whoami keys view_mode need_explain =
      map_err query_error
        (Querier.get sorter differ.old_mem_store whoami keys view_mode need_explain)

  unfoldable pub get_from_new :
      Differ → MatchContext → List Text → ViewMode → Bool → Run DifferError (List CfgResult)
  get_from_new differ whoami keys view_mode need_explain =
      map_err query_error
        (Querier.get sorter differ.new_mem_store whoami keys view_mode need_explain)

-- `Differ::get_maybe_changed_keys`.
unfoldable pub get_maybe_changed_keys : Differ → List Text
get_maybe_changed_keys differ = []

-- The callback that a level makes before the store is replaced.
unfoldable pub calls_of : NamespaceScopedCfgCenter → MemStorage → List Text → List Call
calls_of ns new_mem_store changes =
    if ns.has_callback
    then (
      ns.namespace,
      record {
        notify_level = ns.notify_level;
        old_mem_store = ns.current_memstore;
        new_mem_store = new_mem_store;
        changed_files = changes;
      },
    )
      ∷ []
    else []

-- `*current_memstore = new_mem_store`, unless the lock is poisoned.
unfoldable pub replace_store : NamespaceScopedCfgCenter → MemStorage → NamespaceScopedCfgCenter
replace_store ns new_mem_store =
    if ns.store_poisoned then ns else record ns { current_memstore = new_mem_store }

-- `NamespaceScopedCFGCenter::update_callback`. With a callback on the global level a poisoned lock
-- ends it before the call.
unfoldable pub update_at :
    UpdateNotifyLevel
    → NamespaceScopedCfgCenter
    → MemStorage
    → List Text
    → NamespaceScopedCfgCenter × List Call
update_at notify_without_changed_keys_by_global ns new_mem_store changes =
    if ns.store_poisoned
    then (ns, [])
    else (replace_store ns new_mem_store, calls_of ns new_mem_store changes)
update_at notify_without_changed_keys_in_namespace ns new_mem_store changes =
    (replace_store ns new_mem_store, [])
update_at notify_with_maybe_changed_keys ns new_mem_store changes =
    (replace_store ns new_mem_store, [])
update_at no_notify ns new_mem_store changes = (ns, [])

unfoldable pub update_namespace :
    NamespaceScopedCfgCenter → MemStorage → List Text → NamespaceScopedCfgCenter × List Call
unfolding update_at
update_namespace ns new_mem_store changes = update_at ns.notify_level ns new_mem_store changes
