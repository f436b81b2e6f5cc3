-- ===== src/Center/Expected.antt =====
-- What a new version should make of one namespace (cfg_center/cfg_center.rs and namespace.rs),
-- said without the loop, and the loop against it.
use mathlib.Core.Bool.{not, ◌&&◌}
use eafcc_core.Prelude.{
  ℕ, ◌≡◌, refl, Bool, true, false, some, List, [], ◌∷◌, In, ap, ◌∙◌, if◌then◌else◌, arith,
}
use eafcc_core.Text.{Text}
use eafcc_core.Error.{StorageBackendError, MemoryIndexError}
use eafcc_core.Run.{Run, ok, err, panicked}
use eafcc_core.Parser.Nom.{Nom}
use eafcc_core.Model.Loader.{SerdeJson}
use eafcc_core.Storage.{VersionItem, StorageChangeEvent, StorageBackend}
use eafcc_core.MemStore.{MemStorage, new_mem_storage}
use eafcc_core.Center.{
  NamespaceScopedCfgCenter, CfgCenter, UpdateNotifyLevel, no_notify,
  notify_without_changed_keys_by_global, notify_without_changed_keys_in_namespace,
  notify_with_maybe_changed_keys, at_handle, update_callback, react, reload, if_changed,
  update_namespace, update_at, replace_store,
}
use eafcc_core.Center.Create.{IsWellFormed}
use eafcc_core.Center.Rounds.{after_reaction}
use eafcc_core.Center.Update.{looped, update_callback-react}

-- Whether a namespace of this level is to have the new store, by the changed files that the backend
-- lists: always on the global level, on the level of the namespace if some file changed.
abbrev pub is_due : UpdateNotifyLevel → Run StorageBackendError (List Text) → Bool
is_due notify_without_changed_keys_by_global diff = true
is_due notify_without_changed_keys_in_namespace (ok (file ∷ files)) = true
is_due notify_without_changed_keys_in_namespace (ok []) = false
is_due notify_without_changed_keys_in_namespace (err e) = false
is_due notify_without_changed_keys_in_namespace panicked = false
is_due notify_with_maybe_changed_keys diff = false
is_due no_notify diff = false

abbrev pub store_or : MemStorage → Run MemoryIndexError MemStorage → MemStorage
store_or old (ok new_mem_store) = new_mem_store
store_or old (err e) = old
store_or old panicked = old

-- The namespace with the loaded store if it is due and its lock is not poisoned, all else as it was.
abbrev pub updated :
    NamespaceScopedCfgCenter
    → UpdateNotifyLevel
    → Run StorageBackendError (List Text)
    → Run MemoryIndexError MemStorage
    → NamespaceScopedCfgCenter
updated c level diff store = record c {
  current_memstore =
      if is_due level diff && not c.store_poisoned
      then store_or c.current_memstore store
      else c.current_memstore;
}

module _ (nom : Nom) (serde : SerdeJson) (backend : StorageBackend) (old new : VersionItem) where
  updated_lem :
      (c : NamespaceScopedCfgCenter) (ns : Text) (level : UpdateNotifyLevel)
      → c.notify_level ≡ level
      → after_reaction c (react nom serde backend old new ns level)
        ≡ updated c level
            (backend.get_diff_list old new ns)
            (new_mem_storage nom serde backend ns new)
  unfolding react reload if_changed update_namespace update_at replace_store
  updated_lem c ns notify_without_changed_keys_by_global e = ground (arith, e)
  updated_lem c ns notify_without_changed_keys_in_namespace e = ground (arith, e)
  updated_lem c ns notify_with_maybe_changed_keys e = ground (arith, e)
  updated_lem c ns no_notify e = refl

module _ (nom : Nom) (serde : SerdeJson) (backend : StorageBackend) (center : CfgCenter)
    (e : StorageChangeEvent) where
  -- If the center is well-formed, its locks are not poisoned and the loop does not panic, then
  -- after a new version the version of the center is the new one, and every namespace of the map
  -- has the store that loads at the new version if it is due and its own lock is not poisoned, and
  -- its old store if it is not due, its lock is poisoned or the load fails; it is otherwise as it
  -- was. It is due on the global level, and on the level of the namespace if the backend lists a
  -- changed file.
  pub update_callback-entry :
      (ns : Text) (h : ℕ) (c : NamespaceScopedCfgCenter)
      → IsWellFormed center
      → center.namespaces_poisoned ≡ false
      → center.version_poisoned ≡ false
      → (looped nom serde backend center e).2 ≡ false
      → In (ns, h) center.namespaces
      → at_handle center.centers h ≡ some c
      → ((update_callback nom serde backend center e).0.current_version ≡ e.new_version)
        × (at_handle (update_callback nom serde backend center e).0.centers h
            ≡ some (
                updated c c.notify_level
                  (backend.get_diff_list center.current_version e.new_version ns)
                  (new_mem_storage nom serde backend ns e.new_version)))
  update_callback-entry ns h c w np vp fine i at =
      let (version, entry) =
        update_callback-react nom serde backend center e ns h c w np vp fine i at in
      (
        version,
        entry
            ∙ ap (λ (x : NamespaceScopedCfgCenter). some x)
                (updated_lem nom serde backend center.current_version e.new_version c ns
                  c.notify_level refl),
      )
