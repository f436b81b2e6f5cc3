-- ===== src/Center/Events.antt =====
-- The center behind the watcher of a backend: what its events do to it, one after the other
-- (cfg_center/cfg_center.rs, the closure that `CFGCenter::new` hands to `set_update_cb`).
use eafcc_core.Prelude.{
  ℕ, suc, ◌≡◌, ◌≢◌, refl, ap, ◌∙◌, true, false, Option, none, some, List, [], ◌∷◌,
}
use eafcc_core.Text.{Text}
use eafcc_core.HashMap.{HashMap}
use eafcc_core.Error.{MemoryIndexError, StorageBackendError}
use eafcc_core.Run.{Run, ok, err, panicked}
use eafcc_core.Parser.Nom.{Nom}
use eafcc_core.Model.Loader.{SerdeJson}
use eafcc_core.Storage.{VersionItem, StorageChangeEvent, StorageBackend}
use eafcc_core.MemStore.{MemStorage, new_mem_storage}
use eafcc_core.Center.Update.{update_callback-open}
use eafcc_core.Center.Rounds.{round-none, round-some}
use eafcc_core.Center.{
  NamespaceScopedCfgCenter, UpdateNotifyLevel, CfgCenter, Reaction, keep, replace, unwind,
  no_notify, notify_without_changed_keys_by_global, notify_without_changed_keys_in_namespace,
  notify_with_maybe_changed_keys, at_handle, Looped, apply_reaction, round, reload, if_changed,
  react, update_all, finish_update, update_callback,
}

-- The locks of the center are as good as new.
abbrev pub IsUnpoisoned : CfgCenter → Type 0
IsUnpoisoned center = (center.namespaces_poisoned ≡ false) × (center.version_poisoned ≡ false)

-- The version of the last event, or the one before all of them.
abbrev pub last_version : VersionItem → List StorageChangeEvent → VersionItem
last_version version [] = version
last_version version (e ∷ events) = last_version e.new_version events

module _ (nom : Nom) (serde : SerdeJson) where
  -- The events of a watcher, each with the storage as it is then: `storage n` at the event that
  -- `n` others precede.
  unfoldable pub updates :
      (ℕ → StorageBackend) → ℕ → CfgCenter → List StorageChangeEvent → CfgCenter
  updates storage n center [] = center
  updates storage n center (e ∷ events) =
      updates storage (suc n) (update_callback nom serde (storage n) center e).0 events

  -- Neither the load of a namespace nor the list of changed files panics.
  pub record NeverPanics (backend : StorageBackend) : Type 0 where
    pub loads :
        (namespace : Text) (version : VersionItem)
        → new_mem_storage nom serde backend namespace version ≢ panicked
    pub lists :
        (old new : VersionItem) (namespace : Text)
        → backend.get_diff_list old new namespace ≢ panicked

  module _ (backend : StorageBackend) (calm : NeverPanics backend) (old new : VersionItem) where
    reload-ne-unwind :
        (done_ : MemStorage → Reaction) (ns : Text)
        → ((m : MemStorage) → done_ m ≢ unwind)
        → reload nom serde backend done_ ns new ≢ unwind
    unfolding reload
    reload-ne-unwind done_ ns fine =
        at (new_mem_storage nom serde backend ns new) (calm.loads ns new)
      where
        at :
            (r : Run MemoryIndexError MemStorage)
            → r ≢ panicked
            → (elim r [ panicked ↦ unwind | err e ↦ keep | ok m ↦ done_ m ]) ≢ unwind
        at panicked h e = h refl
        at (err x) h e = cc
        at (ok m) h e = fine m e

    if_changed-ne-unwind :
        (done_ : List Text → MemStorage → Reaction) (ns : Text)
        → ((files : List Text) (m : MemStorage) → done_ files m ≢ unwind)
        → if_changed nom serde backend done_ old new ns ≢ unwind
    unfolding if_changed
    if_changed-ne-unwind done_ ns fine =
        at (backend.get_diff_list old new ns) (calm.lists old new ns)
      where
        at :
            (r : Run StorageBackendError (List Text))
            → r ≢ panicked
            → (elim r [
              | panicked ↦ unwind
              | err x ↦ keep
              | ok changed_files ↦ elim changed_files [
                | [] ↦ keep
                | file ∷ files ↦ reload nom serde backend (done_ (file ∷ files)) ns new
              ]
            ])
              ≢ unwind
        at panicked h e = h refl
        at (err x) h e = cc
        at (ok []) h e = cc
        at (ok (file ∷ files)) h e =
            reload-ne-unwind (done_ (file ∷ files)) ns (fine (file ∷ files)) e

    react-ne-unwind :
        (ns : Text) (level : UpdateNotifyLevel) → react nom serde backend old new ns level ≢ unwind
    unfolding react
    react-ne-unwind ns notify_without_changed_keys_by_global =
        reload-ne-unwind (λ m. replace m []) ns (λ m e. cc)
    react-ne-unwind ns notify_without_changed_keys_in_namespace =
        if_changed-ne-unwind (λ files m. replace m files) ns (λ files m e. cc)
    react-ne-unwind ns notify_with_maybe_changed_keys =
        if_changed-ne-unwind (λ files m. keep) ns (λ files m e. cc)
    react-ne-unwind ns no_notify = λ e. cc

    apply_reaction-ends :
        (cs : List NamespaceScopedCfgCenter) (k : ℕ) (c : NamespaceScopedCfgCenter) (r : Reaction)
        (rest : List NamespaceScopedCfgCenter → Looped)
        → r ≢ unwind
        → ((cs' : List NamespaceScopedCfgCenter) → (rest cs').2 ≡ false)
        → (apply_reaction cs k c r rest).2 ≡ false
    unfolding apply_reaction
    apply_reaction-ends cs k c keep rest fine ih = ih cs
    apply_reaction-ends cs k c unwind rest fine ih = absurd (fine refl)
    apply_reaction-ends cs k c (replace m changes) rest fine ih = ih _

    round-ends :
        (ns : Text) (k : ℕ) (cs : List NamespaceScopedCfgCenter)
        (rest : List NamespaceScopedCfgCenter → Looped)
        → ((cs' : List NamespaceScopedCfgCenter) → (rest cs').2 ≡ false)
        → (round nom serde backend old new (ns, k) cs rest).2 ≡ false
    round-ends ns k cs rest ih = at (at_handle cs k) refl
      where
        at :
            (o : Option NamespaceScopedCfgCenter)
            → at_handle cs k ≡ o
            → (round nom serde backend old new (ns, k) cs rest).2 ≡ false
        at none e =
            ap (λ (l : Looped). l.2) (round-none nom serde backend old new ns k cs rest e) ∙ ih cs
        at (some c) e =
            ap (λ (l : Looped). l.2) (round-some nom serde backend old new ns k cs rest c e)
            ∙ apply_reaction-ends cs k c _ rest (react-ne-unwind ns c.notify_level) ih

    update_all-ends :
        (ms : HashMap ℕ) (cs : List NamespaceScopedCfgCenter)
        → (update_all nom serde backend old new ms cs).2 ≡ false
    unfolding update_all
    update_all-ends [] cs = refl
    update_all-ends ((ns, k) ∷ ms) cs =
        round-ends ns k cs (update_all nom serde backend old new ms) (λ cs'. update_all-ends ms cs')

  finish_update-fresh :
      (center : CfgCenter) (e : StorageChangeEvent) (l : Looped)
      → IsUnpoisoned center
      → l.2 ≡ false
      → IsUnpoisoned (finish_update center e l).0
        × ((finish_update center e l).0.current_version ≡ e.new_version)
  unfolding finish_update
  finish_update-fresh center e (cs, calls, true) fresh h = cc
  finish_update-fresh center e (cs, calls, false) fresh h = (fresh, refl)

  -- An update with a storage that does not panic.
  update_callback-fresh :
      (backend : StorageBackend) (center : CfgCenter) (e : StorageChangeEvent)
      → NeverPanics backend
      → IsUnpoisoned center
      → IsUnpoisoned (update_callback nom serde backend center e).0
        × ((update_callback nom serde backend center e).0.current_version ≡ e.new_version)
  update_callback-fresh backend center e calm fresh =
      rw (update_callback-open nom serde backend center e fresh.0 fresh.1) (
        finish_update-fresh center e _ fresh (
          update_all-ends backend calm center.current_version e.new_version center.namespaces
            center.centers))

  -- If the storage never panics and the locks of the center are not poisoned, then after any events
  -- the locks are not poisoned and the version of the center is that of the last event: no event
  -- leaves the center behind, whatever errors the loads gave.
  pub updates-last_version :
      (storage : ℕ → StorageBackend) (n : ℕ) (center : CfgCenter) (events : List StorageChangeEvent)
      → ((k : ℕ) → NeverPanics (storage k))
      → IsUnpoisoned center
      → IsUnpoisoned (updates storage n center events)
        × ((updates storage n center events).current_version
            ≡ last_version center.current_version events)
  unfolding updates
  updates-last_version storage n center [] calm fresh = (fresh, refl)
  updates-last_version storage n center (e ∷ events) calm fresh =
      let (fresh', version) = update_callback-fresh (storage n) center e (calm n) fresh in
      let (ends, last) =
        updates-last_version storage (suc n) (update_callback nom serde (storage n) center e).0
          events calm fresh' in
      (ends, last ∙ ap (λ v. last_version v events) version)
