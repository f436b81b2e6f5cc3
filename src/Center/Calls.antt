-- ===== src/Center/Calls.antt =====
-- Which callbacks an update makes (cfg_center/cfg_center.rs and namespace.rs).
use eafcc_core.Prelude.{
  ℕ, ◌≡◌, refl, ap, ◌∙◌, ◌⊎◌, inl, inr, true, false, Option, none, some, List, [], ◌∷◌, ◌||◌, In,
  In-append_split, Bool-cases,
}
use eafcc_core.Text.{Text}
use eafcc_core.HashMap.{HashMap}
use eafcc_core.Error.{MemoryIndexError}
use eafcc_core.Run.{Run, ok, err, panicked}
use eafcc_core.Parser.Nom.{Nom}
use eafcc_core.Model.Loader.{SerdeJson}
use eafcc_core.Storage.{VersionItem, StorageChangeEvent, StorageBackend}
use eafcc_core.MemStore.{MemStorage, new_mem_storage}
use eafcc_core.Center.{
  NamespaceScopedCfgCenter, UpdateNotifyLevel, CfgCenter, Call, Reaction, keep, replace, unwind,
  no_notify, notify_without_changed_keys_by_global, notify_without_changed_keys_in_namespace,
  notify_with_maybe_changed_keys, at_handle, update_at, update_namespace, calls_of, Looped,
  apply_reaction, round, reload, react, update_all, finish_update, update_callback,
}
use eafcc_core.Center.Observe.{calls_of-differ}

-- A call of a namespace on the global level, with no changed files.
abbrev pub IsGlobal : Call → Type 0
IsGlobal call =
    (call.1.notify_level ≡ notify_without_changed_keys_by_global) × (call.1.changed_files ≡ [])

-- What a round for this namespace calls.
abbrev calls_in : NamespaceScopedCfgCenter → Reaction → List Call
calls_in c keep = []
calls_in c unwind = []
calls_in c (replace new_mem_store changes) = (update_namespace c new_mem_store changes).1

module _ (c : NamespaceScopedCfgCenter) (m : MemStorage) (changes : List Text) (call : Call) where
  update_at-level :
      (level : UpdateNotifyLevel)
      → In call (update_at level c m changes).1
      → (level ≡ notify_without_changed_keys_by_global) × In call (calls_of c m changes)
  unfolding update_at
  update_at-level notify_without_changed_keys_by_global i = elim (Bool-cases c.store_poisoned) [
    | inl bad ↦ elim (nothing (simp bad at i)) [ ]
    | inr fine ↦ (refl, simp fine at i)
  ]
    where
      nothing : In call [] → ⊥
      nothing j = elim j [ ]
  update_at-level notify_without_changed_keys_in_namespace i = elim i [ ]
  update_at-level notify_with_maybe_changed_keys i = elim i [ ]
  update_at-level no_notify i = elim i [ ]

  update_namespace-IsGlobal :
      (c.notify_level ≡ notify_without_changed_keys_by_global → changes ≡ [])
      → In call (update_namespace c m changes).1
      → IsGlobal call
  unfolding update_namespace
  update_namespace-IsGlobal files i =
      let (level, j) = update_at-level c.notify_level i in
      let same = calls_of-differ c m changes call j in
      (ap (λ d. d.notify_level) same ∙ level, ap (λ d. d.changed_files) same ∙ files level)

module _ (c : NamespaceScopedCfgCenter) (call : Call) where
  calls_in-IsGlobal :
      (r : Reaction)
      → ((m : MemStorage) (changes : List Text)
          → r ≡ replace m changes
          → c.notify_level ≡ notify_without_changed_keys_by_global
          → changes ≡ [])
      → In call (calls_in c r)
      → IsGlobal call
  calls_in-IsGlobal keep files i = elim i [ ]
  calls_in-IsGlobal unwind files i = elim i [ ]
  calls_in-IsGlobal (replace m changes) files i =
      update_namespace-IsGlobal c m changes call (files m changes refl) i

  -- A call of a round is the round's own, or one of the rest of the loop.
  apply_reaction-In :
      (cs : List NamespaceScopedCfgCenter) (k : ℕ) (r : Reaction)
      (rest : List NamespaceScopedCfgCenter → Looped)
      → In call (apply_reaction cs k c r rest).1
      → In call (calls_in c r) ⊎ ((cs' : List NamespaceScopedCfgCenter) × In call (rest cs').1)
  unfolding apply_reaction
  apply_reaction-In cs k keep rest i = inr (cs, i)
  apply_reaction-In cs k unwind rest i = elim i [ ]
  apply_reaction-In cs k (replace m changes) rest i =
      elim (In-append_split (update_namespace c m changes).1 _ i) [
        | inl own ↦ inl own
        | inr later ↦ inr (_, later)
      ]

module _ (nom : Nom) (serde : SerdeJson) (backend : StorageBackend) (old new : VersionItem) where
  react-files :
      (ns : Text) (level : UpdateNotifyLevel) (m : MemStorage) (changes : List Text)
      → react nom serde backend old new ns level ≡ replace m changes
      → level ≡ notify_without_changed_keys_by_global
      → changes ≡ []
  unfolding react reload
  react-files ns notify_without_changed_keys_by_global m changes e g =
      at (new_mem_storage nom serde backend ns new) e
    where
      at :
          (r : Run MemoryIndexError MemStorage)
          → (elim r [ panicked ↦ unwind | err x ↦ keep | ok s ↦ replace s [] ]) ≡ replace m changes
          → changes ≡ []
      at panicked h = cc
      at (err x) h = cc
      at (ok s) h = cc
  react-files ns notify_without_changed_keys_in_namespace m changes e g = cc
  react-files ns notify_with_maybe_changed_keys m changes e g = cc
  react-files ns no_notify m changes e g = cc

  abbrev round_of :
      Text
      → ℕ
      → List NamespaceScopedCfgCenter
      → HashMap ℕ
      → Option NamespaceScopedCfgCenter
      → Looped
  round_of ns k cs ms none = update_all nom serde backend old new ms cs
  round_of ns k cs ms (some c) =
      apply_reaction cs k c (react nom serde backend old new ns c.notify_level)
        (update_all nom serde backend old new ms)

  update_all-IsGlobal :
      (ms : HashMap ℕ) (cs : List NamespaceScopedCfgCenter) (call : Call)
      → In call (update_all nom serde backend old new ms cs).1
      → IsGlobal call
  unfolding update_all round
  update_all-IsGlobal [] cs call i = elim i [ ]
  update_all-IsGlobal ((ns, k) ∷ ms) cs call i =
      at (at_handle cs k) (λ cs' j. update_all-IsGlobal ms cs' call j) i
    where
      at :
          (o : Option NamespaceScopedCfgCenter)
          → ((cs' : List NamespaceScopedCfgCenter)
              → In call (update_all nom serde backend old new ms cs').1
              → IsGlobal call)
          → In call (round_of ns k cs ms o).1
          → IsGlobal call
      at none ih j = ih cs j
      at (some c) ih j = elim (apply_reaction-In c call cs k _ _ j) [
        | inl own ↦ calls_in-IsGlobal c call _ (react-files ns c.notify_level) own
        | inr (cs', later) ↦ ih cs' later
      ]

-- Every callback that an update makes is that of a namespace on the level
-- `NotifyWithoutChangedKeysByGlobal`, and it is told no changed files: on the other levels no
-- callback is ever called.
pub update_callback-IsGlobal :
    (nom : Nom) (serde : SerdeJson) (backend : StorageBackend) (center : CfgCenter)
    (e : StorageChangeEvent) (call : Call)
    → In call (update_callback nom serde backend center e).1
    → IsGlobal call
unfolding update_callback finish_update
update_callback-IsGlobal nom serde backend center e call i =
    elim (Bool-cases (center.namespaces_poisoned || center.version_poisoned)) [
      | inl bad ↦ elim (nothing (simp bad at i)) [ ]
      | inr good ↦
          update_all-IsGlobal nom serde backend center.current_version e.new_version
            center.namespaces center.centers call (finished _ (simp good at i))
    ]
  where
    nothing : In call [] → ⊥
    nothing j = elim j [ ]

    finished : (l : Looped) → In call (finish_update center e l).1 → In call l.1
    finished (cs, calls, true) j = j
    finished (cs, calls, false) j = j
