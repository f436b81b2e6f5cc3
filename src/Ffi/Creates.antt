-- ===== src/Ffi/Creates.antt =====
-- `create_namespace` of src/ffi.rs from end to end.
use mathlib.Core.Bool.{◌||◌}
use mathlib.Core.Path.{subst}
use eafcc_core.Prelude.{
  ℕ, ◌≡◌, refl, ap, sym, ◌∙◌, Bool, false, not, Option, some, [], ◌∷◌, ◌++◌, Bool-cases, inl, inr,
  length, if◌then◌else◌, arith,
}
use eafcc_core.Text.{Text, text_eq}
use eafcc_core.Text.Utf8.{Utf8}
use eafcc_core.HashMap
use eafcc_core.HashMap.{get-insert}
use eafcc_core.Outcome.{Outcome, done}
use eafcc_core.Error.{CcLibError, MemoryIndexError}
use eafcc_core.Run.{Run, ok, err}
use eafcc_core.Parser.Nom.{Nom}
use eafcc_core.Model.Loader.{SerdeJson}
use eafcc_core.Storage.{StorageBackend}
use eafcc_core.Storage.Paths.{starts_with_slash, ends_with_slash}
use eafcc_core.MemStore.{MemStorage, new_mem_storage}
use eafcc_core.Center
use eafcc_core.Center.{
  CfgCenter, NamespaceScopedCfgCenter, UpdateNotifyLevel, at_handle, get_namespace,
  insert_namespace, created,
}
use eafcc_core.Center.Create.{at_handle-last}
use eafcc_core.Ffi.{Lib, fail, after_create, create_with_name, create_namespace}

module _ (center : CfgCenter) (name : Text) (level : UpdateNotifyLevel) (cb : Bool) where
  abbrev fresh : MemStorage → NamespaceScopedCfgCenter
  fresh store = record {
    namespace = name;
    current_memstore = store;
    store_poisoned = false;
    notify_level = level;
    has_callback = cb;
  }

  abbrev inserted : MemStorage → CfgCenter
  inserted store = record center {
    centers = center.centers ++ fresh store ∷ [];
    namespaces = HashMap.insert center.namespaces name (length center.centers);
  }

  -- What a creation leaves: the name gives the handle, every other name what it gave, and at the
  -- handle is a namespace with that name, level and callback, and with `store`.
  pub record Creates (center' : CfgCenter) (handle : ℕ) (store : MemStorage) : Type 0 where
    pub names :
        (other : Text)
        → get_namespace center' other
          ≡ (if text_eq name other then ok handle else get_namespace center other)
    pub at_its_handle : at_handle center'.centers handle ≡ some (fresh store)
    pub version : center'.current_version ≡ center.current_version

  inserted-Creates :
      (store : MemStorage)
      → center.namespaces_poisoned ≡ false
      → Creates (inserted store) (length center.centers) store
  unfolding get_namespace
  inserted-Creates store good = record {
    names = λ other.
        ground (arith, good, get-insert center.namespaces name (length center.centers) other);
    at_its_handle = at_handle-last center.centers (fresh store);
    version = refl;
  }

  module _ (center' : CfgCenter) (handle : ℕ) where
    insert_namespace-Creates :
        (store : MemStorage)
        → insert_namespace center name level cb store ≡ (center', ok handle)
        → Creates center' handle store
    unfolding insert_namespace
    insert_namespace-Creates store e = elim (Bool-cases center.namespaces_poisoned) [
      | inl bad ↦ cc (rw bad at e)
      | inr good ↦
          let done_ : insert_namespace center name level cb store
              ≡ (inserted store, ok (length center.centers)) =
            rw good refl in
          moved store good (sym done_ ∙ e)
    ]
      where
        moved :
            (store : MemStorage)
            → center.namespaces_poisoned ≡ false
            → ◌≡◌ {A = CfgCenter × Run CcLibError ℕ}
                (inserted store, ok (length center.centers))
                (center', ok handle)
            → Creates center' handle store
        moved store good same =
            let handles : length center.centers ≡ handle = cc (same) in
            let centers : inserted store ≡ center' =
              ap (λ (r : CfgCenter × Run CcLibError ℕ). r.0) same in
            subst (λ h. Creates center' h store) handles
              (subst (λ c. Creates c (length center.centers) store) centers
                (inserted-Creates store good))

    created-Creates :
        (r : Run MemoryIndexError MemStorage)
        → created center name level cb r ≡ (center', ok handle)
        → (store : MemStorage) × (r ≡ ok store) × Creates center' handle store
    unfolding created
    created-Creates Run.panicked e = cc
    created-Creates (err x) e = cc
    created-Creates (ok store) e = (store, refl, insert_namespace-Creates store e)

module _ (utf8 : Utf8) (nom : Nom) (serde : SerdeJson) (backend : StorageBackend)
    (center center' : CfgCenter) (name : Text) (level : UpdateNotifyLevel) (cb : Bool)
    (handle : ℕ) where
  -- The store of the new namespace loads, and the namespace has it.
  abbrev pub IsCreated : Type 0
  IsCreated =
      (store : MemStorage) × (new_mem_storage nom serde backend name center.current_version
        ≡ ok store)
      × Creates center name level cb center' handle store

  center-IsCreated :
      Center.create_namespace nom serde backend center name level cb ≡ (center', ok handle)
      → IsCreated
  unfolding Center.create_namespace
  center-IsCreated e =
      elim (Bool-cases (not (starts_with_slash name) || not (ends_with_slash name))) [
        | inl bad ↦ cc (rw bad at e)
        | inr good ↦ elim (Bool-cases center.version_poisoned) [
          | inl poisoned ↦ cc (rw (good, poisoned) at e)
          | inr fine ↦
              created-Creates center name level cb center' handle
                (new_mem_storage nom serde backend name center.current_version)
                (sym (goes good fine) ∙ e)
        ]
      ]
    where
      goes :
          (not (starts_with_slash name) || not (ends_with_slash name)) ≡ false
          → center.version_poisoned ≡ false
          → Center.create_namespace nom serde backend center name level cb
            ≡ created center name level cb
                (new_mem_storage nom serde backend name center.current_version)
      goes good fine = rw (good, fine) refl

  -- If a client that gives a name in UTF-8 gets a pointer from `create_namespace`, then right after
  -- the call the center gives that pointer for the name, and for every other name what it gave
  -- before; at the pointer is a namespace of that name, with the level and the callback that were
  -- asked for and with the store that loads for it at the version of the center. The version of the
  -- center and the error slot are as they were.
  pub create_namespace-get_namespace :
      (lib lib' : Lib)
      → create_namespace utf8 nom serde backend center (some (utf8.as_bytes name)) level cb lib
        ≡ (lib', center', done (some handle))
      → (lib' ≡ lib) × IsCreated
  unfolding create_namespace create_with_name after_create fail
  create_namespace-get_namespace lib lib' e =
      at (Center.create_namespace nom serde backend center name level cb) refl (sym named ∙ e)
    where
      named :
          create_namespace utf8 nom serde backend center (some (utf8.as_bytes name)) level cb lib
          ≡ after_create utf8 lib (Center.create_namespace nom serde backend center name level cb)
      named = rw (utf8.from_utf8-as_bytes name) refl

      at :
          (r : CfgCenter × Run CcLibError ℕ)
          → Center.create_namespace nom serde backend center name level cb ≡ r
          → after_create utf8 lib r ≡ (lib', center', done (some handle))
          → (lib' ≡ lib) × IsCreated
      at (c, Run.panicked) same e' = cc
      at (c, err x) same e' = cc
      at (c, ok h) same e' = (
        sym (ap (λ (r : Lib × CfgCenter × Outcome (Option ℕ)). r.0) e'),
        center-IsCreated (same ∙ cc (e')),
      )
