-- ===== src/Center/Create.antt =====
-- The heap and the map of namespaces (cfg_center/cfg_center.rs), and how a new namespace enters.
use eafcc_core.Prelude.{
  ℕ, zero, suc, ◌<◌, ◌≡◌, ◌≢◌, refl, ap, sym, Bool, true, false, some, List, [], ◌∷◌, ◌++◌, arith,
  length, All, Bool-cases, inl, inr,
}
use eafcc_core.Text.{Text, text, text_eq, text_eq_iff}
use eafcc_core.HashMap
use eafcc_core.HashMap.{HashMap, get-insert}
use mathlib.Core.Bool.{not, ◌||◌}
use eafcc_core.Error.{CcLibError, MemoryIndexError, namespace_error}
use eafcc_core.Run.{Run, ok, err, panicked}
use eafcc_core.Parser.Nom.{Nom}
use eafcc_core.Model.Loader.{SerdeJson}
use eafcc_core.Storage.{StorageBackend, StorageChangeEvent}
use eafcc_core.Storage.Paths.{starts_with_slash, ends_with_slash}
use eafcc_core.MemStore.{MemStorage, new_mem_storage}
use eafcc_core.Center.{
  NamespaceScopedCfgCenter, UpdateNotifyLevel, CfgCenter, at_handle, set_handle, insert_namespace,
  created, create_namespace, update_callback,
}

-- A handle of the map stands for a namespace of that name.
abbrev pub Names : List NamespaceScopedCfgCenter → Text × ℕ → Type 0
Names centers e =
    (c : NamespaceScopedCfgCenter) × (at_handle centers e.1 ≡ some c) × (c.namespace ≡ e.0)

-- No two entries share a handle.
abbrev pub DistinctHandles : HashMap ℕ → Type 0
DistinctHandles [] = Unit
DistinctHandles (e ∷ m) = All (λ (f : Text × ℕ). f.1 ≢ e.1) m × DistinctHandles m

pub record IsWellFormed (cc : CfgCenter) : Type 0 where
  pub named : All (Names cc.centers) cc.namespaces
  pub distinct : DistinctHandles cc.namespaces

pub at_handle-lt-length :
    (cs : List NamespaceScopedCfgCenter) (h : ℕ) (c : NamespaceScopedCfgCenter)
    → at_handle cs h ≡ some c
    → h < length cs
at_handle-lt-length [] h c e = cc
at_handle-lt-length (x ∷ cs) zero c e = omega arith
at_handle-lt-length (x ∷ cs) (suc h) c e = omega (arith, at_handle-lt-length cs h c e)

pub at_handle-append :
    (cs : List NamespaceScopedCfgCenter) (d c : NamespaceScopedCfgCenter) (h : ℕ)
    → at_handle cs h ≡ some c
    → at_handle (cs ++ d ∷ []) h ≡ some c
at_handle-append [] d c h e = cc
at_handle-append (x ∷ cs) d c zero e = e
at_handle-append (x ∷ cs) d c (suc h) e = at_handle-append cs d c h e

pub at_handle-last :
    (cs : List NamespaceScopedCfgCenter) (d : NamespaceScopedCfgCenter)
    → at_handle (cs ++ d ∷ []) (length cs) ≡ some d
at_handle-last [] d = refl
at_handle-last (x ∷ cs) d = at_handle-last cs d

pub at_handle-set_self :
    (cs : List NamespaceScopedCfgCenter) (h : ℕ) (c c' : NamespaceScopedCfgCenter)
    → at_handle cs h ≡ some c
    → at_handle (set_handle cs h c') h ≡ some c'
at_handle-set_self [] h c c' e = cc
at_handle-set_self (x ∷ cs) zero c c' e = refl
at_handle-set_self (x ∷ cs) (suc h) c c' e = at_handle-set_self cs h c c' e

pub at_handle-set_ne :
    (cs : List NamespaceScopedCfgCenter) (h k : ℕ) (c' : NamespaceScopedCfgCenter)
    → k ≢ h
    → at_handle (set_handle cs h c') k ≡ at_handle cs k
at_handle-set_ne [] h k c' n = refl
at_handle-set_ne (x ∷ cs) zero zero c' n = absurd (n refl)
at_handle-set_ne (x ∷ cs) zero (suc k) c' n = refl
at_handle-set_ne (x ∷ cs) (suc h) zero c' n = refl
at_handle-set_ne (x ∷ cs) (suc h) (suc k) c' n = at_handle-set_ne cs h k c' (λ e. n (ap suc e))

module _ (cs : List NamespaceScopedCfgCenter) (d : NamespaceScopedCfgCenter) where
  Names-append : (e : Text × ℕ) → Names cs e → Names (cs ++ d ∷ []) e
  Names-append e (c, at, name) = (c, at_handle-append cs d c e.1 at, name)

  fresh : (e : Text × ℕ) → Names cs e → e.1 ≢ length cs
  fresh e (c, at, name) same = omega (arith, at_handle-lt-length cs e.1 c at)

  named-append : (m : HashMap ℕ) → All (Names cs) m → All (Names (cs ++ d ∷ [])) m
  named-append [] h = tt
  named-append (e ∷ m) h = (Names-append e h.0, named-append m h.1)

  named-insert :
      (m : HashMap ℕ)
      → All (Names cs) m
      → All (Names (cs ++ d ∷ [])) (HashMap.insert m d.namespace (length cs))
  unfolding HashMap.insert
  named-insert [] h = ((d, at_handle-last cs d, refl), tt)
  named-insert ((ns, k) ∷ m) h = elim (Bool-cases (text_eq ns d.namespace)) [
    | inl same ↦
        rw same
          ((d, at_handle-last cs d, sym ((text_eq_iff ns d.namespace).0 same)), named-append m h.1)
    | inr other ↦ rw other (Names-append (ns, k) h.0, named-insert m h.1)
  ]

  All-fresh : (m : HashMap ℕ) → All (Names cs) m → All (λ (f : Text × ℕ). f.1 ≢ length cs) m
  All-fresh [] h = tt
  All-fresh (e ∷ m) h = (fresh e h.0, All-fresh m h.1)

  still_other :
      (k : ℕ) (m : HashMap ℕ) (name : Text)
      → k ≢ length cs
      → All (λ (f : Text × ℕ). f.1 ≢ k) m
      → All (λ (f : Text × ℕ). f.1 ≢ k) (HashMap.insert m name (length cs))
  unfolding HashMap.insert
  still_other k [] name n h = ((λ e. n (sym e)), tt)
  still_other k ((ns, j) ∷ m) name n h = elim (Bool-cases (text_eq ns name)) [
    | inl same ↦ rw same ((λ e. n (sym e)), h.1)
    | inr other ↦ rw other (h.0, still_other k m name n h.1)
  ]

  distinct-insert :
      (m : HashMap ℕ) (name : Text)
      → All (Names cs) m
      → DistinctHandles m
      → DistinctHandles (HashMap.insert m name (length cs))
  unfolding HashMap.insert
  distinct-insert [] name h u = (tt, tt)
  distinct-insert ((ns, k) ∷ m) name h u = elim (Bool-cases (text_eq ns name)) [
    | inl same ↦ rw same (All-fresh m h.1, u.1)
    | inr other ↦
        rw other (still_other k m name (fresh (ns, k) h.0) u.0, distinct-insert m name h.1 u.1)
  ]

pub insert_namespace-IsWellFormed :
    (cc : CfgCenter) (name : Text) (level : UpdateNotifyLevel) (cb : Bool) (store : MemStorage)
    → IsWellFormed cc
    → IsWellFormed (insert_namespace cc name level cb store).0
unfolding insert_namespace
insert_namespace-IsWellFormed cc name level cb store w = elim (Bool-cases cc.namespaces_poisoned) [
  | inl bad ↦ simp bad w
  | inr good ↦ simp good (record {
    named = named-insert cc.centers _ cc.namespaces w.named;
    distinct = distinct-insert cc.centers new cc.namespaces name w.named w.distinct;
  })
]
  where
    new : NamespaceScopedCfgCenter
    new = record {
      namespace = name;
      current_memstore = store;
      store_poisoned = false;
      notify_level = level;
      has_callback = cb;
    }

module _ (nom : Nom) (serde : SerdeJson) (backend : StorageBackend) where
  -- `create_namespace_scoped_cfg_center` keeps a well-formed center well-formed, in every outcome.
  pub create_namespace-IsWellFormed :
      (center : CfgCenter) (name : Text) (level : UpdateNotifyLevel) (cb : Bool)
      → IsWellFormed center
      → IsWellFormed (create_namespace nom serde backend center name level cb).0
  unfolding create_namespace
  create_namespace-IsWellFormed center name level cb w =
      elim (Bool-cases (not (starts_with_slash name) || not (ends_with_slash name))) [
        | inl bad ↦ simp bad w
        | inr good ↦ elim (Bool-cases center.version_poisoned) [
          | inl poisoned ↦ simp (good, poisoned) w
          | inr fine ↦
              simp (good, fine)
                (loaded (new_mem_storage nom serde backend name center.current_version))
        ]
      ]
    where
      loaded :
          (r : Run MemoryIndexError MemStorage) → IsWellFormed (created center name level cb r).0
      loaded panicked = record { named = w.named; distinct = w.distinct }
      loaded (err x) = w
      loaded (ok store) = insert_namespace-IsWellFormed center name level cb store w

  lost-update :
      (center : CfgCenter) (e : StorageChangeEvent)
      → center.version_poisoned ≡ true
      → update_callback nom serde backend center e ≡ (center, [])
  unfolding update_callback
  lost-update center e bad = elim (Bool-cases center.namespaces_poisoned) [
    | inl both ↦ simp (both, bad)
    | inr one ↦ simp (one, bad)
  ]

  lost-create :
      (center : CfgCenter) (name : Text) (level : UpdateNotifyLevel) (cb : Bool)
      → center.version_poisoned ≡ true
      → (x : CcLibError) × (create_namespace nom serde backend center name level cb
          ≡ (center, err x))
  unfolding create_namespace
  lost-create center name level cb bad =
      elim (Bool-cases (not (starts_with_slash name) || not (ends_with_slash name))) [
        | inl wrong ↦ (namespace_error (text "namespace must starts and end with `/`"), simp wrong)
        | inr right ↦ (namespace_error (text "get internal lock error"), simp (right, bad))
      ]

  panic-poisons :
      (center : CfgCenter) (name : Text) (level : UpdateNotifyLevel) (cb : Bool)
      → starts_with_slash name ≡ true
      → ends_with_slash name ≡ true
      → center.version_poisoned ≡ false
      → new_mem_storage nom serde backend name center.current_version ≡ panicked
      → (create_namespace nom serde backend center name level cb).0.version_poisoned ≡ true
  unfolding create_namespace
  panic-poisons center name level cb s t fine bad = simp (s, t, fine, bad)

  -- If the load of a new namespace panics (as `add_link` does on a short path), the center is
  -- lost: from then on no update changes anything and every creation is refused.
  pub create_namespace-poisons :
      (center : CfgCenter) (name : Text) (level : UpdateNotifyLevel) (cb : Bool)
      → starts_with_slash name ≡ true
      → ends_with_slash name ≡ true
      → center.version_poisoned ≡ false
      → new_mem_storage nom serde backend name center.current_version ≡ panicked
      → (e : StorageChangeEvent) (other : Text) (level' : UpdateNotifyLevel) (cb' : Bool)
      → let after = (create_namespace nom serde backend center name level cb).0 in
        (update_callback nom serde backend after e ≡ (after, []))
        × (x : CcLibError) × (create_namespace nom serde backend after other level' cb'
            ≡ (after, err x))
  create_namespace-poisons center name level cb s t fine bad e other level' cb' =
      let lost = panic-poisons center name level cb s t fine bad in
      let (x, refused) = lost-create _ other level' cb' lost in (lost-update _ e lost, x, refused)
