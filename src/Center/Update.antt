-- ===== src/Center/Update.antt =====
-- What a new version does to the namespaces (cfg_center/cfg_center.rs and namespace.rs).
use mathlib.Core.Path.{subst}
use mathlib.Core.Bool.{◌||◌}
use mathlib.Core.Option.{some-injective}
use eafcc_core.Prelude.{
  ℕ, ◌≡◌, ◌≢◌, refl, ap, sym, ◌∙◌, ◌⊎◌, inl, inr, true, false, Option, none, some, List, [], ◌∷◌,
  arith, All, All-In, In, here, there, Bool-cases,
}
use eafcc_core.Text.{Text}
use eafcc_core.HashMap.{HashMap}
use eafcc_core.Parser.Nom.{Nom}
use eafcc_core.Model.Loader.{SerdeJson}
use eafcc_core.Storage.{VersionItem, StorageChangeEvent, StorageBackend}
use eafcc_core.Center.{
  NamespaceScopedCfgCenter, CfgCenter, keep, no_notify, notify_with_maybe_changed_keys, at_handle,
  Looped, round, reload, if_changed, react, update_all, finish_update, update_callback,
}
use eafcc_core.Center.Create.{DistinctHandles, IsWellFormed}
use eafcc_core.Center.Rounds.{
  after_reaction, Holds, apply-keeps, round-untouched, round_self, round-later, round-none,
  round-some,
}

module _ (nom : Nom) (serde : SerdeJson) (backend : StorageBackend) (old new : VersionItem) where
  -- A handle that no entry has keeps its namespace, also when the loop panics.
  pub update_all-untouched :
      (m : HashMap ℕ) (cs : List NamespaceScopedCfgCenter) (h : ℕ)
      → All (λ (f : Text × ℕ). f.1 ≢ h) m
      → at_handle (update_all nom serde backend old new m cs).0 h ≡ at_handle cs h
  unfolding update_all
  update_all-untouched [] cs h n = refl
  update_all-untouched ((ns, k) ∷ m) cs h n =
      round-untouched nom serde backend old new ns k cs (update_all nom serde backend old new m) h
        (λ s. n.0 (sym s)) (λ cs'. update_all-untouched m cs' h n.1)

  -- The namespace of an entry, after a loop that does not panic.
  update_all-entry :
      (m : HashMap ℕ) (cs : List NamespaceScopedCfgCenter) (ns : Text) (h : ℕ)
      (c : NamespaceScopedCfgCenter)
      → DistinctHandles m
      → In (ns, h) m
      → at_handle cs h ≡ some c
      → (update_all nom serde backend old new m cs).2 ≡ false
      → at_handle (update_all nom serde backend old new m cs).0 h
        ≡ some (after_reaction c (react nom serde backend old new ns c.notify_level))
  unfolding update_all
  update_all-entry [] cs ns h c u i e fine = elim i [ ]
  update_all-entry ((ns', k) ∷ m) cs ns h c u (here same) e fine =
      let same_handle : h ≡ k = ap (λ (t : Text × ℕ). t.1) same in
      let same_name : ns ≡ ns' = ap (λ (t : Text × ℕ). t.0) same in
      rw (same_handle, same_name)
        (round_self nom serde backend old new ns' k cs (update_all nom serde backend old new m) c
          (sym (ap (at_handle cs) same_handle) ∙ e) (λ cs'. update_all-untouched m cs' k u.0))
  update_all-entry ((ns', k) ∷ m) cs ns h c u (there i) e fine =
      round-later nom serde backend old new ns' k cs (update_all nom serde backend old new m) h c _
        (All-In (λ (f : Text × ℕ). f.1 ≢ k) m u.0 i) e fine
        (λ cs' e' fine'. update_all-entry m cs' ns h c u.1 i e' fine')

  -- A property of namespaces that every reaction to this update keeps.
  update_all-keeps :
      (P : NamespaceScopedCfgCenter → Type 0)
      → ((c : NamespaceScopedCfgCenter) (ns : Text)
          → P c
          → P (after_reaction c (react nom serde backend old new ns c.notify_level)))
      → (m : HashMap ℕ) (cs : List NamespaceScopedCfgCenter) (h : ℕ) → Holds P cs h
      → Holds P (update_all nom serde backend old new m cs).0 h
  unfolding update_all
  update_all-keeps P keeps [] cs h p = p
  update_all-keeps P keeps ((ns, k) ∷ m) cs h p =
      at (at_handle cs k) refl (λ cs' q. update_all-keeps P keeps m cs' h q)
    where
      at :
          (o : Option NamespaceScopedCfgCenter)
          → at_handle cs k ≡ o
          → ((cs' : List NamespaceScopedCfgCenter)
              → Holds P cs' h
              → Holds P (update_all nom serde backend old new m cs').0 h)
          → Holds P
              (round nom serde backend old new
                (ns, k)
                cs
                (update_all nom serde backend old new m)).0
              h
      at none e ih =
          subst (λ (l : Looped). Holds P l.0 h)
            (sym (
              round-none nom serde backend old new ns k cs (update_all nom serde backend old new m)
                e))
            (ih cs p)
      at (some c) e ih =
          subst (λ (l : Looped). Holds P l.0 h)
            (sym (
              round-some nom serde backend old new ns k cs (update_all nom serde backend old new m)
                c e))
            (apply-keeps cs k c P _ (update_all nom serde backend old new m) h e
              (λ same. keeps c ns (
                let (d, at_, q) = p in
                subst P (some-injective _ _ (sym at_ ∙ ap (at_handle cs) same ∙ e)) q))
              ih p)

  reload-keep :
      (ns : Text) (c : NamespaceScopedCfgCenter)
      → after_reaction c (reload nom serde backend (λ m. keep) ns new) ≡ c
  unfolding reload
  reload-keep ns c = ground arith

  if_changed-keep :
      (ns : Text) (c : NamespaceScopedCfgCenter)
      → after_reaction c (if_changed nom serde backend (λ files m. keep) old new ns) ≡ c
  unfolding if_changed
  if_changed-keep ns c = ground (arith, reload-keep ns c)

  -- Two levels never replace the store.
  frozen_round :
      (ns : Text) (c : NamespaceScopedCfgCenter)
      → (c.notify_level ≡ no_notify) ⊎ (c.notify_level ≡ notify_with_maybe_changed_keys)
      → after_reaction c (react nom serde backend old new ns c.notify_level) ≡ c
  unfolding react
  frozen_round ns c (inl e) = simp e
  frozen_round ns c (inr e) = simp e (if_changed-keep ns c)

module _ (nom : Nom) (serde : SerdeJson) (backend : StorageBackend) (center : CfgCenter)
    (e : StorageChangeEvent) where
  -- The loop of this update.
  abbrev pub looped : Looped
  looped =
      update_all nom serde backend center.current_version e.new_version center.namespaces
        center.centers

  pub update_callback-open :
      center.namespaces_poisoned ≡ false
      → center.version_poisoned ≡ false
      → update_callback nom serde backend center e ≡ finish_update center e looped
  unfolding update_callback
  update_callback-open np vp = simp (np, vp)

  pub finish-centers : (l : Looped) → (finish_update center e l).0.centers ≡ l.0
  unfolding finish_update
  finish-centers (cs, calls, true) = refl
  finish-centers (cs, calls, false) = refl

  finish-version :
      (l : Looped) → l.2 ≡ false → (finish_update center e l).0.current_version ≡ e.new_version
  unfolding finish_update
  finish-version (cs, calls, true) h = cc
  finish-version (cs, calls, false) h = refl

  -- If the center is well-formed, its locks are not poisoned and the loop does not panic, then
  -- after a new version every namespace of the map is as the round for it left it.
  pub update_callback-react :
      (ns : Text) (h : ℕ) (c : NamespaceScopedCfgCenter)
      → IsWellFormed center
      → center.namespaces_poisoned ≡ false
      → center.version_poisoned ≡ false
      → looped.2 ≡ false
      → In (ns, h) center.namespaces
      → at_handle center.centers h ≡ some c
      → ((update_callback nom serde backend center e).0.current_version ≡ e.new_version)
        × (at_handle (update_callback nom serde backend center e).0.centers h
            ≡ some (
                after_reaction c
                  (react nom serde backend center.current_version e.new_version ns c.notify_level)))
  update_callback-react ns h c w np vp fine i at =
      rw (update_callback-open np vp, finish-centers looped)
        (
          finish-version looped fine,
          update_all-entry nom serde backend center.current_version e.new_version center.namespaces
              center.centers ns h c w.distinct i at fine,
        )

  -- Whatever the state of the center and however the update ends, a namespace that no reaction of
  -- this update changes is as it was.
  pub update_callback-kept :
      (h : ℕ) (c : NamespaceScopedCfgCenter)
      → ((ns : Text)
          → after_reaction c
              (react nom serde backend center.current_version e.new_version ns c.notify_level)
            ≡ c)
      → at_handle center.centers h ≡ some c
      → at_handle (update_callback nom serde backend center e).0.centers h ≡ some c
  unfolding update_callback
  update_callback-kept h c still at =
      elim (Bool-cases (center.namespaces_poisoned || center.version_poisoned)) [
        | inl bad ↦ simp bad at
        | inr good ↦ simp good (
            ap (λ (cs : List NamespaceScopedCfgCenter). at_handle cs h) (finish-centers looped)
            ∙ kept)
      ]
    where
      kept : at_handle looped.0 h ≡ some c
      kept =
          let (d, at_, same) =
            update_all-keeps nom serde backend center.current_version e.new_version (λ d. d ≡ c)
              (λ d ns same.
                subst
                  (λ x.
                    after_reaction x (
                      react nom serde backend center.current_version e.new_version ns
                        x.notify_level)
                    ≡ c)
                  (sym same) (still ns))
              center.namespaces center.centers h (c, at, refl) in
          at_ ∙ ap (λ (x : NamespaceScopedCfgCenter). some x) same

  -- Whatever the state of the center and however the update ends, a namespace on the level
  -- `NoNotify` or on the level `NotifyWithMaybeChangedKeys` keeps the store that it has.
  pub update_callback-frozen :
      (h : ℕ) (c : NamespaceScopedCfgCenter)
      → (c.notify_level ≡ no_notify) ⊎ (c.notify_level ≡ notify_with_maybe_changed_keys)
      → at_handle center.centers h ≡ some c
      → at_handle (update_callback nom serde backend center e).0.centers h ≡ some c
  update_callback-frozen h c frozen =
      update_callback-kept h c
        (λ ns. frozen_round nom serde backend center.current_version e.new_version ns c frozen)
