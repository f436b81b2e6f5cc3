-- ===== src/Center/Observe.antt =====
-- What a callback can see (cfg_center/differ.rs and namespace.rs).
use mathlib.Core.Path.{subst}
use eafcc_core.Prelude.{
  ◌≡◌, ap, sym, Bool, false, List, [], ◌∷◌, In, here, there, Bool-cases, inl, inr,
}
use eafcc_core.Text.{Text}
use eafcc_core.Error.{query_error}
use eafcc_core.Run.{map_err}
use eafcc_core.RuleEngine.{MatchContext}
use eafcc_core.MemStore.{MemStorage}
use eafcc_core.Querier.{ViewMode}
use eafcc_core.Querier.Sort.{Sorter}
use eafcc_core.Center.{
  NamespaceScopedCfgCenter, Differ, Call, no_notify, notify_without_changed_keys_by_global,
  notify_without_changed_keys_in_namespace, notify_with_maybe_changed_keys, calls_of, replace_store,
  update_at, update_namespace, get_cfg, get_from_old, get_from_new, UpdateNotifyLevel,
}

-- What is seen in a callback: the answers that the namespace gave before, and those that it gives
-- from then on.
abbrev pub SeesBoth : Sorter → NamespaceScopedCfgCenter → NamespaceScopedCfgCenter → Differ → Type 0
SeesBoth sorter before_ after_ differ =
    (whoami : MatchContext) (keys : List Text) (mode : ViewMode) (need_explain : Bool)
    → (get_from_old sorter differ whoami keys mode need_explain
        ≡ map_err query_error (get_cfg sorter before_ whoami keys mode need_explain))
      × (get_from_new sorter differ whoami keys mode need_explain
          ≡ map_err query_error (get_cfg sorter after_ whoami keys mode need_explain))

abbrev pub the_differ : NamespaceScopedCfgCenter → MemStorage → List Text → Differ
the_differ ns new_mem_store changes = record {
  notify_level = ns.notify_level;
  old_mem_store = ns.current_memstore;
  new_mem_store = new_mem_store;
  changed_files = changes;
}

module _ (ns : NamespaceScopedCfgCenter) (new_mem_store : MemStorage) (changes : List Text) where
  pub calls_of-differ :
      (call : Call)
      → In call (calls_of ns new_mem_store changes)
      → call.1 ≡ the_differ ns new_mem_store changes
  unfolding calls_of
  calls_of-differ call i = elim (Bool-cases ns.has_callback) [
    | inl cb ↦ only (simp cb at i)
    | inr none_ ↦ elim (nothing (simp none_ at i)) [ ]
  ]
    where
      only :
          In call ((ns.namespace, the_differ ns new_mem_store changes) ∷ [])
          → call.1 ≡ the_differ ns new_mem_store changes
      only (here s) = ap (λ (c : Call). c.1) s
      only (there j) = elim j [ ]

      nothing : In call [] → ⊥
      nothing j = elim j [ ]

module _ (sorter : Sorter) (ns : NamespaceScopedCfgCenter) (new_mem_store : MemStorage)
    (changes : List Text) where
  differ-SeesBoth :
      ns.store_poisoned ≡ false
      → SeesBoth sorter ns (replace_store ns new_mem_store) (the_differ ns new_mem_store changes)
  unfolding replace_store get_cfg get_from_old get_from_new
  differ-SeesBoth fine whoami keys mode need_explain = (simp fine, simp (fine))

  update_at-SeesBoth :
      (level : UpdateNotifyLevel) (call : Call)
      → In call (update_at level ns new_mem_store changes).1
      → SeesBoth sorter ns (update_at level ns new_mem_store changes).0 call.1
  unfolding update_at
  update_at-SeesBoth notify_without_changed_keys_by_global call i =
      elim (Bool-cases ns.store_poisoned) [
        | inl bad ↦ elim (nothing (simp bad at i)) [ ]
        | inr fine ↦ simp fine (
            subst (SeesBoth sorter ns (replace_store ns new_mem_store))
              (sym (calls_of-differ ns new_mem_store changes call (simp fine at i)))
              (differ-SeesBoth fine))
      ]
    where
      nothing : In call [] → ⊥
      nothing j = elim j [ ]
  update_at-SeesBoth notify_without_changed_keys_in_namespace call i = elim i [ ]
  update_at-SeesBoth notify_with_maybe_changed_keys call i = elim i [ ]
  update_at-SeesBoth no_notify call i = elim i [ ]

  -- In a callback that an update makes, the differ answers with the old store what the namespace
  -- answered before the update, and with the new store what it answers after it.
  pub update_namespace-SeesBoth :
      (call : Call)
      → In call (update_namespace ns new_mem_store changes).1
      → SeesBoth sorter ns (update_namespace ns new_mem_store changes).0 call.1
  unfolding update_namespace
  update_namespace-SeesBoth call i = update_at-SeesBoth ns.notify_level call i
