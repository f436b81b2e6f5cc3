-- ===== src/Center/Tests.antt =====
-- Runs of the config center (cfg_center/cfg_center.rs), and witnesses.
use mathlib.Core.Path.{subst}
use eafcc_core.Prelude.{
  ℕ, ◌≡◌, ◌≢◌, refl, ap, sym, inr, true, false, some, [], ◌∷◌, In, here, arith,
}
use eafcc_core.Text.{Text, text}
use eafcc_core.Error.{CcLibError}
use eafcc_core.Run.{ok, err, panicked}
use eafcc_core.Parser.Nom.Sample.{sample_nom}
use eafcc_core.Storage.{StorageChangeEvent, StorageBackend}
use eafcc_core.Storage.Paths.{starts_with_slash, ends_with_slash}
use eafcc_core.Index.Builder.{load, load_rule, load_dir}
use eafcc_core.Index.Sample.{sample_serde, sample_backend, first_version}
use eafcc_core.Index.SampleRun.{sample_index, sample_load}
use eafcc_core.MemStore.{MemStorage, new_mem_storage}
use eafcc_core.Querier.Sample.{sample_sorter}
use eafcc_core.Center.{
  NamespaceScopedCfgCenter, CfgCenter, Call, no_notify, notify_without_changed_keys_by_global,
  notify_with_maybe_changed_keys, at_handle, update_namespace, update_at, calls_of,
  create_namespace, update_callback, update_all, round, finish_update, apply_reaction, react,
  reload, replace,
}
use eafcc_core.Center.Create.{IsWellFormed, create_namespace-IsWellFormed, create_namespace-poisons}
use eafcc_core.Center.Update.{looped, update_callback-frozen}
use eafcc_core.Center.Expected.{updated, update_callback-entry}
use eafcc_core.Center.Calls.{IsGlobal, update_callback-IsGlobal}
use eafcc_core.Text.Sample.{sample_utf8}
use eafcc_core.Storage.Filesystem
use eafcc_core.Storage.Filesystem.Tests.{fs, sample_trees}
use eafcc_core.Storage.Git
use eafcc_core.Storage.Git.Tests.{git, inner}
use eafcc_core.Center.Quiet.{update_callback-quiet}
use eafcc_core.Center.Observe.{SeesBoth, update_namespace-SeesBoth}

abbrev store : MemStorage
store = record { version = first_version; indices = sample_index }

abbrev event : StorageChangeEvent
event = record { new_version = record { name = text "v2"; id = 2 ∷ [] } }

abbrev new_store : MemStorage
new_store = record { version = event.new_version; indices = sample_index }

abbrev watched : NamespaceScopedCfgCenter
watched = record {
  namespace = text "/";
  current_memstore = store;
  store_poisoned = false;
  notify_level = notify_without_changed_keys_by_global;
  has_callback = true;
}

abbrev silent : NamespaceScopedCfgCenter
silent = record watched { namespace = text "/b/"; notify_level = no_notify }

abbrev by_keys : NamespaceScopedCfgCenter
by_keys = record watched { notify_level = notify_with_maybe_changed_keys }

abbrev center : CfgCenter
center = record {
  centers = watched ∷ silent ∷ [];
  namespaces = (text "/", 0) ∷ (text "/b/", 1) ∷ [];
  namespaces_poisoned = false;
  current_version = first_version;
  version_poisoned = false;
}

abbrev keys_center : CfgCenter
keys_center = record center { centers = by_keys ∷ silent ∷ [] }

center-IsWellFormed : IsWellFormed center
center-IsWellFormed = record {
  named = ((watched, refl, refl), ((silent, refl, refl), tt));
  distinct = ((other, tt), (tt, tt));
}
  where
    other : ◌≢◌ {A = ℕ} 1 0
    other e = absurd (omega (arith, e))

loaded :
    new_mem_storage sample_nom sample_serde sample_backend (text "/") event.new_version
    ≡ ok new_store
unfolding new_mem_storage
loaded = rw sample_load

reloaded :
    reload sample_nom sample_serde sample_backend (λ m. replace m []) (text "/") event.new_version
    ≡ replace new_store []
unfolding reload
reloaded = ground (arith, loaded)

loop_ends : (looped sample_nom sample_serde sample_backend center event).2 ≡ false
unfolding update_all round react apply_reaction update_namespace update_at
loop_ends =
    ap
      (λ r.
        (apply_reaction center.centers 0 watched r (
          update_all sample_nom sample_serde sample_backend first_version event.new_version
            ((text "/b/", 1) ∷ []))).2)
      reloaded

update_callback-entry_example :
    ((update_callback sample_nom sample_serde sample_backend center event).0.current_version
      ≡ event.new_version)
    × (at_handle (update_callback sample_nom sample_serde sample_backend center event).0.centers 0
        ≡ some (
            updated watched notify_without_changed_keys_by_global
              (sample_backend.get_diff_list first_version event.new_version (text "/"))
              (new_mem_storage sample_nom sample_serde sample_backend
                (text "/")
                event.new_version)))
update_callback-entry_example =
    update_callback-entry sample_nom sample_serde sample_backend center event (text "/") 0 watched
      center-IsWellFormed refl refl loop_ends (here refl) refl

replaced_test :
    at_handle (update_callback sample_nom sample_serde sample_backend center event).0.centers 0
    ≡ some (record watched { current_memstore = new_store })
replaced_test =
    subst
      (λ r.
        at_handle (update_callback sample_nom sample_serde sample_backend center event).0.centers 0
        ≡ some (updated watched notify_without_changed_keys_by_global (ok []) r))
      loaded update_callback-entry_example.1

update_callback-frozen_example :
    at_handle (update_callback sample_nom sample_serde sample_backend keys_center event).0.centers 0
    ≡ some by_keys
update_callback-frozen_example =
    update_callback-frozen sample_nom sample_serde sample_backend keys_center event 0 by_keys
      (inr refl) refl

abbrev call : Call
call = (
  text "/",
  record {
    notify_level = notify_without_changed_keys_by_global;
    old_mem_store = store;
    new_mem_store = new_store;
    changed_files = [];
  },
)

made : In call (update_namespace watched new_store []).1
unfolding update_namespace update_at calls_of
made = here refl

update_namespace-SeesBoth_example :
    SeesBoth sample_sorter watched (update_namespace watched new_store []).0 call.1
update_namespace-SeesBoth_example =
    update_namespace-SeesBoth sample_sorter watched new_store [] call made

create_namespace-IsWellFormed_example :
    IsWellFormed
      (create_namespace sample_nom sample_serde sample_backend center
        (text "/c/")
        no_notify
        false).0
create_namespace-IsWellFormed_example =
    create_namespace-IsWellFormed sample_nom sample_serde sample_backend center (text "/c/")
      no_notify false center-IsWellFormed

-- A storage whose walks panic, as they do where `add_link` panics.
abbrev broken_backend : StorageBackend
broken_backend = record sample_backend { walk_dir = λ version path cb s. panicked }

broken_load :
    new_mem_storage sample_nom sample_serde broken_backend (text "/") first_version ≡ panicked
unfolding new_mem_storage load load_rule load_dir eafcc_core.Text.strip_prefix
broken_load = refl

slashes : (starts_with_slash (text "/") ≡ true) × (ends_with_slash (text "/") ≡ true)
unfolding starts_with_slash ends_with_slash
slashes = (refl, refl)

create_namespace-poisons_example :
    let after =
      (create_namespace sample_nom sample_serde broken_backend center
        (text "/")
        no_notify
        false).0 in
    (update_callback sample_nom sample_serde broken_backend after event ≡ (after, []))
    × (x : CcLibError) × (create_namespace sample_nom sample_serde broken_backend after
          (text "/d/")
          no_notify
          true
        ≡ (after, err x))
create_namespace-poisons_example =
    create_namespace-poisons sample_nom sample_serde broken_backend center (text "/") no_notify
      false slashes.0 slashes.1 refl broken_load event (text "/d/") no_notify true

called : (update_callback sample_nom sample_serde sample_backend center event).1 ≡ call ∷ []
unfolding update_callback finish_update update_all round react apply_reaction update_namespace
    update_at calls_of
called =
    ap
      (λ r.
        (finish_update center event (
          apply_reaction center.centers 0 watched r (
            update_all sample_nom sample_serde sample_backend first_version event.new_version
              ((text "/b/", 1) ∷ [])))).1)
      reloaded

update_callback-IsGlobal_example : IsGlobal call
update_callback-IsGlobal_example =
    update_callback-IsGlobal sample_nom sample_serde sample_backend center event call
      (subst (In call) (sym called) (here refl))

update_callback-quiet_example :
    (at_handle
        (update_callback sample_nom sample_serde
          (Filesystem.as_storage_backend sample_utf8 fs
            (Filesystem.new (text "/base"))
            (sample_trees (Filesystem.new (text "/base"))))
          keys_center
          event).0.centers
        0
      ≡ some by_keys)
    × (at_handle
          (update_callback sample_nom sample_serde
            (Git.as_storage_backend git sample_utf8 inner)
            keys_center
            event).0.centers
          0
        ≡ some by_keys)
update_callback-quiet_example =
    update_callback-quiet sample_nom sample_serde sample_utf8 fs (Filesystem.new (text "/base"))
      (sample_trees (Filesystem.new (text "/base"))) git inner keys_center event 0 by_keys (λ e. cc)
      refl
