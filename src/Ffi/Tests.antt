-- ===== src/Ffi/Tests.antt =====
-- Runs of src/ffi.rs, and witnesses.
use eafcc_core.Prelude.{ℕ, ◌≡◌, refl, ap, true, false, none, some, List, [], ◌∷◌, All, arith}
use eafcc_core.Text.{Text, text, text_eq}
use eafcc_core.Text.Trim.{trim, trim_start, is_whitespace}
use eafcc_core.Text.Sample.{sample_utf8}
use eafcc_core.HashMap
use eafcc_core.Outcome.{done}
use eafcc_core.Error.{string_convert_nul_error}
use eafcc_core.Run.{err, ok}
use eafcc_core.RuleEngine.{MatchContext, str, eval, eval_leaf, apply_op}
use eafcc_core.Parser.Nom.Sample.{sample_nom}
use eafcc_core.Storage.Paths.{starts_with_slash, ends_with_slash}
use eafcc_core.Index.{get_link_by_rule_path, get_res_by_path}
use eafcc_core.Index.Sample.{sample_serde, sample_backend, first_version}
use eafcc_core.Index.SampleRun.{sample_index, sample_load, sample_link, sample_pair}
use eafcc_core.MemStore.{new_mem_storage}
use eafcc_core.Querier.{
  CfgResult, overlaid_view, get, fetch, fetch_res_by_overlaid_view, overlaid_keys, overlaid_key,
  offer, first_pair, active_links, links_of_rule,
}
use eafcc_core.Querier.Sample.{sample_sorter}
use eafcc_core.Center
use eafcc_core.Center.{
  CfgCenter, NamespaceScopedCfgCenter, Differ, no_notify, get_cfg, get_from_old, get_from_new,
  created, insert_namespace, new_center,
}
use eafcc_core.Error.{string_convert_nul_error}
use eafcc_core.Ffi.Memory.{
  Heap, c_string, boxed_whoami, nul_position, nul_error, push, from_raw, into_raw, into_box,
}
use eafcc_core.Ffi.Values.{
  convert_values, convert_value, convert_reason, after_turn, drop_values, drop_value,
  drop_reason_at, convert_get_cfg_output_value, free_config_values,
}
use eafcc_core.Ffi.Values.Correct.{read_values}
use eafcc_core.Ffi.Values.Fails.{Keeps, convert_get_cfg_output_value-Keeps}
use eafcc_core.Ffi.Values.Leaks.{LeaksSix, convert_get_cfg_output_value-LeaksSix}
use eafcc_core.Ffi.Values.Succeeds.{AllNulFree}
use eafcc_core.Ffi.LastError.{no_error}
use eafcc_core.Ffi.Whoami.Tags.{Line, lines_text, tag_of, IsLine}
use eafcc_core.Ffi.{
  Lib, fail, answer, after_input, after_query, convert_get_cfg_input_value, convert_keys,
  new_whoami, free_whoami, get_config, differ_get_from_old, differ_get_from_new, create_namespace,
  create_with_name, after_create,
}
use eafcc_core.Ffi.Answers.{get_config-answers, encoded}
use eafcc_core.Ffi.Reports.{Reports, queries-Report}
use eafcc_core.Error.Display.{display_query_error, display_differ_error}
use eafcc_core.Ffi.LastError.{set_last_error, get_last_error, c_string_or_default}
use eafcc_core.Ffi.Clients.{new_whoami-tags}
use eafcc_core.Ffi.Creates.{IsCreated, create_namespace-get_namespace}

abbrev lib : Lib
lib = record {
  last_error = no_error;
  heap = record { next = 1; live = λ a. none; undefined = false };
}

abbrev ns : NamespaceScopedCfgCenter
ns = record {
  namespace = text "/";
  current_memstore = record { version = first_version; indices = sample_index };
  store_poisoned = false;
  notify_level = no_notify;
  has_callback = false;
}

abbrev whoami : MatchContext
whoami = (text "a", str (text "1")) ∷ []

abbrev results : List CfgResult
results = record { reason = some sample_link; value = sample_pair } ∷ []

query_test : get_cfg sample_sorter ns whoami (text "k" ∷ []) overlaid_view true ≡ ok results
unfolding get_cfg get active_links eval eval_leaf apply_op links_of_rule get_link_by_rule_path fetch
    fetch_res_by_overlaid_view overlaid_keys overlaid_key offer get_res_by_path first_pair
    HashMap.get text_eq
query_test = refl

results-NulFree : All AllNulFree results
unfolding nul_position
results-NulFree = (((refl, refl, refl), refl, refl, refl), tt)

get_config-answers_example :
    (lib' : Lib) × (p : ℕ) × (get_config sample_utf8 sample_sorter
        (some ns)
        (some whoami)
        (encoded sample_utf8 (text "k" ∷ []))
        overlaid_view
        1
        lib
      ≡ (lib', done (some p)))
    × (lib'.last_error ≡ lib.last_error)
    × (read_values lib'.heap p ≡ some results)
    × ((a : ℕ) → (free_config_values p lib'.heap).live a ≡ lib.heap.live a)
    × ((free_config_values p lib'.heap).undefined ≡ lib.heap.undefined)
get_config-answers_example =
    get_config-answers sample_utf8 sample_sorter ns whoami (text "k" ∷ []) overlaid_view 1 results
      lib query_test results-NulFree (λ a ge. refl)

-- A namespace whose lock is poisoned.
abbrev locked : NamespaceScopedCfgCenter
locked = record ns { store_poisoned = true }

abbrev differ : Differ
differ = record {
  notify_level = no_notify;
  old_mem_store = ns.current_memstore;
  new_mem_store = ns.current_memstore;
  changed_files = [];
}

queries-Report_example :
    Reports sample_utf8 display_query_error
      (λ w ks. get_cfg sample_sorter locked w ks overlaid_view true)
      (some whoami)
      (encoded sample_utf8 (text "k" ∷ []))
      lib
      (get_config sample_utf8 sample_sorter
        (some locked)
        (some whoami)
        (encoded sample_utf8 (text "k" ∷ []))
        overlaid_view
        1
        lib)
    × Reports sample_utf8 display_differ_error
        (λ w ks. get_from_old sample_sorter differ w ks overlaid_view true)
        (some whoami)
        (encoded sample_utf8 (text "k" ∷ []))
        lib
        (differ_get_from_old sample_utf8 sample_sorter
          (some differ)
          (some whoami)
          (encoded sample_utf8 (text "k" ∷ []))
          overlaid_view
          1
          lib)
    × Reports sample_utf8 display_differ_error
        (λ w ks. get_from_new sample_sorter differ w ks overlaid_view true)
        (some whoami)
        (encoded sample_utf8 (text "k" ∷ []))
        lib
        (differ_get_from_new sample_utf8 sample_sorter
          (some differ)
          (some whoami)
          (encoded sample_utf8 (text "k" ∷ []))
          overlaid_view
          1
          lib)
queries-Report_example =
    queries-Report sample_utf8 sample_sorter locked differ (some whoami)
      (encoded sample_utf8 (text "k" ∷ [])) overlaid_view 1 lib

locked_test :
    (get_last_error
      (get_config sample_utf8 sample_sorter
        (some locked)
        (some whoami)
        (encoded sample_utf8 (text "k" ∷ []))
        overlaid_view
        1
        lib).0.last_error).1
    ≡ record { msg = some (text "error when locking internal state"); code = 0 }
unfolding get_config answer after_input after_query convert_get_cfg_input_value convert_keys get_cfg
    fail set_last_error get_last_error c_string_or_default nul_position display_query_error
locked_test = refl

-- A key with a NUL in it: the value before it is given back, what its own turn gave out is not.
abbrev torn : List CfgResult
torn =
    record {
      reason = none;
      value = record { content_type = text "text"; key = 0 ∷ []; value = text "v" };
    }
    ∷ []

convert_get_cfg_output_value-Keeps_example :
    Keeps 1 lib.heap (convert_get_cfg_output_value torn lib.heap).0
convert_get_cfg_output_value-Keeps_example = convert_get_cfg_output_value-Keeps torn lib.heap

abbrev two_results : List CfgResult
two_results =
    record {
      reason = none;
      value = record { content_type = text "text"; key = text "k"; value = text "v" };
    }
    ∷ torn

abbrev left : Heap
left = (convert_get_cfg_output_value two_results lib.heap).0

torn_test :
    convert_get_cfg_output_value two_results lib.heap
    ≡ (left, err (string_convert_nul_error (nul_error 0)))
unfolding convert_get_cfg_output_value convert_values convert_value convert_reason after_turn
    into_raw into_box nul_position
torn_test = refl

left_test : (left.next ≡ 5) × (left.live 4 ≡ some (c_string (text "text"))) × (left.live 3 ≡ none)
unfolding convert_get_cfg_output_value convert_values convert_value convert_reason after_turn
    into_raw into_box nul_position push drop_values drop_value drop_reason_at from_raw
left_test = (refl, refl, refl)

convert_get_cfg_output_value-LeaksSix_example : LeaksSix 1 left
convert_get_cfg_output_value-LeaksSix_example =
    convert_get_cfg_output_value-LeaksSix two_results lib.heap left
      (string_convert_nul_error (nul_error 0)) torn_test

abbrev lines : List Line
lines = (text "a", some (text "1")) ∷ (text "b", none) ∷ (text " a ", some (text " 2 ")) ∷ []

lines-IsLine : All IsLine lines
lines-IsLine = ground arith

new_whoami-tags_example :
    let (lib', p) = new_whoami sample_utf8 (sample_utf8.as_bytes (lines_text lines)) lib in
    (w : MatchContext) × (lib'.heap.live p ≡ some (boxed_whoami w))
    × ((tag : Text) → HashMap.get w tag ≡ tag_of lines tag)
    × ((a : ℕ) → (free_whoami p lib').heap.live a ≡ lib.heap.live a)
    × ((free_whoami p lib').heap.undefined ≡ lib.heap.undefined)
new_whoami-tags_example = new_whoami-tags sample_utf8 lines lib lines-IsLine (λ a ge. refl)

tag_test : tag_of lines (text "a") ≡ some (str (text "2"))
unfolding trim trim_start is_whitespace text_eq
tag_test = refl

abbrev center : CfgCenter
center = record {
  centers = [];
  namespaces = [];
  namespaces_poisoned = false;
  current_version = first_version;
  version_poisoned = false;
}

loaded :
    new_mem_storage sample_nom sample_serde sample_backend (text "/") first_version
    ≡ ok (record { version = first_version; indices = sample_index })
unfolding new_mem_storage
loaded = rw sample_load

create_test :
    create_namespace sample_utf8 sample_nom sample_serde sample_backend center
      (some (text "/"))
      no_notify
      false
      lib
    ≡ (lib, record center { centers = ns ∷ []; namespaces = (text "/", 0) ∷ [] }, done (some 0))
unfolding create_namespace create_with_name after_create Center.create_namespace created
    insert_namespace starts_with_slash ends_with_slash HashMap.insert text_eq
create_test =
    ap (λ r. after_create sample_utf8 lib (created center (text "/") no_notify false r)) loaded

create_namespace-get_namespace_example :
    (lib ≡ lib)
    × IsCreated sample_utf8 sample_nom sample_serde sample_backend center
        (record center { centers = ns ∷ []; namespaces = (text "/", 0) ∷ [] })
        (text "/")
        no_notify
        false
        0
create_namespace-get_namespace_example =
    create_namespace-get_namespace sample_utf8 sample_nom sample_serde sample_backend center
      (record center { centers = ns ∷ []; namespaces = (text "/", 0) ∷ [] }) (text "/") no_notify
      false 0 lib lib create_test
