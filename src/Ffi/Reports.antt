-- ===== src/Ffi/Reports.antt =====
-- The queries of src/ffi.rs from end to end, in every outcome: what the client has at the pointer,
-- what is in the error slot where it has none, and what a panic comes from.
use eafcc_core.Prelude.{ℕ, ◌≡◌, refl, not, ◌==◌, Option, none, some, List}
use eafcc_core.Text.{Text}
use eafcc_core.Text.Utf8.{Utf8}
use eafcc_core.Outcome.{Outcome, done, panic}
use eafcc_core.Error.{FfiError}
use eafcc_core.Error.Display.{display_ffi_error, display_query_error, display_differ_error}
use eafcc_core.Run
use eafcc_core.Run.{Run, ok, err}
use eafcc_core.RuleEngine.{MatchContext}
use eafcc_core.Model.{Bytes}
use eafcc_core.Querier.{ViewMode, CfgResult}
use eafcc_core.Querier.Sort.{Sorter}
use eafcc_core.Center.{NamespaceScopedCfgCenter, Differ, get_cfg, get_from_old, get_from_new}
use eafcc_core.Ffi.Memory.{Heap}
use eafcc_core.Ffi.Values.{convert_get_cfg_output_value}
use eafcc_core.Ffi.Values.Correct.{read_values, convert_get_cfg_output_value-read_values}
use eafcc_core.Ffi.Values.Fails.{Keeps, convert_get_cfg_output_value-Keeps}
use eafcc_core.Ffi.LastError.{set_last_error, get_last_error, c_string_or_default}
use eafcc_core.Ffi.{
  Lib, fail, convert_keys, convert_get_cfg_input_value, after_output, after_query, after_input,
  answer, get_config, differ_get_from_old, differ_get_from_new,
}

module _ (utf8 : Utf8) {E : Type 0} (display : E → Text)
    (query : MatchContext → List Text → Run E (List CfgResult)) (whoami : Option MatchContext)
    (keys : List Bytes) (lib : Lib) where
  -- The tags are there, the keys are UTF-8, and the query of them ends as `r`.
  pub record Queried (r : Run E (List CfgResult)) : Type 0 where
    pub tags : MatchContext
    pub ks : List Text
    pub given : whoami ≡ some tags
    pub decoded : convert_keys utf8 keys ≡ ok ks
    pub ends : query tags ks ≡ r

  -- Why a call has no answer, and the message that says so.
  pub data Cause (msg : Text) : Type 0 where
    bad_key :
        (e : FfiError) → convert_keys utf8 keys ≡ err e → msg ≡ display_ffi_error e → Cause msg
    no_answer : (e : E) → Queried (err e) → msg ≡ display e → Cause msg
    no_c_string :
        (vs : List CfgResult) (h : Heap) (e : FfiError)
        → Queried (ok vs)
        → convert_get_cfg_output_value vs lib.heap ≡ (h, err e)
        → msg ≡ display_ffi_error e
        → Cause msg

  -- What a panic comes from: a null pointer for the tags, or a step that panics.
  pub data Panics : Type 0 where
    no_tags : whoami ≡ none → Panics
    keys_panic : convert_keys utf8 keys ≡ Run.panicked → Panics
    query_panics : Queried Run.panicked → Panics
    output_panics :
        (vs : List CfgResult) (h : Heap)
        → Queried (ok vs)
        → convert_get_cfg_output_value vs lib.heap ≡ (h, Run.panicked)
        → Panics

  -- Every outcome of a call.
  abbrev pub Reports : Lib × Outcome (Option ℕ) → Type 0
  Reports (lib', panic) = (lib'.last_error ≡ lib.last_error) × Panics
  Reports (lib', done none) =
      (msg : Text) × Cause msg
      × ((get_last_error lib'.last_error).1
          ≡ record { msg = some (c_string_or_default msg); code = 0 })
      × Keeps lib.heap.next lib.heap lib'.heap
  Reports (lib', done (some p)) =
      (vs : List CfgResult) × Queried (ok vs)
      × (read_values lib'.heap p ≡ some vs)
      × (lib'.last_error ≡ lib.last_error)
      × Keeps lib.heap.next lib.heap lib'.heap

  fail-Reports : (msg : Text) → Cause msg → Reports (fail msg lib)
  unfolding fail set_last_error get_last_error
  fail-Reports msg cause = (msg, cause, refl, ((λ a lt. refl), refl))

  after_output-Reports :
      (vs : List CfgResult)
      → Queried (ok vs)
      → (r : Heap × Run FfiError ℕ) → convert_get_cfg_output_value vs lib.heap ≡ r
      → Keeps lib.heap.next lib.heap r.0
      → Reports (after_output utf8 lib r)
  unfolding after_output fail set_last_error get_last_error
  after_output-Reports vs q (h, ok p) same keeps =
      (vs, q, convert_get_cfg_output_value-read_values vs lib.heap h p same, refl, keeps)
  after_output-Reports vs q (h, err e) same keeps =
      (display_ffi_error e, no_c_string vs h e q same refl, refl, keeps)
  after_output-Reports vs q (h, Run.panicked) same keeps = (refl, output_panics vs h q same)

  after_query-Reports :
      (r : Run E (List CfgResult)) → Queried r → Reports (after_query utf8 display lib r)
  unfolding after_query
  after_query-Reports (ok vs) q =
      after_output-Reports vs q _ refl (convert_get_cfg_output_value-Keeps vs lib.heap)
  after_query-Reports (err e) q = fail-Reports (display e) (no_answer e q refl)
  after_query-Reports Run.panicked q = (refl, query_panics q)

-- What the three queries share, with the tags there.
module _ (utf8 : Utf8) {E : Type 0} (display : E → Text)
    (query : MatchContext → List Text → Run E (List CfgResult)) (keys : List Bytes)
    (lib : Lib) where
  after_input-Reports :
      (tags : MatchContext) (r : Run FfiError (List Text))
      → convert_keys utf8 keys ≡ r
      → Reports utf8 display query
          (some tags)
          keys
          lib
          (after_input utf8 display query lib (Run.◌>>=◌ r λ ks. ok (tags, ks)))
  unfolding after_input
  after_input-Reports tags (ok ks) same =
      after_query-Reports utf8 display query (some tags) keys lib (query tags ks)
        (record { tags = tags; ks = ks; given = refl; decoded = same; ends = refl })
  after_input-Reports tags (err e) same =
      fail-Reports utf8 display query (some tags) keys lib (display_ffi_error e)
        (bad_key e same refl)
  after_input-Reports tags Run.panicked same = (refl, keys_panic same)

  answer-Reports :
      (whoami : Option MatchContext)
      → Reports utf8 display query whoami keys lib (answer utf8 display query whoami keys lib)
  unfolding answer convert_get_cfg_input_value after_input
  answer-Reports none = (refl, no_tags refl)
  answer-Reports (some tags) = after_input-Reports tags (convert_keys utf8 keys) refl

module _ (utf8 : Utf8) (sorter : Sorter) (ns : NamespaceScopedCfgCenter) (differ : Differ)
    (whoami : Option MatchContext) (keys : List Bytes) (view_mode : ViewMode) (need_explain : ℕ)
    (lib : Lib) where
  -- Each of the three queries, with a center or a differ. With a pointer, the tags are there, the keys
  -- are UTF-8, the query answers, the client reads exactly that answer at the pointer, and the error
  -- slot is as it was. With a null pointer, `get_last_error` reads the code 0 and, cut to nothing if
  -- it has a NUL, the message of the error that came first: of the keys, of the query, or of the
  -- conversion of its answer. In both cases what was out before is as it was. A panic leaves the
  -- slot, and comes from a null pointer for the tags or from a step that panics.
  pub queries-Report :
      Reports utf8 display_query_error
        (λ w ks. get_cfg sorter ns w ks view_mode (not (need_explain == 0)))
        whoami
        keys
        lib
        (get_config utf8 sorter (some ns) whoami keys view_mode need_explain lib)
      × Reports utf8 display_differ_error
          (λ w ks. get_from_old sorter differ w ks view_mode (not (need_explain == 0)))
          whoami
          keys
          lib
          (differ_get_from_old utf8 sorter (some differ) whoami keys view_mode need_explain lib)
      × Reports utf8 display_differ_error
          (λ w ks. get_from_new sorter differ w ks view_mode (not (need_explain == 0)))
          whoami
          keys
          lib
          (differ_get_from_new utf8 sorter (some differ) whoami keys view_mode need_explain lib)
  unfolding get_config differ_get_from_old differ_get_from_new
  queries-Report = (
    answer-Reports utf8 display_query_error _ keys lib whoami,
    answer-Reports utf8 display_differ_error _ keys lib whoami,
    answer-Reports utf8 display_differ_error _ keys lib whoami,
  )
