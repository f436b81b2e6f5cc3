-- ===== src/Ffi/Answers.antt =====
-- `get_config` of src/ffi.rs from end to end, where it answers.
use eafcc_core.Prelude.{ℕ, ◌≡◌, refl, not, ◌==◌, some, List, [], ◌∷◌, All}
use eafcc_core.Text.{Text}
use eafcc_core.Text.Utf8.{Utf8}
use eafcc_core.Outcome.{done}
use eafcc_core.Error.Display.{display_query_error}
use eafcc_core.Run.{Run, ok}
use eafcc_core.RuleEngine.{MatchContext}
use eafcc_core.Model.{Bytes}
use eafcc_core.Querier.{ViewMode, CfgResult}
use eafcc_core.Querier.Sort.{Sorter}
use eafcc_core.Center.{NamespaceScopedCfgCenter, get_cfg}
use eafcc_core.Ffi.Values.{convert_get_cfg_output_value, free_config_values}
use eafcc_core.Ffi.Values.Whole.{IsBounded}
use eafcc_core.Ffi.Values.Correct.{
  read_values, free_config_values-restores, convert_get_cfg_output_value-read_values,
}
use eafcc_core.Ffi.Values.Succeeds.{AllNulFree, convert_get_cfg_output_value-Ends}
use eafcc_core.Ffi.{
  Lib, convert_keys, convert_get_cfg_input_value, after_output, after_query, after_input, answer,
  get_config,
}

-- The C strings of texts.
abbrev pub encoded : Utf8 → List Text → List Bytes
encoded utf8 [] = []
encoded utf8 (k ∷ keys) = utf8.as_bytes k ∷ encoded utf8 keys

module _ (utf8 : Utf8) where
  module _ {E : Type 0} (display : E → Text) where
    convert_keys-as_bytes : (keys : List Text) → convert_keys utf8 (encoded utf8 keys) ≡ ok keys
    unfolding convert_keys
    convert_keys-as_bytes [] = refl
    convert_keys-as_bytes (k ∷ keys) =
        rw (utf8.from_utf8-as_bytes k, convert_keys-as_bytes keys) refl

    -- The call for the keys as UTF-8 has the query's answer at its pointer.
    answer-read_values :
        (query : MatchContext → List Text → Run E (List CfgResult)) (whoami : MatchContext)
        (keys : List Text) (vs : List CfgResult) (lib : Lib)
        → query whoami keys ≡ ok vs
        → All AllNulFree vs
        → (lib' : Lib) × (p : ℕ) × (answer utf8 display query (some whoami) (encoded utf8 keys) lib
            ≡ (lib', done (some p)))
          × (convert_get_cfg_output_value vs lib.heap ≡ (lib'.heap, ok p))
          × (lib'.last_error ≡ lib.last_error)
    unfolding answer convert_get_cfg_input_value after_input after_query after_output
    answer-read_values query whoami keys vs lib e free =
        let (h, p, same) = convert_get_cfg_output_value-Ends vs lib.heap free in
        (record lib { heap = h }, p, rw (convert_keys-as_bytes keys, e, same) refl, same, refl)

  module _ (sorter : Sorter) where
    -- If a query of a namespace answers, and no text of the answer has a NUL, then a client that calls
    -- `get_config` with its tags and with the keys as UTF-8 gets a pointer. There it reads exactly that
    -- answer, with the reasons; the error slot is as it was. Once it has called `free_config_values`,
    -- what is out is what was out before, and nothing was given back twice.
    pub get_config-answers :
        (ns : NamespaceScopedCfgCenter) (whoami : MatchContext) (keys : List Text)
        (view_mode : ViewMode) (need_explain : ℕ) (vs : List CfgResult) (lib : Lib)
        → get_cfg sorter ns whoami keys view_mode (not (need_explain == 0)) ≡ ok vs
        → All AllNulFree vs
        → IsBounded lib.heap
        → (lib' : Lib) × (p : ℕ) × (get_config utf8 sorter
              (some ns)
              (some whoami)
              (encoded utf8 keys)
              view_mode
              need_explain
              lib
            ≡ (lib', done (some p)))
          × (lib'.last_error ≡ lib.last_error)
          × (read_values lib'.heap p ≡ some vs)
          × ((a : ℕ) → (free_config_values p lib'.heap).live a ≡ lib.heap.live a)
          × ((free_config_values p lib'.heap).undefined ≡ lib.heap.undefined)
    unfolding get_config
    get_config-answers ns whoami keys view_mode need_explain vs lib e free bounded =
        let (lib', p, done_, converted, slot) =
          answer-read_values display_query_error
            (λ w ks. get_cfg sorter ns w ks view_mode (not (need_explain == 0))) whoami keys vs lib
            e free in
        let (live, same) = free_config_values-restores vs lib.heap lib'.heap p bounded converted in
        (
          lib',
          p,
          done_,
          slot,
          convert_get_cfg_output_value-read_values vs lib.heap lib'.heap p converted,
          live,
          same,
        )
