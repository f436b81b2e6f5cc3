-- ===== src/Ffi.antt =====
-- src/ffi.rs: the functions that a C client calls. A pointer argument is what stands there, `none` where
-- it is null; a C string is its bytes. A panic leaves an `extern "C"` function by ending the process.
pub mod Memory
pub mod Values
pub mod LastError
pub mod Whoami
pub mod Backend
pub mod Answers
pub mod Reports
pub mod Clients
pub mod Creates
pub mod Tests
use eafcc_core.Prelude.{ℕ, Bool, true, false, not, ◌==◌, Option, none, some, List, [], ◌∷◌}
use eafcc_core.Text.{Text, text}
use eafcc_core.Text.Utf8.{Utf8}
use eafcc_core.Outcome
use eafcc_core.Outcome.{Outcome, done, panic}
use eafcc_core.Error.{
  ForeignError, FfiError, QueryError, DifferError, CcLibError, string_convert_utf8_error,
}
use eafcc_core.Error.Display.{
  display_ffi_error, display_query_error, display_differ_error, display_cc_lib_error,
}
use eafcc_core.Run
use eafcc_core.Run.{Run, ok, err, map_err, ◌>>=◌}
use eafcc_core.RuleEngine.{MatchContext}
use eafcc_core.Parser.Nom.{Nom}
use eafcc_core.Model.{Bytes}
use eafcc_core.Model.Loader.{SerdeJson}
use eafcc_core.Storage.{StorageBackend}
use eafcc_core.Storage.Filesystem.{Fs, FilesystemBackend, FiniteTrees}
use eafcc_core.Storage.Git.Interface.{Git2, Network}
use eafcc_core.Querier.{ViewMode, CfgResult}
use eafcc_core.Querier.Sort.{Sorter}
use eafcc_core.Center
use eafcc_core.Center.{
  CfgCenter, NamespaceScopedCfgCenter, UpdateNotifyLevel, Differ, get_cfg, get_from_old,
  get_from_new, new_center,
}
use Memory.{Heap, Object, boxed_whoami, push, from_raw}
use Values.{bad_pointer, convert_get_cfg_output_value}
use LastError.{InternalLastError, set_last_error}
use Whoami.{whoami_of}
use Backend.{JsonConfig, build_storage_backend_from_cfg}

-- The slot of the last error of the thread, and what is out.
pub record Lib : Type 0 where
  pub last_error : InternalLastError
  pub heap : Heap

-- `set_last_error(0, e.to_string()); return ptr::null()`.
unfoldable pub fail {ℓ} : {A : Type ℓ} → Text → Lib → Lib × Outcome (Option A)
fail msg lib = (record lib { last_error = set_last_error 0 msg lib.last_error }, done none)

-- `free_whoami`.
unfoldable pub free_whoami : ℕ → Lib → Lib
free_whoami whoami lib = elim (lib.heap.live whoami) [
  | some (boxed_whoami w) ↦ record lib { heap = from_raw whoami lib.heap }
  | _ ↦ record lib { heap = bad_pointer lib.heap }
]

module _ (utf8 : Utf8) where
  -- The keys of a query. The first that is no UTF-8 ends the conversion.
  unfoldable pub convert_keys : List Bytes → Run FfiError (List Text)
  convert_keys [] = ok []
  convert_keys (key ∷ keys) = do
    k ← map_err string_convert_utf8_error (utf8.from_utf8 key)
    ks ← convert_keys keys
    ok (k ∷ ks)

  -- `convert_get_cfg_input_value`.
  unfoldable pub convert_get_cfg_input_value :
      Option MatchContext → List Bytes → Run FfiError (MatchContext × List Text)
  unfolding convert_keys
  convert_get_cfg_input_value none keys = Run.panicked
  convert_get_cfg_input_value (some whoami) keys = convert_keys keys >>= λ ks. ok (whoami, ks)

  unfoldable pub after_output : Lib → Heap × Run FfiError ℕ → Lib × Outcome (Option ℕ)
  unfolding fail
  after_output lib (h, ok p) = (record lib { heap = h }, done (some p))
  after_output lib (h, err e) = fail (display_ffi_error e) (record lib { heap = h })
  after_output lib (h, Run.panicked) = (record lib { heap = h }, panic)

  module _ {E : Type 0} (display : E → Text) where
    unfoldable pub after_query : Lib → Run E (List CfgResult) → Lib × Outcome (Option ℕ)
    unfolding after_output
    after_query lib (ok values) = after_output lib (convert_get_cfg_output_value values lib.heap)
    after_query lib (err e) = fail (display e) lib
    after_query lib Run.panicked = (lib, panic)

    unfoldable pub after_input :
        (MatchContext → List Text → Run E (List CfgResult))
        → Lib
        → Run FfiError (MatchContext × List Text)
        → Lib × Outcome (Option ℕ)
    unfolding after_query
    after_input query lib (ok (whoami, keys)) = after_query lib (query whoami keys)
    after_input query lib (err e) = fail (display_ffi_error e) lib
    after_input query lib Run.panicked = (lib, panic)

    -- What the three queries share.
    unfoldable pub answer :
        (MatchContext → List Text → Run E (List CfgResult))
        → Option MatchContext
        → List Bytes
        → Lib
        → Lib × Outcome (Option ℕ)
    unfolding after_input convert_get_cfg_input_value
    answer query whoami keys lib = after_input query lib (convert_get_cfg_input_value whoami keys)

  module _ (sorter : Sorter) where
    unfoldable pub get_config :
        Option NamespaceScopedCfgCenter
        → Option MatchContext
        → List Bytes
        → ViewMode
        → ℕ
        → Lib
        → Lib × Outcome (Option ℕ)
    unfolding answer
    get_config none whoami keys view_mode need_explain lib = (lib, panic)
    get_config (some ns) whoami keys view_mode need_explain lib =
        answer display_query_error
          (λ w ks. get_cfg sorter ns w ks view_mode (not (need_explain == 0))) whoami keys lib

    unfoldable pub differ_get_from_old :
        Option Differ
        → Option MatchContext
        → List Bytes
        → ViewMode
        → ℕ
        → Lib
        → Lib × Outcome (Option ℕ)
    unfolding answer
    differ_get_from_old none whoami keys view_mode need_explain lib = (lib, panic)
    differ_get_from_old (some differ) whoami keys view_mode need_explain lib =
        answer display_differ_error
          (λ w ks. get_from_old sorter differ w ks view_mode (not (need_explain == 0))) whoami keys
          lib

    unfoldable pub differ_get_from_new :
        Option Differ
        → Option MatchContext
        → List Bytes
        → ViewMode
        → ℕ
        → Lib
        → Lib × Outcome (Option ℕ)
    unfolding answer
    differ_get_from_new none whoami keys view_mode need_explain lib = (lib, panic)
    differ_get_from_new (some differ) whoami keys view_mode need_explain lib =
        answer display_differ_error
          (λ w ks. get_from_new sorter differ w ks view_mode (not (need_explain == 0))) whoami keys
          lib

  -- `new_whoami`.
  unfoldable pub new_whoami : Bytes → Lib → Lib × ℕ
  new_whoami val lib = (
    record lib { heap = push (boxed_whoami (whoami_of (utf8.to_string_lossy val))) lib.heap },
    lib.heap.next,
  )

  -- The end of `create_namespace`: the handle is the pointer.
  unfoldable pub after_create :
      Lib → CfgCenter × Run CcLibError ℕ → Lib × CfgCenter × Outcome (Option ℕ)
  unfolding fail
  after_create lib (cc, ok handle) = (lib, cc, done (some handle))
  after_create lib (cc, err e) = let (lib', r) = fail (display_cc_lib_error e) lib in (lib', cc, r)
  after_create lib (cc, Run.panicked) = (lib, cc, panic)

  module _ (nom : Nom) (serde : SerdeJson) where
    unfoldable pub create_with_name :
        StorageBackend
        → CfgCenter
        → UpdateNotifyLevel
        → Bool
        → Lib
        → Run FfiError Text
        → Lib × CfgCenter × Outcome (Option ℕ)
    unfolding fail after_create
    create_with_name backend cc notify_level has_callback lib (ok namespace) =
        after_create lib
          (Center.create_namespace nom serde backend cc namespace notify_level has_callback)
    create_with_name backend cc notify_level has_callback lib (err e) =
        let (lib', r) = fail (display_ffi_error e) lib in (lib', cc, r)
    create_with_name backend cc notify_level has_callback lib Run.panicked = (lib, cc, panic)

    -- `create_namespace`, with a pointer to a center on its backend.
    unfoldable pub create_namespace :
        StorageBackend
        → CfgCenter
        → Option Bytes
        → UpdateNotifyLevel
        → Bool
        → Lib
        → Lib × CfgCenter × Outcome (Option ℕ)
    unfolding create_with_name
    create_namespace backend cc none notify_level has_callback lib = (lib, cc, panic)
    create_namespace backend cc (some namespace) notify_level has_callback lib =
        create_with_name backend cc notify_level has_callback lib
          (map_err string_convert_utf8_error (utf8.from_utf8 namespace))

  module _ (json : JsonConfig) (fs : Fs)
      (trees : (backend : FilesystemBackend) → FiniteTrees utf8 fs backend) (git : Git2)
      (net : Network git) where
    -- What a pointer to a center stands for: the center and its backend.
    abbrev pub Client : Type 1
    Client = StorageBackend × CfgCenter

    unfoldable pub after_center :
        Lib → StorageBackend → Run CcLibError CfgCenter → Lib × Outcome (Option Client)
    unfolding fail
    after_center lib backend (ok cc) = (lib, done (some (backend, cc)))
    after_center lib backend (err e) = fail (display_cc_lib_error e) lib
    after_center lib backend Run.panicked = (lib, panic)

    unfoldable pub after_backend :
        Nom → SerdeJson → Lib → Run FfiError StorageBackend → Lib × Outcome (Option Client)
    unfolding fail after_center
    after_backend nom serde lib (ok backend) =
        after_center lib backend (new_center nom serde backend)
    after_backend nom serde lib (err e) = fail (display_ffi_error e) lib
    after_backend nom serde lib Run.panicked = (lib, panic)

    unfoldable pub after_json :
        Nom → SerdeJson → Lib → Run ForeignError json.Value → Lib × Outcome (Option Client)
    unfolding fail after_backend
    after_json nom serde lib (err e) = fail e.message lib
    after_json nom serde lib Run.panicked = (lib, panic)
    after_json nom serde lib (ok cfg) = elim (json.get cfg (text "storage_backend")) [
      | none ↦ fail (text "must set storage_backend field in the config file.") lib
      | some backend_cfg ↦
          after_backend nom serde lib
            (build_storage_backend_from_cfg json utf8 fs trees git net backend_cfg)
    ]

    unfoldable pub new_config_center_client :
        Nom → SerdeJson → Option Bytes → Lib → Lib × Outcome (Option Client)
    unfolding after_json
    new_config_center_client nom serde none lib = (lib, panic)
    new_config_center_client nom serde (some cfg) lib =
        after_json nom serde lib (json.from_slice cfg)
