-- ===== src/Lib.antt =====
-- The core of eafcc, a library that gives clients their configuration: rules say for which clients
-- (by their tags) a link holds, links join rules to resources, and resources hold key-value pairs.
-- A version of all of these lies in a storage (a directory tree or a git repository); a namespace
-- of it is loaded into three indices in memory, and queries are answered from there. When the
-- storage has a new version, the stores of the namespaces are replaced and clients are called back.
--
-- The parts, and the files that model them (paths from the repository's root):
--   src/rule_engine/mod.rs: RuleEngine. `Condition` and `Vec<Condition>` are the mutual types
--     Condition and Conditions; `eval` returns an Outcome, since `unimplemented!()` panics.
--     RuleEngine/Meaning reads a condition as a proposition.
--   src/parser/rule.rs: Parser/Rule, over the combinators of nom in Parser/Nom: a record of the
--     combinators that the parser calls, with the laws that nom documents. Parser/Nom/Sample is a
--     concrete instance with which the parser runs. Parser/Rule/Combinators, Total and
--     Literal are proofs.
--   src/model/: Model and Model/Loader (`load_from_slice`). serde_json is the record SerdeJson.
--   src/error.rs: Error. What foreign libraries report is a message. Error/Display is how the
--     errors are displayed.
--   src/storage_backends/mod.rs: Storage (the trait is the record StorageBackend) and
--     Storage/Paths (`std::path` on Unix, as the loaders use it). Storage/Walk is the default
--     `walk_dir`, Storage/Walk/Default a backend that has it, the other children its proofs.
--   src/storage_backends/filesystem/mod.rs: Storage/Filesystem, over the file system as the record Fs,
--     with the loop of its watcher as a function on the events it receives. Its children are proofs.
--   src/storage_backends/git/mod.rs: Storage/Git, over git2 and the answers of the remote as the
--     records Git2 and Network of Storage/Git/Interface. `git_watcher` takes one Network for each
--     round of its loop. Storage/Git/Errors, Sync and Watcher are proofs.
--   src/cfg_center/cfgindex.rs: Index (the indices), Index/Builder (`IndexBuilder`), and the proofs
--     Index/Links, Index/Keeps and Index/Invariant. Index/Sample and
--     Index/SampleRun run them on a small storage.
--   src/cfg_center/mem_store.rs: MemStore.
--   src/cfg_center/querier.rs: Querier, with Querier/Sort for the comparator and the sort of std,
--     Querier/Sample for a sort to run with, and the proofs in the other children.
--   src/cfg_center/{cfg_center,namespace,differ}.rs: Center, with Center/Namespace for one namespace
--     and its differ, and the proofs in the other children. Center/Events is the center behind a
--     watcher, and Center/Quiet the center on either of the two backends.
--   src/ffi.rs: Ffi, with Ffi/LastError (the error slot of a thread), Ffi/Whoami (the tags of a
--     client), Ffi/Backend (the choice of the backend), Ffi/Memory (what is given out to the client, by
--     its addresses) and Ffi/Values (the conversion of results and its drops). Ffi/Answers,
--     Ffi/Reports, Ffi/Clients and Ffi/Creates are what a client sees; the children of Ffi/Values and Ffi/Whoami/Tags are their
--     lemmas. `into_raw` puts an object at a new address, `from_raw` takes it away, and taking away what
--     is not there sets a flag.
-- Prelude, Text, HashMap, F32, Outcome and Run are shared: Rust's strings as lists of scalar values
-- (a slice by byte offset counts UTF-8 bytes), maps as lists of entries in the order of iteration,
-- `f32` by its bits, an expression that may panic, and a `Result` that may panic.
--
-- How it is modelled. A function that mutates takes the state and returns it. `Arc` around a value
-- that is never changed is left out; `Arc<NamespaceScopedCFGCenter>`, which the map and the clients
-- share, is a place in a list (the heap) in Center. A lock is represented by whether it is
-- poisoned: a panic while it is held poisons it. Operations run one after the other. A callback of
-- a client is outside the program: the model returns the calls that were made. The walk of a
-- backend takes the closure as a function on its captured state; with an error that state is
-- dropped, as every caller drops it.
--
-- Bounds and fuel. The recursive parser `expr` takes fuel, one more than the number of characters
-- of the input: between two nested calls at least a parenthesis is read. Running out is the
-- parser's `failure`. The default `walk_dir` takes
-- one unit for each directory that it lists and one to end; Storage/Walk/Default gives it one more
-- than the directories below the path. The digits of a number, in the message of a NUL in a text, take
-- one unit more than the number. All else is structural.
--
-- Assumptions about foreign code, each a field or a hypothesis: the laws of nom (record Nom); of
-- `sort_unstable_by` (record Sorter), that it keeps the elements if it returns, that with the
-- comparator of a rank, which is a total order, it returns, sorted, and that it compares no element
-- with itself. The comparator of the querier is no total order on ties: for links that tie nothing is
-- assumed of their order, nor that the sort returns. And that the walk of a backend changes the
-- captured state through the callback alone (CallsOnly).
--
-- Further assumptions: the conversions of UTF-8 (record Utf8) lose nothing of a text, and give a text
-- only for its own bytes; git2 finds a commit under its own identifier, and its walk changes the state
-- of the closure through the closure alone (record Git2); the directories of a filesystem backend are
-- finite trees (FiniteTrees).
--
-- Not modelled: the threads of the watchers and their pauses (their loops are modelled), the options
-- and credentials of a fetch, the locks of parking_lot, which are never poisoned, list_versions of the
-- backends, which returns the empty list, free_config_center and free_namespace of src/ffi.rs, which
-- drop a box and a reference count, the demonstrations under src/storage_backends/git/p2p, the printing
-- of errors, the benchmark and the bindings for Go.
pub mod Prelude
pub mod Text
pub mod HashMap
pub mod Outcome
pub mod RuleEngine
pub mod F32
pub mod Error
pub mod Ffi
pub mod Run
pub mod Model
pub mod Parser
pub mod Storage
pub mod Index
pub mod MemStore
pub mod Querier
pub mod Center
