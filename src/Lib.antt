-- ===== src/Lib.antt =====
-- The core of opatchy's helper (helper/opatchy_helper): which updates it shows, which it watches, and
-- of which it notifies.
--
-- A scan collects the outcome of each source, resolves it against the previous generation and builds
-- the next one: a snapshot, the inventories and the durable state. A star makes an item watched; a
-- scan arms or ends a temporary watch. The notification policy picks candidates from the durable
-- state and a snapshot. A batch of candidates is claimed under a lease in the ledger of that state,
-- sent, and completed. The storage accepts a state only if it passes `validate_state`.
--
-- Base: the shared notation, results, lists and texts, and the lemmas on them.
-- Models: the enums and dataclasses of models.py and storage_types.py. A NewType over str is a
--   String, a datetime the number of its microseconds, an int that may be negative a ℤ.
-- Runner: runner_types.py, the commands, their results and `arguments_allowed`.
-- Storage: storage_watches.py (`validate_watch`, with its regular expressions) in Watches,
--   storage_state.py (`validate_state`, `prune_ledger`) in State, and their meaning in Durable; the
--   encoding, decoding and migrations of both files in Documents; storage_generation.py in Generations
--   and Bundles.
-- Wire: json_value.py in Json and Protocol, parser_fields.py in Timestamps and Fields, the enums as
--   texts in Enums, wire.py in Values, payload_parser.py in Items and Payloads, parser.py in
--   Responses, protocol.py in Protocol; what is read back in RoundTrip.
-- Files: storage.py in Operations, storage_locked_state.py in States, storage_cache.py in Caches, over
--   the files of Disk. An operation runs from a disk to a result and a disk, since it keeps what it
--   wrote when it raises; the lock makes it a single step. `clock` gives the time of the n-th reading.
-- Validation: validation.py, with one function for each `_validate_*` function of the source.
-- Stars: stars.py; `transition` is the function of that name, and `Transition` its exception.
-- Adapters: of adapters/arch.py, its failures and `compare_versions`.
-- Notifications: notification_types.py in Types, notification_batch.py in Batch,
--   notification_policy.py in Freshness and Policy, conditional_security_policy.py in Conditional,
--   notifications.py in Dispatch.
-- Cli: cli_requests.py in Requests and Arguments; cli_operations.py in Operations and, for the star,
--   in SetStar and Stars. A list of words with gaps is a sequence pattern of a `match`.
-- Scan: scan_outcomes.py in Outcomes, scan_resolution.py in Resolution, scan_assembly.py in Assembly,
--   scan_generation.py and the metadata of scan_assembly.py in Generation.
-- Tests: the theorems at concrete inputs.
-- The proofs about a file stand in its child modules.
--
-- An exception is an `err`: of a text where the source raises StateCorruptError or
-- WatchTransitionError, of an ErrorInfo or a ScanFault where it raises ProtocolError or a `next` finds
-- nothing; decoding and the storage may also raise the plain ValueError of json.loads, `value_error`.
-- Loops are structural recursion, so no fuel is used. `sha256` stands for the hexadecimal
-- digest of hashlib, `casefold` for str.casefold and `run` for the runner of commands; nothing is
-- assumed of them. `Calendar`, `JsonText` and `Base64` stand for datetime, json with str.encode, and base64; the round trips assume
-- of them, for the values at hand, that reading gives back what was written (IsIso, IsReadable). A
-- lease token is an argument, where the source calls uuid4: that no entry of the ledger carries it yet is a
-- hypothesis.
--
-- Not modelled: the dispatch of the command line with its error responses, the cached feeds,
-- the system calls under the storage and their errors, the processes, the adapters but for the parts above, the QML interface and the scripts.
pub mod Adapters
pub mod Base
pub mod Cli
pub mod Files
pub mod Models
pub mod Notifications
pub mod Runner
pub mod Scan
pub mod Stars
pub mod Storage
pub mod Tests
pub mod Validation
pub mod Wire
