-- ===== src/Lib.antt =====
-- The core of x-sync v2, the guided conversation about a code base, as a model with proofs.
--
-- The program keeps a conversation as a log of events. `decide` looks at one snapshot and one command
-- and gives events or a rejection; the coordinator numbers the events; the event store tests the batch
-- and folds the events with `reduce`, which makes the next snapshot or fails. A registry of dialogues is
-- kept in the same way, and a lease store says which Host may run the work of a dialogue. This core, in
-- skills/x-sync/scripts/xsync_v2, is the part modelled here:
--
--   Domain        domain.py: enums, records, commands, event payloads, the snapshot `DialogueState`
--   Text          the patterns of work_identity.py and `_valid_text` of state_machine.py
--   Identity      work_identity.py: the canonical trigger test and `derive_canonical_work_id`
--   Rules         the tables of state_machine.py: publishable evidence, retryable failures, deltas
--   Validate      the validators of state_machine.py up to `validate_state` (`is_valid_state`)
--   Decision      the outcome of a command; `_accept`
--   Decide        the handlers of state_machine.py, `decide` and `decide_fenced_quiesce`
--   Reduce        `reduce` of state_machine.py, one definition for each branch
--   Session       `initial_dialogue_state`, the numbering loop of `_commit_dialogue_events`
--                 (coordinator.py) and `_validate_event_batch_shape` (event_store.py)
--   Registry      registry.py: which dialogue is current, handoffs between dialogues, and the receipts of
--                 registry commands; `decide_registry` and `reduce_registry` are its decide and
--                 reduce, and Registry/Build numbers a batch as registry_codec.py does
--   Work          work.py: the runnable work that is projected from a snapshot
--   Lease         lease_store.py: the leases under which a Host runs work, their immutable histories,
--                 and the fence before a result is published
--   Laws          the theorems: Frame (counters), Phases (which event leads from which phase to which),
--                 Ledger (what a Session keeps), Batch (decisions against the store), Valid (which
--                 operations keep a snapshot valid), Progress and Refused (the last validation),
--                 Registry, Lease and Runnable (those components)
--   Tests         runs at concrete inputs
--   Prelude       shared notation, decidable equality, lists, results
--
-- The state of a dialogue is the record `DialogueState`, that of the registry `RegistryState` and that of
-- a lease store the history of a work, each passed explicitly; a Python `replace` is a record update. `raise ValueError(code)` is `err`, a rejection is `rejected code`. A handler
-- `_start_topic` is `start_topic_handler`, a branch `type(payload) is TopicStarted` of `reduce` is
-- `reduce_topic_started`. A helper ending in `_on` is the rest of a handler once the optional value
-- that it needs is there.
--
-- Choices. Values are typed, so a test `type(x) is T` holds and is left out. The enum members OPEN and
-- NONE are `opened` and `none_phase`. A Python int that the code tests to be positive or not negative
-- is a natural number. A frozenset that the code only tests for membership is the list of its
-- elements. Texts are native strings, and `str.strip` is written out over the code points that Python
-- takes for white space. SHA-256 is not code of the repository: `Sha256` is an instance argument, and
-- the theorems that look at work ids assume of it only that a hex digest has 64 lower-case digits.
-- Decimal numerals are printed by recursion on fuel; n + 1 rounds are enough for n, since each round
-- divides by ten. Nothing else needs fuel: every loop of the code runs over a list.
--
-- The payloads are those of domain.py. The events `topic_switch_ready`, `evidence_status_changed`,
-- `custom_topic_submitted` and `session_ended`, and a topic switch without an active Run, stand in the
-- design spec (docs/superpowers/specs/2026-08-15-warm-adaptive-dialogue-design.md) but not in the code.
--
-- The registry says which dialogue may act: a runnable work is only handed out when its dialogue is the
-- current one of the registry (Lease/Current). A lease store reads the history of a work, tests a
-- request against the work and the clock, and links one more transaction file. The directory of a work
-- is the list of its transactions; `commit` takes the history that was read and the transactions that
-- are durable at the link, so that another store may come first. The clock and the runtime authority are
-- callables given to the store: functions of the number of the call, `none` where they raise. What
-- `_commit` calls of the lock authority and of secure_fs.py are functions of the same number that give
-- the error raised, if any. The hashes of the JSON texts of a lease store and of the registry codec,
-- and the number of bytes of a lease record, are the instance arguments `LeaseDigests` and
-- `RegistryDigests`; a theorem says what it assumes of them. `_encode_transaction` and
-- `_decode_transaction` are modelled by their tests (Lease/Encode), as the JSON library gives back the
-- tree that it has printed. An error after the hard link, of which the file survives, is not told
-- from one before it. The events of a transaction are its first one and the rest, since an empty one
-- is refused.
--
-- Not modelled: the event and registry stores with their files and codecs, the JSON trees and the
-- directories of the lease store, lock authority before a commit, the marker guards, the host and
-- browser services, exports, evidence collection, the quiz program and the web pages. They reach the
-- modelled code only through the values that are arguments here.

pub mod Prelude
pub mod Domain
pub mod Text
pub mod Identity
pub mod Rules
pub mod Validate
pub mod Decision
pub mod Decide
pub mod Reduce
pub mod Session
pub mod Registry
pub mod Work
pub mod Lease
pub mod Laws
mod Tests
