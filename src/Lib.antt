-- ===== src/Lib.antt =====
-- Hermes Drop: the Python plugin of integrations/hermes-drop, which hands private input to a chat
-- session, and the editor of its configuration, bin/hermes-drop-config-edit.py. journal.py, or
-- drop/journal.py, below stands for integrations/hermes-drop/drop/journal.py, and so for the
-- other files.
--
-- The parts and how they interact. A tool call captures the turn's source (sources.py), and
-- origin.py turns it into a verified origin, the only destination there is. journal.py keeps one
-- file for each drop and decides who may claim it. vault.py holds a claimed secret in memory
-- under a placeholder, which the request middleware replaces on its way to the model.
-- reconciler.py starts the passes that finish drops which a restart left open, waiter.py waits
-- for one drop while it is live, and both end a drop by the same transition and wake its
-- conversation through announce.py. materialize.py asks the journal whether a file claim may go
-- ahead, and decides what becomes of the bytes that file_claim.py receives from the broker.
-- outbound_payload.py checks what goes the other way, from the model to the user.
--
-- Which file models which part:
--   Routing         the four-field routing tuple.
--   Vault           vault.py: `_ENTRIES` and `_TIMERS` as two dicts, `stash`, `resolve`, `clear`;
--                   Vault/Substitute the middleware and its walk, Vault/Redact
--                   `redact_tool_result`. The rest of Vault holds proofs.
--   Sources         sources.py: the registry's two indices; Sources/Invariant its operations in any
--                   order.
--   Origin          origin.py: `resolve_origin`.
--   Journal         journal.py: Journal/Entry one entry, its validation and `authorize_claim`;
--                   Journal/Store the directory and its readers; Journal/Write `_write` with the
--                   moments at which it may stop, `put`, `update`, `delete`, `create_entry`.
--   Reconciler      reconciler.py: Reconciler/Latch the module's globals and the accounting of a
--                   pass, Reconciler/Trigger the two triggers, Reconciler/Finalize the terminal
--                   transition and the probe, Reconciler/Edits refused status edits,
--                   Reconciler/Pass the pass. The rest of Reconciler holds proofs.
--   World           what a pass and a wait work on, and an update of the journal as an action;
--                   World/Refines compares it with a map from drops to entries.
--   Announce        announce.py: `announce_pending`.
--   SafeErrors      safe_errors.py: `sanitize_tool_result`.
--   Waiter          waiter.py: `DropWaiter`; Waiter/Tasks `WaiterRegistry`.
--   Materialize     materialize.py: one file claim, its verdict, and the place of its bytes, with
--                   `quarantine`, `discard` and the exit of spool.py's staging claim;
--                   Materialize/Transfer runs it on what the receiver of FileClaim did.
--   FileClaim       file_claim.py: the state of a connection, its reads and writes;
--                   FileClaim/Frames the loop over the frames and their chunks, FileClaim/Receive
--                   `_claim` and `receive_file_claim`. The rest of FileClaim holds proofs.
--   ConfigEdit      bin/hermes-drop-config-edit.py: the regular expressions for one line;
--                   ConfigEdit/Locate `locate`, ConfigEdit/Apply `desired` and `apply_edit`,
--                   ConfigEdit/Run `validate`, `cross_check` and `main`. The rest holds proofs.
--   Outbound        outbound_payload.py: the checks of the fields of a payload; Outbound/Accepted
--                   holds proofs.
--   Base            Python's dicts, equality, texts, shared lemmas; Base/Exec code that changes a
--                   state and may raise; Base/Json what `json.loads` returns.
--   Tests           the theorems at concrete data.
--
-- How the code corresponds. State that a module keeps in globals or attributes is a record that
-- is passed along. A lock's critical section is one operation, and what happens concurrently is a
-- list of operations, or of steps, in any order. Times are natural numbers: milliseconds in the
-- vault, seconds elsewhere; a difference of times stops at 0, which compares as a negative
-- difference does with the limits used. A text is a list of code points. Tokens, names of
-- temporary files, clocks and identities of objects are arguments.
--
-- Fuel. `trim_session` and `trim_all` take the number of tokens, one of which goes in each round;
-- `poll` takes the number of polls, as the code does; `decimal` takes n + 1 rounds for n, which
-- loses a digit in each. The loop over a frame's chunks takes the frame's length, of which a
-- chunk takes at least 1; the loop over the frames takes one round more than the bytes that are
-- left, of which a header takes 4. The walk over a request is structural.
--
-- Parameters: the runner's `_adapter_for_source`; in the latch, the answer of `origin_for_entry`
-- about a lane and what a pass returns; in the pass and the wait, the clocks, the disk's and the
-- messenger's failures, the broker's answers and `arm`, as functions of how many questions were
-- put before, and what the rest of the gateway does while a wait is parked; Python's Unicode
-- tables, its `int` of a text and its `float` of a text; of a file claim, what the journal's
-- read, the receiver and the spool answer, whether the spool's removals succeed, and whether a
-- cancellation arrives while bytes are being held; of its receiver, the bytes of the peer and how
-- they end, what connecting, draining, the sink and closing do, the JSON parser, SHA-256 and
-- UTF-8; the YAML parser.
--
-- Not modelled: the JavaScript broker, the shell wrappers, sockets, messengers, subprocesses and
-- threads as such; cancellation of a pass or a wait, and of a file claim while its staging is
-- opened or cleared; the `TypeError` of `set(skip)` where a hand-edited entry has a list or an
-- object as its `drop_id`, which in the model comes at that entry of the loop; the text of a
-- wake; a count of attempts that a hand-edited entry holds as a text, where the journal lists;
-- the details of the receiver's failures and the messages of the editor, which are prose; the
-- editor's replacement of its file, which is the one that the journal's write makes, and its
-- command line; the spool's files, and the title, the size and the JSON text of an outbound
-- payload.
pub mod Base
pub mod Routing
pub mod Vault
pub mod Sources
pub mod Origin
pub mod Journal
pub mod Reconciler
pub mod ConfigEdit
pub mod FileClaim
pub mod Materialize
pub mod Outbound
pub mod World
pub mod Announce
pub mod Waiter
pub mod SafeErrors
pub mod Tests
