-- ===== src/FileClaim/Receive.antt =====
-- drop/file_claim.py: `_claim` around the frames, and `receive_file_claim`.
use hermes_drop.Base.{
  ℕ, suc, Bool, true, false, Option, none, some, List, [], ◌∷◌, if◌then◌else◌, option_eq, string_eq,
  nat_eq, length,
}
use hermes_drop.Base.{Text, text_eq, codes}
use hermes_drop.Base.Exec.{Exec, Result, ok, raised, pure, gets, modify, ◌>>=◌, ◌>>◌}
use hermes_drop.Base.Json.{Json, array, Items, Members, truthy, get, object_of}
use hermes_drop.FileClaim.{
  Fault, os_error, timed_out, value_error, foreign, broker_unavailable, transfer_failed,
  transfer_indeterminate, connection_closed, malformed_metadata, malformed_answer,
  commit_answer_lost, client_timeout, client_timeout_after_commit, transport_after_commit, Claim,
  Verdict, refused, spoken, claimed, Exit, early, fault, begin_file_claim, commit_file_claim, Peer,
  Wire, Parsed, malformed, unreadable, parsed, Library, leave, refuse, or_fault, readline, send,
}
use hermes_drop.FileClaim.Frames.{Request, Tally, private_of, frames}

abbrev pub nothing_yet : Tally
nothing_yet = record { received = 0; digests = []; files = []; private_text = none }

module _ (peer : Peer) (lib : Library) (request : Request) where
  abbrev pub claim_of : (metadata : Members) → Tally → (answer : Members) → Claim
  claim_of metadata tally answer = record {
    handoff_id = get (codes "handoff_id") answer;
    status = get (codes "status") answer;
    transfer_id = get (codes "transfer_id") metadata;
    lease_expires_at = get (codes "lease_expires_at") metadata;
    bytes = get (codes "bytes") answer;
    file_count = get (codes "files") answer;
    files = tally.files;
    private_text = tally.private_text;
  }

  abbrev pub commit_object : (metadata : Members) → Tally → Option Members → Exec Wire Claim
  commit_object metadata tally none = refuse transfer_indeterminate malformed_answer none
  commit_object metadata tally (some ms) =
      if truthy (get (codes "ok") ms)
      then pure (claim_of metadata tally ms)
      else leave (early (spoken ms))

  -- The answer to the commit.
  unfoldable pub read_commit : (metadata : Members) → Tally → List ℕ → Parsed → Exec Wire Claim
  unfolding leave refuse pure truthy get text_eq
  read_commit metadata tally [] answer = refuse transfer_indeterminate commit_answer_lost none
  read_commit metadata tally (b ∷ line) malformed =
      refuse transfer_indeterminate malformed_answer none
  read_commit metadata tally (b ∷ line) (unreadable f) = leave (fault f)
  read_commit metadata tally (b ∷ line) (parsed value) =
      commit_object metadata tally (object_of value)

  -- The commit, flagged before it is written.
  unfoldable pub commit : Members → Tally → Exec Wire Claim
  unfolding send readline read_commit modify get text_eq ◌>>=◌
  commit metadata tally = do
    modify (λ w. record w { commit_written = true })
    send peer (
        commit_file_claim request.handoff_id (get (codes "transfer_id") metadata) tally.received
          tally.digests)
    line ← readline peer
    read_commit metadata tally line (lib.loads line)

  -- The frames, with fuel for as many as the bytes that are left can hold, and the commit.
  unfoldable pub transfer : Members → Items → Option Members → Exec Wire Claim
  unfolding frames commit gets get text_eq ◌>>=◌
  transfer metadata entries private_meta = do
    left ← gets (λ (w : Wire). length w.tape)
    tally ←
        frames peer lib request (get (codes "transfer_id") metadata) entries private_meta (suc left)
          0 nothing_yet
    commit metadata tally

  abbrev pub with_private : Members → Items → Option (Option Members) → Exec Wire Claim
  with_private metadata entries none = refuse transfer_failed malformed_metadata none
  with_private metadata entries (some private_meta) = transfer metadata entries private_meta

  abbrev pub with_files : Members → Json → Exec Wire Claim
  with_files metadata (array entries) =
      with_private metadata entries (private_of (get (codes "private_text") metadata))
  with_files metadata _ = refuse transfer_failed malformed_metadata none

  abbrev pub metadata_object : Option Members → Exec Wire Claim
  metadata_object none = refuse transfer_failed malformed_metadata none
  metadata_object (some ms) =
      if truthy (get (codes "ok") ms)
      then with_files ms (get (codes "files") ms)
      else leave (early (spoken ms))

  -- The line of metadata.
  unfoldable pub read_metadata : List ℕ → Parsed → Exec Wire Claim
  unfolding leave refuse transfer private_of truthy get text_eq
  read_metadata [] metadata = refuse transfer_failed connection_closed none
  read_metadata (b ∷ line) malformed = refuse transfer_failed malformed_metadata none
  read_metadata (b ∷ line) (unreadable f) = leave (fault f)
  read_metadata (b ∷ line) (parsed value) = metadata_object (object_of value)

  unfoldable pub conversation : Exec Wire Claim
  unfolding send readline read_metadata ◌>>=◌
  conversation = do
    send peer (begin_file_claim request.handoff_id request.lease_ms)
    line ← readline peer
    read_metadata line (lib.loads line)

  abbrev pub closed_as : (hangs : Bool) → Result Claim × Wire → Result Claim × Wire
  closed_as true (way_out, w) = (raised, record w { exit = some (fault timed_out) })
  closed_as false (way_out, w) = (way_out, w)

  -- `finally: writer.close()`, where waiting for the close may hang.
  unfoldable pub closing : Result Claim × Wire → Result Claim × Wire
  closing = closed_as peer.close_hangs

  -- `_claim`
  unfoldable pub claim : Exec Wire Claim
  unfolding or_fault conversation closing ◌>>=◌
  claim = or_fault peer.connect >> (λ w. closing (conversation w))

-- What `receive_file_claim` does: it returns a verdict, or an exception passes through it. A run that
-- ends without either is `unfinished`.
pub data Outcome : Type 0 where
  returned : Verdict → Outcome
  escaped unfinished : Outcome

-- The handlers of `receive_file_claim`.
unfoldable pub handlers : (commit_written : Bool) → Fault → Outcome
handlers true timed_out =
    returned (refused transfer_indeterminate (some client_timeout_after_commit) none)
handlers false timed_out = returned (refused transfer_failed (some client_timeout) none)
handlers true os_error =
    returned (refused transfer_indeterminate (some transport_after_commit) none)
handlers false os_error = returned (refused broker_unavailable none none)
handlers written value_error = returned (refused broker_unavailable none none)
handlers written foreign = escaped

abbrev pub exit_outcome : (commit_written : Bool) → Option Exit → Outcome
exit_outcome written none = unfinished
exit_outcome written (some (early v)) = returned v
exit_outcome written (some (fault f)) = handlers written f

unfoldable pub outcome : Result Claim → Wire → Outcome
unfolding handlers
outcome (ok c) w = returned (claimed c)
outcome raised w = exit_outcome w.commit_written w.exit

-- `receive_file_claim`, which begins with nothing sent.
unfoldable pub receive_file_claim : Peer → Library → (path : Text) → Request → Wire → Outcome × Wire
unfolding claim outcome
receive_file_claim peer lib [] request w = (returned (refused broker_unavailable none none), w)
receive_file_claim peer lib (c ∷ path) request w =
    let (way_out, after) = claim peer lib request w in (outcome way_out after, after)

abbrev pub before_claim : List ℕ → Wire
before_claim tape = record {
  tape = tape;
  sent = [];
  delivered = [];
  commit_written = false;
  exit = none;
}
