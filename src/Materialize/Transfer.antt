-- ===== src/Materialize/Transfer.antt =====
-- drop/materialize.py run on what drop/file_claim.py did.
use hermes_drop.Base.{
  ℕ, ◌≡◌, inl, inr, Bool, true, false, Option, none, some, List, [], ◌∷◌, map, arith, if◌then◌else◌,
  ◌==◌, option_eq, string_eq, nat_eq, any,
}
use hermes_drop.Base.{Text, text_eq, codes}
use hermes_drop.Base.Json.{Json, string, Members, truthy, get}
use hermes_drop.Journal.Entry.{Caller}
use hermes_drop.FileClaim.{
  Verdict, refused, spoken, claimed, File, Claim, Fault, value_error, Wire, Peer, Library, Exit,
  fault,
}
use hermes_drop.FileClaim
use hermes_drop.FileClaim.Safe.{is_commit}
use hermes_drop.FileClaim.Frames.{Request}
use hermes_drop.FileClaim.Receive.{
  Outcome, returned, escaped, unfinished, receive_file_claim, before_claim,
}
use hermes_drop.FileClaim.Honest.{IsHonest, receive_file_claim-IsHonest}
use hermes_drop.Materialize
use hermes_drop.Materialize.{
  Code, spool_unavailable, spool_busy, spool_write_failed, spool_publish_failed, transfer_failed,
  transfer_indeterminate, lapsed, broker_unavailable, invalid_request, unrecognised, Refusal,
  refusal, policy, Report, file, Received, staging_failed, receiver_raised, receiver_refused,
  receiver_committed, Observed, opened, Journalled, authorize, refused_by_receiver, publish,
  receive, leave, discard, hold, quarantine, materialize_file_claim,
}

-- An error by its name, and no error for an empty one.
unfoldable pub code_named : Text → Option Code
unfolding text_eq
code_named [] = none
code_named (c ∷ cs) =
    let name = c ∷ cs in
    some (
      if name == codes "spool_unavailable"
      then spool_unavailable
      else if name == codes "spool_busy"
      then spool_busy
      else if name == codes "spool_write_failed"
      then spool_write_failed
      else if name == codes "spool_publish_failed"
      then spool_publish_failed
      else if name == codes "transfer_failed"
      then transfer_failed
      else if name == codes "transfer_indeterminate"
      then transfer_indeterminate
      else if name == codes "unavailable"
      then lapsed
      else if name == codes "broker_unavailable"
      then broker_unavailable
      else if name == codes "invalid_request"
      then invalid_request
      else unrecognised name)

-- `str(result.get("error") or "")`, where a value that is no text names no known error.
abbrev pub error_of : Json → Option Code
error_of (string s) = code_named s
error_of value = if truthy value then some (unrecognised []) else none

abbrev pub own_code : FileClaim.Code → Code
own_code FileClaim.broker_unavailable = broker_unavailable
own_code FileClaim.transfer_failed = transfer_failed
own_code FileClaim.transfer_indeterminate = transfer_indeterminate

abbrev pub report_of : File → Report
report_of f = file (some f.size) (some f.sha256)

-- What the receiver did, as `materialize_file_claim` sees it; an exception that passes through it is the
-- sink's `StagingFailed` or another.
unfoldable pub received_as : (staging : Bool) → Outcome → Received
unfolding code_named truthy get
received_as staging (returned (refused code reason index)) = receiver_refused (some (own_code code))
received_as staging (returned (spoken ms)) = receiver_refused (error_of (get (codes "error") ms))
received_as staging (returned (claimed c)) = receiver_committed (some (map report_of c.files))
received_as staging escaped = if staging then staging_failed else receiver_raised
received_as staging unfinished = receiver_raised

-- Where a retry may be called safe although the commit was written.
pub data IsExcused : Outcome → Wire → Type 0 where
  by_broker : (ms : Members) (w : Wire) → IsExcused (returned (spoken ms)) w
  by_sink : (w : Wire) → IsExcused escaped w
  by_value_error : (o : Outcome) (w : Wire) → w.exit ≡ some (fault value_error) → IsExcused o w

retry_safe-published :
    (o : Observed) (files : Option (List Report)) (r : Refusal)
    → (publish o files).0 ≡ Materialize.refused r
    → r.retry_safe ≡ false
unfolding publish refusal policy
retry_safe-published o files r h = ground arith

refused-not_safe :
    (o : Observed) (r : Refusal)
    → o.received ≡ receiver_refused (some transfer_indeterminate)
    → (receive o).0 ≡ Materialize.refused r
    → r.retry_safe ≡ false
unfolding receive refused_by_receiver refusal policy
refused-not_safe o r is_received h = ground arith

committed-not_safe :
    (o : Observed) (r : Refusal) (files : Option (List Report))
    → o.received ≡ receiver_committed files
    → (receive o).0 ≡ Materialize.refused r
    → r.retry_safe ≡ false
unfolding receive
committed-not_safe o r files is_received h = ground (arith, retry_safe-published o files r)

receive-IsExcused :
    (o : Observed) (staging : Bool) (out : Outcome) (w : Wire) (r : Refusal)
    → IsHonest out w
    → o.received ≡ received_as staging out
    → (receive o).0 ≡ Materialize.refused r
    → r.retry_safe ≡ true
    → any is_commit w.sent ≡ true
    → IsExcused out w
unfolding received_as IsHonest
receive-IsExcused o staging (returned (refused FileClaim.transfer_failed reason index)) w r honest
      is_received h safe sent =
    absurd (ground arith)
receive-IsExcused o staging (returned (refused FileClaim.transfer_indeterminate reason index)) w r
      honest is_received h safe sent =
    absurd (ground (arith, refused-not_safe o r is_received h))
receive-IsExcused o staging (returned (refused FileClaim.broker_unavailable reason index)) w r
      (inl unsent) is_received h safe sent =
    absurd (ground arith)
receive-IsExcused o staging (returned (refused FileClaim.broker_unavailable reason index)) w r
      (inr unreadable) is_received h safe sent =
    by_value_error _ w unreadable
receive-IsExcused o staging (returned (spoken ms)) w r honest is_received h safe sent =
    by_broker ms w
receive-IsExcused o staging (returned (claimed c)) w r honest is_received h safe sent =
    absurd (ground (arith, committed-not_safe o r _ is_received h))
receive-IsExcused o staging escaped w r honest is_received h safe sent = by_sink w
receive-IsExcused o staging unfinished w r honest is_received h safe sent = absurd honest

leave-refused :
    (raised removes : Bool) (v : Materialize.Verdict × Materialize.Place) (r : Refusal)
    → (leave raised removes v).0 ≡ Materialize.refused r
    → r.retry_safe ≡ true
    → v.0 ≡ Materialize.refused r
unfolding leave refusal policy
leave-refused raised removes v r h safe = ground arith

-- Where the receiver's run on the broker's bytes is what the service saw, a refusal that says a retry is
-- safe, of an authorized claim whose commit was written, is the broker's own, or comes from an exception
-- of the sink or the parser, or from a `ValueError`.
pub materialize_file_claim-IsExcused :
    (journal : Journalled) (caller : Caller) (o : Observed) (staging : Bool) (peer : Peer)
    (lib : Library) (path : Text) (request : Request) (tape : List ℕ) (r : Refusal)
    → authorize journal caller ≡ none
    → o.stage ≡ opened
    → o.received
      ≡ received_as staging (receive_file_claim peer lib path request (before_claim tape)).0
    → (materialize_file_claim journal caller o).0 ≡ Materialize.refused r
    → r.retry_safe ≡ true
    → any is_commit (receive_file_claim peer lib path request (before_claim tape)).1.sent ≡ true
    → IsExcused
        (receive_file_claim peer lib path request (before_claim tape)).0
        (receive_file_claim peer lib path request (before_claim tape)).1
unfolding materialize_file_claim
materialize_file_claim-IsExcused journal caller o staging peer lib path request tape r allowed
      is_open is_received h safe sent =
    let run = receive_file_claim peer lib path request (before_claim tape) in
    receive-IsExcused o staging run.0 run.1 r
      (receive_file_claim-IsHonest peer lib path request tape) is_received
      (leave-refused o.exit_raised o.removal_works (receive o) r (ground arith) safe) safe sent
