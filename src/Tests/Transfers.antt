-- ===== src/Tests/Transfers.antt =====
-- File claims at concrete data.
use hermes_drop.Base.Dict
use hermes_drop.Base.{any}
use hermes_drop.Routing.{routing_eq}
use hermes_drop.Journal.Entry
use hermes_drop.Journal.Entry.{
  Caller, drop_id, state, received, authorize_claim, same_claim, is_state, text_of,
  routing_tuple_of, key_eq,
}
use hermes_drop.FileClaim.{unreadable, value_error}
use hermes_drop.FileClaim.Safe.{is_commit}
use hermes_drop.Materialize
use hermes_drop.Materialize.{
  refusal, Journalled, journal_read, authorize, Observed, opened, receiver_refused, publish_done,
  receive, leave, materialize_file_claim,
}
use hermes_drop.Materialize.Transfer.{received_as, IsExcused, materialize_file_claim-IsExcused}
use hermes_drop.Base.{
  ℕ, ◌≡◌, refl, true, false, none, some, List, [], ◌∷◌, ◌++◌, if◌then◌else◌, ◌==◌, option_eq,
  string_eq, nat_eq,
}
use hermes_drop.Base.{text_eq, codes}
use hermes_drop.Base.Json.{
  null, flag, integer, natural, string, array, object, no_items, item, Members, no_members, member,
}
use hermes_drop.FileClaim.{Claim, claimed, Peer, closed, malformed, parsed, Library}
use hermes_drop.FileClaim.Frames.{Request}
use hermes_drop.FileClaim.Receive.{returned, receive_file_claim, before_claim}
use hermes_drop.FileClaim.Honest.{IsHonest, receive_file_claim-IsHonest}
use hermes_drop.FileClaim.Faithful.{Backed, receive_file_claim-Backed}

abbrev accepted : Members → Members
accepted = member (codes "ok") (flag true)

abbrev entry : Members
entry =
    member (codes "name") (string (codes "a.txt"))
      (member (codes "size") (integer (natural 2)) no_members)

abbrev metadata : Members
metadata = accepted (member (codes "files") (array (item (object entry) no_items)) no_members)

abbrev answer : Members
answer = accepted (member (codes "status") (string (codes "claimed")) no_members)

-- The lines of this broker are one letter each.
abbrev library : Library
library = record {
  loads = λ line.
      if line == codes "M\n"
      then parsed (object metadata)
      else if line == codes "A\n"
      then parsed (object (accepted no_members))
      else if line == codes "C\n"
      then parsed (object answer)
      else malformed;
  sha256 = λ bytes. 5 ∷ bytes;
  decode = λ bytes. some bytes;
}

abbrev peer : Peer
peer = record {
  connect = none;
  ends = closed;
  drain = λ n. none;
  sink = λ n. none;
  close_hangs = false;
}

abbrev request : Request
request = record { handoff_id = codes "h"; lease_ms = none; has_sink = true; keep_bytes = false }

-- One file of two bytes.
abbrev tape : List ℕ
tape = codes "M\n" ++ (0 ∷ 0 ∷ 0 ∷ 2 ∷ 7 ∷ 8 ∷ (codes "A\n" ++ codes "C\n"))

abbrev result : Claim
result = record {
  handoff_id = null;
  status = string (codes "claimed");
  transfer_id = null;
  lease_expires_at = null;
  bytes = null;
  file_count = null;
  files =
      record {
        name = string (codes "a.txt");
        type = null;
        size = 2;
        sha256 = 5 ∷ 7 ∷ 8 ∷ [];
        bytes = none;
      }
      ∷ [];
  private_text = none;
}

is_received :
    (receive_file_claim peer library (codes "/run/broker") request (before_claim tape)).0
    ≡ returned (claimed result)
unfolding receive_file_claim
is_received = refl

receive_file_claim-IsHonest_example :
    IsHonest
      (receive_file_claim peer library (codes "/run/broker") request (before_claim tape)).0
      (receive_file_claim peer library (codes "/run/broker") request (before_claim tape)).1
receive_file_claim-IsHonest_example =
    receive_file_claim-IsHonest peer library (codes "/run/broker") request tape

receive_file_claim-Backed_example :
    Backed library request result
      (receive_file_claim peer library (codes "/run/broker") request (before_claim tape)).1
receive_file_claim-Backed_example =
    receive_file_claim-Backed peer library (codes "/run/broker") request tape result refl
      is_received

-- A broker whose answer to the commit is a line with a number that Python does not read.
abbrev odd_library : Library
odd_library = record library {
  loads = λ line. if line == codes "C\n" then unreadable value_error else library.loads line;
}

abbrev caller : Caller
caller = record {
  lane = record { platform = []; profile = []; chat_id = []; thread_id = [] };
  user = [];
}

abbrev journal : Journalled
journal =
    journal_read
      (some ((drop_id, Entry.string (codes "abcdefgh")) ∷ (state, Entry.string received) ∷ []))

abbrev seen : Observed
seen = record {
  stage = opened;
  received = receiver_refused (some Materialize.broker_unavailable);
  commit_written = true;
  arrival = 0 ∷ [];
  entries = [];
  publishing = publish_done;
  rename_works = true;
  removal_works = true;
  hold_cancelled = none;
  exit_raised = false;
}

granted : authorize journal caller ≡ none
unfolding authorize authorize_claim same_claim routing_eq routing_tuple_of text_of Dict.lookup
    key_eq text_eq is_state
granted = refl

as_seen :
    seen.received
    ≡ received_as false
        (receive_file_claim peer odd_library (codes "/run/broker") request (before_claim tape)).0
unfolding receive_file_claim received_as
as_seen = refl

is_safe :
    (materialize_file_claim journal caller seen).0
    ≡ Materialize.refused (refusal Materialize.broker_unavailable)
unfolding materialize_file_claim authorize authorize_claim same_claim receive leave routing_eq
    routing_tuple_of text_of Dict.lookup key_eq is_state
is_safe = refl

says_safe : (refusal Materialize.broker_unavailable).retry_safe ≡ true
unfolding refusal
says_safe = refl

was_sent :
    any is_commit
      (receive_file_claim peer odd_library (codes "/run/broker") request (before_claim tape)).1.sent
    ≡ true
unfolding receive_file_claim any
was_sent = refl

materialize_file_claim-IsExcused_example :
    IsExcused
      (receive_file_claim peer odd_library (codes "/run/broker") request (before_claim tape)).0
      (receive_file_claim peer odd_library (codes "/run/broker") request (before_claim tape)).1
materialize_file_claim-IsExcused_example =
    materialize_file_claim-IsExcused journal caller seen false peer odd_library
      (codes "/run/broker") request tape (refusal Materialize.broker_unavailable) granted refl
      as_seen is_safe says_safe was_sent
