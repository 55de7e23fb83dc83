-- ===== src/FileClaim.antt =====
-- drop/file_claim.py: the receiver's side of the framed conversation. This file has its state, what it
-- reads and writes, and the calls of the chunk sink.
--
-- The peer is the bytes that it sends before it closes, resets or falls silent, and what connecting,
-- draining a write, the sink and closing do.
use hermes_drop.Base.{
  ℕ, suc, zero, ◌+◌, ◌-◌, ◌*◌, ◌/◌, ◌%◌, ◌≤◌, ◌<◌, max, min, String, ◌<>◌, ◌≡◌, refl, sym, ap, ◌∙◌,
  ◌≢◌, ◌↔◌, ◌⊎◌, inl, inr, Bool, true, false, not, ◌&&◌, ◌||◌, Option, none, some, List, [], ◌∷◌,
  ◌++◌, map, arith, if◌then◌else◌, Eq, ◌==◌, contains, option_eq, string_eq, nat_eq, Bool-cases,
  Option-cases, ltb, leb, ltb→lt, leb→le, length, keep, any, All, length-append, length-keep-le,
  keep-All,
}
use hermes_drop.Base.{Text, text_eq, take, drop}
use hermes_drop.Base.Exec.{Exec, Result, ok, raised, pure, raise, gets, modify, ◌>>=◌, ◌>>◌}
use hermes_drop.Base.Json.{Json, Members}
pub mod Frames
pub mod Receive
pub mod Safe
pub mod Framed
pub mod Honest
pub mod Evidence
pub mod Streamed
pub mod Kept
pub mod Acknowledged
pub mod Faithful

abbrev pub frame_header_bytes : ℕ
frame_header_bytes = 4

abbrev pub chunk_bytes : ℕ
chunk_bytes = 256 * 1024

abbrev pub max_line_bytes : ℕ
max_line_bytes = 64 * 1024

-- The exceptions that may end the conversation: `OSError`, the timeout of `wait_for`, `ValueError`,
-- and any other, which the sink may raise.
pub data Fault : Type 0 where
  os_error timed_out value_error foreign : Fault

pub data Code : Type 0 where
  broker_unavailable transfer_failed transfer_indeterminate : Code

pub data Reason : Type 0 where
  connection_closed malformed_metadata truncated frame_length_mismatch digest_mismatch : Reason
  invalid_utf8 malformed_answer commit_answer_lost : Reason
  client_timeout client_timeout_after_commit transport_after_commit : Reason

-- A file of the result.
pub record File : Type 0 where
  pub name : Json
  pub type : Json
  pub size : ℕ
  pub sha256 : Text
  pub bytes : Option (List ℕ)

pub record Claim : Type 0 where
  pub handoff_id : Json
  pub status : Json
  pub transfer_id : Json
  pub lease_expires_at : Json
  pub bytes : Json
  pub file_count : Json
  pub files : List File
  pub private_text : Option Text

-- The verdict: a failure that `_err` builds, with its reason and its index where it has them; a refusal
-- of the broker, forwarded; or a claim.
pub data Verdict : Type 0 where
  refused : Code → Option Reason → Option ℕ → Verdict
  spoken : Members → Verdict
  claimed : Claim → Verdict

-- A `return` before the end, or an exception.
pub data Exit : Type 0 where
  early : Verdict → Exit
  fault : Fault → Exit

-- The lines that the receiver writes. An index that the broker gave as `true` is 1 here.
pub data Message : Type 0 where
  begin_file_claim : (handoff_id : Text) (lease_ms : Option ℕ) → Message
  ack_frame : (transfer_id : Json) (index size : ℕ) (sha256 : Text) → Message
  commit_file_claim :
      (handoff_id : Text) (transfer_id : Json) (received_bytes : ℕ) (digests : List Text) → Message

-- One call of the sink.
pub record Delivery : Type 0 where
  pub index : ℕ
  pub entry : Members
  pub chunk : List ℕ
  pub done : Bool

pub data Ending : Type 0 where
  closed reset silent : Ending

pub record Peer : Type 0 where
  pub connect : Option Fault
  pub ends : Ending
  pub drain : ℕ → Option Fault
  pub sink : ℕ → Option Fault
  pub close_hangs : Bool

-- `tape` is what the peer still sends. `exit` says why the conversation ended early.
pub record Wire : Type 0 where
  pub tape : List ℕ
  pub sent : List Message
  pub delivered : List Delivery
  pub commit_written : Bool
  pub exit : Option Exit

-- `bytes.decode` and `json.loads` of a line: `UnicodeDecodeError` and `JSONDecodeError` are one case,
-- and any other exception is named.
pub data Parsed : Type 0 where
  malformed : Parsed
  unreadable : Fault → Parsed
  parsed : Json → Parsed

pub record Library : Type 0 where
  pub loads : List ℕ → Parsed
  pub sha256 : List ℕ → Text
  pub decode : List ℕ → Option Text

-- `raise`, and `return` from the middle of `_claim`.
module _ {X : Type 0} where
  unfoldable pub leave : Exit → Exec Wire X
  unfolding ◌>>=◌ modify raise
  leave exit = modify (λ w. record w { exit = some exit }) >> raise

  unfoldable pub refuse : Code → Reason → Option ℕ → Exec Wire X
  unfolding leave
  refuse code reason index = leave (early (refused code (some reason) index))

unfoldable pub or_fault : Option Fault → Exec Wire (Unit {0})
unfolding leave pure
or_fault none = pure tt
or_fault (some f) = leave (fault f)

unfoldable pub set_tape : List ℕ → Exec Wire (Unit {0})
unfolding modify
set_tape tape = modify (λ w. record w { tape = tape })

-- The bytes before the first newline, and those after it where there is one.
unfoldable pub break_line : List ℕ → List ℕ × Option (List ℕ)
unfolding nat_eq
break_line [] = ([], none)
break_line (b ∷ tape) =
    let (line, rest) = break_line tape in if b == 10 then ([], some tape) else (b ∷ line, rest)

-- What follows the last byte: the end of the stream, a reset, or nothing until the timeout.
unfoldable pub at_end : Ending → List ℕ → Exec Wire (List ℕ)
unfolding leave set_tape pure ◌>>=◌
at_end closed partial = set_tape [] >> pure partial
at_end reset partial = leave (fault os_error)
at_end silent partial = leave (fault timed_out)

module _ (peer : Peer) where
  -- `_read_exactly`
  unfoldable pub read_exactly : ℕ → Exec Wire (List ℕ)
  unfolding at_end set_tape gets pure ◌>>=◌ take drop
  read_exactly count = do
    tape ← gets (λ w. w.tape)
    if leb count (length tape)
        then (set_tape (drop count tape) >> pure (take count tape))
        else at_end peer.ends tape

  take_line : List ℕ → Option (List ℕ) → Exec Wire (List ℕ)
  unfolding at_end set_tape pure ◌>>=◌
  take_line line none = at_end peer.ends line
  take_line line (some rest) = set_tape rest >> pure (line ++ (10 ∷ []))

  unfoldable pub line_of : List ℕ → Exec Wire (List ℕ)
  unfolding take_line break_line leave
  line_of tape =
      let (line, rest) = break_line tape in
      if ltb max_line_bytes (length line) then leave (fault value_error) else take_line line rest

  -- `reader.readline()` with the limit that the connection was opened with.
  unfoldable pub readline : Exec Wire (List ℕ)
  unfolding line_of gets ◌>>=◌
  readline = gets (λ w. w.tape) >>= line_of

  -- `writer.write(line)` and `await writer.drain()`
  unfoldable pub send : Message → Exec Wire (Unit {0})
  unfolding or_fault gets modify ◌>>=◌
  send message = do
    count ← gets (λ w. length w.sent)
    modify (λ w. record w { sent = w.sent ++ (message ∷ []) })
    or_fault (peer.drain count)

  -- `_deliver`, where there is a sink and the frame is not the private one.
  unfoldable pub deliver : Delivery → Exec Wire (Unit {0})
  unfolding or_fault gets modify ◌>>=◌
  deliver delivery = do
    count ← gets (λ w. length w.delivered)
    modify (λ w. record w { delivered = w.delivered ++ (delivery ∷ []) })
    or_fault (peer.sink count)
