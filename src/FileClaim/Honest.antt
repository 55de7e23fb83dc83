-- ===== src/FileClaim/Honest.antt =====
-- drop/file_claim.py: what a verdict says about the commit, on every way out of the conversation.
use mathlib.Core.Path.{subst}
use hermes_drop.Base.{
  ℕ, ◌≡◌, refl, sym, ◌∙◌, ◌⊎◌, inl, inr, Bool, true, false, ◌||◌, Option, none, some, List, [], ◌∷◌,
  ◌++◌, arith, option_eq, string_eq, nat_eq, ltb, length, any,
}
use hermes_drop.Base.{Text, text_eq, codes}
use hermes_drop.Base.Exec.{Exec, Result, ok, raised, pure, raise, gets, modify, ◌>>=◌}
use hermes_drop.Base.Exec.Meets.{
  Ends, Meets, Meets-bind, Meets-if, Meets-pure, Meets-gets, Meets-modify,
}
use hermes_drop.Base.Json.{
  Json, null, flag, float, string, integer, array, object, Items, Members, truthy, get, object_of,
}
use hermes_drop.FileClaim.Frames.{Request, Tally, private_of}
use hermes_drop.FileClaim.Receive.{
  nothing_yet, commit_object, metadata_object, read_commit, commit, transfer, with_private,
  with_files, read_metadata, conversation, closing, closed_as, exit_outcome, claim, Outcome,
  returned, escaped, unfinished, handlers, outcome, receive_file_claim, before_claim,
}
use hermes_drop.FileClaim.Safe.{
  is_commit, any-append, Flagged, Fits, Ended, Safe, Before, leave-Before, refuse-Before,
  send-Before, readline-Before, or_fault-Before,
}
use hermes_drop.FileClaim.{
  Fault, os_error, timed_out, value_error, foreign, broker_unavailable, transfer_failed,
  transfer_indeterminate, Reason, connection_closed, malformed_metadata, malformed_answer,
  commit_answer_lost, Claim, refused, spoken, claimed, Exit, early, fault, Message,
  commit_file_claim, Ending, closed, reset, silent, Peer, Wire, Parsed, malformed, unreadable,
  parsed, Library, leave, refuse, or_fault, set_tape, break_line, at_end, take_line, line_of,
  max_line_bytes, readline, send,
}
use hermes_drop.FileClaim.Framed.{frames-Before}

-- What stands once a commit was written.
pub record Committed (w : Wire) : Type 0 where
  pub written : w.commit_written ≡ true
  pub sent_it : any is_commit w.sent ≡ true

module _ (peer : Peer) (lib : Library) (request : Request) where
  abbrev After : {X : Type 0} → Exec Wire X → Type 0
  After body = Meets Committed (λ _. Committed) Ended body

  module _ {X : Type 0} where
    leave-After : (exit : Exit) → Fits exit true → After (leave {X = X} exit)
    unfolding leave modify raise ◌>>=◌
    leave-After exit fits = record {
      at = λ w done. record {
        why = exit;
        says = refl;
        fits = rw done.written fits;
        flagged = done.written ∙ sym done.sent_it;
      };
    }

    refuse-After :
        (reason : Reason) (index : Option ℕ)
        → After (refuse {X = X} transfer_indeterminate reason index)
    unfolding refuse
    refuse-After reason index = leave-After _ refl

  end-After : (ends : Ending) (partial : List ℕ) → After (at_end ends partial)
  unfolding at_end set_tape modify pure ◌>>=◌
  end-After closed partial = record {
    at = λ w done. record { written = done.written; sent_it = done.sent_it };
  }
  end-After reset partial = leave-After (fault os_error) tt
  end-After silent partial = leave-After (fault timed_out) tt

  take_line-After : (line : List ℕ) (rest : Option (List ℕ)) → After (take_line peer line rest)
  unfolding take_line set_tape modify pure ◌>>=◌
  take_line-After line none = end-After peer.ends line
  take_line-After line (some rest) = record {
    at = λ w done. record { written = done.written; sent_it = done.sent_it };
  }

  readline-After : After (readline peer)
  unfolding readline line_of
  readline-After =
      Meets-bind {Mid = λ _. Committed} _ _ (Meets-gets (λ w. w.tape) λ _ done. done) λ tape.
        Meets-if (ltb max_line_bytes (length (break_line tape).0)) _ _
          (λ _. leave-After (fault value_error) tt)
          (λ _. take_line-After (break_line tape).0 (break_line tape).1)

  commit_object-After :
      (metadata : Members) (tally : Tally) (answer : Option Members)
      → After (commit_object peer lib request metadata tally answer)
  commit_object-After metadata tally none = refuse-After malformed_answer none
  commit_object-After metadata tally (some ms) =
      Meets-if (truthy (get (codes "ok") ms)) _ _ (λ _. Meets-pure _ (λ _ done. done))
        (λ _. leave-After _ tt)

  read_commit-After :
      (metadata : Members) (tally : Tally) (line : List ℕ) (answer : Parsed)
      → After (read_commit peer lib request metadata tally line answer)
  unfolding read_commit
  read_commit-After metadata tally [] answer = refuse-After commit_answer_lost none
  read_commit-After metadata tally (b ∷ line) malformed = refuse-After malformed_answer none
  read_commit-After metadata tally (b ∷ line) (unreadable f) = leave-After (fault f) tt
  read_commit-After metadata tally (b ∷ line) (parsed value) =
      commit_object-After metadata tally (object_of value)

  or_fault-After : (f : Option Fault) → After (or_fault f)
  unfolding or_fault
  or_fault-After none = Meets-pure tt (λ _ done. done)
  or_fault-After (some f) = leave-After (fault f) tt

  or_true : (b : Bool) → b || true ≡ true
  or_true true = refl
  or_true false = refl

  -- The commit's write, once it is flagged.
  send-After :
      (message : Message)
      → is_commit message ≡ true
      → Meets (λ w. w.commit_written ≡ true) (λ _. Committed) Ended (send peer message)
  unfolding send any
  send-After message it =
      Meets-bind {Mid = λ _ w. w.commit_written ≡ true} _ _ (Meets-gets _ λ _ flagged. flagged)
        λ count.
          Meets-bind {Mid = λ _. Committed}
            (modify (λ w. record w { sent = w.sent ++ (message ∷ []) })) _
            (Meets-modify _ λ w flagged. record {
              written = flagged;
              sent_it = any-append is_commit w.sent (message ∷ []) ∙ rw it (or_true _);
            })
            λ _. or_fault-After (peer.drain count)

  commit-Meets :
      (n : ℕ) (metadata : Members) (tally : Tally)
      → Meets (Safe n) (λ _. Committed) Ended (commit peer lib request metadata tally)
  unfolding commit
  commit-Meets n metadata tally =
      Meets-bind {Mid = λ _ w. w.commit_written ≡ true}
        (modify (λ w. record w { commit_written = true })) _ (Meets-modify _ λ _ _. refl)
        λ _.
          Meets-bind _ _
            (send-After
              (commit_file_claim request.handoff_id (get (codes "transfer_id") metadata)
                tally.received tally.digests)
              refl)
            λ _.
              Meets-bind _ _ readline-After
                λ line. read_commit-After metadata tally line (lib.loads line)

  -- All of `_claim`, from before its first write to its commit.
  abbrev WholeClaim : {X : Type 0} → Exec Wire X → Type 0
  WholeClaim body = (n : ℕ) → Meets (Safe n) (λ _. Committed) Ended body

  transfer-Meets :
      (metadata : Members) (entries : Items) (private_meta : Option Members)
      → WholeClaim (transfer peer lib request metadata entries private_meta)
  unfolding transfer
  transfer-Meets metadata entries private_meta n =
      Meets-bind {Mid = λ left w. Safe left w} (gets (λ w. length w.tape)) _
        (Meets-gets _
          λ w safe. record { unwritten = safe.unwritten; unsent = safe.unsent; left = omega arith })
        λ left.
          Meets-bind _ _
            (frames-Before peer lib request (get (codes "transfer_id") metadata) entries
              private_meta left 0 nothing_yet)
            λ tally. commit-Meets left metadata tally

  with_files-Meets :
      (metadata : Members) (files : Json) → WholeClaim (with_files peer lib request metadata files)
  with_files-Meets metadata (array entries) n =
      go (private_of (get (codes "private_text") metadata))
    where
      go :
          (private_meta : Option (Option Members))
          → Meets
              (Safe n)
              (λ _. Committed)
              Ended
              (with_private peer lib request metadata entries private_meta)
      go none = refuse-Before malformed_metadata none
      go (some private_meta) = transfer-Meets metadata entries private_meta n
  with_files-Meets metadata null n = refuse-Before malformed_metadata none
  with_files-Meets metadata (flag x) n = refuse-Before malformed_metadata none
  with_files-Meets metadata (integer x) n = refuse-Before malformed_metadata none
  with_files-Meets metadata (float x) n = refuse-Before malformed_metadata none
  with_files-Meets metadata (string x) n = refuse-Before malformed_metadata none
  with_files-Meets metadata (object x) n = refuse-Before malformed_metadata none

  metadata_object-Meets :
      (metadata : Option Members) → WholeClaim (metadata_object peer lib request metadata)
  metadata_object-Meets none n = refuse-Before malformed_metadata none
  metadata_object-Meets (some ms) n =
      Meets-if (truthy (get (codes "ok") ms)) _ _
        (λ _. with_files-Meets ms (get (codes "files") ms) n) (λ _. leave-Before _ tt)

  read_metadata-Meets :
      (line : List ℕ) (answer : Parsed) → WholeClaim (read_metadata peer lib request line answer)
  unfolding read_metadata
  read_metadata-Meets [] answer n = refuse-Before connection_closed none
  read_metadata-Meets (b ∷ line) malformed n = refuse-Before malformed_metadata none
  read_metadata-Meets (b ∷ line) (unreadable f) n = leave-Before (fault f) tt
  read_metadata-Meets (b ∷ line) (parsed value) n = metadata_object-Meets (object_of value) n

  conversation-Meets : WholeClaim (conversation peer lib request)
  unfolding conversation
  conversation-Meets n =
      Before-send (send-Before peer n _ refl) λ _.
        Before-send (readline-Before peer n) λ line. read_metadata-Meets line (lib.loads line) n
    where
      Before-send :
          {X : Type 0}
          → {body : Exec Wire X} → {rest : X → Exec Wire Claim} → Before n body
          → ((x : X) → Meets (Safe n) (λ _. Committed) Ended (rest x))
          → Meets (Safe n) (λ _. Committed) Ended (body >>= rest)
      Before-send first then_ = Meets-bind {Mid = λ _. Safe n} _ _ first then_

  closing-Ends :
      (way_out : Result Claim) (w : Wire)
      → Ends (λ _. Committed) Ended way_out w
      → Ends
          (λ _. Committed)
          Ended
          (closing peer lib request (way_out, w)).0
          (closing peer lib request (way_out, w)).1
  unfolding closing
  closing-Ends way_out w ends = go peer.close_hangs
    where
      flags : (r : Result Claim) → Ends (λ _. Committed) Ended r w → Flagged w
      flags raised ended = ended.flagged
      flags (ok c) done = done.written ∙ sym done.sent_it

      go :
          (hangs : Bool)
          → Ends
              (λ _. Committed)
              Ended
              (closed_as peer lib request hangs (way_out, w)).0
              (closed_as peer lib request hangs (way_out, w)).1
      go true = record {
        why = fault timed_out;
        says = refl;
        fits = tt;
        flagged = flags way_out ends;
      }
      go false = ends

  pub claim-Meets : WholeClaim (claim peer lib request)
  unfolding claim
  claim-Meets n =
      Meets-bind {Mid = λ _. Safe n} (or_fault peer.connect) _ (or_fault-Before n peer.connect) λ _.
        record {
          at = λ w safe.
              closing-Ends (conversation peer lib request w).0 (conversation peer lib request w).1
                ((conversation-Meets n).at w safe);
        }

-- What a verdict says about the commit. A commit that was answered by a line which Python could not read as
-- a line or as a number is reported as if the socket had not been usable.
unfoldable pub IsHonest : Outcome → Wire → Type 0
IsHonest (returned (refused transfer_failed reason index)) w = any is_commit w.sent ≡ false
IsHonest (returned (refused transfer_indeterminate reason index)) w = any is_commit w.sent ≡ true
IsHonest (returned (refused broker_unavailable reason index)) w =
    (any is_commit w.sent ≡ false) ⊎ (w.exit ≡ some (fault value_error))
IsHonest (returned (spoken ms)) w = Unit
IsHonest (returned (claimed c)) w = any is_commit w.sent ≡ true
IsHonest escaped w = w.exit ≡ some (fault foreign)
IsHonest unfinished w = ⊥

module _ (w : Wire) where
  handlers-IsHonest :
      (written : Bool) (f : Fault)
      → w.exit ≡ some (fault f)
      → written ≡ any is_commit w.sent
      → IsHonest (handlers written f) w
  unfolding handlers IsHonest
  handlers-IsHonest true timed_out says agree = sym agree
  handlers-IsHonest false timed_out says agree = sym agree
  handlers-IsHonest true os_error says agree = sym agree
  handlers-IsHonest false os_error says agree = inl (sym agree)
  handlers-IsHonest written value_error says agree = inr says
  handlers-IsHonest written foreign says agree = says

  outcome-IsHonest :
      (way_out : Result Claim)
      → Ends (λ _. Committed) Ended way_out w
      → IsHonest (outcome way_out w) w
  unfolding outcome IsHonest
  outcome-IsHonest (ok c) done = done.sent_it
  outcome-IsHonest raised ended =
      subst (λ e. IsHonest (exit_outcome w.commit_written e) w) (sym ended.says)
        (go ended.why ended.fits ended.says)
    where
      go :
          (why : Exit)
          → Fits why w.commit_written
          → w.exit ≡ some why
          → IsHonest (exit_outcome w.commit_written (some why)) w
      go (early (refused transfer_failed reason index)) fits says = sym ended.flagged ∙ fits
      go (early (refused transfer_indeterminate reason index)) fits says = sym ended.flagged ∙ fits
      go (early (refused broker_unavailable reason index)) fits says = absurd fits
      go (early (spoken ms)) fits says = tt
      go (early (claimed c)) fits says = absurd fits
      go (fault f) fits says = handlers-IsHonest w.commit_written f says ended.flagged

-- A claim that begins with nothing sent always ends in a verdict, or with an exception that is none of
-- those handled. It says `transfer_failed` only where no commit was written, `transfer_indeterminate`
-- only where one was, and `broker_unavailable` where none was or where a `ValueError` ended it; a claim
-- is reported only where the commit was written.
pub receive_file_claim-IsHonest :
    (peer : Peer) (lib : Library) (path : Text) (request : Request) (tape : List ℕ)
    → IsHonest
        (receive_file_claim peer lib path request (before_claim tape)).0
        (receive_file_claim peer lib path request (before_claim tape)).1
unfolding receive_file_claim IsHonest any
receive_file_claim-IsHonest peer lib [] request tape = inl refl
receive_file_claim-IsHonest peer lib (c ∷ path) request tape =
    let w = before_claim tape in
    outcome-IsHonest (claim peer lib request w).1 (claim peer lib request w).0 (
      (claim-Meets peer lib request (length tape)).at w
        (record { unwritten = refl; unsent = refl; left = omega arith }))
