-- ===== src/FileClaim/Faithful.antt =====
-- drop/file_claim.py: what a claim that is reported rests on.
use hermes_drop.Base.{
  ℕ, suc, ◌≡◌, refl, sym, ap, ◌∙◌, ◌≢◌, Bool, true, false, Option, none, some, List, [], ◌∷◌, ◌++◌,
  arith, option_eq, string_eq, nat_eq, length, any,
}
use hermes_drop.Base.{Text, text_eq, codes}
use hermes_drop.Base.Exec.{Result, ok, raised, gets, modify}
use hermes_drop.Base.Exec.Meets.{
  Ends, Meets, Meets-bind, Meets-if, Meets-pure, Meets-weaken, Meets-gets, Meets-modify,
}
use hermes_drop.Base.Json.{
  Json, null, flag, float, string, integer, array, object, Items, Members, truthy, get, object_of,
}
use hermes_drop.FileClaim.Frames.{Request, Tally, private_of}
use hermes_drop.FileClaim.Receive.{
  nothing_yet, read_commit, commit, transfer, with_private, with_files, read_metadata, conversation,
  closing, claim, returned, handlers, outcome, receive_file_claim, before_claim,
}
use hermes_drop.FileClaim.Safe.{Fits, Ended}
use hermes_drop.FileClaim.{
  Fault, os_error, timed_out, value_error, foreign, broker_unavailable, transfer_failed,
  transfer_indeterminate, connection_closed, malformed_metadata, malformed_answer,
  commit_answer_lost, File, Claim, refused, spoken, claimed, Exit, early, fault, Message,
  begin_file_claim, commit_file_claim, Delivery, Peer, Wire, Parsed, malformed, unreadable, parsed,
  Library, or_fault, send,
}
use hermes_drop.FileClaim.Evidence.{
  digests_of, sizes_of, Received, nothing, Shown, Anyhow, leave-Anyhow, refuse-Anyhow,
  readline-Shown, send-Shown, or_fault-Shown,
}
use hermes_drop.FileClaim.Honest.{claim-Meets, Committed}
use hermes_drop.FileClaim.Receive.{
  claim_of, commit_object, metadata_object, closed_as, exit_outcome,
}
use mathlib.Core.Path.{subst}
use hermes_drop.FileClaim.Acknowledged.{EvidentIn, frames-Evident}

-- What stands behind a reported claim: its files are what the sink was handed, and the commit counts
-- and lists what was acknowledged before it.
pub record Backed (lib : Library) (request : Request) (c : Claim) (w : Wire) : Type 0 where
  pub files : Received lib.sha256 c.files w.delivered
  pub transfer_id : Json
  pub earlier : List Message
  pub committed :
      w.sent
      ≡ earlier
        ++ (commit_file_claim request.handoff_id transfer_id (sizes_of earlier) (digests_of earlier)
            ∷ [])

module _ (peer : Peer) (lib : Library) (request : Request)
    (streaming : request.has_sink ≡ true) where
  abbrev BackedIn : List File → List Message → List Delivery → Type 0
  BackedIn files sent delivered =
      Received lib.sha256 files delivered
      × (transfer_id : Json) × (earlier : List Message) × (sent
          ≡ earlier
            ++ (commit_file_claim request.handoff_id transfer_id (sizes_of earlier)
                  (digests_of earlier)
                ∷ []))

  commit_object-Backed :
      (metadata : Members) (tally : Tally) (answer : Option Members)
      → Meets
          (Shown (BackedIn tally.files))
          (Backed lib request)
          Anyhow
          (commit_object peer lib request metadata tally answer)
  commit_object-Backed metadata tally none =
      refuse-Anyhow transfer_indeterminate malformed_answer none
  commit_object-Backed metadata tally (some ms) =
      Meets-if (truthy (get (codes "ok") ms)) _ _
        (λ _.
          Meets-pure (claim_of peer lib request metadata tally ms)
            λ w (files, transfer_id, earlier, committed). record {
              files = files;
              transfer_id = transfer_id;
              earlier = earlier;
              committed = committed;
            })
        (λ _. leave-Anyhow (early (spoken ms)))

  read_commit-Backed :
      (metadata : Members) (tally : Tally) (line : List ℕ) (answer : Parsed)
      → Meets
          (Shown (BackedIn tally.files))
          (Backed lib request)
          Anyhow
          (read_commit peer lib request metadata tally line answer)
  unfolding read_commit
  read_commit-Backed metadata tally [] answer =
      refuse-Anyhow transfer_indeterminate commit_answer_lost none
  read_commit-Backed metadata tally (b ∷ line) malformed =
      refuse-Anyhow transfer_indeterminate malformed_answer none
  read_commit-Backed metadata tally (b ∷ line) (unreadable f) = leave-Anyhow (fault f)
  read_commit-Backed metadata tally (b ∷ line) (parsed value) =
      commit_object-Backed metadata tally (object_of value)

  commit-Backed :
      (metadata : Members) (tally : Tally)
      → Meets
          (Shown (EvidentIn lib tally))
          (Backed lib request)
          Anyhow
          (commit peer lib request metadata tally)
  unfolding commit
  commit-Backed metadata tally =
      Meets-bind {Mid = λ _. Shown (EvidentIn lib tally)}
        (modify (λ w. record w { commit_written = true })) _ (Meets-modify _ λ _ h. h)
        λ _.
          Meets-bind {Mid = λ _. Shown (BackedIn tally.files)}
            (send peer (
              commit_file_claim request.handoff_id (get (codes "transfer_id") metadata)
                tally.received tally.digests))
            _
            (Meets-weaken _
              (λ w (files, digests, sizes).
                (files, get (codes "transfer_id") metadata, w.sent, rw (sizes, digests) refl))
              (λ _ _ h. h) (send-Shown (BackedIn tally.files) peer _))
            λ _.
              Meets-bind _ _ (readline-Shown (BackedIn tally.files) peer)
                λ line. read_commit-Backed metadata tally line (lib.loads line)

  abbrev Fresh : Wire → Type 0
  Fresh = Shown (EvidentIn lib nothing_yet)

  transfer-Backed :
      (metadata : Members) (entries : Items) (private_meta : Option Members)
      → Meets Fresh
          (Backed lib request)
          Anyhow
          (transfer peer lib request metadata entries private_meta)
  unfolding transfer
  transfer-Backed metadata entries private_meta =
      Meets-bind {Mid = λ _. Fresh} (gets (λ w. length w.tape)) _ (Meets-gets _ λ _ h. h) λ left.
        Meets-bind _ _
          (frames-Evident peer lib request streaming (get (codes "transfer_id") metadata) entries
            private_meta (suc left) 0 nothing_yet)
          λ tally. commit-Backed metadata tally

  with_files-Backed :
      (metadata : Members) (files : Json)
      → Meets Fresh (Backed lib request) Anyhow (with_files peer lib request metadata files)
  with_files-Backed metadata (array entries) = go (private_of (get (codes "private_text") metadata))
    where
      go :
          (private_meta : Option (Option Members))
          → Meets Fresh
              (Backed lib request)
              Anyhow
              (with_private peer lib request metadata entries private_meta)
      go none = refuse-Anyhow transfer_failed malformed_metadata none
      go (some private_meta) = transfer-Backed metadata entries private_meta
  with_files-Backed metadata null = refuse-Anyhow transfer_failed malformed_metadata none
  with_files-Backed metadata (flag x) = refuse-Anyhow transfer_failed malformed_metadata none
  with_files-Backed metadata (integer x) = refuse-Anyhow transfer_failed malformed_metadata none
  with_files-Backed metadata (float x) = refuse-Anyhow transfer_failed malformed_metadata none
  with_files-Backed metadata (string x) = refuse-Anyhow transfer_failed malformed_metadata none
  with_files-Backed metadata (object x) = refuse-Anyhow transfer_failed malformed_metadata none

  read_metadata-Backed :
      (line : List ℕ) (answer : Parsed)
      → Meets Fresh (Backed lib request) Anyhow (read_metadata peer lib request line answer)
  unfolding read_metadata
  read_metadata-Backed [] answer = refuse-Anyhow transfer_failed connection_closed none
  read_metadata-Backed (b ∷ line) malformed = refuse-Anyhow transfer_failed malformed_metadata none
  read_metadata-Backed (b ∷ line) (unreadable f) = leave-Anyhow (fault f)
  read_metadata-Backed (b ∷ line) (parsed value) = go (object_of value)
    where
      go :
          (metadata : Option Members)
          → Meets Fresh (Backed lib request) Anyhow (metadata_object peer lib request metadata)
      go none = refuse-Anyhow transfer_failed malformed_metadata none
      go (some ms) =
          Meets-if (truthy (get (codes "ok") ms)) _ _
            (λ _. with_files-Backed ms (get (codes "files") ms))
            (λ _. leave-Anyhow (early (spoken ms)))

  -- Before the first write.
  abbrev Unsaid : Wire → Type 0
  Unsaid w = (w.sent ≡ []) × (w.delivered ≡ [])

  conversation-Backed : Meets Unsaid (Backed lib request) Anyhow (conversation peer lib request)
  unfolding conversation digests_of sizes_of
  conversation-Backed =
      let begin = begin_file_claim request.handoff_id request.lease_ms in
      Meets-bind {Mid = λ _. Fresh} (send peer begin) _
        (Meets-weaken _ (λ w (sent, delivered). (rw delivered nothing, rw sent refl, rw sent refl))
          (λ _ _ h. h) (send-Shown (EvidentIn lib nothing_yet) peer begin))
        λ _.
          Meets-bind _ _ (readline-Shown (EvidentIn lib nothing_yet) peer)
            λ line. read_metadata-Backed line (lib.loads line)

  closing-Backed :
      (way_out : Result Claim) (w : Wire)
      → Ends (Backed lib request) Anyhow way_out w
      → Ends
          (Backed lib request)
          Anyhow
          (closing peer lib request (way_out, w)).0
          (closing peer lib request (way_out, w)).1
  unfolding closing
  closing-Backed way_out w ends = go peer.close_hangs
    where
      go :
          (hangs : Bool)
          → Ends
              (Backed lib request)
              Anyhow
              (closed_as peer lib request hangs (way_out, w)).0
              (closed_as peer lib request hangs (way_out, w)).1
      go true = tt
      go false = ends

  claim-Backed : Meets Unsaid (Backed lib request) Anyhow (claim peer lib request)
  unfolding claim
  claim-Backed =
      Meets-bind {Mid = λ _. Unsaid} (or_fault peer.connect) _
        (or_fault-Shown (λ s d. (s ≡ []) × (d ≡ [])) peer.connect)
        λ _. record {
          at = λ w unsaid.
              closing-Backed (conversation peer lib request w).0 (conversation peer lib request w).1
                (conversation-Backed.at w unsaid);
        }

  handlers_ne_claimed :
      (written : Bool) (f : Fault) (c : Claim) → handlers written f ≢ returned (claimed c)
  unfolding handlers
  handlers_ne_claimed true timed_out c h = absurd (ground arith)
  handlers_ne_claimed false timed_out c h = absurd (ground arith)
  handlers_ne_claimed true os_error c h = absurd (ground arith)
  handlers_ne_claimed false os_error c h = absurd (ground arith)
  handlers_ne_claimed written value_error c h = absurd (ground arith)
  handlers_ne_claimed written foreign c h = absurd (ground arith)

  -- A claim is reported at the end of the conversation, and nowhere else.
  reported :
      (way_out : Result Claim) (w : Wire) (c : Claim)
      → Ends (λ _. Committed) Ended way_out w
      → outcome way_out w ≡ returned (claimed c)
      → way_out ≡ ok c
  unfolding outcome
  reported (ok d) w c ends h = ground arith
  reported raised w c ended h =
      absurd (go ended.why ended.fits (sym (ap (exit_outcome w.commit_written) ended.says) ∙ h))
    where
      go :
          (why : Exit)
          → Fits why w.commit_written
          → exit_outcome w.commit_written (some why) ≢ returned (claimed c)
      go (early (refused transfer_failed reason index)) fits h = absurd (ground arith)
      go (early (refused transfer_indeterminate reason index)) fits h = absurd (ground arith)
      go (early (refused broker_unavailable reason index)) fits h = fits
      go (early (spoken ms)) fits h = absurd (ground arith)
      go (early (claimed c)) fits h = fits
      go (fault f) fits h = handlers_ne_claimed w.commit_written f c h

-- With a sink, a claim that is reported has for each of its files, in order, the calls by which the sink was
-- handed that file: in chunks of 1 to 262144 bytes of which only the last says that it is, or in one call
-- without bytes for an empty file. The file's digest and its size are those of the bytes of its calls. The last
-- line written is the commit, and its byte count and its digests are those of the acknowledgements before it.
pub receive_file_claim-Backed :
    (peer : Peer) (lib : Library) (path : Text) (request : Request) (tape : List ℕ) (c : Claim)
    → request.has_sink ≡ true
    → (receive_file_claim peer lib path request (before_claim tape)).0 ≡ returned (claimed c)
    → Backed lib request c (receive_file_claim peer lib path request (before_claim tape)).1
unfolding receive_file_claim any
receive_file_claim-Backed peer lib [] request tape c streaming h = absurd (ground arith)
receive_file_claim-Backed peer lib (b ∷ path) request tape c streaming h =
    let w = before_claim tape in
    let ends =
      (claim-Meets peer lib request (length tape)).at w
        (record { unwritten = refl; unsent = refl; left = omega arith }) in
    let backed = (claim-Backed peer lib request streaming).at w (refl, refl) in
    subst (λ r. Ends (Backed lib request) Anyhow r (claim peer lib request w).1)
      (reported peer lib request streaming (claim peer lib request w).0 (claim peer lib request w).1
        c ends h)
      backed
