-- ===== src/FileClaim/Acknowledged.antt =====
-- drop/file_claim.py: the acknowledgements of the frames.
use hermes_drop.Base.{
  ℕ, suc, zero, ◌≡◌, ◌∙◌, true, Option, none, some, List, [], ◌∷◌, arith, option_eq, string_eq,
  nat_eq, ltb, length,
}
use hermes_drop.Base.{text_eq, codes}
use hermes_drop.Base.Exec.Meets.{Meets, Meets-bind, Meets-if, Meets-pure, Meets-weaken, Meets-given}
use hermes_drop.Base.Json.{Whole, Json, Items, Members, truthy, get, object_of}
use hermes_drop.FileClaim.Frames.{
  Request, Tally, Next, stop, at, negative, big_endian, frame_entry, equals_whole, is_private_frame,
  file_index, after_header, with_entry, go_on, next_index, or_malformed, ack_object, read_ack,
  acknowledge, frame, frames,
}
use hermes_drop.FileClaim.{
  frame_header_bytes, transfer_failed, connection_closed, malformed_metadata, truncated,
  frame_length_mismatch, malformed_answer, spoken, early, fault, Message, ack_frame, Delivery, Peer,
  Parsed, malformed, unreadable, parsed, Library, send,
}
use hermes_drop.FileClaim.Evidence.{
  digests_of, sizes_of, Received, Shown, Anyhow, leave-Anyhow, refuse-Anyhow, read_exactly-Shown,
  readline-Shown, send-Shown,
}
use hermes_drop.FileClaim.Kept.{
  digests_of-append, sizes_of-append, Framed, read_frame-Framed, keep_frame-Pending,
}

-- `Evident`, as a condition on what was written and handed on.
abbrev pub EvidentIn : Library → Tally → List Message → List Delivery → Type 0
EvidentIn lib tally sent delivered =
    Received lib.sha256 tally.files delivered
    × (digests_of sent ≡ tally.digests)
    × (sizes_of sent ≡ tally.received)

module _ (peer : Peer) (lib : Library) (request : Request) (streaming : request.has_sink ≡ true)
    (transfer_id : Json) (entries : Items) (private_meta : Option Members) where
  ack_object-Quiet :
      (Q : List Message → List Delivery → Type 0) (index : ℕ) (answer : Option Members)
      → Meets (Shown Q) (λ _. Shown Q) Anyhow (ack_object peer lib request index answer)
  ack_object-Quiet Q index none = refuse-Anyhow transfer_failed malformed_answer (some index)
  ack_object-Quiet Q index (some ms) =
      Meets-if (truthy (get (codes "ok") ms)) _ _
        (λ _. go (next_index (get (codes "next_index") ms))) (λ _. leave-Anyhow (early (spoken ms)))
    where
      go :
          (next : Option Next)
          → Meets (Shown Q) (λ _. Shown Q) Anyhow (or_malformed peer lib request index next)
      go none = refuse-Anyhow transfer_failed malformed_answer (some index)
      go (some next) = Meets-pure next (λ _ q. q)

  read_ack-Quiet :
      (Q : List Message → List Delivery → Type 0) (index : ℕ) (line : List ℕ) (answer : Parsed)
      → Meets (Shown Q) (λ _. Shown Q) Anyhow (read_ack peer lib request index line answer)
  unfolding read_ack
  read_ack-Quiet Q index [] answer = refuse-Anyhow transfer_failed connection_closed (some index)
  read_ack-Quiet Q index (b ∷ line) malformed =
      refuse-Anyhow transfer_failed malformed_answer (some index)
  read_ack-Quiet Q index (b ∷ line) (unreadable f) = leave-Anyhow (fault f)
  read_ack-Quiet Q index (b ∷ line) (parsed value) = ack_object-Quiet Q index (object_of value)

  acknowledge-Evident :
      (index size : ℕ) (entry : Members) (tally : Tally) (collected : List ℕ)
      → Meets
          (Framed peer lib request streaming transfer_id entries private_meta
            (is_private_frame private_meta index)
            (file_index private_meta index)
            size
            entry
            tally
            collected)
          (λ (kept, _). Shown (EvidentIn lib kept))
          Anyhow
          (acknowledge peer lib request transfer_id entries private_meta index size entry tally
            collected)
  unfolding acknowledge digests_of sizes_of
  acknowledge-Evident index size entry tally collected =
      Meets-given _ (λ w framed. framed.are_size)
        λ size_is.
          Meets-bind _ _
            (keep_frame-Pending peer lib request streaming transfer_id entries private_meta
              private_meta index size entry collected tally)
            λ kept.
              let ack = ack_frame transfer_id index size (lib.sha256 collected) in
              Meets-bind {Mid = λ _. Shown (EvidentIn lib kept)} (send peer ack) _
                (Meets-weaken _
                  (λ w pending. (
                    pending.files,
                    digests_of-append w.sent (ack ∷ []) ∙ pending.digests,
                    sizes_of-append w.sent (ack ∷ []) ∙ omega (arith, size_is, pending.sizes),
                  ))
                  (λ _ _ h. h) (send-Shown (EvidentIn lib kept) peer ack))
                λ _. Meets-bind _ _ (readline-Shown (EvidentIn lib kept) peer) λ line.
                  Meets-bind _ _ (read_ack-Quiet (EvidentIn lib kept) index line (lib.loads line))
                    λ next. Meets-pure (kept, next) (λ _ h. h)

  after_header-Evident :
      (index : ℕ) (tally : Tally) (entry : Members) (advertised : Whole) (header : List ℕ)
      → Meets
          (Shown (EvidentIn lib tally))
          (λ (kept, _). Shown (EvidentIn lib kept))
          Anyhow
          (after_header peer lib request transfer_id entries private_meta index tally entry
            advertised header)
  unfolding after_header
  after_header-Evident index tally entry advertised header =
      let size = big_endian 0 header in
      Meets-if (ltb (length header) frame_header_bytes) _ _
        (λ _. refuse-Anyhow transfer_failed truncated none)
        λ _.
          Meets-if (equals_whole size advertised) _ _
            (λ _.
              Meets-bind _ _
                (Meets-weaken _
                  (λ w (files, digests, sizes). record {
                    files = files;
                    digests = digests;
                    sizes = sizes;
                  })
                  (λ _ _ h. h)
                  (read_frame-Framed peer lib request streaming transfer_id entries private_meta
                    index size entry tally))
                (acknowledge-Evident index size entry tally))
            (λ _. refuse-Anyhow transfer_failed frame_length_mismatch none)

  frame-Evident :
      (index : ℕ) (tally : Tally)
      → Meets
          (Shown (EvidentIn lib tally))
          (λ (kept, _). Shown (EvidentIn lib kept))
          Anyhow
          (frame peer lib request transfer_id entries private_meta index tally)
  unfolding frame
  frame-Evident index tally = go (frame_entry private_meta entries index)
    where
      go :
          (entry : Option (Members × Whole))
          → Meets
              (Shown (EvidentIn lib tally))
              (λ (kept, _). Shown (EvidentIn lib kept))
              Anyhow
              (with_entry peer lib request transfer_id entries private_meta index tally entry)
      go none = refuse-Anyhow transfer_failed malformed_metadata none
      go (some (entry, advertised)) =
          Meets-bind _ _ (read_exactly-Shown (EvidentIn lib tally) peer frame_header_bytes)
            λ header.
              Meets-weaken _ (λ w (h, _). h) (λ _ _ h. h)
                (after_header-Evident index tally entry advertised header)

  pub frames-Evident :
      (fuel index : ℕ) (tally : Tally)
      → Meets
          (Shown (EvidentIn lib tally))
          (λ kept. Shown (EvidentIn lib kept))
          Anyhow
          (frames peer lib request transfer_id entries private_meta fuel index tally)
  unfolding frames
  frames-Evident zero index tally = record { at = λ w start. tt }
  frames-Evident (suc fuel) index tally =
      Meets-bind _ _ (frame-Evident index tally) (go (frames-Evident fuel))
    where
      go :
          ((index : ℕ) (tally : Tally)
            → Meets
                (Shown (EvidentIn lib tally))
                (λ kept. Shown (EvidentIn lib kept))
                Anyhow
                (frames peer lib request transfer_id entries private_meta fuel index tally))
          → (round : Tally × Next)
          → Meets
              (Shown (EvidentIn lib round.0))
              (λ kept. Shown (EvidentIn lib kept))
              Anyhow
              (go_on peer lib request transfer_id entries private_meta
                (frames peer lib request transfer_id entries private_meta fuel)
                round)
      go ih (kept, stop) = Meets-pure kept (λ _ h. h)
      go ih (kept, at n) = ih n kept
      go ih (kept, negative) = refuse-Anyhow transfer_failed malformed_metadata none
