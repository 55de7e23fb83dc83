-- ===== src/FileClaim/Framed.antt =====
-- drop/file_claim.py: the loops over the chunks and the frames.
use hermes_drop.Base.{
  ℕ, suc, zero, ◌-◌, ◌≤◌, min, ◌≡◌, refl, Bool, false, Option, none, some, List, [], ◌∷◌, ◌++◌,
  arith, option_eq, string_eq, nat_eq, ltb, length,
}
use hermes_drop.Base.{Text, text_eq, codes}
use hermes_drop.Base.Exec.{Exec}
use hermes_drop.Base.Exec.Meets.{Meets, Meets-bind, Meets-if, Meets-weaken, Meets-given}
use hermes_drop.Base.Json.{Whole, Json, Items, Members, truthy, get, object_of}
use hermes_drop.FileClaim.Frames.{
  Request, Tally, Next, stop, at, negative, big_endian, frame_entry, equals_whole, is_text,
  is_empty, keep_text, take_chunk, after_header, with_entry, go_on, chunks, keep_frame, next_index,
  or_malformed, ack_object, read_ack, acknowledge, read_frame, frame, frames,
}
use hermes_drop.FileClaim.Safe.{
  Ended, Safe, Before, Before-bind, leave-Before, refuse-Before, Safe-mono, Before-pure, Before-if,
  send-Before, deliver-Before, read_exactly-Before, readline-Before,
}
use hermes_drop.FileClaim.{
  frame_header_bytes, chunk_bytes, connection_closed, malformed_metadata, truncated,
  frame_length_mismatch, digest_mismatch, invalid_utf8, malformed_answer, fault, Delivery, Peer,
  Wire, Parsed, malformed, unreadable, parsed, Library, read_exactly,
}

pub is_empty-length : (bytes : List ℕ) → is_empty bytes ≡ false → 1 ≤ length bytes
is_empty-length [] h = absurd (ground arith)
is_empty-length (b ∷ bytes) h = omega arith

module _ (peer : Peer) (lib : Library) (request : Request) where
  take_chunk-Before :
      (n : ℕ) (to_sink : Bool) (delivery : Delivery) (rest : Exec Wire (List ℕ))
      → (1 ≤ length delivery.chunk → Before n rest)
      → Before n (take_chunk peer lib request to_sink delivery rest)
  unfolding take_chunk
  take_chunk-Before n to_sink delivery rest then_ =
      Meets-if (is_empty delivery.chunk) _ _ (λ _. refuse-Before truncated none)
        λ there.
          Before-bind _ _ (Before-if to_sink _ _ (deliver-Before peer n delivery) (Before-pure tt))
            (λ _. then_ (is_empty-length delivery.chunk there))

  chunks-Before :
      (n fuel : ℕ) (to_sink : Bool) (index : ℕ) (entry : Members) (remaining : ℕ)
      (collected : List ℕ)
      → remaining ≤ fuel
      → Before n (chunks peer lib request fuel to_sink index entry remaining collected)
  unfolding chunks
  chunks-Before n fuel to_sink index entry zero collected h = Before-pure collected
  chunks-Before n zero to_sink index entry (suc more) collected h = absurd (omega arith)
  chunks-Before n (suc fuel) to_sink index entry (suc more) collected h =
      Before-bind (read_exactly peer (min chunk_bytes (suc more))) _
        (Meets-weaken _ (λ _ safe. safe) (λ bytes w (safe, le). Safe-mono _ n w (omega arith) safe)
          (read_exactly-Before peer n _))
        (λ chunk. take_chunk-Before n to_sink _ _ λ some_bytes.
          chunks-Before n fuel to_sink index entry (suc more - length chunk) (collected ++ chunk)
            (omega arith))

  keep_text-Before :
      (n : ℕ) (collected : List ℕ) (tally : Tally) (text : Option Text)
      → Before n (keep_text peer lib request collected tally text)
  keep_text-Before n collected tally none = refuse-Before invalid_utf8 none
  keep_text-Before n collected tally (some text) = Before-pure _

  keep_frame-Before :
      (n : ℕ) (private_meta : Option Members) (index size : ℕ) (entry : Members)
      (collected : List ℕ) (tally : Tally)
      → Before n (keep_frame peer lib request private_meta index size entry collected tally)
  unfolding keep_frame
  keep_frame-Before n none index size entry collected tally = Before-pure _
  keep_frame-Before n (some ms) (suc index) size entry collected tally = Before-pure _
  keep_frame-Before n (some ms) zero size entry collected tally =
      Before-if (is_text (get (codes "sha256") ms) (lib.sha256 collected)) _ _
        (keep_text-Before n collected tally (lib.decode collected))
        (refuse-Before digest_mismatch none)

  or_malformed-Before :
      (n index : ℕ) (next : Option Next) → Before n (or_malformed peer lib request index next)
  or_malformed-Before n index none = refuse-Before malformed_answer (some index)
  or_malformed-Before n index (some next) = Before-pure next

  ack_object-Before :
      (n index : ℕ) (answer : Option Members) → Before n (ack_object peer lib request index answer)
  ack_object-Before n index none = refuse-Before malformed_answer (some index)
  ack_object-Before n index (some ms) =
      Before-if (truthy (get (codes "ok") ms)) _ _
        (or_malformed-Before n index (next_index (get (codes "next_index") ms))) (leave-Before _ tt)

  read_ack-Before :
      (n index : ℕ) (line : List ℕ) (answer : Parsed)
      → Before n (read_ack peer lib request index line answer)
  unfolding read_ack
  read_ack-Before n index [] answer = refuse-Before connection_closed (some index)
  read_ack-Before n index (b ∷ line) malformed = refuse-Before malformed_answer (some index)
  read_ack-Before n index (b ∷ line) (unreadable f) = leave-Before (fault f) tt
  read_ack-Before n index (b ∷ line) (parsed value) = ack_object-Before n index (object_of value)

  module _ (transfer_id : Json) (entries : Items) (private_meta : Option Members) where
    acknowledge-Before :
        (n index size : ℕ) (entry : Members) (tally : Tally) (collected : List ℕ)
        → Before n (
            acknowledge peer lib request transfer_id entries private_meta index size entry tally
              collected)
    unfolding acknowledge
    acknowledge-Before n index size entry tally collected =
        Before-bind _ _ (keep_frame-Before n private_meta index size entry collected tally) λ kept.
          Before-bind _ _ (send-Before peer n _ refl) λ _.
            Before-bind _ _ (readline-Before peer n) λ line.
              Before-bind _ _ (read_ack-Before n index line (lib.loads line))
                λ next. Before-pure (kept, next)

    read_frame-Before :
        (n index size : ℕ) (entry : Members)
        → Before n (read_frame peer lib request transfer_id entries private_meta index size entry)
    unfolding read_frame
    read_frame-Before n index size entry =
        Before-bind _ _ (Before-if _ _ _ (deliver-Before peer n _) (Before-pure tt))
          λ _. chunks-Before n size _ _ entry size [] (omega arith)

    -- With at least one byte less to come.
    abbrev Shorter : ℕ → Wire → Type 0
    Shorter n w = Safe (n - 1) w × (1 ≤ n)

    after_header-Before :
        (n index : ℕ) (tally : Tally) (entry : Members) (advertised : Whole) (header : List ℕ)
        → Meets
            (λ w. Safe (n - length header) w × (length header ≤ n))
            (λ _. Shorter n)
            Ended
            (after_header peer lib request transfer_id entries private_meta index tally entry
              advertised header)
    unfolding after_header
    after_header-Before n index tally entry advertised header =
        let size = big_endian 0 header in
        Meets-if (ltb (length header) frame_header_bytes) _ _
          (λ _. Meets-weaken _ (λ w (safe, le). safe) (λ _ _ h. h) (refuse-Before truncated none))
          λ whole.
            Meets-given _ (λ w (safe, le). le)
              λ le.
                Meets-weaken _ (λ w (safe, le). Safe-mono _ (n - 1) w (ground (arith, whole)) safe)
                  (λ _ w safe. (safe, ground (arith, whole, le)))
                  (Before-if (equals_whole size advertised) _ _
                    (Before-bind _ _ (read_frame-Before (n - 1) index size entry)
                      λ collected. acknowledge-Before (n - 1) index size entry tally collected)
                    (refuse-Before frame_length_mismatch none))

    -- A frame takes its header off the bytes that are left.
    frame-Before :
        (n index : ℕ) (tally : Tally)
        → Meets
            (Safe n)
            (λ _. Shorter n)
            Ended
            (frame peer lib request transfer_id entries private_meta index tally)
    unfolding frame
    frame-Before n index tally = go (frame_entry private_meta entries index)
      where
        go :
            (entry : Option (Members × Whole))
            → Meets
                (Safe n)
                (λ _. Shorter n)
                Ended
                (with_entry peer lib request transfer_id entries private_meta index tally entry)
        go none = refuse-Before malformed_metadata none
        go (some (entry, advertised)) =
            Meets-bind _ _ (read_exactly-Before peer n frame_header_bytes)
              λ header. after_header-Before n index tally entry advertised header

    go_on-Before :
        (n : ℕ) (again : ℕ → Tally → Exec Wire Tally)
        → ((index : ℕ) (tally : Tally) → Before n (again index tally))
        → (round : Tally × Next)
        → Before n (go_on peer lib request transfer_id entries private_meta again round)
    go_on-Before n again each (kept, stop) = Before-pure kept
    go_on-Before n again each (kept, at index) = each index kept
    go_on-Before n again each (kept, negative) = refuse-Before malformed_metadata none

    -- Fuel for one round more than the bytes that are left.
    pub frames-Before :
        (n index : ℕ) (tally : Tally)
        → Before n (frames peer lib request transfer_id entries private_meta (suc n) index tally)
    unfolding frames
    frames-Before zero index tally = Meets-bind _ _ (frame-Before 0 index tally) λ round.
        Meets-given _ (λ w (safe, none_left). none_left)
          λ none_left. absurd (omega (arith, none_left))
    frames-Before (suc n) index tally = Meets-bind _ _ (frame-Before (suc n) index tally) λ round.
        Meets-weaken _ (λ w (safe, _). Safe-mono (suc n - 1) n w (omega arith) safe)
          (λ _ w safe. Safe-mono n (suc n) w (omega arith) safe)
          (go_on-Before n _ (frames-Before n) round)
