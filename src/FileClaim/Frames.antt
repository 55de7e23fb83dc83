-- ===== src/FileClaim/Frames.antt =====
-- drop/file_claim.py: the frames of a claim, each acknowledged before the next.
use hermes_drop.Base.{
  ℕ, suc, zero, ◌+◌, ◌-◌, ◌*◌, min, Bool, true, false, not, ◌&&◌, ◌||◌, Option, none, some, List,
  [], ◌∷◌, ◌++◌, if◌then◌else◌, ◌==◌, contains, option_eq, string_eq, nat_eq, ltb, leb, length, any,
}
use hermes_drop.Base.{Text, text_eq, codes}
use hermes_drop.Base.Exec.{Exec, pure, raise, ◌>>=◌, ◌>>◌}
use hermes_drop.Base.Json.{
  Whole, natural, below, Json, null, integer, string, object, Items, Members, truthy, get, names,
  nth, whole_of, object_of,
}
use hermes_drop.Vault.Substitute.{is_hex}
use hermes_drop.FileClaim.{
  frame_header_bytes, chunk_bytes, transfer_failed, connection_closed, malformed_metadata,
  truncated, frame_length_mismatch, digest_mismatch, invalid_utf8, malformed_answer, File, spoken,
  early, fault, ack_frame, Delivery, Peer, Wire, Parsed, malformed, unreadable, parsed, Library,
  leave, refuse, read_exactly, readline, send, deliver,
}

-- What the caller asks for.
pub record Request : Type 0 where
  pub handoff_id : Text
  pub lease_ms : Option ℕ
  pub has_sink : Bool
  pub keep_bytes : Bool

-- What the loop over the frames has gathered.
pub record Tally : Type 0 where
  pub received : ℕ
  pub digests : List Text
  pub files : List File
  pub private_text : Option Text

-- The next frame that the broker asks for.
pub data Next : Type 0 where
  stop : Next
  at : ℕ → Next
  negative : Next

unfoldable pub big_endian : ℕ → List ℕ → ℕ
big_endian acc [] = acc
big_endian acc (b ∷ bytes) = big_endian (acc * 256 + b) bytes

abbrev pub is_digest : Text → Bool
is_digest s = length s == 64 && not (any (λ c. not (is_hex c)) s)

abbrev pub fits_private : Json → Bool
fits_private (integer (natural n)) = leb n 65536
fits_private _ = false

abbrev pub is_digest_text : Json → Bool
is_digest_text (string s) = is_digest s
is_digest_text _ = false

abbrev pub is_text : Json → Text → Bool
is_text (string s) t = s == t
is_text _ t = false

abbrev pub is_zero : ℕ → Bool
is_zero zero = true
is_zero (suc n) = false

abbrev pub is_empty : List ℕ → Bool
is_empty [] = true
is_empty (b ∷ bytes) = false

abbrev pub next_whole : Option Whole → Option Next
next_whole none = none
next_whole (some (natural n)) = some (at n)
next_whole (some (below n)) = some negative

-- `answered.get("next_index")`: no frame, a frame, or a value that is not an integer.
unfoldable pub next_index : Json → Option Next
unfolding whole_of
next_index null = some stop
next_index value = next_whole (whole_of value)

-- The descriptor of the private text, with exactly a size and a digest.
unfoldable pub is_private_meta : Members → Bool
unfolding names get text_eq
is_private_meta ms =
    let keys = names ms in
    not (any (λ k. not (k == codes "size" || k == codes "sha256")) keys)
    && (contains keys (codes "size")
        && (contains keys (codes "sha256")
            && (fits_private (get (codes "size") ms) && is_digest_text (get (codes "sha256") ms))))

-- `metadata.get("private_text")`: absent, well formed, or refused.
unfoldable pub private_of : Json → Option (Option Members)
unfolding is_private_meta
private_of null = some none
private_of (object ms) = if is_private_meta ms then some (some ms) else none
private_of _ = none

abbrev pub sized : Members → Option Whole → Option (Members × Whole)
sized ms none = none
sized ms (some size) = some (ms, size)

-- An entry that is a mapping with a whole size.
unfoldable pub file_entry : Option Json → Option (Members × Whole)
unfolding get whole_of text_eq
file_entry (some (object ms)) = sized ms (whole_of (get (codes "size") ms))
file_entry _ = none

unfoldable pub equals_whole : ℕ → Whole → Bool
unfolding nat_eq
equals_whole n (natural m) = n == m
equals_whole n (below m) = false

abbrev pub is_private_frame : Option Members → ℕ → Bool
is_private_frame (some ms) zero = true
is_private_frame _ _ = false

abbrev pub file_index : Option Members → ℕ → ℕ
file_index none index = index
file_index (some ms) index = index - 1

-- The entry of a frame: the descriptor for the private one.
unfoldable pub frame_entry : Option Members → Items → ℕ → Option (Members × Whole)
unfolding file_entry nth
frame_entry none entries index = file_entry (nth index entries)
frame_entry (some ms) entries zero = file_entry (some (object ms))
frame_entry (some ms) entries (suc index) = file_entry (nth index entries)

module _ (peer : Peer) (lib : Library) (request : Request) where
  -- Whether the bytes of a frame go to the sink.
  abbrev pub streams : (private_frame : Bool) → Bool
  streams private_frame = request.has_sink && not private_frame

  -- What is done with a chunk before the next is read.
  unfoldable pub take_chunk : (to_sink : Bool) → Delivery → Exec Wire (List ℕ) → Exec Wire (List ℕ)
  unfolding deliver refuse pure ◌>>=◌
  take_chunk to_sink delivery rest =
      if is_empty delivery.chunk
      then refuse transfer_failed truncated none
      else ((if to_sink then deliver peer delivery else pure tt) >> rest)

  -- The loop over the chunks of a frame, with the bytes read so far.
  unfoldable pub chunks :
      (fuel : ℕ) (to_sink : Bool) (index : ℕ) (entry : Members) (remaining : ℕ) (collected : List ℕ)
      → Exec Wire (List ℕ)
  unfolding read_exactly take_chunk raise pure ◌>>=◌ nat_eq
  chunks fuel to_sink index entry zero collected = pure collected
  chunks zero to_sink index entry (suc more) collected = raise
  chunks (suc fuel) to_sink index entry (suc more) collected = do
    chunk ← read_exactly peer (min chunk_bytes (suc more))
    let remaining = suc more - length chunk
    let delivery : Delivery = record {
      index = index;
      entry = entry;
      chunk = chunk;
      done = is_zero remaining;
    }
    take_chunk to_sink delivery (chunks fuel to_sink index entry remaining (collected ++ chunk))

  -- What the bytes of a frame add to the counts, and what they add as a file.
  abbrev pub counted : List ℕ → Tally → Tally
  counted collected tally = record tally {
    received = tally.received + length collected;
    digests = tally.digests ++ (lib.sha256 collected ∷ []);
  }

  abbrev pub file_of : (size : ℕ) → Members → List ℕ → File
  file_of size entry collected = record {
    name = get (codes "name") entry;
    type = get (codes "type") entry;
    size = size;
    sha256 = lib.sha256 collected;
    bytes = if request.keep_bytes then some collected else none;
  }

  abbrev pub keep_text : List ℕ → Tally → Option Text → Exec Wire Tally
  keep_text collected tally none = refuse transfer_failed invalid_utf8 none
  keep_text collected tally (some text) =
      pure (record (counted collected tally) { private_text = some text })

  abbrev pub keep_file : (size : ℕ) → Members → List ℕ → Tally → Exec Wire Tally
  keep_file size entry collected tally = pure (record (counted collected tally) {
    files = tally.files ++ (file_of size entry collected ∷ []);
  })

  -- From a frame's digest to what it adds: the private text, or a file.
  unfoldable pub keep_frame :
      (private_meta : Option Members) (index size : ℕ) (entry : Members) (collected : List ℕ)
      → Tally
      → Exec Wire Tally
  unfolding refuse pure get text_eq
  keep_frame (some ms) zero size entry collected tally =
      if is_text (get (codes "sha256") ms) (lib.sha256 collected)
      then keep_text collected tally (lib.decode collected)
      else refuse transfer_failed digest_mismatch none
  keep_frame (some ms) (suc index) size entry collected tally = keep_file size entry collected tally
  keep_frame none index size entry collected tally = keep_file size entry collected tally

  abbrev pub or_malformed : ℕ → Option Next → Exec Wire Next
  or_malformed index none = refuse transfer_failed malformed_answer (some index)
  or_malformed index (some next) = pure next

  abbrev pub ack_object : ℕ → Option Members → Exec Wire Next
  ack_object index none = refuse transfer_failed malformed_answer (some index)
  ack_object index (some ms) =
      if truthy (get (codes "ok") ms)
      then or_malformed index (next_index (get (codes "next_index") ms))
      else leave (early (spoken ms))

  unfoldable pub read_ack : ℕ → List ℕ → Parsed → Exec Wire Next
  unfolding leave refuse pure next_index truthy get text_eq
  read_ack index [] answer = refuse transfer_failed connection_closed (some index)
  read_ack index (b ∷ line) malformed = refuse transfer_failed malformed_answer (some index)
  read_ack index (b ∷ line) (unreadable f) = leave (fault f)
  read_ack index (b ∷ line) (parsed value) = ack_object index (object_of value)

  module _ (transfer_id : Json) (entries : Items) (private_meta : Option Members) where
    -- From the digest of a frame to the answer to its acknowledgement.
    unfoldable pub acknowledge :
        (index size : ℕ) → Members → Tally → List ℕ → Exec Wire (Tally × Next)
    unfolding keep_frame send readline read_ack pure ◌>>=◌
    acknowledge index size entry tally collected = do
      kept ← keep_frame private_meta index size entry collected tally
      send peer (ack_frame transfer_id index size (lib.sha256 collected))
      line ← readline peer
      next ← read_ack index line (lib.loads line)
      pure (kept, next)

    -- The bytes of a frame whose header agrees with its entry.
    unfoldable pub read_frame : (index size : ℕ) → Members → Exec Wire (List ℕ)
    unfolding chunks deliver pure ◌>>=◌ nat_eq
    read_frame index size entry =
        let to_sink = streams (is_private_frame private_meta index) in
        let place = file_index private_meta index in
        let empty : Delivery = record { index = place; entry = entry; chunk = []; done = true } in
        (if is_zero size && to_sink then deliver peer empty else pure tt)
        >> chunks size to_sink place entry size []

    -- What follows the header.
    unfoldable pub after_header :
        (index : ℕ) → Tally → Members → Whole → List ℕ → Exec Wire (Tally × Next)
    unfolding big_endian equals_whole read_frame acknowledge refuse ◌>>=◌
    after_header index tally entry advertised header =
        let size = big_endian 0 header in
        if ltb (length header) frame_header_bytes
        then refuse transfer_failed truncated none
        else if equals_whole size advertised
        then (read_frame index size entry >>= acknowledge index size entry tally)
        else refuse transfer_failed frame_length_mismatch none

    abbrev pub with_entry :
        (index : ℕ) → Tally → Option (Members × Whole) → Exec Wire (Tally × Next)
    with_entry index tally none = refuse transfer_failed malformed_metadata none
    with_entry index tally (some (entry, advertised)) =
        read_exactly peer frame_header_bytes >>= after_header index tally entry advertised

    -- One round of the loop over the frames.
    unfoldable pub frame : ℕ → Tally → Exec Wire (Tally × Next)
    unfolding frame_entry read_exactly after_header refuse ◌>>=◌
    frame index tally = with_entry index tally (frame_entry private_meta entries index)

    abbrev pub go_on : (again : ℕ → Tally → Exec Wire Tally) → Tally × Next → Exec Wire Tally
    go_on again (kept, stop) = pure kept
    go_on again (kept, at n) = again n kept
    go_on again (kept, negative) = refuse transfer_failed malformed_metadata none

    -- The loop over the frames.
    unfoldable pub frames : (fuel index : ℕ) → Tally → Exec Wire Tally
    unfolding frame refuse raise pure ◌>>=◌
    frames zero index tally = raise
    frames (suc fuel) index tally = frame index tally >>= go_on (frames fuel)
