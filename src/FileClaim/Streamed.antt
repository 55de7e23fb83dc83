-- ===== src/FileClaim/Streamed.antt =====
-- drop/file_claim.py: the bytes of a frame on their way to the sink.
use hermes_drop.Base.{
  ℕ, suc, zero, ◌+◌, ◌-◌, ◌≤◌, min, ◌≡◌, refl, ap, ◌∙◌, Bool, true, false, none, List, [], ◌∷◌,
  ◌++◌, arith, option_eq, string_eq, nat_eq, length, length-append,
}
use hermes_drop.Base.{text_eq}
use hermes_drop.Base.Exec.{Exec, pure}
use hermes_drop.Base.Exec.Meets.{Meets, Meets-bind, Meets-if, Meets-pure, Meets-weaken, Meets-given}
use hermes_drop.Base.Json.{Members}
use hermes_drop.FileClaim.Frames.{Request, is_zero, is_empty, take_chunk, chunks}
use hermes_drop.FileClaim.Framed.{is_empty-length}
use hermes_drop.FileClaim.{
  chunk_bytes, transfer_failed, truncated, Message, Delivery, Peer, Wire, Library, read_exactly,
  deliver,
}
use hermes_drop.FileClaim.Evidence.{
  call, IsChunk, IsChunked, last, more, Anyhow, refuse-Anyhow, read_exactly-Shown, deliver-Shown,
}
use mathlib.Core.List.{append_assoc}

-- The calls that a frame adds to those that there were, and the bytes that they carry.
pub record Adds (Carries : List ℕ → List Delivery → Type 0) (collected : List ℕ)
    (delivered : List Delivery) (size : ℕ) (sent : List Message) (bytes : List ℕ) (w : Wire)
    : Type 0 where
  pub new : List ℕ
  pub calls : List Delivery
  pub are_bytes : bytes ≡ collected ++ new
  pub are_delivered : w.delivered ≡ delivered ++ calls
  pub are_size : length new ≡ size
  pub same_sent : w.sent ≡ sent
  pub carried : Carries new calls

abbrev pub At : List Message → List Delivery → Wire → Type 0
At sent delivered w = (w.sent ≡ sent) × (w.delivered ≡ delivered)

module _ (peer : Peer) (lib : Library) (request : Request) (index : ℕ) (entry : Members)
    (sent : List Message) where
  abbrev Loop :
      (collected : List ℕ) (delivered : List Delivery) (size : ℕ) → Exec Wire (List ℕ) → Type 0
  Loop collected delivered size body =
      Meets (At sent delivered) (Adds (IsChunked index entry) collected delivered size sent) Anyhow
        body

  abbrev Again : (fuel : ℕ) → Type 0
  Again fuel =
      (left : ℕ) (collected : List ℕ) (delivered : List Delivery)
      → Loop collected delivered (suc left)
          (chunks peer lib request fuel true index entry (suc left) collected)

  -- The last chunk, or one before the rest.
  chunk_then :
      (fuel more_bytes : ℕ) (collected chunk : List ℕ) (delivered : List Delivery)
      → Again fuel
      → IsChunk chunk
      → length chunk ≤ suc more_bytes
      → (left : ℕ) → suc more_bytes - length chunk ≡ left
      → Meets
          (At sent (delivered ++ (call index entry chunk (is_zero left) ∷ [])))
          (Adds (IsChunked index entry) collected delivered (suc more_bytes) sent)
          Anyhow
          (chunks peer lib request fuel true index entry left (collected ++ chunk))
  unfolding chunks
  chunk_then fuel more_bytes collected chunk delivered ih is_chunk le zero left_is =
      Meets-pure (collected ++ chunk) λ w (same, now). record {
        new = chunk;
        calls = call index entry chunk true ∷ [];
        are_bytes = refl;
        are_delivered = now;
        are_size = omega (arith, left_is, le);
        same_sent = same;
        carried = last chunk is_chunk;
      }
  chunk_then fuel more_bytes collected chunk delivered ih is_chunk le (suc left) left_is =
      Meets-weaken _ (λ _ start. start)
        (λ bytes w added. record {
          new = chunk ++ added.new;
          calls = call index entry chunk false ∷ added.calls;
          are_bytes = added.are_bytes ∙ append_assoc collected chunk added.new;
          are_delivered = added.are_delivered ∙ append_assoc delivered _ added.calls;
          are_size =
              length-append chunk added.new
              ∙ omega (arith, added.are_size, left_is, le, is_chunk.0);
          same_sent = added.same_sent;
          carried = more chunk added.new added.calls is_chunk added.carried;
        })
        (ih left (collected ++ chunk) (delivered ++ (call index entry chunk false ∷ [])))

  take_chunk-Loop :
      (fuel left : ℕ) (collected chunk : List ℕ) (delivered : List Delivery)
      → Again fuel
      → length chunk ≤ min chunk_bytes (suc left)
      → Loop collected delivered (suc left) (
          take_chunk peer lib request true
            (call index entry chunk (is_zero (suc left - length chunk)))
            (chunks peer lib request fuel true index entry
              (suc left - length chunk)
              (collected ++ chunk)))
  unfolding take_chunk
  take_chunk-Loop fuel left collected chunk delivered ih le =
      Meets-if (is_empty chunk) _ _ (λ _. refuse-Anyhow transfer_failed truncated none)
        λ there.
          let now = call index entry chunk (is_zero (suc left - length chunk)) in
          Meets-bind {Mid = λ _. At sent (delivered ++ (now ∷ []))} (deliver peer now) _
            (Meets-weaken _ (λ w (same, at_). (same, ap (λ d. d ++ (now ∷ [])) at_)) (λ _ _ h. h)
              (deliver-Shown (λ s d. (s ≡ sent) × (d ≡ delivered ++ (now ∷ []))) peer now))
            λ _.
              chunk_then fuel left collected chunk delivered ih
                (is_empty-length chunk there, omega (arith, le)) (omega (arith, le)) _ refl

  pub chunks-Loop :
      (fuel left : ℕ) (collected : List ℕ) (delivered : List Delivery)
      → Loop collected delivered
          (suc left)
          (chunks peer lib request fuel true index entry (suc left) collected)
  unfolding chunks
  chunks-Loop zero left collected delivered = record { at = λ w start. tt }
  chunks-Loop (suc fuel) left collected delivered =
      Meets-bind
        {Mid = λ chunk w. At sent delivered w × (length chunk ≤ min chunk_bytes (suc left))}
        (read_exactly peer (min chunk_bytes (suc left))) _
        (read_exactly-Shown (λ s d. (s ≡ sent) × (d ≡ delivered)) peer (min chunk_bytes (suc left)))
        λ chunk.
          Meets-given _ (λ w (_, le). le)
            λ le.
              Meets-weaken _ (λ w (start, _). start) (λ _ _ added. added)
                (take_chunk-Loop fuel left collected chunk delivered (chunks-Loop fuel) le)

  take_chunk-Quiet :
      (chunk : List ℕ) (done : Bool) (delivered : List Delivery) (size : ℕ)
      (rest : Exec Wire (List ℕ))
      → Meets
          (At sent delivered)
          (λ bytes w. At sent delivered w × (length bytes ≡ size))
          Anyhow
          rest
      → Meets
          (At sent delivered)
          (λ bytes w. At sent delivered w × (length bytes ≡ size))
          Anyhow
          (take_chunk peer lib request false (call index entry chunk done) rest)
  unfolding take_chunk
  take_chunk-Quiet chunk done delivered size rest then_ =
      Meets-if (is_empty chunk) _ _ (λ _. refuse-Anyhow transfer_failed truncated none)
        λ there.
          Meets-bind {Mid = λ _. At sent delivered} (pure tt) _ (Meets-pure tt (λ _ at_. at_))
            (λ _. then_)

  pub chunks-Quiet :
      (fuel left : ℕ) (collected : List ℕ) (delivered : List Delivery)
      → Meets
          (At sent delivered)
          (λ bytes w. At sent delivered w × (length bytes ≡ length collected + left))
          Anyhow
          (chunks peer lib request fuel false index entry left collected)
  unfolding chunks
  chunks-Quiet fuel zero collected delivered = Meets-pure collected (λ w at_. (at_, omega arith))
  chunks-Quiet zero (suc left) collected delivered = record { at = λ w start. tt }
  chunks-Quiet (suc fuel) (suc left) collected delivered =
      Meets-bind
        {Mid = λ chunk w. At sent delivered w × (length chunk ≤ min chunk_bytes (suc left))}
        (read_exactly peer (min chunk_bytes (suc left))) _
        (read_exactly-Shown (λ s d. (s ≡ sent) × (d ≡ delivered)) peer (min chunk_bytes (suc left)))
        λ chunk.
          Meets-given _ (λ w (_, le). le)
            λ le.
              Meets-weaken _ (λ w (start, _). start)
                (λ bytes w (at_, size).
                  (at_, omega (arith, size, le, length-append collected chunk)))
                (take_chunk-Quiet chunk (is_zero (suc left - length chunk)) delivered _ _
                  (chunks-Quiet fuel (suc left - length chunk) (collected ++ chunk) delivered))
