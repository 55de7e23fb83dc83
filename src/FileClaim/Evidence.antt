-- ===== src/FileClaim/Evidence.antt =====
-- drop/file_claim.py: what the sink is handed, and what the acknowledgements say of it.
use hermes_drop.Base.{
  ℕ, ◌+◌, ◌≤◌, ◌≡◌, Bool, true, false, Option, none, some, List, [], ◌∷◌, ◌++◌, arith, option_eq,
  string_eq, nat_eq, ltb, leb, length,
}
use hermes_drop.Base.{Text, text_eq, take, drop}
use hermes_drop.Base.{length-take-le}
use hermes_drop.Base.Exec.{pure, raise, gets, modify, ◌>>=◌, ◌>>◌}
use hermes_drop.Base.Exec.Meets.{
  Meets, Meets-bind, Meets-if, Meets-pure, Meets-weaken, Meets-gets, Meets-modify,
}
use hermes_drop.Base.Json.{Members}
use hermes_drop.FileClaim.{
  chunk_bytes, Fault, os_error, timed_out, value_error, Code, Reason, File, Exit, fault, Message,
  begin_file_claim, ack_frame, commit_file_claim, Delivery, Ending, closed, reset, silent, Peer,
  Wire, leave, refuse, or_fault, set_tape, break_line, at_end, read_exactly, take_line, line_of,
  max_line_bytes, readline, send, deliver,
}

-- The digests and the sizes of the acknowledgements among what was written.
unfoldable pub digests_of : List Message → List Text
digests_of [] = []
digests_of (ack_frame transfer_id index size sha256 ∷ sent) = sha256 ∷ digests_of sent
digests_of (begin_file_claim handoff_id lease_ms ∷ sent) = digests_of sent
digests_of (commit_file_claim handoff_id transfer_id received digests ∷ sent) = digests_of sent

unfoldable pub sizes_of : List Message → ℕ
sizes_of [] = 0
sizes_of (ack_frame transfer_id index size sha256 ∷ sent) = size + sizes_of sent
sizes_of (begin_file_claim handoff_id lease_ms ∷ sent) = sizes_of sent
sizes_of (commit_file_claim handoff_id transfer_id received digests ∷ sent) = sizes_of sent

abbrev pub call : ℕ → Members → List ℕ → Bool → Delivery
call index entry chunk done = record { index = index; entry = entry; chunk = chunk; done = done }

abbrev pub IsChunk : List ℕ → Type 0
IsChunk chunk = (1 ≤ length chunk) × (length chunk ≤ chunk_bytes)

-- The calls of the sink for the bytes of one file: bounded chunks in order, of which the last says
-- that it is.
pub data IsChunked (index : ℕ) (entry : Members) : List ℕ → List Delivery → Type 0 where
  last :
      (chunk : List ℕ)
      → IsChunk chunk
      → IsChunked index entry chunk (call index entry chunk true ∷ [])
  more :
      (chunk bytes : List ℕ) (calls : List Delivery)
      → IsChunk chunk
      → IsChunked index entry bytes calls
      → IsChunked index entry (chunk ++ bytes) (call index entry chunk false ∷ calls)

-- An empty file is one call.
pub data IsStreamed (index : ℕ) (entry : Members) : List ℕ → List Delivery → Type 0 where
  empty : IsStreamed index entry [] (call index entry [] true ∷ [])
  chunked :
      (bytes : List ℕ) (calls : List Delivery)
      → IsChunked index entry bytes calls
      → IsStreamed index entry bytes calls

-- A file of the result, from the bytes that the sink was handed for it.
pub record IsFileOf (sha256 : List ℕ → Text) (f : File) (calls : List Delivery) : Type 0 where
  pub content : List ℕ
  pub index : ℕ
  pub entry : Members
  pub streamed : IsStreamed index entry content calls
  pub digest : f.sha256 ≡ sha256 content
  pub size_is : f.size ≡ length content

-- The files of a result, from the calls of the sink in the order in which they came.
pub data Received (sha256 : List ℕ → Text) : List File → List Delivery → Type 0 where
  nothing : Received sha256 [] []
  one_more :
      (files : List File) (earlier : List Delivery) (f : File) (calls : List Delivery)
      → Received sha256 files earlier
      → IsFileOf sha256 f calls
      → Received sha256 (files ++ (f ∷ [])) (earlier ++ calls)

-- A condition on what was written and what was handed on.
abbrev pub Shown : (List Message → List Delivery → Type 0) → Wire → Type 0
Shown Q w = Q w.sent w.delivered

abbrev pub Anyhow : Wire → Type 0
Anyhow w = Unit {0}

module _ {X : Type 0} {Start : Wire → Type 0} {Good : X → Wire → Type 0} where
  pub leave-Anyhow : (exit : Exit) → Meets Start Good Anyhow (leave exit)
  unfolding leave modify raise ◌>>=◌
  leave-Anyhow exit = record { at = λ w start. tt }

  pub refuse-Anyhow :
      (code : Code) (reason : Reason) (index : Option ℕ)
      → Meets Start Good Anyhow (refuse code reason index)
  unfolding refuse
  refuse-Anyhow code reason index = leave-Anyhow _

module _ (Q : List Message → List Delivery → Type 0) where
  pub or_fault-Shown : (f : Option Fault) → Meets (Shown Q) (λ _. Shown Q) Anyhow (or_fault f)
  unfolding or_fault
  or_fault-Shown none = Meets-pure tt (λ _ q. q)
  or_fault-Shown (some f) = leave-Anyhow (fault f)

  at_end-Shown :
      (ends : Ending) (partial : List ℕ)
      → Meets
          (Shown Q)
          (λ bytes w. Shown Q w × (length bytes ≤ length partial))
          Anyhow
          (at_end ends partial)
  unfolding at_end set_tape modify pure ◌>>=◌
  at_end-Shown closed partial = record { at = λ w q. (q, omega arith) }
  at_end-Shown reset partial = leave-Anyhow (fault os_error)
  at_end-Shown silent partial = leave-Anyhow (fault timed_out)

  module _ (peer : Peer) where
    pub read_exactly-Shown :
        (count : ℕ)
        → Meets
            (Shown Q)
            (λ bytes w. Shown Q w × (length bytes ≤ count))
            Anyhow
            (read_exactly peer count)
    unfolding read_exactly set_tape modify pure ◌>>=◌
    read_exactly-Shown count =
        Meets-bind {Mid = λ _. Shown Q} (gets (λ w. w.tape)) _ (Meets-gets _ λ _ q. q) λ tape.
          Meets-if (leb count (length tape)) (set_tape (drop count tape) >> pure (take count tape))
            _ (λ _. record { at = λ w q. (q, length-take-le count tape) })
            (λ short.
              Meets-weaken _ (λ _ q. q) (λ bytes w (q, le). (q, ground (arith, short, le)))
                (at_end-Shown peer.ends tape))

    take_line-Shown :
        (line : List ℕ) (rest : Option (List ℕ))
        → Meets (Shown Q) (λ _. Shown Q) Anyhow (take_line peer line rest)
    unfolding take_line set_tape modify pure ◌>>=◌
    take_line-Shown line none =
        Meets-weaken _ (λ _ q. q) (λ bytes w (q, _). q) (at_end-Shown peer.ends line)
    take_line-Shown line (some rest) = record { at = λ w q. q }

    pub readline-Shown : Meets (Shown Q) (λ _. Shown Q) Anyhow (readline peer)
    unfolding readline line_of
    readline-Shown =
        Meets-bind {Mid = λ _. Shown Q} (gets (λ w. w.tape)) _ (Meets-gets _ λ _ q. q) λ tape.
          Meets-if (ltb max_line_bytes (length (break_line tape).0)) _ _
            (λ _. leave-Anyhow (fault value_error))
            (λ _. take_line-Shown (break_line tape).0 (break_line tape).1)

    pub send-Shown :
        (message : Message)
        → Meets
            (λ w. Q (w.sent ++ (message ∷ [])) w.delivered)
            (λ _. Shown Q)
            Anyhow
            (send peer message)
    unfolding send
    send-Shown message =
        Meets-bind {Mid = λ _ w. Q (w.sent ++ (message ∷ [])) w.delivered}
          (gets (λ w. length w.sent)) _ (Meets-gets _ λ _ q. q)
          λ count.
            Meets-bind {Mid = λ _. Shown Q}
              (modify (λ w. record w { sent = w.sent ++ (message ∷ []) })) _
              (Meets-modify _ λ w q. q) λ _. or_fault-Shown (peer.drain count)

    pub deliver-Shown :
        (delivery : Delivery)
        → Meets
            (λ w. Q w.sent (w.delivered ++ (delivery ∷ [])))
            (λ _. Shown Q)
            Anyhow
            (deliver peer delivery)
    unfolding deliver
    deliver-Shown delivery =
        Meets-bind {Mid = λ _ w. Q w.sent (w.delivered ++ (delivery ∷ []))}
          (gets (λ w. length w.delivered)) _ (Meets-gets _ λ _ q. q)
          λ count.
            Meets-bind {Mid = λ _. Shown Q}
              (modify (λ w. record w { delivered = w.delivered ++ (delivery ∷ []) })) _
              (Meets-modify _ λ w q. q) λ _. or_fault-Shown (peer.sink count)
