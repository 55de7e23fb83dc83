-- ===== src/FileClaim/Kept.antt =====
-- drop/file_claim.py: what a frame adds to what the claim has gathered.
use hermes_drop.Base.{
  ℕ, suc, zero, ◌+◌, ◌≡◌, refl, sym, ap, ◌∙◌, ◌≢◌, Bool, true, false, not, ◌&&◌, Option, none, some,
  List, [], ◌∷◌, ◌++◌, arith, if◌then◌else◌, option_eq, string_eq, nat_eq, length,
}
use hermes_drop.Base.{Text, text_eq, codes}
use hermes_drop.Base.Exec.{pure, ◌>>◌}
use hermes_drop.Base.Exec.Meets.{Meets, Meets-bind, Meets-if, Meets-pure, Meets-weaken}
use hermes_drop.Base.Json.{Json, Items, Members, get}
use hermes_drop.FileClaim.Frames.{
  Request, Tally, is_private_frame, file_index, is_text, is_zero, counted, file_of, keep_text,
  keep_file, chunks, keep_frame, read_frame,
}
use hermes_drop.FileClaim.{
  transfer_failed, digest_mismatch, invalid_utf8, File, Message, begin_file_claim, ack_frame,
  commit_file_claim, Delivery, Peer, Wire, Library, deliver,
}
use hermes_drop.FileClaim.Evidence.{
  digests_of, sizes_of, call, IsStreamed, empty, chunked, Received, one_more, Anyhow, refuse-Anyhow,
  deliver-Shown,
}
use mathlib.Core.List.{append-nil}
use hermes_drop.FileClaim.Streamed.{At, chunks-Loop, chunks-Quiet}

pub digests_of-append :
    (xs ys : List Message) → digests_of (xs ++ ys) ≡ digests_of xs ++ digests_of ys
unfolding digests_of
digests_of-append [] ys = refl
digests_of-append (ack_frame t i n sha256 ∷ xs) ys =
    ap (λ zs. sha256 ∷ zs) (digests_of-append xs ys)
digests_of-append (begin_file_claim h l ∷ xs) ys = digests_of-append xs ys
digests_of-append (commit_file_claim h t r ds ∷ xs) ys = digests_of-append xs ys

pub sizes_of-append : (xs ys : List Message) → sizes_of (xs ++ ys) ≡ sizes_of xs + sizes_of ys
unfolding sizes_of
sizes_of-append [] ys = omega arith
sizes_of-append (ack_frame t i n sha256 ∷ xs) ys = omega (arith, sizes_of-append xs ys)
sizes_of-append (begin_file_claim h l ∷ xs) ys = sizes_of-append xs ys
sizes_of-append (commit_file_claim h t r ds ∷ xs) ys = sizes_of-append xs ys

and_false : (b : Bool) → b && false ≢ true
and_false true h = absurd (ground arith)
and_false false h = absurd (ground arith)

-- What the loop has gathered is what was handed on and acknowledged.
pub record Evident (sha256 : List ℕ → Text) (tally : Tally) (w : Wire) : Type 0 where
  pub files : Received sha256 tally.files w.delivered
  pub digests : digests_of w.sent ≡ tally.digests
  pub sizes : sizes_of w.sent ≡ tally.received

-- With a frame that is not acknowledged yet, of these bytes.
pub record Pending (sha256 : List ℕ → Text) (tally : Tally) (bytes : List ℕ) (w : Wire)
    : Type 0 where
  pub files : Received sha256 tally.files w.delivered
  pub digests : digests_of w.sent ++ (sha256 bytes ∷ []) ≡ tally.digests
  pub sizes : sizes_of w.sent + length bytes ≡ tally.received

module _ (peer : Peer) (lib : Library) (request : Request) (streaming : request.has_sink ≡ true)
    (transfer_id : Json) (entries : Items) (private_meta : Option Members) where
  -- The bytes of a frame, with its calls unless it is the private one.
  pub record Framed (private_frame : Bool) (index size : ℕ) (entry : Members) (tally : Tally)
      (bytes : List ℕ) (w : Wire) : Type 0 where
    pub earlier : List Delivery
    pub calls : List Delivery
    pub files : Received lib.sha256 tally.files earlier
    pub now : w.delivered ≡ earlier ++ calls
    pub streamed :
        (private_frame ≡ true → calls ≡ [])
        × (private_frame ≡ false → IsStreamed index entry bytes calls)
    pub are_size : length bytes ≡ size
    pub digests : digests_of w.sent ≡ tally.digests
    pub sizes : sizes_of w.sent ≡ tally.received

  pub read_frame-Framed :
      (index size : ℕ) (entry : Members) (tally : Tally)
      → Meets
          (Evident lib.sha256 tally)
          (Framed
            (is_private_frame private_meta index)
            (file_index private_meta index)
            size
            entry
            tally)
          Anyhow
          (read_frame peer lib request transfer_id entries private_meta index size entry)
  unfolding read_frame chunks
  read_frame-Framed index size entry tally = record {
    at = λ w evident.
        (go w evident (is_private_frame private_meta index) _ size (rw streaming refl)).at w
          (refl, refl);
  }
    where
      place : ℕ
      place = file_index private_meta index

      go :
          (w₀ : Wire)
          → Evident lib.sha256 tally w₀
          → (private_frame to_sink : Bool) (size : ℕ) → to_sink ≡ not private_frame
          → Meets (At w₀.sent w₀.delivered) (Framed private_frame place size entry tally) Anyhow (
              (if is_zero size && to_sink then deliver peer (call place entry [] true) else pure tt)
              >> chunks peer lib request size to_sink place entry size [])
      go w₀ evident true true size h = absurd (ground arith)
      go w₀ evident false false size h = absurd (ground arith)
      go w₀ evident true false size h =
          Meets-bind {Mid = λ _. At w₀.sent w₀.delivered} _ _
            (Meets-if (is_zero size && false) _ _ (λ p. absurd (and_false (is_zero size) p))
              (λ _. Meets-pure tt (λ _ at_. at_)))
            λ _.
              Meets-weaken _ (λ _ h. h)
                (λ bytes w ((sent, now), size_is). record {
                  earlier = w₀.delivered;
                  calls = [];
                  files = evident.files;
                  now = now ∙ sym (append-nil w₀.delivered);
                  streamed = ((λ _. refl), λ p. absurd (ground arith));
                  are_size = omega (arith, size_is);
                  digests = ap digests_of sent ∙ evident.digests;
                  sizes = ap sizes_of sent ∙ evident.sizes;
                })
                (chunks-Quiet peer lib request place entry w₀.sent size size [] w₀.delivered)
      go w₀ evident false true zero h =
          let empty_call = call place entry [] true in
          Meets-bind {Mid = λ _. At w₀.sent (w₀.delivered ++ (empty_call ∷ []))} _ _
            (Meets-weaken _ (λ w (same, at_). (same, ap (λ d. d ++ (empty_call ∷ [])) at_))
              (λ _ _ h. h)
              (deliver-Shown (λ s d. (s ≡ w₀.sent) × (d ≡ w₀.delivered ++ (empty_call ∷ []))) peer
                empty_call))
            λ _.
              Meets-weaken
                {Good₁ = λ bytes w. At w₀.sent (w₀.delivered ++ (empty_call ∷ [])) w × (bytes ≡ [])}
                _ (λ _ h. h)
                (λ bytes w ((sent, now), none_read). record {
                  earlier = w₀.delivered;
                  calls = empty_call ∷ [];
                  files = evident.files;
                  now = now;
                  streamed = ((λ p. absurd (ground arith)), λ _. rw none_read empty);
                  are_size = rw none_read refl;
                  digests = ap digests_of sent ∙ evident.digests;
                  sizes = ap sizes_of sent ∙ evident.sizes;
                })
                (Meets-pure [] (λ w at_. (at_, refl)))
      go w₀ evident false true (suc size) h =
          Meets-bind {Mid = λ _. At w₀.sent w₀.delivered} (pure tt) _ (Meets-pure tt (λ _ at_. at_))
            λ _.
              Meets-weaken _ (λ _ h. h)
                (λ bytes w added. record {
                  earlier = w₀.delivered;
                  calls = added.calls;
                  files = evident.files;
                  now = added.are_delivered;
                  streamed = (
                    (λ p. absurd (ground arith)),
                    λ _. rw added.are_bytes (chunked added.new added.calls added.carried),
                  );
                  are_size = ap length added.are_bytes ∙ added.are_size;
                  digests = ap digests_of added.same_sent ∙ evident.digests;
                  sizes = ap sizes_of added.same_sent ∙ evident.sizes;
                })
                (chunks-Loop peer lib request place entry w₀.sent (suc size) size [] w₀.delivered)

  counted-Pending :
      (index size : ℕ) (entry : Members) (tally : Tally) (private_frame : Bool) (collected : List ℕ)
      (w : Wire) (files : List File) (text : Option Text)
      → Framed private_frame index size entry tally collected w
      → Received lib.sha256 files w.delivered
      → Pending lib.sha256
          (record (counted peer lib request collected tally) { files = files; private_text = text })
          collected
          w
  counted-Pending index size entry tally private_frame collected w files text framed received =
      record {
        files = received;
        digests = ap (λ ds. ds ++ (lib.sha256 collected ∷ [])) framed.digests;
        sizes = omega (arith, framed.sizes);
      }

  keep_file-Pending :
      (index size : ℕ) (entry : Members) (collected : List ℕ) (tally : Tally)
      → Meets
          (Framed false index size entry tally collected)
          (λ kept. Pending lib.sha256 kept collected)
          Anyhow
          (keep_file peer lib request size entry collected tally)
  keep_file-Pending index size entry collected tally = Meets-pure _ λ w framed.
      let f = file_of peer lib request size entry collected in
      counted-Pending index size entry tally false collected w (tally.files ++ (f ∷ []))
        tally.private_text framed
        (rw framed.now (
          one_more tally.files framed.earlier f framed.calls framed.files (record {
            content = collected;
            index = index;
            entry = entry;
            streamed = framed.streamed.1 refl;
            digest = refl;
            size_is = sym framed.are_size;
          })))

  keep_text-Pending :
      (index size : ℕ) (entry : Members) (collected : List ℕ) (tally : Tally) (text : Option Text)
      → Meets
          (Framed true index size entry tally collected)
          (λ kept. Pending lib.sha256 kept collected)
          Anyhow
          (keep_text peer lib request collected tally text)
  keep_text-Pending index size entry collected tally none =
      refuse-Anyhow transfer_failed invalid_utf8 none
  keep_text-Pending index size entry collected tally (some text) = Meets-pure _ λ w framed.
      counted-Pending index size entry tally true collected w tally.files (some text) framed
        (rw (framed.now, framed.streamed.0 refl, append-nil framed.earlier) framed.files)

  pub keep_frame-Pending :
      (pm : Option Members) (index size : ℕ) (entry : Members) (collected : List ℕ) (tally : Tally)
      → Meets
          (Framed (is_private_frame pm index) (file_index pm index) size entry tally collected)
          (λ kept. Pending lib.sha256 kept collected)
          Anyhow
          (keep_frame peer lib request pm index size entry collected tally)
  unfolding keep_frame
  keep_frame-Pending none zero size entry collected tally =
      keep_file-Pending 0 size entry collected tally
  keep_frame-Pending none (suc index) size entry collected tally =
      keep_file-Pending (suc index) size entry collected tally
  keep_frame-Pending (some ms) (suc index) size entry collected tally =
      keep_file-Pending _ size entry collected tally
  keep_frame-Pending (some ms) zero size entry collected tally =
      Meets-if (is_text (get (codes "sha256") ms) (lib.sha256 collected)) _ _
        (λ _. keep_text-Pending _ size entry collected tally (lib.decode collected))
        (λ _. refuse-Anyhow transfer_failed digest_mismatch none)
  -- Any answer to an acknowledgement leaves what is evident.
