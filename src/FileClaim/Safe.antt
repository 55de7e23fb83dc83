-- ===== src/FileClaim/Safe.antt =====
-- drop/file_claim.py before the commit: what each read, write and call of the sink leaves behind.
use hermes_drop.Base.{
  ℕ, ◌-◌, ◌≤◌, ◌≡◌, refl, sym, ap, ◌∙◌, Bool, true, false, ◌||◌, Option, none, some, List, [], ◌∷◌,
  ◌++◌, arith, if◌then◌else◌, option_eq, string_eq, nat_eq, ltb, leb, length, any, length-append,
}
use hermes_drop.Base.{text_eq, take, drop}
use hermes_drop.Base.{take-drop}
use hermes_drop.Base.Exec.{Exec, pure, raise, gets, modify, ◌>>=◌, ◌>>◌}
use hermes_drop.Base.Exec.Meets.{
  Meets, Meets-bind, Meets-if, Meets-pure, Meets-weaken, Meets-gets, Meets-modify,
}
use hermes_drop.FileClaim.{
  Fault, os_error, timed_out, value_error, broker_unavailable, transfer_failed,
  transfer_indeterminate, Reason, refused, spoken, claimed, Exit, early, fault, Message,
  commit_file_claim, Delivery, Ending, closed, reset, silent, Peer, Wire, leave, refuse, or_fault,
  set_tape, break_line, at_end, read_exactly, take_line, line_of, max_line_bytes, readline, send,
  deliver,
}

abbrev pub is_commit : Message → Bool
is_commit (commit_file_claim handoff_id transfer_id received_bytes digests) = true
is_commit _ = false

-- The flag says what was written.
abbrev pub Flagged : Wire → Type 0
Flagged w = w.commit_written ≡ any is_commit w.sent

-- What an exit may say, by whether the commit was written.
abbrev pub Fits : Exit → Bool → Type 0
Fits (early (refused transfer_failed reason index)) written = written ≡ false
Fits (early (refused transfer_indeterminate reason index)) written = written ≡ true
Fits (early (refused broker_unavailable reason index)) written = ⊥
Fits (early (spoken ms)) written = Unit
Fits (early (claimed c)) written = ⊥
Fits (fault f) written = Unit

pub record Ended (w : Wire) : Type 0 where
  pub why : Exit
  pub says : w.exit ≡ some why
  pub fits : Fits why w.commit_written
  pub flagged : Flagged w

-- Before the commit, with at most `n` bytes to come.
pub record Safe (n : ℕ) (w : Wire) : Type 0 where
  pub unwritten : w.commit_written ≡ false
  pub unsent : any is_commit w.sent ≡ false
  pub left : length w.tape ≤ n

abbrev pub Before : ℕ → {X : Type 0} → Exec Wire X → Type 0
Before n body = Meets (Safe n) (λ _. Safe n) Ended body

module _ {X Y : Type 0} {n : ℕ} where
  pub Before-bind :
      (body : Exec Wire X) (rest : X → Exec Wire Y)
      → Before n body
      → ((x : X) → Before n (rest x))
      → Before n (body >>= rest)
  Before-bind body rest first then_ = Meets-bind {Mid = λ _. Safe n} body rest first then_

module _ {X : Type 0} {Good : X → Wire → Type 0} {n : ℕ} where
  pub leave-Before : (exit : Exit) → Fits exit false → Meets (Safe n) Good Ended (leave exit)
  unfolding leave modify raise ◌>>=◌
  leave-Before exit fits = record {
    at = λ w safe. record {
      why = exit;
      says = refl;
      fits = rw safe.unwritten fits;
      flagged = safe.unwritten ∙ sym safe.unsent;
    };
  }

  pub refuse-Before :
      (reason : Reason) (index : Option ℕ)
      → Meets (Safe n) Good Ended (refuse transfer_failed reason index)
  unfolding refuse
  refuse-Before reason index = leave-Before _ refl

-- What is safe with fewer bytes to come is safe with more.
pub Safe-mono : (m n : ℕ) (w : Wire) → m ≤ n → Safe m w → Safe n w
Safe-mono m n w h safe = record {
  unwritten = safe.unwritten;
  unsent = safe.unsent;
  left = omega (arith, safe.left, h);
}

module _ {X : Type 0} {n : ℕ} where
  pub Before-pure : (x : X) → Before n (pure x)
  Before-pure x = Meets-pure x (λ _ safe. safe)

  pub Before-gets : (view : Wire → X) → Before n (gets view)
  Before-gets view = Meets-gets view (λ _ safe. safe)

  pub Before-if :
      (test : Bool) (body other : Exec Wire X)
      → Before n body
      → Before n other
      → Before n (if test then body else other)
  Before-if test body other holds fails = Meets-if test body other (λ _. holds) (λ _. fails)

pub or_fault-Before : (n : ℕ) (f : Option Fault) → Before n (or_fault f)
unfolding or_fault
or_fault-Before n none = Before-pure tt
or_fault-Before n (some f) = leave-Before (fault f) tt

pub any-append :
    (p : Message → Bool) (xs ys : List Message) → any p (xs ++ ys) ≡ any p xs || any p ys
unfolding any
any-append p [] ys = refl
any-append p (x ∷ xs) ys = ground (arith, any-append p xs ys)

at_end-Meets :
    {Start : Wire → Type 0} {Good : List ℕ → Wire → Type 0}
    → (n : ℕ) (ends : Ending) (partial : List ℕ) → ((w : Wire) → Start w → Safe n w)
    → ((w : Wire) → Start w → Good partial (record w { tape = [] }))
    → Meets Start Good Ended (at_end ends partial)
unfolding at_end set_tape modify pure ◌>>=◌
at_end-Meets n closed partial start good = record { at = good }
at_end-Meets n reset partial start good =
    Meets-weaken _ start (λ _ _ g. g) (leave-Before (fault os_error) tt)
at_end-Meets n silent partial start good =
    Meets-weaken _ start (λ _ _ g. g) (leave-Before (fault timed_out) tt)

-- A tape cut down to some of its bytes.
cut_tape :
    (m n : ℕ) (w : Wire) (tape : List ℕ)
    → length tape ≤ m
    → Safe n w
    → Safe m (record w { tape = tape })
cut_tape m n w tape h safe = record { unwritten = safe.unwritten; unsent = safe.unsent; left = h }

break_line-shorter :
    (tape rest : List ℕ) → (break_line tape).1 ≡ some rest → length rest ≤ length tape
unfolding break_line
break_line-shorter [] rest h = ground arith
break_line-shorter (b ∷ tape) rest h = ground (arith, break_line-shorter tape rest)

module _ (peer : Peer) where
  pub send-Before :
      (n : ℕ) (message : Message) → is_commit message ≡ false → Before n (send peer message)
  unfolding send any
  send-Before n message plain = Before-bind _ _ (Before-gets _) λ count.
      Before-bind (modify (λ w. record w { sent = w.sent ++ (message ∷ []) })) _
        (Meets-modify _ λ w safe. record {
          unwritten = safe.unwritten;
          unsent = any-append is_commit w.sent (message ∷ []) ∙ rw (safe.unsent, plain) refl;
          left = safe.left;
        })
        λ _. or_fault-Before n (peer.drain count)

  pub deliver-Before : (n : ℕ) (delivery : Delivery) → Before n (deliver peer delivery)
  unfolding deliver
  deliver-Before n delivery = Before-bind _ _ (Before-gets _) λ count.
      Before-bind (modify (λ w. record w { delivered = w.delivered ++ (delivery ∷ []) })) _
        (Meets-modify _
          λ w safe. record { unwritten = safe.unwritten; unsent = safe.unsent; left = safe.left })
        λ _. or_fault-Before n (peer.sink count)

  -- The bytes that a read takes come off those that are left.
  pub read_exactly-Before :
      (n count : ℕ)
      → Meets
          (Safe n)
          (λ bytes w. Safe (n - length bytes) w × (length bytes ≤ n))
          Ended
          (read_exactly peer count)
  unfolding read_exactly set_tape modify pure ◌>>=◌
  read_exactly-Before n count =
      Meets-bind {Mid = λ tape w. Safe n w × (length tape ≤ n)} _ _
        (Meets-gets _ λ w safe. (safe, safe.left))
        λ tape.
          Meets-if (leb count (length tape)) (set_tape (drop count tape) >> pure (take count tape))
            _
            (λ _. record {
              at = λ w (safe, h).
                  let cut = length-append (take count tape) (drop count tape) in
                  let whole = ap length (take-drop count tape) in
                  (
                    cut_tape _ n w _ (omega (arith, cut, whole, h)) safe,
                    omega (arith, cut, whole, h),
                  );
            })
            (λ _.
              at_end-Meets n peer.ends tape (λ w (safe, h). safe)
                (λ w (safe, h). (cut_tape _ n w [] (omega arith) safe, h)))

  take_line-Before :
      (n : ℕ) (line : List ℕ) (rest : Option (List ℕ))
      (h : (r : List ℕ) → rest ≡ some r → length r ≤ n)
      → Before n (take_line peer line rest)
  unfolding take_line set_tape modify pure ◌>>=◌
  take_line-Before n line none h =
      at_end-Meets n peer.ends line (λ w safe. safe)
        (λ w safe. cut_tape n n w [] (omega arith) safe)
  take_line-Before n line (some r) h = record { at = λ w safe. cut_tape n n w r (h r refl) safe }

  line_of-Before : (n : ℕ) (tape : List ℕ) → length tape ≤ n → Before n (line_of peer tape)
  unfolding line_of
  line_of-Before n tape h =
      Before-if (ltb max_line_bytes (length (break_line tape).0)) _ _
        (leave-Before (fault value_error) tt)
        (take_line-Before n (break_line tape).0 (break_line tape).1
          λ r eq. omega (arith, break_line-shorter tape r eq, h))

  pub readline-Before : (n : ℕ) → Before n (readline peer)
  unfolding readline
  readline-Before n =
      Meets-bind {Mid = λ tape w. Safe n w × (length tape ≤ n)} _ _
        (Meets-gets _ λ w safe. (safe, safe.left))
        λ tape. record { at = λ w (safe, h). (line_of-Before n tape h).at w safe }
