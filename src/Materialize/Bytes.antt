-- ===== src/Materialize/Bytes.antt =====
-- What a verdict on a file claim says about the bytes.
use hermes_drop.Base.{
  ℕ, ◌≡◌, refl, ◌≢◌, ◌⊎◌, Bool, true, false, ◌&&◌, Option, none, some, List, [], ◌∷◌, arith,
  option_eq, string_eq, nat_eq, length,
}
use hermes_drop.Base.{text_eq}
use hermes_drop.Base.Dict
use hermes_drop.Base.Dict.{Dict}
use hermes_drop.Journal.Entry.{Caller}
use hermes_drop.Materialize.{
  Code, Refusal, refusal, policy, Journalled, authorize, Place, nowhere, staged, held, deleted,
  published, quarantine, discard, hold, hold_on_cancel, cross_check, agrees, all_agree, Report,
  no_file, file, Staged, opened, Received, receiver_cancelled, staging_failed, receiver_raised,
  receiver_refused, receiver_committed, Observed, delivered, refused, refused_by_receiver, publish,
  receive, leave, materialize_file_claim, from_authorization,
}

refused_by_receiver-staged :
    (o : Observed) (code : Option Code) (r : Refusal)
    → (refused_by_receiver o code).0 ≡ refused r
    → r.retry_safe ≡ true
    → (refused_by_receiver o code).1 ≡ staged
unfolding refused_by_receiver refusal policy
refused_by_receiver-staged o none r h safe = refl
refused_by_receiver-staged o (some code) r h safe = ground arith

publish-staged :
    (o : Observed) (files : Option (List Report)) (r : Refusal)
    → (publish o files).0 ≡ refused r
    → r.retry_safe ≡ false
unfolding publish refusal policy
publish-staged o files r h = ground arith

receive-staged :
    (o : Observed) (r : Refusal)
    → (receive o).0 ≡ refused r
    → r.retry_safe ≡ true
    → (receive o).1 ≡ staged
unfolding receive refusal policy
receive-staged o r h safe = ground (arith, refused_by_receiver-staged o, publish-staged o)

-- A refusal that says a retry is safe neither holds nor publishes any received bytes: none were
-- staged, or they were deleted, or they are left in staging because their removal failed.
pub materialize_file_claim-retry_safe :
    (j : Journalled) (c : Caller) (o : Observed) (r : Refusal)
    → (materialize_file_claim j c o).0 ≡ refused r
    → r.retry_safe ≡ true
    → ((materialize_file_claim j c o).1 ≡ nowhere)
      ⊎ (((materialize_file_claim j c o).1 ≡ deleted)
          ⊎ (((materialize_file_claim j c o).1 ≡ staged) × (o.removal_works ≡ false)))
unfolding materialize_file_claim leave discard refusal policy
materialize_file_claim-retry_safe j c o r h safe = ground (arith, receive-staged o r)

policy-exclusive : (code : Code) → (policy code).0 && (policy code).1 ≡ false
unfolding policy
policy-exclusive code = ground arith

-- No refusal says both that a retry is safe and that the drop is spent.
materialize_file_claim-exclusive :
    (j : Journalled) (c : Caller) (o : Observed) (r : Refusal)
    → (materialize_file_claim j c o).0 ≡ refused r
    → r.retry_safe && r.mark_spent ≡ false
unfolding materialize_file_claim leave receive refused_by_receiver publish refusal authorize
    from_authorization
materialize_file_claim-exclusive j c o r h = ground (arith, policy-exclusive r.error)

receive-delivered :
    (o : Observed) (received : Received)
    → o.received ≡ received
    → (receive o).0 ≡ delivered
    → (files : Option (List Report)) × (o.received ≡ receiver_committed files)
      × (cross_check files o.arrival o.entries ≡ true)
unfolding receive publish refused_by_receiver
receive-delivered o (receiver_committed files) e h = (files, e, ground arith)
receive-delivered o (receiver_refused code) e h = absurd (refuses code (ground arith))
  where
    refuses : (code : Option Code) → (refused_by_receiver o code).0 ≢ delivered
    refuses none p = ground arith
    refuses (some code) p = ground arith
receive-delivered o receiver_cancelled e h = absurd (ground arith)
receive-delivered o staging_failed e h = absurd (ground arith)
receive-delivered o receiver_raised e h = absurd (ground arith)

receive-published : (o : Observed) → (receive o).0 ≡ delivered → (receive o).1 ≡ published
unfolding receive publish refused_by_receiver
receive-published o h = ground arith

-- Each report has the size and the digest of what was staged under the index at its position.
pub data Matches (entries : Dict ℕ Staged) : List Report → List ℕ → Type 0 where
  all_matched : (arrival : List ℕ) → Matches entries [] arrival
  one_more :
      (index : ℕ) (mine : Staged) (reports : List Report) (arrival : List ℕ)
      → Dict.lookup index entries ≡ some mine
      → Matches entries reports arrival
      → Matches entries (file (some mine.size) (some mine.sha256) ∷ reports) (index ∷ arrival)

agrees-file :
    (theirs : Report) (mine : Option Staged)
    → agrees theirs mine ≡ true
    → (m : Staged) × (mine ≡ some m) × (theirs ≡ file (some m.size) (some m.sha256))
unfolding agrees
agrees-file (file size sha256) (some mine) h = (mine, refl, ground arith)
agrees-file (file size sha256) none h = absurd (ground arith)
agrees-file no_file mine h = absurd (ground arith)

all_agree-Matches :
    (reports : List Report) (arrival : List ℕ) (entries : Dict ℕ Staged)
    → all_agree reports arrival entries ≡ true
    → Matches entries reports arrival
unfolding all_agree
all_agree-Matches [] arrival entries h = all_matched arrival
all_agree-Matches (theirs ∷ reports) [] entries h = absurd (ground arith)
all_agree-Matches (theirs ∷ reports) (index ∷ arrival) entries h =
    let (mine, found, same) = agrees-file theirs (Dict.lookup index entries) (ground arith) in
    rw same (
      one_more index mine reports arrival found
        (all_agree-Matches reports arrival entries (ground arith)))

-- What `_cross_check` makes sure of.
pub data Checked (o : Observed) : Option (List Report) → Type 0 where
  checked :
      (reports : List Report)
      → length reports ≡ length o.entries
      → length o.arrival ≡ length o.entries
      → Matches o.entries reports o.arrival
      → Checked o (some reports)

cross_check-Checked :
    (o : Observed) (files : Option (List Report))
    → cross_check files o.arrival o.entries ≡ true
    → Checked o files
unfolding cross_check
cross_check-Checked o none h = absurd (ground arith)
cross_check-Checked o (some reports) h =
    checked reports (ground arith) (ground arith)
      (all_agree-Matches reports o.arrival o.entries (ground arith))

-- Files are delivered only to a caller whom the journal grants the drop, from a published claim, and
-- only where the receiver committed as many files as were staged and arrived, each of the size and
-- the digest that the spool has under the index at its position in the order of arrival.
pub materialize_file_claim-delivered :
    (j : Journalled) (c : Caller) (o : Observed)
    → (materialize_file_claim j c o).0 ≡ delivered
    → (authorize j c ≡ none)
      × ((materialize_file_claim j c o).1 ≡ published)
      × ((files : Option (List Report)) × (o.received ≡ receiver_committed files) × Checked o files)
unfolding materialize_file_claim leave discard
materialize_file_claim-delivered j c o h =
    let (files, committed, agreed) = receive-delivered o o.received refl (ground arith) in
    (
      ground arith,
      ground (arith, receive-published o),
      (files, committed, cross_check-Checked o files agreed),
    )

abbrev pub is_indeterminate : Option Code → Bool
is_indeterminate (some Code.transfer_indeterminate) = true
is_indeterminate _ = false

-- The receiver reported its commit as accepted or of unknown outcome, failed without a report, or was
-- cancelled past the commit.
abbrev pub is_past_commit : Observed → Bool
is_past_commit o = elim o.received [
  | receiver_cancelled ↦ o.commit_written
  | staging_failed ↦ false
  | receiver_raised ↦ true
  | receiver_refused code ↦ is_indeterminate code
  | receiver_committed files ↦ true
]

-- No cancellation arrives while the bytes are being held, or the commit was accepted, where a
-- cancellation is answered with a second hold.
abbrev pub IsHeldWhole : Observed → Type 0
IsHeldWhole o =
    (o.hold_cancelled ≡ none)
    ⊎ ((files : Option (List Report)) × (o.received ≡ receiver_committed files))

abbrev pub IsKept : Place → Type 0
IsKept p = (p ≡ held) ⊎ (p ≡ published)

publish-IsKept :
    (o : Observed) (files : Option (List Report))
    → o.rename_works ≡ true
    → IsKept (publish o files).1
unfolding publish hold hold_on_cancel quarantine
publish-IsKept o files works = ground arith

refused-kept :
    (o : Observed) (code : Option Code)
    → is_indeterminate code ≡ true
    → o.hold_cancelled ≡ none
    → o.rename_works ≡ true
    → (refused_by_receiver o code).1 ≡ held
unfolding refused_by_receiver hold quarantine
refused-kept o none h whole works = ground arith
refused-kept o (some code) h whole works = ground arith

receive-IsKept :
    (o : Observed) (received : Received)
    → o.received ≡ received
    → is_past_commit o ≡ true
    → IsHeldWhole o
    → o.rename_works ≡ true
    → IsKept (receive o).1
unfolding receive hold hold_on_cancel quarantine
receive-IsKept o receiver_cancelled e sent whole works = ground arith
receive-IsKept o staging_failed e sent whole works = absurd (ground arith)
receive-IsKept o receiver_raised e sent whole works = ground arith
receive-IsKept o (receiver_refused code) e sent whole works =
    ground (arith, refused-kept o code (ground arith))
receive-IsKept o (receiver_committed files) e sent whole works =
    ground (arith, publish-IsKept o files works)

-- Where the receiver reports its commit as accepted or of unknown outcome, raises an exception other
-- than `StagingFailed`, or is cancelled after its commit was written, in a claim that is granted and
-- staged, the bytes end up held or published and are not deleted. The rename works, and no cancellation
-- arrives while the bytes are being held, unless the commit was accepted.
pub materialize_file_claim-IsKept :
    (j : Journalled) (c : Caller) (o : Observed)
    → authorize j c ≡ none
    → o.stage ≡ opened
    → is_past_commit o ≡ true
    → IsHeldWhole o
    → o.rename_works ≡ true
    → IsKept (materialize_file_claim j c o).1
unfolding materialize_file_claim leave discard
materialize_file_claim-IsKept j c o granted ready sent whole works =
    ground (arith, receive-IsKept o o.received refl sent whole works)
