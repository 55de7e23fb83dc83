-- ===== src/Materialize.antt =====
-- drop/materialize.py: one file claim, its verdict, and where the received bytes end up. The spool
-- (drop/spool.py) and the receiver (drop/file_claim.py) are what they answer; of a staged claim there
-- is the place of its bytes, with `quarantine` and `discard`.
use hermes_drop.Base.{
  ℕ, suc, zero, ◌+◌, ◌-◌, ◌*◌, ◌/◌, ◌%◌, ◌≤◌, ◌<◌, max, min, String, ◌<>◌, ◌≡◌, refl, sym, ap, ◌∙◌,
  ◌≢◌, ◌↔◌, ◌⊎◌, inl, inr, Bool, true, false, not, ◌&&◌, ◌||◌, Option, none, some, List, [], ◌∷◌,
  ◌++◌, map, arith, if◌then◌else◌, Eq, ◌==◌, contains, option_eq, string_eq, nat_eq, Bool-cases,
  Option-cases, ltb, leb, ltb→lt, leb→le, length, keep, any, All, length-append, length-keep-le,
  keep-All,
}
use hermes_drop.Base.{Text, text_eq}
use hermes_drop.Base.Dict
use hermes_drop.Base.Dict.{Dict}
use hermes_drop.Journal.Entry.{
  Entry, Caller, ClaimRefusal, unavailable, not_authorized, not_ready, authorize_claim,
}
pub mod Bytes
pub mod Transfer

-- The error codes, and any other text that a receiver may answer.
pub data Code : Type 0 where
  spool_unavailable spool_busy spool_write_failed spool_publish_failed : Code
  transfer_failed transfer_indeterminate lapsed broker_unavailable invalid_request : Code
  claim_not_authorized claim_not_ready : Code
  unrecognised : Text → Code

-- `_POLICY`: `(retry_safe, mark_spent)`, and nothing of either for a code outside the table.
unfoldable pub policy : Code → Bool × Bool
policy spool_unavailable = (true, false)
policy spool_busy = (true, false)
policy spool_write_failed = (true, false)
policy spool_publish_failed = (false, true)
policy transfer_failed = (true, false)
policy transfer_indeterminate = (false, false)
policy lapsed = (false, true)
policy broker_unavailable = (true, false)
policy invalid_request = (false, false)
policy _ = (false, false)

pub record Refusal : Type 0 where
  pub error : Code
  pub retry_safe : Bool
  pub mark_spent : Bool

-- `_refusal`
unfoldable pub refusal : Code → Refusal
unfolding policy
refusal code = record { error = code; retry_safe = (policy code).0; mark_spent = (policy code).1 }

abbrev pub code_of : ClaimRefusal → Code
code_of unavailable = lapsed
code_of not_authorized = claim_not_authorized
code_of not_ready = claim_not_ready

abbrev pub is_not_ready : ClaimRefusal → Bool
is_not_ready not_ready = true
is_not_ready _ = false

-- `_from_authorization`
unfoldable pub from_authorization : ClaimRefusal → Refusal
from_authorization r = record { error = code_of r; retry_safe = is_not_ready r; mark_spent = false }

-- What reading the journal gave.
pub data Journalled : Type 0 where
  journal_raised : Journalled
  journal_read : Option Entry → Journalled

-- `_authorize`
unfoldable pub authorize : Journalled → Caller → Option Refusal
unfolding refusal from_authorization
authorize journal_raised caller = some (refusal broker_unavailable)
authorize (journal_read found) caller = elim (authorize_claim found caller) [
  | none ↦ none
  | some r ↦ some (from_authorization r)
]

-- Where the received bytes are: nowhere yet, in the staging directory, held in quarantine, deleted,
-- or under the published claim.
pub data Place : Type 0 where
  nowhere staged held deleted published : Place

-- `StagingClaim._quarantine`, with whether its rename works; no answer stands for an exception.
unfoldable pub quarantine : Bool → Place → Option Bool × Place
quarantine works staged = if works then (some true, held) else (none, staged)
quarantine works p = (some false, p)

-- `StagingClaim._discard`, which leaves the bytes where they are if the removal fails.
unfoldable pub discard : (removes : Bool) → Place → Place
discard removes staged = if removes then deleted else staged
discard removes p = p

-- `_hold_on_cancel`
unfoldable pub hold_on_cancel : (after_commit works : Bool) → Place → Place
unfolding quarantine
hold_on_cancel after_commit works published = published
hold_on_cancel after_commit works p = if after_commit then (quarantine works p).1 else p

-- A file as the receiver reports it, by `get`, and as the spool has it.
pub data Report : Type 0 where
  no_file : Report
  file : Option ℕ → Option Text → Report

pub record Staged : Type 0 where
  pub size : ℕ
  pub sha256 : Text

unfoldable pub agrees : Report → Option Staged → Bool
unfolding nat_eq text_eq option_eq
agrees (file size sha256) (some mine) = some mine.size == size && some mine.sha256 == sha256
agrees _ _ = false

unfoldable pub all_agree : List Report → List ℕ → Dict ℕ Staged → Bool
unfolding agrees
all_agree [] arrival entries = true
all_agree (theirs ∷ reports) [] entries = false
all_agree (theirs ∷ reports) (index ∷ arrival) entries =
    agrees theirs (Dict.lookup index entries) && all_agree reports arrival entries

-- `_cross_check`: whether it passes. No list is `none`.
unfoldable pub cross_check : Option (List Report) → (arrival : List ℕ) → Dict ℕ Staged → Bool
unfolding all_agree nat_eq
cross_check none arrival entries = false
cross_check (some reports) arrival entries =
    length reports == length entries
    && (length arrival == length entries && all_agree reports arrival entries)

-- What the calls of one run answer.
pub data Stage : Type 0 where
  opened busy unsafe stage_raised : Stage

pub data Received : Type 0 where
  receiver_cancelled staging_failed receiver_raised : Received
  receiver_refused : Option Code → Received
  receiver_committed : Option (List Report) → Received

-- `claim.publish`; an exception or a cancellation may come before or after its rename.
pub data Publishing : Type 0 where
  publish_cancelled publish_raised : (renamed : Bool) → Publishing
  publish_done : Publishing

-- `hold_cancelled` is a cancellation that arrives while `_hold` is awaited, with whether the rename
-- was made before it.
pub record Observed : Type 0 where
  pub stage : Stage
  pub received : Received
  pub commit_written : Bool
  pub arrival : List ℕ
  pub entries : Dict ℕ Staged
  pub publishing : Publishing
  pub rename_works : Bool
  pub removal_works : Bool
  pub hold_cancelled : Option Bool
  pub exit_raised : Bool

pub data Verdict : Type 0 where
  delivered cancelled : Verdict
  refused : Refusal → Verdict

-- `_hold`: whether the bytes are held, or no answer where a cancellation goes through it.
unfoldable pub hold : Observed → Place → Option Bool × Place
unfolding quarantine discard
hold o p = elim o.hold_cancelled [
  | some renamed ↦ (none, (quarantine (renamed && o.rename_works) p).1)
  | none ↦
      let (answer, q) = quarantine o.rename_works p in
      elim answer [ none ↦ (some false, discard o.removal_works q) | some kept ↦ (some kept, q) ]
]

-- A verdict that is returned after a hold, unless the hold is cancelled.
abbrev pub after_hold : Verdict → Option Bool × Place → Verdict × Place
after_hold verdict (none, p) = (cancelled, p)
after_hold verdict (some kept, p) = (verdict, p)

-- `_refused`
unfoldable pub refused_by_receiver : Observed → Option Code → Verdict × Place
unfolding refusal hold
refused_by_receiver o none = (refused (refusal lapsed), staged)
refused_by_receiver o (some transfer_indeterminate) =
    after_hold (refused (refusal transfer_indeterminate)) (hold o staged)
refused_by_receiver o (some code) = (refused (refusal code), staged)

abbrev after_rename : Bool → Place
after_rename renamed = if renamed then published else staged

-- The handling of a cancellation around `_publish`, here for one that goes through `_hold`.
abbrev pub past_commit : Bool → Option Bool × Place → Verdict × Place
past_commit works (none, p) = (cancelled, hold_on_cancel true works p)
past_commit works (some kept, p) = (refused (refusal spool_publish_failed), p)

-- `_publish`, and the handling of a cancellation around it.
unfoldable pub publish : Observed → Option (List Report) → Verdict × Place
unfolding cross_check refusal hold hold_on_cancel
publish o files =
    if cross_check files o.arrival o.entries
    then elim o.publishing [
      | publish_done ↦ (delivered, published)
      | publish_raised renamed ↦ past_commit o.rename_works (hold o (after_rename renamed))
      | publish_cancelled renamed ↦
          (cancelled, hold_on_cancel true o.rename_works (after_rename renamed))
    ]
    else past_commit o.rename_works (hold o staged)

-- The body of `async with spool.stage()`.
unfoldable pub receive : Observed → Verdict × Place
unfolding refused_by_receiver publish hold hold_on_cancel refusal
receive o = elim o.received [
  | receiver_cancelled ↦ (cancelled, hold_on_cancel o.commit_written o.rename_works staged)
  | staging_failed ↦ (refused (refusal spool_write_failed), staged)
  | receiver_raised ↦ after_hold (refused (refusal transfer_indeterminate)) (hold o staged)
  | receiver_refused code ↦ refused_by_receiver o code
  | receiver_committed files ↦ publish o files
]

-- `StagingClaim.__aexit__`: what is published or held stays, the rest is discarded; if that raises,
-- nothing is known.
unfoldable pub leave : (raised removes : Bool) → Verdict × Place → Verdict × Place
unfolding discard refusal
leave raised removes (verdict, published) = (verdict, published)
leave raised removes (verdict, held) = (verdict, held)
leave raised removes (verdict, place) =
    if raised
    then (refused (refusal transfer_indeterminate), place)
    else (verdict, discard removes place)

-- `materialize_file_claim`
unfoldable pub materialize_file_claim : Journalled → Caller → Observed → Verdict × Place
unfolding authorize receive leave
materialize_file_claim journal caller o = elim (authorize journal caller) [
  | some r ↦ (refused r, nowhere)
  | none ↦ elim o.stage [
    | busy ↦ (refused (refusal spool_busy), nowhere)
    | unsafe ↦ (refused (refusal spool_unavailable), nowhere)
    | stage_raised ↦ (refused (refusal transfer_indeterminate), nowhere)
    | opened ↦ leave o.exit_raised o.removal_works (receive o)
  ]
]
