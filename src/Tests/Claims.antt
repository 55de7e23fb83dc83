-- ===== src/Tests/Claims.antt =====
-- File claims at concrete data.
use hermes_drop.Base.{
  ◌≡◌, refl, ◌⊎◌, inl, true, false, Option, none, some, List, [], ◌∷◌, option_eq, string_eq, nat_eq,
}
use hermes_drop.Base.{codes}
use hermes_drop.Journal.Entry.{
  Caller, drop_id, state, received, string, authorize_claim, same_claim, is_state, text_of,
  routing_tuple_of, key_eq,
}
use hermes_drop.Base.{text_eq}
use hermes_drop.Base.Dict
use hermes_drop.Routing.{routing_eq}
use hermes_drop.Materialize.{
  cancelled, receiver_raised, spool_write_failed, refusal, Journalled, journal_read, authorize,
  nowhere, staged, deleted, published, file, Report, Observed, opened, staging_failed,
  receiver_committed, publish_done, delivered, refused, receive, leave, materialize_file_claim,
}
use hermes_drop.Materialize.Bytes.{
  IsKept, Checked, materialize_file_claim-retry_safe, materialize_file_claim-delivered,
  materialize_file_claim-IsKept,
}

abbrev caller : Caller
caller = record {
  lane = record { platform = []; profile = []; chat_id = []; thread_id = [] };
  user = [];
}

abbrev journal : Journalled
journal = journal_read (some ((drop_id, string (codes "abcdefgh")) ∷ (state, string received) ∷ []))

abbrev report : Option (List Report)
report = some (file (some 3) (some (codes "aa")) ∷ [])

abbrev good : Observed
good = record {
  stage = opened;
  received = receiver_committed report;
  commit_written = true;
  arrival = 0 ∷ [];
  entries = (0, record { size = 3; sha256 = codes "aa" }) ∷ [];
  publishing = publish_done;
  rename_works = true;
  removal_works = true;
  hold_cancelled = none;
  exit_raised = false;
}

abbrev full : Observed
full = record good { received = staging_failed; commit_written = false }

granted : authorize journal caller ≡ none
unfolding authorize authorize_claim same_claim routing_eq routing_tuple_of text_of Dict.lookup
    key_eq text_eq is_state
granted = refl

kept_back : (materialize_file_claim journal caller full).0 ≡ refused (refusal spool_write_failed)
unfolding materialize_file_claim authorize authorize_claim same_claim receive leave routing_eq
    routing_tuple_of text_of Dict.lookup key_eq is_state
kept_back = refl

safe : (refusal spool_write_failed).retry_safe ≡ true
unfolding refusal
safe = refl

arrived : (materialize_file_claim journal caller good).0 ≡ delivered
unfolding materialize_file_claim authorize authorize_claim same_claim receive leave routing_eq
    routing_tuple_of text_of Dict.lookup key_eq is_state
arrived = refl

materialize_file_claim-retry_safe_example :
    ((materialize_file_claim journal caller full).1 ≡ nowhere)
    ⊎ (((materialize_file_claim journal caller full).1 ≡ deleted)
        ⊎ (((materialize_file_claim journal caller full).1 ≡ staged)
            × (full.removal_works ≡ false)))
materialize_file_claim-retry_safe_example =
    materialize_file_claim-retry_safe journal caller full (refusal spool_write_failed) kept_back
      safe

materialize_file_claim-delivered_example :
    (authorize journal caller ≡ none)
    × ((materialize_file_claim journal caller good).1 ≡ published)
    × ((files : Option (List Report)) × (good.received ≡ receiver_committed files)
        × Checked good files)
materialize_file_claim-delivered_example =
    materialize_file_claim-delivered journal caller good arrived

materialize_file_claim-IsKept_example : IsKept (materialize_file_claim journal caller good).1
materialize_file_claim-IsKept_example =
    materialize_file_claim-IsKept journal caller good granted refl refl (inl refl) refl

-- An unknown outcome, and a cancellation while the bytes are being held.
abbrev lost : Observed
lost = record good { received = receiver_raised; hold_cancelled = some false }

is_lost : materialize_file_claim journal caller lost ≡ (cancelled, deleted)
unfolding materialize_file_claim authorize authorize_claim same_claim receive leave routing_eq
    routing_tuple_of text_of Dict.lookup key_eq is_state
is_lost = refl
