-- ===== src/Tests/Entries.antt =====
-- The journal at concrete data.
use hermes_drop.Base.{
  ◌≡◌, refl, ◌≢◌, ◌↔◌, ◌⊎◌, false, not, ◌&&◌, none, some, [], ◌∷◌, ◌++◌, if◌then◌else◌, ◌==◌,
  option_eq, string_eq, nat_eq, keep, any, All,
}
use hermes_drop.Base.{Text, codes, text_eq}
use hermes_drop.Base.Dict
use hermes_drop.Base.Dict.{Dict}
use hermes_drop.Routing.{routing_eq}
use hermes_drop.Journal.Entry.{
  Key, drop_id, state, platform, chat_id, user_id, claimed_at, updated_at, key_eq, is_allowed,
  Value, null, number, string, Entry, received, get, is_terminal, is_state, text_of, is_drop_id,
  is_urlish, is_smuggler, validate_entry, Caller, authorize_claim,
}
use hermes_drop.Journal.Store.{entry_file, name_eq, parsed, Directory, read, get_drop, entries}
use hermes_drop.Journal.Write.{synced, killed, interrupted, write, written, put, merge, update}
use hermes_drop.Journal.Atomic.{IsSameTo, interrupted-IsSameTo}
use hermes_drop.Journal.Sound.{IsSound, is_sound, puts, breaks, deletes, run, entries-run}
use hermes_drop.Journal.Claims.{
  IsCallers, get_drop-put, authorize_claim_iff, update-authorize_claim, claimed,
}

abbrev id : Text
id = codes "abcdefgh"

abbrev entry : Entry
entry =
    (drop_id, string id)
    ∷ (state, string received)
    ∷ (platform, string (codes "telegram"))
    ∷ (chat_id, string (codes "7"))
    ∷ (user_id, string (codes "u"))
    ∷ []

abbrev caller : Caller
caller = record {
  lane = record { platform = codes "telegram"; profile = []; chat_id = codes "7"; thread_id = [] };
  user = codes "u";
}

abbrev directory : Directory
directory = (entry_file id, record { body = parsed entry; mtime = 4 }) ∷ []

interrupted-IsSameTo_example :
    IsSameTo (interrupted (killed synced) id entry 1 9 directory) directory
    ⊎ IsSameTo (interrupted (killed synced) id entry 1 9 directory) (write id entry 1 9 directory)
interrupted-IsSameTo_example = interrupted-IsSameTo (killed synced) id entry 1 9 directory

entries-run_example :
    All
      (λ e. validate_entry e ≡ none)
      (entries
        (run (puts entry 1 4 ∷ breaks (killed synced) entry 2 9 ∷ deletes (string id) ∷ []) []))
entries-run_example =
    entries-run (puts entry 1 4 ∷ breaks (killed synced) entry 2 9 ∷ deletes (string id) ∷ [])

get_drop-put_example : get_drop (string id) (put entry 1 9 []).1 ≡ elim (validate_entry entry) [
  | some r ↦ get_drop (string id) []
  | none ↦
      if is_drop_id (string id) && id == text_of (get drop_id entry)
      then some entry
      else get_drop (string id) []
]
get_drop-put_example = get_drop-put id entry 1 9 []

authorize_claim_iff_example : (authorize_claim (some entry) caller ≡ none) ↔ (
    (e : Entry) × (some entry ≡ some e)
    × (IsCallers e caller × (get claimed_at e ≡ null) × (get state e ≡ string received)))
authorize_claim_iff_example = authorize_claim_iff (some entry) caller

abbrev marks : Dict Key Value
marks = (claimed_at, number 9) ∷ []

known : any (λ (k, _). not (is_allowed k)) marks ≡ false
unfolding any is_allowed
known = refl

directory-IsSound : IsSound directory
unfolding is_sound validate_entry any is_allowed is_smuggler is_urlish is_drop_id Dict.lookup key_eq
    is_state is_terminal text_of
directory-IsSound = (refl, tt)

abbrev after : Entry
after = entry ++ ((claimed_at, number 9) ∷ (updated_at, number 9) ∷ [])

claim_written : (update (string id) (claimed 9) 2 9 directory).0 ≡ written after
unfolding update get_drop read put merge Dict.lookup Dict.insert validate_entry any is_allowed
    is_drop_id name_eq keep key_eq is_smuggler is_urlish is_state is_terminal
claim_written = refl

update-authorize_claim_example :
    authorize_claim (get_drop (string id) (update (string id) (claimed 9) 2 9 directory).1) caller
    ≢ none
update-authorize_claim_example =
    update-authorize_claim id 2 9 directory after caller directory-IsSound claim_written
