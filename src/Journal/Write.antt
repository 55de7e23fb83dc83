-- ===== src/Journal/Write.antt =====
-- The writes of drop/journal.py, each with the moments at which it can be killed or can raise.
use hermes_drop.Base.{
  ℕ, ◌-◌, Bool, false, not, none, some, [], ◌∷◌, if◌then◌else◌, option_eq, string_eq, nat_eq, ltb,
  keep, any,
}
use hermes_drop.Base.{Text, text_eq}
use hermes_drop.Base.Dict
use hermes_drop.Base.Dict.{Dict}
use hermes_drop.Routing.{routing_eq}
use hermes_drop.Journal.Entry.{
  Key, drop_id, state, platform, profile, chat_id, thread_id, user_id, session_key, message_id,
  created_at, updated_at, announced_at, announce_attempts, claimed_at, edit_failed, payload_kind,
  key_eq, is_allowed, Value, null, flag, number, string, Entry, waiting, get, text_of, is_drop_id,
  JournalRejected, unknown_field, validate_entry, Caller,
}
use hermes_drop.Journal.Store.{
  FileName, entry_file, temp_file, name_eq, unreadable, parsed, File, Directory, get_drop,
}

-- `ORPHAN_GRACE_SECONDS`
abbrev pub orphan_grace_seconds : ℕ
orphan_grace_seconds = 300

abbrev pub is_orphan : ℕ → FileName × File → Bool
is_orphan now (temp_file n, file) = ltb file.mtime (now - orphan_grace_seconds)
is_orphan now (entry_file s, file) = false

-- `_sweep_orphans`
unfoldable pub sweep_orphans : ℕ → Directory → Directory
sweep_orphans now = keep (λ f. not (is_orphan now f))

-- How far a write has come: the sweep, the empty temp file, the synced temp file, the rename.
pub data Moment : Type 0 where
  swept opened synced renamed : Moment

-- `_write`, up to a moment; `temp` is the name that `mkstemp` picks. The fields of an entry are
-- written by name, which a reader, who looks them up by name, cannot tell.
unfoldable pub write_until : Moment → Text → Entry → (temp now : ℕ) → Directory → Directory
unfolding sweep_orphans
write_until swept stem e temp now d = sweep_orphans now d
write_until opened stem e temp now d =
    Dict.insert (temp_file temp) (record { body = unreadable; mtime = now }) (sweep_orphans now d)
write_until synced stem e temp now d =
    Dict.insert (temp_file temp) (record { body = parsed e; mtime = now }) (sweep_orphans now d)
write_until renamed stem e temp now d =
    Dict.insert (entry_file stem) (record { body = parsed e; mtime = now })
      (Dict.erase (temp_file temp) (sweep_orphans now d))

abbrev pub write : Text → Entry → (temp now : ℕ) → Directory → Directory
write = write_until renamed

-- A killed process leaves what the moment left; an exception unlinks the temp file on its way.
pub data Interruption : Type 0 where
  killed raised : Moment → Interruption

unfoldable pub interrupted : Interruption → Text → Entry → (temp now : ℕ) → Directory → Directory
unfolding write_until
interrupted (killed m) stem e temp now d = write_until m stem e temp now d
interrupted (raised m) stem e temp now d =
    Dict.erase (temp_file temp) (write_until m stem e temp now d)

pub data Written : Type 0 where
  rejected : JournalRejected → Written
  absent : Written
  written : Entry → Written

-- `DropJournal.put`
unfoldable pub put : Entry → (temp now : ℕ) → Directory → Written × Directory
unfolding write_until
put e temp now d = elim (validate_entry e) [
  | some r ↦ (rejected r, d)
  | none ↦ (written e, write (text_of (get drop_id e)) e temp now d)
]

-- `dict.update`
unfoldable pub merge : Dict Key Value → Entry → Entry
merge [] e = e
merge ((k, v) ∷ changes) e = merge changes (Dict.insert k v e)

-- `DropJournal.update`; no keyword of the changes can be `drop_id`, the name of a parameter.
unfoldable pub update : Value → Dict Key Value → (temp now : ℕ) → Directory → Written × Directory
unfolding get_drop put merge
update id changes temp now d =
    if any (λ (k, _). not (is_allowed k)) changes
    then (rejected unknown_field, d)
    else elim (get_drop id d) [
      | none ↦ (absent, d)
      | some current ↦ put (Dict.insert updated_at (number now) (merge changes current)) temp now d
    ]

-- `DropJournal.delete`
unfoldable pub delete : Value → Directory → Directory
delete (string id) d = if is_drop_id (string id) then Dict.erase (entry_file id) d else d
delete _ d = d

pub record NewDrop : Type 0 where
  pub id : Text
  pub owner : Caller
  pub session : Text
  pub message : Text
  pub purpose : Text
  pub expires_at_ms : ℕ
  pub ttl_seconds : ℕ
  pub notice_received : Text
  pub notice_expired : Text

unfoldable pub new_entry : NewDrop → (now : ℕ) → Entry
new_entry n now =
    (drop_id, string n.id)
    ∷ (state, string waiting)
    ∷ (platform, string n.owner.lane.platform)
    ∷ (profile, string n.owner.lane.profile)
    ∷ (chat_id, string n.owner.lane.chat_id)
    ∷ (thread_id, string n.owner.lane.thread_id)
    ∷ (user_id, string n.owner.user)
    ∷ (session_key, string n.session)
    ∷ (message_id, string n.message)
    ∷ (Key.purpose, string n.purpose)
    ∷ (created_at, number now)
    ∷ (updated_at, number now)
    ∷ (Key.expires_at_ms, number n.expires_at_ms)
    ∷ (Key.ttl_seconds, number n.ttl_seconds)
    ∷ (announced_at, null)
    ∷ (announce_attempts, number 0)
    ∷ (claimed_at, null)
    ∷ (edit_failed, flag false)
    ∷ (Key.notice_received, string n.notice_received)
    ∷ (Key.notice_expired, string n.notice_expired)
    ∷ (payload_kind, string [])
    ∷ []

-- `DropJournal.create_entry`
unfoldable pub create_entry : NewDrop → (temp now : ℕ) → Directory → Written × Directory
unfolding put new_entry
create_entry n temp now d = put (new_entry n now) temp now d
