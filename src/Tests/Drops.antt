-- ===== src/Tests/Drops.antt =====
-- A pass and a wait at concrete data.
use hermes_drop.Base.{
  ◌≡◌, refl, true, false, none, some, [], ◌∷◌, option_eq, string_eq, nat_eq, keep, any,
}
use hermes_drop.Base.{Text, text_eq, codes}
use hermes_drop.Base.Dict
use hermes_drop.Base.Dict.{Dict}
use hermes_drop.Base.Exec.{ok, pure, raise, gets, ◌>>=◌}
use hermes_drop.Routing.{routing_eq}
use hermes_drop.Journal.Entry.{
  Key, key_eq, Value, null, flag, number, string, composite, Entry, drop_id, state, message_id,
  expires_at_ms, announced_at, announce_attempts, claimed_at, edit_failed, notice_received,
  notice_expired, payload_kind, waiting, received, expired, transport_failed, get, is_terminal,
  is_state, is_set, text_of, routing_tuple_of,
}
use hermes_drop.Journal.Store.{
  Directory, get_drop, attempts, max_announce_attempts, terminal_unannounced, is_pending, entries,
}
use hermes_drop.World.{
  Effect, edited, journalled, woken, armed, Await, await_raised, submitted, await_unavailable,
  await_other, Outside, World, Action, ask, show, note, set_directory, is_truthy, list_entries,
  update_drop, update_status, list_unannounced, required,
}
use hermes_drop.Sources.{Source, SessionEnv, new_registry, routing_tuple_for_source}
use hermes_drop.Origin.{adapter_found, Origin, routing_tuple}
use hermes_drop.Journal.Entry.{platform, chat_id, is_drop_id, validate_entry}
use hermes_drop.Journal.Store.{entry_file, parsed, read}
use hermes_drop.Journal.Sound.{IsSound, is_sound}
use hermes_drop.Journal.Update.{IsSettled}
use hermes_drop.Reconciler.Latch.{fresh_latch}
use hermes_drop.Reconciler.Finalize.{done, duplicate, finalize_terminal}
use hermes_drop.Reconciler.Pass.{empty_summary, run_reconcile}
use hermes_drop.Reconciler.Settled.{run_reconcile-IsSettled}
use hermes_drop.Reconciler.Once.{finalize_terminal-twice}
use hermes_drop.World.Refines.{Updates, abstract, update_drop-refines}
use hermes_drop.World.{call_done}
use hermes_drop.Journal.Entry.{is_allowed}
use hermes_drop.Journal.Entry.{is_smuggler}
use hermes_drop.Journal.Entry.{is_urlish}
use hermes_drop.Journal.Store.{name_eq}

abbrev source : Source
source = record {
  ident = 1;
  platform = some (codes "telegram");
  profile = none;
  chat_id = some (codes "7");
  thread_id = none;
  message_id = some (codes "12");
}

abbrev outside : Outside
outside = record {
  int_of = λ _. none;
  float_of = λ _. none;
  runner = some 3;
  adapter_for = λ _. adapter_found 5;
  clock = λ _. 100;
  monotonic = λ _. 0;
  write_raises = λ _. none;
  temp = λ _. 0;
  listing_works = λ _. true;
  edit = λ _. call_done;
  wake_works = λ _. true;
  await_answer = λ _. submitted none;
  arm = none;
}

abbrev origin : Origin
origin = record {
  source = source;
  adapter = 5;
  runner = 3;
  lane = routing_tuple_for_source source;
  reply_anchor = none;
  tier = routing_tuple;
}

abbrev drop : Text
drop = codes "abcdefgh"

abbrev entry : Text → Entry
entry s = (drop_id, string drop) ∷ (state, string s) ∷ (expires_at_ms, number 200000) ∷ []

abbrev world : Entry → World
world e = record {
  directory = (entry_file drop, record { body = parsed e; mtime = 90 }) ∷ [];
  registry = new_registry 8 60;
  latch = fresh_latch;
  summary = empty_summary;
  effects = [];
  questions = 0;
}

sound : IsSound (world (entry received)).directory
unfolding is_sound validate_entry any is_allowed is_smuggler is_urlish is_drop_id Dict.lookup key_eq
    is_state is_terminal text_of
sound = (refl, tt)

here : get_drop (string drop) (world (entry received)).directory ≡ some (entry received)
unfolding get_drop is_drop_id Dict.lookup name_eq keep is_allowed
here = refl

has_state : get state (entry received) ≡ string received
unfolding Dict.lookup key_eq
has_state = refl

over : is_terminal (string received) ≡ true
unfolding is_terminal
over = refl

settled : IsSettled drop (string received) (world (entry received)).directory
settled = record { sound = sound; entry = entry received; stands = here; has = has_state }

run_reconcile-IsSettled_example :
    IsSettled drop (string received) (run_reconcile outside (world (entry received))).directory
run_reconcile-IsSettled_example =
    run_reconcile-IsSettled outside (world (entry received)) drop (string received) over settled

waiting-IsSound : IsSound (world (entry waiting)).directory
unfolding is_sound validate_entry any is_allowed is_smuggler is_urlish is_drop_id Dict.lookup key_eq
    is_state text_of
waiting-IsSound = (refl, tt)

names : Dict.lookup drop_id (entry waiting) ≡ some (string drop)
unfolding Dict.lookup key_eq
names = refl

first :
    (finalize_terminal outside origin (entry waiting) received (world (entry waiting))).0
    ≡ ok (done false [])
unfolding finalize_terminal Dict.lookup key_eq get_drop is_drop_id name_eq is_terminal keep
    is_allowed hermes_drop.Journal.Write.update any validate_entry Dict.insert is_smuggler is_urlish
    is_state terminal_unannounced entries hermes_drop.Announce.announce_pending
    hermes_drop.Announce.deliver hermes_drop.Announce.note_announced
    hermes_drop.Announce.note_attempts text_eq Dict.erase nat_eq gets pure raise ◌>>=◌
    hermes_drop.Journal.Entry.decimal hermes_drop.Journal.Entry.id_chars routing_tuple_of
    hermes_drop.Journal.Entry.scheme_then_separator text_of hermes_drop.Journal.Store.by_age
    hermes_drop.Journal.Store.entry_files is_pending hermes_drop.Journal.Store.place read
    hermes_drop.Journal.Store.read_all hermes_drop.Journal.Store.sort
    hermes_drop.Journal.Store.text_leb hermes_drop.Journal.Write.interrupted
    hermes_drop.Journal.Write.merge hermes_drop.Journal.Write.put
    hermes_drop.Journal.Write.sweep_orphans hermes_drop.Journal.Write.write_until
    hermes_drop.Reconciler.Finalize.edit_notice hermes_drop.Reconciler.Finalize.transition
    routing_eq ask hermes_drop.World.commit is_truthy list_unannounced required set_directory show
    update_drop update_status native.Mathlib.Decide.ℕ_discrete routing_tuple_for_source
first = refl

finalize_terminal-twice_example :
    let after =
      (finalize_terminal outside origin (entry waiting) received (world (entry waiting))).1 in
    finalize_terminal outside origin (entry waiting) received after ≡ (ok duplicate, after)
finalize_terminal-twice_example =
    finalize_terminal-twice outside (world (entry waiting)) origin origin (entry waiting)
      (entry waiting) drop received received false [] waiting-IsSound over names names first

no_id : Dict.lookup drop_id ((announced_at, number 100) ∷ []) ≡ none
unfolding Dict.lookup key_eq
no_id = refl

update_drop-refines_example :
    let (result, after) =
      update_drop outside
        (string drop)
        ((announced_at, number 100) ∷ [])
        (world (entry received)) in
    Updates drop
      ((announced_at, number 100) ∷ [])
      (abstract (world (entry received)).directory)
      result
      (abstract after.directory)
update_drop-refines_example =
    update_drop-refines outside drop ((announced_at, number 100) ∷ []) (world (entry received))
      no_id sound

abbrev late : Outside
late = record outside { clock = λ _. 300 }

abbrev env : SessionEnv
env = record {
  platform = codes "telegram";
  chat_id = codes "7";
  profile = [];
  thread_id = [];
  session_key = codes "k";
}
