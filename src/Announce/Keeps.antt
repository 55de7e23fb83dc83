-- ===== src/Announce/Keeps.antt =====
-- What drop/announce.py keeps of the journal's directory: whatever no change below breaks.
use hermes_drop.Base.{ℕ, Option, List, [], ◌∷◌, option_eq, string_eq, nat_eq}
use hermes_drop.Base.{text_eq}
use hermes_drop.Base.Dict
use hermes_drop.Base.Dict.{Dict}
use hermes_drop.Base.Exec.{pure, raise}
use hermes_drop.Routing.{RoutingTuple, routing_eq}
use hermes_drop.Journal.Entry.{Key, key_eq, Value, Entry, drop_id}
use hermes_drop.Journal.Store.{Directory}
use hermes_drop.World.{Outside, update_drop, list_unannounced, required}
use hermes_drop.Base.Exec.Keeps.{keeps_rules, Keeps-pure, Keeps-raise, Keeps-bind, Keeps-option}
use hermes_drop.World.Updates.{KeepsDir, update_drop-KeepsDir}
use hermes_drop.World.Changes.{Tick, tried, told, IsStable, Keeps-ask, Keeps-show}
use hermes_drop.Announce.{note_attempts, note_announced, deliver, announce_pending}

module _ (o : Outside) (P : Directory → Type 0) (stable : IsStable P) where
  pub required-keeps : (k : Key) (e : Entry) → KeepsDir P (required k e)
  unfolding required
  required-keeps k e =
      Keeps-option (Dict.lookup k e) raise pure (λ _. Keeps-raise) (λ v _. Keeps-pure v)

  pub Tick-keeps :
      (id : Value) (changes : Dict Key Value) → Tick changes → KeepsDir P (update_drop o id changes)
  Tick-keeps id changes t = update_drop-KeepsDir o P id changes (stable.ticks id changes t)

  note_attempts-keeps : (es : List Entry) → KeepsDir P (note_attempts o es)
  unfolding note_attempts
  note_attempts-keeps [] = Keeps-pure tt
  note_attempts-keeps (e ∷ es) =
      Keeps-bind (required drop_id e) _ (required-keeps drop_id e)
        λ id. Keeps-bind _ _ (Tick-keeps id _ (tried _)) λ _. note_attempts-keeps es

  note_announced-keeps : (now : ℕ) (es : List Entry) → KeepsDir P (note_announced o now es)
  unfolding note_announced
  note_announced-keeps now [] = Keeps-pure []
  note_announced-keeps now (e ∷ es) =
      Keeps-bind (required drop_id e) _ (required-keeps drop_id e) λ id.
        Keeps-bind _ _ (Tick-keeps id _ (told _ _))
          λ _. Keeps-bind _ _ (note_announced-keeps now es) λ rest. Keeps-pure _

  deliver-keeps :
      (lane : RoutingTuple) (now : ℕ) (es : List Entry) → KeepsDir P (deliver o lane now es)
  unfolding deliver
  deliver-keeps lane now [] = search keeps_rules
  deliver-keeps lane now (e ∷ es) =
      search (keeps_rules, Keeps-ask P, Keeps-show P, note_attempts-keeps, note_announced-keeps)

  pub list_unannounced-keeps : (lane : Option RoutingTuple) → KeepsDir P (list_unannounced o lane)
  unfolding list_unannounced
  list_unannounced-keeps lane = search (keeps_rules, Keeps-ask P) depth 10

  pub announce_pending-keeps : (lane : RoutingTuple) → KeepsDir P (announce_pending o lane)
  unfolding announce_pending
  announce_pending-keeps lane =
      search (keeps_rules, Keeps-ask P, list_unannounced-keeps, deliver-keeps)
