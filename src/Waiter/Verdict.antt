-- ===== src/Waiter/Verdict.antt =====
-- The verdict of a wait of drop/waiter.py, and the state that it leaves.
use hermes_drop.Base.{Option, ℕ, ◌+◌, ◌*◌, ◌≡◌, true, option_eq, string_eq, nat_eq, leb}
use hermes_drop.Base.{Text}
use hermes_drop.Base.Dict
use hermes_drop.Base.Dict.{Dict}
use hermes_drop.Base.Exec.{ok, pure, ◌>>=◌, ◌>>◌}
use hermes_drop.Routing.{routing_eq}
use hermes_drop.Journal.Entry.{
  received, transport_failed, key_eq, Entry, expires_at_ms, expired, get,
}
use hermes_drop.World.{
  await_raised, submitted, await_unavailable, await_other, Outside, World, Action, number_or_raise,
}
use hermes_drop.Sources.{SessionEnv}
use hermes_drop.Origin.{Origin}
use hermes_drop.Reconciler.Finalize.{Finalized, finalize_terminal}
use hermes_drop.Waiter.{Waited, waited, republish, park, note_kind}

-- A state that the wait may end in, where the `n`-th question put to the outside is its reading of the
-- clock and the next one its wait for the broker: expired past the deadline that the entry names, or
-- what the broker's answer to this wait says.
pub data IsVerdict (o : Outside) (e : Entry) (n : ℕ) : Text → Type 0 where
  lapsed :
      (d : ℕ) (w : World)
      → (number_or_raise o.float_of (get expires_at_ms e) w).0 ≡ ok d
      → leb d (o.clock n * 1000) ≡ true
      → IsVerdict o e n expired
  has_submission :
      (kind : Option Text) → o.await_answer (n + 1) ≡ submitted kind → IsVerdict o e n received
  is_unavailable :
      (elapsed : ℕ) → o.await_answer (n + 1) ≡ await_unavailable elapsed → IsVerdict o e n expired
  has_raised : o.await_answer (n + 1) ≡ await_raised → IsVerdict o e n transport_failed
  is_unknown : o.await_answer (n + 1) ≡ await_other → IsVerdict o e n transport_failed

module _ (o : Outside) (env : SessionEnv) (meanwhile : World → World) where
  -- What is done once the wait is parked.
  abbrev parked_tail : Text → Action Text
  parked_tail id = park o env meanwhile >>= λ verdict.
      note_kind o env meanwhile id verdict.0 verdict.1 >> pure verdict.0

  -- What follows the transition, and what follows the outcome.
  abbrev ending : Origin → Finalized → Action Waited
  ending origin r = republish o env meanwhile origin >> pure (waited r)

  abbrev closing_wait : Origin → Entry → Text → Action Waited
  closing_wait origin e t = finalize_terminal o origin e t >>= ending origin
