-- ===== src/Routing.antt =====
-- The routing tuple of drop/sources.py: the four texts that name one conversation.
use native.Mathlib.Decide.{ℕ_discrete}
use hermes_drop.Base.{Text, Eq}

pub record RoutingTuple : Type 0 where
  pub platform : Text
  pub profile : Text
  pub chat_id : Text
  pub thread_id : Text

RoutingTuple-discrete : Discrete RoutingTuple
RoutingTuple-discrete = hlevel ℕ_discrete

instance unfoldable pub routing_eq : Eq RoutingTuple
unfolding RoutingTuple-discrete ℕ_discrete
routing_eq = record { dec = RoutingTuple-discrete }
