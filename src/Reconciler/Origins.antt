-- ===== src/Reconciler/Origins.antt =====
-- The conversation of a journalled drop: what a pass looks up and what the gate peeks at.
use hermes_drop.Base.{◌≡◌, sym, ap, some, option_eq, string_eq, nat_eq}
use hermes_drop.Base.{text_eq}
use hermes_drop.Base.Exec.{ok, pure, gets, ◌>>=◌}
use hermes_drop.Routing.{routing_eq}
use hermes_drop.Journal.Entry.{key_eq, Entry, routing_tuple_of}
use hermes_drop.World.{Outside, World, ask}
use hermes_drop.Sources.Answers.{peek-by_routing_tuple}
use hermes_drop.Reconciler.Edits.{set_registry, origin_of, origin_for_entry, peek_origin}

-- The gate's peek and a pass's look-up find the same conversation for an entry, or both none, when they
-- read the same registry at the same time.
pub origin_for_entry-peek_origin :
    (o : Outside) (e : Entry) (w : World)
    → (origin_for_entry o e w).0
      ≡ ok (peek_origin o (o.monotonic w.questions) w.registry (routing_tuple_of e))
unfolding origin_for_entry peek_origin ask gets set_registry pure ◌>>=◌
origin_for_entry-peek_origin o e w =
    ap (λ x. ok (origin_of o (routing_tuple_of e) x))
      (sym (peek-by_routing_tuple (some (routing_tuple_of e)) (o.monotonic w.questions) w.registry))
