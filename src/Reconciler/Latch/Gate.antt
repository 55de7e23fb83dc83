-- ===== src/Reconciler/Latch/Gate.antt =====
-- The gate on a deferred latch, and the lanes that the latch remembers.
use hermes_drop.Base.{
  ◌≡◌, refl, ◌≢◌, ◌↔◌, inl, inr, Bool, true, false, ◌||◌, List, [], ◌∷◌, ◌++◌, arith, contains,
  option_eq, string_eq, nat_eq, Bool-cases, any,
}
use hermes_drop.Routing.{RoutingTuple, routing_eq}
use hermes_drop.Reconciler.Latch.{
  Latch, Resolution, absent, union, frozenset, worth_a_pass, is_empty, note_deferred_pass,
  deferred_pass_can_make_progress,
}

contains-append :
    (xs ys : List RoutingTuple) (a : RoutingTuple)
    → contains (xs ++ ys) a ≡ (contains xs a || contains ys a)
contains-append [] ys a = refl
contains-append (x ∷ xs) ys a = ground (arith, contains-append xs ys a)

-- A lane is in the union exactly when it is in one of the two.
pub contains-union :
    (seen lanes : List RoutingTuple) (a : RoutingTuple)
    → contains (union seen lanes) a ≡ (contains seen a || contains lanes a)
unfolding union
contains-union seen [] a = ground arith
contains-union seen (x ∷ lanes) a = ground (
  arith,
  contains-union seen lanes a,
  contains-union (seen ++ (x ∷ [])) lanes a,
  contains-append seen (x ∷ []) a,
)

-- Some lane of the list answers.
abbrev pub Reachable : (RoutingTuple → Resolution) → List RoutingTuple → Type 0
Reachable resolve lanes =
    (lane : RoutingTuple) × (contains lanes lane ≡ true) × (resolve lane ≢ absent)

any-Reachable :
    (resolve : RoutingTuple → Resolution) (lanes : List RoutingTuple)
    → any (λ lane. worth_a_pass (resolve lane)) lanes ≡ true
    → Reachable resolve lanes
unfolding any
any-Reachable resolve [] h = ground arith
any-Reachable resolve (x ∷ lanes) h = elim (Bool-cases (worth_a_pass (resolve x))) [
  | inl t ↦ (x, ground arith, ground arith)
  | inr f ↦
      let (lane, within, there) = any-Reachable resolve lanes (ground arith) in
      (lane, ground arith, there)
]

Reachable-any :
    (resolve : RoutingTuple → Resolution) (lanes : List RoutingTuple) (lane : RoutingTuple)
    → contains lanes lane ≡ true
    → resolve lane ≢ absent
    → any (λ lane. worth_a_pass (resolve lane)) lanes ≡ true
unfolding any
Reachable-any resolve [] lane within there = ground arith
Reachable-any resolve (x ∷ lanes) lane within there =
    ground (arith, Reachable-any resolve lanes lane)

not-is_empty :
    (lanes : List RoutingTuple) (a : RoutingTuple)
    → contains lanes a ≡ true
    → is_empty lanes ≡ false
not-is_empty [] a h = ground arith
not-is_empty (x ∷ lanes) a h = refl

contains-frozenset :
    (lanes : List RoutingTuple) (a : RoutingTuple) → contains (frozenset lanes) a ≡ contains lanes a
contains-frozenset lanes a = contains-union [] lanes a

-- The lanes that the pass could not drive, as the latch holds them.
gate-frozenset :
    (resolve : RoutingTuple → Resolution) (first : RoutingTuple) (rest : List RoutingTuple)
    (l : Latch)
    → l.deferred_lanes ≡ frozenset (first ∷ rest)
    → l.deferred_spent ≡ false
    → l.deferred_gated ≡ true
    → (deferred_pass_can_make_progress resolve l ≡ true) ↔ Reachable resolve (first ∷ rest)
unfolding deferred_pass_can_make_progress
gate-frozenset resolve first rest l held unspent gated =
    let occupied : is_empty (frozenset (first ∷ rest)) ≡ false =
      not-is_empty (frozenset (first ∷ rest)) first
        (ground (arith, contains-frozenset (first ∷ rest) first)) in
    (
      λ open_gate.
          let (lane, within, there) =
            any-Reachable resolve (frozenset (first ∷ rest)) (ground arith) in
          (lane, ground (arith, contains-frozenset (first ∷ rest) lane), there),
      λ (lane, within, there). ground (
        arith,
        contains-frozenset (first ∷ rest) lane,
        Reachable-any resolve (frozenset (first ∷ rest)) lane,
      ),
    )

-- After a deferred pass that put the latch back, with the deferred budget not spent, the gate
-- opens exactly when one of the lanes that the pass could not drive answers.
pub gate-note_deferred_pass :
    (resolve : RoutingTuple → Resolution) (first : RoutingTuple) (rest : List RoutingTuple)
    (progress : Bool) (l : Latch)
    → l.started ≡ true
    → l.deferred_spent ≡ false
    → (note_deferred_pass (first ∷ rest) progress l).started ≡ false
    → (deferred_pass_can_make_progress resolve (note_deferred_pass (first ∷ rest) progress l)
        ≡ true)
      ↔ Reachable resolve (first ∷ rest)
unfolding note_deferred_pass
gate-note_deferred_pass resolve first rest progress l claimed unspent back =
    gate-frozenset resolve first rest (note_deferred_pass (first ∷ rest) progress l) (ground arith)
      (ground arith) (ground arith)
