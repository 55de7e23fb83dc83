-- ===== src/Sources/Invariant.antt =====
-- The shape of the registry, and its operations in any order.
use hermes_drop.Base.{
  ℕ, ◌≤◌, ◌≡◌, refl, inl, inr, Bool, Option, none, some, List, [], ◌∷◌, arith, Eq, option_eq,
  string_eq, nat_eq, Bool-cases, Option-cases, length,
}
use hermes_drop.Base.{Text, text_eq, strip}
use hermes_drop.Base.Dict
use hermes_drop.Base.Dict.{Dict, NodupKeys, erase-NodupKeys, length-erase-le, lookup-erase}
use hermes_drop.Routing.{RoutingTuple, routing_eq}
use hermes_drop.Sources.{
  Source, SourceEntry, SessionEnv, Registry, new_registry, routing_tuple_for_source, move_to_end,
  store, keep_entries, purge, drop, put, by_routing_tuple, by_session_key, forget_routing_tuple,
  clear, expired, key_of_call, is_blank,
}
use hermes_drop.Sources.Index.{
  EveryEntry, EveryEntry-store, EveryEntry-keep, EveryEntry-move_to_end, EveryEntry-erase,
  store-NodupKeys, length-store-le, keep_entries-NodupKeys, length-keep_entries-le,
  move_to_end-NodupKeys, length-move_to_end-le,
}

-- An entry stands under the routing tuple of its source, and under its session key.
abbrev pub OfLane : RoutingTuple → SourceEntry → Type 0
OfLane key entry = routing_tuple_for_source entry.source ≡ key

abbrev pub OfKey : Text → SourceEntry → Type 0
OfKey key entry = entry.session_key ≡ key

pub record IsIndex {K : Type 0} ⦃e : Eq K⦄ (P : K → SourceEntry → Type 0) (m : ℕ)
    (d : Dict K SourceEntry) : Type 0 where
  pub distinct : NodupKeys d
  pub bounded : length d ≤ m
  pub placed : EveryEntry P d

module _ {K : Type 0} ⦃e : Eq K⦄ {P : K → SourceEntry → Type 0} where
  store-IsIndex :
      (m : ℕ) (k : K) (x : SourceEntry) (d : Dict K SourceEntry)
      → IsIndex P m d
      → P k x
      → IsIndex P m (store m k x d)
  store-IsIndex m k x d i new = record {
    distinct = store-NodupKeys m k x d i.distinct;
    bounded = length-store-le m k x d;
    placed = EveryEntry-store P m k x d i.placed new;
  }

  keep_entries-IsIndex :
      (m : ℕ) (p : SourceEntry → Bool) (d : Dict K SourceEntry)
      → IsIndex P m d
      → IsIndex P m (keep_entries p d)
  keep_entries-IsIndex m p d i = record {
    distinct = keep_entries-NodupKeys p d i.distinct;
    bounded = omega (arith, length-keep_entries-le p d, i.bounded);
    placed = EveryEntry-keep P p d i.placed;
  }

  move_to_end-IsIndex :
      (m : ℕ) (k : K) (d : Dict K SourceEntry) → IsIndex P m d → IsIndex P m (move_to_end k d)
  move_to_end-IsIndex m k d i = record {
    distinct = move_to_end-NodupKeys k d i.distinct;
    bounded = omega (arith, length-move_to_end-le k d, i.bounded);
    placed = EveryEntry-move_to_end P k d i.placed;
  }

  erase-IsIndex :
      (m : ℕ) (k : K) (d : Dict K SourceEntry) → IsIndex P m d → IsIndex P m (Dict.erase k d)
  erase-IsIndex m k d i = record {
    distinct = erase-NodupKeys k d i.distinct;
    bounded = omega (arith, length-erase-le k d, i.bounded);
    placed = EveryEntry-erase P k d i.placed;
  }

  empty-IsIndex : (m : ℕ) → IsIndex P m []
  empty-IsIndex m = record { distinct = tt; bounded = omega arith; placed = tt }

-- Both indices have distinct keys, hold `maxlen` entries at most, and each entry in its place.
pub record IsRegistry (r : Registry) : Type 0 where
  pub lanes : IsIndex OfLane r.maxlen r.by_tuple
  pub session_keys : IsIndex OfKey r.maxlen r.by_key

pub new_registry-IsRegistry : (maxlen ttl : ℕ) → IsRegistry (new_registry maxlen ttl)
new_registry-IsRegistry maxlen ttl = record {
  lanes = empty-IsIndex maxlen;
  session_keys = empty-IsIndex maxlen;
}

purge-IsRegistry : (now : ℕ) (r : Registry) → IsRegistry r → IsRegistry (purge now r)
unfolding purge
purge-IsRegistry now r v = record {
  lanes = keep_entries-IsIndex r.maxlen _ r.by_tuple v.lanes;
  session_keys = keep_entries-IsIndex r.maxlen _ r.by_key v.session_keys;
}

drop-IsRegistry : (entry : SourceEntry) (r : Registry) → IsRegistry r → IsRegistry (drop entry r)
unfolding drop
drop-IsRegistry entry r v = record {
  lanes = keep_entries-IsIndex r.maxlen _ r.by_tuple v.lanes;
  session_keys = keep_entries-IsIndex r.maxlen _ r.by_key v.session_keys;
}

maxlen-purge : (now : ℕ) (r : Registry) → (purge now r).maxlen ≡ r.maxlen
unfolding purge
maxlen-purge now r = refl

put-IsRegistry :
    (source : Source) (gateway : Option ℕ) (key : Option Text) (env : SessionEnv) (now : ℕ)
    (r : Registry)
    → IsRegistry r
    → IsRegistry (put source gateway key env now r).1
unfolding put purge
put-IsRegistry source gateway key env now r v =
    let purged = purge-IsRegistry now r v in
    elim (Bool-cases (is_blank (key_of_call key env))) [
      | inl blank ↦ rw blank (record {
        lanes = store-IsIndex r.maxlen _ _ _ purged.lanes refl;
        session_keys = purged.session_keys;
      })
      | inr named ↦ rw named (record {
        lanes = store-IsIndex r.maxlen _ _ _ purged.lanes refl;
        session_keys = store-IsIndex r.maxlen _ _ _ purged.session_keys refl;
      })
    ]

pub data Op : Type 0 where
  puts : Source → Option ℕ → Option Text → SessionEnv → ℕ → Op
  asks_lane : Option RoutingTuple → ℕ → Op
  asks_key : Text → ℕ → Op
  forgets : RoutingTuple → Op
  clears : Op

pub apply : Op → Registry → Registry
apply (puts source gateway key env now) r = (put source gateway key env now r).1
apply (asks_lane key now) r = (by_routing_tuple key now r).1
apply (asks_key key now) r = (by_session_key key now r).1
apply (forgets key) r = forget_routing_tuple key r
apply clears r = clear r

pub run : List Op → Registry → Registry
run [] r = r
run (op ∷ ops) r = run ops (apply op r)

by_routing_tuple-IsRegistry :
    (key : RoutingTuple) (now : ℕ) (r : Registry)
    → IsRegistry r
    → IsRegistry (by_routing_tuple (some key) now r).1
unfolding by_routing_tuple
by_routing_tuple-IsRegistry key now r v = elim (Option-cases (Dict.lookup key r.by_tuple)) [
  | inl absent ↦ rw (absent, by_routing_tuple) v
  | inr (entry, found) ↦ elim (Bool-cases (expired r.ttl_seconds now entry)) [
    | inl old ↦ rw (found, by_routing_tuple, old) (drop-IsRegistry entry r v)
    | inr fresh ↦
        rw (found, by_routing_tuple, fresh)
          (record {
            lanes = move_to_end-IsIndex r.maxlen key r.by_tuple v.lanes;
            session_keys = v.session_keys;
          })
  ]
]

by_session_key-IsRegistry :
    (c : ℕ) (cs : Text) (now : ℕ) (r : Registry)
    → IsRegistry r
    → IsRegistry (by_session_key (c ∷ cs) now r).1
unfolding by_session_key
by_session_key-IsRegistry c cs now r v =
    let key = strip (c ∷ cs) in
    elim (Option-cases (Dict.lookup key r.by_key)) [
      | inl absent ↦ rw (absent, by_session_key) v
      | inr (entry, found) ↦ elim (Bool-cases (expired r.ttl_seconds now entry)) [
        | inl old ↦ rw (found, by_session_key, old) (drop-IsRegistry entry r v)
        | inr fresh ↦
            rw (found, by_session_key, fresh)
              (record {
                lanes = v.lanes;
                session_keys = move_to_end-IsIndex r.maxlen key r.by_key v.session_keys;
              })
      ]
    ]

apply-IsRegistry : (op : Op) (r : Registry) → IsRegistry r → IsRegistry (apply op r)
unfolding apply forget_routing_tuple clear by_routing_tuple by_session_key
apply-IsRegistry (puts source gateway key env now) r v =
    put-IsRegistry source gateway key env now r v
apply-IsRegistry (asks_lane none now) r v = v
apply-IsRegistry (asks_lane (some key) now) r v = by_routing_tuple-IsRegistry key now r v
apply-IsRegistry (asks_key [] now) r v = v
apply-IsRegistry (asks_key (c ∷ cs) now) r v = by_session_key-IsRegistry c cs now r v
apply-IsRegistry (forgets key) r v = record {
  lanes = erase-IsIndex r.maxlen key r.by_tuple v.lanes;
  session_keys = v.session_keys;
}
apply-IsRegistry clears r v = record {
  lanes = empty-IsIndex r.maxlen;
  session_keys = empty-IsIndex r.maxlen;
}

-- Whatever is stored, asked for, forgotten and cleared, and in whatever order: a registry that
-- starts so keeps distinct keys, at most `maxlen` entries in each index, every entry under the
-- routing tuple of its own source and under its own session key.
pub run-IsRegistry : (ops : List Op) (r : Registry) → IsRegistry r → IsRegistry (run ops r)
unfolding run
run-IsRegistry [] r v = v
run-IsRegistry (op ∷ ops) r v = run-IsRegistry ops (apply op r) (apply-IsRegistry op r v)
