-- ===== src/Reconciler/Total.antt =====
-- Whether a pass of drop/reconciler.py returns: its loops, its listings, and the whole.
use hermes_drop.Journal.Sound.{All-keep}
use hermes_drop.Announce.Keeps.{list_unannounced-keeps}
use hermes_drop.Base.{
  contains, ℕ, ◌-◌, ◌≡◌, inl, inr, true, none, List, arith, option_eq, string_eq, nat_eq,
  Bool-cases, ltb, leb, All,
}
use hermes_drop.Base.{Text, text_eq, codes}
use hermes_drop.Base.Exec.{ok, pure, raise, gets, ◌>>=◌, for_each}
use hermes_drop.Routing.{routing_eq}
use hermes_drop.Journal.Entry.{
  drop_id, is_unhashable, key_eq, Entry, state, announced_at, announce_attempts, get,
}
use hermes_drop.Journal.Store.{terminal_unannounced, is_pending, max_announce_attempts, entries}
use hermes_drop.World.{is_unhashable_id, Outside, World, ask, list_entries, list_unannounced}
use hermes_drop.Base.Exec.Keeps.{Keeps, Keeps-gets, Keeps-for_each}
use hermes_drop.Base.Exec.Total.{
  Returns, Whatever, Returns-pure, Returns-gets, Returns-if, Returns-bind, Returns-for_each,
  Returns-then, total_rules,
}
use hermes_drop.Journal.Reads.{IsReadAs, entries-All}
use hermes_drop.World.Changes.{Keeps-ask}
use hermes_drop.Reconciler.Numeric.{IsNumeric, IsNumeric-IsStable}
use hermes_drop.Reconciler.Keeps.{retry_edit-keeps, retry_failed_edits-keeps}
use hermes_drop.Reconciler.Keeps.Pass.{
  read-keeps, number-keeps, reclaim-keeps, sweep-keeps, listed_or-keeps, list_entries-keeps,
}
use hermes_drop.Reconciler.Edits.{retry_wanted, retry_edit, retry_failed_edits, id_of}
use hermes_drop.Reconciler.Pass.{
  is_unclaimed, reclaim, sweep, listed_or, settle, reclaim_grace_seconds,
}
use hermes_drop.Reconciler.Guarded.{
  Returns-read, Numbers, Returns-ask, Returns-number, guarded, listed,
}

module _ (o : Outside) where
  Returns-reclaim :
      (now : ℕ) (e : Entry) → (IsNumeric o) e → Returns (Numbers o) Whatever (reclaim o now e)
  unfolding reclaim
  Returns-reclaim now e n =
      Returns-if (is_unclaimed o e) _ _
        (λ reclaimable.
          Returns-bind _ _
            (number-keeps o (IsReadAs (IsNumeric o)) (IsNumeric-IsStable o) o.int_of
              (get announce_attempts e))
            ((Returns-number o) o.int_of _ n.tries)
            λ tries _.
              Returns-if (leb max_announce_attempts tries) _ _ (λ _. Returns-pure tt tt)
                λ _.
                  Returns-bind _ _
                    (read-keeps o (IsReadAs (IsNumeric o)) (IsNumeric-IsStable o) o.float_of
                      (get announced_at e))
                    ((Returns-read o) o.float_of _ (ground (arith, reclaimable)) n.wake)
                    λ at _.
                      Returns-if (ltb reclaim_grace_seconds (now - at)) _ _ (λ _. (guarded o) _ _)
                        (λ _. Returns-pure tt tt))
        (λ _. Returns-pure tt tt)

  Returns-sweep : (e : Entry) → IsNumeric o e → Returns (Numbers o) Whatever (sweep o e)
  unfolding sweep
  Returns-sweep e n =
      Returns-then (gets (λ (w : World). w.summary)) _ (Keeps-gets (λ (w : World). w.summary))
        (Returns-gets (λ (w : World). w.summary) (λ _ _. tt))
        λ s.
          Returns-if (is_unhashable_id (get drop_id e)) _ _
            (λ bad. absurd (ground (arith, n.names)))
            λ _.
              Returns-if (contains s.announced (id_of e)) _ _ (λ _. Returns-pure tt tt)
                λ _. (guarded o) _ _

  Returns-wanted : (e : Entry) → Returns (Numbers o) Whatever (retry_wanted o e)
  unfolding retry_wanted
  Returns-wanted e = search (total_rules, (guarded o)) depth 10

  Returns-retry :
      (skip : List Text) (e : Entry)
      → IsNumeric o e
      → Returns (Numbers o) Whatever (retry_edit o skip e)
  unfolding retry_edit
  Returns-retry skip e n =
      Returns-if (is_unhashable_id (get drop_id e)) _ _ (λ bad. absurd (ground (arith, n.names)))
        λ _.
          Returns-if (contains skip (id_of e)) _ _ (λ _. Returns-pure tt tt)
            λ _.
              Returns-if (is_unhashable (get state e)) _ _
                (λ bad. absurd (ground (arith, n.settles))) λ _. Returns-wanted e

  listed_here :
      (es : List Entry) (w : World)
      → (list_entries o w).0 ≡ ok es
      → o.listing_works w.questions ≡ true
      → es ≡ entries w.directory
  unfolding list_entries ask gets raise ◌>>=◌
  listed_here es w eq works = ground arith

  listed_entries :
      (w : World) (es : List Entry)
      → (Numbers o) w
      → (list_entries o w).0 ≡ ok es
      → All (IsNumeric o) es
  unfolding list_entries ask gets raise ◌>>=◌
  listed_entries w es h eq = elim (Bool-cases (o.listing_works w.questions)) [
    | inl works ↦ rw (listed_here es w eq works) (entries-All (IsNumeric o) w.directory h)
    | inr broken ↦ absurd (ground arith)
  ]

  unannounced_here :
      (es : List Entry) (w : World)
      → (list_unannounced o none w).0 ≡ ok es
      → es ≡ terminal_unannounced none w.directory
  unfolding list_unannounced ask gets raise pure ◌>>=◌
  unannounced_here es w eq = ground arith

  listed_unannounced :
      (w : World) (es : List Entry)
      → (Numbers o) w
      → (list_unannounced o none w).0 ≡ ok es
      → All (IsNumeric o) es
  unfolding terminal_unannounced
  listed_unannounced w es h eq = rw (unannounced_here es w eq) (
      All-keep (IsNumeric o) (is_pending none) (entries w.directory)
        (entries-All (IsNumeric o) w.directory h))

  retries :
      (skip : List Text) (es : List Entry)
      → All (IsNumeric o) es
      → Returns (Numbers o) Whatever (retry_failed_edits o skip es)
  unfolding retry_failed_edits
  retries skip es h =
      Returns-for_each (retry_edit o skip) es
        (retry_edit-keeps o (IsReadAs (IsNumeric o)) (IsNumeric-IsStable o) skip)
        (Returns-retry skip) h

  reclaims :
      (now : ℕ) (es : List Entry)
      → All (IsNumeric o) es
      → Returns (Numbers o) Whatever (for_each (reclaim o now) es)
  reclaims now es h =
      Returns-for_each (reclaim o now) es
        (reclaim-keeps o (IsReadAs (IsNumeric o)) (IsNumeric-IsStable o) now) (Returns-reclaim now)
        h

  sweeps :
      (es : List Entry)
      → All (IsNumeric o) es
      → Returns (Numbers o) Whatever (for_each (sweep o) es)
  sweeps es h =
      Returns-for_each (sweep o) es (sweep-keeps o (IsReadAs (IsNumeric o)) (IsNumeric-IsStable o))
        Returns-sweep h

  -- The part of the settlement behind its first listing.
  settles : Returns (Numbers o) Whatever (settle o)
  unfolding settle
  settles =
      Returns-bind (listed_or o (codes "journal:entries") (list_entries o)) _
        (listed_or-keeps o (IsReadAs (IsNumeric o)) (IsNumeric-IsStable o) _ _
          (list_entries-keeps o (IsReadAs (IsNumeric o)) (IsNumeric-IsStable o)))
        (listed o (IsNumeric o) _ _ listed_entries)
        λ candidates numeric.
          Returns-then _ _ (Keeps-gets (λ (w : World). w.summary))
            (Returns-gets (λ (w : World). w.summary) (λ _ _. tt))
            λ s.
              Returns-then _ _
                (retry_failed_edits-keeps o (IsReadAs (IsNumeric o)) (IsNumeric-IsStable o) _
                  candidates)
                (retries _ candidates numeric)
                λ _.
                  Returns-then _ _ (Keeps-ask (IsReadAs (IsNumeric o)) o.clock)
                    ((Returns-ask o) o.clock)
                    λ now.
                      Returns-then _ _
                        (Keeps-for_each (reclaim o now) candidates
                          (reclaim-keeps o (IsReadAs (IsNumeric o)) (IsNumeric-IsStable o) now))
                        (reclaims now candidates numeric)
                        λ _.
                          Returns-bind
                            (listed_or o (codes "journal:terminal_unannounced")
                              (list_unannounced o none))
                            (for_each (sweep o))
                            (listed_or-keeps o (IsReadAs (IsNumeric o)) (IsNumeric-IsStable o)
                              (codes "journal:terminal_unannounced") (list_unannounced o none)
                              (list_unannounced-keeps o (IsReadAs (IsNumeric o))
                                (IsNumeric-IsStable o) none))
                            (listed o (IsNumeric o) (codes "journal:terminal_unannounced")
                              (list_unannounced o none) listed_unannounced)
                            λ pending numbers. sweeps pending numbers
