-- ===== src/InMemory/ValueStore/Watch.antt =====
-- Watch of storage/inmemory/value_store.go: the events that it writes before it returns, and the
-- listener that it registers.
pub mod Streams
pub mod Delivery
use protoconfig.Prelude.{
  ℕ, zero, suc, ◌+◌, ◌-◌, ◌%◌, Bool, true, false, Option, none, some, List, [], ◌∷◌, ◌++◌, String,
  ◌==◌, if◌then◌else◌, get_elem?, length,
}
use protoconfig.Prelude.Int64.{Int64, gtb64}
use protoconfig.Storage.Errors.{Result, ok, err, panic, ◌>>=◌}
use protoconfig.Storage.Options.{WatchOptions, WatchOpt, apply_watch, no_watch_options}
use protoconfig.Storage.Stores.{KeyRevision, WatchEvent, event_put, event_delete}
use protoconfig.InMemory.Ring.{cells, before_next}
use protoconfig.InMemory.ValueStore.{
  Element, Watcher, ValueStore, seek, key_revision, live_revision,
}

-- A deletion is replayed unless the watch starts at the current value.
abbrev sends_deletions : Option Int64 → Bool
sends_deletions none = true
sends_deletions (some r) = gtb64 r 0

module _ {ℓ} {A : Type ℓ} where
  -- The node that the replay starts from, from s.values back; s.values.Next() is the last one.
  start : Option Int64 → ValueStore A → Result ℕ
  unfolding seek
  start none s = ok (length (cells s.values) - 1)
  start (some r) s = if gtb64 r 0 then seek r (before_next s.values) 0 else ok 0

  -- The value of a node, if the pointer is in the ring.
  abbrev node_value : Option (Option (Element A)) → Option (Element A)
  node_value none = none
  node_value (some o) = o

  -- What one round of the walk forward writes to the channel,
  emit : Bool → (A → A) → Option (Element A) → Option (KeyRevision A) → List (WatchEvent A)
  emit deletions clone none previous = []
  emit deletions clone (some e) previous =
      if e.deleted
      then (if deletions
          then record { event_type = event_delete; current = none; previous = previous } ∷ []
          else [])
      else record {
        event_type = event_put;
        current = some (key_revision clone e);
        previous = previous;
      }
        ∷ []

  -- and the previous value that it leaves for the next round.
  after : Option (Element A) → Option (KeyRevision A) → Option (KeyRevision A)
  after none previous = previous
  after (some e) previous = live_revision (λ x. x) (some e)

  -- The walk forward over the nodes at n - 1, ..., 0.
  replay :
      Bool → (A → A) → List (Option (Element A)) → ℕ → Option (KeyRevision A) → List (WatchEvent A)
  unfolding emit after
  replay deletions clone nodes zero previous = []
  replay deletions clone nodes (suc n) previous =
      emit deletions clone (node_value (get_elem? nodes n)) previous
      ++ replay deletions clone nodes n (after (node_value (get_elem? nodes n)) previous)

  -- current.Prev().Value, as the previous value
  before : (A → A) → List (Option (Element A)) → ℕ → Option (KeyRevision A)
  before clone nodes current =
      live_revision clone (node_value (get_elem? nodes ((current + 1) % length nodes)))

  -- The rounds of the walk forward: none if it starts at s.values.Next().
  abbrev rounds : List (Option (Element A)) → ℕ → ℕ
  rounds nodes current = if current + 1 == length nodes then 0 else current + 1

  initial_events : Option Int64 → ℕ → ValueStore A → List (WatchEvent A)
  unfolding replay before
  initial_events requested current s =
      replay (sends_deletions requested) s.clone_func (cells s.values)
        (rounds (cells s.values) current) (before s.clone_func (cells s.values) current)

  -- s.watches[id] = callback
  abbrev pub register : String → ValueStore A → ValueStore A
  register id s = record s { watches = record { id = id; received = [] } ∷ s.watches }

  watch_with : String → WatchOptions → ValueStore A → Result (List (WatchEvent A)) × ValueStore A
  unfolding start initial_events
  watch_with id options s = elim (start options.revision s) [
    | ok current ↦ (ok (initial_events options.revision current s), register id s)
    | err e ↦ (err e, s)
    | panic ↦ (panic, s)
  ]

  -- The id is the one that uuid.NewString() gives.
  unfoldable pub watch :
      String → List WatchOpt → ValueStore A → Result (List (WatchEvent A)) × ValueStore A
  unfolding watch_with
  watch id opts s = watch_with id (apply_watch no_watch_options opts) s
