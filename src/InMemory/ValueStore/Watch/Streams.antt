-- ===== src/InMemory/ValueStore/Watch/Streams.antt =====
-- What a watcher of storage/inmemory/value_store.go sees: the replay, then each later write.
use mathlib.Core.List.{append-nil, append_assoc}
use native.Mathlib.Numerals.{add-one}
use protoconfig.Prelude.{
  if◌then◌else◌, ℕ, zero, suc, ◌+◌, ◌-◌, ◌%◌, ◌^◌, ◌≤◌, ◌<◌, ◌≡◌, refl, sym, ap, ◌∙◌, true, Option,
  none, some, List, [], ◌∷◌, ◌++◌, String, get_elem?, length, drop, arith,
}
use protoconfig.Prelude.Int64.{Int64, gtb64, gtb64_small}
use protoconfig.Storage.Errors.{err_not_found, err, ok}
use protoconfig.Storage.Options.{WatchOpt, apply_watch, no_watch_options}
use protoconfig.Storage.Stores.{KeyRevision, WatchEvent, event_put, event_delete}
use protoconfig.InMemory.Ring.{cells, before_next}
use protoconfig.InMemory.ValueStore.{Element, ValueStore, new_value_store, seek, live_revision}
use protoconfig.InMemory.ValueStore.Log.{Entry, Log, capacity, element, window, entry_within}
use protoconfig.InMemory.ValueStore.Histories.{
  walked, walk, seek-window, entry_within-le, entry_within-lt, entry_within-pos,
}
use protoconfig.InMemory.ValueStore.Refinement.{Refines}
use protoconfig.InMemory.ValueStore.Watch.{
  start, node_value, emit, after, replay, before, rounds, initial_events, watch, watch_with,
  register,
}

drop-nil : {B : Type 0} (k : ℕ) → drop {A = B} k [] ≡ []
drop-nil zero = refl
drop-nil (suc k) = refl

drop-suc : {B : Type 0} (k : ℕ) (xs : List B) → drop (suc k) xs ≡ drop 1 (drop k xs)
drop-suc zero xs = refl
drop-suc (suc k) [] = refl
drop-suc (suc k) (x ∷ xs) = drop-suc k xs

drop-cons :
    {B : Type 0} (k : ℕ) (xs : List B)
    → k < length xs
    → (x : B) × (ys : List B) × (drop k xs ≡ x ∷ ys)
drop-cons k [] h = absurd (omega arith)
drop-cons zero (x ∷ xs) h = (x, xs, refl)
drop-cons (suc k) (x ∷ xs) h = drop-cons k xs (omega arith)

module _ {A : Type 0} where
  -- A value with its place in the log.
  abbrev at_revision : Entry A → A → Int64 → KeyRevision A
  at_revision e v r = record { key = ""; value = v; revision = r; timestamp = e.timestamp }

  -- The current value of a log.
  abbrev pub current_of : Log A → Option (KeyRevision A)
  current_of [] = none
  current_of (e ∷ l) = elim e.value [ none ↦ none | some v ↦ some (at_revision e v (length l + 1)) ]

  -- The event of the latest write of a log: its value, and the value before it.
  abbrev pub latest_event : Log A → List (WatchEvent A)
  latest_event [] = []
  latest_event (e ∷ l) = elim e.value [
    | none ↦ record { event_type = event_delete; current = none; previous = current_of l } ∷ []
    | some v ↦
        record {
          event_type = event_put;
          current = some (at_revision e v (length l + 1));
          previous = current_of l;
        }
        ∷ []
  ]

  -- The events of the newest n writes, the oldest first.
  unfoldable pub events : ℕ → Log A → List (WatchEvent A)
  events zero l = []
  events (suc n) l = latest_event (drop n l) ++ events n l

  pub events-suc :
      (n : ℕ) (e : Entry A) (l : Log A)
      → events (suc n) (e ∷ l) ≡ events n l ++ latest_event (e ∷ l)
  unfolding events
  events-suc zero e l = append-nil (latest_event (e ∷ l))
  events-suc (suc n) e l =
      ap (◌++◌ (latest_event (drop n l))) (events-suc n e l)
      ∙ sym (append_assoc (latest_event (drop n l)) (events n l) (latest_event (e ∷ l)))

  abbrev node_of : A → Log A → Option (Element A)
  node_of z [] = none
  node_of z (e ∷ l) = some (element z e (length l + 1))

  get_elem?-window :
      (z : A) (n k : ℕ) (l : Log A)
      → k < n
      → node_value (get_elem? (window z n l) k) ≡ node_of z (drop k l)
  unfolding window
  get_elem?-window z zero k l h = absurd (omega arith)
  get_elem?-window z (suc n) zero [] h = refl
  get_elem?-window z (suc n) zero (e ∷ l) h = refl
  get_elem?-window z (suc n) (suc k) [] h =
      get_elem?-window z n k [] (omega arith) ∙ ap (node_of z) (drop-nil k)
  get_elem?-window z (suc n) (suc k) (e ∷ l) h = get_elem?-window z n k l (omega arith)

  -- One round of the replay writes the event of its node.
  emit-node_of :
      (z : A) (l : Log A)
      → emit true (λ x. x) (node_of z l) (current_of (drop 1 l)) ≡ latest_event l
  unfolding emit
  emit-node_of z [] = refl
  emit-node_of z (e ∷ []) = ground arith
  emit-node_of z (e ∷ f ∷ l) = ground arith

  after-node_of :
      (z : A) (e : Entry A) (l : Log A) (p : Option (KeyRevision A))
      → after (node_of z (e ∷ l)) p ≡ current_of (e ∷ l)
  unfolding after
  after-node_of z e l p = ground arith

  live_revision-node_of : (z : A) (l : Log A) → live_revision (λ x. x) (node_of z l) ≡ current_of l
  live_revision-node_of z [] = refl
  live_revision-node_of z (e ∷ l) = ground arith

  emit-drop :
      (z : A) (n m : ℕ) (l : Log A)
      → m < n
      → emit true (λ x. x) (node_value (get_elem? (window z n l) m)) (current_of (drop (suc m) l))
        ≡ latest_event (drop m l)
  emit-drop z n m l h =
      ap (λ o. emit true (λ x. x) o (current_of (drop (suc m) l))) (get_elem?-window z n m l h)
      ∙ ap (λ t. emit true (λ x. x) (node_of z (drop m l)) (current_of t)) (drop-suc m l)
      ∙ emit-node_of z (drop m l)

  after-drop :
      (z : A) (n m : ℕ) (l : Log A) (p : Option (KeyRevision A))
      → m < n
      → m < length l
      → after (node_value (get_elem? (window z n l) m)) p ≡ current_of (drop m l)
  after-drop z n m l p h q =
      let (e, l', at) = drop-cons m l q in
      ap (λ o. after o p) (get_elem?-window z n m l h)
      ∙ ap (λ t. after (node_of z t) p) at
      ∙ after-node_of z e l' p
      ∙ ap current_of (sym at)

  replay-window :
      (z : A) (n m : ℕ) (l : Log A)
      → m ≤ n
      → m ≤ length l
      → replay true (λ x. x) (window z n l) m (current_of (drop m l)) ≡ events m l
  unfolding replay events
  replay-window z n zero l h q = refl
  replay-window z n (suc m) l h q =
      rw
        (
          emit-drop z n m l (omega arith),
          after-drop z n m l (current_of (drop (suc m) l)) (omega arith) (omega arith),
        )
        (ap (◌++◌ (latest_event (drop m l))) (replay-window z n m l (omega arith) (omega arith)))

  length-window : (z : A) (n : ℕ) (l : Log A) → length (window z n l) ≡ n
  unfolding window
  length-window z zero l = refl
  length-window z (suc n) [] = ap suc (length-window z n [])
  length-window z (suc n) (e ∷ l) = ap suc (length-window z n l)

  before-window :
      (z : A) (current : ℕ) (l : Log A)
      → current + 1 < capacity
      → before (λ x. x) (window z capacity l) current ≡ current_of (drop (current + 1) l)
  unfolding before
  before-window z current l h =
      ap (λ k. live_revision (λ x. x) (node_value (get_elem? (window z capacity l) k))) place
      ∙ ap (live_revision (λ x. x)) (get_elem?-window z capacity (current + 1) l h)
      ∙ live_revision-node_of z (drop (current + 1) l)
    where
      place : (current + 1) % length (window z capacity l) ≡ current + 1
      place = rw (length-window z capacity l) (omega arith)

  rounds-window :
      (z : A) (current : ℕ) (l : Log A)
      → current + 1 < capacity
      → rounds (window z capacity l) current ≡ suc current
  rounds-window z current l h = ground (arith, length-window z capacity l)

  initial_events-window :
      (l : Log A) (s : ValueStore A) (r : Int64) (current : ℕ)
      → Refines l s
      → s.clone_func ≡ (λ x. x)
      → gtb64 r 0 ≡ true
      → current + 1 < capacity
      → current < length l
      → initial_events (some r) current s ≡ events (suc current) l
  unfolding initial_events
  initial_events-window l s r current held same positive near used =
      ap
        (λ b.
          replay b s.clone_func (cells s.values) (rounds (cells s.values) current)
            (before s.clone_func (cells s.values) current))
        positive
      ∙ ap
          (λ f.
            replay true f (cells s.values) (rounds (cells s.values) current)
              (before f (cells s.values) current))
          same
      ∙ ap (λ ns. replay true (λ x. x) ns (rounds ns current) (before (λ x. x) ns current))
          held.nodes
      ∙ rw (rounds-window z current l near, before-window z current l near, add-one current)
          (replay-window z capacity (suc current) l (omega arith) (omega arith))
    where
      z : A
      z = s.zero_value

  start-at :
      (l : Log A) (s : ValueStore A) (r : Int64) (e : Entry A) (v : A)
      → Refines l s
      → gtb64 r 0 ≡ true
      → entry_within walked l r ≡ some e
      → e.value ≡ some v
      → start (some r) s ≡ ok (length l - r)
  unfolding start
  start-at l s r e v held positive h q = rw positive (walked_to ∙ ap ok (omega arith))
    where
      walked_to : seek r (before_next s.values) 0 ≡ ok (0 + (length l - r))
      walked_to =
          ap (λ ns. seek r ns 0) (walk l s held) ∙ seek-window s.zero_value walked l r e v 0 h q

  -- A watch from a revision whose value is retained first gets the events from that revision on.
  pub watch-at :
      (l : Log A) (s : ValueStore A) (id : String) (opts : List WatchOpt) (r : Int64) (e : Entry A)
      (v : A)
      → Refines l s
      → s.clone_func ≡ (λ x. x)
      → (apply_watch no_watch_options opts).revision ≡ some r
      → r < 2 ^ 63
      → entry_within walked l r ≡ some e
      → e.value ≡ some v
      → watch id opts s ≡ (ok (events (length l + 1 - r) l), register id s)
  unfolding watch
  watch-at l s id opts r e v held same at asked h q =
      rw (began, watch_with) (ap (λ evs. (ok evs, register id s)) first)
    where
      positive : gtb64 r 0 ≡ true
      positive = ground (arith, gtb64_small r 0 asked, entry_within-pos walked l r e h)

      began : start (apply_watch no_watch_options opts).revision s ≡ ok (length l - r)
      began = ap (λ a. start a s) at ∙ start-at l s r e v held positive h q

      first :
          initial_events (apply_watch no_watch_options opts).revision (length l - r) s
          ≡ events (length l + 1 - r) l
      first =
          ap (λ a. initial_events a (length l - r) s) at
          ∙ initial_events-window l s r (length l - r) held same positive
              (omega (arith, entry_within-lt walked l r e h, entry_within-pos walked l r e h))
              (omega (arith, entry_within-le walked l r e h, entry_within-pos walked l r e h))
          ∙ ap (λ n. events n l) (omega (arith, entry_within-le walked l r e h))

  -- A watch from a positive revision refuses a store without writes.
  pub watch_unused :
      (clone : A → A) (z : A) (id : String) (opts : List WatchOpt) (r : Int64)
      → (apply_watch no_watch_options opts).revision ≡ some r
      → gtb64 r 0 ≡ true
      → watch id opts (new_value_store clone z) ≡ (err err_not_found, new_value_store clone z)
  unfolding watch new_value_store
  watch_unused clone z id opts r at positive = rw (began, watch_with)
    where
      began :
          start (apply_watch no_watch_options opts).revision (new_value_store clone z)
          ≡ err err_not_found
      began =
          ap (λ a. start a (new_value_store clone z)) at
          ∙ ap (λ b. if b then err err_not_found else ok 0) positive
