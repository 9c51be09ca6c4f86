-- ===== src/Reactive/Bind.antt =====
-- reactive/bind.go: one callback for several reactive values. Each value calls onUpdate, and a
-- goroutine for each such call waits for the group of the event and then resolves the queue of the
-- revision, once. The queues are pointers: the cache has their places in a list. The least recently
-- used cache of github.com/hashicorp/golang-lru is an interface.
pub mod Fills
pub mod Laws
pub mod Lost
mod Examples
use protoconfig.Prelude.{
  ℕ, zero, suc, ◌+◌, ◌==◌, ◌≡◌, ◌≢◌, Bool, true, false, Option, none, some, List, [], ◌∷◌, ◌++◌,
  length, replicate, if◌then◌else◌,
}
use protoconfig.Prelude.Int64.{Int64}
use protoconfig.Reactive.Values.{Reading, invalid, of_single, of_message}

-- lru.Cache from revisions, with what PeekOrAdd finds and leaves
pub record Lru (Q : Type 0) : Type 1 where
  pub Cache : Type 0
  pub new : Cache
  pub peek : Int64 → Cache → Option Q
  pub peek_or_add : Int64 → Q → Cache → Option Q × Cache
  pub peek-new : (rev : Int64) → peek rev new ≡ none
  pub peek_or_add-found :
      (rev : Int64) (q p : Q) (c : Cache) → peek rev c ≡ some p → peek_or_add rev q c ≡ (some p, c)
  pub peek_or_add-added :
      (rev : Int64) (q : Q) (c : Cache)
      → peek rev c ≡ none
      → ((peek_or_add rev q c).0 ≡ none) × (peek rev (peek_or_add rev q c).1 ≡ some q)

-- queuedUpdate
pub record QueuedUpdate (V : Type 0) : Type 0 where
  pub values : List (Reading V)
  pub resolved : Bool

pub record Binder (V : Type 0) (lru : Lru ℕ) : Type 0 where
  -- The number of reactive values
  pub count : ℕ
  pub queues : lru.Cache
  -- The queues that were made, the newest first; a place counts from the oldest.
  pub made : List (QueuedUpdate V)
  -- The goroutines that wait, by the queue that each will resolve
  pub waiting : List ℕ
  -- What the callback was called with, in order
  pub called : List (List (Reading V))

module _ {V : Type 0} where
  -- values[i] = v
  abbrev pub set_value : ℕ → Reading V → List (Reading V) → List (Reading V)
  set_value i v [] = []
  set_value zero v (x ∷ xs) = v ∷ xs
  set_value (suc i) v (x ∷ xs) = x ∷ set_value i v xs

  abbrev pub queue_at : ℕ → List (QueuedUpdate V) → Option (QueuedUpdate V)
  queue_at k [] = none
  queue_at k (q ∷ qs) = if k == length qs then some q else queue_at k qs

  abbrev pub set_queue : ℕ → QueuedUpdate V → List (QueuedUpdate V) → List (QueuedUpdate V)
  set_queue k q [] = []
  set_queue k q (p ∷ ps) = if k == length ps then q ∷ ps else p ∷ set_queue k q ps

  abbrev pub filled : Reading V → Reading V → Reading V
  filled c invalid = c
  filled c (of_single o) = of_single o
  filled c (of_message m) = of_message m

  -- The values that are invalid are read from the reactive values.
  abbrev pub fill : List (Reading V) → List (Reading V) → List (Reading V)
  fill current [] = []
  fill [] (v ∷ vs) = v ∷ vs
  fill (c ∷ cs) (v ∷ vs) = filled c v ∷ fill cs vs

  module _ (lru : Lru ℕ) where
    unfoldable pub new_binder : ℕ → Binder V lru
    new_binder count = record {
      count = count;
      queues = lru.new;
      made = [];
      waiting = [];
      called = [];
    }

    pub put_value : ℕ → Reading V → ℕ → Binder V lru → Binder V lru
    put_value i v k b = elim (queue_at k b.made) [
      | none ↦ b
      | some q ↦ record b {
        made = set_queue k (record q { values = set_value i v q.values }) b.made;
        waiting = b.waiting ++ k ∷ [];
      }
    ]

    -- What follows PeekOrAdd: a new queue has room for all values.
    pub enqueue : ℕ → Reading V → Option ℕ × lru.Cache → Binder V lru → Binder V lru
    unfolding put_value
    enqueue i v (some k, queues) b = put_value i v k (record b { queues = queues })
    enqueue i v (none, queues) b = put_value i v (length b.made) (record b {
      queues = queues;
      made = record { values = replicate b.count invalid; resolved = false } ∷ b.made;
    })

    -- A queue of the revision, a new one if there is none, gets the value.
    pub on_update : ℕ → Int64 → Reading V → Binder V lru → Binder V lru
    unfolding enqueue
    on_update i rev v b = enqueue i v (lru.peek_or_add rev (length b.made) b.queues) b

    pub do_resolve : List (Reading V) → ℕ → QueuedUpdate V → Binder V lru → Binder V lru
    do_resolve current k q b = record b {
      made = set_queue k (record { values = fill current q.values; resolved = true }) b.made;
      called = b.called ++ fill current q.values ∷ [];
    }

    -- resolve.Do, by a goroutine whose group is closed
    pub resolve : List (Reading V) → ℕ → Binder V lru → Binder V lru
    unfolding do_resolve
    resolve current k b = elim (queue_at k b.made) [
      | none ↦ b
      | some q ↦ if q.resolved then b else do_resolve current k q b
    ]

    pub resolve_each : List (Reading V) → List ℕ → Binder V lru → Binder V lru
    unfolding resolve
    resolve_each current [] b = b
    resolve_each current (k ∷ ks) b = resolve_each current ks (resolve current k b)

    -- An event whose group tells some of the values, and then its goroutines.
    pub update_each : Int64 → List (ℕ × Reading V) → Binder V lru → Binder V lru
    update_each rev [] b = b
    update_each rev ((i, v) ∷ us) b = update_each rev us (on_update i rev v b)

    unfoldable pub run_group :
        Int64 → List (ℕ × Reading V) → List (Reading V) → Binder V lru → Binder V lru
    unfolding update_each resolve_each
    run_group rev updates current b =
        let told = update_each rev updates b in
        resolve_each current told.waiting (record told { waiting = [] })
