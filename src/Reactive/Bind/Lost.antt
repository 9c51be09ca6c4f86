-- ===== src/Reactive/Bind/Lost.antt =====
-- reactive/bind.go: an event of a revision that was told before.
use protoconfig.Prelude.{ℕ, ◌≡◌, true, some, All}
use protoconfig.Prelude.Int64.{Int64}
use protoconfig.Reactive.Bind.{Lru, QueuedUpdate, Binder, queue_at}

module _ {V : Type 0} where
  module _ (lru : Lru ℕ) where
    -- The place of a queue that the cache has for the revision, and that is resolved.
    HasResolved : Int64 → ℕ → Binder V lru → Type 0
    HasResolved rev k b =
        (lru.peek rev b.queues ≡ some k)
        × ((q : QueuedUpdate V) × (queue_at k b.made ≡ some q) × (q.resolved ≡ true))
        × All (λ w. w ≡ k) b.waiting
