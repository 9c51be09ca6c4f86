-- ===== src/Reactive/Bind/Laws.antt =====
-- reactive/bind.go: the callback runs once for an event.
use protoconfig.Prelude.{
  ℕ, zero, suc, ◌≡◌, refl, sym, ap, ◌∙◌, true, false, none, some, List, [], ◌∷◌, ◌++◌, length,
  replicate, arith, All,
}
use mathlib.Core.List.{append-nil, append_assoc}
use protoconfig.Prelude.Int64.{Int64}
use protoconfig.Reactive.Values.{Reading, invalid}
use protoconfig.Reactive.Bind.{
  Lru, QueuedUpdate, Binder, set_value, queue_at, fill, put_value, enqueue, on_update, do_resolve,
  resolve, resolve_each, update_each, run_group,
}
use protoconfig.Reactive.Bind.Fills.{
  set_values, IsGone, fill-set_values, length-replicate, fill-replicate,
}

module _ {V : Type 0} where
  module _ (lru : Lru ℕ) where
    -- A binder with a queue in front
    abbrev pub with_queue :
        ℕ
        → lru.Cache
        → QueuedUpdate V
        → List (QueuedUpdate V)
        → List ℕ
        → List (List (Reading V))
        → Binder V lru
    with_queue n c q qs ks called = record {
      count = n;
      queues = c;
      made = q ∷ qs;
      waiting = ks;
      called = called;
    }

    put_value-first :
        (i : ℕ) (v : Reading V) (n : ℕ) (c : lru.Cache) (q : QueuedUpdate V)
        (qs : List (QueuedUpdate V)) (ks : List ℕ) (called : List (List (Reading V)))
        → put_value lru i v (length qs) (with_queue n c q qs ks called)
          ≡ with_queue n c
              (record q { values = set_value i v q.values })
              qs
              (ks ++ length qs ∷ [])
              called
    unfolding put_value
    put_value-first i v n c q qs ks called = ground arith

    -- A goroutine does nothing once the queue is resolved.
    resolve_each-resolved :
        (current : List (Reading V)) (m n : ℕ) (c : lru.Cache) (vs : List (Reading V))
        (qs : List (QueuedUpdate V)) (ks : List ℕ) (called : List (List (Reading V)))
        → resolve_each lru current
            (replicate m (length qs))
            (with_queue n c (record { values = vs; resolved = true }) qs ks called)
          ≡ with_queue n c (record { values = vs; resolved = true }) qs ks called
    unfolding resolve_each resolve
    resolve_each-resolved current zero n c vs qs ks called = refl
    resolve_each-resolved current (suc m) n c vs qs ks called =
        ground (arith, resolve_each-resolved current m n c vs qs ks called)

    -- The goroutines of a queue make one call.
    resolve_each-once :
        (current : List (Reading V)) (m n : ℕ) (c : lru.Cache) (vs : List (Reading V))
        (qs : List (QueuedUpdate V)) (ks : List ℕ) (called : List (List (Reading V)))
        → resolve_each lru current
            (length qs ∷ replicate m (length qs))
            (with_queue n c (record { values = vs; resolved = false }) qs ks called)
          ≡ with_queue n c
              (record { values = fill current vs; resolved = true })
              qs
              ks
              (called ++ fill current vs ∷ [])
    unfolding resolve_each resolve do_resolve
    resolve_each-once current m n c vs qs ks called = ground (
      arith,
      resolve_each-resolved current m n c (fill current vs) qs ks (called ++ fill current vs ∷ []),
    )

    on_update-found :
        (rev : Int64) (i : ℕ) (v : Reading V) (n : ℕ) (c : lru.Cache) (vs : List (Reading V))
        (qs : List (QueuedUpdate V)) (ks : List ℕ) (called : List (List (Reading V)))
        → lru.peek rev c ≡ some (length qs)
        → on_update lru i rev v
            (with_queue n c (record { values = vs; resolved = false }) qs ks called)
          ≡ with_queue n c
              (record { values = set_value i v vs; resolved = false })
              qs
              (ks ++ length qs ∷ [])
              called
    unfolding on_update enqueue
    on_update-found rev i v n c vs qs ks called found =
        ap
          (λ r.
            enqueue lru i v r
              (with_queue n c (record { values = vs; resolved = false }) qs ks called))
          (lru.peek_or_add-found rev (suc (length qs)) (length qs) c found)
        ∙ put_value-first i v n c (record { values = vs; resolved = false }) qs ks called

    on_update-added :
        (rev : Int64) (i : ℕ) (v : Reading V) (b : Binder V lru)
        → lru.peek rev b.queues ≡ none
        → b.waiting ≡ []
        → on_update lru i rev v b
          ≡ with_queue b.count
              (lru.peek_or_add rev (length b.made) b.queues).1
              (record { values = set_value i v (replicate b.count invalid); resolved = false })
              b.made
              (length b.made ∷ [])
              b.called
    unfolding on_update enqueue
    on_update-added rev i v b fresh idle =
        ap (λ o. enqueue lru i v (o, (lru.peek_or_add rev (length b.made) b.queues).1) b)
          (lru.peek_or_add-added rev (length b.made) b.queues fresh).0
        ∙ put_value-first i v b.count (lru.peek_or_add rev (length b.made) b.queues).1
            (record { values = replicate b.count invalid; resolved = false }) b.made b.waiting
            b.called
        ∙ ap
            (λ ws.
              with_queue b.count (lru.peek_or_add rev (length b.made) b.queues).1
                (record { values = set_value i v (replicate b.count invalid); resolved = false })
                b.made (ws ++ length b.made ∷ []) b.called)
            idle

    -- Each update of an event, but the first, finds the queue.
    update_each-found :
        (rev : Int64) (us : List (ℕ × Reading V)) (n : ℕ) (c : lru.Cache) (vs : List (Reading V))
        (qs : List (QueuedUpdate V)) (ks : List ℕ) (called : List (List (Reading V)))
        → lru.peek rev c ≡ some (length qs)
        → update_each lru rev us
            (with_queue n c (record { values = vs; resolved = false }) qs ks called)
          ≡ with_queue n c
              (record { values = set_values us vs; resolved = false })
              qs
              (ks ++ replicate (length us) (length qs))
              called
    unfolding update_each
    update_each-found rev [] n c vs qs ks called found =
        ap (λ ws. with_queue n c (record { values = vs; resolved = false }) qs ws called)
          (sym (append-nil ks))
    update_each-found rev ((i, v) ∷ us) n c vs qs ks called found =
        ap (update_each lru rev us) (on_update-found rev i v n c vs qs ks called found)
        ∙ update_each-found rev us n c (set_value i v vs) qs (ks ++ length qs ∷ []) called found
        ∙ ap
            (λ ws.
              with_queue n c
                (record { values = set_values us (set_value i v vs); resolved = false }) qs ws
                called)
            (append_assoc ks (length qs ∷ []) (replicate (length us) (length qs)))

    -- After an event of a new revision
    pub run_group-added :
        (rev : Int64) (i : ℕ) (v : Reading V) (us : List (ℕ × Reading V))
        (current : List (Reading V)) (b : Binder V lru)
        → lru.peek rev b.queues ≡ none
        → b.waiting ≡ []
        → let vs = fill current (set_values ((i, v) ∷ us) (replicate b.count invalid)) in
          run_group lru rev ((i, v) ∷ us) current b
          ≡ with_queue b.count
              (lru.peek_or_add rev (length b.made) b.queues).1
              (record { values = vs; resolved = true })
              b.made
              []
              (b.called ++ vs ∷ [])
    unfolding run_group update_each
    run_group-added rev i v us current b fresh idle =
        ap (λ (x : Binder V lru). resolve_each lru current x.waiting (record x { waiting = [] }))
          (ap (update_each lru rev us) (on_update-added rev i v b fresh idle)
            ∙ update_each-found rev us b.count _ _ b.made (length b.made ∷ []) b.called
                (lru.peek_or_add-added rev (length b.made) b.queues fresh).1)
        ∙ resolve_each-once current (length us) b.count _ _ b.made [] b.called

    -- After an event of a new revision, which tells at least one of the values, the callback was run once,
    -- with the values that the event told and the current ones of the others.
    pub run_group-once :
        (rev : Int64) (u : ℕ × Reading V) (us : List (ℕ × Reading V)) (current : List (Reading V))
        (b : Binder V lru)
        → lru.peek rev b.queues ≡ none
        → b.waiting ≡ []
        → length current ≡ b.count
        → All (IsGone current) (u ∷ us)
        → (run_group lru rev (u ∷ us) current b).called
          ≡ b.called ++ set_values (u ∷ us) current ∷ []
    run_group-once rev (i, v) us current b fresh idle same gone =
        ap (λ (x : Binder V lru). x.called) (run_group-added rev i v us current b fresh idle)
        ∙ ap (λ vs. b.called ++ vs ∷ [])
            (fill-set_values ((i, v) ∷ us) current (replicate b.count invalid)
                (same ∙ sym (length-replicate b.count invalid)) gone
              ∙ ap (set_values ((i, v) ∷ us)) (fill-replicate current b.count same))

    pub queue_at-first :
        (q : QueuedUpdate V) (qs : List (QueuedUpdate V)) → queue_at (length qs) (q ∷ qs) ≡ some q
    queue_at-first q qs = ground arith
