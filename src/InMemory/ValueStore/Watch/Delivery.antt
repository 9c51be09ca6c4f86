-- ===== src/InMemory/ValueStore/Watch/Delivery.antt =====
-- Each write of storage/inmemory/value_store.go reaches every listener, once and in order.
use mathlib.Core.List.{append-nil, append_assoc}
use protoconfig.Prelude.{
  ℕ, suc, ◌+◌, ◌-◌, ◌^◌, ◌≤◌, ◌<◌, ◌≡◌, refl, sym, ap, ◌∙◌, ◌⊎◌, inl, inr, none, some, List, [],
  ◌∷◌, ◌++◌, String, length, Option-cases, Bool-cases, arith,
}
use protoconfig.Prelude.Int64.{Int64, inc64, inc64_small}
use protoconfig.Storage.Errors.{Result, ok}
use protoconfig.Storage.Options.{
  WatchOpt, apply_watch, no_watch_options, apply_put, no_put_options, apply_delete,
  no_delete_options,
}
use protoconfig.Storage.Stores.{WatchEvent, event_put, event_delete}
use protoconfig.InMemory.ValueStore.{
  Watcher, ValueStore, put_commit, put_element, delete_commit, notify, put, delete, key_revision,
  live_revision,
}
use protoconfig.InMemory.ValueStore.Log.{
  Entry, Log, entry_within, element, window, log_put, log_delete, put_allowed, delete_error,
  next_revision,
}
use protoconfig.InMemory.ValueStore.Histories.{walked, entry_within-le}
use protoconfig.InMemory.ValueStore.Refinement.{
  Refines, put-state, delete-state, delete-state_nil, delete_error-nil, delete_error-value,
}
use protoconfig.InMemory.ValueStore.Runs.{
  Call, puts, deletes, step, run, log_step, log_run, step-Refines, clone_func-step,
  le-length-log_run, length-log_step-le,
}
use protoconfig.InMemory.ValueStore.Watch.{watch, register}
use protoconfig.InMemory.ValueStore.Watch.Streams.{
  current_of, latest_event, events, events-suc, watch-at,
}

module _ {A : Type 0} where
  -- Every listener gets the events after what it has had.
  abbrev pub deliver : List (WatchEvent A) → List (Watcher A) → List (Watcher A)
  deliver evs [] = []
  deliver evs (w ∷ ws) = record w { received = w.received ++ evs } ∷ deliver evs ws

  deliver-nil : (ws : List (Watcher A)) → deliver [] ws ≡ ws
  deliver-nil [] = refl
  deliver-nil (w ∷ ws) = ground (arith, append-nil w.received, deliver-nil ws)

  deliver-append :
      (xs ys : List (WatchEvent A)) (ws : List (Watcher A))
      → deliver ys (deliver xs ws) ≡ deliver (xs ++ ys) ws
  deliver-append xs ys [] = refl
  deliver-append xs ys (w ∷ ws) =
      ground (arith, append_assoc w.received xs ys, deliver-append xs ys ws)

  notify-deliver : (ev : WatchEvent A) (ws : List (Watcher A)) → notify ev ws ≡ deliver (ev ∷ []) ws
  notify-deliver ev [] = refl
  notify-deliver ev (w ∷ ws) =
      ap (◌∷◌ (record w { received = w.received ++ ev ∷ [] })) (notify-deliver ev ws)

  live_revision-current :
      (l : Log A) (s : ValueStore A)
      → Refines l s
      → live_revision (λ x. x) s.values.value ≡ current_of l
  unfolding window
  live_revision-current [] s h = ground (arith, h.nodes)
  live_revision-current (e ∷ l) s h = ground (arith, h.nodes)

  latest_event-put :
      (l : Log A) (s : ValueStore A) (now : ℕ) (v : A)
      → Refines l s
      → s.clone_func ≡ (λ x. x)
      → next_revision l < 2 ^ 63
      → (put_commit now v s).watches
        ≡ deliver (latest_event (record { timestamp = now; value = some v } ∷ l)) s.watches
  unfolding put_commit
  latest_event-put l s now v h same fits =
      ap
        (λ f.
          notify
            (record {
              event_type = event_put;
              current = some (key_revision f (put_element now v s));
              previous = live_revision f s.values.value;
            })
            s.watches)
        same
      ∙ ap
          (λ p.
            notify
              (record {
                event_type = event_put;
                current = some (key_revision (λ x. x) (put_element now v s));
                previous = p;
              })
              s.watches)
          (live_revision-current l s h)
      ∙ ap
          (λ r.
            notify
              (record {
                event_type = event_put;
                current = some (record { key = ""; value = v; revision = r; timestamp = now });
                previous = current_of l;
              })
              s.watches)
          number
      ∙ notify-deliver _ s.watches
    where
      number : inc64 s.revision ≡ length l + 1
      number = omega (arith, h.revision, inc64_small s.revision)

  latest_event-delete :
      (e : Entry A) (l : Log A) (s : ValueStore A) (now : ℕ) (v : A)
      → e.value ≡ some v
      → s.clone_func ≡ (λ x. x)
      → (delete_commit now (element s.zero_value e (length l + 1)) s).watches
        ≡ deliver (latest_event (record { timestamp = now; value = none } ∷ e ∷ l)) s.watches
  unfolding delete_commit
  latest_event-delete e l s now v q same =
      ap
        (λ f.
          notify
            (record {
              event_type = event_delete;
              current = none;
              previous = some (key_revision f (element s.zero_value e (length l + 1)));
            })
            s.watches)
        same
      ∙ ap
          (λ p.
            notify (record { event_type = event_delete; current = none; previous = p }) s.watches)
          (ground (arith, q))
      ∙ notify-deliver _ s.watches

  -- The events of one call: one if it wrote, none otherwise.
  step-watches :
      (c : Call A) (l : Log A) (s : ValueStore A)
      → Refines l s
      → s.clone_func ≡ (λ x. x)
      → next_revision l < 2 ^ 63
      → ((log_step c l ≡ l) × ((step c s).watches ≡ s.watches))
        ⊎ ((e : Entry A) × (log_step c l ≡ e ∷ l)
            × ((step c s).watches ≡ deliver (latest_event (e ∷ l)) s.watches))
  unfolding step log_step log_put log_delete
  step-watches (puts now v opts) l s h same fits =
      let p = put-state l s now v opts h in
      elim (Bool-cases (put_allowed (apply_put no_put_options opts).revision l)) [
        | inl t ↦
            let p' : (put now v opts s).1 ≡ put_commit now v s = p ∙ rw t refl in
            inr (
              record { timestamp = now; value = some v },
              rw (t, log_step, log_put),
              ap (λ (x : ValueStore A). x.watches) p' ∙ latest_event-put l s now v h same fits,
            )
        | inr t ↦
            let p' : (put now v opts s).1 ≡ s = p ∙ rw t refl in
            inl (rw (t, log_step, log_put), ap (λ (x : ValueStore A). x.watches) p')
      ]
  step-watches (deletes now opts) [] s h same fits = inl (
    rw (delete_error-nil A (apply_delete no_delete_options opts).revision, log_step, log_delete),
    ap (λ (x : ValueStore A). x.watches) (delete-state_nil s now opts h),
  )
  step-watches (deletes now opts) (e ∷ l) s h same fits =
      let p = delete-state e l s now opts h in
      let o = apply_delete no_delete_options opts in
      elim (Option-cases (delete_error o.revision (e ∷ l))) [
        | inl t ↦
            let p' : (delete now opts s).1
                ≡ delete_commit now (element s.zero_value e (length l + 1)) s =
              p ∙ rw t refl in
            let (v, q) = delete_error-value e l o.revision t in
            inr (
              record { timestamp = now; value = none },
              rw (t, log_step, log_delete),
              ap (λ (x : ValueStore A). x.watches) p' ∙ latest_event-delete e l s now v q same,
            )
        | inr (x, t) ↦
            let p' : (delete now opts s).1 ≡ s = p ∙ rw t refl in
            inl (rw (t, log_step, log_delete), ap (λ (x : ValueStore A). x.watches) p')
      ]

  events-one : (e : Entry A) (l : Log A) → events 1 (e ∷ l) ≡ latest_event (e ∷ l)
  unfolding events
  events-one e l = append-nil (latest_event (e ∷ l))

  -- The events of the writes of a sequence of calls, after the newest n of the log.
  abbrev Delivered : List (Call A) → ℕ → Log A → ValueStore A → List (Watcher A) → ℕ → Type 0
  Delivered cs n l s ws k =
      (evs : List (WatchEvent A)) × ((run cs s).watches ≡ deliver evs ws)
      × (events (k + length (log_run cs l) - length l) (log_run cs l) ≡ events n l ++ evs)

  Delivered-same :
      (cs : List (Call A)) (n : ℕ) (l l' : Log A) (s : ValueStore A) (ws ws' : List (Watcher A))
      → l' ≡ l
      → ws' ≡ ws
      → Delivered cs n l' s ws' n
      → (evs : List (WatchEvent A)) × ((run cs s).watches ≡ deliver evs ws)
        × (events (n + length (log_run cs l') - length l) (log_run cs l') ≡ events n l ++ evs)
  Delivered-same cs n l l' s ws ws' lq wq (evs, w, q) = (
    evs,
    w ∙ ap (deliver evs) wq,
    ap (λ (t : Log A). events (n + length (log_run cs l') - length t) (log_run cs l')) (sym lq)
        ∙ q
        ∙ ap (λ t. events n t ++ evs) lq,
  )

  Delivered-more :
      (cs : List (Call A)) (n : ℕ) (e : Entry A) (l l' : Log A) (s : ValueStore A)
      (ws ws' : List (Watcher A))
      → l' ≡ e ∷ l
      → ws' ≡ deliver (latest_event (e ∷ l)) ws
      → Delivered cs (suc n) l' s ws' (suc n)
      → (evs : List (WatchEvent A)) × ((run cs s).watches ≡ deliver evs ws)
        × (events (n + length (log_run cs l') - length l) (log_run cs l') ≡ events n l ++ evs)
  Delivered-more cs n e l l' s ws ws' lq wq (evs, w, q) = (
    latest_event (e ∷ l) ++ evs,
    w ∙ ap (deliver evs) wq ∙ deliver-append (latest_event (e ∷ l)) evs ws,
    ap (λ k. events k (log_run cs l')) (omega (arith, ap (λ (t : Log A). length t) lq))
        ∙ q
        ∙ ap (λ t. events (suc n) t ++ evs) lq
        ∙ ap (λ t. t ++ evs) (events-suc n e l)
        ∙ append_assoc (events n l) (latest_event (e ∷ l)) evs,
  )

  run-watches :
      (cs : List (Call A)) (n : ℕ) (l : Log A) (s : ValueStore A)
      → Refines l s
      → s.clone_func ≡ (λ x. x)
      → length l + length cs < 2 ^ 63
      → Delivered cs n l s s.watches n
  unfolding run log_run
  run-watches [] n l s h same fits = (
    [],
    sym (deliver-nil s.watches),
    ap (λ k. events k l) (let e : n + length l - length l ≡ n = omega arith in e)
        ∙ sym (append-nil (events n l)),
  )
  run-watches (c ∷ cs) n l s h same fits =
      let l' = log_step c l in
      let s' = step c s in
      let rest : (m : ℕ) → Delivered cs m l' s' s'.watches m = λ m.
        run-watches cs m l' s' (step-Refines c l s (omega arith) h) (clone_func-step c s ∙ same)
          (omega (arith, length-log_step-le c l)) in
      elim (step-watches c l s h same (omega arith)) [
        | inl (lq, wq) ↦ Delivered-same cs n l l' s' s.watches s'.watches lq wq (rest n)
        | inr (e, lq, wq) ↦ Delivered-more cs n e l l' s' s.watches s'.watches lq wq (rest (suc n))
      ]

  -- A watch from the revision of a put among the newest 63 writes, where cloning keeps values: what it
  -- first gets, followed by what its listener is given while any further calls run, is the events of
  -- all the writes from that revision on, each once and in order, with the value before each. The
  -- other listeners are given the same further events.
  pub watch-run :
      (l : Log A) (s : ValueStore A) (id : String) (opts : List WatchOpt) (r : Int64) (e : Entry A)
      (v : A) (cs : List (Call A))
      → Refines l s
      → s.clone_func ≡ (λ x. x)
      → (apply_watch no_watch_options opts).revision ≡ some r
      → entry_within walked l r ≡ some e
      → e.value ≡ some v
      → length l + length cs < 2 ^ 63
      → (first evs : List (WatchEvent A)) × ((watch id opts s).0 ≡ ok first)
        × ((run cs (watch id opts s).1).watches
            ≡ record { id = id; received = evs } ∷ deliver evs s.watches)
        × (first ++ evs ≡ events (length (log_run cs l) + 1 - r) (log_run cs l))
  watch-run l s id opts r e v cs h same at found live fits =
      let low : r ≤ length l = entry_within-le walked l r e found in
      let began = watch-at l s id opts r e v h same at (omega arith) found live in
      let held : Refines l (register id s) = record { revision = h.revision; nodes = h.nodes } in
      let (evs, w, q) = run-watches cs (length l + 1 - r) l (register id s) held same fits in
      (
        events (length l + 1 - r) l,
        evs,
        ap (λ (p : Result (List (WatchEvent A)) × ValueStore A). p.0) began,
        ap (λ (p : Result (List (WatchEvent A)) × ValueStore A). (run cs p.1).watches) began ∙ w,
        sym q ∙ ap (λ k. events k (log_run cs l)) (omega (arith, le-length-log_run cs l)),
      )
