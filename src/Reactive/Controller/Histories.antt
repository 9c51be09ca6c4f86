-- ===== src/Reactive/Controller/Histories.antt =====
-- reactive/controller.go: the events of the writes of storage/inmemory/value_store.go, which follow one
-- another where the messages are of one type.
use protoconfig.Prelude.{
  ℕ, zero, suc, ◌+◌, ◌≤◌, ◌≡◌, refl, sym, ap, ◌∙◌, subst, Bool, true, false, Option, none, some,
  List, [], ◌∷◌, ◌++◌, length, drop, arith, ◌⊎◌, inl, inr, Option-cases,
}
use protoconfig.Storage.Errors.{Result, ok, err, panic}
use protoconfig.Storage.Stores.{KeyRevision, WatchEvent, event_put, event_delete}
use protoconfig.InMemory.ValueStore.Log.{Entry, Log, absent}
use protoconfig.InMemory.ValueStore.Watch.Streams.{current_of, latest_event, events}
use protoconfig.Util.Messages.{
  Message, no_fields, single, nested, zero_message, IsMessage, SameType, zero-IsMessage,
}
use protoconfig.Util.FieldMask.Diff.{zero-SameType}
use protoconfig.Reactive.Controller.{Controller, handle_events}
use protoconfig.Reactive.Controller.Fields.{HoldsConfig}
use protoconfig.Reactive.Controller.Handling.{
  IsCurrentAt, Continues, config_after, zero-type, puts, creates, deletes, handle_watch_event-Shows,
}

join-SameType : {V : Type 0} (t m n : Message V) → SameType t m → SameType t n → SameType m n
join-SameType no_fields no_fields no_fields p q = tt
join-SameType (single f o t) (single g a m) (single h b n) p q =
    (sym p.0 ∙ q.0, join-SameType t m n p.1 q.1)
join-SameType (nested f k d x t) (nested g j a y m) (nested h i b z n) p q =
    (sym p.0 ∙ q.0, sym p.1 ∙ q.1, join-SameType x y z p.2 q.2, join-SameType t m n p.3 q.3)
join-SameType no_fields (single g a m) n p q = elim p [ ]
join-SameType no_fields (nested g j a y m) n p q = elim p [ ]
join-SameType no_fields no_fields (single h b n) p q = elim q [ ]
join-SameType no_fields no_fields (nested h i b z n) p q = elim q [ ]
join-SameType (single f o t) no_fields n p q = elim p [ ]
join-SameType (single f o t) (nested g j a y m) n p q = elim p [ ]
join-SameType (single f o t) (single g a m) no_fields p q = elim q [ ]
join-SameType (single f o t) (single g a m) (nested h i b z n) p q = elim q [ ]
join-SameType (nested f k d x t) no_fields n p q = elim p [ ]
join-SameType (nested f k d x t) (single g a m) n p q = elim p [ ]
join-SameType (nested f k d x t) (nested g j a y m) no_fields p q = elim q [ ]
join-SameType (nested f k d x t) (nested g j a y m) (single h b n) p q = elim q [ ]

drop-cut :
    {B : Type 0} (n : ℕ) (l : List B)
    → suc n ≤ length l
    → (x : B) × (xs : List B) × (drop n l ≡ x ∷ xs) × (drop (suc n) l ≡ xs)
drop-cut n [] h = absurd (omega (arith, h))
drop-cut zero (x ∷ xs) h = (x, xs, refl, refl)
drop-cut (suc n) (x ∷ xs) h = drop-cut n xs (omega (arith, h))

module _ {V : Type 0} (type : Message V) where
  -- The config that a log leaves, the zero message where there is none
  abbrev pub config_of : Log (Message V) → Message V
  config_of [] = zero_message type
  config_of (e ∷ l) = elim e.value [ none ↦ zero_message type | some m ↦ m ]

  -- The config that is active, if there is one
  abbrev pub active : Log (Message V) → Option (Message V)
  active [] = none
  active (e ∷ l) = e.value

  -- An entry has a message of the type, or deletes one that is there.
  abbrev pub IsEntry : Option (Message V) → Log (Message V) → Type 0
  IsEntry none l = absent l ≡ false
  IsEntry (some m) l = SameType type m × IsMessage m

  unfoldable pub IsHistory : Log (Message V) → Type 0
  IsHistory [] = Unit
  IsHistory (e ∷ l) = IsEntry e.value l × IsHistory l

  pub drop-IsHistory : (n : ℕ) (l : Log (Message V)) → IsHistory l → IsHistory (drop n l)
  unfolding IsHistory
  drop-IsHistory zero l h = h
  drop-IsHistory (suc n) [] h = h
  drop-IsHistory (suc n) (e ∷ l) h = drop-IsHistory n l h.1

  pub config_of-typed :
      (l : Log (Message V)) → IsHistory l → SameType type (config_of l) × IsMessage (config_of l)
  unfolding IsHistory
  config_of-typed [] h = (zero-type type, zero-IsMessage type)
  config_of-typed (e ∷ l) h = typed e.value h.0
    where
      typed :
          (o : Option (Message V))
          → IsEntry o l
          → let m : Message V = elim o [ none ↦ zero_message type | some m ↦ m ] in
            SameType type m × IsMessage m
      typed none entry = (zero-type type, zero-IsMessage type)
      typed (some m) entry = entry

  -- The value that a log has now is its config.
  current-cases :
      (l : Log (Message V))
      → ((current_of l ≡ none) × (absent l ≡ true) × (config_of l ≡ zero_message type))
        ⊎ ((k : KeyRevision (Message V)) × (current_of l ≡ some k) × (k.value ≡ config_of l))
  current-cases [] = inl (refl, refl, refl)
  current-cases (e ∷ l) = elim (Option-cases e.value) [
    | inl q ↦ inl (ground (arith, q), ground (arith, q), ground (arith, q))
    | inr (m, q) ↦ inr (
      record { key = ""; value = m; revision = length l + 1; timestamp = e.timestamp },
      ground (arith, q),
      ground (arith, q),
    )
  ]

  module _ (equal : V → V → Bool) where
    -- The event of a write continues from the config before it.
    latest-Continues :
        (z : Message V) (o : Option (Message V)) (now : ℕ) (l : Log (Message V))
        → z ≡ zero_message type
        → IsEntry o l
        → IsHistory l
        → (ev : WatchEvent (Message V)) × (latest_event (record { timestamp = now; value = o } ∷ l)
            ≡ ev ∷ [])
          × Continues z (config_of l) ev (config_of (record { timestamp = now; value = o } ∷ l))
          × (config_after ev ≡ o)
    latest-Continues z none now l is_zero entry hl = elim (current-cases l) [
      | inl (cur, gone, at) ↦ absurd (ground (arith, entry, gone))
      | inr (k, cur, at) ↦ (
        _,
        refl,
        subst
            (λ p.
              Continues z (config_of l)
                (record { event_type = event_delete; current = none; previous = p })
                (zero_message type))
            (sym cur)
            (subst
              (λ n.
                Continues z (config_of l)
                  (record { event_type = event_delete; current = none; previous = some k }) n)
              (sym (zero-SameType equal type (config_of l) (config_of-typed l hl).0))
              (deletes none k at)),
        refl,
      )
    ]
    latest-Continues z (some m) now l is_zero entry hl =
        let joined = join-SameType type (config_of l) m (config_of-typed l hl).0 entry.0 in
        let k : KeyRevision (Message V) = record {
          key = "";
          value = m;
          revision = length l + 1;
          timestamp = now;
        } in
        elim (current-cases l) [
          | inl (cur, gone, at) ↦ (
            _,
            refl,
            subst
                (λ p.
                  Continues z (config_of l)
                    (record { event_type = event_put; current = some k; previous = p }) m)
                (sym cur) (creates k (at ∙ sym is_zero) joined entry.1),
            refl,
          )
          | inr (p, cur, at) ↦ (
            _,
            refl,
            subst
                (λ p.
                  Continues z (config_of l)
                    (record { event_type = event_put; current = some k; previous = p }) m)
                (sym cur) (puts k p at joined entry.1),
            refl,
          )
        ]

    module _ (sound : (a b : V) → equal a b ≡ true → a ≡ b) where
      -- A controller that is current at the config before a write handles its event.
      handle_events-latest :
          (c : Controller V) (e : Entry (Message V)) (l : Log (Message V))
          (rest : List (WatchEvent (Message V)))
          → IsHistory (e ∷ l)
          → c.zero ≡ zero_message type
          → IsCurrentAt c (config_of l)
          → (after : Controller V) × (handle_events equal (latest_event (e ∷ l) ++ rest) c
              ≡ handle_events equal rest after)
            × IsCurrentAt after (config_of (e ∷ l))
            × HoldsConfig after e.value
            × (after.zero ≡ zero_message type)
      unfolding handle_events IsHistory
      handle_events-latest c e l rest h z current =
          let (ev, one, next, held) = latest-Continues c.zero e.value e.timestamp l z h.0 h.1 in
          let (after, handled, (now, holds), kept) =
            handle_watch_event-Shows equal sound c (config_of l) (config_of (e ∷ l)) ev current
              next in
          (
            after,
            ap (λ evs. handle_events equal (evs ++ rest) c) one
                ∙ ap
                    (λ (r : Result (Controller V)). elim r [
                      | ok d ↦ handle_events equal rest d
                      | err x ↦ err x
                      | panic ↦ panic
                    ])
                    handled,
            now,
            subst (HoldsConfig after) held holds,
            kept ∙ z,
          )

      -- The first of the writes that are left
      handle_events-cut :
          (n : ℕ) (l : Log (Message V)) (c : Controller V)
          → suc n ≤ length l
          → IsHistory l
          → c.zero ≡ zero_message type
          → IsCurrentAt c (config_of (drop (suc n) l))
          → (mid : Controller V) × (handle_events equal (events (suc n) l) c
              ≡ handle_events equal (events n l) mid)
            × IsCurrentAt mid (config_of (drop n l))
            × HoldsConfig mid (active (drop n l))
            × (mid.zero ≡ zero_message type)
      unfolding handle_events events
      handle_events-cut n l c few h z current =
          let (e, older, here, below) = drop-cut n l few in
          let (mid, first, held, holds, kept) =
            handle_events-latest c e older (events n l)
              (subst IsHistory here (drop-IsHistory n l h)) z
              (subst (λ x. IsCurrentAt c (config_of x)) below current) in
          (
            mid,
            ap (λ x. handle_events equal (latest_event x ++ events n l) c) here ∙ first,
            subst (λ x. IsCurrentAt mid (config_of x)) (sym here) held,
            subst (λ x. HoldsConfig mid (active x)) (sym here) holds,
            kept,
          )

      -- After one write or more, the controller holds what is active.
      pub handle_events-events :
          (n : ℕ) (l : Log (Message V)) (c : Controller V)
          → suc n ≤ length l
          → IsHistory l
          → c.zero ≡ zero_message type
          → IsCurrentAt c (config_of (drop (suc n) l))
          → (after : Controller V) × (handle_events equal (events (suc n) l) c ≡ ok after)
            × HoldsConfig after (active l)
            × IsCurrentAt after (config_of l)
      unfolding handle_events events
      handle_events-events zero l c few h z current =
          let (mid, first, held, holds, kept) = handle_events-cut zero l c few h z current in
          (mid, first, holds, held)
      handle_events-events (suc n) l c few h z current =
          let (mid, first, held, holds, kept) = handle_events-cut (suc n) l c few h z current in
          let (after, done, all_held, last) =
            handle_events-events n l mid (omega arith) h kept held in
          (after, first ∙ done, all_held, last)
