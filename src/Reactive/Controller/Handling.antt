-- ===== src/Reactive/Controller/Handling.antt =====
-- reactive/controller.go: what the handling of an event leaves in a controller that is current.
use protoconfig.Prelude.{
  ℕ, ◌≡◌, refl, sym, ◌∙◌, subst, Bool, true, false, Option, none, some, arith,
}
use protoconfig.Storage.Errors.{ok}
use protoconfig.Storage.Stores.{KeyRevision, WatchEvent, event_put, event_delete}
use protoconfig.Util.Messages.{
  Message, no_fields, single, nested, zero_message, zero_message_twice, IsMessage, SameType,
  zero-IsMessage,
}
use protoconfig.Util.FieldMask.Diff.{diff, zero-SameType}
use protoconfig.Reactive.Values.{of_message, invalid}
use protoconfig.Reactive.Values.Laws.{IsCurrent, update-IsCurrent, update-Holds}
use protoconfig.Reactive.Controller.{
  Controller, dispatch, handle_put, handle_delete, handle_watch_event,
}
use protoconfig.Reactive.Controller.Fields.{HoldsConfig, walk_values-none, walk_values-some}
use protoconfig.Reactive.Controller.Laws.{Follows, Told, walk_values-Follows, settle-unset, shown}

module _ {V : Type 0} where
  -- The controller is current at a config of its type: the zero message where there is none.
  unfoldable pub IsCurrentAt : Controller V → Message V → Type 0
  IsCurrentAt c m =
      IsCurrent c.root (of_message m) × Follows c.nodes m × (c.zero ≡ zero_message m) × IsMessage m

  -- An event that follows a config, with the config after it: a put names the config as the previous one,
  -- or no previous one if the config is the zero message; a deletion names it too.
  pub data Continues (zero : Message V) (m : Message V)
      : WatchEvent (Message V) → Message V → Type 0 where
    puts :
        (k p : KeyRevision (Message V))
        → p.value ≡ m
        → SameType m k.value
        → IsMessage k.value
        → Continues zero m
            (record { event_type = event_put; current = some k; previous = some p })
            k.value
    creates :
        (k : KeyRevision (Message V))
        → m ≡ zero
        → SameType m k.value
        → IsMessage k.value
        → Continues zero m
            (record { event_type = event_put; current = some k; previous = none })
            k.value
    deletes :
        (current : Option (KeyRevision (Message V))) (p : KeyRevision (Message V))
        → p.value ≡ m
        → Continues zero m
            (record { event_type = event_delete; current = current; previous = some p })
            (zero_message m)

  -- The config that is active after an event, if there is one
  abbrev pub config_after : WatchEvent (Message V) → Option (Message V)
  config_after ev = elim ev.event_type [
    | event_put ↦ elim ev.current [ none ↦ none | some k ↦ some k.value ]
    | event_delete ↦ none
  ]

  pub zero-type : (m : Message V) → SameType m (zero_message m)
  zero-type no_fields = tt
  zero-type (single f o m) = (refl, zero-type m)
  zero-type (nested f k b x m) = (refl, refl, zero-type x, zero-type m)

  module _ (equal : V → V → Bool) (sound : (a b : V) → equal a b ≡ true → a ≡ b) where
    -- A put or a deletion, as its difference and its value.
    dispatch-IsCurrentAt :
        (c : Controller V) (rev : ℕ) (m n : Message V) (b : Bool)
        → IsCurrentAt c m
        → SameType m n
        → IsMessage n
        → (b ≡ false → n ≡ zero_message n)
        → IsCurrentAt (dispatch rev (diff equal m n) (shown b n) c) n
    unfolding IsCurrentAt dispatch Told diff
    dispatch-IsCurrentAt c rev m n true current same hn z = (
      (update-IsCurrent c.root rev (of_message n) (of_message m) (of_message n) true current.0 refl
          (λ q. absurd (ground (arith, q)))).0,
      walk_values-Follows equal sound rev (diff equal m n) "" c.nodes m n true current.1 same
          current.3 hn z (λ p h. h),
      current.2 ∙ zero-SameType equal m n same,
      hn,
    )
    dispatch-IsCurrentAt c rev m n false current same hn z = (
      (update-IsCurrent c.root rev invalid (of_message m) (of_message n) true current.0
          (sym (settle-unset n (z refl))) (λ q. absurd (ground (arith, q)))).0,
      walk_values-Follows equal sound rev (diff equal m n) "" c.nodes m n false current.1 same
          current.3 hn z (λ p h. h),
      current.2 ∙ zero-SameType equal m n same,
      hn,
    )

    -- What the nodes hold then: the config of a put, or nothing.
    dispatch-HoldsConfig :
        (c : Controller V) (rev : ℕ) (m n : Message V) (b : Bool)
        → IsCurrentAt (dispatch rev (diff equal m n) (shown b n) c) n
        → HoldsConfig (dispatch rev (diff equal m n) (shown b n) c) (shown b n)
    unfolding IsCurrentAt dispatch
    dispatch-HoldsConfig c rev m n true current = (
      update-Holds c.root rev (of_message n) true,
      walk_values-some rev (diff equal m n) "" c.nodes n current.1,
    )
    dispatch-HoldsConfig c rev m n false current =
        (update-Holds c.root rev invalid true, walk_values-none rev (diff equal m n) "" c.nodes)

    -- Both at once
    abbrev pub Shows : Controller V → Message V → Option (Message V) → Type 0
    Shows c n x = IsCurrentAt c n × HoldsConfig c x

    dispatch-Shows :
        (c : Controller V) (rev : ℕ) (m n : Message V) (b : Bool)
        → IsCurrentAt c m
        → SameType m n
        → IsMessage n
        → (b ≡ false → n ≡ zero_message n)
        → Shows (dispatch rev (diff equal m n) (shown b n) c) n (shown b n)
    dispatch-Shows c rev m n b current same hn z =
        let after = dispatch-IsCurrentAt c rev m n b current same hn z in
        (after, dispatch-HoldsConfig c rev m n b after)

    -- The controller handles each event that follows its config, without a panic, and is then current at
    -- the next config: each node holds its field of it, and each listener of a node has last been told
    -- what the node holds.
    pub handle_watch_event-Shows :
        (c : Controller V) (m n : Message V) (ev : WatchEvent (Message V))
        → IsCurrentAt c m
        → Continues c.zero m ev n
        → (after : Controller V) × (handle_watch_event equal ev c ≡ ok after)
          × Shows after n (config_after ev)
          × (after.zero ≡ c.zero)
    unfolding handle_watch_event handle_put handle_delete dispatch
    handle_watch_event-Shows c m _ _ current (puts k p from same hk) = (
      _,
      refl,
      subst
          (λ x.
            Shows (dispatch k.revision (diff equal x k.value) (some k.value) c) k.value
              (some k.value))
          (sym from)
          (dispatch-Shows c k.revision m k.value true current same hk
            (λ q. absurd (ground (arith, q)))),
      refl,
    )
    handle_watch_event-Shows c m _ _ current (creates k from same hk) = (
      _,
      refl,
      subst
          (λ x.
            Shows (dispatch k.revision (diff equal x k.value) (some k.value) c) k.value
              (some k.value))
          from
          (dispatch-Shows c k.revision m k.value true current same hk
            (λ q. absurd (ground (arith, q)))),
      refl,
    )
    handle_watch_event-Shows c m _ _ current (deletes k p from) = (
      _,
      refl,
      subst
          (λ x.
            Shows (dispatch p.revision (diff equal x (zero_message x)) none c) (zero_message m)
              none)
          (sym from)
          (dispatch-Shows c p.revision m (zero_message m) false current (zero-type m)
            (zero-IsMessage m) (λ q. sym (zero_message_twice m))),
      refl,
    )
