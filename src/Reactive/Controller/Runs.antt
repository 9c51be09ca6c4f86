-- ===== src/Reactive/Controller/Runs.antt =====
-- reactive/controller.go: a controller that runs. Events arrive in the order of the watch, and listeners
-- come and go between them.
use protoconfig.Prelude.{◌≡◌, refl, sym, ◌∙◌, subst, Bool, true, Option, none, some, arith, inl}
use protoconfig.Storage.Errors.{ok}
use protoconfig.Storage.Stores.{WatchEvent}
use protoconfig.Util.Messages.{Message, no_fields, single, nested, IsMessage, SameType}
use protoconfig.Util.FieldMask.Diff.{zero-SameType}
use protoconfig.Reactive.Values.{of_single, of_message, ReactiveValue, new_reactive_value}
use protoconfig.Reactive.Values.Laws.{
  IsCurrent, ListenerStep, ListenerStep-IsCurrent, ListenerStep-Holds,
}
use protoconfig.Reactive.Controller.{
  Trie, build, reading, Controller, new_controller, handle_watch_event,
}
use protoconfig.Reactive.Controller.Steps.{
  TrieStep, at_leaf, at_branch, inside, after_leaf, after_branch,
}
use protoconfig.Reactive.Controller.Fields.{HoldsConfig, TrieStep-NodesHold}
use protoconfig.Reactive.Controller.Laws.{Follows}
use protoconfig.Reactive.Controller.Handling.{
  IsCurrentAt, Continues, config_after, handle_watch_event-Shows,
}

ok_inj : {A : Type 0} (a b : A) → ok a ≡ ok b → a ≡ b
ok_inj a b h = ground (arith, h)

module _ {V : Type 0} where
  TrieStep-Follows :
      (t u : Trie (ReactiveValue V)) (m : Message V) → TrieStep t u → Follows t m → Follows u m
  unfolding Follows
  TrieStep-Follows _ _ (single g o m) (at_leaf {r} {s} f t step) h =
      (h.0, ListenerStep-IsCurrent r s (of_single o) step h.1, h.2)
  TrieStep-Follows _ _ (single g o m) (after_leaf {t} {u} f r step) h =
      (h.0, h.1, TrieStep-Follows t u m step h.2)
  TrieStep-Follows _ _ (nested g k b x m) (at_branch {r} {s} f i t step) h =
      (h.0, ListenerStep-IsCurrent r s (of_message x) step h.1, h.2, h.3)
  TrieStep-Follows _ _ (nested g k b x m) (inside {i} {j} f r t step) h =
      (h.0, h.1, TrieStep-Follows i j x step h.2, h.3)
  TrieStep-Follows _ _ (nested g k b x m) (after_branch {t} {u} f r i step) h =
      (h.0, h.1, h.2, TrieStep-Follows t u m step h.3)
  TrieStep-Follows _ _ no_fields (at_leaf f t step) h = elim h [ ]
  TrieStep-Follows _ _ no_fields (at_branch f i t step) h = elim h [ ]
  TrieStep-Follows _ _ no_fields (inside f r t step) h = elim h [ ]
  TrieStep-Follows _ _ no_fields (after_leaf f r step) h = elim h [ ]
  TrieStep-Follows _ _ no_fields (after_branch f r i step) h = elim h [ ]
  TrieStep-Follows _ _ (single g o m) (at_branch f i t step) h = elim h [ ]
  TrieStep-Follows _ _ (single g o m) (inside f r t step) h = elim h [ ]
  TrieStep-Follows _ _ (single g o m) (after_branch f r i step) h = elim h [ ]
  TrieStep-Follows _ _ (nested g k b x m) (at_leaf f t step) h = elim h [ ]
  TrieStep-Follows _ _ (nested g k b x m) (after_leaf f r step) h = elim h [ ]

  build-Follows : (type m : Message V) → SameType type m → Follows (build new_reactive_value type) m
  unfolding Follows build IsCurrent
  build-Follows no_fields no_fields same = tt
  build-Follows (single f o t) (single g p m) same = (same.0, inl refl, build-Follows t m same.1)
  build-Follows (nested f k b x t) (nested g j c y m) same =
      (same.0, inl refl, build-Follows x y same.2, build-Follows t m same.3)
  build-Follows no_fields (single g o m) same = elim same [ ]
  build-Follows no_fields (nested g j c y m) same = elim same [ ]
  build-Follows (single f o t) no_fields same = elim same [ ]
  build-Follows (single f o t) (nested g j c y m) same = elim same [ ]
  build-Follows (nested f k b x t) no_fields same = elim same [ ]
  build-Follows (nested f k b x t) (single g o m) same = elim same [ ]

  module _ (equal : V → V → Bool) where
    -- What a controller reaches from one that is new, whose first event may follow any config: the events
    -- follow one another, and listeners of the root and of the nodes come and go. The last index is
    -- the config that is active after the last event, once there was one.
    pub data Reaches (type : Message V)
        : Controller V → Message V → Option (Option (Message V)) → Type 0 where
      starts :
          (m : Message V)
          → SameType type m
          → IsMessage m
          → Reaches type (new_controller type) m none
      handles :
          {c after : Controller V} {m n : Message V} {seen : Option (Option (Message V))}
          (ev : WatchEvent (Message V))
          → Reaches type c m seen
          → Continues c.zero m ev n
          → handle_watch_event equal ev c ≡ ok after
          → Reaches type after n (some (config_after ev))
      listens_root :
          {c : Controller V} {m : Message V} {seen : Option (Option (Message V))}
          (s : ReactiveValue V)
          → Reaches type c m seen
          → ListenerStep c.root s
          → Reaches type (record c { root = s }) m seen
      listens :
          {c : Controller V} {m : Message V} {seen : Option (Option (Message V))}
          (u : Trie (ReactiveValue V))
          → Reaches type c m seen
          → TrieStep c.nodes u
          → Reaches type (record c { nodes = u }) m seen

    abbrev pub HoldsSeen : Controller V → Option (Option (Message V)) → Type 0
    HoldsSeen c none = Unit
    HoldsSeen c (some x) = HoldsConfig c x

    root-HoldsSeen :
        (c : Controller V) (s : ReactiveValue V) (seen : Option (Option (Message V)))
        → ListenerStep c.root s
        → HoldsSeen c seen
        → HoldsSeen (record c { root = s }) seen
    root-HoldsSeen c s none step h = tt
    root-HoldsSeen c s (some x) step h = (ListenerStep-Holds c.root s (reading x) step h.0, h.1)

    nodes-HoldsSeen :
        (c : Controller V) (u : Trie (ReactiveValue V)) (seen : Option (Option (Message V)))
        → TrieStep c.nodes u
        → HoldsSeen c seen
        → HoldsSeen (record c { nodes = u }) seen
    nodes-HoldsSeen c u none step h = tt
    nodes-HoldsSeen c u (some x) step h = (h.0, TrieStep-NodesHold c.nodes u x step h.1)

    pub Reaches-Shows :
        (type : Message V) (c : Controller V) (m : Message V) (seen : Option (Option (Message V)))
        → ((a b : V) → equal a b ≡ true → a ≡ b)
        → Reaches type c m seen
        → IsCurrentAt c m × HoldsSeen c seen
    unfolding IsCurrentAt new_controller IsCurrent
    Reaches-Shows type _ _ _ sound (starts m same message) =
        ((inl refl, build-Follows type m same, zero-SameType equal type m same, message), tt)
    Reaches-Shows type _ _ _ sound (handles {c} {after} {m} {n} {seen} ev run next done) =
        let (reached, handled, current, kept) =
          handle_watch_event-Shows equal sound c m n ev (Reaches-Shows type c m seen sound run).0
            next in
        subst (λ x. IsCurrentAt x n × HoldsConfig x (config_after ev))
          (ok_inj reached after (sym handled ∙ done)) current
    Reaches-Shows type _ _ _ sound (listens_root {c} {m} {seen} s run step) =
        let ((root, nodes, zero, message), held) = Reaches-Shows type c m seen sound run in
        (
          (ListenerStep-IsCurrent c.root s (of_message m) step root, nodes, zero, message),
          root-HoldsSeen c s seen step held,
        )
    Reaches-Shows type _ _ _ sound (listens {c} {m} {seen} u run step) =
        let ((root, nodes, zero, message), held) = Reaches-Shows type c m seen sound run in
        (
          (root, TrieStep-Follows c.nodes u m step nodes, zero, message),
          nodes-HoldsSeen c u seen step held,
        )

    -- Once a controller that starts new has handled an event, whatever other events it handles and
    -- whichever listeners come and go, its root holds the config that is active after the last event
    -- and each node its field of it, or all hold the invalid value where there is none; and each
    -- listener was last told what its node holds, up to what is not set. Events follow one another,
    -- and Equal tells values apart.
    pub Reaches-HoldsConfig :
        (type : Message V) (c : Controller V) (m : Message V) (active : Option (Message V))
        → ((a b : V) → equal a b ≡ true → a ≡ b)
        → Reaches type c m (some active)
        → HoldsConfig c active × IsCurrentAt c m
    Reaches-HoldsConfig type c m active sound run =
        let (current, held) = Reaches-Shows type c m (some active) sound run in (held, current)
