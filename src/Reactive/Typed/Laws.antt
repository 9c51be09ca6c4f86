-- ===== src/Reactive/Typed/Laws.antt =====
-- reactive/typed.go: what a deletion of the active config does to typed listeners.
use protoconfig.Prelude.{Option, some, Bool}
use protoconfig.Storage.Stores.{KeyRevision, WatchEvent, event_delete}
use protoconfig.Util.Messages.{Message}
use protoconfig.Reactive.Controller.{Controller}

module _ {V : Type 0} (equal : V → V → Bool) where
  abbrev pub deletion :
      Option (KeyRevision (Message V)) → KeyRevision (Message V) → WatchEvent (Message V)
  deletion current p = record { event_type = event_delete; current = current; previous = some p }
