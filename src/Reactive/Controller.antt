-- ===== src/Reactive/Controller.antt =====
-- reactive/controller.go: a trie with a reactive value for each field of the config, and the handling
-- of the events of the active store. The maps of the trie are lists in the order of the descriptor;
-- a walk changes each node by itself, so its order does not matter.
pub mod Laws
pub mod Steps
pub mod Fields
pub mod Handling
pub mod Runs
pub mod Histories
pub mod Stores
mod Examples
use protoconfig.Prelude.{
  ℕ, Bool, true, false, Option, none, some, List, [], ◌∷◌, String, if◌then◌else◌, contains, str_eq,
}
use Prim.Native.String.{◌++◌}
use protoconfig.Prelude.Int64.{Int64}
use protoconfig.Storage.Errors.{Result, ok, err, panic, is_not_found}
use protoconfig.Storage.Options.{GetOpt, WatchOpt}
use protoconfig.Storage.Stores.{KeyRevision, WatchEvent, WatchEventType, event_put, event_delete}
use protoconfig.InMemory.ValueStore
use protoconfig.InMemory.ValueStore.{ValueStore}
use protoconfig.InMemory.ValueStore.Watch
use protoconfig.Util.Messages.{Message, no_fields, single, nested, zero_message}
use protoconfig.Util.FieldMask.Diff.{diff}
use protoconfig.Reactive.Values.{
  Reading, invalid, of_single, of_message, ReactiveValue, new_reactive_value, update,
}

-- The nodes below a node of pathTrie, by the names of their fields.
pub data Trie (R : Type 0) : Type 0 where
  no_nodes : Trie R
  leaf : String → R → Trie R → Trie R
  branch : String → R → Trie R → Trie R → Trie R

-- buildNode, for the type of a message
pub build : {V R : Type 0} → R → Message V → Trie R
build r no_fields = no_nodes
build r (single f o rest) = leaf f r (build r rest)
build r (nested f k b m rest) = branch f r (build r m) (build r rest)

-- FindString: the index has each node under the texts of its path.
pub find_string : {R : Type 0} → String → String → Trie R → Option R
find_string prefix path no_nodes = none
find_string prefix path (leaf f r rest) =
    let later = find_string prefix path rest in if str_eq (prefix ++ f) path then some r else later
find_string prefix path (branch f r inner rest) =
    let later = find_string prefix path rest in
    let inside = find_string ((prefix ++ f) ++ ".") path inner in
    if str_eq (prefix ++ f) path then some r else elim inside [ none ↦ later | some x ↦ some x ]

pub record Controller (V : Type 0) : Type 0 where
  -- The zero message of the config type
  pub zero : Message V
  pub root : ReactiveValue V
  pub nodes : Trie (ReactiveValue V)
  pub current_rev : Int64

module _ {V : Type 0} where
  -- Controller with the trie of the type
  unfoldable pub new_controller : Message V → Controller V
  unfolding build
  new_controller m = record {
    zero = zero_message m;
    root = new_reactive_value;
    nodes = build new_reactive_value m;
    current_rev = 0;
  }

  -- WalkValues below a node, with the update that handleWatchEvent makes at each node: a listener is
  -- told where the path of the node is one of the paths. There is no message below an invalid value.
  pub walk_values :
      Int64
      → List String
      → String
      → Trie (ReactiveValue V)
      → Option (Message V)
      → Trie (ReactiveValue V)
  walk_values rev paths prefix no_nodes value = no_nodes
  walk_values rev paths prefix (leaf f r rest) none =
      leaf f (update rev invalid (contains (prefix ++ f) paths) r)
        (walk_values rev paths prefix rest none)
  walk_values rev paths prefix (branch f r inner rest) none =
      branch f (update rev invalid (contains (prefix ++ f) paths) r)
        (walk_values rev paths ((prefix ++ f) ++ ".") inner none)
        (walk_values rev paths prefix rest none)
  walk_values rev paths prefix (leaf f r rest) (some (single g o m)) =
      leaf f (update rev (of_single o) (contains (prefix ++ f) paths) r)
        (walk_values rev paths prefix rest (some m))
  walk_values rev paths prefix (branch f r inner rest) (some (nested g k b x m)) =
      branch f (update rev (of_message x) (contains (prefix ++ f) paths) r)
        (walk_values rev paths ((prefix ++ f) ++ ".") inner (some x))
        (walk_values rev paths prefix rest (some m))
  walk_values rev paths prefix t (some _) = t

  -- protoreflect.Value of the config, invalid where there is none
  abbrev pub reading : Option (Message V) → Reading V
  reading none = invalid
  reading (some m) = of_message m

  -- The end of handleWatchEvent: the root is always told.
  unfoldable pub dispatch : Int64 → List String → Option (Message V) → Controller V → Controller V
  unfolding walk_values
  dispatch rev paths value c = record c {
    root = update rev (reading value) true c.root;
    nodes = walk_values rev paths "" c.nodes value;
    current_rev = rev;
  }

  abbrev pub previous_message : Controller V → Option (KeyRevision (Message V)) → Message V
  previous_message c none = c.zero
  previous_message c (some p) = p.value

  module _ (equal : V → V → Bool) where
    pub handle_put :
        Option (KeyRevision (Message V))
        → Option (KeyRevision (Message V))
        → Controller V
        → Result (Controller V)
    unfolding dispatch
    handle_put none previous c = panic
    handle_put (some k) previous c =
        ok (dispatch k.revision (diff equal (previous_message c previous) k.value) (some k.value) c)

    unfoldable pub handle_delete :
        Option (KeyRevision (Message V)) → Controller V → Result (Controller V)
    unfolding dispatch
    handle_delete none c = panic
    handle_delete (some p) c =
        ok (dispatch p.revision (diff equal p.value (zero_message p.value)) none c)

    unfoldable pub handle_watch_event :
        WatchEvent (Message V) → Controller V → Result (Controller V)
    unfolding handle_put handle_delete
    handle_watch_event ev c = elim ev.event_type [
      | event_put ↦ handle_put ev.current ev.previous c
      | event_delete ↦ handle_delete ev.previous c
    ]

    -- The events that the watch delivers, one after the other.
    unfoldable pub handle_events :
        List (WatchEvent (Message V)) → Controller V → Result (Controller V)
    handle_events [] c = ok c
    handle_events (ev ∷ evs) c = elim (handle_watch_event ev c) [
      | ok after ↦ handle_events evs after
      | err e ↦ err e
      | panic ↦ panic
    ]

  -- The revision that Start watches from: that of the active config, or 0.
  unfoldable pub start_revision : Result (Message V × Option Int64) → Result Int64
  start_revision (ok (m, none)) = ok 0
  start_revision (ok (m, some r)) = ok r
  start_revision (err e) = if is_not_found e then ok 0 else err e
  start_revision panic = panic

  -- Start over an active store in memory: what is replayed, and the store with the listener.
  unfoldable pub start :
      String
      → ValueStore (Message V)
      → Result (List (WatchEvent (Message V))) × ValueStore (Message V)
  unfolding start_revision
  start id s = elim (start_revision (ValueStore.get (GetOpt.with_revision_out true ∷ []) s)) [
    | ok rev ↦ Watch.watch id (WatchOpt.with_revision rev ∷ []) s
    | err e ↦ (err e, s)
    | panic ↦ (panic, s)
  ]
