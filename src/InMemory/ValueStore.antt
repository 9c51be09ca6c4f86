-- ===== src/InMemory/ValueStore.antt =====
-- storage/inmemory/value_store.go. A method takes the store and returns its result with the store
-- that it leaves; the time is an argument. A pointer into the ring is the number of Prev() steps
-- that lead to it from s.values.
pub mod Log
pub mod Refinement
pub mod Reads
pub mod Unasked
pub mod Runs
pub mod Guarantees
pub mod Histories
pub mod Watch
mod Examples
use protoconfig.Prelude.{
  ℕ, zero, suc, ◌+◌, Bool, true, false, Option, none, some, List, [], ◌∷◌, ◌++◌, map, reverse,
  String, ◌==◌, if◌then◌else◌, get_elem?, drop, length, not, str_eq,
}
use protoconfig.Prelude.Int64.{Int64, gtb64, inc64}
use protoconfig.Storage.Errors.{
  Result, ok, err, panic, ◌>>=◌, ◌>>◌, err_not_found, err_conflict, status_error, out_of_range,
}
use protoconfig.Storage.Options.{
  GetOptions, WatchOptions, PutOptions, DeleteOptions, HistoryOptions, GetOpt, WatchOpt, PutOpt,
  DeleteOpt, HistoryOpt, apply_get, apply_put, apply_watch, apply_delete, apply_history,
  no_get_options, no_put_options, no_watch_options, no_delete_options, no_history_options,
}
use protoconfig.Storage.Stores.{KeyRevision, WatchEvent, event_put, event_delete}
use protoconfig.InMemory.Ring
use protoconfig.InMemory.Ring.{Ring, cells, before_next}

-- valueStoreElement
pub record Element {ℓ} (A : Type ℓ) : Type ℓ where
  pub revision : Int64
  pub timestamp : ℕ
  pub value : A
  pub deleted : Bool

-- An entry of s.watches: its id and the events that its callback has been given, oldest first.
pub record Watcher {ℓ} (A : Type ℓ) : Type ℓ where
  pub id : String
  pub received : List (WatchEvent A)

-- inMemoryValueStore. Go's zero value of T stands beside the clone function.
pub record ValueStore {ℓ} (A : Type ℓ) : Type ℓ where
  pub revision : Int64
  pub values : Ring (Option (Element A))
  pub clone_func : A → A
  pub zero_value : A
  pub watches : List (Watcher A)

-- What is written to *RevisionOut, if the caller asks for it.
abbrev revision_out : Bool → Int64 → Option Int64
revision_out asked revision = if asked then some revision else none

module _ {ℓ} {A : Type ℓ} where
  unfoldable pub new_value_store : (A → A) → A → ValueStore A
  new_value_store clone_func zero_value = record {
    revision = 0;
    values = Ring.new none 63;
    clone_func = clone_func;
    zero_value = zero_value;
    watches = [];
  }

  is_empty_locked : ValueStore A → Bool
  is_empty_locked s = s.revision == 0

  -- s.values.Value.(*valueStoreElement[T]).deleted
  abbrev deleted_at : Option (Element A) → Result Bool
  deleted_at none = panic
  deleted_at (some e) = ok e.deleted

  -- The KeyRevision of an element, its value cloned.
  abbrev pub key_revision : (A → A) → Element A → KeyRevision A
  key_revision clone e = record {
    key = "";
    value = clone e.value;
    revision = e.revision;
    timestamp = e.timestamp;
  }

  -- An element as the previous value of an event: none if it is missing or deleted.
  abbrev pub live_revision : (A → A) → Option (Element A) → Option (KeyRevision A)
  live_revision clone none = none
  live_revision clone (some e) = if e.deleted then none else some (key_revision clone e)

  -- Each listener is called with the event.
  abbrev pub notify : WatchEvent A → List (Watcher A) → List (Watcher A)
  notify ev [] = []
  notify ev (w ∷ ws) = record w { received = w.received ++ ev ∷ [] } ∷ notify ev ws

  -- The next node gets the element and becomes the current one.
  abbrev push : Element A → ValueStore A → ValueStore A
  push e s = record s {
    revision = e.revision;
    values = Ring.set_value (some e) (Ring.next s.values);
  }

  put_guard : PutOptions → ValueStore A → Result (Unit {0})
  put_guard options s = elim options.revision [
    | none ↦ ok tt
    | some requested ↦
        if requested == 0
        then (if s.revision == 0 then ok tt else (do
          deleted ← deleted_at s.values.value
          if deleted then ok tt else err err_conflict))
        else if requested == s.revision
        then ok tt
        else err err_conflict
  ]

  put_element : ℕ → A → ValueStore A → Element A
  put_element now value s = record {
    revision = inc64 s.revision;
    timestamp = now;
    value = value;
    deleted = false;
  }

  pub put_commit : ℕ → A → ValueStore A → ValueStore A
  unfolding put_element
  put_commit now value s = record pushed { watches = notify event s.watches }
    where
      pushed : ValueStore A
      pushed = push (put_element now value s) s

      event : WatchEvent A
      event = record {
        event_type = event_put;
        current = some (key_revision s.clone_func (put_element now value s));
        previous = live_revision s.clone_func s.values.value;
      }

  put_with : ℕ → A → PutOptions → ValueStore A → Result (Option Int64) × ValueStore A
  unfolding put_guard put_commit
  put_with now value options s = elim (put_guard options s) [
    | ok _ ↦ (ok (revision_out options.revision_out (inc64 s.revision)), put_commit now value s)
    | err e ↦ (err e, s)
    | panic ↦ (panic, s)
  ]

  unfoldable pub put : ℕ → A → List PutOpt → ValueStore A → Result (Option Int64) × ValueStore A
  unfolding put_with
  put now value opts s = put_with now value (apply_put no_put_options opts) s

  -- The walk back of Get: stop at an unused node, pass over deletions.
  find_back : Int64 → List (Option (Element A)) → Option (Element A)
  find_back requested [] = none
  find_back requested (none ∷ ns) = none
  find_back requested (some v ∷ ns) =
      let rest = find_back requested ns in
      if v.deleted then rest else if v.revision == requested then some v else rest

  -- The element that Get finds, or its error.
  get_element : Option Int64 → ValueStore A → Result (Option (Element A))
  unfolding find_back is_empty_locked
  get_element requested s =
      if is_empty_locked s
      then elim requested [
        | none ↦ err err_not_found
        | some r ↦ if r == 0 then err err_not_found else err (status_error out_of_range)
      ]
      else elim requested [
        | none ↦ elim s.values.value [ none ↦ panic | some e ↦ ok (some e) ]
        | some r ↦
            if s.revision == r
            then elim s.values.value [ none ↦ panic | some e ↦ ok (some e) ]
            else if gtb64 r s.revision
            then err (status_error out_of_range)
            else ok (find_back r s.values.others)
      ]

  -- The end of Get: the value of what was found.
  get_result : GetOptions → (A → A) → Option (Element A) → Result (A × Option Int64)
  get_result options clone none = err err_not_found
  get_result options clone (some e) =
      if e.deleted
      then err err_not_found
      else ok (clone e.value, revision_out options.revision_out e.revision)

  get_with : GetOptions → ValueStore A → Result (A × Option Int64)
  unfolding get_element get_result
  get_with options s = get_element options.revision s >>= get_result options s.clone_func

  unfoldable pub get : List GetOpt → ValueStore A → Result (A × Option Int64)
  unfolding get_with
  get opts s = get_with (apply_get no_get_options opts) s

  -- The walk back of Watch and History, over the nodes before s.values.Next(): the position that
  -- it stops at, from the position of the first node on.
  pub seek : Int64 → List (Option (Element A)) → ℕ → Result ℕ
  seek requested [] k = ok k
  seek requested (none ∷ ns) k = err err_not_found
  seek requested (some e ∷ ns) k =
      let rest = seek requested ns (k + 1) in
      if e.deleted then rest else if e.revision == requested then ok k else rest

  -- The second walk of History: back to the latest deletion or unused node.
  collect : Bool → (A → A) → A → List (Option (Element A)) → List (KeyRevision A)
  collect include clone zero_value [] = []
  collect include clone zero_value (none ∷ ns) = []
  collect include clone zero_value (some e ∷ ns) =
      let rest = collect include clone zero_value ns in
      if e.deleted
      then []
      else record {
        key = "";
        value = if include then clone e.value else zero_value;
        revision = e.revision;
        timestamp = e.timestamp;
      }
        ∷ rest

  abbrev deleted_node : Option (Option (Element A)) → Bool
  deleted_node (some (some e)) = e.deleted
  deleted_node _ = false

  history_start : Option Int64 → ValueStore A → Result ℕ
  unfolding seek
  history_start none s = ok 0
  history_start (some r) s = seek r (before_next s.values) 0

  history_from : HistoryOptions → ℕ → ValueStore A → Result (List (KeyRevision A))
  unfolding collect
  history_from options start s =
      if deleted_node (get_elem? (cells s.values) start)
      then err err_not_found
      else ok (
          reverse (
            collect options.include_values s.clone_func s.zero_value
              (drop start (before_next s.values))))

  history_with : HistoryOptions → ValueStore A → Result (List (KeyRevision A))
  unfolding history_start history_from is_empty_locked
  history_with options s =
      if is_empty_locked s
      then err err_not_found
      else (do start ← history_start options.revision s; history_from options start s)

  unfoldable pub history : List HistoryOpt → ValueStore A → Result (List (KeyRevision A))
  unfolding history_with
  history opts s = history_with (apply_history no_history_options opts) s

  delete_guard : DeleteOptions → ValueStore A → Result (Element A)
  unfolding is_empty_locked
  delete_guard options s =
      if is_empty_locked s
      then err err_not_found
      else if (elim options.revision [ none ↦ false | some r ↦ not (r == s.revision) ])
      then err err_conflict
      else elim s.values.value [
        | none ↦ panic
        | some e ↦ if e.deleted then err err_not_found else ok e
      ]

  delete_element : ℕ → ValueStore A → Element A
  delete_element now s = record {
    revision = inc64 s.revision;
    timestamp = now;
    value = s.zero_value;
    deleted = true;
  }

  pub delete_commit : ℕ → Element A → ValueStore A → ValueStore A
  unfolding delete_element
  delete_commit now previous s = record pushed { watches = notify event s.watches }
    where
      pushed : ValueStore A
      pushed = push (delete_element now s) s

      event : WatchEvent A
      event = record {
        event_type = event_delete;
        current = none;
        previous = some (key_revision s.clone_func previous);
      }

  delete_with : ℕ → DeleteOptions → ValueStore A → Result (Unit {0}) × ValueStore A
  unfolding delete_guard delete_commit
  delete_with now options s = elim (delete_guard options s) [
    | ok previous ↦ (ok tt, delete_commit now previous s)
    | err e ↦ (err e, s)
    | panic ↦ (panic, s)
  ]

  unfoldable pub delete : ℕ → List DeleteOpt → ValueStore A → Result (Unit {0}) × ValueStore A
  unfolding delete_with
  delete now opts s = delete_with now (apply_delete no_delete_options opts) s
