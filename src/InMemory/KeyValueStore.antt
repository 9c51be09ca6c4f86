-- ===== src/InMemory/KeyValueStore.antt =====
-- storage/inmemory/kv_store.go over the value stores of value_store.go. The tree holds pointers to
-- the value stores; here a store that changes is put back under its key.
pub mod Laws
pub mod Unasked
mod Examples
use protoconfig.Prelude.{
  ℕ, suc, ◌+◌, Bool, true, false, Option, none, some, List, [], ◌∷◌, ◌++◌, map, String, ◌==◌,
  str_eq, if◌then◌else◌, length, is_some,
}
use mathlib.Core.Option
use text.Mathlib.Text.{starts_with}
use protoconfig.Prelude.Int64.{Int64, gtb64}
use protoconfig.Storage.Errors.{
  Error, Result, ok, err, panic, ◌>>=◌, err_not_found, status_error, invalid_argument,
}
use protoconfig.Storage.Options.{
  WatchOptions, ListKeysOptions, GetOpt, PutOpt, DeleteOpt, WatchOpt, HistoryOpt, ListOpt,
  apply_watch, apply_list, no_watch_options, no_list_options,
}
use protoconfig.Storage.Stores.{KeyRevision, WatchEvent, set_key}
use protoconfig.InMemory.ValueStore
use protoconfig.InMemory.ValueStore.{ValueStore, new_value_store}
use protoconfig.InMemory.ValueStore.Watch
use protoconfig.InMemory.Art.{Art}

-- activeWatch: the key or the prefix, and the revision that each value store is watched from.
pub record ActiveWatch : Type 0 where
  pub id : String
  pub key : String
  pub prefix : Bool
  pub revision : Option Int64

-- watch.matchesKey
abbrev pub matches_key : ActiveWatch → String → Bool
matches_key w k = if w.prefix then starts_with k w.key else str_eq k w.key

pub validate_key : String → Result (Unit {0})
validate_key key = if str_eq key "" then err (status_error invalid_argument) else ok tt

-- vsOpts
abbrev value_store_options : ActiveWatch → List WatchOpt
value_store_options w = elim w.revision [ none ↦ [] | some r ↦ WatchOpt.with_revision r ∷ [] ]

module _ {A : Type 0} where
  -- watch.addWatch: what the value store replays, and the store with the listener.
  add_watch : ActiveWatch → ValueStore A → Result (List (WatchEvent A)) × ValueStore A
  add_watch w vs = Watch.watch w.id (value_store_options w) vs

  -- A new value store gets a listener for each watch that its key matches; the first error ends it.
  add_watches : String → List ActiveWatch → ValueStore A → Result (Unit {0}) × ValueStore A
  unfolding add_watch
  add_watches key [] vs = (ok tt, vs)
  add_watches key (w ∷ ws) vs =
      let rest = add_watches key ws (add_watch w vs).1 in
      if matches_key w key
      then (elim (add_watch w vs).0 [
        | ok _ ↦ rest
        | err e ↦ (err e, (add_watch w vs).1)
        | panic ↦ (panic, (add_watch w vs).1)
      ])
      else add_watches key ws vs

  -- The keys that ListKeys gathers, from the entries that are left and the count so far.
  gather : Option Int64 → ℕ → List (String × ValueStore A) → List String
  gather limit n [] = []
  gather limit n ((key, vs) ∷ rest) =
      let skip = gather limit n rest in
      let more = gather limit (n + 1) rest in
      elim (ValueStore.get [] vs) [
        | ok _ ↦
            if (elim limit [ none ↦ true | some m ↦ gtb64 m (n + 1) ]) then key ∷ more else key ∷ []
        | err _ ↦ skip
        | panic ↦ skip
      ]

-- inMemoryKeyValueStore. A new value store has the clone function and the zero value.
pub record KeyValueStore {A : Type 0} (art : Art (ValueStore A)) : Type 0 where
  pub clone_func : A → A
  pub zero_value : A
  pub keys : art.Tree
  pub watches : List ActiveWatch

module _ {A : Type 0} (art : Art (ValueStore A)) where
  pub new_key_value_store : (A → A) → A → KeyValueStore art
  new_key_value_store clone_func zero_value = record {
    clone_func = clone_func;
    zero_value = zero_value;
    keys = art.new;
    watches = [];
  }

  -- The value store of a key, after the call left it so.
  abbrev store_at : String → ValueStore A → KeyValueStore art → KeyValueStore art
  store_at key vs m = record m { keys = art.insert key vs m.keys }

  pub get : String → List GetOpt → KeyValueStore art → Result (A × Option Int64)
  unfolding validate_key
  get key opts m = do
    _ ← validate_key key
    elim (art.search key m.keys) [ none ↦ err err_not_found | some vs ↦ ValueStore.get opts vs ]

  delete_at :
      ℕ
      → String
      → List DeleteOpt
      → Option (ValueStore A)
      → KeyValueStore art
      → Result (Unit {0}) × KeyValueStore art
  delete_at now key opts none m = (err err_not_found, m)
  delete_at now key opts (some vs) m =
      let (r, vs') = ValueStore.delete now opts vs in (r, store_at key vs' m)

  pub delete :
      ℕ → String → List DeleteOpt → KeyValueStore art → Result (Unit {0}) × KeyValueStore art
  unfolding delete_at validate_key
  delete now key opts m = elim (validate_key key) [
    | ok _ ↦ delete_at now key opts (art.search key m.keys) m
    | err e ↦ (err e, m)
    | panic ↦ (panic, m)
  ]

  put_at :
      ℕ
      → String
      → A
      → List PutOpt
      → ValueStore A
      → KeyValueStore art
      → Result (Option Int64) × KeyValueStore art
  put_at now key value opts vs m =
      let (r, vs') = ValueStore.put now value opts vs in (r, store_at key vs' m)

  put_new :
      ℕ → String → A → List PutOpt → KeyValueStore art → Result (Option Int64) × KeyValueStore art
  unfolding put_at add_watches
  put_new now key value opts m =
      let watched = add_watches key m.watches (new_value_store m.clone_func m.zero_value) in
      elim watched.0 [
        | ok _ ↦ put_at now key value opts watched.1 m
        | err e ↦ (err e, store_at key watched.1 m)
        | panic ↦ (panic, store_at key watched.1 m)
      ]

  put_valid :
      ℕ
      → String
      → A
      → List PutOpt
      → Option (ValueStore A)
      → KeyValueStore art
      → Result (Option Int64) × KeyValueStore art
  unfolding put_new put_at
  put_valid now key value opts none m = put_new now key value opts m
  put_valid now key value opts (some vs) m = put_at now key value opts vs m

  pub put :
      ℕ → String → A → List PutOpt → KeyValueStore art → Result (Option Int64) × KeyValueStore art
  unfolding put_valid validate_key
  put now key value opts m = elim (validate_key key) [
    | ok _ ↦ put_valid now key value opts (art.search key m.keys) m
    | err e ↦ (err e, m)
    | panic ↦ (panic, m)
  ]

  pub history : String → List HistoryOpt → KeyValueStore art → Result (List (KeyRevision A))
  unfolding validate_key
  history key opts m = do
    _ ← validate_key key
    elim (art.search key m.keys) [
      | none ↦ err err_not_found
      | some vs ↦ ValueStore.history opts vs >>= λ elems. ok (map (set_key key) elems)
    ]

  pub list_keys : String → List ListOpt → KeyValueStore art → Result (List String)
  unfolding gather
  list_keys prefix opts m =
      ok (gather (apply_list no_list_options opts).limit 0 (art.for_each_prefix prefix m.keys))

  -- The value stores that a watch starts with.
  matching_stores : ActiveWatch → KeyValueStore art → List (String × ValueStore A)
  matching_stores w m =
      if w.prefix
      then art.for_each_prefix w.key m.keys
      else (elim (art.search w.key m.keys) [ none ↦ [] | some vs ↦ (w.key, vs) ∷ [] ])

  -- What each value store replays, or its error, and the tree with the listeners.
  watch_stores :
      ActiveWatch
      → List (String × ValueStore A)
      → art.Tree
      → List (String × Result (List (WatchEvent A))) × art.Tree
  unfolding add_watch
  watch_stores w [] t = ([], t)
  watch_stores w ((key, vs) ∷ rest) t =
      let (r, vs') = add_watch w vs in
      let (rs, t') = watch_stores w rest (art.insert key vs' t) in ((key, r) ∷ rs, t')

  -- The events that reach the aggregated channel, under their keys.
  abbrev keyed_event : String → WatchEvent A → WatchEvent A
  keyed_event key ev = record ev {
    current = Option.map (set_key key) ev.current;
    previous = Option.map (set_key key) ev.previous;
  }

  abbrev replays :
      List (String × Result (List (WatchEvent A))) → List (String × List (WatchEvent A))
  replays [] = []
  replays ((key, ok evs) ∷ rs) = (key, map (keyed_event key) evs) ∷ replays rs
  replays ((key, err e) ∷ rs) = replays rs
  replays ((key, panic) ∷ rs) = replays rs

  -- The watch fails if every value store refused it; errors.Join has the status of the first error.
  abbrev watch_failure : List (String × Result (List (WatchEvent A))) → Option Error
  watch_failure [] = none
  watch_failure ((key, ok evs) ∷ rs) = none
  watch_failure ((key, panic) ∷ rs) = none
  watch_failure ((key, err e) ∷ []) = some e
  watch_failure ((key, err e) ∷ r ∷ rs) = elim (watch_failure (r ∷ rs)) [
    | none ↦ none
    | some x ↦ some e
  ]

  watch_with :
      ActiveWatch
      → KeyValueStore art
      → Result (List (String × List (WatchEvent A))) × KeyValueStore art
  unfolding matching_stores watch_stores
  watch_with w m =
      let (rs, t) = watch_stores w (matching_stores w m) m.keys in
      elim (watch_failure rs) [
        | some e ↦ (err e, record m { keys = t })
        | none ↦ (ok (replays rs), record m { keys = t; watches = w ∷ m.watches })
      ]

  -- For each key, the events replayed first; the id is the one that uuid.NewString() gives.
  pub watch :
      String
      → String
      → List WatchOpt
      → KeyValueStore art
      → Result (List (String × List (WatchEvent A))) × KeyValueStore art
  unfolding watch_with validate_key
  watch id key opts m =
      let o = apply_watch no_watch_options opts in
      elim (validate_key key) [
        | ok _ ↦
            watch_with (record { id = id; key = key; prefix = o.prefix; revision = o.revision }) m
        | err e ↦ (err e, m)
        | panic ↦ (panic, m)
      ]
