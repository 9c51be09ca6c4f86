-- ===== src/InMemory/KeyValueStore/Examples.antt =====
-- Tests and instances for storage/inmemory/kv_store.go, over an association list of stores of numbers.
use mathlib.Core.Bool.{false≢true}
use protoconfig.Prelude.{
  ℕ, ◌≡◌, ◌≢◌, refl, true, some, List, [], ◌∷◌, map, String, eq_iff, take, arith,
}
use Prim.Native.String.{◌++◌}
use protoconfig.Prelude.Int64.{gtb64}
use protoconfig.Storage.Errors.{ok, err, err_not_found}
use protoconfig.InMemory.ValueStore
use protoconfig.InMemory.ValueStore.{ValueStore, new_value_store}
use protoconfig.InMemory.Art.{Art, list_art}
use protoconfig.InMemory.KeyValueStore.{
  KeyValueStore, ActiveWatch, new_key_value_store, get, put, list_keys,
}
use protoconfig.InMemory.KeyValueStore.Laws.{list_keys-under, put_new_watched}
use protoconfig.Storage.KvUtil.{with_prefix}
use protoconfig.Storage.KvUtil.InMemory.{in_memory}
use protoconfig.Storage.KvUtil.Laws.{list_keys-with_prefix}

abbrev art : Art (ValueStore ℕ)
art = list_art (ValueStore ℕ)

abbrev one_key : KeyValueStore art
one_key = (put art 100 "a" 7 [] (new_key_value_store art (λ x. x) 0)).1

abbrev prefix_watch : ActiveWatch
prefix_watch = record { id = "w"; key = "a"; prefix = true; revision = some 1 }

abbrev watched_store : KeyValueStore art
watched_store = record {
  clone_func = λ x. x;
  zero_value = 0;
  keys = [];
  watches = prefix_watch ∷ [];
}

one_named : ◌≢◌ {A = String} "ab" ""
one_named p = false≢true ((eq_iff "ab" "").1 p)

one_revision : gtb64 1 0 ≡ true
unfolding gtb64
one_revision = refl

put_new_watched_example :
    ((put art 5 "ab" 9 [] watched_store).0 ≡ err err_not_found)
    × (get art "ab" [] (put art 5 "ab" 9 [] watched_store).1 ≡ err err_not_found)
put_new_watched_example =
    put_new_watched art 5 "ab" 9 [] watched_store prefix_watch [] 1 one_named refl refl refl refl
      one_revision

abbrev prefixed : KeyValueStore art
prefixed = (put art 1 "foo/bar" 3 [] (new_key_value_store art (λ x. x) 0)).1

prefixed_lists : list_keys art "foo/b" [] prefixed ≡ ok ("foo/bar" ∷ [])
unfolding put list_keys new_key_value_store ValueStore.get ValueStore.put
    protoconfig.Prelude.Int64.inc64 new_value_store
prefixed_lists = refl

list_keys-with_prefix_example :
    (listed : List String) × ((with_prefix (in_memory art) "foo/").list_keys "b" [] prefixed
      ≡ ok listed)
    × (map (λ k. "foo/" ++ k) listed ≡ "foo/bar" ∷ [])
list_keys-with_prefix_example =
    list_keys-with_prefix (in_memory art) "foo/" "b" [] prefixed ("foo/bar" ∷ [])
      (λ k ks h. list_keys-under art k [] prefixed ks h) prefixed_lists
