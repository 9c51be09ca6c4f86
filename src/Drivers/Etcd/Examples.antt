-- ===== src/Drivers/Etcd/Examples.antt =====
-- Tests of the store in etcd.
use protoconfig.Prelude.{◌≡◌, ◌≢◌, ◌⊎◌, refl, true, false, Option, none, some, [], ◌∷◌, String}
use protoconfig.Prelude.Int64.{Int64, gtb64}
use protoconfig.Storage.Errors.{Result, ok, err, err_conflict}
use protoconfig.Storage.Options.{with_revision, with_revision_out}
use protoconfig.Storage.KvUtil.{trim_prefix}
use protoconfig.Drivers.Etcd
use protoconfig.Drivers.Etcd.Paths.{path_join}
use protoconfig.Drivers.Etcd.Api.{Kv, mod_revision_is}
use protoconfig.Drivers.Etcd.Laws.{allowed, put-compare_and_set, get-put}
use protoconfig.Drivers.Etcd.Deletions.{delete_named-cases}
use protoconfig.Drivers.Etcd.Instances.{Stored, plain_text, server}

abbrev empty_server : Stored
empty_server = record { revision = 1; values = λ k. none }

abbrev key : String
key = "app/config"

abbrev written : Stored
written = (Etcd.put plain_text "/store" server 0 key "one" [] empty_server).1

abbrev put_again : Result (Option Int64) × Stored
put_again = Etcd.put plain_text "/store" server 0 key "two" (with_revision 2 ∷ []) written

put-compare_and_set_example :
    ((allowed (some 2) (server.at written (path_join "/store" key)) ≡ true)
      × (put_again.0 ≡ ok none)
      × ((n : Kv) × (server.at put_again.1 (path_join "/store" key) ≡ some n)
          × (n.value ≡ "two")
          × (n.mod_revision ≡ 3))
      × ((j : String) → j ≢ path_join "/store" key → server.at put_again.1 j ≡ server.at written j))
    ⊎ ((allowed (some 2) (server.at written (path_join "/store" key)) ≡ false)
        × (put_again ≡ (err err_conflict, written)))
unfolding Etcd.put gtb64
put-compare_and_set_example =
    put-compare_and_set plain_text "/store" server 0 key "two" (with_revision 2 ∷ []) written
      (record { succeeded = true; revision = 3 }) refl refl

get-put_example :
    Etcd.get plain_text "/store" server key (with_revision_out true ∷ []) put_again.1
    ≡ ok ("two", some 3)
unfolding Etcd.put gtb64
get-put_example =
    get-put plain_text "/store" server 0 key "two" (with_revision 2 ∷ []) written
      (record { succeeded = true; revision = 3 }) none
      (record {
        key = "/store/app/config";
        value = "two";
        create_revision = 3;
        mod_revision = 3;
        version = 1;
      }
        ∷ [])
      refl refl refl refl

abbrev delete_zero : Result (Unit {0}) × Stored
delete_zero = Etcd.delete plain_text "/store" server 0 key (with_revision 0 ∷ []) empty_server

-- Revision 0 of a missing key
delete_named-cases_example :
    ((mod_revision_is 0 (server.at empty_server (path_join "/store" key)) ≡ true)
      × (delete_zero.0 ≡ ok tt)
      × (server.at delete_zero.1 (path_join "/store" key) ≡ none)
      × ((j : String)
          → j ≢ path_join "/store" key
          → server.at delete_zero.1 j ≡ server.at empty_server j))
    ⊎ ((mod_revision_is 0 (server.at empty_server (path_join "/store" key)) ≡ false)
        × (delete_zero ≡ (err err_conflict, empty_server)))
delete_named-cases_example =
    delete_named-cases plain_text "/store" server 0 key (with_revision 0 ∷ []) empty_server 0
      (record { succeeded = true; revision = 2 }) refl refl refl

-- A listing of the whole store asks for the prefix without a slash, which the keys of a store with a longer
-- name have too; they are listed as they are.
listed_prefix : path_join "/store" "" ≡ "/store"
listed_prefix = refl

listed_key_of_other : trim_prefix "/store2/key" "/store/" ≡ "/store2/key"
listed_key_of_other = refl
