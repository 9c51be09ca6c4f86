-- ===== src/Drivers/Etcd.antt =====
-- storage/drivers/etcd/kv_store.go: a key-value store in etcd. The client is an interface, and so is
-- base64. The events of a watch are a list, in their order.
pub mod Paths
pub mod Api
pub mod Laws
pub mod Deletions
mod Instances
mod Examples
use Prim.Native.String.{◌++◌}
use protoconfig.Prelude.{
  ℕ, ◌==◌, ◌≡◌, not, Bool, true, false, Option, none, some, List, [], ◌∷◌, map, String, str_eq,
  if◌then◌else◌,
}
use protoconfig.Prelude.Int64.{Int64, gtb64}
use protoconfig.Storage.Errors.{
  Result, ok, err, panic, ◌>>=◌, err_conflict, err_not_found, status_error, invalid_argument,
}
use protoconfig.Storage.Options.{
  GetOpt, PutOpt, DeleteOpt, ListOpt, WatchOpt, HistoryOpt, PutOptions, apply_get, apply_put,
  apply_delete, apply_list, apply_watch, apply_history, no_get_options, no_put_options,
  no_delete_options, no_list_options, no_watch_options, no_history_options,
}
use protoconfig.Storage.Stores.{KeyRevision, WatchEvent, event_put, event_delete}
use protoconfig.Storage.KvUtil.{trim_prefix}
use protoconfig.Drivers.Etcd.Paths.{path_join}
use protoconfig.Drivers.Etcd.Api.{
  ClientError, etcd_grpc_error, Answer, done, failed, Kv, Cmp, mod_revision_equals, version_equals,
  op_put, op_delete, Txn, Request, plain, by_lease, TxnAnswer, Range, Client,
}

-- base64.StdEncoding, and the bytes of a text
pub record Base64 (V : Type 0) : Type 0 where
  pub encode : V → String
  pub decode : String → Result V
  pub raw : String → V
  pub decode-encode : (v : V) → decode (encode v) ≡ ok v

-- clientv3.Event, with the value before it where the server has it
pub data EtcdEvent : Type 0 where
  kv_put kv_delete : Kv → Option Kv → EtcdEvent

-- A watch that the client is asked for
pub record WatchRequest : Type 0 where
  pub key : String
  pub revision : Option Int64
  pub prefix : Bool

abbrev pub validate_key : String → Result (Unit {0})
validate_key key = if str_eq key "" then err (status_error invalid_argument) else ok tt

abbrev pub answer {ℓ κ} : {A : Type ℓ} {B : Type κ} → Answer A → (A → Result B) → Result B
answer (done a) f = f a
answer (failed e) f = err (etcd_grpc_error e)

-- The comparisons of a Put: a revision that is not positive stands for a missing key.
pub comparisons : String → Option Int64 → List Cmp
comparisons q none = []
comparisons q (some r) = if gtb64 r 0 then mod_revision_equals q r ∷ [] else version_equals q 0 ∷ []

-- The transaction of a Put, which keeps the lease of a key that has one
pub put_request : String → String → Option Int64 → Request
unfolding comparisons
put_request q text r =
    by_lease q (record { compare = comparisons q r; success = op_put q text true })
      (record { compare = comparisons q r; success = op_put q text false })

module _ {V : Type 0} (base64 : Base64 V) (prefix : String) where
  -- newKeyRevision
  pub new_key_revision : Kv → KeyRevision V
  new_key_revision kv = record {
    key = trim_prefix (trim_prefix kv.key prefix) "/";
    value = elim (base64.decode kv.value) [
      | ok v ↦ v
      | err e ↦ base64.raw kv.value
      | panic ↦ base64.raw kv.value
    ];
    revision = kv.mod_revision;
    timestamp = 0;
  }

  -- newKeyRevision of a pointer, which panics for nil
  pub previous_revision : Option Kv → Result (Option (KeyRevision V))
  unfolding new_key_revision
  previous_revision none = panic
  previous_revision (some kv) = ok (some (new_key_revision kv))

  pub watch_event : EtcdEvent → Result (WatchEvent V)
  unfolding previous_revision
  watch_event (kv_put kv before) =
      (if kv.create_revision == kv.mod_revision then ok none else previous_revision before)
      >>= λ previous. ok (record {
        event_type = event_put;
        current = some (new_key_revision kv);
        previous = previous;
      })
  watch_event (kv_delete kv before) = previous_revision before >>= λ previous.
      ok (record { event_type = event_delete; current = none; previous = previous })

  -- The loop of History over the changes of a key, up to the latest revision
  pub collect : Bool → String → Int64 → List EtcdEvent → Result (List (KeyRevision (Option V)))
  collect values key latest [] = ok []
  collect values key latest (kv_delete kv before ∷ es) = collect values key latest es
  collect values key latest (kv_put kv before ∷ es) =
      let rest = collect values key latest es in
      (if values then (base64.decode kv.value >>= λ v. ok (some v)) else ok none) >>= λ value.
      (if kv.mod_revision == latest then ok [] else rest) >>= λ entries.
      ok (record { key = key; value = value; revision = kv.mod_revision; timestamp = 0 } ∷ entries)

  module _ (client : Client) where
    abbrev pub put_reply :
        PutOptions → Answer TxnAnswer × client.State → Result (Option Int64) × client.State
    put_reply o (done a, s) =
        if a.succeeded
        then (ok (if o.revision_out then some a.revision else none), s)
        else (err err_conflict, s)
    put_reply o (failed e, s) = (err (etcd_grpc_error e), s)

    pub put_with : String → V → PutOptions → client.State → Result (Option Int64) × client.State
    unfolding put_request
    put_with key value o s =
        put_reply o
          (client.commit (put_request (path_join prefix key) (base64.encode value) o.revision) s)

    -- A call that validates the key first
    abbrev pub validated {ℓ} :
        {A : Type ℓ}
        → Result (Unit {0})
        → (Unit {0} → Result A × client.State)
        → client.State
        → Result A × client.State
    validated (ok tt) f s = f tt
    validated (err e) f s = (err e, s)
    validated panic f s = (panic, s)

    unfoldable pub put :
        ℕ → String → V → List PutOpt → client.State → Result (Option Int64) × client.State
    unfolding put_with
    put now key value opts s =
        validated (validate_key key) (λ t. put_with key value (apply_put no_put_options opts) s) s

    abbrev pub get_reply : Bool → List Kv → Result (V × Option Int64)
    get_reply out [] = err err_not_found
    get_reply out (kv ∷ kvs) =
        base64.decode kv.value >>= λ v. ok (v, if out then some kv.mod_revision else none)

    unfoldable pub get : String → List GetOpt → client.State → Result (V × Option Int64)
    get key opts s =
        let o = apply_get no_get_options opts in
        validate_key key >>= λ t.
        answer
          (client.get
            (record {
              key = path_join prefix key;
              revision = o.revision;
              prefix = false;
              keys_only = false;
              limit = none;
            })
            s)
          (get_reply o.revision_out)

    abbrev pub delete_locked : Answer TxnAnswer × client.State → Result (Unit {0}) × client.State
    delete_locked (done a, s) = if a.succeeded then (ok tt, s) else (err err_conflict, s)
    delete_locked (failed e, s) = (err (etcd_grpc_error e), s)

    abbrev pub delete_counted : Answer ℕ × client.State → Result (Unit {0}) × client.State
    delete_counted (done n, s) = if n == 0 then (err err_not_found, s) else (ok tt, s)
    delete_counted (failed e, s) = (err (etcd_grpc_error e), s)

    pub delete_with : String → Option Int64 → client.State → Result (Unit {0}) × client.State
    delete_with q (some r) s = delete_locked (
        client.commit
          (plain (record { compare = mod_revision_equals q r ∷ []; success = op_delete q })) s)
    delete_with q none s = delete_counted (client.delete q s)

    unfoldable pub delete :
        ℕ → String → List DeleteOpt → client.State → Result (Unit {0}) × client.State
    unfolding delete_with
    delete now key opts s =
        validated (validate_key key)
          (λ t. delete_with (path_join prefix key) (apply_delete no_delete_options opts).revision s)
          s

    unfoldable pub list_keys : String → List ListOpt → client.State → Result (List String)
    list_keys under opts s =
        answer
          (client.get
            (record {
              key = path_join prefix under;
              revision = none;
              prefix = true;
              keys_only = true;
              limit = (apply_list no_list_options opts).limit;
            })
            s)
          (λ kvs. ok (map (λ kv. trim_prefix kv.key (prefix ++ "/")) kvs))

    -- The watch that Watch asks for: a revision of 0 is that of the first key that was created.
    abbrev pub first_revision : List Kv → Int64
    first_revision [] = 0
    first_revision (kv ∷ []) = kv.create_revision
    first_revision (kv ∷ kvs) = 0

    abbrev pub start_revision :
        String → Option Int64 → (String → Answer (List Kv)) → Result (Option Int64)
    start_revision q none first_create = ok none
    start_revision q (some r) first_create =
        if r == 0
        then answer (first_create q) (λ kvs. ok (some (first_revision kvs)))
        else ok (some r)

    unfoldable pub watch_request :
        String → List WatchOpt → (String → Answer (List Kv)) → Result WatchRequest
    watch_request key opts first_create =
        let o = apply_watch no_watch_options opts in
        let q = path_join prefix key in
        validate_key (if o.prefix then q else key) >>= λ t.
        start_revision q o.revision first_create >>= λ r.
        ok (record { key = q; revision = r; prefix = o.prefix })

    -- History: the changes are those of a watch of the key from the revision at which it was created.
    pub history_found :
        Bool
        → String
        → (Int64 → Answer (List EtcdEvent))
        → List Kv
        → Result (List (KeyRevision (Option V)))
    unfolding collect
    history_found values key changes [] = err err_not_found
    history_found values key changes (kv ∷ kvs) =
        answer (changes kv.create_revision) (collect values key kv.mod_revision)

    unfoldable pub history :
        String
        → List HistoryOpt
        → (String → Int64 → Answer (List EtcdEvent))
        → client.State
        → Result (List (KeyRevision (Option V)))
    unfolding history_found
    history key opts changes s =
        let o = apply_history no_history_options opts in
        let q = path_join prefix key in
        validate_key key >>= λ t.
        answer
          (client.get
            (record {
              key = q;
              revision = o.revision;
              prefix = false;
              keys_only = not o.include_values;
              limit = some 1;
            })
            s)
          (history_found o.include_values key (changes q))
