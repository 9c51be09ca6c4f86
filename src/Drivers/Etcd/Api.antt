-- ===== src/Drivers/Etcd/Api.antt =====
-- storage/drivers/etcd/kv_store.go: what the store uses of the client of etcd.
use protoconfig.Prelude.{
  ℕ, ◌==◌, ◌≡◌, ◌≢◌, ◌⊎◌, ◌&&◌, Bool, true, false, Option, none, some, List, [], ◌∷◌, String,
  if◌then◌else◌,
}
use protoconfig.Prelude.Int64.{Int64}
use protoconfig.Storage.Errors.{Error, Code, status_error}

-- rpctypes.EtcdError, and the other errors
pub data ClientError : Type 0 where
  etcd_error : Code → ClientError
  other : Error → ClientError

-- etcdGrpcError
abbrev pub etcd_grpc_error : ClientError → Error
etcd_grpc_error (etcd_error c) = status_error c
etcd_grpc_error (other e) = e

pub data Answer {ℓ} (A : Type ℓ) : Type ℓ where
  done : A → Answer A
  failed : ClientError → Answer A

-- mvccpb.KeyValue
pub record Kv : Type 0 where
  pub key : String
  pub value : String
  pub create_revision : Int64
  pub mod_revision : Int64
  pub version : Int64

-- clientv3.Compare: with the revision of the last change, or with the version
pub data Cmp : Type 0 where
  mod_revision_equals version_equals : String → Int64 → Cmp

pub data Op : Type 0 where
  op_put : String → String → Bool → Op
  op_delete : String → Op

-- A transaction with one operation, or with one of two transactions, by whether a key has a lease
pub record Txn : Type 0 where
  pub compare : List Cmp
  pub success : Op

pub data Request : Type 0 where
  plain : Txn → Request
  by_lease : String → Txn → Txn → Request

-- Whether a transaction succeeded, and the revision of the header of its answer
pub record TxnAnswer : Type 0 where
  pub succeeded : Bool
  pub revision : Int64

-- The options of a Get: WithRev, WithPrefix, WithKeysOnly and WithLimit
pub record Range : Type 0 where
  pub key : String
  pub revision : Option Int64
  pub prefix : Bool
  pub keys_only : Bool
  pub limit : Option Int64

-- The latest value of one key
abbrev pub latest_range : String → Range
latest_range k = record {
  key = k;
  revision = none;
  prefix = false;
  keys_only = false;
  limit = none;
}

-- A missing key has the revision 0 and the version 0.
abbrev pub mod_revision_is : Int64 → Option Kv → Bool
mod_revision_is r none = r == 0
mod_revision_is r (some v) = v.mod_revision == r

abbrev pub version_is : Int64 → Option Kv → Bool
version_is n none = n == 0
version_is n (some v) = v.version == n

abbrev pub holds : (String → Option Kv) → Cmp → Bool
holds at (mod_revision_equals k r) = mod_revision_is r (at k)
holds at (version_equals k n) = version_is n (at k)

abbrev pub all_hold : (String → Option Kv) → List Cmp → Bool
all_hold at [] = true
all_hold at (c ∷ cs) = holds at c && all_hold at cs

-- What an operation leaves of the keys, where it was done at a revision
abbrev pub Applied : Op → Int64 → (String → Option Kv) → (String → Option Kv) → Type 0
Applied (op_put k v ignore_lease) r before after =
    ((n : Kv) × (after k ≡ some n) × (n.value ≡ v) × (n.mod_revision ≡ r))
    × ((j : String) → j ≢ k → after j ≡ before j)
Applied (op_delete k) r before after =
    (after k ≡ none) × ((j : String) → j ≢ k → after j ≡ before j)

abbrev pub chosen : (String → Bool) → Request → Txn
chosen leased (plain t) = t
chosen leased (by_lease k t e) = if leased k then t else e

abbrev pub found_list : Option Kv → List Kv
found_list none = []
found_list (some v) = v ∷ []

pub record Client : Type 1 where
  pub State : Type 0
  -- The latest value of a key, and whether it has a lease
  pub at : State → String → Option Kv
  pub leased : State → String → Bool
  pub get : Range → State → Answer (List Kv)
  pub commit : Request → State → Answer TxnAnswer × State
  pub delete : String → State → Answer ℕ × State
  pub version-nonzero : (k : String) (v : Kv) (s : State) → at s k ≡ some v → v.version ≢ 0
  pub get-done :
      (k : String) (kvs : List Kv) (s : State)
      → get (latest_range k) s ≡ done kvs
      → kvs ≡ found_list (at s k)
  -- A transaction succeeds as its comparisons say, and otherwise changes nothing.
  pub commit-done :
      (q : Request) (s : State) (a : TxnAnswer)
      → (commit q s).0 ≡ done a
      → (a.succeeded ≡ all_hold (at s) (chosen (leased s) q).compare)
        × ((a.succeeded ≡ false) × ((commit q s).1 ≡ s)
            ⊎ (a.succeeded ≡ true)
              × Applied (chosen (leased s) q).success a.revision (at s) (at (commit q s).1))
  pub delete-done :
      (k : String) (s : State) (n : ℕ)
      → (delete k s).0 ≡ done n
      → ((n ≡ 0) × (at s k ≡ none) × ((delete k s).1 ≡ s))
        ⊎ ((v : Kv) × (n ≡ 1)
            × (at s k ≡ some v)
            × Applied (op_delete k) 0 (at s) (at (delete k s).1))
