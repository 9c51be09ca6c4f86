-- ===== src/Drivers/Crds/Api.antt =====
-- storage/drivers/crds/value_store.go: what the store uses of the API server, for its one object.
use protoconfig.Prelude.{ℕ, ◌<◌, ◌≡◌, ◌⊎◌, Option, none, some, String}
use protoconfig.Prelude.Int64.{Int64}
use protoconfig.Storage.Errors.{
  Error, status_error, not_found, aborted, already_exists, invalid_argument,
}

-- The errors that k8s.io/apimachinery/pkg/api/errors tells apart, and the others
pub data ApiError : Type 0 where
  missing conflict exists invalid bad_request : ApiError
  other : Error → ApiError

-- toGrpcError
abbrev pub to_grpc_error : ApiError → Error
to_grpc_error missing = status_error not_found
to_grpc_error conflict = status_error aborted
to_grpc_error exists = status_error already_exists
to_grpc_error invalid = status_error invalid_argument
to_grpc_error bad_request = status_error invalid_argument
to_grpc_error (other e) = e

pub data Reply {ℓ} (A : Type ℓ) : Type ℓ where
  done : A → Reply A
  failed : ApiError → Reply A

-- The annotations of an object that the store uses. A time is a number, where the code keeps its text.
pub record Annotations : Type 0 where
  pub history : Option String
  pub last_modified : Option ℕ

-- An object: its resource version is the number that its text denotes, and is missing where the text is
-- empty; the annotations may be nil.
pub record Object (B : Type 0) : Type 0 where
  pub version : Option Int64
  pub created : ℕ
  pub annotations : Option Annotations
  pub body : B

-- client.Client, for one key. A write gives the object back as the server stored it.
pub record Client (B : Type 0) : Type 1 where
  pub State : Type 0
  pub stored : State → Option (Object B)
  pub get : State → Reply (Object B)
  pub create : Object B → State → Reply (Object B) × State
  pub update : Object B → State → Reply (Object B) × State
  -- With the precondition on the resource version, if there is one. An object with finalizers may still
  -- be there after a deletion that succeeds.
  pub delete : Option Int64 → State → Reply (Unit {0}) × State
  pub get-done : (s : State) (o : Object B) → get s ≡ done o → stored s ≡ some o
  pub get-missing : (s : State) → get s ≡ failed missing → stored s ≡ none
  -- An object that was written is the one sent, with a new version.
  pub create-done :
      (o n : Object B) (s : State)
      → (create o s).0 ≡ done n
      → (stored s ≡ none)
        × ((r : Int64) × (t : ℕ) × (n ≡ record o { version = some r; created = t }))
        × (get (create o s).1 ≡ done n)
  -- Optimistic locking, for an object that is sent with a version; later versions are larger. An object
  -- that is sent unchanged keeps its version.
  pub update-done :
      (o n : Object B) (s : State)
      → (update o s).0 ≡ done n
      → (c : Object B) × (v r : Int64) × (stored s ≡ some c)
        × (c.version ≡ some v)
        × ((o.version ≡ none) ⊎ (o.version ≡ some v))
        × ((v < r) ⊎ (n ≡ c))
        × (n ≡ record o { version = some r })
        × (get (update o s).1 ≡ done n)
  -- A call that is refused changes nothing.
  pub create_refused :
      (o : Object B) (s : State) (e : ApiError) → (create o s).0 ≡ failed e → (create o s).1 ≡ s
  pub update_refused :
      (o : Object B) (s : State) (e : ApiError) → (update o s).0 ≡ failed e → (update o s).1 ≡ s
  pub delete_refused :
      (r : Option Int64) (s : State) (e : ApiError) → (delete r s).0 ≡ failed e → (delete r s).1 ≡ s
