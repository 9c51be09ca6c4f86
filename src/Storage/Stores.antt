-- ===== src/Storage/Stores.antt =====
-- storage/stores.go: revisions of a key and watch events. A time is a number.
use protoconfig.Prelude.{ℕ, Option, String}
use protoconfig.Prelude.Int64.{Int64}

pub record KeyRevision {ℓ} (A : Type ℓ) : Type ℓ where
  pub key : String
  pub value : A
  pub revision : Int64
  pub timestamp : ℕ

-- k.SetKey(key)
abbrev pub set_key {ℓ} : {A : Type ℓ} → String → KeyRevision A → KeyRevision A
set_key key k = record k { key = key }

pub data WatchEventType : Type 0 where
  event_put event_delete : WatchEventType

pub record WatchEvent {ℓ} (A : Type ℓ) : Type ℓ where
  pub event_type : WatchEventType
  pub current : Option (KeyRevision A)
  pub previous : Option (KeyRevision A)
