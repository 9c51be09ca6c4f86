-- ===== src/Storage/KvUtil.antt =====
-- storage/kvutil/kvutil.go: a key-value store under a prefix, the value store of one key, and a value
-- store of messages over one of bytes. Each call is made of one call of the base; of Watch, what is
-- done to an event is modelled. proto.Marshal and proto.Unmarshal are an interface.
pub mod Laws
pub mod Codecs
pub mod InMemory
mod Examples
use mathlib.Core.Option
use protoconfig.Prelude.{
  ℕ, ◌≡◌, refl, ap, ◌∙◌, Bool, true, false, ◌||◌, Option, none, some, List, [], ◌∷◌, map, String,
  str_eq, if◌then◌else◌,
}
use Prim.Native.String.{[] as empty, ◌∷◌ as ◌:::◌, ◌++◌, len, slice}
use text.Mathlib.Text.{starts_with}
use protoconfig.Prelude.Int64.{Int64}
use protoconfig.Storage.Errors.{Result, ok, err, panic, ◌>>=◌}
use protoconfig.Storage.Options.{GetOpt, PutOpt, DeleteOpt, ListOpt, HistoryOpt}
use protoconfig.Storage.Stores.{KeyRevision, set_key, WatchEvent}
use protoconfig.Storage.Reads.{revision_opts, without_revision}
use protoconfig.Server.ConfigTypes.{StoreOf}

-- storage.KeyValueStoreT: calls at a time on a state
pub record KeyedStoreOf (A : Type 0) : Type 1 where
  pub State : Type 0
  pub get : String → List GetOpt → State → Result (A × Option Int64)
  pub put : ℕ → String → A → List PutOpt → State → Result (Option Int64) × State
  pub delete : ℕ → String → List DeleteOpt → State → Result (Unit {0}) × State
  pub list_keys : String → List ListOpt → State → Result (List String)
  pub history : String → List HistoryOpt → State → Result (List (KeyRevision A))
  -- WithRevisionOut does not change what is read.
  pub get_out :
      (key : String) (r : Option Int64) (s : State)
      → get key (revision_opts r) s
        ≡ without_revision (get key (GetOpt.with_revision_out true ∷ revision_opts r) s)

-- strings.TrimPrefix
abbrev pub trim_prefix : String → String → String
trim_prefix s prefix = if starts_with s prefix then slice s (len prefix) (len s) else s

-- strings.Contains
abbrev pub has_text : String → String → Bool
has_text empty t = starts_with empty t
has_text (c ::: s) t = starts_with (c ::: s) t || has_text s t

-- strings.ReplaceAll(s, "/", "")
abbrev pub without_slashes : String → String
without_slashes empty = empty
without_slashes (c ::: s) =
    let rest = without_slashes s in if str_eq (c ::: empty) "/" then rest else c ::: rest

-- What ListKeys gives for a key of the base
abbrev pub listed_key : String → String → String
listed_key prefix key =
    if has_text key prefix then trim_prefix key prefix else trim_prefix key (without_slashes prefix)

-- The key of an event of Watch
abbrev pub event_key : String → String → String
event_key prefix key = trim_prefix ("/" ++ key) prefix

module _ {A : Type 0} where
  -- What Watch of a store under a prefix does to an event
  pub prefixed_event : String → WatchEvent A → WatchEvent A
  prefixed_event prefix ev = record ev {
    current = Option.map (λ (k : KeyRevision A). set_key (event_key prefix k.key) k) ev.current;
    previous = Option.map (λ (k : KeyRevision A). set_key (event_key prefix k.key) k) ev.previous;
  }

  -- What Watch of the store of one key does; path.Base is given.
  pub single_event : (String → String) → String → WatchEvent A → WatchEvent A
  single_event base_of key ev = record ev {
    current = Option.map (set_key (base_of key)) ev.current;
    previous = Option.map (set_key (base_of key)) ev.previous;
  }

  -- WithPrefix
  abbrev pub with_prefix : KeyedStoreOf A → String → KeyedStoreOf A
  with_prefix base prefix = record {
    State = base.State;
    get = λ key. base.get (prefix ++ key);
    put = λ now key. base.put now (prefix ++ key);
    delete = λ now key. base.delete now (prefix ++ key);
    list_keys = λ key opts s.
        base.list_keys (prefix ++ key) opts s >>= λ keys. ok (map (listed_key prefix) keys);
    history = λ key. base.history (prefix ++ key);
    get_out = λ key. base.get_out (prefix ++ key);
  }

  -- WithKey
  abbrev pub with_key : KeyedStoreOf A → String → StoreOf A
  with_key base key = record {
    State = base.State;
    get = base.get key;
    put = λ now. base.put now key;
    delete = λ now. base.delete now key;
    history = base.history key;
    get_out = base.get_out key;
  }

-- The messages of a type and their bytes, and what is returned where there is no message
pub record Codec (A B : Type 0) : Type 0 where
  pub marshal : A → Result B
  pub unmarshal : B → Result A
  pub nothing : A
  pub unmarshal-marshal : (a : A) (b : B) → marshal a ≡ ok b → unmarshal b ≡ ok a

module _ {A B : Type 0} (codec : Codec A B) where
  abbrev pub decoded_value : Result A → A
  decoded_value (ok a) = a
  decoded_value (err e) = codec.nothing
  decoded_value panic = codec.nothing

  -- decodeKeyRevision: a value that cannot be decoded is empty.
  abbrev pub decode_key_revision : KeyRevision B → KeyRevision A
  decode_key_revision kr = record {
    key = kr.key;
    value = decoded_value (codec.unmarshal kr.value);
    revision = kr.revision;
    timestamp = kr.timestamp;
  }

  -- What Watch does to an event
  pub decode_event : WatchEvent B → WatchEvent A
  decode_event ev = record {
    event_type = ev.event_type;
    current = Option.map decode_key_revision ev.current;
    previous = Option.map decode_key_revision ev.previous;
  }

  -- GetFunc, on what the base gives
  abbrev pub decode_found : Result (B × Option Int64) → Result (A × Option Int64)
  decode_found r = r >>= λ found. codec.unmarshal found.0 >>= λ a. ok (a, found.1)

  -- PutFunc, with what Marshal gives
  abbrev pub put_encoded :
      (base : StoreOf B)
      → ℕ
      → Result B
      → List PutOpt
      → base.State
      → Result (Option Int64) × base.State
  put_encoded base now (ok b) opts s = base.put now b opts s
  put_encoded base now (err e) opts s = (err e, s)
  put_encoded base now panic opts s = (panic, s)

  decoded-without_revision :
      (r : Result A) (o : Option Int64)
      → (r >>= λ a. ok (a, none)) ≡ without_revision (r >>= λ a. ok (a, o))
  decoded-without_revision (ok a) o = refl
  decoded-without_revision (err e) o = refl
  decoded-without_revision panic o = refl

  pub decode_found-without_revision :
      (r : Result (B × Option Int64))
      → decode_found (without_revision r) ≡ without_revision (decode_found r)
  decode_found-without_revision (ok (b, o)) = decoded-without_revision (codec.unmarshal b) o
  decode_found-without_revision (err e) = refl
  decode_found-without_revision panic = refl

  -- WithMessageCodec
  abbrev pub with_message_codec : StoreOf B → StoreOf A
  with_message_codec base = record {
    State = base.State;
    get = λ opts s. decode_found (base.get opts s);
    put = λ now value. put_encoded base now (codec.marshal value);
    delete = base.delete;
    history = λ opts s. base.history opts s >>= λ krs. ok (map decode_key_revision krs);
    get_out = λ r s.
        ap decode_found (base.get_out r s)
        ∙ decode_found-without_revision
            (base.get (GetOpt.with_revision_out true ∷ revision_opts r) s);
  }
