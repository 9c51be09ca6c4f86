-- ===== src/Core/Values.antt =====
-- apis/core/v1/value.go: protoreflect values as core.Value messages, and back. Numbers are their bit
-- patterns; the entries of a map are listed in the order that Range visits them. Packing a message
-- into an Any and unpacking it are the library's.
pub mod RoundTrip
mod Examples
use protoconfig.Prelude.{ℕ, ◌==◌, Bool, true, false, not, List, String, str_eq, if◌then◌else◌, ◌&&◌}
use protoconfig.Storage.Errors.{Result, ok, err, panic, ◌>>=◌}

-- What a key of a map is: protoreflect.MapKey, and core.Value.MapKey, whose data may be missing.
pub data MapKey : Type 0 where
  bool_key : Bool → MapKey
  int32_key int64_key uint32_key uint64_key : ℕ → MapKey
  string_key : String → MapKey

pub data KeyMessage : Type 0 where
  no_key : KeyMessage
  bool_key_value : Bool → KeyMessage
  int32_key_value int64_key_value uint32_key_value uint64_key_value : ℕ → KeyMessage
  string_key_value : String → KeyMessage

abbrev equal_bool : Bool → Bool → Bool
equal_bool true b = b
equal_bool false b = not b

-- The equality of k.Interface() for two keys
abbrev pub equal_keys : MapKey → MapKey → Bool
equal_keys (bool_key a) (bool_key b) = equal_bool a b
equal_keys (int32_key a) (int32_key b) = a == b
equal_keys (int64_key a) (int64_key b) = a == b
equal_keys (uint32_key a) (uint32_key b) = a == b
equal_keys (uint64_key a) (uint64_key b) = a == b
equal_keys (string_key a) (string_key b) = str_eq a b
equal_keys _ _ = false

-- protoreflect.Value over messages of a type, with its lists and maps
mutual
  pub data Dynamic (M : Type 0) : Type 0 where
    invalid : Dynamic M
    bool : Bool → Dynamic M
    int32 int64 uint32 uint64 float32 float64 : ℕ → Dynamic M
    text : String → Dynamic M
    bytes : List ℕ → Dynamic M
    enum : ℕ → Dynamic M
    message : M → Dynamic M
    list : Items M → Dynamic M
    mapping : Entries M → Dynamic M

  pub data Items (M : Type 0) : Type 0 where
    no_items : Items M
    item : Dynamic M → Items M → Items M

  pub data Entries (M : Type 0) : Type 0 where
    no_entries : Entries M
    entry : MapKey → Dynamic M → Entries M → Entries M

-- core.Value over the type of Any messages; no_data also stands for a nil pointer.
mutual
  pub data Value (Any : Type 0) : Type 0 where
    no_data : Value Any
    bool_value : Bool → Value Any
    int32_value int64_value uint32_value uint64_value float32_value float64_value : ℕ → Value Any
    string_value : String → Value Any
    bytes_value : List ℕ → Value Any
    enum_value : ℕ → Value Any
    message_value : Any → Value Any
    list_value : Values Any → Value Any
    map_value : MapEntries Any → Value Any

  pub data Values (Any : Type 0) : Type 0 where
    no_values : Values Any
    value : Value Any → Values Any → Values Any

  pub data MapEntries (Any : Type 0) : Type 0 where
    no_map_entries : MapEntries Any
    map_entry : KeyMessage → Value Any → MapEntries Any → MapEntries Any

-- anypb.New and UnmarshalNew
pub record AnyCodec (M Any : Type 0) : Type 0 where
  pub new : M → Result Any
  pub unmarshal_new : Any → Result M

-- A call whose error makes the caller panic
abbrev must {ℓ} : {A : Type ℓ} → Result A → Result A
must (ok a) = ok a
must (err e) = panic
must panic = panic

pub new_map_key : MapKey → KeyMessage
new_map_key (bool_key b) = bool_key_value b
new_map_key (int32_key n) = int32_key_value n
new_map_key (int64_key n) = int64_key_value n
new_map_key (uint32_key n) = uint32_key_value n
new_map_key (uint64_key n) = uint64_key_value n
new_map_key (string_key s) = string_key_value s

pub to_map_key : KeyMessage → Result MapKey
to_map_key no_key = panic
to_map_key (bool_key_value b) = ok (bool_key b)
to_map_key (int32_key_value n) = ok (int32_key n)
to_map_key (int64_key_value n) = ok (int64_key n)
to_map_key (uint32_key_value n) = ok (uint32_key n)
to_map_key (uint64_key_value n) = ok (uint64_key n)
to_map_key (string_key_value s) = ok (string_key s)

-- listValue.Append
pub append_item : {M : Type 0} → Items M → Dynamic M → Items M
append_item no_items v = item v no_items
append_item (item w ws) v = item w (append_item ws v)

-- mapValue.Set
pub set_entry : {M : Type 0} → MapKey → Dynamic M → Entries M → Entries M
set_entry k v no_entries = entry k v no_entries
set_entry k v (entry j w es) =
    let rest = set_entry k v es in if equal_keys j k then entry j v es else entry j w rest

module _ {M Any : Type 0} (codec : AnyCodec M Any) where
  unfoldable mutual
    unfolding new_map_key

    pub new_value : Dynamic M → Result (Value Any)
    new_value invalid = ok no_data
    new_value (bool b) = ok (bool_value b)
    new_value (int32 n) = ok (int32_value n)
    new_value (int64 n) = ok (int64_value n)
    new_value (uint32 n) = ok (uint32_value n)
    new_value (uint64 n) = ok (uint64_value n)
    new_value (float32 n) = ok (float32_value n)
    new_value (float64 n) = ok (float64_value n)
    new_value (text s) = ok (string_value s)
    new_value (bytes bs) = ok (bytes_value bs)
    new_value (enum n) = ok (enum_value n)
    new_value (message m) = must (codec.new m) >>= λ a. ok (message_value a)
    new_value (list vs) = new_values vs >>= λ ws. ok (list_value ws)
    new_value (mapping es) = new_entries es >>= λ ws. ok (map_value ws)

    pub new_values : Items M → Result (Values Any)
    new_values no_items = ok no_values
    new_values (item v vs) = new_value v >>= λ w. new_values vs >>= λ ws. ok (value w ws)

    pub new_entries : Entries M → Result (MapEntries Any)
    new_entries no_entries = ok no_map_entries
    new_entries (entry k v es) =
        new_value v >>= λ w. new_entries es >>= λ ws. ok (map_entry (new_map_key k) w ws)

  -- The loops append to the list and set keys of the map that are there so far.
  unfoldable mutual
    unfolding to_map_key append_item set_entry

    pub to_value : Value Any → Result (Dynamic M)
    to_value no_data = ok invalid
    to_value (bool_value b) = ok (bool b)
    to_value (int32_value n) = ok (int32 n)
    to_value (int64_value n) = ok (int64 n)
    to_value (uint32_value n) = ok (uint32 n)
    to_value (uint64_value n) = ok (uint64 n)
    to_value (float32_value n) = ok (float32 n)
    to_value (float64_value n) = ok (float64 n)
    to_value (string_value s) = ok (text s)
    to_value (bytes_value bs) = ok (bytes bs)
    to_value (enum_value n) = ok (enum n)
    to_value (message_value a) = must (codec.unmarshal_new a) >>= λ m. ok (message m)
    to_value (list_value vs) = to_items vs no_items >>= λ ws. ok (list ws)
    to_value (map_value es) = to_entries es no_entries >>= λ ws. ok (mapping ws)

    pub to_items : Values Any → Items M → Result (Items M)
    to_items no_values done = ok done
    to_items (value v vs) done = to_value v >>= λ w. to_items vs (append_item done w)

    pub to_entries : MapEntries Any → Entries M → Result (Entries M)
    to_entries no_map_entries done = ok done
    to_entries (map_entry k v es) done =
        to_map_key k >>= λ j. to_value v >>= λ w. to_entries es (set_entry j w done)
