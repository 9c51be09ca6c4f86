-- ===== src/Drivers/Crds/Encoding.antt =====
-- storage/drivers/crds/value_store.go: the annotation with the history, which is truncated to a size.
pub mod Bounds
pub mod RoundTrip
use text.Mathlib.Text.{starts_with}
use protoconfig.Prelude.{
  ℕ, ◌+◌, ◌*◌, ◌/◌, ◌≡◌, ltb, Bool, true, false, Option, none, some, List, [], ◌∷◌, map, reverse,
  String, str_eq, length, if◌then◌else◌,
}
use protoconfig.Storage.Errors.{Result, ok, err, panic, ◌>>=◌, plain_error}

abbrev pub is_empty : List ℕ → Bool
is_empty [] = true
is_empty (b ∷ bs) = false

-- The fields of a historyEntry that JSON has: a list of bytes each, empty where the field is missing
pub record WireEntry : Type 0 where
  pub wire : List ℕ
  pub wirev2 : List ℕ

-- The packages that the encoding uses, for configs that are read through a pointer, which may be nil:
-- proto.Marshal; proto.Unmarshal into a new config, as what it leaves there and whether it succeeds;
-- snappy.MaxEncodedLen, snappy.Encode and snappy.Decode; base64; the conversion of bytes to text; and
-- JSON of an object with a list of entries, as the fields that Unmarshal finds and whether it succeeds.
pub record HistoryCodec (S : Type 0) : Type 0 where
  pub nil_config : S
  pub is_nil : S → Bool
  pub marshal : S → Result (List ℕ)
  pub unmarshal : List ℕ → S × Bool
  pub max_encoded_len : ℕ → ℕ
  pub compress : List ℕ → List ℕ
  pub decompress : List ℕ → Option (List ℕ)
  pub base64_decode : String → Option (List ℕ)
  pub text_of : List ℕ → String
  pub json_marshal : List WireEntry → Result String
  pub json_unmarshal : String → List WireEntry × Bool
  -- A config that is marshalled is read back. One that is not nil is not marshalled to nothing: entries
  -- carry the revision of their config.
  pub unmarshal-marshal : (e : S) (w : List ℕ) → marshal e ≡ ok w → unmarshal w ≡ (e, true)
  pub marshal-nothing : (e : S) → marshal e ≡ ok [] → is_nil e ≡ true
  -- A compressed block begins with the length of its data, so it is not empty.
  pub decompress-compress : (w : List ℕ) → decompress (compress w) ≡ some w
  pub compress-some : (w : List ℕ) → is_empty (compress w) ≡ false
  -- JSON of an object begins with a brace and is read back.
  pub json-brace :
      (es : List WireEntry) (text : String)
      → json_marshal es ≡ ok text
      → (str_eq text "" ≡ false) × (starts_with text "{" ≡ true)
  pub json_unmarshal-marshal :
      (es : List WireEntry) (text : String)
      → json_marshal es ≡ ok text
      → json_unmarshal text ≡ (es, true)

-- 250 * 1024
abbrev pub max_annotation_size : ℕ
max_annotation_size = 256000

-- base64.StdEncoding.EncodedLen
abbrev pub encoded_len : ℕ → ℕ
encoded_len n = (n + 2) / 3 * 4

module _ {S : Type 0} (codec : HistoryCodec S) where
  -- MarshalJSON, without the encoding of the fields: JSON of a nil config is no text, which is an error.
  unfoldable pub marshal_json : S → Result WireEntry
  marshal_json e =
      if codec.is_nil e
      then err plain_error
      else codec.marshal e >>= λ w. ok (record { wire = []; wirev2 = codec.compress w })

  unfoldable pub marshal_all : List S → Result (List WireEntry)
  marshal_all [] = ok []
  marshal_all (e ∷ es) = do w ← marshal_json e; ws ← marshal_all es; ok (w ∷ ws)

  -- What UnmarshalJSON leaves in an entry: the config, the wire, and whether it succeeds
  pub record Unmarshalled : Type 0 where
    pub config : S
    pub wire_left : List ℕ
    pub success : Bool

  unmarshal_wire : Option (List ℕ) → Unmarshalled
  unmarshal_wire none = record { config = codec.nil_config; wire_left = []; success = false }
  unmarshal_wire (some w) =
      if is_empty w
      then record { config = codec.nil_config; wire_left = w; success = true }
      else record { config = (codec.unmarshal w).0; wire_left = w; success = (codec.unmarshal w).1 }

  unfoldable pub unmarshal_json : WireEntry → Unmarshalled
  unfolding unmarshal_wire
  unmarshal_json e =
      unmarshal_wire (if is_empty e.wirev2 then some e.wire else codec.decompress e.wirev2)

  abbrev pub configs_of : List Unmarshalled → List S
  configs_of [] = []
  configs_of (u ∷ us) = u.config ∷ configs_of us

  -- What json.Unmarshal leaves as the configs of the entries, with and without an error
  unfoldable pub decode_v2 : String → List S
  unfolding unmarshal_json
  decode_v2 text = configs_of (map unmarshal_json (codec.json_unmarshal text).0)

  all_succeed : List Unmarshalled → Bool
  all_succeed [] = true
  all_succeed (u ∷ us) = let rest = all_succeed us in if u.success then rest else false

  -- The loop of the first version over the entries: proto.Unmarshal into a nil config panics. Else it
  -- reads what UnmarshalJSON did, again.
  unmarshal_again : List Unmarshalled → Result (List S)
  unmarshal_again [] = ok []
  unmarshal_again (u ∷ us) =
      let rest = unmarshal_again us in
      if is_empty u.wire_left then panic else rest >>= λ es. ok (u.config ∷ es)

  decode_v1_json : List WireEntry × Bool → Result (List S)
  unfolding unmarshal_json all_succeed unmarshal_again
  decode_v1_json (ws, good) =
      let us = map unmarshal_json ws in
      if (if good then all_succeed us else false) then unmarshal_again us else ok (configs_of us)

  -- An error leaves no entries, or those that json.Unmarshal left.
  unfoldable pub decode_v1 : String → Result (List S)
  unfolding decode_v1_json
  decode_v1 text = elim (codec.base64_decode text) [
    | none ↦ ok []
    | some block ↦ elim (codec.decompress block) [
      | none ↦ ok []
      | some json ↦ decode_v1_json (codec.json_unmarshal (codec.text_of json))
    ]
  ]

  -- decodeHistory: str[0] of an empty text is out of range. Its callers drop its error.
  unfoldable pub decode_history : String → Result (List S)
  unfolding decode_v1 decode_v2
  decode_history text =
      if str_eq text ""
      then panic
      else if starts_with text "{"
      then ok (decode_v2 text)
      else decode_v1 text

  -- What an entry counts for, with {"wire":""},
  abbrev pub entry_size : ℕ → ℕ
  entry_size n = encoded_len (codec.max_encoded_len (12 + n))

  -- The entries with the sizes of their messages
  pub sized : List S → Result (List (S × ℕ))
  sized [] = ok []
  sized (e ∷ es) = codec.marshal e >>= λ w. sized es >>= λ rest. ok ((e, length w) ∷ rest)

  -- The entries that fit, the newest first
  unfoldable pub fitting : ℕ → List (S × ℕ) → List S
  fitting size [] = []
  fitting size ((e, n) ∷ es) =
      let more = fitting (size + entry_size n) es in
      if ltb max_annotation_size (size + entry_size n) then [] else e ∷ more

  -- The loop over the entries, from the newest on; {"entries":[]} has a size of 14.
  abbrev pub truncated : List (S × ℕ) → List S
  truncated es = reverse (fitting 14 (reverse es))

  -- encodeHistory, less the count of the entries
  unfoldable pub encode_history : List S → Result String
  unfolding sized fitting marshal_all
  encode_history es =
      sized es >>= λ all. marshal_all (truncated all) >>= λ ws. codec.json_marshal ws
