-- ===== src/Drivers/Crds/Instances.antt =====
-- Instances for the tests of the store in Kubernetes objects: a setting with a size, whose history can be
-- encoded when it is empty or has its first version only.
pub mod ApiServer
use protoconfig.Prelude.{
  ℕ, ◌+◌, ◌/◌, ◌==◌, ◌<◌, ◌≡◌, ◌≢◌, ◌⊎◌, inl, inr, refl, sym, ap, subst, ◌∙◌, Bool, Bool-cases,
  true, false, Option, Option-cases, none, some, List, [], ◌∷◌, ◌++◌, String, str_eq, if◌then◌else◌,
  arith, length,
}
use text.Mathlib.Text.{starts_with}
use protoconfig.Prelude.Int64.{Int64}
use protoconfig.Storage.Errors.{Error, Result, ok, err, panic, is_conflict, plain_error}
use protoconfig.Storage.Options.{with_revision, with_revision_out}
use protoconfig.Server.Revisions.{Revision, updated_revision}
use protoconfig.Server.ConfigTypes.{ConfigType, valid, unset_revision, set_revision}
use protoconfig.Drivers.Crds
use protoconfig.Drivers.Crds.Api.{
  ApiError, missing, conflict, exists, Reply, done, failed, Object, Client,
}
use protoconfig.Drivers.Crds.Encoding.{HistoryCodec, WireEntry, encode_history, decode_history}
use protoconfig.Drivers.Crds.{Methods}

pub record Setting : Type 0 where
  pub revision : Option Revision
  pub size : ℕ

abbrev pub setting : ConfigType
setting = record {
  Spec = Setting;
  Violations = Unit {0};
  new_spec = record { revision = none; size = 0 };
  get_revision = λ t. t.revision;
  with_revision_field = λ r t. record t { revision = r };
  redact_secrets = λ t. t;
  unredact_secrets = λ t from. ok t;
  merge_with_replace = λ dst src. record dst { size = src.size };
  exclusive_keep = λ ps t. t;
  normalize = λ ps. ps;
  is_valid_mask = λ ps t. true;
  append_path = λ p ps. ok (p ∷ ps);
  masked_fields = "size" ∷ [];
  has_field = λ f t. if t.size == 0 then false else true;
  clear_field = λ f t. record t { size = 0 };
  validate = λ t. valid;
  default_loader = λ t. record t { size = 4 };
  get_revision-with_revision_field = λ r t. refl;
  redact_twice = λ t. refl;
  redact_revision = λ r t. refl;
}

abbrev pub methods : Methods Setting ℕ
methods = record {
  empty_body = 0;
  set_owner = λ b. b;
  fill_object = λ c b. c.size;
  fill_config = λ b. record { revision = none; size = b };
}

abbrev pub first : Setting
first = record { revision = some (record { revision = some 1; timestamp = none }); size = 7 }

abbrev pub is_none : Option ℕ → Bool
is_none none = true
is_none (some t) = false

abbrev pub is_one : Option Int64 → Bool
is_one none = false
is_one (some v) = v == 1

abbrev pub is_first : Setting → Bool
is_first e = elim e.revision [
  | none ↦ false
  | some r ↦
      if is_one r.revision then (if is_none r.timestamp then e.size == 7 else false) else false
]

-- Only the first version can be marshalled: to one byte.
abbrev pub marshal : Setting → Result (List ℕ)
marshal e = if is_first e then ok (7 ∷ []) else err plain_error

abbrev pub decompress : List ℕ → Option (List ℕ)
decompress [] = none
decompress (b ∷ bs) = some bs

abbrev pub first_wire : WireEntry
first_wire = record { wire = []; wirev2 = 1 ∷ 7 ∷ [] }

abbrev pub is_block : List ℕ → Bool
is_block [] = false
is_block (a ∷ []) = false
is_block (a ∷ b ∷ []) = if a == 1 then b == 7 else false
is_block (a ∷ b ∷ c ∷ bs) = false

abbrev pub is_first_wire : List ℕ → List ℕ → Bool
is_first_wire [] w = is_block w
is_first_wire (a ∷ bs) w = false

abbrev pub json_marshal : List WireEntry → Result String
json_marshal [] = ok "{}"
json_marshal (e ∷ []) = if is_first_wire e.wire e.wirev2 then ok "{1}" else err plain_error
json_marshal (e ∷ f ∷ es) = err plain_error

abbrev pub json_unmarshal : String → List WireEntry × Bool
json_unmarshal text = (if str_eq text "{1}" then first_wire ∷ [] else [], true)

is_one-equals : (o : Option Int64) → is_one o ≡ true → o ≡ some 1
is_one-equals none h = absurd (ground (arith, h))
is_one-equals (some v) h = ground (arith, h)

revision_equals :
    (r : Revision) → r.revision ≡ some 1 → r.timestamp ≡ none → some r ≡ first.revision
revision_equals r p q =
    ap (λ x. some (record { revision = x; timestamp = r.timestamp })) p
    ∙ ap (λ x. some (record { revision = some 1; timestamp = x })) q

is_first-revision :
    (o : Option Revision) (n : ℕ)
    → is_first (record { revision = o; size = n }) ≡ true
    → (o ≡ first.revision) × (n ≡ 7)
is_first-revision none n h = absurd (ground (arith, h))
is_first-revision (some r) n h = elim (Option-cases r.timestamp) [
  | inl q ↦
      (revision_equals r (is_one-equals r.revision (ground (arith, h, q))) q, ground (arith, h, q))
  | inr (t, q) ↦ absurd (ground (arith, h, q))
]

is_first-equals : (e : Setting) → is_first e ≡ true → e ≡ first
is_first-equals e h =
    let (p, q) = is_first-revision e.revision e.size h in
    ap (λ x. record { revision = x; size = e.size }) p
    ∙ ap (λ n. record { revision = first.revision; size = n }) q

abbrev pub unmarshal : List ℕ → Setting × Bool
unmarshal w = (first, true)

pub unmarshal-marshal : (e : Setting) (w : List ℕ) → marshal e ≡ ok w → unmarshal w ≡ (e, true)
unmarshal-marshal e w h = elim (Bool-cases (is_first e)) [
  | inl p ↦ ap (λ x. (x, true)) (sym (is_first-equals e p))
  | inr p ↦ absurd (ground (arith, h, p))
]

pub marshal-nothing : (e : Setting) → marshal e ≡ ok [] → false ≡ true
marshal-nothing e h = elim (Bool-cases (is_first e)) [
  | inl p ↦ absurd (ground (arith, h, p))
  | inr p ↦ absurd (ground (arith, h, p))
]

is_block-equals : (w : List ℕ) → is_block w ≡ true → w ≡ 1 ∷ 7 ∷ []
is_block-equals [] h = absurd (ground (arith, h))
is_block-equals (a ∷ []) h = absurd (ground (arith, h))
is_block-equals (a ∷ b ∷ []) h = ground (arith, h)
is_block-equals (a ∷ b ∷ c ∷ bs) h = absurd (ground (arith, h))

is_first_wire-equals :
    (v w : List ℕ) → is_first_wire v w ≡ true → record { wire = v; wirev2 = w } ≡ first_wire
is_first_wire-equals [] w h = ap (λ x. record { wire = []; wirev2 = x }) (is_block-equals w h)
is_first_wire-equals (a ∷ bs) w h = absurd (ground (arith, h))

pub json-brace :
    (es : List WireEntry) (text : String)
    → json_marshal es ≡ ok text
    → (str_eq text "" ≡ false) × (starts_with text "{" ≡ true)
json-brace [] text h =
    let p : "{}" ≡ text = ground (arith, h) in
    subst (λ x. (str_eq x "" ≡ false) × (starts_with x "{" ≡ true)) p (refl, refl)
json-brace (e ∷ []) text h = elim (Bool-cases (is_first_wire e.wire e.wirev2)) [
  | inl p ↦
      (let is_text : "{1}" ≡ text = ground (arith, h, p) in
        subst (λ x. (str_eq x "" ≡ false) × (starts_with x "{" ≡ true)) is_text (refl, refl))
  | inr p ↦ absurd (ground (arith, h, p))
]
json-brace (e ∷ f ∷ es) text h = absurd (ground (arith, h))

pub json_unmarshal-marshal :
    (es : List WireEntry) (text : String)
    → json_marshal es ≡ ok text
    → json_unmarshal text ≡ (es, true)
json_unmarshal-marshal [] text h =
    let p : "{}" ≡ text = ground (arith, h) in subst (λ x. json_unmarshal x ≡ ([], true)) p refl
json_unmarshal-marshal (e ∷ []) text h = elim (Bool-cases (is_first_wire e.wire e.wirev2)) [
  | inl p ↦
      (let is_text : "{1}" ≡ text = ground (arith, h, p) in
        subst (λ x. json_unmarshal x ≡ (e ∷ [], true)) is_text
          (ap (λ x. (x ∷ [], true)) (sym (is_first_wire-equals e.wire e.wirev2 p))))
  | inr p ↦ absurd (ground (arith, h, p))
]
json_unmarshal-marshal (e ∷ f ∷ es) text h = absurd (ground (arith, h))

abbrev pub codec : HistoryCodec Setting
codec = record {
  nil_config = record { revision = none; size = 0 };
  is_nil = λ e. false;
  marshal = marshal;
  unmarshal = unmarshal;
  max_encoded_len = λ n. 32 + n + n / 6;
  compress = λ w. 1 ∷ w;
  decompress = decompress;
  base64_decode = λ text. none;
  text_of = λ bytes. "";
  json_marshal = json_marshal;
  json_unmarshal = json_unmarshal;
  unmarshal-marshal = unmarshal-marshal;
  marshal-nothing = marshal-nothing;
  decompress-compress = λ w. refl;
  compress-some = λ w. refl;
  json-brace = json-brace;
  json_unmarshal-marshal = json_unmarshal-marshal;
}
