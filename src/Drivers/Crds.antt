-- ===== src/Drivers/Crds.antt =====
-- storage/drivers/crds/value_store.go: a config in a Kubernetes object, whose earlier versions are kept
-- in an annotation of the object. The API server is an interface, and so are the methods that turn
-- configs into objects. A panic leaves what the server stores. A nil value stands for the empty config.
pub mod Api
pub mod Encoding
pub mod Watch
pub mod Writes
pub mod Histories
pub mod Readings
pub mod Older
pub mod Progress
pub mod Backend
pub mod Tracked
pub mod Refusals
pub mod Spoiled
mod Instances
mod Examples
use protoconfig.Prelude.{
  ℕ, ◌==◌, ◌≡◌, ◌-◌, ltb, Bool, true, false, not, Option, none, some, List, [], ◌∷◌, ◌++◌, map,
  String, if◌then◌else◌, length, drop, refl, ap,
}
use protoconfig.Prelude.Int64.{Int64, gtb64}
use protoconfig.Storage.Errors.{
  Error, Result, ok, err, panic, ◌>>=◌, err_conflict, status_error, out_of_range, not_found,
  unimplemented,
}
use protoconfig.Storage.Options.{
  GetOpt, PutOpt, DeleteOpt, HistoryOpt, GetOptions, PutOptions, HistoryOptions, apply_get,
  apply_put, apply_delete, apply_history, no_get_options, no_put_options, no_delete_options,
  no_history_options,
}
use protoconfig.Storage.Stores.{KeyRevision}
use protoconfig.Server.Revisions.{Revision, revision_value}
use protoconfig.Server.ConfigTypes.{ConfigType, set_revision, unset_revision}
use protoconfig.Drivers.Crds.Api.{
  ApiError, missing, to_grpc_error, Reply, done, failed, Annotations, Object, Client,
}
use protoconfig.Drivers.Crds.Encoding.{HistoryCodec, decode_history, encode_history}

-- ValueStoreMethods over the rest of an object: a new one, SetControllerReference where there is a
-- reference, FillObjectFromConfig, and FillConfigFromObject into an empty config.
pub record Methods (S B : Type 0) : Type 0 where
  pub empty_body : B
  pub set_owner : B → B
  pub fill_object : S → B → B
  pub fill_config : B → S

-- strconv.ParseInt of the resource version, with its error ignored
abbrev pub version_number : Option Int64 → Int64
version_number none = 0
version_number (some v) = v

abbrev pub no_annotations : Annotations
no_annotations = record { history = none; last_modified = none }

abbrev pub annotations_of : Option Annotations → Annotations
annotations_of none = no_annotations
annotations_of (some a) = a

-- The time of the last write: the annotation, or the creation of the object
abbrev pub modified_time : Option ℕ → ℕ → ℕ
modified_time none created = created
modified_time (some t) created = t

-- The newest 64
abbrev pub newest {ℓ} : {A : Type ℓ} → List A → List A
newest es = drop (length es - 64) es

abbrev pub revision_reply : Bool → Option Int64 → Option Int64
revision_reply asked v = if asked then some (version_number v) else none

module _ (C : ConfigType) {B : Type 0} (methods : Methods C.Spec B)
    (codec : HistoryCodec C.Spec) where
  -- What the history annotation decodes to
  pub decoded : Option String → Result (List C.Spec)
  decoded none = ok []
  decoded (some text) = decode_history codec text

  -- The config of an object, with the revision that appendSpecToHistory gives it
  pub recorded : Object B → C.Spec
  recorded o =
      let conf = methods.fill_config o.body in
      let time = modified_time (annotations_of o.annotations).last_modified o.created in
      elim o.version [ none ↦ conf | some v ↦ set_revision C v (some time) conf ]

  -- The annotations that appendSpecToHistory leaves. The map of the object is changed in place, so an
  -- error leaves an empty text, unless the object has no map.
  pub appended : ℕ → Object B → Result String → Result (Object B)
  appended now o (ok text) =
      ok
        (record o { annotations = some (record { history = some text; last_modified = some now }) })
  appended now o (err e) = elim o.annotations [
    | none ↦ ok o
    | some a ↦
        ok
          (record o { annotations = some (record { history = some ""; last_modified = some now }) })
  ]
  appended now o panic = panic

  -- The annotations that Put goes on with; it ignores the error.
  pub append_spec_to_history : ℕ → Object B → Result (Object B)
  unfolding decoded recorded appended
  append_spec_to_history now o = decoded (annotations_of o.annotations).history >>= λ entries.
      appended now o (encode_history codec (newest (entries ++ recorded o ∷ [])))

  -- readHistory: the entries, and the config of the object
  pub read_history : Object B → Result (List C.Spec)
  unfolding decoded
  read_history o =
      let time = modified_time (annotations_of o.annotations).last_modified o.created in
      decoded (annotations_of o.annotations).history >>= λ entries. ok (
        entries
        ++ set_revision C (version_number o.version) (some time) (methods.fill_config o.body) ∷ [])

  pub spec_revision : C.Spec → Int64
  spec_revision t = revision_value (C.get_revision t)

  -- The first entry with a revision
  pub find_entry : Int64 → List C.Spec → Option C.Spec
  unfolding spec_revision
  find_entry r [] = none
  find_entry r (e ∷ es) =
      let later = find_entry r es in if spec_revision e == r then some e else later

  -- Get at a revision other than the latest
  pub get_entry : Int64 → Int64 → Option C.Spec → Result (C.Spec × Int64)
  get_entry r latest none = err (status_error (if gtb64 r latest then out_of_range else not_found))
  get_entry r latest (some e) = ok (unset_revision C e, r)

  pub get_object : Option Int64 → Object B → Result (C.Spec × Int64)
  unfolding decoded find_entry get_entry
  get_object none o = ok (unset_revision C (methods.fill_config o.body), version_number o.version)
  get_object (some r) o =
      let older = decoded (annotations_of o.annotations).history >>= λ entries.
      get_entry r (version_number o.version) (find_entry r entries) in
      if r == version_number o.version
      then ok (unset_revision C (methods.fill_config o.body), version_number o.version)
      else older

  -- The revisions of History, up to the one that is asked for
  pub history_entries : HistoryOptions → List C.Spec → List (KeyRevision (Option C.Spec))
  unfolding spec_revision
  history_entries o [] = []
  history_entries o (e ∷ es) =
      let rest = history_entries o es in
      record {
        key = "";
        value = if o.include_values then some (unset_revision C e) else none;
        revision = spec_revision e;
        timestamp = elim (C.get_revision e) [ none ↦ 0 | some r ↦ modified_time r.timestamp 0 ];
      }
      ∷ (if (elim o.revision [ none ↦ false | some r ↦ spec_revision e == r ]) then [] else rest)

  module _ (api : Client B) where
    abbrev pub put_reply :
        PutOptions → Reply (Object B) × api.State → Result (Option Int64) × api.State
    put_reply o (done n, s) = (ok (revision_reply o.revision_out n.version), s)
    put_reply o (failed e, s) = (err (to_grpc_error e), s)

    -- The object that is written
    abbrev pub filled : C.Spec → Object B → Object B
    filled value o = record o { body = methods.fill_object value (methods.set_owner o.body) }

    abbrev pub new_object : Object B
    new_object = record {
      version = none;
      created = 0;
      annotations = none;
      body = methods.empty_body;
    }

    pub put_existing :
        C.Spec → PutOptions → Object B → api.State → Result (Option Int64) × api.State
    put_existing value o obj s = elim o.revision [
      | none ↦ put_reply o (api.update (filled value obj) s)
      | some r ↦
          if r == 0
          then (err err_conflict, s)
          else put_reply o (api.update (record (filled value obj) { version = some r }) s)
    ]

    pub put_appended :
        C.Spec → PutOptions → Result (Object B) → api.State → Result (Option Int64) × api.State
    unfolding put_existing
    put_appended value o (ok obj) s = put_existing value o obj s
    put_appended value o (err e) s = (err e, s)
    put_appended value o panic s = (panic, s)

    -- What follows the read of the object: a new one is created, whatever revision is named.
    pub put_found :
        ℕ → C.Spec → PutOptions → Reply (Object B) → api.State → Result (Option Int64) × api.State
    unfolding append_spec_to_history put_appended
    put_found now value o (done obj) s = put_appended value o (append_spec_to_history now obj) s
    put_found now value o (failed missing) s = put_reply o (api.create (filled value new_object) s)
    put_found now value o (failed e) s = (err (to_grpc_error e), s)

    pub put_with : ℕ → C.Spec → PutOptions → api.State → Result (Option Int64) × api.State
    unfolding put_found
    put_with now value o s = put_found now value o (api.get s) s

    unfoldable pub put : ℕ → C.Spec → List PutOpt → api.State → Result (Option Int64) × api.State
    unfolding put_with
    put now value opts s = put_with now value (apply_put no_put_options opts) s

    pub get_found : GetOptions → Reply (Object B) → Result (C.Spec × Option Int64)
    unfolding get_object
    get_found o (done obj) = get_object o.revision obj >>= λ found.
        ok (found.0, if o.revision_out then some found.1 else none)
    get_found o (failed e) = err (to_grpc_error e)

    pub get_with : GetOptions → api.State → Result (C.Spec × Option Int64)
    unfolding get_found
    get_with o s = get_found o (api.get s)

    unfoldable pub get : List GetOpt → api.State → Result (C.Spec × Option Int64)
    unfolding get_with
    get opts s = get_with (apply_get no_get_options opts) s

    abbrev pub delete_reply : Reply (Unit {0}) × api.State → Result (Unit {0}) × api.State
    delete_reply (done _, s) = (ok tt, s)
    delete_reply (failed e, s) = (err (to_grpc_error e), s)

    pub delete_found : Option Int64 → Reply (Object B) → api.State → Result (Unit {0}) × api.State
    delete_found r (done obj) s = delete_reply (api.delete r s)
    delete_found r (failed e) s = (err (to_grpc_error e), s)

    unfoldable pub delete : ℕ → List DeleteOpt → api.State → Result (Unit {0}) × api.State
    unfolding delete_found
    delete now opts s = delete_found (apply_delete no_delete_options opts).revision (api.get s) s

    pub history_found :
        HistoryOptions → Reply (Object B) → Result (List (KeyRevision (Option C.Spec)))
    unfolding read_history history_entries
    history_found o (done obj) = read_history obj >>= λ entries. ok (history_entries o entries)
    history_found o (failed missing) =
        err (elim o.revision [ none ↦ to_grpc_error missing | some r ↦ status_error unimplemented ])
    history_found o (failed e) = err (to_grpc_error e)

    pub history_with : HistoryOptions → api.State → Result (List (KeyRevision (Option C.Spec)))
    unfolding history_found
    history_with o s = history_found o (api.get s)

    unfoldable pub history :
        List HistoryOpt → api.State → Result (List (KeyRevision (Option C.Spec)))
    unfolding history_with
    history opts s = history_with (apply_history no_history_options opts) s
