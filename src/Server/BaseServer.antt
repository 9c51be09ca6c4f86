-- ===== src/Server/BaseServer.antt =====
-- server/server.go: BaseConfigServer, which hands requests to the config tracker.
pub mod Laws
use protoconfig.Prelude.{
  ℕ, Bool, true, false, Option, none, some, List, [], ◌∷◌, ◌++◌, map, String, if◌then◌else◌,
}
use protoconfig.Storage.Errors.{
  Error, Result, ok, err, panic, ◌>>=◌, status_error, invalid_argument,
}
use protoconfig.Storage.Options.{HistoryOpt}
use protoconfig.Storage.Stores.{KeyRevision}
use protoconfig.Server.Revisions.{Revision, revision_value}
use protoconfig.Server.ConfigTypes.{ConfigType, StoreOf, set_revision}
use protoconfig.Server.Tracker
use protoconfig.Server.Tracker.{Target, Stores}

module _ (C : ConfigType) where
  -- The fields that the config has are cleared.
  clear_fields : List String → C.Spec → C.Spec
  clear_fields [] spec = spec
  clear_fields (f ∷ fs) spec =
      let kept = clear_fields fs spec in
      let cleared = clear_fields fs (C.clear_field f spec) in
      if C.has_field f spec then cleared else kept

  pub clear_masked_fields : C.Spec → C.Spec
  unfolding clear_fields
  clear_masked_fields spec = clear_fields C.masked_fields spec

  -- The mask with each of the fields appended; the first that cannot be is an invalid argument.
  append_all : List String → List String → Result (List String)
  append_all [] mask = ok mask
  append_all (f ∷ fs) mask = elim (C.append_path f mask) [
    | ok longer ↦ append_all fs longer
    | err e ↦ err (status_error invalid_argument)
    | panic ↦ panic
  ]

  -- The mask that Reset hands on: for a config type with masked fields there always is one.
  protected_mask : List String → Option (List String) → Result (Option (List String))
  unfolding append_all
  protected_mask [] mask = ok mask
  protected_mask (f ∷ fs) none = append_all (f ∷ fs) [] >>= λ m. ok (some m)
  protected_mask (f ∷ fs) (some mask) = append_all (f ∷ fs) mask >>= λ m. ok (some m)

module _ (C : ConfigType) (D A : StoreOf C.Spec) where
  unfoldable pub get : Option Revision → Stores C D A → Result C.Spec
  get revision st = Tracker.get_active_or_default C D A (revision ∷ []) st

  pub get_default : Option Revision → Stores C D A → Result C.Spec
  get_default revision st = Tracker.get_default C D A (revision ∷ []) st

  pub reset_default : ℕ → Stores C D A → Result (Unit {0}) × Stores C D A
  reset_default now st = Tracker.reset_default C D A now [] st

  reset_masked :
      ℕ → C.Spec → Result (Option (List String)) → Stores C D A → Result (Unit {0}) × Stores C D A
  reset_masked now patch (ok mask) st = Tracker.reset C D A now mask patch [] st
  reset_masked now patch (err e) st = (err e, st)
  reset_masked now patch panic st = (panic, st)

  unfoldable pub reset :
      ℕ → Option (List String) → C.Spec → Stores C D A → Result (Unit {0}) × Stores C D A
  unfolding protected_mask reset_masked clear_masked_fields
  reset now mask patch st =
      reset_masked now (clear_masked_fields C patch) (protected_mask C C.masked_fields mask) st

  unfoldable pub set : ℕ → C.Spec → Stores C D A → Result (Unit {0}) × Stores C D A
  unfolding clear_masked_fields
  set now spec st = Tracker.apply C D A now (clear_masked_fields C spec) st

  pub set_default : ℕ → C.Spec → Stores C D A → Result (Unit {0}) × Stores C D A
  unfolding clear_masked_fields
  set_default now spec st = Tracker.set_default C D A now (clear_masked_fields C spec) st

  pub history_options : Bool → Option Revision → List HistoryOpt
  history_options include none = HistoryOpt.include_values include ∷ []
  history_options include (some r) =
      HistoryOpt.include_values include ∷ HistoryOpt.with_revision (revision_value (some r)) ∷ []

  -- An entry of the answer: the value, or a new message, with the revision and its time.
  abbrev pub entry : Bool → KeyRevision C.Spec → C.Spec
  entry include k =
      set_revision C k.revision (some k.timestamp) (if include then k.value else C.new_spec)

  unfoldable pub history : Target → Bool → Option Revision → Stores C D A → Result (List C.Spec)
  unfolding history_options
  history target include revision st =
      Tracker.history C D A target (history_options include revision) st >>= λ ks.
      ok (map (entry include) ks)
