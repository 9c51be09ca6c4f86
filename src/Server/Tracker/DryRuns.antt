-- ===== src/Server/Tracker/DryRuns.antt =====
-- server/config.go: what a call would do, without doing it.
pub mod Laws
pub mod Redaction
use protoconfig.Prelude.{
  ◌==◌, Bool, true, false, not, Option, none, some, List, [], ◌∷◌, String, if◌then◌else◌,
}
use protoconfig.Storage.Errors.{
  Result, ok, err, panic, ◌>>=◌, err_conflict, status_error, plain_error, invalid_argument,
  internal,
}
use protoconfig.Server.Revisions.{Revision, revision_value}
use protoconfig.Prelude.Int64.{Int64}
use protoconfig.Server.ConfigTypes.{
  ConfigType, StoreOf, Validation, valid, violates, failed, set_revision, copy_revision,
}
use protoconfig.Server.Tracker.{
  AtRevision, Target, active, default, other_target, Stores, maybe_with_revision, new_default_spec,
  any_empty, get_default_locked, get_config_or_default_locked, reset_merge,
}

pub data Action : Type 0 where
  no_action set reset : Action

pub record DryRunResults (C : ConfigType) : Type 0 where
  pub current : C.Spec
  pub modified : C.Spec
  pub validation_errors : Option C.Violations

pub record DryRunRequest (C : ConfigType) : Type 0 where
  pub target : Target
  pub action : Action
  pub spec : C.Spec
  pub revision : Option Revision
  pub patch : C.Spec
  pub mask : Option (List String)

run_validation : (C : ConfigType) → C.Spec → Result (Option C.Violations)
run_validation C conf = elim (C.validate conf) [
  | valid ↦ ok none
  | violates v ↦ ok (some v)
  | failed ↦ err (status_error internal)
]

-- A dry run refuses a config that names another revision than the current one.
stale : Option Revision → Int64 → Bool
stale none rev = false
stale (some r) rev = not (revision_value (some r) == rev)

module _ (C : ConfigType) (D A : StoreOf C.Spec) where
  -- The results, once the modified config is validated.
  pub validated : C.Spec → C.Spec → Result (DryRunResults C)
  unfolding run_validation
  validated current modified = do
    errors ← run_validation C modified
    ok (record { current = current; modified = modified; validation_errors = errors })

  unfoldable pub dry_run_apply : C.Spec → Stores C D A → Result (DryRunResults C)
  unfolding get_config_or_default_locked stale validated
  dry_run_apply new_config st = do
    found ← get_config_or_default_locked C D A [] st
    if stale (C.get_revision new_config) found.1
        then err err_conflict
        else C.unredact_secrets new_config found.0 >>= λ unredacted.
            let current = C.redact_secrets found.0 in
            let modified = C.redact_secrets (C.merge_with_replace found.0 unredacted) in
            validated current (copy_revision C modified current)

  unfoldable pub dry_run_set_default : C.Spec → Stores C D A → Result (DryRunResults C)
  unfolding get_default_locked stale validated
  dry_run_set_default new_default st = do
    found ← get_default_locked C D A [] st
    if stale (C.get_revision new_default) found.1
        then err err_conflict
        else C.unredact_secrets new_default found.0 >>= λ unredacted.
            let current = set_revision C found.1 none (C.redact_secrets found.0) in
            validated current (copy_revision C (C.redact_secrets unredacted) current)

  unfoldable pub dry_run_reset_default : AtRevision → Stores C D A → Result (DryRunResults C)
  unfolding validated
  dry_run_reset_default at st = do
    found ← D.get (maybe_with_revision at []) st.defaults
    validated (C.redact_secrets found.0) (C.redact_secrets (new_default_spec C D A))

  -- A mask that is not valid gives an error without a status, an empty path an invalid argument.
  pub mask_error : List String → C.Spec → Result (Unit {0})
  unfolding any_empty
  mask_error paths active_config =
      if C.is_valid_mask paths active_config
      then (if any_empty paths then err (status_error invalid_argument) else ok tt)
      else err plain_error

  pub dry_run_reset_to : Option (List String) → C.Spec → C.Spec → C.Spec → Result (DryRunResults C)
  unfolding validated mask_error reset_merge
  dry_run_reset_to none patch active_config default_config =
      validated (C.redact_secrets active_config) (C.redact_secrets default_config)
  dry_run_reset_to (some mask) patch active_config default_config = do
    let paths = C.normalize mask
    _ ← mask_error paths active_config
    merged ← reset_merge C D A paths patch active_config default_config
    validated (C.redact_secrets active_config) (C.redact_secrets merged)

  unfoldable pub dry_run_reset :
      Option (List String) → C.Spec → AtRevision → Stores C D A → Result (DryRunResults C)
  unfolding get_default_locked dry_run_reset_to
  dry_run_reset mask patch at st = do
    found ← A.get (maybe_with_revision at []) st.actives
    default_config ← get_default_locked C D A [] st
    dry_run_reset_to mask patch found.0 default_config.0

  unfoldable pub dry_run : DryRunRequest C → Stores C D A → Result (DryRunResults C)
  unfolding dry_run_apply dry_run_set_default dry_run_reset_default dry_run_reset
  dry_run req st = elim req.target [
    | active ↦ elim req.action [
      | set ↦ dry_run_apply req.spec st
      | reset ↦ dry_run_reset req.mask req.patch (req.revision ∷ []) st
      | no_action ↦ err plain_error
    ]
    | default ↦ elim req.action [
      | set ↦ dry_run_set_default req.spec st
      | reset ↦ dry_run_reset_default (req.revision ∷ []) st
      | no_action ↦ err plain_error
    ]
    | other_target ↦ err plain_error
  ]
