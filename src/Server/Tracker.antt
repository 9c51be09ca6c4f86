-- ===== src/Server/Tracker.antt =====
-- server/config.go: DefaultingConfigTracker, with a default store and an active store. Its lock makes
-- each call one step. A wrapped error keeps its status, so it stands for the error that it wraps.
pub mod DryRuns
pub mod Laws
use protoconfig.Prelude.{
  ℕ, ◌==◌, Bool, true, false, Option, none, some, List, [], ◌∷◌, ◌++◌, map, String, str_eq,
  if◌then◌else◌,
}
use protoconfig.Prelude.Int64.{Int64}
use protoconfig.Storage.Errors.{
  Error, Result, ok, err, panic, ◌>>=◌, is_not_found, status_error, plain_error, invalid_argument,
}
use protoconfig.Storage.Options.{GetOpt, PutOpt, DeleteOpt, HistoryOpt}
use protoconfig.Storage.Stores.{KeyRevision}
use protoconfig.Server.Revisions.{Revision, revision_value}
use protoconfig.Server.ConfigTypes.{ConfigType, StoreOf, set_revision, unset_revision}

-- The revision that a call is given, if any; it may be nil.
abbrev pub AtRevision : Type 0
AtRevision = List (Option Revision)

pub data Target : Type 0 where
  active default other_target : Target

abbrev pub maybe_with_revision : AtRevision → List GetOpt → List GetOpt
maybe_with_revision [] opts = opts
maybe_with_revision (none ∷ rs) opts = opts
maybe_with_revision (some r ∷ rs) opts = elim r.revision [
  | none ↦ opts
  | some v ↦ opts ++ GetOpt.with_revision v ∷ []
]

-- A revision that WithRevisionOut wrote, or the 0 that was there.
abbrev pub value_or_zero : Option Int64 → Int64
value_or_zero none = 0
value_or_zero (some r) = r

-- What ResetDefault passes to Delete: it dereferences the revision.
delete_options : AtRevision → Result (List DeleteOpt)
delete_options [] = ok []
delete_options (none ∷ rs) = panic
delete_options (some r ∷ rs) = elim r.revision [
  | none ↦ panic
  | some v ↦ ok (DeleteOpt.with_revision v ∷ [])
]

any_empty : List String → Bool
any_empty [] = false
any_empty (p ∷ ps) = let rest = any_empty ps in if str_eq p "" then true else rest

-- The error of a put, if any.
abbrev pub without_value : {A : Type 0} → Result A → Result (Unit {0})
without_value (ok a) = ok tt
without_value (err e) = err e
without_value panic = panic

-- The two stores.
pub record Stores (C : ConfigType) (D A : StoreOf C.Spec) : Type 0 where
  pub defaults : D.State
  pub actives : A.State

module _ (C : ConfigType) (D A : StoreOf C.Spec) where
  abbrev pub new_default_spec : C.Spec
  new_default_spec = C.default_loader C.new_spec

  -- getDefaultConfigLocked
  unfoldable pub get_default_locked : AtRevision → Stores C D A → Result (C.Spec × Int64)
  get_default_locked at st =
      elim (D.get (maybe_with_revision at (GetOpt.with_revision_out true ∷ [])) st.defaults) [
        | ok found ↦ ok (found.0, value_or_zero found.1)
        | err e ↦ if is_not_found e then ok (new_default_spec, 0) else err e
        | panic ↦ panic
      ]

  -- The read of the active store with its revision.
  unfoldable pub get_active_locked : AtRevision → Stores C D A → Result (C.Spec × Int64)
  get_active_locked at st =
      A.get (maybe_with_revision at (GetOpt.with_revision_out true ∷ [])) st.actives >>= λ found.
      ok (found.0, value_or_zero found.1)

  -- getConfigOrDefaultLocked. The default store is read first, so its panic ends the call. Where both reads fail and the default's error is not "not found", the
  -- error that is wrapped is that of the active read.
  default_instead : Error → Result (C.Spec × Option Int64) → Result (C.Spec × Int64)
  default_instead active_error (ok found) = ok (found.0, 0)
  default_instead active_error (err e) =
      if is_not_found e then ok (new_default_spec, 0) else err active_error
  default_instead active_error panic = panic

  active_instead :
      Result (C.Spec × Option Int64) → Result (C.Spec × Int64) → Result (C.Spec × Int64)
  unfolding default_instead
  active_instead panic active_read = panic
  active_instead (ok d) active_read = elim active_read [
    | ok found ↦ ok found
    | err e ↦ if is_not_found e then default_instead e (ok d) else err e
    | panic ↦ panic
  ]
  active_instead (err x) active_read = elim active_read [
    | ok found ↦ ok found
    | err e ↦ if is_not_found e then default_instead e (err x) else err e
    | panic ↦ panic
  ]

  pub get_config_or_default_locked : AtRevision → Stores C D A → Result (C.Spec × Int64)
  unfolding get_active_locked active_instead
  get_config_or_default_locked at st =
      active_instead (D.get [] st.defaults) (get_active_locked at st)

  -- The end of the reads: secrets redacted, the revision set.
  abbrev pub finished : C.Spec × Int64 → Result C.Spec
  finished found = ok (set_revision C found.1 none (C.redact_secrets found.0))

  unfoldable pub get_default : AtRevision → Stores C D A → Result C.Spec
  unfolding get_default_locked
  get_default at st = get_default_locked at st >>= finished

  unfoldable pub get : AtRevision → Stores C D A → Result C.Spec
  unfolding get_active_locked
  get at st = get_active_locked at st >>= finished

  unfoldable pub get_active_or_default : AtRevision → Stores C D A → Result C.Spec
  unfolding get_config_or_default_locked
  get_active_or_default at st = get_config_or_default_locked at st >>= finished

  -- The put that ends a call, of the value and at the revision that it worked out.
  pub put_default : ℕ → Result (C.Spec × Int64) → Stores C D A → Result (Unit {0}) × Stores C D A
  put_default now (ok (spec, r)) st =
      let (out, s) = D.put now spec (PutOpt.with_revision r ∷ []) st.defaults in
      (without_value out, record st { defaults = s })
  put_default now (err e) st = (err e, st)
  put_default now panic st = (panic, st)

  unfoldable pub put_active :
      ℕ → Result (C.Spec × Int64) → Stores C D A → Result (Unit {0}) × Stores C D A
  put_active now (ok (spec, r)) st =
      let (out, s) = A.put now spec (PutOpt.with_revision r ∷ []) st.actives in
      (without_value out, record st { actives = s })
  put_active now (err e) st = (err e, st)
  put_active now panic st = (panic, st)

  set_default_value : C.Spec → Stores C D A → Result (C.Spec × Int64)
  unfolding get_default_locked
  set_default_value new_default st = do
    existing ← get_default_locked [] st
    unredacted ← C.unredact_secrets new_default existing.0
    ok (unset_revision C unredacted, revision_value (C.get_revision new_default))

  unfoldable pub set_default : ℕ → C.Spec → Stores C D A → Result (Unit {0}) × Stores C D A
  unfolding set_default_value put_default
  set_default now new_default st = put_default now (set_default_value new_default st) st

  delete_default : ℕ → Result (List DeleteOpt) → Stores C D A → Result (Unit {0}) × Stores C D A
  delete_default now (ok opts) st =
      let (out, s) = D.delete now opts st.defaults in (out, record st { defaults = s })
  delete_default now (err e) st = (err e, st)
  delete_default now panic st = (panic, st)

  unfoldable pub reset_default : ℕ → AtRevision → Stores C D A → Result (Unit {0}) × Stores C D A
  unfolding delete_options delete_default
  reset_default now at st = delete_default now (delete_options at) st

  -- What Reset stores for a normalized mask: the default config, with the fields of the mask kept from
  -- the active config and then changed by the patch.
  pub reset_merge : List String → C.Spec → C.Spec → C.Spec → Result C.Spec
  reset_merge mask patch active_config default_config = do
    let kept = C.exclusive_keep mask active_config
    unredacted ← C.unredact_secrets patch kept
    let changed = C.merge_with_replace kept (C.exclusive_keep mask unredacted)
    ok (C.merge_with_replace default_config changed)

  reset_value : List String → C.Spec → C.Spec × Int64 → Stores C D A → Result (C.Spec × Int64)
  unfolding get_default_locked any_empty reset_merge
  reset_value mask patch found st = do
    default_config ← get_default_locked [] st
    let paths = C.normalize mask
    if not_accepted paths
        then err (status_error invalid_argument)
        else reset_merge paths patch found.0 default_config.0 >>= λ merged. ok (merged, found.1)
    where
      not_accepted : List String → Bool
      not_accepted paths = if C.is_valid_mask paths found.0 then any_empty paths else true

  -- The rest of Reset, after the read of the active config.
  reset_found :
      ℕ
      → Option (List String)
      → C.Spec
      → Result (C.Spec × Int64)
      → Stores C D A
      → Result (Unit {0}) × Stores C D A
  unfolding reset_value put_active
  reset_found now none patch (ok found) st =
      let (out, s) = A.delete now (DeleteOpt.with_revision found.1 ∷ []) st.actives in
      (out, record st { actives = s })
  reset_found now (some mask) patch (ok found) st =
      put_active now (reset_value mask patch found st) st
  reset_found now mask patch (err e) st = (err e, st)
  reset_found now mask patch panic st = (panic, st)

  unfoldable pub reset :
      ℕ
      → Option (List String)
      → C.Spec
      → AtRevision
      → Stores C D A
      → Result (Unit {0}) × Stores C D A
  unfolding get_active_locked reset_found
  reset now mask patch at st = reset_found now mask patch (get_active_locked at st) st

  apply_value : C.Spec → Stores C D A → Result (C.Spec × Int64)
  unfolding get_config_or_default_locked
  apply_value new_config st = do
    existing ← get_config_or_default_locked (C.get_revision new_config ∷ []) st
    unredacted ← C.unredact_secrets new_config existing.0
    ok (unset_revision C (C.merge_with_replace existing.0 unredacted), existing.1)

  unfoldable pub apply : ℕ → C.Spec → Stores C D A → Result (Unit {0}) × Stores C D A
  unfolding apply_value put_active
  apply now new_config st = put_active now (apply_value new_config st) st

  abbrev redact_revision_value : KeyRevision C.Spec → KeyRevision C.Spec
  redact_revision_value k = record k { value = C.redact_secrets k.value }

  unfoldable pub history :
      Target → List HistoryOpt → Stores C D A → Result (List (KeyRevision C.Spec))
  history active opts st = A.history opts st.actives >>= λ ks. ok (map redact_revision_value ks)
  history default opts st = D.history opts st.defaults >>= λ ks. ok (map redact_revision_value ks)
  history other_target opts st = err plain_error
