-- ===== src/Server/Tracker/DryRuns/Laws.antt =====
-- The dry runs of server/config.go: what they show, and how they foretell the calls.
use protoconfig.Prelude.{
  ℕ, ◌≡◌, refl, sym, ap, ◌∙◌, Bool, true, false, Option, none, some, List, [], ◌∷◌, String, arith,
  if◌then◌else◌, Bool-cases, inl, inr,
}
use protoconfig.Prelude.Int64.{Int64}
use protoconfig.Storage.Errors.{
  Error, Result, ok, err, panic, ◌>>=◌, status_error, plain_error, invalid_argument, err_conflict,
}
use protoconfig.Storage.Options.{GetOpt}
use protoconfig.Storage.Reads.{revision_opts, without_revision}
use protoconfig.Server.Revisions.{Revision, revision_value}
use protoconfig.Server.ConfigTypes.{
  ConfigType, StoreOf, set_revision, unset_revision, copy_revision,
}
use protoconfig.Server.Tracker.{
  AtRevision, Stores, get_default_locked, get_active_locked, get_config_or_default_locked, apply,
  apply_value, set_default, set_default_value, put_active, put_default, reset, reset_found,
  reset_value, reset_merge, any_empty, value_or_zero, maybe_with_revision,
}
use protoconfig.Server.Tracker.Laws.{bind-ok, ok_inj}
use protoconfig.Server.Tracker.DryRuns.{
  DryRunResults, validated, run_validation, dry_run_apply, dry_run_set_default, mask_error,
  dry_run_reset_to, dry_run_reset,
}

module _ (C : ConfigType) (D A : StoreOf C.Spec) where
  pub validated-ok :
      (current modified : C.Spec) (res : DryRunResults C)
      → validated C D A current modified ≡ ok res
      → (res.current ≡ current) × (res.modified ≡ modified)
  unfolding validated
  validated-ok current modified res h =
      let (errors, at, out) = bind-ok (run_validation C modified) _ res h in
      let same = ok_inj _ res out in
      (
        ap (λ (r : DryRunResults C). r.current) (sym same),
        ap (λ (r : DryRunResults C). r.modified) (sym same),
      )

  -- An if whose first branch fails gave its second.
  if-ok :
      {B : Type 0} (b : Bool) (e : Error) (m : Result B) (v : B)
      → (if b then err e else m) ≡ ok v
      → m ≡ ok v
  if-ok b e m v h = ground (arith, h)

  -- What a dry run of Apply gives, taken apart.
  pub dry_run_apply-ok :
      (spec : C.Spec) (st : Stores C D A) (res : DryRunResults C)
      → dry_run_apply C D A spec st ≡ ok res
      → (found : C.Spec × Int64) × (unredacted : C.Spec) × (get_config_or_default_locked C D A [] st
          ≡ ok found)
        × (C.unredact_secrets spec found.0 ≡ ok unredacted)
        × (res.current ≡ C.redact_secrets found.0)
        × (res.modified
            ≡ copy_revision C
                (C.redact_secrets (C.merge_with_replace found.0 unredacted))
                (C.redact_secrets found.0))
  unfolding dry_run_apply
  dry_run_apply-ok spec st res h =
      let (found, at, h1) = bind-ok (get_config_or_default_locked C D A [] st) _ res h in
      let (unredacted, un, h2) =
        bind-ok (C.unredact_secrets spec found.0) _ res (if-ok _ err_conflict _ res h1) in
      let shown = validated-ok _ _ res h2 in (found, unredacted, at, un, shown.0, shown.1)

  -- A nil revision names none.
  same_read :
      (st : Stores C D A) (o : Option Revision)
      → o ≡ none
      → get_config_or_default_locked C D A (o ∷ []) st ≡ get_config_or_default_locked C D A [] st
  unfolding get_config_or_default_locked get_active_locked
  same_read st o h = ap (λ x. get_config_or_default_locked C D A (x ∷ []) st) h

  -- When a dry run of Apply succeeds on a config that names no revision, Apply of it puts a merged
  -- config in the active store, and the dry run showed that config: redacted, with the current revision.
  pub dry_run_apply-apply :
      (now : ℕ) (spec : C.Spec) (st : Stores C D A) (res : DryRunResults C)
      → C.get_revision spec ≡ none
      → dry_run_apply C D A spec st ≡ ok res
      → (merged : C.Spec) × (r : Int64) × (apply C D A now spec st
          ≡ put_active C D A now (ok (unset_revision C merged, r)) st)
        × (res.modified ≡ copy_revision C (C.redact_secrets merged) res.current)
  unfolding apply apply_value
  dry_run_apply-apply now spec st res unnamed h =
      let (found, unredacted, at, un, current, modified) = dry_run_apply-ok spec st res h in
      let merged = C.merge_with_replace found.0 unredacted in
      (
        merged,
        found.1,
        ap (λ m. put_active C D A now m st) (value found unredacted at un),
        modified ∙ ap (copy_revision C (C.redact_secrets merged)) (sym current),
      )
    where
      value :
          (found : C.Spec × Int64) (unredacted : C.Spec)
          → get_config_or_default_locked C D A [] st ≡ ok found
          → C.unredact_secrets spec found.0 ≡ ok unredacted
          → apply_value C D A spec st
            ≡ ok (unset_revision C (C.merge_with_replace found.0 unredacted), found.1)
      value found unredacted at un =
          ground (arith, unnamed, un, same_read st (C.get_revision spec) unnamed, at)

  -- What a dry run of SetDefault gives, taken apart.
  pub dry_run_set_default-ok :
      (spec : C.Spec) (st : Stores C D A) (res : DryRunResults C)
      → dry_run_set_default C D A spec st ≡ ok res
      → (found : C.Spec × Int64) × (unredacted : C.Spec) × (get_default_locked C D A [] st
          ≡ ok found)
        × (C.unredact_secrets spec found.0 ≡ ok unredacted)
        × (res.current ≡ set_revision C found.1 none (C.redact_secrets found.0))
        × (res.modified
            ≡ copy_revision C
                (C.redact_secrets unredacted)
                (set_revision C found.1 none (C.redact_secrets found.0)))
  unfolding dry_run_set_default
  dry_run_set_default-ok spec st res h =
      let (found, at, h1) = bind-ok (get_default_locked C D A [] st) _ res h in
      let (unredacted, un, h2) =
        bind-ok (C.unredact_secrets spec found.0) _ res (if-ok _ err_conflict _ res h1) in
      let shown = validated-ok _ _ res h2 in (found, unredacted, at, un, shown.0, shown.1)

  -- When a dry run of SetDefault succeeds, SetDefault puts a config in the default store at the revision
  -- that the request names, and the dry run showed that config: redacted, with the current revision.
  dry_run_set_default-set_default :
      (now : ℕ) (spec : C.Spec) (st : Stores C D A) (res : DryRunResults C)
      → dry_run_set_default C D A spec st ≡ ok res
      → (stored : C.Spec) × (set_default C D A now spec st
          ≡ put_default C D A now
              (ok (unset_revision C stored, revision_value (C.get_revision spec)))
              st)
        × (res.modified ≡ copy_revision C (C.redact_secrets stored) res.current)
  unfolding set_default set_default_value
  dry_run_set_default-set_default now spec st res h =
      let (found, unredacted, at, un, current, modified) = dry_run_set_default-ok spec st res h in
      (
        unredacted,
        ap (λ m. put_default C D A now m st) (value found unredacted at un),
        modified ∙ ap (copy_revision C (C.redact_secrets unredacted)) (sym current),
      )
    where
      value :
          (found : C.Spec × Int64) (unredacted : C.Spec)
          → get_default_locked C D A [] st ≡ ok found
          → C.unredact_secrets spec found.0 ≡ ok unredacted
          → set_default_value C D A spec st
            ≡ ok (unset_revision C unredacted, revision_value (C.get_revision spec))
      value found unredacted at un = ground (arith, at, un)

  -- What a dry run of Reset gives for a mask, taken apart.
  pub dry_run_reset_to-ok :
      (mask : List String) (patch active_config default_config : C.Spec) (res : DryRunResults C)
      → dry_run_reset_to C D A (some mask) patch active_config default_config ≡ ok res
      → (merged : C.Spec) × (mask_error C D A (C.normalize mask) active_config ≡ ok tt)
        × (reset_merge C D A (C.normalize mask) patch active_config default_config ≡ ok merged)
        × (validated C D A (C.redact_secrets active_config) (C.redact_secrets merged) ≡ ok res)
  unfolding dry_run_reset_to
  dry_run_reset_to-ok mask patch active_config default_config res h =
      let paths = C.normalize mask in
      let (checked, accepted, h1) = bind-ok (mask_error C D A paths active_config) _ res h in
      let (merged, made, h2) =
        bind-ok (reset_merge C D A paths patch active_config default_config) _ res h1 in
      (merged, accepted, made, h2)

  -- The revision that is read at.
  named_revision : AtRevision → Option Int64
  named_revision [] = none
  named_revision (none ∷ rs) = none
  named_revision (some r ∷ rs) = r.revision

  read_opts :
      (at : AtRevision) (out : GetOpt)
      → (maybe_with_revision at [] ≡ revision_opts (named_revision at))
        × (maybe_with_revision at (out ∷ []) ≡ out ∷ revision_opts (named_revision at))
  unfolding named_revision
  read_opts [] out = (refl, refl)
  read_opts (none ∷ rs) out = (refl, refl)
  read_opts (some r ∷ rs) out = ground arith

  -- A read without its revision finds what the read with it finds.
  read_active :
      (at : AtRevision) (st : Stores C D A) (found : C.Spec × Option Int64)
      → A.get (maybe_with_revision at []) st.actives ≡ ok found
      → (r : Int64) × (get_active_locked C D A at st ≡ ok (found.0, r))
  unfolding get_active_locked
  read_active at st found h = go (A.get (out ∷ revision_opts (named_revision at)) st.actives) refl
    where
      out : GetOpt
      out = GetOpt.with_revision_out true

      same : A.get (revision_opts (named_revision at)) st.actives ≡ ok found
      same = ap (λ o. A.get o st.actives) (sym (read_opts at out).0) ∙ h

      go :
          (m : Result (C.Spec × Option Int64))
          → A.get (out ∷ revision_opts (named_revision at)) st.actives ≡ m
          → (r : Int64) × (get_active_locked C D A at st ≡ ok (found.0, r))
      go (ok x) q =
          let parted = A.get_out (named_revision at) st.actives in
          let found_same =
            ok_inj {A = C.Spec × Option Int64} (x.0, none) found
              (sym (ap without_revision q) ∙ sym parted ∙ same) in
          (
            value_or_zero x.1,
            ap (λ o. A.get o st.actives >>= λ f. ok (f.0, value_or_zero f.1)) (read_opts at out).1
                ∙ ap (λ m. m >>= λ f. ok (f.0, value_or_zero f.1)) q
                ∙ ap (λ (f : C.Spec × Option Int64). ok (f.0, value_or_zero x.1)) found_same,
          )
      go (err e) q = absurd (ground (arith, same, A.get_out (named_revision at) st.actives, q))
      go panic q = absurd (ground (arith, same, A.get_out (named_revision at) st.actives, q))

  -- A mask that a dry run accepts.
  accepted_mask :
      (paths : List String) (active_config : C.Spec)
      → mask_error C D A paths active_config ≡ ok tt
      → (C.is_valid_mask paths active_config ≡ true) × (any_empty paths ≡ false)
  unfolding mask_error
  accepted_mask paths active_config h = elim (Bool-cases (C.is_valid_mask paths active_config)) [
    | inr bad ↦ absurd (ground (arith, h, bad))
    | inl good ↦ (good, ground (arith, h, good))
  ]

  -- When a dry run of Reset with a mask succeeds, Reset puts a config in the active store, and the dry run
  -- showed that config, redacted.
  pub dry_run_reset-reset :
      (now : ℕ) (mask : List String) (patch : C.Spec) (at : AtRevision) (st : Stores C D A)
      (res : DryRunResults C)
      → dry_run_reset C D A (some mask) patch at st ≡ ok res
      → (merged : C.Spec) × (r : Int64) × (reset C D A now (some mask) patch at st
          ≡ put_active C D A now (ok (merged, r)) st)
        × (res.modified ≡ C.redact_secrets merged)
  unfolding dry_run_reset reset reset_found reset_value
  dry_run_reset-reset now mask patch at st res h =
      let (found, read, h1) = bind-ok (A.get (maybe_with_revision at []) st.actives) _ res h in
      let (default_config, read_default, h2) = bind-ok (get_default_locked C D A [] st) _ res h1 in
      let (merged, accepted, made, out) =
        dry_run_reset_to-ok mask patch found.0 default_config.0 res h2 in
      let (r, active_read) = read_active at st found read in
      let (good, full) = accepted_mask (C.normalize mask) found.0 accepted in
      (
        merged,
        r,
        ap (λ m. reset_found C D A now (some mask) patch m st) active_read
            ∙ ap (λ m. put_active C D A now m st)
                (reset_value_of found.0 default_config merged r read_default made good full),
        (validated-ok _ _ res out).1,
      )
    where
      reset_value_of :
          (active_config : C.Spec) (default_config : C.Spec × Int64) (merged : C.Spec) (r : Int64)
          → get_default_locked C D A [] st ≡ ok default_config
          → reset_merge C D A (C.normalize mask) patch active_config default_config.0 ≡ ok merged
          → C.is_valid_mask (C.normalize mask) active_config ≡ true
          → any_empty (C.normalize mask) ≡ false
          → reset_value C D A mask patch (active_config, r) st ≡ ok (merged, r)
      reset_value_of active_config default_config merged r read_default made good full =
          ground (arith, read_default, made, good, full)

  -- For a mask that is not valid for the active config, Reset returns an invalid argument, and its
  -- dry run an error without a status.
  invalid_mask_errors :
      (now : ℕ) (mask : List String) (patch : C.Spec) (at : AtRevision) (st : Stores C D A)
      (found : C.Spec × Option Int64) (default_config : C.Spec × Int64)
      → A.get (maybe_with_revision at []) st.actives ≡ ok found
      → get_default_locked C D A [] st ≡ ok default_config
      → C.is_valid_mask (C.normalize mask) found.0 ≡ false
      → ((reset C D A now (some mask) patch at st).0 ≡ err (status_error invalid_argument))
        × (dry_run_reset C D A (some mask) patch at st ≡ err plain_error)
  unfolding dry_run_reset dry_run_reset_to mask_error reset reset_found reset_value put_active
  invalid_mask_errors now mask patch at st found default_config read read_default bad =
      let (r, active_read) = read_active at st found read in
      (ground (arith, active_read, read_default, bad), ground (arith, read, read_default, bad))
