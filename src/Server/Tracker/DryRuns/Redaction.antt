-- ===== src/Server/Tracker/DryRuns/Redaction.antt =====
-- The dry runs of server/config.go show no secret.
use protoconfig.Prelude.{◌≡◌, refl, sym, subst, Option, none, some, List, [], ◌∷◌, String, arith}
use protoconfig.Storage.Errors.{ok}
use protoconfig.Server.ConfigTypes.{ConfigType, StoreOf}
use protoconfig.Server.Tracker.{
  AtRevision, Target, active, default, other_target, Stores, get_default_locked,
  maybe_with_revision, new_default_spec,
}
use protoconfig.Server.Tracker.Laws.{
  bind-ok, ShowsNoSecret, redacted-ShowsNoSecret, copy-ShowsNoSecret, set-ShowsNoSecret,
}
use protoconfig.Server.Tracker.DryRuns.Laws.{
  validated-ok, dry_run_apply-ok, dry_run_set_default-ok, dry_run_reset_to-ok,
}
use protoconfig.Server.Tracker.DryRuns.{
  Action, no_action, DryRunResults, DryRunRequest, validated, dry_run_apply, dry_run_set_default,
  dry_run_reset_default, dry_run_reset_to, dry_run_reset, dry_run,
}

module _ (C : ConfigType) (D A : StoreOf C.Spec) where
  -- The two configs of some results, redacted.
  NoSecrets : DryRunResults C → Type 0
  NoSecrets res = ShowsNoSecret C res.current × ShowsNoSecret C res.modified

  shown-NoSecrets :
      (res : DryRunResults C) (current modified : C.Spec)
      → ShowsNoSecret C current
      → ShowsNoSecret C modified
      → (res.current ≡ current) × (res.modified ≡ modified)
      → NoSecrets res
  unfolding NoSecrets
  shown-NoSecrets res current modified hc hm same =
      (subst (ShowsNoSecret C) (sym same.0) hc, subst (ShowsNoSecret C) (sym same.1) hm)

  validated-NoSecrets :
      (a b : C.Spec) (res : DryRunResults C)
      → validated C D A (C.redact_secrets a) (C.redact_secrets b) ≡ ok res
      → NoSecrets res
  validated-NoSecrets a b res h =
      shown-NoSecrets res (C.redact_secrets a) (C.redact_secrets b) (redacted-ShowsNoSecret C a)
        (redacted-ShowsNoSecret C b) (validated-ok C D A _ _ res h)

  apply-NoSecrets :
      (spec : C.Spec) (st : Stores C D A) (res : DryRunResults C)
      → dry_run_apply C D A spec st ≡ ok res
      → NoSecrets res
  apply-NoSecrets spec st res h =
      let (found, unredacted, at, un, current, modified) = dry_run_apply-ok C D A spec st res h in
      shown-NoSecrets res _ _ (redacted-ShowsNoSecret C found.0)
        (copy-ShowsNoSecret C _ _ (redacted-ShowsNoSecret C _)) (current, modified)

  set_default-NoSecrets :
      (spec : C.Spec) (st : Stores C D A) (res : DryRunResults C)
      → dry_run_set_default C D A spec st ≡ ok res
      → NoSecrets res
  set_default-NoSecrets spec st res h =
      let (found, unredacted, at, un, current, modified) =
        dry_run_set_default-ok C D A spec st res h in
      shown-NoSecrets res _ _
        (set-ShowsNoSecret C found.1 none _ (redacted-ShowsNoSecret C found.0))
        (copy-ShowsNoSecret C _ _ (redacted-ShowsNoSecret C unredacted)) (current, modified)

  reset_default-NoSecrets :
      (at : AtRevision) (st : Stores C D A) (res : DryRunResults C)
      → dry_run_reset_default C D A at st ≡ ok res
      → NoSecrets res
  unfolding dry_run_reset_default
  reset_default-NoSecrets at st res h =
      let (found, read, out) = bind-ok (D.get (maybe_with_revision at []) st.defaults) _ res h in
      validated-NoSecrets found.0 (new_default_spec C D A) res out

  reset_to-NoSecrets :
      (mask : Option (List String)) (patch active_config default_config : C.Spec)
      (res : DryRunResults C)
      → dry_run_reset_to C D A mask patch active_config default_config ≡ ok res
      → NoSecrets res
  unfolding dry_run_reset_to
  reset_to-NoSecrets none patch active_config default_config res h =
      validated-NoSecrets active_config default_config res h
  reset_to-NoSecrets (some mask) patch active_config default_config res h =
      let (merged, accepted, made, out) =
        dry_run_reset_to-ok C D A mask patch active_config default_config res h in
      validated-NoSecrets active_config merged res out

  reset-NoSecrets :
      (mask : Option (List String)) (patch : C.Spec) (at : AtRevision) (st : Stores C D A)
      (res : DryRunResults C)
      → dry_run_reset C D A mask patch at st ≡ ok res
      → NoSecrets res
  unfolding dry_run_reset
  reset-NoSecrets mask patch at st res h =
      let (found, read, h1) = bind-ok (A.get (maybe_with_revision at []) st.actives) _ res h in
      let (default_config, read_default, h2) = bind-ok (get_default_locked C D A [] st) _ res h1 in
      reset_to-NoSecrets mask patch found.0 default_config.0 res h2

  -- What a dry run shows has no secret, neither the current config nor the modified one.
  pub dry_run_redacted :
      (req : DryRunRequest C) (st : Stores C D A) (res : DryRunResults C)
      → dry_run C D A req st ≡ ok res
      → ShowsNoSecret C res.current × ShowsNoSecret C res.modified
  unfolding dry_run NoSecrets
  dry_run_redacted req st res h = go req.target req.action refl refl
    where
      go :
          (t : Target) (a : Action)
          → req.target ≡ t
          → req.action ≡ a
          → ShowsNoSecret C res.current × ShowsNoSecret C res.modified
      go active Action.set ht ha = apply-NoSecrets req.spec st res (ground (arith, h, ht, ha))
      go active Action.reset ht ha =
          reset-NoSecrets req.mask req.patch (req.revision ∷ []) st res (ground (arith, h, ht, ha))
      go active no_action ht ha = absurd (ground (arith, h, ht, ha))
      go default Action.set ht ha =
          set_default-NoSecrets req.spec st res (ground (arith, h, ht, ha))
      go default Action.reset ht ha =
          reset_default-NoSecrets (req.revision ∷ []) st res (ground (arith, h, ht, ha))
      go default no_action ht ha = absurd (ground (arith, h, ht, ha))
      go other_target a ht ha = absurd (ground (arith, h, ht, ha))
