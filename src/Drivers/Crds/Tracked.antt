-- ===== src/Drivers/Crds/Tracked.antt =====
-- The config tracker of server/config.go over an active store in a Kubernetes object.
use protoconfig.Prelude.{ℕ, ◌≡◌, refl, sym, ap, ◌∙◌, none, [], ◌∷◌, arith}
use protoconfig.Prelude.Int64.{Int64}
use protoconfig.Storage.Errors.{Result, ok, err, panic, ◌>>=◌}
use protoconfig.Storage.Options.{PutOpt}
use protoconfig.Server.ConfigTypes.{
  ConfigType, StoreOf, set_revision, unset_revision, copy_revision,
}
use protoconfig.Server.Tracker
use protoconfig.Server.Tracker.{
  Stores, without_value, get_active_locked, put_active, finished, value_or_zero,
}
use protoconfig.Server.Tracker.DryRuns.{DryRunResults, dry_run_apply}
use protoconfig.Server.Tracker.DryRuns.Laws.{dry_run_apply-apply}
use protoconfig.Drivers.Crds
use protoconfig.Drivers.Crds.Api.{Client}
use protoconfig.Drivers.Crds.Encoding.{HistoryCodec}
use protoconfig.Drivers.Crds.{Methods}
use protoconfig.Drivers.Crds.Readings.{FillsBack, put-get}
use protoconfig.Drivers.Crds.Backend.{crd_store_of}

without_value-ok : {A : Type 0} (x : Result A) → without_value x ≡ ok tt → (a : A) × (x ≡ ok a)
without_value-ok (ok a) h = (a, refl)
without_value-ok (err e) h = absurd (ground (arith, h))
without_value-ok panic h = absurd (ground (arith, h))

module _ (C : ConfigType) {B : Type 0} (methods : Methods C.Spec B) (codec : HistoryCodec C.Spec)
    (api : Client B) (D : StoreOf C.Spec) where
  put_active-get :
      (now : ℕ) (spec : C.Spec) (r : Int64) (st : Stores C D (crd_store_of C methods codec api))
      → FillsBack C methods codec api
      → (put_active C D (crd_store_of C methods codec api) now (ok (spec, r)) st).0 ≡ ok tt
      → (v : Int64) × (Tracker.get C D
            (crd_store_of C methods codec api)
            []
            (put_active C D (crd_store_of C methods codec api) now (ok (spec, r)) st).1
          ≡ ok (set_revision C v none (C.redact_secrets (unset_revision C spec))))
  unfolding put_active Tracker.get get_active_locked
  put_active-get now spec r st fills h =
      let (out, written) =
        without_value-ok
          (Crds.put C methods codec api now spec (PutOpt.with_revision r ∷ []) st.actives).0 h in
      let (v, read, _) =
        put-get C methods codec api now spec (PutOpt.with_revision r ∷ []) st.actives out fills
          written in
      (
        v,
        ap
            (λ x.
              (x >>= λ found. ok (found.0, value_or_zero found.1))
              >>= finished C D (crd_store_of C methods codec api))
            read,
      )

  -- When a dry run of Apply succeeds on a config that names no revision, and Apply of it over a
  -- Kubernetes object gives no error, then Get shows the merged config that the dry run showed: with
  -- the secrets redacted as there, and with a revision of its own. A config is to be read back from
  -- the object that it fills.
  pub dry_run_apply-get :
      (now : ℕ) (spec : C.Spec) (st : Stores C D (crd_store_of C methods codec api))
      (res : DryRunResults C)
      → FillsBack C methods codec api
      → C.get_revision spec ≡ none
      → dry_run_apply C D (crd_store_of C methods codec api) spec st ≡ ok res
      → (Tracker.apply C D (crd_store_of C methods codec api) now spec st).0 ≡ ok tt
      → (merged : C.Spec) × (v : Int64) × (res.modified
          ≡ copy_revision C (C.redact_secrets merged) res.current)
        × (Tracker.get C D
              (crd_store_of C methods codec api)
              []
              (Tracker.apply C D (crd_store_of C methods codec api) now spec st).1
            ≡ ok (
                set_revision C v none
                  (C.redact_secrets (unset_revision C (unset_revision C merged)))))
  dry_run_apply-get now spec st res fills unnamed shown h =
      let (merged, r, applies, foretold) =
        dry_run_apply-apply C D (crd_store_of C methods codec api) now spec st res unnamed shown in
      let (v, read) =
        put_active-get now (unset_revision C merged) r st fills (sym (ap (λ p. p.0) applies) ∙ h) in
      (
        merged,
        v,
        foretold,
        ap (λ p. Tracker.get C D (crd_store_of C methods codec api) [] p.1) applies ∙ read,
      )
