-- ===== src/Drivers/Crds/Readings.antt =====
-- storage/drivers/crds/value_store.go: what Get gives after a Put.
use protoconfig.Prelude.{ℕ, ◌≡◌, ap, ◌∙◌, true, Option, none, some, List, [], ◌∷◌, if◌then◌else◌}
use protoconfig.Prelude.Int64.{Int64}
use protoconfig.Storage.Errors.{ok}
use protoconfig.Storage.Options.{PutOpt, PutOptions, apply_put, no_put_options, with_revision_out}
use protoconfig.Server.ConfigTypes.{ConfigType, unset_revision}
use protoconfig.Drivers.Crds.Api.{done, Object, Client}
use protoconfig.Drivers.Crds.Encoding.{HistoryCodec}
use protoconfig.Drivers.Crds.{
  Methods, version_number, revision_reply, get_object, get_found, get_with, put, get,
}
use protoconfig.Drivers.Crds.Writes.{Written, created, updated, put-Effect}

module _ (C : ConfigType) {B : Type 0} (methods : Methods C.Spec B) (codec : HistoryCodec C.Spec)
    (api : Client B) where
  -- A config that is written to an object is read back from it, less its revision.
  abbrev pub FillsBack : Type 0
  FillsBack =
      (c : C.Spec) (b : B)
      → unset_revision C (methods.fill_config (methods.fill_object c b)) ≡ unset_revision C c

  pub Written-body :
      (now : ℕ) (value : C.Spec) (o : PutOptions) (s : api.State) (n : Object B)
      → Written C methods codec api now value o s n
      → (b : B) × (r : Int64) × (n.body ≡ methods.fill_object value b) × (n.version ≡ some r)
  Written-body now value o s _ (created n got r is_v anns body) =
      (methods.set_owner methods.empty_body, r, body, is_v)
  Written-body now value o s _ (updated n obj kept v r got app obj_v lock later is_v anns body) =
      (methods.set_owner kept.body, r, body, is_v)

  get-latest :
      (s : api.State) (n : Object B) (r : Int64)
      → api.get s ≡ done n
      → n.version ≡ some r
      → get C methods codec api (with_revision_out true ∷ []) s
        ≡ ok (unset_revision C (methods.fill_config n.body), some r)
  unfolding get get_with get_found get_object
  get-latest s n r read is_v =
      ap (λ x. get_found C methods codec api (record { revision = none; revision_out = true }) x)
        read
      ∙ ap (λ v. ok (unset_revision C (methods.fill_config n.body), some (version_number v))) is_v

  -- After a Put that gives a revision, Get gives the value, less the revision that it carries, and the
  -- revision that Put gives where it is asked for it.
  pub put-get :
      (now : ℕ) (value : C.Spec) (opts : List PutOpt) (s : api.State) (out : Option Int64)
      → FillsBack
      → (put C methods codec api now value opts s).0 ≡ ok out
      → (r : Int64) × (get C methods codec api
            (with_revision_out true ∷ [])
            (put C methods codec api now value opts s).1
          ≡ ok (unset_revision C value, some r))
        × (out ≡ (if (apply_put no_put_options opts).revision_out then some r else none))
  put-get now value opts s out fills h =
      let (n, read, reply, written) = put-Effect C methods codec api now value opts s out h in
      let (b, r, body, is_v) = Written-body now value (apply_put no_put_options opts) s n written in
      (
        r,
        get-latest _ n r read is_v
            ∙ ap (λ x. ok (unset_revision C (methods.fill_config x), some r)) body
            ∙ ap (λ x. ok (x, some r)) (fills value b),
        reply ∙ ap (λ v. revision_reply (apply_put no_put_options opts).revision_out v) is_v,
      )
