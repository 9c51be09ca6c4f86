-- ===== src/Drivers/Crds/Refusals.antt =====
-- storage/drivers/crds/value_store.go: which revisions Put and Delete accept, and their errors.
use protoconfig.Prelude.{
  ℕ, ◌==◌, ◌<◌, ◌≡◌, ◌≢◌, ◌⊎◌, inl, inr, refl, sym, ap, ◌∙◌, subst, Bool-cases, Option, some, List,
  arith,
}
use protoconfig.Prelude.Int64.{Int64}
use protoconfig.Storage.Errors.{
  Error, err_conflict, status_error, aborted, conflict_in, ok, err, is_conflict,
}
use protoconfig.Storage.Options.{PutOpt, PutOptions, apply_put, no_put_options}
use protoconfig.Server.ConfigTypes.{ConfigType}
use protoconfig.Drivers.Crds.Api.{missing, conflict, Reply, done, failed, Object, Client}
use protoconfig.Drivers.Crds.Encoding.{HistoryCodec}
use protoconfig.Drivers.Crds.{
  revision_reply, Methods, put_reply, filled, new_object, append_spec_to_history, put_existing,
  put_appended, put_found, put_with, put,
}
use protoconfig.Drivers.Crds.Writes.{Written, created, updated, put-Effect}

module _ (C : ConfigType) {B : Type 0} (methods : Methods C.Spec B) (codec : HistoryCodec C.Spec)
    (api : Client B) where
  Written-locked :
      (now : ℕ) (value : C.Spec) (o : PutOptions) (s : api.State) (n : Object B) (r : Int64)
      → o.revision ≡ some r
      → Written C methods codec api now value o s n
      → (api.get s ≡ failed missing)
        ⊎ ((obj : Object B) × (w : Int64) × (api.get s ≡ done obj)
            × (obj.version ≡ some r)
            × (r ≢ 0)
            × (n.version ≡ some w)
            × ((r < w) ⊎ (n ≡ obj)))
  Written-locked now value o s _ r named (created n got w is_v anns body) = inl got
  Written-locked now value o s _ r named
        (updated n obj kept v w got app obj_v (inl free) later is_v anns body) =
      absurd (ground (arith, named, free))
  Written-locked now value o s _ r named
        (updated n obj kept v w got app obj_v (inr (lock, nonzero)) later is_v anns body) =
      let same : r ≡ v = ground (arith, named, lock) in
      inr (
        obj,
        w,
        got,
        obj_v ∙ ap some (sym same),
        (λ z. nonzero (sym same ∙ z)),
        is_v,
        (elim later [ inl p ↦ inl (subst (λ x. x < w) (sym same) p) | inr p ↦ inr p ]),
      )

  -- A Put that names a revision and gives one has written over an object of that revision, which is not
  -- 0, and the object is read with a larger one afterwards, or as it was; or there was no object.
  pub put_locked :
      (now : ℕ) (value : C.Spec) (opts : List PutOpt) (s : api.State) (out : Option Int64)
      (r : Int64)
      → (apply_put no_put_options opts).revision ≡ some r
      → (put C methods codec api now value opts s).0 ≡ ok out
      → (api.get s ≡ failed missing)
        ⊎ ((obj n : Object B) × (w : Int64) × (api.get s ≡ done obj)
            × (obj.version ≡ some r)
            × (r ≢ 0)
            × (api.get (put C methods codec api now value opts s).1 ≡ done n)
            × (n.version ≡ some w)
            × ((r < w) ⊎ (n ≡ obj)))
  put_locked now value opts s out r named h =
      let (n, read, _, written) = put-Effect C methods codec api now value opts s out h in
      elim (Written-locked now value (apply_put no_put_options opts) s n r named written) [
        | inl got ↦ inl got
        | inr (obj, w, got, is_r, nonzero, is_v, later) ↦
            inr (obj, n, w, got, is_r, nonzero, read, is_v, later)
      ]

  put_reply-revision_out :
      (o o' : PutOptions) (p : Reply (Object B) × api.State)
      → o.revision_out ≡ o'.revision_out
      → put_reply C methods codec api o p ≡ put_reply C methods codec api o' p
  put_reply-revision_out o o' (done n, s) same = ap (λ b. (ok (revision_reply b n.version), s)) same
  put_reply-revision_out o o' (failed e, s) same = refl

  -- Where there is no object, Put creates one whatever revision its options name: calls that agree on
  -- whether the revision is asked for give the same.
  put_missing-revision :
      (now : ℕ) (value : C.Spec) (opts opts' : List PutOpt) (s : api.State)
      → api.get s ≡ failed missing
      → (apply_put no_put_options opts).revision_out ≡ (apply_put no_put_options opts').revision_out
      → put C methods codec api now value opts s ≡ put C methods codec api now value opts' s
  unfolding put put_with put_found
  put_missing-revision now value opts opts' s got same =
      ap (λ x. put_found C methods codec api now value (apply_put no_put_options opts) x s) got
      ∙ put_reply-revision_out (apply_put no_put_options opts) (apply_put no_put_options opts')
          (api.create (filled C methods codec api value (new_object C methods codec api)) s) same
      ∙ ap (λ x. put_found C methods codec api now value (apply_put no_put_options opts') x s)
          (sym got)

  put_existing-refused :
      (value : C.Spec) (o : PutOptions) (s : api.State) (kept : Object B) (r : Int64) (e : Error)
      → o.revision ≡ some r
      → (api.update (record (filled C methods codec api value kept) { version = some r }) s).0
        ≡ failed conflict
      → (put_existing C methods codec api value o kept s).0 ≡ err e
      → is_conflict e ≡ (r == 0)
  unfolding put_existing is_conflict conflict_in
  put_existing-refused value o s kept r e named refused h = elim (Bool-cases (r == 0)) [
    | inl z ↦
        (let p : err_conflict ≡ e = ground (arith, h, named, z) in ap is_conflict (sym p) ∙ sym z)
    | inr z ↦
        (let p : status_error aborted ≡ e = ground (arith, h, named, z, refused) in
          ap is_conflict (sym p) ∙ sym z)
  ]

  -- A Put that names a revision, over an object for which the server refuses that revision, gives an
  -- error; IsConflict holds for it only where the revision is 0.
  put_refused-is_conflict :
      (now : ℕ) (value : C.Spec) (opts : List PutOpt) (s : api.State) (obj kept : Object B)
      (r : Int64) (e : Error)
      → api.get s ≡ done obj
      → append_spec_to_history C methods codec now obj ≡ ok kept
      → (apply_put no_put_options opts).revision ≡ some r
      → (api.update (record (filled C methods codec api value kept) { version = some r }) s).0
        ≡ failed conflict
      → (put C methods codec api now value opts s).0 ≡ err e
      → is_conflict e ≡ (r == 0)
  unfolding put put_with put_found put_appended
  put_refused-is_conflict now value opts s obj kept r e got app named refused h =
      put_existing-refused value (apply_put no_put_options opts) s kept r e named refused (
        ap (λ x. (put_appended C methods codec api value (apply_put no_put_options opts) x s).0)
          (sym app)
        ∙ ap (λ x. (put_found C methods codec api now value (apply_put no_put_options opts) x s).0)
            (sym got)
        ∙ h)
