-- ===== src/Drivers/Crds/Progress.antt =====
-- storage/drivers/crds/value_store.go: when Put gives a revision, whatever the store is in.
use protoconfig.Prelude.{
  true, if◌then◌else◌, ℕ, ◌==◌, ◌≡◌, ◌≢◌, refl, sym, ap, ◌∙◌, Bool-cases, false, Option,
  Option-cases, none, some, List, [], ◌∷◌, ◌++◌, String, inl, inr, arith,
}
use protoconfig.Prelude.Int64.{Int64}
use protoconfig.Storage.Errors.{Result, ok, err, panic, ◌>>=◌}
use protoconfig.Storage.Options.{PutOpt, PutOptions, apply_put, no_put_options, with_revision_out}
use protoconfig.Server.ConfigTypes.{ConfigType, unset_revision}
use protoconfig.Drivers.Crds.Api.{done, Object, Client}
use protoconfig.Drivers.Crds.Encoding.{HistoryCodec, encode_history}
use protoconfig.Drivers.Crds.{
  Methods, revision_reply, newest, recorded, appended, append_spec_to_history, put_reply, filled,
  put_existing, put_appended, put_found, put_with, put, get,
}
use protoconfig.Drivers.Crds.Readings.{FillsBack, put-get}
use protoconfig.Drivers.Crds.Writes.{appended-fields}
use protoconfig.Drivers.Crds.Histories.{history_of}

module _ (C : ConfigType) {B : Type 0} (methods : Methods C.Spec B) (codec : HistoryCodec C.Spec)
    (api : Client B) where
  -- The version that is sent over an object: the one that is named, or its own
  abbrev pub sent_version : Option Int64 → Object B → Option Int64
  sent_version none obj = obj.version
  sent_version (some r) obj = some r

  -- A server that takes each object that is sent with this version
  abbrev pub Takes : Option Int64 → api.State → Type 0
  Takes v s =
      (sent : Object B)
      → sent.version ≡ v
      → (n : Object B) × (after : api.State) × (api.update sent s ≡ (done n, after))

  appended_total :
      (now : ℕ) (obj : Object B) (text : Result String)
      → text ≢ panic
      → (kept : Object B) × (appended C methods codec now obj text ≡ ok kept)
  unfolding appended
  appended_total now obj (ok text) h = (_, refl)
  appended_total now obj (err e) h = elim (Option-cases obj.annotations) [
    | inl p ↦ (obj, rw p refl)
    | inr (a, p) ↦ (
      record obj { annotations = some (record { history = some ""; last_modified = some now }) },
      rw p refl,
    )
  ]
  appended_total now obj panic h = absurd (h refl)

  put_existing_total :
      (value : C.Spec) (o : PutOptions) (s : api.State) (obj kept : Object B)
      → kept.version ≡ obj.version
      → o.revision ≢ some 0
      → Takes (sent_version o.revision obj) s
      → (out : Option Int64) × ((put_existing C methods codec api value o kept s).0 ≡ ok out)
  unfolding put_existing
  put_existing_total value o s obj kept same named takes = elim (Option-cases o.revision) [
    | inl p ↦
        (let (n, after, taken) =
            takes (filled C methods codec api value kept)
              (same ∙ ap (λ x. sent_version x obj) (sym p)) in
          rw p (
            revision_reply o.revision_out n.version,
            ap (λ x. (put_reply C methods codec api o x).0) taken,
          ))
    | inr (r, p) ↦
        (let nonzero : (r == 0) ≡ false = elim (Bool-cases (r == 0)) [
          | inl z ↦ absurd (named (p ∙ ap some (ground (arith, z))))
          | inr z ↦ z
        ] in
          let (n, after, taken) =
            takes (record (filled C methods codec api value kept) { version = some r })
              (ap (λ x. sent_version x obj) (sym p)) in
          rw p (
            rw nonzero (
              revision_reply o.revision_out n.version,
              ap (λ x. (put_reply C methods codec api o x).0) taken,
            )))
  ]

  put_succeeds :
      (now : ℕ) (value : C.Spec) (opts : List PutOpt) (s : api.State) (obj : Object B)
      (es : List C.Spec)
      → api.get s ≡ done obj
      → history_of C methods codec obj ≡ ok es
      → encode_history codec (newest (es ++ recorded C methods codec obj ∷ [])) ≢ panic
      → (apply_put no_put_options opts).revision ≢ some 0
      → Takes (sent_version (apply_put no_put_options opts).revision obj) s
      → (out : Option Int64) × ((put C methods codec api now value opts s).0 ≡ ok out)
  unfolding put put_with put_found put_appended append_spec_to_history
  put_succeeds now value opts s obj es got read encodes named takes =
      let o = apply_put no_put_options opts in
      let (kept, app) =
        appended_total now obj
          (encode_history codec (newest (es ++ recorded C methods codec obj ∷ []))) encodes in
      let (out, result) =
        put_existing_total value o s obj kept
          (appended-fields C methods codec api now obj kept _ app).0 named takes in
      (
        out,
        ap (λ x. (put_found C methods codec api now value o x s).0) got
            ∙ ap
                (λ x.
                  (put_appended C methods codec api value o
                    (x >>= λ entries. appended C methods codec now obj (
                      encode_history codec (newest (entries ++ recorded C methods codec obj ∷ []))))
                    s).0)
                read
            ∙ ap (λ x. (put_appended C methods codec api value o x s).0) app
            ∙ result,
      )

  -- Put over an object whose history can be read and written without a panic, where revision 0 is not
  -- named and the server takes objects of the version that is named, or else of the one read, gives no
  -- error: it gives a revision where it is asked for it, and Get then gives that revision with the value,
  -- less the revision that the value carries. A config that is written to an object is read back.
  pub put_total :
      (now : ℕ) (value : C.Spec) (opts : List PutOpt) (s : api.State) (obj : Object B)
      (es : List C.Spec)
      → FillsBack C methods codec api
      → api.get s ≡ done obj
      → history_of C methods codec obj ≡ ok es
      → encode_history codec (newest (es ++ recorded C methods codec obj ∷ [])) ≢ panic
      → (apply_put no_put_options opts).revision ≢ some 0
      → Takes (sent_version (apply_put no_put_options opts).revision obj) s
      → (r : Int64) × ((put C methods codec api now value opts s).0
          ≡ ok (if (apply_put no_put_options opts).revision_out then some r else none))
        × (get C methods codec api
              (with_revision_out true ∷ [])
              (put C methods codec api now value opts s).1
            ≡ ok (unset_revision C value, some r))
  put_total now value opts s obj es fills got read encodes named takes =
      let (out, result) = put_succeeds now value opts s obj es got read encodes named takes in
      let (r, gets, is_out) = put-get C methods codec api now value opts s out fills result in
      (r, result ∙ ap (λ x. ok x) is_out, gets)
