-- ===== src/Drivers/Crds/Writes.antt =====
-- storage/drivers/crds/value_store.go: what a Put that succeeds has written.
use protoconfig.Prelude.{
  ℕ, ◌==◌, ◌<◌, ◌≡◌, ◌≢◌, ◌⊎◌, inl, inr, refl, ap, ◌∙◌, Bool-cases, Option, Option-cases, none,
  some, List, [], ◌∷◌, ◌++◌, String, arith,
}
use protoconfig.Prelude.Int64.{Int64}
use protoconfig.Storage.Errors.{Result, ok, err, panic, bind_ok}
use protoconfig.Storage.Options.{PutOpt, PutOptions, apply_put, no_put_options}
use protoconfig.Server.ConfigTypes.{ConfigType}
use protoconfig.Drivers.Crds.Api.{
  missing, conflict, exists, invalid, bad_request, other, Reply, done, failed, Object, Client,
}
use protoconfig.Drivers.Crds.Encoding.{HistoryCodec, encode_history}
use protoconfig.Drivers.Crds.{
  annotations_of, newest, decoded, recorded, appended, Methods, revision_reply,
  append_spec_to_history, put_reply, filled, new_object, put_existing, put_appended, put_found,
  put_with, put,
}

module _ (C : ConfigType) {B : Type 0} (methods : Methods C.Spec B) (codec : HistoryCodec C.Spec)
    (api : Client B) where
  -- What an object was when it was written: new, or the one that was read, with its history
  pub data Written (now : ℕ) (value : C.Spec) (o : PutOptions) (s : api.State)
      : Object B → Type 0 where
    created :
        (n : Object B)
        → api.get s ≡ failed missing
        → (r : Int64) → n.version ≡ some r
        → n.annotations ≡ none
        → n.body ≡ methods.fill_object value (methods.set_owner methods.empty_body)
        → Written now value o s n
    updated :
        (n obj kept : Object B) (v r : Int64)
        → api.get s ≡ done obj
        → append_spec_to_history C methods codec now obj ≡ ok kept
        → obj.version ≡ some v
        → (o.revision ≡ none) ⊎ ((o.revision ≡ some v) × (v ≢ 0))
        → (v < r) ⊎ (n ≡ obj)
        → n.version ≡ some r
        → n.annotations ≡ kept.annotations
        → n.body ≡ methods.fill_object value (methods.set_owner kept.body)
        → Written now value o s n

  put_reply-ok :
      (o : PutOptions) (p : Reply (Object B) × api.State) (out : Option Int64)
      → (put_reply C methods codec api o p).0 ≡ ok out
      → (n : Object B) × (p.0 ≡ done n)
        × ((put_reply C methods codec api o p).1 ≡ p.1)
        × (out ≡ revision_reply o.revision_out n.version)
  put_reply-ok o (done n, s) out h = (n, refl, refl, ground (arith, h))
  put_reply-ok o (failed e, s) out h = absurd (ground (arith, h))

  -- What appendSpecToHistory leaves as it is
  pub appended-fields :
      (now : ℕ) (obj kept : Object B) (text : Result String)
      → appended C methods codec now obj text ≡ ok kept
      → (kept.version ≡ obj.version) × (kept.body ≡ obj.body)
  unfolding appended
  appended-fields now obj kept (ok text) h = ground (arith, h)
  appended-fields now obj kept (err e) h = elim (Option-cases obj.annotations) [
    | inl p ↦ ground (arith, h, p)
    | inr (a, p) ↦ ground (arith, h, p)
  ]
  appended-fields now obj kept panic h = absurd (ground (arith, h))

  -- What a Put that gives a revision has done
  abbrev pub Effect : ℕ → C.Spec → PutOptions → api.State → Option Int64 → api.State → Type 0
  Effect now value o s out after =
      (n : Object B) × (api.get after ≡ done n)
      × (out ≡ revision_reply o.revision_out n.version)
      × Written now value o s n

  update-Effect :
      (now : ℕ) (value : C.Spec) (o : PutOptions) (s : api.State) (obj kept sent : Object B)
      (out : Option Int64)
      → api.get s ≡ done obj
      → append_spec_to_history C methods codec now obj ≡ ok kept
      → (o.revision ≡ none) × (sent.version ≡ obj.version)
        ⊎ ((r : Int64) × (o.revision ≡ some r) × (r ≢ 0) × (sent.version ≡ some r))
      → sent.annotations ≡ kept.annotations
      → sent.body ≡ methods.fill_object value (methods.set_owner kept.body)
      → (put_reply C methods codec api o (api.update sent s)).0 ≡ ok out
      → Effect now value o s out (put_reply C methods codec api o (api.update sent s)).1
  update-Effect now value o s obj kept sent out got app named anns body h =
      let (n, is_done, state, reply) = put_reply-ok o (api.update sent s) out h in
      let (c, v, r, now_c, c_v, lock, later, is_n, read) = api.update-done sent n s is_done in
      let obj_v : obj.version ≡ some v = cc (api.get-done s obj got, now_c, c_v) in
      (
        n,
        ap api.get state ∙ read,
        reply,
        updated n obj kept v r got app obj_v
            (elim named [
              | inl (p, q) ↦ inl p
              | inr (w, p, nonzero, q) ↦ elim lock [
                | inl k ↦ absurd (ground (arith, q, k))
                | inr k ↦
                    (let same : w ≡ v = ground (arith, q, k) in
                      inr (p ∙ ap some same, λ z. nonzero (same ∙ z)))
              ]
            ])
            (elim later [ inl p ↦ inl p | inr p ↦ inr (p ∙ cc (api.get-done s obj got, now_c)) ])
            (ground (arith, is_n)) (ap (λ x. x.annotations) is_n ∙ anns)
            (ap (λ x. x.body) is_n ∙ body),
      )

  pub append-parts :
      (now : ℕ) (obj kept : Object B)
      → append_spec_to_history C methods codec now obj ≡ ok kept
      → (entries : List C.Spec) × (decoded C methods codec (annotations_of obj.annotations).history
          ≡ ok entries)
        × (appended C methods codec now obj
              (encode_history codec (newest (entries ++ recorded C methods codec obj ∷ [])))
            ≡ ok kept)
  unfolding append_spec_to_history
  append-parts now obj kept h =
      bind_ok (decoded C methods codec (annotations_of obj.annotations).history)
        (λ entries.
          appended C methods codec now obj
            (encode_history codec (newest (entries ++ recorded C methods codec obj ∷ []))))
        kept h

  append-fields :
      (now : ℕ) (obj kept : Object B)
      → append_spec_to_history C methods codec now obj ≡ ok kept
      → (kept.version ≡ obj.version) × (kept.body ≡ obj.body)
  append-fields now obj kept h =
      let (entries, p, q) = append-parts now obj kept h in appended-fields now obj kept _ q

  put_existing-Effect :
      (now : ℕ) (value : C.Spec) (o : PutOptions) (s : api.State) (obj kept : Object B)
      (out : Option Int64)
      → api.get s ≡ done obj
      → append_spec_to_history C methods codec now obj ≡ ok kept
      → (put_existing C methods codec api value o kept s).0 ≡ ok out
      → Effect now value o s out (put_existing C methods codec api value o kept s).1
  unfolding put_existing
  put_existing-Effect now value o s obj kept out got app h = elim (Option-cases o.revision) [
    | inl p ↦ rw p (
        update-Effect now value (record o { revision = none }) s obj kept
          (filled C methods codec api value kept) out got app
          (inl (refl, (append-fields now obj kept app).0)) refl refl (ground (arith, h, p)))
    | inr (r, p) ↦ elim (Bool-cases (r == 0)) [
      | inl z ↦ absurd (ground (arith, h, p, z))
      | inr z ↦ rw p (
          rw z (
            update-Effect now value (record o { revision = some r }) s obj kept
              (record (filled C methods codec api value kept) { version = some r }) out got app
              (inr (r, refl, (λ q. ground (arith, q, z)), refl)) refl refl
              (ground (arith, h, p, z))))
    ]
  ]

  put_appended-Effect :
      (now : ℕ) (value : C.Spec) (o : PutOptions) (s : api.State) (obj : Object B)
      (kept : Result (Object B)) (out : Option Int64)
      → api.get s ≡ done obj
      → append_spec_to_history C methods codec now obj ≡ kept
      → (put_appended C methods codec api value o kept s).0 ≡ ok out
      → Effect now value o s out (put_appended C methods codec api value o kept s).1
  unfolding put_appended
  put_appended-Effect now value o s obj (ok kept) out got app h =
      put_existing-Effect now value o s obj kept out got app h
  put_appended-Effect now value o s obj (err e) out got app h = absurd (ground (arith, h))
  put_appended-Effect now value o s obj panic out got app h = absurd (ground (arith, h))

  put_found-Effect :
      (now : ℕ) (value : C.Spec) (o : PutOptions) (s : api.State) (found : Reply (Object B))
      (out : Option Int64)
      → api.get s ≡ found
      → (put_found C methods codec api now value o found s).0 ≡ ok out
      → Effect now value o s out (put_found C methods codec api now value o found s).1
  unfolding put_found
  put_found-Effect now value o s (done obj) out got h =
      put_appended-Effect now value o s obj _ out got refl h
  put_found-Effect now value o s (failed missing) out got h =
      let sent = filled C methods codec api value (new_object C methods codec api) in
      let (n, is_done, state, reply) = put_reply-ok o (api.create sent s) out h in
      let (gone, (r, t, is_n), read) = api.create-done sent n s is_done in
      (
        n,
        ap api.get state ∙ read,
        reply,
        created n got r (ap (λ x. x.version) is_n) (ap (λ x. x.annotations) is_n)
            (ap (λ x. x.body) is_n),
      )
  put_found-Effect now value o s (failed conflict) out got h = absurd (ground (arith, h))
  put_found-Effect now value o s (failed exists) out got h = absurd (ground (arith, h))
  put_found-Effect now value o s (failed invalid) out got h = absurd (ground (arith, h))
  put_found-Effect now value o s (failed bad_request) out got h = absurd (ground (arith, h))
  put_found-Effect now value o s (failed (other e)) out got h = absurd (ground (arith, h))

  -- A Put that gives a revision has written the object that is read afterwards.
  pub put-Effect :
      (now : ℕ) (value : C.Spec) (opts : List PutOpt) (s : api.State) (out : Option Int64)
      → (put C methods codec api now value opts s).0 ≡ ok out
      → Effect now value
          (apply_put no_put_options opts)
          s
          out
          (put C methods codec api now value opts s).1
  unfolding put put_with
  put-Effect now value opts s out h =
      put_found-Effect now value (apply_put no_put_options opts) s (api.get s) out refl h
