-- ===== src/Drivers/Crds/Backend.antt =====
-- storage/drivers/crds/value_store.go: the value store as a store that the config tracker works on.
use protoconfig.Prelude.{
  ℕ, ◌==◌, ◌≡◌, refl, Bool-cases, true, false, Option, Option-cases, none, some, List, ◌∷◌, map,
  inl, inr, arith,
}
use protoconfig.Prelude.Int64.{Int64}
use protoconfig.Storage.Errors.{Error, Result, ok, err, panic, ◌>>=◌}
use protoconfig.Storage.Options.{
  PutOpt, DeleteOpt, PutOptions, with_revision_out, apply_put, no_put_options, apply_delete,
  no_delete_options,
}
use protoconfig.Storage.Stores.{KeyRevision}
use protoconfig.Storage.Reads.{revision_opts, without_revision}
use protoconfig.Server.ConfigTypes.{ConfigType, StoreOf, KeepsRefused}
use protoconfig.Drivers.Crds
use protoconfig.Drivers.Crds.Api.{
  ApiError, missing, conflict, exists, invalid, bad_request, other, Reply, done, failed, Object,
  Client,
}
use protoconfig.Drivers.Crds.Encoding.{HistoryCodec}
use protoconfig.Drivers.Crds.{
  Methods, put_reply, put_existing, put_appended, put_found, put_with, append_spec_to_history,
  get_found, get_with, get_object, delete_reply, delete_found,
}

module _ (C : ConfigType) {B : Type 0} (methods : Methods C.Spec B) (codec : HistoryCodec C.Spec)
    (api : Client B) where
  -- A nil config reads as the empty one.
  abbrev pub shown : KeyRevision (Option C.Spec) → KeyRevision C.Spec
  shown k = record {
    key = k.key;
    value = elim k.value [ none ↦ C.new_spec | some v ↦ v ];
    revision = k.revision;
    timestamp = k.timestamp;
  }

  abbrev less_revision : C.Spec × Int64 → Result (C.Spec × Option Int64)
  less_revision found = ok (found.0, none)

  unasked :
      (x : Result (C.Spec × Int64))
      → (x >>= less_revision) ≡ without_revision (x >>= λ found. ok (found.0, some found.1))
  unasked (ok found) = refl
  unasked (err e) = refl
  unasked panic = refl

  get_found_unasked :
      (r : Option Int64) (reply : Reply (Object B))
      → get_found C methods codec api (record { revision = r; revision_out = false }) reply
        ≡ without_revision
            (get_found C methods codec api (record { revision = r; revision_out = true }) reply)
  unfolding get_found
  get_found_unasked r (done obj) = unasked (get_object C methods codec r obj)
  get_found_unasked r (failed e) = refl

  pub get_unasked :
      (r : Option Int64) (s : api.State)
      → Crds.get C methods codec api (revision_opts r) s
        ≡ without_revision
            (Crds.get C methods codec api (with_revision_out true ∷ revision_opts r) s)
  unfolding Crds.get get_with
  get_unasked none s = get_found_unasked none (api.get s)
  get_unasked (some r) s = get_found_unasked (some r) (api.get s)

  abbrev pub crd_store_of : StoreOf C.Spec
  crd_store_of = record {
    State = api.State;
    get = Crds.get C methods codec api;
    put = Crds.put C methods codec api;
    delete = Crds.delete C methods codec api;
    history = λ opts s. Crds.history C methods codec api opts s >>= λ ks. ok (map shown ks);
    get_out = get_unasked;
  }

  put_reply_refused :
      (o : PutOptions) (p : Reply (Object B) × api.State) (s : api.State) (e : Error)
      → ((f : ApiError) → p.0 ≡ failed f → p.1 ≡ s)
      → (put_reply C methods codec api o p).0 ≡ err e
      → (put_reply C methods codec api o p).1 ≡ s
  put_reply_refused o (done n, t) s e keeps h = absurd (ground (arith, h))
  put_reply_refused o (failed f, t) s e keeps h = keeps f refl

  put_existing_refused :
      (value : C.Spec) (o : PutOptions) (obj : Object B) (s : api.State) (e : Error)
      → (put_existing C methods codec api value o obj s).0 ≡ err e
      → (put_existing C methods codec api value o obj s).1 ≡ s
  unfolding put_existing
  put_existing_refused value o obj s e h = elim (Option-cases o.revision) [
    | inl p ↦ rw p (
        put_reply_refused (record o { revision = none }) (api.update _ s) s e
          (api.update_refused _ s) (ground (arith, h, p)))
    | inr (r, p) ↦ elim (Bool-cases (r == 0)) [
      | inl z ↦ rw p (rw z refl)
      | inr z ↦ rw p (
          rw z (
            put_reply_refused (record o { revision = some r }) (api.update _ s) s e
              (api.update_refused _ s) (ground (arith, h, p, z))))
    ]
  ]

  put_appended_refused :
      (value : C.Spec) (o : PutOptions) (kept : Result (Object B)) (s : api.State) (e : Error)
      → (put_appended C methods codec api value o kept s).0 ≡ err e
      → (put_appended C methods codec api value o kept s).1 ≡ s
  unfolding put_appended
  put_appended_refused value o (ok obj) s e h = put_existing_refused value o obj s e h
  put_appended_refused value o (err f) s e h = refl
  put_appended_refused value o panic s e h = refl

  put_found_refused :
      (now : ℕ) (value : C.Spec) (o : PutOptions) (found : Reply (Object B)) (s : api.State)
      (e : Error)
      → (put_found C methods codec api now value o found s).0 ≡ err e
      → (put_found C methods codec api now value o found s).1 ≡ s
  unfolding put_found
  put_found_refused now value o (done obj) s e h = put_appended_refused value o _ s e h
  put_found_refused now value o (failed missing) s e h =
      put_reply_refused o _ s e (api.create_refused _ s) h
  put_found_refused now value o (failed conflict) s e h = refl
  put_found_refused now value o (failed exists) s e h = refl
  put_found_refused now value o (failed invalid) s e h = refl
  put_found_refused now value o (failed bad_request) s e h = refl
  put_found_refused now value o (failed (other f)) s e h = refl

  delete_reply_refused :
      (p : Reply (Unit {0}) × api.State) (s : api.State) (e : Error)
      → ((f : ApiError) → p.0 ≡ failed f → p.1 ≡ s)
      → (delete_reply C methods codec api p).0 ≡ err e
      → (delete_reply C methods codec api p).1 ≡ s
  delete_reply_refused (done n, t) s e keeps h = absurd (ground (arith, h))
  delete_reply_refused (failed f, t) s e keeps h = keeps f refl

  delete_found_refused :
      (r : Option Int64) (found : Reply (Object B)) (s : api.State) (e : Error)
      → (delete_found C methods codec api r found s).0 ≡ err e
      → (delete_found C methods codec api r found s).1 ≡ s
  unfolding delete_found
  delete_found_refused r (done obj) s e h = delete_reply_refused _ s e (api.delete_refused r s) h
  delete_found_refused r (failed f) s e h = refl

  pub put_refused :
      (now : ℕ) (value : C.Spec) (opts : List PutOpt) (s : api.State) (e : Error)
      → (Crds.put C methods codec api now value opts s).0 ≡ err e
      → (Crds.put C methods codec api now value opts s).1 ≡ s
  unfolding Crds.put put_with
  put_refused now value opts s e h =
      put_found_refused now value (apply_put no_put_options opts) (api.get s) s e h

  pub delete_refused :
      (now : ℕ) (opts : List DeleteOpt) (s : api.State) (e : Error)
      → (Crds.delete C methods codec api now opts s).0 ≡ err e
      → (Crds.delete C methods codec api now opts s).1 ≡ s
  unfolding Crds.delete
  delete_refused now opts s e h =
      delete_found_refused (apply_delete no_delete_options opts).revision (api.get s) s e h

  -- A Put or a Delete that gives an error leaves what the server stores.
  abbrev pub crd_store_keeps : KeepsRefused crd_store_of
  crd_store_keeps = record { put_refused = put_refused; delete_refused = delete_refused }
