-- ===== src/Server/Tracker/Laws.antt =====
-- The config tracker of server/config.go: what its reads show, and what its calls leave.
use protoconfig.Prelude.{
  ℕ, ◌≡◌, refl, sym, ap, subst, ◌∙◌, true, Option, none, some, List, [], ◌∷◌, map, String, All,
  arith, ◌⊎◌, inl, inr,
}
use protoconfig.Prelude.Int64.{Int64}
use protoconfig.Storage.Errors.{Error, Result, ok, err, panic, ◌>>=◌}
use protoconfig.Storage.Options.{GetOpt, PutOpt, DeleteOpt, HistoryOpt}
use protoconfig.Storage.Stores.{KeyRevision}
use protoconfig.Server.Revisions.{Revision, revision_value, updated_revision_value}
use protoconfig.Server.ConfigTypes.{
  ConfigType, StoreOf, KeepsRefused, set_revision, copy_revision, clear_field_of, copy_field_of,
}
use protoconfig.Server.Tracker.{
  AtRevision, Target, active, default, other_target, Stores, get_default_locked, get_active_locked,
  get_config_or_default_locked, get_default, get, get_active_or_default, put_default, put_active,
  set_default, reset_default, reset_found, reset, apply, history, apply_value, set_default_value,
  delete_options, delete_default, reset_value, finished, redact_revision_value, without_value,
  maybe_with_revision, default_instead, active_instead,
}

-- A value that a Result was made from.
pub bind-ok :
    {A B : Type 0} (m : Result A) (f : A → Result B) (b : B)
    → (m >>= f) ≡ ok b
    → (a : A) × (m ≡ ok a) × (f a ≡ ok b)
bind-ok (ok a) f b h = (a, refl, h)
bind-ok (err e) f b h = absurd (ground (arith, h))
bind-ok panic f b h = absurd (ground (arith, h))

pub ok_inj : {A : Type 0} (a b : A) → ok a ≡ ok b → a ≡ b
ok_inj a b h = ground (arith, h)

bind-err : {A : Type 0} (m : Result A) (e : Error) → without_value m ≡ err e → m ≡ err e
bind-err (ok a) e h = absurd (ground (arith, h))
bind-err (err x) e h = ground (arith, h)
bind-err panic e h = absurd (ground (arith, h))

-- A config that shows no secret: redacting it changes nothing.
unfoldable pub ShowsNoSecret : (C : ConfigType) → C.Spec → Type 0
ShowsNoSecret C spec = C.redact_secrets spec ≡ spec

module _ (C : ConfigType) where
  pub redacted-ShowsNoSecret : (spec : C.Spec) → ShowsNoSecret C (C.redact_secrets spec)
  unfolding ShowsNoSecret
  redacted-ShowsNoSecret spec = C.redact_twice spec

  pub field-ShowsNoSecret :
      (r : Option Revision) (spec : C.Spec)
      → ShowsNoSecret C spec
      → ShowsNoSecret C (C.with_revision_field r spec)
  unfolding ShowsNoSecret
  field-ShowsNoSecret r spec h = C.redact_revision r spec ∙ ap (C.with_revision_field r) h

  clear-ShowsNoSecret :
      (o : Option Revision) (spec : C.Spec)
      → ShowsNoSecret C spec
      → ShowsNoSecret C (clear_field_of C o spec)
  clear-ShowsNoSecret none spec h = h
  clear-ShowsNoSecret (some r) spec h = field-ShowsNoSecret none spec h

  copy_field-ShowsNoSecret :
      (o : Option Revision) (dst : C.Spec)
      → ShowsNoSecret C dst
      → ShowsNoSecret C (copy_field_of C o dst)
  copy_field-ShowsNoSecret none dst h = clear-ShowsNoSecret (C.get_revision dst) dst h
  copy_field-ShowsNoSecret (some r) dst h = field-ShowsNoSecret (some r) dst h

  pub copy-ShowsNoSecret :
      (dst src : C.Spec) → ShowsNoSecret C dst → ShowsNoSecret C (copy_revision C dst src)
  copy-ShowsNoSecret dst src h = copy_field-ShowsNoSecret (C.get_revision src) dst h

  pub set-ShowsNoSecret :
      (v : Int64) (t : Option ℕ) (spec : C.Spec)
      → ShowsNoSecret C spec
      → ShowsNoSecret C (set_revision C v t spec)
  set-ShowsNoSecret v t spec h = field-ShowsNoSecret _ spec h

-- The reads: GetDefault, Get and GetActiveOrDefault.
pub data Read : Type 0 where
  of_default of_active of_either : Read

-- The calls that change a store: Apply, SetDefault, ResetDefault and Reset.
pub data Call (C : ConfigType) : Type 0 where
  to_apply : C.Spec → Call C
  to_set_default : C.Spec → Call C
  to_reset_default : AtRevision → Call C
  to_reset : Option (List String) → C.Spec → AtRevision → Call C

module _ (C : ConfigType) (D A : StoreOf C.Spec) where
  unfoldable pub read_config : Read → AtRevision → Stores C D A → Result C.Spec
  read_config of_default at st = get_default C D A at st
  read_config of_active at st = get C D A at st
  read_config of_either at st = get_active_or_default C D A at st

  -- What a read finds in the stores, with its revision.
  unfoldable pub read_locked : Read → AtRevision → Stores C D A → Result (C.Spec × Int64)
  read_locked of_default at st = get_default_locked C D A at st
  read_locked of_active at st = get_active_locked C D A at st
  read_locked of_either at st = get_config_or_default_locked C D A at st

  unfoldable pub perform : ℕ → Call C → Stores C D A → Result (Unit {0}) × Stores C D A
  perform now (to_apply spec) st = apply C D A now spec st
  perform now (to_set_default spec) st = set_default C D A now spec st
  perform now (to_reset_default at) st = reset_default C D A now at st
  perform now (to_reset mask patch at) st = reset C D A now mask patch at st

module _ (C : ConfigType) (D A : StoreOf C.Spec) where
  -- What a read returns: a config without its secrets, with the revision of what was found.
  unfoldable pub ReadFrom : Result (C.Spec × Int64) → C.Spec → Type 0
  ReadFrom m v =
      ShowsNoSecret C v
      × ((found : C.Spec × Int64) × (m ≡ ok found) × (revision_value (C.get_revision v) ≡ found.1))

  finished-ReadFrom :
      (m : Result (C.Spec × Int64)) (v : C.Spec) → (m >>= finished C D A) ≡ ok v → ReadFrom m v
  unfolding ReadFrom
  finished-ReadFrom m v h =
      let (found, at, out) = bind-ok m (finished C D A) v h in
      let shown = C.redact_secrets found.0 in
      let same = ok_inj (set_revision C found.1 none shown) v out in
      (
        subst (ShowsNoSecret C) same
            (set-ShowsNoSecret C found.1 none shown (redacted-ShowsNoSecret C found.0)),
        (
          found,
          at,
          ap (λ x. revision_value (C.get_revision x)) (sym same)
              ∙ ap revision_value (C.get_revision-with_revision_field _ shown)
              ∙ updated_revision_value found.1 none (C.get_revision shown),
        ),
      )

  -- What a read returns shows no secret, and it carries the revision that the store was read at.
  pub reads_redacted :
      (read : Read) (at : AtRevision) (st : Stores C D A) (v : C.Spec)
      → read_config C D A read at st ≡ ok v
      → ReadFrom (read_locked C D A read at st) v
  unfolding get_default get get_active_or_default read_config read_locked
  reads_redacted of_default at st v h = finished-ReadFrom (get_default_locked C D A at st) v h
  reads_redacted of_active at st v h = finished-ReadFrom (get_active_locked C D A at st) v h
  reads_redacted of_either at st v h =
      finished-ReadFrom (get_config_or_default_locked C D A at st) v h

  map-ShowsNoSecret :
      (ks : List (KeyRevision C.Spec))
      → All (λ k. ShowsNoSecret C k.value) (map (redact_revision_value C D A) ks)
  map-ShowsNoSecret [] = tt
  map-ShowsNoSecret (k ∷ ks) = (redacted-ShowsNoSecret C k.value, map-ShowsNoSecret ks)

  redacted-All :
      (m : Result (List (KeyRevision C.Spec))) (ks : List (KeyRevision C.Spec))
      → (m >>= (λ rs. ok (map (redact_revision_value C D A) rs))) ≡ ok ks
      → All (λ k. ShowsNoSecret C k.value) ks
  redacted-All m ks h =
      let (rs, at, out) = bind-ok m (λ xs. ok (map (redact_revision_value C D A) xs)) ks h in
      subst (All (λ k. ShowsNoSecret C k.value))
        (ok_inj (map (redact_revision_value C D A) rs) ks out) (map-ShowsNoSecret rs)

  -- History returns no secret.
  pub history_redacted :
      (target : Target) (opts : List HistoryOpt) (st : Stores C D A)
      (ks : List (KeyRevision C.Spec))
      → history C D A target opts st ≡ ok ks
      → All (λ k. ShowsNoSecret C k.value) ks
  unfolding history
  history_redacted active opts st ks h = redacted-All (A.history opts st.actives) ks h
  history_redacted default opts st ks h = redacted-All (D.history opts st.defaults) ks h
  history_redacted other_target opts st ks h = absurd (ground (arith, h))

  put_active_refused :
      (ka : KeepsRefused A) (now : ℕ) (m : Result (C.Spec × Int64)) (st : Stores C D A) (e : Error)
      → (put_active C D A now m st).0 ≡ err e
      → (put_active C D A now m st).1 ≡ st
  unfolding put_active
  put_active_refused ka now (ok (spec, r)) st e h =
      let opts = PutOpt.with_revision r ∷ [] in
      ap (λ (s : A.State). let out : Stores C D A = record st { actives = s } in out)
        (ka.put_refused now spec opts st.actives e
          (bind-err (A.put now spec opts st.actives).0 e h))
  put_active_refused ka now (err x) st e h = refl
  put_active_refused ka now panic st e h = refl

  put_default_refused :
      (kd : KeepsRefused D) (now : ℕ) (m : Result (C.Spec × Int64)) (st : Stores C D A) (e : Error)
      → (put_default C D A now m st).0 ≡ err e
      → (put_default C D A now m st).1 ≡ st
  unfolding put_default
  put_default_refused kd now (ok (spec, r)) st e h =
      let opts = PutOpt.with_revision r ∷ [] in
      ap (λ (s : D.State). let out : Stores C D A = record st { defaults = s } in out)
        (kd.put_refused now spec opts st.defaults e
          (bind-err (D.put now spec opts st.defaults).0 e h))
  put_default_refused kd now (err x) st e h = refl
  put_default_refused kd now panic st e h = refl

  delete_default_refused :
      (kd : KeepsRefused D) (now : ℕ) (o : Result (List DeleteOpt)) (st : Stores C D A) (e : Error)
      → (delete_default C D A now o st).0 ≡ err e
      → (delete_default C D A now o st).1 ≡ st
  unfolding delete_default
  delete_default_refused kd now (ok opts) st e h =
      ap (λ (s : D.State). let out : Stores C D A = record st { defaults = s } in out)
        (kd.delete_refused now opts st.defaults e h)
  delete_default_refused kd now (err x) st e h = refl
  delete_default_refused kd now panic st e h = refl

  reset_found_refused :
      (ka : KeepsRefused A) (now : ℕ) (mask : Option (List String)) (patch : C.Spec)
      (found : Result (C.Spec × Int64)) (st : Stores C D A) (e : Error)
      → (reset_found C D A now mask patch found st).0 ≡ err e
      → (reset_found C D A now mask patch found st).1 ≡ st
  unfolding reset_found
  reset_found_refused ka now none patch (ok found) st e h =
      ap (λ (s : A.State). let out : Stores C D A = record st { actives = s } in out)
        (ka.delete_refused now (DeleteOpt.with_revision found.1 ∷ []) st.actives e h)
  reset_found_refused ka now (some mask) patch (ok found) st e h =
      put_active_refused ka now (reset_value C D A mask patch found st) st e h
  reset_found_refused ka now mask patch (err x) st e h = refl
  reset_found_refused ka now mask patch panic st e h = refl

  -- Apply, SetDefault, ResetDefault and Reset, over stores that refused calls leave as they were, leave
  -- both stores as they were when they return an error.
  refused_calls_keep :
      (kd : KeepsRefused D) (ka : KeepsRefused A) (now : ℕ) (call : Call C) (st : Stores C D A)
      (e : Error)
      → (perform C D A now call st).0 ≡ err e
      → (perform C D A now call st).1 ≡ st
  unfolding apply set_default reset_default reset perform
  refused_calls_keep kd ka now (to_apply spec) st e h =
      put_active_refused ka now (apply_value C D A spec st) st e h
  refused_calls_keep kd ka now (to_set_default spec) st e h =
      put_default_refused kd now (set_default_value C D A spec st) st e h
  refused_calls_keep kd ka now (to_reset_default at) st e h =
      delete_default_refused kd now (delete_options at) st e h
  refused_calls_keep kd ka now (to_reset mask patch at) st e h =
      reset_found_refused ka now mask patch (get_active_locked C D A at st) st e h

  -- What Reset with a mask does to the stores: nothing, or a put in the active store.
  pub reset_puts :
      (now : ℕ) (mask : List String) (patch : C.Spec) (at : AtRevision) (st : Stores C D A)
      → ((reset C D A now (some mask) patch at st).1 ≡ st)
        ⊎ ((v : C.Spec) × (r : Int64) × (reset C D A now (some mask) patch at st
              ≡ put_active C D A now (ok (v, r)) st))
  unfolding reset reset_found put_active
  reset_puts now mask patch at st = read (get_active_locked C D A at st)
    where
      made :
          (m : Result (C.Spec × Int64))
          → ((put_active C D A now m st).1 ≡ st)
            ⊎ ((v : C.Spec) × (r : Int64) × (put_active C D A now m st
                  ≡ put_active C D A now (ok (v, r)) st))
      made (ok (v, r)) = inr (v, r, refl)
      made (err e) = inl refl
      made panic = inl refl

      read :
          (found : Result (C.Spec × Int64))
          → ((reset_found C D A now (some mask) patch found st).1 ≡ st)
            ⊎ ((v : C.Spec) × (r : Int64) × (reset_found C D A now (some mask) patch found st
                  ≡ put_active C D A now (ok (v, r)) st))
      read (ok found) = made (reset_value C D A mask patch found st)
      read (err e) = inl refl
      read panic = inl refl

  -- What Apply and Reset with a mask leave: the stores as they were, or those after a put.
  unfoldable pub OnlyPuts : ℕ → Stores C D A → Stores C D A → Type 0
  OnlyPuts now st after =
      (after.defaults ≡ st.defaults)
      × ((after.actives ≡ st.actives)
          ⊎ ((v : C.Spec) × (opts : List PutOpt) × (after.actives
                ≡ (A.put now v opts st.actives).1)))

  put_active-OnlyPuts :
      (now : ℕ) (m : Result (C.Spec × Int64)) (st : Stores C D A)
      → OnlyPuts now st (put_active C D A now m st).1
  unfolding put_active OnlyPuts
  put_active-OnlyPuts now (ok (v, r)) st = (refl, inr (v, PutOpt.with_revision r ∷ [], refl))
  put_active-OnlyPuts now (err e) st = (refl, inl refl)
  put_active-OnlyPuts now panic st = (refl, inl refl)

  pub apply-OnlyPuts :
      (now : ℕ) (spec : C.Spec) (st : Stores C D A) → OnlyPuts now st (apply C D A now spec st).1
  unfolding apply
  apply-OnlyPuts now spec st = put_active-OnlyPuts now (apply_value C D A spec st) st

  -- GetActiveOrDefault looks at the stores through these two reads only.
  pub get_active_or_default-same :
      (at : AtRevision) (st st' : Stores C D A)
      → st'.defaults ≡ st.defaults
      → ((opts : List GetOpt) → A.get opts st'.actives ≡ A.get opts st.actives)
      → get_active_or_default C D A at st' ≡ get_active_or_default C D A at st
  unfolding get_active_or_default get_config_or_default_locked get_active_locked active_instead
      default_instead
  get_active_or_default-same at st st' kept same = ground (
    arith,
    ap (D.get []) kept,
    same (maybe_with_revision at (GetOpt.with_revision_out true ∷ [])),
  )
