-- ===== src/Drivers/Crds/Watch/Puts.antt =====
-- storage/drivers/crds/value_store.go: what Watch sends for the objects that Put writes.
use protoconfig.Prelude.{
  ℕ, ◌≡◌, refl, ap, ◌∙◌, subst, Option, none, some, List, [], ◌∷◌, map, arith,
}
use protoconfig.Prelude.Int64.{Int64}
use protoconfig.Storage.Errors.{ok}
use protoconfig.Storage.Options.{PutOpt, apply_put, no_put_options}
use protoconfig.Storage.Stores.{KeyRevision, WatchEvent, WatchEventType, event_put}
use protoconfig.Server.ConfigTypes.{ConfigType, unset_revision}
use protoconfig.Drivers.Crds.Api.{done, Object, Client}
use protoconfig.Drivers.Crds.Encoding.{HistoryCodec}
use protoconfig.Drivers.Crds.{Methods, version_number, put}
use protoconfig.Drivers.Crds.Readings.{FillsBack, Written-body}
use protoconfig.Drivers.Crds.Writes.{put-Effect}
use protoconfig.Drivers.Crds.Watch.{
  ApiEvent, added, modified, running, config_of, current_of, live, step, deliveries,
}

module _ (C : ConfigType) {B : Type 0} (methods : Methods C.Spec B) (codec : HistoryCodec C.Spec)
    (api : Client B) where
  -- Puts that give revisions, with the events of the API server's watch: for each, the object that is
  -- read after it, which is added or modified.
  pub data PutsSeen : api.State → List (C.Spec × Int64) → List (ApiEvent B) → Type 0 where
    no_puts : {s : api.State} → PutsSeen s [] []
    put_added :
        {s : api.State} {vs : List (C.Spec × Int64)} {es : List (ApiEvent B)} (now : ℕ)
        (value : C.Spec) (opts : List PutOpt) (r : Int64) (n : Object B)
        → (put C methods codec api now value opts s).0 ≡ ok (some r)
        → api.get (put C methods codec api now value opts s).1 ≡ done n
        → PutsSeen (put C methods codec api now value opts s).1 vs es
        → PutsSeen s ((value, r) ∷ vs) (added n ∷ es)
    put_modified :
        {s : api.State} {vs : List (C.Spec × Int64)} {es : List (ApiEvent B)} (now : ℕ)
        (value : C.Spec) (opts : List PutOpt) (r : Int64) (n : Object B)
        → (put C methods codec api now value opts s).0 ≡ ok (some r)
        → api.get (put C methods codec api now value opts s).1 ≡ done n
        → PutsSeen (put C methods codec api now value opts s).1 vs es
        → PutsSeen s ((value, r) ∷ vs) (modified n ∷ es)

  abbrev pub Told : Type 0
  Told = WatchEventType × Option (C.Spec × Int64)

  -- The type of an event, and the value and the revision that it says are current
  abbrev pub told : WatchEvent C.Spec → Told
  told e = (e.event_type, elim e.current [ none ↦ none | some k ↦ some (k.value, k.revision) ])

  abbrev pub put_of : C.Spec × Int64 → Told
  put_of p = (event_put, some (unset_revision C p.0, p.1))

  put-current :
      (now : ℕ) (value : C.Spec) (opts : List PutOpt) (s : api.State) (r : Int64) (n : Object B)
      → FillsBack C methods codec api
      → (put C methods codec api now value opts s).0 ≡ ok (some r)
      → api.get (put C methods codec api now value opts s).1 ≡ done n
      → (config_of C methods codec n ≡ unset_revision C value) × (version_number n.version ≡ r)
  put-current now value opts s r n fills h read =
      let (m, read_m, reply, written) =
        put-Effect C methods codec api now value opts s (some r) h in
      let (b, v, body, is_v) =
        Written-body C methods codec api now value (apply_put no_put_options opts) s m written in
      let same : m ≡ n = cc (read, read_m) in
      subst
        (λ x.
          (config_of C methods codec x ≡ unset_revision C value) × (version_number x.version ≡ r))
        same
        (
          ap (λ x. unset_revision C (methods.fill_config x)) body ∙ fills value b,
          ground (arith, reply, is_v),
        )

  told-put :
      {sent wanted : List Told} (now : ℕ) (value : C.Spec) (opts : List PutOpt) (s : api.State)
      (r : Int64) (n : Object B)
      → FillsBack C methods codec api
      → (put C methods codec api now value opts s).0 ≡ ok (some r)
      → api.get (put C methods codec api now value opts s).1 ≡ done n
      → sent ≡ wanted
      → (event_put, some (config_of C methods codec n, version_number n.version)) ∷ sent
        ≡ put_of (value, r) ∷ wanted
  told-put {sent} now value opts s r n fills h read same =
      let (value_of, revision_of) = put-current now value opts s r n fills h read in
      ap (λ x. (event_put, some (x, version_number n.version)) ∷ sent) value_of
      ∙ ap (λ x. (event_put, some (unset_revision C value, x)) ∷ sent) revision_of
      ∙ ap (λ xs. put_of (value, r) ∷ xs) same

  -- Once a watch has dealt with its first event, it sends one put event for each Put that gives a
  -- revision, in the order of the Puts, with the value of the Put, less its revision, and the revision
  -- that the Put gave: where each object that is read after a Put is the API server's next event.
  pub deliveries-puts :
      (asked latest : Option Int64) (last : Option (KeyRevision C.Spec)) (s : api.State)
      (vs : List (C.Spec × Int64)) (es : List (ApiEvent B))
      → FillsBack C methods codec api
      → PutsSeen s vs es
      → map told (deliveries C methods codec asked latest (running last) es) ≡ map put_of vs
  unfolding deliveries step live
  deliveries-puts asked latest last _ _ _ fills no_puts = refl
  deliveries-puts asked latest last _ _ _ fills
        (put_added {s} {vs} {es} now value opts r n h read rest) =
      told-put now value opts s r n fills h read (
        deliveries-puts asked latest (some (current_of C methods codec n))
          (put C methods codec api now value opts s).1 vs es fills rest)
  deliveries-puts asked latest last _ _ _ fills
        (put_modified {s} {vs} {es} now value opts r n h read rest) =
      told-put now value opts s r n fills h read (
        deliveries-puts asked latest (some (current_of C methods codec n))
          (put C methods codec api now value opts s).1 vs es fills rest)
