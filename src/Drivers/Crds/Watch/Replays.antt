-- ===== src/Drivers/Crds/Watch/Replays.antt =====
-- storage/drivers/crds/value_store.go: what Watch sends of a history.
use protoconfig.Prelude.{
  ◌==◌, ◌<◌, ◌≤◌, ◌^◌, ◌≡◌, refl, sym, ap, ◌∙◌, subst, Bool-cases, true, false, not, Option, none,
  some, List, [], ◌∷◌, ◌++◌, inl, inr, if◌then◌else◌, arith,
}
use protoconfig.Prelude.Int64.{Int64, gtb64, gtb64_small}
use protoconfig.Storage.Errors.{Result, ok, err, panic, ◌>>=◌}
use protoconfig.Storage.Stores.{KeyRevision, WatchEvent, WatchEventType, event_put}
use protoconfig.Server.Revisions.{Revision, revision_value, updated_revision_value}
use protoconfig.Server.ConfigTypes.{ConfigType, set_revision}
use protoconfig.Drivers.Crds.Api.{Object}
use protoconfig.Drivers.Crds.Encoding.{HistoryCodec}
use protoconfig.Drivers.Crds.{
  Methods, annotations_of, version_number, spec_revision, read_history, modified_time,
}
use protoconfig.Drivers.Crds.Histories.{history_of, Ordered}
use protoconfig.Drivers.Crds.Watch.{
  ApiEvent, added, initial, begin, step, deliveries, Watching, running, is_due, current_of,
  entry_of, event, replay, Sent, send, replay_entry, replayed, started_with, started,
}

module _ (C : ConfigType) {B : Type 0} (methods : Methods C.Spec B)
    (codec : HistoryCodec C.Spec) where
  -- Each revision with the one before it
  abbrev pub paired :
      WatchEventType
      → Option (KeyRevision C.Spec)
      → List (KeyRevision C.Spec)
      → List (WatchEvent C.Spec)
  paired t before [] = []
  paired t before (k ∷ ks) = event C methods codec t (some k) before ∷ paired t (some k) ks

  -- Those from a revision on
  abbrev pub since : Int64 → List (WatchEvent C.Spec) → List (WatchEvent C.Spec)
  since asked [] = []
  since asked (e ∷ es) =
      if (elim e.current [ none ↦ false | some k ↦ not (gtb64 asked k.revision) ])
      then e ∷ since asked es
      else since asked es

  abbrev pub seen_before :
      C.Spec → Option Revision → List (KeyRevision C.Spec) → List (KeyRevision C.Spec)
  seen_before e none ks = ks
  seen_before e (some r) ks = entry_of C methods codec r e ∷ ks

  abbrev pub entries_seen : List C.Spec → List (KeyRevision C.Spec)
  entries_seen [] = []
  entries_seen (e ∷ es) = seen_before e (C.get_revision e) (entries_seen es)

  -- Every entry has a revision.
  abbrev pub Revised : List C.Spec → Type 0
  Revised [] = Unit
  Revised (e ∷ es) =
      ((r : Revision) × (v : Int64) × (C.get_revision e ≡ some r) × (r.revision ≡ some v))
      × Revised es

  replayed-cons :
      (t : WatchEventType) (o : Object B) (x : WatchEvent C.Spec)
      (p : List (WatchEvent C.Spec) × Result (Option (KeyRevision C.Spec)))
      → replayed C methods codec t o (x ∷ p.0, p.1)
        ≡ (x ∷ (replayed C methods codec t o p).0, (replayed C methods codec t o p).1)
  unfolding replayed
  replayed-cons t o x (sent, ok previous) = refl
  replayed-cons t o x (sent, err e) = refl
  replayed-cons t o x (sent, panic) = refl

  is_due_small :
      (asked latest v : Int64) (r : Revision)
      → r.revision ≡ some v
      → v < latest
      → latest < 2 ^ 63
      → is_due asked latest r.revision ≡ not (gtb64 asked v)
  is_due_small asked latest v r is_v less small =
      ap (λ x. is_due asked latest x) is_v
      ∙ ground (arith, gtb64_small latest v small (omega (arith, less, small)), less)

  revision_value-some :
      (r : Revision) (v : Int64) → r.revision ≡ some v → revision_value (some r) ≡ v
  revision_value-some r v h = rw h refl

  spec_revision-some :
      (e : C.Spec) (r : Revision) (v : Int64)
      → C.get_revision e ≡ some r
      → r.revision ≡ some v
      → spec_revision C methods codec e ≡ v
  unfolding spec_revision
  spec_revision-some e r v has is_v = ap revision_value has ∙ revision_value-some r v is_v

  replay-entry :
      (t : WatchEventType) (asked latest v : Int64) (before : Option (KeyRevision C.Spec))
      (e : C.Spec) (es : List C.Spec) (r : Revision)
      → C.get_revision e ≡ some r
      → r.revision ≡ some v
      → v < latest
      → latest < 2 ^ 63
      → replay C methods codec t asked latest before (e ∷ es)
        ≡ send C methods codec
            (not (gtb64 asked (revision_value (some r))))
            (event C methods codec t (some (entry_of C methods codec r e)) before)
            (replay C methods codec t asked latest (some (entry_of C methods codec r e)) es)
  unfolding replay spec_revision
  replay-entry t asked latest v before e es r has is_v less small =
      let is_r = revision_value-some r v is_v in
      let is_v' : spec_revision C methods codec e ≡ v = spec_revision-some e r v has is_v in
      let not_last : (spec_revision C methods codec e == latest) ≡ false =
        ground (arith, is_v', less) in
      rw not_last (
        ap
          (λ x.
            replay_entry C methods codec t asked latest before e
              (λ r'.
                replay C methods codec t asked latest (some (entry_of C methods codec r' e)) es)
              x)
          has
        ∙ ap
            (λ b.
              send C methods codec b
                (event C methods codec t (some (entry_of C methods codec r e)) before)
                (replay C methods codec t asked latest (some (entry_of C methods codec r e)) es))
            (is_due_small asked latest v r is_v less small
              ∙ ap (λ x. not (gtb64 asked x)) (sym is_r)))

  since-entry :
      (t : WatchEventType) (asked : Int64) (o : Object B) (k : KeyRevision C.Spec)
      (before : Option (KeyRevision C.Spec)) (tail : List (WatchEvent C.Spec)) (w : Watching C.Spec)
      (rest : Sent C methods codec)
      → replayed C methods codec t o rest ≡ (since asked tail, w)
      → replayed C methods codec t o (
          send C methods codec
            (not (gtb64 asked k.revision))
            (event C methods codec t (some k) before)
            rest)
        ≡ (since asked (event C methods codec t (some k) before ∷ tail), w)
  since-entry t asked o k before tail w rest h = elim (Bool-cases (gtb64 asked k.revision)) [
    | inl p ↦ rw p h
    | inr p ↦ rw p (
        replayed-cons t o (event C methods codec t (some k) before) rest
        ∙ ap (λ q. (event C methods codec t (some k) before ∷ q.0, q.1)) h)
  ]

  replay-paired :
      (t : WatchEventType) (asked latest : Int64) (o : Object B)
      (before : Option (KeyRevision C.Spec)) (es : List C.Spec) (last : C.Spec)
      → Revised es
      → Ordered C methods codec es latest
      → latest < 2 ^ 63
      → asked ≤ latest
      → spec_revision C methods codec last ≡ latest
      → version_number o.version ≡ latest
      → replayed C methods codec t o
          (replay C methods codec t asked latest before (es ++ last ∷ []))
        ≡ (
          since asked (paired t before (entries_seen es ++ current_of C methods codec o ∷ [])),
          running (some (current_of C methods codec o)),
        )
  unfolding replay replayed
  replay-paired t asked latest o before [] last revised ordered small low is_last is_latest =
      let stops : (spec_revision C methods codec last == latest) ≡ true = ground (arith, is_last) in
      let due : gtb64 asked (version_number o.version) ≡ false =
        ground
          (arith, gtb64_small asked latest (omega (arith, low, small)) small, is_latest, low) in
      rw stops (rw due refl)
  replay-paired t asked latest o before (e ∷ es) last ((r, v, has, is_v), revised)
        (less, above, ordered) small low is_last is_latest =
      let ih =
        replay-paired t asked latest o (some (entry_of C methods codec r e)) es last revised ordered
          small low is_last is_latest in
      ap (λ x. replayed C methods codec t o x)
        (replay-entry t asked latest v before e (es ++ last ∷ []) r has is_v
          (subst (λ x. x < latest) (spec_revision-some e r v has is_v) less) small)
      ∙ since-entry t asked o (entry_of C methods codec r e) before
          (paired t (some (entry_of C methods codec r e))
            (entries_seen es ++ current_of C methods codec o ∷ []))
          _ _ ih
      ∙ ap
          (λ x. (
            since asked (
                paired t before
                  (seen_before e x (entries_seen es) ++ current_of C methods codec o ∷ [])),
            running (some (current_of C methods codec o)),
          ))
          (sym has)

  read_history-entries :
      (o : Object B) (es : List C.Spec)
      → history_of C methods codec o ≡ ok es
      → (last : C.Spec) × (read_history C methods codec o ≡ ok (es ++ last ∷ []))
        × (spec_revision C methods codec last ≡ version_number o.version)
  unfolding read_history spec_revision
  read_history-entries o es h = (
    _,
    ap
        (λ x. x >>= λ entries. ok (
          entries
          ++ set_revision C (version_number o.version)
              (some (modified_time (annotations_of o.annotations).last_modified o.created))
              (methods.fill_config o.body)
            ∷ []))
        h,
    ap revision_value (C.get_revision-with_revision_field _ _)
        ∙ updated_revision_value (version_number o.version) _
            (C.get_revision (methods.fill_config o.body)),
  )

  -- A Watch from a revision, which begins with an object whose version is that revision or a later one,
  -- sends the entries of its history from the revision on and then the object, each with the entry before
  -- it in the history as its previous value, and goes on with what follows: where every entry has a revision, the
  -- entries are in the order of their revisions and below the version, which is below 2 ^ 63.
  pub deliveries-since :
      (asked v : Int64) (latest : Option Int64) (o : Object B) (entries : List C.Spec)
      (es : List (ApiEvent B))
      → history_of C methods codec o ≡ ok entries
      → o.version ≡ some v
      → Revised entries
      → Ordered C methods codec entries v
      → v < 2 ^ 63
      → asked ≤ v
      → deliveries C methods codec (some asked) latest initial (added o ∷ es)
        ≡ since asked
            (paired event_put none (entries_seen entries ++ current_of C methods codec o ∷ []))
          ++ deliveries C methods codec
              (some asked)
              latest
              (running (some (current_of C methods codec o)))
              es
  unfolding deliveries step begin started started_with
  deliveries-since asked v latest o entries es read is_v revised ordered small low =
      let (last, whole, is_last) = read_history-entries o entries read in
      let is_number = ap version_number is_v in
      ap (λ p. p.0 ++ deliveries C methods codec (some asked) latest p.1 es)
        (ap (λ x. started_with C methods codec event_put asked o x) whole
          ∙ ap
              (λ l.
                replayed C methods codec event_put o
                  (replay C methods codec event_put asked l none (entries ++ last ∷ [])))
              is_number
          ∙ replay-paired event_put asked v o none entries last revised ordered small low
              (is_last ∙ is_number) is_number)
