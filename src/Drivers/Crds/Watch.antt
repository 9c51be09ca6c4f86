-- ===== src/Drivers/Crds/Watch.antt =====
-- storage/drivers/crds/value_store.go: Watch, as the deliveries for the events of the API server's watch, in
-- their order. The channels are lists; a panic ends them. Of an entry without a timestamp the time is 0.
pub mod Replays
pub mod Links
pub mod Puts
mod Examples
use protoconfig.Prelude.{
  ℕ, ◌==◌, not, ◌&&◌, Bool, true, false, Option, none, some, List, [], ◌∷◌, ◌++◌, if◌then◌else◌,
}
use protoconfig.Prelude.Int64.{Int64, gtb64}
use protoconfig.Storage.Errors.{Result, ok, err, panic, ◌>>=◌, status_error, unimplemented}
use protoconfig.Storage.Options.{WatchOpt, WatchOptions, apply_watch, no_watch_options}
use protoconfig.Storage.Stores.{KeyRevision, WatchEvent, WatchEventType, event_put, event_delete}
use protoconfig.Server.Revisions.{Revision, revision_value}
use protoconfig.Server.ConfigTypes.{ConfigType, unset_revision}
use protoconfig.Drivers.Crds.Api.{Reply, done, failed, to_grpc_error, Object, Client}
use protoconfig.Drivers.Crds.Encoding.{HistoryCodec}
use protoconfig.Drivers.Crds.{
  Methods, version_number, annotations_of, modified_time, decoded, read_history, spec_revision,
}

-- watch.Event: an event of the type Error has an object of another type.
pub data ApiEvent (B : Type 0) : Type 0 where
  added modified deleted bookmark : Object B → ApiEvent B
  failure : ApiEvent B

abbrev pub same_version : Option Int64 → Option Int64 → Bool
same_version none none = true
same_version none (some w) = false
same_version (some v) none = false
same_version (some v) (some w) = v == w

-- An entry that was asked for, which is not the latest
abbrev pub is_due : Int64 → Int64 → Option Int64 → Bool
is_due asked latest none = false
is_due asked latest (some v) = not (gtb64 asked v) && gtb64 latest v

-- Before the first event, after it with the revision that was seen last, and after a panic
pub data Watching (S : Type 0) : Type 0 where
  initial : Watching S
  running : Option (KeyRevision S) → Watching S
  crashed : Watching S

module _ (C : ConfigType) {B : Type 0} (methods : Methods C.Spec B)
    (codec : HistoryCodec C.Spec) where
  abbrev pub config_of : Object B → C.Spec
  config_of o = unset_revision C (methods.fill_config o.body)

  abbrev pub current_of : Object B → KeyRevision C.Spec
  current_of o = record {
    key = "";
    value = config_of o;
    revision = version_number o.version;
    timestamp = 0;
  }

  abbrev pub entry_of : Revision → C.Spec → KeyRevision C.Spec
  entry_of r e = record {
    key = "";
    value = unset_revision C e;
    revision = revision_value (some r);
    timestamp = modified_time r.timestamp 0;
  }

  abbrev pub event :
      WatchEventType → Option (KeyRevision C.Spec) → Option (KeyRevision C.Spec) → WatchEvent C.Spec
  event t current previous = record { event_type = t; current = current; previous = previous }

  -- What is sent, and the entry that was seen last
  abbrev pub Sent : Type 0
  Sent = List (WatchEvent C.Spec) × Result (Option (KeyRevision C.Spec))

  abbrev pub send : Bool → WatchEvent C.Spec → Sent → Sent
  send true x rest = (x ∷ rest.0, rest.1)
  send false x rest = rest

  -- An entry and what follows it. An entry without a revision is a nil pointer.
  abbrev pub replay_entry :
      WatchEventType
      → Int64
      → Int64
      → Option (KeyRevision C.Spec)
      → C.Spec
      → (Revision → Sent)
      → Option Revision
      → Sent
  replay_entry t asked latest previous e rest none = ([], panic)
  replay_entry t asked latest previous e rest (some r) =
      send (is_due asked latest r.revision) (event t (some (entry_of r e)) previous) (rest r)

  -- The loop over the history
  pub replay : WatchEventType → Int64 → Int64 → Option (KeyRevision C.Spec) → List C.Spec → Sent
  unfolding spec_revision
  replay t asked latest previous [] = ([], ok previous)
  replay t asked latest previous (e ∷ es) =
      let rest = λ (r : Revision). replay t asked latest (some (entry_of r e)) es in
      if spec_revision C methods codec e == latest
      then ([], ok previous)
      else replay_entry t asked latest previous e rest (C.get_revision e)

  -- The current value, after the entries
  pub replayed : WatchEventType → Object B → Sent → List (WatchEvent C.Spec) × Watching C.Spec
  replayed t o (sent, ok previous) =
      (sent ++ event t (some (current_of o)) previous ∷ [], running (some (current_of o)))
  replayed t o (sent, err e) = (sent, crashed)
  replayed t o (sent, panic) = (sent, crashed)

  -- The first event of an object: with a revision, what follows readHistory, which gives no error
  pub started_with :
      WatchEventType
      → Int64
      → Object B
      → Result (List C.Spec)
      → List (WatchEvent C.Spec) × Watching C.Spec
  unfolding replay replayed
  started_with t asked o (ok entries) =
      replayed t o (replay t asked (version_number o.version) none entries)
  started_with t asked o (err e) = ([], crashed)
  started_with t asked o panic = ([], crashed)

  pub started :
      Option Int64
      → Option Int64
      → WatchEventType
      → Object B
      → List (WatchEvent C.Spec) × Watching C.Spec
  unfolding read_history started_with
  started none latest t o = (
    if same_version o.version latest then [] else event t (some (current_of o)) none ∷ [],
    running (some (current_of o)),
  )
  started (some asked) latest t o = started_with t asked o (read_history C methods codec o)

  pub last_revision : Int64 → List C.Spec → Int64
  unfolding spec_revision
  last_revision v [] = v
  last_revision v (e ∷ es) = last_revision (spec_revision C methods codec e) es

  -- getPreviousRevisionSlow
  pub get_previous_revision_slow : Object B → Result Int64
  unfolding decoded last_revision
  get_previous_revision_slow o =
      decoded C methods codec (annotations_of o.annotations).history >>= λ entries.
      ok (last_revision (version_number o.version) entries)

  abbrev pub revision_before : Option (KeyRevision C.Spec) → Object B → Result Int64
  revision_before none o = get_previous_revision_slow o
  revision_before (some p) o = ok p.revision

  pub gone : Object B → Result Int64 → List (WatchEvent C.Spec) × Watching C.Spec
  gone o (ok r) = (
    event event_delete none
          (some (record { key = ""; value = config_of o; revision = r; timestamp = 0 }))
        ∷ [],
    running none,
  )
  gone o (err e) = ([], crashed)
  gone o panic = ([], crashed)

  -- The loop after the first event
  pub live : Option (KeyRevision C.Spec) → ApiEvent B → List (WatchEvent C.Spec) × Watching C.Spec
  unfolding get_previous_revision_slow gone
  live previous (added o) =
      (event event_put (some (current_of o)) previous ∷ [], running (some (current_of o)))
  live previous (modified o) =
      (event event_put (some (current_of o)) previous ∷ [], running (some (current_of o)))
  live previous (deleted o) = gone o (revision_before previous o)
  live previous (bookmark o) = ([], running previous)
  live previous failure = ([], crashed)

  module _ (asked latest : Option Int64) where
    pub begin : ApiEvent B → List (WatchEvent C.Spec) × Watching C.Spec
    unfolding started
    begin (added o) = started asked latest event_put o
    begin (modified o) = started asked latest event_put o
    begin (deleted o) = started asked latest event_delete o
    begin (bookmark o) = ([], running none)
    begin failure = ([], running none)

    pub step : Watching C.Spec → ApiEvent B → List (WatchEvent C.Spec) × Watching C.Spec
    unfolding begin live
    step initial e = begin e
    step (running previous) e = live previous e
    step crashed e = ([], crashed)

    -- What is sent for the events, in their order
    unfoldable pub deliveries : Watching C.Spec → List (ApiEvent B) → List (WatchEvent C.Spec)
    unfolding step
    deliveries w [] = []
    deliveries w (e ∷ es) = (step w e).0 ++ deliveries (step w e).1 es

  -- The version that a Get reads before the watch starts, if it reads one
  abbrev pub version_read : Reply (Object B) → Option Int64
  version_read (done o) = o.version
  version_read (failed e) = none

  abbrev pub watch_reply :
      Option Int64 → Option Int64 → Reply (List (ApiEvent B)) → Result (List (WatchEvent C.Spec))
  watch_reply asked latest (done events) = ok (deliveries asked latest initial events)
  watch_reply asked latest (failed e) = err (to_grpc_error e)

  -- Watch: the events are those of the API server's watch, or it refuses.
  unfoldable pub watch :
      (api : Client B)
      → List WatchOpt
      → api.State
      → Reply (List (ApiEvent B))
      → Result (List (WatchEvent C.Spec))
  unfolding deliveries
  watch api opts s watched =
      let o = apply_watch no_watch_options opts in
      if o.prefix
      then err (status_error unimplemented)
      else watch_reply o.revision (version_read (api.get s)) watched
