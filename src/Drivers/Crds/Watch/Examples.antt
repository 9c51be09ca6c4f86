-- ===== src/Drivers/Crds/Watch/Examples.antt =====
-- Tests of the watch of a Kubernetes object.
use protoconfig.Prelude.{ℕ, ◌≡◌, refl, sym, map, true, Option, none, some, [], ◌∷◌, arith}
use protoconfig.Prelude.Int64.{gtb64}
use protoconfig.Server.Revisions.{Revision, updated_revision}
use protoconfig.Drivers.Crds
use protoconfig.Drivers.Crds.Api.{Object}
use protoconfig.Drivers.Crds.Encoding.{decode_history, encode_history, marshal_json}
use protoconfig.Drivers.Crds.Instances.{Setting, setting, methods, codec, first}
use protoconfig.Storage.Stores.{KeyRevision, event_put}
use protoconfig.Drivers.Crds.Watch.{added, modified, deleted, initial, running, deliveries}
use protoconfig.Drivers.Crds.Watch.Links.{Links, deliveries-Links}
use protoconfig.Drivers.Crds.Watch.Puts.{
  PutsSeen, no_puts, put_added, put_modified, told, put_of, deliveries-puts,
}
use protoconfig.Drivers.Crds.Instances.ApiServer.{server}
use protoconfig.Server.ConfigTypes.{unset_revision, clear_field_of}
use protoconfig.Storage.Options.{with_revision_out}
use protoconfig.Drivers.Crds.Watch.Replays.{deliveries-since}

abbrev wanted : Setting
wanted = record { revision = none; size = 9 }

abbrev stored : Object ℕ
stored = record { version = some 1; created = 0; annotations = none; body = 7 }

abbrev second : Object ℕ
second = record {
  version = some 2;
  created = 0;
  annotations = some (record { history = some "{1}"; last_modified = some 5 });
  body = 9;
}

abbrev first_seen : KeyRevision Setting
first_seen = record {
  key = "";
  value = record { revision = none; size = 7 };
  revision = 1;
  timestamp = 0;
}

abbrev second_seen : KeyRevision Setting
second_seen = record { key = ""; value = wanted; revision = 2; timestamp = 0 }

deliveries-since_example :
    deliveries setting methods codec (some 1) none initial (added second ∷ deleted second ∷ [])
    ≡ record { event_type = event_put; current = some first_seen; previous = none }
      ∷ record { event_type = event_put; current = some second_seen; previous = some first_seen }
      ∷ deliveries setting methods codec
          (some 1)
          none
          (running (some second_seen))
          (deleted second ∷ [])
unfolding Crds.decoded decode_history updated_revision gtb64 Crds.spec_revision
deliveries-since_example =
    deliveries-since setting methods codec 1 2 none second (first ∷ []) (deleted second ∷ []) refl
      refl ((_, _, refl, refl), tt) (omega arith, tt, tt) (omega arith) (omega arith)

deliveries-Links_example : Links (some first_seen) (
    deliveries setting methods codec none none
      (running (some first_seen))
      (added second ∷ deleted second ∷ added stored ∷ []))
deliveries-Links_example =
    deliveries-Links setting methods codec none none (some first_seen)
      (added second ∷ deleted second ∷ added stored ∷ [])

unset_size :
    (r : Option Revision) (n : ℕ)
    → clear_field_of setting r (record { revision = r; size = n })
      ≡ record { revision = none; size = n }
unset_size none n = refl
unset_size (some r) n = refl

fills_back :
    (c : Setting) (b : ℕ)
    → unset_revision setting (methods.fill_config (methods.fill_object c b))
      ≡ unset_revision setting c
fills_back c b = sym (unset_size c.revision c.size)

-- Two puts: the first creates the object, which the second reads.
abbrev created : Object ℕ
created = record { version = some 1; created = 0; annotations = none; body = 7 }

seven_then_nine :
    PutsSeen setting methods codec server none
      ((record { revision = none; size = 7 }, 1) ∷ (wanted, 2) ∷ [])
      (added created ∷ modified second ∷ [])
unfolding Crds.put Crds.decoded encode_history marshal_json updated_revision
seven_then_nine =
    put_added 4 (record { revision = none; size = 7 }) (with_revision_out true ∷ []) 1 created refl
      refl (put_modified 5 wanted (with_revision_out true ∷ []) 2 second refl refl no_puts)

deliveries-puts_example :
    map (told setting methods codec server) (
      deliveries setting methods codec none none
        (running none)
        (added created ∷ modified second ∷ []))
    ≡ map
        (put_of setting methods codec server)
        ((record { revision = none; size = 7 }, 1) ∷ (wanted, 2) ∷ [])
deliveries-puts_example =
    deliveries-puts setting methods codec server none none none none
      ((record { revision = none; size = 7 }, 1) ∷ (wanted, 2) ∷ [])
      (added created ∷ modified second ∷ []) fills_back seven_then_nine
