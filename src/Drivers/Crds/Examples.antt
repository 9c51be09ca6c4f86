-- ===== src/Drivers/Crds/Examples.antt =====
-- Tests of the store in Kubernetes objects.
use protoconfig.Prelude.{
  ℕ, ◌+◌, ◌<◌, ◌≤◌, ◌^◌, ◌≡◌, ◌≢◌, ◌⊎◌, refl, ap, sym, subst, true, Option, none, some, List, [],
  ◌∷◌, ◌++◌, arith,
}
use protoconfig.Prelude.Int64.{Int64}
use protoconfig.Storage.Errors.{ok, panic, plain_error}
use protoconfig.Storage.Options.{with_revision, with_revision_out}
use protoconfig.Server.Revisions.{Revision, updated_revision}
use protoconfig.Server.ConfigTypes.{
  StoreOf, copy_revision, unset_revision, set_revision, clear_field_of,
}
use protoconfig.Drivers.Crds
use protoconfig.Drivers.Crds.Api.{missing, done, failed, Object}
use protoconfig.Drivers.Crds.Encoding.{encode_history, marshal_json, truncated, entry_size}
use protoconfig.Drivers.Crds.Encoding.Bounds.{truncated-longest, total_size, entries_of}
use protoconfig.Drivers.Crds.Instances.{Setting, setting, methods, codec, first}
use protoconfig.Drivers.Crds.Instances.ApiServer.{server, done_same}
use protoconfig.Drivers.Crds.Readings.{put-get}
use protoconfig.Drivers.Crds.Older.{put_keeps_older}
use protoconfig.Drivers.Crds.Histories.{InOrder, put-InOrder}
use protoconfig.Server.Tracker
use protoconfig.Server.Tracker.{Stores, put_active}
use protoconfig.Server.Tracker.DryRuns.{DryRunResults, dry_run_apply}
use protoconfig.Drivers.Crds.Backend.{crd_store_of}
use protoconfig.Drivers.Crds.Tracked.{dry_run_apply-get}
use protoconfig.Drivers.Crds.Progress.{Takes, put_total}
use protoconfig.Drivers.Crds.Refusals.{put_locked}
use protoconfig.Drivers.Crds.Spoiled.{later_put_panics}

abbrev wanted : Setting
wanted = record { revision = none; size = 9 }

abbrev one : Int64
one = 1

abbrev stored : Object ℕ
stored = record { version = some 1; created = 0; annotations = none; body = 7 }

unset_size :
    (r : Option Revision) (n : ℕ)
    → clear_field_of setting r (record { revision = r; size = n })
      ≡ record { revision = none; size = n }
unset_size none n = refl
unset_size (some r) n = refl

fills_back :
    (c : Setting) (b : ℕ)
    → unset_revision setting (methods.fill_config (methods.fill_object c b))
      ≡ unset_revision setting c
fills_back c b = sym (unset_size c.revision c.size)

put-get_example :
    (r : Int64) × (Crds.get setting methods codec server
        (with_revision_out true ∷ [])
        (Crds.put setting methods codec server 5 wanted
          (with_revision 1 ∷ with_revision_out true ∷ [])
          (some stored)).1
      ≡ ok (wanted, some r))
    × (some 2 ≡ some r)
unfolding Crds.put encode_history marshal_json updated_revision
put-get_example =
    put-get setting methods codec server 5 wanted (with_revision 1 ∷ with_revision_out true ∷ [])
      (some stored) (some 2) fills_back refl

set_unset :
    (v : Int64) (t : Option ℕ) (c : Setting)
    → unset_revision setting (set_revision setting v t c) ≡ unset_revision setting c
set_unset v t c = sym (unset_size c.revision c.size)

versions_small :
    (n : Object ℕ)
    → server.get (Crds.put setting methods codec server 5 wanted [] (some stored)).1 ≡ done n
    → Crds.version_number n.version < 2 ^ 63
unfolding Crds.put encode_history marshal_json updated_revision
versions_small n h = ground (arith, done_same _ n h)

put_keeps_older_example :
    Crds.get setting methods codec server
      (with_revision 1 ∷ with_revision_out true ∷ [])
      (Crds.put setting methods codec server 5 wanted [] (some stored)).1
    ≡ Crds.get setting methods codec server
        (with_revision 1 ∷ with_revision_out true ∷ [])
        (some stored)
unfolding Crds.put encode_history marshal_json updated_revision
put_keeps_older_example =
    put_keeps_older setting methods codec server 5 wanted [] (some stored) none stored []
      ((first, 1) ∷ []) "{1}" 1 1 set_unset refl refl refl tt (omega arith) refl (omega arith) refl
      versions_small (omega arith) refl

stored-InOrder :
    (obj : Object ℕ) → server.get (some stored) ≡ done obj → InOrder setting methods codec obj
unfolding Crds.decoded
stored-InOrder obj h =
    subst (λ o. InOrder setting methods codec o) (done_same stored obj h)
      (λ es p. let q : es ≡ [] = ground (arith, p) in rw q (omega arith, (1, refl, tt)))

put-InOrder_example :
    (n : Object ℕ) × (server.get (Crds.put setting methods codec server 5 wanted [] (some stored)).1
      ≡ done n)
    × InOrder setting methods codec n
unfolding Crds.put encode_history marshal_json updated_revision
put-InOrder_example =
    put-InOrder setting methods codec server 5 wanted [] (some stored) none stored-InOrder refl

put_locked_example :
    (server.get (some stored) ≡ failed missing)
    ⊎ ((obj n : Object ℕ) × (w : Int64) × (server.get (some stored) ≡ done obj)
        × (obj.version ≡ some 1)
        × (one ≢ 0)
        × (server.get
              (Crds.put setting methods codec server 5 wanted
                (with_revision 1 ∷ [])
                (some stored)).1
            ≡ done n)
        × (n.version ≡ some w)
        × ((1 < w) ⊎ (n ≡ obj)))
unfolding Crds.put encode_history marshal_json updated_revision
put_locked_example =
    put_locked setting methods codec server 5 wanted (with_revision 1 ∷ []) (some stored) none 1
      refl refl

abbrev two_entries : List (Setting × ℕ)
two_entries = (first, 150000) ∷ (wanted, 120000) ∷ []

truncated-longest_example :
    (old new : List (Setting × ℕ)) × (two_entries ≡ old ++ new)
    × (truncated codec two_entries ≡ entries_of codec new)
    × (14 + total_size codec new ≤ 256000)
    × ((old ≡ [])
        ⊎ ((before : List (Setting × ℕ)) × (e : Setting) × (n : ℕ) × (old ≡ before ++ (e, n) ∷ [])
            × (256000 < 14 + total_size codec new + entry_size codec n)))
truncated-longest_example = truncated-longest codec two_entries

taken_first : Takes setting methods codec server (some 1) (some stored)
taken_first sent h = (
  record sent { version = some 2 },
  some (record sent { version = some 2 }),
  ap (λ v. server.update (record sent { version = v }) (some stored)) h,
)

put_total_example :
    (r : Int64) × ((Crds.put setting methods codec server 5 wanted
        (with_revision 1 ∷ with_revision_out true ∷ [])
        (some stored)).0
      ≡ ok (some r))
    × (Crds.get setting methods codec server
          (with_revision_out true ∷ [])
          (Crds.put setting methods codec server 5 wanted
            (with_revision 1 ∷ with_revision_out true ∷ [])
            (some stored)).1
        ≡ ok (wanted, some r))
unfolding Crds.decoded encode_history marshal_json updated_revision
put_total_example =
    put_total setting methods codec server 5 wanted (with_revision 1 ∷ with_revision_out true ∷ [])
      (some stored) stored [] fills_back refl refl (λ h. ground (arith, h)) (λ h. ground (arith, h))
      taken_first

-- An object whose config the history cannot be encoded with, and has annotations
abbrev unencodable : Object ℕ
unencodable = record {
  version = some 1;
  created = 0;
  annotations = some (record { history = none; last_modified = none });
  body = 9;
}

later_put_panics_example :
    Crds.put setting methods codec server 6 wanted
      (with_revision 2 ∷ [])
      (Crds.put setting methods codec server 5 wanted [] (some unencodable)).1
    ≡ (panic, (Crds.put setting methods codec server 5 wanted [] (some unencodable)).1)
unfolding Crds.decoded Crds.put encode_history marshal_json updated_revision
later_put_panics_example =
    later_put_panics setting methods codec server 5 6 wanted wanted [] (with_revision 2 ∷ [])
      (some unencodable) none unencodable (record { history = none; last_modified = none }) []
      plain_error refl refl refl refl refl

abbrev backend : StoreOf Setting
backend = crd_store_of setting methods codec server

abbrev tracked : Stores setting backend backend
tracked = record { defaults = none; actives = some stored }

abbrev foretold : DryRunResults setting
foretold = record {
  current = record { revision = none; size = 7 };
  modified = wanted;
  validation_errors = none;
}

dry_run_apply-get_example :
    (merged : Setting) × (v : Int64) × (wanted ≡ copy_revision setting merged foretold.current)
    × (Tracker.get setting backend backend []
          (Tracker.apply setting backend backend 5 wanted tracked).1
        ≡ ok (set_revision setting v none (unset_revision setting (unset_revision setting merged))))
unfolding Crds.get Crds.put encode_history marshal_json updated_revision dry_run_apply Tracker.apply
    put_active
dry_run_apply-get_example =
    dry_run_apply-get setting methods codec server backend 5 wanted tracked foretold fills_back refl
      refl refl
