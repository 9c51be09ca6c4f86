-- ===== src/Server/Examples.antt =====
-- Tests and instances for the config tracker and the base server: a config with a setting and a
-- secret, over stores in memory.
use protoconfig.Prelude.{
  ℕ, ◌==◌, ◌≡◌, refl, Bool, true, false, Option, none, some, List, [], ◌∷◌, String, if◌then◌else◌,
  arith, ◌≢◌, eq_iff,
}
use protoconfig.Prelude.Int64.{Int64, inc64}
use protoconfig.Storage.Errors.{Result, ok, err, status_error, unavailable, is_not_found}
use protoconfig.InMemory.Art.{Art, list_art}
use protoconfig.InMemory.KeyValueStore
use protoconfig.Server.Keyed
use protoconfig.Server.Keyed.{KeyedStores, reference, text, context_with_key}
use protoconfig.Server.Keyed.Laws.{keyed_set_isolated}
use mathlib.Core.Bool.{false≢true}
use protoconfig.InMemory.ValueStore
use protoconfig.InMemory.ValueStore.{ValueStore, new_value_store}
use protoconfig.Server.Revisions.{Revision, updated_revision}
use protoconfig.Server.ConfigTypes.{ConfigType, StoreOf, valid, unset_revision, copy_revision}
use protoconfig.Server.InMemory.{value_store_of}
use protoconfig.Server.Tracker
use protoconfig.Server.Tracker.{
  AtRevision, Target, active, default, Stores, get_default_locked, get_active_locked,
  get_config_or_default_locked, put_active, put_default, maybe_with_revision,
}
use protoconfig.Server.Tracker.Laws.{
  ShowsNoSecret, ReadFrom, of_either, read_config, read_locked, reads_redacted,
}
use protoconfig.Server.Tracker.DryRuns.{
  Action, DryRunResults, DryRunRequest, dry_run_apply, dry_run_reset, dry_run,
}
use protoconfig.Server.Tracker.DryRuns.Laws.{dry_run_apply-apply, dry_run_reset-reset}
use protoconfig.Server.Tracker.DryRuns.Redaction.{dry_run_redacted}

record Settings : Type 0 where
  revision : Option Revision
  size : ℕ
  -- 0 for no secret, 1 for a redacted one.
  secret : ℕ

abbrev redact : Settings → Settings
redact t = record t { secret = if t.secret == 0 then 0 else 1 }

abbrev unredact : Settings → Settings → Result Settings
unredact t from = ok (if t.secret == 1 then record t { secret = from.secret } else t)

-- The fields that are set replace those of the destination.
abbrev merge : Settings → Settings → Settings
merge dst src = record {
  revision = dst.revision;
  size = if src.size == 0 then dst.size else src.size;
  secret = if src.secret == 0 then dst.secret else src.secret;
}

abbrev keep : List String → Settings → Settings
keep [] t = record { revision = none; size = 0; secret = 0 }
keep (p ∷ ps) t = record t { revision = none; secret = 0 }

abbrev accepts : List String → Settings → Bool
accepts [] t = false
accepts (p ∷ ps) t = true

redact_twice : (t : Settings) → redact (redact t) ≡ redact t
redact_twice t = ground arith

abbrev settings : ConfigType
settings = record {
  Spec = Settings;
  Violations = Unit {0};
  new_spec = record { revision = none; size = 0; secret = 0 };
  get_revision = λ t. t.revision;
  with_revision_field = λ r t. record t { revision = r };
  redact_secrets = redact;
  unredact_secrets = unredact;
  merge_with_replace = merge;
  exclusive_keep = keep;
  normalize = λ ps. ps;
  is_valid_mask = accepts;
  append_path = λ p ps. ok (p ∷ ps);
  masked_fields = "size" ∷ [];
  has_field = λ f t. if t.size == 0 then false else true;
  clear_field = λ f t. record t { size = 0 };
  validate = λ t. valid;
  default_loader = λ t. record t { size = 4 };
  get_revision-with_revision_field = λ r t. refl;
  redact_twice = redact_twice;
  redact_revision = λ r t. refl;
}

abbrev memory : StoreOf Settings
memory = value_store_of Settings

abbrev empty_store : ValueStore Settings
empty_store = new_value_store (λ x. x) settings.new_spec

abbrev wanted : Settings
wanted = record { revision = none; size = 9; secret = 7 }

abbrev held : ValueStore Settings
held = (ValueStore.put 100 wanted [] empty_store).1

abbrev stores : Stores settings memory memory
stores = record { defaults = empty_store; actives = held }

-- A default store that cannot be reached.
abbrev unreachable : StoreOf Settings
unreachable = record {
  State = Unit {0};
  get = λ opts s. err (status_error unavailable);
  put = λ now a opts s. (err (status_error unavailable), s);
  delete = λ now opts s. (err (status_error unavailable), s);
  history = λ opts s. err (status_error unavailable);
  get_out = λ r s. refl;
}

abbrev half : Stores settings unreachable memory
half = record { defaults = tt; actives = empty_store }

-- What a client sees of the held settings.
abbrev seen : Settings
seen = record {
  revision = some (record { revision = some 1; timestamp = none });
  size = 9;
  secret = 1;
}

reads_redacted_example :
    ReadFrom settings memory memory (read_locked settings memory memory of_either [] stores) seen
unfolding ValueStore.get ValueStore.put new_value_store read_config Tracker.get_active_or_default
    inc64 updated_revision
reads_redacted_example = reads_redacted settings memory memory of_either [] stores seen refl

abbrev update : Settings
update = record { revision = none; size = 3; secret = 1 }

abbrev foretold : DryRunResults settings
foretold = record {
  current = record wanted { secret = 1 };
  modified = record { revision = none; size = 3; secret = 1 };
  validation_errors = none;
}

dry_run_apply-apply_example :
    (merged : Settings) × (r : Int64) × (Tracker.apply settings memory memory 200 update stores
      ≡ put_active settings memory memory 200 (ok (unset_revision settings merged, r)) stores)
    × (foretold.modified ≡ copy_revision settings (redact merged) foretold.current)
unfolding ValueStore.get ValueStore.put new_value_store dry_run_apply inc64
dry_run_apply-apply_example =
    dry_run_apply-apply settings memory memory 200 update stores foretold refl refl

abbrev request : DryRunRequest settings
request = record {
  target = active;
  action = Action.set;
  spec = update;
  revision = none;
  patch = update;
  mask = none;
}

dry_run_redacted_example :
    ShowsNoSecret settings foretold.current × ShowsNoSecret settings foretold.modified
unfolding ValueStore.get ValueStore.put new_value_store dry_run inc64
dry_run_redacted_example = dry_run_redacted settings memory memory request stores foretold refl

abbrev reset_foretold : DryRunResults settings
reset_foretold = record {
  current = record wanted { secret = 1 };
  modified = record { revision = none; size = 3; secret = 0 };
  validation_errors = none;
}

abbrev patch : Settings
patch = record { revision = none; size = 3; secret = 0 }

dry_run_reset-reset_example :
    (merged : Settings) × (r : Int64) × (Tracker.reset settings memory memory 200
        (some ("size" ∷ []))
        patch
        []
        stores
      ≡ put_active settings memory memory 200 (ok (merged, r)) stores)
    × (reset_foretold.modified ≡ redact merged)
unfolding ValueStore.get ValueStore.put new_value_store dry_run_reset is_not_found inc64
dry_run_reset-reset_example =
    dry_run_reset-reset settings memory memory 200 ("size" ∷ []) patch [] stores reset_foretold refl

abbrev art : Art (ValueStore Settings)
art = list_art (ValueStore Settings)

abbrev keyed : KeyedStores settings memory art
keyed = record {
  defaults = empty_store;
  actives = KeyValueStore.new_key_value_store art (λ x. x) settings.new_spec;
}

a_not_b : ◌≢◌ {A = String} "a" "b"
a_not_b p = false≢true ((eq_iff "a" "b").1 p)

keyed_set_isolated_example :
    Keyed.get settings memory art
      (reference "b")
      none
      (Keyed.set settings memory art 200 (text "a") update keyed).1
    ≡ Keyed.get settings memory art (reference "b") none keyed
unfolding context_with_key
keyed_set_isolated_example =
    keyed_set_isolated settings memory art 200 (text "a") (reference "b") "a" "b" update none keyed
      refl refl a_not_b
