-- ===== src/Reactive/Controller/Examples.antt =====
-- Instances for reactive/controller.go: a config with a number and a message of one number.
use protoconfig.Prelude.{ℕ, ◌==◌, ◌≡◌, refl, Bool, true, false, none, some, List, [], ◌∷◌, arith}
use protoconfig.InMemory.ValueStore.{ValueStore, new_value_store}
use protoconfig.InMemory.ValueStore.Log.{Entry}
use protoconfig.InMemory.ValueStore.Runs.{Call, puts as puts_call, deletes as deletes_call, run}
use protoconfig.Storage.Stores.{KeyRevision, WatchEvent, event_put}
use protoconfig.Util.Messages.{Message, ordinary, no_fields, single, nested}
use protoconfig.Reactive.Values.{watch}
use protoconfig.Reactive.Values.Laws.{watches}
use protoconfig.Reactive.Controller.{Controller, new_controller}
use protoconfig.Reactive.Controller.Fields.{HoldsConfig}
use protoconfig.Reactive.Controller.Handling.{
  IsCurrentAt, Continues, creates, handle_watch_event-Shows,
}
use protoconfig.Reactive.Controller.Runs.{
  Reaches, starts, handles, listens_root, Reaches-Shows, Reaches-HoldsConfig,
}

abbrev equal : ℕ → ℕ → Bool
equal a b = a == b

equal_sound : (a b : ℕ) → equal a b ≡ true → a ≡ b
equal_sound a b h = ground (arith, h)

abbrev empty_config : Message ℕ
empty_config =
    single "size" none (nested "tls" ordinary false (single "port" none no_fields) no_fields)

abbrev first_config : Message ℕ
first_config =
    single "size" (some 3)
      (nested "tls" ordinary true (single "port" (some 443) no_fields) no_fields)

abbrev first_revision : KeyRevision (Message ℕ)
first_revision = record { key = ""; value = first_config; revision = 1; timestamp = 100 }

abbrev created : WatchEvent (Message ℕ)
created = record { event_type = event_put; current = some first_revision; previous = none }

abbrev fresh : Controller ℕ
fresh = new_controller empty_config

run_start : Reaches equal empty_config fresh empty_config none
run_start = starts empty_config (refl, (refl, refl, (refl, tt), tt)) (refl, tt)

-- With a listener of the whole config
abbrev listening : Controller ℕ
listening = record fresh { root = watch "w" fresh.root }

run_listening : Reaches equal empty_config listening empty_config none
run_listening = listens_root (watch "w" fresh.root) run_start (watches "w" fresh.root)

listening_current : IsCurrentAt listening empty_config
listening_current =
    (Reaches-Shows equal empty_config listening empty_config none equal_sound run_listening).0

creates_first : Continues listening.zero empty_config created first_config
unfolding new_controller
creates_first = creates first_revision refl (refl, (refl, refl, (refl, tt), tt)) (tt, tt)

abbrev handled : Controller ℕ
handled =
    (handle_watch_event-Shows equal equal_sound listening empty_config first_config created
      listening_current creates_first).0

run_created : Reaches equal empty_config handled first_config (some (some first_config))
run_created =
    handles created run_listening creates_first
      (handle_watch_event-Shows equal equal_sound listening empty_config first_config created
        listening_current creates_first).1

Reaches-HoldsConfig_example :
    HoldsConfig handled (some first_config) × IsCurrentAt handled first_config
Reaches-HoldsConfig_example =
    Reaches-HoldsConfig equal empty_config handled first_config (some first_config) equal_sound
      run_created

-- A store with the first config, whose deletion follows
abbrev first_entry : Entry (Message ℕ)
first_entry = record { timestamp = 100; value = some first_config }

abbrev store : ValueStore (Message ℕ)
store = run (puts_call 100 first_config [] ∷ []) (new_value_store (λ x. x) empty_config)

abbrev deletion : List (Call (Message ℕ))
deletion = deletes_call 101 [] ∷ []
