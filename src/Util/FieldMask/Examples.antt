-- ===== src/Util/FieldMask/Examples.antt =====
-- Instances for util/fieldmask: a message with a limit, and a message of two numbers below it.
use protoconfig.Prelude.{ℕ, ◌≡◌, true, none, some, List, [], ◌∷◌, String}
use protoconfig.InMemory.Art.{Art, list_art}
use protoconfig.Util.Messages.{Message, ordinary, no_fields, single, nested, zero_message}
use protoconfig.Util.FieldMask.{exclusive_keep, exclusive_discard}
use protoconfig.Util.FieldMask.Laws.{keep_and_discard_clear}

abbrev art : Art (Unit {0})
art = list_art (Unit {0})

abbrev paths : List String
paths = "limit" ∷ "tls.port" ∷ []

abbrev port_fields : Message ℕ
port_fields = single "port" (some 1) (single "mode" none no_fields)

abbrev sample : Message ℕ
sample = single "limit" (some 3) (nested "tls" ordinary true port_fields no_fields)

keep_and_discard_clear_example :
    (exclusive_discard art (some paths) (exclusive_keep art (some paths) sample)
      ≡ zero_message sample)
    × (exclusive_keep art (some paths) (exclusive_discard art (some paths) sample)
        ≡ zero_message sample)
keep_and_discard_clear_example = keep_and_discard_clear art paths sample (tt, tt)
