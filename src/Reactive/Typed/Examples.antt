-- ===== src/Reactive/Typed/Examples.antt =====
-- An instance for reactive/typed.go: a config with one number, and a listener of the whole config.
use protoconfig.Prelude.{ℕ, ◌==◌, ◌≡◌, refl, none, some}
use protoconfig.Storage.Errors.{panic}
use protoconfig.Storage.Stores.{KeyRevision}
use protoconfig.Util.Messages.{Message, no_fields, single}
use protoconfig.Reactive.Values.{watch, watch_func, update}
use protoconfig.Reactive.Controller.{
  Controller, new_controller, handle_watch_event, handle_delete, dispatch,
}
use protoconfig.Reactive.Typed.{message_from, typed_calls, typed_handle_watch_event}
use protoconfig.Reactive.Typed.Laws.{deletion}

abbrev config : Message ℕ
config = single "size" (some 3) no_fields

abbrev listening : Controller ℕ
listening = record (new_controller (single "size" none no_fields)) {
  root = watch "w" (new_controller {V = ℕ} (single "size" none no_fields)).root;
}

abbrev deleted : KeyRevision (Message ℕ)
deleted = record { key = ""; value = config; revision = 1; timestamp = 100 }

-- With a function that watches the root too, the deletion itself panics.
abbrev called : Controller ℕ
called = record listening { root = watch_func "f" listening.root }

called_panics :
    typed_handle_watch_event message_from ◌==◌ (deletion ◌==◌ none deleted) called ≡ panic
unfolding typed_handle_watch_event handle_watch_event handle_delete dispatch update watch_func watch
    typed_calls new_controller
called_panics = refl
