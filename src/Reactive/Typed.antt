-- ===== src/Reactive/Typed.antt =====
-- reactive/typed.go: a reactive value whose listeners get a message or a scalar. A panic in a listener's
-- goroutine or in a function that is called ends the program.
pub mod Laws
mod Examples
use protoconfig.Prelude.{Bool, String, if◌then◌else◌, Option, none, some, List, [], ◌∷◌}
use protoconfig.Storage.Errors.{Result, ok, err, panic, ◌>>=◌}
use protoconfig.Util.Messages.{Message}
use protoconfig.Reactive.Values.{
  Reading, invalid, of_single, of_message, Listener, Call, ReactiveValue, watch_func,
}
use protoconfig.Storage.Stores.{WatchEvent}
use protoconfig.Reactive.Controller.{Controller, handle_watch_event}

module _ {V : Type 0} where
  -- messageEncoder.FromValue: v.Message() panics where v is not a message.
  abbrev pub message_from : Reading V → Result (Message V)
  message_from invalid = panic
  message_from (of_single o) = panic
  message_from (of_message m) = ok m

  -- scalarEncoder.FromValue, for the default of the field: the invalid value is nil, which has no type.
  abbrev pub scalar_from : V → Reading V → Result V
  scalar_from default invalid = panic
  scalar_from default (of_single none) = ok default
  scalar_from default (of_single (some v)) = ok v
  scalar_from default (of_message m) = panic

module _ {V T : Type 0} (from_value : Reading V → Result T) where
  -- Value
  unfoldable pub typed_value : ReactiveValue V → Result T
  typed_value r = from_value r.value

  -- What a listener gets, one after the other
  unfoldable pub typed_received : List (Reading V) → Result (List T)
  typed_received [] = ok []
  typed_received (v ∷ vs) = do t ← from_value v; ts ← typed_received vs; ok (t ∷ ts)

  -- Watch, over the channel of the base
  pub typed_watch : Listener (Reading V) → Result (List T)
  unfolding typed_received
  typed_watch l = typed_received l.received

  -- The functions that WatchFunc hands to the base, in a call of each: they run where the base calls
  -- them, so that a panic ends the caller.
  unfoldable pub typed_calls : Reading V → List (Listener (Call V)) → Result (Unit {0})
  typed_calls v [] = ok tt
  typed_calls v (f ∷ fs) = from_value v >>= λ t. typed_calls v fs

  -- WatchFunc: the base calls the function at once where there is a value.
  unfoldable pub typed_watch_func : String → ReactiveValue V → Result (ReactiveValue V)
  unfolding typed_value
  typed_watch_func id r =
      if r.pending_init then ok (watch_func id r) else typed_value r >>= λ t. ok (watch_func id r)

  -- handleWatchEvent where the functions that watch the root are typed: the root is updated with each
  -- event that is handled, and calls them. What the functions of other nodes do is left out.
  unfoldable pub typed_handle_watch_event :
      (V → V → Bool) → WatchEvent (Message V) → Controller V → Result (Controller V)
  typed_handle_watch_event equal ev c = handle_watch_event equal ev c >>= λ after.
      typed_calls after.root.value c.root.watch_funcs >>= λ called. ok after
