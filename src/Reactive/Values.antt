-- ===== src/Reactive/Values.antt =====
-- reactive/value.go: a reactive value with its listeners. Its lock makes each call one step. A channel
-- of Watch holds four values; what is modelled is all that is written to it, for a reader that keeps
-- up: an update waits while a channel is full.
pub mod Laws
use protoconfig.Prelude.{
  ℕ, Bool, true, false, ◌||◌, Option, none, some, List, [], ◌∷◌, ◌++◌, String, str_eq,
  if◌then◌else◌,
}
use protoconfig.Prelude.Int64.{Int64}
use protoconfig.Util.Messages.{Message, has_fields}

-- protoreflect.Value, as the fields of a message give it: the invalid value, that of a field with no
-- message (which reads as its default where it is not set), or a message.
pub data Reading (V : Type 0) : Type 0 where
  invalid : Reading V
  of_single : Option V → Reading V
  of_message : Message V → Reading V

-- What a listener gets, in order.
pub record Listener (A : Type 0) : Type 0 where
  pub id : String
  pub received : List A

-- A call of a watch function; the group is nil where the call is made by WatchFunc itself.
pub record Call (V : Type 0) : Type 0 where
  pub rev : Int64
  pub value : Reading V
  pub grouped : Bool

pub record ReactiveValue (V : Type 0) : Type 0 where
  pub rev : Int64
  pub pending_init : Bool
  pub value : Reading V
  pub watch_channels : List (Listener (Reading V))
  pub watch_funcs : List (Listener (Call V))

-- Each listener gets one more.
abbrev pub inform : {A : Type 0} → A → List (Listener A) → List (Listener A)
inform a [] = []
inform a (l ∷ ls) = record l { received = l.received ++ a ∷ [] } ∷ inform a ls

-- delete(m, key)
abbrev pub remove : {A : Type 0} → String → List (Listener A) → List (Listener A)
remove id [] = []
remove id (l ∷ ls) = let rest = remove id ls in if str_eq l.id id then rest else l ∷ rest

abbrev pub new_reactive_value : {V : Type 0} → ReactiveValue V
new_reactive_value = record {
  rev = 0;
  pending_init = true;
  value = invalid;
  watch_channels = [];
  watch_funcs = [];
}

module _ {V : Type 0} where
  unfoldable pub update : Int64 → Reading V → Bool → ReactiveValue V → ReactiveValue V
  update rev v notify r =
      if r.pending_init || notify
      then record {
        rev = rev;
        pending_init = false;
        value = v;
        watch_channels = inform v r.watch_channels;
        watch_funcs = inform (record { rev = rev; value = v; grouped = true }) r.watch_funcs;
      }
      else record r { rev = rev; value = v }

  unfoldable pub watch : String → ReactiveValue V → ReactiveValue V
  watch id r = record r {
    watch_channels =
        record { id = id; received = if r.pending_init then [] else r.value ∷ [] }
        ∷ r.watch_channels;
  }

  unfoldable pub watch_func : String → ReactiveValue V → ReactiveValue V
  watch_func id r = record r {
    watch_funcs =
        record {
          id = id;
          received =
              if r.pending_init
              then []
              else record { rev = r.rev; value = r.value; grouped = false } ∷ [];
        }
        ∷ r.watch_funcs;
  }

  -- What the end of a context runs.
  unfoldable pub stop_watch : String → ReactiveValue V → ReactiveValue V
  stop_watch id r = record r { watch_channels = remove id r.watch_channels }

  unfoldable pub stop_func : String → ReactiveValue V → ReactiveValue V
  stop_func id r = record r { watch_funcs = remove id r.watch_funcs }
