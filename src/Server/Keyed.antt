-- ===== src/Server/Keyed.antt =====
-- server/config.go and server/server.go: one default store and many active stores, each under a key
-- that a request names. A context is the key that contextWithKey put in it.
pub mod Laws
use protoconfig.Prelude.{ℕ, Bool, Option, List, String}
use protoconfig.Storage.Errors.{Result, ok, err, panic, ◌>>=◌}
use protoconfig.InMemory.ValueStore.{ValueStore}
use protoconfig.InMemory.Art.{Art}
use protoconfig.InMemory.KeyValueStore
use protoconfig.InMemory.KeyValueStore.{KeyValueStore}
use protoconfig.InMemory.KeyValueStore.Unasked.{get_key_unasked}
use protoconfig.Server.Revisions.{Revision}
use protoconfig.Server.ConfigTypes.{ConfigType, StoreOf}
use protoconfig.Server.Tracker.{Target, Stores}
use protoconfig.Server.Tracker.DryRuns.{DryRunRequest, DryRunResults, dry_run}
use protoconfig.Server.BaseServer

-- The field that ContextKey() names: a core.Reference with its id, a text, or a field of another kind.
pub data ContextKey : Type 0 where
  reference text : String → ContextKey
  other_kind : ContextKey

-- contextWithKey
unfoldable pub context_with_key : ContextKey → Result String
context_with_key (reference id) = ok id
context_with_key (text key) = ok key
context_with_key other_kind = panic

-- contextKeyedValueStore, with the key in the context
abbrev pub context_keyed : {A : Type 0} → Art (ValueStore A) → String → StoreOf A
context_keyed {A} art key = record {
  State = KeyValueStore art;
  get = KeyValueStore.get art key;
  put = λ now a opts m. KeyValueStore.put art now key a opts m;
  delete = λ now opts m. KeyValueStore.delete art now key opts m;
  history = KeyValueStore.history art key;
  get_out = get_key_unasked art key;
}

module _ (C : ConfigType) (D : StoreOf C.Spec) (art : Art (ValueStore C.Spec)) where
  -- The default store and the active stores of all keys.
  pub record KeyedStores : Type 0 where
    pub defaults : D.State
    pub actives : KeyValueStore art

  -- What the tracker works on once the context has a key, and what it leaves.
  abbrev pub with_key : (key : String) → KeyedStores → Stores C D (context_keyed art key)
  with_key key st = record { defaults = st.defaults; actives = st.actives }

  abbrev pub all_keys : (key : String) → Stores C D (context_keyed art key) → KeyedStores
  all_keys key st = record { defaults = st.defaults; actives = st.actives }

  -- A call that changes the stores, with the key of its request.
  abbrev pub keyed_call :
      ((key : String)
        → Stores C D (context_keyed art key)
        → Result (Unit {0}) × Stores C D (context_keyed art key))
      → ContextKey
      → KeyedStores
      → Result (Unit {0}) × KeyedStores
  keyed_call call ck st = elim (context_with_key ck) [
    | ok key ↦ let (out, after) = call key (with_key key st) in (out, all_keys key after)
    | err e ↦ (err e, st)
    | panic ↦ (panic, st)
  ]

  -- A call that reads the stores, with the key of its request.
  abbrev pub keyed_read :
      {B : Type 0}
      → ((key : String) → Stores C D (context_keyed art key) → Result B)
      → ContextKey
      → KeyedStores
      → Result B
  keyed_read read ck st = context_with_key ck >>= λ key. read key (with_key key st)

  unfoldable pub get : ContextKey → Option Revision → KeyedStores → Result C.Spec
  get ck revision st = keyed_read (λ key. BaseServer.get C D (context_keyed art key) revision) ck st

  unfoldable pub set : ℕ → ContextKey → C.Spec → KeyedStores → Result (Unit {0}) × KeyedStores
  set now ck spec st = keyed_call (λ key. BaseServer.set C D (context_keyed art key) now spec) ck st

  unfoldable pub reset :
      ℕ → ContextKey → Option (List String) → C.Spec → KeyedStores → Result (Unit {0}) × KeyedStores
  reset now ck mask patch st =
      keyed_call (λ key. BaseServer.reset C D (context_keyed art key) now mask patch) ck st

  pub history : ContextKey → Target → Bool → Option Revision → KeyedStores → Result (List C.Spec)
  history ck target include revision st =
      keyed_read (λ key. BaseServer.history C D (context_keyed art key) target include revision) ck
        st

  pub server_dry_run : ContextKey → DryRunRequest C → KeyedStores → Result (DryRunResults C)
  server_dry_run ck req st = keyed_read (λ key. dry_run C D (context_keyed art key) req) ck st
