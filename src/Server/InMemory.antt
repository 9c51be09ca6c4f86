-- ===== src/Server/InMemory.antt =====
-- The value store of storage/inmemory/value_store.go as a store that the tracker works on.
use protoconfig.InMemory.ValueStore
use protoconfig.InMemory.ValueStore.{ValueStore}
use protoconfig.Prelude.{ap}
use protoconfig.InMemory.ValueStore.Runs.{puts, deletes, step, refusal, error_of}
use protoconfig.InMemory.ValueStore.Guarantees.{refused_call_keeps}
use protoconfig.InMemory.ValueStore.Unasked.{get_unasked}
use protoconfig.Server.ConfigTypes.{StoreOf, KeepsRefused}

abbrev pub value_store_of : (A : Type 0) → StoreOf A
value_store_of A = record {
  State = ValueStore A;
  get = ValueStore.get;
  put = ValueStore.put;
  delete = ValueStore.delete;
  history = ValueStore.history;
  get_out = get_unasked;
}

abbrev pub value_store_keeps : (A : Type 0) → KeepsRefused (value_store_of A)
unfolding refusal step
value_store_keeps A = record {
  put_refused = λ now a opts s e h. refused_call_keeps (puts now a opts) s e (ap error_of h);
  delete_refused = λ now opts s e h. refused_call_keeps (deletes now opts) s e (ap error_of h);
}
