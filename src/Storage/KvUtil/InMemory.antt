-- ===== src/Storage/KvUtil/InMemory.antt =====
-- The key-value store of storage/inmemory/kv_store.go as a base of storage/kvutil/kvutil.go.
use protoconfig.InMemory.Art.{Art}
use protoconfig.InMemory.ValueStore.{ValueStore}
use protoconfig.InMemory.KeyValueStore
use protoconfig.InMemory.KeyValueStore.{KeyValueStore}
use protoconfig.InMemory.KeyValueStore.Unasked.{get_key_unasked}
use protoconfig.Storage.KvUtil.{KeyedStoreOf}

abbrev pub in_memory : {A : Type 0} → Art (ValueStore A) → KeyedStoreOf A
in_memory art = record {
  State = KeyValueStore art;
  get = KeyValueStore.get art;
  put = KeyValueStore.put art;
  delete = KeyValueStore.delete art;
  list_keys = KeyValueStore.list_keys art;
  history = KeyValueStore.history art;
  get_out = get_key_unasked art;
}
