-- ===== src/Reactive/Controller/Stores.antt =====
-- reactive/controller.go over storage/inmemory/value_store.go: a controller that is started on a store
-- holds the config of the store, whatever is written later.
use protoconfig.Prelude.Int64.{Int64}
use protoconfig.InMemory.ValueStore
use protoconfig.InMemory.ValueStore.{ValueStore}
use protoconfig.InMemory.ValueStore.Log.{Log}
use protoconfig.InMemory.ValueStore.Watch
use protoconfig.Reactive.Controller.{Controller}
