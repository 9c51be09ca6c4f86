-- ===== src/Lib.antt =====
-- A model of protoconfig: revisioned configuration storage, a config tracker over it, and its server.
--
-- The parts, and the files that model them:
--   * Storage (storage/errors.go, options.go, stores.go): errors as the gRPC status that they convert
--     to, a result as a value, an error or a panic, functional options as lists that are applied in
--     order, revisions and watch events. Storage.Reads names options that several parts share.
--   * InMemory.Ring and InMemory.ValueStore (storage/inmemory/value_store.go): the ring of 64 nodes as
--     the node it stands at and the others, newest first; Put, Get, Delete, History and Watch as
--     functions of the store, `put`, `get`, `delete`, `history` and `watch`. Locks make each call one
--     step. InMemory.ValueStore.Log is an independent description: the list of all writes, newest
--     first; Refinement, Reads, Runs, Guarantees, Histories and Watch relate the code to it.
--   * InMemory.Art and InMemory.KeyValueStore (storage/inmemory/kv_store.go): the radix tree is an
--     interface with the laws of search, which an association list fills; a key has a value store, and a
--     new one gets a listener for each watch that its key matches.
--   * Server.Revisions and Server.ConfigTypes (server/reflect.go, server/constraints.go,
--     apis/core/v1/extensions.go): the revision field of a config, and the interface of config types,
--     stores, field masks and the validator. A config type is generated code, so it is a parameter with
--     the laws that redaction is idempotent and does not touch the revision.
--   * Server.Tracker and Server.Tracker.DryRuns (server/config.go): DefaultingConfigTracker over a
--     default store and an active store, each call a function of both; Server.InMemory is the value
--     store in memory as such a store.
--   * Server.BaseServer (server/server.go): BaseConfigServer over the tracker.
--   * Server.Keyed (server/config.go, server/server.go): ContextKeyableConfigServer, one default store
--     and an active store for each key of a key value store in memory.
--   * Storage.KvUtil (storage/kvutil/kvutil.go): a key-value store as an interface, with the stores made
--     of it by WithPrefix and WithKey, and WithMessageCodec over a value store. Storage.KvUtil.InMemory
--     is the key-value store in memory as such a base; Codecs is about messages in it.
--   * Util.Messages: messages as reflection shows them, the fields of the descriptor in order, each with a
--     value that is set or not, or with a message that is present or not. A
--     message has at most one member of a oneof; the merge, which clears the others, is told of them. Field masks, differences,
--     merges and the reactive package share it.
--   * Util.FieldMask (util/fieldmask/masks.go, diff.go): keep and discard; Presence has the masks by
--     presence and absence, Diff the differences between two messages, Leaves the paths to leaves.
--   * Util.Merge (util/merge/merge.go): merges, with lists and maps replaced or extended, and with
--     other members of oneofs cleared; Plain is about types without them.
--   * Core.Values (apis/core/v1/value.go): values of any kind as messages and back, `new_value` and
--     `to_value`, over mutual data types for lists and maps.
--   * Reactive.Values, Controller, Typed and Bind (reactive/value.go, controller.go, typed.go, bind.go):
--     a reactive value with all that its listeners got; the trie of the fields of a config and the
--     handling of watch events; listeners of typed values; binders, with the least recently used cache
--     as an interface. Controller.Fields says what the nodes
--     hold, Controller.Handling what an event leaves, Controller.Runs has the steps of a controller;
--     Controller.Stores starts one on a value store in memory.
--   * Drivers.Crds (storage/drivers/crds/value_store.go): the value store in a Kubernetes object,
--     over the API server as an interface with optimistic locking. Api has the server, Encoding the
--     history in the annotation, its truncation and the JSON of its entries, over protobuf,
--     compression, base64 and JSON as an interface, for configs that do not marshal to nothing; Watch
--     the deliveries for the events of the server's watch. Writes, Histories, Readings, Older,
--     Progress, Refusals and Spoiled say what its calls do. What the server does with an object that
--     is deleted is left to it: finalizers keep an object, so that a Get still finds it. Backend is
--     the store as one of the tracker's, and Tracked the tracker over it.
--   * Drivers.Etcd (storage/drivers/etcd/kv_store.go): the key-value store in etcd over its client as an
--     interface, with the comparisons of transactions; Paths is path.Join, Laws and Deletions say what
--     Put, Get and Delete do.
--
-- Numbers. A revision is the bit pattern of an int64 and its increment wraps; properties that need it
-- say that revisions stay below 2 ^ 63. Time is an argument of each call that reads the clock.
-- The loops are structural recursion over the ring, the keys, the listeners or the options, so no
-- fuel is needed.
--
-- Not modelled: the goroutines between a listener's buffer and the caller's channel, the end of a
-- watch of a store, channels that are full, cancellation by a context, the creation of a store in
-- Kubernetes, futures, the server of the reactive package, generated code, and command lines. The
-- tracker takes its masks and merges as operations of the config type. Messages of errors and logging
-- are left out.
pub mod Prelude
pub mod Storage
pub mod InMemory
pub mod Server
pub mod Util
pub mod Core
pub mod Reactive
pub mod Drivers
