-- ===== src/InMemory/KeyValueStore/Unasked.antt =====
-- Get of storage/inmemory/kv_store.go finds the same with and without WithRevisionOut.
use protoconfig.Prelude.{◌≡◌, true, Option, ◌∷◌, String, arith, Option-cases, inl, inr}
use protoconfig.Prelude.Int64.{Int64}
use protoconfig.Storage.Options.{GetOpt}
use protoconfig.Storage.Reads.{revision_opts, without_revision}
use protoconfig.InMemory.ValueStore.{ValueStore}
use protoconfig.InMemory.ValueStore.Unasked.{get_unasked}
use protoconfig.InMemory.Art.{Art}
use protoconfig.InMemory.KeyValueStore.{KeyValueStore, get}

module _ {A : Type 0} (art : Art (ValueStore A)) where
  pub get_key_unasked :
      (key : String) (r : Option Int64) (m : KeyValueStore art)
      → get art key (revision_opts r) m
        ≡ without_revision (get art key (GetOpt.with_revision_out true ∷ revision_opts r) m)
  unfolding get
  get_key_unasked key r m = elim (Option-cases (art.search key m.keys)) [
    | inl q ↦ ground (arith, q)
    | inr (vs, q) ↦ ground (arith, q, get_unasked r vs)
  ]
