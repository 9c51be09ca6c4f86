-- ===== src/Server/Keyed/Laws.antt =====
-- Active configs under different keys in server/config.go do not see each other.
use protoconfig.Prelude.{ℕ, ◌≡◌, ◌≢◌, ap, ◌∙◌, Option, List, [], ◌∷◌, String, inl, inr, arith}
use protoconfig.Storage.Errors.{ok}
use protoconfig.Storage.Options.{GetOpt}
use protoconfig.InMemory.ValueStore.{ValueStore}
use protoconfig.InMemory.Art.{Art}
use protoconfig.InMemory.KeyValueStore
use protoconfig.InMemory.KeyValueStore.{KeyValueStore}
use protoconfig.InMemory.KeyValueStore.Laws.{other_keys_kept}
use protoconfig.Server.Revisions.{Revision}
use protoconfig.Server.ConfigTypes.{ConfigType, StoreOf}
use protoconfig.Server.Tracker.{Stores}
use protoconfig.Server.Tracker.Laws.{OnlyPuts, apply-OnlyPuts, get_active_or_default-same}
use protoconfig.Server.BaseServer
use protoconfig.Server.BaseServer.{clear_masked_fields}
use protoconfig.Server.Keyed.{
  ContextKey, context_with_key, context_keyed, KeyedStores, with_key, all_keys, get, set,
}

module _ (C : ConfigType) (D : StoreOf C.Spec) (art : Art (ValueStore C.Spec)) where
  -- The reads of a key see what they saw if only another key was put.
  read_after_put :
      (k j : String) (now : ℕ) (st : Stores C D (context_keyed art k))
      (after : Stores C D (context_keyed art k)) (opts : List GetOpt)
      → k ≢ j
      → OnlyPuts C D (context_keyed art k) now st after
      → KeyValueStore.get art j opts after.actives ≡ KeyValueStore.get art j opts st.actives
  unfolding OnlyPuts
  read_after_put k j now st after opts other (kept, inl same) =
      ap (KeyValueStore.get art j opts) same
  read_after_put k j now st after opts other (kept, inr (v, po, put)) =
      ap (KeyValueStore.get art j opts) put
      ∙ (other_keys_kept art k j now v po [] opts [] st.actives other).0

  puts_kept :
      (k : String) (now : ℕ) (st after : Stores C D (context_keyed art k))
      → OnlyPuts C D (context_keyed art k) now st after
      → after.defaults ≡ st.defaults
  unfolding OnlyPuts
  puts_kept k now st after puts = puts.0

  -- Set under one key leaves what Get returns under another.
  pub keyed_set_isolated :
      (now : ℕ) (set_key get_key : ContextKey) (k j : String) (spec : C.Spec)
      (revision : Option Revision) (st : KeyedStores C D art)
      → context_with_key set_key ≡ ok k
      → context_with_key get_key ≡ ok j
      → k ≢ j
      → get C D art get_key revision (set C D art now set_key spec st).1
        ≡ get C D art get_key revision st
  unfolding get set BaseServer.get BaseServer.set
  keyed_set_isolated now sk gk k j spec revision st hk hj other = ground (arith, hk, hj, isolated)
    where
      before : Stores C D (context_keyed art k)
      before = with_key C D art k st

      after : Stores C D (context_keyed art k)
      after = (BaseServer.set C D (context_keyed art k) now spec before).1

      puts : OnlyPuts C D (context_keyed art k) now before after
      puts = apply-OnlyPuts C D (context_keyed art k) now (clear_masked_fields C spec) before

      isolated :
          BaseServer.get C D
            (context_keyed art j)
            revision
            (with_key C D art j (all_keys C D art k after))
          ≡ BaseServer.get C D (context_keyed art j) revision (with_key C D art j st)
      isolated =
          get_active_or_default-same C D (context_keyed art j) (revision ∷ [])
            (with_key C D art j st) (with_key C D art j (all_keys C D art k after))
            (puts_kept k now before after puts)
            (λ opts. read_after_put k j now before after opts other puts)
