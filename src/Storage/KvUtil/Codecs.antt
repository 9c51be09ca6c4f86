-- ===== src/Storage/KvUtil/Codecs.antt =====
-- storage/kvutil/kvutil.go: a store of messages over one of bytes.
use protoconfig.Prelude.{
  ℕ, ◌+◌, ◌<◌, ◌^◌, ◌≡◌, refl, ap, ◌∙◌, none, some, List, [], ◌∷◌, length, arith,
}
use protoconfig.Prelude.Int64.{Int64}
use protoconfig.Storage.Errors.{Error, Result, ok, err, panic, ◌>>=◌}
use protoconfig.Storage.Options.{GetOpt, PutOpt}
use protoconfig.Server.ConfigTypes.{StoreOf, KeepsRefused}
use protoconfig.Server.InMemory.{value_store_of}
use protoconfig.InMemory.ValueStore
use protoconfig.InMemory.ValueStore.{ValueStore}
use protoconfig.InMemory.ValueStore.Log.{Log, capacity}
use protoconfig.InMemory.ValueStore.Refinement.{Refines}
use protoconfig.InMemory.ValueStore.Runs.{Call, puts, step, run, clone_func-step}
use protoconfig.InMemory.ValueStore.Guarantees.{get-put_retained}
use protoconfig.Storage.KvUtil.{Codec, decode_found, put_encoded, with_message_codec}

module _ {A B : Type 0} (codec : Codec A B) where
  -- A call that is refused, also because the message cannot be marshalled, leaves the store as it was, if
  -- the base is so.
  pub codec_keeps : (S : StoreOf B) → KeepsRefused S → KeepsRefused (with_message_codec codec S)
  codec_keeps S keeps = record {
    put_refused = λ now a opts s e. put_encoded_refused now (codec.marshal a) opts s e;
    delete_refused = keeps.delete_refused;
  }
    where
      put_encoded_refused :
          (now : ℕ) (m : Result B) (opts : List PutOpt) (s : S.State) (e : Error)
          → (put_encoded codec S now m opts s).0 ≡ err e
          → (put_encoded codec S now m opts s).1 ≡ s
      put_encoded_refused now (ok b) opts s e h = keeps.put_refused now b opts s e h
      put_encoded_refused now (err x) opts s e h = refl
      put_encoded_refused now panic opts s e h = refl

  module _ (l : Log B) (s : ValueStore B) (now : ℕ) (opts : List PutOpt) (r : Int64)
      (cs : List (Call B)) where
    -- Of a message that is marshalled, what was put is read back.
    put_encoded-get :
        (v : A) (m : Result B)
        → codec.marshal v ≡ m
        → length l + length cs + 1 < 2 ^ 63
        → length cs < capacity
        → Refines l s
        → ((b : B) → s.clone_func b ≡ b)
        → (put_encoded codec (value_store_of B) now m opts s).0 ≡ ok (some r)
        → decode_found codec (
            ValueStore.get
              (GetOpt.with_revision r ∷ [])
              (run cs (put_encoded codec (value_store_of B) now m opts s).1))
          ≡ ok (v, none)
    unfolding step
    put_encoded-get v (ok b) enc fits few held same done =
        ap (decode_found codec) (
          get-put_retained l s now b opts r cs fits few held done
          ∙ ap (λ f. ok (f b, none)) (clone_func-step (puts now b opts) s)
          ∙ ap (λ x. ok (x, none)) (same b))
        ∙ ap (λ m. m >>= λ a. ok (a, none)) (codec.unmarshal-marshal v b enc)
    put_encoded-get v (err e) enc fits few held same done = absurd (ground (arith, done))
    put_encoded-get v panic enc fits few held same done = absurd (ground (arith, done))

    -- A message that was put through the codec into a value store in memory, at revision r, is read back
    -- through the codec at r, whatever fewer than 64 further calls have done, where cloning keeps bytes.
    pub codec-get_put :
        (v : A)
        → length l + length cs + 1 < 2 ^ 63
        → length cs < capacity
        → Refines l s
        → ((b : B) → s.clone_func b ≡ b)
        → ((with_message_codec codec (value_store_of B)).put now v opts s).0 ≡ ok (some r)
        → (with_message_codec codec (value_store_of B)).get
            (GetOpt.with_revision r ∷ [])
            (run cs ((with_message_codec codec (value_store_of B)).put now v opts s).1)
          ≡ ok (v, none)
    codec-get_put v = put_encoded-get v (codec.marshal v) refl
