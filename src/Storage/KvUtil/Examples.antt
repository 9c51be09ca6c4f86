-- ===== src/Storage/KvUtil/Examples.antt =====
-- Instances for storage/kvutil/kvutil.go: numbers under the prefix foo/, and numbers coded as lists.
use protoconfig.Prelude.{ℕ, ◌≡◌, refl, sym, ap, true, none, some, List, [], ◌∷◌, arith}
use protoconfig.Prelude.Int64.{inc64}
use protoconfig.Storage.Errors.{Result, ok, err, plain_error}
use protoconfig.Storage.Options.{GetOpt, PutOpt}
use protoconfig.InMemory.ValueStore
use protoconfig.InMemory.ValueStore.{ValueStore, new_value_store}
use protoconfig.InMemory.ValueStore.Refinement.{new-Refines}
use protoconfig.InMemory.ValueStore.Runs.{Call, puts, run}
use protoconfig.Server.InMemory.{value_store_of}
use protoconfig.Storage.KvUtil.{Codec, with_message_codec}
use protoconfig.Storage.KvUtil.Codecs.{codec-get_put}

abbrev unmarshal_list : List ℕ → Result ℕ
unmarshal_list (a ∷ []) = ok a
unmarshal_list _ = err plain_error

abbrev found_list : Result (List ℕ) → List ℕ
found_list (ok b) = b
found_list _ = []

abbrev codec : Codec ℕ (List ℕ)
codec = record {
  marshal = λ a. ok (a ∷ []);
  unmarshal = unmarshal_list;
  nothing = 0;
  unmarshal-marshal = λ a b h. ap (λ r. unmarshal_list (found_list r)) (sym h);
}

abbrev start : ValueStore (List ℕ)
start = new_value_store (λ b. b) []

abbrev two_puts : List (Call (List ℕ))
two_puts = puts 2 (8 ∷ []) [] ∷ puts 3 [] [] ∷ []

first_put :
    ((with_message_codec codec (value_store_of (List ℕ))).put 1 7
      (PutOpt.with_revision_out true ∷ [])
      start).0
    ≡ ok (some 1)
unfolding ValueStore.put new_value_store inc64
first_put = refl

codec-get_put_example :
    (with_message_codec codec (value_store_of (List ℕ))).get (GetOpt.with_revision 1 ∷ []) (
      run two_puts
        ((with_message_codec codec (value_store_of (List ℕ))).put 1 7
          (PutOpt.with_revision_out true ∷ [])
          start).1)
    ≡ ok (7, none)
unfolding new_value_store
codec-get_put_example =
    codec-get_put codec [] start 1 (PutOpt.with_revision_out true ∷ []) 1 two_puts 7 (omega arith)
      (omega arith) (new-Refines (λ b. b) []) (λ b. refl) first_put
