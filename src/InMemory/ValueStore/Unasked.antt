-- ===== src/InMemory/ValueStore/Unasked.antt =====
-- Get of storage/inmemory/value_store.go finds the same with and without WithRevisionOut.
use protoconfig.Prelude.{◌≡◌, refl, true, false, Option, none, some, ◌∷◌, arith}
use protoconfig.Prelude.Int64.{Int64}
use protoconfig.Storage.Errors.{Result, ok, err, panic, ◌>>=◌}
use protoconfig.Storage.Options.{GetOpt}
use protoconfig.Storage.Reads.{revision_opts, without_revision}
use protoconfig.InMemory.ValueStore.{ValueStore, Element, get, get_with, get_element, get_result}

module _ {A : Type 0} where
  get_result-unasked :
      (r : Option Int64) (clone : A → A) (m : Result (Option (Element A)))
      → (m >>= get_result (record { revision = r; revision_out = false }) clone)
        ≡ without_revision (m >>= get_result (record { revision = r; revision_out = true }) clone)
  unfolding get_result
  get_result-unasked r clone (ok none) = refl
  get_result-unasked r clone (ok (some e)) = ground arith
  get_result-unasked r clone (err e) = refl
  get_result-unasked r clone panic = refl

  pub get_unasked :
      (r : Option Int64) (s : ValueStore A)
      → get (revision_opts r) s
        ≡ without_revision (get (GetOpt.with_revision_out true ∷ revision_opts r) s)
  unfolding get get_with
  get_unasked none s = get_result-unasked none s.clone_func (get_element none s)
  get_unasked (some r) s = get_result-unasked (some r) s.clone_func (get_element (some r) s)
