-- ===== src/InMemory/Ring/Laws.antt =====
-- Advancing container/ring and writing the node, as a whole.
use protoconfig.Prelude.{◌≡◌, refl, List, [], ◌∷◌, drop_last}
use protoconfig.InMemory.Ring.{Ring, cells, next, set_value}

module _ {ℓ} {A : Type ℓ} (a : A) where
  cells-set_value-next' :
      (v : A) (os : List A)
      → cells (set_value a (next (record { value = v; others = os }))) ≡ a ∷ drop_last (v ∷ os)
  cells-set_value-next' v [] = refl
  cells-set_value-next' v (o ∷ os) = refl

  -- The written node comes first, and the node that was there before, the farthest back, is gone.
  pub cells-set_value-next : (r : Ring A) → cells (set_value a (next r)) ≡ a ∷ drop_last (cells r)
  cells-set_value-next r = cells-set_value-next' r.value r.others
