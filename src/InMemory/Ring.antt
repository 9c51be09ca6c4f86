-- ===== src/InMemory/Ring.antt =====
-- Go's container/ring, as storage/inmemory uses it: a cycle of nodes seen from one of them.
pub mod Laws
use protoconfig.Prelude.{ℕ, List, [], ◌∷◌, ◌++◌, drop_last, last_or, replicate}

-- The node that the pointer shows, and the others in the order of Prev().
pub record Ring {ℓ} (A : Type ℓ) : Type ℓ where
  pub value : A
  pub others : List A

module _ {ℓ} {A : Type ℓ} where
  -- ring.New(n + 1), every value being the given one
  abbrev pub new : A → ℕ → Ring A
  new a n = record { value = a; others = replicate n a }

  -- The nodes in the order of Prev(), from the pointer on.
  abbrev pub cells : Ring A → List A
  cells r = r.value ∷ r.others

  -- r.Next()
  abbrev pub next : Ring A → Ring A
  next r = elim r.others [
    | [] ↦ r
    | o ∷ os ↦ record { value = last_or o os; others = r.value ∷ drop_last (o ∷ os) }
  ]

  -- r.Prev()
  abbrev pub prev : Ring A → Ring A
  prev r = elim r.others [ [] ↦ r | o ∷ os ↦ record { value = o; others = os ++ r.value ∷ [] } ]

  -- r.Value = a
  abbrev pub set_value : A → Ring A → Ring A
  set_value a r = record r { value = a }

  -- The nodes that `for p := r; p != r.Next(); p = p.Prev()` visits.
  abbrev pub before_next : Ring A → List A
  before_next r = drop_last (cells r)
