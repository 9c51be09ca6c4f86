-- ===== src/InMemory/ValueStore/Log.antt =====
-- What storage/inmemory/value_store.go promises: the store is a log of writes, the newest first, and
-- the revision of a write is its place in the log, counted from 1. Only the newest 64 are readable.
use protoconfig.Prelude.{
  ℕ, zero, suc, ◌+◌, ◌≡◌, refl, ap, Bool, true, false, Option, none, some, List, [], ◌∷◌, ◌==◌, ltb,
  if◌then◌else◌, length, drop_last, not,
}
use protoconfig.Prelude.Int64.{Int64}
use protoconfig.Storage.Errors.{
  Error, Result, ok, err, ◌>>=◌, err_not_found, err_conflict, status_error, out_of_range,
}
use protoconfig.Storage.Options.{GetOptions, PutOptions, DeleteOptions}
use protoconfig.InMemory.ValueStore.{Element, revision_out}

-- A write: a value that was put, or a deletion.
pub record Entry {ℓ} (A : Type ℓ) : Type ℓ where
  pub timestamp : ℕ
  pub value : Option A

abbrev pub Log {ℓ} : Type ℓ → Type ℓ
Log A = List (Entry A)

-- The readable part of the log, in revisions.
abbrev pub capacity : ℕ
capacity = 64

module _ {ℓ} {A : Type ℓ} where
  -- Whether there is no value now.
  abbrev pub absent : Log A → Bool
  absent [] = true
  absent (e ∷ l) = elim e.value [ none ↦ true | some v ↦ false ]

  -- The revision that the write after the log gets.
  abbrev pub next_revision : Log A → Int64
  next_revision l = length l + 1

  -- Optimistic locking: revision 0 asks for no value, another one for the latest write.
  abbrev pub put_allowed : Option Int64 → Log A → Bool
  put_allowed none l = true
  put_allowed (some r) l = if r == 0 then absent l else r == length l

  -- Why a deletion is refused, if it is.
  unfoldable pub delete_error : Option Int64 → Log A → Option Error
  delete_error requested [] = some err_not_found
  delete_error requested (e ∷ l) =
      if (elim requested [ none ↦ false | some r ↦ not (r == length (e ∷ l)) ])
      then some err_conflict
      else if absent (e ∷ l)
      then some err_not_found
      else none

  -- The entry with a revision, among the newest n.
  unfoldable pub entry_within : ℕ → Log A → Int64 → Option (Entry A)
  entry_within zero l r = none
  entry_within (suc n) [] r = none
  entry_within (suc n) (e ∷ l) r = if r == length l + 1 then some e else entry_within n l r

  -- Put and Delete on the log.
  unfoldable pub log_put : ℕ → A → PutOptions → Log A → Result (Option Int64) × Log A
  log_put now v o l =
      if put_allowed o.revision l
      then (
        ok (revision_out o.revision_out (next_revision l)),
        record { timestamp = now; value = some v } ∷ l,
      )
      else (err err_conflict, l)

  unfoldable pub log_delete : ℕ → DeleteOptions → Log A → Result (Unit {0}) × Log A
  log_delete now o l = elim (delete_error o.revision l) [
    | none ↦ (ok tt, record { timestamp = now; value = none } ∷ l)
    | some e ↦ (err e, l)
  ]

  -- The revision that a read is about: the requested one, or the latest.
  abbrev pub target : Option Int64 → Log A → Int64
  target none l = length l
  target (some r) l = r

  -- A read gives the value that was put with the revision, if it is readable.
  abbrev pub value_of : Option (Entry A) → Result A
  value_of none = err err_not_found
  value_of (some e) = elim e.value [ none ↦ err err_not_found | some v ↦ ok v ]

  unfoldable pub read : Option Int64 → Log A → Result A
  read requested l =
      if ltb (length l) (target requested l)
      then err (status_error out_of_range)
      else value_of (entry_within capacity l (target requested l))

  -- Get on the log: the value cloned, with its revision if the caller asks for it.
  abbrev pub log_get : GetOptions → (A → A) → Log A → Result (A × Option Int64)
  log_get o clone l =
      read o.revision l >>= λ v. ok (clone v, revision_out o.revision_out (target o.revision l))

  -- The log as the ring holds it: n nodes, the newest first.
  abbrev pub element : A → Entry A → Int64 → Element A
  element z e r = elim e.value [
    | none ↦ record { revision = r; timestamp = e.timestamp; value = z; deleted = true }
    | some v ↦ record { revision = r; timestamp = e.timestamp; value = v; deleted = false }
  ]

  unfoldable pub window : A → ℕ → Log A → List (Option (Element A))
  window z zero l = []
  window z (suc n) [] = none ∷ window z n []
  window z (suc n) (e ∷ l) = some (element z e (length l + 1)) ∷ window z n l

  pub drop_last-window : (z : A) (n : ℕ) (l : Log A) → drop_last (window z (suc n) l) ≡ window z n l
  unfolding window
  drop_last-window z zero [] = refl
  drop_last-window z zero (e ∷ l) = refl
  drop_last-window z (suc n) [] = ap (◌∷◌ none) (drop_last-window z n [])
  drop_last-window z (suc n) (e ∷ []) =
      ap (◌∷◌ (some (element z e (length {A = Entry A} [] + 1)))) (drop_last-window z n [])
  drop_last-window z (suc n) (e ∷ f ∷ l) =
      ap (◌∷◌ (some (element z e (length (f ∷ l) + 1)))) (drop_last-window z n (f ∷ l))
