-- ===== src/InMemory/ValueStore/Runs.antt =====
-- Sequences of calls of Put and Delete of storage/inmemory/value_store.go, as the store's lock orders
-- them, and what Get returns after them.
use protoconfig.Prelude.{
  ℕ, ◌+◌, ◌^◌, ◌≤◌, ◌<◌, ◌≡◌, refl, ◌∙◌, ◌⊎◌, Option-cases, Bool-cases, inl, inr, Option, none,
  some, List, [], ◌∷◌, length, arith,
}
use protoconfig.Storage.Errors.{Error, Result, err}
use protoconfig.Storage.Options.{
  PutOpt, DeleteOpt, apply_put, no_put_options, apply_delete, no_delete_options,
}
use protoconfig.InMemory.ValueStore.{ValueStore, put, delete, put_commit, delete_commit}
use protoconfig.InMemory.ValueStore.Log.{
  Entry, Log, log_put, log_delete, put_allowed, delete_error, next_revision,
}
use protoconfig.InMemory.ValueStore.Refinement.{Refines, put-Refines, delete-Refines}

pub data Call (A : Type 0) : Type 0 where
  puts : ℕ → A → List PutOpt → Call A
  deletes : ℕ → List DeleteOpt → Call A

abbrev pub error_of : {B : Type 0} → Result B → Option Error
error_of (err e) = some e
error_of _ = none

module _ {A : Type 0} where
  -- The store after a call, whatever it returned.
  unfoldable pub step : Call A → ValueStore A → ValueStore A
  step (puts now v opts) s = (put now v opts s).1
  step (deletes now opts) s = (delete now opts s).1

  -- The error of a call, if it is refused
  unfoldable pub refusal : Call A → ValueStore A → Option Error
  refusal (puts now v opts) s = error_of (put now v opts s).0
  refusal (deletes now opts) s = error_of (delete now opts s).0

  unfoldable pub run : List (Call A) → ValueStore A → ValueStore A
  run [] s = s
  run (c ∷ cs) s = run cs (step c s)

  unfoldable pub log_step : Call A → Log A → Log A
  log_step (puts now v opts) l = (log_put now v (apply_put no_put_options opts) l).1
  log_step (deletes now opts) l = (log_delete now (apply_delete no_delete_options opts) l).1

  unfoldable pub log_run : List (Call A) → Log A → Log A
  log_run [] l = l
  log_run (c ∷ cs) l = log_run cs (log_step c l)

  -- A step adds one entry or none.
  pub log_step-cases :
      (c : Call A) (l : Log A) → (log_step c l ≡ l) ⊎ ((e : Entry A) × (log_step c l ≡ e ∷ l))
  unfolding log_step log_put log_delete
  log_step-cases (puts now v opts) l =
      elim (Bool-cases (put_allowed (apply_put no_put_options opts).revision l)) [
        | inl t ↦ inr (record { timestamp = now; value = some v }, rw (t, log_step, log_put))
        | inr t ↦ inl (rw (t, log_step, log_put))
      ]
  log_step-cases (deletes now opts) l =
      elim (Option-cases (delete_error (apply_delete no_delete_options opts).revision l)) [
        | inl t ↦ inr (record { timestamp = now; value = none }, rw (t, log_step, log_delete))
        | inr (x, t) ↦ inl (rw (t, log_step, log_delete))
      ]

  pub length-log_step-le : (c : Call A) (l : Log A) → length (log_step c l) ≤ length l + 1
  length-log_step-le c l = elim (log_step-cases c l) [
    | inl e ↦ rw e (omega arith)
    | inr (_, e) ↦ rw e (omega arith)
  ]

  le-length-log_step : (c : Call A) (l : Log A) → length l ≤ length (log_step c l)
  le-length-log_step c l = elim (log_step-cases c l) [
    | inl e ↦ rw e (omega arith)
    | inr (_, e) ↦ rw e (omega arith)
  ]

  pub length-log_run-le :
      (cs : List (Call A)) (l : Log A) → length (log_run cs l) ≤ length l + length cs
  unfolding log_run
  length-log_run-le [] l = omega arith
  length-log_run-le (c ∷ cs) l =
      omega (arith, length-log_step-le c l, length-log_run-le cs (log_step c l))

  pub le-length-log_run : (cs : List (Call A)) (l : Log A) → length l ≤ length (log_run cs l)
  unfolding log_run
  le-length-log_run [] l = omega arith
  le-length-log_run (c ∷ cs) l =
      omega (arith, le-length-log_step c l, le-length-log_run cs (log_step c l))

  pub step-Refines :
      (c : Call A) (l : Log A) (s : ValueStore A)
      → next_revision l < 2 ^ 63
      → Refines l s
      → Refines (log_step c l) (step c s)
  unfolding step log_step
  step-Refines (puts now v opts) l s fits h = (put-Refines l s now v opts fits h).1
  step-Refines (deletes now opts) l s fits h = (delete-Refines l s now opts fits h).1

  pub run-Refines :
      (cs : List (Call A)) (l : Log A) (s : ValueStore A)
      → length l + length cs < 2 ^ 63
      → Refines l s
      → Refines (log_run cs l) (run cs s)
  unfolding run log_run
  run-Refines [] l s fits h = h
  run-Refines (c ∷ cs) l s fits h =
      run-Refines cs (log_step c l) (step c s) (omega (arith, length-log_step-le c l))
        (step-Refines c l s (omega arith) h)

  pub clone_func-step : (c : Call A) (s : ValueStore A) → (step c s).clone_func ≡ s.clone_func
  unfolding step put delete put_commit delete_commit
  clone_func-step (puts now v opts) s = ground arith
  clone_func-step (deletes now opts) s = ground arith

  pub clone_func-run :
      (cs : List (Call A)) (s : ValueStore A) → (run cs s).clone_func ≡ s.clone_func
  unfolding run
  clone_func-run [] s = refl
  clone_func-run (c ∷ cs) s = clone_func-run cs (step c s) ∙ clone_func-step c s
