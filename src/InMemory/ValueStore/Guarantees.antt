-- ===== src/InMemory/ValueStore/Guarantees.antt =====
-- What callers of storage/inmemory/value_store.go rely on, over any history of calls.
use protoconfig.Prelude.{
  ℕ, zero, suc, ◌+◌, ◌-◌, ◌^◌, ◌≤◌, ◌<◌, ◌≡◌, ◌≢◌, refl, ap, ◌∙◌, ◌⊎◌, Bool-cases, inl, inr, true,
  false, Option, none, some, List, [], ◌∷◌, length, arith,
}
use protoconfig.Prelude.Int64.{Int64}
use protoconfig.Storage.Errors.{Error, ok, err, ◌>>=◌, err_not_found, err_conflict}
use protoconfig.Storage.Options.{
  PutOptions, GetOpt, PutOpt, DeleteOpt, apply_get, no_get_options, apply_put, no_put_options,
}
use protoconfig.InMemory.ValueStore.{ValueStore, new_value_store, get, put, delete, revision_out}
use protoconfig.InMemory.ValueStore.Log.{
  Entry, Log, capacity, entry_within, value_of, read, log_get, log_put, put_allowed, next_revision,
}
use protoconfig.InMemory.ValueStore.Refinement.{Refines, new-Refines, put-Refines}
use protoconfig.InMemory.ValueStore.Reads.{IsNonnegative, get-eq-log_get}
use protoconfig.InMemory.ValueStore.Runs.{
  Call, puts, deletes, step, refusal, error_of, run, log_run, log_step, run-Refines, clone_func-run,
  log_step-cases, length-log_run-le, le-length-log_run,
}

module _ {A : Type 0} where
  -- On a new store, after any calls of Put and Delete (fewer than 2 ^ 63), Get returns what the log of
  -- those calls gives: the clone of the value written with the requested revision (not negative), or
  -- the latest, with its revision if asked for; or the error of the log.
  pub get-run :
      (clone : A → A) (z : A) (cs : List (Call A)) (opts : List GetOpt)
      → length cs < 2 ^ 63
      → IsNonnegative (apply_get no_get_options opts).revision
      → get opts (run cs (new_value_store clone z))
        ≡ log_get (apply_get no_get_options opts) clone (log_run cs [])
  unfolding new_value_store
  get-run clone z cs opts few asked =
      get-eq-log_get (log_run cs []) (run cs s) opts (omega (arith, length-log_run-le cs start))
        asked (run-Refines cs start s (omega arith) (new-Refines clone z))
      ∙ ap (λ f. log_get (apply_get no_get_options opts) f (log_run cs [])) (clone_func-run cs s)
    where
      s : ValueStore A
      s = new_value_store clone z

      start : Log A
      start = []

  -- An entry stays readable while fewer than `capacity` entries are newer.
  pub entry_within_mono :
      (n : ℕ) (l : Log A) (r : Int64) (e : Entry A)
      → entry_within n l r ≡ some e
      → entry_within (suc n) l r ≡ some e
  unfolding entry_within
  entry_within_mono zero l r e h = cc
  entry_within_mono (suc n) [] r e h = cc
  entry_within_mono (suc n) (x ∷ l) r e h = ground (arith, entry_within_mono n l r e)

  entry_within-push :
      (n : ℕ) (l : Log A) (r : Int64) (x : Entry A)
      → r ≤ length l
      → entry_within (suc n) (x ∷ l) r ≡ entry_within n l r
  unfolding entry_within
  entry_within-push n l r x h = ground arith

  entry_within-step :
      (c : Call A) (n : ℕ) (l : Log A) (r : Int64) (e : Entry A)
      → r ≤ length l
      → entry_within n l r ≡ some e
      → entry_within (suc n) (log_step c l) r ≡ some e
  entry_within-step c n l r e old h = elim (log_step-cases c l) [
    | inl same ↦ rw same (entry_within_mono n l r e h)
    | inr (x, more) ↦ rw more (entry_within-push n l r x old ∙ h)
  ]

  entry_within-run :
      (cs : List (Call A)) (n m : ℕ) (l : Log A) (r : Int64) (e : Entry A)
      → n + length cs ≡ m
      → r ≤ length l
      → entry_within n l r ≡ some e
      → entry_within m (log_run cs l) r ≡ some e
  unfolding log_run
  entry_within-run [] n m l r e q old h = let q' : n ≡ m = omega arith in rw (← q') h
  entry_within-run (c ∷ cs) n m l r e q old h =
      entry_within-run cs (suc n) m (log_step c l) r e (omega arith)
        (omega (arith, le-length-log_run (c ∷ []) l)) (entry_within-step c n l r e old h)

  pub entry_within-head :
      (n : ℕ) (e : Entry A) (l : Log A) → 0 < n → entry_within n (e ∷ l) (length l + 1) ≡ some e
  unfolding entry_within
  entry_within-head zero e l h = absurd (omega arith)
  entry_within-head (suc n) e l h = ground arith

  pub entry_within_old :
      (n : ℕ) (l : Log A) (r : Int64) → r + n ≤ length l → entry_within n l r ≡ none
  unfolding entry_within
  entry_within_old zero l r h = refl
  entry_within_old (suc n) [] r h = refl
  entry_within_old (suc n) (e ∷ l) r h = ground (arith, entry_within_old n l r)

  -- A read at a revision, from the entry there.
  pub log_get-entry :
      (clone : A → A) (l : Log A) (r : Int64) (e : Option (Entry A))
      → r ≤ length l
      → entry_within capacity l r ≡ e
      → log_get (record { revision = some r; revision_out = false }) clone l
        ≡ (value_of e >>= λ v. ok (clone v, none))
  unfolding read
  log_get-entry clone l r e h q = ground (arith, q)

  -- The log's entry for a successful put.
  abbrev pub put_entry : ℕ → A → Entry A
  put_entry now v = record { timestamp = now; value = some v }

  pub log_put-allowed :
      (l : Log A) (now : ℕ) (v : A) (o : PutOptions)
      → put_allowed o.revision l ≡ true
      → log_put now v o l
        ≡ (ok (revision_out o.revision_out (next_revision l)), put_entry now v ∷ l)
  unfolding log_put
  log_put-allowed l now v o t = rw t

  pub log_put-refused :
      (l : Log A) (now : ℕ) (v : A) (o : PutOptions)
      → put_allowed o.revision l ≡ false
      → log_put now v o l ≡ (err err_conflict, l)
  unfolding log_put
  log_put-refused l now v o t = rw t

  -- A put that succeeds was allowed, and its revision is the next one.
  put-ok :
      (l : Log A) (s : ValueStore A) (now : ℕ) (v : A) (opts : List PutOpt) (out : Option Int64)
      → next_revision l < 2 ^ 63
      → Refines l s
      → (put now v opts s).0 ≡ ok out
      → (out ≡ revision_out (apply_put no_put_options opts).revision_out (next_revision l))
        × (put_allowed (apply_put no_put_options opts).revision l ≡ true)
        × Refines (put_entry now v ∷ l) (put now v opts s).1
  put-ok l s now v opts out fits h e = go (Bool-cases (put_allowed o.revision l))
    where
      o : PutOptions
      o = apply_put no_put_options opts

      go :
          ((put_allowed o.revision l ≡ true) ⊎ (put_allowed o.revision l ≡ false))
          → (out ≡ revision_out o.revision_out (next_revision l))
            × (put_allowed o.revision l ≡ true)
            × Refines (put_entry now v ∷ l) (put now v opts s).1
      go (inl t) =
          let p = rw (log_put-allowed l now v o t) at (put-Refines l s now v opts fits h) in
          (ground (arith, e, p.0), t, p.1)
      go (inr t) =
          let p = rw (log_put-refused l now v o t) at (put-Refines l s now v opts fits h) in
          absurd (cc (e, p.0))

  -- A put that succeeded and gave back revision r is read at r as the clone of its value after any
  -- further calls, fewer than 64.
  pub get-put_retained :
      (l : Log A) (s : ValueStore A) (now : ℕ) (v : A) (opts : List PutOpt) (r : Int64)
      (cs : List (Call A))
      → length l + length cs + 1 < 2 ^ 63
      → length cs < capacity
      → Refines l s
      → (put now v opts s).0 ≡ ok (some r)
      → get (GetOpt.with_revision r ∷ []) (run cs (put now v opts s).1)
        ≡ ok ((put now v opts s).1.clone_func v, none)
  get-put_retained l s now v opts r cs fits few h e =
      get-eq-log_get (log_run cs (put_entry now v ∷ l)) (run cs s') (GetOpt.with_revision r ∷ [])
        (omega (arith, length-log_run-le cs (put_entry now v ∷ l))) (omega (arith, latest)) held
      ∙ log_get-entry (run cs s').clone_func (log_run cs (put_entry now v ∷ l)) r
          (some (put_entry now v))
          (omega (arith, latest, le-length-log_run cs (put_entry now v ∷ l))) found
      ∙ ap (λ f. ok (f v, none)) (clone_func-run cs s')
    where
      s' : ValueStore A
      s' = (put now v opts s).1

      done :
          (some r ≡ revision_out (apply_put no_put_options opts).revision_out (next_revision l))
          × (put_allowed (apply_put no_put_options opts).revision l ≡ true)
          × Refines (put_entry now v ∷ l) s'
      done = put-ok l s now v opts (some r) (omega arith) h e

      latest : r ≡ length l + 1
      latest = ground (arith, done.0)

      held : Refines (log_run cs (put_entry now v ∷ l)) (run cs s')
      held = run-Refines cs (put_entry now v ∷ l) s' (omega arith) done.2

      found : entry_within capacity (log_run cs (put_entry now v ∷ l)) r ≡ some (put_entry now v)
      found =
          entry_within-run cs (capacity - length cs) capacity (put_entry now v ∷ l) r
            (put_entry now v) (omega arith) (omega (arith, latest))
            (rw latest (entry_within-head (capacity - length cs) (put_entry now v) l (omega arith)))

  -- Once 64 or more writes are newer than a revision, Get at that revision is not found.
  get_evicted :
      (l : Log A) (s : ValueStore A) (r : Int64)
      → length l < 2 ^ 63
      → Refines l s
      → r + capacity ≤ length l
      → get (GetOpt.with_revision r ∷ []) s ≡ err err_not_found
  get_evicted l s r fits h old =
      get-eq-log_get l s (GetOpt.with_revision r ∷ []) fits (omega arith) h
      ∙ log_get-entry s.clone_func l r none (omega arith) (entry_within_old capacity l r old)

  put_allowed_stale :
      (l : Log A) (cs : List (Call A)) (now : ℕ) (v : A) (r : Int64) (a b : Option Int64)
      → r ≢ 0
      → a ≡ some r
      → b ≡ some r
      → put_allowed a l ≡ true
      → put_allowed b (log_run cs (put_entry now v ∷ l)) ≡ false
  put_allowed_stale l cs now v r a b nz qa qb t =
      ground (arith, le-length-log_run cs (put_entry now v ∷ l))

  -- Optimistic locking: after a put that named a nonzero revision succeeded, and any further calls,
  -- every put that names the same revision is refused with a conflict.
  pub put_once :
      (l : Log A) (s : ValueStore A) (now later : ℕ) (v w : A) (opts opts' : List PutOpt)
      (r : Int64) (out : Option Int64) (cs : List (Call A))
      → length l + length cs + 2 < 2 ^ 63
      → Refines l s
      → r ≢ 0
      → (apply_put no_put_options opts).revision ≡ some r
      → (apply_put no_put_options opts').revision ≡ some r
      → (put now v opts s).0 ≡ ok out
      → (put later w opts' (run cs (put now v opts s).1)).0 ≡ err err_conflict
  put_once l s now later v w opts opts' r out cs fits h nz a b e =
      let done = put-ok l s now v opts out (omega arith) h e in
      let l' = log_run cs (put_entry now v ∷ l) in
      let s' = run cs (put now v opts s).1 in
      let held : Refines l' s' =
        run-Refines cs (put_entry now v ∷ l) (put now v opts s).1 (omega arith) done.2 in
      let stale : put_allowed (apply_put no_put_options opts').revision l' ≡ false =
        put_allowed_stale l cs now v r _ _ nz a b done.1 in
      rw (log_put-refused l' later w (apply_put no_put_options opts') stale) at (
        (put-Refines l' s' later w opts' (omega (arith, length-log_run-le cs (put_entry now v ∷ l)))
          held).0)

  put_failed :
      (s : ValueStore A) (now : ℕ) (v : A) (opts : List PutOpt) (e : Error)
      → error_of (put now v opts s).0 ≡ some e
      → (put now v opts s).1 ≡ s
  unfolding put
  put_failed s now v opts e h = ground arith

  delete_failed :
      (s : ValueStore A) (now : ℕ) (opts : List DeleteOpt) (e : Error)
      → error_of (delete now opts s).0 ≡ some e
      → (delete now opts s).1 ≡ s
  unfolding delete
  delete_failed s now opts e h = ground arith

  -- A call of Put or Delete that returns an error leaves the store, its listeners included, as it was.
  pub refused_call_keeps :
      (c : Call A) (s : ValueStore A) (e : Error) → refusal c s ≡ some e → step c s ≡ s
  unfolding refusal step
  refused_call_keeps (puts now v opts) s e h = put_failed s now v opts e h
  refused_call_keeps (deletes now opts) s e h = delete_failed s now opts e h
