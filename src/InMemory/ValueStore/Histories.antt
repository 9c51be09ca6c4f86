-- ===== src/InMemory/ValueStore/Histories.antt =====
-- History of storage/inmemory/value_store.go against the log.
use native.Mathlib.Nat.{sub-zero}
use protoconfig.Prelude.{
  ℕ, zero, suc, ◌+◌, ◌-◌, ◌^◌, ◌≤◌, ◌<◌, ◌≡◌, refl, ap, ◌∙◌, Bool, false, Option, none, some, List,
  [], ◌∷◌, if◌then◌else◌, length, drop, get_elem?, reverse, drop_last, arith,
}
use protoconfig.Prelude.Int64.{Int64}
use protoconfig.Storage.Errors.{Result, ok, err, err_not_found}
use protoconfig.Storage.Options.{
  HistoryOptions, HistoryOpt, GetOpt, apply_history, no_history_options,
}
use protoconfig.Storage.Stores.{KeyRevision}
use protoconfig.InMemory.Ring.{before_next}
use protoconfig.InMemory.ValueStore.{
  ValueStore, Element, seek, collect, history_start, history_from, history_with, history, get,
  deleted_node,
}
use protoconfig.InMemory.ValueStore.Log.{
  Entry, Log, capacity, entry_within, value_of, target, window, drop_last-window,
}
use protoconfig.InMemory.ValueStore.Refinement.{Refines}
use protoconfig.InMemory.ValueStore.Guarantees.{entry_within_mono, entry_within_old, log_get-entry}
use protoconfig.InMemory.ValueStore.Reads.{entry_within_above, get-eq-log_get}

-- The nodes that the walks of History reach.
abbrev pub walked : ℕ
walked = 63

module _ {A : Type 0} where
  -- The revisions since the last deletion among the newest n entries, the newest first.
  unfoldable pub revisions : Bool → (A → A) → A → ℕ → Log A → List (KeyRevision A)
  revisions include clone z zero l = []
  revisions include clone z (suc n) [] = []
  revisions include clone z (suc n) (e ∷ l) =
      let rest = revisions include clone z n l in
      elim e.value [
        | none ↦ []
        | some v ↦
            record {
              key = "";
              value = if include then clone v else z;
              revision = length l + 1;
              timestamp = e.timestamp;
            }
            ∷ rest
      ]

  -- The log as it was when the revision was written.
  abbrev pub log_at : Int64 → Log A → Log A
  log_at r l = drop (length l - r) l

  collect-window :
      (include : Bool) (clone : A → A) (z : A) (n : ℕ) (l : Log A)
      → collect include clone z (window z n l) ≡ revisions include clone z n l
  unfolding collect window revisions
  collect-window include clone z zero l = refl
  collect-window include clone z (suc n) [] = refl
  collect-window include clone z (suc n) (e ∷ l) =
      ground (arith, collect-window include clone z n l)

  pub entry_within-le :
      (n : ℕ) (l : Log A) (r : Int64) (e : Entry A) → entry_within n l r ≡ some e → r ≤ length l
  unfolding entry_within
  entry_within-le zero l r e h = cc
  entry_within-le (suc n) [] r e h = cc
  entry_within-le (suc n) (x ∷ l) r e h = ground (arith, entry_within-le n l r e)

  pub entry_within-lt :
      (n : ℕ) (l : Log A) (r : Int64) (e : Entry A) → entry_within n l r ≡ some e → length l < r + n
  unfolding entry_within
  entry_within-lt zero l r e h = cc
  entry_within-lt (suc n) [] r e h = cc
  entry_within-lt (suc n) (x ∷ l) r e h = ground (arith, entry_within-lt n l r e)

  -- The walk stops at the requested revision if its value is there,
  pub seek-window :
      (z : A) (n : ℕ) (l : Log A) (r : Int64) (e : Entry A) (v : A) (k : ℕ)
      → entry_within n l r ≡ some e
      → e.value ≡ some v
      → seek r (window z n l) k ≡ ok (k + (length l - r))
  unfolding entry_within window seek
  seek-window z zero l r e v k h q = cc
  seek-window z (suc n) [] r e v k h q = cc
  seek-window z (suc n) (x ∷ l) r e v k h q =
      ground (arith, seek-window z n l r e v (k + 1), entry_within-le n l r e)

  -- fails at an unused node,
  seek-window_short :
      (z : A) (n : ℕ) (l : Log A) (r : Int64) (k : ℕ)
      → value_of (entry_within n l r) ≡ err err_not_found
      → length l < n
      → seek r (window z n l) k ≡ err err_not_found
  unfolding entry_within window seek
  seek-window_short z zero l r k h q = absurd (omega arith)
  seek-window_short z (suc n) [] r k h q = refl
  seek-window_short z (suc n) (x ∷ l) r k h q =
      ground (arith, seek-window_short z n l r (k + 1), entry_within_above n l r)

  -- and runs past the nodes if all are used.
  seek-window_full :
      (z : A) (n : ℕ) (l : Log A) (r : Int64) (k : ℕ)
      → value_of (entry_within n l r) ≡ err err_not_found
      → n ≤ length l
      → seek r (window z n l) k ≡ ok (k + n)
  unfolding entry_within window seek
  seek-window_full z zero l r k h q = ground arith
  seek-window_full z (suc n) [] r k h q = absurd (omega arith)
  seek-window_full z (suc n) (x ∷ l) r k h q =
      ground (arith, seek-window_full z n l r (k + 1), entry_within_above n l r)

  drop-window :
      (z : A) (n j : ℕ) (l : Log A)
      → j ≤ n
      → j ≤ length l
      → drop j (window z n l) ≡ window z (n - j) (drop j l)
  unfolding window
  drop-window z n zero l h q = rw sub-zero refl
  drop-window z zero (suc j) l h q = absurd (omega arith)
  drop-window z (suc n) (suc j) [] h q = absurd (omega arith)
  drop-window z (suc n) (suc j) (e ∷ l) h q =
      drop-window z n j l (omega arith) (omega arith)
      ∙ ap (λ m. window z m (drop j l)) (let e : n - j ≡ suc n - suc j = omega arith in e)

  -- The node of a value that is still in the ring is not a deletion.
  node-window :
      (z : A) (n j : ℕ) (l : Log A) (r : Int64) (e : Entry A) (v : A)
      → j + r ≡ length l
      → entry_within n l r ≡ some e
      → e.value ≡ some v
      → deleted_node (get_elem? (window z n l) j) ≡ false
  unfolding entry_within window
  node-window z zero j l r e v at h q = cc
  node-window z (suc n) j [] r e v at h q = cc
  node-window z (suc n) zero (x ∷ l) r e v at h q = ground arith
  node-window z (suc n) (suc j) (x ∷ l) r e v at h q =
      node-window z n j l r e v (omega arith) (ground arith) q

  pub entry_within-pos :
      (n : ℕ) (l : Log A) (r : Int64) (e : Entry A) → entry_within n l r ≡ some e → 0 < r
  unfolding entry_within
  entry_within-pos zero l r e h = cc
  entry_within-pos (suc n) [] r e h = cc
  entry_within-pos (suc n) (x ∷ l) r e h = ground (arith, entry_within-pos n l r e)

  pub walk :
      (l : Log A) (s : ValueStore A)
      → Refines l s
      → before_next s.values ≡ window s.zero_value walked l
  walk l s held = ap drop_last held.nodes ∙ drop_last-window s.zero_value walked l

  -- History from the node of a value.
  module _ (l : Log A) (s : ValueStore A) (o : HistoryOptions) (held : Refines l s) where
    history_start-at :
        (e : Entry A) (v : A)
        → entry_within walked l (target o.revision l) ≡ some e
        → e.value ≡ some v
        → history_start o.revision s ≡ ok (length l - target o.revision l)
    unfolding history_start
    history_start-at e v h q = go o.revision h
      where
        go :
            (r : Option Int64)
            → entry_within walked l (target r l) ≡ some e
            → history_start r s ≡ ok (length l - target r l)
        go none h = ap ok (omega arith)
        go (some r) h =
            ap (λ ns. seek r ns 0) (walk l s held)
            ∙ seek-window s.zero_value walked l r e v 0 h q
            ∙ ap ok (omega arith)

    history_from-at :
        (j : ℕ)
        → j ≤ walked
        → j ≤ length l
        → deleted_node (get_elem? (window s.zero_value capacity l) j) ≡ false
        → history_from o j s
          ≡ ok (
              reverse
                (revisions o.include_values s.clone_func s.zero_value (walked - j) (drop j l)))
    unfolding history_from
    history_from-at j a b live =
        ap (λ ns. outcome ns (before_next s.values)) held.nodes
        ∙ ap (λ ns. outcome (window s.zero_value capacity l) ns) (walk l s held)
        ∙ rw live (
            ap (λ t. ok (reverse t))
              (ap (collect o.include_values s.clone_func s.zero_value)
                  (drop-window s.zero_value walked j l a b)
                ∙ collect-window o.include_values s.clone_func s.zero_value (walked - j)
                    (drop j l)))
      where
        outcome :
            List (Option (Element A)) → List (Option (Element A)) → Result (List (KeyRevision A))
        outcome cs ns =
            if deleted_node (get_elem? cs j)
            then err err_not_found
            else ok (reverse (collect o.include_values s.clone_func s.zero_value (drop j ns)))

    history_with-start :
        (j : ℕ)
        → 0 < length l
        → history_start o.revision s ≡ ok j
        → history_with o s ≡ history_from o j s
    unfolding history_with
    history_with-start j some_writes h = ground (arith, held.revision, h)

    -- History from a revision whose value is still reached.
    history_with-at :
        (e : Entry A) (v : A)
        → entry_within walked l (target o.revision l) ≡ some e
        → e.value ≡ some v
        → history_with o s
          ≡ ok (
              reverse (
                revisions o.include_values s.clone_func s.zero_value
                  (walked - (length l - target o.revision l))
                  (log_at (target o.revision l) l)))
    history_with-at e v h q =
        let r = target o.revision l in
        let j = length l - r in
        let low : r ≤ length l = entry_within-le walked l r e h in
        let high : length l < r + walked = entry_within-lt walked l r e h in
        let positive : 0 < r = entry_within-pos walked l r e h in
        history_with-start j (omega arith) (history_start-at e v h q)
        ∙ history_from-at j (omega arith) (omega arith) (
            node-window s.zero_value capacity j l r e v (omega arith)
              (entry_within_mono walked l r e h) q)

  -- If the requested revision of History (the latest one, if none is requested) is that of a put among
  -- the newest 63 writes, the history is the run of puts that ends there, oldest first, back to the
  -- latest deletion or the oldest of the 63 writes.
  pub history-at :
      (l : Log A) (s : ValueStore A) (opts : List HistoryOpt) (e : Entry A) (v : A)
      → Refines l s
      → let o = apply_history no_history_options opts in
        entry_within walked l (target o.revision l) ≡ some e
        → e.value ≡ some v
        → history opts s
          ≡ ok (
              reverse (
                revisions o.include_values s.clone_func s.zero_value
                  (walked - (length l - target o.revision l))
                  (log_at (target o.revision l) l)))
  unfolding history
  history-at l s opts e v held h q =
      history_with-at l s (apply_history no_history_options opts) held e v h q

  -- While fewer than 63 writes were made, History at a revision with no readable value is not found.
  history_short :
      (l : Log A) (s : ValueStore A) (opts : List HistoryOpt) (r : Int64)
      → Refines l s
      → (apply_history no_history_options opts).revision ≡ some r
      → value_of (entry_within walked l r) ≡ err err_not_found
      → length l < walked
      → history opts s ≡ err err_not_found
  unfolding history history_with history_start
  history_short l s opts r held at missing short =
      let w = walk l s held in
      let k : seek r (before_next s.values) 0 ≡ err err_not_found =
        ap (λ ns. seek r ns 0) w ∙ seek-window_short s.zero_value walked l r 0 missing short in
      ground (arith, at, k)

  history_overrun :
      (l : Log A) (s : ValueStore A) (o : HistoryOptions) (r : Int64) (e : Entry A) (v : A)
      → Refines l s
      → o.revision ≡ some r
      → value_of (entry_within walked l r) ≡ err err_not_found
      → walked < length l
      → entry_within capacity l (length l - walked) ≡ some e
      → e.value ≡ some v
      → history_with o s ≡ ok []
  unfolding revisions history_start
  history_overrun l s o r e v held at missing full oldest live =
      history_with-start l s o held walked (omega arith) (start o.revision at)
      ∙ history_from-at l s o held walked (omega arith) (omega arith) (
          node-window s.zero_value capacity walked l (length l - walked) e v (omega arith) oldest
            live)
    where
      start : (a : Option Int64) → a ≡ some r → history_start a s ≡ ok walked
      start a q =
          ap (λ b. history_start b s) q
          ∙ ap (λ ns. seek r ns 0) (walk l s held)
          ∙ seek-window_full s.zero_value walked l r 0 missing (omega arith)

  -- When more than 63 writes were made and the 64th newest was a put, Get reads it at its revision, but
  -- History at that revision returns an empty list and no error.
  pub history_omits_oldest :
      (l : Log A) (s : ValueStore A) (e : Entry A) (v : A)
      → length l < 2 ^ 63
      → Refines l s
      → walked < length l
      → entry_within capacity l (length l - walked) ≡ some e
      → e.value ≡ some v
      → (get (GetOpt.with_revision (length l - walked) ∷ []) s ≡ ok (s.clone_func v, none))
        × (history (HistoryOpt.with_revision (length l - walked) ∷ []) s ≡ ok [])
  unfolding history
  history_omits_oldest l s e v fits held full oldest live = (
    get-eq-log_get l s (GetOpt.with_revision (length l - walked) ∷ []) fits (omega arith) held
        ∙ log_get-entry s.clone_func l (length l - walked) (some e) (omega arith) oldest
        ∙ rw live,
    history_overrun l s (record { revision = some (length l - walked); include_values = false })
        (length l - walked) e v held refl
        (ap value_of (entry_within_old walked l (length l - walked) (omega arith))) full oldest
        live,
  )
