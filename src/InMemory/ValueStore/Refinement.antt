-- ===== src/InMemory/ValueStore/Refinement.antt =====
-- The ring of storage/inmemory/value_store.go implements the log: Put and Delete.
use protoconfig.Prelude.{
  ℕ, ◌+◌, ◌^◌, ◌<◌, ◌≡◌, refl, ap, ◌∙◌, Option-cases, Bool-cases, inl, inr, Option, none, some,
  List, [], ◌∷◌, if◌then◌else◌, length, drop_last, arith,
}
use protoconfig.Prelude.Int64.{Int64, inc64_small}
use protoconfig.Storage.Errors.{Result, ok, err, err_conflict, err_not_found}
use protoconfig.Storage.Options.{
  PutOptions, DeleteOptions, PutOpt, DeleteOpt, apply_put, apply_delete, no_put_options,
  no_delete_options,
}
use protoconfig.InMemory.Ring
use protoconfig.InMemory.Ring.{cells}
use protoconfig.InMemory.Ring.Laws.{cells-set_value-next}
use protoconfig.InMemory.ValueStore.{
  ValueStore, Element, put_guard, put_element, put_commit, put_with, delete_guard, delete_element,
  delete_commit, delete_with, new_value_store, put, delete,
}
use protoconfig.InMemory.ValueStore.Log.{
  Entry, Log, capacity, put_allowed, delete_error, element, window, drop_last-window, next_revision,
  log_put, log_delete,
}

pub delete_error-nil :
    (A : Type 0) (r : Option Int64) → delete_error {A = A} r [] ≡ some err_not_found
unfolding delete_error
delete_error-nil A r = refl

module _ {A : Type 0} where
  -- The store holds the log.
  pub record Refines (l : Log A) (s : ValueStore A) : Type 0 where
    pub revision : s.revision ≡ length l
    pub nodes : cells s.values ≡ window s.zero_value capacity l

  pub new-Refines : (clone : A → A) (z : A) → Refines [] (new_value_store clone z)
  unfolding new_value_store window
  new-Refines clone z = record { revision = refl; nodes = refl }

  put_guard-eq :
      (l : Log A) (s : ValueStore A) (o : PutOptions)
      → Refines l s
      → put_guard o s ≡ (if put_allowed o.revision l then ok tt else err err_conflict)
  unfolding put_guard window
  put_guard-eq [] s o h = ground (arith, h.revision, h.nodes)
  put_guard-eq (e ∷ l) s o h = ground (arith, h.revision, h.nodes)

  -- What the checks of Delete give: the latest element, or the error.
  abbrev delete_outcome : A → Option Int64 → Log A → Result (Element A)
  delete_outcome z requested [] = err err_not_found
  delete_outcome z requested (e ∷ l) = elim (delete_error requested (e ∷ l)) [
    | some x ↦ err x
    | none ↦ ok (element z e (length l + 1))
  ]

  delete_guard-eq :
      (l : Log A) (s : ValueStore A) (o : DeleteOptions)
      → Refines l s
      → delete_guard o s ≡ delete_outcome s.zero_value o.revision l
  unfolding delete_guard window delete_error
  delete_guard-eq [] s o h = ground (arith, h.revision, h.nodes)
  delete_guard-eq (e ∷ l) s o h = ground (arith, h.revision, h.nodes)

  -- The ring after a write.
  nodes-push :
      (l : Log A) (s : ValueStore A) (e : Entry A) (x : Element A)
      → x ≡ element s.zero_value e (length l + 1)
      → Refines l s
      → cells (Ring.set_value (some x) (Ring.next s.values)) ≡ window s.zero_value capacity (e ∷ l)
  unfolding window
  nodes-push l s e x hx h =
      cells-set_value-next (some x) s.values
      ∙ ap (λ ns. some x ∷ drop_last ns) h.nodes
      ∙ ap (λ y. some y ∷ drop_last (window s.zero_value capacity l)) hx
      ∙ ap (◌∷◌ (some (element s.zero_value e (length l + 1)))) (drop_last-window s.zero_value 63 l)

  put_commit-Refines :
      (l : Log A) (s : ValueStore A) (now : ℕ) (v : A)
      → next_revision l < 2 ^ 63
      → Refines l s
      → Refines (record { timestamp = now; value = some v } ∷ l) (put_commit now v s)
  unfolding put_commit
  put_commit-Refines l s now v fits h = record {
    revision = omega (arith, h.revision, inc64_small s.revision);
    nodes =
        nodes-push l s (record { timestamp = now; value = some v }) (put_element now v s)
          (ground (arith, h.revision, inc64_small s.revision)) h;
  }

  delete_commit-Refines :
      (l : Log A) (s : ValueStore A) (now : ℕ) (previous : Element A)
      → next_revision l < 2 ^ 63
      → Refines l s
      → Refines (record { timestamp = now; value = none } ∷ l) (delete_commit now previous s)
  unfolding delete_commit
  delete_commit-Refines l s now previous fits h = record {
    revision = omega (arith, h.revision, inc64_small s.revision);
    nodes =
        nodes-push l s (record { timestamp = now; value = none }) (delete_element now s)
          (ground (arith, h.revision, inc64_small s.revision)) h;
  }

  -- Put on a store that holds a log of fewer than 2 ^ 63 - 1 writes returns what the log gives (the next
  -- revision, if asked for, or a conflict), and the store then holds the log's next state.
  pub put-Refines :
      (l : Log A) (s : ValueStore A) (now : ℕ) (v : A) (opts : List PutOpt)
      → next_revision l < 2 ^ 63
      → Refines l s
      → ((put now v opts s).0 ≡ (log_put now v (apply_put no_put_options opts) l).0)
        × Refines (log_put now v (apply_put no_put_options opts) l).1 (put now v opts s).1
  unfolding put log_put
  put-Refines l s now v opts fits h =
      let o = apply_put no_put_options opts in
      elim (Bool-cases (put_allowed o.revision l)) [
        | inl allowed ↦
            let g : put_guard o s ≡ ok tt =
              put_guard-eq l s o h ∙ ap (λ b. if b then ok tt else err err_conflict) allowed in
            rw (allowed, g, put_with)
              (rw (h.revision, inc64_small (length l)) refl, put_commit-Refines l s now v fits h)
        | inr refused ↦
            let g : put_guard o s ≡ err err_conflict =
              put_guard-eq l s o h ∙ ap (λ b. if b then ok tt else err err_conflict) refused in
            rw (refused, g, put_with) (refl, h)
      ]

  -- Delete on a store that holds a log of fewer than 2 ^ 63 - 1 writes returns what the log gives
  -- (success, not found, or a conflict), and the store then holds the log's next state.
  pub delete-Refines :
      (l : Log A) (s : ValueStore A) (now : ℕ) (opts : List DeleteOpt)
      → next_revision l < 2 ^ 63
      → Refines l s
      → ((delete now opts s).0 ≡ (log_delete now (apply_delete no_delete_options opts) l).0)
        × Refines (log_delete now (apply_delete no_delete_options opts) l).1 (delete now opts s).1
  unfolding delete log_delete
  delete-Refines [] s now opts fits h =
      let o = apply_delete no_delete_options opts in
      rw (delete_guard-eq [] s o h, delete_with)
        (rw (delete_error-nil A o.revision, log_delete) (refl, h))
  delete-Refines (e ∷ l) s now opts fits h =
      let o = apply_delete no_delete_options opts in
      let g = delete_guard-eq (e ∷ l) s o h in
      elim (Option-cases (delete_error o.revision (e ∷ l))) [
        | inl allowed ↦
            let g' : delete_guard o s ≡ ok (element s.zero_value e (length l + 1)) =
              g ∙ rw (allowed, delete_outcome) refl in
            rw (allowed, g', delete_with, log_delete)
              (
                refl,
                delete_commit-Refines (e ∷ l) s now (element s.zero_value e (length l + 1)) fits h,
              )
        | inr (x, refused) ↦
            let g' : delete_guard o s ≡ err x = g ∙ rw (refused, delete_outcome) refl in
            rw (refused, g', delete_with, log_delete) (refl, h)
      ]

  -- The store that a call leaves.
  pub put-state :
      (l : Log A) (s : ValueStore A) (now : ℕ) (v : A) (opts : List PutOpt)
      → Refines l s
      → (put now v opts s).1
        ≡ (if put_allowed (apply_put no_put_options opts).revision l then put_commit now v s else s)
  unfolding put
  put-state l s now v opts h =
      let o = apply_put no_put_options opts in
      let g = put_guard-eq l s o h in
      elim (Bool-cases (put_allowed o.revision l)) [
        | inl t ↦
            let g' : put_guard o s ≡ ok tt =
              g ∙ ap (λ b. if b then ok tt else err err_conflict) t in
            rw (t, g', put_with) refl
        | inr t ↦
            let g' : put_guard o s ≡ err err_conflict =
              g ∙ ap (λ b. if b then ok tt else err err_conflict) t in
            rw (t, g', put_with) refl
      ]

  pub delete-state :
      (e : Entry A) (l : Log A) (s : ValueStore A) (now : ℕ) (opts : List DeleteOpt)
      → Refines (e ∷ l) s
      → (delete now opts s).1
        ≡ (elim (delete_error (apply_delete no_delete_options opts).revision (e ∷ l)) [
          | none ↦ delete_commit now (element s.zero_value e (length l + 1)) s
          | some x ↦ s
        ])
  unfolding delete
  delete-state e l s now opts h =
      let o = apply_delete no_delete_options opts in
      let g = delete_guard-eq (e ∷ l) s o h in
      elim (Option-cases (delete_error o.revision (e ∷ l))) [
        | inl t ↦
            let g' : delete_guard o s ≡ ok (element s.zero_value e (length l + 1)) =
              g ∙ rw (t, delete_outcome) refl in
            rw (t, g', delete_with) refl
        | inr (x, t) ↦
            let g' : delete_guard o s ≡ err x = g ∙ rw (t, delete_outcome) refl in
            rw (t, g', delete_with) refl
      ]

  pub delete-state_nil :
      (s : ValueStore A) (now : ℕ) (opts : List DeleteOpt)
      → Refines [] s
      → (delete now opts s).1 ≡ s
  unfolding delete
  delete-state_nil s now opts h =
      rw (delete_guard-eq [] s (apply_delete no_delete_options opts) h, delete_with) refl

  -- A deletion that is allowed finds a value.
  pub delete_error-value :
      (e : Entry A) (l : Log A) (r : Option Int64)
      → delete_error r (e ∷ l) ≡ none
      → (v : A) × (e.value ≡ some v)
  unfolding delete_error
  delete_error-value e l r h = ground arith
