-- ===== src/Drivers/Etcd/Deletions.antt =====
-- storage/drivers/etcd/kv_store.go: which Deletes etcd takes at a revision.
use protoconfig.Prelude.{
  ℕ, ◌≡◌, ◌≢◌, ◌⊎◌, inl, inr, sym, ap, ◌∙◌, true, false, none, some, List, [], ◌∷◌, String, str_eq,
  if◌then◌else◌, arith,
}
use protoconfig.Prelude.Int64.{Int64}
use protoconfig.Storage.Errors.{ok, err, err_conflict}
use protoconfig.Storage.Options.{DeleteOpt, apply_delete, no_delete_options}
use protoconfig.Drivers.Etcd.Paths.{path_join}
use protoconfig.Drivers.Etcd.Api.{
  Answer, done, failed, mod_revision_equals, op_delete, Request, plain, TxnAnswer, mod_revision_is,
  Client,
}
use protoconfig.Drivers.Etcd.{Base64, validated, delete_locked, delete_with, delete}
use protoconfig.Drivers.Etcd.Laws.{validated-valid, and_true}

module _ {V : Type 0} (base64 : Base64 V) (prefix : String) (client : Client) where
  abbrev pub delete_request : String → Int64 → Request
  delete_request q r =
      plain (record { compare = mod_revision_equals q r ∷ []; success = op_delete q })

  delete_locked-cases :
      (p : Answer TxnAnswer × client.State) (a : TxnAnswer)
      → p.0 ≡ done a
      → delete_locked base64 prefix client p
        ≡ (if a.succeeded then (ok tt, p.1) else (err err_conflict, p.1))
  delete_locked-cases (done b, s) a h = ap (λ x. delete_locked base64 prefix client (x, s)) h
  delete_locked-cases (failed e, s) a h = absurd (ground (arith, h))

  delete-reply :
      (now : ℕ) (key : String) (opts : List DeleteOpt) (s : client.State) (r : Int64)
      (a : TxnAnswer)
      → str_eq key "" ≡ false
      → (apply_delete no_delete_options opts).revision ≡ some r
      → (client.commit (delete_request (path_join prefix key) r) s).0 ≡ done a
      → delete base64 prefix client now key opts s ≡ (
          if a.succeeded
          then (ok tt, (client.commit (delete_request (path_join prefix key) r) s).1)
          else (err err_conflict, (client.commit (delete_request (path_join prefix key) r) s).1))
  unfolding delete delete_with
  delete-reply now key opts s r a valid named committed =
      ap
        (λ x.
          validated base64 prefix client x
            (λ t.
              delete_with base64 prefix client (path_join prefix key)
                (apply_delete no_delete_options opts).revision s)
            s)
        (validated-valid base64 prefix client key valid)
      ∙ ap (λ x. delete_with base64 prefix client (path_join prefix key) x s) named
      ∙ delete_locked-cases _ a committed

  -- A Delete at a revision of a key that is not empty, whose transaction etcd answers, gives no error if
  -- the key was changed last at the revision, or is missing and the revision is 0: then the key is gone
  -- and no other is changed. It gives a conflict otherwise, also for a missing key, and changes nothing.
  pub delete_named-cases :
      (now : ℕ) (key : String) (opts : List DeleteOpt) (s : client.State) (r : Int64)
      (a : TxnAnswer)
      → str_eq key "" ≡ false
      → (apply_delete no_delete_options opts).revision ≡ some r
      → (client.commit (delete_request (path_join prefix key) r) s).0 ≡ done a
      → ((mod_revision_is r (client.at s (path_join prefix key)) ≡ true)
          × ((delete base64 prefix client now key opts s).0 ≡ ok tt)
          × (client.at (delete base64 prefix client now key opts s).1 (path_join prefix key) ≡ none)
          × ((j : String)
              → j ≢ path_join prefix key
              → client.at (delete base64 prefix client now key opts s).1 j ≡ client.at s j))
        ⊎ ((mod_revision_is r (client.at s (path_join prefix key)) ≡ false)
            × (delete base64 prefix client now key opts s ≡ (err err_conflict, s)))
  delete_named-cases now key opts s r a valid named committed =
      let request = delete_request (path_join prefix key) r in
      let (as_compared, outcome) = client.commit-done request s a committed in
      let is_compared : a.succeeded ≡ mod_revision_is r (client.at s (path_join prefix key)) =
        as_compared ∙ and_true _ in
      let reply = delete-reply now key opts s r a valid named committed in
      elim outcome [
        | inl (refused, same) ↦ inr (
          sym is_compared ∙ refused,
          reply
              ∙ ap
                  (λ b.
                    if b
                    then (ok tt, (client.commit request s).1)
                    else (err err_conflict, (client.commit request s).1))
                  refused
              ∙ ap (λ x. (err err_conflict, x)) same,
        )
        | inr (succeeded, (gone, others)) ↦
            (let whole =
                reply
                ∙ ap
                    (λ b.
                      if b
                      then (ok tt, (client.commit request s).1)
                      else (err err_conflict, (client.commit request s).1))
                    succeeded in
              inl (
                sym is_compared ∙ succeeded,
                ap (λ p. p.0) whole,
                ap (λ p. client.at p.1 (path_join prefix key)) whole ∙ gone,
                λ j other. ap (λ p. client.at p.1 j) whole ∙ others j other,
              ))
      ]
