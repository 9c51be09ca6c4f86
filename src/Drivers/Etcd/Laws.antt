-- ===== src/Drivers/Etcd/Laws.antt =====
-- storage/drivers/etcd/kv_store.go: which Puts and Deletes etcd takes, and what is read afterwards.
use protoconfig.Prelude.{
  ℕ, ◌==◌, ◌≡◌, ◌≢◌, ◌⊎◌, ◌&&◌, not, inl, inr, refl, sym, ap, subst, ◌∙◌, Bool, Bool-cases, true,
  false, Option, none, some, List, [], ◌∷◌, String, str_eq, if◌then◌else◌, arith,
}
use protoconfig.Prelude.Int64.{Int64, gtb64}
use protoconfig.Storage.Errors.{Error, ◌>>=◌, ok, err, err_conflict}
use protoconfig.Storage.Options.{PutOpt, PutOptions, with_revision_out, apply_put, no_put_options}
use protoconfig.Drivers.Etcd.Paths.{path_join}
use protoconfig.Drivers.Etcd.Api.{
  Answer, done, failed, Kv, op_put, TxnAnswer, latest_range, mod_revision_is, version_is, all_hold,
  Applied, chosen, found_list, Client,
}
use protoconfig.Drivers.Etcd.{
  Base64, validate_key, answer, comparisons, put_request, put_reply, put_with, validated, put,
  get_reply, get,
}

-- Whether a Put may write: any revision, a missing key for a revision that is not positive, or a key that was
-- changed last at the revision.
abbrev pub allowed : Option Int64 → Option Kv → Bool
allowed none kv = true
allowed (some r) none = not (gtb64 r 0)
allowed (some r) (some kv) = gtb64 r 0 && (kv.mod_revision == r)

gtb64-zero : (r : Int64) → gtb64 r 0 ≡ true → (r == 0) ≡ false
unfolding gtb64
gtb64-zero r h = ground (arith, h)

pub and_true : (b : Bool) → (b && true) ≡ b
and_true true = refl
and_true false = refl

nonzero_test : (n : Int64) → n ≢ 0 → (n == 0) ≡ false
nonzero_test n h = elim (Bool-cases (n == 0)) [ inl z ↦ absurd (h (ground (arith, z))) | inr z ↦ z ]

no_error : {A : Type 0} {e : Error} {a : A} → err e ≡ ok a → ⊥
no_error h = ground (arith, h)

module _ {V : Type 0} (base64 : Base64 V) (prefix : String) (client : Client) where
  found-allowed :
      (at : String → Option Kv) (q : String) (r : Int64) (kv : Option Kv)
      → at q ≡ kv
      → ((v : Kv) → kv ≡ some v → v.version ≢ 0)
      → all_hold at (comparisons q (some r)) ≡ allowed (some r) kv
  unfolding comparisons
  found-allowed at q r none is_kv nonzero = elim (Bool-cases (gtb64 r 0)) [
    | inl p ↦ rw p (ap (λ x. mod_revision_is r x && true) is_kv ∙ rw (gtb64-zero r p) refl)
    | inr p ↦ rw p (ap (λ x. version_is 0 x && true) is_kv)
  ]
  found-allowed at q r (some v) is_kv nonzero = elim (Bool-cases (gtb64 r 0)) [
    | inl p ↦ rw p (ap (λ x. mod_revision_is r x && true) is_kv ∙ and_true (v.mod_revision == r))
    | inr p ↦ rw p (
        ap (λ x. version_is 0 x && true) is_kv
        ∙ ap (λ b. b && true) (nonzero_test v.version (nonzero v refl)))
  ]

  comparisons-allowed :
      (q : String) (r : Option Int64) (s : client.State)
      → all_hold (client.at s) (comparisons q r) ≡ allowed r (client.at s q)
  unfolding comparisons
  comparisons-allowed q none s = refl
  comparisons-allowed q (some r) s =
      found-allowed (client.at s) q r (client.at s q) refl (λ v h. client.version-nonzero q v s h)

  request-chosen :
      (leased : String → Bool) (q text : String) (r : Option Int64)
      → ((chosen leased (put_request q text r)).compare ≡ comparisons q r)
        × ((lease : Bool) × ((chosen leased (put_request q text r)).success ≡ op_put q text lease))
  unfolding put_request
  request-chosen leased q text r = elim (Bool-cases (leased q)) [
    | inl p ↦ rw p (refl, (true, refl))
    | inr p ↦ rw p (refl, (false, refl))
  ]

  pub validated-valid : (key : String) → str_eq key "" ≡ false → validate_key key ≡ ok tt
  validated-valid key valid = rw valid refl

  put_reply-cases :
      (o : PutOptions) (p : Answer TxnAnswer × client.State) (a : TxnAnswer)
      → p.0 ≡ done a
      → put_reply base64 prefix client o p ≡ (
          if a.succeeded
          then (ok (if o.revision_out then some a.revision else none), p.1)
          else (err err_conflict, p.1))
  put_reply-cases o (done b, s) a h = ap (λ x. put_reply base64 prefix client o (x, s)) h
  put_reply-cases o (failed e, s) a h = absurd (ground (arith, h))

  put-reply :
      (now : ℕ) (key : String) (value : V) (opts : List PutOpt) (s : client.State) (a : TxnAnswer)
      → str_eq key "" ≡ false
      → (client.commit
          (put_request
            (path_join prefix key)
            (base64.encode value)
            (apply_put no_put_options opts).revision)
          s).0
        ≡ done a
      → put base64 prefix client now key value opts s ≡ (
          if a.succeeded
          then (
            ok (if (apply_put no_put_options opts).revision_out then some a.revision else none),
            (client.commit
                (put_request
                  (path_join prefix key)
                  (base64.encode value)
                  (apply_put no_put_options opts).revision)
                s).1,
          )
          else (
            err err_conflict,
            (client.commit
                (put_request
                  (path_join prefix key)
                  (base64.encode value)
                  (apply_put no_put_options opts).revision)
                s).1,
          ))
  unfolding put put_with
  put-reply now key value opts s a valid committed =
      ap
        (λ x.
          validated base64 prefix client x
            (λ t. put_with base64 prefix client key value (apply_put no_put_options opts) s) s)
        (validated-valid key valid)
      ∙ put_reply-cases (apply_put no_put_options opts) _ a committed

  -- A Put of a key that is not empty, whose transaction etcd answers, writes the value if the key is allowed to be
  -- written at the revision that is named, and changes no other key; otherwise it gives a conflict and changes
  -- nothing.
  pub put-compare_and_set :
      (now : ℕ) (key : String) (value : V) (opts : List PutOpt) (s : client.State) (a : TxnAnswer)
      → str_eq key "" ≡ false
      → (client.commit
          (put_request
            (path_join prefix key)
            (base64.encode value)
            (apply_put no_put_options opts).revision)
          s).0
        ≡ done a
      → ((allowed (apply_put no_put_options opts).revision (client.at s (path_join prefix key))
            ≡ true)
          × ((put base64 prefix client now key value opts s).0
              ≡ ok (if (apply_put no_put_options opts).revision_out then some a.revision else none))
          × ((n : Kv) × (client.at
                  (put base64 prefix client now key value opts s).1
                  (path_join prefix key)
                ≡ some n)
              × (n.value ≡ base64.encode value)
              × (n.mod_revision ≡ a.revision))
          × ((j : String)
              → j ≢ path_join prefix key
              → client.at (put base64 prefix client now key value opts s).1 j ≡ client.at s j))
        ⊎ ((allowed (apply_put no_put_options opts).revision (client.at s (path_join prefix key))
              ≡ false)
            × (put base64 prefix client now key value opts s ≡ (err err_conflict, s)))
  put-compare_and_set now key value opts s a valid committed =
      let o = apply_put no_put_options opts in
      let q = path_join prefix key in
      let request = put_request q (base64.encode value) o.revision in
      let (as_compared, outcome) = client.commit-done request s a committed in
      let (compares, (lease, writes)) =
        request-chosen (client.leased s) q (base64.encode value) o.revision in
      let is_allowed : a.succeeded ≡ allowed o.revision (client.at s q) =
        as_compared ∙ ap (all_hold (client.at s)) compares ∙ comparisons-allowed q o.revision s in
      let reply = put-reply now key value opts s a valid committed in
      elim outcome [
        | inl (refused, same) ↦
            inr
              (sym is_allowed ∙ refused, reply ∙ rw refused (ap (λ x. (err err_conflict, x)) same))
        | inr (succeeded, applied) ↦
            (let whole =
                reply
                ∙ ap
                    (λ b.
                      if b
                      then (
                        ok (if o.revision_out then some a.revision else none),
                        (client.commit request s).1,
                      )
                      else (err err_conflict, (client.commit request s).1))
                    succeeded in
              let ((n, at_q, is_value, is_rev), others) =
                subst
                  (λ op.
                    Applied op a.revision (client.at s) (client.at (client.commit request s).1))
                  writes applied in
              inl (
                sym is_allowed ∙ succeeded,
                ap (λ p. p.0) whole,
                (n, ap (λ p. client.at p.1 q) whole ∙ at_q, is_value, is_rev),
                λ j other. ap (λ p. client.at p.1 j) whole ∙ others j other,
              ))
      ]

  -- After a Put of a key that is not empty, whose transaction etcd answers and which gives no error, a Get that
  -- etcd answers gives the value and the revision of the transaction.
  pub get-put :
      (now : ℕ) (key : String) (value : V) (opts : List PutOpt) (s : client.State) (a : TxnAnswer)
      (out : Option Int64) (kvs : List Kv)
      → str_eq key "" ≡ false
      → (client.commit
          (put_request
            (path_join prefix key)
            (base64.encode value)
            (apply_put no_put_options opts).revision)
          s).0
        ≡ done a
      → (put base64 prefix client now key value opts s).0 ≡ ok out
      → client.get
          (latest_range (path_join prefix key))
          (put base64 prefix client now key value opts s).1
        ≡ done kvs
      → get base64 prefix client key
          (with_revision_out true ∷ [])
          (put base64 prefix client now key value opts s).1
        ≡ ok (value, some a.revision)
  unfolding get
  get-put now key value opts s a out kvs valid committed result read =
      let after = (put base64 prefix client now key value opts s).1 in
      elim (put-compare_and_set now key value opts s a valid committed) [
        | inl (may, reply, (n, at_q, is_value, is_rev), others) ↦
            (let found : kvs ≡ n ∷ [] =
                client.get-done (path_join prefix key) kvs after read ∙ ap found_list at_q in
              ap
                (λ x. x >>= λ t.
                  answer (client.get (latest_range (path_join prefix key)) after)
                    (get_reply base64 prefix client true))
                (validated-valid key valid)
              ∙ ap (λ x. answer x (get_reply base64 prefix client true)) read
              ∙ ap (λ l. get_reply base64 prefix client true l) found
              ∙ ap (λ t. base64.decode t >>= λ v. ok (v, some n.mod_revision)) is_value
              ∙ ap (λ d. d >>= λ v. ok (v, some n.mod_revision)) (base64.decode-encode value)
              ∙ ap (λ r. ok (value, some r)) is_rev)
        | inr (may_not, conflicts) ↦ absurd (no_error (sym (ap (λ p. p.0) conflicts) ∙ result))
      ]
