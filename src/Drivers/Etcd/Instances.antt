-- ===== src/Drivers/Etcd/Instances.antt =====
-- A server for the tests of the store in etcd: values by keys, each with the revision of its last change.
use protoconfig.Prelude.{
  ℕ, ◌+◌, ◌≡◌, ◌≢◌, ◌⊎◌, inl, inr, refl, sym, ap, Bool, Bool-cases, true, false, Option, none, some,
  List, String, str_eq, if◌then◌else◌, arith, eq_iff,
}
use protoconfig.Prelude.Int64.{Int64}
use protoconfig.Storage.Errors.{ok}
use protoconfig.Drivers.Etcd.{Base64}
use protoconfig.Drivers.Etcd.Api.{
  Answer, done, failed, Kv, Op, op_put, op_delete, Request, TxnAnswer, Range, latest_range,
  all_hold, Applied, chosen, found_list, Client,
}

-- Bytes as texts that are kept
abbrev pub plain_text : Base64 String
plain_text = record { encode = λ v. v; decode = λ t. ok t; raw = λ t. t; decode-encode = λ v. refl }

pub record Stored : Type 0 where
  pub revision : Int64
  pub values : String → Option (String × Int64)

abbrev pub as_kv : String → Option (String × Int64) → Option Kv
as_kv k none = none
as_kv k (some v) =
    some (record { key = k; value = v.0; create_revision = v.1; mod_revision = v.1; version = 1 })

abbrev pub stored_at : Stored → String → Option Kv
stored_at s k = as_kv k (s.values k)

abbrev pub not_leased : Stored → String → Bool
not_leased s k = false

abbrev pub with_value :
    String
    → Option (String × Int64)
    → (String → Option (String × Int64))
    → String
    → Option (String × Int64)
with_value k v values j = if str_eq j k then v else values j

abbrev pub apply : Op → Stored → Stored
apply (op_put k v lease) s = record {
  revision = s.revision + 1;
  values = with_value k (some (v, s.revision + 1)) s.values;
}
apply (op_delete k) s = record { revision = s.revision + 1; values = with_value k none s.values }

abbrev pub commit_if : Bool → Op → Stored → Answer TxnAnswer × Stored
commit_if true op s = (done (record { succeeded = true; revision = s.revision + 1 }), apply op s)
commit_if false op s = (done (record { succeeded = false; revision = s.revision }), s)

abbrev pub commit : Request → Stored → Answer TxnAnswer × Stored
commit q s =
    commit_if (all_hold (stored_at s) (chosen (not_leased s) q).compare)
      (chosen (not_leased s) q).success s

abbrev pub delete_if : Option (String × Int64) → String → Stored → Answer ℕ × Stored
delete_if none k s = (done 0, s)
delete_if (some v) k s = (done 1, apply (op_delete k) s)

abbrev pub delete : String → Stored → Answer ℕ × Stored
delete k s = delete_if (s.values k) k s

-- The answers for one key; those for a prefix are left out.
abbrev pub get : Range → Stored → Answer (List Kv)
get range s = done (found_list (stored_at s range.key))

same_text : (k : String) → str_eq k k ≡ true
same_text k = (eq_iff k k).1 refl

other_text : (j k : String) → j ≢ k → str_eq j k ≡ false
other_text j k other = elim (Bool-cases (str_eq j k)) [
  | inl p ↦ absurd (other ((eq_iff j k).0 p))
  | inr p ↦ p
]

done_same : {A : Type 0} (a b : A) → done a ≡ done b → a ≡ b
done_same a b h = ap (λ x. elim x [ done c ↦ c | failed e ↦ a ]) h

apply-deleted :
    (k : String) (s : Stored)
    → (stored_at (apply (op_delete k) s) k ≡ none)
      × ((j : String) → j ≢ k → stored_at (apply (op_delete k) s) j ≡ stored_at s j)
apply-deleted k s = (rw (same_text k) refl, λ j other. rw (other_text j k other) refl)

apply-Applied :
    (op : Op) (r : Int64) (s : Stored)
    → r ≡ s.revision + 1
    → Applied op r (stored_at s) (stored_at (apply op s))
apply-Applied (op_put k v lease) r s is_r = (
  (
    record {
      key = k;
      value = v;
      create_revision = s.revision + 1;
      mod_revision = s.revision + 1;
      version = 1;
    },
    rw (same_text k) refl,
    refl,
    sym is_r,
  ),
  λ j other. rw (other_text j k other) refl,
)
apply-Applied (op_delete k) r s is_r = apply-deleted k s

version_one :
    (k : String) (e : Option (String × Int64)) (v : Kv) → as_kv k e ≡ some v → v.version ≡ 1
version_one k none v h = absurd (ground (arith, h))
version_one k (some w) v h = sym (ap (λ x. elim x [ none ↦ 1 | some y ↦ y.version ]) h)

pub version-nonzero : (k : String) (v : Kv) (s : Stored) → stored_at s k ≡ some v → v.version ≢ 0
version-nonzero k v s h z = absurd (ground (arith, version_one k (s.values k) v h, z))

pub get-done :
    (k : String) (kvs : List Kv) (s : Stored)
    → get (latest_range k) s ≡ done kvs
    → kvs ≡ found_list (stored_at s k)
get-done k kvs s h = sym (done_same (found_list (stored_at s k)) kvs h)

commit_if-done :
    (b : Bool) (op : Op) (s : Stored) (a : TxnAnswer)
    → (commit_if b op s).0 ≡ done a
    → (a.succeeded ≡ b)
      × ((a.succeeded ≡ false) × ((commit_if b op s).1 ≡ s)
          ⊎ (a.succeeded ≡ true)
            × Applied op a.revision (stored_at s) (stored_at (commit_if b op s).1))
commit_if-done true op s a h =
    let is_a = done_same (record { succeeded = true; revision = s.revision + 1 }) a h in
    (
      ap (λ x. x.succeeded) (sym is_a),
      inr (
        ap (λ x. x.succeeded) (sym is_a),
        apply-Applied op a.revision s (ap (λ x. x.revision) (sym is_a)),
      ),
    )
commit_if-done false op s a h =
    let is_a = done_same (record { succeeded = false; revision = s.revision }) a h in
    (ap (λ x. x.succeeded) (sym is_a), inl (ap (λ x. x.succeeded) (sym is_a), refl))

pub commit-done :
    (q : Request) (s : Stored) (a : TxnAnswer)
    → (commit q s).0 ≡ done a
    → (a.succeeded ≡ all_hold (stored_at s) (chosen (not_leased s) q).compare)
      × ((a.succeeded ≡ false) × ((commit q s).1 ≡ s)
          ⊎ (a.succeeded ≡ true)
            × Applied
                (chosen (not_leased s) q).success
                a.revision
                (stored_at s)
                (stored_at (commit q s).1))
commit-done q s a h = commit_if-done _ _ s a h

delete_if-done :
    (e : Option (String × Int64)) (k : String) (s : Stored) (n : ℕ)
    → s.values k ≡ e
    → (delete_if e k s).0 ≡ done n
    → ((n ≡ 0) × (stored_at s k ≡ none) × ((delete_if e k s).1 ≡ s))
      ⊎ ((v : Kv) × (n ≡ 1)
          × (stored_at s k ≡ some v)
          × Applied (op_delete k) 0 (stored_at s) (stored_at (delete_if e k s).1))
delete_if-done none k s n is_e h = inl (sym (done_same 0 n h), ap (as_kv k) is_e, refl)
delete_if-done (some v) k s n is_e h =
    inr (_, sym (done_same 1 n h), ap (as_kv k) is_e, apply-deleted k s)

pub delete-done :
    (k : String) (s : Stored) (n : ℕ)
    → (delete k s).0 ≡ done n
    → ((n ≡ 0) × (stored_at s k ≡ none) × ((delete k s).1 ≡ s))
      ⊎ ((v : Kv) × (n ≡ 1)
          × (stored_at s k ≡ some v)
          × Applied (op_delete k) 0 (stored_at s) (stored_at (delete k s).1))
delete-done k s n h = delete_if-done (s.values k) k s n refl h

abbrev pub server : Client
server = record {
  State = Stored;
  at = stored_at;
  leased = not_leased;
  get = get;
  commit = commit;
  delete = delete;
  version-nonzero = version-nonzero;
  get-done = get-done;
  commit-done = commit-done;
  delete-done = delete-done;
}
