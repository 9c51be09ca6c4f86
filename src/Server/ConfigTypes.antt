-- ===== src/Server/ConfigTypes.antt =====
-- server/constraints.go: what the server uses of a config type, of the stores, of field masks and of
-- the validator. A config type is generated code; a message is passed by value, so a call that
-- changes one in place returns the changed message.
use protoconfig.Prelude.{ℕ, ◌≡◌, Bool, true, Option, none, some, List, ◌∷◌, String}
use protoconfig.Prelude.Int64.{Int64}
use protoconfig.Storage.Errors.{Error, Result, err}
use protoconfig.Storage.Options.{GetOpt, PutOpt, DeleteOpt, HistoryOpt}
use protoconfig.Storage.Reads.{revision_opts, without_revision}
use protoconfig.Storage.Stores.{KeyRevision}
use protoconfig.Server.Revisions.{Revision, updated_revision}

-- What the validator says of a message: that it is valid, which rules it violates, or that it could
-- not tell.
pub data Validation (V : Type 0) : Type 0 where
  valid : Validation V
  violates : V → Validation V
  failed : Validation V

pub record ConfigType : Type 1 where
  pub Spec : Type 0
  pub Violations : Type 0
  -- util.NewMessage[T]()
  pub new_spec : Spec
  pub get_revision : Spec → Option Revision
  -- Set or Clear of the revision field.
  pub with_revision_field : Option Revision → Spec → Spec
  pub redact_secrets : Spec → Spec
  pub unredact_secrets : Spec → Spec → Result Spec
  -- The first message gets the fields of the second.
  pub merge_with_replace : Spec → Spec → Spec
  pub exclusive_keep : List String → Spec → Spec
  pub normalize : List String → List String
  pub is_valid_mask : List String → Spec → Bool
  -- FieldMask.Append
  pub append_path : String → List String → Result (List String)
  pub masked_fields : List String
  pub has_field : String → Spec → Bool
  pub clear_field : String → Spec → Spec
  pub validate : Spec → Validation Violations
  pub default_loader : Spec → Spec
  pub get_revision-with_revision_field :
      (r : Option Revision) (t : Spec) → get_revision (with_revision_field r t) ≡ r
  -- Redacting hides the secrets at once and does not touch the revision.
  pub redact_twice : (t : Spec) → redact_secrets (redact_secrets t) ≡ redact_secrets t
  pub redact_revision :
      (r : Option Revision) (t : Spec)
      → redact_secrets (with_revision_field r t) ≡ with_revision_field r (redact_secrets t)

-- storage.ValueStoreT, as the tracker uses it: calls at a time on a state.
pub record StoreOf (A : Type 0) : Type 1 where
  pub State : Type 0
  pub get : List GetOpt → State → Result (A × Option Int64)
  pub put : ℕ → A → List PutOpt → State → Result (Option Int64) × State
  pub delete : ℕ → List DeleteOpt → State → Result (Unit {0}) × State
  pub history : List HistoryOpt → State → Result (List (KeyRevision A))
  -- WithRevisionOut does not change what is read.
  pub get_out :
      (r : Option Int64) (s : State)
      → get (revision_opts r) s
        ≡ without_revision (get (GetOpt.with_revision_out true ∷ revision_opts r) s)

-- A store that a refused call leaves as it was.
pub record KeepsRefused {A : Type 0} (S : StoreOf A) : Type 0 where
  pub put_refused :
      (now : ℕ) (a : A) (opts : List PutOpt) (s : S.State) (e : Error)
      → (S.put now a opts s).0 ≡ err e
      → (S.put now a opts s).1 ≡ s
  pub delete_refused :
      (now : ℕ) (opts : List DeleteOpt) (s : S.State) (e : Error)
      → (S.delete now opts s).0 ≡ err e
      → (S.delete now opts s).1 ≡ s

module _ (C : ConfigType) where
  abbrev pub set_revision : Int64 → Option ℕ → C.Spec → C.Spec
  set_revision v t spec =
      C.with_revision_field (some (updated_revision v t (C.get_revision spec))) spec

  -- The revision field is cleared where there is one.
  abbrev pub clear_field_of : Option Revision → C.Spec → C.Spec
  clear_field_of none spec = spec
  clear_field_of (some r) spec = C.with_revision_field none spec

  abbrev pub unset_revision : C.Spec → C.Spec
  unset_revision spec = clear_field_of (C.get_revision spec) spec

  -- The destination gets the revision of the source, or none.
  abbrev pub copy_field_of : Option Revision → C.Spec → C.Spec
  copy_field_of none dst = unset_revision dst
  copy_field_of (some r) dst = C.with_revision_field (some r) dst

  -- copy_revision dst src
  abbrev pub copy_revision : C.Spec → C.Spec → C.Spec
  copy_revision dst src = copy_field_of (C.get_revision src) dst
