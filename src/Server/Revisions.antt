-- ===== src/Server/Revisions.antt =====
-- server/reflect.go and apis/core/v1/extensions.go: the revision that a config carries.
use protoconfig.Prelude.{ℕ, ◌==◌, Option, none, some, if◌then◌else◌, ◌≡◌, refl, arith}
use protoconfig.Prelude.Int64.{Int64}

-- corev1.Revision. A timestamp is a number, and 0 is the zero time.
pub record Revision : Type 0 where
  pub revision : Option Int64
  pub timestamp : Option ℕ

-- GetRevision().GetRevision(), 0 where one of the two is missing.
abbrev pub revision_value : Option Revision → Int64
revision_value none = 0
revision_value (some r) = elim r.revision [ none ↦ 0 | some v ↦ v ]

-- maybeTimestamp, less the zero time.
abbrev nonzero_time : Option ℕ → Option ℕ
nonzero_time none = none
nonzero_time (some t) = if t == 0 then none else some t

abbrev pub new_revision : Int64 → Option ℕ → Revision
new_revision v t = record { revision = some v; timestamp = nonzero_time t }

-- Revision.Set
pub set : Int64 → Revision → Revision
set v r = elim r.revision [
  | none ↦ record r { revision = some v }
  | some old ↦ record { revision = some v; timestamp = none }
]

-- The revision field that SetRevision leaves.
unfoldable pub updated_revision : Int64 → Option ℕ → Option Revision → Revision
unfolding set
updated_revision v t none = new_revision v t
updated_revision v t (some r) = set v r

-- SetRevision leaves a field with the revision that it is given.
pub updated_revision_value :
    (v : Int64) (t : Option ℕ) (r : Option Revision)
    → revision_value (some (updated_revision v t r)) ≡ v
unfolding updated_revision set
updated_revision_value v t none = refl
updated_revision_value v t (some r) = ground arith
