-- ===== src/Storage/Reads.antt =====
-- Options of a read, and a read whose revision nobody asked for.
use protoconfig.Prelude.{Option, none, some, List, [], ◌∷◌}
use protoconfig.Prelude.Int64.{Int64}
use protoconfig.Storage.Errors.{Result, ok, err, panic}
use protoconfig.Storage.Options.{GetOpt}

-- The options that name a revision, if there is one.
abbrev pub revision_opts : Option Int64 → List GetOpt
revision_opts none = []
revision_opts (some r) = GetOpt.with_revision r ∷ []

abbrev pub without_revision {ℓ} :
    {A : Type ℓ} → Result (A × Option Int64) → Result (A × Option Int64)
without_revision (ok found) = ok (found.0, none)
without_revision (err e) = err e
without_revision panic = panic
