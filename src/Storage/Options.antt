-- ===== src/Storage/Options.antt =====
-- storage/options.go. The RevisionOut pointer is a flag: whether the caller asks for the revision.
use protoconfig.Prelude.{Bool, false, Option, none, some, List, [], ◌∷◌}
use protoconfig.Prelude.Int64.{Int64}

pub record GetOptions : Type 0 where
  pub revision : Option Int64
  pub revision_out : Bool

pub record WatchOptions : Type 0 where
  pub revision : Option Int64
  pub prefix : Bool

pub record PutOptions : Type 0 where
  pub revision : Option Int64
  pub revision_out : Bool

pub record DeleteOptions : Type 0 where
  pub revision : Option Int64

pub record ListKeysOptions : Type 0 where
  pub limit : Option Int64

pub record HistoryOptions : Type 0 where
  pub revision : Option Int64
  pub include_values : Bool

pub data GetOpt : Type 0 where
  with_revision : Int64 → GetOpt
  with_revision_out : Bool → GetOpt

pub data PutOpt : Type 0 where
  with_revision : Int64 → PutOpt
  with_revision_out : Bool → PutOpt

pub data WatchOpt : Type 0 where
  with_revision : Int64 → WatchOpt
  with_prefix : Bool → WatchOpt

pub data DeleteOpt : Type 0 where
  with_revision : Int64 → DeleteOpt

pub data ListOpt : Type 0 where
  with_limit : Int64 → ListOpt

pub data HistoryOpt : Type 0 where
  with_revision : Int64 → HistoryOpt
  include_values : Bool → HistoryOpt

abbrev pub apply_get : GetOptions → List GetOpt → GetOptions
apply_get o [] = o
apply_get o (GetOpt.with_revision r ∷ opts) = apply_get (record o { revision = some r }) opts
apply_get o (GetOpt.with_revision_out b ∷ opts) = apply_get (record o { revision_out = b }) opts

abbrev pub apply_put : PutOptions → List PutOpt → PutOptions
apply_put o [] = o
apply_put o (PutOpt.with_revision r ∷ opts) = apply_put (record o { revision = some r }) opts
apply_put o (PutOpt.with_revision_out b ∷ opts) = apply_put (record o { revision_out = b }) opts

abbrev pub apply_watch : WatchOptions → List WatchOpt → WatchOptions
apply_watch o [] = o
apply_watch o (WatchOpt.with_revision r ∷ opts) = apply_watch (record o { revision = some r }) opts
apply_watch o (WatchOpt.with_prefix b ∷ opts) = apply_watch (record o { prefix = b }) opts

abbrev pub apply_delete : DeleteOptions → List DeleteOpt → DeleteOptions
apply_delete o [] = o
apply_delete o (DeleteOpt.with_revision r ∷ opts) =
    apply_delete (record o { revision = some r }) opts

abbrev pub apply_list : ListKeysOptions → List ListOpt → ListKeysOptions
apply_list o [] = o
apply_list o (ListOpt.with_limit r ∷ opts) = apply_list (record o { limit = some r }) opts

abbrev pub apply_history : HistoryOptions → List HistoryOpt → HistoryOptions
apply_history o [] = o
apply_history o (HistoryOpt.with_revision r ∷ opts) =
    apply_history (record o { revision = some r }) opts
apply_history o (HistoryOpt.include_values b ∷ opts) =
    apply_history (record o { include_values = b }) opts

abbrev pub no_get_options : GetOptions
no_get_options = record { revision = none; revision_out = false }

abbrev pub no_put_options : PutOptions
no_put_options = record { revision = none; revision_out = false }

abbrev pub no_watch_options : WatchOptions
no_watch_options = record { revision = none; prefix = false }

abbrev pub no_delete_options : DeleteOptions
no_delete_options = record { revision = none }

abbrev pub no_list_options : ListKeysOptions
no_list_options = record { limit = none }

abbrev pub no_history_options : HistoryOptions
no_history_options = record { revision = none; include_values = false }
