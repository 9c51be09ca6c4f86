-- ===== src/InMemory/ValueStore/Examples.antt =====
-- Tests and instances for storage/inmemory/value_store.go, over a store of numbers.
use protoconfig.Prelude.{
  true, false, ℕ, ◌+◌, ◌-◌, ◌≡◌, refl, ap, ◌∙◌, none, some, List, [], ◌∷◌, ◌++◌, length, replicate,
  reverse, arith,
}
use protoconfig.Prelude.Int64.{inc64}
use protoconfig.Storage.Errors.{ok, err, err_not_found, err_conflict, err_not_found}
use protoconfig.Storage.Options.{GetOpt, PutOpt, WatchOpt, HistoryOpt}
use protoconfig.Storage.Stores.{WatchEvent}
use protoconfig.InMemory.ValueStore.{ValueStore, new_value_store, put, get, delete, history}
use protoconfig.InMemory.ValueStore.Log.{
  Entry, Log, capacity, entry_within, value_of, log_get, log_put, log_delete,
}
use protoconfig.InMemory.ValueStore.Refinement.{Refines, new-Refines, put-Refines, delete-Refines}
use protoconfig.InMemory.ValueStore.Runs.{Call, puts, run, log_run, step, log_step, run-Refines}
use protoconfig.InMemory.ValueStore.Guarantees.{get-run, get-put_retained, put_once}
use protoconfig.InMemory.ValueStore.Histories.{
  walked, revisions, log_at, history-at, history_omits_oldest,
}
use protoconfig.InMemory.ValueStore.Watch.{watch}
use protoconfig.InMemory.ValueStore.Watch.Streams.{events}
use protoconfig.InMemory.ValueStore.Watch.Delivery.{deliver, watch-run}

abbrev empty_log : Log ℕ
empty_log = []

abbrev empty_store : ValueStore ℕ
empty_store = new_value_store (λ x. x) 0

abbrev put_seven : Call ℕ
put_seven = puts 100 7 []

abbrev put_eight : Call ℕ
put_eight = puts 101 8 []

abbrev two_puts : List (Call ℕ)
two_puts = put_seven ∷ put_eight ∷ []

abbrev many_puts : List (Call ℕ)
many_puts = replicate 66 put_seven

abbrev seven : Entry ℕ
seven = record { timestamp = 100; value = some 7 }

abbrev eight : Entry ℕ
eight = record { timestamp = 101; value = some 8 }

empty-Refines : Refines empty_log empty_store
empty-Refines = new-Refines (λ x. x) 0

log_two : log_run two_puts empty_log ≡ eight ∷ seven ∷ []
unfolding log_run log_step log_put
log_two = refl

two-Refines : Refines (log_run two_puts empty_log) (run two_puts empty_store)
two-Refines = run-Refines two_puts empty_log empty_store (omega arith) empty-Refines

length_two : length (log_run two_puts empty_log) ≡ 2
length_two = ap (λ (l : Log ℕ). length l) log_two

many-Refines : Refines (log_run many_puts empty_log) (run many_puts empty_store)
many-Refines = run-Refines many_puts empty_log empty_store (omega arith) empty-Refines

length_many : length (log_run many_puts empty_log) ≡ 66
unfolding log_run log_step log_put
length_many = refl

get-run_example :
    get (GetOpt.with_revision 1 ∷ []) (run two_puts empty_store)
    ≡ log_get (record { revision = some 1; revision_out = false }) (λ x. x) (log_run two_puts [])
get-run_example =
    get-run (λ x. x) 0 two_puts (GetOpt.with_revision 1 ∷ []) (omega arith) (omega arith)

put-Refines_example :
    ((put 5 9 (PutOpt.with_revision 2 ∷ []) (run two_puts empty_store)).0
      ≡ (log_put 5 9
          (record { revision = some 2; revision_out = false })
          (log_run two_puts empty_log)).0)
    × Refines
        (log_put 5 9
          (record { revision = some 2; revision_out = false })
          (log_run two_puts empty_log)).1
        (put 5 9 (PutOpt.with_revision 2 ∷ []) (run two_puts empty_store)).1
put-Refines_example =
    put-Refines (log_run two_puts empty_log) (run two_puts empty_store) 5 9
      (PutOpt.with_revision 2 ∷ []) (omega (arith, length_two)) two-Refines

delete-Refines_example :
    ((delete 5 [] (run two_puts empty_store)).0
      ≡ (log_delete 5 (record { revision = none }) (log_run two_puts empty_log)).0)
    × Refines
        (log_delete 5 (record { revision = none }) (log_run two_puts empty_log)).1
        (delete 5 [] (run two_puts empty_store)).1
delete-Refines_example =
    delete-Refines (log_run two_puts empty_log) (run two_puts empty_store) 5 []
      (omega (arith, length_two)) two-Refines

first_put : (put 100 7 (PutOpt.with_revision_out true ∷ []) empty_store).0 ≡ ok (some 1)
unfolding put new_value_store inc64
first_put = refl

get-put_retained_example :
    get
      (GetOpt.with_revision 1 ∷ [])
      (run two_puts (put 100 7 (PutOpt.with_revision_out true ∷ []) empty_store).1)
    ≡ ok ((put 100 7 (PutOpt.with_revision_out true ∷ []) empty_store).1.clone_func 7, none)
get-put_retained_example =
    get-put_retained empty_log empty_store 100 7 (PutOpt.with_revision_out true ∷ []) 1 two_puts
      (omega arith) (omega arith) empty-Refines first_put

second_put : (put 5 9 (PutOpt.with_revision 2 ∷ []) (run two_puts empty_store)).0 ≡ ok none
unfolding put new_value_store inc64 run step
second_put = refl

put_once_example :
    (put 6 1
      (PutOpt.with_revision 2 ∷ [])
      (run two_puts (put 5 9 (PutOpt.with_revision 2 ∷ []) (run two_puts empty_store)).1)).0
    ≡ err err_conflict
put_once_example =
    put_once (log_run two_puts empty_log) (run two_puts empty_store) 5 6 9 1
      (PutOpt.with_revision 2 ∷ []) (PutOpt.with_revision 2 ∷ []) 2 none two_puts
      (omega (arith, length_two)) two-Refines (λ e. absurd (omega (arith, e))) refl refl second_put

oldest_of_many : entry_within capacity (log_run many_puts empty_log) (66 - walked) ≡ some seven
unfolding log_run log_step log_put entry_within
oldest_of_many = refl

latest_of_two : entry_within walked (log_run two_puts empty_log) 1 ≡ some seven
unfolding log_run log_step log_put entry_within
latest_of_two = refl

history-at_example :
    history (HistoryOpt.with_revision 1 ∷ []) (run two_puts empty_store)
    ≡ ok (
        reverse (
          revisions false
            (run two_puts empty_store).clone_func
            (run two_puts empty_store).zero_value
            (walked - (length (log_run two_puts empty_log) - 1))
            (log_at 1 (log_run two_puts empty_log))))
history-at_example =
    history-at (log_run two_puts empty_log) (run two_puts empty_store)
      (HistoryOpt.with_revision 1 ∷ []) seven 7 two-Refines latest_of_two refl

no_fifth : value_of (entry_within walked (log_run two_puts empty_log) 5) ≡ err err_not_found
unfolding log_run log_step log_put entry_within
no_fifth = refl

oldest_read :
    entry_within capacity
      (log_run many_puts empty_log)
      (length (log_run many_puts empty_log) - walked)
    ≡ some seven
oldest_read =
    ap (λ n. entry_within capacity (log_run many_puts empty_log) (n - walked)) length_many
    ∙ oldest_of_many

history_omits_oldest_example :
    (get
        (GetOpt.with_revision (length (log_run many_puts empty_log) - walked) ∷ [])
        (run many_puts empty_store)
      ≡ ok ((run many_puts empty_store).clone_func 7, none))
    × (history
          (HistoryOpt.with_revision (length (log_run many_puts empty_log) - walked) ∷ [])
          (run many_puts empty_store)
        ≡ ok [])
history_omits_oldest_example =
    history_omits_oldest (log_run many_puts empty_log) (run many_puts empty_store) seven 7
      (omega (arith, length_many)) many-Refines (omega (arith, length_many)) oldest_read refl

two-clone_func : (run two_puts empty_store).clone_func ≡ (λ x. x)
unfolding put new_value_store inc64 run step
two-clone_func = refl

watch-run_example :
    (first evs : List (WatchEvent ℕ)) × ((watch "w"
        (WatchOpt.with_revision 1 ∷ [])
        (run two_puts empty_store)).0
      ≡ ok first)
    × ((run two_puts
          (watch "w" (WatchOpt.with_revision 1 ∷ []) (run two_puts empty_store)).1).watches
        ≡ record { id = "w"; received = evs } ∷ deliver evs (run two_puts empty_store).watches)
    × (first ++ evs
        ≡ events
            (length (log_run two_puts (log_run two_puts empty_log)) + 1 - 1)
            (log_run two_puts (log_run two_puts empty_log)))
watch-run_example =
    watch-run (log_run two_puts empty_log) (run two_puts empty_store) "w"
      (WatchOpt.with_revision 1 ∷ []) 1 seven 7 two_puts two-Refines two-clone_func refl
      latest_of_two refl (omega (arith, length_two))
