-- ===== src/Reactive/Bind/Examples.antt =====
-- Instances for reactive/bind.go: a cache of ten revisions, which forgets the oldest one, and a binder of
-- two values.
use protoconfig.Prelude.{
  ℕ, ◌==◌, ◌≡◌, refl, Option, none, some, List, [], ◌∷◌, take, arith, if◌then◌else◌,
}
use protoconfig.Prelude.Int64.{Int64}
use protoconfig.Reactive.Values.{Reading, of_single}
use protoconfig.Reactive.Bind.{Lru, Binder, new_binder, run_group}
use protoconfig.Reactive.Bind.Laws.{run_group-once}

abbrev peek_in : {Q : Type 0} → Int64 → List (Int64 × Q) → Option Q
peek_in rev [] = none
peek_in rev ((r, q) ∷ c) = let rest = peek_in rev c in if r == rev then some q else rest

abbrev peek_or_add_in :
    {Q : Type 0} → Int64 → Q → List (Int64 × Q) → Option Q → Option Q × List (Int64 × Q)
peek_or_add_in rev q c (some p) = (some p, c)
peek_or_add_in rev q c none = (none, take 10 ((rev, q) ∷ c))

peek_or_add_found :
    {Q : Type 0} (rev : Int64) (q p : Q) (c : List (Int64 × Q))
    → peek_in rev c ≡ some p
    → peek_or_add_in rev q c (peek_in rev c) ≡ (some p, c)
peek_or_add_found rev q p c h = rw h refl

peek_or_add_added :
    {Q : Type 0} (rev : Int64) (q : Q) (c : List (Int64 × Q))
    → peek_in rev c ≡ none
    → ((peek_or_add_in rev q c (peek_in rev c)).0 ≡ none)
      × (peek_in rev (peek_or_add_in rev q c (peek_in rev c)).1 ≡ some q)
peek_or_add_added rev q c h = ground (arith, h)

abbrev lru : Lru ℕ
lru = record {
  Cache = List (Int64 × ℕ);
  new = [];
  peek = peek_in;
  peek_or_add = λ rev q c. peek_or_add_in rev q c (peek_in rev c);
  peek-new = λ rev. refl;
  peek_or_add-found = peek_or_add_found;
  peek_or_add-added = peek_or_add_added;
}

abbrev start : Binder ℕ lru
start = new_binder lru 2

abbrev current : List (Reading ℕ)
current = of_single (some 7) ∷ of_single none ∷ []

run_group-once_example :
    (run_group lru 5 ((0, of_single (some 3)) ∷ []) current start).called
    ≡ (of_single (some 3) ∷ of_single none ∷ []) ∷ []
unfolding new_binder
run_group-once_example =
    run_group-once lru 5 (0, of_single (some 3)) [] current start refl refl refl (tt, tt)
