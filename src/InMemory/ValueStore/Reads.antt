-- ===== src/InMemory/ValueStore/Reads.antt =====
-- Get of storage/inmemory/value_store.go reads the log.
use protoconfig.Prelude.{
  ℕ, zero, suc, ◌+◌, ◌^◌, ◌<◌, ◌≡◌, refl, sym, subst, ◌∙◌, Option-cases, inl, inr, Option, none,
  some, List, [], ◌∷◌, ◌==◌, ltb, if◌then◌else◌, length, arith,
}
use protoconfig.Prelude.Int64.{Int64, gtb64_small}
use protoconfig.Storage.Errors.{Result, ok, err, ◌>>=◌, status_error, out_of_range}
use protoconfig.Storage.Options.{GetOptions, GetOpt, apply_get, no_get_options}
use protoconfig.InMemory.Ring.{Ring, cells}
use protoconfig.InMemory.ValueStore.{
  ValueStore, Element, find_back, get_element, get_result, get_with, get, revision_out,
}
use protoconfig.InMemory.ValueStore.Log.{
  Entry, Log, capacity, entry_within, value_of, read, log_get, element, window,
}
use protoconfig.InMemory.ValueStore.Refinement.{Refines}

-- A requested revision, if any, is not negative.
abbrev pub IsNonnegative : Option Int64 → Type 0
IsNonnegative none = Unit
IsNonnegative (some r) = r < 2 ^ 63

module _ {A : Type 0} where
  pub entry_within_above :
      (n : ℕ) (l : Log A) (r : Int64) → length l < r → entry_within n l r ≡ none
  unfolding entry_within
  entry_within_above zero l r h = refl
  entry_within_above (suc n) [] r h = refl
  entry_within_above (suc n) (e ∷ l) r h = ground (arith, entry_within_above n l r)

  -- What Get makes of an entry of the log.
  abbrev answer : GetOptions → (A → A) → Option (Entry A) → Int64 → Result (A × Option Int64)
  answer o clone e r = value_of e >>= λ v. ok (clone v, revision_out o.revision_out r)

  get_result-find_back :
      (o : GetOptions) (clone : A → A) (z : A) (r : Int64) (n : ℕ) (l : Log A)
      → get_result o clone (find_back r (window z n l)) ≡ answer o clone (entry_within n l r) r
  unfolding get_result find_back window entry_within
  get_result-find_back o clone z r zero l = refl
  get_result-find_back o clone z r (suc n) [] = refl
  get_result-find_back o clone z r (suc n) (e ∷ l) =
      ground (arith, get_result-find_back o clone z r n l, entry_within_above n l r)

  get_result-element :
      (o : GetOptions) (clone : A → A) (z : A) (e : Entry A) (r : Int64)
      → get_result o clone (some (element z e r)) ≡ answer o clone (some e) r
  unfolding get_result
  get_result-element o clone z e r = ground arith

  cells-window-head :
      (r : Ring (Option (Element A))) (z : A) (e : Entry A) (l : Log A)
      → cells r ≡ window z capacity (e ∷ l)
      → r.value ≡ some (element z e (length l + 1))
  unfolding window
  cells-window-head r z e l h = cc

  cells-window-tail :
      (r : Ring (Option (Element A))) (z : A) (e : Entry A) (l : Log A)
      → cells r ≡ window z capacity (e ∷ l)
      → r.others ≡ window z 63 l
  unfolding window
  cells-window-tail r z e l h = cc

  -- Get on a store whose latest node holds the latest entry.
  module _ (l : Log A) (e : Entry A) (s : ValueStore A) (n : ℕ) (small : length l + 1 < 2 ^ 63)
      (revision : s.revision ≡ length l + 1)
      (latest : s.values.value ≡ some (element s.zero_value e (length l + 1)))
      (older : s.values.others ≡ window s.zero_value n l) where
    get_element-at :
        (r : Int64)
        → r < 2 ^ 63
        → get_element (some r) s ≡ (
            if r == length l + 1
            then ok (some (element s.zero_value e (length l + 1)))
            else if ltb (length l + 1) r
            then err (status_error out_of_range)
            else ok (find_back r (window s.zero_value n l)))
    unfolding get_element
    get_element-at r asked =
        rw (latest, older, revision, gtb64_small r (length l + 1) asked small) (ground arith)

    get_element-latest : get_element none s ≡ ok (some (element s.zero_value e (length l + 1)))
    unfolding get_element
    get_element-latest = rw (latest, revision) (ground arith)

    get_with-latest :
        (o : GetOptions)
        → o.revision ≡ none
        → get_with o s ≡ answer o s.clone_func (some e) (length l + 1)
    unfolding get_with get_result
    get_with-latest o e' = ground (arith, e', get_element-latest)

    get_with-at :
        (o : GetOptions) (r : Int64)
        → o.revision ≡ some r
        → r < 2 ^ 63
        → get_with o s ≡ (
            if r == length l + 1
            then answer o s.clone_func (some e) r
            else if ltb (length l + 1) r
            then err (status_error out_of_range)
            else answer o s.clone_func (entry_within n l r) r)
    unfolding get_with
    get_with-at o r at asked = ground (
      arith,
      at,
      get_element-at r asked,
      get_result-element o s.clone_func s.zero_value e (length l + 1),
      get_result-find_back o s.clone_func s.zero_value r n l,
    )

  get_with-empty :
      (s : ValueStore A) (o : GetOptions)
      → s.revision ≡ 0
      → get_with o s ≡ log_get o s.clone_func []
  unfolding get_with get_element read entry_within
  get_with-empty s o e = ground (arith, e)

  entry_within-cons :
      (n : ℕ) (e : Entry A) (l : Log A) (r : Int64)
      → entry_within (suc n) (e ∷ l) r ≡ (if r == length l + 1 then some e else entry_within n l r)
  unfolding entry_within
  entry_within-cons n e l r = refl

  log_get-latest :
      (o : GetOptions) (clone : A → A) (e : Entry A) (l : Log A)
      → o.revision ≡ none
      → log_get o clone (e ∷ l) ≡ answer o clone (some e) (length l + 1)
  unfolding read
  log_get-latest o clone e l q = ground (arith, q, entry_within-cons 63 e l (length l + 1))

  log_get-at :
      (o : GetOptions) (clone : A → A) (e : Entry A) (l : Log A) (r : Int64)
      → o.revision ≡ some r
      → log_get o clone (e ∷ l) ≡ (
          if r == length l + 1
          then answer o clone (some e) r
          else if ltb (length l + 1) r
          then err (status_error out_of_range)
          else answer o clone (entry_within 63 l r) r)
  unfolding read
  log_get-at o clone e l r q = ground (arith, q, entry_within-cons 63 e l r)

  get_with-eq :
      (l : Log A) (s : ValueStore A) (o : GetOptions)
      → length l < 2 ^ 63
      → IsNonnegative o.revision
      → Refines l s
      → get_with o s ≡ log_get o s.clone_func l
  get_with-eq [] s o small asked h = get_with-empty s o h.revision
  get_with-eq (e ∷ l) s o small asked h = elim (Option-cases o.revision) [
    | inl q ↦
        get_with-latest l e s 63 small' revision latest older o q
        ∙ sym (log_get-latest o s.clone_func e l q)
    | inr (r, q) ↦
        get_with-at l e s 63 small' revision latest older o r q (subst IsNonnegative q asked)
        ∙ sym (log_get-at o s.clone_func e l r q)
  ]
    where
      small' : length l + 1 < 2 ^ 63
      small' = omega arith

      revision : s.revision ≡ length l + 1
      revision = omega (arith, h.revision)

      latest : s.values.value ≡ some (element s.zero_value e (length l + 1))
      latest = cells-window-head s.values s.zero_value e l h.nodes

      older : s.values.others ≡ window s.zero_value 63 l
      older = cells-window-tail s.values s.zero_value e l h.nodes

  -- Get on a store that holds a log reads the log.
  pub get-eq-log_get :
      (l : Log A) (s : ValueStore A) (opts : List GetOpt)
      → length l < 2 ^ 63
      → IsNonnegative (apply_get no_get_options opts).revision
      → Refines l s
      → get opts s ≡ log_get (apply_get no_get_options opts) s.clone_func l
  unfolding get
  get-eq-log_get l s opts small asked h =
      get_with-eq l s (apply_get no_get_options opts) small asked h
