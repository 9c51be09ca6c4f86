-- ===== src/InMemory/KeyValueStore/Laws.antt =====
-- The keys of storage/inmemory/kv_store.go: reads after writes, independence of keys, and the effect
-- of watches and limits.
use protoconfig.Prelude.{
  ℕ, zero, suc, ◌+◌, ◌-◌, ◌^◌, ◌<◌, ◌≡◌, ◌≢◌, refl, ap, subst, ◌∙◌, true, Option, none, some, List,
  [], ◌∷◌, String, eq_iff, length, take, arith, All,
}
use Prim.Native.Nat.{max}
use text.Mathlib.Text.{starts_with}
use protoconfig.Prelude.Int64.{Int64, gtb64, gtb64_small}
use protoconfig.Storage.Errors.{Result, ok, err, panic, err_not_found}
use protoconfig.Storage.Options.{GetOpt, PutOpt, DeleteOpt, ListOpt, HistoryOpt}
use protoconfig.InMemory.ValueStore
use protoconfig.InMemory.ValueStore.{ValueStore, new_value_store}
use protoconfig.InMemory.ValueStore.Watch.Streams.{watch_unused}
use protoconfig.InMemory.Art.{Art}
use protoconfig.InMemory.KeyValueStore.{
  ActiveWatch, matches_key, add_watch, add_watches, gather, KeyValueStore, get, put, delete,
  history, list_keys, put_new, put_at, put_valid, delete_at, value_store_options,
}

-- A watch with a positive revision refuses an unused value store.
add_watch_unused :
    {A : Type 0} (w : ActiveWatch) (r : Int64) (clone : A → A) (z : A)
    → w.revision ≡ some r
    → gtb64 r 0 ≡ true
    → add_watch w (new_value_store clone z) ≡ (err err_not_found, new_value_store clone z)
unfolding add_watch
add_watch_unused w r clone z at positive =
    watch_unused clone z w.id (value_store_options w) r (ground (arith, at)) positive

add_watches_unused :
    {A : Type 0} (key : String) (w : ActiveWatch) (ws : List ActiveWatch) (r : Int64)
    (clone : A → A) (z : A)
    → matches_key w key ≡ true
    → w.revision ≡ some r
    → gtb64 r 0 ≡ true
    → add_watches key (w ∷ ws) (new_value_store clone z)
      ≡ (err err_not_found, new_value_store clone z)
unfolding add_watches
add_watches_unused key w ws r clone z covers at positive =
    ground (arith, covers, add_watch_unused w r clone z at positive)

get_unused :
    {A : Type 0} (clone : A → A) (z : A)
    → ValueStore.get [] (new_value_store clone z) ≡ err err_not_found
unfolding ValueStore.get new_value_store
get_unused clone z = refl

module _ {A : Type 0} where
  gather_unlimited :
      (n k : ℕ) (xs : List (String × ValueStore A)) → gather none n xs ≡ gather none k xs
  unfolding gather
  gather_unlimited n k [] = refl
  gather_unlimited n k ((key, vs) ∷ xs) =
      ground (arith, gather_unlimited n k xs, gather_unlimited (n + 1) (k + 1) xs)

  gather_limited :
      (m n k : ℕ) (xs : List (String × ValueStore A))
      → m < 2 ^ 63
      → n + length xs < 2 ^ 63
      → max 1 (m - n) ≡ k
      → gather (some m) n xs ≡ take k (gather none n xs)
  unfolding gather
  gather_limited m n zero [] hm hn q = refl
  gather_limited m n (suc k) [] hm hn q = refl
  gather_limited m n zero ((key, vs) ∷ xs) hm hn q = absurd (omega arith)
  gather_limited m n (suc k) ((key, vs) ∷ xs) hm hn q = ground (
    arith,
    gather_limited m n (suc k) xs hm (omega arith) q,
    gather_limited m (n + 1) k xs hm (omega arith),
    gtb64_small m (n + 1) hm (omega arith),
  )

  gather-under :
      (p : String) (limit : Option Int64) (n : ℕ) (xs : List (String × ValueStore A))
      → All (λ e. starts_with e.0 p ≡ true) xs
      → All (λ k. starts_with k p ≡ true) (gather limit n xs)
  unfolding gather
  gather-under p limit n [] h = tt
  gather-under p limit n ((key, vs) ∷ xs) h =
      ground (arith, h, gather-under p limit n xs h.1, gather-under p limit (n + 1) xs h.1)

module _ {A : Type 0} (art : Art (ValueStore A)) where
  -- Calls on one key leave what is stored under another.
  module _ (k j : String) (other : k ≢ j) where
    insert-search :
        (vs : ValueStore A) (t : art.Tree) → art.search j (art.insert k vs t) ≡ art.search j t
    insert-search vs t = art.search-insert k j vs t ∙ ground (arith, eq_iff k j)

    put_new-search :
        (now : ℕ) (value : A) (opts : List PutOpt) (m : KeyValueStore art)
        → art.search j (put_new art now k value opts m).1.keys ≡ art.search j m.keys
    unfolding put_new
    put_new-search now value opts m = go (add_watches k m.watches start).0
      where
        start : ValueStore A
        start = new_value_store m.clone_func m.zero_value

        watched : ValueStore A
        watched = (add_watches k m.watches start).1

        go :
            (r : Result (Unit {0}))
            → art.search j
                (let out : Result (Option Int64) × KeyValueStore art = elim r [
                  | ok _ ↦ put_at art now k value opts watched m
                  | err e ↦ (err e, record m { keys = art.insert k watched m.keys })
                  | panic ↦ (panic, record m { keys = art.insert k watched m.keys })
                ] in
                  out).1.keys
              ≡ art.search j m.keys
        go (ok _) = insert-search (ValueStore.put now value opts watched).1 m.keys
        go (err e) = insert-search watched m.keys
        go panic = insert-search watched m.keys

    put_valid-search :
        (now : ℕ) (value : A) (opts : List PutOpt) (m : KeyValueStore art)
        (o : Option (ValueStore A))
        → art.search j (put_valid art now k value opts o m).1.keys ≡ art.search j m.keys
    unfolding put_valid
    put_valid-search now value opts m none = put_new-search now value opts m
    put_valid-search now value opts m (some vs) =
        insert-search (ValueStore.put now value opts vs).1 m.keys

    put-search :
        (now : ℕ) (value : A) (opts : List PutOpt) (m : KeyValueStore art)
        → art.search j (put art now k value opts m).1.keys ≡ art.search j m.keys
    unfolding put
    put-search now value opts m =
        ground (arith, put_valid-search now value opts m (art.search k m.keys))

    delete_at-search :
        (now : ℕ) (opts : List DeleteOpt) (m : KeyValueStore art) (o : Option (ValueStore A))
        → art.search j (delete_at art now k opts o m).1.keys ≡ art.search j m.keys
    unfolding delete_at
    delete_at-search now opts m none = refl
    delete_at-search now opts m (some vs) = insert-search (ValueStore.delete now opts vs).1 m.keys

    delete-search :
        (now : ℕ) (opts : List DeleteOpt) (m : KeyValueStore art)
        → art.search j (delete art now k opts m).1.keys ≡ art.search j m.keys
    unfolding delete
    delete-search now opts m = ground (arith, delete_at-search now opts m (art.search k m.keys))

  -- ListKeys lists keys under its prefix.
  pub list_keys-under :
      (p : String) (opts : List ListOpt) (m : KeyValueStore art) (keys : List String)
      → list_keys art p opts m ≡ ok keys
      → All (λ k. starts_with k p ≡ true) keys
  unfolding list_keys
  list_keys-under p opts m keys h =
      subst (All (λ k. starts_with k p ≡ true)) (ap found h)
        (gather-under p _ 0 (art.for_each_prefix p m.keys) (art.for_each_prefix-under p m.keys))
    where
      found : Result (List String) → List String
      found (ok ks) = ks
      found (err e) = []
      found panic = []

  get-at :
      (j : String) (opts : List GetOpt) (m n : KeyValueStore art)
      → art.search j n.keys ≡ art.search j m.keys
      → get art j opts n ≡ get art j opts m
  unfolding get
  get-at j opts m n h = ground (arith, h)

  history-at :
      (j : String) (opts : List HistoryOpt) (m n : KeyValueStore art)
      → art.search j n.keys ≡ art.search j m.keys
      → history art j opts n ≡ history art j opts m
  unfolding history
  history-at j opts m n h = ground (arith, h)

  -- Put and Delete of one key change neither Get nor History of another.
  pub other_keys_kept :
      (k j : String) (now : ℕ) (value : A) (put_opts : List PutOpt) (delete_opts : List DeleteOpt)
      (get_opts : List GetOpt) (history_opts : List HistoryOpt) (m : KeyValueStore art)
      → k ≢ j
      → (get art j get_opts (put art now k value put_opts m).1 ≡ get art j get_opts m)
        × (history art j history_opts (put art now k value put_opts m).1
            ≡ history art j history_opts m)
        × (get art j get_opts (delete art now k delete_opts m).1 ≡ get art j get_opts m)
        × (history art j history_opts (delete art now k delete_opts m).1
            ≡ history art j history_opts m)
  other_keys_kept k j now value po do_ go ho m other =
      let p = put-search k j other now value po m in
      let d = delete-search k j other now do_ m in
      (
        get-at j go m (put art now k value po m).1 p,
        history-at j ho m (put art now k value po m).1 p,
        get-at j go m (delete art now k do_ m).1 d,
        history-at j ho m (delete art now k do_ m).1 d,
      )

  -- While the tree has fewer than 2 ^ 63 keys under the prefix, ListKeys with a limit that is not negative
  -- returns the first keys of the full list: as many as the limit says, but one for the limit 0.
  list_keys_limited :
      (prefix : String) (limit : Int64) (m : KeyValueStore art)
      → limit < 2 ^ 63
      → length (art.for_each_prefix prefix m.keys) < 2 ^ 63
      → (keys : List String) × (list_keys art prefix [] m ≡ ok keys)
        × (list_keys art prefix (ListOpt.with_limit limit ∷ []) m ≡ ok (take (max 1 limit) keys))
  unfolding list_keys
  list_keys_limited prefix limit m small few = (
    gather none 0 (art.for_each_prefix prefix m.keys),
    refl,
    ap ok (
        gather_limited limit 0 (max 1 limit) (art.for_each_prefix prefix m.keys) small (omega arith)
          (omega arith)),
  )

  -- While a watch with a positive revision, the first of the watches, covers a nonempty key that is
  -- not in the tree, Put of that key fails with not found and its value is lost: Get of the key is not
  -- found afterwards.
  pub put_new_watched :
      (now : ℕ) (key : String) (value : A) (opts : List PutOpt) (m : KeyValueStore art)
      (w : ActiveWatch) (ws : List ActiveWatch) (r : Int64)
      → key ≢ ""
      → art.search key m.keys ≡ none
      → m.watches ≡ w ∷ ws
      → matches_key w key ≡ true
      → w.revision ≡ some r
      → gtb64 r 0 ≡ true
      → ((put art now key value opts m).0 ≡ err err_not_found)
        × (get art key [] (put art now key value opts m).1 ≡ err err_not_found)
  unfolding put put_valid put_new get
  put_new_watched now key value opts m w ws r named fresh first covers at positive = (
    ap (λ (p : Result (Option Int64) × KeyValueStore art). p.0) done,
    ap (λ (p : Result (Option Int64) × KeyValueStore art). get art key [] p.1) done ∙ gone,
  )
    where
      unused : ValueStore A
      unused = new_value_store m.clone_func m.zero_value

      watched : add_watches key m.watches unused ≡ (err err_not_found, unused)
      watched =
          ap (λ vs. add_watches key vs unused) first
          ∙ add_watches_unused key w ws r m.clone_func m.zero_value covers at positive

      refused :
          put_new art now key value opts m
          ≡ (err err_not_found, record m { keys = art.insert key unused m.keys })
      refused =
          rw (watched, put_new)
            (ap
              (λ (p : Result (Unit {0}) × ValueStore A).
                let out : Result (Option Int64) × KeyValueStore art =
                  (err err_not_found, record m { keys = art.insert key p.1 m.keys }) in
                out)
              watched)

      done :
          put art now key value opts m
          ≡ (err err_not_found, record m { keys = art.insert key unused m.keys })
      done = ground (arith, eq_iff key "", fresh, refused)

      gone : get art key [] (record m { keys = art.insert key unused m.keys }) ≡ err err_not_found
      gone = ground (
        arith,
        eq_iff key "",
        eq_iff key key,
        art.search-insert key key unused m.keys,
        get_unused m.clone_func m.zero_value,
      )
