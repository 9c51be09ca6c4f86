-- ===== src/Storage/KvUtil/Laws.antt =====
-- storage/kvutil/kvutil.go: keys under a prefix, and values behind a codec.
use Prim.Native.String.{[] as empty, ◌∷◌ as ◌:::◌, ◌++◌, len, slice}
use text.Mathlib.Text.{starts_with}
use text.Mathlib.TextEquality.{starts_with_iff}
use text.Mathlib.TextLemmas.{append_assoc}
use text.Mathlib.TextPositions.{starts_with-append, slice-append_right, len-append}
use protoconfig.Prelude.{
  ◌≡◌, refl, sym, ap, ◌∙◌, subst, true, false, List, [], ◌∷◌, map, String, All, arith,
}
use protoconfig.Storage.Errors.{ok, ◌>>=◌}
use protoconfig.Storage.Options.{ListOpt}
use protoconfig.Storage.KvUtil.{
  KeyedStoreOf, trim_prefix, has_text, listed_key, event_key, with_prefix,
}

trim_prefix-append : (p s : String) → trim_prefix (p ++ s) p ≡ s
trim_prefix-append p s =
    rw (starts_with-append p s)
      (ap (λ n. slice (p ++ s) (len p) n) (len-append p s) ∙ slice-append_right p s)

has_text-starts_with : (s t : String) → starts_with s t ≡ true → has_text s t ≡ true
has_text-starts_with empty t h = h
has_text-starts_with (c ::: s) t h = ground (arith, h)

-- A key under the prefix is listed without it.
listed_key-append : (p k : String) → listed_key p (p ++ k) ≡ k
listed_key-append p k =
    rw (has_text-starts_with (p ++ k) p (starts_with-append p k)) (trim_prefix-append p k)

-- So what is listed is, with the prefix, what the base listed.
append-listed_key :
    (p q key : String) → starts_with key (p ++ q) ≡ true → p ++ listed_key p key ≡ key
append-listed_key p q key h =
    let (rest, split) = (starts_with_iff key (p ++ q)).0 h in
    subst (λ k. p ++ listed_key p k ≡ k) (sym (append_assoc p q rest) ∙ split)
      (ap (λ k. p ++ k) (listed_key-append p (q ++ rest)))

append-listed_keys :
    (p q : String) (keys : List String)
    → All (λ k. starts_with k (p ++ q) ≡ true) keys
    → map (λ k. p ++ k) (map (listed_key p) keys) ≡ keys
append-listed_keys p q [] h = refl
append-listed_keys p q (key ∷ keys) h =
    ground (arith, append-listed_key p q key h.0, append-listed_keys p q keys h.1)

-- ListKeys of a store under a prefix, over a base that lists keys under the prefix that it is given,
-- gives the keys of the base without the prefix: each, put after the prefix, is the key of the base, so
-- Get of a listed key reads the entry that was listed.
pub list_keys-with_prefix :
    {A : Type 0} (base : KeyedStoreOf A) (p q : String) (opts : List ListOpt) (s : base.State)
    (keys : List String)
    → ((k : String) (ks : List String)
        → base.list_keys k opts s ≡ ok ks
        → All (λ j. starts_with j k ≡ true) ks)
    → base.list_keys (p ++ q) opts s ≡ ok keys
    → (listed : List String) × ((with_prefix base p).list_keys q opts s ≡ ok listed)
      × (map (λ k. p ++ k) listed ≡ keys)
list_keys-with_prefix base p q opts s keys under h = (
  map (listed_key p) keys,
  ap (λ r. r >>= λ ks. ok (map (listed_key p) ks)) h,
  append-listed_keys p q keys (under (p ++ q) keys h),
)

-- For a key of the base that does not begin with the prefix once a slash is put before it, like each key
-- under a prefix that begins with no slash, ListKeys gives the key without the prefix, but an event of
-- Watch has it with the slash and the prefix.
watch_key_untrimmed :
    (p k : String)
    → starts_with ("/" ++ (p ++ k)) p ≡ false
    → (listed_key p (p ++ k) ≡ k) × (event_key p (p ++ k) ≡ "/" ++ (p ++ k))
watch_key_untrimmed p k h = (listed_key-append p k, rw h refl)
