-- ===== src/Drivers/Crds/Encoding/RoundTrip.antt =====
-- storage/drivers/crds/value_store.go: what decodeHistory reads of what encodeHistory wrote.
use text.Mathlib.Text.{starts_with}
use protoconfig.Prelude.{
  Bool-cases, refl, false, true, str_eq, length, map, ℕ, ◌+◌, ◌≡◌, ◌≤◌, inl, inr, sym, ap, ◌∙◌,
  List, [], ◌∷◌, ◌++◌, arith, String,
}
use protoconfig.Storage.Errors.{ok, ◌>>=◌, bind_ok}
use protoconfig.Drivers.Crds.Encoding.{
  HistoryCodec, WireEntry, is_empty, marshal_json, marshal_all, unmarshal_json, configs_of,
  decode_v2, max_annotation_size, sized, truncated, encode_history, decode_history,
}
use protoconfig.Drivers.Crds.Encoding.Bounds.{
  total_size, entries_of, total_size-append, entries_of-append, truncated-longest,
}

module _ {S : Type 0} (codec : HistoryCodec S) where
  sized-entries :
      (es : List S) (all : List (S × ℕ)) → sized codec es ≡ ok all → entries_of codec all ≡ es
  unfolding sized
  sized-entries [] all h = ground (arith, h)
  sized-entries (e ∷ es) all h =
      let (w, p, q) =
        bind_ok (codec.marshal e) (λ w. sized codec es >>= λ rest. ok ((e, length w) ∷ rest)) all
          h in
      let (rest, p', q') = bind_ok (sized codec es) (λ rest. ok ((e, length w) ∷ rest)) all q in
      let ih = sized-entries es rest p' in ground (arith, q', ih)

  marshal_json-ok :
      (e : S) (w : WireEntry)
      → marshal_json codec e ≡ ok w
      → (codec.is_nil e ≡ false)
        × ((bytes : List ℕ) × (codec.marshal e ≡ ok bytes)
            × (w ≡ record { wire = []; wirev2 = codec.compress bytes }))
  unfolding marshal_json
  marshal_json-ok e w h = elim (Bool-cases (codec.is_nil e)) [
    | inl p ↦ absurd (ground (arith, h, p))
    | inr p ↦
        (let (bytes, q, r) =
            bind_ok (codec.marshal e) (λ b. ok (record { wire = []; wirev2 = codec.compress b })) w
              (ground (arith, h, p)) in
          (p, (bytes, q, ground (arith, r))))
  ]

  marshalled_some :
      (e : S) (bytes : List ℕ)
      → codec.is_nil e ≡ false
      → codec.marshal e ≡ ok bytes
      → is_empty bytes ≡ false
  marshalled_some e [] live h = absurd (ground (arith, live, codec.marshal-nothing e h))
  marshalled_some e (b ∷ bs) live h = refl

  -- An entry is read back as it was written.
  unmarshal_json-marshal :
      (e : S) (w : WireEntry) → marshal_json codec e ≡ ok w → (unmarshal_json codec w).config ≡ e
  unfolding unmarshal_json
  unmarshal_json-marshal e w h =
      let (live, (bytes, m, is_w)) = marshal_json-ok e w h in
      ap (λ x. (unmarshal_json codec x).config) is_w
      ∙ rw (codec.compress-some bytes) (
          rw (codec.decompress-compress bytes) (
            rw (marshalled_some e bytes live m)
              (ap (λ x. x.0) (codec.unmarshal-marshal e bytes m))))

  unmarshal_all-marshal :
      (es : List S) (ws : List WireEntry)
      → marshal_all codec es ≡ ok ws
      → configs_of codec (map (unmarshal_json codec) ws) ≡ es
  unfolding marshal_all
  unmarshal_all-marshal [] ws h =
      let p : [] ≡ ws = ground (arith, h) in
      ap (λ x. configs_of codec (map (unmarshal_json codec) x)) (sym p)
  unmarshal_all-marshal (e ∷ es) ws h =
      let (w, p, q) =
        bind_ok (marshal_json codec e) (λ w. marshal_all codec es >>= λ rest. ok (w ∷ rest)) ws h in
      let (rest, p', q') = bind_ok (marshal_all codec es) (λ rest. ok (w ∷ rest)) ws q in
      let is_ws : w ∷ rest ≡ ws = ground (arith, q') in
      ap (λ x. configs_of codec (map (unmarshal_json codec) x)) (sym is_ws)
      ∙ ap (λ x. x ∷ configs_of codec (map (unmarshal_json codec) rest))
          (unmarshal_json-marshal e w p)
      ∙ ap (λ xs. e ∷ xs) (unmarshal_all-marshal es rest p')

  -- What the JSON of entries is read back as
  decode-encode :
      (es : List S) (text : String)
      → (marshal_all codec es >>= λ ws. codec.json_marshal ws) ≡ ok text
      → (str_eq text "" ≡ false) × (starts_with text "{" ≡ true) × (decode_v2 codec text ≡ es)
  unfolding decode_v2
  decode-encode es text h =
      let (ws, p, q) = bind_ok (marshal_all codec es) (λ ws. codec.json_marshal ws) text h in
      let (nonempty, brace) = codec.json-brace ws text q in
      (
        nonempty,
        brace,
        ap (λ x. configs_of codec (map (unmarshal_json codec) x.0))
              (codec.json_unmarshal-marshal ws text q)
            ∙ unmarshal_all-marshal es ws p,
      )

  -- A history that is small enough is not truncated.
  truncated_all :
      (all : List (S × ℕ))
      → 14 + total_size codec all ≤ max_annotation_size
      → truncated codec all ≡ entries_of codec all
  truncated_all all small =
      let (old, new, split, kept, fits, next) = truncated-longest codec all in
      let total = ap (total_size codec) split ∙ total_size-append codec old new in
      elim next [
        | inl none_old ↦ kept ∙ ap (entries_of codec) (sym (split ∙ ap (λ xs. xs ++ new) none_old))
        | inr (before, e, n, is_old, over) ↦
            (let last =
                ap (total_size codec) is_old ∙ total_size-append codec before ((e, n) ∷ []) in
              absurd (omega (arith, small, over, total, last)))
      ]

  decode-encode_history :
      (es : List S) (text : String)
      → encode_history codec es ≡ ok text
      → (all : List (S × ℕ)) × (sized codec es ≡ ok all)
        × (decode_history codec text ≡ ok (truncated codec all))
  unfolding encode_history decode_history
  decode-encode_history es text h =
      let (all, p, q) =
        bind_ok (sized codec es)
          (λ all. marshal_all codec (truncated codec all) >>= λ ws. codec.json_marshal ws) text h in
      let (nonempty, brace, read) = decode-encode (truncated codec all) text q in
      (all, p, rw nonempty (rw brace (ap (λ x. ok x) read)))

  -- The history that is read back is a run of the newest entries that were written.
  pub decode-encode_history-suffix :
      (es : List S) (text : String)
      → encode_history codec es ≡ ok text
      → (old new : List S) × (es ≡ old ++ new) × (decode_history codec text ≡ ok new)
  decode-encode_history-suffix es text h =
      let (all, p, q) = decode-encode_history es text h in
      let (old, new, split, kept, _, _) = truncated-longest codec all in
      (
        entries_of codec old,
        entries_of codec new,
        sym (sized-entries es all p)
            ∙ ap (entries_of codec) split
            ∙ entries_of-append codec old new,
        q ∙ ap (λ x. ok x) kept,
      )

  -- Entries whose sizes are within the maximum are read back as they were written.
  pub decode-encode_history-all :
      (es : List S) (all : List (S × ℕ)) (text : String)
      → sized codec es ≡ ok all
      → 14 + total_size codec all ≤ max_annotation_size
      → encode_history codec es ≡ ok text
      → decode_history codec text ≡ ok es
  decode-encode_history-all es all text sizes small h =
      let (all', p, q) = decode-encode_history es text h in
      let same : all' ≡ all = cc (p, sizes) in
      q
      ∙ ap (λ x. ok (truncated codec x)) same
      ∙ ap (λ x. ok x) (truncated_all all small ∙ sized-entries es all sizes)
