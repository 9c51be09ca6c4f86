-- ===== src/Core/Values/RoundTrip.antt =====
-- apis/core/v1/value.go: a value comes back from its message as it was.
use protoconfig.Prelude.{◌≡◌, refl, sym, ap, false, arith}
use protoconfig.Storage.Errors.{ok}
use protoconfig.Core.Values.{
  MapKey, equal_keys, Dynamic, Items, Entries, Value, Values, MapEntries, AnyCodec, invalid, bool,
  int32, int64, uint32, uint64, float32, float64, text, bytes, enum, message, list, mapping,
  no_items, item, no_entries, entry, no_data, bool_value, int32_value, int64_value, uint32_value,
  uint64_value, float32_value, float64_value, string_value, bytes_value, enum_value, message_value,
  list_value, map_value, no_values, value, no_map_entries, map_entry, new_map_key, to_map_key,
  append_item, set_entry, new_value, new_values, new_entries, to_value, to_items, to_entries,
}

to_map_key-new : (k : MapKey) → to_map_key (new_map_key k) ≡ ok k
unfolding to_map_key new_map_key
to_map_key-new k = ground arith

module _ {M : Type 0} where
  abbrev append_items : Items M → Items M → Items M
  append_items no_items ws = ws
  append_items (item v vs) ws = item v (append_items vs ws)

  append_items-item :
      (done : Items M) (v : Dynamic M) (vs : Items M)
      → append_items (append_item done v) vs ≡ append_items done (item v vs)
  unfolding append_item
  append_items-item no_items v vs = refl
  append_items-item (item w done) v vs = ap (item w) (append_items-item done v vs)

  append_items-none : (done : Items M) → append_items done no_items ≡ done
  append_items-none no_items = refl
  append_items-none (item w done) = ap (item w) (append_items-none done)

  abbrev append_entries : Entries M → Entries M → Entries M
  append_entries no_entries fs = fs
  append_entries (entry k v es) fs = entry k v (append_entries es fs)

  append_entries-none : (done : Entries M) → append_entries done no_entries ≡ done
  append_entries-none no_entries = refl
  append_entries-none (entry k v done) = ap (entry k v) (append_entries-none done)

  -- The key differs from those of the entries.
  unfoldable pub IsNew : MapKey → Entries M → Type 0
  IsNew k no_entries = Unit
  IsNew k (entry j v es) = (equal_keys j k ≡ false) × (equal_keys k j ≡ false) × IsNew k es

  -- None of the keys of the second is one of the first.
  AreApart : Entries M → Entries M → Type 0
  AreApart done no_entries = Unit
  AreApart done (entry k v es) = IsNew k done × AreApart done es

  none-AreApart : (es : Entries M) → AreApart no_entries es
  unfolding AreApart IsNew
  none-AreApart no_entries = tt
  none-AreApart (entry k v es) = (tt, none-AreApart es)

  append_entries-entry :
      (done : Entries M) (k : MapKey) (v : Dynamic M) (es : Entries M)
      → IsNew k done
      → append_entries (set_entry k v done) es ≡ append_entries done (entry k v es)
  unfolding set_entry IsNew
  append_entries-entry no_entries k v es new = refl
  append_entries-entry (entry j w done) k v es new =
      ground (arith, append_entries-entry done k v es new.2, new.0)

  set_entry-IsNew :
      (done : Entries M) (k j : MapKey) (v : Dynamic M)
      → equal_keys k j ≡ false
      → equal_keys j k ≡ false
      → IsNew j done
      → IsNew k done
      → IsNew j (set_entry k v done)
  unfolding set_entry IsNew
  set_entry-IsNew no_entries k j v hk hj new fresh = (hk, hj, tt)
  set_entry-IsNew (entry i w done) k j v hk hj new fresh =
      rw fresh.0 (new.0, new.1, set_entry-IsNew done k j v hk hj new.2 fresh.2)

  set_entry-AreApart :
      (es done : Entries M) (k : MapKey) (v : Dynamic M)
      → IsNew k es
      → IsNew k done
      → AreApart done es
      → AreApart (set_entry k v done) es
  unfolding AreApart IsNew
  set_entry-AreApart no_entries done k v new fresh apart = tt
  set_entry-AreApart (entry j w es) done k v new fresh apart = (
    set_entry-IsNew done k j v new.1 new.0 apart.0 fresh,
    set_entry-AreApart es done k v new.2 fresh apart.1,
  )

module _ {M Any : Type 0} (codec : AnyCodec M Any) where
  -- A message that packs into an Any and unpacks again.
  Packs : M → Type 0
  Packs m = (a : Any) × (codec.new m ≡ ok a) × (codec.unmarshal_new a ≡ ok m)

  -- The messages of a value pack, and no key of a map comes twice.
  unfoldable mutual
    unfolding Packs

    pub IsWellFormed : Dynamic M → Type 0
    IsWellFormed (message m) = Packs m
    IsWellFormed (list vs) = AreWellFormed vs
    IsWellFormed (mapping es) = HaveKeys es
    IsWellFormed _ = Unit

    pub AreWellFormed : Items M → Type 0
    AreWellFormed no_items = Unit
    AreWellFormed (item v vs) = IsWellFormed v × AreWellFormed vs

    pub HaveKeys : Entries M → Type 0
    HaveKeys no_entries = Unit
    HaveKeys (entry k v es) = IsNew k es × IsWellFormed v × HaveKeys es

  mutual
    unfolding IsWellFormed new_value to_value AreApart

    value_kept :
        (v : Dynamic M)
        → IsWellFormed v
        → (w : Value Any) × (new_value codec v ≡ ok w) × (to_value codec w ≡ ok v)
    value_kept invalid h = (no_data, refl, refl)
    value_kept (bool b) h = (bool_value b, refl, refl)
    value_kept (int32 n) h = (int32_value n, refl, refl)
    value_kept (int64 n) h = (int64_value n, refl, refl)
    value_kept (uint32 n) h = (uint32_value n, refl, refl)
    value_kept (uint64 n) h = (uint64_value n, refl, refl)
    value_kept (float32 n) h = (float32_value n, refl, refl)
    value_kept (float64 n) h = (float64_value n, refl, refl)
    value_kept (text s) h = (string_value s, refl, refl)
    value_kept (bytes bs) h = (bytes_value bs, refl, refl)
    value_kept (enum n) h = (enum_value n, refl, refl)
    value_kept (message m) h = (message_value h.0, ground (arith, h.1), ground (arith, h.2))
    value_kept (list vs) h =
        let (ws, made, back) = items_kept vs no_items h in
        (list_value ws, ground (arith, made), ground (arith, back))
    value_kept (mapping es) h =
        let (ws, made, back) = entries_kept es no_entries h (none-AreApart es) in
        (map_value ws, ground (arith, made), ground (arith, back))

    items_kept :
        (vs done : Items M)
        → AreWellFormed vs
        → (ws : Values Any) × (new_values codec vs ≡ ok ws)
          × (to_items codec ws done ≡ ok (append_items done vs))
    items_kept no_items done h = (no_values, refl, ap ok (sym (append_items-none done)))
    items_kept (item v vs) done h =
        let (w, made, back) = value_kept v h.0 in
        let (ws, made_rest, back_rest) = items_kept vs (append_item done v) h.1 in
        (
          value w ws,
          ground (arith, made, made_rest),
          ground (arith, back, back_rest, append_items-item done v vs),
        )

    entries_kept :
        (es done : Entries M)
        → HaveKeys es
        → AreApart done es
        → (ws : MapEntries Any) × (new_entries codec es ≡ ok ws)
          × (to_entries codec ws done ≡ ok (append_entries done es))
    entries_kept no_entries done h apart =
        (no_map_entries, refl, ap ok (sym (append_entries-none done)))
    entries_kept (entry k v es) done h apart =
        let (w, made, back) = value_kept v h.1 in
        let (ws, made_rest, back_rest) =
          entries_kept es (set_entry k v done) h.2
            (set_entry-AreApart es done k v h.0 apart.0 apart.1) in
        (
          map_entry (new_map_key k) w ws,
          ground (arith, made, made_rest),
          ground
              (arith, back, back_rest, append_entries-entry done k v es apart.0, to_map_key-new k),
        )

  -- A value whose messages pack and whose maps have no key twice becomes a message without a panic, and the
  -- message becomes that value again.
  pub new_value_kept :
      (v : Dynamic M)
      → IsWellFormed v
      → (w : Value Any) × (new_value codec v ≡ ok w) × (to_value codec w ≡ ok v)
  new_value_kept v h = value_kept v h
