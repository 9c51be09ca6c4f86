-- ===== src/Drivers/Crds/Older.antt =====
-- storage/drivers/crds/value_store.go: what Get gives at the revisions before a Put.
use protoconfig.Prelude.{
  ℕ, ◌+◌, ◌-◌, length-append, ◌==◌, ◌^◌, ◌<◌, ◌≤◌, ◌≡◌, ◌⊎◌, inl, inr, refl, sym, ap, subst, ◌∙◌,
  true, false, Bool-cases, Option, Option-cases, none, some, List, [], ◌∷◌, ◌++◌, String, length,
  drop, arith, if◌then◌else◌,
}
use protoconfig.Prelude.Int64.{Int64, gtb64_small}
use protoconfig.Storage.Errors.{Result, ok, err, panic, ◌>>=◌}
use protoconfig.Storage.Options.{
  PutOpt, PutOptions, GetOptions, apply_put, no_put_options, with_revision, with_revision_out,
}
use protoconfig.Server.ConfigTypes.{ConfigType, set_revision, unset_revision}
use protoconfig.Drivers.Crds.Api.{done, Object, Client}
use protoconfig.Drivers.Crds.Encoding.{HistoryCodec, encode_history, sized, max_annotation_size}
use protoconfig.Drivers.Crds.Encoding.Bounds.{total_size}
use protoconfig.Drivers.Crds.Encoding.RoundTrip.{decode-encode_history-all}
use protoconfig.Drivers.Crds.{
  Methods, version_number, newest, decoded, recorded, appended, append_spec_to_history,
  spec_revision, find_entry, get_entry, get_object, get_found, get_with, put, get,
}
use protoconfig.Drivers.Crds.Writes.{Written, created, updated, append-parts, put-Effect}
use protoconfig.Drivers.Crds.Histories.{history_of, noted, annotated, Ordered, recorded-revision}

module _ (C : ConfigType) {B : Type 0} (methods : Methods C.Spec B)
    (codec : HistoryCodec C.Spec) where
  find_entry-append_other :
      (r : Int64) (es : List C.Spec) (t : C.Spec)
      → (spec_revision C methods codec t == r) ≡ false
      → find_entry C methods codec r (es ++ t ∷ []) ≡ find_entry C methods codec r es
  unfolding find_entry
  find_entry-append_other r [] t h = rw h refl
  find_entry-append_other r (e ∷ es) t h =
      ap (λ x. if spec_revision C methods codec e == r then some e else x)
        (find_entry-append_other r es t h)

  find_entry-append_last :
      (v : Int64) (es : List C.Spec) (t : C.Spec)
      → Ordered C methods codec es v
      → spec_revision C methods codec t ≡ v
      → find_entry C methods codec v (es ++ t ∷ []) ≡ some t
  unfolding find_entry
  find_entry-append_last v [] t o h = ground (arith, h)
  find_entry-append_last v (e ∷ es) t (less, above, o) h =
      let ih = find_entry-append_last v es t o h in
      let other : (spec_revision C methods codec e == v) ≡ false = ground (arith, less) in
      rw other ih

  get_entry_older :
      (r v w : Int64) (found : Option C.Spec)
      → r ≤ v
      → v < w
      → w < 2 ^ 63
      → get_entry C methods codec r w found ≡ get_entry C methods codec r v found
  unfolding get_entry
  get_entry_older r v w (some e) low later small = refl
  get_entry_older r v w none low later small = ground (
    arith,
    gtb64_small r w (omega (arith, low, later, small)) small,
    gtb64_small r v (omega (arith, low, later, small)) (omega (arith, later, small)),
  )

  -- Get at the latest revision, and at another
  get_object_latest :
      (o : Object B) (v : Int64)
      → o.version ≡ some v
      → get_object C methods codec (some v) o
        ≡ ok (unset_revision C (methods.fill_config o.body), v)
  unfolding get_object
  get_object_latest o v is_v = (let self : (v == v) ≡ true = ground arith in rw is_v (rw self refl))

  get_object_other :
      (o : Object B) (r v : Int64) (es : List C.Spec)
      → o.version ≡ some v
      → (r == v) ≡ false
      → history_of C methods codec o ≡ ok es
      → get_object C methods codec (some r) o
        ≡ get_entry C methods codec r v (find_entry C methods codec r es)
  unfolding get_object
  get_object_other o r v es is_v other read = rw is_v (rw other (rw read refl))

  -- A config whose revision is set has the same fields besides it.
  abbrev pub SetUnset : Type 0
  SetUnset =
      (v : Int64) (t : Option ℕ) (c : C.Spec)
      → unset_revision C (set_revision C v t c) ≡ unset_revision C c

  -- What the history of an object has after a Put, where nothing is left out
  abbrev pub extended : List C.Spec → Object B → List C.Spec
  extended es o = es ++ recorded C methods codec o ∷ []

  recorded-unset :
      SetUnset
      → (o : Object B)
      → unset_revision C (recorded C methods codec o)
        ≡ unset_revision C (methods.fill_config o.body)
  unfolding recorded
  recorded-unset same o = elim (Option-cases o.version) [
    | inl p ↦ rw p refl
    | inr (v, p) ↦ rw p (same v _ (methods.fill_config o.body))
  ]

  get_object_older :
      (obj n : Object B) (es : List C.Spec) (r v w : Int64)
      → SetUnset
      → obj.version ≡ some v
      → n.version ≡ some w
      → history_of C methods codec obj ≡ ok es
      → history_of C methods codec n ≡ ok (extended es obj)
      → Ordered C methods codec es v
      → r ≤ v
      → v < w
      → w < 2 ^ 63
      → get_object C methods codec (some r) n ≡ get_object C methods codec (some r) obj
  unfolding get_entry
  get_object_older obj n es r v w same is_v is_w read read_n ordered low later small =
      let older : (r == w) ≡ false = ground (arith, low, later) in
      let at_n = get_object_other n r w (extended es obj) is_w older read_n in
      elim (Bool-cases (r == v)) [
        | inl p ↦
            (let is_r : r ≡ v = ground (arith, p) in
              at_n
              ∙ ap
                  (λ x.
                    get_entry C methods codec r w (find_entry C methods codec x (extended es obj)))
                  is_r
              ∙ ap (λ f. get_entry C methods codec r w f)
                  (find_entry-append_last v es (recorded C methods codec obj) ordered
                    (recorded-revision C methods codec obj v is_v))
              ∙ ap (λ c. ok (c, r)) (recorded-unset same obj)
              ∙ ap (λ x. ok (unset_revision C (methods.fill_config obj.body), x)) is_r
              ∙ sym (get_object_latest obj v is_v)
              ∙ ap (λ x. get_object C methods codec (some x) obj) (sym is_r))
        | inr p ↦
            at_n
            ∙ ap (λ f. get_entry C methods codec r w f)
                (find_entry-append_other r es (recorded C methods codec obj)
                  (ground (arith, p, recorded-revision C methods codec obj v is_v)))
            ∙ get_entry_older r v w (find_entry C methods codec r es) low later small
            ∙ sym (get_object_other obj r v es is_v p read)
      ]

  appended_ok :
      (now : ℕ) (obj kept : Object B) (text : String) (r : Result String)
      → r ≡ ok text
      → appended C methods codec now obj r ≡ ok kept
      → kept.annotations ≡ some (noted C methods codec text now)
  unfolding appended
  appended_ok now obj kept text (ok t) p h = ground (arith, h, p)
  appended_ok now obj kept text (err e) p h = absurd (ground (arith, p))
  appended_ok now obj kept text panic p h = absurd (ground (arith, p))

  appended_all :
      (api : Client B) (now : ℕ) (obj kept : Object B) (es : List C.Spec) (all : List (C.Spec × ℕ))
      (text : String)
      → history_of C methods codec obj ≡ ok es
      → length es < 64
      → sized codec (extended es obj) ≡ ok all
      → 14 + total_size codec all ≤ max_annotation_size
      → encode_history codec (extended es obj) ≡ ok text
      → append_spec_to_history C methods codec now obj ≡ ok kept
      → history_of C methods codec kept ≡ ok (extended es obj)
  unfolding decoded
  appended_all api now obj kept es all text read short sizes fits enc h =
      let (entries, dec, app) = append-parts C methods codec api now obj kept h in
      let same : entries ≡ es = ground (arith, dec, read) in
      let is_short : length (extended es obj) - 64 ≡ 0 =
        omega (arith, short, length-append es (recorded C methods codec obj ∷ [])) in
      let written : encode_history codec (newest (extended entries obj)) ≡ ok text =
        ap (λ x. encode_history codec (newest (extended x obj))) same
        ∙ ap (λ k. encode_history codec (drop k (extended es obj))) is_short
        ∙ enc in
      annotated C methods codec kept (some (noted C methods codec text now))
        (appended_ok now obj kept text _ written app)
      ∙ decode-encode_history-all codec (extended es obj) all text sizes fits enc

  -- What a Put has written over an object that was read
  Written-over :
      (api : Client B) (now : ℕ) (value : C.Spec) (o : PutOptions) (s : api.State)
      (n obj : Object B)
      → api.get s ≡ done obj
      → Written C methods codec api now value o s n
      → (kept : Object B) × (v w : Int64) × (append_spec_to_history C methods codec now obj
          ≡ ok kept)
        × (obj.version ≡ some v)
        × ((v < w) ⊎ (n ≡ obj))
        × (n.version ≡ some w)
        × (n.annotations ≡ kept.annotations)
  Written-over api now value o s _ obj got (created n none_got r is_v anns body) =
      absurd (ground (arith, got, none_got))
  Written-over api now value o s _ obj got
        (updated n obj' kept v r got' app obj_v lock later is_v anns body) =
      let same : obj' ≡ obj = cc (got, got') in
      (
        kept,
        v,
        r,
        subst (λ x. append_spec_to_history C methods codec now x ≡ ok kept) same app,
        subst (λ x. x.version ≡ some v) same obj_v,
        (elim later [ inl p ↦ inl p | inr p ↦ inr (p ∙ same) ]),
        is_v,
        anns,
      )

  -- A Put over an object of version v keeps what Get gives at a revision up to v, errors included:
  -- where the history is in the order of its revisions and below v, has fewer than 64 entries, is
  -- small enough to be written whole, and is written without an error, and versions are below 2 ^ 63.
  pub put_keeps_older :
      (api : Client B) (now : ℕ) (value : C.Spec) (opts : List PutOpt) (s : api.State)
      (out : Option Int64) (obj : Object B) (es : List C.Spec) (all : List (C.Spec × ℕ))
      (text : String) (r v : Int64)
      → SetUnset
      → api.get s ≡ done obj
      → obj.version ≡ some v
      → history_of C methods codec obj ≡ ok es
      → Ordered C methods codec es v
      → length es < 64
      → sized codec (extended es obj) ≡ ok all
      → 14 + total_size codec all ≤ max_annotation_size
      → encode_history codec (extended es obj) ≡ ok text
      → ((n : Object B)
          → api.get (put C methods codec api now value opts s).1 ≡ done n
          → version_number n.version < 2 ^ 63)
      → r ≤ v
      → (put C methods codec api now value opts s).0 ≡ ok out
      → get C methods codec api
          (with_revision r ∷ with_revision_out true ∷ [])
          (put C methods codec api now value opts s).1
        ≡ get C methods codec api (with_revision r ∷ with_revision_out true ∷ []) s
  unfolding get get_with get_found
  put_keeps_older api now value opts s out obj es all text r v same got obj_v read ordered short
        sizes fits enc small low h =
      let o = apply_put no_put_options opts in
      let asked : GetOptions = record { revision = some r; revision_out = true } in
      let (n, read_n, _, written) = put-Effect C methods codec api now value opts s out h in
      let (kept, v', w, app, obj_v', later, is_w, anns) =
        Written-over api now value o s n obj got written in
      let is_v : v' ≡ v = ground (arith, obj_v, obj_v') in
      let n_history =
        annotated C methods codec n kept.annotations anns
        ∙ appended_all api now obj kept es all text read short sizes fits enc app in
      let bound : w < 2 ^ 63 = subst (λ x. version_number x < 2 ^ 63) is_w (small n read_n) in
      ap (λ x. get_found C methods codec api asked x) read_n
      ∙ ap (λ x. x >>= λ found. ok (found.0, some found.1))
          (elim later [
            | inl p ↦
                get_object_older obj n es r v w same obj_v is_w read n_history ordered low
                  (omega (arith, p, is_v)) bound
            | inr p ↦ ap (get_object C methods codec (some r)) p
          ])
      ∙ ap (λ x. get_found C methods codec api asked x) (sym got)
