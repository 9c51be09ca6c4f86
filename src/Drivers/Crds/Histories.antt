-- ===== src/Drivers/Crds/Histories.antt =====
-- storage/drivers/crds/value_store.go: what a Put makes of the history of the object.
use mathlib.Core.List.{append_assoc, append-nil}
use protoconfig.Prelude.{
  ℕ, ◌-◌, ◌<◌, ◌≤◌, ◌≡◌, ◌⊎◌, inl, inr, refl, sym, ap, subst, ◌∙◌, Option, Option-cases, none, some,
  List, [], ◌∷◌, ◌++◌, String, length, drop, length-append, arith, zero, suc,
}
use protoconfig.Prelude.Int64.{Int64}
use protoconfig.Storage.Errors.{Result, ok, err, panic}
use protoconfig.Storage.Options.{PutOpt, PutOptions, apply_put, no_put_options}
use protoconfig.Server.Revisions.{revision_value, updated_revision_value}
use protoconfig.Server.ConfigTypes.{ConfigType}
use protoconfig.Drivers.Crds.Api.{done, Annotations, Object, Client}
use protoconfig.Drivers.Crds.Encoding.{HistoryCodec, encode_history, decode_history}
use protoconfig.Drivers.Crds.Encoding.RoundTrip.{decode-encode_history-suffix}
use protoconfig.Drivers.Crds.{
  Methods, annotations_of, newest, decoded, recorded, appended, spec_revision, put,
}
use protoconfig.Drivers.Crds.Writes.{Written, created, updated, append-parts, put-Effect}

drop-split :
    {A : Type 0} (k : ℕ) (es : List A)
    → (old : List A) × (es ≡ old ++ drop k es) × (length (drop k es) ≡ length es - k)
drop-split zero es = ([], refl, omega arith)
drop-split (suc k) [] = ([], refl, omega arith)
drop-split (suc k) (e ∷ es) =
    let (old, p, q) = drop-split k es in (e ∷ old, ap (λ xs. e ∷ xs) p, omega (arith, q))

newest-split :
    {A : Type 0} (es : List A)
    → (old : List A) × (es ≡ old ++ newest es) × (length (newest es) ≤ 64)
newest-split es = let (old, p, q) = drop-split (length es - 64) es in (old, p, omega (arith, q))

module _ (C : ConfigType) {B : Type 0} (methods : Methods C.Spec B)
    (codec : HistoryCodec C.Spec) where
  -- The history that an object is read with
  abbrev pub history_of : Object B → Result (List C.Spec)
  history_of o = decoded C methods codec (annotations_of o.annotations).history

  -- What can be read of the history of an object that was given these entries
  abbrev pub Keeps : List C.Spec → Object B → Type 0
  Keeps es kept =
      ((old new : List C.Spec) × (es ≡ old ++ new) × (history_of kept ≡ ok new))
      ⊎ (history_of kept ≡ panic)

  abbrev pub noted : String → ℕ → Annotations
  noted text now = record { history = some text; last_modified = some now }

  pub annotated :
      (kept : Object B) (a : Option Annotations)
      → kept.annotations ≡ a
      → history_of kept ≡ decoded C methods codec (annotations_of a).history
  annotated kept a p = ap (λ x. decoded C methods codec (annotations_of x).history) p

  appended-Keeps :
      (now : ℕ) (obj kept : Object B) (es : List C.Spec) (text : Result String)
      → encode_history codec es ≡ text
      → appended C methods codec now obj text ≡ ok kept
      → Keeps es kept
  unfolding appended decoded decode_history
  appended-Keeps now obj kept es (ok text) enc h =
      let p = annotated kept (some (noted text now)) (ground (arith, h)) in
      let (old, new, split, read) = decode-encode_history-suffix codec es text enc in
      inl (old, new, split, p ∙ read)
  appended-Keeps now obj kept es (err e) enc h = elim (Option-cases obj.annotations) [
    | inl p ↦ inl (es, [], sym (append-nil es), annotated kept none (ground (arith, h, p)))
    | inr (a, p) ↦ inr (annotated kept (some (noted "" now)) (ground (arith, h, p)))
  ]
  appended-Keeps now obj kept es panic enc h = absurd (ground (arith, h))

  -- Above lo es: the revisions of the entries are larger
  abbrev pub Above : Int64 → List C.Spec → Type 0
  Above lo [] = Unit
  Above lo (e ∷ es) = (lo < spec_revision C methods codec e) × Above lo es

  -- Entries in the order of their revisions, all of them before that of the object
  abbrev pub Ordered : List C.Spec → Int64 → Type 0
  Ordered [] v = Unit
  Ordered (e ∷ es) v =
      (spec_revision C methods codec e < v)
      × Above (spec_revision C methods codec e) es
      × Ordered es v

  Above-snoc :
      (lo : Int64) (es : List C.Spec) (t : C.Spec)
      → Above lo es
      → lo < spec_revision C methods codec t
      → Above lo (es ++ t ∷ [])
  Above-snoc lo [] t above less = (less, tt)
  Above-snoc lo (e ∷ es) t (p, above) less = (p, Above-snoc lo es t above less)

  Ordered-snoc :
      (es : List C.Spec) (t : C.Spec) (v w : Int64)
      → Ordered es v
      → spec_revision C methods codec t ≡ v
      → v < w
      → Ordered (es ++ t ∷ []) w
  Ordered-snoc [] t v w o p less = (omega (arith, p, less), tt, tt)
  Ordered-snoc (e ∷ es) t v w (q, above, o) p less = (
    omega (arith, q, less),
    Above-snoc (spec_revision C methods codec e) es t above (omega (arith, p, q)),
    Ordered-snoc es t v w o p less,
  )

  Ordered-suffix : (old new : List C.Spec) (v : Int64) → Ordered (old ++ new) v → Ordered new v
  Ordered-suffix [] new v o = o
  Ordered-suffix (e ∷ old) new v (q, above, o) = Ordered-suffix old new v o

  pub recorded-revision :
      (o : Object B) (v : Int64)
      → o.version ≡ some v
      → spec_revision C methods codec (recorded C methods codec o) ≡ v
  unfolding spec_revision recorded
  recorded-revision o v p = rw p (
      ap revision_value (C.get_revision-with_revision_field _ _)
      ∙ updated_revision_value v _ (C.get_revision (methods.fill_config o.body)))

  -- The history, where it can be read, has at most 64 entries, in the order of their revisions.
  abbrev pub InOrder : Object B → Type 0
  InOrder o =
      (es : List C.Spec)
      → history_of o ≡ ok es
      → (length es ≤ 64) × ((v : Int64) × (o.version ≡ some v) × Ordered es v)

  module _ (api : Client B) where
    Written-InOrder :
        (now : ℕ) (value : C.Spec) (o : PutOptions) (s : api.State) (n : Object B)
        → ((obj : Object B) → api.get s ≡ done obj → InOrder obj)
        → Written C methods codec api now value o s n
        → InOrder n
    unfolding decoded
    Written-InOrder now value o s _ before (created n got r is_v anns body) es h =
        let p : es ≡ [] = ground (arith, h, annotated n none anns) in
        rw p (omega arith, (r, is_v, tt))
    Written-InOrder now value o s _ before
          (updated n obj kept v r got app obj_v lock (inr same) is_v anns body) es h =
        subst InOrder (sym same) (before obj got) es h
    Written-InOrder now value o s _ before
          (updated n obj kept v r got app obj_v lock (inl later) is_v anns body) es h =
        let (entries, dec, app') = append-parts C methods codec api now obj kept app in
        let (small, (w, is_w, ordered)) = before obj got entries dec in
        let (old, split, size) = newest-split (entries ++ recorded C methods codec obj ∷ []) in
        let same_v : w ≡ v = ground (arith, is_w, obj_v) in
        let kept_split = appended-Keeps now obj kept _ _ refl app' in
        let same = annotated n kept.annotations anns in
        elim kept_split [
          | inl (old', new, split', read) ↦
              (let is_es : es ≡ new = ground (arith, h, same, read) in
                let whole = split ∙ ap (λ xs. old ++ xs) split' ∙ sym (append_assoc old old' new) in
                let snoc =
                  Ordered-snoc entries (recorded C methods codec obj) v r
                    (subst (λ x. Ordered entries x) same_v ordered) (recorded-revision obj v obj_v)
                    later in
                rw is_es (
                  omega (arith, size, ap length split', length-append old' new),
                  (
                    r,
                    is_v,
                    Ordered-suffix (old ++ old') new r (subst (λ xs. Ordered xs r) whole snoc),
                  ),
                ))
          | inr broken ↦ absurd (ground (arith, h, same, broken))
        ]

    -- A Put that gives a revision keeps the history of the object in order.
    pub put-InOrder :
        (now : ℕ) (value : C.Spec) (opts : List PutOpt) (s : api.State) (out : Option Int64)
        → ((obj : Object B) → api.get s ≡ done obj → InOrder obj)
        → (put C methods codec api now value opts s).0 ≡ ok out
        → (n : Object B) × (api.get (put C methods codec api now value opts s).1 ≡ done n)
          × InOrder n
    put-InOrder now value opts s out before h =
        let (n, read, _, written) = put-Effect C methods codec api now value opts s out h in
        (n, read, Written-InOrder now value (apply_put no_put_options opts) s n before written)
