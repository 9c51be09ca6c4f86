-- ===== src/Drivers/Crds/Spoiled.antt =====
-- storage/drivers/crds/value_store.go: an error of encodeHistory, which Put ignores, and the Puts after it.
use protoconfig.Prelude.{ℕ, ◌≡◌, sym, ap, String, ◌∙◌, Option, some, List, [], ◌∷◌, ◌++◌, arith}
use protoconfig.Prelude.Int64.{Int64}
use protoconfig.Storage.Errors.{Error, Result, ok, err, panic, ◌>>=◌}
use protoconfig.Storage.Options.{PutOpt, PutOptions, apply_put, no_put_options}
use protoconfig.Server.ConfigTypes.{ConfigType}
use protoconfig.Drivers.Crds.Api.{done, Annotations, Object, Client}
use protoconfig.Drivers.Crds.Encoding.{HistoryCodec, encode_history, decode_history}
use protoconfig.Drivers.Crds.{
  Methods, newest, decoded, recorded, appended, append_spec_to_history, put_appended, put_found,
  put_with, put,
}
use protoconfig.Drivers.Crds.Writes.{Written, created, updated, append-parts, put-Effect}
use protoconfig.Drivers.Crds.Histories.{history_of, noted, annotated}

module _ (C : ConfigType) {B : Type 0} (methods : Methods C.Spec B) (codec : HistoryCodec C.Spec)
    (api : Client B) where
  put_panics :
      (now : ℕ) (value : C.Spec) (opts : List PutOpt) (s : api.State) (obj : Object B)
      → api.get s ≡ done obj
      → history_of C methods codec obj ≡ panic
      → put C methods codec api now value opts s ≡ (panic, s)
  unfolding put put_with put_found append_spec_to_history put_appended
  put_panics now value opts s obj got broken =
      ap (λ x. put_found C methods codec api now value (apply_put no_put_options opts) x s) got
      ∙ ap
          (λ d.
            put_appended C methods codec api value (apply_put no_put_options opts)
              (d >>= λ entries.
                appended C methods codec now obj
                  (encode_history codec (newest (entries ++ recorded C methods codec obj ∷ []))))
              s)
          broken

  -- The annotations of an object whose history is not encoded
  appended-error :
      (now : ℕ) (obj kept : Object B) (a : Annotations) (e : Error) (text : Result String)
      → obj.annotations ≡ some a
      → text ≡ err e
      → appended C methods codec now obj text ≡ ok kept
      → kept.annotations ≡ some (noted C methods codec "" now)
  unfolding appended
  appended-error now obj kept a e (ok text) has failed h = absurd (ground (arith, failed))
  appended-error now obj kept a e (err x) has failed h = ground (arith, h, has)
  appended-error now obj kept a e panic has failed h = absurd (ground (arith, failed))

  spoiled :
      (now : ℕ) (value : C.Spec) (o : PutOptions) (s : api.State) (n obj : Object B)
      (a : Annotations) (es : List C.Spec) (e : Error)
      → api.get s ≡ done obj
      → obj.annotations ≡ some a
      → history_of C methods codec obj ≡ ok es
      → encode_history codec (newest (es ++ recorded C methods codec obj ∷ [])) ≡ err e
      → Written C methods codec api now value o s n
      → history_of C methods codec n ≡ panic
  unfolding decoded decode_history
  spoiled now value o s _ obj a es e got has read failed (created n none_got r is_v anns body) =
      absurd (ground (arith, got, none_got))
  spoiled now value o s _ obj a es e got has read failed
        (updated n other kept v r got' app other_v lock later is_v anns body) =
      let same : other ≡ obj = cc (got, got') in
      let (entries, dec, added) =
        append-parts C methods codec api now obj kept
          (ap (append_spec_to_history C methods codec now) (sym same) ∙ app) in
      let is_es : entries ≡ es = ground (arith, dec, read) in
      annotated C methods codec n (some (noted C methods codec "" now)) (
        anns
        ∙ appended-error now obj kept a e _ has
            (ap (λ xs. encode_history codec (newest (xs ++ recorded C methods codec obj ∷ [])))
                is_es
              ∙ failed)
            added)

  -- Where a Put over an object with annotations meets an error of encoding the history, and succeeds all
  -- the same, each Put that follows it panics and changes nothing.
  pub later_put_panics :
      (now later : ℕ) (value next : C.Spec) (opts next_opts : List PutOpt) (s : api.State)
      (out : Option Int64) (obj : Object B) (a : Annotations) (es : List C.Spec) (e : Error)
      → api.get s ≡ done obj
      → obj.annotations ≡ some a
      → history_of C methods codec obj ≡ ok es
      → encode_history codec (newest (es ++ recorded C methods codec obj ∷ [])) ≡ err e
      → (put C methods codec api now value opts s).0 ≡ ok out
      → put C methods codec api later next next_opts (put C methods codec api now value opts s).1
        ≡ (panic, (put C methods codec api now value opts s).1)
  later_put_panics now later value next opts next_opts s out obj a es e got has read failed h =
      let (n, after, _, written) = put-Effect C methods codec api now value opts s out h in
      put_panics later next next_opts _ n after (
        spoiled now value (apply_put no_put_options opts) s n obj a es e got has read failed
          written)
