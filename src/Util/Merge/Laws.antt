-- ===== src/Util/Merge/Laws.antt =====
-- util/merge/merge.go: what a merge leaves.
use protoconfig.Prelude.{◌≡◌, refl, sym, ap, ◌∙◌, subst, true, false, Option, none, some, arith}
use protoconfig.Util.Messages.{
  Message, ordinary, duration, no_fields, single, nested, zero_message, IsMessage, SameType,
  zero-IsMessage,
}
use protoconfig.Util.Merge.Maps.{set_entries_twice}
use protoconfig.Util.Merge.Plain.{HasNoOneof, merge_plain, merge_with_replace-plain}
use protoconfig.Util.Merge.{
  Oneofs, FieldValue, scalar, elements, entries, MergeOptions, with_replace, is_time, merge_single,
  unless_zero_time, merge_fields, clear_others, merge, merge_with_replace,
}

module _ {A : Type 0} where
  -- A message with no duration and no timestamp in it
  unfoldable pub HasNoTime : Message (FieldValue A) → Type 0
  HasNoTime no_fields = Unit
  HasNoTime (single f o m) = HasNoTime m
  HasNoTime (nested f k b x m) = (is_time k ≡ false) × HasNoTime x × HasNoTime m

  merge_plain-zero :
      (o : MergeOptions) (dst src : Message (FieldValue A))
      → merge_plain o dst (zero_message src) ≡ dst
  unfolding merge_plain
  merge_plain-zero o (single f a dst) (single g b src) =
      ap (single f a) (merge_plain-zero o dst src)
  merge_plain-zero o (nested f k b x dst) (nested g j c y src) =
      ap (nested f k b x) (merge_plain-zero o dst src)
  merge_plain-zero o no_fields no_fields = refl
  merge_plain-zero o no_fields (single g b n) = refl
  merge_plain-zero o no_fields (nested g j c y n) = refl
  merge_plain-zero o (single f a m) no_fields = refl
  merge_plain-zero o (single f a m) (nested g j c y n) = refl
  merge_plain-zero o (nested f k d x m) no_fields = refl
  merge_plain-zero o (nested f k d x m) (single g b n) = refl

  merge_single_assoc :
      (a b c : Option (FieldValue A))
      → merge_single with_replace (merge_single with_replace a b) c
        ≡ merge_single with_replace a (merge_single with_replace b c)
  merge_single_assoc a b none = refl
  merge_single_assoc a b (some (scalar v)) = refl
  merge_single_assoc a b (some (elements xs)) = refl
  merge_single_assoc a b (some (entries es)) =
      ap (λ m. some (entries m)) (sym (set_entries_twice es))

  merge_plain_assoc :
      (a b c : Message (FieldValue A))
      → SameType a b
      → SameType b c
      → IsMessage b
      → HasNoTime c
      → merge_plain with_replace (merge_plain with_replace a b) c
        ≡ merge_plain with_replace a (merge_plain with_replace b c)
  unfolding merge_plain HasNoTime
  merge_plain_assoc no_fields no_fields no_fields ab bc hb hc = refl
  merge_plain_assoc (single f p a) (single g q b) (single h r c) ab bc hb hc =
      ground (arith, merge_single_assoc p q r, merge_plain_assoc a b c ab.1 bc.1 hb hc)
  merge_plain_assoc (nested f k p x a) (nested g j false y b) (nested h i false z c) ab bc hb hc =
      ap (nested f k p x) (merge_plain_assoc a b c ab.3 bc.3 hb.1 hc.2)
  merge_plain_assoc (nested f k p x a) (nested g j true y b) (nested h i false z c) ab bc hb hc =
      ap (nested f k true (unless_zero_time j x y (merge_plain with_replace x y)))
        (merge_plain_assoc a b c ab.3 bc.3 hb.1 hc.2)
  merge_plain_assoc (nested f k p x a) (nested g j false y b) (nested h i true z c) ab bc hb hc =
      let unset : merge_plain with_replace x y ≡ x =
        ap (merge_plain with_replace x) hb.0 ∙ merge_plain-zero with_replace x y in
      ground (
        arith,
        hc.0,
        ap is_time bc.1,
        unset,
        merge_plain_assoc x y z ab.2 bc.2 (subst IsMessage (sym hb.0) (zero-IsMessage y)) hc.1,
        merge_plain_assoc a b c ab.3 bc.3 hb.1 hc.2,
      )
  merge_plain_assoc (nested f k p x a) (nested g j true y b) (nested h i true z c) ab bc hb hc =
      ground (
        arith,
        hc.0,
        ap is_time bc.1,
        merge_plain_assoc x y z ab.2 bc.2 hb.0 hc.1,
        merge_plain_assoc a b c ab.3 bc.3 hb.1 hc.2,
      )
  merge_plain_assoc no_fields no_fields (single h r c) ab bc hb hc = elim bc [ ]
  merge_plain_assoc no_fields no_fields (nested h i _ z c) ab bc hb hc = elim bc [ ]
  merge_plain_assoc no_fields (single g q b) c ab bc hb hc = elim ab [ ]
  merge_plain_assoc no_fields (nested g j _ y b) c ab bc hb hc = elim ab [ ]
  merge_plain_assoc (single f p a) no_fields c ab bc hb hc = elim ab [ ]
  merge_plain_assoc (single f p a) (single g q b) no_fields ab bc hb hc = elim bc [ ]
  merge_plain_assoc (single f p a) (single g q b) (nested h i _ z c) ab bc hb hc = elim bc [ ]
  merge_plain_assoc (single f p a) (nested g j _ y b) c ab bc hb hc = elim ab [ ]
  merge_plain_assoc (nested f k p x a) no_fields c ab bc hb hc = elim ab [ ]
  merge_plain_assoc (nested f k p x a) (single g q b) c ab bc hb hc = elim ab [ ]
  merge_plain_assoc (nested f k p x a) (nested g j _ y b) no_fields ab bc hb hc = elim bc [ ]
  merge_plain_assoc (nested f k p x a) (nested g j _ y b) (single h r c) ab bc hb hc = elim bc [ ]

  -- MergeWithReplace is associative for messages of one type with no oneof, no duration and no timestamp:
  -- two messages can be merged into a config one after the other, or first with each other.
  pub merge_with_replace_assoc :
      (d : Oneofs) (a b c : Message (FieldValue A))
      → HasNoOneof d
      → SameType a b
      → SameType b c
      → IsMessage b
      → HasNoTime c
      → merge_with_replace d ordinary (merge_with_replace d ordinary a b) c
        ≡ merge_with_replace d ordinary a (merge_with_replace d ordinary b c)
  merge_with_replace_assoc d a b c none_of ab bc hb hc =
      let plain =
        λ (x y : Message (FieldValue A)). merge_with_replace-plain d ordinary x y none_of in
      plain (merge_with_replace d ordinary a b) c
      ∙ ap (λ x. merge_plain with_replace x c) (plain a b)
      ∙ merge_plain_assoc a b c ab bc hb hc
      ∙ ap (merge_plain with_replace a) (sym (plain b c))
      ∙ sym (plain a (merge_with_replace d ordinary b c))

  -- A duration of whole seconds that is merged over another one keeps the nanoseconds of that one.
  nanos_kept :
      (o : MergeOptions) (s t : A) (n : Option (FieldValue A))
      → merge
          (λ path f. none)
          o
          duration
          (single "seconds" (some (scalar s)) (single "nanos" n no_fields))
          (single "seconds" (some (scalar t)) (single "nanos" none no_fields))
        ≡ single "seconds" (some (scalar t)) (single "nanos" n no_fields)
  unfolding merge merge_fields clear_others
  nanos_kept o s t n = refl
