-- ===== src/Util/Merge/Plain.antt =====
-- util/merge/merge.go: merges of messages whose types have no oneof.
use protoconfig.Prelude.{◌≡◌, refl, ap, ◌∙◌, true, false, none, List, [], ◌∷◌, String}
use protoconfig.Util.Messages.{Message, MessageType, no_fields, single, nested}
use protoconfig.Util.Merge.{
  FieldValue, MergeOptions, with_replace, merge_single, unless_zero_time, Oneofs, oneof_of, below,
  sets_other, clear_others, merge_fields, merge, merge_with_replace,
}

-- No field is a member of a oneof, at any depth.
abbrev pub HasNoOneof : Oneofs → Type 0
HasNoOneof d = (path : List String) (f : String) → d path f ≡ none

module _ {A : Type 0} where
  sets_other-none :
      (d : Oneofs) (f : String) (src : Message (FieldValue A))
      → oneof_of d f ≡ none
      → sets_other d f src ≡ false
  sets_other-none d f src h = rw (h, sets_other) refl

  clear_others-none :
      (d : Oneofs) (src dst : Message (FieldValue A)) → HasNoOneof d → clear_others d src dst ≡ dst
  unfolding clear_others
  clear_others-none d src no_fields h = refl
  clear_others-none d src (single f a dst) h =
      rw (sets_other-none d f src (h [] f)) (ap (single f a) (clear_others-none d src dst h))
  clear_others-none d src (nested f k b x dst) h =
      rw (sets_other-none d f src (h [] f)) (ap (nested f k b x) (clear_others-none d src dst h))

  -- The merge without oneofs
  unfoldable pub merge_plain :
      MergeOptions → Message (FieldValue A) → Message (FieldValue A) → Message (FieldValue A)
  merge_plain o (single f a dst) (single g b src) =
      single f (merge_single o a b) (merge_plain o dst src)
  merge_plain o (nested f k b x dst) (nested g j false y src) =
      nested f k b x (merge_plain o dst src)
  merge_plain o (nested f k b x dst) (nested g j true y src) =
      nested f k true (unless_zero_time j x y (merge_plain o x y)) (merge_plain o dst src)
  merge_plain o dst _ = dst

  merge_fields-plain :
      (d : Oneofs) (o : MergeOptions) (dst src : Message (FieldValue A))
      → HasNoOneof d
      → merge_fields d o dst src ≡ merge_plain o dst src
  unfolding merge_fields merge_plain
  merge_fields-plain d o (single f a dst) (single g b src) h =
      ap (single f (merge_single o a b)) (merge_fields-plain d o dst src h)
  merge_fields-plain d o (nested f k b x dst) (nested g j false y src) h =
      ap (nested f k b x) (merge_fields-plain d o dst src h)
  merge_fields-plain d o (nested f k b x dst) (nested g j true y src) h =
      let inner : HasNoOneof (below d g) = (λ path. h (g ∷ path)) in
      let kept =
        clear_others-none (below d g) y (merge_fields (below d g) o x y) inner
        ∙ merge_fields-plain (below d g) o x y inner in
      ap (λ m. nested f k true (unless_zero_time j x y m) (merge_fields d o dst src)) kept
      ∙ ap (nested f k true (unless_zero_time j x y (merge_plain o x y)))
          (merge_fields-plain d o dst src h)
  merge_fields-plain d o no_fields src h = refl
  merge_fields-plain d o (single f a m) no_fields h = refl
  merge_fields-plain d o (single f a m) (nested g j c y n) h = refl
  merge_fields-plain d o (nested f k b x m) no_fields h = refl
  merge_fields-plain d o (nested f k b x m) (single g b' n) h = refl

  -- So is MergeWithReplace.
  pub merge_with_replace-plain :
      (d : Oneofs) (k : MessageType) (dst src : Message (FieldValue A))
      → HasNoOneof d
      → merge_with_replace d k dst src
        ≡ unless_zero_time k dst src (merge_plain with_replace dst src)
  unfolding merge_with_replace merge
  merge_with_replace-plain d k dst src h = ap (unless_zero_time k dst src) (
      clear_others-none d src (merge_fields d with_replace dst src) h
      ∙ merge_fields-plain d with_replace dst src h)
