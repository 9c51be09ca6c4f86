-- ===== src/Util/Merge.antt =====
-- util/merge/merge.go: one message merged into another one. A value is a scalar, a list or a map; the
-- elements of lists and maps are copied. The merge of the protobuf runtime, which takes over where no
-- option is set, is not modelled, and neither are unknown fields. A duration or a timestamp is zero
-- when neither of its fields is set.
pub mod Maps
pub mod Plain
pub mod Laws
mod Examples
use protoconfig.Prelude.{
  ◌≡◌, is_some, Bool, true, false, ◌||◌, ◌&&◌, not, Option, none, some, List, [], ◌∷◌, ◌++◌, String,
  str_eq, if◌then◌else◌,
}
use protoconfig.Util.Messages.{
  Message, MessageType, ordinary, duration, timestamp, no_fields, single, nested, zero_message,
  has_fields,
}

-- The value of a field with no message
pub data FieldValue (A : Type 0) : Type 0 where
  scalar : A → FieldValue A
  elements : List A → FieldValue A
  entries : List (String × A) → FieldValue A

pub record MergeOptions : Type 0 where
  pub replace_lists : Bool
  pub replace_maps : Bool

-- MergeWithReplace
abbrev pub with_replace : MergeOptions
with_replace = record { replace_lists = true; replace_maps = true }

abbrev pub is_time : MessageType → Bool
is_time ordinary = false
is_time duration = true
is_time timestamp = true

-- What the descriptor of a message says of oneofs: the one that a field is a member of, if any, where the
-- field is that of a message below, given by the names of the fields that lead to it
abbrev pub Oneofs : Type 0
Oneofs = List String → String → Option String

abbrev pub oneof_of : Oneofs → String → Option String
oneof_of d f = d [] f

abbrev pub below : Oneofs → String → Oneofs
below d f path = d (f ∷ path)

-- Whether a field is another member of a oneof
abbrev pub is_other : Oneofs → String → String → String → Bool
is_other d f group g =
    if str_eq f g then false else elim (oneof_of d g) [ none ↦ false | some h ↦ str_eq h group ]

module _ {A : Type 0} where
  -- dst.Set(k, v)
  abbrev pub set_entry : String → A → List (String × A) → List (String × A)
  set_entry k v [] = (k, v) ∷ []
  set_entry k v ((j, w) ∷ es) =
      let rest = set_entry k v es in if str_eq j k then (j, v) ∷ es else (j, w) ∷ rest

  abbrev pub set_entries : List (String × A) → List (String × A) → List (String × A)
  set_entries [] dst = dst
  set_entries ((k, v) ∷ es) dst = set_entries es (set_entry k v dst)

  abbrev pub merge_list : MergeOptions → List A → List A → List A
  merge_list o dst src = if o.replace_lists then src else dst ++ src

  abbrev pub merge_map : MergeOptions → List (String × A) → List (String × A) → List (String × A)
  merge_map o dst src = set_entries src (if o.replace_maps then [] else dst)

  -- dst.Mutable(fd): a list or a map that is not set is empty.
  abbrev pub list_of : Option (FieldValue A) → List A
  list_of (some (elements xs)) = xs
  list_of _ = []

  abbrev pub map_of : Option (FieldValue A) → List (String × A)
  map_of (some (entries es)) = es
  map_of _ = []

  -- A field that is set in the source
  abbrev pub merge_value : MergeOptions → Option (FieldValue A) → FieldValue A → FieldValue A
  merge_value o dst (scalar v) = scalar v
  merge_value o dst (elements src) = elements (merge_list o (list_of dst) src)
  merge_value o dst (entries src) = entries (merge_map o (map_of dst) src)

  abbrev pub merge_single :
      MergeOptions → Option (FieldValue A) → Option (FieldValue A) → Option (FieldValue A)
  merge_single o dst none = dst
  merge_single o dst (some v) = some (merge_value o dst v)

  -- The start of mergeMessage: a duration or a timestamp that is zero sets the other one to zero.
  abbrev pub unless_zero_time :
      MessageType
      → Message (FieldValue A)
      → Message (FieldValue A)
      → Message (FieldValue A)
      → Message (FieldValue A)
  unless_zero_time k dst src merged =
      if is_time k && not (has_fields src) then zero_message dst else merged

  -- Whether another member of the oneof is set
  unfoldable pub sets_member : Oneofs → String → String → Message (FieldValue A) → Bool
  sets_member d f group no_fields = false
  sets_member d f group (single g b src) =
      let later = sets_member d f group src in
      if is_some b && is_other d f group g then true else later
  sets_member d f group (nested g j c y src) =
      let later = sets_member d f group src in if c && is_other d f group g then true else later

  abbrev pub sets_other : Oneofs → String → Message (FieldValue A) → Bool
  sets_other d f src = elim (oneof_of d f) [ none ↦ false | some group ↦ sets_member d f group src ]

  -- What Set and Mutable of the fields of the source do besides: they clear the other members of oneofs.
  unfoldable pub clear_others :
      Oneofs → Message (FieldValue A) → Message (FieldValue A) → Message (FieldValue A)
  clear_others d src no_fields = no_fields
  clear_others d src (single f a dst) =
      single f (if sets_other d f src then none else a) (clear_others d src dst)
  clear_others d src (nested f k b x dst) =
      let rest = clear_others d src dst in
      if sets_other d f src then nested f k false (zero_message x) rest else nested f k b x rest

  -- The fields of the source that are set, merged into the destination, less what they clear
  unfoldable pub merge_fields :
      Oneofs
      → MergeOptions
      → Message (FieldValue A)
      → Message (FieldValue A)
      → Message (FieldValue A)
  unfolding clear_others sets_member
  merge_fields d o (single f a dst) (single g b src) =
      single f (merge_single o a b) (merge_fields d o dst src)
  merge_fields d o (nested f k b x dst) (nested g j false y src) =
      nested f k b x (merge_fields d o dst src)
  merge_fields d o (nested f k b x dst) (nested g j true y src) =
      nested f k true
        (unless_zero_time j x y (clear_others (below d g) y (merge_fields (below d g) o x y)))
        (merge_fields d o dst src)
  merge_fields d o dst _ = dst

  -- MergeOptions.Merge of messages of one type
  unfoldable pub merge :
      Oneofs
      → MergeOptions
      → MessageType
      → Message (FieldValue A)
      → Message (FieldValue A)
      → Message (FieldValue A)
  unfolding merge_fields clear_others
  merge d o k dst src = unless_zero_time k dst src (clear_others d src (merge_fields d o dst src))

  unfoldable pub merge_with_replace :
      Oneofs
      → MessageType
      → Message (FieldValue A)
      → Message (FieldValue A)
      → Message (FieldValue A)
  unfolding merge
  merge_with_replace d k dst src = merge d with_replace k dst src
