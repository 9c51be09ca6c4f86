-- ===== src/Util/FieldMask/Leaves.antt =====
-- util/fieldmask/masks.go: the paths of a mask that end at a field with no message.
use Prim.Native.String.{[] as empty, ◌∷◌ as ◌:::◌}
use protoconfig.Prelude.{
  ◌≡◌, refl, Bool, true, false, none, List, [], ◌∷◌, String, str_eq, if◌then◌else◌, arith,
}
use protoconfig.Util.Messages.{Message, no_fields, single, nested}
use protoconfig.Util.FieldMask.Presence.{nonempty}

-- The first part, and the others, of what strings.Split gives with a dot
abbrev pub split_dots : String → String × List String
split_dots empty = ("", [])
split_dots (c ::: s) =
    let (first, rest) = split_dots s in
    if str_eq (c ::: empty) "." then ("", first ∷ rest) else (c ::: first, rest)

abbrev pub parts_of : String → List String
parts_of path = let (first, rest) = split_dots path in first ∷ rest

-- What ByName finds: no field, a field with no message, or one with a message of a type
pub data FieldKind (V : Type 0) : Type 0 where
  no_field terminal : FieldKind V
  of_type : Message V → FieldKind V

module _ {V : Type 0} where
  abbrev pub by_name : String → Message V → FieldKind V
  by_name f no_fields = no_field
  by_name f (single g o rest) = let later = by_name f rest in if str_eq g f then terminal else later
  by_name f (nested g k b m rest) =
      let later = by_name f rest in if str_eq g f then of_type m else later

  -- Whether the loop over the parts appends the path.
  unfoldable pub is_leaf : List String → Message V → Bool
  is_leaf [] type = false
  is_leaf (f ∷ parts) type =
      let same = is_leaf parts type in
      elim (by_name f type) [
        | no_field ↦ same
        | terminal ↦ if nonempty parts then same else true
        | of_type m ↦ is_leaf parts m
      ]

  pub leaves : List String → Message V → List String
  unfolding is_leaf
  leaves [] type = []
  leaves (path ∷ paths) type =
      let rest = leaves paths type in if is_leaf (parts_of path) type then path ∷ rest else rest

  -- A part that is no field of the type is skipped: the path counts as a leaf if what follows does.
  unknown_part_skipped :
      (f : String) (parts : List String) (type : Message V)
      → by_name f type ≡ no_field
      → is_leaf (f ∷ parts) type ≡ is_leaf parts type
  unfolding is_leaf
  unknown_part_skipped f parts type h = ground (arith, h)

-- So a path through a field that does not exist can be a leaf.
leaves_unknown :
    leaves {V = Unit {0}} ("nope.size" ∷ []) (single "size" none no_fields) ≡ "nope.size" ∷ []
unfolding leaves is_leaf
leaves_unknown = refl
