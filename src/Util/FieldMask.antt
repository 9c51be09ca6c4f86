-- ===== src/Util/FieldMask.antt =====
-- util/fieldmask/masks.go: keeping and discarding the fields that a mask names.
pub mod Presence
pub mod Diff
pub mod Leaves
pub mod Laws
mod Examples
use protoconfig.Prelude.{
  Bool, true, false, Option, none, some, List, [], ◌∷◌, String, if◌then◌else◌, is_some,
}
use Prim.Native.String.{◌++◌}
use protoconfig.InMemory.Art.{Art, has_entries}
use protoconfig.Util.Messages.{Message, no_fields, single, nested, zero_message}

module _ (art : Art (Unit {0})) where
  -- The loop of AsTree
  insert_all : List String → art.Tree → art.Tree
  insert_all [] t = t
  insert_all (p ∷ ps) t = insert_all ps (art.insert p tt t)

  pub as_tree : List String → art.Tree
  unfolding insert_all
  as_tree paths = insert_all paths art.new

  -- maskHasFieldOrPrefix
  abbrev pub covers : String → art.Tree → Bool
  covers path t = has_entries (art.for_each_prefix path t)

  -- maskHasExactField
  abbrev pub names : String → art.Tree → Bool
  names path t = is_some (art.search path t)

module _ {V : Type 0} (art : Art (Unit {0})) where
  -- Whether a field was kept, and the message that is left.
  pub keep : String → art.Tree → Message V → Bool × Message V
  keep prefix t no_fields = (false, no_fields)
  keep prefix t (single f none rest) =
      let (any, left) = keep prefix t rest in (any, single f none left)
  keep prefix t (single f (some v) rest) =
      let (any, left) = keep prefix t rest in
      if covers art (prefix ++ f) t
      then (true, single f (some v) left)
      else (any, single f none left)
  keep prefix t (nested f k false m rest) =
      let (any, left) = keep prefix t rest in (any, nested f k false m left)
  keep prefix t (nested f k true m rest) =
      let (any, left) = keep prefix t rest in
      let (kept, inner) = keep ((prefix ++ f) ++ ".") t m in
      if covers art (prefix ++ f) t
      then (if names art (prefix ++ f) t
          then (true, nested f k true m left)
          else if kept
          then (true, nested f k true inner left)
          else (any, nested f k false (zero_message m) left))
      else (any, nested f k false (zero_message m) left)

  pub discard : String → art.Tree → Message V → Bool × Message V
  discard prefix t no_fields = (false, no_fields)
  discard prefix t (single f none rest) =
      let (any, left) = discard prefix t rest in (any, single f none left)
  discard prefix t (single f (some v) rest) =
      let (any, left) = discard prefix t rest in
      if covers art (prefix ++ f) t
      then (any, single f none left)
      else (true, single f (some v) left)
  discard prefix t (nested f k false m rest) =
      let (any, left) = discard prefix t rest in (any, nested f k false m left)
  discard prefix t (nested f k true m rest) =
      let (any, left) = discard prefix t rest in
      let (kept, inner) = discard ((prefix ++ f) ++ ".") t m in
      if covers art (prefix ++ f) t
      then (if names art (prefix ++ f) t
          then (any, nested f k false (zero_message m) left)
          else if kept
          then (true, nested f k true inner left)
          else (any, nested f k false (zero_message m) left))
      else (true, nested f k true m left)

  -- The mask may be nil.
  unfoldable pub exclusive_keep : Option (List String) → Message V → Message V
  unfolding keep as_tree
  exclusive_keep none m = m
  exclusive_keep (some paths) m = (keep "" (as_tree art paths) m).1

  unfoldable pub exclusive_discard : Option (List String) → Message V → Message V
  unfolding discard as_tree
  exclusive_discard none m = m
  exclusive_discard (some paths) m = (discard "" (as_tree art paths) m).1
