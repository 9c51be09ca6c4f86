-- ===== src/Util/FieldMask/Laws.antt =====
-- The field masks of util/fieldmask/masks.go: keeping and discarding complement each other.
use protoconfig.Prelude.{
  ◌≡◌, refl, ap, Bool, true, false, Option, none, some, List, [], ◌∷◌, String, arith,
}
use Prim.Native.String.{◌++◌}
use text.Mathlib.Text.{starts_with}
use Prim.Native.String.append
use protoconfig.InMemory.Art.{Art, list_art}
use protoconfig.Util.Messages.{
  Message, no_fields, single, nested, zero_message, zero_message_twice, IsMessage,
}
use protoconfig.Util.FieldMask.{as_tree, keep, discard, exclusive_keep, exclusive_discard}

module _ {V : Type 0} (art : Art (Unit {0})) where
  -- Keeping and discarding give a message of the same type.
  keep-SameType :
      (prefix : String) (t : art.Tree) (m : Message V)
      → zero_message (keep art prefix t m).1 ≡ zero_message m
  unfolding keep discard
  keep-SameType prefix t no_fields = refl
  keep-SameType prefix t (single f none rest) = ground (arith, keep-SameType prefix t rest)
  keep-SameType prefix t (single f (some v) rest) = ground (arith, keep-SameType prefix t rest)
  keep-SameType prefix t (nested f k false m rest) = ground (arith, keep-SameType prefix t rest)
  keep-SameType prefix t (nested f k true m rest) = ground (
    arith,
    keep-SameType prefix t rest,
    keep-SameType ((prefix ++ f) ++ ".") t m,
    zero_message_twice m,
  )

  discard-SameType :
      (prefix : String) (t : art.Tree) (m : Message V)
      → zero_message (discard art prefix t m).1 ≡ zero_message m
  unfolding keep discard
  discard-SameType prefix t no_fields = refl
  discard-SameType prefix t (single f none rest) = ground (arith, discard-SameType prefix t rest)
  discard-SameType prefix t (single f (some v) rest) =
      ground (arith, discard-SameType prefix t rest)
  discard-SameType prefix t (nested f k false m rest) =
      ground (arith, discard-SameType prefix t rest)
  discard-SameType prefix t (nested f k true m rest) = ground (
    arith,
    discard-SameType prefix t rest,
    discard-SameType ((prefix ++ f) ++ ".") t m,
    zero_message_twice m,
  )

  keep-keep :
      (prefix : String) (t : art.Tree) (m : Message V)
      → keep art prefix t (keep art prefix t m).1 ≡ keep art prefix t m
  unfolding keep discard
  keep-keep prefix t no_fields = refl
  keep-keep prefix t (single f none rest) = ground (arith, keep-keep prefix t rest)
  keep-keep prefix t (single f (some v) rest) = ground (arith, keep-keep prefix t rest)
  keep-keep prefix t (nested f k false m rest) = ground (arith, keep-keep prefix t rest)
  keep-keep prefix t (nested f k true m rest) =
      ground (arith, keep-keep prefix t rest, keep-keep ((prefix ++ f) ++ ".") t m)

  discard-keep :
      (prefix : String) (t : art.Tree) (m : Message V)
      → IsMessage m
      → discard art prefix t (keep art prefix t m).1 ≡ (false, zero_message m)
  unfolding keep discard
  discard-keep prefix t no_fields h = refl
  discard-keep prefix t (single f none rest) h = ground (arith, discard-keep prefix t rest h)
  discard-keep prefix t (single f (some v) rest) h = ground (arith, discard-keep prefix t rest h)
  discard-keep prefix t (nested f k false m rest) h =
      ground (arith, discard-keep prefix t rest (h.1), h.0)
  discard-keep prefix t (nested f k true m rest) h = ground (
    arith,
    discard-keep prefix t rest (h.1),
    discard-keep ((prefix ++ f) ++ ".") t m (h.0),
    keep-SameType ((prefix ++ f) ++ ".") t m,
  )

  keep-discard :
      (prefix : String) (t : art.Tree) (m : Message V)
      → IsMessage m
      → keep art prefix t (discard art prefix t m).1 ≡ (false, zero_message m)
  unfolding keep discard
  keep-discard prefix t no_fields h = refl
  keep-discard prefix t (single f none rest) h = ground (arith, keep-discard prefix t rest h)
  keep-discard prefix t (single f (some v) rest) h = ground (arith, keep-discard prefix t rest h)
  keep-discard prefix t (nested f k false m rest) h =
      ground (arith, keep-discard prefix t rest (h.1), h.0)
  keep-discard prefix t (nested f k true m rest) h = ground (
    arith,
    keep-discard prefix t rest (h.1),
    keep-discard ((prefix ++ f) ++ ".") t m (h.0),
    discard-SameType ((prefix ++ f) ++ ".") t m,
  )

  -- ExclusiveKeep is idempotent: with the same mask it changes nothing the second time.
  exclusive_keep_twice :
      (mask : Option (List String)) (m : Message V)
      → exclusive_keep art mask (exclusive_keep art mask m) ≡ exclusive_keep art mask m
  unfolding exclusive_keep
  exclusive_keep_twice none m = refl
  exclusive_keep_twice (some paths) m =
      ap (λ (p : Bool × Message V). p.1) (keep-keep "" (as_tree art paths) m)

  -- For a mask that is not nil, nothing of a message is left by ExclusiveKeep and then
  -- ExclusiveDiscard of the same mask, nor by the two in the other order.
  pub keep_and_discard_clear :
      (paths : List String) (m : Message V)
      → IsMessage m
      → (exclusive_discard art (some paths) (exclusive_keep art (some paths) m) ≡ zero_message m)
        × (exclusive_keep art (some paths) (exclusive_discard art (some paths) m) ≡ zero_message m)
  unfolding exclusive_keep exclusive_discard
  keep_and_discard_clear paths m h = (
    ap (λ (p : Bool × Message V). p.1) (discard-keep "" (as_tree art paths) m h),
    ap (λ (p : Bool × Message V). p.1) (keep-discard "" (as_tree art paths) m h),
  )

-- With the tree as an association list, a set field is kept for a mask of one path whose text only
-- begins with the field's name.
keep_by_prefix :
    {V : Type 0} (path f : String) (v : V) (rest : Message V)
    → starts_with path f ≡ true
    → exclusive_keep (list_art (Unit {0})) (some (path ∷ [])) (single f (some v) rest)
      ≡ single f (some v) (exclusive_keep (list_art (Unit {0})) (some (path ∷ [])) rest)
unfolding exclusive_keep keep as_tree
keep_by_prefix path f v rest h = ground (arith, h, append.nil f)
