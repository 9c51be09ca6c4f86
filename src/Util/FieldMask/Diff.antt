-- ===== src/Util/FieldMask/Diff.antt =====
-- util/fieldmask/diff.go: the paths of the fields that differ between two messages. An absent message
-- holds the zero message of its type, which is what Diff compares the other one with.
use protoconfig.Prelude.{
  ◌||◌, eq_iff, ◌≡◌, refl, Bool, true, false, not, Option, none, some, List, [], ◌∷◌, String, arith,
  if◌then◌else◌, contains,
}
use mathlib.Core.List.{◌++◌ as ◌+++◌}
use Prim.Native.String.{◌++◌}
use protoconfig.Util.FieldMask.Presence.{nonempty}
use protoconfig.Util.Messages.{
  Message, no_fields, single, nested, zero_message, IsMessage, SameType,
}

abbrev pub changed_single : {V : Type 0} → (V → V → Bool) → Option V → Option V → Bool
changed_single equal none none = false
changed_single equal (some a) (some b) = not (equal a b)
changed_single equal _ _ = true

-- The paths of a field with a message, from those inside it, and then those of the fields after it.
abbrev pub nested_paths : Bool → Bool → String → List String → List String → List String
nested_paths false false path inner more = more
nested_paths true true path [] more = more
nested_paths true true path (p ∷ inner) more = (p ∷ inner) +++ (path ∷ more)
nested_paths _ _ path inner more = path ∷ (inner +++ more)

pub contains-append_left :
    (p : String) (xs ys : List String) → contains p xs ≡ true → contains p (xs +++ ys) ≡ true
contains-append_left p [] ys h = absurd (ground (arith, h))
contains-append_left p (x ∷ xs) ys h = ground (arith, h, contains-append_left p xs ys)

pub contains-append_right :
    (p : String) (xs ys : List String) → contains p ys ≡ true → contains p (xs +++ ys) ≡ true
contains-append_right p [] ys h = h
contains-append_right p (x ∷ xs) ys h = ground (arith, contains-append_right p xs ys h)

-- The paths of the fields after a message are among those that it gives.
pub nested_more :
    (b c : Bool) (path p : String) (inner more : List String)
    → contains p more ≡ true
    → contains p (nested_paths b c path inner more) ≡ true
nested_more false false path p inner more h = h
nested_more true true path p [] more h = h
nested_more true true path p (q ∷ inner) more h =
    contains-append_right p (q ∷ inner) (path ∷ more) (ground (arith, h))
nested_more true false path p inner more h = ground (arith, contains-append_right p inner more h)
nested_more false true path p inner more h = ground (arith, contains-append_right p inner more h)

-- So are the paths inside, unless both messages are absent,
pub nested_inner :
    (b c : Bool) (path p : String) (inner more : List String)
    → (b || c) ≡ true
    → contains p inner ≡ true
    → contains p (nested_paths b c path inner more) ≡ true
nested_inner false false path p inner more present h = absurd (ground (arith, present))
nested_inner true true path p [] more present h = absurd (ground (arith, h))
nested_inner true true path p (q ∷ inner) more present h =
    contains-append_left p (q ∷ inner) (path ∷ more) h
nested_inner true false path p inner more present h =
    ground (arith, contains-append_left p inner more h)
nested_inner false true path p inner more present h =
    ground (arith, contains-append_left p inner more h)

-- and the path of the field, if something inside differs.
pub nested_self :
    (b c : Bool) (path : String) (inner more : List String)
    → (b || c) ≡ true
    → nonempty inner ≡ true
    → contains path (nested_paths b c path inner more) ≡ true
nested_self false false path inner more present h = absurd (ground (arith, present))
nested_self true true path [] more present h = absurd (ground (arith, h))
nested_self true true path (q ∷ inner) more present h =
    contains-append_right path (q ∷ inner) (path ∷ more) (ground (arith, eq_iff path path))
nested_self true false path inner more present h = ground (arith, eq_iff path path)
nested_self false true path inner more present h = ground (arith, eq_iff path path)

nested_none :
    (path : String) (inner more : List String)
    → nested_paths true true path inner more ≡ []
    → (inner ≡ []) × (more ≡ [])
nested_none path [] more h = (refl, h)
nested_none path (p ∷ inner) more h = absurd (ground (arith, h))

module _ {V : Type 0} (equal : V → V → Bool) where
  unfoldable pub diff_fields : String → Message V → Message V → List String
  diff_fields prefix no_fields no_fields = []
  diff_fields prefix (single f a m) (single g b n) =
      let more = diff_fields prefix m n in
      if changed_single equal a b then (prefix ++ f) ∷ more else more
  diff_fields prefix (nested f k b x m) (nested g j c y n) =
      nested_paths b c (prefix ++ f) (diff_fields ((prefix ++ f) ++ ".") x y)
        (diff_fields prefix m n)
  diff_fields prefix _ _ = []

  unfoldable pub diff : Message V → Message V → List String
  unfolding diff_fields
  diff old new = diff_fields "" old new

  -- Messages of one type have the same zero message.
  pub zero-SameType : (m n : Message V) → SameType m n → zero_message m ≡ zero_message n
  zero-SameType no_fields no_fields same = refl
  zero-SameType (single f a m) (single g b n) same =
      ground (arith, same.0, zero-SameType m n same.1)
  zero-SameType (nested f k b x m) (nested g j c y n) same =
      ground (arith, same.0, same.1, zero-SameType x y same.2, zero-SameType m n same.3)
  zero-SameType no_fields (single g b n) same = elim same [ ]
  zero-SameType no_fields (nested g j c y n) same = elim same [ ]
  zero-SameType (single f a m) no_fields same = elim same [ ]
  zero-SameType (single f a m) (nested g j c y n) same = elim same [ ]
  zero-SameType (nested f k d x m) no_fields same = elim same [ ]
  zero-SameType (nested f k d x m) (single g b n) same = elim same [ ]

  -- Messages of one type without a difference are equal.
  pub diff_fields-none :
      (prefix : String) (m n : Message V)
      → ((a b : V) → equal a b ≡ true → a ≡ b)
      → SameType m n
      → IsMessage m
      → IsMessage n
      → diff_fields prefix m n ≡ []
      → m ≡ n
  unfolding diff_fields
  diff_fields-none prefix no_fields no_fields sound same hm hn h = refl
  diff_fields-none prefix (single f none m) (single g none n) sound same hm hn h =
      ground (arith, same, diff_fields-none prefix m n sound same.1 hm hn, h)
  diff_fields-none prefix (single f (some a) m) (single g (some b) n) sound same hm hn h =
      ground (arith, same, diff_fields-none prefix m n sound same.1 hm hn, h, sound a b)
  diff_fields-none prefix (single f none m) (single g (some b) n) sound same hm hn h =
      absurd (ground (arith, h))
  diff_fields-none prefix (single f (some a) m) (single g none n) sound same hm hn h =
      absurd (ground (arith, h))
  diff_fields-none prefix (nested f k false x m) (nested g j false y n) sound same hm hn h =
      ground (
        arith,
        same.0,
        same.1,
        zero-SameType x y same.2,
        hm.0,
        hn.0,
        diff_fields-none prefix m n sound same.3 hm.1 hn.1 h,
      )
  diff_fields-none prefix (nested f k true x m) (nested g j true y n) sound same hm hn h =
      let rest : diff_fields prefix m n ≡ [] → m ≡ n =
        diff_fields-none prefix m n sound same.3 hm.1 hn.1 in
      let inner : diff_fields ((prefix ++ f) ++ ".") x y ≡ [] → x ≡ y =
        diff_fields-none ((prefix ++ f) ++ ".") x y sound same.2 hm.0 hn.0 in
      ground (
        arith,
        same.0,
        same.1,
        rest,
        inner,
        nested_none (prefix ++ f) (diff_fields ((prefix ++ f) ++ ".") x y) (diff_fields prefix m n)
            h,
      )
  diff_fields-none prefix (nested f k true x m) (nested g j false y n) sound same hm hn h =
      absurd (ground (arith, h))
  diff_fields-none prefix (nested f k false x m) (nested g j true y n) sound same hm hn h =
      absurd (ground (arith, h))
  diff_fields-none prefix no_fields (single g b n) sound same hm hn h = elim same [ ]
  diff_fields-none prefix no_fields (nested g j c y n) sound same hm hn h = elim same [ ]
  diff_fields-none prefix (single f a m) no_fields sound same hm hn h = elim same [ ]
  diff_fields-none prefix (single f a m) (nested g j c y n) sound same hm hn h = elim same [ ]
  diff_fields-none prefix (nested f k d x m) no_fields sound same hm hn h = elim same [ ]
  diff_fields-none prefix (nested f k d x m) (single g b n) sound same hm hn h = elim same [ ]
