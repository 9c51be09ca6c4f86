-- ===== src/Util/Messages.antt =====
-- Messages as protoreflect shows them: the fields of the descriptor in order, each with its value. A
-- field with a scalar, a list or a map is set or not; a field with a message is present or not, and
-- where it is absent it holds the zero message of its type, which Get returns for it. Oneofs
-- are not part of it: a message has at most one member of each, which the merge is told of.
use protoconfig.Prelude.{
  ◌≡◌, refl, sym, ap, subst, arith, Bool, true, false, Option, none, String, ◌||◌, is_some,
}

-- The types of messages that util/merge tells apart.
pub data MessageType : Type 0 where
  ordinary duration timestamp : MessageType

pub data Message (V : Type 0) : Type 0 where
  no_fields : Message V
  single : String → Option V → Message V → Message V
  nested : String → MessageType → Bool → Message V → Message V → Message V

module _ {V : Type 0} where
  -- The message of the same type with no field set: Type().Zero()
  abbrev pub zero_message : Message V → Message V
  zero_message no_fields = no_fields
  zero_message (single f o rest) = single f none (zero_message rest)
  zero_message (nested f k b m rest) = nested f k false (zero_message m) (zero_message rest)

  -- Whether any field is set.
  abbrev pub has_fields : Message V → Bool
  has_fields no_fields = false
  has_fields (single f o rest) = is_some o || has_fields rest
  has_fields (nested f k b m rest) = b || has_fields rest

  -- An absent message is the zero message of its type.
  abbrev pub IsMessage : Message V → Type 0
  IsMessage no_fields = Unit
  IsMessage (single f o rest) = IsMessage rest
  IsMessage (nested f k true m rest) = IsMessage m × IsMessage rest
  IsMessage (nested f k false m rest) = (m ≡ zero_message m) × IsMessage rest

  -- Two messages of one type have the same fields.
  abbrev pub SameType : Message V → Message V → Type 0
  SameType no_fields no_fields = Unit
  SameType (single f a m) (single g b n) = (f ≡ g) × SameType m n
  SameType (nested f k b x m) (nested g j c y n) = (f ≡ g) × (k ≡ j) × SameType x y × SameType m n
  SameType _ _ = ⊥

  pub zero_message_twice : (m : Message V) → zero_message (zero_message m) ≡ zero_message m
  zero_message_twice no_fields = refl
  zero_message_twice (single f o rest) = ap (single f none) (zero_message_twice rest)
  zero_message_twice (nested f k b m rest) =
      ground (arith, zero_message_twice m, zero_message_twice rest)

  pub zero-IsMessage : (m : Message V) → IsMessage (zero_message m)
  zero-IsMessage no_fields = tt
  zero-IsMessage (single f o m) = zero-IsMessage m
  zero-IsMessage (nested f k b x m) = (sym (zero_message_twice x), zero-IsMessage m)

  -- What a field with a message holds, and the fields after it.
  pub nested-IsMessage :
      (f : String) (k : MessageType) (b : Bool) (x m : Message V)
      → IsMessage (nested f k b x m)
      → IsMessage x × IsMessage m × (b ≡ false → x ≡ zero_message x)
  nested-IsMessage f k true x m h = (h.0, h.1, λ q. absurd (ground (arith, q)))
  nested-IsMessage f k false x m h = (subst IsMessage (sym h.0) (zero-IsMessage x), h.1, λ q. h.0)
