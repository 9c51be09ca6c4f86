-- ===== src/Prelude/Int64.antt =====
-- Go's int64 as its bit pattern, a number below 2 ^ 64.
use protoconfig.Prelude.{ℕ, ◌+◌, ◌%◌, ◌^◌, ◌<◌, ◌≡◌, Bool, arith, ltb}

abbrev pub Int64 : Type 0
Int64 = ℕ

-- The signed order is the order of the patterns after the sign bit is flipped.
abbrev flip_sign : Int64 → ℕ
flip_sign x = (x + 2 ^ 63) % 2 ^ 64

-- a > b
unfoldable pub gtb64 : Int64 → Int64 → Bool
gtb64 a b = ltb (flip_sign b) (flip_sign a)

-- a + 1
unfoldable pub inc64 : Int64 → Int64
inc64 a = (a + 1) % 2 ^ 64

pub inc64_small : (a : Int64) → a + 1 < 2 ^ 63 → inc64 a ≡ a + 1
unfolding inc64
inc64_small a h = omega arith

pub gtb64_small : (a b : Int64) → a < 2 ^ 63 → b < 2 ^ 63 → gtb64 a b ≡ ltb b a
unfolding gtb64
gtb64_small a b ha hb = ground arith
