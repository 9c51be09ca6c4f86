-- ===== src/Core/Values/Examples.antt =====
-- Instances for apis/core/v1/value.go: a list with a map and a message, which is a number.
use protoconfig.Prelude.{ℕ, zero, suc, ◌≡◌, refl, true}
use protoconfig.Storage.Errors.{Result, ok, err, plain_error}
use protoconfig.Core.Values.{
  Dynamic, Value, AnyCodec, int32, bool, text, message, list, mapping, no_items, item, no_entries,
  entry, string_key, new_value, to_value,
}
use protoconfig.Core.Values.RoundTrip.{IsWellFormed, IsNew, new_value_kept}

abbrev unpack : ℕ → Result ℕ
unpack zero = err plain_error
unpack (suc n) = ok n

abbrev codec : AnyCodec ℕ ℕ
codec = record { new = λ n. ok (suc n); unmarshal_new = unpack }

abbrev sample : Dynamic ℕ
sample = list (
    item (int32 3) (
      item (message 5) (
        item
          (mapping
            (entry (string_key "a") (bool true) (entry (string_key "b") (text "x") no_entries)))
          no_items)))

sample-IsWellFormed : IsWellFormed codec sample
unfolding IsWellFormed IsNew
sample-IsWellFormed = (tt, ((6, refl, refl), (((refl, refl, tt), tt, (tt, tt, tt)), tt)))

new_value_kept_example :
    (w : Value ℕ) × (new_value codec sample ≡ ok w) × (to_value codec w ≡ ok sample)
new_value_kept_example = new_value_kept codec sample sample-IsWellFormed
