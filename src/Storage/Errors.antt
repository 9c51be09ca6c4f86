-- ===== src/Storage/Errors.antt =====
-- storage/errors.go. An error stands for the gRPC status that `status.Convert` gives for it: an
-- error that wraps another has the status of the one it wraps, an error without a status has the
-- code `unknown`. Messages are not modelled.
use protoconfig.Prelude.{
  Bool, true, false, ◌&&◌, List, [], ◌∷◌, String, str_eq, if◌then◌else◌, ◌≡◌, refl, arith,
}

-- The codes of gRPC.
pub data Code : Type 0 where
  ok_code canceled unknown invalid_argument deadline_exceeded not_found already_exists : Code
  permission_denied resource_exhausted failed_precondition aborted out_of_range : Code
  unimplemented internal unavailable data_loss unauthenticated : Code

-- google.rpc.ErrorInfo, without its metadata map.
pub record ErrorInfo : Type 0 where
  pub reason : String
  pub domain : String
  pub metadata : List (String × String)

-- A status detail is an ErrorInfo or a message of another type.
pub data Detail : Type 0 where
  info : ErrorInfo → Detail
  message : Detail

pub record Error : Type 0 where
  pub code : Code
  pub details : List Detail

-- What a call gives: a value, an error, or a panic.
pub data Result {ℓ} (A : Type ℓ) : Type ℓ where
  ok : A → Result A
  err : Error → Result A
  panic : Result A

infixl 5 ◌>>=◌ ◌>>◌
abbrev pub ◌>>=◌ {ℓ κ} : {A : Type ℓ} {B : Type κ} → Result A → (A → Result B) → Result B
ok a >>= f = f a
err e >>= f = err e
panic >>= f = panic

abbrev pub ◌>>◌ {ℓ} : {B : Type ℓ} → Result (Unit {0}) → Result B → Result B
m >> k = m >>= λ _. k

abbrev pub err_details_conflict : ErrorInfo
err_details_conflict = record { reason = "CONFLICT"; domain = ""; metadata = [] }

abbrev pub err_details_discontinuity : ErrorInfo
err_details_discontinuity = record { reason = "DISCONTINUITY"; domain = ""; metadata = [] }

abbrev pub err_not_found : Error
err_not_found = record { code = not_found; details = [] }

abbrev pub err_already_exists : Error
err_already_exists = record { code = already_exists; details = [] }

abbrev pub err_conflict : Error
err_conflict = record { code = aborted; details = info err_details_conflict ∷ [] }

-- status.Errorf(code, ...)
abbrev pub status_error : Code → Error
status_error c = record { code = c; details = [] }

-- An error made by fmt.Errorf with nothing wrapped.
abbrev pub plain_error : Error
plain_error = status_error unknown

abbrev is_not_found_code : Code → Bool
is_not_found_code not_found = true
is_not_found_code _ = false

abbrev is_already_exists_code : Code → Bool
is_already_exists_code already_exists = true
is_already_exists_code _ = false

abbrev is_aborted_code : Code → Bool
is_aborted_code aborted = true
is_aborted_code _ = false

abbrev is_ok_code : Code → Bool
is_ok_code ok_code = true
is_ok_code _ = false

unfoldable pub is_not_found : Error → Bool
is_not_found e = is_not_found_code e.code

unfoldable pub is_already_exists : Error → Bool
is_already_exists e = is_already_exists_code e.code

abbrev empty_metadata : List (String × String) → Bool
empty_metadata [] = true
empty_metadata (x ∷ xs) = false

-- proto.Equal(detail, ErrDetailsConflict)
abbrev equals_conflict : Detail → Bool
equals_conflict message = false
equals_conflict (info i) =
    str_eq i.reason "CONFLICT" && (str_eq i.domain "" && empty_metadata i.metadata)

unfoldable pub conflict_in : List Detail → Bool
conflict_in [] = false
conflict_in (d ∷ ds) = if equals_conflict d then true else conflict_in ds

unfoldable pub is_conflict : Error → Bool
unfolding conflict_in
is_conflict e = if is_aborted_code e.code then conflict_in e.details else false

abbrev says_discontinuity : Detail → Bool
says_discontinuity message = false
says_discontinuity (info i) = str_eq i.reason "DISCONTINUITY"

discontinuity_in : List Detail → Bool
discontinuity_in [] = false
discontinuity_in (d ∷ ds) = if says_discontinuity d then true else discontinuity_in ds

unfoldable pub is_discontinuity : Error → Bool
unfolding discontinuity_in
is_discontinuity e = if is_ok_code e.code then false else discontinuity_in e.details

-- Both parts of a chain that gives a value give one.
pub bind_ok {ℓ κ} :
    {A : Type ℓ} {B : Type κ} (m : Result A) (f : A → Result B) (b : B)
    → (m >>= f) ≡ ok b
    → (a : A) × (m ≡ ok a) × (f a ≡ ok b)
bind_ok (ok a) f b h = (a, refl, h)
bind_ok (err e) f b h = absurd (ground (arith, h))
bind_ok panic f b h = absurd (ground (arith, h))
