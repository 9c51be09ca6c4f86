-- ===== src/Reactive/Bind/Fills.antt =====
-- reactive/bind.go: the values that a callback gets.
use protoconfig.Prelude.{
  ℕ, zero, suc, ◌≡◌, refl, sym, ap, ◌∙◌, some, List, [], ◌∷◌, length, replicate, arith, All,
  get_elem?,
}
use protoconfig.Reactive.Values.{Reading, invalid, of_single, of_message}
use protoconfig.Reactive.Bind.{set_value, filled, fill}

module _ {V : Type 0} where
  -- The values with those of the updates in their places, the latest in each.
  abbrev pub set_values : List (ℕ × Reading V) → List (Reading V) → List (Reading V)
  set_values [] vs = vs
  set_values ((i, v) ∷ us) vs = set_values us (set_value i v vs)

  -- Where an update says that there is no value, the reactive value has none when the callback is run.
  abbrev pub IsGone : List (Reading V) → ℕ × Reading V → Type 0
  IsGone current (i, invalid) = get_elem? current i ≡ some invalid
  IsGone current (i, of_single o) = Unit
  IsGone current (i, of_message m) = Unit

  length-set_value :
      (i : ℕ) (v : Reading V) (vs : List (Reading V)) → length (set_value i v vs) ≡ length vs
  length-set_value i v [] = refl
  length-set_value zero v (x ∷ xs) = refl
  length-set_value (suc i) v (x ∷ xs) = ground (arith, length-set_value i v xs)

  fill-set_value :
      (cs vs : List (Reading V)) (i : ℕ) (v : Reading V)
      → length cs ≡ length vs
      → IsGone cs (i, v)
      → fill cs (set_value i v vs) ≡ set_value i v (fill cs vs)
  fill-set_value cs [] i v same gone = refl
  fill-set_value [] (x ∷ vs) i v same gone = absurd (ground (arith, same))
  fill-set_value (c ∷ cs) (x ∷ vs) zero invalid same gone = ground (arith, gone)
  fill-set_value (c ∷ cs) (x ∷ vs) zero (of_single o) same gone = refl
  fill-set_value (c ∷ cs) (x ∷ vs) zero (of_message m) same gone = refl
  fill-set_value (c ∷ cs) (x ∷ vs) (suc i) invalid same gone =
      ap (λ rest. filled c x ∷ rest) (fill-set_value cs vs i invalid (ground (arith, same)) gone)
  fill-set_value (c ∷ cs) (x ∷ vs) (suc i) (of_single o) same gone =
      ap (λ rest. filled c x ∷ rest)
        (fill-set_value cs vs i (of_single o) (ground (arith, same)) tt)
  fill-set_value (c ∷ cs) (x ∷ vs) (suc i) (of_message m) same gone =
      ap (λ rest. filled c x ∷ rest)
        (fill-set_value cs vs i (of_message m) (ground (arith, same)) tt)

  pub fill-set_values :
      (us : List (ℕ × Reading V)) (cs vs : List (Reading V))
      → length cs ≡ length vs
      → All (IsGone cs) us
      → fill cs (set_values us vs) ≡ set_values us (fill cs vs)
  fill-set_values [] cs vs same gone = refl
  fill-set_values ((i, v) ∷ us) cs vs same gone =
      fill-set_values us cs (set_value i v vs) (same ∙ sym (length-set_value i v vs)) gone.1
      ∙ ap (set_values us) (fill-set_value cs vs i v same gone.0)

  pub length-replicate : (n : ℕ) (v : Reading V) → length (replicate n v) ≡ n
  length-replicate zero v = refl
  length-replicate (suc n) v = ground (arith, length-replicate n v)

  pub fill-replicate :
      (cs : List (Reading V)) (n : ℕ) → length cs ≡ n → fill cs (replicate n invalid) ≡ cs
  fill-replicate [] zero same = refl
  fill-replicate [] (suc n) same = absurd (ground (arith, same))
  fill-replicate (c ∷ cs) zero same = absurd (ground (arith, same))
  fill-replicate (c ∷ cs) (suc n) same =
      ap (λ rest. c ∷ rest) (fill-replicate cs n (ground (arith, same)))
