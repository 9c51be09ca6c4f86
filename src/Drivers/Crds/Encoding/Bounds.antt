-- ===== src/Drivers/Crds/Encoding/Bounds.antt =====
-- storage/drivers/crds/value_store.go: which entries of a history are kept.
use mathlib.Core.List.{reverse-cons, reverse-append, reverse-reverse}
use protoconfig.Prelude.{
  ℕ, ◌+◌, ◌≡◌, ◌≤◌, ◌<◌, ◌⊎◌, inl, inr, refl, sym, ap, ◌∙◌, ltb, Bool-cases, List, [], ◌∷◌, ◌++◌,
  reverse, arith,
}
use protoconfig.Drivers.Crds.Encoding.{
  HistoryCodec, max_annotation_size, entry_size, fitting, truncated,
}

module _ {S : Type 0} (codec : HistoryCodec S) where
  -- The size that the entries count for
  abbrev pub total_size : List (S × ℕ) → ℕ
  total_size [] = 0
  total_size ((e, n) ∷ es) = entry_size codec n + total_size es

  abbrev pub entries_of : List (S × ℕ) → List S
  entries_of [] = []
  entries_of ((e, n) ∷ es) = e ∷ entries_of es

  -- The newest entries that fit, and the next one, which does not
  abbrev pub IsCut : ℕ → List (S × ℕ) → List S → Type 0
  IsCut size newest kept =
      (new old : List (S × ℕ)) × (newest ≡ new ++ old)
      × (kept ≡ entries_of new)
      × (size + total_size new ≤ max_annotation_size)
      × ((old ≡ [])
          ⊎ ((e : S) × (n : ℕ) × (rest : List (S × ℕ)) × (old ≡ (e, n) ∷ rest)
              × (max_annotation_size < size + total_size new + entry_size codec n)))

  fitting-IsCut :
      (size : ℕ) (newest : List (S × ℕ))
      → size ≤ max_annotation_size
      → IsCut size newest (fitting codec size newest)
  unfolding fitting
  fitting-IsCut size [] small = ([], [], refl, refl, omega (arith, small), inl refl)
  fitting-IsCut size ((e, n) ∷ es) small =
      elim (Bool-cases (ltb max_annotation_size (size + entry_size codec n))) [
        | inl p ↦ (
          [],
          (e, n) ∷ es,
          refl,
          ground (arith, p),
          omega (arith, small),
          inr (e, n, es, refl, ground (arith, p)),
        )
        | inr p ↦
            (let (new, old, split, kept, fits, next) =
                fitting-IsCut (size + entry_size codec n) es (ground (arith, p)) in
              (
                (e, n) ∷ new,
                old,
                ap (λ xs. (e, n) ∷ xs) split,
                ground (arith, p, kept),
                omega (arith, fits),
                elim next [
                  | inl q ↦ inl q
                  | inr (x, m, rest, q, over) ↦ inr (x, m, rest, q, omega (arith, over))
                ],
              ))
      ]

  pub total_size-append :
      (xs ys : List (S × ℕ)) → total_size (xs ++ ys) ≡ total_size xs + total_size ys
  total_size-append [] ys = omega arith
  total_size-append ((e, n) ∷ xs) ys = omega (arith, total_size-append xs ys)

  total_size-reverse : (xs : List (S × ℕ)) → total_size (reverse xs) ≡ total_size xs
  total_size-reverse [] = refl
  total_size-reverse ((e, n) ∷ xs) =
      ap total_size (reverse-cons (e, n) xs)
      ∙ total_size-append (reverse xs) ((e, n) ∷ [])
      ∙ omega (arith, total_size-reverse xs)

  pub entries_of-append :
      (xs ys : List (S × ℕ)) → entries_of (xs ++ ys) ≡ entries_of xs ++ entries_of ys
  entries_of-append [] ys = refl
  entries_of-append ((e, n) ∷ xs) ys = ap (λ r. e ∷ r) (entries_of-append xs ys)

  entries_of-reverse : (xs : List (S × ℕ)) → entries_of (reverse xs) ≡ reverse (entries_of xs)
  entries_of-reverse [] = refl
  entries_of-reverse ((e, n) ∷ xs) =
      ap entries_of (reverse-cons (e, n) xs)
      ∙ entries_of-append (reverse xs) ((e, n) ∷ [])
      ∙ ap (λ r. r ++ e ∷ []) (entries_of-reverse xs)
      ∙ sym (reverse-cons e (entries_of xs))

  -- The history that is kept is the longest run of the newest entries whose size is within the maximum:
  -- with the entry before it, if there is one, it would not be.
  pub truncated-longest :
      (es : List (S × ℕ))
      → (old new : List (S × ℕ)) × (es ≡ old ++ new)
        × (truncated codec es ≡ entries_of new)
        × (14 + total_size new ≤ max_annotation_size)
        × ((old ≡ [])
            ⊎ ((before : List (S × ℕ)) × (e : S) × (n : ℕ) × (old ≡ before ++ (e, n) ∷ [])
                × (max_annotation_size < 14 + total_size new + entry_size codec n)))
  truncated-longest es =
      let (new, old, split, kept, fits, next) = fitting-IsCut 14 (reverse es) (omega arith) in
      (
        reverse old,
        reverse new,
        sym (reverse-reverse es) ∙ ap reverse split ∙ reverse-append new old,
        ap reverse kept ∙ sym (entries_of-reverse new),
        omega (arith, fits, total_size-reverse new),
        elim next [
          | inl q ↦ inl (ap reverse q)
          | inr (e, n, rest, q, over) ↦ inr (
            reverse rest,
            e,
            n,
            ap reverse q ∙ reverse-cons (e, n) rest,
            omega (arith, over, total_size-reverse new),
          )
        ],
      )
