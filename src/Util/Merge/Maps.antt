-- ===== src/Util/Merge/Maps.antt =====
-- util/merge/merge.go: the entries of a map that is copied.
use mathlib.Core.List.{append-nil, append_assoc}
use protoconfig.Prelude.{
  ◌≡◌, refl, sym, ap, ◌∙◌, subst, false, List, [], ◌∷◌, ◌++◌, String, str_eq, eq_iff, arith,
  Bool-cases, inl, inr,
}
use protoconfig.Util.Merge.{set_entry, set_entries}

module _ {A : Type 0} where
  abbrev Lacks : String → List (String × A) → Type 0
  Lacks k [] = Unit
  Lacks k ((j, v) ∷ es) = (str_eq j k ≡ false) × Lacks k es

  abbrev IsDistinct : List (String × A) → Type 0
  IsDistinct [] = Unit
  IsDistinct ((k, v) ∷ es) = Lacks k es × IsDistinct es

  set_entry-Lacks :
      (k j : String) (v : A) (es : List (String × A))
      → Lacks j es
      → str_eq k j ≡ false
      → Lacks j (set_entry k v es)
  set_entry-Lacks k j v [] h other = (other, tt)
  set_entry-Lacks k j v ((i, w) ∷ es) h other = elim (Bool-cases (str_eq i k)) [
    | inl p ↦ rw p h
    | inr p ↦ rw p (h.0, set_entry-Lacks k j v es h.1 other)
  ]

  set_entry-IsDistinct :
      (k : String) (v : A) (es : List (String × A)) → IsDistinct es → IsDistinct (set_entry k v es)
  set_entry-IsDistinct k v [] h = (tt, tt)
  set_entry-IsDistinct k v ((i, w) ∷ es) h = elim (Bool-cases (str_eq i k)) [
    | inl p ↦ rw p h
    | inr p ↦ rw p (
      set_entry-Lacks k i v es h.0 (ground (arith, p, eq_iff i k, eq_iff k i)),
      set_entry-IsDistinct k v es h.1,
    )
  ]

  set_entries-IsDistinct :
      (src dst : List (String × A)) → IsDistinct dst → IsDistinct (set_entries src dst)
  set_entries-IsDistinct [] dst h = h
  set_entries-IsDistinct ((k, v) ∷ src) dst h =
      set_entries-IsDistinct src (set_entry k v dst) (set_entry-IsDistinct k v dst h)

  set_entry-new :
      (k : String) (v : A) (es : List (String × A))
      → Lacks k es
      → set_entry k v es ≡ es ++ (k, v) ∷ []
  set_entry-new k v [] h = refl
  set_entry-new k v ((i, w) ∷ es) h =
      rw (h.0) (ap (λ rest. (i, w) ∷ rest) (set_entry-new k v es h.1))

  middle-Lacks :
      (dst src : List (String × A)) (k : String) (v : A)
      → IsDistinct (dst ++ (k, v) ∷ src)
      → Lacks k dst
  middle-Lacks [] src k v h = tt
  middle-Lacks ((i, w) ∷ dst) src k v h = (ends dst h.0, middle-Lacks dst src k v h.1)
    where
      ends : (es : List (String × A)) → Lacks i (es ++ (k, v) ∷ src) → str_eq i k ≡ false
      ends [] l = ground (arith, l.0, eq_iff i k, eq_iff k i)
      ends (e ∷ es) l = ends es l.1

  -- New keys are appended in order.
  set_entries-new :
      (src dst : List (String × A)) → IsDistinct (dst ++ src) → set_entries src dst ≡ dst ++ src
  set_entries-new [] dst h = sym (append-nil dst)
  set_entries-new ((k, v) ∷ src) dst h =
      ap (set_entries src) (set_entry-new k v dst (middle-Lacks dst src k v h))
      ∙ set_entries-new src (dst ++ (k, v) ∷ [])
          (subst IsDistinct (sym (append_assoc dst ((k, v) ∷ []) src)) h)
      ∙ append_assoc dst ((k, v) ∷ []) src

  -- A copy of a copy is the copy.
  pub set_entries_twice :
      (es : List (String × A)) → set_entries (set_entries es []) [] ≡ set_entries es []
  set_entries_twice es = set_entries-new (set_entries es []) [] (set_entries-IsDistinct es [] tt)
