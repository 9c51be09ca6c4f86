-- ===== src/Util/Merge/Examples.antt =====
-- Instances for util/merge/merge.go: messages with a list, a map and a message below.
use protoconfig.Prelude.{ℕ, ◌≡◌, refl, true, false, none, some, [], ◌∷◌}
use protoconfig.Util.Messages.{Message, ordinary, no_fields, single, nested}
use protoconfig.Util.Merge.{
  Oneofs, clear_others, sets_member, FieldValue, scalar, elements, entries, merge, merge_fields,
  merge_with_replace,
}
use protoconfig.Util.Merge.Laws.{HasNoTime, merge_with_replace_assoc}

abbrev old : Message (FieldValue ℕ)
old = single "ports" (some (elements (1 ∷ 2 ∷ []))) (
    single "labels" (some (entries (("a", 1) ∷ ("b", 2) ∷ [])))
      (nested "tls" ordinary true (single "mode" (some (scalar 1)) no_fields) no_fields))

abbrev change : Message (FieldValue ℕ)
change =
    single "ports" (some (elements (3 ∷ [])))
      (single "labels" none (nested "tls" ordinary false (single "mode" none no_fields) no_fields))

abbrev labels : Message (FieldValue ℕ)
labels = single "ports" none (
    single "labels" (some (entries (("b", 5) ∷ [])))
      (nested "tls" ordinary true (single "mode" (some (scalar 4)) no_fields) no_fields))

abbrev no_oneofs : Oneofs
no_oneofs path f = none

merged :
    merge_with_replace no_oneofs ordinary old change
    ≡ single "ports" (some (elements (3 ∷ []))) (
        single "labels"
          (some (entries (("a", 1) ∷ ("b", 2) ∷ [])))
          (nested "tls" ordinary true (single "mode" (some (scalar 1)) no_fields) no_fields))
unfolding merge_with_replace merge merge_fields clear_others
merged = refl

merge_with_replace_assoc_example :
    merge_with_replace no_oneofs ordinary (merge_with_replace no_oneofs ordinary old change) labels
    ≡ merge_with_replace no_oneofs ordinary old
        (merge_with_replace no_oneofs ordinary change labels)
unfolding HasNoTime
merge_with_replace_assoc_example =
    merge_with_replace_assoc no_oneofs old change labels (λ path f. refl)
      (refl, (refl, (refl, refl, (refl, tt), tt))) (refl, (refl, (refl, refl, (refl, tt), tt)))
      (refl, tt) (refl, tt, tt)

-- A number and a flag that exclude each other
abbrev kinds : Oneofs
kinds path f = some "kind"

abbrev numbered : Message (FieldValue ℕ)
numbered = single "number" (some (scalar 7)) (single "flag" none no_fields)

abbrev flagged : Message (FieldValue ℕ)
flagged = single "number" none (single "flag" (some (scalar 1)) no_fields)

flag_clears_number : merge_with_replace kinds ordinary numbered flagged ≡ flagged
unfolding merge_with_replace merge merge_fields clear_others sets_member
flag_clears_number = refl
