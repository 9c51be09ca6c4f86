-- ===== src/Util/FieldMask/Presence.antt =====
-- util/fieldmask/masks.go: the masks of the fields that are set, that are not set, and of all fields.
-- Normalize is the library's.
use protoconfig.Prelude.{
  ◌≡◌, refl, sym, ap, ◌∙◌, subst, Bool, true, false, none, some, List, [], ◌∷◌, map, String, All,
  arith, inl, inr, ◌⊎◌, contains, eq_iff,
}
use mathlib.Core.List.{◌++◌ as ◌+++◌}
use Prim.Native.String.{◌++◌}
use Prim.Native.String.append
use text.Mathlib.Text.{starts_with}
use text.Mathlib.TextLemmas.{append_assoc, append-nil}
use text.Mathlib.TextPositions.{starts_with-append}
use protoconfig.InMemory.Art.{Art, list_art}
use protoconfig.Util.Messages.{Message, MessageType, no_fields, single, nested, zero_message}
use protoconfig.Util.FieldMask.{insert_all, as_tree, covers, keep, exclusive_keep}

-- "%s.%s"
abbrev pub dotted : String → String → String
dotted f path = f ++ ("." ++ path)

module _ {V : Type 0} where
  -- rangePresentMessageFields
  unfoldable pub present_fields : Message V → List String
  present_fields no_fields = []
  present_fields (single f none rest) = present_fields rest
  present_fields (single f (some v) rest) = f ∷ present_fields rest
  present_fields (nested f k false m rest) = present_fields rest
  present_fields (nested f k true m rest) =
      map (dotted f) (present_fields m) +++ present_fields rest

  -- rangeAbsentMessageFields
  pub absent_fields : Message V → List String
  absent_fields no_fields = []
  absent_fields (single f none rest) = f ∷ absent_fields rest
  absent_fields (single f (some v) rest) = absent_fields rest
  absent_fields (nested f k false m rest) = f ∷ absent_fields rest
  absent_fields (nested f k true m rest) = map (dotted f) (absent_fields m) +++ absent_fields rest

  -- rangeDescriptorFields
  pub descriptor_fields : Message V → List String
  descriptor_fields no_fields = []
  descriptor_fields (single f o rest) = f ∷ descriptor_fields rest
  descriptor_fields (nested f k b m rest) =
      map (dotted f) (descriptor_fields m) +++ descriptor_fields rest

module _ {V : Type 0} (normalize : List String → List String) where
  unfoldable pub by_presence : Message V → List String
  unfolding present_fields
  by_presence m = normalize (present_fields m)

  unfoldable pub by_absence : Message V → List String
  unfolding absent_fields
  by_absence m = normalize (absent_fields m)

  pub all_fields : Message V → List String
  unfolding descriptor_fields
  all_fields m = normalize (descriptor_fields m)

abbrev pub nonempty {ℓ} : {A : Type ℓ} → List A → Bool
nonempty [] = false
nonempty (x ∷ xs) = true

nonempty-append :
    (g : String → String) (ps qs : List String)
    → nonempty ps ≡ true
    → nonempty (map g ps +++ qs) ≡ true
nonempty-append g [] qs h = absurd (ground (arith, h))
nonempty-append g (p ∷ ps) qs h = refl

module _ {V : Type 0} where
  -- Every present message has a field that is set, down to one that is no message.
  unfoldable pub HasNoEmpty : Message V → Type 0
  HasNoEmpty no_fields = Unit
  HasNoEmpty (single f o rest) = HasNoEmpty rest
  HasNoEmpty (nested f k false m rest) = HasNoEmpty rest
  HasNoEmpty (nested f k true m rest) =
      (nonempty (present_fields m) ≡ true) × HasNoEmpty m × HasNoEmpty rest

module _ (art : Art (Unit {0})) where
  -- The tree has each of the paths under the prefix.
  Holds : String → art.Tree → List String → Type 0
  Holds prefix t ps = All (λ p. art.search (prefix ++ p) t ≡ some tt) ps

  Holds-append :
      (prefix : String) (t : art.Tree) (ps qs : List String)
      → Holds prefix t (ps +++ qs)
      → Holds prefix t ps × Holds prefix t qs
  unfolding Holds
  Holds-append prefix t [] qs h = (tt, h)
  Holds-append prefix t (p ∷ ps) qs h =
      let (hp, hq) = Holds-append prefix t ps qs h.1 in ((h.0, hp), hq)

  Holds-nested :
      (prefix f : String) (t : art.Tree) (ps : List String)
      → Holds prefix t (map (dotted f) ps)
      → Holds ((prefix ++ f) ++ ".") t ps
  unfolding Holds
  Holds-nested prefix f t [] h = tt
  Holds-nested prefix f t (p ∷ ps) h = (
    ap (λ k. art.search k t) (append_assoc (prefix ++ f) "." p ∙ append_assoc prefix f ("." ++ p))
        ∙ h.0,
    Holds-nested prefix f t ps h.1,
  )

  insert_all-search :
      (k : String) (ps : List String) (t : art.Tree)
      → (contains k ps ≡ true) ⊎ (art.search k t ≡ some tt)
      → art.search k (insert_all art ps t) ≡ some tt
  unfolding insert_all
  insert_all-search k [] t (inl h) = absurd (ground (arith, h))
  insert_all-search k [] t (inr h) = h
  insert_all-search k (p ∷ ps) t h = insert_all-search k ps (art.insert p tt t) (after h)
    where
      after :
          (contains k (p ∷ ps) ≡ true) ⊎ (art.search k t ≡ some tt)
          → (contains k ps ≡ true) ⊎ (art.search k (art.insert p tt t) ≡ some tt)
      after known = ground (arith, known, art.search-insert p k tt t, eq_iff p k)

  as_tree-Holds :
      (paths ps : List String)
      → All (λ p. contains p paths ≡ true) ps
      → Holds "" (as_tree art paths) ps
  unfolding Holds as_tree
  as_tree-Holds paths [] h = tt
  as_tree-Holds paths (p ∷ ps) h = (
    ap (λ k. art.search k (as_tree art paths)) (append.nil p)
        ∙ insert_all-search p paths art.new (inl h.0),
    as_tree-Holds paths ps h.1,
  )

  covers_self :
      (path : String) (t : art.Tree) → art.search path t ≡ some tt → covers art path t ≡ true
  covers_self path t h =
      art.search-for_each_prefix path path tt t h
        (subst (λ k. starts_with k path ≡ true) (append-nil path) (starts_with-append path ""))

  covers-nested :
      (prefix f : String) (t : art.Tree) (ps : List String)
      → nonempty ps ≡ true
      → Holds ((prefix ++ f) ++ ".") t ps
      → covers art (prefix ++ f) t ≡ true
  unfolding Holds
  covers-nested prefix f t [] some_path h = absurd (ground (arith, some_path))
  covers-nested prefix f t (p ∷ ps) some_path h =
      art.search-for_each_prefix (prefix ++ f) _ tt t h.0 (
        subst (λ k. starts_with k (prefix ++ f) ≡ true) (sym (append_assoc (prefix ++ f) "." p))
          (starts_with-append (prefix ++ f) ("." ++ p)))

module _ {V : Type 0} (art : Art (Unit {0})) where
  keep-present :
      (prefix : String) (t : art.Tree) (m : Message V)
      → HasNoEmpty m
      → Holds art prefix t (present_fields m)
      → keep art prefix t m ≡ (nonempty (present_fields m), m)
  unfolding keep present_fields HasNoEmpty Holds
  keep-present prefix t no_fields full h = refl
  keep-present prefix t (single f none rest) full h =
      ground (arith, keep-present prefix t rest full h)
  keep-present prefix t (single f (some v) rest) full h =
      ground (arith, keep-present prefix t rest full h.1, covers_self art (prefix ++ f) t h.0)
  keep-present prefix t (nested f k false m rest) full h =
      ground (arith, keep-present prefix t rest full h)
  keep-present prefix t (nested f k true m rest) full h =
      let (hm, hr) =
        Holds-append art prefix t (map (dotted f) (present_fields m)) (present_fields rest) h in
      let inner = Holds-nested art prefix f t (present_fields m) hm in
      ground (
        arith,
        keep-present prefix t rest full.2 hr,
        keep-present ((prefix ++ f) ++ ".") t m full.1 inner,
        full.0,
        covers-nested art prefix f t (present_fields m) full.0 inner,
        nonempty-append (dotted f) (present_fields m) (present_fields rest) full.0,
      )

  -- ExclusiveKeep of a message with the mask of its own presence changes nothing, where each present
  -- message has a field that is set and normalizing loses none of the paths.
  exclusive_keep-by_presence :
      (normalize : List String → List String) (m : Message V)
      → HasNoEmpty m
      → All (λ p. contains p (normalize (present_fields m)) ≡ true) (present_fields m)
      → exclusive_keep art (some (by_presence normalize m)) m ≡ m
  unfolding exclusive_keep by_presence
  exclusive_keep-by_presence normalize m full kept =
      ap (λ (p : Bool × Message V). p.1)
        (keep-present "" (as_tree art (normalize (present_fields m))) m full
          (as_tree-Holds art (normalize (present_fields m)) (present_fields m) kept))

-- A present message with no field set is lost: its mask of presence does not name it, so where
-- normalizing keeps an empty mask empty, and the tree is an association list, ExclusiveKeep clears it.
presence_loses_empty :
    {V : Type 0} (normalize : List String → List String) (f : String) (k : MessageType)
    (m : Message V)
    → normalize [] ≡ []
    → present_fields m ≡ []
    → exclusive_keep
        (list_art (Unit {0}))
        (some (by_presence normalize (nested f k true m no_fields)))
        (nested f k true m no_fields)
      ≡ nested f k false (zero_message m) no_fields
unfolding exclusive_keep by_presence
presence_loses_empty normalize f k m same none_set = ground (
  arith,
  same,
  ap (map (dotted f)) none_set,
  ap (λ (ps : List String). map (dotted f) ps +++ []) none_set,
  ap normalize (ap (λ (ps : List String). map (dotted f) ps +++ []) none_set),
)
