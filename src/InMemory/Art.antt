-- ===== src/InMemory/Art.antt =====
-- The radix tree of github.com/plar/go-adaptive-radix-tree, as its users see it: a map from texts, and
-- a walk over the entries under a prefix. What they rely on are the laws of search.
use protoconfig.Prelude.{
  ◌≡◌, Bool, true, false, Option, none, some, List, [], ◌∷◌, String, str_eq, eq_iff, if◌then◌else◌,
  arith, refl, All, Bool-cases, inl, inr,
}
use text.Mathlib.Text.{starts_with}

-- Whether a walk visits anything.
abbrev pub has_entries : {V : Type 0} → List (String × V) → Bool
has_entries [] = false
has_entries (e ∷ es) = true

pub record Art (V : Type 0) : Type 1 where
  pub Tree : Type 0
  pub new : Tree
  pub insert : String → V → Tree → Tree
  pub search : String → Tree → Option V
  -- The entries that ForEachPrefix visits, in its order.
  pub for_each_prefix : String → Tree → List (String × V)
  pub search-new : (k : String) → search k new ≡ none
  pub search-insert :
      (k j : String) (v : V) (t : Tree)
      → search j (insert k v t) ≡ (if str_eq k j then some v else search j t)
  pub search-for_each_prefix :
      (p k : String) (v : V) (t : Tree)
      → search k t ≡ some v
      → starts_with k p ≡ true
      → has_entries (for_each_prefix p t) ≡ true
  pub for_each_prefix-under :
      (p : String) (t : Tree) → All (λ e. starts_with e.0 p ≡ true) (for_each_prefix p t)

-- An association list meets the laws.
module _ {V : Type 0} where
  abbrev list_insert : String → V → List (String × V) → List (String × V)
  list_insert k v [] = (k, v) ∷ []
  list_insert k v ((j, w) ∷ t) = if str_eq j k then (k, v) ∷ t else (j, w) ∷ list_insert k v t

  abbrev list_search : String → List (String × V) → Option V
  list_search k [] = none
  list_search k ((j, w) ∷ t) = if str_eq j k then some w else list_search k t

  abbrev under_prefix : String → List (String × V) → List (String × V)
  under_prefix p [] = []
  under_prefix p ((j, w) ∷ t) =
      let rest = under_prefix p t in if starts_with j p then (j, w) ∷ rest else rest

  pub list_search-insert :
      (k j : String) (v : V) (t : List (String × V))
      → list_search j (list_insert k v t) ≡ (if str_eq k j then some v else list_search j t)
  list_search-insert k j v [] = refl
  list_search-insert k j v ((i, w) ∷ t) =
      ground (arith, eq_iff k j, eq_iff i k, eq_iff i j, list_search-insert k j v t)

  pub list_search-for_each_prefix :
      (p k : String) (v : V) (t : List (String × V))
      → list_search k t ≡ some v
      → starts_with k p ≡ true
      → has_entries (under_prefix p t) ≡ true
  list_search-for_each_prefix p k v [] found h = absurd (ground (arith, found))
  list_search-for_each_prefix p k v ((j, w) ∷ t) found h =
      ground (arith, found, h, eq_iff j k, list_search-for_each_prefix p k v t)

  pub list_for_each_prefix-under :
      (p : String) (t : List (String × V)) → All (λ e. starts_with e.0 p ≡ true) (under_prefix p t)
  list_for_each_prefix-under p [] = tt
  list_for_each_prefix-under p ((j, w) ∷ t) = elim (Bool-cases (starts_with j p)) [
    | inl q ↦ rw q (q, list_for_each_prefix-under p t)
    | inr q ↦ rw q (list_for_each_prefix-under p t)
  ]

abbrev pub list_art : (V : Type 0) → Art V
list_art V = record {
  Tree = List (String × V);
  new = [];
  insert = list_insert;
  search = list_search;
  for_each_prefix = under_prefix;
  search-new = λ k. refl;
  search-insert = list_search-insert;
  search-for_each_prefix = list_search-for_each_prefix;
  for_each_prefix-under = list_for_each_prefix-under;
}
