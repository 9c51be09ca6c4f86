-- ===== src/Reactive/Controller/Fields.antt =====
-- reactive/controller.go: the nodes of the trie hold the fields of the config.
use protoconfig.Prelude.{◌≡◌, Option, none, some, List, String, contains}
use Prim.Native.String.{◌++◌}
use protoconfig.Prelude.Int64.{Int64}
use protoconfig.Util.Messages.{Message, no_fields, single, nested}
use protoconfig.Reactive.Values.{invalid, of_single, of_message, ReactiveValue}
use protoconfig.Reactive.Values.Laws.{Holds, update-Holds, ListenerStep-Holds}
use protoconfig.Reactive.Controller.{Trie, no_nodes, leaf, branch, Controller, walk_values, reading}
use protoconfig.Reactive.Controller.Laws.{Follows}
use protoconfig.Reactive.Controller.Steps.{
  TrieStep, at_leaf, at_branch, inside, after_leaf, after_branch,
}

module _ {V : Type 0} where
  -- Each node holds its field of the config, as it is: not set, set, or a message. Where there is no
  -- config, each holds the invalid value.
  abbrev pub NodesHold : Trie (ReactiveValue V) → Option (Message V) → Type 0
  NodesHold no_nodes none = Unit
  NodesHold (leaf f r t) none = Holds r invalid × NodesHold t none
  NodesHold (branch f r inner t) none = Holds r invalid × NodesHold inner none × NodesHold t none
  NodesHold no_nodes (some no_fields) = Unit
  NodesHold (leaf f r t) (some (single g o m)) =
      (f ≡ g) × Holds r (of_single o) × NodesHold t (some m)
  NodesHold (branch f r inner t) (some (nested g k b x m)) =
      (f ≡ g) × Holds r (of_message x) × NodesHold inner (some x) × NodesHold t (some m)
  NodesHold _ (some _) = ⊥

  -- The root holds the config, and the nodes its fields.
  abbrev pub HoldsConfig : Controller V → Option (Message V) → Type 0
  HoldsConfig c x = Holds c.root (reading x) × NodesHold c.nodes x

  pub walk_values-none :
      (rev : Int64) (paths : List String) (prefix : String) (t : Trie (ReactiveValue V))
      → NodesHold (walk_values rev paths prefix t none) none
  unfolding walk_values
  walk_values-none rev paths prefix no_nodes = tt
  walk_values-none rev paths prefix (leaf f r t) = (
    update-Holds r rev invalid (contains (prefix ++ f) paths),
    walk_values-none rev paths prefix t,
  )
  walk_values-none rev paths prefix (branch f r inner t) = (
    update-Holds r rev invalid (contains (prefix ++ f) paths),
    walk_values-none rev paths ((prefix ++ f) ++ ".") inner,
    walk_values-none rev paths prefix t,
  )

  pub walk_values-some :
      (rev : Int64) (paths : List String) (prefix : String) (t : Trie (ReactiveValue V))
      (n : Message V)
      → Follows (walk_values rev paths prefix t (some n)) n
      → NodesHold (walk_values rev paths prefix t (some n)) (some n)
  unfolding walk_values Follows
  walk_values-some rev paths prefix no_nodes no_fields h = tt
  walk_values-some rev paths prefix (leaf f r t) (single g o m) h = (
    h.0,
    update-Holds r rev (of_single o) (contains (prefix ++ f) paths),
    walk_values-some rev paths prefix t m h.2,
  )
  walk_values-some rev paths prefix (branch f r inner t) (nested g k b x m) h = (
    h.0,
    update-Holds r rev (of_message x) (contains (prefix ++ f) paths),
    walk_values-some rev paths ((prefix ++ f) ++ ".") inner x h.2,
    walk_values-some rev paths prefix t m h.3,
  )
  walk_values-some rev paths prefix no_nodes (single g o m) h = elim h [ ]
  walk_values-some rev paths prefix no_nodes (nested g k b x m) h = elim h [ ]
  walk_values-some rev paths prefix (leaf f r t) no_fields h = elim h [ ]
  walk_values-some rev paths prefix (leaf f r t) (nested g k b x m) h = elim h [ ]
  walk_values-some rev paths prefix (branch f r inner t) no_fields h = elim h [ ]
  walk_values-some rev paths prefix (branch f r inner t) (single g o m) h = elim h [ ]

  -- Listeners that come and go do not change what the nodes hold.
  pub TrieStep-NodesHold :
      (t u : Trie (ReactiveValue V)) (x : Option (Message V))
      → TrieStep t u
      → NodesHold t x
      → NodesHold u x
  TrieStep-NodesHold _ _ none (at_leaf {r} {s} f t step) h =
      (ListenerStep-Holds r s invalid step h.0, h.1)
  TrieStep-NodesHold _ _ none (after_leaf {t} {u} f r step) h =
      (h.0, TrieStep-NodesHold t u none step h.1)
  TrieStep-NodesHold _ _ none (at_branch {r} {s} f i t step) h =
      (ListenerStep-Holds r s invalid step h.0, h.1, h.2)
  TrieStep-NodesHold _ _ none (inside {i} {j} f r t step) h =
      (h.0, TrieStep-NodesHold i j none step h.1, h.2)
  TrieStep-NodesHold _ _ none (after_branch {t} {u} f r i step) h =
      (h.0, h.1, TrieStep-NodesHold t u none step h.2)
  TrieStep-NodesHold _ _ (some (single g o m)) (at_leaf {r} {s} f t step) h =
      (h.0, ListenerStep-Holds r s (of_single o) step h.1, h.2)
  TrieStep-NodesHold _ _ (some (single g o m)) (after_leaf {t} {u} f r step) h =
      (h.0, h.1, TrieStep-NodesHold t u (some m) step h.2)
  TrieStep-NodesHold _ _ (some (nested g k b x m)) (at_branch {r} {s} f i t step) h =
      (h.0, ListenerStep-Holds r s (of_message x) step h.1, h.2, h.3)
  TrieStep-NodesHold _ _ (some (nested g k b x m)) (inside {i} {j} f r t step) h =
      (h.0, h.1, TrieStep-NodesHold i j (some x) step h.2, h.3)
  TrieStep-NodesHold _ _ (some (nested g k b x m)) (after_branch {t} {u} f r i step) h =
      (h.0, h.1, h.2, TrieStep-NodesHold t u (some m) step h.3)
  TrieStep-NodesHold _ _ (some no_fields) (at_leaf f t step) h = elim h [ ]
  TrieStep-NodesHold _ _ (some no_fields) (at_branch f i t step) h = elim h [ ]
  TrieStep-NodesHold _ _ (some no_fields) (inside f r t step) h = elim h [ ]
  TrieStep-NodesHold _ _ (some no_fields) (after_leaf f r step) h = elim h [ ]
  TrieStep-NodesHold _ _ (some no_fields) (after_branch f r i step) h = elim h [ ]
  TrieStep-NodesHold _ _ (some (single g o m)) (at_branch f i t step) h = elim h [ ]
  TrieStep-NodesHold _ _ (some (single g o m)) (inside f r t step) h = elim h [ ]
  TrieStep-NodesHold _ _ (some (single g o m)) (after_branch f r i step) h = elim h [ ]
  TrieStep-NodesHold _ _ (some (nested g k b x m)) (at_leaf f t step) h = elim h [ ]
  TrieStep-NodesHold _ _ (some (nested g k b x m)) (after_leaf f r step) h = elim h [ ]
