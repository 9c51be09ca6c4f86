-- ===== src/Reactive/Controller/Steps.antt =====
-- reactive/controller.go: the listeners of the nodes, which come and go.
use protoconfig.Prelude.{String}
use protoconfig.Reactive.Values.{ReactiveValue}
use protoconfig.Reactive.Values.Laws.{ListenerStep}
use protoconfig.Reactive.Controller.{Trie, leaf, branch}

-- A listener of one node comes or goes.
pub data TrieStep {V : Type 0} : Trie (ReactiveValue V) → Trie (ReactiveValue V) → Type 0 where
  at_leaf :
      {r s : ReactiveValue V} (f : String) (t : Trie (ReactiveValue V))
      → ListenerStep r s
      → TrieStep (leaf f r t) (leaf f s t)
  at_branch :
      {r s : ReactiveValue V} (f : String) (i t : Trie (ReactiveValue V))
      → ListenerStep r s
      → TrieStep (branch f r i t) (branch f s i t)
  inside :
      {i j : Trie (ReactiveValue V)} (f : String) (r : ReactiveValue V) (t : Trie (ReactiveValue V))
      → TrieStep i j
      → TrieStep (branch f r i t) (branch f r j t)
  after_leaf :
      {t u : Trie (ReactiveValue V)} (f : String) (r : ReactiveValue V)
      → TrieStep t u
      → TrieStep (leaf f r t) (leaf f r u)
  after_branch :
      {t u : Trie (ReactiveValue V)} (f : String) (r : ReactiveValue V) (i : Trie (ReactiveValue V))
      → TrieStep t u
      → TrieStep (branch f r i t) (branch f r i u)
