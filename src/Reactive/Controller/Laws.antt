-- ===== src/Reactive/Controller/Laws.antt =====
-- reactive/controller.go: the trie follows the config, and no listener misses a change.
use protoconfig.Prelude.{
  ◌≡◌, refl, sym, ap, ◌∙◌, subst, Bool, true, false, ◌||◌, Option, none, some, List, [], ◌∷◌,
  String, if◌then◌else◌, contains, arith, inl, inr, Bool-cases, eq_iff,
}
use Prim.Native.String.{◌++◌}
use protoconfig.Prelude.Int64.{Int64}
use protoconfig.Util.Messages.{
  Message, MessageType, no_fields, single, nested, zero_message, has_fields, IsMessage, SameType,
  nested-IsMessage,
}
use protoconfig.Util.FieldMask.Presence.{nonempty}
use protoconfig.Util.FieldMask.Diff.{
  changed_single, nested_paths, diff_fields, diff_fields-none, nested_more, nested_inner,
  nested_self,
}
use protoconfig.Reactive.Values.{invalid, of_single, of_message, ReactiveValue}
use protoconfig.Reactive.Values.Laws.{settle, IsCurrent, update-IsCurrent}
use protoconfig.Reactive.Controller.{Trie, no_nodes, leaf, branch, walk_values}

module _ {V : Type 0} where
  -- Each node of the trie is current at its field of the message.
  unfoldable pub Follows : Trie (ReactiveValue V) → Message V → Type 0
  Follows no_nodes no_fields = Unit
  Follows (leaf f r t) (single g o m) = (f ≡ g) × IsCurrent r (of_single o) × Follows t m
  Follows (branch f r inner t) (nested g k b x m) =
      (f ≡ g) × IsCurrent r (of_message x) × Follows inner x × Follows t m
  Follows _ _ = ⊥

  -- What the nodes are given for a message: the message, or nothing for one with no field set
  abbrev pub shown : Bool → Message V → Option (Message V)
  shown true n = some n
  shown false n = none

  zero-has_fields : (m : Message V) → has_fields (zero_message m) ≡ false
  zero-has_fields no_fields = refl
  zero-has_fields (single f o m) = zero-has_fields m
  zero-has_fields (nested f k b x m) = zero-has_fields m

  pub settle-unset : (m : Message V) → m ≡ zero_message m → settle (of_message m) ≡ invalid
  settle-unset m h = ground (arith, ap has_fields h, zero-has_fields m)

  unset_single :
      (h : String) (o : Option V) (n : Message V)
      → single h o n ≡ zero_message (single h o n)
      → invalid ≡ settle (of_single o)
  unset_single h o n z = ground (arith, z)

  rest_single :
      (h : String) (o : Option V) (n : Message V)
      → single h o n ≡ zero_message (single h o n)
      → n ≡ zero_message n
  rest_single h o n z = ground (arith, z)

  unset_nested :
      (h : String) (l : MessageType) (c : Bool) (y n : Message V)
      → nested h l c y n ≡ zero_message (nested h l c y n)
      → (y ≡ zero_message y) × (n ≡ zero_message n)
  unset_nested h l c y n z = ground (arith, z)

  both_absent :
      (d c : Bool) (x y : Message V)
      → (d ≡ false → x ≡ zero_message x)
      → (c ≡ false → y ≡ zero_message y)
      → (d || c) ≡ false
      → (x ≡ zero_message x) × (y ≡ zero_message y)
  both_absent d c x y ax ay q = ground (arith, ax, ay, q)

  module _ (equal : V → V → Bool) (sound : (a b : V) → equal a b ≡ true → a ≡ b) where
    -- Each of the paths of the difference is one that listeners are told of.
    unfoldable pub Told : String → Message V → Message V → List String → Type 0
    Told prefix m n paths =
        (p : String) → contains p (diff_fields equal prefix m n) ≡ true → contains p paths ≡ true

    diff_zero :
        (prefix : String) (m n : Message V)
        → SameType m n
        → diff_fields equal prefix (zero_message m) (zero_message n) ≡ []
    unfolding diff_fields
    diff_zero prefix no_fields no_fields same = refl
    diff_zero prefix (single f a m) (single g b n) same = diff_zero prefix m n same.1
    diff_zero prefix (nested f k b x m) (nested g j c y n) same = diff_zero prefix m n same.3
    diff_zero prefix no_fields (single g b n) same = elim same [ ]
    diff_zero prefix no_fields (nested g j c y n) same = elim same [ ]
    diff_zero prefix (single f a m) no_fields same = elim same [ ]
    diff_zero prefix (single f a m) (nested g j c y n) same = elim same [ ]
    diff_zero prefix (nested f k b x m) no_fields same = elim same [ ]
    diff_zero prefix (nested f k b x m) (single g b' n) same = elim same [ ]

    -- A field that listeners are not told of reads as before.
    single_same :
        (path : String) (a b : Option V) (more paths : List String)
        → ((p : String)
            → contains p (if changed_single equal a b then path ∷ more else more) ≡ true
            → contains p paths ≡ true)
        → contains path paths ≡ false
        → settle (of_single a) ≡ settle (of_single b)
    single_same path none none more paths told quiet = refl
    single_same path (some a) (some b) more paths told quiet = elim (Bool-cases (equal a b)) [
      | inl q ↦ ap (λ v. settle (of_single (some v))) (sound a b q)
      | inr q ↦ absurd (ground (arith, q, told path, quiet, eq_iff path path))
    ]
    single_same path none (some b) more paths told quiet =
        absurd (ground (arith, told path, quiet, eq_iff path path))
    single_same path (some a) none more paths told quiet =
        absurd (ground (arith, told path, quiet, eq_iff path path))

    nested_same :
        (path prefix : String) (b c : Bool) (x y : Message V) (more paths : List String)
        → SameType x y
        → IsMessage x
        → IsMessage y
        → ((b || c) ≡ false → (x ≡ zero_message x) × (y ≡ zero_message y))
        → ((p : String)
            → contains p (nested_paths b c path (diff_fields equal prefix x y) more) ≡ true
            → contains p paths ≡ true)
        → contains path paths ≡ false
        → settle (of_message x) ≡ settle (of_message y)
    nested_same path prefix b c x y more paths same hx hy absent told quiet =
        elim (Bool-cases (b || c)) [
          | inr q ↦ settle-unset x (absent q).0 ∙ sym (settle-unset y (absent q).1)
          | inl q ↦ present q (diff_fields equal prefix x y) refl
        ]
      where
        present :
            (b || c) ≡ true
            → (inner : List String) → diff_fields equal prefix x y ≡ inner
            → settle (of_message x) ≡ settle (of_message y)
        present q [] e =
            ap (λ z. settle (of_message z)) (diff_fields-none equal prefix x y sound same hx hy e)
        present q (p ∷ inner) e = absurd (
            ground (
              arith,
              told path,
              quiet,
              nested_self b c path (diff_fields equal prefix x y) more q (ap nonempty e),
            ))

    -- The paths inside a message are told of too.
    inner-Told :
        (path prefix : String) (b c : Bool) (x y : Message V) (more paths : List String)
        → SameType x y
        → ((b || c) ≡ false → (x ≡ zero_message x) × (y ≡ zero_message y))
        → ((p : String)
            → contains p (nested_paths b c path (diff_fields equal prefix x y) more) ≡ true
            → contains p paths ≡ true)
        → Told prefix x y paths
    unfolding Told
    inner-Told path prefix b c x y more paths same absent told p h = elim (Bool-cases (b || c)) [
      | inl q ↦ told p (nested_inner b c path p (diff_fields equal prefix x y) more q h)
      | inr q ↦ absurd (ground (arith, h, ap (contains p) (none q)))
    ]
      where
        none : (b || c) ≡ false → diff_fields equal prefix x y ≡ []
        none q =
            ap (λ z. diff_fields equal prefix z y) (absent q).0
            ∙ ap (diff_fields equal prefix (zero_message x)) (absent q).1
            ∙ diff_zero prefix x y same

    single_more :
        (prefix g p : String) (a o : Option V) (m n : Message V)
        → contains p (diff_fields equal prefix m n) ≡ true
        → contains p (
            if changed_single equal a o
            then (prefix ++ g) ∷ diff_fields equal prefix m n
            else diff_fields equal prefix m n)
          ≡ true
    single_more prefix g p a o m n h = ground (arith, h)

    -- The walk of an event keeps the nodes current, where they were so for the previous message and
    -- are given the next one, or nothing if no field of the next one is set.
    pub walk_values-Follows :
        (rev : Int64) (paths : List String) (prefix : String) (t : Trie (ReactiveValue V))
        (m n : Message V) (b : Bool)
        → Follows t m
        → SameType m n
        → IsMessage m
        → IsMessage n
        → (b ≡ false → n ≡ zero_message n)
        → Told prefix m n paths
        → Follows (walk_values rev paths prefix t (shown b n)) n
    unfolding walk_values Follows Told diff_fields
    walk_values-Follows rev paths prefix no_nodes no_fields no_fields true f same hm hn z told = tt
    walk_values-Follows rev paths prefix no_nodes no_fields no_fields false f same hm hn z told = tt
    walk_values-Follows rev paths prefix (leaf f r t) (single g a m) (single h o n) true fol same hm
          hn z told =
        (
          fol.0 ∙ same.0,
          (update-IsCurrent r rev (of_single o) (of_single a) (of_single o)
              (contains (prefix ++ f) paths) fol.1 refl
              (λ quiet.
                single_same (prefix ++ g) a o (diff_fields equal prefix m n) paths told
                  (subst (λ k. contains (prefix ++ k) paths ≡ false) fol.0 quiet))).0,
          walk_values-Follows rev paths prefix t m n true fol.2 same.1 hm hn
              (λ q. absurd (ground (arith, q))) (λ p q. told p (single_more prefix g p a o m n q)),
        )
    walk_values-Follows rev paths prefix (branch f r inner t) (nested g k d x m) (nested h l c y n)
          true fol same hm hn z told =
        let (hx, hr, ax) = nested-IsMessage g k d x m hm in
        let (hy, hs, ay) = nested-IsMessage h l c y n hn in
        let absent = both_absent d c x y ax ay in
        (
          fol.0 ∙ same.0,
          (update-IsCurrent r rev (of_message y) (of_message x) (of_message y)
              (contains (prefix ++ f) paths) fol.1 refl
              (λ quiet.
                nested_same (prefix ++ g) ((prefix ++ g) ++ ".") d c x y
                  (diff_fields equal prefix m n) paths same.2 hx hy absent told
                  (subst (λ u. contains (prefix ++ u) paths ≡ false) fol.0 quiet))).0,
          walk_values-Follows rev paths ((prefix ++ f) ++ ".") inner x y true fol.2 same.2 hx hy
              (λ q. absurd (ground (arith, q)))
              (subst (λ u. Told ((prefix ++ u) ++ ".") x y paths) (sym fol.0)
                (inner-Told (prefix ++ g) ((prefix ++ g) ++ ".") d c x y
                  (diff_fields equal prefix m n) paths same.2 absent told)),
          walk_values-Follows rev paths prefix t m n true fol.3 same.3 hr hs
              (λ q. absurd (ground (arith, q)))
              (λ p q. told p (
                nested_more d c (prefix ++ g) p (diff_fields equal ((prefix ++ g) ++ ".") x y)
                  (diff_fields equal prefix m n) q)),
        )
    walk_values-Follows rev paths prefix (leaf f r t) (single g a m) (single h o n) false fol same
          hm hn z told =
        (
          fol.0 ∙ same.0,
          (update-IsCurrent r rev invalid (of_single a) (of_single o) (contains (prefix ++ f) paths)
              fol.1 (unset_single h o n (z refl))
              (λ quiet.
                single_same (prefix ++ g) a o (diff_fields equal prefix m n) paths told
                  (subst (λ k. contains (prefix ++ k) paths ≡ false) fol.0 quiet))).0,
          walk_values-Follows rev paths prefix t m n false fol.2 same.1 hm hn
              (λ q. rest_single h o n (z refl)) (λ p q. told p (single_more prefix g p a o m n q)),
        )
    walk_values-Follows rev paths prefix (branch f r inner t) (nested g k d x m) (nested h l c y n)
          false fol same hm hn z told =
        let (hx, hr, ax) = nested-IsMessage g k d x m hm in
        let (hy, hs, ay) = nested-IsMessage h l c y n hn in
        let absent = both_absent d c x y ax ay in
        (
          fol.0 ∙ same.0,
          (update-IsCurrent r rev invalid (of_message x) (of_message y)
              (contains (prefix ++ f) paths) fol.1
              (sym (settle-unset y (unset_nested h l c y n (z refl)).0))
              (λ quiet.
                nested_same (prefix ++ g) ((prefix ++ g) ++ ".") d c x y
                  (diff_fields equal prefix m n) paths same.2 hx hy absent told
                  (subst (λ u. contains (prefix ++ u) paths ≡ false) fol.0 quiet))).0,
          walk_values-Follows rev paths ((prefix ++ f) ++ ".") inner x y false fol.2 same.2 hx hy
              (λ q. (unset_nested h l c y n (z refl)).0)
              (subst (λ u. Told ((prefix ++ u) ++ ".") x y paths) (sym fol.0)
                (inner-Told (prefix ++ g) ((prefix ++ g) ++ ".") d c x y
                  (diff_fields equal prefix m n) paths same.2 absent told)),
          walk_values-Follows rev paths prefix t m n false fol.3 same.3 hr hs
              (λ q. (unset_nested h l c y n (z refl)).1)
              (λ p q. told p (
                nested_more d c (prefix ++ g) p (diff_fields equal ((prefix ++ g) ++ ".") x y)
                  (diff_fields equal prefix m n) q)),
        )
    walk_values-Follows rev paths prefix no_nodes no_fields (single h o n) b f same hm hn z told =
        elim same [ ]
    walk_values-Follows rev paths prefix no_nodes no_fields (nested _ _ _ _ _) b f same hm hn z
          told =
        elim same [ ]
    walk_values-Follows rev paths prefix no_nodes (single g a m) n b f same hm hn z told =
        elim f [ ]
    walk_values-Follows rev paths prefix no_nodes (nested _ _ _ _ _) n b f same hm hn z told =
        elim f [ ]
    walk_values-Follows rev paths prefix (leaf f r t) no_fields n b fol same hm hn z told =
        elim fol [ ]
    walk_values-Follows rev paths prefix (leaf f r t) (single g a m) no_fields b fol same hm hn z
          told =
        elim same [ ]
    walk_values-Follows rev paths prefix (leaf f r t) (single g a m) (nested _ _ _ _ _) b fol same
          hm hn z told =
        elim same [ ]
    walk_values-Follows rev paths prefix (leaf f r t) (nested _ _ _ _ _) n b fol same hm hn z told =
        elim fol [ ]
    walk_values-Follows rev paths prefix (branch _ _ _ _) no_fields n b fol same hm hn z told =
        elim fol [ ]
    walk_values-Follows rev paths prefix (branch _ _ _ _) (single g a m) n b fol same hm hn z told =
        elim fol [ ]
    walk_values-Follows rev paths prefix (branch _ _ _ _) (nested _ _ _ _ _) no_fields b fol same hm
          hn z told =
        elim same [ ]
    walk_values-Follows rev paths prefix (branch _ _ _ _) (nested _ _ _ _ _) (single h o n) b fol
          same hm hn z told =
        elim same [ ]
