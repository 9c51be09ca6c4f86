-- ===== src/Reactive/Values/Laws.antt =====
-- reactive/value.go: when the listeners of a value are up to date.
use protoconfig.Prelude.{
  ◌≡◌, refl, ap, ◌∙◌, Bool, true, false, ◌||◌, Option, none, some, List, [], ◌∷◌, ◌++◌, String,
  str_eq, if◌then◌else◌, Bool-cases, ◌⊎◌, inl, inr, arith,
}
use mathlib.Core.Option
use protoconfig.Prelude.Int64.{Int64}
use protoconfig.Util.Messages.{has_fields}
use protoconfig.Reactive.Values.{
  Reading, invalid, of_single, of_message, Listener, Call, ReactiveValue, inform, remove, update,
  watch, watch_func, stop_watch, stop_func,
}

abbrev pub last_of : {A : Type 0} → List A → Option A
last_of [] = none
last_of (x ∷ []) = some x
last_of (x ∷ y ∷ ys) = last_of (y ∷ ys)

last_of-append : {A : Type 0} (xs : List A) (a : A) → last_of (xs ++ a ∷ []) ≡ some a
last_of-append [] a = refl
last_of-append (x ∷ []) a = refl
last_of-append (x ∷ y ∷ ys) a = last_of-append (y ∷ ys) a

module _ {V : Type 0} where
  -- A reading, up to what is not set: the invalid value, a field that is not set and a message with no
  -- field set read alike.
  abbrev pub settle : Reading V → Reading V
  settle invalid = invalid
  settle (of_single none) = invalid
  settle (of_single (some v)) = of_single (some v)
  settle (of_message m) = if has_fields m then of_message m else invalid

  -- The last that each listener got is the reading.
  unfoldable pub HaveHeard : Reading V → List (Listener (Reading V)) → Type 0
  HaveHeard x [] = Unit
  HaveHeard x (l ∷ ls) = (Option.map settle (last_of l.received) ≡ some (settle x)) × HaveHeard x ls

  unfoldable pub WereCalled : Reading V → List (Listener (Call V)) → Type 0
  WereCalled x [] = Unit
  WereCalled x (l ∷ ls) =
      (Option.map (λ (c : Call V). settle c.value) (last_of l.received) ≡ some (settle x))
      × WereCalled x ls

  -- A value that is pending, or that has the reading and has told it to each of its listeners.
  unfoldable pub IsCurrent : ReactiveValue V → Reading V → Type 0
  IsCurrent r x =
      (r.pending_init ≡ true)
      ⊎ ((settle r.value ≡ settle x) × HaveHeard x r.watch_channels × WereCalled x r.watch_funcs)

  inform-HaveHeard :
      (v x : Reading V) (ls : List (Listener (Reading V)))
      → settle v ≡ settle x
      → HaveHeard x (inform v ls)
  unfolding HaveHeard
  inform-HaveHeard v x [] h = tt
  inform-HaveHeard v x (l ∷ ls) h =
      (ap (Option.map settle) (last_of-append l.received v) ∙ ap some h, inform-HaveHeard v x ls h)

  inform-WereCalled :
      (c : Call V) (x : Reading V) (ls : List (Listener (Call V)))
      → settle c.value ≡ settle x
      → WereCalled x (inform c ls)
  unfolding WereCalled
  inform-WereCalled c x [] h = tt
  inform-WereCalled c x (l ∷ ls) h = (
    ap (Option.map (λ (d : Call V). settle d.value)) (last_of-append l.received c) ∙ ap some h,
    inform-WereCalled c x ls h,
  )

  HaveHeard-same :
      (x y : Reading V) (ls : List (Listener (Reading V)))
      → settle x ≡ settle y
      → HaveHeard x ls
      → HaveHeard y ls
  unfolding HaveHeard
  HaveHeard-same x y [] h heard = tt
  HaveHeard-same x y (l ∷ ls) h heard = (heard.0 ∙ ap some h, HaveHeard-same x y ls h heard.1)

  WereCalled-same :
      (x y : Reading V) (ls : List (Listener (Call V)))
      → settle x ≡ settle y
      → WereCalled x ls
      → WereCalled y ls
  unfolding WereCalled
  WereCalled-same x y [] h heard = tt
  WereCalled-same x y (l ∷ ls) h heard = (heard.0 ∙ ap some h, WereCalled-same x y ls h heard.1)

  -- An update to a value that reads as y, told unless y reads as what was there before, leaves the
  -- reactive value current at y, and not pending.
  pub update-IsCurrent :
      (r : ReactiveValue V) (rev : Int64) (v x y : Reading V) (notify : Bool)
      → IsCurrent r x
      → settle v ≡ settle y
      → (notify ≡ false → settle x ≡ settle y)
      → IsCurrent (update rev v notify r) y × ((update rev v notify r).pending_init ≡ false)
  unfolding update IsCurrent
  update-IsCurrent r rev v x y notify ok_before reads same = go (r.pending_init || notify) refl
    where
      told : ReactiveValue V
      told = record {
        rev = rev;
        pending_init = false;
        value = v;
        watch_channels = inform v r.watch_channels;
        watch_funcs = inform (record { rev = rev; value = v; grouped = true }) r.watch_funcs;
      }

      after : Bool → ReactiveValue V
      after b = if b then told else record r { rev = rev; value = v }

      go :
          (b : Bool)
          → (r.pending_init || notify) ≡ b
          → IsCurrent (after b) y × ((after b).pending_init ≡ false)
      go true q = (
        inr (
          reads,
          inform-HaveHeard v y r.watch_channels reads,
          inform-WereCalled (record { rev = rev; value = v; grouped = true }) y r.watch_funcs reads,
        ),
        refl,
      )
      go false q = (quiet ok_before, ground (arith, q))
        where
          unseen : settle x ≡ settle y
          unseen = same (ground (arith, q))

          quiet :
              (r.pending_init ≡ true)
                ⊎ ((settle r.value ≡ settle x)
                    × HaveHeard x r.watch_channels
                    × WereCalled x r.watch_funcs)
              → IsCurrent (after false) y
          quiet (inl p) = absurd (ground (arith, p, q))
          quiet (inr (held, heard, called)) = inr (
            reads,
            HaveHeard-same x y r.watch_channels unseen heard,
            WereCalled-same x y r.watch_funcs unseen called,
          )

  remove-HaveHeard :
      (x : Reading V) (id : String) (ls : List (Listener (Reading V)))
      → HaveHeard x ls
      → HaveHeard x (remove id ls)
  unfolding HaveHeard
  remove-HaveHeard x id [] h = tt
  remove-HaveHeard x id (l ∷ ls) h = elim (Bool-cases (str_eq l.id id)) [
    | inl p ↦ rw p (remove-HaveHeard x id ls h.1)
    | inr p ↦ rw p (h.0, remove-HaveHeard x id ls h.1)
  ]

  remove-WereCalled :
      (x : Reading V) (id : String) (ls : List (Listener (Call V)))
      → WereCalled x ls
      → WereCalled x (remove id ls)
  unfolding WereCalled
  remove-WereCalled x id [] h = tt
  remove-WereCalled x id (l ∷ ls) h = elim (Bool-cases (str_eq l.id id)) [
    | inl p ↦ rw p (remove-WereCalled x id ls h.1)
    | inr p ↦ rw p (h.0, remove-WereCalled x id ls h.1)
  ]

  -- The calls of the listeners: a new one, by Watch or by WatchFunc, and the end of one.
  pub data ListenerStep : ReactiveValue V → ReactiveValue V → Type 0 where
    watches : (id : String) (r : ReactiveValue V) → ListenerStep r (watch id r)
    watches_func : (id : String) (r : ReactiveValue V) → ListenerStep r (watch_func id r)
    stops : (id : String) (r : ReactiveValue V) → ListenerStep r (stop_watch id r)
    stops_func : (id : String) (r : ReactiveValue V) → ListenerStep r (stop_func id r)

  -- Listeners that come and go leave a reactive value current: a new one is told the value at once,
  -- unless it is pending.
  pub ListenerStep-IsCurrent :
      (r s : ReactiveValue V) (x : Reading V) → ListenerStep r s → IsCurrent r x → IsCurrent s x
  unfolding IsCurrent watch watch_func stop_watch stop_func HaveHeard WereCalled
  ListenerStep-IsCurrent _ _ x (watches id r) (inl p) = inl p
  ListenerStep-IsCurrent _ _ x (watches_func id r) (inl p) = inl p
  ListenerStep-IsCurrent _ _ x (stops id r) (inl p) = inl p
  ListenerStep-IsCurrent _ _ x (stops_func id r) (inl p) = inl p
  ListenerStep-IsCurrent _ _ x (watches id r) (inr (held, heard, called)) =
      elim (Bool-cases r.pending_init) [
        | inl p ↦ inl p
        | inr p ↦ inr (held, (rw p (ap some held), heard), called)
      ]
  ListenerStep-IsCurrent _ _ x (watches_func id r) (inr (held, heard, called)) =
      elim (Bool-cases r.pending_init) [
        | inl p ↦ inl p
        | inr p ↦ inr (held, heard, (rw p (ap some held), called))
      ]
  ListenerStep-IsCurrent _ _ x (stops id r) (inr (held, heard, called)) =
      inr (held, remove-HaveHeard x id r.watch_channels heard, called)
  ListenerStep-IsCurrent _ _ x (stops_func id r) (inr (held, heard, called)) =
      inr (held, heard, remove-WereCalled x id r.watch_funcs called)

  -- A value that is not pending and is the reading itself
  abbrev pub Holds : ReactiveValue V → Reading V → Type 0
  Holds r x = (r.pending_init ≡ false) × (r.value ≡ x)

  -- Whether its listeners are told or not, an update is held.
  pub update-Holds :
      (r : ReactiveValue V) (rev : Int64) (v : Reading V) (notify : Bool)
      → Holds (update rev v notify r) v
  unfolding update
  update-Holds r rev v notify = elim (Bool-cases (r.pending_init || notify)) [
    | inl p ↦ rw p (refl, refl)
    | inr p ↦ rw p (ground (arith, p), refl)
  ]

  pub ListenerStep-Holds :
      (r s : ReactiveValue V) (x : Reading V) → ListenerStep r s → Holds r x → Holds s x
  unfolding watch watch_func stop_watch stop_func
  ListenerStep-Holds _ _ x (watches id r) h = h
  ListenerStep-Holds _ _ x (watches_func id r) h = h
  ListenerStep-Holds _ _ x (stops id r) h = h
  ListenerStep-Holds _ _ x (stops_func id r) h = h
