-- ===== src/Server/BaseServer/Laws.antt =====
-- The base server of server/server.go: what its Reset keeps, and what its History shows.
use protoconfig.Prelude.{
  ℕ, ◌≡◌, refl, sym, ap, ◌∙◌, subst, Bool, true, Option, none, some, List, [], ◌∷◌, map, String,
  All, if◌then◌else◌, arith, ◌⊎◌, inl,
}
use protoconfig.Prelude.Int64.{Int64}
use protoconfig.Storage.Errors.{Result, ok, err, panic}
use protoconfig.Storage.Stores.{KeyRevision}
use protoconfig.Server.Revisions.{Revision, revision_value, updated_revision_value}
use protoconfig.Server.ConfigTypes.{ConfigType, StoreOf}
use protoconfig.Server.Tracker
use protoconfig.Server.Tracker.{Target, Stores, put_active}
use protoconfig.Server.Tracker.Laws.{
  bind-ok, ok_inj, ShowsNoSecret, set-ShowsNoSecret, history_redacted, reset_puts,
}
use protoconfig.Server.BaseServer.{
  clear_masked_fields, protected_mask, append_all, reset_masked, reset, history, history_options,
  entry,
}

module _ (C : ConfigType) (D A : StoreOf C.Spec) where
  protected_some :
      (f : String) (fs : List String) (mask m : Option (List String))
      → protected_mask C (f ∷ fs) mask ≡ ok m
      → (paths : List String) × (m ≡ some paths)
  unfolding protected_mask
  protected_some f fs none m h =
      let (paths, at, out) = bind-ok (append_all C (f ∷ fs) []) _ m h in
      (paths, sym (ok_inj _ m out))
  protected_some f fs (some mask) m h =
      let (paths, at, out) = bind-ok (append_all C (f ∷ fs) mask) _ m h in
      (paths, sym (ok_inj _ m out))

  -- For a config type with masked fields, Reset never deletes the active config: it leaves the stores as
  -- they were or puts a config in the active store.
  reset_keeps_history :
      (now : ℕ) (mask : Option (List String)) (patch : C.Spec) (st : Stores C D A) (f : String)
      (fs : List String)
      → C.masked_fields ≡ f ∷ fs
      → ((reset C D A now mask patch st).1 ≡ st)
        ⊎ ((v : C.Spec) × (r : Int64) × (reset C D A now mask patch st
              ≡ put_active C D A now (ok (v, r)) st))
  unfolding reset reset_masked
  reset_keeps_history now mask patch st f fs masked =
      go (protected_mask C C.masked_fields mask) refl
    where
      cleared : C.Spec
      cleared = clear_masked_fields C patch

      some_mask :
          (m : Option (List String))
          → ((paths : List String) × (m ≡ some paths))
          → ((Tracker.reset C D A now m cleared [] st).1 ≡ st)
            ⊎ ((v : C.Spec) × (r : Int64) × (Tracker.reset C D A now m cleared [] st
                  ≡ put_active C D A now (ok (v, r)) st))
      some_mask none given = absurd (ground (arith, given.1))
      some_mask (some paths) given = reset_puts C D A now paths cleared [] st

      go :
          (p : Result (Option (List String)))
          → protected_mask C C.masked_fields mask ≡ p
          → ((reset_masked C D A now cleared p st).1 ≡ st)
            ⊎ ((v : C.Spec) × (r : Int64) × (reset_masked C D A now cleared p st
                  ≡ put_active C D A now (ok (v, r)) st))
      go (ok m) q =
          some_mask m
            (protected_some f fs mask m (ap (λ l. protected_mask C l mask) (sym masked) ∙ q))
      go (err e) q = inl refl
      go panic q = inl refl

  entries_of :
      (include : Bool) (ks : List (KeyRevision C.Spec))
      → map (λ (e : C.Spec). revision_value (C.get_revision e)) (map (entry C D A include) ks)
        ≡ map (λ (k : KeyRevision C.Spec). k.revision) ks
  entries_of include [] = refl
  entries_of include (k ∷ ks) =
      let value = if include then k.value else C.new_spec in
      let revisions =
        map (λ (e : C.Spec). revision_value (C.get_revision e)) (map (entry C D A include) ks) in
      ap (λ (v : Int64). v ∷ revisions)
        (ap revision_value (C.get_revision-with_revision_field _ value)
          ∙ updated_revision_value k.revision (some k.timestamp) (C.get_revision value))
      ∙ ap (λ vs. k.revision ∷ vs) (entries_of include ks)

  entries_redacted :
      (ks : List (KeyRevision C.Spec))
      → All (λ k. ShowsNoSecret C k.value) ks
      → All (ShowsNoSecret C) (map (entry C D A true) ks)
  entries_redacted [] h = tt
  entries_redacted (k ∷ ks) h =
      (set-ShowsNoSecret C k.revision (some k.timestamp) k.value h.0, entries_redacted ks h.1)

  -- The entries that History answers with values show no secret and carry, in order, the revisions
  -- that the tracker's History has.
  history-entries :
      (target : Target) (revision : Option Revision) (st : Stores C D A) (es : List C.Spec)
      → history C D A target true revision st ≡ ok es
      → All (ShowsNoSecret C) es
        × ((ks : List (KeyRevision C.Spec)) × (Tracker.history C D A target
                (history_options C D A true revision)
                st
              ≡ ok ks)
            × (map (λ (e : C.Spec). revision_value (C.get_revision e)) es
                ≡ map (λ (k : KeyRevision C.Spec). k.revision) ks))
  unfolding history
  history-entries target revision st es h =
      let opts = history_options C D A true revision in
      let (ks, at, out) = bind-ok (Tracker.history C D A target opts st) _ es h in
      let same = ok_inj _ es out in
      (
        subst (All (ShowsNoSecret C)) same
            (entries_redacted ks (history_redacted C D A target opts st ks at)),
        (
          ks,
          at,
          ap (map (λ (e : C.Spec). revision_value (C.get_revision e))) (sym same)
              ∙ entries_of true ks,
        ),
      )
