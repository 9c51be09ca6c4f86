-- ===== src/Drivers/Crds/Watch/Links.antt =====
-- storage/drivers/crds/value_store.go: how the deliveries of Watch follow one another.
use protoconfig.Prelude.{◌≡◌, refl, Option, none, some, List, [], ◌∷◌, ◌++◌, ◌⊎◌, inl, inr, arith}
use protoconfig.Prelude.Int64.{Int64}
use protoconfig.Storage.Errors.{Result, ok, err, panic}
use protoconfig.Storage.Stores.{KeyRevision, WatchEvent, WatchEventType, event_put, event_delete}
use protoconfig.Server.ConfigTypes.{ConfigType}
use protoconfig.Drivers.Crds.Api.{Object}
use protoconfig.Drivers.Crds.Encoding.{HistoryCodec}
use protoconfig.Drivers.Crds.{Methods}
use protoconfig.Drivers.Crds.Watch.{
  ApiEvent, added, modified, deleted, bookmark, failure, running, crashed, revision_before, gone,
  live, step, deliveries,
}

-- How a delivery follows what was seen last: a put has it as its previous value, and a deletion has its
-- revision.
abbrev LinkOf {ℓ} :
    {A : Type ℓ}
    → WatchEventType
    → Option (KeyRevision A)
    → Option (KeyRevision A)
    → Option (KeyRevision A)
    → Type ℓ
LinkOf {A = A} event_put last current previous =
    (previous ≡ last) × ((c : KeyRevision A) × (current ≡ some c))
LinkOf {A = A} event_delete last current previous =
    (current ≡ none)
    × ((p : KeyRevision A) × (previous ≡ some p)
        × ((last ≡ none) ⊎ ((k : KeyRevision A) × (last ≡ some k) × (p.revision ≡ k.revision))))

abbrev pub Links {ℓ} : {A : Type ℓ} → Option (KeyRevision A) → List (WatchEvent A) → Type ℓ
Links last [] = Unit
Links last (e ∷ es) = LinkOf e.event_type last e.current e.previous × Links e.current es

module _ (C : ConfigType) {B : Type 0} (methods : Methods C.Spec B) (codec : HistoryCodec C.Spec)
    (asked latest : Option Int64) where
  deliveries-crashed :
      (es : List (ApiEvent B)) → deliveries C methods codec asked latest crashed es ≡ []
  unfolding deliveries step
  deliveries-crashed [] = refl
  deliveries-crashed (e ∷ es) = deliveries-crashed es

  crashed-Links :
      (last : Option (KeyRevision C.Spec)) (es : List (ApiEvent B))
      → Links last (deliveries C methods codec asked latest crashed es)
  crashed-Links last es = rw (deliveries-crashed es) tt

  -- What a deletion sends, before deliveries that follow it
  gone-Links :
      (last : Option (KeyRevision C.Spec)) (o : Object B) (r : Result Int64)
      (es : List (ApiEvent B))
      → revision_before C methods codec last o ≡ r
      → Links none (deliveries C methods codec asked latest (running none) es)
      → Links last (
          (gone C methods codec o r).0
          ++ deliveries C methods codec asked latest (gone C methods codec o r).1 es)
  unfolding gone
  gone-Links none o (ok r) es h rest = ((refl, (_, refl, inl refl)), rest)
  gone-Links (some k) o (ok r) es h rest =
      ((refl, (_, refl, inr (k, refl, ground (arith, h)))), rest)
  gone-Links last o (err e) es h rest = crashed-Links last es
  gone-Links last o panic es h rest = crashed-Links last es

  -- Once the first event is dealt with, each put is sent with what was sent or seen last before it as its
  -- previous value, and each deletion with the revision of that, up to a panic.
  pub deliveries-Links :
      (last : Option (KeyRevision C.Spec)) (es : List (ApiEvent B))
      → Links last (deliveries C methods codec asked latest (running last) es)
  unfolding deliveries step live
  deliveries-Links last [] = tt
  deliveries-Links last (added o ∷ es) = ((refl, (_, refl)), deliveries-Links _ es)
  deliveries-Links last (modified o ∷ es) = ((refl, (_, refl)), deliveries-Links _ es)
  deliveries-Links last (deleted o ∷ es) = gone-Links last o _ es refl (deliveries-Links none es)
  deliveries-Links last (bookmark o ∷ es) = deliveries-Links last es
  deliveries-Links last (failure ∷ es) = crashed-Links last es
