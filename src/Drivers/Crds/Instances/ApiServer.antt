-- ===== src/Drivers/Crds/Instances/ApiServer.antt =====
-- An API server for the tests of the store: it counts the versions of the object from 1.
use protoconfig.Prelude.{
  ℕ, ◌+◌, ◌==◌, ◌<◌, ◌≡◌, ◌⊎◌, inl, inr, refl, sym, ap, Bool, true, false, Option, none, some,
  arith,
}
use protoconfig.Prelude.Int64.{Int64}
use protoconfig.Drivers.Crds.Api.{
  ApiError, missing, conflict, exists, Reply, done, failed, Object, Client,
}

abbrev pub found : Option (Object ℕ) → Reply (Object ℕ)
found none = failed missing
found (some o) = done o

abbrev pub deletable : Option Int64 → Option Int64 → Bool
deletable none v = true
deletable (some r) none = false
deletable (some r) (some v) = r == v

abbrev pub deleted_if : Bool → Object ℕ → Reply (Unit {0}) × Option (Object ℕ)
deleted_if true c = (done tt, none)
deleted_if false c = (failed conflict, some c)

abbrev pub deleted : Option Int64 → Option (Object ℕ) → Reply (Unit {0}) × Option (Object ℕ)
deleted r none = (failed missing, none)
deleted r (some c) = deleted_if (deletable r c.version) c

abbrev pub created : Object ℕ → Option (Object ℕ) → Reply (Object ℕ) × Option (Object ℕ)
created o none = (
  done (record o { version = some 1; created = 0 }),
  some (record o { version = some 1; created = 0 }),
)
created o (some c) = (failed exists, some c)

-- Whether an object that is sent has the version that is stored, or none
abbrev pub accepts : Option Int64 → Int64 → Bool
accepts none v = true
accepts (some w) v = w == v

abbrev pub replaced_if : Bool → Object ℕ → Option (Object ℕ) → Reply (Object ℕ) × Option (Object ℕ)
replaced_if true n s = (done n, some n)
replaced_if false n s = (failed conflict, s)

abbrev pub replaced :
    Object ℕ → Option Int64 → Option (Object ℕ) → Reply (Object ℕ) × Option (Object ℕ)
replaced o none s = (failed conflict, s)
replaced o (some v) s = replaced_if (accepts o.version v) (record o { version = some (v + 1) }) s

abbrev pub updated : Object ℕ → Option (Object ℕ) → Reply (Object ℕ) × Option (Object ℕ)
updated o none = (failed missing, none)
updated o (some c) = replaced o c.version (some c)

pub done_same : (o n : Object ℕ) → done o ≡ done n → o ≡ n
done_same o n h = ap (λ x. elim x [ done a ↦ a | failed e ↦ o ]) h

pub get-done : (s : Option (Object ℕ)) (o : Object ℕ) → found s ≡ done o → s ≡ some o
get-done none o h = absurd (ground (arith, h))
get-done (some c) o h = ap some (done_same c o h)

pub get-missing : (s : Option (Object ℕ)) → found s ≡ failed missing → s ≡ none
get-missing none h = refl
get-missing (some c) h = absurd (ground (arith, h))

pub create-done :
    (o n : Object ℕ) (s : Option (Object ℕ))
    → (created o s).0 ≡ done n
    → (s ≡ none)
      × ((r : Int64) × (t : ℕ) × (n ≡ record o { version = some r; created = t }))
      × (found (created o s).1 ≡ done n)
create-done o n none h =
    let p : _ ≡ n = done_same (record o { version = some 1; created = 0 }) n h in
    (refl, (1, 0, sym p), h)
create-done o n (some c) h = absurd (ground (arith, h))

accepts-lock : (w : Option Int64) (v : Int64) → accepts w v ≡ true → (w ≡ none) ⊎ (w ≡ some v)
accepts-lock none v h = inl refl
accepts-lock (some w) v h = inr (ground (arith, h))

replace_if-done :
    (b : Bool) (m n : Object ℕ) (s : Option (Object ℕ))
    → (replaced_if b m s).0 ≡ done n
    → (b ≡ true) × (n ≡ m) × (found (replaced_if b m s).1 ≡ done n)
replace_if-done true m n s h = (refl, sym (done_same m n h), h)
replace_if-done false m n s h = absurd (ground (arith, h))

replace-done :
    (o n c : Object ℕ) (w : Option Int64)
    → c.version ≡ w
    → (replaced o w (some c)).0 ≡ done n
    → (c' : Object ℕ) × (v r : Int64) × (some c ≡ some c')
      × (c'.version ≡ some v)
      × ((o.version ≡ none) ⊎ (o.version ≡ some v))
      × ((v < r) ⊎ (n ≡ c'))
      × (n ≡ record o { version = some r })
      × (found (replaced o w (some c)).1 ≡ done n)
replace-done o n c none is_v h = absurd (ground (arith, h))
replace-done o n c (some v) is_v h =
    let (p, q, read) =
      replace_if-done (accepts o.version v) (record o { version = some (v + 1) }) n (some c) h in
    (c, v, v + 1, refl, is_v, accepts-lock o.version v p, inl (omega arith), q, read)

pub update-done :
    (o n : Object ℕ) (s : Option (Object ℕ))
    → (updated o s).0 ≡ done n
    → (c : Object ℕ) × (v r : Int64) × (s ≡ some c)
      × (c.version ≡ some v)
      × ((o.version ≡ none) ⊎ (o.version ≡ some v))
      × ((v < r) ⊎ (n ≡ c))
      × (n ≡ record o { version = some r })
      × (found (updated o s).1 ≡ done n)
update-done o n none h = absurd (ground (arith, h))
update-done o n (some c) h = replace-done o n c c.version refl h

pub create_refused :
    (o : Object ℕ) (s : Option (Object ℕ)) (e : ApiError)
    → (created o s).0 ≡ failed e
    → (created o s).1 ≡ s
create_refused o none e h = absurd (ground (arith, h))
create_refused o (some c) e h = refl

replace_refused :
    (b : Bool) (m : Object ℕ) (s : Option (Object ℕ)) (e : ApiError)
    → (replaced_if b m s).0 ≡ failed e
    → (replaced_if b m s).1 ≡ s
replace_refused true m s e h = absurd (ground (arith, h))
replace_refused false m s e h = refl

replaced_refused :
    (o : Object ℕ) (w : Option Int64) (s : Option (Object ℕ)) (e : ApiError)
    → (replaced o w s).0 ≡ failed e
    → (replaced o w s).1 ≡ s
replaced_refused o none s e h = refl
replaced_refused o (some v) s e h = replace_refused _ _ s e h

pub update_refused :
    (o : Object ℕ) (s : Option (Object ℕ)) (e : ApiError)
    → (updated o s).0 ≡ failed e
    → (updated o s).1 ≡ s
update_refused o none e h = refl
update_refused o (some c) e h = replaced_refused o c.version (some c) e h

delete_if_refused :
    (b : Bool) (c : Object ℕ) (e : ApiError)
    → (deleted_if b c).0 ≡ failed e
    → (deleted_if b c).1 ≡ some c
delete_if_refused true c e h = absurd (ground (arith, h))
delete_if_refused false c e h = refl

pub delete_refused :
    (r : Option Int64) (s : Option (Object ℕ)) (e : ApiError)
    → (deleted r s).0 ≡ failed e
    → (deleted r s).1 ≡ s
delete_refused r none e h = refl
delete_refused r (some c) e h = delete_if_refused _ c e h

abbrev pub server : Client ℕ
server = record {
  State = Option (Object ℕ);
  stored = λ s. s;
  get = found;
  create = created;
  update = updated;
  delete = deleted;
  get-done = get-done;
  get-missing = get-missing;
  create-done = create-done;
  update-done = update-done;
  create_refused = create_refused;
  update_refused = update_refused;
  delete_refused = delete_refused;
}
