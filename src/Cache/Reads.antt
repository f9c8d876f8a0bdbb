-- ===== src/Cache/Reads.antt =====
-- The size of a cache of cache.go, what a read returns after a write, and what a write keeps.
use traefikoidc.Base.{
  ℕ, ◌+◌, ◌≤◌, ◌<◌, ◌≡◌, refl, ◌∙◌, Bool, true, false, Option, none, some, List, [], ◌∷◌, arith,
  if◌then◌else◌, is_some, length, length-append, leb, Bool-cases, Option-cases, inl, inr, ◌≢◌,
}
use traefikoidc.Base.Int.{ℤ, pos, ◌+ℤ◌, ◌≤ℤ◌, after}
use traefikoidc.Base.Map.{lookup, remove, Distinct, length-remove, lookup-remove}
use traefikoidc.Base.Text.{Str, str_eq, str_eq_iff, str_eq_refl}
use traefikoidc.Cache
use traefikoidc.Cache.{CacheItem, Cache, is_expired, new_cache, default_max_size}
use traefikoidc.Cache.Cleanup.{live}
use traefikoidc.Cache.Lru.{to_back, oldest_expired, oldest, victim, evict, lru_set, lru_get}
use traefikoidc.Cache.Operations.{new_cache-Refines, set-Refines, get-Refines}
use traefikoidc.Cache.Refines.{Refines, lookup-to_back}
use traefikoidc.Cache.Runs.{
  Call, set, get, delete, cleanup, run, spec_call, Sized, call-max_size, spec_call-Refines,
}
use traefikoidc.Base.{not, ◌&&◌}
use traefikoidc.Base.Map.{remove-Distinct}

module _ {ℓ} {V : Type ℓ} where
  oldest_expired-mem :
      (now : ℤ) (l : List (Str × CacheItem V)) (k : Str)
      → oldest_expired now l ≡ some k
      → is_some (lookup k l) ≡ true
  unfolding oldest_expired lookup
  oldest_expired-mem now [] k h = ground arith
  oldest_expired-mem now ((j, w) ∷ l) k h =
      ground (arith, oldest_expired-mem now l k, str_eq_iff j k)

  oldest-mem :
      (l : List (Str × CacheItem V)) (k : Str) → oldest l ≡ some k → is_some (lookup k l) ≡ true
  unfolding lookup
  oldest-mem [] k h = ground arith
  oldest-mem ((j, w) ∷ l) k h = ground (arith, str_eq_iff j k)

  -- A victim is found in every list that has an entry, and is one of its keys.
  victim-mem :
      (now : ℤ) (l : List (Str × CacheItem V))
      → 0 < length l
      → (k : Str) × (victim now l ≡ some k) × (is_some (lookup k l) ≡ true)
  unfolding victim
  victim-mem now [] h = absurd (omega arith)
  victim-mem now ((j, w) ∷ l) h = elim (Option-cases (oldest_expired now ((j, w) ∷ l))) [
    | inl p ↦ (j, rw (p, victim), oldest-mem ((j, w) ∷ l) j refl)
    | inr (k, p) ↦ (k, rw (p, victim), oldest_expired-mem now ((j, w) ∷ l) k p)
  ]

  length-evict :
      (now : ℤ) (l : List (Str × CacheItem V))
      → Distinct l
      → 0 < length l
      → length (evict now l) + 1 ≡ length l
  unfolding evict
  length-evict now l d h =
      let (k, p, q) = victim-mem now l h in rw (p, evict) (ground (arith, length-remove k l d))

  length-to_back :
      (k : Str) (item : CacheItem V) (l : List (Str × CacheItem V))
      → Distinct l
      → length (to_back k item l) ≡ length l + (if is_some (lookup k l) then 0 else 1)
  length-to_back k item l d =
      ground (arith, length-remove k l d, length-append (remove k l) ((k, item) ∷ []))

  evict-Distinct : (now : ℤ) (l : List (Str × CacheItem V)) → Distinct l → Distinct (evict now l)
  unfolding evict
  evict-Distinct now l d = elim (Option-cases (victim now l)) [
    | inl p ↦ rw (p, evict) d
    | inr (k, p) ↦ rw (p, evict) (remove-Distinct k l d)
  ]

  length-lru_set :
      (now : ℤ) (k : Str) (v : V) (d : ℤ) (l : List (Str × CacheItem V))
      → Distinct l
      → length l ≤ default_max_size
      → length (lru_set default_max_size now k v d l) ≤ default_max_size
  unfolding lru_set
  length-lru_set now k v d l dist h = ground (
    arith,
    length-to_back k (record { value = v; expires_at = now +ℤ d }) l dist,
    length-to_back k (record { value = v; expires_at = now +ℤ d }) (evict now l)
        (evict-Distinct now l dist),
    length-evict now l dist,
  )

  length-lru_get :
      (now : ℤ) (k : Str) (l : List (Str × CacheItem V))
      → Distinct l
      → length (lru_get now k l).0 ≤ length l
  unfolding lru_get
  length-lru_get now k l d = elim (Option-cases (lookup k l)) [
    | inl p ↦ rw (p, lru_get) (omega arith)
    | inr (item, p) ↦
        rw (p, lru_get) (ground (arith, length-remove k l d, length-to_back k item l d))
  ]

  length-live : (now : ℤ) (l : List (Str × CacheItem V)) → length (live now l) ≤ length l
  unfolding live
  length-live now [] = omega arith
  length-live now ((k, item) ∷ l) = ground (arith, length-live now l)

  pub length-spec_call :
      (x : Call V) (l : List (Str × CacheItem V))
      → Distinct l
      → length l ≤ default_max_size
      → length (spec_call x l).0 ≤ default_max_size
  unfolding spec_call
  length-spec_call (set now key value d) l dist h = length-lru_set now key value d l dist h
  length-spec_call (get now key) l dist h = omega (arith, length-lru_get now key l dist)
  length-spec_call (delete key) l dist h = omega (arith, length-remove key l dist)
  length-spec_call (cleanup now) l dist h = omega (arith, length-live now l)

  size_from :
      (tenth : ℤ → ℤ)
      → ((d : ℤ) → pos 0 ≤ℤ d → tenth d ≤ℤ d)
      → (xs : List (Call V)) {c : Cache V} {l : List (Str × CacheItem V)} → Sized c
      → Refines c l
      → length l ≤ default_max_size
      → length (run tenth xs c).0.items ≤ default_max_size
  unfolding run
  size_from tenth small [] z r h = omega (arith, r.sizes)
  size_from tenth small (x ∷ xs) {c} {l} z r h =
      let (r', same) = spec_call-Refines tenth small x z r in
      size_from tenth small xs (call-max_size tenth x c ∙ z) r' (length-spec_call x l r.distinct h)

-- Whatever the calls on a new cache, it never holds more than 500 items, where the product with 0.1
-- does not exceed a duration that is not negative.
pub run-size {ℓ} :
    {V : Type ℓ} (tenth : ℤ → ℤ)
    → ((d : ℤ) → pos 0 ≤ℤ d → tenth d ≤ℤ d)
    → (xs : List (Call V)) → length (run tenth xs new_cache).0.items ≤ 500
unfolding new_cache
run-size tenth small xs = size_from tenth small xs refl new_cache-Refines (omega arith)

abbrev pub is_victim : Str → Option Str → Bool
is_victim j none = false
is_victim j (some k) = str_eq k j

module _ {ℓ} {V : Type ℓ} where
  lookup-lru_set :
      (size : ℕ) (now : ℤ) (k : Str) (v : V) (d : ℤ) (l : List (Str × CacheItem V))
      → lookup k (lru_set size now k v d l) ≡ some (record { value = v; expires_at = now +ℤ d })
  unfolding lru_set
  lookup-lru_set size now k v d l = ground (
    arith,
    lookup-to_back k k (record { value = v; expires_at = now +ℤ d }) l,
    lookup-to_back k k (record { value = v; expires_at = now +ℤ d }) (evict now l),
    str_eq_refl k,
  )

  lookup-evict :
      (now : ℤ) (j : Str) (l : List (Str × CacheItem V))
      → lookup j (evict now l) ≡ (if is_victim j (victim now l) then none else lookup j l)
  unfolding evict
  lookup-evict now j l = elim (Option-cases (victim now l)) [
    | inl p ↦ rw (p, evict)
    | inr (k, p) ↦ rw (p, evict) (lookup-remove k j l)
  ]

  lookup-lru_set_ne :
      (size : ℕ) (now : ℤ) (k j : Str) (v : V) (d : ℤ) (l : List (Str × CacheItem V))
      → k ≢ j
      → lookup j (lru_set size now k v d l) ≡ (
          if not (is_some (lookup k l)) && leb size (length l)
          then (if is_victim j (victim now l) then none else lookup j l)
          else lookup j l)
  unfolding lru_set
  lookup-lru_set_ne size now k j v d l ne = ground (
    arith,
    str_eq_iff k j,
    lookup-evict now j l,
    lookup-to_back k j (record { value = v; expires_at = now +ℤ d }) l,
    lookup-to_back k j (record { value = v; expires_at = now +ℤ d }) (evict now l),
  )

  get-set_lem :
      (size : ℕ) (now now' : ℤ) (k : Str) (v : V) (d : ℤ) (l : List (Str × CacheItem V))
      → (lru_get now' k (lru_set size now k v d l)).1
        ≡ (if after now' (now +ℤ d) then none else some v)
  unfolding lru_get
  get-set_lem size now now' k v d l =
      rw (lookup-lru_set size now k v d l, lru_get)
        (elim (Bool-cases (after now' (now +ℤ d))) [ inl p ↦ rw p | inr p ↦ rw p ])

module _ {ℓ} {V : Type ℓ} {c : Cache V} {l : List (Str × CacheItem V)} (r : Refines c l) where
  -- What `Set` has stored, `Get` returns until its duration has passed, and then no more.
  pub get-set :
      (now now' : ℤ) (k : Str) (v : V) (d : ℤ)
      → (Cache.get now' k (Cache.set now k v d c)).1
        ≡ (if after now' (now +ℤ d) then none else some v)
  get-set now now' k v d =
      (get-Refines now' k (set-Refines now k v d r)).1 ∙ get-set_lem c.max_size now now' k v d l

  -- `Set` under a new key in a full cache takes away one entry, the victim: the oldest expired
  -- entry, or the least recently used one where none has expired. It keeps every other entry, and
  -- with room left or for a key that is there it keeps them all.
  pub set-keeps :
      (now : ℤ) (k j : Str) (v : V) (d : ℤ)
      → k ≢ j
      → lookup j (Cache.set now k v d c).items ≡ (
          if not (is_some (lookup k l)) && leb c.max_size (length l)
          then (if is_victim j (victim now l) then none else lookup j c.items)
          else lookup j c.items)
  set-keeps now k j v d ne =
      (set-Refines now k v d r).same_items j
      ∙ rw (r.same_items j) (lookup-lru_set_ne c.max_size now k j v d l ne)
