-- ===== src/Cache/Runs.antt =====
-- Whole runs of a cache of cache.go, its size, and what a read returns after a write.
use traefikoidc.Base.{◌≡◌, refl, ◌∙◌, ap₂, Option, none, List, [], ◌∷◌, arith}
use traefikoidc.Base.Int.{ℤ, pos, ◌≤ℤ◌}
use traefikoidc.Base.Map.{remove}
use traefikoidc.Base.Text.{Str}
use traefikoidc.Cache
use traefikoidc.Cache.{CacheItem, Cache, is_expired, new_cache, default_max_size}
use traefikoidc.Cache.Cleanup.{live, cleanup-Refines}
use traefikoidc.Cache.Lru.{lru_set, lru_get}
use traefikoidc.Cache.Operations.{new_cache-Refines, set-Refines, get-Refines, delete-Refines}
use traefikoidc.Cache.Refines.{Refines}

-- A call of a method, with the instant at which it is made.
pub data Call {ℓ} (V : Type ℓ) : Type ℓ where
  set : ℤ → Str → V → ℤ → Call V
  get : ℤ → Str → Call V
  delete : Str → Call V
  cleanup : ℤ → Call V

module _ {ℓ} {V : Type ℓ} (tenth : ℤ → ℤ) where
  -- one call: the new cache, and what a `Get` returns
  unfoldable pub call : Call V → Cache V → Cache V × Option V
  call (set now key value d) c = (Cache.set now key value d c, none)
  call (get now key) c = Cache.get now key c
  call (delete key) c = (Cache.delete key c, none)
  call (cleanup now) c = (Cache.cleanup tenth now c, none)

  unfoldable pub run : List (Call V) → Cache V → Cache V × List (Option V)
  unfolding call
  run [] c = (c, [])
  run (x ∷ xs) c =
      let (c', reply) = call x c in let (d, replies) = run xs c' in (d, reply ∷ replies)

module _ {ℓ} {V : Type ℓ} where
  -- the same on the list of entries
  unfoldable pub spec_call : Call V → List (Str × CacheItem V) → List (Str × CacheItem V) × Option V
  spec_call (set now key value d) l = (lru_set default_max_size now key value d l, none)
  spec_call (get now key) l = lru_get now key l
  spec_call (delete key) l = (remove key l, none)
  spec_call (cleanup now) l = (live now l, none)

  unfoldable pub spec_run :
      List (Call V) → List (Str × CacheItem V) → List (Str × CacheItem V) × List (Option V)
  unfolding spec_call
  spec_run [] l = (l, [])
  spec_run (x ∷ xs) l =
      let (l', reply) = spec_call x l in let (m, replies) = spec_run xs l' in (m, reply ∷ replies)

  abbrev pub Sized : Cache V → Type 0
  Sized c = c.max_size ≡ default_max_size

  touch-max_size : (k : Str) (c : Cache V) → (Cache.touch k c).max_size ≡ c.max_size
  unfolding Cache.touch
  touch-max_size k c = ground arith

  remove_item-max_size : (k : Str) (c : Cache V) → (Cache.remove_item k c).max_size ≡ c.max_size
  unfolding Cache.remove_item
  remove_item-max_size k c = ground arith

  evict_oldest-max_size : (now : ℤ) (c : Cache V) → (Cache.evict_oldest now c).max_size ≡ c.max_size
  unfolding Cache.evict_oldest
  evict_oldest-max_size now c = grind (arith, remove_item-max_size)

  cleanup_from-max_size :
      (tenth : ℤ → ℤ) (now : ℤ) (xs : List (Str × CacheItem V)) (c : Cache V)
      → (Cache.cleanup_from tenth now xs c).max_size ≡ c.max_size
  unfolding Cache.cleanup_from
  cleanup_from-max_size tenth now [] c = refl
  cleanup_from-max_size tenth now ((k, item) ∷ xs) c = ground (
    arith,
    cleanup_from-max_size tenth now xs c,
    cleanup_from-max_size tenth now xs (Cache.remove_item k c),
    remove_item-max_size k c,
  )

  pub call-max_size :
      (tenth : ℤ → ℤ) (x : Call V) (c : Cache V) → (call tenth x c).0.max_size ≡ c.max_size
  unfolding call Cache.set Cache.get Cache.delete Cache.cleanup Cache.add_item
  call-max_size tenth (set now key value d) c = grind (arith, touch-max_size, evict_oldest-max_size)
  call-max_size tenth (get now key) c = grind (arith, touch-max_size, remove_item-max_size)
  call-max_size tenth (delete key) c = remove_item-max_size key c
  call-max_size tenth (cleanup now) c = cleanup_from-max_size tenth now c.items c

  pub spec_call-Refines :
      (tenth : ℤ → ℤ)
      → ((d : ℤ) → pos 0 ≤ℤ d → tenth d ≤ℤ d)
      → (x : Call V) {c : Cache V} {l : List (Str × CacheItem V)} → Sized c
      → Refines c l
      → Refines (call tenth x c).0 (spec_call x l).0 × ((call tenth x c).1 ≡ (spec_call x l).1)
  unfolding call spec_call
  spec_call-Refines tenth small (set now key value d) z r =
      (rw (← z) (set-Refines now key value d r), refl)
  spec_call-Refines tenth small (get now key) z r = get-Refines now key r
  spec_call-Refines tenth small (delete key) z r = (delete-Refines key r, refl)
  spec_call-Refines tenth small (cleanup now) z r = (cleanup-Refines tenth small now r, refl)

  run-Refines_from :
      (tenth : ℤ → ℤ)
      → ((d : ℤ) → pos 0 ≤ℤ d → tenth d ≤ℤ d)
      → (xs : List (Call V)) {c : Cache V} {l : List (Str × CacheItem V)} → Sized c
      → Refines c l
      → Refines (run tenth xs c).0 (spec_run xs l).0 × ((run tenth xs c).1 ≡ (spec_run xs l).1)
  unfolding run spec_run
  run-Refines_from tenth small [] z r = (r, refl)
  run-Refines_from tenth small (x ∷ xs) {c} {l} z r =
      let (r', same) = spec_call-Refines tenth small x z r in
      let (r'', later) = run-Refines_from tenth small xs (call-max_size tenth x c ∙ z) r' in
      (r'', ap₂ ◌∷◌ same later)

-- From a new cache, any sequence of calls of `Set`, `Get`, `Delete` and `Cleanup` answers every
-- `Get` as the list of entries in order of use does, and ends in a cache that stands for that
-- list. `tenth` is the floating-point product with 0.1, of which it is assumed that it does not
-- exceed a duration that is not negative.
pub run-Refines {ℓ} :
    {V : Type ℓ} (tenth : ℤ → ℤ)
    → ((d : ℤ) → pos 0 ≤ℤ d → tenth d ≤ℤ d)
    → (xs : List (Call V))
    → Refines (run tenth xs new_cache).0 (spec_run xs []).0
      × ((run tenth xs new_cache).1 ≡ (spec_run xs []).1)
unfolding new_cache
run-Refines tenth small xs = run-Refines_from tenth small xs refl new_cache-Refines
