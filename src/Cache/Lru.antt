-- ===== src/Cache/Lru.antt =====
-- What a cache of cache.go promises: a list of the live entries, the least recently used first,
-- with no element pointers and no second map.
use traefikoidc.Base.{
  Option, none, some, List, [], ◌∷◌, ◌++◌, leb, if◌then◌else◌, is_some, length, ℕ,
}
use traefikoidc.Base.Int.{ℤ, ◌+ℤ◌}
use traefikoidc.Base.Map.{lookup, remove}
use traefikoidc.Base.Text.{Str}
use traefikoidc.Cache.{CacheItem, is_expired}

module _ {ℓ} {V : Type ℓ} where
  abbrev pub to_back : Str → CacheItem V → List (Str × CacheItem V) → List (Str × CacheItem V)
  to_back key item l = remove key l ++ (key, item) ∷ []

  -- the oldest of the expired entries
  unfoldable pub oldest_expired : ℤ → List (Str × CacheItem V) → Option Str
  oldest_expired now [] = none
  oldest_expired now ((key, item) ∷ l) =
      let rest = oldest_expired now l in if is_expired now item then some key else rest

  abbrev pub oldest : List (Str × CacheItem V) → Option Str
  oldest [] = none
  oldest ((key, item) ∷ l) = some key

  -- an expired entry goes first, else the least recently used
  unfoldable pub victim : ℤ → List (Str × CacheItem V) → Option Str
  unfolding oldest_expired
  victim now l = elim (oldest_expired now l) [ some key ↦ some key | none ↦ oldest l ]

  unfoldable pub evict : ℤ → List (Str × CacheItem V) → List (Str × CacheItem V)
  unfolding victim
  evict now l = elim (victim now l) [ some key ↦ remove key l | none ↦ l ]

  unfoldable pub lru_set : ℕ → ℤ → Str → V → ℤ → List (Str × CacheItem V) → List (Str × CacheItem V)
  unfolding evict
  lru_set max_size now key value expiration l =
      let item : CacheItem V = record { value = value; expires_at = now +ℤ expiration } in
      if is_some (lookup key l)
      then to_back key item l
      else to_back key item (if leb max_size (length l) then evict now l else l)

  unfoldable pub lru_get : ℤ → Str → List (Str × CacheItem V) → List (Str × CacheItem V) × Option V
  lru_get now key l = elim (lookup key l) [
    | none ↦ (l, none)
    | some item ↦
        if is_expired now item then (remove key l, none) else (to_back key item l, some item.value)
  ]
