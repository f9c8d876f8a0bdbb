-- ===== src/Tests/Caches.antt =====
-- Runs of the cache.
use traefikoidc.Base.{
  not, ◌&&◌, leb, is_some, if◌then◌else◌, length, none, some, List, [], ◌∷◌, ◌≡◌, ◌≤◌, ◌≢◌, arith,
  refl, ℕ,
}
use traefikoidc.Base.Int.{ℤ, pos, ◌+ℤ◌, after}
use traefikoidc.Base.Map.{lookup, remove}
use traefikoidc.Base.Text.{Str, lit, str_eq}
use traefikoidc.Cache
use traefikoidc.Cache.{Cache, CacheItem, new_cache}
use traefikoidc.Cache.Cleanup.{live, cleanup-Refines}
use traefikoidc.Cache.Lru.{victim, lru_set}
use traefikoidc.Cache.Operations.{new_cache-Refines, set-Refines}
use traefikoidc.Cache.Reads.{run-size, get-set, set-keeps, is_victim}
use traefikoidc.Cache.Refines.{Refines}
use traefikoidc.Cache.Runs.{Call, set, get, cleanup, run, spec_run, run-Refines}

abbrev nothing : ℤ → ℤ
nothing d = pos 0

abbrev calls : List (Call ℕ)
calls =
    set (pos 0) (lit "a") 7 (pos 10)
    ∷ get (pos 5) (lit "a")
    ∷ cleanup (pos 20)
    ∷ get (pos 20) (lit "a")
    ∷ []

run-Refines_example :
    Refines (run nothing calls new_cache).0 (spec_run calls []).0
    × ((run nothing calls new_cache).1 ≡ (spec_run calls []).1)
run-Refines_example = run-Refines nothing (λ d h. h) calls

run-size_example : length (run nothing calls new_cache).0.items ≤ 500
run-size_example = run-size nothing (λ d h. h) calls

abbrev empty : Cache ℕ
empty = new_cache

get-set_example :
    (Cache.get (pos 5) (lit "a") (Cache.set (pos 0) (lit "a") 7 (pos 10) empty)).1
    ≡ (if after (pos 5) (pos 0 +ℤ pos 10) then none else some 7)
get-set_example = get-set new_cache-Refines (pos 0) (pos 5) (lit "a") 7 (pos 10)

a_is_not_b : lit "a" ≢ lit "b"
unfolding lit
a_is_not_b h = absurd (ground (arith, h))

-- a cache with room for one entry, which is in use
abbrev small : Cache ℕ
small = record empty { max_size = 1 }

small-Refines : Refines small []
unfolding new_cache
small-Refines =
    let r : Refines {V = ℕ} new_cache [] = new_cache-Refines in
    record {
      aligned = r.aligned;
      indexed = r.indexed;
      same_items = r.same_items;
      same_elems = r.same_elems;
      injective = r.injective;
      fresh = r.fresh;
      distinct = r.distinct;
      distinct_items = r.distinct_items;
      sizes = r.sizes;
    }

abbrev full : Cache ℕ
full = Cache.set (pos 0) (lit "b") 8 (pos 10) small

abbrev full_listed : List (Str × CacheItem ℕ)
full_listed = lru_set small.max_size (pos 0) (lit "b") 8 (pos 10) []

set-keeps_example : lookup (lit "b") (Cache.set (pos 0) (lit "a") 7 (pos 10) full).items ≡ (
    if not (is_some (lookup (lit "a") full_listed)) && leb full.max_size (length full_listed)
    then (if is_victim (lit "b") (victim (pos 0) full_listed)
        then none
        else lookup (lit "b") full.items)
    else lookup (lit "b") full.items)
set-keeps_example =
    set-keeps (set-Refines (pos 0) (lit "b") 8 (pos 10) small-Refines) (pos 0) (lit "a") (lit "b") 7
      (pos 10) a_is_not_b

-- one entry that has ended at the instant of the clean-up, and one that has not
abbrev two_entries : Cache ℕ
two_entries = Cache.set (pos 0) (lit "b") 8 (pos 10) (Cache.set (pos 0) (lit "a") 7 (pos 1) empty)

abbrev two_listed : List (Str × CacheItem ℕ)
two_listed =
    lru_set empty.max_size (pos 0) (lit "b") 8 (pos 10)
      (lru_set empty.max_size (pos 0) (lit "a") 7 (pos 1) [])

one_left : live (pos 3) two_listed ≡ (lit "b", record { value = 8; expires_at = pos 10 }) ∷ []
unfolding lru_set lookup lit ◌+ℤ◌ live remove new_cache str_eq
one_left = refl

two_entries-Refines : Refines two_entries two_listed
unfolding Cache.set lru_set lookup new_cache
two_entries-Refines =
    set-Refines (pos 0) (lit "b") 8 (pos 10)
      (set-Refines (pos 0) (lit "a") 7 (pos 1) new_cache-Refines)

cleanup-Refines_example :
    Refines (Cache.cleanup nothing (pos 3) two_entries) (live (pos 3) two_listed)
cleanup-Refines_example = cleanup-Refines nothing (λ d h. h) (pos 3) two_entries-Refines
