-- ===== src/Cache/Cleanup.antt =====
-- `Cleanup` of cache.go, and the filter of the entries that it is compared with.
use traefikoidc.Base.{
  ◌≡◌, refl, sym, ◌∙◌, ap, fun_ext, Bool, true, false, ◌&&◌, ◌||◌, Option, none, some, List, [],
  ◌∷◌, arith, if◌then◌else◌, is_some, Bool-cases, inl, inr,
}
use traefikoidc.Base.Int.{ℤ, pos, ◌≤ℤ◌}
use traefikoidc.Base.Map.{lookup, remove, Distinct}
use traefikoidc.Base.Text.{Str, str_eq, str_eq_iff, str_eq_refl}
use traefikoidc.Cache.{CacheItem, Cache, is_expired, is_stale, cleanup_from, cleanup}
use traefikoidc.Cache.Operations.{is_stale-is_expired}
use traefikoidc.Cache.Refines.{Refines, remove_item-Refines}

module _ {ℓ} {V : Type ℓ} where
  -- the entries that have not expired
  unfoldable pub live : ℤ → List (Str × CacheItem V) → List (Str × CacheItem V)
  live now [] = []
  live now ((k, item) ∷ l) = if is_expired now item then live now l else (k, item) ∷ live now l

  -- the entries whose keys fail a test
  without : (Str → Bool) → List (Str × CacheItem V) → List (Str × CacheItem V)
  without p [] = []
  without p ((k, item) ∷ l) = if p k then without p l else (k, item) ∷ without p l

  remove-without :
      (k : Str) (p : Str → Bool) (l : List (Str × CacheItem V))
      → without p (remove k l) ≡ without (λ j. str_eq j k || p j) l
  unfolding without remove
  remove-without k p [] = refl
  remove-without k p ((j, w) ∷ l) = ground (arith, remove-without k p l)

  -- whether the loop of `Cleanup` over `xs` removes a key
  hit : (ℤ → ℤ) → ℤ → List (Str × CacheItem V) → Str → Bool
  hit tenth now [] j = false
  hit tenth now ((k, item) ∷ xs) j = (is_stale tenth now item && str_eq j k) || hit tenth now xs j

  without-false : (l : List (Str × CacheItem V)) → without (λ j. false) l ≡ l
  unfolding without
  without-false [] = refl
  without-false (p ∷ l) = ap (◌∷◌ p) (without-false l)

  without-hit :
      (tenth : ℤ → ℤ) (now : ℤ) (k : Str) (item : CacheItem V) (xs l : List (Str × CacheItem V))
      → without (hit tenth now ((k, item) ∷ xs)) l ≡ (
          if is_stale tenth now item
          then without (hit tenth now xs) (remove k l)
          else without (hit tenth now xs) l)
  unfolding hit
  without-hit tenth now k item xs l = elim (Bool-cases (is_stale tenth now item)) [
    | inl gone ↦ rw gone (
        ap (λ p. without p l) (fun_ext (λ j. rw (gone, hit)))
        ∙ sym (remove-without k (hit tenth now xs) l))
    | inr kept ↦ rw kept (ap (λ p. without p l) (fun_ext (λ j. rw (kept, hit))))
  ]

  cleanup_from-Refines :
      (tenth : ℤ → ℤ) (now : ℤ) (xs : List (Str × CacheItem V)) {c : Cache V}
      {l : List (Str × CacheItem V)}
      → Refines c l
      → Refines (cleanup_from tenth now xs c) (without (hit tenth now xs) l)
  unfolding cleanup_from hit
  cleanup_from-Refines tenth now [] {l = l} r = rw (without-false l) r
  cleanup_from-Refines tenth now ((k, item) ∷ xs) {l = l} r =
      rw (without-hit tenth now k item xs l) (elim (Bool-cases (is_stale tenth now item)) [
        | inl gone ↦ rw gone (cleanup_from-Refines tenth now xs (remove_item-Refines k r))
        | inr kept ↦ rw kept (cleanup_from-Refines tenth now xs r)
      ])

  abbrev found_stale : (ℤ → ℤ) → ℤ → Option (CacheItem V) → Bool
  found_stale tenth now none = false
  found_stale tenth now (some item) = is_stale tenth now item

  hit-lookup :
      (tenth : ℤ → ℤ) (now : ℤ) (xs : List (Str × CacheItem V)) (j : Str)
      → Distinct xs
      → hit tenth now xs j ≡ found_stale tenth now (lookup j xs)
  unfolding hit lookup
  hit-lookup tenth now [] j d = refl
  hit-lookup tenth now ((k, item) ∷ xs) j d =
      ground (arith, hit-lookup tenth now xs j d.1, str_eq_iff j k, str_eq_iff k j)

  without-live :
      (tenth : ℤ → ℤ)
      → ((d : ℤ) → pos 0 ≤ℤ d → tenth d ≤ℤ d)
      → (now : ℤ) (p : Str → Bool) (l : List (Str × CacheItem V)) → Distinct l
      → ((j : Str) → is_some (lookup j l) ≡ true → p j ≡ found_stale tenth now (lookup j l))
      → without p l ≡ live now l
  unfolding without live lookup
  without-live tenth small now p [] d h = refl
  without-live tenth small now p ((k, item) ∷ l) d h = ground (
    arith,
    without-live tenth small now p l d.1
        (λ j q. h j (still j q) ∙ ap (found_stale tenth now) (skip j q)),
    h k (rw (str_eq_refl k)),
    str_eq_refl k,
    is_stale-is_expired tenth small now item,
  )
    where
      other : (j : Str) → is_some (lookup j l) ≡ true → str_eq k j ≡ false
      other j q = ground (arith, str_eq_iff k j)

      still : (j : Str) → is_some (lookup j l) ≡ true → is_some (lookup j ((k, item) ∷ l)) ≡ true
      still j q = rw (other j q) q

      skip : (j : Str) → is_some (lookup j l) ≡ true → lookup j ((k, item) ∷ l) ≡ lookup j l
      skip j q = rw (other j q)

  -- `Cleanup` keeps exactly the entries that have not expired, in their order, where the product with
  -- 0.1 does not exceed a duration that is not negative.
  pub cleanup-Refines :
      (tenth : ℤ → ℤ)
      → ((d : ℤ) → pos 0 ≤ℤ d → tenth d ≤ℤ d)
      → (now : ℤ) {c : Cache V} {l : List (Str × CacheItem V)} → Refines c l
      → Refines (cleanup tenth now c) (live now l)
  unfolding cleanup
  cleanup-Refines tenth small now {c} {l} r =
      rw
        (← without-live tenth small now (hit tenth now c.items) l r.distinct (λ j q.
          hit-lookup tenth now c.items j r.distinct_items
          ∙ ap (found_stale tenth now) (r.same_items j)))
        (cleanup_from-Refines tenth now c.items r)
