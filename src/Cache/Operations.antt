-- ===== src/Cache/Operations.antt =====
-- The methods of cache.go against the list of entries of Cache/Lru.
use traefikoidc.Base.{
  ◌≡◌, refl, ◌∙◌, ap, true, false, none, some, List, [], ◌∷◌, arith, is_some, length, Bool-cases,
  Option-cases, inl, inr, leb,
}
use traefikoidc.Base.Int.{ℤ, pos, ◌+ℤ◌, ◌-ℤ◌, ◌≤ℤ◌, int_laws, before-false, le_of_not_before}
use traefikoidc.Base.Map.{
  lookup, insert, remove, Distinct, lookup-insert, lookup-remove, insert-Distinct, length-insert,
}
use traefikoidc.Base.Text.{Str, str_eq, str_eq_iff, str_eq_refl}
use traefikoidc.Cache.{
  CacheItem, Elem, Cache, first_expired, front, evict_oldest, set, get, delete, is_expired,
  is_stale, new_cache,
}
use traefikoidc.Cache.Lru.{oldest_expired, oldest, victim, evict, lru_set, lru_get}
use traefikoidc.Cache.Refines.{
  Aligned, Refines, remove_item-Refines, touch-Refines, add_item-Refines,
}

module _ {ℓ} {V : Type ℓ} where
  -- A new cache is empty.
  pub new_cache-Refines : Refines {V = V} new_cache []
  unfolding new_cache lookup
  new_cache-Refines = record {
    aligned = tt;
    indexed = tt;
    same_items = λ k. refl;
    same_elems = λ k. refl;
    injective = λ j k i p q. ground arith;
    fresh = λ k i p. ground arith;
    distinct = tt;
    distinct_items = tt;
    sizes = refl;
  }

  first_expired-oldest_expired :
      (now : ℤ) (items : List (Str × CacheItem V)) (es : List Elem) (l : List (Str × CacheItem V))
      → Aligned es l
      → Distinct l
      → ((k : Str) → is_some (lookup k l) ≡ true → lookup k items ≡ lookup k l)
      → first_expired now items es ≡ oldest_expired now l
  unfolding first_expired oldest_expired lookup
  first_expired-oldest_expired now items [] [] a d same = refl
  first_expired-oldest_expired now items [] (p ∷ l) a d same = absurd a
  first_expired-oldest_expired now items (e ∷ es) [] a d same = absurd a
  first_expired-oldest_expired now items (e ∷ es) ((j, w) ∷ l) a d same = ground (
    arith,
    first_expired-oldest_expired now items es l a.1 d.1 (λ k p. same k (still k p) ∙ skip k p),
    same e.key (rw (a.0, str_eq_refl j)),
    str_eq_iff j e.key,
  )
    where
      other : (k : Str) → is_some (lookup k l) ≡ true → str_eq j k ≡ false
      other k p = ground (arith, str_eq_iff j k)

      still : (k : Str) → is_some (lookup k l) ≡ true → is_some (lookup k ((j, w) ∷ l)) ≡ true
      still k p = rw (other k p) p

      skip : (k : Str) → is_some (lookup k l) ≡ true → lookup k ((j, w) ∷ l) ≡ lookup k l
      skip k p = rw (other k p)

  front-oldest :
      (es : List Elem) (l : List (Str × CacheItem V)) → Aligned es l → front es ≡ oldest l
  front-oldest [] [] a = refl
  front-oldest [] (p ∷ l) a = absurd a
  front-oldest (e ∷ es) [] a = absurd a
  front-oldest (e ∷ es) ((j, w) ∷ l) a = ap some a.0

  evict_oldest-Refines :
      {c : Cache V} {l : List (Str × CacheItem V)} (now : ℤ)
      → Refines c l
      → Refines (evict_oldest now c) (evict now l)
  unfolding evict_oldest evict victim
  evict_oldest-Refines {c} {l} now r =
      rw
        (
          first_expired-oldest_expired now c.items c.order l r.aligned r.distinct
              (λ k _. r.same_items k),
          evict_oldest,
        )
        (elim (Option-cases (oldest_expired now l)) [
          | inr (k, h) ↦ rw (h, evict, victim) (remove_item-Refines k r)
          | inl h ↦
              rw (h, evict, victim, front-oldest c.order l r.aligned)
                (elim (Option-cases (oldest l)) [
                  | inr (k, p) ↦ rw p (remove_item-Refines k r)
                  | inl p ↦ rw p r
                ])
        ])

  lookup-evict :
      (now : ℤ) (k : Str) (l : List (Str × CacheItem V))
      → lookup k l ≡ none
      → lookup k (evict now l) ≡ none
  unfolding evict
  lookup-evict now k l h = elim (Option-cases (victim now l)) [
    | inl p ↦ rw (p, evict) h
    | inr (j, p) ↦ rw (p, evict) (ground (arith, lookup-remove j k l))
  ]

  -- `Set` implements its specification.
  pub set-Refines :
      {c : Cache V} {l : List (Str × CacheItem V)} (now : ℤ) (key : Str) (value : V)
      (expiration : ℤ)
      → Refines c l
      → Refines (set now key value expiration c) (lru_set c.max_size now key value expiration l)
  unfolding set lru_set
  set-Refines {c} {l} now key value expiration r =
      let item : CacheItem V = record { value = value; expires_at = now +ℤ expiration } in
      elim (Bool-cases (is_some (lookup key l))) [
        | inl here ↦
            rw (r.same_items key, here)
              (touch-Refines key item (insert key item c.items) r here
                (λ j. ground (arith, lookup-insert key j item c.items, r.same_items j))
                (insert-Distinct key item c.items r.distinct_items)
                (ground (arith, length-insert key item c.items, r.same_items key, r.sizes)))
        | inr new ↦
            rw (r.same_items key, new, r.sizes)
              (elim (Bool-cases (leb c.max_size (length l))) [
                | inl full ↦ rw full (
                    add_item-Refines key item (evict_oldest-Refines now r)
                      (lookup-evict now key l (ground arith)))
                | inr room ↦ rw room (add_item-Refines key item r (ground arith))
              ])
      ]

  -- `Get` implements its specification.
  pub get-Refines :
      {c : Cache V} {l : List (Str × CacheItem V)} (now : ℤ) (key : Str)
      → Refines c l
      → Refines (get now key c).0 (lru_get now key l).0
        × ((get now key c).1 ≡ (lru_get now key l).1)
  unfolding get lru_get
  get-Refines {c} {l} now key r =
      rw (r.same_items key, get)
        (elim (Option-cases (lookup key l)) [
          | inl p ↦ rw (p, lru_get) (r, refl)
          | inr (item, p) ↦
              rw (p, lru_get)
                (elim (Bool-cases (is_expired now item)) [
                  | inl gone ↦ rw gone (remove_item-Refines key r, refl)
                  | inr live ↦ rw live (
                    touch-Refines key item c.items r (ground arith)
                        (λ j. ground (arith, r.same_items j, str_eq_iff key j)) r.distinct_items
                        r.sizes,
                    refl,
                  )
                ])
        ])

  -- `Delete` removes the entry of the key and nothing else.
  pub delete-Refines :
      {c : Cache V} {l : List (Str × CacheItem V)} (key : Str)
      → Refines c l
      → Refines (delete key c) (remove key l)
  unfolding delete
  delete-Refines key r = remove_item-Refines key r

  -- The second test of `Cleanup` adds nothing to the first: what is a tenth of the way from the
  -- end has not ended.
  pub is_stale-is_expired :
      (tenth : ℤ → ℤ)
      → ((d : ℤ) → pos 0 ≤ℤ d → tenth d ≤ℤ d)
      → (now : ℤ) (item : CacheItem V) → is_stale tenth now item ≡ is_expired now item
  unfolding is_stale
  is_stale-is_expired tenth small now item = elim (Bool-cases (is_expired now item)) [
    | inl gone ↦ rw gone
    | inr live ↦ rw live (
        before-false item.expires_at (now +ℤ tenth (item.expires_at -ℤ now)) (
          omega (
            int_laws,
            le_of_not_before item.expires_at now live,
            small (item.expires_at -ℤ now)
                (omega (int_laws, le_of_not_before item.expires_at now live)),
          )))
  ]
