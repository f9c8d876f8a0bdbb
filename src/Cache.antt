-- ===== src/Cache.antt =====
-- cache.go: a bounded map with expiry and least-recently-used eviction. The list of package
-- `container/list` is a sequence of elements with an identity each, and `elems` maps a key to the
-- identity of its element, as the source maps it to a pointer. A method takes the instant that
-- `time.Now()` returns.
pub mod Lru
pub mod Refines
pub mod Operations
pub mod Cleanup
pub mod Runs
pub mod Reads
use traefikoidc.Base.{
  ℕ, ◌+◌, Bool, ◌||◌, Option, none, some, List, [], ◌∷◌, ◌++◌, leb, ◌==◌, if◌then◌else◌, is_some,
  length,
}
use traefikoidc.Base.Int.{ℤ, ◌+ℤ◌, ◌-ℤ◌, after}
use traefikoidc.Base.Map.{lookup, insert, remove}
use traefikoidc.Base.Text.{Str}

pub record CacheItem {ℓ} (V : Type ℓ) : Type ℓ where
  pub value : V
  pub expires_at : ℤ

-- A `*list.Element` that holds an `lruEntry`.
pub record Elem : Type 0 where
  pub id : ℕ
  pub key : Str

pub record Cache {ℓ} (V : Type ℓ) : Type ℓ where
  pub items : List (Str × CacheItem V)
  pub order : List Elem
  pub elems : List (Str × ℕ)
  -- the identity that the next element gets
  pub next_id : ℕ
  pub max_size : ℕ

-- `l.Remove(e)`
unfoldable pub remove_elem : ℕ → List Elem → List Elem
remove_elem i [] = []
remove_elem i (e ∷ es) = if e.id == i then remove_elem i es else e ∷ remove_elem i es

unfoldable pub find_elem : ℕ → List Elem → Option Elem
find_elem i [] = none
find_elem i (e ∷ es) = if e.id == i then some e else find_elem i es

-- `l.MoveToBack(e)`
unfoldable pub move_to_back : ℕ → List Elem → List Elem
unfolding remove_elem find_elem
move_to_back i es = elim (find_elem i es) [ none ↦ es | some e ↦ remove_elem i es ++ e ∷ [] ]

-- the key of `order.Front()`
abbrev pub front : List Elem → Option Str
front [] = none
front (e ∷ es) = some e.key

abbrev pub default_max_size : ℕ
default_max_size = 500

module _ {ℓ} {V : Type ℓ} where
  unfoldable pub new_cache : Cache V
  new_cache = record {
    items = [];
    order = [];
    elems = [];
    next_id = 0;
    max_size = default_max_size;
  }

  -- `removeItem`
  unfoldable pub remove_item : Str → Cache V → Cache V
  unfolding remove_elem
  remove_item key c = elim (lookup key c.elems) [
    | none ↦ record c { items = remove key c.items }
    | some e ↦ record c {
      items = remove key c.items;
      order = remove_elem e c.order;
      elems = remove key c.elems;
    }
  ]

  -- the step that `Get` and `Set` share: the element of a key goes to the back
  unfoldable pub touch : Str → Cache V → Cache V
  unfolding move_to_back
  touch key c = elim (lookup key c.elems) [
    | none ↦ c
    | some e ↦ record c { order = move_to_back e c.order }
  ]

  abbrev pub is_expired : ℤ → CacheItem V → Bool
  is_expired now item = after now item.expires_at

  -- the first element of the list whose item has expired
  unfoldable pub first_expired : ℤ → List (Str × CacheItem V) → List Elem → Option Str
  first_expired now items [] = none
  first_expired now items (e ∷ es) =
      let rest = first_expired now items es in
      elim (lookup e.key items) [
        | none ↦ rest
        | some item ↦ if is_expired now item then some e.key else rest
      ]

  -- `evictOldest`
  unfoldable pub evict_oldest : ℤ → Cache V → Cache V
  unfolding remove_item first_expired
  evict_oldest now c = elim (first_expired now c.items c.order) [
    | some key ↦ remove_item key c
    | none ↦ elim (front c.order) [ some key ↦ remove_item key c | none ↦ c ]
  ]

  -- the part of `Set` that adds an item under a new key
  unfoldable pub add_item : Str → CacheItem V → Cache V → Cache V
  add_item key item c = record c {
    items = insert key item c.items;
    order = c.order ++ record { id = c.next_id; key = key } ∷ [];
    elems = insert key c.next_id c.elems;
    next_id = c.next_id + 1;
  }

  -- `Set`
  unfoldable pub set : ℤ → Str → V → ℤ → Cache V → Cache V
  unfolding touch evict_oldest add_item
  set now key value expiration c =
      let item : CacheItem V = record { value = value; expires_at = now +ℤ expiration } in
      if is_some (lookup key c.items)
      then touch key (record c { items = insert key item c.items })
      else add_item key item (if leb c.max_size (length c.items) then evict_oldest now c else c)

  -- `Get`
  unfoldable pub get : ℤ → Str → Cache V → Cache V × Option V
  unfolding remove_item touch
  get now key c = elim (lookup key c.items) [
    | none ↦ (c, none)
    | some item ↦
        if is_expired now item then (remove_item key c, none) else (touch key c, some item.value)
  ]

  -- `Delete`
  unfoldable pub delete : Str → Cache V → Cache V
  unfolding remove_item
  delete key c = remove_item key c

  -- The test of `Cleanup`; `tenth d` is `time.Duration(float64(d) * 0.1)`, in floating point.
  unfoldable pub is_stale : (ℤ → ℤ) → ℤ → CacheItem V → Bool
  is_stale tenth now item =
      is_expired now item || after (now +ℤ tenth (item.expires_at -ℤ now)) item.expires_at

  -- the loop of `Cleanup` over the items
  unfoldable pub cleanup_from : (ℤ → ℤ) → ℤ → List (Str × CacheItem V) → Cache V → Cache V
  unfolding remove_item is_stale
  cleanup_from tenth now [] c = c
  cleanup_from tenth now ((key, item) ∷ rest) c =
      cleanup_from tenth now rest (if is_stale tenth now item then remove_item key c else c)

  -- `Cleanup`
  unfoldable pub cleanup : (ℤ → ℤ) → ℤ → Cache V → Cache V
  unfolding cleanup_from
  cleanup tenth now c = cleanup_from tenth now c.items c
