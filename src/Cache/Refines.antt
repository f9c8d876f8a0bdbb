-- ===== src/Cache/Refines.antt =====
-- The relation between a cache of cache.go and the list of entries that it stands for, and the
-- steps that keep it.
use traefikoidc.Base.{
  ℕ, ◌+◌, ◌<◌, ◌≡◌, refl, sym, ◌∙◌, true, none, some, List, [], ◌∷◌, ◌++◌, arith, ==_iff,
  if◌then◌else◌, is_some, length, length-append, All, Option-cases, inl, inr,
}
use traefikoidc.Base.Map.{
  lookup, insert, remove, Distinct, lookup-insert, lookup-remove, lookup-append, remove-Distinct,
  insert-Distinct, concat-Distinct, length-remove, length-insert, remove_absent,
}
use traefikoidc.Base.Text.{Str, str_eq, str_eq_iff, str_eq_refl}
use traefikoidc.Cache.{
  CacheItem, Elem, Cache, remove_elem, find_elem, move_to_back, remove_item, touch, add_item,
}
use traefikoidc.Cache.Lru.{to_back}

module _ {ℓ} {V : Type ℓ} where
  abbrev pub Aligned : List Elem → List (Str × CacheItem V) → Type 0
  Aligned [] [] = Unit
  Aligned (e ∷ es) ((key, item) ∷ l) = (e.key ≡ key) × Aligned es l
  Aligned _ _ = ⊥

abbrev pub Indexed : List (Str × ℕ) → List Elem → Type 0
Indexed elems = All (λ (e : Elem). lookup e.key elems ≡ some e.id)

abbrev pub Injective : List (Str × ℕ) → Type 0
Injective elems = (j k : Str) (i : ℕ) → lookup j elems ≡ some i → lookup k elems ≡ some i → j ≡ k

-- The cache stands for the list: the elements are its keys in order, both maps have exactly its
-- keys, each element is the one that `elems` gives for its key, and no key is repeated.
pub record Refines {ℓ} {V : Type ℓ} (c : Cache V) (l : List (Str × CacheItem V)) : Type ℓ where
  pub aligned : Aligned c.order l
  pub indexed : Indexed c.elems c.order
  pub same_items : (k : Str) → lookup k c.items ≡ lookup k l
  pub same_elems : (k : Str) → is_some (lookup k c.elems) ≡ is_some (lookup k l)
  pub injective : Injective c.elems
  pub fresh : (k : Str) (i : ℕ) → lookup k c.elems ≡ some i → i < c.next_id
  pub distinct : Distinct l
  pub distinct_items : Distinct c.items
  pub sizes : length c.items ≡ length l

Indexed-remove :
    (es : List Elem) (elems : List (Str × ℕ)) (k : Str) (i : ℕ)
    → Indexed elems es
    → lookup k elems ≡ some i
    → Indexed (remove k elems) (remove_elem i es)
unfolding remove_elem
Indexed-remove [] elems k i x h = tt
Indexed-remove (e ∷ es) elems k i x h =
    ground
      (arith, Indexed-remove es elems k i x.1 h, str_eq_iff k e.key, lookup-remove k e.key elems)

Indexed-remove_elem :
    (es : List Elem) (elems : List (Str × ℕ)) (i : ℕ)
    → Indexed elems es
    → Indexed elems (remove_elem i es)
unfolding remove_elem
Indexed-remove_elem [] elems i x = tt
Indexed-remove_elem (e ∷ es) elems i x = ground (arith, Indexed-remove_elem es elems i x.1)

Indexed-concat :
    (es : List Elem) (elems : List (Str × ℕ)) (e : Elem)
    → Indexed elems es
    → lookup e.key elems ≡ some e.id
    → Indexed elems (es ++ e ∷ [])
Indexed-concat [] elems e x h = (h, tt)
Indexed-concat (d ∷ es) elems e x h = (x.0, Indexed-concat es elems e x.1 h)

Indexed-insert :
    (es : List Elem) (elems : List (Str × ℕ)) (k : Str) (i : ℕ)
    → Indexed elems es
    → lookup k elems ≡ none
    → Indexed (insert k i elems) es
Indexed-insert [] elems k i x h = tt
Indexed-insert (e ∷ es) elems k i x h =
    ground
      (arith, Indexed-insert es elems k i x.1 h, lookup-insert k e.key i elems, str_eq_iff k e.key)

module _ {ℓ} {V : Type ℓ} where
  Aligned-remove :
      (es : List Elem) (l : List (Str × CacheItem V)) (elems : List (Str × ℕ)) (k : Str) (i : ℕ)
      → Aligned es l
      → Indexed elems es
      → Injective elems
      → lookup k elems ≡ some i
      → Aligned (remove_elem i es) (remove k l)
  unfolding remove_elem remove
  Aligned-remove [] [] elems k i a x inj h = tt
  Aligned-remove [] (p ∷ l) elems k i a x inj h = absurd a
  Aligned-remove (e ∷ es) [] elems k i a x inj h = absurd a
  Aligned-remove (e ∷ es) ((j, w) ∷ l) elems k i a x inj h = ground (
    arith,
    Aligned-remove es l elems k i a.1 x.1 inj h,
    str_eq_iff j k,
    ==_iff e.id i,
    inj e.key k i,
  )

  Aligned-concat :
      (es : List Elem) (l : List (Str × CacheItem V)) (e : Elem) (item : CacheItem V)
      → Aligned es l
      → Aligned (es ++ e ∷ []) (l ++ (e.key, item) ∷ [])
  Aligned-concat [] [] e item a = (refl, tt)
  Aligned-concat [] (p ∷ l) e item a = absurd a
  Aligned-concat (d ∷ es) [] e item a = absurd a
  Aligned-concat (d ∷ es) (p ∷ l) e item a = (a.0, Aligned-concat es l e item a.1)

  find_elem-Aligned :
      (es : List Elem) (l : List (Str × CacheItem V)) (elems : List (Str × ℕ)) (k : Str) (i : ℕ)
      → Aligned es l
      → Indexed elems es
      → Injective elems
      → lookup k elems ≡ some i
      → is_some (lookup k l) ≡ true
      → find_elem i es ≡ some (record { id = i; key = k })
  unfolding find_elem lookup
  find_elem-Aligned [] [] elems k i a x inj h p = ground arith
  find_elem-Aligned [] (q ∷ l) elems k i a x inj h p = absurd a
  find_elem-Aligned (e ∷ es) [] elems k i a x inj h p = absurd a
  find_elem-Aligned (e ∷ es) ((j, w) ∷ l) elems k i a x inj h p = ground (
    arith,
    find_elem-Aligned es l elems k i a.1 x.1 inj h,
    str_eq_iff j k,
    ==_iff e.id i,
    inj e.key k i,
  )

  -- `removeItem` removes the entry.
  pub remove_item-Refines :
      {c : Cache V} {l : List (Str × CacheItem V)} (k : Str)
      → Refines c l
      → Refines (remove_item k c) (remove k l)
  unfolding remove_item
  remove_item-Refines {c} {l} k r = elim (Option-cases (lookup k c.elems)) [
    | inl h ↦
        let p : lookup k l ≡ none = ground (arith, r.same_elems k) in
        rw (h, remove_item)
          (rw (remove_absent k c.items (r.same_items k ∙ p), remove_absent k l p) r)
    | inr (i, h) ↦
        rw (h, remove_item)
          (record {
            aligned = Aligned-remove c.order l c.elems k i r.aligned r.indexed r.injective h;
            indexed = Indexed-remove c.order c.elems k i r.indexed h;
            same_items =
                λ j. ground (arith, lookup-remove k j c.items, lookup-remove k j l, r.same_items j);
            same_elems =
                λ j. ground (arith, lookup-remove k j c.elems, lookup-remove k j l, r.same_elems j);
            injective = λ j m n p q.
                ground
                  (arith, lookup-remove k j c.elems, lookup-remove k m c.elems, r.injective j m n);
            fresh = λ j n p. ground (arith, lookup-remove k j c.elems, r.fresh j n);
            distinct = remove-Distinct k l r.distinct;
            distinct_items = remove-Distinct k c.items r.distinct_items;
            sizes = ground (
              arith,
              length-remove k l r.distinct,
              length-remove k c.items r.distinct_items,
              r.same_items k,
              r.sizes,
            );
          })
  ]

  length-to_back :
      (k : Str) (item : CacheItem V) (l : List (Str × CacheItem V))
      → Distinct l
      → length (to_back k item l) ≡ length l + (if is_some (lookup k l) then 0 else 1)
  length-to_back k item l d =
      ground (arith, length-remove k l d, length-append (remove k l) ((k, item) ∷ []))

  to_back-Distinct :
      (k : Str) (item : CacheItem V) (l : List (Str × CacheItem V))
      → Distinct l
      → Distinct (to_back k item l)
  to_back-Distinct k item l d =
      concat-Distinct k item (remove k l) (remove-Distinct k l d)
        (rw (lookup-remove k k l, str_eq_refl k))

  pub lookup-to_back :
      (k j : Str) (item : CacheItem V) (l : List (Str × CacheItem V))
      → lookup j (to_back k item l) ≡ (if str_eq k j then some item else lookup j l)
  unfolding lookup
  lookup-to_back k j item l =
      ground (arith, lookup-append j (remove k l) ((k, item) ∷ []), lookup-remove k j l)

  -- An entry that is written or read goes to the back, with its new item.
  pub touch-Refines :
      {c : Cache V} {l : List (Str × CacheItem V)} (k : Str) (item : CacheItem V)
      (items : List (Str × CacheItem V))
      → Refines c l
      → is_some (lookup k l) ≡ true
      → ((j : Str) → lookup j items ≡ (if str_eq k j then some item else lookup j l))
      → Distinct items
      → length items ≡ length l
      → Refines (touch k (record c { items = items })) (to_back k item l)
  unfolding touch
  touch-Refines {c} {l} k item items r here same d n = elim (Option-cases (lookup k c.elems)) [
    | inl h ↦ absurd (ground (arith, r.same_elems k))
    | inr (i, h) ↦
        let found =
          find_elem-Aligned c.order l c.elems k i r.aligned r.indexed r.injective h here in
        rw (h, touch, found, move_to_back)
          (record {
            aligned =
                Aligned-concat (remove_elem i c.order) (remove k l) (record { id = i; key = k })
                  item (Aligned-remove c.order l c.elems k i r.aligned r.indexed r.injective h);
            indexed =
                Indexed-concat (remove_elem i c.order) c.elems (record { id = i; key = k })
                  (Indexed-remove_elem c.order c.elems i r.indexed) h;
            same_items = λ j. same j ∙ sym (lookup-to_back k j item l);
            same_elems = λ j.
                ground (
                  arith,
                  lookup-to_back k j item l,
                  r.same_elems j,
                  r.same_elems k,
                  str_eq_iff k j,
                );
            injective = r.injective;
            fresh = r.fresh;
            distinct = to_back-Distinct k item l r.distinct;
            distinct_items = d;
            sizes = ground (arith, length-to_back k item l r.distinct);
          })
  ]

  -- An item under a new key is added at the back, with a new element.
  pub add_item-Refines :
      {c : Cache V} {l : List (Str × CacheItem V)} (k : Str) (item : CacheItem V)
      → Refines c l
      → lookup k l ≡ none
      → Refines (add_item k item c) (to_back k item l)
  unfolding add_item
  add_item-Refines {c} {l} k item r absent =
      let gone : lookup k c.elems ≡ none = ground (arith, r.same_elems k) in
      record {
        aligned =
            rw (remove_absent k l absent)
              (Aligned-concat c.order l (record { id = c.next_id; key = k }) item r.aligned);
        indexed =
            Indexed-concat c.order (insert k c.next_id c.elems) (record { id = c.next_id; key = k })
              (Indexed-insert c.order c.elems k c.next_id r.indexed gone)
              (rw (lookup-insert k k c.next_id c.elems, str_eq_refl k));
        same_items = λ j.
            ground
              (arith, lookup-insert k j item c.items, lookup-to_back k j item l, r.same_items j);
        same_elems = λ j.
            ground (
              arith,
              lookup-insert k j c.next_id c.elems,
              lookup-to_back k j item l,
              r.same_elems j,
            );
        injective = λ j m n p q. ground (
          arith,
          lookup-insert k j c.next_id c.elems,
          lookup-insert k m c.next_id c.elems,
          r.injective j m n,
          r.fresh j n,
          r.fresh m n,
          str_eq_iff k j,
          str_eq_iff k m,
        );
        fresh = λ j n p. ground (arith, lookup-insert k j c.next_id c.elems, r.fresh j n);
        distinct = to_back-Distinct k item l r.distinct;
        distinct_items = insert-Distinct k item c.items r.distinct_items;
        sizes = ground (
          arith,
          length-to_back k item l r.distinct,
          length-insert k item c.items,
          r.same_items k,
          r.sizes,
        );
      }
