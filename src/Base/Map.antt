-- ===== src/Base/Map.antt =====
-- Go's maps with string keys, as association lists without a repeated key. The order of the pairs
-- is that of insertion; Go leaves it open.
use Prim.Native.Nat.{◌+◌}
use mathlib.Core.Path.{◌≡◌, refl}
use mathlib.Core.List.{List, [], ◌∷◌, ◌++◌}
use mathlib.Core.Option.{Option, none, some}
use native.Mathlib.Omega.{arith}
use traefikoidc.Base.Tests.{if◌then◌else◌, is_some}
use traefikoidc.Base.Lists.{length}
use traefikoidc.Base.Text.{Str, str_eq, str_eq_iff}

module _ {ℓ} {V : Type ℓ} where
  -- `m[k]`
  unfoldable pub lookup : Str → List (Str × V) → Option V
  lookup k [] = none
  lookup k ((j, v) ∷ m) = if str_eq j k then some v else lookup k m

  -- `m[k] = v`
  unfoldable pub insert : Str → V → List (Str × V) → List (Str × V)
  insert k v [] = (k, v) ∷ []
  insert k v ((j, w) ∷ m) = if str_eq j k then (k, v) ∷ m else (j, w) ∷ insert k v m

  -- `delete(m, k)`
  unfoldable pub remove : Str → List (Str × V) → List (Str × V)
  remove k [] = []
  remove k ((j, w) ∷ m) = if str_eq j k then remove k m else (j, w) ∷ remove k m

  abbrev pub Distinct : List (Str × V) → Type ℓ
  Distinct [] = Unit
  Distinct ((k, v) ∷ m) = (lookup k m ≡ none) × Distinct m

  pub lookup-insert :
      (k j : Str) (v : V) (m : List (Str × V))
      → lookup j (insert k v m) ≡ (if str_eq k j then some v else lookup j m)
  unfolding lookup insert
  lookup-insert k j v [] = refl
  lookup-insert k j v ((i, w) ∷ m) =
      ground (arith, str_eq_iff k j, str_eq_iff i k, str_eq_iff i j, lookup-insert k j v m)

  pub lookup-remove :
      (k j : Str) (m : List (Str × V))
      → lookup j (remove k m) ≡ (if str_eq k j then none else lookup j m)
  unfolding lookup remove
  lookup-remove k j [] = ground arith
  lookup-remove k j ((i, w) ∷ m) =
      ground (arith, str_eq_iff k j, str_eq_iff i k, str_eq_iff i j, lookup-remove k j m)

  pub lookup-append :
      (k : Str) (m n : List (Str × V))
      → lookup k (m ++ n) ≡ (if is_some (lookup k m) then lookup k m else lookup k n)
  unfolding lookup
  lookup-append k [] n = refl
  lookup-append k ((i, w) ∷ m) n = ground (arith, lookup-append k m n)

  pub remove_absent : (k : Str) (m : List (Str × V)) → lookup k m ≡ none → remove k m ≡ m
  unfolding lookup remove
  remove_absent k [] h = refl
  remove_absent k ((i, w) ∷ m) h = ground (arith, remove_absent k m)

  pub remove-Distinct : (k : Str) (m : List (Str × V)) → Distinct m → Distinct (remove k m)
  unfolding lookup remove
  remove-Distinct k [] d = tt
  remove-Distinct k ((i, w) ∷ m) d =
      ground (arith, remove-Distinct k m, lookup-remove k i m, str_eq_iff k i)

  pub insert-Distinct :
      (k : Str) (v : V) (m : List (Str × V)) → Distinct m → Distinct (insert k v m)
  unfolding lookup insert
  insert-Distinct k v [] d = (refl, tt)
  insert-Distinct k v ((i, w) ∷ m) d =
      ground (arith, insert-Distinct k v m, lookup-insert k i v m, str_eq_iff i k, str_eq_iff k i)

  pub concat-Distinct :
      (k : Str) (v : V) (m : List (Str × V))
      → Distinct m
      → lookup k m ≡ none
      → Distinct (m ++ (k, v) ∷ [])
  unfolding lookup
  concat-Distinct k v [] d h = (refl, tt)
  concat-Distinct k v ((i, w) ∷ m) d h = ground (
    arith,
    concat-Distinct k v m,
    lookup-append i m ((k, v) ∷ []),
    str_eq_iff i k,
    str_eq_iff k i,
  )

  pub length-remove :
      (k : Str) (m : List (Str × V))
      → Distinct m
      → length (remove k m) + (if is_some (lookup k m) then 1 else 0) ≡ length m
  unfolding lookup remove
  length-remove k [] d = refl
  length-remove k ((i, w) ∷ m) d =
      ground (arith, length-remove k m, str_eq_iff i k, remove_absent k m)

  pub length-insert :
      (k : Str) (v : V) (m : List (Str × V))
      → length (insert k v m) ≡ length m + (if is_some (lookup k m) then 0 else 1)
  unfolding lookup insert
  length-insert k v [] = refl
  length-insert k v ((i, w) ∷ m) = ground (arith, length-insert k v m)
