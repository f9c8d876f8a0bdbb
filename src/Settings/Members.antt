-- ===== src/Settings/Members.antt =====
-- The sets of strings (helpers.go) have the members of their lists.
use traefikoidc.Base.{◌≡◌, ◌∙◌, refl, ◌||◌, List, [], ◌∷◌, any, arith, is_some}
use traefikoidc.Base.Map.{lookup, insert, lookup-insert}
use traefikoidc.Base.Text.{Str, str_eq}
use traefikoidc.Settings.{add_strings, create_string_map}

lookup-add_strings :
    (k : Str) (keys : List Str) (m : List (Str × Unit {0}))
    → is_some (lookup k (add_strings keys m))
      ≡ any (λ key. str_eq key k) keys || is_some (lookup k m)
unfolding add_strings
lookup-add_strings k [] m = refl
lookup-add_strings k (key ∷ keys) m =
    ground (arith, lookup-add_strings k keys (insert key tt m), lookup-insert key k tt m)

-- The members of the set that `createStringMap` makes are the strings of the list.
pub lookup-create_string_map :
    (k : Str) (keys : List Str)
    → is_some (lookup k (create_string_map keys)) ≡ any (λ key. str_eq key k) keys
unfolding create_string_map lookup
lookup-create_string_map k keys = lookup-add_strings k keys [] ∙ ground arith
