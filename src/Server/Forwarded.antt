-- ===== src/Server/Forwarded.antt =====
-- The headers with which an authorized request goes on (`processAuthorizedRequest` and
-- `extractGroupsAndRoles` of main.go).
use traefikoidc.Base.{◌≡◌, Option, none, some, List, []}
use traefikoidc.Base.Map.{lookup}
use traefikoidc.Base.Text.{Str, lit}
use traefikoidc.Error.{ok, fail}
use traefikoidc.Jwt.{extract_claims}
use traefikoidc.Platform.{Claims}
use traefikoidc.Server.{Outside, Reply, Headers, forward}
use traefikoidc.Server.Authorize.{strings_of_claim, extract_groups_and_roles}

-- The groups and roles that an access token names: those of its claims, or none of either where the
-- token's claims or one of the two lists cannot be read.
pub data AreNamed (o : Outside) (access : Str) : List Str → List Str → Type 0 where
  read :
      (claims : Claims) (groups roles : List Str)
      → extract_claims o.platform access ≡ ok claims
      → strings_of_claim (lit "groups") (lookup (lit "groups") claims) ≡ ok groups
      → strings_of_claim (lit "roles") (lookup (lit "roles") claims) ≡ ok roles
      → AreNamed o access groups roles
  unread : (e : Str) → extract_groups_and_roles o access ≡ fail e → AreNamed o access [] []

-- the headers of a request that goes on
abbrev pub forwarded : Reply → Option Headers
forwarded (forward headers response) = some headers
forwarded _ = none
