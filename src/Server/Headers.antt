-- ===== src/Server/Headers.antt =====
-- The headers that main.go makes for a user.
use traefikoidc.Base.{◌≡◌, refl, ◌∙◌, ap, false, Option, some, List, [], ◌∷◌, arith, if◌then◌else◌}
use traefikoidc.Base.Map.{lookup, insert, lookup-insert}
use traefikoidc.Base.Text.{Str, lit, str_eq, join}
use traefikoidc.Server.{Service, Outside, Request}
use traefikoidc.Server.Authorize.{user_headers, templated, apply_templates, set_joined}

-- the value of a list header: the list, or what the request itself says where the list is empty
abbrev pub listed_or_own : List Str → Option Str → Option Str
listed_or_own [] own = own
listed_or_own (s ∷ names) own = some (join (lit ",") (s ∷ names))

no_templates :
    (s : Service) (o : Outside) (access refresh : Str) (h : List (Str × Str))
    → s.header_templates ≡ []
    → templated s o access refresh h ≡ h
unfolding templated apply_templates
no_templates s o access refresh h p = ground (arith, p)

lookup-set_joined :
    (name j : Str) (names : List Str) (h : List (Str × Str))
    → lookup j (set_joined name names h)
      ≡ (if str_eq name j then listed_or_own names (lookup j h) else lookup j h)
lookup-set_joined name j [] h = ground arith
lookup-set_joined name j (s ∷ names) h = lookup-insert name j (join (lit ",") (s ∷ names)) h

-- the headers before the token's own
named_headers : Request → Str → List Str → List Str → List (Str × Str)
named_headers req email groups roles = insert (lit "X-Auth-Request-User") email (
    insert (lit "X-Auth-Request-Redirect") req.request_uri (
      insert (lit "X-Forwarded-User") email (
        set_joined (lit "X-User-Roles") roles
          (set_joined (lit "X-User-Groups") groups req.headers))))

-- The value that a header name has among the headers before the token's own.
lookup-named :
    (j : Str) (req : Request) (email : Str) (groups roles : List Str)
    → lookup j (named_headers req email groups roles) ≡ (
        if str_eq (lit "X-Auth-Request-User") j
        then some email
        else (if str_eq (lit "X-Auth-Request-Redirect") j
            then some req.request_uri
            else (if str_eq (lit "X-Forwarded-User") j
                then some email
                else (if str_eq (lit "X-User-Roles") j
                    then listed_or_own roles
                        (lookup j (set_joined (lit "X-User-Groups") groups req.headers))
                    else lookup j (set_joined (lit "X-User-Groups") groups req.headers)))))
unfolding named_headers
lookup-named j req email groups roles =
    rw
      (
        lookup-insert,
        lookup-insert,
        lookup-insert,
        lookup-set_joined (lit "X-User-Roles") j roles
            (set_joined (lit "X-User-Groups") groups req.headers),
      )
      refl

lookup-user_headers :
    (j : Str) (s : Service) (o : Outside) (req : Request) (email access refresh : Str)
    (groups roles : List Str)
    → s.header_templates ≡ []
    → str_eq (lit "X-Auth-Request-Token") j ≡ false
    → lookup j (user_headers s o req email access refresh groups roles)
      ≡ lookup j (named_headers req email groups roles)
unfolding user_headers named_headers
lookup-user_headers j s o req email access refresh groups roles h k =
    ap (lookup j) (no_templates s o access refresh _ h)
    ∙ ground (
      arith,
      lookup-insert (lit "X-Auth-Request-Token") j access (named_headers req email groups roles),
    )

-- The user, group and role headers that are made from these lists.
pub user_headers_lem :
    (s : Service) (o : Outside) (req : Request) (email access refresh : Str)
    (groups roles : List Str)
    → s.header_templates ≡ []
    → (lookup (lit "X-Forwarded-User") (user_headers s o req email access refresh groups roles)
        ≡ some email)
      × (lookup (lit "X-Auth-Request-User") (user_headers s o req email access refresh groups roles)
          ≡ some email)
      × (lookup (lit "X-User-Groups") (user_headers s o req email access refresh groups roles)
          ≡ listed_or_own groups (lookup (lit "X-User-Groups") req.headers))
      × (lookup (lit "X-User-Roles") (user_headers s o req email access refresh groups roles)
          ≡ listed_or_own roles (lookup (lit "X-User-Roles") req.headers))
unfolding lit str_eq
user_headers_lem s o req email access refresh groups roles h = (
  lookup-user_headers (lit "X-Forwarded-User") s o req email access refresh groups roles h refl
      ∙ lookup-named (lit "X-Forwarded-User") req email groups roles,
  lookup-user_headers (lit "X-Auth-Request-User") s o req email access refresh groups roles h refl
      ∙ lookup-named (lit "X-Auth-Request-User") req email groups roles,
  lookup-user_headers (lit "X-User-Groups") s o req email access refresh groups roles h refl
      ∙ lookup-named (lit "X-User-Groups") req email groups roles
      ∙ lookup-set_joined (lit "X-User-Groups") (lit "X-User-Groups") groups req.headers,
  lookup-user_headers (lit "X-User-Roles") s o req email access refresh groups roles h refl
      ∙ lookup-named (lit "X-User-Roles") req email groups roles
      ∙ ap (listed_or_own roles)
          (lookup-set_joined (lit "X-User-Groups") (lit "X-User-Roles") groups req.headers),
)
