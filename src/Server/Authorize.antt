-- ===== src/Server/Authorize.antt =====
-- The last steps of an authenticated request (main.go): `processAuthorizedRequest` and
-- `extractGroupsAndRoles`.
use traefikoidc.Base.{Bool, true, Option, none, some, List, [], ◌∷◌, ◌++◌, any, if◌then◌else◌}
use traefikoidc.Base.Map.{lookup, insert}
use traefikoidc.Base.Text.{Str, lit, str_eq, is_blank, join}
use traefikoidc.Error.{Result, ok, fail, ◌>>=◌, wrapped}
use traefikoidc.Jwt.{extract_claims, elements}
use traefikoidc.Platform.{Json, str, arr}
use traefikoidc.Server.{
  Service, Outside, Request, State, Reply, Headers, TemplateData, forward, preflight, get_header,
  send_error_response, is_allowed_domain,
}
use traefikoidc.Server.Initiate.{initiate}
use traefikoidc.Session.{SessionData}
use traefikoidc.Session.Manager.{get_email}
use traefikoidc.Session.Token.{get_access_token, get_refresh_token}

-- the loop over a claim's array, which skips what is no string
unfoldable pub strings : List Json → List Str
strings [] = []
strings (str s ∷ vs) = s ∷ strings vs
strings (_ ∷ vs) = strings vs

-- one of the two claims: absent, an array, or an error
unfoldable pub strings_of_claim : Str → Option Json → Result (List Str)
strings_of_claim name none = ok []
strings_of_claim name (some (arr vs)) = ok (strings (elements vs))
strings_of_claim name (some _) = fail (name ++ lit " claim is not an array")

-- `extractGroupsAndRoles`
unfoldable pub extract_groups_and_roles : Outside → Str → Result (List Str × List Str)
extract_groups_and_roles o id_token = do
  claims ← wrapped (lit "failed to extract claims") (extract_claims o.platform id_token)
  groups ← strings_of_claim (lit "groups") (lookup (lit "groups") claims)
  roles ← strings_of_claim (lit "roles") (lookup (lit "roles") claims)
  ok (groups, roles)

-- both lists, or none where the extraction fails
abbrev pub groups_or_none : Result (List Str × List Str) → List Str × List Str
groups_or_none (ok p) = p
groups_or_none (fail e) = ([], [])

-- a header that is set only from a list with entries
abbrev pub set_joined : Str → List Str → Headers → Headers
set_joined name [] headers = headers
set_joined name (s ∷ names) headers = insert name (join (lit ",") (s ∷ names)) headers

-- the test of the roles and groups against the allowed ones
unfoldable pub is_allowed_role : (allowed groups roles : List Str) → Bool
is_allowed_role [] groups roles = true
is_allowed_role (a ∷ allowed) groups roles =
    any (λ name. any (λ b. str_eq b name) (a ∷ allowed)) (groups ++ roles)

-- the loop over the header templates
unfoldable pub apply_templates : Outside → TemplateData → List (Str × Str) → Headers → Headers
apply_templates o d [] headers = headers
apply_templates o d ((name, template) ∷ templates) headers =
    apply_templates o d templates (elim (o.execute template d) [
      | none ↦ headers
      | some value ↦ insert (o.canonical name) value headers
    ])

-- the templated headers, if there are any and the claims can be read
unfoldable pub templated : Service → Outside → (access refresh : Str) → Headers → Headers
templated s o access refresh headers = elim (extract_claims o.platform access) [
  | fail e ↦ headers
  | ok claims ↦
      apply_templates o
        (record {
          access_token = access;
          id_token = access;
          refresh_token = refresh;
          claims = claims;
        })
        s.header_templates headers
]

-- the headers with which the request goes on
unfoldable pub user_headers :
    Service → Outside → Request → (email access refresh : Str) → (groups roles : List Str) → Headers
user_headers s o req email access refresh groups roles =
    let listed =
      set_joined (lit "X-User-Roles") roles (set_joined (lit "X-User-Groups") groups req.headers) in
    let named = insert (lit "X-Auth-Request-User") email (
      insert (lit "X-Auth-Request-Redirect") req.request_uri
        (insert (lit "X-Forwarded-User") email listed)) in
    let with_token =
      (if is_blank access then named else insert (lit "X-Auth-Request-Token") access named) in
    templated s o access refresh with_token

abbrev pub security_headers : Headers
security_headers = insert (lit "Referrer-Policy") (lit "strict-origin-when-cross-origin") (
    insert (lit "X-Xss-Protection") (lit "1; mode=block") (
      insert (lit "X-Content-Type-Options") (lit "nosniff")
        (insert (lit "X-Frame-Options") (lit "DENY") [])))

abbrev pub cors_headers : Str → Headers
cors_headers origin =
    insert (lit "Access-Control-Allow-Headers") (lit "Authorization, Content-Type") (
      insert (lit "Access-Control-Allow-Methods") (lit "GET, POST, OPTIONS") (
        insert (lit "Access-Control-Allow-Credentials") (lit "true")
          (insert (lit "Access-Control-Allow-Origin") origin security_headers)))

-- the answer to an authorized request: a preflight is answered here, all else goes on
unfoldable pub pass_on : Request → Headers → Reply
pass_on req headers =
    let origin = get_header (lit "Origin") headers in
    if is_blank origin
    then forward headers security_headers
    else (if str_eq req.method (lit "OPTIONS")
        then preflight (cors_headers origin)
        else forward headers (cors_headers origin))

-- the part of `processAuthorizedRequest` after the domain has been allowed
unfoldable pub authorize : Service → Outside → Request → (email access refresh : Str) → Reply
authorize s o req email access refresh =
    let (groups, roles) = groups_or_none (extract_groups_and_roles o access) in
    if is_allowed_role s.middleware.allowed_roles_and_groups groups roles
    then pass_on req (user_headers s o req email access refresh groups roles)
    else send_error_response req
        (lit
            "Access denied: You do not have any of the allowed roles or groups. To log out, visit: "
          ++ s.middleware.logout_url_path)
        403

-- `processAuthorizedRequest`
unfoldable pub process_authorized_request :
    Service → Outside → Request → SessionData → Str → State → State × Reply
process_authorized_request s o req sd redirect_url st =
    let email = get_email sd st.world in
    if is_blank email
    then initiate s o req sd redirect_url st
    else (if is_allowed_domain s.middleware.allowed_user_domains email
        then (
          st,
          authorize s o req email (get_access_token o.codec sd st.world)
              (get_refresh_token o.codec sd st.world),
        )
        else (
          st,
          send_error_response req
              (lit "Access denied: Your email domain is not allowed. To log out, visit: "
                ++ s.middleware.logout_url_path)
              403,
        ))
