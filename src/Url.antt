-- ===== src/Url.antt =====
-- The URLs that the middleware builds (main.go, helpers.go) and how it reads a request's own.
-- `net/url` is an argument.
pub mod Laws
use traefikoidc.Base.{
  Bool, true, false, ◌&&◌, ◌||◌, not, Option, none, some, List, [], ◌∷◌, ◌++◌, if◌then◌else◌, any,
}
use traefikoidc.Base.Map.{insert}
use traefikoidc.Base.Text.{Str, lit, str_eq, is_blank, has_prefix, contains, join}
use traefikoidc.Error.{Result, ok, fail, or_fail, ◌>>=◌}

-- A parsed URL: the parts that the program reads or writes, and the rest.
pub record Url : Type 0 where
  pub scheme : Str
  pub host : Str
  pub raw_query : Str
  pub rest : Str

abbrev pub Query : Type 0
Query = List (Str × Str)

-- `url.Parse`, `u.String`, `u.ResolveReference`, `u.Query` and `Values.Encode`
pub record UrlLibrary : Type 0 where
  pub parse : Str → Option Url
  pub print : Url → Str
  pub resolve : Url → Url → Url
  pub query : Url → Query
  pub encode : Query → Str

-- `isValidSecureURL` (settings.go)
unfoldable pub is_valid_secure_url : UrlLibrary → Str → Bool
is_valid_secure_url u s = elim (u.parse s) [
  | none ↦ false
  | some url ↦ str_eq url.scheme (lit "https") && not (is_blank url.host)
]

abbrev pub is_absolute : Str → Bool
is_absolute s = has_prefix s (lit "http://") || has_prefix s (lit "https://")

-- `buildFullURL`
unfoldable pub build_full_url : (scheme host path : Str) → Str
build_full_url scheme host path =
    let rooted = (if has_prefix path (lit "/") then path else lit "/" ++ path) in
    if is_absolute path then path else scheme ++ (lit "://" ++ (host ++ rooted))

-- `buildURLWithParams`
unfoldable pub build_url_with_params : UrlLibrary → (issuer_url base_url : Str) → Query → Str
build_url_with_params u issuer_url base_url params =
    let appended = base_url ++ (lit "?" ++ u.encode params) in
    if not (has_prefix base_url (lit "http://")) && not (has_prefix base_url (lit "https://"))
    then elim (u.parse issuer_url) [
      | none ↦ appended
      | some issuer ↦ elim (u.parse base_url) [
        | none ↦ appended
        | some base ↦ u.print (record (u.resolve issuer base) { raw_query = u.encode params })
      ]
    ]
    else elim (u.parse base_url) [
      | none ↦ appended
      | some base ↦ u.print (record base { raw_query = u.encode params })
    ]

abbrev pub is_google : Str → Bool
is_google issuer_url =
    contains issuer_url (lit "google") || contains issuer_url (lit "accounts.google.com")

-- the scopes of the request, with `offline_access`
unfoldable pub request_scopes : List Str → List Str
request_scopes scopes =
    if any (λ s. str_eq s (lit "offline_access")) scopes
    then scopes
    else scopes ++ lit "offline_access" ∷ []

-- the parameters of `buildAuthURL`, in the order in which they are set
unfoldable pub auth_params :
    (issuer_url client_id : Str)
    → List Str
    → (enable_pkce : Bool) → (redirect_url state nonce code_challenge : Str) → Query
auth_params issuer_url client_id scopes enable_pkce redirect_url state nonce code_challenge =
    let base = insert (lit "nonce") nonce (
      insert (lit "state") state (
        insert (lit "redirect_uri") redirect_url
          (insert (lit "response_type") (lit "code") (insert (lit "client_id") client_id [])))) in
    let pkce =
      (if enable_pkce && not (is_blank code_challenge)
        then insert (lit "code_challenge_method") (lit "S256")
            (insert (lit "code_challenge") code_challenge base)
        else base) in
    let scoped = insert (lit "scope") (join (lit " ") (request_scopes scopes)) pkce in
    if is_google issuer_url
    then insert (lit "access_type") (lit "offline") (insert (lit "prompt") (lit "consent") scoped)
    else scoped

-- `buildAuthURL`
unfoldable pub build_auth_url :
    UrlLibrary
    → (issuer_url auth_url client_id : Str) → List Str
    → (enable_pkce : Bool) → (redirect_url state nonce code_challenge : Str) → Str
build_auth_url u issuer_url auth_url client_id scopes enable_pkce redirect_url state nonce
      code_challenge =
    build_url_with_params u issuer_url auth_url
      (auth_params issuer_url client_id scopes enable_pkce redirect_url state nonce code_challenge)

-- `BuildLogoutURL` (helpers.go)
unfoldable pub build_logout_url :
    UrlLibrary → (end_session_url id_token post_logout_redirect_uri : Str) → Result Str
build_logout_url u end_session_url id_token post_logout_redirect_uri = do
  url ← or_fail (u.parse end_session_url) (lit "failed to parse end session URL")
  let hinted = insert (lit "id_token_hint") id_token (u.query url)
  let params =
      (if is_blank post_logout_redirect_uri
        then hinted
        else insert (lit "post_logout_redirect_uri") post_logout_redirect_uri hinted)
  ok (u.print (record url { raw_query = u.encode params }))

-- `determineExcludedURL`
unfoldable pub determine_excluded_url : List Str → Str → Bool
determine_excluded_url excluded path = any (λ prefix. has_prefix path prefix) excluded
