-- ===== src/Settings.antt =====
-- settings.go: the configuration, its defaults and `Validate`; and the part of `New` (main.go)
-- that reads it.
pub mod Laws
pub mod Logger
pub mod Members
use traefikoidc.Base.{
  ℕ, suc, Bool, true, false, ◌&&◌, ◌||◌, not, Option, none, some, List, [], ◌∷◌, ◌++◌, ltb,
  if◌then◌else◌, length,
}
use traefikoidc.Base.Int.{ℤ, pos, before, scale, seconds, second}
use traefikoidc.Base.Map.{insert}
use traefikoidc.Base.Text.{Str, lit, str_eq, is_blank, has_prefix, contains}
use traefikoidc.Error.{Result, ok, fail, ◌>>=◌, ◌>>◌, guard}
use traefikoidc.Url.{UrlLibrary, is_valid_secure_url}

-- `TemplatedHeader`
pub record TemplatedHeader : Type 0 where
  pub name : Str
  pub value : Str

-- `Config`, without the HTTP client
pub record Config : Type 0 where
  pub provider_url : Str
  pub revocation_url : Str
  pub enable_pkce : Bool
  pub callback_url : Str
  pub logout_url : Str
  pub client_id : Str
  pub client_secret : Str
  pub scopes : List Str
  pub log_level : Str
  pub session_encryption_key : Str
  pub force_https : Bool
  pub rate_limit : ℤ
  pub excluded_urls : List Str
  pub allowed_user_domains : List Str
  pub allowed_roles_and_groups : List Str
  pub end_session_url : Str
  pub post_logout_redirect_uri : Str
  pub refresh_grace_period_seconds : ℤ
  pub headers : List TemplatedHeader

abbrev pub default_rate_limit : ℤ
default_rate_limit = pos 100

abbrev pub min_rate_limit : ℤ
min_rate_limit = pos 10

-- `CreateConfig`
unfoldable pub create_config : Config
create_config = record {
  provider_url = [];
  revocation_url = [];
  enable_pkce = false;
  callback_url = [];
  logout_url = [];
  client_id = [];
  client_secret = [];
  scopes = lit "openid" ∷ lit "profile" ∷ lit "email" ∷ [];
  log_level = lit "info";
  session_encryption_key = [];
  force_https = true;
  rate_limit = default_rate_limit;
  excluded_urls = [];
  allowed_user_domains = [];
  allowed_roles_and_groups = [];
  end_session_url = [];
  post_logout_redirect_uri = [];
  refresh_grace_period_seconds = pos 60;
  headers = [];
}

-- `isValidLogLevel`
unfoldable pub is_valid_log_level : Str → Bool
is_valid_log_level level =
    str_eq level (lit "debug") || (str_eq level (lit "info") || str_eq level (lit "error"))

abbrev pub min_session_encryption_key_length : ℕ
min_session_encryption_key_length = 32

-- the loop over the excluded URLs
unfoldable pub validate_excluded_urls : List Str → Result (Unit {0})
validate_excluded_urls [] = ok tt
validate_excluded_urls (url ∷ urls) = do
  guard (has_prefix url (lit "/")) (lit "excluded URL must start with /: " ++ url)
  guard (not (contains url (lit "..")))
      (lit "excluded URL must not contain path traversal: " ++ url)
  guard (not (contains url (lit "*"))) (lit "excluded URL must not contain wildcards: " ++ url)
  validate_excluded_urls urls

-- the body of the loop over the headers
unfoldable pub validate_header : TemplatedHeader → Result (Unit {0})
validate_header header = do
  guard (not (is_blank header.name)) (lit "header name cannot be empty")
  guard (not (is_blank header.value)) (lit "header value template cannot be empty")
  guard (contains header.value (lit "{{") && contains header.value (lit "}}")) (
      lit "header value '"
      ++ (header.value ++ lit "' does not appear to be a valid template (missing {{ }})"))
  guard (not (contains header.value (lit "{{.claims"))) (
      lit "header template '"
      ++ (header.value
          ++ lit
              "' appears to use lowercase 'claims' - use '{{.Claims...' instead (case sensitive)"))
  guard (not (contains header.value (lit "{{.accessToken"))) (
      lit "header template '"
      ++ (header.value
          ++ lit
              "' appears to use lowercase 'accessToken' - use '{{.AccessToken...' instead (case sensitive)"))
  guard (not (contains header.value (lit "{{.idToken"))) (
      lit "header template '"
      ++ (header.value
          ++ lit
              "' appears to use lowercase 'idToken' - use '{{.IdToken...' instead (case sensitive)"))
  guard (not (contains header.value (lit "{{.refreshToken"))) (
      lit "header template '"
      ++ (header.value
          ++ lit
              "' appears to use lowercase 'refreshToken' - use '{{.RefreshToken...' instead (case sensitive)"))

-- the loop over the headers
unfoldable pub validate_headers : List TemplatedHeader → Result (Unit {0})
validate_headers [] = ok tt
validate_headers (header ∷ headers) = validate_header header >> validate_headers headers

abbrev pub blank_or : Str → Bool → Bool
blank_or s b = is_blank s || b

-- the checks of `Validate` up to the log level
unfoldable pub validate_required : UrlLibrary → Config → Result (Unit {0})
validate_required u c = do
  guard (not (is_blank c.provider_url)) (lit "providerURL is required")
  guard (is_valid_secure_url u c.provider_url) (lit "providerURL must be a valid HTTPS URL")
  guard (not (is_blank c.callback_url)) (lit "callbackURL is required")
  guard (has_prefix c.callback_url (lit "/")) (lit "callbackURL must start with /")
  guard (not (is_blank c.client_id)) (lit "clientID is required")
  guard (not (is_blank c.client_secret)) (lit "clientSecret is required")
  guard (not (is_blank c.session_encryption_key)) (lit "sessionEncryptionKey is required")
  guard (not (ltb (length c.session_encryption_key) min_session_encryption_key_length))
      (lit "sessionEncryptionKey must be at least 32 characters long")
  guard (blank_or c.log_level (is_valid_log_level c.log_level))
      (lit "logLevel must be one of: debug, info, error")

-- the checks of `Validate` from the revocation URL to the grace period
unfoldable pub validate_optional : UrlLibrary → Config → Result (Unit {0})
validate_optional u c = do
  guard (blank_or c.revocation_url (is_valid_secure_url u c.revocation_url))
      (lit "revocationURL must be a valid HTTPS URL")
  guard (blank_or c.end_session_url (is_valid_secure_url u c.end_session_url))
      (lit "oidcEndSessionURL must be a valid HTTPS URL")
  guard
      (blank_or c.post_logout_redirect_uri (
        str_eq c.post_logout_redirect_uri (lit "/")
        || (is_valid_secure_url u c.post_logout_redirect_uri
            || has_prefix c.post_logout_redirect_uri (lit "/"))))
      (lit "postLogoutRedirectURI must be either a valid HTTPS URL or start with /")
  guard (not (before c.rate_limit min_rate_limit)) (lit "rateLimit must be at least 10")
  guard (not (before c.refresh_grace_period_seconds (pos 0)))
      (lit "refreshGracePeriodSeconds cannot be negative")

-- `Validate`
unfoldable pub validate : UrlLibrary → Config → Result (Unit {0})
validate u c = do
  validate_required u c
  validate_excluded_urls c.excluded_urls
  validate_optional u c
  validate_headers c.headers

-- The fields of the middleware that `New` takes from the configuration.
pub record Middleware : Type 0 where
  pub redir_url_path : Str
  pub logout_url_path : Str
  pub post_logout_redirect_uri : Str
  pub client_id : Str
  pub client_secret : Str
  pub force_https : Bool
  pub enable_pkce : Bool
  pub scopes : List Str
  pub excluded_urls : List Str
  pub allowed_user_domains : List Str
  pub allowed_roles_and_groups : List Str
  pub refresh_grace_period : ℤ
  pub encryption_key : Str

-- the key of a configuration without one
abbrev pub fixed_key : Str
fixed_key = lit "0123456789abcdef0123456789abcdef0123456789abcdef0123456789abcdef"

abbrev pub default_to : Str → Str → Str
default_to s d = if is_blank s then d else s

-- the key that `New` uses; `yaegi` says that the plugin runs in the interpreter of that name
unfoldable pub effective_key : (yaegi : Bool) → Str → Result Str
effective_key yaegi key =
    let k = default_to key fixed_key in
    if ltb (length k) 32
    then (if yaegi
        then ok fixed_key
        else fail (lit "encryption key must be at least 32 bytes long"))
    else ok k

-- `createStringMap`, from a map on
unfoldable pub add_strings : List Str → List (Str × Unit {0}) → List (Str × Unit {0})
add_strings [] m = m
add_strings (key ∷ keys) m = add_strings keys (insert key tt m)

-- `createStringMap`
unfoldable pub create_string_map : List Str → List (Str × Unit {0})
create_string_map keys = add_strings keys []

-- `New`, without the caches, the clients and the background routines that it starts. A set of
-- strings (`create_string_map`) is the list of its strings, which has the same members; `/favicon` is the excluded URL of
-- `defaultExcludedURLs`.
unfoldable pub new : (yaegi : Bool) → Config → Result Middleware
new yaegi c = do
  key ← effective_key yaegi c.session_encryption_key
  ok (record {
    redir_url_path = c.callback_url;
    logout_url_path = default_to c.logout_url (c.callback_url ++ lit "/logout");
    post_logout_redirect_uri = default_to c.post_logout_redirect_uri (lit "/");
    client_id = c.client_id;
    client_secret = c.client_secret;
    force_https = c.force_https;
    enable_pkce = c.enable_pkce;
    scopes = c.scopes;
    excluded_urls = c.excluded_urls ++ lit "/favicon" ∷ [];
    allowed_user_domains = c.allowed_user_domains;
    allowed_roles_and_groups = c.allowed_roles_and_groups;
    refresh_grace_period =
        (if before (pos 0) c.refresh_grace_period_seconds
          then scale second c.refresh_grace_period_seconds
          else seconds 60);
    encryption_key = key;
  })
