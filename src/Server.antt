-- ===== src/Server.antt =====
-- The request handlers of main.go and helpers.go: what they work on. A request is handled at one
-- instant `now`; what other parties do meanwhile is in `Outside`.
pub mod Exchange
pub mod Initiate
pub mod Refresh
pub mod Authorize
pub mod Callback
pub mod Serve
pub mod Closed
pub mod Access
pub mod Login
pub mod Headers
pub mod Forwarded
pub mod Replayed
pub mod Revocation
pub mod Attempt
pub mod Filled
pub mod Completes
pub mod Unchanged
pub mod Preserved
use traefikoidc.Base.{
  ℕ, Bool, true, false, Option, none, some, List, [], ◌∷◌, ◌++◌, any, if◌then◌else◌,
}
use traefikoidc.Base.Int.{ℤ}
use traefikoidc.Base.Map.{lookup}
use traefikoidc.Base.Text.{Str, lit, str_eq, is_blank, contains, split}
use traefikoidc.Error.{Result}
use traefikoidc.Jwt.Signature.{Jwk}
use traefikoidc.Metadata.{ProviderMetadata}
use traefikoidc.Platform.{Platform, Sending, Claims}
use traefikoidc.Session.{World, Store, Pooled, SessionData}
use traefikoidc.Session.Token.{Codec}
use traefikoidc.Settings.{Middleware}
use traefikoidc.Url.{UrlLibrary, Query}
use traefikoidc.Verifier.{Verifier, Context}

-- header names in canonical form, each with its value
abbrev pub Headers : Type 0
Headers = List (Str × Str)

-- `h.Get(name)`, the empty string if there is none
abbrev pub get_header : Str → Headers → Str
get_header name headers = elim (lookup name headers) [ none ↦ [] | some value ↦ value ]

-- The parts of an `http.Request` that the program reads.
pub record Request : Type 0 where
  pub number : ℕ
  pub method : Str
  pub path : Str
  pub request_uri : Str
  pub url_scheme : Str
  pub host : Str
  pub tls : Bool
  pub headers : Headers
  pub query : Query

-- `TokenResponse` (helpers.go), the fields that are read
pub record TokenResponse : Type 0 where
  pub id_token : Str
  pub refresh_token : Str

-- The data that a header template sees.
pub record TemplateData : Type 0 where
  pub access_token : Str
  pub id_token : Str
  pub refresh_token : Str
  pub claims : Claims

-- How the wait for the provider's metadata ends.
pub data Wait : Type 0 where
  initialized cancelled timed_out : Wait

-- `TraefikOidc`: the configured fields, the discovered endpoints and the parsed templates.
pub record Service : Type 0 where
  pub middleware : Middleware
  pub endpoints : ProviderMetadata
  pub header_templates : List (Str × Str)

-- What the handlers of one request take from outside: the libraries, the store, the random
-- values, the answers of the provider and of the rate limiter, the pooled objects of the two
-- calls of `GetSession`, and what other goroutines do to the sessions during a refresh.
pub record Outside : Type 0 where
  pub platform : Platform
  pub store : Store
  pub codec : Codec
  pub urls : UrlLibrary
  pub wait : Wait
  pub pooled : Pooled
  pub pooled_again : Pooled
  pub uuid : Str
  pub nonce : Option Str
  pub verifier : Option Str
  pub challenge : Str → Str
  pub session_id : Option Str
  pub token_answer : Str → Query → Sending
  pub decode_tokens : Str → Option TokenResponse
  pub allow : Bool
  pub fetched : Result (List Jwk)
  pub fetched_again : Result (List Jwk)
  pub interfere : World → World
  pub canonical : Str → Str
  pub execute : Str → TemplateData → Option Str

-- The state that a handler changes.
pub record State : Type 0 where
  pub world : World
  pub verifier : Verifier

-- How a request ends.
pub data Reply : Type 0 where
  -- `next.ServeHTTP`, with the request's headers and those set on the response
  forward : (request response : Headers) → Reply
  -- a preflight answered with status 200
  preflight : Headers → Reply
  -- `http.Redirect` with status 302
  redirect : Str → Reply
  -- `http.Error`
  http_error : ℕ → Str → Reply
  -- `sendErrorResponse`, in JSON or HTML
  error_page : (json : Bool) → ℕ → Str → Reply
  -- the JSON body with status 401 of a failed refresh
  refresh_failed : Reply
  panic : Reply

-- what verification takes from outside, for the check of the session's token and for a new token
abbrev pub check_context : Service → Outside → Context
check_context s o = record {
  platform = o.platform;
  issuer_url = s.endpoints.issuer;
  client_id = s.middleware.client_id;
  allow = o.allow;
  fetched = o.fetched;
}

abbrev pub token_context : Service → Outside → Context
token_context s o = record {
  platform = o.platform;
  issuer_url = s.endpoints.issuer;
  client_id = s.middleware.client_id;
  allow = o.allow;
  fetched = o.fetched_again;
}

abbrev pub set_world : World → State → State
set_world w st = record st { world = w }

-- `determineScheme`
unfoldable pub determine_scheme : Request → Str
determine_scheme req =
    let forwarded = get_header (lit "X-Forwarded-Proto") req.headers in
    if is_blank forwarded then (if req.tls then lit "https" else lit "http") else forwarded

-- `determineHost`
unfoldable pub determine_host : Request → Str
determine_host req =
    let forwarded = get_header (lit "X-Forwarded-Host") req.headers in
    if is_blank forwarded then req.host else forwarded

abbrev pub accepts : Str → Request → Bool
accepts kind req = contains (get_header (lit "Accept") req.headers) kind

-- `sendErrorResponse`
unfoldable pub send_error_response : Request → Str → ℕ → Reply
send_error_response req text code = error_page (accepts (lit "application/json") req) code text

-- the domain of an email address with exactly one `@`
abbrev pub domain_of : List Str → Option Str
domain_of (user ∷ domain ∷ []) = some domain
domain_of _ = none

-- `isAllowedDomain`
unfoldable pub is_allowed_domain : List Str → Str → Bool
is_allowed_domain [] email = true
is_allowed_domain (d ∷ domains) email = elim (domain_of (split b'@' email)) [
  | none ↦ false
  | some domain ↦ any (λ allowed. str_eq allowed domain) (d ∷ domains)
]
