-- ===== src/Tests/Setup.antt =====
-- Runs of the configuration, the discovery and the authorization request.
use traefikoidc.Base.{ℕ, zero, suc, true, false, some, [], ◌∷◌, ◌≡◌, refl, ◌⊎◌}
use traefikoidc.Base.Int.{ℤ, pos, ◌+ℤ◌, ◌-ℤ◌, scale, seconds}
use traefikoidc.Base.Text.{Str, lit, str_eq, has_prefix, contains}
use traefikoidc.Error.{Result, ok, fail}
use traefikoidc.Metadata.{
  ProviderMetadata, MetadataCache, discover, discover_from, backoff, get_metadata,
}
use traefikoidc.Metadata.Laws.{discover_lem, get_metadata-stale, IsFirst, IsFound, IsGivenUp}
use traefikoidc.Session.Manager.{check_encryption_key}
use traefikoidc.Settings.{
  Config, create_config, Middleware, validate, validate_required, validate_excluded_urls,
  validate_optional, validate_headers, validate_header, is_valid_log_level, new, fixed_key,
}
use traefikoidc.Settings.Laws.{validate-IsValid, IsValid}
use traefikoidc.Tests.Fixtures.{urls, service}
use traefikoidc.Url.{is_valid_secure_url, auth_params, request_scopes}
use traefikoidc.Url.Laws.{auth_params-IsRequest, IsRequest}

abbrev config : Config
config = record create_config {
  provider_url = lit "https://d";
  callback_url = lit "/cb";
  client_id = lit "c";
  client_secret = lit "z";
  session_encryption_key = fixed_key;
  excluded_urls = lit "/public" ∷ [];
}

valid_run : validate urls config ≡ ok tt
unfolding create_config validate validate_required validate_excluded_urls validate_optional
    validate_headers validate_header is_valid_log_level is_valid_secure_url lit str_eq has_prefix
    contains
valid_run = refl

validate-IsValid_example :
    IsValid urls config
    × ((m : Middleware) × (new false config ≡ ok m)
        × (m.encryption_key ≡ config.session_encryption_key)
        × (m.redir_url_path ≡ config.callback_url)
        × (check_encryption_key m.encryption_key ≡ ok tt))
validate-IsValid_example = validate-IsValid urls config false valid_run

-- the provider answers at the second attempt
abbrev answer : ℕ → Result ProviderMetadata
answer zero = fail (lit "x")
answer (suc n) = ok service.endpoints

abbrev took : ℕ → ℤ
took n = seconds 1

found_run : (discover answer took (pos 0)).0 ≡ ok service.endpoints
unfolding discover discover_from backoff lit ◌-ℤ◌ scale ◌+ℤ◌
found_run = refl

discover_lem_example :
    IsFound answer 0 5 (discover answer took (pos 0))
    ⊎ IsGivenUp answer (pos 0) 0 5 (discover answer took (pos 0))
discover_lem_example = discover_lem answer took (pos 0)

abbrev cache : MetadataCache
cache = record { metadata = some service.endpoints; expires_at = pos 0 }

get_metadata-stale_example :
    ((m : ProviderMetadata) × ((discover answer took (pos 1)).0 ≡ ok m)
      × IsFirst answer 0 5 m
      × (get_metadata answer took (pos 1) (pos 1) cache ≡ (
        record { metadata = some m; expires_at = (discover answer took (pos 1)).2 +ℤ seconds 3600 },
        ok m,
      )))
    ⊎ ((e : Str) × ((discover answer took (pos 1)).0 ≡ fail e)
        × (get_metadata answer took (pos 1) (pos 1) cache ≡ (
          record {
            metadata = some service.endpoints;
            expires_at = (discover answer took (pos 1)).2 +ℤ seconds 300;
          },
          ok service.endpoints,
        )))
get_metadata-stale_example =
    get_metadata-stale answer took (pos 1) cache service.endpoints refl refl

auth_params-IsRequest_example :
    IsRequest
      (lit "c")
      (lit "https://d/cb")
      (lit "s")
      (lit "n")
      (lit "x")
      (request_scopes (lit "openid" ∷ []))
      true
      (auth_params
        (lit "i")
        (lit "c")
        (lit "openid" ∷ [])
        true
        (lit "https://d/cb")
        (lit "s")
        (lit "n")
        (lit "x"))
auth_params-IsRequest_example =
    auth_params-IsRequest (lit "i") (lit "c") (lit "openid" ∷ []) true (lit "https://d/cb")
      (lit "s") (lit "n") (lit "x")
