-- ===== src/Jwks.antt =====
-- The JWKS cache of jwk.go and the provider metadata of metadata_cache.go and main.go, as the one
-- holder of the lock sees them. What the provider answers is an argument.
use traefikoidc.Base.{zero, ◌&&◌, Option, none, some, List, ◌++◌, ◌==◌, if◌then◌else◌, is_some}
use traefikoidc.Base.Int.{ℤ, pos, ◌+ℤ◌, before, after, seconds}
use traefikoidc.Base.Text.{Str, lit}
use traefikoidc.Error.{Result, ok, fail, or_fail}
use traefikoidc.Jwt.Signature.{Jwk}
use traefikoidc.Platform.{Platform, Sending, not_created, sent, transport_error, response}

-- `JWKCache`
pub record JwkCache : Type 0 where
  pub jwks : Option (List Jwk)
  pub expires_at : ℤ
  pub lifetime : ℤ

-- `fetchJWKS`: the error of making the request, the client's error, a bad status, a body that does not decode, or the keys.
-- `decode` is `json.Decoder.Decode` into a `JWKSet`.
unfoldable pub fetch_jwks : Platform → (Str → Option (List Jwk)) → Sending → Result (List Jwk)
fetch_jwks p decode (not_created e) = fail (lit "failed to create JWKS request: " ++ e)
fetch_jwks p decode (sent (transport_error e)) = fail (lit "failed to fetch JWKS: " ++ e)
fetch_jwks p decode (sent (response status body)) =
    if status == 200
    then or_fail (decode body) (lit "failed to decode JWKS")
    else fail (lit "failed to fetch JWKS: unexpected status code " ++ p.show_nat status)

-- the keys in the cache, while they are valid
abbrev pub cached : ℤ → JwkCache → Option (List Jwk)
cached now c = elim c.jwks [
  | none ↦ none
  | some keys ↦ if before now c.expires_at then some keys else none
]

-- one hour where no lifetime is set
abbrev pub lifetime_or_default : ℤ → ℤ
lifetime_or_default (pos zero) = seconds 3600
lifetime_or_default d = d

-- what follows the fetch
unfoldable pub store_jwks : ℤ → Result (List Jwk) → JwkCache → JwkCache × Result (List Jwk)
store_jwks now (fail e) c = (c, fail e)
store_jwks now (ok keys) c =
    (record c { jwks = some keys; expires_at = now +ℤ lifetime_or_default c.lifetime }, ok keys)

-- `GetJWKS`: the test under the read lock at `now`, and again under the write lock at `later`
unfoldable pub get_jwks : ℤ → ℤ → Result (List Jwk) → JwkCache → JwkCache × Result (List Jwk)
get_jwks now later fetched c = elim (cached now c) [
  | some keys ↦ (c, ok keys)
  | none ↦ elim (cached later c) [ some keys ↦ (c, ok keys) | none ↦ store_jwks later fetched c ]
]

-- `Cleanup`
unfoldable pub cleanup_jwks : ℤ → JwkCache → JwkCache
cleanup_jwks now c =
    if is_some c.jwks && after now c.expires_at then record c { jwks = none } else c
