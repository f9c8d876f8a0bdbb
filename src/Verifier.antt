-- ===== src/Verifier.antt =====
-- Token verification in main.go and the token cache of helpers.go: `VerifyToken`,
-- `performPreVerificationChecks`, `cacheVerifiedToken`, `VerifyJWTSignatureAndClaims`,
-- `RevokeToken`, and the cleanup tick. A call happens at one instant `now`.
pub mod Checked
pub mod Blacklist
pub mod Listed
pub mod Bounded
use traefikoidc.Base.{
  ◌&&◌, ℕ, suc, Bool, true, false, Option, none, some, List, [], ◌∷◌, ◌++◌, if◌then◌else◌, is_some,
}
use traefikoidc.Base.Int.{ℤ, pos, ◌+ℤ◌, ◌-ℤ◌, ◌≤ℤ◌, before, after, unix, seconds}
use traefikoidc.Base.Map.{lookup}
use traefikoidc.Base.Text.{Str, lit, str_eq, is_blank}
use traefikoidc.Cache
use traefikoidc.Cache.{Cache}
use traefikoidc.Error.{Result, ok, fail, ◌>>=◌, ◌>>◌, or_fail, wrapped}
use traefikoidc.Jwks.{JwkCache, get_jwks, cleanup_jwks}
use traefikoidc.Jwt.{Jwt, Replays, parse_jwt, extract_claims, verify}
use traefikoidc.Jwt.Signature.{Jwk, jwk_to_pem, verify_signature}
use traefikoidc.Platform.{Platform, Claims, as_str, as_num}

-- The state that verification keeps. `replays` is the package variable `replayCache`.
pub record Verifier : Type 0 where
  pub token_cache : Cache Claims
  pub blacklist : Cache Bool
  pub jwk_cache : JwkCache
  pub replays : Replays

-- What verification takes from outside: the libraries, the provider's issuer and the client's
-- identity, the rate limiter's answer, and the answer to a request for the keys.
pub record Context : Type 0 where
  pub platform : Platform
  pub issuer_url : Str
  pub client_id : Str
  pub allow : Bool
  pub fetched : Result (List Jwk)

-- the key of `TokenCache`
abbrev pub token_key : Str → Str
token_key token = lit "t-" ++ token

-- `TokenCache.Set`, `Get` and `Delete`
unfoldable pub cache_set : ℤ → Str → Claims → ℤ → Verifier → Verifier
cache_set now token claims duration v = record v {
  token_cache = Cache.set now (token_key token) claims duration v.token_cache;
}

unfoldable pub cache_get : ℤ → Str → Verifier → Verifier × Option Claims
cache_get now token v =
    let (c, claims) = Cache.get now (token_key token) v.token_cache in
    (record v { token_cache = c }, claims)

unfoldable pub cache_delete : Str → Verifier → Verifier
cache_delete token v = record v { token_cache = Cache.delete (token_key token) v.token_cache }

-- `t.tokenBlacklist.Get`, as a test, and `Set`
unfoldable pub blacklist_get : ℤ → Str → Verifier → Verifier × Bool
blacklist_get now key v =
    let (c, found) = Cache.get now key v.blacklist in (record v { blacklist = c }, is_some found)

unfoldable pub blacklist_set : ℤ → Str → ℤ → Verifier → Verifier
blacklist_set now key duration v = record v {
  blacklist = Cache.set now key true duration v.blacklist;
}

-- `jti, ok := claims["jti"].(string); ok && jti != ""`
abbrev pub jti_of : Claims → Option Str
jti_of claims = elim (as_str (lookup (lit "jti") claims)) [
  | none ↦ none
  | some jti ↦ if is_blank jti then none else some jti
]

-- the replay test of `performPreVerificationChecks`
unfoldable pub check_jti : ℤ → Option Str → Verifier → Verifier × Result (Unit {0})
check_jti now none v = (v, ok tt)
check_jti now (some jti) v =
    let (v', listed) = blacklist_get now jti v in
    if listed
    then (v', fail (lit "token replay detected (jti: " ++ (jti ++ lit ") in cache")))
    else (v', ok tt)

-- the `jti` of a token whose claims can be read
abbrev pub jti_of_token : Result Claims → Option Str
jti_of_token (fail e) = none
jti_of_token (ok claims) = jti_of claims

-- `performPreVerificationChecks`
unfoldable pub pre_verify : Context → ℤ → Str → Verifier → Verifier × Result (Unit {0})
pre_verify x now token v =
    if x.allow
    then (let (v', listed) = blacklist_get now token v in
        if listed
        then (v', fail (lit "token is blacklisted (raw string) in cache"))
        else check_jti now (jti_of_token (extract_claims x.platform token)) v')
    else (v, fail (lit "rate limit exceeded"))

-- the loop over `jwks.Keys`
unfoldable pub find_key : Str → List Jwk → Option Jwk
find_key kid [] = none
find_key kid (key ∷ keys) = if str_eq key.kid kid then some key else find_key kid keys

-- the part of `VerifyJWTSignatureAndClaims` between the fetch of the keys and the claims
unfoldable pub check_signature : Platform → List Jwk → Jwt → Str → Result (Unit {0})
check_signature p keys jwt token = do
  kid ← or_fail (as_str (lookup (lit "kid") jwt.header)) (lit "missing key ID in token header")
  alg ← or_fail (as_str (lookup (lit "alg") jwt.header)) (lit "missing algorithm in token header")
  key ← or_fail (find_key kid keys) (lit "no matching public key found for kid: " ++ kid)
  pem ← wrapped (lit "failed to convert JWK to PEM") (jwk_to_pem p key)
  wrapped (lit "signature verification failed") (verify_signature p token pem alg)

-- the claims, after a good signature
unfoldable pub check_standard_claims : Context → ℤ → Jwt → Verifier → Verifier × Result (Unit {0})
check_standard_claims x now jwt v =
    let (replays, result) = verify x.platform now x.issuer_url x.client_id jwt v.replays in
    (record v { replays = replays }, wrapped (lit "standard claim verification failed") result)

-- `VerifyJWTSignatureAndClaims`
unfoldable pub verify_jwt : Context → ℤ → Jwt → Str → Verifier → Verifier × Result (Unit {0})
verify_jwt x now jwt token v =
    let (cache, keys) = get_jwks now now x.fetched v.jwk_cache in
    let v' = record v { jwk_cache = cache } in
    elim (wrapped (lit "failed to get JWKS") keys) [
      | fail e ↦ (v', fail e)
      | ok ks ↦ elim (check_signature x.platform ks jwt token) [
        | fail e ↦ (v', fail e)
        | ok _ ↦ check_standard_claims x now jwt v'
      ]
    ]

-- `cacheVerifiedToken`; a missing `exp`, on which the source would panic, cannot have passed
-- verification, and stores nothing here
unfoldable pub cache_verified_token : ℤ → Str → Claims → Verifier → Verifier
cache_verified_token now token claims v = elim (as_num (lookup (lit "exp") claims)) [
  | none ↦ v
  | some exp ↦ cache_set now token claims (unix exp -ℤ now) v
]

-- `defaultBlacklistDuration`
abbrev pub default_blacklist_duration : ℤ
default_blacklist_duration = seconds 86400

-- the end of a blacklist entry, as `VerifyToken` computes it from `exp`
unfoldable pub blacklist_expiry : ℤ → Claims → ℤ
blacklist_expiry now claims = elim (as_num (lookup (lit "exp") claims)) [
  | none ↦ now +ℤ default_blacklist_duration
  | some exp ↦
      let duration = unix exp -ℤ now in
      if after duration default_blacklist_duration && before duration (seconds 86400)
      then unix exp
      else (if before (pos 0) duration
          then now +ℤ default_blacklist_duration
          else now +ℤ default_blacklist_duration)
]

-- the step of `VerifyToken` that remembers the `jti`
unfoldable pub remember_jti : ℤ → Claims → Verifier → Verifier
remember_jti now claims v = elim (jti_of claims) [
  | none ↦ v
  | some jti ↦ blacklist_set now jti (blacklist_expiry now claims -ℤ now) v
]

abbrev pub is_cached : Option Claims → Bool
is_cached (some (claim ∷ claims)) = true
is_cached _ = false

-- the part of `VerifyToken` behind the token cache
unfoldable pub verify_fresh : Context → ℤ → Str → Verifier → Verifier × Result (Unit {0})
verify_fresh x now token v =
    let (v₁, pre) = pre_verify x now token v in
    elim pre [
      | fail e ↦ (v₁, fail e)
      | ok _ ↦ elim (wrapped (lit "failed to parse JWT") (parse_jwt x.platform token)) [
        | fail e ↦ (v₁, fail e)
        | ok jwt ↦
            let (v₂, checked) = verify_jwt x now jwt token v₁ in
            elim checked [
              | fail e ↦ (v₂, fail e)
              | ok _ ↦ (
                remember_jti now jwt.claims (cache_verified_token now token jwt.claims v₂),
                ok tt,
              )
            ]
      ]
    ]

-- `VerifyToken`
unfoldable pub verify_token : Context → ℤ → Str → Verifier → Verifier × Result (Unit {0})
verify_token x now token v =
    let (v', claims) = cache_get now token v in
    if is_cached claims then (v', ok tt) else verify_fresh x now token v'

-- `RevokeToken`
unfoldable pub revoke_token : ℤ → Str → Verifier → Verifier
revoke_token now token v =
    blacklist_set now token (now +ℤ seconds 86400 -ℤ now) (cache_delete token v)

-- one round of the loop of `startTokenCleanup`
unfoldable pub token_cleanup : (ℤ → ℤ) → ℤ → Verifier → Verifier
token_cleanup tenth now v = record v {
  token_cache = Cache.cleanup tenth now v.token_cache;
  jwk_cache = cleanup_jwks now v.jwk_cache;
}
