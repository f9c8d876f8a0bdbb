-- ===== src/Verifier/Blacklist.antt =====
-- Revocation, and the tokens that verification remembers (main.go).
use traefikoidc.Base.{
  ◌≡◌, refl, ◌∙◌, Bool, true, false, none, some, List, [], ◌∷◌, arith, inl, inr, Option-cases,
}
use traefikoidc.Base.Int.{ℤ, ◌+ℤ◌, ◌-ℤ◌, after, unix, seconds, add_sub_cancel, int_laws}
use traefikoidc.Base.Map.{lookup, lookup-remove}
use traefikoidc.Base.Text.{Str, lit, str_eq_refl}
use traefikoidc.Cache
use traefikoidc.Cache.{Cache, CacheItem}
use traefikoidc.Cache.Lru.{lru_get}
use traefikoidc.Cache.Refines.{Refines}
use traefikoidc.Cache.Operations.{get-Refines, delete-Refines}
use traefikoidc.Cache.Reads.{get-set}
use traefikoidc.Error.{ok, check-cases}
use traefikoidc.Jwt.{Jwt, parse_jwt}
use traefikoidc.Platform.{Claims, as_num}
use traefikoidc.Verifier.{
  Verifier, Context, cache_get, cache_set, cache_delete, blacklist_get, blacklist_set, is_cached,
  verify_token, verify_fresh, verify_jwt, pre_verify, revoke_token, token_key, blacklist_expiry,
  remember_jti, cache_verified_token, default_blacklist_duration, check_standard_claims, check_jti,
}

-- Both caches of the verifier stand for lists of entries.
pub record IsSound (v : Verifier) : Type 0 where
  pub tokens : List (Str × CacheItem Claims)
  pub listed : List (Str × CacheItem Bool)
  pub token_cache : Refines v.token_cache tokens
  pub blacklist : Refines v.blacklist listed

-- The end that `VerifyToken` computes for a blacklist entry is 24 hours after the verification,
-- whatever the claims.
pub blacklist_expiry_lem :
    (now : ℤ) (claims : Claims) → blacklist_expiry now claims ≡ now +ℤ default_blacklist_duration
unfolding blacklist_expiry
blacklist_expiry_lem now claims = elim (Option-cases (as_num (lookup (lit "exp") claims))) [
  | inl p ↦ rw (p, blacklist_expiry) refl
  | inr (exp, p) ↦ ground arith
]

get-delete {ℓ} :
    {V : Type ℓ} {c : Cache V} {l : List (Str × CacheItem V)} (r : Refines c l) (now : ℤ) (k : Str)
    → (Cache.get now k (Cache.delete k c)).1 ≡ none
unfolding lru_get
get-delete {l = l} r now k =
    (get-Refines now k (delete-Refines k r)).1 ∙ ground (arith, lookup-remove k k l, str_eq_refl k)

-- A revoked token is refused, for whatever reason, at every instant until 24 hours have passed,
-- where both caches stand for lists before the revocation and nothing comes in between.
pub revoke_token-verify_token :
    (x : Context) (now later : ℤ) (token : Str) (v : Verifier)
    → IsSound v
    → after later (now +ℤ seconds 86400) ≡ false
    → ¬ ((verify_token x later token (revoke_token now token v)).1 ≡ ok tt)
unfolding verify_token verify_fresh pre_verify revoke_token cache_get cache_delete blacklist_get
    blacklist_set
revoke_token-verify_token x now later token v sound h k = absurd (
    ground (
      arith,
      get-delete sound.token_cache later (token_key token),
      get-set sound.blacklist now later token true (now +ℤ seconds 86400 -ℤ now),
      add_sub_cancel now (seconds 86400),
    ))

pub verify_jwt-caches :
    (x : Context) (now : ℤ) (jwt : Jwt) (token : Str) (v : Verifier)
    → ((verify_jwt x now jwt token v).0.token_cache ≡ v.token_cache)
      × ((verify_jwt x now jwt token v).0.blacklist ≡ v.blacklist)
unfolding verify_jwt check_standard_claims
verify_jwt-caches x now jwt token v = ground arith

pre_verify-token_cache :
    (x : Context) (now : ℤ) (token : Str) (v : Verifier)
    → (pre_verify x now token v).0.token_cache ≡ v.token_cache
unfolding pre_verify blacklist_get check_jti
pre_verify-token_cache x now token v = ground arith

remember_jti-token_cache :
    (now : ℤ) (claims : Claims) (v : Verifier)
    → (remember_jti now claims v).token_cache ≡ v.token_cache
unfolding remember_jti blacklist_set
remember_jti-token_cache now claims v = ground arith

is_cached-exp :
    (claims : Claims) (exp : ℤ)
    → as_num (lookup (lit "exp") claims) ≡ some exp
    → is_cached (some claims) ≡ true
unfolding lookup
is_cached-exp [] exp h = absurd (ground arith)
is_cached-exp (c ∷ claims) exp h = refl

-- the token cache after a full verification
verify_fresh-token_cache :
    (x : Context) (now exp : ℤ) (token : Str) (jwt : Jwt) (v : Verifier)
    → parse_jwt x.platform token ≡ ok jwt
    → as_num (lookup (lit "exp") jwt.claims) ≡ some exp
    → (verify_fresh x now token v).1 ≡ ok tt
    → (verify_fresh x now token v).0.token_cache
      ≡ Cache.set now (token_key token) jwt.claims (unix exp -ℤ now) v.token_cache
unfolding verify_fresh cache_verified_token cache_set
verify_fresh-token_cache x now exp token jwt v parsed e h =
    elim (check-cases (pre_verify x now token v).1) [
      | inr (m, p) ↦ absurd (ground arith)
      | inl p ↦ elim (check-cases (verify_jwt x now jwt token (pre_verify x now token v).0).1) [
        | inr (m, q) ↦ absurd (ground arith)
        | inl q ↦
            let v₁ = (pre_verify x now token v).0 in
            let v₂ = (verify_jwt x now jwt token v₁).0 in
            let stored = cache_verified_token now token jwt.claims v₂ in
            let same =
              (verify_jwt-caches x now jwt token v₁).0 ∙ pre_verify-token_cache x now token v in
            let kept = remember_jti-token_cache now jwt.claims stored in
            let put : stored.token_cache
                ≡ Cache.set now (token_key token) jwt.claims (unix exp -ℤ now) v.token_cache =
              ground (arith, same) in
            ground (arith, kept, put)
      ]
    ]

pub add_difference : (t e : ℤ) → t +ℤ (e -ℤ t) ≡ e
add_difference t e = omega int_laws

-- A token that `VerifyToken` has verified in full is accepted again, from the token cache, until
-- its `exp` has passed, where the token parses to the claims whose `exp` this is and both caches
-- stand for lists before.
pub verify_token-again :
    (x : Context) (now later exp : ℤ) (token : Str) (jwt : Jwt) (v : Verifier)
    → IsSound v
    → is_cached (cache_get now token v).1 ≡ false
    → parse_jwt x.platform token ≡ ok jwt
    → as_num (lookup (lit "exp") jwt.claims) ≡ some exp
    → (verify_token x now token v).1 ≡ ok tt
    → after later (unix exp) ≡ false
    → (verify_token x later token (verify_token x now token v).0).1 ≡ ok tt
unfolding verify_token cache_get
verify_token-again x now later exp token jwt v sound miss parsed e first live =
    let w = (cache_get now token v).0 in
    let r = (get-Refines now (token_key token) sound.token_cache).0 in
    let cached = verify_fresh-token_cache x now exp token jwt w parsed e (ground arith) in
    let found = get-set r now later (token_key token) jwt.claims (unix exp -ℤ now) in
    ground (arith, cached, found, is_cached-exp jwt.claims exp e, add_difference now (unix exp))
