-- ===== src/Verifier/Listed.antt =====
-- The blacklist entry that `VerifyToken` (main.go) makes for the `jti` of a token it has accepted.
use traefikoidc.Base.{
  ◌≡◌, ◌∙◌, Bool, true, false, not, none, some, Option, List, arith, inl, inr, Bool-cases,
}
use traefikoidc.Base.Int.{ℤ, ◌+ℤ◌, ◌-ℤ◌, after, seconds}
use traefikoidc.Base.Map.{lookup}
use traefikoidc.Base.Text.{Str, lit, is_blank}
use traefikoidc.Cache
use traefikoidc.Cache.{Cache, CacheItem}
use traefikoidc.Cache.Refines.{Refines}
use traefikoidc.Cache.Operations.{get-Refines}
use traefikoidc.Cache.Reads.{get-set}
use traefikoidc.Error.{ok, check-cases}
use traefikoidc.Jwt.{Jwt, parse_jwt, extract_claims}
use traefikoidc.Platform.{Claims, as_str}
use traefikoidc.Verifier.{
  Verifier, Context, cache_get, blacklist_get, blacklist_set, is_cached, verify_token, verify_fresh,
  verify_jwt, pre_verify, remember_jti, cache_verified_token, cache_set, blacklist_expiry,
  check_jti, jti_of_token,
}
use traefikoidc.Verifier.Blacklist.{
  IsSound, verify_jwt-caches, blacklist_expiry_lem, add_difference,
}

-- a blacklist that stands for a list
abbrev IsListed : Cache Bool → Type 0
IsListed c = (l : List (Str × CacheItem Bool)) × Refines c l

blacklist_get-IsListed :
    (now : ℤ) (key : Str) (v : Verifier)
    → IsListed v.blacklist
    → IsListed (blacklist_get now key v).0.blacklist
unfolding blacklist_get
blacklist_get-IsListed now key v (l, r) = (_, (get-Refines now key r).0)

check_jti-IsListed :
    (now : ℤ) (jti : Option Str) (v : Verifier)
    → IsListed v.blacklist
    → IsListed (check_jti now jti v).0.blacklist
unfolding check_jti
check_jti-IsListed now none v l = l
check_jti-IsListed now (some jti) v l = elim (Bool-cases (blacklist_get now jti v).1) [
  | inl p ↦ rw (check_jti, p) (blacklist_get-IsListed now jti v l)
  | inr p ↦ rw (check_jti, p) (blacklist_get-IsListed now jti v l)
]

pre_verify-IsListed :
    (x : Context) (now : ℤ) (token : Str) (v : Verifier)
    → IsListed v.blacklist
    → IsListed (pre_verify x now token v).0.blacklist
unfolding pre_verify
pre_verify-IsListed x now token v l =
    let first = blacklist_get-IsListed now token v l in
    elim (Bool-cases x.allow) [
      | inr p ↦ rw (pre_verify, p) l
      | inl p ↦ elim (Bool-cases (blacklist_get now token v).1) [
        | inl q ↦ rw (pre_verify, p, q) first
        | inr q ↦
            rw (pre_verify, p, q)
              (check_jti-IsListed now (jti_of_token (extract_claims x.platform token))
                (blacklist_get now token v).0 first)
      ]
    ]

cache_verified_token-blacklist :
    (now : ℤ) (token : Str) (claims : Claims) (v : Verifier)
    → (cache_verified_token now token claims v).blacklist ≡ v.blacklist
unfolding cache_verified_token cache_set
cache_verified_token-blacklist now token claims v = ground arith

remember_jti-blacklist :
    (now : ℤ) (claims : Claims) (jti : Str) (v : Verifier)
    → as_str (lookup (lit "jti") claims) ≡ some jti
    → is_blank jti ≡ false
    → (remember_jti now claims v).blacklist
      ≡ Cache.set now jti true (blacklist_expiry now claims -ℤ now) v.blacklist
unfolding remember_jti blacklist_set
remember_jti-blacklist now claims jti v h b = ground arith

-- the blacklist after a full verification
verify_fresh-blacklist :
    (x : Context) (now : ℤ) (token jti : Str) (jwt : Jwt) (v : Verifier)
    → IsListed v.blacklist
    → parse_jwt x.platform token ≡ ok jwt
    → as_str (lookup (lit "jti") jwt.claims) ≡ some jti
    → is_blank jti ≡ false
    → (verify_fresh x now token v).1 ≡ ok tt
    → (c : Cache Bool) × IsListed c
      × ((verify_fresh x now token v).0.blacklist
          ≡ Cache.set now jti true (blacklist_expiry now jwt.claims -ℤ now) c)
unfolding verify_fresh
verify_fresh-blacklist x now token jti jwt v l parsed h b k =
    elim (check-cases (pre_verify x now token v).1) [
      | inr (m, p) ↦ absurd (ground arith)
      | inl p ↦ elim (check-cases (verify_jwt x now jwt token (pre_verify x now token v).0).1) [
        | inr (m, q) ↦ absurd (ground arith)
        | inl q ↦
            let v₁ = (pre_verify x now token v).0 in
            let v₂ = (verify_jwt x now jwt token v₁).0 in
            let stored = cache_verified_token now token jwt.claims v₂ in
            let same : stored.blacklist ≡ v₁.blacklist =
              cache_verified_token-blacklist now token jwt.claims v₂
              ∙ (verify_jwt-caches x now jwt token v₁).1 in
            (
              v₁.blacklist,
              pre_verify-IsListed x now token v l,
              ground (arith, remember_jti-blacklist now jwt.claims jti stored h b, same),
            )
      ]
    ]

-- A token with a `jti` that `VerifyToken` has verified in full leaves its `jti` on the blacklist, and
-- there it is found until 24 hours after the verification and not later, whatever the token's `exp`,
-- where both caches stand for lists before and nothing comes in between.
pub verify_token-blacklist_get :
    (x : Context) (now later : ℤ) (token jti : Str) (jwt : Jwt) (v : Verifier)
    → IsSound v
    → is_cached (cache_get now token v).1 ≡ false
    → parse_jwt x.platform token ≡ ok jwt
    → as_str (lookup (lit "jti") jwt.claims) ≡ some jti
    → is_blank jti ≡ false
    → (verify_token x now token v).1 ≡ ok tt
    → (blacklist_get later jti (verify_token x now token v).0).1
      ≡ not (after later (now +ℤ seconds 86400))
unfolding verify_token cache_get blacklist_get
verify_token-blacklist_get x now later token jti jwt v sound miss parsed h b first =
    let w = (cache_get now token v).0 in
    let (c, (l, r), put) =
      verify_fresh-blacklist x now token jti jwt w (sound.listed, sound.blacklist) parsed h b
        (ground arith) in
    let end = blacklist_expiry now jwt.claims in
    let found = get-set r now later jti true (end -ℤ now) in
    let when = add_difference now end ∙ blacklist_expiry_lem now jwt.claims in
    ground (arith, put, found, when)
