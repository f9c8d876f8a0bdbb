-- ===== src/Verifier/Checked.antt =====
-- What `VerifyToken` and `VerifyJWTSignatureAndClaims` (main.go) have checked where they accept.
use traefikoidc.Base.{
  subst, sym, ap, ◌∙◌, ◌≡◌, true, some, List, [], ◌∷◌, arith, ◌⊎◌, inl, inr, Bool-cases,
  Option-cases,
}
use traefikoidc.Base.Int.{ℤ}
use traefikoidc.Base.Map.{lookup}
use traefikoidc.Base.Text.{Str, lit, str_eq, str_eq_iff}
use traefikoidc.Error.{ok, Result-cases, check-cases}
use traefikoidc.Jwks.{JwkCache, get_jwks}
use traefikoidc.Jwt.{Jwt, Replays, parse_jwt, verify, verify_claims}
use traefikoidc.Jwt.Accepted.{IsAcceptable, verify_claims-IsAcceptable}
use traefikoidc.Jwt.Signature.{Jwk, jwk_to_pem, verify_signature}
use traefikoidc.Jwt.Signed.{IsSigned, verify_signature-IsSigned}
use traefikoidc.Platform.{Platform, as_str}
use traefikoidc.Verifier.{
  Verifier, Context, cache_get, is_cached, verify_token, verify_fresh, verify_jwt, check_signature,
  check_standard_claims, pre_verify, blacklist_get, check_jti, find_key,
}

-- a key is one of these
abbrev pub Has : Jwk → List Jwk → Type 0
Has key [] = ⊥
Has key (k ∷ keys) = (k ≡ key) ⊎ Has key keys

pub verify-verify_claims :
    (x : Context) (now : ℤ) (j : Jwt) (cache : Replays)
    → (verify x.platform now x.issuer_url x.client_id j cache).1 ≡ ok tt
    → verify_claims x.platform now x.issuer_url x.client_id j ≡ ok tt
unfolding verify
verify-verify_claims x now j cache h =
    elim (Result-cases (verify_claims x.platform now x.issuer_url x.client_id j)) [
      | inl (u, p) ↦ p
      | inr (e, p) ↦ absurd (ground arith)
    ]

-- A token is signed by one of these keys: by the first that has the key ID of the token's header,
-- with the algorithm of the header.
pub record IsSignedBy (p : Platform) (keys : List Jwk) (jwt : Jwt) (token : Str) : Type 0 where
  pub kid : Str
  pub has_kid : as_str (lookup (lit "kid") jwt.header) ≡ some kid
  pub alg : Str
  pub has_alg : as_str (lookup (lit "alg") jwt.header) ≡ some alg
  pub key : Jwk
  pub found : find_key kid keys ≡ some key
  pub listed : Has key keys
  pub same_kid : key.kid ≡ kid
  pub pem : Str
  pub converted : jwk_to_pem p key ≡ ok pem
  pub is_signed : IsSigned p token pem alg

find_key-Has :
    (kid : Str) (keys : List Jwk) (key : Jwk)
    → find_key kid keys ≡ some key
    → Has key keys × (key.kid ≡ kid)
unfolding find_key
find_key-Has kid [] key h = absurd (ground arith)
find_key-Has kid (k ∷ keys) key h = elim (Bool-cases (str_eq k.kid kid)) [
  | inl p ↦
      let same : k ≡ key = ground arith in
      (inl same, ap (λ (j : Jwk). j.kid) (sym same) ∙ (str_eq_iff k.kid kid).0 p)
  | inr p ↦ let (m, e) = find_key-Has kid keys key (ground arith) in (inr m, e)
]

check_signature-IsSignedBy :
    (p : Platform) (keys : List Jwk) (jwt : Jwt) (token : Str)
    → check_signature p keys jwt token ≡ ok tt
    → IsSignedBy p keys jwt token
unfolding check_signature
check_signature-IsSignedBy p keys jwt token h =
    elim (Option-cases (as_str (lookup (lit "kid") jwt.header))) [
      | inl a ↦ absurd (ground arith)
      | inr (kid, a) ↦ elim (Option-cases (as_str (lookup (lit "alg") jwt.header))) [
        | inl b ↦ absurd (ground arith)
        | inr (alg, b) ↦ elim (Option-cases (find_key kid keys)) [
          | inl c ↦ absurd (ground arith)
          | inr (key, c) ↦ elim (Result-cases (jwk_to_pem p key)) [
            | inr (e, d) ↦ absurd (ground arith)
            | inl (pem, d) ↦ elim (check-cases (verify_signature p token pem alg)) [
              | inr (e, f) ↦ absurd (ground arith)
              | inl f ↦ record {
                kid = kid;
                has_kid = a;
                alg = alg;
                has_alg = b;
                key = key;
                found = c;
                listed = (find_key-Has kid keys key c).0;
                same_kid = (find_key-Has kid keys key c).1;
                pem = pem;
                converted = d;
                is_signed = verify_signature-IsSigned p token pem alg f;
              }
            ]
          ]
        ]
      ]
    ]

-- The token is signed by a key that the key cache gives, from its own keys or from those fetched,
-- and the claims are acceptable.
pub record IsChecked (x : Context) (now : ℤ) (token : Str) (jwt : Jwt) (cache : JwkCache)
    : Type 0 where
  pub parsed : parse_jwt x.platform token ≡ ok jwt
  pub keys : List Jwk
  pub provided : (get_jwks now now x.fetched cache).1 ≡ ok keys
  pub signed : IsSignedBy x.platform keys jwt token
  pub acceptable : IsAcceptable now x.issuer_url x.client_id jwt

-- What the verification by signature and claims has accepted.
verify_jwt-IsChecked :
    (x : Context) (now : ℤ) (token : Str) (jwt : Jwt) (v : Verifier)
    → parse_jwt x.platform token ≡ ok jwt
    → (verify_jwt x now jwt token v).1 ≡ ok tt
    → IsChecked x now token jwt v.jwk_cache
unfolding verify_jwt check_standard_claims
verify_jwt-IsChecked x now token jwt v h k =
    elim (Result-cases (get_jwks now now x.fetched v.jwk_cache).1) [
      | inr (e, p) ↦ absurd (ground arith)
      | inl (keys, p) ↦ elim (Result-cases (check_signature x.platform keys jwt token)) [
        | inr (e, q) ↦ absurd (ground arith)
        | inl (u, q) ↦ record {
          parsed = h;
          keys = keys;
          provided = p;
          signed = check_signature-IsSignedBy x.platform keys jwt token q;
          acceptable =
              verify_claims-IsAcceptable x.platform now x.issuer_url x.client_id jwt
                (verify-verify_claims x now jwt v.replays (ground arith));
        }
      ]
    ]

pre_verify-jwk_cache :
    (x : Context) (now : ℤ) (token : Str) (v : Verifier)
    → (pre_verify x now token v).0.jwk_cache ≡ v.jwk_cache
unfolding pre_verify blacklist_get check_jti
pre_verify-jwk_cache x now token v = ground arith

-- `VerifyToken` accepts a token only if it finds claims of it in the token cache, or if the token
-- parses, its last part is a signature of the first two, made as its algorithm says, by the key of
-- its key ID among those that the key cache gives, and its claims are acceptable at that instant.
pub verify_token-IsChecked :
    (x : Context) (now : ℤ) (token : Str) (v : Verifier)
    → (verify_token x now token v).1 ≡ ok tt
    → (is_cached (cache_get now token v).1 ≡ true)
      ⊎ ((jwt : Jwt) × IsChecked x now token jwt v.jwk_cache)
unfolding verify_token verify_fresh cache_get
verify_token-IsChecked x now token v h = elim (Bool-cases (is_cached (cache_get now token v).1)) [
  | inl a ↦ inl a
  | inr a ↦
      let w = (pre_verify x now token (cache_get now token v).0).0 in
      elim (Result-cases (parse_jwt x.platform token)) [
        | inr (e, p) ↦ absurd (ground arith)
        | inl (jwt, p) ↦ inr (
          jwt,
          subst (λ c. IsChecked x now token jwt c)
              (pre_verify-jwk_cache x now token (cache_get now token v).0)
              (verify_jwt-IsChecked x now token jwt w p (ground arith)),
        )
      ]
]
