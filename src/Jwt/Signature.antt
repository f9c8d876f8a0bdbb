-- ===== src/Jwt/Signature.antt =====
-- `verifySignature` of jwt.go, and the conversion of keys in jwk.go.
use traefikoidc.Base.{
  ℕ, ◌+◌, ◌*◌, ◌/◌, ◌%◌, Option, none, some, List, [], ◌∷◌, ◌++◌, ◌==◌, if◌then◌else◌, length, take,
  drop, any,
}
use traefikoidc.Base.Text.{Str, lit, str_eq, split, has_prefix}
use traefikoidc.Error.{Result, ok, fail, ◌>>=◌, or_fail, guard}
use traefikoidc.Jwt.{three}
use traefikoidc.Platform.{
  Platform, Hash, sha256, sha384, sha512, Curve, p256, p384, p521, PublicKey, rsa, ecdsa, other_key,
}

-- `big.Int.SetBytes`, big-endian
unfoldable pub from_bytes : ℕ → Str → ℕ
from_bytes acc [] = acc
from_bytes acc (b ∷ bs) = from_bytes (acc * 256 + b) bs

-- the `switch` on the algorithm
unfoldable pub hash_of : Str → Option Hash
hash_of alg =
    let is = λ (names : List Str). any (str_eq alg) names in
    if is (lit "RS256" ∷ lit "PS256" ∷ lit "ES256" ∷ [])
    then some sha256
    else (if is (lit "RS384" ∷ lit "PS384" ∷ lit "ES384" ∷ [])
        then some sha384
        else (if is (lit "RS512" ∷ lit "PS512" ∷ lit "ES512" ∷ []) then some sha512 else none))

-- the `switch` on the type of the key
unfoldable pub verify_with : Platform → Str → Hash → Str → Str → PublicKey → Result (Unit {0})
verify_with p alg hash hashed signature (rsa n e) =
    if has_prefix alg (lit "RS")
    then guard (p.verify_pkcs1v15 n e hash hashed signature) (lit "crypto/rsa: verification error")
    else (if has_prefix alg (lit "PS")
        then guard (p.verify_pss n e hash hashed signature) (lit "crypto/rsa: verification error")
        else fail (lit "unexpected key type for algorithm " ++ alg))
verify_with p alg hash hashed signature (ecdsa curve x y) =
    let half = length signature / 2 in
    let r = from_bytes 0 (take half signature) in
    let s = from_bytes 0 (drop half signature) in
    if has_prefix alg (lit "ES")
    then (if length signature % 2 == 0
        then guard (p.verify_ecdsa curve x y hashed r s) (lit "invalid ECDSA signature")
        else fail (lit "invalid ECDSA signature length"))
    else fail (lit "unexpected key type for algorithm " ++ alg)
verify_with p alg hash hashed signature other_key = fail (lit "unsupported public key type")

-- `verifySignature`
unfoldable pub verify_signature : Platform → Str → Str → Str → Result (Unit {0})
verify_signature p token public_key_pem alg = do
  (first, second, third) ← three (split b'.' token) (lit "invalid token format")
  let signed_content = first ++ (lit "." ++ second)
  signature ← or_fail (p.decode_segment third) (lit "failed to decode signature")
  block ←
      or_fail (p.pem_decode public_key_pem)
        (lit "failed to parse PEM block containing the public key")
  key ← or_fail (p.parse_key block) (lit "failed to parse public key")
  hash ← or_fail (hash_of alg) (lit "unsupported algorithm: " ++ alg)
  verify_with p alg hash (p.digest hash signed_content) signature key

-- `JWK` (jwk.go)
pub record Jwk : Type 0 where
  pub kty : Str
  pub kid : Str
  pub key_use : Str
  pub n : Str
  pub e : Str
  pub alg : Str
  pub crv : Str
  pub x : Str
  pub y : Str

-- `rsaJWKToPEM`
unfoldable pub rsa_jwk_to_pem : Platform → Jwk → Result Str
rsa_jwk_to_pem p jwk = do
  n_bytes ← or_fail (p.decode_segment jwk.n) (lit "failed to decode JWK 'n' parameter")
  e_bytes ← or_fail (p.decode_segment jwk.e) (lit "failed to decode JWK 'e' parameter")
  let key = rsa (from_bytes 0 n_bytes) (p.int64 (from_bytes 0 e_bytes))
  bytes ← or_fail (p.marshal_key key) (lit "failed to marshal RSA public key")
  ok (p.pem_encode bytes)

-- the `switch` on the curve
unfoldable pub curve_of : Str → Option Curve
curve_of crv =
    if str_eq crv (lit "P-256")
    then some p256
    else (if str_eq crv (lit "P-384")
        then some p384
        else (if str_eq crv (lit "P-521") then some p521 else none))

-- `ecJWKToPEM`
unfoldable pub ec_jwk_to_pem : Platform → Jwk → Result Str
ec_jwk_to_pem p jwk = do
  x_bytes ← or_fail (p.decode_segment jwk.x) (lit "failed to decode JWK 'x' parameter")
  y_bytes ← or_fail (p.decode_segment jwk.y) (lit "failed to decode JWK 'y' parameter")
  curve ← or_fail (curve_of jwk.crv) (lit "unsupported elliptic curve: " ++ jwk.crv)
  let key = ecdsa curve (from_bytes 0 x_bytes) (from_bytes 0 y_bytes)
  bytes ← or_fail (p.marshal_key key) (lit "failed to marshal EC public key")
  ok (p.pem_encode bytes)

-- `jwkToPEM` with the table `jwkConverters`
unfoldable pub jwk_to_pem : Platform → Jwk → Result Str
jwk_to_pem p jwk =
    if str_eq jwk.kty (lit "RSA")
    then rsa_jwk_to_pem p jwk
    else (if str_eq jwk.kty (lit "EC")
        then ec_jwk_to_pem p jwk
        else fail (lit "unsupported key type: " ++ jwk.kty))
