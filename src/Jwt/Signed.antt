-- ===== src/Jwt/Signed.antt =====
-- What `verifySignature` of jwt.go accepts.
use traefikoidc.Base.{
  ℕ, ◌/◌, ◌%◌, ◌≡◌, refl, ap, sym, ◌∙◌, true, some, List, [], ◌∷◌, ◌++◌, ◌==◌, ◌⊎◌, inl, inr,
  Option-cases, Bool-cases, arith, length, take, drop, length-drop, length-append, ==_iff,
  take-append-drop,
}
use traefikoidc.Base.Int.{ℤ}
use traefikoidc.Base.Text.{Str, lit, split, has_prefix}
use traefikoidc.Error.{ok, fail}
use traefikoidc.Jwt.{three}
use traefikoidc.Jwt.Signature.{verify_signature, verify_with, hash_of, from_bytes}
use traefikoidc.Platform.{Platform, Hash, PublicKey, rsa, ecdsa, other_key, Curve}

-- A key signs a digest with an algorithm: an RSA key with one of the `RS` or `PS` algorithms, an
-- elliptic key with one of the `ES`, where the signature is two numbers of the same width.
pub data Signs (p : Platform) (alg : Str) (hash : Hash) (hashed signature : Str)
    : PublicKey → Type 0 where
  pkcs1v15 :
      {n : ℕ} {e : ℤ}
      → has_prefix alg (lit "RS") ≡ true
      → p.verify_pkcs1v15 n e hash hashed signature ≡ true
      → Signs p alg hash hashed signature (rsa n e)
  pss :
      {n : ℕ} {e : ℤ}
      → has_prefix alg (lit "PS") ≡ true
      → p.verify_pss n e hash hashed signature ≡ true
      → Signs p alg hash hashed signature (rsa n e)
  ec :
      {curve : Curve} {x y : ℕ} (r s : Str)
      → has_prefix alg (lit "ES") ≡ true
      → signature ≡ r ++ s
      → length r ≡ length s
      → p.verify_ecdsa curve x y hashed (from_bytes 0 r) (from_bytes 0 s) ≡ true
      → Signs p alg hash hashed signature (ecdsa curve x y)

-- half of a text of even length has the length of the other half
halves :
    (t : Str) → length t % 2 ≡ 0 → length (take (length t / 2) t) ≡ length (drop (length t / 2) t)
halves t h =
    let n = length t / 2 in
    let whole = sym (length-append (take n t) (drop n t)) ∙ ap length (take-append-drop n t) in
    omega (arith, h, whole, length-drop n t)

verify_with-Signs :
    (p : Platform) (alg : Str) (hash : Hash) (hashed signature : Str) (key : PublicKey)
    → verify_with p alg hash hashed signature key ≡ ok tt
    → Signs p alg hash hashed signature key
unfolding verify_with
verify_with-Signs p alg hash hashed signature (rsa n e) h =
    elim (Bool-cases (has_prefix alg (lit "RS"))) [
      | inl r ↦ Signs.pkcs1v15 r (ground arith)
      | inr r ↦ elim (Bool-cases (has_prefix alg (lit "PS"))) [
        | inl q ↦ Signs.pss q (ground arith)
        | inr q ↦ absurd (ground arith)
      ]
    ]
verify_with-Signs p alg hash hashed signature (ecdsa curve x y) h =
    let n = length signature / 2 in
    elim (Bool-cases (has_prefix alg (lit "ES"))) [
      | inr r ↦ absurd (ground arith)
      | inl r ↦ elim (Bool-cases (length signature % 2 == 0)) [
        | inr q ↦ absurd (ground arith)
        | inl q ↦
            Signs.ec (take n signature) (drop n signature) r (sym (take-append-drop n signature))
              (halves signature ((==_iff (length signature % 2) 0).0 q)) (ground arith)
      ]
    ]
verify_with-Signs p alg hash hashed signature other_key h = absurd (ground arith)

three-cases :
    (parts : List Str) (e : Str)
    → ((a b c : Str) × (parts ≡ a ∷ b ∷ c ∷ [])) ⊎ (three parts e ≡ fail e)
unfolding three
three-cases [] e = inr refl
three-cases (a ∷ []) e = inr refl
three-cases (a ∷ b ∷ []) e = inr refl
three-cases (a ∷ b ∷ c ∷ []) e = inl (a, b, c, refl)
three-cases (a ∷ b ∷ c ∷ d ∷ ds) e = inr refl

-- The token is signed: it has three parts, the last decodes to a signature of the first two, by the
-- key in the PEM block, with the hash of the algorithm, in the way of the algorithm.
pub record IsSigned (p : Platform) (token public_key_pem alg : Str) : Type 0 where
  pub first : Str
  pub second : Str
  pub third : Str
  pub parts : split b'.' token ≡ first ∷ second ∷ third ∷ []
  pub signature : Str
  pub decoded : p.decode_segment third ≡ some signature
  pub block : Str
  pub is_pem : p.pem_decode public_key_pem ≡ some block
  pub key : PublicKey
  pub is_key : p.parse_key block ≡ some key
  pub hash : Hash
  pub supported : hash_of alg ≡ some hash
  pub signs : Signs p alg hash (p.digest hash (first ++ (lit "." ++ second))) signature key

-- The signature check accepts a token only if the last of its three parts is a signature of the
-- first two by the given key, with the hash of a supported algorithm, and made as the algorithm
-- says: an RSA key never passes for an `ES` algorithm, nor an elliptic key for `RS` or `PS`.
pub verify_signature-IsSigned :
    (p : Platform) (token public_key_pem alg : Str)
    → verify_signature p token public_key_pem alg ≡ ok tt
    → IsSigned p token public_key_pem alg
unfolding verify_signature three
verify_signature-IsSigned p token public_key_pem alg h =
    elim (three-cases (split b'.' token) (lit "invalid token format")) [
      | inr a ↦ absurd (ground arith)
      | inl (first, second, third, a) ↦ elim (Option-cases (p.decode_segment third)) [
        | inl b ↦ absurd (ground arith)
        | inr (signature, b) ↦ elim (Option-cases (p.pem_decode public_key_pem)) [
          | inl c ↦ absurd (ground arith)
          | inr (block, c) ↦ elim (Option-cases (p.parse_key block)) [
            | inl d ↦ absurd (ground arith)
            | inr (key, d) ↦ elim (Option-cases (hash_of alg)) [
              | inl f ↦ absurd (ground arith)
              | inr (hash, f) ↦ record {
                first = first;
                second = second;
                third = third;
                parts = a;
                signature = signature;
                decoded = b;
                block = block;
                is_pem = c;
                key = key;
                is_key = d;
                hash = hash;
                supported = f;
                signs =
                    verify_with-Signs p alg hash (p.digest hash (first ++ (lit "." ++ second)))
                      signature key (ground arith);
              }
            ]
          ]
        ]
      ]
    ]
