-- ===== src/Random.antt =====
-- The random values of helpers.go and session.go. What crypto/rand, crypto/sha256 and the encodings
-- of encoding/base64 and encoding/hex do is a parameter.
use traefikoidc.Base.{ℕ, ◌+◌, ◌*◌, ◌/◌, ◌≡◌, ◌∙◌, ap, sym, refl, arith, length}
use traefikoidc.Base.Text.{Str, lit}
use traefikoidc.Error.{ok_of, Result, ok, fail, wrapped, ◌>>=◌}

-- `rand.Read` into a slice of this length, `sha256.Sum`, `base64.URLEncoding`,
-- `base64.RawURLEncoding` and `hex.EncodeToString`
pub record Entropy : Type 0 where
  pub read : ℕ → Result Str
  pub sha256 : Str → Str
  pub url_encode : Str → Str
  pub raw_url_encode : Str → Str
  pub hex_encode : Str → Str

-- `generateNonce`
unfoldable pub generate_nonce : Entropy → Result Str
generate_nonce r = do
  bytes ← wrapped (lit "could not generate nonce") (r.read 32)
  ok (r.url_encode bytes)

-- `generateCodeVerifier`
unfoldable pub generate_code_verifier : Entropy → Result Str
generate_code_verifier r = do
  bytes ← wrapped (lit "could not generate code verifier") (r.read 32)
  ok (r.raw_url_encode bytes)

-- `deriveCodeChallenge`
unfoldable pub derive_code_challenge : Entropy → Str → Str
derive_code_challenge r code_verifier = r.raw_url_encode (r.sha256 code_verifier)

-- `generateSecureRandomString`
unfoldable pub generate_secure_random_string : Entropy → ℕ → Result Str
generate_secure_random_string r size = do
  bytes ← wrapped (lit "failed to generate random bytes") (r.read size)
  ok (r.hex_encode bytes)

-- What the code relies on: a read fills the slice, a digest has 32 bytes, and the lengths of the
-- encodings.
pub record IsEntropy (r : Entropy) : Type 0 where
  pub length-read : (n : ℕ) (bytes : Str) → r.read n ≡ ok bytes → length bytes ≡ n
  pub length-sha256 : (s : Str) → length (r.sha256 s) ≡ 32
  pub length-url_encode : (s : Str) → length (r.url_encode s) ≡ (length s + 2) / 3 * 4
  pub length-raw_url_encode : (s : Str) → length (r.raw_url_encode s) ≡ (length s * 4 + 2) / 3
  pub length-hex_encode : (s : Str) → length (r.hex_encode s) ≡ length s * 2

-- what is encoded has been read
read_of :
    (text : Str) (read : Result Str) (encode : Str → Str) (s : Str)
    → (wrapped text read >>= (λ bytes. ok (encode bytes))) ≡ ok s
    → (bytes : Str) × (read ≡ ok bytes) × (encode bytes ≡ s)
read_of text (ok bytes) encode s h = (bytes, refl, ok_of h)
read_of text (fail e) encode s h = absurd (ground (arith, h))

-- Every random value of a login has its fixed length, where the libraries behave as `IsEntropy`
-- says: a nonce has 44 bytes, a code verifier and a code challenge have 43, which RFC 7636 allows,
-- and the random string of a session with `n` bytes has `2 * n`.
pub generate-lengths :
    (r : Entropy) (laws : IsEntropy r)
    → ((s : Str) → generate_nonce r ≡ ok s → length s ≡ 44)
      × ((s : Str) → generate_code_verifier r ≡ ok s → length s ≡ 43)
      × ((s : Str) → length (derive_code_challenge r s) ≡ 43)
      × ((n : ℕ) (s : Str) → generate_secure_random_string r n ≡ ok s → length s ≡ n * 2)
unfolding generate_nonce generate_code_verifier derive_code_challenge generate_secure_random_string
generate-lengths r laws = (
  λ s h.
      let (bytes, p, q) = read_of (lit "could not generate nonce") (r.read 32) r.url_encode s h in
      sym (ap length q)
      ∙ laws.length-url_encode bytes
      ∙ ap (λ n. (n + 2) / 3 * 4) (laws.length-read 32 bytes p),
  λ s h.
      let (bytes, p, q) =
        read_of (lit "could not generate code verifier") (r.read 32) r.raw_url_encode s h in
      sym (ap length q)
      ∙ laws.length-raw_url_encode bytes
      ∙ ap (λ n. (n * 4 + 2) / 3) (laws.length-read 32 bytes p),
  λ s. laws.length-raw_url_encode (r.sha256 s) ∙ ap (λ n. (n * 4 + 2) / 3) (laws.length-sha256 s),
  λ n s h.
      let (bytes, p, q) =
        read_of (lit "failed to generate random bytes") (r.read n) r.hex_encode s h in
      sym (ap length q)
      ∙ laws.length-hex_encode bytes
      ∙ ap (λ n. n * 2) (laws.length-read n bytes p),
)
