-- ===== src/Jwt.antt =====
-- jwt.go: parsing a token, the standard claims, and the replay cache. Every function takes the
-- instant `now` that `time.Now()` returns. The text of a library's error (`%v`, `%w`) is left out
-- of the texts below.
pub mod Signature
pub mod Signed
pub mod Accepted
pub mod Replay
use traefikoidc.Base.{
  ℕ, Bool, true, false, Option, none, some, List, [], ◌∷◌, ◌++◌, if◌then◌else◌, is_some, length,
  any,
}
use traefikoidc.Base.Int.{ℤ, ◌+ℤ◌, ◌-ℤ◌, before, after, unix, seconds}
use traefikoidc.Base.Map.{lookup, insert}
use traefikoidc.Base.Text.{Str, lit, str_eq, is_blank, split}
use traefikoidc.Error.{Result, ok, fail, ◌>>=◌, ◌>>◌, or_fail, guard}
use traefikoidc.Platform.{Platform, Json, str, arr, Items, nil, cons, Claims, as_str, as_num}

pub record Jwt : Type 0 where
  pub header : Claims
  pub claims : Claims
  pub signature : Str
  pub token : Str

-- the three parts of a token, or the given error
unfoldable pub three : List Str → Str → Result (Str × Str × Str)
three (a ∷ b ∷ c ∷ []) e = ok (a, b, c)
three _ e = fail e

-- `parseJWT`
unfoldable pub parse_jwt : Platform → Str → Result Jwt
parse_jwt p token = do
  let parts = split b'.' token
  (first, second, third) ←
      three parts (lit "invalid JWT format: expected 3 parts, got " ++ p.show_nat (length parts))
  header_bytes ←
      or_fail (p.decode_segment first) (lit "invalid JWT format: failed to decode header")
  header ← or_fail (p.unmarshal header_bytes) (lit "invalid JWT format: failed to unmarshal header")
  claims_bytes ←
      or_fail (p.decode_segment second) (lit "invalid JWT format: failed to decode claims")
  claims ← or_fail (p.unmarshal claims_bytes) (lit "invalid JWT format: failed to unmarshal claims")
  signature ←
      or_fail (p.decode_segment third) (lit "invalid JWT format: failed to decode signature")
  ok (record { header = header; claims = claims; signature = signature; token = token })

-- `extractClaims` (helpers.go)
unfoldable pub extract_claims : Platform → Str → Result Claims
extract_claims p token = do
  (first, second, third) ← three (split b'.' token) (lit "invalid token format")
  payload ← or_fail (p.decode_segment second) (lit "failed to decode token payload")
  or_fail (p.unmarshal payload) (lit "failed to unmarshal claims")

-- `ClockSkewToleranceFuture`, `ClockSkewTolerancePast`
abbrev pub skew_future : ℤ
skew_future = seconds 120

abbrev pub skew_past : ℤ
skew_past = seconds 10

-- the instants that a time error shows
abbrev times : Platform → Str → ℤ → ℤ → Str → ℤ → Str
times p name claim_time now label limit =
    name
    ++ (lit ": "
        ++ (p.show_time claim_time
            ++ (lit ", now: " ++ (p.show_time now ++ (label ++ (p.show_time limit ++ lit ")"))))))

-- `verifyTimeConstraint`: `future` is the check of `exp`, the other that of `iat` and `nbf`
unfoldable pub verify_time_constraint : Platform → ℤ → ℤ → Str → Bool → Result (Unit {0})
verify_time_constraint p now unix_time name future =
    let claim_time = unix unix_time in
    let allowed_expiry = claim_time +ℤ skew_future in
    let allowed_start = claim_time -ℤ skew_past in
    let reason =
      (if str_eq name (lit "iat") then lit "used before issued" else lit "not yet valid") in
    if future
    then (if after now allowed_expiry
        then fail (
            lit "token has expired ("
            ++ times p (lit "exp") claim_time now (lit ", allowed_until: ") allowed_expiry)
        else ok tt)
    else (if before now allowed_start
        then fail (
            lit "token "
            ++ (reason
                ++ (lit " ("
                    ++ times p name claim_time now (lit ", allowed_from: ") allowed_start)))
        else ok tt)

unfoldable pub verify_expiration : Platform → ℤ → ℤ → Result (Unit {0})
verify_expiration p now t = verify_time_constraint p now t (lit "exp") true

unfoldable pub verify_issued_at : Platform → ℤ → ℤ → Result (Unit {0})
verify_issued_at p now t = verify_time_constraint p now t (lit "iat") false

unfoldable pub verify_not_before : Platform → ℤ → ℤ → Result (Unit {0})
verify_not_before p now t = verify_time_constraint p now t (lit "nbf") false

-- the elements of an `[]interface{}`
abbrev pub elements : Items → List Json
elements nil = []
elements (cons v vs) = v ∷ elements vs

-- `str, ok := v.(string); ok && str == s`
abbrev pub is_str : Str → Json → Bool
is_str s (str t) = str_eq t s
is_str s _ = false

-- `verifyAudience`
unfoldable pub verify_audience : Json → Str → Result (Unit {0})
verify_audience (str aud) expected = guard (str_eq aud expected) (lit "invalid audience")
verify_audience (arr vs) expected =
    guard (any (is_str expected) (elements vs)) (lit "invalid audience")
verify_audience _ expected = fail (lit "invalid 'aud' claim type")

-- `verifyIssuer`
unfoldable pub verify_issuer : Str → Str → Result (Unit {0})
verify_issuer token expected =
    guard (str_eq token expected)
      (lit "invalid issuer (token: " ++ (token ++ (lit ", expected: " ++ (expected ++ lit ")"))))

-- `supportedAlgs` in `Verify`
abbrev pub supported_algs : List Str
supported_algs =
    lit "RS256"
    ∷ lit "RS384"
    ∷ lit "RS512"
    ∷ lit "PS256"
    ∷ lit "PS384"
    ∷ lit "PS512"
    ∷ lit "ES256"
    ∷ lit "ES384"
    ∷ lit "ES512"
    ∷ []

-- the check of `nbf`, which may be absent
abbrev check_not_before : Platform → ℤ → Option ℤ → Result (Unit {0})
check_not_before p now none = ok tt
check_not_before p now (some t) = verify_not_before p now t

-- The part of `Verify` before the replay cache, in the source's order.
unfoldable pub verify_claims : Platform → ℤ → Str → Str → Jwt → Result (Unit {0})
verify_claims p now issuer_url client_id j = do
  alg ← or_fail (as_str (lookup (lit "alg") j.header)) (lit "missing 'alg' header")
  guard (any (str_eq alg) supported_algs) (lit "unsupported algorithm: " ++ alg)
  iss ← or_fail (as_str (lookup (lit "iss") j.claims)) (lit "missing 'iss' claim")
  verify_issuer iss issuer_url
  aud ← or_fail (lookup (lit "aud") j.claims) (lit "missing 'aud' claim")
  verify_audience aud client_id
  exp ← or_fail (as_num (lookup (lit "exp") j.claims)) (lit "missing or invalid 'exp' claim")
  verify_expiration p now exp
  iat ← or_fail (as_num (lookup (lit "iat") j.claims)) (lit "missing or invalid 'iat' claim")
  verify_issued_at p now iat
  check_not_before p now (as_num (lookup (lit "nbf") j.claims))

-- the last check of `Verify`
unfoldable pub verify_subject : Claims → Result (Unit {0})
verify_subject claims = elim (as_str (lookup (lit "sub") claims)) [
  | none ↦ fail (lit "missing or empty 'sub' claim")
  | some sub ↦ if is_blank sub then fail (lit "missing or empty 'sub' claim") else ok tt
]

-- The global `replayCache`: a token's `jti` with the instant at which the entry ends.
abbrev pub Replays : Type 0
Replays = List (Str × ℤ)

-- `cleanupReplayCache`
unfoldable pub cleanup_replay_cache : ℤ → Replays → Replays
cleanup_replay_cache now [] = []
cleanup_replay_cache now ((jti, expiry) ∷ cache) =
    if before expiry now
    then cleanup_replay_cache now cache
    else (jti, expiry) ∷ cleanup_replay_cache now cache

-- the end of a replay entry
abbrev pub replay_expiry : ℤ → Claims → ℤ
replay_expiry now claims = elim (as_num (lookup (lit "exp") claims)) [
  | some exp ↦ unix exp
  | none ↦ now +ℤ seconds 600
]

-- the replay step of `Verify`, and what follows it
unfoldable pub check_replay : ℤ → Jwt → Str → Replays → Replays × Result (Unit {0})
check_replay now j jti cache =
    let fresh = cleanup_replay_cache now cache in
    if is_blank j.token
    then (cache, ok tt)
    else (if is_some (lookup jti fresh)
        then (fresh, fail (lit "token replay detected"))
        else (insert jti (replay_expiry now j.claims) fresh, verify_subject j.claims))

-- `Verify`
unfoldable pub verify : Platform → ℤ → Str → Str → Jwt → Replays → Replays × Result (Unit {0})
verify p now issuer_url client_id j cache = elim (verify_claims p now issuer_url client_id j) [
  | fail e ↦ (cache, fail e)
  | ok _ ↦ elim (as_str (lookup (lit "jti") j.claims)) [
    | none ↦ (cache, verify_subject j.claims)
    | some jti ↦ check_replay now j jti cache
  ]
]
