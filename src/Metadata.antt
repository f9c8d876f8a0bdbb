-- ===== src/Metadata.antt =====
-- Provider metadata: metadata_cache.go, and `discoverProviderMetadata` and `fetchMetadata` of
-- main.go. What the provider answers to each attempt is an argument.
pub mod Laws
pub mod Finds
use traefikoidc.Base.{
  ℕ, zero, suc, ◌+◌, ◌*◌, ◌^◌, Bool, true, false, ◌&&◌, Option, none, some, List, [], ◌∷◌, ◌++◌,
  ◌==◌, if◌then◌else◌, is_some,
}
use traefikoidc.Base.Int.{ℤ, pos, ◌+ℤ◌, ◌-ℤ◌, before, after, seconds}
use traefikoidc.Base.Text.{Str, lit, has_suffix, trim_suffix}
use traefikoidc.Error.{Result, ok, fail, or_fail, wrapped}
use traefikoidc.Platform.{Platform, Answer, transport_error, response}

-- `ProviderMetadata`
pub record ProviderMetadata : Type 0 where
  pub issuer : Str
  pub auth_url : Str
  pub token_url : Str
  pub jwks_url : Str
  pub revoke_url : Str
  pub end_session_url : Str

-- `fetchMetadata`; the quoted body in the error texts is left out
unfoldable pub fetch_metadata :
    Platform → (Str → Option ProviderMetadata) → Str → Answer → Result ProviderMetadata
fetch_metadata p decode url (transport_error e) =
    fail (lit "failed to fetch provider metadata: " ++ e)
fetch_metadata p decode url (response status body) =
    if status == 200
    then or_fail (decode body) (lit "failed to decode provider metadata from " ++ url)
    else fail (
        lit "failed to fetch provider metadata from "
        ++ (url ++ (lit ": status code " ++ p.show_nat status)))

-- the URL that is asked
unfoldable pub well_known_url : Str → Str
well_known_url provider = trim_suffix provider (lit "/") ++ lit "/.well-known/openid-configuration"

abbrev pub max_retries : ℕ
max_retries = 5

abbrev pub max_delay : ℤ
max_delay = seconds 30

abbrev pub total_timeout : ℤ
total_timeout = seconds 300

-- the delay after attempt number `n`: 2 ^ n seconds, at most 30
unfoldable pub backoff : ℕ → ℤ
backoff n = let delay = seconds (2 ^ n) in if after delay max_delay then max_delay else delay

-- The loop of `discoverProviderMetadata`. `attempts` counts the attempts left, `answer n` is the
-- result of attempt `n` with the time that it takes; the pause after a failed attempt is part of
-- the time that passes. The result comes with the attempts made and the instant of the return.
unfoldable pub discover_from :
    (ℕ → Result ProviderMetadata) → (ℕ → ℤ) → ℤ → ℕ → ℕ → ℤ → Str → Result ProviderMetadata × ℕ × ℤ
discover_from answer took start zero n now last =
    (fail (lit "max retries exceeded while fetching provider metadata: " ++ last), n, now)
discover_from answer took start (suc attempts) n now last =
    let retry = λ (e : Str).
      discover_from answer took start attempts (n + 1) (now +ℤ took n +ℤ backoff n) e in
    if after (now -ℤ start) total_timeout
    then (fail (lit "timeout exceeded while fetching provider metadata: " ++ last), n, now)
    else elim (answer n) [ ok metadata ↦ (ok metadata, n + 1, now +ℤ took n) | fail e ↦ retry e ]

-- `discoverProviderMetadata`
unfoldable pub discover :
    (ℕ → Result ProviderMetadata) → (ℕ → ℤ) → ℤ → Result ProviderMetadata × ℕ × ℤ
discover answer took start = discover_from answer took start max_retries 0 start []

-- `MetadataCache`
pub record MetadataCache : Type 0 where
  pub metadata : Option ProviderMetadata
  pub expires_at : ℤ

-- `Cleanup`
unfoldable pub cleanup_metadata : ℤ → MetadataCache → MetadataCache
cleanup_metadata now c =
    if is_some c.metadata && after now c.expires_at then record c { metadata = none } else c

-- `isCacheValid`, with the metadata
abbrev pub valid : ℤ → MetadataCache → Option ProviderMetadata
valid now c = elim c.metadata [
  | none ↦ none
  | some m ↦ if before now c.expires_at then some m else none
]

-- what follows the discovery, at the instant `now`
unfoldable pub store_metadata :
    ℤ → Result ProviderMetadata → MetadataCache → MetadataCache × Result ProviderMetadata
store_metadata now (ok m) c = (record { metadata = some m; expires_at = now +ℤ seconds 3600 }, ok m)
store_metadata now (fail e) c = elim c.metadata [
  | some m ↦ (record c { expires_at = now +ℤ seconds 300 }, ok m)
  | none ↦ (c, fail (lit "failed to fetch provider metadata: " ++ e))
]

-- `GetMetadata`: the test under the read lock at `now`, and again under the write lock at `later`,
-- where the discovery starts
unfoldable pub get_metadata :
    (ℕ → Result ProviderMetadata)
    → (ℕ → ℤ)
    → ℤ
    → ℤ
    → MetadataCache
    → MetadataCache × Result ProviderMetadata
get_metadata answer took now later c = elim (valid now c) [
  | some m ↦ (c, ok m)
  | none ↦ elim (valid later c) [
    | some m ↦ (c, ok m)
    | none ↦ let (result, made, ended) = discover answer took later in store_metadata ended result c
  ]
]
