-- ===== src/Metadata/Laws.antt =====
-- How the discovery of the provider's metadata ends (main.go, metadata_cache.go).
use traefikoidc.Base.{
  ◌≤◌, refl, true, ℕ, zero, suc, ◌+◌, ◌<◌, ◌≡◌, ◌∙◌, ap, false, some, [], arith, ◌⊎◌, inl, inr,
  Bool-cases, ◌^◌,
}
use traefikoidc.Base.Int.{ℤ, ◌+ℤ◌, ◌-ℤ◌, ◌≤ℤ◌, before, after, seconds, le_of_not_before}
use traefikoidc.Base.Text.{Str}
use traefikoidc.Error.{Result, ok, fail, Result-cases}
use traefikoidc.Metadata.{
  ProviderMetadata, backoff, max_delay, total_timeout, discover, discover_from, max_retries,
  MetadataCache, get_metadata, store_metadata,
}

-- The pause after a failed attempt is never longer than 30 seconds.
pub backoff-max_delay : (n : ℕ) → backoff n ≤ℤ max_delay
unfolding backoff
backoff-max_delay n = elim (Bool-cases (after (seconds (2 ^ n)) max_delay)) [
  | inl p ↦ rw (backoff, p) (omega arith)
  | inr p ↦ rw (backoff, p) (le_of_not_before max_delay (seconds (2 ^ n)) p)
]

-- so many attempts fail, one after the other
abbrev pub AllFail : (ℕ → Result ProviderMetadata) → ℕ → ℕ → Type 0
AllFail answer lo zero = Unit
AllFail answer lo (suc k) = ((e : Str) × (answer lo ≡ fail e)) × AllFail answer (lo + 1) k

-- The metadata is the answer of the first attempt that succeeds, among those with these numbers.
abbrev pub IsFirst : (ℕ → Result ProviderMetadata) → ℕ → ℕ → ProviderMetadata → Type 0
IsFirst answer lo hi m = (k : ℕ) × (lo + k < hi) × (answer (lo + k) ≡ ok m) × AllFail answer lo k

module _ (answer : ℕ → Result ProviderMetadata) (took : ℕ → ℤ) (start : ℤ) where
  discover_from-IsFirst :
      (attempts n : ℕ) (now : ℤ) (last : Str) (m : ProviderMetadata)
      → (discover_from answer took start attempts n now last).0 ≡ ok m
      → IsFirst answer n (n + attempts) m
  unfolding discover_from
  discover_from-IsFirst zero n now last m h = absurd (ground arith)
  discover_from-IsFirst (suc attempts) n now last m h =
      elim (Bool-cases (after (now -ℤ start) total_timeout)) [
        | inl p ↦ absurd (ground arith)
        | inr p ↦ elim (Result-cases (answer n)) [
          | inl (a, q) ↦
              let same : n + 0 ≡ n = omega arith in
              (0, omega arith, ap answer same ∙ ground arith, tt)
          | inr (e, q) ↦
              let (k, hi, found, failed) =
                discover_from-IsFirst attempts (n + 1) (now +ℤ took n +ℤ backoff n) e m
                  (ground arith) in
              let same : n + suc k ≡ n + 1 + k = omega arith in
              (suc k, omega arith, ap answer same ∙ found, ((e, q), failed))
        ]
      ]

-- the outcome of a discovery
abbrev pub Outcome : Type 0
Outcome = Result ProviderMetadata × ℕ × ℤ

-- With so many attempts left from number `lo` on, the outcome is the answer of the first attempt
-- that succeeds, which is the last one made.
abbrev pub IsFound : (ℕ → Result ProviderMetadata) → ℕ → ℕ → Outcome → Type 0
IsFound answer lo left r =
    (m : ProviderMetadata) × (k : ℕ) × (k < left)
    × (r.0 ≡ ok m)
    × (answer (lo + k) ≡ ok m)
    × AllFail answer lo k
    × (r.1 ≡ lo + k + 1)

-- The outcome is an error, all attempts made have failed, and either none is left or the time for the
-- discovery is over.
abbrev pub IsGivenUp : (ℕ → Result ProviderMetadata) → ℤ → ℕ → ℕ → Outcome → Type 0
IsGivenUp answer start lo left r =
    (e : Str) × (k : ℕ) × (k ≤ left)
    × (r.0 ≡ fail e)
    × AllFail answer lo k
    × (r.1 ≡ lo + k)
    × ((k ≡ left) ⊎ (after (r.2 -ℤ start) total_timeout ≡ true))

module _ (answer : ℕ → Result ProviderMetadata) (took : ℕ → ℤ) (start : ℤ) where
  one_more :
      (attempts n : ℕ) (e : Str) (r : Outcome)
      → answer n ≡ fail e
      → IsFound answer (n + 1) attempts r ⊎ IsGivenUp answer start (n + 1) attempts r
      → IsFound answer n (suc attempts) r ⊎ IsGivenUp answer start n (suc attempts) r
  one_more attempts n e r q (inl (m, k, less, found, is_answer, failed, made)) =
      let same : n + suc k ≡ n + 1 + k = omega arith in
      inl (
        m,
        suc k,
        omega arith,
        found,
        ap answer same ∙ is_answer,
        ((e, q), failed),
        omega (arith, made),
      )
  one_more attempts n e r q (inr (last, k, le, lost, failed, made, why)) = inr (
    last,
    suc k,
    omega arith,
    lost,
    ((e, q), failed),
    omega (arith, made),
    elim why [ inl none_left ↦ inl (omega (arith, none_left)) | inr late ↦ inr late ],
  )

  discover_from_lem :
      (attempts n : ℕ) (now : ℤ) (last : Str)
      → IsFound answer n attempts (discover_from answer took start attempts n now last)
        ⊎ IsGivenUp answer start n attempts (discover_from answer took start attempts n now last)
  unfolding discover_from
  discover_from_lem zero n now last = inr (_, 0, omega arith, refl, tt, omega arith, inl refl)
  discover_from_lem (suc attempts) n now last =
      elim (Bool-cases (after (now -ℤ start) total_timeout)) [
        | inl p ↦ rw (discover_from, p) (inr (_, 0, omega arith, refl, tt, omega arith, inr p))
        | inr p ↦ elim (Result-cases (answer n)) [
          | inl (m, q) ↦
              let same : n + 0 ≡ n = omega arith in
              rw (discover_from, p, q)
                (inl (m, 0, omega arith, refl, ap answer same ∙ q, tt, omega arith))
          | inr (e, q) ↦
              rw (discover_from, p, q)
                (one_more attempts n e _ q
                  (discover_from_lem attempts (n + 1) (now +ℤ took n +ℤ backoff n) e))
        ]
      ]

-- A discovery makes at most five attempts. Either its result is the answer of the first attempt that
-- succeeds, which is the last one made, all before it having failed; or it fails, all attempts made
-- have failed, and they are five or its five minutes are over.
pub discover_lem :
    (answer : ℕ → Result ProviderMetadata) (took : ℕ → ℤ) (start : ℤ)
    → IsFound answer 0 5 (discover answer took start)
      ⊎ IsGivenUp answer start 0 5 (discover answer took start)
unfolding discover
discover_lem answer took start = discover_from_lem answer took start max_retries 0 start []

-- The metadata of a discovery that succeeds is what its first successful attempt has answered.
pub discover-IsFirst :
    (answer : ℕ → Result ProviderMetadata) (took : ℕ → ℤ) (start : ℤ) (m : ProviderMetadata)
    → (discover answer took start).0 ≡ ok m
    → IsFirst answer 0 5 m
unfolding discover
discover-IsFirst answer took start m h =
    discover_from-IsFirst answer took start max_retries 0 start [] m h

-- what `GetMetadata` does where its data is no longer valid
get_metadata-stored :
    (answer : ℕ → Result ProviderMetadata) (took : ℕ → ℤ) (now : ℤ) (c : MetadataCache)
    (old : ProviderMetadata)
    → c.metadata ≡ some old
    → before now c.expires_at ≡ false
    → get_metadata answer took now now c
      ≡ store_metadata (discover answer took now).2 (discover answer took now).0 c
unfolding get_metadata
get_metadata-stored answer took now c old h k = ground arith

store_metadata-old :
    (now : ℤ) (e : Str) (c : MetadataCache) (old : ProviderMetadata)
    → c.metadata ≡ some old
    → store_metadata now (fail e) c
      ≡ (record { metadata = some old; expires_at = now +ℤ seconds 300 }, ok old)
unfolding store_metadata
store_metadata-old now e c old h = ground arith

-- With metadata in the cache whose time has passed, `GetMetadata` never fails. Where the discovery
-- succeeds, it returns the discovered metadata, the answer of the first successful attempt, and keeps
-- it for an hour from the end of the discovery. Where the discovery fails, it returns the old
-- metadata, and keeps that for five minutes from then.
pub get_metadata-stale :
    (answer : ℕ → Result ProviderMetadata) (took : ℕ → ℤ) (now : ℤ) (c : MetadataCache)
    (old : ProviderMetadata)
    → c.metadata ≡ some old
    → before now c.expires_at ≡ false
    → ((m : ProviderMetadata) × ((discover answer took now).0 ≡ ok m)
        × IsFirst answer 0 5 m
        × (get_metadata answer took now now c ≡ (
          record { metadata = some m; expires_at = (discover answer took now).2 +ℤ seconds 3600 },
          ok m,
        )))
      ⊎ ((e : Str) × ((discover answer took now).0 ≡ fail e)
          × (get_metadata answer took now now c ≡ (
            record {
              metadata = some old;
              expires_at = (discover answer took now).2 +ℤ seconds 300;
            },
            ok old,
          )))
unfolding store_metadata
get_metadata-stale answer took now c old h k =
    let stored = get_metadata-stored answer took now c old h k in
    elim (Result-cases (discover answer took now).0) [
      | inl (m, p) ↦ inl (
        m,
        p,
        discover-IsFirst answer took now m p,
        stored ∙ ap (λ r. store_metadata (discover answer took now).2 r c) p,
      )
      | inr (e, p) ↦ inr (
        e,
        p,
        stored
            ∙ ap (λ r. store_metadata (discover answer took now).2 r c) p
            ∙ store_metadata-old (discover answer took now).2 e c old h,
      )
    ]
