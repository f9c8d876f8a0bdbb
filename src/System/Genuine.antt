-- ===== src/System/Genuine.antt =====
-- Where the endpoints of the middleware come from (main.go, metadata_cache.go).
use traefikoidc.Base.{
  ℕ, ◌+◌, ◌≡◌, arith, inl, inr, some, Option-cases, Bool-cases, ◌∙◌, ap, sym, is_some, ◌&&◌,
}
use traefikoidc.Base.Int.{ℤ, after}
use traefikoidc.Base.Text.{Str}
use traefikoidc.Error.{ok_of, Result, ok, fail, Result-cases}
use traefikoidc.Metadata.{
  ProviderMetadata, MetadataCache, get_metadata, store_metadata, discover, cleanup_metadata, valid,
}
use traefikoidc.Metadata.Laws.{discover-IsFirst}
use traefikoidc.System.{
  System, ready, initialize_metadata, refresh_metadata, clean_metadata, clean_token_cache,
  clean_blacklist, handle,
}
use traefikoidc.System.Steps.{
  Step, Steps, initialize, refresh, clean_tokens, clean_cache, clean_listed, clean_endpoints,
  revoke, serve, done, more,
}

store_metadata-kept :
    (now : ℤ) (e : Str) (c : MetadataCache)
    → (store_metadata now (fail e) c).0.metadata ≡ c.metadata
unfolding store_metadata
store_metadata-kept now e c = ground arith

store_metadata-old :
    (now : ℤ) (e : Str) (c : MetadataCache) (m : ProviderMetadata)
    → (store_metadata now (fail e) c).1 ≡ ok m
    → c.metadata ≡ some m
unfolding store_metadata
store_metadata-old now e c m h = elim (Option-cases c.metadata) [
  | inl p ↦ absurd (ground (arith, p, h))
  | inr (k, p) ↦ ground (arith, p, h)
]

valid-some :
    (now : ℤ) (c : MetadataCache) (m : ProviderMetadata)
    → valid now c ≡ some m
    → c.metadata ≡ some m
valid-some now c m h = elim (Option-cases c.metadata) [
  | inl p ↦ absurd (ground (arith, p, h))
  | inr (k, p) ↦ ground (arith, p, h)
]

module _ (Genuine : ProviderMetadata → Type 0) where
  -- the cache holds nothing else
  abbrev pub Holds : MetadataCache → Type 0
  Holds c = (m : ProviderMetadata) → c.metadata ≡ some m → Genuine m

  abbrev pub AllGenuine : (ℕ → Result ProviderMetadata) → Type 0
  AllGenuine answer = (n : ℕ) (m : ProviderMetadata) → answer n ≡ ok m → Genuine m

  store_metadata-Genuine :
      (now : ℤ) (result : Result ProviderMetadata) (c : MetadataCache)
      → Holds c
      → ((m : ProviderMetadata) → result ≡ ok m → Genuine m)
      → Holds (store_metadata now result c).0
        × ((m : ProviderMetadata) → (store_metadata now result c).1 ≡ ok m → Genuine m)
  unfolding store_metadata
  store_metadata-Genuine now (ok m) c h g = (λ k e. g k (ground (arith, e)), λ k e. g k e)
  store_metadata-Genuine now (fail e) c h g = (
    λ k q. h k (sym (store_metadata-kept now e c) ∙ q),
    λ k q. h k (store_metadata-old now e c k q),
  )

  discover-Genuine :
      (answer : ℕ → Result ProviderMetadata) (took : ℕ → ℤ) (now : ℤ) (m : ProviderMetadata)
      → AllGenuine answer
      → (discover answer took now).0 ≡ ok m
      → Genuine m
  discover-Genuine answer took now m g h =
      let (k, less, found, failed) = discover-IsFirst answer took now m h in g (0 + k) m found

  get_metadata-Genuine :
      (answer : ℕ → Result ProviderMetadata) (took : ℕ → ℤ) (now later : ℤ) (c : MetadataCache)
      → AllGenuine answer
      → Holds c
      → Holds (get_metadata answer took now later c).0
        × ((m : ProviderMetadata) → (get_metadata answer took now later c).1 ≡ ok m → Genuine m)
  unfolding get_metadata
  get_metadata-Genuine answer took now later c g h = elim (Option-cases (valid now c)) [
    | inr (m, p) ↦ rw (get_metadata, p) (h, λ k q. h k (valid-some now c m p ∙ ap some (ok_of q)))
    | inl p ↦ elim (Option-cases (valid later c)) [
      | inr (m, q) ↦
          rw (get_metadata, p, q) (h, λ k r. h k (valid-some later c m q ∙ ap some (ok_of r)))
      | inl q ↦
          rw (get_metadata, p, q)
            (store_metadata-Genuine (discover answer took later).2 (discover answer took later).0 c
              h (λ m r. discover-Genuine answer took later m g r))
    ]
  ]

  -- The endpoints of a system that is ready are genuine, and so is what its cache holds.
  pub record IsGenuine (s : System) : Type 0 where
    pub cache : Holds s.metadata
    pub endpoints : s.phase ≡ ready → Genuine s.service.endpoints

  initialize-IsGenuine :
      (answer : ℕ → Result ProviderMetadata) (took : ℕ → ℤ) (now later : ℤ) (s : System)
      → AllGenuine answer
      → IsGenuine s
      → IsGenuine (initialize_metadata answer took now later s)
  unfolding initialize_metadata
  initialize-IsGenuine answer took now later s g h =
      let (c, r) = get_metadata-Genuine answer took now later s.metadata g h.cache in
      elim (Result-cases (get_metadata answer took now later s.metadata).1) [
        | inl (m, p) ↦ rw (initialize_metadata, p) (record { cache = c; endpoints = λ q. r m p })
        | inr (e, p) ↦
            rw (initialize_metadata, p)
              (record { cache = c; endpoints = λ q. absurd (ground (arith, q)) })
      ]

  refresh-IsGenuine :
      (answer : ℕ → Result ProviderMetadata) (took : ℕ → ℤ) (now later : ℤ) (s : System)
      → AllGenuine answer
      → IsGenuine s
      → IsGenuine (refresh_metadata answer took now later s)
  unfolding refresh_metadata
  refresh-IsGenuine answer took now later s g h =
      let (c, r) = get_metadata-Genuine answer took now later s.metadata g h.cache in
      elim (Result-cases (get_metadata answer took now later s.metadata).1) [
        | inl (m, p) ↦ rw (refresh_metadata, p) (record { cache = c; endpoints = λ q. r m p })
        | inr (e, p) ↦ rw (refresh_metadata, p) (record { cache = c; endpoints = h.endpoints })
      ]

  cleanup-Holds : (now : ℤ) (c : MetadataCache) → Holds c → Holds (cleanup_metadata now c)
  unfolding cleanup_metadata
  cleanup-Holds now c h = elim (Bool-cases (is_some c.metadata && after now c.expires_at)) [
    | inl p ↦ rw (cleanup_metadata, p) (λ m q. absurd (ground (arith, q)))
    | inr p ↦ rw (cleanup_metadata, p) h
  ]

  Step-IsGenuine :
      {tenth : ℤ → ℤ} {s t : System} → Step tenth Genuine s t → IsGenuine s → IsGenuine t
  unfolding clean_token_cache clean_blacklist clean_metadata handle
  Step-IsGenuine {s = s} (initialize answer took now later g p) h =
      initialize-IsGenuine answer took now later s g h
  Step-IsGenuine {s = s} (refresh answer took now later g p) h =
      refresh-IsGenuine answer took now later s g h
  Step-IsGenuine (clean_tokens now) h = record { cache = h.cache; endpoints = h.endpoints }
  Step-IsGenuine (clean_cache now) h = record { cache = h.cache; endpoints = h.endpoints }
  Step-IsGenuine (clean_listed now) h = record { cache = h.cache; endpoints = h.endpoints }
  Step-IsGenuine {s = s} (clean_endpoints now) h = record {
    cache = cleanup-Holds now s.metadata h.cache;
    endpoints = h.endpoints;
  }
  Step-IsGenuine (revoke now token) h = record { cache = h.cache; endpoints = h.endpoints }
  Step-IsGenuine (serve o now req w p) h = record { cache = h.cache; endpoints = h.endpoints }

  pub Steps-IsGenuine :
      {tenth : ℤ → ℤ} {s t : System} → Steps tenth Genuine s t → IsGenuine s → IsGenuine t
  Steps-IsGenuine done h = h
  Steps-IsGenuine (more r step) h = Step-IsGenuine step (Steps-IsGenuine r h)
