-- ===== src/System/Lifecycle.antt =====
-- What holds of every run of the middleware from its start (main.go, cache.go, metadata_cache.go).
use traefikoidc.Base.{
  ◌≤◌, ◌≡◌, ◌==◌, ◌||◌, refl, arith, inl, inr, Bool, true, false, length, ◌∙◌, sym, subst,
}
use traefikoidc.Base.Int.{ℤ, pos, ◌≤ℤ◌}
use traefikoidc.Base.Text.{Str}
use traefikoidc.Error.{ok, Result-cases, ok_of}
use traefikoidc.Metadata.{ProviderMetadata, discover, get_metadata, store_metadata}
use traefikoidc.Metadata.Laws.{AllFail, discover-IsFirst}
use traefikoidc.Base.{ℕ, zero, suc, ◌+◌, ◌<◌, ap, none}
use traefikoidc.Error.{Result}
use traefikoidc.System.{initialize_metadata}
use traefikoidc.Server.{Outside, Request, Reply, initialized, http_error}
use traefikoidc.Server.Unchanged.{Wait-cases}
use traefikoidc.Server.Serve.{serve_http}
use traefikoidc.Session.{World}
use traefikoidc.Settings.{Config, Middleware, new}
use traefikoidc.System.{
  System, gave_up, ready, start, new_system, clean_token_cache, clean_blacklist, clean_metadata,
  handle,
}
use traefikoidc.System.Genuine.{IsGenuine, Steps-IsGenuine}
use traefikoidc.System.Steps.{
  Step, Steps, initialize, refresh, clean_tokens, clean_cache, clean_listed, clean_endpoints,
  revoke, serve, done, more, Steps-AreBounded,
}
use traefikoidc.Verifier.Bounded.{AreBounded, new_cache-IsBounded, IsBounded-length}

start-new_system :
    (yaegi : Bool) (parses : Str → Bool) (c : Config) (w : World) (s : System)
    → start yaegi parses c w ≡ ok s
    → (m : Middleware) × (new_system parses c w m ≡ s)
unfolding start
start-new_system yaegi parses c w s h = elim (Result-cases (new yaegi c)) [
  | inl (m, p) ↦
      let q : start yaegi parses c w ≡ ok (new_system parses c w m) = rw (start, p) refl in
      (m, ok_of (sym q ∙ h))
  | inr (e, p) ↦ absurd (ground (arith, h, p))
]

-- However the requests, the revocations, the ticks and the refreshes follow each other after the
-- start, the token cache and the blacklist never hold more than 500 items each, where the product
-- with 0.1 does not exceed a duration that is not negative.
pub Steps-size :
    (tenth : ℤ → ℤ) (Genuine : ProviderMetadata → Type 0) (yaegi : Bool) (parses : Str → Bool)
    (c : Config) (w : World) (s t : System)
    → ((d : ℤ) → pos 0 ≤ℤ d → tenth d ≤ℤ d)
    → start yaegi parses c w ≡ ok s
    → Steps tenth Genuine s t
    → (length t.state.verifier.token_cache.items ≤ 500)
      × (length t.state.verifier.blacklist.items ≤ 500)
Steps-size tenth Genuine yaegi parses c w s t below h r =
    let (m, e) = start-new_system yaegi parses c w s h in
    let b = Steps-AreBounded tenth below Genuine r (
      subst (λ (x : System). AreBounded x.state.verifier) e
        (record { tokens = new_cache-IsBounded; listed = new_cache-IsBounded })) in
    (IsBounded-length b.tokens, IsBounded-length b.listed)

-- A system that is ready has endpoints of which everything holds that holds of all metadata that
-- the provider has answered with, whatever steps have led there from the start.
pub Steps-ready :
    (tenth : ℤ → ℤ) (Genuine : ProviderMetadata → Type 0) (yaegi : Bool) (parses : Str → Bool)
    (c : Config) (w : World) (s t : System)
    → start yaegi parses c w ≡ ok s
    → Steps tenth Genuine s t
    → t.phase ≡ ready
    → Genuine t.service.endpoints
Steps-ready tenth Genuine yaegi parses c w s t h r p =
    let (m, e) = start-new_system yaegi parses c w s h in
    let g = Steps-IsGenuine Genuine r (
      subst (λ x. IsGenuine Genuine x) e
        (record {
          cache = λ k q. absurd (ground (arith, q));
          endpoints = λ q. absurd (ground (arith, q));
        })) in
    g.endpoints p

-- a reply that says that the middleware is not available, or that the client has gone
abbrev pub is_unavailable : Reply → Bool
is_unavailable (http_error code text) = code == 503 || code == 408
is_unavailable _ = false

Step-gave_up :
    {tenth : ℤ → ℤ} {Genuine : ProviderMetadata → Type 0} {s t : System}
    → Step tenth Genuine s t
    → s.phase ≡ gave_up
    → t.phase ≡ gave_up
unfolding clean_token_cache clean_blacklist clean_metadata handle
Step-gave_up (initialize answer took now later g p) h = absurd (ground (arith, h, p))
Step-gave_up (refresh answer took now later g p) h = absurd (ground (arith, h, p))
Step-gave_up (clean_tokens now) h = h
Step-gave_up (clean_cache now) h = h
Step-gave_up (clean_listed now) h = h
Step-gave_up (clean_endpoints now) h = h
Step-gave_up (revoke now token) h = h
Step-gave_up (serve o now req w p) h = h

Steps-phase :
    {tenth : ℤ → ℤ} {Genuine : ProviderMetadata → Type 0} {s t : System}
    → Steps tenth Genuine s t
    → s.phase ≡ gave_up
    → t.phase ≡ gave_up
Steps-phase done h = h
Steps-phase (more r step) h = Step-gave_up step (Steps-phase r h)

AllFail-at :
    (answer : ℕ → Result ProviderMetadata) (lo n k : ℕ) (m : ProviderMetadata)
    → AllFail answer lo n
    → k < n
    → ¬ (answer (lo + k) ≡ ok m)
AllFail-at answer lo zero k m f l h = absurd (omega arith)
AllFail-at answer lo (suc n) zero m (failed, f) l h =
    let e : lo + 0 ≡ lo = omega arith in absurd (ground (arith, sym (ap answer e) ∙ h, failed.1))
AllFail-at answer lo (suc n) (suc k) m (failed, f) l h =
    let e : lo + suc k ≡ lo + 1 + k = omega arith in
    AllFail-at answer (lo + 1) n k m f (omega arith) (sym (ap answer e) ∙ h)

-- an initialisation with an empty cache whose five attempts fail
initialize_metadata-gave_up :
    (answer : ℕ → Result ProviderMetadata) (took : ℕ → ℤ) (now later : ℤ) (s : System)
    → s.metadata.metadata ≡ none
    → AllFail answer 0 5
    → (initialize_metadata answer took now later s).phase ≡ gave_up
unfolding initialize_metadata get_metadata store_metadata
initialize_metadata-gave_up answer took now later s e f =
    elim (Result-cases (discover answer took later).0) [
      | inl (m, p) ↦
          let (k, less, found, _) = discover-IsFirst answer took later m p in
          absurd (AllFail-at answer 0 5 k m f (omega (arith, less)) found)
      | inr (x, p) ↦ ground (arith, e, p)
    ]

-- If all five attempts of the first discovery fail, with nothing in the metadata cache, then the
-- middleware stays unavailable: whatever steps follow the initialisation, it has given up, and
-- whatever request comes, which cannot go past the wait, is answered with status 503 or 408.
pub Steps-gave_up :
    (tenth : ℤ → ℤ) (Genuine : ProviderMetadata → Type 0) (answer : ℕ → Result ProviderMetadata)
    (took : ℕ → ℤ) (now later : ℤ) (s t : System)
    → s.metadata.metadata ≡ none
    → AllFail answer 0 5
    → Steps tenth Genuine (initialize_metadata answer took now later s) t
    → (t.phase ≡ gave_up)
      × ((o : Outside) (time : ℤ) (req : Request) (w : World)
          → (o.wait ≡ initialized → t.phase ≡ ready)
          → is_unavailable (handle o time req w t).1 ≡ true)
unfolding handle serve_http
Steps-gave_up tenth Genuine answer took now later s t e f r =
    let p = Steps-phase r (initialize_metadata-gave_up answer took now later s e f) in
    (
      p,
      λ o time req w k. elim (Wait-cases o.wait) [
        | inl q ↦ ground (arith, q)
        | inr (inl q) ↦ ground (arith, q)
        | inr (inr q) ↦ absurd (ground (arith, k q, p))
      ],
    )
