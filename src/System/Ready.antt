-- ===== src/System/Ready.antt =====
-- The start of the middleware with a provider that answers (main.go).
use traefikoidc.Base.{
  ℕ, ◌<◌, ◌≡◌, ◌∙◌, refl, ap, Bool-cases, arith, inl, inr, false, none, if◌then◌else◌, [],
}
use traefikoidc.Base.Int.{ℤ, ◌≤ℤ◌}
use traefikoidc.Base.Text.{is_blank}
use traefikoidc.HttpClient.{create_default_http_client}
use traefikoidc.Error.{Result, ok}
use traefikoidc.Metadata.{ProviderMetadata, get_metadata, store_metadata, discover}
use traefikoidc.Metadata.Finds.{discover-finds}
use traefikoidc.Metadata.Laws.{AllFail}
use traefikoidc.Server.{Outside, Request, forward, initialized, set_world}
use traefikoidc.Server.Serve.{serve_http, serve_protected, bypasses}
use traefikoidc.Session.{World}
use traefikoidc.System.{System, ready, initialize_metadata, handle}

-- the system after an initialisation whose discovery finds the metadata
initialize_metadata-found :
    (answer : ℕ → Result ProviderMetadata) (took : ℕ → ℤ) (now later : ℤ) (m : ProviderMetadata)
    (s : System)
    → s.metadata.metadata ≡ none
    → (discover answer took later).0 ≡ ok m
    → initialize_metadata answer took now later s ≡ record s {
      metadata = (get_metadata answer took now later s.metadata).0;
      phase = ready;
      service = record s.service { endpoints = m };
    }
unfolding initialize_metadata get_metadata store_metadata
initialize_metadata-found answer took now later m s e found =
    let p : (get_metadata answer took now later s.metadata).1 ≡ ok m = ground (arith, e, found) in
    rw (initialize_metadata, p) refl

-- a request past the wait, with an issuer
handle-served :
    (o : Outside) (time : ℤ) (req : Request) (w : World) (s : System)
    → o.wait ≡ initialized
    → is_blank s.service.endpoints.issuer ≡ false
    → (handle o time req w s).1 ≡ (
        if bypasses s.service req
        then forward req.headers []
        else (serve_protected s.service o time req (set_world w s.state)).1)
unfolding handle serve_http
handle-served o time req w s h b = elim (Bool-cases (bypasses s.service req)) [
  | inl q ↦ ground (arith, h, b, q)
  | inr q ↦ ground (arith, h, b, q)
]

-- With no metadata in the cache, `initializeMetadata` makes the middleware ready with the answer of
-- attempt number `k` of the discovery, if the attempts before it fail, it is among the first five,
-- and none takes longer than the client's timeout of 15 seconds. Every request that has waited for
-- this is then served with these endpoints, where the issuer is not empty: it is let through if it
-- bypasses authentication, and goes on to its session otherwise.
pub initialize_metadata-ready :
    (answer : ℕ → Result ProviderMetadata) (took : ℕ → ℤ) (now later : ℤ) (k : ℕ)
    (m : ProviderMetadata) (s : System)
    → s.metadata.metadata ≡ none
    → ((n : ℕ) → took n ≤ℤ create_default_http_client.timeout)
    → k < 5
    → AllFail answer 0 k
    → answer k ≡ ok m
    → is_blank m.issuer ≡ false
    → let t = initialize_metadata answer took now later s in
      (t.phase ≡ ready)
      × ((o : Outside) (time : ℤ) (req : Request) (w : World)
          → o.wait ≡ initialized
          → (handle o time req w t).1 ≡ (
              if bypasses s.service req
              then forward req.headers []
              else (serve_protected
                  (record s.service { endpoints = m })
                  o
                  time
                  req
                  (set_world w s.state)).1))
unfolding bypasses serve_protected
initialize_metadata-ready answer took now later k m s e quick less f a b =
    let t =
      initialize_metadata-found answer took now later m s e
        (discover-finds answer took later k m quick less f a) in
    (
      ap (λ (x : System). x.phase) t,
      λ o time req w h.
          ap (λ (x : System). (handle o time req w x).1) t ∙ handle-served o time req w _ h b,
    )
