-- ===== src/System/Steps.antt =====
-- The runs of the middleware (main.go).
use traefikoidc.Base.{ℕ, ◌≡◌, arith}
use traefikoidc.Base.Int.{ℤ, pos, ◌≤ℤ◌}
use traefikoidc.Base.Text.{Str}
use traefikoidc.Error.{Result, ok}
use traefikoidc.Metadata.{ProviderMetadata}
use traefikoidc.Server.{set_world, Outside, Request, initialized}
use traefikoidc.Server.Preserved.{serve_http-kept}
use traefikoidc.Session.{World}
use traefikoidc.System.{
  System, starting, ready, initialize_metadata, refresh_metadata, clean_token_cache,
  clean_blacklist, clean_metadata, update_verifier, handle,
}
use traefikoidc.Verifier.{revoke_token, token_cleanup}
use traefikoidc.Verifier.Bounded.{
  AreBounded, verify_token-AreBounded, verify_jwt-AreBounded, revoke_token-AreBounded,
  token_cleanup-AreBounded, cleanup-IsBounded,
}

-- One step of the system. `Genuine` is what is known of the metadata that the provider answers with.
-- The initialisation runs once; the refresh only after it has succeeded; a request goes past the
-- wait only after that as well; everything else happens at any time.
pub data Step (tenth : ℤ → ℤ) (Genuine : ProviderMetadata → Type 0) : System → System → Type 0 where
  initialize :
      {s : System} (answer : ℕ → Result ProviderMetadata) (took : ℕ → ℤ) (now later : ℤ)
      → ((n : ℕ) (m : ProviderMetadata) → answer n ≡ ok m → Genuine m)
      → s.phase ≡ starting
      → Step tenth Genuine s (initialize_metadata answer took now later s)
  refresh :
      {s : System} (answer : ℕ → Result ProviderMetadata) (took : ℕ → ℤ) (now later : ℤ)
      → ((n : ℕ) (m : ProviderMetadata) → answer n ≡ ok m → Genuine m)
      → s.phase ≡ ready
      → Step tenth Genuine s (refresh_metadata answer took now later s)
  clean_tokens :
      {s : System} (now : ℤ) → Step tenth Genuine s (update_verifier (token_cleanup tenth now) s)
  clean_cache : {s : System} (now : ℤ) → Step tenth Genuine s (clean_token_cache tenth now s)
  clean_listed : {s : System} (now : ℤ) → Step tenth Genuine s (clean_blacklist tenth now s)
  clean_endpoints : {s : System} (now : ℤ) → Step tenth Genuine s (clean_metadata now s)
  revoke :
      {s : System} (now : ℤ) (token : Str)
      → Step tenth Genuine s (update_verifier (revoke_token now token) s)
  serve :
      {s : System} (o : Outside) (now : ℤ) (req : Request) (w : World)
      → (o.wait ≡ initialized → s.phase ≡ ready)
      → Step tenth Genuine s (handle o now req w s).0

-- any number of steps
pub data Steps (tenth : ℤ → ℤ) (Genuine : ProviderMetadata → Type 0)
    : System → System → Type 0 where
  done : {s : System} → Steps tenth Genuine s s
  more :
      {s t u : System} → Steps tenth Genuine s t → Step tenth Genuine t u → Steps tenth Genuine s u

module _ (tenth : ℤ → ℤ) (below : (d : ℤ) → pos 0 ≤ℤ d → tenth d ≤ℤ d)
    (Genuine : ProviderMetadata → Type 0) where
  initialize-state :
      (answer : ℕ → Result ProviderMetadata) (took : ℕ → ℤ) (now later : ℤ) (s : System)
      → (initialize_metadata answer took now later s).state ≡ s.state
  unfolding initialize_metadata
  initialize-state answer took now later s = ground arith

  refresh-state :
      (answer : ℕ → Result ProviderMetadata) (took : ℕ → ℤ) (now later : ℤ) (s : System)
      → (refresh_metadata answer took now later s).state ≡ s.state
  unfolding refresh_metadata
  refresh-state answer took now later s = ground arith

  pub Step-AreBounded :
      {s t : System}
      → Step tenth Genuine s t
      → AreBounded s.state.verifier
      → AreBounded t.state.verifier
  unfolding clean_token_cache clean_blacklist clean_metadata handle
  Step-AreBounded {s} (initialize answer took now later g h) b =
      rw (initialize-state answer took now later s) b
  Step-AreBounded {s} (refresh answer took now later g h) b =
      rw (refresh-state answer took now later s) b
  Step-AreBounded {s} (clean_tokens now) b =
      token_cleanup-AreBounded tenth below now s.state.verifier b
  Step-AreBounded (clean_cache now) b = record {
    tokens = cleanup-IsBounded tenth below now b.tokens;
    listed = b.listed;
  }
  Step-AreBounded (clean_listed now) b = record {
    tokens = b.tokens;
    listed = cleanup-IsBounded tenth below now b.listed;
  }
  Step-AreBounded (clean_endpoints now) b = b
  Step-AreBounded {s} (revoke now token) b =
      revoke_token-AreBounded tenth below now token s.state.verifier b
  Step-AreBounded {s} (serve o now req w h) b =
      serve_http-kept AreBounded (verify_token-AreBounded tenth below)
        (verify_jwt-AreBounded tenth below) s.service o now req (set_world w s.state) b

  pub Steps-AreBounded :
      {s t : System}
      → Steps tenth Genuine s t
      → AreBounded s.state.verifier
      → AreBounded t.state.verifier
  Steps-AreBounded done b = b
  Steps-AreBounded (more r step) b = Step-AreBounded step (Steps-AreBounded r b)
