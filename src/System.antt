-- ===== src/System.antt =====
-- The middleware as a whole (main.go, autocleanup.go): its start, the goroutine that fetches the
-- metadata, the tickers, and the requests. Each of them runs for itself, so the system changes step
-- by step, in any order.
pub mod Steps
pub mod Genuine
pub mod Lifecycle
pub mod Ready
use traefikoidc.Base.{ℕ, Bool, true, false, Option, none, some, List, [], ◌∷◌, if◌then◌else◌}
use traefikoidc.Base.Int.{ℤ, pos}
use traefikoidc.Base.Map.{insert}
use traefikoidc.Base.Text.{Str}
use traefikoidc.Cache
use traefikoidc.Cache.{new_cache}
use traefikoidc.Error.{Result, ok, fail, ◌>>=◌}
use traefikoidc.Metadata.{ProviderMetadata, MetadataCache, get_metadata, cleanup_metadata}
use traefikoidc.Server.{Service, Outside, Request, State, Reply, set_world}
use traefikoidc.Server.Serve.{serve_http}
use traefikoidc.Session.{World}
use traefikoidc.Settings.{Config, TemplatedHeader, Middleware, new}
use traefikoidc.Verifier.{Verifier, revoke_token, token_cleanup}

-- where the goroutine of `initializeMetadata` is: it runs, it has returned with an error, or it has
-- closed `initComplete` and started the refresh
pub data Phase : Type 0 where
  starting gave_up ready : Phase

-- `TraefikOidc` with what it points to
pub record System : Type 0 where
  pub phase : Phase
  pub service : Service
  pub metadata : MetadataCache
  pub state : State

-- `NewMetadataCache`
abbrev pub new_metadata_cache : MetadataCache
new_metadata_cache = record { metadata = none; expires_at = pos 0 }

-- `NewTokenCache`, `NewCache` and an empty `JWKCache`
abbrev pub new_verifier : Verifier
new_verifier = record {
  token_cache = new_cache;
  blacklist = new_cache;
  jwk_cache = record { jwks = none; expires_at = pos 0; lifetime = pos 0 };
  replays = [];
}

abbrev pub no_endpoints : ProviderMetadata
no_endpoints = record {
  issuer = [];
  auth_url = [];
  token_url = [];
  jwks_url = [];
  revoke_url = [];
  end_session_url = [];
}

-- the loop of `New` over the headers; `parses` is `template.New(name).Parse(value)`
unfoldable pub parse_headers :
    (Str → Bool) → List TemplatedHeader → List (Str × Str) → List (Str × Str)
parse_headers parses [] m = m
parse_headers parses (header ∷ headers) m =
    parse_headers parses headers
      (if parses header.value then insert header.name header.value m else m)

-- what `New` sets up besides the fields of the configuration
abbrev pub new_system : (parses : Str → Bool) → Config → World → Middleware → System
new_system parses c w middleware = record {
  phase = starting;
  service = record {
    middleware = middleware;
    endpoints = no_endpoints;
    header_templates = parse_headers parses c.headers [];
  };
  metadata = new_metadata_cache;
  state = record { world = w; verifier = new_verifier };
}

-- `New` with all that it sets up, in the world of the sessions
unfoldable pub start : (yaegi : Bool) → (parses : Str → Bool) → Config → World → Result System
start yaegi parses c w = do middleware ← new yaegi c; ok (new_system parses c w middleware)

-- `updateMetadataEndpoints`
abbrev pub update_metadata_endpoints : ProviderMetadata → Service → Service
update_metadata_endpoints m s = record s { endpoints = m }

-- `initializeMetadata`; the arguments are those of `GetMetadata`
unfoldable pub initialize_metadata :
    (ℕ → Result ProviderMetadata) → (ℕ → ℤ) → (now later : ℤ) → System → System
initialize_metadata answer took now later s =
    let (cache, result) = get_metadata answer took now later s.metadata in
    elim result [
      | fail e ↦ record s { metadata = cache; phase = gave_up }
      | ok m ↦ record s {
        metadata = cache;
        phase = ready;
        service = update_metadata_endpoints m s.service;
      }
    ]

-- one round of the loop of `startMetadataRefresh`
unfoldable pub refresh_metadata :
    (ℕ → Result ProviderMetadata) → (ℕ → ℤ) → (now later : ℤ) → System → System
refresh_metadata answer took now later s =
    let (cache, result) = get_metadata answer took now later s.metadata in
    elim result [
      | fail e ↦ record s { metadata = cache }
      | ok m ↦ record s { metadata = cache; service = update_metadata_endpoints m s.service }
    ]

abbrev pub update_verifier : (Verifier → Verifier) → System → System
update_verifier f s = record s { state = record s.state { verifier = f s.state.verifier } }

-- a tick of the routine that each cache has started
unfoldable pub clean_token_cache : (ℤ → ℤ) → ℤ → System → System
clean_token_cache tenth now =
    update_verifier (λ v. record v { token_cache = Cache.cleanup tenth now v.token_cache })

unfoldable pub clean_blacklist : (ℤ → ℤ) → ℤ → System → System
clean_blacklist tenth now =
    update_verifier (λ v. record v { blacklist = Cache.cleanup tenth now v.blacklist })

unfoldable pub clean_metadata : ℤ → System → System
clean_metadata now s = record s { metadata = cleanup_metadata now s.metadata }

-- `ServeHTTP` for a request whose sessions are in this world
unfoldable pub handle : Outside → ℤ → Request → World → System → System × Reply
handle o now req w s =
    let (st, reply) = serve_http s.service o now req (set_world w s.state) in
    (record s { state = st }, reply)

-- What `autoCleanupRoutine` receives: a tick at an instant, or the signal to stop.
pub data Signal : Type 0 where
  tick : ℤ → Signal
  stop : Signal

-- `autoCleanupRoutine` on the signals in the order in which it receives them
unfoldable pub auto_cleanup_routine {ℓ} : {S : Type ℓ} → (cleanup : ℤ → S → S) → List Signal → S → S
auto_cleanup_routine cleanup [] s = s
auto_cleanup_routine cleanup (tick now ∷ signals) s =
    auto_cleanup_routine cleanup signals (cleanup now s)
auto_cleanup_routine cleanup (stop ∷ signals) s = s
