-- ===== src/Server/Initiate.antt =====
-- The start of an authentication (main.go): `defaultInitiateAuthentication` and
-- `handleExpiredToken`.
use traefikoidc.Base.{Bool, true, false, Option, none, some, [], if◌then◌else◌}
use traefikoidc.Base.Int.{ℤ}
use traefikoidc.Base.Text.{Str, lit}
use traefikoidc.Error.{ok, fail}
use traefikoidc.Server.{Service, Outside, Request, State, Reply, redirect, http_error, set_world}
use traefikoidc.Session.{World, SessionData}
use traefikoidc.Session.Manager.{
  clear, save, set_csrf, set_nonce, set_code_verifier, set_incoming_path, set_authenticated,
  set_email,
}
use traefikoidc.Session.Token.{set_access_token, set_refresh_token}
use traefikoidc.Url.{build_auth_url}

-- the PKCE verifier: none is used, one is generated, or the generation fails
unfoldable pub code_verifier_for : Bool → Option Str → Option Str
code_verifier_for false generated = some []
code_verifier_for true generated = generated

-- what is stored in the cleared session
unfoldable pub store_attempt :
    (enable_pkce : Bool) → (csrf nonce code_verifier incoming : Str) → SessionData → World → World
store_attempt enable_pkce csrf nonce code_verifier incoming sd w =
    let w₁ = set_nonce nonce sd (set_csrf csrf sd w) in
    set_incoming_path incoming sd
      (if enable_pkce then set_code_verifier code_verifier sd w₁ else w₁)

-- `defaultInitiateAuthentication`
unfoldable pub initiate : Service → Outside → Request → SessionData → Str → State → State × Reply
initiate s o req sd redirect_url st = elim o.nonce [
  | none ↦ (st, http_error 500 (lit "Failed to generate nonce"))
  | some nonce ↦ elim (code_verifier_for s.middleware.enable_pkce o.verifier) [
    | none ↦ (st, http_error 500 (lit "Failed to generate code verifier"))
    | some code_verifier ↦
        let code_challenge = (if s.middleware.enable_pkce then o.challenge code_verifier else []) in
        let (w₁, sd', cleared) =
          clear o.store s.middleware.force_https req.url_scheme sd st.world in
        let w₂ =
          store_attempt s.middleware.enable_pkce o.uuid nonce code_verifier req.request_uri sd'
            w₁ in
        let (w₃, saved) = save o.store s.middleware.force_https req.url_scheme sd' w₂ in
        elim saved [
          | fail e ↦ (set_world w₃ st, http_error 500 (lit "Failed to save session"))
          | ok _ ↦ (
            set_world w₃ st,
            redirect (
                build_auth_url o.urls s.endpoints.issuer s.endpoints.auth_url s.middleware.client_id
                  s.middleware.scopes s.middleware.enable_pkce redirect_url o.uuid nonce
                  code_challenge),
          )
        ]
  ]
]

-- the part of `handleExpiredToken` that empties the session
unfoldable pub forget : Outside → ℤ → SessionData → World → World × SessionData
forget o now sd w =
    let (w₁, _) = set_authenticated now o.session_id false sd w in
    let (w₂, sd₂) = set_access_token o.codec o.store [] sd w₁ in
    let (w₃, sd₃) = set_refresh_token o.codec o.store [] sd₂ w₂ in (set_email [] sd₃ w₃, sd₃)

-- `handleExpiredToken`
unfoldable pub handle_expired_token :
    Service → Outside → ℤ → Request → SessionData → Str → State → State × Reply
handle_expired_token s o now req sd redirect_url st =
    let (w₁, sd') = forget o now sd st.world in
    let (w₂, saved) = save o.store s.middleware.force_https req.url_scheme sd' w₁ in
    initiate s o req sd' redirect_url (set_world w₂ st)
