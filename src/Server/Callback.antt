-- ===== src/Server/Callback.antt =====
-- `handleCallback` of main.go: the return from the provider. The checks are an error page or a
-- value, in the order of the source.
use traefikoidc.Base.{
  ◌≡◌, ◌⊎◌, refl, inl, inr, Bool, true, false, ◌&&◌, not, none, some, [], ◌++◌, ℕ, if◌then◌else◌,
}
use traefikoidc.Base.Int.{ℤ}
use traefikoidc.Base.Map.{lookup}
use traefikoidc.Base.Text.{Str, lit, str_eq, is_blank}
use traefikoidc.Error.{Result, ok, fail}
use traefikoidc.Jwt.{extract_claims}
use traefikoidc.Platform.{Claims, as_str}
use traefikoidc.Server.{
  Service, Outside, Request, State, Reply, TokenResponse, redirect, http_error, panic, get_header,
  send_error_response, is_allowed_domain, set_world, token_context,
}
use traefikoidc.Server.Exchange.{exchange_code}
use traefikoidc.Server.Refresh.{email_of}
use traefikoidc.Session.{World, SessionData}
use traefikoidc.Session.Manager.{
  get_session, loaded, refused, panicked, get_csrf, get_nonce, get_code_verifier, get_incoming_path,
  set_authenticated, set_email, set_csrf, set_nonce, set_code_verifier, set_incoming_path, save,
}
use traefikoidc.Session.Token.{set_access_token, set_refresh_token}
use traefikoidc.Verifier.{verify_token}

-- A step of the callback: it goes on with a value, or the request ends with a reply.
pub data Step {ℓ} (A : Type ℓ) : Type ℓ where
  next : A → Step A
  stop : Reply → Step A

pub Step-cases {ℓ} :
    {A : Type ℓ} (x : Step A) → ((a : A) × (x ≡ next a)) ⊎ ((r : Reply) × (x ≡ stop r))
Step-cases (next a) = inl (a, refl)
Step-cases (stop r) = inr (r, refl)

infixl 5 ◌>>=◌ ◌>>◌
abbrev pub ◌>>=◌ {ℓ κ} : {A : Type ℓ} {B : Type κ} → Step A → (A → Step B) → Step B
next a >>= f = f a
stop r >>= f = stop r

abbrev pub ◌>>◌ {ℓ} : {B : Type ℓ} → Step (Unit {0}) → Step B → Step B
m >> k = m >>= λ _. k

-- `if !b { t.sendErrorResponse(rw, req, text, code); return }`
abbrev pub require : Request → Bool → Str → ℕ → Step (Unit {0})
require req true text code = next tt
require req false text code = stop (send_error_response req text code)

abbrev pub parameter : Str → Request → Str
parameter name req = get_header name req.query

-- the checks before the exchange, with the authorization code that they let through
unfoldable pub check_callback : Request → (csrf : Str) → Step Str
check_callback req csrf =
    let error = parameter (lit "error") req in
    let description = parameter (lit "error_description") req in
    let state = parameter (lit "state") req in
    let code = parameter (lit "code") req in
    do
      require req (is_blank error)
          (lit "Authentication error from provider: "
            ++ (if is_blank description then error else description))
          400
      require req (not (is_blank state)) (lit "State parameter missing in callback") 400
      require req (not (is_blank csrf)) (lit "CSRF token missing in session") 400
      require req (str_eq state csrf) (lit "Invalid state parameter (CSRF mismatch)") 400
      require req (not (is_blank code)) (lit "No authorization code received in callback") 400
      next code

-- `claims["nonce"].(string)`, the empty string if it is none
abbrev pub nonce_of : Claims → Str
nonce_of claims = elim (as_str (lookup (lit "nonce") claims)) [ none ↦ [] | some n ↦ n ]

-- the checks of the claims of a verified ID token, with the email address that they let through
unfoldable pub check_claims : Service → Request → (session_nonce : Str) → Claims → Step Str
check_claims s req session_nonce claims = do
  require req (not (is_blank (nonce_of claims)))
      (lit "Authentication failed: Nonce missing in token") 500
  require req (not (is_blank session_nonce)) (lit "Authentication failed: Nonce missing in session")
      500
  require req (str_eq (nonce_of claims) session_nonce) (lit "Authentication failed: Nonce mismatch")
      500
  require req (not (is_blank (email_of claims)))
      (lit "Authentication failed: Email missing in token") 500
  require req (is_allowed_domain s.middleware.allowed_user_domains (email_of claims))
      (lit "Authentication failed: Email domain not allowed") 403
  next (email_of claims)

-- where the user goes after the login
unfoldable pub redirect_path : Service → Str → Str
redirect_path s incoming =
    if not (is_blank incoming) && not (str_eq incoming s.middleware.redir_url_path)
    then incoming
    else lit "/"

-- the update of the session after a successful login
unfoldable pub log_in :
    Outside
    → ℤ
    → TokenResponse
    → (email : Str) → SessionData
    → World
    → World × SessionData × Result (Unit {0})
log_in o now tokens email sd w =
    let (w₁, marked) = set_authenticated now o.session_id true sd w in
    let (w₂, sd₂) = set_access_token o.codec o.store tokens.id_token sd (set_email email sd w₁) in
    let (w₃, sd₃) = set_refresh_token o.codec o.store tokens.refresh_token sd₂ w₂ in
    elim marked [
      | fail e ↦ (w₁, sd, fail e)
      | ok _ ↦ (set_code_verifier [] sd₃ (set_nonce [] sd₃ (set_csrf [] sd₃ w₃)), sd₃, ok tt)
    ]

-- the end of the callback: the session is saved and the user sent on
unfoldable pub finish_login :
    Service
    → Outside
    → ℤ
    → Request
    → TokenResponse
    → (email : Str) → SessionData
    → State
    → State × Reply
finish_login s o now req tokens email sd st =
    let (w₁, sd', marked) = log_in o now tokens email sd st.world in
    let target = redirect_path s (get_incoming_path sd' w₁) in
    let (w₂, saved) =
      save o.store s.middleware.force_https req.url_scheme sd' (set_incoming_path [] sd' w₁) in
    elim marked [
      | fail e ↦ (set_world w₁ st, http_error 500 (lit "Failed to update session"))
      | ok _ ↦ elim saved [
        | fail e ↦ (set_world w₂ st, http_error 500 (lit "Failed to save session after callback"))
        | ok _ ↦ (set_world w₂ st, redirect target)
      ]
    ]

-- the callback with a verified ID token
unfoldable pub accept_login :
    Service → Outside → ℤ → Request → TokenResponse → SessionData → State → State × Reply
accept_login s o now req tokens sd st = elim (extract_claims o.platform tokens.id_token) [
  | fail e ↦ (
    st,
    send_error_response req (lit "Authentication failed: Could not extract claims from token") 500,
  )
  | ok claims ↦ elim (check_claims s req (get_nonce sd st.world) claims) [
    | stop reply ↦ (st, reply)
    | next email ↦ finish_login s o now req tokens email sd st
  ]
]

-- the callback with an authorization code
unfoldable pub redeem_code :
    Service → Outside → ℤ → Request → Str → (code : Str) → SessionData → State → State × Reply
redeem_code s o now req redirect_url code sd st =
    elim (exchange_code s o code redirect_url (get_code_verifier sd st.world)) [
      | fail e ↦ (
        st,
        send_error_response req (lit "Authentication failed: Could not exchange code for token")
            500,
      )
      | ok tokens ↦
          let (v, verified) = verify_token (token_context s o) now tokens.id_token st.verifier in
          let st' = record st { verifier = v } in
          elim verified [
            | fail e ↦ (
              st',
              send_error_response req (lit "Authentication failed: Could not verify ID token") 500,
            )
            | ok _ ↦ accept_login s o now req tokens sd st'
          ]
    ]

-- `handleCallback`
unfoldable pub handle_callback : Service → Outside → ℤ → Request → Str → State → State × Reply
handle_callback s o now req redirect_url st =
    let (w, session) = get_session now o.store req.number o.pooled_again st.world in
    let st' = set_world w st in
    elim session [
      | panicked ↦ (st', panic)
      | refused e ↦ (st', http_error 500 (lit "Session error during callback"))
      | loaded sd ↦ elim (check_callback req (get_csrf sd w)) [
        | stop reply ↦ (st', reply)
        | next code ↦ redeem_code s o now req redirect_url code sd st'
      ]
    ]
