-- ===== src/Server/Closed.antt =====
-- The handlers that never let a request through (main.go, helpers.go).
use traefikoidc.Base.{◌≡◌, Bool, true, false, arith}
use traefikoidc.Base.Int.{ℤ}
use traefikoidc.Base.Text.{Str}
use traefikoidc.Platform.{Claims}
use traefikoidc.Server.{
  Service, Outside, Request, State, Reply, forward, TokenResponse, send_error_response,
}
use traefikoidc.Server.Callback.{
  Step, next, stop, handle_callback, check_callback, redeem_code, accept_login, check_claims,
  finish_login,
}
use traefikoidc.Server.Initiate.{initiate, handle_expired_token}
use traefikoidc.Server.Serve.{serve_without_session, handle_logout, logout_reply}
use traefikoidc.Session.{SessionData}

abbrev pub is_forward : Reply → Bool
is_forward (forward request response) = true
is_forward _ = false

abbrev stops_forward {ℓ} : {A : Type ℓ} → Step A → Bool
stops_forward (next a) = false
stops_forward (stop reply) = is_forward reply

check_callback-not_forward :
    (req : Request) (csrf : Str) → stops_forward (check_callback req csrf) ≡ false
unfolding check_callback send_error_response
check_callback-not_forward req csrf = ground arith

module _ (s : Service) (o : Outside) where
  pub initiate-not_forward :
      (req : Request) (sd : SessionData) (u : Str) (st : State)
      → is_forward (initiate s o req sd u st).1 ≡ false
  unfolding initiate
  initiate-not_forward req sd u st = ground arith

  pub expired-not_forward :
      (now : ℤ) (req : Request) (sd : SessionData) (u : Str) (st : State)
      → is_forward (handle_expired_token s o now req sd u st).1 ≡ false
  unfolding handle_expired_token
  expired-not_forward now req sd u st = initiate-not_forward req _ u _

  pub logout-not_forward :
      (now : ℤ) (req : Request) (st : State) → is_forward (handle_logout s o now req st).1 ≡ false
  unfolding handle_logout logout_reply
  logout-not_forward now req st = ground arith

  finish-not_forward :
      (now : ℤ) (req : Request) (tokens : TokenResponse) (email : Str) (sd : SessionData)
      (st : State)
      → is_forward (finish_login s o now req tokens email sd st).1 ≡ false
  unfolding finish_login
  finish-not_forward now req tokens email sd st = ground arith

  check_claims-not_forward :
      (req : Request) (nonce : Str) (claims : Claims)
      → stops_forward (check_claims s req nonce claims) ≡ false
  unfolding check_claims send_error_response
  check_claims-not_forward req nonce claims = ground arith

  accept-not_forward :
      (now : ℤ) (req : Request) (tokens : TokenResponse) (sd : SessionData) (st : State)
      → is_forward (accept_login s o now req tokens sd st).1 ≡ false
  unfolding accept_login send_error_response
  accept-not_forward now req tokens sd st =
      grind (arith, check_claims-not_forward, finish-not_forward)

  redeem-not_forward :
      (now : ℤ) (req : Request) (u code : Str) (sd : SessionData) (st : State)
      → is_forward (redeem_code s o now req u code sd st).1 ≡ false
  unfolding redeem_code send_error_response
  redeem-not_forward now req u code sd st = grind (arith, accept-not_forward)

  pub callback-not_forward :
      (now : ℤ) (req : Request) (u : Str) (st : State)
      → is_forward (handle_callback s o now req u st).1 ≡ false
  unfolding handle_callback
  callback-not_forward now req u st = grind (arith, redeem-not_forward, check_callback-not_forward)

  pub without_session-not_forward :
      (now : ℤ) (req : Request) (u : Str) (st : State)
      → is_forward (serve_without_session s o now req u st).1 ≡ false
  unfolding serve_without_session
  without_session-not_forward now req u st = grind (arith, initiate-not_forward)
