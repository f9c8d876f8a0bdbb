-- ===== src/Server/Unchanged.antt =====
-- The handlers of main.go that leave the verifier's state as it is.
use traefikoidc.Base.{refl, ◌≡◌, arith, ◌⊎◌, inl, inr}
use traefikoidc.Base.Int.{ℤ}
use traefikoidc.Base.Text.{Str}
use traefikoidc.Server.{
  Wait, initialized, cancelled, timed_out, Service, Outside, Request, State, TokenResponse,
}
use traefikoidc.Server.Authorize.{process_authorized_request}
use traefikoidc.Server.Callback.{accept_login, finish_login}
use traefikoidc.Server.Initiate.{initiate, handle_expired_token}
use traefikoidc.Server.Refresh.{accept_tokens, store_tokens, drop_refresh_token}
use traefikoidc.Server.Serve.{serve_without_session, handle_logout}
use traefikoidc.Session.{SessionData}
use traefikoidc.Session.Manager.{get_session, Loaded-cases}

pub Wait-cases : (w : Wait) → (w ≡ cancelled) ⊎ (w ≡ timed_out) ⊎ (w ≡ initialized)
Wait-cases cancelled = inl refl
Wait-cases timed_out = inr (inl refl)
Wait-cases initialized = inr (inr refl)

module _ (s : Service) (o : Outside) where
  pub initiate-verifier :
      (req : Request) (sd : SessionData) (u : Str) (st : State)
      → (initiate s o req sd u st).0.verifier ≡ st.verifier
  unfolding initiate
  initiate-verifier req sd u st = ground arith

  pub expired-verifier :
      (now : ℤ) (req : Request) (sd : SessionData) (u : Str) (st : State)
      → (handle_expired_token s o now req sd u st).0.verifier ≡ st.verifier
  unfolding handle_expired_token
  expired-verifier now req sd u st = initiate-verifier req _ u _

  pub logout-verifier :
      (now : ℤ) (req : Request) (st : State)
      → (handle_logout s o now req st).0.verifier ≡ st.verifier
  unfolding handle_logout
  logout-verifier now req st = ground arith

  pub process-verifier :
      (req : Request) (sd : SessionData) (u : Str) (st : State)
      → (process_authorized_request s o req sd u st).0.verifier ≡ st.verifier
  unfolding process_authorized_request
  process-verifier req sd u st = ground (arith, initiate-verifier req sd u st)

  pub without_session-verifier :
      (now : ℤ) (req : Request) (u : Str) (st : State)
      → (serve_without_session s o now req u st).0.verifier ≡ st.verifier
  unfolding serve_without_session
  without_session-verifier now req u st =
      let l = get_session now o.store req.number o.pooled_again st.world in
      elim (Loaded-cases l.1) [
        | inl p ↦ ground (arith, p)
        | inr (inl (e, p)) ↦ ground (arith, p)
        | inr (inr (sd, p)) ↦ rw (serve_without_session, p) (initiate-verifier req _ u _)
      ]

  pub accept_login-verifier :
      (now : ℤ) (req : Request) (tokens : TokenResponse) (sd : SessionData) (st : State)
      → (accept_login s o now req tokens sd st).0.verifier ≡ st.verifier
  unfolding accept_login finish_login
  accept_login-verifier now req tokens sd st = ground arith

  pub accept_tokens-verifier :
      (now : ℤ) (req : Request) (tokens : TokenResponse) (initial : Str) (sd : SessionData)
      (st : State)
      → (accept_tokens s o now req tokens initial sd st).0.verifier ≡ st.verifier
  unfolding accept_tokens store_tokens
  accept_tokens-verifier now req tokens initial sd st = ground arith

  pub drop-verifier :
      (req : Request) (e : Str) (sd : SessionData) (st : State)
      → (drop_refresh_token s o req e sd st).0.verifier ≡ st.verifier
  unfolding drop_refresh_token
  drop-verifier req e sd st = ground arith
