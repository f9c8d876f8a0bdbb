-- ===== src/Server/Preserved.antt =====
-- What every request preserves of the verifier's state (main.go): a handler changes it by
-- `VerifyToken` and `VerifyJWTSignatureAndClaims` only.
use traefikoidc.Base.{subst, ◌&&◌, not, ◌≡◌, sym, Bool, inl, inr, Bool-cases}
use traefikoidc.Base.Int.{ℤ}
use traefikoidc.Base.Text.{Str, lit, str_eq, is_blank}
use traefikoidc.Error.{Result-cases, check-cases}
use traefikoidc.Jwt.{Jwt, parse_jwt}
use traefikoidc.Server.{
  accepts, Service, Outside, Request, State, TokenResponse, check_context, token_context,
}
use traefikoidc.Server.Callback.{Step-cases, handle_callback, redeem_code, check_callback}
use traefikoidc.Server.Exchange.{get_new_token, exchange_code}
use traefikoidc.Server.Refresh.{
  is_user_authenticated, check_access_token, refresh_token, use_tokens,
}
use traefikoidc.Server.Serve.{
  serve_http, serve_protected, serve_routes, serve_session, serve_unsettled, bypasses,
}
use traefikoidc.Session.{SessionData}
use traefikoidc.Session.Manager.{
  get_session, Loaded-cases, get_csrf, get_code_verifier, get_authenticated,
}
use traefikoidc.Session.Token.{get_access_token, get_refresh_token}
use traefikoidc.Verifier.{Verifier, Context, verify_jwt, verify_token}
use traefikoidc.Server.Unchanged.{
  Wait-cases, initiate-verifier, expired-verifier, logout-verifier, process-verifier,
  without_session-verifier, accept_login-verifier, accept_tokens-verifier, drop-verifier,
}

-- A property of the verifier's state that both verifications preserve is preserved by every request.
module _ (P : Verifier → Type 0)
    (verifies : (x : Context) (now : ℤ) (token : Str) (v : Verifier)
      → P v
      → P (verify_token x now token v).0)
    (checks : (x : Context) (now : ℤ) (jwt : Jwt) (token : Str) (v : Verifier)
      → P v
      → P (verify_jwt x now jwt token v).0)
    (s : Service) (o : Outside) where
  kept : {u v : Verifier} → u ≡ v → P v → P u
  kept e h = subst P (sym e) h

  authenticated-kept :
      (now : ℤ) (sd : SessionData) (st : State)
      → P st.verifier
      → P (is_user_authenticated s o now sd st).0.verifier
  unfolding is_user_authenticated check_access_token
  authenticated-kept now sd st h =
      let token = get_access_token o.codec sd st.world in
      elim (Bool-cases (get_authenticated now sd st.world)) [
        | inr p ↦ rw (is_user_authenticated, p) h
        | inl p ↦ elim (Bool-cases (is_blank token)) [
          | inl q ↦ rw (is_user_authenticated, p, q) h
          | inr q ↦ elim (Result-cases (parse_jwt o.platform token)) [
            | inr (e, r) ↦ rw (is_user_authenticated, p, q, check_access_token, r) h
            | inl (jwt, r) ↦
                let h' = checks (check_context s o) now jwt token st.verifier h in
                elim (check-cases (verify_jwt (check_context s o) now jwt token st.verifier).1) [
                  | inl t ↦ rw (is_user_authenticated, p, q, check_access_token, r, t) h'
                  | inr (e, t) ↦ rw (is_user_authenticated, p, q, check_access_token, r, t) h'
                ]
          ]
        ]
      ]

  use_tokens-kept :
      (now : ℤ) (req : Request) (tokens : TokenResponse) (initial : Str) (sd : SessionData)
      (st : State)
      → P st.verifier
      → P (use_tokens s o now req tokens initial sd st).0.verifier
  unfolding use_tokens
  use_tokens-kept now req tokens initial sd st h =
      let h' = verifies (token_context s o) now tokens.id_token st.verifier h in
      elim (Bool-cases (is_blank tokens.id_token)) [
        | inl p ↦ rw (use_tokens, p) h
        | inr p ↦
            elim (check-cases
              (verify_token (token_context s o) now tokens.id_token st.verifier).1) [
                | inl q ↦
                    rw (use_tokens, p, q)
                      (kept (accept_tokens-verifier s o now req tokens initial sd _) h')
                | inr (e, q) ↦ rw (use_tokens, p, q) h'
              ]
      ]

  refresh-kept :
      (now : ℤ) (req : Request) (sd : SessionData) (st : State)
      → P st.verifier
      → P (refresh_token s o now req sd st).0.verifier
  unfolding refresh_token
  refresh-kept now req sd st h =
      let initial = get_refresh_token o.codec sd st.world in
      elim (Bool-cases (is_blank initial)) [
        | inl p ↦ rw (refresh_token, p) h
        | inr p ↦ elim (Result-cases (get_new_token s o initial)) [
          | inl (tokens, q) ↦
              rw (refresh_token, p, q) (use_tokens-kept now req tokens initial sd _ h)
          | inr (e, q) ↦ rw (refresh_token, p, q) (kept (drop-verifier s o req e sd _) h)
        ]
      ]

  redeem-kept :
      (now : ℤ) (req : Request) (u code : Str) (sd : SessionData) (st : State)
      → P st.verifier
      → P (redeem_code s o now req u code sd st).0.verifier
  unfolding redeem_code
  redeem-kept now req u code sd st h =
      elim (Result-cases (exchange_code s o code u (get_code_verifier sd st.world))) [
        | inr (e, p) ↦ rw (redeem_code, p) h
        | inl (tokens, p) ↦
            let h' = verifies (token_context s o) now tokens.id_token st.verifier h in
            elim (check-cases
              (verify_token (token_context s o) now tokens.id_token st.verifier).1) [
                | inl q ↦
                    rw (redeem_code, p, q) (kept (accept_login-verifier s o now req tokens sd _) h')
                | inr (e, q) ↦ rw (redeem_code, p, q) h'
              ]
      ]

  callback-kept :
      (now : ℤ) (req : Request) (u : Str) (st : State)
      → P st.verifier
      → P (handle_callback s o now req u st).0.verifier
  unfolding handle_callback
  callback-kept now req u st h =
      let (w, session) = get_session now o.store req.number o.pooled_again st.world in
      elim (Loaded-cases session) [
        | inl p ↦ rw (handle_callback, p) h
        | inr (inl (e, p)) ↦ rw (handle_callback, p) h
        | inr (inr (sd, p)) ↦ elim (Step-cases (check_callback req (get_csrf sd w))) [
          | inl (code, q) ↦ rw (handle_callback, p, q) (redeem-kept now req u code sd _ h)
          | inr (reply, q) ↦ rw (handle_callback, p, q) h
        ]
      ]

  unsettled-kept :
      (now : ℤ) (req : Request) (u : Str) (needs : Bool) (sd : SessionData) (st : State)
      → P st.verifier
      → P (serve_unsettled s o now req u needs sd st).0.verifier
  unfolding serve_unsettled
  unsettled-kept now req u needs sd st h =
      let r = refresh_token s o now req sd st in
      let h' = refresh-kept now req sd st h in
      elim (Bool-cases (needs && not (is_blank (get_refresh_token o.codec sd st.world)))) [
        | inr p ↦ rw (serve_unsettled, p) (kept (initiate-verifier s o req sd u st) h)
        | inl p ↦ elim (Bool-cases r.2) [
          | inl q ↦ rw (serve_unsettled, p, q) (kept (process-verifier s o req r.1 u r.0) h')
          | inr q ↦ elim (Bool-cases (accepts (lit "application/json") req)) [
            | inl t ↦ rw (serve_unsettled, p, q, t) h'
            | inr t ↦ rw (serve_unsettled, p, q, t) (kept (initiate-verifier s o req r.1 u r.0) h')
          ]
        ]
      ]

  session-kept :
      (now : ℤ) (req : Request) (u : Str) (sd : SessionData) (st : State)
      → P st.verifier
      → P (serve_session s o now req u sd st).0.verifier
  unfolding serve_session
  session-kept now req u sd st h =
      let (st', status) = is_user_authenticated s o now sd st in
      let h' = authenticated-kept now sd st h in
      elim (Bool-cases status.expired) [
        | inl p ↦ rw (serve_session, p) (kept (expired-verifier s o now req sd u st') h')
        | inr p ↦ elim (Bool-cases (status.authenticated && not status.needs_refresh)) [
          | inl q ↦ rw (serve_session, p, q) (kept (process-verifier s o req sd u st') h')
          | inr q ↦
              rw (serve_session, p, q) (unsettled-kept now req u status.needs_refresh sd st' h')
        ]
      ]

  routes-kept :
      (now : ℤ) (req : Request) (u : Str) (sd : SessionData) (st : State)
      → P st.verifier
      → P (serve_routes s o now req u sd st).0.verifier
  unfolding serve_routes
  routes-kept now req u sd st h = elim (Bool-cases (str_eq req.path s.middleware.logout_url_path)) [
    | inl p ↦ rw (serve_routes, p) (kept (logout-verifier s o now req st) h)
    | inr p ↦ elim (Bool-cases (str_eq req.path s.middleware.redir_url_path)) [
      | inl q ↦ rw (serve_routes, p, q) (callback-kept now req u st h)
      | inr q ↦ rw (serve_routes, p, q) (session-kept now req u sd st h)
    ]
  ]

  protected-kept :
      (now : ℤ) (req : Request) (st : State)
      → P st.verifier
      → P (serve_protected s o now req st).0.verifier
  unfolding serve_protected
  protected-kept now req st h =
      let (w, session) = get_session now o.store req.number o.pooled st.world in
      elim (Loaded-cases session) [
        | inl p ↦ rw (serve_protected, p) h
        | inr (inl (e, p)) ↦
            rw (serve_protected, p) (kept (without_session-verifier s o now req _ _) h)
        | inr (inr (sd, p)) ↦ rw (serve_protected, p) (routes-kept now req _ sd _ h)
      ]

  pub serve_http-kept :
      (now : ℤ) (req : Request) (st : State)
      → P st.verifier
      → P (serve_http s o now req st).0.verifier
  unfolding serve_http
  serve_http-kept now req st h = elim (Wait-cases o.wait) [
    | inl p ↦ rw (serve_http, p) h
    | inr (inl p) ↦ rw (serve_http, p) h
    | inr (inr p) ↦ elim (Bool-cases (is_blank s.endpoints.issuer)) [
      | inl q ↦ rw (serve_http, p, q) h
      | inr q ↦ elim (Bool-cases (bypasses s req)) [
        | inl t ↦ rw (serve_http, p, q, t) h
        | inr t ↦ rw (serve_http, p, q, t) (protected-kept now req st h)
      ]
    ]
  ]
