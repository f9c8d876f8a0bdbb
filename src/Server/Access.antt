-- ===== src/Server/Access.antt =====
-- Access control of `ServeHTTP` (main.go): what holds of every request that reaches the next
-- handler.
use traefikoidc.Base.{
  any, subst, ◌≡◌, Bool, true, false, ◌&&◌, not, arith, ◌⊎◌, inl, inr, Bool-cases,
}
use traefikoidc.Base.Int.{ℤ}
use traefikoidc.Base.Text.{lit, has_prefix, contains, Str, str_eq, is_blank}
use traefikoidc.Error.{ok, Result-cases}
use traefikoidc.Jwt.{Jwt, parse_jwt}
use traefikoidc.Server.{
  get_header, Service, Outside, determine_scheme, determine_host, Request, State, is_allowed_domain,
  check_context, token_context, set_world, TokenResponse, send_error_response,
}
use traefikoidc.Server.Authorize.{
  process_authorized_request, authorize, extract_groups_and_roles, groups_or_none, is_allowed_role,
}
use traefikoidc.Server.Closed.{
  is_forward, initiate-not_forward, expired-not_forward, logout-not_forward, callback-not_forward,
  without_session-not_forward,
}
use traefikoidc.Server.Exchange.{get_new_token}
use traefikoidc.Server.Refresh.{
  is_user_authenticated, check_access_token, refresh_token, use_tokens, status_of_invalid,
}
use traefikoidc.Server.Serve.{
  serve_http, serve_protected, serve_routes, serve_session, serve_unsettled, bypasses,
}
use traefikoidc.Session.{SessionData}
use traefikoidc.Session.Manager.{get_session, loaded, get_email, get_authenticated, Loaded-cases}
use traefikoidc.Session.Token.{get_access_token, get_refresh_token}
use traefikoidc.Url.{determine_excluded_url, build_full_url}
use traefikoidc.Verifier.{Verifier, verify_jwt, verify_token}

module _ (s : Service) (o : Outside) where
  authorize-forward :
      (req : Request) (email access refresh : Str)
      → is_forward (authorize s o req email access refresh) ≡ true
      → is_allowed_role s.middleware.allowed_roles_and_groups
          (groups_or_none (extract_groups_and_roles o access)).0
          (groups_or_none (extract_groups_and_roles o access)).1
        ≡ true
  unfolding authorize send_error_response
  authorize-forward req email access refresh h = ground arith

  -- What is known of an authorized user: the session's email address, allowed by its domain, and
  -- an access token whose groups or roles are allowed.
  pub record IsPermitted (email access : Str) : Type 0 where
    pub known : is_blank email ≡ false
    pub domain : is_allowed_domain s.middleware.allowed_user_domains email ≡ true
    pub role :
        is_allowed_role s.middleware.allowed_roles_and_groups
          (groups_or_none (extract_groups_and_roles o access)).0
          (groups_or_none (extract_groups_and_roles o access)).1
        ≡ true

  process-IsPermitted :
      (req : Request) (sd : SessionData) (u : Str) (st : State)
      → is_forward (process_authorized_request s o req sd u st).1 ≡ true
      → IsPermitted (get_email sd st.world) (get_access_token o.codec sd st.world)
  unfolding process_authorized_request send_error_response
  process-IsPermitted req sd u st h = ground (
    arith,
    initiate-not_forward s o req sd u st,
    authorize-forward req (get_email sd st.world) (get_access_token o.codec sd st.world)
        (get_refresh_token o.codec sd st.world),
  )

  -- The session's flag is set and young, its token passes verification by signature and claims,
  -- and its user is permitted with this token.
  pub record IsAuthenticated (now : ℤ) (sd : SessionData) (st : State) : Type 0 where
    pub flag : get_authenticated now sd st.world ≡ true
    pub jwt : Jwt
    pub parsed : parse_jwt o.platform (get_access_token o.codec sd st.world) ≡ ok jwt
    pub verified :
        (verify_jwt
          (check_context s o)
          now
          jwt
          (get_access_token o.codec sd st.world)
          st.verifier).1
        ≡ ok tt
    pub permitted : IsPermitted (get_email sd st.world) (get_access_token o.codec sd st.world)

  -- The session's refresh token has been exchanged for a token that `VerifyToken` accepts, and the
  -- user of the refreshed session is permitted with the refreshed session's token.
  pub record IsRefreshed (now : ℤ) (req : Request) (sd : SessionData) (st : State) : Type 0 where
    pub held : is_blank (get_refresh_token o.codec sd st.world) ≡ false
    pub tokens : TokenResponse
    pub exchanged : get_new_token s o (get_refresh_token o.codec sd st.world) ≡ ok tokens
    pub verified : (verify_token (token_context s o) now tokens.id_token st.verifier).1 ≡ ok tt
    pub permitted :
        IsPermitted
          (get_email (refresh_token s o now req sd st).1 (refresh_token s o now req sd st).0.world)
          (get_access_token o.codec
            (refresh_token s o now req sd st).1
            (refresh_token s o now req sd st).0.world)

  -- What is known when a request with this session is let through: one of the two, the refresh in
  -- the state after the check of the session.
  abbrev pub IsGranted : ℤ → Request → SessionData → State → Type 0
  IsGranted now req sd st =
      IsAuthenticated now sd st ⊎ IsRefreshed now req sd (is_user_authenticated s o now sd st).0

  is_user_authenticated-world :
      (now : ℤ) (sd : SessionData) (st : State)
      → (is_user_authenticated s o now sd st).0.world ≡ st.world
  unfolding is_user_authenticated
  is_user_authenticated-world now sd st = ground arith

  check_access_token-authenticated :
      (now : ℤ) (token : Str) (has_refresh : Bool) (v : Verifier)
      → (check_access_token s o now token has_refresh v).1.authenticated ≡ true
      → (jwt : Jwt) × (parse_jwt o.platform token ≡ ok jwt)
        × ((verify_jwt (check_context s o) now jwt token v).1 ≡ ok tt)
  unfolding check_access_token status_of_invalid
  check_access_token-authenticated now token has_refresh v h =
      elim (Result-cases (parse_jwt o.platform token)) [
        | inr (e, p) ↦ absurd (ground arith)
        | inl (jwt, p) ↦ elim (Result-cases (verify_jwt (check_context s o) now jwt token v).1) [
          | inr (e, q) ↦ absurd (ground arith)
          | inl (u, q) ↦ (jwt, p, q)
        ]
      ]

  status-IsAuthenticated :
      (now : ℤ) (sd : SessionData) (st : State)
      → (is_user_authenticated s o now sd st).1.authenticated ≡ true
      → IsPermitted (get_email sd st.world) (get_access_token o.codec sd st.world)
      → IsAuthenticated now sd st
  unfolding is_user_authenticated
  status-IsAuthenticated now sd st h permitted =
      let (jwt, p, q) =
        check_access_token-authenticated now (get_access_token o.codec sd st.world)
          (not (is_blank (get_refresh_token o.codec sd st.world))) st.verifier (ground arith) in
      record { flag = ground arith; jwt = jwt; parsed = p; verified = q; permitted = permitted }

  use_tokens-verified :
      (now : ℤ) (req : Request) (tokens : TokenResponse) (initial : Str) (sd : SessionData)
      (st : State)
      → (use_tokens s o now req tokens initial sd st).2 ≡ true
      → (verify_token (token_context s o) now tokens.id_token st.verifier).1 ≡ ok tt
  unfolding use_tokens
  use_tokens-verified now req tokens initial sd st h =
      elim (Result-cases (verify_token (token_context s o) now tokens.id_token st.verifier).1) [
        | inl (u, p) ↦ p
        | inr (e, p) ↦ absurd (ground arith)
      ]

  refresh_token-IsRefreshed :
      (now : ℤ) (req : Request) (u : Str) (sd : SessionData) (st : State)
      → (refresh_token s o now req sd st).2 ≡ true
      → is_forward
          (process_authorized_request s o req
            (refresh_token s o now req sd st).1
            u
            (refresh_token s o now req sd st).0).1
        ≡ true
      → IsRefreshed now req sd st
  unfolding refresh_token
  refresh_token-IsRefreshed now req u sd st h k =
      let initial = get_refresh_token o.codec sd st.world in
      let permitted =
        process-IsPermitted req (refresh_token s o now req sd st).1 u
          (refresh_token s o now req sd st).0 k in
      elim (Result-cases (get_new_token s o initial)) [
        | inr (e, p) ↦ absurd (ground arith)
        | inl (tokens, p) ↦ record {
          held = ground arith;
          tokens = tokens;
          exchanged = p;
          verified =
              use_tokens-verified now req tokens initial sd
                (record st { world = o.interfere st.world }) (ground arith);
          permitted = permitted;
        }
      ]

  unsettled-IsRefreshed :
      (now : ℤ) (req : Request) (u : Str) (needs : Bool) (sd : SessionData) (st : State)
      → is_forward (serve_unsettled s o now req u needs sd st).1 ≡ true
      → IsRefreshed now req sd st
  unfolding serve_unsettled
  unsettled-IsRefreshed now req u needs sd st h =
      elim (Bool-cases (refresh_token s o now req sd st).2) [
        | inl done ↦
            refresh_token-IsRefreshed now req u sd st done
              (ground (arith, initiate-not_forward s o req sd u st))
        | inr failed ↦ absurd (
            ground (
              arith,
              initiate-not_forward s o req sd u st,
              initiate-not_forward s o req (refresh_token s o now req sd st).1 u
                  (refresh_token s o now req sd st).0,
            ))
      ]

  session-IsGranted :
      (now : ℤ) (req : Request) (u : Str) (sd : SessionData) (st : State)
      → is_forward (serve_session s o now req u sd st).1 ≡ true
      → IsGranted now req sd st
  unfolding serve_session
  session-IsGranted now req u sd st h =
      let st' = (is_user_authenticated s o now sd st).0 in
      let status = (is_user_authenticated s o now sd st).1 in
      elim (Bool-cases status.expired) [
        | inl gone ↦ absurd (ground (arith, expired-not_forward s o now req sd u st'))
        | inr live ↦ elim (Bool-cases (status.authenticated && not status.needs_refresh)) [
          | inl fit ↦ inl (
              status-IsAuthenticated now sd st (ground arith) (
                subst (λ w. IsPermitted (get_email sd w) (get_access_token o.codec sd w))
                  (is_user_authenticated-world now sd st)
                  (process-IsPermitted req sd u st' (ground arith))))
          | inr unfit ↦
              inr (unsettled-IsRefreshed now req u status.needs_refresh sd st' (ground arith))
        ]
      ]

  routes-IsGranted :
      (now : ℤ) (req : Request) (u : Str) (sd : SessionData) (st : State)
      → is_forward (serve_routes s o now req u sd st).1 ≡ true
      → IsGranted now req sd st
  unfolding serve_routes
  routes-IsGranted now req u sd st h =
      elim (Bool-cases (str_eq req.path s.middleware.logout_url_path)) [
        | inl p ↦ absurd (ground (arith, logout-not_forward s o now req st))
        | inr p ↦ elim (Bool-cases (str_eq req.path s.middleware.redir_url_path)) [
          | inl q ↦ absurd (ground (arith, callback-not_forward s o now req u st))
          | inr q ↦ session-IsGranted now req u sd st (ground arith)
        ]
      ]

  protected-IsGranted :
      (now : ℤ) (req : Request) (st : State)
      → is_forward (serve_protected s o now req st).1 ≡ true
      → (sd : SessionData) × ((get_session now o.store req.number o.pooled st.world).1 ≡ loaded sd)
        × IsGranted now req sd
            (set_world (get_session now o.store req.number o.pooled st.world).0 st)
  unfolding serve_protected
  protected-IsGranted now req st h =
      let st' = set_world (get_session now o.store req.number o.pooled st.world).0 st in
      let u =
        build_full_url (determine_scheme req) (determine_host req) s.middleware.redir_url_path in
      elim (Loaded-cases (get_session now o.store req.number o.pooled st.world).1) [
        | inl p ↦ absurd (ground arith)
        | inr (inl (e, p)) ↦ absurd (ground (arith, without_session-not_forward s o now req u st'))
        | inr (inr (sd, p)) ↦ (sd, p, routes-IsGranted now req u sd st' (ground arith))
      ]

-- The request's path begins with an excluded one, or it accepts event streams.
abbrev pub IsExempt : Service → Request → Type 0
IsExempt s req =
    (any (has_prefix req.path) s.middleware.excluded_urls ≡ true)
    ⊎ (contains (get_header (lit "Accept") req.headers) (lit "text/event-stream") ≡ true)

bypasses-IsExempt : (s : Service) (req : Request) → bypasses s req ≡ true → IsExempt s req
unfolding bypasses determine_excluded_url
bypasses-IsExempt s req h =
    elim (Bool-cases (any (has_prefix req.path) s.middleware.excluded_urls)) [
      | inl p ↦ inl p
      | inr p ↦ inr (ground arith)
    ]

-- A request reaches the next handler only if it bypasses authentication, by an excluded path or as
-- an event stream, or if its session has been loaded and one of two things holds. Either the
-- session is marked as authenticated for at most 24 hours, and its own token has passed the
-- verification of signature and claims in this very state; or its refresh token has been exchanged
-- for a token that `VerifyToken` accepts. In both cases the email address of the session, or of the
-- refreshed session, is known and its domain allowed, and so are the groups or roles of its token.
pub serve_http-IsGranted :
    (s : Service) (o : Outside) (now : ℤ) (req : Request) (st : State)
    → is_forward (serve_http s o now req st).1 ≡ true
    → ((bypasses s req ≡ true) × IsExempt s req)
      ⊎ ((sd : SessionData) × ((get_session now o.store req.number o.pooled st.world).1 ≡ loaded sd)
          × IsGranted s o now req sd
              (set_world (get_session now o.store req.number o.pooled st.world).0 st))
unfolding serve_http
serve_http-IsGranted s o now req st h = elim (Bool-cases (bypasses s req)) [
  | inl p ↦ inl (p, bypasses-IsExempt s req p)
  | inr p ↦ inr (protected-IsGranted s o now req st (ground arith))
]
