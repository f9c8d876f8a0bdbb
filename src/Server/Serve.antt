-- ===== src/Server/Serve.antt =====
-- `ServeHTTP` of main.go and `handleLogout` of helpers.go.
use traefikoidc.Base.{Bool, ◌&&◌, ◌||◌, not, [], ◌++◌, if◌then◌else◌}
use traefikoidc.Base.Int.{ℤ}
use traefikoidc.Base.Text.{Str, lit, str_eq, is_blank, has_prefix}
use traefikoidc.Error.{ok, fail}
use traefikoidc.Server.{
  Service, Outside, Request, State, Reply, initialized, cancelled, timed_out, forward, redirect,
  http_error, refresh_failed, panic, accepts, determine_scheme, determine_host, set_world,
}
use traefikoidc.Server.Authorize.{process_authorized_request}
use traefikoidc.Server.Callback.{handle_callback}
use traefikoidc.Server.Initiate.{initiate, handle_expired_token}
use traefikoidc.Server.Refresh.{is_user_authenticated, refresh_token}
use traefikoidc.Session.{SessionData}
use traefikoidc.Session.Manager.{get_session, loaded, refused, panicked, clear}
use traefikoidc.Session.Token.{get_access_token, get_refresh_token}
use traefikoidc.Url.{build_full_url, build_logout_url, determine_excluded_url}

-- the target of a logout
unfoldable pub post_logout_target : Service → (base_url : Str) → Str
post_logout_target s base_url =
    let uri = s.middleware.post_logout_redirect_uri in
    if is_blank uri
    then base_url ++ lit "/"
    else (if has_prefix uri (lit "http") then uri else base_url ++ uri)

-- the reply of `handleLogout` once the session has been cleared
unfoldable pub logout_reply : Service → Outside → (access target : Str) → Reply
logout_reply s o access target =
    if not (is_blank s.endpoints.end_session_url) && not (is_blank access)
    then elim (build_logout_url o.urls s.endpoints.end_session_url access target) [
      | fail e ↦ http_error 500 (lit "Logout error")
      | ok url ↦ redirect url
    ]
    else redirect target

-- `handleLogout`
unfoldable pub handle_logout : Service → Outside → ℤ → Request → State → State × Reply
handle_logout s o now req st =
    let (w, session) = get_session now o.store req.number o.pooled_again st.world in
    elim session [
      | panicked ↦ (set_world w st, panic)
      | refused e ↦ (set_world w st, http_error 500 (lit "Session error"))
      | loaded sd ↦
          let access = get_access_token o.codec sd w in
          let (w', sd', cleared) = clear o.store s.middleware.force_https req.url_scheme sd w in
          let base_url = determine_scheme req ++ (lit "://" ++ determine_host req) in
          elim cleared [
            | fail e ↦ (set_world w' st, http_error 500 (lit "Session error"))
            | ok _ ↦ (set_world w' st, logout_reply s o access (post_logout_target s base_url))
          ]
    ]

-- `ServeHTTP` where the first `GetSession` has failed: a second one, and a new authentication
unfoldable pub serve_without_session :
    Service → Outside → ℤ → Request → (redirect_url : Str) → State → State × Reply
serve_without_session s o now req redirect_url st =
    let (w, session) = get_session now o.store req.number o.pooled_again st.world in
    elim session [
      | panicked ↦ (set_world w st, panic)
      | refused e ↦ (set_world w st, http_error 500 (lit "Critical session error"))
      | loaded sd ↦
          let (w', sd', cleared) = clear o.store s.middleware.force_https req.url_scheme sd w in
          initiate s o req sd' redirect_url (set_world w' st)
    ]

-- `ServeHTTP` on a request that may need a refresh, or a new authentication
unfoldable pub serve_unsettled :
    Service
    → Outside
    → ℤ
    → Request
    → (redirect_url : Str) → (needs_refresh : Bool) → SessionData
    → State
    → State × Reply
serve_unsettled s o now req redirect_url needs_refresh sd st =
    let (st', sd', refreshed) = refresh_token s o now req sd st in
    if needs_refresh && not (is_blank (get_refresh_token o.codec sd st.world))
    then (if refreshed
        then process_authorized_request s o req sd' redirect_url st'
        else (if accepts (lit "application/json") req
            then (st', refresh_failed)
            else initiate s o req sd' redirect_url st'))
    else initiate s o req sd redirect_url st

-- `ServeHTTP` with a session, on a path that is neither the callback nor the logout
unfoldable pub serve_session :
    Service → Outside → ℤ → Request → (redirect_url : Str) → SessionData → State → State × Reply
serve_session s o now req redirect_url sd st =
    let (st', status) = is_user_authenticated s o now sd st in
    if status.expired
    then handle_expired_token s o now req sd redirect_url st'
    else (if status.authenticated && not status.needs_refresh
        then process_authorized_request s o req sd redirect_url st'
        else serve_unsettled s o now req redirect_url status.needs_refresh sd st')

-- `ServeHTTP` with a session
unfoldable pub serve_routes :
    Service → Outside → ℤ → Request → (redirect_url : Str) → SessionData → State → State × Reply
serve_routes s o now req redirect_url sd st =
    if str_eq req.path s.middleware.logout_url_path
    then handle_logout s o now req st
    else (if str_eq req.path s.middleware.redir_url_path
        then handle_callback s o now req redirect_url st
        else serve_session s o now req redirect_url sd st)

-- `ServeHTTP` on a request that is not let through as excluded
unfoldable pub serve_protected : Service → Outside → ℤ → Request → State → State × Reply
serve_protected s o now req st =
    let (w, session) = get_session now o.store req.number o.pooled st.world in
    let st' = set_world w st in
    let redirect_url =
      build_full_url (determine_scheme req) (determine_host req) s.middleware.redir_url_path in
    elim session [
      | panicked ↦ (st', panic)
      | refused e ↦ serve_without_session s o now req redirect_url st'
      | loaded sd ↦ serve_routes s o now req redirect_url sd st'
    ]

-- the requests that bypass authentication: excluded paths, and event streams
unfoldable pub bypasses : Service → Request → Bool
bypasses s req =
    determine_excluded_url s.middleware.excluded_urls req.path
    || accepts (lit "text/event-stream") req

-- `ServeHTTP`
unfoldable pub serve_http : Service → Outside → ℤ → Request → State → State × Reply
serve_http s o now req st = elim o.wait [
  | cancelled ↦ (st, http_error 408 (lit "Request cancelled"))
  | timed_out ↦ (
    st,
    http_error 503
        (lit "Timeout waiting for OIDC provider initialization - please try again later"),
  )
  | initialized ↦
      if is_blank s.endpoints.issuer
      then (
        st,
        http_error 503 (
            lit
              "OIDC provider metadata initialization failed - please check provider availability and configuration"),
      )
      else (if bypasses s req then (st, forward req.headers []) else serve_protected s o now req st)
]
