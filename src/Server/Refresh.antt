-- ===== src/Server/Refresh.antt =====
-- The check of a session and the refresh of its tokens (main.go): `isUserAuthenticated` and
-- `refreshToken`.
use traefikoidc.Base.{Bool, true, false, ◌||◌, not, none, some, [], if◌then◌else◌}
use traefikoidc.Base.Int.{ℤ, ◌+ℤ◌, before, unix}
use traefikoidc.Base.Map.{lookup}
use traefikoidc.Base.Text.{Str, lit, str_eq, is_blank, contains}
use traefikoidc.Error.{ok, fail}
use traefikoidc.Jwt.{parse_jwt, extract_claims}
use traefikoidc.Platform.{Claims, as_str, as_num}
use traefikoidc.Server.{
  Service, Outside, Request, State, TokenResponse, set_world, check_context, token_context,
}
use traefikoidc.Server.Exchange.{get_new_token}
use traefikoidc.Session.{SessionData}
use traefikoidc.Session.Manager.{get_authenticated, set_authenticated, set_email, save}
use traefikoidc.Session.Token.{
  get_access_token, get_refresh_token, set_access_token, set_refresh_token,
}
use traefikoidc.Verifier.{Verifier, verify_jwt, verify_token}

-- The three results of `isUserAuthenticated`.
pub record Status : Type 0 where
  pub authenticated : Bool
  pub needs_refresh : Bool
  pub expired : Bool

abbrev pub status : Bool → Bool → Bool → Status
status a n e = record { authenticated = a; needs_refresh = n; expired = e }

-- a session without a usable token: a refresh token may mend it
abbrev pub unusable : (has_refresh : Bool) → Status
unusable has_refresh = if has_refresh then status false true false else status false false true

-- the last part of `isUserAuthenticated`, for a token that has passed verification
unfoldable pub status_of_valid : Service → ℤ → Claims → (has_refresh : Bool) → Status
status_of_valid s now claims has_refresh = elim (as_num (lookup (lit "exp") claims)) [
  | none ↦ unusable has_refresh
  | some exp ↦
      if before (unix exp) (now +ℤ s.middleware.refresh_grace_period)
      then (if has_refresh then status true true false else status true false false)
      else status true false false
]

-- a token that failed verification: the branch on the text of the error
unfoldable pub status_of_invalid : Str → (has_refresh : Bool) → Status
status_of_invalid e has_refresh =
    if contains e (lit "token has expired")
    then (if has_refresh then status false true false else status false false true)
    else (if has_refresh then status false true false else status false false true)

-- the part of `isUserAuthenticated` that looks at the access token
unfoldable pub check_access_token :
    Service → Outside → ℤ → Str → (has_refresh : Bool) → Verifier → Verifier × Status
check_access_token s o now token has_refresh v = elim (parse_jwt o.platform token) [
  | fail e ↦ (v, unusable has_refresh)
  | ok jwt ↦
      let (v', checked) = verify_jwt (check_context s o) now jwt token v in
      elim checked [
        | fail e ↦ (v', status_of_invalid e has_refresh)
        | ok _ ↦ (v', status_of_valid s now jwt.claims has_refresh)
      ]
]

-- `isUserAuthenticated`
unfoldable pub is_user_authenticated : Service → Outside → ℤ → SessionData → State → State × Status
is_user_authenticated s o now sd st =
    let has_refresh = not (is_blank (get_refresh_token o.codec sd st.world)) in
    let token = get_access_token o.codec sd st.world in
    let (v, result) = check_access_token s o now token has_refresh st.verifier in
    if get_authenticated now sd st.world
    then (if is_blank token
        then (st, unusable has_refresh)
        else (record st { verifier = v }, result))
    else (st, if has_refresh then status false true false else status false false false)

abbrev pub is_invalid_grant : Str → Bool
is_invalid_grant e = contains e (lit "invalid_grant") || contains e (lit "token expired")

-- `refreshToken` on an error of the exchange: an invalid refresh token is dropped
unfoldable pub drop_refresh_token :
    Service → Outside → Request → Str → SessionData → State → State × SessionData
drop_refresh_token s o req e sd st =
    let (w₁, sd') = set_refresh_token o.codec o.store [] sd st.world in
    let (w₂, saved) = save o.store s.middleware.force_https req.url_scheme sd' w₁ in
    if is_invalid_grant e then (set_world w₂ st, sd') else (st, sd)

-- the part of `refreshToken` that updates the session and saves it
unfoldable pub store_tokens :
    Service
    → Outside
    → ℤ
    → Request
    → TokenResponse
    → (initial email : Str) → SessionData
    → State
    → State × SessionData × Bool
store_tokens s o now req tokens initial email sd st =
    let w₁ = set_email email sd st.world in
    let (w₂, sd₂) = set_access_token o.codec o.store tokens.id_token sd w₁ in
    let refresh_token = (if is_blank tokens.refresh_token then initial else tokens.refresh_token) in
    let (w₃, sd₃) = set_refresh_token o.codec o.store refresh_token sd₂ w₂ in
    let (w₄, _) = set_authenticated now o.session_id true sd₃ w₃ in
    let (w₅, saved) = save o.store s.middleware.force_https req.url_scheme sd₃ w₄ in
    elim saved [ fail e ↦ (set_world w₅ st, sd₃, false) | ok _ ↦ (set_world w₅ st, sd₃, true) ]

-- `claims["email"].(string)`, the empty string if it is none
abbrev pub email_of : Claims → Str
email_of claims = elim (as_str (lookup (lit "email") claims)) [ none ↦ [] | some e ↦ e ]

-- the part of `refreshToken` after the new ID token has been verified
unfoldable pub accept_tokens :
    Service
    → Outside
    → ℤ
    → Request
    → TokenResponse
    → (initial : Str) → SessionData
    → State
    → State × SessionData × Bool
accept_tokens s o now req tokens initial sd st =
    if str_eq initial (get_refresh_token o.codec sd st.world)
    then elim (extract_claims o.platform tokens.id_token) [
      | fail e ↦ (st, sd, false)
      | ok claims ↦
          if is_blank (email_of claims)
          then (st, sd, false)
          else store_tokens s o now req tokens initial (email_of claims) sd st
    ]
    else (st, sd, false)

-- the part of `refreshToken` after the exchange
unfoldable pub use_tokens :
    Service
    → Outside
    → ℤ
    → Request
    → TokenResponse
    → (initial : Str) → SessionData
    → State
    → State × SessionData × Bool
use_tokens s o now req tokens initial sd st =
    let (v, verified) = verify_token (token_context s o) now tokens.id_token st.verifier in
    let st' = record st { verifier = v } in
    if is_blank tokens.id_token then (st, sd, false) else elim verified [
      | fail e ↦ (st', sd, false)
      | ok _ ↦ accept_tokens s o now req tokens initial sd st'
    ]

-- `refreshToken`. Other goroutines may change the session while the exchange lasts.
unfoldable pub refresh_token :
    Service → Outside → ℤ → Request → SessionData → State → State × SessionData × Bool
refresh_token s o now req sd st =
    let initial = get_refresh_token o.codec sd st.world in
    let st₁ = record st { world = o.interfere st.world } in
    if is_blank initial then (st, sd, false) else elim (get_new_token s o initial) [
      | fail e ↦ let (st₂, sd') = drop_refresh_token s o req e sd st₁ in (st₂, sd', false)
      | ok tokens ↦ use_tokens s o now req tokens initial sd st₁
    ]
