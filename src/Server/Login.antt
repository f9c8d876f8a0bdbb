-- ===== src/Server/Login.antt =====
-- What the callback of main.go has established where it logs a user in.
use traefikoidc.Base.{◌≡◌, Bool, true, false, arith, inl, inr}
use traefikoidc.Base.Int.{ℤ}
use traefikoidc.Base.Text.{Str, lit, str_eq_iff, is_blank}
use traefikoidc.Error.{ok, Result-cases}
use traefikoidc.Jwt.{extract_claims}
use traefikoidc.Platform.{Claims}
use traefikoidc.Server.{
  Service, Outside, Request, State, Reply, TokenResponse, redirect, send_error_response,
  is_allowed_domain, set_world, token_context,
}
use traefikoidc.Server.Callback.{
  Step-cases, Step, next, stop, handle_callback, check_callback, redeem_code, accept_login,
  check_claims, parameter, nonce_of,
}
use traefikoidc.Server.Exchange.{exchange_code}
use traefikoidc.Server.Refresh.{email_of}
use traefikoidc.Session.{SessionData, World}
use traefikoidc.Session.Manager.{
  get_session, get_csrf, get_nonce, get_code_verifier, loaded, Loaded-cases,
}
use traefikoidc.Verifier.{Verifier, verify_token}

abbrev pub is_redirect : Reply → Bool
is_redirect (redirect url) = true
is_redirect _ = false

abbrev stops_redirect {ℓ} : {A : Type ℓ} → Step A → Bool
stops_redirect (next a) = false
stops_redirect (stop reply) = is_redirect reply

check_callback-stop :
    (req : Request) (csrf : Str) → stops_redirect (check_callback req csrf) ≡ false
unfolding check_callback send_error_response
check_callback-stop req csrf = ground arith

-- The request's `state` is the session's CSRF token, and neither is empty.
pub record IsOwnReturn (req : Request) (csrf code : Str) : Type 0 where
  pub same_state : parameter (lit "state") req ≡ csrf
  pub has_csrf : is_blank csrf ≡ false
  pub is_code : parameter (lit "code") req ≡ code
  pub has_code : is_blank code ≡ false
  pub no_error : is_blank (parameter (lit "error") req) ≡ true

check_callback-next :
    (req : Request) (csrf code : Str)
    → check_callback req csrf ≡ next code
    → IsOwnReturn req csrf code
unfolding check_callback
check_callback-next req csrf code h = record {
  same_state = (str_eq_iff (parameter (lit "state") req) csrf).0 (ground arith);
  has_csrf = ground arith;
  is_code = ground arith;
  has_code = ground arith;
  no_error = ground arith;
}

module _ (s : Service) (o : Outside) where
  check_claims-stop :
      (req : Request) (nonce : Str) (claims : Claims)
      → stops_redirect (check_claims s req nonce claims) ≡ false
  unfolding check_claims send_error_response
  check_claims-stop req nonce claims = ground arith

  -- The claims carry the session's nonce and an email address of an allowed domain.
  pub record IsOwnToken (nonce : Str) (claims : Claims) : Type 0 where
    pub same_nonce : nonce_of claims ≡ nonce
    pub has_nonce : is_blank nonce ≡ false
    pub has_email : is_blank (email_of claims) ≡ false
    pub domain : is_allowed_domain s.middleware.allowed_user_domains (email_of claims) ≡ true

  check_claims-next :
      (req : Request) (nonce email : Str) (claims : Claims)
      → check_claims s req nonce claims ≡ next email
      → IsOwnToken nonce claims
  unfolding check_claims
  check_claims-next req nonce email claims h = record {
    same_nonce = (str_eq_iff (nonce_of claims) nonce).0 (ground arith);
    has_nonce = ground arith;
    has_email = ground arith;
    domain = ground arith;
  }

  -- What is known of a callback that logs in with a session: the tokens for its code, and the checks.
  pub record IsLogin (now : ℤ) (req : Request) (redirect_url : Str) (sd : SessionData) (w : World)
      (v : Verifier) : Type 0 where
    pub code : Str
    pub own : IsOwnReturn req (get_csrf sd w) code
    pub tokens : TokenResponse
    pub exchanged : exchange_code s o code redirect_url (get_code_verifier sd w) ≡ ok tokens
    pub verified : (verify_token (token_context s o) now tokens.id_token v).1 ≡ ok tt
    pub claims : Claims
    pub read : extract_claims o.platform tokens.id_token ≡ ok claims
    pub own_token : IsOwnToken (get_nonce sd w) claims

  redeem_code-IsLogin :
      (now : ℤ) (req : Request) (u code : Str) (sd : SessionData) (st : State)
      → IsOwnReturn req (get_csrf sd st.world) code
      → is_redirect (redeem_code s o now req u code sd st).1 ≡ true
      → IsLogin now req u sd st.world st.verifier
  unfolding redeem_code accept_login send_error_response
  redeem_code-IsLogin now req u code sd st own h =
      elim (Result-cases (exchange_code s o code u (get_code_verifier sd st.world))) [
        | inr (e, a) ↦ absurd (ground arith)
        | inl (tokens, a) ↦
            elim (Result-cases
              (verify_token (token_context s o) now tokens.id_token st.verifier).1) [
                | inr (e, b) ↦ absurd (ground arith)
                | inl (x, b) ↦ elim (Result-cases (extract_claims o.platform tokens.id_token)) [
                  | inr (e, c) ↦ absurd (ground arith)
                  | inl (claims, c) ↦
                      elim (Step-cases (check_claims s req (get_nonce sd st.world) claims)) [
                        | inr (r, d) ↦
                            absurd
                              (ground (arith, check_claims-stop req (get_nonce sd st.world) claims))
                        | inl (email, d) ↦ record {
                          code = code;
                          own = own;
                          tokens = tokens;
                          exchanged = a;
                          verified = b;
                          claims = claims;
                          read = c;
                          own_token = check_claims-next req (get_nonce sd st.world) email claims d;
                        }
                      ]
                ]
              ]
      ]

-- The callback sends the user on only if `GetSession` gives a session for the request, the request
-- returns this session's CSRF token as its state, its code has been exchanged with this session's
-- PKCE verifier for a token that `VerifyToken` accepts, and that token carries this session's nonce
-- and an email address of an allowed domain.
pub handle_callback-IsLogin :
    (s : Service) (o : Outside) (now : ℤ) (req : Request) (redirect_url : Str) (st : State)
    → is_redirect (handle_callback s o now req redirect_url st).1 ≡ true
    → (sd : SessionData) × ((get_session now o.store req.number o.pooled_again st.world).1
        ≡ loaded sd)
      × IsLogin s o now req redirect_url sd
          (get_session now o.store req.number o.pooled_again st.world).0
          st.verifier
unfolding handle_callback
handle_callback-IsLogin s o now req u st h =
    let w = (get_session now o.store req.number o.pooled_again st.world).0 in
    elim (Loaded-cases (get_session now o.store req.number o.pooled_again st.world).1) [
      | inl p ↦ absurd (ground arith)
      | inr (inl (e, p)) ↦ absurd (ground arith)
      | inr (inr (sd, p)) ↦ elim (Step-cases (check_callback req (get_csrf sd w))) [
        | inr (r, q) ↦ absurd (ground (arith, check_callback-stop req (get_csrf sd w)))
        | inl (code, q) ↦ (
          sd,
          p,
          redeem_code-IsLogin s o now req u code sd (set_world w st)
              (check_callback-next req (get_csrf sd w) code q) (ground arith),
        )
      ]
    ]
