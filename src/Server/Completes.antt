-- ===== src/Server/Completes.antt =====
-- A login that has been initiated is completed by the callback (main.go).
use traefikoidc.Base.{
  ◌≢◌, ◌⊎◌, inl, inr, arith, Bool-cases, ◌≡◌, refl, ◌∙◌, ap, Bool, true, false, some, none, Option,
  List, [], if◌then◌else◌,
}
use traefikoidc.Base.Int.{ℤ}
use traefikoidc.Base.Text.{Str, lit, is_blank, str_eq, str_eq_refl, str_eq_iff}
use traefikoidc.Error.{ok}
use traefikoidc.Jwt.{extract_claims}
use traefikoidc.Platform.{Claims}
use traefikoidc.Server.{
  Service, Outside, Request, State, TokenResponse, redirect, is_allowed_domain, set_world,
  token_context,
}
use traefikoidc.Server.Attempt.{initiate-Survives}
use traefikoidc.Server.Callback.{
  next, handle_callback, check_callback, redeem_code, accept_login, check_claims, finish_login,
  redirect_path, parameter, nonce_of,
}
use traefikoidc.Server.Exchange.{exchange_code}
use traefikoidc.Server.Initiate.{initiate, code_verifier_for}
use traefikoidc.Server.Refresh.{email_of}
use traefikoidc.Session.{
  Kind, access, refresh, Name, World, SessionData, SetCookie, object, main, primary, primary_of,
  string_of, Value, Values, str,
}
use traefikoidc.Session.Manager.{
  get_session, Loaded, loaded, get_csrf, get_nonce, get_code_verifier, get_incoming_path, timed_out,
}
use traefikoidc.Session.Next.{IsNext}
use traefikoidc.Session.Saved.{get_session-loaded, data_of_request}
use traefikoidc.Session.Sent.{own}
use traefikoidc.Session.Survival.{IsRegular}
use traefikoidc.Verifier.{Verifier, verify_token}
use traefikoidc.Server.Filled.{finish-answer}

-- A callback as the provider makes it for this attempt: no error, the attempt's state, a code that is
-- exchanged with the attempt's verifier for an ID token that `VerifyToken` accepts, with the attempt's
-- nonce and an email address of an allowed domain; and a random identifier for the session.
pub record IsAnswer (s : Service) (o : Outside) (now : ℤ) (u : Str) (req : Request)
    (state nonce code_verifier : Str) (v : Verifier) : Type 0 where
  pub no_error : is_blank (parameter (lit "error") req) ≡ true
  pub same_state : parameter (lit "state") req ≡ state
  pub has_code : is_blank (parameter (lit "code") req) ≡ false
  pub tokens : TokenResponse
  pub exchanged : exchange_code s o (parameter (lit "code") req) u code_verifier ≡ ok tokens
  pub verified : (verify_token (token_context s o) now tokens.id_token v).1 ≡ ok tt
  pub claims : Claims
  pub claimed : extract_claims o.platform tokens.id_token ≡ ok claims
  pub same_nonce : nonce_of claims ≡ nonce
  pub has_email : is_blank (email_of claims) ≡ false
  pub allowed : is_allowed_domain s.middleware.allowed_user_domains (email_of claims) ≡ true
  pub id : Str
  pub identified : o.session_id ≡ some id

check_callback-answer :
    (req : Request) (state : Str)
    → is_blank (parameter (lit "error") req) ≡ true
    → parameter (lit "state") req ≡ state
    → is_blank state ≡ false
    → is_blank (parameter (lit "code") req) ≡ false
    → check_callback req state ≡ next (parameter (lit "code") req)
unfolding check_callback
check_callback-answer req state e h b c = rw (e, h, b, c, str_eq_refl state) refl

check_claims-answer :
    (s : Service) (req : Request) (nonce : Str) (claims : Claims)
    → nonce_of claims ≡ nonce
    → is_blank nonce ≡ false
    → is_blank (email_of claims) ≡ false
    → is_allowed_domain s.middleware.allowed_user_domains (email_of claims) ≡ true
    → check_claims s req nonce claims ≡ next (email_of claims)
unfolding check_claims
check_claims-answer s req nonce claims h b e a = rw (h, b, e, a, str_eq_refl nonce) refl

module _ (s : Service) (o : Outside) (now : ℤ) (req : Request) where
  accept-answer :
      (tokens : TokenResponse) (claims : Claims) (email : Str) (sd : SessionData) (st : State)
      → extract_claims o.platform tokens.id_token ≡ ok claims
      → check_claims s req (get_nonce sd st.world) claims ≡ next email
      → (accept_login s o now req tokens sd st).1 ≡ (finish_login s o now req tokens email sd st).1
  unfolding accept_login
  accept-answer tokens claims email sd st h k = rw (accept_login, h, k) refl

  redeem-answer :
      (u code : Str) (tokens : TokenResponse) (sd : SessionData) (st : State)
      → exchange_code s o code u (get_code_verifier sd st.world) ≡ ok tokens
      → (verify_token (token_context s o) now tokens.id_token st.verifier).1 ≡ ok tt
      → (redeem_code s o now req u code sd st).1
        ≡ (accept_login s o now req tokens sd (record st {
          verifier = (verify_token (token_context s o) now tokens.id_token st.verifier).0;
        })).1
  unfolding redeem_code
  redeem-answer u code tokens sd st h k = rw (redeem_code, h, k) refl

  callback-answer :
      (u code : Str) (sd : SessionData) (st : State)
      → get_session now o.store req.number o.pooled_again st.world ≡ (st.world, loaded sd)
      → check_callback req (get_csrf sd st.world) ≡ next code
      → (handle_callback s o now req u st).1 ≡ (redeem_code s o now req u code sd st).1
  unfolding handle_callback
  callback-answer u code sd st h k =
      let g = get_session now o.store req.number o.pooled_again st.world in
      let p₀ = ap (λ (x : World × Loaded). x.0) h in
      let p₁ = ap (λ (x : World × Loaded). x.1) h in
      let checked = ap (λ w. check_callback req (get_csrf sd w)) p₀ ∙ k in
      rw (handle_callback, p₁, checked)
        (ap (λ w. (redeem_code s o now req u code sd (set_world w st)).1) p₀)

string_of-verifier :
    (pkce : Bool) (code_verifier : Str)
    → string_of (if pkce then some (str code_verifier) else none)
      ≡ (if pkce then code_verifier else [])
string_of-verifier true code_verifier = refl
string_of-verifier false code_verifier = refl

-- Where a login leads: to where the first request wanted to go, or to `/` if that is empty or the
-- callback itself.
abbrev pub IsTarget : Service → (incoming target : Str) → Type 0
IsTarget s incoming target =
    ((target ≡ incoming) × (is_blank incoming ≡ false) × (incoming ≢ s.middleware.redir_url_path))
    ⊎ ((target ≡ lit "/") × ((is_blank incoming ≡ true) ⊎ (incoming ≡ s.middleware.redir_url_path)))

redirect_path-IsTarget :
    (s : Service) (incoming : Str) → IsTarget s incoming (redirect_path s incoming)
unfolding redirect_path
redirect_path-IsTarget s incoming =
    let callback = s.middleware.redir_url_path in
    elim (Bool-cases (is_blank incoming)) [
      | inl p ↦ rw (redirect_path, p) (inr (refl, inl refl))
      | inr p ↦ elim (Bool-cases (str_eq incoming callback)) [
        | inl q ↦ inr (ground arith, inr ((str_eq_iff incoming callback).0 q))
        | inr q ↦
            inl (ground arith, p, λ e. absurd (ground (arith, (str_eq_iff incoming callback).1 e)))
      ]
    ]

-- A login that has been initiated is completed. An authentication is initiated in a request, for
-- regular session data, with a nonce that is not empty, a verifier if PKCE is enabled, a state that
-- is not empty, and a store that encodes every session. The browser's next request (as `IsNext` says),
-- whose cookies load, is the provider's answer to this attempt, as `IsAnswer` says. Then the callback
-- sends the user to where the first request wanted to go, or to `/` if that is empty or the callback
-- itself.
pub handle_callback-completes :
    (s : Service) (o o' : Outside) (now : ℤ) (u : Str) (req req' : Request) (sd : SessionData)
    (st st' : State) (nonce code_verifier : Str) (start : World) (parts : Kind → List Str)
    → IsRegular req.number parts sd
    → o.nonce ≡ some nonce
    → is_blank nonce ≡ false
    → is_blank o.uuid ≡ false
    → code_verifier_for s.middleware.enable_pkce o.verifier ≡ some code_verifier
    → ((c : SetCookie) → o.store.save_fails c ≡ false)
    → IsNext start req.number (initiate s o req sd u st).0.world.cookies st'.world req'.number
    → ((n : Name) → o'.store.load_fails n ≡ false)
    → ((c : SetCookie) → o'.store.save_fails c ≡ false)
    → IsAnswer s o' now u req' o.uuid nonce
        (if s.middleware.enable_pkce then code_verifier else [])
        st'.verifier
    → ((handle_callback s o' now req' u st').1 ≡ redirect (redirect_path s req.request_uri))
      × IsTarget s req.request_uri (redirect_path s req.request_uri)
unfolding get_csrf get_nonce get_code_verifier get_incoming_path timed_out
handle_callback-completes s o o' now u req req' sd st st' nonce code_verifier start parts h n nb ub
      v f b loads encodes a =
    let pkce = s.middleware.enable_pkce in
    let values =
      (initiate-Survives s o req sd u st nonce code_verifier req'.number start st'.world parts h n v
        f b).0 in
    let sd' = data_of_request o'.store req'.number st'.world in
    let read = λ (g : Values → Option Value). ap (λ (x : Values). string_of (g x)) values in
    let in_time : timed_out now (object st'.world (own req'.number main)).values ≡ false =
      ap (timed_out now) values in
    let verified = record st' {
      verifier = (verify_token (token_context s o') now a.tokens.id_token st'.verifier).0;
    } in
    (
      callback-answer s o' now req' u (parameter (lit "code") req') sd' st'
            (get_session-loaded now o'.store req'.number o'.pooled_again st'.world loads in_time)
            (ap (check_callback req') (read (λ x. x.csrf))
              ∙ check_callback-answer req' o.uuid a.no_error a.same_state ub a.has_code)
          ∙ redeem-answer s o' now req' u (parameter (lit "code") req') a.tokens sd' st'
              (ap (exchange_code s o' (parameter (lit "code") req') u)
                  (read (λ x. x.code_verifier) ∙ string_of-verifier pkce code_verifier)
                ∙ a.exchanged)
              a.verified
          ∙ accept-answer s o' now req' a.tokens a.claims (email_of a.claims) sd' verified a.claimed
              (ap (λ t. check_claims s req' t a.claims) (read (λ x. x.nonce))
                ∙ check_claims-answer s req' nonce a.claims a.same_nonce nb a.has_email a.allowed)
          ∙ finish-answer s o' now req' a.tokens (email_of a.claims) a.id req'.number sd' verified
              a.identified encodes refl
              (λ kind. elim kind as (λ k. primary_of k sd' ≡ own req'.number (primary k)) [
                | access ↦ refl
                | refresh ↦ refl
              ])
          ∙ ap (λ t. redirect (redirect_path s t)) (read (λ x. x.incoming_path)),
      redirect_path-IsTarget s req.request_uri,
    )
