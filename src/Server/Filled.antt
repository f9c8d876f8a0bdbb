-- ===== src/Server/Filled.antt =====
-- What the callback stores in the session, and where it sends the user (main.go).
use traefikoidc.Base.{
  ℕ, ◌≡◌, refl, ◌∙◌, sym, ap, true, false, some, Option, [], Bool-cases, inl, inr,
}
use traefikoidc.Base.Int.{ℤ}
use traefikoidc.Base.Text.{Str}
use traefikoidc.Error.{Result, ok}
use traefikoidc.Server.{Service, Outside, Request, State, TokenResponse, redirect}
use traefikoidc.Server.Callback.{finish_login, log_in, redirect_path}
use traefikoidc.Session.{
  Kind, access, refresh, Ref, World, SessionData, SetCookie, object, main, primary, primary_of,
  string_of, ref_eq, Value, Session,
}
use traefikoidc.Session.Manager.{
  get_incoming_path, set_authenticated, set_email, set_csrf, set_nonce, set_code_verifier,
  set_incoming_path,
}
use traefikoidc.Session.Saved.{save-ok}
use traefikoidc.Session.Sent.{own}
use traefikoidc.Session.Token.{set_access_token, set_refresh_token}
use traefikoidc.Session.Untouched.{set_token-main, set_token-refs}

abbrev incoming : World → Ref → Option Value
incoming w r = (object w r).values.incoming_path

-- the parts of the login: the world in which the tokens are set, and what follows
abbrev marked : ℤ → (id email : Str) → SessionData → World → World
marked now id email sd w = set_email email sd (set_authenticated now (some id) true sd w).0

abbrev unmarked : SessionData → World → World
unmarked sd w = set_code_verifier [] sd (set_nonce [] sd (set_csrf [] sd w))

marked-incoming :
    (now : ℤ) (id email : Str) (sd : SessionData) (r : Ref) (w : World)
    → incoming (marked now id email sd w) r ≡ incoming w r
unfolding set_email set_authenticated
marked-incoming now id email sd r w = elim (Bool-cases (ref_eq r sd.main)) [
  | inl p ↦ rw (incoming, p) refl
  | inr p ↦ rw (incoming, p) refl
]

unmarked-incoming :
    (sd : SessionData) (r : Ref) (w : World) → incoming (unmarked sd w) r ≡ incoming w r
unfolding set_code_verifier set_nonce set_csrf
unmarked-incoming sd r w = elim (Bool-cases (ref_eq r sd.main)) [
  | inl p ↦ rw (incoming, p) refl
  | inr p ↦ rw (incoming, p) refl
]

log_in-marked :
    (o : Outside) (now : ℤ) (tokens : TokenResponse) (email id : Str) (sd : SessionData) (w : World)
    → o.session_id ≡ some id
    → let (w₂, sd₂) =
        set_access_token o.codec o.store tokens.id_token sd (marked now id email sd w) in
      let (w₃, sd₃) = set_refresh_token o.codec o.store tokens.refresh_token sd₂ w₂ in
      log_in o now tokens email sd w ≡ (unmarked sd₃ w₃, sd₃, ok tt)
unfolding log_in set_authenticated
log_in-marked o now tokens email id sd w i =
    ap (λ sid. log_in (record o { session_id = sid }) now tokens email sd w) i

finish_login-redirect :
    (s : Service) (o : Outside) (now : ℤ) (req : Request) (tokens : TokenResponse) (email : Str)
    (sd : SessionData) (st : State)
    → ((c : SetCookie) → o.store.save_fails c ≡ false)
    → (log_in o now tokens email sd st.world).2 ≡ ok tt
    → let l = log_in o now tokens email sd st.world in
      (finish_login s o now req tokens email sd st).1
      ≡ redirect (redirect_path s (get_incoming_path l.1 l.0))
unfolding finish_login
finish_login-redirect s o now req tokens email sd st f h =
    let l = log_in o now tokens email sd st.world in
    let saved =
      save-ok o.store f s.middleware.force_https req.url_scheme l.1
        (set_incoming_path [] l.1 l.0) in
    rw (finish_login, h, saved) refl

-- the end of the callback, with the session that the login has filled
pub finish-answer :
    (s : Service) (o : Outside) (now : ℤ) (req : Request) (tokens : TokenResponse) (email id : Str)
    (request : ℕ) (sd : SessionData) (st : State)
    → o.session_id ≡ some id
    → ((c : SetCookie) → o.store.save_fails c ≡ false)
    → sd.main ≡ own request main
    → ((kind : Kind) → primary_of kind sd ≡ own request (primary kind))
    → (finish_login s o now req tokens email sd st).1
      ≡ redirect (redirect_path s (get_incoming_path sd st.world))
unfolding get_incoming_path set_access_token set_refresh_token
finish-answer s o now req tokens email id request sd st i f m p =
    let w₁ = marked now id email sd st.world in
    let (w₂, sd₂) = set_access_token o.codec o.store tokens.id_token sd w₁ in
    let (w₃, sd₃) = set_refresh_token o.codec o.store tokens.refresh_token sd₂ w₂ in
    let e = log_in-marked o now tokens email id sd st.world i in
    let to_main₂ = set_token-refs access refresh o.codec o.store tokens.id_token sd w₁ in
    let to_main₃ = set_token-refs refresh refresh o.codec o.store tokens.refresh_token sd₂ w₂ in
    let same : sd₃.main ≡ own request main = to_main₃.0 ∙ to_main₂.0 ∙ m in
    let r = own request main in
    let named : (primary_of refresh sd₂).name ≡ primary refresh =
      ap (λ (q : Ref). q.name) (to_main₂.1 ∙ p refresh) in
    let path : incoming (unmarked sd₃ w₃) r ≡ incoming st.world r =
      unmarked-incoming sd₃ r w₃
      ∙ ap (λ (x : Session). x.values.incoming_path)
          (set_token-main refresh r refl o.codec o.store tokens.refresh_token sd₂ w₂ named)
      ∙ ap (λ (x : Session). x.values.incoming_path)
          (set_token-main access r refl o.codec o.store tokens.id_token sd w₁
            (ap (λ (q : Ref). q.name) (p access)))
      ∙ marked-incoming now id email sd r st.world in
    let l = log_in o now tokens email sd st.world in
    finish_login-redirect s o now req tokens email sd st f
      (ap (λ (x : World × SessionData × Result (Unit {0})). x.2) e)
    ∙ ap (λ t. redirect (redirect_path s t))
        (ap (λ (x : World × SessionData × Result (Unit {0})). get_incoming_path x.1 x.0) e
          ∙ ap (λ q. string_of (incoming (unmarked sd₃ w₃) q)) same
          ∙ ap string_of path
          ∙ sym (ap (λ q. string_of (incoming st.world q)) m))
