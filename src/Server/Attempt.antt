-- ===== src/Server/Attempt.antt =====
-- What an initiated authentication leaves for the next request (main.go).
use traefikoidc.Base.{ℕ, ◌≡◌, refl, ◌∙◌, Bool, true, false, none, some, List, if◌then◌else◌}
use traefikoidc.Base.Text.{Str}
use traefikoidc.Server.{Service, Outside, Request, State}
use traefikoidc.Server.Initiate.{initiate, store_attempt, code_verifier_for}
use traefikoidc.Session.{
  Kind, Ref, World, Values, str, no_values, SessionData, SetCookie, object, main, access, refresh,
  primary, primary_of, chunks_of, ref_eq_refl,
}
use traefikoidc.Session.Clearing.{clear_values-FitsData}
use traefikoidc.Session.Manager.{
  save, clear, clear_values, set_csrf, set_nonce, set_code_verifier, set_incoming_path,
}
use traefikoidc.Session.Next.{IsNext}
use traefikoidc.Session.Saved.{save-ok}
use traefikoidc.Session.Sent.{save-Sent, own}
use traefikoidc.Session.Chunks.{refs_from}
use traefikoidc.Base.{subst}
use traefikoidc.Session.Survival.{IsRegular, IsRegular-AreOfRequest, saved-Survives}

-- the values of a main session in which only an attempt to log in is stored
abbrev pub attempt_values :
    (enable_pkce : Bool) → (csrf nonce code_verifier incoming : Str) → Values
attempt_values enable_pkce csrf nonce code_verifier incoming = record no_values {
  csrf = some (str csrf);
  nonce = some (str nonce);
  code_verifier = (if enable_pkce then some (str code_verifier) else none);
  incoming_path = some (str incoming);
}

store_attempt-values :
    (pkce : Bool) (csrf nonce code_verifier incoming : Str) (sd : SessionData) (w : World)
    → (object w sd.main).values ≡ no_values
    → (object (store_attempt pkce csrf nonce code_verifier incoming sd w) sd.main).values
      ≡ attempt_values pkce csrf nonce code_verifier incoming
unfolding store_attempt set_csrf set_nonce set_code_verifier set_incoming_path
store_attempt-values true csrf nonce code_verifier incoming sd w h =
    rw (ref_eq_refl sd.main, h) refl
store_attempt-values false csrf nonce code_verifier incoming sd w h =
    rw (ref_eq_refl sd.main, h) refl

-- the session after it has been cleared
clear-values :
    (o : Outside) (request : ℕ) (force_https : Bool) (scheme : Str) (parts : Kind → List Str)
    (sd : SessionData) (w : World)
    → IsRegular request parts sd
    → ((c : SetCookie) → o.store.save_fails c ≡ false)
    → (object (clear o.store force_https scheme sd w).0 sd.main).values ≡ no_values
unfolding clear
clear-values o request force_https scheme parts sd w h f =
    (save-Sent request o.store force_https scheme sd (clear_values sd w)
        (IsRegular-AreOfRequest request parts sd h)
        (save-ok o.store f force_https scheme sd (clear_values sd w))).same
      sd.main
    ∙ (clear_values-FitsData sd w).0

-- the data after `Clear`, which has dropped the request
abbrev dropped : SessionData → SessionData
dropped sd = record sd { request = none }

dropped-IsRegular :
    (request : ℕ) (parts : Kind → List Str) (sd : SessionData)
    → IsRegular request parts sd
    → IsRegular request parts (dropped sd)
dropped-IsRegular request parts sd h = record {
  main_own = h.main_own;
  primary_own = λ kind. elim kind as (λ k. primary_of k (dropped sd) ≡ own request (primary k)) [
    | access ↦ h.primary_own access
    | refresh ↦ h.primary_own refresh
  ];
  numbered = λ kind.
      elim kind as (λ k. chunks_of k (dropped sd) ≡ refs_from k request 0 (parts k)) [
        | access ↦ h.numbered access
        | refresh ↦ h.numbered refresh
      ];
}

-- the world before the last save of `initiate`
abbrev attempted :
    Service → Outside → Request → SessionData → (nonce code_verifier : Str) → World → World
attempted s o req sd nonce code_verifier w =
    store_attempt s.middleware.enable_pkce o.uuid nonce code_verifier req.request_uri (dropped sd)
      (clear o.store s.middleware.force_https req.url_scheme sd w).0

initiate-world :
    (s : Service) (o : Outside) (req : Request) (sd : SessionData) (u : Str) (st : State)
    (nonce code_verifier : Str)
    → o.nonce ≡ some nonce
    → code_verifier_for s.middleware.enable_pkce o.verifier ≡ some code_verifier
    → ((c : SetCookie) → o.store.save_fails c ≡ false)
    → (initiate s o req sd u st).0.world
      ≡ (save o.store s.middleware.force_https req.url_scheme
          (dropped sd)
          (attempted s o req sd nonce code_verifier st.world)).0
unfolding initiate clear
initiate-world s o req sd u st nonce code_verifier n v f =
    rw
      (
        initiate,
        n,
        v,
        save-ok o.store f s.middleware.force_https req.url_scheme (dropped sd)
            (attempted s o req sd nonce code_verifier st.world),
      )
      refl

-- After an authentication has been initiated, with a nonce and, if PKCE is enabled, a code verifier,
-- and a store that encodes every session, the main session of the browser's next request is there
-- and holds exactly the attempt: the state, the nonce, the verifier, and where the user wanted to go.
pub initiate-Survives :
    (s : Service) (o : Outside) (req : Request) (sd : SessionData) (u : Str) (st : State)
    (nonce code_verifier : Str) (next : ℕ) (start later : World) (parts : Kind → List Str)
    → IsRegular req.number parts sd
    → o.nonce ≡ some nonce
    → code_verifier_for s.middleware.enable_pkce o.verifier ≡ some code_verifier
    → ((c : SetCookie) → o.store.save_fails c ≡ false)
    → IsNext start req.number (initiate s o req sd u st).0.world.cookies later next
    → ((object later (own next main)).values
        ≡ attempt_values s.middleware.enable_pkce o.uuid nonce code_verifier req.request_uri)
      × ((object later (own next main)).is_new ≡ false)
initiate-Survives s o req sd u st nonce code_verifier next start later parts h n v f b =
    let pkce = s.middleware.enable_pkce in
    let cleared = (clear o.store s.middleware.force_https req.url_scheme sd st.world).0 in
    let w = attempted s o req sd nonce code_verifier st.world in
    let b' =
      subst (λ (x : World). IsNext start req.number x.cookies later next)
        (initiate-world s o req sd u st nonce code_verifier n v f) b in
    let survives =
      (saved-Survives o.store s.middleware.force_https req.url_scheme req.number next start w later
        parts (dropped sd) (dropped-IsRegular req.number parts sd h)
        (save-ok o.store f s.middleware.force_https req.url_scheme (dropped sd) w) b').0 in
    let stored =
      store_attempt-values pkce o.uuid nonce code_verifier req.request_uri (dropped sd) cleared
        (clear-values o req.number s.middleware.force_https req.url_scheme parts sd st.world h f) in
    (
      survives.values
          ∙ subst
              (λ (r : Ref).
                (object w r).values
                ≡ attempt_values pkce o.uuid nonce code_verifier req.request_uri)
              h.main_own stored,
      survives.comes,
    )
