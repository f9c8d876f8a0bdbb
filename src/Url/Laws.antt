-- ===== src/Url/Laws.antt =====
-- The authorization request (main.go).
use traefikoidc.Base.{
  ◌≡◌, refl, Bool, true, ◌&&◌, not, none, some, List, [], ◌∷◌, arith, ◌++◌, inl, inr, if◌then◌else◌,
  Bool-cases, any,
}
use traefikoidc.Base.Map.{lookup, insert}
use traefikoidc.Base.Text.{Str, lit, str_eq, is_blank, join}
use traefikoidc.Url.{auth_params, request_scopes, is_google}

any-snoc : (f : Str → Bool) (x : Str) (xs : List Str) → f x ≡ true → any f (xs ++ x ∷ []) ≡ true
any-snoc f x [] h = ground arith
any-snoc f x (y ∷ ys) h = ground (arith, any-snoc f x ys h)

-- what the parameters of an authorization request say
pub record IsRequest (client_id redirect_url state nonce challenge : Str) (scopes : List Str)
    (pkce : Bool) (q : List (Str × Str)) : Type 0 where
  pub client : lookup (lit "client_id") q ≡ some client_id
  pub code : lookup (lit "response_type") q ≡ some (lit "code")
  pub redirect : lookup (lit "redirect_uri") q ≡ some redirect_url
  pub same_state : lookup (lit "state") q ≡ some state
  pub same_nonce : lookup (lit "nonce") q ≡ some nonce
  pub scope : lookup (lit "scope") q ≡ some (join (lit " ") scopes)
  pub offline : any (λ s. str_eq s (lit "offline_access")) scopes ≡ true
  pub code_challenge :
      lookup (lit "code_challenge") q
      ≡ (if pkce && not (is_blank challenge) then some challenge else none)
  pub method :
      lookup (lit "code_challenge_method") q
      ≡ (if pkce && not (is_blank challenge) then some (lit "S256") else none)

offline-request_scopes :
    (scopes : List Str) → any (λ s. str_eq s (lit "offline_access")) (request_scopes scopes) ≡ true
unfolding request_scopes lit str_eq
offline-request_scopes scopes =
    elim (Bool-cases (any (λ s. str_eq s (lit "offline_access")) scopes)) [
      | inl p ↦ rw (request_scopes, p) p
      | inr p ↦
          rw (request_scopes, p)
            (any-snoc (λ s. str_eq s (lit "offline_access")) (lit "offline_access") scopes refl)
    ]

-- Every authorization request, to whichever provider, is one for a code, for this client, with the
-- given state, nonce and redirect URL, always asks for `offline_access`, and carries the challenge
-- of PKCE, with the method S256, exactly where PKCE is enabled and there is a challenge.
pub auth_params-IsRequest :
    (issuer_url client_id : Str) (scopes : List Str) (pkce : Bool)
    (redirect_url state nonce challenge : Str)
    → IsRequest client_id redirect_url state nonce challenge
        (request_scopes scopes)
        pkce
        (auth_params issuer_url client_id scopes pkce redirect_url state nonce challenge)
unfolding auth_params lit str_eq insert lookup
auth_params-IsRequest issuer_url client_id scopes pkce redirect_url state nonce challenge =
    elim (Bool-cases (is_google issuer_url)) [
      | inl p ↦ elim (Bool-cases (pkce && not (is_blank challenge))) [
        | inl q ↦
            rw (auth_params, p, q)
              (record {
                client = refl;
                code = refl;
                redirect = refl;
                same_state = refl;
                same_nonce = refl;
                scope = refl;
                offline = offline-request_scopes scopes;
                code_challenge = rw q refl;
                method = rw q refl;
              })
        | inr q ↦
            rw (auth_params, p, q)
              (record {
                client = refl;
                code = refl;
                redirect = refl;
                same_state = refl;
                same_nonce = refl;
                scope = refl;
                offline = offline-request_scopes scopes;
                code_challenge = rw q refl;
                method = rw q refl;
              })
      ]
      | inr p ↦ elim (Bool-cases (pkce && not (is_blank challenge))) [
        | inl q ↦
            rw (auth_params, p, q)
              (record {
                client = refl;
                code = refl;
                redirect = refl;
                same_state = refl;
                same_nonce = refl;
                scope = refl;
                offline = offline-request_scopes scopes;
                code_challenge = rw q refl;
                method = rw q refl;
              })
        | inr q ↦
            rw (auth_params, p, q)
              (record {
                client = refl;
                code = refl;
                redirect = refl;
                same_state = refl;
                same_nonce = refl;
                scope = refl;
                offline = offline-request_scopes scopes;
                code_challenge = rw q refl;
                method = rw q refl;
              })
      ]
    ]
