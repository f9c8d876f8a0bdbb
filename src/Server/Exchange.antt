-- ===== src/Server/Exchange.antt =====
-- The token endpoint (helpers.go): `exchangeTokens` and its callers. The text of the response body
-- in an error is kept, since the program looks for codes in it.
use traefikoidc.Base.{[], ◌++◌, ◌==◌, if◌then◌else◌, ◌&&◌, not, Option, none, some}
use traefikoidc.Base.Map.{insert}
use traefikoidc.Base.Text.{Str, lit, str_eq, is_blank}
use traefikoidc.Error.{Result, ok, fail, or_fail, wrapped}
use traefikoidc.Platform.{Sending, not_created, sent, Answer, transport_error, response}
use traefikoidc.Server.{Service, Outside, TokenResponse}
use traefikoidc.Url.{Query}

-- the form that `exchangeTokens` posts
unfoldable pub token_form :
    Service → (grant_type code_or_token redirect_url code_verifier : Str) → Query
token_form s grant_type code_or_token redirect_url code_verifier =
    let base =
      insert (lit "client_secret") s.middleware.client_secret (
        insert (lit "client_id") s.middleware.client_id
          (insert (lit "grant_type") grant_type [])) in
    let with_code =
      insert (lit "redirect_uri") redirect_url (insert (lit "code") code_or_token base) in
    if str_eq grant_type (lit "authorization_code")
    then (if is_blank code_verifier
        then with_code
        else insert (lit "code_verifier") code_verifier with_code)
    else (if str_eq grant_type (lit "refresh_token")
        then insert (lit "refresh_token") code_or_token base
        else base)

-- what `exchangeTokens` makes of the answer
unfoldable pub read_tokens : Outside → Sending → Result TokenResponse
read_tokens o (not_created e) = fail (lit "failed to create token request: " ++ e)
read_tokens o (sent (transport_error e)) = fail (lit "failed to exchange tokens: " ++ e)
read_tokens o (sent (response status body)) =
    if status == 200
    then or_fail (o.decode_tokens body) (lit "failed to decode token response")
    else fail (
        lit "token endpoint returned status " ++ (o.platform.show_nat status ++ (lit ": " ++ body)))

-- `exchangeTokens`
unfoldable pub exchange_tokens :
    Service
    → Outside
    → (grant_type code_or_token redirect_url code_verifier : Str) → Result TokenResponse
exchange_tokens s o grant_type code_or_token redirect_url code_verifier = read_tokens o (
    o.token_answer s.endpoints.token_url
      (token_form s grant_type code_or_token redirect_url code_verifier))

-- `GetNewTokenWithRefreshToken`
unfoldable pub get_new_token : Service → Outside → Str → Result TokenResponse
get_new_token s o refresh_token =
    wrapped (lit "failed to refresh token")
      (exchange_tokens s o (lit "refresh_token") refresh_token [] [])

-- `ExchangeCodeForToken`, as the callback calls it
unfoldable pub exchange_code :
    Service → Outside → (code redirect_url code_verifier : Str) → Result TokenResponse
exchange_code s o code redirect_url code_verifier =
    exchange_tokens s o (lit "authorization_code") code redirect_url code_verifier

-- `exchangeCodeForToken`
unfoldable pub exchange_code_for_token :
    Service → Outside → (code redirect_url code_verifier : Str) → Result TokenResponse
exchange_code_for_token s o code redirect_url code_verifier =
    let effective =
      if s.middleware.enable_pkce && not (is_blank code_verifier) then code_verifier else [] in
    wrapped (lit "failed to exchange code for token")
      (exchange_tokens s o (lit "authorization_code") code redirect_url effective)

-- the form that `RevokeTokenWithProvider` posts
unfoldable pub revocation_form : Service → (token token_type : Str) → Query
revocation_form s token token_type = insert (lit "client_secret") s.middleware.client_secret (
    insert (lit "client_id") s.middleware.client_id
      (insert (lit "token_type_hint") token_type (insert (lit "token") token [])))

-- `RevokeTokenWithProvider`; `refused` is the error of `http.NewRequestWithContext` for a URL, if it
-- has one, and `answer` what the provider answers to the form
unfoldable pub revoke_token_with_provider :
    Service
    → Outside
    → (refused : Str → Option Str) → (answer : Str → Query → Answer) → (token token_type : Str)
    → Result (Unit {0})
revoke_token_with_provider s o refused answer token token_type =
    let url = s.endpoints.revoke_url in
    if is_blank url
    then fail (lit "token revocation endpoint is not configured or discovered")
    else elim (refused url) [
      | some e ↦ fail (lit "failed to create token revocation request: " ++ e)
      | none ↦ elim (answer url (revocation_form s token token_type)) [
        | transport_error e ↦ fail (lit "failed to send token revocation request: " ++ e)
        | response status body ↦
            if status == 200
            then ok tt
            else fail (lit "token revocation failed with status " ++ o.platform.show_nat status)
      ]
    ]
