-- ===== src/Server/Revocation.antt =====
-- Revocation at the provider (main.go).
use traefikoidc.Base.{
  ◌==◌, Option, none, ℕ, ◌≡◌, ◌⊎◌, ◌↔◌, inl, inr, refl, false, Bool-cases, Option-cases, arith,
  ==_iff,
}
use traefikoidc.Base.Text.{Str, is_blank}
use traefikoidc.Error.{ok}
use traefikoidc.Platform.{Answer, transport_error, response}
use traefikoidc.Server.{Service, Outside}
use traefikoidc.Url.{Query}
use traefikoidc.Server.Exchange.{revoke_token_with_provider, revocation_form}
use traefikoidc.Base.{ap, ◌∙◌}

answer-cases :
    (a : Answer)
    → ((e : Str) × (a ≡ transport_error e))
      ⊎ ((status : ℕ) × (body : Str) × (a ≡ response status body))
answer-cases (transport_error e) = inl (e, refl)
answer-cases (response status body) = inr (status, body, refl)

-- `RevokeTokenWithProvider` succeeds exactly where a revocation URL is known, the request can be
-- made, and the provider answers the form with status 200.
pub revoke_token_with_provider-ok :
    (s : Service) (o : Outside) (refused : Str → Option Str) (answer : Str → Query → Answer)
    (token token_type : Str)
    → (revoke_token_with_provider s o refused answer token token_type ≡ ok tt) ↔ (
        (is_blank s.endpoints.revoke_url ≡ false)
        × (refused s.endpoints.revoke_url ≡ none)
        × ((body : Str) × (answer s.endpoints.revoke_url (revocation_form s token token_type)
              ≡ response 200 body)))
unfolding revoke_token_with_provider
revoke_token_with_provider-ok s o refused answer token token_type =
    elim (Bool-cases (is_blank s.endpoints.revoke_url)) [
      | inl p ↦ (λ h. absurd (ground (arith, h, p)), λ h. absurd (ground (arith, h.0, p)))
      | inr p ↦ elim (Option-cases (refused s.endpoints.revoke_url)) [
        | inr (e, q) ↦ (λ h. absurd (ground (arith, h, p, q)), λ h. absurd (ground (arith, h.1, q)))
        | inl q ↦
            elim (answer-cases
              (answer s.endpoints.revoke_url (revocation_form s token token_type))) [
                | inl (e, a) ↦ (
                  λ h. absurd (ground (arith, h, p, q, a)),
                  λ h. absurd (ground (arith, h.2.1, a)),
                )
                | inr (status, body, a) ↦ elim (Bool-cases (status == 200)) [
                  | inl b ↦ (
                    λ h. (p, q, (body, a ∙ ap (λ n. response n body) ((==_iff status 200).0 b))),
                    λ h. ground (arith, p, q, a, b),
                  )
                  | inr b ↦ (
                    λ h. absurd (ground (arith, h, p, q, a, b)),
                    λ h. absurd (ground (arith, h.2.1, a, b, ==_iff status 200)),
                  )
                ]
              ]
      ]
    ]
