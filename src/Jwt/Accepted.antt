-- ===== src/Jwt/Accepted.antt =====
-- What `Verify` of jwt.go accepts, and what its replay cache refuses.
use traefikoidc.Base.{none, ◌⊎◌, ◌≡◌, ◌∙◌, ap, true, some, arith, inl, inr, Option-cases, any}
use traefikoidc.Base.Int.{ℤ, ◌+ℤ◌, ◌-ℤ◌, ◌≤ℤ◌, unix, le_of_not_before}
use traefikoidc.Base.Map.{lookup}
use traefikoidc.Base.Text.{Str, lit, str_eq, str_eq_iff}
use traefikoidc.Error.{ok}
use traefikoidc.Jwt.{
  Jwt, verify_claims, verify_issuer, verify_audience, verify_expiration, verify_issued_at,
  verify_not_before, verify_time_constraint, supported_algs, skew_future, skew_past, is_str,
  elements,
}
use traefikoidc.Platform.{Platform, Json, as_str, as_num, str, arr, num, null, obj, bool}

-- The `aud` claim names the client.
abbrev pub Names : Str → Json → Type 0
Names client_id (str aud) = aud ≡ client_id
Names client_id (arr vs) = any (is_str client_id) (elements vs) ≡ true
Names client_id _ = ⊥

-- The claims that the standard checks accept.
pub record IsAcceptable (now : ℤ) (issuer_url client_id : Str) (j : Jwt) : Type 0 where
  pub algorithm :
      (alg : Str) × (as_str (lookup (lit "alg") j.header) ≡ some alg)
      × (any (str_eq alg) supported_algs ≡ true)
  pub issuer : as_str (lookup (lit "iss") j.claims) ≡ some issuer_url
  pub audience : (aud : Json) × (lookup (lit "aud") j.claims ≡ some aud) × Names client_id aud
  pub expiry :
      (exp : ℤ) × (as_num (lookup (lit "exp") j.claims) ≡ some exp)
      × (now ≤ℤ unix exp +ℤ skew_future)
  pub issued :
      (iat : ℤ) × (as_num (lookup (lit "iat") j.claims) ≡ some iat) × (unix iat -ℤ skew_past ≤ℤ now)
  pub started :
      (as_num (lookup (lit "nbf") j.claims) ≡ none)
      ⊎ ((nbf : ℤ) × (as_num (lookup (lit "nbf") j.claims) ≡ some nbf)
          × (unix nbf -ℤ skew_past ≤ℤ now))

expiration :
    (p : Platform) (now exp : ℤ)
    → verify_expiration p now exp ≡ ok tt
    → now ≤ℤ unix exp +ℤ skew_future
unfolding verify_expiration verify_time_constraint
expiration p now exp h = le_of_not_before (unix exp +ℤ skew_future) now (ground arith)

issued_at :
    (p : Platform) (now t : ℤ) → verify_issued_at p now t ≡ ok tt → unix t -ℤ skew_past ≤ℤ now
unfolding verify_issued_at verify_time_constraint
issued_at p now t h = le_of_not_before now (unix t -ℤ skew_past) (ground arith)

not_before :
    (p : Platform) (now t : ℤ) → verify_not_before p now t ≡ ok tt → unix t -ℤ skew_past ≤ℤ now
unfolding verify_not_before verify_time_constraint
not_before p now t h = le_of_not_before now (unix t -ℤ skew_past) (ground arith)

named : (aud : Json) (client_id : Str) → verify_audience aud client_id ≡ ok tt → Names client_id aud
unfolding verify_audience
named (str aud) c h = (str_eq_iff aud c).0 (ground arith)
named (arr vs) c h = ground arith
named null c h = absurd (ground arith)
named (bool b) c h = absurd (ground arith)
named (num n) c h = absurd (ground arith)
named obj c h = absurd (ground arith)

-- Whatever `Verify` accepts before it looks at the replay cache has a supported algorithm, the
-- provider's issuer and the client's audience, and is within its times, with two minutes of grace
-- after `exp` and ten seconds before `iat` and `nbf`.
pub verify_claims-IsAcceptable :
    (p : Platform) (now : ℤ) (issuer_url client_id : Str) (j : Jwt)
    → verify_claims p now issuer_url client_id j ≡ ok tt
    → IsAcceptable now issuer_url client_id j
unfolding verify_claims verify_issuer
verify_claims-IsAcceptable p now issuer_url client_id j h =
    elim (Option-cases (as_str (lookup (lit "alg") j.header))) [
      | inl a ↦ absurd (ground arith)
      | inr (alg, a) ↦ elim (Option-cases (as_str (lookup (lit "iss") j.claims))) [
        | inl b ↦ absurd (ground arith)
        | inr (iss, b) ↦ elim (Option-cases (lookup (lit "aud") j.claims)) [
          | inl c ↦ absurd (ground arith)
          | inr (aud, c) ↦ elim (Option-cases (as_num (lookup (lit "exp") j.claims))) [
            | inl d ↦ absurd (ground arith)
            | inr (exp, d) ↦ elim (Option-cases (as_num (lookup (lit "iat") j.claims))) [
              | inl e ↦ absurd (ground arith)
              | inr (iat, e) ↦ record {
                algorithm = (alg, a, ground arith);
                issuer = b ∙ ap some ((str_eq_iff iss issuer_url).0 (ground arith));
                audience = (aud, c, named aud client_id (ground arith));
                expiry = (exp, d, expiration p now exp (ground arith));
                issued = (iat, e, issued_at p now iat (ground arith));
                started = elim (Option-cases (as_num (lookup (lit "nbf") j.claims))) [
                  | inl f ↦ inl f
                  | inr (nbf, f) ↦ inr (nbf, f, not_before p now nbf (ground arith))
                ];
              }
            ]
          ]
        ]
      ]
    ]
