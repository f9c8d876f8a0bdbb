-- ===== src/Server/Replayed.antt =====
-- The check of a session's token after the same token has been verified (main.go, jwt.go).
use traefikoidc.Base.{◌≡◌, ◌∙◌, ap, Bool, false, some, [], arith, inl, inr}
use traefikoidc.Base.Int.{ℤ, before, unix}
use traefikoidc.Base.Map.{lookup}
use traefikoidc.Base.Text.{Str, lit, is_blank}
use traefikoidc.Error.{ok, Result-cases}
use traefikoidc.Jwks.{get_jwks}
use traefikoidc.Jwt.{Jwt, parse_jwt, verify}
use traefikoidc.Jwt.Replay.{verify-once}
use traefikoidc.Platform.{Claims, as_str, as_num}
use traefikoidc.Server.{Service, Outside, check_context, token_context}
use traefikoidc.Server.Refresh.{check_access_token, status_of_invalid}
use traefikoidc.Verifier.{
  Verifier, Context, is_cached, cache_get, verify_token, verify_fresh, verify_jwt, check_signature,
  check_standard_claims, pre_verify, blacklist_get, check_jti, remember_jti, blacklist_set,
  cache_verified_token, cache_set,
}

-- Acceptance by signature and claims is acceptance by `Verify`, which changes the replay cache.
verify_jwt-verify :
    (x : Context) (now : ℤ) (j : Jwt) (token : Str) (v : Verifier)
    → (verify_jwt x now j token v).1 ≡ ok tt
    → ((verify x.platform now x.issuer_url x.client_id j v.replays).1 ≡ ok tt)
      × ((verify_jwt x now j token v).0.replays
          ≡ (verify x.platform now x.issuer_url x.client_id j v.replays).0)
unfolding verify_jwt check_standard_claims
verify_jwt-verify x now j token v h =
    elim (Result-cases (get_jwks now now x.fetched v.jwk_cache).1) [
      | inr (e, p) ↦ absurd (ground arith)
      | inl (keys, p) ↦ elim (Result-cases (check_signature x.platform keys j token)) [
        | inr (e, q) ↦ absurd (ground arith)
        | inl (u, q) ↦ (ground arith, ground arith)
      ]
    ]

pre_verify-replays :
    (x : Context) (now : ℤ) (token : Str) (v : Verifier)
    → (pre_verify x now token v).0.replays ≡ v.replays
unfolding pre_verify blacklist_get check_jti
pre_verify-replays x now token v = ground arith

remembered-replays :
    (now : ℤ) (token : Str) (claims : Claims) (v : Verifier)
    → (remember_jti now claims (cache_verified_token now token claims v)).replays ≡ v.replays
unfolding remember_jti blacklist_set cache_verified_token cache_set
remembered-replays now token claims v = ground arith

-- the replay cache after a full verification
verify_fresh-replays :
    (x : Context) (now : ℤ) (token : Str) (j : Jwt) (v : Verifier)
    → parse_jwt x.platform token ≡ ok j
    → (verify_fresh x now token v).1 ≡ ok tt
    → ((verify x.platform now x.issuer_url x.client_id j v.replays).1 ≡ ok tt)
      × ((verify_fresh x now token v).0.replays
          ≡ (verify x.platform now x.issuer_url x.client_id j v.replays).0)
unfolding verify_fresh
verify_fresh-replays x now token j v parsed h = elim (Result-cases (pre_verify x now token v).1) [
  | inr (e, p) ↦ absurd (ground arith)
  | inl (u, p) ↦
      let v₁ = (pre_verify x now token v).0 in
      let same : v₁.replays ≡ v.replays = pre_verify-replays x now token v in
      elim (Result-cases (verify_jwt x now j token v₁).1) [
        | inr (e, q) ↦ absurd (ground arith)
        | inl (w, q) ↦
            let (accepted, after) = verify_jwt-verify x now j token v₁ q in
            let v₂ = (verify_jwt x now j token v₁).0 in
            (
              rw (← same) accepted,
              ground (arith, remembered-replays now token j.claims v₂)
                  ∙ after
                  ∙ ap (λ r. (verify x.platform now x.issuer_url x.client_id j r).0) same,
            )
      ]
]

-- A token with a `jti` that `VerifyToken` has verified in full, as the callback and the refresh do,
-- does not count as an authentication afterwards: the check of the session's token refuses the same
-- token as a replay at every instant up to its `exp`.
pub check_access_token-replayed :
    (s : Service) (o : Outside) (now later exp : ℤ) (token jti : Str) (j : Jwt) (has_refresh : Bool)
    (v : Verifier)
    → is_cached (cache_get now token v).1 ≡ false
    → parse_jwt o.platform token ≡ ok j
    → is_blank j.token ≡ false
    → as_str (lookup (lit "jti") j.claims) ≡ some jti
    → as_num (lookup (lit "exp") j.claims) ≡ some exp
    → (verify_token (token_context s o) now token v).1 ≡ ok tt
    → before (unix exp) later ≡ false
    → (check_access_token s o later token has_refresh
        (verify_token (token_context s o) now token v).0).1.authenticated
      ≡ false
unfolding verify_token check_access_token status_of_invalid cache_get
check_access_token-replayed s o now later exp token jti j has_refresh v miss parsed b ident e first
      live =
    let x = token_context s o in
    let v₀ = (cache_get now token v).0 in
    let v' = (verify_fresh x now token v₀).0 in
    let (accepted, after) = verify_fresh-replays x now token j v₀ parsed (ground arith) in
    let once =
      verify-once x.platform x.issuer_url x.client_id now later exp j j jti [] v₀.replays b b ident
        ident e accepted tt live in
    elim (Result-cases (verify_jwt (check_context s o) later j token v').1) [
      | inr (m, p) ↦ ground arith
      | inl (u, p) ↦
          absurd (once (rw (← after) (verify_jwt-verify (check_context s o) later j token v' p).0))
    ]
