-- ===== src/Tests/Tokens.antt =====
-- Runs of the verification of tokens.
use traefikoidc.Base.{not, true, false, some, [], ◌∷◌, ◌≡◌, refl, ap, ◌⊎◌}
use traefikoidc.Base.Int.{after, seconds, pos, ◌+ℤ◌, ◌-ℤ◌, scale}
use traefikoidc.Base.Map.{lookup, insert}
use traefikoidc.Base.Text.{lit, str_eq, split, contains, has_prefix, join}
use traefikoidc.Cache.{get, set, add_item, new_cache}
use traefikoidc.Cache.Operations.{new_cache-Refines}
use traefikoidc.Error.{ok}
use traefikoidc.Jwks.{get_jwks, store_jwks}
use traefikoidc.Jwt.{
  Jwt, parse_jwt, three, extract_claims, verify, verify_claims, verify_issuer, verify_audience,
  verify_expiration, verify_issued_at, verify_not_before, verify_time_constraint, check_replay,
  cleanup_replay_cache, verify_subject,
}
use traefikoidc.Jwt.Accepted.{verify_claims-IsAcceptable, IsAcceptable}
use traefikoidc.Jwt.Replay.{verify-once, verify_all}
use traefikoidc.Jwt.Signature.{
  verify_signature, verify_with, hash_of, jwk_to_pem, rsa_jwk_to_pem, from_bytes,
}
use traefikoidc.Jwt.Signed.{verify_signature-IsSigned, IsSigned}
use traefikoidc.Platform.{Json, as_str, as_num}
use traefikoidc.Server.Refresh.{check_access_token}
use traefikoidc.Server.Replayed.{check_access_token-replayed}
use traefikoidc.Server.{token_context}
use traefikoidc.Verifier.{
  verify_token, verify_fresh, pre_verify, verify_jwt, check_signature, check_standard_claims,
  find_key, cache_get, cache_set, cache_verified_token, blacklist_get, blacklist_set, check_jti,
  remember_jti, blacklist_expiry, is_cached, revoke_token,
}
use traefikoidc.Verifier.Blacklist.{IsSound, verify_token-again, revoke_token-verify_token}
use traefikoidc.Verifier.Listed.{verify_token-blacklist_get}
use traefikoidc.Verifier.Checked.{verify_token-IsChecked, IsChecked}
use traefikoidc.Tests.Fixtures.{
  service, outside, now, later, context, token, jwt, verifier, platform, claims,
}

accepted_run : (verify_token context now token verifier).1 ≡ ok tt
unfolding parse_jwt three verify verify_claims verify_issuer verify_audience verify_expiration
    verify_issued_at verify_not_before verify_time_constraint check_replay cleanup_replay_cache
    verify_subject extract_claims verify_signature verify_with hash_of jwk_to_pem rsa_jwk_to_pem
    from_bytes verify_token verify_fresh pre_verify verify_jwt check_signature check_standard_claims
    find_key cache_get cache_set cache_verified_token blacklist_get blacklist_set check_jti
    remember_jti blacklist_expiry get set add_item new_cache get_jwks store_jwks lit str_eq split
    contains has_prefix join lookup insert ◌-ℤ◌ scale ◌+ℤ◌
accepted_run = refl

parsed_run : parse_jwt platform token ≡ ok jwt
unfolding parse_jwt three lit str_eq split
parsed_run = refl

missed_run : is_cached (cache_get now token verifier).1 ≡ false
unfolding cache_get get new_cache lookup lit str_eq
missed_run = refl

exp_run : lookup (lit "exp") claims ≡ some (Json.num (pos 100000))
unfolding lookup lit str_eq
exp_run = refl

jti_run : lookup (lit "jti") claims ≡ some (Json.str (lit "j"))
unfolding lookup lit str_eq
jti_run = refl

verify_token-IsChecked_example :
    (is_cached (cache_get now token verifier).1 ≡ true)
    ⊎ ((j : Jwt) × IsChecked context now token j verifier.jwk_cache)
verify_token-IsChecked_example = verify_token-IsChecked context now token verifier accepted_run

signature_run : verify_signature platform token (lit "k") (lit "RS256") ≡ ok tt
unfolding verify_signature verify_with hash_of three lit str_eq split has_prefix
signature_run = refl

verify_signature-IsSigned_example : IsSigned platform token (lit "k") (lit "RS256")
verify_signature-IsSigned_example =
    verify_signature-IsSigned platform token (lit "k") (lit "RS256") signature_run

claims_run : verify_claims platform now (lit "i") (lit "c") jwt ≡ ok tt
unfolding verify_claims verify_issuer verify_audience verify_expiration verify_issued_at
    verify_not_before verify_time_constraint lit str_eq lookup ◌-ℤ◌ scale ◌+ℤ◌
claims_run = refl

verify_claims-IsAcceptable_example : IsAcceptable now (lit "i") (lit "c") jwt
verify_claims-IsAcceptable_example =
    verify_claims-IsAcceptable platform now (lit "i") (lit "c") jwt claims_run

once_run : (verify platform now (lit "i") (lit "c") jwt []).1 ≡ ok tt
unfolding verify verify_claims verify_issuer verify_audience verify_expiration verify_issued_at
    verify_not_before verify_time_constraint check_replay cleanup_replay_cache verify_subject lit
    str_eq lookup insert ◌-ℤ◌ scale ◌+ℤ◌
once_run = refl

verify-once_example : ¬ (
    (verify platform later (lit "i") (lit "c") jwt (
      verify_all platform
        (lit "i")
        (lit "c")
        ((now, jwt) ∷ [])
        (verify platform now (lit "i") (lit "c") jwt []).0)).1
    ≡ ok tt)
unfolding lit scale
verify-once_example =
    verify-once platform (lit "i") (lit "c") now later (pos 100000) jwt jwt (lit "j")
      ((now, jwt) ∷ []) [] refl refl (ap as_str jti_run) (ap as_str jti_run) (ap as_num exp_run)
      once_run (refl, tt) refl

sound : IsSound verifier
sound = record {
  tokens = [];
  listed = [];
  token_cache = new_cache-Refines;
  blacklist = new_cache-Refines;
}

verify_token-again_example :
    (verify_token context later token (verify_token context now token verifier).0).1 ≡ ok tt
unfolding scale
verify_token-again_example =
    verify_token-again context now later (pos 100000) token jwt verifier sound missed_run parsed_run
      (ap as_num exp_run) accepted_run refl

revoke_token-verify_token_example :
    ¬ ((verify_token context later token (revoke_token now token verifier)).1 ≡ ok tt)
unfolding scale ◌+ℤ◌
revoke_token-verify_token_example =
    revoke_token-verify_token context now later token verifier sound refl

verify_token-blacklist_get_example :
    (blacklist_get later (lit "j") (verify_token context now token verifier).0).1
    ≡ not (after later (now +ℤ seconds 86400))
unfolding lit
verify_token-blacklist_get_example =
    verify_token-blacklist_get context now later token (lit "j") jwt verifier sound missed_run
      parsed_run (ap as_str jti_run) refl accepted_run

check_access_token-replayed_example :
    (check_access_token service outside later token false
      (verify_token (token_context service outside) now token verifier).0).1.authenticated
    ≡ false
unfolding lit scale
check_access_token-replayed_example =
    check_access_token-replayed service outside now later (pos 100000) token (lit "j") jwt false
      verifier missed_run parsed_run refl (ap as_str jti_run) (ap as_num exp_run) accepted_run refl
