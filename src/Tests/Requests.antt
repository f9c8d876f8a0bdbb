-- ===== src/Tests/Requests.antt =====
-- Runs of the request handlers, and of the results on them.
use traefikoidc.Base.{true, some, [], ◌≡◌, refl, ◌⊎◌}
use traefikoidc.Base.Int.{◌+ℤ◌, ◌-ℤ◌, scale}
use traefikoidc.Base.Map.{lookup, insert}
use traefikoidc.Base.Text.{lit, str_eq, split, contains, has_prefix, join}
use traefikoidc.Cache.{get, set, add_item, new_cache}
use traefikoidc.Jwks.{get_jwks, store_jwks}
use traefikoidc.Jwt.{
  parse_jwt, three, extract_claims, verify, verify_claims, verify_issuer, verify_audience,
  verify_expiration, verify_issued_at, verify_not_before, verify_time_constraint, check_replay,
  cleanup_replay_cache, verify_subject,
}
use traefikoidc.Jwt.Signature.{
  verify_signature, verify_with, hash_of, jwk_to_pem, rsa_jwk_to_pem, from_bytes,
}
use traefikoidc.Server.{Headers, set_world, determine_scheme, determine_host, is_allowed_domain}
use traefikoidc.Server.Access.{serve_http-IsGranted, IsGranted, IsExempt}
use traefikoidc.Server.Closed.{is_forward}
use traefikoidc.Server.Authorize.{
  process_authorized_request, authorize, extract_groups_and_roles, strings_of_claim,
  is_allowed_role, groups_or_none, user_headers, templated, apply_templates, pass_on,
}
use traefikoidc.Server.Callback.{
  handle_callback, check_callback, redeem_code, accept_login, check_claims, finish_login, log_in,
  redirect_path,
}
use traefikoidc.Server.Exchange.{exchange_code, exchange_tokens, read_tokens, token_form}
use traefikoidc.Server.Headers.{listed_or_own}
use traefikoidc.Server.Login.{handle_callback-IsLogin, IsLogin, is_redirect}
use traefikoidc.Server.Refresh.{is_user_authenticated, check_access_token, status_of_valid}
use traefikoidc.Server.Serve.{serve_http, serve_protected, serve_routes, serve_session, bypasses}
use traefikoidc.Session.{SessionData}
use traefikoidc.Session.Manager.{
  loaded, get_session, timed_out, token_chunk_sessions, load_chunks, get_authenticated, get_email,
  get_csrf, get_nonce, get_code_verifier, get_incoming_path, set_authenticated, set_email, set_csrf,
  set_nonce, set_code_verifier, set_incoming_path, save, save_session, save_chunks, session_options,
  unix_seconds,
}
use traefikoidc.Session.Token.{
  get_token, get_access_token, get_refresh_token, set_token, set_access_token, set_refresh_token,
  compress_token, decompress_token, store_token, put_chunks, split_into_chunks, split_from,
  expire_chunks, gather, chunk_at,
}
use traefikoidc.Url.{determine_excluded_url, build_full_url}
use traefikoidc.Verifier.{
  verify_token, verify_fresh, pre_verify, verify_jwt, check_signature, check_standard_claims,
  find_key, cache_get, cache_set, cache_verified_token, blacklist_get, blacklist_set, check_jti,
  remember_jti, blacklist_expiry,
}
use traefikoidc.Tests.Fixtures.{service, outside, now, home, return, state, world, verifier, token}

granted_run : is_forward (serve_http service outside now home state).1 ≡ true
unfolding serve_http serve_protected serve_routes serve_session bypasses is_user_authenticated
    check_access_token status_of_valid parse_jwt three verify verify_claims verify_issuer
    verify_audience verify_expiration verify_issued_at verify_not_before verify_time_constraint
    check_replay cleanup_replay_cache verify_subject verify_signature verify_with hash_of jwk_to_pem
    rsa_jwk_to_pem from_bytes determine_scheme determine_host is_allowed_domain
    process_authorized_request authorize extract_groups_and_roles strings_of_claim is_allowed_role
    pass_on extract_claims user_headers templated apply_templates get_session timed_out
    token_chunk_sessions load_chunks get_authenticated get_email get_token get_access_token
    get_refresh_token determine_excluded_url build_full_url verify_jwt check_signature
    check_standard_claims find_key get_jwks store_jwks lit str_eq split contains has_prefix join
    lookup insert gather chunk_at decompress_token ◌-ℤ◌ scale ◌+ℤ◌
granted_run = refl

serve_http-IsGranted_example :
    ((bypasses service home ≡ true) × IsExempt service home)
    ⊎ ((sd : SessionData) × ((get_session now outside.store home.number outside.pooled world).1
          ≡ loaded sd)
        × IsGranted service outside now home sd
            (set_world (get_session now outside.store home.number outside.pooled world).0 state))
serve_http-IsGranted_example = serve_http-IsGranted service outside now home state granted_run

login_run : is_redirect (handle_callback service outside now return [] state).1 ≡ true
unfolding handle_callback check_callback redeem_code accept_login check_claims finish_login log_in
    redirect_path exchange_code exchange_tokens read_tokens token_form parse_jwt three verify
    verify_claims verify_issuer verify_audience verify_expiration verify_issued_at verify_not_before
    verify_time_constraint check_replay cleanup_replay_cache verify_subject verify_signature
    verify_with hash_of jwk_to_pem rsa_jwk_to_pem from_bytes is_allowed_domain extract_claims
    get_session timed_out token_chunk_sessions load_chunks get_csrf get_nonce get_code_verifier
    get_incoming_path set_authenticated set_email set_csrf set_nonce set_code_verifier
    set_incoming_path save save_session save_chunks session_options unix_seconds set_token
    set_access_token set_refresh_token compress_token store_token put_chunks split_into_chunks
    split_from expire_chunks verify_token verify_fresh pre_verify verify_jwt check_signature
    check_standard_claims find_key cache_get cache_set cache_verified_token blacklist_get
    blacklist_set check_jti remember_jti blacklist_expiry get set add_item new_cache get_jwks
    store_jwks lit str_eq split contains has_prefix join lookup insert ◌-ℤ◌ scale ◌+ℤ◌
login_run = refl

handle_callback-IsLogin_example :
    (sd : SessionData) × ((get_session now outside.store return.number outside.pooled_again world).1
      ≡ loaded sd)
    × IsLogin service outside now return [] sd
        (get_session now outside.store return.number outside.pooled_again world).0
        verifier
handle_callback-IsLogin_example =
    handle_callback-IsLogin service outside now return [] state login_run

abbrev sent_headers : Headers
sent_headers =
    let (groups, roles) = groups_or_none (extract_groups_and_roles outside token) in
    user_headers service outside home (lit "u@d") token [] groups roles

-- the client's own groups go on
passed_on : listed_or_own [] (lookup (lit "X-User-Groups") home.headers) ≡ some (lit "admins")
unfolding lookup lit str_eq
passed_on = refl
