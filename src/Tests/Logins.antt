-- ===== src/Tests/Logins.antt =====
-- A login in the browser, from the first request to the return from the provider.
use traefikoidc.Base.{some, [], ◌∷◌, ◌≡◌, refl}
use traefikoidc.Base.Int.{◌+ℤ◌, ◌-ℤ◌, scale}
use traefikoidc.Base.Map.{lookup, insert}
use traefikoidc.Base.Text.{lit, str_eq, split, contains, has_prefix, join}
use traefikoidc.Cache.{get, set, add_item, new_cache}
use traefikoidc.Jwks.{get_jwks, store_jwks}
use traefikoidc.Jwt.{
  parse_jwt, three, extract_claims, verify, verify_claims, verify_issuer, verify_audience,
  verify_expiration, verify_issued_at, verify_not_before, verify_time_constraint, check_replay,
  cleanup_replay_cache, verify_subject,
}
use traefikoidc.Jwt.Signature.{
  verify_signature, verify_with, hash_of, jwk_to_pem, rsa_jwk_to_pem, from_bytes,
}
use traefikoidc.Server.{is_allowed_domain}
use traefikoidc.Server.Callback.{
  handle_callback, check_callback, redeem_code, accept_login, check_claims, finish_login, log_in,
  redirect_path,
}
use traefikoidc.Server.Exchange.{exchange_code, exchange_tokens, read_tokens, token_form}
use traefikoidc.Session.Manager.{
  get_session, timed_out, token_chunk_sessions, load_chunks, get_csrf, get_nonce, get_code_verifier,
  get_incoming_path, set_authenticated, set_email, set_csrf, set_nonce, set_code_verifier,
  set_incoming_path, save, save_session, save_chunks, session_options, unix_seconds,
}
use traefikoidc.Session.Token.{
  set_token, set_access_token, set_refresh_token, compress_token, store_token, put_chunks,
  split_into_chunks, split_from, expire_chunks,
}
use traefikoidc.Verifier.{
  verify_token, verify_fresh, pre_verify, verify_jwt, check_signature, check_standard_claims,
  find_key, cache_get, cache_set, cache_verified_token, blacklist_get, blacklist_set, check_jti,
  remember_jti, blacklist_expiry,
}
use traefikoidc.Tests.Fixtures.{service, outside, now, home, return, state, world, verifier}
use traefikoidc.Server.{Outside, Request, State, redirect}
use traefikoidc.Server.Initiate.{initiate, code_verifier_for}
use traefikoidc.Server.Completes.{handle_callback-completes, IsAnswer, IsTarget}
use traefikoidc.Tests.Browser.{carried, carried-IsNext, data_of, data_of-IsRegular, access_parts}
use traefikoidc.Tests.Fixtures.{token, claims}

-- the first request gets the nonce that the provider will put into the token
abbrev outset : Outside
outset = record outside { nonce = some (lit "n") }

abbrev sent : State
sent = (initiate service outset home (data_of 1 []) [] state).0

abbrev returned : State
returned = record state { world = carried world 1 sent.world.cookies }

abbrev back : Request
back = record return { number = 2; query = (lit "state", lit "u") ∷ (lit "code", lit "y") ∷ [] }

back-IsAnswer : IsAnswer service outside now [] back (lit "u") (lit "n") [] verifier
unfolding handle_callback check_callback redeem_code accept_login check_claims finish_login log_in
    redirect_path exchange_code exchange_tokens read_tokens token_form parse_jwt three verify
    verify_claims verify_issuer verify_audience verify_expiration verify_issued_at verify_not_before
    verify_time_constraint check_replay cleanup_replay_cache verify_subject verify_signature
    verify_with hash_of jwk_to_pem rsa_jwk_to_pem from_bytes is_allowed_domain extract_claims
    get_session timed_out token_chunk_sessions load_chunks get_csrf get_nonce get_code_verifier
    get_incoming_path set_authenticated set_email set_csrf set_nonce set_code_verifier
    set_incoming_path save save_session save_chunks session_options unix_seconds set_token
    set_access_token set_refresh_token compress_token store_token put_chunks split_into_chunks
    split_from expire_chunks verify_token verify_fresh pre_verify verify_jwt check_signature
    check_standard_claims find_key cache_get cache_set cache_verified_token blacklist_get
    blacklist_set check_jti remember_jti blacklist_expiry get set add_item new_cache get_jwks
    store_jwks lit str_eq split contains has_prefix join lookup insert ◌-ℤ◌ scale ◌+ℤ◌
back-IsAnswer = record {
  no_error = refl;
  same_state = refl;
  has_code = refl;
  tokens = record { id_token = token; refresh_token = [] };
  exchanged = refl;
  verified = refl;
  claims = claims;
  claimed = refl;
  same_nonce = refl;
  has_email = refl;
  allowed = refl;
  id = lit "q";
  identified = refl;
}

handle_callback-completes_example :
    ((handle_callback service outside now back [] returned).1
      ≡ redirect (redirect_path service (lit "/home")))
    × IsTarget service (lit "/home") (redirect_path service (lit "/home"))
unfolding lit code_verifier_for
handle_callback-completes_example =
    handle_callback-completes service outset outside now [] home back (data_of 1 []) state returned
      (lit "n") [] world (access_parts []) (data_of-IsRegular 1 []) refl refl refl refl (λ c. refl)
      (carried-IsNext world 1 2 sent.world.cookies) (λ n. refl) (λ c. refl) back-IsAnswer
