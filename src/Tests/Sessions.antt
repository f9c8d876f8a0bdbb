-- ===== src/Tests/Sessions.antt =====
-- Runs of the session's operations.
use traefikoidc.Base.{true, false, some, [], ◌∷◌, ◌≡◌, refl, All, arith}
use traefikoidc.Base.Int.{pos, ◌+ℤ◌, ◌-ℤ◌, scale, seconds}
use traefikoidc.Base.Text.{lit}
use traefikoidc.Session.{access, refresh, SetCookie, Values, no_values, string_of}
use traefikoidc.Session.Chunks.{split_into_chunks_lem, concat, IsChunk}
use traefikoidc.Session.Clearing.{clear-IsEmptied}
use traefikoidc.Session.Expiry.{save-IsSaved, IsSaved, saved_options}
use traefikoidc.Session.Loading.{get_session-IsOwn, IsOwn, set_authenticated-get_session}
use traefikoidc.Session.Manager.{
  save, clear, get_session, get_authenticated, set_authenticated, panicked, timed_out, load_chunks,
  token_chunk_sessions, unix_seconds,
}
use traefikoidc.Session.RoundTrip.{get_token-set_token, IsCodec}
use traefikoidc.Session.Token.{get_token, set_token, split_into_chunks, split_from}
use traefikoidc.Tests.Fixtures.{codec, store, world, data_of_request, pooled, now}

pub codec-IsCodec : IsCodec codec
codec-IsCodec = record {
  gzip-IsSome = λ s. refl;
  gunzip-gzip = λ s b h. ground (arith, h);
  decode-encode = λ b. refl;
  encode-gzip = λ s b h. ground (arith, h);
}

get_token-set_token_example :
    get_token access codec
      (set_token access codec store (lit "abc") data_of_request world).1
      (set_token access codec store (lit "abc") data_of_request world).0
    ≡ lit "abc"
get_token-set_token_example =
    get_token-set_token codec codec-IsCodec access store (lit "abc") data_of_request world refl

split_into_chunks_lem_example :
    (concat (split_into_chunks (lit "abcde") 2) ≡ lit "abcde")
    × All (IsChunk 2) (split_into_chunks (lit "abcde") 2)
split_into_chunks_lem_example = split_into_chunks_lem (lit "abcde") 2 (omega arith)

split_run : split_into_chunks (lit "abcde") 2 ≡ lit "ab" ∷ lit "cd" ∷ lit "e" ∷ []
unfolding split_into_chunks split_from lit
split_run = refl

-- values without a part of a token
abbrev HasNoPart : Values → Type 0
HasNoPart v = string_of v.token_chunk ≡ []

save-IsSaved_example :
    All
      (IsSaved (saved_options false []) HasNoPart)
      (save store false [] data_of_request world).0.cookies
save-IsSaved_example =
    save-IsSaved HasNoPart store false [] data_of_request world (refl, refl, refl, (refl, tt), tt)
      tt

clear-IsEmptied_example :
    (get_authenticated now data_of_request (clear store false [] data_of_request world).0 ≡ false)
    × (get_token access codec data_of_request (clear store false [] data_of_request world).0 ≡ [])
    × (get_token refresh codec data_of_request (clear store false [] data_of_request world).0 ≡ [])
    × All
        (λ (c : SetCookie). (c.options.max_age ≡ pos 86400) × (c.values ≡ no_values))
        (clear store false [] data_of_request world).0.cookies
clear-IsEmptied_example = clear-IsEmptied now codec store false [] data_of_request world refl

get_session-IsOwn_example : IsOwn now store 1 world (record data_of_request { access_chunks = [] })
unfolding get_session timed_out token_chunk_sessions load_chunks ◌-ℤ◌ scale ◌+ℤ◌ lit
get_session-IsOwn_example =
    get_session-IsOwn now store 1 pooled world (record data_of_request { access_chunks = [] }) refl

set_authenticated-get_session_example :
    (get_session
      (seconds 200000)
      store
      1
      pooled
      (set_authenticated now (some (lit "q")) true data_of_request world).0).1
    ≡ panicked
unfolding ◌-ℤ◌ scale ◌+ℤ◌ unix_seconds
set_authenticated-get_session_example =
    set_authenticated-get_session now (seconds 200000) (lit "q") store 1 pooled data_of_request
      world refl refl refl refl
