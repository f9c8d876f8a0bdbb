-- ===== src/Tests/Browser.antt =====
-- A browser, and sessions that it carries from one request to the next.
use traefikoidc.Base.{
  ℕ, suc, ◌≡◌, refl, Bool, true, false, Option, none, some, List, [], ◌∷◌, if◌then◌else◌, arith,
  ◌++◌,
}
use traefikoidc.Base.Int.{pos, before}
use traefikoidc.Base.Text.{Str, lit}
use traefikoidc.Session.{
  primary_of, chunks_of, Kind, access, refresh, Name, World, SetCookie, object, chunk, SessionData,
  no_values, Value, Session, main, primary,
}
use traefikoidc.Session.Sent.{last_cookie, own}
use traefikoidc.Session.Next.{IsNext}
use traefikoidc.Session.Survival.{IsRegular}
use traefikoidc.Session.Carried.{get_session-set_token, with_parts, parts_of}
use traefikoidc.Session.Manager.{save, get_session}
use traefikoidc.Session.Token.{get_token, set_token, compress_token}
use traefikoidc.Session.Stale.{get_session-stale}
use traefikoidc.Session.Token.{
  store_token, put_chunks, expire_chunks, split_into_chunks, split_from, decompress_token,
}
use traefikoidc.Session.Manager.{session_options}
use traefikoidc.Base.Int.{◌-ℤ◌, scale}
use traefikoidc.Session.Kept.{get_session-save}
use traefikoidc.Session.Manager.{
  save_session, save_chunks, load_chunks, token_chunk_sessions, timed_out,
}
use traefikoidc.Session.Chunks.{refs_from, chunk_ref}
use traefikoidc.Base.{length, ◌<◌, zero, ltb, not}
use traefikoidc.Tests.Sessions.{codec-IsCodec}
use traefikoidc.Tests.Fixtures.{codec, store, world, pooled, now, options}

-- the session of a cookie that the browser takes, or the one that it held
abbrev received : Session → Option SetCookie → Session
received old none = old
received old (some c) =
    if before c.options.max_age (pos 0)
    then record { id = []; values = no_values; options = options; is_new = true }
    else record { id = []; values = c.values; options = options; is_new = false }

-- the next request of a browser that keeps each cookie until it expires
abbrev pub carried : World → ℕ → List SetCookie → World
carried start request written = record {
  heap = λ r. received (object start (own request r.name)) (last_cookie r.name written);
  cookies = [];
}

pub carried-IsNext :
    (start : World) (request next : ℕ) (written : List SetCookie)
    → IsNext start request written (carried start request written) next
carried-IsNext start request next written = record {
  brings = λ n c h k. (rw (h, k) refl, rw (h, k) refl);
  keeps = λ n h. (rw h refl, rw h refl);
}

-- session data of a request, with chunks of the access token only
abbrev pub data_of : ℕ → List Str → SessionData
data_of request parts = record {
  request = some request;
  main = own request main;
  access = own request (primary access);
  refresh = own request (primary refresh);
  access_chunks = refs_from access request 0 parts;
  refresh_chunks = [];
}

abbrev pub access_parts : List Str → Kind → List Str
access_parts parts access = parts
access_parts parts refresh = []

pub data_of-IsRegular :
    (request : ℕ) (parts : List Str)
    → IsRegular request (access_parts parts) (data_of request parts)
data_of-IsRegular request parts = record {
  main_own = refl;
  primary_own = λ k.
      elim k as (λ k. primary_of k (data_of request parts) ≡ own request (primary k)) [
        | access ↦ refl
        | refresh ↦ refl
      ];
  numbered = λ k.
      elim k
        as (λ k.
          chunks_of k (data_of request parts) ≡ refs_from k request 0 (access_parts parts k)) [
            | access ↦ refl
            | refresh ↦ refl
          ];
}

-- the world of the request after one in which an access token was set and saved
abbrev after_setting : Str → SessionData → World → World
after_setting token sd start =
    let (w, set) = set_token access codec store token sd start in
    carried start 1 (save store false [] set w).0.cookies

get_session-set_token_example :
    get_token access codec (data_of 2 []) (after_setting (lit "abc") (data_of 1 []) world)
    ≡ lit "abc"
unfolding get_session save set_token store_token save_session save_chunks compress_token lit
    load_chunks token_chunk_sessions timed_out expire_chunks session_options ◌-ℤ◌ scale
get_session-set_token_example =
    let (w, set) = set_token access codec store (lit "abc") (data_of 1 []) world in
    get_session-set_token codec codec-IsCodec access (lit "abc") now store store false [] 1 2 world
      world (after_setting (lit "abc") (data_of 1 []) world) pooled (access_parts []) (data_of 1 [])
      (data_of 2 []) refl (data_of-IsRegular 1 []) refl refl
      (carried-IsNext world 1 2 (save store false [] set w).0.cookies) (λ n. refl)
      (λ k.
        elim k
          as (λ k.
            length
              (with_parts access (parts_of (compress_token codec (lit "abc"))) (access_parts []) k)
            < 4) [ access ↦ omega arith | refresh ↦ omega arith ])
      (λ k.
        elim k
          as (λ k.
            (object world (
              chunk_ref k 1 (
                length (
                  with_parts access (parts_of (compress_token codec (lit "abc"))) (access_parts [])
                    k)))).is_new
            ≡ true) [ access ↦ refl | refresh ↦ refl ])
      refl

-- the world of the request after one that only saves its session
abbrev after_saving : World
after_saving = carried world 1 (save store false [] (data_of 1 []) world).0.cookies

get_session-save_example :
    ((object after_saving (own 2 main)).values ≡ (object world (own 1 main)).values)
    × ((kind : Kind)
        → get_token kind codec (data_of 2 []) after_saving
          ≡ get_token kind codec (data_of 1 []) world)
unfolding get_session save set_token store_token save_session save_chunks compress_token lit
    load_chunks token_chunk_sessions timed_out expire_chunks session_options ◌-ℤ◌ scale
get_session-save_example =
    get_session-save codec now store store false [] 1 2 world world after_saving pooled
      (access_parts []) (data_of 1 []) (data_of 2 []) (data_of-IsRegular 1 []) refl refl
      (carried-IsNext world 1 2 (save store false [] (data_of 1 []) world).0.cookies) (λ n. refl)
      (λ k. elim k as (λ k. length (access_parts [] k) < 4) [
        | access ↦ omega arith
        | refresh ↦ omega arith
      ])
      (λ k.
        elim k as (λ k. (object world (chunk_ref k 1 (length (access_parts [] k)))).is_new ≡ true) [
          | access ↦ refl
          | refresh ↦ refl
        ])
      refl

-- a browser that holds three chunks of an access token, and a token of two chunks
abbrev is_held : Name → Bool
is_held (chunk access i) = ltb i 3
is_held (chunk refresh i) = false
is_held n = true

abbrev held : World
held = record {
  heap = λ r. record {
    id = [];
    values = record no_values { token_chunk = some (Value.str (lit "old")) };
    options = options;
    is_new = not (is_held r.name);
  };
  cookies = [];
}

abbrev three_parts : List Str
three_parts = lit "a" ∷ lit "b" ∷ lit "c" ∷ []

abbrev repeated : ℕ → Str
repeated zero = []
repeated (suc n) = 97 ∷ repeated n

get_session-stale_example :
    get_token access codec
      (data_of 2 three_parts)
      (after_setting (repeated 2001) (data_of 1 three_parts) held)
    ≡ decompress_token codec (compress_token codec (repeated 2001) ++ lit "old")
unfolding get_session save set_token store_token save_session save_chunks compress_token lit
    load_chunks token_chunk_sessions timed_out expire_chunks session_options ◌-ℤ◌ scale
    split_into_chunks split_from put_chunks
get_session-stale_example =
    let (w, set) = set_token access codec store (repeated 2001) (data_of 1 three_parts) held in
    get_session-stale codec access (repeated 2001) now store store false [] 1 2 held held
      (after_setting (repeated 2001) (data_of 1 three_parts) held) pooled (access_parts three_parts)
      (data_of 1 three_parts) (data_of 2 three_parts) refl (data_of-IsRegular 1 three_parts) refl
      refl refl (carried-IsNext held 1 2 (save store false [] set w).0.cookies) (λ n. refl)
      (omega arith) refl refl refl
