-- ===== src/Session/Token.antt =====
-- Tokens in a session (session.go): compression, chunks, `GetAccessToken`, `SetAccessToken` and
-- their twins for the refresh token.
use traefikoidc.Base.{
  ℕ, zero, suc, ◌+◌, Bool, true, false, ◌||◌, Option, none, some, List, [], ◌∷◌, ◌++◌, ◌==◌, leb,
  if◌then◌else◌, is_some, length, take, drop,
}
use traefikoidc.Base.Text.{Str, is_blank}
use traefikoidc.Session.{
  Kind, access, refresh, chunk, str, bool, string_of, bool_of, Ref, World, Store, object, write,
  write_values, expire, SessionData, primary_of, chunks_of, with_chunks,
}

-- gzip and base64, which may fail
pub record Codec : Type 0 where
  pub gzip : Str → Option Str
  pub gunzip : Str → Option Str
  pub encode : Str → Str
  pub decode : Str → Option Str

-- `compressToken`
unfoldable pub compress_token : Codec → Str → Str
compress_token z token = elim (z.gzip token) [ none ↦ token | some bytes ↦ z.encode bytes ]

-- `decompressToken`
unfoldable pub decompress_token : Codec → Str → Str
decompress_token z compressed = elim (z.decode compressed) [
  | none ↦ compressed
  | some bytes ↦ elim (z.gunzip bytes) [ none ↦ compressed | some token ↦ token ]
]

abbrev pub max_cookie_size : ℕ
max_cookie_size = 2000

-- The loop of `splitIntoChunks`; a round takes at least one byte, so the length is fuel enough.
unfoldable pub split_from : ℕ → Str → ℕ → List Str
split_from zero s size = []
split_from (suc fuel) s size =
    let rest = split_from fuel (drop size s) size in
    if is_blank s then [] else (if leb (length s) size then s ∷ [] else take size s ∷ rest)

-- `splitIntoChunks`
unfoldable pub split_into_chunks : Str → ℕ → List Str
split_into_chunks s size = split_from (length s) s size

-- `m[i]`
unfoldable pub chunk_at : ℕ → List (ℕ × Ref) → Option Ref
chunk_at i [] = none
chunk_at i ((j, r) ∷ m) = if j == i then some r else chunk_at i m

-- The loop of `GetAccessToken` over the indices from `i`, which ends at the first one that the map
-- lacks: after as many rounds as the map has entries, at the latest. The chunks are joined.
unfoldable pub gather : ℕ → ℕ → List (ℕ × Ref) → World → Str
gather zero i m w = []
gather (suc fuel) i m w =
    let rest = gather fuel (i + 1) m w in
    elim (chunk_at i m) [ none ↦ [] | some r ↦ string_of (object w r).values.token_chunk ++ rest ]

abbrev pub is_empty_map : List (ℕ × Ref) → Bool
is_empty_map [] = true
is_empty_map (c ∷ m) = false

-- `GetAccessToken` and `GetRefreshToken`
unfoldable pub get_token : Kind → Codec → SessionData → World → Str
get_token kind z sd w =
    let values = (object w (primary_of kind sd)).values in
    let token = string_of values.token in
    let chunks = chunks_of kind sd in
    let finish = λ (t : Str). if bool_of values.compressed then decompress_token z t else t in
    if is_blank token
    then (if is_empty_map chunks then [] else finish (gather (length chunks) 0 chunks w))
    else finish token

unfoldable pub get_access_token : Codec → SessionData → World → Str
get_access_token = get_token access

unfoldable pub get_refresh_token : Codec → SessionData → World → Str
get_refresh_token = get_token refresh

-- The loop of `expireAccessTokenChunks` and `expireRefreshTokenChunks` with no writer, from index
-- `i`. It ends at the first chunk that the request does not have, so the number of the request's
-- cookies is fuel enough.
unfoldable pub expire_chunks : Kind → Store → ℕ → ℕ → ℕ → World → World
expire_chunks kind st request zero i w = w
expire_chunks kind st request (suc fuel) i w =
    let r : Ref = record { request = request; name = chunk kind i } in
    let rest = expire_chunks kind st request fuel (i + 1) (write r expire w) in
    if st.load_fails (chunk kind i) || (object w r).is_new then w else rest

-- the loop of `SetAccessToken` over the chunks
unfoldable pub put_chunks : Kind → ℕ → ℕ → List Str → World → World × List (ℕ × Ref)
put_chunks kind request i [] w = (w, [])
put_chunks kind request i (part ∷ parts) w =
    let r : Ref = record { request = request; name = chunk kind i } in
    let (w', m) =
      put_chunks kind request (i + 1) parts
        (write_values r (λ v. record v { token_chunk = some (str part) }) w) in
    (w', (i, r) ∷ m)

-- the request that chunks belong to: never nil where a token is set
abbrev pub owner : SessionData → ℕ
owner sd = elim sd.request [ some request ↦ request | none ↦ sd.main.request ]

-- the branches of `SetAccessToken` on the length of the compressed token
unfoldable pub store_token : Kind → Str → SessionData → World → World × SessionData
store_token kind compressed sd w =
    let put = λ (t : Str).
      write_values (primary_of kind sd)
        (λ v. record v { token = some (str t); compressed = some (bool true) }) w in
    let (w', m) =
      put_chunks kind (owner sd) 0 (split_into_chunks compressed max_cookie_size) (put []) in
    if leb (length compressed) max_cookie_size
    then (put compressed, with_chunks kind [] sd)
    else (w', with_chunks kind m sd)

-- `SetAccessToken` and `SetRefreshToken`
unfoldable pub set_token : Kind → Codec → Store → Str → SessionData → World → World × SessionData
set_token kind z st token sd w =
    store_token kind (compress_token z token) sd
      (if is_some sd.request then expire_chunks kind st (owner sd) st.cookie_count 0 w else w)

unfoldable pub set_access_token : Codec → Store → Str → SessionData → World → World × SessionData
set_access_token = set_token access

unfoldable pub set_refresh_token : Codec → Store → Str → SessionData → World → World × SessionData
set_refresh_token = set_token refresh
