-- ===== src/Session/Carried.antt =====
-- A token that is set in one request is read in the next one (session.go).
use traefikoidc.Base.{ℕ, ◌<◌, ◌≡◌, subst, ◌∙◌, ap, Bool, true, false, List, [], length}
use traefikoidc.Base.Int.{ℤ}
use traefikoidc.Base.Text.{Str}
use traefikoidc.Session.{
  Kind, access, refresh, Name, primary, chunk, Ref, World, Store, SessionData, Pooled, object,
  primary_of, chunks_of,
}
use traefikoidc.Session.Chunks.{refs_from, chunk_ref}
use traefikoidc.Session.Sent.{own}
use traefikoidc.Session.Token.{Codec, get_token}
use traefikoidc.Session.Next.{IsNext}
use traefikoidc.Session.Manager.{get_session, loaded, save}
use traefikoidc.Error.{ok}
use traefikoidc.Session.Survival.{IsRegular}
use traefikoidc.Session.Kept.{get_session-save}
use traefikoidc.Session.RoundTrip.{get_token-set_token, IsCodec}
use traefikoidc.Session.Token.{
  set_token, store_token, put_chunks, expire_chunks, owner, compress_token, split_into_chunks,
  max_cookie_size,
}
use traefikoidc.Session.Chunks.{put_chunks-refs}
use traefikoidc.Session.{with_chunks, kind_eq}
use traefikoidc.Base.{
  is_some, sym, Option, none, zero, suc, [], ◌∷◌, ◌||◌, refl, ◌∙◌, ap, some, inl, inr, Bool-cases,
  leb, if◌then◌else◌, ◌+◌,
}

-- the chunks of a compressed token: none where it fits into its cookie
abbrev pub parts_of : Str → List Str
parts_of c = if leb (length c) max_cookie_size then [] else split_into_chunks c max_cookie_size

-- the parts of both tokens, where one is set
abbrev pub with_parts : Kind → List Str → (Kind → List Str) → Kind → List Str
with_parts kind new parts k = if kind_eq k kind then new else parts k

with_chunks-IsRegular :
    (kind : Kind) (request : ℕ) (parts : Kind → List Str) (sd : SessionData) (new : List Str)
    → IsRegular request parts sd
    → IsRegular request
        (with_parts kind new parts)
        (with_chunks kind (refs_from kind request 0 new) sd)
with_chunks-IsRegular access request parts sd new h = record {
  main_own = h.main_own;
  primary_own = λ k.
      elim k
        as (λ k.
          primary_of k (with_chunks access (refs_from access request 0 new) sd)
          ≡ own request (primary k)) [
            | access ↦ h.primary_own access
            | refresh ↦ h.primary_own refresh
          ];
  numbered = λ k.
      elim k
        as (λ k.
          chunks_of k (with_chunks access (refs_from access request 0 new) sd)
          ≡ refs_from k request 0 (with_parts access new parts k)) [
            | access ↦ refl
            | refresh ↦ h.numbered refresh
          ];
}
with_chunks-IsRegular refresh request parts sd new h = record {
  main_own = h.main_own;
  primary_own = λ k.
      elim k
        as (λ k.
          primary_of k (with_chunks refresh (refs_from refresh request 0 new) sd)
          ≡ own request (primary k)) [
            | access ↦ h.primary_own access
            | refresh ↦ h.primary_own refresh
          ];
  numbered = λ k.
      elim k
        as (λ k.
          chunks_of k (with_chunks refresh (refs_from refresh request 0 new) sd)
          ≡ refs_from k request 0 (with_parts refresh new parts k)) [
            | access ↦ h.numbered access
            | refresh ↦ refl
          ];
}

-- Setting a token leaves regular data.
pub set_token-IsRegular :
    (kind : Kind) (z : Codec) (st : Store) (token : Str) (request : ℕ) (parts : Kind → List Str)
    (sd : SessionData) (w : World)
    → sd.request ≡ some request
    → IsRegular request parts sd
    → IsRegular request
        (with_parts kind (parts_of (compress_token z token)) parts)
        (set_token kind z st token sd w).1
unfolding set_token store_token
set_token-IsRegular kind z st token request parts sd w e h =
    elim (Bool-cases (leb (length (compress_token z token)) max_cookie_size)) [
      | inl p ↦ rw (p) (with_chunks-IsRegular kind request parts sd [] h)
      | inr p ↦
          let new = split_into_chunks (compress_token z token) max_cookie_size in
          rw (p, put_chunks-refs)
            (subst
              (λ q.
                IsRegular request (with_parts kind new parts)
                  (with_chunks kind (refs_from kind q 0 new) sd))
              (sym (ap (λ (q : Option ℕ). elim q [ some r ↦ r | none ↦ sd.main.request ]) e))
              (with_chunks-IsRegular kind request parts sd new h))
    ]

put_chunks-cookies :
    (kind : Kind) (request i : ℕ) (parts : List Str) (w : World)
    → (put_chunks kind request i parts w).0.cookies ≡ w.cookies
unfolding put_chunks
put_chunks-cookies kind request i [] w = refl
put_chunks-cookies kind request i (p ∷ parts) w = put_chunks-cookies kind request (i + 1) parts _

expire_chunks-cookies :
    (kind : Kind) (st : Store) (request fuel i : ℕ) (w : World)
    → (expire_chunks kind st request fuel i w).cookies ≡ w.cookies
unfolding expire_chunks
expire_chunks-cookies kind st request zero i w = refl
expire_chunks-cookies kind st request (suc fuel) i w =
    let r : Ref = record { request = request; name = chunk kind i } in
    elim (Bool-cases (st.load_fails (chunk kind i) || (object w r).is_new)) [
      | inl p ↦ rw (expire_chunks, p) refl
      | inr p ↦ rw (expire_chunks, p) (expire_chunks-cookies kind st request fuel (i + 1) _)
    ]

expired-cookies :
    (kind : Kind) (st : Store) (sd : SessionData) (w : World)
    → (if is_some sd.request
        then expire_chunks kind st (owner sd) st.cookie_count 0 w
        else w).cookies
      ≡ w.cookies
expired-cookies kind st sd w = elim (Bool-cases (is_some sd.request)) [
  | inl p ↦ rw p (expire_chunks-cookies kind st (owner sd) st.cookie_count 0 w)
  | inr p ↦ rw p refl
]

-- Setting a token sends no cookie.
pub set_token-cookies :
    (kind : Kind) (z : Codec) (st : Store) (token : Str) (sd : SessionData) (w : World)
    → (set_token kind z st token sd w).0.cookies ≡ w.cookies
unfolding set_token store_token
set_token-cookies kind z st token sd w =
    elim (Bool-cases (leb (length (compress_token z token)) max_cookie_size)) [
      | inl p ↦ rw p (expired-cookies kind st sd w)
      | inr p ↦ rw (p, put_chunks-cookies) (expired-cookies kind st sd w)
    ]

-- A token that is set is the token that the browser's next request reads. The data of a request are
-- regular, no session cookie was sent before, and after the token is set the data are saved with
-- success; the browser's next request (as `IsNext` says) loads every cookie and has more cookies
-- than either token has chunks; and the browser held no chunk with the number after the last one.
-- If `GetSession` returns data in the next request, the token of this kind that they give is
-- the one that was set, whatever its length.
pub get_session-set_token :
    (z : Codec) (laws : IsCodec z) (kind : Kind) (token : Str) (now : ℤ) (st st' : Store)
    (force_https : Bool) (scheme : Str) (request next : ℕ) (start w later : World) (pooled : Pooled)
    (parts : Kind → List Str) (sd sd' : SessionData)
    → sd.request ≡ some request
    → IsRegular request parts sd
    → w.cookies ≡ []
    → let (w', set) = set_token kind z st token sd w in
      let parts' = with_parts kind (parts_of (compress_token z token)) parts in
      (save st force_https scheme set w').1 ≡ ok tt
      → IsNext start request (save st force_https scheme set w').0.cookies later next
      → ((n : Name) → st'.load_fails n ≡ false)
      → ((k : Kind) → length (parts' k) < st'.cookie_count)
      → ((k : Kind) → (object start (chunk_ref k request (length (parts' k)))).is_new ≡ true)
      → (get_session now st' next pooled later).1 ≡ loaded sd'
      → get_token kind z sd' later ≡ token
get_session-set_token z laws kind token now st st' force_https scheme request next start w later
      pooled parts sd sd' e h c k n f l new g =
    let (w', set) = set_token kind z st token sd w in
    let parts' = with_parts kind (parts_of (compress_token z token)) parts in
    let kept =
      get_session-save z now st st' force_https scheme request next start w' later pooled parts' set
        sd' (set_token-IsRegular kind z st token request parts sd w e h)
        (set_token-cookies kind z st token sd w ∙ c) k n f l new g in
    kept.1 kind ∙ get_token-set_token z laws kind st token sd w (rw (h.primary_own kind) refl)
