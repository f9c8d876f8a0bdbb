-- ===== src/Session/Kept.antt =====
-- The round trip of a session through the browser: `Save` in one request, `GetSession` in the next
-- (session.go).
use traefikoidc.Base.{ℕ, ◌<◌, ◌≡◌, subst, arith, ◌∙◌, ap, ap₂, Bool, true, false, List, [], length}
use traefikoidc.Base.Int.{ℤ}
use traefikoidc.Base.Text.{Str}
use traefikoidc.Session.{
  main, primary, Name, Ref, Kind, access, refresh, Name, primary, chunk, Ref, World, Store,
  SessionData, Pooled, object, primary_of, chunks_of,
}
use traefikoidc.Session.Chunks.{refs_from, chunk_ref}
use traefikoidc.Session.Sent.{save-Sent, last_cookie, own}
use traefikoidc.Session.Token.{Codec, get_token}
use traefikoidc.Session.Next.{IsNext, SurviveFrom-ComeFrom, load_chunks-refs_from}
use traefikoidc.Session.Expiry.{saved_options}
use traefikoidc.Session.Manager.{get_session, loaded, token_chunk_sessions, save}
use traefikoidc.Error.{ok}
use traefikoidc.Session.Survival.{IsRegular-AreOfRequest}
use traefikoidc.Session.Loading.{get_session-IsOwn}
use traefikoidc.Session.Survival.{IsRegular, saved-Survives, get_token-Survives, fresh_chunk}

-- the chunks of the next request are those that were saved, if the browser had no further chunk
loaded_chunks :
    (kind : Kind) (st st' : Store) (force_https : Bool) (scheme : Str) (request next : ℕ)
    (start w later : World) (parts : Kind → List Str) (sd : SessionData)
    → IsRegular request parts sd
    → w.cookies ≡ []
    → (save st force_https scheme sd w).1 ≡ ok tt
    → IsNext start request (save st force_https scheme sd w).0.cookies later next
    → ((n : Name) → st'.load_fails n ≡ false)
    → length (parts kind) < st'.cookie_count
    → (object start (chunk_ref kind request (length (parts kind)))).is_new ≡ true
    → token_chunk_sessions kind st' next later ≡ refs_from kind next 0 (parts kind)
unfolding token_chunk_sessions
loaded_chunks kind st st' force_https scheme request next start w later parts sd h e k n f l new =
    let o = saved_options force_https scheme in
    let sent =
      save-Sent request st force_https scheme sd w (IsRegular-AreOfRequest request parts sd h) k in
    let fresh = chunk kind (length (parts kind)) in
    let unsent =
      sent.others fresh (fresh_chunk kind request parts sd h (length (parts kind)) (omega arith))
      ∙ ap (last_cookie fresh) e in
    load_chunks-refs_from kind w request later next st' st'.cookie_count 0 (parts kind) f
      (SurviveFrom-ComeFrom kind w request later next 0 (parts kind)
        ((saved-Survives st force_https scheme request next start w later parts sd h k n).1 kind).1)
      (subst (λ j. (object later (chunk_ref kind next j)).is_new ≡ true) (omega arith)
        ((n.keeps fresh unsent).1 ∙ new))
      l

ref-ap :
    (request : ℕ) (n : Name) (r : Ref) → (r.request ≡ request) × (r.name ≡ n) → r ≡ own request n
ref-ap request n r h = ap₂ (λ (q : ℕ) (m : Name). own q m) h.0 h.1

-- the parts of the data that `GetSession` makes in a request
module _ (now : ℤ) (st : Store) (request : ℕ) (pooled : Pooled) (w : World) (sd : SessionData)
    (h : (get_session now st request pooled w).1 ≡ loaded sd) where
  pub loaded-main : sd.main ≡ own request main
  loaded-main =
      ref-ap request main sd.main (get_session-IsOwn now st request pooled w sd h).main_ref

  pub loaded-primary_of : (kind : Kind) → primary_of kind sd ≡ own request (primary kind)
  loaded-primary_of access =
      ref-ap request (primary access) sd.access
        (get_session-IsOwn now st request pooled w sd h).access_ref
  loaded-primary_of refresh =
      ref-ap request (primary refresh) sd.refresh
        (get_session-IsOwn now st request pooled w sd h).refresh_ref

  pub loaded-chunks_of : (kind : Kind) → chunks_of kind sd ≡ token_chunk_sessions kind st request w
  loaded-chunks_of access = (get_session-IsOwn now st request pooled w sd h).access_all
  loaded-chunks_of refresh = (get_session-IsOwn now st request pooled w sd h).refresh_all

  -- They are regular, if the chunks of the request have the indices from 0 on.
  pub loaded-IsRegular :
      (parts : Kind → List Str)
      → ((kind : Kind)
          → token_chunk_sessions kind st request w ≡ refs_from kind request 0 (parts kind))
      → IsRegular request parts sd
  loaded-IsRegular parts k = record {
    main_own = loaded-main;
    primary_own = loaded-primary_of;
    numbered = λ kind. loaded-chunks_of kind ∙ k kind;
  }

-- A session is what the browser's next request finds. The session data of a request, regular, are
-- saved with success in a response that had no session cookie before. The browser's next request
-- (as `IsNext` says) loads every cookie and has more cookies than either token has chunks, and the
-- browser held no chunk with the number after the last when the first request began. If
-- `GetSession` returns data in the next request, then the main session there holds the values that
-- were saved, and both tokens read as they did.
pub get_session-save :
    (z : Codec) (now : ℤ) (st st' : Store) (force_https : Bool) (scheme : Str) (request next : ℕ)
    (start w later : World) (pooled : Pooled) (parts : Kind → List Str) (sd sd' : SessionData)
    → IsRegular request parts sd
    → w.cookies ≡ []
    → (save st force_https scheme sd w).1 ≡ ok tt
    → IsNext start request (save st force_https scheme sd w).0.cookies later next
    → ((n : Name) → st'.load_fails n ≡ false)
    → ((kind : Kind) → length (parts kind) < st'.cookie_count)
    → ((kind : Kind) → (object start (chunk_ref kind request (length (parts kind)))).is_new ≡ true)
    → (get_session now st' next pooled later).1 ≡ loaded sd'
    → ((object later sd'.main).values ≡ (object w sd.main).values)
      × ((kind : Kind) → get_token kind z sd' later ≡ get_token kind z sd w)
get_session-save z now st st' force_https scheme request next start w later pooled parts sd sd' h e
      k n f l new g =
    let h' = loaded-IsRegular now st' next pooled later sd' g parts (λ kind.
      loaded_chunks kind st st' force_https scheme request next start w later parts sd h e k n f
        (l kind) (new kind)) in
    let s = saved-Survives st force_https scheme request next start w later parts sd h k n in
    (
      rw (h.main_own, h'.main_own) s.0.values,
      λ kind.
          get_token-Survives kind z request next w later parts sd sd' h h' (s.1 kind).0
            (s.1 kind).1,
    )
