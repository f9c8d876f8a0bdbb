-- ===== src/Session/Stale.antt =====
-- What a shorter token leaves of a longer one (session.go): the chunks that the new token does not
-- need are emptied in the request, but never saved, so the browser keeps them.
use traefikoidc.Base.{ℕ, ◌<◌, ◌≡◌, subst, arith, ◌∙◌, ap, Bool, true, false, List, [], length}
use traefikoidc.Base.Int.{ℤ}
use traefikoidc.Base.Text.{Str}
use traefikoidc.Session.{
  Kind, Name, primary, chunk, Ref, World, Store, SessionData, Pooled, object, primary_of, chunks_of,
}
use traefikoidc.Session.Chunks.{refs_from, chunk_ref}
use traefikoidc.Session.Sent.{save-Sent, last_cookie, own}
use traefikoidc.Session.Token.{Codec, get_token}
use traefikoidc.Session.Next.{IsNext, load_chunks-refs_from}
use traefikoidc.Session.Expiry.{saved_options}
use traefikoidc.Session.Manager.{get_session, loaded, token_chunk_sessions, save}
use traefikoidc.Error.{ok}
use traefikoidc.Session.Survival.{IsRegular-AreOfRequest}
use traefikoidc.Session.Survival.{IsRegular, saved-Survives, fresh_chunk}
use traefikoidc.Session.Token.{
  set_token, store_token, expire_chunks, owner, compress_token, split_into_chunks, max_cookie_size,
}
use traefikoidc.Base.{is_some, sym, Option, [], ◌∷◌, refl, ◌∙◌, ap, some, leb, if◌then◌else◌, ◌+◌}
use traefikoidc.Session.Carried.{parts_of, with_parts, set_token-IsRegular, set_token-cookies}
use traefikoidc.Session.{string_of, bool_of, Values}
use traefikoidc.Session.Next.{Survives}
use traefikoidc.Session.Kept.{loaded-primary_of, loaded-chunks_of}
use traefikoidc.Session.{kind_eq_refl, ref_eq_refl, write_values, str, bool, name_eq}
use traefikoidc.Session.RoundTrip.{length-refs_from, primary_of-with_chunks}
use traefikoidc.Session.Survival.{fresh_chunk, IsRegular-AreOfRequest, saved-Survives}
use traefikoidc.Session.Token.{is_empty_map, decompress_token, get_token}
use traefikoidc.Session.Chunks.{gather-Holds, chunk_at-refs_from, split_into_chunks_lem}
use traefikoidc.Session.Sent.{save-Sent, last_cookie}
use traefikoidc.Session.Expiry.{saved_options}
use traefikoidc.Session.Manager.{token_chunk_sessions}
use traefikoidc.Session.Next.{SurviveFrom}
use traefikoidc.Session.Next.{
  SurviveFrom-ComeFrom, ComeFrom-snoc, load_chunks-refs_from, SurviveFrom-Holds, Holds-snoc,
}
use traefikoidc.Session.Chunks.{Holds, put_chunks-Holds, put_chunks-other, concat}
use traefikoidc.Base.{none, ◌<◌, ◌≤◌, append-nil, append_assoc, ◌++◌, ◌==◌, ◌&&◌, arith}

length-snoc : (parts : List Str) (q : Str) → length (parts ++ q ∷ []) ≡ length parts + 1
length-snoc [] q = refl
length-snoc (p ∷ parts) q = let e = length-snoc parts q in omega arith

-- what a chunked token leaves in the session: an empty token that is marked compressed, and the parts
record IsChunked (kind : Kind) (request : ℕ) (parts : List Str) (sd : SessionData) (w : World)
    : Type 0 where
  token : string_of (object w (primary_of kind sd)).values.token ≡ []
  compressed : bool_of (object w (primary_of kind sd)).values.compressed ≡ true
  holds : Holds kind request w 0 parts

store_token-IsChunked :
    (kind : Kind) (c : Str) (sd : SessionData) (w : World)
    → (primary_of kind sd).name ≡ primary kind
    → leb (length c) max_cookie_size ≡ false
    → IsChunked kind
        (owner sd)
        (split_into_chunks c max_cookie_size)
        (store_token kind c sd w).1
        (store_token kind c sd w).0
unfolding store_token
store_token-IsChunked kind c sd w h l =
    let parts = split_into_chunks c max_cookie_size in
    let w' =
      write_values (primary_of kind sd)
        (λ v. record v { token = some (str []); compressed = some (bool true) }) w in
    let other = put_chunks-other kind (owner sd) 0 parts w' (primary_of kind sd) (λ j k.
      ap (λ (n : Name). (primary_of kind sd).request == owner sd && name_eq n (chunk kind j)) h
      ∙ ground arith) in
    rw (l) (record {
      token = rw (primary_of-with_chunks, other, ref_eq_refl (primary_of kind sd)) refl;
      compressed = rw (primary_of-with_chunks, other, ref_eq_refl (primary_of kind sd)) refl;
      holds = put_chunks-Holds kind (owner sd) 0 parts w';
    })

concat-snoc : (parts : List Str) (q : Str) → concat (parts ++ q ∷ []) ≡ concat parts ++ q
concat-snoc [] q = append-nil q
concat-snoc (p ∷ parts) q =
    ap (◌++◌ p) (concat-snoc parts q) ∙ sym (append_assoc p (concat parts) q)

is_empty_map-snoc :
    (kind : Kind) (request : ℕ) (parts : List Str) (q : Str)
    → is_empty_map (refs_from kind request 0 (parts ++ q ∷ [])) ≡ false
is_empty_map-snoc kind request [] q = refl
is_empty_map-snoc kind request (p ∷ parts) q = refl

-- reading a chunked token
get_token-IsChunked :
    (kind : Kind) (z : Codec) (request : ℕ) (parts : List Str) (q : Str) (sd : SessionData)
    (w : World)
    → IsChunked kind request (parts ++ q ∷ []) sd w
    → chunks_of kind sd ≡ refs_from kind request 0 (parts ++ q ∷ [])
    → get_token kind z sd w ≡ decompress_token z (concat parts ++ q)
unfolding get_token
get_token-IsChunked kind z request parts q sd w h c =
    let all = parts ++ q ∷ [] in
    rw
      (
        h.token,
        c,
        is_empty_map-snoc,
        h.compressed,
        length-refs_from,
        gather-Holds kind request (length all) 0 all (refs_from kind request 0 all) w (omega arith)
            h.holds (λ j k. ground (arith, chunk_at-refs_from kind request 0 j all)),
        concat-snoc,
      )
      refl

set_token-IsChunked :
    (kind : Kind) (z : Codec) (st : Store) (token : Str) (request : ℕ) (sd : SessionData)
    (w : World)
    → sd.request ≡ some request
    → (primary_of kind sd).name ≡ primary kind
    → leb (length (compress_token z token)) max_cookie_size ≡ false
    → IsChunked kind request
        (split_into_chunks (compress_token z token) max_cookie_size)
        (set_token kind z st token sd w).1
        (set_token kind z st token sd w).0
unfolding set_token
set_token-IsChunked kind z st token request sd w e h l =
    subst
      (λ q.
        IsChunked kind q (split_into_chunks (compress_token z token) max_cookie_size)
          (set_token kind z st token sd w).1 (set_token kind z st token sd w).0)
      (ap (λ (q : Option ℕ). elim q [ some r ↦ r | none ↦ sd.main.request ]) e)
      (store_token-IsChunked kind (compress_token z token) sd
        (if is_some sd.request then expire_chunks kind st (owner sd) st.cookie_count 0 w else w) h
        l)

-- a chunked token in the next request, with one more chunk that comes with it
next-IsChunked :
    (kind : Kind) (request next : ℕ) (w later : World) (parts : List Str) (q : Str)
    (sd sd' : SessionData)
    → primary_of kind sd ≡ own request (primary kind)
    → primary_of kind sd' ≡ own next (primary kind)
    → Survives w request later next (primary kind)
    → SurviveFrom kind w request later next 0 parts
    → string_of (object later (chunk_ref kind next (0 + length parts))).values.token_chunk ≡ q
    → IsChunked kind request parts sd w
    → IsChunked kind next (parts ++ q ∷ []) sd' later
next-IsChunked kind request next w later parts q sd sd' h h' p s e c = record {
  token =
      rw (h', p.values) (subst (λ (r : Ref). string_of (object w r).values.token ≡ []) h c.token);
  compressed =
      rw (h', p.values)
        (subst (λ (r : Ref). bool_of (object w r).values.compressed ≡ true) h c.compressed);
  holds =
      Holds-snoc kind w request later next 0 parts q
        (SurviveFrom-Holds kind w request later next 0 parts s c.holds) e;
}

-- A chunk that a longer token has left in the browser becomes part of the token that the next
-- request reads. The data of a request are regular, no session cookie was sent before, and a token
-- is set whose compressed form takes `k` chunks, more than one cookie; the data are saved with
-- success; the browser's next request (as `IsNext` says) loads every cookie and has more than
-- `k + 1` of them; and the browser held a chunk with the number `k`, the first that the new token
-- does not need, and none with the number `k + 1`. If `GetSession` returns data in the next request,
-- the token they read is what `decompressToken` makes of the compressed token with the old chunk
-- appended to it.
pub get_session-stale :
    (z : Codec) (kind : Kind) (token : Str) (now : ℤ) (st st' : Store) (force_https : Bool)
    (scheme : Str) (request next : ℕ) (start w later : World) (pooled : Pooled)
    (parts : Kind → List Str) (sd sd' : SessionData)
    → sd.request ≡ some request
    → IsRegular request parts sd
    → w.cookies ≡ []
    → leb (length (compress_token z token)) max_cookie_size ≡ false
    → let (w', set) = set_token kind z st token sd w in
      let k = length (split_into_chunks (compress_token z token) max_cookie_size) in
      (save st force_https scheme set w').1 ≡ ok tt
      → IsNext start request (save st force_https scheme set w').0.cookies later next
      → ((n : Name) → st'.load_fails n ≡ false)
      → k + 1 < st'.cookie_count
      → (object start (chunk_ref kind request k)).is_new ≡ false
      → (object start (chunk_ref kind request (k + 1))).is_new ≡ true
      → (get_session now st' next pooled later).1 ≡ loaded sd'
      → get_token kind z sd' later
        ≡ decompress_token z (
            compress_token z token
            ++ string_of (object start (chunk_ref kind request k)).values.token_chunk)
unfolding token_chunk_sessions
get_session-stale z kind token now st st' force_https scheme request next start w later pooled parts
      sd sd' e h c l s n f count old new g =
    let compressed = compress_token z token in
    let new_parts = split_into_chunks compressed max_cookie_size in
    let k = length new_parts in
    let parts' = with_parts kind (parts_of compressed) parts in
    let w' = (set_token kind z st token sd w).0 in
    let set = (set_token kind z st token sd w).1 in
    let h' = set_token-IsRegular kind z st token request parts sd w e h in
    let o = saved_options force_https scheme in
    let sent =
      save-Sent request st force_https scheme set w' (IsRegular-AreOfRequest request parts' set h')
        s in
    let stale = string_of (object start (chunk_ref kind request k)).values.token_chunk in
    let count_parts : parts' kind ≡ new_parts = rw (kind_eq_refl kind, l) refl in
    let unsent = λ (j : ℕ) (m : k ≤ j).
      sent.others (chunk kind j)
        (fresh_chunk kind request parts' set h' j (subst (λ ps. length ps ≤ j) (sym count_parts) m))
      ∙ ap (last_cookie (chunk kind j)) (set_token-cookies kind z st token sd w ∙ c) in
    let survive =
      subst (λ ps. SurviveFrom kind w' request later next 0 ps) count_parts
        ((saved-Survives st force_https scheme request next start w' later parts' set h' s n).1
          kind).1 in
    let primary_ =
      ((saved-Survives st force_https scheme request next start w' later parts' set h' s n).1
        kind).0 in
    let left = n.keeps (chunk kind k) (unsent k (omega arith)) in
    let after = n.keeps (chunk kind (k + 1)) (unsent (k + 1) (omega arith)) in
    let zero_k : k ≡ 0 + k = omega arith in
    let all = new_parts ++ stale ∷ [] in
    let loaded_ : token_chunk_sessions kind st' next later ≡ refs_from kind next 0 all =
      load_chunks-refs_from kind w' request later next st' st'.cookie_count 0 all f
        (ComeFrom-snoc kind w' request later next 0 new_parts stale
          (SurviveFrom-ComeFrom kind w' request later next 0 new_parts survive)
          (subst (λ j. (object later (chunk_ref kind next j)).is_new ≡ false) zero_k
            (left.1 ∙ old)))
        (subst (λ j. (object later (chunk_ref kind next j)).is_new ≡ true)
          (let e = length-snoc new_parts stale in omega arith) (after.1 ∙ new))
        (subst (λ j. j < st'.cookie_count) (sym (length-snoc new_parts stale)) count) in
    let chunked =
      next-IsChunked kind request next w' later new_parts stale set sd' (h'.primary_own kind)
        (loaded-primary_of now st' next pooled later sd' g kind) primary_ survive
        (subst (λ j. string_of (object later (chunk_ref kind next j)).values.token_chunk ≡ stale)
          zero_k (ap (λ (v : Values). string_of v.token_chunk) left.0))
        (set_token-IsChunked kind z st token request sd w e (rw (h.primary_own kind) refl) l) in
    get_token-IsChunked kind z next new_parts stale sd' later chunked
      (loaded-chunks_of now st' next pooled later sd' g kind ∙ loaded_)
    ∙ ap (λ t. decompress_token z (t ++ stale))
        (split_into_chunks_lem compressed max_cookie_size (omega arith)).0
