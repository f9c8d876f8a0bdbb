-- ===== src/Session/RoundTrip.antt =====
-- What is read back from a session after a token is set (session.go).
use traefikoidc.Base.{
  ℕ, suc, ◌+◌, ◌≡◌, refl, ◌∙◌, ap, true, false, ◌&&◌, some, List, [], ◌∷◌, arith, ◌==◌, leb,
  if◌then◌else◌, length, Bool-cases, Option-cases, inl, inr, is_some,
}
use traefikoidc.Base.Text.{Str, is_blank}
use traefikoidc.Session.{
  ref_eq_refl, Kind, access, refresh, chunk, primary, Name, Ref, World, Store, SessionData,
  write_values, str, bool, name_eq, primary_of, chunks_of, with_chunks,
}
use traefikoidc.Session.Token.{
  Codec, compress_token, decompress_token, split_into_chunks, gather, put_chunks, owner,
  store_token, set_token, get_token, max_cookie_size, is_empty_map, expire_chunks,
}
use traefikoidc.Session.Chunks.{
  concat, split_into_chunks_lem, refs_from, put_chunks-refs, put_chunks-other, put_chunks-Holds,
  chunk_at-refs_from, gather-Holds,
}

-- What the code relies on in compress/gzip and encoding/base64: writing to a buffer succeeds, each
-- decoder inverts its encoder, and what was compressed is never empty.
pub record IsCodec (z : Codec) : Type 0 where
  pub gzip-IsSome : (s : Str) → is_some (z.gzip s) ≡ true
  pub gunzip-gzip : (s b : Str) → z.gzip s ≡ some b → z.gunzip b ≡ some s
  pub decode-encode : (b : Str) → z.decode (z.encode b) ≡ some b
  pub encode-gzip : (s b : Str) → z.gzip s ≡ some b → is_blank (z.encode b) ≡ false

module _ (z : Codec) (laws : IsCodec z) where
  -- `decompressToken` gives back what `compressToken` was given.
  pub decompress_token-compress_token :
      (token : Str) → decompress_token z (compress_token z token) ≡ token
  unfolding decompress_token compress_token
  decompress_token-compress_token token = elim (Option-cases (z.gzip token)) [
    | inl p ↦ absurd (ground (arith, laws.gzip-IsSome token, p))
    | inr (b, p) ↦
        rw (compress_token, p, decompress_token, laws.decode-encode b, laws.gunzip-gzip token b p)
          refl
  ]

  compress_token-is_blank : (token : Str) → is_blank (compress_token z token) ≡ false
  unfolding compress_token
  compress_token-is_blank token = elim (Option-cases (z.gzip token)) [
    | inl p ↦ absurd (ground (arith, laws.gzip-IsSome token, p))
    | inr (b, p) ↦ rw (compress_token, p) (laws.encode-gzip token b p)
  ]

module _ (kind : Kind) (request : ℕ) where
  pub length-refs_from :
      (i : ℕ) (parts : List Str) → length (refs_from kind request i parts) ≡ length parts
  length-refs_from i [] = refl
  length-refs_from i (p ∷ parts) = ap suc (length-refs_from (i + 1) parts)

  is_empty_map-refs_from :
      (parts : List Str)
      → is_blank (concat parts) ≡ false
      → is_empty_map (refs_from kind request 0 parts) ≡ false
  is_empty_map-refs_from [] h = absurd (ground (arith, h))
  is_empty_map-refs_from (p ∷ parts) h = refl

  -- all chunks are found again
  gather-put_chunks :
      (parts : List Str) (w : World)
      → gather
          (length (put_chunks kind request 0 parts w).1)
          0
          (put_chunks kind request 0 parts w).1
          (put_chunks kind request 0 parts w).0
        ≡ concat parts
  gather-put_chunks parts w = rw (put_chunks-refs kind request 0 parts w) (
      gather-Holds kind request (length (refs_from kind request 0 parts)) 0 parts
        (refs_from kind request 0 parts) (put_chunks kind request 0 parts w).0
        (ground (arith, length-refs_from 0 parts)) (put_chunks-Holds kind request 0 parts w)
        (λ j k. ground (arith, chunk_at-refs_from kind request 0 j parts)))

  is_empty_map-put_chunks :
      (parts : List Str) (w : World)
      → is_blank (concat parts) ≡ false
      → is_empty_map (put_chunks kind request 0 parts w).1 ≡ false
  is_empty_map-put_chunks parts w h =
      ap is_empty_map (put_chunks-refs kind request 0 parts w) ∙ is_empty_map-refs_from parts h

-- The reference to the session of a token is its own.
abbrev pub IsPrimary : Kind → SessionData → Type 0
IsPrimary kind sd = (primary_of kind sd).name ≡ primary kind

length-drop_all :
    (kind : Kind) (sd : SessionData) (m : List (ℕ × Ref))
    → chunks_of kind (with_chunks kind m sd) ≡ m
length-drop_all access sd m = refl
length-drop_all refresh sd m = refl

pub primary_of-with_chunks :
    (kind : Kind) (sd : SessionData) (m : List (ℕ × Ref))
    → primary_of kind (with_chunks kind m sd) ≡ primary_of kind sd
primary_of-with_chunks access sd m = refl
primary_of-with_chunks refresh sd m = refl

module _ (z : Codec) (laws : IsCodec z) where
  get_token-small :
      (kind : Kind) (c : Str) (sd : SessionData) (w : World)
      → IsPrimary kind sd
      → is_blank c ≡ false
      → leb (length c) max_cookie_size ≡ true
      → get_token kind z (store_token kind c sd w).1 (store_token kind c sd w).0
        ≡ decompress_token z c
  unfolding get_token store_token
  get_token-small access c sd w h k l = rw (l, ref_eq_refl sd.access, k) refl
  get_token-small refresh c sd w h k l = rw (l, ref_eq_refl sd.refresh, k) refl

  get_token-chunked :
      (kind : Kind) (c : Str) (sd : SessionData) (w : World)
      → IsPrimary kind sd
      → is_blank c ≡ false
      → leb (length c) max_cookie_size ≡ false
      → get_token kind z (store_token kind c sd w).1 (store_token kind c sd w).0
        ≡ decompress_token z c
  unfolding get_token store_token
  get_token-chunked kind c sd w h k l =
      let parts = split_into_chunks c max_cookie_size in
      let w' =
        write_values (primary_of kind sd)
          (λ v. record v { token = some (str []); compressed = some (bool true) }) w in
      let joined = (split_into_chunks_lem c max_cookie_size (omega arith)).0 in
      let other = put_chunks-other kind (owner sd) 0 parts w' (primary_of kind sd) (λ j k.
        ap (λ (n : Name). (primary_of kind sd).request == owner sd && name_eq n (chunk kind j)) h
        ∙ ground arith) in
      rw
        (
          l,
          primary_of-with_chunks,
          length-drop_all,
          other,
          ref_eq_refl (primary_of kind sd),
          gather-put_chunks kind (owner sd) parts w',
          is_empty_map-put_chunks kind (owner sd) parts w' (ap is_blank joined ∙ k),
          joined,
        )
        refl

  -- A token that is set is the token that is read, whatever its length, for the access and the
  -- refresh token alike: through the compression, and through the chunks when the compressed token
  -- is longer than a cookie holds. The libraries behave as `IsCodec` says, and the session's own
  -- reference is that of the kind.
  pub get_token-set_token :
      (kind : Kind) (st : Store) (token : Str) (sd : SessionData) (w : World)
      → IsPrimary kind sd
      → get_token kind z (set_token kind z st token sd w).1 (set_token kind z st token sd w).0
        ≡ token
  unfolding set_token
  get_token-set_token kind st token sd w h =
      let c = compress_token z token in
      let w' =
        (if is_some sd.request then expire_chunks kind st (owner sd) st.cookie_count 0 w else w) in
      elim (Bool-cases (leb (length c) max_cookie_size)) [
        | inl p ↦ get_token-small kind c sd w' h (compress_token-is_blank z laws token) p
        | inr p ↦ get_token-chunked kind c sd w' h (compress_token-is_blank z laws token) p
      ]
      ∙ decompress_token-compress_token z laws token
