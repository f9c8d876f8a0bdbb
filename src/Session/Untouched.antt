-- ===== src/Session/Untouched.antt =====
-- Setting a token leaves the main session as it is (session.go).
use traefikoidc.Base.{
  ℕ, zero, suc, ◌+◌, ◌≡◌, ◌==◌, ◌&&◌, ◌||◌, refl, ◌∙◌, ap, false, arith, if◌then◌else◌, inl, inr,
  Bool-cases, is_some, length, leb,
}
use traefikoidc.Base.Text.{Str}
use traefikoidc.Session.{
  Kind, access, refresh, main, primary, chunk, Ref, World, Store, object, write, expire,
  SessionData, primary_of, ref_eq, name_eq,
}
use traefikoidc.Session.Chunks.{put_chunks-other, chunk_ref}
use traefikoidc.Session.Token.{
  Codec, compress_token, max_cookie_size, split_into_chunks, set_token, store_token, expire_chunks,
  owner,
}

module _ (kind : Kind) (r : Ref) (named : r.name ≡ main) where
  main-chunk : (request i : ℕ) → ref_eq r (chunk_ref kind request i) ≡ false
  main-chunk request i =
      ap (λ n. r.request == request && name_eq n (chunk kind i)) named ∙ ground arith

  main-primary :
      (sd : SessionData)
      → (primary_of kind sd).name ≡ primary kind
      → ref_eq r (primary_of kind sd) ≡ false
  main-primary sd h =
      ap (λ n. r.request == (primary_of kind sd).request && name_eq n (primary_of kind sd).name)
        named
      ∙ ap (λ n. r.request == (primary_of kind sd).request && name_eq main n) h
      ∙ ground arith

  expire_chunks-main :
      (st : Store) (request fuel i : ℕ) (w : World)
      → object (expire_chunks kind st request fuel i w) r ≡ object w r
  unfolding expire_chunks
  expire_chunks-main st request zero i w = refl
  expire_chunks-main st request (suc fuel) i w =
      let q = chunk_ref kind request i in
      elim (Bool-cases (st.load_fails (chunk kind i) || (object w q).is_new)) [
        | inl p ↦ rw (expire_chunks, p) refl
        | inr p ↦
            rw (expire_chunks, p)
              (expire_chunks-main st request fuel (i + 1) (write q expire w)
                ∙ rw (main-chunk request i) refl)
      ]

  -- the session behind a reference with the name of the main one
  pub set_token-main :
      (z : Codec) (st : Store) (token : Str) (sd : SessionData) (w : World)
      → (primary_of kind sd).name ≡ primary kind
      → object (set_token kind z st token sd w).0 r ≡ object w r
  unfolding set_token store_token
  set_token-main z st token sd w h =
      let c = compress_token z token in
      let w' =
        (if is_some sd.request then expire_chunks kind st (owner sd) st.cookie_count 0 w else w) in
      let expired : object w' r ≡ object w r = elim (Bool-cases (is_some sd.request)) [
        | inl p ↦ rw p (expire_chunks-main st (owner sd) st.cookie_count 0 w)
        | inr p ↦ rw p refl
      ] in
      elim (Bool-cases (leb (length c) max_cookie_size)) [
        | inl p ↦ rw (p, main-primary sd h) expired
        | inr p ↦ rw p (
            put_chunks-other kind (owner sd) 0 (split_into_chunks c max_cookie_size) _ r
              (λ j k. main-chunk (owner sd) j)
            ∙ rw (main-primary sd h) expired)
      ]

-- The references of the data stay.
pub set_token-refs :
    (kind other : Kind) (z : Codec) (st : Store) (token : Str) (sd : SessionData) (w : World)
    → ((set_token kind z st token sd w).1.main ≡ sd.main)
      × (primary_of other (set_token kind z st token sd w).1 ≡ primary_of other sd)
unfolding set_token store_token
set_token-refs access access z st token sd w = ground arith
set_token-refs access refresh z st token sd w = ground arith
set_token-refs refresh access z st token sd w = ground arith
set_token-refs refresh refresh z st token sd w = ground arith
