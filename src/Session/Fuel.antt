-- ===== src/Session/Fuel.antt =====
-- The loops over chunk cookies and over the bytes of a token end (session.go).
use traefikoidc.Base.{
  ℕ, zero, suc, ◌+◌, ◌≤◌, ◌<◌, ◌≡◌, ◌∙◌, ap, refl, sym, subst, true, ◌||◌, [], ◌∷◌, arith, inl, inr,
  Bool-cases, length, drop, length-drop,
}
use traefikoidc.Base.Text.{Str}
use traefikoidc.Session.{Kind, chunk, Ref, World, Store, object, write, expire, ref_eq}
use traefikoidc.Session.Chunks.{chunk_ref}
use traefikoidc.Session.Manager.{load_chunks, token_chunk_sessions}
use traefikoidc.Session.Token.{expire_chunks, split_from, split_into_chunks}

-- the request has no usable chunk with this number: the test on which the loops end
abbrev pub IsAbsent : Kind → Store → ℕ → World → ℕ → Type 0
IsAbsent kind st request w i =
    (st.load_fails (chunk kind i) || (object w (chunk_ref kind request i)).is_new) ≡ true

module _ (kind : Kind) (st : Store) (request : ℕ) where
  load_chunks-absent :
      (fuel i : ℕ) (w : World)
      → IsAbsent kind st request w i
      → load_chunks kind st request fuel i w ≡ []
  unfolding load_chunks
  load_chunks-absent zero i w h = refl
  load_chunks-absent (suc fuel) i w h = rw (load_chunks, h) refl

  load_chunks-enough :
      (j fuel more i : ℕ) (w : World)
      → IsAbsent kind st request w (i + j)
      → j ≤ fuel
      → load_chunks kind st request (fuel + more) i w ≡ load_chunks kind st request fuel i w
  unfolding load_chunks
  load_chunks-enough zero fuel more i w h l =
      let h' = subst (λ n. IsAbsent kind st request w n) (omega arith) h in
      load_chunks-absent (fuel + more) i w h' ∙ sym (load_chunks-absent fuel i w h')
  load_chunks-enough (suc j) zero more i w h l = absurd (omega arith)
  load_chunks-enough (suc j) (suc fuel) more i w h l =
      let e : suc fuel + more ≡ suc (fuel + more) = omega arith in
      let less : j ≤ fuel = omega arith in
      let same : i + suc j ≡ i + 1 + j = omega arith in
      let h' = subst (λ n. IsAbsent kind st request w n) same h in
      ap (λ n. load_chunks kind st request n i w) e
      ∙ rw (load_chunks, load_chunks-enough j fuel more (i + 1) w h' less) refl

  expire-IsAbsent :
      (w : World) (r : Ref) (i : ℕ)
      → IsAbsent kind st request w i
      → IsAbsent kind st request (write r expire w) i
  expire-IsAbsent w r i h = elim (Bool-cases (ref_eq (chunk_ref kind request i) r)) [
    | inl p ↦ rw p h
    | inr p ↦ rw p h
  ]

  expire_chunks-absent :
      (fuel i : ℕ) (w : World)
      → IsAbsent kind st request w i
      → expire_chunks kind st request fuel i w ≡ w
  unfolding expire_chunks
  expire_chunks-absent zero i w h = refl
  expire_chunks-absent (suc fuel) i w h = rw (expire_chunks, h) refl

  expire_chunks-enough :
      (j fuel more i : ℕ) (w : World)
      → IsAbsent kind st request w (i + j)
      → j ≤ fuel
      → expire_chunks kind st request (fuel + more) i w ≡ expire_chunks kind st request fuel i w
  unfolding expire_chunks
  expire_chunks-enough zero fuel more i w h l =
      let h' = subst (λ n. IsAbsent kind st request w n) (omega arith) h in
      expire_chunks-absent (fuel + more) i w h' ∙ sym (expire_chunks-absent fuel i w h')
  expire_chunks-enough (suc j) zero more i w h l = absurd (omega arith)
  expire_chunks-enough (suc j) (suc fuel) more i w h l =
      let e : suc fuel + more ≡ suc (fuel + more) = omega arith in
      let w' = write (chunk_ref kind request i) expire w in
      let less : j ≤ fuel = omega arith in
      let same : i + suc j ≡ i + 1 + j = omega arith in
      let h' =
        subst (λ n. IsAbsent kind st request w' n) same
          (expire-IsAbsent w (chunk_ref kind request i) (i + suc j) h) in
      ap (λ n. expire_chunks kind st request n i w) e
      ∙ rw (expire_chunks, expire_chunks-enough j fuel more (i + 1) w' h' less) refl

  -- The loops over the chunk cookies of a request end by themselves: where some chunk number up to the
  -- number of the request's cookies is not there, more rounds than the model gives them, which is
  -- that number, change neither the chunks that are loaded nor those that are expired.
  pub chunk_loops-enough :
      (j more : ℕ) (w : World)
      → IsAbsent kind st request w j
      → j ≤ st.cookie_count
      → (load_chunks kind st request (st.cookie_count + more) 0 w
          ≡ token_chunk_sessions kind st request w)
        × (expire_chunks kind st request (st.cookie_count + more) 0 w
            ≡ expire_chunks kind st request st.cookie_count 0 w)
  unfolding token_chunk_sessions
  chunk_loops-enough j more w h l =
      let h' = subst (λ n. IsAbsent kind st request w n) (omega arith) h in
      (
        load_chunks-enough j st.cookie_count more 0 w h' l,
        expire_chunks-enough j st.cookie_count more 0 w h' l,
      )

split_from-blank : (fuel size : ℕ) → split_from fuel [] size ≡ []
unfolding split_from
split_from-blank zero size = refl
split_from-blank (suc fuel) size = refl

split_from-enough :
    (fuel more : ℕ) (s : Str) (size : ℕ)
    → 0 < size
    → length s ≤ fuel
    → split_from (fuel + more) s size ≡ split_from fuel s size
unfolding split_from
split_from-enough fuel more [] size h l =
    split_from-blank (fuel + more) size ∙ sym (split_from-blank fuel size)
split_from-enough zero more (b ∷ s) size h l = absurd (omega arith)
split_from-enough (suc fuel) more (b ∷ s) size h l =
    let e : suc fuel + more ≡ suc (fuel + more) = omega arith in
    let shorter = length-drop size (b ∷ s) in
    let less : length (drop size (b ∷ s)) ≤ fuel = omega (arith, shorter) in
    ap (λ n. split_from n (b ∷ s) size) e
    ∙ rw (split_from, split_from-enough fuel more (drop size (b ∷ s)) size h less) refl

-- `splitIntoChunks` ends by itself, for every positive size: more rounds than the model gives it,
-- which is the number of the text's bytes, change nothing.
pub split_into_chunks-enough :
    (more : ℕ) (s : Str) (size : ℕ)
    → 0 < size
    → split_from (length s + more) s size ≡ split_into_chunks s size
unfolding split_into_chunks
split_into_chunks-enough more s size h = split_from-enough (length s) more s size h (omega arith)
