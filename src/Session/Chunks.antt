-- ===== src/Session/Chunks.antt =====
-- Splitting a token into chunks, and finding the chunks again (session.go).
use traefikoidc.Base.{
  ℕ, zero, suc, ◌+◌, ◌≤◌, ◌<◌, ◌≡◌, refl, ◌∙◌, ap, false, ◌&&◌, none, some, List, [], ◌∷◌, ◌++◌,
  arith, ==_iff, ltb, leb, if◌then◌else◌, length, take, drop, All, take-append-drop, length-take-le,
  length-drop, Bool-cases, inl, inr, append-nil,
}
use traefikoidc.Base.Text.{Str, is_blank}
use traefikoidc.Session.{kind_eq_refl, Kind, chunk, Ref, World, object, string_of, ref_eq}
use traefikoidc.Session.Token.{split_from, split_into_chunks, chunk_at, gather, put_chunks}

-- the parts of a text, put together again
abbrev pub concat : List Str → Str
concat [] = []
concat (p ∷ parts) = p ++ concat parts

concat-split_from :
    (fuel : ℕ) (s : Str) (size : ℕ)
    → 0 < size
    → length s ≤ fuel
    → concat (split_from fuel s size) ≡ s
unfolding split_from
concat-split_from zero [] size h k = refl
concat-split_from zero (c ∷ s) size h k = absurd (omega arith)
concat-split_from (suc fuel) [] size h k = refl
concat-split_from (suc fuel) (c ∷ s) size h k = elim (Bool-cases (leb (length (c ∷ s)) size)) [
  | inl p ↦ rw p (append-nil (c ∷ s))
  | inr p ↦ rw p (
      ap (◌++◌ (take size (c ∷ s))) (
        concat-split_from fuel (drop size (c ∷ s)) size h
          (ground (arith, length-drop size (c ∷ s))))
      ∙ take-append-drop size (c ∷ s))
]

abbrev pub IsChunk : ℕ → Str → Type 0
IsChunk size part = (is_blank part ≡ false) × (length part ≤ size)

take-IsChunk : (size : ℕ) (s : Str) → 0 < size → is_blank s ≡ false → IsChunk size (take size s)
take-IsChunk zero s h k = absurd (omega arith)
take-IsChunk (suc n) [] h k = absurd (ground arith)
take-IsChunk (suc n) (c ∷ s) h k = (refl, length-take-le (suc n) (c ∷ s))

split_from-IsChunk :
    (fuel : ℕ) (s : Str) (size : ℕ) → 0 < size → All (IsChunk size) (split_from fuel s size)
unfolding split_from
split_from-IsChunk zero s size h = tt
split_from-IsChunk (suc fuel) [] size h = tt
split_from-IsChunk (suc fuel) (c ∷ s) size h = elim (Bool-cases (leb (length (c ∷ s)) size)) [
  | inl p ↦ rw p ((refl, ground arith), tt)
  | inr p ↦
      rw p (take-IsChunk size (c ∷ s) h refl, split_from-IsChunk fuel (drop size (c ∷ s)) size h)
]

-- `splitIntoChunks` loses nothing, and every chunk is non-empty and at most `size` long, for every
-- positive size.
pub split_into_chunks_lem :
    (s : Str) (size : ℕ)
    → 0 < size
    → (concat (split_into_chunks s size) ≡ s) × All (IsChunk size) (split_into_chunks s size)
unfolding split_into_chunks
split_into_chunks_lem s size h =
    (concat-split_from (length s) s size h (omega arith), split_from-IsChunk (length s) s size h)

-- the reference to a chunk
abbrev pub chunk_ref : Kind → ℕ → ℕ → Ref
chunk_ref kind request i = record { request = request; name = chunk kind i }

-- the map of the chunks from index `i` on
abbrev pub refs_from : Kind → ℕ → ℕ → List Str → List (ℕ × Ref)
refs_from kind request i [] = []
refs_from kind request i (p ∷ parts) =
    (i, chunk_ref kind request i) ∷ refs_from kind request (i + 1) parts

module _ (kind : Kind) (request : ℕ) where
  pub put_chunks-refs :
      (i : ℕ) (parts : List Str) (w : World)
      → (put_chunks kind request i parts w).1 ≡ refs_from kind request i parts
  unfolding put_chunks
  put_chunks-refs i [] w = refl
  put_chunks-refs i (p ∷ parts) w =
      ap (◌∷◌ (i, chunk_ref kind request i)) (put_chunks-refs (i + 1) parts _)

  -- Chunks are written at their own references only.
  pub put_chunks-other :
      (i : ℕ) (parts : List Str) (w : World) (r : Ref)
      → ((j : ℕ) → i ≤ j → ref_eq r (chunk_ref kind request j) ≡ false)
      → object (put_chunks kind request i parts w).0 r ≡ object w r
  unfolding put_chunks
  put_chunks-other i [] w r h = refl
  put_chunks-other i (p ∷ parts) w r h =
      put_chunks-other (i + 1) parts _ r (λ j k. h j (omega arith)) ∙ rw (h i (omega arith))

  -- The chunks are found under the indices from `i` on.
  unfoldable pub Holds : World → ℕ → List Str → Type 0
  Holds w i [] = Unit
  Holds w i (p ∷ parts) =
      (string_of (object w (chunk_ref kind request i)).values.token_chunk ≡ p)
      × Holds w (i + 1) parts

  pub put_chunks-Holds :
      (i : ℕ) (parts : List Str) (w : World) → Holds (put_chunks kind request i parts w).0 i parts
  unfolding put_chunks Holds
  put_chunks-Holds i [] w = tt
  put_chunks-Holds i (p ∷ parts) w = (
    ap (λ s. string_of s.values.token_chunk)
          (put_chunks-other (i + 1) parts _ (chunk_ref kind request i)
            (λ j h. ground (arith, ==_iff i j)))
        ∙ ground (arith, ==_iff request request, ==_iff i i, kind_eq_refl kind),
    put_chunks-Holds (i + 1) parts _,
  )

  pub chunk_at-refs_from :
      (i j : ℕ) (parts : List Str)
      → chunk_at j (refs_from kind request i parts)
        ≡ (if leb i j && ltb j (i + length parts) then some (chunk_ref kind request j) else none)
  unfolding chunk_at
  chunk_at-refs_from i j [] = ground arith
  chunk_at-refs_from i j (p ∷ parts) =
      ground (arith, chunk_at-refs_from (i + 1) j parts, ==_iff i j)

  pub gather-Holds :
      (fuel i : ℕ) (parts : List Str) (m : List (ℕ × Ref)) (w : World)
      → length parts ≤ fuel
      → Holds w i parts
      → ((j : ℕ)
          → i ≤ j
          → chunk_at j m
            ≡ (if ltb j (i + length parts) then some (chunk_ref kind request j) else none))
      → gather fuel i m w ≡ concat parts
  unfolding gather Holds
  gather-Holds zero i [] m w h holds at = refl
  gather-Holds zero i (p ∷ parts) m w h holds at = absurd (omega arith)
  gather-Holds (suc fuel) i [] m w h holds at = ground (arith, at i (omega arith))
  gather-Holds (suc fuel) i (p ∷ parts) m w h holds at = ground (
    arith,
    at i (omega arith),
    holds.0,
    gather-Holds fuel (i + 1) parts m w (omega arith) holds.1
        (λ j k. ground (arith, at j (omega arith))),
  )
