-- ===== src/Session/Next.antt =====
-- What the next request of a browser finds of a session that has been saved (session.go).
use traefikoidc.Base.{
  ℕ, zero, suc, ◌+◌, ◌≤◌, ◌<◌, ◌≡◌, refl, ◌∙◌, sym, subst, true, false, ◌&&◌, none, some, List, [],
  ◌∷◌, Bool-cases, inl, inr, arith, ==_iff, ◌==◌, length, ltb, leb,
}
use traefikoidc.Base.Int.{pos, before}
use traefikoidc.Base.Text.{Str}
use traefikoidc.Session.{Kind, Name, chunk, World, Store, SetCookie, Options, object}
use traefikoidc.Session.{string_of}
use traefikoidc.Base.{◌++◌}
use traefikoidc.Session.Chunks.{Holds, refs_from, chunk_ref, chunk_at-refs_from}
use traefikoidc.Session.Manager.{load_chunks}
use traefikoidc.Session.Sent.{last_cookie, own, Sends}
use traefikoidc.Session.Token.{gather}

-- What is known of a browser and of the cookie store: the next request brings back each cookie that
-- counts, unless it has expired, and the cookies of all other names as the last request had them.
-- `start` is the world in which that request began.
pub record IsNext (start : World) (request : ℕ) (written : List SetCookie) (later : World)
    (next : ℕ) : Type 0 where
  pub brings :
      (n : Name) (c : SetCookie)
      → last_cookie n written ≡ some c
      → before c.options.max_age (pos 0) ≡ false
      → ((object later (own next n)).values ≡ c.values)
        × ((object later (own next n)).is_new ≡ false)
  pub keeps :
      (n : Name)
      → last_cookie n written ≡ none
      → ((object later (own next n)).values ≡ (object start (own request n)).values)
        × ((object later (own next n)).is_new ≡ (object start (own request n)).is_new)

-- The session of a name is the same in two requests, and the later one has its cookie.
pub record Survives (w : World) (request : ℕ) (later : World) (next : ℕ) (n : Name) : Type 0 where
  pub values : (object later (own next n)).values ≡ (object w (own request n)).values
  pub comes : (object later (own next n)).is_new ≡ false

pub Sends-Survives :
    (o : Options) (request next : ℕ) (start w later : World) (n : Name)
    → before o.max_age (pos 0) ≡ false
    → Sends o request w n
    → IsNext start request w.cookies later next
    → Survives w request later next n
Sends-Survives o request next start w later n live (c, counts, options, values) next_ =
    let (a, b) =
      next_.brings n c counts
        (subst (λ (x : Options). before x.max_age (pos 0) ≡ false) (sym options) live) in
    record { values = a ∙ values; comes = b }

module _ (kind : Kind) (w : World) (request : ℕ) (later : World) (next : ℕ) where
  -- the chunks with these numbers are the same in both requests
  abbrev pub SurviveFrom : ℕ → List Str → Type 0
  SurviveFrom i [] = Unit
  SurviveFrom i (p ∷ parts) =
      Survives w request later next (chunk kind i) × SurviveFrom (i + 1) parts

  -- the chunks with these numbers come with the later request
  abbrev pub ComeFrom : ℕ → List Str → Type 0
  ComeFrom i [] = Unit
  ComeFrom i (p ∷ parts) =
      ((object later (chunk_ref kind next i)).is_new ≡ false) × ComeFrom (i + 1) parts

  pub SurviveFrom-ComeFrom : (i : ℕ) (parts : List Str) → SurviveFrom i parts → ComeFrom i parts
  SurviveFrom-ComeFrom i [] s = tt
  SurviveFrom-ComeFrom i (p ∷ parts) s = (s.0.comes, SurviveFrom-ComeFrom (i + 1) parts s.1)

  pub ComeFrom-snoc :
      (i : ℕ) (parts : List Str) (q : Str)
      → ComeFrom i parts
      → (object later (chunk_ref kind next (i + length parts))).is_new ≡ false
      → ComeFrom i (parts ++ q ∷ [])
  ComeFrom-snoc i [] q s h =
      (subst (λ j. (object later (chunk_ref kind next j)).is_new ≡ false) (omega arith) h, tt)
  ComeFrom-snoc i (p ∷ parts) q s h =
      let e : i + suc (length parts) ≡ i + 1 + length parts = omega arith in
      (
        s.0,
        ComeFrom-snoc (i + 1) parts q s.1
            (subst (λ j. (object later (chunk_ref kind next j)).is_new ≡ false) e h),
      )

  -- what a later request finds in the chunks
  pub SurviveFrom-Holds :
      (i : ℕ) (parts : List Str)
      → SurviveFrom i parts
      → Holds kind request w i parts
      → Holds kind next later i parts
  unfolding Holds
  SurviveFrom-Holds i [] s h = tt
  SurviveFrom-Holds i (p ∷ parts) s h =
      (rw (s.0.values) h.0, SurviveFrom-Holds (i + 1) parts s.1 h.1)

  pub Holds-snoc :
      (i : ℕ) (parts : List Str) (q : Str)
      → Holds kind next later i parts
      → string_of (object later (chunk_ref kind next (i + length parts))).values.token_chunk ≡ q
      → Holds kind next later i (parts ++ q ∷ [])
  unfolding Holds
  Holds-snoc i [] q s h = (
    subst (λ j. string_of (object later (chunk_ref kind next j)).values.token_chunk ≡ q)
        (omega arith) h,
    tt,
  )
  Holds-snoc i (p ∷ parts) q s h =
      let e : i + suc (length parts) ≡ i + 1 + length parts = omega arith in
      (
        s.0,
        Holds-snoc (i + 1) parts q s.1 (
            subst (λ j. string_of (object later (chunk_ref kind next j)).values.token_chunk ≡ q) e
              h),
      )

  pub load_chunks-refs_from :
      (st : Store) (fuel i : ℕ) (parts : List Str)
      → ((n : Name) → st.load_fails n ≡ false)
      → ComeFrom i parts
      → (object later (chunk_ref kind next (i + length parts))).is_new ≡ true
      → length parts < fuel
      → load_chunks kind st next fuel i later ≡ refs_from kind next i parts
  unfolding load_chunks
  load_chunks-refs_from st zero i parts h s k l = absurd (omega arith)
  load_chunks-refs_from st (suc fuel) i [] h s k l =
      let e : i + 0 ≡ i = omega arith in
      rw
        (
          load_chunks,
          h (chunk kind i),
          subst (λ j. (object later (chunk_ref kind next j)).is_new ≡ true) e k,
        )
        refl
  load_chunks-refs_from st (suc fuel) i (p ∷ parts) h s k l =
      let e : i + suc (length parts) ≡ i + 1 + length parts = omega arith in
      rw
        (
          load_chunks,
          h (chunk kind i),
          s.0,
          load_chunks-refs_from st fuel (i + 1) parts h s.1
              (subst (λ j. (object later (chunk_ref kind next j)).is_new ≡ true) e k) (omega arith),
        )
        refl

  SurviveFrom-at :
      (i j : ℕ) (parts : List Str)
      → SurviveFrom i parts
      → i ≤ j
      → j < i + length parts
      → Survives w request later next (chunk kind j)
  SurviveFrom-at i j [] s h k = absurd (omega arith)
  SurviveFrom-at i j (p ∷ parts) s h k = elim (Bool-cases (i == j)) [
    | inl e ↦ subst (λ m. Survives w request later next (chunk kind m)) ((==_iff i j).0 e) s.0
    | inr e ↦ SurviveFrom-at (i + 1) j parts s.1 (ground arith) (ground arith)
  ]

  pub gather-Survives :
      (fuel i : ℕ) (parts : List Str)
      → SurviveFrom 0 parts
      → gather fuel i (refs_from kind next 0 parts) later
        ≡ gather fuel i (refs_from kind request 0 parts) w
  unfolding gather
  gather-Survives zero i parts s = refl
  gather-Survives (suc fuel) i parts s = elim (Bool-cases (leb 0 i && ltb i (0 + length parts))) [
    | inl p ↦
        let t = SurviveFrom-at 0 i parts s (ground arith) (ground arith) in
        rw
          (
            gather,
            chunk_at-refs_from kind next 0 i parts,
            chunk_at-refs_from kind request 0 i parts,
            p,
            t.values,
            gather-Survives fuel (i + 1) parts s,
          )
          refl
    | inr p ↦
        rw
          (
            gather,
            chunk_at-refs_from kind next 0 i parts,
            chunk_at-refs_from kind request 0 i parts,
            p,
          )
          refl
  ]
