-- ===== src/Session/Survival.antt =====
-- A saved session is what the browser's next request finds (session.go).
use traefikoidc.Base.{
  ℕ, ◌+◌, ◌≤◌, ◌≡◌, refl, ◌∙◌, sym, subst, Bool, true, false, List, [], ◌∷◌, Bool-cases, inl, inr,
  All, arith, length,
}
use traefikoidc.Base.Int.{pos, before}
use traefikoidc.Base.Text.{Str}
use traefikoidc.Session.{
  Kind, access, refresh, Name, main, primary, chunk, Ref, World, Store, SessionData, kind_eq,
  name_eq, Options, object, primary_of, chunks_of,
}
use traefikoidc.Session.Chunks.{refs_from}
use traefikoidc.Session.Sent.{
  All-append, All-split, AreOwn, AreOfRequest, names_of, all_names, save-Sent, own, Sends,
}
use traefikoidc.Session.Token.{Codec, get_token, is_empty_map}
use traefikoidc.Session.Next.{IsNext, Survives, Sends-Survives, SurviveFrom, gather-Survives}
use traefikoidc.Session.RoundTrip.{length-refs_from}
use traefikoidc.Session.Expiry.{saved_options}
use traefikoidc.Session.Manager.{save, session_options}
use traefikoidc.Error.{ok}

-- The session data of one request, whose chunks have the indices from 0 on, one for each part.
pub record IsRegular (request : ℕ) (parts : Kind → List Str) (sd : SessionData) : Type 0 where
  pub main_own : sd.main ≡ own request main
  pub primary_own : (kind : Kind) → primary_of kind sd ≡ own request (primary kind)
  pub numbered : (kind : Kind) → chunks_of kind sd ≡ refs_from kind request 0 (parts kind)

refs_from-AreOwn :
    (kind : Kind) (request i : ℕ) (parts : List Str)
    → AreOwn request (refs_from kind request i parts)
refs_from-AreOwn kind request i [] = tt
refs_from-AreOwn kind request i (p ∷ parts) = (refl, refs_from-AreOwn kind request (i + 1) parts)

own-ap : (request : ℕ) (n : Name) (r : Ref) → r ≡ own request n → r ≡ own request r.name
own-ap request n r h = subst (λ (q : Ref). q ≡ own request q.name) (sym h) refl

pub IsRegular-AreOfRequest :
    (request : ℕ) (parts : Kind → List Str) (sd : SessionData)
    → IsRegular request parts sd
    → AreOfRequest request sd
IsRegular-AreOfRequest request parts sd h = record {
  main_own = own-ap request main sd.main h.main_own;
  access_own = own-ap request (primary access) sd.access (h.primary_own access);
  refresh_own = own-ap request (primary refresh) sd.refresh (h.primary_own refresh);
  access_parts =
      subst (AreOwn request) (sym (h.numbered access))
        (refs_from-AreOwn access request 0 (parts access));
  refresh_parts =
      subst (AreOwn request) (sym (h.numbered refresh))
        (refs_from-AreOwn refresh request 0 (parts refresh));
}

-- no chunk of these is the one with the number after the last
refs_from-name_eq :
    (kind other : Kind) (request i k : ℕ) (parts : List Str)
    → (kind_eq other kind ≡ true → i + length parts ≤ k)
    → All (λ n. name_eq n (chunk kind k) ≡ false) (names_of (refs_from other request i parts))
refs_from-name_eq kind other request i k [] h = tt
refs_from-name_eq kind other request i k (p ∷ parts) h = elim (Bool-cases (kind_eq other kind)) [
  | inl e ↦ (
    let l = h e in rw e (ground arith),
    refs_from-name_eq kind other request (i + 1) k parts (λ q. let l = h q in omega arith),
  )
  | inr e ↦ (
    rw e refl,
    refs_from-name_eq kind other request (i + 1) k parts (λ q. absurd (ground (arith, q, e))),
  )
]

kind_eq-parts :
    (other kind : Kind) (parts : Kind → List Str)
    → kind_eq other kind ≡ true
    → 0 + length (parts other) ≤ length (parts kind)
kind_eq-parts access access parts h = omega arith
kind_eq-parts refresh refresh parts h = omega arith
kind_eq-parts access refresh parts h = absurd (ground arith)
kind_eq-parts refresh access parts h = absurd (ground arith)

-- a chunk that the data does not have is not among the sessions that are saved
pub fresh_chunk :
    (kind : Kind) (request : ℕ) (parts : Kind → List Str) (sd : SessionData)
    → IsRegular request parts sd
    → (k : ℕ) → length (parts kind) ≤ k
    → All (λ n. name_eq n (chunk kind k) ≡ false) (all_names sd)
fresh_chunk kind request parts sd h k l =
    let P = λ (n : Name). name_eq n (chunk kind k) ≡ false in
    (
      rw h.main_own refl,
      (
        rw (h.primary_own access) refl,
        (
          rw (h.primary_own refresh) refl,
          All-append P (names_of sd.access_chunks) (names_of sd.refresh_chunks)
              (rw (h.numbered access) (
                refs_from-name_eq kind access request 0 k (parts access)
                  (λ q. let m = kind_eq-parts access kind parts q in omega arith)))
              (rw (h.numbered refresh) (
                refs_from-name_eq kind refresh request 0 k (parts refresh)
                  (λ q. let m = kind_eq-parts refresh kind parts q in omega arith))),
        ),
      ),
    )

Survives-before :
    (request next : ℕ) (w w' later : World) (n : Name)
    → ((r : Ref) → (object w' r).values ≡ (object w r).values)
    → Survives w' request later next n
    → Survives w request later next n
Survives-before request next w w' later n same s = record {
  values = s.values ∙ same (own request n);
  comes = s.comes;
}

SurviveFrom-before :
    (kind : Kind) (request next : ℕ) (w w' later : World) (i : ℕ) (parts : List Str)
    → ((r : Ref) → (object w' r).values ≡ (object w r).values)
    → SurviveFrom kind w' request later next i parts
    → SurviveFrom kind w request later next i parts
SurviveFrom-before kind request next w w' later i [] same s = tt
SurviveFrom-before kind request next w w' later i (p ∷ parts) same s = (
  Survives-before request next w w' later (chunk kind i) same s.0,
  SurviveFrom-before kind request next w w' later (i + 1) parts same s.1,
)

Sends-SurviveFrom :
    (o : Options) (kind : Kind) (request next : ℕ) (start w later : World) (i : ℕ)
    (parts : List Str)
    → before o.max_age (pos 0) ≡ false
    → IsNext start request w.cookies later next
    → All (Sends o request w) (names_of (refs_from kind request i parts))
    → SurviveFrom kind w request later next i parts
Sends-SurviveFrom o kind request next start w later i [] live n h = tt
Sends-SurviveFrom o kind request next start w later i (p ∷ parts) live n h = (
  Sends-Survives o request next start w later (chunk kind i) live h.0 n,
  Sends-SurviveFrom o kind request next start w later (i + 1) parts live n h.1,
)

-- what a successful save sends, name by name
module _ (o : Options) (request : ℕ) (parts : Kind → List Str) (sd : SessionData) (w : World)
    (h : IsRegular request parts sd) (s : All (Sends o request w) (all_names sd)) where
  main_sent : Sends o request w main
  main_sent = subst (λ (r : Ref). Sends o request w r.name) h.main_own s.0

  primary_sent : (kind : Kind) → Sends o request w (primary kind)
  primary_sent access = subst (λ (r : Ref). Sends o request w r.name) (h.primary_own access) s.1.0
  primary_sent refresh =
      subst (λ (r : Ref). Sends o request w r.name) (h.primary_own refresh) s.1.1.0

  chunks_sent :
      (kind : Kind) → All (Sends o request w) (names_of (refs_from kind request 0 (parts kind)))
  chunks_sent kind =
      let (a, b) =
        All-split (Sends o request w) (names_of sd.access_chunks) (names_of sd.refresh_chunks)
          s.1.1.1 in
      elim kind as (λ k. All (Sends o request w) (names_of (refs_from k request 0 (parts k)))) [
        | access ↦ subst (λ m. All (Sends o request w) (names_of m)) (h.numbered access) a
        | refresh ↦ subst (λ m. All (Sends o request w) (names_of m)) (h.numbered refresh) b
      ]

is_empty_map-refs_from :
    (kind : Kind) (next request : ℕ) (parts : List Str)
    → is_empty_map (refs_from kind next 0 parts) ≡ is_empty_map (refs_from kind request 0 parts)
is_empty_map-refs_from kind next request [] = refl
is_empty_map-refs_from kind next request (p ∷ parts) = refl

pub get_token-Survives :
    (kind : Kind) (z : Codec) (request next : ℕ) (w later : World) (parts : Kind → List Str)
    (sd sd' : SessionData)
    → IsRegular request parts sd
    → IsRegular next parts sd'
    → Survives w request later next (primary kind)
    → SurviveFrom kind w request later next 0 (parts kind)
    → get_token kind z sd' later ≡ get_token kind z sd w
unfolding get_token
get_token-Survives kind z request next w later parts sd sd' h h' p c =
    rw
      (
        h.primary_own kind,
        h'.primary_own kind,
        h.numbered kind,
        h'.numbered kind,
        p.values,
        is_empty_map-refs_from kind next request (parts kind),
        length-refs_from kind next 0 (parts kind),
        length-refs_from kind request 0 (parts kind),
        gather-Survives kind w request later next (length (parts kind)) 0 (parts kind) c,
      )
      refl

-- A session that survives a successful `Save`: the main session, the two token sessions and every
-- chunk hold in the next request what they held when the session was saved.
pub saved-Survives :
    (st : Store) (force_https : Bool) (scheme : Str) (request next : ℕ) (start w later : World)
    (parts : Kind → List Str) (sd : SessionData)
    → IsRegular request parts sd
    → (save st force_https scheme sd w).1 ≡ ok tt
    → IsNext start request (save st force_https scheme sd w).0.cookies later next
    → Survives w request later next main
      × ((kind : Kind)
          → Survives w request later next (primary kind)
            × SurviveFrom kind w request later next 0 (parts kind))
unfolding session_options
saved-Survives st force_https scheme request next start w later parts sd h k n =
    let o = saved_options force_https scheme in
    let w' = (save st force_https scheme sd w).0 in
    let sent =
      save-Sent request st force_https scheme sd w (IsRegular-AreOfRequest request parts sd h) k in
    (
      Survives-before request next w w' later main sent.same (
          Sends-Survives o request next start w' later main refl
            (main_sent o request parts sd w' h sent.sends) n),
      λ kind. (
        Survives-before request next w w' later (primary kind) sent.same (
            Sends-Survives o request next start w' later (primary kind) refl
              (primary_sent o request parts sd w' h sent.sends kind) n),
        SurviveFrom-before kind request next w w' later 0 (parts kind) sent.same (
            Sends-SurviveFrom o kind request next start w' later 0 (parts kind) refl n
              (chunks_sent o request parts sd w' h sent.sends kind)),
      ),
    )
