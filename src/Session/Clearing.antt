-- ===== src/Session/Clearing.antt =====
-- What `Clear` leaves of a session, and what it sends (session.go).
use traefikoidc.Base.{
  ℕ, zero, suc, ◌+◌, ◌≡◌, refl, ◌∙◌, ap, Bool, false, none, some, List, [], ◌∷◌, ◌⊎◌, ◌==◌, length,
  Bool-cases, inl, inr, All,
}
use traefikoidc.Base.Int.{ℤ, pos}
use traefikoidc.Base.Text.{Str}
use traefikoidc.Session.{
  ref_eq_refl, Kind, access, refresh, Ref, World, Values, Store, SetCookie, SessionData, Options,
  object, write, expire, no_values, ref_eq, primary_of, chunks_of,
}
use traefikoidc.Session.Token.{Codec, get_token, gather, chunk_at, is_empty_map}
use traefikoidc.Session.Manager.{
  save, session_options, clear_token_chunks, clear_values, clear, get_authenticated,
}
use traefikoidc.Session.Expiry.{FitAll, FitsData, IsSaved, FitAll-map, saved_options, save-Keeps}

abbrev pub IsEmptied : Values → Type 0
IsEmptied v = v ≡ no_values

-- the session behind a reference is emptied
abbrev Gone : World → Ref → Type 0
Gone w r = IsEmptied (object w r).values

write-Gone : (r q : Ref) (w : World) → Gone w q → Gone (write r expire w) q
write-Gone r q w h = elim (Bool-cases (ref_eq q r)) [ inl p ↦ rw p refl | inr p ↦ rw p h ]

write-own : (r : Ref) (w : World) → Gone (write r expire w) r
write-own r w = rw (ref_eq_refl r) refl

clear_token_chunks-Gone :
    (m : List (ℕ × Ref)) (q : Ref) (w : World) → Gone w q → Gone (clear_token_chunks m w) q
unfolding clear_token_chunks
clear_token_chunks-Gone [] q w h = h
clear_token_chunks-Gone ((i, r) ∷ m) q w h =
    clear_token_chunks-Gone m q (write r expire w) (write-Gone r q w h)

clear_token_chunks-FitAll :
    (m : List (ℕ × Ref)) (w : World) → FitAll IsEmptied (clear_token_chunks m w) m
unfolding clear_token_chunks
clear_token_chunks-FitAll [] w = tt
clear_token_chunks-FitAll ((i, r) ∷ m) w = (
  clear_token_chunks-Gone m r (write r expire w) (write-own r w),
  clear_token_chunks-FitAll m (write r expire w),
)

clear_token_chunks-cookies :
    (m : List (ℕ × Ref)) (w : World) → (clear_token_chunks m w).cookies ≡ w.cookies
unfolding clear_token_chunks
clear_token_chunks-cookies [] w = refl
clear_token_chunks-cookies ((i, r) ∷ m) w = clear_token_chunks-cookies m (write r expire w)

map-Gone :
    (m k : List (ℕ × Ref)) (w : World)
    → FitAll IsEmptied w k
    → FitAll IsEmptied (clear_token_chunks m w) k
map-Gone m [] w h = tt
map-Gone m ((i, r) ∷ k) w h = (clear_token_chunks-Gone m r w h.0, map-Gone m k w h.1)

pub clear_values-FitsData :
    (sd : SessionData) (w : World) → FitsData IsEmptied (clear_values sd w) sd
unfolding clear_values
clear_values-FitsData sd w =
    let wm = write sd.main expire w in
    let wa = write sd.access expire wm in
    let wr = write sd.refresh expire wa in
    let keep = λ (q : Ref) (h : Gone wr q).
      clear_token_chunks-Gone sd.refresh_chunks q (clear_token_chunks sd.access_chunks wr)
        (clear_token_chunks-Gone sd.access_chunks q wr h) in
    (
      keep sd.main (
          write-Gone sd.refresh sd.main wa (write-Gone sd.access sd.main wm (write-own sd.main w))),
      keep sd.access (write-Gone sd.refresh sd.access wa (write-own sd.access wm)),
      keep sd.refresh (write-own sd.refresh wa),
      map-Gone sd.refresh_chunks sd.access_chunks (clear_token_chunks sd.access_chunks wr)
          (clear_token_chunks-FitAll sd.access_chunks wr),
      clear_token_chunks-FitAll sd.refresh_chunks (clear_token_chunks sd.access_chunks wr),
    )

clear_values-cookies : (sd : SessionData) (w : World) → (clear_values sd w).cookies ≡ w.cookies
unfolding clear_values
clear_values-cookies sd w =
    clear_token_chunks-cookies sd.refresh_chunks _ ∙ clear_token_chunks-cookies sd.access_chunks _

chunk_at-cases :
    (i : ℕ) (m : List (ℕ × Ref)) (w : World)
    → FitAll IsEmptied w m
    → (chunk_at i m ≡ none) ⊎ ((r : Ref) × (chunk_at i m ≡ some r) × Gone w r)
unfolding chunk_at
chunk_at-cases i [] w h = inl refl
chunk_at-cases i ((j, r) ∷ m) w h = elim (Bool-cases (j == i)) [
  | inl p ↦ inr (r, rw p refl, h.0)
  | inr p ↦ rw p (chunk_at-cases i m w h.1)
]

gather-FitAll :
    (fuel i : ℕ) (m : List (ℕ × Ref)) (w : World) → FitAll IsEmptied w m → gather fuel i m w ≡ []
unfolding gather
gather-FitAll zero i m w h = refl
gather-FitAll (suc fuel) i m w h = elim (chunk_at-cases i m w h) [
  | inl p ↦ rw (gather, p) refl
  | inr (r, p, g) ↦ rw (gather, p, g) (gather-FitAll fuel (i + 1) m w h)
]

get_token-Gone :
    (kind : Kind) (z : Codec) (sd : SessionData) (w : World)
    → Gone w (primary_of kind sd)
    → FitAll IsEmptied w (chunks_of kind sd)
    → get_token kind z sd w ≡ []
unfolding get_token
get_token-Gone kind z sd w h k = elim (Bool-cases (is_empty_map (chunks_of kind sd))) [
  | inl p ↦ rw (h, p) refl
  | inr p ↦ rw (h, p) (gather-FitAll (length (chunks_of kind sd)) 0 (chunks_of kind sd) w k)
]

IsSaved-map :
    (force_https : Bool) (scheme : Str) (cs : List SetCookie)
    → All (IsSaved (saved_options force_https scheme) IsEmptied) cs
    → All (λ (c : SetCookie). (c.options.max_age ≡ pos 86400) × (c.values ≡ no_values)) cs
unfolding session_options
IsSaved-map force_https scheme [] h = tt
IsSaved-map force_https scheme (c ∷ cs) h =
    ((ap (λ (x : Options). x.max_age) h.0.0, h.0.1), IsSaved-map force_https scheme cs h.1)

-- After `Clear`, whether or not its save succeeds, the session is not authenticated, holds no access
-- token and no refresh token, and every cookie that was written on the way is empty, but it lives
-- for the time that `getSessionOptions` gives: no cookie is expired. No cookies have been
-- written before.
pub clear-IsEmptied :
    (now : ℤ) (z : Codec) (st : Store) (force_https : Bool) (scheme : Str) (sd : SessionData)
    (w : World)
    → w.cookies ≡ []
    → (get_authenticated now sd (clear st force_https scheme sd w).0 ≡ false)
      × (get_token access z sd (clear st force_https scheme sd w).0 ≡ [])
      × (get_token refresh z sd (clear st force_https scheme sd w).0 ≡ [])
      × All
          (λ (c : SetCookie). (c.options.max_age ≡ pos 86400) × (c.values ≡ no_values))
          (clear st force_https scheme sd w).0.cookies
unfolding clear get_authenticated
clear-IsEmptied now z st force_https scheme sd w h =
    let w' = clear_values sd w in
    let fits = clear_values-FitsData sd w in
    let o = saved_options force_https scheme in
    let kept =
      save-Keeps IsEmptied st force_https scheme sd w' fits
        (rw (clear_values-cookies sd w, h) tt) in
    let out = (save st force_https scheme sd w').0 in
    (
      rw (kept.fits sd.main fits.0) refl,
      get_token-Gone access z sd out (kept.fits sd.access fits.1)
          (FitAll-map o IsEmptied w' out sd.access_chunks kept.fits fits.3),
      get_token-Gone refresh z sd out (kept.fits sd.refresh fits.2)
          (FitAll-map o IsEmptied w' out sd.refresh_chunks kept.fits fits.4),
      IsSaved-map force_https scheme out.cookies kept.cookies,
    )
