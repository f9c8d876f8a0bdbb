-- ===== src/Session/Expiry.antt =====
-- The cookies that `Save` and `Clear` write, and what `Clear` leaves (session.go).
use traefikoidc.Base.{ℕ, ◌≡◌, refl, Bool, ◌||◌, List, [], ◌∷◌, ◌++◌, Bool-cases, inl, inr, All}
use traefikoidc.Base.Text.{Str, lit, has_prefix}
use traefikoidc.Error.{Result, ok, fail, check-cases}
use traefikoidc.Session.{
  Ref, World, Values, Store, SetCookie, SessionData, Options, object, ref_eq_refl, write, ref_eq,
}
use traefikoidc.Session.Manager.{
  session_options, set_options, save_session, save_chunks, then_save, save,
}

abbrev pub FitAll : (Values → Type 0) → World → List (ℕ × Ref) → Type 0
FitAll Q w = All (λ (e : ℕ × Ref). Q (object w e.1).values)

module _ (o : Options) (Q : Values → Type 0) where
  -- a session that holds such values, with these options
  abbrev pub Fits : World → Ref → Type 0
  Fits w r = Q (object w r).values

  abbrev pub IsReady : World → Ref → Type 0
  IsReady w r = ((object w r).options ≡ o) × Fits w r

  -- a cookie with these options and such values
  abbrev pub IsSaved : SetCookie → Type 0
  IsSaved c = (c.options ≡ o) × Q c.values

  write-Fits : (r q : Ref) (w : World) → Fits w q → Fits (write r (set_options o) w) q
  write-Fits r q w h = elim (Bool-cases (ref_eq q r)) [ inl p ↦ rw p h | inr p ↦ rw p h ]

  write-IsReady : (r q : Ref) (w : World) → IsReady w q → IsReady (write r (set_options o) w) q
  write-IsReady r q w h = elim (Bool-cases (ref_eq q r)) [
    | inl p ↦ rw p (refl, h.1)
    | inr p ↦ rw p h
  ]

  write-own : (r : Ref) (w : World) → Fits w r → IsReady (write r (set_options o) w) r
  write-own r w h = rw (ref_eq_refl r) (refl, h)

  All-snoc :
      (cs : List SetCookie) (c : SetCookie)
      → All IsSaved cs
      → IsSaved c
      → All IsSaved (cs ++ c ∷ [])
  All-snoc [] c h k = (k, tt)
  All-snoc (d ∷ cs) c h k = (h.0, All-snoc cs c h.1 k)

  -- what every part of `Save` keeps: the cookies are as they should be, and so are the sessions
  pub record Keeps (w w' : World) : Type 0 where
    pub cookies : All IsSaved w'.cookies
    pub ready : (q : Ref) → IsReady w q → IsReady w' q
    pub fits : (q : Ref) → Fits w q → Fits w' q

  pub FitAll-map :
      (w w' : World) (m : List (ℕ × Ref))
      → ((q : Ref) → Fits w q → Fits w' q)
      → FitAll Q w m
      → FitAll Q w' m
  FitAll-map w w' [] f h = tt
  FitAll-map w w' ((i, r) ∷ m) f h = (f r h.0, FitAll-map w w' m f h.1)

  Keeps-trans : (u v w : World) → Keeps u v → Keeps v w → Keeps u w
  Keeps-trans u v w a b = record {
    cookies = b.cookies;
    ready = λ q h. b.ready q (a.ready q h);
    fits = λ q h. b.fits q (a.fits q h);
  }

  write-Keeps : (r : Ref) (w : World) → All IsSaved w.cookies → Keeps w (write r (set_options o) w)
  write-Keeps r w k = record {
    cookies = k;
    ready = λ q h. write-IsReady r q w h;
    fits = λ q h. write-Fits r q w h;
  }

  save_session-Keeps :
      (st : Store) (r : Ref) (w : World)
      → IsReady w r
      → All IsSaved w.cookies
      → Keeps w (save_session st r w).0
  unfolding save_session
  save_session-Keeps st r w h k =
      let s = object w r in
      let cookie : SetCookie = record { name = r.name; values = s.values; options = s.options } in
      elim (Bool-cases (st.save_fails cookie)) [
        | inl p ↦ rw p (record { cookies = k; ready = λ q j. j; fits = λ q j. j })
        | inr p ↦
            rw p (record {
              cookies = All-snoc w.cookies cookie k h;
              ready = λ q j. j;
              fits = λ q j. j;
            })
      ]

  then_save-Keeps :
      (u : World) (x : World × Result (Unit {0})) (k : World → World × Result (Unit {0}))
      → Keeps u x.0
      → ((w : World) → Keeps u w → Keeps w (k w).0)
      → Keeps u (then_save x k).0
  then_save-Keeps u (w, fail e) k h f = h
  then_save-Keeps u (w, ok _) k h f = Keeps-trans u w (k w).0 h (f w h)

  save_chunks-Keeps :
      (st : Store) (m : List (ℕ × Ref)) (w : World)
      → FitAll Q w m
      → All IsSaved w.cookies
      → Keeps w (save_chunks st o m w).0
  unfolding save_chunks
  save_chunks-Keeps st [] w h k = record { cookies = k; ready = λ q j. j; fits = λ q j. j }
  save_chunks-Keeps st ((i, r) ∷ m) w h k =
      let w' = write r (set_options o) w in
      let u = (save_session st r w').0 in
      let b = save_session-Keeps st r w' (write-own r w h.0) k in
      let ab = Keeps-trans w w' u (write-Keeps r w k) b in
      let rest = save_chunks-Keeps st m u (FitAll-map w u m ab.fits h.1) ab.cookies in
      elim (check-cases (save_session st r w').1) [
        | inr (e, p) ↦ rw (save_chunks, p) ab
        | inl p ↦ rw (save_chunks, p) (Keeps-trans w u (save_chunks st o m u).0 ab rest)
      ]

-- every session of the data holds such values
abbrev pub FitsData : (Values → Type 0) → World → SessionData → Type 0
FitsData Q w sd =
    Q (object w sd.main).values
    × Q (object w sd.access).values
    × Q (object w sd.refresh).values
    × FitAll Q w sd.access_chunks
    × FitAll Q w sd.refresh_chunks

-- the options of the cookies that a save writes
abbrev pub saved_options : Bool → Str → Options
saved_options force_https scheme =
    session_options force_https (has_prefix scheme (lit "https") || force_https)

pub save-Keeps :
    (Q : Values → Type 0) (st : Store) (force_https : Bool) (scheme : Str) (sd : SessionData)
    (w : World)
    → FitsData Q w sd
    → All (IsSaved (saved_options force_https scheme) Q) w.cookies
    → Keeps (saved_options force_https scheme) Q w (save st force_https scheme sd w).0
unfolding save
save-Keeps Q st force_https scheme sd w (m, a, r, ac, rc) k =
    let o = saved_options force_https scheme in
    let wm = write sd.main (set_options o) w in
    let wa = write sd.access (set_options o) wm in
    let w₁ = write sd.refresh (set_options o) wa in
    let km = write-Keeps o Q sd.main w k in
    let ka = write-Keeps o Q sd.access wm k in
    let kr = write-Keeps o Q sd.refresh wa k in
    let kall = Keeps-trans o Q w wa w₁ (Keeps-trans o Q w wm wa km ka) kr in
    let t₁ = save_session st sd.main w₁ in
    let t₂ = then_save t₁ (save_session st sd.access) in
    let t₃ = then_save t₂ (save_session st sd.refresh) in
    let t₄ = then_save t₃ (save_chunks st o sd.access_chunks) in
    let t₅ = then_save t₄ (save_chunks st o sd.refresh_chunks) in
    let s₁ =
      save_session-Keeps o Q st sd.main w₁
        (kr.ready sd.main (ka.ready sd.main (write-own o Q sd.main w m))) k in
    let s₂ = then_save-Keeps o Q w₁ t₁ (save_session st sd.access) s₁ (λ v h.
      save_session-Keeps o Q st sd.access v
        (h.ready sd.access (kr.ready sd.access (write-own o Q sd.access wm (km.fits sd.access a))))
        h.cookies) in
    let s₃ = then_save-Keeps o Q w₁ t₂ (save_session st sd.refresh) s₂ (λ v h.
      save_session-Keeps o Q st sd.refresh v
        (h.ready sd.refresh
          (write-own o Q sd.refresh wa (ka.fits sd.refresh (km.fits sd.refresh r))))
        h.cookies) in
    let s₄ = then_save-Keeps o Q w₁ t₃ (save_chunks st o sd.access_chunks) s₃ (λ v h.
      save_chunks-Keeps o Q st sd.access_chunks v
        (FitAll-map o Q w v sd.access_chunks (λ q j. h.fits q (kall.fits q j)) ac) h.cookies) in
    let s₅ = then_save-Keeps o Q w₁ t₄ (save_chunks st o sd.refresh_chunks) s₄ (λ v h.
      save_chunks-Keeps o Q st sd.refresh_chunks v
        (FitAll-map o Q w v sd.refresh_chunks (λ q j. h.fits q (kall.fits q j)) rc) h.cookies) in
    Keeps-trans o Q w w₁ t₅.0 kall s₅

-- Every cookie that `Save` writes has the options of `getSessionOptions`, whether or not the save
-- succeeds, and its values have each property that the values of all of the data's sessions have.
pub save-IsSaved :
    (Q : Values → Type 0) (st : Store) (force_https : Bool) (scheme : Str) (sd : SessionData)
    (w : World)
    → FitsData Q w sd
    → All (IsSaved (saved_options force_https scheme) Q) w.cookies
    → All (IsSaved (saved_options force_https scheme) Q) (save st force_https scheme sd w).0.cookies
save-IsSaved Q st force_https scheme sd w h k =
    (save-Keeps Q st force_https scheme sd w h k).cookies
