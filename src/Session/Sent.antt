-- ===== src/Session/Sent.antt =====
-- Which cookies of a response count after a successful `Save` (session.go): the browser takes the
-- last one of each name.
use traefikoidc.Base.{
  ℕ, ◌≡◌, refl, ◌∙◌, ap, sym, Bool, false, Option, none, some, List, [], ◌∷◌, ◌++◌, Bool-cases, inl,
  inr, All, arith, if◌then◌else◌,
}
use traefikoidc.Base.Text.{Str}
use traefikoidc.Error.{Result, ok, fail, check-cases}
use traefikoidc.Session.{
  Name, Ref, World, Store, SetCookie, SessionData, Options, object, ref_eq_refl, write, ref_eq,
  name_eq, name_eq_refl, eq_of_name_eq,
}
use traefikoidc.Session.Expiry.{saved_options}
use traefikoidc.Session.Manager.{set_options, save_session, save_chunks, then_save, save}

-- the cookie of a name that counts
abbrev pub last_cookie : Name → List SetCookie → Option SetCookie
last_cookie n [] = none
last_cookie n (c ∷ cs) = elim (last_cookie n cs) [
  | some d ↦ some d
  | none ↦ if name_eq c.name n then some c else none
]

last_cookie-snoc :
    (n : Name) (cs : List SetCookie) (c : SetCookie)
    → last_cookie n (cs ++ c ∷ []) ≡ (if name_eq c.name n then some c else last_cookie n cs)
last_cookie-snoc n [] c = refl
last_cookie-snoc n (d ∷ cs) c = ground (arith, last_cookie-snoc n cs c)

abbrev pub names_of : List (ℕ × Ref) → List Name
names_of [] = []
names_of ((i, r) ∷ m) = r.name ∷ names_of m

-- the session of a name in a request
abbrev pub own : ℕ → Name → Ref
own request n = record { request = request; name = n }

abbrev pub AreOwn : ℕ → List (ℕ × Ref) → Type 0
AreOwn request = All (λ (e : ℕ × Ref). e.1 ≡ own request e.1.name)

pub All-append : (P : Name → Type 0) (xs ys : List Name) → All P xs → All P ys → All P (xs ++ ys)
All-append P [] ys h k = k
All-append P (x ∷ xs) ys h k = (h.0, All-append P xs ys h.1 k)

pub All-split : (P : Name → Type 0) (xs ys : List Name) → All P (xs ++ ys) → All P xs × All P ys
All-split P [] ys h = (tt, h)
All-split P (x ∷ xs) ys h = let (a, b) = All-split P xs ys h.1 in ((h.0, a), b)

module _ (o : Options) (request : ℕ) where
  -- the cookie of this name that counts holds the values of the request's session, with the options
  abbrev pub Sends : World → Name → Type 0
  Sends w n =
      (c : SetCookie) × (last_cookie n w.cookies ≡ some c)
      × (c.options ≡ o)
      × (c.values ≡ (object w (own request n)).values)

  -- What every part of `Save` does with the sessions of these names: it sends them, and changes no
  -- values, no other name's cookie, and no options that are already set.
  pub record Sent (names : List Name) (w w' : World) : Type 0 where
    pub same : (r : Ref) → (object w' r).values ≡ (object w r).values
    pub ready : (r : Ref) → (object w r).options ≡ o → (object w' r).options ≡ o
    pub keeps : (n : Name) → Sends w n → Sends w' n
    pub sends : All (Sends w') names
    pub others :
        (n : Name)
        → All (λ k. name_eq k n ≡ false) names
        → last_cookie n w'.cookies ≡ last_cookie n w.cookies

  All-keeps :
      (w w' : World) (names : List Name)
      → ((n : Name) → Sends w n → Sends w' n)
      → All (Sends w) names
      → All (Sends w') names
  All-keeps w w' [] f h = tt
  All-keeps w w' (n ∷ names) f h = (f n h.0, All-keeps w w' names f h.1)

  pub Sent-trans :
      (xs ys : List Name) (u v w : World) → Sent xs u v → Sent ys v w → Sent (xs ++ ys) u w
  Sent-trans xs ys u v w a b = record {
    same = λ r. b.same r ∙ a.same r;
    ready = λ r h. b.ready r (a.ready r h);
    keeps = λ n h. b.keeps n (a.keeps n h);
    sends = All-append (Sends w) xs ys (All-keeps v w xs b.keeps a.sends) b.sends;
    others = λ n h.
        let (p, q) = All-split (λ k. name_eq k n ≡ false) xs ys h in b.others n q ∙ a.others n p;
  }

  write-options :
      (r q : Ref) (w : World)
      → (object w q).options ≡ o
      → (object (write r (set_options o) w) q).options ≡ o
  write-options r q w h = elim (Bool-cases (ref_eq q r)) [ inl p ↦ rw p refl | inr p ↦ rw p h ]

  write-values :
      (r q : Ref) (w : World) → (object (write r (set_options o) w) q).values ≡ (object w q).values
  write-values r q w = elim (Bool-cases (ref_eq q r)) [ inl p ↦ rw p refl | inr p ↦ rw p refl ]

  pub write-Sent : (r : Ref) (w : World) → Sent [] w (write r (set_options o) w)
  write-Sent r w = record {
    same = λ q. write-values r q w;
    ready = λ q h. write-options r q w h;
    keeps = λ n h. (h.0, h.1, h.2, h.3 ∙ sym (write-values r (own request n) w));
    sends = tt;
    others = λ n h. refl;
  }

  pub write-own : (r : Ref) (w : World) → (object (write r (set_options o) w) r).options ≡ o
  write-own r w = rw (ref_eq_refl r) refl

  -- one more cookie that holds the values of its session
  Sends-snoc :
      (n m : Name) (w : World) (c : SetCookie)
      → c.name ≡ n
      → c.options ≡ o
      → c.values ≡ (object w (own request n)).values
      → Sends w m
      → Sends (record w { cookies = w.cookies ++ c ∷ [] }) m
  Sends-snoc n m w c e h k j = elim (Bool-cases (name_eq c.name m)) [
    | inl p ↦ (
      c,
      last_cookie-snoc m w.cookies c ∙ rw p refl,
      h,
      k ∙ ap (λ i. (object w (own request i)).values) (sym e ∙ eq_of_name_eq c.name m p),
    )
    | inr p ↦ (j.0, last_cookie-snoc m w.cookies c ∙ rw p j.1, j.2, j.3)
  ]

  pub save_session-Sent :
      (st : Store) (r : Ref) (w : World)
      → r ≡ own request r.name
      → (object w r).options ≡ o
      → (save_session st r w).1 ≡ ok tt
      → Sent (r.name ∷ []) w (save_session st r w).0
  unfolding save_session
  save_session-Sent st r w e h k =
      let s = object w r in
      let cookie : SetCookie = record { name = r.name; values = s.values; options = s.options } in
      let values = ap (λ q. (object w q).values) e in
      elim (Bool-cases (st.save_fails cookie)) [
        | inl p ↦ absurd (ground (arith, p))
        | inr p ↦ rw p (record {
          same = λ q. refl;
          ready = λ q j. j;
          keeps = λ m j. Sends-snoc r.name m w cookie refl h values j;
          sends = (
            (
              cookie,
              last_cookie-snoc r.name w.cookies cookie ∙ rw (name_eq_refl r.name) refl,
              h,
              values,
            ),
            tt,
          );
          others = λ m j. last_cookie-snoc m w.cookies cookie ∙ rw j.0 refl;
        })
      ]

  then_save-Sent :
      (xs ys : List Name) (u : World) (x : World × Result (Unit {0}))
      (k : World → World × Result (Unit {0}))
      → (then_save x k).1 ≡ ok tt
      → (x.1 ≡ ok tt → Sent xs u x.0)
      → ((k x.0).1 ≡ ok tt → Sent xs u x.0 → Sent ys x.0 (k x.0).0)
      → Sent (xs ++ ys) u (then_save x k).0
  then_save-Sent xs ys u (w, fail e) k h f g = absurd (ground arith)
  then_save-Sent xs ys u (w, ok _) k h f g = Sent-trans xs ys u w (k w).0 (f refl) (g h (f refl))

  save_chunks-Sent :
      (st : Store) (m : List (ℕ × Ref)) (w : World)
      → AreOwn request m
      → (save_chunks st o m w).1 ≡ ok tt
      → Sent (names_of m) w (save_chunks st o m w).0
  unfolding save_chunks
  save_chunks-Sent st [] w h k = record {
    same = λ q. refl;
    ready = λ q j. j;
    keeps = λ n j. j;
    sends = tt;
    others = λ n j. refl;
  }
  save_chunks-Sent st ((i, r) ∷ m) w h k =
      let w' = write r (set_options o) w in
      let u = (save_session st r w').0 in
      elim (check-cases (save_session st r w').1) [
        | inr (e, p) ↦ absurd (ground (arith, p))
        | inl p ↦
            rw (save_chunks, p)
              (Sent-trans (r.name ∷ []) (names_of m) w u (save_chunks st o m u).0
                (Sent-trans [] (r.name ∷ []) w w' u (write-Sent r w)
                  (save_session-Sent st r w' h.0 (write-own r w) p))
                (save_chunks-Sent st m u h.1 (ground (arith, p))))
      ]

-- the names of the sessions that a save sends
abbrev pub all_names : SessionData → List Name
all_names sd =
    sd.main.name ∷ sd.access.name ∷ sd.refresh.name ∷ names_of sd.access_chunks
    ++ names_of sd.refresh_chunks

-- all sessions of the data are those of one request
pub record AreOfRequest (request : ℕ) (sd : SessionData) : Type 0 where
  pub main_own : sd.main ≡ own request sd.main.name
  pub access_own : sd.access ≡ own request sd.access.name
  pub refresh_own : sd.refresh ≡ own request sd.refresh.name
  pub access_parts : AreOwn request sd.access_chunks
  pub refresh_parts : AreOwn request sd.refresh_chunks

-- After a successful `Save` the cookie that counts, for each session of the data, holds the values
-- that the session had and still has, with the options of `getSessionOptions`. For every other name
-- the cookie that counted before still does, or there is none.
pub save-Sent :
    (request : ℕ) (st : Store) (force_https : Bool) (scheme : Str) (sd : SessionData) (w : World)
    → AreOfRequest request sd
    → (save st force_https scheme sd w).1 ≡ ok tt
    → Sent
        (saved_options force_https scheme)
        request
        (all_names sd)
        w
        (save st force_https scheme sd w).0
unfolding save
save-Sent request st force_https scheme sd w own h =
    let o = saved_options force_https scheme in
    let wm = write sd.main (set_options o) w in
    let wa = write sd.access (set_options o) wm in
    let w₁ = write sd.refresh (set_options o) wa in
    let km = write-Sent o request sd.main w in
    let ka = write-Sent o request sd.access wm in
    let kr = write-Sent o request sd.refresh wa in
    let kall = Sent-trans o request [] [] w wa w₁ (Sent-trans o request [] [] w wm wa km ka) kr in
    let t₁ = save_session st sd.main w₁ in
    let t₂ = then_save t₁ (save_session st sd.access) in
    let t₃ = then_save t₂ (save_session st sd.refresh) in
    let t₄ = then_save t₃ (save_chunks st o sd.access_chunks) in
    let s₁ = λ (k : t₁.1 ≡ ok tt).
      save_session-Sent o request st sd.main w₁ own.main_own
        (kr.ready sd.main (ka.ready sd.main (write-own o request sd.main w))) k in
    let s₂ = λ (k : t₂.1 ≡ ok tt).
      then_save-Sent o request (sd.main.name ∷ []) (sd.access.name ∷ []) w₁ t₁
        (save_session st sd.access) k s₁
        (λ j g.
          save_session-Sent o request st sd.access t₁.0 own.access_own
            (g.ready sd.access (kr.ready sd.access (write-own o request sd.access wm))) j) in
    let s₃ = λ (k : t₃.1 ≡ ok tt).
      then_save-Sent o request (sd.main.name ∷ sd.access.name ∷ []) (sd.refresh.name ∷ []) w₁ t₂
        (save_session st sd.refresh) k s₂
        (λ j g.
          save_session-Sent o request st sd.refresh t₂.0 own.refresh_own
            (g.ready sd.refresh (write-own o request sd.refresh wa)) j) in
    let s₄ = λ (k : t₄.1 ≡ ok tt).
      then_save-Sent o request (sd.main.name ∷ sd.access.name ∷ sd.refresh.name ∷ [])
        (names_of sd.access_chunks) w₁ t₃ (save_chunks st o sd.access_chunks) k s₃
        (λ j g. save_chunks-Sent o request st sd.access_chunks t₃.0 own.access_parts j) in
    let s₅ =
      then_save-Sent o request
        (sd.main.name ∷ sd.access.name ∷ sd.refresh.name ∷ names_of sd.access_chunks)
        (names_of sd.refresh_chunks) w₁ t₄ (save_chunks st o sd.refresh_chunks) h s₄
        (λ j g. save_chunks-Sent o request st sd.refresh_chunks t₄.0 own.refresh_parts j) in
    Sent-trans o request [] (all_names sd) w w₁
      (then_save t₄ (save_chunks st o sd.refresh_chunks)).0 kall s₅
