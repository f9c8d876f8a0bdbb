-- ===== src/Session/Saved.antt =====
-- `Save` and `GetSession` where nothing fails (session.go).
use traefikoidc.Base.{ℕ, ◌≡◌, refl, Bool, false, some, List, [], ◌∷◌, arith}
use traefikoidc.Base.Int.{ℤ}
use traefikoidc.Base.Text.{Str}
use traefikoidc.Error.{Result, ok, fail}
use traefikoidc.Session.{
  access, refresh, Name, main, primary, Ref, World, Store, SetCookie, Options, SessionData, Pooled,
  object, write,
}
use traefikoidc.Session.Manager.{
  save, save_session, save_chunks, then_save, set_options, get_session, loaded, timed_out,
  token_chunk_sessions,
}
use traefikoidc.Session.Sent.{own}

module _ (st : Store) (encodes : (c : SetCookie) → st.save_fails c ≡ false) where
  save_session-ok : (r : Ref) (w : World) → (save_session st r w).1 ≡ ok tt
  unfolding save_session
  save_session-ok r w =
      let s = object w r in
      let c : SetCookie = record { name = r.name; values = s.values; options = s.options } in
      ground (arith, encodes c)

  save_chunks-ok : (o : Options) (m : List (ℕ × Ref)) (w : World) → (save_chunks st o m w).1 ≡ ok tt
  unfolding save_chunks
  save_chunks-ok o [] w = refl
  save_chunks-ok o ((i, r) ∷ m) w =
      let saved = save_session-ok r (write r (set_options o) w) in
      rw (save_chunks, saved) (save_chunks-ok o m (save_session st r (write r (set_options o) w)).0)

  then_save-ok :
      (x : World × Result (Unit {0})) (k : World → World × Result (Unit {0}))
      → x.1 ≡ ok tt
      → ((w : World) → (k w).1 ≡ ok tt)
      → (then_save x k).1 ≡ ok tt
  then_save-ok (w, ok _) k h f = f w
  then_save-ok (w, fail e) k h f = absurd (ground (arith, h))

  -- `Save` succeeds.
  pub save-ok :
      (force_https : Bool) (scheme : Str) (sd : SessionData) (w : World)
      → (save st force_https scheme sd w).1 ≡ ok tt
  unfolding save
  save-ok force_https scheme sd w =
      then_save-ok _ _
        (then_save-ok _ _
          (then_save-ok _ _
            (then_save-ok _ _ (save_session-ok sd.main _) (save_session-ok sd.access))
            (save_session-ok sd.refresh))
          (save_chunks-ok _ sd.access_chunks))
        (save_chunks-ok _ sd.refresh_chunks)

-- the data of a request whose cookies load
abbrev pub data_of_request : Store → ℕ → World → SessionData
data_of_request st request w = record {
  request = some request;
  main = own request main;
  access = own request (primary access);
  refresh = own request (primary refresh);
  access_chunks = token_chunk_sessions access st request w;
  refresh_chunks = token_chunk_sessions refresh st request w;
}

-- `GetSession` loads the session of a request whose cookies load, if it has not timed out.
pub get_session-loaded :
    (now : ℤ) (st : Store) (request : ℕ) (pooled : Pooled) (w : World)
    → ((n : Name) → st.load_fails n ≡ false)
    → timed_out now (object w (own request main)).values ≡ false
    → get_session now st request pooled w ≡ (w, loaded (data_of_request st request w))
unfolding get_session
get_session-loaded now st request pooled w f t =
    rw (get_session, f main, t, f (primary access), f (primary refresh)) refl
