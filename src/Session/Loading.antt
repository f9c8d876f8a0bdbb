-- ===== src/Session/Loading.antt =====
-- What `GetSession` returns (session.go).
use traefikoidc.Base.{
  ℕ, zero, suc, ◌+◌, ◌≡◌, refl, subst, true, false, ◌||◌, none, some, List, arith, inl, inr,
  Bool-cases, Option-cases, All,
}
use traefikoidc.Base.Int.{ℤ, ◌-ℤ◌, after, unix}
use traefikoidc.Base.Text.{Str}
use traefikoidc.Session.{
  ref_eq_refl, Kind, access, refresh, main, primary, chunk, Ref, World, Store, object, SessionData,
  Pooled,
}
use traefikoidc.Session.Manager.{
  load_chunks, token_chunk_sessions, timed_out, get_session, Loaded, loaded, panicked, clear_pooled,
  set_authenticated, unix_seconds, absolute_session_timeout,
}

-- the chunks of a request, each under its own index, that came with the request
abbrev pub AreChunks : Kind → Store → ℕ → World → List (ℕ × Ref) → Type 0
AreChunks kind st request w = All (λ (e : ℕ × Ref).
    (e.1.request ≡ request) × (e.1.name ≡ chunk kind e.0) × ((object w e.1).is_new ≡ false))

load_chunks-AreChunks :
    (kind : Kind) (st : Store) (request fuel i : ℕ) (w : World)
    → AreChunks kind st request w (load_chunks kind st request fuel i w)
unfolding load_chunks
load_chunks-AreChunks kind st request zero i w = tt
load_chunks-AreChunks kind st request (suc fuel) i w =
    elim (Bool-cases (
      st.load_fails (chunk kind i)
      || (object w (record { request = request; name = chunk kind i })).is_new)) [
        | inl p ↦ rw (load_chunks, p) tt
        | inr p ↦
            rw (load_chunks, p)
              ((refl, refl, ground arith), load_chunks-AreChunks kind st request fuel (i + 1) w)
      ]

-- The data of a request: its own three sessions and its own chunks.
pub record IsOwn (now : ℤ) (st : Store) (request : ℕ) (w : World) (sd : SessionData) : Type 0 where
  pub live : timed_out now (object w sd.main).values ≡ false
  pub number : sd.request ≡ some request
  pub main_ref : (sd.main.request ≡ request) × (sd.main.name ≡ main)
  pub access_ref : (sd.access.request ≡ request) × (sd.access.name ≡ primary access)
  pub refresh_ref : (sd.refresh.request ≡ request) × (sd.refresh.name ≡ primary refresh)
  pub access_parts : AreChunks access st request w sd.access_chunks
  pub refresh_parts : AreChunks refresh st request w sd.refresh_chunks
  pub access_all : sd.access_chunks ≡ token_chunk_sessions access st request w
  pub refresh_all : sd.refresh_chunks ≡ token_chunk_sessions refresh st request w

abbrev OwnOrNot : ℤ → Store → ℕ → World → Loaded → Type 0
OwnOrNot now st request w (loaded sd) = IsOwn now st request w sd
OwnOrNot now st request w _ = Unit

clear_pooled-OwnOrNot :
    (now : ℤ) (st : Store) (request : ℕ) (r : Ref) (pooled : Pooled) (w : World)
    → OwnOrNot now st request w (clear_pooled r pooled w).1
unfolding clear_pooled
clear_pooled-OwnOrNot now st request r pooled w = elim (Option-cases pooled.access) [
  | inl p ↦ rw (clear_pooled, p) tt
  | inr (a, p) ↦ elim (Option-cases pooled.refresh) [
    | inl q ↦ rw (clear_pooled, p, q) tt
    | inr (b, q) ↦ rw (clear_pooled, p, q) tt
  ]
]

get_session-OwnOrNot :
    (now : ℤ) (st : Store) (request : ℕ) (pooled : Pooled) (w : World)
    → OwnOrNot now st request w (get_session now st request pooled w).1
unfolding get_session token_chunk_sessions
get_session-OwnOrNot now st request pooled w =
    let main_values = (object w (record { request = request; name = main })).values in
    elim (Bool-cases (st.load_fails main)) [
      | inl a ↦ rw (get_session, a) tt
      | inr a ↦ elim (Bool-cases (timed_out now main_values)) [
        | inl b ↦
            rw (get_session, a, b)
              (clear_pooled-OwnOrNot now st request (record { request = request; name = main })
                pooled w)
        | inr b ↦ elim (Bool-cases (st.load_fails (primary access))) [
          | inl c ↦ rw (get_session, a, b, c) tt
          | inr c ↦ elim (Bool-cases (st.load_fails (primary refresh))) [
            | inl d ↦ rw (get_session, a, b, c, d) tt
            | inr d ↦
                rw (get_session, a, b, c, d)
                  (record {
                    live = b;
                    number = refl;
                    main_ref = (refl, refl);
                    access_ref = (refl, refl);
                    refresh_ref = (refl, refl);
                    access_parts = load_chunks-AreChunks access st request st.cookie_count 0 w;
                    refresh_parts = load_chunks-AreChunks refresh st request st.cookie_count 0 w;
                    access_all = refl;
                    refresh_all = refl;
                  })
          ]
        ]
      ]
    ]

-- The data that `GetSession` returns has not timed out, and its sessions are those of the request
-- itself: the main session, the two token sessions, and the chunks that came with the request, each
-- under its own index, whatever the object from the pool held before.
pub get_session-IsOwn :
    (now : ℤ) (st : Store) (request : ℕ) (pooled : Pooled) (w : World) (sd : SessionData)
    → (get_session now st request pooled w).1 ≡ loaded sd
    → IsOwn now st request w sd
get_session-IsOwn now st request pooled w sd h =
    subst (λ l. OwnOrNot now st request w l) h (get_session-OwnOrNot now st request pooled w)

-- `GetSession` panics on a session that was authenticated more than 24 hours ago, in whole seconds,
-- where the object from the pool is a new one: it clears it before it has loaded the token sessions.
pub set_authenticated-get_session :
    (now later : ℤ) (id : Str) (st : Store) (request : ℕ) (pooled : Pooled) (sd : SessionData)
    (w : World)
    → sd.main ≡ record { request = request; name = main }
    → st.load_fails main ≡ false
    → pooled.access ≡ none
    → after (later -ℤ unix (unix_seconds now)) absolute_session_timeout ≡ true
    → (get_session later st request pooled (set_authenticated now (some id) true sd w).0).1
      ≡ panicked
unfolding get_session set_authenticated timed_out clear_pooled
set_authenticated-get_session now later id st request pooled sd w m a b c =
    rw
      (
        get_session,
        a,
        set_authenticated,
        m,
        ref_eq_refl (record { request = request; name = main }),
        c,
        b,
      )
      refl
