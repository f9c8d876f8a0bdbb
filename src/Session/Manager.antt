-- ===== src/Session/Manager.antt =====
-- `SessionManager` and the rest of `SessionData` (session.go): `GetSession`, `Save`, `Clear`, the
-- authentication flag and the simple fields. The chunk sessions are saved in the order of the map.
use traefikoidc.Base.{
  ◌≡◌, refl, ◌⊎◌, inl, inr, ℕ, zero, suc, ◌+◌, ◌/◌, Bool, true, false, ◌||◌, not, Option, none,
  some, List, [], ◌∷◌, ◌++◌, ltb, if◌then◌else◌, length,
}
use traefikoidc.Base.Int.{ℤ, pos, ◌-ℤ◌, after, unix, seconds}
use traefikoidc.Base.Text.{Str, lit, has_prefix}
use traefikoidc.Error.{Result, ok, fail, ◌>>◌}
use traefikoidc.Session.{
  Kind, access, refresh, Name, main, primary, chunk, str, bool, int, Values, string_of, bool_of,
  int_of, lax, Options, Session, Ref, SetCookie, World, Store, object, write, write_values, expire,
  age, SessionData, Pooled, Value,
}

abbrev pub min_encryption_key_length : ℕ
min_encryption_key_length = 32

-- `NewSessionManager`: the test of the key
unfoldable pub check_encryption_key : Str → Result (Unit {0})
check_encryption_key key =
    if ltb (length key) min_encryption_key_length
    then fail (lit "encryption key must be at least 32 bytes long")
    else ok tt

-- `SessionManager`, without the pool and the logger; the store encrypts with the key
pub record SessionManager : Type 0 where
  pub store_key : Str
  pub force_https : Bool

-- `NewSessionManager`
unfoldable pub new_session_manager :
    (encryption_key : Str) → (force_https : Bool) → Result SessionManager
new_session_manager encryption_key force_https = do
  check_encryption_key encryption_key
  ok (record { store_key = encryption_key; force_https = force_https })

-- `absoluteSessionTimeout`
abbrev pub absolute_session_timeout : ℤ
absolute_session_timeout = seconds 86400

-- `getSessionOptions`
unfoldable pub session_options : (force_https is_secure : Bool) → Options
session_options force_https is_secure = record {
  path = lit "/";
  max_age = pos 86400;
  secure = is_secure || force_https;
  http_only = true;
  same_site = lax;
}

-- the loop of `getTokenChunkSessions` from index `i`; the number of the request's cookies is fuel
-- enough
unfoldable pub load_chunks : Kind → Store → ℕ → ℕ → ℕ → World → List (ℕ × Ref)
load_chunks kind st request zero i w = []
load_chunks kind st request (suc fuel) i w =
    let r : Ref = record { request = request; name = chunk kind i } in
    let rest = load_chunks kind st request fuel (i + 1) w in
    if st.load_fails (chunk kind i) || (object w r).is_new then [] else (i, r) ∷ rest

-- `getTokenChunkSessions`
unfoldable pub token_chunk_sessions : Kind → Store → ℕ → World → List (ℕ × Ref)
token_chunk_sessions kind st request w = load_chunks kind st request st.cookie_count 0 w

-- `session.Options = options`
abbrev pub set_options : Options → Session → Session
set_options options s = record s { options = options }

-- `session.Save`: the header, or the error of the encoding
unfoldable pub save_session : Store → Ref → World → World × Result (Unit {0})
save_session st r w =
    let s = object w r in
    let cookie : SetCookie = record { name = r.name; values = s.values; options = s.options } in
    if st.save_fails cookie
    then (w, fail (lit "failed to encode session"))
    else (record w { cookies = w.cookies ++ cookie ∷ [] }, ok tt)

-- the two loops of `Save` over the chunks
unfoldable pub save_chunks : Store → Options → List (ℕ × Ref) → World → World × Result (Unit {0})
save_chunks st options [] w = (w, ok tt)
save_chunks st options ((i, r) ∷ m) w =
    let (w', saved) = save_session st r (write r (set_options options) w) in
    let rest = save_chunks st options m w' in elim saved [ fail e ↦ (w', fail e) | ok _ ↦ rest ]

abbrev pub then_save :
    World × Result (Unit {0}) → (World → World × Result (Unit {0})) → World × Result (Unit {0})
then_save (w, fail e) k = (w, fail e)
then_save (w, ok _) k = k w

-- `Save`; `scheme` is that of the request's URL
unfoldable pub save :
    Store → (force_https : Bool) → (scheme : Str) → SessionData → World → World × Result (Unit {0})
save st force_https scheme sd w =
    let options = session_options force_https (has_prefix scheme (lit "https") || force_https) in
    let w₁ =
      write sd.refresh (set_options options)
        (write sd.access (set_options options) (write sd.main (set_options options) w)) in
    then_save
      (then_save
        (then_save (then_save (save_session st sd.main w₁) (save_session st sd.access))
          (save_session st sd.refresh))
        (save_chunks st options sd.access_chunks))
      (save_chunks st options sd.refresh_chunks)

-- `clearTokenChunks`
unfoldable pub clear_token_chunks : List (ℕ × Ref) → World → World
clear_token_chunks [] w = w
clear_token_chunks ((i, r) ∷ m) w = clear_token_chunks m (write r expire w)

-- `Clear` up to the save: every session of the data is emptied
unfoldable pub clear_values : SessionData → World → World
clear_values sd w = clear_token_chunks sd.refresh_chunks (
    clear_token_chunks sd.access_chunks
      (write sd.refresh expire (write sd.access expire (write sd.main expire w))))

-- `Clear` with a response writer. The data goes back to the pool, with no request.
unfoldable pub clear :
    Store → Bool → Str → SessionData → World → World × SessionData × Result (Unit {0})
clear st force_https scheme sd w =
    let (w', saved) = save st force_https scheme sd (clear_values sd w) in
    (w', record sd { request = none }, saved)

-- What `GetSession` does: it returns the data or an error, or it panics.
pub data Loaded : Type 0 where
  loaded : SessionData → Loaded
  refused : Str → Loaded
  panicked : Loaded

pub Loaded-cases :
    (l : Loaded)
    → (l ≡ panicked) ⊎ ((e : Str) × (l ≡ refused e)) ⊎ ((sd : SessionData) × (l ≡ loaded sd))
Loaded-cases panicked = inl refl
Loaded-cases (refused e) = inr (inl (e, refl))
Loaded-cases (loaded sd) = inr (inr (sd, refl))

-- `Clear(r, nil)` on the data as it comes from the pool, after the main session has been loaded: a
-- nil pointer is a panic when its `MaxAge` is set, and a pointer of an earlier request is followed.
unfoldable pub clear_pooled : Ref → Pooled → World → World × Loaded
clear_pooled main_ref pooled w = elim pooled.access [
  | none ↦ (write main_ref age w, panicked)
  | some a ↦ elim pooled.refresh [
    | none ↦ (write a age (write main_ref age w), panicked)
    | some r ↦ (
      clear_values
          (record {
            request = none;
            main = main_ref;
            access = a;
            refresh = r;
            access_chunks = pooled.access_chunks;
            refresh_chunks = pooled.refresh_chunks;
          })
          w,
      refused (lit "session expired"),
    )
  ]
]

-- `time.Since(time.Unix(createdAt, 0)) > absoluteSessionTimeout`, if there is a `created_at`
unfoldable pub timed_out : ℤ → Values → Bool
timed_out now values = elim (int_of values.created_at) [
  | none ↦ false
  | some t ↦ after (now -ℤ unix t) absolute_session_timeout
]

-- `GetSession` for the request with this number
unfoldable pub get_session : ℤ → Store → ℕ → Pooled → World → World × Loaded
get_session now st request pooled w =
    let ref = λ (name : Name). let r : Ref = record { request = request; name = name } in r in
    if st.load_fails main
    then (w, refused (lit "failed to get main session"))
    else (if timed_out now (object w (ref main)).values
        then clear_pooled (ref main) pooled w
        else (if st.load_fails (primary access)
            then (w, refused (lit "failed to get access token session"))
            else (if st.load_fails (primary refresh)
                then (w, refused (lit "failed to get refresh token session"))
                else (
                  w,
                  loaded (record {
                    request = some request;
                    main = ref main;
                    access = ref (primary access);
                    refresh = ref (primary refresh);
                    access_chunks = token_chunk_sessions access st request w;
                    refresh_chunks = token_chunk_sessions refresh st request w;
                  }),
                ))))

-- `GetAuthenticated`
unfoldable pub get_authenticated : ℤ → SessionData → World → Bool
get_authenticated now sd w =
    let values = (object w sd.main).values in
    let young = elim (int_of values.created_at) as (λ _. Bool) [
      | none ↦ false
      | some t ↦ not (after (now -ℤ unix t) absolute_session_timeout)
    ] in
    if bool_of values.authenticated then young else false

-- The whole seconds of `time.Now().Unix()`.
unfoldable pub unix_seconds : ℤ → ℤ
unix_seconds (ℤ.pos n) = pos (n / 1000000000)
unix_seconds (ℤ.negsuc n) = ℤ.negsuc (n / 1000000000)

-- `SetAuthenticated`; `id` is the random identifier, if one can be generated
unfoldable pub set_authenticated :
    ℤ → Option Str → Bool → SessionData → World → World × Result (Unit {0})
set_authenticated now id false sd w =
    (write_values sd.main (λ v. record v { authenticated = some (bool false) }) w, ok tt)
set_authenticated now none true sd w = (w, fail (lit "failed to generate secure session id"))
set_authenticated now (some id) true sd w = (
  write sd.main
      (λ s. record s {
        id = id;
        values = record s.values {
          created_at = some (int (unix_seconds now));
          authenticated = some (bool true);
        };
      })
      w,
  ok tt,
)

abbrev main_string : (Values → Option Value) → SessionData → World → Str
main_string field sd w = string_of (field (object w sd.main).values)

-- `GetCSRF`, `GetNonce`, `GetCodeVerifier`, `GetEmail`, `GetIncomingPath`
unfoldable pub get_csrf : SessionData → World → Str
get_csrf = main_string (λ v. v.csrf)

unfoldable pub get_nonce : SessionData → World → Str
get_nonce = main_string (λ v. v.nonce)

unfoldable pub get_code_verifier : SessionData → World → Str
get_code_verifier = main_string (λ v. v.code_verifier)

unfoldable pub get_email : SessionData → World → Str
get_email = main_string (λ v. v.email)

unfoldable pub get_incoming_path : SessionData → World → Str
get_incoming_path = main_string (λ v. v.incoming_path)

-- `SetCSRF`, `SetNonce`, `SetCodeVerifier`, `SetEmail`, `SetIncomingPath`
unfoldable pub set_csrf : Str → SessionData → World → World
set_csrf s sd = write_values sd.main (λ v. record v { csrf = some (str s) })

unfoldable pub set_nonce : Str → SessionData → World → World
set_nonce s sd = write_values sd.main (λ v. record v { nonce = some (str s) })

unfoldable pub set_code_verifier : Str → SessionData → World → World
set_code_verifier s sd = write_values sd.main (λ v. record v { code_verifier = some (str s) })

unfoldable pub set_email : Str → SessionData → World → World
set_email s sd = write_values sd.main (λ v. record v { email = some (str s) })

unfoldable pub set_incoming_path : Str → SessionData → World → World
set_incoming_path s sd = write_values sd.main (λ v. record v { incoming_path = some (str s) })
