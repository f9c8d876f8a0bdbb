-- ===== src/Settings/Laws.antt =====
-- What `Validate` (settings.go) accepts, and that `New` (main.go) takes it.
use traefikoidc.Base.{
  ◌≤◌, ◌≡◌, refl, Bool, true, false, List, [], ◌∷◌, arith, inl, inr, length, All, ltb,
}
use traefikoidc.Base.Int.{pos, ◌≤ℤ◌, le_of_not_before}
use traefikoidc.Base.Text.{Str, lit, is_blank, has_prefix, contains}
use traefikoidc.Error.{Result, ok, ◌>>=◌, check-cases}
use traefikoidc.Session.Manager.{check_encryption_key}
use traefikoidc.Settings.{
  Config, Middleware, validate, validate_required, validate_excluded_urls, validate_optional, new,
  effective_key,
}
use traefikoidc.Url.{UrlLibrary, is_valid_secure_url}

-- an excluded URL that is accepted
abbrev pub IsPlainPath : Str → Type 0
IsPlainPath url =
    (has_prefix url (lit "/") ≡ true)
    × (contains url (lit "..") ≡ false)
    × (contains url (lit "*") ≡ false)

pub record IsValid (u : UrlLibrary) (c : Config) : Type 0 where
  pub provider : is_valid_secure_url u c.provider_url ≡ true
  pub callback : has_prefix c.callback_url (lit "/") ≡ true
  pub client : is_blank c.client_id ≡ false
  pub secret : is_blank c.client_secret ≡ false
  pub key : 32 ≤ length c.session_encryption_key
  pub excluded : All IsPlainPath c.excluded_urls
  pub limit : pos 10 ≤ℤ c.rate_limit
  pub grace : pos 0 ≤ℤ c.refresh_grace_period_seconds

validate_excluded_urls-IsPlainPath :
    (urls : List Str) → validate_excluded_urls urls ≡ ok tt → All IsPlainPath urls
unfolding validate_excluded_urls
validate_excluded_urls-IsPlainPath [] h = tt
validate_excluded_urls-IsPlainPath (url ∷ urls) h = (
  (ground arith, ground arith, ground arith),
  validate_excluded_urls-IsPlainPath urls (ground arith),
)

bind-ok :
    {A : Type 0} (m : Result Str) (f : Str → A) (key : Str)
    → m ≡ ok key
    → (m >>= (λ k. ok (f k))) ≡ ok (f key)
bind-ok m f key h = rw h refl

new-ok :
    (yaegi : Bool) (c : Config) (key : Str)
    → effective_key yaegi c.session_encryption_key ≡ ok key
    → (m : Middleware) × (new yaegi c ≡ ok m)
      × (m.encryption_key ≡ key)
      × (m.redir_url_path ≡ c.callback_url)
unfolding new
new-ok yaegi c key h =
    (_, bind-ok (effective_key yaegi c.session_encryption_key) _ key h, refl, refl)

effective_key-long :
    (yaegi : Bool) (key : Str)
    → is_blank key ≡ false
    → ltb (length key) 32 ≡ false
    → effective_key yaegi key ≡ ok key
unfolding effective_key
effective_key-long yaegi key h k = ground arith

-- A configuration that `Validate` accepts has an HTTPS provider with a host, a rooted callback path,
-- the client's identity and secret, a session key of at least 32 bytes, excluded paths that are
-- rooted and have neither `..` nor `*`, a rate limit of at least 10 and a grace period that is not
-- negative; and `New` takes it with its own key, which the session manager accepts.
pub validate-IsValid :
    (u : UrlLibrary) (c : Config) (yaegi : Bool)
    → validate u c ≡ ok tt
    → IsValid u c
      × ((m : Middleware) × (new yaegi c ≡ ok m)
          × (m.encryption_key ≡ c.session_encryption_key)
          × (m.redir_url_path ≡ c.callback_url)
          × (check_encryption_key m.encryption_key ≡ ok tt))
unfolding validate validate_required validate_optional check_encryption_key
validate-IsValid u c yaegi h = elim (check-cases (validate_required u c)) [
  | inr (e, p) ↦ absurd (ground arith)
  | inl p ↦ elim (check-cases (validate_excluded_urls c.excluded_urls)) [
    | inr (e, q) ↦ absurd (ground arith)
    | inl q ↦ elim (check-cases (validate_optional u c)) [
      | inr (e, r) ↦ absurd (ground arith)
      | inl r ↦
          let (m, made, key, path) =
            new-ok yaegi c c.session_encryption_key
              (effective_key-long yaegi c.session_encryption_key (ground arith) (ground arith)) in
          (
            record {
              provider = ground arith;
              callback = ground arith;
              client = ground arith;
              secret = ground arith;
              key = ground arith;
              excluded = validate_excluded_urls-IsPlainPath c.excluded_urls q;
              limit = le_of_not_before c.rate_limit (pos 10) (ground arith);
              grace = le_of_not_before c.refresh_grace_period_seconds (pos 0) (ground arith);
            },
            (m, made, key, path, rw key (ground arith)),
          )
    ]
  ]
]
