-- ===== src/Verifier/Bounded.antt =====
-- The caches of the verifier never outgrow their size (main.go, helpers.go, cache.go).
use traefikoidc.Base.{
  ◌≤◌, ◌∙◌, sym, subst, true, List, [], refl, arith, length, inl, inr, Bool-cases, Option-cases,
  none, some, Option,
}
use traefikoidc.Base.Int.{ℤ, pos, ◌≤ℤ◌, ◌+ℤ◌, ◌-ℤ◌, unix, seconds}
use traefikoidc.Base.Map.{lookup}
use traefikoidc.Base.Text.{Str, lit}
use traefikoidc.Cache
use traefikoidc.Cache.{CacheItem, Cache, new_cache, default_max_size}
use traefikoidc.Cache.Operations.{new_cache-Refines}
use traefikoidc.Cache.Reads.{length-spec_call}
use traefikoidc.Cache.Refines.{Refines}
use traefikoidc.Cache.Runs.{
  Call, set, get, delete, cleanup, call, spec_call, Sized, call-max_size, spec_call-Refines,
}
use traefikoidc.Error.{Result-cases, check-cases}
use traefikoidc.Jwt.{Jwt, parse_jwt, extract_claims}
use traefikoidc.Platform.{Claims, as_num}
use traefikoidc.Verifier.{
  Verifier, Context, cache_get, cache_set, cache_delete, blacklist_get, blacklist_set, is_cached,
  verify_token, verify_fresh, verify_jwt, pre_verify, revoke_token, remember_jti,
  cache_verified_token, check_jti, token_cleanup, jti_of, jti_of_token, token_key,
}
use traefikoidc.Verifier.Blacklist.{verify_jwt-caches}

-- A cache that stands for a list of at most 500 entries, and has the size of a new one.
pub record IsBounded {ℓ} {V : Type ℓ} (c : Cache V) : Type ℓ where
  pub entries : List (Str × CacheItem V)
  pub stands : Refines c entries
  pub sized : Sized c
  pub small : length entries ≤ default_max_size

pub new_cache-IsBounded {ℓ} : {V : Type ℓ} → IsBounded {V = V} new_cache
unfolding new_cache
new_cache-IsBounded = record {
  entries = [];
  stands = new_cache-Refines;
  sized = refl;
  small = omega arith;
}

pub IsBounded-length {ℓ} : {V : Type ℓ} {c : Cache V} → IsBounded c → length c.items ≤ 500
IsBounded-length {c} b = omega (arith, b.stands.sizes, b.small)

-- The caches of a verifier, both bounded.
pub record AreBounded (v : Verifier) : Type 0 where
  pub tokens : IsBounded v.token_cache
  pub listed : IsBounded v.blacklist

module _ (tenth : ℤ → ℤ) (below : (d : ℤ) → pos 0 ≤ℤ d → tenth d ≤ℤ d) where
  pub call-IsBounded {ℓ} :
      {V : Type ℓ} (x : Call V) {c : Cache V} → IsBounded c → IsBounded (call tenth x c).0
  call-IsBounded x {c} b = record {
    entries = (spec_call x b.entries).0;
    stands = (spec_call-Refines tenth below x b.sized b.stands).0;
    sized = call-max_size tenth x c ∙ b.sized;
    small = length-spec_call x b.entries b.stands.distinct b.small;
  }

  get-IsBounded {ℓ} :
      {V : Type ℓ} (now : ℤ) (k : Str) {c : Cache V} → IsBounded c → IsBounded (Cache.get now k c).0
  unfolding call
  get-IsBounded now k b = call-IsBounded (get now k) b

  set-IsBounded {ℓ} :
      {V : Type ℓ} (now : ℤ) (k : Str) (a : V) (d : ℤ) {c : Cache V}
      → IsBounded c
      → IsBounded (Cache.set now k a d c)
  unfolding call
  set-IsBounded now k a d b = call-IsBounded (set now k a d) b

  delete-IsBounded {ℓ} :
      {V : Type ℓ} (k : Str) {c : Cache V} → IsBounded c → IsBounded (Cache.delete k c)
  unfolding call
  delete-IsBounded k b = call-IsBounded (delete k) b

  pub cleanup-IsBounded {ℓ} :
      {V : Type ℓ} (now : ℤ) {c : Cache V} → IsBounded c → IsBounded (Cache.cleanup tenth now c)
  unfolding call
  cleanup-IsBounded now b = call-IsBounded (cleanup now) b

  pub revoke_token-AreBounded :
      (now : ℤ) (token : Str) (v : Verifier) → AreBounded v → AreBounded (revoke_token now token v)
  unfolding revoke_token blacklist_set cache_delete
  revoke_token-AreBounded now token v b = record {
    tokens = delete-IsBounded (token_key token) b.tokens;
    listed = set-IsBounded now token true (now +ℤ seconds 86400 -ℤ now) b.listed;
  }

  pub token_cleanup-AreBounded :
      (now : ℤ) (v : Verifier) → AreBounded v → AreBounded (token_cleanup tenth now v)
  unfolding token_cleanup
  token_cleanup-AreBounded now v b = record {
    tokens = cleanup-IsBounded now b.tokens;
    listed = b.listed;
  }

  pub verify_jwt-AreBounded :
      (x : Context) (now : ℤ) (jwt : Jwt) (token : Str) (v : Verifier)
      → AreBounded v
      → AreBounded (verify_jwt x now jwt token v).0
  verify_jwt-AreBounded x now jwt token v b =
      let (p, q) = verify_jwt-caches x now jwt token v in
      record {
        tokens = subst (λ c. IsBounded c) (sym p) b.tokens;
        listed = subst (λ c. IsBounded c) (sym q) b.listed;
      }

  blacklist_get-AreBounded :
      (now : ℤ) (k : Str) (v : Verifier) → AreBounded v → AreBounded (blacklist_get now k v).0
  unfolding blacklist_get
  blacklist_get-AreBounded now k v b = record {
    tokens = b.tokens;
    listed = get-IsBounded now k b.listed;
  }

  blacklist_set-AreBounded :
      (now : ℤ) (k : Str) (d : ℤ) (v : Verifier)
      → AreBounded v
      → AreBounded (blacklist_set now k d v)
  unfolding blacklist_set
  blacklist_set-AreBounded now k d v b = record {
    tokens = b.tokens;
    listed = set-IsBounded now k true d b.listed;
  }

  check_jti-AreBounded :
      (now : ℤ) (jti : Option Str) (v : Verifier)
      → AreBounded v
      → AreBounded (check_jti now jti v).0
  unfolding check_jti
  check_jti-AreBounded now none v b = b
  check_jti-AreBounded now (some jti) v b = elim (Bool-cases (blacklist_get now jti v).1) [
    | inl p ↦ rw (check_jti, p) (blacklist_get-AreBounded now jti v b)
    | inr p ↦ rw (check_jti, p) (blacklist_get-AreBounded now jti v b)
  ]

  pre_verify-AreBounded :
      (x : Context) (now : ℤ) (token : Str) (v : Verifier)
      → AreBounded v
      → AreBounded (pre_verify x now token v).0
  unfolding pre_verify
  pre_verify-AreBounded x now token v b =
      let b' = blacklist_get-AreBounded now token v b in
      elim (Bool-cases x.allow) [
        | inr p ↦ rw (pre_verify, p) b
        | inl p ↦ elim (Bool-cases (blacklist_get now token v).1) [
          | inl q ↦ rw (pre_verify, p, q) b'
          | inr q ↦
              rw (pre_verify, p, q)
                (check_jti-AreBounded now (jti_of_token (extract_claims x.platform token))
                  (blacklist_get now token v).0 b')
        ]
      ]

  cached-AreBounded :
      (now : ℤ) (token : Str) (claims : Claims) (v : Verifier)
      → AreBounded v
      → AreBounded (cache_verified_token now token claims v)
  unfolding cache_verified_token cache_set
  cached-AreBounded now token claims v b =
      elim (Option-cases (as_num (lookup (lit "exp") claims))) [
        | inl p ↦ rw (cache_verified_token, p) b
        | inr (exp, p) ↦
            rw (cache_verified_token, p)
              (record {
                tokens = set-IsBounded now (token_key token) claims (unix exp -ℤ now) b.tokens;
                listed = b.listed;
              })
      ]

  remembered-AreBounded :
      (now : ℤ) (claims : Claims) (v : Verifier)
      → AreBounded v
      → AreBounded (remember_jti now claims v)
  unfolding remember_jti
  remembered-AreBounded now claims v b = elim (Option-cases (jti_of claims)) [
    | inl p ↦ rw (remember_jti, p) b
    | inr (jti, p) ↦ rw (remember_jti, p) (blacklist_set-AreBounded now jti _ v b)
  ]

  verify_fresh-AreBounded :
      (x : Context) (now : ℤ) (token : Str) (v : Verifier)
      → AreBounded v
      → AreBounded (verify_fresh x now token v).0
  unfolding verify_fresh
  verify_fresh-AreBounded x now token v b =
      let v₁ = (pre_verify x now token v).0 in
      let b₁ = pre_verify-AreBounded x now token v b in
      elim (check-cases (pre_verify x now token v).1) [
        | inr (e, p) ↦ rw (verify_fresh, p) b₁
        | inl p ↦ elim (Result-cases (parse_jwt x.platform token)) [
          | inr (e, q) ↦ rw (verify_fresh, p, q) b₁
          | inl (jwt, q) ↦
              let b₂ = verify_jwt-AreBounded x now jwt token v₁ b₁ in
              elim (check-cases (verify_jwt x now jwt token v₁).1) [
                | inr (e, r) ↦ rw (verify_fresh, p, q, r) b₂
                | inl r ↦
                    rw (verify_fresh, p, q, r)
                      (remembered-AreBounded now jwt.claims _
                        (cached-AreBounded now token jwt.claims _ b₂))
              ]
        ]
      ]

  pub verify_token-AreBounded :
      (x : Context) (now : ℤ) (token : Str) (v : Verifier)
      → AreBounded v
      → AreBounded (verify_token x now token v).0
  unfolding verify_token cache_get
  verify_token-AreBounded x now token v b =
      let v' = (cache_get now token v).0 in
      let b' : AreBounded v' = record {
        tokens = get-IsBounded now (token_key token) b.tokens;
        listed = b.listed;
      } in
      elim (Bool-cases (is_cached (cache_get now token v).1)) [
        | inl p ↦ rw (verify_token, p) b'
        | inr p ↦ rw (verify_token, p) (verify_fresh-AreBounded x now token v' b')
      ]
