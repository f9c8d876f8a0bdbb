-- ===== src/Jwt/Replay.antt =====
-- The replay cache of `Verify` (jwt.go).
use traefikoidc.Base.{◌≡◌, false, some, List, [], ◌∷◌, arith, inl, inr, Option-cases, All}
use traefikoidc.Base.Int.{ℤ, before, unix}
use traefikoidc.Base.Map.{lookup, lookup-insert}
use traefikoidc.Base.Text.{Str, lit, str_eq_iff, is_blank, str_eq_refl}
use traefikoidc.Error.{ok, check-cases}
use traefikoidc.Jwt.{
  Jwt, verify_claims, cleanup_replay_cache, Replays, replay_expiry, check_replay, verify,
}
use traefikoidc.Platform.{Platform, as_str, as_num}

-- an entry stays as long as it has not ended
cleanup-keeps :
    (now e : ℤ) (jti : Str) (cache : Replays)
    → lookup jti cache ≡ some e
    → before e now ≡ false
    → lookup jti (cleanup_replay_cache now cache) ≡ some e
unfolding cleanup_replay_cache lookup
cleanup-keeps now e jti [] h k = h
cleanup-keeps now e jti ((j, t) ∷ cache) h k = ground (arith, cleanup-keeps now e jti cache)

check_replay-keeps :
    (now e : ℤ) (j : Jwt) (jti other : Str) (cache : Replays)
    → lookup jti cache ≡ some e
    → before e now ≡ false
    → lookup jti (check_replay now j other cache).0 ≡ some e
unfolding check_replay
check_replay-keeps now e j jti other cache h k = ground (
  arith,
  cleanup-keeps now e jti cache,
  str_eq_iff other jti,
  lookup-insert other jti (replay_expiry now j.claims) (cleanup_replay_cache now cache),
)

module _ (p : Platform) (issuer_url client_id : Str) where
  verify-keeps :
      (now e : ℤ) (j : Jwt) (jti : Str) (cache : Replays)
      → lookup jti cache ≡ some e
      → before e now ≡ false
      → lookup jti (verify p now issuer_url client_id j cache).0 ≡ some e
  unfolding verify
  verify-keeps now e j jti cache h k =
      elim (check-cases (verify_claims p now issuer_url client_id j)) [
        | inr (x, a) ↦ rw (verify, a) h
        | inl a ↦ elim (Option-cases (as_str (lookup (lit "jti") j.claims))) [
          | inl b ↦ rw (verify, a, b) h
          | inr (other, b) ↦ rw (verify, a, b) (check_replay-keeps now e j jti other cache h k)
        ]
      ]

  -- A token with a `jti` that passes leaves an entry.
  verify-stores :
      (now exp : ℤ) (j : Jwt) (jti : Str) (cache : Replays)
      → is_blank j.token ≡ false
      → as_str (lookup (lit "jti") j.claims) ≡ some jti
      → as_num (lookup (lit "exp") j.claims) ≡ some exp
      → (verify p now issuer_url client_id j cache).1 ≡ ok tt
      → lookup jti (verify p now issuer_url client_id j cache).0 ≡ some (unix exp)
  unfolding verify check_replay
  verify-stores now exp j jti cache h a b k =
      ground
        (arith, str_eq_refl jti, lookup-insert jti jti (unix exp) (cleanup_replay_cache now cache))

  -- the replay cache after these verifications
  abbrev pub verify_all : List (ℤ × Jwt) → Replays → Replays
  verify_all [] cache = cache
  verify_all ((now, j) ∷ calls) cache =
      verify_all calls (verify p now issuer_url client_id j cache).0

  verify_all-keeps :
      (calls : List (ℤ × Jwt)) (e : ℤ) (jti : Str) (cache : Replays)
      → All (λ (c : ℤ × Jwt). before e c.0 ≡ false) calls
      → lookup jti cache ≡ some e
      → lookup jti (verify_all calls cache) ≡ some e
  verify_all-keeps [] e jti cache h k = k
  verify_all-keeps ((now, j) ∷ calls) e jti cache h k =
      verify_all-keeps calls e jti _ h.1 (verify-keeps now e j jti cache k h.0)

  refused :
      (now e : ℤ) (j : Jwt) (jti : Str) (cache : Replays)
      → is_blank j.token ≡ false
      → as_str (lookup (lit "jti") j.claims) ≡ some jti
      → lookup jti cache ≡ some e
      → before e now ≡ false
      → ¬ ((verify p now issuer_url client_id j cache).1 ≡ ok tt)
  unfolding verify check_replay
  refused now e j jti cache h a b c k = absurd (ground (arith, cleanup-keeps now e jti cache))

  -- A token with a `jti` is accepted once: after `Verify` has accepted it, and after any number of
  -- verifications of any tokens in between, `Verify` refuses every token with the same `jti`, as
  -- long as the first token's `exp` has not passed at the instants of these calls. Both tokens are
  -- given as texts that are not empty.
  pub verify-once :
      (now later exp : ℤ) (j again : Jwt) (jti : Str) (calls : List (ℤ × Jwt)) (cache : Replays)
      → is_blank j.token ≡ false
      → is_blank again.token ≡ false
      → as_str (lookup (lit "jti") j.claims) ≡ some jti
      → as_str (lookup (lit "jti") again.claims) ≡ some jti
      → as_num (lookup (lit "exp") j.claims) ≡ some exp
      → (verify p now issuer_url client_id j cache).1 ≡ ok tt
      → All (λ (c : ℤ × Jwt). before (unix exp) c.0 ≡ false) calls
      → before (unix exp) later ≡ false
      → ¬ (
          (verify p later issuer_url client_id again
            (verify_all calls (verify p now issuer_url client_id j cache).0)).1
          ≡ ok tt)
  verify-once now later exp j again jti calls cache h h' a a' b k bs l =
      refused later (unix exp) again jti _ h' a'
        (verify_all-keeps calls (unix exp) jti _ bs (verify-stores now exp j jti cache h a b k)) l
