-- ===== src/Metadata/Finds.antt =====
-- The discovery finds the metadata in time (main.go).
use traefikoidc.Base.{ℕ, zero, suc, ◌+◌, ◌*◌, ◌≤◌, ◌<◌, ◌≡◌, ◌∙◌, ap, false, [], arith, refl, sym}
use traefikoidc.Base.Int.{ℤ, ◌+ℤ◌, ◌-ℤ◌, ◌≤ℤ◌, after, seconds, before-false, int_laws}
use traefikoidc.Base.Text.{Str}
use traefikoidc.HttpClient.{create_default_http_client}
use traefikoidc.Error.{Result, ok}
use traefikoidc.Metadata.{
  ProviderMetadata, backoff, total_timeout, discover, discover_from, max_retries,
}
use traefikoidc.Metadata.Laws.{backoff-max_delay, AllFail}

module _ (answer : ℕ → Result ProviderMetadata) (took : ℕ → ℤ) (start : ℤ)
    (quick : (n : ℕ) → took n ≤ℤ create_default_http_client.timeout) where
  in_time :
      (n : ℕ) (now : ℤ)
      → n ≤ 4
      → now -ℤ start ≤ℤ seconds (45 * n)
      → after (now -ℤ start) total_timeout ≡ false
  in_time n now l h = before-false total_timeout (now -ℤ start) (omega (arith, h))

  later_in_time :
      (n : ℕ) (now : ℤ)
      → now -ℤ start ≤ℤ seconds (45 * n)
      → now +ℤ took n +ℤ backoff n -ℤ start ≤ℤ seconds (45 * (n + 1))
  later_in_time n now h =
      let q = quick n in let b = backoff-max_delay n in omega (int_laws, h, q, b)

  discover_from-finds :
      (attempts n : ℕ) (now : ℤ) (last : Str) (k : ℕ) (m : ProviderMetadata)
      → n + attempts ≤ 5
      → now -ℤ start ≤ℤ seconds (45 * n)
      → k < attempts
      → AllFail answer n k
      → answer (n + k) ≡ ok m
      → (discover_from answer took start attempts n now last).0 ≡ ok m
  unfolding discover_from
  discover_from-finds zero n now last k m l h less f a = absurd (omega arith)
  discover_from-finds (suc attempts) n now last zero m l h less f a =
      let e : n + 0 ≡ n = omega arith in
      rw (discover_from, in_time n now (omega arith) h, sym (ap answer e) ∙ a) refl
  discover_from-finds (suc attempts) n now last (suc k) m l h less (failed, f) a =
      let e : n + suc k ≡ n + 1 + k = omega arith in
      rw (discover_from, in_time n now (omega arith) h, failed.1)
        (discover_from-finds attempts (n + 1) _ _ k m (omega arith) (later_in_time n now h)
          (omega arith) f (sym (ap answer e) ∙ a))

-- The discovery finds the metadata where the provider answers in time: if the attempts before number
-- `k` fail and that one, among the first five, succeeds, then the discovery returns its answer, where
-- no attempt takes longer than the client's timeout of 15 seconds.
pub discover-finds :
    (answer : ℕ → Result ProviderMetadata) (took : ℕ → ℤ) (start : ℤ) (k : ℕ) (m : ProviderMetadata)
    → ((n : ℕ) → took n ≤ℤ create_default_http_client.timeout)
    → k < 5
    → AllFail answer 0 k
    → answer k ≡ ok m
    → (discover answer took start).0 ≡ ok m
unfolding discover
discover-finds answer took start k m quick less f a =
    let e : 0 + k ≡ k = omega arith in
    discover_from-finds answer took start quick max_retries 0 start [] k m (omega arith)
      (omega int_laws) less f (ap answer e ∙ a)
