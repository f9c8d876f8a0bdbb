-- ===== src/Tests/Systems.antt =====
-- Runs of the whole middleware, and of its parts that talk to the outside.
use traefikoidc.Base.{
  ◌+◌, ◌*◌, ◌/◌, ap, sym, subst, ◌∙◌, ℕ, zero, suc, ◌≤◌, ◌≡◌, ◌↔◌, refl, arith, true, false, none,
  [], ◌∷◌, if◌then◌else◌, length, Option,
}
use traefikoidc.Base.Int.{ℤ, pos, seconds}
use traefikoidc.Base.Text.{Str, lit, is_blank}
use traefikoidc.Error.{Result, ok, fail, ok_of}
use traefikoidc.Metadata.{ProviderMetadata, discover}
use traefikoidc.Metadata.Finds.{discover-finds}
use traefikoidc.Platform.{response}
use traefikoidc.Random.{
  Entropy, generate-lengths, generate_nonce, generate_code_verifier, derive_code_challenge,
  generate_secure_random_string,
}
use traefikoidc.Server.{Service, Outside, Request, initialized, forward, set_world}
use traefikoidc.Server.Exchange.{revoke_token_with_provider}
use traefikoidc.Server.Revocation.{revoke_token_with_provider-ok}
use traefikoidc.Server.Serve.{bypasses, serve_protected}
use traefikoidc.Session.{access, World, Name, chunk}
use traefikoidc.Session.Cookies.{cookie_name-injective}
use traefikoidc.Settings.Members.{lookup-create_string_map}
use traefikoidc.Settings.{create_string_map}
use traefikoidc.Base.Map.{lookup}
use traefikoidc.Base.{is_some, any}
use traefikoidc.Base.Text.{str_eq}
use traefikoidc.Session.Fuel.{chunk_loops-enough}
use traefikoidc.Session.Manager.{load_chunks, token_chunk_sessions}
use traefikoidc.Session.Token.{expire_chunks}
use traefikoidc.Settings.{create_config, new, effective_key}
use traefikoidc.System.{
  System, starting, ready, gave_up, start, initialize_metadata, handle, new_system, update_verifier,
}
use traefikoidc.System.Lifecycle.{Steps-size, Steps-ready, Steps-gave_up, is_unavailable}
use traefikoidc.System.Ready.{initialize_metadata-ready}
use traefikoidc.System.Steps.{Steps, initialize, revoke, serve, clean_tokens, done, more}
use traefikoidc.Tests.Fixtures.{service, outside, store, world, home, now, token}
use traefikoidc.Verifier.{revoke_token, token_cleanup}

-- a provider that answers at the second attempt
abbrev answer : ℕ → Result ProviderMetadata
answer zero = fail (lit "refused")
answer (suc n) = ok service.endpoints

abbrev at_once : ℕ → ℤ
at_once n = seconds 1

discover-finds_example : (discover answer at_once now).0 ≡ ok service.endpoints
discover-finds_example =
    discover-finds answer at_once now 1 service.endpoints (λ n. omega arith) (omega arith)
      ((lit "refused", refl), tt) refl

abbrev of_ok {ℓ} : {A : Type ℓ} → A → Result A → A
of_ok a (ok b) = b
of_ok a (fail e) = a

-- the middleware as `New` makes it from the default configuration
abbrev nothing : System
nothing = new_system (λ v. true) create_config world service.middleware

abbrev begun : System
begun = of_ok nothing (start false (λ v. true) create_config world)

start_run : start false (λ v. true) create_config world ≡ ok begun
unfolding start new effective_key create_config lit
start_run = refl

abbrev NamesIssuer : ProviderMetadata → Type 0
NamesIssuer m = is_blank m.issuer ≡ false

names_issuer : (n : ℕ) (m : ProviderMetadata) → answer n ≡ ok m → NamesIssuer m
unfolding lit
names_issuer zero m h = absurd (ground (arith, h))
names_issuer (suc n) m h = subst NamesIssuer (ok_of h) refl

begun_starting : begun.phase ≡ starting
unfolding start new effective_key create_config lit
begun_starting = refl

abbrev initialized_system : System
initialized_system = initialize_metadata answer at_once now now begun

initialized_ready : initialized_system.phase ≡ ready
unfolding start new effective_key create_config lit
initialized_ready =
    (initialize_metadata-ready answer at_once now now 1 service.endpoints begun refl
      (λ n. omega arith) (omega arith) ((lit "refused", refl), tt) refl refl).0

-- the discovery, a revocation, a request, and a tick of the clean-up
abbrev served : System
served =
    (handle outside now home world (update_verifier (revoke_token now token) initialized_system)).0

served-Steps :
    Steps (λ d. pos 0) NamesIssuer begun (update_verifier (token_cleanup (λ d. pos 0) now) served)
unfolding handle
served-Steps =
    more
      (more
        (more (more done (initialize answer at_once now now names_issuer begun_starting))
          (revoke now token))
        (serve outside now home world (λ h. initialized_ready)))
      (clean_tokens now)

Steps-size_example :
    (length (token_cleanup (λ d. pos 0) now served.state.verifier).token_cache.items ≤ 500)
    × (length (token_cleanup (λ d. pos 0) now served.state.verifier).blacklist.items ≤ 500)
Steps-size_example =
    Steps-size (λ d. pos 0) NamesIssuer false (λ v. true) create_config world begun
      (update_verifier (token_cleanup (λ d. pos 0) now) served) (λ d h. omega (arith, h)) start_run
      served-Steps

Steps-ready_example : NamesIssuer initialized_system.service.endpoints
Steps-ready_example =
    Steps-ready (λ d. pos 0) NamesIssuer false (λ v. true) create_config world begun
      initialized_system start_run
      (more done (initialize answer at_once now now names_issuer begun_starting)) initialized_ready

-- a provider that never answers
abbrev silence : ℕ → Result ProviderMetadata
silence n = fail (lit "refused")

abbrev stuck : System
stuck = initialize_metadata silence at_once now now begun

refusal : (e : Str) × (◌≡◌ {A = Result ProviderMetadata} (fail (lit "refused")) (fail e))
refusal = (lit "refused", refl)

Steps-gave_up_example :
    (stuck.phase ≡ gave_up)
    × ((o : Outside) (time : ℤ) (req : Request) (w : World)
        → (o.wait ≡ initialized → stuck.phase ≡ ready)
        → is_unavailable (handle o time req w stuck).1 ≡ true)
unfolding start new effective_key create_config lit
Steps-gave_up_example =
    Steps-gave_up (λ d. pos 0) NamesIssuer silence at_once now now begun stuck refl
      (refusal, (refusal, (refusal, (refusal, (refusal, tt))))) done

initialize_metadata-ready_example :
    (initialized_system.phase ≡ ready)
    × ((o : Outside) (time : ℤ) (req : Request) (w : World)
        → o.wait ≡ initialized
        → (handle o time req w initialized_system).1 ≡ (
            if bypasses begun.service req
            then forward req.headers []
            else (serve_protected
                (record begun.service { endpoints = service.endpoints })
                o
                time
                req
                (set_world w begun.state)).1))
unfolding start new effective_key create_config lit
initialize_metadata-ready_example =
    initialize_metadata-ready answer at_once now now 1 service.endpoints begun refl
      (λ n. omega arith) (omega arith) ((lit "refused", refl), tt) refl refl

chunk_loops-enough_example :
    (load_chunks access store 1 (store.cookie_count + 7) 0 world
      ≡ token_chunk_sessions access store 1 world)
    × (expire_chunks access store 1 (store.cookie_count + 7) 0 world
        ≡ expire_chunks access store 1 store.cookie_count 0 world)
chunk_loops-enough_example = chunk_loops-enough access store 1 0 7 world refl (omega arith)

-- a provider that accepts every revocation
abbrev revocable : Service
revocable = record service { endpoints = record service.endpoints { revoke_url = lit "r" } }

revoke_token_with_provider-ok_example :
    (revoke_token_with_provider revocable outside
        (λ u. none)
        (λ u f. response 200 [])
        token
        (lit "refresh_token")
      ≡ ok tt)
    ↔ ((is_blank revocable.endpoints.revoke_url ≡ false)
        × (◌≡◌ {A = Option Str} none none)
        × ((body : Str) × (response 200 [] ≡ response 200 body)))
revoke_token_with_provider-ok_example =
    revoke_token_with_provider-ok revocable outside (λ u. none) (λ u f. response 200 []) token
      (lit "refresh_token")

-- a source of zero bytes, with encodings of the right lengths
abbrev zeros : ℕ → Str
zeros zero = []
zeros (suc n) = 0 ∷ zeros n

length-zeros : (n : ℕ) → length (zeros n) ≡ n
length-zeros zero = refl
length-zeros (suc n) = ap suc (length-zeros n)

abbrev entropy : Entropy
entropy = record {
  read = λ n. ok (zeros n);
  sha256 = λ s. zeros 32;
  url_encode = λ s. zeros ((length s + 2) / 3 * 4);
  raw_url_encode = λ s. zeros ((length s * 4 + 2) / 3);
  hex_encode = λ s. zeros (length s * 2);
}

generate-lengths_example :
    ((s : Str) → generate_nonce entropy ≡ ok s → length s ≡ 44)
    × ((s : Str) → generate_code_verifier entropy ≡ ok s → length s ≡ 43)
    × ((s : Str) → length (derive_code_challenge entropy s) ≡ 43)
    × ((n : ℕ) (s : Str) → generate_secure_random_string entropy n ≡ ok s → length s ≡ n * 2)
generate-lengths_example = generate-lengths entropy (record {
  length-read = λ n bytes h. sym (ap length (ok_of h)) ∙ length-zeros n;
  length-sha256 = λ s. length-zeros 32;
  length-url_encode = λ s. length-zeros ((length s + 2) / 3 * 4);
  length-raw_url_encode = λ s. length-zeros ((length s * 4 + 2) / 3);
  length-hex_encode = λ s. length-zeros (length s * 2);
})

injective-zeros : (i j : ℕ) → zeros i ≡ zeros j → i ≡ j
injective-zeros i j h = sym (length-zeros i) ∙ ap length h ∙ length-zeros j

cookie_name-injective_example : ◌≡◌ {A = Name} (chunk access 3) (chunk access 3)
cookie_name-injective_example =
    cookie_name-injective zeros injective-zeros (chunk access 3) (chunk access 3) refl

lookup-create_string_map_example :
    is_some (lookup (lit "d") (create_string_map (lit "c" ∷ lit "d" ∷ [])))
    ≡ any (λ key. str_eq key (lit "d")) (lit "c" ∷ lit "d" ∷ [])
lookup-create_string_map_example = lookup-create_string_map (lit "d") (lit "c" ∷ lit "d" ∷ [])
