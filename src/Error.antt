-- ===== src/Error.antt =====
-- Go's errors: a value or an error, and an error is its text, which is all that the program
-- reads of it (`strings.Contains(err.Error(), …)`).
use traefikoidc.Base.{Bool, true, false, Option, none, some, ◌++◌, ◌≡◌, refl, ap, ◌⊎◌, inl, inr}
use traefikoidc.Base.Text.{Str, lit}

pub data Result {ℓ} (A : Type ℓ) : Type ℓ where
  ok : A → Result A
  fail : Str → Result A

infixl 5 ◌>>=◌ ◌>>◌
abbrev pub ◌>>=◌ {ℓ κ} : {A : Type ℓ} {B : Type κ} → Result A → (A → Result B) → Result B
ok a >>= f = f a
fail e >>= f = fail e

abbrev pub ◌>>◌ {ℓ} : {B : Type ℓ} → Result (Unit {0}) → Result B → Result B
m >> k = m >>= λ _. k

-- a failing call of a library whose error has this text
abbrev pub or_fail {ℓ} : {A : Type ℓ} → Option A → Str → Result A
or_fail none e = fail e
or_fail (some a) e = ok a

-- `if !b { return e }`
abbrev pub guard : Bool → Str → Result (Unit {0})
guard true e = ok tt
guard false e = fail e

-- `fmt.Errorf("text: %w", err)`
abbrev pub wrapped {ℓ} : {A : Type ℓ} → Str → Result A → Result A
wrapped text (ok a) = ok a
wrapped text (fail e) = fail (text ++ (lit ": " ++ e))

pub Result-cases {ℓ} :
    {A : Type ℓ} (r : Result A) → ((a : A) × (r ≡ ok a)) ⊎ ((e : Str) × (r ≡ fail e))
Result-cases (ok a) = inl (a, refl)
Result-cases (fail e) = inr (e, refl)

-- the same for a check, which has no value
pub check-cases : (r : Result (Unit {0})) → (r ≡ ok tt) ⊎ ((e : Str) × (r ≡ fail e))
check-cases (ok u) = inl refl
check-cases (fail e) = inr (e, refl)

-- `ok` is injective
pub ok_of {ℓ} : {A : Type ℓ} {a b : A} → ok a ≡ ok b → a ≡ b
ok_of {A} {a} h = ap (λ (r : Result A). elim r [ ok x ↦ x | fail e ↦ a ]) h
