-- ===== src/Session/Cookies.antt =====
-- The names of the cookies (session.go).
use traefikoidc.Base.{ℕ, ◌≡◌, refl, ap, arith, ◌++◌}
use traefikoidc.Base.Text.{Str, lit}
use traefikoidc.Session.{Kind, access, refresh, Name, main, primary, chunk}

-- `accessTokenCookie` and `refreshTokenCookie`
unfoldable pub token_cookie : Kind → Str
token_cookie access = lit "_oidc_raczylo_a"
token_cookie refresh = lit "_oidc_raczylo_r"

-- the name of a session's cookie: `mainCookieName`, the above, and `fmt.Sprintf("%s_%d", baseName, i)`,
-- where `show_nat` prints a number
unfoldable pub cookie_name : (show_nat : ℕ → Str) → Name → Str
cookie_name show_nat main = lit "_oidc_raczylo_m"
cookie_name show_nat (primary kind) = token_cookie kind
cookie_name show_nat (chunk kind i) = token_cookie kind ++ (lit "_" ++ show_nat i)

-- Two sessions of a request have the same cookie only if they are the same, where no two numbers are
-- printed alike.
pub cookie_name-injective :
    (show_nat : ℕ → Str)
    → ((i j : ℕ) → show_nat i ≡ show_nat j → i ≡ j)
    → (m n : Name) → cookie_name show_nat m ≡ cookie_name show_nat n
    → m ≡ n
unfolding cookie_name token_cookie lit
cookie_name-injective show_nat inj main main h = refl
cookie_name-injective show_nat inj main (primary access) h = absurd (ground (arith, h))
cookie_name-injective show_nat inj main (primary refresh) h = absurd (ground (arith, h))
cookie_name-injective show_nat inj (primary access) (primary access) h = refl
cookie_name-injective show_nat inj (primary refresh) (primary refresh) h = refl
cookie_name-injective show_nat inj (chunk access i) (chunk access j) h =
    ap (chunk access) (inj i j (ground (arith, h)))
cookie_name-injective show_nat inj (chunk refresh i) (chunk refresh j) h =
    ap (chunk refresh) (inj i j (ground (arith, h)))
cookie_name-injective show_nat inj _ _ h = absurd (ground (arith, h))
