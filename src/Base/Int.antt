-- ===== src/Base/Int.antt =====
-- Signed instants and durations in nanoseconds, as Go's `time` package counts them: an instant is
-- measured from the Unix epoch. The overflow of int64 durations (after 292 years) is left out.
use Prim.Native.Nat.{ℕ, suc, ◌+◌, ◌-◌, ◌*◌, ◌≤◌, ◌<◌}
use mathlib.Core.Path.{◌≡◌}
use mathlib.Core.Bool.{Bool, true, false}
use native.Mathlib.Omega.{arith}
use traefikoidc.Base.Tests.{ltb, leb, if◌then◌else◌}

-- `negsuc n` is -(n + 1).
pub data ℤ : Type 0 where
  pos : ℕ → ℤ
  negsuc : ℕ → ℤ

abbrev pub pos_part : ℤ → ℕ
pos_part (pos n) = n
pos_part (negsuc n) = 0

abbrev pub neg_part : ℤ → ℕ
neg_part (pos n) = 0
neg_part (negsuc n) = suc n

-- a - b, as an integer.
abbrev pub sub_ℕ : ℕ → ℕ → ℤ
sub_ℕ a b = if leb b a then pos (a - b) else negsuc (b - a - 1)

infixl 65 ◌+ℤ◌ ◌-ℤ◌
infix 50 ◌≤ℤ◌ ◌<ℤ◌
unfoldable pub ◌+ℤ◌ : ℤ → ℤ → ℤ
a +ℤ b = sub_ℕ (pos_part a + pos_part b) (neg_part a + neg_part b)

unfoldable pub ◌-ℤ◌ : ℤ → ℤ → ℤ
a -ℤ b = sub_ℕ (pos_part a + neg_part b) (neg_part a + pos_part b)

-- A multiple by a natural number.
unfoldable pub scale : ℕ → ℤ → ℤ
scale k a = sub_ℕ (pos_part a * k) (neg_part a * k)

abbrev pub ◌≤ℤ◌ : ℤ → ℤ → Type 0
a ≤ℤ b = pos_part a + neg_part b ≤ pos_part b + neg_part a

abbrev pub ◌<ℤ◌ : ℤ → ℤ → Type 0
a <ℤ b = pos_part a + neg_part b < pos_part b + neg_part a

-- `t.Before(u)`; `u.After(t)` is the same test.
abbrev pub before : ℤ → ℤ → Bool
before t u = ltb (pos_part t + neg_part u) (pos_part u + neg_part t)

abbrev pub after : ℤ → ℤ → Bool
after t u = before u t

-- nanoseconds in a second
abbrev pub second : ℕ
second = 1000000000

abbrev pub seconds : ℕ → ℤ
seconds n = pos (n * 1000000000)

-- `time.Unix(s, 0)`
abbrev pub unix : ℤ → ℤ
unix s = scale 1000000000 s

pub +ℤ_parts :
    (a b : ℤ)
    → pos_part (a +ℤ b) + neg_part a + neg_part b ≡ neg_part (a +ℤ b) + pos_part a + pos_part b
unfolding ◌+ℤ◌
+ℤ_parts a b = ground arith

pub -ℤ_parts :
    (a b : ℤ)
    → pos_part (a -ℤ b) + neg_part a + pos_part b ≡ neg_part (a -ℤ b) + pos_part a + neg_part b
unfolding ◌-ℤ◌
-ℤ_parts a b = ground arith

pub eq_of_parts : (a b : ℤ) → pos_part a + neg_part b ≡ pos_part b + neg_part a → a ≡ b
eq_of_parts a b h = ground arith

pub ruleset int_laws = (arith, +ℤ_parts, -ℤ_parts, eq_of_parts)

pub before-true : (a b : ℤ) → a <ℤ b → before a b ≡ true
before-true a b h = ground arith

pub before-false : (a b : ℤ) → b ≤ℤ a → before a b ≡ false
before-false a b h = ground arith

pub lt_of_before : (a b : ℤ) → before a b ≡ true → a <ℤ b
lt_of_before a b h = ground arith

pub le_of_not_before : (a b : ℤ) → before a b ≡ false → b ≤ℤ a
le_of_not_before a b h = ground arith

-- `t.Add(d).Sub(t)` is `d`.
pub add_sub_cancel : (t d : ℤ) → t +ℤ d -ℤ t ≡ d
add_sub_cancel t d = omega int_laws
