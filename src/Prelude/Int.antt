-- ===== src/Prelude/Int.antt =====
-- Signed Go integers over the native numbers (the library's ℤ stands on the unary ℕ). Orders and
-- sums go through the two parts of an integer, which are numbers.
use Prim.Native.Nat.{ℕ, suc, ◌+◌, ◌-◌, ◌*◌, ◌/◌, ◌%◌, ◌^◌, ◌≤◌, ◌<◌}
use mathlib.Core.Path.{◌≡◌}
use mathlib.Core.Logic.{◌↔◌}
use mathlib.Core.Bool.{Bool, true, false}
use native.Mathlib.Omega.{arith}
use ollama_local_hives_clust.Prelude.Tests.{ltb, ◌==◌, if◌then◌else◌}

-- `negsuc n` is -(n + 1).
pub data ℤ : Type 0 where
  pos : ℕ → ℤ
  negsuc : ℕ → ℤ

abbrev pub pos_part : ℤ → ℕ
pos_part (pos n) = n
pos_part (negsuc n) = 0

abbrev pub neg_part : ℤ → ℕ
neg_part (pos n) = 0
neg_part (negsuc n) = suc n

infix 50 ◌≤ℤ◌ ◌<ℤ◌
abbrev pub ◌≤ℤ◌ : ℤ → ℤ → Type 0
a ≤ℤ b = pos_part a + neg_part b ≤ pos_part b + neg_part a

abbrev pub ◌<ℤ◌ : ℤ → ℤ → Type 0
a <ℤ b = pos_part a + neg_part b < pos_part b + neg_part a

abbrev pub ltb_ℤ : ℤ → ℤ → Bool
ltb_ℤ a b = ltb (pos_part a + neg_part b) (pos_part b + neg_part a)

pub ltb_ℤ→lt : (a b : ℤ) → ltb_ℤ a b ≡ true → a <ℤ b
ltb_ℤ→lt a b h = ground arith

pub ltb_ℤ→le : (a b : ℤ) → ltb_ℤ a b ≡ false → b ≤ℤ a
ltb_ℤ→le a b h = ground arith

abbrev pub eqb_ℤ : ℤ → ℤ → Bool
eqb_ℤ a b = pos_part a + neg_part b == pos_part b + neg_part a

pub eqb_ℤ→parts : (a b : ℤ) → eqb_ℤ a b ≡ true → pos_part a + neg_part b ≡ pos_part b + neg_part a
eqb_ℤ→parts a b h = ground arith

pub eqb_ℤ_iff : (a b : ℤ) → (eqb_ℤ a b ≡ true) ↔ (a ≡ b)
eqb_ℤ_iff a b = (λ h. ground arith, λ e. ground arith)

-- Go's `int` is a 64-bit word: the word of an integer, and the integer that a word stands for.
abbrev pub word_of : ℤ → ℕ
word_of (pos n) = n % 2 ^ 64
word_of (negsuc n) = 2 ^ 64 - 1 - n % 2 ^ 64

abbrev pub of_word : ℕ → ℤ
of_word w = if ltb w (2 ^ 63) then pos w else negsuc (2 ^ 64 - 1 - w)

-- a - b, wrapping round
unfoldable pub sub64 : ℤ → ℤ → ℤ
sub64 a b = of_word ((word_of a + 2 ^ 64 - word_of b) % 2 ^ 64)

-- a + b, wrapping round
unfoldable pub add64 : ℤ → ℤ → ℤ
add64 a b = of_word ((word_of a + word_of b) % 2 ^ 64)

-- a * b, wrapping round
unfoldable pub mul64 : ℤ → ℤ → ℤ
mul64 a b = of_word ((word_of a * word_of b) % 2 ^ 64)

-- a / n, towards 0
abbrev pub quot : ℤ → ℕ → ℤ
quot (pos m) n = pos (m / n)
quot (negsuc m) n = if ltb m (n - 1) then pos 0 else negsuc ((m + 1) / n - 1)

-- The difference of two integers that are not negative is exact.
pub sub64_nonneg :
    (m n : ℕ)
    → m < 2 ^ 63
    → n < 2 ^ 63
    → sub64 (pos m) (pos n) ≡ (if ltb m n then negsuc (n - m - 1) else pos (m - n))
unfolding sub64
sub64_nonneg m n hm hn = ground arith
