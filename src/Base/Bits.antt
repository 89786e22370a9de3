-- ===== src/Base/Bits.antt =====
-- Bit masks as arithmetic: on one byte by tables, at every width from the digit recursion.
use Prim.Native.Nat.{
  ℕ, zero, suc, ◌+◌, ◌-◌, ◌*◌, ◌/◌, ◌%◌, ◌^◌, ◌≤◌, ◌<◌, min, bit_and, bit_or, digits,
  bit_and-bitwise,
}
use mathlib.Core.Path.{◌≡◌, refl, sym, ap}
use mathlib.Core.Bool.{Bool, true, ◌&&◌}
use native.Mathlib.Omega.{arith}
use native.Mathlib.Nat.{pow-suc, div-add-mod}
use simq.Base.Tests.{◌==◌}

-- `f` and `g` agree on every number below the bound, by evaluation.
unfoldable pub agrees : ℕ → (ℕ → ℕ) → (ℕ → ℕ) → Bool
agrees zero f g = true
agrees (suc n) f g = (f n == g n) && agrees n f g

pub agrees_lem : (n : ℕ) (f g : ℕ → ℕ) → agrees n f g ≡ true → (x : ℕ) → x < n → f x ≡ g x
unfolding agrees
agrees_lem zero f g h x lt = absurd (omega arith)
agrees_lem (suc n) f g h x lt = ground (arith, agrees_lem n f g (ground arith) x)

-- `b & 127`, `b & 128` and `b | 128` on a byte.
pub and_127 : (b : ℕ) → b < 256 → bit_and b 127 ≡ b % 128
unfolding agrees
and_127 = agrees_lem 256 (λ b. bit_and b 127) (λ b. b % 128) refl

pub and_128 : (b : ℕ) → b < 256 → bit_and b 128 ≡ b / 128 * 128
unfolding agrees
and_128 = agrees_lem 256 (λ b. bit_and b 128) (λ b. b / 128 * 128) refl

pub or_128 : (b : ℕ) → b < 256 → bit_or b 128 ≡ b % 128 + 128
unfolding agrees
or_128 = agrees_lem 256 (λ b. bit_or b 128) (λ b. b % 128 + 128) refl

-- One digit of `a & b`, from the definition that the native operation stands for.
digit_steps :
    (n m a b : ℕ) → a ≤ n → a ≤ m → digits (λ _. zero) min n a b ≡ digits (λ _. zero) min m a b
digit_steps zero zero a b p q = refl
digit_steps zero (suc m) zero b p q = refl
digit_steps zero (suc m) (suc a) b p q = absurd (omega arith)
digit_steps (suc n) zero zero b p q = refl
digit_steps (suc n) zero (suc a) b p q = absurd (omega arith)
digit_steps (suc n) (suc m) zero b p q = refl
digit_steps (suc n) (suc m) (suc a) b p q =
    omega (arith, digit_steps n m (suc a / 2) (b / 2) (omega arith) (omega arith))

and_zero_left : (b : ℕ) → bit_and 0 b ≡ 0
and_zero_left b = bit_and-bitwise 0 b

pub and_digit : (a b : ℕ) → bit_and a b ≡ bit_and (a / 2) (b / 2) * 2 + min (a % 2) (b % 2)
and_digit zero b = omega (arith, and_zero_left b, and_zero_left (b / 2))
and_digit (suc a) b = omega (
  arith,
  bit_and-bitwise (suc a) b,
  bit_and-bitwise (suc a / 2) (b / 2),
  digit_steps a (suc a / 2) (suc a / 2) (b / 2) (omega arith) (omega arith),
)

and_zero_below : (n a : ℕ) → a ≤ n → bit_and a 0 ≡ 0
and_zero_below n zero h = refl
and_zero_below zero (suc a) h = absurd (omega arith)
and_zero_below (suc n) (suc a) h =
    omega (arith, and_digit (suc a) 0, and_zero_below n (suc a / 2) (omega arith))

pub and_zero : (a : ℕ) → bit_and a 0 ≡ 0
and_zero a = and_zero_below a a (omega arith)

pub pow_pos : (k : ℕ) → 0 < 2 ^ k
pow_pos zero = omega arith
pow_pos (suc k) = omega (arith, pow_pos k, pow-suc 2 k)

mod_of_parts : (a m q r : ℕ) → q * m + r ≡ a → r < m → a % m ≡ r
mod_of_parts a m q r e h = grind arith

mask_digit : (a p : ℕ) → 0 < p → a / 2 % p * 2 + a % 2 ≡ a % (2 * p)
mask_digit a p h = sym (
    mod_of_parts a (2 * p) (a / 2 / p) (a / 2 % p * 2 + a % 2)
      (omega (arith, ap (λ (t : ℕ). 2 * t) (div-add-mod (a / 2) p))) (omega arith))

half_pow : (k : ℕ) → (2 ^ suc k - 1) / 2 ≡ 2 ^ k - 1
half_pow k = omega (arith, pow-suc 2 k, pow_pos k)

-- `n & (2^k - 1)` is `n % 2^k`.
pub and_mask : (k a : ℕ) → bit_and a (2 ^ k - 1) ≡ a % 2 ^ k
and_mask zero a = omega (arith, and_zero a)
and_mask (suc k) a =
    let upper : bit_and (a / 2) ((2 ^ suc k - 1) / 2) ≡ a / 2 % 2 ^ k =
      rw (half_pow k) (and_mask k (a / 2)) in
    omega (
      arith,
      and_digit a (2 ^ suc k - 1),
      pow-suc 2 k,
      pow_pos k,
      upper,
      mask_digit a (2 ^ k) (pow_pos k),
      ap (λ (t : ℕ). a % t) (double k),
    )
  where
    double : (j : ℕ) → 2 ^ suc j ≡ 2 * 2 ^ j
    double j = omega (arith, pow-suc 2 j)
