-- ===== src/Base/Bits.antt =====
-- Facts about `^` and `&` on machine words, from the digits that the operations stand for.
use Prim.Native.Nat.{
  ℕ, zero, suc, ◌-◌, ◌/◌, ◌%◌, ◌^◌, ◌≤◌, ◌<◌, bit_and, bit_xor, digits, differ, min,
  bit_xor-bitwise, bit_and-bitwise,
}
use mathlib.Core.Path.{◌≡◌, refl}
use native.Mathlib.Nat.{le_refl, pow-suc, one-le-pow}
use native.Mathlib.Omega.{arith}

differ_one : (a : ℕ) → a < 2 → differ a 1 ≡ 1 - a
differ_one zero h = refl
differ_one (suc zero) h = refl
differ_one (suc (suc a)) h = absurd (omega arith)

xor_ones_digits :
    (n k x : ℕ) → x ≤ n → x < 2 ^ k → digits (λ b. b) differ n x (2 ^ k - 1) ≡ 2 ^ k - 1 - x
xor_ones_digits zero k zero le lt = omega arith
xor_ones_digits zero k (suc x) le lt = absurd (omega arith)
xor_ones_digits (suc n) k zero le lt = omega arith
xor_ones_digits (suc n) zero (suc x) le lt = absurd (omega arith)
xor_ones_digits (suc n) (suc k) (suc x) le lt =
    let ones : (2 ^ suc k - 1) / 2 ≡ 2 ^ k - 1 = omega (arith, pow-suc 2 k, one-le-pow k 2) in
    let low : (2 ^ suc k - 1) % 2 ≡ 1 = omega (arith, pow-suc 2 k, one-le-pow k 2) in
    rw (ones, low)
      (omega (
        arith,
        pow-suc 2 k,
        one-le-pow k 2,
        differ_one (suc x % 2),
        xor_ones_digits n k (suc x / 2) (omega arith) (omega (arith, pow-suc 2 k)),
      ))

-- `x ^ ones` complements the k bits of x.
pub bit_xor-ones : (k x : ℕ) → x < 2 ^ k → bit_xor x (2 ^ k - 1) ≡ 2 ^ k - 1 - x
bit_xor-ones k x h = rw bit_xor-bitwise (xor_ones_digits x k x (le_refl x) h)

differ_zero : (a : ℕ) → differ a 0 ≡ a
differ_zero zero = refl
differ_zero (suc a) = refl

xor_zero_digits : (n x : ℕ) → x ≤ n → digits (λ b. b) differ n x 0 ≡ x
xor_zero_digits zero zero le = refl
xor_zero_digits zero (suc x) le = absurd (omega arith)
xor_zero_digits (suc n) zero le = refl
xor_zero_digits (suc n) (suc x) le =
    omega (arith, differ_zero (suc x % 2), xor_zero_digits n (suc x / 2) (omega arith))

pub bit_xor-zero : (x : ℕ) → bit_xor x 0 ≡ x
bit_xor-zero x = rw bit_xor-bitwise (xor_zero_digits x x (le_refl x))

and_zero_digits : (n x : ℕ) → digits (λ b. 0) min n x 0 ≡ 0
and_zero_digits zero x = refl
and_zero_digits (suc n) zero = refl
and_zero_digits (suc n) (suc x) = omega (arith, and_zero_digits n (suc x / 2))

and_one_digits : (n x : ℕ) → x ≤ n → digits (λ b. 0) min n x 1 ≡ x % 2
and_one_digits zero zero le = refl
and_one_digits zero (suc x) le = absurd (omega arith)
and_one_digits (suc n) zero le = refl
and_one_digits (suc n) (suc x) le = omega (arith, and_zero_digits n (suc x / 2))

pub bit_and-one : (x : ℕ) → bit_and x 1 ≡ x % 2
bit_and-one x = rw bit_and-bitwise (and_one_digits x x (le_refl x))
