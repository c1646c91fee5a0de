-- ===== src/Base/Bits.antt =====
-- `& 0x3F` is `% 64`, and `|` of words whose set bits are disjoint is `+`, from the digit recursion behind
-- `bit_and` and `bit_or`.
use Prim.Native.Nat.{
  ℕ, zero, suc, ◌+◌, ◌*◌, ◌/◌, ◌%◌, ◌^◌, ◌≤◌, ◌<◌, min, max, bit_and, bit_or, digits,
  bit_and-bitwise, bit_or-bitwise,
}
use mathlib.Core.Path.{◌≡◌, refl, sym, ap, ◌∙◌}
use native.Mathlib.Omega.{arith}
use native.Mathlib.Nat.{pow-suc}

-- Digits beyond those of the first number add nothing, so the count of digits may be any bound.
digits_bound :
    (rest : ℕ → ℕ) (bit : ℕ → ℕ → ℕ) (k l x y : ℕ)
    → x ≤ k
    → x ≤ l
    → digits rest bit k x y ≡ digits rest bit l x y
digits_bound rest bit (suc k) (suc l) (suc x) y p q =
    ap (λ (t : ℕ). t * 2 + bit (suc x % 2) (y % 2))
      (digits_bound rest bit k l (suc x / 2) (y / 2) (omega arith) (omega arith))
digits_bound rest bit (suc k) zero (suc x) y p q = absurd (omega arith)
digits_bound rest bit zero l (suc x) y p q = absurd (omega arith)
digits_bound rest bit k l zero y p q = digits-zero k ∙ sym (digits-zero l)
  where
    digits-zero : (n : ℕ) → digits rest bit n 0 y ≡ rest y
    digits-zero zero = refl
    digits-zero (suc n) = refl

zero-bit_or : (b : ℕ) → bit_or 0 b ≡ b
zero-bit_or b = bit_or-bitwise 0 b

-- The lowest bits and the other bits of a disjunction.
bit_or_halves : (x y : ℕ) → max (x % 2) (y % 2) + 2 * bit_or (x / 2) (y / 2) ≡ bit_or x y
bit_or_halves (suc x) y =
    let half = suc x / 2 in
    let others = digits_bound (λ t. t) max x half half (y / 2) (omega arith) (omega arith) in
    omega (arith, others, bit_or-bitwise half (y / 2), bit_or-bitwise (suc x) y)
bit_or_halves zero y = omega (arith, zero-bit_or (y / 2), zero-bit_or y)

bit_or-zero_fuel : (n a : ℕ) → a ≤ n → bit_or a 0 ≡ a
bit_or-zero_fuel n zero h = refl
bit_or-zero_fuel zero (suc a) h = absurd (omega arith)
bit_or-zero_fuel (suc n) (suc a) h =
    omega (arith, bit_or_halves (suc a) 0, bit_or-zero_fuel n (suc a / 2) (omega arith))

bit_or-zero : (a : ℕ) → bit_or a 0 ≡ a
bit_or-zero a = bit_or-zero_fuel a a (omega arith)

bit_or-double : (a y : ℕ) → bit_or (a * 2) y ≡ bit_or a (y / 2) * 2 + y % 2
bit_or-double a y =
    let half : a * 2 / 2 ≡ a = omega arith in
    let even : a * 2 % 2 ≡ 0 = omega arith in
    omega (arith, rw (half, even) at (bit_or_halves (a * 2) y))

-- `(x << k) | y` is a sum where `y` has at most `k` bits.
pub bit_or-disjoint : (k x y : ℕ) → y < 2 ^ k → bit_or (x * 2 ^ k) y ≡ x * 2 ^ k + y
bit_or-disjoint zero x y h =
    let shift : x * 2 ^ 0 ≡ x = omega arith in
    let none_set : y ≡ 0 = omega arith in rw (shift, none_set) (bit_or-zero x ∙ omega arith)
bit_or-disjoint (suc k) x y h =
    let shift : x * 2 ^ suc k ≡ x * 2 ^ k * 2 = rw (pow-suc 2 k) (omega arith) in
    let few : y < 2 ^ k * 2 = omega (arith, pow-suc 2 k) in
    rw shift (omega (arith, bit_or-double (x * 2 ^ k) y, bit_or-disjoint k x (y / 2) (omega arith)))

-- The lowest bits and the other bits of a conjunction.
bit_and_halves : (x y : ℕ) → min (x % 2) (y % 2) + 2 * bit_and (x / 2) (y / 2) ≡ bit_and x y
bit_and_halves (suc x) y =
    let half = suc x / 2 in
    let others = digits_bound (λ _. 0) min x half half (y / 2) (omega arith) (omega arith) in
    omega (arith, others, bit_and-bitwise half (y / 2), bit_and-bitwise (suc x) y)
bit_and_halves zero y = omega (arith, bit_and-bitwise 0 (y / 2), bit_and-bitwise 0 y)

bit_and-zero_bound : (n a : ℕ) → a ≤ n → bit_and a 0 ≡ 0
bit_and-zero_bound n zero h = bit_and-bitwise 0 0
bit_and-zero_bound zero (suc a) h = absurd (omega arith)
bit_and-zero_bound (suc n) (suc a) h =
    omega (arith, bit_and_halves (suc a) 0, bit_and-zero_bound n (suc a / 2) (omega arith))

bit_and-odd : (a m : ℕ) → bit_and a (m * 2 + 1) ≡ bit_and (a / 2) m * 2 + a % 2
bit_and-odd a m =
    let half : (m * 2 + 1) / 2 ≡ m = omega arith in
    let odd : (m * 2 + 1) % 2 ≡ 1 = omega arith in
    omega (arith, rw (half, odd) at (bit_and_halves a (m * 2 + 1)))

pub bit_and-63 : (a : ℕ) → bit_and a 63 ≡ a % 64
bit_and-63 a = omega (
  arith,
  bit_and-odd a 31,
  bit_and-odd (a / 2) 15,
  bit_and-odd (a / 2 / 2) 7,
  bit_and-odd (a / 2 / 2 / 2) 3,
  bit_and-odd (a / 2 / 2 / 2 / 2) 1,
  bit_and-odd (a / 2 / 2 / 2 / 2 / 2) 0,
  bit_and-zero_bound (a / 2 / 2 / 2 / 2 / 2 / 2) (a / 2 / 2 / 2 / 2 / 2 / 2) (omega arith),
)
