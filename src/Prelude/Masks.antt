-- ===== src/Prelude/Masks.antt =====
-- `x & (2^k - 1)` is the remainder by 2^k, at every k.
use Prim.Native.Nat.{digits, bit_and-bitwise, min}
use native.Mathlib.Nat.{
  dvd-mul_left, mod-mod_of_dvd, mod-eq_of_lt, add-mul-mod_self_left, mod-lt, pow-suc, zero-add,
  suc-add,
}
use bathos_mcuio.Prelude.{
  ℕ, zero, suc, ◌+◌, ◌-◌, ◌*◌, ◌/◌, ◌%◌, ◌^◌, ◌≤◌, ◌<◌, ◌≡◌, sym, ap, ◌∙◌, arith, bit_and,
}

pub pow-pos : (k : ℕ) → 0 < 2 ^ k
pow-pos zero = omega arith
pow-pos (suc k) = omega (arith, pow-suc 2 k, pow-pos k)

pub pow-add : (j k : ℕ) → 2 ^ (j + k) ≡ 2 ^ j * 2 ^ k
pow-add zero k = ap (λ t. 2 ^ t) (zero-add k) ∙ omega arith
pow-add (suc j) k =
    ap (λ t. 2 ^ t) (suc-add j k)
    ∙ omega (arith, pow-suc 2 (j + k), pow-add j k, ap (λ (t : ℕ). t * 2 ^ k) (pow-suc 2 j))

-- The lowest binary digit of a remainder by an even number, and the others.
pub mod_even : (x m : ℕ) → 0 < m → x / 2 % m * 2 + x % 2 ≡ x % (2 * m)
mod_even x m h =
    let q = x / 2 / m in
    let low = x / 2 % m * 2 + x % 2 in
    let below : low < 2 * m = omega (arith, mod-lt (x / 2) {m = m} h) in
    let parts : x ≡ low + 2 * m * q = grind arith in
    sym (ap (λ y. y % (2 * m)) parts ∙ add-mul-mod_self_left low (2 * m) q ∙ mod-eq_of_lt below)

-- The digits that `&` is defined by, at a mask of k ones.
mask_digits : (n k a : ℕ) → a ≤ n → digits (λ b. zero) min n a (2 ^ k - 1) ≡ a % 2 ^ k
mask_digits zero k zero h = sym (mod-eq_of_lt (pow-pos k))
mask_digits zero k (suc a) h = absurd (omega arith)
mask_digits (suc n) k zero h = sym (mod-eq_of_lt (pow-pos k))
mask_digits (suc n) zero (suc a) h = omega (arith, mask_digits n 0 (suc a / 2) (omega arith))
mask_digits (suc n) (suc k) (suc a) h =
    let half : (2 ^ suc k - 1) / 2 ≡ 2 ^ k - 1 = omega (arith, pow-suc 2 k, pow-pos k) in
    let odd : (2 ^ suc k - 1) % 2 ≡ 1 = omega (arith, pow-suc 2 k, pow-pos k) in
    let rest = mask_digits n k (suc a / 2) (omega arith) in
    rw (half, odd)
      (omega (arith, rest)
        ∙ mod_even (suc a) (2 ^ k) (pow-pos k)
        ∙ ap (λ t. suc a % t) (omega (arith, pow-suc 2 k)))

pub bit_and_mask : (k a : ℕ) → bit_and a (2 ^ k - 1) ≡ a % 2 ^ k
bit_and_mask k a = bit_and-bitwise a (2 ^ k - 1) ∙ mask_digits a k a (omega arith)

-- A remainder by a power of two forgets an earlier one by a larger power.
pub mod-mod-pow : (j k a : ℕ) → a % 2 ^ (j + k) % 2 ^ k ≡ a % 2 ^ k
mod-mod-pow j k a = mod-mod_of_dvd (2 ^ k) a (rw (pow-add j k) (dvd-mul_left (2 ^ k) (2 ^ j)))
