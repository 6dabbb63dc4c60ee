-- ===== src/Common/Bits.antt =====
-- `bit_and` with a mask: no larger than the mask, and the remainder where the mask is all ones.
use Prim.Native.Nat.{
  ℕ, zero, suc, ◌+◌, ◌-◌, ◌*◌, ◌/◌, ◌%◌, ◌^◌, ◌≤◌, ◌<◌, ◌∣◌, min, bit_and, digits, bit_and-bitwise,
}
use mathlib.Core.Path.{◌≡◌, ◌∙◌, ap, sym}
use native.Mathlib.Nat.{
  zero-mod, div-add-mod, mod-lt, add-mul-mod_self_left, mod-eq_of_lt, pow-suc, one-le-pow,
  mod-mod_of_dvd,
}
use native.Mathlib.Omega.{arith}

-- The digit recursion that the native operation stands for, with its fuel.
abbrev and_digits : ℕ → ℕ → ℕ → ℕ
and_digits n a b = digits (λ b. zero) min n a b

and_digits-le : (n a b : ℕ) → and_digits n a b ≤ b
and_digits-le zero a b = omega arith
and_digits-le (suc n) zero b = omega arith
and_digits-le (suc n) (suc a) b = omega (arith, and_digits-le n (suc a / 2) (b / 2))

pub bit_and-le : (a b : ℕ) → bit_and a b ≤ b
bit_and-le a b = omega (arith, bit_and-bitwise a b, and_digits-le a a b)

-- The remainder by 2 p, from that of the half by p.
mod_double : (a p : ℕ) → 0 < p → a % (2 * p) ≡ a / 2 % p * 2 + a % 2
mod_double a p h =
    ap (λ (t : ℕ). t % (2 * p)) split
    ∙ (add-mul-mod_self_left low (2 * p) (a / 2 / p)
        ∙ mod-eq_of_lt (omega (arith, mod-lt (a / 2) {m = p} h)))
  where
    low : ℕ
    low = a / 2 % p * 2 + a % 2

    split : a ≡ low + 2 * p * (a / 2 / p)
    split = omega (arith, div-add-mod (a / 2) p)

and_digits_low : (n k a : ℕ) → a ≤ n → and_digits n a (2 ^ k - 1) ≡ a % 2 ^ k
and_digits_low n zero a h = omega (arith, and_digits-le n a 0)
and_digits_low zero (suc k) zero h = omega (arith, zero-mod (2 ^ suc k))
and_digits_low zero (suc k) (suc a) h = absurd (omega arith)
and_digits_low (suc n) (suc k) zero h = omega (arith, zero-mod (2 ^ suc k))
and_digits_low (suc n) (suc k) (suc a) h = omega (
  arith,
  pow-suc 2 k,
  one-le-pow k 2 (omega arith),
  ap (λ (t : ℕ). and_digits n (suc a / 2) t) half,
  and_digits_low n k (suc a / 2) (omega arith),
  ap (λ (t : ℕ). suc a % t) double,
  mod_double (suc a) (2 ^ k) (omega (arith, one-le-pow k 2 (omega arith))),
)
  where
    half : (2 ^ suc k - 1) / 2 ≡ 2 ^ k - 1
    half = omega (arith, pow-suc 2 k, one-le-pow k 2 (omega arith))

    double : 2 ^ suc k ≡ 2 * 2 ^ k
    double = omega (arith, pow-suc 2 k)

-- A mask of k ones keeps the k low bits.
pub bit_and_low : (k a : ℕ) → bit_and a (2 ^ k - 1) ≡ a % 2 ^ k
bit_and_low k a = bit_and-bitwise a (2 ^ k - 1) ∙ and_digits_low a k a (omega arith)

-- Such a mask does not see that a number was cut to 12 bits before.
pub bit_and_cut :
    (k a mask : ℕ) → mask + 1 ≡ 2 ^ k → (2 ^ k) ∣ 4096 → bit_and (a % 4096) mask ≡ bit_and a mask
bit_and_cut k a mask e d =
    ap (bit_and (a % 4096)) mask_eq
    ∙ (bit_and_low k (a % 4096)
        ∙ (mod-mod_of_dvd _ a d ∙ (sym (bit_and_low k a) ∙ ap (bit_and a) (sym mask_eq))))
  where
    mask_eq : mask ≡ 2 ^ k - 1
    mask_eq = omega arith
