-- ===== src/Multprecision/Value.antt =====
-- The number that an array of words stands for, and what it is to be such an array.
use uwe5631_aml.Common.{
  ℕ, zero, suc, ◌+◌, ◌*◌, ◌^◌, ◌<◌, ◌≡◌, refl, ap, List, [], ◌∷◌, ◌++◌, arith, length, replicate,
}
use native.Mathlib.Nat.{pow-suc}

abbrev pub value : List ℕ → ℕ
value [] = 0
value (x ∷ a) = x + 2 ^ 32 * value a

-- Every element fits a DWORD.
abbrev pub IsWords : List ℕ → Type 0
IsWords [] = Unit {0}
IsWords (x ∷ a) = (x < 2 ^ 32) × IsWords a

-- The first number beyond an array of the length of `a`, by recursion, so that it stays linear.
abbrev pub carried : List ℕ → ℕ → ℕ
carried [] u = u
carried (x ∷ a) u = 2 ^ 32 * carried a u

pub carried-eq-mul : (a : List ℕ) (u : ℕ) → carried a u ≡ (2 ^ 32) ^ length a * u
carried-eq-mul [] u = omega arith
carried-eq-mul (x ∷ a) u =
    omega (arith, carried-eq-mul a u, ap (λ (t : ℕ). t * u) (pow-suc (2 ^ 32) (length a)))

pub value-lt : (a : List ℕ) → IsWords a → value a < carried a 1
value-lt [] h = omega arith
value-lt (x ∷ a) h = omega (arith, value-lt a h.1)

pub carried-of_length : (a b : List ℕ) (u : ℕ) → length a ≡ length b → carried a u ≡ carried b u
carried-of_length [] [] u e = refl
carried-of_length [] (y ∷ b) u e = absurd (omega arith)
carried-of_length (x ∷ a) [] u e = absurd (omega arith)
carried-of_length (x ∷ a) (y ∷ b) u e =
    ap (λ (t : ℕ). 2 ^ 32 * t) (carried-of_length a b u (omega arith))

pub value-append : (a : List ℕ) (u : ℕ) → value (a ++ u ∷ []) ≡ value a + carried a u
value-append [] u = omega arith
value-append (x ∷ a) u = omega (arith, value-append a u)

pub IsWords-append : (a : List ℕ) (u : ℕ) → IsWords a → u < 2 ^ 32 → IsWords (a ++ u ∷ [])
IsWords-append [] u h k = (k, tt)
IsWords-append (x ∷ a) u h k = (h.0, IsWords-append a u h.1 k)

pub value-zeros : (n : ℕ) → value (replicate n 0) ≡ 0
value-zeros zero = refl
value-zeros (suc n) = omega (arith, value-zeros n)

pub zeros-IsWords : (n : ℕ) → IsWords (replicate n 0)
zeros-IsWords zero = tt
zeros-IsWords (suc n) = (omega arith, zeros-IsWords n)
