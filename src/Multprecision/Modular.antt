-- ===== src/Multprecision/Modular.antt =====
-- Arithmetic modulo the p of a curve: multiprecision_add_mod, multiprecision_sub_mod and
-- multiprecision_lshift_mod of p_256_multprecision.c, and the p that p_256_init_curve of
-- BT/libbt/src/algorithms/p_256_curvepara.c sets.
use uwe5631_aml.Common.{ℕ, not, Option, none, some, List, [], ◌∷◌, ◌==◌, if◌then◌else◌}
use uwe5631_aml.Multprecision.{
  less, multiprecision_compare, multiprecision_add, multiprecision_sub, multiprecision_lshift,
}

-- curve.p and curve_p256.p, least significant word first. curve.p is not a prime.
abbrev pub curve_p : List ℕ
curve_p = 0xFFFFFFFF ∷ 0xFFFFFFFF ∷ 0xFFFFFFFF ∷ 0x0 ∷ 0x00000001 ∷ 0xFFFFFFFF ∷ []

abbrev pub curve_p256_p : List ℕ
curve_p256_p = 0xFFFFFFFF ∷ 0xFFFFFFFF ∷ 0xFFFFFFFF ∷ 0x0 ∷ 0x0 ∷ 0x0 ∷ 0x00000001 ∷ 0xFFFFFFFF ∷ []

-- KEY_LENGTH_DWORDS_P192 is 6 and KEY_LENGTH_DWORDS_P256 is 8; `none` is the early return.
unfoldable pub modulus : ℕ → Option (List ℕ)
modulus key_length =
    if key_length == 6 then some curve_p else if key_length == 8 then some curve_p256_p else none

-- What a sum needs that is below twice the modulus: `c` and its carrier.
unfoldable pub subtract_once : List ℕ → List ℕ × ℕ → List ℕ
subtract_once modp (c, carrier) =
    if not (carrier == 0)
    then (multiprecision_sub c modp).0
    else elim (multiprecision_compare c modp) [ less ↦ c | _ ↦ (multiprecision_sub c modp).0 ]

-- `c` is what the result's array holds before, and keeps at another key length.
unfoldable pub multiprecision_add_mod : List ℕ → List ℕ → List ℕ → ℕ → List ℕ
multiprecision_add_mod c a b key_length = elim (modulus key_length) [
  | none ↦ c
  | some modp ↦ subtract_once modp (multiprecision_add a b)
]

unfoldable pub multiprecision_lshift_mod : List ℕ → List ℕ → ℕ → List ℕ
multiprecision_lshift_mod c a key_length = elim (modulus key_length) [
  | none ↦ c
  | some modp ↦ subtract_once modp (multiprecision_lshift a)
]

unfoldable pub add_back : List ℕ → List ℕ × ℕ → List ℕ
add_back modp (c, borrow) = if not (borrow == 0) then (multiprecision_add c modp).0 else c

unfoldable pub multiprecision_sub_mod : List ℕ → List ℕ → List ℕ → ℕ → List ℕ
multiprecision_sub_mod c a b key_length = elim (modulus key_length) [
  | none ↦ c
  | some modp ↦ add_back modp (multiprecision_sub a b)
]
