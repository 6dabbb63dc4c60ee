-- ===== src/Multprecision/Tests.antt =====
-- Concrete numbers, and what the theorems say of them.
use uwe5631_aml.Common.{ℕ, ◌+◌, ◌-◌, ◌*◌, ◌%◌, ◌≡◌, refl, some, List, [], ◌∷◌, arith, length}
use uwe5631_aml.Multprecision.{multiprecision_mult}
use uwe5631_aml.Multprecision.Value.{value, IsWords}
use uwe5631_aml.Multprecision.Mult.{multiprecision_mult_lem}
use uwe5631_aml.Multprecision.Modular.{
  curve_p256_p, modulus, multiprecision_add_mod, multiprecision_sub_mod, multiprecision_lshift_mod,
}
use uwe5631_aml.Multprecision.Modulus.{
  multiprecision_add_mod_lem, multiprecision_sub_mod_lem, multiprecision_lshift_mod_lem,
}

abbrev big : List ℕ
big = 0xFFFFFFFF ∷ 0xFFFFFFFF ∷ []

abbrev small : List ℕ
small = 3 ∷ 1 ∷ []

big-IsWords : IsWords big
big-IsWords = ground arith

small-IsWords : IsWords small
small-IsWords = ground arith

-- The last number below the modulus of the second curve.
abbrev last : List ℕ
last = 0xFFFFFFFE ∷ 0xFFFFFFFF ∷ 0xFFFFFFFF ∷ 0x0 ∷ 0x0 ∷ 0x0 ∷ 0x00000001 ∷ 0xFFFFFFFF ∷ []

last-IsWords : IsWords last
last-IsWords = ground arith

selected : modulus 8 ≡ some curve_p256_p
unfolding modulus
selected = refl

multiprecision_mult_example :
    let c = multiprecision_mult big small in
    (value c ≡ value big * value small) × IsWords c × (length c ≡ length big + length small)
multiprecision_mult_example = multiprecision_mult_lem big small big-IsWords small-IsWords

multiprecision_add_mod_example :
    let r = multiprecision_add_mod [] last last 8 in
    (value r ≡ (value last + value last) % value curve_p256_p)
    × IsWords r
    × (length r ≡ length curve_p256_p)
multiprecision_add_mod_example =
    multiprecision_add_mod_lem 8 curve_p256_p selected last refl last-IsWords (omega arith) [] last
      refl last-IsWords (omega arith)

multiprecision_sub_mod_example :
    let r = multiprecision_sub_mod [] last last 8 in
    (value r ≡ (value last + value curve_p256_p - value last) % value curve_p256_p)
    × IsWords r
    × (length r ≡ length curve_p256_p)
multiprecision_sub_mod_example =
    multiprecision_sub_mod_lem 8 curve_p256_p selected last refl last-IsWords (omega arith) [] last
      refl last-IsWords (omega arith)

multiprecision_lshift_mod_example :
    let r = multiprecision_lshift_mod [] last 8 in
    (value r ≡ 2 * value last % value curve_p256_p) × IsWords r × (length r ≡ length curve_p256_p)
multiprecision_lshift_mod_example =
    multiprecision_lshift_mod_lem 8 curve_p256_p selected last refl last-IsWords (omega arith) []
