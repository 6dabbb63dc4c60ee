-- ===== src/Multprecision/Modulus.antt =====
-- The operations modulo curve.p and curve_p256.p compute modulo these numbers. That they are prime is
-- not used, and curve.p, as it is set for the key length 6, is not.
use uwe5631_aml.Common.{
  ℕ, zero, suc, ◌+◌, ◌-◌, ◌*◌, ◌%◌, ◌^◌, ◌≤◌, ◌<◌, ◌≡◌, refl, sym, ap, ◌∙◌, ◌⊎◌, inl, inr, some,
  List, arith, ◌==◌, Bool-cases, length,
}
use mathlib.Core.Path.{subst}
use mathlib.Core.Option.{some-injective}
use native.Mathlib.Nat.{mod-eq_of_lt, mod-eq-sub-mod}
use uwe5631_aml.Multprecision.{
  Sign, greater, equal, less, multiprecision_compare, multiprecision_add, multiprecision_sub,
  multiprecision_lshift,
}
use uwe5631_aml.Multprecision.Value.{value, IsWords, carried-eq-mul, value-lt}
use uwe5631_aml.Multprecision.Add.{
  multiprecision_add_lem, multiprecision_sub_lem, multiprecision_lshift_lem, Agrees,
  multiprecision_compare-Agrees,
}
use uwe5631_aml.Multprecision.Modular.{
  curve_p, curve_p256_p, modulus, subtract_once, add_back, multiprecision_add_mod,
  multiprecision_sub_mod, multiprecision_lshift_mod,
}

-- A number below twice the modulus, less the modulus if it is not below it.
mod_once : (s m : ℕ) → s < 2 * m → m ≤ s → s % m ≡ s - m
mod_once s m h le =
    mod-eq-sub-mod {n = s} {m = m} le ∙ mod-eq_of_lt {n = s - m} {m = m} (omega arith)

-- The first number that does not fit the words of `c`.
abbrev beyond : List ℕ → ℕ
beyond c = (2 ^ 32) ^ length c

value-lt-beyond : (a : List ℕ) → IsWords a → value a < beyond a
value-lt-beyond a h = omega (arith, value-lt a h, carried-eq-mul a 1)

at_most_one : (k : ℕ) → k ≤ 1 → (k ≡ 0) ⊎ (k ≡ 1)
at_most_one zero h = inl refl
at_most_one (suc zero) h = inr refl
at_most_one (suc (suc k)) h = absurd (omega arith)

-- Where the carrier `k` and the borrow `b` cancel: there are only two of the four cases.
difference :
    (v top k r p b s : ℕ)
    → v + top * k ≡ s
    → r + p ≡ v + top * b
    → k ≤ 1
    → b ≤ 1
    → p ≤ s
    → s < 2 * p
    → r < top
    → p < top
    → r ≡ s - p
difference v top k r p b s e f hk hb le lt hr hp = elim (at_most_one k hk) [
  | inl i ↦ elim (at_most_one b hb) [
    | inl j ↦ omega (arith, rw i at e, rw j at f)
    | inr j ↦ omega (arith, rw i at e, rw j at f)
  ]
  | inr i ↦ elim (at_most_one b hb) [
    | inl j ↦ omega (arith, rw i at e, rw j at f)
    | inr j ↦ omega (arith, rw i at e, rw j at f)
  ]
]

module _ (modp c : List ℕ) (same : length c ≡ length modp) (wm : IsWords modp)
    (wc : IsWords c) where
  -- The result's words, and that they stand for a number modulo the modulus.
  abbrev Reduces : ℕ → List ℕ → Type 0
  Reduces s r = (value r ≡ s % value modp) × IsWords r × (length r ≡ length modp)

  sub-Reduces :
      (s carrier : ℕ)
      → value c + beyond c * carrier ≡ s
      → carrier ≤ 1
      → value modp ≤ s
      → s < 2 * value modp
      → Reduces s (multiprecision_sub c modp).0
  sub-Reduces s carrier e k le lt =
      let q = multiprecision_sub_lem c modp same wc wm in
      let r = (multiprecision_sub c modp).0 in
      let beyond-r : beyond r ≡ beyond c = ap (λ (n : ℕ). (2 ^ 32) ^ n) q.3 in
      let beyond-m : beyond modp ≡ beyond c = ap (λ (n : ℕ). (2 ^ 32) ^ n) (sym same) in
      (
        difference (value c) (beyond c) carrier (value r) (value modp) (multiprecision_sub c modp).1
              s e q.0 k q.1 le lt (omega (arith, value-lt-beyond r q.2, beyond-r))
              (omega (arith, value-lt-beyond modp wm, beyond-m))
            ∙ sym (mod_once s (value modp) lt le),
        q.2,
        q.3 ∙ same,
      )

  by_sign :
      (s : ℕ) (sign : Sign)
      → Agrees sign (value c) (value modp)
      → value c ≡ s
      → s < 2 * value modp
      → Reduces s (elim sign [ less ↦ c | _ ↦ (multiprecision_sub c modp).0 ])
  by_sign s less h e lt = (e ∙ sym (mod-eq_of_lt {n = s} {m = value modp} (omega arith)), wc, same)
  by_sign s equal h e lt = sub-Reduces s 0 (omega arith) (omega arith) (omega arith) lt
  by_sign s greater h e lt = sub-Reduces s 0 (omega arith) (omega arith) (omega arith) lt

  subtract_once-Reduces :
      (s carrier : ℕ)
      → value c + beyond c * carrier ≡ s
      → carrier ≤ 1
      → s < 2 * value modp
      → Reduces s (subtract_once modp (c, carrier))
  unfolding subtract_once
  subtract_once-Reduces s carrier e k lt = elim (at_most_one carrier k) [
    | inl i ↦ rw i (
        by_sign s (multiprecision_compare c modp) (multiprecision_compare-Agrees c modp same wc wm)
          (omega (arith, rw i at e)) lt)
    | inr i ↦
        let f : beyond c ≡ beyond modp = ap (λ (n : ℕ). (2 ^ 32) ^ n) same in
        rw i (
          sub-Reduces s 1 (rw i at e) (omega arith)
            (omega (arith, rw i at e, value-lt-beyond modp wm, f)) lt)
  ]

curve_p-IsWords : IsWords curve_p
curve_p-IsWords = ground arith

curve_p256_p-IsWords : IsWords curve_p256_p
curve_p256_p-IsWords = ground arith

-- A difference that wrapped, and what adding `p` to it makes of it.
added_back :
    (a b p d top r k : ℕ)
    → d + b ≡ a + top
    → r + top * k ≡ d + p
    → k ≤ 1
    → d < top
    → r < top
    → b < p
    → r ≡ a + p - b
added_back a b p d top r k e f hk hd hr hb = elim (at_most_one k hk) [
  | inl i ↦ omega (arith, rw i at f)
  | inr i ↦ omega (arith, rw i at f)
]

modulus-IsWords : (key_length : ℕ) (modp : List ℕ) → modulus key_length ≡ some modp → IsWords modp
unfolding modulus
modulus-IsWords key_length modp e = elim (Bool-cases (key_length == 6)) [
  | inl f ↦ subst IsWords (some-injective _ _ (rw f at e)) curve_p-IsWords
  | inr f ↦ elim (Bool-cases (key_length == 8)) [
    | inl g ↦ subst IsWords (some-injective _ _ (rw (f, g) at e)) curve_p256_p-IsWords
    | inr g ↦ let z = rw (f, g) at e in cc
  ]
]

module _ (key_length : ℕ) (modp : List ℕ) (selected : modulus key_length ≡ some modp) (a : List ℕ)
    (la : length a ≡ length modp) (wa : IsWords a) (below : value a < value modp) where
  -- For the key lengths 6 and 8, with curve.p and curve_p256.p as p_256_init_curve sets them as the
  -- modulus, and for numbers of as many words below the modulus: multiprecision_add_mod writes the
  -- words of their sum modulo it, whatever its result held before.
  pub multiprecision_add_mod_lem :
      (c b : List ℕ)
      → length b ≡ length modp
      → IsWords b
      → value b < value modp
      → let r = multiprecision_add_mod c a b key_length in
        (value r ≡ (value a + value b) % value modp) × IsWords r × (length r ≡ length modp)
  unfolding multiprecision_add_mod
  multiprecision_add_mod_lem c b lb wb hb =
      let q = multiprecision_add_lem a b (la ∙ sym lb) wa wb in
      let f : beyond (multiprecision_add a b).0 ≡ beyond a = ap (λ (n : ℕ). (2 ^ 32) ^ n) q.3 in
      let g : multiprecision_add_mod c a b key_length
          ≡ subtract_once modp (multiprecision_add a b) =
        rw (selected, multiprecision_add_mod) refl in
      rw g (
        subtract_once-Reduces modp (multiprecision_add a b).0 (q.3 ∙ la)
          (modulus-IsWords key_length modp selected) q.2 (value a + value b)
          (multiprecision_add a b).1 (rw f q.0) q.1 (omega (arith, below, hb)))

  -- For the key lengths 6 and 8, with curve.p and curve_p256.p as p_256_init_curve sets them as the
  -- modulus, and for a number of as many words below the modulus: multiprecision_lshift_mod writes the
  -- words of twice the number modulo it.
  pub multiprecision_lshift_mod_lem :
      (c : List ℕ)
      → let r = multiprecision_lshift_mod c a key_length in
        (value r ≡ 2 * value a % value modp) × IsWords r × (length r ≡ length modp)
  unfolding multiprecision_lshift_mod
  multiprecision_lshift_mod_lem c =
      let q = multiprecision_lshift_lem a wa in
      let f : beyond (multiprecision_lshift a).0 ≡ beyond a = ap (λ (n : ℕ). (2 ^ 32) ^ n) q.3 in
      let g : multiprecision_lshift_mod c a key_length
          ≡ subtract_once modp (multiprecision_lshift a) =
        rw (selected, multiprecision_lshift_mod) refl in
      rw g (
        subtract_once-Reduces modp (multiprecision_lshift a).0 (q.3 ∙ la)
          (modulus-IsWords key_length modp selected) q.2 (2 * value a) (multiprecision_lshift a).1
          (rw f q.0) q.1 (omega (arith, below)))

  -- For the key lengths 6 and 8, with curve.p and curve_p256.p as p_256_init_curve sets them as the
  -- modulus, and for numbers of as many words below the modulus: multiprecision_sub_mod writes the
  -- words of the first number and the modulus less the second, modulo it.
  pub multiprecision_sub_mod_lem :
      (c b : List ℕ)
      → length b ≡ length modp
      → IsWords b
      → value b < value modp
      → let r = multiprecision_sub_mod c a b key_length in
        (value r ≡ (value a + value modp - value b) % value modp)
        × IsWords r
        × (length r ≡ length modp)
  unfolding multiprecision_sub_mod add_back
  multiprecision_sub_mod_lem c b lb wb hb =
      let wm = modulus-IsWords key_length modp selected in
      let q = multiprecision_sub_lem a b (la ∙ sym lb) wa wb in
      let d = (multiprecision_sub a b).0 in
      let e = multiprecision_add_lem d modp (q.3 ∙ la) q.2 wm in
      let s = value a + value modp - value b in
      elim (at_most_one (multiprecision_sub a b).1 q.1) [
        | inl i ↦
            let t = rw i at q.0 in
            let g : multiprecision_sub_mod c a b key_length ≡ d =
              rw (selected, multiprecision_sub_mod, add_back, i) refl in
            rw g (
              omega
                  (arith, mod_once s (value modp) (omega (arith, t, below)) (omega (arith, t)), t),
              q.2,
              q.3 ∙ la,
            )
        | inr i ↦
            let t = rw i at q.0 in
            let r = (multiprecision_add d modp).0 in
            let beyond-r : beyond r ≡ beyond a = ap (λ (n : ℕ). (2 ^ 32) ^ n) (e.3 ∙ q.3) in
            let beyond-d : beyond d ≡ beyond a = ap (λ (n : ℕ). (2 ^ 32) ^ n) q.3 in
            let g : multiprecision_sub_mod c a b key_length ≡ r =
              rw (selected, multiprecision_sub_mod, add_back, i) refl in
            rw g (
              added_back (value a) (value b) (value modp) (value d) (beyond a) (value r)
                    (multiprecision_add d modp).1 (omega (arith, t)) (rw beyond-d at e.0) e.1
                    (omega (arith, value-lt-beyond d q.2, beyond-d))
                    (omega (arith, value-lt-beyond r e.2, beyond-r)) hb
                  ∙ sym (
                      mod-eq_of_lt {n = s} {m = value modp}
                        (omega (arith, t, value-lt-beyond d q.2, beyond-d))),
              e.2,
              e.3 ∙ q.3 ∙ la,
            )
      ]
