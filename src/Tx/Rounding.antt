-- ===== src/Tx/Rounding.antt =====
-- The rounding in the shares that sprdwl_tx_eachmode_data of WIFI/tx_msg.c gives out.
use uwe5631_aml.Common.{
  ℕ, ◌+◌, ◌-◌, ◌*◌, ◌/◌, ◌≤◌, ◌<◌, ◌≡◌, inl, inr, refl, Bool, true, false, arith, Bool-cases, ltb,
  leb, ◌==◌, ◌&&◌,
}
use uwe5631_aml.Tx.Queues.{Ratios, first_share, fp_num, min_num, ratio_share}
use native.Mathlib.Nat.{
  le-div_iff_mul-le, div-le_of_le-mul, mul-le-mul_left, mul-le-mul_right, mul-div_cancel,
}

share-le_left : (n fp q : ℕ) → fp ≤ q → n * fp / q ≤ n
share-le_left n fp q h = div-le_of_le-mul q (omega (arith, mul-le-mul_left n h))

share-le_right : (n fp q : ℕ) → n ≤ q → n * fp / q ≤ fp
share-le_right n fp q h = div-le_of_le-mul q (mul-le-mul_right fp h)

share-lower : (d a b n fp q : ℕ) → n ≡ d + b → fp ≡ d + a → q ≡ d + a + b → 0 < q → d ≤ n * fp / q
share-lower d a b n fp q e f g p = (le-div_iff_mul-le p).1 (rw (e, f, g) omega arith)

-- What is left to give is not more than what is left to take.
share-left : (n fp q : ℕ) → n ≤ q → fp ≤ q → 0 < q → n + fp ≤ q + n * fp / q
share-left n fp q h k p = elim (Bool-cases (leb (n + fp) q)) [
  | inl e ↦ ground (arith, e)
  | inr e ↦
      let more : q < n + fp = ground (arith, e) in
      let lower =
        share-lower (n + fp - q) (q - n) (q - fp) n fp q (omega (arith, more, h, k))
          (omega (arith, more, h, k)) (omega (arith, more, h, k)) p in
      omega (arith, lower, more)
]

-- The share of a list with `n` of the `num` packets, where `fp` may move
pub record IsShareOf (n fp num m : ℕ) : Type 0 where
  pub upper : m ≤ n
  pub within : m ≤ fp
  pub later : n + fp ≤ num + m
  pub progress : 0 < fp → 0 < m

pub min_num-IsShareOf :
    (n fp num : ℕ) → 0 < n → n ≤ num → fp ≤ num → IsShareOf n fp num (min_num n fp num)
unfolding min_num
min_num-IsShareOf n fp num pos h k = record {
  upper = ground (arith, share-le_left n fp num k, pos);
  within = omega arith;
  later =
      ground (arith, share-left n fp num h k (omega (arith, pos, h)), share-le_right n fp num h);
  progress = λ p. ground (arith, p);
}

-- The ratios are per cent.
pub record IsPercent (ratios : Ratios) : Type 0 where
  pub vo : ratios.vo ≤ 100
  pub vi : ratios.vi ≤ 100
  pub be : ratios.be ≤ 100

ratio_share-le :
    (ratio send_num num : ℕ)
    → ratio ≤ 100
    → (ratio_share ratio send_num num ≤ send_num) × (ratio_share ratio send_num num ≤ num)
unfolding ratio_share
ratio_share-le ratio send_num num h =
    let part = share-le_left send_num ratio 100 h in (omega (arith, part), omega arith)

-- The share of a category with `num` of `total` packets
pub record IsFpNum (send_num num total fp : ℕ) : Type 0 where
  pub within : fp ≤ send_num
  pub upper : fp ≤ num
  -- The credits that are left are not more than the packets that are left.
  pub later : send_num - fp ≤ total - num

and_false : (b : Bool) → (b && false) ≡ false
and_false true = refl
and_false false = refl

module _ (ratios : Ratios) (percent : IsPercent ratios) where
  first_share-le :
      (ac send_num num total : ℕ)
      → send_num ≤ total
      → 0 < total
      → num ≤ total
      → (first_share ratios ac send_num num total ≤ send_num)
        × (first_share ratios ac send_num num total ≤ num)
  unfolding first_share
  first_share-le ac send_num num total s z h = elim (Bool-cases (ac == 0 && ltb num total)) [
    | inl e ↦ rw e (ratio_share-le ratios.vo send_num num percent.vo)
    | inr e ↦ elim (Bool-cases (ac == 1 && ltb num total)) [
      | inl f ↦ rw (e, f) (ratio_share-le ratios.vi send_num num percent.vi)
      | inr f ↦ elim (Bool-cases (ac == 2 && ltb num total)) [
        | inl g ↦ rw (e, f, g) (ratio_share-le ratios.be send_num num percent.be)
        | inr g ↦
            rw (e, f, g) (share-le_left send_num num total h, share-le_right send_num num total s)
      ]
    ]
  ]

  first_share-all :
      (ac send_num num total : ℕ)
      → num ≡ total
      → 0 < total
      → first_share ratios ac send_num num total ≡ send_num
  unfolding first_share
  first_share-all ac send_num num total e p =
      let last : ltb num total ≡ false = ground (arith, e) in
      rw (last, and_false (ac == 0), and_false (ac == 1), and_false (ac == 2), e)
        (mul-div_cancel send_num p)

  pub fp_num-IsFpNum :
      (ac send_num num total : ℕ)
      → send_num ≤ total
      → 0 < total
      → num ≤ total
      → IsFpNum send_num num total (fp_num ratios ac send_num num total)
  unfolding fp_num
  fp_num-IsFpNum ac send_num num total s z h =
      let first = first_share-le ac send_num num total s z h in
      let fp = first_share ratios ac send_num num total in
      elim (Bool-cases (ltb (total - num) (send_num - fp) && ltb 0 (total - num))) [
        | inl e ↦
            let more : total - num < send_num - fp = ground (arith, e) in
            rw e record {
              within = omega (arith, first.0, more);
              upper = omega (arith, first.1, more, s, h);
              later = omega (arith, first.0, more);
            }
        | inr e ↦ elim (Bool-cases (ltb num total)) [
          | inl f ↦
              let some_left : num < total = ground (arith, f) in
              rw e
                record { within = first.0; upper = first.1; later = ground (arith, e, some_left) }
          | inr f ↦
              let last : num ≡ total = ground (arith, f, h) in
              let all = first_share-all ac send_num num total last z in
              rw e record { within = first.0; upper = first.1; later = omega (arith, all) }
        ]
      ]
