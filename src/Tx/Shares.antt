-- ===== src/Tx/Shares.antt =====
-- What sprdwl_fc_get_shared_num of WIFI/tx_msg.c takes from the shared colours.
use uwe5631_aml.Common.{
  ℕ, zero, suc, ◌+◌, ◌-◌, ◌≤◌, ◌<◌, ◌≡◌, ◌≢◌, inl, inr, refl, ap, true, arith, List, [], ◌∷◌, leb,
  Bool-cases, length, get_or, set, min,
}
use uwe5631_aml.Tx.{
  FlowControl, flow_at, is_shared, mode_none, shared_loop, sprdwl_fc_test_shared_num, sum,
}
use uwe5631_aml.Tx.Colour.{mode_at}

pub sum-set :
    (ns : List ℕ) (i v : ℕ) → i < length ns → sum (set ns i v) + get_or ns i 0 ≡ sum ns + v
unfolding sum
sum-set [] i v h = absurd (omega arith)
sum-set (n ∷ ns) zero v h = omega arith
sum-set (n ∷ ns) (suc i) v h = omega (arith, sum-set ns i v (omega arith))

get_or-sum : (ns : List ℕ) (i : ℕ) → get_or ns i 0 ≤ sum ns
unfolding sum
get_or-sum [] i = omega arith
get_or-sum (n ∷ ns) zero = omega arith
get_or-sum (n ∷ ns) (suc i) = omega (arith, get_or-sum ns i)

-- The shared credits are given up to `num` in all.
pub shared_loop-given :
    (num given : ℕ) (cs : List FlowControl) (ns : List ℕ)
    → length cs ≤ length ns
    → given ≤ num
    → (shared_loop num given cs ns).given ≡ min num (given + sprdwl_fc_test_shared_num cs)
unfolding shared_loop sprdwl_fc_test_shared_num
shared_loop-given num given [] ns l h = omega (arith, h)
shared_loop-given num given (c ∷ cs) [] l h = absurd (omega arith)
shared_loop-given num given (c ∷ cs) (n ∷ ns) l h = elim (Bool-cases (is_shared c)) [
  | inr e ↦ rw e omega (arith, shared_loop-given num given cs ns (omega arith) h)
  | inl e ↦ elim (Bool-cases (leb (num - given) c.flow)) [
    | inl f ↦ rw (e, f) ground arith
    | inr f ↦
        let more : given + c.flow ≤ num = ground (arith, f) in
        rw (e, f) omega (arith, shared_loop-given num (given + c.flow) cs ns (omega arith) more)
  ]
]

-- With no number taken before: the numbers add up to what was given, ...
pub shared_loop-sum :
    (num given : ℕ) (cs : List FlowControl) (ns : List ℕ)
    → length cs ≤ length ns
    → given ≤ num
    → sum ns ≡ 0
    → given + sum (shared_loop num given cs ns).nums ≡ (shared_loop num given cs ns).given
unfolding shared_loop sum
shared_loop-sum num given [] ns l h z = omega (arith, z)
shared_loop-sum num given (c ∷ cs) [] l h z = absurd (omega arith)
shared_loop-sum num given (c ∷ cs) (n ∷ ns) l h z = elim (Bool-cases (is_shared c)) [
  | inr e ↦
      let rest = shared_loop-sum num given cs ns (omega arith) h (omega arith) in
      rw e omega (arith, rest, z)
  | inl e ↦ elim (Bool-cases (leb (num - given) c.flow)) [
    | inl f ↦ rw (e, f) omega (arith, h, z)
    | inr f ↦
        let more : given + c.flow ≤ num = ground (arith, f) in
        let rest = shared_loop-sum num (given + c.flow) cs ns (omega arith) more (omega arith) in
        rw (e, f) omega (arith, rest)
  ]
]

-- ... each is at most the flow of its colour, and only shared colours have one.
pub record IsShare (cs : List FlowControl) (ns : List ℕ) : Type 0 where
  pub covered : (i : ℕ) → get_or ns i 0 ≤ flow_at cs i
  pub owner : (i : ℕ) → get_or ns i 0 ≢ 0 → mode_at cs i ≡ mode_none

cons-IsShare :
    (c : FlowControl) (n : ℕ) (cs : List FlowControl) (ns : List ℕ)
    → n ≤ c.flow
    → (n ≢ 0 → c.mode ≡ mode_none)
    → IsShare cs ns
    → IsShare (c ∷ cs) (n ∷ ns)
unfolding flow_at mode_at
cons-IsShare c n cs ns h o s = record {
  covered = λ i. elim i as (λ k. get_or (n ∷ ns) k 0 ≤ flow_at (c ∷ cs) k) [
    | zero ↦ h
    | suc j ↦ s.covered j
  ];
  owner = λ i. elim i as (λ k. get_or (n ∷ ns) k 0 ≢ 0 → mode_at (c ∷ cs) k ≡ mode_none) [
    | zero ↦ o
    | suc j ↦ s.owner j
  ];
}

pub zero-IsShare : (cs : List FlowControl) (ns : List ℕ) → sum ns ≡ 0 → IsShare cs ns
zero-IsShare cs ns z = record {
  covered = λ i. omega (arith, get_or-sum ns i);
  owner = λ i h. absurd (h (omega (arith, get_or-sum ns i)));
}

is_shared_mode : (c : FlowControl) → is_shared c ≡ true → c.mode ≡ mode_none
unfolding is_shared
is_shared_mode c e = ground (arith, e)

pub shared_loop-IsShare :
    (num given : ℕ) (cs : List FlowControl) (ns : List ℕ)
    → sum ns ≡ 0
    → IsShare cs (shared_loop num given cs ns).nums
unfolding shared_loop sum
shared_loop-IsShare num given [] ns z = zero-IsShare [] ns z
shared_loop-IsShare num given (c ∷ cs) [] z = zero-IsShare (c ∷ cs) [] refl
shared_loop-IsShare num given (c ∷ cs) (n ∷ ns) z = elim (Bool-cases (is_shared c)) [
  | inr e ↦ rw e (
      cons-IsShare c n cs _ (omega arith) (λ h. absurd (h (omega arith)))
        (shared_loop-IsShare num given cs ns (omega arith)))
  | inl e ↦ elim (Bool-cases (leb (num - given) c.flow)) [
    | inl f ↦
        rw (e, f)
          (cons-IsShare c _ cs ns (ground (arith, f)) (λ h. is_shared_mode c e)
            (zero-IsShare cs ns (omega arith)))
    | inr f ↦
        rw (e, f)
          (cons-IsShare c _ cs _ (omega arith) (λ h. is_shared_mode c e)
            (shared_loop-IsShare num (given + c.flow) cs ns (omega arith)))
  ]
]

pub shared_loop-length :
    (num given : ℕ) (cs : List FlowControl) (ns : List ℕ)
    → length (shared_loop num given cs ns).nums ≡ length ns
unfolding shared_loop
shared_loop-length num given [] ns = refl
shared_loop-length num given (c ∷ cs) [] = refl
shared_loop-length num given (c ∷ cs) (n ∷ ns) = elim (Bool-cases (is_shared c)) [
  | inr e ↦ rw e (ap suc (shared_loop-length num given cs ns))
  | inl e ↦ elim (Bool-cases (leb (num - given) c.flow)) [
    | inl f ↦ rw (e, f) refl
    | inr f ↦ rw (e, f) (ap suc (shared_loop-length num (given + c.flow) cs ns))
  ]
]
