-- ===== src/Tx/Grant.antt =====
-- What sprdwl_fc_get_send_num of WIFI/tx_msg.c grants.
use uwe5631_aml.Common.{
  if◌then◌else◌, ℕ, ◌+◌, ◌-◌, ◌≤◌, ◌<◌, ◌≡◌, ◌≢◌, ◌⊎◌, inl, inr, refl, sym, ◌∙◌, Bool, true, false,
  Option, none, some, arith, List, leb, ◌==◌, Bool-cases, length, get_or, set, min, get_or-set_self,
  get_or-set_ne,
}
use uwe5631_aml.Tx.{
  Answer, FlowControl, Shared, TxMsg, error_of_zero, flow_at, mode_none, shared_loop,
  sprdwl_fc_get_shared_num, sprdwl_fc_test_shared_num, sum, take_credit, take_exclusive,
  take_shared,
}
use uwe5631_aml.Tx.Colour.{IsColour, mode_at}
use uwe5631_aml.Tx.Shares.{
  IsShare, shared_loop-IsShare, shared_loop-given, shared_loop-length, shared_loop-sum, sum-set,
  zero-IsShare,
}

-- The number that a request for `data_num` packets gets from `credit` credits
unfoldable pub granted : ℕ → ℕ → Option ℕ
granted data_num credit = if credit == 0 then none else some (min credit data_num)

pub take_credit-num :
    (data_num i : ℕ) (tx : TxMsg)
    → 0 < data_num
    → length tx.flow_ctrl ≤ length tx.color_num
    → (take_credit data_num i tx).num
      ≡ granted data_num (flow_at tx.flow_ctrl i + sprdwl_fc_test_shared_num tx.flow_ctrl)
unfolding take_credit take_exclusive take_shared sprdwl_fc_get_shared_num error_of_zero granted
take_credit-num data_num i tx pos l = elim (Bool-cases (leb data_num exclusive)) [
  | inl e ↦
      let nonzero : (exclusive + free == 0) ≡ false = ground (arith, e, pos) in
      let all : min (exclusive + free) data_num ≡ data_num = ground (arith, e) in
      rw (e, nonzero, all) refl
  | inr e ↦
      let given =
        shared_loop-given (data_num - exclusive) 0 tx.flow_ctrl tx.color_num l (omega arith) in
      let sums : exclusive + (shared_loop (data_num - exclusive) 0 tx.flow_ctrl tx.color_num).given
          ≡ min (exclusive + free) data_num =
        ground (arith, e, given) in
      rw (e, sums) (go (exclusive + free))
]
  where
    exclusive : ℕ
    exclusive = flow_at tx.flow_ctrl i

    free : ℕ
    free = sprdwl_fc_test_shared_num tx.flow_ctrl

    go :
        (n : ℕ)
        → (if min n data_num == 0 then none else some (min n data_num))
          ≡ (if n == 0 then none else some (min n data_num))
    go n = elim (Bool-cases (n == 0)) [
      | inl f ↦ let z : (min n data_num == 0) ≡ true = ground (arith, f) in rw (f, z) refl
      | inr f ↦ let z : (min n data_num == 0) ≡ false = ground (arith, f, pos) in rw (f, z) refl
    ]

-- The colours' numbers after a request that was granted `n` of `data_num` packets for `mode`
pub record IsGrant (mode data_num n : ℕ) (tx : TxMsg) : Type 0 where
  pub positive : 0 < n
  pub bounded : n ≤ data_num
  pub total : sum tx.color_num ≡ n
  pub covered : (i : ℕ) → get_or tx.color_num i 0 ≤ flow_at tx.flow_ctrl i
  pub owner :
      (i : ℕ)
      → get_or tx.color_num i 0 ≢ 0
      → (mode_at tx.flow_ctrl i ≡ mode_none) ⊎ (mode_at tx.flow_ctrl i ≡ mode)

-- A number set for a colour of the mode, where the others are a share.
set-owned :
    (mode i v : ℕ) (cs : List FlowControl) (ns : List ℕ)
    → IsColour mode i cs
    → v ≤ flow_at cs i
    → length cs ≤ length ns
    → IsShare cs ns
    → ((j : ℕ) → get_or (set ns i v) j 0 ≤ flow_at cs j)
      × ((j : ℕ) → get_or (set ns i v) j 0 ≢ 0 → (mode_at cs j ≡ mode_none) ⊎ (mode_at cs j ≡ mode))
set-owned mode i v cs ns c h l s = (
  λ j. elim (Bool-cases (i == j)) [
    | inl e ↦ let same : i ≡ j = ground (arith, e) in rw (sym same, self) h
    | inr e ↦
        let other : i ≢ j = ground (arith, e) in rw (get_or-set_ne ns i j v 0 other) (s.covered j)
  ],
  λ j k. elim (Bool-cases (i == j)) [
    | inl e ↦ let same : i ≡ j = ground (arith, e) in inr (rw (sym same) c.mode_of)
    | inr e ↦
        let other : i ≢ j = ground (arith, e) in
        inl (s.owner j λ z. k (get_or-set_ne ns i j v 0 other ∙ z))
  ],
)
  where
    self : get_or (set ns i v) i 0 ≡ v
    self = get_or-set_self ns i v 0 (omega (arith, c.inside, l))

sum-set_owned :
    (mode i v : ℕ) (cs : List FlowControl) (ns : List ℕ)
    → mode ≢ mode_none
    → IsColour mode i cs
    → length cs ≤ length ns
    → IsShare cs ns
    → sum (set ns i v) ≡ sum ns + v
sum-set_owned mode i v cs ns m c l s = elim (Bool-cases (get_or ns i 0 == 0)) [
  | inl e ↦ ground (arith, e, sum-set ns i v (omega (arith, c.inside, l)))
  | inr e ↦ absurd (m (sym c.mode_of ∙ s.owner i (ground (arith, e))))
]

error_of_zero-some : (m n : ℕ) → error_of_zero m ≡ some n → (m ≡ n) × (0 < n)
unfolding error_of_zero
error_of_zero-some m n e = go (m == 0) refl e
  where
    go : (b : Bool) → (m == 0) ≡ b → (if b then none else some m) ≡ some n → (m ≡ n) × (0 < n)
    go true f h = absurd (cc h)
    go false f h = let same : m ≡ n = cc h in (same, ground (arith, f, same))

-- A request's result, where the colour of the mode is found and no number is set before.
pub take_credit-IsGrant :
    (mode data_num i n : ℕ) (tx : TxMsg)
    → mode ≢ mode_none
    → 0 < data_num
    → IsColour mode i tx.flow_ctrl
    → length tx.flow_ctrl ≤ length tx.color_num
    → sum tx.color_num ≡ 0
    → (take_credit data_num i tx).num ≡ some n
    → IsGrant mode data_num n (take_credit data_num i tx).tx
unfolding take_credit take_exclusive take_shared sprdwl_fc_get_shared_num
take_credit-IsGrant mode data_num i n tx m pos c l z e = go (leb data_num exclusive) refl e
  where
    cs : List FlowControl
    cs = tx.flow_ctrl

    exclusive : ℕ
    exclusive = flow_at cs i

    need : ℕ
    need = data_num - exclusive

    shared : Shared
    shared = shared_loop need 0 cs tx.color_num

    answer : Bool → Answer
    answer b = if b then take_exclusive data_num i tx else take_shared data_num i tx

    go :
        (b : Bool)
        → leb data_num exclusive ≡ b
        → (answer b).num ≡ some n
        → IsGrant mode data_num n (answer b).tx
    go true f h =
        let same : data_num ≡ n = cc h in
        let sets = sum-set_owned mode i data_num cs tx.color_num m c l (zero-IsShare cs _ z) in
        let owned =
          set-owned mode i data_num cs tx.color_num c (ground (arith, f)) l (zero-IsShare cs _ z) in
        record {
          positive = omega (arith, same, pos);
          bounded = omega (arith, same);
          total = omega (arith, sets, z, same);
          covered = owned.0;
          owner = owned.1;
        }
    go false f h =
        let result = error_of_zero-some (exclusive + shared.given) n h in
        let size = shared_loop-length need 0 cs tx.color_num in
        let long : length cs ≤ length shared.nums = omega (arith, size, l) in
        let share = shared_loop-IsShare need 0 cs tx.color_num z in
        let added = shared_loop-sum need 0 cs tx.color_num l (omega arith) z in
        let given = shared_loop-given need 0 cs tx.color_num l (omega arith) in
        let sets = sum-set_owned mode i exclusive cs shared.nums m c long share in
        let owned = set-owned mode i exclusive cs shared.nums c (omega arith) long share in
        let few : exclusive < data_num = ground (arith, f) in
        record {
          positive = result.1;
          bounded = omega (arith, result.0, given, few);
          total = omega (arith, sets, added, result.0);
          covered = owned.0;
          owner = owned.1;
        }
