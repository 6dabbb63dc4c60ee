-- ===== src/Tx.antt =====
-- Credits in WIFI/tx_msg.c: the firmware grants each of four colours a number of packets, the driver
-- takes them for what it sends and tags each packet with its colour. An interface mode is the number
-- that `enum sprdwl_mode` of WIFI/cfg80211.h gives it. The counters `flow` and `ref` are unbounded
-- numbers; a subtraction that would take one of them below zero ends in `none`. An unsigned long has
-- 64 bits.
pub mod Account
pub mod Colour
pub mod Distribute
pub mod Eachmode
pub mod Grant
pub mod Handover
pub mod Ledger
pub mod Move
pub mod Queues
pub mod Race
pub mod Request
pub mod Rounding
pub mod Run
pub mod Shares
pub mod Sound
pub mod Tests
use uwe5631_aml.Common.{
  ℕ, zero, suc, ◌+◌, ◌-◌, ◌%◌, ◌^◌, ◌≤◌, ◌<◌, ◌≡◌, Bool, true, false, not, ◌&&◌, ◌||◌, Option, none,
  some, ◌>>=◌, List, [], ◌∷◌, ltb, leb, ◌==◌, if◌then◌else◌, length, get_or, set, replicate, min,
  map,
}

-- SPRDWL_MODE_NONE
abbrev pub mode_none : ℕ
mode_none = 0

-- `struct sprdwl_flow_control`
pub record FlowControl : Type 0 where
  pub mode : ℕ
  pub color_bit : ℕ
  pub flow : ℕ

-- The fields of `struct sprdwl_tx_msg` that credits are about, with `ref` and `flow` of
-- tx_list_qos_pool.
pub record TxMsg : Type 0 where
  pub flow_ctrl : List FlowControl
  pub color_num : List ℕ
  pub ring_cp : ℕ
  pub ring_ap : ℕ
  pub pool_ref : ℕ
  pub pool_stopped : Bool
  pub net_start_cnt : ℕ

abbrev pub new_color : ℕ → FlowControl
new_color i = record { mode = mode_none; color_bit = i; flow = 0 }

-- The state as sprdwl_tx_init leaves it.
unfoldable pub tx_init : TxMsg
tx_init = record {
  flow_ctrl = new_color 0 ∷ new_color 1 ∷ new_color 2 ∷ new_color 3 ∷ [];
  color_num = replicate 4 0;
  ring_cp = 0;
  ring_ap = 0;
  pool_ref = 0;
  pool_stopped = false;
  net_start_cnt = 0;
}

-- How the device is attached and what it can do: `hw_type == SPRDWL_HW_PCIE`, `credit_capa ==
-- TX_NO_CREDIT`, and `fw_stat`, in which 0 is SPRDWL_INTF_CLOSE.
pub record Priv : Type 0 where
  pub pcie : Bool
  pub no_credit : Bool
  pub fw_stat : List ℕ

unfoldable pub is_closed : Priv → ℕ → Bool
is_closed priv mode = get_or priv.fw_stat mode 0 == 0

-- The first colour from number `i` on that is assigned to `mode`
unfoldable pub find_mode : ℕ → ℕ → List FlowControl → Option ℕ
find_mode mode i [] = none
find_mode mode i (c ∷ cs) = if c.mode == mode then some i else find_mode mode (suc i) cs

unfoldable pub free_closed : Priv → List FlowControl → List FlowControl
free_closed priv = map λ c.
    if not (c.mode == mode_none) && is_closed priv c.mode then record c { mode = mode_none } else c

-- `flow_ctrl[i].mode = mode` with the colour's bit
unfoldable pub assign_color : ℕ → ℕ → List FlowControl → List FlowControl
assign_color mode i cs =
    set cs i (record (get_or cs i (new_color i)) { mode = mode; color_bit = i })

abbrev pub assign_free : ℕ → List FlowControl → Option ℕ × List FlowControl
assign_free mode cs = elim (find_mode mode_none 0 cs) [
  | none ↦ (none, cs)
  | some i ↦ (some i, assign_color mode i cs)
]

-- The index and the colours, `none` where `found` is 0.
unfoldable pub sprdwl_fc_find_color_per_mode :
    Priv → ℕ → List FlowControl → Option ℕ × List FlowControl
sprdwl_fc_find_color_per_mode priv mode cs = elim (find_mode mode 0 cs) [
  | some i ↦ (some i, cs)
  | none ↦ assign_free mode (free_closed priv cs)
]

-- shared_flow_num and color_num
pub record Shared : Type 0 where
  pub given : ℕ
  pub nums : List ℕ

abbrev pub keep_num : ℕ → Shared → Shared
keep_num n s = record { given = s.given; nums = n ∷ s.nums }

unfoldable pub is_shared : FlowControl → Bool
is_shared c = (c.mode == mode_none) && not (c.flow == 0)

-- The loop of sprdwl_fc_get_shared_num; `given` is shared_flow_num so far.
unfoldable pub shared_loop : ℕ → ℕ → List FlowControl → List ℕ → Shared
shared_loop num given [] nums = record { given = given; nums = nums }
shared_loop num given (c ∷ cs) [] = record { given = given; nums = [] }
shared_loop num given (c ∷ cs) (n ∷ ns) =
    let passed = shared_loop num given cs ns in
    let used = shared_loop num (given + c.flow) cs ns in
    if is_shared c
    then (if leb (num - given) c.flow
        then record { given = num; nums = (num - given) ∷ ns }
        else keep_num c.flow used)
    else keep_num n passed

unfoldable pub sprdwl_fc_get_shared_num : ℕ → TxMsg → Shared
sprdwl_fc_get_shared_num num tx = shared_loop num 0 tx.flow_ctrl tx.color_num

unfoldable pub sprdwl_fc_test_shared_num : List FlowControl → ℕ
sprdwl_fc_test_shared_num [] = 0
sprdwl_fc_test_shared_num (c ∷ cs) =
    (if is_shared c then c.flow else 0) + sprdwl_fc_test_shared_num cs

unfoldable pub flow_at : List FlowControl → ℕ → ℕ
flow_at [] i = 0
flow_at (c ∷ cs) zero = c.flow
flow_at (c ∷ cs) (suc i) = flow_at cs i

-- What a request returns, `none` for -ENOMEM, and the state.
pub record Answer : Type 0 where
  pub num : Option ℕ
  pub tx : TxMsg

unfoldable pub error_of_zero : ℕ → Option ℕ
error_of_zero n = if n == 0 then none else some n

unfoldable pub take_exclusive : ℕ → ℕ → TxMsg → Answer
take_exclusive data_num i tx = record {
  num = some data_num;
  tx = record tx { color_num = set tx.color_num i data_num };
}

unfoldable pub take_shared : ℕ → ℕ → TxMsg → Answer
take_shared data_num i tx =
    let exclusive = flow_at tx.flow_ctrl i in
    let shared = sprdwl_fc_get_shared_num (data_num - exclusive) tx in
    record {
      num = error_of_zero (exclusive + shared.given);
      tx = record tx { color_num = set shared.nums i exclusive };
    }

-- The colour number `i` of the mode is found; `data_num` is at most 100 and not 0.
unfoldable pub take_credit : ℕ → ℕ → TxMsg → Answer
take_credit data_num i tx =
    if leb data_num (flow_at tx.flow_ctrl i)
    then take_exclusive data_num i tx
    else take_shared data_num i tx

unfoldable pub clear_color_num : TxMsg → TxMsg
clear_color_num tx = record tx { color_num = replicate 4 0 }

abbrev pub use_color : (ℕ → TxMsg → Answer) → Option ℕ × List FlowControl → TxMsg → Answer
use_color f (none, cs) tx = record { num = none; tx = record tx { flow_ctrl = cs } }
use_color f (some i, cs) tx = f i (record tx { flow_ctrl = cs })

-- The guards that sprdwl_fc_get_send_num and sprdwl_fc_test_send_num share; `ask` is given data_num, at
-- most 100.
abbrev pub guard_num : Priv → ℕ → ℕ → TxMsg → Answer → Answer
guard_num priv mode data_num tx answer =
    if data_num == 0 || mode == mode_none
    then record { num = some 0; tx = tx }
    else if priv.pcie
    then record { num = some data_num; tx = tx }
    else if priv.no_credit
    then record { num = some (min 100 data_num); tx = tx }
    else answer

unfoldable pub sprdwl_fc_get_send_num : Priv → ℕ → ℕ → TxMsg → Answer
sprdwl_fc_get_send_num priv mode data_num tx =
    let cleared = clear_color_num tx in
    guard_num priv mode data_num tx (
      use_color (take_credit (min 100 data_num))
        (sprdwl_fc_find_color_per_mode priv mode cleared.flow_ctrl) cleared)

unfoldable pub test_credit : ℕ → ℕ → TxMsg → Answer
test_credit data_num i tx =
    let send_num = flow_at tx.flow_ctrl i + sprdwl_fc_test_shared_num tx.flow_ctrl in
    record { num = if send_num == 0 then none else some (min send_num data_num); tx = tx }

unfoldable pub sprdwl_fc_test_send_num : Priv → ℕ → ℕ → TxMsg → Answer
sprdwl_fc_test_send_num priv mode data_num tx = guard_num priv mode data_num tx (
    use_color (test_credit (min 100 data_num))
      (sprdwl_fc_find_color_per_mode priv mode tx.flow_ctrl) tx)

-- The loop of sprdwl_fc_set_clor_bit
unfoldable pub color_loop : ℕ → ℕ → ℕ → List ℕ → ℕ
color_loop num i count [] = i
color_loop num i count (c ∷ cs) =
    let rest = color_loop num (suc i) (count + c) cs in if leb num (count + c) then i else rest

unfoldable pub sprdwl_fc_set_clor_bit : Priv → ℕ → TxMsg → ℕ
sprdwl_fc_set_clor_bit priv num tx = if priv.no_credit then 0 else color_loop num 0 0 tx.color_num

unfoldable pub sum : List ℕ → ℕ
sum [] = 0
sum (n ∷ ns) = n + sum ns
