-- ===== src/Tx/Account.antt =====
-- What WIFI/tx_msg.c does with credits when packets have been sent, when the firmware grants more, and
-- when an interface closes.
use uwe5631_aml.Common.{
  ℕ, zero, suc, ◌+◌, ◌-◌, ◌%◌, ◌^◌, Bool, true, false, ◌&&◌, Option, none, some, ◌>>=◌, List, [],
  ◌∷◌, map, leb, ◌==◌, replicate, if◌then◌else◌,
}
use uwe5631_aml.Tx.{FlowControl, Priv, TxMsg, clear_color_num, is_closed, mode_none, new_color, sum}

-- `atomic_sub` on a counter that is not to go below zero
unfoldable pub atomic_sub : ℕ → ℕ → Option ℕ
atomic_sub n a = if leb n a then some (a - n) else none

unfoldable pub sub_flows : List ℕ → List FlowControl → Option (List FlowControl)
sub_flows (n ∷ ns) (c ∷ cs) = do
  flow ← atomic_sub n c.flow
  rest ← sub_flows ns cs
  some (record c { flow = flow } ∷ rest)
sub_flows ns cs = some cs

-- sprdwl_wake_net_ifneed; SPRDWL_TX_DATA_START_NUM is 19997.
unfoldable pub sprdwl_wake_net_ifneed : TxMsg → TxMsg
sprdwl_wake_net_ifneed tx =
    if tx.pool_stopped && leb tx.pool_ref 19997
    then record tx { pool_stopped = false; net_start_cnt = suc tx.net_start_cnt }
    else tx

unfoldable pub count_sent : ℕ → ℕ → TxMsg → TxMsg
count_sent send_num ref tx =
    sprdwl_wake_net_ifneed
      (record tx { ring_ap = (tx.ring_ap + send_num) % 2 ^ 64; pool_ref = ref })

unfoldable pub charge_colors : Priv → TxMsg → Option TxMsg
charge_colors priv tx =
    if priv.no_credit
    then some tx
    else do flows ← sub_flows tx.color_num tx.flow_ctrl; some (record tx { flow_ctrl = flows })

-- `failed` is `ret != 0`.
unfoldable pub sprdwl_handle_tx_return : Priv → ℕ → Bool → TxMsg → Option TxMsg
sprdwl_handle_tx_return priv send_num failed tx =
    if failed
    then some (clear_color_num tx)
    else do ref ← atomic_sub send_num tx.pool_ref; charge_colors priv (count_sent send_num ref tx)

-- What sprdwl_sdio_process_credit distinguishes: data that carries credits, the event
-- WIFI_EVENT_SDIO_FLOWCON, and all else. `usb` is `hw_type == SPRDWL_HW_USB`.
pub data Credit : Type 0 where
  data_special : (usb : Bool) (flow : List ℕ) → Credit
  flowcon : (flow : List ℕ) → Credit
  other : Credit

-- -2, 0 and -1
pub data CreditRet : Type 0 where
  ret_usb ret_none ret_event : CreditRet

unfoldable pub add_flows : List ℕ → List FlowControl → List FlowControl
add_flows (n ∷ ns) (c ∷ cs) = record c { flow = c.flow + n } ∷ add_flows ns cs
add_flows ns cs = cs

unfoldable pub add_credit : List ℕ → TxMsg → TxMsg
add_credit flow tx = record tx {
  flow_ctrl = add_flows flow tx.flow_ctrl;
  ring_cp = (tx.ring_cp + sum flow) % 2 ^ 64;
}

-- ring_cp after the loop that resets the credits
unfoldable pub give_back : List FlowControl → ℕ → ℕ
give_back [] ring_cp = ring_cp
give_back (c ∷ cs) ring_cp =
    give_back cs (if ring_cp == 0 then ring_cp else (ring_cp + 2 ^ 64 - c.flow) % 2 ^ 64)

unfoldable pub reset_credit : TxMsg → TxMsg
reset_credit tx = record tx {
  ring_cp = give_back tx.flow_ctrl tx.ring_cp;
  flow_ctrl = map {A = FlowControl} {B = FlowControl} (λ c. record c { flow = 0 }) tx.flow_ctrl;
  color_num = replicate 4 0;
}

unfoldable pub sprdwl_sdio_process_credit : Credit → TxMsg → CreditRet × TxMsg
sprdwl_sdio_process_credit (data_special true flow) tx = (ret_usb, tx)
sprdwl_sdio_process_credit (data_special false flow) tx = (ret_none, add_credit flow tx)
sprdwl_sdio_process_credit (flowcon flow) tx =
    let added = add_credit flow tx in
    (ret_event, if sum flow == 0 then reset_credit added else added)
sprdwl_sdio_process_credit other tx = (ret_none, tx)

-- Modes SPRDWL_MODE_STATION to SPRDWL_MODE_MAX - 1, `n` of them from `mode` on.
unfoldable pub all_closed : Priv → ℕ → ℕ → Bool
all_closed priv zero mode = true
all_closed priv (suc n) mode =
    let rest = all_closed priv n (suc mode) in is_closed priv mode && rest

unfoldable pub share_mode : ℕ → List FlowControl → List FlowControl
share_mode mode = map λ c. if c.mode == mode then record c { mode = mode_none } else c

unfoldable pub new_colors : ℕ → List FlowControl → List FlowControl
new_colors i [] = []
new_colors i (c ∷ cs) = new_color i ∷ new_colors (suc i) cs

-- The colours and counters; what the function does to the lists of packets is not modelled here.
unfoldable pub handle_tx_status_after_close : Priv → ℕ → TxMsg → TxMsg
handle_tx_status_after_close priv mode tx =
    if all_closed priv 7 1
    then record tx { flow_ctrl = new_colors 0 tx.flow_ctrl; ring_cp = 0; ring_ap = 0 }
    else record tx { flow_ctrl = share_mode mode tx.flow_ctrl }

unfoldable pub share_first : ℕ → List FlowControl → List FlowControl
share_first mode [] = []
share_first mode (c ∷ cs) =
    let rest = share_first mode cs in
    if c.mode == mode then record c { mode = mode_none } ∷ cs else c ∷ rest

unfoldable pub sprdwl_fc_add_share_credit : ℕ → TxMsg → TxMsg
sprdwl_fc_add_share_credit mode tx = record tx { flow_ctrl = share_first mode tx.flow_ctrl }
