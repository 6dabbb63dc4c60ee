-- ===== src/Tx/Run.antt =====
-- The transmit thread, the credits that arrive and the modes that close: the functions of
-- WIFI/tx_msg.c as steps, for a device that is not attached by PCIe and has credits. Between a granted
-- request and the return of its packets, with an error or without, the other threads go on, but two
-- things do not fall into that time here although the driver does not prevent them: an event that
-- resets the credits, and the close of the last mode. Tx/Race is about the latter.
use uwe5631_aml.Common.{
  ℕ, suc, ◌+◌, ◌^◌, ◌≤◌, ◌<◌, ◌≡◌, ◌≢◌, Bool, false, Option, none, some, List, length,
}
use uwe5631_aml.Tx.{Priv, TxMsg, mode_none, sprdwl_fc_get_send_num, sum, tx_init}
use uwe5631_aml.Tx.Account.{
  all_closed, data_special, flowcon, handle_tx_status_after_close, sprdwl_fc_add_share_credit,
  sprdwl_handle_tx_return, sprdwl_sdio_process_credit,
}

-- `Run credits pending tx`: the state `tx` is reached with `credits` granted by the firmware;
-- `pending` is the number of packets that a request was granted and that are not returned yet.
pub data Run : ℕ → Option ℕ → TxMsg → Type 0 where
  start : Run 0 none tx_init
  -- sprdwl_alloc_msg_buf counts a packet.
  alloc :
      {credits : ℕ} {pending : Option ℕ} {tx : TxMsg}
      → Run credits pending tx
      → Run credits pending (record tx { pool_ref = suc tx.pool_ref })
  credit_data :
      {credits : ℕ} {pending : Option ℕ} {tx : TxMsg} (flow : List ℕ)
      → length flow ≡ 4
      → credits + sum flow < 2 ^ 64
      → Run credits pending tx
      → Run (credits + sum flow) pending (sprdwl_sdio_process_credit (data_special false flow) tx).1
  -- An event whose four numbers are not all 0
  credit_event :
      {credits : ℕ} {pending : Option ℕ} {tx : TxMsg} (flow : List ℕ)
      → length flow ≡ 4
      → 0 < sum flow
      → credits + sum flow < 2 ^ 64
      → Run credits pending tx
      → Run (credits + sum flow) pending (sprdwl_sdio_process_credit (flowcon flow) tx).1
  reset_event :
      {credits : ℕ} {tx : TxMsg} (flow : List ℕ)
      → length flow ≡ 4
      → credits + sum flow < 2 ^ 64
      → Run credits none tx
      → Run (credits + sum flow) none (sprdwl_sdio_process_credit (flowcon flow) tx).1
  -- The packets that are asked for are on to_send_list, so `ref` counts them.
  request :
      {credits : ℕ} {tx : TxMsg} (priv : Priv) (mode data_num n : ℕ)
      → priv.pcie ≡ false
      → priv.no_credit ≡ false
      → mode ≢ mode_none
      → 0 < data_num
      → data_num ≤ tx.pool_ref
      → (sprdwl_fc_get_send_num priv mode data_num tx).num ≡ some n
      → Run credits none tx
      → Run credits (some n) (sprdwl_fc_get_send_num priv mode data_num tx).tx
  -- The request ends in -ENOMEM.
  refused :
      {credits : ℕ} {tx : TxMsg} (priv : Priv) (mode data_num : ℕ)
      → (sprdwl_fc_get_send_num priv mode data_num tx).num ≡ none
      → Run credits none tx
      → Run credits none (sprdwl_fc_get_send_num priv mode data_num tx).tx
  return :
      {credits n : ℕ} {tx sent : TxMsg} (priv : Priv) (failed : Bool)
      → priv.no_credit ≡ false
      → sprdwl_handle_tx_return priv n failed tx ≡ some sent
      → Run credits (some n) tx
      → Run credits none sent
  close :
      {credits : ℕ} {tx : TxMsg} (priv : Priv) (mode : ℕ)
      → Run credits none tx
      → Run credits none (handle_tx_status_after_close priv mode tx)
  close_one :
      {credits : ℕ} {pending : Option ℕ} {tx : TxMsg} (priv : Priv) (mode : ℕ)
      → all_closed priv 7 1 ≡ false
      → Run credits pending tx
      → Run credits pending (handle_tx_status_after_close priv mode tx)
  share :
      {credits : ℕ} {pending : Option ℕ} {tx : TxMsg} (mode : ℕ)
      → Run credits pending tx
      → Run credits pending (sprdwl_fc_add_share_credit mode tx)
