-- ===== src/Tx/Race.antt =====
-- The close of the last mode while packets are being sent, in WIFI/tx_msg.c.
use uwe5631_aml.Common.{
  ℕ, suc, ◌+◌, ◌%◌, ◌^◌, ◌<◌, ◌≡◌, inl, inr, refl, sym, ◌∙◌, Bool, true, false, ◌&&◌, Option, none,
  some, ◌>>=◌, arith, List, [], ◌∷◌, leb, Bool-cases, length, if◌then◌else◌,
}
use uwe5631_aml.Tx.{FlowControl, Priv, TxMsg, sum}
use uwe5631_aml.Tx.Account.{
  all_closed, atomic_sub, charge_colors, count_sent, handle_tx_status_after_close, new_colors,
  sprdwl_handle_tx_return, sprdwl_wake_net_ifneed, sub_flows,
}
use uwe5631_aml.Tx.Colour.{total_flow}
use uwe5631_aml.Tx.Request.{HasColours}
use uwe5631_aml.Tx.Sound.{new_colors-empty}

sub_flows-none :
    (ns : List ℕ) (cs : List FlowControl)
    → length ns ≡ length cs
    → total_flow cs ≡ 0
    → 0 < sum ns
    → sub_flows ns cs ≡ none
unfolding sub_flows atomic_sub total_flow sum
sub_flows-none [] cs l z p = absurd (omega (arith, p))
sub_flows-none (n ∷ ns) [] l z p = absurd (omega (arith, l))
sub_flows-none (n ∷ ns) (c ∷ cs) l z p = elim (Bool-cases (leb n c.flow)) [
  | inr e ↦ rw e refl
  | inl e ↦
      let more : 0 < sum ns = ground (arith, e, z, p) in
      rw (e, sub_flows-none ns cs (omega (arith, l)) (omega (arith, z)) more) refl
]

count_sent-keeps :
    (n ref : ℕ) (tx : TxMsg)
    → ((count_sent n ref tx).flow_ctrl ≡ tx.flow_ctrl)
      × ((count_sent n ref tx).color_num ≡ tx.color_num)
unfolding count_sent sprdwl_wake_net_ifneed
count_sent-keeps n ref tx = go (tx.pool_stopped && leb ref 19997)
  where
    counted : TxMsg
    counted = record tx { ring_ap = (tx.ring_ap + n) % 2 ^ 64; pool_ref = ref }

    woken : Bool → TxMsg
    woken b =
        if b
        then record counted { pool_stopped = false; net_start_cnt = suc tx.net_start_cnt }
        else counted

    go : (b : Bool) → ((woken b).flow_ctrl ≡ tx.flow_ctrl) × ((woken b).color_num ≡ tx.color_num)
    go true = (refl, refl)
    go false = (refl, refl)

charge_colors-none :
    (priv : Priv) (tx : TxMsg)
    → priv.no_credit ≡ false
    → sub_flows tx.color_num tx.flow_ctrl ≡ none
    → charge_colors priv tx ≡ none
unfolding charge_colors
charge_colors-none priv tx q e = rw (q, e) refl

-- On a device with credits, in a state with four colours and four numbers that are not all 0, as a
-- granted request leaves it: when all modes are closed and handle_tx_status_after_close comes before
-- the return of the packets, that return, without an error, takes a counter below zero.
pub handle_tx_status_after_close-below :
    (priv : Priv) (mode n : ℕ) (tx : TxMsg)
    → priv.no_credit ≡ false
    → all_closed priv 7 1 ≡ true
    → HasColours tx
    → 0 < sum tx.color_num
    → sprdwl_handle_tx_return priv n false (handle_tx_status_after_close priv mode tx) ≡ none
unfolding handle_tx_status_after_close sprdwl_handle_tx_return
handle_tx_status_after_close-below priv mode n tx q a h p = simp a (go (atomic_sub n tx.pool_ref))
  where
    closed : TxMsg
    closed = record tx { flow_ctrl = new_colors 0 tx.flow_ctrl; ring_cp = 0; ring_ap = 0 }

    below : sub_flows tx.color_num closed.flow_ctrl ≡ none
    below =
        let empty = new_colors-empty 0 tx.flow_ctrl in
        sub_flows-none tx.color_num _ (h.nums ∙ sym (empty.1 ∙ h.flows)) empty.0 p

    go : (o : Option ℕ) → (o >>= λ ref. charge_colors priv (count_sent n ref closed)) ≡ none
    go none = refl
    go (some ref) =
        let keeps = count_sent-keeps n ref closed in
        charge_colors-none priv _ q (rw (keeps.0, keeps.1) below)
