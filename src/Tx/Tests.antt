-- ===== src/Tx/Tests.antt =====
-- The credits and the lists of packets on small inputs.
use uwe5631_aml.Common.{
  ◌≤◌, ℕ, zero, suc, ◌+◌, ◌<◌, ◌≡◌, refl, ap, true, false, none, some, arith, List, [], ◌∷◌, map,
  length, min,
}
use uwe5631_aml.Tx.{
  FlowControl, Priv, TxMsg, assign_color, clear_color_num, error_of_zero, find_mode, flow_at,
  free_closed, is_closed, is_shared, mode_none, shared_loop, sprdwl_fc_find_color_per_mode,
  sprdwl_fc_get_send_num, sprdwl_fc_get_shared_num, sprdwl_fc_set_clor_bit, sprdwl_fc_test_send_num,
  sprdwl_fc_test_shared_num, sum, take_credit, take_exclusive, take_shared, test_credit, tx_init,
}
use uwe5631_aml.Tx.Account.{
  add_credit, add_flows, all_closed, flowcon, handle_tx_status_after_close, reset_credit,
  sprdwl_handle_tx_return, sprdwl_sdio_process_credit,
}
use uwe5631_aml.Tx.Colour.{count_up, expand, sprdwl_fc_set_clor_bit-expand, total_flow}
use uwe5631_aml.Tx.Distribute.{AllCounted, join}
use uwe5631_aml.Tx.Eachmode.{IsRound, sprdwl_tx_eachmode_data-IsRound}
use uwe5631_aml.Tx.Grant.{IsGrant}
use uwe5631_aml.Tx.Handover.{sprdwl_tx_eachmode_data-to_send_credit}
use uwe5631_aml.Tx.Ledger.{IsCovered, IsLedger, IsSent, sprdwl_handle_tx_return-IsSent}
use uwe5631_aml.Tx.Queues.{
  Packet, PeerList, Ratios, Round, add_xmit_list_tail, drop_num, drop_packets, first_share, fp_num,
  handle_tx_timeout, min_num, move_all, move_lists, move_peers, q_list_num, ratio_share,
  share_lists, share_peers, sprdwl_tx_eachmode_data, time_after, timeout_lists, timeout_peers,
  to_send_credit, total_num,
}
use uwe5631_aml.Tx.Race.{handle_tx_status_after_close-below}
use uwe5631_aml.Tx.Request.{HasColours, sprdwl_fc_get_send_num-IsGrant}
use uwe5631_aml.Tx.Rounding.{IsPercent}
use uwe5631_aml.Tx.Run.{Run, alloc, credit_event, request, start}
use uwe5631_aml.Tx.Sound.{IsSound, Run-IsSound}

-- A device on SDIO with credits; the station mode 1 is open.
abbrev sdio : Priv
sdio = record { pcie = false; no_credit = false; fw_stat = 0 ∷ 1 ∷ 0 ∷ 0 ∷ 0 ∷ 0 ∷ 0 ∷ 0 ∷ [] }

abbrev all_down : Priv
all_down = record { pcie = false; no_credit = false; fw_stat = [] }

-- The colours hold 3, 2, 0 and 1 credits, and packets wait in the pool.
abbrev color_of : ℕ → ℕ → FlowControl
color_of i n = record { mode = mode_none; color_bit = i; flow = n }

abbrev charged_tx : TxMsg
charged_tx = record {
  flow_ctrl = color_of 0 3 ∷ color_of 1 2 ∷ color_of 2 0 ∷ color_of 3 1 ∷ [];
  color_num = 0 ∷ 0 ∷ 0 ∷ 0 ∷ [];
  ring_cp = 6;
  ring_ap = 0;
  pool_ref = 9;
  pool_stopped = false;
  net_start_cnt = 0;
}

has_colours : HasColours charged_tx
has_colours = record { flows = refl; nums = refl }

-- The numbers of a request for 5 packets
abbrev tagged_tx : TxMsg
tagged_tx = record charged_tx { color_num = 3 ∷ 2 ∷ 0 ∷ 0 ∷ [] }

num_granted : (sprdwl_fc_get_send_num sdio 1 5 charged_tx).num ≡ some 5
unfolding sprdwl_fc_get_send_num clear_color_num sprdwl_fc_find_color_per_mode find_mode free_closed
    is_closed assign_color take_credit take_exclusive take_shared sprdwl_fc_get_shared_num
    shared_loop is_shared flow_at error_of_zero
num_granted = refl

sprdwl_fc_get_send_num-IsGrant_example :
    IsGrant 1 (min 100 5) 5 (sprdwl_fc_get_send_num sdio 1 5 charged_tx).tx
    × (total_flow (sprdwl_fc_get_send_num sdio 1 5 charged_tx).tx.flow_ctrl
        ≡ total_flow charged_tx.flow_ctrl)
sprdwl_fc_get_send_num-IsGrant_example =
    sprdwl_fc_get_send_num-IsGrant sdio 1 5 charged_tx 5 refl refl (omega arith) (omega arith)
      has_colours num_granted

sprdwl_fc_set_clor_bit-expand_example :
    map (λ num. sprdwl_fc_set_clor_bit sdio num tagged_tx) (count_up 1 (sum tagged_tx.color_num))
    ≡ expand 0 tagged_tx.color_num
sprdwl_fc_set_clor_bit-expand_example = sprdwl_fc_set_clor_bit-expand sdio tagged_tx refl

charged_tx-IsLedger : IsLedger 6 charged_tx
unfolding total_flow
charged_tx-IsLedger = record { balance = refl; counted = omega arith; colours = has_colours }

tagged_tx-IsLedger : IsLedger 6 tagged_tx
unfolding total_flow
tagged_tx-IsLedger = record {
  balance = refl;
  counted = omega arith;
  colours = record { flows = refl; nums = refl };
}

tagged_tx-IsCovered : IsCovered tagged_tx
unfolding flow_at
tagged_tx-IsCovered zero = omega arith
tagged_tx-IsCovered (suc zero) = omega arith
tagged_tx-IsCovered (suc (suc zero)) = omega arith
tagged_tx-IsCovered (suc (suc (suc zero))) = omega arith
tagged_tx-IsCovered (suc (suc (suc (suc i)))) = omega arith

tagged_sum : sum tagged_tx.color_num ≡ 5
unfolding sum
tagged_sum = refl

sprdwl_handle_tx_return-IsSent_example :
    (sent : TxMsg) × (sprdwl_handle_tx_return sdio 5 false tagged_tx ≡ some sent)
    × IsSent 6 5 tagged_tx sent
sprdwl_handle_tx_return-IsSent_example =
    sprdwl_handle_tx_return-IsSent sdio 6 5 tagged_tx refl (omega arith) tagged_tx-IsLedger
      tagged_tx-IsCovered tagged_sum (omega arith)

all_closed_down : all_closed all_down 7 1 ≡ true
unfolding all_closed is_closed
all_closed_down = refl

handle_tx_status_after_close-below_example :
    sprdwl_handle_tx_return all_down 5 false (handle_tx_status_after_close all_down 1 tagged_tx)
    ≡ none
handle_tx_status_after_close-below_example =
    handle_tx_status_after_close-below all_down 1 5 tagged_tx refl all_closed_down
      (record { flows = refl; nums = refl }) (omega (arith, tagged_sum))

-- The firmware grants 4 credits; a packet is allocated.
abbrev granted_flow : List ℕ
granted_flow = 2 ∷ 0 ∷ 2 ∷ 0 ∷ []

sum_granted : sum granted_flow ≡ 4
unfolding sum
sum_granted = refl

abbrev run_tx : TxMsg
run_tx =
    (sprdwl_sdio_process_credit (flowcon granted_flow)
      (record tx_init { pool_ref = suc tx_init.pool_ref })).1

granted_flow-Run : Run (0 + sum granted_flow) none run_tx
granted_flow-Run =
    credit_event granted_flow refl (omega (arith, sum_granted)) (omega (arith, sum_granted))
      (alloc start)

run_granted : (sprdwl_fc_get_send_num sdio 1 1 run_tx).num ≡ some 1
unfolding sprdwl_fc_get_send_num clear_color_num sprdwl_fc_find_color_per_mode find_mode free_closed
    is_closed assign_color take_credit take_exclusive take_shared sprdwl_fc_get_shared_num
    shared_loop is_shared flow_at error_of_zero sprdwl_sdio_process_credit add_credit add_flows
    reset_credit sum tx_init
run_granted = refl

one_counted : 1 ≤ run_tx.pool_ref
unfolding sprdwl_sdio_process_credit add_credit sum tx_init
one_counted = omega arith

request-Run : Run (0 + sum granted_flow) (some 1) (sprdwl_fc_get_send_num sdio 1 1 run_tx).tx
request-Run =
    request sdio 1 1 1 refl refl (omega arith) (omega arith) one_counted run_granted
      granted_flow-Run

Run-IsSound_example :
    IsSound (0 + sum granted_flow) (some 1) (sprdwl_fc_get_send_num sdio 1 1 run_tx).tx
Run-IsSound_example = Run-IsSound request-Run

-- Two categories: voice packets for two peers and best-effort packets for one.
abbrev packets_from : ℕ → ℕ → List Packet
packets_from k zero = []
packets_from k (suc n) = record { id = k; timeout = 100 } ∷ packets_from (suc k) n

abbrev peer_of : ℕ → ℕ → PeerList
peer_of k n = record { head_list = packets_from k n; l_num = n }

abbrev queues : List (List PeerList)
queues = (peer_of 0 2 ∷ peer_of 10 1 ∷ []) ∷ (peer_of 20 0 ∷ []) ∷ (peer_of 30 5 ∷ []) ∷ [] ∷ []

abbrev usual : Ratios
usual = record { vo = 87; vi = 90; be = 81 }

usual-IsPercent : IsPercent usual
usual-IsPercent = record { vo = omega arith; vi = omega arith; be = omega arith }

queues-AllCounted : AllCounted (join queues)
queues-AllCounted = (refl, (refl, (refl, (refl, tt))))

queues_num : 8 ≡ q_list_num (join queues)
unfolding q_list_num
queues_num = refl

abbrev round_of : List Packet → Round
round_of to_send = sprdwl_tx_eachmode_data usual 50 2000 sdio 1 8 queues to_send charged_tx

sprdwl_tx_eachmode_data-IsRound_example :
    IsRound
      (λ total. sprdwl_fc_test_send_num sdio 1 total charged_tx)
      queues
      (packets_from 90 1)
      (round_of (packets_from 90 1))
sprdwl_tx_eachmode_data-IsRound_example =
    sprdwl_tx_eachmode_data-IsRound usual 50 2000 sdio 1 8 queues (packets_from 90 1) charged_tx
      usual-IsPercent queues-AllCounted queues_num

-- Six of the eight packets move: two and one for voice, then three.
moved_six : map (λ p. p.id) (round_of []).to_send ≡ 0 ∷ 1 ∷ 10 ∷ 30 ∷ 31 ∷ 32 ∷ []
unfolding sprdwl_tx_eachmode_data timeout_lists timeout_peers handle_tx_timeout time_after drop_num
    drop_packets total_num q_list_num sprdwl_fc_test_send_num sprdwl_fc_find_color_per_mode
    find_mode free_closed is_closed assign_color test_credit flow_at sprdwl_fc_test_shared_num
    is_shared move_lists move_all move_peers share_lists share_peers fp_num first_share ratio_share
    min_num add_xmit_list_tail
moved_six = refl

some_moved : 0 < length (round_of []).to_send
some_moved =
    omega (arith, ap (λ (t : List ℕ). length t) moved_six, length-map (round_of []).to_send)
  where
    length-map : (ps : List Packet) → length (map {A = Packet} {B = ℕ} (λ p. p.id) ps) ≡ length ps
    length-map [] = refl
    length-map (p ∷ ps) = ap suc (length-map ps)

sprdwl_tx_eachmode_data-to_send_credit_example :
    (to_send_credit sdio 1 (round_of []).to_send (round_of []).tx).num
    ≡ some (length (round_of []).to_send)
sprdwl_tx_eachmode_data-to_send_credit_example =
    sprdwl_tx_eachmode_data-to_send_credit sdio 1 refl refl (omega arith) usual 50 2000 8 queues
      charged_tx usual-IsPercent queues-AllCounted queues_num has_colours some_moved
