-- ===== src/Reorder/Scenario.antt =====
-- Runs of the handlers of WIFI/reorder.c from the outside: a session is opened, gets MSDUs out of
-- order, and is closed in each of the ways that there are.
use uwe5631_aml.Common.{ℕ, ◌≡◌, refl, true, false, Option, none, some, List, [], ◌∷◌}
use uwe5631_aml.Reorder.{
  reorder_get_skb_list, set_ba_node_desc, flush_reorder_buffer, flush_slots, get_index_size,
  index_size_loop, is_same_pn, reorder_set_skb_list, replay_detection, send_chain, send_order_msdu,
  send_reorder_skb,
}
use uwe5631_aml.Reorder.Seqno.{seqno_geq, seqno_leq}
use uwe5631_aml.Reorder.Step.{
  between_seqlo_seqhi, greater_than_seqhi, in_order_loop, insert_msdu, send_msdu_in_order,
  send_msdu_with_gap, with_gap_loop,
}
use uwe5631_aml.Reorder.Process.{
  reorder_msdu_process, is_in_sequence, after_reorder, insert_in_window, mod_reorder_timer,
  reorder_msdu, set_skb,
}
use uwe5631_aml.Reorder.Entry.{
  RxBaEntry, sprdwl_reorder_init, wlan_addba_event, wlan_delba_event, peer_entry_delba,
  find_ba_node, find_from, search_list, find_in, create_ba_node, deref, node_at, store_in,
  open_session, delba_node, unlink_in, peer_delba_node, for_tids,
}
use uwe5631_aml.Reorder.Events.{
  reorder_data_process, wlan_filter_event, BaEvent, addba_req, delba, filter, wlan_ba_session_event,
  sprdwl_active_ba_node, reset_pn, sprdwl_reorder_deinit,
}

abbrev and_then : Option RxBaEntry → (RxBaEntry → Option RxBaEntry) → Option RxBaEntry
and_then none f = none
and_then (some e) f = f e

abbrev event : BaEvent → RxBaEntry → Option RxBaEntry
event b e = elim (wlan_ba_session_event e 6 0 b) [ none ↦ none | some (reply, e') ↦ some e' ]

-- An MSDU of station 6 at TID 0
abbrev data_frame : ℕ → ℕ → RxBaEntry → Option RxBaEntry
data_frame seq_num pskb e =
    reorder_data_process e
      (record {
        msdu = record {
          seq_num = seq_num;
          pn_l = 0;
          pn_h = 0;
          cipher_type = 0;
          last_msdu_of_mpdu = true;
        };
        sta_lut_index = 6;
        tid = 0;
        bc_mc_flag = false;
        qos_flag = true;
      })
      (some pskb)

-- A session from 10 on that is active, has lost 10, and has 11 in buffer 1.
abbrev gap : Option RxBaEntry
gap =
    and_then
      (and_then
        (event (addba_req 10 8 (some 100))
          (sprdwl_reorder_init (record { skb_list = []; freed = [] })))
        (λ e. sprdwl_active_ba_node e 6 0))
      (data_frame 11 1)

-- What the receive thread gets, and what was freed.
abbrev outcome : Option RxBaEntry → Option (List ℕ × List ℕ)
outcome none = none
outcome (some e) = some ((reorder_get_skb_list e.skbs).0, e.skbs.freed)

-- 11 waits; 10 lets it go; a filter event for 10 lets it go alone; DELBA, the end of the peer and the
-- end of the driver free it; a new key leaves it.
runs :
    (outcome gap ≡ some ([], []))
    × (outcome (and_then gap (data_frame 10 2)) ≡ some (2 ∷ 1 ∷ [], []))
    × (outcome (and_then gap (event (filter 10))) ≡ some (1 ∷ [], []))
    × (outcome (and_then gap (event delba)) ≡ some ([], 1 ∷ []))
    × (outcome (and_then gap (λ e. peer_entry_delba e 6)) ≡ some ([], 1 ∷ []))
    × (outcome (and_then gap (λ e. some (sprdwl_reorder_deinit e))) ≡ some ([], 1 ∷ []))
    × (outcome (and_then gap (λ e. reset_pn e (some 6))) ≡ some ([], []))
unfolding wlan_ba_session_event wlan_addba_event sprdwl_reorder_init sprdwl_active_ba_node
    reorder_data_process reset_pn wlan_delba_event wlan_filter_event peer_entry_delba
    sprdwl_reorder_deinit reorder_get_skb_list find_ba_node find_from search_list find_in
    create_ba_node deref node_at store_in open_session delba_node unlink_in peer_delba_node for_tids
    reorder_msdu_process is_in_sequence after_reorder insert_in_window mod_reorder_timer
    reorder_msdu set_skb seqno_geq seqno_leq between_seqlo_seqhi greater_than_seqhi in_order_loop
    insert_msdu send_msdu_in_order send_msdu_with_gap with_gap_loop set_ba_node_desc
    flush_reorder_buffer flush_slots get_index_size index_size_loop is_same_pn reorder_set_skb_list
    replay_detection send_chain send_order_msdu send_reorder_skb
runs = (refl, refl, refl, refl, refl, refl, refl)
