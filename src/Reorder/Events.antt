-- ===== src/Reorder/Events.antt =====
-- The events and calls of WIFI/reorder.c that reach the nodes of an interface: received data, the
-- firmware's block-ack events, the activation of a session and the end of the interface.
use uwe5631_aml.Common.{
  ℕ, Bool, true, not, ◌&&◌, Option, none, some, List, [], ◌∷◌, if◌then◌else◌, map,
}
use uwe5631_aml.Reorder.{RxMsduDesc, Skbs, flush_reorder_buffer}
use uwe5631_aml.Reorder.Process.{RxBaNode, set_skb, reorder_msdu_process}
use uwe5631_aml.Reorder.Entry.{
  num_tids, Hlist, RxBaEntry, store, find_ba_node, for_tids, wlan_addba_event, wlan_delba_event,
}

-- The fields of `struct rx_msdu_desc` that choose the session.
pub record RxHeader : Type 0 where
  pub msdu : RxMsduDesc
  pub sta_lut_index : ℕ
  pub tid : ℕ
  pub bc_mc_flag : Bool
  pub qos_flag : Bool

-- A node after its MSDU, and the buffers of the entry.
abbrev put_processed : ℕ → RxBaEntry → Skbs × RxBaNode → RxBaEntry
put_processed a e (s, n) = store a n (record e { skbs = s })

abbrev process_at : ℕ → RxBaNode → RxMsduDesc → Option ℕ → RxBaEntry → Option RxBaEntry
process_at a n m skb e = elim (reorder_msdu_process m skb e.skbs n) [
  | none ↦ none
  | some out ↦ some (put_processed a e out)
]

-- `reorder_set_skb_list(ba_entry, pskb, pskb)` with a buffer that is not NULL
abbrev pass_on : ℕ → RxBaEntry → Option RxBaEntry
pass_on pskb e = elim (set_skb e.skbs (some pskb)) [
  | none ↦ none
  | some s ↦ some (record e { skbs = s })
]

unfoldable pub reorder_data_process : RxBaEntry → RxHeader → Option ℕ → Option RxBaEntry
reorder_data_process e h none = some e
reorder_data_process e h (some pskb) =
    if not h.bc_mc_flag && h.qos_flag
    then elim (find_ba_node e h.sta_lut_index h.tid) [
      | none ↦ none
      | some (none, e') ↦ pass_on pskb e'
      | some (some (a, n), e') ↦ process_at a n h.msdu (some pskb) e'
    ]
    else pass_on pskb e

unfoldable pub wlan_filter_event : RxBaEntry → ℕ → ℕ → ℕ → Option RxBaEntry
wlan_filter_event e sta_lut_index tid seq_num =
    let m : RxMsduDesc = record {
      seq_num = seq_num;
      pn_l = 0;
      pn_h = 0;
      cipher_type = 0;
      last_msdu_of_mpdu = true;
    } in
    elim (find_ba_node e sta_lut_index tid) [
      | none ↦ none
      | some (none, e') ↦ some e'
      | some (some (a, n), e') ↦ process_at a n m none e'
    ]

-- `struct sprdwl_event_ba` by its type. SPRDWL_DELTXBA_EVENT belongs to the transmit side.
pub data BaEvent : Type 0 where
  addba_req : ℕ → ℕ → Option ℕ → BaEvent
  delba bar : BaEvent
  filter : ℕ → BaEvent
  other : BaEvent

-- What the event sends to the firmware: an ADDBA response with success or not.
abbrev pub Reply : Type 0
Reply = Option Bool

unfoldable pub wlan_ba_session_event : RxBaEntry → ℕ → ℕ → BaEvent → Option (Reply × RxBaEntry)
wlan_ba_session_event e sta_lut_index tid (addba_req win_start win_size address) =
    elim (wlan_addba_event e sta_lut_index tid win_start win_size address) [
      | none ↦ none
      | some (done, e') ↦ some (some done, e')
    ]
wlan_ba_session_event e sta_lut_index tid delba = elim (wlan_delba_event e sta_lut_index tid) [
  | none ↦ none
  | some e' ↦ some (none, e')
]
wlan_ba_session_event e sta_lut_index tid bar = some (none, e)
wlan_ba_session_event e sta_lut_index tid (filter seq_num) =
    elim (wlan_filter_event e sta_lut_index tid seq_num) [ none ↦ none | some e' ↦ some (none, e') ]
wlan_ba_session_event e sta_lut_index tid other = some (none, e)

unfoldable pub sprdwl_active_ba_node : RxBaEntry → ℕ → ℕ → Option RxBaEntry
sprdwl_active_ba_node e sta_lut_index tid = elim (find_ba_node e sta_lut_index tid) [
  | none ↦ none
  | some (none, e') ↦ some e'
  | some (some (a, n), e') ↦ some (store a (record n { active = true }) e')
]

abbrev reset_pn_tid : ℕ → RxBaEntry → ℕ → Option RxBaEntry
reset_pn_tid lut_id e tid = elim (find_ba_node e lut_id tid) [
  | none ↦ none
  | some (none, e') ↦ some e'
  | some (some (a, n), e') ↦
      some (store a (record n { rx_ba = record (n.rx_ba) { reset_pn = true } }) e')
]

-- `lut_id` is what the search of the peer table finds, `none` for 0xff.
unfoldable pub reset_pn : RxBaEntry → Option ℕ → Option RxBaEntry
reset_pn e none = some e
reset_pn e (some lut_id) = for_tids num_tids (reset_pn_tid lut_id) 0 e

abbrev flush_list : Hlist → Skbs → Skbs
flush_list [] s = s
flush_list ((a, n) ∷ l) s =
    flush_list l (flush_reorder_buffer (record { skbs = s; rx_ba = n.rx_ba })).skbs

abbrev flush_lists : List Hlist → Skbs → Skbs
flush_lists [] s = s
flush_lists (l ∷ ls) s = flush_lists ls (flush_list l s)

-- Every node is taken from its list and freed; `current_ba_node` keeps what it was.
unfoldable pub sprdwl_reorder_deinit : RxBaEntry → RxBaEntry
sprdwl_reorder_deinit e = record e {
  hlist = map (λ l. []) e.hlist;
  skbs = flush_lists e.hlist e.skbs;
}
