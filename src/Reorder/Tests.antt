-- ===== src/Reorder/Tests.antt =====
-- Concrete sessions, and what the theorems say of them.
use uwe5631_aml.Common.{
  ℕ, ◌+◌, ◌-◌, ◌%◌, ◌*◌, ◌≤◌, ◌<◌, ◌≡◌, refl, ◌↔◌, ◌⊎◌, true, false, Option, none, some, List, [],
  ◌∷◌, arith, length, count,
}
use native.Mathlib.Nat.{dvd-mul_left}
use uwe5631_aml.Reorder.{
  RxBaPktDesc, RxBaPkt, RxBaNodeDesc, RxMsduDesc, Skbs, Session, zero_pkt, get_index_size, has_pn,
  replay_detection,
}
use uwe5631_aml.Reorder.Seqno.{seqno_leq, seqno_sub, seqno_leq_iff, seqno_leq_antisymm}
use uwe5631_aml.Reorder.Step.{is_gap, insert_msdu, send_msdu_in_order}
use uwe5631_aml.Reorder.Process.{
  RxBaNode, reorder_msdu_process, seeks, get_first_seqno_in_buff, ba_reorder_timeout,
}
use uwe5631_aml.Reorder.Slots.{copies}
use uwe5631_aml.Reorder.Window.{HasSlots, send_msdu_in_order_lem}
use uwe5631_aml.Reorder.Insert.{index, Inserts, IsPlaced, insert_msdu-Inserts}
use uwe5631_aml.Reorder.Conserve.{IsSession, session_of}
use uwe5631_aml.Reorder.Deliver.{
  reorder_msdu_process-Keeps, get_first_seqno_in_buff_lem, ba_reorder_timeout-Keeps,
}
use uwe5631_aml.Reorder.Entry.{init_ba_node, open_session, delba_node}
use uwe5631_aml.Reorder.Teardown.{delba_node_lem, open_session-IsSession, open_session_overflow}
use uwe5631_aml.Reorder.Replay.{packet_number, replay_detection_lem, replay_detection_rekey}

-- The MSDU of sequence number 5, in buffer 7, stands in slot 1 of 4.
abbrev stored : RxBaPkt
stored = record {
  skb = 7 ∷ [];
  desc = record { pn_l = 3; pn_h = 0; seq = 5; cipher_type = 2; last = true; msdu_num = 1 };
}

-- The window starts at 4, which is missing, so 5 waits.
abbrev waiting : RxBaNodeDesc
waiting = record {
  win_start_init = 0;
  win_start = 4;
  win_limit = 5;
  win_tail = 5;
  win_size = 2;
  buff_cnt = 1;
  pn_h = 0;
  pn_l = 1;
  reset_pn = false;
  index_mask = 3;
  reorder_buffer = zero_pkt ∷ stored ∷ zero_pkt ∷ zero_pkt ∷ [];
}

abbrev node : RxBaNode
node = record {
  sta_lut_index = 6;
  tid = 0;
  active = true;
  timeout_cnt = 0;
  reorder_timer = false;
  rx_ba = waiting;
}

abbrev closed : RxBaNode
closed = record node { active = false }

abbrev skbs : Skbs
skbs = record { skb_list = 2 ∷ []; freed = [] }

abbrev session : Session
session = record { skbs = skbs; rx_ba = waiting }

-- The session with the window one further on, where 5 is next.
abbrev ready : Session
ready = record { skbs = skbs; rx_ba = record waiting { win_start = 5; win_limit = 6 } }

abbrev msdu : RxMsduDesc
msdu = record { seq_num = 4; pn_l = 2; pn_h = 0; cipher_type = 2; last_msdu_of_mpdu = true }

waiting-HasSlots : HasSlots 1 waiting
waiting-HasSlots = record {
  mask_in = omega arith;
  room = omega arith;
  counted = refl;
  slots = ground arith;
}

waiting-IsSession : IsSession 1 waiting
waiting-IsSession = record { slots = waiting-HasSlots; start_in = omega arith; limit = refl }

ready-HasSlots : HasSlots 1 ready.rx_ba
ready-HasSlots = record {
  mask_in = omega arith;
  room = omega arith;
  counted = refl;
  slots = ground arith;
}

-- The missing MSDU arrives, and both are delivered.
abbrev delivered : Option (Skbs × RxBaNode) → List ℕ
delivered none = []
delivered (some (s, n)) = s.skb_list

delivers : delivered (reorder_msdu_process msdu (some 9) skbs node) ≡ 2 ∷ 9 ∷ 7 ∷ []
unfolding reorder_msdu_process uwe5631_aml.Reorder.Process.is_in_sequence
    uwe5631_aml.Reorder.Process.reorder_msdu uwe5631_aml.Reorder.Seqno.seqno_geq
    uwe5631_aml.Reorder.Process.after_reorder uwe5631_aml.Reorder.Process.insert_in_window
    insert_msdu uwe5631_aml.Reorder.Step.between_seqlo_seqhi send_msdu_in_order
    uwe5631_aml.Reorder.Step.in_order_loop uwe5631_aml.Reorder.send_reorder_skb
    uwe5631_aml.Reorder.send_chain replay_detection uwe5631_aml.Reorder.reorder_set_skb_list
delivers = refl

reorder_msdu_process-Keeps_example :
    (out : Skbs × RxBaNode) × (reorder_msdu_process msdu (some 9) skbs node ≡ some out)
    × (copies 7 (session_of out) ≡ copies 7 (session_of (skbs, node)) + count 7 (9 ∷ []))
    × IsSession 2 out.1.rx_ba
reorder_msdu_process-Keeps_example =
    reorder_msdu_process-Keeps 7 1 9 msdu skbs node waiting-IsSession (omega arith)

ba_reorder_timeout-Keeps_example :
    let r = ba_reorder_timeout skbs node in
    (copies 7 (session_of (r.skbs, r.node)) ≡ copies 7 (session_of (skbs, node)))
    × IsSession 1 r.node.rx_ba
ba_reorder_timeout-Keeps_example = ba_reorder_timeout-Keeps 7 1 skbs node waiting-IsSession

send_msdu_in_order_example :
    let (seq_num, t') = send_msdu_in_order ready in
    (seq_num ≡ (ready.rx_ba.win_start + (ready.rx_ba.buff_cnt - t'.rx_ba.buff_cnt)) % 4096)
    × (t'.rx_ba.buff_cnt ≤ ready.rx_ba.buff_cnt)
    × (is_gap seq_num t' ≡ true)
send_msdu_in_order_example =
    send_msdu_in_order_lem 2 1 ready ready-HasSlots refl (dvd-mul_left 4 1024)

delba_node_example :
    let s' = delba_node skbs node in
    count 7 s'.skb_list + count 7 s'.freed ≡ copies 7 (session_of (skbs, node))
delba_node_example = delba_node_lem 7 1 skbs node waiting-HasSlots (omega arith) refl

insert_msdu-Inserts_example :
    Inserts 9 1 (some 9) waiting (insert_msdu msdu (some 9) waiting)
    × IsPlaced msdu (some 9) waiting (insert_msdu msdu (some 9) waiting)
insert_msdu-Inserts_example =
    insert_msdu-Inserts 9 1 msdu (some 9) waiting waiting-HasSlots (omega arith)

open_session-IsSession_example :
    let size = get_index_size (2 * 64) in
    IsSession 0 (open_session (init_ba_node 6 0 size) 100 64 size).rx_ba
open_session-IsSession_example = open_session-IsSession 6 0 100 64 (omega arith) (omega arith)

replay_detection_example :
    ((packet_number 0 1 < packet_number 0 3)
      × (replay_detection stored.desc waiting ≡ (true, record waiting { pn_l = 3; pn_h = 0 })))
    ⊎ ((packet_number 0 3 ≤ packet_number 0 1)
        × (replay_detection stored.desc waiting ≡ (false, waiting)))
replay_detection_example =
    replay_detection_lem stored.desc waiting refl refl (omega arith) (omega arith)

abbrev rekeyed : RxBaNodeDesc
rekeyed = record waiting { pn_h = 1; reset_pn = true }

replay_detection_rekey_example :
    ((3 ≤ 1)
      × (replay_detection stored.desc rekeyed
          ≡ (true, record rekeyed { reset_pn = false; pn_l = 3; pn_h = 0 })))
    ⊎ ((1 < 3) × (0 < 1) × (replay_detection stored.desc rekeyed ≡ (false, rekeyed)))
replay_detection_rekey_example =
    replay_detection_rekey stored.desc rekeyed refl refl (omega arith) (omega arith) (omega arith)

get_first_seqno_in_buff_example :
    (seeks waiting (get_first_seqno_in_buff waiting) ≡ false)
    × (get_first_seqno_in_buff waiting < 4096)
get_first_seqno_in_buff_example = get_first_seqno_in_buff_lem waiting (omega arith) (omega arith)

seqno_leq_iff_example :
    (seqno_leq 4095 0 ≡ true)
    ↔ ((seqno_sub 0 4095 < 2048) ⊎ ((seqno_sub 0 4095 ≡ 2048) × (0 < 4095)))
seqno_leq_iff_example = seqno_leq_iff 4095 0 (omega arith) (omega arith)

-- The buffer has 4 slots; the window of 64 wants 128.
abbrev later : RxMsduDesc
later = record msdu { seq_num = 100 }

wider : 100 < get_index_size (2 * 64)
unfolding get_index_size uwe5631_aml.Reorder.index_size_loop
wider = omega arith

open_session_overflow_example :
    let d = (open_session node 100 64 (get_index_size (2 * 64))).rx_ba in
    (index later d ≡ 100) × (length d.reorder_buffer ≤ index later d)
open_session_overflow_example = open_session_overflow node 100 64 later (omega arith) wider
