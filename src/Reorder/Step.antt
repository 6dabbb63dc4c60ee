-- ===== src/Reorder/Step.antt =====
-- The loops over the slots and the handlers of one session: what `reorder_msdu_process` does to an
-- MSDU and `ba_reorder_timeout` to a gap. Taking and giving back a spinlock is no step of the model.
use uwe5631_aml.Common.{
  ℕ, zero, suc, ◌+◌, ◌-◌, ◌%◌, ◌^◌, bit_and, Bool, true, false, not, ◌&&◌, ◌||◌, Option, ◌==◌,
  if◌then◌else◌,
}
use uwe5631_aml.Reorder.Seqno.{seqno_add, seqno_sub}
use uwe5631_aml.Reorder.{
  RxBaNodeDesc, RxMsduDesc, Session, set_ba_pkt_desc, is_same_pn, slot, put_slot, send_reorder_skb,
  joint_msdu,
}

abbrev pub u16_mod : ℕ
u16_mod = 2 ^ 16

-- The body of the loop of send_msdu_in_order behind its test.
abbrev pub take_slot : ℕ → Session → Session
take_slot index t =
    let t' = send_reorder_skb index t in
    record t' { rx_ba = record (t'.rx_ba) { buff_cnt = t'.rx_ba.buff_cnt - 1 } }

-- The test that ends the loop.
abbrev pub is_gap : ℕ → Session → Bool
is_gap seq_num t =
    t.rx_ba.buff_cnt == 0 || not (slot t.rx_ba (bit_and seq_num t.rx_ba.index_mask)).desc.last

-- `while (1)`, with fuel. `seq_num` is an unsigned short.
unfoldable pub in_order_loop : ℕ → ℕ → Session → ℕ × Session
in_order_loop zero seq_num t = (seq_num, t)
in_order_loop (suc fuel) seq_num t =
    let rest =
      in_order_loop fuel ((seq_num + 1) % u16_mod)
        (take_slot (bit_and seq_num t.rx_ba.index_mask) t) in
    if is_gap seq_num t then (seq_num, t) else rest

-- Each round takes one from buff_cnt, so that is fuel enough.
unfoldable pub send_msdu_in_order : Session → ℕ × Session
send_msdu_in_order t =
    let (seq_num, t') = in_order_loop t.rx_ba.buff_cnt t.rx_ba.win_start t in (seq_num % 4096, t')

-- The body of the loop of send_msdu_with_gap.
abbrev pub holds_packet : ℕ → Session → Bool
holds_packet seq_num t =
    not (t.rx_ba.buff_cnt == 0)
    && not ((slot t.rx_ba (bit_and seq_num t.rx_ba.index_mask)).desc.msdu_num == 0)

abbrev pub gap_round : ℕ → Session → Session
gap_round seq_num t =
    if holds_packet seq_num t then take_slot (bit_and seq_num t.rx_ba.index_mask) t else t

-- `num_frms`, the result, is read by no caller.
unfoldable pub with_gap_loop : ℕ → ℕ → Session → Session
with_gap_loop zero seq_num t = t
with_gap_loop (suc num) seq_num t =
    with_gap_loop num ((seq_num + 1) % u16_mod) (gap_round seq_num t)

unfoldable pub send_msdu_with_gap : Session → ℕ → Session
send_msdu_with_gap t last_seqno =
    with_gap_loop (seqno_sub last_seqno t.rx_ba.win_start) t.rx_ba.win_start t

abbrev pub set_window : ℕ → Session → Session
set_window win_start t = record t {
  rx_ba = record (t.rx_ba) {
    win_start = win_start;
    win_limit = seqno_add win_start (t.rx_ba.win_size + 4095);
  };
}

unfoldable pub between_seqlo_seqhi : Session → Session
between_seqlo_seqhi t = let (seq_num, t') = send_msdu_in_order t in set_window seq_num t'

-- The window moves to `win_start`, sends what it has run past, and then what is in order.
abbrev pub move_window : ℕ → Session → Session
move_window win_start t =
    let t' = send_msdu_with_gap t win_start in
    between_seqlo_seqhi (record t' { rx_ba = record (t'.rx_ba) { win_start = win_start } })

unfoldable pub greater_than_seqhi : Session → ℕ → Session
greater_than_seqhi t seq_num = move_window (seqno_sub (seq_num + 1) t.rx_ba.win_size) t

-- `-EINVAL` is false.
unfoldable pub insert_msdu : RxMsduDesc → Option ℕ → RxBaNodeDesc → Bool × RxBaNodeDesc
insert_msdu m skb d =
    let index = bit_and m.seq_num d.index_mask in
    let p = slot d index in
    let joined = joint_msdu p skb in
    if not (p.desc.msdu_num == 0)
    then (if p.desc.seq == m.seq_num && not p.desc.last && is_same_pn p.desc m
        then (
          true,
          put_slot d index (record joined {
            desc = record (p.desc) {
              msdu_num = (p.desc.msdu_num + 1) % u16_mod;
              last = m.last_msdu_of_mpdu;
            };
          }),
        )
        else (false, d))
    else (
      true,
      record (put_slot d index (record joined {
        desc = record (set_ba_pkt_desc p.desc m) { last = m.last_msdu_of_mpdu; msdu_num = 1 };
      })) { buff_cnt = (d.buff_cnt + 1) % u16_mod },
    )
