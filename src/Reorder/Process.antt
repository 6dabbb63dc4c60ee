-- ===== src/Reorder/Process.antt =====
-- The functions of WIFI/reorder.c on one block-ack node: an MSDU or a filter event that comes in, and
-- the timer that fires.
use uwe5631_aml.Common.{
  ℕ, zero, suc, ◌+◌, ◌%◌, bit_and, Bool, true, false, not, ◌&&◌, ◌||◌, Option, none, some, List, [],
  ◌∷◌, ltb, ◌==◌, if◌then◌else◌,
}
use uwe5631_aml.Reorder.Seqno.{seqno_add, seqno_leq, seqno_geq}
use uwe5631_aml.Reorder.{
  RxBaNodeDesc, RxMsduDesc, Skbs, Session, reorder_set_skb_list, kfree_skb_list, send_order_msdu,
  slot,
}
use uwe5631_aml.Reorder.Step.{between_seqlo_seqhi, move_window, greater_than_seqhi, insert_msdu}

-- `struct rx_ba_node`. `reorder_timer` says whether the timer is pending.
pub record RxBaNode : Type 0 where
  pub sta_lut_index : ℕ
  pub tid : ℕ
  pub active : Bool
  pub timeout_cnt : ℕ
  pub reorder_timer : Bool
  pub rx_ba : RxBaNodeDesc

abbrev pub del_timer : RxBaNode → RxBaNode
del_timer n = record n { reorder_timer = false; timeout_cnt = 0 }

unfoldable pub mod_reorder_timer : RxBaNode → RxBaNode
mod_reorder_timer n =
    if not (n.rx_ba.buff_cnt == 0) then record n { reorder_timer = true } else del_timer n

-- reorder_set_skb_list(ba_entry, skb, skb): with a NULL skb it ends in `ba_entry->skb_last->next`
-- at a NULL `skb_last`, which is a fault, `none`.
unfoldable pub set_skb : Skbs → Option ℕ → Option Skbs
set_skb s none = none
set_skb s (some b) = some (reorder_set_skb_list s (b ∷ []))

-- `if (ret && skb) dev_kfree_skb(skb)`
abbrev pub free_skb : Skbs → Option ℕ → Skbs
free_skb s none = s
free_skb s (some b) = kfree_skb_list s (b ∷ [])

-- A number past the window's limit moves the window.
abbrev pub make_room : RxMsduDesc → Session → Session
make_room m t =
    if not (seqno_leq m.seq_num t.rx_ba.win_limit) then greater_than_seqhi t m.seq_num else t

abbrev pub set_tail : RxMsduDesc → RxBaNodeDesc → RxBaNodeDesc
set_tail m d = if seqno_geq m.seq_num d.win_tail then record d { win_tail = m.seq_num } else d

-- The branch of a sequence number that the window has not passed. The Boolean is `!ret`.
unfoldable pub insert_in_window : RxMsduDesc → Option ℕ → Session → Bool × Session
insert_in_window m skb t =
    let t' = make_room m t in
    let (done, d) = insert_msdu m skb t'.rx_ba in
    if done
    then (true, record t' { rx_ba = set_tail m d })
    else (false, record { skbs = free_skb t'.skbs skb; rx_ba = d })

unfoldable pub reorder_msdu : RxMsduDesc → Option ℕ → Session → Option (Bool × Session)
reorder_msdu m skb t =
    if seqno_geq m.seq_num t.rx_ba.win_start
    then some
        (insert_in_window m skb (record t { rx_ba = record (t.rx_ba) { win_start_init = 0 } }))
    else if not (seqno_geq m.seq_num t.rx_ba.win_start_init)
    then elim (set_skb t.skbs skb) [ none ↦ none | some s ↦ some (true, record t { skbs = s }) ]
    else some (false, record t { skbs = free_skb t.skbs skb })

-- What follows the call of reorder_msdu. `old` is the window's start before it.
unfoldable pub after_reorder : RxMsduDesc → ℕ → RxBaNode → Bool × Session → Skbs × RxBaNode
after_reorder m old n (true, t) =
    if m.last_msdu_of_mpdu && m.seq_num == t.rx_ba.win_start
    then (let t' = between_seqlo_seqhi t in
        (t'.skbs, mod_reorder_timer (record n { rx_ba = t'.rx_ba })))
    else if not n.reorder_timer || not (old == t.rx_ba.win_start)
    then (t.skbs, mod_reorder_timer (record n { rx_ba = t.rx_ba }))
    else (t.skbs, record n { rx_ba = t.rx_ba })
after_reorder m old n (false, t) = (
  t.skbs,
  (if t.rx_ba.buff_cnt == 0
      then del_timer (record n { rx_ba = t.rx_ba })
      else record n { rx_ba = t.rx_ba }),
)

-- The MSDU that comes next while nothing is buffered is sent at once.
unfoldable pub is_in_sequence : RxMsduDesc → RxBaNodeDesc → Bool
is_in_sequence m d = m.seq_num == d.win_start && d.buff_cnt == 0 && m.last_msdu_of_mpdu

-- `skb` is NULL for a filter event; `none` is a fault.
unfoldable pub reorder_msdu_process :
    RxMsduDesc → Option ℕ → Skbs → RxBaNode → Option (Skbs × RxBaNode)
reorder_msdu_process m skb s n =
    if not n.active
    then elim (set_skb s skb) [ none ↦ none | some s' ↦ some (s', n) ]
    else if is_in_sequence m n.rx_ba
    then (let t =
          send_order_msdu m skb
            (record { skbs = s; rx_ba = record (n.rx_ba) { win_start_init = 0 } }) in
        some (t.skbs, record n { rx_ba = t.rx_ba }))
    else elim (reorder_msdu m skb (record { skbs = s; rx_ba = n.rx_ba })) [
      | none ↦ none
      | some r ↦ some (after_reorder m n.rx_ba.win_start n r)
    ]

-- The loop's test: the number is at most win_tail and its slot is not complete.
abbrev pub seeks : RxBaNodeDesc → ℕ → Bool
seeks d seqno = seqno_leq seqno d.win_tail && not (slot d (bit_and seqno d.index_mask)).desc.last

unfoldable pub first_seqno_loop : ℕ → RxBaNodeDesc → ℕ → ℕ
first_seqno_loop zero d seqno = seqno
first_seqno_loop (suc fuel) d seqno =
    let rest = first_seqno_loop fuel d (seqno_add seqno 1) in if seeks d seqno then rest else seqno

-- At most 2049 numbers are `seqno_leq` the tail.
unfoldable pub get_first_seqno_in_buff : RxBaNodeDesc → ℕ
get_first_seqno_in_buff d = first_seqno_loop 2050 d d.win_start

unfoldable pub bar_send_ba_buffer : Session → ℕ → Session
bar_send_ba_buffer t seq_num =
    if not (seqno_leq seq_num t.rx_ba.win_start) then move_window seq_num t else t

-- What the timer's function leaves: `delba` for send_delba, `wake` for waking the receive thread.
pub record TimeoutResult : Type 0 where
  pub skbs : Skbs
  pub node : RxBaNode
  pub delba : Bool
  pub wake : Bool

abbrev pub has_skb : List ℕ → Bool
has_skb [] = false
has_skb (b ∷ bs) = true

-- `timeout_cnt++`, an unsigned char, and the end of the session past MAX_TIMEOUT_CNT, 60.
abbrev pub count_timeout : RxBaNode → Bool × RxBaNode
count_timeout n =
    let cnt = (n.timeout_cnt + 1) % 256 in
    if ltb 60 cnt
    then (true, record n { active = false; timeout_cnt = 0 })
    else (false, record n { timeout_cnt = cnt })

unfoldable pub ba_reorder_timeout : Skbs → RxBaNode → TimeoutResult
ba_reorder_timeout s n =
    if n.active && not (n.rx_ba.buff_cnt == 0) && not n.reorder_timer
    then (let d = record (n.rx_ba) { win_start_init = 0 } in
        let t = move_window (get_first_seqno_in_buff d) (record { skbs = s; rx_ba = d }) in
        let (delba, n') = count_timeout (record n { rx_ba = t.rx_ba }) in
        record {
          skbs = t.skbs;
          node = mod_reorder_timer n';
          delba = delba;
          wake = has_skb t.skbs.skb_list;
        })
    else record { skbs = s; node = n; delba = false; wake = has_skb s.skb_list }
