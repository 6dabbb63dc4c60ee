-- ===== src/Reorder.antt =====
-- The receive reorder buffer of WIFI/reorder.c and WIFI/reorder.h: the state of one block-ack
-- session and what happens to each MSDU of it.
-- A socket buffer is the number that stands for its address; a chain of them, linked by `next`,
-- is a list. `flags` that the code sets to 0 and 1 are Booleans.
pub mod Seqno
pub mod Step
pub mod Process
pub mod Slots
pub mod Window
pub mod Insert
pub mod Conserve
pub mod Deliver
pub mod Entry
pub mod Events
pub mod Teardown
pub mod Replay
mod Scenario
mod Tests
use uwe5631_aml.Common.{
  ℕ, zero, suc, ◌+◌, ◌-◌, ◌*◌, ◌/◌, ◌%◌, ◌^◌, ◌≤◌, ◌<◌, min, bit_and, ◌≡◌, refl, sym, ap, ◌∙◌, ◌≢◌,
  ◌↔◌, ◌⊎◌, inl, inr, Bool, true, false, not, ◌&&◌, ◌||◌, Option, none, some, List, [], ◌∷◌, ◌++◌,
  arith, ltb, leb, ◌==◌, if◌then◌else◌, flag, Bool-cases, length, get_or, set, take, drop,
  replicate, append-nil, append_assoc,
}
use Seqno.{seqno_add, seqno_sub, seqno_leq, seqno_geq}

-- `struct rx_ba_pkt_desc`
pub record RxBaPktDesc : Type 0 where
  pub pn_l : ℕ
  pub pn_h : ℕ
  pub seq : ℕ
  pub cipher_type : ℕ
  pub last : Bool
  pub msdu_num : ℕ

-- `struct rx_ba_pkt`: the chain from `skb` to `skb_last`, empty for NULL.
pub record RxBaPkt : Type 0 where
  pub skb : List ℕ
  pub desc : RxBaPktDesc

-- `struct rx_ba_node_desc`
pub record RxBaNodeDesc : Type 0 where
  pub win_start_init : ℕ
  pub win_start : ℕ
  pub win_limit : ℕ
  pub win_tail : ℕ
  pub win_size : ℕ
  pub buff_cnt : ℕ
  pub pn_h : ℕ
  pub pn_l : ℕ
  pub reset_pn : Bool
  pub index_mask : ℕ
  pub reorder_buffer : List RxBaPkt

-- The fields of `struct rx_msdu_desc` that the reorder code reads.
pub record RxMsduDesc : Type 0 where
  pub seq_num : ℕ
  pub pn_l : ℕ
  pub pn_h : ℕ
  pub cipher_type : ℕ
  pub last_msdu_of_mpdu : Bool

-- The chain from `skb_head` to `skb_last` of `struct sprdwl_rx_ba_entry`, and the buffers that
-- were handed to `dev_kfree_skb` or `kfree_skb_list`.
pub record Skbs : Type 0 where
  pub skb_list : List ℕ
  pub freed : List ℕ

-- What the functions on one session change.
pub record Session : Type 0 where
  pub skbs : Skbs
  pub rx_ba : RxBaNodeDesc

abbrev pub zero_desc : RxBaPktDesc
zero_desc = record { pn_l = 0; pn_h = 0; seq = 0; cipher_type = 0; last = false; msdu_num = 0 }

-- A packet after `memset(pkt, 0, sizeof(struct rx_ba_pkt))`
abbrev pub zero_pkt : RxBaPkt
zero_pkt = record { skb = []; desc = zero_desc }

-- `index_size <<= 1` while `size > index_size`. `size` is twice an unsigned short, so 11 rounds do.
index_size_loop : ℕ → ℕ → ℕ → ℕ
index_size_loop zero size index_size = index_size
index_size_loop (suc rounds) size index_size =
    let rest = index_size_loop rounds size (index_size * 2) in
    if ltb index_size size then rest else index_size

pub get_index_size : ℕ → ℕ
get_index_size size = index_size_loop 11 size 64

-- `win_size - 1` is an int, -1 for 0, and SEQNO_ADD masks the sum.
pub set_ba_node_desc : RxBaNodeDesc → ℕ → ℕ → ℕ → RxBaNodeDesc
set_ba_node_desc d win_start win_size index_mask = record d {
  win_size = win_size;
  win_start = win_start;
  win_start_init = win_start;
  win_limit = seqno_add win_start (win_size + 4095);
  win_tail = seqno_sub win_start 1;
  index_mask = index_mask;
  buff_cnt = 0;
}

abbrev pub set_ba_pkt_desc : RxBaPktDesc → RxMsduDesc → RxBaPktDesc
set_ba_pkt_desc p m = record p {
  seq = m.seq_num;
  pn_l = m.pn_l;
  pn_h = m.pn_h;
  cipher_type = m.cipher_type;
}

-- SPRDWL_HW_TKIP and SPRDWL_HW_CCMP
abbrev pub has_pn : ℕ → Bool
has_pn cipher_type = cipher_type == 1 || cipher_type == 2

-- The chain from `skb_head` to `skb_last` of the caller is a list that is not empty.
pub reorder_set_skb_list : Skbs → List ℕ → Skbs
reorder_set_skb_list s chain = record s { skb_list = s.skb_list ++ chain }

abbrev pub kfree_skb_list : Skbs → List ℕ → Skbs
kfree_skb_list s chain = record s { freed = chain ++ s.freed }

pub reorder_get_skb_list : Skbs → List ℕ × Skbs
reorder_get_skb_list s = (s.skb_list, record s { skb_list = [] })

pub is_same_pn : RxBaPktDesc → RxMsduDesc → Bool
is_same_pn p m =
    if has_pn p.cipher_type
    then (if not (p.pn_l == m.pn_l) || not (p.pn_h == m.pn_h) then false else true)
    else true

-- The result, and the session with the packet number that the accepted packet leaves.
pub replay_detection : RxBaPktDesc → RxBaNodeDesc → Bool × RxBaNodeDesc
replay_detection p d =
    if has_pn p.cipher_type
    then (if d.reset_pn && leb p.pn_l d.pn_l && leb p.pn_h d.pn_h
        then (true, record d { reset_pn = false; pn_l = p.pn_l; pn_h = p.pn_h })
        else if (d.pn_h == p.pn_h && ltb d.pn_l p.pn_l) || ltb d.pn_h p.pn_h
        then (true, record d { pn_l = p.pn_l; pn_h = p.pn_h })
        else (false, d))
    else (true, d)

-- Deliver a chain, or free it as a replay.
abbrev pub deliver_or_free : Bool → Skbs → List ℕ → Skbs
deliver_or_free true s chain = reorder_set_skb_list s chain
deliver_or_free false s chain = kfree_skb_list s chain

-- `skb` is NULL for a filter event.
pub send_order_msdu : RxMsduDesc → Option ℕ → Session → Session
send_order_msdu m skb t =
    let d = t.rx_ba in
    let d' = record d {
      win_start = seqno_add d.win_start 1;
      win_limit = seqno_add d.win_limit 1;
      win_tail = seqno_sub (seqno_add d.win_start 1) 1;
    } in
    elim skb [
      | none ↦ record { skbs = t.skbs; rx_ba = d' }
      | some b ↦
          let (fresh, d'') = replay_detection (set_ba_pkt_desc zero_desc m) d' in
          record { skbs = deliver_or_free fresh t.skbs (b ∷ []); rx_ba = d'' }
    ]

-- The packet of a slot, by what its chain is.
send_chain : List ℕ → RxBaPktDesc → Session → Session
send_chain [] p t = t
send_chain (b ∷ chain) p t =
    let (fresh, d) = replay_detection p t.rx_ba in
    record { skbs = deliver_or_free fresh t.skbs (b ∷ chain); rx_ba = d }

abbrev pub slot : RxBaNodeDesc → ℕ → RxBaPkt
slot d index = get_or d.reorder_buffer index zero_pkt

abbrev pub put_slot : RxBaNodeDesc → ℕ → RxBaPkt → RxBaNodeDesc
put_slot d index pkt = record d { reorder_buffer = set d.reorder_buffer index pkt }

-- `pkt` is the slot at `index`, which is cleared at the end.
pub send_reorder_skb : ℕ → Session → Session
send_reorder_skb index t =
    let pkt = slot t.rx_ba index in
    let t' = send_chain pkt.skb pkt.desc t in record t' { rx_ba = put_slot t'.rx_ba index zero_pkt }

pub flush_slots : List RxBaPkt → Skbs → Skbs
flush_slots [] s = s
flush_slots (p ∷ ps) s = flush_slots ps (kfree_skb_list s p.skb)

-- The loop runs over index_mask + 1 slots, which is the whole buffer in a well-formed session.
pub flush_reorder_buffer : Session → Session
flush_reorder_buffer t =
    let d = t.rx_ba in
    let n = d.index_mask + 1 in
    record {
      skbs = flush_slots (take n d.reorder_buffer) t.skbs;
      rx_ba = record d {
        reorder_buffer =
            replicate (length (take n d.reorder_buffer)) zero_pkt ++ drop n d.reorder_buffer;
        buff_cnt = 0;
      };
    }

abbrev pub joint_msdu : RxBaPkt → Option ℕ → RxBaPkt
joint_msdu p none = p
joint_msdu p (some b) = record p { skb = p.skb ++ b ∷ [] }
