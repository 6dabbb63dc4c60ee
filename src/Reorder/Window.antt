-- ===== src/Reorder/Window.antt =====
-- The well-formed sessions, and that the loops that send slots keep them and lose no buffer.
use uwe5631_aml.Common.{
  ℕ, zero, suc, ◌+◌, ◌-◌, ◌%◌, ◌^◌, ◌≤◌, ◌<◌, bit_and, ◌≡◌, refl, ◌∙◌, inl, inr, Bool, true, false,
  List, [], ◌∷◌, arith, Bool-cases, length,
}
use uwe5631_aml.Common.{count, count-append, bit_and-le, bit_and_cut}
use Prim.Native.Nat.{◌∣◌}
use uwe5631_aml.Reorder.Seqno.{seqno_sub}
use uwe5631_aml.Reorder.{
  RxBaPktDesc, RxBaPkt, RxBaNodeDesc, Skbs, Session, zero_pkt, slot, replay_detection, send_chain,
  send_reorder_skb, reorder_set_skb_list, deliver_or_free,
}
use uwe5631_aml.Reorder.Step.{
  take_slot, is_gap, holds_packet, gap_round, in_order_loop, send_msdu_in_order, with_gap_loop,
  send_msdu_with_gap, u16_mod,
}
use uwe5631_aml.Reorder.Slots.{
  is_used, used, IsSlot, AllSlots, zero_pkt-IsSlot, copies, Wrote, set-Wrote, AllSlots-get,
}

-- What the slots are: every index that the mask lets through is in the buffer, buff_cnt counts the
-- slots that hold a packet, a slot without one is empty, and none has more than `most` MSDUs.
pub record HasSlots (most : ℕ) (d : RxBaNodeDesc) : Type 0 where
  pub mask_in : d.index_mask < length d.reorder_buffer
  pub room : length d.reorder_buffer < 2 ^ 16
  pub counted : used d.reorder_buffer ≡ d.buff_cnt
  pub slots : AllSlots most d.reorder_buffer

-- The fields that sending leaves alone.
pub record SameWindow (d d' : RxBaNodeDesc) : Type 0 where
  pub start : d'.win_start ≡ d.win_start
  pub limit : d'.win_limit ≡ d.win_limit
  pub tail : d'.win_tail ≡ d.win_tail
  pub size : d'.win_size ≡ d.win_size
  pub mask : d'.index_mask ≡ d.index_mask

SameWindow-trans : (c d e : RxBaNodeDesc) → SameWindow c d → SameWindow d e → SameWindow c e
SameWindow-trans c d e h k = omega arith

pub HasSlots-of_eq :
    (most : ℕ) (d d' : RxBaNodeDesc)
    → d'.index_mask ≡ d.index_mask
    → d'.reorder_buffer ≡ d.reorder_buffer
    → d'.buff_cnt ≡ d.buff_cnt
    → HasSlots most d
    → HasSlots most d'
HasSlots-of_eq most d d' m b c h = record {
  mask_in = rw (m, b) h.mask_in;
  room = rw b h.room;
  counted = rw (b, c) h.counted;
  slots = rw b h.slots;
}

-- A part of the handlers that moves no window: it keeps the slots well-formed and every buffer.
pub record Sends (x most : ℕ) (t t' : Session) : Type 0 where
  pub kept : copies x t' ≡ copies x t
  pub shape : HasSlots most t'.rx_ba
  pub window : SameWindow t.rx_ba t'.rx_ba
  pub slots_left : length t'.rx_ba.reorder_buffer ≡ length t.rx_ba.reorder_buffer

Sends-trans :
    (x most : ℕ) (t u v : Session) → Sends x most t u → Sends x most u v → Sends x most t v
Sends-trans x most t u v h k = record {
  kept = k.kept ∙ h.kept;
  shape = k.shape;
  window = SameWindow-trans t.rx_ba u.rx_ba v.rx_ba h.window k.window;
  slots_left = k.slots_left ∙ h.slots_left;
}

pub replay_detection-same :
    (p : RxBaPktDesc) (d : RxBaNodeDesc)
    → let d' = (replay_detection p d).1 in
      SameWindow d d' × (d'.reorder_buffer ≡ d.reorder_buffer) × (d'.buff_cnt ≡ d.buff_cnt)
unfolding replay_detection
replay_detection-same p d = ground arith

pub deliver_or_free-count :
    (x : ℕ) (b : Bool) (s : Skbs) (chain : List ℕ)
    → let s' = deliver_or_free b s chain in
      count x s'.skb_list + count x s'.freed ≡ count x s.skb_list + count x s.freed + count x chain
unfolding reorder_set_skb_list
deliver_or_free-count x true s chain = omega (arith, count-append x s.skb_list chain)
deliver_or_free-count x false s chain = omega (arith, count-append x chain s.freed)

-- What sending a chain does to the buffers outside the slots, and that it leaves the slots alone.
pub record SendsChain (x : ℕ) (chain : List ℕ) (t t' : Session) : Type 0 where
  pub moved :
      count x t'.skbs.skb_list + count x t'.skbs.freed
      ≡ count x t.skbs.skb_list + count x t.skbs.freed + count x chain
  pub buffer : t'.rx_ba.reorder_buffer ≡ t.rx_ba.reorder_buffer
  pub cnt : t'.rx_ba.buff_cnt ≡ t.rx_ba.buff_cnt
  pub window : SameWindow t.rx_ba t'.rx_ba

send_chain-SendsChain :
    (x : ℕ) (chain : List ℕ) (p : RxBaPktDesc) (t : Session)
    → SendsChain x chain t (send_chain chain p t)
unfolding send_chain
send_chain-SendsChain x [] p t = record {
  moved = omega arith;
  buffer = refl;
  cnt = refl;
  window = omega arith;
}
send_chain-SendsChain x (b ∷ chain) p t =
    let r = replay_detection-same p t.rx_ba in
    record {
      moved = deliver_or_free-count x (replay_detection p t.rx_ba).0 t.skbs (b ∷ chain);
      buffer = r.1;
      cnt = r.2;
      window = r.0;
    }

take_slot-Sends :
    (x most i : ℕ) (t : Session)
    → HasSlots most t.rx_ba
    → i ≤ t.rx_ba.index_mask
    → is_used (slot t.rx_ba i) ≡ 1
    → Sends x most t (take_slot i t) × ((take_slot i t).rx_ba.buff_cnt + 1 ≡ t.rx_ba.buff_cnt)
unfolding send_reorder_skb
take_slot-Sends x most i t h le full =
    let p = slot t.rx_ba i in
    let r = send_chain-SendsChain x p.skb p.desc t in
    let ps = t.rx_ba.reorder_buffer in
    let w : Wrote x i ps zero_pkt (take_slot i t).rx_ba.reorder_buffer =
      rw r.buffer (set-Wrote x i ps zero_pkt (omega (arith, h.mask_in))) in
    (
      record {
        kept = omega (arith, r.moved, w.chains);
        shape = record {
          mask_in = omega (arith, w.size, r.window.mask, h.mask_in);
          room = omega (arith, w.size, h.room);
          counted = omega (arith, w.count_used, r.cnt, h.counted);
          slots = w.slots most (zero_pkt-IsSlot most) h.slots;
        };
        window = omega (arith, r.window);
        slots_left = w.size;
      },
      omega (arith, r.cnt, w.count_used, h.counted),
    )

index-le : (seq_num : ℕ) (t : Session) → bit_and seq_num t.rx_ba.index_mask ≤ t.rx_ba.index_mask
index-le seq_num t = bit_and-le seq_num t.rx_ba.index_mask

-- A complete slot holds a packet.
last-used : (most : ℕ) (p : RxBaPkt) → IsSlot most p → p.desc.last ≡ true → is_used p ≡ 1
last-used most p h e = ground (arith, h.1)

-- Behind the test of send_msdu_in_order, its body sends.
in_order_step :
    (x most seq_num : ℕ) (t : Session)
    → HasSlots most t.rx_ba
    → is_gap seq_num t ≡ false
    → let t' = take_slot (bit_and seq_num t.rx_ba.index_mask) t in
      Sends x most t t' × (t'.rx_ba.buff_cnt + 1 ≡ t.rx_ba.buff_cnt)
in_order_step x most seq_num t h e =
    let i = bit_and seq_num t.rx_ba.index_mask in
    take_slot-Sends x most i t h (index-le seq_num t) (
      last-used most (slot t.rx_ba i) (AllSlots-get most t.rx_ba.reorder_buffer i h.slots)
        (ground arith))

Sends-refl : (x most : ℕ) (t : Session) → HasSlots most t.rx_ba → Sends x most t t
Sends-refl x most t h = record { kept = refl; shape = h; window = omega arith; slots_left = refl }

in_order_loop-Sends :
    (x most fuel seq_num : ℕ) (t : Session)
    → HasSlots most t.rx_ba
    → Sends x most t (in_order_loop fuel seq_num t).1
unfolding in_order_loop
in_order_loop-Sends x most zero seq_num t h = Sends-refl x most t h
in_order_loop-Sends x most (suc fuel) seq_num t h = elim (Bool-cases (is_gap seq_num t)) [
  | inl e ↦ rw e (Sends-refl x most t h)
  | inr e ↦
      let s = in_order_step x most seq_num t h e in
      rw e (
        Sends-trans x most t _ _ s.0
          (in_order_loop-Sends x most fuel ((seq_num + 1) % u16_mod) _ s.0.shape))
]

gap_round-Sends :
    (x most seq_num : ℕ) (t : Session)
    → HasSlots most t.rx_ba
    → Sends x most t (gap_round seq_num t)
gap_round-Sends x most seq_num t h = elim (Bool-cases (holds_packet seq_num t)) [
  | inl e ↦
      rw e
        (take_slot-Sends x most (bit_and seq_num t.rx_ba.index_mask) t h (index-le seq_num t)
          (ground arith)).0
  | inr e ↦ rw e (Sends-refl x most t h)
]

with_gap_loop-Sends :
    (x most num seq_num : ℕ) (t : Session)
    → HasSlots most t.rx_ba
    → Sends x most t (with_gap_loop num seq_num t)
unfolding with_gap_loop
with_gap_loop-Sends x most zero seq_num t h = Sends-refl x most t h
with_gap_loop-Sends x most (suc num) seq_num t h =
    let s = gap_round-Sends x most seq_num t h in
    Sends-trans x most t _ _ s
      (with_gap_loop-Sends x most num ((seq_num + 1) % u16_mod) (gap_round seq_num t) s.shape)

-- send_msdu_with_gap loses no buffer and keeps the slots and the window.
pub send_msdu_with_gap-Sends :
    (x most last_seqno : ℕ) (t : Session)
    → HasSlots most t.rx_ba
    → Sends x most t (send_msdu_with_gap t last_seqno)
unfolding send_msdu_with_gap
send_msdu_with_gap-Sends x most last_seqno t h =
    with_gap_loop-Sends x most (seqno_sub last_seqno t.rx_ba.win_start) t.rx_ba.win_start t h

-- So does send_msdu_in_order.
pub send_msdu_in_order-Sends :
    (x most : ℕ) (t : Session) → HasSlots most t.rx_ba → Sends x most t (send_msdu_in_order t).1
unfolding send_msdu_in_order
send_msdu_in_order-Sends x most t h =
    in_order_loop-Sends x most t.rx_ba.buff_cnt t.rx_ba.win_start t h

-- Where the loop stops, and how far it has gone.
record Stops (seq_num : ℕ) (t : Session) (out : ℕ × Session) : Type 0 where
  gap : is_gap out.0 out.1 ≡ true
  went : out.0 % 4096 ≡ (seq_num + (t.rx_ba.buff_cnt - out.1.rx_ba.buff_cnt)) % 4096
  fell : out.1.rx_ba.buff_cnt ≤ t.rx_ba.buff_cnt

in_order_loop-Stops :
    (most fuel seq_num : ℕ) (t : Session)
    → HasSlots most t.rx_ba
    → t.rx_ba.buff_cnt ≤ fuel
    → Stops seq_num t (in_order_loop fuel seq_num t)
unfolding in_order_loop
in_order_loop-Stops most zero seq_num t h le = record {
  gap = ground arith;
  went = omega arith;
  fell = omega arith;
}
in_order_loop-Stops most (suc fuel) seq_num t h le = elim (Bool-cases (is_gap seq_num t)) [
  | inl e ↦ rw e (record { gap = e; went = omega arith; fell = omega arith })
  | inr e ↦
      let s = in_order_step 0 most seq_num t h e in
      let ih =
        in_order_loop-Stops most fuel ((seq_num + 1) % u16_mod) _ s.0.shape (omega (arith, s.1)) in
      rw e (record {
        gap = ih.gap;
        went = omega (arith, ih.went, ih.fell, s.1);
        fell = omega (arith, ih.fell, s.1);
      })
]

-- send_msdu_in_order ends by its test and never for want of fuel, where the buffer has 2^k slots,
-- at most 4096: the number that it returns is as many slots past the window's start as packets were
-- sent, and then either no packet is left or the slot at that number is not complete.
pub send_msdu_in_order_lem :
    (k most : ℕ) (t : Session)
    → HasSlots most t.rx_ba
    → t.rx_ba.index_mask + 1 ≡ 2 ^ k
    → (2 ^ k) ∣ 4096
    → let (seq_num, t') = send_msdu_in_order t in
      (seq_num ≡ (t.rx_ba.win_start + (t.rx_ba.buff_cnt - t'.rx_ba.buff_cnt)) % 4096)
      × (t'.rx_ba.buff_cnt ≤ t.rx_ba.buff_cnt)
      × (is_gap seq_num t' ≡ true)
unfolding send_msdu_in_order
send_msdu_in_order_lem k most t h e d =
    let r = in_order_loop-Stops most t.rx_ba.buff_cnt t.rx_ba.win_start t h (omega arith) in
    let s = in_order_loop-Sends 0 most t.rx_ba.buff_cnt t.rx_ba.win_start t h in
    let (seq_num, t') = in_order_loop t.rx_ba.buff_cnt t.rx_ba.win_start t in
    (
      r.went,
      r.fell,
      rw (bit_and_cut k seq_num t'.rx_ba.index_mask (omega (arith, s.window.mask, e)) d) r.gap,
    )
