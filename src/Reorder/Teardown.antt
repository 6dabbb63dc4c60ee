-- ===== src/Reorder/Teardown.antt =====
-- Opening and closing a session: when ADDBA leaves a well-formed session, and where the buffers of
-- a session go that is closed.
use uwe5631_aml.Common.{
  ◌-◌, ◌∙◌, bit_and, bit_and_low, ℕ, zero, suc, ◌+◌, ◌*◌, ◌^◌, ◌≤◌, ◌<◌, ◌≡◌, refl, ap, ◌⊎◌, inl,
  inr, true, false, List, [], ◌∷◌, ◌++◌, arith, ltb, Bool-cases, ltb→lt, length, take, replicate,
}
use uwe5631_aml.Common.{count, count-append, length-replicate}
use uwe5631_aml.Reorder.{
  RxBaPkt, RxMsduDesc, Skbs, Session, zero_pkt, index_size_loop, get_index_size, set_ba_node_desc,
  flush_slots, flush_reorder_buffer,
}
use native.Mathlib.Nat.{pow-suc, mod-eq_of_lt}
use uwe5631_aml.Reorder.Step.{between_seqlo_seqhi}
use uwe5631_aml.Reorder.Process.{RxBaNode}
use uwe5631_aml.Reorder.Slots.{held, used, AllSlots, zero_pkt-IsSlot, copies}
use uwe5631_aml.Reorder.Insert.{index}
use uwe5631_aml.Reorder.Window.{HasSlots, send_msdu_in_order-Sends}
use uwe5631_aml.Reorder.Conserve.{IsSession, between_seqlo_seqhi-Keeps, session_of}
use uwe5631_aml.Reorder.Entry.{init_ba_node, open_session, delba_node}

flush_slots-count :
    (x : ℕ) (ps : List RxBaPkt) (s : Skbs)
    → let s' = flush_slots ps s in
      (count x s'.freed ≡ count x s.freed + held x ps) × (s'.skb_list ≡ s.skb_list)
unfolding flush_slots
flush_slots-count x [] s = (omega arith, refl)
flush_slots-count x (p ∷ ps) s =
    let ih = flush_slots-count x ps (record s { freed = p.skb ++ s.freed }) in
    (omega (arith, ih.0, count-append x p.skb s.freed), ih.1)

take-all {ℓ} : {A : Type ℓ} (n : ℕ) (xs : List A) → length xs ≤ n → take n xs ≡ xs
take-all zero [] h = refl
take-all zero (x ∷ xs) h = absurd (omega arith)
take-all (suc n) [] h = refl
take-all (suc n) (x ∷ xs) h = ap (◌∷◌ x) (take-all n xs (omega arith))

flush_reorder_buffer-count :
    (x : ℕ) (t : Session)
    → length t.rx_ba.reorder_buffer ≤ t.rx_ba.index_mask + 1
    → let s = (flush_reorder_buffer t).skbs in count x s.skb_list + count x s.freed ≡ copies x t
unfolding flush_reorder_buffer
flush_reorder_buffer-count x t h =
    let ps = t.rx_ba.reorder_buffer in
    let n = t.rx_ba.index_mask + 1 in
    let f = flush_slots-count x (take n ps) t.skbs in
    omega (arith, f.0, ap (count x) f.1, ap (held x) (take-all n ps h))

between_seqlo_seqhi-size :
    (most : ℕ) (t : Session)
    → HasSlots most t.rx_ba
    → let d = (between_seqlo_seqhi t).rx_ba in
      (d.index_mask ≡ t.rx_ba.index_mask)
      × (length d.reorder_buffer ≡ length t.rx_ba.reorder_buffer)
unfolding between_seqlo_seqhi
between_seqlo_seqhi-size most t h =
    let k = send_msdu_in_order-Sends 0 most t h in (k.window.mask, k.slots_left)

-- DELBA at an active session, with well-formed slots and no more of them than the mask says, hands every buffer of the session on: each one that was delivered,
-- freed or in a slot is delivered or freed afterwards, and none is made up.
pub delba_node_lem :
    (x most : ℕ) (s : Skbs) (n : RxBaNode)
    → HasSlots most n.rx_ba
    → length n.rx_ba.reorder_buffer ≤ n.rx_ba.index_mask + 1
    → n.active ≡ true
    → let s' = delba_node s n in
      count x s'.skb_list + count x s'.freed ≡ copies x (session_of (s, n))
unfolding delba_node
delba_node_lem x most s n h size e =
    let t = session_of (s, n) in
    let k = between_seqlo_seqhi-Keeps x most t h in
    let z = between_seqlo_seqhi-size most t h in
    rw e (
      omega (
        arith,
        k.kept,
        flush_reorder_buffer-count x (between_seqlo_seqhi t) (omega (arith, z.0, z.1, size)),
      ))

-- DELBA at a session that is not active frees no slot: of a buffer that a slot still holds, fewer
-- are known afterwards than before. So the session that a timeout has made inactive loses them.
delba_node_leak :
    (x : ℕ) (s : Skbs) (n : RxBaNode)
    → n.active ≡ false
    → 0 < held x n.rx_ba.reorder_buffer
    → let s' = delba_node s n in
      count x s'.skb_list + count x s'.freed < copies x (session_of (s, n))
unfolding delba_node
delba_node_leak x s n e h = rw e (omega arith)

all_zero-AllSlots : (most n : ℕ) → AllSlots most (replicate n zero_pkt)
all_zero-AllSlots most zero = tt
all_zero-AllSlots most (suc n) = (zero_pkt-IsSlot most, all_zero-AllSlots most n)

used-all_zero : (n : ℕ) → used (replicate n zero_pkt) ≡ 0
used-all_zero zero = refl
used-all_zero (suc n) = omega (arith, used-all_zero n)

-- The loop doubles until the size is reached, and goes no further.
index_size_loop-bounds :
    (rounds size k : ℕ)
    → 0 < k
    → size ≤ k * 2 ^ rounds
    → let r = index_size_loop rounds size k in (size ≤ r) × (k ≤ r) × ((r ≡ k) ⊎ (r < 2 * size))
unfolding index_size_loop
index_size_loop-bounds zero size k pos h = (omega (arith, h), omega arith, inl refl)
index_size_loop-bounds (suc rounds) size k pos h = elim (Bool-cases (ltb k size)) [
  | inr e ↦ rw e (ground (arith, e), omega arith, inl refl)
  | inl e ↦
      let small = ltb→lt k size e in
      let ih =
        index_size_loop-bounds rounds size (k * 2) (omega arith)
          (omega (arith, h, ap (λ (t : ℕ). k * t) (pow-suc 2 rounds))) in
      rw e (ih.0, omega (arith, ih.1), inr (omega (arith, ih.2, small)))
]

get_index_size-bounds :
    (size : ℕ)
    → size ≤ 2 ^ 17
    → let r = get_index_size size in (size ≤ r) × (64 ≤ r) × ((r ≡ 64) ⊎ (r < 2 * size))
unfolding get_index_size
get_index_size-bounds size h = index_size_loop-bounds 11 size 64 (omega arith) (omega arith)

-- The ADDBA event makes a new node a well-formed session, for every start of the window that is a
-- sequence number and every size of it below 2^14.
pub open_session-IsSession :
    (sta_lut_index tid win_start win_size : ℕ)
    → win_start < 4096
    → win_size < 2 ^ 14
    → let size = get_index_size (2 * win_size) in
      IsSession 0 (open_session (init_ba_node sta_lut_index tid size) win_start win_size size).rx_ba
unfolding open_session set_ba_node_desc
open_session-IsSession sta_lut_index tid win_start win_size hs hw =
    let size = get_index_size (2 * win_size) in
    let b = get_index_size-bounds (2 * win_size) (omega arith) in
    let l = length-replicate size zero_pkt in
    record {
      slots = record {
        mask_in = omega (arith, l, b);
        room = omega (arith, l, b);
        counted = used-all_zero size;
        slots = all_zero-AllSlots 0 size;
      };
      start_in = hs;
      limit = refl;
    }

-- The size is a power of two.
index_size_loop-power : (rounds size k : ℕ) → (j : ℕ) × (index_size_loop rounds size k ≡ k * 2 ^ j)
unfolding index_size_loop
index_size_loop-power zero size k = (0, omega arith)
index_size_loop-power (suc rounds) size k = elim (Bool-cases (ltb k size)) [
  | inr e ↦ rw e (0, omega arith)
  | inl e ↦
      let ih = index_size_loop-power rounds size (k * 2) in
      rw e (suc ih.0, omega (arith, ih.1, ap (λ (t : ℕ). k * t) (pow-suc 2 ih.0)))
]

six_more : (j : ℕ) → 64 * 2 ^ j ≡ 2 ^ suc (suc (suc (suc (suc (suc j)))))
six_more j = omega (
  arith,
  pow-suc 2 j,
  pow-suc 2 (suc j),
  pow-suc 2 (suc (suc j)),
  pow-suc 2 (suc (suc (suc j))),
  pow-suc 2 (suc (suc (suc (suc j)))),
  pow-suc 2 (suc (suc (suc (suc (suc j))))),
)

-- With the mask for a size, the index of a number below the size is the number itself.
get_index_size-index :
    (size a : ℕ) → a < get_index_size size → bit_and a (get_index_size size - 1) ≡ a
unfolding get_index_size
get_index_size-index size a h =
    let power = index_size_loop-power 11 size 64 in
    let k = suc (suc (suc (suc (suc (suc power.0))))) in
    let whole : index_size_loop 11 size 64 ≡ 2 ^ k = power.1 ∙ six_more power.0 in
    ap (λ (t : ℕ). bit_and a (t - 1)) whole
    ∙ (bit_and_low k a ∙ mod-eq_of_lt (omega (arith, h, whole)))

-- At a node that is there already, with a buffer of fewer slots than a wider window wants, the ADDBA
-- event leaves the buffer and sets a mask with which insert_msdu takes as index of each MSDU its
-- sequence number itself, if that is below the wanted size: for sequence numbers from the number of
-- slots on, the index is past the end of the buffer.
pub open_session_overflow :
    (n : RxBaNode) (win_start win_size : ℕ) (m : RxMsduDesc)
    → length n.rx_ba.reorder_buffer ≤ m.seq_num
    → m.seq_num < get_index_size (2 * win_size)
    → let d = (open_session n win_start win_size (get_index_size (2 * win_size))).rx_ba in
      (index m d ≡ m.seq_num) × (length d.reorder_buffer ≤ index m d)
unfolding open_session set_ba_node_desc
open_session_overflow n win_start win_size m past small =
    let same = get_index_size-index (2 * win_size) m.seq_num small in
    (same, omega (arith, same, past))
