-- ===== src/Reorder/Insert.antt =====
-- insert_msdu: where an MSDU goes, and that the slots stay well-formed.
use uwe5631_aml.Common.{
  ◌≢◌, ◌⊎◌, length, get_or-set_self, get_or-set_ne, ℕ, ◌+◌, ◌%◌, ◌^◌, ◌≤◌, ◌<◌, bit_and, ◌≡◌, refl,
  sym, ap, ◌∙◌, inl, inr, Bool, true, false, not, ◌&&◌, Option, none, some, List, [], ◌∷◌, ◌++◌,
  arith, ◌==◌, if◌then◌else◌, Bool-cases, set, append-nil,
}
use uwe5631_aml.Common.{count, count-append, bit_and-le}
use uwe5631_aml.Reorder.{
  RxBaPkt, RxBaNodeDesc, RxMsduDesc, slot, put_slot, joint_msdu, is_same_pn, zero_pkt,
}
use uwe5631_aml.Reorder.Step.{insert_msdu, u16_mod}
use uwe5631_aml.Reorder.Slots.{
  is_used, used, held, IsSlot, AllSlots-mono, set-Wrote, AllSlots-get, used-le-length,
}
use uwe5631_aml.Reorder.Window.{HasSlots, SameWindow}

abbrev pub of_skb : Option ℕ → List ℕ
of_skb none = []
of_skb (some b) = b ∷ []

joint_msdu-skb : (p : RxBaPkt) (skb : Option ℕ) → (joint_msdu p skb).skb ≡ p.skb ++ of_skb skb
joint_msdu-skb p none = sym (append-nil p.skb)
joint_msdu-skb p (some b) = refl

-- What insert_msdu leaves, whether or not it takes the MSDU.
pub record Inserts (x most : ℕ) (skb : Option ℕ) (d : RxBaNodeDesc) (out : Bool × RxBaNodeDesc)
    : Type 0 where
  pub chains :
      held x out.1.reorder_buffer
      ≡ held x d.reorder_buffer + (if out.0 then count x (of_skb skb) else 0)
  pub shape : HasSlots (most + 1) out.1
  pub window : SameWindow d out.1

pub HasSlots-mono : (most : ℕ) (d : RxBaNodeDesc) → HasSlots most d → HasSlots (most + 1) d
HasSlots-mono most d h = record {
  mask_in = h.mask_in;
  room = h.room;
  counted = h.counted;
  slots = AllSlots-mono most d.reorder_buffer h.slots;
}

-- A packet `q` written to a slot holds the slot's chain and the new buffer.
write-Inserts :
    (x most i cnt : ℕ) (skb : Option ℕ) (d : RxBaNodeDesc) (q : RxBaPkt)
    → HasSlots most d
    → i ≤ d.index_mask
    → q.skb ≡ (slot d i).skb ++ of_skb skb
    → IsSlot (most + 1) q
    → used (set d.reorder_buffer i q) ≡ cnt
    → Inserts x most skb d (true, record (put_slot d i q) { buff_cnt = cnt })
write-Inserts x most i cnt skb d q h le e k c =
    let w = set-Wrote x i d.reorder_buffer q (omega (arith, h.mask_in)) in
    record {
      chains = omega (arith, w.chains, ap (count x) e, count-append x (slot d i).skb (of_skb skb));
      shape = record {
        mask_in = omega (arith, w.size, h.mask_in);
        room = omega (arith, w.size, h.room);
        counted = c;
        slots = w.slots (most + 1) k (AllSlots-mono most d.reorder_buffer h.slots);
      };
      window = omega arith;
    }

-- The slot of an MSDU, and the tests of insert_msdu.
abbrev pub index : RxMsduDesc → RxBaNodeDesc → ℕ
index m d = bit_and m.seq_num d.index_mask

abbrev in_use : RxMsduDesc → RxBaNodeDesc → Bool
in_use m d = not ((slot d (index m d)).desc.msdu_num == 0)

abbrev same_mpdu : RxMsduDesc → RxBaNodeDesc → Bool
same_mpdu m d =
    let p = slot d (index m d) in p.desc.seq == m.seq_num && not p.desc.last && is_same_pn p.desc m

-- The MSDU went onto the chain of the slot of its sequence number, which was free or held earlier MSDUs
-- of the same MPDU, and all other slots are as before.
pub record TakenIn (m : RxMsduDesc) (skb : Option ℕ) (d : RxBaNodeDesc) (out : Bool × RxBaNodeDesc)
    : Type 0 where
  pub is_taken : out.0 ≡ true
  pub fits : (in_use m d ≡ false) ⊎ (same_mpdu m d ≡ true)
  pub chain : (slot out.1 (index m d)).skb ≡ (slot d (index m d)).skb ++ of_skb skb
  pub seq : (slot out.1 (index m d)).desc.seq ≡ m.seq_num
  pub others : (j : ℕ) → index m d ≢ j → slot out.1 j ≡ slot d j

-- Or that slot holds another MPDU, and nothing changed.
abbrev pub IsPlaced : RxMsduDesc → Option ℕ → RxBaNodeDesc → Bool × RxBaNodeDesc → Type 0
IsPlaced m skb d out =
    TakenIn m skb d out ⊎ ((in_use m d ≡ true) × (same_mpdu m d ≡ false) × (out ≡ (false, d)))

put-TakenIn :
    (m : RxMsduDesc) (skb : Option ℕ) (d : RxBaNodeDesc) (q : RxBaPkt) (cnt : ℕ)
    → d.index_mask < length d.reorder_buffer
    → (in_use m d ≡ false) ⊎ (same_mpdu m d ≡ true)
    → q.skb ≡ (joint_msdu (slot d (index m d)) skb).skb
    → q.desc.seq ≡ m.seq_num
    → TakenIn m skb d (true, record (put_slot d (index m d) q) { buff_cnt = cnt })
put-TakenIn m skb d q cnt room fits e f =
    let inside : index m d < length d.reorder_buffer =
      omega (arith, room, bit_and-le m.seq_num d.index_mask) in
    let there = get_or-set_self d.reorder_buffer (index m d) q zero_pkt inside in
    record {
      is_taken = refl;
      fits = fits;
      chain = ap (λ (p : RxBaPkt). p.skb) there ∙ (e ∙ joint_msdu-skb (slot d (index m d)) skb);
      seq = ap (λ (p : RxBaPkt). p.desc.seq) there ∙ f;
      others = λ j h. get_or-set_ne d.reorder_buffer (index m d) j q zero_pkt h;
    }

insert_msdu-IsPlaced :
    (m : RxMsduDesc) (skb : Option ℕ) (d : RxBaNodeDesc)
    → d.index_mask < length d.reorder_buffer
    → IsPlaced m skb d (insert_msdu m skb d)
unfolding insert_msdu
insert_msdu-IsPlaced m skb d room = elim (Bool-cases (in_use m d)) [
  | inl full ↦ elim (Bool-cases (same_mpdu m d)) [
    | inl same ↦
        rw (full, same)
          (inl (put-TakenIn m skb d _ d.buff_cnt room (inr same) refl (ground (arith, same))))
    | inr other ↦ rw (full, other) (inr (refl, refl, refl))
  ]
  | inr free ↦ rw free (inl (put-TakenIn m skb d _ _ room (inl free) refl refl))
]

module _ (x most : ℕ) (m : RxMsduDesc) (skb : Option ℕ) (d : RxBaNodeDesc) where
  join-Inserts :
      (q : RxBaPkt)
      → HasSlots most d
      → most + 1 < 2 ^ 16
      → in_use m d ≡ true
      → q.skb ≡ (joint_msdu (slot d (index m d)) skb).skb
      → q.desc.msdu_num ≡ ((slot d (index m d)).desc.msdu_num + 1) % u16_mod
      → Inserts x most skb d (true, put_slot d (index m d) q)
  join-Inserts q h small full e n =
      let i = index m d in
      let p = slot d i in
      let k = (AllSlots-get most d.reorder_buffer i h.slots).0 in
      let le = bit_and-le m.seq_num d.index_mask in
      let w = set-Wrote x i d.reorder_buffer q (omega (arith, h.mask_in, le)) in
      let some_used : is_used p ≡ 1 = rw full refl in
      let now_used : is_used q ≡ 1 = ground (arith, n, k, small) in
      write-Inserts x most i d.buff_cnt skb d q h le (e ∙ joint_msdu-skb p skb)
        (omega (arith, n, k, small), λ z. absurd (omega (arith, n, k, small, z)))
        (omega (arith, w.count_used, some_used, now_used, h.counted))

  first-Inserts :
      (q : RxBaPkt)
      → HasSlots most d
      → in_use m d ≡ false
      → q.skb ≡ (joint_msdu (slot d (index m d)) skb).skb
      → q.desc.msdu_num ≡ 1
      → Inserts x most skb d
          (true, record (put_slot d (index m d) q) { buff_cnt = (d.buff_cnt + 1) % u16_mod })
  first-Inserts q h free e n =
      let i = index m d in
      let p = slot d i in
      let le = bit_and-le m.seq_num d.index_mask in
      let w = set-Wrote x i d.reorder_buffer q (omega (arith, h.mask_in, le)) in
      let none_used : is_used p ≡ 0 = rw free refl in
      let now_used : is_used q ≡ 1 = rw n refl in
      write-Inserts x most i ((d.buff_cnt + 1) % u16_mod) skb d q h le (e ∙ joint_msdu-skb p skb)
        (omega (arith, n), λ z. absurd (omega (arith, n, z)))
        (omega (
          arith,
          w.count_used,
          w.size,
          none_used,
          now_used,
          h.counted,
          h.room,
          used-le-length (set d.reorder_buffer i q),
        ))

  -- What insert_msdu keeps, for all slots together
  insert_msdu-keeps :
      HasSlots most d → most + 1 < 2 ^ 16 → Inserts x most skb d (insert_msdu m skb d)
  unfolding insert_msdu
  insert_msdu-keeps h small = elim (Bool-cases (in_use m d)) [
    | inl full ↦ elim (Bool-cases (same_mpdu m d)) [
      | inl same ↦ rw (full, same) (join-Inserts _ h small full refl refl)
      | inr other ↦
          rw (full, other)
            (record { chains = omega arith; shape = HasSlots-mono most d h; window = omega arith })
    ]
    | inr free ↦ rw free (first-Inserts _ h free refl refl)
  ]

  -- In a session with well-formed slots, none of which has more than `most` MSDUs, where `most` + 1
  -- fits an unsigned short: insert_msdu appends the buffer to the chain of the slot of its sequence
  -- number, which is free or holds MSDUs of the same MPDU, and leaves the other slots as they are; or
  -- that slot holds another MPDU, and it refuses the buffer and changes nothing. Either way the slots
  -- stay well-formed and hold the buffers that they held and the one that is taken.
  pub insert_msdu-Inserts :
      HasSlots most d
      → most + 1 < 2 ^ 16
      → Inserts x most skb d (insert_msdu m skb d) × IsPlaced m skb d (insert_msdu m skb d)
  insert_msdu-Inserts h small = (insert_msdu-keeps h small, insert_msdu-IsPlaced m skb d h.mask_in)
