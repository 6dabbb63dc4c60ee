-- ===== src/Reorder/Deliver.antt =====
-- Conservation for a whole MSDU and for the timer: WIFI/reorder.c as its callers see it.
use uwe5631_aml.Common.{
  ℕ, zero, suc, ◌+◌, ◌^◌, ◌≤◌, ◌<◌, ◌≡◌, refl, ◌∙◌, ◌⊎◌, inl, inr, true, false, not, ◌&&◌, none,
  some, [], ◌∷◌, arith, ◌==◌, Bool-cases,
}
use uwe5631_aml.Common.{count}
use uwe5631_aml.Reorder.{RxBaNodeDesc, RxMsduDesc, Skbs, reorder_set_skb_list, send_order_msdu}
use uwe5631_aml.Reorder.Seqno.{seqno_leq, seqno_leq_iff, seqno_add, seqno_sub}
use uwe5631_aml.Reorder.Step.{move_window}
use uwe5631_aml.Reorder.Process.{
  RxBaNode, is_in_sequence, set_skb, mod_reorder_timer, after_reorder, reorder_msdu_process, seeks,
  first_seqno_loop, get_first_seqno_in_buff, ba_reorder_timeout, count_timeout,
}
use uwe5631_aml.Reorder.Slots.{copies}
use uwe5631_aml.Reorder.Conserve.{
  IsSession, Keeps, IsSession-mono, IsSession-of_eq, reorder_msdu-Keeps, session_of,
  after_reorder-Keeps, send_order_msdu-Keeps, set_skb-count, move_window-Keeps,
  rx_ba-mod_reorder_timer,
}

module _ (x most b : ℕ) (m : RxMsduDesc) (s : Skbs) (n : RxBaNode) where
  -- What reorder_msdu_process promises for a socket buffer `b`.
  abbrev Processes : Type 0
  Processes =
      (out : Skbs × RxBaNode) × (reorder_msdu_process m (some b) s n ≡ some out)
      × Keeps x (most + 1) (b ∷ []) (session_of (s, n)) (session_of out)

  process_inactive : IsSession most n.rx_ba → not n.active ≡ true → Processes
  unfolding reorder_msdu_process set_skb reorder_set_skb_list
  process_inactive h e = (
    (reorder_set_skb_list s (b ∷ []), n),
    rw e refl,
    record { kept = omega (arith, set_skb-count x b s); session = IsSession-mono most n.rx_ba h },
  )

  process_in_sequence :
      IsSession most n.rx_ba → not n.active ≡ false → is_in_sequence m n.rx_ba ≡ true → Processes
  unfolding reorder_msdu_process
  process_in_sequence h e f =
      let d = record (n.rx_ba) { win_start_init = 0 } in
      let t = send_order_msdu m (some b) (record { skbs = s; rx_ba = d }) in
      let k =
        send_order_msdu-Keeps x most m (some b) (record { skbs = s; rx_ba = d })
          (IsSession-of_eq most n.rx_ba d refl refl refl refl refl refl h) in
      (
        (t.skbs, record n { rx_ba = t.rx_ba }),
        rw (e, f) refl,
        record { kept = k.kept; session = IsSession-mono most t.rx_ba k.session },
      )

  process_reordered :
      IsSession most n.rx_ba
      → most + 1 < 2 ^ 16
      → not n.active ≡ false
      → is_in_sequence m n.rx_ba ≡ false
      → Processes
  unfolding reorder_msdu_process
  process_reordered h small e f =
      let (r, returns, k) = reorder_msdu-Keeps x most b m (session_of (s, n)) h small in
      let a = after_reorder-Keeps x (most + 1) n.rx_ba.win_start m n r k.session in
      (
        after_reorder m n.rx_ba.win_start n r,
        rw (e, f, returns) refl,
        record { kept = omega (arith, k.kept, a.kept); session = a.session },
      )

-- An MSDU with a socket buffer `b`, in a well-formed session none of whose slots has more than
-- `most` MSDUs, where `most` + 1 fits an unsigned short: reorder_msdu_process does not fault, the session that it leaves is well-formed, and
-- each buffer `x` stands in the delivered list, the freed buffers and the slots together as often as
-- before, and once more if it is `b`.
pub reorder_msdu_process-Keeps :
    (x most b : ℕ) (m : RxMsduDesc) (s : Skbs) (n : RxBaNode)
    → IsSession most n.rx_ba
    → most + 1 < 2 ^ 16
    → (out : Skbs × RxBaNode) × (reorder_msdu_process m (some b) s n ≡ some out)
      × (copies x (session_of out) ≡ copies x (session_of (s, n)) + count x (b ∷ []))
      × IsSession (most + 1) out.1.rx_ba
reorder_msdu_process-Keeps x most b m s n h small =
    let (out, returns, k) = split in (out, returns, k.kept, k.session)
  where
    split : Processes x most b m s n
    split = elim (Bool-cases (not n.active)) [
      | inl e ↦ process_inactive x most b m s n h e
      | inr e ↦ elim (Bool-cases (is_in_sequence m n.rx_ba)) [
        | inl f ↦ process_in_sequence x most b m s n h e f
        | inr f ↦ process_reordered x most b m s n h small e f
      ]
    ]

-- A filter event, which has no socket buffer, at a node that is not active ends in a NULL
-- dereference, whatever the event says.
pub reorder_msdu_process_fault :
    (m : RxMsduDesc) (s : Skbs) (n : RxBaNode)
    → n.active ≡ false
    → reorder_msdu_process m none s n ≡ none
unfolding reorder_msdu_process set_skb
reorder_msdu_process_fault m s n e = rw e refl

leq-near : (a b : ℕ) → a < 4096 → b < 4096 → seqno_leq a b ≡ true → seqno_sub b a ≤ 2048
leq-near a b ha hb h = omega (arith, (seqno_leq_iff a b ha hb).0 h)

far-leq : (a b : ℕ) → a < 4096 → b < 4096 → 2048 < seqno_sub b a → seqno_leq a b ≡ false
far-leq a b ha hb h = elim (Bool-cases (seqno_leq a b)) [
  | inl e ↦ absurd (omega (arith, leq-near a b ha hb e))
  | inr e ↦ e
]

seeks-leq :
    (d : RxBaNodeDesc) (seqno : ℕ) → seeks d seqno ≡ true → seqno_leq seqno d.win_tail ≡ true
seeks-leq d seqno e = ground arith

leq-seeks :
    (d : RxBaNodeDesc) (seqno : ℕ) → seqno_leq seqno d.win_tail ≡ false → seeks d seqno ≡ false
leq-seeks d seqno e = rw e refl

-- The number after one that is sought is nearer to win_tail, or past it.
nearer :
    (fuel a b : ℕ)
    → a < 4096
    → b < 4096
    → seqno_leq a b ≡ true
    → seqno_sub b a ≤ fuel
    → (seqno_sub b (seqno_add a 1) < fuel) ⊎ (seqno_leq (seqno_add a 1) b ≡ false)
nearer fuel a b ha hb e le = elim (Bool-cases (seqno_sub b a == 0)) [
  | inl z ↦ inr (far-leq (seqno_add a 1) b (omega arith) hb (ground arith))
  | inr z ↦ inl (ground (arith, leq-near a b ha hb e))
]

first_seqno_loop-stops :
    (fuel seqno : ℕ) (d : RxBaNodeDesc)
    → seqno < 4096
    → d.win_tail < 4096
    → (seqno_sub d.win_tail seqno < fuel) ⊎ (seqno_leq seqno d.win_tail ≡ false)
    → (seeks d (first_seqno_loop fuel d seqno) ≡ false) × (first_seqno_loop fuel d seqno < 4096)
unfolding first_seqno_loop
first_seqno_loop-stops zero seqno d hs ht (inl h) = absurd (omega arith)
first_seqno_loop-stops zero seqno d hs ht (inr h) = (leq-seeks d seqno h, hs)
first_seqno_loop-stops (suc fuel) seqno d hs ht h = elim (Bool-cases (seeks d seqno)) [
  | inl e ↦
      let l = seeks-leq d seqno e in
      let close : seqno_sub d.win_tail seqno ≤ fuel = ground (arith, h, l) in
      rw e (
        first_seqno_loop-stops fuel (seqno_add seqno 1) d (omega arith) ht
          (nearer fuel seqno d.win_tail hs ht l close))
  | inr e ↦ rw e (e, hs)
]

-- Where the window starts and ends at sequence numbers, get_first_seqno_in_buff ends by its test
-- within its fuel: the number that it returns is past
-- win_tail or that of a complete slot.
pub get_first_seqno_in_buff_lem :
    (d : RxBaNodeDesc)
    → d.win_start < 4096
    → d.win_tail < 4096
    → (seeks d (get_first_seqno_in_buff d) ≡ false) × (get_first_seqno_in_buff d < 4096)
unfolding get_first_seqno_in_buff
get_first_seqno_in_buff_lem d hs ht =
    first_seqno_loop-stops 2050 d.win_start d hs ht
      (elim (Bool-cases (seqno_leq d.win_start d.win_tail)) [
        | inl e ↦ inl (omega (arith, leq-near d.win_start d.win_tail hs ht e))
        | inr e ↦ inr e
      ])

rx_ba-count_timeout : (n : RxBaNode) → (mod_reorder_timer (count_timeout n).1).rx_ba ≡ n.rx_ba
rx_ba-count_timeout n = rx_ba-mod_reorder_timer (count_timeout n).1 ∙ ground arith

-- The timer's function, at any well-formed session: the session that it leaves is well-formed, and
-- each buffer stands in the delivered list, the freed buffers and the slots together as often as
-- before.
pub ba_reorder_timeout-Keeps :
    (x most : ℕ) (s : Skbs) (n : RxBaNode)
    → IsSession most n.rx_ba
    → let r = ba_reorder_timeout s n in
      (copies x (session_of (r.skbs, r.node)) ≡ copies x (session_of (s, n)))
      × IsSession most r.node.rx_ba
unfolding ba_reorder_timeout
ba_reorder_timeout-Keeps x most s n h =
    elim (Bool-cases (n.active && not (n.rx_ba.buff_cnt == 0) && not n.reorder_timer)) [
      | inr e ↦ rw e (refl, h)
      | inl e ↦
          let d = record (n.rx_ba) { win_start_init = 0 } in
          let t = move_window (get_first_seqno_in_buff d) (record { skbs = s; rx_ba = d }) in
          let k =
            move_window-Keeps x most (get_first_seqno_in_buff d) (record { skbs = s; rx_ba = d })
              (IsSession-of_eq most n.rx_ba d refl refl refl refl refl refl h).slots in
          rw (e, rx_ba-count_timeout (record n { rx_ba = t.rx_ba }))
            (omega (arith, k.kept), k.session)
    ]
