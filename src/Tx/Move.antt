-- ===== src/Tx/Move.antt =====
-- The loops of sprdwl_tx_eachmode_data in WIFI/tx_msg.c, list by list.
use uwe5631_aml.Common.{
  ℕ, suc, ◌+◌, ◌-◌, ◌≤◌, ◌<◌, ◌≡◌, inl, inr, refl, sym, true, arith, List, [], ◌∷◌, ltb, leb, ◌==◌,
  Bool-cases, length, min, take-append-drop, length-take, length-drop,
}
use uwe5631_aml.Tx.Distribute.{
  AllCounted, AllCounted-left, AllCounted-right, IsCounted, IsMoved, IsMovedAll, IsTaken, join,
  resize, same-IsMove, skip-IsMoved, skip-IsMovedAll, then_lists-IsMovedAll, then_move-IsMoved,
}
use uwe5631_aml.Tx.Queues.{
  PeerList, Ratios, add_xmit_list_tail, fp_num, min_num, move_all, move_lists, move_peers,
  q_list_num, share_lists, share_peers, total_num,
}
use uwe5631_aml.Tx.Rounding.{IsPercent, fp_num-IsFpNum, min_num-IsShareOf}

add_xmit_list_tail-IsTaken :
    (n : ℕ) (p : PeerList) → IsCounted p → n ≤ p.l_num → IsTaken p (add_xmit_list_tail n p) n
unfolding add_xmit_list_tail
add_xmit_list_tail-IsTaken n p c h =
    let enough : leb n (length p.head_list) ≡ true = ground (arith, c, h) in
    rw enough record {
      split = sym (take-append-drop n p.head_list);
      counted = omega (arith, c, length-drop n p.head_list);
      size = omega (arith, c, h, length-take n p.head_list);
      num = refl;
    }

move_peers-IsMoved :
    (ps : List PeerList) → AllCounted ps → IsMoved ps (move_peers ps) (q_list_num ps)
unfolding move_peers q_list_num
move_peers-IsMoved [] c = same-IsMove [] tt
move_peers-IsMoved (p ∷ ps) c = elim (Bool-cases (p.l_num == 0)) [
  | inl e ↦
      let z : p.l_num + q_list_num ps ≡ q_list_num ps = ground (arith, e) in
      rw (e, z) (skip-IsMoved c.0 (move_peers-IsMoved ps c.1))
  | inr e ↦ rw e (
      then_move-IsMoved (add_xmit_list_tail-IsTaken p.l_num p c.0 (omega arith))
        (move_peers-IsMoved ps c.1))
]

share_peers-IsMoved :
    (num fp : ℕ) (ps : List PeerList)
    → AllCounted ps
    → q_list_num ps ≡ num
    → fp ≤ num
    → IsMoved ps (share_peers num fp ps) fp
unfolding share_peers q_list_num
share_peers-IsMoved num fp [] c e h =
    let z : fp ≡ 0 = omega (arith, e, h) in rw z (same-IsMove [] tt)
share_peers-IsMoved num fp (p ∷ ps) c e h = elim (Bool-cases (p.l_num == 0)) [
  | inl z ↦ rw z (skip-IsMoved c.0 (share_peers-IsMoved num fp ps c.1 (ground (arith, z, e)) h))
  | inr z ↦
      let some_left : 0 < p.l_num = ground (arith, z) in
      let share = min_num-IsShareOf p.l_num fp num some_left (omega (arith, e)) h in
      let m = min_num p.l_num fp num in
      elim (Bool-cases (m == 0)) [
        | inl y ↦
            let none_left : fp ≡ 0 = elim (Bool-cases (ltb 0 fp)) [
              | inl g ↦ absurd (ground (arith, y, share.progress (ground (arith, g))))
              | inr g ↦ ground (arith, g)
            ] in
            rw (z, y, none_left) (same-IsMove (p ∷ ps) c)
        | inr y ↦
            let taken = add_xmit_list_tail-IsTaken m p c.0 share.upper in
            let whole : m + (fp - m) ≡ fp = omega (arith, share.within) in
            elim (Bool-cases (fp - m == 0)) [
              | inl x ↦
                  let all : m + 0 ≡ fp = ground (arith, x, share.within) in
                  rw (z, y, x) (resize all (then_move-IsMoved taken (same-IsMove ps c.1)))
              | inr x ↦
                  let rest =
                    share_peers-IsMoved (num - p.l_num) (fp - m) ps c.1 (omega (arith, e))
                      (omega (arith, share.later)) in
                  rw (z, y, x) (resize whole (then_move-IsMoved taken rest))
            ]
      ]
]

move_all-IsMovedAll :
    (qs : List (List PeerList)) → AllCounted (join qs) → IsMovedAll qs (move_all qs) (total_num qs)
unfolding move_all total_num
move_all-IsMovedAll [] c = same-IsMove [] tt
move_all-IsMovedAll (q ∷ qs) c =
    let here = AllCounted-left q (join qs) c in
    let rest = move_all-IsMovedAll qs (AllCounted-right q (join qs) c) in
    elim (Bool-cases (q_list_num q == 0)) [
      | inl e ↦
          let same : total_num qs ≡ q_list_num q + total_num qs = ground (arith, e) in
          rw e (resize same (skip-IsMovedAll q qs (move_all qs) here rest))
      | inr e ↦
          rw e (
            then_lists-IsMovedAll q (move_peers q) qs (move_all qs) (move_peers-IsMoved q here)
              rest)
    ]

share_lists-IsMovedAll :
    (ratios : Ratios) (ac send_num total : ℕ) (qs : List (List PeerList))
    → IsPercent ratios
    → AllCounted (join qs)
    → total_num qs ≡ total
    → send_num ≤ total
    → IsMovedAll qs (share_lists ratios ac send_num total qs) send_num
unfolding share_lists total_num
share_lists-IsMovedAll ratios ac send_num total [] percent c e h =
    resize (omega (arith, e, h)) (same-IsMove [] tt)
share_lists-IsMovedAll ratios ac send_num total (q ∷ qs) percent c e h =
    let num = q_list_num q in
    let here = AllCounted-left q (join qs) c in
    let later = AllCounted-right q (join qs) c in
    elim (Bool-cases (num == 0)) [
      | inl z ↦
          let same : total_num qs ≡ total = ground (arith, z, e) in
          rw z (
            skip-IsMovedAll q qs (share_lists ratios (suc ac) send_num total qs) here
              (share_lists-IsMovedAll ratios (suc ac) send_num total qs percent later same h))
      | inr z ↦ elim (Bool-cases (send_num == 0)) [
        | inl y ↦ rw (z, y) (resize (ground (arith, y)) (same-IsMove (join (q ∷ qs)) c))
        | inr y ↦
            let fp = fp_num ratios ac send_num num total in
            let share =
              fp_num-IsFpNum ratios percent ac send_num num total h (ground (arith, y, h))
                (omega (arith, e)) in
            let rest =
              share_lists-IsMovedAll ratios (suc ac) (send_num - fp) (total - num) qs percent later
                (omega (arith, e)) share.later in
            let whole : fp + (send_num - fp) ≡ send_num = omega (arith, share.within) in
            rw (z, y)
              (resize whole (
                then_lists-IsMovedAll q (share_peers num fp q) qs
                  (share_lists ratios (suc ac) (send_num - fp) (total - num) qs)
                  (share_peers-IsMoved num fp q here refl share.upper) rest))
      ]
    ]

-- All packets move where there are credits for them, and as many as there are credits otherwise.
pub move_lists-IsMovedAll :
    (ratios : Ratios) (send_num : ℕ) (qs : List (List PeerList))
    → IsPercent ratios
    → AllCounted (join qs)
    → IsMovedAll qs (move_lists ratios send_num (total_num qs) qs) (min send_num (total_num qs))
unfolding move_lists
move_lists-IsMovedAll ratios send_num qs percent c =
    elim (Bool-cases (leb (total_num qs) send_num)) [
      | inl e ↦ rw e (resize (ground (arith, e)) (move_all-IsMovedAll qs c))
      | inr e ↦ rw e (
          resize (ground (arith, e)) (
            share_lists-IsMovedAll ratios 0 send_num (total_num qs) qs percent c refl
              (ground (arith, e))))
    ]
