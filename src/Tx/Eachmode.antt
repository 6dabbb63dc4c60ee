-- ===== src/Tx/Eachmode.antt =====
-- A round of sprdwl_tx_eachmode_data in WIFI/tx_msg.c as a whole.
use uwe5631_aml.Common.{
  ℕ, ◌+◌, ◌-◌, ◌≡◌, inl, inr, refl, ap, sym, Bool, true, false, not, ◌&&◌, arith, List, [], ◌∷◌,
  ◌++◌, append-nil, ltb, ◌==◌, Bool-cases, length, take, take-append-drop, length-drop,
  length-append, min, if◌then◌else◌,
}
use uwe5631_aml.Tx.{Answer, Priv, TxMsg, sprdwl_fc_test_send_num}
use uwe5631_aml.Tx.Distribute.{
  AllCounted, AllCounted-left, AllCounted-right, Cut, IsCounted, IsMoved, IsMovedAll, IsTaken, cut,
  done, join, same-Cut, same-IsMove, skip-IsMoved, then_lists-IsMovedAll, then_move-IsMoved,
}
use uwe5631_aml.Tx.Move.{move_lists-IsMovedAll}
use uwe5631_aml.Tx.Queues.{
  Moved, Packet, PeerList, Ratios, Round, Taken, drop_num, drop_packets, handle_tx_timeout, leave,
  move_lists, num_of, q_list_num, sprdwl_tx_eachmode_data, time_after, timeout_lists, timeout_peers,
  total_num,
}
use uwe5631_aml.Tx.Rounding.{IsPercent}

-- Some packets left a list.
SomeTaken : PeerList → Taken → Type 0
SomeTaken p t = (n : ℕ) × IsTaken p t n

drop_packets-IsTaken :
    (n : ℕ) (p : PeerList)
    → IsCounted p
    → IsTaken p (drop_packets n p) (length (take n p.head_list))
unfolding drop_packets
drop_packets-IsTaken n p c = record {
  split = sym (take-append-drop n p.head_list);
  counted = omega (arith, c, length-drop n p.head_list);
  size = refl;
  num = refl;
}

leave-IsTaken : (p : PeerList) → IsCounted p → IsTaken p (leave p) 0
leave-IsTaken p c = record { split = refl; counted = c; size = refl; num = refl }

handle_tx_timeout-IsTaken :
    (jiffies maxnum : ℕ) (p : PeerList)
    → IsCounted p
    → (n : ℕ) × IsTaken p (handle_tx_timeout jiffies maxnum p) n
unfolding handle_tx_timeout
handle_tx_timeout-IsTaken jiffies maxnum p c = go p.head_list
  where
    go :
        (xs : List Packet)
        → (n : ℕ) × IsTaken p
            (elim xs [
              | [] ↦ leave p
              | first ∷ rest ↦
                  if time_after jiffies first.timeout
                  then drop_packets (drop_num maxnum p.l_num) p
                  else leave p
            ])
            n
    go [] = (0, leave-IsTaken p c)
    go (first ∷ rest) = elim (Bool-cases (time_after jiffies first.timeout)) [
      | inl e ↦ rw e (_, drop_packets-IsTaken (drop_num maxnum p.l_num) p c)
      | inr e ↦ rw e (0, leave-IsTaken p c)
    ]

timeout_peers-IsMoved :
    (jiffies maxnum : ℕ) (ps : List PeerList)
    → AllCounted ps
    → (n : ℕ) × IsMoved ps (timeout_peers jiffies maxnum ps) n
unfolding timeout_peers
timeout_peers-IsMoved jiffies maxnum [] c = (0, same-IsMove [] tt)
timeout_peers-IsMoved jiffies maxnum (p ∷ ps) c =
    let rest = timeout_peers-IsMoved jiffies maxnum ps c.1 in
    let here = handle_tx_timeout-IsTaken jiffies maxnum p c.0 in
    elim (Bool-cases (ltb 0 p.l_num)) [
      | inl e ↦ rw e (here.0 + rest.0, then_move-IsMoved here.1 rest.1)
      | inr e ↦ rw e (rest.0, skip-IsMoved c.0 rest.1)
    ]

timeout_lists-IsMovedAll :
    (jiffies maxnum : ℕ) (qs : List (List PeerList))
    → AllCounted (join qs)
    → (n : ℕ) × IsMovedAll qs (timeout_lists jiffies maxnum qs) n
unfolding timeout_lists
timeout_lists-IsMovedAll jiffies maxnum [] c = (0, same-IsMove [] tt)
timeout_lists-IsMovedAll jiffies maxnum (q ∷ qs) c =
    let here = timeout_peers-IsMoved jiffies maxnum q (AllCounted-left q (join qs) c) in
    let rest = timeout_lists-IsMovedAll jiffies maxnum qs (AllCounted-right q (join qs) c) in
    (here.0 + rest.0, then_lists-IsMovedAll q _ qs (timeout_lists jiffies maxnum qs) here.1 rest.1)

-- A round from some lists: first packets that waited too long are dropped, then packets move, and
-- to_send_list grows by these.
pub record IsRound (answer : ℕ → Answer) (lists : List (List PeerList)) (to_send : List Packet)
    (r : Round) : Type 0 where
  pub dropped_lists : List PeerList
  pub dropped : Cut (join lists) dropped_lists r.freed
  pub moved : List Packet
  pub fronts : Cut dropped_lists (join r.lists) moved
  pub appended : r.to_send ≡ to_send ++ moved
  pub amount :
      length moved ≡ min (num_of (answer (q_list_num dropped_lists)).num) (q_list_num dropped_lists)
  pub asked : r.tx ≡ (answer (q_list_num dropped_lists)).tx
  pub counted : AllCounted (join r.lists)
  pub mode_total : r.mode_list_num ≡ q_list_num (join r.lists)

q_list_num-append : (ps qs : List PeerList) → q_list_num (ps ++ qs) ≡ q_list_num ps + q_list_num qs
unfolding q_list_num
q_list_num-append [] qs = omega arith
q_list_num-append (p ∷ ps) qs = omega (arith, q_list_num-append ps qs)

total_num-join : (qs : List (List PeerList)) → total_num qs ≡ q_list_num (join qs)
unfolding total_num q_list_num
total_num-join [] = refl
total_num-join (q ∷ qs) = omega (arith, total_num-join qs, q_list_num-append q (join qs))

-- The counts fall by what left the lists.
Cut-q_list_num :
    {ps qs : List PeerList} {xs : List Packet}
    → Cut ps qs xs
    → AllCounted ps
    → AllCounted qs
    → q_list_num ps ≡ q_list_num qs + length xs
unfolding q_list_num
Cut-q_list_num done c d = refl
Cut-q_list_num (cut {p} {after} {ps} {qs} {xs} front e k) c d = omega (
  arith,
  ap (λ (t : List Packet). length t) e,
  length-append front after.head_list,
  length-append front xs,
  Cut-q_list_num k c.1 d.1,
  c.0,
  d.0,
)

-- With ratios of at most 100 per cent and lists that are as long as their counts say: a round drops
-- the fronts of some lists, then moves fronts of the lists to the tail of to_send_list, as many packets
-- as sprdwl_fc_test_send_num reports credits for, or all if there are fewer, and the counts stay
-- right. Where it reports no credit nothing moves.
pub sprdwl_tx_eachmode_data-IsRound :
    (ratios : Ratios) (jiffies maxnum : ℕ) (priv : Priv) (mode mode_list_num : ℕ)
    (lists : List (List PeerList)) (to_send : List Packet) (tx : TxMsg)
    → IsPercent ratios
    → AllCounted (join lists)
    → mode_list_num ≡ q_list_num (join lists)
    → IsRound
        (λ total. sprdwl_fc_test_send_num priv mode total tx)
        lists
        to_send
        (sprdwl_tx_eachmode_data ratios jiffies maxnum priv mode mode_list_num lists to_send tx)
unfolding sprdwl_tx_eachmode_data
sprdwl_tx_eachmode_data-IsRound ratios jiffies maxnum priv mode mode_list_num lists to_send tx
      percent c e =
    go (not (total == 0) && credit total == 0) refl
  where
    dropped : Moved (List PeerList)
    dropped = timeout_lists jiffies maxnum lists

    first : (n : ℕ) × IsMovedAll lists dropped n
    first = timeout_lists-IsMovedAll jiffies maxnum lists c

    total : ℕ
    total = total_num dropped.lists

    ask : ℕ → Answer
    ask n = sprdwl_fc_test_send_num priv mode n tx

    credit : ℕ → ℕ
    credit n = num_of (ask n).num

    moved : Moved (List PeerList)
    moved = move_lists ratios (credit total) total dropped.lists

    second : IsMovedAll dropped.lists moved (min (credit total) total)
    second = move_lists-IsMovedAll ratios (credit total) dropped.lists percent first.1.counted

    joined : total ≡ q_list_num (join dropped.lists)
    joined = total_num-join dropped.lists

    left : mode_list_num - dropped.num ≡ q_list_num (join dropped.lists)
    left =
        omega
          (arith, e, first.1.total, first.1.size, Cut-q_list_num first.1.fronts c first.1.counted)

    go :
        (b : Bool)
        → (not (total == 0) && credit total == 0) ≡ b
        → IsRound ask lists to_send (
            if b
            then record {
              lists = dropped.lists;
              mode_list_num = mode_list_num - dropped.num;
              to_send = to_send;
              freed = dropped.packets;
              tx = (ask total).tx;
              no_credit = true;
            }
            else record {
              lists = moved.lists;
              mode_list_num = mode_list_num - dropped.num - moved.num;
              to_send = to_send ++ moved.packets;
              freed = dropped.packets;
              tx = (ask total).tx;
              no_credit = false;
            })
    go true f =
        let zero_credit : credit total ≡ 0 = ground (arith, f) in
        record {
          dropped_lists = join dropped.lists;
          dropped = first.1.fronts;
          moved = [];
          fronts = same-Cut (join dropped.lists);
          appended = sym (append-nil to_send);
          amount = omega (arith, zero_credit, ap credit joined);
          asked = ap (λ (t : ℕ). (ask t).tx) joined;
          counted = first.1.counted;
          mode_total = left;
        }
    go false f = record {
      dropped_lists = join dropped.lists;
      dropped = first.1.fronts;
      moved = moved.packets;
      fronts = second.fronts;
      appended = refl;
      amount = omega (arith, second.size, joined, ap credit joined);
      asked = ap (λ (t : ℕ). (ask t).tx) joined;
      counted = second.counted;
      mode_total = omega (
        arith,
        left,
        second.total,
        second.size,
        Cut-q_list_num second.fronts first.1.counted second.counted,
      );
    }
