-- ===== src/Tx/Queues.antt =====
-- The lists of packets of a mode in WIFI/tx_msg.c and how sprdwl_tx_eachmode_data moves packets to
-- to_send_list. While it runs no other thread adds packets here. The locks, the counts of dropped
-- packets and the logs are left out.
use uwe5631_aml.Common.{
  ℕ, suc, ◌+◌, ◌-◌, ◌*◌, ◌/◌, ◌%◌, ◌^◌, Bool, true, false, not, ◌&&◌, Option, none, some, List, [],
  ◌∷◌, ◌++◌, ltb, leb, ◌==◌, if◌then◌else◌, length, take, drop, min,
}
use uwe5631_aml.Tx.{Answer, Priv, TxMsg, sprdwl_fc_get_send_num, sprdwl_fc_test_send_num}

-- A message buffer: what identifies it, and its `timeout`
pub record Packet : Type 0 where
  pub id : ℕ
  pub timeout : ℕ

-- `struct peer_list`
pub record PeerList : Type 0 where
  pub head_list : List Packet
  pub l_num : ℕ

-- `time_after(jiffies, timeout)`
unfoldable pub time_after : ℕ → ℕ → Bool
time_after jiffies timeout = leb (2 ^ 63) ((timeout + 2 ^ 64 - jiffies) % 2 ^ 64)

-- A list after some packets left it, those packets, and how many were counted
pub record Taken : Type 0 where
  pub peer : PeerList
  pub packets : List Packet
  pub num : ℕ

unfoldable pub drop_num : ℕ → ℕ → ℕ
drop_num maxnum l_num =
    let share = l_num * l_num / maxnum in if leb l_num share then l_num else share

unfoldable pub drop_packets : ℕ → PeerList → Taken
drop_packets n p = record {
  peer = record { head_list = drop n p.head_list; l_num = p.l_num - n };
  packets = take n p.head_list;
  num = length (take n p.head_list);
}

abbrev pub leave : PeerList → Taken
leave p = record { peer = p; packets = []; num = 0 }

-- handle_tx_timeout on the list of a peer; `packets` are freed and `num` is what mode_list_num loses.
unfoldable pub handle_tx_timeout : (jiffies maxnum : ℕ) → PeerList → Taken
handle_tx_timeout jiffies maxnum p = elim p.head_list [
  | [] ↦ leave p
  | first ∷ rest ↦
      if time_after jiffies first.timeout then drop_packets (drop_num maxnum p.l_num) p else leave p
]

-- add_xmit_list_tail and the subtraction from l_num; a list that is too short gives nothing up.
unfoldable pub add_xmit_list_tail : ℕ → PeerList → Taken
add_xmit_list_tail add_num p =
    let counted = p.l_num - add_num in
    if leb add_num (length p.head_list)
    then record {
      peer = record { head_list = drop add_num p.head_list; l_num = counted };
      packets = take add_num p.head_list;
      num = add_num;
    }
    else record {
      peer = record { head_list = p.head_list; l_num = counted };
      packets = [];
      num = add_num;
    }

-- The lists after a loop, the packets that left them in their order, and the count of these
pub record Moved (A : Type 0) : Type 0 where
  pub lists : List A
  pub packets : List Packet
  pub num : ℕ

abbrev pub stay : {A : Type 0} → List A → Moved A
stay xs = record { lists = xs; packets = []; num = 0 }

abbrev pub skip : {A : Type 0} → A → Moved A → Moved A
skip x m = record { lists = x ∷ m.lists; packets = m.packets; num = m.num }

abbrev pub then_move : Taken → Moved PeerList → Moved PeerList
then_move t m = record {
  lists = t.peer ∷ m.lists;
  packets = t.packets ++ m.packets;
  num = t.num + m.num;
}

abbrev pub then_lists : Moved PeerList → Moved (List PeerList) → Moved (List PeerList)
then_lists l m = record {
  lists = l.lists ∷ m.lists;
  packets = l.packets ++ m.packets;
  num = l.num + m.num;
}

-- The loop over the peers that handles packets that waited too long
unfoldable pub timeout_peers : (jiffies maxnum : ℕ) → List PeerList → Moved PeerList
timeout_peers jiffies maxnum [] = stay []
timeout_peers jiffies maxnum (p ∷ ps) =
    let rest = timeout_peers jiffies maxnum ps in
    if ltb 0 p.l_num then then_move (handle_tx_timeout jiffies maxnum p) rest else skip p rest

unfoldable pub timeout_lists : (jiffies maxnum : ℕ) → List (List PeerList) → Moved (List PeerList)
timeout_lists jiffies maxnum [] = stay []
timeout_lists jiffies maxnum (q ∷ qs) =
    then_lists (timeout_peers jiffies maxnum q) (timeout_lists jiffies maxnum qs)

-- `q_list_num[i]`
unfoldable pub q_list_num : List PeerList → ℕ
q_list_num [] = 0
q_list_num (p ∷ ps) = p.l_num + q_list_num ps

-- `total`
unfoldable pub total_num : List (List PeerList) → ℕ
total_num [] = 0
total_num (q ∷ qs) = q_list_num q + total_num qs

-- Case 1: all packets move.
unfoldable pub move_peers : List PeerList → Moved PeerList
move_peers [] = stay []
move_peers (p ∷ ps) =
    let rest = move_peers ps in
    if p.l_num == 0 then skip p rest else then_move (add_xmit_list_tail p.l_num p) rest

unfoldable pub move_all : List (List PeerList) → Moved (List PeerList)
move_all [] = stay []
move_all (q ∷ qs) =
    let rest = move_all qs in
    if q_list_num q == 0 then skip q rest else then_lists (move_peers q) rest

-- vo_ratio, vi_ratio and be_ratio
pub record Ratios : Type 0 where
  pub vo : ℕ
  pub vi : ℕ
  pub be : ℕ

unfoldable pub ratio_share : (ratio send_num num : ℕ) → ℕ
ratio_share ratio send_num num = min (send_num * ratio / 100) num

-- `fp_num` at first; the access categories are VO 0, VI 1, BE 2 and BK 3.
unfoldable pub first_share : Ratios → (ac send_num num total : ℕ) → ℕ
first_share ratios ac send_num num total =
    if ac == 0 && ltb num total
    then ratio_share ratios.vo send_num num
    else if ac == 1 && ltb num total
    then ratio_share ratios.vi send_num num
    else if ac == 2 && ltb num total
    then ratio_share ratios.be send_num num
    else send_num * num / total

-- The credits that the later categories have no use for are added.
unfoldable pub fp_num : Ratios → (ac send_num num total : ℕ) → ℕ
fp_num ratios ac send_num num total =
    let fp = first_share ratios ac send_num num total in
    if ltb (total - num) (send_num - fp) && ltb 0 (total - num)
    then fp + (send_num - fp - (total - num))
    else fp

-- `min_num`
unfoldable pub min_num : (l_num fp num : ℕ) → ℕ
min_num l_num fp num =
    let round_num = l_num * fp / num in min (if ltb 0 fp && round_num == 0 then 1 else round_num) fp

-- Case 2: the loop over the peers of a category with `num` packets left, `fp` of which may move
unfoldable pub share_peers : (num fp : ℕ) → List PeerList → Moved PeerList
share_peers num fp [] = stay []
share_peers num fp (p ∷ ps) =
    let m = min_num p.l_num fp num in
    let passed = share_peers num fp ps in
    let rest = share_peers (num - p.l_num) (fp - m) ps in
    if p.l_num == 0
    then skip p passed
    else if m == 0
    then stay (p ∷ ps)
    else then_move (add_xmit_list_tail m p) (if fp - m == 0 then stay ps else rest)

-- Case 2: the loop over the categories from `ac` on
unfoldable pub share_lists :
    Ratios → (ac send_num total : ℕ) → List (List PeerList) → Moved (List PeerList)
share_lists ratios ac send_num total [] = stay []
share_lists ratios ac send_num total (q ∷ qs) =
    let num = q_list_num q in
    let fp = fp_num ratios ac send_num num total in
    let passed = share_lists ratios (suc ac) send_num total qs in
    let rest = share_lists ratios (suc ac) (send_num - fp) (total - num) qs in
    if num == 0
    then skip q passed
    else if send_num == 0
    then stay (q ∷ qs)
    else then_lists (share_peers num fp q) rest

-- What a round of sprdwl_tx_eachmode_data leaves, up to its call of sprdwl_handle_to_send_list
pub record Round : Type 0 where
  pub lists : List (List PeerList)
  pub mode_list_num : ℕ
  pub to_send : List Packet
  pub freed : List Packet
  pub tx : TxMsg
  -- -ENOMEM is returned at once.
  pub no_credit : Bool

unfoldable pub move_lists :
    Ratios → (send_num total : ℕ) → List (List PeerList) → Moved (List PeerList)
move_lists ratios send_num total lists =
    if leb total send_num then move_all lists else share_lists ratios 0 send_num total lists

abbrev pub num_of : Option ℕ → ℕ
num_of none = 0
num_of (some n) = n

unfoldable pub sprdwl_tx_eachmode_data :
    Ratios
    → (jiffies maxnum : ℕ) → Priv
    → (mode mode_list_num : ℕ) → List (List PeerList)
    → List Packet
    → TxMsg
    → Round
sprdwl_tx_eachmode_data ratios jiffies maxnum priv mode mode_list_num lists to_send tx =
    let dropped = timeout_lists jiffies maxnum lists in
    let left = mode_list_num - dropped.num in
    let total = total_num dropped.lists in
    let answer = sprdwl_fc_test_send_num priv mode total tx in
    let moved = move_lists ratios (num_of answer.num) total dropped.lists in
    if not (total == 0) && num_of answer.num == 0
    then record {
      lists = dropped.lists;
      mode_list_num = left;
      to_send = to_send;
      freed = dropped.packets;
      tx = answer.tx;
      no_credit = true;
    }
    else record {
      lists = moved.lists;
      mode_list_num = left - moved.num;
      to_send = to_send ++ moved.packets;
      freed = dropped.packets;
      tx = answer.tx;
      no_credit = false;
    }

-- What sprdwl_handle_to_send_list asks for before it sends the packets on to_send_list
unfoldable pub to_send_credit : Priv → ℕ → List Packet → TxMsg → Answer
to_send_credit priv mode to_send tx = sprdwl_fc_get_send_num priv mode (length to_send) tx
