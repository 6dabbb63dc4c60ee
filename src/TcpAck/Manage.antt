-- ===== src/TcpAck/Manage.antt =====
-- The table of flows of WIFI/tcp_ack.c: finding, ageing and allocating an entry, the filter on the
-- transmit and the receive path, and the calls that configure it.
use uwe5631_aml.Common.{
  ℕ, ◌+◌, ◌-◌, ◌*◌, ◌/◌, ◌%◌, ◌^◌, Bool, true, false, not, ◌&&◌, ◌||◌, Option, none, some, List, [],
  ◌∷◌, ◌++◌, ltb, leb, ◌==◌, if◌then◌else◌, get_or, set, take, replicate, map,
}
use uwe5631_aml.TcpAck.{AckMsg, AckInfo, AckManage, tcp_ack_num, time_after, sprdwl_tcp_ack_handle}
use uwe5631_aml.TcpAck.Packet.{Bytes, Checked, sprdwl_tcp_check_quick_ack, sprdwl_tcp_check_ack}

abbrev pub zero_msg : AckMsg
zero_msg = record { source = 0; dest = 0; saddr = 0; daddr = 0; seq = 0; win = 0 }

-- An entry after sprdwl_tcp_ack_init; SPRDWL_ACK_OLD_TIME in jiffies is `old_time`.
abbrev pub fresh_info : ℕ → ℕ → AckInfo
fresh_info now old_time = record {
  busy = false;
  drop_cnt = 0;
  psh_flag = false;
  psh_seq = 0;
  win_scale = 0;
  last_time = now;
  timeout = old_time;
  timer = false;
  msgbuf = none;
  in_send_msg = none;
  ack_msg = zero_msg;
}

-- SPRDWL_TCP_ACK_DROP_CNT is 24 and MIN_WIN 256. `free_index` is 0 from the memset, not -1.
unfoldable pub sprdwl_tcp_ack_init : ℕ → ℕ → AckManage
sprdwl_tcp_ack_init now old_time = record {
  enable = true;
  max_num = 0;
  free_index = some 0;
  last_time = now;
  timeout = old_time;
  max_drop_cnt = 24;
  ack_info = replicate tcp_ack_num (fresh_info now old_time);
  ack_winsize = 256;
}

-- Messages that are dropped are listed.
abbrev of_msg : Option ℕ → List ℕ
of_msg none = []
of_msg (some a) = a ∷ []

abbrev pub cleared : AckInfo → AckInfo
cleared i = record i { msgbuf = none; timer = false }

abbrev pub clear_infos : List AckInfo → List ℕ × List AckInfo
clear_infos [] = ([], [])
clear_infos (i ∷ is) =
    let (drops, rest) = clear_infos is in (of_msg i.msgbuf ++ drops, cleared i ∷ rest)

unfoldable pub sprdwl_tcp_ack_deinit : AckManage → List ℕ × AckManage
sprdwl_tcp_ack_deinit m =
    let (drops, infos) = clear_infos m.ack_info in
    (drops, record m { enable = false; ack_info = infos })

abbrev pub same_flow : AckMsg → AckInfo → Bool
same_flow k i =
    i.busy
    && i.ack_msg.dest == k.dest
    && i.ack_msg.source == k.source
    && i.ack_msg.saddr == k.saddr
    && i.ack_msg.daddr == k.daddr

-- The first index from `n` on whose entry passes a test; -1 is none.
unfoldable pub first_from : (AckInfo → Bool) → ℕ → List AckInfo → Option ℕ
first_from p n [] = none
first_from p n (i ∷ is) = if p i then some n else first_from p (n + 1) is

unfoldable pub sprdwl_tcp_ack_match : AckManage → AckMsg → Option ℕ
sprdwl_tcp_ack_match m k = first_from (same_flow k) 0 m.ack_info

abbrev pub is_old : ℕ → AckInfo → Bool
is_old now i = i.busy && time_after now ((i.last_time + i.timeout) % 2 ^ 64)

-- The loop from the last index down: the entries from `n` on are done first.
unfoldable pub expire_from : ℕ → ℕ → List AckInfo → ℕ → Option ℕ → List AckInfo × ℕ × Option ℕ
expire_from now n [] max_num free_index = ([], max_num, free_index)
expire_from now n (i ∷ is) max_num free_index =
    let (rest, num, free) = expire_from now (n + 1) is max_num free_index in
    if is_old now i
    then (record i { busy = false } ∷ rest, num - 1, some n)
    else (i ∷ rest, num, free)

unfoldable pub sprdwl_tcp_ack_update : ℕ → AckManage → AckManage
sprdwl_tcp_ack_update now m =
    if time_after now ((m.last_time + m.timeout) % 2 ^ 64)
    then (let (infos, num, free) = expire_from now 0 m.ack_info m.max_num m.free_index in
        record m { last_time = now; ack_info = infos; max_num = num; free_index = free })
    else m

-- The loop of sprdwl_tcp_ack_alloc_index over the entries, where no index is known to be free.
abbrev pub take_free : AckManage → Option ℕ → Option ℕ × AckManage
take_free m none = (none, m)
take_free m (some i) = (some i, record m { free_index = none; max_num = m.max_num + 1 })

abbrev pub alloc_at : AckManage → Option ℕ → Option ℕ × AckManage
alloc_at m none = take_free m (first_from (λ i. not i.busy) 0 m.ack_info)
alloc_at m (some i) = (some i, record m { free_index = none; max_num = m.max_num + 1 })

unfoldable pub sprdwl_tcp_ack_alloc_index : AckManage → Option ℕ × AckManage
sprdwl_tcp_ack_alloc_index m =
    if m.max_num == tcp_ack_num then (none, m) else alloc_at m m.free_index

abbrev pub info_at : AckManage → ℕ → AckInfo
info_at m i = get_or m.ack_info i (fresh_info 0 0)

abbrev pub set_info : AckManage → ℕ → AckInfo → AckManage
set_info m i info = record m { ack_info = set m.ack_info i info }

-- MAX_TCP_ACK is 200.
unfoldable pub sprdwl_filter_rx_tcp_ack : AckManage → Bytes → ℕ → AckManage
sprdwl_filter_rx_tcp_ack m buf plen =
    if not m.enable || ltb 200 plen then m else elim (sprdwl_tcp_check_quick_ack buf) [
      | none ↦ m
      | some k ↦ elim (sprdwl_tcp_ack_match m k) [
        | none ↦ m
        | some i ↦ set_info m i (record (info_at m i) { psh_flag = true; psh_seq = k.seq })
      ]
    ]

-- The outcome of the filter: `ret` is true for 1, where the message was kept or dropped here.
pub record Filtered : Type 0 where
  pub ret : Bool
  pub drop_msg : Option ℕ
  pub manage : AckManage

abbrev pub pass : AckManage → Filtered
pass m = record { ret = false; drop_msg = none; manage = m }

abbrev pub rescale : ℕ → AckInfo → AckInfo
rescale win_scale i = if win_scale == 0 then i else record i { win_scale = win_scale }

-- The branch of a flow that is known. SIZE_KB is 1024; the window is an unsigned int.
unfoldable pub filter_known : ℕ → AckManage → ℕ → ℕ → Checked → Filtered
filter_known now m msg index c =
    let i = rescale c.win_scale (info_at m index) in
    let win = i.win_scale * c.msg.win % 2 ^ 32 in
    let forced = c.ret == 2 || ltb win (m.ack_winsize * 1024 % 2 ^ 32) in
    if ltb 0 c.ret && m.enable
    then (let h = sprdwl_tcp_ack_handle now msg m.max_drop_cnt i c.msg forced in
        record { ret = h.ret; drop_msg = h.drop_msg; manage = set_info m index h.info })
    else pass (set_info m index i)

-- What the entry of a new flow gets; the other fields stay as the last flow left them.
abbrev pub new_flow : ℕ → ℕ → Checked → AckInfo → AckInfo
new_flow now max_drop_cnt c i = record i {
  busy = true;
  psh_flag = false;
  last_time = now;
  drop_cnt = max_drop_cnt;
  win_scale = if c.win_scale == 0 then 1 else c.win_scale;
  ack_msg = record (i.ack_msg) {
    dest = c.msg.dest;
    source = c.msg.source;
    saddr = c.msg.saddr;
    daddr = c.msg.daddr;
    seq = c.msg.seq;
  };
}

abbrev pub fill : ℕ → Checked → Option ℕ × AckManage → AckManage
fill now c (none, m) = m
fill now c (some i, m) = set_info m i (new_flow now m.max_drop_cnt c (info_at m i))

unfoldable pub filter_new : ℕ → AckManage → Checked → Filtered
filter_new now m c = pass (fill now c (sprdwl_tcp_ack_alloc_index m))

-- What is done with a frame that was read.
unfoldable pub filter_checked : ℕ → AckManage → ℕ → Checked → Filtered
filter_checked now m msg c =
    if c.ret == 0 && c.win_scale == 0 then pass m else elim (sprdwl_tcp_ack_match m c.msg) [
      | none ↦ filter_new now m c
      | some i ↦ filter_known now m msg i c
    ]

-- `none` where the loop over the options does not end within the fuel. Where the frame is not an
-- acknowledgement but has a window scale, `unset` is what the local `ack_msg` holds.
unfoldable pub sprdwl_filter_send_tcp_ack :
    ℕ → ℕ → AckManage → ℕ → Bytes → ℕ → AckMsg → Option Filtered
sprdwl_filter_send_tcp_ack fuel now m msg buf plen unset =
    if ltb 200 plen then some (pass m) else elim (sprdwl_tcp_check_ack fuel buf unset) [
      | none ↦ none
      | some c ↦ some (filter_checked now (sprdwl_tcp_ack_update now m) msg c)
    ]

abbrev is_sent : ℕ → Option ℕ → Bool
is_sent msg none = false
is_sent msg (some a) = a == msg

unfoldable pub sent_info : ℕ → AckInfo → AckInfo
sent_info msg i = if i.busy && is_sent msg i.in_send_msg then record i { in_send_msg = none } else i

-- `len` is the length of the message that was sent.
unfoldable pub sprdwl_move_tcpack_msg : AckManage → ℕ → ℕ → AckManage
sprdwl_move_tcpack_msg m msg len =
    if not m.enable || ltb 200 len
    then m
    else record m { ack_info = map (sent_info msg) m.ack_info }

-- The argument is `buf[offset]`.
unfoldable pub enable_tcp_ack_delay : AckManage → ℕ → List ℕ × AckManage
enable_tcp_ack_delay m c =
    if c == b'0' && m.enable
    then sprdwl_tcp_ack_deinit m
    else if c == b'1' && not m.enable
    then ([], record m { enable = true })
    else ([], m)

abbrev pub is_digit : ℕ → Bool
is_digit c = leb b'0' c && leb c b'9'

-- `for (...; (cnt *= 10), i++)`: the product is taken after each digit, also the last.
unfoldable pub digits_loop : List ℕ → ℕ → ℕ
digits_loop [] cnt = cnt
digits_loop (c ∷ cs) cnt =
    let rest = digits_loop cs ((cnt + (c - b'0')) * 10 % 2 ^ 32) in
    if is_digit c then rest else cnt / 10

-- The list is `buf[offset]` and `buf[offset + 1]`: MAX_LEN is 2.
unfoldable pub adjust_tcp_ack_delay : AckManage → List ℕ → AckManage
adjust_tcp_ack_delay m text =
    let cnt = digits_loop (take 2 text) 0 in
    record m { max_drop_cnt = if leb 100 cnt then 24 else cnt }

-- The list is the text behind "tcpack_delay_win=".
unfoldable pub adjust_tcp_ack_delay_win : AckManage → List ℕ → AckManage
adjust_tcp_ack_delay_win m text = record m { ack_winsize = digits_loop text 0 }
