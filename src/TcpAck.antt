-- ===== src/TcpAck.antt =====
-- The TCP acknowledgement filter of WIFI/tcp_ack.c and WIFI/tcp_ack.h: its state, and what happens
-- to one acknowledgement of a flow that it knows.
-- A `sprdwl_msg_buf` is the number that stands for its address. `jiffies` is an argument. A seqlock
-- or a spinlock is taken and given back inside each function, so its retry loops run once.
pub mod Packet
pub mod Manage
pub mod Flow
pub mod Slots
pub mod OptionLoop
mod Tests
use uwe5631_aml.Common.{
  ℕ, zero, suc, ◌+◌, ◌-◌, ◌*◌, ◌/◌, ◌%◌, ◌^◌, ◌≤◌, ◌<◌, min, bit_and, ◌≡◌, refl, sym, ap, ◌∙◌, ◌≢◌,
  ◌↔◌, ◌⊎◌, inl, inr, Bool, true, false, not, ◌&&◌, ◌||◌, Option, none, some, List, [], ◌∷◌, ◌++◌,
  arith, ltb, leb, ◌==◌, if◌then◌else◌, flag, Bool-cases, length, get_or, set, take, drop,
  replicate, append-nil, append_assoc,
}

-- `struct sprdwl_tcp_ack_msg`
pub record AckMsg : Type 0 where
  pub source : ℕ
  pub dest : ℕ
  pub saddr : ℕ
  pub daddr : ℕ
  pub seq : ℕ
  pub win : ℕ

-- `struct sprdwl_tcp_ack_info`. `timer` says whether the timer is pending.
pub record AckInfo : Type 0 where
  pub busy : Bool
  pub drop_cnt : ℕ
  pub psh_flag : Bool
  pub psh_seq : ℕ
  pub win_scale : ℕ
  pub last_time : ℕ
  pub timeout : ℕ
  pub timer : Bool
  pub msgbuf : Option ℕ
  pub in_send_msg : Option ℕ
  pub ack_msg : AckMsg

-- `struct sprdwl_tcp_ack_manage`. `free_index` is -1 for none. `max_num` is an int.
pub record AckManage : Type 0 where
  pub enable : Bool
  pub max_num : ℕ
  pub free_index : Option ℕ
  pub last_time : ℕ
  pub timeout : ℕ
  pub max_drop_cnt : ℕ
  pub ack_info : List AckInfo
  pub ack_winsize : ℕ

abbrev pub tcp_ack_num : ℕ
tcp_ack_num = 32

-- SPRDWL_U32_BEFORE: the difference as a signed 32-bit number is at most 0.
abbrev pub u32_before : ℕ → ℕ → Bool
u32_before a b = let d = (a + 2 ^ 32 - b) % 2 ^ 32 in d == 0 || leb (2 ^ 31) d

-- time_after of an unsigned long of 64 bits
abbrev pub time_after : ℕ → ℕ → Bool
time_after a b = leb (2 ^ 63) ((b + 2 ^ 64 - a) % 2 ^ 64)

-- What sprdwl_tcp_ack_handle leaves: `ret`, the message that it drops, and the flow.
pub record Handled : Type 0 where
  pub ret : Bool
  pub drop_msg : Option ℕ
  pub info : AckInfo

abbrev is_some : Option ℕ → Bool
is_some none = false
is_some (some a) = true

abbrev set_seq : AckMsg → ℕ → AckMsg
set_seq m s = record m { seq = s }

-- Whether an acknowledgement answers the segment that was pushed.
abbrev pub acks_push : AckInfo → AckMsg → Bool
acks_push i m = i.psh_flag && not (u32_before m.seq i.psh_seq)

-- type == 2 and a number that is not old: the acknowledgement goes out, and one that waits is dropped.
pub handle_forced : ℕ → AckInfo → AckMsg → Handled
handle_forced max_drop_cnt i m = record {
  ret = false;
  drop_msg = i.msgbuf;
  info = record i {
    ack_msg = set_seq i.ack_msg m.seq;
    psh_flag = if acks_push i m then false else i.psh_flag;
    msgbuf = none;
    timer = if is_some i.msgbuf then false else i.timer;
    in_send_msg = none;
    drop_cnt = max_drop_cnt;
  };
}

-- The count before the test of the other branch.
abbrev pub counted : AckInfo → AckMsg → ℕ
counted i m = if acks_push i m then i.drop_cnt else i.drop_cnt + 1

-- quick_ack, or enough acknowledgements held back while none is being sent
abbrev pub goes_out : ℕ → AckInfo → AckMsg → Bool
goes_out max_drop_cnt i m =
    acks_push i m || (not (is_some i.in_send_msg) && leb max_drop_cnt (counted i m))

-- type == 1 and a number that is not old
pub handle_newer : ℕ → ℕ → AckInfo → AckMsg → Handled
handle_newer new max_drop_cnt i m =
    let i' = record i {
      msgbuf = none;
      psh_flag = if acks_push i m then false else i.psh_flag;
      drop_cnt = counted i m;
      ack_msg = set_seq i.ack_msg m.seq;
    } in
    if goes_out max_drop_cnt i m
    then record {
      ret = false;
      drop_msg = i.msgbuf;
      info = record i' { drop_cnt = 0; in_send_msg = some new; timer = false };
    }
    else record {
      ret = true;
      drop_msg = i.msgbuf;
      info = record i' { msgbuf = some new; timer = true };
    }

-- `forced` is type == 2. `ret` is false for 0, where the caller transmits `new`.
pub sprdwl_tcp_ack_handle : ℕ → ℕ → ℕ → AckInfo → AckMsg → Bool → Handled
sprdwl_tcp_ack_handle now new max_drop_cnt i m forced =
    let i' = record i { last_time = now } in
    if u32_before i.ack_msg.seq m.seq
    then (if forced then handle_forced max_drop_cnt i' m else handle_newer new max_drop_cnt i' m)
    else record { ret = true; drop_msg = some new; info = i' }

-- The timer: the message that waits, if none is being sent, is handed to sprdwl_intf_tx.
pub sprdwl_tcp_ack_timeout : AckInfo → Option ℕ × AckInfo
sprdwl_tcp_ack_timeout i =
    if i.busy && is_some i.msgbuf && not (is_some i.in_send_msg)
    then (i.msgbuf, record i { msgbuf = none; drop_cnt = 0; in_send_msg = i.msgbuf })
    else (none, i)
