-- ===== src/TcpAck/Flow.antt =====
-- What the filter does with the messages of one flow, and how it reads a number: functions of
-- WIFI/tcp_ack.c.
use uwe5631_aml.Common.{
  ℕ, ◌+◌, ◌-◌, ◌<◌, ◌≡◌, ◌⊎◌, Bool, true, false, Option, none, some, List, ◌∷◌, arith, ◌==◌,
  if◌then◌else◌,
}
use uwe5631_aml.TcpAck.{
  AckMsg, AckInfo, AckManage, u32_before, handle_forced, handle_newer, sprdwl_tcp_ack_handle,
}
use uwe5631_aml.TcpAck.Manage.{is_digit, digits_loop, adjust_tcp_ack_delay}

abbrev pub copies_of : ℕ → Option ℕ → ℕ
copies_of x none = 0
copies_of x (some a) = if x == a then 1 else 0

-- sprdwl_tcp_ack_handle loses no message: the message that waited and the new one are, each once,
-- the message that is dropped, the one that waits now, or the one that the caller transmits.
pub sprdwl_tcp_ack_handle_keeps :
    (x now new max_drop_cnt : ℕ) (i : AckInfo) (m : AckMsg) (forced : Bool)
    → let h = sprdwl_tcp_ack_handle now new max_drop_cnt i m forced in
      copies_of x h.drop_msg
        + copies_of x h.info.msgbuf
        + (if h.ret then 0 else copies_of x (some new))
      ≡ copies_of x i.msgbuf + copies_of x (some new)
unfolding sprdwl_tcp_ack_handle handle_forced handle_newer
sprdwl_tcp_ack_handle_keeps x now new max_drop_cnt i m forced = ground arith

-- The number of the flow never goes back: it is before or at what it becomes, and it becomes the
-- acknowledgement's number unless that one is old.
pub sprdwl_tcp_ack_handle_seq :
    (now new max_drop_cnt : ℕ) (i : AckInfo) (m : AckMsg) (forced : Bool)
    → let s = (sprdwl_tcp_ack_handle now new max_drop_cnt i m forced).info.ack_msg.seq in
      (u32_before i.ack_msg.seq s ≡ true) × ((s ≡ m.seq) ⊎ (u32_before i.ack_msg.seq m.seq ≡ false))
unfolding sprdwl_tcp_ack_handle handle_forced handle_newer
sprdwl_tcp_ack_handle_seq now new max_drop_cnt i m forced = ground arith

-- While nothing is being sent, an acknowledgement that is held back waits with a running timer, and
-- fewer than max_drop_cnt have been held back in a row.
pub sprdwl_tcp_ack_handle_held :
    (now new max_drop_cnt : ℕ) (i : AckInfo) (m : AckMsg)
    → i.in_send_msg ≡ none
    → u32_before i.ack_msg.seq m.seq ≡ true
    → (sprdwl_tcp_ack_handle now new max_drop_cnt i m false).ret ≡ true
    → let j = (sprdwl_tcp_ack_handle now new max_drop_cnt i m false).info in
      (j.msgbuf ≡ some new) × (j.timer ≡ true) × (j.drop_cnt < max_drop_cnt)
unfolding sprdwl_tcp_ack_handle handle_newer
sprdwl_tcp_ack_handle_held now new max_drop_cnt i m e f h = ground arith

-- Two digits, the first of them not 0, never set the count that they write: it becomes 24, since
-- the loop multiplies by ten once more behind the last digit.
pub adjust_tcp_ack_delay_two_digits :
    (m : AckManage) (a b : ℕ) (rest : List ℕ)
    → is_digit a ≡ true
    → is_digit b ≡ true
    → b'0' < a
    → (adjust_tcp_ack_delay m (a ∷ b ∷ rest)).max_drop_cnt ≡ 24
unfolding adjust_tcp_ack_delay digits_loop
adjust_tcp_ack_delay_two_digits m a b rest ha hb h = ground arith

-- One digit and then another character set the count to the digit.
pub adjust_tcp_ack_delay_one_digit :
    (m : AckManage) (a b : ℕ) (rest : List ℕ)
    → is_digit a ≡ true
    → is_digit b ≡ false
    → (adjust_tcp_ack_delay m (a ∷ b ∷ rest)).max_drop_cnt ≡ a - b'0'
unfolding adjust_tcp_ack_delay digits_loop
adjust_tcp_ack_delay_one_digit m a b rest ha hb = ground arith
