-- ===== src/TcpAck/Tests.antt =====
-- Concrete flows, frames and texts, and what the theorems say of them.
use uwe5631_aml.Common.{ℕ, ◌+◌, ◌<◌, ◌≡◌, refl, true, false, if◌then◌else◌, none, some, arith, ◌==◌}
use uwe5631_aml.TcpAck.{AckMsg, AckInfo, AckManage, sprdwl_tcp_ack_handle, sprdwl_tcp_ack_timeout}
use uwe5631_aml.TcpAck.Packet.{
  Bytes, option_loop, ack_of, is_drop_tcp_ack, Checked, sprdwl_tcp_check_ack,
}
use uwe5631_aml.TcpAck.Manage.{
  zero_msg, fresh_info, Filtered, filter_checked, sprdwl_tcp_ack_init, sprdwl_tcp_ack_update,
  sprdwl_filter_send_tcp_ack,
}
use uwe5631_aml.TcpAck.Flow.{copies_of, sprdwl_tcp_ack_handle_keeps}
use uwe5631_aml.TcpAck.Slots.{
  IsCounted, sprdwl_tcp_ack_init-IsCounted, sprdwl_tcp_ack_update-IsCounted,
  sprdwl_filter_send_tcp_ack-IsCounted,
}
use uwe5631_aml.TcpAck.OptionLoop.{done, at, option_loop_eol, sprdwl_tcp_check_ack_returns}

-- A flow at 100 whose message 4 waits.
abbrev flow : AckInfo
flow = record (fresh_info 0 4000) {
  busy = true;
  drop_cnt = 1;
  timer = true;
  msgbuf = some 4;
  ack_msg = record zero_msg { seq = 100 };
}

abbrev next_ack : AckMsg
next_ack = record zero_msg { seq = 200 }

abbrev table : AckManage
table = sprdwl_tcp_ack_init 0 4000

table-IsCounted : IsCounted table
table-IsCounted = sprdwl_tcp_ack_init-IsCounted 0 4000

sprdwl_tcp_ack_handle_keeps_example :
    let h = sprdwl_tcp_ack_handle 7 5 24 flow next_ack false in
    copies_of 4 h.drop_msg + copies_of 4 h.info.msgbuf + (if h.ret then 0 else copies_of 4 (some 5))
    ≡ copies_of 4 flow.msgbuf + copies_of 4 (some 5)
sprdwl_tcp_ack_handle_keeps_example = sprdwl_tcp_ack_handle_keeps 4 7 5 24 flow next_ack false

sprdwl_tcp_ack_update-IsCounted_example : IsCounted (sprdwl_tcp_ack_update 9000 table)
sprdwl_tcp_ack_update-IsCounted_example = sprdwl_tcp_ack_update-IsCounted 9000 table table-IsCounted

-- An acknowledgement without options or payload: an IPv4 header of 20 bytes and a TCP header of 20.
abbrev frame : Bytes
frame i =
    if i == 12
    then 8
    else if i == 14
    then 0x45
    else if i == 17
    then 40
    else if i == 23
    then 6
    else if i == 46
    then 0x50
    else if i == 47
    then 0x10
    else 0

frame_bytes : (i : ℕ) → frame i < 256
frame_bytes i = ground arith

sprdwl_tcp_check_ack_returns_example :
    (c : Checked) × (sprdwl_tcp_check_ack 64 frame zero_msg ≡ some c)
sprdwl_tcp_check_ack_returns_example = sprdwl_tcp_check_ack_returns frame zero_msg frame_bytes done

-- The outcome for the frame, of a flow that is new.
abbrev outcome : Filtered
outcome =
    filter_checked 9 (sprdwl_tcp_ack_update 9 table) 5
      (record { ret = 1; win_scale = 0; msg = ack_of frame })

passes : sprdwl_filter_send_tcp_ack 64 9 table 5 frame 54 zero_msg ≡ some outcome
unfolding sprdwl_filter_send_tcp_ack sprdwl_tcp_check_ack is_drop_tcp_ack option_loop
passes = refl

sprdwl_filter_send_tcp_ack-IsCounted_example : IsCounted outcome.manage
sprdwl_filter_send_tcp_ack-IsCounted_example =
    sprdwl_filter_send_tcp_ack-IsCounted 64 9 table 5 frame 54 zero_msg outcome table-IsCounted
      passes

abbrev zeros : Bytes
zeros i = 0

option_loop_eol_example : option_loop 1000 zeros (at 34 4 1 0) ≡ none
option_loop_eol_example =
    option_loop_eol 1000 zeros (at 34 4 1 0) (λ i le. refl) (omega arith) (omega arith)

-- The timer sends the message that waits.
sends_waiting : (sprdwl_tcp_ack_timeout flow).0 ≡ some 4
unfolding sprdwl_tcp_ack_timeout
sends_waiting = refl
