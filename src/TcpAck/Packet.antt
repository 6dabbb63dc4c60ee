-- ===== src/TcpAck/Packet.antt =====
-- How WIFI/tcp_ack.c reads a frame: sprdwl_tcp_check_quick_ack, is_drop_tcp_ack and
-- sprdwl_tcp_check_ack. A frame is the bytes from its start on, as a function of the offset, since
-- the code reads past the end of what it was given where the frame's own lengths tell it to.
-- Offsets of the Ethernet, IPv4 and TCP headers are those of the standards.
use uwe5631_aml.Common.{
  ℕ, zero, suc, ◌+◌, ◌-◌, ◌*◌, ◌/◌, ◌%◌, ◌^◌, Bool, not, ◌&&◌, ◌||◌, Option, none, some, ltb, ◌==◌,
  if◌then◌else◌, drop,
}
use uwe5631_aml.TcpAck.{AckMsg}

abbrev pub Bytes : Type 0
Bytes = ℕ → ℕ

-- Fields in network order
abbrev pub be16 : Bytes → ℕ → ℕ
be16 buf i = buf i * 256 + buf (i + 1)

abbrev pub be32 : Bytes → ℕ → ℕ
be32 buf i = be16 buf i * 2 ^ 16 + be16 buf (i + 2)

-- ETH_P_IP, version 4 and IPPROTO_TCP
abbrev pub is_tcp : Bytes → Bool
is_tcp buf = be16 buf 12 == 0x800 && buf 14 / 16 == 4 && buf 23 == 6

abbrev pub ip_hdr_len : Bytes → ℕ
ip_hdr_len buf = buf 14 % 16 * 4

-- The offset of the TCP header
abbrev pub temp : Bytes → ℕ
temp buf = 14 + ip_hdr_len buf

-- TCP_FLAG_ACK, 0x10, and the flag 0x8 of byte 13
abbrev pub has_ack : Bytes → Bool
has_ack buf = not (buf (temp buf + 13) / 16 % 2 == 0)

abbrev pub has_psh : Bytes → Bool
has_psh buf = not (buf (temp buf + 13) / 8 % 2 == 0)

-- The message that is returned matches the acknowledgement to come, so the ends are swapped.
-- `win` is not set.
unfoldable pub sprdwl_tcp_check_quick_ack : Bytes → Option AckMsg
sprdwl_tcp_check_quick_ack buf =
    if is_tcp buf && has_ack buf && has_psh buf
    then some (record {
      saddr = be32 buf 30;
      daddr = be32 buf 26;
      source = be16 buf (temp buf + 2);
      dest = be16 buf (temp buf);
      seq = be32 buf (temp buf + 4);
      win = 0;
    })
    else none

-- One round of the loop over the options: the state is `ptr`, `len`, `drop` and `win_scale`.
pub record Options : Type 0 where
  pub ptr : ℕ
  pub len : ℕ
  pub drop : ℕ
  pub win_scale : ℕ

-- TCPOPT_TIMESTAMP is 8 and TCPOPT_WINDOW 3; `p` is past the option's length.
abbrev pub known_option : ℕ → ℕ → ℕ → ℕ → ℕ × ℕ
known_option opcode value drop win_scale =
    if opcode == 8
    then (drop, win_scale)
    else if opcode == 3
    then (drop, if ltb value 15 then 2 ^ value else win_scale)
    else (2, win_scale)

-- TCPOPT_EOL is 0 and TCPOPT_NOP 1. Each `break` of the outer switch goes on with the loop.
unfoldable pub option_round : Bytes → Options → Options
option_round buf o =
    let opcode = buf o.ptr in
    if opcode == 0
    then record o { ptr = o.ptr + 1 }
    else if opcode == 1
    then record o { ptr = o.ptr + 1; len = o.len - 1 }
    else (let opsize = buf (o.ptr + 1) in
        if ltb opsize 2 || ltb o.len opsize
        then record o { ptr = o.ptr + 2 }
        else (let (drop, win_scale) = known_option opcode (buf (o.ptr + 2)) o.drop o.win_scale in
            record {
              ptr = o.ptr + opsize;
              len = o.len - opsize;
              drop = drop;
              win_scale = win_scale;
            }))

-- `while ((len > 0) && drop)`; `none` when the fuel runs out. `drop` is never 0 here.
unfoldable pub option_loop : ℕ → Bytes → Options → Option Options
option_loop zero buf o = none
option_loop (suc fuel) buf o =
    let rest = option_loop fuel buf (option_round buf o) in
    if ltb 0 o.len && not (o.drop == 0) then rest else some o

-- The TCP header starts at `base`. The result is `drop` and `win_scale`.
unfoldable pub is_drop_tcp_ack : ℕ → Bytes → ℕ → ℕ → ℕ → Option (ℕ × ℕ)
is_drop_tcp_ack fuel buf base tcp_tot_len win_scale =
    let len = buf (base + 12) / 16 * 4 in
    let start : Options = record {
      ptr = base + 20;
      len = len - 20;
      drop = 1;
      win_scale = win_scale;
    } in
    if ltb len tcp_tot_len
    then some (0, win_scale)
    else elim (option_loop fuel buf start) [ none ↦ none | some o ↦ some (o.drop, o.win_scale) ]

-- What sprdwl_tcp_check_ack gives: the class of the frame, the window scale, and the message,
-- which is set where the class is not 0.
pub record Checked : Type 0 where
  pub ret : ℕ
  pub win_scale : ℕ
  pub msg : AckMsg

abbrev pub ack_of : Bytes → AckMsg
ack_of buf = record {
  saddr = be32 buf 26;
  daddr = be32 buf 30;
  source = be16 buf (temp buf);
  dest = be16 buf (temp buf + 2);
  seq = be32 buf (temp buf + 8);
  win = be16 buf (temp buf + 14);
}

-- `tot_len - ip_hdr_len` is an int; where it is negative it is not more than the header's length.
unfoldable pub sprdwl_tcp_check_ack : ℕ → Bytes → AckMsg → Option Checked
sprdwl_tcp_check_ack fuel buf unset =
    if is_tcp buf && has_ack buf
    then elim (is_drop_tcp_ack fuel buf (temp buf) (be16 buf 16 - ip_hdr_len buf) 0) [
      | none ↦ none
      | some (drop, win_scale) ↦ some (record {
        ret = drop;
        win_scale = win_scale;
        msg = if ltb 0 drop then ack_of buf else unset;
      })
    ]
    else some (record { ret = 0; win_scale = 0; msg = unset })
