-- ===== src/TcpAck/OptionLoop.antt =====
-- The loop over the TCP options in is_drop_tcp_ack of WIFI/tcp_ack.c: when it ends.
use uwe5631_aml.Common.{
  ℕ, zero, suc, ◌+◌, ◌-◌, ◌*◌, ◌/◌, ◌≤◌, ◌<◌, ◌≡◌, refl, inl, inr, none, some, arith, Bool-cases,
  ltb, ◌&&◌,
}
use uwe5631_aml.TcpAck.{AckMsg}
use uwe5631_aml.TcpAck.Packet.{
  Bytes, Options, option_round, option_loop, known_option, temp, be16, is_tcp, has_ack, ip_hdr_len,
  is_drop_tcp_ack, Checked, sprdwl_tcp_check_ack,
}

-- The options that stand at an index and take up a length: NOPs, and options of two bytes or more,
-- without an end-of-list option.
pub data IsOptions (buf : Bytes) : ℕ → ℕ → Type 0 where
  done : {ptr : ℕ} → IsOptions buf ptr 0
  nop : {ptr len : ℕ} → buf ptr ≡ 1 → IsOptions buf (ptr + 1) len → IsOptions buf ptr (1 + len)
  option :
      {ptr len : ℕ}
      → 2 ≤ buf ptr
      → 2 ≤ buf (ptr + 1)
      → IsOptions buf (ptr + buf (ptr + 1)) len
      → IsOptions buf ptr (buf (ptr + 1) + len)

-- The loop over the options does not end at an end-of-list option that only zero bytes follow:
-- whatever the fuel, it runs out.
pub option_loop_eol :
    (fuel : ℕ) (buf : Bytes) (o : Options)
    → ((i : ℕ) → o.ptr ≤ i → buf i ≡ 0)
    → 0 < o.len
    → 0 < o.drop
    → option_loop fuel buf o ≡ none
unfolding option_loop option_round
option_loop_eol zero buf o zeros hl hd = refl
option_loop_eol (suc fuel) buf o zeros hl hd =
    let ih =
      option_loop_eol fuel buf (record o { ptr = o.ptr + 1 }) (λ i le. zeros i (omega arith)) hl
        hd in
    ground (arith, zeros o.ptr, ih)

-- The record that the loop is in.
abbrev pub at : ℕ → ℕ → ℕ → ℕ → Options
at ptr len d w = record { ptr = ptr; len = len; drop = d; win_scale = w }

option_round-nop :
    (buf : Bytes) (ptr len d w : ℕ)
    → buf ptr ≡ 1
    → option_round buf (at ptr (1 + len) d w) ≡ at (ptr + 1) len d w
unfolding option_round
option_round-nop buf ptr len d w e = ground arith

option_round-option :
    (buf : Bytes) (ptr len d w : ℕ)
    → 2 ≤ buf ptr
    → 2 ≤ buf (ptr + 1)
    → 0 < d
    → (d' w' : ℕ) × (option_round buf (at ptr (buf (ptr + 1) + len) d w)
        ≡ at (ptr + buf (ptr + 1)) len d' w')
      × (0 < d')
unfolding option_round
option_round-option buf ptr len d w e f pos =
    let (d', w') = known_option (buf ptr) (buf (ptr + 2)) d w in
    (d', w', ground arith, ground arith)

loop_step :
    (fuel : ℕ) (buf : Bytes) (o : Options)
    → 0 < o.len
    → 0 < o.drop
    → option_loop (suc fuel) buf o ≡ option_loop fuel buf (option_round buf o)
unfolding option_loop
loop_step fuel buf o hl hd = ground arith

-- Where the options of the header are well-formed, the loop reads them all, with as much fuel as
-- their length and one more, and it never sets `drop` to 0.
pub option_loop_returns :
    (fuel : ℕ) (buf : Bytes) {ptr len : ℕ} (d w : ℕ)
    → IsOptions buf ptr len
    → len < fuel
    → 0 < d
    → (r : Options) × (option_loop fuel buf (at ptr len d w) ≡ some r) × (r.len ≡ 0) × (0 < r.drop)
unfolding option_loop
option_loop_returns zero buf d w h l pos = absurd (omega (arith, l))
option_loop_returns (suc fuel) buf d w done l pos = (_, refl, refl, pos)
option_loop_returns (suc fuel) buf d w (nop {ptr} {len} e h) l pos =
    rw
      (
        loop_step fuel buf (at ptr (1 + len) d w) (omega arith) pos,
        option_round-nop buf ptr len d w e,
      )
      (option_loop_returns fuel buf d w h (omega (arith, l)) pos)
option_loop_returns (suc fuel) buf d w (option {ptr} {len} e f h) l pos =
    let (d', w', g, pos') = option_round-option buf ptr len d w e f pos in
    rw (loop_step fuel buf (at ptr (buf (ptr + 1) + len) d w) (omega (arith, f)) pos, g)
      (option_loop_returns fuel buf d' w' h (omega (arith, l, f)) pos')

-- A TCP acknowledgement whose header has well-formed options is read with 64 rounds of fuel.
pub sprdwl_tcp_check_ack_returns :
    (buf : Bytes) (unset : AckMsg)
    → ((i : ℕ) → buf i < 256)
    → IsOptions buf (temp buf + 20) (buf (temp buf + 12) / 16 * 4 - 20)
    → (c : Checked) × (sprdwl_tcp_check_ack 64 buf unset ≡ some c)
unfolding sprdwl_tcp_check_ack is_drop_tcp_ack
sprdwl_tcp_check_ack_returns buf unset bytes h =
    let (r, e, size, pos) =
      option_loop_returns 64 buf 1 0 h (omega (arith, bytes (temp buf + 12))) (omega arith) in
    elim (Bool-cases (is_tcp buf && has_ack buf)) [
      | inr f ↦ rw f (_, refl)
      | inl f ↦
          elim (Bool-cases (ltb (buf (temp buf + 12) / 16 * 4) (be16 buf 16 - ip_hdr_len buf))) [
            | inl g ↦ rw (f, g) (_, refl)
            | inr g ↦ rw (f, g, e) (_, refl)
          ]
    ]
