-- ===== src/Sitm.antt =====
-- The H4 packet parser of BT/tty-sdio/sitm.c, between the serial line and the SDIO channel.
-- `preamble` and `buffer` are the bytes that were written to them for the packet at hand, so `index`
-- is their length; a write past the end of the array `buffer`, which has 1030 bytes, is a fault,
-- `none`. kfifo is the kernel's: its content is a list, and how much it can hold is an argument.
pub mod Stream
pub mod Bulk
pub mod Chunks
pub mod Packets
pub mod Feed
pub mod RoundTrip
pub mod Tests
use uwe5631_aml.Common.{
  ℕ, zero, suc, ◌+◌, ◌-◌, ◌*◌, ◌%◌, ◌≤◌, ◌<◌, ◌^◌, ◌≡◌, refl, Bool, true, false, not, ◌&&◌, ◌||◌,
  Option, none, some, List, [], ◌∷◌, ◌++◌, ltb, leb, ◌==◌, if◌then◌else◌, length, get_or, take,
  drop, replicate, ◌>>=◌,
}

pub data State : Type 0 where
  brand_new preamble body ignore finished : State

-- `struct packet_receive_data_t`, and the frames that were handed to frame_complete.
pub record Receive : Type 0 where
  pub state : State
  pub bytes_remaining : ℕ
  pub type : ℕ
  pub preamble : List ℕ
  pub index : ℕ
  pub fifo : List ℕ
  pub buffer : List ℕ
  pub frames : List (List ℕ)

-- sitm_init: everything is 0.
unfoldable pub sitm_init : Receive
sitm_init = record {
  state = brand_new;
  bytes_remaining = 0;
  type = 0;
  preamble = [];
  index = 0;
  fifo = [];
  buffer = [];
  frames = [];
}

-- HCI_HAL_SERIAL_BUFFER_SIZE + BYTE_ALIGNMENT
abbrev pub buffer_size : ℕ
buffer_size = 1026 + 4

abbrev pub preamble_size : ℕ → ℕ
preamble_size type = if type == 2 then 4 else if type == 4 then 2 else 3

-- `rd->bytes_remaining--`, an unsigned short
abbrev pub u16_dec : ℕ → ℕ
u16_dec n = (n + 65535) % 2 ^ 16

-- RETRIEVE_ACL_LENGTH
abbrev pub retrieve_acl_length : List ℕ → ℕ
retrieve_acl_length bytes = get_or bytes 4 0 * 256 + get_or bytes 3 0

-- `rd->buffer[rd->index] = byte; rd->index++`
unfoldable pub store_byte : ℕ → Receive → Option Receive
store_byte byte rd =
    if ltb rd.index buffer_size
    then some (record rd { buffer = rd.buffer ++ byte ∷ []; index = rd.index + 1 })
    else none

unfoldable pub store_bytes : List ℕ → Receive → Option Receive
store_bytes [] rd = some rd
store_bytes (b ∷ bs) rd = store_byte b rd >>= store_bytes bs

-- BYTE_ALIGNMENT is 4. An index that is aligned gets four bytes more.
abbrev pub tail_size : ℕ → ℕ
tail_size index = 4 - (index + 4) % 4

-- The part behind the switch.
unfoldable pub finish : Receive → Option Receive
finish rd = do
  rd' ←
      if rd.type == 1 || rd.type == 2
      then store_bytes (replicate (tail_size rd.index) 0) rd
      else some rd
  some (record rd' { frames = rd'.frames ++ rd'.buffer ∷ []; state = brand_new })

unfoldable pub finish_if : Bool → Receive → Option Receive
finish_if true rd = finish rd
finish_if false rd = some rd

-- The case PREAMBLE. `rd->preamble[rd->index] = byte` is within its 5 bytes.
unfoldable pub read_preamble : ℕ → Receive → Option Receive
read_preamble byte rd =
    let rd' = record rd {
      preamble = rd.preamble ++ byte ∷ [];
      index = rd.index + 1;
      bytes_remaining = u16_dec rd.bytes_remaining;
    } in
    let remaining = (if rd.type == 2 then retrieve_acl_length rd'.preamble else byte) % 2 ^ 16 in
    if rd'.bytes_remaining == 0
    then finish_if (remaining == 0)
        (record rd' { bytes_remaining = remaining; buffer = rd'.preamble; state = body })
    else some rd'

-- The case BRAND_NEW, which falls through.
unfoldable pub read_type : ℕ → Receive → Option Receive
read_type byte rd =
    if ltb 4 byte || ltb byte 1
    then some rd
    else read_preamble byte (record rd {
      type = byte;
      bytes_remaining = preamble_size byte + 1;
      preamble = [];
      index = 0;
      state = preamble;
    })

-- The case BODY: `byte`, and then data_ready for all that remains. The result has the fifo's rest.
unfoldable pub read_body : ℕ → Receive → Option Receive
read_body byte rd = do
  rd' ← store_byte byte rd
  let remaining = u16_dec rd'.bytes_remaining
  rd'' ← store_bytes (take remaining rd'.fifo) rd'
  let left = remaining - length (take remaining rd'.fifo)
  finish_if (left == 0) (record rd'' { bytes_remaining = left; fifo = drop remaining rd'.fifo })

-- One round of the loop of parse_frame. No case leaves `ignore` or `finished` behind, so the model
-- of those two is the switch's default.
unfoldable pub read_byte : State → ℕ → Receive → Option Receive
read_byte brand_new byte rd = read_type byte rd
read_byte preamble byte rd = read_preamble byte rd
read_byte body byte rd = read_body byte rd
read_byte _ byte rd = some rd

-- `while (data_ready(&byte, 1) == 1)`. Each round takes a byte from the fifo, or more.
unfoldable pub parse_frame_loop : ℕ → Receive → Option Receive
parse_frame_loop zero rd = none
parse_frame_loop (suc fuel) rd = elim (rd.fifo) [
  | [] ↦ some rd
  | b ∷ rest ↦ read_byte rd.state b (record rd { fifo = rest }) >>= parse_frame_loop fuel
]

unfoldable pub parse_frame : Receive → Option Receive
parse_frame rd = parse_frame_loop (length rd.fifo + 1) rd

-- `size` is what the fifo holds. The number is the return value, the bytes that were taken.
unfoldable pub sitm_write : ℕ → List ℕ → Receive → Option (ℕ × Receive)
sitm_write size buf rd =
    let avail = size - length rd.fifo in
    let count = if ltb avail (length buf) then avail else length buf in
    let parsed = parse_frame (record rd { fifo = rd.fifo ++ take count buf }) in
    if avail == 0 then some (0, rd) else (parsed >>= λ rd'. some (count, rd'))
