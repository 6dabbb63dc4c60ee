-- ===== src/Sitm/Packets.antt =====
-- The H4 packets that the parser of BT/tty-sdio/sitm.c reads, written out as bytes, and the frames
-- that it hands over for them.
use uwe5631_aml.Common.{
  ℕ, ◌/◌, ◌%◌, ◌||◌, List, [], ◌∷◌, ◌++◌, ◌==◌, if◌then◌else◌, length, replicate,
}
use uwe5631_aml.Sitm.{tail_size}

pub data Packet : Type 0 where
  command : (opcode_low opcode_high : ℕ) (payload : List ℕ) → Packet
  acl : (handle_low handle_high : ℕ) (payload : List ℕ) → Packet
  sco : (handle_low handle_high : ℕ) (payload : List ℕ) → Packet
  event : (code : ℕ) (payload : List ℕ) → Packet

abbrev pub packet_type : Packet → ℕ
packet_type (command a b p) = 1
packet_type (acl a b p) = 2
packet_type (sco a b p) = 3
packet_type (event a p) = 4

-- The type and the preamble, that ends with the payload's length.
abbrev pub head : Packet → List ℕ
head (command a b p) = 1 ∷ a ∷ b ∷ length p ∷ []
head (acl a b p) = 2 ∷ a ∷ b ∷ length p % 256 ∷ length p / 256 ∷ []
head (sco a b p) = 3 ∷ a ∷ b ∷ length p ∷ []
head (event a p) = 4 ∷ a ∷ length p ∷ []

abbrev pub payload : Packet → List ℕ
payload (command a b p) = p
payload (acl a b p) = p
payload (sco a b p) = p
payload (event a p) = p

abbrev pub encode : Packet → List ℕ
encode k = head k ++ payload k

-- Commands and ACL data are padded.
abbrev pub padding : ℕ → ℕ → List ℕ
padding type n = if type == 1 || type == 2 then replicate (tail_size n) 0 else []

abbrev pub frame : Packet → List ℕ
frame k = encode k ++ padding (packet_type k) (length (encode k))

-- A payload whose length is a byte, and for ACL data what the buffer has room for.
abbrev pub limit : Packet → ℕ
limit (acl a b p) = 1022
limit _ = 255
