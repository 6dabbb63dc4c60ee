-- ===== src/Sitm/RoundTrip.antt =====
-- H4 packets through the parser of BT/tty-sdio/sitm.c.
use uwe5631_aml.Common.{
  ℕ, ◌^◌, ◌≤◌, ◌<◌, ◌≡◌, inl, inr, refl, sym, ap, true, Option, none, some, List, [], ◌∷◌, arith,
  leb, if◌then◌else◌, Bool-cases, length, ◌>>=◌,
}
use uwe5631_aml.Sitm.{brand_new, Receive, parse_frame}
use uwe5631_aml.Sitm.Stream.{is_receive}
use uwe5631_aml.Sitm.Bulk.{parse_frame-feed}
use uwe5631_aml.Sitm.Packets.{Packet, acl, encode, payload, limit}
use uwe5631_aml.Sitm.Feed.{after, feed_packet, feed_packet-fault}

-- Packets whose lengths their heads can say and the buffer has room for.
unfoldable pub ArePackets : List Packet → Type 0
ArePackets [] = Unit {0}
ArePackets (k ∷ ks) = (length (payload k) ≤ limit k) × ArePackets ks

fresh : (rd : Receive) → rd.state ≡ brand_new → record rd { state = brand_new } ≡ rd
fresh rd new = ap (λ s. record rd { state = s }) (sym new)

frames_of : Option Receive → Option (List (List ℕ))
frames_of m = m >>= λ q. some q.frames

-- Between two packets, an ACL packet of at most 1022 bytes arrives as one frame, and each longer
-- one that its 16-bit length can say is written past the end of the buffer.
pub acl_bounds :
    (a b : ℕ) (p : List ℕ) (rd : Receive)
    → length p < 2 ^ 16
    → is_receive rd ≡ true
    → rd.state ≡ brand_new
    → parse_frame (record rd { fifo = encode (acl a b p) })
      ≡ (if leb (length p) 1022 then some (after (acl a b p) (record rd { fifo = [] })) else none)
unfolding is_receive
acl_bounds a b p rd small ready new =
    let q = record rd { fifo = [] } in
    rw (parse_frame-feed (record rd { fifo = encode (acl a b p) }) ready)
      (elim (Bool-cases (leb (length p) 1022)) [
        | inl e ↦ rw (e, ← feed_packet (acl a b p) q (ground (arith, e)), fresh q new) refl
        | inr e ↦ rw (e, ← feed_packet-fault a b p q (ground (arith, e)) small, fresh q new) refl
      ])
