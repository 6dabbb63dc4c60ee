-- ===== src/Reorder/Replay.antt =====
-- Packet numbers of 48 bits in two words: replay_detection of WIFI/reorder.c.
use uwe5631_aml.Common.{ℕ, ◌+◌, ◌*◌, ◌^◌, ◌≤◌, ◌<◌, ◌≡◌, ◌⊎◌, true, false, arith}
use uwe5631_aml.Reorder.{RxBaPktDesc, RxBaNodeDesc, has_pn, replay_detection}

-- The packet number that two words stand for.
abbrev pub packet_number : ℕ → ℕ → ℕ
packet_number pn_h pn_l = 2 ^ 32 * pn_h + pn_l

-- For a cipher with packet numbers, and while no new key is expected, a packet is either accepted,
-- its number is above the session's and becomes the session's, or it is refused, its number is not
-- above the session's and nothing changes.
pub replay_detection_lem :
    (p : RxBaPktDesc) (d : RxBaNodeDesc)
    → has_pn p.cipher_type ≡ true
    → d.reset_pn ≡ false
    → p.pn_l < 2 ^ 32
    → d.pn_l < 2 ^ 32
    → ((packet_number d.pn_h d.pn_l < packet_number p.pn_h p.pn_l)
        × (replay_detection p d ≡ (true, record d { pn_l = p.pn_l; pn_h = p.pn_h })))
      ⊎ ((packet_number p.pn_h p.pn_l ≤ packet_number d.pn_h d.pn_l)
          × (replay_detection p d ≡ (false, d)))
unfolding replay_detection
replay_detection_lem p d c r hp hd = ground arith

-- While a new key is expected, a packet whose number of 48 bits is below the session's, as that of the
-- first packet under a new key is: it is accepted, becomes the session's number and ends the waiting
-- where the low word of its number is not above the session's; but where its low word is above, so that
-- only its high word is below, it is refused and nothing changes.
pub replay_detection_rekey :
    (p : RxBaPktDesc) (d : RxBaNodeDesc)
    → has_pn p.cipher_type ≡ true
    → d.reset_pn ≡ true
    → p.pn_l < 2 ^ 32
    → d.pn_l < 2 ^ 32
    → packet_number p.pn_h p.pn_l < packet_number d.pn_h d.pn_l
    → ((p.pn_l ≤ d.pn_l)
        × (replay_detection p d
            ≡ (true, record d { reset_pn = false; pn_l = p.pn_l; pn_h = p.pn_h })))
      ⊎ ((d.pn_l < p.pn_l) × (p.pn_h < d.pn_h) × (replay_detection p d ≡ (false, d)))
unfolding replay_detection
replay_detection_rekey p d c r hp hd lower = ground arith
