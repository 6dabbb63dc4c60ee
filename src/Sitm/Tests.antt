-- ===== src/Sitm/Tests.antt =====
-- The parser of BT/tty-sdio/sitm.c on concrete bytes.
use uwe5631_aml.Common.{ℕ, ◌≡◌, refl, true, none, List, [], ◌∷◌, replicate, arith}
use uwe5631_aml.Sitm.{sitm_init, parse_frame}
use uwe5631_aml.Sitm.Stream.{feed, is_receive}
use uwe5631_aml.Sitm.Chunks.{is_ready, write_all, Fit, concat, write_all-feed}
use uwe5631_aml.Sitm.Packets.{Packet, command, acl, event, encode}
use uwe5631_aml.Sitm.RoundTrip.{acl_bounds}

-- HCI_Reset, and an event after it.
abbrev packets : List Packet
packets = command 3 12 [] ∷ event 14 (1 ∷ 3 ∷ 12 ∷ 0 ∷ []) ∷ []

abbrev chunks : List (List ℕ)
chunks = (1 ∷ 3 ∷ []) ∷ (12 ∷ 0 ∷ 4 ∷ 14 ∷ 4 ∷ 1 ∷ []) ∷ (3 ∷ 12 ∷ 0 ∷ []) ∷ []

chunks-Fit : Fit 1024 chunks
unfolding Fit
chunks-Fit = (omega arith, (omega arith, (omega arith, tt)))

sitm_init-is_ready : is_ready sitm_init ≡ true
unfolding is_ready is_receive sitm_init
sitm_init-is_ready = refl

write_all-feed_example : write_all 1024 chunks sitm_init ≡ feed (concat chunks) sitm_init
write_all-feed_example = write_all-feed 1024 chunks sitm_init sitm_init-is_ready chunks-Fit

acl_bounds_example :
    parse_frame (record sitm_init { fifo = encode (acl 1 0 (replicate 1023 7)) }) ≡ none
unfolding sitm_init is_receive
acl_bounds_example = acl_bounds 1 0 (replicate 1023 7) sitm_init (omega arith) refl refl
