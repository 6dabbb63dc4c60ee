-- ===== src/Reorder/Seqno.antt =====
-- Sequence numbers of 12 bits: SEQNO_ADD, SEQNO_SUB, seqno_leq and seqno_geq of WIFI/rx_msg.h.
use uwe5631_aml.Common.{
  ℕ, ◌+◌, ◌-◌, ◌%◌, ◌^◌, ◌<◌, ◌≡◌, ◌↔◌, ◌⊎◌, Bool, true, ◌&&◌, ◌||◌, arith, ltb, leb,
}

-- `& SEQNO_MASK` keeps 12 bits.
abbrev pub seqno_add : ℕ → ℕ → ℕ
seqno_add seq1 seq2 = (seq1 + seq2) % 4096

-- The difference is an int, and both are below 2 ^ 16.
abbrev pub seqno_sub : ℕ → ℕ → ℕ
seqno_sub seq1 seq2 = (seq1 + 2 ^ 16 - seq2) % 4096

-- MAX_SEQNO_BY_TWO is 2048.
unfoldable pub seqno_leq : ℕ → ℕ → Bool
seqno_leq seq1 seq2 =
    (leb seq1 seq2 && ltb (seq2 - seq1) 2048) || (ltb seq2 seq1 && leb 2048 (seq1 - seq2))

unfoldable pub seqno_geq : ℕ → ℕ → Bool
unfolding seqno_leq
seqno_geq seq1 seq2 = seqno_leq seq2 seq1

-- For two numbers below 4096, `seqno_leq` is the comparison on the circle of 4096 numbers: seq2 is less than half of the
-- circle ahead of seq1, or just half of it and wrapped round.
pub seqno_leq_iff :
    (a b : ℕ)
    → a < 4096
    → b < 4096
    → (seqno_leq a b ≡ true) ↔ ((seqno_sub b a < 2048) ⊎ ((seqno_sub b a ≡ 2048) × (b < a)))
unfolding seqno_leq
seqno_leq_iff a b ha hb = ground arith

-- Of two numbers one comes first.
pub seqno_leq_total :
    (a b : ℕ) → a < 4096 → b < 4096 → (seqno_leq a b ≡ true) ⊎ (seqno_leq b a ≡ true)
unfolding seqno_leq
seqno_leq_total a b ha hb = ground arith

-- Each of two numbers comes before the other only if they are equal.
pub seqno_leq_antisymm :
    (a b : ℕ) → a < 4096 → b < 4096 → seqno_leq a b ≡ true → seqno_leq b a ≡ true → a ≡ b
unfolding seqno_leq
seqno_leq_antisymm a b ha hb h k = ground arith
