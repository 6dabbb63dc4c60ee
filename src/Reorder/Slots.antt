-- ===== src/Reorder/Slots.antt =====
-- What the slots of a reorder buffer hold, and how a write to one slot changes that.
use uwe5631_aml.Common.{
  ℕ, zero, suc, ◌+◌, ◌≤◌, ◌<◌, ◌≡◌, refl, false, not, List, [], ◌∷◌, arith, ◌==◌, flag, length,
  get_or, set,
}
use uwe5631_aml.Common.{count, length-set}
use uwe5631_aml.Reorder.{RxBaPkt, Session, zero_pkt}

-- How many slots hold a packet.
abbrev pub is_used : RxBaPkt → ℕ
is_used p = flag (not (p.desc.msdu_num == 0))

abbrev pub used : List RxBaPkt → ℕ
used [] = 0
used (p ∷ ps) = is_used p + used ps

-- How often the buffer `x` stands in the slots' chains.
abbrev pub held : ℕ → List RxBaPkt → ℕ
held x [] = 0
held x (p ∷ ps) = count x p.skb + held x ps

-- A slot has at most `most` MSDUs, and one without a packet has no chain and is not complete.
abbrev pub IsSlot : ℕ → RxBaPkt → Type 0
IsSlot most p =
    (p.desc.msdu_num ≤ most) × (p.desc.msdu_num ≡ 0 → (p.skb ≡ []) × (p.desc.last ≡ false))

abbrev pub AllSlots : ℕ → List RxBaPkt → Type 0
AllSlots most [] = Unit {0}
AllSlots most (p ∷ ps) = IsSlot most p × AllSlots most ps

pub zero_pkt-IsSlot : (most : ℕ) → IsSlot most zero_pkt
zero_pkt-IsSlot most = (omega arith, λ e. (refl, refl))

pub AllSlots-mono : (most : ℕ) (ps : List RxBaPkt) → AllSlots most ps → AllSlots (most + 1) ps
AllSlots-mono most [] h = tt
AllSlots-mono most (p ∷ ps) h = ((omega (arith, h.0.0), h.0.1), AllSlots-mono most ps h.1)

-- Where the buffer `x` is: delivered, freed or in a slot.
abbrev pub copies : ℕ → Session → ℕ
copies x t = count x t.skbs.skb_list + count x t.skbs.freed + held x t.rx_ba.reorder_buffer

pub used-le-length : (ps : List RxBaPkt) → used ps ≤ length ps
used-le-length [] = omega arith
used-le-length (p ∷ ps) = ground (arith, used-le-length ps)

pub used-set :
    (ps : List RxBaPkt) (i : ℕ) (q : RxBaPkt)
    → i < length ps
    → used (set ps i q) + is_used (get_or ps i zero_pkt) ≡ used ps + is_used q
used-set [] i q h = absurd (omega arith)
used-set (p ∷ ps) zero q h = omega arith
used-set (p ∷ ps) (suc i) q h = omega (arith, used-set ps i q (omega arith))

pub held-set :
    (x : ℕ) (ps : List RxBaPkt) (i : ℕ) (q : RxBaPkt)
    → i < length ps
    → held x (set ps i q) + count x (get_or ps i zero_pkt).skb ≡ held x ps + count x q.skb
held-set x [] i q h = absurd (omega arith)
held-set x (p ∷ ps) zero q h = omega arith
held-set x (p ∷ ps) (suc i) q h = omega (arith, held-set x ps i q (omega arith))

pub AllSlots-get :
    (most : ℕ) (ps : List RxBaPkt) (i : ℕ) → AllSlots most ps → IsSlot most (get_or ps i zero_pkt)
AllSlots-get most [] i h = zero_pkt-IsSlot most
AllSlots-get most (p ∷ ps) zero h = h.0
AllSlots-get most (p ∷ ps) (suc i) h = AllSlots-get most ps i h.1

pub AllSlots-set :
    (most : ℕ) (ps : List RxBaPkt) (i : ℕ) (q : RxBaPkt)
    → IsSlot most q
    → AllSlots most ps
    → AllSlots most (set ps i q)
AllSlots-set most [] i q k h = tt
AllSlots-set most (p ∷ ps) zero q k h = (k, h.1)
AllSlots-set most (p ∷ ps) (suc i) q k h = (h.0, AllSlots-set most ps i q k h.1)

-- What a buffer is whose slot `i` was written.
pub record Wrote (x i : ℕ) (ps : List RxBaPkt) (q : RxBaPkt) (qs : List RxBaPkt) : Type 0 where
  pub chains : held x qs + count x (get_or ps i zero_pkt).skb ≡ held x ps + count x q.skb
  pub count_used : used qs + is_used (get_or ps i zero_pkt) ≡ used ps + is_used q
  pub size : length qs ≡ length ps
  pub slots : (most : ℕ) → IsSlot most q → AllSlots most ps → AllSlots most qs

pub set-Wrote :
    (x i : ℕ) (ps : List RxBaPkt) (q : RxBaPkt) → i < length ps → Wrote x i ps q (set ps i q)
set-Wrote x i ps q h = record {
  chains = held-set x ps i q h;
  count_used = used-set ps i q h;
  size = length-set ps i q;
  slots = λ most. AllSlots-set most ps i q;
}
