-- ===== src/Tx/Ledger.antt =====
-- The balance of the credits in WIFI/tx_msg.c: what ring_cp has counted in is what ring_ap has counted
-- out and what the colours still hold.
use uwe5631_aml.Common.{
  ℕ, zero, suc, ◌+◌, ◌-◌, ◌%◌, ◌^◌, ◌≤◌, ◌<◌, ◌≡◌, inl, inr, refl, ap, sym, ◌∙◌, Bool, true, false,
  ◌&&◌, some, ◌>>=◌, arith, List, [], ◌∷◌, map, leb, ◌==◌, Bool-cases, length, get_or,
  if◌then◌else◌,
}
use uwe5631_aml.Tx.{FlowControl, Priv, TxMsg, flow_at, sum}
use uwe5631_aml.Tx.Account.{
  add_credit, add_flows, atomic_sub, charge_colors, count_sent, flowcon, give_back, reset_credit,
  sprdwl_handle_tx_return, sprdwl_sdio_process_credit, sprdwl_wake_net_ifneed, sub_flows,
}
use uwe5631_aml.Tx.Colour.{total_flow}
use uwe5631_aml.Tx.Request.{HasColours}

-- `credits` have been counted in at most.
pub record IsLedger (credits : ℕ) (tx : TxMsg) : Type 0 where
  pub balance : tx.ring_cp ≡ tx.ring_ap + total_flow tx.flow_ctrl
  pub counted : tx.ring_cp ≤ credits
  pub colours : HasColours tx

-- No colour's number is above what the colour holds.
abbrev pub IsCovered : TxMsg → Type 0
IsCovered tx = (i : ℕ) → get_or tx.color_num i 0 ≤ flow_at tx.flow_ctrl i

add_flows-total :
    (ns : List ℕ) (cs : List FlowControl)
    → length ns ≡ length cs
    → (total_flow (add_flows ns cs) ≡ total_flow cs + sum ns)
      × (length (add_flows ns cs) ≡ length cs)
unfolding add_flows total_flow sum
add_flows-total [] [] e = (omega arith, refl)
add_flows-total [] (c ∷ cs) e = absurd (omega (arith, e))
add_flows-total (n ∷ ns) [] e = absurd (omega (arith, e))
add_flows-total (n ∷ ns) (c ∷ cs) e =
    let rest = add_flows-total ns cs (omega (arith, e)) in (omega (arith, rest.0), ap suc rest.1)

pub add_flows-flow_at :
    (ns : List ℕ) (cs : List FlowControl) (i : ℕ) → flow_at cs i ≤ flow_at (add_flows ns cs) i
unfolding add_flows flow_at
add_flows-flow_at [] cs i = omega arith
add_flows-flow_at (n ∷ ns) [] i = omega arith
add_flows-flow_at (n ∷ ns) (c ∷ cs) zero = omega arith
add_flows-flow_at (n ∷ ns) (c ∷ cs) (suc i) = add_flows-flow_at ns cs i

mod_small : (n : ℕ) → n < 2 ^ 64 → n % 2 ^ 64 ≡ n
mod_small n h = omega (arith, h)

-- An unsigned difference that does not go below zero
mod_sub : (n k : ℕ) → k ≤ n → n < 2 ^ 64 → (n + 2 ^ 64 - k) % 2 ^ 64 ≡ n - k
mod_sub n k h l = omega (arith, h, l)

give_back-sub :
    (cs : List FlowControl) (n : ℕ)
    → total_flow cs ≤ n
    → n < 2 ^ 64
    → give_back cs n ≡ n - total_flow cs
unfolding give_back total_flow
give_back-sub [] n h l = omega arith
give_back-sub (c ∷ cs) n h l = elim (Bool-cases (n == 0)) [
  | inl e ↦
      let z : n ≡ 0 = ground (arith, e) in
      rw e omega (arith, give_back-sub cs n (omega (arith, z, h)) l, z, h)
  | inr e ↦
      let less = mod_sub n c.flow (omega (arith, h)) l in
      let rest = give_back-sub cs (n - c.flow) (omega (arith, h)) (omega (arith, l)) in
      rw (e, less) omega (arith, rest)
]

pub add_credit-IsLedger :
    (credits : ℕ) (flow : List ℕ) (tx : TxMsg)
    → length flow ≡ 4
    → credits + sum flow < 2 ^ 64
    → IsLedger credits tx
    → IsLedger (credits + sum flow) (add_credit flow tx)
unfolding add_credit
add_credit-IsLedger credits flow tx l b h =
    let added = add_flows-total flow tx.flow_ctrl (omega (arith, l, h.colours.flows)) in
    let wraps = mod_small (tx.ring_cp + sum flow) (omega (arith, b, h.counted)) in
    record {
      balance = omega (arith, wraps, added.0, h.balance);
      counted = omega (arith, wraps, h.counted);
      colours = record { flows = added.1 ∙ h.colours.flows; nums = h.colours.nums };
    }

empty-total :
    (cs : List FlowControl)
    → (total_flow (map {A = FlowControl} {B = FlowControl} (λ c. record c { flow = 0 }) cs) ≡ 0)
      × (length (map {A = FlowControl} {B = FlowControl} (λ c. record c { flow = 0 }) cs)
          ≡ length cs)
unfolding total_flow
empty-total [] = (refl, refl)
empty-total (c ∷ cs) = let rest = empty-total cs in (omega (arith, rest.0), ap suc rest.1)

reset_credit-IsLedger :
    (credits : ℕ) (tx : TxMsg)
    → credits < 2 ^ 64
    → IsLedger credits tx
    → IsLedger credits (reset_credit tx)
unfolding reset_credit
reset_credit-IsLedger credits tx b h =
    let back =
      give_back-sub tx.flow_ctrl tx.ring_cp (omega (arith, h.balance))
        (omega (arith, b, h.counted)) in
    let emptied = empty-total tx.flow_ctrl in
    record {
      balance = omega (arith, back, emptied.0, h.balance);
      counted = omega (arith, back, h.counted);
      colours = record { flows = emptied.1 ∙ h.colours.flows; nums = refl };
    }

pub sprdwl_sdio_process_credit-IsLedger :
    (credits : ℕ) (flow : List ℕ) (tx : TxMsg)
    → length flow ≡ 4
    → credits + sum flow < 2 ^ 64
    → IsLedger credits tx
    → IsLedger (credits + sum flow) (sprdwl_sdio_process_credit (flowcon flow) tx).1
unfolding sprdwl_sdio_process_credit
sprdwl_sdio_process_credit-IsLedger credits flow tx l b h = go (sum flow == 0)
  where
    added : IsLedger (credits + sum flow) (add_credit flow tx)
    added = add_credit-IsLedger credits flow tx l b h

    go :
        (r : Bool)
        → IsLedger
            (credits + sum flow)
            (if r then reset_credit (add_credit flow tx) else add_credit flow tx)
    go true = reset_credit-IsLedger (credits + sum flow) _ b added
    go false = added

-- Where the colours hold the numbers, all of them can be taken off.
record TakenOff (ns : List ℕ) (cs : List FlowControl) : Type 0 where
  pub left : List FlowControl
  pub is_left : sub_flows ns cs ≡ some left
  pub total : total_flow left + sum ns ≡ total_flow cs
  pub size : length left ≡ length cs

sub_flows-TakenOff :
    (ns : List ℕ) (cs : List FlowControl)
    → length ns ≡ length cs
    → ((i : ℕ) → get_or ns i 0 ≤ flow_at cs i)
    → TakenOff ns cs
unfolding sub_flows atomic_sub flow_at total_flow sum
sub_flows-TakenOff [] cs l h = record {
  left = cs;
  is_left = refl;
  total = omega arith;
  size = refl;
}
sub_flows-TakenOff (n ∷ ns) [] l h = absurd (omega (arith, l))
sub_flows-TakenOff (n ∷ ns) (c ∷ cs) l h =
    let here : leb n c.flow ≡ true = ground (arith, h 0) in
    let rest = sub_flows-TakenOff ns cs (omega (arith, l)) (λ i. h (suc i)) in
    record {
      left = record c { flow = c.flow - n } ∷ rest.left;
      is_left = rw (here, rest.is_left) refl;
      total = omega (arith, rest.total, h 0);
      size = ap suc rest.size;
    }

-- What is left of a granted request, when the packets have been sent
pub record IsSent (credits n : ℕ) (tx sent : TxMsg) : Type 0 where
  pub ledger : IsLedger credits sent
  pub charged : total_flow sent.flow_ctrl + n ≡ total_flow tx.flow_ctrl
  pub released : sent.pool_ref + n ≡ tx.pool_ref

-- On a device with credits, where ring_cp is ring_ap and what the colours hold together and is at most
-- `credits` < 2^64, there are four colours with four numbers, each number is at most what its colour
-- holds, the numbers add up to the packets that were sent, and `ref` counts at least as many packets:
-- then the return of these packets without an error takes no counter of a colour below zero, what the
-- colours hold and `ref` fall by the number of packets, and ring_cp is ring_ap and what the colours
-- hold together again.
pub sprdwl_handle_tx_return-IsSent :
    (priv : Priv) (credits n : ℕ) (tx : TxMsg)
    → priv.no_credit ≡ false
    → credits < 2 ^ 64
    → IsLedger credits tx
    → IsCovered tx
    → sum tx.color_num ≡ n
    → n ≤ tx.pool_ref
    → (sent : TxMsg) × (sprdwl_handle_tx_return priv n false tx ≡ some sent)
      × IsSent credits n tx sent
unfolding sprdwl_handle_tx_return atomic_sub count_sent charge_colors sprdwl_wake_net_ifneed
sprdwl_handle_tx_return-IsSent priv credits n tx q b h c e l =
    let enough : leb n tx.pool_ref ≡ true = ground (arith, l) in
    rw (enough, q) (go (tx.pool_stopped && leb (tx.pool_ref - n) 19997))
  where
    counted : TxMsg
    counted = record tx { ring_ap = (tx.ring_ap + n) % 2 ^ 64; pool_ref = tx.pool_ref - n }

    woken : Bool → TxMsg
    woken r =
        if r
        then record counted { pool_stopped = false; net_start_cnt = suc tx.net_start_cnt }
        else counted

    off : TakenOff tx.color_num tx.flow_ctrl
    off = sub_flows-TakenOff tx.color_num tx.flow_ctrl (h.colours.nums ∙ sym h.colours.flows) c

    wraps : (tx.ring_ap + n) % 2 ^ 64 ≡ tx.ring_ap + n
    wraps = mod_small (tx.ring_ap + n) (omega (arith, off.total, e, b, h.balance, h.counted))

    result :
        (sent : TxMsg)
        → sent.flow_ctrl ≡ off.left
        → sent.color_num ≡ tx.color_num
        → sent.ring_cp ≡ tx.ring_cp
        → sent.ring_ap ≡ (tx.ring_ap + n) % 2 ^ 64
        → sent.pool_ref ≡ tx.pool_ref - n
        → IsSent credits n tx sent
    result sent f k p a r =
        let total : total_flow sent.flow_ctrl + n ≡ total_flow tx.flow_ctrl =
          omega (arith, ap total_flow f, off.total, e) in
        record {
          ledger = record {
            balance = omega (arith, p, a, wraps, total, h.balance);
            counted = omega (arith, p, h.counted);
            colours = record {
              flows = ap (λ (t : List FlowControl). length t) f ∙ (off.size ∙ h.colours.flows);
              nums = ap (λ (t : List ℕ). length t) k ∙ h.colours.nums;
            };
          };
          charged = total;
          released = omega (arith, r, l);
        }

    go :
        (r : Bool)
        → (sent : TxMsg) × ((sub_flows (woken r).color_num (woken r).flow_ctrl >>= λ flows.
              some (record (woken r) { flow_ctrl = flows }))
            ≡ some sent)
          × IsSent credits n tx sent
    go true = (
      record (woken true) { flow_ctrl = off.left },
      rw off.is_left refl,
      result _ refl refl refl refl refl,
    )
    go false = (
      record (woken false) { flow_ctrl = off.left },
      rw off.is_left refl,
      result _ refl refl refl refl refl,
    )
