-- ===== src/Tx/Sound.antt =====
-- What holds in each run of the steps on the credits of WIFI/tx_msg.c.
use uwe5631_aml.Common.{
  ℕ, zero, suc, ◌+◌, ◌^◌, ◌≤◌, ◌<◌, ◌≡◌, ◌≢◌, ◌⊎◌, inl, inr, refl, ap, sym, ◌∙◌, Bool, true, false,
  Option, none, some, arith, List, [], ◌∷◌, ◌==◌, Bool-cases, length, if◌then◌else◌,
}
use uwe5631_aml.Tx.{
  FlowControl, Priv, TxMsg, clear_color_num, flow_at, mode_none, sprdwl_fc_get_send_num, sum,
  tx_init,
}
use uwe5631_aml.Tx.Account.{
  add_credit, all_closed, data_special, flowcon, handle_tx_status_after_close, new_colors,
  share_first, share_mode, sprdwl_fc_add_share_credit, sprdwl_handle_tx_return,
  sprdwl_sdio_process_credit,
}
use uwe5631_aml.Tx.Colour.{total_flow}
use uwe5631_aml.Tx.Ledger.{
  IsCovered, IsLedger, add_credit-IsLedger, add_flows-flow_at, sprdwl_handle_tx_return-IsSent,
  sprdwl_sdio_process_credit-IsLedger,
}
use uwe5631_aml.Tx.Request.{sprdwl_fc_get_send_num-IsGrant, sprdwl_fc_get_send_num-LeavesRest}
use uwe5631_aml.Tx.Run.{
  Run, alloc, close, close_one, credit_data, credit_event, refused, request, reset_event, return,
  share, start,
}

-- What a pending request has set aside
abbrev IsPending : Option ℕ → TxMsg → Type 0
IsPending none tx = Unit {0}
IsPending (some n) tx = (sum tx.color_num ≡ n) × IsCovered tx × (n ≤ tx.pool_ref)

pub record IsSound (credits : ℕ) (pending : Option ℕ) (tx : TxMsg) : Type 0 where
  pub limit : credits < 2 ^ 64
  pub ledger : IsLedger credits tx
  pub set_aside : IsPending pending tx

-- A change of the colours' modes
pub record SameCredits (cs ds : List FlowControl) : Type 0 where
  pub size : length ds ≡ length cs
  pub total : total_flow ds ≡ total_flow cs
  pub flow : (i : ℕ) → flow_at ds i ≡ flow_at cs i

cons-SameCredits :
    (c d : FlowControl) (cs ds : List FlowControl)
    → d.flow ≡ c.flow
    → SameCredits cs ds
    → SameCredits (c ∷ cs) (d ∷ ds)
unfolding total_flow flow_at
cons-SameCredits c d cs ds e s = record {
  size = ap suc s.size;
  total = omega (arith, e, s.total);
  flow =
      λ i. elim i as (λ k. flow_at (d ∷ ds) k ≡ flow_at (c ∷ cs) k) [ zero ↦ e | suc j ↦ s.flow j ];
}

same-SameCredits : (cs : List FlowControl) → SameCredits cs cs
same-SameCredits cs = record { size = refl; total = refl; flow = λ i. refl }

share_mode-SameCredits : (mode : ℕ) (cs : List FlowControl) → SameCredits cs (share_mode mode cs)
unfolding share_mode
share_mode-SameCredits mode [] = same-SameCredits []
share_mode-SameCredits mode (c ∷ cs) =
    cons-SameCredits c _ cs _ (go (c.mode == mode)) (share_mode-SameCredits mode cs)
  where
    go : (b : Bool) → (if b then record c { mode = mode_none } else c).flow ≡ c.flow
    go true = refl
    go false = refl

share_first-SameCredits : (mode : ℕ) (cs : List FlowControl) → SameCredits cs (share_first mode cs)
unfolding share_first
share_first-SameCredits mode [] = same-SameCredits []
share_first-SameCredits mode (c ∷ cs) = elim (Bool-cases (c.mode == mode)) [
  | inl e ↦ rw e (cons-SameCredits c _ cs cs refl (same-SameCredits cs))
  | inr e ↦ rw e (cons-SameCredits c c cs _ refl (share_first-SameCredits mode cs))
]

recolour-IsSound :
    {credits : ℕ} {pending : Option ℕ} {tx : TxMsg} (cs : List FlowControl)
    → SameCredits tx.flow_ctrl cs
    → IsSound credits pending tx
    → IsSound credits pending (record tx { flow_ctrl = cs })
recolour-IsSound {pending} {tx} cs s h = record {
  limit = h.limit;
  ledger = record {
    balance = omega (arith, h.ledger.balance, s.total);
    counted = h.ledger.counted;
    colours = record { flows = s.size ∙ h.ledger.colours.flows; nums = h.ledger.colours.nums };
  };
  set_aside = go pending h.set_aside;
}
  where
    go : (p : Option ℕ) → IsPending p tx → IsPending p (record tx { flow_ctrl = cs })
    go none k = tt
    go (some n) k = (k.0, λ i. omega (arith, s.flow i, k.1 i), k.2)

pub new_colors-empty :
    (i : ℕ) (cs : List FlowControl)
    → (total_flow (new_colors i cs) ≡ 0) × (length (new_colors i cs) ≡ length cs)
unfolding new_colors total_flow
new_colors-empty i [] = (refl, refl)
new_colors-empty i (c ∷ cs) =
    let rest = new_colors-empty (suc i) cs in (omega (arith, rest.0), ap suc rest.1)

alloc-IsSound :
    {credits : ℕ} {pending : Option ℕ} {tx : TxMsg}
    → IsSound credits pending tx
    → IsSound credits pending (record tx { pool_ref = suc tx.pool_ref })
alloc-IsSound {pending} {tx} h = record {
  limit = h.limit;
  ledger = record {
    balance = h.ledger.balance;
    counted = h.ledger.counted;
    colours = record { flows = h.ledger.colours.flows; nums = h.ledger.colours.nums };
  };
  set_aside = go pending h.set_aside;
}
  where
    go : (p : Option ℕ) → IsPending p tx → IsPending p (record tx { pool_ref = suc tx.pool_ref })
    go none k = tt
    go (some n) k = (k.0, k.1, omega (arith, k.2))

credit_data-IsSound :
    {credits : ℕ} {pending : Option ℕ} {tx : TxMsg} (flow : List ℕ)
    → length flow ≡ 4
    → credits + sum flow < 2 ^ 64
    → IsSound credits pending tx
    → IsSound
        (credits + sum flow)
        pending
        (sprdwl_sdio_process_credit (data_special false flow) tx).1
unfolding sprdwl_sdio_process_credit add_credit
credit_data-IsSound {credits} {pending} {tx} flow l b h = record {
  limit = b;
  ledger = add_credit-IsLedger credits flow tx l b h.ledger;
  set_aside = go pending h.set_aside;
}
  where
    go : (p : Option ℕ) → IsPending p tx → IsPending p (add_credit flow tx)
    go none k = tt
    go (some n) k = (k.0, λ i. omega (arith, add_flows-flow_at flow tx.flow_ctrl i, k.1 i), k.2)

credit_event-IsSound :
    {credits : ℕ} {pending : Option ℕ} {tx : TxMsg} (flow : List ℕ)
    → length flow ≡ 4
    → 0 < sum flow
    → credits + sum flow < 2 ^ 64
    → IsSound credits pending tx
    → IsSound (credits + sum flow) pending (sprdwl_sdio_process_credit (flowcon flow) tx).1
unfolding sprdwl_sdio_process_credit
credit_event-IsSound flow l p b h =
    let some_credit : (sum flow == 0) ≡ false = ground (arith, p) in
    rw some_credit (credit_data-IsSound flow l b h)

refused-IsSound :
    {credits : ℕ} {tx : TxMsg} (priv : Priv) (mode data_num : ℕ)
    → IsSound credits none tx
    → IsSound credits none (sprdwl_fc_get_send_num priv mode data_num tx).tx
refused-IsSound {tx} priv mode data_num h =
    let left = sprdwl_fc_get_send_num-LeavesRest priv mode data_num tx h.ledger.colours in
    record {
      limit = h.limit;
      ledger = record {
        balance = omega (arith, left.ring_cp, left.ring_ap, left.total, h.ledger.balance);
        counted = omega (arith, left.ring_cp, h.ledger.counted);
        colours = left.colours;
      };
      set_aside = tt;
    }

return-IsSound :
    {credits n : ℕ} {tx sent : TxMsg} (priv : Priv) (failed : Bool)
    → priv.no_credit ≡ false
    → sprdwl_handle_tx_return priv n failed tx ≡ some sent
    → IsSound credits (some n) tx
    → IsSound credits none sent
unfolding sprdwl_handle_tx_return clear_color_num
return-IsSound {tx} {sent} priv true q e h =
    let same : clear_color_num tx ≡ sent = cc e in
    rw (sym same) record {
      limit = h.limit;
      ledger = record {
        balance = h.ledger.balance;
        counted = h.ledger.counted;
        colours = record { flows = h.ledger.colours.flows; nums = refl };
      };
      set_aside = tt;
    }
return-IsSound {credits} {n} {tx} {sent} priv false q e h =
    let r =
      sprdwl_handle_tx_return-IsSent priv credits n tx q h.limit h.ledger h.set_aside.1
        h.set_aside.0 h.set_aside.2 in
    let same : r.0 ≡ sent = cc (e, r.1) in
    rw (sym same) record { limit = h.limit; ledger = r.2.ledger; set_aside = tt }

close-IsSound :
    {credits : ℕ} {pending : Option ℕ} {tx : TxMsg} (priv : Priv) (mode : ℕ)
    → (pending ≡ none) ⊎ (all_closed priv 7 1 ≡ false)
    → IsSound credits pending tx
    → IsSound credits pending (handle_tx_status_after_close priv mode tx)
unfolding handle_tx_status_after_close
close-IsSound {credits} {pending} {tx} priv mode o h = go (all_closed priv 7 1) refl
  where
    emptied : TxMsg
    emptied = record tx { flow_ctrl = new_colors 0 tx.flow_ctrl; ring_cp = 0; ring_ap = 0 }

    none_pending : (pending ≡ none) ⊎ (true ≡ false) → IsPending pending emptied
    none_pending (inl e) = rw e tt
    none_pending (inr e) = absurd (cc e)

    go :
        (b : Bool)
        → all_closed priv 7 1 ≡ b
        → IsSound credits pending
            (if b then emptied else record tx { flow_ctrl = share_mode mode tx.flow_ctrl })
    go true e =
        let empty = new_colors-empty 0 tx.flow_ctrl in
        record {
          limit = h.limit;
          ledger = record {
            balance = omega (arith, empty.0);
            counted = omega arith;
            colours = record {
              flows = empty.1 ∙ h.ledger.colours.flows;
              nums = h.ledger.colours.nums;
            };
          };
          set_aside = none_pending (rw (sym e) o);
        }
    go false e = recolour-IsSound _ (share_mode-SameCredits mode tx.flow_ctrl) h

request-IsSound :
    {credits : ℕ} {tx : TxMsg} (priv : Priv) (mode data_num n : ℕ)
    → priv.pcie ≡ false
    → priv.no_credit ≡ false
    → mode ≢ mode_none
    → 0 < data_num
    → data_num ≤ tx.pool_ref
    → (sprdwl_fc_get_send_num priv mode data_num tx).num ≡ some n
    → IsSound credits none tx
    → IsSound credits (some n) (sprdwl_fc_get_send_num priv mode data_num tx).tx
request-IsSound {credits} {tx} priv mode data_num n p q m pos l e h =
    let grant =
      sprdwl_fc_get_send_num-IsGrant priv mode data_num tx n p q m pos h.ledger.colours e in
    let left = sprdwl_fc_get_send_num-LeavesRest priv mode data_num tx h.ledger.colours in
    record {
      limit = h.limit;
      ledger = record {
        balance = omega (arith, left.ring_cp, left.ring_ap, grant.1, h.ledger.balance);
        counted = omega (arith, left.ring_cp, h.ledger.counted);
        colours = left.colours;
      };
      set_aside =
          (grant.0.total, grant.0.covered, omega (arith, grant.0.bounded, left.pool_ref, l));
    }

-- On a device that is not attached by PCIe and has credits, where the firmware grants fewer than 2^64
-- credits in all, packets that are asked for are counted by `ref`, and no reset of the credits and no
-- close of the last mode falls between a granted request and the return of its packets: however else
-- the steps are ordered, ring_cp is ring_ap and what the colours hold together, and while a request is
-- pending, the numbers that it has set aside add up to what it was granted, each is at most what its
-- colour holds, and `ref` counts at least as many packets.
pub Run-IsSound :
    {credits : ℕ} {pending : Option ℕ} {tx : TxMsg}
    → Run credits pending tx
    → IsSound credits pending tx
unfolding tx_init total_flow sprdwl_fc_add_share_credit
Run-IsSound start = record {
  limit = omega arith;
  ledger = record {
    balance = refl;
    counted = omega arith;
    colours = record { flows = refl; nums = refl };
  };
  set_aside = tt;
}
Run-IsSound (alloc r) = alloc-IsSound (Run-IsSound r)
Run-IsSound (credit_data flow l b r) = credit_data-IsSound flow l b (Run-IsSound r)
Run-IsSound (credit_event flow l p b r) = credit_event-IsSound flow l p b (Run-IsSound r)
Run-IsSound (reset_event {credits} {tx} flow l b r) =
    let h = Run-IsSound r in
    record {
      limit = b;
      ledger = sprdwl_sdio_process_credit-IsLedger credits flow tx l b h.ledger;
      set_aside = tt;
    }
Run-IsSound (request priv mode data_num n p q m pos l e r) =
    request-IsSound priv mode data_num n p q m pos l e (Run-IsSound r)
Run-IsSound (refused priv mode data_num e r) = refused-IsSound priv mode data_num (Run-IsSound r)
Run-IsSound (return priv failed q e r) = return-IsSound priv failed q e (Run-IsSound r)
Run-IsSound (close priv mode r) = close-IsSound priv mode (inl refl) (Run-IsSound r)
Run-IsSound (close_one priv mode a r) = close-IsSound priv mode (inr a) (Run-IsSound r)
Run-IsSound (share mode r) = recolour-IsSound _ (share_first-SameCredits mode _) (Run-IsSound r)

-- So the return of the packets of a pending request goes through, with an error or without.
Run-returns :
    {credits n : ℕ} {tx : TxMsg} (priv : Priv) (failed : Bool)
    → priv.no_credit ≡ false
    → Run credits (some n) tx
    → (sent : TxMsg) × (sprdwl_handle_tx_return priv n failed tx ≡ some sent)
unfolding sprdwl_handle_tx_return
Run-returns priv true q r = (_, refl)
Run-returns {credits} {n} {tx} priv false q r =
    let h = Run-IsSound r in
    let s =
      sprdwl_handle_tx_return-IsSent priv credits n tx q h.limit h.ledger h.set_aside.1
        h.set_aside.0 h.set_aside.2 in
    (s.0, s.1)
