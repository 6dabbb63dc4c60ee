-- ===== src/Tx/Request.antt =====
-- The requests sprdwl_fc_get_send_num and sprdwl_fc_test_send_num of WIFI/tx_msg.c as a whole.
use uwe5631_aml.Common.{
  ℕ, ◌-◌, ◌≤◌, ◌<◌, ◌≡◌, ◌≢◌, refl, ap, ◌∙◌, Bool, true, false, ◌||◌, Option, none, some, arith,
  List, leb, ◌==◌, length, replicate, min, length-set, if◌then◌else◌,
}
use uwe5631_aml.Tx.{
  Answer, FlowControl, Priv, TxMsg, clear_color_num, flow_at, free_closed, guard_num, is_closed,
  mode_none, sprdwl_fc_find_color_per_mode, sprdwl_fc_get_send_num, sprdwl_fc_get_shared_num,
  sprdwl_fc_test_send_num, sum, take_credit, take_exclusive, take_shared, test_credit, use_color,
}
use uwe5631_aml.Tx.Colour.{IsFound, sprdwl_fc_find_color_per_mode-IsFound, total_flow}
use uwe5631_aml.Tx.Grant.{IsGrant, granted, take_credit-IsGrant, take_credit-num}
use uwe5631_aml.Tx.Shares.{shared_loop-length}

-- A state in which the colours and their numbers are four each
pub record HasColours (tx : TxMsg) : Type 0 where
  pub flows : length tx.flow_ctrl ≡ 4
  pub nums : length tx.color_num ≡ 4

HasColours-size : (tx : TxMsg) → HasColours tx → length tx.flow_ctrl ≤ 4
HasColours-size tx h = omega (arith, h.flows)

-- Two requests with one result and one assignment of colours
abbrev Agree : Answer → Answer → Type 0
Agree a b = (a.num ≡ b.num) × (a.tx.flow_ctrl ≡ b.tx.flow_ctrl)

guard_num-Agree :
    (priv : Priv) (mode data_num : ℕ) (tx : TxMsg) (a b : Answer)
    → ((data_num == 0 || mode == mode_none) ≡ false → Agree a b)
    → Agree (guard_num priv mode data_num tx a) (guard_num priv mode data_num tx b)
guard_num-Agree priv mode data_num tx a b h =
    go (data_num == 0 || mode == mode_none) priv.pcie priv.no_credit h
  where
    guarded : Bool → Bool → Bool → Answer → Answer
    guarded p q r c =
        if p
        then record { num = some 0; tx = tx }
        else if q
        then record { num = some data_num; tx = tx }
        else if r
        then record { num = some (min 100 data_num); tx = tx }
        else c

    go : (p q r : Bool) → (p ≡ false → Agree a b) → Agree (guarded p q r a) (guarded p q r b)
    go true q r k = (refl, refl)
    go false true r k = (refl, refl)
    go false false true k = (refl, refl)
    go false false false k = k refl

take_credit-flow_ctrl :
    (data_num i : ℕ) (tx : TxMsg) → (take_credit data_num i tx).tx.flow_ctrl ≡ tx.flow_ctrl
unfolding take_credit take_exclusive take_shared
take_credit-flow_ctrl data_num i tx = go (leb data_num (flow_at tx.flow_ctrl i))
  where
    go :
        (b : Bool)
        → (if b then take_exclusive data_num i tx else take_shared data_num i tx).tx.flow_ctrl
          ≡ tx.flow_ctrl
    go true = refl
    go false = refl

-- What a request leaves alone
pub record LeavesRest (tx after : TxMsg) : Type 0 where
  pub colours : HasColours after
  pub ring_cp : after.ring_cp ≡ tx.ring_cp
  pub ring_ap : after.ring_ap ≡ tx.ring_ap
  pub pool_ref : after.pool_ref ≡ tx.pool_ref
  pub total : total_flow after.flow_ctrl ≡ total_flow tx.flow_ctrl

take_credit-LeavesRest :
    (data_num i : ℕ) (tx : TxMsg) → HasColours tx → LeavesRest tx (take_credit data_num i tx).tx
unfolding take_credit take_exclusive take_shared sprdwl_fc_get_shared_num
take_credit-LeavesRest data_num i tx h = go (leb data_num (flow_at tx.flow_ctrl i))
  where
    go :
        (b : Bool)
        → LeavesRest tx (if b then take_exclusive data_num i tx else take_shared data_num i tx).tx
    go true = record {
      colours = record { flows = h.flows; nums = length-set tx.color_num i _ ∙ h.nums };
      ring_cp = refl;
      ring_ap = refl;
      pool_ref = refl;
      total = refl;
    }
    go false = record {
      colours = record {
        flows = h.flows;
        nums =
            length-set _ i _
            ∙ (shared_loop-length (data_num - flow_at tx.flow_ctrl i) 0 tx.flow_ctrl tx.color_num
                ∙ h.nums);
      };
      ring_cp = refl;
      ring_ap = refl;
      pool_ref = refl;
      total = refl;
    }

module _ (priv : Priv) (mode data_num : ℕ) (tx : TxMsg) where
  -- With four colours, sprdwl_fc_get_send_num grants what sprdwl_fc_test_send_num says, and both leave
  -- the colours assigned in the same way.
  pub sprdwl_fc_get_send_num-test :
      HasColours tx
      → ((sprdwl_fc_get_send_num priv mode data_num tx).num
          ≡ (sprdwl_fc_test_send_num priv mode data_num tx).num)
        × ((sprdwl_fc_get_send_num priv mode data_num tx).tx.flow_ctrl
            ≡ (sprdwl_fc_test_send_num priv mode data_num tx).tx.flow_ctrl)
  unfolding sprdwl_fc_get_send_num sprdwl_fc_test_send_num clear_color_num test_credit granted
  sprdwl_fc_get_send_num-test h = guard_num-Agree priv mode data_num tx _ _ λ p.
      let found = sprdwl_fc_find_color_per_mode-IsFound priv mode tx.flow_ctrl in
      go (sprdwl_fc_find_color_per_mode priv mode tx.flow_ctrl)
        (omega (arith, found.same.size, h.flows)) (ground (arith, p))
    where
      go :
          (r : Option ℕ × List FlowControl)
          → length r.1 ≤ 4
          → 0 < data_num
          → Agree
              (use_color (take_credit (min 100 data_num)) r (clear_color_num tx))
              (use_color (test_credit (min 100 data_num)) r tx)
      go (none, cs) l pos = (refl, refl)
      go (some i, cs) l pos = (
        take_credit-num (min 100 data_num) i _ (omega (arith, pos)) l,
        take_credit-flow_ctrl (min 100 data_num) i _,
      )

  -- A request changes no counter and leaves the colours four.
  pub sprdwl_fc_get_send_num-LeavesRest :
      HasColours tx → LeavesRest tx (sprdwl_fc_get_send_num priv mode data_num tx).tx
  unfolding sprdwl_fc_get_send_num clear_color_num
  sprdwl_fc_get_send_num-LeavesRest h =
      guard_num-LeavesRest (data_num == 0 || mode == mode_none) priv.pcie priv.no_credit
    where
      cleared : TxMsg
      cleared = record tx { color_num = replicate 4 0 }

      answer : (r : Option ℕ × List FlowControl) → Answer
      answer r = use_color (take_credit (min 100 data_num)) r cleared

      asked :
          (r : Option ℕ × List FlowControl)
          → length r.1 ≡ 4
          → total_flow r.1 ≡ total_flow tx.flow_ctrl
          → LeavesRest tx (answer r).tx
      asked (none, cs) l t = record {
        colours = record { flows = l; nums = refl };
        ring_cp = refl;
        ring_ap = refl;
        pool_ref = refl;
        total = t;
      }
      asked (some i, cs) l t =
          let rest =
            take_credit-LeavesRest (min 100 data_num) i (record cleared { flow_ctrl = cs })
              (record { flows = l; nums = refl }) in
          record {
            colours = rest.colours;
            ring_cp = rest.ring_cp;
            ring_ap = rest.ring_ap;
            pool_ref = rest.pool_ref;
            total = rest.total ∙ t;
          }

      guard_num-LeavesRest :
          (p q r : Bool)
          → LeavesRest tx
              (if p
                then record { num = some 0; tx = tx }
                else if q
                then record { num = some data_num; tx = tx }
                else if r
                then record { num = some (min 100 data_num); tx = tx }
                else answer (sprdwl_fc_find_color_per_mode priv mode tx.flow_ctrl)).tx
      guard_num-LeavesRest true q r = record {
        colours = h;
        ring_cp = refl;
        ring_ap = refl;
        pool_ref = refl;
        total = refl;
      }
      guard_num-LeavesRest false true r = record {
        colours = h;
        ring_cp = refl;
        ring_ap = refl;
        pool_ref = refl;
        total = refl;
      }
      guard_num-LeavesRest false false true = record {
        colours = h;
        ring_cp = refl;
        ring_ap = refl;
        pool_ref = refl;
        total = refl;
      }
      guard_num-LeavesRest false false false =
          asked _
            ((sprdwl_fc_find_color_per_mode-IsFound priv mode tx.flow_ctrl).same.size ∙ h.flows)
            (sprdwl_fc_find_color_per_mode-IsFound priv mode tx.flow_ctrl).same.total

  -- Where the device is not attached by PCIe and has credits, with four colours and four numbers and
  -- for a mode that is not SPRDWL_MODE_NONE: a request for one packet or more that is granted `n` gets 1 to 100 packets and no more than it asked for. The colours' numbers add
  -- up to `n`, each is at most what its colour holds, and only colours of the mode and shared ones
  -- have one. The request leaves the credits that the colours hold in all.
  pub sprdwl_fc_get_send_num-IsGrant :
      (n : ℕ)
      → priv.pcie ≡ false
      → priv.no_credit ≡ false
      → mode ≢ mode_none
      → 0 < data_num
      → HasColours tx
      → (sprdwl_fc_get_send_num priv mode data_num tx).num ≡ some n
      → IsGrant mode (min 100 data_num) n (sprdwl_fc_get_send_num priv mode data_num tx).tx
        × (total_flow (sprdwl_fc_get_send_num priv mode data_num tx).tx.flow_ctrl
            ≡ total_flow tx.flow_ctrl)
  unfolding sprdwl_fc_get_send_num clear_color_num sum sprdwl_fc_find_color_per_mode free_closed
      is_closed
  sprdwl_fc_get_send_num-IsGrant n p q m pos h =
      let guarded : (data_num == 0 || mode == mode_none) ≡ false = ground (arith, pos, m) in
      rw (guarded, p, q)
        (go (sprdwl_fc_find_color_per_mode priv mode tx.flow_ctrl)
          (sprdwl_fc_find_color_per_mode-IsFound priv mode tx.flow_ctrl))
    where
      go :
          (r : Option ℕ × List FlowControl)
          → IsFound mode tx.flow_ctrl r
          → (use_color (take_credit (min 100 data_num)) r (clear_color_num tx)).num ≡ some n
          → IsGrant mode
              (min 100 data_num)
              n
              (use_color (take_credit (min 100 data_num)) r (clear_color_num tx)).tx
            × (total_flow
                  (use_color (take_credit (min 100 data_num)) r (clear_color_num tx)).tx.flow_ctrl
                ≡ total_flow tx.flow_ctrl)
      go (none, cs) f e = absurd (cc e)
      go (some i, cs) f e = (
        take_credit-IsGrant mode (min 100 data_num) i n _ m (omega (arith, pos)) (f.colour i refl)
            (omega (arith, f.same.size, h.flows)) refl e,
        ap total_flow (take_credit-flow_ctrl (min 100 data_num) i _) ∙ f.same.total,
      )
