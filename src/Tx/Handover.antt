-- ===== src/Tx/Handover.antt =====
-- A round of sprdwl_tx_eachmode_data and the request of sprdwl_handle_to_send_list that follows it, in
-- WIFI/tx_msg.c.
use uwe5631_aml.Common.{
  ℕ, zero, suc, ◌+◌, ◌≤◌, ◌<◌, ◌≡◌, ◌≢◌, inl, inr, refl, ap, sym, ◌∙◌, Bool, true, false, not, ◌&&◌,
  ◌||◌, Option, none, some, arith, List, [], ◌∷◌, ◌==◌, Bool-cases, length, set, min, if◌then◌else◌,
}
use uwe5631_aml.Tx.{
  Answer, FlowControl, Priv, TxMsg, assign_color, assign_free, find_mode, flow_at, free_closed,
  is_closed, mode_none, sprdwl_fc_find_color_per_mode, sprdwl_fc_test_send_num,
  sprdwl_fc_test_shared_num, test_credit, use_color,
}
use uwe5631_aml.Tx.Colour.{find_mode-IsColour, sprdwl_fc_find_color_per_mode-IsFound}
use uwe5631_aml.Tx.Distribute.{AllCounted, join}
use uwe5631_aml.Tx.Eachmode.{sprdwl_tx_eachmode_data-IsRound}
use uwe5631_aml.Tx.Queues.{
  Packet, PeerList, Ratios, Round, num_of, q_list_num, sprdwl_tx_eachmode_data, to_send_credit,
}
use uwe5631_aml.Tx.Request.{HasColours, sprdwl_fc_get_send_num-test}
use uwe5631_aml.Tx.Rounding.{IsPercent}

find_mode-tail :
    (mode k : ℕ) (c : FlowControl) (cs : List FlowControl)
    → find_mode mode k (c ∷ cs) ≡ none
    → ((c.mode == mode) ≡ false) × (find_mode mode (suc k) cs ≡ none)
unfolding find_mode
find_mode-tail mode k c cs e = go (c.mode == mode) refl e
  where
    go :
        (b : Bool)
        → (c.mode == mode) ≡ b
        → (if b then some k else find_mode mode (suc k) cs) ≡ none
        → ((c.mode == mode) ≡ false) × (find_mode mode (suc k) cs ≡ none)
    go true f h = absurd (cc h)
    go false f h = (f, h)

find_mode-free_closed :
    (priv : Priv) (mode k : ℕ) (cs : List FlowControl)
    → mode ≢ mode_none
    → find_mode mode k cs ≡ none
    → find_mode mode k (free_closed priv cs) ≡ none
unfolding find_mode free_closed
find_mode-free_closed priv mode k [] m e = refl
find_mode-free_closed priv mode k (c ∷ cs) m e =
    let parts = find_mode-tail mode k c cs e in
    let rest = find_mode-free_closed priv mode (suc k) cs m parts.1 in
    elim (Bool-cases (not (c.mode == mode_none) && is_closed priv c.mode)) [
      | inl f ↦ let other : (mode_none == mode) ≡ false = ground (arith, m) in simp (f, other) rest
      | inr f ↦ simp (f, parts.0) rest
    ]

find_mode-set :
    (mode k i : ℕ) (c : FlowControl) (cs : List FlowControl)
    → c.mode ≡ mode
    → i < length cs
    → find_mode mode k cs ≡ none
    → find_mode mode k (set cs i c) ≡ some (k + i)
unfolding find_mode
find_mode-set mode k i c [] e h n = absurd (omega arith)
find_mode-set mode k zero c (d ∷ cs) e h n =
    let same : (c.mode == mode) ≡ true = ground (arith, e) in rw same (ap some (omega arith))
find_mode-set mode k (suc i) c (d ∷ cs) e h n =
    let parts = find_mode-tail mode k d cs n in
    let next : suc k + i ≡ k + suc i = omega arith in
    rw parts.0 (find_mode-set mode (suc k) i c cs e (omega arith) parts.1 ∙ ap some next)

assign_color-found :
    (mode i : ℕ) (cs : List FlowControl)
    → i < length cs
    → find_mode mode 0 cs ≡ none
    → find_mode mode 0 (assign_color mode i cs) ≡ some i
unfolding assign_color
assign_color-found mode i cs h n =
    let start : 0 + i ≡ i = omega arith in find_mode-set mode 0 i _ cs refl h n ∙ ap some start

-- A second search for the mode's colour finds what the first one found and changes nothing.
Settled : Priv → ℕ → Option ℕ × List FlowControl → Type 0
Settled priv mode r =
    (i : ℕ) → r.0 ≡ some i → sprdwl_fc_find_color_per_mode priv mode r.1 ≡ (some i, r.1)

found-again :
    (priv : Priv) (mode i : ℕ) (cs : List FlowControl)
    → find_mode mode 0 cs ≡ some i
    → sprdwl_fc_find_color_per_mode priv mode cs ≡ (some i, cs)
unfolding sprdwl_fc_find_color_per_mode
found-again priv mode i cs e = ap searched e
  where
    searched : Option ℕ → Option ℕ × List FlowControl
    searched o = elim o [ some j ↦ (some j, cs) | none ↦ assign_free mode (free_closed priv cs) ]

sprdwl_fc_find_color_per_mode-Settled :
    (priv : Priv) (mode : ℕ) (cs : List FlowControl)
    → mode ≢ mode_none
    → Settled priv mode (sprdwl_fc_find_color_per_mode priv mode cs)
unfolding sprdwl_fc_find_color_per_mode Settled
sprdwl_fc_find_color_per_mode-Settled priv mode cs m = go (find_mode mode 0 cs) refl
  where
    fresh : List FlowControl
    fresh = free_closed priv cs

    again :
        (o : Option ℕ)
        → find_mode mode_none 0 fresh ≡ o
        → find_mode mode 0 fresh ≡ none
        → Settled priv mode
            (elim o [ none ↦ (none, fresh) | some i ↦ (some i, assign_color mode i fresh) ])
    again none e n = λ i h. absurd (cc h)
    again (some i) e n = λ j h.
        let same : i ≡ j = cc h in
        let at = (find_mode-IsColour mode_none fresh i e).inside in
        rw (sym same) (found-again priv mode i _ (assign_color-found mode i fresh at n))

    go :
        (o : Option ℕ)
        → find_mode mode 0 cs ≡ o
        → Settled priv mode (elim o [ some i ↦ (some i, cs) | none ↦ assign_free mode fresh ])
    go none e = again (find_mode mode_none 0 fresh) refl (find_mode-free_closed priv mode 0 cs m e)
    go (some i) e = λ j h. let same : i ≡ j = cc h in rw (sym same) (found-again priv mode i cs e)

module _ (priv : Priv) (mode : ℕ) (sdio : priv.pcie ≡ false) (credits : priv.no_credit ≡ false)
    (m : mode ≢ mode_none) where
  test_send_num-plain :
      (data_num : ℕ) (tx : TxMsg)
      → 0 < data_num
      → sprdwl_fc_test_send_num priv mode data_num tx
        ≡ use_color
            (test_credit (min 100 data_num))
            (sprdwl_fc_find_color_per_mode priv mode tx.flow_ctrl)
            tx
  unfolding sprdwl_fc_test_send_num
  test_send_num-plain data_num tx pos =
      let guarded : (data_num == 0 || mode == mode_none) ≡ false = ground (arith, pos, m) in
      simp (guarded, sdio, credits) refl

  use_color-again :
      (total n : ℕ) (tx : TxMsg) (r : Option ℕ × List FlowControl)
      → Settled priv mode r
      → 0 < n
      → n ≤ total
      → n ≤ num_of (use_color (test_credit (min 100 total)) r tx).num
      → (sprdwl_fc_test_send_num priv mode n (use_color (test_credit (min 100 total)) r tx).tx).num
        ≡ some n
  unfolding test_credit Settled
  use_color-again total n tx (none, cs) s pos le h = absurd (omega (arith, pos, h))
  use_color-again total n tx (some i, cs) s pos le h =
      let plain = test_send_num-plain n (record tx { flow_ctrl = cs }) pos in
      let enough = go (credit == 0) refl h in
      let all : min credit (min 100 n) ≡ n = omega (arith, enough.1) in
      ap (λ (a : Answer). a.num) plain
      ∙ (ap
            (λ (r : Option ℕ × List FlowControl).
              (use_color (test_credit (min 100 n)) r (record tx { flow_ctrl = cs })).num)
            (s i refl)
          ∙ rw (enough.0, all) refl)
    where
      credit : ℕ
      credit = flow_at cs i + sprdwl_fc_test_shared_num cs

      go :
          (b : Bool)
          → (credit == 0) ≡ b
          → n ≤ num_of (if b then none else some (min credit (min 100 total)))
          → (b ≡ false) × (n ≤ min credit (min 100 total))
      go true e k = absurd (omega (arith, pos, k))
      go false e k = (refl, k)

  -- A request for some of the packets that were reported is granted in full afterwards.
  test_send_num-again :
      (total n : ℕ) (tx : TxMsg)
      → 0 < n
      → n ≤ total
      → n ≤ num_of (sprdwl_fc_test_send_num priv mode total tx).num
      → (sprdwl_fc_test_send_num priv mode n (sprdwl_fc_test_send_num priv mode total tx).tx).num
        ≡ some n
  test_send_num-again total n tx pos le h =
      let plain = test_send_num-plain total tx (omega (arith, pos, le)) in
      let reported = ap (λ (a : Answer). num_of a.num) plain in
      ap (λ (a : Answer). (sprdwl_fc_test_send_num priv mode n a.tx).num) plain
      ∙ use_color-again total n tx (sprdwl_fc_find_color_per_mode priv mode tx.flow_ctrl)
          (sprdwl_fc_find_color_per_mode-Settled priv mode tx.flow_ctrl m) pos le
          (omega (arith, h, reported))

  sprdwl_fc_test_send_num-HasColours :
      (data_num : ℕ) (tx : TxMsg)
      → HasColours tx
      → 0 < data_num
      → HasColours (sprdwl_fc_test_send_num priv mode data_num tx).tx
  unfolding test_credit
  sprdwl_fc_test_send_num-HasColours data_num tx h pos = rw (test_send_num-plain data_num tx pos) (
      go (sprdwl_fc_find_color_per_mode priv mode tx.flow_ctrl)
        ((sprdwl_fc_find_color_per_mode-IsFound priv mode tx.flow_ctrl).same.size ∙ h.flows))
    where
      go :
          (r : Option ℕ × List FlowControl)
          → length r.1 ≡ 4
          → HasColours (use_color (test_credit (min 100 data_num)) r tx).tx
      go (none, cs) l = record { flows = l; nums = h.nums }
      go (some i, cs) l = record { flows = l; nums = h.nums }

  -- Where the device is not attached by PCIe and has credits, for a mode that is not SPRDWL_MODE_NONE,
  -- with ratios of at most 100 per cent, lists that are as long as their counts say, mode_list_num the
  -- sum of these counts, four colours with four numbers, and an empty to_send_list: after a round of
  -- sprdwl_tx_eachmode_data that moved packets, the request for the packets on to_send_list is granted
  -- in full.
  pub sprdwl_tx_eachmode_data-to_send_credit :
      (ratios : Ratios) (jiffies maxnum mode_list_num : ℕ) (lists : List (List PeerList))
      (tx : TxMsg)
      → IsPercent ratios
      → AllCounted (join lists)
      → mode_list_num ≡ q_list_num (join lists)
      → HasColours tx
      → 0
        < length
            (sprdwl_tx_eachmode_data ratios jiffies maxnum priv mode mode_list_num lists []
              tx).to_send
      → (to_send_credit priv mode
          (sprdwl_tx_eachmode_data ratios jiffies maxnum priv mode mode_list_num lists []
            tx).to_send
          (sprdwl_tx_eachmode_data ratios jiffies maxnum priv mode mode_list_num lists []
            tx).tx).num
        ≡ some (
            length
              (sprdwl_tx_eachmode_data ratios jiffies maxnum priv mode mode_list_num lists []
                tx).to_send)
  unfolding to_send_credit
  sprdwl_tx_eachmode_data-to_send_credit ratios jiffies maxnum mode_list_num lists tx percent c e h
        pos =
      let round =
        sprdwl_tx_eachmode_data-IsRound ratios jiffies maxnum priv mode mode_list_num lists [] tx
          percent c e in
      let size : length r.to_send ≡ length round.moved =
        ap (λ (t : List Packet). length t) round.appended in
      let total = q_list_num round.dropped_lists in
      let after = (sprdwl_fc_test_send_num priv mode total tx).tx in
      let colours =
        sprdwl_fc_test_send_num-HasColours total tx h (omega (arith, pos, size, round.amount)) in
      rw (round.asked) (
        (sprdwl_fc_get_send_num-test priv mode (length r.to_send) after colours).0
        ∙ test_send_num-again total (length r.to_send) tx pos (omega (arith, size, round.amount))
            (omega (arith, size, round.amount)))
    where
      r : Round
      r = sprdwl_tx_eachmode_data ratios jiffies maxnum priv mode mode_list_num lists [] tx
