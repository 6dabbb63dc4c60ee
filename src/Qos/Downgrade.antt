-- ===== src/Qos/Downgrade.antt =====
-- Which category change_priority_if of WIFI/qos.c takes for a packet. It looks for a category's ACM bit
-- at the category's number, although WIFI/cfg80211.c fills priv->wmmac.ac in the order best effort,
-- background, video, voice: for background and best effort it finds the bit of the other.
use uwe5631_aml.Common.{
  ℕ, zero, suc, ◌/◌, ◌≤◌, ◌<◌, ◌≡◌, ◌⊎◌, inl, inr, refl, true, false, not, none, some, arith, ◌==◌,
  Bool-cases, get_or,
}
use uwe5631_aml.Qos.{
  ac_max, Wmmac, change_loop, Changed, has_acm, is_available, QosMapSet, map_dscp,
  map_priority_to_edca_ac, map_edca_ac_to_priority, tid_map_to_qosindex, choose, change_priority_if,
}
use uwe5631_aml.Qos.Admission.{map_priority_to_edca_ac-small}

-- A category at whose index priv->wmmac.ac has WMM_AC_ACM set, that is not marked available, with no
-- time used.
abbrev pub IsPassed : Wmmac → ℕ → Type 0
IsPassed w i = (has_acm i w ≡ true) × (is_available i w ≡ false) × (get_or w.used_time i 0 ≡ 0)

-- The same, with some time used.
abbrev pub IsUsedUp : Wmmac → ℕ → Type 0
IsUsedUp w i = (has_acm i w ≡ true) × (is_available i w ≡ false) × (0 < get_or w.used_time i 0)

-- A category that a packet may go to.
abbrev pub IsOpen : Wmmac → ℕ → Type 0
IsOpen w i = (i ≡ 0) ⊎ ((has_acm i w ≡ false) ⊎ (is_available i w ≡ true))

-- The loop's end, from `top` on down.
record Ends (w : Wmmac) (top : ℕ) (c : Changed) : Type 0 where
  pub at : ℕ
  pub below : at ≤ top
  pub passed : (i : ℕ) → at < i → i ≤ top → IsPassed w i
  pub result : ((c.ac ≡ none) × IsUsedUp w at) ⊎ ((c.ac ≡ some at) × IsOpen w at)

here :
    (w : Wmmac) (top : ℕ) (c : Changed)
    → ((c.ac ≡ none) × IsUsedUp w top) ⊎ ((c.ac ≡ some top) × IsOpen w top)
    → Ends w top c
here w top c r = record {
  at = top;
  below = omega arith;
  passed = λ i h k. absurd (omega (arith, h, k));
  result = r;
}

lower-Ends :
    (w : Wmmac) (top : ℕ) (c : Changed) → IsPassed w (suc top) → Ends w top c → Ends w (suc top) c
lower-Ends w top c p e = record {
  at = e.at;
  below = omega (arith, e.below);
  passed = λ i h k. elim (Bool-cases (i == suc top)) [
    | inl f ↦ let same : i ≡ suc top = ground (arith, f) in rw same p
    | inr f ↦ e.passed i h (ground (arith, f, k))
  ];
  result = e.result;
}

change_loop-Ends : (ratio len top : ℕ) (w : Wmmac) → Ends w top (change_loop ratio len top w)
unfolding change_loop
change_loop-Ends ratio len zero w = here w 0 _ (inr (refl, inl refl))
change_loop-Ends ratio len (suc lower) w =
    let ac = suc lower in
    let c = change_loop ratio len (suc lower) w in
    elim (Bool-cases (has_acm ac w)) [
      | inr e ↦ here w ac _ (inr (rw e refl, inr (inl e)))
      | inl e ↦ elim (Bool-cases (is_available ac w)) [
        | inl f ↦ here w ac _ (inr (rw (e, f) refl, inr (inr f)))
        | inr f ↦ elim (Bool-cases (not (get_or w.used_time ac 0 == 0))) [
          | inl g ↦ here w ac _ (inl (rw (e, f, g) refl, (e, f, ground (arith, g))))
          | inr g ↦
              rw (e, f, g)
                (lower-Ends w lower _ (e, f, ground (arith, g))
                  (change_loop-Ends ratio len lower w))
        ]
      ]
    ]

map_priority_to_edca_ac-roundtrip :
    (ac : ℕ) → ac < 4 → map_priority_to_edca_ac (map_edca_ac_to_priority ac) ≡ ac
unfolding map_priority_to_edca_ac map_edca_ac_to_priority
map_priority_to_edca_ac-roundtrip zero h = refl
map_priority_to_edca_ac-roundtrip (suc zero) h = refl
map_priority_to_edca_ac-roundtrip (suc (suc zero)) h = refl
map_priority_to_edca_ac-roundtrip (suc (suc (suc zero))) h = refl
map_priority_to_edca_ac-roundtrip (suc (suc (suc (suc i)))) h = absurd (omega (arith, h))

-- Here the bit of a category is WMM_AC_ACM of the entry of priv->wmmac.ac at the category's number,
-- which is where change_priority_if looks, whatever category that entry was filled for. With priorities enabled, change_priority_if goes down from the category of
-- the packet's priority, past categories whose bit is set, that are not marked available and in which
-- no time was used, and ends at the first of these: a category whose bit is set and that is not marked
-- available although time was used in it, and then the packet gets no queue; or the lowest category,
-- one whose bit is not set, or one that is marked available, and then the packet gets the queue and a
-- TID of that category.
pub change_priority_if_lem :
    (ratio : ℕ) (m : QosMapSet) (tid tos len : ℕ) (w : Wmmac)
    → let top = map_priority_to_edca_ac (map_dscp m (tos / 4) tid) in
      let q = change_priority_if true ratio m tid tos len w in
      (at : ℕ) × (at ≤ top)
      × ((i : ℕ) → at < i → i ≤ top → IsPassed w i)
      × (((q.qos_index ≡ ac_max) × IsUsedUp w at)
          ⊎ ((q.qos_index ≡ tid_map_to_qosindex q.tid)
              × (map_priority_to_edca_ac q.tid ≡ at)
              × IsOpen w at))
unfolding change_priority_if choose
change_priority_if_lem ratio m tid tos len w =
    let tid' = map_dscp m (tos / 4) tid in
    let top = map_priority_to_edca_ac tid' in
    let c = change_loop ratio len top w in
    let e = change_loop-Ends ratio len top w in
    (
      e.at,
      e.below,
      e.passed,
      elim e.result [
        | inl (f, u) ↦ inl (rw f refl, u)
        | inr (f, o) ↦
            let small : e.at < 4 = omega (arith, e.below, map_priority_to_edca_ac-small tid') in
            inr (rw f refl, rw f (map_priority_to_edca_ac-roundtrip e.at small), o)
      ],
    )
