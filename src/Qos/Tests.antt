-- ===== src/Qos/Tests.antt =====
-- Admission control of WIFI/qos.c with concrete times.
use uwe5631_aml.Common.{
  ℕ, zero, suc, ◌/◌, ◌≤◌, ◌<◌, ◌≡◌, ◌⊎◌, refl, true, false, [], ◌∷◌, ◌++◌, arith, ltb, get_or,
  replicate,
}
use uwe5631_aml.Qos.{
  QosIndex, ac_vo, ac_vi, ac_be, ac_bk, ac_max, TsInfo, Wmmac, zero_ts, reset_wmmac_parameters,
  update_wmmac_ts_info, get_wmmac_admitted_time, remove_wmmac_ts_info, reset_wmmac_ts_info,
  update_admitted_time, update_wmmac_edcaftime_timeout, update_wmmac_vo_timeout,
  update_wmmac_vi_timeout, QosMapSet, init_default_qos_map, map_priority_to_edca_ac,
  map_edca_ac_to_priority, tid_map_to_qosindex, priority_map_to_qos_index, map_dscp,
  change_priority_if,
}
use uwe5631_aml.Qos.Frame.{
  pkt_get_prio, qos_match_q, get_tid_qosindex, found, null, out_of_bounds, match_oui, wmm_ie_loop,
  get_wmm_ie,
}
use uwe5631_aml.Qos.Admission.{IsAdmission, events-IsAdmission}
use uwe5631_aml.Qos.Downgrade.{IsPassed, IsUsedUp, IsOpen, change_priority_if_lem}

-- Voice has 2000 us and used 500 of them; voice and video are under admission control.
abbrev state : Wmmac
state = record {
  available = false ∷ false ∷ false ∷ true ∷ [];
  admitted_time = 0 ∷ 0 ∷ 0 ∷ 2000 ∷ [];
  used_time = 0 ∷ 0 ∷ 0 ∷ 500 ∷ [];
  ts_info = record { exist = true; ac = 3; up = 6; admitted_time = 62 } ∷ replicate 15 zero_ts;
  aci_aifsn = 0 ∷ 0 ∷ 0x10 ∷ 0x10 ∷ [];
  edcaf_timer = true;
  vo_timer = true;
  vi_timer = false;
}

state-marked :
    (i : ℕ)
    → i < 4
    → get_or state.available i false
      ≡ ltb (get_or state.used_time i 0) (get_or state.admitted_time i 0)
state-marked zero h = refl
state-marked (suc zero) h = refl
state-marked (suc (suc zero)) h = refl
state-marked (suc (suc (suc zero))) h = refl
state-marked (suc (suc (suc (suc i)))) h = absurd (omega (arith, h))

state-IsAdmission : IsAdmission state
state-IsAdmission = record {
  size = refl;
  used_size = refl;
  admitted_size = refl;
  marked = state-marked;
}

abbrev qos_map : QosMapSet
qos_map = record { qos_exceptions = []; qos_ranges = [] }

events-IsAdmission_example :
    IsAdmission (reset_wmmac_parameters state)
    × IsAdmission (update_admitted_time 0 62 false state)
    × IsAdmission (update_wmmac_edcaftime_timeout state)
    × IsAdmission (update_wmmac_vo_timeout state)
    × IsAdmission (update_wmmac_vi_timeout state)
    × IsAdmission (change_priority_if true 10 qos_map 6 0xC0 1500 state).wmmac
events-IsAdmission_example =
    events-IsAdmission 0 62 false true 10 qos_map 6 0xC0 1500 state state-IsAdmission (omega arith)

-- A packet of priority 6, voice.
change_priority_if_example :
    let top = map_priority_to_edca_ac (map_dscp qos_map (0xC0 / 4) 6) in
    let q = change_priority_if true 10 qos_map 6 0xC0 1500 state in
    (at : ℕ) × (at ≤ top)
    × ((i : ℕ) → at < i → i ≤ top → IsPassed state i)
    × (((q.qos_index ≡ ac_max) × IsUsedUp state at)
        ⊎ ((q.qos_index ≡ tid_map_to_qosindex q.tid)
            × (map_priority_to_edca_ac q.tid ≡ at)
            × IsOpen state at))
change_priority_if_example = change_priority_if_lem 10 qos_map 6 0xC0 1500 state

-- The default ranges are IP precedences: DSCP 1 is background, and DSCP 48 is in no range.
dscp_example : let m = init_default_qos_map qos_map in (map_dscp m 1 0 ≡ 1) × (map_dscp m 48 3 ≡ 3)
unfolding init_default_qos_map map_dscp uwe5631_aml.Qos.match_exception uwe5631_aml.Qos.match_range
dscp_example = (refl, refl)

ts_info_example :
    (get_wmmac_admitted_time 0 state ≡ 62)
    × (get_wmmac_admitted_time 0 (remove_wmmac_ts_info 0 state) ≡ 0)
    × (get_wmmac_admitted_time 5 (update_wmmac_ts_info 5 4 2 true 31 state) ≡ 31)
    × (reset_wmmac_ts_info (remove_wmmac_ts_info 0 state) ≡ remove_wmmac_ts_info 0 state)
    × (priority_map_to_qos_index 5 ≡ ac_vi)
unfolding get_wmmac_admitted_time remove_wmmac_ts_info update_wmmac_ts_info reset_wmmac_ts_info
    priority_map_to_qos_index tid_map_to_qosindex
ts_info_example = (refl, refl, refl, refl, refl)

-- An IPv4 frame with a TOS of 0xB8, and one with a VLAN tag of priority 6.
abbrev ip_frame : ℕ → ℕ
ip_frame i = get_or (replicate 12 0 ++ 8 ∷ 0 ∷ 0x45 ∷ 0xB8 ∷ []) i 0

abbrev vlan_frame : ℕ → ℕ
vlan_frame i = get_or (replicate 12 0 ++ 0x81 ∷ 0 ∷ 0xC0 ∷ 1 ∷ []) i 0

frame_example :
    (qos_match_q true ip_frame ≡ ac_vi)
    × (qos_match_q false ip_frame ≡ ac_be)
    × (pkt_get_prio ip_frame 0 ≡ record { priority = 4; tos = 0xB8 })
    × (get_tid_qosindex true vlan_frame (record { priority = 0; tos = 7 })
        ≡ record { qos_index = ac_vo; prio = record { priority = 6; tos = 7 } })
unfolding qos_match_q pkt_get_prio get_tid_qosindex tid_map_to_qosindex
frame_example = (refl, refl, refl, refl)

-- An element of another kind, then the WMM element; and a vendor element of one byte at the end.
ie_example :
    (get_wmm_ie (1 ∷ 1 ∷ 9 ∷ 221 ∷ 5 ∷ 0 ∷ 0x50 ∷ 0xf2 ∷ 2 ∷ 1 ∷ []) 221 0x0050f2
      ≡ found (0 ∷ 0x50 ∷ 0xf2 ∷ 2 ∷ 1 ∷ []))
    × (get_wmm_ie (221 ∷ 1 ∷ 0 ∷ []) 221 0x0050f2 ≡ out_of_bounds)
    × (get_wmm_ie (221 ∷ 9 ∷ 0 ∷ []) 221 0x0050f2 ≡ null)
unfolding get_wmm_ie wmm_ie_loop match_oui
ie_example = (refl, refl, refl)
