-- ===== src/Qos.antt =====
-- Admission control and the choice of a queue in WIFI/qos.c and WIFI/qos.h, as compiled with
-- WMMAC_WFA_CERTIFICATION. An access category of edca_ac_t is its number: AC_BK is 0, AC_BE is 1,
-- AC_VI is 2 and AC_VO is 3. The global arrays and those of priv->wmmac are lists.
pub mod Admission
pub mod Downgrade
pub mod Frame
pub mod Tests
use uwe5631_aml.Common.{
  ℕ, zero, suc, ◌+◌, ◌-◌, ◌*◌, ◌/◌, ◌%◌, ◌^◌, ◌≤◌, ◌<◌, ◌≡◌, Bool, true, false, not, ◌&&◌, ◌||◌,
  Option, none, some, List, [], ◌∷◌, ◌++◌, ltb, leb, ◌==◌, if◌then◌else◌, length, get_or, set, drop,
  replicate, bit_and,
}

-- `qos_head_type_t`
pub data QosIndex : Type 0 where
  ac_vo ac_vi ac_be ac_bk ac_max : QosIndex

-- `struct wmm_ac_ts_t`
pub record TsInfo : Type 0 where
  pub exist : Bool
  pub ac : ℕ
  pub up : ℕ
  pub admitted_time : ℕ

-- The globals g_wmmac_available, g_wmmac_admittedtime, g_wmmac_usedtime and g_sta_ts_info, aci_aifsn of
-- priv->wmmac.ac, and which of the timers of priv->wmmac are pending.
pub record Wmmac : Type 0 where
  pub available : List Bool
  pub admitted_time : List ℕ
  pub used_time : List ℕ
  pub ts_info : List TsInfo
  pub aci_aifsn : List ℕ
  pub edcaf_timer : Bool
  pub vo_timer : Bool
  pub vi_timer : Bool

-- reset_wmmac_parameters; wmm_ac_init sets the same values.
unfoldable pub reset_wmmac_parameters : Wmmac → Wmmac
reset_wmmac_parameters w = record w {
  available = replicate 4 false;
  admitted_time = replicate 4 0;
  used_time = replicate 4 0;
  aci_aifsn = replicate 4 0;
  edcaf_timer = false;
  vo_timer = false;
  vi_timer = false;
}

abbrev pub zero_ts : TsInfo
zero_ts = record { exist = false; ac = 0; up = 0; admitted_time = 0 }

unfoldable pub update_wmmac_ts_info : ℕ → ℕ → ℕ → Bool → ℕ → Wmmac → Wmmac
update_wmmac_ts_info tsid up ac status admitted_time w = record w {
  ts_info =
      set w.ts_info tsid
        (record { exist = status; ac = ac; up = up; admitted_time = admitted_time });
}

unfoldable pub get_wmmac_admitted_time : ℕ → Wmmac → ℕ
get_wmmac_admitted_time tsid w =
    let ts = get_or w.ts_info tsid zero_ts in if ts.exist then ts.admitted_time else 0

unfoldable pub remove_wmmac_ts_info : ℕ → Wmmac → Wmmac
remove_wmmac_ts_info tsid w = record w { ts_info = set w.ts_info tsid zero_ts }

-- NUM_TID is 16.
unfoldable pub reset_wmmac_ts_info : Wmmac → Wmmac
reset_wmmac_ts_info w = record w { ts_info = replicate 16 zero_ts }

-- `g_wmmac_available[ac] = (g_wmmac_usedtime[ac] < g_wmmac_admittedtime[ac])`
unfoldable pub settle : ℕ → Wmmac → Wmmac
settle ac w = record w {
  available = set w.available ac (ltb (get_or w.used_time ac 0) (get_or w.admitted_time ac 0));
}

-- The units are 32 us and us.
unfoldable pub increase_time : ℕ → ℕ → Wmmac → Wmmac
increase_time ac medium_time w = record w {
  admitted_time =
      set w.admitted_time ac ((get_or w.admitted_time ac 0 + medium_time * 32) % 2 ^ 32);
  edcaf_timer = true;
  vo_timer = w.vo_timer || ac == 3;
  vi_timer = w.vi_timer || ac == 2;
}

unfoldable pub decrease_time : ℕ → ℕ → Wmmac → Wmmac
decrease_time ac medium_time w =
    let time = get_or w.admitted_time ac 0 in
    if ltb (medium_time * 32) time
    then record w { admitted_time = set w.admitted_time ac (time - medium_time * 32) }
    else record w {
      admitted_time = set w.admitted_time ac 0;
      edcaf_timer = false;
      vo_timer = false;
      vi_timer = false;
    }

unfoldable pub update_admitted_time : ℕ → ℕ → Bool → Wmmac → Wmmac
update_admitted_time tsid medium_time increase w =
    let ac = (get_or w.ts_info tsid zero_ts).ac in
    settle ac (if increase then increase_time ac medium_time w else decrease_time ac medium_time w)

-- `if (g_wmmac_admittedtime[ac] > 0)` in the timer's function
unfoldable pub refill : ℕ → Wmmac → Wmmac
refill ac w =
    if ltb 0 (get_or w.admitted_time ac 0)
    then record w {
      used_time = set w.used_time ac 0;
      available = set w.available ac true;
      vo_timer = w.vo_timer || ac == 3;
      vi_timer = w.vi_timer || ac == 2;
    }
    else w

unfoldable pub update_wmmac_edcaftime_timeout : Wmmac → Wmmac
update_wmmac_edcaftime_timeout w = refill 2 (refill 3 (record w { edcaf_timer = true }))

unfoldable pub use_up : ℕ → Wmmac → Wmmac
use_up ac w = record w {
  used_time = set w.used_time ac (get_or w.admitted_time ac 0);
  available = set w.available ac false;
}

unfoldable pub update_wmmac_vo_timeout : Wmmac → Wmmac
update_wmmac_vo_timeout w = use_up 3 (record w { vo_timer = false })

unfoldable pub update_wmmac_vi_timeout : Wmmac → Wmmac
update_wmmac_vi_timeout w = use_up 2 (record w { vi_timer = false })

-- `struct dscp_exception` and `struct qos_map_range`, and g_11u_qos_map
pub record DscpException : Type 0 where
  pub dscp : ℕ
  pub up : ℕ

pub record QosMapRange : Type 0 where
  pub low : ℕ
  pub high : ℕ
  pub up : ℕ

pub record QosMapSet : Type 0 where
  pub qos_exceptions : List DscpException
  pub qos_ranges : List QosMapRange

unfoldable pub init_default_qos_map : QosMapSet → QosMapSet
init_default_qos_map m = record {
  qos_exceptions = replicate 21 (record { dscp = 0xFF; up = 0 });
  qos_ranges =
      record { low = 0; high = 0; up = 0 }
      ∷ record { low = 3; high = 3; up = 0 }
      ∷ record { low = 1; high = 2; up = 1 }
      ∷ record { low = 4; high = 5; up = 4 }
      ∷ record { low = 6; high = 7; up = 6 }
      ∷ drop 5 m.qos_ranges;
}

unfoldable pub map_priority_to_edca_ac : ℕ → ℕ
map_priority_to_edca_ac p =
    if p == 1 || p == 2
    then 0
    else if p == 4 || p == 5
    then 2
    else if p == 6 || p == 7
    then 3
    else 1

unfoldable pub map_edca_ac_to_priority : ℕ → ℕ
map_edca_ac_to_priority ac = if ac == 0 then 1 else if ac == 2 then 4 else if ac == 3 then 6 else 0

unfoldable pub tid_map_to_qosindex : ℕ → QosIndex
tid_map_to_qosindex tid =
    if tid == 1 then ac_bk else if tid == 4 then ac_vi else if tid == 6 then ac_vo else ac_be

abbrev pub up_to_ac : List ℕ
up_to_ac = 0 ∷ 1 ∷ 1 ∷ 0 ∷ 4 ∷ 4 ∷ 6 ∷ 6 ∷ []

-- The priority is at most 7: the code reads past the end of up_to_ac else.
unfoldable pub priority_map_to_qos_index : ℕ → QosIndex
priority_map_to_qos_index p = tid_map_to_qosindex (get_or up_to_ac p 0)

-- The loops over the exceptions and the ranges.
unfoldable pub match_exception : ℕ → List DscpException → Option ℕ
match_exception priority [] = none
match_exception priority (e ∷ es) =
    if priority == e.dscp then some e.up else match_exception priority es

unfoldable pub match_range : ℕ → List QosMapRange → Option ℕ
match_range priority [] = none
match_range priority (r ∷ rs) =
    if leb r.low priority && leb priority r.high then some r.up else match_range priority rs

-- The priority is the DSCP; without a match the TID stays.
unfoldable pub map_dscp : QosMapSet → ℕ → ℕ → ℕ
map_dscp m priority tid = elim (match_exception priority m.qos_exceptions) [
  | some up ↦ up
  | none ↦ elim (match_range priority m.qos_ranges) [ some up ↦ up | none ↦ tid ]
]

-- What the loop of change_priority_if leaves: the category, or none for its return, and the state.
pub record Changed : Type 0 where
  pub ac : Option ℕ
  pub wmmac : Wmmac

-- `priv->wmmac.ac[ac].aci_aifsn & WMM_AC_ACM`, whatever category the entry was filled for
abbrev pub has_acm : ℕ → Wmmac → Bool
has_acm ac w = not (bit_and (get_or w.aci_aifsn ac 0) 0x10 == 0)

abbrev pub is_available : ℕ → Wmmac → Bool
is_available ac w = get_or w.available ac false

unfoldable pub charge : ℕ → ℕ → ℕ → Wmmac → Wmmac
charge ratio len ac w = settle ac (record w {
  used_time =
      set w.used_time ac
        ((get_or w.used_time ac 0 + (len + 4) * 8 * ratio % 2 ^ 32 / 10 / 54) % 2 ^ 32);
})

-- `while (ac != 0)`
unfoldable pub change_loop : ℕ → ℕ → ℕ → Wmmac → Changed
change_loop ratio len zero w = record { ac = some 0; wmmac = w }
change_loop ratio len (suc lower) w =
    let ac = suc lower in
    let rest = change_loop ratio len lower w in
    if has_acm ac w
    then (if is_available ac w
        then record { ac = some ac; wmmac = charge ratio len ac w }
        else (if not (get_or w.used_time ac 0 == 0) then record { ac = none; wmmac = w } else rest))
    else record { ac = some ac; wmmac = w }

-- The queue, the TID and the state. `enable` is whether g_qos_enable is 1, and `ratio` is wmmac_ratio.
pub record Choice : Type 0 where
  pub qos_index : QosIndex
  pub tid : ℕ
  pub wmmac : Wmmac

unfoldable pub choose : ℕ → Changed → Choice
choose tid c = elim (c.ac) [
  | none ↦ record { qos_index = ac_max; tid = tid; wmmac = c.wmmac }
  | some ac ↦ record {
    qos_index = tid_map_to_qosindex (map_edca_ac_to_priority ac);
    tid = map_edca_ac_to_priority ac;
    wmmac = c.wmmac;
  }
]

unfoldable pub change_priority_if : Bool → ℕ → QosMapSet → ℕ → ℕ → ℕ → Wmmac → Choice
change_priority_if enable ratio m tid tos len w =
    let tid' = map_dscp m (tos / 4) tid in
    if enable
    then choose tid' (change_loop ratio len (map_priority_to_edca_ac tid') w)
    else record { qos_index = tid_map_to_qosindex tid'; tid = tid'; wmmac = w }
