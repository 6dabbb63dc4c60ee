-- ===== src/Qos/Frame.antt =====
-- The parts of WIFI/qos.c that read a frame or the elements of a response.
use uwe5631_aml.Common.{
  ℕ, zero, suc, ◌+◌, ◌*◌, ◌/◌, ◌%◌, ◌^◌, Bool, ◌&&◌, ◌||◌, List, [], ◌∷◌, ltb, ◌==◌, if◌then◌else◌,
  length, drop,
}
use uwe5631_aml.Qos.{QosIndex, ac_be, tid_map_to_qosindex}

-- IP_TOS46 of the bytes behind the Ethernet header
abbrev pub ip_tos46 : ℕ → ℕ → ℕ
ip_tos46 b0 b1 = if b0 / 16 == 4 then b1 else if b0 / 16 == 6 then b0 % 16 * 16 + b1 / 16 else 0

-- The switch over `tos & 0xE0`
abbrev pub tos_prio : ℕ → ℕ
tos_prio tos =
    let p = tos / 32 in
    if p == 0 || p == 3
    then 0
    else if p == 1 || p == 2
    then 1
    else if p == 4 || p == 5
    then 4
    else 6

-- The priority and what `*tos` is then.
pub record Prio : Type 0 where
  pub priority : ℕ
  pub tos : ℕ

-- `b` are the frame's bytes. A VLAN tag's priority is taken as it is, and `*tos` stays then.
unfoldable pub pkt_get_prio : (ℕ → ℕ) → ℕ → Prio
pkt_get_prio b tos =
    if b 12 * 256 + b 13 == 0x8100
    then record { priority = (b 14 * 256 + b 15) / 2 ^ 13 % 8; tos = tos }
    else record { priority = tos_prio (ip_tos46 (b 14) (b 15)); tos = ip_tos46 (b 14) (b 15) }

-- `enable` is whether g_qos_enable is not 0.
unfoldable pub qos_match_q : Bool → (ℕ → ℕ) → QosIndex
qos_match_q enable b =
    let ether_type = b 12 * 256 + b 13 in
    if enable && (ether_type == 0x0800 || ether_type == 0x86dd)
    then tid_map_to_qosindex (pkt_get_prio b 0).priority
    else ac_be

-- The queue, and the TID and the TOS as the priority.
pub record TidQosindex : Type 0 where
  pub qos_index : QosIndex
  pub prio : Prio

unfoldable pub get_tid_qosindex : Bool → (ℕ → ℕ) → Prio → TidQosindex
get_tid_qosindex enable b p =
    let p' = pkt_get_prio b p.tos in
    if enable
    then record { qos_index = tid_map_to_qosindex p'.priority; prio = p' }
    else record { qos_index = ac_be; prio = p }

-- What the search for an element returns: the bytes from there on, NULL, or a read past the end.
pub data Ie : Type 0 where
  found : List ℕ → Ie
  null out_of_bounds : Ie

-- The test of pos[2] to pos[5]; the last is read only if the others match. WMM_OUI_TYPE is 2.
unfoldable pub match_oui : ℕ → List ℕ → Ie
match_oui oui (b2 ∷ b3 ∷ b4 ∷ rest) =
    if b2 * 65536 + b3 * 256 + b4 == oui
    then elim rest [
      | [] ↦ out_of_bounds
      | b5 ∷ more ↦ if b5 == 2 then found (b2 ∷ b3 ∷ b4 ∷ b5 ∷ more) else null
    ]
    else null
match_oui oui _ = out_of_bounds

-- Each round takes two bytes or more.
unfoldable pub wmm_ie_loop : ℕ → ℕ → ℕ → List ℕ → Ie
wmm_ie_loop zero ie oui bytes = null
wmm_ie_loop (suc fuel) ie oui (id ∷ len ∷ rest) =
    let next = wmm_ie_loop fuel ie oui (drop len rest) in
    if ltb (length rest) len then null else if id == ie then match_oui oui rest else next
wmm_ie_loop (suc fuel) ie oui _ = null

unfoldable pub get_wmm_ie : List ℕ → ℕ → ℕ → Ie
get_wmm_ie res ie oui = wmm_ie_loop (length res) ie oui res
