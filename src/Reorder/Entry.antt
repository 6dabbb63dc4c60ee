-- ===== src/Reorder/Entry.antt =====
-- The block-ack nodes of one interface, WIFI/reorder.c: `struct sprdwl_rx_ba_entry`, the hash lists
-- by TID with the node that was used last, and the events that open, feed and close sessions.
-- A node is known by its address. `none` is a fault: a read of a node that was freed, or of a list
-- past the end of `hlist`. What `kzalloc` returns is an argument.
use uwe5631_aml.Common.{
  ℕ, zero, suc, ◌+◌, ◌-◌, ◌*◌, Bool, true, false, ◌&&◌, Option, none, some, List, [], ◌∷◌, ltb,
  ◌==◌, if◌then◌else◌, length, get_or, set, replicate, map,
}
use uwe5631_aml.Reorder.{
  RxBaNodeDesc, Skbs, zero_pkt, get_index_size, set_ba_node_desc, flush_reorder_buffer,
}
use uwe5631_aml.Reorder.Step.{between_seqlo_seqhi}
use uwe5631_aml.Reorder.Process.{RxBaNode}

abbrev pub num_tids : ℕ
num_tids = 8

-- A list of nodes with their addresses.
abbrev pub Hlist : Type 0
Hlist = List (ℕ × RxBaNode)

pub record RxBaEntry : Type 0 where
  pub hlist : List Hlist
  pub current_ba_node : Option ℕ
  pub skbs : Skbs

unfoldable pub sprdwl_reorder_init : Skbs → RxBaEntry
sprdwl_reorder_init s = record { hlist = replicate num_tids []; current_ba_node = none; skbs = s }

unfoldable pub node_at : ℕ → Hlist → Option RxBaNode
node_at a [] = none
node_at a ((b, n) ∷ l) = if a == b then some n else node_at a l

-- The node at an address, in whatever list it stands.
unfoldable pub deref : ℕ → List Hlist → Option RxBaNode
deref a [] = none
deref a (l ∷ ls) = elim (node_at a l) [ none ↦ deref a ls | some n ↦ some n ]

unfoldable pub store_in : ℕ → RxBaNode → Hlist → Hlist
store_in a n [] = []
store_in a n ((b, m) ∷ l) = (if a == b then (b, n) else (b, m)) ∷ store_in a n l

abbrev pub store : ℕ → RxBaNode → RxBaEntry → RxBaEntry
store a n e = record e { hlist = map (store_in a n) e.hlist }

unfoldable pub unlink_in : ℕ → Hlist → Hlist
unlink_in a [] = []
unlink_in a ((b, n) ∷ l) = if a == b then unlink_in a l else (b, n) ∷ unlink_in a l

-- hlist_del, and the two kfree calls behind it
abbrev pub unlink : ℕ → RxBaEntry → RxBaEntry
unlink a e = record e { hlist = map (unlink_in a) e.hlist }

abbrev pub is_same_ba : RxBaNode → ℕ → ℕ → Bool
is_same_ba n sta_lut_index tid = n.sta_lut_index == sta_lut_index && n.tid == tid

-- hlist_for_each_entry, up to the node of the station
unfoldable pub find_in : ℕ → Hlist → Option (ℕ × RxBaNode)
find_in sta_lut_index [] = none
find_in sta_lut_index ((a, n) ∷ l) =
    if sta_lut_index == n.sta_lut_index then some (a, n) else find_in sta_lut_index l

-- What find_ba_node returns, and the entry with the node that it remembers.
abbrev pub Found : Type 0
Found = Option (ℕ × RxBaNode) × RxBaEntry

unfoldable pub search_list : RxBaEntry → ℕ → ℕ → Found
search_list e sta_lut_index tid = elim (find_in sta_lut_index (get_or e.hlist tid [])) [
  | none ↦ (none, e)
  | some (a, n) ↦ (some (a, n), record e { current_ba_node = some a })
]

unfoldable pub find_from : Option ℕ → RxBaEntry → ℕ → ℕ → Option Found
find_from none e sta_lut_index tid = some (search_list e sta_lut_index tid)
find_from (some a) e sta_lut_index tid = elim (deref a e.hlist) [
  | none ↦ none
  | some n ↦
      if is_same_ba n sta_lut_index tid
      then some (some (a, n), e)
      else some (search_list e sta_lut_index tid)
]

unfoldable pub find_ba_node : RxBaEntry → ℕ → ℕ → Option Found
find_ba_node e sta_lut_index tid =
    if ltb tid num_tids then find_from e.current_ba_node e sta_lut_index tid else some (none, e)

abbrev pub zero_rx_ba : ℕ → RxBaNodeDesc
zero_rx_ba size = record {
  win_start_init = 0;
  win_start = 0;
  win_limit = 0;
  win_tail = 0;
  win_size = 0;
  buff_cnt = 0;
  pn_h = 0;
  pn_l = 0;
  reset_pn = false;
  index_mask = 0;
  reorder_buffer = replicate size zero_pkt;
}

abbrev pub init_ba_node : ℕ → ℕ → ℕ → RxBaNode
init_ba_node sta_lut_index tid size = record {
  sta_lut_index = sta_lut_index;
  tid = tid;
  active = false;
  timeout_cnt = 0;
  reorder_timer = false;
  rx_ba = zero_rx_ba size;
}

-- `address` is what both calls of kzalloc give, `none` if one of them fails. The list of the TID
-- is `&ba_entry->hlist[tid]`, with no test of the TID.
unfoldable pub create_ba_node : RxBaEntry → ℕ → ℕ → ℕ → Option ℕ → Option Found
create_ba_node e sta_lut_index tid size none = some (none, e)
create_ba_node e sta_lut_index tid size (some a) =
    let n = init_ba_node sta_lut_index tid size in
    if ltb tid (length e.hlist)
    then some (
      some (a, n),
      record e {
        hlist = set e.hlist tid ((a, n) ∷ get_or e.hlist tid []);
        current_ba_node = some a;
      },
    )
    else none

-- CP2_RESET_SUPPORT is defined by WIFI/Makefile, so the node is made inactive first and the branch
-- of an active session is dead.
unfoldable pub open_session : RxBaNode → ℕ → ℕ → ℕ → RxBaNode
open_session n win_start win_size index_size = record n {
  active = false;
  rx_ba = set_ba_node_desc n.rx_ba win_start win_size (index_size - 1);
}

-- `ret` is 0 for true and -ENOMEM for false.
unfoldable pub wlan_addba_event : RxBaEntry → ℕ → ℕ → ℕ → ℕ → Option ℕ → Option (Bool × RxBaEntry)
wlan_addba_event e sta_lut_index tid win_start win_size address =
    let size = get_index_size (2 * win_size) in
    let opened = λ (a : ℕ) (n : RxBaNode) (e' : RxBaEntry).
      let n' = open_session n win_start win_size size in some (true, store a n' e') in
    elim (find_ba_node e sta_lut_index tid) [
      | none ↦ none
      | some (some (a, n), e') ↦ opened a n e'
      | some (none, e') ↦ elim (create_ba_node e' sta_lut_index tid size address) [
        | none ↦ none
        | some (none, e'') ↦ some (false, e'')
        | some (some (a, n), e'') ↦ opened a n e''
      ]
    ]

-- The part of wlan_delba_event under the node's lock: an active session sends what is in order and
-- frees the rest. `kfree(ba_node->rx_ba)` then drops the slots.
unfoldable pub delba_node : Skbs → RxBaNode → Skbs
delba_node s n =
    if n.active
    then (flush_reorder_buffer (between_seqlo_seqhi (record { skbs = s; rx_ba = n.rx_ba }))).skbs
    else s

-- `current_ba_node` is set to NULL only where a node was found.
unfoldable pub wlan_delba_event : RxBaEntry → ℕ → ℕ → Option RxBaEntry
wlan_delba_event e sta_lut_index tid = elim (find_ba_node e sta_lut_index tid) [
  | none ↦ none
  | some (none, e') ↦ some e'
  | some (some (a, n), e') ↦
      some (record (unlink a e') { skbs = delba_node e'.skbs n; current_ba_node = none })
]

-- The same part of peer_entry_delba, which sends nothing.
unfoldable pub peer_delba_node : Skbs → RxBaNode → Skbs
peer_delba_node s n =
    if n.active then (flush_reorder_buffer (record { skbs = s; rx_ba = n.rx_ba })).skbs else s

abbrev peer_delba_tid : ℕ → RxBaEntry → ℕ → Option RxBaEntry
peer_delba_tid lut_index e tid = elim (find_ba_node e lut_index tid) [
  | none ↦ none
  | some (none, e') ↦ some e'
  | some (some (a, n), e') ↦
      some (record (unlink a e') { skbs = peer_delba_node e'.skbs n; current_ba_node = none })
]

-- A loop over the TIDs from `tid` on, `rounds` of them.
unfoldable pub for_tids : ℕ → (RxBaEntry → ℕ → Option RxBaEntry) → ℕ → RxBaEntry → Option RxBaEntry
for_tids zero body tid e = some e
for_tids (suc rounds) body tid e = elim (body e tid) [
  | none ↦ none
  | some e' ↦ for_tids rounds body (tid + 1) e'
]

unfoldable pub peer_entry_delba : RxBaEntry → ℕ → Option RxBaEntry
peer_entry_delba e lut_index = for_tids num_tids (peer_delba_tid lut_index) 0 e
