-- ===== src/Defrag.antt =====
-- The reassembly of fragments in WIFI/defrag.c and WIFI/defrag.h. The list of nodes is a list, and a
-- node that was found in it stands between those before and those after it.
pub mod Covers
pub mod Keep
pub mod Copy
pub mod Fragment
pub mod Reassemble
pub mod Returned
pub mod Stale
pub mod Tests
use uwe5631_aml.Common.{
  ℕ, zero, suc, ◌+◌, ◌-◌, ◌*◌, ◌%◌, ◌^◌, ◌≤◌, ◌<◌, ◌≡◌, Bool, true, false, not, ◌&&◌, ◌||◌, Option,
  none, some, List, [], ◌∷◌, ◌++◌, map, ltb, leb, ◌==◌, if◌then◌else◌, length, take, drop, ◌>>=◌,
}
use uwe5631_aml.Reorder.Seqno.{seqno_leq}

-- The fields of `struct rx_msdu_desc` that the code reads.
pub record MsduDesc : Type 0 where
  pub sta_lut_index : ℕ
  pub tid : ℕ
  pub seq_num : ℕ
  pub frag_num : ℕ
  pub more_frag_bit : Bool
  pub snap_hdr_present : Bool
  pub msdu_offset : ℕ
  pub msdu_len : ℕ

-- A socket buffer: its identity, its descriptor and the bytes at skb->data. The descriptor lies in
-- the first msdu_offset bytes; the field of it that the code changes is kept in `desc`.
pub record Skb : Type 0 where
  pub id : ℕ
  pub desc : MsduDesc
  pub bytes : List ℕ

-- `struct rx_defrag_node`, with the fields of its `desc` that are read again.
pub record Node : Type 0 where
  pub sta_lut_index : ℕ
  pub tid : ℕ
  pub seq_num : ℕ
  pub skb_list : List Skb
  pub msdu_len : ℕ
  pub last_frag_num : ℕ

pub record Place : Type 0 where
  pub before : List Node
  pub node : Node
  pub after : List Node

-- The first node of a station's traffic class.
unfoldable pub locate : MsduDesc → List Node → Option Place
locate d [] = none
locate d (n ∷ ns) =
    if n.sta_lut_index == d.sta_lut_index && n.tid == d.tid
    then some (record { before = []; node = n; after = ns })
    else (locate d ns >>= λ p. some (record p { before = n ∷ p.before }))

-- `list_entry(defrag_entry->list.prev)`: the last node. An empty list has none, and the code would
-- take the list's head for one.
unfoldable pub last_place : List Node → Option Place
last_place [] = none
last_place (n ∷ []) = some (record { before = []; node = n; after = [] })
last_place (n ∷ ns) = last_place ns >>= λ p. some (record p { before = n ∷ p.before })

-- A node, NULL, or the head of an empty list taken for a node.
pub data Got : Type 0 where
  at : Place → List Skb → Got
  null list_head : Got

unfoldable pub found_avail : MsduDesc → Place → Got
found_avail d p =
    if p.node.seq_num == d.seq_num && p.node.last_frag_num + 1 == d.frag_num
    then at (record p { node = record (p.node) { last_frag_num = d.frag_num } }) []
    else null

unfoldable pub find_defrag_node : List Node → MsduDesc → Got
find_defrag_node ns d = elim (locate d ns) [ none ↦ null | some p ↦ found_avail d p ]

-- ETH_HLEN is 14, and 2*ETH_ALEN is 12.
abbrev pub header_len : MsduDesc → ℕ
header_len d = if d.snap_hdr_present then 14 else 12

unfoldable pub init_first_frag_node : MsduDesc → Node
init_first_frag_node d = record {
  sta_lut_index = d.sta_lut_index;
  tid = d.tid;
  seq_num = d.seq_num;
  skb_list = [];
  msdu_len = header_len d + d.msdu_offset;
  last_frag_num = d.frag_num;
}

-- `list_move` to the head. The node's old buffers are purged.
unfoldable pub start_at : MsduDesc → Place → Got
start_at d p =
    at (record { before = []; node = init_first_frag_node d; after = p.before ++ p.after })
      p.node.skb_list

abbrev pub or_list_head : Option Got → Got
or_list_head none = list_head
or_list_head (some f) = f

unfoldable pub init_first_defrag_node : List Node → MsduDesc → Got
init_first_defrag_node ns d = elim (locate d ns) [
  | none ↦ or_list_head (last_place ns >>= λ p. some (start_at d p))
  | some p ↦ if seqno_leq d.seq_num p.node.seq_num then null else start_at d p
]

unfoldable pub get_defrag_node : List Node → MsduDesc → Got
get_defrag_node ns d =
    if d.frag_num == 0 then init_first_defrag_node ns d else find_defrag_node ns d

-- The lengths are unsigned shorts.
abbrev pub frag_len : MsduDesc → ℕ
frag_len d = (d.msdu_len + 2 ^ 16 - header_len d) % 2 ^ 16

abbrev pub frag_offset : MsduDesc → ℕ
frag_offset d = (d.msdu_offset + header_len d) % 2 ^ 16

abbrev pub msdu_total_len : MsduDesc → ℕ
msdu_total_len d = d.msdu_offset + d.msdu_len

-- memcpy of `n` bytes at `from` in `src` to `to` in a buffer of `size` bytes, of which `dest` are the
-- ones written so far; reading or writing past an end is a fault.
unfoldable pub copy : ℕ → ℕ → ℕ → List ℕ → ℕ → List ℕ → Option (List ℕ)
copy size to from src n dest =
    if leb (from + n) (length src) && leb (to + n) size
    then some (take to dest ++ take n (drop from src) ++ drop (to + n) dest)
    else none

unfoldable pub copy_rest : ℕ → ℕ → List Skb → List ℕ → Option (List ℕ)
copy_rest size offset [] dest = some dest
copy_rest size offset (s ∷ ss) dest =
    copy size offset (frag_offset s.desc) s.bytes (frag_len s.desc) dest
    >>= copy_rest size ((offset + frag_len s.desc) % 2 ^ 16) ss

-- What the code leaves: the nodes, the buffer that it returns, and the buffers that it freed.
pub record Processed : Type 0 where
  pub nodes : List Node
  pub skb : Option Skb
  pub freed : List Skb

-- The last fragment came, and `first` was taken from the queue: `new_id` is the buffer that
-- dev_alloc_skb returns, if any. The node moves to the tail.
unfoldable pub merge : Option ℕ → Place → Skb → List Skb → Option Processed
merge new_id p first rest =
    let d = record (first.desc) {
      msdu_len = (p.node.msdu_len + 2 ^ 32 - first.desc.msdu_offset) % 2 ^ 16;
    } in
    let offset = msdu_total_len first.desc % 2 ^ 16 in
    let nodes = p.before ++ p.after ++ record (p.node) { skb_list = [] } ∷ [] in
    elim new_id [
      | none ↦ some (record { nodes = nodes; skb = none; freed = rest ++ first ∷ [] })
      | some id ↦
          copy p.node.msdu_len 0 0 first.bytes offset []
          >>= copy_rest p.node.msdu_len offset rest
          >>= λ bytes. some (record {
            nodes = nodes;
            skb = some (record { id = id; desc = d; bytes = bytes });
            freed = first ∷ rest;
          })
    ]

-- skb_dequeue
unfoldable pub merge_queue : Option ℕ → Place → List Skb → Option Processed
merge_queue new_id p [] =
    some (record { nodes = p.before ++ p.node ∷ p.after; skb = none; freed = [] })
merge_queue new_id p (first ∷ rest) = merge new_id p first rest

unfoldable pub add_fragment : Skb → Node → Node
add_fragment pskb n = record n {
  skb_list = n.skb_list ++ pskb ∷ [];
  msdu_len = (n.msdu_len + frag_len pskb.desc) % 2 ^ 32;
}

abbrev pub also_freed : List Skb → Processed → Processed
also_freed purged r = record r { freed = purged ++ r.freed }

unfoldable pub put_fragment : Option ℕ → Skb → Place → Option Processed
put_fragment new_id pskb p =
    let n = add_fragment pskb p.node in
    if pskb.desc.more_frag_bit
    then some (record { nodes = p.before ++ n ∷ p.after; skb = none; freed = [] })
    else merge_queue new_id (record p { node = n }) n.skb_list

unfoldable pub process_found : Option ℕ → List Node → Skb → Got → Option Processed
process_found new_id ns pskb (at p purged) =
    put_fragment new_id pskb p >>= λ r. some (also_freed purged r)
process_found new_id ns pskb null = some (record { nodes = ns; skb = none; freed = pskb ∷ [] })
process_found new_id ns pskb list_head = none

unfoldable pub defrag_single_data_process : Option ℕ → List Node → Skb → Option Processed
defrag_single_data_process new_id ns pskb =
    process_found new_id ns pskb (get_defrag_node ns pskb.desc)

unfoldable pub defrag_data_process : Option ℕ → List Node → Skb → Option Processed
defrag_data_process new_id ns pskb =
    if pskb.desc.frag_num == 0 && not pskb.desc.more_frag_bit
    then some (record { nodes = ns; skb = some pskb; freed = [] })
    else defrag_single_data_process new_id ns pskb

-- The nodes as kzalloc leaves them.
abbrev pub zero_node : Node
zero_node = record {
  sta_lut_index = 0;
  tid = 0;
  seq_num = 0;
  skb_list = [];
  msdu_len = 0;
  last_frag_num = 0;
}

-- The code's loop has MAX_DEFRAG_NUM rounds, which is 3; `kzalloc` is whether each call succeeds.
unfoldable pub sprdwl_defrag_init : List Bool → Bool × List Node
sprdwl_defrag_init [] = (true, [])
sprdwl_defrag_init (false ∷ kzalloc) = (false, [])
sprdwl_defrag_init (true ∷ kzalloc) =
    let (ret, ns) = sprdwl_defrag_init kzalloc in (ret, ns ++ zero_node ∷ [])

unfoldable pub sprdwl_defrag_deinit : List Node → List Skb
sprdwl_defrag_deinit [] = []
sprdwl_defrag_deinit (n ∷ ns) = n.skb_list ++ sprdwl_defrag_deinit ns

-- The part of sprdwl_defrag_recover behind the search for the peer, whose index is `lut_index`.
unfoldable pub clear_cache : ℕ → List Node → List Node × List Skb
clear_cache lut_index [] = ([], [])
clear_cache lut_index (n ∷ ns) =
    let (ns', freed) = clear_cache lut_index ns in
    if lut_index == n.sta_lut_index
    then (record n { skb_list = [] } ∷ ns', n.skb_list ++ freed)
    else (n ∷ ns', freed)

-- The loop over intf->peer_entry: the context and the index of each of the MAX_LUT_NUM entries.
unfoldable pub find_lut : ℕ → List (ℕ × ℕ) → Option ℕ
find_lut ctx_id [] = none
find_lut ctx_id ((peer_ctx, lut_index) ∷ es) =
    if peer_ctx == ctx_id then some lut_index else find_lut ctx_id es

-- `is_client` is whether the interface's mode is a station's or a P2P client's.
unfoldable pub sprdwl_defrag_recover : Bool → ℕ → List (ℕ × ℕ) → List Node → List Node × List Skb
sprdwl_defrag_recover is_client ctx_id peers ns =
    elim (if is_client then find_lut ctx_id peers else none) [
      | none ↦ (ns, [])
      | some lut_index ↦ clear_cache lut_index ns
    ]
