-- ===== src/Defrag/Tests.antt =====
-- Two fragments through the reassembly of WIFI/defrag.c.
use uwe5631_aml.Common.{
  ◌⊎◌, ℕ, ◌+◌, ◌≡◌, refl, Bool, true, false, none, some, List, [], ◌∷◌, ◌++◌, arith, length,
  replicate, count, if◌then◌else◌,
}
use uwe5631_aml.Defrag.{
  MsduDesc, Skb, Node, Processed, zero_node, defrag_data_process, clear_cache, sprdwl_defrag_init,
  sprdwl_defrag_recover, sprdwl_defrag_deinit, find_lut,
}
use uwe5631_aml.Defrag.Covers.{in_list, in_nodes, in_option}
use uwe5631_aml.Defrag.Returned.{IsNew}
use uwe5631_aml.Defrag.Keep.{is_whole, defrag_data_process-Keeps}
use uwe5631_aml.Defrag.Fragment.{IsFragment, Follows, deliver, node_of}
use uwe5631_aml.Defrag.Reassemble.{is_fresh, deliver-merged}

-- Two bytes of descriptor, an Ethernet header without its type, and the data.
abbrev skb : ℕ → ℕ → Bool → List ℕ → Skb
skb id frag_num more text = record {
  id = id;
  desc = record {
    sta_lut_index = 6;
    tid = 5;
    seq_num = 100;
    frag_num = frag_num;
    more_frag_bit = more;
    snap_hdr_present = false;
    msdu_offset = 2;
    msdu_len = 12 + length text;
  };
  bytes = replicate 14 id ++ text;
}

abbrev first : Skb
first = skb 1 0 true (7 ∷ 8 ∷ [])

abbrev second : Skb
second = skb 2 1 false (9 ∷ [])

abbrev nodes : List Node
nodes = zero_node ∷ zero_node ∷ zero_node ∷ []

first-IsFragment : IsFragment first.desc 0 first
first-IsFragment = record {
  is_skb = record {
    header = omega arith;
    len = omega arith;
    offset = omega arith;
    room = omega arith;
  };
  same_sta = refl;
  same_tid = refl;
  same_seq = refl;
  number = refl;
}

second-IsFragment : IsFragment first.desc 1 second
second-IsFragment = record {
  is_skb = record {
    header = omega arith;
    len = omega arith;
    offset = omega arith;
    room = omega arith;
  };
  same_sta = refl;
  same_tid = refl;
  same_seq = refl;
  number = refl;
}

deliver-merged_example :
    (ns' : List Node) × (deliver (some 3) nodes (first ∷ second ∷ [])
      ≡ some (
        ns',
        record {
          id = 3;
          desc = record (first.desc) { msdu_len = 15 };
          bytes = replicate 14 1 ++ 7 ∷ 8 ∷ 9 ∷ [];
        }
            ∷ [],
      ))
unfolding Follows is_fresh uwe5631_aml.Defrag.locate
deliver-merged_example =
    deliver-merged 3 zero_node (zero_node ∷ zero_node ∷ []) first second []
      (first-IsFragment, refl, (second-IsFragment, refl, tt)) refl (omega arith)

-- The first fragment takes the last node and moves it to the front.
abbrev begun : Processed
begun = record {
  nodes = node_of first.desc 0 (first ∷ []) 16 ∷ zero_node ∷ zero_node ∷ [];
  skb = none;
  freed = [];
}

process_begun : defrag_data_process none nodes first ≡ some begun
unfolding defrag_data_process uwe5631_aml.Defrag.defrag_single_data_process
    uwe5631_aml.Defrag.process_found uwe5631_aml.Defrag.get_defrag_node
    uwe5631_aml.Defrag.init_first_defrag_node uwe5631_aml.Defrag.locate
    uwe5631_aml.Defrag.last_place uwe5631_aml.Defrag.start_at
    uwe5631_aml.Defrag.init_first_frag_node uwe5631_aml.Defrag.put_fragment
    uwe5631_aml.Defrag.add_fragment
process_begun = refl

defrag_data_process-Keeps_example :
    (length begun.nodes ≡ length nodes)
    × ((x : ℕ)
        → in_nodes x begun.nodes
            + in_list x begun.freed
            + (if is_whole first then in_option x begun.skb else 0)
          ≡ in_nodes x nodes + count x (first.id ∷ []))
    × (((is_whole first ≡ true) × (begun.skb ≡ some first))
        ⊎ ((is_whole first ≡ false) × IsNew none begun.skb))
defrag_data_process-Keeps_example = defrag_data_process-Keeps none nodes first begun process_begun

-- sprdwl_defrag_init makes three nodes, or as many as there is memory for, and sprdwl_defrag_recover
-- finds the station's index by its context.
init_example :
    (sprdwl_defrag_init (true ∷ true ∷ true ∷ []) ≡ (true, nodes))
    × (sprdwl_defrag_init (true ∷ false ∷ true ∷ []) ≡ (false, zero_node ∷ []))
    × (sprdwl_defrag_deinit begun.nodes ≡ first ∷ [])
    × (sprdwl_defrag_recover true 2 ((1, 4) ∷ (2, 6) ∷ []) begun.nodes
        ≡ (node_of first.desc 0 [] 16 ∷ zero_node ∷ zero_node ∷ [], first ∷ []))
unfolding sprdwl_defrag_init sprdwl_defrag_deinit sprdwl_defrag_recover find_lut clear_cache
init_example = (refl, refl, refl, refl)
