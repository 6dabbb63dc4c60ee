-- ===== src/Defrag/Fragment.antt =====
-- One fragment of a frame through defrag_data_process of WIFI/defrag.c.
use uwe5631_aml.Common.{
  ℕ, ◌+◌, ◌-◌, ◌%◌, ◌^◌, ◌<◌, ◌≡◌, refl, ap, ◌∙◌, Bool, true, false, not, ◌&&◌, Option, none, some,
  List, [], ◌∷◌, ◌++◌, arith, ◌==◌, if◌then◌else◌, ◌>>=◌,
}
use uwe5631_aml.Defrag.{
  MsduDesc, Skb, Node, Place, locate, at, found_avail, find_defrag_node, get_defrag_node, merge,
  merge_queue, add_fragment, also_freed, put_fragment, process_found, defrag_single_data_process,
  defrag_data_process, msdu_total_len, frag_len,
}
use uwe5631_aml.Defrag.Copy.{IsSkb, AreSkbs, head_bytes, payloads, frags_len, copies}

abbrev pub returned : Option Skb → List Skb
returned none = []
returned (some s) = s ∷ []

-- The buffers one after the other, and what is returned for them.
unfoldable pub deliver : Option ℕ → List Node → List Skb → Option (List Node × List Skb)
deliver new_id ns [] = some (ns, [])
deliver new_id ns (s ∷ ss) = defrag_data_process new_id ns s >>= λ r.
    deliver new_id r.nodes ss >>= λ (ns', out). some (ns', returned r.skb ++ out)

-- `s` is fragment `k` of the frame that `d` belongs to.
pub record IsFragment (d : MsduDesc) (k : ℕ) (s : Skb) : Type 0 where
  pub is_skb : IsSkb s
  pub same_sta : s.desc.sta_lut_index ≡ d.sta_lut_index
  pub same_tid : s.desc.tid ≡ d.tid
  pub same_seq : s.desc.seq_num ≡ d.seq_num
  pub number : s.desc.frag_num ≡ k

abbrev pub is_cons : List Skb → Bool
is_cons [] = false
is_cons (s ∷ ss) = true

-- The fragments from `k` on, of which all but the last say that more follow.
unfoldable pub Follows : MsduDesc → ℕ → List Skb → Type 0
Follows d k [] = Unit {0}
Follows d k (s ∷ ss) = IsFragment d k s × (s.desc.more_frag_bit ≡ is_cons ss) × Follows d (k + 1) ss

-- The node of the frame behind fragment `k`.
abbrev pub node_of : MsduDesc → ℕ → List Skb → ℕ → Node
node_of d k ss len = record {
  sta_lut_index = d.sta_lut_index;
  tid = d.tid;
  seq_num = d.seq_num;
  skb_list = ss;
  msdu_len = len;
  last_frag_num = k;
}

-- The frame as it is returned.
abbrev pub merged : ℕ → Skb → List Skb → Skb
merged id first rest = record {
  id = id;
  desc = record (first.desc) { msdu_len = first.desc.msdu_len + frags_len rest };
  bytes = head_bytes first ++ payloads rest;
}

pub get-node :
    (d : MsduDesc) (k len : ℕ) (ss : List Skb) (after : List Node) (s : Skb)
    → IsFragment d (k + 1) s
    → get_defrag_node (node_of d k ss len ∷ after) s.desc
      ≡ at (record { before = []; node = node_of d (k + 1) ss len; after = after }) []
unfolding get_defrag_node find_defrag_node locate found_avail
get-node d k len ss after s i =
    let a : (d.sta_lut_index == s.desc.sta_lut_index && d.tid == s.desc.tid) ≡ true =
      ground (arith, i.same_sta, i.same_tid) in
    let b : (s.desc.frag_num == 0) ≡ false = ground (arith, i.number) in
    let c : (d.seq_num == s.desc.seq_num && k + 1 == s.desc.frag_num) ≡ true =
      ground (arith, i.same_seq, i.number) in
    rw (b, find_defrag_node, locate, a, found_avail, c, i.number) refl

pub process-single :
    (new_id : Option ℕ) (ns : List Node) (s : Skb) (p : Place) (purged : List Skb)
    → (s.desc.frag_num == 0 && not s.desc.more_frag_bit) ≡ false
    → get_defrag_node ns s.desc ≡ at p purged
    → defrag_data_process new_id ns s
      ≡ (put_fragment new_id s p >>= λ r. some (also_freed purged r))
unfolding defrag_data_process defrag_single_data_process process_found
process-single new_id ns s p purged e f = rw (e, f) refl

pub put-more :
    (new_id : Option ℕ) (s : Skb) (p : Place)
    → s.desc.more_frag_bit ≡ true
    → p.node.msdu_len + frag_len s.desc < 2 ^ 32
    → put_fragment new_id s p
      ≡ some (record {
        nodes =
            p.before
            ++ record (p.node) {
              skb_list = p.node.skb_list ++ s ∷ [];
              msdu_len = p.node.msdu_len + frag_len s.desc;
            }
              ∷ p.after;
        skb = none;
        freed = [];
      })
unfolding put_fragment add_fragment
put-more new_id s p e small =
    let n : (p.node.msdu_len + frag_len s.desc) % 4294967296 ≡ p.node.msdu_len + frag_len s.desc =
      omega (arith, small) in
    rw (n, e) refl

pub if_false : {A : Type 0} (b : Bool) (x y : A) → b ≡ false → (if b then x else y) ≡ y
if_false true x y e = cc e
if_false false x y e = refl

-- The nodes behind the last fragment.
abbrev pub at_end : Place → List Node
at_end p = p.before ++ p.after ++ record (p.node) { skb_list = [] } ∷ []

merge-merged :
    (id : ℕ) (p : Place) (first : Skb) (rest : List Skb)
    → IsSkb first
    → AreSkbs rest
    → msdu_total_len first.desc + frags_len rest ≡ p.node.msdu_len
    → p.node.msdu_len < 2 ^ 16
    → merge (some id) p first rest
      ≡ some (record { nodes = at_end p; skb = some (merged id first rest); freed = first ∷ rest })
unfolding merge
merge-merged id p first rest i are len small =
    let n : (p.node.msdu_len + 4294967296 - first.desc.msdu_offset) % 65536
        ≡ first.desc.msdu_len + frags_len rest =
      omega (arith, len, small) in
    rw (copies p.node.msdu_len first rest i are len small, n) refl

pub put-last :
    (id : ℕ) (s first : Skb) (rest : List Skb) (p : Place)
    → s.desc.more_frag_bit ≡ false
    → p.node.skb_list ++ s ∷ [] ≡ first ∷ rest
    → IsSkb first
    → AreSkbs rest
    → msdu_total_len first.desc + frags_len rest ≡ p.node.msdu_len + frag_len s.desc
    → p.node.msdu_len + frag_len s.desc < 2 ^ 16
    → (ns : List Node) × (put_fragment (some id) s p
        ≡ some (record { nodes = ns; skb = some (merged id first rest); freed = first ∷ rest }))
unfolding put_fragment add_fragment merge_queue
put-last id s first rest p e f i are len small =
    let m = (p.node.msdu_len + frag_len s.desc) % 2 ^ 32 in
    let n : m ≡ p.node.msdu_len + frag_len s.desc = omega (arith, small) in
    let q = record p { node = record (p.node) { skb_list = first ∷ rest; msdu_len = m } } in
    (
      at_end q,
      if_false s.desc.more_frag_bit _ _ e
          ∙ ap
              (λ ss.
                merge_queue (some id)
                  (record p { node = record (p.node) { skb_list = ss; msdu_len = m } }) ss)
              f
          ∙ merge-merged id q first rest i are (omega (arith, n, len)) (omega (arith, n, small)),
    )
