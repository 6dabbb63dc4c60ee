-- ===== src/Defrag/Reassemble.antt =====
-- The fragments of a frame, in order, through defrag_data_process of WIFI/defrag.c.
use uwe5631_aml.Common.{
  ℕ, ◌+◌, ◌^◌, ◌<◌, ◌≡◌, refl, sym, Bool, true, false, not, ◌&&◌, Option, none, some, List, [], ◌∷◌,
  ◌++◌, arith, ◌==◌, if◌then◌else◌, append_assoc, ◌>>=◌,
}
use mathlib.Core.Path.{subst}
use uwe5631_aml.Reorder.Seqno.{seqno_leq}
use uwe5631_aml.Defrag.{
  MsduDesc, Skb, Node, Place, locate, last_place, null, init_first_frag_node, start_at,
  or_list_head, init_first_defrag_node, get_defrag_node, header_len, msdu_total_len, frag_len,
}
use uwe5631_aml.Defrag.Copy.{IsSkb, AreSkbs, frags_len}
use uwe5631_aml.Defrag.Fragment.{
  deliver, IsFragment, is_cons, Follows, node_of, merged, get-node, process-single, put-more,
  if_false, put-last,
}

frags_len-append : (ss ts : List Skb) → frags_len (ss ++ ts) ≡ frags_len ss + frags_len ts
frags_len-append [] ts = omega arith
frags_len-append (s ∷ ss) ts = omega (arith, frags_len-append ss ts)

AreSkbs-append : (ss ts : List Skb) → AreSkbs ss → AreSkbs ts → AreSkbs (ss ++ ts)
unfolding AreSkbs
AreSkbs-append [] ts a b = b
AreSkbs-append (s ∷ ss) ts (i, a) b = (i, AreSkbs-append ss ts a b)

AreSkbs-snoc : (ss : List Skb) (s : Skb) → AreSkbs ss → IsSkb s → AreSkbs (ss ++ s ∷ [])
unfolding AreSkbs
AreSkbs-snoc ss s a i = AreSkbs-append ss (s ∷ []) a (i, tt)

pub later :
    (d : MsduDesc) (k : ℕ) (s : Skb)
    → IsFragment d (k + 1) s
    → (s.desc.frag_num == 0 && not s.desc.more_frag_bit) ≡ false
later d k s i = let e : (s.desc.frag_num == 0) ≡ false = ground (arith, i.number) in rw e refl

module _ (id : ℕ) (d : MsduDesc) (after : List Node) (first : Skb) (is_first : IsSkb first) where
  -- The node of `d` with the first fragment and `rest`.
  collecting : ℕ → List Skb → List Node
  collecting k rest =
      node_of d k (first ∷ rest) (msdu_total_len first.desc + frags_len rest) ∷ after

  collect :
      (k : ℕ) (rest fs : List Skb)
      → AreSkbs rest
      → msdu_total_len first.desc + frags_len rest + frags_len fs < 2 ^ 16
      → is_cons fs ≡ true
      → Follows d (k + 1) fs
      → (ns : List Node) × (deliver (some id) (collecting k rest) fs
          ≡ some (ns, merged id first (rest ++ fs) ∷ []))
  unfolding deliver collecting Follows
  collect k rest [] are small e follows = cc e
  collect k rest (s ∷ []) are small _ (i, e, follows) =
      let p : Place = record {
        before = [];
        node = node_of d (k + 1) (first ∷ rest) (msdu_total_len first.desc + frags_len rest);
        after = after;
      } in
      let (ns, f) =
        put-last id s first (rest ++ s ∷ []) p e refl is_first (AreSkbs-snoc rest s are i.is_skb)
          (omega (arith, frags_len-append rest (s ∷ []))) (omega (arith, small)) in
      (
        ns,
        rw
            (
              process-single (some id) (collecting k rest) s p [] (later d k s i)
                  (get-node d k _ (first ∷ rest) after s i),
              f,
            )
            refl,
      )
  collect k rest (s ∷ t ∷ ts) are small _ (i, e, follows) =
      let p : Place = record {
        before = [];
        node = node_of d (k + 1) (first ∷ rest) (msdu_total_len first.desc + frags_len rest);
        after = after;
      } in
      let len : msdu_total_len first.desc + frags_len rest + frag_len s.desc
          ≡ msdu_total_len first.desc + frags_len (rest ++ s ∷ []) =
        omega (arith, frags_len-append rest (s ∷ [])) in
      let (ns, f) =
        collect (k + 1) (rest ++ s ∷ []) (t ∷ ts) (AreSkbs-snoc rest s are i.is_skb)
          (omega (arith, small, len)) refl follows in
      (
        ns,
        rw
            (
              process-single (some id) (collecting k rest) s p [] (later d k s i)
                  (get-node d k _ (first ∷ rest) after s i),
              put-more (some id) s p e (omega (arith, small)),
              len,
              f,
              append_assoc,
            )
            refl,
      )

-- The first node of the station's traffic class, if any, has an older sequence number.
unfoldable pub is_fresh : List Node → MsduDesc → Bool
is_fresh ns d = elim (locate d ns) [
  | none ↦ true
  | some p ↦ not (seqno_leq d.seq_num p.node.seq_num)
]

last_place-some : (n : Node) (ns : List Node) → (p : Place) × (last_place (n ∷ ns) ≡ some p)
unfolding last_place
last_place-some n [] = (_, refl)
last_place-some n (m ∷ ns) =
    let (p, e) = last_place-some m ns in (record p { before = n ∷ p.before }, rw e refl)

get-first :
    (n : Node) (ns : List Node) (d : MsduDesc)
    → d.frag_num ≡ 0
    → is_fresh (n ∷ ns) d ≡ true
    → (p : Place) × (get_defrag_node (n ∷ ns) d ≡ start_at d p)
unfolding get_defrag_node init_first_defrag_node is_fresh
get-first n ns d zeroth fresh =
    let e : (d.frag_num == 0) ≡ true = ground (arith, zeroth) in rw e (go (locate d (n ∷ ns)) fresh)
  where
    go :
        (m : Option Place)
        → elim m [ none ↦ true | some p ↦ not (seqno_leq d.seq_num p.node.seq_num) ] ≡ true
        → (p : Place) × (elim m [
          | none ↦ or_list_head (last_place (n ∷ ns) >>= λ p. some (start_at d p))
          | some p ↦ if seqno_leq d.seq_num p.node.seq_num then null else start_at d p
        ]
            ≡ start_at d p)
    go none fresh = let (p, e) = last_place-some n ns in (p, rw e refl)
    go (some p) fresh =
        (p, if_false (seqno_leq d.seq_num p.node.seq_num) _ _ (ground (arith, fresh)))

-- Two or more fragments of a frame that come one after the other are returned as one frame, when the
-- last comes: the bytes of the first, header included, and behind them in order what the others carry
-- behind their headers. It holds whatever the nodes hold, if there is a node, the first node of the
-- station's traffic class, if any, has an older sequence number, dev_alloc_skb gives a buffer, and
-- the frame is shorter than 2^16.
pub deliver-merged :
    (id : ℕ) (n : Node) (ns : List Node) (first second : Skb) (others : List Skb)
    → Follows first.desc 0 (first ∷ second ∷ others)
    → is_fresh (n ∷ ns) first.desc ≡ true
    → msdu_total_len first.desc + frags_len (second ∷ others) < 2 ^ 16
    → (ns' : List Node) × (deliver (some id) (n ∷ ns) (first ∷ second ∷ others)
        ≡ some (ns', merged id first (second ∷ others) ∷ []))
unfolding Follows deliver collecting start_at init_first_frag_node AreSkbs
deliver-merged id n ns first second others (i, e, follows) fresh small =
    let d = first.desc in
    let (p, g) = get-first n ns d i.number fresh in
    let after = p.before ++ p.after in
    let q : Place = record {
      before = [];
      node = node_of d d.frag_num [] (header_len d + d.msdu_offset);
      after = after;
    } in
    let whole : (d.frag_num == 0 && not d.more_frag_bit) ≡ false = rw (i.number, e) refl in
    let len : header_len d + d.msdu_offset + frag_len d ≡ msdu_total_len d + 0 =
      omega (arith, i.is_skb.header, i.is_skb.len) in
    let (ns', f) =
      collect id d after first i.is_skb d.frag_num [] (second ∷ others) tt (omega (arith, small))
        refl (subst (λ k. Follows d (k + 1) (second ∷ others)) (sym i.number) follows) in
    (
      ns',
      rw
          (
            process-single (some id) (n ∷ ns) first q p.node.skb_list whole g,
            put-more (some id) first q e (omega (arith, len, small)),
            len,
            f,
          )
          refl,
    )
