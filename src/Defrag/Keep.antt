-- ===== src/Defrag/Keep.antt =====
-- What becomes of the buffers in WIFI/defrag.c: where each is before and after.
use uwe5631_aml.Common.{
  ◌⊎◌, ℕ, suc, ◌+◌, ◌%◌, ◌^◌, ◌<◌, ◌≡◌, inl, inr, refl, Bool, true, false, not, ◌&&◌, Option, none,
  some, List, [], ◌∷◌, ◌++◌, arith, ◌==◌, if◌then◌else◌, Option-cases, length, length-append, count,
  ◌>>=◌,
}
use mathlib.Core.Option.{some-injective}
use mathlib.Core.Path.{subst}
use uwe5631_aml.Defrag.{
  Skb, Node, Place, Got, at, null, list_head, get_defrag_node, copy, copy_rest, Processed, merge,
  merge_queue, add_fragment, also_freed, put_fragment, process_found, defrag_single_data_process,
  defrag_data_process, msdu_total_len,
}
use uwe5631_aml.Defrag.Covers.{
  in_list, in_nodes, in_option, in_list-append, in_nodes-append, Covers, CoversGot,
  get_defrag_node-CoversGot,
}
use uwe5631_aml.Defrag.Returned.{IsNew, process_found-IsNew}

-- As many nodes as before, and the buffers in them and the freed ones are those that were there and
-- those that came.
record IsKept (ns : List Node) (came : List Skb) (r : Processed) : Type 0 where
  pub size : length r.nodes ≡ length ns
  pub buffers : (x : ℕ) → in_nodes x r.nodes + in_list x r.freed ≡ in_nodes x ns + in_list x came

module _ (ns : List Node) (came purged : List Skb) (p : Place)
    (size : length p.before + suc (length p.after) ≡ length ns) where
  end-IsKept :
      (ss freed : List Skb) (msdu_len : ℕ) (skb : Option Skb)
      → ((x : ℕ)
          → in_nodes x p.before + in_list x ss + in_nodes x p.after + in_list x purged
            ≡ in_nodes x ns + in_list x came)
      → ((x : ℕ) → in_list x freed ≡ in_list x ss)
      → IsKept ns came (record {
        nodes = p.before ++ p.after ++ record (p.node) { skb_list = []; msdu_len = msdu_len } ∷ [];
        skb = skb;
        freed = purged ++ freed;
      })
  end-IsKept ss freed msdu_len skb total same =
      let n = record (p.node) { skb_list = []; msdu_len = msdu_len } in
      record {
        size = omega (
          arith,
          size,
          length-append (p.before ++ p.after) (n ∷ []),
          length-append p.before p.after,
        );
        buffers = λ x. omega (
          arith,
          total x,
          same x,
          in_nodes-append x (p.before ++ p.after) (n ∷ []),
          in_nodes-append x p.before p.after,
          in_list-append x purged freed,
        );
      }

  merge-IsKept :
      (new_id : Option ℕ) (first : Skb) (rest : List Skb) (r : Processed)
      → ((x : ℕ)
          → in_nodes x p.before + in_list x (first ∷ rest) + in_nodes x p.after + in_list x purged
            ≡ in_nodes x ns + in_list x came)
      → merge new_id p first rest ≡ some r
      → IsKept ns came (also_freed purged r)
  unfolding merge
  merge-IsKept none first rest r total e =
      subst (λ r. IsKept ns came (also_freed purged r)) (some-injective _ _ e)
        (end-IsKept (first ∷ rest) (rest ++ first ∷ []) p.node.msdu_len none total
          (λ x. omega (arith, in_list-append x rest (first ∷ []))))
  merge-IsKept (some id) first rest r total e =
      let offset = msdu_total_len first.desc % 2 ^ 16 in
      elim (Option-cases (
        copy p.node.msdu_len 0 0 first.bytes offset [] >>= copy_rest p.node.msdu_len offset rest)) [
          | inl f ↦ cc (rw f at e)
          | inr (bytes, f) ↦
              subst (λ r. IsKept ns came (also_freed purged r)) (some-injective _ _ (rw f at e))
                (end-IsKept (first ∷ rest) (first ∷ rest) p.node.msdu_len _ total (λ x. refl))
        ]

  merge_queue-IsKept :
      (new_id : Option ℕ) (ss : List Skb) (r : Processed)
      → 0 < length ss
      → ((x : ℕ)
          → in_nodes x p.before + in_list x ss + in_nodes x p.after + in_list x purged
            ≡ in_nodes x ns + in_list x came)
      → merge_queue new_id p ss ≡ some r
      → IsKept ns came (also_freed purged r)
  unfolding merge_queue
  merge_queue-IsKept new_id [] r some_skb total e = absurd (omega arith)
  merge_queue-IsKept new_id (first ∷ rest) r some_skb total e =
      merge-IsKept new_id first rest r total e

  place-IsKept :
      (r : Processed)
      → ((x : ℕ)
          → in_nodes x p.before + in_list x p.node.skb_list + in_nodes x p.after + in_list x purged
            ≡ in_nodes x ns + in_list x came)
      → some (record { nodes = p.before ++ p.node ∷ p.after; skb = none; freed = [] }) ≡ some r
      → IsKept ns came (also_freed purged r)
  place-IsKept r total e =
      subst (λ r. IsKept ns came (also_freed purged r)) (some-injective _ _ e)
        (record {
          size = omega (arith, size, length-append p.before (p.node ∷ p.after));
          buffers = λ x. omega (
            arith,
            total x,
            in_nodes-append x p.before (p.node ∷ p.after),
            in_list-append x purged [],
          );
        })

put_fragment-IsKept :
    (ns : List Node) (purged : List Skb) (new_id : Option ℕ) (pskb : Skb) (p : Place)
    (r : Processed)
    → Covers ns purged p
    → put_fragment new_id pskb p ≡ some r
    → IsKept ns (pskb ∷ []) (also_freed purged r)
unfolding put_fragment add_fragment
put_fragment-IsKept ns purged new_id pskb p r c e = go pskb.desc.more_frag_bit e
  where
    q : Place
    q = record p { node = add_fragment pskb p.node }

    ss : List Skb
    ss = p.node.skb_list ++ pskb ∷ []

    total :
        (x : ℕ)
        → in_nodes x p.before + in_list x ss + in_nodes x p.after + in_list x purged
          ≡ in_nodes x ns + in_list x (pskb ∷ [])
    total x = omega (arith, c.total x, in_list-append x p.node.skb_list (pskb ∷ []))

    go :
        (b : Bool)
        → (if b
            then some (record { nodes = p.before ++ q.node ∷ p.after; skb = none; freed = [] })
            else merge_queue new_id q ss)
          ≡ some r
        → IsKept ns (pskb ∷ []) (also_freed purged r)
    go true e = place-IsKept ns (pskb ∷ []) purged q c.size r total e
    go false e =
        merge_queue-IsKept ns (pskb ∷ []) purged q c.size new_id ss r
          (omega (arith, length-append p.node.skb_list (pskb ∷ []))) total e

process_found-IsKept :
    (new_id : Option ℕ) (ns : List Node) (pskb : Skb) (g : Got) (r : Processed)
    → CoversGot ns g
    → process_found new_id ns pskb g ≡ some r
    → IsKept ns (pskb ∷ []) r
unfolding process_found CoversGot
process_found-IsKept new_id ns pskb (at p purged) r c e =
    elim (Option-cases (put_fragment new_id pskb p)) [
      | inl f ↦ cc (rw f at e)
      | inr (q, f) ↦
          subst (IsKept ns (pskb ∷ [])) (some-injective _ _ (rw f at e))
            (put_fragment-IsKept ns purged new_id pskb p q c f)
    ]
process_found-IsKept new_id ns pskb null r c e =
    subst (IsKept ns (pskb ∷ [])) (some-injective _ _ e)
      (record { size = refl; buffers = λ x. refl })
process_found-IsKept new_id ns pskb list_head r c e = cc e

-- A buffer that is a whole frame.
abbrev pub is_whole : Skb → Bool
is_whole pskb = pskb.desc.frag_num == 0 && not pskb.desc.more_frag_bit

-- Where the call ends without a fault, with some result: there are as many nodes as before, and each
-- buffer that was queued at a node or comes is now queued, freed or, if it is a whole frame, returned,
-- just once. A buffer that is returned for a fragment is the new one of dev_alloc_skb.
pub defrag_data_process-Keeps :
    (new_id : Option ℕ) (ns : List Node) (pskb : Skb) (r : Processed)
    → defrag_data_process new_id ns pskb ≡ some r
    → (length r.nodes ≡ length ns)
      × ((x : ℕ)
          → in_nodes x r.nodes
              + in_list x r.freed
              + (if is_whole pskb then in_option x r.skb else 0)
            ≡ in_nodes x ns + count x (pskb.id ∷ []))
      × (((is_whole pskb ≡ true) × (r.skb ≡ some pskb))
          ⊎ ((is_whole pskb ≡ false) × IsNew new_id r.skb))
unfolding defrag_data_process defrag_single_data_process
defrag_data_process-Keeps new_id ns pskb r e = go (is_whole pskb) refl e
  where
    go :
        (b : Bool)
        → is_whole pskb ≡ b
        → (if b
            then some (record { nodes = ns; skb = some pskb; freed = [] })
            else defrag_single_data_process new_id ns pskb)
          ≡ some r
        → (length r.nodes ≡ length ns)
          × ((x : ℕ)
              → in_nodes x r.nodes + in_list x r.freed + (if b then in_option x r.skb else 0)
                ≡ in_nodes x ns + count x (pskb.id ∷ []))
          × (((is_whole pskb ≡ true) × (r.skb ≡ some pskb))
              ⊎ ((is_whole pskb ≡ false) × IsNew new_id r.skb))
    go true w e =
        subst
          (λ (r : Processed).
            (length r.nodes ≡ length ns)
            × ((x : ℕ)
                → in_nodes x r.nodes + in_list x r.freed + in_option x r.skb
                  ≡ in_nodes x ns + count x (pskb.id ∷ []))
            × (((is_whole pskb ≡ true) × (r.skb ≡ some pskb))
                ⊎ ((is_whole pskb ≡ false) × IsNew new_id r.skb)))
          (some-injective _ _ e) (refl, λ x. omega arith, inl (w, refl))
    go false w e =
        let k =
          process_found-IsKept new_id ns pskb (get_defrag_node ns pskb.desc) r
            (get_defrag_node-CoversGot ns pskb.desc) e in
        (
          k.size,
          λ x. omega (arith, k.buffers x),
          inr (w, process_found-IsNew new_id ns pskb (get_defrag_node ns pskb.desc) r e),
        )
