-- ===== src/Defrag/Returned.antt =====
-- Which buffer WIFI/defrag.c returns for a fragment.
use uwe5631_aml.Common.{
  ℕ, ◌%◌, ◌^◌, ◌≡◌, ◌⊎◌, inl, inr, refl, Bool, true, false, Option, none, some, List, [], ◌∷◌, ◌++◌,
  if◌then◌else◌, Option-cases, ◌>>=◌,
}
use mathlib.Core.Option.{some-injective}
use mathlib.Core.Path.{subst}
use uwe5631_aml.Defrag.{
  Skb, Node, Place, Got, at, null, list_head, copy, copy_rest, Processed, merge, merge_queue,
  add_fragment, put_fragment, process_found, msdu_total_len,
}

-- No buffer is returned, or the one that dev_alloc_skb gave.
abbrev pub IsNew : Option ℕ → Option Skb → Type 0
IsNew new_id o = (o ≡ none) ⊎ ((b : Skb) × (o ≡ some b) × (new_id ≡ some b.id))

merge-IsNew :
    (new_id : Option ℕ) (p : Place) (first : Skb) (rest : List Skb) (r : Processed)
    → merge new_id p first rest ≡ some r
    → IsNew new_id r.skb
unfolding merge
merge-IsNew none p first rest r e =
    subst (λ (r : Processed). IsNew none r.skb) (some-injective _ _ e) (inl refl)
merge-IsNew (some id) p first rest r e =
    let offset = msdu_total_len first.desc % 2 ^ 16 in
    elim (Option-cases
      (copy p.node.msdu_len 0 0 first.bytes offset [] >>= copy_rest p.node.msdu_len offset rest)) [
        | inl f ↦ cc (rw f at e)
        | inr (bytes, f) ↦
            subst (λ (r : Processed). IsNew (some id) r.skb) (some-injective _ _ (rw f at e))
              (inr (_, refl, refl))
      ]

put_fragment-IsNew :
    (new_id : Option ℕ) (pskb : Skb) (p : Place) (r : Processed)
    → put_fragment new_id pskb p ≡ some r
    → IsNew new_id r.skb
unfolding put_fragment merge_queue
put_fragment-IsNew new_id pskb p r e = go pskb.desc.more_frag_bit e
  where
    n : Node
    n = add_fragment pskb p.node

    q : Place
    q = record p { node = n }

    queue : (ss : List Skb) → merge_queue new_id q ss ≡ some r → IsNew new_id r.skb
    queue [] e = subst (λ (r : Processed). IsNew new_id r.skb) (some-injective _ _ e) (inl refl)
    queue (first ∷ rest) e = merge-IsNew new_id q first rest r e

    go :
        (b : Bool)
        → (if b
            then some (record { nodes = p.before ++ n ∷ p.after; skb = none; freed = [] })
            else merge_queue new_id q n.skb_list)
          ≡ some r
        → IsNew new_id r.skb
    go true e = subst (λ (r : Processed). IsNew new_id r.skb) (some-injective _ _ e) (inl refl)
    go false e = queue n.skb_list e

pub process_found-IsNew :
    (new_id : Option ℕ) (ns : List Node) (pskb : Skb) (g : Got) (r : Processed)
    → process_found new_id ns pskb g ≡ some r
    → IsNew new_id r.skb
unfolding process_found
process_found-IsNew new_id ns pskb (at p purged) r e =
    elim (Option-cases (put_fragment new_id pskb p)) [
      | inl f ↦ cc (rw f at e)
      | inr (q, f) ↦
          subst (λ (r : Processed). IsNew new_id r.skb) (some-injective _ _ (rw f at e))
            (put_fragment-IsNew new_id pskb p q f)
    ]
process_found-IsNew new_id ns pskb null r e =
    subst (λ (r : Processed). IsNew new_id r.skb) (some-injective _ _ e) (inl refl)
process_found-IsNew new_id ns pskb list_head r e = cc e
