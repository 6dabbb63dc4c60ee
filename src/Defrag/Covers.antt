-- ===== src/Defrag/Covers.antt =====
-- The node that get_defrag_node of WIFI/defrag.c finds, and the buffers around it.
use uwe5631_aml.Common.{
  ℕ, suc, ◌+◌, ◌≡◌, inl, inr, refl, ◌&&◌, Option, none, some, List, [], ◌∷◌, ◌++◌, arith, ◌==◌,
  if◌then◌else◌, Bool-cases, Option-cases, length, length-append, count, ◌>>=◌,
}
use mathlib.Core.Option.{some-injective}
use mathlib.Core.Path.{subst}
use uwe5631_aml.Reorder.Seqno.{seqno_leq}
use uwe5631_aml.Defrag.{
  MsduDesc, Skb, Node, Place, locate, last_place, Got, at, null, list_head, found_avail,
  find_defrag_node, init_first_frag_node, start_at, or_list_head, init_first_defrag_node,
  get_defrag_node,
}

-- How often the buffer `x` is in a list, and in the nodes.
abbrev pub in_list : ℕ → List Skb → ℕ
in_list x [] = 0
in_list x (s ∷ ss) = count x (s.id ∷ []) + in_list x ss

abbrev pub in_nodes : ℕ → List Node → ℕ
in_nodes x [] = 0
in_nodes x (n ∷ ns) = in_list x n.skb_list + in_nodes x ns

abbrev pub in_option : ℕ → Option Skb → ℕ
in_option x none = 0
in_option x (some s) = count x (s.id ∷ [])

pub in_list-append : (x : ℕ) (ss ts : List Skb) → in_list x (ss ++ ts) ≡ in_list x ss + in_list x ts
in_list-append x [] ts = omega arith
in_list-append x (s ∷ ss) ts = omega (arith, in_list-append x ss ts)

pub in_nodes-append :
    (x : ℕ) (ns ms : List Node) → in_nodes x (ns ++ ms) ≡ in_nodes x ns + in_nodes x ms
in_nodes-append x [] ms = omega arith
in_nodes-append x (n ∷ ns) ms = omega (arith, in_nodes-append x ns ms)

-- A place has all the nodes, but for the buffers that were purged.
pub record Covers (ns : List Node) (purged : List Skb) (p : Place) : Type 0 where
  pub total :
      (x : ℕ)
      → in_nodes x p.before + in_list x p.node.skb_list + in_nodes x p.after + in_list x purged
        ≡ in_nodes x ns
  pub size : length p.before + suc (length p.after) ≡ length ns

Covers-cons :
    (n : Node) (ns : List Node) (p : Place)
    → Covers ns [] p
    → Covers (n ∷ ns) [] (record p { before = n ∷ p.before })
Covers-cons n ns p c = record {
  total = λ x. omega (arith, c.total x);
  size = omega (arith, c.size);
}

locate-Covers : (d : MsduDesc) (ns : List Node) (p : Place) → locate d ns ≡ some p → Covers ns [] p
unfolding locate
locate-Covers d [] p e = cc e
locate-Covers d (n ∷ ns) p e =
    elim (Bool-cases (n.sta_lut_index == d.sta_lut_index && n.tid == d.tid)) [
      | inl f ↦
          subst (Covers (n ∷ ns) []) (some-injective _ _ (rw f at e))
            (record { total = λ x. omega arith; size = omega arith })
      | inr f ↦ elim (Option-cases (locate d ns)) [
        | inl g ↦ cc (rw (f, g) at e)
        | inr (q, g) ↦
            subst (Covers (n ∷ ns) []) (some-injective _ _ (rw (f, g) at e))
              (Covers-cons n ns q (locate-Covers d ns q g))
      ]
    ]

last_place-Covers : (ns : List Node) (p : Place) → last_place ns ≡ some p → Covers ns [] p
unfolding last_place
last_place-Covers [] p e = cc e
last_place-Covers (n ∷ []) p e =
    subst (Covers (n ∷ []) []) (some-injective _ _ e)
      (record { total = λ x. omega arith; size = omega arith })
last_place-Covers (n ∷ m ∷ ns) p e = elim (Option-cases (last_place (m ∷ ns))) [
  | inl g ↦ cc (rw g at e)
  | inr (q, g) ↦
      subst (Covers (n ∷ m ∷ ns) []) (some-injective _ _ (rw g at e))
        (Covers-cons n (m ∷ ns) q (last_place-Covers (m ∷ ns) q g))
]

unfoldable pub CoversGot : List Node → Got → Type 0
CoversGot ns (at p purged) = Covers ns purged p
CoversGot ns null = Unit {0}
CoversGot ns list_head = Unit {0}

start_at-CoversGot :
    (d : MsduDesc) (ns : List Node) (p : Place) → Covers ns [] p → CoversGot ns (start_at d p)
unfolding CoversGot start_at init_first_frag_node
start_at-CoversGot d ns p c = record {
  total = λ x. omega (arith, c.total x, in_nodes-append x p.before p.after);
  size = omega (arith, c.size, length-append p.before p.after);
}

found_avail-CoversGot :
    (d : MsduDesc) (ns : List Node) (p : Place) → Covers ns [] p → CoversGot ns (found_avail d p)
unfolding CoversGot found_avail
found_avail-CoversGot d ns p c =
    elim (Bool-cases (p.node.seq_num == d.seq_num && p.node.last_frag_num + 1 == d.frag_num)) [
      | inl e ↦ rw e (record { total = c.total; size = c.size })
      | inr e ↦ rw e tt
    ]

init_first-CoversGot :
    (ns : List Node) (d : MsduDesc) (m l : Option Place)
    → locate d ns ≡ m
    → last_place ns ≡ l
    → CoversGot ns (elim m [
      | none ↦ or_list_head (l >>= λ p. some (start_at d p))
      | some p ↦ if seqno_leq d.seq_num p.node.seq_num then null else start_at d p
    ])
unfolding CoversGot
init_first-CoversGot ns d none none e f = tt
init_first-CoversGot ns d none (some p) e f = start_at-CoversGot d ns p (last_place-Covers ns p f)
init_first-CoversGot ns d (some p) l e f = elim (Bool-cases (seqno_leq d.seq_num p.node.seq_num)) [
  | inl g ↦ rw g tt
  | inr g ↦ rw g (start_at-CoversGot d ns p (locate-Covers d ns p e))
]

find-CoversGot :
    (ns : List Node) (d : MsduDesc) (m : Option Place)
    → locate d ns ≡ m
    → CoversGot ns (elim m [ none ↦ null | some p ↦ found_avail d p ])
unfolding CoversGot
find-CoversGot ns d none e = tt
find-CoversGot ns d (some p) e = found_avail-CoversGot d ns p (locate-Covers d ns p e)

pub get_defrag_node-CoversGot :
    (ns : List Node) (d : MsduDesc) → CoversGot ns (get_defrag_node ns d)
unfolding get_defrag_node find_defrag_node init_first_defrag_node
get_defrag_node-CoversGot ns d = elim (Bool-cases (d.frag_num == 0)) [
  | inl e ↦ rw e (init_first-CoversGot ns d (locate d ns) (last_place ns) refl refl)
  | inr e ↦ rw e (find-CoversGot ns d (locate d ns) refl)
]
