-- ===== src/Tx/Distribute.antt =====
-- What the loops of sprdwl_tx_eachmode_data in WIFI/tx_msg.c move: the front of each list, counted.
use uwe5631_aml.Common.{
  ℕ, ◌+◌, ◌≡◌, refl, ◌∙◌, arith, List, [], ◌∷◌, ◌++◌, append_assoc, length, length-append,
}
use uwe5631_aml.Tx.Queues.{Moved, Packet, PeerList, Taken, skip, then_lists, then_move}

abbrev pub IsCounted : PeerList → Type 0
IsCounted p = p.l_num ≡ length p.head_list

-- Each list is as long as its count says.
abbrev pub AllCounted : List PeerList → Type 0
AllCounted [] = Unit {0}
AllCounted (p ∷ ps) = IsCounted p × AllCounted ps

-- The packets are the fronts that the lists lost, in the lists' order.
pub data Cut : List PeerList → List PeerList → List Packet → Type 0 where
  done : Cut [] [] []
  cut :
      {p after : PeerList} {ps qs : List PeerList} {xs : List Packet} (front : List Packet)
      → p.head_list ≡ front ++ after.head_list
      → Cut ps qs xs
      → Cut (p ∷ ps) (after ∷ qs) (front ++ xs)

abbrev pub join : List (List PeerList) → List PeerList
join [] = []
join (q ∷ qs) = q ++ join qs

-- `n` packets left a list.
pub record IsTaken (p : PeerList) (t : Taken) (n : ℕ) : Type 0 where
  pub split : p.head_list ≡ t.packets ++ t.peer.head_list
  pub counted : IsCounted t.peer
  pub size : length t.packets ≡ n
  pub num : t.num ≡ n

-- `n` packets left some lists.
pub record IsMove (ps qs : List PeerList) (xs : List Packet) (num n : ℕ) : Type 0 where
  pub fronts : Cut ps qs xs
  pub counted : AllCounted qs
  pub size : length xs ≡ n
  pub total : num ≡ n

abbrev pub IsMoved : List PeerList → Moved PeerList → ℕ → Type 0
IsMoved ps m n = IsMove ps m.lists m.packets m.num n

abbrev pub IsMovedAll : List (List PeerList) → Moved (List PeerList) → ℕ → Type 0
IsMovedAll qs m n = IsMove (join qs) (join m.lists) m.packets m.num n

pub same-Cut : (ps : List PeerList) → Cut ps ps []
same-Cut [] = done
same-Cut (p ∷ ps) = cut [] refl (same-Cut ps)

pub same-IsMove : (ps : List PeerList) → AllCounted ps → IsMove ps ps [] 0 0
same-IsMove ps c = record { fronts = same-Cut ps; counted = c; size = refl; total = refl }

pub resize :
    {ps qs : List PeerList} {xs : List Packet} {num n k : ℕ}
    → n ≡ k
    → IsMove ps qs xs num n
    → IsMove ps qs xs num k
resize e m = record {
  fronts = m.fronts;
  counted = m.counted;
  size = m.size ∙ e;
  total = m.total ∙ e;
}

pub then_move-IsMoved :
    {p : PeerList} {t : Taken} {ps : List PeerList} {m : Moved PeerList} {a b : ℕ}
    → IsTaken p t a
    → IsMoved ps m b
    → IsMoved (p ∷ ps) (then_move t m) (a + b)
then_move-IsMoved {t} {m} h k = record {
  fronts = cut t.packets h.split k.fronts;
  counted = (h.counted, k.counted);
  size = omega (arith, length-append t.packets m.packets, h.size, k.size);
  total = omega (arith, h.num, k.total);
}

pub skip-IsMoved :
    {p : PeerList} {ps : List PeerList} {m : Moved PeerList} {n : ℕ}
    → IsCounted p
    → IsMoved ps m n
    → IsMoved (p ∷ ps) (skip p m) n
skip-IsMoved c k = record {
  fronts = cut [] refl k.fronts;
  counted = (c, k.counted);
  size = k.size;
  total = k.total;
}

Cut-append :
    {ps qs rs ss : List PeerList} {xs ys : List Packet}
    → Cut ps qs xs
    → Cut rs ss ys
    → Cut (ps ++ rs) (qs ++ ss) (xs ++ ys)
Cut-append done d = d
Cut-append {rs} {ss} {ys} (cut {p} {after} {ps} {qs} {xs} front e c) d =
    rw (append_assoc front xs ys) (cut front e (Cut-append c d))

AllCounted-append : (ps qs : List PeerList) → AllCounted ps → AllCounted qs → AllCounted (ps ++ qs)
AllCounted-append [] qs c d = d
AllCounted-append (p ∷ ps) qs c d = (c.0, AllCounted-append ps qs c.1 d)

pub AllCounted-left : (ps qs : List PeerList) → AllCounted (ps ++ qs) → AllCounted ps
AllCounted-left [] qs c = tt
AllCounted-left (p ∷ ps) qs c = (c.0, AllCounted-left ps qs c.1)

pub AllCounted-right : (ps qs : List PeerList) → AllCounted (ps ++ qs) → AllCounted qs
AllCounted-right [] qs c = c
AllCounted-right (p ∷ ps) qs c = AllCounted-right ps qs c.1

pub then_lists-IsMovedAll :
    {a b : ℕ} (q : List PeerList) (l : Moved PeerList) (qs : List (List PeerList))
    (m : Moved (List PeerList))
    → IsMoved q l a
    → IsMovedAll qs m b
    → IsMovedAll (q ∷ qs) (then_lists l m) (a + b)
then_lists-IsMovedAll q l qs m h k = record {
  fronts = Cut-append h.fronts k.fronts;
  counted = AllCounted-append l.lists (join m.lists) h.counted k.counted;
  size = omega (arith, length-append l.packets m.packets, h.size, k.size);
  total = omega (arith, h.total, k.total);
}

pub skip-IsMovedAll :
    {n : ℕ} (q : List PeerList) (qs : List (List PeerList)) (m : Moved (List PeerList))
    → AllCounted q
    → IsMovedAll qs m n
    → IsMovedAll (q ∷ qs) (skip q m) n
skip-IsMovedAll q qs m c k = record {
  fronts = Cut-append (same-Cut q) k.fronts;
  counted = AllCounted-append q (join m.lists) c k.counted;
  size = k.size;
  total = k.total;
}
