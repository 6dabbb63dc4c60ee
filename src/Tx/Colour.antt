-- ===== src/Tx/Colour.antt =====
-- The search for a mode's colour in WIFI/tx_msg.c, and the colour that a packet is tagged with.
use uwe5631_aml.Common.{
  ℕ, zero, suc, ◌+◌, ◌≤◌, ◌<◌, ◌≡◌, refl, ap, sym, ◌∙◌, Bool, true, false, not, ◌&&◌, Option, none,
  some, arith, List, [], ◌∷◌, ◌++◌, map, leb, ◌==◌, length, get_or, set, replicate, length-set,
  if◌then◌else◌,
}
use uwe5631_aml.Tx.{
  FlowControl, Priv, TxMsg, assign_color, assign_free, color_loop, find_mode, free_closed,
  is_closed, mode_none, new_color, sprdwl_fc_find_color_per_mode, sprdwl_fc_set_clor_bit, sum,
}

-- The mode that a colour is assigned to
unfoldable pub mode_at : List FlowControl → ℕ → ℕ
mode_at [] i = mode_none
mode_at (c ∷ cs) zero = c.mode
mode_at (c ∷ cs) (suc i) = mode_at cs i

-- All credits that the colours hold
unfoldable pub total_flow : List FlowControl → ℕ
total_flow [] = 0
total_flow (c ∷ cs) = c.flow + total_flow cs

-- A colour of the mode
pub record IsColour (mode i : ℕ) (cs : List FlowControl) : Type 0 where
  pub inside : i < length cs
  pub mode_of : mode_at cs i ≡ mode

-- The same number and flows of colours
pub record SameFlows (cs ds : List FlowControl) : Type 0 where
  pub size : length ds ≡ length cs
  pub total : total_flow ds ≡ total_flow cs

-- A search from number `k` on that ends at `i`
abbrev FoundAt : ℕ → ℕ → List FlowControl → ℕ → Type 0
FoundAt mode k cs i = (j : ℕ) × (i ≡ k + j) × IsColour mode j cs

find_mode-FoundAt :
    (mode k : ℕ) (cs : List FlowControl) (i : ℕ)
    → find_mode mode k cs ≡ some i
    → FoundAt mode k cs i
unfolding find_mode mode_at
find_mode-FoundAt mode k [] i e = absurd (cc e)
find_mode-FoundAt mode k (c ∷ cs) i e =
    go (c.mode == mode) (find_mode-FoundAt mode (suc k) cs i) refl e
  where
    go :
        (b : Bool)
        → (find_mode mode (suc k) cs ≡ some i → FoundAt mode (suc k) cs i)
        → (c.mode == mode) ≡ b
        → (if b then some k else find_mode mode (suc k) cs) ≡ some i
        → FoundAt mode k (c ∷ cs) i
    go true later f h =
        let at : k ≡ i = cc h in
        (0, omega (arith, at), record { inside = omega arith; mode_of = ground (arith, f) })
    go false later f h =
        let rest = later h in
        (
          suc rest.0,
          omega (arith, rest.1),
          record { inside = omega (arith, rest.2.inside); mode_of = rest.2.mode_of },
        )

pub find_mode-IsColour :
    (mode : ℕ) (cs : List FlowControl) (i : ℕ) → find_mode mode 0 cs ≡ some i → IsColour mode i cs
find_mode-IsColour mode cs i e =
    let found = find_mode-FoundAt mode 0 cs i e in
    let same : found.0 ≡ i = omega (arith, found.1) in rw (sym same) found.2

free_closed-SameFlows : (priv : Priv) (cs : List FlowControl) → SameFlows cs (free_closed priv cs)
unfolding free_closed total_flow
free_closed-SameFlows priv [] = record { size = refl; total = refl }
free_closed-SameFlows priv (c ∷ cs) =
    let rest = free_closed-SameFlows priv cs in
    record {
      size = ap suc rest.size;
      total = go rest.total (not (c.mode == mode_none) && is_closed priv c.mode);
    }
  where
    go :
        total_flow (free_closed priv cs) ≡ total_flow cs
        → (b : Bool)
        → (if b then record c { mode = mode_none } else c).flow + total_flow (free_closed priv cs)
          ≡ c.flow + total_flow cs
    go later true = omega (arith, later)
    go later false = omega (arith, later)

assign_color-SameFlows :
    (mode i : ℕ) (cs : List FlowControl) → i < length cs → SameFlows cs (assign_color mode i cs)
unfolding assign_color total_flow
assign_color-SameFlows mode i cs h = record { size = length-set cs i _; total = go cs i mode i h }
  where
    go :
        (ds : List FlowControl) (k mode bit : ℕ)
        → k < length ds
        → total_flow
            (set ds k (record (get_or ds k (new_color i)) { mode = mode; color_bit = bit }))
          ≡ total_flow ds
    go [] k mode bit h = absurd (omega arith)
    go (d ∷ ds) zero mode bit h = refl
    go (d ∷ ds) (suc k) mode bit h = omega (arith, go ds k mode bit (omega arith))

mode_at-set :
    (cs : List FlowControl) (i : ℕ) (c : FlowControl)
    → i < length cs
    → mode_at (set cs i c) i ≡ c.mode
unfolding mode_at
mode_at-set [] i c h = absurd (omega arith)
mode_at-set (d ∷ cs) zero c h = refl
mode_at-set (d ∷ cs) (suc i) c h = mode_at-set cs i c (omega arith)

assign_color-IsColour :
    (mode i : ℕ) (cs : List FlowControl) → i < length cs → IsColour mode i (assign_color mode i cs)
unfolding assign_color
assign_color-IsColour mode i cs h = record {
  inside = rw (length-set cs i _) h;
  mode_of = mode_at-set cs i _ h;
}

trans-SameFlows :
    {bs cs ds : List FlowControl} → SameFlows bs cs → SameFlows cs ds → SameFlows bs ds
trans-SameFlows p q = record { size = q.size ∙ p.size; total = q.total ∙ p.total }

-- What the search may return for `mode`, from the colours `cs`
pub record IsFound (mode : ℕ) (cs : List FlowControl) (r : Option ℕ × List FlowControl)
    : Type 0 where
  pub same : SameFlows cs r.1
  pub colour : (i : ℕ) → r.0 ≡ some i → IsColour mode i r.1

pub sprdwl_fc_find_color_per_mode-IsFound :
    (priv : Priv) (mode : ℕ) (cs : List FlowControl)
    → IsFound mode cs (sprdwl_fc_find_color_per_mode priv mode cs)
unfolding sprdwl_fc_find_color_per_mode
sprdwl_fc_find_color_per_mode-IsFound priv mode cs = go (find_mode mode 0 cs) refl
  where
    fresh : List FlowControl
    fresh = free_closed priv cs

    assigned :
        (o : Option ℕ)
        → find_mode mode_none 0 fresh ≡ o
        → IsFound mode cs
            (elim o [ none ↦ (none, fresh) | some i ↦ (some i, assign_color mode i fresh) ])
    assigned none e = record { same = free_closed-SameFlows priv cs; colour = λ i h. absurd (cc h) }
    assigned (some i) e =
        let at = (find_mode-IsColour mode_none fresh i e).inside in
        record {
          same =
              trans-SameFlows (free_closed-SameFlows priv cs)
                (assign_color-SameFlows mode i fresh at);
          colour =
              λ j h. let k : i ≡ j = cc h in rw (sym k) (assign_color-IsColour mode i fresh at);
        }

    go :
        (o : Option ℕ)
        → find_mode mode 0 cs ≡ o
        → IsFound mode cs (elim o [ some i ↦ (some i, cs) | none ↦ assign_free mode fresh ])
    go none e = assigned (find_mode mode_none 0 fresh) refl
    go (some i) e = record {
      same = record { size = refl; total = refl };
      colour = λ j h. let k : i ≡ j = cc h in find_mode-IsColour mode cs j (e ∙ ap some k);
    }

-- The colours of packets number `count + 1` on: each colour as often as its number says.
abbrev pub expand : ℕ → List ℕ → List ℕ
expand i [] = []
expand i (c ∷ cs) = replicate c i ++ expand (suc i) cs

abbrev pub count_up : ℕ → ℕ → List ℕ
count_up k zero = []
count_up k (suc n) = k ∷ count_up (suc k) n

count_up-append : (k m n : ℕ) → count_up k (m + n) ≡ count_up k m ++ count_up (k + m) n
count_up-append k zero n =
    let first : zero + n ≡ n = omega arith in
    let start : k + zero ≡ k = omega arith in
    ap (count_up k) first ∙ ap (λ (t : ℕ). count_up t n) (sym start)
count_up-append k (suc m) n =
    let first : suc m + n ≡ suc (m + n) = omega arith in
    let start : suc k + m ≡ k + suc m = omega arith in
    ap (count_up k) first
    ∙ (ap (λ (t : List ℕ). k ∷ t) (count_up-append (suc k) m n)
        ∙ ap (λ (t : ℕ). (k ∷ count_up (suc k) m) ++ count_up t n) start)

map-count_up :
    (f : ℕ → ℕ) (i k n : ℕ)
    → ((m : ℕ) → k ≤ m → m < k + n → f m ≡ i)
    → map f (count_up k n) ≡ replicate n i
map-count_up f i k zero h = refl
map-count_up f i k (suc n) h =
    let here = h k (omega arith) (omega arith) in
    let rest = map-count_up f i (suc k) n (λ m p q. h m (omega arith) (omega arith)) in
    cc (here, rest)

map-ext :
    (f g : ℕ → ℕ) (k n : ℕ)
    → ((m : ℕ) → k ≤ m → f m ≡ g m)
    → map f (count_up k n) ≡ map g (count_up k n)
map-ext f g k zero h = refl
map-ext f g k (suc n) h =
    let here = h k (omega arith) in
    let rest = map-ext f g (suc k) n (λ m p. h m (omega arith)) in cc (here, rest)

map-append : (f : ℕ → ℕ) (xs ys : List ℕ) → map f (xs ++ ys) ≡ map f xs ++ map f ys
map-append f [] ys = refl
map-append f (x ∷ xs) ys = ap (λ (t : List ℕ). f x ∷ t) (map-append f xs ys)

color_loop-expand :
    (i count : ℕ) (cs : List ℕ)
    → map (λ num. color_loop num i count cs) (count_up (suc count) (sum cs)) ≡ expand i cs
unfolding color_loop sum
color_loop-expand i count [] = refl
color_loop-expand i count (c ∷ cs) =
    ap (map loop) (count_up-append (suc count) c (sum cs))
    ∙ (map-append loop (count_up (suc count) c) (count_up (suc count + c) (sum cs))
        ∙ cc (own, later (color_loop-expand (suc i) (count + c) cs)))
  where
    loop : ℕ → ℕ
    loop num = color_loop num i count (c ∷ cs)

    own : map loop (count_up (suc count) c) ≡ replicate c i
    own =
        map-count_up loop i (suc count) c
          λ m p q. let small : leb m (count + c) ≡ true = ground (arith, p, q) in rw small refl

    rest : ℕ → ℕ
    rest num = color_loop num (suc i) (count + c) cs

    later :
        map rest (count_up (suc (count + c)) (sum cs)) ≡ expand (suc i) cs
        → map loop (count_up (suc count + c) (sum cs)) ≡ expand (suc i) cs
    later e =
        let start : suc count + c ≡ suc (count + c) = omega arith in
        map-ext loop rest (suc count + c) (sum cs)
          (λ m p. let large : leb m (count + c) ≡ false = ground (arith, p) in rw large refl)
        ∙ (ap (λ (t : ℕ). map rest (count_up t (sum cs))) start ∙ e)

-- With credits, the packets that are sent get, in their order, colour 0 as often as color_num[0]
-- says, then colour 1 as often as color_num[1] says, and so on for as many packets as the numbers
-- add up to.
pub sprdwl_fc_set_clor_bit-expand :
    (priv : Priv) (tx : TxMsg)
    → priv.no_credit ≡ false
    → map (λ num. sprdwl_fc_set_clor_bit priv num tx) (count_up 1 (sum tx.color_num))
      ≡ expand 0 tx.color_num
unfolding sprdwl_fc_set_clor_bit
sprdwl_fc_set_clor_bit-expand priv tx h = rw h (color_loop-expand 0 0 tx.color_num)
