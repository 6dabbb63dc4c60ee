-- ===== src/Multprecision.antt =====
-- Multi-precision arithmetic of BT/libbt/src/algorithms/p_256_multprecision.c.
-- An array of keyLength DWORDs is a list of as many words, least significant first. A function
-- that writes `c` returns the words of `c`. Each loop reads the words of index i before it writes
-- c[i], so `c` may be `a` or `b`, and the model takes no account of that.
pub mod Value
pub mod Add
pub mod Mult
pub mod Modular
pub mod Modulus
mod Tests
use uwe5631_aml.Common.{
  ℕ, zero, suc, ◌+◌, ◌-◌, ◌*◌, ◌/◌, ◌%◌, ◌^◌, ◌≤◌, ◌<◌, min, bit_and, ◌≡◌, refl, sym, ap, ◌∙◌, ◌≢◌,
  ◌↔◌, ◌⊎◌, inl, inr, Bool, true, false, not, ◌&&◌, ◌||◌, Option, none, some, List, [], ◌∷◌, ◌++◌,
  arith, ltb, leb, ◌==◌, if◌then◌else◌, flag, Bool-cases, length, get_or, set, take, drop,
  replicate, append-nil, append_assoc,
}

-- `DWORD` is 32 bits wide.
abbrev pub dword_mod : ℕ
dword_mod = 2 ^ 32

unfoldable pub multiprecision_init : ℕ → List ℕ
multiprecision_init key_length = replicate key_length 0

-- The tests of the loop body from the most significant word down: the sign of the first
-- difference, 1, 0 or -1.
pub data Sign : Type 0 where
  greater equal less : Sign

abbrev compare_word : ℕ → ℕ → Sign → Sign
compare_word x y greater = greater
compare_word x y less = less
compare_word x y equal = if ltb y x then greater else if ltb x y then less else equal

unfoldable pub multiprecision_compare : List ℕ → List ℕ → Sign
multiprecision_compare [] b = equal
multiprecision_compare (x ∷ a) [] = equal
multiprecision_compare (x ∷ a) (y ∷ b) = compare_word x y (multiprecision_compare a b)

unfoldable pub multiprecision_iszero : List ℕ → Bool
multiprecision_iszero [] = true
multiprecision_iszero (x ∷ a) = if x == 0 then multiprecision_iszero a else false

-- `rounds` is DWORD_BITS - i.
dword_bits_loop : ℕ → ℕ → ℕ → ℕ
dword_bits_loop zero a i = i
dword_bits_loop (suc rounds) a i =
    let rest = dword_bits_loop rounds (a / 2) (i + 1) in if a == 0 then i else rest

unfoldable pub multiprecision_dword_bits : ℕ → ℕ
unfolding dword_bits_loop
multiprecision_dword_bits a = dword_bits_loop 32 a 0

-- One more than the index of the most significant word that is not 0.
unfoldable pub multiprecision_most_signdwords : List ℕ → ℕ
multiprecision_most_signdwords [] = 0
multiprecision_most_signdwords (x ∷ a) =
    let above = multiprecision_most_signdwords a in
    if above == 0 then (if x == 0 then 0 else 1) else above + 1

unfoldable pub multiprecision_most_signbits : List ℕ → ℕ
multiprecision_most_signbits a =
    let words = multiprecision_most_signdwords a in
    if words == 0 then 0 else (words - 1) * 32 + multiprecision_dword_bits (get_or a (words - 1) 0)

-- One round of the addition: c[i] and the carrier.
abbrev pub add_word : ℕ → ℕ → ℕ → ℕ × ℕ
add_word carrier x y =
    let temp = (x + carrier) % dword_mod in
    let sum = (temp + y) % dword_mod in (sum, flag (ltb temp carrier || ltb sum y))

add_loop : ℕ → List ℕ → List ℕ → List ℕ × ℕ
add_loop carrier [] b = ([], carrier)
add_loop carrier (x ∷ a) [] = ([], carrier)
add_loop carrier (x ∷ a) (y ∷ b) =
    let (w, carry) = add_word carrier x y in let (c, last) = add_loop carry a b in (w ∷ c, last)

unfoldable pub multiprecision_add : List ℕ → List ℕ → List ℕ × ℕ
unfolding add_loop
multiprecision_add a b = add_loop 0 a b

-- One round of the subtraction: c[i] and the borrow.
abbrev pub sub_word : ℕ → ℕ → ℕ → ℕ × ℕ
sub_word borrow x y =
    let temp = (x + dword_mod - borrow) % dword_mod in
    let diff = (temp + dword_mod - y) % dword_mod in (diff, flag (ltb x temp || ltb temp diff))

sub_loop : ℕ → List ℕ → List ℕ → List ℕ × ℕ
sub_loop borrow [] b = ([], borrow)
sub_loop borrow (x ∷ a) [] = ([], borrow)
sub_loop borrow (x ∷ a) (y ∷ b) =
    let (w, borrow') = sub_word borrow x y in let (c, last) = sub_loop borrow' a b in (w ∷ c, last)

unfoldable pub multiprecision_sub : List ℕ → List ℕ → List ℕ × ℕ
unfolding sub_loop
multiprecision_sub a b = sub_loop 0 a b

-- `(temp << 1) | carrier` has the carrier in the bit that the shift leaves empty.
lshift_loop : ℕ → List ℕ → List ℕ × ℕ
lshift_loop carrier [] = ([], carrier)
lshift_loop carrier (x ∷ a) =
    let (c, last) = lshift_loop (x / 2 ^ 31) a in ((x * 2 % dword_mod + carrier) ∷ c, last)

unfoldable pub multiprecision_lshift : List ℕ → List ℕ × ℕ
unfolding lshift_loop
multiprecision_lshift a = lshift_loop 0 a

-- The loop runs from the most significant word down, so the carrier comes from the words above:
-- the result is paired with the carrier `temp << 31` that it hands to the word below.
rshift_loop : List ℕ → List ℕ × ℕ
rshift_loop [] = ([], 0)
rshift_loop (x ∷ a) =
    let (c, carrier) = rshift_loop a in ((x / 2 + carrier) ∷ c, x * 2 ^ 31 % dword_mod)

unfoldable pub multiprecision_rshift : List ℕ → List ℕ
unfolding rshift_loop
multiprecision_rshift a = (rshift_loop a).0

-- The inner loop's body: c[i + j] and U, from U, a[i], b[j] and c[i + j].
abbrev pub mult_word : ℕ → ℕ → ℕ → ℕ → ℕ × ℕ
mult_word u x y c =
    let w = x * y / dword_mod in
    let v = (x * y % dword_mod + u) % dword_mod in
    let u' = (flag (ltb v u) + w) % dword_mod in
    let v' = (v + c) % dword_mod in (v', (u' + flag (ltb v' c)) % dword_mod)

-- The inner loop at a[i], over b[j] and c[i + j]: the new words of c and U.
mult_row : ℕ → ℕ → List ℕ → List ℕ → List ℕ × ℕ
mult_row u x [] c = ([], u)
mult_row u x (y ∷ b) [] = ([], u)
mult_row u x (y ∷ b) (w ∷ c) =
    let (v, u') = mult_word u x y w in let (rest, last) = mult_row u' x b c in (v ∷ rest, last)

-- The outer loop. The list is c[i .. i + keyLength - 1]; after a row, c[i + keyLength] is U, and
-- c[i] is never written again.

mult_next : (List ℕ → List ℕ) → List ℕ → List ℕ
mult_next rest [] = []
mult_next rest (w ∷ c) = w ∷ rest c

mult_rows : List ℕ → List ℕ → List ℕ → List ℕ
mult_rows [] b c = c
mult_rows (x ∷ a) b c = let (row, u) = mult_row 0 x b c in mult_next (mult_rows a b) (row ++ u ∷ [])

-- `keyLength` is the length of `b`.
unfoldable pub multiprecision_mult : List ℕ → List ℕ → List ℕ
unfolding mult_rows mult_row mult_next
multiprecision_mult a b = mult_rows a b (multiprecision_init (length b))
