-- ===== src/Multprecision/Add.antt =====
-- Addition, subtraction, shifts and comparison mean what they say on numbers of any length.
use uwe5631_aml.Common.{
  ℕ, ◌+◌, ◌-◌, ◌*◌, ◌/◌, ◌^◌, ◌≤◌, ◌<◌, ◌≡◌, refl, ◌⊎◌, inl, inr, List, [], ◌∷◌, arith, ltb,
  Bool-cases, ltb→lt, length,
}
use uwe5631_aml.Multprecision.{
  Sign, greater, equal, less, compare_word, multiprecision_compare, add_word, add_loop,
  multiprecision_add, sub_word, sub_loop, multiprecision_sub, lshift_loop, multiprecision_lshift,
  rshift_loop, multiprecision_rshift,
}
use uwe5631_aml.Multprecision.Value.{value, IsWords, carried, carried-eq-mul}

add_word_lem :
    (k x y : ℕ)
    → k ≤ 1
    → x < 2 ^ 32
    → y < 2 ^ 32
    → let (s, k') = add_word k x y in (s + 2 ^ 32 * k' ≡ x + y + k) × (s < 2 ^ 32) × (k' ≤ 1)
add_word_lem k x y hk hx hy = ground arith

-- What a loop over two arrays establishes, whatever the carry that it starts with.
record Adds (k : ℕ) (a b : List ℕ) (out : List ℕ × ℕ) : Type 0 where
  total : value out.0 + carried a out.1 ≡ value a + value b + k
  words : IsWords out.0
  carry : out.1 ≤ 1
  size : length out.0 ≡ length a

add_loop-Adds :
    (k : ℕ) (a b : List ℕ)
    → k ≤ 1
    → length a ≡ length b
    → IsWords a
    → IsWords b
    → Adds k a b (add_loop k a b)
unfolding add_loop
add_loop-Adds k [] [] hk e ha hb = record {
  total = omega arith;
  words = tt;
  carry = hk;
  size = refl;
}
add_loop-Adds k [] (y ∷ b) hk e ha hb = absurd (omega arith)
add_loop-Adds k (x ∷ a) [] hk e ha hb = absurd (omega arith)
add_loop-Adds k (x ∷ a) (y ∷ b) hk e ha hb =
    let w = add_word_lem k x y hk ha.0 hb.0 in
    let ih = add_loop-Adds (add_word k x y).1 a b w.2 (omega arith) ha.1 hb.1 in
    record {
      total = omega (arith, w.0, ih.total);
      words = (w.1, ih.words);
      carry = ih.carry;
      size = omega (arith, ih.size);
    }

-- c = a + b, for arrays of words of one length: the words of c and the carry that is returned make up the sum exactly.
pub multiprecision_add_lem :
    (a b : List ℕ)
    → length a ≡ length b
    → IsWords a
    → IsWords b
    → let (c, carrier) = multiprecision_add a b in
      (value c + (2 ^ 32) ^ length a * carrier ≡ value a + value b)
      × (carrier ≤ 1)
      × IsWords c
      × (length c ≡ length a)
unfolding multiprecision_add
multiprecision_add_lem a b e ha hb =
    let r = add_loop-Adds 0 a b (omega arith) e ha hb in
    (omega (arith, r.total, carried-eq-mul a (add_loop 0 a b).1), r.carry, r.words, r.size)

sub_word_lem :
    (k x y : ℕ)
    → k ≤ 1
    → x < 2 ^ 32
    → y < 2 ^ 32
    → let (d, k') = sub_word k x y in (d + y + k ≡ x + 2 ^ 32 * k') × (d < 2 ^ 32) × (k' ≤ 1)
sub_word_lem k x y hk hx hy = ground arith

record Subtracts (k : ℕ) (a b : List ℕ) (out : List ℕ × ℕ) : Type 0 where
  total : value out.0 + value b + k ≡ value a + carried a out.1
  words : IsWords out.0
  borrow : out.1 ≤ 1
  size : length out.0 ≡ length a

sub_loop-Subtracts :
    (k : ℕ) (a b : List ℕ)
    → k ≤ 1
    → length a ≡ length b
    → IsWords a
    → IsWords b
    → Subtracts k a b (sub_loop k a b)
unfolding sub_loop
sub_loop-Subtracts k [] [] hk e ha hb = record {
  total = omega arith;
  words = tt;
  borrow = hk;
  size = refl;
}
sub_loop-Subtracts k [] (y ∷ b) hk e ha hb = absurd (omega arith)
sub_loop-Subtracts k (x ∷ a) [] hk e ha hb = absurd (omega arith)
sub_loop-Subtracts k (x ∷ a) (y ∷ b) hk e ha hb =
    let w = sub_word_lem k x y hk ha.0 hb.0 in
    let ih = sub_loop-Subtracts (sub_word k x y).1 a b w.2 (omega arith) ha.1 hb.1 in
    record {
      total = omega (arith, w.0, ih.total);
      words = (w.1, ih.words);
      borrow = ih.borrow;
      size = omega (arith, ih.size);
    }

-- c = a - b, for arrays of words of one length: c is a - b, plus the first power that does not fit if the borrow is returned.
pub multiprecision_sub_lem :
    (a b : List ℕ)
    → length a ≡ length b
    → IsWords a
    → IsWords b
    → let (c, borrow) = multiprecision_sub a b in
      (value c + value b ≡ value a + (2 ^ 32) ^ length a * borrow)
      × (borrow ≤ 1)
      × IsWords c
      × (length c ≡ length a)
unfolding multiprecision_sub
multiprecision_sub_lem a b e ha hb =
    let r = sub_loop-Subtracts 0 a b (omega arith) e ha hb in
    (omega (arith, r.total, carried-eq-mul a (sub_loop 0 a b).1), r.borrow, r.words, r.size)

record Doubles (k : ℕ) (a : List ℕ) (out : List ℕ × ℕ) : Type 0 where
  total : value out.0 + carried a out.1 ≡ 2 * value a + k
  words : IsWords out.0
  carry : out.1 ≤ 1
  size : length out.0 ≡ length a

lshift_loop-Doubles : (k : ℕ) (a : List ℕ) → k ≤ 1 → IsWords a → Doubles k a (lshift_loop k a)
unfolding lshift_loop
lshift_loop-Doubles k [] hk ha = record { total = omega arith; words = tt; carry = hk; size = refl }
lshift_loop-Doubles k (x ∷ a) hk ha =
    let ih = lshift_loop-Doubles (x / 2 ^ 31) a (omega arith) ha.1 in
    record {
      total = omega (arith, ih.total);
      words = (omega arith, ih.words);
      carry = ih.carry;
      size = omega (arith, ih.size);
    }

-- c = a << 1, for an array of words: the words of c and the bit that is returned make up twice a.
pub multiprecision_lshift_lem :
    (a : List ℕ)
    → IsWords a
    → let (c, carrier) = multiprecision_lshift a in
      (value c + (2 ^ 32) ^ length a * carrier ≡ 2 * value a)
      × (carrier ≤ 1)
      × IsWords c
      × (length c ≡ length a)
unfolding multiprecision_lshift
multiprecision_lshift_lem a ha =
    let r = lshift_loop-Doubles 0 a (omega arith) ha in
    (omega (arith, r.total, carried-eq-mul a (lshift_loop 0 a).1), r.carry, r.words, r.size)

record Halves (a : List ℕ) (out : List ℕ × ℕ) : Type 0 where
  total : 2 ^ 31 * (value a - 2 * value out.0) ≡ out.1
  least : 2 * value out.0 ≤ value a
  words : IsWords out.0
  size : length out.0 ≡ length a
  carrier : (out.1 ≡ 0) ⊎ (out.1 ≡ 2 ^ 31)

rshift_loop-Halves : (a : List ℕ) → IsWords a → Halves a (rshift_loop a)
unfolding rshift_loop
rshift_loop-Halves [] ha = record {
  total = omega arith;
  least = omega arith;
  words = tt;
  size = refl;
  carrier = inl refl;
}
rshift_loop-Halves (x ∷ a) ha =
    let ih = rshift_loop-Halves a ha.1 in
    record {
      total = omega (arith, ih.total, ih.least, ih.carrier);
      least = omega (arith, ih.total, ih.least, ih.carrier);
      words = (omega (arith, ih.carrier), ih.words);
      size = omega (arith, ih.size);
      carrier = omega arith;
    }

-- c = a >> 1, for an array of words, is the whole part of a / 2.
pub multiprecision_rshift_lem :
    (a : List ℕ)
    → IsWords a
    → let c = multiprecision_rshift a in (value c ≡ value a / 2) × IsWords c × (length c ≡ length a)
unfolding multiprecision_rshift
multiprecision_rshift_lem a ha =
    let r = rshift_loop-Halves a ha in (omega (arith, r.total, r.least, r.carrier), r.words, r.size)

-- What a sign says of two numbers.
abbrev pub Agrees : Sign → ℕ → ℕ → Type 0
Agrees greater m n = n < m
Agrees equal m n = m ≡ n
Agrees less m n = m < n

compare_word-Agrees :
    (x y m n : ℕ) (s : Sign)
    → x < 2 ^ 32
    → y < 2 ^ 32
    → Agrees s m n
    → Agrees (compare_word x y s) (x + 2 ^ 32 * m) (y + 2 ^ 32 * n)
compare_word-Agrees x y m n greater hx hy h = omega arith
compare_word-Agrees x y m n equal hx hy h = elim (Bool-cases (ltb y x)) [
  | inl p ↦ rw p (omega (arith, ltb→lt y x p))
  | inr p ↦ rw p (elim (Bool-cases (ltb x y)) [
    | inl q ↦ rw q (omega (arith, ltb→lt x y q))
    | inr q ↦ rw q (ground arith)
  ])
]
compare_word-Agrees x y m n less hx hy h = omega arith

-- The sign that `multiprecision_compare` returns is that of the comparison of the two numbers,
-- for arrays of words of one length.
pub multiprecision_compare-Agrees :
    (a b : List ℕ)
    → length a ≡ length b
    → IsWords a
    → IsWords b
    → Agrees (multiprecision_compare a b) (value a) (value b)
unfolding multiprecision_compare
multiprecision_compare-Agrees [] [] e ha hb = refl
multiprecision_compare-Agrees [] (y ∷ b) e ha hb = absurd (omega arith)
multiprecision_compare-Agrees (x ∷ a) [] e ha hb = absurd (omega arith)
multiprecision_compare-Agrees (x ∷ a) (y ∷ b) e ha hb =
    compare_word-Agrees x y (value a) (value b) (multiprecision_compare a b) ha.0 hb.0
      (multiprecision_compare-Agrees a b (omega arith) ha.1 hb.1)
