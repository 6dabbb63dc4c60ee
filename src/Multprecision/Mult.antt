-- ===== src/Multprecision/Mult.antt =====
-- Schoolbook multiplication gives the product.
use uwe5631_aml.Common.{
  ℕ, suc, ◌+◌, ◌-◌, ◌*◌, ◌^◌, ◌≤◌, ◌<◌, ◌≡◌, refl, List, [], ◌∷◌, ◌++◌, arith, length-append,
  length-replicate, length, replicate,
}
use uwe5631_aml.Multprecision.{
  mult_word, mult_row, mult_rows, mult_next, multiprecision_init, multiprecision_mult,
}
use uwe5631_aml.Multprecision.Value.{
  value, IsWords, carried, carried-of_length, value-append, IsWords-append, value-zeros,
  zeros-IsWords,
}

product-lt : (x y : ℕ) → x < 2 ^ 32 → y < 2 ^ 32 → x * y ≤ (2 ^ 32 - 1) * (2 ^ 32 - 1)
product-lt x y hx hy = grind arith

mult_word_lem :
    (u x y c : ℕ)
    → u < 2 ^ 32
    → x < 2 ^ 32
    → y < 2 ^ 32
    → c < 2 ^ 32
    → let (v, u') = mult_word u x y c in
      (v + 2 ^ 32 * u' ≡ x * y + u + c) × (v < 2 ^ 32) × (u' < 2 ^ 32)
mult_word_lem u x y c hu hx hy hc = ground (arith, product-lt x y hx hy)

record MultipliesRow (u x : ℕ) (b c : List ℕ) (out : List ℕ × ℕ) : Type 0 where
  total : value out.0 + carried b out.1 ≡ x * value b + value c + u
  words : IsWords out.0
  carry : out.1 < 2 ^ 32
  size : length out.0 ≡ length b

mult_row-MultipliesRow :
    (u x : ℕ) (b c : List ℕ)
    → u < 2 ^ 32
    → x < 2 ^ 32
    → length c ≡ length b
    → IsWords b
    → IsWords c
    → MultipliesRow u x b c (mult_row u x b c)
unfolding mult_row
mult_row-MultipliesRow u x [] [] hu hx e hb hc = record {
  total = omega arith;
  words = tt;
  carry = hu;
  size = refl;
}
mult_row-MultipliesRow u x [] (w ∷ c) hu hx e hb hc = absurd (omega arith)
mult_row-MultipliesRow u x (y ∷ b) [] hu hx e hb hc = absurd (omega arith)
mult_row-MultipliesRow u x (y ∷ b) (w ∷ c) hu hx e hb hc =
    let d = mult_word_lem u x y w hu hx hb.0 hc.0 in
    let ih = mult_row-MultipliesRow (mult_word u x y w).1 x b c d.2 hx (omega arith) hb.1 hc.1 in
    record {
      total = omega (arith, d.0, ih.total);
      words = (d.1, ih.words);
      carry = ih.carry;
      size = omega (arith, ih.size);
    }

record Multiplies (a b c out : List ℕ) : Type 0 where
  total : value out ≡ value a * value b + value c
  words : IsWords out
  size : length out ≡ length a + length c

-- One row done, with the words of `c` that it leaves, and the later rows by `rest`.
record Continues (a b l out : List ℕ) : Type 0 where
  total : value out ≡ 2 ^ 32 * (value a * value b) + value l
  words : IsWords out
  size : length out ≡ length a + length l

mult_next-Continues :
    (a b l : List ℕ) (rest : List ℕ → List ℕ)
    → IsWords l
    → length l ≡ suc (length b)
    → ((c : List ℕ) → length c ≡ length b → IsWords c → Multiplies a b c (rest c))
    → Continues a b l (mult_next rest l)
unfolding mult_next
mult_next-Continues a b [] rest hl e h = absurd (omega arith)
mult_next-Continues a b (w ∷ c) rest hl e h =
    let m = h c (omega arith) hl.1 in
    record { total = omega (arith, m.total); words = (hl.0, m.words); size = omega (arith, m.size) }

mult_rows-Multiplies :
    (a b c : List ℕ)
    → IsWords a
    → IsWords b
    → length c ≡ length b
    → IsWords c
    → Multiplies a b c (mult_rows a b c)
unfolding mult_rows
mult_rows-Multiplies [] b c ha hb e hc = record {
  total = omega arith;
  words = hc;
  size = omega arith;
}
mult_rows-Multiplies (x ∷ a) b c ha hb e hc =
    let r = mult_row-MultipliesRow 0 x b c (omega arith) ha.0 e hb hc in
    let (row, u) = mult_row 0 x b c in
    let n =
      mult_next-Continues a b (row ++ u ∷ []) (mult_rows a b) (IsWords-append row u r.words r.carry)
        (omega (arith, length-append row (u ∷ []), r.size))
        (λ c' e' hc'. mult_rows-Multiplies a b c' ha.1 hb e' hc') in
    record {
      total = omega (arith, n.total, r.total, value-append row u, carried-of_length row b u r.size);
      words = n.words;
      size = omega (arith, n.size, length-append row (u ∷ []), r.size);
    }

-- c = a * b, for arrays of words: the words of c, as many as a and b have together, stand for the product.
pub multiprecision_mult_lem :
    (a b : List ℕ)
    → IsWords a
    → IsWords b
    → let c = multiprecision_mult a b in
      (value c ≡ value a * value b) × IsWords c × (length c ≡ length a + length b)
unfolding multiprecision_mult multiprecision_init
multiprecision_mult_lem a b ha hb =
    let n = length b in
    let m =
      mult_rows-Multiplies a b (replicate n 0) ha hb (length-replicate n 0) (zeros-IsWords n) in
    (
      omega (arith, m.total, value-zeros n),
      m.words,
      omega (arith, m.size, length-replicate {A = ℕ} n 0),
    )
