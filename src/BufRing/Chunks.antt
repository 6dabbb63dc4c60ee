-- ===== src/BufRing/Chunks.antt =====
-- Copies into and out of the buffer, index by index.
use uwe5631_aml.Common.{
  ℕ, zero, suc, ◌+◌, ◌-◌, ◌≤◌, ◌<◌, ◌≡◌, ◌⊎◌, refl, ap, ◌∙◌, inl, inr, List, [], ◌∷◌, ◌++◌, arith,
  ltb, if◌then◌else◌, Bool-cases, length, get_or, take, drop,
}
use uwe5631_aml.BufRing.{copy_out, copy_in}

pub length-copy_in : (bs : List ℕ) (at : ℕ) (xs : List ℕ) → length (copy_in bs at xs) ≡ length bs
unfolding copy_in
length-copy_in [] at xs = refl
length-copy_in (b ∷ bs) zero [] = refl
length-copy_in (b ∷ bs) zero (x ∷ xs) = omega (arith, length-copy_in bs zero xs)
length-copy_in (b ∷ bs) (suc at) xs = omega (arith, length-copy_in bs at xs)

-- The lemmas on indices have the index and its parts apart, with an equation between them.
pub get_or-copy_in_new :
    (bs : List ℕ) (at : ℕ) (xs : List ℕ) (i k : ℕ)
    → i ≡ at + k
    → at + length xs ≤ length bs
    → k < length xs
    → get_or (copy_in bs at xs) i 0 ≡ get_or xs k 0
unfolding copy_in
get_or-copy_in_new [] at xs i k e h l = absurd (omega arith)
get_or-copy_in_new (b ∷ bs) zero [] i k e h l = absurd (omega arith)
get_or-copy_in_new (b ∷ bs) zero (x ∷ xs) zero zero e h l = refl
get_or-copy_in_new (b ∷ bs) zero (x ∷ xs) zero (suc k) e h l = absurd (omega (arith, e))
get_or-copy_in_new (b ∷ bs) zero (x ∷ xs) (suc i) zero e h l = absurd (omega (arith, e))
get_or-copy_in_new (b ∷ bs) zero (x ∷ xs) (suc i) (suc k) e h l =
    get_or-copy_in_new bs zero xs i k (omega (arith, e)) (omega arith) (omega arith)
get_or-copy_in_new (b ∷ bs) (suc at) xs zero k e h l = absurd (omega (arith, e))
get_or-copy_in_new (b ∷ bs) (suc at) xs (suc i) k e h l =
    get_or-copy_in_new bs at xs i k (omega (arith, e)) (omega arith) l

pub get_or-copy_in_old :
    (bs : List ℕ) (at : ℕ) (xs : List ℕ) (k : ℕ)
    → (k < at) ⊎ (at + length xs ≤ k)
    → get_or (copy_in bs at xs) k 0 ≡ get_or bs k 0
unfolding copy_in
get_or-copy_in_old [] at xs k h = refl
get_or-copy_in_old (b ∷ bs) zero [] k h = refl
get_or-copy_in_old (b ∷ bs) zero (x ∷ xs) zero h = absurd (omega (arith, h))
get_or-copy_in_old (b ∷ bs) zero (x ∷ xs) (suc k) h =
    get_or-copy_in_old bs zero xs k (inr (omega (arith, h)))
get_or-copy_in_old (b ∷ bs) (suc at) xs zero h = refl
get_or-copy_in_old (b ∷ bs) (suc at) xs (suc k) h = get_or-copy_in_old bs at xs k (omega (arith, h))

pub length-take-le : (n : ℕ) (xs : List ℕ) → n ≤ length xs → length (take n xs) ≡ n
length-take-le zero xs h = refl
length-take-le (suc n) [] h = absurd (omega arith)
length-take-le (suc n) (x ∷ xs) h = omega (arith, length-take-le n xs (omega arith))

pub length-drop-sub : (n : ℕ) (xs : List ℕ) → length (drop n xs) ≡ length xs - n
length-drop-sub zero xs = omega arith
length-drop-sub (suc n) [] = omega arith
length-drop-sub (suc n) (x ∷ xs) = omega (arith, length-drop-sub n xs)

pub get_or-take-lt : (n k : ℕ) (xs : List ℕ) → k < n → get_or (take n xs) k 0 ≡ get_or xs k 0
get_or-take-lt zero k xs h = absurd (omega arith)
get_or-take-lt (suc n) k [] h = refl
get_or-take-lt (suc n) zero (x ∷ xs) h = refl
get_or-take-lt (suc n) (suc k) (x ∷ xs) h = get_or-take-lt n k xs (omega arith)

pub get_or-drop-add : (n i k : ℕ) (xs : List ℕ) → i ≡ n + k → get_or (drop n xs) k 0 ≡ get_or xs i 0
get_or-drop-add zero i k xs e = ap (λ (j : ℕ). get_or xs j 0) (omega (arith, e))
get_or-drop-add (suc n) i k [] e = refl
get_or-drop-add (suc n) zero k (x ∷ xs) e = absurd (omega (arith, e))
get_or-drop-add (suc n) (suc i) k (x ∷ xs) e = get_or-drop-add n i k xs (omega (arith, e))

pub get_or-append_left :
    (xs ys : List ℕ) (k : ℕ) → k < length xs → get_or (xs ++ ys) k 0 ≡ get_or xs k 0
get_or-append_left [] ys k h = absurd (omega arith)
get_or-append_left (x ∷ xs) ys zero h = refl
get_or-append_left (x ∷ xs) ys (suc k) h = get_or-append_left xs ys k (omega arith)

pub get_or-append_right :
    (xs ys : List ℕ) (i k : ℕ) → i ≡ length xs + k → get_or (xs ++ ys) i 0 ≡ get_or ys k 0
get_or-append_right [] ys i k e = ap (λ (j : ℕ). get_or ys j 0) (omega (arith, e))
get_or-append_right (x ∷ xs) ys zero k e = absurd (omega (arith, e))
get_or-append_right (x ∷ xs) ys (suc i) k e = get_or-append_right xs ys i k (omega (arith, e))

pub length-append-add : (xs ys : List ℕ) → length (xs ++ ys) ≡ length xs + length ys
length-append-add [] ys = omega arith
length-append-add (x ∷ xs) ys = omega (arith, length-append-add xs ys)

pub length-copy_out :
    (bs : List ℕ) (from len : ℕ) → from + len ≤ length bs → length (copy_out bs from len) ≡ len
length-copy_out bs from len h =
    length-take-le len (drop from bs) (omega (arith, length-drop-sub from bs, h))

pub get_or-copy_out :
    (bs : List ℕ) (from len i k : ℕ)
    → i ≡ from + k
    → k < len
    → get_or (copy_out bs from len) k 0 ≡ get_or bs i 0
get_or-copy_out bs from len i k e h =
    get_or-take-lt len k (drop from bs) h ∙ get_or-drop-add from i k bs e

-- Two chunks, one behind the other.
pub get_or-two_chunks :
    (bs : List ℕ) (from len1 len2 k : ℕ)
    → from + len1 ≡ length bs
    → k < len1 + len2
    → let out = copy_out bs from len1 ++ copy_out bs 0 len2 in
      get_or out k 0
      ≡ get_or bs (if ltb (from + k) (length bs) then from + k else from + k - length bs) 0
get_or-two_chunks bs from len1 len2 k e h =
    let xs = copy_out bs from len1 in
    let ys = copy_out bs 0 len2 in
    let l = length-copy_out bs from len1 (omega (arith, e)) in
    elim (Bool-cases (ltb (from + k) (length bs))) [
      | inl f ↦
          let less : k < len1 = ground (arith, e, f) in
          rw f (
            get_or-append_left xs ys k (omega (arith, l, less))
            ∙ get_or-copy_out bs from len1 (from + k) k refl less)
      | inr f ↦
          let j = from + k - length bs in
          let beyond : k ≡ len1 + j = ground (arith, e, f) in
          rw f (
            get_or-append_right xs ys k j (omega (arith, l, beyond))
            ∙ get_or-copy_out bs 0 len2 j j (omega arith) (omega (arith, h, beyond)))
    ]

pub list_ext :
    (xs ys : List ℕ)
    → length xs ≡ length ys
    → ((k : ℕ) → k < length xs → get_or xs k 0 ≡ get_or ys k 0)
    → xs ≡ ys
list_ext [] [] e h = refl
list_ext [] (y ∷ ys) e h = absurd (omega (arith, e))
list_ext (x ∷ xs) [] e h = absurd (omega (arith, e))
list_ext (x ∷ xs) (y ∷ ys) e h =
    let tail = list_ext xs ys (omega (arith, e)) (λ k l. h (suc k) (omega (arith, l))) in
    rw (h zero (omega arith), tail) refl

-- The list of the first `n` values of a function.
abbrev pub tabulate : ℕ → (ℕ → ℕ) → List ℕ
tabulate zero f = []
tabulate (suc n) f = f zero ∷ tabulate n (λ k. f (suc k))

pub length-tabulate : (n : ℕ) (f : ℕ → ℕ) → length (tabulate n f) ≡ n
length-tabulate zero f = refl
length-tabulate (suc n) f = omega (arith, length-tabulate n (λ k. f (suc k)))

pub get_or-tabulate : (n : ℕ) (f : ℕ → ℕ) (k : ℕ) → k < n → get_or (tabulate n f) k 0 ≡ f k
get_or-tabulate zero f k h = absurd (omega arith)
get_or-tabulate (suc n) f zero h = refl
get_or-tabulate (suc n) f (suc k) h = get_or-tabulate n (λ i. f (suc i)) k (omega arith)
