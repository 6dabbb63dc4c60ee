-- ===== src/Sitm/Stream.antt =====
-- A machine that takes one byte at a time, to compare the parser of BT/tty-sdio/sitm.c with.
use uwe5631_aml.Common.{
  ℕ, zero, suc, ◌+◌, ◌-◌, ◌^◌, ◌<◌, ◌≡◌, ◌⊎◌, inl, inr, refl, sym, ◌∙◌, Bool, true, false, ◌&&◌,
  ◌||◌, Option, none, some, List, [], ◌∷◌, ◌++◌, arith, ltb, ◌==◌, Bool-cases, Option-cases, length,
  take, drop, replicate, ◌>>=◌, bind_assoc, bind_ext,
}
use uwe5631_aml.Sitm.{
  State, brand_new, preamble, body, ignore, finished, Receive, u16_dec, store_byte, store_bytes,
  finish, finish_if, tail_size, read_byte,
}

-- One byte, without the fifo.
unfoldable pub step_in : State → ℕ → Receive → Option Receive
step_in body byte rd = store_byte byte rd >>= λ q.
    finish_if (u16_dec rd.bytes_remaining == 0)
      (record q { bytes_remaining = u16_dec rd.bytes_remaining })
step_in s byte rd = read_byte s byte rd

unfoldable pub feed : List ℕ → Receive → Option Receive
feed [] rd = some rd
feed (b ∷ bs) rd = step_in rd.state b rd >>= feed bs

pub feed-append : (xs ys : List ℕ) (rd : Receive) → feed (xs ++ ys) rd ≡ (feed xs rd >>= feed ys)
unfolding feed
feed-append [] ys rd = refl
feed-append (x ∷ xs) ys rd =
    bind_ext (step_in rd.state x rd) _ _ (λ q. feed-append xs ys q)
    ∙ sym (bind_assoc (step_in rd.state x rd) (feed xs) (feed ys))

abbrev is_brand_new : State → Bool
is_brand_new brand_new = true
is_brand_new _ = false

-- The number of bytes that the packet at hand waits for is a u16, and it is not 0.
unfoldable pub is_receive : Receive → Bool
is_receive rd =
    ltb rd.bytes_remaining (2 ^ 16) && (is_brand_new rd.state || ltb 0 rd.bytes_remaining)

pub is_receive-small : (rd : Receive) → is_receive rd ≡ true → rd.bytes_remaining < 2 ^ 16
unfolding is_receive
is_receive-small rd e = ground (arith, e)

pub is_receive-waits :
    (rd : Receive) → is_receive rd ≡ true → (rd.state ≡ brand_new) ⊎ (0 < rd.bytes_remaining)
unfolding is_receive
is_receive-waits rd e = waits rd.state e
  where
    waits :
        (s : State)
        → ltb rd.bytes_remaining (2 ^ 16) && (is_brand_new s || ltb 0 rd.bytes_remaining) ≡ true
        → (s ≡ brand_new) ⊎ (0 < rd.bytes_remaining)
    waits brand_new e = inl refl
    waits preamble e = inr (ground (arith, e))
    waits body e = inr (ground (arith, e))
    waits ignore e = inr (ground (arith, e))
    waits finished e = inr (ground (arith, e))

pub is_receive-of :
    (s : State) (n : ℕ) (rd : Receive)
    → n < 2 ^ 16
    → (s ≡ brand_new) ⊎ (0 < n)
    → is_receive (record rd { state = s; bytes_remaining = n }) ≡ true
unfolding is_receive
is_receive-of s n rd small (inl e) = rw e (ground (arith, small))
is_receive-of s n rd small (inr e) = ground (arith, small, e)

-- The same parser with another number and another fifo.
abbrev pub with : ℕ → List ℕ → Receive → Receive
with n f rd = record rd { bytes_remaining = n; fifo = f }

pub store_bytes-with :
    (n : ℕ) (f bs : List ℕ) (rd : Receive)
    → store_bytes bs (with n f rd) ≡ (store_bytes bs rd >>= λ q. some (with n f q))
unfolding store_bytes store_byte
store_bytes-with n f [] rd = refl
store_bytes-with n f (b ∷ bs) rd = elim (Bool-cases (ltb rd.index 1030)) [
  | inl e ↦
      rw e
        (store_bytes-with n f bs (record rd { buffer = rd.buffer ++ b ∷ []; index = rd.index + 1 }))
  | inr e ↦ rw e refl
]

pub finish-with :
    (n : ℕ) (f : List ℕ) (rd : Receive)
    → finish (with n f rd)
      ≡ (finish rd >>= λ q. some (record q { state = brand_new; bytes_remaining = n; fifo = f }))
unfolding finish
finish-with n f rd = elim (Bool-cases (rd.type == 1 || rd.type == 2)) [
  | inl e ↦ elim (Option-cases (store_bytes (replicate (tail_size rd.index) 0) rd)) [
    | inl k ↦ rw (e, store_bytes-with n f (replicate (tail_size rd.index) 0) rd, k) refl
    | inr (q, k) ↦ rw (e, store_bytes-with n f (replicate (tail_size rd.index) 0) rd, k) refl
  ]
  | inr e ↦ rw e refl
]

-- What follows the bytes of a body: the packet ends if none is left to come.
abbrev settle_body : ℕ → Receive → Option Receive
settle_body left q = finish_if (left == 0) (record q { bytes_remaining = left })

-- A body that waits for `suc r` bytes.
abbrev waiting : ℕ → Receive → Receive
waiting r rd = record rd { state = body; bytes_remaining = suc r }

abbrev pub put : ℕ → Receive → Receive
put b rd = record rd { buffer = rd.buffer ++ b ∷ []; index = rd.index + 1 }

pub store_byte-room :
    (b : ℕ) (rd : Receive) → ltb rd.index 1030 ≡ true → store_byte b rd ≡ some (put b rd)
unfolding store_byte
store_byte-room b rd e = rw e refl

pub store_byte-full : (b : ℕ) (rd : Receive) → ltb rd.index 1030 ≡ false → store_byte b rd ≡ none
unfolding store_byte
store_byte-full b rd e = rw e refl

-- The bytes of a body, all that are there at once.
pub feed_body :
    (xs : List ℕ) (r : ℕ) (rd : Receive)
    → suc r < 2 ^ 16
    → feed xs (waiting r rd) ≡ (
        store_bytes (take (suc r) xs) (record rd { state = body }) >>= λ q.
        settle_body (suc r - length (take (suc r) xs)) q >>= feed (drop (suc r) xs))
unfolding feed store_bytes step_in finish_if
feed_body [] r rd small =
    let z : suc r - 0 ≡ suc r = omega arith in
    let f : (suc r == 0) ≡ false = ground arith in rw z (rw f refl)
feed_body (x ∷ xs) zero rd small = elim (Bool-cases (ltb rd.index 1030)) [
  | inl e ↦
      rw (store_byte-room x (record rd { state = body }) e, store_byte-room x (waiting 0 rd) e) refl
  | inr e ↦
      rw (store_byte-full x (record rd { state = body }) e, store_byte-full x (waiting 0 rd) e) refl
]
feed_body (x ∷ xs) (suc r) rd small = elim (Bool-cases (ltb rd.index 1030)) [
  | inl e ↦
      let less : u16_dec (suc (suc r)) ≡ suc r = omega (arith, small) in
      let more : (suc r == 0) ≡ false = ground arith in
      let left : suc (suc r) - suc (length (take (suc r) xs)) ≡ suc r - length (take (suc r) xs) =
        omega arith in
      rw
        (
          store_byte-room x (record rd { state = body }) e,
          store_byte-room x (waiting (suc r) rd) e,
          less,
          more,
          left,
        )
        (feed_body xs r (put x rd) (omega (arith, small)))
  | inr e ↦
      rw
        (store_byte-full x (record rd { state = body }) e, store_byte-full x (waiting (suc r) rd) e)
        refl
]
