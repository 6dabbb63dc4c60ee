-- ===== src/Sitm/Chunks.antt =====
-- The bytes of several calls of sitm_write in BT/tty-sdio/sitm.c, against the machine of Sitm/Stream.
use uwe5631_aml.Common.{
  ℕ, ◌-◌, ◌^◌, ◌≤◌, ◌<◌, ◌≡◌, ◌⊎◌, inl, inr, refl, sym, ap, Bool, true, false, ◌&&◌, Option, none,
  some, List, [], ◌∷◌, ◌++◌, arith, ltb, ◌==◌, if◌then◌else◌, Bool-cases, Option-cases, length,
  take-length, ◌>>=◌,
}
use mathlib.Core.Option.{some-injective}
use uwe5631_aml.Sitm.{
  State, brand_new, preamble, body, ignore, finished, Receive, u16_dec, sitm_write,
}
use uwe5631_aml.Sitm.Stream.{
  step_in, feed, feed-append, is_receive, is_receive-small, is_receive-waits, is_receive-of,
  store_byte-room, store_byte-full, put,
}
use uwe5631_aml.Sitm.Bulk.{at, settle_body-agree, read_byte-agree, parse_frame-feed}

-- Between two calls the fifo is empty.
unfoldable pub is_ready : Receive → Bool
is_ready rd = is_receive rd && (length rd.fifo == 0)

-- A check behind a byte, that changes nothing.
guard : Receive → Option Receive
unfolding is_ready
guard rd = if is_ready rd then some rd else none

guard-at :
    (s : State) (n : ℕ) (q : Receive)
    → n < 2 ^ 16
    → (s ≡ brand_new) ⊎ (0 < n)
    → guard (at s n [] q) ≡ some (at s n [] q)
unfolding guard is_ready
guard-at s n q small w = rw (is_receive-of s n (record q { fifo = [] }) small w) refl

guard-inv : (q : Receive) → guard q ≡ some q → is_ready q ≡ true
unfolding guard
guard-inv q same = ground (arith, same)

step-guard :
    (s : State) (b n : ℕ) (q : Receive)
    → n < 2 ^ 16
    → (s ≡ brand_new) ⊎ (0 < n)
    → (step_in s b (at s n [] q) >>= guard) ≡ (step_in s b (at s n [] q) >>= λ r. some r)
unfolding step_in
step-guard body b n q small w = elim (Bool-cases (ltb q.index 1030)) [
  | inl e ↦ rw (store_byte-room b (at body n [] q) e) (
      settle_body-agree guard (λ r. some r) [] [] guard-at body (u16_dec n)
        (put b (record q { state = body })) (omega arith))
  | inr e ↦ rw (store_byte-full b (at body n [] q) e) refl
]
step-guard brand_new b n q small w =
    read_byte-agree guard (λ r. some r) [] [] guard-at brand_new b n q small w (cc)
step-guard preamble b n q small w =
    read_byte-agree guard (λ r. some r) [] [] guard-at preamble b n q small w (cc)
step-guard ignore b n q small w =
    read_byte-agree guard (λ r. some r) [] [] guard-at ignore b n q small w (cc)
step-guard finished b n q small w =
    read_byte-agree guard (λ r. some r) [] [] guard-at finished b n q small w (cc)

step-is_ready :
    (s : State) (b n : ℕ) (q r : Receive)
    → n < 2 ^ 16
    → (s ≡ brand_new) ⊎ (0 < n)
    → step_in s b (at s n [] q) ≡ some r
    → is_ready r ≡ true
step-is_ready s b n q r small w e = guard-inv r (rw e at (step-guard s b n q small w))

is_ready-receive : (rd : Receive) → is_ready rd ≡ true → is_receive rd ≡ true
unfolding is_ready
is_ready-receive rd e = ground (arith, e)

is_ready-fifo : (rd : Receive) → is_ready rd ≡ true → rd.fifo ≡ []
unfolding is_ready
is_ready-fifo rd e = empty rd.fifo (ground (arith, e))
  where
    empty : (f : List ℕ) → length f ≡ 0 → f ≡ []
    empty [] e = refl
    empty (x ∷ f) e = ground (arith, e)

is_ready-at : (rd : Receive) → is_ready rd ≡ true → at rd.state rd.bytes_remaining [] rd ≡ rd
is_ready-at rd e = ap (λ f. record rd { fifo = f }) (sym (is_ready-fifo rd e))

feed-is_ready :
    (xs : List ℕ) (rd q : Receive) → is_ready rd ≡ true → feed xs rd ≡ some q → is_ready q ≡ true
unfolding feed
feed-is_ready [] rd q ready e = rw (some-injective _ _ e) at ready
feed-is_ready (x ∷ xs) rd q ready e = elim (Option-cases (step_in rd.state x rd)) [
  | inl f ↦ cc (rw f at e)
  | inr (r, f) ↦
      feed-is_ready xs r q
        (step-is_ready rd.state x rd.bytes_remaining rd r
          (is_receive-small rd (is_ready-receive rd ready))
          (is_receive-waits rd (is_ready-receive rd ready)) (rw (is_ready-at rd ready) f))
        (rw f at e)
]

-- A caller that hands over some chunks, one call each.
pub write_all : ℕ → List (List ℕ) → Receive → Option Receive
write_all size [] rd = some rd
write_all size (c ∷ cs) rd = sitm_write size c rd >>= λ (count, rd'). write_all size cs rd'

unfoldable pub Fit : ℕ → List (List ℕ) → Type 0
Fit size [] = Unit {0}
Fit size (c ∷ cs) = (length c ≤ size) × Fit size cs

unfoldable pub concat : List (List ℕ) → List ℕ
concat [] = []
concat (c ∷ cs) = c ++ concat cs

sitm_write-feed :
    (size : ℕ) (c : List ℕ) (rd : Receive)
    → is_ready rd ≡ true
    → length c ≤ size
    → sitm_write size c rd ≡ (feed c rd >>= λ q. some (length c, q))
unfolding sitm_write feed
sitm_write-feed size c rd ready fits =
    let none_left : size - 0 ≡ size = omega arith in
    let all : (if ltb size (length c) then size else length c) ≡ length c = ground (arith, fits) in
    let parsed =
      parse_frame-feed (record rd { fifo = c })
        (is_receive-of rd.state rd.bytes_remaining (record rd { fifo = c })
          (is_receive-small rd (is_ready-receive rd ready))
          (is_receive-waits rd (is_ready-receive rd ready))) in
    rw (is_ready-fifo rd ready, none_left, all, take-length, parsed) (go c fits)
  where
    go :
        (c : List ℕ)
        → length c ≤ size
        → if◌then◌else◌ {A = Option (ℕ × Receive)}
            (size == 0)
            (some (0, record rd { fifo = [] }))
            (feed c (record rd { fifo = [] }) >>= λ q. some (length c, q))
          ≡ (feed c (record rd { fifo = [] }) >>= λ q. some (length c, q))
    go [] fits = elim (Bool-cases (size == 0)) [ inl e ↦ rw e refl | inr e ↦ rw e refl ]
    go (x ∷ c) fits = let more : (size == 0) ≡ false = ground (arith, fits) in rw more refl

-- However the bytes are cut into calls that the fifo has room for, sitm_write takes all of them and
-- does what the machine does that takes one byte at a time, faults included, from any state in which
-- the fifo is empty and a packet at hand waits for bytes.
pub write_all-feed :
    (size : ℕ) (cs : List (List ℕ)) (rd : Receive)
    → is_ready rd ≡ true
    → Fit size cs
    → write_all size cs rd ≡ feed (concat cs) rd
unfolding write_all Fit concat feed
write_all-feed size [] rd ready fits = refl
write_all-feed size (c ∷ cs) rd ready (fits, rest) =
    rw (sitm_write-feed size c rd ready fits, feed-append c (concat cs) rd)
      (elim (Option-cases (feed c rd)) [
        | inl e ↦ rw e refl
        | inr (q, e) ↦ rw e (write_all-feed size cs q (feed-is_ready c rd q ready e) rest)
      ])
