-- ===== src/Sitm/Bulk.antt =====
-- The loop of parse_frame in BT/tty-sdio/sitm.c, against the machine that takes one byte at a time.
use uwe5631_aml.Common.{
  ℕ, zero, suc, ◌+◌, ◌-◌, ◌%◌, ◌^◌, ◌<◌, ◌≡◌, ◌≢◌, ◌⊎◌, inl, inr, refl, true, false, ◌||◌, Option,
  List, [], ◌∷◌, ◌++◌, arith, ltb, ◌==◌, if◌then◌else◌, Bool-cases, Option-cases, length, take,
  drop, length-drop, ◌>>=◌,
}
use uwe5631_aml.Sitm.{
  State, brand_new, preamble, body, ignore, finished, Receive, u16_dec, store_bytes, finish,
  finish_if, read_preamble, read_type, read_body, read_byte, parse_frame_loop, parse_frame,
  preamble_size, retrieve_acl_length,
}
use uwe5631_aml.Sitm.Stream.{
  step_in, feed, is_receive, is_receive-small, is_receive-waits, with, store_bytes-with,
  finish-with, put, store_byte-room, store_byte-full, feed_body,
}

-- The parser at hand with these registers.
abbrev pub at : State → ℕ → List ℕ → Receive → Receive
at s n f q = record q { state = s; bytes_remaining = n; fifo = f }

-- Two ways to go on, from two fifos, that agree wherever a packet at hand waits for bytes.
module _ (k k' : Receive → Option Receive) (f f' : List ℕ)
    (agree : (s : State) (n : ℕ) (q : Receive)
      → n < 2 ^ 16
      → (s ≡ brand_new) ⊎ (0 < n)
      → k (at s n f q) ≡ k' (at s n f' q)) where
  finish-agree :
      (n : ℕ) (q : Receive)
      → n < 2 ^ 16
      → (finish (with n f q) >>= k) ≡ (finish (with n f' q) >>= k')
  finish-agree n q small =
      rw (finish-with n f q, finish-with n f' q)
        (elim (Option-cases (finish q)) [
          | inl e ↦ rw e refl
          | inr (p, e) ↦ rw e (agree brand_new n p small (inl refl))
        ])

  pub settle_body-agree :
      (s : State) (n : ℕ) (q : Receive)
      → n < 2 ^ 16
      → (finish_if (n == 0) (at s n f q) >>= k) ≡ (finish_if (n == 0) (at s n f' q) >>= k')
  unfolding finish_if
  settle_body-agree s zero q small = finish-agree 0 (record q { state = s }) small
  settle_body-agree s (suc n) q small =
      let e : (suc n == 0) ≡ false = ground arith in
      rw e (agree s (suc n) q small (inr (omega arith)))

  read_preamble-agree :
      (byte n : ℕ) (q : Receive)
      → 0 < n
      → n < 2 ^ 16
      → (read_preamble byte (at preamble n f q) >>= k)
        ≡ (read_preamble byte (at preamble n f' q) >>= k')
  unfolding read_preamble
  read_preamble-agree byte n q some_left small =
      let preamble' = q.preamble ++ byte ∷ [] in
      let remaining = (if q.type == 2 then retrieve_acl_length preamble' else byte) % 2 ^ 16 in
      elim (Bool-cases (u16_dec n == 0)) [
        | inl e ↦ rw e (
            settle_body-agree body remaining
              (record q { preamble = preamble'; index = q.index + 1; buffer = preamble' })
              (omega arith))
        | inr e ↦ rw e (
            agree preamble (u16_dec n) (record q { preamble = preamble'; index = q.index + 1 })
              (omega arith) (inr (ground (arith, e))))
      ]

  pub read_byte-agree :
      (s : State) (byte n : ℕ) (q : Receive)
      → n < 2 ^ 16
      → (s ≡ brand_new) ⊎ (0 < n)
      → s ≢ body
      → (read_byte s byte (at s n f q) >>= k) ≡ (read_byte s byte (at s n f' q) >>= k')
  unfolding read_byte read_type
  read_byte-agree brand_new byte n q small w other = elim (Bool-cases (ltb 4 byte || ltb byte 1)) [
    | inl e ↦ rw e (agree brand_new n q small w)
    | inr e ↦ rw e (
        read_preamble-agree byte (preamble_size byte + 1)
          (record q { type = byte; preamble = []; index = 0 }) (omega arith) (ground arith))
  ]
  read_byte-agree preamble byte n q small w other =
      read_preamble-agree byte n q (elim w [ inl e ↦ cc e | inr p ↦ p ]) small
  read_byte-agree body byte n q small w other = elim (other refl) [ ]
  read_byte-agree ignore byte n q small w other = agree ignore n q small w
  read_byte-agree finished byte n q small w other = agree finished n q small w

-- A byte of a body, and all that follows it in the fifo.
read_body-agree :
    (k : Receive → Option Receive) (byte r : ℕ) (rest : List ℕ) (q : Receive)
    → suc r < 2 ^ 16
    → ((s : State) (n : ℕ) (p : Receive)
        → n < 2 ^ 16
        → (s ≡ brand_new) ⊎ (0 < n)
        → k (at s n (drop r rest) p) ≡ feed (drop r rest) (at s n [] p))
    → (read_body byte (at body (suc r) rest q) >>= k) ≡ feed (byte ∷ rest) (at body (suc r) [] q)
unfolding read_body store_bytes
read_body-agree k byte r rest q small agree =
    let p = put byte (record q { state = body }) in
    let rs = take r rest in
    let less : u16_dec (suc r) ≡ r = omega (arith, small) in
    let left : suc r - suc (length rs) ≡ r - length rs = omega arith in
    rw (feed_body (byte ∷ rest) r (record q { fifo = [] }) small)
      (elim (Bool-cases (ltb q.index 1030)) [
        | inl e ↦
            rw
              (
                store_byte-room byte (at body (suc r) rest q) e,
                store_byte-room byte (record q { state = body; fifo = [] }) e,
                less,
                left,
                store_bytes-with (suc r) rest rs p,
                store_bytes-with q.bytes_remaining [] rs p,
              )
              (elim (Option-cases (store_bytes rs p)) [
                | inl f ↦ rw f refl
                | inr (t, f) ↦ rw f (
                    settle_body-agree k (feed (drop r rest)) (drop r rest) [] agree t.state
                      (r - length rs) t (omega (arith, small)))
              ])
        | inr e ↦
            rw
              (
                store_byte-full byte (at body (suc r) rest q) e,
                store_byte-full byte (record q { state = body; fifo = [] }) e,
              )
              refl
      ])

loop-feed :
    (fuel : ℕ) (xs : List ℕ) (s : State) (n : ℕ) (q : Receive)
    → length xs < fuel
    → n < 2 ^ 16
    → (s ≡ brand_new) ⊎ (0 < n)
    → parse_frame_loop fuel (at s n xs q) ≡ feed xs (at s n [] q)
unfolding parse_frame_loop feed read_byte step_in read_type
loop-feed zero xs s n q enough small w = ground (arith, enough)
loop-feed (suc fuel) [] s n q enough small w = refl
loop-feed (suc fuel) (b ∷ rest) body zero q enough small w = elim w [
  | inl e ↦ cc e
  | inr p ↦ ground (arith, p)
]
loop-feed (suc fuel) (b ∷ rest) body (suc r) q enough small w =
    read_body-agree (parse_frame_loop fuel) b r rest q small
      (λ s n p. loop-feed fuel (drop r rest) s n p (omega (arith, enough, length-drop r rest)))
loop-feed (suc fuel) (b ∷ rest) brand_new n q enough small w =
    read_byte-agree (parse_frame_loop fuel) (feed rest) rest []
      (λ s n p. loop-feed fuel rest s n p (omega (arith, enough))) brand_new b n q small w (cc)
loop-feed (suc fuel) (b ∷ rest) preamble n q enough small w =
    read_byte-agree (parse_frame_loop fuel) (feed rest) rest []
      (λ s n p. loop-feed fuel rest s n p (omega (arith, enough))) preamble b n q small w (cc)
loop-feed (suc fuel) (b ∷ rest) ignore n q enough small w =
    read_byte-agree (parse_frame_loop fuel) (feed rest) rest []
      (λ s n p. loop-feed fuel rest s n p (omega (arith, enough))) ignore b n q small w (cc)
loop-feed (suc fuel) (b ∷ rest) finished n q enough small w =
    read_byte-agree (parse_frame_loop fuel) (feed rest) rest []
      (λ s n p. loop-feed fuel rest s n p (omega (arith, enough))) finished b n q small w (cc)

-- Whatever the fifo holds, and in whatever state a packet at hand is, parse_frame does with the
-- bytes of the fifo what the machine does that takes them one at a time, faults included.
pub parse_frame-feed :
    (rd : Receive) → is_receive rd ≡ true → parse_frame rd ≡ feed rd.fifo (record rd { fifo = [] })
unfolding parse_frame
parse_frame-feed rd e =
    loop-feed (length rd.fifo + 1) rd.fifo rd.state rd.bytes_remaining rd (omega arith)
      (is_receive-small rd e) (is_receive-waits rd e)
