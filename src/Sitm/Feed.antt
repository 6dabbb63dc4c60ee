-- ===== src/Sitm/Feed.antt =====
-- One H4 packet through the machine of Sitm/Stream.
use uwe5631_aml.Common.{
  ℕ, suc, ◌+◌, ◌-◌, ◌*◌, ◌/◌, ◌%◌, ◌^◌, ◌≤◌, ◌<◌, ◌≡◌, inl, inr, refl, ap, true, false, ◌||◌,
  Option, none, some, List, [], ◌∷◌, ◌++◌, arith, ltb, ◌==◌, Bool-cases, length, replicate,
  take-length, drop-length, length-append, length-replicate, ◌>>=◌, bind_ext, append_assoc,
  append-nil,
}
use uwe5631_aml.Sitm.{
  brand_new, body, Receive, store_byte, store_bytes, finish, finish_if, tail_size, read_preamble,
  read_type, read_byte,
}
use uwe5631_aml.Sitm.Stream.{step_in, feed, store_byte-room, store_byte-full, put, feed_body}
use uwe5631_aml.Sitm.Packets.{
  Packet, command, acl, sco, event, packet_type, head, payload, encode, padding, frame, limit,
}

store_bytes-room :
    (bs : List ℕ) (rd : Receive)
    → rd.index + length bs ≤ 1030
    → store_bytes bs rd
      ≡ some (record rd { buffer = rd.buffer ++ bs; index = rd.index + length bs })
unfolding store_bytes
store_bytes-room [] rd fits =
    let i : rd.index + 0 ≡ rd.index = omega arith in rw (i, append-nil) refl
store_bytes-room (b ∷ bs) rd fits =
    let room : ltb rd.index 1030 ≡ true = ground (arith, fits) in
    rw
      (
        store_byte-room b rd room,
        store_bytes-room bs (put b rd) (omega (arith, fits)),
        append_assoc,
      )
      (ap (λ i. some (record rd { index = i; buffer = rd.buffer ++ b ∷ bs })) (omega arith))

store_bytes-full :
    (bs : List ℕ) (rd : Receive)
    → rd.index ≤ 1030
    → 1030 < rd.index + length bs
    → store_bytes bs rd ≡ none
unfolding store_bytes
store_bytes-full [] rd here over = ground (arith, here, over)
store_bytes-full (b ∷ bs) rd here over = elim (Bool-cases (ltb rd.index 1030)) [
  | inl e ↦
      rw (store_byte-room b rd e)
        (store_bytes-full bs (put b rd) (ground (arith, e)) (omega (arith, over)))
  | inr e ↦ rw (store_byte-full b rd e) refl
]

finish-padding :
    (rd : Receive)
    → finish rd ≡ (
        store_bytes (padding rd.type rd.index) rd >>= λ q.
        some (record q { frames = q.frames ++ q.buffer ∷ []; state = brand_new }))
unfolding finish store_bytes
finish-padding rd = elim (Bool-cases (rd.type == 1 || rd.type == 2)) [
  | inl e ↦ rw e refl
  | inr e ↦ rw e refl
]

feed-nil : (m : Option Receive) → (m >>= feed []) ≡ m
unfolding feed
feed-nil none = refl
feed-nil (some q) = refl

-- What follows a preamble: the payload goes to the buffer, and the packet ends.
feed_payload :
    (p : List ℕ) (rd : Receive)
    → length p < 2 ^ 16
    → (finish_if (length p == 0) (record rd { state = body; bytes_remaining = length p })
        >>= feed p)
      ≡ (store_bytes p (record rd { state = body }) >>= λ q.
          finish (record q { bytes_remaining = 0 }))
unfolding finish_if feed store_bytes
feed_payload [] rd small = feed-nil (finish (record rd { state = body; bytes_remaining = 0 }))
feed_payload (x ∷ p) rd small =
    let some_left : (suc (length p) == 0) ≡ false = ground arith in
    let left : suc (length p) - suc (length p) ≡ 0 = omega arith in
    rw (some_left, feed_body (x ∷ p) (length p) rd small, take-length p, drop-length p, left)
      (bind_ext (store_byte x (record rd { state = body }) >>= store_bytes p) _ _
        (λ q. feed-nil (finish (record q { bytes_remaining = 0 }))))

abbrev end_of : List ℕ → Receive → Receive
end_of bs rd = record rd {
  state = brand_new;
  bytes_remaining = 0;
  buffer = rd.buffer ++ bs;
  index = rd.index + length bs;
  frames = rd.frames ++ (rd.buffer ++ bs) ∷ [];
}

feed_payload-room :
    (p : List ℕ) (rd : Receive)
    → length p < 2 ^ 16
    → rd.index + length p + length (padding rd.type (rd.index + length p)) ≤ 1030
    → (finish_if (length p == 0) (record rd { state = body; bytes_remaining = length p })
        >>= feed p)
      ≡ some (end_of (p ++ padding rd.type (rd.index + length p)) rd)
feed_payload-room p rd small fits =
    let q = record rd {
      state = body;
      buffer = rd.buffer ++ p;
      index = rd.index + length p;
      bytes_remaining = 0;
    } in
    let end = padding rd.type (rd.index + length p) in
    let i : rd.index + length p + length end ≡ rd.index + length (p ++ end) =
      omega (arith, length-append p end) in
    rw
      (
        feed_payload p rd small,
        store_bytes-room p (record rd { state = body }) (omega (arith, fits)),
        finish-padding q,
        store_bytes-room end q fits,
        append_assoc,
        i,
      )
      refl

feed_payload-full :
    (p : List ℕ) (rd : Receive)
    → length p < 2 ^ 16
    → rd.index ≤ 1030
    → 1030 < rd.index + length p + length (padding rd.type (rd.index + length p))
    → (finish_if (length p == 0) (record rd { state = body; bytes_remaining = length p })
        >>= feed p)
      ≡ none
feed_payload-full p rd small here over =
    rw (feed_payload p rd small) (elim (Bool-cases (ltb 1030 (rd.index + length p))) [
      | inl e ↦ rw (store_bytes-full p (record rd { state = body }) here (ground (arith, e))) refl
      | inr e ↦
          let q = record rd {
            state = body;
            buffer = rd.buffer ++ p;
            index = rd.index + length p;
            bytes_remaining = 0;
          } in
          let end = padding rd.type (rd.index + length p) in
          rw
            (
              store_bytes-room p (record rd { state = body }) (ground (arith, e)),
              finish-padding q,
              store_bytes-full end q (ground (arith, e)) over,
            )
            refl
    ])

-- The parser behind a packet's head.
abbrev behind : Packet → Receive → Receive
behind k rd = record rd {
  type = packet_type k;
  preamble = head k;
  index = length (head k);
  buffer = head k;
}

feed_head :
    (k : Packet) (rd : Receive)
    → length (payload k) < 2 ^ 16
    → feed (encode k) (record rd { state = brand_new }) ≡ (
        finish_if
          (length (payload k) == 0)
          (record (behind k rd) { state = body; bytes_remaining = length (payload k) })
        >>= feed (payload k))
unfolding feed step_in read_byte read_type read_preamble
feed_head (command a b p) rd small =
    let e : length p % 65536 ≡ length p = omega (arith, small) in rw e refl
feed_head (acl a b p) rd small =
    let e : (length p / 256 * 256 + length p % 256) % 65536 ≡ length p = omega (arith, small) in
    rw e refl
feed_head (sco a b p) rd small =
    let e : length p % 65536 ≡ length p = omega (arith, small) in rw e refl
feed_head (event a p) rd small =
    let e : length p % 65536 ≡ length p = omega (arith, small) in rw e refl

-- The parser behind a packet.
abbrev pub after : Packet → Receive → Receive
after k rd = record rd {
  state = brand_new;
  bytes_remaining = 0;
  type = packet_type k;
  preamble = head k;
  index = length (frame k);
  buffer = frame k;
  frames = rd.frames ++ frame k ∷ [];
}

length-zeros : (n : ℕ) → length (replicate {A = ℕ} n 0) ≡ n
length-zeros n = length-replicate n 0

payload-small : (k : Packet) → length (payload k) ≤ limit k → length (payload k) < 2 ^ 16
payload-small (command a b p) h = omega (arith, h)
payload-small (acl a b p) h = omega (arith, h)
payload-small (sco a b p) h = omega (arith, h)
payload-small (event a p) h = omega (arith, h)

fits :
    (k : Packet)
    → length (payload k) ≤ limit k
    → length (head k)
        + length (payload k)
        + length (padding (packet_type k) (length (head k) + length (payload k)))
      ≤ 1030
fits (command a b p) h = rw (length-zeros (tail_size (4 + length p))) (omega arith)
fits (acl a b p) h = rw (length-zeros (tail_size (5 + length p))) (omega arith)
fits (sco a b p) h = omega (arith, h)
fits (event a p) h = omega (arith, h)

pub feed_packet :
    (k : Packet) (rd : Receive)
    → length (payload k) ≤ limit k
    → feed (encode k) (record rd { state = brand_new }) ≡ some (after k rd)
feed_packet k rd h =
    let small = payload-small k h in
    let end = padding (packet_type k) (length (head k) + length (payload k)) in
    let same : head k ++ (payload k ++ end) ≡ frame k =
      rw (length-append (head k) (payload k), append_assoc) refl in
    rw
      (
        feed_head k rd small,
        feed_payload-room (payload k) (behind k rd) small (fits k h),
        ← length-append (head k) (payload k ++ end),
        same,
      )
      refl

-- ACL data of 1023 bytes and more do not fit.
pub feed_packet-fault :
    (a b : ℕ) (p : List ℕ) (rd : Receive)
    → 1022 < length p
    → length p < 2 ^ 16
    → feed (encode (acl a b p)) (record rd { state = brand_new }) ≡ none
feed_packet-fault a b p rd long small = rw (feed_head (acl a b p) rd small) (
    feed_payload-full p (behind (acl a b p) rd) small (omega arith)
      (rw (length-zeros (tail_size (5 + length p))) (omega arith)))
