-- ===== src/BufRing/Queue.antt =====
-- The ring as a queue of bytes: mdbg_ring_read and mdbg_ring_write of BSP/platform/bufring.c.
use uwe5631_aml.Common.{
  ℕ, zero, suc, ◌+◌, ◌-◌, ◌≤◌, ◌<◌, ◌≡◌, refl, sym, ap, ◌∙◌, Bool, true, false, not, ◌&&◌, ◌||◌,
  some, inl, inr, List, [], ◌∷◌, ◌++◌, arith, ltb, leb, ◌==◌, if◌then◌else◌, Bool-cases, length,
  take, drop,
}
use uwe5631_aml.BufRing.{
  Ring, mdbg_ring_free_space, mdbg_ring_readable_len, mdbg_ring_over_loop_read,
  mdbg_ring_over_loop_write, bytes, take_bytes, put_bytes, mdbg_ring_read, mdbg_ring_write,
}
use uwe5631_aml.BufRing.Chunks.{
  length-take-le, length-drop-sub, get_or-take-lt, get_or-drop-add, list_ext, length-tabulate,
  get_or-tabulate,
}
use uwe5631_aml.Common.{length-replicate}
use uwe5631_aml.BufRing.{
  mdbg_ring_write_ext, mdbg_ring_will_full, mdbg_ring_alloc, mdbg_ring_clear, mdbg_ring_reset,
}
use uwe5631_aml.BufRing.Fifo.{
  IsRing, offset, byte_at, Takes, Puts, take_bytes-Takes, put_plain, put_wrapped, readable-Puts,
  contents, contents-Puts,
}

put_bytes-Puts :
    (r : Ring) (xs : List ℕ)
    → IsRing r
    → length xs < mdbg_ring_free_space r
    → Puts r xs (put_bytes r xs)
unfolding put_bytes mdbg_ring_over_loop_write
put_bytes-Puts r xs h lt = elim (Bool-cases (ltb (r.size - 1) (r.wp + length xs))) [
  | inl e ↦ rw e (put_wrapped r xs h lt (ground (arith, e)))
  | inr e ↦ rw e (put_plain r xs h lt (ground (arith, e, h.wp_in)))
]

-- Bytes that leave one free, written by a copy that succeeds, are all taken, whether or not a reader
-- has opened the device: they stand behind those that wait already, and the ring stays well-formed.
pub mdbg_ring_write_lem :
    (r : Ring) (xs : List ℕ) (opened : Bool)
    → IsRing r
    → 0 < length xs
    → length xs < mdbg_ring_free_space r
    → let (ret, r') = mdbg_ring_write r xs opened true in
      (ret ≡ bytes (length xs)) × (contents r' ≡ contents r ++ xs) × IsRing r'
unfolding mdbg_ring_write
mdbg_ring_write_lem r xs opened h pos lt =
    let p = put_bytes-Puts r xs h lt in
    let (ring, n) = readable-Puts r xs (put_bytes r xs) h lt p in
    let some_bytes : (length xs == 0) ≡ false = ground arith in
    let fits : (ltb (mdbg_ring_free_space r) (length xs + 1) && opened) ≡ false = ground arith in
    rw (some_bytes, fits) (refl, contents-Puts r xs (put_bytes r xs) n p, ring)

readable-Takes :
    (r : Ring) (n : ℕ) (out : List ℕ × Ring)
    → IsRing r
    → n ≤ mdbg_ring_readable_len r
    → Takes r n out
    → IsRing out.1 × (mdbg_ring_readable_len r ≡ n + mdbg_ring_readable_len out.1)
unfolding mdbg_ring_readable_len mdbg_ring_free_space
readable-Takes r n out h le t = (
  record {
    full_size = omega (arith, t.fields, ap length (t.fields.0), h.full_size);
    rp_in = ground (arith, t.next, t.fields, h.rp_in, h.wp_in, le);
    wp_in = omega (arith, t.fields, h.wp_in);
  },
  ground (arith, t.next, t.fields, h.rp_in, h.wp_in, le),
)

-- The byte that is read after `k` others stands `n` further on before the read of `n` bytes.
byte_at-Takes :
    (r : Ring) (n : ℕ) (out : List ℕ × Ring) (k : ℕ)
    → IsRing r
    → Takes r n out
    → n + k < mdbg_ring_readable_len r
    → byte_at out.1 k ≡ byte_at r (n + k)
unfolding mdbg_ring_readable_len mdbg_ring_free_space
byte_at-Takes r n out k h t l =
    let same : offset out.1 k ≡ offset r (n + k) =
      ground (arith, t.next, t.fields, h.rp_in, h.wp_in, l) in
    rw (t.fields.0, same) refl

contents-Takes :
    (r : Ring) (n : ℕ) (out : List ℕ × Ring)
    → IsRing r
    → n ≤ mdbg_ring_readable_len r
    → Takes r n out
    → (out.0 ≡ take n (contents r)) × (contents out.1 ≡ drop n (contents r))
contents-Takes r n out h le t =
    let m = mdbg_ring_readable_len r in
    let c = contents r in
    let l = length-tabulate m (byte_at r) in
    let m' = mdbg_ring_readable_len out.1 in
    let l' = length-tabulate m' (byte_at out.1) in
    let (ring, e) = readable-Takes r n out h le t in
    let lt = length-take-le n c (omega (arith, l, le)) in
    (
      list_ext out.0 (take n c) (omega (arith, t.size, lt)) (λ k s.
          let less : k < n = omega (arith, s, t.size) in
          t.taken k less
          ∙ sym (
              get_or-take-lt n k c less
              ∙ get_or-tabulate m (byte_at r) k (omega (arith, less, le)))),
      list_ext (contents out.1) (drop n c) (omega (arith, l', e, l, length-drop-sub n c)) (λ k s.
          let less : n + k < m = omega (arith, s, l', e) in
          get_or-tabulate m' (byte_at out.1) k (omega (arith, s, l'))
          ∙ byte_at-Takes r n out k h t less
          ∙ sym (get_or-drop-add n (n + k) k c refl ∙ get_or-tabulate m (byte_at r) (n + k) less)),
    )

take-cut : (n : ℕ) (xs : List ℕ) → length xs ≤ n → take n xs ≡ take (length xs) xs
take-cut zero [] h = refl
take-cut zero (x ∷ xs) h = absurd (omega arith)
take-cut (suc n) [] h = refl
take-cut (suc n) (x ∷ xs) h = ap (◌∷◌ x) (take-cut n xs (omega arith))

drop-cut : (n : ℕ) (xs : List ℕ) → length xs ≤ n → drop n xs ≡ drop (length xs) xs
drop-cut zero [] h = refl
drop-cut zero (x ∷ xs) h = absurd (omega arith)
drop-cut (suc n) [] h = refl
drop-cut (suc n) (x ∷ xs) h = drop-cut n xs (omega arith)

-- As many bytes as a read takes.
abbrev read_len : Ring → ℕ → ℕ
read_len r len = if leb len (mdbg_ring_readable_len r) then len else mdbg_ring_readable_len r

take_drop-read_len :
    (r : Ring) (len : ℕ)
    → (take (read_len r len) (contents r) ≡ take len (contents r))
      × (drop (read_len r len) (contents r) ≡ drop len (contents r))
take_drop-read_len r len =
    let l = length-tabulate (mdbg_ring_readable_len r) (byte_at r) in
    elim (Bool-cases (leb len (mdbg_ring_readable_len r))) [
      | inl e ↦ rw e (refl, refl)
      | inr e ↦
          let more : length (contents r) ≤ len = ground (arith, e, l) in
          rw e (
            sym (rw l at (take-cut len (contents r) more)),
            sym (rw l at (drop-cut len (contents r) more)),
          )
    ]

-- A read of at least one byte, by a copy that succeeds, gives the first bytes that wait, as many as
-- were asked for or all of them; the others wait still, and the ring stays well-formed.
pub mdbg_ring_read_lem :
    (r : Ring) (len : ℕ)
    → IsRing r
    → 0 < len
    → let (ret, out, r') = mdbg_ring_read r len true in
      (ret ≡ bytes (length out))
      × (out ≡ take len (contents r))
      × (contents r' ≡ drop len (contents r))
      × IsRing r'
unfolding mdbg_ring_read
mdbg_ring_read_lem r len h pos =
    let n = read_len r len in
    let t = take_bytes-Takes r n h (ground arith) in
    let (ring, m) = readable-Takes r n (take_bytes r n) h (ground arith) t in
    let (out, rest) = contents-Takes r n (take_bytes r n) h (ground arith) t in
    let (cut, cut') = take_drop-read_len r len in
    let asked : (len == 0) ≡ false = ground arith in
    elim (Bool-cases (n == 0)) [
      | inr e ↦ rw (asked, e) (ap bytes (sym t.size), out ∙ cut, rest ∙ cut', ring)
      | inl e ↦
          let none_left : n ≡ 0 = ground (arith, e) in
          rw (asked, e) (refl, rw none_left at cut, rw none_left at cut', h)
    ]

-- mdbg_ring_write_ext tests the reader's pointer in place of the writer's: where the chunk fits
-- behind `rp` and is free but runs past the end behind `wp`, the chunk is given out all the same,
-- and the ring is not well-formed afterwards.
pub mdbg_ring_write_ext_overflow :
    (r : Ring) (len : ℕ)
    → 0 < len
    → r.rp + len < r.size
    → len ≤ mdbg_ring_free_space r
    → r.size < r.wp + len
    → let (chunk, r') = mdbg_ring_write_ext r len in (chunk ≡ some r.wp) × (¬ IsRing r')
unfolding mdbg_ring_write_ext mdbg_ring_over_loop_read mdbg_ring_will_full
mdbg_ring_write_ext_overflow r len pos behind fits past =
    let e : ltb (r.size - 1) (r.rp + len) ≡ false = ground arith in
    let f : (len == 0) ≡ false = ground arith in
    let g : ltb (mdbg_ring_free_space r) len ≡ false = ground arith in
    rw (e, f, g) (refl, λ h. omega (arith, h.wp_in, past))

contents_empty : (r : Ring) → r.rp ≡ r.wp → contents r ≡ []
unfolding mdbg_ring_readable_len mdbg_ring_free_space
contents_empty r e = let z : mdbg_ring_readable_len r ≡ 0 = ground (arith, e) in rw z refl

-- A ring of at least 4096 bytes is allocated, if memory is given, and it is well-formed and empty.
pub mdbg_ring_alloc_lem :
    (size : ℕ)
    → 4096 ≤ size
    → (r : Ring) × (mdbg_ring_alloc size true ≡ some r) × (contents r ≡ []) × IsRing r
unfolding mdbg_ring_alloc
mdbg_ring_alloc_lem size h =
    let big : (ltb size 4096 || not true) ≡ false = ground arith in
    rw big (
      _,
      refl,
      contents_empty _ refl,
      record { full_size = length-replicate size 0; rp_in = omega arith; wp_in = omega arith },
    )

-- mdbg_ring_clear and mdbg_ring_reset discard the bytes that wait, and leave a well-formed ring.
pub mdbg_ring_clear_lem :
    (r : Ring)
    → IsRing r
    → (contents (mdbg_ring_clear r) ≡ [])
      × IsRing (mdbg_ring_clear r)
      × (contents (mdbg_ring_reset r) ≡ [])
      × IsRing (mdbg_ring_reset r)
unfolding mdbg_ring_clear mdbg_ring_reset
mdbg_ring_clear_lem r h = (
  contents_empty (mdbg_ring_clear r) refl,
  record { full_size = h.full_size; rp_in = h.wp_in; wp_in = h.wp_in },
  contents_empty (mdbg_ring_reset r) refl,
  record {
    full_size = h.full_size;
    rp_in = omega (arith, h.rp_in);
    wp_in = omega (arith, h.rp_in);
  },
)
