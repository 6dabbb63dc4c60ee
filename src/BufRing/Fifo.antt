-- ===== src/BufRing/Fifo.antt =====
-- Where the bytes of a read come from, and where those of a write go, in BSP/platform/bufring.c.
use uwe5631_aml.Common.{
  ℕ, ◌+◌, ◌-◌, ◌%◌, ◌≤◌, ◌<◌, ◌≡◌, refl, sym, ap, ◌∙◌, true, inl, inr, List, ◌++◌, arith, ltb,
  if◌then◌else◌, Bool-cases, length, get_or, take, drop,
}
use uwe5631_aml.BufRing.{
  Ring, mdbg_ring_free_space, mdbg_ring_readable_len, mdbg_ring_over_loop_read, copy_out, copy_in,
  take_bytes,
}
use native.Mathlib.Nat.{mod-eq_of_lt}
use uwe5631_aml.BufRing.Chunks.{
  length-copy_in, get_or-copy_in_new, get_or-copy_in_old, length-take-le, length-drop-sub,
  get_or-take-lt, get_or-drop-add, get_or-append_left, get_or-append_right, length-append-add,
  length-copy_out, get_or-copy_out, get_or-two_chunks, list_ext, tabulate, length-tabulate,
  get_or-tabulate,
}

-- Both pointers are in the buffer, which has `size` bytes.
pub record IsRing (r : Ring) : Type 0 where
  pub full_size : length r.pbuff ≡ r.size
  pub rp_in : r.rp < r.size
  pub wp_in : r.wp < r.size

-- The offset of the byte that is read after `k` others.
abbrev pub offset : Ring → ℕ → ℕ
offset r k = if ltb (r.rp + k) r.size then r.rp + k else r.rp + k - r.size

abbrev pub byte_at : Ring → ℕ → ℕ
byte_at r k = get_or r.pbuff (offset r k) 0

-- The bytes that a read takes.
pub record Takes (r : Ring) (n : ℕ) (out : List ℕ × Ring) : Type 0 where
  pub size : length out.0 ≡ n
  pub taken : (k : ℕ) → k < n → get_or out.0 k 0 ≡ byte_at r k
  pub next : offset r n ≡ out.1.rp
  pub fields : (out.1.pbuff ≡ r.pbuff) × (out.1.wp ≡ r.wp) × (out.1.size ≡ r.size)

pub take_bytes-Takes :
    (r : Ring) (n : ℕ) → IsRing r → n ≤ mdbg_ring_readable_len r → Takes r n (take_bytes r n)
unfolding take_bytes mdbg_ring_over_loop_read mdbg_ring_readable_len mdbg_ring_free_space
take_bytes-Takes r n h le =
    let len1 = r.size - 1 - r.rp + 1 in
    let len2 = n - len1 in
    elim (Bool-cases (ltb (r.size - 1) (r.rp + n))) [
      | inr e ↦ rw e (record {
        size = length-copy_out r.pbuff r.rp n (ground (arith, h.full_size, h.rp_in, e));
        taken = λ k l.
            let f : ltb (r.rp + k) r.size ≡ true = ground (arith, h.rp_in, e, l) in
            rw f (get_or-copy_out r.pbuff r.rp n (r.rp + k) k refl l);
        next = ground (arith, h.rp_in, e);
        fields = (refl, refl, refl);
      })
      | inl e ↦ rw e (record {
        size = ground (
          arith,
          length-append-add (copy_out r.pbuff r.rp len1) (copy_out r.pbuff 0 len2),
          length-copy_out r.pbuff r.rp len1 (omega (arith, h.full_size, h.rp_in)),
          length-copy_out r.pbuff 0 len2 (ground (arith, h.full_size, h.rp_in, le)),
          e,
          h.rp_in,
        );
        taken = λ k l. rw (h.full_size) at (
            get_or-two_chunks r.pbuff r.rp len1 len2 k (omega (arith, h.full_size, h.rp_in))
              (ground (arith, h.rp_in, e, l)));
        next = ground (arith, h.rp_in, e, le);
        fields = (refl, refl, refl);
      })
    ]

-- What a write leaves.
pub record Puts (r : Ring) (xs : List ℕ) (r' : Ring) : Type 0 where
  pub size : length r'.pbuff ≡ length r.pbuff
  pub wp :
      (if ltb (r.wp + length xs) r.size then r.wp + length xs else r.wp + length xs - r.size)
      ≡ r'.wp
  pub fields : (r'.rp ≡ r.rp) × (r'.size ≡ r.size)
  pub old : (k : ℕ) → k < mdbg_ring_readable_len r → byte_at r' k ≡ byte_at r k
  pub new : (k : ℕ) → k < length xs → byte_at r' (mdbg_ring_readable_len r + k) ≡ get_or xs k 0

pub put_plain :
    (r : Ring) (xs : List ℕ)
    → IsRing r
    → length xs < mdbg_ring_free_space r
    → r.wp + length xs < r.size
    → Puts r xs (record r { pbuff = copy_in r.pbuff r.wp xs; wp = r.wp + length xs })
unfolding mdbg_ring_readable_len mdbg_ring_free_space
put_plain r xs h lt e = record {
  size = length-copy_in r.pbuff r.wp xs;
  wp = ground (arith, e);
  fields = (refl, refl);
  old = λ k l.
      get_or-copy_in_old r.pbuff r.wp xs (offset r k) (ground (arith, h.rp_in, h.wp_in, lt, e, l));
  new = λ k l.
      get_or-copy_in_new r.pbuff r.wp xs (offset r (mdbg_ring_readable_len r + k)) k
        (ground (arith, h.rp_in, h.wp_in, lt, e, l)) (omega (arith, e, h.full_size)) l;
}

pub put_wrapped :
    (r : Ring) (xs : List ℕ)
    → IsRing r
    → length xs < mdbg_ring_free_space r
    → r.size ≤ r.wp + length xs
    → let len1 = r.size - 1 - r.wp + 1 in
      let len2 = (length xs - len1) % r.size in
      let buf = copy_in (copy_in r.pbuff r.wp (take len1 xs)) 0 (take len2 (drop len1 xs)) in
      Puts r xs (record r { pbuff = buf; wp = len2; p_order_flag = true })
unfolding mdbg_ring_readable_len mdbg_ring_free_space
put_wrapped r xs h lt e =
    let len1 = r.size - 1 - r.wp + 1 in
    let len2 = (length xs - len1) % r.size in
    let first = copy_in r.pbuff r.wp (take len1 xs) in
    let rest = take len2 (drop len1 xs) in
    let small : len2 ≡ length xs - len1 =
      mod-eq_of_lt {n = length xs - len1} {m = r.size} (ground (arith, h.rp_in, h.wp_in, lt, e)) in
    let l1 = length-take-le len1 xs (omega (arith, e, h.wp_in)) in
    let l2 = length-take-le len2 (drop len1 xs) (omega (arith, length-drop-sub len1 xs, small)) in
    let lf = length-copy_in r.pbuff r.wp (take len1 xs) in
    record {
      size = length-copy_in first 0 rest ∙ lf;
      wp = ground (arith, e, small, h.wp_in);
      fields = (refl, refl);
      old = λ k l.
          get_or-copy_in_old first 0 rest (offset r k)
            (ground (arith, h.rp_in, h.wp_in, lt, e, l, l2, small))
          ∙ get_or-copy_in_old r.pbuff r.wp (take len1 xs) (offset r k)
              (ground (arith, h.rp_in, h.wp_in, lt, e, l, l1));
      new = λ k l.
          let i = offset r (mdbg_ring_readable_len r + k) in
          elim (Bool-cases (ltb k len1)) [
            | inl f ↦
                get_or-copy_in_old first 0 rest i
                  (ground (arith, h.rp_in, h.wp_in, lt, e, l, l2, small, f))
                ∙ get_or-copy_in_new r.pbuff r.wp (take len1 xs) i k
                    (ground (arith, h.rp_in, h.wp_in, lt, e, l, f))
                    (omega (arith, l1, h.full_size, h.wp_in)) (ground (arith, l1, f))
                ∙ get_or-take-lt len1 k xs (ground (arith, f))
            | inr f ↦
                let j = k - len1 in
                get_or-copy_in_new first 0 rest i j (ground (arith, h.rp_in, h.wp_in, lt, e, l, f))
                  (ground (arith, l2, lf, h.full_size, small, lt, h.rp_in, h.wp_in))
                  (ground (arith, l2, small, l, f))
                ∙ get_or-take-lt len2 j (drop len1 xs) (ground (arith, small, l, f))
                ∙ get_or-drop-add len1 k j xs (ground (arith, f))
          ];
    }

-- The bytes that wait to be read, the next one first.
abbrev pub contents : Ring → List ℕ
contents r = tabulate (mdbg_ring_readable_len r) (byte_at r)

pub readable-Puts :
    (r : Ring) (xs : List ℕ) (r' : Ring)
    → IsRing r
    → length xs < mdbg_ring_free_space r
    → Puts r xs r'
    → IsRing r' × (mdbg_ring_readable_len r' ≡ mdbg_ring_readable_len r + length xs)
unfolding mdbg_ring_readable_len mdbg_ring_free_space
readable-Puts r xs r' h lt p = (
  record {
    full_size = omega (arith, p.size, h.full_size, p.fields);
    rp_in = omega (arith, p.fields, h.rp_in);
    wp_in = ground (arith, p.wp, p.fields, h.wp_in, h.rp_in, lt);
  },
  ground (arith, p.wp, p.fields, h.wp_in, h.rp_in, lt),
)

pub contents-Puts :
    (r : Ring) (xs : List ℕ) (r' : Ring)
    → mdbg_ring_readable_len r' ≡ mdbg_ring_readable_len r + length xs
    → Puts r xs r'
    → contents r' ≡ contents r ++ xs
contents-Puts r xs r' e p =
    let n = mdbg_ring_readable_len r in
    let l = length-tabulate n (byte_at r) in
    let l' = length-tabulate (mdbg_ring_readable_len r') (byte_at r') in
    list_ext (contents r') (contents r ++ xs)
      (omega (arith, l, l', e, length-append-add (contents r) xs))
      (λ k m.
        get_or-tabulate (mdbg_ring_readable_len r') (byte_at r') k (omega (arith, m, l'))
        ∙ elim (Bool-cases (ltb k n)) [
          | inl f ↦
              let less : k < n = ground (arith, f) in
              p.old k less
              ∙ sym (
                  get_or-append_left (contents r) xs k (omega (arith, l, less))
                  ∙ get_or-tabulate n (byte_at r) k less)
          | inr f ↦
              let j = k - n in
              let s : k ≡ n + j = ground (arith, f) in
              ap (byte_at r') s
              ∙ p.new j (omega (arith, s, m, l', e))
              ∙ sym (get_or-append_right (contents r) xs k j (omega (arith, l, s)))
        ])
