-- ===== src/BufRing.antt =====
-- The ring of bytes that BSP/platform/bufring.c keeps for the log.
-- A pointer into the buffer is its offset from `pbuff`, so `end` is size - 1. The lengths are below
-- 2^31 and not negative, so their conversions to int change nothing. `copied` says whether the copy
-- succeeds: memcpy always does, copy_to_user and copy_from_user may not.
pub mod Chunks
pub mod Fifo
pub mod Queue
mod Tests
use uwe5631_aml.Common.{
  ℕ, zero, suc, ◌+◌, ◌-◌, ◌%◌, ◌^◌, ◌≡◌, refl, Bool, true, false, not, ◌&&◌, ◌||◌, Option, none,
  some, List, [], ◌∷◌, ◌++◌, ltb, leb, ◌==◌, if◌then◌else◌, length, get_or, take, drop, replicate,
}

-- `struct mdbg_ring_t`
pub record Ring : Type 0 where
  pub size : ℕ
  pub pbuff : List ℕ
  pub rp : ℕ
  pub wp : ℕ
  pub p_order_flag : Bool

-- _MDBG_RING_REMAIN
pub mdbg_ring_free_space : Ring → ℕ
mdbg_ring_free_space r = if leb r.rp r.wp then r.size + r.rp - r.wp else r.rp - r.wp

pub mdbg_ring_readable_len : Ring → ℕ
mdbg_ring_readable_len r = r.size - mdbg_ring_free_space r

pub mdbg_ring_will_full : Ring → ℕ → Bool
mdbg_ring_will_full r len = ltb (mdbg_ring_free_space r) len

-- Whether `len` bytes from the pointer run past the end, and the ring with its flag.
pub mdbg_ring_over_loop_read : Ring → ℕ → Bool × Ring
mdbg_ring_over_loop_read r len =
    if ltb (r.size - 1) (r.rp + len) then (true, record r { p_order_flag = false }) else (false, r)

pub mdbg_ring_over_loop_write : Ring → ℕ → Bool × Ring
mdbg_ring_over_loop_write r len =
    if ltb (r.size - 1) (r.wp + len) then (true, record r { p_order_flag = true }) else (false, r)

-- MDBG_RING_MIN_SIZE is 4096. `allocated` says whether all calls of kmalloc succeed.
pub mdbg_ring_alloc : ℕ → Bool → Option Ring
mdbg_ring_alloc size allocated =
    if ltb size 4096 || not allocated
    then none
    else some
        (record { size = size; pbuff = replicate size 0; rp = 0; wp = 0; p_order_flag = false })

-- The return value: -MDBG_ERR_BAD_PARAM, -EFAULT, or a number of bytes.
pub data Returned : Type 0 where
  bad_param fault : Returned
  bytes : ℕ → Returned

-- memcpy from the buffer
abbrev pub copy_out : List ℕ → ℕ → ℕ → List ℕ
copy_out pbuff from len = take len (drop from pbuff)

-- memcpy into the buffer
pub copy_in : List ℕ → ℕ → List ℕ → List ℕ
copy_in [] at data_in = []
copy_in (b ∷ bs) zero [] = b ∷ bs
copy_in (b ∷ bs) zero (x ∷ xs) = x ∷ copy_in bs zero xs
copy_in (b ∷ bs) (suc at) xs = b ∷ copy_in bs at xs

-- What is copied, and the ring with its new `rp`.
pub take_bytes : Ring → ℕ → List ℕ × Ring
take_bytes r read_len =
    let (over, r') = mdbg_ring_over_loop_read r read_len in
    if over
    then (let len1 = r.size - 1 - r.rp + 1 in
        let len2 = read_len - len1 in
        (copy_out r.pbuff r.rp len1 ++ copy_out r.pbuff 0 len2, record r' { rp = len2 }))
    else (copy_out r.pbuff r.rp read_len, record r' { rp = r.rp + read_len })

-- A copy that fails leaves the ring, but for the flag.
pub mdbg_ring_read : Ring → ℕ → Bool → Returned × List ℕ × Ring
mdbg_ring_read r len copied =
    let cont_len = mdbg_ring_readable_len r in
    let read_len = if leb len cont_len then len else cont_len in
    if len == 0
    then (bad_param, [], r)
    else if read_len == 0
    then (bytes 0, [], r)
    else if copied
    then (let (out, r') = take_bytes r read_len in (bytes read_len, out, r'))
    else (fault, [], (mdbg_ring_over_loop_read r read_len).1)

pub put_bytes : Ring → List ℕ → Ring
put_bytes r xs =
    let len = length xs in
    let (over, r') = mdbg_ring_over_loop_write r len in
    if over
    then (let len1 = r.size - 1 - r.wp + 1 in
        let len2 = (len - len1) % r.size in
        record r' {
          pbuff = copy_in (copy_in r.pbuff r.wp (take len1 xs)) 0 (take len2 (drop len1 xs));
          wp = len2;
        })
    else record r' { pbuff = copy_in r.pbuff r.wp xs; wp = r.wp + len }

-- `opened` is mdbg_dev->open_count != 0: only then is a package that does not fit discarded, with its
-- length returned all the same.
pub mdbg_ring_write : Ring → List ℕ → Bool → Bool → Returned × Ring
mdbg_ring_write r xs opened copied =
    if length xs == 0
    then (bad_param, r)
    else if ltb (mdbg_ring_free_space r) (length xs + 1) && opened
    then (bytes (length xs), r)
    else if copied
    then (bytes (length xs), put_bytes r xs)
    else (fault, (mdbg_ring_over_loop_write r (length xs)).1)

-- The offset of the chunk that the caller may fill, NULL for none. The test is that of the reader.
pub mdbg_ring_write_ext : Ring → ℕ → Option ℕ × Ring
mdbg_ring_write_ext r len =
    let (over, r') = mdbg_ring_over_loop_read r len in
    if len == 0
    then (none, r)
    else if over || mdbg_ring_will_full r' len
    then (none, r')
    else (some r.wp, record r' { wp = r.wp + len })

pub mdbg_ring_clear : Ring → Ring
mdbg_ring_clear r = record r { rp = r.wp }

pub mdbg_ring_reset : Ring → Ring
mdbg_ring_reset r = record r { wp = 0; rp = 0 }
