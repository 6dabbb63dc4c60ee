-- ===== src/BufRing/Tests.antt =====
-- Concrete rings, and what the theorems say of them.
use uwe5631_aml.Common.{◌≡◌, refl, true, false, [], ◌∷◌, ◌++◌, arith, length, take, drop}
use uwe5631_aml.BufRing.{Ring, mdbg_ring_free_space, bytes, mdbg_ring_read, mdbg_ring_write}
use uwe5631_aml.BufRing.Fifo.{IsRing, contents}
use uwe5631_aml.BufRing.Queue.{mdbg_ring_read_lem, mdbg_ring_write_lem}

-- 7, 6 and 9 wait, round the end of the buffer.
abbrev wrapped : Ring
wrapped = record { size = 4; pbuff = 9 ∷ 8 ∷ 7 ∷ 6 ∷ []; rp = 2; wp = 1; p_order_flag = true }

wrapped-IsRing : IsRing wrapped
wrapped-IsRing = record { full_size = refl; rp_in = omega arith; wp_in = omega arith }

-- 8 waits, and the end is near.
abbrev near_end : Ring
near_end = record wrapped { rp = 1; wp = 3 }

near_end-IsRing : IsRing (record near_end { rp = 2 })
near_end-IsRing = record { full_size = refl; rp_in = omega arith; wp_in = omega arith }

mdbg_ring_write_example :
    let (ret, r') = mdbg_ring_write (record near_end { rp = 2 }) (1 ∷ 5 ∷ []) false true in
    (ret ≡ bytes 2)
    × (contents r' ≡ contents (record near_end { rp = 2 }) ++ 1 ∷ 5 ∷ [])
    × IsRing r'
unfolding mdbg_ring_free_space
mdbg_ring_write_example =
    mdbg_ring_write_lem (record near_end { rp = 2 }) (1 ∷ 5 ∷ []) false near_end-IsRing
      (omega arith) (omega arith)

mdbg_ring_read_example :
    let (ret, out, r') = mdbg_ring_read wrapped 2 true in
    (ret ≡ bytes (length out))
    × (out ≡ take 2 (contents wrapped))
    × (contents r' ≡ drop 2 (contents wrapped))
    × IsRing r'
mdbg_ring_read_example = mdbg_ring_read_lem wrapped 2 wrapped-IsRing (omega arith)
