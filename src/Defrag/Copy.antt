-- ===== src/Defrag/Copy.antt =====
-- What the copies of WIFI/defrag.c make out of the fragments of a frame.
use uwe5631_aml.Common.{
  ℕ, zero, suc, ◌+◌, ◌%◌, ◌^◌, ◌≤◌, ◌<◌, ◌≡◌, refl, true, some, List, [], ◌∷◌, ◌++◌, arith, leb,
  length, take, drop, take-length, length-take, length-drop, length-append, append_assoc,
  append-nil, ◌>>=◌,
}
use uwe5631_aml.Defrag.{
  MsduDesc, Skb, header_len, frag_len, frag_offset, msdu_total_len, copy, copy_rest,
}

-- A buffer holds what its descriptor says, and the header is in it.
pub record IsSkb (s : Skb) : Type 0 where
  pub header : header_len s.desc ≤ s.desc.msdu_len
  pub len : s.desc.msdu_len < 2 ^ 16
  pub offset : s.desc.msdu_offset < 256
  pub room : msdu_total_len s.desc ≤ length s.bytes

-- The first fragment's bytes up to its end, and those of another behind its header.
abbrev pub head_bytes : Skb → List ℕ
head_bytes s = take (msdu_total_len s.desc) s.bytes

abbrev payload : Skb → List ℕ
payload s = take (frag_len s.desc) (drop (frag_offset s.desc) s.bytes)

abbrev pub payloads : List Skb → List ℕ
payloads [] = []
payloads (s ∷ ss) = payload s ++ payloads ss

abbrev pub frags_len : List Skb → ℕ
frags_len [] = 0
frags_len (s ∷ ss) = frag_len s.desc + frags_len ss

unfoldable pub AreSkbs : List Skb → Type 0
AreSkbs [] = Unit {0}
AreSkbs (s ∷ ss) = IsSkb s × AreSkbs ss

header_len-small : (d : MsduDesc) → header_len d ≤ 14
header_len-small d = ground arith

IsSkb-room : (s : Skb) → IsSkb s → frag_offset s.desc + frag_len s.desc ≤ length s.bytes
IsSkb-room s i = omega (arith, i.header, i.len, i.offset, i.room, header_len-small s.desc)

length-payload : (s : Skb) → IsSkb s → length (payload s) ≡ frag_len s.desc
length-payload s i = omega (
  arith,
  length-take (frag_len s.desc) (drop (frag_offset s.desc) s.bytes),
  length-drop (frag_offset s.desc) s.bytes,
  IsSkb-room s i,
)

drop-beyond : (n : ℕ) (xs : List ℕ) → length xs ≤ n → drop n xs ≡ []
drop-beyond zero [] h = refl
drop-beyond (suc n) [] h = refl
drop-beyond zero (x ∷ xs) h = absurd (omega arith)
drop-beyond (suc n) (x ∷ xs) h = drop-beyond n xs (omega arith)

pub copy-end :
    (size to from n : ℕ) (src dest : List ℕ)
    → to ≡ length dest
    → from + n ≤ length src
    → to + n ≤ size
    → copy size to from src n dest ≡ some (dest ++ take n (drop from src))
unfolding copy
copy-end size to from n src dest e inside room =
    let a : leb (from + n) (length src) ≡ true = ground (arith, inside) in
    let b : leb (to + n) size ≡ true = ground (arith, room) in
    rw (a, b, drop-beyond (to + n) dest (omega arith), append-nil, e, take-length dest) refl

copy_rest-appends :
    (size offset : ℕ) (ss : List Skb) (dest : List ℕ)
    → AreSkbs ss
    → offset ≡ length dest
    → offset + frags_len ss ≤ size
    → size < 2 ^ 16
    → copy_rest size offset ss dest ≡ some (dest ++ payloads ss)
unfolding copy_rest AreSkbs
copy_rest-appends size offset [] dest are e room small = rw append-nil refl
copy_rest-appends size offset (s ∷ ss) dest (i, are) e room small =
    let d = dest ++ payload s in
    let n : (offset + frag_len s.desc) % 65536 ≡ length d =
      omega (arith, e, room, small, length-append dest (payload s), length-payload s i) in
    rw
      (
        copy-end size offset (frag_offset s.desc) (frag_len s.desc) s.bytes dest e (IsSkb-room s i)
            (omega (arith, room)),
        n,
      )
      (rw
        (
          copy_rest-appends size (length d) ss d are refl (omega (arith, n, room, small)) small,
          append_assoc,
        )
        refl)

-- The first fragment's bytes, and behind them what the others carry.
pub copies :
    (size : ℕ) (first : Skb) (rest : List Skb)
    → IsSkb first
    → AreSkbs rest
    → msdu_total_len first.desc + frags_len rest ≡ size
    → size < 2 ^ 16
    → (copy size 0 0 first.bytes (msdu_total_len first.desc % 2 ^ 16) []
        >>= copy_rest size (msdu_total_len first.desc % 2 ^ 16) rest)
      ≡ some (head_bytes first ++ payloads rest)
copies size first rest i are e small =
    let t : msdu_total_len first.desc % 65536 ≡ msdu_total_len first.desc =
      omega (arith, e, small) in
    let n : msdu_total_len first.desc ≡ length (head_bytes first) =
      omega (arith, i.room, length-take (msdu_total_len first.desc) first.bytes) in
    rw
      (
        t,
        copy-end size 0 0 (msdu_total_len first.desc) first.bytes [] refl (omega (arith, i.room))
            (omega (arith, e)),
      )
      (copy_rest-appends size (msdu_total_len first.desc) rest (head_bytes first) are n
        (omega (arith, e)) small)
