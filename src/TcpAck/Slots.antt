-- ===== src/TcpAck/Slots.antt =====
-- The table of flows keeps count: max_num is the number of busy entries, and the index that it
-- remembers as free is that of an idle one.
use uwe5631_aml.Common.{
  ℕ, zero, suc, ◌+◌, ◌*◌, ◌%◌, ◌^◌, ◌≤◌, ◌<◌, ◌≡◌, refl, ap, ◌∙◌, ◌⊎◌, inl, inr, Bool, false, not,
  ◌&&◌, ◌||◌, Option, none, some, List, [], ◌∷◌, arith, ltb, ◌==◌, flag, Bool-cases, length, get_or,
  set,
}
use uwe5631_aml.Common.{length-set, Option-cases}
use mathlib.Core.Path.{subst}
use mathlib.Core.Option.{some-injective}
use uwe5631_aml.TcpAck.{
  AckMsg, AckInfo, AckManage, tcp_ack_num, time_after, handle_forced, handle_newer,
  sprdwl_tcp_ack_handle,
}
use uwe5631_aml.TcpAck.Packet.{Bytes, Checked, sprdwl_tcp_check_ack}
use uwe5631_aml.TcpAck.Manage.{
  fresh_info, is_old, expire_from, first_from, sprdwl_tcp_ack_init, sprdwl_tcp_ack_update,
  sprdwl_tcp_ack_match, sprdwl_tcp_ack_alloc_index, alloc_at, info_at, set_info, Filtered, rescale,
  filter_known, new_flow, filter_checked, filter_new, sprdwl_filter_send_tcp_ack, same_flow,
}

abbrev idle : AckInfo
idle = fresh_info 0 0

abbrev pub busy_count : List AckInfo → ℕ
busy_count [] = 0
busy_count (i ∷ is) = flag i.busy + busy_count is

-- An index, if there is one, is that of an idle entry.
abbrev pub IsFree : Option ℕ → List AckInfo → Type 0
IsFree none is = Unit {0}
IsFree (some k) is = (k < length is) × ((get_or is k idle).busy ≡ false)

-- A table that keeps count: max_num is the number of its busy entries.
pub record IsCounted (m : AckManage) : Type 0 where
  pub size : length m.ack_info ≡ tcp_ack_num
  pub number : busy_count m.ack_info ≡ m.max_num
  pub free : IsFree m.free_index m.ack_info

busy_count-le : (is : List AckInfo) → busy_count is ≤ length is
busy_count-le [] = omega arith
busy_count-le (i ∷ is) = ground (arith, busy_count-le is)

busy_count-set :
    (is : List AckInfo) (k : ℕ) (j : AckInfo)
    → k < length is
    → busy_count (set is k j) + flag (get_or is k idle).busy ≡ busy_count is + flag j.busy
busy_count-set [] k j h = absurd (omega arith)
busy_count-set (i ∷ is) zero j h = omega arith
busy_count-set (i ∷ is) (suc k) j h = omega (arith, busy_count-set is k j (omega arith))

-- What the ageing of the entries leaves.
record Expires (n : ℕ) (is : List AckInfo) (num : ℕ) (free : Option ℕ)
    (out : List AckInfo × ℕ × Option ℕ) : Type 0 where
  size : length out.0 ≡ length is
  number : out.1 + busy_count is ≡ num + busy_count out.0
  stays : (k : ℕ) → (get_or is k idle).busy ≡ false → (get_or out.0 k idle).busy ≡ false
  index :
      (out.2 ≡ free)
      ⊎ ((j : ℕ) × (out.2 ≡ some (n + j)) × (j < length is) × ((get_or out.0 j idle).busy ≡ false))

expire_from-Expires :
    (now n : ℕ) (is : List AckInfo) (num : ℕ) (free : Option ℕ)
    → busy_count is ≤ num
    → Expires n is num free (expire_from now n is num free)
unfolding expire_from
expire_from-Expires now n [] num free h = record {
  size = refl;
  number = refl;
  stays = λ k e. e;
  index = inl refl;
}
expire_from-Expires now n (i ∷ is) num free h =
    let ih = expire_from-Expires now (n + 1) is num free (omega arith) in
    elim (Bool-cases (is_old now i)) [
      | inl e ↦ rw e (record {
        size = omega (arith, ih.size);
        number = ground (arith, ih.number, e, busy_count-le is);
        stays = after_old ih.stays;
        index = inr (0, some_eq n, omega arith, refl);
      })
      | inr e ↦ rw e (record {
        size = omega (arith, ih.size);
        number = omega (arith, ih.number);
        stays = after_young ih.stays;
        index = shift ih.index;
      })
    ]
  where
    out : List AckInfo × ℕ × Option ℕ
    out = expire_from now (n + 1) is num free

    some_eq : (n : ℕ) → some n ≡ some (n + 0)
    some_eq n = ground arith

    after_old :
        ((k : ℕ) → (get_or is k idle).busy ≡ false → (get_or out.0 k idle).busy ≡ false)
        → (k : ℕ) → (get_or (i ∷ is) k idle).busy ≡ false
        → (get_or (record i { busy = false } ∷ out.0) k idle).busy ≡ false
    after_old s zero e = refl
    after_old s (suc k) e = s k e

    after_young :
        ((k : ℕ) → (get_or is k idle).busy ≡ false → (get_or out.0 k idle).busy ≡ false)
        → (k : ℕ) → (get_or (i ∷ is) k idle).busy ≡ false
        → (get_or (i ∷ out.0) k idle).busy ≡ false
    after_young s zero e = e
    after_young s (suc k) e = s k e

    shift :
        ((out.2 ≡ free)
          ⊎ ((j : ℕ) × (out.2 ≡ some (n + 1 + j))
              × (j < length is)
              × ((get_or out.0 j idle).busy ≡ false)))
        → ((out.2 ≡ free)
            ⊎ ((j : ℕ) × (out.2 ≡ some (n + j))
                × (j < suc (length is))
                × ((get_or (i ∷ out.0) j idle).busy ≡ false)))
    shift (inl e) = inl e
    shift (inr (j, e, l, b)) = inr (suc j, ground (arith, e), omega arith, b)

IsFree-of_index :
    (free out : Option ℕ) (is js : List AckInfo)
    → length js ≡ length is
    → ((k : ℕ) → (get_or is k idle).busy ≡ false → (get_or js k idle).busy ≡ false)
    → (out ≡ free)
      ⊎ ((j : ℕ) × (out ≡ some (0 + j)) × (j < length is) × ((get_or js j idle).busy ≡ false))
    → IsFree free is
    → IsFree out js
IsFree-of_index none out is js e s (inl f) h = rw f tt
IsFree-of_index (some k) out is js e s (inl f) h = rw f (omega (arith, e, h.0), s k h.1)
IsFree-of_index free out is js e s (inr (j, f, l, b)) h =
    let g : out ≡ some j = ground (arith, f) in rw g (omega (arith, e, l), b)

-- From a table that keeps count, sprdwl_tcp_ack_update leaves one: what it takes from max_num is as
-- many entries as it makes idle, and the free index that it sets is that of an idle entry.
pub sprdwl_tcp_ack_update-IsCounted :
    (now : ℕ) (m : AckManage) → IsCounted m → IsCounted (sprdwl_tcp_ack_update now m)
unfolding sprdwl_tcp_ack_update
sprdwl_tcp_ack_update-IsCounted now m h =
    let x = expire_from-Expires now 0 m.ack_info m.max_num m.free_index (omega (arith, h.number)) in
    let out = expire_from now 0 m.ack_info m.max_num m.free_index in
    elim (Bool-cases (time_after now ((m.last_time + m.timeout) % 2 ^ 64))) [
      | inr e ↦ rw e h
      | inl e ↦ rw e (record {
        size = omega (arith, x.size, h.size);
        number = omega (arith, x.number, h.number);
        free = IsFree-of_index m.free_index out.2 m.ack_info out.0 x.size x.stays x.index h.free;
      })
    ]

-- The search finds an idle entry, or there is none.
first_idle :
    (n : ℕ) (is : List AckInfo)
    → ((first_from (λ i. not i.busy) n is ≡ none) × (busy_count is ≡ length is))
      ⊎ ((j : ℕ) × (first_from (λ i. not i.busy) n is ≡ some (n + j))
          × (j < length is)
          × ((get_or is j idle).busy ≡ false))
unfolding first_from
first_idle n [] = inl (refl, refl)
first_idle n (i ∷ is) = elim (Bool-cases (not i.busy)) [
  | inl e ↦ inr (0, rw e (ground arith), omega arith, ground (arith, e))
  | inr e ↦ elim (first_idle (n + 1) is) [
    | inl (f, c) ↦ inl (rw e f, ground (arith, e, c))
    | inr (j, f, l, b) ↦ inr (suc j, rw e (ground (arith, f)), omega arith, b)
  ]
]

-- An allocation from a table that keeps count gives the index of an idle entry and counts it, if the
-- table is not full; from a full one it gives none and changes nothing.
pub sprdwl_tcp_ack_alloc_index_lem :
    (m : AckManage)
    → IsCounted m
    → ((m.max_num ≡ tcp_ack_num) × (sprdwl_tcp_ack_alloc_index m ≡ (none, m)))
      ⊎ ((j : ℕ) × (sprdwl_tcp_ack_alloc_index m
            ≡ (some j, record m { free_index = none; max_num = m.max_num + 1 }))
          × (j < tcp_ack_num)
          × ((get_or m.ack_info j idle).busy ≡ false))
unfolding sprdwl_tcp_ack_alloc_index
sprdwl_tcp_ack_alloc_index_lem m h = elim (Bool-cases (m.max_num == tcp_ack_num)) [
  | inl e ↦ inl (ground (arith, e), rw e refl)
  | inr e ↦ rw e (alloc m.free_index h.free)
]
  where
    alloc :
        (free : Option ℕ)
        → IsFree free m.ack_info
        → ((m.max_num ≡ tcp_ack_num) × (alloc_at m free ≡ (none, m)))
          ⊎ ((j : ℕ) × (alloc_at m free
                ≡ (some j, record m { free_index = none; max_num = m.max_num + 1 }))
              × (j < tcp_ack_num)
              × ((get_or m.ack_info j idle).busy ≡ false))
    alloc (some j) (l, b) = inr (j, refl, omega (arith, h.size, l), b)
    alloc none f = elim (first_idle 0 m.ack_info) [
      | inl (e, c) ↦ inl (omega (arith, c, h.size, h.number), rw e refl)
      | inr (j, e, l, b) ↦
          let g : first_from (λ i. not i.busy) 0 m.ack_info ≡ some j = ground (arith, e) in
          inr (j, rw g refl, omega (arith, h.size, l), b)
    ]

-- A new flow takes an idle entry.
filter_new-IsCounted :
    (now : ℕ) (m : AckManage) (c : Checked) → IsCounted m → IsCounted (filter_new now m c).manage
unfolding filter_new
filter_new-IsCounted now m c h = elim (sprdwl_tcp_ack_alloc_index_lem m h) [
  | inl (f, e) ↦ rw e h
  | inr (j, e, l, b) ↦
      let i = new_flow now m.max_drop_cnt c (info_at m j) in
      let s = busy_count-set m.ack_info j i (omega (arith, l, h.size)) in
      rw e (record {
        size = omega (arith, length-set m.ack_info j i, h.size);
        number = ground (arith, s, b, h.number);
        free = tt;
      })
]

handle-busy :
    (now new max_drop_cnt : ℕ) (i : AckInfo) (m : AckMsg) (forced : Bool)
    → (sprdwl_tcp_ack_handle now new max_drop_cnt i m forced).info.busy ≡ i.busy
unfolding sprdwl_tcp_ack_handle handle_forced handle_newer
handle-busy now new max_drop_cnt i m forced = ground arith

busy-set :
    (is : List AckInfo) (k f : ℕ) (j : AckInfo)
    → j.busy ≡ (get_or is k idle).busy
    → (get_or (set is k j) f idle).busy ≡ (get_or is f idle).busy
busy-set [] k f j e = refl
busy-set (i ∷ is) zero zero j e = e
busy-set (i ∷ is) zero (suc f) j e = refl
busy-set (i ∷ is) (suc k) zero j e = refl
busy-set (i ∷ is) (suc k) (suc f) j e = busy-set is k f j e

IsFree-set :
    (free : Option ℕ) (is : List AckInfo) (k : ℕ) (j : AckInfo)
    → j.busy ≡ (get_or is k idle).busy
    → IsFree free is
    → IsFree free (set is k j)
IsFree-set none is k j e h = tt
IsFree-set (some f) is k j e h = (omega (arith, length-set is k j, h.0), busy-set is k f j e ∙ h.1)

-- An entry is replaced by one that is busy or not as it was.
replace-IsCounted :
    (m : AckManage) (k : ℕ) (j : AckInfo)
    → j.busy ≡ (info_at m k).busy
    → k < length m.ack_info
    → IsCounted m
    → IsCounted (set_info m k j)
replace-IsCounted m k j e l h = record {
  size = omega (arith, length-set m.ack_info k j, h.size);
  number = omega (arith, busy_count-set m.ack_info k j l, ap flag e, h.number);
  free = IsFree-set m.free_index m.ack_info k j e h.free;
}

first_in_range :
    (p : AckInfo → Bool) (n k : ℕ) (is : List AckInfo)
    → first_from p n is ≡ some k
    → (n ≤ k) × (k < n + length is)
unfolding first_from
first_in_range p n k [] e = cc
first_in_range p n k (i ∷ is) e = elim (Bool-cases (p i)) [
  | inl f ↦ ground (arith, e, f)
  | inr f ↦
      let ih = first_in_range p (n + 1) k is (ground (arith, e, f)) in
      (omega (arith, ih), omega (arith, ih))
]

filter_known-IsCounted :
    (now : ℕ) (m : AckManage) (msg k : ℕ) (c : Checked)
    → k < length m.ack_info
    → IsCounted m
    → IsCounted (filter_known now m msg k c).manage
unfolding filter_known
filter_known-IsCounted now m msg k c l h =
    let i = rescale c.win_scale (info_at m k) in
    let forced =
      c.ret == 2 || ltb (i.win_scale * c.msg.win % 2 ^ 32) (m.ack_winsize * 1024 % 2 ^ 32) in
    let b : i.busy ≡ (info_at m k).busy = ground arith in
    elim (Bool-cases (ltb 0 c.ret && m.enable)) [
      | inl e ↦
          rw e (replace-IsCounted m k _ (handle-busy now msg m.max_drop_cnt i c.msg forced ∙ b) l h)
      | inr e ↦ rw e (replace-IsCounted m k i b l h)
    ]

-- After sprdwl_tcp_ack_init the table keeps count.
pub sprdwl_tcp_ack_init-IsCounted :
    (now old_time : ℕ) → IsCounted (sprdwl_tcp_ack_init now old_time)
unfolding sprdwl_tcp_ack_init
sprdwl_tcp_ack_init-IsCounted now old_time = record {
  size = refl;
  number = refl;
  free = (omega arith, refl);
}

filter_checked-IsCounted :
    (now : ℕ) (m : AckManage) (msg : ℕ) (c : Checked)
    → IsCounted m
    → IsCounted (filter_checked now m msg c).manage
unfolding filter_checked sprdwl_tcp_ack_match
filter_checked-IsCounted now m msg c h = elim (Bool-cases (c.ret == 0 && c.win_scale == 0)) [
  | inl e ↦ rw e h
  | inr e ↦ elim (Option-cases (first_from (same_flow c.msg) 0 m.ack_info)) [
    | inl f ↦ rw (e, f) (filter_new-IsCounted now m c h)
    | inr (k, f) ↦
        let l = first_in_range (same_flow c.msg) 0 k m.ack_info f in
        rw (e, f) (filter_known-IsCounted now m msg k c (omega (arith, l)) h)
  ]
]

-- The filter on the transmit path keeps the table's count, whatever frame it is given: from a table
-- that keeps count, where it returns, max_num is the number of busy entries, and a free index is that of an idle entry.
pub sprdwl_filter_send_tcp_ack-IsCounted :
    (fuel now : ℕ) (m : AckManage) (msg : ℕ) (buf : Bytes) (plen : ℕ) (unset : AckMsg)
    (r : Filtered)
    → IsCounted m
    → sprdwl_filter_send_tcp_ack fuel now m msg buf plen unset ≡ some r
    → IsCounted r.manage
unfolding sprdwl_filter_send_tcp_ack
sprdwl_filter_send_tcp_ack-IsCounted fuel now m msg buf plen unset r h e =
    elim (Bool-cases (ltb 200 plen)) [
      | inl f ↦ subst (λ (q : Filtered). IsCounted q.manage) (some-injective _ _ (rw f at e)) h
      | inr f ↦ elim (Option-cases (sprdwl_tcp_check_ack fuel buf unset)) [
        | inl n ↦ let z = rw (f, n) at e in cc
        | inr (c, n) ↦
            subst (λ (q : Filtered). IsCounted q.manage) (some-injective _ _ (rw (f, n) at e))
              (filter_checked-IsCounted now _ msg c (sprdwl_tcp_ack_update-IsCounted now m h))
      ]
    ]
