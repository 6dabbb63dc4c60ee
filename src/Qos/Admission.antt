-- ===== src/Qos/Admission.antt =====
-- The admission state of WIFI/qos.c: the marks of the categories.
use uwe5631_aml.Common.{
  ℕ, zero, suc, ◌*◌, ◌/◌, ◌<◌, ◌≡◌, ◌≢◌, ◌⊎◌, inl, inr, refl, sym, ◌∙◌, Bool, true, false, not,
  ◌||◌, Option, none, some, arith, ltb, ◌==◌, if◌then◌else◌, Bool-cases, length, get_or, set,
  length-set, get_or-set_self, get_or-set_ne, replicate,
}
use uwe5631_aml.Qos.{
  Wmmac, reset_wmmac_parameters, zero_ts, settle, increase_time, decrease_time,
  update_admitted_time, refill, update_wmmac_edcaftime_timeout, use_up, update_wmmac_vo_timeout,
  update_wmmac_vi_timeout, charge, change_loop, Changed, has_acm, is_available, QosMapSet, map_dscp,
  map_priority_to_edca_ac, choose, change_priority_if,
}

-- The arrays have four entries, and a category is marked available just while it has time left.
pub record IsAdmission (w : Wmmac) : Type 0 where
  pub size : length w.available ≡ 4
  pub used_size : length w.used_time ≡ 4
  pub admitted_size : length w.admitted_time ≡ 4
  pub marked :
      (i : ℕ)
      → i < 4
      → get_or w.available i false ≡ ltb (get_or w.used_time i 0) (get_or w.admitted_time i 0)

-- The state but for the mark of `ac`.
record IsBut (ac : ℕ) (w : Wmmac) : Type 0 where
  pub size : length w.available ≡ 4
  pub used_size : length w.used_time ≡ 4
  pub admitted_size : length w.admitted_time ≡ 4
  pub marked :
      (i : ℕ)
      → i < 4
      → i ≢ ac
      → get_or w.available i false ≡ ltb (get_or w.used_time i 0) (get_or w.admitted_time i 0)

IsBut-of : (ac : ℕ) (w : Wmmac) → IsAdmission w → IsBut ac w
IsBut-of ac w a = record {
  size = a.size;
  used_size = a.used_size;
  admitted_size = a.admitted_size;
  marked = λ i h n. a.marked i h;
}

nat-cases : (i j : ℕ) → (i ≡ j) ⊎ (i ≢ j)
nat-cases i j = ground arith

-- With the right mark, it is the state again.
mark-IsAdmission :
    (ac : ℕ) (b : Bool) (w : Wmmac)
    → ac < 4
    → IsBut ac w
    → b ≡ ltb (get_or w.used_time ac 0) (get_or w.admitted_time ac 0)
    → IsAdmission (record w { available = set w.available ac b })
mark-IsAdmission ac b w small a e = record {
  size = length-set w.available ac b ∙ a.size;
  used_size = a.used_size;
  admitted_size = a.admitted_size;
  marked = λ i h. elim (nat-cases i ac) [
    | inl f ↦ rw f (get_or-set_self w.available ac b false (omega (arith, a.size)) ∙ e)
    | inr n ↦ get_or-set_ne w.available ac i b false (λ f. n (sym f)) ∙ a.marked i h n
  ];
}

used-IsBut :
    (ac t : ℕ) (w : Wmmac) → IsBut ac w → IsBut ac (record w { used_time = set w.used_time ac t })
used-IsBut ac t w a = record {
  size = a.size;
  used_size = length-set w.used_time ac t ∙ a.used_size;
  admitted_size = a.admitted_size;
  marked = λ i h n. rw (get_or-set_ne w.used_time ac i t 0 (λ f. n (sym f))) (a.marked i h n);
}

admitted-IsBut :
    (ac t : ℕ) (w : Wmmac)
    → IsBut ac w
    → IsBut ac (record w { admitted_time = set w.admitted_time ac t })
admitted-IsBut ac t w a = record {
  size = a.size;
  used_size = a.used_size;
  admitted_size = length-set w.admitted_time ac t ∙ a.admitted_size;
  marked = λ i h n. rw (get_or-set_ne w.admitted_time ac i t 0 (λ f. n (sym f))) (a.marked i h n);
}

-- The timers do not matter.
timers-IsBut :
    (ac : ℕ) (x y z : Bool) (w : Wmmac)
    → IsBut ac w
    → IsBut ac (record w { edcaf_timer = x; vo_timer = y; vi_timer = z })
timers-IsBut ac x y z w a = record {
  size = a.size;
  used_size = a.used_size;
  admitted_size = a.admitted_size;
  marked = a.marked;
}

timers-IsAdmission :
    (x y z : Bool) (w : Wmmac)
    → IsAdmission w
    → IsAdmission (record w { edcaf_timer = x; vo_timer = y; vi_timer = z })
timers-IsAdmission x y z w a = record {
  size = a.size;
  used_size = a.used_size;
  admitted_size = a.admitted_size;
  marked = a.marked;
}

settle-IsAdmission : (ac : ℕ) (w : Wmmac) → ac < 4 → IsBut ac w → IsAdmission (settle ac w)
unfolding settle
settle-IsAdmission ac w small a = mark-IsAdmission ac _ w small a refl

charge-IsAdmission :
    (ratio len ac : ℕ) (w : Wmmac) → ac < 4 → IsAdmission w → IsAdmission (charge ratio len ac w)
unfolding charge
charge-IsAdmission ratio len ac w small a =
    settle-IsAdmission ac _ small (used-IsBut ac _ w (IsBut-of ac w a))

decrease_time-IsBut : (ac m : ℕ) (w : Wmmac) → IsBut ac w → IsBut ac (decrease_time ac m w)
unfolding decrease_time
decrease_time-IsBut ac m w a = elim (Bool-cases (ltb (m * 32) (get_or w.admitted_time ac 0))) [
  | inl e ↦ rw e (admitted-IsBut ac _ w a)
  | inr e ↦ rw e (timers-IsBut ac false false false _ (admitted-IsBut ac 0 w a))
]

refill-IsAdmission : (ac : ℕ) (w : Wmmac) → ac < 4 → IsAdmission w → IsAdmission (refill ac w)
unfolding refill
refill-IsAdmission ac w small a = elim (Bool-cases (ltb 0 (get_or w.admitted_time ac 0))) [
  | inl e ↦
      let u = record w { used_time = set w.used_time ac 0 } in
      let t : get_or (set w.used_time ac 0) ac 0 ≡ 0 =
        get_or-set_self w.used_time ac 0 0 (omega (arith, a.used_size)) in
      rw e (
        timers-IsAdmission w.edcaf_timer (w.vo_timer || ac == 3) (w.vi_timer || ac == 2) _
          (mark-IsAdmission ac true u small (used-IsBut ac 0 w (IsBut-of ac w a)) (rw (t, e) refl)))
  | inr e ↦ rw e a
]

use_up-IsAdmission : (ac : ℕ) (w : Wmmac) → ac < 4 → IsAdmission w → IsAdmission (use_up ac w)
unfolding use_up
use_up-IsAdmission ac w small a =
    let t = get_or w.admitted_time ac 0 in
    let same : get_or (set w.used_time ac t) ac 0 ≡ t =
      get_or-set_self w.used_time ac t 0 (omega (arith, a.used_size)) in
    mark-IsAdmission ac false (record w { used_time = set w.used_time ac t }) small
      (used-IsBut ac t w (IsBut-of ac w a)) (rw same (ground arith))

update-IsAdmission :
    (ac m : ℕ) (increase : Bool) (w : Wmmac)
    → ac < 4
    → IsAdmission w
    → IsAdmission (settle ac (if increase then increase_time ac m w else decrease_time ac m w))
unfolding increase_time
update-IsAdmission ac m true w small a = settle-IsAdmission ac _ small (
    timers-IsBut ac true (w.vo_timer || ac == 3) (w.vi_timer || ac == 2) _
      (admitted-IsBut ac _ w (IsBut-of ac w a)))
update-IsAdmission ac m false w small a =
    settle-IsAdmission ac _ small (decrease_time-IsBut ac m w (IsBut-of ac w a))

change_loop-IsAdmission :
    (ratio len ac : ℕ) (w : Wmmac)
    → ac < 4
    → IsAdmission w
    → IsAdmission (change_loop ratio len ac w).wmmac
unfolding change_loop
change_loop-IsAdmission ratio len zero w small a = a
change_loop-IsAdmission ratio len (suc lower) w small a =
    let ac = suc lower in
    elim (Bool-cases (has_acm ac w)) [
      | inr e ↦ rw e a
      | inl e ↦ elim (Bool-cases (is_available ac w)) [
        | inl f ↦ rw (e, f) (charge-IsAdmission ratio len ac w small a)
        | inr f ↦ elim (Bool-cases (not (get_or w.used_time ac 0 == 0))) [
          | inl g ↦ rw (e, f, g) a
          | inr g ↦
              rw (e, f, g) (change_loop-IsAdmission ratio len lower w (omega (arith, small)) a)
        ]
      ]
    ]

pub map_priority_to_edca_ac-small : (p : ℕ) → map_priority_to_edca_ac p < 4
unfolding map_priority_to_edca_ac
map_priority_to_edca_ac-small p = ground arith

choose-wmmac : (tid : ℕ) (c : Changed) → (choose tid c).wmmac ≡ c.wmmac
unfolding choose
choose-wmmac tid c = go c.ac
  where
    go : (a : Option ℕ) → (choose tid (record c { ac = a })).wmmac ≡ c.wmmac
    go none = refl
    go (some a) = refl

change_priority_if-IsAdmission :
    (enable : Bool) (ratio : ℕ) (m : QosMapSet) (tid tos len : ℕ) (w : Wmmac)
    → IsAdmission w
    → IsAdmission (change_priority_if enable ratio m tid tos len w).wmmac
unfolding change_priority_if
change_priority_if-IsAdmission false ratio m tid tos len w a = a
change_priority_if-IsAdmission true ratio m tid tos len w a =
    let tid' = map_dscp m (tos / 4) tid in
    let ac = map_priority_to_edca_ac tid' in
    rw (choose-wmmac tid' (change_loop ratio len ac w))
      (change_loop-IsAdmission ratio len ac w (map_priority_to_edca_ac-small tid') a)

-- Whatever happens to the admission state, a category is marked available just while the time that
-- it used is below the time that it was admitted, and the arrays keep their four entries: a reset,
-- new or returned time for a traffic stream whose category is one of the four, the three timers, and
-- the choice of a queue for a packet, with or without priorities enabled.
pub events-IsAdmission :
    (tsid medium_time : ℕ) (increase enable : Bool) (ratio : ℕ) (m : QosMapSet) (tid tos len : ℕ)
    (w : Wmmac)
    → IsAdmission w
    → (get_or w.ts_info tsid zero_ts).ac < 4
    → IsAdmission (reset_wmmac_parameters w)
      × IsAdmission (update_admitted_time tsid medium_time increase w)
      × IsAdmission (update_wmmac_edcaftime_timeout w)
      × IsAdmission (update_wmmac_vo_timeout w)
      × IsAdmission (update_wmmac_vi_timeout w)
      × IsAdmission (change_priority_if enable ratio m tid tos len w).wmmac
unfolding reset_wmmac_parameters update_admitted_time update_wmmac_edcaftime_timeout
    update_wmmac_vo_timeout update_wmmac_vi_timeout
events-IsAdmission tsid medium_time increase enable ratio m tid tos len w a small = (
  record { size = refl; used_size = refl; admitted_size = refl; marked = zeros },
  update-IsAdmission (get_or w.ts_info tsid zero_ts).ac medium_time increase w small a,
  refill-IsAdmission 2 _ (omega arith)
      (refill-IsAdmission 3 _ (omega arith) (timers-IsAdmission true w.vo_timer w.vi_timer w a)),
  use_up-IsAdmission 3 _ (omega arith) (timers-IsAdmission w.edcaf_timer false w.vi_timer w a),
  use_up-IsAdmission 2 _ (omega arith) (timers-IsAdmission w.edcaf_timer w.vo_timer false w a),
  change_priority_if-IsAdmission enable ratio m tid tos len w a,
)
  where
    zeros :
        (i : ℕ)
        → i < 4
        → get_or (replicate 4 false) i false
          ≡ ltb (get_or (replicate {A = ℕ} 4 0) i 0) (get_or (replicate {A = ℕ} 4 0) i 0)
    zeros zero h = refl
    zeros (suc zero) h = refl
    zeros (suc (suc zero)) h = refl
    zeros (suc (suc (suc zero))) h = refl
    zeros (suc (suc (suc (suc i)))) h = absurd (omega (arith, h))
