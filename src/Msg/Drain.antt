-- ===== src/Msg/Drain.antt =====
-- The operations of WIFI/msg.c as runs of steps, and how the users of the lists go away.
use uwe5631_aml.Common.{
  ℕ, zero, suc, ◌+◌, ◌*◌, ◌<◌, ◌≡◌, ◌⊎◌, inl, inr, refl, true, false, Option, none, some, List, [],
  ◌∷◌, arith, ltb, leb, ◌==◌, Bool-cases, length, count,
}
use mathlib.Core.Option.{some-injective}
use uwe5631_aml.Msg.{
  MsgList, exit_val, remove, inc_ref, take_first, put_back, sprdwl_alloc_msg_buf,
  sprdwl_free_msg_buf, sprdwl_queue_msg_buf, unqueue, sprdwl_dequeue_msg_buf, find_data,
  sprdwl_get_msgbuf_by_data, waits_for_ref, mark_exit, sprdwl_msg_init,
}
use uwe5631_aml.Msg.Steps.{
  System, Step, enter, refuse, take, run_out, leave, give_back, queue, take_busy, exit, Run, stop,
  next, Run-trans, IsSystem, Step-IsSystem, idle, idle-IsSystem, Run-IsSystem, length-remove,
}

-- What a caller has from an operation that may return a buffer.
abbrev given : Option ℕ × MsgList → System → System
given (none, l) s = record s { list = l }
given (some b, l) s = record s { list = l; held = b ∷ s.held }

nat-cases : (n : ℕ) → (n ≡ 0) ⊎ ((m : ℕ) × (n ≡ suc m))
nat-cases zero = inl refl
nat-cases (suc n) = inr (n, refl)

list-cases : (xs : List ℕ) → (xs ≡ []) ⊎ ((b : ℕ) × (rest : List ℕ) × (xs ≡ b ∷ rest))
list-cases [] = inl refl
list-cases (b ∷ rest) = inr (b, rest, refl)

count-first : (b : ℕ) (bs : List ℕ) → 0 < count b (b ∷ bs)
count-first b bs = ground arith

remove-first : (b : ℕ) (bs : List ℕ) → remove b (b ∷ bs) ≡ bs
remove-first b bs = ground arith

alloc-Run : (s : System) → Run s (given (sprdwl_alloc_msg_buf s.list) s)
unfolding sprdwl_alloc_msg_buf take_first
alloc-Run s = elim (Bool-cases (leb exit_val (s.list.ref + 1))) [
  | inl e ↦
      let a = record s { list = inc_ref s.list; leaving = s.leaving + 1 } in
      rw e (
        next s a _ (refuse s (ground (arith, e)))
          (next a _ _ (leave a s.leaving (omega arith)) (stop _)))
  | inr e ↦ rw e (next s _ _ (enter s (ground (arith, e))) (go s.list.freelist))
]
  where
    go :
        (f : List ℕ)
        → let l = record (inc_ref s.list) { freelist = f } in
          Run (record s { list = l; entered = s.entered + 1 }) (given (put_back (take_first l)) s)
    go [] =
        next _ _ _ (run_out _ s.entered (omega arith) refl)
          (next _ _ _ (leave _ s.leaving (omega arith)) (stop _))
    go (b ∷ f) = next _ _ _ (take _ b f s.entered (omega arith) refl) (stop _)

free-Run :
    (s : System) (b : ℕ)
    → 0 < count b s.held
    → Run s (record s { list = sprdwl_free_msg_buf b s.list; held = remove b s.held })
unfolding sprdwl_free_msg_buf
free-Run s b h =
    next s _ _ (give_back s b h) (next _ _ _ (leave _ s.leaving (omega arith)) (stop _))

take_busy-Run :
    (s : System) (b : ℕ)
    → 0 < count b s.list.busylist
    → Run s (record s { list = unqueue b s.list; held = b ∷ s.held })
take_busy-Run s b h = next s _ _ (take_busy s b h) (stop _)

dequeue-Run :
    (s : System) (c : ℕ)
    → 0 < count c s.list.busylist
    → Run s (record s { list = sprdwl_dequeue_msg_buf c s.list })
unfolding sprdwl_dequeue_msg_buf
dequeue-Run s c h =
    let a = record s { list = unqueue c s.list; held = c ∷ s.held } in
    Run-trans s a _ (take_busy-Run s c h)
      (rw (remove-first c s.held) at (free-Run a c (count-first c s.held)))

find_data-count :
    (tran_data : ℕ → ℕ) (wanted b : ℕ) (bs : List ℕ)
    → find_data tran_data wanted bs ≡ some b
    → 0 < count b bs
find_data-count tran_data wanted b [] e = cc e
find_data-count tran_data wanted b (c ∷ bs) e = elim (Bool-cases (wanted == tran_data c)) [
  | inl f ↦ let same : c ≡ b = some-injective _ _ (rw f at e) in rw same (count-first b bs)
  | inr f ↦ ground (arith, find_data-count tran_data wanted b bs (rw f at e))
]

get_by_data-Run :
    (tran_data : ℕ → ℕ) (wanted : ℕ) (s : System)
    → Run s (given (sprdwl_get_msgbuf_by_data tran_data wanted s.list) s)
unfolding sprdwl_get_msgbuf_by_data
get_by_data-Run tran_data wanted s = go (find_data tran_data wanted s.list.busylist) refl
  where
    go :
        (m : Option ℕ)
        → find_data tran_data wanted s.list.busylist ≡ m
        → Run s (
            given
              (elim m as (λ _. Option ℕ × MsgList) [
                | none ↦ (none, s.list)
                | some b ↦ (some b, unqueue b s.list)
              ])
              s)
    go none e = stop s
    go (some b) e = take_busy-Run s b (find_data-count tran_data wanted b s.list.busylist e)

-- A call of an operation of msg.c that changes the lists, with what its caller sees to: a buffer that
-- is freed or queued is the caller's, one that is dequeued is on the busy list, and sprdwl_msg_deinit,
-- here up to its mark, is called once.
pub data Use (tran_data : ℕ → ℕ) : System → System → Type 0 where
  alloc : (s : System) → Use tran_data s (given (sprdwl_alloc_msg_buf s.list) s)
  free :
      (s : System) (b : ℕ)
      → 0 < count b s.held
      → Use tran_data s (record s { list = sprdwl_free_msg_buf b s.list; held = remove b s.held })
  queue_own :
      (s : System) (b : ℕ)
      → 0 < count b s.held
      → Use tran_data s (record s { list = sprdwl_queue_msg_buf b s.list; held = remove b s.held })
  dequeue :
      (s : System) (c : ℕ)
      → 0 < count c s.list.busylist
      → Use tran_data s (record s { list = sprdwl_dequeue_msg_buf c s.list })
  get_by_data :
      (s : System) (wanted : ℕ)
      → Use tran_data s (given (sprdwl_get_msgbuf_by_data tran_data wanted s.list) s)
  deinit :
      (s : System)
      → s.exiting ≡ false
      → Use tran_data s (record s { list = mark_exit s.list; exiting = true })

-- Calls one after the other
pub data Uses (tran_data : ℕ → ℕ) : System → System → Type 0 where
  finish : (s : System) → Uses tran_data s s
  call : (s t u : System) → Use tran_data s t → Uses tran_data t u → Uses tran_data s u

Use-Run : (tran_data : ℕ → ℕ) (s t : System) → Use tran_data s t → Run s t
Use-Run tran_data _ _ (alloc s) = alloc-Run s
Use-Run tran_data _ _ (free s b h) = free-Run s b h
Use-Run tran_data _ _ (queue_own s b h) = next s _ _ (queue s b h) (stop _)
Use-Run tran_data _ _ (dequeue s c h) = dequeue-Run s c h
Use-Run tran_data _ _ (get_by_data s wanted) = get_by_data-Run tran_data wanted s
Use-Run tran_data _ _ (deinit s e) = next s _ _ (exit s e) (stop _)

-- Any sequence of calls of the operations of WIFI/msg.c that change the lists, from any state, is a run
-- of the steps: sprdwl_alloc_msg_buf and sprdwl_get_msgbuf_by_data with each of their results,
-- sprdwl_free_msg_buf and sprdwl_queue_msg_buf on a buffer that the caller has, sprdwl_dequeue_msg_buf
-- on one that is on the busy list, and the mark of sprdwl_msg_deinit.
pub operations-Run : (tran_data : ℕ → ℕ) (s t : System) → Uses tran_data s t → Run s t
operations-Run tran_data _ _ (finish s) = stop s
operations-Run tran_data _ _ (call s t u a r) =
    Run-trans s t u (Use-Run tran_data s t a) (operations-Run tran_data t u r)

-- What is left to do, in steps.
abbrev users : System → ℕ
users s = 3 * s.entered + s.leaving + 2 * length s.held + 3 * length s.list.busylist

-- A step by which less is left to do.
Goes : System → Type 0
Goes s = (t : System) × Step s t × (t.exiting ≡ true) × (users t < users s)

thread-Goes : (s : System) → s.exiting ≡ true → 0 < s.leaving + s.entered → Goes s
unfolding Goes
thread-Goes s exits some_thread = elim (nat-cases s.leaving) [
  | inr (n, e) ↦ (_, leave s n e, exits, omega (arith, e))
  | inl no_leaving ↦ elim (nat-cases s.entered) [
    | inl no_entered ↦ absurd (omega arith)
    | inr (n, e) ↦ elim (list-cases s.list.freelist) [
      | inl f ↦ (_, run_out s n e f, exits, omega (arith, e))
      | inr (b, rest, f) ↦ (_, take s b rest n e f, exits, omega (arith, e))
    ]
  ]
]

buffer-Goes : (s : System) → s.exiting ≡ true → 0 < length s.held + length s.list.busylist → Goes s
unfolding Goes unqueue
buffer-Goes s exits some_buffer = elim (list-cases s.held) [
  | inr (b, rest, f) ↦
      let h : 0 < count b s.held = rw f (count-first b rest) in
      (_, give_back s b h, exits, omega (arith, length-remove b s.held h))
  | inl no_held ↦ elim (list-cases s.list.busylist) [
    | inl no_busy ↦ absurd (omega (arith, rw (no_held, no_busy) at some_buffer))
    | inr (b, rest, f) ↦
        let h : 0 < count b s.list.busylist = rw f (count-first b rest) in
        (_, take_busy s b h, exits, omega (arith, length-remove b s.list.busylist h))
  ]
]

waits-Goes :
    (all : List ℕ) (s : System)
    → IsSystem all s
    → s.exiting ≡ true
    → waits_for_ref s.list ≡ true
    → Goes s
unfolding waits_for_ref
waits-Goes all s i exits waits =
    let refs : s.list.ref
        ≡ exit_val + s.entered + s.leaving + length s.held + length s.list.busylist =
      rw exits at i.refs in
    elim (Bool-cases (ltb 0 (s.leaving + s.entered))) [
      | inl e ↦ thread-Goes s exits (ground (arith, e))
      | inr e ↦ buffer-Goes s exits (ground (arith, e, refs, waits))
    ]

drain :
    (fuel : ℕ) (all : List ℕ) (s : System)
    → IsSystem all s
    → s.exiting ≡ true
    → users s < fuel
    → (t : System) × Run s t × (waits_for_ref t.list ≡ false)
unfolding Goes
drain zero all s i exits bound = absurd (omega arith)
drain (suc fuel) all s i exits bound = elim (Bool-cases (waits_for_ref s.list)) [
  | inr e ↦ (s, stop s, e)
  | inl e ↦
      let (t, a, exits', less) = waits-Goes all s i exits e in
      let (u, r, done) =
        drain fuel all t (Step-IsSystem all s t a i) exits' (omega (arith, less, bound)) in
      (u, next s t u a r, done)
]

-- With threads that change the lists by the operations of msg.c alone: once sprdwl_msg_deinit has
-- begun, the threads can always go on so that its wait ends by the test of
-- `ref`: from each state that they reach from the lists of sprdwl_msg_init, a run leads to one where
-- the test holds.
pub deinit_drains :
    (kzalloc : ℕ → Option ℕ) (num : ℕ) (l : MsgList) (s : System)
    → sprdwl_msg_init kzalloc num ≡ some l
    → Run (idle l) s
    → s.exiting ≡ true
    → (t : System) × Run s t × (waits_for_ref t.list ≡ false)
deinit_drains kzalloc num l s made r exits =
    drain (users s + 1) l.freelist s
      (Run-IsSystem l.freelist (idle l) s r (idle-IsSystem kzalloc num l made)) exits (omega arith)
