-- ===== src/Msg/Steps.antt =====
-- Threads that use the lists of WIFI/msg.c at the same time, by the operations of msg.c alone, as they
-- use the list of commands. A step is what one thread does with a lock held, or one atomic change of
-- `ref`. WIFI/tx_msg.c also changes the list of data packets past these operations: it subtracts from
-- `ref` before buffers come back (sprdwl_handle_tx_return), puts them on the free list without a
-- change of `ref` (sprdwl_dequeue_data_list) and adds new ones (sprdwl_get_msg_buf). Such steps are not
-- among these.
use uwe5631_aml.Common.{
  ℕ, suc, ◌+◌, ◌≤◌, ◌<◌, ◌≡◌, inl, inr, refl, Bool, true, false, Option, some, List, [], ◌∷◌, ◌++◌,
  arith, ◌==◌, if◌then◌else◌, Bool-cases, Option-cases, length, length-append, count, count-append,
}
use mathlib.Core.Option.{some-injective}
use mathlib.Core.Path.{subst}
use uwe5631_aml.Msg.{
  MsgList, exit_val, remove, inc_ref, dec_ref, sprdwl_queue_msg_buf, unqueue, mark_exit,
  waits_for_ref, free_all, init_loop, sprdwl_msg_init,
}

-- The lists, the buffers that the threads hold, how many threads are inside sprdwl_alloc_msg_buf
-- behind its test, how many are about to decrement `ref`, and whether sprdwl_msg_deinit has begun.
pub record System : Type 0 where
  pub list : MsgList
  pub held : List ℕ
  pub entered : ℕ
  pub leaving : ℕ
  pub exiting : Bool

pub data Step : System → System → Type 0 where
  enter :
      (s : System)
      → s.list.ref + 1 < exit_val
      → Step s (record s { list = inc_ref s.list; entered = s.entered + 1 })
  refuse :
      (s : System)
      → exit_val ≤ s.list.ref + 1
      → Step s (record s { list = inc_ref s.list; leaving = s.leaving + 1 })
  take :
      (s : System) (b : ℕ) (rest : List ℕ) (n : ℕ)
      → s.entered ≡ suc n
      → s.list.freelist ≡ b ∷ rest
      → Step s
          (record s { list = record (s.list) { freelist = rest }; entered = n; held = b ∷ s.held })
  run_out :
      (s : System) (n : ℕ)
      → s.entered ≡ suc n
      → s.list.freelist ≡ []
      → Step s (record s { entered = n; leaving = s.leaving + 1 })
  leave :
      (s : System) (n : ℕ)
      → s.leaving ≡ suc n
      → Step s (record s { list = dec_ref s.list; leaving = n })
  give_back :
      (s : System) (b : ℕ)
      → 0 < count b s.held
      → Step s (record s {
        list = record (s.list) { freelist = s.list.freelist ++ b ∷ [] };
        held = remove b s.held;
        leaving = s.leaving + 1;
      })
  queue :
      (s : System) (b : ℕ)
      → 0 < count b s.held
      → Step s (record s { list = sprdwl_queue_msg_buf b s.list; held = remove b s.held })
  take_busy :
      (s : System) (b : ℕ)
      → 0 < count b s.list.busylist
      → Step s (record s { list = unqueue b s.list; held = b ∷ s.held })
  exit :
      (s : System)
      → s.exiting ≡ false
      → Step s (record s { list = mark_exit s.list; exiting = true })

pub data Run : System → System → Type 0 where
  stop : (s : System) → Run s s
  next : (s t u : System) → Step s t → Run t u → Run s u

pub Run-trans : (s t u : System) → Run s t → Run t u → Run s u
Run-trans s _ u (stop _) r = r
Run-trans s t u (next _ m _ a r) q = next s m u a (Run-trans m t u r q)

-- Each of the buffers `all` is in one place, and `ref` counts the users.
pub record IsSystem (all : List ℕ) (s : System) : Type 0 where
  pub owned :
      (x : ℕ) → count x s.list.freelist + count x s.list.busylist + count x s.held ≡ count x all
  pub refs :
      s.list.ref
      ≡ (if s.exiting then exit_val else 0)
        + s.entered
        + s.leaving
        + length s.held
        + length s.list.busylist

count-behind : (b c : ℕ) (xs : List ℕ) → (b == c) ≡ false → 0 < count b (c ∷ xs) → 0 < count b xs
count-behind b c xs e h = omega (arith, rw e at h)

count-remove :
    (x b : ℕ) (xs : List ℕ) → 0 < count b xs → count x (remove b xs) + count x (b ∷ []) ≡ count x xs
count-remove x b [] h = omega (arith, h)
count-remove x b (c ∷ xs) h = elim (Bool-cases (b == c)) [
  | inl e ↦ rw e (let same : b ≡ c = ground (arith, e) in rw same (omega arith))
  | inr e ↦ rw e (omega (arith, count-remove x b xs (count-behind b c xs e h)))
]

pub length-remove : (b : ℕ) (xs : List ℕ) → 0 < count b xs → length (remove b xs) + 1 ≡ length xs
length-remove b [] h = omega (arith, h)
length-remove b (c ∷ xs) h = elim (Bool-cases (b == c)) [
  | inl e ↦ rw e (omega arith)
  | inr e ↦ rw e (omega (arith, length-remove b xs (count-behind b c xs e h)))
]

pub Step-IsSystem : (all : List ℕ) (s t : System) → Step s t → IsSystem all s → IsSystem all t
unfolding sprdwl_queue_msg_buf unqueue mark_exit
Step-IsSystem all _ _ (enter s h) i = record { owned = i.owned; refs = omega (arith, i.refs) }
Step-IsSystem all _ _ (refuse s h) i = record { owned = i.owned; refs = omega (arith, i.refs) }
Step-IsSystem all _ _ (take s b rest n e f) i = record {
  owned = λ x. omega (arith, rw f at (i.owned x));
  refs = omega (arith, i.refs, e);
}
Step-IsSystem all _ _ (run_out s n e f) i = record {
  owned = i.owned;
  refs = omega (arith, i.refs, e);
}
Step-IsSystem all _ _ (leave s n e) i = record { owned = i.owned; refs = omega (arith, i.refs, e) }
Step-IsSystem all _ _ (give_back s b h) i = record {
  owned = λ x.
      omega (arith, i.owned x, count-append x s.list.freelist (b ∷ []), count-remove x b s.held h);
  refs = omega (arith, i.refs, length-remove b s.held h);
}
Step-IsSystem all _ _ (queue s b h) i = record {
  owned = λ x.
      omega (arith, i.owned x, count-append x s.list.busylist (b ∷ []), count-remove x b s.held h);
  refs = omega (arith, i.refs, length-remove b s.held h, length-append s.list.busylist (b ∷ []));
}
Step-IsSystem all _ _ (take_busy s b h) i = record {
  owned = λ x. omega (arith, i.owned x, count-remove x b s.list.busylist h);
  refs = omega (arith, i.refs, length-remove b s.list.busylist h);
}
Step-IsSystem all _ _ (exit s e) i = record {
  owned = i.owned;
  refs = omega (arith, rw e at i.refs);
}

pub Run-IsSystem : (all : List ℕ) (s t : System) → Run s t → IsSystem all s → IsSystem all t
Run-IsSystem all _ _ (stop s) i = i
Run-IsSystem all _ _ (next s t u a r) i = Run-IsSystem all t u r (Step-IsSystem all s t a i)

-- The lists as sprdwl_msg_init leaves them, and no thread.
abbrev pub idle : MsgList → System
idle l = record { list = l; held = []; entered = 0; leaving = 0; exiting = false }

pub idle-IsSystem :
    (kzalloc : ℕ → Option ℕ) (num : ℕ) (l : MsgList)
    → sprdwl_msg_init kzalloc num ≡ some l
    → IsSystem l.freelist (idle l)
unfolding sprdwl_msg_init
idle-IsSystem kzalloc num l e = elim (Option-cases (init_loop kzalloc num [])) [
  | inl f ↦ cc (rw f at e)
  | inr (made, f) ↦
      subst (λ l. IsSystem l.freelist (idle l)) (some-injective _ _ (rw f at e))
        (record { owned = λ x. omega arith; refs = refl })
]

length-none : (xs : List ℕ) → length xs ≡ 0 → xs ≡ []
length-none [] e = refl
length-none (x ∷ xs) e = ground (arith, e)

-- No thread has a buffer or will get one.
record IsQuiet (s : System) : Type 0 where
  pub exits : s.exiting ≡ true
  pub none_entered : s.entered ≡ 0
  pub none_held : s.held ≡ []
  pub none_busy : s.list.busylist ≡ []

none-count : (b : ℕ) (xs : List ℕ) → xs ≡ [] → 0 < count b xs → 1 ≤ 0
none-count b xs e h = omega (arith, rw e at h)

Step-IsQuiet : (all : List ℕ) (s t : System) → Step s t → IsSystem all s → IsQuiet s → IsQuiet t
unfolding sprdwl_queue_msg_buf unqueue mark_exit
Step-IsQuiet all _ _ (enter s h) i q = absurd (omega (arith, h, rw (q.exits) at i.refs))
Step-IsQuiet all _ _ (refuse s h) i q = record {
  exits = q.exits;
  none_entered = q.none_entered;
  none_held = q.none_held;
  none_busy = q.none_busy;
}
Step-IsQuiet all _ _ (take s b rest n e f) i q = absurd (omega (arith, e, q.none_entered))
Step-IsQuiet all _ _ (run_out s n e f) i q = absurd (omega (arith, e, q.none_entered))
Step-IsQuiet all _ _ (leave s n e) i q = record {
  exits = q.exits;
  none_entered = q.none_entered;
  none_held = q.none_held;
  none_busy = q.none_busy;
}
Step-IsQuiet all _ _ (give_back s b h) i q =
    absurd (omega (arith, none-count b s.held q.none_held h))
Step-IsQuiet all _ _ (queue s b h) i q = absurd (omega (arith, none-count b s.held q.none_held h))
Step-IsQuiet all _ _ (take_busy s b h) i q =
    absurd (omega (arith, none-count b s.list.busylist q.none_busy h))
Step-IsQuiet all _ _ (exit s e) i q = absurd (cc (e, q.exits))

Run-IsQuiet : (all : List ℕ) (s t : System) → Run s t → IsSystem all s → IsQuiet s → IsQuiet t
Run-IsQuiet all _ _ (stop s) i q = q
Run-IsQuiet all _ _ (next s t u a r) i q =
    Run-IsQuiet all t u r (Step-IsSystem all s t a i) (Step-IsQuiet all s t a i q)

waited-IsQuiet :
    (all : List ℕ) (s : System)
    → IsSystem all s
    → s.exiting ≡ true
    → waits_for_ref s.list ≡ false
    → IsQuiet s
unfolding waits_for_ref
waited-IsQuiet all s i exits done =
    let refs : s.list.ref
        ≡ exit_val + s.entered + s.leaving + length s.held + length s.list.busylist =
      rw exits at i.refs in
    let low : s.list.ref ≤ exit_val = ground (arith, done) in
    record {
      exits = exits;
      none_entered = omega arith;
      none_held = length-none s.held (omega arith);
      none_busy = length-none s.list.busylist (omega arith);
    }

-- Where the threads change the lists and `ref` by the operations of msg.c alone (WIFI/tx_msg.c does
-- otherwise with the list of data packets), and each thread frees, queues or dequeues only a
-- buffer that it may: when the wait of sprdwl_msg_deinit has ended by its test of `ref`, then from
-- there on no thread holds a buffer, the busy list is empty, and what sprdwl_msg_deinit frees is each
-- buffer of sprdwl_msg_init once, in whatever order the threads' steps came before and come since.
pub deinit_safe :
    (kzalloc : ℕ → Option ℕ) (num : ℕ) (l : MsgList) (s t : System)
    → sprdwl_msg_init kzalloc num ≡ some l
    → Run (idle l) s
    → s.exiting ≡ true
    → waits_for_ref s.list ≡ false
    → Run s t
    → (t.held ≡ [])
      × (t.list.busylist ≡ [])
      × ((x : ℕ) → count x (free_all t.list).0 ≡ count x l.freelist)
unfolding free_all
deinit_safe kzalloc num l s t made before exits done since =
    let i = Run-IsSystem l.freelist (idle l) s before (idle-IsSystem kzalloc num l made) in
    let q = Run-IsQuiet l.freelist s t since i (waited-IsQuiet l.freelist s i exits done) in
    let j = Run-IsSystem l.freelist s t since i in
    (q.none_held, q.none_busy, λ x. omega (arith, rw (q.none_held, q.none_busy) at (j.owned x)))
