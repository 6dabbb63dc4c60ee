-- ===== src/Msg/Tests.antt =====
-- The message buffers of WIFI/msg.c in a concrete run.
use uwe5631_aml.Common.{
  ℕ, ◌+◌, ◌*◌, ◌≡◌, refl, true, false, Option, none, some, [], ◌∷◌, arith, count,
}
use uwe5631_aml.Msg.{
  MsgList, exit_val, remove, sprdwl_msg_init, sprdwl_alloc_msg_buf, sprdwl_free_msg_buf,
  sprdwl_queue_msg_buf, sprdwl_dequeue_msg_buf, sprdwl_get_msgbuf_by_data, waits_for_ref, free_all,
  sprdwl_peek_msg_buf, sprdwl_get_tail_msg_buf,
}
use uwe5631_aml.Msg.Steps.{
  System, enter, take, leave, give_back, queue, take_busy, exit, Run, stop, next, Run-trans, idle,
  deinit_safe,
}
use uwe5631_aml.Msg.Drain.{
  operations-Run, deinit_drains, Uses, finish, call, alloc, queue_own, dequeue,
}

abbrev kzalloc : ℕ → Option ℕ
kzalloc i = some (i + 1)

abbrev start : MsgList
start = record { freelist = 2 ∷ 1 ∷ []; busylist = []; maxnum = 2; ref = 0 }

made : sprdwl_msg_init kzalloc 2 ≡ some start
unfolding sprdwl_msg_init uwe5631_aml.Msg.init_loop
made = refl

-- Buffer 2 is queued when sprdwl_msg_deinit begins.
abbrev queued : System
queued = record {
  list = record { freelist = 1 ∷ []; busylist = 2 ∷ []; maxnum = 2; ref = 1 + exit_val };
  held = [];
  entered = 0;
  leaving = 0;
  exiting = true;
}

abbrev finished : System
finished = record {
  list = record { freelist = 1 ∷ 2 ∷ []; busylist = []; maxnum = 2; ref = exit_val };
  held = [];
  entered = 0;
  leaving = 0;
  exiting = true;
}

to_queued : Run (idle start) queued
unfolding sprdwl_queue_msg_buf uwe5631_aml.Msg.mark_exit
to_queued = next _ _ _ (enter _ (omega arith)) (
    next _ _ _ (take _ 2 (1 ∷ []) 0 refl refl)
      (next _ _ _ (queue _ 2 (omega arith)) (next _ _ _ (exit _ refl) (stop _))))

to_finished : Run queued finished
unfolding uwe5631_aml.Msg.unqueue
to_finished =
    next _ _ _ (take_busy _ 2 (omega arith))
      (next _ _ _ (give_back _ 2 (omega arith)) (next _ _ _ (leave _ 0 refl) (stop _)))

deinit_drains_example : (t : System) × Run queued t × (waits_for_ref t.list ≡ false)
deinit_drains_example = deinit_drains kzalloc 2 start queued made to_queued refl

ended : waits_for_ref finished.list ≡ false
unfolding waits_for_ref
ended = refl

deinit_safe_example :
    (finished.held ≡ [])
    × (finished.list.busylist ≡ [])
    × ((x : ℕ) → count x (free_all finished.list).0 ≡ count x start.freelist)
deinit_safe_example =
    deinit_safe kzalloc 2 start finished finished made (Run-trans _ _ _ to_queued to_finished) refl
      ended (stop finished)

-- From the state that sprdwl_msg_init leaves: buffer 2 is allocated and queued, and dequeued.
abbrev with_two : System
with_two = record (idle start) { list = record start { freelist = 1 ∷ []; ref = 1 }; held = 2 ∷ [] }

abbrev queued_two : System
queued_two = record with_two { list = sprdwl_queue_msg_buf 2 with_two.list; held = [] }

abbrev done_two : System
done_two = record queued_two { list = sprdwl_dequeue_msg_buf 2 queued_two.list }

calls : Uses (λ b. 10 * b) (idle start) done_two
unfolding sprdwl_alloc_msg_buf sprdwl_queue_msg_buf uwe5631_aml.Msg.take_first
calls = call _ with_two _ (alloc (idle start)) (
    call _ queued_two _ (queue_own with_two 2 (omega arith))
      (call _ done_two _ (dequeue queued_two 2 (omega arith)) (finish done_two)))

operations-Run_example : Run (idle start) done_two
operations-Run_example = operations-Run (λ b. 10 * b) (idle start) done_two calls

-- What sprdwl_peek_msg_buf and sprdwl_get_tail_msg_buf see, and a kzalloc that fails.
peek_example :
    (sprdwl_peek_msg_buf (record start { busylist = 6 ∷ 7 ∷ [] }) ≡ some 6)
    × (sprdwl_get_tail_msg_buf (record start { busylist = 6 ∷ 7 ∷ [] }) ≡ some 7)
    × (sprdwl_msg_init (λ i. none) 2 ≡ none)
unfolding sprdwl_peek_msg_buf sprdwl_get_tail_msg_buf sprdwl_msg_init uwe5631_aml.Msg.init_loop
peek_example = (refl, refl, refl)
