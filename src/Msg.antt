-- ===== src/Msg.antt =====
-- The lists of message buffers in WIFI/msg.c and WIFI/msg.h. A buffer is a number, its address; the
-- link of a buffer is its place in one of the lists, so `list_del` of a buffer is its removal.
-- `ref` is a natural number: where the code would count below 0, it stays 0.
pub mod Steps
pub mod Drain
pub mod Tests
use uwe5631_aml.Common.{
  ℕ, zero, suc, ◌+◌, ◌-◌, ◌≤◌, ◌<◌, ◌≡◌, Bool, true, false, Option, none, some, List, [], ◌∷◌, ◌++◌,
  ltb, leb, ◌==◌, if◌then◌else◌, ◌>>=◌,
}

-- `struct sprdwl_msg_list`, without its locks. cmd_to_free and flow are their clients'.
pub record MsgList : Type 0 where
  pub freelist : List ℕ
  pub busylist : List ℕ
  pub maxnum : ℕ
  pub ref : ℕ

-- SPRDWL_MSG_EXIT_VAL
abbrev pub exit_val : ℕ
exit_val = 0x8000

-- `list_del`
abbrev pub remove : ℕ → List ℕ → List ℕ
remove b [] = []
remove b (c ∷ cs) = if b == c then cs else c ∷ remove b cs

abbrev pub list_first : List ℕ → Option ℕ
list_first [] = none
list_first (b ∷ bs) = some b

abbrev pub list_last : List ℕ → Option ℕ
list_last [] = none
list_last (b ∷ bs) = elim (list_last bs) [ none ↦ some b | some l ↦ some l ]

-- `kzalloc` is what the call of each round returns. NULL ends the loop, and what was made is freed.
unfoldable pub init_loop : (ℕ → Option ℕ) → ℕ → List ℕ → Option (List ℕ)
init_loop kzalloc zero made = some made
init_loop kzalloc (suc n) made = kzalloc n >>= λ b. init_loop kzalloc n (made ++ b ∷ [])

unfoldable pub sprdwl_msg_init : (ℕ → Option ℕ) → ℕ → Option MsgList
sprdwl_msg_init kzalloc num = do
  made ← init_loop kzalloc num []
  some (record { freelist = made; busylist = []; maxnum = num; ref = 0 })

-- atomic_inc and atomic_dec of `ref`
abbrev pub inc_ref : MsgList → MsgList
inc_ref l = record l { ref = l.ref + 1 }

abbrev pub dec_ref : MsgList → MsgList
dec_ref l = record l { ref = l.ref - 1 }

-- The part of sprdwl_alloc_msg_buf under freelock.
unfoldable pub take_first : MsgList → Option ℕ × MsgList
take_first l = elim (l.freelist) [
  | [] ↦ (none, l)
  | b ∷ rest ↦ (some b, record l { freelist = rest })
]

-- `if (!msg_buf) atomic_dec(&list->ref)`
abbrev pub put_back : Option ℕ × MsgList → Option ℕ × MsgList
put_back (none, l) = (none, dec_ref l)
put_back (some b, l) = (some b, l)

unfoldable pub sprdwl_alloc_msg_buf : MsgList → Option ℕ × MsgList
sprdwl_alloc_msg_buf l =
    if leb exit_val (inc_ref l).ref
    then (none, dec_ref (inc_ref l))
    else put_back (take_first (inc_ref l))

unfoldable pub sprdwl_free_msg_buf : ℕ → MsgList → MsgList
sprdwl_free_msg_buf b l = dec_ref (record l { freelist = l.freelist ++ b ∷ [] })

unfoldable pub sprdwl_queue_msg_buf : ℕ → MsgList → MsgList
sprdwl_queue_msg_buf b l = record l { busylist = l.busylist ++ b ∷ [] }

unfoldable pub sprdwl_peek_msg_buf : MsgList → Option ℕ
sprdwl_peek_msg_buf l = list_first l.busylist

unfoldable pub sprdwl_get_tail_msg_buf : MsgList → Option ℕ
sprdwl_get_tail_msg_buf l = list_last l.busylist

-- The part of sprdwl_dequeue_msg_buf under busylock.
unfoldable pub unqueue : ℕ → MsgList → MsgList
unqueue b l = record l { busylist = remove b l.busylist }

unfoldable pub sprdwl_dequeue_msg_buf : ℕ → MsgList → MsgList
sprdwl_dequeue_msg_buf b l = sprdwl_free_msg_buf b (unqueue b l)

-- `tran_data` is that field of each buffer.
abbrev pub find_data : (ℕ → ℕ) → ℕ → List ℕ → Option ℕ
find_data tran_data wanted [] = none
find_data tran_data wanted (b ∷ bs) =
    if wanted == tran_data b then some b else find_data tran_data wanted bs

unfoldable pub sprdwl_get_msgbuf_by_data : (ℕ → ℕ) → ℕ → MsgList → Option ℕ × MsgList
sprdwl_get_msgbuf_by_data tran_data wanted l = elim (find_data tran_data wanted l.busylist) [
  | none ↦ (none, l)
  | some b ↦ (some b, unqueue b l)
]

-- sprdwl_msg_deinit: the mark, the test that its loop waits for, and what it frees in the end.
unfoldable pub mark_exit : MsgList → MsgList
mark_exit l = record l { ref = l.ref + exit_val }

unfoldable pub waits_for_ref : MsgList → Bool
waits_for_ref l = ltb exit_val l.ref

unfoldable pub free_all : MsgList → List ℕ × MsgList
free_all l = (l.freelist, record l { freelist = [] })
