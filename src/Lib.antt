-- ===== src/Lib.antt =====
-- Verification of parts of the uwe5631 driver: the logic that keeps state of its own.
--
-- The parts
-- * Reorder models WIFI/reorder.c with WIFI/reorder.h and seqno_leq of WIFI/rx_msg.h: the block-ack
--   sessions of the receive path. Reorder.antt has the records (`rx_ba_node_desc` is RxBaNodeDesc)
--   and the small helpers, Reorder/Seqno the sequence numbers, Reorder/Step the loops and windows of
--   a session, Reorder/Process the handlers of a node (reorder_msdu_process, ba_reorder_timeout),
--   Reorder/Entry the table of nodes with find_ba_node and the ADDBA and DELBA events, Reorder/Events
--   reorder_data_process and the other entry points. The proofs are in Reorder/Slots, Window, Insert,
--   Conserve, Deliver, Teardown and Replay.
-- * TcpAck models WIFI/tcp_ack.c: TcpAck.antt one flow (sprdwl_tcp_ack_handle and its timer),
--   TcpAck/Packet the reading of frames, TcpAck/Manage the table of flows, the filter and the texts
--   that set it. The proofs are in TcpAck/Flow, Slots and OptionLoop.
-- * Multprecision models the word arithmetic of BT/libbt/src/algorithms/p_256_multprecision.c, and
--   Multprecision/Modular its operations modulo curve.p and curve_p256.p of
--   p_256_curvepara.c. The proofs are in
--   Multprecision/Value, Add, Mult and Modulus.
-- * BufRing models BSP/platform/bufring.c, the ring of bytes of the log: BufRing.antt has the ring and
--   its operations, and the proofs are in BufRing/Chunks, Fifo and Queue.
-- * Defrag models WIFI/defrag.c with WIFI/defrag.h: the reassembly of fragments. Defrag.antt has the
--   nodes and the operations (defrag_data_process, sprdwl_defrag_recover), Defrag/Copy the bytes that
--   the copies make, Defrag/Covers and Keep what becomes of the buffers, Defrag/Fragment and Reassemble
--   one fragment and whole frames, and Defrag/Stale what sprdwl_defrag_recover leaves.
-- * Msg models WIFI/msg.c with `struct sprdwl_msg_list` of WIFI/msg.h: the lists of message buffers.
--   Msg.antt has the operations, Msg/Steps threads that use the lists at the same time, by these
--   operations alone, as a step relation, and Msg/Drain sequences of calls as runs of steps, and the
--   end of the wait of sprdwl_msg_deinit.
-- * Qos models WIFI/qos.c with WIFI/qos.h: Qos.antt has its state (the
--   globals g_wmmac_available and so on), the timers' functions, and change_priority_if, which takes a
--   queue for a packet; Qos/Frame has what reads frames (pkt_get_prio, get_wmm_ie). The proofs are in
--   Qos/Admission and Qos/Downgrade.
-- * Sitm models BT/tty-sdio/sitm.c with include/sitm.h: the parser between the Bluetooth serial line
--   and the chip. Sitm.antt has the parser (parse_frame, sitm_write), Sitm/Stream a machine that takes
--   one byte at a time, Sitm/Bulk and Sitm/Chunks the parser against that machine, Sitm/Packets the
--   bytes of H4 packets, and Sitm/Feed and RoundTrip such packets through the parser.
-- * Tx models the credits of WIFI/tx_msg.c with WIFI/tx_msg.h. Tx.antt has the colours and the requests
--   (sprdwl_fc_get_send_num, sprdwl_fc_test_send_num), Tx/Account the return of packets, new credits
--   and the close of a mode, Tx/Queues the lists of packets and sprdwl_tx_eachmode_data, Tx/Run the
--   steps of the threads. The proofs are in Tx/Colour, Shares, Grant and Request (requests), Ledger,
--   Sound and Race (the balance), Rounding, Distribute, Move, Eachmode and Handover (the lists).
-- * Common has the names that all share, lists over native numbers, the chaining of code that may
--   fault, and a lemma on bit masks.
-- The receive path hands each frame to Reorder, and what Reorder delivers to Defrag, which uses
-- seqno_leq of Reorder/Seqno; the transmit path and the receive path call TcpAck; commands and
-- data on their way to the chip are in the buffers of Msg, for data in the queue that Qos takes,
-- from which Tx sends as many as there are credits for; pairing calls Multprecision, the Bluetooth
-- serial line Sitm, and the log device BufRing.
--
-- Conventions
-- A socket buffer or a message is a number, its identity; a chain of buffers is a list. What is
-- delivered and what is freed is kept in lists, so that losing or doubling a buffer can be stated.
-- NULL is `none`; a NULL dereference, or a use after free, is a result `none`. An integer keeps its
-- width by `% 2 ^ w`; an index that a mask makes is bit_and. jiffies, addresses from kzalloc and the
-- bytes of a frame are arguments. A timer is whether it is pending. In Defrag and Sitm a read or a
-- write past the end of a buffer is `none` too.
--
-- Fuel
-- send_msdu_in_order has buff_cnt rounds, since each round takes one packet; get_first_seqno_in_buff
-- has 2050, since at most 2049 numbers are at most win_tail; get_index_size has 11, since it doubles
-- from 64 and twice an unsigned short is below 2^17. The loop over the TCP options takes its fuel as
-- an argument. parse_frame has one round more than its fifo has bytes, since each round takes one or
-- more. Theorems below say that each of these is enough, or when it is.
--
-- Not modelled
-- Locks, since each handler holds its node's or flow's lock throughout, but in Msg, where a step
-- is what one lock covers; logging; the three seconds after which sprdwl_msg_deinit waits no more;
-- the firmware commands that the handlers send (they are flags of the results); wlan_bar_event,
-- which is not compiled; what WIFI/tx_msg.c does to the list of data packets past the operations
-- of msg.c (it subtracts from ref before buffers come back, puts them back without a change of
-- ref, and adds new ones); the flushes, the commands, the thread and the filters of tx_msg.c; the
-- waiting of mdbg_ring_write_timeout; multiprecision_fast_mod, inversion and curve points; and the
-- rest of the driver, which is mostly device access and glue to the kernel.
pub mod BufRing
pub mod Common
pub mod Multprecision
pub mod Reorder
pub mod Sitm
pub mod Msg
pub mod Defrag
pub mod Qos
pub mod TcpAck
pub mod Tx
