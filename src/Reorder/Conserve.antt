-- ===== src/Reorder/Conserve.antt =====
-- No handler of a session loses or doubles a socket buffer, and each keeps the session well-formed.
use uwe5631_aml.Common.{
  ℕ, ◌+◌, ◌^◌, ◌<◌, ◌≡◌, refl, ap, inl, inr, Bool, true, false, not, ◌&&◌, ◌||◌, Option, none, some,
  List, [], ◌∷◌, ◌++◌, arith, ◌==◌, Bool-cases,
}
use uwe5631_aml.Common.{count, count-append}
use uwe5631_aml.Reorder.Seqno.{seqno_add, seqno_sub, seqno_leq, seqno_geq}
use uwe5631_aml.Reorder.{
  RxBaNodeDesc, RxMsduDesc, Skbs, Session, replay_detection, send_order_msdu, reorder_set_skb_list,
  set_ba_pkt_desc, zero_desc,
}
use uwe5631_aml.Reorder.Step.{
  send_msdu_in_order, between_seqlo_seqhi, send_msdu_with_gap, move_window, greater_than_seqhi,
  insert_msdu,
}
use uwe5631_aml.Reorder.Process.{
  RxBaNode, insert_in_window, make_room, set_tail, reorder_msdu, after_reorder, set_skb, free_skb,
  mod_reorder_timer,
}
use uwe5631_aml.Reorder.Slots.{copies, held}
use uwe5631_aml.Reorder.Window.{
  HasSlots, HasSlots-of_eq, send_msdu_in_order-Sends, send_msdu_with_gap-Sends,
  replay_detection-same, deliver_or_free-count,
}
use uwe5631_aml.Reorder.Insert.{of_skb, Inserts, insert_msdu-Inserts, HasSlots-mono}

-- A well-formed session: its slots, and a window that starts at a sequence number and has its size.
pub record IsSession (most : ℕ) (d : RxBaNodeDesc) : Type 0 where
  pub slots : HasSlots most d
  pub start_in : d.win_start < 4096
  pub limit : d.win_limit ≡ seqno_add d.win_start (d.win_size + 4095)

-- A handler that gets the buffers `new` besides those of the session.
pub record Keeps (x most : ℕ) (new : List ℕ) (t t' : Session) : Type 0 where
  pub kept : copies x t' ≡ copies x t + count x new
  pub session : IsSession most t'.rx_ba

pub between_seqlo_seqhi-Keeps :
    (x most : ℕ) (t : Session) → HasSlots most t.rx_ba → Keeps x most [] t (between_seqlo_seqhi t)
unfolding between_seqlo_seqhi send_msdu_in_order
between_seqlo_seqhi-Keeps x most t h =
    let s = send_msdu_in_order-Sends x most t h in
    record {
      kept = omega (arith, s.kept);
      session = record {
        slots = HasSlots-of_eq most (send_msdu_in_order t).1.rx_ba _ refl refl refl s.shape;
        start_in = omega arith;
        limit = omega arith;
      };
    }

pub move_window-Keeps :
    (x most win_start : ℕ) (t : Session)
    → HasSlots most t.rx_ba
    → Keeps x most [] t (move_window win_start t)
move_window-Keeps x most win_start t h =
    let g = send_msdu_with_gap-Sends x most win_start t h in
    let d = (send_msdu_with_gap t win_start).rx_ba in
    let b =
      between_seqlo_seqhi-Keeps x most _
        (HasSlots-of_eq most d (record d { win_start = win_start }) refl refl refl g.shape) in
    record { kept = omega (arith, g.kept, b.kept); session = b.session }

make_room-Keeps :
    (x most : ℕ) (m : RxMsduDesc) (t : Session)
    → IsSession most t.rx_ba
    → Keeps x most [] t (make_room m t)
unfolding greater_than_seqhi
make_room-Keeps x most m t h = elim (Bool-cases (seqno_leq m.seq_num t.rx_ba.win_limit)) [
  | inl e ↦ rw e (record { kept = omega arith; session = h })
  | inr e ↦ rw e (move_window-Keeps x most _ t h.slots)
]

free_skb-count :
    (x : ℕ) (s : Skbs) (skb : Option ℕ)
    → let s' = free_skb s skb in
      count x s'.skb_list + count x s'.freed
      ≡ count x s.skb_list + count x s.freed + count x (of_skb skb)
free_skb-count x s none = omega arith
free_skb-count x s (some b) = omega arith

-- A session of which only win_tail or win_start_init changes.
pub IsSession-of_eq :
    (most : ℕ) (d d' : RxBaNodeDesc)
    → d'.reorder_buffer ≡ d.reorder_buffer
    → d'.buff_cnt ≡ d.buff_cnt
    → d'.index_mask ≡ d.index_mask
    → d'.win_start ≡ d.win_start
    → d'.win_limit ≡ d.win_limit
    → d'.win_size ≡ d.win_size
    → IsSession most d
    → IsSession most d'
IsSession-of_eq most d d' b c m s l z h = record {
  slots = HasSlots-of_eq most d d' m b c h.slots;
  start_in = omega (arith, s, h.start_in);
  limit = omega (arith, s, l, z, h.limit);
}

set_tail-IsSession :
    (most : ℕ) (m : RxMsduDesc) (d : RxBaNodeDesc)
    → IsSession most d
    → IsSession most (set_tail m d)
set_tail-IsSession most m d h = elim (Bool-cases (seqno_geq m.seq_num d.win_tail)) [
  | inl e ↦ rw e (IsSession-of_eq most d _ refl refl refl refl refl refl h)
  | inr e ↦ rw e h
]

set_tail-buffer :
    (m : RxMsduDesc) (d : RxBaNodeDesc) → (set_tail m d).reorder_buffer ≡ d.reorder_buffer
set_tail-buffer m d = ground arith

Inserts-IsSession :
    (x most : ℕ) (skb : Option ℕ) (d : RxBaNodeDesc) (out : Bool × RxBaNodeDesc)
    → IsSession most d
    → Inserts x most skb d out
    → IsSession (most + 1) out.1
Inserts-IsSession x most skb d out h i = record {
  slots = i.shape;
  start_in = omega (arith, i.window, h.start_in);
  limit = omega (arith, i.window, h.limit);
}

-- An MSDU in the window is taken or freed, and nothing else changes hands.
insert_in_window-Keeps :
    (x most : ℕ) (m : RxMsduDesc) (skb : Option ℕ) (t : Session)
    → IsSession most t.rx_ba
    → most + 1 < 2 ^ 16
    → Keeps x (most + 1) (of_skb skb) t (insert_in_window m skb t).1
unfolding insert_in_window
insert_in_window-Keeps x most m skb t h small =
    let r = make_room-Keeps x most m t h in
    let t' = make_room m t in
    let out = insert_msdu m skb t'.rx_ba in
    let i = (insert_msdu-Inserts x most m skb t'.rx_ba r.session.slots small).0 in
    let k = Inserts-IsSession x most skb t'.rx_ba out r.session i in
    elim (Bool-cases out.0) [
      | inl e ↦ rw e (record {
        kept = omega (arith, rw e at (i.chains), r.kept, ap (held x) (set_tail-buffer m out.1));
        session = set_tail-IsSession (most + 1) m out.1 k;
      })
      | inr e ↦ rw e (record {
        kept = omega (arith, rw e at (i.chains), r.kept, free_skb-count x t'.skbs skb);
        session = k;
      })
    ]

pub IsSession-mono : (most : ℕ) (d : RxBaNodeDesc) → IsSession most d → IsSession (most + 1) d
IsSession-mono most d h = record {
  slots = HasSlots-mono most d h.slots;
  start_in = h.start_in;
  limit = h.limit;
}

pub set_skb-count :
    (x b : ℕ) (s : Skbs) → count x (s.skb_list ++ b ∷ []) ≡ count x s.skb_list + count x (b ∷ [])
set_skb-count x b s = count-append x s.skb_list (b ∷ [])

pub reorder_msdu-Keeps :
    (x most b : ℕ) (m : RxMsduDesc) (t : Session)
    → IsSession most t.rx_ba
    → most + 1 < 2 ^ 16
    → (r : Bool × Session) × (reorder_msdu m (some b) t ≡ some r)
      × Keeps x (most + 1) (b ∷ []) t r.1
unfolding reorder_msdu set_skb reorder_set_skb_list
reorder_msdu-Keeps x most b m t h small =
    let d = record (t.rx_ba) { win_start_init = 0 } in
    elim (Bool-cases (seqno_geq m.seq_num t.rx_ba.win_start)) [
      | inl e ↦
          let k =
            insert_in_window-Keeps x most m (some b) (record t { rx_ba = d })
              (IsSession-of_eq most t.rx_ba d refl refl refl refl refl refl h) small in
          (
            insert_in_window m (some b) (record t { rx_ba = d }),
            rw e refl,
            record { kept = k.kept; session = k.session },
          )
      | inr e ↦ elim (Bool-cases (not (seqno_geq m.seq_num t.rx_ba.win_start_init))) [
        | inl f ↦ (
          (true, record t { skbs = reorder_set_skb_list t.skbs (b ∷ []) }),
          rw (e, f) refl,
          record {
            kept = omega (arith, set_skb-count x b t.skbs);
            session = IsSession-mono most t.rx_ba h;
          },
        )
        | inr f ↦ (
          (false, record t { skbs = free_skb t.skbs (some b) }),
          rw (e, f) refl,
          record { kept = omega arith; session = IsSession-mono most t.rx_ba h },
        )
      ]
    ]

-- A node and the buffers of its entry, as a session.
abbrev pub session_of : Skbs × RxBaNode → Session
session_of (s, n) = record { skbs = s; rx_ba = n.rx_ba }

pub rx_ba-mod_reorder_timer : (n : RxBaNode) → (mod_reorder_timer n).rx_ba ≡ n.rx_ba
unfolding mod_reorder_timer
rx_ba-mod_reorder_timer n = ground arith

pub after_reorder-Keeps :
    (x most old : ℕ) (m : RxMsduDesc) (n : RxBaNode) (r : Bool × Session)
    → IsSession most r.1.rx_ba
    → Keeps x most [] r.1 (session_of (after_reorder m old n r))
unfolding after_reorder
after_reorder-Keeps x most old m n (true, t) h =
    let t' = between_seqlo_seqhi t in
    elim (Bool-cases (m.last_msdu_of_mpdu && m.seq_num == t.rx_ba.win_start)) [
      | inl e ↦
          rw (e, rx_ba-mod_reorder_timer (record n { rx_ba = t'.rx_ba }))
            (between_seqlo_seqhi-Keeps x most t h.slots)
      | inr e ↦ elim (Bool-cases (not n.reorder_timer || not (old == t.rx_ba.win_start))) [
        | inl f ↦
            rw (e, f, rx_ba-mod_reorder_timer (record n { rx_ba = t.rx_ba }))
              (record { kept = omega arith; session = h })
        | inr f ↦ rw (e, f) (record { kept = omega arith; session = h })
      ]
    ]
after_reorder-Keeps x most old m n (false, t) h = elim (Bool-cases (t.rx_ba.buff_cnt == 0)) [
  | inl e ↦ rw e (record { kept = omega arith; session = h })
  | inr e ↦ rw e (record { kept = omega arith; session = h })
]

-- The window one further on.
abbrev next_window : RxBaNodeDesc → RxBaNodeDesc
next_window d = record d {
  win_start = seqno_add d.win_start 1;
  win_limit = seqno_add d.win_limit 1;
  win_tail = seqno_sub (seqno_add d.win_start 1) 1;
}

next_window-IsSession :
    (most : ℕ) (d : RxBaNodeDesc) → IsSession most d → IsSession most (next_window d)
next_window-IsSession most d h = record {
  slots = HasSlots-of_eq most d (next_window d) refl refl refl h.slots;
  start_in = omega arith;
  limit = omega (arith, h.limit);
}

pub send_order_msdu-Keeps :
    (x most : ℕ) (m : RxMsduDesc) (skb : Option ℕ) (t : Session)
    → IsSession most t.rx_ba
    → Keeps x most (of_skb skb) t (send_order_msdu m skb t)
unfolding send_order_msdu
send_order_msdu-Keeps x most m none t h = record {
  kept = omega arith;
  session = next_window-IsSession most t.rx_ba h;
}
send_order_msdu-Keeps x most m (some b) t h =
    let p = set_ba_pkt_desc zero_desc m in
    let d = next_window t.rx_ba in
    let r = replay_detection-same p d in
    let (fresh, d') = replay_detection p d in
    record {
      kept = omega (arith, deliver_or_free-count x fresh t.skbs (b ∷ []), ap (held x) r.1);
      session =
          IsSession-of_eq most d d' r.1 r.2 r.0.mask r.0.start r.0.limit r.0.size
            (next_window-IsSession most t.rx_ba h);
    }
