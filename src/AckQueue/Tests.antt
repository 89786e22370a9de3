-- ===== src/AckQueue/Tests.antt =====
-- The queue on concrete packets, and its theorems at concrete inputs.
use simq.Base.{
  ℕ, ◌<◌, ◌^◌, ◌≡◌, refl, if◌then◌else◌, ◌==◌, false, List, [], ◌∷◌, none, some, ok, arith,
}
use simq.Wire.Codes.{publish, puback, pubrec, pingreq, subscribe, reserved}
use simq.AckQueue.{
  Ackmsg, Ackqueue, Message, written, new_mem_ack_queue, grow, insert, wait, ack, acked,
  power_of_two64, round_up_power_of_two64, index, place, repeat, add_entry, remove_head, acked_loop,
  copied, index_ids,
}
use simq.AckQueue.Invariant.{IsValid, entries, locate}
use simq.AckQueue.Grow.{grow_lem}
use simq.AckQueue.Join.{Refines, flight}
use simq.AckQueue.Refine.{ack-Refines}
use simq.AckQueue.Acked.{Collected, acked_refines}
use simq.AckQueue.Run.{step, run, run_refines, new_mem_ack_queue-IsValid}
use simq.AckQueue.Spec
use simq.AckQueue.Spec.{Op, do_wait, do_ack, do_acked, Reply, returned, completed}

abbrev packet : ℕ → ℕ → Message
packet t id = record {
  mtype = t;
  qos = 1;
  dup = false;
  pktid = id;
  encoded = written (t ∷ id ∷ []);
}

-- Three packets in a ring of two, acknowledged in another order.
abbrev calls : List Op
calls =
    do_wait (packet publish 1) 11
    ∷ do_wait (packet publish 2) 12
    ∷ do_wait (packet subscribe 3) 13
    ∷ do_ack (packet puback 2)
    ∷ do_acked
    ∷ do_ack (packet puback 1)
    ∷ do_acked
    ∷ []

abbrev two_slots : Ackqueue
two_slots = new_mem_ack_queue (2 ^ 1)

abbrev done_entry : ℕ → ℕ → Ackmsg
done_entry id cb = record {
  mtype = publish;
  state = puback;
  pktid = id;
  msgbuf = publish ∷ id ∷ [];
  ackbuf = puback ∷ id ∷ [];
  on_complete = cb;
}

calls-run :
    run two_slots calls
    ≡ ok (
        returned none
        ∷ returned none
        ∷ returned none
        ∷ returned none
        ∷ completed []
        ∷ returned none
        ∷ completed (done_entry 1 11 ∷ done_entry 2 12 ∷ [])
        ∷ [])
unfolding run step wait ack acked insert add_entry place repeat grow copied index_ids index
    acked_loop remove_head new_mem_ack_queue power_of_two64 round_up_power_of_two64
calls-run = refl

run_refines_example : run two_slots calls ≡ ok (Spec.run (flight two_slots) calls)
run_refines_example =
    run_refines two_slots calls (new_mem_ack_queue-IsValid 1).0
      (unfold new_mem_ack_queue power_of_two64 round_up_power_of_two64 in omega arith)

-- A ring of one slot that holds a PUBLISH, and the answered ping.
abbrev one_packet : Ackqueue
one_packet = record {
  size = 1;
  mask = 0;
  count = 1;
  head = 0;
  tail = 0;
  ping = record {
    mtype = pingreq;
    state = reserved;
    pktid = 0;
    msgbuf = [];
    ackbuf = [];
    on_complete = 5;
  };
  ring = done_entry 1 11 ∷ [];
  emap = λ j. if j == 1 then some 0 else none;
}

one_packet-IsValid : IsValid one_packet
unfolding locate
one_packet-IsValid = record {
  exponent = 0;
  size_eq = refl;
  mask_eq = refl;
  ring_eq = refl;
  head_lt = omega arith;
  count_le = omega arith;
  tail_eq = refl;
  emap_eq = λ id. ground arith;
  distinct = (refl, tt);
}

grow_lem_example :
    (q' : Ackqueue) × (grow one_packet ≡ ok q')
    × IsValid q'
    × (entries q' ≡ entries one_packet)
    × (q'.count < q'.size)
    × (q'.ping ≡ one_packet.ping)
    × (q'.size ≡ 2)
grow_lem_example = grow_lem one_packet one_packet-IsValid refl (omega arith)

ack-Refines_example :
    Refines one_packet
      (ack one_packet (packet pubrec 1))
      (Spec.ack (flight one_packet) (packet pubrec 1))
ack-Refines_example = ack-Refines one_packet (packet pubrec 1) one_packet-IsValid

acked_refines_example : Collected one_packet (acked one_packet)
acked_refines_example = acked_refines one_packet one_packet-IsValid
