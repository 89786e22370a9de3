-- ===== src/AckQueue/Refine.antt =====
-- An `ackqueue` behaves as the flight of its entries.
use simq.Base.{
  ℕ, ◌≤◌, ◌<◌, ◌≡◌, refl, sym, ap, ◌∙◌, true, ◌||◌, Option, none, some, ◌==◌, length, get_or, set,
  arith, ok, ◌>>=◌, inl, inr, Bool-cases, Option-cases,
}
use simq.Wire.Codes.{publish, subscribe, unsubscribe, pingreq, pingresp}
use simq.AckQueue.{
  Ackmsg, no_ackmsg, Ackqueue, Message, ack_buffer, ack_error, AckError, acknowledges, insert, wait,
  ack,
}
use simq.Base.Window.{length-window, get_or-window}
use simq.AckQueue.Invariant.{entries, locate, slot, IsValid, locate-some, emap-none, emap-some}
use simq.AckQueue.Insert.{rewritten, rewritten-IsValid}
use simq.AckQueue.Join.{flight, Refines, flight_eq, most, insert_lem}
use simq.AckQueue.Spec
use simq.AckQueue.Spec.{Flight, Op, do_wait, do_ack, do_acked, Reply, returned, completed}

-- The ping is no part of the ring.
pub ping-IsValid : (q : Ackqueue) (p : Ackmsg) → IsValid q → IsValid (record q { ping = p })
ping-IsValid q p v = record {
  exponent = v.exponent;
  size_eq = v.size_eq;
  mask_eq = v.mask_eq;
  ring_eq = v.ring_eq;
  head_lt = v.head_lt;
  count_le = v.count_le;
  tail_eq = v.tail_eq;
  emap_eq = v.emap_eq;
  distinct = v.distinct;
}

same_lem : (q : Ackqueue) → IsValid q → (x : Option AckError) → Refines q (ok (q, x)) (flight q, x)
same_lem q v x = (q, refl, record { valid = v; at_most = omega arith }, refl)

ping_lem :
    (q : Ackqueue) (p : Ackmsg)
    → IsValid q
    → Refines q (ok (record q { ping = p }, none)) (record (flight q) { ping = p }, none)
ping_lem q p v = (
  record q { ping = p },
  refl,
  record { valid = ping-IsValid q p v; at_most = omega arith },
  refl,
)

-- `Wait` on a valid queue of at most `most` entries does not panic, leaves a valid queue, and does to
-- the flight and returns what the specification says.
pub wait-Refines :
    (q : Ackqueue) (m : Message) (cb : ℕ)
    → IsValid q
    → q.count ≤ most
    → Refines q (wait q m cb) (Spec.wait (flight q) m cb)
unfolding wait Spec.wait
wait-Refines q m cb v h =
    let (q₁, x, e, k, pg, es) = insert_lem q v m cb h in
    let joined : Refines q (insert q m cb >>= λ (q', _). ok (q', none))
        (record (flight q) { waiting = Spec.join (entries q) m cb }, none) =
      (q₁, rw e, k, flight_eq q₁ q.ping (Spec.join (entries q) m cb) pg es) in
    elim (Bool-cases (m.mtype == publish)) [
      | inl p ↦ elim (Bool-cases (m.qos == 0)) [
        | inl z ↦ rw (p, z) (same_lem q v _)
        | inr z ↦ rw (p, z) joined
      ]
      | inr p ↦ elim (Bool-cases (m.mtype == subscribe || m.mtype == unsubscribe)) [
        | inl s ↦ rw (p, s) joined
        | inr s ↦ elim (Bool-cases (m.mtype == pingreq)) [
          | inl g ↦ rw (p, s, g) (ping_lem q _ v)
          | inr g ↦ rw (p, s, g) (same_lem q v _)
        ]
      ]
    ]

-- The slot of an identifier holds its entry.
ack_entry :
    (q : Ackqueue) (m : Message) (j : ℕ)
    → IsValid q
    → locate m.pktid (entries q) ≡ some j
    → (j < q.count)
      × (get_or q.ring (slot q.size q.head j) no_ackmsg ≡ get_or (entries q) j no_ackmsg)
ack_entry q m j v l =
    let (lt, _) = locate-some m.pktid (entries q) j l in
    let in_window : j < q.count =
      omega (arith, length-window no_ackmsg q.size q.ring q.head q.count) in
    (in_window, sym (get_or-window no_ackmsg q.size q.ring q.head q.count j v.head_lt in_window))

-- The entry that the acknowledgement leaves.
abbrev acknowledged : Ackmsg → Message → Ackmsg
acknowledged a m = record a { state = m.mtype; ackbuf = ack_buffer m.encoded }

ack-none :
    (q : Ackqueue) (m : Message)
    → acknowledges m.mtype ≡ true
    → q.emap m.pktid ≡ none
    → ack q m ≡ ok (q, none)
unfolding ack
ack-none q m a n = ground arith

ack-some :
    (q : Ackqueue) (m : Message) (i : ℕ)
    → acknowledges m.mtype ≡ true
    → q.emap m.pktid ≡ some i
    → i < length q.ring
    → ack q m ≡ ok (rewritten q i (acknowledged (get_or q.ring i no_ackmsg) m), ack_error m.encoded)
unfolding ack
ack-some q m i a s h = ground arith

flight_ack-none :
    (f : Flight) (m : Message)
    → acknowledges m.mtype ≡ true
    → locate m.pktid f.waiting ≡ none
    → Spec.ack f m ≡ (f, none)
unfolding Spec.ack
flight_ack-none f m a n = ground arith

flight_ack-some :
    (f : Flight) (m : Message) (j : ℕ)
    → acknowledges m.mtype ≡ true
    → locate m.pktid f.waiting ≡ some j
    → Spec.ack f m ≡ (
      record f { waiting = set f.waiting j (acknowledged (get_or f.waiting j no_ackmsg) m) },
      ack_error m.encoded,
    )
unfolding Spec.ack Spec.mark
flight_ack-some f m j a n = ground arith

mark_lem :
    (q : Ackqueue) (m : Message) (j : ℕ)
    → IsValid q
    → acknowledges m.mtype ≡ true
    → q.emap m.pktid ≡ some (slot q.size q.head j)
    → locate m.pktid (entries q) ≡ some j
    → Refines q (ack q m) (Spec.ack (flight q) m)
mark_lem q m j v a s l =
    let (lt, e) = ack_entry q m j v l in
    let x = acknowledged (get_or q.ring (slot q.size q.head j) no_ackmsg) m in
    let (valid, es) = rewritten-IsValid q j x v lt (ap (λ (y : Ackmsg). y.pktid) e) in
    (
      rewritten q (slot q.size q.head j) x,
      ack-some q m (slot q.size q.head j) a s (omega (arith, v.ring_eq, v.head_lt))
          ∙ ap (λ r. ok (rewritten q (slot q.size q.head j) x, r))
              (sym (ap (λ r. r.1) (flight_ack-some (flight q) m j a l))),
      record { valid = valid; at_most = omega arith },
      flight_eq (rewritten q (slot q.size q.head j) x) q.ping
            (set (entries q) j (acknowledged (get_or (entries q) j no_ackmsg) m)) refl
            (es ∙ ap (λ y. set (entries q) j (acknowledged y m)) e)
          ∙ sym (ap (λ r. r.0) (flight_ack-some (flight q) m j a l)),
    )

acknowledge_lem :
    (q : Ackqueue) (m : Message)
    → IsValid q
    → acknowledges m.mtype ≡ true
    → Refines q (ack q m) (Spec.ack (flight q) m)
acknowledge_lem q m v a = elim (Option-cases (q.emap m.pktid)) [
  | inl n ↦
      rw (ack-none q m a n, flight_ack-none (flight q) m a (emap-none m.pktid v n))
        (same_lem q v none)
  | inr (i, s) ↦ let (j, l, e) = emap-some m.pktid i v s in mark_lem q m j v a (s ∙ ap some e) l
]

-- `Ack` on a valid queue does not panic, leaves a valid queue, and does to the flight and returns
-- what the specification says.
pub ack-Refines :
    (q : Ackqueue) (m : Message) → IsValid q → Refines q (ack q m) (Spec.ack (flight q) m)
ack-Refines q m v = elim (Bool-cases (acknowledges m.mtype)) [
  | inl a ↦ acknowledge_lem q m v a
  | inr a ↦
      unfold ack Spec.ack in
      elim (Bool-cases (m.mtype == pingresp)) [
        | inl r ↦ elim (Bool-cases (q.ping.mtype == pingreq)) [
          | inl g ↦ rw (a, r, g) (ping_lem q _ v)
          | inr g ↦ rw (a, r, g) (same_lem q v _)
        ]
        | inr r ↦ rw (a, r) (same_lem q v _)
      ]
]
