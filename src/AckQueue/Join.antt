-- ===== src/AckQueue/Join.antt =====
-- `insert` against the specification: a packet joins the flight, whatever the ring has to do.
use simq.Base.{
  ℕ, ◌+◌, ◌-◌, ◌/◌, ◌^◌, ◌≤◌, ◌<◌, ◌≡◌, refl, sym, ap, ◌∙◌, List, Option, none, some, ◌==◌, length,
  arith, Outcome, ok, inl, inr, Bool-cases, Option-cases,
}
use simq.Wire.Codes.{publish}
use simq.AckQueue.{
  Ackmsg, no_ackmsg, Ackqueue, Message, Encoded, written, failed, new_entry, AckError, place,
  repeat, add_entry, insert, Result,
}
use simq.Base.Window.{length-window}
use simq.AckQueue.Invariant.{entries, locate, IsValid, emap-none, emap-some}
use simq.AckQueue.Insert.{pushed, pushed-IsValid}
use simq.AckQueue.Grow.{grow_lem}
use simq.AckQueue.Spec
use simq.AckQueue.Spec.{Flight, Op, do_wait, do_ack, do_acked, Reply, returned, completed}
use native.Mathlib.Decide.{ℕ_discrete}

-- What a client sees of a queue.
abbrev pub flight : Ackqueue → Flight
flight q = record { ping = q.ping; waiting = entries q }

-- A queue that is left valid, with at most one entry more.
pub record Kept (q q' : Ackqueue) : Type 0 where
  pub valid : IsValid q'
  pub at_most : q'.count ≤ q.count + 1

-- A call that leaves a valid queue with the entries `es` and the same ping.
abbrev pub Leaves : Ackqueue → Outcome (Result Ackqueue) → List Ackmsg → Type 0
Leaves q r es =
    (q' : Ackqueue) × (x : Option AckError) × (r ≡ ok (q', x))
    × Kept q q'
    × (q'.ping ≡ q.ping)
    × (entries q' ≡ es)

module _ (q : Ackqueue) (v : IsValid q) (room : q.count < q.size) (m : Message) (cb : ℕ) where
  tail_in : q.tail < length q.ring
  tail_in = omega (arith, v.tail_eq, v.ring_eq, v.head_lt)

  unchanged : (x : Option AckError) → Leaves q (ok (q, x)) (entries q)
  unchanged x = (q, x, refl, record { valid = v; at_most = omega arith }, refl, refl)

  place_lem :
      (e : Encoded)
      → q.emap m.pktid ≡ none
      → Leaves q (place q m cb e) (Spec.join_entry (entries q) m cb e)
  unfolding place Spec.join_entry
  place_lem (failed b) n = unchanged _
  place_lem (written b) n =
      let (valid, es) = pushed-IsValid q (new_entry m cb b) v room n in
      (
        pushed q (new_entry m cb b),
        none,
        ground (arith, tail_in),
        record { valid = valid; at_most = omega arith },
        refl,
        es,
      )

  repeat_lem : Leaves q (repeat q m) (entries q)
  unfolding repeat
  repeat_lem = elim (Bool-cases (m.mtype == publish)) [
    | inl p ↦ elim (Bool-cases m.dup) [
      | inl d ↦ rw (p, d) (unchanged _)
      | inr d ↦ rw (p, d) (unchanged _)
    ]
    | inr p ↦ rw p (unchanged _)
  ]

  add_entry-new : q.emap m.pktid ≡ none → add_entry q m cb ≡ place q m cb m.encoded
  unfolding add_entry
  add_entry-new n = ground (arith, n)

  add_entry-old : (i : ℕ) → q.emap m.pktid ≡ some i → add_entry q m cb ≡ repeat q m
  unfolding add_entry
  add_entry-old i e = ground (arith, e)

  join-new :
      locate m.pktid (entries q) ≡ none
      → Spec.join (entries q) m cb ≡ Spec.join_entry (entries q) m cb m.encoded
  unfolding Spec.join
  join-new n = ground (arith, n)

  join-old : (j : ℕ) → locate m.pktid (entries q) ≡ some j → Spec.join (entries q) m cb ≡ entries q
  unfolding Spec.join
  join-old j e = ground (arith, e)

  add_entry_lem : Leaves q (add_entry q m cb) (Spec.join (entries q) m cb)
  add_entry_lem = elim (Option-cases (q.emap m.pktid)) [
    | inl n ↦ rw (add_entry-new n, join-new (emap-none m.pktid v n)) (place_lem m.encoded n)
    | inr (i, s) ↦
        let (j, l, e) = emap-some m.pktid i v s in rw (add_entry-old i s, join-old j l) repeat_lem
  ]

same_count : (q q' : Ackqueue) → entries q' ≡ entries q → q'.count ≡ q.count
same_count q q' e =
    sym (length-window no_ackmsg q'.size q'.ring q'.head q'.count)
    ∙ ap length e
    ∙ length-window no_ackmsg q.size q.ring q.head q.count

-- The largest number of entries that the model follows: a queue of this size still grows.
abbrev pub most : ℕ
most = (2 ^ 63 - 1) / 2

module _ (q : Ackqueue) (v : IsValid q) (m : Message) (cb : ℕ) where
  -- `insert` on a valid queue of at most `most` entries does not panic, and leaves a valid queue with
  -- the packet at its end, unless its identifier is there or it does not encode.
  pub insert_lem : q.count ≤ most → Leaves q (insert q m cb) (Spec.join (entries q) m cb)
  unfolding insert
  insert_lem h = elim (ℕ_discrete q.count q.size) [
    | yes is_full ↦
        let (q₁, e, v₁, es, room, pg, dbl) = grow_lem q v is_full (omega arith) in
        let (q₂, x, e₂, k, pg₂, es₂) = add_entry_lem q₁ v₁ room m cb in
        (
          q₂,
          x,
          ground (arith, is_full, e, e₂),
          record { valid = k.valid; at_most = omega (arith, k.at_most, same_count q q₁ es) },
          pg₂ ∙ pg,
          es₂ ∙ ap (λ xs. Spec.join xs m cb) es,
        )
    | no other ↦
        let (q₂, x, e₂, k, pg₂, es₂) = add_entry_lem q v (omega (arith, v.count_le)) m cb in
        (q₂, x, ground (arith, e₂), k, pg₂, es₂)
  ]

-- A call that leaves a valid queue, with the flight and the error of the specification.
abbrev pub Refines : Ackqueue → Outcome (Result Ackqueue) → Flight × Option AckError → Type 0
Refines q r s = (q' : Ackqueue) × (r ≡ ok (q', s.1)) × Kept q q' × (flight q' ≡ s.0)

pub flight_eq :
    (q' : Ackqueue) (p : Ackmsg) (es : List Ackmsg)
    → q'.ping ≡ p
    → entries q' ≡ es
    → flight q' ≡ record { ping = p; waiting = es }
flight_eq q' p es a b = λ i. record { ping = a i; waiting = b i }
