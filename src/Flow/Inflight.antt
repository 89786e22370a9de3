-- ===== src/Flow/Inflight.antt =====
-- A queue of which the entries are known, under its three calls.
use simq.Base.{ℕ, ◌≡◌, sym, ap, ◌∙◌, List, [], ◌∷◌, Option, none, length, Outcome, ok, arith}
use simq.Wire.Codes.{publish, pubrel}
use simq.AckQueue.{
  Ackqueue, Ackmsg, no_ackmsg, Message, written, new_entry, wait, ack, acked, AckError,
}
use simq.AckQueue.Invariant.{IsValid, locate}
use simq.AckQueue.Join.{flight, Refines}
use simq.AckQueue.Refine.{wait-Refines, ack-Refines}
use simq.AckQueue.Acked.{acked_refines}
use simq.AckQueue.Spec
use simq.AckQueue.Spec.{Flight}
use simq.Base.Window.{length-window}

-- A valid queue with the entries `es` and no ping.
pub record Holds (es : List Ackmsg) (q : Ackqueue) : Type 0 where
  pub valid : IsValid q
  pub flight_is : flight q ≡ record { ping = no_ackmsg; waiting = es }

length-entries : (es : List Ackmsg) (q : Ackqueue) → Holds es q → q.count ≡ length es
length-entries es q h =
    sym (length-window no_ackmsg q.size q.ring q.head q.count)
    ∙ ap (λ (f : Flight). length f.waiting) h.flight_is

-- A call that has no error.
abbrev pub Succeeds : List Ackmsg → Outcome (Ackqueue × Option AckError) → Type 0
Succeeds es r = (q : Ackqueue) × (r ≡ ok (q, none)) × Holds es q

call_lem :
    (q : Ackqueue) (r : Outcome (Ackqueue × Option AckError)) (f : Flight × Option AckError)
    (es : List Ackmsg)
    → Refines q r f
    → f ≡ (record { ping = no_ackmsg; waiting = es }, none)
    → Succeeds es r
call_lem q r f es (q', e, k, g) h =
    (q', e ∙ ap (λ z. ok (q', z.1)) h, record { valid = k.valid; flight_is = g ∙ ap (λ z. z.0) h })

module _ (q : Ackqueue) (m : Message) (bytes : List ℕ) where
  -- The first PUBLISH with its identifier.
  pub wait_first :
      Holds [] q
      → m.mtype ≡ publish
      → m.qos ≡ 2
      → m.encoded ≡ written bytes
      → Succeeds (new_entry m 0 bytes ∷ []) (wait q m 0)
  wait_first h t p e =
      call_lem q (wait q m 0) (Spec.wait (flight q) m 0) (new_entry m 0 bytes ∷ [])
        (wait-Refines q m 0 h.valid (omega (arith, length-entries [] q h)))
        (ap (λ f. Spec.wait f m 0) h.flight_is
          ∙ (unfold Spec.wait Spec.join Spec.join_entry locate in ground (arith, t, p, e)))

  -- Another one with an identifier that waits.
  pub wait_again :
      (a : Ackmsg)
      → Holds (a ∷ []) q
      → a.pktid ≡ m.pktid
      → m.mtype ≡ publish
      → m.qos ≡ 2
      → Succeeds (a ∷ []) (wait q m 0)
  wait_again a h k t p =
      call_lem q (wait q m 0) (Spec.wait (flight q) m 0) (a ∷ [])
        (wait-Refines q m 0 h.valid (omega (arith, length-entries (a ∷ []) q h)))
        (ap (λ f. Spec.wait f m 0) h.flight_is
          ∙ (unfold Spec.wait Spec.join locate in ground (arith, t, p, k)))

  -- The release of the entry.
  pub ack_release :
      (a : Ackmsg)
      → Holds (a ∷ []) q
      → a.pktid ≡ m.pktid
      → m.mtype ≡ pubrel
      → m.encoded ≡ written bytes
      → Succeeds (record a { state = pubrel; ackbuf = bytes } ∷ []) (ack q m)
  ack_release a h k t e =
      call_lem q (ack q m) (Spec.ack (flight q) m)
        (record a { state = pubrel; ackbuf = bytes } ∷ []) (ack-Refines q m h.valid)
        (ap (λ f. Spec.ack f m) h.flight_is
          ∙ (unfold Spec.ack Spec.mark locate in ground (arith, t, e, k)))

-- The entry is collected.
pub acked_release :
    (q : Ackqueue) (a : Ackmsg)
    → Holds (a ∷ []) q
    → a.state ≡ pubrel
    → ((acked q).1 ≡ a ∷ []) × Holds [] (acked q).0
acked_release q a h t =
    let c = acked_refines q h.valid in
    let f : Spec.acked (flight q) ≡ (record { ping = no_ackmsg; waiting = [] }, a ∷ []) =
      ap Spec.acked h.flight_is
      ∙ (unfold Spec.acked Spec.finished_front Spec.unfinished_rest in ground (arith, t)) in
    (
      c.done_eq ∙ ap (λ z. z.1) f,
      record { valid = c.valid; flight_is = c.flight_eq ∙ ap (λ z. z.0) f },
    )

-- An acknowledgement that nobody waits for, and a queue with nothing to collect.
pub ack_nothing :
    (q : Ackqueue) (m : Message) → Holds [] q → m.mtype ≡ pubrel → Succeeds [] (ack q m)
ack_nothing q m h t =
    call_lem q (ack q m) (Spec.ack (flight q) m) [] (ack-Refines q m h.valid)
      (ap (λ f. Spec.ack f m) h.flight_is ∙ (unfold Spec.ack locate in ground (arith, t)))

pub acked_nothing : (q : Ackqueue) → Holds [] q → ((acked q).1 ≡ []) × Holds [] (acked q).0
acked_nothing q h =
    let c = acked_refines q h.valid in
    let f : Spec.acked (flight q) ≡ (record { ping = no_ackmsg; waiting = [] }, []) =
      ap Spec.acked h.flight_is
      ∙ (unfold Spec.acked Spec.finished_front Spec.unfinished_rest in ground arith) in
    (
      c.done_eq ∙ ap (λ z. z.1) f,
      record { valid = c.valid; flight_is = c.flight_eq ∙ ap (λ z. z.0) f },
    )
