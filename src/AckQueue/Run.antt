-- ===== src/AckQueue/Run.antt =====
-- An `ackqueue` under any list of calls of a client.
use simq.Base.{
  ℕ, ◌+◌, ◌-◌, ◌^◌, ◌≤◌, ◌≡◌, ◌≢◌, refl, sym, subst, ap, ap₂, ◌∙◌, true, List, [], ◌∷◌, ◌++◌,
  bit_and, replicate, length-replicate, none, some, length, arith, Outcome, ok, ◌>>=◌, inl, inr,
  Bool-cases,
}
use native.Mathlib.Nat.{mod_self}
use simq.Base.Bits.{and_mask, pow_pos}
use simq.Wire.Codes.{publish, pingresp}
use simq.AckQueue.{
  finished, Ackmsg, no_ackmsg, Ackqueue, Message, wait, ack, acked, new_mem_ack_queue,
  power_of_two64,
}
use simq.AckQueue.Invariant.{entries, locate, IsValid}
use simq.AckQueue.Join.{flight, Kept, most}
use simq.AckQueue.Refine.{wait-Refines, ack-Refines}
use simq.AckQueue.Acked.{acked_refines}
use simq.AckQueue.Spec
use simq.AckQueue.Spec.{Flight, Op, do_wait, do_ack, do_acked, Reply, returned, completed}

-- The calls in turn, each on the queue that the last one left.
unfoldable pub step : Ackqueue → Op → Outcome (Ackqueue × Reply)
step q (do_wait m cb) = wait q m cb >>= λ (q', e). ok (q', returned e)
step q (do_ack m) = ack q m >>= λ (q', e). ok (q', returned e)
step q do_acked = let (q', done) = acked q in ok (q', completed done)

unfoldable pub run : Ackqueue → List Op → Outcome (List Reply)
run q [] = ok []
run q (op ∷ ops) = do (q', r) ← step q op; rs ← run q' ops; ok (r ∷ rs)

-- One call: the next flight and the reply of the specification.
abbrev Steps : Ackqueue → Op → Type 0
Steps q op =
    (q' : Ackqueue) × (step q op ≡ ok (q', (Spec.step (flight q) op).1))
    × Kept q q'
    × (flight q' ≡ (Spec.step (flight q) op).0)

step_refines : (q : Ackqueue) (op : Op) → IsValid q → q.count ≤ most → Steps q op
unfolding step Spec.step
step_refines q (do_wait m cb) v h =
    let (q', e, k, f) = wait-Refines q m cb v h in (q', rw e refl, k, f)
step_refines q (do_ack m) v h = let (q', e, k, f) = ack-Refines q m v in (q', rw e refl, k, f)
step_refines q do_acked v h =
    let c = acked_refines q v in
    (
      (acked q).0,
      ap (λ done. ok ((acked q).0, completed done)) c.done_eq,
      record { valid = c.valid; at_most = omega (arith, c.at_most) },
      c.flight_eq,
    )

-- On a valid queue whose entries and the calls are together at most `most`, the list of calls does
-- not panic, and returns what the specification returns.
pub run_refines :
    (q : Ackqueue) (ops : List Op)
    → IsValid q
    → q.count + length ops ≤ most
    → run q ops ≡ ok (Spec.run (flight q) ops)
unfolding run Spec.run
run_refines q [] v h = refl
run_refines q (op ∷ ops) v h =
    let (q', e, k, f) = step_refines q op v (omega arith) in
    let rest = run_refines q' ops k.valid (omega (arith, k.at_most)) in rw (e, rest, f) refl

fresh : ℕ → Ackqueue
fresh m = record {
  size = m;
  mask = m - 1;
  count = 0;
  head = 0;
  tail = 0;
  ping = no_ackmsg;
  ring = replicate m no_ackmsg;
  emap = λ _. none;
}

power_of_two64_pow : (k : ℕ) → power_of_two64 (2 ^ k) ≡ true
unfolding power_of_two64
power_of_two64_pow k =
    let r : bit_and (2 ^ k) (2 ^ k - 1) ≡ 0 = and_mask k (2 ^ k) ∙ mod_self (2 ^ k) in
    ground (arith, r, pow_pos k)

new_mem_ack_queue-fresh : (k : ℕ) → new_mem_ack_queue (2 ^ k) ≡ fresh (2 ^ k)
unfolding new_mem_ack_queue fresh
new_mem_ack_queue-fresh k = rw (power_of_two64_pow k) refl

fresh-IsValid : (k : ℕ) → IsValid (fresh (2 ^ k)) × (entries (fresh (2 ^ k)) ≡ [])
unfolding fresh locate
fresh-IsValid k = (
  record {
    exponent = k;
    size_eq = refl;
    mask_eq = refl;
    ring_eq = length-replicate (2 ^ k) no_ackmsg;
    head_lt = pow_pos k;
    count_le = omega arith;
    tail_eq = omega (arith, pow_pos k);
    emap_eq = λ id. refl;
    distinct = tt;
  },
  refl,
)

-- `newMemAckQueue` of a power of two is valid and empty.
pub new_mem_ack_queue-IsValid :
    (k : ℕ) → IsValid (new_mem_ack_queue (2 ^ k)) × (entries (new_mem_ack_queue (2 ^ k)) ≡ [])
new_mem_ack_queue-IsValid k =
    subst (λ q. IsValid q × (entries q ≡ [])) (sym (new_mem_ack_queue-fresh k)) (fresh-IsValid k)

join-duplicate :
    (es : List Ackmsg) (m : Message) (cb j : ℕ)
    → locate m.pktid es ≡ some j
    → Spec.join es m cb ≡ es
unfolding Spec.join
join-duplicate es m cb j l = ground (arith, l)

wait-publish :
    (f : Flight) (m : Message) (cb : ℕ)
    → m.mtype ≡ publish
    → m.qos ≢ 0
    → Spec.wait f m cb ≡ (record f { waiting = Spec.join f.waiting m cb }, none)
unfolding Spec.wait
wait-publish f m cb t z = ground arith

-- `Wait` on a valid queue of at most `most` entries returns nil for a PUBLISH of QoS 1 or 2 whose
-- identifier waits already, whatever its DUP flag says, and leaves the packets that wait as they are.
pub wait_duplicate :
    (q : Ackqueue) (m : Message) (cb j : ℕ)
    → IsValid q
    → q.count ≤ most
    → m.mtype ≡ publish
    → m.qos ≢ 0
    → locate m.pktid (entries q) ≡ some j
    → (q' : Ackqueue) × (wait q m cb ≡ ok (q', none)) × (flight q' ≡ flight q)
wait_duplicate q m cb j v h t z l =
    let (q', e, k, f) = wait-Refines q m cb v h in
    let s = wait-publish (flight q) m cb t z in
    (
      q',
      e ∙ ap (λ r. ok (q', r.1)) s,
      f
          ∙ ap (λ r. r.0) s
          ∙ ap (λ es. record (flight q) { waiting = es }) (join-duplicate (entries q) m cb j l),
    )

split_lem : (es : List Ackmsg) → Spec.finished_front es ++ Spec.unfinished_rest es ≡ es
unfolding Spec.finished_front Spec.unfinished_rest
split_lem [] = refl
split_lem (e ∷ es) = elim (Bool-cases (finished e.state)) [
  | inl f ↦ rw f (ap (λ xs. e ∷ xs) (split_lem es))
  | inr f ↦ rw f refl
]

acked-idle :
    (f : Flight)
    → f.ping.state ≢ pingresp
    → Spec.acked f
      ≡ (record f { waiting = Spec.unfinished_rest f.waiting }, Spec.finished_front f.waiting)
unfolding Spec.acked
acked-idle f h = ground arith

-- On a valid queue without an answered ping `Acked` loses nothing: what it returns and what still
-- waits are, in order, the packets that waited.
pub acked-keeps :
    (q : Ackqueue)
    → IsValid q
    → q.ping.state ≢ pingresp
    → (acked q).1 ++ entries (acked q).0 ≡ entries q
acked-keeps q v h =
    let c = acked_refines q v in
    let s = acked-idle (flight q) h in
    ap₂ ◌++◌ (c.done_eq ∙ ap (λ r. r.1) s)
      (ap (λ (f : Flight). f.waiting) (c.flight_eq ∙ ap (λ r. r.0) s))
    ∙ split_lem (entries q)
