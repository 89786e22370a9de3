-- ===== src/AckQueue/Acked.antt =====
-- `Acked`, whose loop takes the finished entries off the ring, and a queue under a list of calls.
use simq.Base.{
  ℕ, zero, suc, ◌+◌, ◌%◌, ◌≤◌, ◌≡◌, refl, sym, subst, ap, ◌∙◌, true, false, List, [], ◌∷◌, ◌++◌,
  ◌==◌, length, get_or, if◌then◌else◌, arith, append-nil, append_assoc, inl, inr, Bool-cases,
}
use simq.Wire.Codes.{pingresp}
use simq.AckQueue.{Ackmsg, no_ackmsg, Ackqueue, finished, acked_loop, acked}
use simq.Base.Window.{length-window}
use simq.AckQueue.Invariant.{entries, IsValid}
use simq.AckQueue.Insert.{popped, popped-IsValid, remove_head-popped}
use simq.AckQueue.Join.{flight, flight_eq}
use simq.AckQueue.Refine.{ping-IsValid}
use simq.AckQueue.Spec
use simq.AckQueue.Spec.{
  Flight, Op, do_wait, do_ack, do_acked, Reply, returned, completed, finished_front,
  unfinished_rest,
}

-- The loop has taken off what is finished at the front, and returned it behind `done`.
record Drained (q : Ackqueue) (done : List Ackmsg) (r : Ackqueue × List Ackmsg) : Type 0 where
  pub valid : IsValid r.0
  pub at_most : r.0.count ≤ q.count
  pub ping_eq : r.0.ping ≡ q.ping
  pub rest_eq : entries r.0 ≡ unfinished_rest (entries q)
  pub done_eq : r.1 ≡ done ++ finished_front (entries q)

no_entries : (q : Ackqueue) → q.count ≡ 0 → entries q ≡ []
no_entries q e = no_items (entries q) (length-window no_ackmsg q.size q.ring q.head q.count ∙ e)
  where
    no_items : (xs : List Ackmsg) → length xs ≡ 0 → xs ≡ []
    no_items [] h = refl
    no_items (x ∷ xs) h = absurd (omega (arith, h))

acked_loop-empty :
    (fuel : ℕ) (q : Ackqueue) (done : List Ackmsg)
    → q.count ≡ 0
    → acked_loop fuel q done ≡ (q, done)
unfolding acked_loop
acked_loop-empty zero q done e = refl
acked_loop-empty (suc fuel) q done e = ground arith

Drained-empty :
    (q : Ackqueue) (done : List Ackmsg) → IsValid q → q.count ≡ 0 → Drained q done (q, done)
unfolding finished_front unfinished_rest
Drained-empty q done v e = record {
  valid = v;
  at_most = omega arith;
  ping_eq = refl;
  rest_eq = rw (no_entries q e) refl;
  done_eq = rw (no_entries q e) (sym (append-nil done));
}

front_lem :
    (es rest : List Ackmsg) (a : Ackmsg)
    → es ≡ a ∷ rest
    → finished a.state ≡ true
    → (finished_front es ≡ a ∷ finished_front rest) × (unfinished_rest es ≡ unfinished_rest rest)
unfolding finished_front unfinished_rest
front_lem es rest a e f = rw e (ground arith, ground arith)

front-stop :
    (es rest : List Ackmsg) (a : Ackmsg)
    → es ≡ a ∷ rest
    → finished a.state ≡ false
    → (finished_front es ≡ []) × (unfinished_rest es ≡ es)
unfolding finished_front unfinished_rest
front-stop es rest a e f = rw e (ground arith, ground arith)

acked_loop-go :
    (n : ℕ) (q : Ackqueue) (done : List Ackmsg)
    → IsValid q
    → q.count ≡ suc n
    → finished (get_or q.ring q.head no_ackmsg).state ≡ true
    → acked_loop (suc n) q done
      ≡ acked_loop n
          (popped q ((q.head + 1) % q.size))
          (done ++ (get_or q.ring q.head no_ackmsg ∷ []))
unfolding acked_loop
acked_loop-go n q done v e f =
    let r = remove_head-popped q v (omega (arith, e)) in ground (arith, f, r)

acked_loop-stop :
    (n : ℕ) (q : Ackqueue) (done : List Ackmsg)
    → q.count ≡ suc n
    → finished (get_or q.ring q.head no_ackmsg).state ≡ false
    → acked_loop (suc n) q done ≡ (q, done)
unfolding acked_loop
acked_loop-stop n q done e f = ground (arith, f)

-- `count` rounds are enough for the loop.
acked_loop_lem :
    (n : ℕ) (q : Ackqueue) (done : List Ackmsg)
    → IsValid q
    → q.count ≡ n
    → Drained q done (acked_loop n q done)
acked_loop_lem zero q done v e =
    subst (Drained q done) (sym (acked_loop-empty 0 q done e)) (Drained-empty q done v e)
acked_loop_lem (suc n) q done v e =
    let a = get_or q.ring q.head no_ackmsg in
    let q₁ = popped q ((q.head + 1) % q.size) in
    let (v₁, es) = popped-IsValid q v (omega (arith, e)) in
    elim (Bool-cases (finished a.state)) [
      | inl f ↦
          let d = acked_loop_lem n q₁ (done ++ (a ∷ [])) v₁ (omega (arith, e)) in
          let (front, rest) = front_lem (entries q) (entries q₁) a es f in
          subst (Drained q done) (sym (acked_loop-go n q done v e f)) (record {
            valid = d.valid;
            at_most = omega (arith, d.at_most);
            ping_eq = d.ping_eq;
            rest_eq = d.rest_eq ∙ sym rest;
            done_eq =
                d.done_eq
                ∙ append_assoc done (a ∷ []) (finished_front (entries q₁))
                ∙ ap (λ xs. done ++ xs) (sym front);
          })
      | inr f ↦
          let (front, rest) = front-stop (entries q) (entries q₁) a es f in
          subst (Drained q done) (sym (acked_loop-stop n q done e f)) (record {
            valid = v;
            at_most = omega arith;
            ping_eq = refl;
            rest_eq = sym rest;
            done_eq = sym (append-nil done) ∙ ap (λ xs. done ++ xs) (sym front);
          })
    ]

-- The queue after `Acked`, and what was returned.
pub record Collected (q : Ackqueue) (r : Ackqueue × List Ackmsg) : Type 0 where
  pub valid : IsValid r.0
  pub at_most : r.0.count ≤ q.count
  pub flight_eq : flight r.0 ≡ (Spec.acked (flight q)).0
  pub done_eq : r.1 ≡ (Spec.acked (flight q)).1

collected_lem :
    (q q₀ : Ackqueue) (done : List Ackmsg) (r : Ackqueue × List Ackmsg)
    → Drained q₀ done r
    → q₀.count ≤ q.count
    → Spec.acked (flight q) ≡ (
      record { ping = q₀.ping; waiting = unfinished_rest (entries q₀) },
      done ++ finished_front (entries q₀),
    )
    → Collected q r
collected_lem q q₀ done r d h e = record {
  valid = d.valid;
  at_most = omega (arith, d.at_most);
  flight_eq =
      flight_eq r.0 q₀.ping (unfinished_rest (entries q₀)) d.ping_eq d.rest_eq
      ∙ sym (ap (λ x. x.0) e);
  done_eq = d.done_eq ∙ sym (ap (λ x. x.1) e);
}

-- `Acked` on a valid queue leaves a valid queue, and takes off and returns what the specification
-- says.
pub acked_refines : (q : Ackqueue) → IsValid q → Collected q (acked q)
unfolding acked Spec.acked
acked_refines q v = elim (Bool-cases (q.ping.state == pingresp)) [
  | inl p ↦
      let q₀ : Ackqueue = record q { ping = no_ackmsg } in
      let d = acked_loop_lem q.count q₀ (q.ping ∷ []) (ping-IsValid q no_ackmsg v) refl in
      let c = collected_lem q q₀ (q.ping ∷ []) _ d (omega arith) (rw p refl) in
      subst (Collected q)
        (sym (
          ap
            (λ b.
              if b
              then acked_loop q.count (record q { ping = no_ackmsg }) (q.ping ∷ [])
              else acked_loop q.count q [])
            p))
        c
  | inr p ↦
      let d = acked_loop_lem q.count q [] v refl in
      let c = collected_lem q q [] _ d (omega arith) (rw p refl) in
      subst (Collected q)
        (sym (
          ap
            (λ b.
              if b
              then acked_loop q.count (record q { ping = no_ackmsg }) (q.ping ∷ [])
              else acked_loop q.count q [])
            p))
        c
]
