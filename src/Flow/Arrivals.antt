-- ===== src/Flow/Arrivals.antt =====
-- A PUBLISH of QoS 2 that comes several times.
use simq.Base.{
  ℕ, suc, ◌≤◌, ◌≡◌, refl, sym, ap, ◌∙◌, true, false, ◌&&◌, not, List, [], ◌∷◌, ◌++◌, none, length,
  replicate, append-nil, append_assoc, Outcome, ok, ◌>>=◌, arith,
}
use simq.Wire.Codes.{pubrec}
use simq.AckQueue.{Ackqueue, Ackmsg, written, new_entry, wait}
use simq.Wire.Header.{packet_id_of}
use simq.Wire.Publish.{PublishMessage, publish_qos, publish_retain}
use simq.Flow.{Env, Service, as_message, respond, topic_alias_in, by_qos, process_publish, encoded}
use simq.Flow.Inflight.{Holds, Succeeds, wait_first, wait_again}

module _ (env : Env) (k : ℕ) where
  -- A PUBLISH of QoS 2 with the identifier `k` and no alias, which the configuration admits.
  pub record IsCopy (m : PublishMessage) : Type 0 where
    pub qos_eq : publish_qos m ≡ 2
    pub id_eq : packet_id_of m.header ≡ k
    pub alias_eq : m.alias ≡ 0
    pub admitted : (publish_retain m && not env.retain_available) ≡ false

  abbrev pub AllCopies : List PublishMessage → Type 0
  AllCopies [] = Unit {0}
  AllCopies (m ∷ ms) = IsCopy m × AllCopies ms

  -- Each is processed on what the last one left.
  unfoldable pub arrivals : Service → List PublishMessage → Outcome Service
  arrivals s [] = ok s
  arrivals s (m ∷ ms) = process_publish env s m >>= λ (s', e). arrivals s' ms

  -- The service with another queue and `n` more PUBRECs.
  abbrev pub recorded : Service → Ackqueue → ℕ → Service
  recorded s q n = record s { pub2in = q; sent = s.sent ++ replicate n (pubrec, k) }

  pub respond_lem :
      (s : Service) (t : ℕ)
      → env.writes t k ≡ true
      → respond env s t k ≡ (record s { sent = s.sent ++ ((t, k) ∷ []) }, none)
  unfolding respond
  respond_lem s t w = ground (arith, w)

  queued_lem :
      (s : Service) (m : PublishMessage)
      → IsCopy m
      → 2 ≤ env.max_qos
      → process_publish env s m ≡ (
          wait s.pub2in (as_message env m) 0 >>= λ (q, e).
          ok (respond env (record s { pub2in = q }) pubrec (packet_id_of m.header)))
  unfolding process_publish topic_alias_in by_qos
  queued_lem s m c l = ground (arith, c.qos_eq, c.alias_eq, c.admitted)

  received_lem :
      (s : Service) (m : PublishMessage) (es : List Ackmsg)
      → IsCopy m
      → 2 ≤ env.max_qos
      → env.writes pubrec k ≡ true
      → Succeeds es (wait s.pub2in (as_message env m) 0)
      → (q : Ackqueue) × (process_publish env s m ≡ ok (recorded s q 1, none)) × Holds es q
  received_lem s m es c l w (q, e, h) = (
    q,
    queued_lem s m c l
        ∙ ap
            (λ r. r >>= λ (q, e).
              ok (respond env (record s { pub2in = q }) pubrec (packet_id_of m.header)))
            e
        ∙ ap (λ i. ok (respond env (record s { pub2in = q }) pubrec i)) c.id_eq
        ∙ ap ok (respond_lem (record s { pub2in = q }) pubrec w),
    h,
  )

  copies_lem :
      (s : Service) (ms : List PublishMessage) (a : Ackmsg)
      → AllCopies ms
      → 2 ≤ env.max_qos
      → env.writes pubrec k ≡ true
      → a.pktid ≡ k
      → Holds (a ∷ []) s.pub2in
      → (q : Ackqueue) × (arrivals s ms ≡ ok (recorded s q (length ms))) × Holds (a ∷ []) q
  unfolding arrivals
  copies_lem s [] a c l w i h =
      (s.pub2in, ap (λ xs. ok (record s { sent = xs })) (sym (append-nil s.sent)), h)
  copies_lem s (m ∷ ms) a (c, cs) l w i h =
      let (q₁, e, h₁) =
        received_lem s m (a ∷ []) c l w
          (wait_again s.pub2in (as_message env m) [] a h (i ∙ sym c.id_eq) refl c.qos_eq) in
      let (q, f, h') = copies_lem (recorded s q₁ 1) ms a cs l w i h₁ in
      (
        q,
        ap (λ r. r >>= λ (s', e). arrivals s' ms) e
            ∙ f
            ∙ ap (λ xs. ok (record s { pub2in = q; sent = xs }))
                (append_assoc s.sent ((pubrec, k) ∷ []) (replicate (length ms) (pubrec, k))),
        h',
      )

  pub arrived_all :
      (s : Service) (m : PublishMessage) (ms : List PublishMessage) (bytes : List ℕ)
      → Holds [] s.pub2in
      → AllCopies (m ∷ ms)
      → 2 ≤ env.max_qos
      → env.writes pubrec k ≡ true
      → encoded env m ≡ written bytes
      → (q : Ackqueue) × (arrivals s (m ∷ ms) ≡ ok (recorded s q (suc (length ms))))
        × Holds (new_entry (as_message env m) 0 bytes ∷ []) q
  unfolding arrivals
  arrived_all s m ms bytes h (c, cs) l w e₀ =
      let a = new_entry (as_message env m) 0 bytes in
      let (q₁, e, h₁) =
        received_lem s m (a ∷ []) c l w
          (wait_first s.pub2in (as_message env m) bytes h refl c.qos_eq e₀) in
      let (q₂, e₂, h₂) = copies_lem (recorded s q₁ 1) ms a cs l w c.id_eq h₁ in
      (
        q₂,
        ap (λ o. o >>= λ (s', e). arrivals s' ms) e
            ∙ e₂
            ∙ ap (λ xs. ok (record s { pub2in = q₂; sent = xs }))
                (append_assoc s.sent ((pubrec, k) ∷ []) (replicate (length ms) (pubrec, k))),
        h₂,
      )
