-- ===== src/Flow/Once.antt =====
-- A PUBLISH of QoS 2 that comes several times and is then released.
use simq.Base.{
  ℕ, zero, suc, ◌≤◌, ◌≡◌, refl, sym, ap, ◌∙◌, true, List, [], ◌∷◌, ◌++◌, Option, none, some, length,
  replicate, append-nil, append_assoc, Outcome, ok, ◌>>=◌, arith, if◌then◌else◌,
}
use simq.Wire.Codes.{pubrec, pubrel, pubcomp}
use simq.AckQueue.{Ackqueue, Message, AckError, written, new_entry, ack, acked}
use simq.Wire.Header.{packet_id_of}
use simq.Wire.Publish.{PublishMessage, new_publish, decode_publish}
use simq.Wire.Publish.Kept.{decode_publish-dbuf}
use simq.Flow.{
  queue_error, Env, Service, Call, as_message, respond, on_publish, settle, encoded, kept, as_read,
  read_publish, read_ack, read_message, process_entry, process_entries, process_pubrel,
}
use simq.Flow.Inflight.{Holds, ack_release, acked_release, ack_nothing, acked_nothing}
use simq.Flow.Arrivals.{AllCopies, arrivals, recorded, respond_lem, arrived_all}

module _ (env : Env) (k : ℕ) where
  -- The entry that is released: its message goes to the subscribers.
  released_lem :
      (s : Service) (m : PublishMessage) (bytes acks : List ℕ)
      → read_publish bytes ≡ ok (some m)
      → read_ack env pubrel acks ≡ ok true
      → process_entries env s
          (record (new_entry (as_message env m) 0 bytes) { state = pubrel; ackbuf = acks } ∷ [])
        ≡ ok (record s { published = s.published ++ (m ∷ []) })
  unfolding process_entries process_entry read_message settle on_publish
  released_lem s m bytes acks r a = ground (arith, r, a)

  -- The part of `PUBREL` behind `Ack`.
  abbrev settled : Service → Message → Ackqueue × Option AckError → Outcome Call
  settled s m (q, some e) = ok (record s { pub2in = q }, some (queue_error e))
  settled s m (q, none) =
      process_entries env (record s { pub2in = (acked q).0 }) (acked q).1 >>= λ s₁.
      ok (respond env s₁ pubcomp m.pktid)

  pubrel-settled :
      (s : Service) (m : Message) (r : Outcome (Ackqueue × Option AckError)) (q : Ackqueue)
      → ack s.pub2in m ≡ ok (q, none)
      → process_pubrel env s m ≡ settled s m (q, none)
  unfolding process_pubrel
  pubrel-settled s m r q e =
      ap
        (λ r. r >>= λ (q, e). elim e [
          | some e ↦ ok (record s { pub2in = q }, some (queue_error e))
          | none ↦
              let (q', done) = acked q in
              process_entries env (record s { pub2in = q' }) done >>= λ s₁.
              ok (respond env s₁ pubcomp m.pktid)
        ])
        e

  -- A PUBLISH as `Decode` returns it.
  pub record IsArrival (m : PublishMessage) : Type 0 where
    pub bytes : List ℕ
    pub count : ℕ
    pub decoded : decode_publish new_publish (kept bytes) ≡ ok (count, m)

  -- A PUBREL with the identifier `k`, that `Decode` reads from the bytes that it encodes to.
  pub record IsRelease (rel : Message) : Type 0 where
    pub acks : List ℕ
    pub type_eq : rel.mtype ≡ pubrel
    pub id_eq : rel.pktid ≡ k
    pub encoded_eq : rel.encoded ≡ written acks
    pub reads_eq : read_ack env pubrel acks ≡ ok true

  -- What arrived goes into the queue as the bytes it was read from, and is read from them again.
  arrival-encoded : (m : PublishMessage) (a : IsArrival m) → encoded env m ≡ written a.bytes
  unfolding encoded
  arrival-encoded m a =
      let (clean, same) = decode_publish-dbuf new_publish m (kept a.bytes) a.count a.decoded in
      ap (λ b. if b then env.encodes m else written m.header.dbuf) clean ∙ ap written same

  arrival-read : (m : PublishMessage) (a : IsArrival m) → read_publish a.bytes ≡ ok (some m)
  unfolding read_publish
  arrival-read m a = ap as_read a.decoded

  release_lem :
      (s : Service) (m : PublishMessage) (rel : Message) (b : IsArrival m) (r : IsRelease rel)
      → env.writes pubcomp k ≡ true
      → packet_id_of m.header ≡ k
      → Holds (new_entry (as_message env m) 0 b.bytes ∷ []) s.pub2in
      → (q : Ackqueue) × (process_pubrel env s rel
          ≡ ok (
            record s {
              pub2in = q;
              sent = s.sent ++ ((pubcomp, k) ∷ []);
              published = s.published ++ (m ∷ []);
            },
            none,
          ))
        × Holds [] q
  release_lem s m rel b r w i h =
      let a = new_entry (as_message env m) 0 b.bytes in
      let (q₁, e, h₁) =
        ack_release s.pub2in rel r.acks a h (i ∙ sym r.id_eq) r.type_eq r.encoded_eq in
      let (done, h') = acked_release q₁ (record a { state = pubrel; ackbuf = r.acks }) h₁ refl in
      let s₁ : Service = record s { pub2in = (acked q₁).0 } in
      let s₂ : Service = record s₁ { published = s.published ++ (m ∷ []) } in
      (
        (acked q₁).0,
        pubrel-settled s rel (ack s.pub2in rel) q₁ e
            ∙ ap (λ es. process_entries env s₁ es >>= λ s₂. ok (respond env s₂ pubcomp rel.pktid))
                done
            ∙ ap (λ o. o >>= λ s₂. ok (respond env s₂ pubcomp rel.pktid))
                (released_lem s₁ m b.bytes r.acks (arrival-read m b) r.reads_eq)
            ∙ ap (λ j. ok (respond env s₂ pubcomp j)) r.id_eq
            ∙ ap ok (respond_lem env k s₂ pubcomp w),
        h',
      )

  -- A PUBREL with nothing to release.
  again_lem :
      (s : Service) (rel : Message)
      → env.writes pubcomp k ≡ true
      → rel.mtype ≡ pubrel
      → rel.pktid ≡ k
      → Holds [] s.pub2in
      → (q : Ackqueue) × (process_pubrel env s rel
          ≡ ok (record s { pub2in = q; sent = s.sent ++ ((pubcomp, k) ∷ []) }, none))
        × Holds [] q
  unfolding process_entries
  again_lem s rel w t i h =
      let (q₁, e, h₁) = ack_nothing s.pub2in rel h t in
      let (done, h') = acked_nothing q₁ h₁ in
      let s₁ : Service = record s { pub2in = (acked q₁).0 } in
      (
        (acked q₁).0,
        pubrel-settled s rel (ack s.pub2in rel) q₁ e
            ∙ ap (λ es. process_entries env s₁ es >>= λ s₂. ok (respond env s₂ pubcomp rel.pktid))
                done
            ∙ ap (λ j. ok (respond env s₁ pubcomp j)) i
            ∙ ap ok (respond_lem env k s₁ pubcomp w),
        h',
      )

  -- The same PUBREL `n` times.
  unfoldable pub releases : Service → Message → ℕ → Outcome Service
  releases s rel zero = ok s
  releases s rel (suc n) = process_pubrel env s rel >>= λ (s', e). releases s' rel n

  abbrev finished : Service → Ackqueue → ℕ → Service
  finished s q n = record s { pub2in = q; sent = s.sent ++ replicate n (pubcomp, k) }

  releases_again :
      (s : Service) (rel : Message) (n : ℕ)
      → env.writes pubcomp k ≡ true
      → rel.mtype ≡ pubrel
      → rel.pktid ≡ k
      → Holds [] s.pub2in
      → (q : Ackqueue) × (releases s rel n ≡ ok (finished s q n)) × Holds [] q
  unfolding releases
  releases_again s rel zero w t i h =
      (s.pub2in, ap (λ xs. ok (record s { sent = xs })) (sym (append-nil s.sent)), h)
  releases_again s rel (suc n) w t i h =
      let (q₁, e, h₁) = again_lem s rel w t i h in
      let (q, f, h') = releases_again (finished s q₁ 1) rel n w t i h₁ in
      (
        q,
        ap (λ r. r >>= λ (s', e). releases s' rel n) e
            ∙ f
            ∙ ap (λ xs. ok (record s { pub2in = q; sent = xs }))
                (append_assoc s.sent ((pubcomp, k) ∷ []) (replicate n (pubcomp, k))),
        h',
      )

  released_all :
      (s : Service) (m : PublishMessage) (rel : Message) (n : ℕ) (b : IsArrival m)
      (r : IsRelease rel)
      → env.writes pubcomp k ≡ true
      → packet_id_of m.header ≡ k
      → Holds (new_entry (as_message env m) 0 b.bytes ∷ []) s.pub2in
      → (q : Ackqueue) × (releases s rel (suc n)
          ≡ ok (record (finished s q (suc n)) { published = s.published ++ (m ∷ []) }))
        × Holds [] q
  unfolding releases
  released_all s m rel n b r w i h =
      let (q₁, e, h₁) = release_lem s m rel b r w i h in
      let s₁ : Service = record (finished s q₁ 1) { published = s.published ++ (m ∷ []) } in
      let (q, f, h') = releases_again s₁ rel n w r.type_eq r.id_eq h₁ in
      (
        q,
        ap (λ r. r >>= λ (s', e). releases s' rel n) e
            ∙ f
            ∙ ap (λ xs. ok (record s₁ { pub2in = q; sent = xs }))
                (append_assoc s.sent ((pubcomp, k) ∷ []) (replicate n (pubcomp, k))),
        h',
      )

  -- A PUBLISH of QoS 2 as `Decode` returns it, without a topic alias and admitted by the configuration,
  -- comes to a queue that is empty; it comes again any number of times, in copies that have its
  -- identifier, QoS 2 and no alias and are admitted too, whatever else they hold; and a PUBREL with its
  -- identifier, which can be read, comes one time or more. If every PUBREC and PUBCOMP with the
  -- identifier is written, each PUBLISH is answered by a PUBREC and each PUBREL by a PUBCOMP, the
  -- message that came first, as it was decoded, goes to the subscribers exactly once, and the queue is
  -- empty again.
  pub exactly_once :
      (s : Service) (m : PublishMessage) (ms : List PublishMessage) (rel : Message) (n : ℕ)
      → Holds [] s.pub2in
      → AllCopies env k (m ∷ ms)
      → 2 ≤ env.max_qos
      → env.writes pubrec k ≡ true
      → env.writes pubcomp k ≡ true
      → IsArrival m
      → IsRelease rel
      → (q : Ackqueue) × ((arrivals env k s (m ∷ ms) >>= λ s'. releases s' rel (suc n))
          ≡ ok (record s {
            pub2in = q;
            sent =
                s.sent
                ++ (replicate (suc (length ms)) (pubrec, k) ++ replicate (suc n) (pubcomp, k));
            published = s.published ++ (m ∷ []);
          }))
        × Holds [] q
  exactly_once s m ms rel n h cs l w w' b r =
      let (q₂, e₂, h₂) = arrived_all env k s m ms b.bytes h cs l w (arrival-encoded m b) in
      let (q, e₃, h₃) =
        released_all (recorded env k s q₂ (suc (length ms))) m rel n b r w' cs.0.id_eq h₂ in
      (
        q,
        ap (λ o. o >>= λ s'. releases s' rel (suc n)) e₂
            ∙ e₃
            ∙ ap
                (λ xs. ok (record s { pub2in = q; sent = xs; published = s.published ++ (m ∷ []) }))
                (append_assoc s.sent (replicate (suc (length ms)) (pubrec, k))
                  (replicate (suc n) (pubcomp, k))),
        h₃,
      )
