-- ===== src/Flow.antt =====
-- The exchange of PUBLISH and its acknowledgements: `processIncoming`, `processPublish`,
-- `processAcked` and `topicAliceIn` of corev5/v2/service/process.go.
pub mod Inflight
pub mod Arrivals
pub mod Once
pub mod Subscriptions
mod Tests
use simq.Base.{
  ℕ, ◌+◌, Bool, true, false, ◌&&◌, ◌||◌, not, List, [], ◌∷◌, ◌++◌, Option, none, some, ltb, ◌==◌,
  length, if◌then◌else◌, Outcome, ok, err, panic, stuck, ◌>>=◌,
}
use simq.Wire.Codes.{
  publish, puback, pubrec, pubrel, pubcomp, suback, unsuback, pingreq, pingresp, valid_type,
}
use simq.Wire.Header.{packet_id_of}
use simq.Wire.Slice.{Slice}
use simq.Wire.Publish.{
  PublishMessage, new_publish, decode_publish, publish_qos, publish_dup, publish_retain, set_topic,
  set_topic_alias,
}
use simq.Wire.Codes.{
  valid_puback_reason_code, valid_pubrec_reason_code, valid_pubrel_reason_code,
  valid_pubcomp_reason_code,
}
use simq.Wire.Ack.{new_ack, decode_ack}
use simq.AckQueue.{Ackqueue, Ackmsg, AckError, Encoded, written, Message, wait, ack, acked}

-- The reason codes of the errors, and an error of the queue as it is.
pub data Reason : Type 0 where
  unsupported_qos unsupported_retention protocol_error unspecified : Reason
  queue_error : AckError → Reason

-- What lies outside: the configuration, the client's largest alias, whether a response is written,
-- whether a message is delivered, what `Encode` makes of a PUBLISH that was changed since it was read,
-- and whether `Decode` reads the bytes of a packet that is no PUBLISH and none of its four
-- acknowledgements.
pub record Env : Type 0 where
  pub max_qos : ℕ
  pub retain_available : Bool
  pub alias_max : ℕ
  pub writes : ℕ → ℕ → Bool
  pub delivers : PublishMessage → Bool
  pub encodes : PublishMessage → Encoded
  pub reads_other : ℕ → List ℕ → Bool

-- The part of a `service` and its session that changes. A response that is sent is its type and its
-- identifier.
pub record Service : Type 0 where
  pub pub1ack : Ackqueue
  pub pub2in : Ackqueue
  pub pub2out : Ackqueue
  pub aliases : ℕ → Option (List ℕ)
  pub quota : ℕ
  pub sent : List (ℕ × ℕ)
  pub published : List PublishMessage
  pub completed : List ℕ

abbrev pub Call : Type 0
Call = Service × Option Reason

-- A message that `Decode` has read; an error does not stop the caller, a panic does.
abbrev pub as_read : {A : Type 0} → Outcome (ℕ × A) → Outcome (Option A)
as_read (ok (n, a)) = ok (some a)
as_read (err e) = ok none
as_read panic = panic
as_read stuck = stuck

abbrev pub is_read : {A : Type 0} → Option A → Bool
is_read none = false
is_read (some a) = true

-- The bytes in an entry of the queue, as `Decode` gets them.
abbrev pub kept : List ℕ → Slice
kept bytes = record { bytes = bytes; spare = [] }

unfoldable pub read_publish : List ℕ → Outcome (Option PublishMessage)
read_publish bytes = as_read (decode_publish new_publish (kept bytes))

-- The reason codes of a type of acknowledgement.
unfoldable pub valid_code : ℕ → ℕ → Bool
valid_code t c =
    if t == puback
    then valid_puback_reason_code c
    else (if t == pubrec
        then valid_pubrec_reason_code c
        else (if t == pubrel then valid_pubrel_reason_code c else valid_pubcomp_reason_code c))

module _ (env : Env) where
  -- `Encode` into a buffer of `Len` bytes: of a message that is not dirty, the bytes it was read from.
  unfoldable pub encoded : PublishMessage → Encoded
  encoded m = if m.header.dirty then env.encodes m else written m.header.dbuf

  -- The PUBLISH as the queue sees it.
  abbrev pub as_message : PublishMessage → Message
  as_message m = record {
    mtype = publish;
    qos = publish_qos m;
    dup = publish_dup m;
    pktid = packet_id_of m.header;
    encoded = encoded m;
  }

  -- `writeMessage` of a new response.
  unfoldable pub respond : Service → ℕ → ℕ → Call
  respond s t id =
      if env.writes t id
      then (record s { sent = s.sent ++ ((t, id) ∷ []) }, none)
      else (s, some unspecified)

  -- `onPublish` is outside: the message that it is handed is noted.
  unfoldable pub on_publish : Service → PublishMessage → Call
  on_publish s m = (
    record s { published = s.published ++ (m ∷ []) },
    if env.delivers m then none else some unspecified,
  )

  -- `topicAliceIn`: the session, and the message or an error. The third test cannot fail.
  unfoldable pub topic_alias_in :
      Service → PublishMessage → Service × (PublishMessage × Option Reason)
  topic_alias_in s m =
      if ltb 0 m.alias && (length m.topic == 0)
      then elim (s.aliases m.alias) [
        | some t ↦ (s, (set_topic m t, none))
        | none ↦ (s, (m, some protocol_error))
      ]
      else (if ltb env.alias_max m.alias
          then (s, (m, some protocol_error))
          else (if ltb 0 m.alias
              then (
                record s { aliases = λ a. if a == m.alias then some m.topic else s.aliases a },
                (set_topic_alias m 0, none),
              )
              else (s, (m, none))))

  -- The switch of `processPublish` on the QoS.
  unfoldable pub by_qos : Service → PublishMessage → Outcome Call
  by_qos s m =
      let id = packet_id_of m.header in
      let answered = respond s puback id in
      if publish_qos m == 2
      then (wait s.pub2in (as_message m) 0 >>= λ (q, e).
          ok (respond (record s { pub2in = q }) pubrec id))
      else (if publish_qos m == 1
          then (elim answered.1 [
            | some e ↦ ok (answered.0, some e)
            | none ↦ ok (on_publish answered.0 m)
          ])
          else (if publish_qos m == 0 then ok (on_publish s m) else ok (s, some unsupported_qos)))

  -- `processPublish`.
  unfoldable pub process_publish : Service → PublishMessage → Outcome Call
  process_publish s m =
      if ltb env.max_qos (publish_qos m)
      then ok (s, some unsupported_qos)
      else (if publish_retain m && not env.retain_available
          then ok (s, some unsupported_retention)
          else (let (s', (m', e)) = topic_alias_in s m in
              elim e [ some r ↦ ok (s', some r) | none ↦ by_qos s' m' ]))

  -- The switch of `processAcked` on the state, for an entry whose bytes are read; the callback is
  -- called but for a state that is no acknowledgement.
  unfoldable pub settle : Service → Ackmsg → Option PublishMessage → Outcome Service
  settle s a read =
      let called = λ (s' : Service).
        if a.on_complete == 0
        then s'
        else record s' { completed = s'.completed ++ (a.on_complete ∷ []) } in
      if a.state == pubrel
      then elim read [ some m ↦ ok (called (on_publish s m).0) | none ↦ panic ]
      else (if a.state == puback
            || (a.state == pubcomp || (a.state == suback || a.state == unsuback))
          then ok (called s)
          else ok s)

  -- `Decode` of a packet that is no PUBLISH.
  unfoldable pub read_ack : ℕ → List ℕ → Outcome Bool
  read_ack t bytes =
      if t == puback || (t == pubrec || (t == pubrel || t == pubcomp))
      then (as_read (new_ack t >>= λ p. decode_ack (valid_code t) p (kept bytes)) >>= λ o.
          ok (is_read o))
      else ok (env.reads_other t bytes)

  -- The message of an entry, if it is a PUBLISH, and whether it is read.
  unfoldable pub read_message : Ackmsg → Outcome (Option PublishMessage × Bool)
  read_message a =
      if a.mtype == publish
      then (read_publish a.msgbuf >>= λ o. ok (o, is_read o))
      else (if a.mtype == pingreq
          then ok (none, true)
          else (read_ack a.mtype a.msgbuf >>= λ b. ok (none, b)))

  -- A round of the loop of `processAcked`. An entry that cannot be read is skipped; one that is
  -- released and no PUBLISH makes the type assertion panic.
  unfoldable pub process_entry : Service → Ackmsg → Outcome Service
  process_entry s a =
      if not (valid_type a.mtype)
      then ok s
      else (read_message a >>= λ (read, readable).
          if not readable || (not (valid_type a.state) || a.state == pingresp)
          then ok s
          else (read_ack a.state a.ackbuf >>= λ b. if b then settle s a read else ok s))

  unfoldable pub process_entries : Service → List Ackmsg → Outcome Service
  process_entries s [] = ok s
  process_entries s (a ∷ rest) = process_entry s a >>= λ s'. process_entries s' rest

  -- The acknowledgements in `processIncoming`: the queue that takes them, by the type.
  unfoldable pub process_puback : Service → Message → Outcome Call
  process_puback s m =
      let s₁ : Service = record s { quota = s.quota + 1 } in
      ack s₁.pub1ack m >>= λ (q, e). elim e [
        | some _ ↦ ok (record s₁ { pub1ack = q }, some unspecified)
        | none ↦
            let (q', done) = acked q in
            process_entries (record s₁ { pub1ack = q' }) done >>= λ s₂. ok (s₂, none)
      ]

  unfoldable pub process_pubrec : Service → Message → ℕ → Outcome Call
  process_pubrec s m code =
      let s₁ : Service = if ltb 128 code then record s { quota = s.quota + 1 } else s in
      ack s₁.pub2out m >>= λ (q, e). elim e [
        | some _ ↦ ok (record s₁ { pub2out = q }, some unspecified)
        | none ↦ ok (respond (record s₁ { pub2out = q }) pubrel m.pktid)
      ]

  unfoldable pub process_pubrel : Service → Message → Outcome Call
  process_pubrel s m = ack s.pub2in m >>= λ (q, e). elim e [
    | some e ↦ ok (record s { pub2in = q }, some (queue_error e))
    | none ↦
        let (q', done) = acked q in
        process_entries (record s { pub2in = q' }) done >>= λ s₁. ok (respond s₁ pubcomp m.pktid)
  ]

  unfoldable pub process_pubcomp : Service → Message → Outcome Call
  process_pubcomp s m =
      let s₁ : Service = record s { quota = s.quota + 1 } in
      ack s₁.pub2out m >>= λ (q, e). elim e [
        | some _ ↦ ok (record s₁ { pub2out = q }, some unspecified)
        | none ↦
            let (q', done) = acked q in
            process_entries (record s₁ { pub2out = q' }) done >>= λ s₂. ok (s₂, none)
      ]
