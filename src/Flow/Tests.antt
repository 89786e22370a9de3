-- ===== src/Flow/Tests.antt =====
-- An exchange of QoS 2 and one of QoS 1, and the theorem at a concrete input.
use simq.Base.{ℕ, ◌≡◌, refl, true, false, List, [], ◌∷◌, none, some, replicate, ok, ◌>>=◌, arith}
use simq.Wire.Codes.{puback, pubrec, pubrel, pubcomp}
use simq.Wire.Codes.{default_flags}
use simq.Wire.Slice.{at, from, sub, copy_len}
use simq.Wire.VarInt.{uvarint, lb_decode}
use simq.Wire.Strings.{read_at, decode_user_property}
use simq.Wire.Header.{
  decode_header, type_of, set_type, flags, read_remaining, check_remaining, with_flags,
  packet_id_of,
}
use simq.Wire.Ack.{new_ack, decode_ack}
use simq.Wire.Publish.{
  PublishMessage, new_publish, decode_publish, decode_publish_rest, optional, bytes_at, integer_at,
  read_id, valid_topic, publish_qos, publish_retain,
}
use simq.AckQueue.{Ackqueue, Message, no_ackmsg, written, failed}
use simq.AckQueue.Invariant.{locate}
use simq.Flow.{
  Env, kept, read_ack, Service, protocol_error, unsupported_qos, process_publish, topic_alias_in,
  by_qos, respond, on_publish,
}
use simq.Flow.Inflight.{Holds}
use simq.Flow.Arrivals.{IsCopy, arrivals}
use simq.Flow.Once.{releases, exactly_once}

abbrev queue : Ackqueue
queue = record {
  size = 2;
  mask = 1;
  count = 0;
  head = 0;
  tail = 0;
  ping = no_ackmsg;
  ring = replicate 2 no_ackmsg;
  emap = λ _. none;
}

queue-Holds : Holds [] queue
unfolding locate
queue-Holds = record {
  valid = record {
    exponent = 1;
    size_eq = refl;
    mask_eq = refl;
    ring_eq = refl;
    head_lt = omega arith;
    count_le = omega arith;
    tail_eq = refl;
    emap_eq = λ id. refl;
    distinct = tt;
  };
  flight_is = refl;
}

-- A PUBLISH of QoS 2 with the topic `a`, the identifier 7 and the payload `h`, as it is sent.
abbrev sent_bytes : List ℕ
sent_bytes = 0x34 ∷ 7 ∷ 0 ∷ 1 ∷ 97 ∷ 0 ∷ 7 ∷ 0 ∷ 104 ∷ []

-- Such a message as it is read, with the flags of its first byte.
abbrev message : ℕ → List ℕ → PublishMessage
message first bytes = record new_publish {
  header = record {
    remlen = 7;
    mtypeflags = first ∷ [];
    packet_id = 0 ∷ 7 ∷ [];
    dbuf = bytes;
    dirty = false;
  };
  topic = 97 ∷ [];
  payload = 104 ∷ [];
}

abbrev first_message : PublishMessage
first_message = message 0x34 sent_bytes

-- The copy has the DUP flag.
abbrev copy : PublishMessage
copy = message 0x3c (0x3c ∷ 7 ∷ 0 ∷ 1 ∷ 97 ∷ 0 ∷ 7 ∷ 0 ∷ 104 ∷ [])

first_message-decoded : decode_publish new_publish (kept sent_bytes) ≡ ok (9, first_message)
unfolding decode_publish decode_publish_rest decode_header type_of flags read_remaining
    check_remaining with_flags default_flags uvarint bytes_at read_at read_id integer_at lb_decode
    optional valid_topic decode_user_property at from sub copy_len
first_message-decoded = refl

abbrev env : Env
env = record {
  max_qos = 2;
  retain_available = true;
  alias_max = 4;
  writes = λ _ _. true;
  delivers = λ _. true;
  encodes = λ m. failed [];
  reads_other = λ _ _. false;
}

-- A PUBREL with the identifier 7.
abbrev release_bytes : List ℕ
release_bytes = 0x62 ∷ 2 ∷ 0 ∷ 7 ∷ []

release_bytes-read : read_ack env pubrel release_bytes ≡ ok true
unfolding read_ack new_ack decode_ack set_type decode_header type_of flags read_remaining
    check_remaining with_flags default_flags uvarint at from sub copy_len
release_bytes-read = refl

abbrev service : Service
service = record {
  pub1ack = queue;
  pub2in = queue;
  pub2out = queue;
  aliases = λ _. none;
  quota = 0;
  sent = [];
  published = [];
  completed = [];
}

abbrev release : Message
release = record {
  mtype = pubrel;
  qos = 1;
  dup = false;
  pktid = 7;
  encoded = written release_bytes;
}

first_message-IsCopy : IsCopy env 7 first_message
unfolding publish_qos publish_retain flags packet_id_of
first_message-IsCopy = record { qos_eq = refl; id_eq = refl; alias_eq = refl; admitted = refl }

copy-IsCopy : IsCopy env 7 copy
unfolding publish_qos publish_retain flags packet_id_of
copy-IsCopy = record { qos_eq = refl; id_eq = refl; alias_eq = refl; admitted = refl }

exactly_once_example :
    (q : Ackqueue) × ((arrivals env 7 service (first_message ∷ copy ∷ []) >>= λ s'.
    releases env 7 s' release 2)
      ≡ ok (record service {
        pub2in = q;
        sent = (pubrec, 7) ∷ (pubrec, 7) ∷ (pubcomp, 7) ∷ (pubcomp, 7) ∷ [];
        published = first_message ∷ [];
      }))
    × Holds [] q
exactly_once_example =
    exactly_once env 7 service first_message (copy ∷ []) release 1 queue-Holds
      (first_message-IsCopy, (copy-IsCopy, tt)) (omega arith) refl refl
      (record { bytes = sent_bytes; count = 9; decoded = first_message-decoded })
      (record {
        acks = release_bytes;
        type_eq = refl;
        id_eq = refl;
        encoded_eq = refl;
        reads_eq = release_bytes-read;
      })

-- QoS 1 is answered and goes on at once, as QoS 0 does without an answer.
abbrev once_message : PublishMessage
once_message = message 0x32 []

process_publish-qos1 :
    process_publish env service once_message
    ≡ ok (record service { sent = (puback, 7) ∷ []; published = once_message ∷ [] }, none)
unfolding process_publish topic_alias_in by_qos respond on_publish publish_qos publish_retain flags
    packet_id_of
process_publish-qos1 = refl

process_publish-qos3 :
    process_publish env service (message 0x36 []) ≡ ok (service, some unsupported_qos)
unfolding process_publish publish_qos publish_retain flags
process_publish-qos3 = refl

-- An alias that is not known.
process_publish-alias :
    process_publish env service (record (message 0x30 []) { topic = []; alias = 3 })
    ≡ ok (service, some protocol_error)
unfolding process_publish topic_alias_in publish_qos publish_retain flags
process_publish-alias = refl
