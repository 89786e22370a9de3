-- ===== src/AckQueue.antt =====
-- `ackqueue` of corev5/v2/sessions/impl/mem_ackqueue.go: the packets that wait for an
-- acknowledgement, in a ring that grows, with a map from packet identifiers to slots.
pub mod Invariant
pub mod Grow
pub mod Insert
pub mod Spec
pub mod Join
pub mod Refine
pub mod Acked
pub mod Run
mod Tests
use simq.Base.{
  ℕ, zero, suc, ◌+◌, ◌-◌, ◌*◌, ◌/◌, ◌^◌, bit_and, bit_or, Bool, true, false, ◌&&◌, ◌||◌, not, List,
  [], ◌∷◌, ◌++◌, Option, none, some, ltb, ◌==◌, length, get_or, set, take, drop, replicate,
  if◌then◌else◌, Outcome, ok, err, panic, stuck, ◌>>=◌,
}
use simq.Wire.Codes.{
  reserved, publish, puback, pubrec, pubrel, pubcomp, subscribe, suback, unsubscribe, unsuback,
  pingreq, pingresp, one_of,
}

-- What `Encode` into a buffer of `Len` bytes does: the bytes, or an error and the buffer as it is
-- left.
pub data Encoded : Type 0 where
  written : List ℕ → Encoded
  failed : List ℕ → Encoded

-- What the queue asks of a `Message`. The Go type of a message is that of its `Type`, which
-- `New…Message` has set.
pub record Message : Type 0 where
  pub mtype : ℕ
  pub qos : ℕ
  pub dup : Bool
  pub pktid : ℕ
  pub encoded : Encoded

-- `sessions.Ackmsg`; `on_complete` is the identity of the callback, 0 for nil.
pub record Ackmsg : Type 0 where
  pub mtype : ℕ
  pub state : ℕ
  pub pktid : ℕ
  pub msgbuf : List ℕ
  pub ackbuf : List ℕ
  pub on_complete : ℕ

abbrev pub no_ackmsg : Ackmsg
no_ackmsg = record { mtype = 0; state = 0; pktid = 0; msgbuf = []; ackbuf = []; on_complete = 0 }

pub data AckError : Type 0 where
  wait_message ack_message queue_empty duplicate_id encode_failed : AckError

-- A call leaves the queue and returns an error or nil.
abbrev pub Result : Type 0 → Type 0
Result Q = Q × Option AckError

abbrev pub IdMap : Type 0
IdMap = ℕ → Option ℕ

abbrev pub update : IdMap → ℕ → Option ℕ → IdMap
update m k v = λ j. if j == k then v else m j

-- The mutex is left out: each operation holds it from start to end.
pub record Ackqueue : Type 0 where
  pub size : ℕ
  pub mask : ℕ
  pub count : ℕ
  pub head : ℕ
  pub tail : ℕ
  pub ping : Ackmsg
  pub ring : List Ackmsg
  pub emap : IdMap

-- `powerOfTwo64`.
unfoldable pub power_of_two64 : ℕ → Bool
power_of_two64 n = not (n == 0) && bit_and n (n - 1) == 0

abbrev smear : ℕ → ℕ → ℕ
smear n k = bit_or n (n / 2 ^ k)

-- `roundUpPowerOfTwo64` up to 2^62. On 0 the `int64` is -1 throughout, and the result 0.
unfoldable pub round_up_power_of_two64 : ℕ → ℕ
round_up_power_of_two64 n =
    if n == 0 then 0 else smear (smear (smear (smear (smear (smear (n - 1) 1) 2) 4) 8) 16) 32 + 1

-- `newMemAckQueue`.
unfoldable pub new_mem_ack_queue : ℕ → Ackqueue
new_mem_ack_queue n =
    let m = if power_of_two64 n then n else round_up_power_of_two64 n in
    record {
      size = m;
      mask = m - 1;
      count = 0;
      head = 0;
      tail = 0;
      ping = no_ackmsg;
      ring = replicate m no_ackmsg;
      emap = λ _. none;
    }

-- `index`, `increment`, `full` and `empty`.
unfoldable pub index : Ackqueue → ℕ → ℕ
index q n = bit_and n q.mask

abbrev pub increment : Ackqueue → ℕ → ℕ
increment q n = index q (n + 1)

abbrev pub full : Ackqueue → Bool
full q = q.count == q.size

abbrev pub empty : Ackqueue → Bool
empty q = q.count == 0

-- The loop of `grow` that fills `emap` anew: `ring[i:tail]` is the list.
unfoldable pub index_ids : List Ackmsg → ℕ → IdMap → IdMap
index_ids [] i m = m
index_ids (a ∷ rest) i m = index_ids rest (i + 1) (update m a.pktid (some i))

-- What `grow` copies to the front of the new ring.
unfoldable pub copied : Ackqueue → List Ackmsg
copied q =
    if ltb q.head q.tail
    then take (q.tail - q.head) (drop q.head q.ring)
    else drop q.head q.ring ++ take q.tail q.ring

-- `grow`.
unfoldable pub grow : Ackqueue → Outcome Ackqueue
unfolding copied index_ids
grow q =
    let newsize = q.size * 2 in
    let newring = copied q ++ replicate (newsize - length (copied q)) no_ackmsg in
    if ltb ((2 ^ 63 - 1) / 2) q.size
    then panic
    else ok (record q {
      size = newsize;
      mask = newsize - 1;
      ring = newring;
      head = 0;
      tail = q.count;
      emap = index_ids (take q.count newring) 0 (λ _. none);
    })

-- The entry that `insert` stores.
abbrev pub new_entry : Message → ℕ → List ℕ → Ackmsg
new_entry m cb bytes = record {
  mtype = m.mtype;
  state = reserved;
  pktid = m.pktid;
  msgbuf = bytes;
  ackbuf = [];
  on_complete = cb;
}

-- `insert` behind the growing: a message with a new identifier goes to the tail.
unfoldable pub place : Ackqueue → Message → ℕ → Encoded → Outcome (Result Ackqueue)
unfolding index
place q m cb (failed _) = ok (q, some encode_failed)
place q m cb (written bytes) =
    if ltb q.tail (length q.ring)
    then ok (
      record q {
        ring = set q.ring q.tail (new_entry m cb bytes);
        emap = update q.emap m.pktid (some q.tail);
        tail = increment q q.tail;
        count = q.count + 1;
      },
      none,
    )
    else panic

-- A message whose identifier is there already.
unfoldable pub repeat : Ackqueue → Message → Outcome (Result Ackqueue)
repeat q m =
    if m.mtype == publish
    then (if m.dup then ok (q, some duplicate_id) else ok (q, none))
    else ok (q, some duplicate_id)

unfoldable pub add_entry : Ackqueue → Message → ℕ → Outcome (Result Ackqueue)
add_entry q m cb = elim (q.emap m.pktid) [ none ↦ place q m cb m.encoded | some i ↦ repeat q m ]

-- `insert`.
unfoldable pub insert : Ackqueue → Message → ℕ → Outcome (Result Ackqueue)
insert q m cb = if full q then (grow q >>= λ q'. add_entry q' m cb) else add_entry q m cb

-- `Wait`, which drops the error of `insert`.
unfoldable pub wait : Ackqueue → Message → ℕ → Outcome (Result Ackqueue)
wait q m cb =
    let inserted = insert q m cb >>= λ (q', _). ok (q', none) in
    if m.mtype == publish
    then (if m.qos == 0 then ok (q, some wait_message) else inserted)
    else (if m.mtype == subscribe || m.mtype == unsubscribe
        then inserted
        else (if m.mtype == pingreq
            then ok
                (record q { ping = record no_ackmsg { mtype = pingreq; on_complete = cb } }, none)
            else ok (q, some wait_message)))

-- The buffer and the error of `msg.Encode(ring[i].Ackbuf)`.
abbrev pub ack_buffer : Encoded → List ℕ
ack_buffer (written bytes) = bytes
ack_buffer (failed buffer) = buffer

abbrev pub ack_error : Encoded → Option AckError
ack_error (written bytes) = none
ack_error (failed buffer) = some encode_failed

-- The types that acknowledge a packet by its identifier.
abbrev pub acknowledges : ℕ → Bool
acknowledges t =
    t == puback || t == pubrec || t == pubrel || t == pubcomp || t == suback || t == unsuback

-- `Ack`.
unfoldable pub ack : Ackqueue → Message → Outcome (Result Ackqueue)
ack q m =
    if acknowledges m.mtype
    then elim (q.emap m.pktid) [
      | none ↦ ok (q, none)
      | some i ↦
          (if ltb i (length q.ring)
            then ok (
              record q {
                ring = set q.ring i (record (get_or q.ring i no_ackmsg) {
                  state = m.mtype;
                  ackbuf = ack_buffer m.encoded;
                });
              },
              ack_error m.encoded,
            )
            else panic)
    ]
    else (if m.mtype == pingresp
        then ok (
          (if q.ping.mtype == pingreq
              then record q { ping = record q.ping { state = pingresp } }
              else q),
          none,
        )
        else ok (q, some ack_message))

-- `removeHead`.
unfoldable pub remove_head : Ackqueue → Result Ackqueue
unfolding index
remove_head q =
    let it = get_or q.ring q.head no_ackmsg in
    if empty q then (q, some queue_empty) else (
      record q {
        ring = set q.ring q.head no_ackmsg;
        head = increment q q.head;
        count = q.count - 1;
        emap = update q.emap it.pktid none;
      },
      none,
    )

-- The states in which the cycle of a packet is over.
abbrev pub finished : ℕ → Bool
finished t = t == puback || t == pubrel || t == pubcomp || t == suback || t == unsuback

-- The loop of `Acked`; each round removes an entry, so `count` rounds are enough.
unfoldable pub acked_loop : ℕ → Ackqueue → List Ackmsg → Ackqueue × List Ackmsg
acked_loop zero q done = (q, done)
acked_loop (suc fuel) q done =
    let it = get_or q.ring q.head no_ackmsg in
    let more = acked_loop fuel (remove_head q).0 (done ++ (it ∷ [])) in
    if empty q then (q, done) else (if finished it.state then more else (q, done))

-- `Acked`: the queue, and the list that is returned.
unfoldable pub acked : Ackqueue → Ackqueue × List Ackmsg
acked q =
    if q.ping.state == pingresp
    then acked_loop q.count (record q { ping = no_ackmsg }) (q.ping ∷ [])
    else acked_loop q.count q []
