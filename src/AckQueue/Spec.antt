-- ===== src/AckQueue/Spec.antt =====
-- What `sessions.Ackqueue` promises: the packets in flight, oldest first, and the ping.
use simq.Base.{ℕ, ◌||◌, List, [], ◌∷◌, ◌++◌, Option, none, some, ◌==◌, get_or, set, if◌then◌else◌}
use simq.Wire.Codes.{publish, subscribe, unsubscribe, pingreq, pingresp}
use simq.AckQueue.{
  Ackmsg, no_ackmsg, Message, Encoded, written, failed, new_entry, ack_buffer, ack_error, AckError,
  wait_message, ack_message, acknowledges, finished,
}
use simq.AckQueue.Invariant.{locate}

pub record Flight : Type 0 where
  pub ping : Ackmsg
  pub waiting : List Ackmsg

-- A packet joins the end, unless its identifier is there or it does not encode.
unfoldable pub join_entry : List Ackmsg → Message → ℕ → Encoded → List Ackmsg
join_entry es m cb (written bytes) = es ++ (new_entry m cb bytes ∷ [])
join_entry es m cb (failed _) = es

unfoldable pub join : List Ackmsg → Message → ℕ → List Ackmsg
unfolding join_entry
join es m cb = elim (locate m.pktid es) [ some j ↦ es | none ↦ join_entry es m cb m.encoded ]

unfoldable pub wait : Flight → Message → ℕ → Flight × Option AckError
wait f m cb =
    let joined = record f { waiting = join f.waiting m cb } in
    if m.mtype == publish
    then (if m.qos == 0 then (f, some wait_message) else (joined, none))
    else (if m.mtype == subscribe || m.mtype == unsubscribe
        then (joined, none)
        else (if m.mtype == pingreq
            then (record f { ping = record no_ackmsg { mtype = pingreq; on_complete = cb } }, none)
            else (f, some wait_message)))

-- The packet with the identifier of the acknowledgement gets its type and its bytes.
unfoldable pub mark : List Ackmsg → Message → ℕ → List Ackmsg
mark es m j =
    set es j (record (get_or es j no_ackmsg) { state = m.mtype; ackbuf = ack_buffer m.encoded })

unfoldable pub ack : Flight → Message → Flight × Option AckError
ack f m =
    if acknowledges m.mtype
    then elim (locate m.pktid f.waiting) [
      | none ↦ (f, none)
      | some j ↦ (record f { waiting = mark f.waiting m j }, ack_error m.encoded)
    ]
    else (if m.mtype == pingresp
        then (
          (if f.ping.mtype == pingreq
              then record f { ping = record f.ping { state = pingresp } }
              else f),
          none,
        )
        else (f, some ack_message))

-- The finished packets at the front, and the rest.
unfoldable pub finished_front : List Ackmsg → List Ackmsg
finished_front [] = []
finished_front (e ∷ es) = if finished e.state then e ∷ finished_front es else []

unfoldable pub unfinished_rest : List Ackmsg → List Ackmsg
unfinished_rest [] = []
unfinished_rest (e ∷ es) = if finished e.state then unfinished_rest es else e ∷ es

-- A finished ping comes first and is taken off; then the finished packets, in order, up to the
-- first that is not.
unfoldable pub acked : Flight → Flight × List Ackmsg
acked f =
    let rest = unfinished_rest f.waiting in
    let done = finished_front f.waiting in
    if f.ping.state == pingresp
    then (record { ping = no_ackmsg; waiting = rest }, f.ping ∷ done)
    else (record f { waiting = rest }, done)

-- The calls of a client, and what each returns.
pub data Op : Type 0 where
  do_wait : Message → ℕ → Op
  do_ack : Message → Op
  do_acked : Op

pub data Reply : Type 0 where
  returned : Option AckError → Reply
  completed : List Ackmsg → Reply

unfoldable pub step : Flight → Op → Flight × Reply
step f (do_wait m cb) = let (f', e) = wait f m cb in (f', returned e)
step f (do_ack m) = let (f', e) = ack f m in (f', returned e)
step f do_acked = let (f', done) = acked f in (f', completed done)

unfoldable pub run : Flight → List Op → List Reply
run f [] = []
run f (op ∷ ops) = let (f', r) = step f op in r ∷ run f' ops
