-- ===== src/Buffer/Spec.antt =====
-- What the ring promises while it is open: a queue of bytes with a bound.
use simq.Base.{
  ℕ, ◌+◌, List, [], ◌∷◌, ◌++◌, Option, none, some, ltb, leb, length, take, drop, if◌then◌else◌,
}
use simq.Buffer.{BufferError, buffer_full, insufficient_data, Progress, returned, failed, waits}

pub record Pipe : Type 0 where
  pub bytes : List ℕ
  pub room : ℕ

-- The calls of the two sides.
pub data Op : Type 0 where
  do_write : List ℕ → Op
  do_peek do_wait do_commit : ℕ → Op

-- Bytes, with an error when they are fewer than asked for, or a count.
pub data Reply : Type 0 where
  got : List ℕ → Option BufferError → Reply
  count : ℕ → Reply

unfoldable pub step : Pipe → Op → Pipe × Progress Reply
step q (do_write p) =
    if ltb q.room (length p + length q.bytes)
    then (q, waits)
    else (record q { bytes = q.bytes ++ p }, returned (count (length p)))
step q (do_peek n) =
    if ltb q.room n
    then (q, failed buffer_full)
    else (if leb (length q.bytes) 0 then (q, waits) else (
      q,
      returned
          (got (take n q.bytes) (if leb n (length q.bytes) then none else some insufficient_data)),
    ))
step q (do_wait n) =
    if ltb q.room n
    then (q, failed buffer_full)
    else (if ltb (length q.bytes) n then (q, waits) else (q, returned (got (take n q.bytes) none)))
step q (do_commit n) =
    if ltb q.room n
    then (q, failed buffer_full)
    else (if ltb (length q.bytes) n
        then (q, failed insufficient_data)
        else (record q { bytes = drop n q.bytes }, returned (count n)))

unfoldable pub run : Pipe → List Op → List (Progress Reply)
run q [] = []
run q (op ∷ ops) = let (q', r) = step q op in r ∷ run q' ops
