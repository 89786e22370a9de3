-- ===== src/Buffer.antt =====
-- The ring of corev5/v2/service/buffer.go between the network and the processor: one goroutine
-- writes, one reads.
pub mod Copy
pub mod Invariant
pub mod Reads
pub mod Writes
pub mod Spec
pub mod Run
pub mod Close
pub mod Network
pub mod Loops
pub mod Stuck
mod Tests
use simq.Base.{
  ℕ, zero, suc, ◌+◌, ◌-◌, ◌*◌, ◌/◌, ◌^◌, bit_and, Bool, true, false, ◌&&◌, ◌||◌, not, List, [], ◌∷◌,
  ◌++◌, Option, none, some, ltb, leb, ◌==◌, min, length, take, drop, replicate, if◌then◌else◌,
}
use simq.AckQueue.{power_of_two64}

-- `ErrNegativeCount` of `bufio` belongs to the negative lengths, which no caller passes.
pub data BufferError : Type 0 where
  eof buffer_full insufficient_data bad_size : BufferError

-- How an attempt of a call ends. `waits`: the goroutine sleeps on the condition, and tries again
-- when it is woken. `locked`: it wants a mutex that another call has left locked for good.
pub data Progress {ℓ} (A : Type ℓ) : Type ℓ where
  returned : A → Progress A
  failed : BufferError → Progress A
  waits : Progress A
  locked : Progress A

-- `buffer`. The positions grow for ever; the slice `tmp` and the two counters are only written.
-- `pheld` and `cheld` tell whether the mutex of `pcond` or `ccond` was left locked by a call that
-- has returned.
pub record Buffer : Type 0 where
  pub buf : List ℕ
  pub tmp : List ℕ
  pub size : ℕ
  pub mask : ℕ
  pub done : Bool
  pub ppos : ℕ
  pub gate : ℕ
  pub cpos : ℕ
  pub cwait : ℕ
  pub pwait : ℕ
  pub pheld : Bool
  pub cheld : Bool

abbrev pub Call : Type 0 → Type 0
Call A = Buffer × Progress A

abbrev pub default_buffer_size : ℕ
default_buffer_size = 4096

abbrev pub default_read_block_size : ℕ
default_read_block_size = 1024

abbrev pub empty_buffer : ℕ → Buffer
empty_buffer size = record {
  buf = replicate size 0;
  tmp = [];
  size = size;
  mask = size - 1;
  done = false;
  ppos = 0;
  gate = 0;
  cpos = 0;
  cwait = 0;
  pwait = 0;
  pheld = false;
  cheld = false;
}

abbrev pub sized : ℕ → ℕ
sized size = if size == 0 then default_buffer_size else size

-- `newBuffer`.
unfoldable pub new_buffer : ℕ → Progress Buffer
new_buffer size =
    if not (power_of_two64 (sized size))
    then failed bad_size
    else (if ltb (sized size / 2) default_read_block_size
        then failed bad_size
        else returned (empty_buffer (sized size)))

-- `Len`.
abbrev pub len : Buffer → ℕ
len b = b.ppos - b.cpos

-- To wake the producer or the consumer, and return.
abbrev pub wake_producer : {A : Type 0} → Buffer → A → Call A
wake_producer b a = if b.pheld then (b, locked) else (b, returned a)

abbrev pub wake_consumer : {A : Type 0} → Buffer → A → Call A
wake_consumer b a = if b.cheld then (b, locked) else (b, returned a)

-- A round of the loop in which a reader waits, `asleep` being its state then: on a closed buffer it
-- returns with the mutex locked. The test of `done` and the sleep are one step here, so that a `Close`
-- that falls between the two, which does not take the mutex of `ccond`, is left out.
abbrev pub wait_consumer : {A : Type 0} → Buffer → Buffer → Call A
wait_consumer b asleep =
    if b.cheld
    then (b, locked)
    else (if b.done then (record b { cheld = true }, failed eof) else (asleep, waits))

-- `Close`, which takes the mutex of `pcond` for both conditions.
unfoldable pub close : Buffer → Call (Unit {0})
close b = wake_producer (record b { done = true }) tt

-- The loop of `Read` into a slice of length `n`; a reader that is woken goes on here.
unfoldable pub read_loop : Buffer → ℕ → Call (List ℕ)
read_loop b n =
    let cindex = bit_and b.cpos b.mask in
    let front = drop cindex b.buf in
    let all = take n front in
    let part = take (b.ppos - b.cpos) front in
    let short = take n (if ltb (cindex + (b.ppos - b.cpos)) b.size then part else front) in
    if ltb (b.cpos + n) b.ppos
    then wake_producer (record b { cpos = b.cpos + length all }) all
    else (if ltb b.cpos b.ppos
        then wake_producer (record b { cpos = b.cpos + length short }) short
        else wait_consumer b (record b { cwait = b.cwait + 1 }))

-- `Read`.
unfoldable pub read : Buffer → ℕ → Call (List ℕ)
read b n = if b.done && len b == 0 then (b, failed eof) else read_loop b n

-- The bytes from the read position on, round the end of the ring.
unfoldable pub peeked : Buffer → ℕ → List ℕ
peeked b m =
    let cindex = bit_and b.cpos b.mask in
    let front = drop cindex b.buf in
    if ltb b.size (cindex + m) then front ++ take (m - length front) b.buf else take m front

-- The slice `tmp` holds such bytes when they go round.
unfoldable pub keep_tmp : Buffer → ℕ → Buffer
keep_tmp b m = if ltb b.size (bit_and b.cpos b.mask + m) then record b { tmp = peeked b m } else b

-- `ReadPeek`: the bytes, and whether they are fewer than was asked for.
unfoldable pub read_peek : Buffer → ℕ → Call (List ℕ × Option BufferError)
read_peek b n =
    if ltb b.size n
    then (b, failed buffer_full)
    else (if leb b.ppos b.cpos
        then wait_consumer b (record b { cwait = b.cwait + 1 })
        else (if b.cheld
            then (b, locked)
            else (if leb n (len b)
                then (keep_tmp b n, returned (peeked b n, none))
                else (keep_tmp b (len b), returned (peeked b (len b), some insufficient_data)))))

-- `ReadWait`.
unfoldable pub read_wait : Buffer → ℕ → Call (List ℕ)
read_wait b n =
    if ltb b.size n
    then (b, failed buffer_full)
    else (if ltb b.ppos (b.cpos + n)
        then wait_consumer b b
        else (if b.cheld then (b, locked) else (keep_tmp b n, returned (peeked b n))))

-- `ReadCommit`.
unfoldable pub read_commit : Buffer → ℕ → Call ℕ
read_commit b n =
    if ltb b.size n
    then (b, failed buffer_full)
    else (if leb (b.cpos + n) b.ppos
        then wake_producer (record b { cpos = b.cpos + n }) n
        else (b, failed insufficient_data))

-- A round of the loop in which `waitForWriteSpace` waits: on a closed buffer it returns with the
-- mutex locked. `wrap > cpos` is `next > cpos + size`.
abbrev pub wait_producer : Buffer → ℕ → Call ℕ
wait_producer b next =
    if b.pheld
    then (b, locked)
    else (if ltb (b.cpos + b.size) next
        then (if b.done
            then (record b { pheld = true }, failed eof)
            else (record b { pwait = b.pwait + 1 }, waits))
        else (record b { gate = b.cpos }, returned b.ppos))

-- `waitForWriteSpace`: the position to write at.
unfoldable pub wait_for_write_space : Buffer → ℕ → Call ℕ
wait_for_write_space b n =
    if b.done
    then (b, failed eof)
    else (if ltb (b.gate + b.size) (b.ppos + n) || ltb b.ppos b.gate
        then wait_producer b (b.ppos + n)
        else (b, returned b.ppos))

abbrev pub then_call : {A B : Type 0} → Call A → (Buffer → A → Call B) → Call B
then_call (b, returned a) f = f b a
then_call (b, failed e) f = (b, failed e)
then_call (b, waits) f = (b, waits)
then_call (b, locked) f = (b, locked)

-- `copy(dst[start:], src)`.
abbrev pub copy_at : List ℕ → ℕ → List ℕ → List ℕ
copy_at dst start src =
    take start dst ++ (take (length dst - start) src ++ drop (start + length src) dst)

-- `ringCopy`; a round copies a byte at least. Its result is always the length of `src`.
unfoldable pub ring_copy : ℕ → List ℕ → List ℕ → ℕ → List ℕ
ring_copy zero dst src start = dst
ring_copy (suc fuel) dst src start =
    let l = min (length dst - start) (length src) in
    let more = ring_copy fuel (copy_at dst start src) (drop l src) 0 in
    if length src == 0 then dst else more

-- What is behind the wait in `Write`, `WriteWait` and `WriteCommit`.
unfoldable pub write_rest : List ℕ → Buffer → ℕ → Call ℕ
write_rest p b start =
    wake_consumer
      (record b {
        buf = ring_copy (length p) b.buf p (bit_and start b.mask);
        ppos = start + length p;
      })
      (length p)

unfoldable pub write_wait_rest : ℕ → Buffer → ℕ → Call (ℕ × ℕ × Bool)
write_wait_rest n b start =
    let pstart = bit_and start b.mask in
    if ltb b.size (pstart + n)
    then (b, returned (pstart, b.size - pstart, true))
    else (b, returned (pstart, n, false))

unfoldable pub write_commit_rest : ℕ → Buffer → ℕ → Call ℕ
write_commit_rest n b start = wake_consumer (record b { ppos = start + n }) n

-- `Write`.
unfoldable pub write : Buffer → List ℕ → Call ℕ
write b p =
    if b.done then (b, failed eof) else then_call (wait_for_write_space b (length p)) (write_rest p)

-- `WriteWait`: where the slice begins, its length, and whether it is cut off at the end of the ring.
unfoldable pub write_wait : Buffer → ℕ → Call (ℕ × ℕ × Bool)
write_wait b n = then_call (wait_for_write_space b n) (write_wait_rest n)

-- `WriteCommit`.
unfoldable pub write_commit : Buffer → ℕ → Call ℕ
write_commit b n = then_call (wait_for_write_space b n) (write_commit_rest n)
