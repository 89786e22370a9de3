-- ===== src/Buffer/Network.antt =====
-- `ReadFrom` and `WriteTo`: the loops between the ring and the network.
use simq.Base.{
  ℕ, ◌+◌, ◌-◌, bit_and, Bool, List, [], ◌∷◌, Option, none, some, length, ◌==◌, if◌then◌else◌, min,
  take,
}
use simq.Buffer.{
  Buffer, BufferError, eof, returned, Call, default_read_block_size, read_peek, read_commit,
  wait_for_write_space, write_commit, then_call, copy_at,
}

-- What a call of `r.Read` brings: bytes, no more than the slice has, and perhaps an error.
pub record Chunk : Type 0 where
  pub bytes : List ℕ
  pub broken : Bool

-- How a loop ends, or that it goes on: with an error of the connection, or one of the ring.
pub data Ending : Type 0 where
  connection_error : Ending
  buffer_error : BufferError → Ending

-- Where the slice ends that `ReadFrom` hands to the connection.
abbrev pub slice_room : Buffer → ℕ → ℕ
slice_room b pstart = min (pstart + default_read_block_size) b.size - pstart

-- The bytes of a chunk in the ring; a chunk of none is not committed.
unfoldable pub commit_chunk : Buffer → List ℕ → ℕ → Call (Unit {0})
commit_chunk b p pstart =
    if length p == 0
    then (b, returned tt)
    else then_call (write_commit (record b { buf = copy_at b.buf pstart p }) (length p))
        (λ b' n. (b', returned tt))

-- A round of `ReadFrom`; `some tt` ends it with the error of the connection.
unfoldable pub read_from_round : Buffer → Chunk → Call (Option Ending)
read_from_round b c =
    if b.done
    then (b, returned (some (buffer_error eof)))
    else then_call (wait_for_write_space b default_read_block_size) (λ b' start.
      then_call
        (commit_chunk b' (take (slice_room b' (bit_and start b'.mask)) c.bytes)
          (bit_and start b'.mask))
        (λ b'' _. (b'', returned (if c.broken then some connection_error else none))))

-- `WriteTo`: what the connection does with bytes, how many it takes and whether it fails.
abbrev pub Sink : Type 0
Sink = List ℕ → ℕ × Bool

unfoldable pub write_out : Buffer → Sink → List ℕ → Call (Option Ending)
write_out b w [] = (b, returned none)
write_out b w (x ∷ p) =
    let (n, broken) = w (x ∷ p) in
    if broken
    then (b, returned (some connection_error))
    else then_call (read_commit b n) (λ b' _. (b', returned none))

-- A round of `WriteTo`.
unfoldable pub write_to_round : Buffer → Sink → Call (Option Ending)
write_to_round b w =
    if b.done
    then (b, returned (some (buffer_error eof)))
    else then_call (read_peek b default_read_block_size) (λ b' (p, short). write_out b' w p)
