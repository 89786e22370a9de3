-- ===== src/Framing.antt =====
-- From packets to the bytes of a ring and back: corev5/v2/service/sendrecv.go, and the loop
-- `processor` of corev5/v2/service/process.go.
pub mod Size
pub mod Peek
pub mod Carry
pub mod Send
pub mod Stream
pub mod Acks
mod Tests
use simq.Base.{
  ℕ, zero, suc, ◌+◌, ◌-◌, ◌/◌, Bool, List, [], ◌∷◌, ltb, leb, length, drop, get_or, if◌then◌else◌,
  Outcome, ok, err, panic, stuck, ◌>>=◌, long_size, packet_too_large,
}
use simq.Wire.Slice.{Slice}
use simq.Wire.VarInt.{Uvarint, value, short, overflow, uvarint}
use simq.Buffer.{
  Buffer, Progress, returned, waits, Call, then_call, read_wait, read_commit, write, write_wait,
  write_commit, copy_at,
}

-- What the service calls of a message: `New` of a type, `Decode`, `Len`, and `Encode` into a slice
-- of so many bytes, which gives the bytes that it writes.
pub record Codec (M : Type 0) : Type 0 where
  pub new : ℕ → Outcome M
  pub decode : M → Slice → Outcome (ℕ × M)
  pub length_of : M → Outcome ℕ
  pub encode : M → ℕ → Outcome (List ℕ)

abbrev pub then_ok :
    {A B : Type 0} → Call (Outcome A) → (Buffer → A → Call (Outcome B)) → Call (Outcome B)
then_ok r f = then_call r (λ b o. elim o [
  | ok a ↦ f b a
  | err e ↦ (b, returned (err e))
  | panic ↦ (b, returned panic)
  | stuck ↦ (b, returned stuck)
])

-- The loop of `peekMessageSize`: `cnt` is 6 less the rounds that are left. The bytes that it has
-- seen stay where they are, so that one that sleeps may as well start again.
unfoldable pub size_rounds : ℕ → Buffer → ℕ → Call (Outcome (List ℕ))
size_rounds zero b cnt = (b, returned (err long_size))
size_rounds (suc left) b cnt = then_call (read_wait b cnt) (λ b' p.
    let more = size_rounds left b' (cnt + 1) in
    if ltb (length p) cnt
    then (b', waits)
    else (if leb 128 (get_or p (cnt - 1) 0) then more else (b', returned (ok p))))

-- Of four bytes at most `Uvarint` does not overflow.
abbrev pub total_of : Uvarint → ℕ
total_of (value v n) = v + 1 + n
total_of short = 1
total_of (overflow n) = 0

-- `peekMessageSize`: the type, and the length of the packet.
unfoldable pub peek_message_size : Buffer → Call (Outcome (ℕ × ℕ))
peek_message_size b =
    then_ok (size_rounds 4 b 2)
      (λ b' p. (b', returned (ok (get_or p 0 0 / 16, total_of (uvarint (drop 1 p))))))

module _ {M : Type 0} (c : Codec M) where
  -- `peekMessage`, for `total` of 1 at least; `spare` is what lies behind the bytes in their array.
  unfoldable pub peek_message : Buffer → ℕ → ℕ → List ℕ → Call (Outcome (ℕ × M))
  peek_message b t total spare = then_call (read_wait b total) (λ b' p.
      if ltb (length p) total
      then (b', waits)
      else (b', returned (c.new t >>= λ r. c.decode r (record { bytes = p; spare = spare }))))

  -- A round of the loop of `processor` on the packet in front; `handle` is `processIncoming`.
  unfoldable pub process_round : ℕ → (M → Outcome (Unit {0})) → List ℕ → Buffer → Call (Outcome M)
  process_round max_size handle spare b = then_ok (peek_message_size b) (λ b₁ (t, total).
      if ltb max_size total
      then (b₁, returned (err packet_too_large))
      else then_ok (peek_message b₁ t total spare) (λ b₂ (n, m).
        then_ok (b₂, returned (handle m))
          (λ b₃ _. then_call (read_commit b₃ total) (λ b₄ _. (b₄, returned (ok m))))))

  -- `writeMessage` on the ring, `outtmp` being the length of the slice of that name.
  unfoldable pub write_message : Buffer → ℕ → M → Call (Outcome ℕ)
  write_message b outtmp m =
      then_ok (b, returned (c.length_of m))
        (λ b₁ l. then_call (write_wait b₁ l) (λ b₂ (start, room, wrap).
          let enough = if ltb outtmp l then l else outtmp in
          if wrap
          then then_ok (b₂, returned (c.encode m enough))
              (λ b₃ out. then_call (write b₃ out) (λ b₄ n. (b₄, returned (ok n))))
          else then_ok (b₂, returned (c.encode m room))
              (λ b₃ out.
                then_call (write_commit (record b₃ { buf = copy_at b₃.buf start out }) (length out))
                  (λ b₄ n. (b₄, returned (ok n))))))
