-- ===== src/Wire/VarInt.antt =====
-- Variable byte integers: `lbEncode` and `lbDecode` of corev5/v2/message/util.go,
-- `BigEndianPutUvarint` of message.go, and `binary.Uvarint` of Go's library, which header.go calls.
pub mod Laws
pub mod Errors
use simq.Base.{
  ℕ, zero, suc, ◌+◌, ◌*◌, ◌/◌, ◌%◌, ◌^◌, bit_and, bit_or, Bool, true, false, ◌&&◌, List, [], ◌∷◌,
  ◌++◌, ltb, leb, ◌==◌, length, if◌then◌else◌, Outcome, ok, err, panic, stuck, malformed_integer,
  ◌>>=◌,
}

-- `b[i] = byte(v)` on the four bytes of `lbEncode`, of which `out` are written, and `i++`.
put_byte : List ℕ → ℕ → Outcome (List ℕ)
put_byte out v = if ltb (length out) 4 then ok (out ++ (v % 256 ∷ [])) else panic

-- The loop `for x > 0`, and the last write behind it. `encoded` is `encodedByte`.
lb_encode_loop : ℕ → ℕ → ℕ → List ℕ → Outcome (List ℕ)
lb_encode_loop zero x encoded out = stuck
lb_encode_loop (suc fuel) x encoded out =
    let encoded' = x % 128 in
    let x' = x / 128 in
    let more = put_byte out (bit_or encoded' 128) >>= λ out'.
    lb_encode_loop fuel x' (bit_or encoded' 128) out' in
    let last = lb_encode_loop fuel x' encoded' out in
    if ltb 0 x then (if ltb 0 x' then more else last) else put_byte out encoded

-- `lbEncode` on a `uint32`; six rounds are enough (`Laws`).
pub lb_encode : ℕ → Outcome (List ℕ)
lb_encode x =
    let encoded = x % 128 in
    let x' = x / 128 in
    if ltb 0 x'
    then (put_byte [] (bit_or encoded 128) >>= λ out. lb_encode_loop 6 x' (bit_or encoded 128) out)
    else lb_encode_loop 6 x' encoded []

-- The loop `for (ec & 128) != 0`. The list is `b[i:]`; `b[i]` panics past the end.
unfoldable pub lb_decode_loop : List ℕ → ℕ → ℕ → ℕ → ℕ → Outcome (ℕ × ℕ)
lb_decode_loop [] ec value mu i = if bit_and ec 128 == 0 then ok (value, i) else panic
lb_decode_loop (b ∷ rest) ec value mu i =
    let value' = (value + bit_and b 127 * mu % 2 ^ 32) % 2 ^ 32 in
    let more = lb_decode_loop rest b value' (mu * 128 % 2 ^ 32) (i + 1) in
    if bit_and ec 128 == 0
    then ok (value, i)
    else (if ltb (128 * 128 * 128) mu then err malformed_integer else more)

-- `lbDecode`: the value and how many bytes it takes.
unfoldable pub lb_decode : List ℕ → Outcome (ℕ × ℕ)
unfolding lb_decode_loop
lb_decode [] = ok (0, 0)
lb_decode (b ∷ rest) = lb_decode_loop rest b (bit_and b 127) 128 1

-- `BigEndianPutUvarint` on a `uint64`, and `binary.PutUvarint`, which writes the same bytes.
-- Ten rounds are enough.
put_uvarint_loop : ℕ → ℕ → List ℕ
put_uvarint_loop zero x = x % 256 ∷ []
put_uvarint_loop (suc fuel) x =
    let more = bit_or (x % 256) 128 ∷ put_uvarint_loop fuel (x / 128) in
    if leb 128 x then more else x % 256 ∷ []

pub put_uvarint : ℕ → List ℕ
put_uvarint x = put_uvarint_loop 9 x

-- What `binary.Uvarint` answers: `(v, n)`, `(0, 0)` on a short input, `(0, -n)` on an overflow.
pub data Uvarint : Type 0 where
  value : ℕ → ℕ → Uvarint
  short : Uvarint
  overflow : ℕ → Uvarint

-- `i` bytes are read, and `x` is their value.
unfoldable pub uvarint_loop : List ℕ → ℕ → ℕ → Uvarint
uvarint_loop [] i x = short
uvarint_loop (b ∷ rest) i x =
    let more = uvarint_loop rest (i + 1) (x + bit_and b 127 * 2 ^ (7 * i)) in
    let last =
      if i == 9 && ltb 1 b then overflow (i + 1) else value (x + b * 2 ^ (7 * i)) (i + 1) in
    if i == 10 then overflow (i + 1) else (if ltb b 128 then last else more)

unfoldable pub uvarint : List ℕ → Uvarint
unfolding uvarint_loop
uvarint b = uvarint_loop b 0 0
