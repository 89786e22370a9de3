-- ===== src/Wire/VarInt/Laws.antt =====
-- What `lb_encode` writes, `lb_decode` reads back; and where both fail.
use simq.Base.{
  ℕ, zero, suc, ◌+◌, ◌*◌, ◌/◌, ◌%◌, ◌^◌, ◌≤◌, ◌<◌, ◌≡◌, List, [], ◌∷◌, ◌++◌, ltb, length, arith,
  bit_or, if◌then◌else◌, ok,
}
use simq.Base.Bits.{and_127, and_128, or_128}
use simq.Wire.Codes.{max_remaining_length}
use simq.Wire.VarInt.{
  put_byte, lb_encode_loop, lb_encode, lb_decode_loop, lb_decode, put_uvarint_loop, put_uvarint,
  value, uvarint_loop, uvarint,
}

-- The reference form: groups of seven bits, lowest first, all but the last with the top bit set.
unfoldable pub groups : ℕ → ℕ → List ℕ
groups zero x = x ∷ []
groups (suc k) x =
    let more = (x % 128 + 128) ∷ groups k (x / 128) in if ltb x 128 then x ∷ [] else more

mark : (x : ℕ) → bit_or (x % 128) 128 ≡ x % 128 + 128
mark x = ground (arith, or_128 (x % 128) (omega arith))

pub lb_encode-groups : (x : ℕ) → x ≤ max_remaining_length → lb_encode x ≡ ok (groups 3 x)
unfolding lb_encode lb_encode_loop put_byte groups
lb_encode-groups x h = ground (arith, mark x, mark (x / 128), mark (x / 128 / 128))

pub put_uvarint-groups : (x : ℕ) → x ≤ max_remaining_length → put_uvarint x ≡ groups 3 x
unfolding put_uvarint put_uvarint_loop groups
put_uvarint-groups x h =
    ground (arith, or_128 (x % 256), or_128 (x / 128 % 256), or_128 (x / 128 / 128 % 256))

-- A byte with the top bit clear ends the loop, and one with the top bit set takes the next.
loop_stops : (rest : List ℕ) (ec v mu i : ℕ) → ec < 128 → lb_decode_loop rest ec v mu i ≡ ok (v, i)
unfolding lb_decode_loop
loop_stops [] ec v mu i h = ground (arith, and_128 ec (omega arith))
loop_stops (b ∷ rest) ec v mu i h = ground (arith, and_128 ec (omega arith))

loop_goes_on :
    (b : ℕ) (rest : List ℕ) (ec v mu i : ℕ)
    → 128 ≤ ec
    → ec < 256
    → b < 256
    → mu ≤ 2097152
    → v + b % 128 * mu < 2 ^ 32
    → lb_decode_loop (b ∷ rest) ec v mu i
      ≡ lb_decode_loop rest b (v + b % 128 * mu) (mu * 128) (i + 1)
unfolding lb_decode_loop
loop_goes_on b rest ec v mu i h k l m n = ground (arith, and_128 ec, and_127 b)

lb_decode-one : (a : ℕ) (rest : List ℕ) → a < 128 → lb_decode (a ∷ rest) ≡ ok (a, 1)
unfolding lb_decode
lb_decode-one a rest h = ground (arith, and_127 a, loop_stops rest a a 128 1)

lb_decode-two :
    (a b : ℕ) (rest : List ℕ)
    → a < 128
    → b < 128
    → lb_decode ((a + 128) ∷ b ∷ rest) ≡ ok (a + b * 128, 2)
unfolding lb_decode
lb_decode-two a b rest h k = ground (
  arith,
  and_127 (a + 128),
  loop_goes_on b rest (a + 128) a 128 1,
  loop_stops rest b (a + b * 128) 16384 2,
)

lb_decode-three :
    (a b c : ℕ) (rest : List ℕ)
    → a < 128
    → b < 128
    → c < 128
    → lb_decode ((a + 128) ∷ (b + 128) ∷ c ∷ rest) ≡ ok (a + b * 128 + c * 16384, 3)
unfolding lb_decode
lb_decode-three a b c rest h k l = ground (
  arith,
  and_127 (a + 128),
  loop_goes_on (b + 128) (c ∷ rest) (a + 128) a 128 1,
  loop_goes_on c rest (b + 128) (a + b * 128) 16384 2,
  loop_stops rest c (a + b * 128 + c * 16384) 2097152 3,
)

lb_decode-four :
    (a b c d : ℕ) (rest : List ℕ)
    → a < 128
    → b < 128
    → c < 128
    → d < 128
    → lb_decode ((a + 128) ∷ (b + 128) ∷ (c + 128) ∷ d ∷ rest)
      ≡ ok (a + b * 128 + c * 16384 + d * 2097152, 4)
unfolding lb_decode
lb_decode-four a b c d rest h k l m = ground (
  arith,
  and_127 (a + 128),
  loop_goes_on (b + 128) ((c + 128) ∷ d ∷ rest) (a + 128) a 128 1,
  loop_goes_on (c + 128) (d ∷ rest) (b + 128) (a + b * 128) 16384 2,
  loop_goes_on d rest (c + 128) (a + b * 128 + c * 16384) 2097152 3,
  loop_stops rest d (a + b * 128 + c * 16384 + d * 2097152) 268435456 4,
)

pub lb_decode-groups :
    (x : ℕ) (rest : List ℕ)
    → x ≤ max_remaining_length
    → lb_decode (groups 3 x ++ rest) ≡ ok (x, length (groups 3 x))
unfolding groups
lb_decode-groups x rest h = ground (
  arith,
  lb_decode-one x rest,
  lb_decode-two (x % 128) (x / 128) rest,
  lb_decode-three (x % 128) (x / 128 % 128) (x / 128 / 128) rest,
  lb_decode-four (x % 128) (x / 128 % 128) (x / 128 / 128 % 128) (x / 128 / 128 / 128) rest,
)

-- `binary.Uvarint` reads the same bytes.
uvarint_last :
    (b : ℕ) (rest : List ℕ) (i x : ℕ)
    → b < 128
    → i < 9
    → uvarint_loop (b ∷ rest) i x ≡ value (x + b * 2 ^ (7 * i)) (i + 1)
unfolding uvarint_loop
uvarint_last b rest i x h k = ground arith

uvarint_more :
    (b : ℕ) (rest : List ℕ) (i x : ℕ)
    → 128 ≤ b
    → b < 256
    → i < 9
    → uvarint_loop (b ∷ rest) i x ≡ uvarint_loop rest (i + 1) (x + b % 128 * 2 ^ (7 * i))
unfolding uvarint_loop
uvarint_more b rest i x h k l = ground (arith, and_127 b)

pub uvarint-groups :
    (x : ℕ) (rest : List ℕ)
    → x ≤ max_remaining_length
    → uvarint (groups 3 x ++ rest) ≡ value x (length (groups 3 x))
unfolding uvarint groups
uvarint-groups x rest h =
    let x1 = x / 128 in
    let x2 = x / 128 / 128 in
    let x3 = x / 128 / 128 / 128 in
    ground (
      arith,
      uvarint_last x rest 0 0,
      uvarint_more (x % 128 + 128) (x1 ∷ rest) 0 0,
      uvarint_last x1 rest 1 (x % 128),
      uvarint_more (x % 128 + 128) ((x1 % 128 + 128) ∷ x2 ∷ rest) 0 0,
      uvarint_more (x1 % 128 + 128) (x2 ∷ rest) 1 (x % 128),
      uvarint_last x2 rest 2 (x % 128 + x1 % 128 * 128),
      uvarint_more (x % 128 + 128) ((x1 % 128 + 128) ∷ (x2 % 128 + 128) ∷ x3 ∷ rest) 0 0,
      uvarint_more (x1 % 128 + 128) ((x2 % 128 + 128) ∷ x3 ∷ rest) 1 (x % 128),
      uvarint_more (x2 % 128 + 128) (x3 ∷ rest) 2 (x % 128 + x1 % 128 * 128),
      uvarint_last x3 rest 3 (x % 128 + x1 % 128 * 128 + x2 % 128 * 16384),
    )

pub length-groups :
    (x : ℕ) → x ≤ max_remaining_length → (1 ≤ length (groups 3 x)) × (length (groups 3 x) ≤ 4)
unfolding groups
length-groups x h = ground arith

-- `lbDecode` reads back what `lbEncode` writes, whatever follows it, on every value of a
-- remaining length, and takes the 1 to 4 bytes that were written.
pub lb_decode-lb_encode :
    (x : ℕ) (rest : List ℕ)
    → x ≤ max_remaining_length
    → (out : List ℕ) × (lb_encode x ≡ ok out)
      × (lb_decode (out ++ rest) ≡ ok (x, length out))
      × (1 ≤ length out)
      × (length out ≤ 4)
lb_decode-lb_encode x rest h =
    let (lo, hi) = length-groups x h in
    (groups 3 x, lb_encode-groups x h, lb_decode-groups x rest h, lo, hi)

-- `lbEncode`, `BigEndianPutUvarint` and `binary.Uvarint` agree on those values.
pub put_uvarint-lb_encode :
    (x : ℕ) (rest : List ℕ)
    → x ≤ max_remaining_length
    → (lb_encode x ≡ ok (put_uvarint x))
      × (uvarint (put_uvarint x ++ rest) ≡ value x (length (put_uvarint x)))
put_uvarint-lb_encode x rest h =
    rw (put_uvarint-groups x h) (lb_encode-groups x h, uvarint-groups x rest h)
