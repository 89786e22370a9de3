-- ===== src/Wire/Header.antt =====
-- The fixed header, `header` of corev5/v2/message/header.go.
pub mod Laws
pub mod Errors
use simq.Base.{
  ℕ, zero, suc, ◌+◌, ◌-◌, ◌*◌, ◌/◌, ◌%◌, ◌^◌, bit_and, bit_or, Bool, true, false, List, [], ◌∷◌,
  ◌++◌, ltb, leb, ◌==◌, length, get_or, if◌then◌else◌, Outcome, ok, err, panic, ◌>>=◌, ◌>>◌, reject,
  ◌&&◌, ◌||◌, not, invalid_message, bad_type, bad_remaining_length, insufficient_buffer,
}
use simq.Wire.Codes.{
  valid_type, valid_qos, default_flags, publish, pingreq, pingresp, auth, disconnect,
  max_remaining_length,
}
use simq.Wire.Slice.{Slice, len, at, from, sub, copy_len}
use simq.Wire.VarInt.{put_uvarint, Uvarint, value, short, overflow, uvarint}

-- `packet_id` and `mtypeflags` are slices of two bytes and of one, or nil.
pub record Header : Type 0 where
  pub remlen : ℕ
  pub mtypeflags : List ℕ
  pub packet_id : List ℕ
  pub dbuf : List ℕ
  pub dirty : Bool

-- The zero value.
abbrev pub empty_header : Header
empty_header = record { remlen = 0; mtypeflags = []; packet_id = []; dbuf = []; dirty = false }

-- What `Type` and `SetType` make sure of: a nil `mtypeflags` becomes one zero byte.
unfoldable pub with_flags : Header → Header
with_flags h =
    if length h.mtypeflags == 1 then h else record h { mtypeflags = 0 ∷ []; dirty = true }

-- `mtypeflags[0]`, of a header that has it.
abbrev pub flag_byte : Header → ℕ
flag_byte h = get_or h.mtypeflags 0 0

-- `Type`, whose `with_flags` is the header that it leaves.
unfoldable pub type_of : Header → ℕ
unfolding with_flags
type_of h = flag_byte (with_flags h) / 16

-- `Flags`.
unfoldable pub flags : Header → ℕ
flags h = bit_and (flag_byte h) 15

-- `SetType`.
unfoldable pub set_type : Header → ℕ → Outcome Header
unfolding with_flags default_flags
set_type h t =
    if valid_type t
    then ok (record (with_flags h) {
      mtypeflags = bit_or (t * 16 % 256) (bit_and (default_flags t) 15) ∷ [];
    })
    else err bad_type

-- `SetRemainingLength`.
unfoldable pub set_remaining_length : Header → ℕ → Outcome Header
set_remaining_length h n =
    if ltb max_remaining_length n
    then err bad_remaining_length
    else ok (record h { remlen = n; dirty = true })

-- `PacketId`.
unfoldable pub packet_id_of : Header → ℕ
packet_id_of h =
    if length h.packet_id == 2 then get_or h.packet_id 0 0 * 256 + get_or h.packet_id 1 0 else 0

-- `SetPacketId` of a `uint16`.
unfoldable pub set_packet_id : Header → ℕ → Header
set_packet_id h v =
    let written = v / 256 % 256 ∷ v % 256 ∷ [] in
    if v == 0
    then h
    else (if length h.packet_id == 2
        then record h { packet_id = written }
        else record h { packet_id = written; dirty = true })

-- `msglen`: the type byte and the bytes of the remaining length.
unfoldable pub header_msglen : Header → ℕ
header_msglen h =
    if leb h.remlen 127
    then 2
    else (if leb h.remlen 16383 then 3 else (if leb h.remlen 2097151 then 4 else 5))

-- `encodeToBuf`: what it appends. The header is left as `with_flags`.
unfoldable pub encode_header_to_buf : Header → Outcome (List ℕ)
unfolding type_of
encode_header_to_buf h = do
  reject (ltb max_remaining_length h.remlen) bad_remaining_length
  reject (not (valid_type (type_of h))) bad_type
  ok (flag_byte (with_flags h) ∷ put_uvarint h.remlen)

-- `encode` into a buffer of `room` bytes.
unfoldable pub encode_header : Header → ℕ → Outcome (List ℕ)
unfolding type_of header_msglen
encode_header h room = do
  reject (ltb room (header_msglen h)) insufficient_buffer
  reject (ltb max_remaining_length h.remlen) bad_remaining_length
  reject (not (valid_type (type_of h))) bad_type
  ok (flag_byte (with_flags h) ∷ put_uvarint h.remlen)

-- The types that may have nothing behind the fixed header.
abbrev pub may_be_empty : ℕ → Bool
may_be_empty t = t == pingreq || t == pingresp || t == auth || t == disconnect

-- `src[1 - n:]`, which panics below 0.
unfoldable pub from_before : Slice → ℕ → Outcome Slice
from_before src n = if ltb 1 n then panic else from src (1 - n)

-- The rest of `decode` behind the remaining length `v`: `total` is the index that it returns, and
-- `body` is `src[total:]`.
unfoldable pub check_remaining : Header → ℕ → ℕ → Outcome Slice → Outcome (ℕ × Header)
unfolding type_of
check_remaining h v total body = do
  let h' = record h { remlen = v % 2 ^ 32 }
  reject (ltb max_remaining_length h'.remlen || (not (may_be_empty (type_of h')) && v == 0))
      invalid_message
  rest ← body
  reject (ltb (len rest) h'.remlen) invalid_message
  ok (total, h')

-- On an overflowing varint `binary.Uvarint` answers `(0, -n)`, so `total` is `1 - n`.
unfoldable pub read_remaining : Header → Slice → Uvarint → Outcome (ℕ × Header)
unfolding check_remaining
read_remaining h src (value v n) = check_remaining h v (1 + n) (from src (1 + n))
read_remaining h src short = check_remaining h 0 1 (from src 1)
read_remaining h src (overflow n) = check_remaining h 0 (1 - n) (from_before src n)

-- `decode`: the index behind the header, and the header. The receiver's type is what
-- `New…Message` has set, and the packet must have it.
unfoldable pub decode_header : Header → Slice → Outcome (ℕ × Header)
unfolding type_of flags read_remaining default_flags
decode_header h src = do
  let mtype = type_of h
  b ← sub src 0 1
  let h' = record (with_flags h) { dbuf = src.bytes; mtypeflags = copy_len b 1 }
  reject (not (valid_type (type_of h'))) invalid_message
  reject (not (mtype == type_of h')) invalid_message
  reject (not (type_of h' == publish) && not (flags h' == default_flags (type_of h')))
      invalid_message
  reject (type_of h' == publish && not (valid_qos (bit_and (flags h' / 2) 3))) invalid_message
  rest ← from src 1
  read_remaining h' src (uvarint rest.bytes)
