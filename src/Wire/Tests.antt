-- ===== src/Wire/Tests.antt =====
-- The codec on concrete packets, and its theorems at concrete inputs.
use simq.Base.{
  ℕ, ◌≤◌, ◌≡◌, refl, inr, true, false, List, [], ◌∷◌, ◌++◌, length, ltb, leb, if◌then◌else◌, ok,
  err, panic, invalid_message, arith,
}
use simq.Wire.Codes.{default_flags, valid_puback_reason_code}
use simq.Wire.VarInt.{lb_encode, lb_decode, uvarint, value}
use simq.Wire.VarInt.Laws.{lb_decode-lb_encode}
use simq.Wire.VarInt.Errors.{EndsWithin, lb_decode_bounds, lb_decode-panic}
use simq.Wire.Strings.{
  write_user_property_by_buf, decode_user_property, build_user_property_len, read_lp_bytes,
}
use simq.Wire.Strings.Laws.{decode-write_user_property, paired, property_bytes}
use simq.Wire.Strings.Errors.{read_lp_bytes_cases}
use simq.Wire.Header.{
  Header, type_of, header_msglen, encode_header_to_buf, decode_header, with_flags,
}
use simq.Wire.Header.Laws.{decode-encode_header, decoded_header, IsHeader}
use simq.Wire.Header.Errors.{decode_header-truncates, decode_header-overflow, eleven_bytes}
use simq.Wire.Ack.{Puback, encode_to_buf, decode_ack}
use simq.Wire.Ack.Build.{IsAck, reason_bytes}
use simq.Wire.Ack.RoundTrip.{decode_ack-encode_to_buf, Decoded}
use simq.Wire.Ack.Errors.{decode_ack-panic}

abbrev ack_header : Header
ack_header = record {
  remlen = 0;
  mtypeflags = 0x40 ∷ [];
  packet_id = 0 ∷ 7 ∷ [];
  dbuf = [];
  dirty = true;
}

-- What `NewPubackMessage` gives.
abbrev fresh_ack : Puback
fresh_ack = record {
  header = record ack_header { packet_id = [] };
  reason_code = 0;
  property_len = 0;
  reason_str = [];
  user_property = [];
}

-- Reason code 0x80, a reason string and one user property.
abbrev full_ack : Puback
full_ack = record {
  header = ack_header;
  reason_code = 0x80;
  property_len = 0;
  reason_str = 111 ∷ 107 ∷ [];
  user_property = (97 ∷ []) ∷ (98 ∷ []) ∷ [];
}

-- The same with no user property.
abbrev cut_ack : Puback
cut_ack = record full_ack { user_property = [] }

abbrev ping_header : Header
ping_header = record {
  remlen = 0;
  mtypeflags = 0xc0 ∷ [];
  packet_id = [];
  dbuf = [];
  dirty = false;
}

lb_decode-lb_encode_example :
    (out : List ℕ) × (lb_encode 16384 ≡ ok out)
    × (lb_decode (out ++ (9 ∷ [])) ≡ ok (16384, length out))
    × (1 ≤ length out)
    × (length out ≤ 4)
lb_decode-lb_encode_example = lb_decode-lb_encode 16384 (9 ∷ []) (omega arith)

lb_decode_run : lb_decode (0x80 ∷ 0x01 ∷ 5 ∷ []) ≡ ok (128, 2)
unfolding lb_decode
lb_decode_run = refl

lb_decode_bounds_example : EndsWithin (0x80 ∷ 0x01 ∷ 5 ∷ []) (lb_decode (0x80 ∷ 0x01 ∷ 5 ∷ []))
lb_decode_bounds_example = lb_decode_bounds (0x80 ∷ 0x01 ∷ 5 ∷ []) (omega arith)

lb_decode-panic_example : lb_decode (0x80 ∷ 0xff ∷ []) ≡ panic
lb_decode-panic_example = lb_decode-panic 0x80 (0xff ∷ []) (omega arith) (omega arith)

decode-write_user_property_example :
    (out : List ℕ) × (write_user_property_by_buf ((97 ∷ []) ∷ []) ≡ ok out)
    × (length out ≡ build_user_property_len ((97 ∷ []) ∷ []))
    × (decode_user_property (record { bytes = out; spare = [] })
        ≡ ok (paired ((97 ∷ []) ∷ []), length out))
decode-write_user_property_example = decode-write_user_property ((97 ∷ []) ∷ []) [] (omega arith)

read_lp_bytes_cases_example :
    read_lp_bytes (record { bytes = 0 ∷ 3 ∷ 97 ∷ 98 ∷ []; spare = 99 ∷ [] }) ≡ (
      if ltb 4 3
      then err invalid_message
      else (if leb 3 3 then ok (97 ∷ 98 ∷ 99 ∷ [], 5) else panic))
read_lp_bytes_cases_example = read_lp_bytes_cases 0 3 (97 ∷ 98 ∷ []) (99 ∷ [])

ack_header-IsHeader : IsHeader (record ack_header { remlen = 2 }) 0x40
unfolding default_flags
ack_header-IsHeader = record {
  one_byte = refl;
  known_type = refl;
  known_flags = refl;
  small = omega arith;
  body = refl;
}

decode-encode_header_example :
    (out : List ℕ) × (encode_header_to_buf (record ack_header { remlen = 2 }) ≡ ok out)
    × (length out ≡ header_msglen (record ack_header { remlen = 2 }))
    × (decode_header ack_header (record { bytes = out ++ (0 ∷ 7 ∷ []); spare = [] })
        ≡ ok (
          length out,
          decoded_header ack_header (record ack_header { remlen = 2 }) 0x40 (out ++ (0 ∷ 7 ∷ [])),
        ))
unfolding type_of
decode-encode_header_example =
    decode-encode_header (record ack_header { remlen = 2 }) ack_header 0x40 (0 ∷ 7 ∷ []) []
      ack_header-IsHeader refl (omega arith)

-- The remaining length 2^32 + 2 in five bytes.
long_two : uvarint (0x82 ∷ 0x80 ∷ 0x80 ∷ 0x80 ∷ 0x10 ∷ 0 ∷ 7 ∷ []) ≡ value 4294967298 5
unfolding uvarint
long_two = refl

decode_header-truncates_example :
    decode_header ack_header
      (record { bytes = 0x40 ∷ 0x82 ∷ 0x80 ∷ 0x80 ∷ 0x80 ∷ 0x10 ∷ 0 ∷ 7 ∷ []; spare = [] })
    ≡ ok (
      6,
      record (with_flags ack_header) {
        dbuf = 0x40 ∷ 0x82 ∷ 0x80 ∷ 0x80 ∷ 0x80 ∷ 0x10 ∷ 0 ∷ 7 ∷ [];
        mtypeflags = 0x40 ∷ [];
        remlen = 2;
      },
    )
unfolding type_of default_flags
decode_header-truncates_example =
    decode_header-truncates ack_header 0x40 4294967298 5
      (0x82 ∷ 0x80 ∷ 0x80 ∷ 0x80 ∷ 0x10 ∷ 0 ∷ 7 ∷ []) (0 ∷ 7 ∷ []) [] refl refl refl long_two
      (omega arith) (omega arith) (record { within = omega arith; left = refl }) (omega arith)

abbrev ten_marked : List ℕ
ten_marked = 0x80 ∷ 0x80 ∷ 0x80 ∷ 0x80 ∷ 0x80 ∷ 0x80 ∷ 0x80 ∷ 0x80 ∷ 0x80 ∷ 0x80 ∷ []

decode_header-overflow_example :
    decode_header ping_header (record { bytes = 0xc0 ∷ (ten_marked ++ (1 ∷ [])); spare = [] })
    ≡ panic
unfolding type_of default_flags
decode_header-overflow_example =
    decode_header-overflow ping_header 0xc0 ten_marked 1 [] [] refl refl refl (omega arith)
      (eleven_bytes refl)

full_ack-IsAck : IsAck full_ack 0x40
unfolding default_flags reason_bytes property_bytes
full_ack-IsAck = record {
  changed = refl;
  one_byte = refl;
  known_type = refl;
  known_flags = refl;
  reason_short = omega arith;
  properties_short = omega arith;
  small = omega arith;
}

cut_ack-IsAck : IsAck cut_ack 0x40
unfolding default_flags reason_bytes property_bytes
cut_ack-IsAck = record {
  changed = refl;
  one_byte = refl;
  known_type = refl;
  known_flags = refl;
  reason_short = omega arith;
  properties_short = omega arith;
  small = omega arith;
}

decode_ack-encode_to_buf_example :
    (out : List ℕ) × (p' : Puback) × (q : Puback) × (encode_to_buf full_ack ≡ ok (out, p'))
    × (decode_ack valid_puback_reason_code fresh_ack (record { bytes = out; spare = [] })
        ≡ ok (length out, q))
    × Decoded fresh_ack full_ack q
unfolding type_of valid_puback_reason_code
decode_ack-encode_to_buf_example =
    decode_ack-encode_to_buf valid_puback_reason_code fresh_ack full_ack 0x40 0 7 [] full_ack-IsAck
      refl refl refl refl refl (inr (λ e. cc)) refl

decode_ack-panic_example :
    (out : List ℕ) × (p' : Puback) × (encode_to_buf cut_ack ≡ ok (out, p'))
    × (decode_ack valid_puback_reason_code fresh_ack (record { bytes = out; spare = [] }) ≡ panic)
unfolding type_of valid_puback_reason_code
decode_ack-panic_example =
    decode_ack-panic valid_puback_reason_code fresh_ack cut_ack 0x40 0 7 111 (107 ∷ []) []
      cut_ack-IsAck refl refl refl refl refl
