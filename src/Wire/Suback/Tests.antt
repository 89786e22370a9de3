-- ===== src/Wire/Suback/Tests.antt =====
-- SUBACK and UNSUBACK on concrete messages.
use simq.Base.{ℕ, ◌≡◌, refl, true, false, List, [], ◌∷◌, length, ok, arith}
use simq.Wire.Codes.{valid_suback_reason_code, valid_unsuback_reason_code, default_flags}
use simq.Wire.Strings.Laws.{property_bytes}
use simq.Wire.Header.{type_of, with_flags}
use simq.Wire.Ack.Build.{reason_bytes}
use simq.Wire.Suback.{
  SubackMessage, add_reason_codes, decode_suback, decode_unsuback, encode_suback, encode_unsuback,
}
use simq.Wire.Suback.Build.{IsSuback}
use simq.Wire.Suback.Laws.{Decoded, decode-encode_suback, decode-encode_unsuback}

abbrev fresh : ℕ → SubackMessage
fresh b = record {
  header = record { remlen = 0; mtypeflags = b ∷ []; packet_id = []; dbuf = []; dirty = true };
  properties_len = 0;
  reason_str = [];
  user_property = [];
  reason_codes = [];
}

-- A reason string, a key with its value, and two reason codes.
abbrev message : ℕ → SubackMessage
message b = record (fresh b) {
  header = record (fresh b).header { packet_id = 0 ∷ 7 ∷ [] };
  reason_str = 111 ∷ 107 ∷ [];
  user_property = (107 ∷ []) ∷ (118 ∷ []) ∷ [];
  reason_codes = 0 ∷ 0x80 ∷ [];
}

message-IsSuback : IsSuback valid_suback_reason_code (message 0x90) 0x90
unfolding valid_suback_reason_code default_flags reason_bytes property_bytes
message-IsSuback = record {
  changed = refl;
  one_byte = refl;
  known_type = refl;
  known_flags = refl;
  reason_short = omega arith;
  properties_short = (omega arith, (omega arith, tt));
  some_code = cc;
  codes = refl;
  small = omega arith;
}

other-IsSuback : IsSuback valid_unsuback_reason_code (message 0xb0) 0xb0
unfolding valid_unsuback_reason_code default_flags reason_bytes property_bytes
other-IsSuback = record {
  changed = refl;
  one_byte = refl;
  known_type = refl;
  known_flags = refl;
  reason_short = omega arith;
  properties_short = (omega arith, (omega arith, tt));
  some_code = cc;
  codes = refl;
  small = omega arith;
}

decode-encode_suback_example :
    (out : List ℕ) × (m' q : SubackMessage) × (encode_suback (message 0x90) ≡ ok (out, m'))
    × (decode_suback (fresh 0x90) (record { bytes = out; spare = 9 ∷ [] }) ≡ ok (length out, q))
    × Decoded (message 0x90) q
unfolding type_of with_flags
decode-encode_suback_example =
    decode-encode_suback (fresh 0x90) (message 0x90) 0 7 (9 ∷ []) message-IsSuback refl refl refl

decode-encode_unsuback_example :
    (out : List ℕ) × (m' q : SubackMessage) × (encode_unsuback (message 0xb0) ≡ ok (out, m'))
    × (decode_unsuback (fresh 0xb0) (record { bytes = out; spare = 9 ∷ [] }) ≡ ok (length out, q))
    × Decoded (message 0xb0) q
unfolding type_of with_flags
decode-encode_unsuback_example =
    decode-encode_unsuback (fresh 0xb0) (message 0xb0) 0 7 (9 ∷ []) other-IsSuback refl refl refl

-- A code that SUBACK does not take: those in front of it stay, and the message is not marked.
add_reason_codes_part :
    add_reason_codes (fresh 0x90) (1 ∷ 3 ∷ 2 ∷ [])
    ≡ (record (fresh 0x90) { reason_codes = 1 ∷ [] }, false)
unfolding add_reason_codes
add_reason_codes_part = refl
