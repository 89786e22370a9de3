-- ===== src/Wire/Suback.antt =====
-- SUBACK and UNSUBACK: `SubackMessage` and `UnsubackMessage` of corev5/v2/message/suback.go and
-- unsuback.go, which have the same fields and differ in their tables of reason codes and two guards.
-- An error result does not say how many bytes were gone through.
pub mod Build
pub mod Laws
mod Tests
use simq.Base.{
  ℕ, ◌+◌, ◌-◌, ◌%◌, ◌^◌, Bool, true, false, ◌||◌, ◌&&◌, not, List, [], ◌∷◌, ◌++◌, ltb, ◌==◌, length,
  if◌then◌else◌, Outcome, ok, err, panic, stuck, ◌>>=◌, ◌>>◌, reject, protocol_error, bad_option,
}
use simq.Wire.Codes.{
  reason_string, suback, unsuback, valid_suback_reason_code, valid_unsuback_reason_code, valid_qos,
}
use simq.Wire.Slice.{Slice, len, at, from, sub, copy_len}
use simq.Wire.VarInt.{lb_encode}
use simq.Wire.Strings.{
  read_at, decode_user_property, write_user_property_by_buf, build_user_property_len,
}
use simq.Wire.Header.{Header, empty_header, set_type}
use simq.Wire.Ack.{try_remaining_length, packet_id_bytes, write_reason}
use simq.Wire.Publish.{integer_at}
use simq.Wire.Request.{open_packet, write_top}

pub record SubackMessage : Type 0 where
  pub header : Header
  pub properties_len : ℕ
  pub reason_str : List ℕ
  pub user_property : List (List ℕ)
  pub reason_codes : List ℕ

-- `NewSubackMessage` and `NewUnsubackMessage`, by the type that they set.
unfoldable pub new_suback : ℕ → Outcome SubackMessage
new_suback t = do
  h ← set_type empty_header t
  ok (record {
    header = h;
    properties_len = 0;
    reason_str = [];
    user_property = [];
    reason_codes = [];
  })

-- `AddReasonCodes` of SUBACK: the message, and whether all the codes are taken. The codes in front of
-- one that is refused stay in the message.
unfoldable pub add_reason_codes : SubackMessage → List ℕ → SubackMessage × Bool
add_reason_codes m [] = (record m { header = record m.header { dirty = true } }, true)
add_reason_codes m (c ∷ cs) =
    let rest = add_reason_codes (record m { reason_codes = m.reason_codes ++ (c ∷ []) }) cs in
    if valid_qos c || c == 0x80 then rest else (m, false)

-- `AddReasonCodes` of UNSUBACK.
unfoldable pub add_unsuback_codes : SubackMessage → List ℕ → SubackMessage
add_unsuback_codes m cs = record m {
  reason_codes = m.reason_codes ++ cs;
  header = record m.header { dirty = true };
}

-- The loops that refuse a reason code.
abbrev pub all_valid : (ℕ → Bool) → List ℕ → Bool
all_valid valid [] = true
all_valid valid (c ∷ cs) = valid c && all_valid valid cs

-- The reason string, and the byte behind it, which must not be a second one.
unfoldable pub read_reason_string : SubackMessage → Slice → ℕ → Outcome (List ℕ × ℕ)
read_reason_string m src total =
    let present = do
      (b, n) ← read_at src (total + 1)
      next ← at src (total + 1 + n)
      reject (next == reason_string) protocol_error
      ok (b, total + 1 + n)
    in if ltb total (len src)
      then (at src total >>= λ tag.
          if tag == reason_string then present else ok (m.reason_str, total))
      else ok (m.reason_str, total)

-- `Decode`, with the table `valid`; `checked` says whether the property length is held against what
-- is left (in range, since `lbDecode` has read up to it). A length of the reason codes below 0 makes
-- the slice panic.
unfoldable pub decode_codes :
    (ℕ → Bool) → Bool → SubackMessage → Slice → Outcome (ℕ × SubackMessage)
decode_codes valid checked m src = do
  (hn, total, h) ← open_packet m.header src
  (n, at₁) ← integer_at src total
  s ← from src at₁
  reject (checked && ltb (len s) n) protocol_error
  (r, at₂) ← read_reason_string m src at₁
  s' ← from src at₂
  (u, un) ← decode_user_property s'
  reject (h.remlen == at₂ + un - hn) protocol_error
  b ← sub src (at₂ + un) (hn + h.remlen)
  let cs = copy_len b (hn + h.remlen - (at₂ + un))
  reject (not (all_valid valid cs)) protocol_error
  ok (
    at₂ + un + length cs,
    record {
      header = record h { dirty = false };
      properties_len = n;
      reason_str = r;
      user_property = u;
      reason_codes = cs;
    },
  )

unfoldable pub decode_suback : SubackMessage → Slice → Outcome (ℕ × SubackMessage)
decode_suback = decode_codes valid_suback_reason_code true

unfoldable pub decode_unsuback : SubackMessage → Slice → Outcome (ℕ × SubackMessage)
decode_unsuback = decode_codes valid_unsuback_reason_code false

-- `build`.
unfoldable pub build_suback : SubackMessage → Outcome SubackMessage
build_suback m = do
  let n =
      (if length m.reason_str == 0 then 0 else 3 + length m.reason_str)
      + build_user_property_len m.user_property
  e ← lb_encode (n % 2 ^ 32)
  let total = 2 + n + length e + length m.reason_codes
  ok (record m {
    header = try_remaining_length m.header (total % 2 ^ 32);
    properties_len = n % 2 ^ 32;
  })

-- `EncodeToBuf` of UNSUBACK: what it appends, and the message as it is left.
unfoldable pub encode_unsuback : SubackMessage → Outcome (List ℕ × SubackMessage)
encode_unsuback m =
    let changed = do
      m₁ ← build_suback m
      (top, h) ← write_top m₁.header
      n ← lb_encode m₁.properties_len
      r ← write_reason m₁.reason_str
      u ← write_user_property_by_buf m₁.user_property
      ok (
        top ++ (packet_id_bytes h ++ (n ++ (r ++ (u ++ m₁.reason_codes)))),
        record m₁ { header = h },
      )
    in if m.header.dirty then changed else ok (m.header.dbuf, m)

-- `EncodeToBuf` of SUBACK, which checks the reason codes. Its error has a text of its own.
unfoldable pub encode_suback : SubackMessage → Outcome (List ℕ × SubackMessage)
encode_suback m =
    let changed = do
      reject (not (all_valid valid_suback_reason_code m.reason_codes)) bad_option
      encode_unsuback m
    in if m.header.dirty then changed else ok (m.header.dbuf, m)
