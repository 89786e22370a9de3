-- ===== src/Wire/Ack.antt =====
-- PUBACK, PUBREC, PUBREL and PUBCOMP: `PubackMessage` of corev5/v2/message/puback.go, and the three
-- types of pubrec.go, pubrel.go and pubcomp.go that embed it and differ in their table of reason
-- codes. An error result does not say how many bytes were gone through.
pub mod Build
pub mod Read
pub mod Laws
pub mod RoundTrip
pub mod Errors
pub mod Encode
pub mod InPlace
use simq.Base.{
  ℕ, ◌+◌, ◌%◌, ◌^◌, Bool, true, false, List, [], ◌∷◌, ◌++◌, ltb, ◌==◌, length, if◌then◌else◌,
  Outcome, ok, err, panic, stuck, ◌>>=◌, ◌>>◌, reject, ◌&&◌, not, protocol_error,
}
use simq.Wire.Codes.{
  success, reason_string, valid_puback_reason_code, valid_pubrec_reason_code,
  valid_pubrel_reason_code, valid_pubcomp_reason_code, puback, pubrec, pubrel, pubcomp,
}
use simq.Wire.Slice.{Slice, len, at, from, sub, copy_len}
use simq.Wire.VarInt.{lb_encode, lb_decode}
use simq.Wire.Strings.{
  read_at, write_to_buf_lp_bytes, decode_user_property, write_user_property_by_buf,
  build_user_property_len,
}
use simq.Wire.Header.{
  Header, empty_header, set_type, set_remaining_length, encode_header_to_buf, with_flags,
  decode_header,
}

pub record Puback : Type 0 where
  pub header : Header
  pub reason_code : ℕ
  pub property_len : ℕ
  pub reason_str : List ℕ
  pub user_property : List (List ℕ)

-- `NewPubackMessage` and its three likes, by the type that they set.
unfoldable pub new_ack : ℕ → Outcome Puback
new_ack t = do
  h ← set_type empty_header t
  ok (record { header = h; reason_code = 0; property_len = 0; reason_str = []; user_property = [] })

-- `_ = SetRemainingLength(n)`: an error leaves the header as it was.
unfoldable pub try_remaining_length : Header → ℕ → Header
unfolding set_remaining_length
try_remaining_length h n = elim (set_remaining_length h n) [ ok h' ↦ h' | _ ↦ h ]

-- The property length that `build` computes.
unfoldable pub built_property_len : Puback → ℕ
built_property_len p =
    ((if length p.reason_str == 0 then 0 else 3 + length p.reason_str)
      + build_user_property_len p.user_property)
    % 2 ^ 32

-- `build`.
unfoldable pub build : Puback → Outcome Puback
unfolding try_remaining_length
build p =
    let n = built_property_len p in
    let sized = λ (k : ℕ). record p {
      header = try_remaining_length p.header (k % 2 ^ 32);
      property_len = n;
    } in
    if n == 0
    then (if p.reason_code == success then ok (sized 2) else ok (sized 3))
    else (lb_encode n >>= λ e. ok (sized (2 + 1 + n + length e)))

-- The packet identifier as `EncodeToBuf` writes it.
unfoldable pub packet_id_bytes : Header → List ℕ
packet_id_bytes h = if length h.packet_id == 2 then h.packet_id else 0 ∷ 0 ∷ []

-- The reason string property, which an empty string does not get.
unfoldable pub write_reason : List ℕ → Outcome (List ℕ)
write_reason reason =
    if length reason == 0
    then ok []
    else (write_to_buf_lp_bytes reason >>= λ b. ok (reason_string ∷ b))

-- The properties behind a property length `n` that is not 0.
unfoldable pub write_properties : Puback → Outcome (List ℕ)
write_properties p = do
  l ← lb_encode p.property_len
  r ← write_reason p.reason_str
  u ← write_user_property_by_buf p.user_property
  ok (l ++ (r ++ u))

-- What stands behind the packet identifier, of a message whose lengths are built.
unfoldable pub write_tail : Puback → Outcome (List ℕ)
write_tail p =
    if p.header.remlen == 2 && p.reason_code == success
    then ok []
    else (if p.property_len == 0
        then ok (p.reason_code ∷ [])
        else (write_properties p >>= λ b. ok (p.reason_code ∷ b)))

-- `EncodeToBuf`: what it appends, and the message with its lengths built.
unfoldable pub encode_to_buf : Puback → Outcome (List ℕ × Puback)
encode_to_buf p =
    let changed = do
      p₁ ← build p
      h ← set_remaining_length p₁.header (p₁.header.remlen % 2 ^ 32)
      let p₂ = record p₁ { header = h }
      top ← encode_header_to_buf p₂.header
      tail ← write_tail p₂
      ok (top ++ (packet_id_bytes p₂.header ++ tail), record p₂ { header = with_flags h })
    in if p.header.dirty then changed else ok (p.header.dbuf, p)

-- The property length of `decodeOther`: absent at the end of the packet.
unfoldable pub read_property_len : Puback → Slice → ℕ → Outcome (ℕ × ℕ)
read_property_len p src total =
    if ltb total (len src)
    then (from src total >>= λ s. lb_decode s.bytes >>= λ (v, n). ok (v, total + n))
    else ok (p.property_len, total)

-- The reason string of `decodeOther`, and the byte behind it, which must not be a second one.
unfoldable pub read_reason : Puback → Slice → ℕ → Outcome (List ℕ × ℕ)
read_reason p src total =
    let present = do
      (b, n) ← read_at src (total + 1)
      next ← at src (total + 1 + n)
      reject (next == reason_string) protocol_error
      ok (b, total + 1 + n)
    in if ltb total (len src)
      then (at src total >>= λ tag.
          if tag == reason_string then present else ok (p.reason_str, total))
      else ok (p.reason_str, total)

-- `decodeOther`; `valid` is the table of reason codes.
unfoldable pub decode_other : (ℕ → Bool) → Puback → Slice → ℕ → Outcome (ℕ × Puback)
decode_other valid p src total = do
  code ← at src total
  reject (not (valid code)) protocol_error
  (n, total₁) ← read_property_len p src (total + 1)
  (reason, total₂) ← read_reason p src total₁
  s ← from src total₂
  (ups, n') ← decode_user_property s
  let h = record p.header { dirty = false }
  ok (
    total₂ + n',
    record {
      header = h;
      reason_code = code;
      property_len = n;
      reason_str = reason;
      user_property = ups;
    },
  )

-- `Decode`: the number of bytes it goes through, and the message.
unfoldable pub decode_ack : (ℕ → Bool) → Puback → Slice → Outcome (ℕ × Puback)
decode_ack valid p src = do
  (total, h) ← decode_header p.header src
  id ← sub src total (total + 2)
  let p' = record p { header = record h { packet_id = copy_len id 2 } }
  if h.remlen == 2
      then ok (total + 2, record p' { reason_code = success })
      else decode_other valid p' src (total + 2)

unfoldable pub decode_puback : Puback → Slice → Outcome (ℕ × Puback)
decode_puback = decode_ack valid_puback_reason_code

unfoldable pub decode_pubrec : Puback → Slice → Outcome (ℕ × Puback)
decode_pubrec = decode_ack valid_pubrec_reason_code

unfoldable pub decode_pubrel : Puback → Slice → Outcome (ℕ × Puback)
decode_pubrel = decode_ack valid_pubrel_reason_code

unfoldable pub decode_pubcomp : Puback → Slice → Outcome (ℕ × Puback)
decode_pubcomp = decode_ack valid_pubcomp_reason_code
