-- ===== src/Wire/Suback/Laws.antt =====
-- SUBACK and UNSUBACK: a whole packet is read back.
use simq.Base.{
  ℕ, ◌+◌, ◌-◌, ◌/◌, ◌≤◌, ◌≡◌, refl, sym, subst, Bool, true, false, List, [], ◌∷◌, ◌++◌, length,
  length-append, ok, arith,
}
use simq.Wire.Codes.{valid_suback_reason_code, valid_unsuback_reason_code, max_remaining_length}
use simq.Wire.Slice.{Slice, len, copy_len, Rest, Rest-step, from-Rest, length-Rest}
use simq.Wire.VarInt.Laws.{groups, lb_encode-groups, length-groups}
use simq.Wire.Strings.Laws.{
  paired, property_bytes, write_user_property-bytes, length-property_bytes,
  decode_user_property-then, take-all,
}
use simq.Wire.Header.{type_of, header_msglen, set_remaining_length}
use simq.Wire.Header.Laws.{IsHeader, header_bytes, decoded_header}
use simq.Wire.Ack.{try_remaining_length, packet_id_bytes}
use simq.Wire.Ack.Build.{reason_bytes, write_reason-bytes, length-reason_bytes}
use simq.Wire.Request.Laws.{open_packet-bytes, write_top-bytes, integer_at-groups, sub_left}
use simq.Wire.Suback.{
  SubackMessage, read_reason_string, decode_codes, decode_suback, decode_unsuback, build_suback,
  encode_unsuback, encode_suback,
}
use simq.Wire.Suback.Build.{
  properties, properties, tail_bytes, tail_bytes, IsSuback, built, built, length-properties,
  length-properties, length-tail_bytes, length-tail_bytes, read_reason_string-bytes,
  read_reason_string-bytes, read_reason_string-bytes, NoTag, NoTag, first_code, first_code,
  first_code, length-some, length-some, length-some, behind_reason, behind_reason, behind_reason,
  behind_reason, behind_reason,
}

-- What `Decode` leaves in the receiver of the packet of `m`.
pub record Decoded (m q : SubackMessage) : Type 0 where
  pub packet_id : q.header.packet_id ≡ m.header.packet_id
  pub remlen : q.header.remlen ≡ (built m).header.remlen
  pub clean : q.header.dirty ≡ false
  pub properties_len : q.properties_len ≡ (built m).properties_len
  pub reason_str : q.reason_str ≡ m.reason_str
  pub user_property : q.user_property ≡ paired m.user_property
  pub reason_codes : q.reason_codes ≡ m.reason_codes

module _ (valid : ℕ → Bool) (m : SubackMessage) (b : ℕ) (v : IsSuback valid m b) where
  small : length (properties m) + length m.reason_codes + 6 ≤ max_remaining_length
  small = v.small

  built-size : 2 + length (tail_bytes m) ≤ max_remaining_length
  built-size =
      let g = length-groups (length (properties m)) (omega (arith, small)) in
      omega (arith, length-tail_bytes m, small)

  built-IsHeader : IsHeader (built m).header b
  unfolding built
  built-IsHeader = record {
    one_byte = v.one_byte;
    known_type = v.known_type;
    known_flags = v.known_flags;
    small = built-size;
    body = ground arith;
  }

  build_suback-built : build_suback m ≡ ok (built m)
  unfolding build_suback built try_remaining_length set_remaining_length
  build_suback-built = ground (
    arith,
    small,
    length-reason_bytes m.reason_str,
    length-property_bytes m.user_property,
    length-properties m,
    lb_encode-groups (length (properties m)),
    length-tail_bytes m,
    built-size,
  )

  encode_unsuback-bytes :
      (x y : ℕ)
      → m.header.packet_id ≡ x ∷ y ∷ []
      → encode_unsuback m ≡ ok (header_bytes (built m).header b ++ (x ∷ y ∷ tail_bytes m), built m)
  unfolding encode_unsuback built packet_id_bytes
  encode_unsuback-bytes x y id = ground (
    arith,
    v.changed,
    build_suback-built,
    write_top-bytes (built m).header b built-IsHeader,
    lb_encode-groups (length (properties m)) (omega (arith, small)),
    write_reason-bytes m.reason_str v.reason_short,
    write_user_property-bytes m.user_property v.properties_short,
    id,
  )

  module _ (checked : Bool) (r : SubackMessage) (x y : ℕ) (spare : List ℕ) where
    abbrev bytes_sent : List ℕ
    bytes_sent = header_bytes (built m).header b ++ (x ∷ y ∷ tail_bytes m)

    abbrev source : Slice
    source = record { bytes = bytes_sent; spare = spare }

    abbrev left : SubackMessage
    left = record {
      header = record (decoded_header r.header (built m).header b bytes_sent) {
        packet_id = x ∷ y ∷ [];
        dirty = false;
      };
      properties_len = length (properties m);
      reason_str = m.reason_str;
      user_property = paired m.user_property;
      reason_codes = m.reason_codes;
    }

    -- The indices that `Decode` goes through.
    abbrev behind_length : ℕ
    behind_length = header_msglen (built m).header + 2 + length (groups 3 (length (properties m)))

    abbrev behind_reason_string : ℕ
    behind_reason_string = behind_length + length (reason_bytes m.reason_str)

    abbrev behind_properties : ℕ
    behind_properties = behind_reason_string + length (property_bytes m.user_property)

    decode_codes-bytes :
        NoTag valid
        → type_of r.header ≡ b / 16
        → r.reason_str ≡ []
        → decode_codes valid checked r source ≡ ok (len source, left)
    unfolding decode_codes built copy_len
    decode_codes-bytes nt t z =
        let reason : List ℕ = reason_bytes m.reason_str in
        let props : List ℕ = property_bytes m.user_property in
        let cs : List ℕ = m.reason_codes in
        let n : ℕ = length (properties m) in
        let size = length-tail_bytes m in
        let (no_property, no_reason) = first_code valid cs nt v.some_code v.codes in
        let (e₀, r₀) =
          open_packet-bytes (built m).header r.header b x y (tail_bytes m) spare built-IsHeader t
            (omega arith) in
        let e₁ = integer_at-groups n (reason ++ (props ++ cs)) (omega (arith, small)) r₀ in
        let r₁ : Rest source behind_length (reason ++ (props ++ cs)) =
          Rest-step (groups 3 n) (reason ++ (props ++ cs)) r₀ in
        let (c, more, e, ne) = behind_reason m.user_property cs v.some_code no_reason in
        let e₂ : read_reason_string r source behind_length
            ≡ ok (m.reason_str, behind_reason_string) =
          read_reason_string-bytes r m.reason_str c more z v.reason_short ne
            (subst (λ bs. Rest source behind_length (reason ++ bs)) e r₁) in
        let r₂ : Rest source behind_reason_string (props ++ cs) =
          Rest-step reason (props ++ cs) r₁ in
        let e₃ =
          decode_user_property-then m.user_property cs spare v.properties_short no_property in
        let r₃ : Rest source behind_properties cs = Rest-step props cs r₂ in
        let parts = length-properties m in
        let e₄ =
          sub_left (header_msglen (built m).header + (built m).header.remlen) cs r₃ (omega arith) in
        let taken =
          take-all cs (header_msglen (built m).header + (built m).header.remlen - behind_properties)
            (omega arith) in
        let some = length-some cs v.some_code in
        ground (
          arith,
          e₀,
          e₁,
          from-Rest r₁,
          length-append reason (props ++ cs),
          length-append props cs,
          e₂,
          from-Rest r₂,
          e₃,
          e₄,
          v.codes,
          length-Rest r₃,
        )

reads_back :
    (valid : ℕ → Bool) (checked : Bool) (r m : SubackMessage) (b x y : ℕ) (spare : List ℕ)
    → IsSuback valid m b
    → NoTag valid
    → type_of r.header ≡ b / 16
    → r.reason_str ≡ []
    → m.header.packet_id ≡ x ∷ y ∷ []
    → (out : List ℕ) × (m' q : SubackMessage) × (encode_unsuback m ≡ ok (out, m'))
      × (decode_codes valid checked r (record { bytes = out; spare = spare }) ≡ ok (length out, q))
      × Decoded m q
unfolding built
reads_back valid checked r m b x y spare v nt t z id = (
  bytes_sent valid m b v checked r x y spare,
  built m,
  left valid m b v checked r x y spare,
  encode_unsuback-bytes valid m b v x y id,
  decode_codes-bytes valid m b v checked r x y spare nt t z,
  record {
    packet_id = sym id;
    remlen = refl;
    clean = refl;
    properties_len = refl;
    reason_str = refl;
    user_property = refl;
    reason_codes = refl;
  },
)

-- `Decode` reads back what `EncodeToBuf` writes for a SUBACK with valid reason codes, one at least:
-- the packet identifier, the lengths, the reason string, the user properties (an empty value for a
-- key with none) and the reason codes, and goes through the whole packet. The receiver is of the type
-- SUBACK with no reason string.
pub decode-encode_suback :
    (r m : SubackMessage) (x y : ℕ) (spare : List ℕ)
    → IsSuback valid_suback_reason_code m 0x90
    → type_of r.header ≡ 9
    → r.reason_str ≡ []
    → m.header.packet_id ≡ x ∷ y ∷ []
    → (out : List ℕ) × (m' q : SubackMessage) × (encode_suback m ≡ ok (out, m'))
      × (decode_suback r (record { bytes = out; spare = spare }) ≡ ok (length out, q))
      × Decoded m q
unfolding decode_suback encode_suback valid_suback_reason_code
decode-encode_suback r m x y spare v t z id =
    let (out, m', q, e, d, same) =
      reads_back valid_suback_reason_code true r m 0x90 x y spare v (refl, refl) t z id in
    (out, m', q, ground (arith, v.codes, v.changed, e), d, same)

-- `Decode` reads back what `EncodeToBuf` writes for an UNSUBACK with reason codes of its table, one at
-- least: the packet identifier, the lengths, the reason string, the user properties (an empty value
-- for a key with none) and the reason codes, and goes through the whole packet. The receiver is of
-- the type UNSUBACK with no reason string.
pub decode-encode_unsuback :
    (r m : SubackMessage) (x y : ℕ) (spare : List ℕ)
    → IsSuback valid_unsuback_reason_code m 0xb0
    → type_of r.header ≡ 11
    → r.reason_str ≡ []
    → m.header.packet_id ≡ x ∷ y ∷ []
    → (out : List ℕ) × (m' q : SubackMessage) × (encode_unsuback m ≡ ok (out, m'))
      × (decode_unsuback r (record { bytes = out; spare = spare }) ≡ ok (length out, q))
      × Decoded m q
unfolding decode_unsuback valid_unsuback_reason_code
decode-encode_unsuback r m x y spare v t z id =
    reads_back valid_unsuback_reason_code false r m 0xb0 x y spare v (refl, refl) t z id
