-- ===== src/Wire/Ack/Build.antt =====
-- The lengths that `build` sets, and the bytes that `EncodeToBuf` writes.
use simq.Base.{
  ℕ, ◌+◌, ◌/◌, ◌^◌, ◌≤◌, ◌<◌, ◌≡◌, refl, true, List, [], ◌∷◌, ◌++◌, ◌==◌, length, if◌then◌else◌, ok,
  arith, length-append,
}
use simq.Wire.Codes.{valid_type, success, reason_string, max_lp_string, max_remaining_length}
use simq.Wire.VarInt.Laws.{groups, lb_encode-groups, length-groups}
use simq.Wire.Strings.{write_to_buf_lp_bytes}
use simq.Wire.Strings.Laws.{
  lp, AllShort, property_bytes, write_user_property-bytes, length-property_bytes,
}
use simq.Wire.Header.{set_remaining_length, with_flags}
use simq.Wire.Header.Laws.{IsHeader, good_flags, header_bytes, encode_header-bytes}
use simq.Wire.Ack.{
  Puback, built_property_len, build, packet_id_bytes, write_reason, write_properties, write_tail,
  encode_to_buf,
}

-- The reason string property.
unfoldable pub reason_bytes : List ℕ → List ℕ
reason_bytes [] = []
reason_bytes (c ∷ cs) = reason_string ∷ lp (c ∷ cs)

pub write_reason-bytes :
    (r : List ℕ) → length r ≤ max_lp_string → write_reason r ≡ ok (reason_bytes r)
unfolding write_reason reason_bytes write_to_buf_lp_bytes
write_reason-bytes [] h = refl
write_reason-bytes (c ∷ cs) h = ground arith

-- Both properties as they stand behind the property length.
abbrev pub properties : Puback → List ℕ
properties p = reason_bytes p.reason_str ++ property_bytes p.user_property

pub length-reason_bytes :
    (r : List ℕ) → length (reason_bytes r) ≡ (if length r == 0 then 0 else 3 + length r)
unfolding reason_bytes
length-reason_bytes [] = refl
length-reason_bytes (c ∷ cs) = ground arith

-- `build` computes the length of the properties that are written.
length-properties :
    (p : Puback) → length (properties p) < 2 ^ 32 → built_property_len p ≡ length (properties p)
unfolding built_property_len
length-properties p h = ground (
  arith,
  length-reason_bytes p.reason_str,
  length-append (reason_bytes p.reason_str) (property_bytes p.user_property),
  length-property_bytes p.user_property,
)

-- What stands behind the packet identifier.
unfoldable pub tail_bytes : Puback → List ℕ
tail_bytes p =
    let n = length (properties p) in
    if n == 0
    then (if p.reason_code == success then [] else p.reason_code ∷ [])
    else p.reason_code ∷ (groups 3 n ++ properties p)

-- A message that fits a packet; `b` is its first byte.
pub record IsAck (p : Puback) (b : ℕ) : Type 0 where
  pub changed : p.header.dirty ≡ true
  pub one_byte : p.header.mtypeflags ≡ b ∷ []
  pub known_type : valid_type (b / 16) ≡ true
  pub known_flags : good_flags b ≡ true
  pub reason_short : length p.reason_str ≤ max_lp_string
  pub properties_short : AllShort p.user_property
  pub small : length (properties p) + 7 ≤ max_remaining_length

-- The message with its lengths built.
unfoldable pub built : Puback → Puback
built p = record p {
  header = record p.header { remlen = 2 + length (tail_bytes p); dirty = true };
  property_len = length (properties p);
}

pub length-tail_bytes :
    (p : Puback)
    → length (properties p) + 7 ≤ max_remaining_length
    → length (tail_bytes p) ≤ length (properties p) + 5
unfolding tail_bytes
length-tail_bytes p h = ground (
  arith,
  length-append (groups 3 (length (properties p))) (properties p),
  length-groups (length (properties p)),
)

pub build_lem : (p : Puback) (b : ℕ) → IsAck p b → build p ≡ ok (built p)
unfolding build built tail_bytes
build_lem p b v = ground (
  arith,
  length-properties p,
  lb_encode-groups (length (properties p)),
  length-groups (length (properties p)),
  length-append (groups 3 (length (properties p))) (properties p),
)

write_properties-bytes :
    (p : Puback) (b : ℕ)
    → IsAck p b
    → write_properties (built p) ≡ ok (groups 3 (length (properties p)) ++ properties p)
unfolding write_properties built
write_properties-bytes p b v = rw (
  lb_encode-groups (length (properties p)) (omega (arith, v.small)),
  write_reason-bytes _ v.reason_short,
  write_user_property-bytes _ v.properties_short,
)

write_tail-bytes : (p : Puback) (b : ℕ) → IsAck p b → write_tail (built p) ≡ ok (tail_bytes p)
unfolding write_tail built tail_bytes
write_tail-bytes p b v = ground (
  arith,
  write_properties-bytes p b v,
  length-append (groups 3 (length (properties p))) (properties p),
  length-groups (length (properties p)),
  v.small,
)

pub built-IsHeader : (p : Puback) (b : ℕ) → IsAck p b → IsHeader (built p).header b
unfolding built
built-IsHeader p b v = ground (arith, length-tail_bytes p v.small)

-- The whole packet.
unfoldable pub packet : Puback → ℕ → List ℕ
packet p b = header_bytes (built p).header b ++ (packet_id_bytes p.header ++ tail_bytes p)

pub encode_to_buf-packet :
    (p : Puback) (b : ℕ) → IsAck p b → encode_to_buf p ≡ ok (packet p b, built p)
unfolding encode_to_buf packet built set_remaining_length with_flags packet_id_bytes
encode_to_buf-packet p b v = ground (
  arith,
  build_lem p b v,
  length-tail_bytes p v.small,
  encode_header-bytes (built p).header b (built-IsHeader p b v),
  write_tail-bytes p b v,
)
