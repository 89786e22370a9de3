-- ===== src/Wire/Publish.antt =====
-- PUBLISH: `PublishMessage` of corev5/v2/message/publish.go, read by `Decode` and written by
-- `EncodeToBuf`. An error result does not say how many bytes were gone through.
pub mod Kept
mod Tests
use simq.Base.{
  ℕ, ◌+◌, ◌-◌, ◌*◌, ◌/◌, ◌%◌, ◌^◌, bit_and, Bool, true, false, ◌&&◌, ◌||◌, not, List, [], ◌∷◌, ◌++◌,
  ltb, ◌==◌, length, get_or, if◌then◌else◌, Outcome, ok, err, panic, stuck, ◌>>=◌, ◌>>◌, reject,
  protocol_error, bad_topic, empty_payload,
}
use simq.Wire.Codes.{
  payload_format, message_expiry, content_type, response_topic, related_data, defining_identifiers,
  topic_alias,
}
use simq.Wire.Slice.{Slice, len, at, from, sub, copy_len}
use simq.Wire.VarInt.{lb_encode, lb_decode}
use simq.Wire.Strings.{
  read_at, write_to_buf_lp_bytes, decode_user_property, write_user_property_by_buf,
  build_user_property_len,
}
use simq.Wire.Header.{
  Header, flags, set_packet_id, packet_id_of, set_remaining_length, encode_header_to_buf,
  with_flags, decode_header,
}
use simq.Wire.Ack.{try_remaining_length}

pub record PublishMessage : Type 0 where
  pub header : Header
  pub topic : List ℕ
  pub properties_len : ℕ
  pub format : ℕ
  pub expiry : ℕ
  pub alias : ℕ
  pub response : List ℕ
  pub correlation : List ℕ
  pub user_property : List (List ℕ)
  pub sub_identifier : ℕ
  pub content : List ℕ
  pub payload : List ℕ

-- `NewPublishMessage`.
abbrev pub new_publish : PublishMessage
new_publish = record {
  header = record { remlen = 0; mtypeflags = 0x30 ∷ []; packet_id = []; dbuf = []; dirty = true };
  topic = [];
  properties_len = 0;
  format = 0;
  expiry = 0;
  alias = 0;
  response = [];
  correlation = [];
  user_property = [];
  sub_identifier = 0;
  content = [];
  payload = [];
}

-- `QoS`.
abbrev pub qos_of : Header → ℕ
qos_of h = bit_and (flags h / 2) 3

-- `ValidTopic`.
abbrev pub contains : ℕ → List ℕ → Bool
contains c [] = false
contains c (x ∷ xs) = let rest = contains c xs in if x == c then true else rest

unfoldable pub valid_topic : List ℕ → Bool
valid_topic t = ltb 0 (length t) && (not (contains 35 t) && not (contains 43 t))

-- `QoS`, `Dup` and `Retain` of a message.
unfoldable pub publish_qos : PublishMessage → ℕ
publish_qos p = qos_of p.header

unfoldable pub publish_dup : PublishMessage → Bool
publish_dup p = bit_and (flags p.header / 8) 1 == 1

unfoldable pub publish_retain : PublishMessage → Bool
publish_retain p = bit_and (flags p.header) 1 == 1

-- `SetTopic`, of which the error is ignored, and `SetTopicAlias`.
unfoldable pub set_topic : PublishMessage → List ℕ → PublishMessage
set_topic p t =
    if valid_topic t then record p { topic = t; header = record p.header { dirty = true } } else p

unfoldable pub set_topic_alias : PublishMessage → ℕ → PublishMessage
set_topic_alias p a = record p { alias = a; header = record p.header { dirty = true } }

-- `total < len(src) && src[total] == tag`.
abbrev pub has : Slice → ℕ → ℕ → Bool
has src total tag = ltb total (len src) && get_or src.bytes total 0 == tag

-- A property that may be there, once: `read` reads it behind its tag, and `bad` values are refused.
unfoldable pub optional :
    {A : Type 0} → Slice → ℕ → ℕ → A → (ℕ → Outcome (A × ℕ)) → (A → Bool) → Outcome (A × ℕ)
optional src tag total default read bad =
    let present = do
      (v, total') ← read (total + 1)
      reject (bad v || has src total' tag) protocol_error
      ok (v, total')
    in if has src total tag then present else ok (default, total)

-- The readers of the properties.
unfoldable pub byte_at : Slice → ℕ → Outcome (ℕ × ℕ)
byte_at src total = do b ← at src total; ok (b, total + 1)

unfoldable pub uint16_at : Slice → ℕ → Outcome (ℕ × ℕ)
uint16_at src total = do s ← from src total; b ← at s 0; c ← at s 1; ok (b * 256 + c, total + 2)

unfoldable pub uint32_at : Slice → ℕ → Outcome (ℕ × ℕ)
uint32_at src total = do
  s ← from src total
  b ← at s 0
  c ← at s 1
  d ← at s 2
  e ← at s 3
  ok (b * 2 ^ 24 + c * 2 ^ 16 + d * 256 + e, total + 4)

unfoldable pub bytes_at : Slice → ℕ → Outcome (List ℕ × ℕ)
bytes_at src total = do (b, n) ← read_at src total; ok (b, total + n)

unfoldable pub integer_at : Slice → ℕ → Outcome (ℕ × ℕ)
integer_at src total = do s ← from src total; (v, n) ← lb_decode s.bytes; ok (v, total + n)

-- Where the caller answers any error with `ProtocolError`.
abbrev pub as_protocol_error : {A : Type 0} → Outcome A → Outcome A
as_protocol_error (ok a) = ok a
as_protocol_error (err e) = err protocol_error
as_protocol_error panic = panic
as_protocol_error stuck = stuck

abbrev pub is_zero : ℕ → Bool
is_zero n = n == 0

abbrev pub is_nil : List ℕ → Bool
is_nil xs = length xs == 0

abbrev pub anything : ℕ → Bool
anything n = false

-- The identifier, which QoS 0 has not.
unfoldable pub read_id : Header → Slice → ℕ → Outcome (Header × ℕ)
read_id h src total =
    if qos_of h == 0
    then ok (h, total)
    else (sub src total (total + 2) >>= λ id.
        ok (record h { packet_id = copy_len id 2 }, total + 2))

-- The part of `Decode` behind the identifier, at `at₂`: the properties and the payload. `hn` is the
-- length of the fixed header, `h` what is read of it, and `t` the topic. A length of the payload below
-- 0 makes the slice panic.
unfoldable pub decode_publish_rest :
    PublishMessage → Slice → ℕ → Header → List ℕ → ℕ → Outcome (ℕ × PublishMessage)
decode_publish_rest p src hn h t at₂ = do
  (n, at₃) ← integer_at src at₂
  (f, at₄) ← optional src payload_format at₃ p.format (byte_at src) anything
  (e, at₅) ← optional src message_expiry at₄ p.expiry (uint32_at src) anything
  (a, at₆) ← optional src topic_alias at₅ p.alias (uint16_at src) is_zero
  reject (a == 0 && not (valid_topic t)) bad_topic
  (r, at₇) ← optional src response_topic at₆ p.response (bytes_at src) is_nil
  (c, at₈) ← optional src related_data at₇ p.correlation (bytes_at src) is_nil
  s ← from src at₈
  (u, un) ← decode_user_property s
  (i, at₉) ←
      optional src defining_identifiers (at₈ + un) p.sub_identifier
        (λ k. as_protocol_error (integer_at src k)) is_zero
  (ct, end) ←
      optional src content_type at₉ p.content (λ k. as_protocol_error (bytes_at src k)) is_nil
  load ← sub src end (hn + h.remlen)
  ok (
    end + length load,
    record {
      header = record h { dirty = false };
      topic = t;
      properties_len = n;
      format = f;
      expiry = e;
      alias = a;
      response = r;
      correlation = c;
      user_property = u;
      sub_identifier = i;
      content = ct;
      payload = load;
    },
  )

-- `Decode`.
unfoldable pub decode_publish : PublishMessage → Slice → Outcome (ℕ × PublishMessage)
decode_publish p src = do
  (hn, h) ← decode_header p.header src
  (t, at₁) ← bytes_at src hn
  (h', at₂) ← read_id h src at₁
  decode_publish_rest p src hn h' t at₂

-- A subscription identifier that is written.
abbrev pub has_identifier : PublishMessage → Bool
has_identifier p = ltb 0 p.sub_identifier && ltb p.sub_identifier 168435455

-- A string property, which an empty one does not get, and its length.
unfoldable pub write_string : ℕ → List ℕ → Outcome (List ℕ)
write_string tag b =
    if length b == 0 then ok [] else (write_to_buf_lp_bytes b >>= λ w. ok (tag ∷ w))

abbrev pub string_len : List ℕ → ℕ
string_len b = if length b == 0 then 0 else 3 + length b

unfoldable pub write_identifier : PublishMessage → Outcome (List ℕ)
write_identifier p =
    if has_identifier p
    then (lb_encode p.sub_identifier >>= λ b. ok (defining_identifiers ∷ b))
    else ok []

abbrev pub fixed_properties : PublishMessage → List ℕ
fixed_properties p =
    (if p.format == 0 then [] else payload_format ∷ p.format ∷ [])
    ++ ((if p.expiry == 0
          then []
          else message_expiry
            ∷ p.expiry / 2 ^ 24 % 256
            ∷ p.expiry / 2 ^ 16 % 256
            ∷ p.expiry / 256 % 256
            ∷ p.expiry % 256
            ∷ [])
        ++ (if p.alias == 0 then [] else topic_alias ∷ p.alias / 256 % 256 ∷ p.alias % 256 ∷ []))

-- `build`.
unfoldable pub build_publish : PublishMessage → Outcome PublishMessage
build_publish p = do
  i ← write_identifier p
  let n =
      length (fixed_properties p)
      + string_len p.response
      + string_len p.correlation
      + build_user_property_len p.user_property
      + length i
      + string_len p.content
  e ← lb_encode (n % 2 ^ 32)
  let total =
      2 + length p.topic + (if qos_of p.header == 0 then 0 else 2) + n + length e + length p.payload
  ok (record p {
    header = try_remaining_length p.header (total % 2 ^ 32);
    properties_len = n % 2 ^ 32;
  })

-- The header with an identifier, when there is none: `next` is the next of the global counter.
abbrev pub with_id : Header → ℕ → Header
with_id h next =
    if qos_of h == 0
    then h
    else (if packet_id_of h == 0 then set_packet_id h (next % 2 ^ 16) else h)

-- What `EncodeToBuf` writes behind the fixed header.
unfoldable pub write_publish : PublishMessage → Outcome (List ℕ)
write_publish p = do
  t ← write_to_buf_lp_bytes p.topic
  let id = if qos_of p.header == 0 then [] else p.header.packet_id
  n ← lb_encode p.properties_len
  r ← write_string response_topic p.response
  c ← write_string related_data p.correlation
  u ← write_user_property_by_buf p.user_property
  i ← write_identifier p
  ct ← write_string content_type p.content
  ok (t ++ (id ++ (n ++ (fixed_properties p ++ (r ++ (c ++ (u ++ (i ++ (ct ++ p.payload)))))))))

-- `EncodeToBuf`: what it appends, and the message as it is left.
unfoldable pub encode_publish : PublishMessage → ℕ → Outcome (List ℕ × PublishMessage)
encode_publish p next =
    let changed = do
      reject (length p.topic == 0 && p.alias == 0) bad_topic
      reject (length p.payload == 0) empty_payload
      p₁ ← build_publish p
      h ← set_remaining_length p₁.header (p₁.header.remlen % 2 ^ 32)
      top ← encode_header_to_buf h
      let p₂ = record p₁ { header = with_id (with_flags h) next }
      rest ← write_publish p₂
      ok (top ++ rest, p₂)
    in if p.header.dirty then changed else ok (p.header.dbuf, p)
