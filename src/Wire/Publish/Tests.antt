-- ===== src/Wire/Publish/Tests.antt =====
-- `Decode` of PUBLISH on concrete packets.
use simq.Base.{ℕ, ◌≡◌, refl, false, List, [], ◌∷◌, ok, err, panic, protocol_error, bad_topic}
use simq.Wire.Codes.{default_flags}
use simq.Wire.Slice.{Slice, at, from, sub, copy_len}
use simq.Wire.VarInt.{uvarint, lb_decode}
use simq.Wire.Strings.{read_at, decode_user_property}
use simq.Wire.Header.{decode_header, type_of, flags, read_remaining, check_remaining, with_flags}
use simq.Wire.Publish.{
  new_publish, decode_publish, decode_publish_rest, optional, byte_at, uint16_at, uint32_at,
  bytes_at, integer_at, read_id, valid_topic,
}

abbrev packet : List ℕ → Slice
packet bytes = record { bytes = bytes; spare = [] }

-- QoS 1, the topic `a/b`, the identifier 7, a payload format, an alias and a content type.
abbrev sent : List ℕ
sent =
    0x32 ∷ 20 ∷ 0 ∷ 3 ∷ 97 ∷ 47 ∷ 98 ∷ 0 ∷ 7 ∷ 9 ∷ 1 ∷ 1 ∷ 0x23 ∷ 0 ∷ 5 ∷ 3 ∷ 0 ∷ 1 ∷ 120 ∷ 104
    ∷ 105 ∷ 33 ∷ []

decode_publish-sent :
    decode_publish new_publish (packet sent)
    ≡ ok (
      22,
      record new_publish {
        header = record {
          remlen = 20;
          mtypeflags = 0x32 ∷ [];
          packet_id = 0 ∷ 7 ∷ [];
          dbuf = sent;
          dirty = false;
        };
        topic = 97 ∷ 47 ∷ 98 ∷ [];
        properties_len = 9;
        format = 1;
        alias = 5;
        content = 120 ∷ [];
        payload = 104 ∷ 105 ∷ 33 ∷ [];
      },
    )
unfolding decode_publish decode_publish_rest decode_header type_of flags read_remaining
    check_remaining with_flags default_flags uvarint bytes_at read_at read_id integer_at lb_decode
    optional byte_at uint16_at uint32_at valid_topic decode_user_property at from sub copy_len
decode_publish-sent = refl

-- A topic with a wildcard, and a payload format that comes twice.
decode_publish-wildcard :
    decode_publish new_publish (packet (0x30 ∷ 4 ∷ 0 ∷ 1 ∷ 35 ∷ 0 ∷ [])) ≡ err bad_topic
unfolding decode_publish decode_publish_rest decode_header type_of flags read_remaining
    check_remaining with_flags default_flags uvarint bytes_at read_at read_id integer_at lb_decode
    optional valid_topic at from sub copy_len
decode_publish-wildcard = refl

decode_publish-twice :
    decode_publish new_publish (packet (0x30 ∷ 8 ∷ 0 ∷ 1 ∷ 97 ∷ 4 ∷ 1 ∷ 0 ∷ 1 ∷ 0 ∷ []))
    ≡ err protocol_error
unfolding decode_publish decode_publish_rest decode_header type_of flags read_remaining
    check_remaining with_flags default_flags uvarint bytes_at read_at read_id integer_at lb_decode
    optional byte_at at from sub copy_len
decode_publish-twice = refl

-- A remaining length that ends in front of the properties.
decode_publish-short : decode_publish new_publish (packet (0x30 ∷ 3 ∷ 0 ∷ 1 ∷ 97 ∷ 0 ∷ [])) ≡ panic
unfolding decode_publish decode_publish_rest decode_header type_of flags read_remaining
    check_remaining with_flags default_flags uvarint bytes_at read_at read_id integer_at lb_decode
    optional valid_topic decode_user_property at from sub copy_len
decode_publish-short = refl

-- A packet without properties, of which the payload begins with the tag of one: `Decode` does not ask
-- where the properties end.
decode_publish-payload :
    decode_publish new_publish (packet (0x30 ∷ 8 ∷ 0 ∷ 1 ∷ 97 ∷ 0 ∷ 1 ∷ 5 ∷ 104 ∷ 105 ∷ []))
    ≡ ok (
      10,
      record new_publish {
        header = record {
          remlen = 8;
          mtypeflags = 0x30 ∷ [];
          packet_id = [];
          dbuf = 0x30 ∷ 8 ∷ 0 ∷ 1 ∷ 97 ∷ 0 ∷ 1 ∷ 5 ∷ 104 ∷ 105 ∷ [];
          dirty = false;
        };
        topic = 97 ∷ [];
        format = 5;
        payload = 104 ∷ 105 ∷ [];
      },
    )
unfolding decode_publish decode_publish_rest decode_header type_of flags read_remaining
    check_remaining with_flags default_flags uvarint bytes_at read_at read_id integer_at lb_decode
    optional byte_at valid_topic decode_user_property at from sub copy_len
decode_publish-payload = refl
