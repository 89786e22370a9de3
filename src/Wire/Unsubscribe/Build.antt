-- ===== src/Wire/Unsubscribe/Build.antt =====
-- UNSUBSCRIBE: the lengths that `build` sets, and the bytes that `EncodeToBuf` writes.
use simq.Base.{
  ℕ, ◌+◌, ◌*◌, ◌≤◌, ◌≡◌, ◌≢◌, refl, true, List, [], ◌∷◌, ◌++◌, length, get_or, length-append, ok,
  arith,
}
use simq.Wire.Codes.{max_remaining_length, user_property, default_flags}
use simq.Wire.VarInt.Laws.{groups, lb_encode-groups, length-groups}
use simq.Wire.Strings.{write_to_buf_lp_bytes}
use simq.Wire.Strings.Laws.{
  lp, AllShort, property_bytes, write_user_property-bytes, length-property_bytes,
}
use simq.Wire.Header.{set_remaining_length}
use simq.Wire.Header.Laws.{IsHeader, header_bytes}
use simq.Wire.Ack.{try_remaining_length}
use simq.Wire.Request.Laws.{write_top-bytes, assign_id-kept}
use simq.Wire.Unsubscribe.{
  UnsubscribeMessage, write_topics, topics_len, build_unsubscribe, encode_unsubscribe,
}

-- The bytes of the topics.
unfoldable pub topics_bytes : List (List ℕ) → List ℕ
topics_bytes [] = []
topics_bytes (t ∷ ts) = lp t ++ topics_bytes ts

length-topics_bytes : (ts : List (List ℕ)) → length (topics_bytes ts) ≡ topics_len ts
unfolding topics_bytes
length-topics_bytes [] = refl
length-topics_bytes (t ∷ ts) =
    omega (arith, length-append t (topics_bytes ts), length-topics_bytes ts)

write_topics-bytes : (ts : List (List ℕ)) → AllShort ts → write_topics ts ≡ ok (topics_bytes ts)
unfolding write_topics topics_bytes write_to_buf_lp_bytes
write_topics-bytes [] h = refl
write_topics-bytes (t ∷ ts) h = ground (arith, h.0, write_topics-bytes ts h.1)

abbrev pub tail_bytes : UnsubscribeMessage → List ℕ
tail_bytes m =
    groups 3 (length (property_bytes m.user_property))
    ++ (property_bytes m.user_property ++ topics_bytes m.topics)

-- A message that fits a packet, of more than three bytes behind the identifier, in which the first
-- byte of the topics is not the tag of a property.
pub record IsUnsubscribe (m : UnsubscribeMessage) : Type 0 where
  pub changed : m.header.dirty ≡ true
  pub one_byte : m.header.mtypeflags ≡ 0xa2 ∷ []
  pub properties_short : AllShort m.user_property
  pub topics_short : AllShort m.topics
  pub clear : get_or (topics_bytes m.topics) 0 0 ≢ user_property
  pub some_topic : m.topics ≢ []
  pub enough : 3 ≤ length (property_bytes m.user_property) + length (topics_bytes m.topics)
  pub small :
      length (property_bytes m.user_property) + length (topics_bytes m.topics) + 6
      ≤ max_remaining_length

-- The message with its lengths built.
unfoldable pub built : UnsubscribeMessage → UnsubscribeMessage
built m = record m {
  header = record m.header { remlen = 2 + length (tail_bytes m); dirty = true };
  property_len = length (property_bytes m.user_property);
}

pub length-tail_bytes :
    (m : UnsubscribeMessage)
    → length (tail_bytes m)
      ≡ length (groups 3 (length (property_bytes m.user_property)))
        + length (property_bytes m.user_property)
        + length (topics_bytes m.topics)
length-tail_bytes m = omega (
  arith,
  length-append (groups 3 (length (property_bytes m.user_property)))
      (property_bytes m.user_property ++ topics_bytes m.topics),
  length-append (property_bytes m.user_property) (topics_bytes m.topics),
)

built-size :
    (m : UnsubscribeMessage) → IsUnsubscribe m → 2 + length (tail_bytes m) ≤ max_remaining_length
built-size m v =
    let s = v.small in
    let g = length-groups (length (property_bytes m.user_property)) (omega arith) in
    omega (arith, length-tail_bytes m)

pub built-IsHeader : (m : UnsubscribeMessage) → IsUnsubscribe m → IsHeader (built m).header 0xa2
unfolding built default_flags
built-IsHeader m v = record {
  one_byte = v.one_byte;
  known_type = refl;
  known_flags = refl;
  small = built-size m v;
  body = ground arith;
}

build_unsubscribe-built :
    (m : UnsubscribeMessage) → IsUnsubscribe m → build_unsubscribe m ≡ ok (built m)
unfolding build_unsubscribe built try_remaining_length set_remaining_length
build_unsubscribe-built m v =
    let s = v.small in
    ground (
      arith,
      length-property_bytes m.user_property,
      lb_encode-groups (length (property_bytes m.user_property)),
      length-tail_bytes m,
      built-size m v,
      length-topics_bytes m.topics,
    )

pub encode_unsubscribe-bytes :
    (m : UnsubscribeMessage) (x y next : ℕ)
    → IsUnsubscribe m
    → m.header.packet_id ≡ x ∷ y ∷ []
    → x * 256 + y ≢ 0
    → encode_unsubscribe m next
      ≡ ok (header_bytes (built m).header 0xa2 ++ (x ∷ y ∷ tail_bytes m), built m)
unfolding encode_unsubscribe built
encode_unsubscribe-bytes m x y next v id ne =
    let s = v.small in
    ground (
      arith,
      v.changed,
      build_unsubscribe-built m v,
      write_top-bytes (built m).header 0xa2 (built-IsHeader m v),
      assign_id-kept (built m).header x y next id ne,
      lb_encode-groups (length (property_bytes m.user_property)) (omega arith),
      write_user_property-bytes m.user_property v.properties_short,
      write_topics-bytes m.topics v.topics_short,
      id,
    )
