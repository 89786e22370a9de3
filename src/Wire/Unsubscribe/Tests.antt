-- ===== src/Wire/Unsubscribe/Tests.antt =====
-- UNSUBSCRIBE on concrete messages.
use simq.Base.{ℕ, ◌+◌, ◌≡◌, refl, true, List, [], ◌∷◌, length, ok, arith}
use simq.Wire.Strings.Laws.{property_bytes}
use simq.Wire.Header.{type_of, with_flags}
use simq.Wire.Subscribe.{find_topic, cut}
use simq.Wire.Unsubscribe.{
  UnsubscribeMessage, add_topic, remove_topic, decode_unsubscribe, encode_unsubscribe,
}
use simq.Wire.Unsubscribe.Build.{topics_bytes, IsUnsubscribe}
use simq.Wire.Unsubscribe.Laws.{reached, Decoded, decode-encode_unsubscribe}

abbrev fresh : UnsubscribeMessage
fresh = record {
  header = record { remlen = 0; mtypeflags = 0xa2 ∷ []; packet_id = []; dbuf = []; dirty = true };
  property_len = 0;
  user_property = [];
  topics = [];
}

-- Five topics of one byte.
abbrev message : UnsubscribeMessage
message = record fresh {
  header = record fresh.header { packet_id = 0 ∷ 7 ∷ [] };
  topics = (97 ∷ []) ∷ (98 ∷ []) ∷ (99 ∷ []) ∷ (100 ∷ []) ∷ (101 ∷ []) ∷ [];
}

message-IsUnsubscribe : IsUnsubscribe message
unfolding property_bytes topics_bytes
message-IsUnsubscribe = record {
  changed = refl;
  one_byte = refl;
  properties_short = tt;
  topics_short = (omega arith, (omega arith, (omega arith, (omega arith, (omega arith, tt)))));
  clear = omega arith;
  some_topic = cc;
  enough = omega arith;
  small = omega arith;
}

decode-encode_unsubscribe_example :
    (out : List ℕ) × (m' q : UnsubscribeMessage) × (total : ℕ) × (encode_unsubscribe message 9
      ≡ ok (out, m'))
    × (decode_unsubscribe fresh (record { bytes = out; spare = [] }) ≡ ok (total, q))
    × (total + length (topics_bytes message.topics) ≡ length out + length (topics_bytes q.topics))
    × Decoded message q
unfolding type_of with_flags
decode-encode_unsubscribe_example =
    decode-encode_unsubscribe fresh message 0 7 9 [] message-IsUnsubscribe refl refl refl
      (omega arith)

-- The last of them is not read.
reached_four : reached 0 message.topics ≡ (97 ∷ []) ∷ (98 ∷ []) ∷ (99 ∷ []) ∷ (100 ∷ []) ∷ []
unfolding reached topics_bytes
reached_four = refl

-- A topic that is there is not added again, and can be taken out.
add_topic_twice : add_topic message (98 ∷ []) ≡ message
unfolding add_topic find_topic
add_topic_twice = refl

remove_topic_second :
    remove_topic message (98 ∷ [])
    ≡ ok (record message { topics = (97 ∷ []) ∷ (99 ∷ []) ∷ (100 ∷ []) ∷ (101 ∷ []) ∷ [] })
unfolding remove_topic find_topic cut
remove_topic_second = refl
