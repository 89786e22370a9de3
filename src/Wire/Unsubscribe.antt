-- ===== src/Wire/Unsubscribe.antt =====
-- UNSUBSCRIBE: `UnsubscribeMessage` of corev5/v2/message/unsubscribe.go. An error result does not say
-- how many bytes were gone through.
pub mod Build
pub mod Laws
mod Tests
use simq.Base.{
  ℕ, zero, suc, ◌+◌, ◌-◌, ◌%◌, ◌^◌, Bool, true, false, ◌&&◌, List, [], ◌∷◌, ◌++◌, ltb, leb, ◌==◌,
  length, if◌then◌else◌, Option, none, some, Outcome, ok, err, panic, stuck, ◌>>=◌, ◌>>◌, reject,
  protocol_error,
}
use simq.Wire.Codes.{unsubscribe}
use simq.Wire.Slice.{Slice, len, from}
use simq.Wire.VarInt.{lb_encode}
use simq.Wire.Strings.{
  read_at, write_to_buf_lp_bytes, decode_user_property, write_user_property_by_buf,
  build_user_property_len,
}
use simq.Wire.Header.{Header, empty_header, set_type}
use simq.Wire.Ack.{try_remaining_length}
use simq.Wire.Publish.{integer_at}
use simq.Wire.Request.{open_packet, write_top, assign_id}
use simq.Wire.Subscribe.{find_topic, cut}

pub record UnsubscribeMessage : Type 0 where
  pub header : Header
  pub property_len : ℕ
  pub user_property : List (List ℕ)
  pub topics : List (List ℕ)

-- `NewUnsubscribeMessage`.
unfoldable pub new_unsubscribe : Outcome UnsubscribeMessage
new_unsubscribe = do
  h ← set_type empty_header unsubscribe
  ok (record { header = h; property_len = 0; user_property = []; topics = [] })

-- `AddTopic`.
unfoldable pub add_topic : UnsubscribeMessage → List ℕ → UnsubscribeMessage
add_topic m topic = elim (find_topic m.topics topic) [
  | some i ↦ m
  | none ↦ record m { topics = m.topics ++ (topic ∷ []); header = record m.header { dirty = true } }
]

-- `RemoveTopic`.
unfoldable pub remove_topic : UnsubscribeMessage → List ℕ → Outcome UnsubscribeMessage
remove_topic m topic =
    let m' : UnsubscribeMessage = record m { header = record m.header { dirty = true } } in
    elim (find_topic m.topics topic) [
      | none ↦ ok m'
      | some i ↦ do ts ← cut m.topics i; ok (record m' { topics = ts })
    ]

-- `TopicExists`.
unfoldable pub topic_exists : UnsubscribeMessage → List ℕ → Bool
topic_exists m topic = elim (find_topic m.topics topic) [ some i ↦ true | none ↦ false ]

-- The property length, which a packet with less than four bytes left has not.
unfoldable pub read_length : UnsubscribeMessage → Slice → ℕ → Outcome (ℕ × ℕ)
read_length m src total =
    let enough = do
      s ← from src total
      (if leb 4 (len s) then integer_at src total else ok (m.property_len, total))
    in if ltb total (len src) then enough else ok (m.property_len, total)

-- The loop over the topics, while `remlen` is above 0; it takes one more off than it has read.
unfoldable pub read_topics : ℕ → Slice → ℕ → ℕ → List (List ℕ) → Outcome (ℕ × List (List ℕ))
read_topics zero src total remlen out = stuck
read_topics (suc fuel) src total remlen out =
    let round = do
      (t, n) ← read_at src total
      read_topics fuel src (total + n) (remlen - n - 1) (out ++ (t ∷ []))
    in if ltb 0 remlen then round else ok (total, out)

-- `Decode`: the number of bytes, and the message.
unfoldable pub decode_unsubscribe : UnsubscribeMessage → Slice → Outcome (ℕ × UnsubscribeMessage)
decode_unsubscribe m src = do
  (hn, total, h) ← open_packet m.header src
  (n, at₁) ← read_length m src total
  s ← from src at₁
  (u, un) ← decode_user_property s
  (end, ts) ← read_topics (suc h.remlen) src (at₁ + un) (h.remlen - (at₁ + un - hn)) m.topics
  reject (length ts == 0) protocol_error
  ok (
    end,
    record {
      header = record h { dirty = false };
      property_len = n;
      user_property = u;
      topics = ts;
    },
  )

-- The loop over the topics of `EncodeToBuf`, and their length in `build`.
unfoldable pub write_topics : List (List ℕ) → Outcome (List ℕ)
write_topics [] = ok []
write_topics (t ∷ ts) = do b ← write_to_buf_lp_bytes t; rest ← write_topics ts; ok (b ++ rest)

abbrev pub topics_len : List (List ℕ) → ℕ
topics_len [] = 0
topics_len (t ∷ ts) = 2 + length t + topics_len ts

-- `build`.
unfoldable pub build_unsubscribe : UnsubscribeMessage → Outcome UnsubscribeMessage
build_unsubscribe m = do
  let n = build_user_property_len m.user_property
  e ← lb_encode (n % 2 ^ 32)
  ok (record m {
    header = try_remaining_length m.header ((n + 2 + topics_len m.topics + length e) % 2 ^ 32);
    property_len = n % 2 ^ 32;
  })

-- `EncodeToBuf`: what it appends, and the message as it is left.
unfoldable pub encode_unsubscribe : UnsubscribeMessage → ℕ → Outcome (List ℕ × UnsubscribeMessage)
encode_unsubscribe m next =
    let changed = do
      m₁ ← build_unsubscribe m
      (top, h) ← write_top m₁.header
      let m₂ = record m₁ { header = assign_id h next }
      n ← lb_encode m₂.property_len
      u ← write_user_property_by_buf m₂.user_property
      ts ← write_topics m₂.topics
      ok (top ++ (m₂.header.packet_id ++ (n ++ (u ++ ts))), m₂)
    in if m.header.dirty then changed else ok (m.header.dbuf, m)
