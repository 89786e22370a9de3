-- ===== src/Wire/Subscribe/Codec.antt =====
-- SUBSCRIBE: `Decode` and `EncodeToBuf` of corev5/v2/message/subscribe.go. An error result does not
-- say how many bytes were gone through.
use simq.Base.{
  ℕ, zero, suc, ◌+◌, ◌-◌, ◌*◌, ◌/◌, ◌%◌, ◌^◌, bit_and, bit_or, false, ◌&&◌, not, List, [], ◌∷◌,
  ◌++◌, ltb, leb, ◌==◌, length, drop, if◌then◌else◌, Outcome, ok, stuck, ◌>>=◌, ◌>>◌, reject,
  protocol_error,
}
use simq.Wire.Codes.{defining_identifiers, max_remaining_length}
use simq.Wire.Slice.{Slice, len, at, from, first}
use simq.Wire.VarInt.{lb_encode}
use simq.Wire.Strings.{
  read_at, write_to_buf_lp_bytes, decode_user_property, write_user_property_by_buf,
  build_user_property_len,
}
use simq.Wire.Ack.{try_remaining_length}
use simq.Wire.Publish.{integer_at}
use simq.Wire.Request.{open_packet, write_top, assign_id}
use simq.Wire.Subscribe.{SubscribeMessage}

-- The identifier, and the byte behind it, which must not be a second one.
unfoldable pub read_sub_identifier : SubscribeMessage → Slice → ℕ → Outcome (ℕ × ℕ)
read_sub_identifier m src total =
    let present = do
      (v, total') ← integer_at src (total + 1)
      next ← (if v == 0 then ok defining_identifiers else at src total')
      reject (next == defining_identifiers) protocol_error
      ok (v, total')
    in if ltb total (len src)
      then (at src total >>= λ tag.
          if tag == defining_identifiers then present else ok (m.sub_identifier, total))
      else ok (m.sub_identifier, total)

-- One topic with the byte `op` of its options.
abbrev pub append_filter : SubscribeMessage → List ℕ → ℕ → SubscribeMessage
append_filter m t op = record m {
  topics = m.topics ++ (t ∷ []);
  qos = m.qos ++ (bit_and op 3 ∷ []);
  no_local = m.no_local ++ (bit_and op 4 / 4 ∷ []);
  retain_as_pub = m.retain_as_pub ++ (bit_and op 8 / 8 ∷ []);
  retain_handling = m.retain_handling ++ (bit_and op 48 / 16 ∷ []);
}

-- The loop over the topics, which goes on while `remlen` is above 0. Each round takes three bytes, so
-- as many rounds as bytes are enough.
unfoldable pub read_filters : ℕ → Slice → ℕ → ℕ → SubscribeMessage → Outcome (ℕ × SubscribeMessage)
read_filters zero src total remlen m = stuck
read_filters (suc fuel) src total remlen m =
    let round = do
      (t, n) ← read_at src total
      op ← at src (total + n)
      reject (bit_and op 3 == 3) protocol_error
      reject (bit_and op 48 / 16 == 3) protocol_error
      reject (not (op / 64 == 0)) protocol_error
      read_filters fuel src (total + n + 1) (remlen - n - 1) (append_filter m t op)
    in if ltb 0 remlen then round else ok (total, m)

-- `Decode`: the number of bytes, and the message.
unfoldable pub decode_subscribe : SubscribeMessage → Slice → Outcome (ℕ × SubscribeMessage)
decode_subscribe m src = do
  (hn, total, h) ← open_packet m.header src
  (n, at₁) ← integer_at src total
  s ← from src at₁
  reject (ltb (len s) n) protocol_error
  (i, at₂) ← read_sub_identifier m src at₁
  s' ← from src at₂
  (u, un) ← decode_user_property s'
  let m₁ = record m { header = h; properties_len = n; sub_identifier = i; user_property = u }
  (end, m₂) ← read_filters (suc h.remlen) src (at₂ + un) (h.remlen - (at₂ + un - hn)) m₁
  reject (length m₂.topics == 0) protocol_error
  ok (end, record m₂ { header = record m₂.header { dirty = false } })

-- An identifier that is written.
unfoldable pub write_sub_identifier : ℕ → Outcome (List ℕ)
write_sub_identifier i =
    if ltb 0 i && leb i max_remaining_length
    then (lb_encode i >>= λ b. ok (defining_identifiers ∷ b))
    else ok []

-- The byte of the options.
abbrev pub sub_op : ℕ → ℕ → ℕ → ℕ → ℕ
sub_op q n r h = bit_or (bit_or (bit_or (bit_or 0 q) (n * 4 % 256)) (r * 8 % 256)) (h * 16 % 256)

-- The loop over the topics. The lists are what is left of the message's.
unfoldable pub write_filters : List (List ℕ) → List ℕ → List ℕ → List ℕ → List ℕ → Outcome (List ℕ)
write_filters [] qs ns rs hs = ok []
write_filters (t ∷ ts) qs ns rs hs = do
  b ← write_to_buf_lp_bytes t
  q ← first qs
  n ← first ns
  r ← first rs
  h ← first hs
  rest ← write_filters ts (drop 1 qs) (drop 1 ns) (drop 1 rs) (drop 1 hs)
  ok (b ++ (sub_op q n r h ∷ rest))

abbrev pub topics_len : List (List ℕ) → ℕ
topics_len [] = 0
topics_len (t ∷ ts) = 3 + length t + topics_len ts

-- `build`.
unfoldable pub build_subscribe : SubscribeMessage → Outcome SubscribeMessage
build_subscribe m = do
  i ← write_sub_identifier m.sub_identifier
  let n = length i + build_user_property_len m.user_property
  e ← lb_encode (n % 2 ^ 32)
  let total = 2 + n + length e + topics_len m.topics
  ok (record m {
    header = try_remaining_length m.header (total % 2 ^ 32);
    properties_len = n % 2 ^ 32;
  })

-- `EncodeToBuf`: what it appends, and the message as it is left.
unfoldable pub encode_subscribe : SubscribeMessage → ℕ → Outcome (List ℕ × SubscribeMessage)
encode_subscribe m next =
    let changed = do
      m₁ ← build_subscribe m
      (top, h) ← write_top m₁.header
      let m₂ = record m₁ { header = assign_id h next }
      n ← lb_encode m₂.properties_len
      i ← write_sub_identifier m₂.sub_identifier
      u ← write_user_property_by_buf m₂.user_property
      f ← write_filters m₂.topics m₂.qos m₂.no_local m₂.retain_as_pub m₂.retain_handling
      ok (top ++ (m₂.header.packet_id ++ (n ++ (i ++ (u ++ f)))), m₂)
    in if m.header.dirty then changed else ok (m.header.dbuf, m)
