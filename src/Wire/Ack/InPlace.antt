-- ===== src/Wire/Ack/InPlace.antt =====
-- `Encode` writes what `EncodeToBuf` writes.
use simq.Base.{
  ℕ, ◌+◌, ◌-◌, ◌≤◌, ◌≡◌, refl, sym, ap, ◌∙◌, List, [], ◌∷◌, ◌++◌, none, length, length-append,
  append_assoc, ok, arith,
}
use simq.Wire.Codes.{user_property, max_lp_string}
use simq.Wire.VarInt.{put_uvarint}
use simq.Wire.VarInt.Laws.{groups, lb_encode-groups, length-groups}
use simq.Wire.Strings.{write_lp_bytes}
use simq.Wire.Strings.Laws.{lp, AllShort, property_bytes}
use simq.Wire.Header.{Header, set_remaining_length, header_msglen, encode_header, with_flags}
use simq.Wire.Header.Laws.{IsHeader, header_bytes, length-put_uvarint}
use simq.Wire.Ack.{Puback, packet_id_bytes, encode_to_buf}
use simq.Wire.Ack.Build.{
  reason_bytes, properties, tail_bytes, IsAck, built, packet, encode_to_buf-packet, built-IsHeader,
  build_lem, length-tail_bytes,
}
use simq.Wire.Ack.Encode.{
  write_part_at, write_user_property, write_reason_at, write_properties_at, write_tail_at, encode,
  length_of,
}

write_lp_bytes-lp :
    (room : ℕ) (b : List ℕ)
    → length b ≤ max_lp_string
    → 2 + length b ≤ room
    → write_lp_bytes room b ≡ ok (lp b)
unfolding write_lp_bytes
write_lp_bytes-lp room b h l = ground arith

write_part_at-lp :
    (room : ℕ) (b : List ℕ)
    → length b ≤ max_lp_string
    → 2 + length b ≤ room
    → write_part_at room b ≡ ok (lp b)
write_part_at-lp room [] h l = ground arith
write_part_at-lp room (x ∷ b) h l = ground (arith, write_lp_bytes-lp room (x ∷ b))

write_user_property-bytes :
    (room : ℕ) (ups : List (List ℕ))
    → AllShort ups
    → length (property_bytes ups) ≤ room
    → write_user_property room ups ≡ ok (property_bytes ups, none)
unfolding write_user_property property_bytes
write_user_property-bytes room [] s h = refl
write_user_property-bytes room (key ∷ []) (s, _) h =
    ground (arith, write_part_at-lp (room - 1) key, length-append key (0 ∷ 0 ∷ []))
write_user_property-bytes room (key ∷ val ∷ rest) (s, (s', s'')) h =
    let fits : length key + length val + length (property_bytes rest) + 5 ≤ room = omega (
      arith,
      length-append key (lp val ++ property_bytes rest),
      length-append val (property_bytes rest),
    ) in
    let e : write_user_property room (key ∷ val ∷ rest)
        ≡ ok ((user_property ∷ (lp key ++ lp val)) ++ property_bytes rest, none) =
      ground (
        arith,
        fits,
        write_part_at-lp (room - 1) key,
        write_part_at-lp (room - 1 - length (lp key)) val,
        write_user_property-bytes (room - 1 - length (lp key) - length (lp val)) rest s'',
      ) in
    e
    ∙ ap (λ bs. ok (user_property ∷ bs, none))
        (append_assoc (lp key) (lp val) (property_bytes rest))

write_reason_at-bytes :
    (room : ℕ) (r : List ℕ)
    → length r ≤ max_lp_string
    → length (reason_bytes r) ≤ room
    → write_reason_at room r ≡ ok (reason_bytes r)
unfolding write_reason_at reason_bytes
write_reason_at-bytes room [] h l = refl
write_reason_at-bytes room (x ∷ r) h l = ground (arith, write_lp_bytes-lp (room - 1) (x ∷ r))

write_properties_at-bytes :
    (room : ℕ) (p : Puback) (b : ℕ)
    → IsAck p b
    → length (groups 3 (length (properties p))) + length (properties p) ≤ room
    → write_properties_at room (built p) ≡ ok (groups 3 (length (properties p)) ++ properties p)
unfolding write_properties_at built
write_properties_at-bytes room p b v h =
    let l = length (groups 3 (length (properties p))) in
    let both : length (reason_bytes p.reason_str) + length (property_bytes p.user_property) + l
        ≤ room =
      omega (arith, length-append (reason_bytes p.reason_str) (property_bytes p.user_property)) in
    ground (
      arith,
      both,
      lb_encode-groups (length (properties p)) (omega (arith, v.small)),
      write_reason_at-bytes (room - l) p.reason_str v.reason_short (omega arith),
      write_user_property-bytes (room - l - length (reason_bytes p.reason_str)) p.user_property
          v.properties_short (omega arith),
    )

write_tail_at-bytes :
    (room : ℕ) (p : Puback) (b : ℕ)
    → IsAck p b
    → length (tail_bytes p) ≤ room
    → write_tail_at room (built p) ≡ ok (tail_bytes p)
unfolding write_tail_at built tail_bytes
write_tail_at-bytes room p b v h = ground (
  arith,
  write_properties_at-bytes (room - 1) p b v,
  length-append (groups 3 (length (properties p))) (properties p),
  length-groups (length (properties p)),
  v.small,
)

encode_header-room :
    (h : Header) (b room : ℕ)
    → IsHeader h b
    → header_msglen h ≤ room
    → encode_header h room ≡ ok (header_bytes h b)
unfolding encode_header
encode_header-room h b room v l = ground arith

length-packet :
    (p : Puback) (b x y : ℕ)
    → IsAck p b
    → p.header.packet_id ≡ x ∷ y ∷ []
    → length (packet p b) ≡ header_msglen (built p).header + (built p).header.remlen
unfolding packet built packet_id_bytes
length-packet p b x y v id = ground (
  arith,
  id,
  length-put_uvarint (2 + length (tail_bytes p)) (built p).header refl,
  length-tail_bytes p v.small,
  v.small,
  length-append (put_uvarint (2 + length (tail_bytes p))) (x ∷ y ∷ tail_bytes p),
)

length_lem :
    (p : Puback) (b x y : ℕ)
    → IsAck p b
    → p.header.packet_id ≡ x ∷ y ∷ []
    → length_of p ≡ ok (length (packet p b))
unfolding length_of set_remaining_length built header_msglen
length_lem p b x y v id =
    ground (arith, build_lem p b v, length-tail_bytes p v.small, length-packet p b x y v id)

place_lem :
    (p : Puback) (b x y room : ℕ)
    → IsAck p b
    → p.header.packet_id ≡ x ∷ y ∷ []
    → length (packet p b) ≤ room
    → encode p room ≡ ok (packet p b, built p)
unfolding encode set_remaining_length with_flags built packet packet_id_bytes
place_lem p b x y room v id fits =
    let n = header_msglen (built p).header in
    ground (
      arith,
      id,
      build_lem p b v,
      length-tail_bytes p v.small,
      length-packet p b x y v id,
      length-put_uvarint (2 + length (tail_bytes p)) (built p).header refl,
      encode_header-room (built p).header b room (built-IsHeader p b v),
      write_tail_at-bytes (room - n - 2) p b v,
    )

-- Of a message that fits a packet and has an identifier, `Len` is the length of the packet, and
-- `Encode` into a slice with room for it writes the packet that `EncodeToBuf` writes, and leaves the
-- same message.
pub encode-encode_to_buf :
    (p : Puback) (b x y room : ℕ)
    → IsAck p b
    → p.header.packet_id ≡ x ∷ y ∷ []
    → length (packet p b) ≤ room
    → (length_of p ≡ ok (length (packet p b)))
      × (encode p room ≡ encode_to_buf p)
      × (encode_to_buf p ≡ ok (packet p b, built p))
encode-encode_to_buf p b x y room v id fits = (
  length_lem p b x y v id,
  place_lem p b x y room v id fits ∙ sym (encode_to_buf-packet p b v),
  encode_to_buf-packet p b v,
)
