-- ===== src/Wire/Request/Laws.antt =====
-- The front of a packet: what is written is read back.
use simq.Base.{
  ℕ, ◌+◌, ◌*◌, ◌/◌, ◌≤◌, ◌≡◌, ◌≢◌, true, List, [], ◌∷◌, ◌++◌, length, take, drop, ok, arith, ap,
  ◌∙◌, ◌-◌,
}
use simq.Wire.Codes.{max_remaining_length}
use simq.Wire.Slice.{Slice, sub, copy_len, Rest, Rest-step, from-Rest, length-Rest}
use simq.Wire.VarInt.Laws.{groups, lb_decode-groups}
use simq.Wire.Header.{
  Header, type_of, header_msglen, packet_id_of, set_remaining_length, with_flags,
}
use simq.Wire.Header.Laws.{
  IsHeader, header_bytes, encode_header-bytes, decode_header-bytes, decoded_header,
}
use simq.Wire.Strings.Laws.{take-append}
use simq.Wire.Ack.Read.{sub-Rest, drop_within}
use simq.Wire.Publish.{integer_at}
use simq.Wire.Request.{open_packet, write_top, assign_id}

pub open_packet-bytes :
    (h r : Header) (b x y : ℕ) (tail spare : List ℕ)
    → IsHeader h b
    → type_of r ≡ b / 16
    → h.remlen ≤ 2 + length tail
    → let src : Slice = record { bytes = header_bytes h b ++ (x ∷ y ∷ tail); spare = spare } in
      (open_packet r src
        ≡ ok (
          header_msglen h,
          header_msglen h + 2,
          record (decoded_header r h b src.bytes) { packet_id = x ∷ y ∷ [] },
        ))
      × Rest src (header_msglen h + 2) tail
unfolding open_packet copy_len
open_packet-bytes h r b x y tail spare v t l =
    let (e, rest) = decode_header-bytes h r b (x ∷ y ∷ tail) spare v t (omega arith) in
    (ground (arith, e, sub-Rest x y tail rest), Rest-step (x ∷ y ∷ []) tail rest)

pub write_top-bytes :
    (h : Header) (b : ℕ)
    → IsHeader h b
    → write_top h ≡ ok (header_bytes h b, record h { dirty = true })
unfolding write_top set_remaining_length with_flags
write_top-bytes h b v = ground (
  arith,
  encode_header-bytes (record h { dirty = true }) b
      (record {
        one_byte = v.one_byte;
        known_type = v.known_type;
        known_flags = v.known_flags;
        small = v.small;
        body = v.body;
      }),
)

pub assign_id-kept :
    (h : Header) (x y next : ℕ) → h.packet_id ≡ x ∷ y ∷ [] → x * 256 + y ≢ 0 → assign_id h next ≡ h
unfolding assign_id packet_id_of
assign_id-kept h x y next e ne = ground arith

-- A length or an identifier as a property.
pub integer_at-groups :
    {src : Slice} {i : ℕ} (n : ℕ) (rest : List ℕ)
    → n ≤ max_remaining_length
    → Rest src i (groups 3 n ++ rest)
    → integer_at src i ≡ ok (n, i + length (groups 3 n))
unfolding integer_at
integer_at-groups n rest h r = ground (arith, from-Rest r, lb_decode-groups n rest h)

-- A slice of all that is left, but for what stands behind the packet.
pub sub_left :
    {s : Slice} {i : ℕ} (j : ℕ) (out : List ℕ)
    → Rest s i out
    → j ≡ i + length out
    → sub s i j ≡ ok out
unfolding sub
sub_left {s} {i} j out r e =
    let d : drop i (s.bytes ++ s.spare) ≡ out ++ s.spare =
      drop_within i s.bytes s.spare r.within ∙ ap (λ xs. xs ++ s.spare) r.left in
    let k : j - i ≡ length out = omega arith in
    let t : take (j - i) (out ++ s.spare) ≡ out =
      ap (λ n. take n (out ++ s.spare)) k ∙ take-append out s.spare in
    ground (arith, d, t, length-Rest r)
