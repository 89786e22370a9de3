-- ===== src/Wire/Ack/RoundTrip.antt =====
-- Acknowledgements: a whole packet is read back, but for a reason string at its end.
use simq.Base.{
  ℕ, ◌+◌, ◌/◌, ◌≤◌, ◌≡◌, ◌≢◌, refl, sym, ap, ◌∙◌, Bool, true, List, [], ◌∷◌, ◌++◌, ◌==◌, length,
  if◌then◌else◌, ok, arith, ◌⊎◌,
}
use native.Mathlib.Decide.{ℕ_discrete}
use simq.Wire.Codes.{success}
use simq.Wire.Slice.{Slice, len, copy_len, Rest, Rest-step, length-Rest}
use simq.Wire.Strings.Laws.{paired}
use simq.Wire.Header.{Header, type_of, header_msglen}
use simq.Wire.Header.Laws.{header_bytes, decode_header-bytes, decoded_header}
use simq.Wire.Ack.{Puback, packet_id_bytes, decode_other, decode_ack, encode_to_buf}
use simq.Wire.Ack.Read.{sub-Rest}
use simq.Wire.Ack.Laws.{decoded_ack, no_properties, decode_other-tail}
use simq.Wire.Ack.Build.{
  properties, tail_bytes, IsAck, built, packet, encode_to_buf-packet, built-IsHeader,
}

-- What `Decode` leaves in a fresh receiver `r` of the packet of `p`.
pub record Decoded (r p q : Puback) : Type 0 where
  pub packet_id : q.header.packet_id ≡ p.header.packet_id
  pub remlen : q.header.remlen ≡ (built p).header.remlen
  pub reason_code : q.reason_code ≡ p.reason_code
  pub property_len : q.property_len ≡ (built p).property_len
  pub reason_str : q.reason_str ≡ p.reason_str
  pub user_property : q.user_property ≡ paired p.user_property

length_nil : (xs : List ℕ) → length xs ≡ 0 → xs ≡ []
length_nil [] e = refl
length_nil (x ∷ xs) e = absurd (omega arith)

tail_nil :
    (p : Puback) → tail_bytes p ≡ [] → (length (properties p) ≡ 0) × (p.reason_code ≡ success)
unfolding tail_bytes
tail_nil p e = ground arith

-- `Decode` in front of `decodeOther`, on the packet of a message with the identifier `x`, `y`.
module _ (valid : ℕ → Bool) (r p : Puback) (b x y : ℕ) (spare : List ℕ) where
  abbrev pub front : Header
  front = (built p).header

  abbrev pub bytes_sent : List ℕ
  bytes_sent = header_bytes front b ++ (x ∷ y ∷ tail_bytes p)

  abbrev pub source : Slice
  source = record { bytes = bytes_sent; spare = spare }

  abbrev pub received : Puback
  received = record r {
    header = record (decoded_header r.header front b bytes_sent) { packet_id = x ∷ y ∷ [] };
  }

  payload_fits : front.remlen ≤ length (x ∷ y ∷ tail_bytes p)
  unfolding built
  payload_fits = omega arith

  pub decode_ack-front :
      IsAck p b
      → type_of r.header ≡ b / 16
      → (decode_ack valid r source ≡ (
          if front.remlen == 2
          then ok (header_msglen front + 2, record received { reason_code = success })
          else decode_other valid received source (header_msglen front + 2)))
        × Rest source (header_msglen front + 2) (tail_bytes p)
  unfolding decode_ack copy_len
  decode_ack-front v t =
      let (e, rest) =
        decode_header-bytes front r.header b (x ∷ y ∷ tail_bytes p) spare (built-IsHeader p b v) t
          payload_fits in
      (
        ground (arith, e, sub-Rest x y (tail_bytes p) rest),
        Rest-step (x ∷ y ∷ []) (tail_bytes p) rest,
      )

  -- A packet that ends behind its identifier.
  decode_ack-short :
      IsAck p b
      → type_of r.header ≡ b / 16
      → r.reason_str ≡ []
      → r.property_len ≡ 0
      → r.user_property ≡ []
      → p.header.packet_id ≡ x ∷ y ∷ []
      → tail_bytes p ≡ []
      → (q : Puback) × (decode_ack valid r source ≡ ok (len source, q)) × Decoded r p q
  unfolding built paired
  decode_ack-short v t rs rl ru id e =
      let (front_eq, rest) = decode_ack-front v t in
      let (none, code) = tail_nil p e in
      let (er, eu) = no_properties p.reason_str p.user_property none in
      (
        record received { reason_code = success },
        ground (arith, front_eq, e, length-Rest rest),
        record {
          packet_id = sym id;
          remlen = refl;
          reason_code = sym code;
          property_len = rl ∙ sym none;
          reason_str = rs ∙ sym er;
          user_property = ru ∙ rw eu;
        },
      )

  decode_ack-long :
      IsAck p b
      → type_of r.header ≡ b / 16
      → valid p.reason_code ≡ true
      → r.reason_str ≡ []
      → r.property_len ≡ 0
      → (p.reason_str ≡ []) ⊎ (p.user_property ≢ [])
      → p.header.packet_id ≡ x ∷ y ∷ []
      → length (tail_bytes p) ≢ 0
      → (q : Puback) × (decode_ack valid r source ≡ ok (len source, q)) × Decoded r p q
  unfolding built
  decode_ack-long v t code rs rl f id ne =
      let (front_eq, rest) = decode_ack-front v t in
      let tail =
        decode_other-tail valid received p source (header_msglen front + 2) b v code rs rl f rest
          (λ e. ne (ap length e)) in
      (
        decoded_ack valid received p source (header_msglen front + 2),
        ground (arith, front_eq, tail),
        record {
          packet_id = sym id;
          remlen = refl;
          reason_code = refl;
          property_len = refl;
          reason_str = refl;
          user_property = refl;
        },
      )

pub encode_bytes :
    (valid : ℕ → Bool) (r p : Puback) (b x y : ℕ) (spare : List ℕ)
    → IsAck p b
    → p.header.packet_id ≡ x ∷ y ∷ []
    → encode_to_buf p ≡ ok (bytes_sent valid r p b x y spare, built p)
encode_bytes valid r p b x y spare v id =
    encode_to_buf-packet p b v ∙ ap (λ o. ok (o, built p)) same
  where
    same : packet p b ≡ bytes_sent valid r p b x y spare
    same = unfold packet packet_id_bytes built in ground arith

-- `Decode` with the table `valid` reads back what `EncodeToBuf` writes: the identifier, the reason
-- code, the property length, the reason string and the user properties (an empty value for a key
-- with none), and goes through the whole packet. The message is changed since it was
-- encoded last, its reason code is one of `valid`, the receiver is fresh and of the packet's type, and a
-- reason string is followed by a user property.
pub decode_ack-encode_to_buf :
    (valid : ℕ → Bool) (r p : Puback) (b x y : ℕ) (spare : List ℕ)
    → IsAck p b
    → type_of r.header ≡ b / 16
    → valid p.reason_code ≡ true
    → r.reason_str ≡ []
    → r.property_len ≡ 0
    → r.user_property ≡ []
    → (p.reason_str ≡ []) ⊎ (p.user_property ≢ [])
    → p.header.packet_id ≡ x ∷ y ∷ []
    → (out : List ℕ) × (p' : Puback) × (q : Puback) × (encode_to_buf p ≡ ok (out, p'))
      × (decode_ack valid r (record { bytes = out; spare = spare }) ≡ ok (length out, q))
      × Decoded r p q
decode_ack-encode_to_buf valid r p b x y spare v t code rs rl ru f id =
    let (q, e, d) = both in
    (bytes_sent valid r p b x y spare, built p, q, encode_bytes valid r p b x y spare v id, e, d)
  where
    both :
        (q : Puback) × (decode_ack valid r (source valid r p b x y spare)
          ≡ ok (len (source valid r p b x y spare), q))
        × Decoded r p q
    both = elim (ℕ_discrete (length (tail_bytes p)) 0) [
      | yes e ↦ decode_ack-short valid r p b x y spare v t rs rl ru id (length_nil (tail_bytes p) e)
      | no ne ↦ decode_ack-long valid r p b x y spare v t code rs rl f id ne
    ]
