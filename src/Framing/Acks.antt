-- ===== src/Framing/Acks.antt =====
-- The acknowledgements of corev5/v2/message as messages of a connection.
use simq.Base.{
  ℕ, ◌/◌, ◌≡◌, ◌≢◌, sym, ap, subst, ◌∙◌, true, Bool, List, [], ◌∷◌, ◌++◌, ◌==◌, length,
  if◌then◌else◌, Outcome, ok, ◌>>=◌, ◌⊎◌, arith,
}
use simq.Wire.Codes.{
  puback, pubrec, pubrel, valid_puback_reason_code, valid_pubrec_reason_code,
  valid_pubrel_reason_code, valid_pubcomp_reason_code,
}
use simq.Wire.VarInt.{put_uvarint}
use simq.Wire.Header.{type_of}
use simq.Wire.Ack.{Puback, new_ack, packet_id_bytes, decode_ack}
use simq.Wire.Ack.Build.{IsAck, built, packet, tail_bytes, length-tail_bytes, encode_to_buf-packet}
use simq.Wire.Ack.Encode.{encode, length_of}
use simq.Wire.Ack.InPlace.{encode-encode_to_buf}
use simq.Wire.Ack.RoundTrip.{Decoded, decode_ack-encode_to_buf}
use simq.Framing.{Codec}
use simq.Framing.Carry.{Carries}
use simq.Framing.Send.{Writes}

-- The table of reason codes of a type.
abbrev pub codes_of : ℕ → ℕ → Bool
codes_of t =
    if t == puback
    then valid_puback_reason_code
    else (if t == pubrec
        then valid_pubrec_reason_code
        else (if t == pubrel then valid_pubrel_reason_code else valid_pubcomp_reason_code))

-- The methods of the four types, by the type that a message has.
unfoldable pub acks : Codec Puback
unfolding type_of
acks = record {
  new = λ t. new_ack t;
  decode = λ p src. decode_ack (codes_of (type_of p.header)) p src;
  length_of = length_of;
  encode = λ p room. encode p room >>= λ (bytes, p'). ok bytes;
}

-- What `New` makes for the packets whose first byte is `b`.
pub record IsFresh (r : Puback) (b : ℕ) : Type 0 where
  pub new_eq : new_ack (b / 16) ≡ ok r
  pub type_eq : type_of r.header ≡ b / 16
  pub no_reason : r.reason_str ≡ []
  pub no_length : r.property_len ≡ 0
  pub no_user : r.user_property ≡ []

-- A message that `Decode` can read back, with the identifier `x`, `y`.
pub record IsSound (p : Puback) (b x y : ℕ) : Type 0 where
  pub is_ack : IsAck p b
  pub id_eq : p.header.packet_id ≡ x ∷ y ∷ []
  pub known_code : codes_of (b / 16) p.reason_code ≡ true
  pub reason_followed : (p.reason_str ≡ []) ⊎ (p.user_property ≢ [])

abbrev pub Same : Puback → Puback → Type 0
Same p q = Decoded p p q

module _ (p r : Puback) (b x y : ℕ) (s : IsSound p b x y) where
  pub acks-Writes : Writes acks p (packet p b)
  unfolding acks
  acks-Writes = record {
    length_eq =
        (encode-encode_to_buf p b x y (length (packet p b)) s.is_ack s.id_eq (omega arith)).0;
    encode_eq = λ room h.
        let (_, e, f) = encode-encode_to_buf p b x y room s.is_ack s.id_eq h in
        ap (λ o. o >>= λ (bytes, p'). ok bytes) (e ∙ f);
  }

  packet-bytes :
      packet p b ≡ b ∷ (put_uvarint (length (x ∷ y ∷ tail_bytes p)) ++ (x ∷ y ∷ tail_bytes p))
  unfolding packet built packet_id_bytes
  packet-bytes = ground (arith, s.id_eq)

  abbrev bytes_of : Outcome (List ℕ × Puback) → List ℕ
  bytes_of (ok (bytes, _)) = bytes
  bytes_of o = []

  packet-decodes :
      IsFresh r b
      → (spare : List ℕ)
      → (q : Puback) × (decode_ack
            (codes_of (b / 16))
            r
            (record { bytes = packet p b; spare = spare })
          ≡ ok (length (packet p b), q))
        × Same p q
  packet-decodes f spare =
      let (out, p', q, e, d, same) =
        decode_ack-encode_to_buf (codes_of (b / 16)) r p b x y spare s.is_ack f.type_eq s.known_code
          f.no_reason f.no_length f.no_user s.reason_followed s.id_eq in
      let bytes : out ≡ packet p b = ap bytes_of (sym e ∙ encode_to_buf-packet p b s.is_ack) in
      (
        q,
        subst
            (λ bs.
              decode_ack (codes_of (b / 16)) r (record { bytes = bs; spare = spare })
              ≡ ok (length bs, q))
            bytes d,
        record {
          packet_id = same.packet_id;
          remlen = same.remlen;
          reason_code = same.reason_code;
          property_len = same.property_len;
          reason_str = same.reason_str;
          user_property = same.user_property;
        },
      )

  pub acks-Carries : IsFresh r b → Carries acks (Same p) (packet p b)
  unfolding acks
  acks-Carries f = record {
    first = b;
    body = x ∷ y ∷ tail_bytes p;
    fresh = r;
    bytes_eq = packet-bytes;
    small = omega (arith, length-tail_bytes p s.is_ack.small, s.is_ack.small);
    new_eq = f.new_eq;
    decodes = λ spare.
        let (q, e, same) = packet-decodes f spare in
        (
          q,
          ap (λ t. decode_ack (codes_of t) r (record { bytes = packet p b; spare = spare }))
                f.type_eq
              ∙ e,
          same,
        );
  }
