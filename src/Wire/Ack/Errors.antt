-- ===== src/Wire/Ack/Errors.antt =====
-- A reason string that ends a packet makes `Decode` panic.
use simq.Base.{
  ℕ, ◌+◌, ◌/◌, ◌≤◌, ◌≡◌, ap, Bool, true, List, [], ◌∷◌, ◌++◌, length, ok, panic, arith, subst,
}
use simq.Wire.Codes.{reason_string, max_lp_string, max_remaining_length}
use simq.Wire.Slice.{Slice, Rest, Rest-step, at-Rest}
use simq.Wire.VarInt.Laws.{groups}
use simq.Wire.Strings.Laws.{lp, property_bytes}
use simq.Wire.Header.{type_of, header_msglen}
use simq.Wire.Ack.{Puback, decode_other, decode_ack, encode_to_buf}
use simq.Wire.Ack.Read.{read_property_len-Rest, read_reason-panic}
use simq.Wire.Ack.RoundTrip.{bytes_sent, source, received, decode_ack-front, encode_bytes}
use simq.Wire.Ack.Laws.{tail_full}
use simq.Wire.Ack.Build.{reason_bytes, properties, IsAck, built}

-- The properties are the reason string alone.
module _ (c : ℕ) (cs : List ℕ) where
  reason_alone :
      (p : Puback)
      → p.reason_str ≡ c ∷ cs
      → p.user_property ≡ []
      → properties p ≡ reason_string ∷ (lp (c ∷ cs) ++ [])
  unfolding reason_bytes property_bytes
  reason_alone p er eu = rw (er, eu)

  decode_other-panic :
      (valid : ℕ → Bool) (q p : Puback) (src : Slice) (i : ℕ)
      → valid p.reason_code ≡ true
      → length (c ∷ cs) ≤ max_lp_string
      → length (properties p) ≤ max_remaining_length
      → properties p ≡ reason_string ∷ (lp (c ∷ cs) ++ [])
      → Rest src i (p.reason_code ∷ (groups 3 (length (properties p)) ++ properties p))
      → decode_other valid q src i ≡ panic
  unfolding decode_other
  decode_other-panic valid q p src i code h small e r =
      let n = length (properties p) in
      let r1 : Rest src (i + 1) (groups 3 n ++ properties p) =
        Rest-step (p.reason_code ∷ []) (groups 3 n ++ properties p) r in
      let r2 : Rest src (i + 1 + length (groups 3 n)) (properties p) =
        Rest-step (groups 3 n) (properties p) r1 in
      ground (
        arith,
        at-Rest r,
        read_property_len-Rest q n (properties p) small r1,
        read_reason-panic q (c ∷ cs) h (subst (Rest src (i + 1 + length (groups 3 n))) e r2),
      )

-- `Decode` panics on what `EncodeToBuf` writes for a message with a reason string and no user
-- property: behind the reason string it reads a byte that is not there. The spare bytes behind the
-- packet do not help.
pub decode_ack-panic :
    (valid : ℕ → Bool) (r p : Puback) (b x y c : ℕ) (cs spare : List ℕ)
    → IsAck p b
    → type_of r.header ≡ b / 16
    → valid p.reason_code ≡ true
    → p.header.packet_id ≡ x ∷ y ∷ []
    → p.reason_str ≡ c ∷ cs
    → p.user_property ≡ []
    → (out : List ℕ) × (p' : Puback) × (encode_to_buf p ≡ ok (out, p'))
      × (decode_ack valid r (record { bytes = out; spare = spare }) ≡ panic)
unfolding built
decode_ack-panic valid r p b x y c cs spare v t code id er eu =
    let only = reason_alone c cs p er eu in
    let (front_eq, rest) = decode_ack-front valid r p b x y spare v t in
    let full = tail_full p (λ e. not_empty only e) in
    let dies =
      decode_other-panic c cs valid (received valid r p b x y spare) p
        (source valid r p b x y spare) (header_msglen (built p).header + 2) code
        (subst (λ s. length s ≤ max_lp_string) er v.reason_short) (omega (arith, v.small)) only
        (subst (Rest _ _) full rest) in
    (
      bytes_sent valid r p b x y spare,
      built p,
      encode_bytes valid r p b x y spare v id,
      ground (arith, front_eq, dies, full),
    )
  where
    not_empty : properties p ≡ reason_string ∷ (lp (c ∷ cs) ++ []) → length (properties p) ≡ 0 → ⊥
    not_empty only e = absurd (omega (arith, ap length only))
