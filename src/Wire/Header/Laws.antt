-- ===== src/Wire/Header/Laws.antt =====
-- The fixed header: what is written is read back.
use simq.Base.{
  ℕ, suc, ◌+◌, ◌*◌, ◌/◌, ◌%◌, ◌≤◌, ◌<◌, ◌≡◌, refl, Bool, true, List, [], ◌∷◌, ◌++◌, ◌==◌, length,
  arith, bit_and, bit_or, if◌then◌else◌, ok, ◌>>=◌, ◌||◌, not,
}
use simq.Base.Bits.{agrees, agrees_lem}
use simq.Wire.Codes.{valid_type, valid_qos, default_flags, publish, max_remaining_length}
use simq.Wire.Slice.{Slice, from, sub, copy_len, Rest, Rest-start, Rest-step, from-Rest, Rest-index}
use simq.Wire.VarInt.{put_uvarint, value, uvarint}
use simq.Wire.VarInt.Laws.{groups, put_uvarint-groups, put_uvarint-lb_encode}
use simq.Wire.Header.{
  Header, with_flags, type_of, set_type, header_msglen, encode_header_to_buf, check_remaining,
  decode_header, may_be_empty,
}

-- `New…Message` gives a header the type that it names, for every valid type.
type_byte : (t : ℕ) → t < 16 → bit_or (t * 16 % 256) (bit_and (default_flags t) 15) / 16 ≡ t
unfolding default_flags agrees
type_byte =
    agrees_lem 16 (λ t. bit_or (t * 16 % 256) (bit_and (default_flags t) 15) / 16) (λ t. t) refl

pub type_of-set_type :
    (h : Header) (t : ℕ) → 0 < t → t < 16 → (set_type h t >>= λ h'. ok (type_of h')) ≡ ok t
unfolding set_type type_of
type_of-set_type h t lo hi = ground (arith, type_byte t)

-- The length that `msglen` foretells is the length that is written.
pub length-put_uvarint :
    (n : ℕ) (h : Header)
    → n ≡ h.remlen
    → n ≤ max_remaining_length
    → suc (length (put_uvarint n)) ≡ header_msglen h
unfolding header_msglen
length-put_uvarint n h e k = rw (put_uvarint-groups n k) (unfold groups in ground arith)

-- The flag bits that `decode` accepts beside the type.
abbrev pub good_flags : ℕ → Bool
good_flags b =
    if b / 16 == publish
    then valid_qos (bit_and (bit_and b 15 / 2) 3)
    else bit_and b 15 == default_flags (b / 16)

-- A header that `encodeToBuf` accepts and `decode` knows; `b` is its first byte.
pub record IsHeader (h : Header) (b : ℕ) : Type 0 where
  pub one_byte : h.mtypeflags ≡ b ∷ []
  pub known_type : valid_type (b / 16) ≡ true
  pub known_flags : good_flags b ≡ true
  pub small : h.remlen ≤ max_remaining_length
  pub body : (may_be_empty (b / 16) || not (h.remlen == 0)) ≡ true

abbrev pub header_bytes : Header → ℕ → List ℕ
header_bytes h b = b ∷ put_uvarint h.remlen

pub encode_header-bytes :
    (h : Header) (b : ℕ) → IsHeader h b → encode_header_to_buf h ≡ ok (header_bytes h b)
unfolding encode_header_to_buf
encode_header-bytes h b v = ground arith

check_remaining_lem :
    (r : Header) (b n total : ℕ) (src : Slice) (payload : List ℕ)
    → r.mtypeflags ≡ b ∷ []
    → n ≤ max_remaining_length
    → (may_be_empty (b / 16) || not (n == 0)) ≡ true
    → Rest src total payload
    → n ≤ length payload
    → check_remaining r n total (from src total) ≡ ok (total, record r { remlen = n })
unfolding check_remaining
check_remaining_lem r b n total src payload e k m v l = ground (arith, from-Rest v)

-- What `decode` leaves in the receiver `r`.
abbrev pub decoded_header : Header → Header → ℕ → List ℕ → Header
decoded_header r h b src = record (with_flags r) {
  dbuf = src;
  mtypeflags = b ∷ [];
  remlen = h.remlen;
}

pub decode_header-bytes :
    (h r : Header) (b : ℕ) (payload spare : List ℕ)
    → IsHeader h b
    → type_of r ≡ b / 16
    → h.remlen ≤ length payload
    → let src = header_bytes h b ++ payload in
      (decode_header r (record { bytes = src; spare = spare })
        ≡ ok (header_msglen h, decoded_header r h b src))
      × Rest (record { bytes = src; spare = spare }) (header_msglen h) payload
unfolding decode_header sub from copy_len
decode_header-bytes h r b payload spare v t l =
    let s : Slice = record { bytes = header_bytes h b ++ payload; spare = spare } in
    let size : suc (length (put_uvarint h.remlen)) ≡ header_msglen h =
      length-put_uvarint h.remlen h refl v.small in
    let rest : Rest s (1 + length (put_uvarint h.remlen)) payload =
      Rest-step (put_uvarint h.remlen) payload
        (Rest-step (b ∷ []) (put_uvarint h.remlen ++ payload) (Rest-start s)) in
    let read : uvarint (put_uvarint h.remlen ++ payload)
        ≡ value h.remlen (length (put_uvarint h.remlen)) =
      (put_uvarint-lb_encode h.remlen payload v.small).1 in
    let r' : Header = record (with_flags r) { dbuf = s.bytes; mtypeflags = b ∷ [] } in
    let checked =
      check_remaining_lem r' b h.remlen (1 + length (put_uvarint h.remlen)) s payload refl v.small
        v.body rest l in
    (ground (arith, read, checked, v.known_type, v.known_flags), Rest-index _ rest (omega arith))

-- What `encodeToBuf` writes for a header that fits the wire, `decode` reads back into a receiver of
-- its type, whatever follows, if the body is there; `msglen` is the number of bytes.
pub decode-encode_header :
    (h r : Header) (b : ℕ) (payload spare : List ℕ)
    → IsHeader h b
    → type_of r ≡ b / 16
    → h.remlen ≤ length payload
    → (out : List ℕ) × (encode_header_to_buf h ≡ ok out)
      × (length out ≡ header_msglen h)
      × (decode_header r (record { bytes = out ++ payload; spare = spare })
          ≡ ok (length out, decoded_header r h b (out ++ payload)))
decode-encode_header h r b payload spare v t l =
    let size : suc (length (put_uvarint h.remlen)) ≡ header_msglen h =
      length-put_uvarint h.remlen h refl v.small in
    (
      header_bytes h b,
      encode_header-bytes h b v,
      size,
      rw size (decode_header-bytes h r b payload spare v t l).0,
    )
