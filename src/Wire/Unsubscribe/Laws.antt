-- ===== src/Wire/Unsubscribe/Laws.antt =====
-- UNSUBSCRIBE: how much of a packet is read back.
use simq.Base.{
  ℕ, zero, suc, ◌+◌, ◌-◌, ◌*◌, ◌≤◌, ◌<◌, ◌≡◌, ◌≢◌, refl, sym, false, List, [], ◌∷◌, ◌++◌, ltb, ◌==◌,
  length, length-append, append-nil, append_assoc, if◌then◌else◌, ok, arith, inl, inr, Bool-cases,
  ltb→lt,
}
use simq.Wire.Codes.{max_remaining_length}
use simq.Wire.Slice.{Slice, len, Rest, Rest-step, Rest-index, from-Rest, length-Rest}
use simq.Wire.VarInt.Laws.{groups, length-groups}
use simq.Wire.Strings.Laws.{
  lp, AllShort, paired, property_bytes, decode_user_property-then, read_at-lp,
}
use simq.Wire.Header.{type_of, header_msglen}
use simq.Wire.Header.Laws.{header_bytes, decoded_header}
use simq.Wire.Request.Laws.{open_packet-bytes, integer_at-groups}
use simq.Wire.Unsubscribe.{
  UnsubscribeMessage, read_length, read_topics, decode_unsubscribe, encode_unsubscribe,
}
use simq.Wire.Unsubscribe.Build.{
  topics_bytes, topics_bytes, topics_bytes, tail_bytes, tail_bytes, IsUnsubscribe, built, built,
  length-tail_bytes, length-tail_bytes, built-IsHeader, built-IsHeader, encode_unsubscribe-bytes,
  encode_unsubscribe-bytes,
}

-- The topics that the loop of `Decode` comes to: `k` topics are read, and it stops when no more than
-- `k` bytes are left.
unfoldable pub reached : ℕ → List (List ℕ) → List (List ℕ)
reached k [] = []
reached k (t ∷ ts) =
    let rest = reached (suc k) ts in if ltb k (length (topics_bytes (t ∷ ts))) then t ∷ rest else []

read_topics-bytes :
    (fuel total remlen k : ℕ) (src : Slice) (out ts : List (List ℕ))
    → AllShort ts
    → remlen ≡ length (topics_bytes ts) - k
    → remlen < fuel
    → Rest src total (topics_bytes ts)
    → read_topics fuel src total remlen out
      ≡ ok (total + length (topics_bytes (reached k ts)), out ++ reached k ts)
unfolding read_topics topics_bytes reached
read_topics-bytes zero total remlen k src out ts h e l r = absurd (omega arith)
read_topics-bytes (suc fuel) total remlen k src out [] h e l r = ground (arith, append-nil out)
read_topics-bytes (suc fuel) total remlen k src out (t ∷ ts) h e l r =
    let size = length-append t (topics_bytes ts) in
    let r₁ : Rest src (total + (2 + length t)) (topics_bytes ts) =
      Rest-index _ (Rest-step (lp t) (topics_bytes ts) r) (omega arith) in
    let ih =
      read_topics-bytes fuel (total + (2 + length t)) (remlen - (2 + length t) - 1) (suc k) src
        (out ++ (t ∷ [])) ts h.1 in
    elim (Bool-cases (ltb k (length (topics_bytes (t ∷ ts))))) [
      | inl b ↦
          let more : k < length (topics_bytes (t ∷ ts)) = ltb→lt k _ b in
          ground (
            arith,
            read_at-lp t (topics_bytes ts) h.0 r,
            ih (omega arith) (omega arith) r₁,
            append_assoc out (t ∷ []) (reached (suc k) ts),
            length-append t (topics_bytes (reached (suc k) ts)),
            b,
          )
      | inr b ↦ ground (arith, append-nil out, b)
    ]

read_length-bytes :
    (r : UnsubscribeMessage) {src : Slice} {i : ℕ} (n : ℕ) (rest : List ℕ)
    → n ≤ max_remaining_length
    → 3 ≤ length rest
    → Rest src i (groups 3 n ++ rest)
    → read_length r src i ≡ ok (n, i + length (groups 3 n))
unfolding read_length
read_length-bytes r n rest h l v =
    let g = length-groups n h in
    let size = length-append (groups 3 n) rest in
    ground (arith, length-Rest v, from-Rest v, integer_at-groups n rest h v)

-- The first topic is always reached.
reached-some : (ts : List (List ℕ)) → ts ≢ [] → (length (reached 0 ts) == 0) ≡ false
unfolding reached topics_bytes
reached-some [] ne = absurd (ne refl)
reached-some (t ∷ ts) ne = ground arith

-- What `Decode` leaves in the receiver of the packet of `m`.
pub record Decoded (m q : UnsubscribeMessage) : Type 0 where
  pub packet_id : q.header.packet_id ≡ m.header.packet_id
  pub remlen : q.header.remlen ≡ (built m).header.remlen
  pub clean : q.header.dirty ≡ false
  pub property_len : q.property_len ≡ (built m).property_len
  pub user_property : q.user_property ≡ paired m.user_property
  pub topics : q.topics ≡ reached 0 m.topics

module _ (r m : UnsubscribeMessage) (x y : ℕ) (spare : List ℕ) where
  abbrev bytes_sent : List ℕ
  bytes_sent = header_bytes (built m).header 0xa2 ++ (x ∷ y ∷ tail_bytes m)

  abbrev source : Slice
  source = record { bytes = bytes_sent; spare = spare }

  abbrev left : UnsubscribeMessage
  left = record {
    header = record (decoded_header r.header (built m).header 0xa2 bytes_sent) {
      packet_id = x ∷ y ∷ [];
      dirty = false;
    };
    property_len = length (property_bytes m.user_property);
    user_property = paired m.user_property;
    topics = reached 0 m.topics;
  }

  -- The indices that `Decode` goes through.
  abbrev behind_length : ℕ
  behind_length =
      header_msglen (built m).header
      + 2
      + length (groups 3 (length (property_bytes m.user_property)))

  abbrev behind_properties : ℕ
  behind_properties = behind_length + length (property_bytes m.user_property)

  decode_unsubscribe-bytes :
      IsUnsubscribe m
      → type_of r.header ≡ 10
      → r.topics ≡ []
      → (decode_unsubscribe r source
          ≡ ok (behind_properties + length (topics_bytes (reached 0 m.topics)), left))
        × (len source ≡ behind_properties + length (topics_bytes m.topics))
  unfolding decode_unsubscribe built
  decode_unsubscribe-bytes v t z =
      let small = v.small in
      let enough = v.enough in
      let props : List ℕ = property_bytes m.user_property in
      let tops : List ℕ = topics_bytes m.topics in
      let n : ℕ = length props in
      let size = length-tail_bytes m in
      let parts = length-append props tops in
      let (e₀, r₀) =
        open_packet-bytes (built m).header r.header 0xa2 x y (tail_bytes m) spare
          (built-IsHeader m v) t (omega arith) in
      let e₁ = read_length-bytes r n (props ++ tops) (omega arith) (omega arith) r₀ in
      let r₁ : Rest source behind_length (props ++ tops) =
        Rest-step (groups 3 n) (props ++ tops) r₀ in
      let e₂ = decode_user_property-then m.user_property tops spare v.properties_short v.clear in
      let r₂ : Rest source behind_properties tops = Rest-step props tops r₁ in
      let e₃ =
        read_topics-bytes (suc (built m).header.remlen) behind_properties
          ((built m).header.remlen - (behind_properties - header_msglen (built m).header)) 0 source
          r.topics m.topics v.topics_short (omega arith) (omega arith) r₂ in
      (
        ground (arith, e₀, e₁, from-Rest r₁, e₂, e₃, z, reached-some m.topics v.some_topic),
        length-Rest r₂,
      )

-- `Decode` of what `EncodeToBuf` writes for an UNSUBSCRIBE: the packet identifier, the lengths and
-- the user properties (an empty value for a key with none) come back, and of the topics those in
-- front of the first one at which no more bytes are left than topics are read; the number of bytes
-- is less by the bytes of the others. The packet identifier is not 0, three bytes or more of
-- properties and topics are written, the first byte of the topics is not the tag of a user property,
-- and the receiver is of the type UNSUBSCRIBE with no topics.
pub decode-encode_unsubscribe :
    (r m : UnsubscribeMessage) (x y next : ℕ) (spare : List ℕ)
    → IsUnsubscribe m
    → type_of r.header ≡ 10
    → r.topics ≡ []
    → m.header.packet_id ≡ x ∷ y ∷ []
    → x * 256 + y ≢ 0
    → (out : List ℕ) × (m' q : UnsubscribeMessage) × (total : ℕ) × (encode_unsubscribe m next
        ≡ ok (out, m'))
      × (decode_unsubscribe r (record { bytes = out; spare = spare }) ≡ ok (total, q))
      × (total + length (topics_bytes m.topics) ≡ length out + length (topics_bytes q.topics))
      × Decoded m q
unfolding built
decode-encode_unsubscribe r m x y next spare v t z id ne =
    let (e, size) = decode_unsubscribe-bytes r m x y spare v t z in
    (
      bytes_sent r m x y spare,
      built m,
      left r m x y spare,
      behind_properties r m x y spare + length (topics_bytes (reached 0 m.topics)),
      encode_unsubscribe-bytes m x y next v id ne,
      e,
      omega (arith, size),
      record {
        packet_id = sym id;
        remlen = refl;
        clean = refl;
        property_len = refl;
        user_property = refl;
        topics = refl;
      },
    )
