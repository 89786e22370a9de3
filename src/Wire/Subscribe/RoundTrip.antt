-- ===== src/Wire/Subscribe/RoundTrip.antt =====
-- SUBSCRIBE: a whole packet is read back.
use simq.Base.{
  ℕ, zero, suc, ◌+◌, ◌-◌, ◌*◌, ◌/◌, ◌%◌, ◌≤◌, ◌≡◌, ◌≢◌, refl, sym, ap, subst, ◌∙◌, Bool, true,
  false, List, [], ◌∷◌, ◌++◌, ltb, leb, ◌==◌, length, get_or, length-append, if◌then◌else◌, ok,
  arith, ◌&&◌,
}
use simq.Wire.Codes.{max_remaining_length, defining_identifiers, user_property}
use simq.Wire.Slice.{Slice, len, Rest, Rest-step, at-Rest, from-Rest, length-Rest}
use simq.Wire.VarInt.Laws.{groups}
use simq.Wire.Strings.Laws.{paired, property_bytes, decode_user_property-then}
use simq.Wire.Header.{type_of, header_msglen}
use simq.Wire.Header.Laws.{header_bytes, decoded_header}
use simq.Wire.Request.Laws.{open_packet-bytes, integer_at-groups}
use simq.Wire.Subscribe.{SubscribeMessage}
use simq.Wire.Subscribe.Filters.{Filter, Shows}
use simq.Wire.Subscribe.Codec.{read_sub_identifier, decode_subscribe, encode_subscribe}
use simq.Wire.Subscribe.Build.{
  filters_bytes, identifier_bytes, properties, tail_bytes, length-tail_bytes, IsSubscribe, built,
  built-IsHeader, encode_subscribe-bytes,
}
use simq.Wire.Subscribe.Read.{
  with_filters, with_filters, with_filters, read_filters-bytes, read_filters-bytes,
  read_filters-bytes, read_filters-bytes, with_filters-Kept, with_filters-Kept, with_filters-Kept,
  with_filters-Shows, with_filters-Shows, with_filters-Shows,
}

-- The identifier, in front of a byte that is not its tag.
read_sub_identifier-bytes :
    (m : SubscribeMessage) {src : Slice} {i : ℕ} (n c : ℕ) (rest : List ℕ)
    → m.sub_identifier ≡ 0
    → n ≤ max_remaining_length
    → c ≢ defining_identifiers
    → Rest src i (identifier_bytes n ++ (c ∷ rest))
    → read_sub_identifier m src i ≡ ok (n, i + length (identifier_bytes n))
unfolding read_sub_identifier identifier_bytes
read_sub_identifier-bytes m zero c rest z h ne r = ground (arith, length-Rest r, at-Rest r)
read_sub_identifier-bytes m {src} {i} (suc n) c rest z h ne r =
    let w : (ltb 0 (suc n) && leb (suc n) max_remaining_length) ≡ true = ground arith in
    let r₁ : Rest src i (defining_identifiers ∷ (groups 3 (suc n) ++ (c ∷ rest))) =
      subst
        (λ (b : Bool).
          Rest src i ((if b then defining_identifiers ∷ groups 3 (suc n) else []) ++ (c ∷ rest)))
        w r in
    let r₂ : Rest src (i + 1) (groups 3 (suc n) ++ (c ∷ rest)) =
      Rest-step (defining_identifiers ∷ []) (groups 3 (suc n) ++ (c ∷ rest)) r₁ in
    let r₃ : Rest src (i + 1 + length (groups 3 (suc n))) (c ∷ rest) =
      Rest-step (groups 3 (suc n)) (c ∷ rest) r₂ in
    ground
      (arith, length-Rest r₁, at-Rest r₁, integer_at-groups (suc n) (c ∷ rest) h r₂, at-Rest r₃)

-- The first byte of the topic cannot be taken for the tag of a property.
pub record IsClear (f : Filter) : Type 0 where
  pub no_identifier : length f.topic / 256 % 256 ≢ defining_identifiers
  pub no_property : length f.topic / 256 % 256 ≢ user_property

-- What stands behind the identifier.
behind_identifier :
    (ups : List (List ℕ)) (f : Filter) (fs : List Filter)
    → IsClear f
    → (c : ℕ) × (rest : List ℕ) × (property_bytes ups ++ filters_bytes (f ∷ fs) ≡ c ∷ rest)
      × (c ≢ defining_identifiers)
unfolding property_bytes filters_bytes
behind_identifier [] f fs v = (_, _, refl, v.no_identifier)
behind_identifier (key ∷ []) f fs v = (_, _, refl, omega arith)
behind_identifier (key ∷ val ∷ ups) f fs v = (_, _, refl, omega arith)

filters-clear :
    (f : Filter) (fs : List Filter)
    → IsClear f
    → get_or (filters_bytes (f ∷ fs)) 0 0 ≢ user_property
unfolding filters_bytes
filters-clear f fs v = v.no_property

-- What `Decode` leaves in the receiver of the packet of `m`.
pub record Decoded (m q : SubscribeMessage) (fs : List Filter) : Type 0 where
  pub packet_id : q.header.packet_id ≡ m.header.packet_id
  pub remlen : q.header.remlen ≡ (built m fs).header.remlen
  pub clean : q.header.dirty ≡ false
  pub properties_len : q.properties_len ≡ (built m fs).properties_len
  pub sub_identifier : q.sub_identifier ≡ m.sub_identifier
  pub user_property : q.user_property ≡ paired m.user_property
  pub shows : Shows q fs

module _ (r m : SubscribeMessage) (f : Filter) (fs : List Filter) (x y : ℕ) (spare : List ℕ) where
  abbrev all : List Filter
  all = f ∷ fs

  abbrev bytes_sent : List ℕ
  bytes_sent = header_bytes (built m all).header 0x82 ++ (x ∷ y ∷ tail_bytes m all)

  abbrev source : Slice
  source = record { bytes = bytes_sent; spare = spare }

  -- The receiver in front of the topics.
  abbrev received : SubscribeMessage
  received = record r {
    header = record (decoded_header r.header (built m all).header 0x82 bytes_sent) {
      packet_id = x ∷ y ∷ [];
    };
    properties_len = length (properties m);
    sub_identifier = m.sub_identifier;
    user_property = paired m.user_property;
  }

  abbrev left : SubscribeMessage
  left =
      let q = with_filters received all in record q { header = record q.header { dirty = false } }

  -- The indices that `Decode` goes through.
  abbrev behind_length : ℕ
  behind_length = header_msglen (built m all).header + 2 + length (groups 3 (length (properties m)))

  abbrev behind_sub_identifier : ℕ
  behind_sub_identifier = behind_length + length (identifier_bytes m.sub_identifier)

  abbrev behind_properties : ℕ
  behind_properties = behind_sub_identifier + length (property_bytes m.user_property)

  left_shows : Shows r [] → Shows left all
  left_shows s =
      let shown = with_filters-Shows received [] all (record {
        topics = s.topics;
        qos = s.qos;
        no_local = s.no_local;
        retain_as_pub = s.retain_as_pub;
        retain_handling = s.retain_handling;
      }) in
      record {
        topics = shown.topics;
        qos = shown.qos;
        no_local = shown.no_local;
        retain_as_pub = shown.retain_as_pub;
        retain_handling = shown.retain_handling;
      }

  left_topics : Shows r [] → (length left.topics == 0) ≡ false
  left_topics s = ap (λ ts. length ts == 0) (left_shows s).topics ∙ ground arith

  decode_subscribe-bytes :
      IsSubscribe m all
      → m.sub_identifier ≤ max_remaining_length
      → IsClear f
      → type_of r.header ≡ 8
      → r.sub_identifier ≡ 0
      → Shows r []
      → decode_subscribe r source ≡ ok (len source, left)
  unfolding decode_subscribe built
  decode_subscribe-bytes v si c t z s =
      let small = v.small in
      let n : ℕ = length (properties m) in
      let ident : List ℕ = identifier_bytes m.sub_identifier in
      let props : List ℕ = property_bytes m.user_property in
      let filts : List ℕ = filters_bytes all in
      let (e₀, r₀) =
        open_packet-bytes (built m all).header r.header 0x82 x y (tail_bytes m all) spare
          (built-IsHeader m all v) t (omega arith) in
      let e₁ = integer_at-groups n (ident ++ (props ++ filts)) (omega arith) r₀ in
      let r₁ : Rest source behind_length (ident ++ (props ++ filts)) =
        Rest-step (groups 3 n) (ident ++ (props ++ filts)) r₀ in
      let (b, more, e, ne) = behind_identifier m.user_property f fs c in
      let e₂ : read_sub_identifier r source behind_length
          ≡ ok (m.sub_identifier, behind_sub_identifier) =
        read_sub_identifier-bytes r m.sub_identifier b more z si ne
          (subst (λ bs. Rest source behind_length (ident ++ bs)) e r₁) in
      let r₂ : Rest source behind_sub_identifier (props ++ filts) =
        Rest-step ident (props ++ filts) r₁ in
      let e₃ =
        decode_user_property-then m.user_property filts spare v.properties_short
          (filters-clear f fs c) in
      let r₃ : Rest source behind_properties filts = Rest-step props filts r₂ in
      let size = length-tail_bytes m all in
      let parts = length-append ident props in
      let e₄ =
        read_filters-bytes (suc (built m all).header.remlen) behind_properties
          ((built m all).header.remlen - (behind_properties - header_msglen (built m all).header))
          source received all v.filters (omega arith) (omega arith) r₃ in
      ground (
        arith,
        e₀,
        e₁,
        from-Rest r₁,
        length-append ident (props ++ filts),
        length-append props filts,
        length-append ident props,
        e₂,
        from-Rest r₂,
        e₃,
        e₄,
        left_topics s,
        length-Rest r₃,
      )

-- `Decode` reads back what `EncodeToBuf` writes for a SUBSCRIBE that shows the filters `f` and `fs`:
-- the packet identifier, the remaining and the property length, the subscription identifier, the
-- user properties (an empty value for a key with none) and the filters with their options, and goes
-- through the whole packet. The packet identifier is not 0, the subscription identifier is at most
-- 268435455, the first byte of the length of the first topic is not the tag of a property, and the
-- receiver is of the type SUBSCRIBE with no subscription identifier and no topics.
pub decode-encode_subscribe :
    (r m : SubscribeMessage) (f : Filter) (fs : List Filter) (x y next : ℕ) (spare : List ℕ)
    → IsSubscribe m (f ∷ fs)
    → m.sub_identifier ≤ max_remaining_length
    → IsClear f
    → type_of r.header ≡ 8
    → r.sub_identifier ≡ 0
    → Shows r []
    → m.header.packet_id ≡ x ∷ y ∷ []
    → x * 256 + y ≢ 0
    → (out : List ℕ) × (m' q : SubscribeMessage) × (encode_subscribe m next ≡ ok (out, m'))
      × (decode_subscribe r (record { bytes = out; spare = spare }) ≡ ok (length out, q))
      × Decoded m q (f ∷ fs)
unfolding built
decode-encode_subscribe r m f fs x y next spare v si c t z s id ne =
    let k = with_filters-Kept (received r m f fs x y spare) (f ∷ fs) in
    (
      bytes_sent r m f fs x y spare,
      built m (f ∷ fs),
      left r m f fs x y spare,
      encode_subscribe-bytes m (f ∷ fs) x y next v id ne,
      decode_subscribe-bytes r m f fs x y spare v si c t z s,
      record {
        packet_id = ap (λ h. h.packet_id) k.header ∙ sym id;
        remlen = ap (λ h. h.remlen) k.header;
        clean = refl;
        properties_len = k.properties_len;
        sub_identifier = k.sub_identifier;
        user_property = k.user_property;
        shows = left_shows r m f fs x y spare s;
      },
    )
