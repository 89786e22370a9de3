-- ===== src/Wire/Subscribe/Build.antt =====
-- SUBSCRIBE: the lengths that `build` sets, and the bytes that `EncodeToBuf` writes.
use simq.Base.{
  ℕ, ◌+◌, ◌*◌, ◌/◌, ◌%◌, ◌≤◌, ◌<◌, ◌≡◌, ◌≢◌, refl, sym, ap, ◌∙◌, bit_and, true, ◌&&◌, List, [], ◌∷◌,
  ◌++◌, map, ltb, leb, length, length-append, if◌then◌else◌, ok, arith,
}
use simq.Base.Bits.{agrees, agrees_lem}
use simq.Wire.Codes.{max_remaining_length, max_lp_string, defining_identifiers, default_flags}
use simq.Wire.VarInt.Laws.{groups, lb_encode-groups, length-groups}
use simq.Wire.Strings.{write_to_buf_lp_bytes, build_user_property_len}
use simq.Wire.Strings.Laws.{
  lp, AllShort, property_bytes, write_user_property-bytes, length-property_bytes,
}
use simq.Wire.Header.{set_remaining_length}
use simq.Wire.Header.Laws.{IsHeader, header_bytes}
use simq.Wire.Ack.{try_remaining_length}
use simq.Wire.Request.Laws.{write_top-bytes, assign_id-kept}
use simq.Wire.Subscribe.{SubscribeMessage}
use simq.Wire.Subscribe.Codec.{
  write_sub_identifier, sub_op, write_filters, topics_len, build_subscribe, encode_subscribe,
}
use simq.Wire.Subscribe.Filters.{Filter, topic_of, Shows}

-- The options of a filter fit their bits.
pub record IsFilter (f : Filter) : Type 0 where
  pub short : length f.topic ≤ max_lp_string
  pub qos : f.qos < 3
  pub no_local : f.no_local < 2
  pub retain_as_pub : f.retain_as_pub < 2
  pub retain_handling : f.retain_handling < 3

abbrev pub AreFilters : List Filter → Type 0
AreFilters [] = Unit {0}
AreFilters (f ∷ fs) = IsFilter f × AreFilters fs

abbrev pub op_of : Filter → ℕ
op_of f = sub_op f.qos f.no_local f.retain_as_pub f.retain_handling

-- The byte of the options, by its bits.
op_table : (k : ℕ) → k < 64 → sub_op (k % 4) (k / 4 % 2) (k / 8 % 2) (k / 16) ≡ k
unfolding agrees
op_table = agrees_lem 64 (λ k. sub_op (k % 4) (k / 4 % 2) (k / 8 % 2) (k / 16)) (λ k. k) refl

ap₄ :
    (g : ℕ → ℕ → ℕ → ℕ → ℕ) {a a' b b' c c' d d' : ℕ}
    → a ≡ a'
    → b ≡ b'
    → c ≡ c'
    → d ≡ d'
    → g a b c d ≡ g a' b' c' d'
ap₄ g p q r s = rw (p, q, r, s)

pub op_of_lem :
    (f : Filter)
    → IsFilter f
    → op_of f ≡ f.qos + 4 * f.no_local + 8 * f.retain_as_pub + 16 * f.retain_handling
op_of_lem f v =
    let k : ℕ = f.qos + 4 * f.no_local + 8 * f.retain_as_pub + 16 * f.retain_handling in
    let c1 = v.qos in
    let c2 = v.no_local in
    let c3 = v.retain_as_pub in
    let c4 = v.retain_handling in
    let p1 : f.qos ≡ k % 4 = omega arith in
    let p2 : f.no_local ≡ k / 4 % 2 = omega arith in
    let p3 : f.retain_as_pub ≡ k / 8 % 2 = omega arith in
    let p4 : f.retain_handling ≡ k / 16 = omega arith in
    ap₄ sub_op p1 p2 p3 p4 ∙ op_table k (omega arith)

and_3 : (k : ℕ) → k < 64 → bit_and k 3 ≡ k % 4
unfolding agrees
and_3 = agrees_lem 64 (λ k. bit_and k 3) (λ k. k % 4) refl

and_4 : (k : ℕ) → k < 64 → bit_and k 4 / 4 ≡ k / 4 % 2
unfolding agrees
and_4 = agrees_lem 64 (λ k. bit_and k 4 / 4) (λ k. k / 4 % 2) refl

and_8 : (k : ℕ) → k < 64 → bit_and k 8 / 8 ≡ k / 8 % 2
unfolding agrees
and_8 = agrees_lem 64 (λ k. bit_and k 8 / 8) (λ k. k / 8 % 2) refl

and_48 : (k : ℕ) → k < 64 → bit_and k 48 / 16 ≡ k / 16
unfolding agrees
and_48 = agrees_lem 64 (λ k. bit_and k 48 / 16) (λ k. k / 16) refl

-- What `Decode` reads off the byte.
pub record Read (f : Filter) (op : ℕ) : Type 0 where
  pub qos : bit_and op 3 ≡ f.qos
  pub no_local : bit_and op 4 / 4 ≡ f.no_local
  pub retain_as_pub : bit_and op 8 / 8 ≡ f.retain_as_pub
  pub retain_handling : bit_and op 48 / 16 ≡ f.retain_handling
  pub no_more : op / 64 ≡ 0

pub op_of-Read : (f : Filter) → IsFilter f → Read f (op_of f)
op_of-Read f v =
    let e = op_of_lem f v in
    let c1 = v.qos in
    let c2 = v.no_local in
    let c3 = v.retain_as_pub in
    let c4 = v.retain_handling in
    let k : op_of f < 64 = omega arith in
    record {
      qos = omega (arith, and_3 (op_of f) k);
      no_local = omega (arith, and_4 (op_of f) k);
      retain_as_pub = omega (arith, and_8 (op_of f) k);
      retain_handling = omega (arith, and_48 (op_of f) k);
      no_more = omega arith;
    }

-- The bytes of the topics.
unfoldable pub filters_bytes : List Filter → List ℕ
filters_bytes [] = []
filters_bytes (f ∷ fs) = lp f.topic ++ (op_of f ∷ filters_bytes fs)

pub length-filters_bytes :
    (fs : List Filter) → length (filters_bytes fs) ≡ topics_len (map topic_of fs)
unfolding filters_bytes
length-filters_bytes [] = refl
length-filters_bytes (f ∷ fs) =
    omega (arith, length-append f.topic (op_of f ∷ filters_bytes fs), length-filters_bytes fs)

write_filters-bytes :
    (fs : List Filter)
    → AreFilters fs
    → write_filters
        (map topic_of fs)
        (map (λ f. f.qos) fs)
        (map (λ f. f.no_local) fs)
        (map (λ f. f.retain_as_pub) fs)
        (map (λ f. f.retain_handling) fs)
      ≡ ok (filters_bytes fs)
unfolding write_filters filters_bytes write_to_buf_lp_bytes
write_filters-bytes [] v = refl
write_filters-bytes (f ∷ fs) v = ground (arith, v.0.short, write_filters-bytes fs v.1)

-- The subscription identifier as a property.
unfoldable pub identifier_bytes : ℕ → List ℕ
identifier_bytes i =
    if ltb 0 i && leb i max_remaining_length then defining_identifiers ∷ groups 3 i else []

write_sub_identifier-bytes : (i : ℕ) → write_sub_identifier i ≡ ok (identifier_bytes i)
unfolding write_sub_identifier identifier_bytes
write_sub_identifier-bytes i = ground (arith, lb_encode-groups i)

abbrev pub properties : SubscribeMessage → List ℕ
properties m = identifier_bytes m.sub_identifier ++ property_bytes m.user_property

-- What stands behind the packet identifier.
abbrev pub tail_bytes : SubscribeMessage → List Filter → List ℕ
tail_bytes m fs =
    let p = properties m in
    groups 3 (length p)
    ++ (identifier_bytes m.sub_identifier ++ (property_bytes m.user_property ++ filters_bytes fs))

-- A message that fits a packet and shows `fs`.
pub record IsSubscribe (m : SubscribeMessage) (fs : List Filter) : Type 0 where
  pub changed : m.header.dirty ≡ true
  pub one_byte : m.header.mtypeflags ≡ 0x82 ∷ []
  pub shows : Shows m fs
  pub filters : AreFilters fs
  pub properties_short : AllShort m.user_property
  pub small : length (properties m) + length (filters_bytes fs) + 6 ≤ max_remaining_length

-- The message with its lengths built.
unfoldable pub built : SubscribeMessage → List Filter → SubscribeMessage
built m fs = record m {
  header = record m.header { remlen = 2 + length (tail_bytes m fs); dirty = true };
  properties_len = length (properties m);
}

pub length-tail_bytes :
    (m : SubscribeMessage) (fs : List Filter)
    → length (tail_bytes m fs)
      ≡ length (groups 3 (length (properties m)))
        + length (properties m)
        + length (filters_bytes fs)
length-tail_bytes m fs = omega (
  arith,
  length-append (groups 3 (length (properties m)))
      (identifier_bytes m.sub_identifier ++ (property_bytes m.user_property ++ filters_bytes fs)),
  length-append (identifier_bytes m.sub_identifier)
      (property_bytes m.user_property ++ filters_bytes fs),
  length-append (property_bytes m.user_property) (filters_bytes fs),
  length-append (identifier_bytes m.sub_identifier) (property_bytes m.user_property),
)

length-properties :
    (m : SubscribeMessage)
    → length (properties m)
      ≡ length (identifier_bytes m.sub_identifier) + build_user_property_len m.user_property
length-properties m = omega (
  arith,
  length-append (identifier_bytes m.sub_identifier) (property_bytes m.user_property),
  length-property_bytes m.user_property,
)

built-size :
    (m : SubscribeMessage) (fs : List Filter)
    → IsSubscribe m fs
    → 2 + length (tail_bytes m fs) ≤ max_remaining_length
built-size m fs v =
    let s = v.small in
    let g = length-groups (length (properties m)) (omega arith) in
    omega (arith, length-tail_bytes m fs)

build_subscribe-built :
    (m : SubscribeMessage) (fs : List Filter)
    → IsSubscribe m fs
    → build_subscribe m ≡ ok (built m fs)
unfolding build_subscribe built try_remaining_length set_remaining_length
build_subscribe-built m fs v =
    let s = v.small in
    let t : topics_len m.topics ≡ length (filters_bytes fs) =
      ap topics_len v.shows.topics ∙ sym (length-filters_bytes fs) in
    ground (
      arith,
      write_sub_identifier-bytes m.sub_identifier,
      length-properties m,
      lb_encode-groups (length (properties m)),
      length-tail_bytes m fs,
      built-size m fs v,
      t,
    )

pub built-IsHeader :
    (m : SubscribeMessage) (fs : List Filter) → IsSubscribe m fs → IsHeader (built m fs).header 0x82
unfolding built default_flags
built-IsHeader m fs v = record {
  one_byte = v.one_byte;
  known_type = refl;
  known_flags = refl;
  small = built-size m fs v;
  body = ground arith;
}

-- What `EncodeToBuf` appends for a message with the packet identifier `x`, `y`.
pub encode_subscribe-bytes :
    (m : SubscribeMessage) (fs : List Filter) (x y next : ℕ)
    → IsSubscribe m fs
    → m.header.packet_id ≡ x ∷ y ∷ []
    → x * 256 + y ≢ 0
    → encode_subscribe m next
      ≡ ok (header_bytes (built m fs).header 0x82 ++ (x ∷ y ∷ tail_bytes m fs), built m fs)
unfolding encode_subscribe built
encode_subscribe-bytes m fs x y next v id ne =
    let s = v.small in
    ground (
      arith,
      v.changed,
      build_subscribe-built m fs v,
      write_top-bytes (built m fs).header 0x82 (built-IsHeader m fs v),
      assign_id-kept (built m fs).header x y next id ne,
      lb_encode-groups (length (properties m)) (omega arith),
      write_sub_identifier-bytes m.sub_identifier,
      write_user_property-bytes m.user_property v.properties_short,
      shown,
      id,
    )
  where
    shown :
        write_filters m.topics m.qos m.no_local m.retain_as_pub m.retain_handling
        ≡ ok (filters_bytes fs)
    shown =
        rw
          (
            v.shows.topics, v.shows.qos, v.shows.no_local, v.shows.retain_as_pub,
            v.shows.retain_handling,
          )
          (write_filters-bytes fs v.filters)
