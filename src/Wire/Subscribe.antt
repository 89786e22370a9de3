-- ===== src/Wire/Subscribe.antt =====
-- SUBSCRIBE: `SubscribeMessage` of corev5/v2/message/subscribe.go and what changes its topics.
-- `Decode` and `EncodeToBuf` are in Codec.
pub mod Filters
pub mod Edits
pub mod Changes
pub mod Options
pub mod Answers
pub mod Distinct
pub mod Codec
pub mod Build
pub mod Read
pub mod RoundTrip
mod Tests
use simq.Base.{
  ℕ, zero, suc, ◌+◌, Bool, true, false, List, [], ◌∷◌, ◌++◌, ltb, length, take, drop, set, get_or,
  if◌then◌else◌, Option, none, some, Outcome, ok, err, panic, stuck, ◌>>=◌, ◌>>◌, reject, require,
  not, protocol_error, map, bad_option,
}
use simq.Topics.{same_bytes}
use simq.Wire.Codes.{subscribe, valid_qos}
use simq.Wire.Header.{Header, empty_header, set_type}

-- The topics, and their four options in lists of their own.
pub record SubscribeMessage : Type 0 where
  pub header : Header
  pub properties_len : ℕ
  pub sub_identifier : ℕ
  pub user_property : List (List ℕ)
  pub topics : List (List ℕ)
  pub qos : List ℕ
  pub no_local : List ℕ
  pub retain_as_pub : List ℕ
  pub retain_handling : List ℕ

-- `NewSubscribeMessage`.
unfoldable pub new_subscribe : Outcome SubscribeMessage
new_subscribe = do
  h ← set_type empty_header subscribe
  ok (record {
    header = h;
    properties_len = 0;
    sub_identifier = 0;
    user_property = [];
    topics = [];
    qos = [];
    no_local = [];
    retain_as_pub = [];
    retain_handling = [];
  })

-- `for i, t = range topics { if bytes.Equal(t, topic) … }`: the index where the loop stops.
unfoldable pub find_topic : List (List ℕ) → List ℕ → Option ℕ
find_topic [] topic = none
find_topic (t ∷ ts) topic =
    let later : Option ℕ = elim (find_topic ts topic) [ some i ↦ some (suc i) | none ↦ none ] in
    if same_bytes t topic then some 0 else later

-- `xs[i]`, `xs[i] = v`, and `append(xs[:i], xs[i+1:]...)`.
unfoldable pub index : List ℕ → ℕ → Outcome ℕ
index xs i = if ltb i (length xs) then ok (get_or xs i 0) else panic

unfoldable pub store : List ℕ → ℕ → ℕ → Outcome (List ℕ)
store xs i v = if ltb i (length xs) then ok (set xs i v) else panic

unfoldable pub cut : {A : Type 0} → List A → ℕ → Outcome (List A)
cut xs i = if ltb i (length xs) then ok (take i xs ++ drop (suc i) xs) else panic

abbrev pub byte_of : Bool → ℕ
byte_of b = if b then 1 else 0

-- Where `AddTopic` and `AddTopicAll` find the topic: its QoS is set, and nothing else.
unfoldable pub set_qos_at : SubscribeMessage → ℕ → ℕ → Outcome SubscribeMessage
set_qos_at m i q = do q' ← store m.qos i q; ok (record m { qos = q' })

abbrev pub append_topic : SubscribeMessage → List ℕ → ℕ → ℕ → ℕ → ℕ → SubscribeMessage
append_topic m topic q n r h = record m {
  header = record m.header { dirty = true };
  topics = m.topics ++ (topic ∷ []);
  qos = m.qos ++ (q ∷ []);
  no_local = m.no_local ++ (n ∷ []);
  retain_as_pub = m.retain_as_pub ++ (r ∷ []);
  retain_handling = m.retain_handling ++ (h ∷ []);
}

-- `AddTopic`.
unfoldable pub add_topic : SubscribeMessage → List ℕ → ℕ → Outcome SubscribeMessage
add_topic m topic q = do
  reject (not (valid_qos q)) bad_option
  elim (find_topic m.topics topic) [
    | some i ↦ set_qos_at m i q
    | none ↦ ok (append_topic m topic q 0 0 0)
  ]

-- `AddTopicAll`.
unfoldable pub add_topic_all :
    SubscribeMessage → List ℕ → ℕ → Bool → Bool → ℕ → Outcome SubscribeMessage
add_topic_all m topic q no_local rap handling = do
  reject (not (valid_qos q)) bad_option
  reject (ltb 2 handling) bad_option
  elim (find_topic m.topics topic) [
    | some i ↦ set_qos_at m i q
    | none ↦ ok (append_topic m topic q (byte_of no_local) (byte_of rap) handling)
  ]

-- `RemoveTopic`.
unfoldable pub remove_topic : SubscribeMessage → List ℕ → Outcome SubscribeMessage
remove_topic m topic =
    let dirty =
      λ (m' : SubscribeMessage). record m' { header = record m'.header { dirty = true } } in
    elim (find_topic m.topics topic) [
      | none ↦ ok (dirty m)
      | some i ↦ do
        ts ← cut m.topics i
        qs ← cut m.qos i
        ns ← cut m.no_local i
        rs ← cut m.retain_as_pub i
        hs ← cut m.retain_handling i
        ok (
            dirty (record m {
              topics = ts;
              qos = qs;
              no_local = ns;
              retain_as_pub = rs;
              retain_handling = hs;
            }))
    ]

-- `TopicExists`.
unfoldable pub topic_exists : SubscribeMessage → List ℕ → Bool
topic_exists m topic = elim (find_topic m.topics topic) [ some i ↦ true | none ↦ false ]

-- `TopicQos`, `TopicNoLocal`, `TopicRetainAsPublished` and `TopicRetainHandling`: the option of the
-- topic, or a default. `QosFailure` is 0x80 and `CanSendRetain` is 0.
unfoldable pub option_of : List (List ℕ) → List ℕ → List ℕ → ℕ → Outcome ℕ
option_of topics options topic default = elim (find_topic topics topic) [
  | some i ↦ index options i
  | none ↦ ok default
]

abbrev pub topic_qos : SubscribeMessage → List ℕ → Outcome ℕ
topic_qos m topic = option_of m.topics m.qos topic 0x80

abbrev pub topic_no_local : SubscribeMessage → List ℕ → Outcome Bool
topic_no_local m topic = do n ← option_of m.topics m.no_local topic 0; ok (ltb 0 n)

abbrev pub topic_retain_as_published : SubscribeMessage → List ℕ → Outcome Bool
topic_retain_as_published m topic = do n ← option_of m.topics m.retain_as_pub topic 0; ok (ltb 0 n)

abbrev pub topic_retain_handling : SubscribeMessage → List ℕ → Outcome ℕ
topic_retain_handling m topic = option_of m.topics m.retain_handling topic 0

-- `SetTopicNoLocal`, `SetTopicRetainAsPublished` and `SetTopicRetainHandling`, which do nothing when
-- the topic is not there.
unfoldable pub set_topic_no_local : SubscribeMessage → List ℕ → Bool → Outcome SubscribeMessage
set_topic_no_local m topic v = elim (find_topic m.topics topic) [
  | none ↦ ok m
  | some i ↦ do
    ns ← store m.no_local i (byte_of v)
    ok (record m { no_local = ns; header = record m.header { dirty = true } })
]

unfoldable pub set_topic_retain_as_published :
    SubscribeMessage → List ℕ → Bool → Outcome SubscribeMessage
set_topic_retain_as_published m topic v = elim (find_topic m.topics topic) [
  | none ↦ ok m
  | some i ↦ do
    rs ← store m.retain_as_pub i (byte_of v)
    ok (record m { retain_as_pub = rs; header = record m.header { dirty = true } })
]

unfoldable pub set_topic_retain_handling : SubscribeMessage → List ℕ → ℕ → Outcome SubscribeMessage
set_topic_retain_handling m topic v = elim (find_topic m.topics topic) [
  | none ↦ ok m
  | some i ↦ do
    hs ← store m.retain_handling i v
    ok (record m { retain_handling = hs; header = record m.header { dirty = true } })
]

-- `Clone`: each round copies the options of the first topic, and then appends the message itself.
unfoldable pub clone_loop : ℕ → SubscribeMessage → Outcome (List SubscribeMessage)
clone_loop zero m = ok []
clone_loop (suc n) m = do
  q ← index m.qos 0
  h ← index m.retain_handling 0
  r ← index m.retain_as_pub 0
  l ← index m.no_local 0
  rest ← clone_loop n m
  ok (m ∷ rest)

unfoldable pub clone : SubscribeMessage → Outcome (List SubscribeMessage)
clone m = clone_loop (length m.topics) m
