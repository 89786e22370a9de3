-- ===== src/Flow/Subscriptions.antt =====
-- SUBSCRIBE and UNSUBSCRIBE at the server: `processSubscribe` and `processUnsubscribe` of
-- corev5/v2/service/process.go, with the topics of the session (`AddTopic` and `RemoveTopic` of
-- corev5/v2/sessions/impl/mem_session.go).
pub mod Laws
pub mod Held
pub mod Granted
pub mod Trees
mod Tests
use simq.Base.{
  ℕ, ◌+◌, Bool, true, false, ◌&&◌, ◌||◌, not, List, [], ◌∷◌, ◌++◌, map, Option, none, some, ltb,
  ◌==◌, length, take, drop, if◌then◌else◌, Outcome, ok, err, panic, stuck, ◌>>=◌,
}
use simq.Topics.{Bytes, Sub, same_bytes}
use simq.Wire.Codes.{suback, unsuback}
use simq.Wire.Slice.{first}
use simq.Wire.Header.{empty_header, set_packet_id, packet_id_of}
use simq.Wire.Subscribe.{
  SubscribeMessage, index, topic_no_local, topic_retain_as_published, topic_retain_handling,
}
use simq.Wire.Unsubscribe.{UnsubscribeMessage}
use simq.Wire.Suback.{SubackMessage, add_reason_codes}

-- `IsShareSub`.
abbrev share_word : Bytes
share_word = 36 ∷ 115 ∷ 104 ∷ 97 ∷ 114 ∷ 101 ∷ []

unfoldable pub is_share_sub : Bytes → Bool
is_share_sub topic = ltb 6 (length topic) && same_bytes (take 6 topic) share_word

-- The part of a session that holds its subscriptions, a map from topics.
pub record Session : Type 0 where
  pub initted : Bool
  pub topics : List Sub

abbrev pub put_sub : List Sub → Sub → List Sub
put_sub [] s = s ∷ []
put_sub (x ∷ xs) s =
    let later = put_sub xs s in if same_bytes x.topic s.topic then s ∷ xs else x ∷ later

abbrev pub delete_sub : List Sub → Bytes → List Sub
delete_sub [] t = []
delete_sub (x ∷ xs) t =
    let later = delete_sub xs t in if same_bytes x.topic t then xs else x ∷ later

abbrev pub has_sub : List Sub → Bytes → Bool
has_sub [] t = false
has_sub (x ∷ xs) t = let later = has_sub xs t in if same_bytes x.topic t then true else later

-- `AddTopic` and `RemoveTopic` of a session: `none` is their error.
unfoldable pub add_sub : Session → Sub → Option Session
add_sub s sub = if s.initted then some (record s { topics = put_sub s.topics sub }) else none

unfoldable pub remove_sub : Session → Bytes → Session
remove_sub s t = if s.initted then record s { topics = delete_sub s.topics t } else s

-- The topics manager, a `topics.Manager`, with this service as the subscriber: a QoS, or an error;
-- retained messages, or an error.
pub record Manager (T M : Type 0) : Type 0 where
  pub subscribe : T → Sub → T × Option ℕ
  pub unsubscribe : T → Bytes → T
  pub retained : T → Bytes → Option (List M)
  pub qos_of : M → ℕ

-- The configuration, and whether a response of a type and an identifier is written.
pub record Config : Type 0 where
  pub close_share_sub : Bool
  pub writes : ℕ → ℕ → Bool

-- The part of a `service` that changes: `sent` are the responses with their reason codes, `delivered`
-- the retained messages that `publish` is handed, with their QoS.
pub record Client (T M : Type 0) : Type 0 where
  pub manager : T
  pub session : Session
  pub sent : List (ℕ × (ℕ × List ℕ))
  pub delivered : List (M × ℕ)

-- The reason codes of the errors.
pub data Refusal : Type 0 where
  unsupported_share protocol_error service_busy unspecified : Refusal

-- `NewSubackMessage` and `SetPacketId`.
abbrev pub response : ℕ → SubackMessage
response id = record {
  header = set_packet_id (record empty_header { mtypeflags = 0x90 ∷ []; dirty = true }) id;
  properties_len = 0;
  reason_str = [];
  user_property = [];
  reason_codes = [];
}

module _ {T M : Type 0} (c : Config) (g : Manager T M) where
  -- The first loop.
  unfoldable pub check_shares : SubscribeMessage → List Bytes → Outcome (Option Refusal)
  check_shares m [] = ok none
  check_shares m (t ∷ ts) =
      let later = check_shares m ts in
      let local = topic_no_local m t >>= λ b. if b then ok (some protocol_error) else later in
      if not (is_share_sub t)
      then later
      else (if c.close_share_sub then ok (some unsupported_share) else local)

  -- What the second loop has so far: the manager, the session, the reason codes and `rmsgs`.
  pub record Progress : Type 0 where
    pub manager : T
    pub session : Session
    pub codes : List ℕ
    pub rmsgs : List M

  -- `Retained` of a topic.
  unfoldable pub collect : Progress → Bytes → Progress × Option Refusal
  collect p t = elim (g.retained p.manager t) [
    | none ↦ (p, some service_busy)
    | some ms ↦ (record p { rmsgs = p.rmsgs ++ ms }, none)
  ]

  -- The switch on the retain handling, when the topic is in the session already. A value that is
  -- none of the three does nothing.
  unfoldable pub by_handling : Progress → Bytes → ℕ → Progress × Option Refusal
  by_handling p t h =
      if h == 0
      then collect p t
      else (if h == 1
          then (if has_sub p.session.topics t then (p, none) else collect p t)
          else (p, none))

  -- One topic with its options.
  unfoldable pub take_topic : Progress → Sub → Progress × Option Refusal
  take_topic p s =
      let (mg, granted) = g.subscribe p.manager s in
      elim granted [
        | none ↦ (record p { manager = mg }, some service_busy)
        | some q ↦ elim (add_sub p.session s) [
          | none ↦ (record p { manager = mg }, some service_busy)
          | some sess ↦
              let p' : Progress = record p {
                manager = mg;
                session = sess;
                codes = p.codes ++ (q ∷ []);
              } in
              if is_share_sub s.topic then (p', none) else by_handling p' s.topic s.retain_handling
        ]
      ]

  -- `if err != nil { return … }`
  abbrev pub or_stop :
      Progress × Option Refusal
      → (Progress → Outcome (Progress × Option Refusal))
      → Outcome (Progress × Option Refusal)
  or_stop (p, some e) k = ok (p, some e)
  or_stop (p, none) k = k p

  -- The second loop; the list of QoS is what is left of the message's.
  unfoldable pub take_topics :
      SubscribeMessage → Progress → List Bytes → List ℕ → Outcome (Progress × Option Refusal)
  take_topics m p [] qs = ok (p, none)
  take_topics m p (t ∷ ts) qs = do
    n ← topic_no_local m t
    r ← topic_retain_as_published m t
    h ← topic_retain_handling m t
    q ← first qs
    or_stop
        (take_topic p (record {
          topic = t;
          qos = q;
          no_local = n;
          retain_as_published = r;
          retain_handling = h;
          sub_identifier = m.sub_identifier;
        }))
        (λ p'. take_topics m p' ts (drop 1 qs))

  -- The last loop: the QoS is cut to that of the first topic.
  unfoldable pub deliver : SubscribeMessage → List M → List (M × ℕ) → Outcome (List (M × ℕ))
  deliver m [] out = ok out
  deliver m (r ∷ rs) out = do
    q ← index m.qos 0
    deliver m rs (out ++ ((r, (if ltb q (g.qos_of r) then q else g.qos_of r)) ∷ []))

  -- What `processSubscribe` does behind its loops.
  unfoldable pub answer_subscribe :
      Client T M → SubscribeMessage → Progress → Outcome (Client T M × Option Refusal)
  answer_subscribe s m p =
      let id = packet_id_of m.header in
      let s' : Client T M = record s { manager = p.manager; session = p.session } in
      let (resp, taken) = add_reason_codes (response id) p.codes in
      if not taken
      then ok (s', some unspecified)
      else (if not (c.writes suback id)
          then ok (s', some unspecified)
          else (deliver m p.rmsgs s.delivered >>= λ out. ok (
            record s' {
              sent = s.sent ++ ((suback, (id, resp.reason_codes)) ∷ []);
              delivered = out;
            },
            none,
          )))

  -- `processSubscribe`.
  unfoldable pub process_subscribe :
      Client T M → SubscribeMessage → Outcome (Client T M × Option Refusal)
  process_subscribe s m = do
    refusal ← check_shares m m.topics
    elim refusal as (λ _. Outcome (Client T M × Option Refusal)) [
      | some e ↦ ok (s, some e)
      | none ↦ do
        (p, e) ←
            take_topics m
              (record { manager = s.manager; session = s.session; codes = []; rmsgs = [] }) m.topics
              m.qos
        elim e as (λ _. Outcome (Client T M × Option Refusal)) [
          | some x ↦ ok (record s { manager = p.manager; session = p.session }, some x)
          | none ↦ answer_subscribe s m p
        ]
    ]

  -- The loop of `processUnsubscribe`, which ignores errors.
  unfoldable pub leave_topics : Client T M → List Bytes → Client T M
  leave_topics s [] = s
  leave_topics s (t ∷ ts) =
      leave_topics
        (record s { manager = g.unsubscribe s.manager t; session = remove_sub s.session t }) ts

  -- `processUnsubscribe`: one reason code, whatever the number of topics.
  unfoldable pub process_unsubscribe : Client T M → UnsubscribeMessage → Client T M × Option Refusal
  process_unsubscribe s m =
      let s' = leave_topics s m.topics in
      let id = packet_id_of m.header in
      if c.writes unsuback id
      then (record s' { sent = s'.sent ++ ((unsuback, (id, 0 ∷ [])) ∷ []) }, none)
      else (s', some unspecified)
