-- ===== src/Flow/Subscriptions/Granted.antt =====
-- A SUBSCRIBE that is granted: what `processSubscribe` leaves, answers and delivers.
use simq.Base.{
  ℕ, ◌≡◌, refl, sym, ap, ap₂, ◌∙◌, true, false, List, [], ◌∷◌, ◌++◌, map, Option, none, some, ltb,
  ◌==◌, if◌then◌else◌, ok, arith, append-nil, append_assoc,
}
use simq.Topics.{Bytes}
use simq.Wire.Codes.{suback, valid_qos}
use simq.Wire.Header.{packet_id_of}
use simq.Wire.Subscribe.{
  SubscribeMessage, index, topic_no_local, topic_retain_as_published, topic_retain_handling,
}
use simq.Wire.Subscribe.Filters.{Filter, topic_of, Shows, lookup}
use simq.Wire.Subscribe.Answers.{Shows-Answers, answer}
use simq.Wire.Subscribe.Distinct.{Distinct}
use simq.Flow.Subscriptions.{
  is_share_sub, put_sub, add_sub, Manager, Config, Client, check_shares, Progress, collect,
  by_handling, take_topic, or_stop, take_topics, deliver, answer_subscribe, process_subscribe,
  response,
}
use simq.Flow.Subscriptions.Held.{sub_for, or_old, sub_for-put_all}
use simq.Flow.Subscriptions.Laws.{
  Laws, sub_of, sub_of, put_all, put_all, put_all, has_sub-put_sub, has_sub-put_sub,
  has_sub-put_sub, AllQos, AllQos, AllQos, add_reason_codes_all, add_reason_codes_all,
  add_reason_codes_all, Leads, Leads, Leads, Distinct-Leads, Distinct-Leads, Distinct-Leads,
}

module _ {T M : Type 0} (c : Config) (g : Manager T M) (l : Laws g) where
  -- What may be granted in the state `t`: no shared subscription, with a QoS, accepted by the manager,
  -- and what is retained for it can be read.
  pub record Grants (t : T) (m : SubscribeMessage) (f : Filter) : Type 0 where
    pub plain : is_share_sub f.topic ≡ false
    pub qos : valid_qos f.qos ≡ true
    pub accepted : l.Accepts (sub_of m f)
    pub messages : List M
    pub retained : g.retained t f.topic ≡ some messages

  abbrev pub AllGrant : T → SubscribeMessage → List Filter → Type 0
  AllGrant t m [] = Unit {0}
  AllGrant t m (f ∷ fs) = Grants t m f × AllGrant t m fs

  -- The retained messages that are due: those for filters with the retain handling 0.
  abbrev pub messages_of : Option (List M) → List M
  messages_of none = []
  messages_of (some ms) = ms

  abbrev pub due_for : T → Filter → List M
  due_for t f = if f.retain_handling == 0 then messages_of (g.retained t f.topic) else []

  abbrev pub due : T → List Filter → List M
  due t [] = []
  due t (f ∷ fs) = due_for t f ++ due t fs

  -- Another state in which the same is retained.
  abbrev Same : T → T → Type 0
  Same t t' = (topic : Bytes) → g.retained t' topic ≡ g.retained t topic

  AllGrant-move :
      (t t' : T) (m : SubscribeMessage) (fs : List Filter)
      → Same t t'
      → AllGrant t m fs
      → AllGrant t' m fs
  AllGrant-move t t' m [] e v = tt
  AllGrant-move t t' m (f ∷ fs) e v = (
    record {
      plain = v.0.plain;
      qos = v.0.qos;
      accepted = v.0.accepted;
      messages = v.0.messages;
      retained = e f.topic ∙ v.0.retained;
    },
    AllGrant-move t t' m fs e v.1,
  )

  due-move : (t t' : T) (fs : List Filter) → Same t t' → due t' fs ≡ due t fs
  due-move t t' [] e = refl
  due-move t t' (f ∷ fs) e =
      ap₂ ◌++◌ (ap (λ o. if f.retain_handling == 0 then messages_of o else []) (e f.topic))
        (due-move t t' fs e)

  -- One topic.
  abbrev taken : Progress c g → SubscribeMessage → Filter → T → Progress c g
  taken p m f mg = record {
    manager = mg;
    session = record p.session { topics = put_sub p.session.topics (sub_of m f) };
    codes = p.codes ++ (f.qos ∷ []);
    rmsgs = p.rmsgs ++ due_for p.manager f;
  }

  take_topic-granted :
      (p : Progress c g) (m : SubscribeMessage) (f : Filter)
      → l.Good p.manager
      → p.session.initted ≡ true
      → Grants p.manager m f
      → (mg : T) × (take_topic c g p (sub_of m f) ≡ (taken p m f mg, none))
        × l.Good mg
        × Same p.manager mg
        × (mg ≡ (g.subscribe p.manager (sub_of m f)).0)
  unfolding take_topic add_sub by_handling collect
  take_topic-granted p m f good ready v =
      let (mg, e, good', same) = l.granted p.manager (sub_of m f) good v.accepted in
      (
        mg,
        ground (
          arith,
          e,
          ready,
          v.plain,
          v.retained,
          same f.topic,
          append-nil p.rmsgs,
          has_sub-put_sub p.session.topics (sub_of m f),
        ),
        good',
        same,
        sym (ap (λ z. z.0) e),
      )

  -- All topics.
  abbrev all_taken : Progress c g → SubscribeMessage → List Filter → T → Progress c g
  all_taken p m fs mg = record {
    manager = mg;
    session = record p.session { topics = put_all m p.session.topics fs };
    codes = p.codes ++ map (λ f. f.qos) fs;
    rmsgs = p.rmsgs ++ due p.manager fs;
  }

  -- The manager after the subscriptions.
  abbrev pub subscribe_all : SubscribeMessage → T → List Filter → T
  subscribe_all m t [] = t
  subscribe_all m t (f ∷ fs) = subscribe_all m (g.subscribe t (sub_of m f)).0 fs

  options_lem :
      (m : SubscribeMessage) (all : List Filter) (f : Filter)
      → Shows m all
      → lookup all f.topic ≡ some f
      → (topic_no_local m f.topic ≡ ok (ltb 0 f.no_local))
        × (topic_retain_as_published m f.topic ≡ ok (ltb 0 f.retain_as_pub))
        × (topic_retain_handling m f.topic ≡ ok f.retain_handling)
  options_lem m all f s e =
      let a = Shows-Answers m all f.topic s in
      (
        a.no_local ∙ ap (λ o. ok (ltb 0 (answer (λ x. x.no_local) 0 o))) e,
        a.retain_as_published ∙ ap (λ o. ok (ltb 0 (answer (λ x. x.retain_as_pub) 0 o))) e,
        a.retain_handling ∙ ap (λ o. ok (answer (λ x. x.retain_handling) 0 o)) e,
      )

  all_taken-cons :
      (p : Progress c g) (m : SubscribeMessage) (f : Filter) (fs : List Filter) (t t' : T)
      → Same p.manager t
      → all_taken (taken p m f t) m fs t' ≡ all_taken p m (f ∷ fs) t'
  all_taken-cons p m f fs t t' e = rw (
    due-move p.manager t fs e,
    append_assoc p.rmsgs (due_for p.manager f) (due p.manager fs),
    append_assoc p.codes (f.qos ∷ []) (map (λ x. x.qos) fs),
  )

  take_topics-granted :
      (p : Progress c g) (m : SubscribeMessage) (all fs : List Filter)
      → Shows m all
      → Leads all fs
      → l.Good p.manager
      → p.session.initted ≡ true
      → AllGrant p.manager m fs
      → (mg : T) × (take_topics c g m p (map topic_of fs) (map (λ f. f.qos) fs)
          ≡ ok (all_taken p m fs mg, none))
        × l.Good mg
        × (mg ≡ subscribe_all m p.manager fs)
  unfolding take_topics
  take_topics-granted p m all [] s ls good ready v = (
    p.manager,
    ap₂ (λ cs rs. ok (record p { codes = cs; rmsgs = rs }, none)) (sym (append-nil p.codes))
        (sym (append-nil p.rmsgs)),
    good,
    refl,
  )
  take_topics-granted p m all (f ∷ fs) s ls good ready v =
      let (mg, e, good', same, there) = take_topic-granted p m f good ready v.0 in
      let (e₀, e₁, e₂) = options_lem m all f s ls.0 in
      let (mg', ih, good'', there') =
        take_topics-granted (taken p m f mg) m all fs s ls.1 good' ready
          (AllGrant-move p.manager mg m fs same v.1) in
      (
        mg',
        rw (e₀, e₁, e₂)
            (ap
                (λ z.
                  or_stop c g z
                    (λ p'. take_topics c g m p' (map topic_of fs) (map (λ x. x.qos) fs)))
                e
              ∙ ih
              ∙ ap (λ x. ok (x, none)) (all_taken-cons p m f fs mg mg' same)),
        good'',
        there' ∙ ap (λ z. subscribe_all m z fs) there,
      )

  check_shares-none :
      (t : T) (m : SubscribeMessage) (fs : List Filter)
      → AllGrant t m fs
      → check_shares c g m (map topic_of fs) ≡ ok none
  unfolding check_shares
  check_shares-none t m [] v = refl
  check_shares-none t m (f ∷ fs) v = rw v.0.plain (check_shares-none t m fs v.1)

  AllGrant-AllQos :
      (t : T) (m : SubscribeMessage) (fs : List Filter)
      → AllGrant t m fs
      → AllQos (map (λ f. f.qos) fs)
  AllGrant-AllQos t m [] v = tt
  AllGrant-AllQos t m (f ∷ fs) v = (v.0.qos, AllGrant-AllQos t m fs v.1)

  -- A retained message with its QoS cut to `q`.
  abbrev pub cut_to : ℕ → M → M × ℕ
  cut_to q r = (r, (if ltb q (g.qos_of r) then q else g.qos_of r))

  deliver_lem :
      (m : SubscribeMessage) (q : ℕ) (qs : List ℕ) (rs : List M) (out : List (M × ℕ))
      → m.qos ≡ q ∷ qs
      → deliver c g m rs out ≡ ok (out ++ map (cut_to q) rs)
  unfolding deliver index
  deliver_lem m q qs [] out e = ap ok (sym (append-nil out))
  deliver_lem m q qs (r ∷ rs) out e =
      let first_qos : index m.qos 0 ≡ ok q = ap (λ xs. index xs 0) e ∙ ground arith in
      rw first_qos (
        deliver_lem m q qs rs (out ++ (cut_to q r ∷ [])) e
        ∙ ap ok (append_assoc out (cut_to q r ∷ []) (map (cut_to q) rs)))

  -- What a granted SUBSCRIBE leaves: in the session the options of each filter under its topic, in
  -- place of what was there, and what it had under any other topic, one SUBACK with the QoS of each
  -- filter, and the messages that are due, with their QoS cut to that of the first filter.
  pub record Granted (s s' : Client T M) (m : SubscribeMessage) (f : Filter) (fs : List Filter)
      : Type 0 where
    pub good : l.Good s'.manager
    pub manager : s'.manager ≡ subscribe_all m s.manager (f ∷ fs)
    pub held :
        (t : Bytes) → sub_for s'.session.topics t ≡ or_old m s.session.topics t (lookup (f ∷ fs) t)
    pub initted : s'.session.initted ≡ true
    pub sent :
        s'.sent ≡ s.sent ++ ((suback, (packet_id_of m.header, map (λ x. x.qos) (f ∷ fs))) ∷ [])
    pub delivered : s'.delivered ≡ s.delivered ++ map (cut_to f.qos) (due s.manager (f ∷ fs))

  answer_subscribe-taken :
      (s : Client T M) (m : SubscribeMessage) (p : Progress c g) (q : ℕ) (qs : List ℕ)
      → m.qos ≡ q ∷ qs
      → AllQos p.codes
      → c.writes suback (packet_id_of m.header) ≡ true
      → answer_subscribe c g s m p
        ≡ ok (
          record {
            manager = p.manager;
            session = p.session;
            sent = s.sent ++ ((suback, (packet_id_of m.header, p.codes)) ∷ []);
            delivered = s.delivered ++ map (cut_to q) p.rmsgs;
          },
          none,
        )
  unfolding answer_subscribe
  answer_subscribe-taken s m p q qs e v w =
      let (e₀, e₁) = add_reason_codes_all (response (packet_id_of m.header)) p.codes v in
      ground (arith, e₀, e₁, w, deliver_lem m q qs p.rmsgs s.delivered e)

  -- A SUBSCRIBE that shows the filters `f` and `fs`, no two with the same topic, with a QoS each, none
  -- of them shared, which the manager accepts, and for which what is retained can be read, at a session
  -- that is initialised: if the SUBACK is written, `processSubscribe` has no error, the session
  -- has the options of each filter under its topic, in place of older ones, and under any other topic
  -- what it had, the SUBACK grants each filter its QoS, and the retained messages that are
  -- delivered are those for the filters with the retain handling 0, none of them for the others.
  pub process_subscribe-Granted :
      (s : Client T M) (m : SubscribeMessage) (f : Filter) (fs : List Filter)
      → Shows m (f ∷ fs)
      → Distinct (f ∷ fs)
      → l.Good s.manager
      → s.session.initted ≡ true
      → AllGrant s.manager m (f ∷ fs)
      → c.writes suback (packet_id_of m.header) ≡ true
      → (s' : Client T M) × (process_subscribe c g s m ≡ ok (s', none)) × Granted s s' m f fs
  unfolding process_subscribe
  process_subscribe-Granted s m f fs sh d good ready v w =
      let start : Progress c g = record {
        manager = s.manager;
        session = s.session;
        codes = [];
        rmsgs = [];
      } in
      let checked : check_shares c g m m.topics ≡ ok none =
        ap (check_shares c g m) sh.topics ∙ check_shares-none s.manager m (f ∷ fs) v in
      let (mg, e, good', there) =
        take_topics-granted start m (f ∷ fs) (f ∷ fs) sh (Distinct-Leads (f ∷ fs) d) good ready v in
      let taken : take_topics c g m start m.topics m.qos
          ≡ ok (all_taken start m (f ∷ fs) mg, none) =
        ap₂ (take_topics c g m start) sh.topics sh.qos ∙ e in
      let answered =
        answer_subscribe-taken s m (all_taken start m (f ∷ fs) mg) f.qos (map (λ x. x.qos) fs)
          sh.qos (AllGrant-AllQos s.manager m (f ∷ fs) v) w in
      (
        _,
        rw (checked, taken) answered,
        record {
          good = good';
          manager = there;
          held = λ t. sub_for-put_all m s.session.topics (f ∷ fs) t d;
          initted = ready;
          sent = refl;
          delivered = refl;
        },
      )
