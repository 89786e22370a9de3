-- ===== src/Flow/Subscriptions/Trees.antt =====
-- The trees of Topics as the topics manager of a service.
use simq.Base.{ℕ, ◌≡◌, refl, ap, ◌∙◌, Bool, true, false, List, [], ◌∷◌, Option, none, some, ok}
use mathlib.Core.List.Memᴰ.{Memᴰ}
use simq.Topics.{Bytes, Sub, SNode, Entry}
use simq.Topics.Levels.{name, AllPlain}
use simq.Topics.Rule.{covers, lowered}
use simq.Topics.Match.{IsTree}
use simq.Topics.Insert.{IsFilter}
use simq.Topics.Retained.{RNode}
use simq.Topics.Subscribe.{subscribe-Changed}
use simq.Topics.Delivery.{subscribe-subscribers}
use simq.Topics.Dispatch
use simq.Topics.Dispatch.{
  Answer, granted_qos, refused, passed_on, route, to_tree, subscribers, found, retained,
}
use simq.Wire.Codes.{suback, valid_qos}
use simq.Wire.Header.{packet_id_of}
use simq.Wire.Subscribe.{SubscribeMessage}
use simq.Wire.Subscribe.Filters.{Filter, Shows, lookup}
use simq.Flow.Subscriptions.{Manager, Config, Client, is_share_sub, process_subscribe}
use simq.Flow.Subscriptions.Laws.{Laws, sub_of}
use simq.Flow.Subscriptions.Granted.{Granted, process_subscribe-Granted}

-- `memTopics` with the subscriber `who`: `elsewhere` is what the providers of system topics and shared
-- subscriptions answer, and `message_qos` the QoS of a retained message.
module _ (who : ℕ) (elsewhere : Bytes → Option Bytes → Option ℕ) (message_qos : Bytes → ℕ) where
  abbrev qos_granted : Answer → Option ℕ
  qos_granted (granted_qos q) = some q
  qos_granted (refused e) = none
  qos_granted (passed_on rest share) = elsewhere rest share

  abbrev pub mem_topics : Manager (SNode × RNode) Bytes
  mem_topics = record {
    subscribe =
        λ t s. let (n, a) = Dispatch.subscribe t.0 s (some who) in ((n, t.1), qos_granted a);
    unsubscribe = λ t topic. ((Dispatch.unsubscribe t.0 topic (some who)).0, t.1);
    retained = λ t topic. retained t.1 topic;
    qos_of = message_qos;
  }

  -- A filter of the tree, with a QoS.
  pub record IsPlain (s : Sub) : Type 0 where
    pub levels : List Bytes
    pub filter : IsFilter levels
    pub named : s.topic ≡ name levels false
    pub qos : valid_qos s.qos ≡ true
    pub here : route s.topic ≡ to_tree

  abbrev pub mem_topics_laws : Laws mem_topics
  mem_topics_laws = record {
    Good = λ t. IsTree t.0;
    Accepts = IsPlain;
    granted = λ t s good v.
        let (n, e, c) = subscribe-Changed t.0 v.levels s who good v.filter v.named v.qos v.here in
        ((n, t.1), ap (λ z. ((z.0, t.1), qos_granted z.1)) e, c.valid, λ topic. refl);
  }

  lookup-nil : (f : Filter) → lookup [] f.topic ≡ none
  unfolding lookup
  lookup-nil f = refl

  -- A SUBSCRIBE with the one filter `f`, which is not shared, has a QoS and goes to the tree, at a
  -- session that is initialised and with a tree where no two children have the same name: if what is
  -- retained can be read and the SUBACK is written, `processSubscribe` grants it, and then
  -- `Subscribers` of every name of plain levels that the filter covers finds the client, with the
  -- options of the filter but for the QoS, which is the lesser of the two, and the topic, which is empty.
  pub process_subscribe-subscribers :
      (c : Config) (s : Client (SNode × RNode) Bytes) (m : SubscribeMessage) (f : Filter)
      (ks : List Bytes) (msgs : List Bytes) (l : Bytes) (ls : List Bytes) (slash : Bool) (qos : ℕ)
      → Shows m (f ∷ [])
      → IsTree s.manager.0
      → s.session.initted ≡ true
      → is_share_sub f.topic ≡ false
      → IsFilter ks
      → f.topic ≡ name ks false
      → valid_qos f.qos ≡ true
      → route f.topic ≡ to_tree
      → retained s.manager.1 f.topic ≡ some msgs
      → c.writes suback (packet_id_of m.header) ≡ true
      → AllPlain (l ∷ ls)
      → covers ks (l ∷ ls) slash ≡ true
      → valid_qos qos ≡ true
      → (s' : Client (SNode × RNode) Bytes) × (process_subscribe c mem_topics s m ≡ ok (s', none))
        × Granted c mem_topics mem_topics_laws s s' m f []
        × ((ys : List Entry) × (subscribers s'.manager.0 (name (l ∷ ls) slash) qos false [] false
              ≡ found ys)
            × Memᴰ
                (lowered qos (record { who = who; options = record (sub_of m f) { topic = [] } }))
                ys)
  process_subscribe-subscribers c s m f ks msgs l ls slash qos sh t ready plain k n q r ms w p cov
        q' =
      let (s', e, gr) =
        process_subscribe-Granted c mem_topics mem_topics_laws s m f [] sh (lookup-nil f, tt) t
          ready
          (
            record {
              plain = plain;
              qos = q;
              accepted = record { levels = ks; filter = k; named = n; qos = q; here = r };
              messages = msgs;
              retained = ms;
            },
            tt,
          )
          w in
      let (n', granted_eq, tree, (ys, found_eq, there)) =
        subscribe-subscribers s.manager.0 ks (sub_of m f) who l ls slash qos t k n q r p cov q' in
      let manager : s'.manager.0 ≡ n' = ap (λ z. z.0) gr.manager ∙ ap (λ z. z.0) granted_eq in
      (
        s',
        e,
        gr,
        (
          ys,
          ap (λ z. subscribers z (name (l ∷ ls) slash) qos false [] false) manager ∙ found_eq,
          there,
        ),
      )
