-- ===== src/Flow/Subscriptions/Tests.antt =====
-- SUBSCRIBE and UNSUBSCRIBE at the server, on concrete messages.
use simq.Base.{ℕ, ◌≡◌, refl, true, false, List, [], ◌∷◌, none, some, ok, arith, inl, inr, Option}
use mathlib.Core.List.Memᴰ.{Memᴰ}
use simq.Topics.{Bytes, sremove, SNode, new_snode, Entry, swc, next_topic_level, scan_level}
use simq.Topics.Levels.{Plain}
use simq.Topics.Rule.{matches, covers, lowered}
use simq.Topics.Retained.{RNode, rnode, an_rnode, no_rnodes, rmatch}
use simq.Topics.Dispatch.{subscribers, found, route, leave_route, unsubscribe}
use simq.Wire.Header.{packet_id_of}
use simq.Wire.Unsubscribe.{UnsubscribeMessage}
use simq.Wire.Subscribe.{SubscribeMessage}
use simq.Wire.Subscribe.Filters.{Filter, lookup}
use simq.Flow.Subscriptions.{
  Config, Client, is_share_sub, process_subscribe, process_unsubscribe, leave_topics, remove_sub,
}
use simq.Flow.Subscriptions.Granted.{Granted, process_subscribe-Granted}
use simq.Flow.Subscriptions.Laws.{sub_of}
use simq.Flow.Subscriptions.Trees.{mem_topics, mem_topics_laws, process_subscribe-subscribers}

abbrev config : Config
config = record { close_share_sub = false; writes = λ t id. true }

abbrev nowhere : Bytes → Option Bytes → Option ℕ
nowhere rest share = none

abbrev always_two : Bytes → ℕ
always_two m = 2

-- A message is retained for the topic `a` and for `b`.
abbrev start : Client (SNode × RNode) Bytes
start = record {
  manager = (
    new_snode,
    rnode none (
        an_rnode (97 ∷ []) (rnode (some (1 ∷ [])) no_rnodes)
          (an_rnode (98 ∷ []) (rnode (some (2 ∷ [])) no_rnodes) no_rnodes)),
  );
  session = record { initted = true; topics = [] };
  sent = [];
  delivered = [];
}

abbrev filter : List ℕ → ℕ → ℕ → Filter
filter t q h = record { topic = t; qos = q; no_local = 0; retain_as_pub = 0; retain_handling = h }

-- The topics `a` with the retain handling 0 and `b` with 1.
abbrev message : SubscribeMessage
message = record {
  header = record {
    remlen = 0;
    mtypeflags = 0x82 ∷ [];
    packet_id = 0 ∷ 7 ∷ [];
    dbuf = [];
    dirty = true;
  };
  properties_len = 0;
  sub_identifier = 0;
  user_property = [];
  topics = (97 ∷ []) ∷ (98 ∷ []) ∷ [];
  qos = 1 ∷ 2 ∷ [];
  no_local = 0 ∷ 0 ∷ [];
  retain_as_pub = 0 ∷ 0 ∷ [];
  retain_handling = 0 ∷ 1 ∷ [];
}

a_level-Plain : Plain (97 ∷ [])
a_level-Plain = (omega arith, ((omega arith, omega arith, omega arith), tt))

b_level-Plain : Plain (98 ∷ [])
b_level-Plain = (omega arith, ((omega arith, omega arith, omega arith), tt))

-- A session that has older options for `a`, and some for `c`.
abbrev again : Client (SNode × RNode) Bytes
again = record start {
  session = record {
    initted = true;
    topics = sub_of message (filter (97 ∷ []) 0 2) ∷ sub_of message (filter (99 ∷ []) 2 1) ∷ [];
  };
}

process_subscribe-Granted_example :
    (s' : Client (SNode × RNode) Bytes) × (process_subscribe config
        (mem_topics 5 nowhere always_two)
        again
        message
      ≡ ok (s', none))
    × Granted config
        (mem_topics 5 nowhere always_two)
        (mem_topics_laws 5 nowhere always_two)
        again
        s'
        message
        (filter (97 ∷ []) 1 0)
        (filter (98 ∷ []) 2 1 ∷ [])
unfolding lookup is_share_sub route rmatch next_topic_level scan_level
process_subscribe-Granted_example =
    process_subscribe-Granted config (mem_topics 5 nowhere always_two)
      (mem_topics_laws 5 nowhere always_two) again message _ _
      (record {
        topics = refl;
        qos = refl;
        no_local = refl;
        retain_as_pub = refl;
        retain_handling = refl;
      })
      (refl, (refl, tt)) tt refl
      (
        record {
          plain = refl;
          qos = refl;
          accepted = record {
            levels = (97 ∷ []) ∷ [];
            filter = inl (inl a_level-Plain, tt);
            named = refl;
            qos = refl;
            here = refl;
          };
          messages = (1 ∷ []) ∷ [];
          retained = refl;
        },
        (
          record {
            plain = refl;
            qos = refl;
            accepted = record {
              levels = (98 ∷ []) ∷ [];
              filter = inl (inl b_level-Plain, tt);
              named = refl;
              qos = refl;
              here = refl;
            };
            messages = (2 ∷ []) ∷ [];
            retained = refl;
          },
          tt,
        ),
      )
      refl

-- The topic `a/+`, and a message to `a/b`.
abbrev one_topic : SubscribeMessage
one_topic = record message {
  topics = (97 ∷ 47 ∷ 43 ∷ []) ∷ [];
  qos = 1 ∷ [];
  no_local = 0 ∷ [];
  retain_as_pub = 0 ∷ [];
  retain_handling = 1 ∷ [];
}

process_subscribe-subscribers_example :
    (s' : Client (SNode × RNode) Bytes) × (process_subscribe config
        (mem_topics 5 nowhere always_two)
        start
        one_topic
      ≡ ok (s', none))
    × Granted config
        (mem_topics 5 nowhere always_two)
        (mem_topics_laws 5 nowhere always_two)
        start
        s'
        one_topic
        (filter (97 ∷ 47 ∷ 43 ∷ []) 1 1)
        []
    × ((ys : List Entry) × (subscribers s'.manager.0 (97 ∷ 47 ∷ 98 ∷ []) 2 false [] false
          ≡ found ys)
        × Memᴰ
            (lowered 2 (record {
              who = 5;
              options = record (sub_of one_topic (filter (97 ∷ 47 ∷ 43 ∷ []) 1 1)) { topic = [] };
            }))
            ys)
unfolding is_share_sub route rmatch next_topic_level scan_level covers matches
process_subscribe-subscribers_example =
    process_subscribe-subscribers 5 nowhere always_two config start one_topic
      (filter (97 ∷ 47 ∷ 43 ∷ []) 1 1) ((97 ∷ []) ∷ swc ∷ []) [] (97 ∷ []) ((98 ∷ []) ∷ []) false 2
      (record {
        topics = refl;
        qos = refl;
        no_local = refl;
        retain_as_pub = refl;
        retain_handling = refl;
      })
      tt refl refl (inl (inl a_level-Plain, inl (inr refl, tt))) refl refl refl refl refl
      (a_level-Plain, (b_level-Plain, tt)) refl refl

-- An UNSUBSCRIBE of two topics, of which the session has one: the UNSUBACK has one reason code.
abbrev leaves : UnsubscribeMessage
leaves = record {
  header = record message.header { mtypeflags = 0xa2 ∷ [] };
  property_len = 0;
  user_property = [];
  topics = (97 ∷ []) ∷ (98 ∷ []) ∷ [];
}

abbrev subscribed : Client (SNode × RNode) Bytes
subscribed = record start {
  session = record {
    initted = true;
    topics = sub_of message (filter (97 ∷ []) 1 0) ∷ sub_of message (filter (99 ∷ []) 2 1) ∷ [];
  };
}

process_unsubscribe_run :
    process_unsubscribe config (mem_topics 5 nowhere always_two) subscribed leaves ≡ (
      record subscribed {
        session = record { initted = true; topics = sub_of message (filter (99 ∷ []) 2 1) ∷ [] };
        sent = (11, (7, 0 ∷ [])) ∷ [];
      },
      none,
    )
unfolding process_unsubscribe leave_topics remove_sub leave_route unsubscribe sremove
    next_topic_level scan_level packet_id_of
process_unsubscribe_run = refl
