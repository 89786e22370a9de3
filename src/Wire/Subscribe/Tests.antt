-- ===== src/Wire/Subscribe/Tests.antt =====
-- SUBSCRIBE on concrete messages.
use simq.Base.{ℕ, ◌≡◌, refl, true, false, List, [], ◌∷◌, ◌++◌, length, ok, arith}
use simq.Wire.VarInt.Laws.{groups}
use simq.Wire.Header.{type_of, with_flags}
use simq.Wire.Subscribe.{SubscribeMessage, new_subscribe, topic_exists, clone, clone_loop, index}
use simq.Wire.Subscribe.Filters.{Filter, Shows}
use simq.Wire.Subscribe.Edits.{Edit, adds, adds_all, removes, sets_no_local, edits, plans}
use simq.Wire.Subscribe.Answers.{Answers, edits_refine}
use simq.Wire.Subscribe.Distinct.{removed}
use simq.Wire.Subscribe.Codec.{decode_subscribe, encode_subscribe}
use simq.Wire.Subscribe.Build.{IsSubscribe, identifier_bytes, filters_bytes}
use simq.Wire.Subscribe.RoundTrip.{Decoded, decode-encode_subscribe}
use simq.Wire.Strings.Laws.{property_bytes}

-- What `NewSubscribeMessage` gives.
abbrev fresh : SubscribeMessage
fresh = record {
  header = record { remlen = 0; mtypeflags = 0x82 ∷ []; packet_id = []; dbuf = []; dirty = true };
  properties_len = 0;
  sub_identifier = 0;
  user_property = [];
  topics = [];
  qos = [];
  no_local = [];
  retain_as_pub = [];
  retain_handling = [];
}

abbrev fresh-Shows : Shows fresh []
fresh-Shows = record {
  topics = refl;
  qos = refl;
  no_local = refl;
  retain_as_pub = refl;
  retain_handling = refl;
}

-- The topics `a` and `b/#`.
abbrev two : List Filter
two =
    record { topic = 97 ∷ []; qos = 1; no_local = 1; retain_as_pub = 0; retain_handling = 2 }
    ∷ record {
      topic = 98 ∷ 47 ∷ 35 ∷ [];
      qos = 2;
      no_local = 0;
      retain_as_pub = 1;
      retain_handling = 0;
    }
    ∷ []

abbrev message : SubscribeMessage
message = record fresh {
  header = record fresh.header { packet_id = 0 ∷ 7 ∷ [] };
  sub_identifier = 300;
  user_property = (107 ∷ []) ∷ (118 ∷ []) ∷ [];
  topics = (97 ∷ []) ∷ (98 ∷ 47 ∷ 35 ∷ []) ∷ [];
  qos = 1 ∷ 2 ∷ [];
  no_local = 1 ∷ 0 ∷ [];
  retain_as_pub = 0 ∷ 1 ∷ [];
  retain_handling = 2 ∷ 0 ∷ [];
}

message-IsSubscribe : IsSubscribe message two
unfolding identifier_bytes property_bytes filters_bytes groups
message-IsSubscribe = record {
  changed = refl;
  one_byte = refl;
  shows = record {
    topics = refl;
    qos = refl;
    no_local = refl;
    retain_as_pub = refl;
    retain_handling = refl;
  };
  filters = (
    record {
      short = omega arith;
      qos = omega arith;
      no_local = omega arith;
      retain_as_pub = omega arith;
      retain_handling = omega arith;
    },
    (
      record {
        short = omega arith;
        qos = omega arith;
        no_local = omega arith;
        retain_as_pub = omega arith;
        retain_handling = omega arith;
      },
      tt,
    ),
  );
  properties_short = (omega arith, (omega arith, tt));
  small = omega arith;
}

decode-encode_subscribe_example :
    (out : List ℕ) × (m' q : SubscribeMessage) × (encode_subscribe message 9 ≡ ok (out, m'))
    × (decode_subscribe fresh (record { bytes = out; spare = 1 ∷ [] }) ≡ ok (length out, q))
    × Decoded message q two
unfolding type_of with_flags
decode-encode_subscribe_example =
    decode-encode_subscribe fresh message _ _ 0 7 9 (1 ∷ []) message-IsSubscribe (omega arith)
      (record { no_identifier = omega arith; no_property = omega arith }) refl refl fresh-Shows refl
      (omega arith)

-- A topic that comes twice, one with a QoS that does not exist, and one that is taken out.
abbrev calls : List Edit
calls =
    adds_all (97 ∷ []) 1 true false 2
    ∷ adds (98 ∷ []) 2
    ∷ adds (97 ∷ []) 0
    ∷ adds (99 ∷ []) 3
    ∷ sets_no_local (98 ∷ []) true
    ∷ removes (97 ∷ [])
    ∷ []

edits_refine_example :
    (m' : SubscribeMessage) × (edits fresh calls ≡ ok m')
    × Shows m' (plans [] calls)
    × ((t : List ℕ) → Answers m' (plans [] calls) t)
edits_refine_example = edits_refine fresh [] calls fresh-Shows

removed_example :
    (m m' : SubscribeMessage) × (new_subscribe ≡ ok m)
    × (edits m (calls ++ (removes (98 ∷ []) ∷ [])) ≡ ok m')
    × (topic_exists m' (98 ∷ []) ≡ false)
removed_example = removed calls (98 ∷ [])

-- `Clone` of two topics is the message twice.
clone_two : clone message ≡ ok (message ∷ message ∷ [])
unfolding clone clone_loop index
clone_two = refl
