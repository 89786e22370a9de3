-- ===== src/Topics/Dispatch.antt =====
-- `Subscribe`, `Unsubscribe`, `Subscribers`, `Retain` and `Retained` of memTopics, above the trees.
use simq.Base.{
  ℕ, ◌+◌, Bool, true, false, not, ◌&&◌, ◌||◌, List, [], ◌∷◌, Option, none, some, ◌==◌, ltb, leb,
  length, take, drop, get_or, if◌then◌else◌,
}
use simq.Wire.Codes.{valid_qos}
use simq.Topics.{
  Bytes, Sub, SNode, Entry, TopicError, bad_level, no_topic, bad_qos, no_subscriber, bad_share,
  store_failed, same_bytes, is_empty, sep, sinsert, sremove, smatch,
}
use simq.Topics.Retained.{RNode, Copied, rinsert, rremove, rmatch}

-- `$sys/` and `$share/`.
abbrev sys_bytes : Bytes
sys_bytes = 36 ∷ 115 ∷ 121 ∷ 115 ∷ 47 ∷ []

abbrev share_bytes : Bytes
share_bytes = 36 ∷ 115 ∷ 104 ∷ 97 ∷ 114 ∷ 101 ∷ 47 ∷ []

-- `deepEqual` and `deepSysEqual` behind the test of the length.
abbrev goes_on : Bytes → Bytes → Bool
goes_on prefix topic =
    ltb (length prefix) (length topic) && same_bytes (take (length prefix) topic) prefix

-- The loop for the end of the share name, from the prefix on: `none` for a wildcard, and 0 also
-- when there is no separator.
unfoldable pub share_end : Bytes → ℕ → Option ℕ
share_end [] i = some 0
share_end (c ∷ cs) i =
    let later = share_end cs (i + 1) in
    if c == sep then some i else (if c == 43 || c == 35 then none else later)

-- Who takes the subscription: the tree, or, with what is left of the topic, the provider of system
-- topics or that of a share name.
pub data Route : Type 0 where
  to_tree : Route
  to_sys : Bytes → Route
  to_share : Bytes → Bytes → Route
  refused_share : Route

abbrev route_share : Bytes → ℕ → Route
route_share topic i =
    if i == 0
    then refused_share
    else (if leb (2 + (7 + i)) (length topic) && get_or topic (7 + i) 0 == sep
        then to_share (take i (drop 7 topic)) (drop (7 + i + 1) topic)
        else refused_share)

unfoldable pub route : Bytes → Route
route topic =
    if goes_on sys_bytes topic
    then to_sys (drop 5 topic)
    else (if goes_on share_bytes topic
        then elim (share_end (drop 7 topic) 0) [
          | none ↦ refused_share
          | some i ↦ route_share topic i
        ]
        else to_tree)

-- What a call leaves and returns: the QoS or an error, or that another provider takes it.
pub data Answer : Type 0 where
  granted_qos : ℕ → Answer
  refused : TopicError → Answer
  passed_on : Bytes → Option Bytes → Answer

abbrev pub answer : ℕ → Option TopicError → Answer
answer qos none = granted_qos qos
answer qos (some e) = refused e

abbrev pub subscribe_by : Route → SNode → Sub → ℕ → SNode × Answer
subscribe_by to_tree root s sub =
    let (root', e) = sinsert (length s.topic) root s sub in (root', answer s.qos e)
subscribe_by (to_sys rest) root s sub = (root, passed_on rest none)
subscribe_by (to_share share_name rest) root s sub = (root, passed_on rest (some share_name))
subscribe_by refused_share root s sub = (root, refused bad_share)

-- A QoS above the largest that is allowed is cut.
abbrev pub capped : Sub → Sub
capped s = if ltb 2 s.qos then record s { qos = 2 } else s

-- `Subscribe`.
unfoldable pub subscribe : SNode → Sub → Option ℕ → SNode × Answer
subscribe root s none =
    if not (valid_qos s.qos) then (root, refused bad_qos) else (root, refused no_subscriber)
subscribe root s (some sub) =
    if not (valid_qos s.qos)
    then (root, refused bad_qos)
    else subscribe_by (route (capped s).topic) root (capped s) sub

-- `Unsubscribe` looks for the share name like `Subscribe`, but leaves a name with nothing behind it
-- to the tree.
abbrev leave_share : Bytes → ℕ → Route
leave_share topic i =
    if i == 0
    then refused_share
    else (if leb (2 + (7 + i)) (length topic) && get_or topic (7 + i) 0 == sep
        then to_share (take i (drop 7 topic)) (drop (7 + i + 1) topic)
        else to_tree)

unfoldable pub leave_route : Bytes → Route
leave_route topic =
    if goes_on sys_bytes topic
    then to_sys (drop 5 topic)
    else (if goes_on share_bytes topic
        then elim (share_end (drop 7 topic) 0) [
          | none ↦ refused_share
          | some i ↦ leave_share topic i
        ]
        else to_tree)

-- `Unsubscribe`; the QoS of the answer is 0. Without a subscriber all those of the filter go.
abbrev pub unsubscribe_by : Route → SNode → Bytes → Option ℕ → SNode × Answer
unsubscribe_by to_tree root topic sub =
    let (root', e) = sremove root topic sub in (root', answer 0 e)
unsubscribe_by (to_sys rest) root topic sub = (root, passed_on rest none)
unsubscribe_by (to_share share_name rest) root topic sub = (root, passed_on rest (some share_name))
unsubscribe_by refused_share root topic sub = (root, refused bad_share)

unfoldable pub unsubscribe : SNode → Bytes → Option ℕ → SNode × Answer
unsubscribe root topic sub = unsubscribe_by (leave_route topic) root topic sub

-- What `Subscribers` finds: entries of the tree, those that another provider finds, or both.
pub data Finding : Type 0 where
  found : List Entry → Finding
  of_sys : Bytes → Finding
  of_share : Option Bytes → Finding
  of_both : Bytes → List Entry → Finding
  fails : TopicError → Finding
  panics : Finding

-- `deepSysEqual`, which reads as many bytes as agree: `none` is an index out of range.
unfoldable pub starts : Bytes → Bytes → Option Bool
starts [] topic = some true
starts (p ∷ ps) [] = none
starts (p ∷ ps) (c ∷ cs) = let later = starts ps cs in if c == p then later else some false

abbrev pub found_or : Option (List Entry) → (List Entry → Finding) → Finding
found_or none f = fails bad_level
found_or (some es) f = f es

unfoldable pub service_subscribers : Bytes → Finding
service_subscribers topic =
    if is_empty topic then fails no_topic else elim (starts sys_bytes topic) [
      | none ↦ panics
      | some true ↦ of_sys (drop 5 topic)
      | some false ↦ fails no_topic
    ]

-- `Subscribers`: `svc` for a message of the system's own, `share` for the subscribers of a share name,
-- and `only_share` for none of the tree.
unfoldable pub subscribers : SNode → Bytes → ℕ → Bool → Bytes → Bool → Finding
subscribers root topic qos svc share only_share =
    if not (valid_qos qos)
    then fails bad_qos
    else (if svc
        then service_subscribers topic
        else (if get_or topic 0 0 == 36
            then fails no_topic
            else (if not (is_empty share)
                then (if only_share
                    then of_share (some share)
                    else found_or (smatch root topic qos) (of_both share))
                else (if only_share
                    then of_share none
                    else found_or (smatch root topic qos) found))))

-- `Retain`, by whether the store does its part.
unfoldable pub retain : Bool → RNode → Bytes → Bytes → Copied → RNode × Option TopicError
retain stored root topic payload m =
    if not stored
    then (root, some store_failed)
    else (if is_empty payload then rremove root topic else rinsert (length topic) root topic m)

-- `Retained`.
abbrev pub retained : RNode → Bytes → Option (List Bytes)
retained root topic = rmatch root topic
