-- ===== src/Wire/Subscribe/Edits.antt =====
-- SUBSCRIBE: the calls that change the topics, and the same changes of a list of filters.
use simq.Base.{
  ℕ, Bool, false, List, [], ◌∷◌, ◌++◌, ltb, if◌then◌else◌, none, some, Outcome, ok, err, panic,
  stuck, ◌>>=◌, not,
}
use simq.Wire.Codes.{valid_qos}
use simq.Wire.Subscribe.{
  SubscribeMessage, byte_of, add_topic, add_topic_all, remove_topic, set_topic_no_local,
  set_topic_retain_as_published, set_topic_retain_handling,
}
use simq.Wire.Subscribe.Filters.{Filter, lookup, change_first, remove_first}

-- The calls.
pub data Edit : Type 0 where
  adds : List ℕ → ℕ → Edit
  adds_all : List ℕ → ℕ → Bool → Bool → ℕ → Edit
  removes : List ℕ → Edit
  sets_no_local : List ℕ → Bool → Edit
  sets_retain_as_published : List ℕ → Bool → Edit
  sets_retain_handling : List ℕ → ℕ → Edit

abbrev pub edit : SubscribeMessage → Edit → Outcome SubscribeMessage
edit m (adds t q) = add_topic m t q
edit m (adds_all t q n r h) = add_topic_all m t q n r h
edit m (removes t) = remove_topic m t
edit m (sets_no_local t v) = set_topic_no_local m t v
edit m (sets_retain_as_published t v) = set_topic_retain_as_published m t v
edit m (sets_retain_handling t v) = set_topic_retain_handling m t v

-- A refused call leaves the message as it is.
abbrev pub kept : SubscribeMessage → Outcome SubscribeMessage → Outcome SubscribeMessage
kept m (ok m') = ok m'
kept m (err e) = ok m
kept m panic = panic
kept m stuck = stuck

unfoldable pub edits : SubscribeMessage → List Edit → Outcome SubscribeMessage
edits m [] = ok m
edits m (e ∷ es) = kept m (edit m e) >>= λ m'. edits m' es

-- The same of a list of filters.
unfoldable pub put : List Filter → Filter → List Filter
put fs f = elim (lookup fs f.topic) [
  | some _ ↦ change_first (λ g. record g { qos = f.qos }) fs f.topic
  | none ↦ fs ++ (f ∷ [])
]

abbrev pub filter : List ℕ → ℕ → Bool → Bool → ℕ → Filter
filter t q n r h = record {
  topic = t;
  qos = q;
  no_local = byte_of n;
  retain_as_pub = byte_of r;
  retain_handling = h;
}

abbrev pub plan : List Filter → Edit → List Filter
plan fs (adds t q) = if not (valid_qos q) then fs else put fs (filter t q false false 0)
plan fs (adds_all t q n r h) =
    if not (valid_qos q) then fs else (if ltb 2 h then fs else put fs (filter t q n r h))
plan fs (removes t) = remove_first fs t
plan fs (sets_no_local t v) = change_first (λ g. record g { no_local = byte_of v }) fs t
plan fs (sets_retain_as_published t v) =
    change_first (λ g. record g { retain_as_pub = byte_of v }) fs t
plan fs (sets_retain_handling t v) = change_first (λ g. record g { retain_handling = v }) fs t

unfoldable pub plans : List Filter → List Edit → List Filter
plans fs [] = fs
plans fs (e ∷ es) = plans (plan fs e) es
