-- ===== src/Topics.antt =====
-- The subscription tree and the tree of retained messages of corev5/v2/topics/impl/memtopics.go.
pub mod Levels
pub mod Rule
pub mod Covers
pub mod Match
pub mod Subscribers
pub mod Complete
pub mod Changes
pub mod Insert
pub mod Update
pub mod Remove
pub mod Retained
pub mod Dispatch
pub mod Subscribe
pub mod Delivery
mod Tests
use simq.Base.{
  ℕ, zero, suc, ◌+◌, Bool, true, false, not, ◌&&◌, ◌||◌, List, [], ◌∷◌, ◌++◌, Option, none, some,
  leb, ltb, ◌==◌, take, drop, length, if◌then◌else◌,
}
use mathlib.Core.Option

-- A topic, a filter or one of its levels, in bytes.
abbrev pub Bytes : Type 0
Bytes = List ℕ

abbrev pub same_bytes : Bytes → Bytes → Bool
same_bytes [] [] = true
same_bytes [] (b ∷ bs) = false
same_bytes (a ∷ as₁) [] = false
same_bytes (a ∷ as₁) (b ∷ bs) = a == b && same_bytes as₁ bs

abbrev pub is_empty {ℓ} : {A : Type ℓ} → List A → Bool
is_empty [] = true
is_empty (x ∷ xs) = false

-- `#`, `+` and `/`.
abbrev pub mwc : Bytes
mwc = 35 ∷ []

abbrev pub swc : Bytes
swc = 43 ∷ []

abbrev pub sep : ℕ
sep = 47

-- The states of `nextTopicLevel`.
pub data State : Type 0 where
  state_chr state_mwc state_swc state_sys : State

abbrev pub is_mwc : State → Bool
is_mwc state_mwc = true
is_mwc _ = false

-- The cases of the switch but the separator: the next state, or an error.
abbrev regular : State → Option State
regular state_mwc = none
regular state_swc = none
regular state_chr = some state_chr
regular state_sys = some state_chr

abbrev pub advance : ℕ → ℕ → State → Option State
advance c i s =
    if c == 35
    then (if i == 0 then some state_mwc else none)
    else (if c == 43
        then (if i == 0 then some state_swc else none)
        else (if c == 36 then (if i == 0 then none else some state_sys) else regular s))

-- A level, and what is behind its separator: `none` for the nil slice, when there is none.
abbrev pub Level : Type 0
Level = Bytes × Option Bytes

-- The loop of `nextTopicLevel` at the index `i`.
unfoldable pub scan_level : Bytes → Bytes → ℕ → State → Option Level
scan_level topic [] i s = some (topic, none)
scan_level topic (c ∷ rest) i s =
    if c == sep
    then (if is_mwc s then none else some (if i == 0 then swc else take i topic, some rest))
    else elim (advance c i s) [ none ↦ none | some s' ↦ scan_level topic rest (i + 1) s' ]

-- `nextTopicLevel`; `none` for its errors.
unfoldable pub next_topic_level : Bytes → Option Level
next_topic_level topic = scan_level topic topic 0 state_chr

-- `topics.Sub`.
pub record Sub : Type 0 where
  pub topic : Bytes
  pub qos : ℕ
  pub no_local : Bool
  pub retain_as_published : Bool
  pub retain_handling : ℕ
  pub sub_identifier : ℕ

-- A subscriber, by its identity, and its options: `subs` and `qos` of a node at one index, which
-- every operation changes together.
pub record Entry : Type 0 where
  pub who : ℕ
  pub options : Sub

-- `snode`; the map is a list in the order in which it happens to be gone through.
mutual
  pub data SNode : Type 0 where
    snode : List Entry → SNodes → SNode

  pub data SNodes : Type 0 where
    no_nodes : SNodes
    a_node : Bytes → SNode → SNodes → SNodes

abbrev pub subs_of : SNode → List Entry
subs_of (snode es ns) = es

abbrev pub snodes_of : SNode → SNodes
snodes_of (snode es ns) = ns

abbrev pub new_snode : SNode
new_snode = snode [] no_nodes

abbrev pub find_node : Bytes → SNodes → Option SNode
find_node k no_nodes = none
find_node k (a_node k' n rest) = if same_bytes k' k then some n else find_node k rest

abbrev pub put_node : Bytes → SNode → SNodes → SNodes
put_node k n no_nodes = a_node k n no_nodes
put_node k n (a_node k' n' rest) =
    let below = put_node k n rest in
    if same_bytes k' k then a_node k' n rest else a_node k' n' below

-- `stuck` is no error of the code: the fuel of the model is used up.
pub data TopicError : Type 0 where
  bad_level bad_message no_topic no_subscriber bad_qos bad_share store_failed stuck : TopicError

-- The end of `sinsert`: a subscriber that is there gets new options, another goes to the end.
unfoldable pub insert_entry : List Entry → Sub → ℕ → List Entry
insert_entry [] s sub = record { who = sub; options = s } ∷ []
insert_entry (e ∷ es) s sub =
    let below = insert_entry es s sub in
    if e.who == sub then record e { options = s } ∷ es else e ∷ below

abbrev pub rest_of : Option Bytes → Bytes
rest_of none = []
rest_of (some rem) = rem

abbrev pub child_or_new : Option SNode → SNode
child_or_new none = new_snode
child_or_new (some n) = n

-- `sinsert`, a level in each round. A new node stays in the map when the insertion below it fails.
unfoldable pub sinsert : ℕ → SNode → Sub → ℕ → SNode × Option TopicError
sinsert zero (snode es ns) s sub =
    if is_empty s.topic then (snode (insert_entry es s sub) ns, none) else (snode es ns, some stuck)
sinsert (suc fuel) (snode es ns) s sub =
    if is_empty s.topic
    then (snode (insert_entry es s sub) ns, none)
    else elim (next_topic_level s.topic) [
      | none ↦ (snode es ns, some bad_level)
      | some (level, rem) ↦
          let (n, e) =
            sinsert fuel (child_or_new (find_node level ns)) (record s { topic = rest_of rem })
              sub in
          (snode es (put_node level n ns), e)
    ]

-- `matchQos`.
abbrev pub granted : ℕ → Entry → Entry
granted qos e =
    if leb qos e.options.qos then record e { options = record e.options { qos = qos } } else e

unfoldable pub match_qos : ℕ → List Entry → List Entry
match_qos qos [] = []
match_qos qos (e ∷ es) = granted qos e ∷ match_qos qos es

-- The subscribers in the child of that name, if there is one.
abbrev pub match_child : ℕ → Bytes → SNodes → List Entry
match_child qos k no_nodes = []
match_child qos k (a_node k' n rest) =
    let below = match_child qos k rest in
    if same_bytes k' k then match_qos qos (subs_of n) else below

abbrev pub append_matches : Option (List Entry) → Option (List Entry) → Option (List Entry)
append_matches (some xs) (some ys) = some (xs ++ ys)
append_matches (some xs) none = none
append_matches none ys = none

-- `smatch`; `none` for an error, with which the caller drops what was found.
unfoldable mutual
  pub smatch : SNode → Bytes → ℕ → Option (List Entry)
  smatch (snode es ns) [] qos =
      some (match_qos qos es ++ (match_child qos mwc ns ++ match_child qos swc ns))
  smatch (snode es ns) (c ∷ topic) qos = elim (next_topic_level (c ∷ topic)) [
    | none ↦ none
    | some (level, rem) ↦ smatch_nodes ns level rem qos
  ]

  -- The loop over the children of a node.
  pub smatch_nodes : SNodes → Bytes → Option Bytes → ℕ → Option (List Entry)
  smatch_nodes no_nodes level rem qos = some []
  smatch_nodes (a_node k n rest) level rem qos =
      let below : Option (List Entry) = elim rem [
        | some r ↦ smatch n r qos
        | none ↦ some (match_qos qos (subs_of n) ++ match_child qos mwc (snodes_of n))
      ] in
      let more = smatch_nodes rest level rem qos in
      if same_bytes k mwc
      then append_matches (some (match_qos qos (subs_of n))) more
      else (if same_bytes k swc || same_bytes k level then append_matches below more else more)

-- The loop at the end of `sremove`: the first entry of the subscriber goes.
unfoldable pub remove_entry : List Entry → ℕ → Option (List Entry)
remove_entry [] sub = none
remove_entry (e ∷ es) sub =
    let below = Option.map (λ zs. e ∷ zs) (remove_entry es sub) in
    if e.who == sub then some es else below

-- The end of `sremove`; no subscriber stands for all of them.
unfoldable pub remove_here : List Entry → Option ℕ → Option (List Entry)
remove_here es none = some []
remove_here es (some sub) = remove_entry es sub

abbrev pub no_children : SNodes → Bool
no_children no_nodes = true
no_children (a_node k n rest) = false

-- The end of the round for a child: an empty one is deleted, unless there was an error.
abbrev pub keep_child : Bytes → SNode × Option TopicError → SNodes → SNodes × Option TopicError
keep_child k (n, some e) rest = (a_node k n rest, some e)
keep_child k (n, none) rest =
    if is_empty (subs_of n) && no_children (snodes_of n)
    then (rest, none)
    else (a_node k n rest, none)

abbrev behind_child : Bytes → SNode → SNodes × Option TopicError → SNodes × Option TopicError
behind_child k n (rest, e) = (a_node k n rest, e)

abbrev removed_here : List Entry → SNodes → Option (List Entry) → SNode × Option TopicError
removed_here es ns none = (snode es ns, some no_subscriber)
removed_here es ns (some es') = (snode es' ns, none)

abbrev with_children : List Entry → SNodes × Option TopicError → SNode × Option TopicError
with_children es (ns, e) = (snode es ns, e)

-- `sremove`.
unfoldable mutual
  pub sremove : SNode → Bytes → Option ℕ → SNode × Option TopicError
  sremove (snode es ns) [] sub = removed_here es ns (remove_here es sub)
  sremove (snode es ns) (c ∷ topic) sub = elim (next_topic_level (c ∷ topic)) [
    | none ↦ (snode es ns, some bad_level)
    | some (level, rem) ↦ with_children es (sremove_nodes ns level (rest_of rem) sub)
  ]

  -- The lookup of the child, and the round below it.
  pub sremove_nodes : SNodes → Bytes → Bytes → Option ℕ → SNodes × Option TopicError
  sremove_nodes no_nodes level topic sub = (no_nodes, some no_topic)
  sremove_nodes (a_node k n rest) level topic sub =
      let here = sremove n topic sub in
      let later = sremove_nodes rest level topic sub in
      if same_bytes k level then keep_child k here rest else behind_child k n later
