-- ===== src/Topics/Retained.antt =====
-- The tree of retained messages.
use simq.Base.{
  ℕ, zero, suc, ◌≡◌, Bool, true, false, List, [], ◌∷◌, ◌++◌, Option, none, some, if◌then◌else◌,
  refl, ap, ◌∙◌, arith,
}
use simq.Topics.Levels.{name, glue, Plain, next_topic_level_lem}
use simq.Topics.Complete.{same_bytes_refl}
use simq.Topics.{
  Bytes, same_bytes, is_empty, mwc, swc, next_topic_level, rest_of, TopicError, bad_level,
  bad_message, no_topic, stuck,
}

-- What a PUBLISH leaves in a node, which encodes and decodes it: a message, or, with an error, what
-- the node has then.
pub data Copied : Type 0 where
  copied : Bytes → Copied
  failed : Option Bytes → Copied

-- `rnode`; the message by its bytes.
mutual
  pub data RNode : Type 0 where
    rnode : Option Bytes → RNodes → RNode

  pub data RNodes : Type 0 where
    no_rnodes : RNodes
    an_rnode : Bytes → RNode → RNodes → RNodes

abbrev pub find_rnode : Bytes → RNodes → RNode
find_rnode k no_rnodes = rnode none no_rnodes
find_rnode k (an_rnode k' n rest) =
    let below = find_rnode k rest in if same_bytes k' k then n else below

abbrev pub put_rnode : Bytes → RNode → RNodes → RNodes
put_rnode k n no_rnodes = an_rnode k n no_rnodes
put_rnode k n (an_rnode k' n' rest) =
    let below = put_rnode k n rest in
    if same_bytes k' k then an_rnode k' n rest else an_rnode k' n' below

abbrev store_here : RNodes → Copied → RNode × Option TopicError
store_here ns (copied m) = (rnode (some m) ns, none)
store_here ns (failed o) = (rnode o ns, some bad_message)

-- `rinsert`, a level in each round; a child that is not there is made.
unfoldable pub rinsert : ℕ → RNode → Bytes → Copied → RNode × Option TopicError
rinsert zero (rnode o ns) topic m =
    if is_empty topic then store_here ns m else (rnode o ns, some stuck)
rinsert (suc fuel) (rnode o ns) topic m =
    if is_empty topic then store_here ns m else elim (next_topic_level topic) [
      | none ↦ (rnode o ns, some bad_level)
      | some (level, rem) ↦
          let (n, e) = rinsert fuel (find_rnode level ns) (rest_of rem) m in
          (rnode o (put_rnode level n ns), e)
    ]

abbrev pub rnodes_of : RNode → RNodes
rnodes_of (rnode o ns) = ns

abbrev no_rchildren : RNodes → Bool
no_rchildren no_rnodes = true
no_rchildren (an_rnode k n rest) = false

-- A child with no children is deleted.
abbrev keep_rchild : Bytes → RNode × Option TopicError → RNodes → RNodes × Option TopicError
keep_rchild k (n, some e) rest = (an_rnode k n rest, some e)
keep_rchild k (n, none) rest =
    if no_rchildren (rnodes_of n) then (rest, none) else (an_rnode k n rest, none)

abbrev behind_rchild : Bytes → RNode → RNodes × Option TopicError → RNodes × Option TopicError
behind_rchild k n (rest, e) = (an_rnode k n rest, e)

abbrev with_rchildren : Option Bytes → RNodes × Option TopicError → RNode × Option TopicError
with_rchildren o (ns, e) = (rnode o ns, e)

-- `rremove`.
unfoldable mutual
  pub rremove : RNode → Bytes → RNode × Option TopicError
  rremove (rnode o ns) [] = (rnode none ns, none)
  rremove (rnode o ns) (c ∷ topic) = elim (next_topic_level (c ∷ topic)) [
    | none ↦ (rnode o ns, some bad_level)
    | some (level, rem) ↦ with_rchildren o (rremove_nodes ns level (rest_of rem))
  ]

  pub rremove_nodes : RNodes → Bytes → Bytes → RNodes × Option TopicError
  rremove_nodes no_rnodes level topic = (no_rnodes, some no_topic)
  rremove_nodes (an_rnode k n rest) level topic =
      let here = rremove n topic in
      let later = rremove_nodes rest level topic in
      if same_bytes k level then keep_rchild k here rest else behind_rchild k n later

abbrev pub the_message : Option Bytes → List Bytes
the_message none = []
the_message (some m) = m ∷ []

-- `allRetained`.
unfoldable mutual
  pub all_retained : RNode → List Bytes
  all_retained (rnode o ns) = the_message o ++ all_retained_nodes ns

  pub all_retained_nodes : RNodes → List Bytes
  all_retained_nodes no_rnodes = []
  all_retained_nodes (an_rnode k n rest) = all_retained n ++ all_retained_nodes rest

abbrev append_messages : Option (List Bytes) → Option (List Bytes) → Option (List Bytes)
append_messages (some xs) (some ys) = some (xs ++ ys)
append_messages (some xs) none = none
append_messages none ys = none

-- `rmatch`; `none` for an error, with which the caller drops what was found.
unfoldable mutual
  pub rmatch : RNode → Bytes → Option (List Bytes)
  rmatch (rnode o ns) [] = some (the_message o)
  rmatch (rnode o ns) (c ∷ topic) = elim (next_topic_level (c ∷ topic)) [
    | none ↦ none
    | some (level, rem) ↦
        (if same_bytes level mwc
          then some (the_message o ++ all_retained_nodes ns)
          else rmatch_nodes ns level (rest_of rem))
  ]

  -- The children that `+` or a name leads to: all of them, or the one of that name.
  pub rmatch_nodes : RNodes → Bytes → Bytes → Option (List Bytes)
  rmatch_nodes no_rnodes level topic = some []
  rmatch_nodes (an_rnode k n rest) level topic =
      let here = rmatch n topic in
      let later = rmatch_nodes rest level topic in
      if same_bytes level swc
      then append_messages here later
      else (if same_bytes k level then here else later)

rremove-next :
    (o : Option Bytes) (ns : RNodes) (c : ℕ) (t l : Bytes) (rem : Option Bytes)
    → next_topic_level (c ∷ t) ≡ some (l, rem)
    → rremove (rnode o ns) (c ∷ t) ≡ with_rchildren o (rremove_nodes ns l (rest_of rem))
unfolding rremove
rremove-next o ns c t l rem e = ground (arith, e)

rremove-end : (o : Option Bytes) (ns : RNodes) → rremove (rnode o ns) [] ≡ (rnode none ns, none)
unfolding rremove
rremove-end o ns = refl

rremove_level :
    (o : Option Bytes) (ns : RNodes) (l : Bytes) (rem : Option Bytes)
    → Plain l
    → rremove (rnode o ns) (glue l rem) ≡ with_rchildren o (rremove_nodes ns l (rest_of rem))
rremove_level o ns [] rem p = absurd p
rremove_level o ns (c ∷ l) none p =
    rremove-next o ns c l (c ∷ l) none (next_topic_level_lem (c ∷ l) none p)
rremove_level o ns (c ∷ l) (some r) p =
    rremove-next o ns c (l ++ (47 ∷ r)) (c ∷ l) (some r) (next_topic_level_lem (c ∷ l) (some r) p)

rremove_nodes-found :
    (k : Bytes) (n : RNode) (rest : RNodes) (topic : Bytes)
    → rremove_nodes (an_rnode k n rest) k topic ≡ keep_rchild k (rremove n topic) rest
unfolding rremove
rremove_nodes-found k n rest topic = rw (same_bytes_refl k) refl

-- With plain levels `k` and `l`, where the first child of the root is `k` and the only child of `k` is
-- a leaf `l`, `rremove` of `k/l` has no error and deletes `k` too, and with it the message that is
-- retained at `k`, if there is one.
pub rremove_parent :
    (k l : Bytes) (o parent : Option Bytes) (m : Bytes) (rest : RNodes)
    → Plain k
    → Plain l
    → rremove
        (rnode o (an_rnode k (rnode parent (an_rnode l (rnode (some m) no_rnodes) no_rnodes)) rest))
        (name (k ∷ l ∷ []) false)
      ≡ (rnode o rest, none)
rremove_parent k l o parent m rest p q =
    let leaf = an_rnode l (rnode (some m) no_rnodes) no_rnodes in
    rremove_level o (an_rnode k (rnode parent leaf) rest) k (some (glue l none)) p
    ∙ ap (with_rchildren o) (
        rremove_nodes-found k (rnode parent leaf) rest l
        ∙ ap (λ r. keep_rchild k r rest)
            (rremove_level parent leaf l none q
              ∙ ap (with_rchildren parent) (
                  rremove_nodes-found l (rnode (some m) no_rnodes) no_rnodes []
                  ∙ ap (λ r. keep_rchild l r no_rnodes) (rremove-end (some m) no_rnodes))))
