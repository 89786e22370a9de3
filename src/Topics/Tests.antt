-- ===== src/Topics/Tests.antt =====
-- The trees on concrete topics, and their theorems at concrete inputs.
use simq.Base.{ℕ, ◌≡◌, refl, true, false, List, [], ◌∷◌, none, some, arith, inl, inr}
use simq.Topics.{
  Bytes, Entry, Sub, SNode, snode, no_nodes, a_node, new_snode, mwc, swc, bad_level,
  next_topic_level, scan_level, sinsert, sremove, smatch, match_qos, remove_entry, remove_here,
}
use simq.Topics.Levels.{Plain}
use simq.Topics.Rule.{matches, covers}
use simq.Topics.Match.{IsTree}
use simq.Topics.Complete.{smatch_lem, FindsExactly}
use simq.Topics.Changes.{subs_at, Changed}
use simq.Topics.Dispatch.{
  subscribe, unsubscribe, subscribers, service_subscribers, starts, found, panics, leave_route,
  granted_qos, route, to_share, share_end,
}
use simq.Topics.Delivery.{subscribe-subscribers, unsubscribe-Changed}
use simq.Topics.Retained.{
  RNode, rnode, no_rnodes, an_rnode, rinsert, rremove, rmatch, copied, all_retained, rremove_parent,
}
use mathlib.Core.List.{Memᴰ}

-- The levels `a` and `b`.
abbrev a_level : Bytes
a_level = 97 ∷ []

abbrev b_level : Bytes
b_level = 98 ∷ []

a_level-Plain : Plain a_level
a_level-Plain = (omega arith, ((omega arith, omega arith, omega arith), tt))

b_level-Plain : Plain b_level
b_level-Plain = (omega arith, ((omega arith, omega arith, omega arith), tt))

abbrev options : Bytes → ℕ → Sub
options topic qos = record {
  topic = topic;
  qos = qos;
  no_local = false;
  retain_as_published = false;
  retain_handling = 0;
  sub_identifier = 0;
}

abbrev subscriber : ℕ → ℕ → Entry
subscriber who qos = record { who = who; options = options [] qos }

-- `a/#` of one subscriber, `+/b` of another.
abbrev two_filters : SNode
two_filters = snode [] (
    a_node a_level (snode [] (a_node mwc (snode (subscriber 1 2 ∷ []) no_nodes) no_nodes)) (
      a_node swc (snode [] (a_node b_level (snode (subscriber 2 0 ∷ []) no_nodes) no_nodes))
        no_nodes))

two_filters-IsTree : IsTree two_filters
two_filters-IsTree = ((refl, tt), (tt, tt, tt), (tt, (tt, tt, tt), tt))

two_filters-run :
    smatch two_filters (97 ∷ 47 ∷ 98 ∷ []) 1 ≡ some (subscriber 1 1 ∷ subscriber 2 0 ∷ [])
unfolding smatch next_topic_level scan_level match_qos
two_filters-run = refl

sremove-run : sremove two_filters (97 ∷ 47 ∷ 35 ∷ []) (some 1) ≡ (
  snode [] (
      a_node swc
        (snode [] (a_node b_level (snode (subscriber 2 0 ∷ []) no_nodes) no_nodes))
        no_nodes),
  none,
)
unfolding sremove next_topic_level scan_level remove_here remove_entry
sremove-run = refl

sinsert-leak :
    sinsert 9 new_snode (options (97 ∷ 47 ∷ 98 ∷ 35 ∷ []) 1) 1
    ≡ (snode [] (a_node a_level new_snode no_nodes), some bad_level)
unfolding sinsert next_topic_level scan_level
sinsert-leak = refl

next_topic_level-slash : next_topic_level (47 ∷ 97 ∷ []) ≡ some (swc, some a_level)
unfolding next_topic_level scan_level
next_topic_level-slash = refl

smatch_lem_example :
    (ys : List Entry) × (smatch two_filters (97 ∷ 47 ∷ 98 ∷ 47 ∷ []) 1 ≡ some ys)
    × FindsExactly two_filters (a_level ∷ b_level ∷ []) true 1 ys
smatch_lem_example =
    smatch_lem two_filters a_level (b_level ∷ []) true 1 two_filters-IsTree
      (a_level-Plain, (b_level-Plain, tt))

subscribe-subscribers_example :
    (n' : SNode) × (subscribe two_filters (options (97 ∷ 47 ∷ 43 ∷ []) 1) (some 3)
      ≡ (n', granted_qos 1))
    × IsTree n'
    × ((ys : List Entry) × (subscribers n' (97 ∷ 47 ∷ 98 ∷ []) 2 false [] false ≡ found ys)
        × Memᴰ (subscriber 3 1) ys)
subscribe-subscribers_example =
    subscribe-subscribers two_filters (a_level ∷ swc ∷ []) (options (97 ∷ 47 ∷ 43 ∷ []) 1) 3 a_level
      (b_level ∷ []) false 2 two_filters-IsTree (inl (inl a_level-Plain, inl (inr refl, tt))) refl
      refl (unfold route in refl) (a_level-Plain, (b_level-Plain, tt))
      (unfold covers matches in refl) refl

abbrev parent_and_child : RNode
parent_and_child = rnode none (
    an_rnode a_level
      (rnode (some (1 ∷ [])) (an_rnode b_level (rnode (some (2 ∷ [])) no_rnodes) no_rnodes))
      no_rnodes)

rinsert-run :
    rinsert 2
      (rinsert 1 (rnode none no_rnodes) a_level (copied (1 ∷ []))).0
      (97 ∷ 47 ∷ 98 ∷ [])
      (copied (2 ∷ []))
    ≡ (parent_and_child, none)
unfolding rinsert next_topic_level scan_level
rinsert-run = refl

rmatch-run : rmatch parent_and_child (97 ∷ 47 ∷ 35 ∷ []) ≡ some ((1 ∷ []) ∷ (2 ∷ []) ∷ [])
unfolding rmatch next_topic_level scan_level all_retained
rmatch-run = refl

rremove_parent_example : rremove parent_and_child (97 ∷ 47 ∷ 98 ∷ []) ≡ (rnode none no_rnodes, none)
rremove_parent_example =
    rremove_parent a_level b_level none (some (1 ∷ [])) (2 ∷ []) no_rnodes a_level-Plain
      b_level-Plain

-- Three entries under `a`, of which the second goes.
abbrev three_entries : SNode
three_entries = snode [] (
    a_node a_level (snode (subscriber 1 2 ∷ subscriber 2 0 ∷ subscriber 3 1 ∷ []) no_nodes)
      no_nodes)

unsubscribe-Changed_example :
    (n' : SNode) × (unsubscribe three_entries a_level (some 2) ≡ (n', granted_qos 0))
    × Changed three_entries (a_level ∷ []) (subscriber 1 2 ∷ subscriber 3 1 ∷ []) n'
unsubscribe-Changed_example =
    unsubscribe-Changed three_entries (a_level ∷ []) (subscriber 1 2 ∷ []) (subscriber 3 1 ∷ [])
      (subscriber 2 0) (tt, tt, tt) (inl (inl a_level-Plain, tt)) (unfold leave_route in refl)
      (unfold subs_at in refl) ((λ h. omega (arith, h)), tt)

-- `a/` goes to `a`, and not to `a/+/#`.
smatch-slash :
    smatch
      (snode [] (
        a_node a_level
          (snode (subscriber 3 1 ∷ []) (
            a_node swc
              (snode [] (a_node mwc (snode (subscriber 1 2 ∷ []) no_nodes) no_nodes))
              no_nodes))
          no_nodes))
      (97 ∷ 47 ∷ [])
      2
    ≡ some (subscriber 3 1 ∷ [])
unfolding smatch next_topic_level scan_level match_qos
smatch-slash = refl

-- A message of the system's own to `$sys`, without a separator.
subscribers-short : subscribers two_filters (36 ∷ 115 ∷ 121 ∷ 115 ∷ []) 0 true [] false ≡ panics
unfolding subscribers service_subscribers starts
subscribers-short = refl

route-run :
    route (36 ∷ 115 ∷ 104 ∷ 97 ∷ 114 ∷ 101 ∷ 47 ∷ 103 ∷ 47 ∷ 97 ∷ []) ≡ to_share (103 ∷ []) a_level
unfolding route share_end
route-run = refl
