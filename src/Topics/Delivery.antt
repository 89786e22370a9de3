-- ===== src/Topics/Delivery.antt =====
-- Subscriptions and publications together: who is found after `Subscribe` and `Unsubscribe`.
use simq.Base.{
  ℕ, ◌≡◌, ◌≢◌, ap, ◌∙◌, Bool, true, false, not, List, [], ◌∷◌, ◌++◌, Option, none, some, length,
  get_or, ◌==◌, if◌then◌else◌, arith,
}
use mathlib.Core.List.Memᴰ.{Memᴰ}
use simq.Wire.Codes.{valid_qos}
use simq.Topics.{Bytes, Sub, SNode, Entry, smatch, remove_entry, bad_qos, no_topic}
use simq.Topics.Levels.{name, rest_name, glue, Plain, AllPlain}
use simq.Topics.Rule.{covers, lowered}
use simq.Topics.Match.{IsTree}
use simq.Topics.Changes.{subs_at, Changed}
use simq.Topics.Insert.{IsFilter, sinsert-smatch}
use simq.Topics.Remove.{sremove_lem}
use simq.Topics.Subscribe.{levels_le, subscribe-tree}
use simq.Topics.Dispatch.{
  to_tree, route, leave_route, granted_qos, subscribe, unsubscribe, unsubscribe_by, answer,
  subscribers, found, fails, found_or,
}

glue_dollar : (l : Bytes) (o : Option Bytes) → Plain l → (get_or (glue l o) 0 0 == 36) ≡ false
glue_dollar [] o p = absurd p
glue_dollar (c ∷ cs) none (p, _) = ground arith
glue_dollar (c ∷ cs) (some rem) (p, _) = ground arith

-- A name of plain levels is not one of the system's.
no_dollar :
    (l : Bytes) (ls : List Bytes) (slash : Bool)
    → Plain l
    → (get_or (name (l ∷ ls) slash) 0 0 == 36) ≡ false
no_dollar l ls slash p = glue_dollar l (rest_name ls slash) p

subscribers-tree :
    (n : SNode) (topic : Bytes) (qos : ℕ) (ys : List Entry)
    → valid_qos qos ≡ true
    → (get_or topic 0 0 == 36) ≡ false
    → smatch n topic qos ≡ some ys
    → subscribers n topic qos false [] false ≡ found ys
unfolding subscribers
subscribers-tree n topic qos ys q d e =
    ap
      (λ b.
        if not b
        then fails bad_qos
        else (if get_or topic 0 0 == 36
            then fails no_topic
            else found_or (smatch n topic qos) found))
      q
    ∙ ap (λ b. if b then fails no_topic else found_or (smatch n topic qos) found) d
    ∙ ap (λ o. found_or o found) e

-- In a tree where no two children have the same name, `Subscribe` of a filter that goes to the tree,
-- with a valid QoS, returns that QoS; then `Subscribers` of every name of plain levels that the filter
-- covers, with a valid QoS, finds the subscriber, with the options of the subscription but for the QoS,
-- which is the lesser of the two, and the topic, which is empty.
pub subscribe-subscribers :
    (root : SNode) (ks : List Bytes) (s : Sub) (sub : ℕ) (l : Bytes) (ls : List Bytes)
    (slash : Bool) (qos : ℕ)
    → IsTree root
    → IsFilter ks
    → s.topic ≡ name ks false
    → valid_qos s.qos ≡ true
    → route s.topic ≡ to_tree
    → AllPlain (l ∷ ls)
    → covers ks (l ∷ ls) slash ≡ true
    → valid_qos qos ≡ true
    → (n' : SNode) × (subscribe root s (some sub) ≡ (n', granted_qos s.qos))
      × IsTree n'
      × ((ys : List Entry) × (subscribers n' (name (l ∷ ls) slash) qos false [] false ≡ found ys)
          × Memᴰ (lowered qos (record { who = sub; options = record s { topic = [] } })) ys)
subscribe-subscribers root ks s sub l ls slash qos v f e q r p c q' =
    let (n', h, v', (ys, m, there)) =
      sinsert-smatch (length s.topic) root ks s sub l ls slash qos v
        (omega (arith, levels_le ks f, ap length e)) f e p c in
    (
      n',
      subscribe-tree root n' s sub q r h,
      v',
      (ys, subscribers-tree n' (name (l ∷ ls) slash) qos ys q' (no_dollar l ls slash p.0) m, there),
    )

-- None of the entries is the subscriber's.
abbrev pub Without : ℕ → List Entry → Type 0
Without sub [] = Unit {0}
Without sub (e ∷ es) = (e.who ≢ sub) × Without sub es

remove_entry_lem :
    (xs ys : List Entry) (e : Entry)
    → Without e.who xs
    → remove_entry (xs ++ (e ∷ ys)) e.who ≡ some (xs ++ ys)
unfolding remove_entry
remove_entry_lem [] ys e w = ground arith
remove_entry_lem (x ∷ xs) ys e w = ground (arith, w.0, remove_entry_lem xs ys e w.1)

-- In a tree where no two children have the same name, `Unsubscribe` of a filter that goes to the tree
-- takes the first entry of the subscriber off, leaves the entries before it and behind it in their
-- order, and changes nothing under any other filter.
pub unsubscribe-Changed :
    (root : SNode) (ks : List Bytes) (xs ys : List Entry) (e : Entry)
    → IsTree root
    → IsFilter ks
    → leave_route (name ks false) ≡ to_tree
    → subs_at root ks ≡ xs ++ (e ∷ ys)
    → Without e.who xs
    → (n' : SNode) × (unsubscribe root (name ks false) (some e.who) ≡ (n', granted_qos 0))
      × Changed root ks (xs ++ ys) n'
unfolding unsubscribe
unsubscribe-Changed root ks xs ys e v f r h w =
    let gone = ap (λ es. remove_entry es e.who) h ∙ remove_entry_lem xs ys e w in
    let (n', removed, c) = sremove_lem root ks e.who (xs ++ ys) v f gone in
    (
      n',
      ap (λ z. unsubscribe_by z root (name ks false) (some e.who)) r
          ∙ ap (λ z. (z.0, answer 0 z.1)) removed,
      c,
    )
