-- ===== src/Topics/Insert.antt =====
-- `sinsert` on a filter: the tree stays one, has the entry, and `smatch` finds it.
use simq.Base.{
  ℕ, zero, suc, ◌≡◌, ◌≤◌, refl, sym, ap, subst, ◌∙◌, Bool, true, false, List, [], ◌∷◌, length,
  Option, none, some, ◌==◌, if◌then◌else◌, arith, ◌⊎◌, inl, inr, Bool-cases,
}
use simq.Topics.{
  Bytes, Entry, Sub, SNode, snode, SNodes, no_nodes, a_node, mwc, swc, same_bytes, is_empty,
  next_topic_level, find_node, put_node, child_or_new, insert_entry, sinsert, rest_of, smatch,
  scan_level,
}
use simq.Topics.Levels.{name, rest_name, glue, Plain, AllPlain, next_topic_level_lem}
use simq.Topics.Rule.{covers, lowered}
use simq.Topics.Match.{Holds, HoldsIn, Fresh, IsTree, AreTrees}
use simq.Topics.Complete.{same_bytes_eq, smatch_lem}
use mathlib.Core.List.{Memᴰ}

-- The levels of a filter: names and `+`, and `#` as the last.
abbrev pub IsFilter : List Bytes → Type 0
IsFilter [] = Unit {0}
IsFilter (l ∷ ls) = ((Plain l ⊎ (l ≡ swc)) × IsFilter ls) ⊎ ((l ≡ mwc) × (ls ≡ []))

-- The tree with the entry under the filter.
unfoldable pub insert_at : SNode → List Bytes → Sub → ℕ → SNode
insert_at (snode es ns) [] s sub = snode (insert_entry es s sub) ns
insert_at (snode es ns) (l ∷ ls) s sub =
    snode es (put_node l (insert_at (child_or_new (find_node l ns)) ls s sub) ns)

next-plus : (o : Option Bytes) → next_topic_level (glue swc o) ≡ some (swc, o)
unfolding next_topic_level scan_level
next-plus none = refl
next-plus (some r) = refl

next-hash : next_topic_level mwc ≡ some (mwc, none)
unfolding next_topic_level scan_level
next-hash = refl

-- `nextTopicLevel` takes the levels of a filter apart.
pub next_filter :
    (l : Bytes) (ls : List Bytes)
    → IsFilter (l ∷ ls)
    → next_topic_level (glue l (rest_name ls false)) ≡ some (l, rest_name ls false)
next_filter l ls (inl (inl p, f)) = next_topic_level_lem l (rest_name ls false) p
next_filter l ls (inl (inr e, f)) =
    subst (λ k. next_topic_level (glue k (rest_name ls false)) ≡ some (k, rest_name ls false))
      (sym e) (next-plus (rest_name ls false))
next_filter l ls (inr (e, n)) =
    subst (λ k. next_topic_level (glue k (rest_name ls false)) ≡ some (k, rest_name ls false))
      (sym e)
      (subst
        (λ zs. next_topic_level (glue mwc (rest_name zs false)) ≡ some (mwc, rest_name zs false))
        (sym n) next-hash)

pub IsFilter-tail : (l : Bytes) (ls : List Bytes) → IsFilter (l ∷ ls) → IsFilter ls
IsFilter-tail l ls (inl (h, f)) = f
IsFilter-tail l ls (inr (h, n)) = subst IsFilter (sym n) tt

pub glue-some :
    (l : Bytes) (ls : List Bytes)
    → IsFilter (l ∷ ls)
    → is_empty (glue l (rest_name ls false)) ≡ false
glue-some [] ls (inl (inl p, f)) = absurd p
glue-some [] ls (inl (inr e, f)) = absurd (cc e)
glue-some [] ls (inr (e, n)) = absurd (cc e)
glue-some (x ∷ l) ls f = longer (rest_name ls false)
  where
    longer : (o : Option Bytes) → is_empty (glue (x ∷ l) o) ≡ false
    longer none = refl
    longer (some rem) = refl

sinsert-next :
    (fuel : ℕ) (es : List Entry) (ns : SNodes) (s : Sub) (sub : ℕ) (l : Bytes) (o : Option Bytes)
    (n : SNode)
    → is_empty s.topic ≡ false
    → next_topic_level s.topic ≡ some (l, o)
    → sinsert fuel (child_or_new (find_node l ns)) (record s { topic = rest_of o }) sub ≡ (n, none)
    → sinsert (suc fuel) (snode es ns) s sub ≡ (snode es (put_node l n ns), none)
unfolding sinsert
sinsert-next fuel es ns s sub l o n e h below = ground (arith, e, h, below)

-- Enough fuel: a round for each level.
pub sinsert_lem :
    (fuel : ℕ) (n : SNode) (ls : List Bytes) (s : Sub) (sub : ℕ)
    → length ls ≤ fuel
    → IsFilter ls
    → s.topic ≡ name ls false
    → sinsert fuel n s sub ≡ (insert_at n ls (record s { topic = [] }) sub, none)
unfolding insert_at sinsert
sinsert_lem zero (snode es ns) [] s sub h f e =
    ap (λ t. sinsert zero (snode es ns) (record s { topic = t }) sub) e
sinsert_lem (suc fuel) (snode es ns) [] s sub h f e =
    ap (λ t. sinsert (suc fuel) (snode es ns) (record s { topic = t }) sub) e
sinsert_lem zero n (l ∷ ls) s sub h f e = absurd (omega (arith, h))
sinsert_lem (suc fuel) (snode es ns) (l ∷ ls) s sub h f e =
    sinsert-next fuel es ns s sub l (rest_name ls false)
      (insert_at (child_or_new (find_node l ns)) ls (record s { topic = [] }) sub)
      (ap is_empty e ∙ glue-some l ls f) (ap next_topic_level e ∙ next_filter l ls f)
      (sinsert_lem fuel (child_or_new (find_node l ns)) ls (record s { topic = name ls false }) sub
        (omega (arith, h)) (IsFilter-tail l ls f) refl)

insert_entry-Memᴰ :
    (es : List Entry) (s : Sub) (sub : ℕ)
    → Memᴰ (record { who = sub; options = s }) (insert_entry es s sub)
unfolding insert_entry
insert_entry-Memᴰ [] s sub = Memᴰ.head refl
insert_entry-Memᴰ (e ∷ es) s sub = elim (Bool-cases (e.who == sub)) [
  | inl t ↦
      let same : sub ≡ e.who = ground (arith, t) in
      subst
        (λ b.
          Memᴰ (record { who = sub; options = s })
            (if b then record e { options = s } ∷ es else e ∷ insert_entry es s sub))
        (sym t) (Memᴰ.head (λ i. record { who = same i; options = s }))
  | inr f ↦
      subst
        (λ b.
          Memᴰ (record { who = sub; options = s })
            (if b then record e { options = s } ∷ es else e ∷ insert_entry es s sub))
        (sym f) (Memᴰ.tail (insert_entry-Memᴰ es s sub))
]

with_choice :
    {b : Bool} (x y : SNodes) (P : SNodes → Type 0) → b ≡ true → P x → P (if b then x else y)
with_choice {b} x y P e h = subst (λ c. P (if c then x else y)) (sym e) h

without_choice :
    {b : Bool} (x y : SNodes) (P : SNodes → Type 0) → b ≡ false → P y → P (if b then x else y)
without_choice {b} x y P e h = subst (λ c. P (if c then x else y)) (sym e) h

pub same_bytes-flip : (a b : Bytes) → same_bytes a b ≡ false → same_bytes b a ≡ false
same_bytes-flip [] [] h = h
same_bytes-flip [] (y ∷ b) h = refl
same_bytes-flip (x ∷ a) [] h = refl
same_bytes-flip (x ∷ a) (y ∷ b) h = ground (arith, h, same_bytes-flip a b)

HoldsIn-put :
    (l : Bytes) (n : SNode) (ns : SNodes) (p : List Bytes) (x : Entry)
    → Holds p x n
    → HoldsIn l p x (put_node l n ns)
HoldsIn-put l n no_nodes p x h = inl (refl, h)
HoldsIn-put l n (a_node k n' rest) p x h = elim (Bool-cases (same_bytes k l)) [
  | inl t ↦
      with_choice (a_node k n rest) (a_node k n' (put_node l n rest)) (λ z. HoldsIn l p x z) t
        (inl (sym (same_bytes_eq k l t), h))
  | inr f ↦
      without_choice (a_node k n rest) (a_node k n' (put_node l n rest)) (λ z. HoldsIn l p x z) f
        (inr (HoldsIn-put l n rest p x h))
]

-- The new entry stands under its filter.
insert_at-Holds :
    (n : SNode) (ls : List Bytes) (s : Sub) (sub : ℕ)
    → Holds ls (record { who = sub; options = s }) (insert_at n ls s sub)
unfolding insert_at
insert_at-Holds (snode es ns) [] s sub = insert_entry-Memᴰ es s sub
insert_at-Holds (snode es ns) (l ∷ ls) s sub =
    HoldsIn-put l (insert_at (child_or_new (find_node l ns)) ls s sub) ns ls
      (record { who = sub; options = s }) (insert_at-Holds (child_or_new (find_node l ns)) ls s sub)

Fresh-put :
    (k l : Bytes) (n : SNode) (ns : SNodes)
    → same_bytes l k ≡ false
    → Fresh k ns
    → Fresh k (put_node l n ns)
Fresh-put k l n no_nodes d f = (d, tt)
Fresh-put k l n (a_node k' n' rest) d f = elim (Bool-cases (same_bytes k' l)) [
  | inl t ↦ with_choice (a_node k' n rest) (a_node k' n' (put_node l n rest)) (Fresh k) t f
  | inr t ↦
      without_choice (a_node k' n rest) (a_node k' n' (put_node l n rest)) (Fresh k) t
        (f.0, Fresh-put k l n rest d f.1)
]

AreTrees-put :
    (l : Bytes) (n : SNode) (ns : SNodes) → IsTree n → AreTrees ns → AreTrees (put_node l n ns)
AreTrees-put l n no_nodes v vs = (tt, v, tt)
AreTrees-put l n (a_node k n' rest) v vs = elim (Bool-cases (same_bytes k l)) [
  | inl t ↦
      with_choice (a_node k n rest) (a_node k n' (put_node l n rest)) AreTrees t (vs.0, v, vs.2)
  | inr f ↦
      without_choice (a_node k n rest) (a_node k n' (put_node l n rest)) AreTrees f
        (Fresh-put k l n rest (same_bytes-flip k l f) vs.0, vs.1, AreTrees-put l n rest v vs.2)
]

IsTree-find : (l : Bytes) (ns : SNodes) → AreTrees ns → IsTree (child_or_new (find_node l ns))
IsTree-find l no_nodes v = tt
IsTree-find l (a_node k n rest) v = elim (Bool-cases (same_bytes k l)) [
  | inl t ↦ subst (λ b. IsTree (child_or_new (if b then some n else find_node l rest))) (sym t) v.1
  | inr f ↦
      subst (λ b. IsTree (child_or_new (if b then some n else find_node l rest))) (sym f)
        (IsTree-find l rest v.2)
]

pub insert_at-IsTree :
    (n : SNode) (ls : List Bytes) (s : Sub) (sub : ℕ) → IsTree n → IsTree (insert_at n ls s sub)
unfolding insert_at
insert_at-IsTree (snode es ns) [] s sub v = v
insert_at-IsTree (snode es ns) (l ∷ ls) s sub v =
    AreTrees-put l (insert_at (child_or_new (find_node l ns)) ls s sub) ns
      (insert_at-IsTree (child_or_new (find_node l ns)) ls s sub (IsTree-find l ns v)) v

-- In a tree where no two children have the same name, `sinsert` of a filter, with a round for each
-- level, has no error and leaves such a tree, in which `smatch` on a name of plain levels that the
-- filter covers finds the subscriber, with the options of the subscription but for the QoS, which is
-- the lesser, and the topic, which is empty.
pub sinsert-smatch :
    (fuel : ℕ) (n : SNode) (ks : List Bytes) (s : Sub) (sub : ℕ) (l : Bytes) (ls : List Bytes)
    (slash : Bool) (qos : ℕ)
    → IsTree n
    → length ks ≤ fuel
    → IsFilter ks
    → s.topic ≡ name ks false
    → AllPlain (l ∷ ls)
    → covers ks (l ∷ ls) slash ≡ true
    → (n' : SNode) × (sinsert fuel n s sub ≡ (n', none))
      × IsTree n'
      × ((ys : List Entry) × (smatch n' (name (l ∷ ls) slash) qos ≡ some ys)
          × Memᴰ (lowered qos (record { who = sub; options = record s { topic = [] } })) ys)
sinsert-smatch fuel n ks s sub l ls slash qos v h f e p c =
    let n' = insert_at n ks (record s { topic = [] }) sub in
    let v' = insert_at-IsTree n ks (record s { topic = [] }) sub v in
    let (ys, e', (_, complete)) = smatch_lem n' l ls slash qos v' p in
    (
      n',
      sinsert_lem fuel n ks s sub h f e,
      v',
      (ys, e', complete ks _ c (insert_at-Holds n ks (record s { topic = [] }) sub)),
    )
