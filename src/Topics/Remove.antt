-- ===== src/Topics/Remove.antt =====
-- `sremove` of a subscriber under a filter: its entry goes, and nothing else changes.
use simq.Base.{
  ℕ, ◌≡◌, ◌≢◌, refl, sym, ap, subst, ◌∙◌, true, false, ◌&&◌, List, [], ◌∷◌, Option, none, some,
  if◌then◌else◌, arith, inl, inr, Bool-cases,
}
use simq.Topics.{
  Bytes, Entry, SNode, snode, SNodes, no_nodes, a_node, subs_of, snodes_of, same_bytes, is_empty,
  next_topic_level, new_snode, no_children, keep_child, behind_child, with_children, remove_entry,
  remove_here, sremove, sremove_nodes, rest_of, TopicError,
}
use simq.Topics.Levels.{name, rest_name, glue}
use simq.Topics.Changes.{
  subs_at, subs_in, Changed, ChangedIn, subs_at-new, subs_in-here, subs_in-later, kept_lem,
  deleted_lem, behind_lem,
}
use simq.Topics.Match.{IsTree, AreTrees}
use simq.Topics.Complete.{same_bytes_eq}
use simq.Topics.Insert.{IsFilter, next_filter, IsFilter-tail, glue-some}

-- The call returns without an error, and leaves the tree so.
abbrev pub Removes : SNode → List Bytes → List Entry → SNode × Option TopicError → Type 0
Removes n ls es r = (n' : SNode) × (r ≡ (n', none)) × Changed n ls es n'

abbrev RemovesIn : SNodes → Bytes → List Bytes → List Entry → SNodes × Option TopicError → Type 0
RemovesIn ns l ls es r = (ns' : SNodes) × (r ≡ (ns', none)) × ChangedIn ns l ls es ns'

sremove-next :
    (es : List Entry) (ns : SNodes) (topic l : Bytes) (o : Option Bytes) (sub : Option ℕ)
    → is_empty topic ≡ false
    → next_topic_level topic ≡ some (l, o)
    → sremove (snode es ns) topic sub ≡ with_children es (sremove_nodes ns l (rest_of o) sub)
unfolding sremove
sremove-next es ns [] l o sub e h = cc
sremove-next es ns (c ∷ t) l o sub e h = ground (arith, h)

sremove_nodes-here :
    (k l : Bytes) (n : SNode) (rest : SNodes) (topic : Bytes) (sub : Option ℕ)
    → same_bytes k l ≡ true
    → sremove_nodes (a_node k n rest) l topic sub ≡ keep_child k (sremove n topic sub) rest
unfolding sremove
sremove_nodes-here k l n rest topic sub t = rw t refl

sremove_nodes-later :
    (k l : Bytes) (n : SNode) (rest : SNodes) (topic : Bytes) (sub : Option ℕ)
    → same_bytes k l ≡ false
    → sremove_nodes (a_node k n rest) l topic sub
      ≡ behind_child k n (sremove_nodes rest l topic sub)
unfolding sremove
sremove_nodes-later k l n rest topic sub f = rw f refl

remove_end :
    (es es' : List Entry) (ns : SNodes) (sub : ℕ)
    → AreTrees ns
    → remove_entry es sub ≡ some es'
    → Removes (snode es ns) [] es' (sremove (snode es ns) [] (some sub))
unfolding sremove remove_here subs_at
remove_end es es' ns sub v h = (
  snode es' ns,
  rw h refl,
  record { valid = v; there = refl; elsewhere = λ p ne. unchanged p ne },
)
  where
    unchanged : (p : List Bytes) → p ≢ [] → subs_at (snode es' ns) p ≡ subs_at (snode es ns) p
    unchanged [] ne = absurd (ne refl)
    unchanged (k ∷ p) ne = refl

remove_below :
    (es es' : List Entry) (ns : SNodes) (l : Bytes) (ls : List Bytes)
    (r : SNodes × Option TopicError)
    → RemovesIn ns l ls es' r
    → Removes (snode es ns) (l ∷ ls) es' (with_children es r)
unfolding subs_at
remove_below es es' ns l ls r (ns', e, c) = (
  snode es ns',
  ap (with_children es) e,
  record { valid = c.valid; there = c.there; elsewhere = λ p ne. unchanged p ne },
)
  where
    unchanged : (p : List Bytes) → p ≢ (l ∷ ls) → subs_at (snode es ns') p ≡ subs_at (snode es ns) p
    unchanged [] ne = refl
    unchanged (k ∷ p) ne = c.elsewhere k p ne

remove_child :
    (k l : Bytes) (n : SNode) (rest : SNodes) (ls : List Bytes) (es : List Entry)
    (r : SNode × Option TopicError)
    → AreTrees (a_node k n rest)
    → same_bytes k l ≡ true
    → Removes n ls es r
    → RemovesIn (a_node k n rest) l ls es (keep_child k r rest)
remove_child k l n rest ls es r v t (n', e, c) =
    subst (λ z. RemovesIn (a_node k n rest) z ls es (keep_child k r rest)) (same_bytes_eq k l t)
      (elim (Bool-cases (is_empty (subs_of n') && no_children (snodes_of n'))) [
        | inl h ↦ (
          rest,
          ap (λ z. keep_child k z rest) e
              ∙ ap (λ b. (if b then (rest, none) else (a_node k n' rest, none))) h,
          deleted_lem k n n' rest ls es v c h,
        )
        | inr h ↦ (
          a_node k n' rest,
          ap (λ z. keep_child k z rest) e
              ∙ ap (λ b. (if b then (rest, none) else (a_node k n' rest, none))) h,
          kept_lem k n n' rest ls es v c,
        )
      ])

remove_behind :
    (k l : Bytes) (n : SNode) (rest : SNodes) (ls : List Bytes) (es : List Entry)
    (r : SNodes × Option TopicError)
    → AreTrees (a_node k n rest)
    → same_bytes k l ≡ false
    → RemovesIn rest l ls es r
    → RemovesIn (a_node k n rest) l ls es (behind_child k n r)
remove_behind k l n rest ls es r v f (rest', e, c) =
    (a_node k n rest', ap (behind_child k n) e, behind_lem k l n rest rest' ls es v f c)

not_in_new :
    (ls : List Bytes) (sub : ℕ) (es : List Entry)
    → remove_entry (subs_at new_snode ls) sub ≡ some es
    → ⊥
unfolding remove_entry
not_in_new ls sub es h = cc (ap (λ xs. remove_entry xs sub) (subs_at-new ls))

mutual
  unfolding subs_at

  remove_in_node :
      (n : SNode) (ls : List Bytes) (sub : ℕ) (es : List Entry)
      → IsTree n
      → IsFilter ls
      → remove_entry (subs_at n ls) sub ≡ some es
      → Removes n ls es (sremove n (name ls false) (some sub))
  remove_in_node (snode es₀ ns) [] sub es v f h = remove_end es₀ es ns sub v h
  remove_in_node (snode es₀ ns) (l ∷ ls) sub es v f h =
      subst (Removes (snode es₀ ns) (l ∷ ls) es)
        (sym (
          sremove-next es₀ ns (glue l (rest_name ls false)) l (rest_name ls false) (some sub)
            (glue-some l ls f) (next_filter l ls f)))
        (remove_below es₀ es ns l ls (sremove_nodes ns l (name ls false) (some sub))
          (remove_in_nodes ns l ls sub es v (IsFilter-tail l ls f) h))

  remove_in_nodes :
      (ns : SNodes) (l : Bytes) (ls : List Bytes) (sub : ℕ) (es : List Entry)
      → AreTrees ns
      → IsFilter ls
      → remove_entry (subs_in ns l ls) sub ≡ some es
      → RemovesIn ns l ls es (sremove_nodes ns l (name ls false) (some sub))
  remove_in_nodes no_nodes l ls sub es v f h = absurd (not_in_new ls sub es h)
  remove_in_nodes (a_node k n rest) l ls sub es v f h = elim (Bool-cases (same_bytes k l)) [
    | inl t ↦
        subst (RemovesIn (a_node k n rest) l ls es)
          (sym (sremove_nodes-here k l n rest (name ls false) (some sub) t))
          (remove_child k l n rest ls es (sremove n (name ls false) (some sub)) v t (
            remove_in_node n ls sub es v.1 f
              (ap (λ xs. remove_entry xs sub) (sym (subs_in-here l k n rest ls t)) ∙ h)))
    | inr g ↦
        subst (RemovesIn (a_node k n rest) l ls es)
          (sym (sremove_nodes-later k l n rest (name ls false) (some sub) g))
          (remove_behind k l n rest ls es (sremove_nodes rest l (name ls false) (some sub)) v g (
            remove_in_nodes rest l ls sub es v.2 f
              (ap (λ xs. remove_entry xs sub) (sym (subs_in-later l k n rest ls g)) ∙ h)))
  ]

-- In a tree where no two children have the same name, `sremove` of a subscriber that has an entry
-- under the filter has no error; its first entry there goes, nothing changes under any other
-- filter, and still no two children have the same name.
pub sremove_lem :
    (n : SNode) (ls : List Bytes) (sub : ℕ) (es : List Entry)
    → IsTree n
    → IsFilter ls
    → remove_entry (subs_at n ls) sub ≡ some es
    → Removes n ls es (sremove n (name ls false) (some sub))
sremove_lem = remove_in_node
