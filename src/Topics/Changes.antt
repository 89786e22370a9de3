-- ===== src/Topics/Changes.antt =====
-- The entries of the tree as a map from filters, and what a change at one filter does to it.
use simq.Base.{
  ◌≡◌, ◌≢◌, refl, sym, ap, ap₂, subst, ◌∙◌, true, false, ◌&&◌, List, [], ◌∷◌, none, some,
  if◌then◌else◌, arith, inl, inr, Bool-cases,
}
use simq.Topics.{
  Bytes, Entry, SNode, snode, SNodes, no_nodes, a_node, subs_of, snodes_of, same_bytes, is_empty,
  find_node, child_or_new, new_snode, no_children,
}
use simq.Topics.Match.{Fresh, IsTree, AreTrees}
use simq.Topics.Complete.{same_bytes_eq, same_bytes_refl}

-- The entries under a filter, in order.
unfoldable pub subs_at : SNode → List Bytes → List Entry
subs_at (snode es ns) [] = es
subs_at (snode es ns) (k ∷ p) = subs_at (child_or_new (find_node k ns)) p

abbrev pub subs_in : SNodes → Bytes → List Bytes → List Entry
subs_in ns k p = subs_at (child_or_new (find_node k ns)) p

-- The tree with `es` under the filter, and otherwise unchanged.
pub record Changed (n : SNode) (ls : List Bytes) (es : List Entry) (n' : SNode) : Type 0 where
  pub valid : IsTree n'
  pub there : subs_at n' ls ≡ es
  pub elsewhere : (p : List Bytes) → p ≢ ls → subs_at n' p ≡ subs_at n p

-- The same of the children of a node.
pub record ChangedIn (ns : SNodes) (l : Bytes) (ls : List Bytes) (es : List Entry) (ns' : SNodes)
    : Type 0 where
  pub valid : AreTrees ns'
  pub fresh : (k : Bytes) → Fresh k ns → Fresh k ns'
  pub there : subs_in ns' l ls ≡ es
  pub elsewhere :
      (k : Bytes) (p : List Bytes) → (k ∷ p) ≢ (l ∷ ls) → subs_in ns' k p ≡ subs_in ns k p

pub subs_at-new : (p : List Bytes) → subs_at new_snode p ≡ []
unfolding subs_at
subs_at-new [] = refl
subs_at-new (k ∷ p) = subs_at-new p

find_fresh : (k : Bytes) (ns : SNodes) → Fresh k ns → find_node k ns ≡ none
find_fresh k no_nodes f = refl
find_fresh k (a_node k' n rest) f = ground (arith, f.0, find_fresh k rest f.1)

subs_in-fresh : (k : Bytes) (ns : SNodes) (p : List Bytes) → Fresh k ns → subs_in ns k p ≡ []
subs_in-fresh k ns p f = ap (λ o. subs_at (child_or_new o) p) (find_fresh k ns f) ∙ subs_at-new p

pub subs_in-here :
    (k k₁ : Bytes) (n : SNode) (rest : SNodes) (p : List Bytes)
    → same_bytes k₁ k ≡ true
    → subs_in (a_node k₁ n rest) k p ≡ subs_at n p
subs_in-here k k₁ n rest p t =
    ap (λ b. subs_at (child_or_new (if b then some n else find_node k rest)) p) t

pub subs_in-later :
    (k k₁ : Bytes) (n : SNode) (rest : SNodes) (p : List Bytes)
    → same_bytes k₁ k ≡ false
    → subs_in (a_node k₁ n rest) k p ≡ subs_in rest k p
subs_in-later k k₁ n rest p f =
    ap (λ b. subs_at (child_or_new (if b then some n else find_node k rest)) p) f

-- An empty node has no entries at all.
subs_at-empty :
    (n : SNode) (p : List Bytes)
    → (is_empty (subs_of n) && no_children (snodes_of n)) ≡ true
    → subs_at n p ≡ []
subs_at-empty (snode [] no_nodes) p h = subs_at-new p
subs_at-empty (snode [] (a_node k n rest)) p h = cc
subs_at-empty (snode (e ∷ es) ns) p h = cc

-- The child of the filter's level, kept or deleted.
pub kept_lem :
    (k : Bytes) (n n' : SNode) (rest : SNodes) (ls : List Bytes) (es : List Entry)
    → AreTrees (a_node k n rest)
    → Changed n ls es n'
    → ChangedIn (a_node k n rest) k ls es (a_node k n' rest)
kept_lem k n n' rest ls es v c = record {
  valid = (v.0, c.valid, v.2);
  fresh = λ k' f. (f.0, f.1);
  there = subs_in-here k k n' rest ls (same_bytes_refl k) ∙ c.there;
  elsewhere = λ k' p ne. elim (Bool-cases (same_bytes k k')) [
    | inl t ↦
        subs_in-here k' k n' rest p t
        ∙ c.elsewhere p (λ e. ne (ap₂ ◌∷◌ (sym (same_bytes_eq k k' t)) e))
        ∙ sym (subs_in-here k' k n rest p t)
    | inr f ↦ subs_in-later k' k n' rest p f ∙ sym (subs_in-later k' k n rest p f)
  ];
}

pub deleted_lem :
    (k : Bytes) (n n' : SNode) (rest : SNodes) (ls : List Bytes) (es : List Entry)
    → AreTrees (a_node k n rest)
    → Changed n ls es n'
    → (is_empty (subs_of n') && no_children (snodes_of n')) ≡ true
    → ChangedIn (a_node k n rest) k ls es rest
deleted_lem k n n' rest ls es v c h = record {
  valid = v.2;
  fresh = λ k' f. f.1;
  there = subs_in-fresh k rest ls v.0 ∙ sym (subs_at-empty n' ls h) ∙ c.there;
  elsewhere = λ k' p ne. elim (Bool-cases (same_bytes k k')) [
    | inl t ↦
        let same = same_bytes_eq k k' t in
        subst (λ z. subs_in rest z p ≡ []) same (subs_in-fresh k rest p v.0)
        ∙ sym (subs_at-empty n' p h)
        ∙ c.elsewhere p (λ e. ne (ap₂ ◌∷◌ (sym same) e))
        ∙ sym (subs_in-here k' k n rest p t)
    | inr f ↦ sym (subs_in-later k' k n rest p f)
  ];
}

pub behind_lem :
    (k l : Bytes) (n : SNode) (rest rest' : SNodes) (ls : List Bytes) (es : List Entry)
    → AreTrees (a_node k n rest)
    → same_bytes k l ≡ false
    → ChangedIn rest l ls es rest'
    → ChangedIn (a_node k n rest) l ls es (a_node k n rest')
behind_lem k l n rest rest' ls es v f c = record {
  valid = (c.fresh k v.0, v.1, c.valid);
  fresh = λ k' f'. (f'.0, c.fresh k' f'.1);
  there = subs_in-later l k n rest' ls f ∙ c.there;
  elsewhere = λ k' p ne. elim (Bool-cases (same_bytes k k')) [
    | inl t ↦ subs_in-here k' k n rest' p t ∙ sym (subs_in-here k' k n rest p t)
    | inr g ↦
        subs_in-later k' k n rest' p g ∙ c.elsewhere k' p ne ∙ sym (subs_in-later k' k n rest p g)
  ];
}
