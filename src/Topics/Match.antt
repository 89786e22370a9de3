-- ===== src/Topics/Match.antt =====
-- `smatch` against the MQTT rule for filters: which entries of the tree it finds.
use simq.Base.{
  ℕ, ◌≡◌, refl, sym, ap, ap₂, subst, ◌∙◌, Bool, true, false, ◌&&◌, ◌||◌, List, [], ◌∷◌, ◌++◌,
  Option, none, some, if◌then◌else◌, arith, ◌⊎◌, append-nil,
}
use simq.Topics.{
  Bytes, Entry, SNode, snode, SNodes, no_nodes, a_node, subs_of, snodes_of, mwc, swc, same_bytes,
  is_empty, smatch, smatch_nodes, match_qos, match_child, append_matches, next_topic_level,
}
use simq.Topics.Levels.{rest_name, glue, AllPlain, Plain, next_topic_level_lem}
use mathlib.Core.List.{Memᴰ}

-- Whether the loops of `smatch` get from the top of the tree to a filter, on the levels of a name that
-- may end with a separator; `Complete` says that these are the filters that cover the name.
unfoldable pub visits : List Bytes → List Bytes → Bool → Bool
visits [] [] slash = true
visits [] (l ∷ ls) slash = false
visits (k ∷ p) [] slash = is_empty p && (same_bytes k mwc || (same_bytes k swc && slash))
visits (k ∷ p) (l ∷ ls) slash =
    let rest = visits p ls slash in
    if same_bytes k mwc then is_empty p else (same_bytes k swc || same_bytes k l) && rest

-- The tree has the entry under the filter.
abbrev mutual
  pub Holds : List Bytes → Entry → SNode → Type 0
  Holds [] x (snode es ns) = Memᴰ x es
  Holds (k ∷ p) x (snode es ns) = HoldsIn k p x ns

  pub HoldsIn : Bytes → List Bytes → Entry → SNodes → Type 0
  HoldsIn k p x no_nodes = ⊥
  HoldsIn k p x (a_node k' n rest) = ((k ≡ k') × Holds p x n) ⊎ HoldsIn k p x rest

-- No two children of a node have the same name.
abbrev pub Fresh : Bytes → SNodes → Type 0
Fresh k no_nodes = Unit {0}
Fresh k (a_node k' n rest) = (same_bytes k' k ≡ false) × Fresh k rest

abbrev mutual
  pub IsTree : SNode → Type 0
  IsTree (snode es ns) = AreTrees ns

  pub AreTrees : SNodes → Type 0
  AreTrees no_nodes = Unit {0}
  AreTrees (a_node k n rest) = Fresh k rest × IsTree n × AreTrees rest

-- What the loops of `smatch` come to, on the levels of a name.
unfoldable mutual
  pub found : SNode → List Bytes → Bool → ℕ → List Entry
  found (snode es ns) [] slash qos =
      match_qos qos es ++ (match_child qos mwc ns ++ (if slash then match_child qos swc ns else []))
  found (snode es ns) (l ∷ ls) slash qos = found_nodes ns l ls slash qos

  pub found_nodes : SNodes → Bytes → List Bytes → Bool → ℕ → List Entry
  found_nodes no_nodes l ls slash qos = []
  found_nodes (a_node k n rest) l ls slash qos =
      let below = found n ls slash qos in
      let more = found_nodes rest l ls slash qos in
      if same_bytes k mwc
      then match_qos qos (subs_of n) ++ more
      else (if same_bytes k swc || same_bytes k l then below ++ more else more)

-- The body of the loop of `smatch`.
abbrev pub smatch_node : SNode → Option Bytes → ℕ → Option (List Entry)
smatch_node n none qos = some (match_qos qos (subs_of n) ++ match_child qos mwc (snodes_of n))
smatch_node n (some r) qos = smatch n r qos

glue-cons : (l : Bytes) (o : Option Bytes) → Plain l → (c : ℕ) × (t : Bytes) × (glue l o ≡ c ∷ t)
glue-cons [] o p = absurd p
glue-cons (c ∷ l) none p = (c, l, refl)
glue-cons (c ∷ l) (some r) p = (c, l ++ (47 ∷ r), refl)

smatch-next :
    (es : List Entry) (ns : SNodes) (topic l : Bytes) (o : Option Bytes) (qos : ℕ) (c : ℕ)
    (t : Bytes)
    → topic ≡ c ∷ t
    → next_topic_level topic ≡ some (l, o)
    → smatch (snode es ns) topic qos ≡ smatch_nodes ns l o qos
unfolding smatch
smatch-next es ns topic l o qos c t e h =
    subst
      (λ tp.
        next_topic_level tp ≡ some (l, o) → smatch (snode es ns) tp qos ≡ smatch_nodes ns l o qos)
      (sym e) (λ h'. ground (arith, h')) h

-- A child that the loop has gone through, and the ones behind it.
abbrev with_child : SNode → Bytes → Bytes → ℕ → List Entry → List Entry → List Entry
with_child n k l qos xs ys =
    if same_bytes k mwc
    then match_qos qos (subs_of n) ++ ys
    else (if same_bytes k swc || same_bytes k l then xs ++ ys else ys)

choose :
    (b c : Bool) (zs : List Entry) {below more : Option (List Entry)} {xs ys : List Entry}
    → below ≡ some xs
    → more ≡ some ys
    → (if b then append_matches (some zs) more else (if c then append_matches below more else more))
      ≡ some (if b then zs ++ ys else (if c then xs ++ ys else ys))
choose true c zs a b = ap (append_matches (some zs)) b
choose false true zs a b = ap₂ append_matches a b
choose false false zs a b = b

smatch_nodes-cons :
    (k : Bytes) (n : SNode) (rest : SNodes) (l : Bytes) (o : Option Bytes) (qos : ℕ)
    (xs ys : List Entry)
    → smatch_node n o qos ≡ some xs
    → smatch_nodes rest l o qos ≡ some ys
    → smatch_nodes (a_node k n rest) l o qos ≡ some (with_child n k l qos xs ys)
unfolding smatch_nodes
smatch_nodes-cons k n rest l none qos xs ys a b =
    choose (same_bytes k mwc) (same_bytes k swc || same_bytes k l) (match_qos qos (subs_of n)) a b
smatch_nodes-cons k n rest l (some r) qos xs ys a b =
    choose (same_bytes k mwc) (same_bytes k swc || same_bytes k l) (match_qos qos (subs_of n)) a b

mutual
  unfolding smatch found

  pub smatch_node-found :
      (n : SNode) (ls : List Bytes) (slash : Bool) (qos : ℕ)
      → AllPlain ls
      → smatch_node n (rest_name ls slash) qos ≡ some (found n ls slash qos)
  smatch_node-found (snode es ns) [] false qos p =
      ap (λ xs. some (match_qos qos es ++ xs)) (sym (append-nil (match_child qos mwc ns)))
  smatch_node-found (snode es ns) [] true qos p = refl
  smatch_node-found (snode es ns) (l ∷ ls) slash qos p =
      let (c, t, e) = glue-cons l (rest_name ls slash) p.0 in
      smatch-next es ns (glue l (rest_name ls slash)) l (rest_name ls slash) qos c t e
        (next_topic_level_lem l (rest_name ls slash) p.0)
      ∙ smatch_nodes-found ns l ls slash qos p.1

  smatch_nodes-found :
      (ns : SNodes) (l : Bytes) (ls : List Bytes) (slash : Bool) (qos : ℕ)
      → AllPlain ls
      → smatch_nodes ns l (rest_name ls slash) qos ≡ some (found_nodes ns l ls slash qos)
  smatch_nodes-found no_nodes l ls slash qos p = refl
  smatch_nodes-found (a_node k n rest) l ls slash qos p =
      smatch_nodes-cons k n rest l (rest_name ls slash) qos (found n ls slash qos)
        (found_nodes rest l ls slash qos) (smatch_node-found n ls slash qos p)
        (smatch_nodes-found rest l ls slash qos p)
