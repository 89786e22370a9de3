-- ===== src/Topics/Complete.antt =====
-- `smatch` finds every entry under a filter that covers the name.
use simq.Base.{
  ℕ, ◌≡◌, refl, sym, ap, ap₂, subst, ◌∙◌, Bool, true, false, ◌||◌, List, [], ◌∷◌, ◌++◌, some,
  if◌then◌else◌, arith, ◌⊎◌, inl, inr, Bool-cases,
}
use simq.Topics.{
  Bytes, Entry, SNode, snode, SNodes, no_nodes, a_node, subs_of, mwc, swc, same_bytes, smatch,
  match_qos, match_child,
}
use simq.Topics.Levels.{name, AllPlain}
use simq.Topics.Rule.{covers, lowered}
use simq.Topics.Covers.{covers-visits}
use simq.Topics.Match.{
  visits, Holds, HoldsIn, Fresh, IsTree, AreTrees, found, found_nodes, smatch_node-found,
}
use simq.Topics.Subscribers.{match_qos_complete, Reached, found_sound}
use mathlib.Core.List.{Memᴰ}
use mathlib.Core.List.Memᴰ

-- To put a membership into a branch.
into_then :
    {b : Bool} (xs ys : List Entry) {y : Entry}
    → b ≡ true
    → Memᴰ y xs
    → Memᴰ y (if b then xs else ys)
into_then xs ys {y} e m = subst (λ b. Memᴰ y (if b then xs else ys)) (sym e) m

into_else :
    {b : Bool} (xs ys : List Entry) {y : Entry}
    → b ≡ false
    → Memᴰ y ys
    → Memᴰ y (if b then xs else ys)
into_else xs ys {y} e m = subst (λ b. Memᴰ y (if b then xs else ys)) (sym e) m

pub same_bytes_eq : (a b : Bytes) → same_bytes a b ≡ true → a ≡ b
same_bytes_eq [] [] h = refl
same_bytes_eq [] (y ∷ b) h = cc
same_bytes_eq (x ∷ a) [] h = cc
same_bytes_eq (x ∷ a) (y ∷ b) h =
    ap₂ ◌∷◌ (ground (arith, h)) (same_bytes_eq a b (ground (arith, h)))

pub same_bytes_refl : (a : Bytes) → same_bytes a a ≡ true
same_bytes_refl [] = refl
same_bytes_refl (x ∷ a) = ground (arith, same_bytes_refl a)

Fresh-HoldsIn :
    (k k' : Bytes) (p : List Bytes) (x : Entry) (ns : SNodes)
    → Fresh k ns
    → HoldsIn k' p x ns
    → same_bytes k' k ≡ false
Fresh-HoldsIn k k' p x no_nodes f h = absurd h
Fresh-HoldsIn k k' p x (a_node k₁ n rest) f (inl (e, h)) = ap (λ z. same_bytes z k) e ∙ f.0
Fresh-HoldsIn k k' p x (a_node k₁ n rest) f (inr h) = Fresh-HoldsIn k k' p x rest f.1 h

match_child_complete :
    (qos : ℕ) (k k' : Bytes) (ns : SNodes) (x : Entry)
    → AreTrees ns
    → same_bytes k' k ≡ true
    → HoldsIn k' [] x ns
    → Memᴰ (lowered qos x) (match_child qos k ns)
match_child_complete qos k k' no_nodes x v t h = absurd h
match_child_complete qos k k' (a_node k₁ (snode es ns) rest) x v t (inl (e, m)) =
    into_then (match_qos qos es) (match_child qos k rest) (ap (λ z. same_bytes z k) (sym e) ∙ t)
      (match_qos_complete qos es x m)
match_child_complete qos k k' (a_node k₁ (snode es ns) rest) x v t (inr h) =
    elim (Bool-cases (same_bytes k₁ k)) [
      | inr f ↦
          into_else (match_qos qos es) (match_child qos k rest) f
            (match_child_complete qos k k' rest x v.2 t h)
      | inl t' ↦
          let e : k' ≡ k₁ = same_bytes_eq k' k t ∙ sym (same_bytes_eq k₁ k t') in
          let f = Fresh-HoldsIn k₁ k' [] x rest v.0 h in
          absurd (cc (ap (λ z. same_bytes z k₁) e ∙ same_bytes_refl k₁, f))
    ]

-- How a filter covers a name that has levels.
visits-inv :
    (k l : Bytes) (p ls : List Bytes) (slash : Bool)
    → visits (k ∷ p) (l ∷ ls) slash ≡ true
    → ((same_bytes k mwc ≡ true) × (p ≡ []))
      ⊎ ((same_bytes k mwc ≡ false)
          × ((same_bytes k swc || same_bytes k l) ≡ true)
          × (visits p ls slash ≡ true))
unfolding visits
visits-inv k l [] ls slash h = elim (Bool-cases (same_bytes k mwc)) [
  | inl t ↦ inl (t, refl)
  | inr f ↦ inr (f, ground (arith, h, f), ground (arith, h, f))
]
visits-inv k l (k' ∷ p) ls slash h = elim (Bool-cases (same_bytes k mwc)) [
  | inl t ↦ absurd (ground (arith, h, t))
  | inr f ↦ inr (f, ground (arith, h, f), ground (arith, h, f))
]

visits-inv_end :
    (k : Bytes) (p : List Bytes) (slash : Bool)
    → visits (k ∷ p) [] slash ≡ true
    → (p ≡ []) × ((same_bytes k mwc ≡ true) ⊎ ((same_bytes k swc ≡ true) × (slash ≡ true)))
unfolding visits
visits-inv_end k [] slash h = (
  refl,
  elim (Bool-cases (same_bytes k mwc)) [
    | inl t ↦ inl t
    | inr f ↦ inr (ground (arith, h, f), ground (arith, h, f))
  ],
)
visits-inv_end k (k' ∷ p) slash h = absurd (ground (arith, h))

visits-inv_nil : (l : Bytes) (ls : List Bytes) (slash : Bool) → visits [] (l ∷ ls) slash ≡ true → ⊥
unfolding visits
visits-inv_nil l ls slash h = cc

-- The children of the name `#`, and behind a separator also those of the name `+`.
end_complete :
    (es : List Entry) (ns : SNodes) (slash : Bool) (qos : ℕ) (k : Bytes) (p : List Bytes)
    (x : Entry)
    → AreTrees ns
    → visits (k ∷ p) [] slash ≡ true
    → HoldsIn k p x ns
    → Memᴰ (lowered qos x) (found (snode es ns) [] slash qos)
unfolding found
end_complete es ns slash qos k p x v c m =
    let (e, o) = visits-inv_end k p slash c in
    let m' : HoldsIn k [] x ns = subst (λ z. HoldsIn k z x ns) e m in
    Memᴰ.append_right (match_qos qos es) (elim o [
      | inl t ↦ Memᴰ.append_left _ (match_child_complete qos mwc k ns x v t m')
      | inr (t, b) ↦
          Memᴰ.append_right (match_child qos mwc ns)
            (into_then (match_child qos swc ns) [] b (match_child_complete qos swc k ns x v t m'))
    ])

holds_subs : (n : SNode) (x : Entry) → Holds [] x n → Memᴰ x (subs_of n)
holds_subs (snode es ns) x m = m

here_complete :
    (k : Bytes) (n : SNode) (rest : SNodes) (l : Bytes) (ls : List Bytes) (slash : Bool) (qos : ℕ)
    (p : List Bytes) (x : Entry)
    → visits (k ∷ p) (l ∷ ls) slash ≡ true
    → Holds p x n
    → (visits p ls slash ≡ true → Memᴰ (lowered qos x) (found n ls slash qos))
    → Memᴰ (lowered qos x) (found_nodes (a_node k n rest) l ls slash qos)
unfolding found
here_complete k n rest l ls slash qos p x c h below =
    let xs = found n ls slash qos in
    let ys = found_nodes rest l ls slash qos in
    let zs = match_qos qos (subs_of n) in
    let two = if same_bytes k swc || same_bytes k l then xs ++ ys else ys in
    elim (visits-inv k l p ls slash c) [
      | inl (t, e) ↦ into_then (zs ++ ys) two t (
          Memᴰ.append_left ys
            (match_qos_complete qos (subs_of n) x (holds_subs n x (subst (λ z. Holds z x n) e h))))
      | inr (f, t, c') ↦
          into_else (zs ++ ys) two f (into_then (xs ++ ys) ys t (Memᴰ.append_left ys (below c')))
    ]

later_complete :
    (k : Bytes) (n : SNode) (rest : SNodes) (l : Bytes) (ls : List Bytes) (slash : Bool) (qos : ℕ)
    (x : Entry)
    → Memᴰ (lowered qos x) (found_nodes rest l ls slash qos)
    → Memᴰ (lowered qos x) (found_nodes (a_node k n rest) l ls slash qos)
unfolding found
later_complete k n rest l ls slash qos x m =
    let xs = found n ls slash qos in
    let ys = found_nodes rest l ls slash qos in
    let zs = match_qos qos (subs_of n) in
    let two = if same_bytes k swc || same_bytes k l then xs ++ ys else ys in
    elim (Bool-cases (same_bytes k mwc)) [
      | inl t ↦ into_then (zs ++ ys) two t (Memᴰ.append_right zs m)
      | inr f ↦ into_else (zs ++ ys) two f (elim (Bool-cases (same_bytes k swc || same_bytes k l)) [
        | inl t ↦ into_then (xs ++ ys) ys t (Memᴰ.append_right xs m)
        | inr f' ↦ into_else (xs ++ ys) ys f' m
      ])
    ]

mutual
  unfolding found

  found_complete :
      (n : SNode) (ls : List Bytes) (slash : Bool) (qos : ℕ) (p : List Bytes) (x : Entry)
      → IsTree n
      → visits p ls slash ≡ true
      → Holds p x n
      → Memᴰ (lowered qos x) (found n ls slash qos)
  found_complete (snode es ns) [] slash qos [] x v c m =
      Memᴰ.append_left _ (match_qos_complete qos es x m)
  found_complete (snode es ns) [] slash qos (k ∷ p) x v c m =
      end_complete es ns slash qos k p x v c m
  found_complete (snode es ns) (l ∷ ls) slash qos [] x v c m = absurd (visits-inv_nil l ls slash c)
  found_complete (snode es ns) (l ∷ ls) slash qos (k ∷ p) x v c m =
      found_nodes_complete ns l ls slash qos k p x v c m

  found_nodes_complete :
      (ns : SNodes) (l : Bytes) (ls : List Bytes) (slash : Bool) (qos : ℕ) (k : Bytes)
      (p : List Bytes) (x : Entry)
      → AreTrees ns
      → visits (k ∷ p) (l ∷ ls) slash ≡ true
      → HoldsIn k p x ns
      → Memᴰ (lowered qos x) (found_nodes ns l ls slash qos)
  found_nodes_complete no_nodes l ls slash qos k p x v c h = absurd h
  found_nodes_complete (a_node k₁ n rest) l ls slash qos k p x v c m = elim m [
    | inl (e, h) ↦
        here_complete k₁ n rest l ls slash qos p x
          (ap (λ z. visits (z ∷ p) (l ∷ ls) slash) (sym e) ∙ c) h
          (λ c'. found_complete n ls slash qos p x v.1 c' h)
    | inr h ↦
        later_complete k₁ n rest l ls slash qos x
          (found_nodes_complete rest l ls slash qos k p x v.2 c h)
  ]

-- The entry `y` is one under a filter that covers the name, with the lesser QoS.
abbrev pub IsDue : SNode → List Bytes → Bool → ℕ → Entry → Type 0
IsDue n ls slash qos y =
    (p : List Bytes) × (x : Entry) × (y ≡ lowered qos x) × (covers p ls slash ≡ true) × Holds p x n

-- The entries under the filters that cover the name, each with the lesser QoS, and no others.
abbrev pub FindsExactly : SNode → List Bytes → Bool → ℕ → List Entry → Type 0
FindsExactly n ls slash qos ys =
    ((y : Entry) → Memᴰ y ys → IsDue n ls slash qos y)
    × ((p : List Bytes) (x : Entry)
        → covers p ls slash ≡ true
        → Holds p x n
        → Memᴰ (lowered qos x) ys)

due_lem :
    (n : SNode) (ls : List Bytes) (slash : Bool) (qos : ℕ) (y : Entry)
    → Reached n ls slash qos y
    → IsDue n ls slash qos y
due_lem n ls slash qos y (p, x, e, v, h) = (p, x, e, covers-visits p ls slash ∙ v, h)

-- On a name of plain levels, with or without a separator at its end, and a tree where no two
-- children have the same name, `smatch` has no error, and finds the entries under the filters that
-- cover the name and no others, each with the lesser of its QoS and the message's. Without a separator
-- at the end these are the filters that match the name by the MQTT rule. With one, they are those that
-- match the name without its empty last level, and those that match it with that level, have as many
-- levels and end with a wildcard.
pub smatch_lem :
    (n : SNode) (l : Bytes) (ls : List Bytes) (slash : Bool) (qos : ℕ)
    → IsTree n
    → AllPlain (l ∷ ls)
    → (ys : List Entry) × (smatch n (name (l ∷ ls) slash) qos ≡ some ys)
      × FindsExactly n (l ∷ ls) slash qos ys
smatch_lem n l ls slash qos v p = (
  found n (l ∷ ls) slash qos,
  smatch_node-found n (l ∷ ls) slash qos p,
  (
    λ y m. due_lem n (l ∷ ls) slash qos y (found_sound n (l ∷ ls) slash qos y m),
    λ q x c h.
        found_complete n (l ∷ ls) slash qos q x v (sym (covers-visits q (l ∷ ls) slash) ∙ c) h,
  ),
)
