-- ===== src/Topics/Subscribers.antt =====
-- The entries that `smatch` finds are those under the filters that cover the name.
use simq.Base.{
  ℕ, ◌≡◌, refl, sym, ap, ◌∙◌, subst, Bool, true, false, ◌&&◌, ◌||◌, List, [], ◌∷◌, ◌++◌,
  if◌then◌else◌, arith, inl, inr, Bool-cases,
}
use simq.Topics.{
  Bytes, Entry, SNode, snode, SNodes, no_nodes, a_node, subs_of, mwc, swc, same_bytes, match_qos,
  match_child,
}
use simq.Topics.Rule.{lowered, granted-lowered}
use simq.Topics.Match.{visits, Holds, HoldsIn, found, found_nodes}
use mathlib.Core.List.{Memᴰ}
use mathlib.Core.List.Memᴰ

match_qos_sound :
    (qos : ℕ) (es : List Entry) (y : Entry)
    → Memᴰ y (match_qos qos es)
    → (x : Entry) × (y ≡ lowered qos x) × Memᴰ x es
unfolding match_qos
match_qos_sound qos [] y m = absurd (Memᴰ.not-nil m)
match_qos_sound qos (e ∷ es) y m = elim (Memᴰ.cases_cons m) [
  | inl h ↦ (e, h ∙ granted-lowered qos e, Memᴰ.head refl)
  | inr t ↦ let (x, h, t') = match_qos_sound qos es y t in (x, h, Memᴰ.tail t')
]

pub match_qos_complete :
    (qos : ℕ) (es : List Entry) (x : Entry) → Memᴰ x es → Memᴰ (lowered qos x) (match_qos qos es)
unfolding match_qos
match_qos_complete qos [] x m = absurd (Memᴰ.not-nil m)
match_qos_complete qos (e ∷ es) x (Memᴰ.head h) =
    Memᴰ.head (ap (lowered qos) h ∙ sym (granted-lowered qos e))
match_qos_complete qos (e ∷ es) x (Memᴰ.tail t) = Memᴰ.tail (match_qos_complete qos es x t)

-- To read a branch off a membership.
member_then :
    {b : Bool} (xs ys : List Entry) {y : Entry}
    → b ≡ true
    → Memᴰ y (if b then xs else ys)
    → Memᴰ y xs
member_then xs ys {y} e m = subst (λ b. Memᴰ y (if b then xs else ys)) e m

member_else :
    {b : Bool} (xs ys : List Entry) {y : Entry}
    → b ≡ false
    → Memᴰ y (if b then xs else ys)
    → Memᴰ y ys
member_else xs ys {y} e m = subst (λ b. Memᴰ y (if b then xs else ys)) e m

-- What is found in a child of that name stands there.
match_child_sound :
    (qos : ℕ) (k : Bytes) (ns : SNodes) (y : Entry)
    → Memᴰ y (match_child qos k ns)
    → (k' : Bytes) × (x : Entry) × (same_bytes k' k ≡ true)
      × (y ≡ lowered qos x)
      × HoldsIn k' [] x ns
match_child_sound qos k no_nodes y m = absurd (Memᴰ.not-nil m)
match_child_sound qos k (a_node k' (snode es ns) rest) y m = elim (Bool-cases (same_bytes k' k)) [
  | inl t ↦
      let (x, h, m') =
        match_qos_sound qos es y (member_then (match_qos qos es) (match_child qos k rest) t m) in
      (k', x, t, h, inl (refl, m'))
  | inr f ↦
      let (k₁, x, t, h, m') =
        match_child_sound qos k rest y
          (member_else (match_qos qos es) (match_child qos k rest) f m) in
      (k₁, x, t, h, inr m')
]

-- An entry under a filter that the loops get to, with the lesser QoS.
abbrev pub Reached : SNode → List Bytes → Bool → ℕ → Entry → Type 0
Reached n ls slash qos y =
    (p : List Bytes) × (x : Entry) × (y ≡ lowered qos x) × (visits p ls slash ≡ true) × Holds p x n

abbrev ReachedIn : SNodes → Bytes → List Bytes → Bool → ℕ → Entry → Type 0
ReachedIn ns l ls slash qos y =
    (k : Bytes) × (p : List Bytes) × (x : Entry) × (y ≡ lowered qos x)
    × (visits (k ∷ p) (l ∷ ls) slash ≡ true)
    × HoldsIn k p x ns

visits-nothing : (slash : Bool) → visits [] [] slash ≡ true
unfolding visits
visits-nothing slash = refl

visits-child :
    (k : Bytes) (slash : Bool)
    → (same_bytes k mwc || (same_bytes k swc && slash)) ≡ true
    → visits (k ∷ []) [] slash ≡ true
unfolding visits
visits-child k slash h = ground (arith, h)

visits-many :
    (k l : Bytes) (ls : List Bytes) (slash : Bool)
    → same_bytes k mwc ≡ true
    → visits (k ∷ []) (l ∷ ls) slash ≡ true
unfolding visits
visits-many k l ls slash h = ground (arith, h)

visits-one :
    (k l : Bytes) (p ls : List Bytes) (slash : Bool)
    → same_bytes k mwc ≡ false
    → (same_bytes k swc || same_bytes k l) ≡ true
    → visits p ls slash ≡ true
    → visits (k ∷ p) (l ∷ ls) slash ≡ true
unfolding visits
visits-one k l p ls slash h h' r = ground (arith, h, h', r)

-- What is found among the children behind the first.
found_later :
    (k : Bytes) (n : SNode) (rest : SNodes) (l : Bytes) (ls : List Bytes) (slash : Bool) (qos : ℕ)
    (y : Entry)
    → ReachedIn rest l ls slash qos y
    → ReachedIn (a_node k n rest) l ls slash qos y
found_later k n rest l ls slash qos y (k₁, p, x, h, c, s) = (k₁, p, x, h, c, inr s)

found_many :
    (k : Bytes) (n : SNode) (rest : SNodes) (l : Bytes) (ls : List Bytes) (slash : Bool) (qos : ℕ)
    (y : Entry)
    → same_bytes k mwc ≡ true
    → Memᴰ y (match_qos qos (subs_of n))
    → ReachedIn (a_node k n rest) l ls slash qos y
found_many k (snode es ns) rest l ls slash qos y t m =
    let (x, h, m') = match_qos_sound qos es y m in
    (k, [], x, h, visits-many k l ls slash t, inl (refl, m'))

found_one :
    (k : Bytes) (n : SNode) (rest : SNodes) (l : Bytes) (ls : List Bytes) (slash : Bool) (qos : ℕ)
    (y : Entry)
    → same_bytes k mwc ≡ false
    → (same_bytes k swc || same_bytes k l) ≡ true
    → Reached n ls slash qos y
    → ReachedIn (a_node k n rest) l ls slash qos y
found_one k n rest l ls slash qos y f t (p, x, h, c, s) =
    (k, p, x, h, visits-one k l p ls slash f t c, inl (refl, s))

found_here :
    (es : List Entry) (ns : SNodes) (slash : Bool) (qos : ℕ) (y : Entry) (k : Bytes)
    → ((k' : Bytes) → same_bytes k' k ≡ true → visits (k' ∷ []) [] slash ≡ true)
    → Memᴰ y (match_child qos k ns)
    → Reached (snode es ns) [] slash qos y
found_here es ns slash qos y k c m =
    let (k', x, t, h, s) = match_child_sound qos k ns y m in (k' ∷ [], x, h, c k' t, s)

mutual
  unfolding found

  pub found_sound :
      (n : SNode) (ls : List Bytes) (slash : Bool) (qos : ℕ) (y : Entry)
      → Memᴰ y (found n ls slash qos)
      → Reached n ls slash qos y
  found_sound (snode es ns) [] slash qos y m = elim (Memᴰ.append_cases (match_qos qos es) m) [
    | inl m' ↦ let (x, h, s) = match_qos_sound qos es y m' in ([], x, h, visits-nothing slash, s)
    | inr m' ↦ elim (Memᴰ.append_cases (match_child qos mwc ns) m') [
      | inl c ↦
          found_here es ns slash qos y mwc
            (λ k' t. visits-child k' slash (ap (λ b. b || (same_bytes k' swc && slash)) t)) c
      | inr c ↦ elim (Bool-cases slash) [
        | inl t ↦
            found_here es ns slash qos y swc
              (λ k' t'. visits-child k' slash (ground (arith, t, t')))
              (member_then (match_child qos swc ns) [] t c)
        | inr f ↦ absurd (Memᴰ.not-nil (member_else (match_child qos swc ns) [] f c))
      ]
    ]
  ]
  found_sound (snode es ns) (l ∷ ls) slash qos y m =
      let (k, p, x, h, c, s) = found_nodes_sound ns l ls slash qos y m in (k ∷ p, x, h, c, s)

  found_nodes_sound :
      (ns : SNodes) (l : Bytes) (ls : List Bytes) (slash : Bool) (qos : ℕ) (y : Entry)
      → Memᴰ y (found_nodes ns l ls slash qos)
      → ReachedIn ns l ls slash qos y
  found_nodes_sound no_nodes l ls slash qos y m = absurd (Memᴰ.not-nil m)
  found_nodes_sound (a_node k n rest) l ls slash qos y m =
      let xs = found n ls slash qos in
      let ys = found_nodes rest l ls slash qos in
      let zs = match_qos qos (subs_of n) in
      let two = if same_bytes k swc || same_bytes k l then xs ++ ys else ys in
      let later : Memᴰ y ys → ReachedIn (a_node k n rest) l ls slash qos y =
        λ m'. found_later k n rest l ls slash qos y (found_nodes_sound rest l ls slash qos y m') in
      elim (Bool-cases (same_bytes k mwc)) [
        | inl t ↦ elim (Memᴰ.append_cases zs (member_then (zs ++ ys) two t m)) [
          | inl m' ↦ found_many k n rest l ls slash qos y t m'
          | inr m' ↦ later m'
        ]
        | inr f ↦ elim (Bool-cases (same_bytes k swc || same_bytes k l)) [
          | inl t ↦
              elim (Memᴰ.append_cases xs
                (member_then (xs ++ ys) ys t (member_else (zs ++ ys) two f m))) [
                  | inl m' ↦
                      found_one k n rest l ls slash qos y f t (found_sound n ls slash qos y m')
                  | inr m' ↦ later m'
                ]
          | inr f' ↦ later (member_else (xs ++ ys) ys f' (member_else (zs ++ ys) two f m))
        ]
      ]
