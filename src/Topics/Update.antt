-- ===== src/Topics/Update.antt =====
-- `sinsert` changes the entries under its filter, and nothing else.
use simq.Base.{
  ℕ, ◌≡◌, ◌≢◌, ◌≤◌, refl, sym, ap, ap₂, subst, ◌∙◌, Bool, true, false, List, [], ◌∷◌, length, none,
  if◌then◌else◌, inl, inr, Bool-cases,
}
use simq.Topics.{
  Bytes, Entry, Sub, SNode, snode, SNodes, no_nodes, a_node, same_bytes, find_node, put_node,
  child_or_new, insert_entry, sinsert,
}
use simq.Topics.Levels.{name}
use simq.Topics.Match.{IsTree}
use simq.Topics.Complete.{same_bytes_eq, same_bytes_refl}
use simq.Topics.Changes.{subs_at, subs_in, Changed, subs_in-here, subs_in-later}
use simq.Topics.Insert.{IsFilter, insert_at, sinsert_lem, insert_at-IsTree}

-- To reason about a child map behind a test.
entries_choice :
    {b : Bool} (x y : SNodes) (k : Bytes) (p : List Bytes) (zs : List Entry)
    → (b ≡ true → subs_in x k p ≡ zs)
    → (b ≡ false → subs_in y k p ≡ zs)
    → subs_in (if b then x else y) k p ≡ zs
entries_choice {b = true} x y k p zs h h' = h refl
entries_choice {b = false} x y k p zs h h' = h' refl

put_there :
    (l : Bytes) (n : SNode) (ns : SNodes) (p : List Bytes)
    → subs_in (put_node l n ns) l p ≡ subs_at n p
put_there l n no_nodes p = subs_in-here l l n no_nodes p (same_bytes_refl l)
put_there l n (a_node k n' rest) p =
    entries_choice (a_node k n rest) (a_node k n' (put_node l n rest)) l p (subs_at n p)
      (λ t. subs_in-here l k n rest p t)
      (λ f. subs_in-later l k n' (put_node l n rest) p f ∙ put_there l n rest p)

put_elsewhere :
    (l k : Bytes) (n : SNode) (ns : SNodes) (p : List Bytes)
    → same_bytes l k ≡ false
    → subs_in (put_node l n ns) k p ≡ subs_in ns k p
put_elsewhere l k n no_nodes p d = subs_in-later k l n no_nodes p d
put_elsewhere l k n (a_node k' n' rest) p d =
    entries_choice (a_node k' n rest) (a_node k' n' (put_node l n rest)) k p
      (subs_in (a_node k' n' rest) k p)
      (λ t.
        let g : same_bytes k' k ≡ false = ap (λ z. same_bytes z k) (same_bytes_eq k' l t) ∙ d in
        subs_in-later k k' n rest p g ∙ sym (subs_in-later k k' n' rest p g))
      (λ f. elim (Bool-cases (same_bytes k' k)) [
        | inl t ↦ subs_in-here k k' n' (put_node l n rest) p t ∙ sym (subs_in-here k k' n' rest p t)
        | inr g ↦
            subs_in-later k k' n' (put_node l n rest) p g
            ∙ put_elsewhere l k n rest p d
            ∙ sym (subs_in-later k k' n' rest p g)
      ])

there_lem :
    (n : SNode) (ls : List Bytes) (s : Sub) (sub : ℕ)
    → subs_at (insert_at n ls s sub) ls ≡ insert_entry (subs_at n ls) s sub
unfolding subs_at insert_at
there_lem (snode es ns) [] s sub = refl
there_lem (snode es ns) (l ∷ ls) s sub =
    put_there l (insert_at (child_or_new (find_node l ns)) ls s sub) ns ls
    ∙ there_lem (child_or_new (find_node l ns)) ls s sub

elsewhere_lem :
    (n : SNode) (ls p : List Bytes) (s : Sub) (sub : ℕ)
    → p ≢ ls
    → subs_at (insert_at n ls s sub) p ≡ subs_at n p
unfolding subs_at insert_at
elsewhere_lem (snode es ns) [] [] s sub ne = absurd (ne refl)
elsewhere_lem (snode es ns) [] (k ∷ p) s sub ne = refl
elsewhere_lem (snode es ns) (l ∷ ls) [] s sub ne = refl
elsewhere_lem (snode es ns) (l ∷ ls) (k ∷ p) s sub ne =
    let n' = insert_at (child_or_new (find_node l ns)) ls s sub in
    elim (Bool-cases (same_bytes l k)) [
      | inl t ↦
          let same = same_bytes_eq l k t in
          subst (λ z. subs_in (put_node l n' ns) z p ≡ subs_in ns z p) same
            (put_there l n' ns p
              ∙ elsewhere_lem (child_or_new (find_node l ns)) ls p s sub
                  (λ e. ne (ap₂ ◌∷◌ (sym same) e)))
      | inr f ↦ put_elsewhere l k n' ns p f
    ]

insert_at-Changed :
    (n : SNode) (ls : List Bytes) (s : Sub) (sub : ℕ)
    → IsTree n
    → Changed n ls (insert_entry (subs_at n ls) s sub) (insert_at n ls s sub)
insert_at-Changed n ls s sub v = record {
  valid = insert_at-IsTree n ls s sub v;
  there = there_lem n ls s sub;
  elsewhere = λ p ne. elsewhere_lem n ls p s sub ne;
}

-- In a tree where no two children have the same name, `sinsert` of a filter, with a round for each
-- level, has no error; the subscriber gets the options under that filter, in its old place or behind
-- the others, nothing changes under any other filter, and still no two children have the same name.
pub sinsert-Changed :
    (fuel : ℕ) (n : SNode) (ks : List Bytes) (s : Sub) (sub : ℕ)
    → IsTree n
    → length ks ≤ fuel
    → IsFilter ks
    → s.topic ≡ name ks false
    → (n' : SNode) × (sinsert fuel n s sub ≡ (n', none))
      × Changed n ks (insert_entry (subs_at n ks) (record s { topic = [] }) sub) n'
sinsert-Changed fuel n ks s sub v h f e = (
  insert_at n ks (record s { topic = [] }) sub,
  sinsert_lem fuel n ks s sub h f e,
  insert_at-Changed n ks (record s { topic = [] }) sub v,
)
