-- ===== src/AckQueue/Grow.antt =====
-- `grow` keeps the entries and the invariant, and makes room.
use simq.Base.{
  ℕ, zero, suc, ◌+◌, ◌-◌, ◌*◌, ◌/◌, ◌%◌, ◌^◌, ◌≤◌, ◌<◌, ◌≡◌, refl, sym, subst, ap, ◌∙◌, List, [],
  ◌∷◌, ◌++◌, Option, none, some, length, length-append, length-drop, ap₂, length-replicate, take,
  drop, replicate, arith, ok, append-nil,
}
use simq.AckQueue.{Ackmsg, no_ackmsg, Ackqueue, IdMap, update, index_ids, copied, grow}
use simq.Base.Window.{window, length-window, window-run}
use simq.AckQueue.Invariant.{entries, locate, DistinctIds, slot, IsValid, locate-some}
use native.Mathlib.Nat.{mod-eq_of_lt, pow-suc}
use mathlib.Core.Option

-- What `grow` writes to the map, over distinct identifiers.
index_ids_lem :
    (es : List Ackmsg) (i : ℕ) (m : IdMap) (id : ℕ)
    → DistinctIds es
    → index_ids es i m id ≡ elim (locate id es) [ some j ↦ some (i + j) | none ↦ m id ]
unfolding index_ids locate
index_ids_lem [] i m id d = refl
index_ids_lem (a ∷ es) i m id d =
    ground (arith, index_ids_lem es (i + 1) (update m a.pktid (some i)) id d.1, d.0)

round_trip : (n h : ℕ) → h < n → (h + n) % n ≡ h
round_trip n h p = grind arith

take-all : {A : Type 0} (xs : List A) (k : ℕ) → length xs ≤ k → take k xs ≡ xs
take-all [] zero h = refl
take-all [] (suc k) h = refl
take-all (x ∷ xs) zero h = absurd (omega arith)
take-all (x ∷ xs) (suc k) h = ap (λ ys. x ∷ ys) (take-all xs k (omega arith))

take-front : {A : Type 0} (xs ys : List A) (k : ℕ) → length xs ≡ k → take k (xs ++ ys) ≡ xs
take-front [] ys zero h = refl
take-front [] ys (suc k) h = absurd (omega arith)
take-front (x ∷ xs) ys zero h = absurd (omega arith)
take-front (x ∷ xs) ys (suc k) h = ap (λ zs. x ∷ zs) (take-front xs ys k (omega arith))

-- All of a ring, from a slot on.
whole_window :
    (ring : List Ackmsg) (size h : ℕ)
    → length ring ≡ size
    → h < size
    → window no_ackmsg size ring h size ≡ drop h ring ++ take h ring
whole_window ring size h e p =
    ap (λ k. window no_ackmsg size ring k size) (sym (mod-eq_of_lt p))
    ∙ ap (window no_ackmsg size ring (h % size)) {y = (size - h) + h} (omega arith)
    ∙ window-run no_ackmsg size ring h (size - h) h e (omega arith) (omega arith)
    ∙ ap₂ ◌++◌ (take-all (drop h ring) (size - h) (omega (arith, length-drop h ring))) (
        ap (λ k. window no_ackmsg size ring k h) (to_start size h p)
        ∙ ap (window no_ackmsg size ring (0 % size)) {y = h + 0} (omega arith)
        ∙ window-run no_ackmsg size ring 0 h 0 e (omega arith) (omega arith)
        ∙ append-nil (take h ring))
  where
    to_start : (n k : ℕ) → k < n → (k + (n - k)) % n ≡ 0 % n
    to_start n k h = let e : k + (n - k) ≡ n = omega arith in rw e (grind arith)

module _ (q : Ackqueue) (v : IsValid q) (is_full : q.count ≡ q.size) where
  tail-head : q.tail ≡ q.head
  tail-head =
      v.tail_eq ∙ ap (λ c. (q.head + c) % q.size) is_full ∙ round_trip q.size q.head v.head_lt

  copied-entries : copied q ≡ entries q
  unfolding copied
  copied-entries =
      ground (arith, tail-head, whole_window q.ring q.size q.head v.ring_eq v.head_lt, is_full)

  length-entries : length (entries q) ≡ q.size
  length-entries = length-window no_ackmsg q.size q.ring q.head q.count ∙ is_full

  -- The ring that `grow` makes.
  abbrev newring : List Ackmsg
  newring = entries q ++ replicate q.size no_ackmsg

  abbrev grown : Ackqueue
  grown = record q {
    size = q.size * 2;
    mask = q.size * 2 - 1;
    ring = newring;
    head = 0;
    tail = q.count;
    emap = index_ids (entries q) 0 (λ _. none);
  }

  length-newring : length newring ≡ q.size * 2
  length-newring = omega (
    arith,
    length-append (entries q) (replicate q.size no_ackmsg),
    length-replicate q.size no_ackmsg,
    length-entries,
  )

  entries-grown : entries grown ≡ entries q
  entries-grown =
      let e : 0 ≡ 0 % (q.size * 2) = sym (mod-eq_of_lt (omega (arith, v.head_lt))) in
      ap (λ k. window no_ackmsg (q.size * 2) newring k q.count) e
      ∙ ap (window no_ackmsg (q.size * 2) newring (0 % (q.size * 2))) {y = q.count + 0}
          (omega arith)
      ∙ window-run no_ackmsg (q.size * 2) newring 0 q.count 0 length-newring
          (omega (arith, v.head_lt)) (omega arith)
      ∙ append-nil (take q.count newring)
      ∙ take-front (entries q) (replicate q.size no_ackmsg) q.count (length-entries ∙ sym is_full)

  grow-grown : q.size ≤ (2 ^ 63 - 1) / 2 → grow q ≡ ok grown
  unfolding grow
  grow-grown h = ground (
    arith,
    copied-entries,
    length-entries,
    take-front (entries q) (replicate (q.size * 2 - length (entries q)) no_ackmsg) q.count
        (omega (arith, length-entries)),
  )

  grown-emap_eq :
      (id : ℕ) (o : Option ℕ)
      → locate id (entries q) ≡ o
      → index_ids (entries q) 0 (λ _. none) id
        ≡ Option.map (slot (q.size * 2) 0) (locate id (entries q))
  grown-emap_eq id none l = ground (arith, index_ids_lem (entries q) 0 (λ _. none) id v.distinct, l)
  grown-emap_eq id (some j) l = ground (
    arith,
    index_ids_lem (entries q) 0 (λ _. none) id v.distinct,
    l,
    length-entries,
    locate-some id (entries q) j l,
    mod-eq_of_lt {n = 0 + j} {m = q.size * 2},
  )

  grown-IsValid : IsValid grown
  grown-IsValid = record {
    exponent = suc v.exponent;
    size_eq = omega (arith, v.size_eq, pow-suc 2 v.exponent);
    mask_eq = refl;
    ring_eq = length-newring;
    head_lt = omega (arith, v.head_lt);
    count_le = omega arith;
    tail_eq =
        omega (arith, mod-eq_of_lt {n = 0 + q.count} {m = q.size * 2} (omega (arith, v.head_lt)));
    emap_eq = λ id.
        grown-emap_eq id (locate id (entries q)) refl
        ∙ ap (λ xs. Option.map (slot (q.size * 2) 0) (locate id xs)) (sym entries-grown);
    distinct = subst DistinctIds (sym entries-grown) v.distinct;
  }

  -- `grow` of a valid queue that is full succeeds up to the largest size that can be doubled, keeps
  -- the entries, the ping and the invariant, and doubles the size.
  pub grow_lem :
      q.size ≤ (2 ^ 63 - 1) / 2
      → (q' : Ackqueue) × (grow q ≡ ok q')
        × IsValid q'
        × (entries q' ≡ entries q)
        × (q'.count < q'.size)
        × (q'.ping ≡ q.ping)
        × (q'.size ≡ q.size * 2)
  grow_lem h =
      (grown, grow-grown h, grown-IsValid, entries-grown, omega (arith, v.head_lt), refl, refl)
