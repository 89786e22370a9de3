-- ===== src/AckQueue/Invariant.antt =====
-- What holds of every `ackqueue`: the ring, its indices and its map belong together.
use simq.Base.{
  ℕ, zero, suc, ◌+◌, ◌-◌, ◌%◌, ◌^◌, ◌≤◌, ◌<◌, ◌≡◌, refl, sym, ap, ◌∙◌, List, [], ◌∷◌, ◌++◌, Option,
  none, some, ◌==◌, length, get_or, set, if◌then◌else◌, arith,
}
use simq.Base.Bits.{and_mask}
use simq.AckQueue.{Ackmsg, no_ackmsg, Ackqueue, index}
use simq.Base.Window.{window}
use mathlib.Core.Option

-- The entries in the queue, oldest first.
abbrev pub entries : Ackqueue → List Ackmsg
entries q = window no_ackmsg q.size q.ring q.head q.count

-- The place of the first entry with an identifier.
unfoldable pub locate : ℕ → List Ackmsg → Option ℕ
locate id [] = none
locate id (a ∷ rest) = if id == a.pktid then some 0 else Option.map suc (locate id rest)

-- No identifier stands twice.
abbrev pub DistinctIds : List Ackmsg → Type 0
DistinctIds [] = Unit {0}
DistinctIds (a ∷ rest) = (locate a.pktid rest ≡ none) × DistinctIds rest

-- The slot of a place in the queue.
abbrev pub slot : ℕ → ℕ → ℕ → ℕ
slot size head j = (head + j) % size

pub record IsValid (q : Ackqueue) : Type 0 where
  pub exponent : ℕ
  pub size_eq : q.size ≡ 2 ^ exponent
  pub mask_eq : q.mask ≡ q.size - 1
  pub ring_eq : length q.ring ≡ q.size
  pub head_lt : q.head < q.size
  pub count_le : q.count ≤ q.size
  pub tail_eq : q.tail ≡ (q.head + q.count) % q.size
  pub emap_eq : (id : ℕ) → q.emap id ≡ Option.map (slot q.size q.head) (locate id (entries q))
  pub distinct : DistinctIds (entries q)

-- The mask is a remainder.
pub index-eq : (q : Ackqueue) (n : ℕ) → IsValid q → index q n ≡ n % q.size
unfolding index
index-eq q n v =
    let e : q.mask ≡ 2 ^ v.exponent - 1 = omega (arith, v.mask_eq, v.size_eq) in
    rw e (and_mask v.exponent n ∙ ap (λ k. n % k) (sym v.size_eq))

-- The entry at the end of the queue.
pub locate-snoc :
    (id : ℕ) (es : List Ackmsg) (a : Ackmsg)
    → locate id (es ++ (a ∷ [])) ≡ elim (locate id es) [
      | some j ↦ some j
      | none ↦ if id == a.pktid then some (length es) else none
    ]
unfolding locate
locate-snoc id [] a = ground arith
locate-snoc id (e ∷ es) a = ground (arith, locate-snoc id es a)

-- A place that is found is in the queue, and holds the identifier.
pub locate-some :
    (id : ℕ) (es : List Ackmsg) (j : ℕ)
    → locate id es ≡ some j
    → (j < length es) × ((get_or es j no_ackmsg).pktid ≡ id)
unfolding locate
locate-some id [] j h = cc
locate-some id (e ∷ es) zero h = ground (arith, locate-some id es 0)
locate-some id (e ∷ es) (suc j) h = ground (arith, locate-some id es j)

-- A change that keeps the identifier keeps every place.
pub locate-set :
    (id : ℕ) (es : List Ackmsg) (j : ℕ) (a : Ackmsg)
    → a.pktid ≡ (get_or es j no_ackmsg).pktid
    → locate id (set es j a) ≡ locate id es
unfolding locate
locate-set id [] j a h = refl
locate-set id (e ∷ es) zero a h = rw h
locate-set id (e ∷ es) (suc j) a h = rw (locate-set id es j a h)

pub DistinctIds-set :
    (es : List Ackmsg) (j : ℕ) (a : Ackmsg)
    → a.pktid ≡ (get_or es j no_ackmsg).pktid
    → DistinctIds es
    → DistinctIds (set es j a)
DistinctIds-set [] j a h d = d
DistinctIds-set (e ∷ es) zero a h d = (rw h d.0, d.1)
DistinctIds-set (e ∷ es) (suc j) a h d =
    (locate-set e.pktid es j a h ∙ d.0, DistinctIds-set es j a h d.1)

pub DistinctIds-snoc :
    (es : List Ackmsg) (a : Ackmsg)
    → locate a.pktid es ≡ none
    → DistinctIds es
    → DistinctIds (es ++ (a ∷ []))
unfolding locate
DistinctIds-snoc [] a h d = (refl, tt)
DistinctIds-snoc (e ∷ es) a h d =
    (ground (arith, locate-snoc e.pktid es a, d.0), DistinctIds-snoc es a (ground arith) d.1)

-- The map knows exactly the identifiers in the queue.
pub emap-none :
    {q : Ackqueue} (id : ℕ) → IsValid q → q.emap id ≡ none → locate id (entries q) ≡ none
emap-none id v e = ground (arith, v.emap_eq id)

pub emap-some :
    {q : Ackqueue} (id i : ℕ)
    → IsValid q
    → q.emap id ≡ some i
    → (j : ℕ) × (locate id (entries q) ≡ some j) × (i ≡ slot q.size q.head j)
emap-some {q} id i v e = from_place (locate id (entries q)) refl
  where
    from_place :
        (o : Option ℕ)
        → locate id (entries q) ≡ o
        → (j : ℕ) × (locate id (entries q) ≡ some j) × (i ≡ slot q.size q.head j)
    from_place none l = absurd (cc (v.emap_eq id))
    from_place (some j) l = (j, l, ground (arith, v.emap_eq id))
