-- ===== src/AckQueue/Insert.antt =====
-- `insert` behind the growing, `Ack` and `removeHead`: what each does to the entries, and that it
-- keeps the invariant.
use simq.Base.{
  ℕ, ◌+◌, ◌-◌, ◌%◌, ◌<◌, ◌≡◌, ◌≢◌, refl, sym, subst, ap, ◌∙◌, List, [], ◌∷◌, ◌++◌, Option, none,
  some, length-set, get_or, set, arith,
}
use simq.AckQueue.{Ackmsg, no_ackmsg, Ackqueue, update, index, remove_head}
use simq.Base.Window.{
  window, length-window, window-push, window-set, step_in, step_more, wrap_next, wrap_rest,
  window-pop,
}
use simq.AckQueue.Invariant.{
  entries, locate, DistinctIds, slot, IsValid, index-eq, locate-snoc, locate-set, DistinctIds-set,
  DistinctIds-snoc, emap-none,
}
use mathlib.Core.Option

-- The queue with an entry more.
abbrev pub pushed : Ackqueue → Ackmsg → Ackqueue
pushed q a = record q {
  ring = set q.ring q.tail a;
  emap = update q.emap a.pktid (some q.tail);
  tail = index q (q.tail + 1);
  count = q.count + 1;
}

entries-pushed :
    (q : Ackqueue) (a : Ackmsg)
    → IsValid q
    → q.count < q.size
    → entries (pushed q a) ≡ entries q ++ (a ∷ [])
entries-pushed q a v h =
    ap (λ i. window no_ackmsg q.size (set q.ring i a) q.head (q.count + 1)) v.tail_eq
    ∙ window-push no_ackmsg q.size q.ring a q.head q.count (omega (arith, v.ring_eq)) v.head_lt h

pushed-emap_eq :
    (q : Ackqueue) (a : Ackmsg) (id : ℕ)
    → IsValid q
    → locate a.pktid (entries q) ≡ none
    → update q.emap a.pktid (some q.tail) id
      ≡ Option.map (slot q.size q.head) (locate id (entries q ++ (a ∷ [])))
pushed-emap_eq q a id v n = ground (
  arith,
  v.emap_eq id,
  locate-snoc id (entries q) a,
  length-window no_ackmsg q.size q.ring q.head q.count,
  v.tail_eq,
)

pub pushed-IsValid :
    (q : Ackqueue) (a : Ackmsg)
    → IsValid q
    → q.count < q.size
    → q.emap a.pktid ≡ none
    → IsValid (pushed q a) × (entries (pushed q a) ≡ entries q ++ (a ∷ []))
pushed-IsValid q a v h e =
    let n = emap-none a.pktid v e in
    let es = entries-pushed q a v h in
    (
      record {
        exponent = v.exponent;
        size_eq = v.size_eq;
        mask_eq = v.mask_eq;
        ring_eq = length-set q.ring q.tail a ∙ v.ring_eq;
        head_lt = v.head_lt;
        count_le = omega arith;
        tail_eq =
            index-eq q (q.tail + 1) v
            ∙ ap (λ t. (t + 1) % q.size) v.tail_eq
            ∙ wrap_next q.size q.head q.count;
        emap_eq = λ id.
            pushed-emap_eq q a id v n
            ∙ ap (λ xs. Option.map (slot q.size q.head) (locate id xs)) (sym es);
        distinct = subst DistinctIds (sym es) (DistinctIds-snoc (entries q) a n v.distinct);
      },
      es,
    )

-- The queue with the `j`-th entry written anew.
abbrev pub rewritten : Ackqueue → ℕ → Ackmsg → Ackqueue
rewritten q i a = record q { ring = set q.ring i a }

pub rewritten-IsValid :
    (q : Ackqueue) (j : ℕ) (a : Ackmsg)
    → IsValid q
    → j < q.count
    → a.pktid ≡ (get_or (entries q) j no_ackmsg).pktid
    → IsValid (rewritten q (slot q.size q.head j) a)
      × (entries (rewritten q (slot q.size q.head j) a) ≡ set (entries q) j a)
rewritten-IsValid q j a v h same =
    let es : entries (rewritten q (slot q.size q.head j) a) ≡ set (entries q) j a =
      window-set no_ackmsg q.size q.ring a q.head q.count j (omega (arith, v.ring_eq)) v.head_lt
        v.count_le h in
    (
      record {
        exponent = v.exponent;
        size_eq = v.size_eq;
        mask_eq = v.mask_eq;
        ring_eq = length-set q.ring (slot q.size q.head j) a ∙ v.ring_eq;
        head_lt = v.head_lt;
        count_le = v.count_le;
        tail_eq = v.tail_eq;
        emap_eq = λ id.
            v.emap_eq id
            ∙ ap (Option.map (slot q.size q.head))
                (sym (ap (locate id) es ∙ locate-set id (entries q) j a same));
        distinct = subst DistinctIds (sym es) (DistinctIds-set (entries q) j a same v.distinct);
      },
      es,
    )

-- The queue with its oldest entry gone; `h` is the new head.
abbrev pub popped : Ackqueue → ℕ → Ackqueue
popped q h = record q {
  ring = set q.ring q.head no_ackmsg;
  head = h;
  count = q.count - 1;
  emap = update q.emap (get_or q.ring q.head no_ackmsg).pktid none;
}

popped-emap_eq :
    (q : Ackqueue) (a : Ackmsg) (rest : List Ackmsg) (id : ℕ)
    → q.emap id ≡ Option.map (slot q.size q.head) (locate id (a ∷ rest))
    → locate a.pktid rest ≡ none
    → update q.emap a.pktid none id
      ≡ Option.map (slot q.size ((q.head + 1) % q.size)) (locate id rest)
popped-emap_eq q a rest id e fresh = by_place (locate id rest) refl
  where
    by_place :
        (o : Option ℕ)
        → locate id rest ≡ o
        → update q.emap a.pktid none id
          ≡ Option.map (slot q.size ((q.head + 1) % q.size)) (locate id rest)
    by_place none l = unfold locate in ground arith
    by_place (some j) l = unfold locate in ground (arith, step_more q.size q.head j)

pub popped-IsValid :
    (q : Ackqueue)
    → IsValid q
    → q.count ≢ 0
    → IsValid (popped q ((q.head + 1) % q.size))
      × (entries q ≡ get_or q.ring q.head no_ackmsg ∷ entries (popped q ((q.head + 1) % q.size)))
popped-IsValid q v ne =
    let es = window-pop no_ackmsg q.size q.ring no_ackmsg q.head q.count v.head_lt v.count_le ne in
    let d = subst DistinctIds es v.distinct in
    (
      record {
        exponent = v.exponent;
        size_eq = v.size_eq;
        mask_eq = v.mask_eq;
        ring_eq = length-set q.ring q.head no_ackmsg ∙ v.ring_eq;
        head_lt = step_in q.size q.head v.head_lt;
        count_le = omega (arith, v.count_le);
        tail_eq = v.tail_eq ∙ wrap_rest q.size q.head q.count ne;
        emap_eq = λ id.
            popped-emap_eq q (get_or q.ring q.head no_ackmsg) _ id
              (v.emap_eq id ∙ ap (λ xs. Option.map (slot q.size q.head) (locate id xs)) es) d.0;
        distinct = d.1;
      },
      es,
    )

-- `removeHead` of a queue that is not empty.
pub remove_head-popped :
    (q : Ackqueue) → IsValid q → q.count ≢ 0 → (remove_head q).0 ≡ popped q ((q.head + 1) % q.size)
unfolding remove_head
remove_head-popped q v ne = ground (arith, index-eq q (q.head + 1) v)
