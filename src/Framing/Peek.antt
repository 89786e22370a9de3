-- ===== src/Framing/Peek.antt =====
-- The type and the length that `peekMessageSize` finds in a fixed header.
use simq.Base.{
  ℕ, zero, suc, ◌+◌, ◌*◌, ◌/◌, ◌%◌, ◌≤◌, ◌<◌, ◌≡◌, refl, sym, ap, subst, ◌∙◌, List, [], ◌∷◌, ◌++◌,
  append-nil, ltb, length, drop, get_or, if◌then◌else◌, Outcome, ok, err, long_size, arith,
  Bool-cases, inl, inr,
}
use simq.Wire.Codes.{max_remaining_length}
use simq.Wire.VarInt.{value, uvarint, put_uvarint}
use simq.Wire.VarInt.Laws.{groups, put_uvarint-groups, put_uvarint-lb_encode}
use simq.Buffer.{Buffer, returned, Call}
use simq.Buffer.Invariant.{contents}
use simq.Buffer.Run.{IsOpen, touched}
use simq.Framing.{size_rounds, peek_message_size, total_of, then_ok}
use simq.Framing.Size.{Looks, AllMarked, rounds_stop, rounds_fail, append-snoc}

-- What `k` more bytes have room for.
abbrev bound : ℕ → ℕ
bound zero = 128
bound (suc k) = 128 * bound k

-- Marked bytes and one that is not.
groups_shape :
    (k x : ℕ)
    → x < bound k
    → (ms : List ℕ) × (l : ℕ) × (groups k x ≡ ms ++ (l ∷ []))
      × AllMarked ms
      × (l < 128)
      × (length ms ≤ k)
unfolding groups
groups_shape zero x h = ([], x, refl, tt, h, omega arith)
groups_shape (suc k) x h = elim (Bool-cases (ltb x 128)) [
  | inl t ↦ ([], x, ground (arith, t), tt, ground arith, omega arith)
  | inr t ↦
      let (ms, l, e, marked, low, short) = groups_shape k (x / 128) (omega arith) in
      (
        (x % 128 + 128) ∷ ms,
        l,
        ap (λ z. if z then x ∷ [] else (x % 128 + 128) ∷ groups k (x / 128)) t
            ∙ ap (λ ys. (x % 128 + 128) ∷ ys) e,
        (omega arith, marked),
        low,
        omega arith,
      )
]

Looks-then :
    (b : Buffer) (p : List ℕ) (n : ℕ) (r : Call (Outcome (List ℕ)))
    → uvarint (drop 1 p) ≡ value n (length (drop 1 p))
    → Looks {A = Outcome (List ℕ)} b (ok p) r
    → Looks {A = Outcome (ℕ × ℕ)} b
        (ok (get_or p 0 0 / 16, n + 1 + length (drop 1 p)))
        (then_ok r (λ b' p. (b', returned (ok (get_or p 0 0 / 16, total_of (uvarint (drop 1 p)))))))
Looks-then b p n r u (t, f) = (
  t,
  ap
        (λ r.
          then_ok r
            (λ b' p. (b', returned (ok (get_or p 0 0 / 16, total_of (uvarint (drop 1 p)))))))
        f
      ∙ ap (λ v. (touched b t b.cwait b.pwait, returned (ok (get_or p 0 0 / 16, total_of v)))) u,
)

-- On a ring that begins with a type byte and a remaining length, `peekMessageSize` takes nothing off
-- and finds the type and the length of the packet, whether the rest of it is there or not.
pub peek_message_size_lem :
    (b : Buffer) (first n : ℕ) (rest : List ℕ)
    → IsOpen b
    → n ≤ max_remaining_length
    → contents b ≡ first ∷ (put_uvarint n ++ rest)
    → Looks b (ok (first / 16, n + 1 + length (put_uvarint n))) (peek_message_size b)
unfolding peek_message_size
peek_message_size_lem b first n rest o h e =
    let (ms, l, g, marked, low, short) = groups_shape 3 n (omega arith) in
    let q : put_uvarint n ≡ ms ++ (l ∷ []) = put_uvarint-groups n h ∙ g in
    let (same, u) = put_uvarint-lb_encode n [] h in
    Looks-then b (first ∷ put_uvarint n) n (size_rounds 4 b 2)
      (ap uvarint (sym (append-nil (put_uvarint n))) ∙ u)
      (subst (λ xs. Looks b (ok (first ∷ xs)) (size_rounds 4 b 2)) (sym q)
        (rounds_stop 4 ms b (first ∷ []) rest l o marked low (omega arith) (
          e
          ∙ ap (λ xs. first ∷ (xs ++ rest)) q
          ∙ ap (λ xs. first ∷ xs) (sym (append-snoc ms rest l)))))

-- Four bytes with the continuation bit behind the type are refused, and taken off by no one.
pub peek_message_size-long :
    (b : Buffer) (first w x y z : ℕ) (rest : List ℕ)
    → IsOpen b
    → AllMarked (w ∷ x ∷ y ∷ z ∷ [])
    → contents b ≡ first ∷ w ∷ x ∷ y ∷ z ∷ rest
    → Looks b (err long_size) (peek_message_size b)
unfolding peek_message_size
peek_message_size-long b first w x y z rest o marked e =
    let (t, f) = rounds_fail (w ∷ x ∷ y ∷ z ∷ []) b (first ∷ []) rest o marked e in
    (
      t,
      ap
          (λ r.
            then_ok r
              (λ b' p. (b', returned (ok (get_or p 0 0 / 16, total_of (uvarint (drop 1 p)))))))
          f,
    )
