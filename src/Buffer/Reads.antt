-- ===== src/Buffer/Reads.antt =====
-- The calls of the reader, as operations on the bytes in the ring.
use simq.Base.{
  ℕ, zero, suc, ◌+◌, ◌-◌, ◌%◌, ◌≤◌, ◌<◌, ◌≡◌, refl, sym, ap, ◌∙◌, bit_and, true, false, ◌&&◌, List,
  [], ◌∷◌, ◌++◌, none, some, length, take, drop, arith, ltb, leb, ◌==◌, if◌then◌else◌, min,
  length-drop, length-take, inl, inr, Bool-cases,
}
use simq.Base.Window.{window, length-window}
use simq.Buffer.{
  Buffer, eof, insufficient_data, returned, failed, waits, locked, Call, len, peeked, keep_tmp,
  read, read_loop, read_peek, read_wait, read_commit, wake_producer,
}
use simq.Buffer.Invariant.{
  IsBuffer, contents, start_in, mask_lem, length-contents, take-window, peeked_lem, advanced,
  advanced-IsBuffer, contents-advanced,
}
use simq.Buffer.Copy.{take-all}
use native.Mathlib.Decide.{dec_lt}

pub length-take_of_le : (m : ℕ) (xs : List ℕ) → m ≤ length xs → length (take m xs) ≡ m
length-take_of_le m xs h = omega (arith, length-take m xs)

pub take-append_left : (xs ys : List ℕ) (m : ℕ) → length xs ≡ m → take m (xs ++ ys) ≡ xs
take-append_left [] ys zero h = refl
take-append_left [] ys (suc m) h = absurd (omega arith)
take-append_left (x ∷ xs) ys zero h = absurd (omega arith)
take-append_left (x ∷ xs) ys (suc m) h = ap (λ zs. x ∷ zs) (take-append_left xs ys m (omega arith))

pub drop-append_left : (xs ys : List ℕ) (m : ℕ) → length xs ≡ m → drop m (xs ++ ys) ≡ ys
drop-append_left [] ys zero h = refl
drop-append_left [] ys (suc m) h = absurd (omega arith)
drop-append_left (x ∷ xs) ys zero h = absurd (omega arith)
drop-append_left (x ∷ xs) ys (suc m) h = drop-append_left xs ys m (omega arith)

module _ (b : Buffer) (v : IsBuffer b) where
  -- The oldest bytes and the rest.
  pub contents_front :
      (m : ℕ) → m ≤ len b → take m (contents b) ≡ window 0 b.size b.buf (b.cpos % b.size) m
  contents_front m h =
      ap (take m) (contents-advanced b m v h)
      ∙ take-append_left (window 0 b.size b.buf (b.cpos % b.size) m) (contents (advanced b m)) m
          (length-window 0 b.size b.buf (b.cpos % b.size) m)

  pub contents_rest : (m : ℕ) → m ≤ len b → contents (advanced b m) ≡ drop m (contents b)
  contents_rest m h = sym (
      ap (drop m) (contents-advanced b m v h)
      ∙ drop-append_left (window 0 b.size b.buf (b.cpos % b.size) m) (contents (advanced b m)) m
          (length-window 0 b.size b.buf (b.cpos % b.size) m))

  pub peeked-contents : (m : ℕ) → m ≤ len b → peeked b m ≡ take m (contents b)
  peeked-contents m h =
      peeked_lem b m v (omega (arith, v.ppos_le, v.cpos_le)) ∙ sym (contents_front m h)

  -- The bytes up to the end of the ring, of which `Read` takes some.
  front_lem :
      (m : ℕ)
      → m ≤ len b
      → b.cpos % b.size + m ≤ b.size
      → take m (drop (b.cpos % b.size) b.buf) ≡ take m (contents b)
  front_lem m h f =
      take-window b.size b.buf (b.cpos % b.size) m v.buf_eq (start_in b b.cpos v) f
      ∙ sym (contents_front m h)

-- What `Read` into `n` bytes takes: up to the end of the ring at most.
abbrev pub read_length : Buffer → ℕ → ℕ
read_length b n = min (min n (len b)) (b.size - b.cpos % b.size)

-- The call takes the oldest `m` bytes off.
abbrev pub Takes : Buffer → ℕ → Call (List ℕ) → Type 0
Takes b m r =
    (r ≡ (advanced b m, returned (take m (contents b))))
    × IsBuffer (advanced b m)
    × (contents (advanced b m) ≡ drop m (contents b))

take-min : (n : ℕ) (xs : List ℕ) {k : ℕ} → length xs ≡ k → take n xs ≡ take (min n k) xs
take-min zero xs e = ap (λ j. take j xs) {x = 0} (omega arith)
take-min (suc n) [] {k} e = sym (take-nil (min (suc n) k))
  where
    take-nil : (j : ℕ) → take {A = ℕ} j [] ≡ []
    take-nil zero = refl
    take-nil (suc j) = refl
take-min (suc n) (x ∷ xs) {k} e =
    ap (λ zs. x ∷ zs) (take-min n xs {k = k - 1} (omega (arith, e)))
    ∙ ap (λ j. take j (x ∷ xs)) {x = suc (min n (k - 1))} (omega (arith, e))

module _ (b : Buffer) (v : IsBuffer b) where
  length-front : length (drop (b.cpos % b.size) b.buf) ≡ b.size - b.cpos % b.size
  length-front = omega (arith, length-drop (b.cpos % b.size) b.buf, v.buf_eq)

  read_all :
      (n : ℕ)
      → n < len b
      → take n (drop (bit_and b.cpos b.mask) b.buf) ≡ take (read_length b n) (contents b)
  read_all n l =
      ap (λ i. take n (drop i b.buf)) (mask_lem b b.cpos v)
      ∙ take-min n (drop (b.cpos % b.size) b.buf) length-front
      ∙ ap (λ k. take k (drop (b.cpos % b.size) b.buf)) {y = read_length b n} (omega arith)
      ∙ front_lem b v (read_length b n) (omega arith) (omega (arith, start_in b b.cpos v))

  read_short :
      (n : ℕ)
      → len b ≤ n
      → take n (
          if ltb (bit_and b.cpos b.mask + (b.ppos - b.cpos)) b.size
          then take (b.ppos - b.cpos) (drop (bit_and b.cpos b.mask) b.buf)
          else drop (bit_and b.cpos b.mask) b.buf)
        ≡ take (read_length b n) (contents b)
  read_short n l =
      rw (mask_lem b b.cpos v) (elim (Bool-cases (ltb (b.cpos % b.size + len b) b.size)) [
        | inl t ↦
            let fits : b.cpos % b.size + len b < b.size = ground arith in
            rw t (
              take-all n (take (len b) (drop (b.cpos % b.size) b.buf))
                (omega (arith, length-take (len b) (drop (b.cpos % b.size) b.buf)))
              ∙ ap (λ k. take k (drop (b.cpos % b.size) b.buf)) {y = read_length b n} (omega arith)
              ∙ front_lem b v (read_length b n) (omega arith) (omega (arith, start_in b b.cpos v)))
        | inr f ↦
            let past : b.size ≤ b.cpos % b.size + len b = ground arith in
            rw f (
              take-min n (drop (b.cpos % b.size) b.buf) length-front
              ∙ ap (λ k. take k (drop (b.cpos % b.size) b.buf)) {y = read_length b n}
                  (omega (arith, start_in b b.cpos v))
              ∙ front_lem b v (read_length b n) (omega arith) (omega (arith, start_in b b.cpos v)))
      ])

  taken :
      (zs : List ℕ) (m : ℕ)
      → b.pheld ≡ false
      → m ≤ len b
      → zs ≡ take m (contents b)
      → Takes b m (wake_producer (record b { cpos = b.cpos + length zs }) zs)
  taken zs m free l e =
      let lz : length zs ≡ m =
        ap length e ∙ length-take_of_le m (contents b) (omega (arith, length-contents b)) in
      (
        ap (λ k. wake_producer (record b { cpos = b.cpos + k }) zs) lz
            ∙ ap (λ h. if h then (advanced b m, locked) else (advanced b m, returned zs)) free
            ∙ ap (λ ys. (advanced b m, returned ys)) e,
        advanced-IsBuffer b m v l,
        contents_rest b v m l,
      )

  pub read_loop_lem :
      (n : ℕ) → b.pheld ≡ false → 0 < len b → Takes b (read_length b n) (read_loop b n)
  unfolding read_loop
  read_loop_lem n free some_data = elim (dec_lt n (len b)) [
    | yes l ↦
        let t : ltb (b.cpos + n) b.ppos ≡ true = ground arith in
        rw t (taken _ (read_length b n) free (omega arith) (read_all n l))
    | no l ↦
        let f : ltb (b.cpos + n) b.ppos ≡ false = ground arith in
        let t : ltb b.cpos b.ppos ≡ true = ground arith in
        rw (f, t) (taken _ (read_length b n) free (omega arith) (read_short n (omega arith)))
  ]

-- `Read` of an empty ring.
pub read-empty :
    (b : Buffer) (n : ℕ)
    → len b ≡ 0
    → b.cheld ≡ false
    → read b n ≡ (if b.done then (b, failed eof) else (record b { cwait = b.cwait + 1 }, waits))
unfolding read read_loop
read-empty b n e free = ground arith

-- `Read` into `n` bytes of a ring that has some returns the oldest ones, no more than `n` and none
-- past the end of the ring, and leaves the others.
pub read_lem :
    (b : Buffer) (n : ℕ)
    → IsBuffer b
    → b.pheld ≡ false
    → 0 < len b
    → Takes b (read_length b n) (read b n)
unfolding read
read_lem b n v free some_data =
    let f : (b.done && (len b == 0)) ≡ false = ground arith in
    rw f (read_loop_lem b v n free some_data)

module _ (b : Buffer) (v : IsBuffer b) where
  pub read_peek_lem :
      (n : ℕ)
      → n ≤ b.size
      → b.cheld ≡ false
      → 0 < len b
      → read_peek b n ≡ (
        keep_tmp b (min n (len b)),
        returned (take n (contents b), if leb n (len b) then none else some insufficient_data),
      )
  unfolding read_peek
  read_peek_lem n h free some_data =
      let f : ltb b.size n ≡ false = ground arith in
      let g : leb b.ppos b.cpos ≡ false = ground arith in
      elim (Bool-cases (leb n (len b))) [
        | inl t ↦
            let l : n ≤ len b = ground arith in
            let m : min n (len b) ≡ n = omega arith in
            simp (f, g, free, t, m)
              (ap (λ xs. (keep_tmp b n, returned (xs, none))) (peeked-contents b v n l))
        | inr t ↦
            let l : len b ≤ n = ground arith in
            let m : min n (len b) ≡ len b = omega arith in
            simp (f, g, free, t, m)
              (ap (λ xs. (keep_tmp b (len b), returned (xs, some insufficient_data)))
                (peeked-contents b v (len b) (omega arith)
                  ∙ take-all (len b) (contents b) (omega (arith, length-contents b))
                  ∙ sym (take-all n (contents b) (omega (arith, length-contents b)))))
      ]

  pub read_wait_lem :
      (n : ℕ)
      → n ≤ len b
      → b.cheld ≡ false
      → read_wait b n ≡ (keep_tmp b n, returned (take n (contents b)))
  unfolding read_wait
  read_wait_lem n h free =
      let f : ltb b.size n ≡ false = ground (arith, v.ppos_le) in
      let g : ltb b.ppos (b.cpos + n) ≡ false = ground (arith, v.cpos_le) in
      simp (f, g, free) (ap (λ xs. (keep_tmp b n, returned xs)) (peeked-contents b v n h))

  pub read_commit_lem :
      (n : ℕ) → n ≤ len b → b.pheld ≡ false → read_commit b n ≡ (advanced b n, returned n)
  unfolding read_commit
  read_commit_lem n h free = ground (arith, v.ppos_le, v.cpos_le)
