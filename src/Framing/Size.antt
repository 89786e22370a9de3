-- ===== src/Framing/Size.antt =====
-- What `peekMessageSize` makes of the bytes in front of a ring.
use simq.Base.{
  ℕ, zero, suc, ◌+◌, ◌-◌, ◌≤◌, ◌<◌, ◌≡◌, refl, sym, ap, ap₂, ◌∙◌, true, false, List, [], ◌∷◌, ◌++◌,
  ltb, leb, length, length-append, take, get_or, if◌then◌else◌, Outcome, ok, err, long_size, arith,
}
use simq.Buffer.{Buffer, returned, waits, Call, then_call, read_wait, len}
use simq.Buffer.Invariant.{contents, length-contents}
use simq.Buffer.Reads.{read_wait_lem, take-append_left}
use simq.Buffer.Run.{IsOpen, touched, touched-IsOpen, keep_tmp-touched}
use simq.Framing.{size_rounds}

-- A call that takes nothing off and returns `a`.
abbrev pub Looks : {A : Type 0} → Buffer → A → Call A → Type 0
Looks b a r = (t : List ℕ) × (r ≡ (touched b t b.cwait b.pwait, returned a))

pub Looks-read_wait :
    (b : Buffer) (p rest : List ℕ)
    → IsOpen b
    → contents b ≡ p ++ rest
    → Looks b p (read_wait b (length p))
Looks-read_wait b p rest o e =
    let (t, f) = keep_tmp-touched b (length p) in
    let l : length p ≤ len b =
      omega (arith, length-contents b, ap length e, length-append p rest) in
    (
      t,
      read_wait_lem b o.valid (length p) l o.cfree
          ∙ ap₂ (λ z xs. (z, returned xs)) f
              (ap (take (length p)) e ∙ take-append_left p rest (length p) refl),
    )

get_or-last : (xs : List ℕ) (m : ℕ) → get_or (xs ++ (m ∷ [])) (length xs) 0 ≡ m
get_or-last [] m = refl
get_or-last (x ∷ xs) m = get_or-last xs m

-- Bytes with the continuation bit.
abbrev pub AllMarked : List ℕ → Type 0
AllMarked [] = Unit {0}
AllMarked (m ∷ ms) = (128 ≤ m) × AllMarked ms

-- A round on the bytes `pre` and `m`.
abbrev judge : ℕ → Buffer → ℕ → Buffer → List ℕ → Call (Outcome (List ℕ))
judge left b cnt b' p =
    let more = size_rounds left b' (cnt + 1) in
    if ltb (length p) cnt
    then (b', waits)
    else (if leb 128 (get_or p (cnt - 1) 0) then more else (b', returned (ok p)))

round_lem :
    (left : ℕ) (b : Buffer) (pre rest : List ℕ) (m : ℕ)
    → IsOpen b
    → contents b ≡ (pre ++ (m ∷ [])) ++ rest
    → (t : List ℕ) × (size_rounds (suc left) b (length pre + 1) ≡ (
        if leb 128 m
        then size_rounds left (touched b t b.cwait b.pwait) (length pre + 1 + 1)
        else (touched b t b.cwait b.pwait, returned (ok (pre ++ (m ∷ []))))))
unfolding size_rounds
round_lem left b pre rest m o e =
    let p = pre ++ (m ∷ []) in
    let (t, f) = Looks-read_wait b p rest o e in
    let n : length p ≡ length pre + 1 = length-append pre (m ∷ []) in
    let b' = touched b t b.cwait b.pwait in
    let enough : ltb (length p) (length pre + 1) ≡ false = ground arith in
    let last : get_or p (length pre + 1 - 1) 0 ≡ m =
      ap (λ i. get_or p i 0) {y = length pre} (omega arith) ∙ get_or-last pre m in
    (
      t,
      ap (λ r. then_call r (judge left b (length pre + 1))) (ap (read_wait b) (sym n) ∙ f)
          ∙ ap
              (λ z.
                if z
                then (b', waits)
                else (if leb 128 (get_or p (length pre + 1 - 1) 0)
                    then size_rounds left b' (length pre + 1 + 1)
                    else (b', returned (ok p))))
              enough
          ∙ ap
              (λ k.
                if leb 128 k
                then size_rounds left b' (length pre + 1 + 1)
                else (b', returned (ok p)))
              last,
    )

pub append-snoc : (xs ys : List ℕ) (y : ℕ) → xs ++ (y ∷ ys) ≡ (xs ++ (y ∷ [])) ++ ys
append-snoc [] ys y = refl
append-snoc (x ∷ xs) ys y = ap (λ zs. x ∷ zs) (append-snoc xs ys y)

length-snoc : (xs : List ℕ) (y : ℕ) → length (xs ++ (y ∷ [])) ≡ length xs + 1
length-snoc xs y = length-append xs (y ∷ [])

-- The loop stops at the first byte without the bit.
pub rounds_stop :
    (left : ℕ) (ms : List ℕ) (b : Buffer) (pre rest : List ℕ) (l : ℕ)
    → IsOpen b
    → AllMarked ms
    → l < 128
    → length ms < left
    → contents b ≡ pre ++ (ms ++ (l ∷ rest))
    → Looks b (ok (pre ++ (ms ++ (l ∷ [])))) (size_rounds left b (length pre + 1))
rounds_stop zero ms b pre rest l o marked low short e = absurd (omega arith)
rounds_stop (suc left) [] b pre rest l o marked low short e =
    let (t, f) = round_lem left b pre rest l o (e ∙ append-snoc pre rest l) in
    let stop : leb 128 l ≡ false = ground arith in
    (
      t,
      f
          ∙ ap
              (λ z.
                if z
                then size_rounds left (touched b t b.cwait b.pwait) (length pre + 1 + 1)
                else (touched b t b.cwait b.pwait, returned (ok (pre ++ (l ∷ [])))))
              stop,
    )
rounds_stop (suc left) (m ∷ ms) b pre rest l o (high, marked) low short e =
    let (t, f) =
      round_lem left b pre (ms ++ (l ∷ rest)) m o (e ∙ append-snoc pre (ms ++ (l ∷ rest)) m) in
    let go : leb 128 m ≡ true = ground arith in
    let b' = touched b t b.cwait b.pwait in
    let (t', f') =
      rounds_stop left ms b' (pre ++ (m ∷ [])) rest l (touched-IsOpen b t b.cwait b.pwait o) marked
        low (omega arith) (e ∙ append-snoc pre (ms ++ (l ∷ rest)) m) in
    (
      t',
      f
          ∙ ap
              (λ z.
                if z
                then size_rounds left b' (length pre + 1 + 1)
                else (b', returned (ok (pre ++ (m ∷ [])))))
              go
          ∙ ap (λ k. size_rounds left b' (k + 1)) (sym (length-snoc pre m))
          ∙ f'
          ∙ ap (λ xs. (touched b t' b.cwait b.pwait, returned (ok xs)))
              (sym (append-snoc pre (ms ++ (l ∷ [])) m)),
    )

-- It gives up when all the bytes that it may look at have the bit.
pub rounds_fail :
    (ms : List ℕ) (b : Buffer) (pre rest : List ℕ)
    → IsOpen b
    → AllMarked ms
    → contents b ≡ pre ++ (ms ++ rest)
    → Looks b (err long_size) (size_rounds (length ms) b (length pre + 1))
rounds_fail [] b pre rest o marked e = (b.tmp, unfold size_rounds in refl)
rounds_fail (m ∷ ms) b pre rest o (high, marked) e =
    let (t, f) =
      round_lem (length ms) b pre (ms ++ rest) m o (e ∙ append-snoc pre (ms ++ rest) m) in
    let go : leb 128 m ≡ true = ground arith in
    let b' = touched b t b.cwait b.pwait in
    let (t', f') =
      rounds_fail ms b' (pre ++ (m ∷ [])) rest (touched-IsOpen b t b.cwait b.pwait o) marked
        (e ∙ append-snoc pre (ms ++ rest) m) in
    (
      t',
      f
          ∙ ap
              (λ z.
                if z
                then size_rounds (length ms) b' (length pre + 1 + 1)
                else (b', returned (ok (pre ++ (m ∷ [])))))
              go
          ∙ ap (λ k. size_rounds (length ms) b' (k + 1)) (sym (length-snoc pre m))
          ∙ f',
    )
