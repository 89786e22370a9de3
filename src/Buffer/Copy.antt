-- ===== src/Buffer/Copy.antt =====
-- `ringCopy` writes byte after byte round the ring.
use simq.Base.{
  ℕ, zero, suc, ◌+◌, ◌-◌, ◌%◌, ◌≤◌, ◌<◌, ◌≡◌, refl, sym, ap, ap₂, ◌∙◌, List, [], ◌∷◌, ◌++◌,
  append_assoc, append-nil, min, length, length-set, length-append, length-take, length-drop,
  take-append-drop, set, take, drop, arith, inl, inr, ◌⊎◌,
}
use simq.Base.Window.{window, window-push, wrap_next}
use simq.Buffer.{copy_at, ring_copy}
use native.Mathlib.Nat.{mod-eq_of_lt, mod_self}
use native.Mathlib.Decide.{dec_le}

-- The bytes of `xs` put into the ring one by one.
unfoldable pub put_all : ℕ → List ℕ → List ℕ → ℕ → List ℕ
put_all size ring [] i = ring
put_all size ring (x ∷ xs) i = put_all size (set ring i x) xs ((i + 1) % size)

pub length-put_all :
    (size : ℕ) (ring xs : List ℕ) (i : ℕ) → length (put_all size ring xs i) ≡ length ring
unfolding put_all
length-put_all size ring [] i = refl
length-put_all size ring (x ∷ xs) i =
    length-put_all size (set ring i x) xs ((i + 1) % size) ∙ length-set ring i x

-- Bytes that are put just past a window make it longer.
pub window-put_all :
    (size : ℕ) (ring xs : List ℕ) (h n : ℕ)
    → size ≤ length ring
    → h < size
    → n + length xs ≤ size
    → window 0 size (put_all size ring xs ((h + n) % size)) h (n + length xs)
      ≡ window 0 size ring h n ++ xs
unfolding put_all
window-put_all size ring [] h n a p b =
    ap (window 0 size ring h) {y = n} (omega arith) ∙ sym (append-nil (window 0 size ring h n))
window-put_all size ring (x ∷ xs) h n a p b =
    let ring' = set ring ((h + n) % size) x in
    ap (λ i. window 0 size (put_all size ring' xs i) h (n + suc (length xs))) (wrap_next size h n)
    ∙ ap (window 0 size (put_all size ring' xs ((h + (n + 1)) % size)) h) {y = n + 1 + length xs}
        (omega arith)
    ∙ window-put_all size ring' xs h (n + 1) (omega (arith, length-set ring ((h + n) % size) x)) p
        (omega arith)
    ∙ ap (λ zs. zs ++ xs) (window-push 0 size ring x h n a p (omega arith))
    ∙ append_assoc (window 0 size ring h n) (x ∷ []) xs

-- `src` in the place of as many bytes of `dst`.
splice : List ℕ → ℕ → List ℕ → List ℕ
splice dst zero src = src ++ drop (length src) dst
splice [] (suc s) src = src
splice (y ∷ dst) (suc s) src = y ∷ splice dst s src

length-splice :
    (dst : List ℕ) (s : ℕ) (src : List ℕ)
    → s + length src ≤ length dst
    → length (splice dst s src) ≡ length dst
unfolding splice
length-splice dst zero src h =
    length-append src (drop (length src) dst) ∙ omega (arith, length-drop (length src) dst)
length-splice [] (suc s) src h = absurd (omega arith)
length-splice (y ∷ dst) (suc s) src h = ap suc (length-splice dst s src (omega arith))

pub take-all : (n : ℕ) (xs : List ℕ) → length xs ≤ n → take n xs ≡ xs
take-all zero [] h = refl
take-all zero (x ∷ xs) h = absurd (omega arith)
take-all (suc n) [] h = refl
take-all (suc n) (x ∷ xs) h = ap (λ zs. x ∷ zs) (take-all n xs (omega arith))

pub drop-all : (n : ℕ) (xs : List ℕ) → length xs ≤ n → drop n xs ≡ []
drop-all zero [] h = refl
drop-all zero (x ∷ xs) h = absurd (omega arith)
drop-all (suc n) [] h = refl
drop-all (suc n) (x ∷ xs) h = drop-all n xs (omega arith)

drop-cons : (y : ℕ) (dst : List ℕ) (n : ℕ) {k : ℕ} → k ≡ suc n → drop k (y ∷ dst) ≡ drop n dst
drop-cons y dst n e = ap (λ k. drop k (y ∷ dst)) e

fitting :
    (dst src : List ℕ)
    → take (length dst) src ++ drop (length src) dst
      ≡ take (min (length dst) (length src)) src
        ++ drop (length (take (min (length dst) (length src)) src)) dst
fitting dst src = elim (dec_le (length src) (length dst)) [
  | yes fits ↦
      let m : min (length dst) (length src) ≡ length src = omega arith in
      ap₂ ◌++◌ (take-all (length dst) src fits) refl
      ∙ sym (
          ap (λ k. take k src ++ drop (length (take k src)) dst) m
          ∙ ap (λ zs. zs ++ drop (length zs) dst) (take-all (length src) src (omega arith)))
  | no more ↦
      let m : min (length dst) (length src) ≡ length dst = omega arith in
      ap (λ zs. take (length dst) src ++ zs)
        (drop-all (length src) dst (omega arith)
          ∙ sym (
              drop-all (length (take (length dst) src)) dst
                (omega (arith, length-take (length dst) src))))
      ∙ sym (ap (λ k. take k src ++ drop (length (take k src)) dst) m)
]

-- Copying takes what fits.
copy_at-splice :
    (dst : List ℕ) (s : ℕ) (src : List ℕ)
    → s ≤ length dst
    → copy_at dst s src ≡ splice dst s (take (min (length dst - s) (length src)) src)
unfolding splice
copy_at-splice dst zero src h =
    ap (λ k. take k src ++ drop (0 + length src) dst) {y = length dst} (omega arith)
    ∙ ap (λ k. take (length dst) src ++ drop k dst) {y = length src} (omega arith)
    ∙ fitting dst src
    ∙ ap (λ k. take (min k (length src)) src ++ drop (length (take (min k (length src)) src)) dst)
        {x = length dst} (omega arith)
copy_at-splice [] (suc s) src h = absurd (omega arith)
copy_at-splice (y ∷ dst) (suc s) src h =
    ap (λ zs. y ∷ zs)
      (ap (λ k. take s dst ++ (take k src ++ drop (suc s + length src) (y ∷ dst)))
          {y = length dst - s} (omega arith)
        ∙ ap (λ zs. take s dst ++ (take (length dst - s) src ++ zs))
            (drop-cons y dst (s + length src) (omega arith))
        ∙ copy_at-splice dst s src (omega arith)
        ∙ ap (λ k. splice dst s (take (min k (length src)) src)) (omega arith))

splice-nil : (dst : List ℕ) (s : ℕ) → splice dst s [] ≡ dst
unfolding splice
splice-nil dst zero = refl
splice-nil [] (suc s) = refl
splice-nil (y ∷ dst) (suc s) = ap (λ zs. y ∷ zs) (splice-nil dst s)

splice-cons :
    (dst : List ℕ) (s x : ℕ) (src : List ℕ)
    → s < length dst
    → splice (set dst s x) (suc s) src ≡ splice dst s (x ∷ src)
unfolding splice
splice-cons [] s x src h = absurd (omega arith)
splice-cons (y ∷ dst) zero x src h = refl
splice-cons (y ∷ dst) (suc s) x src h = ap (λ zs. y ∷ zs) (splice-cons dst s x src (omega arith))

put_all-splice :
    (size : ℕ) (dst a b : List ℕ) (s : ℕ)
    → length dst ≡ size
    → s + length a ≤ size
    → s < size
    → put_all size dst (a ++ b) s ≡ put_all size (splice dst s a) b ((s + length a) % size)
unfolding put_all
put_all-splice size dst [] b s e h p =
    ap₂ (λ r i. put_all size r b i) (sym (splice-nil dst s))
      (sym (ap (λ k. k % size) {y = s} (omega arith) ∙ mod-eq_of_lt p))
put_all-splice size dst (x ∷ []) b s e h p =
    ap (λ r. put_all size r b ((s + 1) % size))
      (sym (splice-nil (set dst s x) (suc s)) ∙ splice-cons dst s x [] (omega (arith, e)))
put_all-splice size dst (x ∷ y ∷ a) b s e h p =
    ap (put_all size (set dst s x) (y ∷ (a ++ b))) {y = suc s}
      (mod-eq_of_lt (omega arith) ∙ omega arith)
    ∙ put_all-splice size (set dst s x) (y ∷ a) b (suc s) (length-set dst s x ∙ e) (omega arith)
        (omega arith)
    ∙ ap₂ (λ r i. put_all size r b i) (splice-cons dst s x (y ∷ a) (omega (arith, e)))
        (ap (λ k. k % size) {y = s + length (x ∷ y ∷ a)} (omega arith))

ring_copy-cons :
    (fuel : ℕ) (dst : List ℕ) (x : ℕ) (src : List ℕ) (s : ℕ)
    → ring_copy (suc fuel) dst (x ∷ src) s
      ≡ ring_copy fuel
          (copy_at dst s (x ∷ src))
          (drop (min (length dst - s) (length (x ∷ src))) (x ∷ src))
          0
unfolding ring_copy
ring_copy-cons fuel dst x src s = ground arith

-- Where nothing is left to put, the place does not matter.
put_all-place :
    (size : ℕ) (ring b : List ℕ) (i j : ℕ)
    → (length b ≡ 0) ⊎ (i ≡ j)
    → put_all size ring b i ≡ put_all size ring b j
unfolding put_all
put_all-place size ring [] i j h = refl
put_all-place size ring (x ∷ b) i j (inl h) = absurd (omega (arith, h))
put_all-place size ring (x ∷ b) i j (inr e) = ap (put_all size ring (x ∷ b)) e

next_place :
    (size s l la lb d n : ℕ)
    → min (d - s) n ≡ l
    → la ≡ l
    → lb ≡ n - l
    → d ≡ size
    → s < size
    → (lb ≡ 0) ⊎ (0 ≡ (s + la) % size)
next_place size s l la lb d n m a b e p = elim (dec_le n (d - s)) [
  | yes h ↦ inl (omega arith)
  | no h ↦ inr (sym (ap (λ k. k % size) {y = size} (omega arith) ∙ mod_self size))
]

-- `ringCopy` of no more bytes than the ring has: as many rounds as bytes are enough.
pub ring_copy_lem :
    (fuel size : ℕ) (dst src : List ℕ) (s : ℕ)
    → length dst ≡ size
    → length src ≤ fuel
    → length src ≤ size
    → s < size
    → ring_copy fuel dst src s ≡ put_all size dst src s
unfolding ring_copy
ring_copy_lem zero size dst [] s e f h p = unfold put_all in refl
ring_copy_lem zero size dst (x ∷ src) s e f h p = absurd (omega arith)
ring_copy_lem (suc fuel) size dst [] s e f h p = unfold put_all in refl
ring_copy_lem (suc fuel) size dst (x ∷ src) s e f h p =
    let l = min (length dst - s) (length (x ∷ src)) in
    let a = take l (x ∷ src) in
    let b = drop l (x ∷ src) in
    let next = splice dst s a in
    let la : length a ≡ l = omega (arith, length-take l (x ∷ src)) in
    let lb = length-drop l (x ∷ src) in
    let ln = length-splice dst s a (omega (arith, e)) in
    ring_copy-cons fuel dst x src s
    ∙ ap (λ d. ring_copy fuel d b 0) (copy_at-splice dst s (x ∷ src) (omega (arith, e)))
    ∙ ring_copy_lem fuel size next b 0 (ln ∙ e) (omega (arith, e)) (omega arith) (omega arith)
    ∙ put_all-place size next b 0 ((s + length a) % size)
        (next_place size s l (length a) (length b) (length dst) (length (x ∷ src)) refl la lb e p)
    ∙ sym (put_all-splice size dst a b s e (omega (arith, e)) p)
    ∙ ap (λ zs. put_all size dst zs s) (take-append-drop l (x ∷ src))

put_all-nil : (size : ℕ) (ring : List ℕ) (i : ℕ) → put_all size ring [] i ≡ ring
unfolding put_all
put_all-nil size ring i = refl

-- Bytes that fit before the end of the ring.
pub copy_at-put_all :
    (size : ℕ) (dst src : List ℕ) (s : ℕ)
    → length dst ≡ size
    → s + length src ≤ size
    → s < size
    → copy_at dst s src ≡ put_all size dst src s
copy_at-put_all size dst src s e h p =
    copy_at-splice dst s src (omega (arith, e))
    ∙ ap (λ k. splice dst s (take k src)) {y = length src} (omega (arith, e))
    ∙ ap (splice dst s) (take-all (length src) src (omega arith))
    ∙ sym (put_all-nil size (splice dst s src) ((s + length src) % size))
    ∙ sym (put_all-splice size dst src [] s e h p)
    ∙ ap (λ zs. put_all size dst zs s) (append-nil src)
