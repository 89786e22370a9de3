-- ===== src/Wire/Slice.antt =====
-- Go byte slices. `spare` is what the backing array holds behind the slice: `s[i:j]` may reach
-- into it, since Go checks `j` against the capacity and not against the length.
use simq.Base.{
  ℕ, zero, suc, ◌+◌, ◌-◌, ◌≤◌, ◌≡◌, refl, ◌∙◌, sym, ap, subst, List, [], ◌∷◌, ◌++◌, arith, leb,
  length, take, drop, length-drop, length-append, if◌then◌else◌, Outcome, ok, panic,
}

pub record Slice : Type 0 where
  pub bytes : List ℕ
  pub spare : List ℕ

-- `len(s)`.
abbrev pub len : Slice → ℕ
len s = length s.bytes

-- The first element of `xs`, as `s[i]` reads it at the front of `s[i:]`.
abbrev pub first : List ℕ → Outcome ℕ
first [] = panic
first (b ∷ rest) = ok b

-- `s[i]`.
unfoldable pub at : Slice → ℕ → Outcome ℕ
at s i = first (drop i s.bytes)

-- `s[i:]`.
unfoldable pub from : Slice → ℕ → Outcome Slice
from s i = if leb i (len s) then ok (record s { bytes = drop i s.bytes }) else panic

-- `s[i:j]`, where only the bytes are used.
unfoldable pub sub : Slice → ℕ → ℕ → Outcome (List ℕ)
sub s i j =
    if leb i j
    then (if leb j (len s + length s.spare)
        then ok (take (j - i) (drop i (s.bytes ++ s.spare)))
        else panic)
    else panic

-- `CopyLen`: the first `n` bytes, or all if there are fewer.
unfoldable pub copy_len : List ℕ → ℕ → List ℕ
copy_len xs n = take n xs

-- What is left of `s` from `i` on is `rest`.
pub record Rest (s : Slice) (i : ℕ) (rest : List ℕ) : Type 0 where
  pub within : i ≤ len s
  pub left : drop i s.bytes ≡ rest

drop_nil : (n : ℕ) → drop {A = ℕ} n [] ≡ []
drop_nil zero = refl
drop_nil (suc n) = refl

drop_more : (i n : ℕ) (xs : List ℕ) → drop (i + n) xs ≡ drop n (drop i xs)
drop_more zero n xs = ap (λ k. drop k xs) (omega arith)
drop_more (suc i) n [] = drop_nil (suc i + n) ∙ sym (drop_nil n)
drop_more (suc i) n (x ∷ xs) =
    let e : suc i + n ≡ suc (i + n) = omega arith in rw e (drop_more i n xs)

-- The suffix view of a slice at its start, and after a step over `out`.
pub Rest-start : (s : Slice) → Rest s 0 s.bytes
Rest-start s = record { within = omega arith; left = refl }

drop-append : (xs ys : List ℕ) → drop (length xs) (xs ++ ys) ≡ ys
drop-append [] ys = refl
drop-append (x ∷ xs) ys = drop-append xs ys

pub Rest-step :
    {s : Slice} {i : ℕ} (out rest : List ℕ) → Rest s i (out ++ rest) → Rest s (i + length out) rest
Rest-step {s} {i} out rest r = record {
  within = omega (arith, length-drop i s.bytes, ap length r.left, length-append out rest, r.within);
  left = drop_more i (length out) s.bytes ∙ ap (drop (length out)) r.left ∙ drop-append out rest;
}

pub at-Rest : {s : Slice} {i b : ℕ} {rest : List ℕ} → Rest s i (b ∷ rest) → at s i ≡ ok b
unfolding at
at-Rest r = ap first r.left

pub at-Rest_end : {s : Slice} {i : ℕ} → Rest s i [] → at s i ≡ panic
unfolding at
at-Rest_end r = ap first r.left

pub length-Rest : {s : Slice} {i : ℕ} {rest : List ℕ} → Rest s i rest → len s ≡ i + length rest
length-Rest {s} {i} r = omega (arith, length-drop i s.bytes, ap length r.left, r.within)

pub from-Rest :
    {s : Slice} {i : ℕ} {rest : List ℕ}
    → Rest s i rest
    → from s i ≡ ok (record { bytes = rest; spare = s.spare })
unfolding from
from-Rest r = ground (arith, r.within, r.left)

-- The same view at an index that is written otherwise.
pub Rest-index : {s : Slice} {i : ℕ} (j : ℕ) {rest : List ℕ} → Rest s i rest → i ≡ j → Rest s j rest
Rest-index {s} j {rest} r e = subst (λ k. Rest s k rest) e r
