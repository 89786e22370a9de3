-- ===== src/Wire/Strings/Errors.antt =====
-- What `readLPBytes` does at the end of its input.
use simq.Base.{
  ℕ, zero, suc, ◌+◌, ◌-◌, ◌*◌, ◌≤◌, ◌<◌, ◌≡◌, refl, ap, List, [], ◌∷◌, ◌++◌, length, take, ltb, leb,
  arith, if◌then◌else◌, ok, err, panic, invalid_message,
}
use simq.Wire.Slice.{at, sub, copy_len}
use simq.Wire.Strings.{read_lp_bytes}

take-take : (n : ℕ) (xs : List ℕ) → take n (take n xs) ≡ take n xs
take-take zero xs = refl
take-take (suc n) [] = refl
take-take (suc n) (x ∷ xs) = ap (λ ys. x ∷ ys) (take-take n xs)

-- `readLPBytes` on every input of two bytes and more: it answers an error only where the length is
-- above that of the whole input. Else it takes as many bytes, from behind the slice too, and
-- panics where the array ends before.
pub read_lp_bytes_cases :
    (hi lo : ℕ) (b spare : List ℕ)
    → read_lp_bytes (record { bytes = hi ∷ lo ∷ b; spare = spare }) ≡ (
        if ltb (2 + length b) (hi * 256 + lo)
        then err invalid_message
        else (if leb (hi * 256 + lo) (length b + length spare)
            then ok (take (hi * 256 + lo) (b ++ spare), 2 + (hi * 256 + lo))
            else panic))
unfolding read_lp_bytes at sub copy_len
read_lp_bytes_cases hi lo b spare =
    let n = hi * 256 + lo in
    let e : take (2 + n - 2) (b ++ spare) ≡ take n (b ++ spare) =
      ap (λ k. take k (b ++ spare)) (omega arith) in
    ground (arith, e, take-take n (b ++ spare))

-- A length that is one or two bytes too long for the input is no error: the bytes behind the slice
-- are taken in.
pub read_lp_bytes-overrun :
    (hi lo : ℕ) (b spare : List ℕ)
    → length b < hi * 256 + lo
    → hi * 256 + lo ≤ 2 + length b
    → 2 ≤ length spare
    → read_lp_bytes (record { bytes = hi ∷ lo ∷ b; spare = spare })
      ≡ ok (take (hi * 256 + lo) (b ++ spare), 2 + (hi * 256 + lo))
read_lp_bytes-overrun hi lo b spare h k s = ground (arith, read_lp_bytes_cases hi lo b spare)
