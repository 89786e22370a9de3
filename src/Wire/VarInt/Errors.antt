-- ===== src/Wire/VarInt/Errors.antt =====
-- Where `lbEncode` and `lbDecode` fail.
use simq.Base.{
  ℕ, ◌+◌, ◌*◌, ◌≤◌, ◌<◌, ◌≡◌, refl, bit_and, Bool, true, false, List, [], ◌∷◌, length, ltb, ◌==◌,
  if◌then◌else◌, arith, Outcome, ok, err, panic, stuck, malformed_integer,
}
use simq.Base.Bits.{and_127, and_128}
use simq.Wire.Codes.{IsByte, IsU32, max_remaining_length}
use simq.Wire.VarInt.{put_byte, lb_encode_loop, lb_encode, lb_decode_loop, lb_decode}

-- `lbEncode` panics on every `uint32` that needs a fifth byte.
pub lb_encode-panic : (x : ℕ) → max_remaining_length < x → IsU32 x → lb_encode x ≡ panic
unfolding lb_encode lb_encode_loop put_byte
lb_encode-panic x h u = ground arith

abbrev pub AllBytes : List ℕ → Type 0
AllBytes [] = Unit {0}
AllBytes (b ∷ bs) = IsByte b × AllBytes bs

-- All bytes have the top bit set.
abbrev pub AllMarked : List ℕ → Type 0
AllMarked [] = Unit {0}
AllMarked (b ∷ bs) = (128 ≤ b) × (b < 256) × AllMarked bs

-- `lbDecode` panics on an encoding that is cut off: one to four bytes, each with the top bit set.
pub lb_decode-panic :
    (b : ℕ) (bs : List ℕ) → AllMarked (b ∷ bs) → length bs ≤ 3 → lb_decode (b ∷ bs) ≡ panic
unfolding lb_decode lb_decode_loop
lb_decode-panic a [] m h = ground (arith, and_128 a)
lb_decode-panic a (b ∷ []) m h = ground (arith, and_128 a, and_128 b)
lb_decode-panic a (b ∷ c ∷ []) m h = ground (arith, and_128 a, and_128 b, and_128 c)
lb_decode-panic a (b ∷ c ∷ d ∷ []) m h = ground (arith, and_128 a, and_128 b, and_128 c, and_128 d)
lb_decode-panic a (b ∷ c ∷ d ∷ e ∷ bs) m h = absurd (omega arith)

bounds :
    (bs : List ℕ) {v n : ℕ}
    → AllBytes bs
    → lb_decode bs ≡ ok (v, n)
    → (v ≤ max_remaining_length) × (n ≤ 4) × (n ≤ length bs)
unfolding lb_decode lb_decode_loop
bounds [] h e = ground arith
bounds (a ∷ []) h e = ground (arith, and_127 a)
bounds (a ∷ b ∷ []) h e = ground (arith, and_127 a, and_127 b)
bounds (a ∷ b ∷ c ∷ []) h e = ground (arith, and_127 a, and_127 b, and_127 c)
bounds (a ∷ b ∷ c ∷ d ∷ []) h e = ground (arith, and_127 a, and_127 b, and_127 c, and_127 d)
bounds (a ∷ b ∷ c ∷ d ∷ x ∷ rest) h e = ground (arith, and_127 a, and_127 b, and_127 c, and_127 d)

-- A call that ends: a value of at most 28 bits that takes at most four bytes of the input, the error
-- of a malformed integer, or a panic.
abbrev pub EndsWithin : List ℕ → Outcome (ℕ × ℕ) → Type 0
EndsWithin bs (ok (v, n)) = (v ≤ max_remaining_length) × (n ≤ 4) × (n ≤ length bs)
EndsWithin bs (err e) = e ≡ malformed_integer
EndsWithin bs panic = Unit {0}
EndsWithin bs stuck = ⊥

-- How the loop ends, apart from the value.
abbrev Ends : Outcome (ℕ × ℕ) → Type 0
Ends (ok r) = Unit {0}
Ends (err e) = e ≡ malformed_integer
Ends panic = Unit {0}
Ends stuck = ⊥

Ends-if : (b : Bool) (x y : Outcome (ℕ × ℕ)) → Ends x → Ends y → Ends (if b then x else y)
Ends-if true x y h h' = h
Ends-if false x y h h' = h'

loop-Ends : (bs : List ℕ) (ec v mu i : ℕ) → Ends (lb_decode_loop bs ec v mu i)
unfolding lb_decode_loop
loop-Ends [] ec v mu i = Ends-if (bit_and ec 128 == 0) (ok (v, i)) panic tt tt
loop-Ends (b ∷ rest) ec v mu i = Ends-if (bit_and ec 128 == 0) (ok (v, i)) _ tt (
    Ends-if (ltb (128 * 128 * 128) mu) (err malformed_integer) _ refl
      (loop-Ends rest b _ _ (i + 1)))

lb_decode-Ends : (bs : List ℕ) → Ends (lb_decode bs)
unfolding lb_decode
lb_decode-Ends [] = tt
lb_decode-Ends (b ∷ rest) = loop-Ends rest b (bit_and b 127) 128 1

within :
    (bs : List ℕ) (r : Outcome (ℕ × ℕ)) → AllBytes bs → lb_decode bs ≡ r → Ends r → EndsWithin bs r
within bs (ok (v, n)) h e t = bounds bs h e
within bs (err x) h e t = t
within bs panic h e t = tt
within bs stuck h e t = t

-- On any bytes `lbDecode` ends: with a value that fits 28 bits and takes at most four bytes of its
-- input, with the error of a malformed integer, or with a panic.
pub lb_decode_bounds : (bs : List ℕ) → AllBytes bs → EndsWithin bs (lb_decode bs)
lb_decode_bounds bs h = within bs (lb_decode bs) h refl (lb_decode-Ends bs)
