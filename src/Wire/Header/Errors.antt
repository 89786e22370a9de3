-- ===== src/Wire/Header/Errors.antt =====
-- Remaining lengths that do not come from an encoder.
use simq.Base.{
  ℕ, ◌+◌, ◌*◌, ◌/◌, ◌%◌, ◌^◌, ◌≤◌, ◌<◌, ◌≡◌, ◌≢◌, ap, ◌∙◌, bit_and, true, List, [], ◌∷◌, ◌++◌, ltb,
  length, arith, ok, err, panic, if◌then◌else◌, invalid_message,
}
use simq.Wire.Codes.{valid_type, max_remaining_length}
use simq.Wire.Slice.{sub, from, copy_len, Rest, from-Rest}
use simq.Wire.VarInt.{value, overflow, uvarint, uvarint_loop}
use simq.Wire.VarInt.Errors.{AllMarked}
use simq.Wire.Header.{Header, with_flags, type_of, decode_header, from_before}
use simq.Wire.Header.Laws.{good_flags}

-- `decode` keeps the low 32 bits of the remaining length alone: a length `v` of more than four
-- bytes is accepted as `v` mod 2^32, where that many bytes follow.
pub decode_header-truncates :
    (r : Header) (b v n : ℕ) (rest payload spare : List ℕ)
    → valid_type (b / 16) ≡ true
    → good_flags b ≡ true
    → type_of r ≡ b / 16
    → uvarint rest ≡ value v n
    → v ≢ 0
    → v % 2 ^ 32 ≤ max_remaining_length
    → Rest (record { bytes = b ∷ rest; spare = spare }) (1 + n) payload
    → v % 2 ^ 32 ≤ length payload
    → decode_header r (record { bytes = b ∷ rest; spare = spare })
      ≡ ok (
        1 + n,
        record (with_flags r) { dbuf = b ∷ rest; mtypeflags = b ∷ []; remlen = v % 2 ^ 32 },
      )
unfolding decode_header sub from copy_len
decode_header-truncates r b v n rest payload spare kt kf t e nz small w l =
    ground (arith, from-Rest w)

passed_lem :
    (b : ℕ) (rest : List ℕ) (i x : ℕ)
    → 128 ≤ b
    → i < 10
    → uvarint_loop (b ∷ rest) i x ≡ uvarint_loop rest (i + 1) (x + bit_and b 127 * 2 ^ (7 * i))
unfolding uvarint_loop
passed_lem b rest i x h l = ground arith

-- Bytes of a varint with the top bit set, before the eleventh, are read and passed.
marked_lem :
    (m tail : List ℕ) (i x : ℕ)
    → AllMarked m
    → i + length m ≤ 10
    → (y : ℕ) × (uvarint_loop (m ++ tail) i x ≡ uvarint_loop tail (i + length m) y)
marked_lem [] tail i x a l = (x, ap (λ j. uvarint_loop tail j x) (omega arith))
marked_lem (b ∷ m) tail i x a l =
    let (y, e) =
      marked_lem m tail (i + 1) (x + bit_and b 127 * 2 ^ (7 * i)) a.2 (omega (arith, l)) in
    (
      y,
      passed_lem b (m ++ tail) i x a.0 (omega (arith, l))
          ∙ e
          ∙ ap (λ j. uvarint_loop tail j y) (omega arith),
    )

-- A varint that does not fit 64 bits: ten bytes with the top bit set and another, or nine and then
-- one that is more than 1.
pub data IsTooWide : List ℕ → ℕ → Type 0 where
  eleven_bytes : {m : List ℕ} {c : ℕ} → length m ≡ 10 → IsTooWide m c
  ten_bytes : {m : List ℕ} {c : ℕ} → length m ≡ 9 → 2 ≤ c → c < 128 → IsTooWide m c

wide_lem :
    (m tail : List ℕ) (c : ℕ)
    → AllMarked m
    → IsTooWide m c
    → (n : ℕ) × (uvarint (m ++ (c ∷ tail)) ≡ overflow n) × (2 ≤ n)
unfolding uvarint uvarint_loop
wide_lem m tail c a (eleven_bytes l) =
    let (y, e) = marked_lem m (c ∷ tail) 0 0 a (omega (arith, l)) in
    (11, e ∙ ground (arith, l), omega arith)
wide_lem m tail c a (ten_bytes l h k) =
    let (y, e) = marked_lem m (c ∷ tail) 0 0 a (omega (arith, l)) in
    (10, e ∙ ground (arith, l, h, k), omega arith)

overflow_lem :
    (r : Header) (b n : ℕ) (rest spare : List ℕ)
    → valid_type (b / 16) ≡ true
    → good_flags b ≡ true
    → type_of r ≡ b / 16
    → uvarint rest ≡ overflow n
    → 2 ≤ n
    → decode_header r (record { bytes = b ∷ rest; spare = spare })
      ≡ (if ltb 11 (b / 16) then panic else err invalid_message)
unfolding decode_header sub from copy_len from_before
overflow_lem r b n rest spare kt kf t e l = ground arith

-- A packet of the receiver's type, with a type and flags that are valid, whose remaining length does not
-- fit 64 bits makes `decode` panic if it is a PINGREQ, a
-- PINGRESP, a DISCONNECT or an AUTH, the types from 12 on, and is refused if it is of another type.
pub decode_header-overflow :
    (r : Header) (b : ℕ) (m : List ℕ) (c : ℕ) (tail spare : List ℕ)
    → valid_type (b / 16) ≡ true
    → good_flags b ≡ true
    → type_of r ≡ b / 16
    → AllMarked m
    → IsTooWide m c
    → decode_header r (record { bytes = b ∷ (m ++ (c ∷ tail)); spare = spare })
      ≡ (if ltb 11 (b / 16) then panic else err invalid_message)
decode_header-overflow r b m c tail spare kt kf t a w =
    let (n, e, l) = wide_lem m tail c a w in overflow_lem r b n (m ++ (c ∷ tail)) spare kt kf t e l
