-- ===== src/Buffer/Invariant.antt =====
-- What holds of every ring, and the bytes in it.
use simq.Base.{
  ℕ, zero, suc, ◌+◌, ◌-◌, ◌%◌, ◌^◌, ◌≤◌, ◌<◌, ◌≡◌, refl, sym, ap, ap₂, ◌∙◌, bit_and, List, ◌∷◌,
  ◌++◌, append-nil, length, take, drop, arith, ltb, length-drop, inl, inr, Bool-cases,
}
use simq.Base.Bits.{and_mask, pow_pos}
use simq.Base.Window.{window, length-window, window-run, step_in, step_more}
use simq.Buffer.{Buffer, len, peeked}
use simq.Buffer.Copy.{take-all}
use native.Mathlib.Nat.{mod-eq_of_lt, mod-add-mod, mod_self}

-- The positions are in order, and no more than a ring apart.
pub record IsBuffer (b : Buffer) : Type 0 where
  pub exponent : ℕ
  pub size_eq : b.size ≡ 2 ^ exponent
  pub mask_eq : b.mask ≡ b.size - 1
  pub buf_eq : length b.buf ≡ b.size
  pub gate_le : b.gate ≤ b.cpos
  pub cpos_le : b.cpos ≤ b.ppos
  pub ppos_le : b.ppos ≤ b.cpos + b.size

-- The bytes that are written and not yet read, oldest first.
abbrev pub contents : Buffer → List ℕ
contents b = window 0 b.size b.buf (b.cpos % b.size) (b.ppos - b.cpos)

pub size_pos : (b : Buffer) → IsBuffer b → 0 < b.size
size_pos b v = omega (arith, v.size_eq, pow_pos v.exponent)

pub start_in : (b : Buffer) (n : ℕ) → IsBuffer b → n % b.size < b.size
start_in b n v = let z = size_pos b v in grind arith

-- The mask is a remainder.
pub mask_lem : (b : Buffer) (n : ℕ) → IsBuffer b → bit_and n b.mask ≡ n % b.size
mask_lem b n v =
    let e : b.mask ≡ 2 ^ v.exponent - 1 = omega (arith, v.mask_eq, v.size_eq) in
    rw e (and_mask v.exponent n ∙ ap (λ k. n % k) (sym v.size_eq))

pub length-contents : (b : Buffer) → length (contents b) ≡ len b
length-contents b = length-window 0 b.size b.buf (b.cpos % b.size) (b.ppos - b.cpos)

window-append :
    (size : ℕ) (ring : List ℕ) (h m k : ℕ)
    → h < size
    → window 0 size ring h (m + k) ≡ window 0 size ring h m ++ window 0 size ring ((h + m) % size) k
window-append size ring h zero k p =
    ap₂ (λ i j. window 0 size ring i j) (sym (ap (λ i. i % size) (omega arith) ∙ mod-eq_of_lt p))
      (omega arith)
window-append size ring h (suc m) k p =
    ap (window 0 size ring h) {y = suc (m + k)} (omega arith)
    ∙ ap₂ ◌∷◌ refl (
        window-append size ring ((h + 1) % size) m k (step_in size h p)
        ∙ ap (λ i. window 0 size ring ((h + 1) % size) m ++ window 0 size ring i k)
            (step_more size h m))

-- The bytes up to the end of the ring.
pub take-window :
    (size : ℕ) (ring : List ℕ) (h m : ℕ)
    → length ring ≡ size
    → h < size
    → h + m ≤ size
    → take m (drop h ring) ≡ window 0 size ring h m
take-window size ring h m e p f = sym (
    ap (λ i. window 0 size ring i m) (sym (mod-eq_of_lt p))
    ∙ ap (window 0 size ring (h % size)) {y = m + 0} (omega arith)
    ∙ window-run 0 size ring h m 0 e (omega arith) f
    ∙ append-nil (take m (drop h ring)))

-- The bytes round the end of the ring.
window-wrap :
    (size : ℕ) (ring : List ℕ) (h m : ℕ)
    → length ring ≡ size
    → h < size
    → size < h + m
    → m ≤ size
    → drop h ring ++ take (m - length (drop h ring)) ring ≡ window 0 size ring h m
window-wrap size ring h m e p f g =
    let l : length (drop h ring) ≡ size - h = omega (arith, length-drop h ring) in
    ap₂ ◌++◌
      (sym (take-all (size - h) (drop h ring) (omega arith))
        ∙ take-window size ring h (size - h) e p (omega arith))
      (ap (λ k. take k ring) {y = m - (size - h)} (omega arith)
        ∙ take-window size ring 0 (m - (size - h)) e (omega arith) (omega arith)
        ∙ ap (λ i. window 0 size ring i (m - (size - h)))
            (sym (ap (λ k. k % size) {y = size} (omega arith) ∙ mod_self size)))
    ∙ sym (window-append size ring h (size - h) (m - (size - h)) p)
    ∙ ap (window 0 size ring h) (omega arith)

-- `ReadPeek` and `ReadWait` see the oldest bytes, wherever they lie.
pub peeked_lem :
    (b : Buffer) (m : ℕ)
    → IsBuffer b
    → m ≤ b.size
    → peeked b m ≡ window 0 b.size b.buf (b.cpos % b.size) m
unfolding peeked
peeked_lem b m v h =
    rw (mask_lem b b.cpos v) (elim (Bool-cases (ltb b.size (b.cpos % b.size + m))) [
      | inl t ↦ rw t (
          window-wrap b.size b.buf (b.cpos % b.size) m v.buf_eq (start_in b b.cpos v) (ground arith)
            h)
      | inr f ↦ rw f (
          take-window b.size b.buf (b.cpos % b.size) m v.buf_eq (start_in b b.cpos v)
            (ground arith))
    ])

-- The ring with `m` bytes read.
abbrev pub advanced : Buffer → ℕ → Buffer
advanced b m = record b { cpos = b.cpos + m }

pub advanced-IsBuffer : (b : Buffer) (m : ℕ) → IsBuffer b → m ≤ len b → IsBuffer (advanced b m)
advanced-IsBuffer b m v h = record {
  exponent = v.exponent;
  size_eq = v.size_eq;
  mask_eq = v.mask_eq;
  buf_eq = v.buf_eq;
  gate_le = omega (arith, v.gate_le);
  cpos_le = omega (arith, v.cpos_le);
  ppos_le = omega (arith, v.ppos_le);
}

pub contents-advanced :
    (b : Buffer) (m : ℕ)
    → IsBuffer b
    → m ≤ len b
    → contents b ≡ window 0 b.size b.buf (b.cpos % b.size) m ++ contents (advanced b m)
contents-advanced b m v h =
    ap (window 0 b.size b.buf (b.cpos % b.size)) {y = m + (b.ppos - (b.cpos + m))} (omega arith)
    ∙ window-append b.size b.buf (b.cpos % b.size) m (b.ppos - (b.cpos + m)) (start_in b b.cpos v)
    ∙ ap
        (λ i.
          window 0 b.size b.buf (b.cpos % b.size) m
          ++ window 0 b.size b.buf i (b.ppos - (b.cpos + m)))
        (mod-add-mod b.cpos b.size m)
