-- ===== src/Wire/Ack/Read.antt =====
-- The steps of `decodeOther`, each at the front of what is left of the packet.
use simq.Base.{
  ℕ, zero, suc, ◌+◌, ◌-◌, ◌≤◌, ◌≡◌, ◌≢◌, refl, ap, ◌∙◌, List, [], ◌∷◌, ◌++◌, length, take, drop, ok,
  panic, arith, length-append,
}
use simq.Wire.Codes.{reason_string, max_lp_string, max_remaining_length}
use simq.Wire.Slice.{
  Slice, sub, Rest, Rest-step, Rest-index, at-Rest, at-Rest_end, from-Rest, length-Rest,
}
use simq.Wire.VarInt.Laws.{groups, lb_decode-groups, length-groups}
use simq.Wire.Strings.Laws.{lp, property_bytes, read_at-lp}
use simq.Wire.Ack.{Puback, read_property_len, read_reason}

-- Reading at the front of a suffix.
pub read_property_len-Rest :
    (p : Puback) {src : Slice} {i : ℕ} (n : ℕ) (rest : List ℕ)
    → n ≤ max_remaining_length
    → Rest src i (groups 3 n ++ rest)
    → read_property_len p src i ≡ ok (n, i + length (groups 3 n))
unfolding read_property_len
read_property_len-Rest p {src} {i} n rest h r = ground (
  arith,
  from-Rest r,
  length-Rest r,
  length-groups n h,
  length-append (groups 3 n) rest,
  lb_decode-groups n rest h,
)

-- A reason string is read if another property follows it.
pub read_reason-some :
    (p : Puback) {src : Slice} {i : ℕ} (reason : List ℕ) (tag : ℕ) (rest : List ℕ)
    → length reason ≤ max_lp_string
    → tag ≢ reason_string
    → Rest src i (reason_string ∷ (lp reason ++ (tag ∷ rest)))
    → read_reason p src i ≡ ok (reason, i + 1 + (2 + length reason))
unfolding read_reason
read_reason-some p {src} {i} reason tag rest h ne r =
    let r1 : Rest src (i + 1) (lp reason ++ (tag ∷ rest)) =
      Rest-step (reason_string ∷ []) (lp reason ++ (tag ∷ rest)) r in
    let r2 : Rest src (i + 1 + (2 + length reason)) (tag ∷ rest) =
      Rest-index _ (Rest-step (lp reason) (tag ∷ rest) r1) (omega arith) in
    ground (arith, length-Rest r, at-Rest r, read_at-lp reason (tag ∷ rest) h r1, at-Rest r2)

-- At the end of the packet the read behind a reason string is out of range.
pub read_reason-panic :
    (p : Puback) {src : Slice} {i : ℕ} (reason : List ℕ)
    → length reason ≤ max_lp_string
    → Rest src i (reason_string ∷ (lp reason ++ []))
    → read_reason p src i ≡ panic
unfolding read_reason
read_reason-panic p {src} {i} reason h r =
    let r1 : Rest src (i + 1) (lp reason ++ []) =
      Rest-step (reason_string ∷ []) (lp reason ++ []) r in
    let r2 : Rest src (i + 1 + (2 + length reason)) [] =
      Rest-index _ (Rest-step (lp reason) [] r1) (omega arith) in
    ground (arith, length-Rest r, at-Rest r, read_at-lp reason [] h r1, at-Rest_end r2)

-- Without one the message keeps what it has.
pub read_reason-none :
    (p : Puback) {src : Slice} {i : ℕ} (ups : List (List ℕ))
    → Rest src i (property_bytes ups)
    → read_reason p src i ≡ ok (p.reason_str, i)
unfolding read_reason property_bytes
read_reason-none p {src} {i} [] r = ground (arith, length-Rest r)
read_reason-none p {src} {i} (key ∷ []) r = ground (arith, length-Rest r, at-Rest r)
read_reason-none p {src} {i} (key ∷ val ∷ ups) r = ground (arith, length-Rest r, at-Rest r)

-- `s[i:j]` of what is left.
pub drop_within : (i : ℕ) (xs ys : List ℕ) → i ≤ length xs → drop i (xs ++ ys) ≡ drop i xs ++ ys
drop_within zero xs ys h = refl
drop_within (suc i) [] ys h = absurd (omega arith)
drop_within (suc i) (x ∷ xs) ys h = drop_within i xs ys (omega arith)

take_two :
    (a b : ℕ) (rest spare : List ℕ) (k : ℕ) → k ≡ 2 → take k ((a ∷ b ∷ rest) ++ spare) ≡ a ∷ b ∷ []
take_two a b rest spare k e = rw e

pub sub-Rest :
    {s : Slice} {i : ℕ} (a b : ℕ) (rest : List ℕ)
    → Rest s i (a ∷ b ∷ rest)
    → sub s i (i + 2) ≡ ok (a ∷ b ∷ [])
unfolding sub
sub-Rest {s} {i} a b rest r =
    let e : drop i (s.bytes ++ s.spare) ≡ (a ∷ b ∷ rest) ++ s.spare =
      drop_within i s.bytes s.spare r.within ∙ ap (λ xs. xs ++ s.spare) r.left in
    ground (arith, e, length-Rest r, take_two a b rest s.spare (i + 2 - i) (omega arith))
