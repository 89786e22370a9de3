-- ===== src/Wire/Strings/Laws.antt =====
-- What is written is read back, byte strings and user properties.
use simq.Base.{
  ℕ, zero, suc, ◌+◌, ◌-◌, ◌*◌, ◌/◌, ◌%◌, ◌≤◌, ◌<◌, ◌≡◌, ◌≢◌, refl, sym, ap, ap₂, subst, ◌∙◌, List,
  [], ◌∷◌, ◌++◌, length, take, get_or, length-append, append_assoc, append-nil, arith, ok,
}
use simq.Wire.Codes.{user_property, max_lp_string}
use simq.Wire.Slice.{
  Slice, at, sub, copy_len, Rest, Rest-start, Rest-step, at-Rest, from-Rest, length-Rest,
  Rest-index,
}
use simq.Wire.Strings.{
  read_at, read_lp_bytes, write_to_buf_lp_bytes, decode_user_property_loop, decode_user_property,
  write_part, write_user_property_by_buf, build_user_property_len,
}

-- The form of a written string.
abbrev pub lp : List ℕ → List ℕ
lp b = (length b / 256 % 256) ∷ (length b % 256) ∷ b

pub take-append : (xs ys : List ℕ) → take (length xs) (xs ++ ys) ≡ xs
take-append [] ys = refl
take-append (x ∷ xs) ys = ap (λ k. x ∷ k) (take-append xs ys)

pub take-all : (xs : List ℕ) (k : ℕ) → k ≡ length xs → take k xs ≡ xs
take-all xs k e = rw e (ap (take (length xs)) (sym (append-nil xs)) ∙ take-append xs [])

take-two : (b rest spare : List ℕ) (k : ℕ) → k ≡ length b → take k ((b ++ rest) ++ spare) ≡ b
take-two b rest spare k e = rw (e, append_assoc) (take-append b (rest ++ spare))

sub-two :
    (hi lo : ℕ) (b rest spare : List ℕ) (k : ℕ)
    → k ≡ length b
    → sub (record { bytes = hi ∷ lo ∷ (b ++ rest); spare = spare }) 2 (2 + k) ≡ ok b
unfolding sub
sub-two hi lo b rest spare k e =
    ground (arith, take-two b rest spare (2 + k - 2) (omega arith), length-append b rest)

read_prefixed :
    (hi lo : ℕ) (b rest spare : List ℕ)
    → hi * 256 + lo ≡ length b
    → read_lp_bytes (record { bytes = hi ∷ lo ∷ (b ++ rest); spare = spare }) ≡ ok (b, 2 + length b)
unfolding read_lp_bytes at copy_len
read_prefixed hi lo b rest spare e = ground (
  arith,
  sub-two hi lo b rest spare (hi * 256 + lo) e,
  length-append b rest,
  take-all b (hi * 256 + lo),
)

pub read_lp_bytes-lp :
    (b rest spare : List ℕ)
    → length b ≤ max_lp_string
    → read_lp_bytes (record { bytes = lp b ++ rest; spare = spare }) ≡ ok (b, 2 + length b)
read_lp_bytes-lp b rest spare h = read_prefixed _ _ b rest spare (omega arith)

abbrev pub AllShort : List (List ℕ) → Type 0
AllShort [] = Unit {0}
AllShort (b ∷ bs) = (length b ≤ max_lp_string) × AllShort bs

-- Every key gets a value.
unfoldable pub paired : List (List ℕ) → List (List ℕ)
paired [] = []
paired (key ∷ []) = key ∷ [] ∷ []
paired (key ∷ val ∷ rest) = key ∷ val ∷ paired rest

-- The bytes of a list of user properties.
unfoldable pub property_bytes : List (List ℕ) → List ℕ
property_bytes [] = []
property_bytes (key ∷ []) = user_property ∷ (lp key ++ (0 ∷ 0 ∷ []))
property_bytes (key ∷ val ∷ rest) = user_property ∷ (lp key ++ (lp val ++ property_bytes rest))

write_part-lp : (b : List ℕ) → length b ≤ max_lp_string → write_part b ≡ ok (lp b)
unfolding write_to_buf_lp_bytes
write_part-lp [] h = refl
write_part-lp (x ∷ b) h = ground arith

pub write_user_property-bytes :
    (ups : List (List ℕ)) → AllShort ups → write_user_property_by_buf ups ≡ ok (property_bytes ups)
unfolding write_user_property_by_buf property_bytes
write_user_property-bytes [] h = refl
write_user_property-bytes (key ∷ []) h = rw (write_part-lp key h.0)
write_user_property-bytes (key ∷ val ∷ rest) h =
    rw (write_part-lp key h.0, write_part-lp val h.1.0, write_user_property-bytes rest h.1.1)

pub read_at-lp :
    {src : Slice} {total : ℕ} (b rest : List ℕ)
    → length b ≤ max_lp_string
    → Rest src total (lp b ++ rest)
    → read_at src total ≡ ok (b, 2 + length b)
unfolding read_at
read_at-lp {src} b rest h r = rw (from-Rest r) (read_lp_bytes-lp b rest src.spare h)

-- The same bytes, with an empty value written out.
property_bytes-paired : (ups : List (List ℕ)) → property_bytes (paired ups) ≡ property_bytes ups
unfolding property_bytes paired
property_bytes-paired [] = refl
property_bytes-paired (key ∷ []) = refl
property_bytes-paired (key ∷ val ∷ rest) =
    ap (λ bs. user_property ∷ (lp key ++ (lp val ++ bs))) (property_bytes-paired rest)

module _ (src : Slice) where
  one_pair :
      (fuel total : ℕ) (out : List (List ℕ)) (key val rest : List ℕ)
      → length key ≤ max_lp_string
      → length val ≤ max_lp_string
      → Rest src total (user_property ∷ (lp key ++ (lp val ++ rest)))
      → (decode_user_property_loop (suc fuel) src total out
          ≡ decode_user_property_loop fuel src
              (total + 1 + (2 + length key) + (2 + length val))
              (out ++ (key ∷ val ∷ [])))
        × Rest src (total + 1 + (2 + length key) + (2 + length val)) rest
  unfolding decode_user_property_loop
  one_pair fuel total out key val rest hk hv r =
      let r1 : Rest src (total + 1) (lp key ++ (lp val ++ rest)) =
        Rest-step (user_property ∷ []) (lp key ++ (lp val ++ rest)) r in
      let r2 : Rest src (total + 1 + (2 + length key)) (lp val ++ rest) =
        Rest-index _ (Rest-step (lp key) (lp val ++ rest) r1) (omega arith) in
      let r3 : Rest src (total + 1 + (2 + length key) + (2 + length val)) rest =
        Rest-index _ (Rest-step (lp val) rest r2) (omega arith) in
      (
        ground (
          arith,
          length-Rest r,
          at-Rest r,
          read_at-lp key (lp val ++ rest) hk r1,
          read_at-lp val rest hv r2,
        ),
        r3,
      )

  loop_ends :
      (fuel total : ℕ) (out : List (List ℕ)) (rest : List ℕ)
      → get_or rest 0 0 ≢ user_property
      → Rest src total rest
      → decode_user_property_loop (suc fuel) src total out ≡ ok (out, total)
  unfolding decode_user_property_loop
  loop_ends fuel total out [] ne r = ground (arith, length-Rest r)
  loop_ends fuel total out (tag ∷ rest) ne r = ground (arith, length-Rest r, at-Rest r)

  loop-pairs :
      (fuel total : ℕ) (out ups : List (List ℕ)) (rest : List ℕ)
      → AllShort ups
      → get_or rest 0 0 ≢ user_property
      → length (property_bytes ups) < fuel
      → Rest src total (property_bytes ups ++ rest)
      → decode_user_property_loop fuel src total out
        ≡ ok (out ++ paired ups, total + length (property_bytes ups))
  unfolding property_bytes paired
  loop-pairs zero total out ups rest h ne hf r = absurd (omega arith)
  loop-pairs (suc fuel) total out [] rest h ne hf r =
      loop_ends fuel total out rest ne r
      ∙ ap₂ (λ o k. ok (o, k)) (sym (append-nil out)) (omega arith)
  loop-pairs (suc fuel) total out (key ∷ []) rest h ne hf r =
      let (e, r') = one_pair fuel total out key [] rest h.0 (omega arith) (
        subst (λ bs. Rest src total (user_property ∷ bs)) (append_assoc (lp key) (0 ∷ 0 ∷ []) rest)
          r) in
      e
      ∙ loop-pairs fuel _ (out ++ (key ∷ [] ∷ [])) [] rest tt ne
          (omega (arith, length-append key (0 ∷ 0 ∷ []))) r'
      ∙ ap₂ (λ o k. ok (o, k)) (append-nil (out ++ (key ∷ [] ∷ [])))
          (omega (arith, length-append key (0 ∷ 0 ∷ [])))
  loop-pairs (suc fuel) total out (key ∷ val ∷ ups) rest h ne hf r =
      let (e, r') = one_pair fuel total out key val (property_bytes ups ++ rest) h.0 h.1.0 (
        subst (λ bs. Rest src total (user_property ∷ bs))
          (append_assoc (lp key) (lp val ++ property_bytes ups) rest
            ∙ ap (λ bs. lp key ++ bs) (append_assoc (lp val) (property_bytes ups) rest))
          r) in
      e
      ∙ loop-pairs fuel _ (out ++ (key ∷ val ∷ [])) ups rest h.1.1 ne
          (omega (
            arith,
            length-append key (lp val ++ property_bytes ups),
            length-append val (property_bytes ups),
          ))
          r'
      ∙ ap₂ (λ o k. ok (o, k)) (append_assoc out (key ∷ val ∷ []) (paired ups))
          (omega (
            arith,
            length-append key (lp val ++ property_bytes ups),
            length-append val (property_bytes ups),
          ))

-- In front of bytes that do not begin like another user property.
pub decode_user_property-then :
    (ups : List (List ℕ)) (rest spare : List ℕ)
    → AllShort ups
    → get_or rest 0 0 ≢ user_property
    → decode_user_property (record { bytes = property_bytes ups ++ rest; spare = spare })
      ≡ ok (paired ups, length (property_bytes ups))
unfolding decode_user_property
decode_user_property-then ups rest spare h ne =
    loop-pairs (record { bytes = property_bytes ups ++ rest; spare = spare })
      (suc (length (property_bytes ups ++ rest))) 0 [] ups rest h ne
      (omega (arith, length-append (property_bytes ups) rest)) (Rest-start _)
    ∙ ap (λ k. ok (paired ups, k)) (omega arith)

pub decode_user_property-bytes :
    (ups : List (List ℕ)) (spare : List ℕ)
    → AllShort ups
    → decode_user_property (record { bytes = property_bytes ups; spare = spare })
      ≡ ok (paired ups, length (property_bytes ups))
decode_user_property-bytes ups spare h =
    subst
      (λ bs.
        decode_user_property (record { bytes = bs; spare = spare })
        ≡ ok (paired ups, length (property_bytes ups)))
      (append-nil (property_bytes ups)) (decode_user_property-then ups [] spare h (omega arith))

pub length-property_bytes :
    (ups : List (List ℕ)) → length (property_bytes ups) ≡ build_user_property_len ups
unfolding property_bytes build_user_property_len
length-property_bytes [] = refl
length-property_bytes (key ∷ []) = omega (arith, length-append key (0 ∷ 0 ∷ []))
length-property_bytes (key ∷ val ∷ rest) = omega (
  arith,
  length-append key (lp val ++ property_bytes rest),
  length-append val (property_bytes rest),
  length-property_bytes rest,
)

-- What `writeUserPropertyByBuf` writes to the end of a packet, `decodeUserProperty` reads back,
-- with an empty value for a key that had none.
pub decode-write_user_property :
    (ups : List (List ℕ)) (spare : List ℕ)
    → AllShort ups
    → (out : List ℕ) × (write_user_property_by_buf ups ≡ ok out)
      × (length out ≡ build_user_property_len ups)
      × (decode_user_property (record { bytes = out; spare = spare }) ≡ ok (paired ups, length out))
decode-write_user_property ups spare h = (
  property_bytes ups,
  write_user_property-bytes ups h,
  length-property_bytes ups,
  decode_user_property-bytes ups spare h,
)
