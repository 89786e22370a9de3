-- ===== src/Wire/Suback/Build.antt =====
-- SUBACK and UNSUBACK: the bytes of a packet, and the steps of `Decode`.
use simq.Base.{
  ℕ, ◌+◌, ◌/◌, ◌≤◌, ◌≡◌, ◌≢◌, refl, ap, Bool, true, false, List, [], ◌∷◌, ◌++◌, length, get_or,
  length-append, ok, arith,
}
use simq.Wire.Codes.{valid_type, reason_string, user_property, max_remaining_length, max_lp_string}
use simq.Wire.Slice.{Slice, Rest, Rest-step, Rest-index, at-Rest, length-Rest}
use simq.Wire.VarInt.Laws.{groups}
use simq.Wire.Strings.Laws.{lp, AllShort, property_bytes, read_at-lp}
use simq.Wire.Header.Laws.{good_flags}
use simq.Wire.Ack.Build.{reason_bytes}
use simq.Wire.Suback.{SubackMessage, all_valid, read_reason_string}

abbrev pub properties : SubackMessage → List ℕ
properties m = reason_bytes m.reason_str ++ property_bytes m.user_property

abbrev pub tail_bytes : SubackMessage → List ℕ
tail_bytes m =
    groups 3 (length (properties m))
    ++ (reason_bytes m.reason_str ++ (property_bytes m.user_property ++ m.reason_codes))

-- A message that fits a packet; `b` is its first byte and `valid` the table of its reason codes, of
-- which there are some.
pub record IsSuback (valid : ℕ → Bool) (m : SubackMessage) (b : ℕ) : Type 0 where
  pub changed : m.header.dirty ≡ true
  pub one_byte : m.header.mtypeflags ≡ b ∷ []
  pub known_type : valid_type (b / 16) ≡ true
  pub known_flags : good_flags b ≡ true
  pub reason_short : length m.reason_str ≤ max_lp_string
  pub properties_short : AllShort m.user_property
  pub some_code : m.reason_codes ≢ []
  pub codes : all_valid valid m.reason_codes ≡ true
  pub small : length (properties m) + length m.reason_codes + 6 ≤ max_remaining_length

-- The message with its lengths built.
unfoldable pub built : SubackMessage → SubackMessage
built m = record m {
  header = record m.header { remlen = 2 + length (tail_bytes m); dirty = true };
  properties_len = length (properties m);
}

pub length-properties :
    (m : SubackMessage)
    → length (properties m)
      ≡ length (reason_bytes m.reason_str) + length (property_bytes m.user_property)
length-properties m = length-append (reason_bytes m.reason_str) (property_bytes m.user_property)

pub length-tail_bytes :
    (m : SubackMessage)
    → length (tail_bytes m)
      ≡ length (groups 3 (length (properties m))) + length (properties m) + length m.reason_codes
length-tail_bytes m = omega (
  arith,
  length-append (groups 3 (length (properties m)))
      (reason_bytes m.reason_str ++ (property_bytes m.user_property ++ m.reason_codes)),
  length-append (reason_bytes m.reason_str) (property_bytes m.user_property ++ m.reason_codes),
  length-append (property_bytes m.user_property) m.reason_codes,
  length-properties m,
)

-- The reason string, in front of a byte that is not its tag.
pub read_reason_string-bytes :
    (r : SubackMessage) {src : Slice} {i : ℕ} (reason : List ℕ) (c : ℕ) (rest : List ℕ)
    → r.reason_str ≡ []
    → length reason ≤ max_lp_string
    → c ≢ reason_string
    → Rest src i (reason_bytes reason ++ (c ∷ rest))
    → read_reason_string r src i ≡ ok (reason, i + length (reason_bytes reason))
unfolding read_reason_string reason_bytes
read_reason_string-bytes r [] c rest z h ne v = ground (arith, length-Rest v, at-Rest v)
read_reason_string-bytes r {src} {i} (d ∷ ds) c rest z h ne v =
    let v₁ : Rest src (i + 1) (lp (d ∷ ds) ++ (c ∷ rest)) =
      Rest-step (reason_string ∷ []) (lp (d ∷ ds) ++ (c ∷ rest)) v in
    let v₂ : Rest src (i + 1 + (2 + length (d ∷ ds))) (c ∷ rest) =
      Rest-index _ (Rest-step (lp (d ∷ ds)) (c ∷ rest) v₁) (omega arith) in
    ground (arith, length-Rest v, at-Rest v, read_at-lp (d ∷ ds) (c ∷ rest) h v₁, at-Rest v₂)

-- No valid code is the tag of a property that may stand in front of it.
abbrev pub NoTag : (ℕ → Bool) → Type 0
NoTag valid = (valid reason_string ≡ false) × (valid user_property ≡ false)

pub first_code :
    (valid : ℕ → Bool) (cs : List ℕ)
    → NoTag valid
    → cs ≢ []
    → all_valid valid cs ≡ true
    → (get_or cs 0 0 ≢ user_property) × (get_or cs 0 0 ≢ reason_string)
first_code valid [] t ne a = absurd (ne refl)
first_code valid (c ∷ cs) t ne a =
    (λ e. absurd (ground (arith, t, ap valid e, a)), λ e. absurd (ground (arith, t, ap valid e, a)))

pub length-some : (cs : List ℕ) → cs ≢ [] → 1 ≤ length cs
length-some [] ne = absurd (ne refl)
length-some (c ∷ cs) ne = omega arith

-- What stands behind the reason string.
pub behind_reason :
    (ups : List (List ℕ)) (cs : List ℕ)
    → cs ≢ []
    → get_or cs 0 0 ≢ reason_string
    → (c : ℕ) × (rest : List ℕ) × (property_bytes ups ++ cs ≡ c ∷ rest) × (c ≢ reason_string)
unfolding property_bytes
behind_reason [] [] ne h = absurd (ne refl)
behind_reason [] (c ∷ cs) ne h = (_, _, refl, h)
behind_reason (key ∷ []) cs ne h = (_, _, refl, omega arith)
behind_reason (key ∷ val ∷ ups) cs ne h = (_, _, refl, omega arith)
