-- ===== src/Wire/Ack/Laws.antt =====
-- Acknowledgements: what is written is read back, but for a reason string at the end of a packet.
use simq.Base.{
  ℕ, ◌+◌, ◌≤◌, ◌≡◌, ◌≢◌, refl, ap, ◌∙◌, Bool, true, false, List, [], ◌∷◌, ◌++◌, length, ok, arith,
  inl, inr, ◌⊎◌, subst,
}
use native.Mathlib.Decide.{ℕ_discrete}
use simq.Wire.Codes.{reason_string, user_property, max_lp_string, max_remaining_length}
use simq.Wire.Slice.{Slice, len, Rest, Rest-step, Rest-index, at-Rest, from-Rest, length-Rest}
use simq.Wire.VarInt.Laws.{groups}
use simq.Wire.Strings.Laws.{lp, AllShort, paired, property_bytes, decode_user_property-bytes}
use simq.Wire.Ack.{Puback, read_property_len, read_reason, decode_other}
use simq.Wire.Ack.Read.{read_property_len-Rest, read_reason-some, read_reason-none}
use simq.Wire.Ack.Build.{reason_bytes, properties, tail_bytes, IsAck}

read_reason_step :
    (q : Puback) {src : Slice} (i : ℕ) (reason : List ℕ) (tag : ℕ) (rest : List ℕ)
    → length reason ≤ max_lp_string
    → tag ≢ reason_string
    → Rest src i (reason_string ∷ (lp reason ++ (tag ∷ rest)))
    → (j : ℕ) × (read_reason q src i ≡ ok (reason, j)) × Rest src j (tag ∷ rest)
read_reason_step q i reason tag rest h ne r = (
  i + 1 + (2 + length reason),
  read_reason-some q reason tag rest h ne r,
  Rest-index _ (Rest-step (reason_string ∷ lp reason) (tag ∷ rest) r) (omega arith),
)

-- The reason string and the user properties, in turn.
read_reason-bytes :
    (q : Puback) {src : Slice} (i : ℕ) (reason : List ℕ) (ups : List (List ℕ))
    → q.reason_str ≡ []
    → length reason ≤ max_lp_string
    → (reason ≡ []) ⊎ (ups ≢ [])
    → Rest src i (reason_bytes reason ++ property_bytes ups)
    → (j : ℕ) × (read_reason q src i ≡ ok (reason, j)) × Rest src j (property_bytes ups)
unfolding reason_bytes property_bytes
read_reason-bytes q i [] ups fresh h f r =
    (i, read_reason-none q ups r ∙ ap (λ x. ok (x, i)) fresh, r)
read_reason-bytes q i (c ∷ cs) [] fresh h f r = absurd (elim f [ inl e ↦ cc | inr e ↦ e refl ])
read_reason-bytes q i (c ∷ cs) (key ∷ []) fresh h f r =
    read_reason_step q i (c ∷ cs) user_property _ h (omega arith) r
read_reason-bytes q i (c ∷ cs) (key ∷ val ∷ ups) fresh h f r =
    read_reason_step q i (c ∷ cs) user_property _ h (omega arith) r

pub no_properties :
    (reason : List ℕ) (ups : List (List ℕ))
    → length (reason_bytes reason ++ property_bytes ups) ≡ 0
    → (reason ≡ []) × (ups ≡ [])
unfolding reason_bytes property_bytes
no_properties [] [] e = (refl, refl)
no_properties [] (key ∷ []) e = absurd (omega arith)
no_properties [] (key ∷ val ∷ ups) e = absurd (omega arith)
no_properties (c ∷ cs) ups e = absurd (omega arith)

tail_short :
    (p : Puback) → length (properties p) ≡ 0 → tail_bytes p ≢ [] → tail_bytes p ≡ p.reason_code ∷ []
unfolding tail_bytes
tail_short p e ne = ground arith

pub tail_full :
    (p : Puback)
    → length (properties p) ≢ 0
    → tail_bytes p ≡ p.reason_code ∷ (groups 3 (length (properties p)) ++ properties p)
unfolding tail_bytes
tail_full p ne = ground arith

module _ (valid : ℕ → Bool) (q p : Puback) (src : Slice) (i : ℕ) where
  -- What `decodeOther` leaves in the receiver `q`.
  abbrev pub decoded_ack : Puback
  decoded_ack = record {
    header = record q.header { dirty = false };
    reason_code = p.reason_code;
    property_len = length (properties p);
    reason_str = p.reason_str;
    user_property = paired p.user_property;
  }

  decode_other-short :
      valid p.reason_code ≡ true
      → q.reason_str ≡ []
      → q.property_len ≡ 0
      → length (properties p) ≡ 0
      → Rest src i (p.reason_code ∷ [])
      → decode_other valid q src i ≡ ok (len src, decoded_ack)
  unfolding decode_other read_property_len property_bytes paired
  decode_other-short code fresh none e r =
      let r1 : Rest src (i + 1) [] = Rest-step (p.reason_code ∷ []) [] r in
      let (er, eu) = no_properties p.reason_str p.user_property e in
      ground (
        arith,
        at-Rest r,
        length-Rest r1,
        read_reason-none q [] r1,
        from-Rest r1,
        decode_user_property-bytes [] src.spare tt,
        er,
        eu,
      )

  decode_other-full :
      valid p.reason_code ≡ true
      → q.reason_str ≡ []
      → (p.reason_str ≡ []) ⊎ (p.user_property ≢ [])
      → length p.reason_str ≤ max_lp_string
      → AllShort p.user_property
      → length (properties p) ≤ max_remaining_length
      → Rest src i (p.reason_code ∷ (groups 3 (length (properties p)) ++ properties p))
      → decode_other valid q src i ≡ ok (len src, decoded_ack)
  unfolding decode_other
  decode_other-full code fresh f rs us small r =
      let n = length (properties p) in
      let r1 : Rest src (i + 1) (groups 3 n ++ properties p) =
        Rest-step (p.reason_code ∷ []) (groups 3 n ++ properties p) r in
      let r2 : Rest src (i + 1 + length (groups 3 n)) (properties p) =
        Rest-step (groups 3 n) (properties p) r1 in
      let (j, e, r3) =
        read_reason-bytes q (i + 1 + length (groups 3 n)) p.reason_str p.user_property fresh rs f
          r2 in
      ground (
        arith,
        at-Rest r,
        read_property_len-Rest q n (properties p) small r1,
        e,
        length-Rest r3,
        from-Rest r3,
        decode_user_property-bytes p.user_property src.spare us,
      )

  pub decode_other-tail :
      (b : ℕ)
      → IsAck p b
      → valid p.reason_code ≡ true
      → q.reason_str ≡ []
      → q.property_len ≡ 0
      → (p.reason_str ≡ []) ⊎ (p.user_property ≢ [])
      → Rest src i (tail_bytes p)
      → tail_bytes p ≢ []
      → decode_other valid q src i ≡ ok (len src, decoded_ack)
  decode_other-tail b v code fresh none f r ne = elim (ℕ_discrete (length (properties p)) 0) [
    | yes e ↦ decode_other-short code fresh none e (subst (Rest src i) (tail_short p e ne) r)
    | no d ↦
        decode_other-full code fresh f v.reason_short v.properties_short (omega (arith, v.small))
          (subst (Rest src i) (tail_full p d) r)
  ]
