-- ===== src/Topics/Levels.antt =====
-- Names of topics as lists of levels, and how `nextTopicLevel` takes them apart.
use simq.Base.{
  ℕ, ◌+◌, ◌<◌, ◌≡◌, ◌≢◌, refl, ap, ◌∙◌, Bool, true, false, List, [], ◌∷◌, ◌++◌, Option, none, some,
  take, length, arith,
}
use simq.Topics.{
  Bytes, Level, State, state_chr, state_sys, state_mwc, state_swc, scan_level, next_topic_level,
  rest_of, advance,
}
use native.Mathlib.Decide.{ℕ_discrete}

-- The bytes that are neither wildcards nor separators.
abbrev pub PlainByte : ℕ → Type 0
PlainByte c = (c ≢ 47) × (c ≢ 35) × (c ≢ 43)

abbrev pub PlainBytes : Bytes → Type 0
PlainBytes [] = Unit {0}
PlainBytes (c ∷ cs) = PlainByte c × PlainBytes cs

-- A level that is a name: not empty, with no wildcard, not of the system's.
abbrev pub Plain : Bytes → Type 0
Plain [] = ⊥
Plain (c ∷ cs) = (c ≢ 36) × PlainBytes (c ∷ cs)

abbrev pub AllPlain : List Bytes → Type 0
AllPlain [] = Unit {0}
AllPlain (l ∷ ls) = Plain l × AllPlain ls

-- A level before what comes behind its separator.
abbrev pub glue : Bytes → Option Bytes → Bytes
glue l none = l
glue l (some rem) = l ++ (47 ∷ rem)

-- What is behind a level: nothing, or a separator and more.
abbrev pub rest_name : List Bytes → Bool → Option Bytes
rest_name [] false = none
rest_name [] true = some []
rest_name (l ∷ ls) slash = some (glue l (rest_name ls slash))

-- The name with these levels, and with a separator at its end if `slash` says so.
abbrev pub name : List Bytes → Bool → Bytes
name ls slash = rest_of (rest_name ls slash)

take-front : (l r : Bytes) → take (length l) (l ++ r) ≡ l
take-front [] r = refl
take-front (x ∷ l) r = ap (λ zs. x ∷ zs) (take-front l r)

abbrev level_end : Bytes → ℕ → Option Bytes → Option Level
level_end topic i none = some (topic, none)
level_end topic i (some rem) = some (take i topic, some rem)

-- The states in which a name is read.
abbrev Calm : State → Type 0
Calm state_chr = Unit {0}
Calm state_sys = Unit {0}
Calm state_mwc = ⊥
Calm state_swc = ⊥

glue_cons : (x : ℕ) (l : Bytes) (o : Option Bytes) → glue (x ∷ l) o ≡ x ∷ glue l o
glue_cons x l none = refl
glue_cons x l (some rem) = refl

scan_level-regular :
    (topic : Bytes) (x : ℕ) (t : Bytes) (i : ℕ) (s s' : State)
    → x ≢ 47
    → advance x i s ≡ some s'
    → scan_level topic (x ∷ t) i s ≡ scan_level topic t (i + 1) s'
unfolding scan_level
scan_level-regular topic x t i s s' h a = ground arith

-- Behind the first byte of a level any byte of a name keeps the state calm.
advance_lem :
    (x i : ℕ) (s : State)
    → PlainByte x
    → Calm s
    → 0 < i
    → (s' : State) × Calm s' × (advance x i s ≡ some s')
advance_lem x i s p c h = elim (ℕ_discrete x 36) [
  | yes e ↦ (state_sys, tt, ground arith)
  | no e ↦ (state_chr, tt, calm_regular x i s p c e)
]
  where
    calm_regular :
        (x i : ℕ) (s : State) → PlainByte x → Calm s → x ≢ 36 → advance x i s ≡ some state_chr
    calm_regular x i state_chr p c e = ground arith
    calm_regular x i state_sys p c e = ground arith
    calm_regular x i state_mwc p c e = absurd c
    calm_regular x i state_swc p c e = absurd c

scan_step :
    (topic : Bytes) (x : ℕ) (l : Bytes) (o : Option Bytes) (i : ℕ) (s : State)
    → PlainBytes (x ∷ l)
    → Calm s
    → 0 < i
    → ((s' : State)
        → Calm s'
        → scan_level topic (glue l o) (i + 1) s' ≡ level_end topic (i + 1 + length l) o)
    → scan_level topic (glue (x ∷ l) o) i s ≡ level_end topic (i + length (x ∷ l)) o
scan_step topic x l o i s p c h below =
    let (s', c', a) = advance_lem x i s p.0 c h in
    ap (λ t. scan_level topic t i s) (glue_cons x l o)
    ∙ scan_level-regular topic x (glue l o) i s s' p.0.0 a
    ∙ below s' c'
    ∙ ap (λ k. level_end topic k o) (omega arith)

scan_lem :
    (topic l : Bytes) (o : Option Bytes) (i : ℕ) (s : State)
    → PlainBytes l
    → Calm s
    → 0 < i
    → scan_level topic (glue l o) i s ≡ level_end topic (i + length l) o
unfolding scan_level
scan_lem topic [] none i s p c h = refl
scan_lem topic [] (some rem) i state_chr p c h = ground arith
scan_lem topic [] (some rem) i state_sys p c h = ground arith
scan_lem topic [] (some rem) i state_mwc p c h = absurd c
scan_lem topic [] (some rem) i state_swc p c h = absurd c
scan_lem topic (x ∷ l) o i state_mwc p c h = absurd c
scan_lem topic (x ∷ l) o i state_swc p c h = absurd c
scan_lem topic (x ∷ l) o i state_chr p c h =
    scan_step topic x l o i state_chr p c h
      (λ s c'. scan_lem topic l o (i + 1) s p.1 c' (omega arith))
scan_lem topic (x ∷ l) o i state_sys p c h =
    scan_step topic x l o i state_sys p c h
      (λ s c'. scan_lem topic l o (i + 1) s p.1 c' (omega arith))

level_end-glue : (l : Bytes) (o : Option Bytes) → level_end (glue l o) (length l) o ≡ some (l, o)
level_end-glue l none = refl
level_end-glue l (some rem) = ap (λ k. some (k, some rem)) (take-front l (47 ∷ rem))

-- A level of a name, and what is behind it.
pub next_topic_level_lem :
    (l : Bytes) (o : Option Bytes) → Plain l → next_topic_level (glue l o) ≡ some (l, o)
unfolding next_topic_level
next_topic_level_lem [] o p = absurd p
next_topic_level_lem (x ∷ l) o p =
    ap (λ t. scan_level (glue (x ∷ l) o) t 0 state_chr) (glue_cons x l o)
    ∙ scan_level-regular (glue (x ∷ l) o) x (glue l o) 0 state_chr state_chr p.1.0.0
        (ground (arith, p.0, p.1))
    ∙ scan_lem (glue (x ∷ l) o) l o 1 state_chr p.1.1 tt (omega arith)
    ∙ ap (λ k. level_end (glue (x ∷ l) o) k o) {y = length (x ∷ l)} (omega arith)
    ∙ level_end-glue (x ∷ l) o
