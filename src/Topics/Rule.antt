-- ===== src/Topics/Rule.antt =====
-- What a subscription is due, independently of the tree: the MQTT rule for filters, and the QoS.
use simq.Base.{
  ℕ, suc, ◌≡◌, ap, ◌∙◌, Bool, true, false, ◌&&◌, ◌||◌, List, [], ◌∷◌, ◌++◌, length, leb, ltb, ◌==◌,
  if◌then◌else◌, arith, inl, inr, Bool-cases,
}
use simq.Topics.{Bytes, Entry, mwc, swc, same_bytes, is_empty, granted}

-- A filter matches a name, both in levels: `#`, at the end, stands for any levels, none included, and
-- `+` for one level.
unfoldable pub matches : List Bytes → List Bytes → Bool
matches [] [] = true
matches [] (l ∷ ls) = false
matches (k ∷ p) [] = same_bytes k mwc && is_empty p
matches (k ∷ p) (l ∷ ls) =
    let rest = matches p ls in
    if same_bytes k mwc then is_empty p else (same_bytes k swc || same_bytes k l) && rest

unfoldable pub ends_wild : List Bytes → Bool
ends_wild [] = false
ends_wild (k ∷ p) =
    let rest = ends_wild p in if is_empty p then same_bytes k mwc || same_bytes k swc else rest

-- A filter covers a name if it matches it. A name that ends with a separator has an empty level more:
-- it is covered by the filters that match it without that level, and by those that match it with that
-- level, have as many levels and end with a wildcard. By MQTT it would be by those, and no others,
-- that match it with that level: here `a` covers `a/`, and `a/+/#` does not.
unfoldable pub covers : List Bytes → List Bytes → Bool → Bool
covers p ls false = matches p ls
covers p ls true =
    matches p ls || (matches p (ls ++ ([] ∷ [])) && (length p == suc (length ls) && ends_wild p))

-- The lesser of two QoS.
abbrev pub lesser : ℕ → ℕ → ℕ
lesser a b = if ltb b a then b else a

-- The entry with the lesser of its QoS and that of a message.
abbrev pub lowered : ℕ → Entry → Entry
lowered qos e = record {
  who = e.who;
  options = record e.options { qos = lesser qos e.options.qos };
}

pub granted-lowered : (qos : ℕ) (e : Entry) → granted qos e ≡ lowered qos e
granted-lowered qos e = elim (Bool-cases (leb qos e.options.qos)) [
  | inl t ↦
      ap (λ b. if b then record e { options = record e.options { qos = qos } } else e) t
      ∙ ap (λ q. record e { options = record e.options { qos = q } }) (ground (arith, t))
  | inr f ↦
      ap (λ b. if b then record e { options = record e.options { qos = qos } } else e) f
      ∙ ap (λ q. record e { options = record e.options { qos = q } }) (ground (arith, f))
]
