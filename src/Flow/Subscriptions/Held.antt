-- ===== src/Flow/Subscriptions/Held.antt =====
-- The subscriptions of a session as a map from topics, and what a SUBSCRIBE makes of it.
use simq.Base.{
  ◌≡◌, refl, sym, ap, subst, ◌∙◌, false, List, [], ◌∷◌, Option, none, some, if◌then◌else◌, arith,
  inl, inr, Bool-cases,
}
use simq.Topics.{Bytes, Sub, same_bytes}
use simq.Topics.Complete.{same_bytes_eq, same_bytes_refl}
use simq.Wire.Subscribe.{SubscribeMessage}
use simq.Wire.Subscribe.Filters.{Filter, lookup}
use simq.Wire.Subscribe.Distinct.{Distinct}
use simq.Flow.Subscriptions.{put_sub}
use simq.Flow.Subscriptions.Laws.{sub_of, put_all}

-- The options that a session has for a topic.
abbrev pub sub_for : List Sub → Bytes → Option Sub
sub_for [] t = none
sub_for (x ∷ xs) t = let later = sub_for xs t in if same_bytes x.topic t then some x else later

-- Those after a SUBSCRIBE: the new ones of a topic that it names, and the old ones of any other.
abbrev pub or_old : SubscribeMessage → List Sub → Bytes → Option Filter → Option Sub
or_old m subs t (some f) = some (sub_of m f)
or_old m subs t none = sub_for subs t

self_lem : (a b : Bytes) → a ≡ b → same_bytes a b ≡ false → ⊥
self_lem a b e h = absurd (cc (ap (same_bytes a) (sym e) ∙ same_bytes_refl a, h))

sub_for-put_sub :
    (subs : List Sub) (s : Sub) (t : Bytes)
    → sub_for (put_sub subs s) t ≡ (if same_bytes s.topic t then some s else sub_for subs t)
sub_for-put_sub [] s t = refl
sub_for-put_sub (x ∷ xs) s t = elim (Bool-cases (same_bytes x.topic s.topic)) [
  | inl h ↦
      let e = ap (λ z. same_bytes z t) (same_bytes_eq x.topic s.topic h) in ground (arith, h, e)
  | inr h ↦ elim (Bool-cases (same_bytes x.topic t)) [
    | inl k ↦ elim (Bool-cases (same_bytes s.topic t)) [
      | inl j ↦
          let same = same_bytes_eq x.topic t k ∙ sym (same_bytes_eq s.topic t j) in
          absurd (self_lem x.topic s.topic same h)
      | inr j ↦ ground (arith, h, k, j)
    ]
    | inr k ↦ ground (arith, h, k, sub_for-put_sub xs s t)
  ]
]

-- A topic other than that of `f`.
named_lem :
    (m : SubscribeMessage) (subs : List Sub) (f : Filter) (t : Bytes) (o : Option Filter)
    → same_bytes f.topic t ≡ false
    → or_old m (put_sub subs (sub_of m f)) t o ≡ or_old m subs t o
named_lem m subs f t (some g) h = refl
named_lem m subs f t none h =
    sub_for-put_sub subs (sub_of m f) t
    ∙ ap (λ b. if b then some (sub_of m f) else sub_for subs t) h

pub sub_for-put_all :
    (m : SubscribeMessage) (subs : List Sub) (fs : List Filter) (t : Bytes)
    → Distinct fs
    → sub_for (put_all m subs fs) t ≡ or_old m subs t (lookup fs t)
unfolding lookup
sub_for-put_all m subs [] t d = refl
sub_for-put_all m subs (f ∷ fs) t d =
    sub_for-put_all m (put_sub subs (sub_of m f)) fs t d.1
    ∙ elim (Bool-cases (same_bytes f.topic t)) [
      | inl h ↦
          let other : lookup fs t ≡ none =
            subst (λ z. lookup fs z ≡ none) (same_bytes_eq f.topic t h) d.0 in
          ground (arith, h, other, sub_for-put_sub subs (sub_of m f) t)
      | inr h ↦ named_lem m subs f t (lookup fs t) h ∙ ap (or_old m subs t) (ground (arith, h))
    ]
