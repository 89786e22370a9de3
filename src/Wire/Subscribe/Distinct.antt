-- ===== src/Wire/Subscribe/Distinct.antt =====
-- SUBSCRIBE: every topic stands once in a message that is made by its calls.
use simq.Base.{
  ℕ, ◌≡◌, refl, sym, ap, ◌∙◌, true, false, List, [], ◌∷◌, ◌++◌, none, ok, inl, inr, Bool-cases,
  arith, Option-cases,
}
use simq.Topics.{same_bytes}
use simq.Topics.Complete.{same_bytes_eq, same_bytes_refl}
use simq.Wire.Header.{set_type}
use simq.Wire.Subscribe.{SubscribeMessage, new_subscribe, topic_exists, byte_of}
use simq.Wire.Subscribe.Filters.{Filter, lookup, change_first, remove_first}
use simq.Wire.Subscribe.Edits.{
  Edit, adds, adds_all, removes, sets_no_local, sets_retain_as_published, sets_retain_handling,
  edits, put, filter, plan, plans,
}
use simq.Wire.Subscribe.Answers.{edits-Shows, topic_exists-Shows, answer}

-- No two filters have the same topic.
abbrev pub Distinct : List Filter → Type 0
Distinct [] = Unit {0}
Distinct (f ∷ fs) = (lookup fs f.topic ≡ none) × Distinct fs

lookup-change_first :
    (g : Filter → Filter) (fs : List Filter) (t u : List ℕ)
    → ((f : Filter) → (g f).topic ≡ f.topic)
    → lookup fs u ≡ none
    → lookup (change_first g fs t) u ≡ none
unfolding lookup change_first
lookup-change_first g [] t u k e = refl
lookup-change_first g (f ∷ fs) t u k e = ground (arith, lookup-change_first g fs t u k, k f)

change_first-Distinct :
    (g : Filter → Filter) (fs : List Filter) (t : List ℕ)
    → ((f : Filter) → (g f).topic ≡ f.topic)
    → Distinct fs
    → Distinct (change_first g fs t)
unfolding change_first
change_first-Distinct g [] t k d = d
change_first-Distinct g (f ∷ fs) t k d =
    ground
      (arith, lookup-change_first g fs t f.topic k d.0, change_first-Distinct g fs t k d.1, k f)

lookup-remove_first :
    (fs : List Filter) (t u : List ℕ) → lookup fs u ≡ none → lookup (remove_first fs t) u ≡ none
unfolding lookup remove_first
lookup-remove_first [] t u e = refl
lookup-remove_first (f ∷ fs) t u e = ground (arith, lookup-remove_first fs t u)

remove_first-Distinct : (fs : List Filter) (t : List ℕ) → Distinct fs → Distinct (remove_first fs t)
unfolding remove_first
remove_first-Distinct [] t d = d
remove_first-Distinct (f ∷ fs) t d =
    ground (arith, lookup-remove_first fs t f.topic d.0, remove_first-Distinct fs t d.1)

lookup-append :
    (fs : List Filter) (f : Filter) (u : List ℕ)
    → lookup fs u ≡ none
    → same_bytes f.topic u ≡ false
    → lookup (fs ++ (f ∷ [])) u ≡ none
unfolding lookup
lookup-append [] f u e d = rw d
lookup-append (g ∷ fs) f u e d = ground (arith, lookup-append fs f u)

append-Distinct :
    (fs : List Filter) (f : Filter)
    → Distinct fs
    → lookup fs f.topic ≡ none
    → Distinct (fs ++ (f ∷ []))
unfolding lookup
append-Distinct [] f d e = (refl, tt)
append-Distinct (g ∷ fs) f d e = elim (Bool-cases (same_bytes f.topic g.topic)) [
  | inl s ↦
      let same : same_bytes g.topic f.topic ≡ true =
        ap (λ z. same_bytes z f.topic) (sym (same_bytes_eq f.topic g.topic s))
        ∙ same_bytes_refl f.topic in
      absurd (ground (arith, same))
  | inr s ↦ (lookup-append fs f g.topic d.0 s, append-Distinct fs f d.1 (ground (arith, e)))
]

put-Distinct : (fs : List Filter) (f : Filter) → Distinct fs → Distinct (put fs f)
unfolding put
put-Distinct fs f d = elim (Option-cases (lookup fs f.topic)) [
  | inl e ↦ simp (put, e) (append-Distinct fs f d e)
  | inr (g, e) ↦
      simp (put, e) (change_first-Distinct (λ h. record h { qos = f.qos }) fs f.topic (λ h. refl) d)
]

plan-Distinct : (fs : List Filter) (e : Edit) → Distinct fs → Distinct (plan fs e)
plan-Distinct fs (adds t q) d = ground (arith, put-Distinct fs (filter t q false false 0) d)
plan-Distinct fs (adds_all t q n r h) d = ground (arith, put-Distinct fs (filter t q n r h) d)
plan-Distinct fs (removes t) d = remove_first-Distinct fs t d
plan-Distinct fs (sets_no_local t v) d =
    change_first-Distinct (λ g. record g { no_local = byte_of v }) fs t (λ g. refl) d
plan-Distinct fs (sets_retain_as_published t v) d =
    change_first-Distinct (λ g. record g { retain_as_pub = byte_of v }) fs t (λ g. refl) d
plan-Distinct fs (sets_retain_handling t v) d =
    change_first-Distinct (λ g. record g { retain_handling = v }) fs t (λ g. refl) d

plans-Distinct : (fs : List Filter) (es : List Edit) → Distinct fs → Distinct (plans fs es)
unfolding plans
plans-Distinct fs [] d = d
plans-Distinct fs (e ∷ es) d = plans-Distinct (plan fs e) es (plan-Distinct fs e d)

plans-removes :
    (fs : List Filter) (es : List Edit) (t : List ℕ)
    → plans fs (es ++ (removes t ∷ [])) ≡ remove_first (plans fs es) t
unfolding plans
plans-removes fs [] t = refl
plans-removes fs (e ∷ es) t = plans-removes (plan fs e) es t

lookup-removed : (fs : List Filter) (t : List ℕ) → Distinct fs → lookup (remove_first fs t) t ≡ none
unfolding lookup remove_first
lookup-removed [] t d = refl
lookup-removed (f ∷ fs) t d = elim (Bool-cases (same_bytes f.topic t)) [
  | inl s ↦ simp (remove_first, s) (ap (lookup fs) (sym (same_bytes_eq f.topic t s)) ∙ d.0)
  | inr s ↦ simp (lookup, remove_first, s) (lookup-removed fs t d.1)
]

-- Of a new SUBSCRIBE on which any calls are made that add, remove or change topics, some of them
-- refused, and then `RemoveTopic`, the topic does not exist any more, and none of the calls panics.
pub removed :
    (es : List Edit) (t : List ℕ)
    → (m m' : SubscribeMessage) × (new_subscribe ≡ ok m)
      × (edits m (es ++ (removes t ∷ [])) ≡ ok m')
      × (topic_exists m' t ≡ false)
unfolding new_subscribe set_type
removed es t =
    let (m', e, s) = edits-Shows _ [] (es ++ (removes t ∷ [])) (record {
      topics = refl;
      qos = refl;
      no_local = refl;
      retain_as_pub = refl;
      retain_handling = refl;
    }) in
    (
      _,
      m',
      refl,
      e,
      topic_exists-Shows t s
          ∙ ap (answer (λ f. true) false) (
              ap (λ fs. lookup fs t) (plans-removes [] es t)
              ∙ lookup-removed (plans [] es) t (plans-Distinct [] es tt)),
    )
