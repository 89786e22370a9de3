-- ===== src/Wire/Subscribe/Answers.antt =====
-- SUBSCRIBE: any calls that change the topics, and what the calls that ask answer then.
use simq.Base.{
  ℕ, ◌≡◌, refl, ap, ◌∙◌, Bool, true, false, List, [], ◌∷◌, map, ltb, bad_option, if◌then◌else◌,
  Option, none, some, Outcome, ok, ◌>>=◌, inl, inr, not, reject,
}
use simq.Wire.Codes.{valid_qos}
use simq.Wire.Subscribe.{
  SubscribeMessage, index, add_topic, add_topic_all, topic_exists, option_of, topic_qos,
  topic_no_local, topic_retain_as_published, topic_retain_handling,
}
use simq.Wire.Subscribe.Filters.{Filter, Shows, lookup, find-cases, index-Found}
use simq.Wire.Subscribe.Edits.{
  Edit, edit, edit, edit, edit, edit, edit, edit, edits, edits, edits, filter, filter, plan, plan,
  plan, plan, plan, plan, plan, plans, plans, plans,
}
use simq.Wire.Subscribe.Edits.{
  adds, adds_all, removes, sets_no_local, sets_retain_as_published, sets_retain_handling,
}
use simq.Wire.Subscribe.Changes.{
  Edited, Edited, found_in, found_in, put-Shows, put-Shows, remove-Shows, remove-Shows,
}
use simq.Wire.Subscribe.Options.{
  no_local-Shows, no_local-Shows, retain_as_published-Shows, retain_as_published-Shows,
  retain_handling-Shows, retain_handling-Shows,
}

guarded :
    {m : SubscribeMessage} {fs gs : List Filter} (b : Bool) (o : Outcome SubscribeMessage)
    → Shows m fs
    → Edited m o gs
    → Edited m (reject b bad_option >>= λ _. o) (if b then fs else gs)
guarded {m} true o s v = (m, refl, s)
guarded false o s v = v

edit-Shows :
    {m : SubscribeMessage} {fs : List Filter} (e : Edit)
    → Shows m fs
    → Edited m (edit m e) (plan fs e)
unfolding add_topic add_topic_all
edit-Shows (adds t q) s = guarded (not (valid_qos q)) _ s (put-Shows (filter t q false false 0) s)
edit-Shows (adds_all t q n r h) s =
    guarded (not (valid_qos q)) _ s (guarded (ltb 2 h) _ s (put-Shows (filter t q n r h) s))
edit-Shows (removes t) s = remove-Shows t s
edit-Shows (sets_no_local t v) s = no_local-Shows t v s
edit-Shows (sets_retain_as_published t v) s = retain_as_published-Shows t v s
edit-Shows (sets_retain_handling t h) s = retain_handling-Shows t h s

pub edits-Shows :
    (m : SubscribeMessage) (fs : List Filter) (es : List Edit)
    → Shows m fs
    → (m' : SubscribeMessage) × (edits m es ≡ ok m') × Shows m' (plans fs es)
unfolding edits plans
edits-Shows m fs [] s = (m, refl, s)
edits-Shows m fs (e ∷ es) s =
    let (m₁, e₁, s₁) = edit-Shows e s in
    let (m₂, e₂, s₂) = edits-Shows m₁ (plan fs e) es s₁ in
    (m₂, ap (λ o. o >>= λ m'. edits m' es) e₁ ∙ e₂, s₂)

-- What is asked of a filter that may be there.
abbrev pub answer {ℓ} : {A : Type ℓ} → (Filter → A) → A → Option Filter → A
answer p d none = d
answer p d (some f) = p f

option_of-Shows :
    {m : SubscribeMessage} {fs : List Filter} {xs : List ℕ} (p : Filter → ℕ) (t : List ℕ) (d : ℕ)
    → Shows m fs
    → xs ≡ map p fs
    → option_of m.topics xs t d ≡ ok (answer p d (lookup fs t))
unfolding option_of
option_of-Shows {m} {fs} {xs} p t d s x = elim (find-cases fs t) [
  | inl v ↦ simp (option_of, found_in t s v.not_found, v.not_looked_up)
  | inr (i, e, v) ↦
      simp (option_of, found_in t s e, v.looked_up) (ap (λ ys. index ys i) x ∙ index-Found v p)
]

pub topic_exists-Shows :
    {m : SubscribeMessage} {fs : List Filter} (t : List ℕ)
    → Shows m fs
    → topic_exists m t ≡ answer (λ f. true) false (lookup fs t)
unfolding topic_exists
topic_exists-Shows {m} {fs} t s = elim (find-cases fs t) [
  | inl v ↦ simp (topic_exists, found_in t s v.not_found, v.not_looked_up)
  | inr (i, e, v) ↦ simp (topic_exists, found_in t s e, v.looked_up)
]

-- What the calls that ask answer about the topic `t`, by the list of filters.
pub record Answers (m : SubscribeMessage) (fs : List Filter) (t : List ℕ) : Type 0 where
  pub exists : topic_exists m t ≡ answer (λ f. true) false (lookup fs t)
  pub qos : topic_qos m t ≡ ok (answer (λ f. f.qos) 0x80 (lookup fs t))
  pub no_local : topic_no_local m t ≡ ok (ltb 0 (answer (λ f. f.no_local) 0 (lookup fs t)))
  pub retain_as_published :
      topic_retain_as_published m t ≡ ok (ltb 0 (answer (λ f. f.retain_as_pub) 0 (lookup fs t)))
  pub retain_handling :
      topic_retain_handling m t ≡ ok (answer (λ f. f.retain_handling) 0 (lookup fs t))

pub Shows-Answers :
    (m : SubscribeMessage) (fs : List Filter) (t : List ℕ) → Shows m fs → Answers m fs t
Shows-Answers m fs t s = record {
  exists = topic_exists-Shows t s;
  qos = option_of-Shows (λ f. f.qos) t 0x80 s s.qos;
  no_local = ap (λ o. o >>= λ n. ok (ltb 0 n)) (option_of-Shows (λ f. f.no_local) t 0 s s.no_local);
  retain_as_published =
      ap (λ o. o >>= λ n. ok (ltb 0 n))
        (option_of-Shows (λ f. f.retain_as_pub) t 0 s s.retain_as_pub);
  retain_handling = option_of-Shows (λ f. f.retain_handling) t 0 s s.retain_handling;
}

-- A SUBSCRIBE of which the five lists show a list of filters shows one after any calls that add,
-- remove or change topics, some of them refused: none of the calls panics, and for every topic
-- `TopicExists`, `TopicQos`, `TopicNoLocal`, `TopicRetainAsPublished` and `TopicRetainHandling`
-- answer by the first filter of that topic in the list that the same calls make.
pub edits_refine :
    (m : SubscribeMessage) (fs : List Filter) (es : List Edit)
    → Shows m fs
    → (m' : SubscribeMessage) × (edits m es ≡ ok m')
      × Shows m' (plans fs es)
      × ((t : List ℕ) → Answers m' (plans fs es) t)
edits_refine m fs es s =
    let (m', e, s') = edits-Shows m fs es s in (m', e, s', λ t. Shows-Answers m' (plans fs es) t s')
