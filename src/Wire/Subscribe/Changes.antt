-- ===== src/Wire/Subscribe/Changes.antt =====
-- SUBSCRIBE: `AddTopic`, `AddTopicAll` and `RemoveTopic` as changes of a list of filters.
use simq.Base.{
  ℕ, ◌≡◌, refl, sym, ap, ◌∙◌, true, List, [], ◌∷◌, ◌++◌, map, Option, none, some, Outcome, ok, inl,
  inr,
}
use simq.Wire.Subscribe.{
  SubscribeMessage, find_topic, store, cut, set_qos_at, append_topic, remove_topic,
}
use simq.Wire.Subscribe.Filters.{
  Filter, topic_of, Shows, change_first, remove_first, Found, find-cases, map-append, store-Found,
  keep-Found, cut-Found,
}
use simq.Wire.Subscribe.Edits.{kept, kept, kept, kept, kept, put, put}

abbrev pub Edited : SubscribeMessage → Outcome SubscribeMessage → List Filter → Type 0
Edited m o fs = (m' : SubscribeMessage) × (kept m o ≡ ok m') × Shows m' fs

set_qos-Shows :
    {m : SubscribeMessage} {fs : List Filter} {t : List ℕ} {i : ℕ} (q : ℕ)
    → Shows m fs
    → Found fs t i
    → Edited m (set_qos_at m i q) (change_first (λ g. record g { qos = q }) fs t)
unfolding set_qos_at
set_qos-Shows {m} {fs} {t} q s v =
    let g : Filter → Filter = λ f. record f { qos = q } in
    (
      record m { qos = map (λ f. f.qos) (change_first g fs t) },
      rw (s.qos, store-Found v (λ f. f.qos) q g refl),
      record {
        topics = s.topics ∙ sym (keep-Found v topic_of g (λ f. refl));
        qos = refl;
        no_local = s.no_local ∙ sym (keep-Found v (λ f. f.no_local) g (λ f. refl));
        retain_as_pub = s.retain_as_pub ∙ sym (keep-Found v (λ f. f.retain_as_pub) g (λ f. refl));
        retain_handling =
            s.retain_handling ∙ sym (keep-Found v (λ f. f.retain_handling) g (λ f. refl));
      },
    )

pub append-Shows :
    {m : SubscribeMessage} {fs : List Filter} (f : Filter)
    → Shows m fs
    → Shows
        (append_topic m f.topic f.qos f.no_local f.retain_as_pub f.retain_handling)
        (fs ++ (f ∷ []))
append-Shows {m} {fs} f s = record {
  topics = ap (λ xs. xs ++ (f.topic ∷ [])) s.topics ∙ sym (map-append topic_of fs (f ∷ []));
  qos = ap (λ xs. xs ++ (f.qos ∷ [])) s.qos ∙ sym (map-append (λ g. g.qos) fs (f ∷ []));
  no_local =
      ap (λ xs. xs ++ (f.no_local ∷ [])) s.no_local
      ∙ sym (map-append (λ g. g.no_local) fs (f ∷ []));
  retain_as_pub =
      ap (λ xs. xs ++ (f.retain_as_pub ∷ [])) s.retain_as_pub
      ∙ sym (map-append (λ g. g.retain_as_pub) fs (f ∷ []));
  retain_handling =
      ap (λ xs. xs ++ (f.retain_handling ∷ [])) s.retain_handling
      ∙ sym (map-append (λ g. g.retain_handling) fs (f ∷ []));
}

pub found_in :
    {m : SubscribeMessage} {fs : List Filter} (t : List ℕ) {o : Option ℕ}
    → Shows m fs
    → find_topic (map topic_of fs) t ≡ o
    → find_topic m.topics t ≡ o
found_in t s e = ap (λ xs. find_topic xs t) s.topics ∙ e

cut_in :
    {fs : List Filter} {t : List ℕ} {i : ℕ} {A : Type 0} (p : Filter → A) {xs : List A}
    → Found fs t i
    → xs ≡ map p fs
    → cut xs i ≡ ok (map p (remove_first fs t))
cut_in {i} p v e = ap (λ ys. cut ys i) e ∙ cut-Found v p

pub store_in :
    {fs : List Filter} {t : List ℕ} {i : ℕ} (p : Filter → ℕ) (x : ℕ) (g : Filter → Filter)
    {xs : List ℕ}
    → (v : Found fs t i) → p (g v.here) ≡ x
    → xs ≡ map p fs
    → store xs i x ≡ ok (map p (change_first g fs t))
store_in {i} p x g v d e = ap (λ ys. store ys i x) e ∙ store-Found v p x g d

-- `AddTopic` and `AddTopicAll` behind their guards.
pub put-Shows :
    {m : SubscribeMessage} {fs : List Filter} (f : Filter)
    → Shows m fs
    → Edited m
        (elim (find_topic m.topics f.topic) as (λ _. Outcome SubscribeMessage) [
          | some i ↦ set_qos_at m i f.qos
          | none ↦ ok (append_topic m f.topic f.qos f.no_local f.retain_as_pub f.retain_handling)
        ])
        (put fs f)
unfolding put
put-Shows {m} {fs} f s = elim (find-cases fs f.topic) [
  | inl v ↦ simp (found_in f.topic s v.not_found, v.not_looked_up, put) (_, refl, append-Shows f s)
  | inr (i, e, v) ↦ simp (found_in f.topic s e, v.looked_up, put) (set_qos-Shows f.qos s v)
]

pub remove-Shows :
    {m : SubscribeMessage} {fs : List Filter} (t : List ℕ)
    → Shows m fs
    → Edited m (remove_topic m t) (remove_first fs t)
unfolding remove_topic
remove-Shows {m} {fs} t s = elim (find-cases fs t) [
  | inl v ↦ (
    record m { header = record m.header { dirty = true } },
    simp (found_in t s v.not_found, remove_topic),
    rw v.kept (record {
      topics = s.topics;
      qos = s.qos;
      no_local = s.no_local;
      retain_as_pub = s.retain_as_pub;
      retain_handling = s.retain_handling;
    }),
  )
  | inr (i, e, v) ↦ (
    record m {
      header = record m.header { dirty = true };
      topics = map topic_of (remove_first fs t);
      qos = map (λ f. f.qos) (remove_first fs t);
      no_local = map (λ f. f.no_local) (remove_first fs t);
      retain_as_pub = map (λ f. f.retain_as_pub) (remove_first fs t);
      retain_handling = map (λ f. f.retain_handling) (remove_first fs t);
    },
    simp (
      remove_topic,
      found_in t s e,
      cut_in topic_of v s.topics,
      cut_in (λ f. f.qos) v s.qos,
      cut_in (λ f. f.no_local) v s.no_local,
      cut_in (λ f. f.retain_as_pub) v s.retain_as_pub,
      cut_in (λ f. f.retain_handling) v s.retain_handling,
    ),
    record {
      topics = refl;
      qos = refl;
      no_local = refl;
      retain_as_pub = refl;
      retain_handling = refl;
    },
  )
]
