-- ===== src/Wire/Subscribe/Options.antt =====
-- SUBSCRIBE: the calls that set an option as changes of a list of filters.
use simq.Base.{ℕ, refl, sym, ◌∙◌, Bool, true, List, map, inl, inr}
use simq.Wire.Subscribe.{
  SubscribeMessage, byte_of, set_topic_no_local, set_topic_retain_as_published,
  set_topic_retain_handling,
}
use simq.Wire.Subscribe.Filters.{Filter, topic_of, Shows, change_first, find-cases, keep-Found}
use simq.Wire.Subscribe.Edits.{plan, plan, plan, plan, plan, plan, plan}
use simq.Wire.Subscribe.Edits.{sets_no_local, sets_retain_as_published, sets_retain_handling}
use simq.Wire.Subscribe.Changes.{Edited, Edited, found_in, found_in, store_in, store_in}

pub no_local-Shows :
    {m : SubscribeMessage} {fs : List Filter} (t : List ℕ) (b : Bool)
    → Shows m fs
    → Edited m (set_topic_no_local m t b) (plan fs (sets_no_local t b))
unfolding set_topic_no_local
no_local-Shows {m} {fs} t b s =
    let g : Filter → Filter = λ f. record f { no_local = byte_of b } in
    elim (find-cases fs t) [
      | inl v ↦ (m, simp (found_in t s v.not_found, set_topic_no_local), rw (v.unchanged g) s)
      | inr (i, e, v) ↦ (
        record m {
          no_local = map (λ f. f.no_local) (change_first g fs t);
          header = record m.header { dirty = true };
        },
        simp (
          set_topic_no_local,
          found_in t s e,
          store_in (λ f. f.no_local) (byte_of b) g v refl s.no_local,
        ),
        record {
          topics = s.topics ∙ sym (keep-Found v topic_of g (λ f. refl));
          qos = s.qos ∙ sym (keep-Found v (λ f. f.qos) g (λ f. refl));
          no_local = refl;
          retain_as_pub = s.retain_as_pub ∙ sym (keep-Found v (λ f. f.retain_as_pub) g (λ f. refl));
          retain_handling =
              s.retain_handling ∙ sym (keep-Found v (λ f. f.retain_handling) g (λ f. refl));
        },
      )
    ]

pub retain_as_published-Shows :
    {m : SubscribeMessage} {fs : List Filter} (t : List ℕ) (b : Bool)
    → Shows m fs
    → Edited m (set_topic_retain_as_published m t b) (plan fs (sets_retain_as_published t b))
unfolding set_topic_retain_as_published
retain_as_published-Shows {m} {fs} t b s =
    let g : Filter → Filter = λ f. record f { retain_as_pub = byte_of b } in
    elim (find-cases fs t) [
      | inl v ↦
          (m, simp (found_in t s v.not_found, set_topic_retain_as_published), rw (v.unchanged g) s)
      | inr (i, e, v) ↦ (
        record m {
          retain_as_pub = map (λ f. f.retain_as_pub) (change_first g fs t);
          header = record m.header { dirty = true };
        },
        simp (
          set_topic_retain_as_published,
          found_in t s e,
          store_in (λ f. f.retain_as_pub) (byte_of b) g v refl s.retain_as_pub,
        ),
        record {
          topics = s.topics ∙ sym (keep-Found v topic_of g (λ f. refl));
          qos = s.qos ∙ sym (keep-Found v (λ f. f.qos) g (λ f. refl));
          no_local = s.no_local ∙ sym (keep-Found v (λ f. f.no_local) g (λ f. refl));
          retain_as_pub = refl;
          retain_handling =
              s.retain_handling ∙ sym (keep-Found v (λ f. f.retain_handling) g (λ f. refl));
        },
      )
    ]

pub retain_handling-Shows :
    {m : SubscribeMessage} {fs : List Filter} (t : List ℕ) (h : ℕ)
    → Shows m fs
    → Edited m (set_topic_retain_handling m t h) (plan fs (sets_retain_handling t h))
unfolding set_topic_retain_handling
retain_handling-Shows {m} {fs} t h s =
    let g : Filter → Filter = λ f. record f { retain_handling = h } in
    elim (find-cases fs t) [
      | inl v ↦
          (m, simp (found_in t s v.not_found, set_topic_retain_handling), rw (v.unchanged g) s)
      | inr (i, e, v) ↦ (
        record m {
          retain_handling = map (λ f. f.retain_handling) (change_first g fs t);
          header = record m.header { dirty = true };
        },
        simp (
          set_topic_retain_handling,
          found_in t s e,
          store_in (λ f. f.retain_handling) h g v refl s.retain_handling,
        ),
        record {
          topics = s.topics ∙ sym (keep-Found v topic_of g (λ f. refl));
          qos = s.qos ∙ sym (keep-Found v (λ f. f.qos) g (λ f. refl));
          no_local = s.no_local ∙ sym (keep-Found v (λ f. f.no_local) g (λ f. refl));
          retain_as_pub = s.retain_as_pub ∙ sym (keep-Found v (λ f. f.retain_as_pub) g (λ f. refl));
          retain_handling = refl;
        },
      )
    ]
