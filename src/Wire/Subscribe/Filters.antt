-- ===== src/Wire/Subscribe/Filters.antt =====
-- SUBSCRIBE: its topics with their options as one list, which the five lists of the message show.
use simq.Base.{
  ℕ, suc, ◌≡◌, refl, sym, ap, ◌∙◌, true, false, List, [], ◌∷◌, ◌++◌, map, length, take, drop, set,
  get_or, if◌then◌else◌, Option, none, some, ok, arith, ◌⊎◌, inl, inr, length-append, length-map,
  Bool-cases,
}
use simq.Topics.{same_bytes}
use simq.Wire.Subscribe.{SubscribeMessage, find_topic, index, store, cut}

pub record Filter : Type 0 where
  pub topic : List ℕ
  pub qos : ℕ
  pub no_local : ℕ
  pub retain_as_pub : ℕ
  pub retain_handling : ℕ

abbrev pub topic_of : Filter → List ℕ
topic_of f = f.topic

pub record Shows (m : SubscribeMessage) (fs : List Filter) : Type 0 where
  pub topics : m.topics ≡ map topic_of fs
  pub qos : m.qos ≡ map (λ f. f.qos) fs
  pub no_local : m.no_local ≡ map (λ f. f.no_local) fs
  pub retain_as_pub : m.retain_as_pub ≡ map (λ f. f.retain_as_pub) fs
  pub retain_handling : m.retain_handling ≡ map (λ f. f.retain_handling) fs

-- The first filter of a topic: found, changed and taken out.
unfoldable pub lookup : List Filter → List ℕ → Option Filter
lookup [] t = none
lookup (f ∷ fs) t = let later = lookup fs t in if same_bytes f.topic t then some f else later

unfoldable pub change_first : (Filter → Filter) → List Filter → List ℕ → List Filter
change_first g [] t = []
change_first g (f ∷ fs) t =
    let later = change_first g fs t in if same_bytes f.topic t then g f ∷ fs else f ∷ later

unfoldable pub remove_first : List Filter → List ℕ → List Filter
remove_first [] t = []
remove_first (f ∷ fs) t =
    let later = remove_first fs t in if same_bytes f.topic t then fs else f ∷ later

-- What the loops over the topics find at the index `i`.
pub record Found (fs : List Filter) (t : List ℕ) (i : ℕ) : Type 0 where
  pub before : List Filter
  pub here : Filter
  pub behind : List Filter
  pub parts : fs ≡ before ++ (here ∷ behind)
  pub at_index : length before ≡ i
  pub looked_up : lookup fs t ≡ some here
  pub changed : (g : Filter → Filter) → change_first g fs t ≡ before ++ (g here ∷ behind)
  pub removed : remove_first fs t ≡ before ++ behind

pub record Missing (fs : List Filter) (t : List ℕ) : Type 0 where
  pub not_found : find_topic (map topic_of fs) t ≡ none
  pub not_looked_up : lookup fs t ≡ none
  pub unchanged : (g : Filter → Filter) → change_first g fs t ≡ fs
  pub kept : remove_first fs t ≡ fs

first-Found :
    (f : Filter) (fs : List Filter) (t : List ℕ) → same_bytes f.topic t ≡ true → Found (f ∷ fs) t 0
unfolding lookup change_first remove_first
first-Found f fs t e = record {
  before = [];
  here = f;
  behind = fs;
  parts = refl;
  at_index = refl;
  looked_up = rw e;
  changed = λ g. rw e;
  removed = rw e;
}

later-Found :
    (f : Filter) {fs : List Filter} {t : List ℕ} {i : ℕ}
    → same_bytes f.topic t ≡ false
    → Found fs t i
    → Found (f ∷ fs) t (suc i)
unfolding lookup change_first remove_first
later-Found f e v = record {
  before = f ∷ v.before;
  here = v.here;
  behind = v.behind;
  parts = ap (λ xs. f ∷ xs) v.parts;
  at_index = ap suc v.at_index;
  looked_up = rw e v.looked_up;
  changed = λ g. rw e (ap (λ xs. f ∷ xs) (v.changed g));
  removed = rw e (ap (λ xs. f ∷ xs) v.removed);
}

later-Missing :
    (f : Filter) {fs : List Filter} {t : List ℕ}
    → same_bytes f.topic t ≡ false
    → Missing fs t
    → Missing (f ∷ fs) t
unfolding find_topic lookup change_first remove_first
later-Missing f e v = record {
  not_found = rw (e, v.not_found);
  not_looked_up = rw e v.not_looked_up;
  unchanged = λ g. rw e (ap (λ xs. f ∷ xs) (v.unchanged g));
  kept = rw e (ap (λ xs. f ∷ xs) v.kept);
}

pub find-cases :
    (fs : List Filter) (t : List ℕ)
    → Missing fs t ⊎ ((i : ℕ) × (find_topic (map topic_of fs) t ≡ some i) × Found fs t i)
unfolding find_topic lookup change_first remove_first
find-cases [] t =
    inl (record { not_found = refl; not_looked_up = refl; unchanged = λ g. refl; kept = refl })
find-cases (f ∷ fs) t = elim (Bool-cases (same_bytes f.topic t)) [
  | inl e ↦ inr (0, rw e, first-Found f fs t e)
  | inr e ↦ elim (find-cases fs t) [
    | inl v ↦ inl (later-Missing f e v)
    | inr (i, s, v) ↦ inr (suc i, rw (e, s), later-Found f e v)
  ]
]

-- Reads, writes and cuts of a list in front of `zs`.
pub map-append {ℓ} :
    {A : Type ℓ} (p : Filter → A) (xs ys : List Filter) → map p (xs ++ ys) ≡ map p xs ++ map p ys
map-append p [] ys = refl
map-append p (x ∷ xs) ys = ap (λ zs. p x ∷ zs) (map-append p xs ys)

get_or-middle : (xs : List ℕ) (y d : ℕ) (zs : List ℕ) → get_or (xs ++ (y ∷ zs)) (length xs) d ≡ y
get_or-middle [] y d zs = refl
get_or-middle (x ∷ xs) y d zs = get_or-middle xs y d zs

set-middle :
    (xs : List ℕ) (y v : ℕ) (zs : List ℕ) → set (xs ++ (y ∷ zs)) (length xs) v ≡ xs ++ (v ∷ zs)
set-middle [] y v zs = refl
set-middle (x ∷ xs) y v zs = ap (λ ws. x ∷ ws) (set-middle xs y v zs)

cut-middle :
    {A : Type 0} (xs : List A) (y : A) (zs : List A)
    → take (length xs) (xs ++ (y ∷ zs)) ++ drop (suc (length xs)) (xs ++ (y ∷ zs)) ≡ xs ++ zs
cut-middle [] y zs = refl
cut-middle (x ∷ xs) y zs = ap (λ ws. x ∷ ws) (cut-middle xs y zs)

module _ {fs : List Filter} {t : List ℕ} {i : ℕ} (v : Found fs t i) where
  spread {ℓ} :
      {A : Type ℓ} (p : Filter → A) → map p fs ≡ map p v.before ++ (p v.here ∷ map p v.behind)
  spread p = ap (map p) v.parts ∙ map-append p v.before (v.here ∷ v.behind)

  at_map {ℓ} : {A : Type ℓ} (p : Filter → A) → i ≡ length (map p v.before)
  at_map p = sym v.at_index ∙ sym (length-map v.before p)

  pub index-Found : (p : Filter → ℕ) → index (map p fs) i ≡ ok (p v.here)
  unfolding index
  index-Found p =
      rw (spread p, at_map p)
        (ground (
          arith,
          length-append (map p v.before) (p v.here ∷ map p v.behind),
          get_or-middle (map p v.before) (p v.here) 0 (map p v.behind),
        ))

  pub store-Found :
      (p : Filter → ℕ) (x : ℕ) (g : Filter → Filter)
      → p (g v.here) ≡ x
      → store (map p fs) i x ≡ ok (map p (change_first g fs t))
  unfolding store
  store-Found p x g e =
      rw (spread p, at_map p, v.changed g, map-append p v.before (g v.here ∷ v.behind), e)
        (ground (
          arith,
          length-append (map p v.before) (p v.here ∷ map p v.behind),
          set-middle (map p v.before) (p v.here) x (map p v.behind),
        ))

  pub keep-Found :
      {A : Type 0} (p : Filter → A) (g : Filter → Filter)
      → ((f : Filter) → p (g f) ≡ p f)
      → map p (change_first g fs t) ≡ map p fs
  keep-Found p g e =
      rw (spread p, v.changed g, map-append p v.before (g v.here ∷ v.behind), e v.here)

  pub cut-Found : {A : Type 0} (p : Filter → A) → cut (map p fs) i ≡ ok (map p (remove_first fs t))
  unfolding cut
  cut-Found p =
      rw (spread p, at_map p, v.removed, map-append p v.before v.behind)
        (ground (
          arith,
          length-append (map p v.before) (p v.here ∷ map p v.behind),
          cut-middle (map p v.before) (p v.here) (map p v.behind),
        ))
