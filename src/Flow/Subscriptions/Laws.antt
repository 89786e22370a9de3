-- ===== src/Flow/Subscriptions/Laws.antt =====
-- What a service relies on at its topics manager, and what its lists of topics and reason codes do.
use simq.Base.{
  ℕ, ◌≡◌, refl, sym, ap, true, List, [], ◌∷◌, ◌++◌, none, some, ltb, arith, append-nil,
  append_assoc, inl, inr, Bool-cases,
}
use simq.Topics.{Bytes, Sub, same_bytes}
use simq.Topics.Complete.{same_bytes_eq, same_bytes_refl}
use simq.Wire.Codes.{valid_qos}
use simq.Wire.Subscribe.{SubscribeMessage}
use simq.Wire.Subscribe.Filters.{Filter, lookup}
use simq.Wire.Subscribe.Distinct.{Distinct}
use simq.Wire.Suback.{SubackMessage, add_reason_codes}
use simq.Flow.Subscriptions.{put_sub, has_sub, Manager}

-- What the service relies on: the manager grants the QoS of a subscription that it accepts, and what
-- is retained does not depend on subscriptions.
pub record Laws {T M : Type 0} (g : Manager T M) : Type 1 where
  pub Good : T → Type 0
  pub Accepts : Sub → Type 0
  pub granted :
      (t : T) (s : Sub)
      → Good t
      → Accepts s
      → (t' : T) × (g.subscribe t s ≡ (t', some s.qos))
        × Good t'
        × ((topic : Bytes) → g.retained t' topic ≡ g.retained t topic)

-- A subscription as `processSubscribe` makes it of a filter.
abbrev pub sub_of : SubscribeMessage → Filter → Sub
sub_of m f = record {
  topic = f.topic;
  qos = f.qos;
  no_local = ltb 0 f.no_local;
  retain_as_published = ltb 0 f.retain_as_pub;
  retain_handling = f.retain_handling;
  sub_identifier = m.sub_identifier;
}

abbrev pub put_all : SubscribeMessage → List Sub → List Filter → List Sub
put_all m subs [] = subs
put_all m subs (f ∷ fs) = put_all m (put_sub subs (sub_of m f)) fs

pub has_sub-put_sub : (subs : List Sub) (s : Sub) → has_sub (put_sub subs s) s.topic ≡ true
has_sub-put_sub [] s = ground (arith, same_bytes_refl s.topic)
has_sub-put_sub (x ∷ xs) s = ground (arith, same_bytes_refl s.topic, has_sub-put_sub xs s)

-- All codes of a granted SUBSCRIBE are taken.
abbrev pub AllQos : List ℕ → Type 0
AllQos [] = Unit {0}
AllQos (q ∷ qs) = (valid_qos q ≡ true) × AllQos qs

pub add_reason_codes_all :
    (r : SubackMessage) (cs : List ℕ)
    → AllQos cs
    → ((add_reason_codes r cs).1 ≡ true)
      × ((add_reason_codes r cs).0.reason_codes ≡ r.reason_codes ++ cs)
unfolding add_reason_codes
add_reason_codes_all r [] v = (refl, sym (append-nil r.reason_codes))
add_reason_codes_all r (c ∷ cs) v =
    let (e, s) =
      add_reason_codes_all (record r { reason_codes = r.reason_codes ++ (c ∷ []) }) cs v.1 in
    ground (arith, v.0, e, s, append_assoc r.reason_codes (c ∷ []) cs)

lookup_here : (f : Filter) (fs : List Filter) → lookup (f ∷ fs) f.topic ≡ some f
unfolding lookup
lookup_here f fs = ground (arith, same_bytes_refl f.topic)

-- Every filter is the first of its topic in `all`.
abbrev pub Leads : List Filter → List Filter → Type 0
Leads all [] = Unit {0}
Leads all (f ∷ fs) = (lookup all f.topic ≡ some f) × Leads all fs

Leads-more :
    (f : Filter) (all fs : List Filter)
    → lookup all f.topic ≡ none
    → Leads all fs
    → Leads (f ∷ all) fs
unfolding lookup
Leads-more f all [] n l = tt
Leads-more f all (g ∷ gs) n l = (
  elim (Bool-cases (same_bytes f.topic g.topic)) [
    | inl s ↦ absurd (ground (arith, n, ap (lookup all) (same_bytes_eq f.topic g.topic s), l.0))
    | inr s ↦ ground (arith, s, l.0)
  ],
  Leads-more f all gs n l.1,
)

pub Distinct-Leads : (fs : List Filter) → Distinct fs → Leads fs fs
Distinct-Leads [] d = tt
Distinct-Leads (f ∷ fs) d = (lookup_here f fs, Leads-more f fs fs d.0 (Distinct-Leads fs d.1))
