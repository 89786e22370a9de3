-- ===== src/Wire/Subscribe/Read.antt =====
-- SUBSCRIBE: the topics of a packet are read back.
use simq.Base.{
  ℕ, zero, suc, ◌+◌, ◌-◌, ◌<◌, ◌≡◌, refl, sym, ap, subst, ◌∙◌, List, [], ◌∷◌, ◌++◌, length,
  length-append, append-nil, append_assoc, ok, arith,
}
use simq.Wire.Slice.{Slice, Rest, Rest-step, Rest-index, at-Rest}
use simq.Wire.Strings.Laws.{lp, read_at-lp}
use simq.Wire.Subscribe.{SubscribeMessage}
use simq.Wire.Subscribe.Filters.{Filter, Shows}
use simq.Wire.Subscribe.Changes.{append-Shows}
use simq.Wire.Subscribe.Codec.{append_filter, read_filters}
use simq.Wire.Subscribe.Build.{IsFilter, AreFilters, op_of, op_of-Read, filters_bytes}

-- The message with one more filter, and with more of them.
abbrev add_filter : SubscribeMessage → Filter → SubscribeMessage
add_filter m f = record m {
  topics = m.topics ++ (f.topic ∷ []);
  qos = m.qos ++ (f.qos ∷ []);
  no_local = m.no_local ++ (f.no_local ∷ []);
  retain_as_pub = m.retain_as_pub ++ (f.retain_as_pub ∷ []);
  retain_handling = m.retain_handling ++ (f.retain_handling ∷ []);
}

unfoldable pub with_filters : SubscribeMessage → List Filter → SubscribeMessage
with_filters m [] = m
with_filters m (f ∷ fs) = with_filters (add_filter m f) fs

append_filter-op_of :
    (m : SubscribeMessage) (f : Filter)
    → IsFilter f
    → append_filter m f.topic (op_of f) ≡ add_filter m f
append_filter-op_of m f v =
    let r = op_of-Read f v in simp (r.qos, r.no_local, r.retain_as_pub, r.retain_handling)

one_filter :
    (fuel total remlen : ℕ) {src : Slice} (m : SubscribeMessage) (f : Filter) (rest : List ℕ)
    → IsFilter f
    → 0 < remlen
    → Rest src total (lp f.topic ++ (op_of f ∷ rest))
    → (read_filters (suc fuel) src total remlen m
        ≡ read_filters fuel src
            (total + (2 + length f.topic) + 1)
            (remlen - (2 + length f.topic) - 1)
            (add_filter m f))
      × Rest src (total + (2 + length f.topic) + 1) rest
unfolding read_filters
one_filter fuel total remlen {src} m f rest v pos r =
    let r₁ : Rest src (total + (2 + length f.topic)) (op_of f ∷ rest) =
      Rest-index _ (Rest-step (lp f.topic) (op_of f ∷ rest) r) (omega arith) in
    let d = op_of-Read f v in
    let q = v.qos in
    let h = v.retain_handling in
    (
      ground (
        arith,
        read_at-lp f.topic (op_of f ∷ rest) v.short r,
        at-Rest r₁,
        d.qos,
        d.retain_handling,
        d.no_more,
      )
          ∙ ap (read_filters fuel src _ _) (append_filter-op_of m f v),
      Rest-step (op_of f ∷ []) rest r₁,
    )

pub read_filters-bytes :
    (fuel total remlen : ℕ) (src : Slice) (m : SubscribeMessage) (fs : List Filter)
    → AreFilters fs
    → remlen ≡ length (filters_bytes fs)
    → remlen < fuel
    → Rest src total (filters_bytes fs)
    → read_filters fuel src total remlen m ≡ ok (total + remlen, with_filters m fs)
unfolding read_filters filters_bytes with_filters
read_filters-bytes zero total remlen src m fs v e l r = absurd (omega arith)
read_filters-bytes (suc fuel) total remlen src m [] v e l r = ground arith
read_filters-bytes (suc fuel) total remlen src m (f ∷ fs) v e l r =
    let n : length (lp f.topic ++ (op_of f ∷ filters_bytes fs))
        ≡ 3 + length f.topic + length (filters_bytes fs) =
      omega (arith, length-append f.topic (op_of f ∷ filters_bytes fs)) in
    let (e₁, r₁) = one_filter fuel total remlen m f (filters_bytes fs) v.0 (omega arith) r in
    e₁
    ∙ read_filters-bytes fuel _ (remlen - (2 + length f.topic) - 1) src (add_filter m f) fs v.1
        (omega arith) (omega arith) r₁
    ∙ ap (λ k. ok (k, with_filters (add_filter m f) fs)) (omega arith)

-- The rest of the message stays.
pub record Kept (m m' : SubscribeMessage) : Type 0 where
  pub header : m'.header ≡ m.header
  pub properties_len : m'.properties_len ≡ m.properties_len
  pub sub_identifier : m'.sub_identifier ≡ m.sub_identifier
  pub user_property : m'.user_property ≡ m.user_property

pub with_filters-Kept : (m : SubscribeMessage) (fs : List Filter) → Kept m (with_filters m fs)
unfolding with_filters
with_filters-Kept m [] = record {
  header = refl;
  properties_len = refl;
  sub_identifier = refl;
  user_property = refl;
}
with_filters-Kept m (f ∷ fs) =
    let k = with_filters-Kept (add_filter m f) fs in
    record {
      header = k.header;
      properties_len = k.properties_len;
      sub_identifier = k.sub_identifier;
      user_property = k.user_property;
    }

pub with_filters-Shows :
    (m : SubscribeMessage) (gs fs : List Filter) → Shows m gs → Shows (with_filters m fs) (gs ++ fs)
unfolding with_filters
with_filters-Shows m gs [] s = subst (Shows m) (sym (append-nil gs)) s
with_filters-Shows m gs (f ∷ fs) s =
    let a = append-Shows f s in
    subst (Shows (with_filters (add_filter m f) fs)) (append_assoc gs (f ∷ []) fs) (
      with_filters-Shows (add_filter m f) (gs ++ (f ∷ [])) fs (record {
        topics = a.topics;
        qos = a.qos;
        no_local = a.no_local;
        retain_as_pub = a.retain_as_pub;
        retain_handling = a.retain_handling;
      }))
