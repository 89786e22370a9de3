-- ===== src/Topics/Subscribe.antt =====
-- `Subscribe` of a filter that no other provider takes.
use simq.Base.{
  ℕ, suc, ◌+◌, ◌≡◌, ◌≤◌, ap, ◌∙◌, true, false, not, List, [], ◌∷◌, ◌++◌, none, some, length,
  if◌then◌else◌, arith, inl, inr, ◌⊎◌,
}
use simq.Wire.Codes.{valid_qos}
use simq.Topics.{Bytes, Sub, SNode, bad_qos, swc, sinsert, insert_entry}
use simq.Topics.Levels.{name, rest_name, glue, Plain}
use simq.Topics.Match.{IsTree}
use simq.Topics.Changes.{subs_at, Changed}
use simq.Topics.Insert.{IsFilter}
use simq.Topics.Update.{sinsert-Changed}
use simq.Topics.Dispatch.{
  to_tree, route, granted_qos, refused, subscribe, subscribe_by, capped, answer,
}

length-glue : (l : Bytes) (r : Bytes) → length (l ++ (47 ∷ r)) ≡ length l + suc (length r)
length-glue [] r = omega arith
length-glue (x ∷ l) r = omega (arith, length-glue l r)

level_long : (l : Bytes) → (Plain l ⊎ (l ≡ swc)) → 1 ≤ length l
level_long [] (inl p) = absurd p
level_long [] (inr e) = absurd (cc e)
level_long (x ∷ l) h = omega arith

-- A filter has no more levels than bytes.
pub levels_le : (ks : List Bytes) → IsFilter ks → length ks ≤ length (name ks false)
levels_le [] f = omega arith
levels_le (k ∷ []) (inl (h, f)) = omega (arith, level_long k h)
levels_le (k ∷ []) (inr (e, n)) = omega (arith, ap length e)
levels_le (k ∷ k' ∷ ks) (inl (h, f)) =
    omega (arith, levels_le (k' ∷ ks) f, length-glue k (glue k' (rest_name ks false)))
levels_le (k ∷ k' ∷ ks) (inr (e, n)) = absurd (cc n)

capped-valid : (s : Sub) → valid_qos s.qos ≡ true → capped s ≡ s
capped-valid s q = ground (arith, q)

pub subscribe-tree :
    (root n' : SNode) (s : Sub) (sub : ℕ)
    → valid_qos s.qos ≡ true
    → route s.topic ≡ to_tree
    → sinsert (length s.topic) root s sub ≡ (n', none)
    → subscribe root s (some sub) ≡ (n', granted_qos s.qos)
unfolding subscribe
subscribe-tree root n' s sub q r e =
    ap
      (λ b.
        if not b
        then (root, refused bad_qos)
        else subscribe_by (route (capped s).topic) root (capped s) sub)
      q
    ∙ ap (λ (z : Sub). subscribe_by (route z.topic) root z sub) (capped-valid s q)
    ∙ ap (λ z. subscribe_by z root s sub) r
    ∙ ap (λ z. (z.0, answer s.qos z.1)) e

-- In a tree where no two children have the same name, `Subscribe` of a filter that goes to the tree,
-- with a valid QoS, returns that QoS and has no error; the subscriber gets the options under that
-- filter, and nothing changes under any other filter.
pub subscribe-Changed :
    (root : SNode) (ks : List Bytes) (s : Sub) (sub : ℕ)
    → IsTree root
    → IsFilter ks
    → s.topic ≡ name ks false
    → valid_qos s.qos ≡ true
    → route s.topic ≡ to_tree
    → (n' : SNode) × (subscribe root s (some sub) ≡ (n', granted_qos s.qos))
      × Changed root ks (insert_entry (subs_at root ks) (record s { topic = [] }) sub) n'
subscribe-Changed root ks s sub v f e q r =
    let (n', h, c) =
      sinsert-Changed (length s.topic) root ks s sub v (omega (arith, levels_le ks f, ap length e))
        f e in
    (n', subscribe-tree root n' s sub q r h, c)
