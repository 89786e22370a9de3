-- ===== src/Topics/Covers.antt =====
-- The filters that the loops of `smatch` get to are those that cover the name.
use simq.Base.{
  suc, ◌≡◌, refl, sym, ap, ap₂, ◌∙◌, Bool, true, false, ◌&&◌, ◌||◌, List, [], ◌∷◌, ◌++◌, length,
  ◌==◌, if◌then◌else◌, arith,
}
use simq.Topics.{Bytes, mwc, swc, same_bytes, is_empty}
use simq.Topics.Rule.{matches, ends_wild, covers}
use simq.Topics.Match.{visits}

and_false : (b c : Bool) → (b && (false && c)) ≡ false
and_false true c = refl
and_false false c = refl

-- A level of the filter and one of the name, as Booleans; and a level of the filter behind the name.
level_lem :
    (h x e m n z y w k v : Bool)
    → (m || (n && (y && w))) ≡ v
    → (e && y) ≡ false
    → z ≡ y
    → ((if h then e else x && m) || ((if h then e else x && n) && (z && (if e then k else w))))
      ≡ (if h then e else x && v)
level_lem true x true m n z y w k v i f g = refl
level_lem true x false m n z y w k v i f g = refl
level_lem false true true m n z y w k v i f g =
    ap (λ b. m || (n && (b && k))) (g ∙ f) ∙ ap (λ b. m || (n && (b && w))) (sym f) ∙ i
level_lem false true false m n z y w k v i f g = ap (λ b. m || (n && (b && w))) g ∙ i
level_lem false false e m n z y w k v i f g = refl

end_lem :
    (h s l e m z w : Bool)
    → (e ≡ true → m ≡ true)
    → z ≡ e
    → ((h && e) || ((if h then e else (s || l) && m) && (z && (if e then h || s else w))))
      ≡ (e && (h || (s && true)))
end_lem true s l true m z w a b = refl
end_lem true s l false m z w a b = ap (λ b. false && (b && w)) b
end_lem false true l true m z w a b = ap₂ (λ b c. b && (c && true)) (a refl) b
end_lem false false l true m z w a b =
    ap (λ c. (l && m) && (c && false)) b ∙ and_false (l && m) true
end_lem false s l false m z w a b =
    ap (λ c. ((s || l) && m) && (c && w)) b ∙ and_false ((s || l) && m) w

short_lem : (p ls : List Bytes) → (is_empty p && (length p == suc (length ls))) ≡ false
short_lem [] ls = ground arith
short_lem (k ∷ p) ls = refl

alone_lem : (p : List Bytes) → (suc (length p) == 1) ≡ is_empty p
alone_lem [] = refl
alone_lem (k ∷ p) = ground arith

matches_nil : (p : List Bytes) → is_empty p ≡ true → matches p [] ≡ true
unfolding matches
matches_nil [] h = refl
matches_nil (k ∷ p) h = cc

-- The filters that the loops get to are those that cover the name.
covers-visits_with :
    (p ls : List Bytes)
    → (matches p ls
        || (matches p (ls ++ ([] ∷ [])) && (length p == suc (length ls) && ends_wild p)))
      ≡ visits p ls true
unfolding visits matches ends_wild
covers-visits_with [] [] = refl
covers-visits_with [] (l ∷ ls) = refl
covers-visits_with (k ∷ p) [] =
    end_lem (same_bytes k mwc) (same_bytes k swc) (same_bytes k []) (is_empty p) (matches p [])
      (suc (length p) == 1) (ends_wild p) (matches_nil p) (alone_lem p)
covers-visits_with (k ∷ p) (l ∷ ls) =
    level_lem (same_bytes k mwc) (same_bytes k swc || same_bytes k l) (is_empty p) (matches p ls)
      (matches p (ls ++ ([] ∷ []))) (suc (length p) == suc (suc (length ls)))
      (length p == suc (length ls)) (ends_wild p) (same_bytes k mwc || same_bytes k swc)
      (visits p ls true) (covers-visits_with p ls) (short_lem p ls) (ground arith)

covers-visits_without : (p ls : List Bytes) → matches p ls ≡ visits p ls false
unfolding visits matches
covers-visits_without [] [] = refl
covers-visits_without [] (l ∷ ls) = refl
covers-visits_without (k ∷ p) [] = ground arith
covers-visits_without (k ∷ p) (l ∷ ls) = ground (arith, covers-visits_without p ls)

pub covers-visits : (p ls : List Bytes) (slash : Bool) → covers p ls slash ≡ visits p ls slash
unfolding covers
covers-visits p ls false = covers-visits_without p ls
covers-visits p ls true = covers-visits_with p ls
