-- ===== src/Base/Window.antt =====
-- The entries of a ring from a slot on, going round at its size.
use simq.Base.{
  ℕ, zero, suc, ◌+◌, ◌-◌, ◌%◌, ◌≤◌, ◌<◌, ◌≡◌, ◌≢◌, refl, sym, subst, ap, ap₂, ◌∙◌, List, [], ◌∷◌,
  ◌++◌, length, get_or, set, take, drop, arith,
}
use native.Mathlib.Nat.{mod-add-mod, mod-eq_of_lt, mod-eq-sub-mod, add-zero}
use native.Mathlib.Decide.{dec_lt}

-- Fewer than `size` steps round the ring lead to another slot.
pub steps_apart : {size h k : ℕ} → h < size → 0 < k → k < size → (h + k) % size ≢ h
steps_apart {size} {h} {k} a b c = elim (dec_lt (h + k) size) [
  | yes p ↦ omega (arith, mod-eq_of_lt p)
  | no p ↦ omega (
    arith,
    mod-eq-sub-mod {n = h + k} {m = size} (omega arith),
    mod-eq_of_lt {n = h + k - size} {m = size} (omega arith),
  )
]

pub step_in : (size h : ℕ) → h < size → (h + 1) % size < size
step_in size h p = omega arith

-- A step, and `k` more.
pub step_more : (size h k : ℕ) → ((h + 1) % size + k) % size ≡ (h + suc k) % size
step_more size h k = rw mod-add-mod (ap (λ n. n % size) (omega arith))

pub wrap_next : (size h n : ℕ) → ((h + n) % size + 1) % size ≡ (h + (n + 1)) % size
wrap_next size h n = rw mod-add-mod (ap (λ k. k % size) (omega arith))

pub wrap_rest : (size h n : ℕ) → n ≢ 0 → (h + n) % size ≡ ((h + 1) % size + (n - 1)) % size
wrap_rest size h n ne = rw mod-add-mod (ap (λ k. k % size) (omega arith))

module _ {ℓ} {A : Type ℓ} (d : A) (size : ℕ) where
  abbrev pub window : List A → ℕ → ℕ → List A
  window ring h zero = []
  window ring h (suc n) = get_or ring h d ∷ window ring ((h + 1) % size) n

  pub length-window : (ring : List A) (h n : ℕ) → length (window ring h n) ≡ n
  length-window ring h zero = refl
  length-window ring h (suc n) = ap suc (length-window ring ((h + 1) % size) n)

  get_or_ne : (xs : List A) (i j : ℕ) (v : A) → i ≢ j → get_or (set xs i v) j d ≡ get_or xs j d
  get_or_ne [] i j v ne = refl
  get_or_ne (x ∷ xs) zero zero v ne = absurd (ne refl)
  get_or_ne (x ∷ xs) zero (suc j) v ne = refl
  get_or_ne (x ∷ xs) (suc i) zero v ne = refl
  get_or_ne (x ∷ xs) (suc i) (suc j) v ne = get_or_ne xs i j v (λ e. ne (ap suc e))

  get_or_self : (xs : List A) (i : ℕ) (v : A) → i < length xs → get_or (set xs i v) i d ≡ v
  get_or_self [] i v h = absurd (omega arith)
  get_or_self (x ∷ xs) zero v h = refl
  get_or_self (x ∷ xs) (suc i) v h = get_or_self xs i v (omega arith)

  -- A write to a slot that is not in the window.
  pub window-set_out :
      (ring : List A) (i : ℕ) (v : A) (h n : ℕ)
      → h < size
      → ((j : ℕ) → j < n → (h + j) % size ≢ i)
      → window (set ring i v) h n ≡ window ring h n
  window-set_out ring i v h zero p out = refl
  window-set_out ring i v h (suc n) p out =
      ap₂ ◌∷◌
        (get_or_ne ring i h v (λ e. out 0 (omega arith) (rw add-zero (mod-eq_of_lt p ∙ sym e))))
        (window-set_out ring i v ((h + 1) % size) n (step_in size h p)
          (λ j q e. out (suc j) (omega arith) (sym (step_more size h j) ∙ e)))

  -- A write to the `j`-th slot of the window writes its `j`-th entry.
  pub window-set :
      (ring : List A) (v : A) (h n j : ℕ)
      → size ≤ length ring
      → h < size
      → n ≤ size
      → j < n
      → window (set ring ((h + j) % size) v) h n ≡ set (window ring h n) j v
  window-set ring v h zero j a p b c = absurd (omega arith)
  window-set ring v h (suc n) zero a p b c =
      let e : (h + 0) % size ≡ h = rw add-zero (mod-eq_of_lt p) in
      subst (λ i. window (set ring i v) h (suc n) ≡ v ∷ window ring ((h + 1) % size) n) (sym e)
        (ap₂ ◌∷◌ (get_or_self ring h v (omega arith)) (
          window-set_out ring h v ((h + 1) % size) n (step_in size h p) (λ j q eq.
            steps_apart {k = suc j} p (omega arith) (omega arith) (sym (step_more size h j) ∙ eq))))
  window-set ring v h (suc n) (suc j) a p b c =
      ap₂ ◌∷◌ (get_or_ne ring _ h v (steps_apart p (omega arith) (omega arith))) (
        ap (λ i. window (set ring i v) ((h + 1) % size) n) (sym (step_more size h j))
        ∙ window-set ring v ((h + 1) % size) n j a (step_in size h p) (omega arith) (omega arith))

  pub window-snoc :
      (ring : List A) (h n : ℕ)
      → h < size
      → window ring h (suc n) ≡ window ring h n ++ (get_or ring ((h + n) % size) d ∷ [])
  window-snoc ring h zero p = ap (λ k. get_or ring k d ∷ []) (sym (rw add-zero (mod-eq_of_lt p)))
  window-snoc ring h (suc n) p =
      ap (λ zs. get_or ring h d ∷ zs)
        (window-snoc ring ((h + 1) % size) n (step_in size h p)
          ∙ ap (λ k. window ring ((h + 1) % size) n ++ (get_or ring k d ∷ [])) (step_more size h n))

  pub set-snoc : (xs : List A) (x v : A) → set (xs ++ (x ∷ [])) (length xs) v ≡ xs ++ (v ∷ [])
  set-snoc [] x v = refl
  set-snoc (y ∷ xs) x v = ap (λ zs. y ∷ zs) (set-snoc xs x v)

  -- A write just past the window makes it longer.
  pub window-push :
      (ring : List A) (v : A) (h n : ℕ)
      → size ≤ length ring
      → h < size
      → n < size
      → window (set ring ((h + n) % size) v) h (n + 1) ≡ window ring h n ++ (v ∷ [])
  window-push ring v h n a p b =
      ap (window (set ring ((h + n) % size) v) h) {y = suc n} (omega arith)
      ∙ window-set ring v h (suc n) n a p b (omega arith)
      ∙ ap (λ xs. set xs n v) (window-snoc ring h n p)
      ∙ ap (λ k. set (window ring h n ++ (get_or ring ((h + n) % size) d ∷ [])) k v)
          (sym (length-window ring h n))
      ∙ set-snoc (window ring h n) (get_or ring ((h + n) % size) d) v

  pub get_or-window :
      (ring : List A) (h n j : ℕ)
      → h < size
      → j < n
      → get_or (window ring h n) j d ≡ get_or ring ((h + j) % size) d
  get_or-window ring h zero j p b = absurd (omega arith)
  get_or-window ring h (suc n) zero p b =
      ap (λ k. get_or ring k d) (sym (rw add-zero (mod-eq_of_lt p)))
  get_or-window ring h (suc n) (suc j) p b =
      get_or-window ring ((h + 1) % size) n j (step_in size h p) (omega arith)
      ∙ ap (λ k. get_or ring k d) (step_more size h j)

  -- The oldest entry and the rest, the slot of the first being free.
  pub window-pop :
      (ring : List A) (v : A) (h n : ℕ)
      → h < size
      → n ≤ size
      → n ≢ 0
      → window ring h n ≡ get_or ring h d ∷ window (set ring h v) ((h + 1) % size) (n - 1)
  window-pop ring v h zero p a ne = absurd (ne refl)
  window-pop ring v h (suc n) p a ne =
      ap (λ xs. get_or ring h d ∷ xs)
        (sym (
          ap (window (set ring h v) ((h + 1) % size)) {y = n} (omega arith)
          ∙ window-set_out ring h v ((h + 1) % size) n (step_in size h p) (λ j q eq.
            steps_apart {k = suc j} p (omega arith) (omega arith) (sym (step_more size h j) ∙ eq))))

  drop-cons : (xs : List A) (h : ℕ) → h < length xs → drop h xs ≡ get_or xs h d ∷ drop (suc h) xs
  drop-cons [] h p = absurd (omega arith)
  drop-cons (x ∷ xs) zero p = refl
  drop-cons (x ∷ xs) (suc h) p = drop-cons xs h (omega arith)

  -- A window that reaches to the end of the ring, and what comes after.
  pub window-run :
      (ring : List A) (h n m : ℕ)
      → length ring ≡ size
      → 0 < size
      → h + n ≤ size
      → window ring (h % size) (n + m) ≡ take n (drop h ring) ++ window ring ((h + n) % size) m
  window-run ring h zero m e z p =
      ap₂ (window ring) (ap (λ k. k % size) (omega arith)) (omega arith)
  window-run ring h (suc n) m e z p =
      let same : h % size ≡ h = mod-eq_of_lt (omega arith) in
      let next : (h % size + 1) % size ≡ suc h % size = ap (λ k. k % size) (omega (arith, same)) in
      ap (window ring (h % size)) {y = suc (n + m)} (omega arith)
      ∙ ap₂ ◌∷◌ (ap (λ k. get_or ring k d) same) (
          ap (λ k. window ring k (n + m)) next
          ∙ window-run ring (suc h) n m e z (omega arith)
          ∙ ap (λ k. take n (drop (suc h) ring) ++ window ring (k % size) m) (omega arith))
      ∙ ap (λ xs. take (suc n) xs ++ window ring ((h + suc n) % size) m)
          (sym (drop-cons ring h (omega (arith, e))))
