-- ===== src/Buffer/Window.antt =====
-- The window of recent sequence IDs of jetsocket/buffer.py as a list: membership, and the last few
-- elements of a history.
use jetsocket.Prelude.{
  ℕ, zero, suc, ◌+◌, ◌-◌, ◌≤◌, ◌≡◌, refl, sym, ap, ◌∙◌, false, ◌||◌, List, [], ◌∷◌, ◌++◌, length,
  length-append, drop, drop-length, ltb, Eq, beq_refl, ◌<◌, true, arith, Bool-cases, inl, inr,
}
use jetsocket.Buffer.Defs.{contains, evict_over}

-- The last `n` elements of a history.
abbrev pub last_n {ℓ} : {A : Type ℓ} → ℕ → List A → List A
last_n n xs = drop (length xs - n) xs

module _ {ℓ} {A : Type ℓ} where
  pub length-last_n : (n : ℕ) (xs : List A) → length (last_n n xs) ≤ n
  length-last_n n xs = omega (arith, drop-length (length xs - n) xs)

  drop-nil : (n : ℕ) → drop {A = A} n [] ≡ []
  drop-nil zero = refl
  drop-nil (suc n) = refl

  pub last_n-nil : (n : ℕ) → last_n {A = A} n [] ≡ []
  last_n-nil n = drop-nil (0 - n)

  -- The eviction loop keeps the last `window` elements.
  pub evict_over-eq-last_n : (window : ℕ) (xs : List A) → evict_over window xs ≡ last_n window xs
  evict_over-eq-last_n window [] = sym (drop-nil (0 - window))
  evict_over-eq-last_n window (x ∷ xs) = elim (Bool-cases (ltb window (suc (length xs)))) [
    | inl over ↦ rw over (
        evict_over-eq-last_n window xs
        ∙ ap (λ k. drop k (x ∷ xs)) {x = suc (length xs - window)} {y = suc (length xs) - window}
            (ground arith))
    | inr fits ↦
        rw fits (ap (λ k. drop k (x ∷ xs)) {x = 0} {y = suc (length xs) - window} (ground arith))
  ]

  pub drop-append : (n : ℕ) (xs ys : List A) → n ≤ length xs → drop n (xs ++ ys) ≡ drop n xs ++ ys
  drop-append zero xs ys h = refl
  drop-append (suc n) [] ys h = elim h [ ]
  drop-append (suc n) (x ∷ xs) ys h = drop-append n xs ys (omega arith)

  drop-drop : (m n : ℕ) (xs : List A) → drop m (drop n xs) ≡ drop (n + m) xs
  drop-drop m zero xs = ap (λ k. drop k xs) {x = m} {y = 0 + m} (omega arith)
  drop-drop m (suc n) [] = drop-nil m ∙ sym (drop-nil (suc n + m))
  drop-drop m (suc n) (x ∷ xs) =
      drop-drop m n xs ∙ ap (λ k. drop k (x ∷ xs)) {x = suc (n + m)} {y = suc n + m} (omega arith)

  -- Adding to the window and evicting is adding to the history and taking its window.
  pub last_n-append :
      (n : ℕ) (h : List A) (x : A) → last_n n (last_n n h ++ (x ∷ [])) ≡ last_n n (h ++ (x ∷ []))
  last_n-append n h x =
      let k = length h - n in
      let split : drop k h ++ (x ∷ []) ≡ drop k (h ++ (x ∷ [])) =
        sym (drop-append k h (x ∷ []) (omega arith)) in
      ap (last_n n) split
      ∙ drop-drop (length (drop k (h ++ (x ∷ []))) - n) k (h ++ (x ∷ []))
      ∙ ap (λ j. drop j (h ++ (x ∷ []))) {x = k + (length (drop k (h ++ (x ∷ []))) - n)}
          {y = length (h ++ (x ∷ [])) - n}
          (omega (arith, drop-length k (h ++ (x ∷ [])), length-append h (x ∷ [])))

-- No element of the list stands in it twice.
abbrev pub IsDistinct {ℓ} : {A : Type ℓ} ⦃e : Eq A⦄ → List A → Type 0
IsDistinct [] = Unit
IsDistinct (x ∷ xs) = (contains xs x ≡ false) × IsDistinct xs

module _ {ℓ} {A : Type ℓ} ⦃e : Eq A⦄ where
  pub contains-append :
      (xs ys : List A) (a : A) → contains (xs ++ ys) a ≡ (contains xs a || contains ys a)
  contains-append [] ys a = refl
  contains-append (x ∷ xs) ys a = ground (arith, contains-append xs ys a)

  pub contains-drop :
      (n : ℕ) (xs : List A) (a : A) → contains xs a ≡ false → contains (drop n xs) a ≡ false
  contains-drop zero xs a h = h
  contains-drop (suc n) [] a h = h
  contains-drop (suc n) (x ∷ xs) a h = contains-drop n xs a (ground arith)

  pub IsDistinct-append :
      (xs : List A) (a : A) → IsDistinct xs → contains xs a ≡ false → IsDistinct (xs ++ (a ∷ []))
  IsDistinct-append [] a d h = (refl, tt)
  IsDistinct-append (x ∷ xs) a d h = (
    ground (arith, contains-append xs (a ∷ []) x, e.beq_iff a x, e.beq_iff x a),
    IsDistinct-append xs a d.1 (ground arith),
  )

  pub IsDistinct-drop : (n : ℕ) (xs : List A) → IsDistinct xs → IsDistinct (drop n xs)
  IsDistinct-drop zero xs d = d
  IsDistinct-drop (suc n) [] d = d
  IsDistinct-drop (suc n) (x ∷ xs) d = IsDistinct-drop n xs d.1

  pub contains-append_self : (xs : List A) (a : A) → contains (xs ++ (a ∷ [])) a ≡ true
  contains-append_self [] a = ground (arith, beq_refl a)
  contains-append_self (x ∷ xs) a = ground (arith, contains-append_self xs a)

  -- The newest ID stays in a window of positive size.
  pub contains-last_n_append :
      (n : ℕ) (xs : List A) (a : A) → 0 < n → contains (last_n n (xs ++ (a ∷ []))) a ≡ true
  contains-last_n_append n xs a pos =
      rw
        (drop-append (length (xs ++ (a ∷ [])) - n) xs (a ∷ [])
          (omega (arith, length-append xs (a ∷ []))))
        (contains-append_self (drop (length (xs ++ (a ∷ [])) - n) xs) a)
