-- ===== src/Dict.antt =====
-- Python's dict: pairs of a key and a value in the order of insertion, with no key twice.
use jetsocket.Prelude.{
  ◌≡◌, refl, sym, ap, ◌∙◌, true, false, Option, none, some, List, [], ◌∷◌, Eq, beq_refl,
  if◌then◌else◌, Bool-cases, inl, inr,
}

abbrev pub Dict : Type 0 → Type 0 → Type 0
Dict K V = List (K × V)

module _ {K V : Type 0} ⦃e : Eq K⦄ where
  -- `d.get(k)`
  unfoldable pub get : Dict K V → K → Option V
  get [] k = none
  get ((a, v) ∷ d) k = if e.beq a k then some v else get d k

  -- `d[k] = v`
  unfoldable pub put : Dict K V → K → V → Dict K V
  put [] k v = (k, v) ∷ []
  put ((a, w) ∷ d) k v = if e.beq a k then (a, v) ∷ d else (a, w) ∷ put d k v

  -- `d.pop(k, None)` and `del d[k]`
  unfoldable pub delete : Dict K V → K → Dict K V
  delete [] k = []
  delete ((a, v) ∷ d) k = if e.beq a k then d else (a, v) ∷ delete d k

  get_here : (a k : K) (v : V) (d : Dict K V) → e.beq a k ≡ true → get ((a, v) ∷ d) k ≡ some v
  unfolding get
  get_here a k v d h = rw h refl

  get_past : (a k : K) (v : V) (d : Dict K V) → e.beq a k ≡ false → get ((a, v) ∷ d) k ≡ get d k
  unfolding get
  get_past a k v d h = rw h refl

  pub get-put_self : (d : Dict K V) (k : K) (v : V) → get (put d k v) k ≡ some v
  unfolding put
  get-put_self [] k v = get_here k k v [] (beq_refl k)
  get-put_self ((a, w) ∷ d) k v = elim (Bool-cases (e.beq a k)) [
    | inl same ↦ rw same (get_here a k v d same)
    | inr other ↦ rw other (get_past a k w (put d k v) other ∙ get-put_self d k v)
  ]

  pub get-put_other :
      (d : Dict K V) (k : K) (v : V) (j : K) → e.beq k j ≡ false → get (put d k v) j ≡ get d j
  unfolding put
  get-put_other [] k v j h = get_past k j v [] h
  get-put_other ((a, w) ∷ d) k v j h = elim (Bool-cases (e.beq a k)) [
    | inl same ↦
        let past : e.beq a j ≡ false = ap (λ x. e.beq x j) ((e.beq_iff a k).0 same) ∙ h in
        rw same (get_past a j v d past ∙ sym (get_past a j w d past))
    | inr other ↦ elim (Bool-cases (e.beq a j)) [
      | inl here ↦ rw other (get_here a j w (put d k v) here ∙ sym (get_here a j w d here))
      | inr past ↦
          rw other (
            get_past a j w (put d k v) past ∙ get-put_other d k v j h ∙ sym (get_past a j w d past))
    ]
  ]
