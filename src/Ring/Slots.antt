-- ===== src/Ring/Slots.antt =====
-- Reading round a circular buffer.
use native.Mathlib.Nat.{add-zero, mod-mod, mod-add-mod, mod-lt, mod-eq_of_lt, div-add-mod}
use jetsocket.Prelude.{
  ℕ, zero, suc, ◌+◌, ◌*◌, ◌/◌, ◌-◌, ◌%◌, ◌≤◌, ◌<◌, ◌≡◌, ◌≢◌, refl, ap, ap₂, ◌∙◌, List, [], ◌∷◌,
  ◌++◌, Option, none, length, get_or, set, get_or-set_self, get_or-set_ne, arith, sym, dec_lt,
}

module _ {ℓ} {A : Type ℓ} (buffer : List (Option A)) (capacity : ℕ) where
  -- The `n` slots from index `h` on, each index taken modulo the capacity.
  abbrev pub slots : ℕ → ℕ → List (Option A)
  slots h zero = []
  slots h (suc n) = get_or buffer (h % capacity) none ∷ slots (h + 1) n

mul_step : (c p q : ℕ) → p < q → c * p + c ≤ c * q
mul_step c p q h = grind arith

mul_mono : (c p q : ℕ) → q ≤ p → c * q ≤ c * p
mul_mono c p q h = grind arith

-- Two indices less than one round apart are different slots.
round_ne : (capacity a b : ℕ) → a < b → b < a + capacity → b % capacity ≢ a % capacity
round_ne capacity a b lt near e = elim (dec_lt (a / capacity) (b / capacity)) [
  | yes p ↦ omega (
    arith,
    mul_step capacity (a / capacity) (b / capacity) p,
    div-add-mod a capacity,
    div-add-mod b capacity,
  )
  | no p ↦ omega (
    arith,
    mul_mono capacity (a / capacity) (b / capacity) (omega arith),
    div-add-mod a capacity,
    div-add-mod b capacity,
  )
]

module _ {ℓ} {A : Type ℓ} where
  pub slots-mod :
      (buffer : List (Option A)) (capacity h n : ℕ)
      → slots buffer capacity (h % capacity) n ≡ slots buffer capacity h n
  slots-mod buffer capacity h zero = refl
  slots-mod buffer capacity h (suc n) =
      ap₂ ◌∷◌ (ap (λ i. get_or buffer i none) (mod-mod h capacity)) (
        sym (slots-mod buffer capacity (h % capacity + 1) n)
        ∙ ap (λ i. slots buffer capacity i n) (mod-add-mod h capacity 1)
        ∙ slots-mod buffer capacity (h + 1) n)

  -- A write to a slot that the run does not visit.
  slots-set_ne :
      (buffer : List (Option A)) (capacity h n i : ℕ) (v : Option A)
      → h < i
      → i + n ≤ h + capacity
      → slots (set buffer (h % capacity) v) capacity i n ≡ slots buffer capacity i n
  slots-set_ne buffer capacity h zero i v p q = refl
  slots-set_ne buffer capacity h (suc n) i v p q =
      ap₂ ◌∷◌ (get_or-set_ne buffer v none (λ e. round_ne capacity h i p (omega arith) (sym e)))
        (slots-set_ne buffer capacity h n (i + 1) v (omega arith) (omega arith))

  -- A write at the head of a run does not change the rest of it.
  pub slots-set_head :
      (buffer : List (Option A)) (capacity h n : ℕ) (v : Option A)
      → h < capacity
      → n ≤ capacity
      → slots (set buffer h v) capacity ((h + 1) % capacity) (n - 1)
        ≡ slots buffer capacity ((h + 1) % capacity) (n - 1)
  slots-set_head buffer capacity h n v lt le =
      slots-mod (set buffer h v) capacity (h + 1) (n - 1)
      ∙ ap (λ i. slots (set buffer i v) capacity (h + 1) (n - 1)) (sym (mod-eq_of_lt lt))
      ∙ slots-set_ne buffer capacity h (n - 1) (h + 1) v (omega arith) (omega arith)
      ∙ sym (slots-mod buffer capacity (h + 1) (n - 1))

  pub length-slots :
      (buffer : List (Option A)) (capacity h n : ℕ) → length (slots buffer capacity h n) ≡ n
  length-slots buffer capacity h zero = refl
  length-slots buffer capacity h (suc n) = ap suc (length-slots buffer capacity (h + 1) n)

  -- A write just past a run makes it longer by one slot.
  pub slots-set_end :
      (buffer : List (Option A)) (capacity h n i : ℕ) (v : Option A)
      → 0 < capacity
      → capacity ≤ length buffer
      → n < capacity
      → i ≡ (h + n) % capacity
      → slots (set buffer i v) capacity h (suc n) ≡ slots buffer capacity h n ++ (v ∷ [])
  slots-set_end buffer capacity h zero i v pos room lt e =
      ap (λ x. x ∷ [])
        (rw (e, add-zero)
          (get_or-set_self buffer (h % capacity) v none (omega (arith, mod-lt h pos))))
  slots-set_end buffer capacity h (suc n) i v pos room lt e =
      ap₂ ◌∷◌
        (get_or-set_ne buffer v none
          (rw e (round_ne capacity h (h + suc n) (omega arith) (omega arith))))
        (slots-set_end buffer capacity (h + 1) n i v pos room (omega arith)
          (e ∙ ap (λ k. k % capacity) (omega arith)))
